-- ===== src/Edge/Store/Batches.antt =====
-- How large the batches of `Ready` are, and that a record too large for one is not starved.
use ambagrid.Common.{
  ℕ, zero, suc, ◌+◌, ◌≤◌, ◌<◌, ◌≡◌, ◌≢◌, refl, ◌⊎◌, inl, inr, Bool, true, false, List, [], ◌∷◌,
  arith, length, take, select_where, ltb, to_ms, Bool-cases, length-take-le,
}
use ambagrid.Edge.Store.Schema.{Db, Row}
use ambagrid.Edge.Store.Queries.{eligible, fill_batch, ready_rows}
use ambagrid.Edge.Store.Lifecycle.{Holds}

abbrev pub payload_total : List Row → ℕ
payload_total [] = 0
payload_total (r ∷ rs) = length r.payload + payload_total rs

length-fill_batch :
    (max_bytes : ℕ) (started : Bool) (total : ℕ) (rs : List Row)
    → length (fill_batch max_bytes started total rs) ≤ length rs
unfolding fill_batch
length-fill_batch max_bytes started total [] = omega arith
length-fill_batch max_bytes started total (r ∷ rs) =
    ground (arith, length-fill_batch max_bytes true (total + length r.payload) rs)

-- Behind the first record, either nothing more is taken or everything taken fits.
fill_batch_fits :
    (max_bytes total : ℕ) (rs : List Row)
    → (fill_batch max_bytes true total rs ≡ [])
      ⊎ (total + payload_total (fill_batch max_bytes true total rs) ≤ max_bytes)
unfolding fill_batch
fill_batch_fits max_bytes total [] = inl refl
fill_batch_fits max_bytes total (r ∷ rs) =
    elim (Bool-cases (ltb max_bytes (total + length r.payload))) [
      | inl full ↦ inl (rw full refl)
      | inr room ↦
          inr (rw room (ground (arith, fill_batch_fits max_bytes (total + length r.payload) rs)))
    ]

fill_first_fits :
    (max_bytes : ℕ) (rs : List Row)
    → (length (fill_batch max_bytes false 0 rs) ≤ 1)
      ⊎ (payload_total (fill_batch max_bytes false 0 rs) ≤ max_bytes)
unfolding fill_batch
fill_first_fits max_bytes [] = inl (omega arith)
fill_first_fits max_bytes (r ∷ rs) =
    ground (arith, fill_batch_fits max_bytes (0 + length r.payload) rs)

-- A batch has at most `limit` records, and its payloads fit `max_bytes` unless it is a single record.
pub ready_rows_bounded :
    (now limit max_bytes : ℕ) (db : Db)
    → let batch = ready_rows now limit max_bytes db in
      (length batch ≤ limit) × ((length batch ≤ 1) ⊎ (payload_total batch ≤ max_bytes))
unfolding ready_rows
ready_rows_bounded now limit max_bytes db =
    let heads = select_where (eligible db.events (to_ms now)) db.events in
    (
      omega (
        arith,
        length-fill_batch max_bytes false 0 (take limit heads),
        length-take-le limit heads,
      ),
      fill_first_fits max_bytes (take limit heads),
    )

select_where-ne-nil :
    (p : Row → Bool) (r : Row) (rs : List Row) → Holds r rs → p r ≡ true → select_where p rs ≢ []
unfolding select_where
select_where-ne-nil p r [] held h = absurd held
select_where-ne-nil p r (x ∷ rs) (inl e) h = ground arith
select_where-ne-nil p r (x ∷ rs) (inr held) h = ground (arith, select_where-ne-nil p r rs held h)

fill_take-ne-nil :
    (max_bytes limit : ℕ) (rs : List Row)
    → rs ≢ []
    → 0 < limit
    → fill_batch max_bytes false 0 (take limit rs) ≢ []
unfolding fill_batch
fill_take-ne-nil max_bytes limit [] h l = absurd (h refl)
fill_take-ne-nil max_bytes zero (r ∷ rs) h l = elim l [ ]
fill_take-ne-nil max_bytes (suc limit) (r ∷ rs) h l = ground arith

-- While one row is eligible a batch is not empty, however large its payload is.
pub ready_rows-ne-nil :
    (now limit max_bytes : ℕ) (db : Db) (r : Row)
    → 0 < limit
    → Holds r db.events
    → eligible db.events (to_ms now) r ≡ true
    → ready_rows now limit max_bytes db ≢ []
unfolding ready_rows
ready_rows-ne-nil now limit max_bytes db r l held h =
    fill_take-ne-nil max_bytes limit _
      (select_where-ne-nil (eligible db.events (to_ms now)) r db.events held h) l
