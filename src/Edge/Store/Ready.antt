-- ===== src/Edge/Store/Ready.antt =====
-- What `Ready` hands to the uploader.
use ambagrid.Common.{
  zero, suc, ℕ, ◌+◌, ◌≤◌, ◌<◌, ◌≡◌, ◌≢◌, refl, sym, inl, inr, Bool, true, false, ◌&&◌, List, [],
  ◌∷◌, arith, All, length, take, select_where, exists_where, ltb, to_ms, text_eq_iff, Bool-cases,
}
use ambagrid.Edge.Domain.{pending_upload, is_active}
use ambagrid.Edge.Store.Schema.{Db, Row}
use ambagrid.Edge.Store.Capacity.{Config}
use ambagrid.Edge.Store.Queries.{is_due, blocks, eligible, fill_batch, ready_rows}
use ambagrid.Edge.Store.Lifecycle.{Holds}
use ambagrid.Edge.Store.Invariant.{Ordered, Ordered-weaken, Inv}

-- A row that may be sent: it stands in the table, is pending and due, and no unfinished row of its
-- device comes before it.
pub record IsHead (rows : List Row) (now_ms : ℕ) (r : Row) : Type 0 where
  pub stands : Holds r rows
  pub pending : r.status ≡ pending_upload
  pub due : is_due now_ms r.next_attempt_at_ms ≡ true
  pub first :
      (e : Row)
      → Holds e rows
      → e.device_id ≡ r.device_id
      → e.sequence < r.sequence
      → is_active e.status ≡ false

not_blocked :
    (r : Row) (rows : List Row)
    → exists_where (blocks r) rows ≡ false
    → (e : Row) → Holds e rows
    → e.device_id ≡ r.device_id
    → e.sequence < r.sequence
    → is_active e.status ≡ false
unfolding exists_where blocks
not_blocked r [] h e held d l = absurd held
not_blocked r (x ∷ xs) h e (inl same) d l = ground (arith, text_eq_iff x.device_id r.device_id)
not_blocked r (x ∷ xs) h e (inr held) d l = not_blocked r xs (ground arith) e held d l

eligible-IsHead :
    (rows : List Row) (now_ms : ℕ) (r : Row)
    → Holds r rows
    → eligible rows now_ms r ≡ true
    → IsHead rows now_ms r
unfolding eligible
eligible-IsHead rows now_ms r held h = record {
  stands = held;
  pending = ground arith;
  due = ground arith;
  first = not_blocked r rows (ground arith);
}

module _ (P : Row → Type 0) where
  select_where-All :
      (p : Row → Bool) (rs all : List Row)
      → ((r : Row) → Holds r rs → Holds r all)
      → ((r : Row) → Holds r all → p r ≡ true → P r)
      → All P (select_where p rs)
  unfolding select_where
  select_where-All p [] all inc h = tt
  select_where-All p (r ∷ rs) all inc h =
      let rest = select_where-All p rs all (λ x held. inc x (inr held)) h in
      elim (Bool-cases (p r)) [
        | inl hit ↦ rw hit (h r (inc r (inl refl)) hit, rest)
        | inr miss ↦ rw miss rest
      ]

  take-All : (n : ℕ) (rs : List Row) → All P rs → All P (take n rs)
  take-All zero rs h = tt
  take-All (suc n) [] h = tt
  take-All (suc n) (r ∷ rs) h = (h.0, take-All n rs h.1)

  fill_batch-All :
      (max_bytes : ℕ) (started : Bool) (total : ℕ) (rs : List Row)
      → All P rs
      → All P (fill_batch max_bytes started total rs)
  unfolding fill_batch
  fill_batch-All max_bytes started total [] h = tt
  fill_batch-All max_bytes started total (r ∷ rs) h =
      let rest = fill_batch-All max_bytes true (total + length r.payload) rs h.1 in
      elim (Bool-cases (started && ltb max_bytes (total + length r.payload))) [
        | inl full ↦ rw full tt
        | inr room ↦ rw room (h.0, rest)
      ]

-- Every row of a batch is the first unfinished row of its device, pending and due: an event is never
-- sent before an earlier one of the same device is finished.
pub ready_rows-IsHead :
    (now limit max_bytes : ℕ) (db : Db)
    → All (IsHead db.events (to_ms now)) (ready_rows now limit max_bytes db)
unfolding ready_rows
ready_rows-IsHead now limit max_bytes db =
    let head = IsHead db.events (to_ms now) in
    fill_batch-All head max_bytes false 0 _ (
      take-All head limit _ (
        select_where-All head (eligible db.events (to_ms now)) db.events db.events (λ r h. h)
          (eligible-IsHead db.events (to_ms now))))

Ordered-le : (lo hi : ℕ) (rs : List Row) → Ordered lo hi rs → lo ≤ hi
Ordered-le lo hi [] o = o
Ordered-le lo hi (r ∷ rs) o = omega (arith, Ordered-le r.sequence hi rs o.1)

select_where-Ordered :
    (p : Row → Bool) (lo hi : ℕ) (rs : List Row)
    → Ordered lo hi rs
    → Ordered lo hi (select_where p rs)
unfolding select_where
select_where-Ordered p lo hi [] o = o
select_where-Ordered p lo hi (r ∷ rs) o =
    let rest = select_where-Ordered p r.sequence hi rs o.1 in
    elim (Bool-cases (p r)) [
      | inl hit ↦ rw hit (o.0, rest)
      | inr miss ↦ rw miss (Ordered-weaken r.sequence lo hi (select_where p rs) (omega arith) rest)
    ]

take-Ordered : (n lo hi : ℕ) (rs : List Row) → Ordered lo hi rs → Ordered lo hi (take n rs)
take-Ordered zero lo hi rs o = Ordered-le lo hi rs o
take-Ordered (suc n) lo hi [] o = o
take-Ordered (suc n) lo hi (r ∷ rs) o = (o.0, take-Ordered n r.sequence hi rs o.1)

fill_batch-Ordered :
    (max_bytes : ℕ) (started : Bool) (total lo hi : ℕ) (rs : List Row)
    → Ordered lo hi rs
    → Ordered lo hi (fill_batch max_bytes started total rs)
unfolding fill_batch
fill_batch-Ordered max_bytes started total lo hi [] o = o
fill_batch-Ordered max_bytes started total lo hi (r ∷ rs) o =
    let rest = fill_batch-Ordered max_bytes true (total + length r.payload) r.sequence hi rs o.1 in
    elim (Bool-cases (started && ltb max_bytes (total + length r.payload))) [
      | inl full ↦ rw full (Ordered-le lo hi (r ∷ rs) o)
      | inr room ↦ rw room (o.0, rest)
    ]

-- No two rows of the list belong to one device.
abbrev pub OneEach : List Row → Type 0
OneEach [] = Unit
OneEach (r ∷ rs) = All (λ s. s.device_id ≢ r.device_id) rs × OneEach rs

later_differ :
    (rows : List Row) (now_ms hi : ℕ) (r : Row) (rs : List Row)
    → IsHead rows now_ms r
    → (lo : ℕ) → r.sequence ≤ lo
    → Ordered lo hi rs
    → All (IsHead rows now_ms) rs
    → All (λ s. s.device_id ≢ r.device_id) rs
later_differ rows now_ms hi r [] head lo l o hs = tt
later_differ rows now_ms hi r (s ∷ rs) head lo l o hs = (
  λ e. ground (arith, hs.0.first r head.stands (sym e) (omega arith), head.pending),
  later_differ rows now_ms hi r rs head s.sequence (omega arith) o.1 hs.1,
)

heads-OneEach :
    (rows : List Row) (now_ms lo hi : ℕ) (rs : List Row)
    → Ordered lo hi rs
    → All (IsHead rows now_ms) rs
    → OneEach rs
heads-OneEach rows now_ms lo hi [] o hs = tt
heads-OneEach rows now_ms lo hi (r ∷ rs) o hs = (
  later_differ rows now_ms hi r rs hs.0 r.sequence (omega arith) o.1 hs.1,
  heads-OneEach rows now_ms r.sequence hi rs o.1 hs.1,
)

ready_rows-Ordered :
    (now limit max_bytes : ℕ) (db : Db)
    → Ordered 0 db.last_sequence db.events
    → Ordered 0 db.last_sequence (ready_rows now limit max_bytes db)
unfolding ready_rows
ready_rows-Ordered now limit max_bytes db o =
    fill_batch-Ordered max_bytes false 0 0 db.last_sequence _ (
      take-Ordered limit 0 db.last_sequence _
        (select_where-Ordered (eligible db.events (to_ms now)) 0 db.last_sequence db.events o))

-- A batch holds its rows in the order of their sequences, and at most one of each device.
pub ready_rows-OneEach :
    (c : Config) (now limit max_bytes : ℕ) (db : Db)
    → Inv c db
    → Ordered 0 db.last_sequence (ready_rows now limit max_bytes db)
      × OneEach (ready_rows now limit max_bytes db)
ready_rows-OneEach c now limit max_bytes db v =
    let o = ready_rows-Ordered now limit max_bytes db v.ordered in
    (
      o,
      heads-OneEach db.events (to_ms now) 0 db.last_sequence _ o
          (ready_rows-IsHead now limit max_bytes db),
    )
