-- ===== src/Edge/Store/Outcomes.antt =====
-- What the store holds once a call of the uploader or a restart has succeeded.
use ambagrid.Common.{
  All-map, refl, exists_where, ◌<◌, ◌≢◌, inr, inl, ℕ, ◌≡◌, Bool, true, Text, List, [], ◌∷◌, arith,
  All, ok, to_ms, update_where, some, if◌then◌else◌,
}
use ambagrid.Edge.Errors.{Faults}
use ambagrid.Edge.Domain.{pending_upload, is_active}
use ambagrid.Edge.Store.Queries.{is_due, ready_rows}
use ambagrid.Edge.Store.Ready.{IsHead, ready_rows-IsHead}
use ambagrid.Edge.Store.Schema.{replay_pending, Db, Row, row_active}
use ambagrid.Edge.Store.Completion.{
  recovered, recover_interrupted, contact_failure, recover_row, mark_failed_with, failed_db,
  row_sent, fail_row, replay_row,
}
use ambagrid.Edge.Store.Lifecycle.{Holds}

All-Holds : (P : Row → Type 0) (rs : List Row) → All P rs → (r : Row) → Holds r rs → P r
All-Holds P [] h r held = absurd held
All-Holds P (x ∷ rs) h r (inl e) = rw e h.0
All-Holds P (x ∷ rs) h r (inr held) = All-Holds P rs h.1 r held

mark_failed_with-ok :
    (f : Faults) (n at : ℕ) (cause : Text) (rejected : Bool) (db : Db)
    → (mark_failed_with f n at cause rejected db).1 ≡ ok tt
    → (mark_failed_with f n at cause rejected db).0
      ≡ failed_db n (if rejected then 1 else 0) at cause db
unfolding mark_failed_with
mark_failed_with-ok f n at cause rejected db h = ground arith

-- A row of sequence `n` that is pending waits for `at_ms`, and an unfinished row is a replay.
abbrev Postponed : ℕ → ℕ → Row → Type 0
Postponed n at_ms r =
    (r.sequence ≡ n → r.status ≡ pending_upload → r.next_attempt_at_ms ≡ some at_ms)
    × (is_active r.status ≡ true → r.replay_required ≡ true)

failed_rows-Postponed :
    (n increment at : ℕ) (cause : Text) (rows : List Row)
    → All (Postponed n (to_ms at)) (
        update_where row_active replay_row
          (update_where (row_sent n) (fail_row increment at cause) rows))
unfolding update_where row_sent fail_row
failed_rows-Postponed n increment at cause [] = tt
failed_rows-Postponed n increment at cause (r ∷ rows) =
    (ground arith, failed_rows-Postponed n increment at cause rows)

Postponed-absent :
    (n now_ms at_ms : ℕ) (rows batch : List Row)
    → now_ms < at_ms
    → All (Postponed n at_ms) rows
    → All (IsHead rows now_ms) batch
    → All (λ r. r.sequence ≢ n) batch
unfolding is_due
Postponed-absent n now_ms at_ms rows [] l h hs = tt
Postponed-absent n now_ms at_ms rows (r ∷ batch) l h hs = (
  λ e.
      let p = All-Holds (Postponed n at_ms) rows h r hs.0.stands in
      ground (arith, p.0 e hs.0.pending, hs.0.due),
  Postponed-absent n now_ms at_ms rows batch l h hs.1,
)

-- After `markFailed` (of `MarkFailed` or `MarkRejected`) succeeded for the record `n`, no batch
-- before the retry time holds that record; every unfinished row is marked for replay, and replay
-- mode is on.
pub mark_failed_with-postpones :
    (f : Faults) (n at : ℕ) (cause : Text) (rejected : Bool) (db : Db) (now limit max_bytes : ℕ)
    → (mark_failed_with f n at cause rejected db).1 ≡ ok tt
    → to_ms now < to_ms at
    → let db' = (mark_failed_with f n at cause rejected db).0 in
      All (λ r. r.sequence ≢ n) (ready_rows now limit max_bytes db')
      × All (λ r. is_active r.status ≡ true → r.replay_required ≡ true) db'.events
      × (db'.sync.replay_mode_active ≡ true)
unfolding failed_db contact_failure
mark_failed_with-postpones f n at cause rejected db now limit max_bytes h l =
    rw (mark_failed_with-ok f n at cause rejected db h) (
      let increment = if rejected then 1 else 0 in
      let db' = failed_db n increment at cause db in
      let rows = failed_rows-Postponed n increment at cause db.events in
      (
        Postponed-absent n (to_ms now) (to_ms at) db'.events _ l rows
            (ready_rows-IsHead now limit max_bytes db'),
        All-map (Postponed n (to_ms at)) _ db'.events (λ r p. p.1) rows,
        refl,
      ))

-- A row of the queue as a restart leaves it.
abbrev pub Recovered : Row → Type 0
Recovered r = is_active r.status ≡ true → (r.status ≡ pending_upload) × (r.replay_required ≡ true)

restarted_rows-Recovered :
    (rows : List Row) → All Recovered (update_where row_active recover_row rows)
unfolding update_where recover_row
restarted_rows-Recovered [] = tt
restarted_rows-Recovered (r ∷ rows) = (ground arith, restarted_rows-Recovered rows)

restarted_rows-replay :
    (rows : List Row)
    → replay_pending (update_where row_active recover_row rows) ≡ exists_where row_active rows
unfolding replay_pending exists_where update_where recover_row
restarted_rows-replay [] = refl
restarted_rows-replay (r ∷ rows) = ground (arith, restarted_rows-replay rows)

-- After `recoverInterrupted` succeeded, every unfinished row is pending and marked for replay, and
-- replay mode is on exactly if the crash left an unfinished row.
pub recover_interrupted-Recovered :
    (f : Faults) (db : Db)
    → (recover_interrupted f db).1 ≡ ok tt
    → let db' = (recover_interrupted f db).0 in
      All Recovered db'.events × (db'.sync.replay_mode_active ≡ exists_where row_active db.events)
unfolding recover_interrupted recovered
recover_interrupted-Recovered f db h =
    let rows = restarted_rows-Recovered db.events in
    let replay = restarted_rows-replay db.events in ground arith
