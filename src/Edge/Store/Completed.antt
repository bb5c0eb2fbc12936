-- ===== src/Edge/Store/Completed.antt =====
-- `CompleteUpload`: what it achieves, and that a repeated call is harmless.
use ambagrid.Common.{
  ap, ◌∙◌, refl, update_where, none, ℕ, ◌≤◌, ◌<◌, ◌≡◌, Option, some, List, [], ◌∷◌, arith, ok,
  count_where, find_where, ◌==◌,
}
use ambagrid.Edge.Errors.{no_faults, Faults}
use ambagrid.Edge.Domain.{acknowledged}
use ambagrid.Edge.Store.Mutations.{already}
use ambagrid.Edge.Store.Capacity.{Config}
use ambagrid.Edge.Store.Schema.{replay_pending, Db, Row}
use ambagrid.Edge.Store.Completion.{
  complete_upload, check_completed, contact_success, completed, row_sent, acknowledge_row,
}
use ambagrid.Edge.Store.Invariant.{Inv, Ordered}

complete_upload-ok :
    (f : Faults) (n at : ℕ) (db : Db)
    → (complete_upload f n at db).1 ≡ ok tt
    → ((complete_upload f n at db).0 ≡ completed n at db) × (check_completed f n db ≡ ok tt)
unfolding complete_upload
complete_upload-ok f n at db h = ground arith

none_sent_left :
    (n at : ℕ) (rows : List Row)
    → count_where (row_sent n) (update_where (row_sent n) (acknowledge_row at) rows) ≡ 0
unfolding count_where update_where row_sent acknowledge_row
none_sent_left n at [] = refl
none_sent_left n at (r ∷ rows) = ground (arith, none_sent_left n at rows)

none_sent_same :
    (n at : ℕ) (rows : List Row)
    → count_where (row_sent n) rows ≡ 0
    → update_where (row_sent n) (acknowledge_row at) rows ≡ rows
unfolding count_where update_where
none_sent_same n at [] h = refl
none_sent_same n at (r ∷ rows) h = ground (arith, none_sent_same n at rows)

none_sent_above :
    (n lo hi : ℕ) (rows : List Row)
    → n ≤ lo
    → Ordered lo hi rows
    → count_where (row_sent n) rows ≡ 0
unfolding count_where row_sent
none_sent_above n lo hi [] l o = refl
none_sent_above n lo hi (r ∷ rows) l o =
    ground (arith, none_sent_above n r.sequence hi rows (omega arith) o.1)

-- The row of a sequence is acknowledged, where a SELECT finds it.
abbrev FoundAcknowledged : Option Row → Type 0
FoundAcknowledged none = ⊥
FoundAcknowledged (some r) = r.status ≡ acknowledged

acknowledged_found :
    (n at lo hi : ℕ) (rows : List Row)
    → Ordered lo hi rows
    → 0 < count_where (row_sent n) rows
    → FoundAcknowledged
        (find_where (λ r. r.sequence == n) (update_where (row_sent n) (acknowledge_row at) rows))
unfolding count_where find_where update_where row_sent acknowledge_row
acknowledged_found n at lo hi [] o l = ground arith
acknowledged_found n at lo hi (r ∷ rows) o l =
    ground
      (arith, acknowledged_found n at r.sequence hi rows o.1, none_sent_above n r.sequence hi rows)

-- With that row acknowledged, the check of a second call succeeds.
check_again :
    (n at : ℕ) (db : Db)
    → FoundAcknowledged (find_where (λ r. r.sequence == n) (completed n at db).events)
    → check_completed no_faults n (completed n at db) ≡ ok tt
unfolding check_completed already completed contact_success
check_again n at db found = ground (arith, none_sent_left n at db.events)

check_completed-found :
    (f : Faults) (n at : ℕ) (db : Db)
    → Ordered 0 db.last_sequence db.events
    → check_completed f n db ≡ ok tt
    → FoundAcknowledged (find_where (λ r. r.sequence == n) (completed n at db).events)
unfolding check_completed already completed contact_success
check_completed-found f n at db o h =
    ground
      (arith, acknowledged_found n at 0 db.last_sequence db.events o, none_sent_same n at db.events)

complete_upload-no_faults :
    (n at : ℕ) (db : Db)
    → check_completed no_faults n db ≡ ok tt
    → (complete_upload no_faults n at db ≡ (completed n at db, ok tt))
unfolding complete_upload
complete_upload-no_faults n at db h = rw h refl

-- After a successful `CompleteUpload` no row of the sequence is pending or uploaded and the replay
-- mode says whether a row still waits to be replayed. The same call once more, at any time, succeeds
-- and changes no row, if no statement of it fails. The database keeps the queue's invariant before the
-- first call, of which any statement may fail as long as the call succeeds.
pub complete_upload-idempotent :
    (c : Config) (f : Faults) (n at again : ℕ) (db : Db)
    → Inv c db
    → (complete_upload f n at db).1 ≡ ok tt
    → let db' = (complete_upload f n at db).0 in
      (count_where (row_sent n) db'.events ≡ 0)
      × (db'.sync.replay_mode_active ≡ replay_pending db'.events)
      × ((complete_upload no_faults n again db').1 ≡ ok tt)
      × ((complete_upload no_faults n again db').0.events ≡ db'.events)
unfolding completed contact_success
complete_upload-idempotent c f n at again db v h =
    let (same, checked) = complete_upload-ok f n at db h in
    let second =
      complete_upload-no_faults n again (completed n at db)
        (check_again n at db (check_completed-found f n at db v.ordered checked)) in
    rw same (
      none_sent_left n at db.events,
      refl,
      ap (λ p. p.1) second,
      ap (λ p. p.0.events) second
          ∙ none_sent_same n again (completed n at db).events (none_sent_left n at db.events),
    )
