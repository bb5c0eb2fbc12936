-- ===== src/Edge/Store/Completion.antt =====
-- mutations.go: the transactions that end an upload attempt, one way or another, and the clean-up
-- of finished rows.
use ambagrid.Common.{
  ℕ, ◌+◌, ◌-◌, Bool, true, false, ◌&&◌, ◌||◌, Option, none, some, Text, length, ltb, ◌==◌,
  if◌then◌else◌, is_empty, Result, ok, err, ◌>>◌, refuse_if, in_tx, to_ms, is_zero_time,
  update_where, delete_where, count_where, take,
}
use ambagrid.Edge.Errors.{
  Error, Faults, answer, invalid_transition, retry_at_required, cause_required, cause_too_large,
}
use ambagrid.Edge.Domain.{pending_upload, uploaded, acknowledged, expired, abandoned, status_eq}
use ambagrid.Edge.Store.Schema.{Db, Row, row_active, replay_pending}
use ambagrid.Edge.Store.Mutations.{set_events, max_failure_cause_bytes, row_at, already}

-- The condition `sequence = ? AND status IN ('pending_upload', 'uploaded')`.
unfoldable pub row_sent : ℕ → Row → Bool
row_sent n r = r.sequence == n && (status_eq r.status pending_upload || status_eq r.status uploaded)

-- The UPDATE of `CompleteUpload` on one row.
unfoldable pub acknowledge_row : ℕ → Row → Row
acknowledge_row at r = record r {
  status = acknowledged;
  uploaded_at_ms = some (to_ms at);
  next_attempt_at_ms = none;
  last_error = none;
}

-- The UPDATE of edge_sync_state after a successful contact.
unfoldable pub contact_success : ℕ → Db → Db
contact_success at db = record db {
  sync = record db.sync {
    last_upload_success_at_ms = some (to_ms at);
    last_upload_failure_reason = none;
    replay_mode_active = replay_pending db.events;
  };
}

-- The three UPDATEs of `CompleteUpload`.
unfoldable pub completed : ℕ → ℕ → Db → Db
unfolding row_sent acknowledge_row contact_success
completed n at db = contact_success at (record db {
  events = update_where (row_sent n) (acknowledge_row at) db.events;
  incidents =
      update_where (λ i. i.sequence == n)
        (λ i. record i { normal_delivered_at_ms = some (to_ms at) }) db.incidents;
})

-- After the first UPDATE: no row hit is an error, unless the row is acknowledged already.
unfoldable pub check_completed : Faults → ℕ → Db → Result Error (Unit {0})
check_completed f n db =
    if ltb 0 (count_where (row_sent n) db.events)
    then ok tt
    else do answer (f 2); already n acknowledged db

unfoldable pub complete_upload : Faults → ℕ → ℕ → Db → Db × Result Error (Unit {0})
unfolding check_completed
complete_upload f n at db = in_tx db (do
  answer (f 0)
  answer (f 1)
  check_completed f n db
  answer (f 3)
  answer (f 4)
  answer (f 5)
  ok (tt, completed n at db))

unfoldable pub abandon_row : Text → Row → Row
abandon_row cause r = record r {
  status = abandoned;
  attempt_count = r.attempt_count + 1;
  rejection_count = r.rejection_count + 1;
  next_attempt_at_ms = none;
  last_error = some cause;
}

-- The two UPDATEs of `Abandon`.
unfoldable pub abandoned_db : ℕ → Text → Db → Db
unfolding row_at abandon_row
abandoned_db n cause db = record db {
  events = update_where (row_at n pending_upload) (abandon_row cause) db.events;
  sync = record db.sync { abandoned_count = db.sync.abandoned_count + 1 };
}

-- After the UPDATE on the queue: count and commit, or tell why no row was pending.
abandon_outcome : Faults → ℕ → Text → Db → Result Error (Unit {0} × Db)
abandon_outcome f n cause db =
    if ltb 0 (count_where (row_at n pending_upload) db.events)
    then (do answer (f 2); answer (f 3); ok (tt, abandoned_db n cause db))
    else (do answer (f 4); already n abandoned db; ok (tt, db))

unfoldable pub abandon : Faults → ℕ → Text → Db → Db × Result Error (Unit {0})
unfolding row_at already abandon_outcome
abandon f n cause db =
    in_tx db
      (do answer (f 0); answer (f 1); abandon_outcome f n (take max_failure_cause_bytes cause) db)

unfoldable pub fail_row : ℕ → ℕ → Text → Row → Row
fail_row increment retry_at cause r = record r {
  status = pending_upload;
  attempt_count = r.attempt_count + 1;
  rejection_count = r.rejection_count + increment;
  replay_required = true;
  next_attempt_at_ms = some (to_ms retry_at);
  last_error = some cause;
}

abbrev pub replay_row : Row → Row
replay_row r = record r { replay_required = true }

-- UPDATE edge_sync_state after a failed contact.
unfoldable pub contact_failure : Text → Db → Db
contact_failure cause db = record db {
  sync = record db.sync { last_upload_failure_reason = some cause; replay_mode_active = true };
}

-- The three UPDATEs of `markFailed`.
unfoldable pub failed_db : ℕ → ℕ → ℕ → Text → Db → Db
unfolding row_sent fail_row contact_failure
failed_db n increment retry_at cause db = contact_failure cause (record db {
  events =
      update_where row_active replay_row
        (update_where (row_sent n) (fail_row increment retry_at cause) db.events);
})

unfoldable pub mark_failed_with : Faults → ℕ → ℕ → Text → Bool → Db → Db × Result Error (Unit {0})
unfolding row_sent
mark_failed_with f n retry_at cause rejected db = in_tx db (do
  refuse_if (is_zero_time retry_at) retry_at_required
  refuse_if (is_empty cause) cause_required
  refuse_if (ltb max_failure_cause_bytes (length cause)) cause_too_large
  answer (f 0)
  answer (f 1)
  refuse_if (count_where (row_sent n) db.events == 0) invalid_transition
  answer (f 2)
  answer (f 3)
  answer (f 4)
  ok (tt, failed_db n (if rejected then 1 else 0) retry_at cause db))

unfoldable pub mark_failed : Faults → ℕ → ℕ → Text → Db → Db × Result Error (Unit {0})
unfolding mark_failed_with
mark_failed f n retry_at cause db = mark_failed_with f n retry_at cause false db

unfoldable pub mark_rejected : Faults → ℕ → ℕ → Text → Db → Db × Result Error (Unit {0})
unfolding mark_failed_with
mark_rejected f n retry_at cause db = mark_failed_with f n retry_at cause true db

-- `status IN ('acknowledged', 'expired', 'abandoned') AND persisted_at_ms < ?`.
unfoldable pub purgeable : ℕ → Row → Bool
purgeable cutoff r =
    (status_eq r.status acknowledged
      || (status_eq r.status expired || status_eq r.status abandoned))
    && ltb r.persisted_at_ms cutoff

-- `Purge` runs outside a transaction: a failed vacuum is reported beside the count of rows that
-- are gone.
unfoldable pub purge : Faults → ℕ → ℕ → Db → Db × ℕ × Option Error
unfolding purgeable set_events
purge f now retention db = elim (answer (f 0)) [
  | err e ↦ (db, 0, some e)
  | ok _ ↦
      let cutoff = to_ms (now - retention) in
      let deleted = count_where (purgeable cutoff) db.events in
      let db' = set_events (delete_where (purgeable cutoff) db.events) db in
      if ltb 0 deleted
      then elim (answer (f 1)) [ err e ↦ (db', deleted, some e) | ok _ ↦ (db', deleted, none) ]
      else (db', deleted, none)
]

-- `recoverInterrupted`: what a crash left unfinished is sent again, as a replay.
unfoldable pub recover_row : Row → Row
recover_row r = record r { status = pending_upload; replay_required = true }

unfoldable pub recovered : Db → Db
unfolding recover_row
recovered db =
    let rows = update_where row_active recover_row db.events in
    record db { events = rows; sync = record db.sync { replay_mode_active = replay_pending rows } }

unfoldable pub recover_interrupted : Faults → Db → Db × Result Error (Unit {0})
recover_interrupted f db =
    in_tx db (do answer (f 0); answer (f 1); answer (f 2); answer (f 3); ok (tt, recovered db))
