-- ===== src/Edge/Errors.antt =====
-- The errors that the edge agent returns: the sentinels of internal/domain/errors.go, one
-- constructor for each `errors.New` of the store, and the failures of SQLite and the file system.
use ambagrid.Common.{ℕ, Option, none, some, Result, ok, err}

pub data Error : Type 0 where
  identity_mismatch critical_reserve storage_capacity filesystem_reserve : Error
  event_too_large event_not_found invalid_transition : Error
  fields_required asset_type_invalid timestamps_required metadata_too_large : Error
  priority_invalid retry_at_required cause_required cause_too_large : Error
  ready_limits policy_limits attempt_not_found heartbeat_not_found : Error
  config_invalid schema_too_new : Error
  message_invalid heartbeat_ids_invalid heartbeat_time_required : Error
  heartbeat_interval_invalid : Error
  message_too_long : ℕ → Error
  reading_invalid : Error
  -- a failed statement, wrapped by `fmt.Errorf`
  database : Error
  -- a failed `statfs` or `stat`, wrapped by `fmt.Errorf`
  filesystem : Error
  -- the modem refused a message
  send_failed : Error

-- How SQLite may answer a statement that fails: SQLITE_FULL, or any other code.
pub data Fault : Type 0 where
  full other : Fault

-- Whether the n-th statement of a call fails, BEGIN and COMMIT counted. A statement that fails
-- changes nothing. `RowsAffected` and `LastInsertId` only read back a finished statement.
abbrev pub Faults : Type 0
Faults = ℕ → Option Fault

abbrev pub no_faults : Faults
no_faults n = none

abbrev pub answer : Option Fault → Result Error (Unit {0})
answer none = ok tt
answer (some x) = err database

-- The answer to an INSERT, where SQLITE_FULL is told apart (`isSQLiteFull`).
abbrev pub insert_answer : Option Fault → Result Error (Unit {0})
insert_answer none = ok tt
insert_answer (some full) = err storage_capacity
insert_answer (some other) = err database
