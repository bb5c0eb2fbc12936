-- ===== src/Edge/Store/Heartbeats.antt =====
-- repository/sqlite/heartbeat.go: SMS heartbeats, numbered by a counter of their own.
use ambagrid.Common.{
  ℕ, ◌+◌, ◌-◌, ◌*◌, Bool, false, not, Option, none, some, List, [], ◌∷◌, ◌++◌, Text, ltb, leb, ◌==◌,
  is_empty, Result, ok, ◌>>◌, refuse_if, in_tx, to_ms, from_ms, hour, update_where, delete_where,
  count_where,
}
use mathlib.Core.Option
use ambagrid.Edge.Errors.{Error, Faults, answer, heartbeat_not_found}
use ambagrid.Edge.Store.Schema.{Db, HeartbeatAttempt}
use ambagrid.Edge.Store.Mutations.{null_string}
use ambagrid.Edge.Fallback.Heartbeat.{HeartbeatState}

abbrev pub heartbeat_attempt_retention : ℕ
heartbeat_attempt_retention = 168 * hour

-- ORDER BY sequence DESC LIMIT 1.
unfoldable pub latest : List HeartbeatAttempt → Option HeartbeatAttempt
latest [] = none
latest (a ∷ as') = elim (latest as') [ none ↦ some a | some b ↦ some b ]

abbrev pub failed_attempt : HeartbeatAttempt → Bool
failed_attempt a = elim a.succeeded [ none ↦ false | some done ↦ not done ]

unfoldable pub heartbeat_state : Faults → ℕ → Db → Result Error HeartbeatState
unfolding latest
heartbeat_state f now db = do
  answer (f 0)
  let last = latest db.heartbeats
  ok (record {
    last_upload_success = Option.map from_ms db.sync.last_upload_success_at_ms;
    last_attempt_at = Option.map (λ a. from_ms a.attempted_at_ms) last;
    last_attempt_failed = elim last [ none ↦ false | some a ↦ failed_attempt a ];
    attempts_last_day =
        count_where (λ a. leb (to_ms (now - 24 * hour)) a.attempted_at_ms) db.heartbeats;
  })

-- Old attempts are pruned; the counter is never reused.
unfoldable pub heartbeat_reserved : ℕ → Db → Db
heartbeat_reserved at db =
    let cutoff = to_ms (at - heartbeat_attempt_retention) in
    record db {
      heartbeats =
          delete_where (λ a. ltb a.attempted_at_ms cutoff) db.heartbeats
          ++ record {
            sequence = db.last_heartbeat + 1;
            attempted_at_ms = to_ms at;
            succeeded = none;
            failure_reason = none;
          }
            ∷ [];
      last_heartbeat = db.last_heartbeat + 1;
    }

unfoldable pub reserve_heartbeat : Faults → ℕ → Db → Db × Result Error ℕ
unfolding heartbeat_reserved
reserve_heartbeat f at db = in_tx db (do
  answer (f 0)
  answer (f 1)
  answer (f 2)
  answer (f 3)
  ok (db.last_heartbeat + 1, heartbeat_reserved at db))

-- An UPDATE that hits no row leaves the table as it is.
unfoldable pub record_heartbeat : Faults → ℕ → Text → Db → Db × Result Error (Unit {0})
unfolding null_string
record_heartbeat f n reason db = in_tx db (do
  answer (f 0)
  refuse_if (not (count_where (λ a. a.sequence == n) db.heartbeats == 1)) heartbeat_not_found
  ok (
    tt,
    record db {
      heartbeats =
          update_where (λ a. a.sequence == n)
            (λ a. record a {
              succeeded = some (is_empty reason);
              failure_reason = null_string reason;
            })
            db.heartbeats;
    },
  ))
