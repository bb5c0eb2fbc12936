-- ===== src/Edge/Store/Debounces.antt =====
-- repository/sqlite/fallback.go: the conditions that a collector watches, kept across restarts.
use ambagrid.Common.{
  ℕ, Bool, ◌&&◌, List, [], ◌∷◌, ◌++◌, map, Text, if◌then◌else◌, text_eq, Result, ok, ◌>>◌, in_tx,
  to_ms, from_ms, delete_where, exists_where,
}
use ambagrid.Edge.Errors.{Error, Faults, answer}
use ambagrid.Edge.Store.Schema.{Db, Debounce}
use ambagrid.Edge.Store.Incidents.{open_for}
use ambagrid.Edge.Fallback.Message.{DebounceCondition}

-- `asset_id = ? AND code = ?`, the primary key.
unfoldable pub debounce_for : Text → Text → Debounce → Bool
debounce_for asset code d = text_eq d.asset_id asset && text_eq d.code code

unfoldable pub load_debounce_conditions : Faults → Db → Result Error (List DebounceCondition)
load_debounce_conditions f db = do
  answer (f 0)
  ok (
      map
        (λ d. record {
          asset_id = d.asset_id;
          code = d.code;
          active_since = from_ms d.active_since_ms;
          opened = exists_where (open_for d.asset_id d.code) db.incidents;
        })
        db.debounce)

-- INSERT OR IGNORE.
unfoldable pub save_debounce_condition :
    Faults → Text → Text → ℕ → Db → Db × Result Error (Unit {0})
unfolding debounce_for
save_debounce_condition f asset code since db = in_tx db (do
  answer (f 0)
  ok (
    tt,
    if exists_where (debounce_for asset code) db.debounce then db else record db {
      debounce =
          db.debounce
          ++ record { asset_id = asset; code = code; active_since_ms = to_ms since } ∷ [];
    },
  ))

unfoldable pub delete_debounce_condition : Faults → Text → Text → Db → Db × Result Error (Unit {0})
unfolding debounce_for
delete_debounce_condition f asset code db = in_tx db (do
  answer (f 0)
  ok (tt, record db { debounce = delete_where (debounce_for asset code) db.debounce }))
