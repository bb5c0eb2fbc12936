-- ===== src/Edge/Store/Survival.antt =====
-- No call on the store loses an unfinished record.
use ambagrid.Common.{◌≡◌, true, inl, inr, ◌∷◌, []}
use ambagrid.Edge.Domain.{is_active}
use ambagrid.Edge.Store.Schema.{Db, Row}
use ambagrid.Edge.Store.Capacity.{Config, Store}
use ambagrid.Edge.Store.Lifecycle.{Changes, Holds, Survives, Keeps-Survives, Survives-append}
use ambagrid.Edge.Store.Lifecycle.Calls.{Call, after_call}
use ambagrid.Edge.Store.Evolution.{after_call-Changes}

Changes-Survives :
    (c : Config) (db db' : Db) (r : Row)
    → Changes c db db'
    → is_active r.status ≡ true
    → Holds r db.events
    → Survives r db'.events
Changes-Survives c db db' r (inl (k, e)) live held = Keeps-Survives k r live held
Changes-Survives c db db' r (inr g) live held =
    rw g.at_end (Survives-append r db.events (g.row ∷ []) held)

-- A row that is unfinished before a call stands in the table after it, whatever SQLite and the file
-- system answer, with its sequence, its device, its payload and a status that follows the old one in
-- the life cycle.
pub after_call-Survives :
    (s : Store) (call : Call) (db : Db) (r : Row)
    → is_active r.status ≡ true
    → Holds r db.events
    → Survives r (after_call s call db).events
after_call-Survives s call db r live held =
    Changes-Survives s.cfg db (after_call s call db) r (after_call-Changes s db call) live held
