-- ===== src/Edge/Store/StartupIncidents.antt =====
-- The incidents that `initialize` opens, in fallback.go, against those that stand.
use ambagrid.Common.{
  ◌≡◌, [], ◌∷◌, Bool-cases, exists_where, refl, inl, inr, Option, none, some, Text, List, arith,
}
use ambagrid.Edge.Errors.{Faults}
use ambagrid.Edge.Store.Schema.{Db, Row, Incident}
use ambagrid.Edge.Store.Capacity.{Config}
use ambagrid.Edge.Store.Completion.{recovered, recover_interrupted}
use ambagrid.Edge.Store.Cases.{recover_interrupted_cases}
use ambagrid.Edge.Store.Initialize.{
  ensure_identity, suppress_duplicates, recover_fallback_incidents, initialize, recover_incidents,
  recover_row_incident,
}
use ambagrid.Edge.Store.Schema.{row_active}
use ambagrid.Edge.Store.Incidents.{clashes, insert_incident}
use ambagrid.Edge.Store.IncidentHistory.{Distinct, append-Distinct}
use ambagrid.Edge.Store.Startup.{then_next_keeps}

insert_incident-Distinct :
    (i : Incident) (is : List Incident) → Distinct is → Distinct (insert_incident i is)
unfolding insert_incident
insert_incident-Distinct i is d = elim (Bool-cases (exists_where (clashes i) is)) [
  | inl hit ↦ rw hit d
  | inr miss ↦ rw miss (append-Distinct i is miss d)
]

recovered_row-Distinct :
    (r : Row) (is : List Incident) (found : Option Text)
    → r.critical_code ≡ found
    → Distinct is
    → Distinct (recover_row_incident r is)
unfolding recover_row_incident
recovered_row-Distinct r is none e d = rw e d
recovered_row-Distinct r is (some code) e d = rw e (elim (Bool-cases (row_active r)) [
  | inl live ↦ rw live (insert_incident-Distinct _ is d)
  | inr done ↦ rw done d
])

recover_row_incident-Distinct :
    (r : Row) (is : List Incident) → Distinct is → Distinct (recover_row_incident r is)
recover_row_incident-Distinct r is d = recovered_row-Distinct r is r.critical_code refl d

recover_incidents-Distinct :
    (rs : List Row) (is : List Incident) → Distinct is → Distinct (recover_incidents rs is)
unfolding recover_incidents
recover_incidents-Distinct [] is d = d
recover_incidents-Distinct (r ∷ rs) is d =
    recover_incidents-Distinct rs (recover_row_incident r is) (recover_row_incident-Distinct r is d)

recover_fallback_incidents-Distinct :
    (f : Faults) (db : Db)
    → Distinct db.incidents
    → Distinct (recover_fallback_incidents f db).0.incidents
unfolding recover_fallback_incidents suppress_duplicates
recover_fallback_incidents-Distinct f db d =
    let db' = suppress_duplicates db in
    ground (arith, recover_incidents-Distinct db'.events db.incidents d)

ensure_identity-incidents :
    (f : Faults) (cfg : Config) (db : Db) → (ensure_identity f cfg db).0.incidents ≡ db.incidents
unfolding ensure_identity
ensure_identity-incidents f cfg db = ground arith

recover_interrupted-incidents :
    (f : Faults) (db : Db) → (recover_interrupted f db).0.incidents ≡ db.incidents
unfolding recovered
recover_interrupted-incidents f db =
    recover_interrupted_cases (λ db'. db'.incidents ≡ db.incidents) f db refl refl

-- Incidents that do not clash before `initialize` do not clash with each other after it, those that
-- it opens for unfinished critical rows included, whichever of its statements fail.
pub initialize-Distinct :
    (f g h : Faults) (cfg : Config) (db : Db)
    → Distinct db.incidents
    → Distinct (initialize f g h cfg db).0.incidents
unfolding initialize
initialize-Distinct f g h cfg db d =
    let P = (λ (db' : Db). Distinct db'.incidents) in
    then_next_keeps P (ensure_identity f cfg db) _ (rw (ensure_identity-incidents f cfg db) d)
      λ db' d'.
        then_next_keeps P (recover_interrupted g db') _
          (rw (recover_interrupted-incidents g db') d')
          λ db'' d''. recover_fallback_incidents-Distinct h db'' d''
