-- ===== src/Edge/Store/Initialize.antt =====
-- schema.go and fallback.go: what `Open` does to the contents of an existing database, after the
-- schema has been brought up to date: identity, interrupted uploads, interrupted incidents.
use ambagrid.Common.{
  ℕ, Bool, true, false, ◌&&◌, ◌||◌, not, Option, none, some, List, [], ◌∷◌, Text, ltb, leb,
  if◌then◌else◌, text_eq, Result, ok, err, ◌>>◌, refuse_if, in_tx, update_where, exists_where,
}
use ambagrid.Edge.Errors.{Error, Faults, answer, identity_mismatch}
use ambagrid.Edge.Store.Schema.{Db, Row, Incident, row_active, event_key}
use ambagrid.Edge.Store.Capacity.{Config}
use ambagrid.Edge.Store.Completion.{recover_interrupted}
use ambagrid.Edge.Store.Incidents.{insert_incident, new_incident}
use ambagrid.Edge.Fallback.Message.{site_outage, site_asset}

unfoldable pub ensure_identity : Faults → Config → Db → Db × Result Error (Unit {0})
ensure_identity f cfg db = in_tx db (do
  answer (f 0)
  elim db.identity [
    | none ↦ ok (tt, record db { identity = some (cfg.site_id, cfg.gateway_id) })
    | some (site, gateway) ↦ do
      answer (f 1)
      refuse_if (not (text_eq site cfg.site_id) || not (text_eq gateway cfg.gateway_id))
          identity_mismatch
      ok (tt, db)
  ])

-- CASE WHEN critical_code = 'SITE_OUTAGE' THEN 'site' ELSE device_id END.
unfoldable pub incident_asset : Text → Row → Text
incident_asset code r = if text_eq code site_outage then site_asset else r.device_id

-- `i.resolved_at_ms IS NULL OR i.resolved_at_ms >= ?`.
abbrev pub unresolved_at : ℕ → Option ℕ → Bool
unresolved_at ms none = true
unresolved_at ms (some t) = leb ms t

-- An earlier incident of another event already covers this critical reading.
unfoldable pub covers : Text → Row → Incident → Bool
unfolding incident_asset
covers code r i =
    text_eq i.code code
    && (text_eq i.asset_id (incident_asset code r)
        && (not (text_eq i.event_key (event_key r.site_id r.sequence))
            && (ltb i.sequence r.sequence && unresolved_at r.event_at_ms i.resolved_at_ms)))

unfoldable pub suppressed : List Incident → Row → Bool
unfolding covers
suppressed incidents r = elim r.critical_code [
  | none ↦ false
  | some code ↦
      not (exists_where (λ i. text_eq i.event_key (event_key r.site_id r.sequence)) incidents)
      && exists_where (covers code r) incidents
]

abbrev pub suppress_row : Row → Row
suppress_row r = record r { critical_code = none; critical_value = none }

unfoldable pub suppress_duplicates : Db → Db
unfolding suppressed
suppress_duplicates db = record db {
  events = update_where (suppressed db.incidents) suppress_row db.events;
}

-- INSERT OR IGNORE ... SELECT: the unfinished critical rows in order, each against the incidents
-- that the statement has inserted before it.
unfoldable pub recover_row_incident : Row → List Incident → List Incident
unfolding incident_asset
recover_row_incident r incidents = elim r.critical_code [
  | none ↦ incidents
  | some code ↦
      if row_active r
      then insert_incident
          (new_incident (event_key r.site_id r.sequence) r.sequence r.site_id
            (incident_asset code r) code r.critical_value r.event_at_ms r.persisted_at_ms)
          incidents
      else incidents
]

unfoldable pub recover_incidents : List Row → List Incident → List Incident
unfolding recover_row_incident
recover_incidents [] incidents = incidents
recover_incidents (r ∷ rs) incidents = recover_incidents rs (recover_row_incident r incidents)

-- Two statements, each on its own.
unfoldable pub recover_fallback_incidents : Faults → Db → Db × Result Error (Unit {0})
unfolding suppress_duplicates recover_incidents
recover_fallback_incidents f db = elim (answer (f 0)) [
  | err e ↦ (db, err e)
  | ok _ ↦
      let db' = suppress_duplicates db in
      elim (answer (f 1)) [
        | err e ↦ (db', err e)
        | ok _ ↦ (record db' { incidents = recover_incidents db'.events db'.incidents }, ok tt)
      ]
]

abbrev pub then_next :
    Db × Result Error (Unit {0})
    → (Db → Db × Result Error (Unit {0}))
    → Db × Result Error (Unit {0})
then_next (db, ok a) k = k db
then_next (db, err e) k = (db, err e)

-- The steps of `initialize` behind the migration, each with its own statements.
unfoldable pub initialize : Faults → Faults → Faults → Config → Db → Db × Result Error (Unit {0})
unfolding ensure_identity recover_interrupted recover_fallback_incidents
initialize f g h cfg db =
    then_next (ensure_identity f cfg db)
      λ db'. then_next (recover_interrupted g db') λ db''. recover_fallback_incidents h db''
