-- ===== src/Edge/Store/IncidentLife.antt =====
-- The life of a critical incident under the calls on the store.
use ambagrid.Common.{
  ◌⊎◌, ◌&&◌, to_ms, ℕ, ◌+◌, ◌≤◌, ◌≡◌, refl, Bool, true, false, Text, some, List, [], ◌∷◌, ◌++◌,
  arith, update_where, exists_where, text_eq, Bool-cases, inl, inr, ◌==◌,
}
use ambagrid.Edge.Errors.{Faults}
use ambagrid.Edge.Store.Schema.{Db, Incident}
use ambagrid.Edge.Store.Completion.{completed, contact_success}
use ambagrid.Edge.Store.Incidents.{
  undelivered, is_null, clashes, insert_incident, open_incident_row, new_incident,
  open_fallback_incident, open_for, resolve_fallback_incident, record_fallback_upload_failure,
}
use ambagrid.Edge.Store.SmsAttempts.{
  later_attempt, reserve_fallback_attempt, reserved, record_fallback_attempt, attempt_recorded,
  finish_incident,
}
use ambagrid.Edge.Fallback.Message.{FallbackEvent, AttemptResult}

-- An incident keeps its identity and its facts, its counters do not fall, and what has happened to
-- it (a resolution, a delivery by upload, a sent SMS) is not undone.
pub record IncidentMove (i j : Incident) : Type 0 where
  pub same_key : j.event_key ≡ i.event_key
  pub same_sequence : j.sequence ≡ i.sequence
  pub same_site : j.site_id ≡ i.site_id
  pub same_asset : j.asset_id ≡ i.asset_id
  pub same_code : j.code ≡ i.code
  pub same_temperature : j.temperature_c ≡ i.temperature_c
  pub same_event_time : j.event_at_ms ≡ i.event_at_ms
  pub same_opening : j.opened_at_ms ≡ i.opened_at_ms
  pub failures_grow : i.upload_failures ≤ j.upload_failures
  pub attempts_grow : i.sms_attempt_count ≤ j.sms_attempt_count
  pub stays_resolved : is_null i.resolved_at_ms ≡ false → j.resolved_at_ms ≡ i.resolved_at_ms
  pub stays_delivered :
      is_null i.normal_delivered_at_ms ≡ false → is_null j.normal_delivered_at_ms ≡ false
  pub stays_sent : is_null i.sms_sent_at_ms ≡ false → j.sms_sent_at_ms ≡ i.sms_sent_at_ms

-- Every incident of a table moves.
pub data Moves : List Incident → List Incident → Type 0 where
  ended : Moves [] []
  moved :
      {i j : Incident} {is js : List Incident}
      → IncidentMove i j
      → Moves is js
      → Moves (i ∷ is) (j ∷ js)

-- An incident opens behind the others, unresolved, undelivered and without an attempt, and clashes
-- with none of them.
pub record Opens (is js : List Incident) : Type 0 where
  pub incident : Incident
  pub at_end : js ≡ is ++ incident ∷ []
  pub fresh : exists_where (clashes incident) is ≡ false
  pub waiting : undelivered incident ≡ true
  pub no_attempts : incident.sms_attempt_count ≡ 0
  pub no_failures : incident.upload_failures ≡ 0

-- How a call changes the incidents of a database.
abbrev pub IncidentsChange : Db → Db → Type 0
IncidentsChange db db' = Moves db.incidents db'.incidents ⊎ Opens db.incidents db'.incidents

pub IncidentMove-refl : (i : Incident) → IncidentMove i i
IncidentMove-refl i = ground arith

pub Moves-refl : (is : List Incident) → Moves is is
Moves-refl [] = ended
Moves-refl (i ∷ is) = moved (IncidentMove-refl i) (Moves-refl is)

update_where-Moves :
    (p : Incident → Bool) (f : Incident → Incident)
    → ((i : Incident) → p i ≡ true → IncidentMove i (f i))
    → (is : List Incident) → Moves is (update_where p f is)
unfolding update_where
update_where-Moves p f h [] = ended
update_where-Moves p f h (i ∷ is) = elim (Bool-cases (p i)) [
  | inl hit ↦ rw hit (moved (h i hit) (update_where-Moves p f h is))
  | inr miss ↦ rw miss (moved (IncidentMove-refl i) (update_where-Moves p f h is))
]

module _ (db : Db) where
  pub same : IncidentsChange db db
  same = inl (Moves-refl db.incidents)

  pub kept :
      (is : List Incident) → is ≡ db.incidents → Moves db.incidents is ⊎ Opens db.incidents is
  kept is e = inl (rw e (Moves-refl db.incidents))

  pub completed-IncidentsChange : (n at : ℕ) → IncidentsChange db (completed n at db)
  unfolding completed contact_success
  completed-IncidentsChange n at =
      inl (update_where-Moves (λ i. i.sequence == n) _ (λ i h. ground arith) db.incidents)

  open_cases :
      (P : Db → Type 0) (f : Faults) (e : FallbackEvent) (at : ℕ)
      → P db
      → (let i = open_incident_row e at in
          exists_where (clashes i) db.incidents ≡ false
          → P (record db { incidents = db.incidents ++ i ∷ [] }))
      → P (open_fallback_incident f e at db).0
  unfolding open_fallback_incident insert_incident
  open_cases P f e at p q = ground arith

  pub open-IncidentsChange :
      (f : Faults) (e : FallbackEvent) (at : ℕ)
      → IncidentsChange db (open_fallback_incident f e at db).0
  unfolding open_incident_row new_incident undelivered
  open-IncidentsChange f e at = open_cases (IncidentsChange db) f e at same λ fresh. inr (record {
    incident = open_incident_row e at;
    at_end = refl;
    fresh = fresh;
    waiting = refl;
    no_attempts = refl;
    no_failures = refl;
  })

  resolve_cases :
      (P : Db → Type 0) (f : Faults) (asset code : Text) (at : ℕ)
      → P db
      → P (record db {
        incidents =
            update_where
              (open_for asset code)
              (λ i. record i { resolved_at_ms = some (to_ms at) })
              db.incidents;
      })
      → P (resolve_fallback_incident f asset code at db).0
  unfolding resolve_fallback_incident
  resolve_cases P f asset code at p q = ground arith

  pub resolve-IncidentsChange :
      (f : Faults) (asset code : Text) (at : ℕ)
      → IncidentsChange db (resolve_fallback_incident f asset code at db).0
  unfolding open_for
  resolve-IncidentsChange f asset code at =
      resolve_cases (IncidentsChange db) f asset code at same
        (inl (update_where-Moves (open_for asset code) _ (λ i h. ground arith) db.incidents))

  pub failure-IncidentsChange :
      (f : Faults) (n : ℕ) → IncidentsChange db (record_fallback_upload_failure f n db).0
  unfolding record_fallback_upload_failure
  failure-IncidentsChange f n =
      let counted =
        update_where-Moves
          (λ i. i.sequence == n && (is_null i.resolved_at_ms && is_null i.normal_delivered_at_ms))
          (λ i. record i { upload_failures = i.upload_failures + 1 }) (λ i h. ground arith)
          db.incidents in
      let unchanged = same in ground arith

  pub reserve-IncidentsChange :
      (f : Faults) (key : Text) (at wait : ℕ)
      → IncidentsChange db (reserve_fallback_attempt f key at wait db).0
  unfolding reserve_fallback_attempt reserved
  reserve-IncidentsChange f key at wait =
      let counted =
        update_where-Moves (λ i. text_eq i.event_key key)
          (λ i. record i {
            sms_attempt_count = i.sms_attempt_count + 1;
            next_sms_attempt_at_ms = later_attempt (to_ms (at + wait)) i.next_sms_attempt_at_ms;
          })
          (λ i h. ground arith) db.incidents in
      let unchanged = same in ground arith

  pub record-IncidentsChange :
      (f : Faults) (r : AttemptResult) → IncidentsChange db (record_fallback_attempt f r db).0
  unfolding record_fallback_attempt attempt_recorded finish_incident
  record-IncidentsChange f r =
      let finished =
        update_where-Moves (λ i. text_eq i.event_key r.event_key) (finish_incident r)
          (λ i h. ground arith) db.incidents in
      let unchanged = same in ground arith
