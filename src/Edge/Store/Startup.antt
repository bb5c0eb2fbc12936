-- ===== src/Edge/Store/Startup.antt =====
-- What holds of the queue once `initialize` of schema.go is through, on every failure of it too.
use ambagrid.Common.{
  ◌≡◌, ◌⊎◌, refl, inl, Option, none, some, Text, ok, err, Result, List, arith, text_eq_iff,
}
use ambagrid.Edge.Errors.{Error, Faults, no_faults}
use ambagrid.Edge.Store.Schema.{Db, Incident}
use ambagrid.Edge.Store.Capacity.{Config, Store}
use ambagrid.Edge.Store.Completion.{recovered, recover_interrupted}
use ambagrid.Edge.Store.Cases.{recover_interrupted_cases}
use ambagrid.Edge.Store.Lifecycle.{update_where-Keeps}
use ambagrid.Edge.Store.Lifecycle.Calls.{after_call, recovers}
use ambagrid.Edge.Store.Replay.{replay_pending-update_where}
use ambagrid.Edge.Store.Invariant.{Inv, Changes-Inv, after_call-Inv}
use ambagrid.Edge.Store.Initialize.{
  ensure_identity, suppressed, suppress_row, suppress_duplicates, recover_fallback_incidents,
  initialize, then_next, recover_incidents,
}

with_identity-Inv :
    (c : Config) (db : Db) (i : Option (Text × Text))
    → Inv c db
    → Inv c (record db { identity = i })
with_identity-Inv c db i v = record {
  ordered = v.ordered;
  sized = v.sized;
  fits = v.fits;
  replays = v.replays;
}

with_incidents-Inv :
    (c : Config) (db : Db) (is : List Incident) → Inv c db → Inv c (record db { incidents = is })
with_incidents-Inv c db is v = record {
  ordered = v.ordered;
  sized = v.sized;
  fits = v.fits;
  replays = v.replays;
}

ensure_identity-Inv :
    (c : Config) (f : Faults) (cfg : Config) (db : Db)
    → Inv c db
    → Inv c (ensure_identity f cfg db).0
unfolding ensure_identity
ensure_identity-Inv c f cfg db v =
    let v' = with_identity-Inv c db (some (cfg.site_id, cfg.gateway_id)) v in ground (arith, v, v')

suppress_duplicates-Inv : (c : Config) (db : Db) → Inv c db → Inv c (suppress_duplicates db)
unfolding suppress_duplicates
suppress_duplicates-Inv c db v =
    Changes-Inv c db (suppress_duplicates db)
      (inl (
        update_where-Keeps (suppressed db.incidents) suppress_row (λ r e. ground arith) db.events,
        refl,
      ))
      (λ t. v.replays (
        replay_pending-update_where (suppressed db.incidents) suppress_row (λ r e u. u) db.events
          t))
      v

recover_fallback_incidents-Inv :
    (c : Config) (f : Faults) (db : Db) → Inv c db → Inv c (recover_fallback_incidents f db).0
unfolding recover_fallback_incidents
recover_fallback_incidents-Inv c f db v =
    let db' = suppress_duplicates db in
    let w = suppress_duplicates-Inv c db v in
    let w' = with_incidents-Inv c db' (recover_incidents db'.events db'.incidents) w in
    ground (arith, v, w, w')

pub then_next_keeps :
    (P : Db → Type 0) (m : Db × Result Error (Unit {0})) (k : Db → Db × Result Error (Unit {0}))
    → P m.0
    → ((db : Db) → P db → P (k db).0)
    → P (then_next m k).0
then_next_keeps P (db, ok a) k p h = h db p
then_next_keeps P (db, err e) k p h = p

-- `initialize` keeps the invariant of the queue, whichever of its statements fail.
pub initialize-Inv :
    (s : Store) (f g h : Faults) (db : Db) → Inv s.cfg db → Inv s.cfg (initialize f g h s.cfg db).0
unfolding initialize after_call
initialize-Inv s f g h db v =
    then_next_keeps (Inv s.cfg) (ensure_identity f s.cfg db) _
      (ensure_identity-Inv s.cfg f s.cfg db v)
      λ db' v'.
        then_next_keeps (Inv s.cfg) (recover_interrupted g db') _
          (after_call-Inv s (recovers g) db' v')
          λ db'' v''. recover_fallback_incidents-Inv s.cfg h db'' v''

-- The database belongs to the configured gateway after the call, and before it to no other.
abbrev pub Claimed : Config → Db → Db → Type 0
Claimed cfg db db' =
    (db'.identity ≡ some (cfg.site_id, cfg.gateway_id))
    × ((db.identity ≡ none) ⊎ (db.identity ≡ some (cfg.site_id, cfg.gateway_id)))

ensure_identity_found :
    (f : Faults) (cfg : Config) (db : Db) (found : Option (Text × Text))
    → db.identity ≡ found
    → (ensure_identity f cfg db).1 ≡ ok tt
    → Claimed cfg db (ensure_identity f cfg db).0
unfolding ensure_identity
ensure_identity_found f cfg db none h e = ground arith
ensure_identity_found f cfg db (some (site, gateway)) h e =
    ground (arith, text_eq_iff site cfg.site_id, text_eq_iff gateway cfg.gateway_id)

ensure_identity-Claimed :
    (f : Faults) (cfg : Config) (db : Db)
    → (ensure_identity f cfg db).1 ≡ ok tt
    → Claimed cfg db (ensure_identity f cfg db).0
ensure_identity-Claimed f cfg db = ensure_identity_found f cfg db db.identity refl

recover_interrupted-identity :
    (f : Faults) (db : Db) → (recover_interrupted f db).0.identity ≡ db.identity
unfolding recovered
recover_interrupted-identity f db =
    recover_interrupted_cases (λ db'. db'.identity ≡ db.identity) f db refl refl

recover_fallback_incidents-identity :
    (f : Faults) (db : Db) → (recover_fallback_incidents f db).0.identity ≡ db.identity
unfolding recover_fallback_incidents suppress_duplicates
recover_fallback_incidents-identity f db = ground arith

then_next_ok :
    (P : Db → Db → Type 0) (db : Db) (m : Db × Result Error (Unit {0}))
    (k : Db → Db × Result Error (Unit {0}))
    → (m.1 ≡ ok tt → P db m.0)
    → ((db' : Db) → P db db' → P db (k db').0)
    → (then_next m k).1 ≡ ok tt
    → P db (then_next m k).0
then_next_ok P db (db', ok tt) k p h e = h db' (p refl)
then_next_ok P db (db', err x) k p h e = absurd (ground arith)

-- An `initialize` that succeeds leaves the database with the site and the gateway of the
-- configuration, and it found it with these or with none.
pub initialize-Claimed :
    (f g h : Faults) (cfg : Config) (db : Db)
    → (initialize f g h cfg db).1 ≡ ok tt
    → Claimed cfg db (initialize f g h cfg db).0
unfolding initialize
initialize-Claimed f g h cfg db =
    then_next_ok (Claimed cfg) db (ensure_identity f cfg db) _ (ensure_identity-Claimed f cfg db)
      λ db' c.
        then_next_keeps (Claimed cfg db) (recover_interrupted g db') _
          (rw (recover_interrupted-identity g db') c)
          λ db'' c'. rw (recover_fallback_incidents-identity h db'') c'

ensure_identity_accepts :
    (cfg : Config) (db : Db) (found : Option (Text × Text))
    → db.identity ≡ found
    → (found ≡ none) ⊎ (found ≡ some (cfg.site_id, cfg.gateway_id))
    → (ensure_identity no_faults cfg db).1 ≡ ok tt
unfolding ensure_identity
ensure_identity_accepts cfg db none h e = ground arith
ensure_identity_accepts cfg db (some (site, gateway)) h e =
    ground (arith, text_eq_iff site cfg.site_id, text_eq_iff gateway cfg.gateway_id)

-- With an answer to every statement, `initialize` succeeds on a database of no gateway yet and on
-- one of the configured gateway.
pub initialize_accepts :
    (cfg : Config) (db : Db)
    → (db.identity ≡ none) ⊎ (db.identity ≡ some (cfg.site_id, cfg.gateway_id))
    → (initialize no_faults no_faults no_faults cfg db).1 ≡ ok tt
unfolding initialize recover_interrupted recover_fallback_incidents
initialize_accepts cfg db h = ground (arith, ensure_identity_accepts cfg db db.identity refl h)
