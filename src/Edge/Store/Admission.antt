-- ===== src/Edge/Store/Admission.antt =====
-- Which events the queue admits, against the limits of its configuration and the state it reports.
use native.Mathlib.Nat.{mul-le-mul_left}
use ambagrid.Common.{
  ◌⊎◌, inl, inr, refl, subst, none, [], ◌∷◌, ◌++◌, to_ms, Result, false, sym, ◌∙◌, is_ok, is_empty,
  ◌≤◌, ◌*◌, ◌^◌, ◌-◌, ◌/◌, ℕ, ◌+◌, ◌<◌, ◌≡◌, true, arith, ok, err, length,
}
use ambagrid.Edge.Errors.{Error, Faults, no_faults, storage_capacity, critical_reserve}
use ambagrid.Edge.Domain.{normal_suspended, QueueStats, Event, EventStatus, is_normal}
use ambagrid.Edge.Store.Schema.{Db, Row, queued_bytes}
use ambagrid.Edge.Store.Capacity.{
  validate_config, database_budget, wal_budget, Config, Store, FileSystem, payload_capacity,
  normal_admission_limit, check_admission,
}
use ambagrid.Edge.Store.Mutations.{insert, validate_event, new_row, add_row}
use ambagrid.Edge.Store.Queries.{queue_state, stats}

-- Room in the queue: within the capacity, and a normal event within the limit for normal events.
abbrev pub Fits : Store → Event → Db → Type 0
Fits s e db =
    let total = queued_bytes db.events + length e.payload in
    (total ≤ payload_capacity s.cfg)
    × ((is_normal e.priority ≡ false) ⊎ (total ≤ normal_admission_limit s.cfg))

-- One row is new, behind the others, under the next sequence: the event as it was given, never tried,
-- due at once, and to be replayed if the replay mode is on. Nothing else has changed.
pub record Admitted (s : Store) (now : ℕ) (e : Event) (status : EventStatus) (db db' : Db)
    : Type 0 where
  pub row : Row
  pub stored :
      db' ≡ record db { events = db.events ++ row ∷ []; last_sequence = db.last_sequence + 1 }
  pub sequence : row.sequence ≡ db.last_sequence + 1
  pub sender : (row.site_id ≡ s.cfg.site_id) × (row.gateway_id ≡ s.cfg.gateway_id)
  pub device : (row.device_id ≡ e.device_id) × (row.asset_type ≡ e.asset_type)
  pub content : (row.mqtt_topic ≡ e.mqtt_topic) × (row.payload ≡ e.payload)
  pub size : row.payload_bytes ≡ length e.payload
  pub rank : (row.priority ≡ e.priority) × (row.status ≡ status)
  pub times :
      (row.event_at_ms ≡ to_ms e.event_timestamp)
      × (row.received_at_ms ≡ to_ms e.edge_received_at)
      × (row.persisted_at_ms ≡ to_ms now)
  pub untried : (row.attempt_count ≡ 0) × (row.rejection_count ≡ 0)
  pub due : (row.next_attempt_at_ms ≡ none) × (row.uploaded_at_ms ≡ none)
  pub replay : row.replay_required ≡ db.sync.replay_mode_active

-- What `insert` comes to where SQLite answers.
pub data Outcome (s : Store) (fs : FileSystem) (now : ℕ) (e : Event) (status : EventStatus)
    (db : Db) : Db × Result Error ℕ → Type 0 where
  invalid : (x : Error) → validate_event s e ≡ err x → Outcome s fs now e status db (db, err x)
  no_space :
      (x : Error)
      → validate_event s e ≡ ok tt
      → check_admission s fs e ≡ err x
      → Outcome s fs now e status db (db, err x)
  over_capacity :
      validate_event s e ≡ ok tt
      → payload_capacity s.cfg < queued_bytes db.events + length e.payload
      → Outcome s fs now e status db (db, err storage_capacity)
  over_limit :
      validate_event s e ≡ ok tt
      → is_normal e.priority ≡ true
      → normal_admission_limit s.cfg < queued_bytes db.events + length e.payload
      → Outcome s fs now e status db (db, err critical_reserve)
  admitted :
      {db' : Db}
      → validate_event s e ≡ ok tt
      → check_admission s fs e ≡ ok tt
      → Fits s e db
      → Admitted s now e status db db'
      → Outcome s fs now e status db (db', ok (db.last_sequence + 1))

module _ (s : Store) (fs : FileSystem) (now : ℕ) (e : Event) (status : EventStatus) (db : Db) where
  add_row-Admitted : Admitted s now e status db (add_row (new_row s now e status db) db)
  unfolding add_row new_row
  add_row-Admitted = record {
    row = new_row s now e status db;
    stored = refl;
    sequence = refl;
    sender = (refl, refl);
    device = (refl, refl);
    content = (refl, refl);
    size = refl;
    rank = (refl, refl);
    times = (refl, refl, refl);
    untried = (refl, refl);
    due = (refl, refl);
    replay = refl;
  }

  insert_valid :
      validate_event s e ≡ ok tt
      → check_admission s fs e ≡ ok tt
      → let total = queued_bytes db.events + length e.payload in
        let outcome = insert s fs no_faults now e status db in
        ((payload_capacity s.cfg < total) × (outcome ≡ (db, err storage_capacity)))
        ⊎ ((is_normal e.priority ≡ true)
            × (normal_admission_limit s.cfg < total)
            × (outcome ≡ (db, err critical_reserve)))
        ⊎ (Fits s e db
            × (outcome ≡ (add_row (new_row s now e status db) db, ok (db.last_sequence + 1))))
  unfolding insert new_row
  insert_valid valid room = rw (valid, room) (ground arith)

  valid-Outcome :
      (room : Result Error (Unit {0}))
      → validate_event s e ≡ ok tt
      → check_admission s fs e ≡ room
      → Outcome s fs now e status db (insert s fs no_faults now e status db)
  unfolding insert
  valid-Outcome (err x) valid full = rw (valid, full) (no_space x valid full)
  valid-Outcome (ok tt) valid room = elim (insert_valid valid room) [
    | inl (over, refused) ↦
        subst (Outcome s fs now e status db) (sym refused) (over_capacity valid over)
    | inr (inl (normal, over, refused)) ↦
        subst (Outcome s fs now e status db) (sym refused) (over_limit valid normal over)
    | inr (inr (fits, stored)) ↦
        subst (Outcome s fs now e status db) (sym stored)
          (admitted valid room fits add_row-Admitted)
  ]

  checked-Outcome :
      (checked : Result Error (Unit {0}))
      → validate_event s e ≡ checked
      → Outcome s fs now e status db (insert s fs no_faults now e status db)
  unfolding insert
  checked-Outcome (err x) bad = rw bad (invalid x bad)
  checked-Outcome (ok tt) valid = valid-Outcome _ valid refl

  -- Where SQLite answers, `insert` refuses an event that is invalid, that the disk has no room for, that
  -- does not fit the capacity or, if normal, the limit below the critical reserve, and then changes
  -- nothing. Every other event it stores: one row is new, behind the others and under the next
  -- sequence, with the event's device, topic, payload, priority and times, untried and due at once.
  pub insert-Outcome : Outcome s fs now e status db (insert s fs no_faults now e status db)
  insert-Outcome = checked-Outcome _ refl

stats_reports :
    (s : Store) (fs : FileSystem) (f : Faults) (now : ℕ) (db : Db) (q : QueueStats)
    → stats s fs f now db ≡ ok q
    → (q.payload_bytes ≡ queued_bytes db.events)
      × (q.capacity_bytes ≡ payload_capacity s.cfg)
      × (q.state ≡ queue_state s.cfg q)
unfolding stats queue_state
stats_reports s fs f now db q h = ground arith

suspended_payload :
    (c : Config) (q : QueueStats)
    → queue_state c q ≡ normal_suspended
    → normal_admission_limit c ≤ q.payload_bytes
unfolding queue_state
suspended_payload c q h = ground arith

over_limit-insert :
    (s : Store) (fs : FileSystem) (f : Faults) (now : ℕ) (e : Event) (status : EventStatus)
    (db : Db)
    → is_normal e.priority ≡ true
    → normal_admission_limit s.cfg < queued_bytes db.events + length e.payload
    → ((insert s fs f now e status db).0 ≡ db) × (is_ok (insert s fs f now e status db).1 ≡ false)
unfolding insert
over_limit-insert s fs f now e status db normal over = ground arith

nonempty_payload : (s : Store) (e : Event) → validate_event s e ≡ ok tt → 0 < length e.payload
unfolding validate_event is_empty
nonempty_payload s e h = ground arith

-- While `Stats` reports the state `normal_suspended`, every valid event of normal priority is
-- refused and changes nothing, whatever SQLite and the file system answer.
pub normal_suspended-refuses :
    (s : Store) (fs fs' : FileSystem) (f f' : Faults) (now now' : ℕ) (db : Db) (q : QueueStats)
    (e : Event) (status : EventStatus)
    → stats s fs f now db ≡ ok q
    → q.state ≡ normal_suspended
    → is_normal e.priority ≡ true
    → validate_event s e ≡ ok tt
    → ((insert s fs' f' now' e status db).0 ≡ db)
      × (is_ok (insert s fs' f' now' e status db).1 ≡ false)
normal_suspended-refuses s fs fs' f f' now now' db q e status reported suspended normal valid =
    let (payload, _, state) = stats_reports s fs f now db q reported in
    let limit = suspended_payload s.cfg q (sym state ∙ suspended) in
    over_limit-insert s fs' f' now' e status db normal
      (omega (arith, limit, payload, nonempty_payload s e valid))

validated :
    (c : Config)
    → validate_config c ≡ ok tt
    → (2 ^ 20 ≤ c.max_storage_bytes)
      × (1 ≤ c.critical_reserve_percent)
      × (c.warning_percent < 100 - c.critical_reserve_percent)
      × (1 ≤ c.warning_percent)
      × (1 ≤ c.max_event_bytes)
      × (c.max_event_bytes ≤ c.max_storage_bytes * 5 / 100)
unfolding validate_config
validated c h = ground arith

-- A configuration that passes `validateConfig` has a capacity above the limit for normal events by
-- some reserve, a normal limit above 0, room for the largest event, and a database and a WAL budget
-- that fit into the storage budget together.
pub validate_config-Limits :
    (c : Config)
    → validate_config c ≡ ok tt
    → (0 < normal_admission_limit c)
      × (normal_admission_limit c < payload_capacity c)
      × (c.max_event_bytes ≤ payload_capacity c)
      × (payload_capacity c < database_budget c)
      × (database_budget c + wal_budget c.max_storage_bytes ≤ c.max_storage_bytes)
unfolding normal_admission_limit payload_capacity database_budget wal_budget
validate_config-Limits c h =
    let v = validated c h in
    let capacity = c.max_storage_bytes * 65 / 100 in
    let share = 100 - c.critical_reserve_percent in
    let high : capacity * share ≤ capacity * 99 = mul-le-mul_left capacity (omega (arith, v)) in
    let low : capacity * 2 ≤ capacity * share = mul-le-mul_left capacity (omega (arith, v)) in
    omega (arith, v, high, low)
