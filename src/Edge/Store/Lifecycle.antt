-- ===== src/Edge/Store/Lifecycle.antt =====
-- The life of a queue row: which statuses one call may take it to, and what never changes.
pub mod Calls
use ambagrid.Common.{
  ◌⊎◌, length, ◌+◌, if◌then◌else◌, ℕ, ◌+◌, ◌≤◌, ◌<◌, ◌≡◌, refl, ◌⊎◌, inl, inr, Bool, true, false,
  not, List, [], ◌∷◌, ◌++◌, Text, arith, update_where, delete_where, if◌then◌else◌, Bool-cases,
}
use ambagrid.Edge.Domain.{
  is_normal, EventStatus, persisted, pending_upload, uploaded, acknowledged, expired, abandoned,
  is_active,
}
use ambagrid.Edge.Store.Schema.{Row, Db, queued_bytes}
use ambagrid.Edge.Store.Capacity.{Config, payload_capacity, normal_admission_limit}

-- persisted → pending_upload → uploaded → acknowledged → expired, with a retry back to
-- pending_upload and the way out to abandoned.
abbrev pub may_become : EventStatus → EventStatus → Bool
may_become persisted persisted = true
may_become persisted pending_upload = true
may_become pending_upload pending_upload = true
may_become pending_upload uploaded = true
may_become pending_upload acknowledged = true
may_become pending_upload abandoned = true
may_become uploaded uploaded = true
may_become uploaded pending_upload = true
may_become uploaded acknowledged = true
may_become acknowledged acknowledged = true
may_become acknowledged expired = true
may_become expired expired = true
may_become abandoned abandoned = true
may_become _ _ = false

-- A row keeps its identity and its payload, its counters do not fall, and its status moves along
-- the life cycle.
pub record RowMove (r s : Row) : Type 0 where
  pub same_sequence : s.sequence ≡ r.sequence
  pub same_device : s.device_id ≡ r.device_id
  pub same_payload : s.payload ≡ r.payload
  pub same_size : s.payload_bytes ≡ r.payload_bytes
  pub attempts_grow : r.attempt_count ≤ s.attempt_count
  pub rejections_grow : r.rejection_count ≤ s.rejection_count
  pub moves : may_become r.status s.status ≡ true

-- How a call that stores no event changes the table: every row moves, and finished rows may go.
pub data Keeps : List Row → List Row → Type 0 where
  ended : Keeps [] []
  moved : {r s : Row} {rs ss : List Row} → RowMove r s → Keeps rs ss → Keeps (r ∷ rs) (s ∷ ss)
  purged :
      {r : Row} {rs ss : List Row} → is_active r.status ≡ false → Keeps rs ss → Keeps (r ∷ rs) ss

-- How a call that stores an event changes the database: one row behind the others, unfinished, under
-- the next sequence, within the capacity, and marked for replay while an outage lasts.
pub record Stores (c : Config) (db db' : Db) : Type 0 where
  pub row : Row
  pub at_end : db'.events ≡ db.events ++ row ∷ []
  pub next_sequence : row.sequence ≡ db.last_sequence + 1
  pub counted : db'.last_sequence ≡ row.sequence
  pub live : is_active row.status ≡ true
  pub sized : row.payload_bytes ≡ length row.payload
  pub fits : queued_bytes db.events + row.payload_bytes ≤ payload_capacity c
  pub reserve_kept :
      is_normal row.priority ≡ true
      → queued_bytes db.events + row.payload_bytes ≤ normal_admission_limit c
  pub replays : row.replay_required ≡ db.sync.replay_mode_active
  pub same_sync : db'.sync ≡ db.sync

abbrev pub Changes : Config → Db → Db → Type 0
Changes c db db' =
    (Keeps db.events db'.events × (db'.last_sequence ≡ db.last_sequence)) ⊎ Stores c db db'

pub RowMove-refl : (r : Row) → RowMove r r
RowMove-refl r = ground arith

pub Keeps-refl : (rs : List Row) → Keeps rs rs
Keeps-refl [] = ended
Keeps-refl (r ∷ rs) = moved (RowMove-refl r) (Keeps-refl rs)

-- An UPDATE keeps the table if its assignment is a move of each row that it hits.
pub update_where-Keeps :
    (p : Row → Bool) (f : Row → Row)
    → ((r : Row) → p r ≡ true → RowMove r (f r))
    → (rs : List Row) → Keeps rs (update_where p f rs)
unfolding update_where
update_where-Keeps p f h [] = ended
update_where-Keeps p f h (r ∷ rs) = elim (Bool-cases (p r)) [
  | inl hit ↦ rw hit (moved (h r hit) (update_where-Keeps p f h rs))
  | inr miss ↦ rw miss (moved (RowMove-refl r) (update_where-Keeps p f h rs))
]

-- Two UPDATEs, one after the other.
pub update_twice-Keeps :
    (p q : Row → Bool) (f g : Row → Row)
    → ((r : Row) → let s = (if p r then f r else r) in RowMove r (if q s then g s else s))
    → (rs : List Row) → Keeps rs (update_where q g (update_where p f rs))
unfolding update_where
update_twice-Keeps p q f g h [] = ended
update_twice-Keeps p q f g h (r ∷ rs) = moved (h r) (update_twice-Keeps p q f g h rs)

pub delete_where-Keeps :
    (p : Row → Bool)
    → ((r : Row) → p r ≡ true → is_active r.status ≡ false)
    → (rs : List Row) → Keeps rs (delete_where p rs)
unfolding delete_where
delete_where-Keeps p h [] = ended
delete_where-Keeps p h (r ∷ rs) = elim (Bool-cases (p r)) [
  | inl hit ↦ rw hit (purged (h r hit) (delete_where-Keeps p h rs))
  | inr miss ↦ rw miss (moved (RowMove-refl r) (delete_where-Keeps p h rs))
]

-- A row of the table before, as it stands in the table after.
abbrev pub Survives : Row → List Row → Type 0
Survives r [] = ⊥
Survives r (s ∷ ss) = RowMove r s ⊎ Survives r ss

abbrev pub Holds : Row → List Row → Type 0
Holds r [] = ⊥
Holds r (s ∷ ss) = (r ≡ s) ⊎ Holds r ss

pub Keeps-Survives :
    {rs ss : List Row}
    → Keeps rs ss
    → (r : Row) → is_active r.status ≡ true
    → Holds r rs
    → Survives r ss
Keeps-Survives ended r live h = absurd h
Keeps-Survives (moved m k) r live (inl e) = inl (rw e m)
Keeps-Survives (moved m k) r live (inr h) = inr (Keeps-Survives k r live h)
Keeps-Survives (purged dead k) r live (inl e) = absurd (ground arith)
Keeps-Survives (purged dead k) r live (inr h) = Keeps-Survives k r live h

pub Survives-append : (r : Row) (rs ss : List Row) → Holds r rs → Survives r (rs ++ ss)
Survives-append r [] ss h = absurd h
Survives-append r (x ∷ rs) ss (inl e) = inl (rw e (RowMove-refl x))
Survives-append r (x ∷ rs) ss (inr h) = inr (Survives-append r rs ss h)
