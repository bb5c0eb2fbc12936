-- ===== src/Edge/Store/Invariant.antt =====
-- What holds of the queue between two calls, over every history of calls and failures.
use ambagrid.Common.{
  ℕ, ◌+◌, ◌≤◌, ◌<◌, ◌≡◌, inl, inr, List, [], ◌∷◌, ◌++◌, arith, All, length, exists_where, sum_where,
}
use ambagrid.Edge.Store.Schema.{Db, Row, empty_db, queued_bytes, replay_pending}
use ambagrid.Edge.Store.Capacity.{Config, Store, payload_capacity}
use ambagrid.Edge.Store.Lifecycle.{Keeps, ended, moved, purged, Changes}
use ambagrid.Edge.Store.Lifecycle.Calls.{Call, after_call, after_calls}
use ambagrid.Edge.Store.Evolution.{after_call-Changes}
use ambagrid.Edge.Store.Replay.{ReplayKnown, after_call-ReplayKnown}

-- Sequences rise along the table, above `lo` and up to `hi`.
abbrev pub Ordered : ℕ → ℕ → List Row → Type 0
Ordered lo hi [] = lo ≤ hi
Ordered lo hi (r ∷ rs) = (lo < r.sequence) × Ordered r.sequence hi rs

-- Every row says how long its payload is.
abbrev pub Sized : List Row → Type 0
Sized = All (λ r. r.payload_bytes ≡ length r.payload)

pub record Inv (c : Config) (db : Db) : Type 0 where
  pub ordered : Ordered 0 db.last_sequence db.events
  pub sized : Sized db.events
  pub fits : queued_bytes db.events ≤ payload_capacity c
  pub replays : ReplayKnown db

pub Ordered-weaken :
    (lo lo' hi : ℕ) (rs : List Row) → lo' ≤ lo → Ordered lo hi rs → Ordered lo' hi rs
Ordered-weaken lo lo' hi [] h o = omega arith
Ordered-weaken lo lo' hi (r ∷ rs) h o = (omega arith, o.1)

Keeps-Ordered : (lo hi : ℕ) {rs ss : List Row} → Keeps rs ss → Ordered lo hi rs → Ordered lo hi ss
Keeps-Ordered lo hi ended o = o
Keeps-Ordered lo hi (moved {r = r} {s = s} {ss = ss} m k) o =
    rw (m.same_sequence) (o.0, Keeps-Ordered r.sequence hi k o.1)
Keeps-Ordered lo hi (purged {r = r} {ss = ss} dead k) o =
    Ordered-weaken r.sequence lo hi ss (omega arith) (Keeps-Ordered r.sequence hi k o.1)

Ordered-append :
    (lo hi : ℕ) (rs : List Row) (r : Row)
    → Ordered lo hi rs
    → hi < r.sequence
    → Ordered lo r.sequence (rs ++ r ∷ [])
Ordered-append lo hi [] r o h = (omega arith, omega arith)
Ordered-append lo hi (x ∷ rs) r o h = (o.0, Ordered-append x.sequence hi rs r o.1 h)

Keeps-Sized : {rs ss : List Row} → Keeps rs ss → Sized rs → Sized ss
Keeps-Sized ended h = h
Keeps-Sized (moved m k) h = (rw (m.same_size, m.same_payload) h.0, Keeps-Sized k h.1)
Keeps-Sized (purged dead k) h = Keeps-Sized k h.1

Sized-append :
    (rs : List Row) (r : Row) → Sized rs → r.payload_bytes ≡ length r.payload → Sized (rs ++ r ∷ [])
Sized-append [] r h e = (e, tt)
Sized-append (x ∷ rs) r h e = (h.0, Sized-append rs r h.1 e)

Keeps-queued_bytes : {rs ss : List Row} → Keeps rs ss → queued_bytes ss ≤ queued_bytes rs
unfolding queued_bytes sum_where
Keeps-queued_bytes ended = omega arith
Keeps-queued_bytes (moved m k) = ground (arith, Keeps-queued_bytes k)
Keeps-queued_bytes (purged dead k) = ground (arith, Keeps-queued_bytes k)

queued_bytes-append :
    (rs : List Row) (r : Row) → queued_bytes (rs ++ r ∷ []) ≤ queued_bytes rs + r.payload_bytes
unfolding queued_bytes sum_where
queued_bytes-append [] r = ground arith
queued_bytes-append (x ∷ rs) r = ground (arith, queued_bytes-append rs r)

pub Changes-Inv :
    (c : Config) (db db' : Db) → Changes c db db' → ReplayKnown db' → Inv c db → Inv c db'
Changes-Inv c db db' (inl (k, e)) replays v = record {
  ordered = rw e (Keeps-Ordered 0 db.last_sequence k v.ordered);
  sized = Keeps-Sized k v.sized;
  fits = omega (arith, Keeps-queued_bytes k, v.fits);
  replays = replays;
}
Changes-Inv c db db' (inr g) replays v = record {
  ordered =
      rw (g.at_end, g.counted)
        (Ordered-append 0 db.last_sequence db.events g.row v.ordered
          (omega (arith, g.next_sequence)));
  sized = rw g.at_end (Sized-append db.events g.row v.sized g.sized);
  fits = rw g.at_end (omega (arith, queued_bytes-append db.events g.row, g.fits));
  replays = replays;
}

-- The invariant of the queue survives every call, whatever SQLite and the file system answer:
-- sequences rise along the table and stay below the counter, each row gives the length of its
-- payload, the unfinished payloads fit the capacity, and an unfinished row that is marked for
-- replay means that replay mode is on.
pub after_call-Inv :
    (s : Store) (call : Call) (db : Db) → Inv s.cfg db → Inv s.cfg (after_call s call db)
after_call-Inv s call db v =
    Changes-Inv s.cfg db (after_call s call db) (after_call-Changes s db call)
      (after_call-ReplayKnown s db v.replays call) v

pub after_calls-Inv :
    (s : Store) (calls : List Call) (db : Db) → Inv s.cfg db → Inv s.cfg (after_calls s calls db)
unfolding after_calls
after_calls-Inv s [] db v = v
after_calls-Inv s (call ∷ calls) db v =
    after_calls-Inv s calls (after_call s call db) (after_call-Inv s call db v)

pub empty_db-Inv : (c : Config) → Inv c empty_db
unfolding empty_db queued_bytes sum_where replay_pending exists_where
empty_db-Inv c = ground arith

-- A queue that began empty never holds more unfinished payload bytes than its capacity.
pub queued_bytes_bounded :
    (s : Store) (calls : List Call)
    → queued_bytes (after_calls s calls empty_db).events ≤ payload_capacity s.cfg
queued_bytes_bounded s calls = (after_calls-Inv s calls empty_db (empty_db-Inv s.cfg)).fits
