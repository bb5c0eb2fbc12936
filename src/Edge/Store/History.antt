-- ===== src/Edge/Store/History.antt =====
-- Databases that a history of calls on the store leads to. The clients of the store show that what
-- they do is such a history, and then its invariants hold for them too.
use ambagrid.Common.{
  AnyOf, inl, inr, ◌≡◌, refl, sym, ◌∙◌, ap, List, [], ◌∷◌, ◌++◌, All, All-append, All-map,
}
use ambagrid.Edge.Store.Schema.{Db}
use ambagrid.Edge.Store.Capacity.{Store}
use ambagrid.Edge.Store.Lifecycle.Calls.{Call, after_call, after_calls}
use ambagrid.Edge.Store.Invariant.{Inv, after_calls-Inv}

-- Calls that all meet `P` lead from one database to the other.
pub record History (P : Call → Type 0) (s : Store) (db db' : Db) : Type 0 where
  pub calls : List Call
  pub allowed : All P calls
  pub result : db' ≡ after_calls s calls db

after_calls-append :
    (s : Store) (cs ds : List Call) (db : Db)
    → after_calls s (cs ++ ds) db ≡ after_calls s ds (after_calls s cs db)
unfolding after_calls
after_calls-append s [] ds db = refl
after_calls-append s (c ∷ cs) ds db = after_calls-append s cs ds (after_call s c db)

module _ (P : Call → Type 0) (s : Store) where
  pub no_calls : (db : Db) → History P s db db
  unfolding after_calls
  no_calls db = record { calls = []; allowed = tt; result = refl }

  pub one_call : (c : Call) (db : Db) → P c → History P s db (after_call s c db)
  unfolding after_calls
  one_call c db p = record { calls = c ∷ []; allowed = (p, tt); result = refl }

  pub then_calls :
      {db db' db'' : Db} → History P s db db' → History P s db' db'' → History P s db db''
  then_calls {db = db} h k = record {
    calls = h.calls ++ k.calls;
    allowed = All-append P h.calls k.calls h.allowed k.allowed;
    result =
        k.result
        ∙ (ap (after_calls s k.calls) h.result ∙ sym (after_calls-append s h.calls k.calls db));
  }

pub History-weaken :
    (P Q : Call → Type 0) (s : Store) {db db' : Db}
    → ((c : Call) → P c → Q c)
    → History P s db db'
    → History Q s db db'
History-weaken P Q s f h = record {
  calls = h.calls;
  allowed = All-map P Q h.calls f h.allowed;
  result = h.result;
}

pub History-Inv :
    (P : Call → Type 0) (s : Store) {db db' : Db}
    → History P s db db'
    → Inv s.cfg db
    → Inv s.cfg db'
History-Inv P s {db = db} h v = rw h.result (after_calls-Inv s h.calls db v)

-- A history that contains a call of a kind.
pub record Does (P Q : Call → Type 0) (s : Store) (db db' : Db) : Type 0 where
  pub history : History P s db db'
  pub done : AnyOf Q history.calls

module _ (P Q : Call → Type 0) (s : Store) where
  AnyOf-front : (xs ys : List Call) → AnyOf Q xs → AnyOf Q (xs ++ ys)
  AnyOf-front [] ys h = absurd h
  AnyOf-front (x ∷ xs) ys (inl h) = inl h
  AnyOf-front (x ∷ xs) ys (inr h) = inr (AnyOf-front xs ys h)

  AnyOf-back : (xs ys : List Call) → AnyOf Q ys → AnyOf Q (xs ++ ys)
  AnyOf-back [] ys h = h
  AnyOf-back (x ∷ xs) ys h = inr (AnyOf-back xs ys h)

  pub one_done : (c : Call) (db : Db) → P c → Q c → Does P Q s db (after_call s c db)
  unfolding after_calls
  one_done c db p q = record {
    history = record { calls = c ∷ []; allowed = (p, tt); result = refl };
    done = inl q;
  }

  pub done_then : {db db' db'' : Db} → Does P Q s db db' → History P s db' db'' → Does P Q s db db''
  unfolding then_calls
  done_then d k = record {
    history = then_calls P s d.history k;
    done = AnyOf-front d.history.calls k.calls d.done;
  }

-- A history that contains a call of its kind for every element of a list.
pub record DoesAll {ℓ} {A : Type ℓ} (P : Call → Type 0) (Q : A → Call → Type 0) (s : Store)
    (xs : List A) (db db' : Db) : Type ℓ where
  pub history : History P s db db'
  pub done : All (λ x. AnyOf (Q x) history.calls) xs

module _ {ℓ} {A : Type ℓ} (P : Call → Type 0) (Q : A → Call → Type 0) (s : Store) where
  pub none_done : (db : Db) → DoesAll P Q s [] db db
  none_done db = record { history = no_calls P s db; done = tt }

  pub more_done :
      (x : A) (xs : List A) {db db' db'' : Db}
      → Does P (Q x) s db db'
      → DoesAll P Q s xs db' db''
      → DoesAll P Q s (x ∷ xs) db db''
  unfolding then_calls
  more_done x xs d k = record {
    history = then_calls P s d.history k.history;
    done = (
      AnyOf-front P (Q x) s d.history.calls k.history.calls d.done,
      All-map _ _ xs (λ y h. AnyOf-back P (Q y) s d.history.calls k.history.calls h) k.done,
    );
  }

  pub all_then :
      (xs : List A) {db db' db'' : Db}
      → DoesAll P Q s xs db db'
      → History P s db' db''
      → DoesAll P Q s xs db db''
  unfolding then_calls
  all_then xs d k = record {
    history = then_calls P s d.history k;
    done = All-map _ _ xs (λ y h. AnyOf-front P (Q y) s d.history.calls k.calls h) d.done;
  }

  pub then_all :
      (xs : List A) {db db' db'' : Db}
      → History P s db db'
      → DoesAll P Q s xs db' db''
      → DoesAll P Q s xs db db''
  unfolding then_calls
  then_all xs k d = record {
    history = then_calls P s k d.history;
    done = All-map _ _ xs (λ y h. AnyOf-back P (Q y) s k.calls d.history.calls h) d.done;
  }

pub Does-weaken :
    (P P' Q : Call → Type 0) (s : Store) {db db' : Db}
    → ((c : Call) → P c → P' c)
    → Does P Q s db db'
    → Does P' Q s db db'
unfolding History-weaken
Does-weaken P P' Q s f d = record { history = History-weaken P P' s f d.history; done = d.done }

pub DoesAll-weaken {ℓ} :
    {A : Type ℓ} (P P' : Call → Type 0) (Q : A → Call → Type 0) (s : Store) (xs : List A)
    {db db' : Db}
    → ((c : Call) → P c → P' c)
    → DoesAll P Q s xs db db'
    → DoesAll P' Q s xs db db'
unfolding History-weaken
DoesAll-weaken P P' Q s xs f d = record {
  history = History-weaken P P' s f d.history;
  done = d.done;
}
