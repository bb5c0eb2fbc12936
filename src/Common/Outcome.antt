-- ===== src/Common/Outcome.antt =====
-- Results of Go functions that may fail, early returns, and database transactions.
use mathlib.Core.Path.{◌≡◌, refl}
use mathlib.Core.Bool.{Bool, true, false}
use mathlib.Core.Option.{Option, none, some}
use native.Mathlib.Omega.{arith}

pub data Result {ℓ κ} (E : Type ℓ) (A : Type κ) : Type (ℓ ⊔ κ) where
  ok : A → Result E A
  err : E → Result E A

infixl 5 ◌>>=◌ ◌>>◌
abbrev pub ◌>>=◌ {ℓ κ μ} :
    {E : Type ℓ} {A : Type κ} {B : Type μ} → Result E A → (A → Result E B) → Result E B
ok a >>= f = f a
err e >>= f = err e

abbrev pub ◌>>◌ {ℓ κ} : {E : Type ℓ} {B : Type κ} → Result E (Unit {0}) → Result E B → Result E B
m >> k = m >>= λ _. k

-- `if b { return err }`.
abbrev pub refuse_if {ℓ} : {E : Type ℓ} → Bool → E → Result E (Unit {0})
refuse_if true e = err e
refuse_if false e = ok tt

abbrev pub is_ok {ℓ κ} : {E : Type ℓ} {A : Type κ} → Result E A → Bool
is_ok (ok a) = true
is_ok (err e) = false

-- The `error` of a result that carries nothing else.
abbrev pub error_of {ℓ κ} : {E : Type ℓ} {A : Type κ} → Result E A → Option E
error_of (ok a) = none
error_of (err e) = some e

-- A transaction: a state that the body changed is kept at its commit, and an error before that
-- runs the deferred Rollback, which leaves the state as it was.
abbrev pub in_tx {ℓ κ μ} :
    {S : Type ℓ} {E : Type κ} {A : Type μ} → S → Result E (A × S) → S × Result E A
in_tx s (ok (a, s')) = (s', ok a)
in_tx s (err e) = (s, err e)

-- Whatever a transaction does, it either commits its body's state or changes nothing.
pub in_tx_atomic {ℓ κ μ} :
    {S : Type ℓ} {E : Type κ} {A : Type μ} (s : S) (m : Result E (A × S)) {e : E}
    → (in_tx s m).1 ≡ err e
    → (in_tx s m).0 ≡ s
in_tx_atomic s (ok (a, s')) h = ground arith
in_tx_atomic s (err e) h = refl

-- A chain that succeeds has a first step that does.
pub >>=-eq-ok {ℓ κ μ} :
    {E : Type ℓ} {A : Type κ} {B : Type μ} (m : Result E A) (k : A → Result E B) {b : B}
    → (m >>= k) ≡ ok b
    → (a : A) × (m ≡ ok a) × (k a ≡ ok b)
>>=-eq-ok (ok a) k h = (a, refl, h)
>>=-eq-ok (err e) k h = absurd (ground arith)

-- What a transaction that succeeds has computed.
pub in_tx-eq-ok {ℓ κ μ} :
    {S : Type ℓ} {E : Type κ} {A : Type μ} (s : S) (m : Result E (A × S)) {a : A}
    → (in_tx s m).1 ≡ ok a
    → m ≡ ok (a, (in_tx s m).0)
in_tx-eq-ok s (ok (a, s')) h = ground arith
in_tx-eq-ok s (err e) h = absurd (ground arith)

-- A chain that succeeds goes on from what its first step is known to give.
pub >>=-known {ℓ κ μ} :
    {E : Type ℓ} {A : Type κ} {B : Type μ} (m : Result E A) (k : A → Result E B) {a : A} {b : B}
    → ((x : A) → m ≡ ok x → x ≡ a)
    → (m >>= k) ≡ ok b
    → k a ≡ ok b
>>=-known (ok x) k known h = rw⁻¹ (known x refl) h
>>=-known (err e) k known h = absurd (ground arith)

pub ok-injective {ℓ κ} :
    {E : Type ℓ} {A : Type κ} {x y : A} → ◌≡◌ {A = Result E A} (ok x) (ok y) → x ≡ y
ok-injective h = cc
