-- ===== src/Common/Split.antt =====
-- `strings.Split` and `strings.Cut` at one byte, and `strings.Join` with it.
use Prim.Native.Nat.{ℕ}
use mathlib.Core.Path.{◌≡◌, refl, ap, ◌∙◌}
use mathlib.Core.Logic.{◌≢◌}
use mathlib.Core.Bool.{Bool, false, ◌||◌}
use mathlib.Core.Option.{Option, none, some}
use mathlib.Core.List.{List, [], ◌∷◌, ◌++◌}
use native.Mathlib.Omega.{arith}
use ambagrid.Common.Tests.{◌==◌, if◌then◌else◌}
use ambagrid.Common.Lists.{All}
use ambagrid.Common.Bytes.{Text}

abbrev pub before_first : ℕ → List Text → List Text
before_first x [] = (x ∷ []) ∷ []
before_first x (p ∷ ps) = (x ∷ p) ∷ ps

unfoldable pub split : ℕ → Text → List Text
split c [] = [] ∷ []
split c (x ∷ s) = let rest = split c s in if x == c then [] ∷ rest else before_first x rest

unfoldable pub join_with : ℕ → List Text → Text
join_with c [] = []
join_with c (p ∷ []) = p
join_with c (p ∷ q ∷ ps) = p ++ (c ∷ join_with c (q ∷ ps))

unfoldable pub contains_byte : ℕ → Text → Bool
contains_byte c [] = false
contains_byte c (x ∷ s) = x == c || contains_byte c s

split-ne-nil : (c : ℕ) (s : Text) → split c s ≢ []
unfolding split
split-ne-nil c [] = ground arith
split-ne-nil c (x ∷ s) = ground (arith, split-ne-nil c s)

join-before_first :
    (c x : ℕ) (ps : List Text) → ps ≢ [] → join_with c (before_first x ps) ≡ x ∷ join_with c ps
unfolding join_with
join-before_first c x [] h = absurd (h refl)
join-before_first c x (p ∷ []) h = refl
join-before_first c x (p ∷ q ∷ ps) h = refl

join-empty : (c : ℕ) (ps : List Text) → ps ≢ [] → join_with c ([] ∷ ps) ≡ c ∷ join_with c ps
unfolding join_with
join-empty c [] h = absurd (h refl)
join-empty c (q ∷ ps) h = refl

-- Joining what was split gives the text back.
pub join_with-split : (c : ℕ) (s : Text) → join_with c (split c s) ≡ s
unfolding split join_with
join_with-split c [] = refl
join_with-split c (x ∷ s) = ground (
  arith,
  join_with-split c s,
  join-before_first c x (split c s) (split-ne-nil c s),
  join-empty c (split c s) (split-ne-nil c s),
)

pub split-free : (c : ℕ) (s : Text) → contains_byte c s ≡ false → split c s ≡ s ∷ []
unfolding split contains_byte
split-free c [] h = refl
split-free c (x ∷ s) h = ground (arith, split-free c s)

pub split-append :
    (c : ℕ) (a rest : Text)
    → contains_byte c a ≡ false
    → split c (a ++ (c ∷ rest)) ≡ a ∷ split c rest
unfolding split contains_byte
split-append c [] rest h = ground arith
split-append c (x ∷ a) rest h = ground (arith, split-append c a rest)

-- Splitting what was joined gives the parts back, if there is one and none holds the byte.
pub split-join_with :
    (c : ℕ) (p : Text) (ps : List Text)
    → All (λ q. contains_byte c q ≡ false) (p ∷ ps)
    → split c (join_with c (p ∷ ps)) ≡ p ∷ ps
unfolding join_with
split-join_with c p [] h = split-free c p h.0
split-join_with c p (q ∷ ps) h =
    split-append c p (join_with c (q ∷ ps)) h.0 ∙ ap (λ rest. p ∷ rest) (split-join_with c q ps h.1)

abbrev prepend : ℕ → Option (Text × Text) → Option (Text × Text)
prepend x none = none
prepend x (some (k, v)) = some (x ∷ k, v)

-- `strings.Cut`: `none` where the byte is not found.
unfoldable pub cut : ℕ → Text → Option (Text × Text)
cut c [] = none
cut c (x ∷ s) = let rest = cut c s in if x == c then some ([], s) else prepend x rest

pub cut-append :
    (c : ℕ) (k v : Text) → contains_byte c k ≡ false → cut c (k ++ (c ∷ v)) ≡ some (k, v)
unfolding cut contains_byte
cut-append c [] v h = ground arith
cut-append c (x ∷ k) v h = ground (arith, cut-append c k v)
