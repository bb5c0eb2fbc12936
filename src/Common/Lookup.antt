-- ===== src/Common/Lookup.antt =====
-- Rows that are found, counted and summed in a table that grows at its end.
use Prim.Native.Nat.{ℕ, ◌+◌}
use mathlib.Core.Path.{◌≡◌, refl}
use mathlib.Core.Bool.{Bool, true, false}
use mathlib.Core.Option.{none, some}
use mathlib.Core.List.{List, [], ◌∷◌, ◌++◌}
use native.Mathlib.Omega.{arith}
use ambagrid.Common.Tests.{if◌then◌else◌}
use ambagrid.Common.Table.{exists_where, find_where, count_where, sum_where}

module _ {ℓ} {A : Type ℓ} (p : A → Bool) where
  -- In a table without such a row, a new one is found.
  pub find_where-new :
      (xs : List A) (y : A)
      → exists_where p xs ≡ false
      → p y ≡ true
      → find_where p (xs ++ y ∷ []) ≡ some y
  unfolding find_where exists_where
  find_where-new [] y h e = ground arith
  find_where-new (x ∷ xs) y h e = ground (arith, find_where-new xs y)

  -- Where neither the table nor the new row is meant, none is found.
  pub find_where-none : (xs : List A) → exists_where p xs ≡ false → find_where p xs ≡ none
  unfolding find_where exists_where
  find_where-none [] h = refl
  find_where-none (x ∷ xs) h = ground (arith, find_where-none xs)

  pub exists_where-append :
      (xs : List A) (y : A)
      → exists_where p xs ≡ false
      → p y ≡ false
      → exists_where p (xs ++ y ∷ []) ≡ false
  unfolding exists_where
  exists_where-append [] y h e = ground arith
  exists_where-append (x ∷ xs) y h e = ground (arith, exists_where-append xs y)

  -- A wider condition that no row meets.
  pub exists_where-narrow :
      (q : A → Bool) (xs : List A)
      → ((x : A) → q x ≡ false → p x ≡ false)
      → exists_where q xs ≡ false
      → exists_where p xs ≡ false
  unfolding exists_where
  exists_where-narrow q [] narrow h = refl
  exists_where-narrow q (x ∷ xs) narrow h =
      ground (arith, narrow x, exists_where-narrow q xs narrow)

  pub count_where-append :
      (xs : List A) (y : A)
      → count_where p (xs ++ y ∷ []) ≡ count_where p xs + (if p y then 1 else 0)
  unfolding count_where
  count_where-append [] y = ground arith
  count_where-append (x ∷ xs) y = omega (arith, count_where-append xs y)

  pub count_where-none : (xs : List A) → exists_where p xs ≡ false → count_where p xs ≡ 0
  unfolding count_where exists_where
  count_where-none [] h = refl
  count_where-none (x ∷ xs) h = ground (arith, count_where-none xs)

  pub sum_where-append :
      (g : A → ℕ) (xs : List A) (y : A)
      → sum_where p g (xs ++ y ∷ []) ≡ sum_where p g xs + (if p y then g y else 0)
  unfolding sum_where
  sum_where-append g [] y = ground arith
  sum_where-append g (x ∷ xs) y = omega (arith, sum_where-append g xs y)

  pub exists-append : (xs ys : List A) → exists_where p xs ≡ true → exists_where p (xs ++ ys) ≡ true
  unfolding exists_where
  exists-append [] ys h = absurd (ground arith)
  exists-append (x ∷ xs) ys h = ground (arith, exists-append xs ys)

  pub exists_last : (xs : List A) (y : A) → p y ≡ true → exists_where p (xs ++ y ∷ []) ≡ true
  unfolding exists_where
  exists_last [] y h = ground arith
  exists_last (x ∷ xs) y h = ground (arith, exists_last xs y)

  pub find-exists : (xs : List A) (x : A) → find_where p xs ≡ some x → exists_where p xs ≡ true
  unfolding find_where exists_where
  find-exists [] x h = absurd (ground arith)
  find-exists (y ∷ ys) x h = ground (arith, find-exists ys x)

  pub find_none-exists : (xs : List A) → find_where p xs ≡ none → exists_where p xs ≡ false
  unfolding find_where exists_where
  find_none-exists [] h = refl
  find_none-exists (y ∷ ys) h = ground (arith, find_none-exists ys)

  -- Behind rows that are not meant, the new one decides.
  pub exists_where-last :
      (xs : List A) (y : A) → exists_where p xs ≡ false → exists_where p (xs ++ y ∷ []) ≡ p y
  unfolding exists_where
  exists_where-last [] y h = ground arith
  exists_where-last (x ∷ xs) y h = ground (arith, exists_where-last xs y)

  pub find_where-never : (xs : List A) → ((x : A) → p x ≡ false) → find_where p xs ≡ none
  unfolding find_where
  find_where-never [] never = refl
  find_where-never (x ∷ xs) never = rw (never x, find_where-never xs never) refl
