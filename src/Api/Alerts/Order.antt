-- ===== src/Api/Alerts/Order.antt =====
-- The order of the listing, and what stands behind a row of it.
use ambagrid.Common.{
  ℕ, ◌≡◌, refl, subst, ◌∙◌, inl, inr, Bool, true, false, ◌&&◌, Option, none, some, List, [], ◌∷◌,
  ◌++◌, arith, All, select_where, Bool-cases,
}
use ambagrid.Api.Alerts.Listing

abbrev pub behind : Listing.Alert → Listing.Alert → Bool
behind x = Listing.is_after x.opened_at x.alert_id

-- Newest first, the ID breaking ties, no two rows alike.
abbrev pub Ordered : List Listing.Alert → Type 0
Ordered [] = Unit
Ordered (x ∷ xs) = All (λ y. behind x y ≡ true) xs × Ordered xs

behind-not : (x y : Listing.Alert) → behind x y ≡ true → behind y x ≡ false
behind-not x y h = grind arith

behind_self : (x : Listing.Alert) → behind x x ≡ false
behind_self x = grind arith

after-behind :
    (c : Option (ℕ × ℕ)) (x y : Listing.Alert)
    → Listing.after_cursor c x ≡ true
    → behind x y ≡ true
    → Listing.after_cursor c y ≡ true
after-behind none x y h b = refl
after-behind (some (time, id)) x y h b = grind arith

module _ (P : Listing.Alert → Type 0) where
  pub All-select_where :
      (p : Listing.Alert → Bool) (xs : List Listing.Alert) → All P xs → All P (select_where p xs)
  unfolding select_where
  All-select_where p [] h = tt
  All-select_where p (x ∷ xs) h = elim (Bool-cases (p x)) [
    | inl picked ↦ rw picked (h.0, All-select_where p xs h.1)
    | inr left ↦ rw left (All-select_where p xs h.1)
  ]

  pub All-middle :
      (front : List Listing.Alert) (x : Listing.Alert) (rest : List Listing.Alert)
      → All P (front ++ x ∷ rest)
      → P x
  All-middle [] x rest h = h.0
  All-middle (y ∷ front) x rest h = All-middle front x rest h.1

and_false : (a b : Bool) → b ≡ false → (a && b) ≡ false
and_false true b h = h
and_false false b h = refl

and_right : (a b : Bool) → (a && b) ≡ true → b ≡ true
and_right true b h = h
and_right false b h = absurd (ground arith)

select_where-same :
    (p q : Listing.Alert → Bool) (xs : List Listing.Alert)
    → All (λ x. p x ≡ q x) xs
    → select_where p xs ≡ select_where q xs
unfolding select_where
select_where-same p q [] h = refl
select_where-same p q (x ∷ xs) h = rw (h.0, select_where-same p q xs h.1) refl

module _ (m : Listing.Alert → Bool) (c : Option (ℕ × ℕ)) where
  abbrev wanted : Listing.Alert → Bool
  wanted a = m a && Listing.after_cursor c a

  abbrev later_than : Listing.Alert → Listing.Alert → Bool
  later_than x a = m a && behind x a

  wanted-later :
      (x : Listing.Alert) (rows : List Listing.Alert)
      → Listing.after_cursor c x ≡ true
      → All (λ y. behind x y ≡ true) rows
      → select_where (later_than x) rows ≡ select_where wanted rows
  unfolding select_where
  wanted-later x [] after h = refl
  wanted-later x (y ∷ rows) after h =
      rw (h.0, after-behind c x y after h.0, wanted-later x rows after h.1) refl

  skipped :
      (r x : Listing.Alert) (rows front rest : List Listing.Alert)
      → All (λ y. behind r y ≡ true) rows
      → select_where wanted rows ≡ front ++ x ∷ rest
      → later_than x r ≡ false
  skipped r x rows front rest h found = and_false (m r) (behind x r) (
      behind-not r x (
        All-middle (λ y. behind r y ≡ true) front x rest
          (rw found at (All-select_where (λ y. behind r y ≡ true) wanted rows h))))

  picked_first :
      (r : Listing.Alert) (rows front rest : List Listing.Alert) (x : Listing.Alert)
      → Ordered (r ∷ rows)
      → wanted r ≡ true
      → ((front : List Listing.Alert)
          → select_where wanted rows ≡ front ++ x ∷ rest
          → select_where (later_than x) rows ≡ rest)
      → (r ∷ select_where wanted rows) ≡ front ++ x ∷ rest
      → select_where (later_than x) (r ∷ rows) ≡ rest
  unfolding select_where
  picked_first r rows [] rest x o picked ih h =
      let same : r ≡ x = ground arith in
      let tail : select_where wanted rows ≡ rest = ground arith in
      let after : Listing.after_cursor c r ≡ true = and_right (m r) _ picked in
      subst (λ z. select_where (later_than z) (r ∷ rows) ≡ rest) same
        (rw (and_false (m r) (behind r r) (behind_self r)) (wanted-later r rows after o.0 ∙ tail))
  picked_first r rows (y ∷ front) rest x o picked ih h =
      let tail : select_where wanted rows ≡ front ++ x ∷ rest = ground arith in
      rw (skipped r x rows front rest o.0 tail) (ih front tail)

  -- The rows behind the last one of a page are those that remained behind it.
  pub select_where-behind :
      (rows front rest : List Listing.Alert) (x : Listing.Alert)
      → Ordered rows
      → select_where wanted rows ≡ front ++ x ∷ rest
      → select_where (later_than x) rows ≡ rest
  unfolding select_where
  select_where-behind [] [] rest x o h = absurd (ground arith)
  select_where-behind [] (y ∷ front) rest x o h = absurd (ground arith)
  select_where-behind (r ∷ rows) front rest x o h = elim (Bool-cases (wanted r)) [
    | inl picked ↦
        picked_first r rows front rest x o picked
          (λ front' tail. select_where-behind rows front' rest x o.1 tail) (rw picked at h)
    | inr left ↦
        let tail : select_where wanted rows ≡ front ++ x ∷ rest = rw left at h in
        rw (skipped r x rows front rest o.0 tail) (select_where-behind rows front rest x o.1 tail)
  ]
