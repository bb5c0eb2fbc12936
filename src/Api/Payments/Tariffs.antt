-- ===== src/Api/Payments/Tariffs.antt =====
-- The tariff of a payment: the latest one of its site that is in force.
use ambagrid.Common.{
  ℕ, ◌≤◌, ◌<◌, ◌≡◌, ◌⊎◌, inl, inr, sym, Bool, true, false, Option, none, some, List, [], ◌∷◌, arith,
  Text, ltb, text_eq_iff, ok, All, subst, select_where, if◌then◌else◌, Bool-cases, Option-cases,
  All-map,
}
use ambagrid.Api.Payments.Tables
use ambagrid.Api.Payments.Queries

abbrev EndsAfter : ℕ → Option ℕ → Type 0
EndsAfter at none = Unit
EndsAfter at (some end) = at < end

-- A tariff of the site that is in force at a time.
abbrev pub InForce : Text → ℕ → Tables.TariffPlan → Type 0
InForce site at t = (t.site_id ≡ site) × (t.effective_from ≤ at) × EndsAfter at t.effective_to

-- The latest row of a selection is one of it, and no other of it is later.
module _ (p : Tables.TariffPlan → Bool) where
  abbrev NotLater : Tables.TariffPlan → Tables.TariffPlan → Type 0
  NotLater x y = (p y ≡ false) ⊎ (y.effective_from ≤ x.effective_from)

  abbrev latest : List Tables.TariffPlan → Option Tables.TariffPlan
  latest xs = Queries.latest_by (λ t. t.effective_from) (select_where p xs)

  latest-none :
      (x : Tables.TariffPlan) (xs : List Tables.TariffPlan) → latest xs ≡ none → All (NotLater x) xs
  unfolding select_where Queries.latest_by
  latest-none x [] h = tt
  latest-none x (y ∷ xs) h = elim (Bool-cases (p y)) [
    | inl hit ↦ elim (Option-cases (latest xs)) [
      | inl nothing ↦ absurd (ground (arith, rw (hit, nothing) at h))
      | inr (z, found) ↦ absurd (ground (arith, rw (hit, found) at h))
    ]
    | inr miss ↦ (inl miss, latest-none x xs (rw miss at h))
  ]

  later_of :
      (y z x : Tables.TariffPlan)
      → (if ltb y.effective_from z.effective_from then some z else some y) ≡ some x
      → ((x ≡ z) × (y.effective_from ≤ x.effective_from))
        ⊎ ((x ≡ y) × (z.effective_from ≤ x.effective_from))
  later_of y z x h = ground arith

  latest-some :
      (x : Tables.TariffPlan) (xs : List Tables.TariffPlan)
      → latest xs ≡ some x
      → (p x ≡ true) × All (NotLater x) xs
  unfolding select_where Queries.latest_by
  latest-some x [] h = absurd (ground arith)
  latest-some x (y ∷ xs) h = elim (Bool-cases (p y)) [
    | inl hit ↦ elim (Option-cases (latest xs)) [
      | inl nothing ↦
          let same : y ≡ x = ground (arith, rw (hit, nothing) at h) in
          (subst (λ z. p z ≡ true) same hit, (inr (ground arith), latest-none x xs nothing))
      | inr (z, found) ↦
          let (fits, before) = latest-some z xs found in
          elim (later_of y z x (rw (hit, found) at h)) [
            | inl (same, y_before) ↦
                subst (λ w. (p w ≡ true) × All (NotLater w) (y ∷ xs)) (sym same)
                  (fits, (inr (rw same at y_before), before))
            | inr (same, z_before) ↦
                subst (λ w. (p w ≡ true) × All (NotLater w) (y ∷ xs)) (sym same)
                  (
                    hit,
                    (
                      inr (omega arith),
                      All-map (NotLater z) (NotLater y) xs
                          (λ u k. ground (arith, rw same at z_before)) before,
                    ),
                  )
          ]
    ]
    | inr miss ↦ let (fits, before) = latest-some x xs (rw miss at h) in (fits, (inl miss, before))
  ]

in_force-InForce :
    (site : Text) (at : ℕ) (t : Tables.TariffPlan)
    → Queries.in_force site at t ≡ true
    → InForce site at t
in_force-InForce site at t h = elim (Option-cases t.effective_to) [
  | inl never ↦ ground (arith, text_eq_iff t.site_id site)
  | inr (end, ends) ↦ ground (arith, text_eq_iff t.site_id site)
]

InForce-in_force :
    (site : Text) (at : ℕ) (t : Tables.TariffPlan)
    → InForce site at t
    → Queries.in_force site at t ≡ true
InForce-in_force site at t h = ground (arith, text_eq_iff t.site_id site)

priced_row :
    (site : Text) (at : ℕ) (db : Tables.PaymentDb) {t : Tables.TariffPlan}
    → Queries.find_active_tariff false site at db ≡ ok t
    → latest (Queries.in_force site at) db.tariffs ≡ some t
unfolding Queries.find_active_tariff
priced_row site at db h = ground arith

-- The tariff that a payment is priced at.
pub priced-latest :
    (site : Text) (at : ℕ) (db : Tables.PaymentDb) {t : Tables.TariffPlan}
    → Queries.find_active_tariff false site at db ≡ ok t
    → InForce site at t
      × All (λ u. ¬ (InForce site at u × (t.effective_from < u.effective_from))) db.tariffs
priced-latest site at db {t} h =
    let (fits, before) =
      latest-some (Queries.in_force site at) t db.tariffs (priced_row site at db h) in
    (
      in_force-InForce site at t fits,
      All-map (NotLater (Queries.in_force site at) t) _ db.tariffs
          (λ u k (held, above). elim k [
            | inl outside ↦ absurd (ground (arith, InForce-in_force site at u held))
            | inr low ↦ absurd (omega (arith, low, above))
          ])
          before,
    )
