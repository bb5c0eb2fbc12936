-- ===== src/Api/Payments/Balances.antt =====
-- The balances behind an upsert: one row for each assignment, and its sums.
use ambagrid.Common.{
  ℕ, ◌+◌, ◌≤◌, ◌≡◌, inl, inr, refl, true, false, none, some, List, [], ◌∷◌, arith, ◌==◌,
  if◌then◌else◌, exists_where, find_where, count_where, sum_where, update_where, count_where-append,
  count_where-none, sum_where-append, find_where-new, find_where-none, Bool-cases,
}
use ambagrid.Api.Payments.Tables
use ambagrid.Api.Payments.Queries
use ambagrid.Api.Payments.Writes

module _ (now kwh money : ℕ) where
  update_where-count :
      (k o : ℕ) (rows : List Tables.CreditBalance)
      → count_where
          (Queries.balance_of o)
          (update_where (Queries.balance_of k) (Writes.raised now kwh money) rows)
        ≡ count_where (Queries.balance_of o) rows
  unfolding count_where update_where
  update_where-count k o [] = refl
  update_where-count k o (x ∷ rows) = ground (arith, update_where-count k o rows)

  update_where-none :
      (k : ℕ) (rows : List Tables.CreditBalance)
      → exists_where (Queries.balance_of k) rows ≡ false
      → update_where (Queries.balance_of k) (Writes.raised now kwh money) rows ≡ rows
  unfolding exists_where update_where
  update_where-none k [] h = refl
  update_where-none k (x ∷ rows) h = ground (arith, update_where-none k rows)

  update_where-found :
      (k : ℕ) (rows : List Tables.CreditBalance)
      → exists_where (Queries.balance_of k) rows ≡ true
      → find_where
          (Queries.balance_of k)
          (update_where (Queries.balance_of k) (Writes.raised now kwh money) rows)
        ≡ some (Writes.upserted now k kwh money (find_where (Queries.balance_of k) rows))
  unfolding exists_where update_where find_where
  update_where-found k [] h = absurd (ground arith)
  update_where-found k (x ∷ rows) h = ground (arith, update_where-found k rows)

  count_where-zero :
      (k : ℕ) (rows : List Tables.CreditBalance)
      → count_where (Queries.balance_of k) rows ≤ 0
      → exists_where (Queries.balance_of k) rows ≡ false
  unfolding exists_where count_where
  count_where-zero k [] h = refl
  count_where-zero k (x ∷ rows) h = ground (arith, count_where-zero k rows)

  -- A sum over the rows of one assignment rises by what its one row does.
  update_where-sum :
      (g : Tables.CreditBalance → ℕ) (rise k o : ℕ) (rows : List Tables.CreditBalance)
      → ((b : Tables.CreditBalance) → g (Writes.raised now kwh money b) ≡ g b + rise)
      → exists_where (Queries.balance_of k) rows ≡ true
      → count_where (Queries.balance_of k) rows ≤ 1
      → sum_where
          (Queries.balance_of o)
          g
          (update_where (Queries.balance_of k) (Writes.raised now kwh money) rows)
        ≡ sum_where (Queries.balance_of o) g rows + (if k == o then rise else 0)
  unfolding exists_where count_where update_where sum_where
  update_where-sum g rise k o [] rises h once = absurd (ground arith)
  update_where-sum g rise k o (x ∷ rows) rises h once = elim (Bool-cases (x.assignment_id == k)) [
    | inl same ↦
        let rest = count_where-zero k rows (ground arith) in
        let e : x.assignment_id ≡ k = ground arith in
        let added = rises x in rw (same, update_where-none k rows rest) (rw e (ground arith))
    | inr other ↦
        let ih = update_where-sum g rise k o rows rises (ground arith) (ground arith) in
        rw other (omega (arith, ih))
  ]

  -- The upsert answers with the row that it leaves.
  pub put_balance-found :
      (k : ℕ) (rows : List Tables.CreditBalance)
      → find_where (Queries.balance_of k) (Writes.put_balance now k kwh money rows)
        ≡ some (Writes.upserted now k kwh money (find_where (Queries.balance_of k) rows))
  unfolding Writes.put_balance
  put_balance-found k rows = elim (Bool-cases (exists_where (Queries.balance_of k) rows)) [
    | inl there ↦ rw there (update_where-found k rows there)
    | inr new ↦
        rw (new, find_where-none (Queries.balance_of k) rows new)
          (find_where-new (Queries.balance_of k) rows (Writes.upserted now k kwh money none) new
            (ground arith))
  ]

  pub put_balance-once :
      (k o : ℕ) (rows : List Tables.CreditBalance)
      → count_where (Queries.balance_of o) rows ≤ 1
      → count_where (Queries.balance_of o) (Writes.put_balance now k kwh money rows) ≤ 1
  unfolding Writes.put_balance
  put_balance-once k o rows h = elim (Bool-cases (exists_where (Queries.balance_of k) rows)) [
    | inl there ↦ rw (there, update_where-count k o rows) h
    | inr new ↦
        rw
          (
            new,
            count_where-append (Queries.balance_of o) rows (Writes.upserted now k kwh money none),
          )
          (room new)
  ]
    where
      room :
          exists_where (Queries.balance_of k) rows ≡ false
          → count_where (Queries.balance_of o) rows + (if k == o then 1 else 0) ≤ 1
      room new = elim (Bool-cases (k == o)) [
        | inl same ↦
            let e : k ≡ o = ground arith in
            rw same (omega (arith, count_where-none (Queries.balance_of o) rows (rw e at new)))
        | inr other ↦ rw other (omega (arith, h))
      ]

  pub put_balance-sum :
      (g : Tables.CreditBalance → ℕ) (rise k o : ℕ) (rows : List Tables.CreditBalance)
      → ((b : Tables.CreditBalance) → g (Writes.raised now kwh money b) ≡ g b + rise)
      → g (Writes.upserted now k kwh money none) ≡ rise
      → count_where (Queries.balance_of k) rows ≤ 1
      → sum_where (Queries.balance_of o) g (Writes.put_balance now k kwh money rows)
        ≡ sum_where (Queries.balance_of o) g rows + (if k == o then rise else 0)
  unfolding Writes.put_balance
  put_balance-sum g rise k o rows rises starts once =
      elim (Bool-cases (exists_where (Queries.balance_of k) rows)) [
        | inl there ↦ rw there (update_where-sum g rise k o rows rises there once)
        | inr new ↦
            rw
              (
                new,
                sum_where-append (Queries.balance_of o) g rows
                    (Writes.upserted now k kwh money none),
                starts,
              )
              refl
      ]
