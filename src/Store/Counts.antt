-- ===== src/Store/Counts.antt =====
-- How many rows a query finds, before and after an UPDATE or a DELETE.
use so_ho_link.Base.{
  suc, ◌+◌, ◌≤◌, ◌≡◌, refl, inl, inr, Bool, true, false, some, none, List, [], ◌∷◌, Bool-cases,
  arith, select,
}
use so_ho_link.Store.Sql.{update_where, count_where, first_where}

module _ {Row : Type 0} where
  -- A change that makes no row answer a query makes no more rows answer it.
  pub count_where-update-le :
      (query test : Row → Bool) (change : Row → Row) (rs : List Row)
      → ((r : Row) → query (change r) ≡ true → query r ≡ true)
      → count_where query (update_where test change rs) ≤ count_where query rs
  count_where-update-le query test change [] k = omega arith
  count_where-update-le query test change (r ∷ rs) k =
      ground (arith, k r, count_where-update-le query test change rs k)

  -- A change that takes the rows that it picks out of a query.
  pub count_where-taken :
      (query test : Row → Bool) (change : Row → Row) (rs : List Row)
      → ((r : Row) → test r ≡ true → query r ≡ true)
      → ((r : Row) → query (change r) ≡ false)
      → count_where query (update_where test change rs) + count_where test rs ≡ count_where query rs
  count_where-taken query test change [] k n = omega arith
  count_where-taken query test change (r ∷ rs) k n =
      ground (arith, k r, n r, count_where-taken query test change rs k n)

  -- A change that leaves a query's answer on the rows that it picks alone.
  pub count_where-untouched :
      (query test : Row → Bool) (change : Row → Row) (rs : List Row)
      → ((r : Row) → test r ≡ true → query (change r) ≡ query r)
      → count_where query (update_where test change rs) ≡ count_where query rs
  count_where-untouched query test change [] k = refl
  count_where-untouched query test change (r ∷ rs) k =
      ground (arith, k r, count_where-untouched query test change rs k)

  pub count_where-found :
      (query : Row → Bool) (rs : List Row) {r : Row}
      → first_where query rs ≡ some r
      → 1 ≤ count_where query rs
  count_where-found query [] h = cc
  count_where-found query (s ∷ rs) {r} h = ground (arith, count_where-found query rs {r = r})

  pub count_where-select-le :
      (query keep : Row → Bool) (rs : List Row)
      → count_where query (select keep rs) ≤ count_where query rs
  count_where-select-le query keep [] = omega arith
  count_where-select-le query keep (r ∷ rs) = ground (arith, count_where-select-le query keep rs)

  -- Every row that answers `part` answers `whole`.
  pub count_where_mono :
      (part whole : Row → Bool) (rs : List Row)
      → ((r : Row) → part r ≡ true → whole r ≡ true)
      → count_where part rs ≤ count_where whole rs
  count_where_mono part whole [] k = omega arith
  count_where_mono part whole (r ∷ rs) k = ground (arith, k r, count_where_mono part whole rs k)

  pub count_where-none :
      (query : Row → Bool) (rs : List Row) → count_where query rs ≡ 0 → first_where query rs ≡ none
  count_where-none query [] h = refl
  count_where-none query (r ∷ rs) h = ground (arith, count_where-none query rs)

  pub count_where-some :
      (query : Row → Bool) (rs : List Row)
      → 1 ≤ count_where query rs
      → (r : Row) × (first_where query rs ≡ some r)
  count_where-some query [] h = absurd (omega arith)
  count_where-some query (r ∷ rs) h = elim (Bool-cases (query r)) [
    | inl hit ↦ (r, rw hit refl)
    | inr miss ↦ rw miss (count_where-some query rs (rw miss at h))
  ]

  -- Where one row at most answers `whole`, the row that answers `part` is that row.
  pub first_where-only :
      (part whole : Row → Bool) (rs : List Row) {r : Row}
      → ((s : Row) → part s ≡ true → whole s ≡ true)
      → count_where whole rs ≤ 1
      → first_where part rs ≡ some r
      → first_where whole rs ≡ some r
  first_where-only part whole [] k one h = cc
  first_where-only part whole (s ∷ rs) {r} k one h = elim (Bool-cases (part s)) [
    | inl hit ↦ rw (k s hit) (rw hit at h)
    | inr miss ↦ elim (Bool-cases (whole s)) [
      | inl first ↦
          let rest : first_where part rs ≡ some r = rw miss at h in
          let some_part = count_where-found part rs rest in
          let all_part = count_where_mono part whole rs k in
          let one' : suc (count_where whole rs) ≤ 1 = rw first at one in absurd (omega arith)
      | inr other ↦ rw other (first_where-only part whole rs k (rw other at one) (rw miss at h))
    ]
  ]
