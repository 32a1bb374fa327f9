-- ===== src/Store/Rows.antt =====
-- What a guarded UPDATE makes of the row under an id.
use so_ho_link.Base.{
  if_true, if_false, subst, suc, none, ◌≡◌, refl, ap, ◌∙◌, inl, inr, String, Bool, true, false,
  Option, some, List, [], ◌∷◌, ◌==◌, text_equality, Bool-cases, if◌then◌else◌,
}
use so_ho_link.Store.{Job}
use so_ho_link.Store.Sql.{find_job, update_where, first_where, count_where}

pub some_same : {j k : Job} → some j ≡ some k → j ≡ k
some_same h = cc

changed_id : (b : Bool) (j k : Job) → k.id ≡ j.id → (if b then k else j).id ≡ j.id
changed_id true j k e = e
changed_id false j k e = refl

pub find_job-update_where :
    (test : Job → Bool) (change : Job → Job) (id : String) (js : List Job) {j : Job}
    → ((k : Job) → (change k).id ≡ k.id)
    → find_job id js ≡ some j
    → find_job id (update_where test change js) ≡ some (if test j then change j else j)
find_job-update_where test change id [] keeps h = cc
find_job-update_where test change id (k ∷ js) {j} keeps h =
    let kept : (if test k then change k else k).id ≡ k.id =
      changed_id (test k) k (change k) (keeps k) in
    elim (Bool-cases (k.id == id)) [
      | inl hit ↦
          if_true ((if test k then change k else k).id == id) _ _ (ap (λ x. x == id) kept ∙ hit)
          ∙ ap (λ r. some (if test r then change r else r)) (some_same (rw hit at h))
      | inr other ↦
          if_false ((if test k then change k else k).id == id) _ _ (ap (λ x. x == id) kept ∙ other)
          ∙ find_job-update_where test change id js keeps (rw other at h)
    ]

module _ {Row : Type 0} where
  abbrev pub changed : (Row → Bool) → (Row → Row) → Option Row → Option Row
  changed test change none = none
  changed test change (some r) = some (if test r then change r else r)

  pub changed_hit :
      (test : Row → Bool) (change : Row → Row) (r : Row)
      → test r ≡ true
      → changed test change (some r) ≡ some (change r)
  changed_hit test change r h = rw h refl

  pub some_row : {r s : Row} → some r ≡ some s → r ≡ s
  some_row h = cc

  -- A change that leaves a query's test alone changes the row that the query finds.
  pub first_where-update_where :
      (query test : Row → Bool) (change : Row → Row) (rs : List Row)
      → ((r : Row) → query (change r) ≡ query r)
      → first_where query (update_where test change rs) ≡ changed test change (first_where query rs)
  first_where-update_where query test change [] k = refl
  first_where-update_where query test change (r ∷ rs) k = elim (Bool-cases (test r)) [
    | inl hit ↦ elim (Bool-cases (query r)) [
      | inl asked ↦ rw (hit, k r, asked) (rw hit refl)
      | inr other ↦ rw (hit, k r, other) (first_where-update_where query test change rs k)
    ]
    | inr miss ↦ elim (Bool-cases (query r)) [
      | inl asked ↦ rw (miss, asked) (rw miss refl)
      | inr other ↦ rw (miss, other) (first_where-update_where query test change rs k)
    ]
  ]

  -- So does the number of rows that it finds not change.
  pub count_where-update_where :
      (query test : Row → Bool) (change : Row → Row) (rs : List Row)
      → ((r : Row) → query (change r) ≡ query r)
      → count_where query (update_where test change rs) ≡ count_where query rs
  count_where-update_where query test change [] k = refl
  count_where-update_where query test change (r ∷ rs) k = elim (Bool-cases (test r)) [
    | inl hit ↦
        rw (hit, k r)
          (ap (λ n. if query r then suc n else n) (count_where-update_where query test change rs k))
    | inr miss ↦
        rw miss
          (ap (λ n. if query r then suc n else n) (count_where-update_where query test change rs k))
  ]

  pub first_where-test :
      (query : Row → Bool) (rs : List Row) {r : Row}
      → first_where query rs ≡ some r
      → query r ≡ true
  first_where-test query [] h = cc
  first_where-test query (s ∷ rs) {r} h = elim (Bool-cases (query s)) [
    | inl hit ↦ subst (λ x. query x ≡ true) (some_row (rw hit at h)) hit
    | inr miss ↦ first_where-test query rs (rw miss at h)
  ]
