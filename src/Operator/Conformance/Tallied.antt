-- ===== src/Operator/Conformance/Tallied.antt =====
-- What the loop of FinalizeRun counts.
use so_ho_link.Base.{
  ◌≤◌, ◌≡◌, ◌∙◌, refl, sym, ◌⊎◌, inl, inr, String, Bool, true, false, ◌&&◌, Option, none, some,
  List, [], ◌∷◌, ◌==◌, text_equality, number_equality, arith, Bool-cases,
}
use so_ho_link.Store.Sql.{count_where}
use so_ho_link.Store.Rows.{changed, some_row}
use so_ho_link.Operator.Tables.{
  OperatorRow, ChallengeRow, ChallengeResult, Suite, suite_a, suite_b, suite_c, suite_equality,
  suite_discrete,
}
use so_ho_link.Operator.Conformance.Finalize.{
  Tally, mark_suite, count_result, tally_rows, no_tally, all_passed,
}

abbrev pub has_passed : Option ChallengeResult → Bool
has_passed none = false
has_passed (some r) = r.passed

-- A challenge of the suite that has passed.
abbrev pub passed_in : Suite → ChallengeRow → Bool
passed_in suite c = c.suite == suite && has_passed c.result

abbrev pub tally_at : Suite → Tally → Bool
tally_at suite_a s = s.a
tally_at suite_b s = s.b
tally_at suite_c s = s.c

marked :
    (of suite : Suite) (s : Tally)
    → tally_at suite (mark_suite of s) ≡ true
    → (tally_at suite s ≡ true) ⊎ ((of == suite) ≡ true)
unfolding suite_discrete
marked suite_a suite_a s h = inr refl
marked suite_a suite_b s h = inl h
marked suite_a suite_c s h = inl h
marked suite_b suite_a s h = inl h
marked suite_b suite_b s h = inr refl
marked suite_b suite_c s h = inl h
marked suite_c suite_a s h = inl h
marked suite_c suite_b s h = inl h
marked suite_c suite_c s h = inr refl

unmarked :
    (suite : Suite) (s : Tally)
    → tally_at suite (record s { any_unconsumed = true }) ≡ tally_at suite s
unmarked suite_a s = refl
unmarked suite_b s = refl
unmarked suite_c s = refl

pub nothing_at : (suite : Suite) → tally_at suite no_tally ≡ false
nothing_at suite_a = refl
nothing_at suite_b = refl
nothing_at suite_c = refl

counted :
    (of suite : Suite) (r : Option ChallengeResult) (s : Tally)
    → tally_at suite (count_result of r s) ≡ true
    → (tally_at suite s ≡ true) ⊎ ((of == suite && has_passed r) ≡ true)
counted of suite none s h = inl (sym (unmarked suite s) ∙ h)
counted of suite (some r) s h = elim (Bool-cases r.passed) [
  | inl good ↦ elim (marked of suite s (rw good at h)) [
    | inl before ↦ inl before
    | inr now ↦ inr (rw (good, now) refl)
  ]
  | inr bad ↦ inl (rw bad at h)
]

-- A suite is marked by a challenge that has passed in it.
pub tallied :
    (suite : Suite) (s : Tally) (cs : List ChallengeRow)
    → tally_at suite (tally_rows s cs) ≡ true
    → (tally_at suite s ≡ true) ⊎ (1 ≤ count_where (passed_in suite) cs)
unfolding tally_rows
tallied suite s [] h = inl h
tallied suite s (c ∷ cs) h = elim (tallied suite (count_result c.suite c.result s) cs h) [
  | inr later ↦ inr (ground arith)
  | inl here ↦ elim (counted c.suite suite c.result s here) [
    | inl before ↦ inl before
    | inr now ↦ inr (rw now (omega arith))
  ]
]

pub suites_at : (s : Tally) (suite : Suite) → all_passed s ≡ true → tally_at suite s ≡ true
suites_at s suite_a h = ground arith
suites_at s suite_b h = ground arith
suites_at s suite_c h = ground arith

-- After a change of one operator, its row is the changed one.
pub changed_operator :
    (id : String) (change : OperatorRow → OperatorRow) (found : Option OperatorRow)
    {o : OperatorRow}
    → ((r : OperatorRow) → found ≡ some r → (r.id == id) ≡ true)
    → changed (λ r. r.id == id) change found ≡ some o
    → (r : OperatorRow) × (o ≡ change r)
changed_operator id change none k h = cc
changed_operator id change (some r) k h = (r, sym (some_row (rw (k r refl) at h)))
