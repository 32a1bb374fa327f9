-- ===== src/Operator/Conformance/Others.antt =====
-- Grading a challenge leaves the verdict on another one alone.
use so_ho_link.Base.{
  ℕ, ◌≤◌, ◌≡◌, ◌∙◌, refl, sym, ap, subst, inl, inr, String, Bool, true, false, ◌&&◌, Option, none,
  some, List, ◌==◌, text_equality, nat_same, arith, Bool-cases, eq_of_same, false≢true, same_refl,
}
use so_ho_link.Store.Sql.{first_where, count_where, update_where}
use so_ho_link.Store.Effects.{Moves}
use so_ho_link.Store.Returns.{
  Yields, Yields-bind, Yields-require, Yields-guard, Yields-given, Yields-imply, Yields-pure,
  Yields-gets,
}
use so_ho_link.Store.Rows.{
  changed, first_where-update_where, count_where-update_where, first_where-test, some_row,
}
use so_ho_link.Store.Counts.{first_where-only, count_where-found}
use so_ho_link.Operator.Tables.{
  OperatorTables, ChallengeRow, ChallengeResult, Suite, suite_equality,
}
use so_ho_link.Operator.Holds.{
  on, Kept, Keeps-transaction, Keeps-statement, Yields-Kept, Yields-select_from, Yields-statement,
}
use so_ho_link.Operator.Conformance.{is_challenge, put_challenge, insert_challenge}
use so_ho_link.Operator.Conformance.Grading.{
  Grader, consumed, consume_challenge, store_verdict, settle_challenge, is_challenge_of,
  grade_challenge,
}
use so_ho_link.Operator.Conformance.Once.{
  require_run-Kept, key_map-Kept, part_of, SettledAt, Settled, held_id, not_fresh,
}

module _ (ch : String) (suite : Suite) (r : ChallengeResult) where
  -- Another challenge that is graded is not this one.
  other_row :
      (run at_run : String) (d : ChallengeRow) (cs : List ChallengeRow)
      → SettledAt ch suite r cs
      → first_where (is_challenge_of at_run run) cs ≡ some d
      → d.consumed_at ≡ none
      → (d.challenge_id == ch) ≡ false
  other_row run at_run d cs s f e = elim (Bool-cases (d.challenge_id == ch)) [
    | inr other ↦ other
    | inl hit ↦
        let place : at_run ≡ ch =
          sym
            (eq_of_same (part_of at_run run d (first_where-test (is_challenge_of at_run run) cs f)))
          ∙ eq_of_same hit in
        let held : first_where (is_challenge ch) cs ≡ some d =
          first_where-only (is_challenge_of at_run run) (is_challenge ch) cs
            (λ x h. subst (λ i. (x.challenge_id == i) ≡ true) place (part_of at_run run x h)) s.1.0
            f in
        let same : s.0 ≡ d = some_row (sym s.1.1 ∙ held) in
        absurd (not_fresh ch suite r (ap (λ x. x.consumed_at) (sym same) ∙ s.2.consumed_at.1) e)
  ]

  unlike : (a b : String) → a ≡ ch → (b == ch) ≡ false → (a == b) ≡ false
  unlike a b e h = elim (Bool-cases (a == b)) [
    | inr other ↦ other
    | inl hit ↦
        absurd (
          false≢true
            (sym h ∙ subst (λ x. (b == x) ≡ true) (sym (eq_of_same hit) ∙ e) (same_refl b)))
  ]

  changed_miss :
      (id : String) (change : ChallengeRow → ChallengeRow) (c : ChallengeRow)
      → (c.challenge_id == id) ≡ false
      → changed (is_challenge id) change (some c) ≡ some c
  changed_miss id change c h = rw h refl

  -- A verdict on another challenge leaves this one settled.
  consumed_other :
      (x : ChallengeResult) (now : ℕ) (d : ChallengeRow) (cs : List ChallengeRow)
      → SettledAt ch suite r cs
      → (d.challenge_id == ch) ≡ false
      → SettledAt ch suite r (update_where (is_challenge d.challenge_id) (consumed x now) cs)
  consumed_other x now d cs s other = (
    s.0,
    (
      subst (λ n. n ≤ 1)
          (sym (
            count_where-update_where (is_challenge ch) (is_challenge d.challenge_id)
              (consumed x now) cs (λ c. refl)))
          s.1.0,
      first_where-update_where (is_challenge ch) (is_challenge d.challenge_id) (consumed x now) cs
            (λ c. refl)
          ∙ ap (changed (is_challenge d.challenge_id) (consumed x now)) s.1.1
          ∙ changed_miss d.challenge_id (consumed x now) s.0
              (unlike s.0.challenge_id d.challenge_id (held_id ch s.0 cs s.1) other),
    ),
    s.2,
  )

  settle_other :
      (grader : Grader) (id : String) (at_suite : Suite) (run at_run : String) (d : ChallengeRow)
      (at : Option ℕ)
      → d.consumed_at ≡ at
      → Yields
          (on (λ t.
            (Settled ch suite r) t
            × (first_where (is_challenge_of at_run run) t.challenges ≡ some d)))
          (settle_challenge grader id at_suite d at)
          (λ x. on (Settled ch suite r))
  unfolding settle_challenge store_verdict consume_challenge
  settle_other grader id at_suite run at_run d (some at) e =
      Yields-pure _ (λ x. on (Settled ch suite r)) _ (λ u n p. p.0)
  settle_other grader id at_suite run at_run d none e =
      let Start = λ (t : OperatorTables).
        (Settled ch suite r) t × (first_where (is_challenge_of at_run run) t.challenges ≡ some d) in
      Yields-bind _ _ _ (λ km. on Start) _ (Yields-Kept _ _ (key_map-Kept Start id))
        λ km.
          Yields-bind _ _ _ (λ u. on (Settled ch suite r)) _
            (Yields-bind _ _ _ (λ now. on Start) _ (Yields-gets _ _ _ (λ w p. p))
              λ now.
                Yields-statement _ _ (λ u. (Settled ch suite r))
                  (λ t u p h.
                    consumed_other _ now d t.challenges p.0
                      (other_row run at_run d t.challenges p.0 p.1 e)))
            λ u. Yields-pure _ (λ x. on (Settled ch suite r)) _ (λ u n p. p)

  pub grade_other :
      (id run at_run : String) (at_suite : Suite) (grader : Grader)
      → Moves (Kept (Settled ch suite r)) (grade_challenge id run at_run at_suite grader)
  unfolding grade_challenge
  grade_other id run at_run at_suite grader = Keeps-transaction (Settled ch suite r) _ (
      Yields-bind _ _ _ (λ u. on (Settled ch suite r)) _
        (Yields-Kept _ _ (require_run-Kept (Settled ch suite r) run id))
        λ u. Yields-bind _ _ _ _ _ (Yields-select_from (Settled ch suite r) _) λ found.
          Yields-bind _ _ _
            (λ d. on (λ t.
              (Settled ch suite r) t
              × (first_where (is_challenge_of at_run run) t.challenges ≡ some d)))
            _
            (Yields-imply _ _ _ _ (Yields-require _ found _) (λ d t n p. (p.0.0, sym p.0.1 ∙ p.1)))
            λ d. Yields-bind _ _ _ _ _ (Yields-guard _ _ _) λ v.
              Yields-given _ _ _ _
                (λ same. settle_other grader id at_suite run at_run d d.consumed_at refl))

  first_zero : (n : ℕ) (x y : Bool) → nat_same n 0 && x && y ≡ true → n ≡ 0
  first_zero n x y h = ground arith

  put-Settled :
      (b : Bool) (row : ChallengeRow) (t : OperatorTables)
      → (b ≡ true → count_where (is_challenge row.challenge_id) t.challenges ≡ 0)
      → (Settled ch suite r) t
      → (Settled ch suite r) (put_challenge b row t).1
  put-Settled false row t new s = s
  put-Settled true row t new s = elim (Bool-cases (row.challenge_id == ch)) [
    | inl hit ↦ absurd (
        omega (
          arith,
          new refl,
          count_where-found (is_challenge ch) t.challenges s.1.1,
          ap (λ i. count_where (is_challenge i) t.challenges) (eq_of_same hit),
        ))
    | inr other ↦ (s.0, (rw other s.1.0, rw other s.1.1), s.2)
  ]

  pub insert-Settled :
      (row : ChallengeRow) → Moves (Kept (Settled ch suite r)) (insert_challenge row)
  unfolding insert_challenge
  insert-Settled row =
      Keeps-statement (Settled ch suite r) _ (λ t s. put-Settled _ row t (first_zero _ _ _) s)
