-- ===== src/Operator/Conformance/Once.antt =====
-- A challenge is graded once.
use so_ho_link.Base.{
  ℕ, ◌≤◌, ◌≡◌, ◌∙◌, refl, sym, ap, subst, String, Bool, true, Option, none, some, List, ◌==◌,
  text_equality, arith, eq_of_same,
}
use so_ho_link.Store.Sql.{Error, require, first_where, count_where, update_where}
use so_ho_link.Store.Effects.{Moves, moves}
use so_ho_link.Store.Returns.{
  Yields, Yields-bind, Yields-require, Yields-guard, Yields-given, Yields-imply, Yields-pure,
  Yields-gets, Yields-transaction,
}
use so_ho_link.Store.Rows.{
  changed, changed_hit, first_where-update_where, count_where-update_where, first_where-test,
  some_row,
}
use so_ho_link.Store.Counts.{first_where-only}
use so_ho_link.Operator.Tables.{
  OperatorTables, ChallengeRow, ChallengeResult, Suite, suite_equality, Detail,
}
use so_ho_link.Operator.Holds.{
  on, Kept, Kept-course, Keeps-select_from, Yields-Kept, Yields-select_from, Yields-statement,
}
use so_ho_link.Operator.Rotation.{active_key_map_tx}
use so_ho_link.Operator.Conformance.{is_challenge, require_run}
use so_ho_link.Operator.Conformance.Grading.{
  Grader, prior_result, result_of, consumed, consume_challenge, store_verdict, settle_challenge,
  is_challenge_of, grade_challenge,
}

-- What reads keeps every fact of the tables.
module _ (P : OperatorTables → Type 0) where
  pub require_run-Kept : (run id : String) → Moves (Kept P) (require_run run id)
  unfolding require_run
  require_run-Kept run id = search (Kept-course P, moves, Keeps-select_from P) depth 10

  pub key_map-Kept : (id : String) → Moves (Kept P) (active_key_map_tx id)
  unfolding active_key_map_tx
  key_map-Kept id = search (Kept-course P, moves, Keeps-select_from P) depth 8

pub part_of :
    (ch run : String) (c : ChallengeRow)
    → is_challenge_of ch run c ≡ true
    → is_challenge ch c ≡ true
part_of ch run c h = ground arith

module _ (ch : String) where
  abbrev pub OneAt : List ChallengeRow → Type 0
  OneAt cs = count_where (is_challenge ch) cs ≤ 1

  abbrev pub Holds : ChallengeRow → List ChallengeRow → Type 0
  Holds c cs = OneAt cs × (first_where (is_challenge ch) cs ≡ some c)

  module _ (suite : Suite) (r : ChallengeResult) where
    -- The challenge is consumed, and answers `r`.
    pub record IsSettled (c : ChallengeRow) : Type 0 where
      pub consumed_at : (at : ℕ) × (c.consumed_at ≡ some at)
      pub suite_of : c.suite ≡ suite
      pub answer : prior_result c.result ch suite ≡ r

    abbrev pub SettledAt : List ChallengeRow → Type 0
    SettledAt cs = (c : ChallengeRow) × Holds c cs × IsSettled c

  found-Holds :
      (run : String) (found : Option ChallengeRow) (e : Error)
      → Yields
          (on
            (λ t. OneAt t.challenges × (found ≡ first_where (is_challenge_of ch run) t.challenges)))
          (require found e)
          (λ c. on (λ t. Holds c t.challenges))
  found-Holds run found e = Yields-imply _ _ _ _ (Yields-require _ found e) (λ c d n p. (
    p.0.0,
    first_where-only (is_challenge_of ch run) (is_challenge ch) d.registered.challenges
        (part_of ch run) p.0.0 (sym p.0.1 ∙ p.1),
  ))

  pub held_id : (c : ChallengeRow) (cs : List ChallengeRow) → Holds c cs → c.challenge_id ≡ ch
  held_id c cs p = eq_of_same (first_where-test (is_challenge ch) cs p.1)

  -- The verdict is stored with the challenge.
  consumed-Settled :
      (suite : Suite) (c : ChallengeRow) (judged : Bool × Detail) (now : ℕ) (cs : List ChallengeRow)
      → c.suite ≡ suite
      → Holds c cs
      → let r = result_of c.challenge_id suite judged in
        SettledAt suite r (update_where (is_challenge c.challenge_id) (consumed r now) cs)
  consumed-Settled suite c judged now cs same p =
      let r = result_of c.challenge_id suite judged in
      (
        consumed r now c,
        (
          subst (λ n. n ≤ 1)
              (sym (
                count_where-update_where (is_challenge ch) (is_challenge c.challenge_id)
                  (consumed r now) cs (λ s. refl)))
              p.0,
          first_where-update_where (is_challenge ch) (is_challenge c.challenge_id) (consumed r now)
                cs (λ s. refl)
              ∙ ap (changed (is_challenge c.challenge_id) (consumed r now)) p.1
              ∙ changed_hit (is_challenge c.challenge_id) (consumed r now) c (
                  subst (λ x. (c.challenge_id == x) ≡ true) (sym (held_id c cs p))
                    (first_where-test (is_challenge ch) cs p.1)),
        ),
        record {
          consumed_at = (now, refl);
          suite_of = same;
          answer = ap (λ x. result_of x suite judged) (sym (held_id c cs p));
        },
      )

  store-Settled :
      (suite : Suite) (c : ChallengeRow) (judged : Bool × Detail)
      → c.suite ≡ suite
      → Yields
          (on (λ t. Holds c t.challenges))
          (store_verdict (result_of c.challenge_id suite judged))
          (λ r. on (λ t. SettledAt suite r t.challenges))
  unfolding store_verdict consume_challenge
  store-Settled suite c judged same =
      let r = result_of c.challenge_id suite judged in
      Yields-bind _ _ _ (λ u. on (λ t. SettledAt suite r t.challenges)) _
        (Yields-bind _ _ _ (λ now. on (λ t. Holds c t.challenges)) _ (Yields-gets _ _ _ (λ w p. p))
          λ now.
            Yields-statement _ _ (λ u t. SettledAt suite r t.challenges)
              (λ t u p e. consumed-Settled suite c judged now t.challenges same p))
        λ u. Yields-pure _ (λ x. on (λ t. SettledAt suite x t.challenges)) r (λ d n p. p)

  settle-Settled :
      (grader : Grader) (id : String) (suite : Suite) (c : ChallengeRow) (at : Option ℕ)
      → c.consumed_at ≡ at
      → c.suite ≡ suite
      → Yields
          (on (λ t. Holds c t.challenges))
          (settle_challenge grader id suite c at)
          (λ r. on (λ t. SettledAt suite r t.challenges))
  unfolding settle_challenge
  settle-Settled grader id suite c (some at) e same =
      Yields-pure _ (λ r. on (λ t. SettledAt suite r t.challenges)) _
        (λ d n p. (
          c,
          p,
          record {
            consumed_at = (at, e);
            suite_of = same;
            answer =
                ap (λ x. prior_result c.result x suite) (sym (held_id c d.registered.challenges p));
          },
        ))
  settle-Settled grader id suite c none e same =
      Yields-bind _ _ _ (λ km. on (λ t. Holds c t.challenges)) _
        (Yields-Kept _ _ (key_map-Kept (λ t. Holds c t.challenges) id))
        λ km. store-Settled suite c (grader c.expected c.nonce km) same

  pub grade-Settled :
      (id run : String) (suite : Suite) (grader : Grader)
      → Yields
          (on (λ t. OneAt t.challenges))
          (grade_challenge id run ch suite grader)
          (λ r. on (λ t. SettledAt suite r t.challenges))
  unfolding grade_challenge
  grade-Settled id run suite grader = Yields-transaction _ _ _ (
      Yields-bind _ _ _ (λ u. on (λ t. OneAt t.challenges)) _
        (Yields-Kept _ _ (require_run-Kept (λ t. OneAt t.challenges) run id))
        λ u. Yields-bind _ _ _ _ _ (Yields-select_from (λ t. OneAt t.challenges) _) λ found.
          Yields-bind _ _ _ _ _ (found-Holds run found _) λ c.
            Yields-bind _ _ _ _ _ (Yields-guard _ _ _) λ v.
              Yields-given _ _ _ _
                (λ same. settle-Settled grader id suite c c.consumed_at refl (eq_of_same same)))

  module _ (suite : Suite) (r : ChallengeResult) where
    abbrev pub Settled : OperatorTables → Type 0
    Settled t = SettledAt suite r t.challenges

    abbrev Known : ChallengeRow → OperatorTables → Type 0
    Known c t = Holds c t.challenges × IsSettled suite r c

    -- The one challenge is the settled one.
    Known-row :
        (run : String) (c : ChallengeRow) (t : OperatorTables)
        → Settled t
        → first_where (is_challenge_of ch run) t.challenges ≡ some c
        → Known c t
    Known-row run c t s f =
        let held =
          first_where-only (is_challenge_of ch run) (is_challenge ch) t.challenges (part_of ch run)
            s.1.0 f in
        ((s.1.0, held), subst (IsSettled suite r) (some_row (sym s.1.1 ∙ held)) s.2)

    pub not_fresh : {at : ℕ} {o : Option ℕ} → o ≡ some at → o ≡ none → ⊥
    not_fresh h e = cc

    settle-again :
        (grader : Grader) (id : String) (other : Suite) (c : ChallengeRow) (at : Option ℕ)
        → c.consumed_at ≡ at
        → c.suite ≡ other
        → Yields
            (on (Known c))
            (settle_challenge grader id other c at)
            (λ x. on (λ t. (other ≡ suite) × (x ≡ r)))
    unfolding settle_challenge
    settle-again grader id other c (some at) e same =
        Yields-pure _ (λ x. on (λ t. (other ≡ suite) × (x ≡ r))) _
          (λ d n p.
            let suites = sym same ∙ p.1.suite_of in
            (
              suites,
              ap (λ x. prior_result c.result x other) (held_id c d.registered.challenges p.0)
                  ∙ ap (λ x. prior_result c.result ch x) suites
                  ∙ p.1.answer,
            ))
    settle-again grader id other c none e same = record {
      at = λ w p h. absurd (not_fresh p.1.consumed_at.1 e);
    }

    pub grade-again :
        (id run : String) (other : Suite) (grader : Grader)
        → Yields
            (on Settled)
            (grade_challenge id run ch other grader)
            (λ x. on (λ t. (other ≡ suite) × (x ≡ r)))
    unfolding grade_challenge
    grade-again id run other grader = Yields-transaction _ _ _ (
        Yields-bind _ _ _ (λ u. on Settled) _ (Yields-Kept _ _ (require_run-Kept Settled run id))
          λ u. Yields-bind _ _ _ _ _ (Yields-select_from Settled _) λ found.
            Yields-bind _ _ _ (λ c. on (Known c)) _
              (Yields-imply _ _ _ _ (Yields-require _ found _)
                (λ c d n p. Known-row run c d.registered p.0.0 (sym p.0.1 ∙ p.1)))
              λ c. Yields-bind _ _ _ _ _ (Yields-guard _ _ _) λ v.
                Yields-given _ _ _ _
                  (λ same. settle-again grader id other c c.consumed_at refl (eq_of_same same)))
