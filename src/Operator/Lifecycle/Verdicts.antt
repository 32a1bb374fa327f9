-- ===== src/Operator/Lifecycle/Verdicts.antt =====
-- A challenge is graded once, whatever the registry does.
use so_ho_link.Base.{ℕ, ◌≤◌, ◌≡◌, String, Bool, List, text_equality}
use so_ho_link.Store.{World}
use so_ho_link.Store.Sql.{ok, count_where}
use so_ho_link.Operator.Tables.{ChallengeRow, ChallengeResult, Suite, suite_equality}
use so_ho_link.Operator.Holds.{Yields-Kept}
use so_ho_link.Operator.Conformance.{is_challenge}
use so_ho_link.Operator.Conformance.Grading.{Grader, grade_challenge}
use so_ho_link.Operator.Accounts.{KeyMap}
use so_ho_link.Operator.Rotation.{OperatorRotation}
use so_ho_link.Operator.Conformance.{Library}
use so_ho_link.Operator.Conformance.Grading.{
  suite_a_grader, suite_b_grader, grade_suite_a, grade_suite_b,
}
use so_ho_link.Operator.Tables.{suite_a, suite_b}
use so_ho_link.Operator.Conformance.Once.{SettledAt, Settled, grade-Settled, grade-again}
use so_ho_link.Operator.Conformance.Others.{grade_other, insert-Settled}
use so_ho_link.Operator.Lifecycle.{
  Step, Reach, here, next, create, verify_email, pass, activate, register, sign, rotate,
  revoke_operator, disconnect_operator, transmit, issue_code, check_code, publish, start_run,
  grade_a, grade_b, grade_c, finalize,
}
use so_ho_link.Operator.Lifecycle.Untouched.{transmit-Kept, issue-Kept, check-Kept, publish-Kept}
use so_ho_link.Operator.Lifecycle.Keys.{sign-Kept, rotate-Kept}
use so_ho_link.Operator.Lifecycle.Conforming.{start-Kept, grade_c-Kept, finalize-Kept}
use so_ho_link.Operator.Lifecycle.Challenges.{
  operator-Kept, create-Kept, email-Kept, pass-Kept, activate-Kept, add_keys-Kept, revoke-Kept,
  disconnect-Kept, bind-Kept,
}

module _ (sha256 : List ℕ → List ℕ) (verify : OperatorRotation → KeyMap → Bool) (lib : Library)
    (ch : String) (suite : Suite) where
  module _ (r : ChallengeResult) where
    abbrev P : List ChallengeRow → Type 0
    P cs = SettledAt ch suite r cs

    Step-Settled :
        {w v : World}
        → Step sha256 verify lib w v
        → Settled ch suite r w.db.registered
        → Settled ch suite r v.db.registered
    unfolding grade_suite_a grade_suite_b
    Step-Settled (create o name email phone w) = ((create-Kept P o name email phone).at w).keep
    Step-Settled (verify_email o w) = ((email-Kept P o).at w).keep
    Step-Settled (pass o w) = ((pass-Kept P sha256 o).at w).keep
    Step-Settled (activate o w) = ((activate-Kept P sha256 o).at w).keep
    Step-Settled (register o ps algo ths w) = ((add_keys-Kept P o ps algo ths).at w).keep
    Step-Settled (sign o i j w) = ((sign-Kept (λ os cs. P cs) o i j).at w).keep
    Step-Settled (rotate rot th w) = ((rotate-Kept (λ os cs. P cs) verify rot th).at w).keep
    Step-Settled (revoke_operator o w) = ((revoke-Kept P o).at w).keep
    Step-Settled (disconnect_operator o w) = ((disconnect-Kept P o).at w).keep
    Step-Settled (transmit o c seq nonce scope expiry w) =
        ((transmit-Kept (λ os ks cs. P cs) o c seq nonce scope expiry).at w).keep
    Step-Settled (issue_code drawn o session w) =
        ((issue-Kept (λ os ks cs. P cs) drawn o session).at w).keep
    Step-Settled (check_code o session code w) =
        ((check-Kept (λ os ks cs. P cs) (λ i. operator-Kept P i _) o session code).at w).keep
    Step-Settled (publish decl w) = ((publish-Kept (λ os ks cs. P cs) decl).at w).keep
    Step-Settled (start_run run o a b w) =
        ((start-Kept (λ os ks cs. P cs) (insert-Settled ch suite r) lib run o a b).at w).keep
    Step-Settled (grade_a o run resp w) =
        ((grade_other ch suite r o run resp.challenge_id suite_a (suite_a_grader lib o resp)).at
          w).keep
    Step-Settled (grade_b o run resp w) =
        ((grade_other ch suite r o run resp.challenge_id suite_b (suite_b_grader lib o resp)).at
          w).keep
    Step-Settled (grade_c o run draw w) =
        ((grade_c-Kept (λ os ks cs. P cs) (insert-Settled ch suite r) o run draw).at w).keep
    Step-Settled (finalize o run w) =
        ((finalize-Kept (λ os ks cs. P cs) sha256
            (λ i n. Yields-Kept (Settled ch suite r) _ (bind-Kept P sha256 i n)) o run).at
          w).keep

    Reach-Settled :
        {w v : World}
        → Reach sha256 verify lib w v
        → Settled ch suite r w.db.registered
        → Settled ch suite r v.db.registered
    Reach-Settled here h = h
    Reach-Settled (next s t) h = Step-Settled t (Reach-Settled s h)

  -- Where no two challenges share the id: after a grading has returned, and any operations of the
  -- registry after it, another grading of the challenge that returns is for the same suite and has the
  -- same result, whatever is answered then and in whichever run.
  pub grade_challenge-final :
      (id run again_id again_run : String) (again : Suite) (grader again_grader : Grader)
      (w : World) {v : World} {r x : ChallengeResult}
      → count_where (is_challenge ch) w.db.registered.challenges ≤ 1
      → (grade_challenge id run ch suite grader w).0 ≡ ok r
      → Reach sha256 verify lib (grade_challenge id run ch suite grader w).1 v
      → (grade_challenge again_id again_run ch again again_grader v).0 ≡ ok x
      → (again ≡ suite) × (x ≡ r)
  grade_challenge-final id run again_id again_run again grader again_grader w {v} {r} {x} one h
        reached e =
      (grade-again ch suite r again_id again_run again again_grader).at v
        (Reach-Settled r reached ((grade-Settled ch id run suite grader).at w one h)) e
