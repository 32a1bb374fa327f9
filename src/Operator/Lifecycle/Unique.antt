-- ===== src/Operator/Lifecycle/Unique.antt =====
-- No operation gives an operator a second active key at an index.
use so_ho_link.Base.{ℕ, ◌≤◌, String, Bool, List, text_equality, number_equality}
use so_ho_link.Store.{World}
use so_ho_link.Store.Sql.{count_where}
use so_ho_link.Operator.Tables.{OperatorRow, OperatorKeyRow, key_state_equality}
use so_ho_link.Operator.Accounts.{KeyMap}
use so_ho_link.Operator.Activation.{holds_index}
use so_ho_link.Operator.Rotation.{OperatorRotation}
use so_ho_link.Operator.Rotation.Expiry.{OneActive}
use so_ho_link.Operator.Lifecycle.{
  Step, Reach, here, next, create, verify_email, pass, activate as activated, register, sign,
  rotate, revoke_operator, disconnect_operator, transmit, issue_code, check_code, publish,
  start_run, grade_a, grade_b, grade_c, finalize,
}
use so_ho_link.Operator.Tables.{suite_a, suite_b}
use so_ho_link.Operator.Conformance.{Library}
use so_ho_link.Operator.Conformance.Grading.{
  suite_a_grader, suite_b_grader, grade_suite_a, grade_suite_b,
}
use so_ho_link.Operator.Lifecycle.Conforming.{
  start-Kept, grade-Kept, grade_c-Kept, insert-Kept, consume-Kept,
}
use so_ho_link.Operator.Lifecycle.Untouched.{transmit-Kept, issue-Kept, check-Kept, publish-Kept}
use so_ho_link.Operator.Lifecycle.ActiveKeys.{
  create-Kept, email-Kept, operator-Kept, pass-Kept, activate-Kept, add_keys-Kept, sign-Kept,
  rotate-Kept, revoke-Kept, disconnect-Kept, final-Kept,
}

module _ (sha256 : List ℕ → List ℕ) (verify : OperatorRotation → KeyMap → Bool) (lib : Library)
    (id : String) (index : ℕ) where
  Indexed : List OperatorRow → List OperatorKeyRow → Type 0
  Indexed os ks = count_where (holds_index id index) ks ≤ 1

  Step-OneActive :
      {w v : World}
      → Step sha256 verify lib w v
      → OneActive id index w.db.registered
      → OneActive id index v.db.registered
  unfolding grade_suite_a grade_suite_b Indexed
  Step-OneActive (create o name email phone w) =
      ((create-Kept id index o name email phone).at w).keep
  Step-OneActive (verify_email o w) = ((email-Kept id index o).at w).keep
  Step-OneActive (pass o w) = ((pass-Kept id index sha256 o).at w).keep
  Step-OneActive (activated o w) = ((activate-Kept id index sha256 o).at w).keep
  Step-OneActive (register o ps algo ths w) = ((add_keys-Kept id index o ps algo ths).at w).keep
  Step-OneActive (sign o i j w) = ((sign-Kept id index o i j).at w).keep
  Step-OneActive (rotate rot th w) = ((rotate-Kept id index verify rot th).at w).keep
  Step-OneActive (revoke_operator o w) = ((revoke-Kept id index o).at w).keep
  Step-OneActive (disconnect_operator o w) = ((disconnect-Kept id index o).at w).keep
  Step-OneActive (transmit o c seq nonce scope expiry w) =
      ((transmit-Kept (λ os ks cs. Indexed os ks) o c seq nonce scope expiry).at w).keep
  Step-OneActive (issue_code drawn o session w) =
      ((issue-Kept (λ os ks cs. Indexed os ks) drawn o session).at w).keep
  Step-OneActive (check_code o session code w) =
      ((check-Kept (λ os ks cs. Indexed os ks) (λ r. operator-Kept id index r _) o session code).at
        w).keep
  Step-OneActive (publish decl w) = ((publish-Kept (λ os ks cs. Indexed os ks) decl).at w).keep
  Step-OneActive (start_run run o a b w) =
      ((start-Kept (λ os ks cs. Indexed os ks) (insert-Kept Indexed) lib run o a b).at w).keep
  Step-OneActive (grade_a o run resp w) =
      ((grade-Kept (λ os ks cs. Indexed os ks) (consume-Kept Indexed) o run resp.challenge_id
          suite_a (suite_a_grader lib o resp)).at
        w).keep
  Step-OneActive (grade_b o run resp w) =
      ((grade-Kept (λ os ks cs. Indexed os ks) (consume-Kept Indexed) o run resp.challenge_id
          suite_b (suite_b_grader lib o resp)).at
        w).keep
  Step-OneActive (grade_c o run draw w) =
      ((grade_c-Kept (λ os ks cs. Indexed os ks) (insert-Kept Indexed) o run draw).at w).keep
  Step-OneActive (finalize o run w) = ((final-Kept id index sha256 o run).at w).keep

  -- Where the unique index on active keys holds, it holds after any operations of the registry.
  pub Reach-OneActive :
      {w v : World}
      → Reach sha256 verify lib w v
      → OneActive id index w.db.registered
      → OneActive id index v.db.registered
  Reach-OneActive here h = h
  Reach-OneActive (next r s) h = Step-OneActive s (Reach-OneActive r h)
