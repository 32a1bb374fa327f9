-- ===== src/Operator/RunTests.antt =====
-- Codes, fees and conformance runs on small inputs, and their theorems at inputs that meet their
-- hypotheses.

use so_ho_link.Base.{trim_space, to_lower}
use so_ho_link.Base.{ℕ, ◌≡◌, refl, pos, true, [], ◌∷◌, some, arith, text_equality, String}
use so_ho_link.Store.{World}
use so_ho_link.Store.Sql.{err, count_where, fee_retroactive, ◌>>=◌}
use so_ho_link.Operator.Tables.{
  FeeRow, VerificationRow, status_discrete, onboarding_discrete, key_state_discrete,
}
use so_ho_link.Operator.Accounts.{insert_operator, create_operator, normalize_email}
use so_ho_link.Operator.Activation.{add_key_rows, insert_key_row, active_keyset_hash, add_keys}
use so_ho_link.Operator.Keyset.{sort_keys, insert_key, compare_bytes, hash_sorted_pubkeys}
use so_ho_link.Operator.Replay.{insert_nonce}
use so_ho_link.Operator.Sql.{on_violation, statement, select_from, select_operator, update_operator}
use so_ho_link.Operator.Verification.{
  is_code_of, select_code, delete_code, judge_prior, generate_code, upsert_code, issue_email_code,
  check_email_code, judge_code, settle_code, report,
}
use so_ho_link.Operator.Verification.Codes.{Passes, is_unverified, code_at, check_email_code-Passes}
use so_ho_link.Operator.Fees.{latest_fee, judge_fee, insert_fee, publish_fee_declaration}
use so_ho_link.Operator.Fees.Later.{IsLater, publish_fee_declaration-IsLater}
use so_ho_link.Operator.Conformance.{
  Draw, fresh_nonce, fresh_seq, insert_run, reserve_nonce, insert_challenge, persist_challenge,
  issue_challenge_a, issue_challenge_b, start_conformance_run, require_run,
}
use so_ho_link.Operator.Conformance.Scratch.{run_suite_c_scratch}
use so_ho_link.Operator.Conformance.Grading.{
  ResponseA, ResponseB, suite_a_grader, suite_b_grader, consume_challenge, store_verdict,
  settle_challenge, grade_challenge, grade_suite_a, grade_suite_b, settle_suite_c, grade_suite_c,
}
use so_ho_link.Operator.Conformance.Finalize.{
  tally_rows, update_run, mark_passed, settle_run, report_run, finalize_run,
}
use so_ho_link.Operator.Conformance.Final.{IsFinal, finalize_run-IsFinal}
use so_ho_link.Operator.Rotation.{active_key_map_tx}
use so_ho_link.Operator.Lifecycle.Verdicts.{grade_challenge-final}
use so_ho_link.Operator.Tables.{ChallengeResult, suite_a, suite_discrete, no_detail}
use so_ho_link.Operator.Tests.{world, toy_hash, toy_library, never, signed_up, with_keys}
use so_ho_link.Operator.Lifecycle.{grade_c}
use so_ho_link.Operator.Lifecycle.{here, next}

-- A code for the applicant's session.
abbrev with_code : World
with_code = (issue_email_code (some 123_456) "cloudy" "s1" signed_up).1

check_email_code-Passes_example :
    let after =
      (check_email_code "cloudy" "s1"
        (49 ∷ 50 ∷ 51 ∷ 52 ∷ 53 ∷ 54 ∷ [])
        with_code).1.db.registered in
    ((v : VerificationRow) × (code_at "cloudy" with_code.db.registered ≡ some v)
      × Passes "s1" (49 ∷ 50 ∷ 51 ∷ 52 ∷ 53 ∷ 54 ∷ []) 1_000 v)
    × (count_where (is_code_of "cloudy") after.verifications ≡ 0)
    × (count_where (is_unverified "cloudy") after.operators ≡ 0)
unfolding create_operator insert_operator normalize_email trim_space to_lower on_violation
    update_operator select_operator select_from statement issue_email_code select_code judge_prior
    generate_code upsert_code check_email_code judge_code settle_code delete_code report ◌>>=◌
check_email_code-Passes_example =
    check_email_code-Passes "cloudy" "s1" (49 ∷ 50 ∷ 51 ∷ 52 ∷ 53 ∷ 54 ∷ []) with_code {u = tt} refl

abbrev fee : ℕ → ℕ → FeeRow
fee seq at = record {
  coordinator_id = "main";
  contributor_share_bps = 9_000;
  platform_fee_bps = 1_000;
  effective_at = at;
  seq = seq;
  signature = 1 ∷ [];
}

abbrev with_fee : World
with_fee = (publish_fee_declaration (fee 1 100) world).1

publish_fee_declaration-IsLater_example :
    (latest_fee "main" (publish_fee_declaration (fee 2 200) with_fee).1.db.registered.fees
      ≡ some (fee 2 200))
    × IsLater (fee 2 200) (latest_fee "main" with_fee.db.registered.fees)
unfolding publish_fee_declaration judge_fee insert_fee latest_fee on_violation select_from statement
    ◌>>=◌
publish_fee_declaration-IsLater_example =
    publish_fee_declaration-IsLater (fee 2 200) with_fee {u = tt} refl

-- A retroactive declaration is refused.
publish-retroactive : (publish_fee_declaration (fee 2 50) with_fee).0 ≡ err fee_retroactive
unfolding publish_fee_declaration judge_fee insert_fee latest_fee on_violation select_from statement
    ◌>>=◌
publish-retroactive = refl

abbrev draw : ℕ → String → Draw
draw n id = record { nonce_bytes = some (n ∷ []); seq_bytes = some (n ∷ []); challenge_id = id }

abbrev with_run : World
with_run = (start_conformance_run toy_library "r" "cloudy" (draw 1 "a") (draw 2 "b") with_keys).1

abbrev answer_a : ResponseA
answer_a = record {
  challenge_id = "a";
  canonical_bytes = 1 ∷ [];
  idx0 = pos 0;
  idx1 = pos 1;
  sig0 = [];
  sig1 = [];
}

abbrev answer_b : ResponseB
answer_b = record { challenge_id = "b"; idx0 = pos 0; idx1 = pos 1; sig0 = []; sig1 = [] }

abbrev graded_a : World
graded_a = (grade_suite_a toy_library "cloudy" "r" answer_a with_run).1

abbrev graded : World
graded =
    (grade_suite_c "cloudy" "r" (draw 3 "c")
      (grade_suite_b toy_library "cloudy" "r" answer_b graded_a).1).1

finalize_run-IsFinal_example :
    IsFinal toy_hash "cloudy" "r" (finalize_run toy_hash "cloudy" "r" graded).1.db.registered
unfolding create_operator insert_operator normalize_email trim_space to_lower on_violation
    select_operator select_from statement update_operator add_keys add_key_rows insert_key_row
    status_discrete onboarding_discrete key_state_discrete suite_discrete start_conformance_run
    insert_run issue_challenge_a issue_challenge_b fresh_nonce fresh_seq persist_challenge
    reserve_nonce insert_challenge grade_suite_a grade_suite_b grade_suite_c grade_challenge
    require_run settle_challenge settle_suite_c store_verdict consume_challenge insert_nonce
    active_key_map_tx suite_a_grader suite_b_grader run_suite_c_scratch ◌>>=◌ finalize_run
    tally_rows settle_run mark_passed update_run report_run active_keyset_hash hash_sorted_pubkeys
    sort_keys insert_key compare_bytes
finalize_run-IsFinal_example = finalize_run-IsFinal toy_hash "cloudy" "r" graded {b = true} refl

-- A second answer to the challenge, with other bytes, does not change its verdict.
abbrev wrong_a : ResponseA
wrong_a = record answer_a { canonical_bytes = 2 ∷ [] }

abbrev passed_a : ChallengeResult
passed_a = record { challenge_id = "a"; suite = suite_a; passed = true; detail = no_detail }

grade_challenge-final_example : (suite_a ≡ suite_a) × (passed_a ≡ passed_a)
unfolding create_operator insert_operator normalize_email trim_space to_lower on_violation
    select_operator select_from statement update_operator add_keys add_key_rows insert_key_row
    status_discrete onboarding_discrete key_state_discrete suite_discrete start_conformance_run
    insert_run issue_challenge_a issue_challenge_b fresh_nonce fresh_seq persist_challenge
    reserve_nonce insert_challenge grade_suite_a grade_suite_b grade_suite_c grade_challenge
    require_run settle_challenge settle_suite_c store_verdict consume_challenge insert_nonce
    active_key_map_tx suite_a_grader suite_b_grader run_suite_c_scratch ◌>>=◌
grade_challenge-final_example =
    grade_challenge-final toy_hash never toy_library "a" suite_a "cloudy" "r" "cloudy" "r" suite_a
      (suite_a_grader toy_library "cloudy" answer_a) (suite_a_grader toy_library "cloudy" wrong_a)
      with_run {r = passed_a} {x = passed_a} (omega arith) refl
      (next here (grade_c "cloudy" "r" (draw 3 "c") graded_a)) refl
