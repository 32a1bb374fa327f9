-- ===== src/Operator/Conformance/Grading.antt =====
-- Grading of internal/operator/conformance.go: a challenge gets its verdict once.
use so_ho_link.Base.{
  ℕ, suc, ◌+◌, String, ℤ, Bool, true, false, not, ◌&&◌, Option, none, some, List, [], ◌∷◌, ◌==◌,
  text_equality, bytes_equality, if◌then◌else◌, nat_same,
}
use so_ho_link.Store.Sql.{
  replayed, run_not_found, wrong_suite, ok, M, pure, gets, ◌>>=◌, ◌>>◌, guard, require, transaction,
  first_where, update_where,
}
use so_ho_link.Operator.Tables.{
  ChallengeRow, ChallengeResult, Suite, suite_a, suite_b, suite_c, suite_equality, Oracle,
  canonical, fields, swap_required_at, Detail, no_detail, cannot_read, signature_refused,
  transmission_refused, mismatch_at, NonceScope,
}
use so_ho_link.Operator.Sql.{statement, on_violation, select_from}
use so_ho_link.Operator.Accounts.{KeyMap}
use so_ho_link.Operator.Rotation.{active_key_map_tx}
use so_ho_link.Operator.Replay.{insert_nonce}
use so_ho_link.Operator.Conformance.{
  Library, Transmission, ConformanceResponse, Draw, nonce_retention, fresh_nonce, is_challenge,
  insert_challenge, require_run,
}
use so_ho_link.Operator.Conformance.Scratch.{suite_c_thresholds, run_suite_c_scratch}

pub record ResponseA : Type 0 where
  pub challenge_id : String
  pub canonical_bytes : List ℕ
  pub idx0 : ℤ
  pub idx1 : ℤ
  pub sig0 : List ℕ
  pub sig1 : List ℕ

pub record ResponseB : Type 0 where
  pub challenge_id : String
  pub idx0 : ℤ
  pub idx1 : ℤ
  pub sig0 : List ℕ
  pub sig1 : List ℕ

-- The grader of a suite, from the oracle, the nonce of the challenge, and the active keys.
abbrev pub Grader : Type 0
Grader = Oracle → List ℕ → KeyMap → Bool × Detail

abbrev pub algo_of : KeyMap → String
algo_of [] = ""
algo_of (k ∷ km) = k.1.algo

abbrev pub first_diff : List ℕ → List ℕ → ℕ
first_diff [] ys = 0
first_diff (x ∷ xs) [] = 0
first_diff (x ∷ xs) (y ∷ ys) = let rest = first_diff xs ys in if nat_same x y then suc rest else 0

module _ (lib : Library) (id : String) where
  abbrev pub response_a : ResponseA → KeyMap → ConformanceResponse
  response_a resp km = record {
    operator_id = id;
    challenge = resp.canonical_bytes;
    algo = algo_of km;
    idx0 = resp.idx0;
    idx1 = resp.idx1;
    sig0 = resp.sig0;
    sig1 = resp.sig1;
  }

  unfoldable pub suite_a_grader : ResponseA → Grader
  suite_a_grader resp (canonical oracle) nonce km =
      if not (oracle == resp.canonical_bytes)
      then (false, mismatch_at (first_diff oracle resp.canonical_bytes))
      else if lib.verify_response (response_a resp km) km
      then (true, no_detail)
      else (false, signature_refused)
  suite_a_grader resp (fields ts seq algo) nonce km = (false, cannot_read)
  suite_a_grader resp (swap_required_at ths) nonce km = (false, cannot_read)

  abbrev pub transmission_b : ResponseB → ℕ → ℕ → String → List ℕ → Transmission
  transmission_b resp ts seq algo nonce = record {
    operator_id = id;
    ts_unix_nano = ts;
    nonce = nonce;
    seq = seq;
    algo = algo;
    idx0 = resp.idx0;
    idx1 = resp.idx1;
    sig0 = resp.sig0;
    sig1 = resp.sig1;
  }

  unfoldable pub suite_b_grader : ResponseB → Grader
  suite_b_grader resp (fields ts seq algo) nonce km =
      if lib.verify_transmission (transmission_b resp ts seq algo nonce) km
      then (true, no_detail)
      else (false, transmission_refused)
  suite_b_grader resp (canonical oracle) nonce km = (false, cannot_read)
  suite_b_grader resp (swap_required_at ths) nonce km = (false, cannot_read)

-- What a challenge that is consumed already answers.
abbrev pub prior_result : Option ChallengeResult → String → Suite → ChallengeResult
prior_result none challenge suite = record {
  challenge_id = challenge;
  suite = suite;
  passed = false;
  detail = no_detail;
}
prior_result (some r) challenge suite = record r { challenge_id = challenge; suite = suite }

abbrev pub result_of : String → Suite → Bool × Detail → ChallengeResult
result_of challenge suite judged = record {
  challenge_id = challenge;
  suite = suite;
  passed = judged.0;
  detail = judged.1;
}

abbrev pub consumed : ChallengeResult → ℕ → ChallengeRow → ChallengeRow
consumed r now c = record c { result = some r; consumed_at = some now }

-- UPDATE conformance_challenges SET result = …, consumed_at = NOW()
unfoldable pub consume_challenge : String → ChallengeResult → M (Unit {0})
consume_challenge challenge r = do
  now ← gets (λ w. w.now)
  statement (λ t. (
    ok tt,
    record t { challenges = update_where (is_challenge challenge) (consumed r now) t.challenges },
  ))

unfoldable pub store_verdict : ChallengeResult → M ChallengeResult
store_verdict r = do consume_challenge r.challenge_id r; pure r

-- The challenge was consumed before, or gets its verdict now.
unfoldable pub settle_challenge :
    Grader → String → Suite → ChallengeRow → Option ℕ → M ChallengeResult
settle_challenge grader id suite c (some at) = pure (prior_result c.result c.challenge_id suite)
settle_challenge grader id suite c none = do
  km ← active_key_map_tx id
  store_verdict (result_of c.challenge_id suite (grader c.expected c.nonce km))

abbrev pub is_challenge_of : String → String → ChallengeRow → Bool
is_challenge_of challenge run c = c.challenge_id == challenge && c.run_id == run

unfoldable pub grade_challenge : String → String → String → Suite → Grader → M ChallengeResult
grade_challenge id run challenge suite grader = transaction do
  require_run run id
  found ← select_from (λ t. first_where (is_challenge_of challenge run) t.challenges)
  c ← require found run_not_found
  guard (c.suite == suite) wrong_suite
  settle_challenge grader id suite c c.consumed_at

unfoldable pub grade_suite_a : Library → String → String → ResponseA → M ChallengeResult
grade_suite_a lib id run resp =
    grade_challenge id run resp.challenge_id suite_a (suite_a_grader lib id resp)

unfoldable pub grade_suite_b : Library → String → String → ResponseB → M ChallengeResult
grade_suite_b lib id run resp =
    grade_challenge id run resp.challenge_id suite_b (suite_b_grader lib id resp)

abbrev pub is_suite_c_of : String → ChallengeRow → Bool
is_suite_c_of run c = c.run_id == run && c.suite == suite_c && nat_same c.idx 0

abbrev pub suite_c_row : String → Draw → List ℕ → ℕ → ChallengeRow
suite_c_row run draw nonce now = record {
  challenge_id = draw.challenge_id;
  run_id = run;
  suite = suite_c;
  idx = 0;
  nonce = nonce;
  expected = swap_required_at suite_c_thresholds;
  result = some (result_of "" suite_c run_suite_c_scratch);
  consumed_at = some now;
}

unfoldable pub settle_suite_c : String → String → Draw → Option ChallengeRow → M ChallengeResult
settle_suite_c id run draw (some c) = pure (prior_result c.result c.challenge_id suite_c)
settle_suite_c id run draw none = do
  nonce ← fresh_nonce draw.nonce_bytes
  now ← gets (λ w. w.now)
  on_violation replayed (
      insert_nonce (record {
        nonce = nonce;
        operator_id = id;
        scope = NonceScope.conformance;
        expires_at = now + nonce_retention;
      }))
  insert_challenge (suite_c_row run draw nonce now)
  pure (result_of draw.challenge_id suite_c run_suite_c_scratch)

unfoldable pub grade_suite_c : String → String → Draw → M ChallengeResult
grade_suite_c id run draw = transaction do
  require_run run id
  prior ← select_from (λ t. first_where (is_suite_c_of run) t.challenges)
  settle_suite_c id run draw prior
