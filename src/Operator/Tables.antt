-- ===== src/Operator/Tables.antt =====
-- The tables of the operator registry (migrations 021 to 024 in internal/store/migrations).
-- Nullable columns are options, times are nanoseconds, and addresses are byte strings.
use so_ho_link.Base.{ℕ, String, ℤ, Bool, Option, List, [], equality_of_discrete, Equality}

pub data OperatorStatus : Type 0 where
  active revoked : OperatorStatus

pub data OnboardingState : Type 0 where
  pending_verification verified active : OnboardingState

pub data KeyState : Type 0 where
  active expired retired revoked : KeyState

pub data NonceScope : Type 0 where
  production conformance : NonceScope

pub data Suite : Type 0 where
  suite_a suite_b suite_c : Suite

pub data RunStatus : Type 0 where
  running passed failed : RunStatus

unfoldable pub status_discrete : Discrete OperatorStatus
status_discrete = hlevel

unfoldable pub onboarding_discrete : Discrete OnboardingState
onboarding_discrete = hlevel

unfoldable pub key_state_discrete : Discrete KeyState
key_state_discrete = hlevel

unfoldable pub suite_discrete : Discrete Suite
suite_discrete = hlevel

instance abbrev pub suite_equality : Equality Suite
suite_equality = equality_of_discrete suite_discrete

instance abbrev pub status_equality : Equality OperatorStatus
status_equality = equality_of_discrete status_discrete

instance abbrev pub onboarding_equality : Equality OnboardingState
onboarding_equality = equality_of_discrete onboarding_discrete

instance abbrev pub key_state_equality : Equality KeyState
key_state_equality = equality_of_discrete key_state_discrete

pub record OperatorRow : Type 0 where
  pub id : String
  pub name : String
  pub email : List ℕ
  pub phone : Option (List ℕ)
  pub status : OperatorStatus
  pub onboarding_state : OnboardingState
  pub email_verified : Bool
  pub conformance_passed_at : Option ℕ
  pub conformance_keyset_hash : Option (List ℕ)

pub record OperatorKeyRow : Type 0 where
  pub operator_id : String
  pub key_index : ℕ
  pub public_key : List ℕ
  pub algo : String
  pub state : KeyState
  pub usage_count : ℕ
  pub expiration_threshold : ℕ

-- A row of operator_verifications; `email` is its one channel.
pub record VerificationRow : Type 0 where
  pub operator_id : String
  pub code : List ℕ
  pub attempts : ℕ
  pub session_id : String
  pub expires_at : ℕ
  pub created_at : ℕ

-- A row of operator_replay: seq_high is the BIGINT that the unsigned number was cast to.
pub record ReplayRow : Type 0 where
  pub operator_id : String
  pub coordinator_id : String
  pub seq_high : ℤ
  pub seq_window : List ℕ

pub record NonceRow : Type 0 where
  pub nonce : List ℕ
  pub operator_id : String
  pub scope : NonceScope
  pub expires_at : ℕ

-- A row of fee_declarations.
pub record FeeRow : Type 0 where
  pub coordinator_id : String
  pub contributor_share_bps : ℕ
  pub platform_fee_bps : ℕ
  pub effective_at : ℕ
  pub seq : ℕ
  pub signature : List ℕ

-- The text that goes with a verdict, as what it is about.
pub data Detail : Type 0 where
  no_detail cannot_read signature_refused transmission_refused : Detail
  mismatch_at : ℕ → Detail
  wrong_swap : ℕ → ℕ → Detail
  wrong_expiry off_floor : ℕ → Detail

pub record ChallengeResult : Type 0 where
  pub challenge_id : String
  pub suite : Suite
  pub passed : Bool
  pub detail : Detail

-- The column `expected`: the oracle of a suite.
pub data Oracle : Type 0 where
  canonical : List ℕ → Oracle
  fields : (ts_unix_nano seq : ℕ) (algo : String) → Oracle
  swap_required_at : List ℕ → Oracle

pub record RunRow : Type 0 where
  pub run_id : String
  pub operator_id : String
  pub status : RunStatus
  pub keyset_hash : Option (List ℕ)
  pub finished_at : Option ℕ

pub record ChallengeRow : Type 0 where
  pub challenge_id : String
  pub run_id : String
  pub suite : Suite
  pub idx : ℕ
  pub nonce : List ℕ
  pub expected : Oracle
  pub result : Option ChallengeResult
  pub consumed_at : Option ℕ

pub record OperatorTables : Type 0 where
  pub operators : List OperatorRow
  pub keys : List OperatorKeyRow
  pub verifications : List VerificationRow
  pub replays : List ReplayRow
  pub nonces : List NonceRow
  pub fees : List FeeRow
  pub runs : List RunRow
  pub challenges : List ChallengeRow

abbrev pub no_operators : OperatorTables
no_operators = record {
  operators = [];
  keys = [];
  verifications = [];
  replays = [];
  nonces = [];
  fees = [];
  runs = [];
  challenges = [];
}
