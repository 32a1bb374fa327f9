-- ===== src/Operator/Conformance.antt =====
-- Conformance runs of internal/operator/conformance.go: a run and its challenges are made for seven
-- keys, with an oracle that stays here.
pub mod Scratch
pub mod Grading
pub mod Finalize
pub mod Tallied
pub mod Final
pub mod Once
pub mod Others
use so_ho_link.Base.{
  ℕ, ◌+◌, ◌*◌, ◌/◌, ◌%◌, ◌^◌, bit_or, String, ℤ, pos, Bool, true, false, not, ◌&&◌, Option, none,
  some, List, [], ◌∷◌, ◌==◌, text_equality, bytes_equality, number_equality, length, nat_same,
}
use so_ho_link.Store.Sql.{
  database, keyset_count_mismatch, replayed, run_not_found, Result, ok, err, M, pure, gets, ◌>>=◌,
  ◌>>◌, guard, require, transaction, first_where, count_where,
}
use so_ho_link.Operator.{key_index_count}
use so_ho_link.Operator.Tables.{
  OperatorTables, OperatorKeyRow, RunRow, RunStatus, ChallengeRow, Suite, suite_a, suite_b,
  suite_equality, Oracle, canonical, fields, NonceScope,
}
use so_ho_link.Operator.Sql.{statement, on_violation, select_from}
use so_ho_link.Operator.Accounts.{KeyMap}
use so_ho_link.Operator.Activation.{active_keys}
use so_ho_link.Operator.Replay.{put_nonce}

-- OperatorTransmission of the protocol library.
pub record Transmission : Type 0 where
  pub operator_id : String
  pub ts_unix_nano : ℕ
  pub nonce : List ℕ
  pub seq : ℕ
  pub algo : String
  pub idx0 : ℤ
  pub idx1 : ℤ
  pub sig0 : List ℕ
  pub sig1 : List ℕ

pub record ConformanceResponse : Type 0 where
  pub operator_id : String
  pub challenge : List ℕ
  pub algo : String
  pub idx0 : ℤ
  pub idx1 : ℤ
  pub sig0 : List ℕ
  pub sig1 : List ℕ

-- What is not this program's: the canonical bytes and the signature checks of the protocol library,
-- and the lesser of two texts for the database.
pub record Library : Type 0 where
  pub canonical_bytes : Transmission → List ℕ
  pub verify_transmission : Transmission → KeyMap → Bool
  pub verify_response : ConformanceResponse → KeyMap → Bool
  pub min_text : String → String → String

-- What crypto/rand gives for a challenge, if it does not fail, and the UUID of its row.
pub record Draw : Type 0 where
  pub nonce_bytes : Option (List ℕ)
  pub seq_bytes : Option (List ℕ)
  pub challenge_id : String

pub record ChallengeA : Type 0 where
  pub challenge_id : String
  pub operator_id : String
  pub ts_unix_nano : ℕ
  pub nonce : List ℕ
  pub seq : ℕ
  pub algo : String
  pub idx0 : ℤ
  pub idx1 : ℤ

pub record ChallengeB : Type 0 where
  pub challenge_id : String
  pub operator_id : String
  pub ts_unix_nano : ℕ
  pub nonce : List ℕ
  pub seq : ℕ
  pub algo : String

abbrev pub nonce_retention : ℕ
nonce_retention = 3600 * 10 ^ 9

unfoldable pub fresh_nonce : Option (List ℕ) → M (List ℕ)
fresh_nonce drawn = require drawn database

-- The loop over the drawn bytes.
abbrev pub shift_in : ℕ → List ℕ → ℕ
shift_in v [] = v
shift_in v (x ∷ xs) = shift_in (bit_or (v * 2 ^ 8 % 2 ^ 64) x) xs

unfoldable pub fresh_seq : Option (List ℕ) → M ℕ
fresh_seq drawn = do bytes ← require drawn database; pure (shift_in 0 bytes / 2 + 1)

abbrev pub is_run : String → RunRow → Bool
is_run run r = r.run_id == run

abbrev pub put_run : Bool → RunRow → OperatorTables → Result (Unit {0}) × OperatorTables
put_run true row t = (ok tt, record t { runs = row ∷ t.runs })
put_run false row t = (err database, t)

-- INSERT INTO conformance_runs: the id is the primary key, and the operator is referred to.
unfoldable pub insert_run : RunRow → M (Unit {0})
unfolding statement
insert_run row = statement λ t.
    put_run
      (nat_same (count_where (is_run row.run_id) t.runs) 0
        && not (nat_same (count_where (λ o. o.id == row.operator_id) t.operators) 0))
      row t

-- The nonce is reserved for the operator of the run.
abbrev pub reserve :
    List ℕ → ℕ → Option RunRow → OperatorTables → Result (Unit {0}) × OperatorTables
reserve nonce expiry none t = (err database, t)
reserve nonce expiry (some run) t =
    put_nonce (nat_same (count_where (λ n. n.nonce == nonce) t.nonces) 0)
      (record {
        nonce = nonce;
        operator_id = run.operator_id;
        scope = NonceScope.conformance;
        expires_at = expiry;
      })
      t

unfoldable pub reserve_nonce : String → List ℕ → ℕ → M (Unit {0})
unfolding statement
reserve_nonce run nonce expiry =
    statement (λ t. reserve nonce expiry (first_where (is_run run) t.runs) t)

abbrev pub is_challenge : String → ChallengeRow → Bool
is_challenge id c = c.challenge_id == id

abbrev pub same_place : ChallengeRow → ChallengeRow → Bool
same_place row c = c.run_id == row.run_id && c.suite == row.suite && nat_same c.idx row.idx

abbrev pub put_challenge : Bool → ChallengeRow → OperatorTables → Result (Unit {0}) × OperatorTables
put_challenge true row t = (ok tt, record t { challenges = row ∷ t.challenges })
put_challenge false row t = (err database, t)

-- INSERT INTO conformance_challenges: the id is the primary key, a run has one challenge for a suite
-- and an index, and the run is referred to.
unfoldable pub insert_challenge : ChallengeRow → M (Unit {0})
unfolding statement
insert_challenge row = statement λ t.
    put_challenge
      (nat_same (count_where (is_challenge row.challenge_id) t.challenges) 0
        && nat_same (count_where (same_place row) t.challenges) 0
        && not (nat_same (count_where (is_run row.run_id) t.runs) 0))
      row t

unfoldable pub persist_challenge : String → Suite → ℕ → List ℕ → Oracle → String → M (Unit {0})
persist_challenge run suite idx nonce expected challenge_id = do
  now ← gets (λ w. w.now)
  on_violation replayed (reserve_nonce run nonce (now + nonce_retention))
  insert_challenge (record {
    challenge_id = challenge_id;
    run_id = run;
    suite = suite;
    idx = idx;
    nonce = nonce;
    expected = expected;
    result = none;
    consumed_at = none;
  })

-- COALESCE(MIN(algo), '')
abbrev pub min_algo : (String → String → String) → List OperatorKeyRow → String
min_algo least [] = ""
min_algo least (k ∷ []) = k.algo
min_algo least (k ∷ l ∷ ks) = least k.algo (min_algo least (l ∷ ks))

module _ (lib : Library) where
  unfoldable pub issue_challenge_a : String → String → ℕ → String → Draw → M ChallengeA
  issue_challenge_a run id idx algo draw = do
    nonce ← fresh_nonce draw.nonce_bytes
    seq ← fresh_seq draw.seq_bytes
    now ← gets (λ w. w.now)
    persist_challenge run suite_a idx nonce
        (canonical (
          lib.canonical_bytes (record {
            operator_id = id;
            ts_unix_nano = now;
            nonce = nonce;
            seq = seq;
            algo = algo;
            idx0 = pos 0;
            idx1 = pos 1;
            sig0 = [];
            sig1 = [];
          })))
        draw.challenge_id
    pure (record {
      challenge_id = draw.challenge_id;
      operator_id = id;
      ts_unix_nano = now;
      nonce = nonce;
      seq = seq;
      algo = algo;
      idx0 = pos 0;
      idx1 = pos 1;
    })

  unfoldable pub issue_challenge_b : String → String → ℕ → String → Draw → M ChallengeB
  issue_challenge_b run id idx algo draw = do
    nonce ← fresh_nonce draw.nonce_bytes
    seq ← fresh_seq draw.seq_bytes
    now ← gets (λ w. w.now)
    persist_challenge run suite_b idx nonce (fields now seq algo) draw.challenge_id
    pure (record {
      challenge_id = draw.challenge_id;
      operator_id = id;
      ts_unix_nano = now;
      nonce = nonce;
      seq = seq;
      algo = algo;
    })

  -- `run` is the UUID of the new run.
  unfoldable pub start_conformance_run : String → String → Draw → Draw → M (ChallengeA × ChallengeB)
  start_conformance_run run id draw_a draw_b = transaction do
    rows ← select_from (active_keys id)
    guard (length rows == key_index_count) keyset_count_mismatch
    insert_run (record {
      run_id = run;
      operator_id = id;
      status = RunStatus.running;
      keyset_hash = none;
      finished_at = none;
    })
    a ← issue_challenge_a run id 0 (min_algo lib.min_text rows) draw_a
    b ← issue_challenge_b run id 0 (min_algo lib.min_text rows) draw_b
    pure (a, b)

-- The run belongs to the operator.
unfoldable pub require_run : String → String → M (Unit {0})
require_run run id = do
  found ← select_from (λ t. first_where (is_run run) t.runs)
  r ← require found run_not_found
  guard (r.operator_id == id) run_not_found
