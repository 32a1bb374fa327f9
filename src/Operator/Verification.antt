-- ===== src/Operator/Verification.antt =====
-- E-mail codes of internal/operator/verification.go: a code is bound to the applicant's session.
pub mod Codes
use so_ho_link.Base.{
  ℕ, zero, suc, ◌+◌, ◌-◌, ◌*◌, ◌/◌, ◌%◌, ◌^◌, String, Bool, true, false, not, ◌&&◌, Option, none,
  some, List, [], ◌∷◌, ◌==◌, text_equality, bytes_equality, if◌then◌else◌, ltb, leb,
}
use so_ho_link.Store.Sql.{
  Error, database, operator_not_found, empty_session, session_active, rate_limited, no_code,
  code_expired, session_mismatch, too_many_attempts, code_mismatch, Result, ok, err, M, pure, fail,
  gets, ◌>>=◌, ◌>>◌, guard, require, transaction, first_where, update_where,
}
use so_ho_link.Base.{select}
use so_ho_link.Operator.Tables.{OperatorTables, OperatorRow, VerificationRow}
use so_ho_link.Operator.Sql.{statement, select_from, select_operator, update_operator}

abbrev pub code_ttl : ℕ
code_ttl = 600 * 10 ^ 9

abbrev pub max_attempts : ℕ
max_attempts = 5

abbrev pub resend_cooldown : ℕ
resend_cooldown = 30 * 10 ^ 9

abbrev pub code_digits : ℕ
code_digits = 6

-- The `k` low decimal digits of a number, in ASCII, zero-padded.
unfoldable pub decimal : ℕ → ℕ → List ℕ
decimal zero n = []
decimal (suc k) n = (48 + n / 10 ^ k % 10) ∷ decimal k n

-- `drawn` is what crypto/rand gives below 10^6, if it does not fail.
unfoldable pub generate_code : Option ℕ → M (List ℕ)
unfolding decimal
generate_code drawn = do n ← require drawn database; pure (decimal code_digits n)

abbrev pub is_code_of : String → VerificationRow → Bool
is_code_of id v = v.operator_id == id

unfoldable pub select_code : String → M (Option VerificationRow)
select_code id = select_from (λ t. first_where (is_code_of id) t.verifications)

unfoldable pub delete_code : String → M (Unit {0})
unfolding statement
delete_code id =
    statement
      λ t. (ok tt, record t { verifications = select (λ v. not (is_code_of id v)) t.verifications })

-- INSERT … ON CONFLICT DO UPDATE: the pair of operator and channel has one row.
unfoldable pub upsert_code : VerificationRow → M (Unit {0})
unfolding statement
upsert_code row = statement λ t. (
  ok tt,
  record t {
    verifications = row ∷ select (λ v. not (is_code_of row.operator_id v)) t.verifications;
  },
)

-- May a session have a new code, given the code that is there?
unfoldable pub judge_prior : ℕ → String → Option VerificationRow → M (Unit {0})
judge_prior now session none = pure tt
judge_prior now session (some v) = do
  guard (not (ltb now v.expires_at && not (v.session_id == session))) session_active
  guard
      (not (
        ltb now v.expires_at
        && v.session_id == session
        && ltb (now - v.created_at) resend_cooldown))
      rate_limited

unfoldable pub issue_email_code : Option ℕ → String → String → M (List ℕ × List ℕ)
issue_email_code drawn id session = do
  guard (not (session == "")) empty_session
  transaction do
    found ← select_operator id
    o ← require found operator_not_found
    prior ← select_code id
    now ← gets (λ w. w.now)
    judge_prior now session prior
    code ← generate_code drawn
    upsert_code (record {
      operator_id = id;
      code = code;
      attempts = 0;
      session_id = session;
      expires_at = now + code_ttl;
      created_at = now;
    })
    pure (code, o.email)

-- What the transaction committed: the code is consumed, or an error is reported after the commit.
unfoldable pub settle_code : String → List ℕ → VerificationRow → M (Option Error)
settle_code id code v =
    if not (v.code == code)
    then (do
      statement (λ t. (
        ok tt,
        record t {
          verifications =
              update_where (is_code_of id) (λ r. record r { attempts = r.attempts + 1 })
                t.verifications;
        },
      ))
      pure (some code_mismatch))
    else (do
      _ ← update_operator id (λ o. record o { email_verified = true })
      delete_code id
      pure none)

unfoldable pub judge_code : String → String → List ℕ → VerificationRow → ℕ → M (Option Error)
judge_code id session code v now =
    if ltb v.expires_at now then (do delete_code id; pure (some code_expired)) else (do
      guard (v.session_id == session) session_mismatch
      guard (not (leb max_attempts v.attempts)) too_many_attempts
      settle_code id code v)

unfoldable pub report : Option Error → M (Unit {0})
unfolding pure fail
report none = pure tt
report (some e) = fail e

unfoldable pub check_email_code : String → String → List ℕ → M (Unit {0})
check_email_code id session code = do
  outcome ← transaction (do
    found ← select_code id
    v ← require found no_code
    now ← gets (λ w. w.now)
    judge_code id session code v now)
  report outcome
