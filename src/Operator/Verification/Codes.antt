-- ===== src/Operator/Verification/Codes.antt =====
-- A code verifies an address once, for the session that it was issued to, in its time and before the
-- fifth wrong guess.
use so_ho_link.Base.{
  ℕ, ◌≤◌, ◌<◌, ◌≡◌, ◌∙◌, refl, sym, subst, inl, inr, String, Bool, true, not, ◌&&◌, Option, none,
  some, List, [], ◌∷◌, ◌==◌, text_equality, bytes_equality, ltb, arith, Bool-cases, eq_of_same,
  select,
}
use so_ho_link.Store.{World}
use so_ho_link.Store.Sql.{
  Error, no_code, ok, M, require, guard, ◌>>=◌, first_where, update_where, count_where,
}
use so_ho_link.Store.Effects.{Moves, moves, Moves-require, Moves-pure, Moves-fail}
use so_ho_link.Store.Returns.{
  Fact, Yields, Yields-bind, Yields-require, Yields-guard, Yields-given, Yields-imply, Yields-pure,
  err_ok,
}
use so_ho_link.Store.Clocked.{
  SameClock, clock_course, Clocked, Clocked-Yields, Clocked-gets, Clocked-transaction, Clocked-bind,
}
use so_ho_link.Operator.Tables.{OperatorTables, VerificationRow, OperatorRow}
use so_ho_link.Operator.Sql.{statement, select_from, update_operator}
use so_ho_link.Operator.Holds.{
  on, Kept, Moves-statement, Keeps-statement, Yields-Kept, Yields-select_from, Yields-statement,
  Yields-update_operator,
}
use so_ho_link.Operator.Verification.{
  is_code_of, select_code, delete_code, settle_code, judge_code, report, check_email_code,
}

still_select : (id : String) → Moves SameClock (select_code id)
unfolding select_code select_from
still_select id = Moves-statement clock_course _ (λ w. record { now = refl })

still_delete : (id : String) → Moves SameClock (delete_code id)
unfolding delete_code
still_delete id = Moves-statement clock_course _ (λ w. record { now = refl })

still_update :
    (id : String) (change : OperatorRow → OperatorRow) → Moves SameClock (update_operator id change)
unfolding update_operator
still_update id change = Moves-statement clock_course _ (λ w. record { now = refl })

still_attempts :
    (id : String) (change : VerificationRow → VerificationRow)
    → Moves SameClock (
        statement (λ t. (
          ok tt,
          record t { verifications = update_where (is_code_of id) change t.verifications },
        )))
still_attempts id change = Moves-statement clock_course _ (λ w. record { now = refl })

still_settle :
    (id : String) (code : List ℕ) (v : VerificationRow) → Moves SameClock (settle_code id code v)
unfolding settle_code
still_settle id code v =
    search (clock_course, moves, still_delete, still_update, still_attempts) depth 12

still_judge :
    (id session : String) (code : List ℕ) (v : VerificationRow) (now : ℕ)
    → Moves SameClock (judge_code id session code v now)
unfolding judge_code
still_judge id session code v now =
    search (clock_course, moves, still_delete, still_settle) depth 12

deleted :
    (id : String) (vs : List VerificationRow)
    → count_where (is_code_of id) (select (λ v. not (is_code_of id v)) vs) ≡ 0
deleted id [] = refl
deleted id (v ∷ vs) = ground (arith, deleted id vs)

-- The row lets a session's code pass at the time `t`.
pub record Passes (session : String) (given : List ℕ) (t : ℕ) (v : VerificationRow) : Type 0 where
  pub code : v.code ≡ given
  pub owner : v.session_id ≡ session
  pub live : t ≤ v.expires_at
  pub attempts : v.attempts < 5

abbrev pub is_unverified : String → OperatorRow → Bool
is_unverified id o = o.id == id && not o.email_verified

verified_rows :
    (id : String) (os : List OperatorRow)
    → count_where
        (is_unverified id)
        (update_where (λ o. o.id == id) (λ o. record o { email_verified = true }) os)
      ≡ 0
verified_rows id [] = refl
verified_rows id (o ∷ os) = ground (arith, verified_rows id os)

module _ (id session : String) (code : List ℕ) (t : ℕ) (start : Option VerificationRow) where
  -- The code was good at the start; now it is spent, and the address is verified.
  abbrev Verified : OperatorTables → Type 0
  Verified u =
      ((v : VerificationRow) × (start ≡ some v) × Passes session code t v)
      × (count_where (is_code_of id) u.verifications ≡ 0)
      × (count_where (is_unverified id) u.operators ≡ 0)

  abbrev Settled : Option Error → OperatorTables → Type 0
  Settled (some e) u = Unit
  Settled none u = Verified u

  guard_known :
      (P : OperatorTables → Type 0) (b : Bool) (e : Error) {A : Type 0} (rest : Unit {0} → M A)
      (S : A → Fact)
      → (b ≡ true → Yields (on P) (rest tt) S)
      → Yields (on P) (guard b e >>= rest) S
  guard_known P b e rest S k =
      Yields-bind _ _ _ _ _ (Yields-guard (on P) b e) (λ u. Yields-given _ _ _ _ k)

  delete-Verified :
      (v : VerificationRow)
      → start ≡ some v
      → Passes session code t v
      → Yields
          (on (λ u. count_where (is_unverified id) u.operators ≡ 0))
          (delete_code id)
          (λ o. on Verified)
  unfolding delete_code
  delete-Verified v e passes =
      Yields-statement _ _ (λ o. Verified)
        (λ u a p h. ((v, e, passes), deleted id u.verifications, p))

  delete-Kept : (i : String) → Moves (Kept (λ t. Unit)) (delete_code i)
  unfolding delete_code
  delete-Kept i = Keeps-statement (λ t. Unit) _ (λ u h. tt)

  settle-Settled :
      (v : VerificationRow)
      → start ≡ some v
      → v.session_id ≡ session
      → t ≤ v.expires_at
      → v.attempts < 5
      → Yields (on (λ u. Unit)) (settle_code id code v) (λ o. on (Settled o))
  unfolding settle_code
  settle-Settled v e owner live few = elim (Bool-cases (v.code == code)) [
    | inr other ↦ rw other (
        Yields-bind _ _ _ (λ u. on (λ t. Unit)) _
          (Yields-Kept (λ t. Unit) _ (Keeps-statement (λ t. Unit) _ (λ u h. tt)))
          λ u. Yields-pure _ (λ o. on (Settled o)) _ (λ d r p. tt))
    | inl same ↦ rw same (
        Yields-bind _ _ _ (λ n. on (λ u. count_where (is_unverified id) u.operators ≡ 0)) _
          (Yields-update_operator (λ u. Unit) id _ _ (λ u h. verified_rows id u.operators))
          λ n.
            Yields-bind _ _ _ (λ o. on Verified) _
              (delete-Verified v e
                (record { code = eq_of_same same; owner = owner; live = live; attempts = few }))
              λ u. Yields-pure _ (λ o. on (Settled o)) none (λ d r p. p))
  ]

  judge-Settled :
      (v : VerificationRow)
      → start ≡ some v
      → Yields (on (λ u. Unit)) (judge_code id session code v t) (λ o. on (Settled o))
  unfolding judge_code
  judge-Settled v e = elim (Bool-cases (ltb v.expires_at t)) [
    | inl late ↦ rw late (
        Yields-bind _ _ _ (λ u. on (λ t. Unit)) _ (Yields-Kept (λ t. Unit) _ (delete-Kept id))
          λ u. Yields-pure _ (λ o. on (Settled o)) _ (λ d r p. tt))
    | inr live ↦ rw live (
        guard_known (λ u. Unit) _ _ _ _
          λ owner.
            guard_known (λ u. Unit) _ _ _ _
              λ few. settle-Settled v e (eq_of_same owner) (ground arith) (ground arith))
  ]

  report-Verified : (o : Option Error) → Yields (on (Settled o)) (report o) (λ u. on Verified)
  unfolding report
  report-Verified none = Yields-pure _ (λ u. on Verified) tt (λ d r p. p)
  report-Verified (some e) = record { at = λ w p h. absurd (err_ok h) }

abbrev pub code_at : String → OperatorTables → Option VerificationRow
code_at id u = first_where (is_code_of id) u.verifications

read :
    (id : String) (start : Option VerificationRow) (t : ℕ)
    → Clocked t (on (λ u. code_at id u ≡ start)) (select_code id) (λ found. on (λ u. found ≡ start))
unfolding select_code
read id start t = Clocked-Yields t _ _ _ (still_select id) (
    Yields-imply _ _ _ _ (Yields-select_from (λ u. code_at id u ≡ start) _)
      (λ found d r p. p.1 ∙ p.0))

take :
    (found start : Option VerificationRow) (t : ℕ)
    → Clocked t (on (λ u. found ≡ start)) (require found no_code) (λ v. on (λ u. start ≡ some v))
take found start t =
    Clocked-Yields t _ _ _ (Moves-require clock_course found no_code)
      (Yields-imply _ _ _ _ (Yields-require _ found no_code) (λ v d r p. sym p.0 ∙ p.1))

still_report : (o : Option Error) → Moves SameClock (report o)
unfolding report
still_report none = Moves-pure clock_course tt
still_report (some e) = Moves-fail clock_course e

judge_at :
    (id session : String) (code : List ℕ) (t : ℕ) (start : Option VerificationRow)
    (v : VerificationRow) (now : ℕ)
    → Clocked t
        (on (λ u. (start ≡ some v) × (now ≡ t)))
        (judge_code id session code v now)
        (λ o. on (Settled id session code t start o))
judge_at id session code t start v now =
    Clocked-Yields t _ _ _ (still_judge id session code v now) (record {
      at = λ w p h.
          (subst
              (λ n.
                Yields (on (λ u. Unit)) (judge_code id session code v n)
                  (λ o. on (Settled id session code t start o)))
              (sym p.1) (judge-Settled id session code t start v p.0)).at
            w tt h;
    })

check-Verified :
    (id session : String) (code : List ℕ) (t : ℕ) (start : Option VerificationRow)
    → Clocked t
        (on (λ u. code_at id u ≡ start))
        (check_email_code id session code)
        (λ u. on (Verified id session code t start))
unfolding check_email_code
check-Verified id session code t start =
    Clocked-bind t _ _ _ (λ o. on (Settled id session code t start o)) _
      (Clocked-transaction t _ _ _ (
        Clocked-bind t _ _ _ (λ found. on (λ u. found ≡ start)) _ (read id start t)
          λ found.
            Clocked-bind t _ _ _ (λ v. on (λ u. start ≡ some v)) _ (take found start t)
              λ v.
                Clocked-bind t _ _ _ (λ now. on (λ u. (start ≡ some v) × (now ≡ t))) _
                  (Clocked-gets t _ _ _ (λ w n p. (p, n)))
                  λ now. judge_at id session code t start v now))
      λ o. Clocked-Yields t _ _ _ (still_report o) (report-Verified id session code t start o)

-- Where CheckEmailCode returns, the operator had a code: the one that was given, of this session, not
-- expired, and with fewer than five wrong guesses. The code is spent then, and
-- the operator's address is verified.
pub check_email_code-Passes :
    (id session : String) (code : List ℕ) (w : World) {u : Unit {0}}
    → (check_email_code id session code w).0 ≡ ok u
    → let after = (check_email_code id session code w).1.db.registered in
      ((v : VerificationRow) × (code_at id w.db.registered ≡ some v) × Passes session code w.now v)
      × (count_where (is_code_of id) after.verifications ≡ 0)
      × (count_where (is_unverified id) after.operators ≡ 0)
check_email_code-Passes id session code w h =
    ((check-Verified id session code w.now (code_at id w.db.registered)).at w refl refl h).0
