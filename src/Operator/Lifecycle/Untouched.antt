-- ===== src/Operator/Lifecycle/Untouched.antt =====
-- Operations that leave operators, keys and challenges alone: replay checks, e-mail codes and fees.
use so_ho_link.Base.{
  ℕ, String, Bool, true, false, Option, none, some, List, text_equality, bytes_equality,
}
use so_ho_link.Store.Sql.{Error, ok, update_where}
use so_ho_link.Store.Effects.{
  Moves, moves, Moves-transaction, Moves-bind, Moves-guard, Moves-pure, Moves-fail,
}
use so_ho_link.Operator.Tables.{
  OperatorTables, OperatorRow, OperatorKeyRow, VerificationRow, NonceRow, ReplayRow, FeeRow,
  NonceScope, ChallengeRow,
}
use so_ho_link.Operator.Sql.{statement, select_operator, update_operator}
use so_ho_link.Operator.Holds.{
  Kept, Kept-course, Keeps-statement, Keeps-select_from, Moves-on_violation,
}
use so_ho_link.Operator.Replay.{
  put_nonce, insert_nonce, load_or_create, load_window, store_window, check_and_advance,
}
use so_ho_link.Operator.Verification.{
  is_code_of, generate_code, select_code, delete_code, upsert_code, judge_prior, issue_email_code,
  settle_code, judge_code, report, check_email_code,
}
use so_ho_link.Operator.Fees.{put_fee, insert_fee, judge_fee, publish_fee_declaration}

module _ (P : List OperatorRow → List OperatorKeyRow → List ChallengeRow → Type 0) where
  abbrev pub Registry : OperatorTables → Type 0
  Registry t = P t.operators t.keys t.challenges

  put_nonce-Kept :
      (b : Bool) (row : NonceRow) (t : OperatorTables) → Registry t → Registry (put_nonce b row t).1
  put_nonce-Kept true row t h = h
  put_nonce-Kept false row t h = h

  insert_nonce-Kept : (row : NonceRow) → Moves (Kept Registry) (insert_nonce row)
  unfolding insert_nonce
  insert_nonce-Kept row = Keeps-statement Registry _ (λ t h. put_nonce-Kept _ row t h)

  load_at :
      (o c : String) (found : Option ReplayRow) (t : OperatorTables)
      → Registry t
      → Registry (load_or_create o c found t).1
  load_at o c none t h = h
  load_at o c (some r) t h = h

  load-Kept : (o c : String) → Moves (Kept Registry) (load_window o c)
  unfolding load_window
  load-Kept o c = Keeps-statement Registry _ (λ t h. load_at o c _ t h)

  store-Kept : (o c : String) (next : ℕ × List ℕ) → Moves (Kept Registry) (store_window o c next)
  unfolding store_window
  store-Kept o c next = Keeps-statement Registry _ (λ t h. h)

  pub transmit-Kept :
      (o c : String) (seq : ℕ) (nonce : List ℕ) (scope : NonceScope) (expiry : ℕ)
      → Moves (Kept Registry) (check_and_advance o c seq nonce scope expiry)
  unfolding check_and_advance
  transmit-Kept o c seq nonce scope expiry = Moves-transaction (Kept-course Registry) _ (
      search
        (Kept-course Registry, moves, Moves-on_violation, insert_nonce-Kept, load-Kept, store-Kept)
        depth 14)

  put_fee-Kept :
      (negative taken : Bool) (decl : FeeRow) (t : OperatorTables)
      → Registry t
      → Registry (put_fee negative taken decl t).1
  put_fee-Kept negative true decl t h = h
  put_fee-Kept true false decl t h = h
  put_fee-Kept false false decl t h = h

  insert_fee-Kept : (decl : FeeRow) → Moves (Kept Registry) (insert_fee decl)
  unfolding insert_fee
  insert_fee-Kept decl = Keeps-statement Registry _ (λ t h. put_fee-Kept _ _ decl t h)

  judge_fee-Kept : (decl : FeeRow) (o : Option FeeRow) → Moves (Kept Registry) (judge_fee decl o)
  unfolding judge_fee
  judge_fee-Kept decl none = Moves-pure (Kept-course Registry) tt
  judge_fee-Kept decl (some r) = search (Kept-course Registry, moves) depth 8

  pub publish-Kept : (decl : FeeRow) → Moves (Kept Registry) (publish_fee_declaration decl)
  unfolding publish_fee_declaration
  publish-Kept decl =
      Moves-bind (Kept-course Registry) _ _ (Moves-guard (Kept-course Registry) _ _) λ u.
        Moves-transaction (Kept-course Registry) _ (
          search
            (
              Kept-course Registry,
              moves,
              Keeps-select_from Registry,
              judge_fee-Kept,
              Moves-on_violation,
              insert_fee-Kept,
            )
            depth 14)

  select-Kept : (o : String) → Moves (Kept Registry) (select_operator o)
  unfolding select_operator
  select-Kept o = Keeps-select_from Registry _

  select_code-Kept : (o : String) → Moves (Kept Registry) (select_code o)
  unfolding select_code
  select_code-Kept o = Keeps-select_from Registry _

  delete_code-Kept : (o : String) → Moves (Kept Registry) (delete_code o)
  unfolding delete_code
  delete_code-Kept o = Keeps-statement Registry _ (λ t h. h)

  upsert-Kept : (row : VerificationRow) → Moves (Kept Registry) (upsert_code row)
  unfolding upsert_code
  upsert-Kept row = Keeps-statement Registry _ (λ t h. h)

  prior-Kept :
      (now : ℕ) (session : String) (o : Option VerificationRow)
      → Moves (Kept Registry) (judge_prior now session o)
  unfolding judge_prior
  prior-Kept now session none = Moves-pure (Kept-course Registry) tt
  prior-Kept now session (some v) = search (Kept-course Registry, moves) depth 8

  generate-Kept : (drawn : Option ℕ) → Moves (Kept Registry) (generate_code drawn)
  unfolding generate_code
  generate-Kept drawn = search (Kept-course Registry, moves) depth 8

  pub issue-Kept :
      (drawn : Option ℕ) (o session : String)
      → Moves (Kept Registry) (issue_email_code drawn o session)
  unfolding issue_email_code
  issue-Kept drawn o session =
      Moves-bind (Kept-course Registry) _ _ (Moves-guard (Kept-course Registry) _ _) λ u.
        Moves-transaction (Kept-course Registry) _ (
          search
            (
              Kept-course Registry,
              moves,
              select-Kept,
              select_code-Kept,
              prior-Kept,
              generate-Kept,
              upsert-Kept,
            )
            depth 20)

  attempts-Kept :
      (o : String) (change : VerificationRow → VerificationRow)
      → Moves (Kept Registry) (
          statement (λ t. (
            ok tt,
            record t { verifications = update_where (is_code_of o) change t.verifications },
          )))
  attempts-Kept o change = Keeps-statement Registry _ (λ t h. h)

  report-Kept : (o : Option Error) → Moves (Kept Registry) (report o)
  unfolding report
  report-Kept none = Moves-pure (Kept-course Registry) tt
  report-Kept (some e) = Moves-fail (Kept-course Registry) e

  module _
      (verified : (o : String)
        → Moves (Kept Registry) (update_operator o (λ r. record r { email_verified = true }))) where
    settle-Kept :
        (o : String) (code : List ℕ) (v : VerificationRow)
        → Moves (Kept Registry) (settle_code o code v)
    unfolding settle_code
    settle-Kept o code v =
        search (Kept-course Registry, moves, verified, attempts-Kept, delete_code-Kept) depth 12

    judge-Kept :
        (o session : String) (code : List ℕ) (v : VerificationRow) (now : ℕ)
        → Moves (Kept Registry) (judge_code o session code v now)
    unfolding judge_code
    judge-Kept o session code v now =
        search (Kept-course Registry, moves, settle-Kept, delete_code-Kept) depth 12

    pub check-Kept :
        (o session : String) (code : List ℕ)
        → Moves (Kept Registry) (check_email_code o session code)
    unfolding check_email_code
    check-Kept o session code =
        Moves-bind (Kept-course Registry) _ _
          (Moves-transaction (Kept-course Registry) _
            (search (Kept-course Registry, moves, select_code-Kept, judge-Kept) depth 14))
          report-Kept
