-- ===== src/Operator/Lifecycle/Challenges.antt =====
-- Operations on the operators leave the challenges alone.
use so_ho_link.Base.{ℕ, String, ℤ, Bool, true, false, List, text_equality}
use so_ho_link.Store.Effects.{
  Moves, moves, Moves-transaction, Moves-rescue, Moves-bind, Moves-guard,
}
use so_ho_link.Operator.Tables.{OperatorTables, OperatorRow, ChallengeRow}
use so_ho_link.Operator.Sql.{select_operator, update_operator}
use so_ho_link.Operator.Holds.{
  Kept, Kept-course, Keeps-statement, Keeps-select_from, Keeps-update_operator, Moves-on_violation,
}
use so_ho_link.Operator.Accounts.{
  put_operator, insert_operator, require_affected, create_operator, mark_email_verified, revoke,
  disconnect,
}
use so_ho_link.Operator.Activation.{
  active_keyset_hash, mark_conformance_passed, activate, auto_activate, add_keys,
}
use so_ho_link.Operator.Conformance.Finalize.{mark_passed}
use so_ho_link.Operator.Lifecycle.Keys.{keys-Kept, clear-Kept, add_rows-Kept}
use so_ho_link.Operator.Lifecycle.Conforming.{update_run-Kept}

module _ (P : List ChallengeRow → Type 0) where
  abbrev pub Graded : OperatorTables → Type 0
  Graded t = P t.challenges

  pub operator-Kept :
      (o : String) (change : OperatorRow → OperatorRow)
      → Moves (Kept Graded) (update_operator o change)
  operator-Kept o change = Keeps-update_operator Graded o change (λ t h. h)

  select-Kept : (o : String) → Moves (Kept Graded) (select_operator o)
  unfolding select_operator
  select-Kept o = Keeps-select_from Graded _

  affected-Kept : (n : ℕ) → Moves (Kept Graded) (require_affected n)
  unfolding require_affected
  affected-Kept n = search (Kept-course Graded, moves) depth 6

  put_operator_at :
      (b : Bool) (row : OperatorRow) (t : OperatorTables)
      → Graded t
      → Graded (put_operator b row t).1
  put_operator_at true row t h = h
  put_operator_at false row t h = h

  pub create-Kept :
      (o name : String) (email phone : List ℕ)
      → Moves (Kept Graded) (create_operator o name email phone)
  unfolding create_operator insert_operator
  create-Kept o name email phone =
      Moves-on_violation (Kept-course Graded) _ _
        (Keeps-statement Graded _ (λ t h. put_operator_at _ _ t h))

  pub email-Kept : (o : String) → Moves (Kept Graded) (mark_email_verified o)
  unfolding mark_email_verified
  email-Kept o = search (Kept-course Graded, moves, operator-Kept, affected-Kept) depth 8

  pub revoke-Kept : (o : String) → Moves (Kept Graded) (revoke o)
  unfolding revoke
  revoke-Kept o = search (Kept-course Graded, moves, operator-Kept, affected-Kept) depth 8

  pub disconnect-Kept : (o : String) → Moves (Kept Graded) (disconnect o)
  unfolding disconnect
  disconnect-Kept o = Moves-transaction (Kept-course Graded) _ (
      search (Kept-course Graded, moves, operator-Kept, affected-Kept, keys-Kept (λ os cs. P cs))
        depth 12)

  keyset-Kept :
      (sha256 : List ℕ → List ℕ) (o : String) → Moves (Kept Graded) (active_keyset_hash sha256 o)
  unfolding active_keyset_hash
  keyset-Kept sha256 o = search (Kept-course Graded, moves, Keeps-select_from Graded) depth 8

  pub pass-Kept :
      (sha256 : List ℕ → List ℕ) (o : String)
      → Moves (Kept Graded) (mark_conformance_passed sha256 o)
  unfolding mark_conformance_passed
  pass-Kept sha256 o = Moves-transaction (Kept-course Graded) _ (
      search (Kept-course Graded, moves, keyset-Kept sha256, operator-Kept, affected-Kept) depth 14)

  pub activate-Kept :
      (sha256 : List ℕ → List ℕ) (o : String) → Moves (Kept Graded) (auto_activate sha256 o)
  unfolding auto_activate activate
  activate-Kept sha256 o = Moves-rescue (Kept-course Graded) _ _ (
      Moves-transaction (Kept-course Graded) _ (
        search
          (Kept-course Graded, moves, keyset-Kept sha256, select-Kept, operator-Kept, affected-Kept)
          depth 20))

  pub add_keys-Kept :
      (o : String) (ps : List (List ℕ)) (algo : String) (ths : List ℤ)
      → Moves (Kept Graded) (add_keys o ps algo ths)
  unfolding add_keys
  add_keys-Kept o ps algo ths =
      Moves-bind (Kept-course Graded) _ _ (Moves-guard (Kept-course Graded) _ _) λ u.
        Moves-transaction (Kept-course Graded) _ (
          search
            (
              Kept-course Graded,
              moves,
              select-Kept,
              operator-Kept,
              clear-Kept (λ os cs. P cs),
              add_rows-Kept (λ os cs. P cs),
            )
            depth 16)

  pub bind-Kept :
      (sha256 : List ℕ → List ℕ) (o run : String) → Moves (Kept Graded) (mark_passed sha256 o run)
  unfolding mark_passed
  bind-Kept sha256 o run =
      search
        (
          Kept-course Graded,
          moves,
          keyset-Kept sha256,
          update_run-Kept (λ os ks cs. P cs),
          operator-Kept,
        )
        depth 14
