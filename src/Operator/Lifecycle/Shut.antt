-- ===== src/Operator/Lifecycle/Shut.antt =====
-- No operation opens the row of a revoked operator again.
use so_ho_link.Base.{
  ℕ, ◌≤◌, ◌≡◌, ◌∙◌, refl, sym, ap, inl, inr, String, ℤ, Bool, true, false, false≢true, ◌&&◌, Option,
  List, ◌==◌, text_equality, bytes_equality, number_equality, arith, Bool-cases, eq_of_same,
}
use so_ho_link.Store.Sql.{update_where, count_where}
use so_ho_link.Store.Effects.{
  Moves, moves, Moves-transaction, Moves-rescue, Moves-bind, Moves-guard,
}
use so_ho_link.Store.Rows.{count_where-update_where}
use so_ho_link.Store.Counts.{count_where-update-le}
use so_ho_link.Operator.Tables.{
  OperatorTables, OperatorRow, OperatorStatus, OnboardingState, status_equality, status_discrete,
}
use so_ho_link.Operator.Sql.{select_operator, update_operator}
use so_ho_link.Operator.Holds.{
  Kept, Kept-course, Keeps-statement, Keeps-select_from, Keeps-update_operator, Moves-on_violation,
  Yields-Kept,
}
use so_ho_link.Operator.Accounts.{
  is_new, put_operator, insert_operator, require_affected, create_operator, mark_email_verified,
  revoke, disconnect, revoked,
}
use so_ho_link.Operator.Activation.{
  active_keyset_hash, mark_conformance_passed, activate, auto_activate, add_keys,
}
use so_ho_link.Operator.Lifecycle.Keys.{keys-Kept, clear-Kept, add_rows-Kept}
use so_ho_link.Operator.Lifecycle.Gates.{new_id}
use so_ho_link.Operator.Conformance.Finalize.{mark_passed, finalize_run}
use so_ho_link.Operator.Lifecycle.Conforming.{update_run-Kept, finalize-Kept}

module _ (id : String) where
  abbrev pub is_open : OperatorRow → Bool
  is_open o = o.id == id && o.status == OperatorStatus.active

  -- The operator has a row, and none that is not revoked.
  abbrev pub ShutAt : List OperatorRow → Type 0
  ShutAt os = (count_where is_open os ≡ 0) × (1 ≤ count_where (λ o. o.id == id) os)

  abbrev pub Shut : OperatorTables → Type 0
  Shut t = ShutAt t.operators

  updated_Shut :
      (o : String) (change : OperatorRow → OperatorRow) (t : OperatorTables)
      → ((r : OperatorRow) → (change r).id ≡ r.id)
      → ((r : OperatorRow) → is_open (change r) ≡ true → is_open r ≡ true)
      → Shut t
      → Shut (record t { operators = update_where (λ r. r.id == o) change t.operators })
  updated_Shut o change t keeps k h = (
    omega (arith, count_where-update-le is_open (λ r. r.id == o) change t.operators k),
    omega (
      arith,
      count_where-update_where (λ r. r.id == id) (λ r. r.id == o) change t.operators
          (λ r. ap (λ x. x == id) (keeps r)),
    ),
  )

  update-Kept :
      (o : String) (change : OperatorRow → OperatorRow)
      → ((r : OperatorRow) → (change r).id ≡ r.id)
      → ((r : OperatorRow) → is_open (change r) ≡ true → is_open r ≡ true)
      → Moves (Kept Shut) (update_operator o change)
  update-Kept o change keeps k =
      Keeps-update_operator Shut o change (λ t h. updated_Shut o change t keeps k h)

  pub verified-Kept :
      (o : String) → Moves (Kept Shut) (update_operator o (λ r. record r { email_verified = true }))
  verified-Kept o = update-Kept o _ (λ r. refl) (λ r h. h)

  pub never_open : (r : OperatorRow) → is_open (revoked r) ≡ false
  unfolding status_discrete
  never_open r = ground arith

  revoked-Kept : (o : String) → Moves (Kept Shut) (update_operator o revoked)
  revoked-Kept o = update-Kept o _ (λ r. refl) (λ r h. absurd (false≢true (sym (never_open r) ∙ h)))

  passed-Kept :
      (o : String) (at : Option ℕ) (hash : Option (List ℕ))
      → Moves (Kept Shut) (
          update_operator o
            (λ r. record r { conformance_passed_at = at; conformance_keyset_hash = hash }))
  passed-Kept o at hash = update-Kept o _ (λ r. refl) (λ r h. h)

  state-Kept :
      (o : String) (s : OnboardingState)
      → Moves (Kept Shut) (update_operator o (λ r. record r { onboarding_state = s }))
  state-Kept o s = update-Kept o _ (λ r. refl) (λ r h. h)

  select-Kept : (o : String) → Moves (Kept Shut) (select_operator o)
  unfolding select_operator
  select-Kept o = Keeps-select_from Shut _

  affected-Kept : (n : ℕ) → Moves (Kept Shut) (require_affected n)
  unfolding require_affected
  affected-Kept n = search (Kept-course Shut, moves) depth 6

  -- A revoked operator is not signed up again.
  put_Shut :
      (b : Bool) (row : OperatorRow) (t : OperatorTables)
      → is_new row.id row.email t.operators ≡ b
      → Shut t
      → Shut (put_operator b row t).1
  put_Shut false row t e h = h
  put_Shut true row t e h = elim (Bool-cases (row.id == id)) [
    | inl same ↦ absurd (
        omega (
          arith,
          ap (λ x. count_where (λ r. r.id == x) t.operators) (eq_of_same same),
          new_id id row.id row.email t.operators e,
          h.1,
        ))
    | inr other ↦ rw other h
  ]

  pub create-Kept :
      (o name : String) (email phone : List ℕ)
      → Moves (Kept Shut) (create_operator o name email phone)
  unfolding create_operator insert_operator
  create-Kept o name email phone =
      Moves-on_violation (Kept-course Shut) _ _
        (Keeps-statement Shut _ (λ t h. put_Shut _ _ t refl h))

  pub email-Kept : (o : String) → Moves (Kept Shut) (mark_email_verified o)
  unfolding mark_email_verified
  email-Kept o = search (Kept-course Shut, moves, verified-Kept, affected-Kept) depth 8

  pub revoke-Kept : (o : String) → Moves (Kept Shut) (revoke o)
  unfolding revoke
  revoke-Kept o = search (Kept-course Shut, moves, revoked-Kept, affected-Kept) depth 8

  pub disconnect-Kept : (o : String) → Moves (Kept Shut) (disconnect o)
  unfolding disconnect
  disconnect-Kept o = Moves-transaction (Kept-course Shut) _ (
      search (Kept-course Shut, moves, revoked-Kept, affected-Kept, keys-Kept (λ os cs. ShutAt os))
        depth 12)

  keyset-Kept :
      (sha256 : List ℕ → List ℕ) (o : String) → Moves (Kept Shut) (active_keyset_hash sha256 o)
  unfolding active_keyset_hash
  keyset-Kept sha256 o = search (Kept-course Shut, moves, Keeps-select_from Shut) depth 8

  pub pass-Kept :
      (sha256 : List ℕ → List ℕ) (o : String) → Moves (Kept Shut) (mark_conformance_passed sha256 o)
  unfolding mark_conformance_passed
  pass-Kept sha256 o =
      Moves-transaction (Kept-course Shut) _
        (search (Kept-course Shut, moves, keyset-Kept sha256, passed-Kept, affected-Kept) depth 14)

  pub activate-Kept :
      (sha256 : List ℕ → List ℕ) (o : String) → Moves (Kept Shut) (auto_activate sha256 o)
  unfolding auto_activate activate
  activate-Kept sha256 o = Moves-rescue (Kept-course Shut) _ _ (
      Moves-transaction (Kept-course Shut) _ (
        search (Kept-course Shut, moves, keyset-Kept sha256, select-Kept, state-Kept, affected-Kept)
          depth 20))

  pub add_keys-Kept :
      (o : String) (ps : List (List ℕ)) (algo : String) (ths : List ℤ)
      → Moves (Kept Shut) (add_keys o ps algo ths)
  unfolding add_keys
  add_keys-Kept o ps algo ths =
      Moves-bind (Kept-course Shut) _ _ (Moves-guard (Kept-course Shut) _ _) λ u.
        Moves-transaction (Kept-course Shut) _ (
          search
            (
              Kept-course Shut,
              moves,
              select-Kept,
              passed-Kept,
              clear-Kept (λ os cs. ShutAt os),
              add_rows-Kept (λ os cs. ShutAt os),
            )
            depth 16)

  bind-Kept :
      (sha256 : List ℕ → List ℕ) (o run : String) → Moves (Kept Shut) (mark_passed sha256 o run)
  unfolding mark_passed
  bind-Kept sha256 o run =
      search
        (
          Kept-course Shut,
          moves,
          keyset-Kept sha256,
          update_run-Kept (λ os ks cs. ShutAt os),
          passed-Kept,
        )
        depth 14

  pub final-Kept :
      (sha256 : List ℕ → List ℕ) (o run : String) → Moves (Kept Shut) (finalize_run sha256 o run)
  final-Kept sha256 o run =
      finalize-Kept (λ os ks cs. ShutAt os) sha256
        (λ i r. Yields-Kept Shut _ (bind-Kept sha256 i r)) o run
