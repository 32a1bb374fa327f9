-- ===== src/Operator/Lifecycle/Gates.antt =====
-- An operator becomes active through both gates, and stays behind them.
use so_ho_link.Base.{
  ℕ, ◌≤◌, ◌≡◌, refl, sym, ap, subst, inl, inr, String, Bool, true, false, not, ◌||◌, Option, none,
  some, List, [], ◌∷◌, ◌==◌, text_equality, bytes_equality, number_equality, arith, Bool-cases,
  eq_of_same,
}
use so_ho_link.Store.Sql.{update_where, count_where, first_where}
use so_ho_link.Store.Effects.{Moves, moves, Moves-transaction}
use so_ho_link.Store.Rows.{changed, first_where-update_where, count_where-update_where}
use so_ho_link.Operator.Tables.{
  OperatorTables, OperatorRow, OnboardingState, onboarding_equality, onboarding_discrete,
}
use so_ho_link.Operator.Sql.{update_operator}
use so_ho_link.Operator.Holds.{
  Kept, Kept-course, Keeps-statement, Keeps-update_operator, Moves-on_violation,
}
use so_ho_link.Operator.Accounts.{
  is_new, put_operator, insert_operator, require_affected, create_operator, mark_email_verified,
  revoke, disconnect, revoked,
}
use so_ho_link.Operator.Lifecycle.Keys.{keys-Kept}
use so_ho_link.Operator.Activation.{passed_gates}

-- The row is not active, or has its e-mail address verified and a pass with its hash.
abbrev pub is_gated : OperatorRow → Bool
is_gated o = not (o.onboarding_state == OnboardingState.active) || passed_gates o

abbrev pub GatedRow : Option OperatorRow → Type 0
GatedRow none = Unit
GatedRow (some o) = is_gated o ≡ true

module _ (id : String) where
  abbrev has_id : OperatorRow → Bool
  has_id o = o.id == id

  -- The operator has one row at most, which is gated.
  abbrev pub GatedAt : List OperatorRow → Type 0
  GatedAt os = (count_where has_id os ≤ 1) × GatedRow (first_where has_id os)

  abbrev pub Gated : OperatorTables → Type 0
  Gated t = GatedAt t.operators

  changed_Gated :
      (o : String) (change : OperatorRow → OperatorRow) (found : Option OperatorRow)
      → ((r : OperatorRow)
          → found ≡ some r
          → r.id ≡ o
          → is_gated r ≡ true
          → is_gated (change r) ≡ true)
      → GatedRow found
      → GatedRow (changed (λ r. r.id == o) change found)
  changed_Gated o change none k h = tt
  changed_Gated o change (some r) k h = elim (Bool-cases (r.id == o)) [
    | inl hit ↦ rw hit (k r refl (eq_of_same hit) h)
    | inr miss ↦ rw miss h
  ]

  -- An update of one operator that does not touch the id keeps the gates, if it keeps those of the
  -- row that it changes.
  pub updated_Gated :
      (o : String) (change : OperatorRow → OperatorRow) (t : OperatorTables)
      → ((r : OperatorRow) → (change r).id ≡ r.id)
      → ((r : OperatorRow)
          → first_where (λ s. s.id == id) t.operators ≡ some r
          → r.id ≡ o
          → is_gated r ≡ true
          → is_gated (change r) ≡ true)
      → Gated t
      → Gated (record t { operators = update_where (λ r. r.id == o) change t.operators })
  updated_Gated o change t keeps k h =
      let same_id = λ (r : OperatorRow). ap (λ x. x == id) (keeps r) in
      (
        subst (λ n. n ≤ 1)
            (sym (count_where-update_where has_id (λ r. r.id == o) change t.operators same_id)) h.0,
        subst GatedRow
            (sym (first_where-update_where has_id (λ r. r.id == o) change t.operators same_id))
            (changed_Gated o change (first_where has_id t.operators) k h.1),
      )

  update-Kept :
      (o : String) (change : OperatorRow → OperatorRow)
      → ((r : OperatorRow) → (change r).id ≡ r.id)
      → ((r : OperatorRow) → is_gated r ≡ true → is_gated (change r) ≡ true)
      → Moves (Kept Gated) (update_operator o change)
  update-Kept o change keeps k =
      Keeps-update_operator Gated o change (λ t h. updated_Gated o change t keeps (λ r f e. k r) h)

  pub verified-Kept :
      (o : String)
      → Moves (Kept Gated) (update_operator o (λ r. record r { email_verified = true }))
  verified-Kept o = update-Kept o _ (λ r. refl) (λ r h. ground arith)

  revoked-Kept : (o : String) → Moves (Kept Gated) (update_operator o revoked)
  revoked-Kept o = update-Kept o _ (λ r. refl) (λ r h. h)

  pub affected-Kept : (n : ℕ) → Moves (Kept Gated) (require_affected n)
  unfolding require_affected
  affected-Kept n = search (Kept-course Gated, moves) depth 6

  pub revoke-Kept : (o : String) → Moves (Kept Gated) (revoke o)
  unfolding revoke
  revoke-Kept o = search (Kept-course Gated, moves, revoked-Kept, affected-Kept) depth 8

  pub email-Kept : (o : String) → Moves (Kept Gated) (mark_email_verified o)
  unfolding mark_email_verified
  email-Kept o = search (Kept-course Gated, moves, verified-Kept, affected-Kept) depth 8

  pub disconnect-Kept : (o : String) → Moves (Kept Gated) (disconnect o)
  unfolding disconnect
  disconnect-Kept o = Moves-transaction (Kept-course Gated) _ (
      search
        (Kept-course Gated, moves, revoked-Kept, affected-Kept, keys-Kept (λ os cs. GatedAt os))
        depth 12)

  pub new_id :
      (o : String) (email : List ℕ) (os : List OperatorRow)
      → is_new o email os ≡ true
      → count_where (λ r. r.id == o) os ≡ 0
  new_id o email [] h = refl
  new_id o email (r ∷ os) h = ground (arith, new_id o email os)

  put_Gated :
      (b : Bool) (row : OperatorRow) (t : OperatorTables)
      → is_new row.id row.email t.operators ≡ b
      → is_gated row ≡ true
      → Gated t
      → Gated (put_operator b row t).1
  put_Gated false row t e g h = h
  put_Gated true row t e g h = elim (Bool-cases (row.id == id)) [
    | inl same ↦ rw same (
      omega (
        arith,
        ap (λ x. count_where (λ r. r.id == x) t.operators) (eq_of_same same),
        new_id row.id row.email t.operators e,
      ),
      g,
    )
    | inr other ↦ rw other h
  ]

  pub create-Kept :
      (o name : String) (email phone : List ℕ)
      → Moves (Kept Gated) (create_operator o name email phone)
  unfolding create_operator insert_operator onboarding_discrete
  create-Kept o name email phone =
      Moves-on_violation (Kept-course Gated) _ _
        (Keeps-statement Gated _ (λ t h. put_Gated _ _ t refl refl h))
