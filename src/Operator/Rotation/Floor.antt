-- ===== src/Operator/Rotation/Floor.antt =====
-- Counted expiry (RecordUsageAndExpire) stops at the floor of three active keys.
use Prim.Native.Nat.{min}
use so_ho_link.Base.{
  List, [], ◌∷◌, ◌==◌, ap, eq_of_same, ℕ, ◌≤◌, ◌≡◌, ◌∙◌, refl, sym, subst, inl, inr, String, true,
  false, Option, none, some, text_equality, number_equality, arith, Bool-cases,
}
use so_ho_link.Store.{World}
use so_ho_link.Store.Sql.{update_where}
use so_ho_link.Store.Effects.{Moves, moves, Moves-pure, Moves-transaction}
use so_ho_link.Store.Counts.{count_where-untouched}
use so_ho_link.Operator.Tables.{OperatorTables, OperatorKeyRow, KeyState, key_state_equality}
use so_ho_link.Operator.Holds.{
  Kept, Kept-course, Keeps-statement, Keeps-update_keys, Keeps-select_from,
}
use so_ho_link.Operator.Sql.{update_keys}
use so_ho_link.Operator.Accounts.{is_active_of, with_state}
use so_ho_link.Operator.Activation.{holds_index}
use so_ho_link.Operator.Rotation.{
  used, UsageState, increment_usage, expire_above_floor, judge_usage, use_index,
  record_usage_and_expire,
}
use so_ho_link.Operator.Rotation.Expiry.{active_count, OneActive, Floor, record-Floor}

-- One call of RecordUsageAndExpire.
pub record Use : Type 0 where
  pub operator_id : String
  pub index₀ : ℕ
  pub index₁ : ℕ

abbrev pub after_uses : List Use → World → World
after_uses [] w = w
after_uses (u ∷ us) w = after_uses us (record_usage_and_expire u.operator_id u.index₀ u.index₁ w).1

module _ (id : String) (m : ℕ) (low : m ≤ 3) where
  abbrev Held : OperatorTables → Type 0
  Held = Floor id m low

  -- The keys of another operator.
  foreign :
      (o : String) (index : ℕ) (k : OperatorKeyRow)
      → (o == id) ≡ false
      → holds_index o index k ≡ true
      → (k.operator_id == id) ≡ false
  foreign o index k other h =
      let at_o : k.operator_id ≡ o = eq_of_same (ground arith) in ap (λ x. x == id) at_o ∙ other

  foreign-Held :
      (o : String) (index : ℕ) (change : OperatorKeyRow → OperatorKeyRow) (t : OperatorTables)
      → (o == id) ≡ false
      → ((k : OperatorKeyRow) → (change k).operator_id ≡ k.operator_id)
      → Held t
      → Held (record t { keys = update_where (holds_index o index) change t.keys })
  foreign-Held o index change t other same p = (
    λ i. omega (
      arith,
      p.0 i,
      count_where-untouched (holds_index id i) (holds_index o index) change t.keys
          (λ k h. ground (arith, ap (λ x. x == id) (same k), foreign o index k other h)),
    ),
    omega (
      arith,
      count_where-untouched (is_active_of id) (holds_index o index) change t.keys
          (λ k h. ground (arith, ap (λ x. x == id) (same k), foreign o index k other h)),
    ),
  )

  module _ (o : String) (other : (o == id) ≡ false) where
    used-Held : (i : ℕ) → Moves (Kept Held) (increment_usage o i)
    unfolding increment_usage
    used-Held i = Keeps-statement Held _ (λ t p. foreign-Held o i used t other (λ k. refl) p)

    expired-Held :
        (i : ℕ) → Moves (Kept Held) (update_keys (holds_index o i) (with_state KeyState.expired))
    expired-Held i = Keeps-update_keys Held _ _ (λ t p. foreign-Held o i _ t other (λ k. refl) p)

    judge-Held :
        (i : ℕ) (s : UsageState) (k : Option OperatorKeyRow)
        → Moves (Kept Held) (judge_usage o i s k)
    unfolding judge_usage expire_above_floor
    judge-Held i s none = Moves-pure (Kept-course Held) s
    judge-Held i s (some k) = search (Kept-course Held, moves, expired-Held) depth 10

    others-Held : (i₀ i₁ : ℕ) → Moves (Kept Held) (record_usage_and_expire o i₀ i₁)
    unfolding record_usage_and_expire use_index
    others-Held i₀ i₁ =
        Moves-transaction (Kept-course Held) _
          (search (Kept-course Held, moves, Keeps-select_from Held, used-Held, judge-Held) depth 14)

  use-Held : (u : Use) → Moves (Kept Held) (record_usage_and_expire u.operator_id u.index₀ u.index₁)
  use-Held u = elim (Bool-cases (u.operator_id == id)) [
    | inl own ↦
        subst (λ x. Moves (Kept Held) (record_usage_and_expire x u.index₀ u.index₁))
          (sym (eq_of_same own)) (record-Floor id m low u.index₀ u.index₁)
    | inr other ↦ others-Held u.operator_id other u.index₀ u.index₁
  ]

  after_uses-Held :
      (us : List Use) (w : World) → Held w.db.registered → Held (after_uses us w).db.registered
  after_uses-Held [] w p = p
  after_uses-Held (u ∷ us) w p = after_uses-Held us _ (((use-Held u).at w).keep p)

-- However often RecordUsageAndExpire is called, for any operators, on any indices and whichever
-- statements fail, an operator with three active keys or more keeps at least three, and one with
-- fewer keeps all, where no two of its active keys share an index.
pub record_usage_and_expire-floor :
    (id : String) (us : List Use) (w : World)
    → ((index : ℕ) → OneActive id index w.db.registered)
    → let after = (after_uses us w).db.registered in
      min 3 (active_count id w.db.registered) ≤ active_count id after
record_usage_and_expire-floor id us w one =
    let floor = min 3 (active_count id w.db.registered) in
    (after_uses-Held id floor (omega arith) us w (one, omega arith)).1
