-- ===== src/Operator/Rotation/Expiry.antt =====
-- What one call of RecordUsageAndExpire does to the keys of its operator: no index gets a second
-- active key, and the count that the loop carries is the number of active keys.
use so_ho_link.Base.{
  ℕ, ◌-◌, ◌≤◌, ◌<◌, ◌≡◌, ◌∙◌, refl, sym, inl, inr, String, Bool, true, false, Option, none, some,
  text_equality, number_equality, ltb, leb, ltb→lt, arith, Bool-cases, false≢true,
}
use so_ho_link.Store.Sql.{first_where, update_where, count_where}
use so_ho_link.Store.Effects.{Moves}
use so_ho_link.Store.Returns.{Yields, Yields-bind, Yields-pure, ok_same}
use so_ho_link.Store.Rows.{count_where-update_where}
use so_ho_link.Store.Counts.{count_where-update-le, count_where-taken, count_where-found}
use so_ho_link.Operator.{min_active_keys}
use so_ho_link.Operator.Tables.{
  OperatorTables, OperatorKeyRow, KeyState, key_state_equality, key_state_discrete,
}
use so_ho_link.Operator.Holds.{
  on, Kept, Keeps-transaction, Yields-statement, Yields-select_from, Yields-update_keys,
}
use so_ho_link.Operator.Accounts.{is_active_of, with_state}
use so_ho_link.Operator.Activation.{holds_index}
use so_ho_link.Operator.Rotation.{
  used, UsageState, increment_usage, expire_above_floor, judge_usage, use_index,
  record_usage_and_expire,
}

abbrev pub active_count : String → OperatorTables → ℕ
active_count id t = count_where (is_active_of id) t.keys

-- The unique index on the active keys, at one index of an operator.
abbrev pub OneActive : String → ℕ → OperatorTables → Type 0
OneActive id index t = count_where (holds_index id index) t.keys ≤ 1

module _ (id : String) (m : ℕ) (low : m ≤ 3) where
  -- The floor, where the unique index holds.
  abbrev pub Floor : OperatorTables → Type 0
  Floor t = ((index : ℕ) → OneActive id index t) × (m ≤ active_count id t)

  abbrev Counted : UsageState → OperatorTables → Type 0
  Counted s t = Floor t × (s.0 ≡ active_count id t)

  used_same :
      (query : OperatorKeyRow → Bool) (index : ℕ) (t : OperatorTables)
      → ((k : OperatorKeyRow) → query (used k) ≡ query k)
      → count_where query (update_where (holds_index id index) used t.keys)
        ≡ count_where query t.keys
  used_same query index t k = count_where-update_where query (holds_index id index) used t.keys k

  used-Counted :
      (index : ℕ) (s : UsageState) (t : OperatorTables)
      → Counted s t
      → Counted s (record t { keys = update_where (holds_index id index) used t.keys })
  used-Counted index s t p =
      let same = used_same (is_active_of id) index t (λ k. refl) in
      (
        (
          λ i. omega (arith, used_same (holds_index id i) index t (λ k. refl), p.0.0 i),
          omega arith,
        ),
        omega arith,
      )

  increment-Counted :
      (index : ℕ) (s : UsageState)
      → Yields
          (on (Counted s))
          (increment_usage id index)
          (λ o. on (λ t. Counted s t × (o ≡ first_where (holds_index id index) t.keys)))
  unfolding increment_usage
  increment-Counted index s =
      Yields-statement _ _ (λ o t. Counted s t × (o ≡ first_where (holds_index id index) t.keys))
        (λ t a p h. (used-Counted index s t p, sym (ok_same h)))

  -- The key at the index is active, and is the one that the expiry takes.
  abbrev Found : ℕ → UsageState → OperatorTables → Type 0
  Found index s t = Counted s t × (1 ≤ count_where (holds_index id index) t.keys)

  expired_off :
      (index : ℕ) (k : OperatorKeyRow)
      → holds_index id index (with_state KeyState.expired k) ≡ false
  unfolding key_state_discrete
  expired_off index k = ground arith

  inactive : (k : OperatorKeyRow) → is_active_of id (with_state KeyState.expired k) ≡ false
  unfolding key_state_discrete
  inactive k = ground arith

  holds_active :
      (index : ℕ) (k : OperatorKeyRow) → holds_index id index k ≡ true → is_active_of id k ≡ true
  holds_active index k h = ground arith

  expired_le :
      (index i : ℕ) (t : OperatorTables)
      → count_where
          (holds_index id i)
          (update_where (holds_index id index) (with_state KeyState.expired) t.keys)
        ≤ count_where (holds_index id i) t.keys
  expired_le index i t =
      count_where-update-le (holds_index id i) (holds_index id index) (with_state KeyState.expired)
        t.keys (λ k h. absurd (false≢true (sym (expired_off i k) ∙ h)))

  expired_Counted :
      (index : ℕ) (s : UsageState) (t : OperatorTables)
      → Found index s t
      → 3 < s.0
      → Counted
          (s.0 - 1, true)
          (record t {
            keys = update_where (holds_index id index) (with_state KeyState.expired) t.keys;
          })
  expired_Counted index s t p above =
      let one = p.0.0.0 index in
      let taken =
        count_where-taken (is_active_of id) (holds_index id index) (with_state KeyState.expired)
          t.keys (holds_active index) inactive in
      ((λ i. omega (arith, expired_le index i t, p.0.0.0 i), omega arith), omega arith)

  expire-Counted :
      (index : ℕ) (s : UsageState)
      → Yields (on (Found index s)) (expire_above_floor id index s.0) (λ u. on (Counted u))
  unfolding expire_above_floor
  expire-Counted index s = elim (Bool-cases (ltb min_active_keys s.0)) [
    | inl above ↦ rw above (
        Yields-bind _ _ _ (λ u. on (Counted (s.0 - 1, true))) _
          (Yields-update_keys (Found index s) _ _ _
            (λ t p. expired_Counted index s t p (ltb→lt 3 s.0 above)))
          λ u. Yields-pure _ (λ u. on (Counted u)) (s.0 - 1, true) (λ d r p. p))
    | inr floor ↦ rw floor (Yields-pure _ (λ u. on (Counted u)) (s.0, true) (λ d r p. p.0))
  ]

  judge-Counted :
      (index : ℕ) (s : UsageState) (o : Option OperatorKeyRow)
      → Yields
          (on (λ t. Counted s t × (o ≡ first_where (holds_index id index) t.keys)))
          (judge_usage id index s o)
          (λ u. on (Counted u))
  unfolding judge_usage
  judge-Counted index s none = Yields-pure _ (λ u. on (Counted u)) s (λ d r p. p.0)
  judge-Counted index s (some k) = elim (Bool-cases (leb k.expiration_threshold k.usage_count)) [
    | inl due ↦ rw due (record {
      at = λ w p h.
          (expire-Counted index s).at w
            (p.0, count_where-found (holds_index id index) w.db.registered.keys (sym p.1)) h;
    })
    | inr spare ↦ rw spare (Yields-pure _ (λ u. on (Counted u)) s (λ d r p. p.0))
  ]

  use-Counted :
      (index : ℕ) (s : UsageState)
      → Yields (on (Counted s)) (use_index id index s) (λ u. on (Counted u))
  unfolding use_index
  use-Counted index s =
      Yields-bind _ _ _ _ _ (increment-Counted index s) (λ o. judge-Counted index s o)

  pub record-Floor : (i₀ i₁ : ℕ) → Moves (Kept Floor) (record_usage_and_expire id i₀ i₁)
  unfolding record_usage_and_expire
  record-Floor i₀ i₁ = Keeps-transaction Floor _ (
      Yields-bind _ _ _ (λ n. on (Counted (n, false))) _
        (Yields-select_from Floor (active_count id))
        λ n.
          Yields-bind _ _ _ (λ u. on (Counted u)) _ (use-Counted i₀ (n, false))
            λ s.
              Yields-bind _ _ _ (λ u. on (Counted u)) _ (use-Counted i₁ s)
                λ u. Yields-pure _ (λ b. on Floor) u.1 (λ d r p. p.0))
