-- ===== src/Operator/Activation/Binds.antt =====
-- AutoActivate activates an operator on the very keyset that passed.
use so_ho_link.Base.{
  ℕ, ◌≡◌, ◌∙◌, refl, sym, ap, ◌⊎◌, inl, inr, String, Bool, true, some, List, [], ◌∷◌, ◌==◌,
  text_equality, bytes_equality, number_equality, length, arith, eq_of_same,
}
use so_ho_link.Store.{World}
use so_ho_link.Store.Sql.{
  Error, Result, ok, err, M, guard, ◌>>=◌, first_where, update_where, rescue, operator_active,
}
use so_ho_link.Store.Effects.{Moves, Moves-guard}
use so_ho_link.Store.Returns.{
  Fact, Yields, Yields-bind, Yields-require, Yields-guard, Yields-given, Yields-imply, Yields-pure,
  Yields-transaction,
}
use so_ho_link.Store.Rows.{changed, changed_hit, first_where-update_where, first_where-test}
use so_ho_link.Operator.{key_index_count}
use so_ho_link.Operator.Tables.{
  OperatorTables, OperatorRow, OnboardingState, OperatorStatus, onboarding_equality,
  status_equality,
}
use so_ho_link.Operator.Keyset.{hash_sorted_pubkeys, compare_bytes}
use so_ho_link.Operator.Holds.{
  on, Kept, Kept-course, Yields-Kept, Yields-select_operator, Yields-update_operator,
  Yields-select_from,
}
use so_ho_link.Operator.Accounts.{require_affected}
use so_ho_link.Operator.Activation.{
  active_keys, public_keys, passed_gates, hash_bytes, compares_equal, active_keyset_hash, activate,
  ignore_active, auto_activate,
}

-- The comparison is 0 on equal byte strings alone.
pub compare_bytes-zero : (a b : List ℕ) → compares_equal (compare_bytes a b) ≡ true → a ≡ b
unfolding compare_bytes
compare_bytes-zero [] [] h = refl
compare_bytes-zero [] (y ∷ ys) h = cc
compare_bytes-zero (x ∷ xs) [] h = cc
compare_bytes-zero (x ∷ xs) (y ∷ ys) h = ground (arith, compare_bytes-zero xs ys)

judged :
    (r : Result (Unit {0})) {u : Unit {0}}
    → ignore_active r ≡ ok u
    → (r ≡ err operator_active) ⊎ (r ≡ ok u)
judged (ok u) h = inr h
judged (err e) h = ground arith

module _ (sha256 : List ℕ → List ℕ) (id : String) where
  -- The operator is active behind its gates, and the hash of its seven active keys is the one that
  -- passed.
  pub record IsBound (o : OperatorRow) (t : OperatorTables) : Type 0 where
    pub row : first_where (λ r. r.id == id) t.operators ≡ some o
    pub status : o.status ≡ OperatorStatus.active
    pub onboarding : o.onboarding_state ≡ OnboardingState.active
    pub gates : passed_gates o ≡ true
    pub seven : length (active_keys id t) ≡ 7
    pub hash :
        hash_sorted_pubkeys sha256 (public_keys (active_keys id t))
        ≡ hash_bytes o.conformance_keyset_hash

  abbrev Loaded : OperatorRow → OperatorTables → Type 0
  Loaded o t = some o ≡ first_where (λ r. r.id == id) t.operators

  -- The keys and their hash, as the transaction read them.
  abbrev Counted : OperatorRow → List ℕ × ℕ → OperatorTables → Type 0
  Counted o h t =
      Loaded o t
      × (h.0 ≡ hash_sorted_pubkeys sha256 (public_keys (active_keys id t)))
      × (h.1 ≡ length (active_keys id t))

  keyset-Counted :
      (o : OperatorRow)
      → Yields (on (Loaded o)) (active_keyset_hash sha256 id) (λ h. on (Counted o h))
  unfolding active_keyset_hash
  keyset-Counted o = Yields-bind _ _ _ _ _ (Yields-select_from (Loaded o) (active_keys id)) λ rows.
      Yields-pure _ (λ h. on (Counted o h)) _
        (λ d r p. (
          p.0,
          ap (λ ks. hash_sorted_pubkeys sha256 (public_keys ks)) p.1,
          ap (λ ks. length ks) p.1,
        ))

  activated : OperatorRow → OperatorRow
  activated o = record o { onboarding_state = OnboardingState.active }

  IsBound-at :
      (o : OperatorRow) (h : List ℕ × ℕ) (t : OperatorTables)
      → Counted o h t
      → (o.status == OperatorStatus.active) ≡ true
      → passed_gates o ≡ true
      → (h.1 == key_index_count) ≡ true
      → compares_equal (compare_bytes h.0 (hash_bytes o.conformance_keyset_hash)) ≡ true
      → IsBound (activated o) (record t {
        operators =
            update_where
              (λ r. r.id == id)
              (λ o. record o { onboarding_state = OnboardingState.active })
              t.operators;
      })
  unfolding activated
  IsBound-at o h t c open_status gates seven same = record {
    row =
        first_where-update_where (λ r. r.id == id) (λ r. r.id == id) activated t.operators
          (λ r. refl)
        ∙ ap (changed (λ r. r.id == id) activated) (sym c.0)
        ∙ changed_hit (λ r. r.id == id) activated o
            (first_where-test (λ r. r.id == id) t.operators (sym c.0));
    status = eq_of_same open_status;
    onboarding = refl;
    gates = gates;
    seven = sym c.2 ∙ eq_of_same seven;
    hash = sym c.1 ∙ compare_bytes-zero _ _ same;
  }

  guard_known :
      (P : OperatorTables → Type 0) (b : Bool) (e : Error) {A : Type 0} (rest : Unit {0} → M A)
      (S : A → Fact)
      → (b ≡ true → Yields (on P) (rest tt) S)
      → Yields (on P) (guard b e >>= rest) S
  guard_known P b e rest S k =
      Yields-bind _ _ _ _ _ (Yields-guard (on P) b e) (λ u. Yields-given _ _ _ _ k)

  abbrev Bound : OperatorTables → Type 0
  Bound t = (o : OperatorRow) × IsBound o t

  affected_Bound : (n : ℕ) → Moves (Kept Bound) (require_affected n)
  unfolding require_affected
  affected_Bound n = Moves-guard (Kept-course Bound) _ _

  activate-Bound : Yields (on (λ t. Unit)) (activate sha256 id) (λ u. on Bound)
  unfolding activate
  activate-Bound = Yields-transaction _ _ _ (
      Yields-bind _ _ _ _ _ (Yields-select_operator (λ t. Unit) id) λ found.
        Yields-bind _ _ _ (λ o. on (Loaded o)) _
          (Yields-imply _ _ _ _ (Yields-require _ found _) (λ o d r p. sym p.1 ∙ p.0.1))
          λ o. guard_known (Loaded o) _ _ _ _ λ inactive.
            guard_known (Loaded o) _ _ _ _ λ open_status. guard_known (Loaded o) _ _ _ _ λ gates.
              Yields-bind _ _ _ _ _ (keyset-Counted o) λ h.
                guard_known (Counted o h) _ _ _ _ λ seven. guard_known (Counted o h) _ _ _ _ λ same.
                  Yields-bind _ _ _ (λ n. on Bound) _
                    (Yields-update_operator (Counted o h) id _ Bound
                      (λ t c. (activated o, IsBound-at o h t c open_status gates seven same)))
                    λ n. Yields-Kept Bound _ (affected_Bound n))

  -- Where AutoActivate returns, the transaction found the operator active already and gave that up, or
  -- the operator is active now: its row is not revoked, its e-mail address is verified, it has a
  -- conformance pass, and its seven active keys have the hash that passed.
  pub auto_activate-IsBound :
      (w : World) {u : Unit {0}}
      → (auto_activate sha256 id w).0 ≡ ok u
      → ((activate sha256 id w).0 ≡ err operator_active)
        ⊎ ((o : OperatorRow) × IsBound o (auto_activate sha256 id w).1.db.registered)
  unfolding auto_activate rescue
  auto_activate-IsBound w h = elim (judged (activate sha256 id w).0 h) [
    | inl there ↦ inl there
    | inr done ↦ inr (activate-Bound.at w tt done)
  ]
