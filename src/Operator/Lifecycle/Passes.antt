-- ===== src/Operator/Lifecycle/Passes.antt =====
-- The transactions that set and check a conformance pass keep every active operator behind its gates.
use so_ho_link.Base.{
  ℕ, ◌≡◌, ◌∙◌, refl, sym, ap, subst, String, Bool, true, ◌||◌, some, List, ◌==◌, text_equality,
  bytes_equality, number_equality, length, arith, eq_of_same,
}
use so_ho_link.Store.Sql.{Error, M, require, guard, ◌>>=◌, first_where}
use so_ho_link.Store.Effects.{Moves, moves, Moves-rescue, Moves-guard}
use so_ho_link.Store.Returns.{
  Fact, Yields, Yields-bind, Yields-require, Yields-guard, Yields-given, Yields-imply, Yields-pure,
  Yields-gets,
}
use so_ho_link.Store.Rows.{first_where-test, some_row}
use so_ho_link.Operator.Tables.{OperatorTables, OperatorRow, OnboardingState, onboarding_equality}
use so_ho_link.Operator.Sql.{select_operator}
use so_ho_link.Operator.Keyset.{hash_sorted_pubkeys}
use so_ho_link.Operator.Holds.{
  on, Kept, Kept-course, Keeps-select_from, Keeps-transaction, Yields-Kept, Yields-select_operator,
  Yields-update_operator,
}
use so_ho_link.Operator.Activation.{
  passed_gates, active_keyset_hash, mark_conformance_passed, activate, auto_activate,
}
use so_ho_link.Operator.Conformance.Finalize.{mark_passed, finalize_run}
use so_ho_link.Operator.Lifecycle.Conforming.{update_run-Kept, finalize-Kept}
use so_ho_link.Operator.Lifecycle.Gates.{GatedAt, is_gated, Gated, updated_Gated, affected-Kept}

or_right : (a : Bool) {b : Bool} → b ≡ true → (a || b) ≡ true
or_right a h = ground arith

module _ (id o : String) where
  -- `row` is the row of operator `o`.
  abbrev pub Loaded : OperatorRow → OperatorTables → Type 0
  Loaded row t = Gated id t × (some row ≡ first_where (λ r. r.id == o) t.operators)

  pub Loaded-row :
      (row r : OperatorRow) (t : OperatorTables)
      → Loaded row t
      → first_where (λ s. s.id == id) t.operators ≡ some r
      → r.id ≡ o
      → row ≡ r
  Loaded-row row r t h f at_o =
      let at_id : r.id ≡ id = eq_of_same (first_where-test (λ s. s.id == id) t.operators f) in
      some_row (h.1 ∙ ap (λ x. first_where (λ s. s.id == x) t.operators) (sym at_o ∙ at_id) ∙ f)

  pub load :
      (e : Error) {A : Type 0} (rest : OperatorRow → M A) (S : A → Fact)
      → ((row : OperatorRow) → Yields (on (Loaded row)) (rest row) S)
      → Yields (on (Gated id)) (select_operator o >>= λ found. require found e >>= rest) S
  load e rest S k = Yields-bind _ _ _ _ _ (Yields-select_operator (Gated id) o) λ found.
      Yields-bind _ _ _ (λ row. on (Loaded row)) _
        (Yields-imply _ _ _ _ (Yields-require _ found e) (λ row d r p. (p.0.0, sym p.1 ∙ p.0.1))) k

  pub guard-Loaded :
      (row : OperatorRow) (b : Bool) (e : Error) {A : Type 0} (rest : Unit {0} → M A) (S : A → Fact)
      → (b ≡ true → Yields (on (Loaded row)) (rest tt) S)
      → Yields (on (Loaded row)) (guard b e >>= rest) S
  guard-Loaded row b e rest S k =
      Yields-bind _ _ _ _ _ (Yields-guard _ b e) (λ u. Yields-given _ _ _ _ k)

module _ (sha256 : List ℕ → List ℕ) (size : (b : List ℕ) → length (sha256 b) ≡ 32)
    (id : String) where
  keyset_hash-Gated :
      (o : String)
      → Yields
          (on (Gated id))
          (active_keyset_hash sha256 o)
          (λ h. on (λ t. Gated id t × (length h.0 ≡ 32)))
  unfolding active_keyset_hash hash_sorted_pubkeys
  keyset_hash-Gated o =
      Yields-bind _ _ _ (λ rows. on (Gated id)) _
        (Yields-Kept (Gated id) _ (Keeps-select_from (Gated id) _))
        λ rows.
          Yields-pure _ (λ h. on (λ t. Gated id t × (length h.0 ≡ 32))) _ (λ d r p. (p, size _))

  passed :
      (hash : List ℕ) (now : ℕ) (r : OperatorRow)
      → length hash ≡ 32
      → is_gated r ≡ true
      → is_gated
          (record r { conformance_passed_at = some now; conformance_keyset_hash = some hash })
        ≡ true
  passed hash now r e h = ground arith

  bind-Kept :
      (o run : String) → Yields (on (Gated id)) (mark_passed sha256 o run) (λ b. on (Gated id))
  unfolding mark_passed
  bind-Kept o run = Yields-bind _ _ _ _ _ (keyset_hash-Gated o) λ h. Yields-given _ _ _ _ (λ e.
      Yields-bind _ _ _ (λ u. on (Gated id)) _
        (Yields-Kept (Gated id) _ (Moves-guard (Kept-course (Gated id)) _ _))
        λ u.
          Yields-bind _ _ _ (λ n. on (Gated id)) _ (Yields-gets _ _ _ (λ w p. p))
            λ now.
              Yields-bind _ _ _ (λ u. on (Gated id)) _
                (Yields-Kept (Gated id) _ (update_run-Kept (λ os ks cs. GatedAt id os) run _))
                λ u.
                  Yields-bind _ _ _ (λ n. on (Gated id)) _
                    (Yields-update_operator (Gated id) o _ (Gated id) (λ t p.
                      updated_Gated id o _ t (λ r. refl) (λ r f i g. passed h.0 now r e g) p))
                    λ n. Yields-pure _ (λ b. on (Gated id)) _ (λ d r p. p))

  pub final-Kept : (o run : String) → Moves (Kept (Gated id)) (finalize_run sha256 o run)
  final-Kept o run = finalize-Kept (λ os ks cs. GatedAt id os) sha256 bind-Kept o run

  pub pass-Kept : (o : String) → Moves (Kept (Gated id)) (mark_conformance_passed sha256 o)
  unfolding mark_conformance_passed
  pass-Kept o = Keeps-transaction (Gated id) _ (
      Yields-bind _ _ _ _ _ (keyset_hash-Gated o) λ h. Yields-given _ _ _ _ (λ e.
        Yields-bind _ _ _ (λ u. on (Gated id)) _
          (Yields-Kept (Gated id) _ (Moves-guard (Kept-course (Gated id)) _ _))
          λ u.
            Yields-bind _ _ _ (λ n. on (Gated id)) _ (Yields-gets _ _ _ (λ w p. p))
              λ now.
                Yields-bind _ _ _ (λ n. on (Gated id)) _
                  (Yields-update_operator (Gated id) o _ (Gated id)
                    (λ t p. updated_Gated id o _ t (λ r. refl) (λ r f i g. passed h.0 now r e g) p))
                  λ n. Yields-Kept (Gated id) _ (affected-Kept id n)))

  activated :
      (o : String) (row r : OperatorRow) (t : OperatorTables)
      → Loaded id o row t
      → passed_gates row ≡ true
      → first_where (λ s. s.id == id) t.operators ≡ some r
      → r.id ≡ o
      → is_gated (record r { onboarding_state = OnboardingState.active }) ≡ true
  activated o row r t h g f at_o =
      subst (λ x. is_gated (record x { onboarding_state = OnboardingState.active }) ≡ true)
        (Loaded-row id o row r t h f at_o) (or_right _ g)

  keyset_hash-Loaded :
      (o : String) (row : OperatorRow)
      → Moves (Kept (Loaded id o row)) (active_keyset_hash sha256 o)
  unfolding active_keyset_hash
  keyset_hash-Loaded o row =
      search (Kept-course (Loaded id o row), moves, Keeps-select_from (Loaded id o row)) depth 8

  pub activate-Kept : (o : String) → Moves (Kept (Gated id)) (auto_activate sha256 o)
  unfolding auto_activate activate
  activate-Kept o = Moves-rescue (Kept-course (Gated id)) _ _ (
      Keeps-transaction (Gated id) _ (
        load id o _ _ (λ u. on (Gated id))
          λ row. guard-Loaded id o row _ _ _ _ λ inactive.
            guard-Loaded id o row _ _ _ _ λ open_status. guard-Loaded id o row _ _ _ _ λ gates.
              Yields-bind _ _ _ (λ h. on (Loaded id o row)) _
                (Yields-Kept (Loaded id o row) _ (keyset_hash-Loaded o row))
                λ h. guard-Loaded id o row _ _ _ _ λ seven.
                  guard-Loaded id o row _ _ _ _ λ same_hash.
                    Yields-bind _ _ _ (λ n. on (Gated id)) _
                      (Yields-update_operator (Loaded id o row) o _ (Gated id) (λ t p.
                        updated_Gated id o _ t (λ r. refl)
                          (λ r f i g. activated o row r t p gates f i) p.0))
                      λ n. Yields-Kept (Gated id) _ (affected-Kept id n)))
