-- ===== src/Operator/Lifecycle/Authority.antt =====
-- Who authenticates: an operator behind both gates that nobody has revoked.
use so_ho_link.Base.{
  ℕ, zero, suc, ◌≤◌, ◌≡◌, refl, sym, ap, subst, String, ℤ, Bool, true, not, ◌||◌, none, some, List,
  [], ◌∷◌, ◌==◌, text_equality, bytes_equality, number_equality, if◌then◌else◌, nat_same, length,
  arith, eq_of_same,
}
use so_ho_link.Store.{World}
use so_ho_link.Store.Sql.{ok, first_where, count_where}
use so_ho_link.Store.Effects.{Moves, Moves-bind, Moves-guard, Moves-pure}
use so_ho_link.Store.Returns.{SameTables, tables_course, Yields, Yields-bind, Yields-pure}
use so_ho_link.Store.Rows.{first_where-test}
use so_ho_link.Store.Counts.{count_where-none, count_where-some, first_where-only}
use so_ho_link.Operator.Tables.{
  OperatorTables, OperatorRow, OperatorKeyRow, OperatorStatus, OnboardingState, onboarding_equality,
  status_equality,
}
use so_ho_link.Operator.Holds.{
  on, select_from-SameTables, Kept, Kept-course, Keeps-statement, Keeps-transaction, Yields-Kept,
  Yields-update_operator, Yields-select_from,
}
use so_ho_link.Operator.Accounts.{
  KeyMap, KeyRecord, admits_operator, gated_keys, get_active_key_map, map_or_empty, pin_rows,
}
use so_ho_link.Operator.Activation.{passed_gates, add_keys}
use so_ho_link.Operator.Rotation.{OperatorRotation}
use so_ho_link.Operator.Lifecycle.{
  Step, Reach, here, next, create, verify_email, pass, activate, register, sign, rotate,
  revoke_operator, disconnect_operator, transmit, issue_code, check_code, publish, start_run,
  grade_a, grade_b, grade_c, finalize,
}
use so_ho_link.Operator.Tables.{suite_a, suite_b}
use so_ho_link.Operator.Conformance.{Library}
use so_ho_link.Operator.Conformance.Grading.{
  suite_a_grader, suite_b_grader, grade_suite_a, grade_suite_b,
}
use so_ho_link.Operator.Lifecycle.Conforming.{
  start-Kept, grade-Kept, grade_c-Kept, insert-Kept, consume-Kept,
}
use so_ho_link.Operator.Lifecycle.Untouched.{transmit-Kept, issue-Kept, check-Kept, publish-Kept}
use so_ho_link.Operator.Lifecycle.Gates.{
  is_gated, GatedRow, GatedAt, Gated, updated_Gated, create-Kept, email-Kept, verified-Kept,
  revoke-Kept, disconnect-Kept,
}
use so_ho_link.Operator.Lifecycle.Keys.{add_rows-Kept, sign-Kept, rotate-Kept}
use so_ho_link.Operator.Lifecycle.Passes.{
  Loaded, Loaded-row, load, guard-Loaded, pass-Kept, activate-Kept, final-Kept,
}

or_left : {a : Bool} (b : Bool) → a ≡ true → (a || b) ≡ true
or_left b h = ground arith

module _ (id : String) where
  cleared :
      (o : String) (row r : OperatorRow) (t : OperatorTables)
      → Loaded id o row t
      → not (row.onboarding_state == OnboardingState.active) ≡ true
      → first_where (λ s. s.id == id) t.operators ≡ some r
      → r.id ≡ o
      → is_gated (record r { conformance_passed_at = none; conformance_keyset_hash = none }) ≡ true
  cleared o row r t h g f at_o =
      subst
        (λ x.
          is_gated (record x { conformance_passed_at = none; conformance_keyset_hash = none })
          ≡ true)
        (Loaded-row id o row r t h f at_o) (or_left _ g)

  add_keys-Kept :
      (o : String) (ps : List (List ℕ)) (algo : String) (ths : List ℤ)
      → Moves (Kept (Gated id)) (add_keys o ps algo ths)
  unfolding add_keys
  add_keys-Kept o ps algo ths =
      Moves-bind (Kept-course (Gated id)) _ _ (Moves-guard (Kept-course (Gated id)) _ _) λ u.
        Keeps-transaction (Gated id) _ (
          load id o _ _ (λ u. on (Gated id))
            λ row. guard-Loaded id o row _ _ _ _ λ inactive.
              Yields-bind _ _ _ (λ u. on (Loaded id o row)) _
                (Yields-Kept (Loaded id o row) _ (Keeps-statement (Loaded id o row) _ (λ t h. h)))
                λ v.
                  Yields-bind _ _ _ (λ n. on (Gated id)) _
                    (Yields-update_operator (Loaded id o row) o _ (Gated id) (λ t p.
                      updated_Gated id o _ t (λ r. refl)
                        (λ r f i g. cleared o row r t p inactive f i) p.0))
                    λ n.
                      Yields-Kept (Gated id) _
                        (add_rows-Kept (λ os cs. GatedAt id os) o algo 0 ps ths))

cons_nil : {A : Type 0} {a : A} {rest : List A} → a ∷ rest ≡ [] → ⊥
cons_nil h = cc

key_map_of :
    (id : String)
    → Yields
        (on (λ t. Unit))
        (get_active_key_map id)
        (λ km. on (λ t. km ≡ map_or_empty (pin_rows "" [] (gated_keys id t))))
unfolding get_active_key_map
key_map_of id = Yields-bind _ _ _ _ _ (Yields-select_from (λ t. Unit) (gated_keys id)) λ rows.
    Yields-pure _ (λ km. on (λ t. km ≡ map_or_empty (pin_rows "" [] (gated_keys id t)))) _
      (λ d r p. ap (λ rs. map_or_empty (pin_rows "" [] rs)) p.1)

no_rows :
    (n : ℕ) (rows : List OperatorKeyRow) {k : ℕ × KeyRecord} {km : KeyMap}
    → k ∷ km ≡ map_or_empty (pin_rows "" [] (if nat_same n 0 then [] else rows))
    → 1 ≤ n
unfolding pin_rows
no_rows zero rows h = absurd (cons_nil h)
no_rows (suc n) rows h = omega arith

-- A lookup changes no row.
key_map_reads : (id : String) (w : World) → (get_active_key_map id w).1.db ≡ w.db
unfolding get_active_key_map
key_map_reads id w =
    let reads : Moves SameTables (get_active_key_map id) =
      Moves-bind tables_course _ _ (select_from-SameTables (gated_keys id))
        (λ rows. Moves-pure tables_course _) in
    (reads.at w).db

-- An operator that has keys to authenticate with has a row that admits it.
pub admitted :
    (id : String) (w : World) {k : ℕ × KeyRecord} {km : KeyMap}
    → (get_active_key_map id w).0 ≡ ok (k ∷ km)
    → 1 ≤ count_where (admits_operator id) w.db.registered.operators
admitted id w {k} {km} h = no_rows _ _ (
    subst (λ d. (k ∷ km) ≡ map_or_empty (pin_rows "" [] (gated_keys id d.registered)))
      (key_map_reads id w) ((key_map_of id).at w tt h))

admits_id : (id : String) (o : OperatorRow) → admits_operator id o ≡ true → (o.id == id) ≡ true
admits_id id o h = ground arith

admits_parts :
    (id : String) (o : OperatorRow)
    → admits_operator id o ≡ true
    → is_gated o ≡ true
    → (o.status ≡ OperatorStatus.active)
      × (o.onboarding_state ≡ OnboardingState.active)
      × (passed_gates o ≡ true)
admits_parts id o h g =
    let at_status : (o.status == OperatorStatus.active) ≡ true = ground arith in
    let at_state : (o.onboarding_state == OnboardingState.active) ≡ true = ground arith in
    (eq_of_same at_status, eq_of_same at_state, ground arith)

module _ (sha256 : List ℕ → List ℕ) (size : (b : List ℕ) → length (sha256 b) ≡ 32)
    (verify : OperatorRotation → KeyMap → Bool) (lib : Library) (id : String) where
  Step-Gated :
      {w v : World}
      → Step sha256 verify lib w v
      → Gated id w.db.registered
      → Gated id v.db.registered
  unfolding grade_suite_a grade_suite_b
  Step-Gated (create o name email phone w) = ((create-Kept id o name email phone).at w).keep
  Step-Gated (verify_email o w) = ((email-Kept id o).at w).keep
  Step-Gated (pass o w) = ((pass-Kept sha256 size id o).at w).keep
  Step-Gated (activate o w) = ((activate-Kept sha256 size id o).at w).keep
  Step-Gated (register o ps algo ths w) = ((add_keys-Kept id o ps algo ths).at w).keep
  Step-Gated (sign o i j w) = ((sign-Kept (λ os cs. GatedAt id os) o i j).at w).keep
  Step-Gated (rotate rot th w) = ((rotate-Kept (λ os cs. GatedAt id os) verify rot th).at w).keep
  Step-Gated (revoke_operator o w) = ((revoke-Kept id o).at w).keep
  Step-Gated (disconnect_operator o w) = ((disconnect-Kept id o).at w).keep
  Step-Gated (transmit o c seq nonce scope expiry w) =
      ((transmit-Kept (λ os ks cs. GatedAt id os) o c seq nonce scope expiry).at w).keep
  Step-Gated (issue_code drawn o session w) =
      ((issue-Kept (λ os ks cs. GatedAt id os) drawn o session).at w).keep
  Step-Gated (check_code o session code w) =
      ((check-Kept (λ os ks cs. GatedAt id os) (verified-Kept id) o session code).at w).keep
  Step-Gated (publish decl w) = ((publish-Kept (λ os ks cs. GatedAt id os) decl).at w).keep
  Step-Gated (start_run run o a b w) =
      ((start-Kept (λ os ks cs. GatedAt id os) (insert-Kept (λ os ks. GatedAt id os)) lib run o a
          b).at
        w).keep
  Step-Gated (grade_a o run resp w) =
      ((grade-Kept (λ os ks cs. GatedAt id os) (consume-Kept (λ os ks. GatedAt id os)) o run
          resp.challenge_id suite_a (suite_a_grader lib o resp)).at
        w).keep
  Step-Gated (grade_b o run resp w) =
      ((grade-Kept (λ os ks cs. GatedAt id os) (consume-Kept (λ os ks. GatedAt id os)) o run
          resp.challenge_id suite_b (suite_b_grader lib o resp)).at
        w).keep
  Step-Gated (grade_c o run draw w) =
      ((grade_c-Kept (λ os ks cs. GatedAt id os) (insert-Kept (λ os ks. GatedAt id os)) o run
          draw).at
        w).keep
  Step-Gated (finalize o run w) = ((final-Kept sha256 size id o run).at w).keep

  Reach-Gated :
      {w v : World}
      → Reach sha256 verify lib w v
      → Gated id w.db.registered
      → Gated id v.db.registered
  Reach-Gated here h = h
  Reach-Gated (next r s) h = Step-Gated s (Reach-Gated r h)

  -- Where the registry starts without an operator, and the hash has 32 bytes: if after any operations
  -- the operator has keys to authenticate with, then it has a row that is active in both senses, its
  -- e-mail address is verified, and it has a conformance pass with the hash of a keyset.
  pub get_active_key_map-gates :
      {w v : World} {k : ℕ × KeyRecord} {km : KeyMap}
      → count_where (λ o. o.id == id) w.db.registered.operators ≡ 0
      → Reach sha256 verify lib w v
      → (get_active_key_map id v).0 ≡ ok (k ∷ km)
      → (o : OperatorRow) × (first_where (λ r. r.id == id) v.db.registered.operators ≡ some o)
        × (o.status ≡ OperatorStatus.active)
        × (o.onboarding_state ≡ OnboardingState.active)
        × (passed_gates o ≡ true)
  get_active_key_map-gates {w} {v} start reached h =
      let os = v.db.registered.operators in
      let start_gated : Gated id w.db.registered = (
        omega arith,
        subst GatedRow (sym (count_where-none (λ o. o.id == id) w.db.registered.operators start))
            tt,
      ) in
      let (one, gated) = Reach-Gated reached start_gated in
      let (o, found) = count_where-some (admits_operator id) os (admitted id v h) in
      let only =
        first_where-only (admits_operator id) (λ r. r.id == id) os (admits_id id) one found in
      let (a, b, c) =
        admits_parts id o (first_where-test (admits_operator id) os found)
          (subst GatedRow only gated) in
      (o, only, a, b, c)
