-- ===== src/Operator/Lifecycle/Revoked.antt =====
-- A revoked operator never authenticates again.
use so_ho_link.Base.{
  ℕ, ◌≤◌, ◌≡◌, ◌∙◌, refl, sym, String, Bool, List, [], ◌∷◌, ◌==◌, text_equality, bytes_equality,
  number_equality, arith,
}
use so_ho_link.Store.{World}
use so_ho_link.Store.Sql.{ok, update_where, count_where}
use so_ho_link.Store.Returns.{
  Yields, Yields-bind, Yields-guard, Yields-transaction, Yields-imply, ok_same,
}
use so_ho_link.Store.Rows.{count_where-update_where}
use so_ho_link.Store.Counts.{count_where_mono}
use so_ho_link.Operator.Tables.{OperatorRow, status_equality}
use so_ho_link.Operator.Sql.{update_operator}
use so_ho_link.Operator.Holds.{on, Yields-Kept, Yields-statement}
use so_ho_link.Operator.Accounts.{
  KeyMap, require_affected, revoke, disconnect, revoked, get_active_key_map, admits_operator,
}
use so_ho_link.Operator.Rotation.{OperatorRotation}
use so_ho_link.Operator.Lifecycle.{
  Step, Reach, here, next, create, verify_email, pass, activate as activated, register, sign,
  rotate, revoke_operator, disconnect_operator, transmit, issue_code, check_code, publish,
  start_run, grade_a, grade_b, grade_c, finalize,
}
use so_ho_link.Operator.Tables.{suite_a, suite_b}
use so_ho_link.Operator.Conformance.{Library}
use so_ho_link.Operator.Conformance.Grading.{
  suite_a_grader, suite_b_grader, grade_suite_a, grade_suite_b,
}
use so_ho_link.Operator.Lifecycle.Conforming.{
  start-Kept, grade-Kept, grade_c-Kept, insert-Kept, consume-Kept,
}
use so_ho_link.Operator.Lifecycle.Untouched.{transmit-Kept, issue-Kept, check-Kept, publish-Kept}
use so_ho_link.Operator.Lifecycle.Keys.{keys-Kept, sign-Kept, rotate-Kept}
use so_ho_link.Operator.Lifecycle.Authority.{admitted}
use so_ho_link.Operator.Lifecycle.Shut.{
  is_open, ShutAt, Shut, never_open, create-Kept, email-Kept, verified-Kept, pass-Kept,
  activate-Kept, add_keys-Kept, revoke-Kept, disconnect-Kept, final-Kept,
}

module _ (sha256 : List ℕ → List ℕ) (verify : OperatorRotation → KeyMap → Bool) (lib : Library)
    (id : String) where
  Step-Shut :
      {w v : World} → Step sha256 verify lib w v → Shut id w.db.registered → Shut id v.db.registered
  unfolding grade_suite_a grade_suite_b
  Step-Shut (create o name email phone w) = ((create-Kept id o name email phone).at w).keep
  Step-Shut (verify_email o w) = ((email-Kept id o).at w).keep
  Step-Shut (pass o w) = ((pass-Kept id sha256 o).at w).keep
  Step-Shut (activated o w) = ((activate-Kept id sha256 o).at w).keep
  Step-Shut (register o ps algo ths w) = ((add_keys-Kept id o ps algo ths).at w).keep
  Step-Shut (sign o i j w) = ((sign-Kept (λ os cs. ShutAt id os) o i j).at w).keep
  Step-Shut (rotate rot th w) = ((rotate-Kept (λ os cs. ShutAt id os) verify rot th).at w).keep
  Step-Shut (revoke_operator o w) = ((revoke-Kept id o).at w).keep
  Step-Shut (disconnect_operator o w) = ((disconnect-Kept id o).at w).keep
  Step-Shut (transmit o c seq nonce scope expiry w) =
      ((transmit-Kept (λ os ks cs. ShutAt id os) o c seq nonce scope expiry).at w).keep
  Step-Shut (issue_code drawn o session w) =
      ((issue-Kept (λ os ks cs. ShutAt id os) drawn o session).at w).keep
  Step-Shut (check_code o session code w) =
      ((check-Kept (λ os ks cs. ShutAt id os) (verified-Kept id) o session code).at w).keep
  Step-Shut (publish decl w) = ((publish-Kept (λ os ks cs. ShutAt id os) decl).at w).keep
  Step-Shut (start_run run o a b w) =
      ((start-Kept (λ os ks cs. ShutAt id os) (insert-Kept (λ os ks. ShutAt id os)) lib run o a
          b).at
        w).keep
  Step-Shut (grade_a o run resp w) =
      ((grade-Kept (λ os ks cs. ShutAt id os) (consume-Kept (λ os ks. ShutAt id os)) o run
          resp.challenge_id suite_a (suite_a_grader lib o resp)).at
        w).keep
  Step-Shut (grade_b o run resp w) =
      ((grade-Kept (λ os ks cs. ShutAt id os) (consume-Kept (λ os ks. ShutAt id os)) o run
          resp.challenge_id suite_b (suite_b_grader lib o resp)).at
        w).keep
  Step-Shut (grade_c o run draw w) =
      ((grade_c-Kept (λ os ks cs. ShutAt id os) (insert-Kept (λ os ks. ShutAt id os)) o run draw).at
        w).keep
  Step-Shut (finalize o run w) = ((final-Kept id sha256 o run).at w).keep

  Reach-Shut :
      {w v : World}
      → Reach sha256 verify lib w v
      → Shut id w.db.registered
      → Shut id v.db.registered
  Reach-Shut here h = h
  Reach-Shut (next r s) h = Step-Shut s (Reach-Shut r h)

revoked_rows :
    (id : String) (os : List OperatorRow)
    → count_where (is_open id) (update_where (λ o. o.id == id) revoked os) ≡ 0
revoked_rows id [] = refl
revoked_rows id (o ∷ os) = ground (arith, revoked_rows id os, never_open id o)

revoke_operator-Shut :
    (id : String)
    → Yields (on (λ t. Unit)) (update_operator id revoked) (λ n. on (λ t.
      (count_where (is_open id) t.operators ≡ 0) × (n ≡ count_where (λ o. o.id == id) t.operators)))
unfolding update_operator
revoke_operator-Shut id = Yields-statement _ _ _ (λ t n p h. (
  revoked_rows id t.operators,
  sym (ok_same h)
      ∙ sym (
          count_where-update_where (λ o. o.id == id) (λ o. o.id == id) revoked t.operators
            (λ r. refl)),
))

affected-Shut :
    (id : String) (n : ℕ)
    → Yields
        (on (λ t.
          (count_where (is_open id) t.operators ≡ 0)
          × (n ≡ count_where (λ o. o.id == id) t.operators)))
        (require_affected n)
        (λ u. on (Shut id))
unfolding require_affected
affected-Shut id n =
    Yields-imply _ _ _ _ (Yields-guard _ _ _) (λ u d r p. (p.0.0, ground (arith, p.0.1, p.1)))

revoke-Shut : (id : String) → Yields (on (λ t. Unit)) (revoke id) (λ u. on (Shut id))
unfolding revoke
revoke-Shut id = Yields-bind _ _ _ _ _ (revoke_operator-Shut id) (affected-Shut id)

disconnect-Shut : (id : String) → Yields (on (λ t. Unit)) (disconnect id) (λ u. on (Shut id))
unfolding disconnect
disconnect-Shut id = Yields-transaction _ _ _ (
    Yields-bind _ _ _ _ _ (revoke_operator-Shut id) λ n.
      Yields-bind _ _ _ _ _ (affected-Shut id n)
        λ u. Yields-Kept (Shut id) _ (keys-Kept (λ os cs. ShutAt id os) _ _))

shut_le :
    (id : String) (os : List OperatorRow)
    → count_where (admits_operator id) os ≤ count_where (is_open id) os
shut_le id os = count_where_mono (admits_operator id) (is_open id) os (λ o h. ground arith)

no_keys :
    (id : String) (w : World) (km : KeyMap)
    → Shut id w.db.registered
    → (get_active_key_map id w).0 ≡ ok km
    → km ≡ []
no_keys id w [] h e = refl
no_keys id w (k ∷ km) h e =
    absurd (omega (arith, admitted id w e, shut_le id w.db.registered.operators, h.0))

module _ (sha256 : List ℕ → List ℕ) (verify : OperatorRotation → KeyMap → Bool) (lib : Library)
    (id : String) where
  -- After Revoke has returned, and any operations of the registry after it, a lookup of the operator's
  -- keys that returns gives none.
  pub revoke-final :
      (w : World) {v : World} {u : Unit {0}} {km : KeyMap}
      → (revoke id w).0 ≡ ok u
      → Reach sha256 verify lib (revoke id w).1 v
      → (get_active_key_map id v).0 ≡ ok km
      → km ≡ []
  revoke-final w {v} {u} {km} h reached e =
      no_keys id v km (Reach-Shut sha256 verify lib id reached ((revoke-Shut id).at w tt h)) e

  -- The same of Disconnect.
  pub disconnect-final :
      (w : World) {v : World} {u : Unit {0}} {km : KeyMap}
      → (disconnect id w).0 ≡ ok u
      → Reach sha256 verify lib (disconnect id w).1 v
      → (get_active_key_map id v).0 ≡ ok km
      → km ≡ []
  disconnect-final w {v} {u} {km} h reached e =
      no_keys id v km (Reach-Shut sha256 verify lib id reached ((disconnect-Shut id).at w tt h)) e
