-- ===== src/Operator/Lifecycle/ActiveKeys.antt =====
-- Each operation keeps at most one active key at an index.
use native.Mathlib.Nat.{le_trans}
use so_ho_link.Base.{
  eq_of_same, ℕ, suc, ◌+◌, ◌≤◌, ◌≡◌, ◌≢◌, ◌∙◌, refl, sym, ap, inl, inr, String, ℤ, Bool, true,
  false, false≢true, not, Option, none, some, List, [], ◌∷◌, text_equality, number_equality,
  nat_same, arith, Bool-cases, select,
}
use so_ho_link.Store.Sql.{ok, count_where}
use so_ho_link.Store.Effects.{
  Moves, moves, Moves-transaction, Moves-rescue, Moves-bind, Moves-pure, Moves-guard,
}
use so_ho_link.Store.Rows.{count_where-update_where}
use so_ho_link.Store.Counts.{count_where-update-le, count_where-select-le}
use so_ho_link.Operator.Tables.{
  OperatorTables, OperatorRow, OperatorKeyRow, KeyState, key_state_equality, key_state_discrete,
}
use so_ho_link.Operator.Sql.{statement, select_operator, update_operator, update_keys}
use so_ho_link.Operator.Holds.{
  Yields-Kept, Kept, Kept-course, Keeps-statement, Keeps-select_from, Keeps-update_operator,
  Keeps-update_keys, Moves-on_violation,
}
use so_ho_link.Operator.Accounts.{
  KeyMap, with_state, put_operator, insert_operator, require_affected, create_operator,
  mark_email_verified, revoke, disconnect,
}
use so_ho_link.Operator.Activation.{
  holds_index, put_key, insert_key_row, add_key_rows, active_keyset_hash, mark_conformance_passed,
  activate, auto_activate, add_keys,
}
use so_ho_link.Operator.Rotation.{
  OperatorRotation, UsageState, used, increment_usage, expire_above_floor, judge_usage, use_index,
  record_usage_and_expire, active_key_map_tx, register_replacement_key,
}
use so_ho_link.Operator.Rotation.Expiry.{OneActive}
use so_ho_link.Operator.Conformance.Finalize.{mark_passed, finalize_run}
use so_ho_link.Operator.Lifecycle.Conforming.{update_run-Kept, finalize-Kept}

zero_of_not : (n : ℕ) → not (nat_same n 0) ≡ false → n ≡ 0
zero_of_not n h = ground arith

module _ (id : String) (index : ℕ) where
  abbrev One : OperatorTables → Type 0
  One = OneActive id index

  -- Statements that leave the keys alone.
  pub operator-Kept :
      (o : String) (change : OperatorRow → OperatorRow)
      → Moves (Kept One) (update_operator o change)
  operator-Kept o change = Keeps-update_operator One o change (λ t h. h)

  select-Kept : (o : String) → Moves (Kept One) (select_operator o)
  unfolding select_operator
  select-Kept o = Keeps-select_from One _

  affected-Kept : (n : ℕ) → Moves (Kept One) (require_affected n)
  unfolding require_affected
  affected-Kept n = search (Kept-course One, moves) depth 6

  put_operator-Kept :
      (b : Bool) (row : OperatorRow) (t : OperatorTables) → One t → One (put_operator b row t).1
  put_operator-Kept true row t h = h
  put_operator-Kept false row t h = h

  pub create-Kept :
      (o name : String) (email phone : List ℕ)
      → Moves (Kept One) (create_operator o name email phone)
  unfolding create_operator insert_operator
  create-Kept o name email phone =
      Moves-on_violation (Kept-course One) _ _
        (Keeps-statement One _ (λ t h. put_operator-Kept _ _ t h))

  pub revoke-Kept : (o : String) → Moves (Kept One) (revoke o)
  unfolding revoke
  revoke-Kept o = search (Kept-course One, moves, operator-Kept, affected-Kept) depth 8

  pub email-Kept : (o : String) → Moves (Kept One) (mark_email_verified o)
  unfolding mark_email_verified
  email-Kept o = search (Kept-course One, moves, operator-Kept, affected-Kept) depth 8

  keyset-Kept :
      (sha256 : List ℕ → List ℕ) (o : String) → Moves (Kept One) (active_keyset_hash sha256 o)
  unfolding active_keyset_hash
  keyset-Kept sha256 o = search (Kept-course One, moves, Keeps-select_from One) depth 8

  pub pass-Kept :
      (sha256 : List ℕ → List ℕ) (o : String) → Moves (Kept One) (mark_conformance_passed sha256 o)
  unfolding mark_conformance_passed
  pass-Kept sha256 o =
      Moves-transaction (Kept-course One) _
        (search (Kept-course One, moves, keyset-Kept sha256, operator-Kept, affected-Kept) depth 14)

  pub activate-Kept :
      (sha256 : List ℕ → List ℕ) (o : String) → Moves (Kept One) (auto_activate sha256 o)
  unfolding auto_activate activate
  activate-Kept sha256 o = Moves-rescue (Kept-course One) _ _ (
      Moves-transaction (Kept-course One) _ (
        search
          (Kept-course One, moves, keyset-Kept sha256, select-Kept, operator-Kept, affected-Kept)
          depth 20))

  -- A state other than active frees the index.
  taken_off :
      (s : KeyState) (k : OperatorKeyRow)
      → s ≢ KeyState.active
      → holds_index id index (with_state s k) ≡ false
  unfolding key_state_discrete
  taken_off s k h = ground arith

  off-Kept :
      (test : OperatorKeyRow → Bool) (s : KeyState)
      → s ≢ KeyState.active
      → Moves (Kept One) (update_keys test (with_state s))
  off-Kept test s off = Keeps-update_keys One test (with_state s) (λ t h.
      le_trans
        (count_where-update-le (holds_index id index) test (with_state s) t.keys
          (λ k e. absurd (false≢true (sym (taken_off s k off) ∙ e))))
        h)

  pub disconnect-Kept : (o : String) → Moves (Kept One) (disconnect o)
  unfolding disconnect
  disconnect-Kept o = Moves-transaction (Kept-course One) _ (
      Moves-bind (Kept-course One) _ _ (operator-Kept o _) λ n.
        Moves-bind (Kept-course One) _ _ (affected-Kept n)
          λ u. off-Kept _ KeyState.revoked (λ e. cc))

  free_index :
      (row : OperatorKeyRow) (t : OperatorTables)
      → not (nat_same (count_where (holds_index row.operator_id row.key_index) t.keys) 0) ≡ false
      → holds_index id index row ≡ true
      → suc (count_where (holds_index id index) t.keys) ≤ 1
  free_index row t free same =
      let at_id : row.operator_id ≡ id = eq_of_same (ground arith) in
      let at_index : row.key_index ≡ index = ground arith in
      let none_there : count_where (holds_index id index) t.keys ≡ 0 =
        ap (λ x. count_where (holds_index x index) t.keys) (sym at_id)
        ∙ ap (λ i. count_where (holds_index row.operator_id i) t.keys) (sym at_index)
        ∙ zero_of_not _ free in
      omega arith

  put_key-Kept :
      (valid taken : Bool) (row : OperatorKeyRow) (t : OperatorTables)
      → taken ≡ not (nat_same (count_where (holds_index row.operator_id row.key_index) t.keys) 0)
      → One t
      → One (put_key valid taken row t).1
  put_key-Kept valid true row t e h = h
  put_key-Kept false false row t e h = h
  put_key-Kept true false row t e h = elim (Bool-cases (holds_index id index row)) [
    | inl same ↦ rw same (free_index row t (sym e) same)
    | inr other ↦ rw other h
  ]

  insert_key-Kept : (row : OperatorKeyRow) → Moves (Kept One) (insert_key_row row)
  unfolding insert_key_row
  insert_key-Kept row = Keeps-statement One _ (λ t h. put_key-Kept _ _ row t refl h)

  add_rows-Kept :
      (o algo : String) (i : ℕ) (ps : List (List ℕ)) (ths : List ℤ)
      → Moves (Kept One) (add_key_rows o algo i ps ths)
  unfolding add_key_rows
  add_rows-Kept o algo i [] ths = Moves-pure (Kept-course One) tt
  add_rows-Kept o algo i (p ∷ ps) [] = Moves-pure (Kept-course One) tt
  add_rows-Kept o algo i (p ∷ ps) (th ∷ ths) =
      Moves-bind (Kept-course One) _ _ (Moves-guard (Kept-course One) _ _) λ u.
        Moves-bind (Kept-course One) _ _ (insert_key-Kept _)
          λ v. add_rows-Kept o algo (i + 1) ps ths

  clear-Kept :
      (keep : OperatorKeyRow → Bool)
      → Moves (Kept One) (statement (λ t. (ok tt, record t { keys = select keep t.keys })))
  clear-Kept keep =
      Keeps-statement One _
        (λ t h. le_trans (count_where-select-le (holds_index id index) keep t.keys) h)

  pub add_keys-Kept :
      (o : String) (ps : List (List ℕ)) (algo : String) (ths : List ℤ)
      → Moves (Kept One) (add_keys o ps algo ths)
  unfolding add_keys
  add_keys-Kept o ps algo ths =
      Moves-bind (Kept-course One) _ _ (Moves-guard (Kept-course One) _ _) λ u.
        Moves-transaction (Kept-course One) _ (
          search (Kept-course One, moves, select-Kept, operator-Kept, clear-Kept, add_rows-Kept)
            depth 16)

  used-Kept : (o : String) (i : ℕ) → Moves (Kept One) (increment_usage o i)
  unfolding increment_usage
  used-Kept o i = Keeps-statement One _ (λ t h.
      le_trans
        (omega (
          arith,
          count_where-update_where (holds_index id index) (holds_index o i) used t.keys (λ k. refl),
        ))
        h)

  expired-Kept :
      (o : String) (i : ℕ)
      → Moves (Kept One) (update_keys (holds_index o i) (with_state KeyState.expired))
  expired-Kept o i = off-Kept (holds_index o i) KeyState.expired (λ e. cc)

  retired-Kept :
      (o : String) (i : ℕ)
      → Moves (Kept One) (update_keys (holds_index o i) (with_state KeyState.retired))
  retired-Kept o i = off-Kept (holds_index o i) KeyState.retired (λ e. cc)

  expire-Kept : (o : String) (i n : ℕ) → Moves (Kept One) (expire_above_floor o i n)
  unfolding expire_above_floor
  expire-Kept o i n = search (Kept-course One, moves, expired-Kept) depth 8

  judge-Kept :
      (o : String) (i : ℕ) (s : UsageState) (k : Option OperatorKeyRow)
      → Moves (Kept One) (judge_usage o i s k)
  unfolding judge_usage
  judge-Kept o i s none = Moves-pure (Kept-course One) s
  judge-Kept o i s (some k) = search (Kept-course One, moves, expire-Kept) depth 6

  pub sign-Kept : (o : String) (i j : ℕ) → Moves (Kept One) (record_usage_and_expire o i j)
  unfolding record_usage_and_expire use_index
  sign-Kept o i j =
      Moves-transaction (Kept-course One) _
        (search (Kept-course One, moves, Keeps-select_from One, used-Kept, judge-Kept) depth 14)

  pub rotate-Kept :
      (verify : OperatorRotation → KeyMap → Bool) (rot : OperatorRotation) (th : ℤ)
      → Moves (Kept One) (register_replacement_key verify rot th)
  unfolding register_replacement_key active_key_map_tx
  rotate-Kept verify rot th =
      Moves-bind (Kept-course One) _ _ (Moves-guard (Kept-course One) _ _) λ u.
        Moves-transaction (Kept-course One) _ (
          search (Kept-course One, moves, Keeps-select_from One, insert_key-Kept, retired-Kept)
            depth 14)

  bind-Kept :
      (sha256 : List ℕ → List ℕ) (o run : String) → Moves (Kept One) (mark_passed sha256 o run)
  unfolding mark_passed
  bind-Kept sha256 o run =
      search
        (
          Kept-course One,
          moves,
          keyset-Kept sha256,
          update_run-Kept (λ os ks cs. count_where (holds_index id index) ks ≤ 1),
          operator-Kept,
        )
        depth 14

  pub final-Kept :
      (sha256 : List ℕ → List ℕ) (o run : String) → Moves (Kept One) (finalize_run sha256 o run)
  final-Kept sha256 o run =
      finalize-Kept (λ os ks cs. count_where (holds_index id index) ks ≤ 1) sha256
        (λ i r. Yields-Kept One _ (bind-Kept sha256 i r)) o run
