-- ===== src/Operator/Rotation/Replaced.antt =====
-- The signed replacement of one key (RegisterReplacementKey): the old key is retired, and the new
-- one stands in its place.
use so_ho_link.Base.{
  ℕ, ◌+◌, ◌≡◌, refl, String, pos, Bool, true, false, not, ◌&&◌, some, List, [], ◌∷◌, ◌==◌, ◌<◌, ◌≤◌,
  text_equality, number_equality, nat_same, select, ltb_ℤ, leb, arith,
}
use so_ho_link.Store.{World}
use so_ho_link.Store.Sql.{
  ok, pure, ◌>>=◌, guard, transaction, first_where, update_where, count_where,
}
use so_ho_link.Store.Counts.{count_where-taken, count_where-found}
use so_ho_link.Operator.Tables.{
  OperatorTables, OperatorRow, OperatorKeyRow, KeyState, key_state_equality, key_state_discrete,
}
use so_ho_link.Operator.Sql.{statement, select_from, update_keys}
use so_ho_link.Operator.Accounts.{KeyMap, with_state}
use so_ho_link.Operator.Activation.{holds_index, active_keys, insert_key_row, new_key}
use so_ho_link.Operator.Rotation.{
  OperatorRotation, as_key_map, active_key_map_tx, register_replacement_key,
}

one_found : (n : ℕ) → 1 ≤ n → nat_same n 0 ≡ false
one_found n h = ground arith

module _ (id : String) (index : ℕ) where
  abbrev pub stands_at : OperatorKeyRow → Bool
  stands_at k = k.operator_id == id && k.key_index == index

  abbrev pub is_retired_at : OperatorKeyRow → Bool
  is_retired_at k = stands_at k && k.state == KeyState.retired

  abbrev retired : List OperatorKeyRow → List OperatorKeyRow
  retired ks = update_where (holds_index id index) (with_state KeyState.retired) ks

  retired_off : (k : OperatorKeyRow) → holds_index id index (with_state KeyState.retired k) ≡ false
  unfolding key_state_discrete
  retired_off k = ground arith

  -- After the retirement no active key stands at the index.
  none_left : (ks : List OperatorKeyRow) → count_where (holds_index id index) (retired ks) ≡ 0
  none_left ks = omega (
    arith,
    count_where-taken (holds_index id index) (holds_index id index) (with_state KeyState.retired) ks
        (λ k h. h) retired_off,
  )

  retired_more :
      (ks : List OperatorKeyRow)
      → count_where is_retired_at (retired ks)
        ≡ count_where is_retired_at ks + count_where (holds_index id index) ks
  unfolding key_state_discrete
  retired_more [] = refl
  retired_more (k ∷ ks) = ground (arith, retired_more ks)

  retired_elsewhere :
      (ks : List OperatorKeyRow)
      → select (λ k. not (stands_at k)) (retired ks) ≡ select (λ k. not (stands_at k)) ks
  retired_elsewhere [] = refl
  retired_elsewhere (k ∷ ks) = ground (arith, retired_elsewhere ks)

-- The new key alone is active at the index, unused; the keys that were active there are kept as
-- retired; and every key of another operator or index is as it was.
pub record Replaced (rot : OperatorRotation) (th : ℕ) (before after : OperatorTables) : Type 0 where
  pub active :
      first_where (holds_index rot.operator_id rot.key_index) after.keys
      ≡ some (record {
        operator_id = rot.operator_id;
        key_index = rot.key_index;
        public_key = rot.new_public_key;
        algo = rot.algo;
        state = KeyState.active;
        usage_count = 0;
        expiration_threshold = th;
      })
  pub only : count_where (holds_index rot.operator_id rot.key_index) after.keys ≡ 1
  pub history :
      count_where (is_retired_at rot.operator_id rot.key_index) after.keys
      ≡ count_where (is_retired_at rot.operator_id rot.key_index) before.keys
        + count_where (holds_index rot.operator_id rot.key_index) before.keys
  pub elsewhere :
      select (λ k. not (stands_at rot.operator_id rot.key_index k)) after.keys
      ≡ select (λ k. not (stands_at rot.operator_id rot.key_index k)) before.keys

retired-Replaced :
    (rot : OperatorRotation) (th : ℕ) (t : OperatorTables)
    → Replaced rot th t (record t {
      keys =
          new_key rot.operator_id rot.key_index rot.new_public_key rot.algo th
          ∷ retired rot.operator_id rot.key_index t.keys;
    })
unfolding key_state_discrete
retired-Replaced rot th t =
    let id = rot.operator_id in
    let index = rot.key_index in
    let here : (id == id) ≡ true = (text_equality.same_iff id id).1 refl in
    let there : (index == index) ≡ true = (number_equality.same_iff index index).1 refl in
    record {
      active = rw (here, there) refl;
      only = rw (here, there, none_left id index t.keys) refl;
      history = rw (here, there) (retired_more id index t.keys);
      elsewhere = rw (here, there) (retired_elsewhere id index t.keys);
    }

-- Where no statement fails, the threshold is positive, the protocol library accepts the rotation
-- under the operator's active keys, the operator has a row and the index is one of the seven,
-- RegisterReplacementKey returns without an error, however many keys were active at the index, and
-- has replaced the key: the new key alone is active at the index, unused; the keys that were active
-- there are kept as retired; and every key of another operator or index is as it was.
pub register_replacement_key-Replaced :
    (verify : OperatorRotation → KeyMap → Bool) (rot : OperatorRotation) (th : ℕ) (w : World)
    {o : OperatorRow}
    → 0 < th
    → verify rot (as_key_map (active_keys rot.operator_id w.db.registered) []) ≡ true
    → first_where (λ r. r.id == rot.operator_id) w.db.registered.operators ≡ some o
    → rot.key_index < 7
    → let run = register_replacement_key verify rot (pos th) (record w { faults = [] }) in
      (run.0 ≡ ok tt) × Replaced rot th w.db.registered run.1.db.registered
unfolding register_replacement_key active_key_map_tx select_from statement update_keys
    insert_key_row ◌>>=◌ guard transaction pure
register_replacement_key-Replaced verify rot th w {o} positive accepted found seven =
    let ks = w.db.registered.keys in
    let above : ltb_ℤ (pos 0) (pos th) ≡ true = ground arith in
    let fits : leb 7 rot.key_index ≡ false = ground arith in
    let os = w.db.registered.operators in
    let there : nat_same (count_where (λ r. r.id == rot.operator_id) os) 0 ≡ false =
      one_found _ (count_where-found (λ r. r.id == rot.operator_id) os found) in
    rw (above, accepted, fits, there, none_left rot.operator_id rot.key_index ks)
      (refl, retired-Replaced rot th w.db.registered)
