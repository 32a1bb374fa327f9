-- ===== src/Operator/Rotation.antt =====
-- Keys in use (internal/operator/repository.go): counted expiry down to a floor, and the signed
-- replacement of one key.
pub mod Expiry
pub mod Floor
pub mod Replaced
use so_ho_link.Base.{
  ℕ, zero, suc, ◌+◌, ◌-◌, String, ℤ, pos, pos_part, Bool, true, false, not, ◌&&◌, ◌||◌, Option,
  none, some, List, [], ◌∷◌, ◌==◌, text_equality, number_equality, if◌then◌else◌, length, select,
  ltb, ltb_ℤ, leb,
}
use so_ho_link.Base.Assoc.{insert}
use so_ho_link.Store.Sql.{
  bad_threshold, rotation_refused, Result, ok, err, M, pure, ◌>>=◌, ◌>>◌, guard, transaction,
  first_where, update_where, count_where,
}
use so_ho_link.Operator.{min_active_keys}
use so_ho_link.Operator.Tables.{OperatorTables, OperatorKeyRow, KeyState, key_state_equality}
use so_ho_link.Operator.Sql.{statement, select_from, update_keys}
use so_ho_link.Operator.Accounts.{KeyMap, is_active_of, with_state}
use so_ho_link.Operator.Activation.{holds_index, active_keys, new_key, insert_key_row}

abbrev pub used : OperatorKeyRow → OperatorKeyRow
used k = record k { usage_count = k.usage_count + 1 }

-- UPDATE … SET usage_count = usage_count + 1 … RETURNING: the row as it is after.
unfoldable pub increment_usage : String → ℕ → M (Option OperatorKeyRow)
unfolding statement
increment_usage id index = statement λ t.
    let keys' = update_where (holds_index id index) used t.keys in
    (ok (first_where (holds_index id index) keys'), record t { keys = keys' })

-- The number of active keys that is left, and whether a swap is asked for.
abbrev pub UsageState : Type 0
UsageState = ℕ × Bool

unfoldable pub expire_above_floor : String → ℕ → ℕ → M UsageState
expire_above_floor id index active_count =
    if ltb min_active_keys active_count
    then (do
      update_keys (holds_index id index) (with_state KeyState.expired)
      pure (active_count - 1, true))
    else pure (active_count, true)

unfoldable pub judge_usage : String → ℕ → UsageState → Option OperatorKeyRow → M UsageState
judge_usage id index state none = pure state
judge_usage id index state (some k) =
    if leb k.expiration_threshold k.usage_count
    then expire_above_floor id index state.0
    else pure state

-- One round of the loop over the two indices.
unfoldable pub use_index : String → ℕ → UsageState → M UsageState
use_index id index state = do found ← increment_usage id index; judge_usage id index state found

unfoldable pub record_usage_and_expire : String → ℕ → ℕ → M Bool
record_usage_and_expire id index₀ index₁ = transaction do
  active_count ← select_from (λ t. count_where (is_active_of id) t.keys)
  first ← use_index id index₀ (active_count, false)
  second ← use_index id index₁ first
  pure second.1

-- A rotation, and what of it only the protocol library reads.
pub record OperatorRotation : Type 0 where
  pub operator_id : String
  pub key_index : ℕ
  pub new_public_key : List ℕ
  pub algo : String
  pub authorization : List ℕ

abbrev pub as_key_map : List OperatorKeyRow → KeyMap → KeyMap
as_key_map [] km = km
as_key_map (k ∷ ks) km =
    as_key_map ks (insert k.key_index (record { public_key = k.public_key; algo = k.algo }) km)

unfoldable pub active_key_map_tx : String → M KeyMap
active_key_map_tx id = do rows ← select_from (active_keys id); pure (as_key_map rows [])

-- `verify` is Verify of the protocol library: two current keys have signed the rotation.
unfoldable pub register_replacement_key :
    (OperatorRotation → KeyMap → Bool) → OperatorRotation → ℤ → M (Unit {0})
register_replacement_key verify rot threshold = do
  guard (ltb_ℤ (pos 0) threshold) bad_threshold
  transaction do
    km ← active_key_map_tx rot.operator_id
    guard (verify rot km) rotation_refused
    update_keys (holds_index rot.operator_id rot.key_index) (with_state KeyState.retired)
    insert_key_row
        (new_key rot.operator_id rot.key_index rot.new_public_key rot.algo (pos_part threshold))
