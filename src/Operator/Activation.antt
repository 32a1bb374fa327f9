-- ===== src/Operator/Activation.antt =====
-- The gates of internal/operator/repository.go from a keyset to an active operator: registering the
-- keys, the conformance pass that is bound to them, and the activation that checks both.
pub mod Binds
use so_ho_link.Base.{
  ℕ, zero, suc, ◌+◌, String, ℤ, pos, negsuc, pos_part, Bool, true, false, not, ◌&&◌, ◌||◌, Option,
  none, some, List, [], ◌∷◌, ◌==◌, text_equality, bytes_equality, number_equality, if◌then◌else◌,
  length, select, map, nat_same, ltb, ltb_ℤ, leb,
}
use so_ho_link.Store.Sql.{
  Error, unique_violation, database, operator_not_found, keyset_count_mismatch,
  activation_preconditions, keyset_hash_mismatch, operator_active, bad_threshold, Result, ok, err,
  M, pure, fail, gets, ◌>>=◌, ◌>>◌, guard, require, transaction, rescue, first_where, count_where,
}
use so_ho_link.Operator.{key_index_count}
use so_ho_link.Operator.Tables.{
  OperatorTables, OperatorRow, OperatorKeyRow, OperatorStatus, OnboardingState, KeyState,
  status_equality, onboarding_equality, key_state_equality,
}
use so_ho_link.Operator.Sql.{statement, select_from, select_operator, update_operator, update_keys}
use so_ho_link.Operator.Keyset.{hash_sorted_pubkeys, compare_bytes}
use so_ho_link.Operator.Accounts.{is_active_of, require_affected}

abbrev pub public_keys : List OperatorKeyRow → List (List ℕ)
public_keys [] = []
public_keys (k ∷ ks) = k.public_key ∷ public_keys ks

abbrev pub active_keys : String → OperatorTables → List OperatorKeyRow
active_keys id t = select (is_active_of id) t.keys

abbrev pub is_some : Option ℕ → Bool
is_some none = false
is_some (some a) = true

-- A NULL hash reads as the empty byte string.
abbrev pub hash_bytes : Option (List ℕ) → List ℕ
hash_bytes none = []
hash_bytes (some h) = h

abbrev pub passed_gates : OperatorRow → Bool
passed_gates o =
    o.email_verified
    && is_some o.conformance_passed_at
    && not (length (hash_bytes o.conformance_keyset_hash) == 0)

abbrev pub compares_equal : ℤ → Bool
compares_equal (pos zero) = true
compares_equal (pos (suc n)) = false
compares_equal (negsuc n) = false

abbrev pub ignore_active : Result (Unit {0}) → Result (Unit {0})
ignore_active (err operator_active) = ok tt
ignore_active r = r

-- `sha256` is the hash of the standard library.
module _ (sha256 : List ℕ → List ℕ) where
  -- The hash of the active keys, and their number.
  unfoldable pub active_keyset_hash : String → M (List ℕ × ℕ)
  active_keyset_hash id = do
    rows ← select_from (active_keys id)
    pure (hash_sorted_pubkeys sha256 (public_keys rows), length rows)

  unfoldable pub mark_conformance_passed : String → M (Unit {0})
  unfolding active_keyset_hash
  mark_conformance_passed id = transaction do
    keyset ← active_keyset_hash id
    guard (keyset.1 == key_index_count) keyset_count_mismatch
    now ← gets (λ w. w.now)
    affected ← update_operator id (λ o. record o {
      conformance_passed_at = some now;
      conformance_keyset_hash = some keyset.0;
    })
    require_affected affected

  unfoldable pub activate : String → M (Unit {0})
  unfolding active_keyset_hash
  activate id = transaction do
    found ← select_operator id
    o ← require found operator_not_found
    guard (not (o.onboarding_state == OnboardingState.active)) operator_active
    guard (o.status == OperatorStatus.active) activation_preconditions
    guard (passed_gates o) activation_preconditions
    keyset ← active_keyset_hash id
    guard (keyset.1 == key_index_count) keyset_count_mismatch
    guard (compares_equal (compare_bytes keyset.0 (hash_bytes o.conformance_keyset_hash)))
        keyset_hash_mismatch
    affected ← update_operator id (λ o. record o { onboarding_state = OnboardingState.active })
    require_affected affected

  -- An operator that is active already ends the transaction by its rollback, and without an error.
  unfoldable pub auto_activate : String → M (Unit {0})
  auto_activate id = rescue ignore_active (activate id)

abbrev pub holds_index : String → ℕ → OperatorKeyRow → Bool
holds_index id index k = k.operator_id == id && k.key_index == index && k.state == KeyState.active

abbrev pub new_key : String → ℕ → List ℕ → String → ℕ → OperatorKeyRow
new_key id index public_key algo threshold = record {
  operator_id = id;
  key_index = index;
  public_key = public_key;
  algo = algo;
  state = KeyState.active;
  usage_count = 0;
  expiration_threshold = threshold;
}

-- Does the row answer the CHECK on the index, and the reference to its operator?
abbrev pub is_valid_key : OperatorKeyRow → OperatorTables → Bool
is_valid_key row t =
    not (nat_same (count_where (λ o. o.id == row.operator_id) t.operators) 0)
    && not (leb key_index_count row.key_index)

abbrev pub put_key :
    Bool → Bool → OperatorKeyRow → OperatorTables → Result (Unit {0}) × OperatorTables
put_key valid true row t = (err unique_violation, t)
put_key false false row t = (err database, t)
put_key true false row t = (ok tt, record t { keys = row ∷ t.keys })

-- INSERT INTO operator_keys of an active key, where no active key stands at the index yet.
unfoldable pub insert_key_row : OperatorKeyRow → M (Unit {0})
unfolding statement
insert_key_row row = statement λ t.
    put_key (is_valid_key row t)
      (not (nat_same (count_where (holds_index row.operator_id row.key_index) t.keys) 0)) row t

-- The loop of AddKeys from `index` on.
unfoldable pub add_key_rows : String → String → ℕ → List (List ℕ) → List ℤ → M (Unit {0})
add_key_rows id algo index (p ∷ ps) (threshold ∷ thresholds) = do
  guard (ltb_ℤ (pos 0) threshold) bad_threshold
  insert_key_row (new_key id index p algo (pos_part threshold))
  add_key_rows id algo (index + 1) ps thresholds
add_key_rows id algo index [] thresholds = pure tt
add_key_rows id algo index (p ∷ ps) [] = pure tt

unfoldable pub add_keys : String → List (List ℕ) → String → List ℤ → M (Unit {0})
add_keys id pubkeys algo thresholds = do
  guard (length pubkeys == key_index_count && length thresholds == key_index_count)
      keyset_count_mismatch
  transaction do
    found ← select_operator id
    o ← require found operator_not_found
    guard (not (o.onboarding_state == OnboardingState.active)) operator_active
    statement (λ t. (ok tt, record t { keys = select (λ k. not (k.operator_id == id)) t.keys }))
    _ ←
        update_operator id
          (λ o. record o { conformance_passed_at = none; conformance_keyset_hash = none })
    add_key_rows id algo 0 pubkeys thresholds
