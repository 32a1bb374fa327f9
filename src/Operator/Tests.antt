-- ===== src/Operator/Tests.antt =====
-- The operator registry on small inputs, and its theorems at inputs that meet their hypotheses.
use mathlib.Core.List.Perm
use so_ho_link.Base.{trim_space, to_lower}
use Prim.Native.Nat.{min}
use so_ho_link.Base.{
  ℕ, ◌≤◌, ◌≡◌, refl, ℤ, pos, Bool, true, false, List, [], ◌∷◌, some, replicate, arith, ◌⊎◌, get_or,
  text_equality, ◌==◌,
}
use so_ho_link.Store.{World}
use so_ho_link.Store.Sql.{Result, ok, err, first_where, operator_active, ◌>>=◌}
use so_ho_link.Store.Atomic.{Atomic}
use so_ho_link.Operator.Tables.{
  OperatorRow, OperatorStatus, OnboardingState, NonceScope, status_discrete, onboarding_discrete,
  key_state_discrete, no_operators,
}
use so_ho_link.Operator.Accounts.{
  KeyMap, insert_operator, require_affected, pin_rows, create_operator, mark_email_verified, revoke,
  get_active_key_map, normalize_email,
}
use so_ho_link.Operator.Activation.{
  add_key_rows, insert_key_row, active_keyset_hash, add_keys, mark_conformance_passed, activate,
  auto_activate, passed_gates,
}
use so_ho_link.Operator.Activation.Binds.{IsBound, auto_activate-IsBound}
use so_ho_link.Operator.Keyset.{sort_keys, insert_key, compare_bytes, hash_sorted_pubkeys}
use so_ho_link.Operator.Keyset.Order.{hash_sorted_pubkeys-Perm}
use so_ho_link.Operator.Rotation.{
  OperatorRotation, use_index, increment_usage, judge_usage, expire_above_floor,
  record_usage_and_expire, register_replacement_key,
}
use so_ho_link.Operator.Rotation.Replaced.{Replaced, register_replacement_key-Replaced}
use so_ho_link.Operator.Rotation.Expiry.{active_count, OneActive}
use so_ho_link.Operator.Rotation.Floor.{Use, after_uses, record_usage_and_expire-floor}
use so_ho_link.Operator.Replay.{
  check_and_advance, insert_nonce, load_window, store_window, to_uint64, to_int64,
}
use so_ho_link.Operator.Window.{
  advance_window, judge_seq, get_bit, set_bit, shift_right, shift_loop, only_high,
}
use so_ho_link.Operator.Sql.{
  on_violation, statement, select_from, select_operator, update_operator, update_keys,
}
use so_ho_link.Operator.Replay.Spent.{check_and_advance-Atomic}
use so_ho_link.Operator.Replay.Accepts.{
  Call, run_call, InOrder, accepted_numbers, accepted_numbers-InOrder,
}
use so_ho_link.Operator.Replay.Nonces.{after_calls, run_call-no_replay}
use so_ho_link.Operator.Window.Refines.{run_window, run_window-run_set}
use so_ho_link.Operator.Conformance.{Library}
use so_ho_link.Operator.Lifecycle.{
  Reach, here, next, create, verify_email, pass, activate as activates, register,
}
use so_ho_link.Operator.Lifecycle.Unique.{Reach-OneActive}
use so_ho_link.Operator.Lifecycle.Authority.{get_active_key_map-gates}
use so_ho_link.Operator.Lifecycle.Revoked.{revoke-final}

abbrev pub world : World
world = record {
  db = record {
    jobs = [];
    registered = no_operators;
    declines = [];
    nodes = [];
    participants = [];
    printers = [];
    keys = [];
  };
  registry = [];
  soundings = [];
  metered = [];
  now = 1_000;
  faults = [];
}

run_window_example :
    run_window 0 (replicate 32 0) (5 ∷ 300 ∷ 5 ∷ 44 ∷ 45 ∷ 45 ∷ [])
    ≡ true ∷ true ∷ false ∷ false ∷ true ∷ false ∷ []
run_window_example = run_window-run_set (5 ∷ 300 ∷ 5 ∷ 44 ∷ 45 ∷ 45 ∷ [])

abbrev pub toy_hash : List ℕ → List ℕ
toy_hash b = get_or b 0 0 ∷ replicate 31 0

-- A protocol library that takes the nonce for the canonical bytes, and every signature for good.
abbrev pub toy_library : Library
toy_library = record {
  canonical_bytes = λ t. t.nonce;
  verify_transmission = λ t km. true;
  verify_response = λ c km. true;
  min_text = λ a b. a;
}

abbrev pub never : OperatorRotation → KeyMap → Bool
never rot km = false

hash_sorted_pubkeys-Perm_example :
    hash_sorted_pubkeys toy_hash ((2 ∷ []) ∷ (1 ∷ []) ∷ [])
    ≡ hash_sorted_pubkeys toy_hash ((1 ∷ []) ∷ (2 ∷ []) ∷ [])
hash_sorted_pubkeys-Perm_example =
    hash_sorted_pubkeys-Perm toy_hash ((2 ∷ []) ∷ (1 ∷ []) ∷ []) ((1 ∷ []) ∷ (2 ∷ []) ∷ [])
      (Perm.swap (1 ∷ []) (2 ∷ []) [])

abbrev call : ℕ → ℕ → Call
call seq nonce = record {
  operator = "cloudy";
  coordinator = "main";
  seq = seq;
  nonce = nonce ∷ [];
  scope = NonceScope.production;
  expiry = 2_000;
}

abbrev calls : List Call
calls = call 7 1 ∷ call 7 2 ∷ call 9 2 ∷ call 8 2 ∷ []

accepted_numbers-calls : accepted_numbers "cloudy" "main" calls [] world ≡ 9 ∷ 7 ∷ []
unfolding accepted_numbers check_and_advance insert_nonce load_window store_window on_violation
    to_uint64 to_int64 advance_window judge_seq get_bit set_bit shift_right shift_loop only_high
    ◌>>=◌
accepted_numbers-calls = refl

accepted_numbers-InOrder_example : InOrder (accepted_numbers "cloudy" "main" calls [] world)
accepted_numbers-InOrder_example =
    accepted_numbers-InOrder "cloudy" "main" calls world
      (omega arith, (omega arith, (omega arith, (omega arith, tt)))) refl

check_and_advance-Atomic_example :
    Atomic (check_and_advance "cloudy" "main" 7 (1 ∷ []) NonceScope.production 2_000)
check_and_advance-Atomic_example =
    check_and_advance-Atomic "cloudy" "main" 7 (1 ∷ []) NonceScope.production 2_000

run_call-no_replay_example :
    ¬ ((run_call (call 9 1) (after_calls (call 8 4 ∷ []) (run_call (call 7 1) world).1)).0 ≡ ok tt)
unfolding check_and_advance insert_nonce load_window store_window on_violation to_uint64 to_int64
    advance_window judge_seq get_bit set_bit shift_right shift_loop only_high ◌>>=◌
run_call-no_replay_example =
    run_call-no_replay (call 7 1) (call 9 1) (call 8 4 ∷ []) world {u = tt} {v = tt} refl refl

abbrev seven_keys : List (List ℕ)
seven_keys = (1 ∷ []) ∷ (2 ∷ []) ∷ (3 ∷ []) ∷ (4 ∷ []) ∷ (5 ∷ []) ∷ (6 ∷ []) ∷ (7 ∷ []) ∷ []

abbrev thresholds : List ℤ
thresholds = pos 1 ∷ pos 1 ∷ pos 1 ∷ pos 1 ∷ pos 1 ∷ pos 1 ∷ pos 1 ∷ []

-- Sign-up, the seven keys, and the two gates.
abbrev pub signed_up : World
signed_up = (create_operator "cloudy" "Cloudy" (32 ∷ 67 ∷ 64 ∷ 120 ∷ []) [] world).1

abbrev pub with_keys : World
with_keys = (add_keys "cloudy" seven_keys "ed25519" thresholds signed_up).1

abbrev with_email : World
with_email = (mark_email_verified "cloudy" with_keys).1

abbrev with_pass : World
with_pass = (mark_conformance_passed toy_hash "cloudy" with_email).1

abbrev opened : World
opened = (auto_activate toy_hash "cloudy" with_pass).1

reached : Reach toy_hash never toy_library world opened
reached =
    next
      (next
        (next
          (next (next here (create "cloudy" "Cloudy" (32 ∷ 67 ∷ 64 ∷ 120 ∷ []) [] world))
            (register "cloudy" seven_keys "ed25519" thresholds signed_up))
          (verify_email "cloudy" with_keys))
        (pass "cloudy" with_email))
      (activates "cloudy" with_pass)

get_active_key_map-gates_example :
    (o : OperatorRow) × (first_where (λ r. r.id == "cloudy") opened.db.registered.operators
      ≡ some o)
    × (o.status ≡ OperatorStatus.active)
    × (o.onboarding_state ≡ OnboardingState.active)
    × (passed_gates o ≡ true)
unfolding create_operator insert_operator normalize_email trim_space to_lower on_violation
    require_affected update_operator select_operator select_from statement add_keys add_key_rows
    insert_key_row mark_email_verified mark_conformance_passed active_keyset_hash auto_activate
    activate hash_sorted_pubkeys sort_keys insert_key compare_bytes get_active_key_map pin_rows
    status_discrete onboarding_discrete key_state_discrete ◌>>=◌
get_active_key_map-gates_example =
    get_active_key_map-gates toy_hash (λ b. refl) never toy_library "cloudy" {w = world}
      {v = opened} refl reached refl

auto_activate-IsBound_example :
    ((activate toy_hash "cloudy" with_pass).0 ≡ err operator_active)
    ⊎ ((o : OperatorRow) × IsBound toy_hash "cloudy" o opened.db.registered)
unfolding create_operator insert_operator normalize_email trim_space to_lower on_violation
    require_affected update_operator select_operator select_from statement add_keys add_key_rows
    insert_key_row mark_email_verified mark_conformance_passed active_keyset_hash auto_activate
    activate hash_sorted_pubkeys sort_keys insert_key compare_bytes status_discrete
    onboarding_discrete key_state_discrete ◌>>=◌
auto_activate-IsBound_example = auto_activate-IsBound toy_hash "cloudy" with_pass {u = tt} refl

opened-OneActive : (index : ℕ) → OneActive "cloudy" index opened.db.registered
opened-OneActive index =
    Reach-OneActive toy_hash never toy_library "cloudy" index reached (omega arith)

-- Six keys of the operator are used up to their threshold, and an operator without keys comes by.
abbrev uses : List Use
uses =
    record { operator_id = "cloudy"; index₀ = 0; index₁ = 1 }
    ∷ record { operator_id = "cloudy"; index₀ = 2; index₁ = 3 }
    ∷ record { operator_id = "nobody"; index₀ = 4; index₁ = 5 }
    ∷ record { operator_id = "cloudy"; index₀ = 4; index₁ = 5 }
    ∷ []

record_usage_and_expire-floor_example :
    min 3 (active_count "cloudy" opened.db.registered)
    ≤ active_count "cloudy" (after_uses uses opened).db.registered
record_usage_and_expire-floor_example =
    record_usage_and_expire-floor "cloudy" uses opened opened-OneActive

-- The two keys of a transmission expire at their first use, down to five active keys.
usage-opened :
    active_count "cloudy" (record_usage_and_expire "cloudy" 0 1 opened).1.db.registered ≡ 5
unfolding create_operator insert_operator normalize_email trim_space to_lower on_violation
    require_affected update_operator select_operator select_from statement add_keys add_key_rows
    insert_key_row mark_email_verified mark_conformance_passed active_keyset_hash auto_activate
    activate record_usage_and_expire use_index increment_usage judge_usage expire_above_floor
    update_keys hash_sorted_pubkeys sort_keys insert_key compare_bytes status_discrete
    onboarding_discrete key_state_discrete ◌>>=◌
usage-opened = refl

-- A new key for the index 0, where the first of the seven keys is active.
abbrev rotation : OperatorRotation
rotation = record {
  operator_id = "cloudy";
  key_index = 0;
  new_public_key = 9 ∷ [];
  algo = "ed25519";
  authorization = [];
}

abbrev always : OperatorRotation → KeyMap → Bool
always rot km = true

abbrev rotated : Result (Unit {0}) × World
rotated = register_replacement_key always rotation (pos 5) (record opened { faults = [] })

register_replacement_key-Replaced_example :
    (rotated.0 ≡ ok tt) × Replaced rotation 5 opened.db.registered rotated.1.db.registered
unfolding create_operator insert_operator normalize_email trim_space to_lower on_violation
    require_affected update_operator select_operator select_from statement add_keys add_key_rows
    insert_key_row mark_email_verified mark_conformance_passed active_keyset_hash auto_activate
    activate hash_sorted_pubkeys sort_keys insert_key compare_bytes status_discrete
    onboarding_discrete key_state_discrete ◌>>=◌
register_replacement_key-Replaced_example =
    register_replacement_key-Replaced always rotation 5 opened (omega arith) refl refl (omega arith)

abbrev shut : World
shut = (revoke "cloudy" signed_up).1

revoke-final_example : ◌≡◌ {A = KeyMap} [] []
unfolding create_operator insert_operator normalize_email trim_space to_lower on_violation
    require_affected update_operator select_from statement revoke get_active_key_map
    mark_email_verified pin_rows status_discrete onboarding_discrete key_state_discrete ◌>>=◌
revoke-final_example =
    revoke-final toy_hash never toy_library "cloudy" signed_up
      {v = (mark_email_verified "cloudy" shut).1} {u = tt} {km = []} refl
      (next here (verify_email "cloudy" shut)) refl
