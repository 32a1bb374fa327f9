-- ===== src/Operator/Accounts.antt =====
-- Accounts of internal/operator/repository.go: sign-up, the e-mail gate, the kill switches, and the
-- keys that authenticate an operator.
use so_ho_link.Base.{
  ℕ, String, Bool, true, false, not, ◌&&◌, ◌||◌, Option, none, some, List, [], ◌∷◌, ◌==◌,
  text_equality, bytes_equality, number_equality, if◌then◌else◌, trim_space, to_lower, nat_same,
}
use so_ho_link.Base.Assoc.{insert}
use so_ho_link.Store.Sql.{
  unique_violation, duplicate_operator, operator_not_found, Result, ok, err, M, pure, ◌>>=◌, ◌>>◌,
  guard, transaction, count_where,
}
use so_ho_link.Operator.Tables.{
  OperatorTables, OperatorRow, OperatorKeyRow, OperatorStatus, OnboardingState, KeyState,
  status_equality, onboarding_equality, key_state_equality,
}
use so_ho_link.Operator.Sql.{statement, on_violation, select_from, update_operator, update_keys}
use so_ho_link.Base.{select}

unfoldable pub normalize_email : List ℕ → List ℕ
unfolding to_lower trim_space
normalize_email email = to_lower (trim_space email)

abbrev pub is_new : String → List ℕ → List OperatorRow → Bool
is_new id email [] = true
is_new id email (o ∷ os) = not (o.id == id || o.email == email) && is_new id email os

-- A new row: the columns that sign-up does not give have their defaults.
abbrev pub new_operator : String → String → List ℕ → Option (List ℕ) → OperatorRow
new_operator id name email phone = record {
  id = id;
  name = name;
  email = email;
  phone = phone;
  status = OperatorStatus.active;
  onboarding_state = OnboardingState.pending_verification;
  email_verified = false;
  conformance_passed_at = none;
  conformance_keyset_hash = none;
}

abbrev pub put_operator : Bool → OperatorRow → OperatorTables → Result (Unit {0}) × OperatorTables
put_operator true row t = (ok tt, record t { operators = row ∷ t.operators })
put_operator false row t = (err unique_violation, t)

-- INSERT INTO operators; the id is the primary key, and the e-mail address is unique.
unfoldable pub insert_operator : OperatorRow → M (Unit {0})
unfolding statement
insert_operator row = statement (λ t. put_operator (is_new row.id row.email t.operators) row t)

abbrev pub unless_blank : List ℕ → Option (List ℕ)
unless_blank [] = none
unless_blank (c ∷ cs) = some (c ∷ cs)

unfoldable pub create_operator : String → String → List ℕ → List ℕ → M (Unit {0})
create_operator id name email phone = on_violation duplicate_operator (
    insert_operator
      (new_operator id name (normalize_email email) (unless_blank (trim_space phone))))

-- The answer to an UPDATE of one operator, from RowsAffected.
unfoldable pub require_affected : ℕ → M (Unit {0})
unfolding guard
require_affected n = guard (not (n == 0)) operator_not_found

unfoldable pub mark_email_verified : String → M (Unit {0})
mark_email_verified id = do
  affected ← update_operator id (λ o. record o { email_verified = true })
  require_affected affected

abbrev pub revoked : OperatorRow → OperatorRow
revoked o = record o { status = OperatorStatus.revoked }

unfoldable pub revoke : String → M (Unit {0})
revoke id = do affected ← update_operator id revoked; require_affected affected

abbrev pub is_active_of : String → OperatorKeyRow → Bool
is_active_of id k = k.operator_id == id && k.state == KeyState.active

abbrev pub with_state : KeyState → OperatorKeyRow → OperatorKeyRow
with_state s k = record k { state = s }

unfoldable pub disconnect : String → M (Unit {0})
disconnect id = transaction do
  affected ← update_operator id revoked
  require_affected affected
  update_keys (is_active_of id) (with_state KeyState.revoked)

pub record KeyRecord : Type 0 where
  pub public_key : List ℕ
  pub algo : String

abbrev pub KeyMap : Type 0
KeyMap = List (ℕ × KeyRecord)

-- The loop over the rows; `none` is the early return on a second algorithm.
unfoldable pub pin_rows : String → KeyMap → List OperatorKeyRow → Option KeyMap
pin_rows pin km [] = some km
pin_rows pin km (k ∷ ks) =
    let rest =
      pin_rows k.algo (insert k.key_index (record { public_key = k.public_key; algo = k.algo }) km)
        ks in
    if pin == "" || k.algo == pin then rest else none

abbrev pub admits_operator : String → OperatorRow → Bool
admits_operator id o =
    o.id == id && o.status == OperatorStatus.active && o.onboarding_state == OnboardingState.active

-- The rows of the join, which are gated on the operator.
abbrev pub gated_keys : String → OperatorTables → List OperatorKeyRow
gated_keys id t =
    if nat_same (count_where (admits_operator id) t.operators) 0
    then []
    else select (is_active_of id) t.keys

abbrev pub map_or_empty : Option KeyMap → KeyMap
map_or_empty none = []
map_or_empty (some km) = km

-- The empty map is the code's nil: it authenticates nothing.
unfoldable pub get_active_key_map : String → M KeyMap
get_active_key_map id = do
  rows ← select_from (gated_keys id)
  pure (map_or_empty (pin_rows "" [] rows))
