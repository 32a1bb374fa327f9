-- ===== src/Operator/Replay.antt =====
-- Anti-replay of internal/operator/repository.go: a transmission spends its nonce and its number in
-- one transaction.
pub mod Spent
pub mod Accepts
pub mod Nonces
use so_ho_link.Base.{
  ℕ, suc, ◌+◌, ◌-◌, ◌/◌, ◌^◌, String, ℤ, pos, negsuc, Bool, true, false, not, ◌&&◌, Option, none,
  some, List, [], ◌∷◌, ◌==◌, text_equality, bytes_equality, if◌then◌else◌, nat_same, ltb, replicate,
}
use so_ho_link.Store.Sql.{
  Error, unique_violation, replayed, Result, ok, err, M, pure, ◌>>=◌, ◌>>◌, require, transaction,
  first_where, update_where, count_where,
}
use so_ho_link.Operator.Tables.{OperatorTables, ReplayRow, NonceRow, NonceScope}
use so_ho_link.Operator.Sql.{statement, on_violation}
use so_ho_link.Operator.Window.{seq_window_bits, advance_window}

-- Go's conversions between uint64 and int64.
unfoldable pub to_int64 : ℕ → ℤ
to_int64 n = if ltb n (2 ^ 63) then pos n else negsuc (2 ^ 64 - 1 - n)

unfoldable pub to_uint64 : ℤ → ℕ
to_uint64 (pos n) = n
to_uint64 (negsuc m) = 2 ^ 64 - 1 - m

abbrev pub put_nonce : Bool → NonceRow → OperatorTables → Result (Unit {0}) × OperatorTables
put_nonce true row t = (ok tt, record t { nonces = row ∷ t.nonces })
put_nonce false row t = (err unique_violation, t)

-- INSERT INTO operator_nonces; the nonce is the primary key.
unfoldable pub insert_nonce : NonceRow → M (Unit {0})
unfolding statement
insert_nonce row =
    statement λ t. put_nonce (nat_same (count_where (λ n. n.nonce == row.nonce) t.nonces) 0) row t

abbrev pub is_pair : String → String → ReplayRow → Bool
is_pair operator coordinator r = r.operator_id == operator && r.coordinator_id == coordinator

abbrev pub default_row : String → String → ReplayRow
default_row operator coordinator = record {
  operator_id = operator;
  coordinator_id = coordinator;
  seq_high = pos 0;
  seq_window = replicate (seq_window_bits / 8) 0;
}

abbrev pub load_or_create :
    String → String → Option ReplayRow → OperatorTables → Result ReplayRow × OperatorTables
load_or_create operator coordinator (some r) t = (ok r, t)
load_or_create operator coordinator none t = (
  ok (default_row operator coordinator),
  record t { replays = default_row operator coordinator ∷ t.replays },
)

-- INSERT … ON CONFLICT … RETURNING: the row of the pair, with the defaults if it is new.
unfoldable pub load_window : String → String → M ReplayRow
unfolding statement
load_window operator coordinator = statement λ t.
    load_or_create operator coordinator (first_where (is_pair operator coordinator) t.replays) t

abbrev pub advanced : ℕ × List ℕ → ReplayRow → ReplayRow
advanced next r = record r { seq_high = to_int64 next.0; seq_window = next.1 }

unfoldable pub store_window : String → String → ℕ × List ℕ → M (Unit {0})
unfolding statement
store_window operator coordinator next = statement λ t. (
  ok tt,
  record t { replays = update_where (is_pair operator coordinator) (advanced next) t.replays },
)

unfoldable pub check_and_advance : String → String → ℕ → List ℕ → NonceScope → ℕ → M (Unit {0})
check_and_advance operator coordinator seq nonce scope nonce_expiry = transaction do
  on_violation replayed (
      insert_nonce (record {
        nonce = nonce;
        operator_id = operator;
        scope = scope;
        expires_at = nonce_expiry;
      }))
  row ← load_window operator coordinator
  next ← require (advance_window (to_uint64 row.seq_high) row.seq_window seq) replayed
  store_window operator coordinator next
