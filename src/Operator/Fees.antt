-- ===== src/Operator/Fees.antt =====
-- Fee declarations of internal/operator/governance.go: signed, and never retroactive.
pub mod Later
use so_ho_link.Base.{
  ℕ, ◌^◌, String, Bool, true, false, not, ◌&&◌, Option, none, some, List, [], ◌∷◌, ◌==◌,
  text_equality, number_equality, if◌then◌else◌, ltb, leb, length, nat_same,
}
use so_ho_link.Store.Sql.{
  Error, database, unique_violation, fee_unsigned, fee_seq_not_monotonic, fee_retroactive,
  no_fee_declaration, Result, ok, err, M, pure, ◌>>=◌, ◌>>◌, guard, require, transaction,
  count_where,
}
use so_ho_link.Operator.Tables.{OperatorTables, FeeRow}
use so_ho_link.Operator.Sql.{statement, on_violation, select_from}

-- ORDER BY seq DESC LIMIT 1, over the rows of a coordinator.
abbrev pub later_row : FeeRow → Option FeeRow → FeeRow
later_row r none = r
later_row r (some s) = if ltb r.seq s.seq then s else r

unfoldable pub latest_fee : String → List FeeRow → Option FeeRow
latest_fee coordinator [] = none
latest_fee coordinator (r ∷ rs) =
    let rest = latest_fee coordinator rs in
    if r.coordinator_id == coordinator then some (later_row r rest) else rest

abbrev pub same_fee : FeeRow → FeeRow → Bool
same_fee decl r = r.coordinator_id == decl.coordinator_id && r.seq == decl.seq

abbrev pub put_fee : Bool → Bool → FeeRow → OperatorTables → Result (Unit {0}) × OperatorTables
put_fee negative true decl t = (err unique_violation, t)
put_fee true false decl t = (err database, t)
put_fee false false decl t = (ok tt, record t { fees = decl ∷ t.fees })

-- INSERT INTO fee_declarations: the number of a coordinator is unique, and as a BIGINT not negative.
unfoldable pub insert_fee : FeeRow → M (Unit {0})
unfolding statement
insert_fee decl = statement λ t.
    put_fee (leb (2 ^ 63) decl.seq) (not (nat_same (count_where (same_fee decl) t.fees) 0)) decl t

unfoldable pub judge_fee : FeeRow → Option FeeRow → M (Unit {0})
judge_fee decl none = pure tt
judge_fee decl (some current) = do
  guard (not (leb decl.seq current.seq)) fee_seq_not_monotonic
  guard (ltb current.effective_at decl.effective_at) fee_retroactive

unfoldable pub publish_fee_declaration : FeeRow → M (Unit {0})
publish_fee_declaration decl = do
  guard (not (length decl.signature == 0)) fee_unsigned
  transaction do
    current ← select_from (λ t. latest_fee decl.coordinator_id t.fees)
    judge_fee decl current
    on_violation fee_seq_not_monotonic (insert_fee decl)

unfoldable pub current_fee_declaration : String → M FeeRow
current_fee_declaration coordinator = do
  found ← select_from (λ t. latest_fee coordinator t.fees)
  require found no_fee_declaration
