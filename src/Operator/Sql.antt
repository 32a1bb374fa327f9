-- ===== src/Operator/Sql.antt =====
-- Statements on the tables of the operator registry.
use so_ho_link.Base.{ℕ, String, Bool, Option, ◌==◌, text_equality, if◌then◌else◌}
use so_ho_link.Store.{World}
use so_ho_link.Store.Sql.{
  Error, unique_violation, Result, ok, err, M, rescue, faulty, next_fault, database, update_where,
  count_where, first_where,
}
use so_ho_link.Operator.Tables.{OperatorTables, OperatorRow, OperatorKeyRow}

abbrev pub with_registered : OperatorTables → World → World
with_registered t w = record w { db = record w.db { registered = t } }

module _ {A : Type 0} where
  -- A statement that runs answers a result, which may be a violated constraint, and the tables after it.
  unfoldable pub statement : (OperatorTables → Result A × OperatorTables) → M A
  statement f w =
      if faulty w.faults
      then (err database, next_fault w)
      else (let (r, t) = f w.db.registered in (r, with_registered t (next_fault w)))

  abbrev pub replace_violation : Error → Result A → Result A
  replace_violation e (err unique_violation) = err e
  replace_violation e r = r

  -- isUniqueViolation in a caller, which reports such a violation as `e`.
  unfoldable pub on_violation : Error → M A → M A
  unfolding rescue
  on_violation e m = rescue (replace_violation e) m

  unfoldable pub select_from : (OperatorTables → A) → M A
  unfolding statement
  select_from f = statement (λ t. (ok (f t), t))

-- UPDATE operators SET … WHERE id = …, and the rows that it affects.
unfoldable pub update_operator : String → (OperatorRow → OperatorRow) → M ℕ
unfolding statement
update_operator id change = statement λ t. (
  ok (count_where (λ o. o.id == id) t.operators),
  record t { operators = update_where (λ o. o.id == id) change t.operators },
)

-- SELECT … FROM operators WHERE id = … [FOR UPDATE]
unfoldable pub select_operator : String → M (Option OperatorRow)
unfolding select_from
select_operator id = select_from (λ t. first_where (λ o. o.id == id) t.operators)

-- UPDATE operator_keys SET … WHERE …
unfoldable pub update_keys :
    (OperatorKeyRow → Bool) → (OperatorKeyRow → OperatorKeyRow) → M (Unit {0})
unfolding statement
update_keys test change =
    statement (λ t. (ok tt, record t { keys = update_where test change t.keys }))
