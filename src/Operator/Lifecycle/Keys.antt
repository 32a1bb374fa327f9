-- ===== src/Operator/Lifecycle/Keys.antt =====
-- Operations on the keys leave operators and challenges alone.
use so_ho_link.Base.{
  ℕ, ◌+◌, String, ℤ, Bool, true, false, Option, none, some, List, [], ◌∷◌, text_equality, select,
}
use so_ho_link.Store.Sql.{ok}
use so_ho_link.Store.Effects.{Moves, moves, Moves-transaction, Moves-bind, Moves-guard, Moves-pure}
use so_ho_link.Operator.Tables.{OperatorTables, OperatorRow, OperatorKeyRow, ChallengeRow}
use so_ho_link.Operator.Sql.{statement, update_keys}
use so_ho_link.Operator.Holds.{
  Kept, Kept-course, Keeps-statement, Keeps-select_from, Keeps-update_keys,
}
use so_ho_link.Operator.Accounts.{KeyMap}
use so_ho_link.Operator.Activation.{put_key, insert_key_row, add_key_rows}
use so_ho_link.Operator.Rotation.{
  OperatorRotation, UsageState, increment_usage, expire_above_floor, judge_usage, use_index,
  record_usage_and_expire, active_key_map_tx, register_replacement_key,
}

module _ (P : List OperatorRow → List ChallengeRow → Type 0) where
  abbrev pub Only : OperatorTables → Type 0
  Only t = P t.operators t.challenges

  pub keys-Kept :
      (test : OperatorKeyRow → Bool) (change : OperatorKeyRow → OperatorKeyRow)
      → Moves (Kept Only) (update_keys test change)
  keys-Kept test change = Keeps-update_keys Only test change (λ t h. h)

  pub clear-Kept :
      (keep : OperatorKeyRow → Bool)
      → Moves (Kept Only) (statement (λ t. (ok tt, record t { keys = select keep t.keys })))
  clear-Kept keep = Keeps-statement Only _ (λ t h. h)

  put_key-Kept :
      (valid taken : Bool) (row : OperatorKeyRow) (t : OperatorTables)
      → Only t
      → Only (put_key valid taken row t).1
  put_key-Kept valid true row t h = h
  put_key-Kept false false row t h = h
  put_key-Kept true false row t h = h

  insert_key-Kept : (row : OperatorKeyRow) → Moves (Kept Only) (insert_key_row row)
  unfolding insert_key_row
  insert_key-Kept row = Keeps-statement Only _ (λ t h. put_key-Kept _ _ row t h)

  pub add_rows-Kept :
      (o algo : String) (i : ℕ) (ps : List (List ℕ)) (ths : List ℤ)
      → Moves (Kept Only) (add_key_rows o algo i ps ths)
  unfolding add_key_rows
  add_rows-Kept o algo i [] ths = Moves-pure (Kept-course Only) tt
  add_rows-Kept o algo i (p ∷ ps) [] = Moves-pure (Kept-course Only) tt
  add_rows-Kept o algo i (p ∷ ps) (th ∷ ths) =
      Moves-bind (Kept-course Only) _ _ (Moves-guard (Kept-course Only) _ _) λ u.
        Moves-bind (Kept-course Only) _ _ (insert_key-Kept _)
          λ v. add_rows-Kept o algo (i + 1) ps ths

  used-Kept : (o : String) (i : ℕ) → Moves (Kept Only) (increment_usage o i)
  unfolding increment_usage
  used-Kept o i = Keeps-statement Only _ (λ t h. h)

  expire-Kept : (o : String) (i n : ℕ) → Moves (Kept Only) (expire_above_floor o i n)
  unfolding expire_above_floor
  expire-Kept o i n = search (Kept-course Only, moves, keys-Kept) depth 8

  judge-Kept :
      (o : String) (i : ℕ) (s : UsageState) (k : Option OperatorKeyRow)
      → Moves (Kept Only) (judge_usage o i s k)
  unfolding judge_usage
  judge-Kept o i s none = Moves-pure (Kept-course Only) s
  judge-Kept o i s (some k) = search (Kept-course Only, moves, expire-Kept) depth 6

  pub sign-Kept : (o : String) (i j : ℕ) → Moves (Kept Only) (record_usage_and_expire o i j)
  unfolding record_usage_and_expire use_index
  sign-Kept o i j =
      Moves-transaction (Kept-course Only) _
        (search (Kept-course Only, moves, Keeps-select_from Only, used-Kept, judge-Kept) depth 14)

  pub rotate-Kept :
      (verify : OperatorRotation → KeyMap → Bool) (rot : OperatorRotation) (th : ℤ)
      → Moves (Kept Only) (register_replacement_key verify rot th)
  unfolding register_replacement_key active_key_map_tx
  rotate-Kept verify rot th =
      Moves-bind (Kept-course Only) _ _ (Moves-guard (Kept-course Only) _ _) λ u.
        Moves-transaction (Kept-course Only) _ (
          search (Kept-course Only, moves, Keeps-select_from Only, insert_key-Kept, keys-Kept) depth
            14)
