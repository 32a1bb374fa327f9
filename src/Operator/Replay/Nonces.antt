-- ===== src/Operator/Replay/Nonces.antt =====
-- A nonce that CheckAndAdvance has accepted is spent for every operator and scope.
use so_ho_link.Base.{
  ℕ, ◌≡◌, ◌∙◌, refl, sym, ap, Bool, true, false, false≢true, not, List, [], ◌∷◌, ◌==◌, some, none,
  Option, String, bytes_equality, nat_same, arith, same_refl,
}
use so_ho_link.Store.{World}
use so_ho_link.Store.Sql.{replayed, ok, count_where}
use so_ho_link.Store.Effects.{Moves, moves, Moves-transaction}
use so_ho_link.Store.Returns.{Yields, Yields-bind, Yields-transaction, err_ok}
use so_ho_link.Operator.Tables.{OperatorTables, ReplayRow, NonceRow}
use so_ho_link.Operator.Holds.{
  on, Kept, Kept-course, Keeps-statement, Yields-Kept, Moves-on_violation, Yields-statement,
  Yields-on_violation,
}
use so_ho_link.Operator.Replay.{
  put_nonce, insert_nonce, load_or_create, load_window, store_window, check_and_advance,
}
use so_ho_link.Operator.Replay.Spent.{is_spent}
use so_ho_link.Operator.Replay.Accepts.{Call, run_call}

false_of_not : (b : Bool) → not b ≡ true → b ≡ false
false_of_not b h = ground arith

module _ (nonce : List ℕ) where
  abbrev Spent : OperatorTables → Type 0
  Spent t = is_spent nonce t ≡ true

  put_nonce-Spent :
      (b : Bool) (row : NonceRow) (t : OperatorTables) → Spent t → Spent (put_nonce b row t).1
  put_nonce-Spent true row t h = ground arith
  put_nonce-Spent false row t h = h

  insert_nonce-Spent : (row : NonceRow) → Moves (Kept Spent) (insert_nonce row)
  unfolding insert_nonce
  insert_nonce-Spent row = Keeps-statement Spent _ (λ t h. put_nonce-Spent _ row t h)

  load_at :
      (o c : String) (found : Option ReplayRow) (t : OperatorTables)
      → Spent t
      → Spent (load_or_create o c found t).1
  load_at o c none t h = h
  load_at o c (some r) t h = h

  load_window-Spent : (o c : String) → Moves (Kept Spent) (load_window o c)
  unfolding load_window
  load_window-Spent o c = Keeps-statement Spent _ (λ t h. load_at o c _ t h)

  store_window-Spent :
      (o c : String) (next : ℕ × List ℕ) → Moves (Kept Spent) (store_window o c next)
  unfolding store_window
  store_window-Spent o c next = Keeps-statement Spent _ (λ t h. h)

  run_call-Spent : (k : Call) → Moves (Kept Spent) (run_call k)
  unfolding check_and_advance
  run_call-Spent k = Moves-transaction (Kept-course Spent) _ (
      search
        (
          Kept-course Spent,
          moves,
          Moves-on_violation,
          insert_nonce-Spent,
          load_window-Spent,
          store_window-Spent,
        )
        depth 14)

  -- The insertion of a spent nonce is a violation.
  refused :
      (b : Bool) (row : NonceRow) (t : OperatorTables) {u : Unit {0}}
      → b ≡ false
      → (put_nonce b row t).0 ≡ ok u
      → ⊥
  refused true row t e h = false≢true (sym e)
  refused false row t e h = err_ok h

  put_spends :
      (b : Bool) (row : NonceRow) (t : OperatorTables) {u : Unit {0}}
      → row.nonce ≡ nonce
      → (put_nonce b row t).0 ≡ ok u
      → Spent (put_nonce b row t).1
  put_spends true row t e h = rw (ap (λ x. x == nonce) e ∙ same_refl nonce) (ground arith)
  put_spends false row t e h = absurd (err_ok h)

  insert_nonce-spends :
      (row : NonceRow)
      → row.nonce ≡ nonce
      → Yields (on (λ t. Unit)) (insert_nonce row) (λ u. on Spent)
  unfolding insert_nonce
  insert_nonce-spends row e = Yields-statement _ _ (λ u. Spent) (λ t a p h. put_spends _ row t e h)

  found-Spent :
      (row : NonceRow) (t : OperatorTables)
      → row.nonce ≡ nonce
      → Spent t
      → nat_same (count_where (λ n. n.nonce == row.nonce) t.nonces) 0 ≡ false
  found-Spent row t e h =
      ap (λ x. nat_same (count_where (λ n. n.nonce == x) t.nonces) 0) e ∙ false_of_not _ h

  insert_nonce-refuses :
      (row : NonceRow) → row.nonce ≡ nonce → Yields (on Spent) (insert_nonce row) (λ u. on (λ t. ⊥))
  unfolding insert_nonce
  insert_nonce-refuses row e =
      Yields-statement _ _ (λ u t. ⊥)
        (λ t a p h.
          refused (nat_same (count_where (λ n. n.nonce == row.nonce) t.nonces) 0) row t
            (found-Spent row t e p) h)

  run_call-spends :
      (k : Call) → k.nonce ≡ nonce → Yields (on (λ t. Unit)) (run_call k) (λ u. on Spent)
  unfolding check_and_advance
  run_call-spends k e = Yields-transaction _ _ _ (
      Yields-bind _ _ _ (λ u. on Spent) _
        (Yields-on_violation _ replayed _ _ (insert_nonce-spends _ e))
        λ u.
          Yields-Kept Spent _
            (search (Kept-course Spent, moves, load_window-Spent, store_window-Spent) depth 14))

  run_call-refuses :
      (k : Call) → k.nonce ≡ nonce → Yields (on Spent) (run_call k) (λ u. on (λ t. ⊥))
  unfolding check_and_advance
  run_call-refuses k e = Yields-transaction _ _ _ (
      Yields-bind _ _ _ (λ u. on (λ t. ⊥)) _
        (Yields-on_violation _ replayed _ _ (insert_nonce-refuses _ e))
        λ u. record { at = λ w p h. absurd p })

abbrev pub after_calls : List Call → World → World
after_calls [] w = w
after_calls (k ∷ ks) w = after_calls ks (run_call k w).1

calls_keep :
    (nonce : List ℕ) (ks : List Call) (w : World)
    → is_spent nonce w.db.registered ≡ true
    → is_spent nonce (after_calls ks w).db.registered ≡ true
calls_keep nonce [] w h = h
calls_keep nonce (k ∷ ks) w h =
    calls_keep nonce ks (run_call k w).1 (((run_call-Spent nonce k).at w).keep h)

-- After a call was accepted and any others were made, no call with its nonce is accepted, whatever
-- its operator, number and scope are and whichever statements fail.
pub run_call-no_replay :
    (k again : Call) (ks : List Call) (w : World) {u v : Unit {0}}
    → again.nonce ≡ k.nonce
    → (run_call k w).0 ≡ ok u
    → ¬ ((run_call again (after_calls ks (run_call k w).1)).0 ≡ ok v)
run_call-no_replay k again ks w e h g =
    (run_call-refuses k.nonce again e).at (after_calls ks (run_call k w).1)
      (calls_keep k.nonce ks (run_call k w).1 ((run_call-spends k.nonce k refl).at w tt h)) g
