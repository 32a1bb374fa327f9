-- ===== src/Operator/Replay/Accepts.antt =====
-- Transmission after transmission through CheckAndAdvance: what is accepted is fresh.
use so_ho_link.Base.{
  ℕ, ◌^◌, ◌<◌, ◌≡◌, refl, sym, subst, inl, inr, String, Bool, true, false, ◌&&◌, none, some, List,
  [], ◌∷◌, ◌==◌, text_equality, bytes_equality, Bool-cases, All,
}
use so_ho_link.Store.{World}
use so_ho_link.Store.Sql.{replayed, Result, ok, err, M, first_where}
use so_ho_link.Store.Returns.{Yields, Yields-bind, Yields-require, Yields-transaction, Yields-given}
use so_ho_link.Operator.Tables.{OperatorTables, ReplayRow, NonceRow, NonceScope}
use so_ho_link.Operator.Holds.{on, Yields-statement, Yields-on_violation}
use so_ho_link.Operator.Window.{advance_window}
use so_ho_link.Operator.Window.Refines.{is_fresh}
use so_ho_link.Operator.Replay.{
  put_nonce, insert_nonce, is_pair, load_window, store_window, to_uint64, check_and_advance,
}
use so_ho_link.Operator.Replay.Spent.{
  RowTracks, HasSeen, seen_after, StoredAs, stored_at, created_HasSeen, check_and_advance-Atomic,
}

put_nonce-HasSeen :
    (operator coordinator : String) (seen : List ℕ) (b : Bool) (row : NonceRow) (t : OperatorTables)
    → HasSeen operator coordinator seen t
    → HasSeen operator coordinator seen (put_nonce b row t).1
put_nonce-HasSeen operator coordinator seen true row t p = p
put_nonce-HasSeen operator coordinator seen false row t p = p

module _ (operator coordinator : String) (seen : List ℕ) where
  insert_nonce-HasSeen :
      (row : NonceRow)
      → Yields
          (on (HasSeen operator coordinator seen))
          (insert_nonce row)
          (λ u. on (HasSeen operator coordinator seen))
  unfolding insert_nonce
  insert_nonce-HasSeen row =
      Yields-statement _ _ (λ u. HasSeen operator coordinator seen)
        (λ t a p h. put_nonce-HasSeen operator coordinator seen _ row t p)

  load_window-HasSeen :
      (o c : String)
      → Yields (on (HasSeen operator coordinator seen)) (load_window o c) (λ r.
        on (λ t.
          HasSeen operator coordinator seen t × (first_where (is_pair o c) t.replays ≡ some r)))
  unfolding load_window
  load_window-HasSeen o c = Yields-statement _ _ _ (λ t a p h.
      created_HasSeen operator coordinator seen o c t (first_where (is_pair o c) t.replays) refl p
        h)

  store_window-StoredAs :
      (o c : String) (seq : ℕ) (r : ReplayRow) (next : ℕ × List ℕ)
      → seq < 2 ^ 64
      → advance_window (to_uint64 r.seq_high) r.seq_window seq ≡ some next
      → Yields
          (on (λ t.
            HasSeen operator coordinator seen t × (first_where (is_pair o c) t.replays ≡ some r)))
          (store_window o c next)
          (λ u. on (StoredAs operator coordinator seen o c seq))
  unfolding store_window
  store_window-StoredAs o c seq r next small step =
      Yields-statement _ _ (λ u. StoredAs operator coordinator seen o c seq)
        (λ t a p h. stored_at operator coordinator seen o c seq t r next small p.0 p.1 step)

  check_and_advance-StoredAs :
      (o c : String) (seq : ℕ) (nonce : List ℕ) (scope : NonceScope) (expiry : ℕ)
      → seq < 2 ^ 64
      → Yields
          (on (HasSeen operator coordinator seen))
          (check_and_advance o c seq nonce scope expiry)
          (λ u. on (StoredAs operator coordinator seen o c seq))
  unfolding check_and_advance
  check_and_advance-StoredAs o c seq nonce scope expiry small = Yields-transaction _ _ _ (
      Yields-bind _ _ _ (λ u. on (HasSeen operator coordinator seen)) _
        (Yields-on_violation _ replayed _ _ (insert_nonce-HasSeen _))
        λ u. Yields-bind _ _ _ _ _ (load_window-HasSeen o c) λ r.
          Yields-bind _ _ _ _ _ (Yields-require _ _ replayed)
            λ next. Yields-given _ _ _ _ (store_window-StoredAs o c seq r next small))

-- A transmission, as the verify path hands it on.
pub record Call : Type 0 where
  pub operator : String
  pub coordinator : String
  pub seq : ℕ
  pub nonce : List ℕ
  pub scope : NonceScope
  pub expiry : ℕ

abbrev pub run_call : Call → M (Unit {0})
run_call k = check_and_advance k.operator k.coordinator k.seq k.nonce k.scope k.expiry

module _ (operator coordinator : String) where
  abbrev pub note : Call → Result (Unit {0}) → List ℕ → List ℕ
  note k (ok u) seen = seen_after operator coordinator k.operator k.coordinator k.seq seen
  note k (err e) seen = seen

  -- The numbers that the pair has had accepted after some calls, the last first.
  unfoldable pub accepted_numbers : List Call → List ℕ → World → List ℕ
  accepted_numbers [] seen w = seen
  accepted_numbers (k ∷ ks) seen w =
      accepted_numbers ks (note k (run_call k w).0 seen) (run_call k w).1

-- Each number was fresh when it came.
abbrev pub InOrder : List ℕ → Type 0
InOrder [] = Unit
InOrder (x ∷ xs) = (is_fresh xs x ≡ true) × InOrder xs

module _ (operator coordinator : String) where
  accepted_at :
      (k : Call) (seen : List ℕ) (w : World) (r : Result (Unit {0}))
      → (run_call k w).0 ≡ r
      → k.seq < 2 ^ 64
      → HasSeen operator coordinator seen w.db.registered
      → InOrder seen
      → HasSeen operator coordinator
          (note operator coordinator k r seen)
          (run_call k w).1.db.registered
        × InOrder (note operator coordinator k r seen)
  accepted_at k seen w (err e) failed small h order = (
    subst (λ d. HasSeen operator coordinator seen d.registered)
        (sym
          ((check_and_advance-Atomic k.operator k.coordinator k.seq k.nonce k.scope k.expiry).at w
            failed).db)
        h,
    order,
  )
  accepted_at k seen w (ok u) done small h order =
      let (tracked, fresh) =
        (check_and_advance-StoredAs operator coordinator seen k.operator k.coordinator k.seq k.nonce
            k.scope k.expiry small).at
          w h done in
      (
        tracked,
        elim (Bool-cases (operator == k.operator && coordinator == k.coordinator)) [
          | inl same ↦ rw same (rw same at fresh, order)
          | inr other ↦ rw other order
        ],
      )

  accepted_from :
      (ks : List Call) (seen : List ℕ) (w : World)
      → All (λ k. k.seq < 2 ^ 64) ks
      → HasSeen operator coordinator seen w.db.registered
      → InOrder seen
      → InOrder (accepted_numbers operator coordinator ks seen w)
  unfolding accepted_numbers
  accepted_from [] seen w small h order = order
  accepted_from (k ∷ ks) seen w small h order =
      let (tracked, fresh) = accepted_at k seen w (run_call k w).0 refl small.0 h order in
      accepted_from ks _ (run_call k w).1 small.1 tracked fresh

  -- Whatever calls are made and whichever statements fail, each number that a pair of operator and
  -- coordinator has had accepted was new, and less than 256 below the highest one before it, if the
  -- numbers have 64 bits and the pair has no row at first.
  pub accepted_numbers-InOrder :
      (ks : List Call) (w : World)
      → All (λ k. k.seq < 2 ^ 64) ks
      → first_where (is_pair operator coordinator) w.db.registered.replays ≡ none
      → InOrder (accepted_numbers operator coordinator ks [] w)
  accepted_numbers-InOrder ks w small start =
      accepted_from ks [] w small (subst (RowTracks []) (sym start) refl) tt
