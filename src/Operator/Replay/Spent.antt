-- ===== src/Operator/Replay/Spent.antt =====
-- What a pair of operator and coordinator has had accepted, and the rows that remember it.
use so_ho_link.Base.{
  ℕ, ◌^◌, ◌<◌, ◌≡◌, ◌∙◌, refl, sym, ap, subst, subst₂, inl, inr, String, Bool, true, false, not,
  ◌&&◌, Option, none, some, List, [], ◌∷◌, ◌==◌, text_equality, bytes_equality, if◌then◌else◌,
  nat_same, ltb, arith, Bool-cases, same_refl, eq_of_same,
}
use so_ho_link.Store.Sql.{ok, first_where, update_where, count_where}
use so_ho_link.Store.Effects.{Moves, moves, SameRegistry, registry_course}
use so_ho_link.Store.Atomic.{Atomic, Atomic-transaction}
use so_ho_link.Store.Returns.{ok_same}
use so_ho_link.Store.Rows.{changed, first_where-update_where, first_where-test}
use so_ho_link.Operator.Tables.{OperatorTables, ReplayRow, NonceRow, NonceScope}
use so_ho_link.Operator.Holds.{Moves-statement, Moves-on_violation}
use so_ho_link.Operator.Window.{advance_window}
use so_ho_link.Operator.Window.Refines.{
  highest, is_fresh, Tracks, start-Tracks, Answers, advance-Answers,
}
use so_ho_link.Operator.Replay.{
  advanced, to_int64, to_uint64, insert_nonce, is_pair, default_row, load_or_create, load_window,
  store_window, check_and_advance,
}

-- The casts of a 64-bit number are inverse.
pub to_uint64-to_int64 : (n : ℕ) → n < 2 ^ 64 → to_uint64 (to_int64 n) ≡ n
unfolding to_uint64 to_int64
to_uint64-to_int64 n h = elim (Bool-cases (ltb n (2 ^ 63))) [
  | inl small ↦ rw small refl
  | inr large ↦ rw large (omega arith)
]

-- A row stands for numbers, all of 64 bits.
abbrev pub RowTracks : List ℕ → Option ReplayRow → Type 0
RowTracks seen none = seen ≡ []
RowTracks seen (some r) = Tracks seen (to_uint64 r.seq_high) r.seq_window × (highest seen < 2 ^ 64)

module _ (operator coordinator : String) where
  -- The pair has had these numbers accepted.
  abbrev pub HasSeen : List ℕ → OperatorTables → Type 0
  HasSeen seen t = RowTracks seen (first_where (is_pair operator coordinator) t.replays)

  abbrev pub seen_after : String → String → ℕ → List ℕ → List ℕ
  seen_after o c seq seen = if operator == o && coordinator == c then seq ∷ seen else seen

-- The nonce is spent.
abbrev pub is_spent : List ℕ → OperatorTables → Bool
is_spent nonce t = not (nat_same (count_where (λ n. n.nonce == nonce) t.nonces) 0)

insert_nonce-SameRegistry : (row : NonceRow) → Moves SameRegistry (insert_nonce row)
unfolding insert_nonce
insert_nonce-SameRegistry row = Moves-statement registry_course _ (λ w. record { registry = refl })

load_window-SameRegistry : (o c : String) → Moves SameRegistry (load_window o c)
unfolding load_window
load_window-SameRegistry o c = Moves-statement registry_course _ (λ w. record { registry = refl })

store_window-SameRegistry :
    (o c : String) (next : ℕ × List ℕ) → Moves SameRegistry (store_window o c next)
unfolding store_window
store_window-SameRegistry o c next =
    Moves-statement registry_course _ (λ v. record { registry = refl })

-- A transmission that is refused, or that fails, leaves tables and registry as they were.
pub check_and_advance-Atomic :
    (o c : String) (seq : ℕ) (nonce : List ℕ) (scope : NonceScope) (expiry : ℕ)
    → Atomic (check_and_advance o c seq nonce scope expiry)
unfolding check_and_advance
check_and_advance-Atomic o c seq nonce scope expiry = Atomic-transaction _ (
    search
      (
        registry_course, moves, Moves-on_violation, insert_nonce-SameRegistry,
        load_window-SameRegistry, store_window-SameRegistry,
      )
      depth 14)

default_RowTracks :
    (o c : String) (seen : List ℕ) → seen ≡ [] → RowTracks seen (some (default_row o c))
unfolding to_uint64
default_RowTracks o c seen e = rw e (start-Tracks, omega arith)

same_pair : {o c o' c' : String} → (o == o' && c == c') ≡ true → (o ≡ o') × (c ≡ c')
same_pair {o} {c} {o'} {c'} h = (eq_of_same (ground arith), eq_of_same (ground arith))

found_row :
    (test : Bool) (r : ReplayRow) (o : Option ReplayRow)
    → test ≡ true
    → (if test then some r else o) ≡ some r
found_row test r o h = rw h refl

pair_refl : (o c : String) → (o == o && c == c) ≡ true
pair_refl o c = rw (same_refl o, same_refl c) refl

one_pair :
    (operator coordinator o c : String) (r : ReplayRow)
    → is_pair operator coordinator r ≡ true
    → (operator == o && coordinator == c) ≡ false
    → is_pair o c r ≡ false
one_pair operator coordinator o c r h other =
    let (p, q) =
      same_pair {o = r.operator_id} {c = r.coordinator_id} {o' = operator} {c' = coordinator} h in
    rw (p, q) other

unchanged :
    (test : ReplayRow → Bool) (change : ReplayRow → ReplayRow) (o : Option ReplayRow)
    → ((r : ReplayRow) → o ≡ some r → test r ≡ false)
    → changed test change o ≡ o
unchanged test change none k = refl
unchanged test change (some r) k = rw (k r refl) refl

changed_hit :
    (test : ReplayRow → Bool) (change : ReplayRow → ReplayRow) (r : ReplayRow)
    → test r ≡ true
    → changed test change (some r) ≡ some (change r)
changed_hit test change r h = rw h refl

advanced-RowTracks :
    (seen : List ℕ) (seq : ℕ) (r : ReplayRow) (next : ℕ × List ℕ)
    → seq < 2 ^ 64
    → highest seen < 2 ^ 64
    → Tracks (seq ∷ seen) next.0 next.1
    → RowTracks (seq ∷ seen) (some (advanced next r))
advanced-RowTracks seen seq r next small old t =
    let bound : highest (seq ∷ seen) < 2 ^ 64 = ground arith in
    (
      subst (λ h. Tracks (seq ∷ seen) h next.1)
          (sym (to_uint64-to_int64 next.0 (omega (arith, t.top, bound)))) t,
      bound,
    )

module _ (operator coordinator : String) (seen : List ℕ) where
  created_at :
      (o c : String) (t : OperatorTables)
      → first_where (is_pair o c) t.replays ≡ none
      → HasSeen operator coordinator seen t
      → HasSeen operator coordinator seen (record t { replays = default_row o c ∷ t.replays })
  created_at o c t e h = elim (Bool-cases (o == operator && c == coordinator)) [
    | inr other ↦ rw other h
    | inl same ↦ rw same (
        default_RowTracks o c seen (
          let (p, q) = same_pair same in
          subst (RowTracks seen)
            (ap (λ k. first_where k t.replays)
                (ap (λ x. is_pair x coordinator) (sym p) ∙ ap (is_pair o) (sym q))
              ∙ e)
            h))
  ]

  pub created_HasSeen :
      (o c : String) (t : OperatorTables) (found : Option ReplayRow) {r : ReplayRow}
      → first_where (is_pair o c) t.replays ≡ found
      → HasSeen operator coordinator seen t
      → (load_or_create o c found t).0 ≡ ok r
      → HasSeen operator coordinator seen (load_or_create o c found t).1
        × (first_where (is_pair o c) (load_or_create o c found t).1.replays ≡ some r)
  created_HasSeen o c t (some s) e h g = (h, e ∙ ap (λ x. some x) (ok_same g))
  created_HasSeen o c t none e h g = (
    created_at o c t e h,
    found_row (is_pair o c (default_row o c)) (default_row o c) _ (pair_refl o c)
        ∙ ap (λ x. some x) (ok_same g),
  )

  -- What the stored window stands for, where the answer of advanceWindow was `next`.
  abbrev pub StoredAs : String → String → ℕ → OperatorTables → Type 0
  StoredAs o c seq t =
      HasSeen operator coordinator (seen_after operator coordinator o c seq seen) t
      × ((if operator == o && coordinator == c then is_fresh seen seq else true) ≡ true)

  stored_other :
      (o c : String) (t : OperatorTables) (change : ReplayRow → ReplayRow)
      → ((r : ReplayRow) → is_pair operator coordinator (change r) ≡ is_pair operator coordinator r)
      → (operator == o && coordinator == c) ≡ false
      → HasSeen operator coordinator seen t
      → HasSeen operator coordinator seen
          (record t { replays = update_where (is_pair o c) change t.replays })
  stored_other o c t change keeps other h =
      subst (RowTracks seen)
        (sym (
          first_where-update_where (is_pair operator coordinator) (is_pair o c) change t.replays
            keeps
          ∙ unchanged (is_pair o c) change (first_where (is_pair operator coordinator) t.replays)
              (λ r e.
                one_pair operator coordinator o c r
                  (first_where-test (is_pair operator coordinator) t.replays e) other)))
        h

  stored_same :
      (seq : ℕ) (t : OperatorTables) (r : ReplayRow) (next : ℕ × List ℕ)
      → seq < 2 ^ 64
      → HasSeen operator coordinator seen t
      → first_where (is_pair operator coordinator) t.replays ≡ some r
      → advance_window (to_uint64 r.seq_high) r.seq_window seq ≡ some next
      → HasSeen operator coordinator (seq ∷ seen) (record t {
        replays = update_where (is_pair operator coordinator) (advanced next) t.replays;
      })
        × (is_fresh seen seq ≡ true)
  stored_same seq t r next small h found step =
      let row : RowTracks seen (some r) = subst (RowTracks seen) found h in
      let answer : Answers seen seq (some next) =
        subst (Answers seen seq) step (advance-Answers seen row.0 seq) in
      (
        subst (RowTracks (seq ∷ seen))
            (sym (
              first_where-update_where (is_pair operator coordinator) (is_pair operator coordinator)
                (advanced next) t.replays (λ s. refl)
              ∙ ap (changed (is_pair operator coordinator) (advanced next)) found
              ∙ changed_hit (is_pair operator coordinator) (advanced next) r
                  (first_where-test (is_pair operator coordinator) t.replays found)))
            (advanced-RowTracks seen seq r next small row.1 answer.1),
        answer.0,
      )

  pub stored_at :
      (o c : String) (seq : ℕ) (t : OperatorTables) (r : ReplayRow) (next : ℕ × List ℕ)
      → seq < 2 ^ 64
      → HasSeen operator coordinator seen t
      → first_where (is_pair o c) t.replays ≡ some r
      → advance_window (to_uint64 r.seq_high) r.seq_window seq ≡ some next
      → StoredAs o c seq
          (record t { replays = update_where (is_pair o c) (advanced next) t.replays })
  stored_at o c seq t r next small h found step =
      elim (Bool-cases (operator == o && coordinator == c)) [
        | inl same ↦ rw same (
            subst₂
              (λ x y.
                first_where (is_pair x y) t.replays ≡ some r
                → HasSeen operator coordinator (seq ∷ seen)
                    (record t { replays = update_where (is_pair x y) (advanced next) t.replays })
                  × (is_fresh seen seq ≡ true))
              (same_pair same).0 (same_pair same).1 (λ f. stored_same seq t r next small h f step)
              found)
        | inr other ↦ rw other (stored_other o c t (advanced next) (λ s. refl) other h, refl)
      ]
