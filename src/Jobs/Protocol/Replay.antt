-- ===== src/Jobs/Protocol/Replay.antt =====
-- A sequence number is accepted once (bumpSeq).
use so_ho_link.Base.{
  ℕ, ◌≡◌, ◌≤◌, refl, ap, ◌∙◌, String, Bool, true, false, inl, inr, some, List, [], ◌∷◌, ◌==◌,
  text_equality, number_equality, Bool-cases, ltb, arith,
}
use so_ho_link.Store.{KeyRow, World}
use so_ho_link.Store.Sql.{Error, ok, err, ◌>>=◌, guard, attempt, pure, fail, faulty}
use so_ho_link.Store.Effects.{Moves, Course, Moves-bind, Moves-guard, Moves-attempt}
use so_ho_link.Jobs.Protocol.{with_seq, seq_of, raise_seq, bump_seq, find_key, max_int64}

-- One call of bumpSeq.
pub record Bump : Type 0 where
  pub node : String
  pub listing : Bool
  pub seq : ℕ

abbrev pub after_bumps : List Bump → World → World
after_bumps [] w = w
after_bumps (b ∷ bs) w = after_bumps bs (bump_seq b.node b.listing b.seq w).1

seq_of-with_seq : (l : Bool) (s : ℕ) (k : KeyRow) → seq_of l (with_seq l s k) ≡ s
seq_of-with_seq true s k = refl
seq_of-with_seq false s k = refl

node_id-with_seq : (l : Bool) (s : ℕ) (k : KeyRow) → (with_seq l s k).node_id ≡ k.node_id
node_id-with_seq true s k = refl
node_id-with_seq false s k = refl

-- Once every row of a node has a number of at least `s`, no lower number raises one.
raise_seq-again :
    (node : String) (l : Bool) (s t : ℕ) (ks : List KeyRow)
    → t ≤ s
    → (raise_seq node l t (raise_seq node l s ks).0).1 ≡ 0
raise_seq-again node l s t [] h = refl
raise_seq-again node l s t (k ∷ ks) h =
    ground (arith, seq_of-with_seq l s k, node_id-with_seq l s k, raise_seq-again node l s t ks h)

err_ok : {e : Error} {u : Unit {0}} → err e ≡ ok u → ⊥
err_ok h = cc

bump_seq-raised :
    (node : String) (l : Bool) (s : ℕ) (w : World)
    → (bump_seq node l s w).0 ≡ ok tt
    → (bump_seq node l s w).1.db.keys ≡ (raise_seq node l s w.db.keys).0
unfolding bump_seq ◌>>=◌ guard attempt pure fail
bump_seq-raised node l s w h = elim (Bool-cases (ltb max_int64 s)) [
  | inl big ↦ absurd (err_ok (rw big at h))
  | inr fits ↦ elim (Bool-cases (faulty w.faults)) [
    | inl bad ↦ absurd (err_ok (rw (fits, bad) at h))
    | inr good ↦ elim (Bool-cases ((raise_seq node l s w.db.keys).1 == 0)) [
      | inl none_raised ↦ absurd (err_ok (rw (fits, good, none_raised) at h))
      | inr some_raised ↦ rw (fits, good, some_raised) refl
    ]
  ]
]

bump_seq-refused :
    (node : String) (l : Bool) (s : ℕ) (w : World)
    → (raise_seq node l s w.db.keys).1 ≡ 0
    → (bump_seq node l s w).0 ≡ ok tt
    → ⊥
unfolding bump_seq ◌>>=◌ guard attempt pure fail
bump_seq-refused node l s w zero h = elim (Bool-cases (ltb max_int64 s)) [
  | inl big ↦ err_ok (rw big at h)
  | inr fits ↦ elim (Bool-cases (faulty w.faults)) [
    | inl bad ↦ err_ok (rw (fits, bad) at h)
    | inr good ↦ err_ok (rw (fits, good, zero) at h)
  ]
]

-- A raise only raises.
seq_of-with_seq-le :
    (l m : Bool) (s : ℕ) (k : KeyRow)
    → ltb (seq_of m k) s ≡ true
    → seq_of l k ≤ seq_of l (with_seq m s k)
seq_of-with_seq-le true true s k h = ground arith
seq_of-with_seq-le true false s k h = omega arith
seq_of-with_seq-le false true s k h = omega arith
seq_of-with_seq-le false false s k h = ground arith

module _ (node : String) (l : Bool) (s : ℕ) where
  -- No row of the node has a number below `s`.
  NoneBelow : List KeyRow → Type 0
  NoneBelow ks = (raise_seq node l s ks).1 ≡ 0

  raise_seq-NoneBelow :
      (other : String) (m : Bool) (t : ℕ) (ks : List KeyRow)
      → (raise_seq node l s ks).1 ≡ 0
      → (raise_seq node l s (raise_seq other m t ks).0).1 ≡ 0
  raise_seq-NoneBelow other m t [] h = refl
  raise_seq-NoneBelow other m t (k ∷ ks) h =
      ground (
        arith,
        seq_of-with_seq-le l m t k,
        node_id-with_seq m t k,
        raise_seq-NoneBelow other m t ks,
      )

  record KeepsNumbers (v w : World) : Type 0 where
    keep : NoneBelow v.db.keys → NoneBelow w.db.keys

  numbers_course : Course KeepsNumbers
  numbers_course = record {
    stay = λ w. record { keep = λ p. p };
    join = λ u v w a b. record { keep = λ p. b.keep (a.keep p) };
    fault = λ w. record { keep = λ p. p };
    restore = λ u v a. record { keep = λ p. p };
  }

  bump_seq-KeepsNumbers :
      (other : String) (m : Bool) (t : ℕ) → Moves KeepsNumbers (bump_seq other m t)
  unfolding bump_seq NoneBelow
  bump_seq-KeepsNumbers other m t =
      Moves-bind numbers_course _ _ (Moves-guard numbers_course _ _) λ u.
        Moves-bind numbers_course _ _
          (Moves-attempt numbers_course _
            (λ w. record { keep = raise_seq-NoneBelow other m t w.db.keys }))
          λ n. Moves-guard numbers_course _ _

  after_bumps-NoneBelow :
      (bs : List Bump) (w : World) → NoneBelow w.db.keys → NoneBelow (after_bumps bs w).db.keys
  after_bumps-NoneBelow [] w h = h
  after_bumps-NoneBelow (b ∷ bs) w h =
      after_bumps-NoneBelow bs _ (((bump_seq-KeepsNumbers b.node b.listing b.seq).at w).keep h)

raise_seq-below :
    (node : String) (l : Bool) (s t : ℕ) (ks : List KeyRow)
    → t ≤ s
    → (raise_seq node l s ks).1 ≡ 0
    → (raise_seq node l t ks).1 ≡ 0
raise_seq-below node l s t [] h zero = refl
raise_seq-below node l s t (k ∷ ks) h zero = ground (arith, raise_seq-below node l s t ks)

-- Once bumpSeq has accepted a number from a node on one of the two counters, it accepts neither
-- that number nor a lower one from the node on that counter again, whatever calls of bumpSeq come
-- in between, from any nodes and on either counter, and whichever statements fail.
pub bump_seq-no_replay :
    (node : String) (l : Bool) (s t : ℕ) (bs : List Bump) (w : World)
    → t ≤ s
    → (bump_seq node l s w).0 ≡ ok tt
    → ¬ ((bump_seq node l t (after_bumps bs (bump_seq node l s w).1)).0 ≡ ok tt)
unfolding NoneBelow
bump_seq-no_replay node l s t bs w h accepted =
    let first : (raise_seq node l s (bump_seq node l s w).1.db.keys).1 ≡ 0 =
      ap (λ ks. (raise_seq node l s ks).1) (bump_seq-raised node l s w accepted)
      ∙ raise_seq-again node l s s w.db.keys (omega arith) in
    bump_seq-refused node l t _
      (raise_seq-below node l s t _ h (after_bumps-NoneBelow node l s bs _ first))

some_key : {j k : KeyRow} → some j ≡ some k → j ≡ k
some_key h = cc

raised_here :
    (x : KeyRow) (node : String) (l : Bool) (s : ℕ) (ks : List KeyRow)
    → (x.node_id == node) ≡ true
    → ltb (seq_of l x) s ≡ true
    → ((raise_seq node l s (x ∷ ks)).1 == 0) ≡ false
raised_here x node l s ks hit low = ground arith

passed_by :
    (x : KeyRow) (node : String) (l : Bool) (s : ℕ) (ks : List KeyRow)
    → (x.node_id == node) ≡ false
    → ((raise_seq node l s ks).1 == 0) ≡ false
    → ((raise_seq node l s (x ∷ ks)).1 == 0) ≡ false
passed_by x node l s ks other rest = ground arith

raise_seq-found :
    (node : String) (l : Bool) (s : ℕ) (ks : List KeyRow) {k : KeyRow}
    → find_key node ks ≡ some k
    → ltb (seq_of l k) s ≡ true
    → ((raise_seq node l s ks).1 == 0) ≡ false
unfolding find_key
raise_seq-found node l s [] h low = cc
raise_seq-found node l s (x ∷ ks) {k} h low = elim (Bool-cases (x.node_id == node)) [
  | inl hit ↦
      raised_here x node l s ks hit (ap (λ r. ltb (seq_of l r) s) (some_key (rw hit at h)) ∙ low)
  | inr other ↦ passed_by x node l s ks other (raise_seq-found node l s ks (rw other at h) low)
]

-- A number above the one on record is accepted from an enrolled node, if it fits an int64 and the
-- database answers.
pub bump_seq-accepts :
    (node : String) (l : Bool) (s : ℕ) (w : World) {k : KeyRow}
    → find_key node w.db.keys ≡ some k
    → ltb (seq_of l k) s ≡ true
    → ltb max_int64 s ≡ false
    → faulty w.faults ≡ false
    → (bump_seq node l s w).0 ≡ ok tt
unfolding bump_seq ◌>>=◌ guard attempt pure fail
bump_seq-accepts node l s w found low fits good =
    rw (fits, good, raise_seq-found node l s w.db.keys found low) refl
