-- ===== src/Operator/Window/Refines/Seen.antt =====
-- The set of sequence numbers that a window stands for, and the answers that the set gives.
use so_ho_link.Base.{
  ℕ, ◌+◌, ◌-◌, ◌≤◌, ◌<◌, ◌≡◌, ◌∙◌, refl, sym, ap, inl, inr, Bool, true, false, not, ◌&&◌, ◌||◌,
  List, [], ◌∷◌, Option, some, none, arith, Bool-cases, nat_same, nat_same_iff, ltb→lt, leb→le, ltb,
  leb, if◌then◌else◌, replicate, length, subst,
}
use so_ho_link.Operator.Window.{get_bit, set_bit, shift_right, only_high, judge_seq, advance_window}
use so_ho_link.Operator.Window.Bits.{
  IsWindow, set_bit-IsWindow, zeros-IsWindow, get_bit-zeros, get_bit-set_bit,
}
use so_ho_link.Operator.Window.Refines.Shift.{
  only_high-IsWindow, get_bit-only_high, shift_right-IsWindow, get_bit-shift_right,
}

abbrev pub member : ℕ → List ℕ → Bool
member a [] = false
member a (x ∷ xs) = nat_same x a || member a xs

abbrev pub highest : List ℕ → ℕ
highest [] = 0
highest (x ∷ xs) = let top = highest xs in if ltb top x then x else top

member-le : (a : ℕ) (xs : List ℕ) → member a xs ≡ true → a ≤ highest xs
member-le a [] h = cc
member-le a (x ∷ xs) h = ground (arith, member-le a xs)

member-above : (a : ℕ) (xs : List ℕ) → highest xs < a → member a xs ≡ false
member-above a [] h = refl
member-above a (x ∷ xs) h = ground (arith, member-above a xs)

member-highest : (x : ℕ) (xs : List ℕ) → member (highest (x ∷ xs)) (x ∷ xs) ≡ true
member-highest x [] = ground arith
member-highest x (y ∷ ys) = ground (arith, member-highest y ys)

-- Is a number new, and less than a window's width below the highest one? Any first number is.
abbrev pub is_fresh : List ℕ → ℕ → Bool
is_fresh [] seq = true
is_fresh (x ∷ xs) seq = not (member seq (x ∷ xs)) && ltb (highest (x ∷ xs)) (seq + 256)

-- The numbers that a row of operator_replay stands for.
pub record Tracks (seen : List ℕ) (seq_high : ℕ) (window : List ℕ) : Type 0 where
  pub shape : IsWindow window
  pub top : seq_high ≡ highest seen
  pub bits : (d : ℕ) → d < 256 → get_bit window d ≡ (leb d seq_high && member (seq_high - d) seen)

pub start-Tracks : Tracks [] 0 (replicate 32 0)
start-Tracks = record {
  shape = zeros-IsWindow;
  top = refl;
  bits = λ d h. ground (arith, get_bit-zeros d);
}

only_high-Tracks :
    (seen : List ℕ) (seq : ℕ) → highest seen + 256 ≤ seq → Tracks (seq ∷ seen) seq only_high
only_high-Tracks seen seq far = record {
  shape = only_high-IsWindow;
  top = ground arith;
  bits = λ d h. ground (arith, get_bit-only_high d, member-above (seq - d) seen);
}

first-Tracks : (seq : ℕ) → Tracks (seq ∷ []) seq only_high
first-Tracks seq = record {
  shape = only_high-IsWindow;
  top = ground arith;
  bits = λ d h. ground (arith, get_bit-only_high d);
}

module _ {seen : List ℕ} {high : ℕ} {w : List ℕ} (t : Tracks seen high w) (seq : ℕ) where
  moved_bit :
      (d : ℕ)
      → high < seq
      → seq - high ≤ d
      → member (high - (d - (seq - high))) seen ≡ member (seq - d) seen
  moved_bit d above far = ap (λ k. member k seen) (omega arith)

  raised_bit :
      (d : ℕ)
      → high < seq
      → seq - high < 256
      → d < 256
      → (nat_same 0 d
          || (leb (seq - high) d && ltb d (seq - high + 256) && get_bit w (d - (seq - high))))
        ≡ (leb d seq && member (seq - d) (seq ∷ seen))
  raised_bit d above near h = elim (Bool-cases (leb (seq - high) d)) [
    | inl old ↦ ground (arith, t.bits (d - (seq - high)), moved_bit d)
    | inr new ↦ ground (arith, t.top, member-above (seq - d) seen)
  ]

  raise-Tracks :
      high < seq
      → seq - high < 256
      → Tracks (seq ∷ seen) seq (set_bit (shift_right w (seq - high)) 0)
  raise-Tracks above near = record {
    shape = set_bit-IsWindow _ 0 (shift_right-IsWindow w (seq - high) t.shape);
    top = ground (arith, t.top);
    bits = λ d h.
        get_bit-set_bit _ 0 d (shift_right-IsWindow w (seq - high) t.shape) (omega arith) h
        ∙ ap (λ b. nat_same 0 d || b) (get_bit-shift_right w (seq - high) t.shape d h)
        ∙ raised_bit d above near h;
  }

  fill-Tracks : seq < high → high - seq < 256 → Tracks (seq ∷ seen) high (set_bit w (high - seq))
  fill-Tracks below near = record {
    shape = set_bit-IsWindow w (high - seq) t.shape;
    top = ground (arith, t.top);
    bits = λ d h. ground (arith, get_bit-set_bit w (high - seq) d t.shape, t.bits d);
  }

-- What an answer of advanceWindow must be, for the numbers that were seen.
abbrev pub Answers : List ℕ → ℕ → Option (ℕ × List ℕ) → Type 0
Answers seen seq none = is_fresh seen seq ≡ false
Answers seen seq (some (high, w)) = (is_fresh seen seq ≡ true) × Tracks (seq ∷ seen) high w

and_true : (a b : Bool) → a ≡ true → (a && b) ≡ b
and_true a b h = rw h refl

leb-false→lt : (a b : ℕ) → leb a b ≡ false → b < a
leb-false→lt a b h = ground arith

module _ (x : ℕ) (xs : List ℕ) (seq : ℕ) where
  fresh_new :
      member seq (x ∷ xs) ≡ false → highest (x ∷ xs) < seq + 256 → is_fresh (x ∷ xs) seq ≡ true
  fresh_new new near = rw new (ground arith)

  stale_member : member seq (x ∷ xs) ≡ true → is_fresh (x ∷ xs) seq ≡ false
  stale_member hit = rw hit refl

  stale_old : seq + 256 ≤ highest (x ∷ xs) → is_fresh (x ∷ xs) seq ≡ false
  stale_old old = ground arith

module _ (x : ℕ) (xs : List ℕ) {high : ℕ} {w : List ℕ} (t : Tracks (x ∷ xs) high w) (seq : ℕ) where
  new_above : high < seq → member seq (x ∷ xs) ≡ false
  new_above above = member-above seq (x ∷ xs) (omega (arith, t.top))

  below_bit : seq < high → high - seq < 256 → get_bit w (high - seq) ≡ member seq (x ∷ xs)
  below_bit below near =
      t.bits (high - seq) near
      ∙ and_true _ (member (high - (high - seq)) (x ∷ xs)) (ground arith)
      ∙ ap (λ k. member k (x ∷ xs)) (omega arith)

  judge-Answers : Answers (x ∷ xs) seq (judge_seq high w seq)
  unfolding judge_seq
  judge-Answers = elim (Bool-cases (ltb high seq)) [
    | inl above ↦
        let up = ltb→lt high seq above in
        let near_enough : highest (x ∷ xs) < seq + 256 = omega (arith, t.top) in
        rw above (elim (Bool-cases (leb 256 (seq - high))) [
          | inl far ↦ rw far (
            fresh_new x xs seq (new_above up) near_enough,
            only_high-Tracks (x ∷ xs) seq (omega (arith, t.top, leb→le _ _ far)),
          )
          | inr near ↦ rw near (
            fresh_new x xs seq (new_above up) near_enough,
            raise-Tracks t seq up (leb-false→lt _ _ near),
          )
        ])
    | inr below ↦ rw below (elim (Bool-cases (nat_same seq high)) [
      | inl same ↦ rw same (
          stale_member x xs seq
            (ap (λ k. member k (x ∷ xs)) ((nat_same_iff _ _).0 same ∙ t.top) ∙ member-highest x xs))
      | inr other ↦
          let down : seq < high = ground arith in
          rw other (elim (Bool-cases (leb 256 (high - seq))) [
            | inl old ↦ rw old (stale_old x xs seq (omega (arith, t.top, leb→le _ _ old)))
            | inr near ↦
                let inside = leb-false→lt _ _ near in
                rw near (elim (Bool-cases (get_bit w (high - seq))) [
                  | inl hit ↦ rw hit (stale_member x xs seq (sym (below_bit down inside) ∙ hit))
                  | inr free ↦ rw free (
                    fresh_new x xs seq (sym (below_bit down inside) ∙ free) (omega (arith, t.top)),
                    fill-Tracks t seq down inside,
                  )
                ])
          ])
    ])
  ]

module _ (high : ℕ) (w : List ℕ) (seq : ℕ) (shape : length w ≡ 32) where
  advance_virgin :
      high ≡ 0 → get_bit w 0 ≡ false → advance_window high w seq ≡ some (seq, only_high)
  unfolding advance_window
  advance_virgin zero_high clear = rw (shape, zero_high, clear) refl

  advance_next : get_bit w 0 ≡ true → advance_window high w seq ≡ judge_seq high w seq
  unfolding advance_window
  advance_next set = ground (arith, shape)

-- advanceWindow takes a number exactly if it is fresh, and the new window stands for one more.
pub advance-Answers :
    (seen : List ℕ) {high : ℕ} {w : List ℕ}
    → Tracks seen high w
    → (seq : ℕ) → Answers seen seq (advance_window high w seq)
advance-Answers [] {high} {w} t seq =
    subst (Answers [] seq)
      (sym (advance_virgin high w seq t.shape.bytes t.top (ground (arith, t.bits 0))))
      (refl, first-Tracks seq)
advance-Answers (x ∷ xs) {high} {w} t seq =
    let top_set : get_bit w 0 ≡ true =
      t.bits 0 (omega arith)
      ∙ and_true (leb 0 high) _ (ground arith)
      ∙ ap (λ k. member k (x ∷ xs)) (omega (arith, t.top))
      ∙ member-highest x xs in
    subst (Answers (x ∷ xs) seq) (sym (advance_next high w seq t.shape.bytes top_set))
      (judge-Answers x xs t seq)
