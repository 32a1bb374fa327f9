-- ===== src/Operator/Window/Refines/Shift.antt =====
-- What shiftRight makes of each bit.
use so_ho_link.Base.{
  ℕ, zero, suc, ◌+◌, ◌-◌, ◌*◌, ◌<◌, ◌≡◌, ◌∙◌, ap, inl, inr, Bool, ◌&&◌, ◌||◌, List, arith,
  Bool-cases, nat_same, nat_same_iff, ltb, leb, length, replicate,
}
use so_ho_link.Operator.Window.{get_bit, shift_step, shift_loop, shift_right, only_high}
use so_ho_link.Operator.Window.Bits.{
  IsWindow, set_bit-IsWindow, zeros-IsWindow, get_bit-zeros, get_bit-set_bit,
}

pub only_high-IsWindow : IsWindow only_high
unfolding only_high
only_high-IsWindow = set_bit-IsWindow (replicate 32 0) 0 zeros-IsWindow

pub get_bit-only_high : (q : ℕ) → q < 256 → get_bit only_high q ≡ nat_same 0 q
unfolding only_high
get_bit-only_high q h =
    ground (arith, get_bit-set_bit (replicate 32 0) 0 q zeros-IsWindow, get_bit-zeros q)

or_regroup : (x y z u : Bool) → (y || z) ≡ u → (x || y || z) ≡ (x || u)
or_regroup x y z u h = ground arith

module _ (b : List ℕ) (n : ℕ) (v : IsWindow b) where
  step-IsWindow : (pos : ℕ) (out : List ℕ) → IsWindow out → IsWindow (shift_step b n pos out)
  unfolding shift_step
  step-IsWindow pos out o = elim (Bool-cases (get_bit b pos && ltb (pos + n) (length b * 8))) [
    | inl moved ↦ rw moved (set_bit-IsWindow out (pos + n) o)
    | inr dropped ↦ rw dropped o
  ]

  get_bit-step :
      (pos q : ℕ) (out : List ℕ)
      → IsWindow out
      → q < 256
      → get_bit (shift_step b n pos out) q
        ≡ (get_bit out q || (nat_same (pos + n) q && get_bit b pos))
  unfolding shift_step
  get_bit-step pos q out o hq = ground (arith, v.bytes, get_bit-set_bit out (pos + n) q o)

  loop-IsWindow :
      (left pos : ℕ) (out : List ℕ) → IsWindow out → IsWindow (shift_loop b n left pos out)
  unfolding shift_loop
  loop-IsWindow zero pos out o = o
  loop-IsWindow (suc left) pos out o =
      loop-IsWindow left (pos + 1) (shift_step b n pos out) (step-IsWindow pos out o)

  same_source : (pos q : ℕ) → pos + n ≡ q → pos ≡ q - n
  same_source pos q e = omega arith

  -- Position `pos`, or one of the `left` positions after it.
  here_or_later :
      (left pos q : ℕ)
      → (nat_same (pos + n) q && get_bit b pos
          || (leb (pos + 1 + n) q && ltb q (pos + 1 + n + left) && get_bit b (q - n)))
        ≡ (leb (pos + n) q && ltb q (pos + n + suc left) && get_bit b (q - n))
  here_or_later left pos q = elim (Bool-cases (nat_same (pos + n) q)) [
    | inl here ↦ ground (arith, ap (get_bit b) (same_source pos q ((nat_same_iff _ _).0 here)))
    | inr later ↦ ground arith
  ]

  get_bit-loop :
      (left pos q : ℕ) (out : List ℕ)
      → IsWindow out
      → q < 256
      → get_bit (shift_loop b n left pos out) q
        ≡ (get_bit out q || (leb (pos + n) q && ltb q (pos + n + left) && get_bit b (q - n)))
  unfolding shift_loop
  get_bit-loop zero pos q out o hq = ground arith
  get_bit-loop (suc left) pos q out o hq =
      get_bit-loop left (pos + 1) q (shift_step b n pos out) (step-IsWindow pos out o) hq
      ∙ ap (λ x. x || (leb (pos + 1 + n) q && ltb q (pos + 1 + n + left) && get_bit b (q - n)))
          (get_bit-step pos q out o hq)
      ∙ or_regroup (get_bit out q) _ _ _ (here_or_later left pos q)

  pub shift_right-IsWindow : IsWindow (shift_right b n)
  unfolding shift_right
  shift_right-IsWindow = rw v.bytes (loop-IsWindow 256 0 (replicate 32 0) zeros-IsWindow)

  pub get_bit-shift_right :
      (q : ℕ)
      → q < 256
      → get_bit (shift_right b n) q ≡ (leb n q && ltb q (n + 256) && get_bit b (q - n))
  unfolding shift_right
  get_bit-shift_right q h = rw v.bytes (
      get_bit-loop 256 0 q (replicate 32 0) zeros-IsWindow h
      ∙ ap (λ x. x || (leb (0 + n) q && ltb q (0 + n + 256) && get_bit b (q - n)))
          (get_bit-zeros q h)
      ∙ ap (λ k. leb k q && ltb q (k + 256) && get_bit b (q - n)) (omega arith))
