-- ===== src/Operator/Window.antt =====
-- The anti-replay window of internal/operator/repository.go: a bitmap of 32 bytes in which bit `i`
-- tells whether the number `i` below the highest one was seen.
pub mod Bits
pub mod Refines
use so_ho_link.Base.{
  ℕ, zero, suc, ◌+◌, ◌-◌, ◌*◌, ◌/◌, ◌%◌, ◌^◌, bit_and, bit_or, Bool, true, false, not, ◌&&◌, Option,
  none, some, List, nat_same, ltb, leb, if◌then◌else◌, length, get_or, set, replicate,
}

abbrev pub seq_window_bits : ℕ
seq_window_bits = 256

-- Bit 0 is the most significant one of byte 0.
unfoldable pub get_bit : List ℕ → ℕ → Bool
get_bit b pos =
    let byte = pos / 8 in
    let bit = 7 - pos % 8 in
    if leb (length b) byte then false else not (nat_same (bit_and (get_or b byte 0) (2 ^ bit)) 0)

unfoldable pub set_bit : List ℕ → ℕ → List ℕ
set_bit b pos =
    let byte = pos / 8 in
    let bit = 7 - pos % 8 in
    if leb (length b) byte then b else set b byte (bit_or (get_or b byte 0) (2 ^ bit))

-- One round of the loop in shiftRight, at `pos`.
unfoldable pub shift_step : List ℕ → ℕ → ℕ → List ℕ → List ℕ
unfolding get_bit set_bit
shift_step b n pos out =
    if get_bit b pos && ltb (pos + n) (length b * 8) then set_bit out (pos + n) else out

-- The rounds that are left, from `pos` on.
unfoldable pub shift_loop : List ℕ → ℕ → ℕ → ℕ → List ℕ → List ℕ
unfolding shift_step
shift_loop b n zero pos out = out
shift_loop b n (suc left) pos out = shift_loop b n left (pos + 1) (shift_step b n pos out)

unfoldable pub shift_right : List ℕ → ℕ → List ℕ
shift_right b n = shift_loop b n (length b * 8) 0 (replicate (length b) 0)

-- A window in which the highest number alone was seen.
unfoldable pub only_high : List ℕ
unfolding set_bit
only_high = set_bit (replicate (seq_window_bits / 8) 0) 0

-- The cases of the switch after the virgin one.
unfoldable pub judge_seq : ℕ → List ℕ → ℕ → Option (ℕ × List ℕ)
judge_seq seq_high w seq =
    if ltb seq_high seq
    then if leb seq_window_bits (seq - seq_high)
      then some (seq, only_high)
      else some (seq, set_bit (shift_right w (seq - seq_high)) 0)
    else if nat_same seq seq_high
    then none
    else if leb seq_window_bits (seq_high - seq)
    then none
    else if get_bit w (seq_high - seq)
    then none
    else some (seq_high, set_bit w (seq_high - seq))

-- `none` is ok=false: malformed, stale or seen.
unfoldable pub advance_window : ℕ → List ℕ → ℕ → Option (ℕ × List ℕ)
advance_window seq_high window seq =
    if not (nat_same (length window) (seq_window_bits / 8))
    then none
    else if nat_same seq_high 0 && not (get_bit window 0)
    then some (seq, only_high)
    else judge_seq seq_high window seq
