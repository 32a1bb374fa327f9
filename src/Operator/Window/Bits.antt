-- ===== src/Operator/Window/Bits.antt =====
-- Reading a bit after writing one, over the 256 positions of a window.
use so_ho_link.Base.{
  ℕ, zero, suc, ◌-◌, ◌/◌, ◌%◌, ◌^◌, ◌<◌, bit_and, bit_or, bit_and-bitwise, ◌≡◌, refl, Bool, true,
  false, not, ◌&&◌, ◌||◌, List, arith, nat_same, ltb, leb, if◌then◌else◌, length, All, get_or, set,
  replicate, get_or-set, length-set, set-All, get_or-All, Bool-cases, inl, inr, ◌∙◌, ap, sym, ◌≢◌,
  false≢true, nat_same_iff, ltb→lt, if_false, leb-false, replicate-All, get_or-replicate,
}
use so_ho_link.Operator.Window.{get_bit, set_bit}

-- A test of each number under a bound, which a table below evaluates.
holds_under : (ℕ → Bool) → ℕ → Bool
holds_under test zero = true
holds_under test (suc bound) = holds_under test bound && test bound

read_table :
    (test : ℕ → Bool) (bound value : ℕ)
    → value < bound
    → holds_under test bound ≡ true
    → test value ≡ true
unfolding holds_under
read_table test zero value small table = absurd (omega arith)
read_table test (suc bound) value small table = ground (arith, read_table test bound value)

abbrev bit_of : ℕ → ℕ → Bool
bit_of byte k = not (nat_same (bit_and byte (2 ^ k)) 0)

abbrev bool_same : Bool → Bool → Bool
bool_same true b = b
bool_same false b = not b

abbrev or_law : ℕ → ℕ → ℕ → Bool
or_law byte k j =
    bool_same (bit_of (bit_or byte (2 ^ k)) j) (nat_same k j || bit_of byte j)
    && ltb (bit_or byte (2 ^ k)) 256

abbrev or_row : ℕ → ℕ → Bool
or_row byte k = holds_under (or_law byte k) 8

or_table : holds_under (λ byte. holds_under (or_row byte) 8) 256 ≡ true
unfolding holds_under
or_table = refl

or_law_at : (byte k j : ℕ) → byte < 256 → k < 8 → j < 8 → or_law byte k j ≡ true
or_law_at byte k j hb hk hj =
    let block = read_table (λ byte. holds_under (or_row byte) 8) 256 byte hb or_table in
    read_table (or_law byte k) 8 j hj (read_table (or_row byte) 8 k hk block)

or_law_parts : (a b c : Bool) → bool_same a b && c ≡ true → (a ≡ b) × (c ≡ true)
or_law_parts a b c h = ground arith

bit_of-or :
    (byte k j : ℕ)
    → byte < 256
    → k < 8
    → j < 8
    → bit_of (bit_or byte (2 ^ k)) j ≡ (nat_same k j || bit_of byte j)
bit_of-or byte k j hb hk hj = (or_law_parts _ _ _ (or_law_at byte k j hb hk hj)).0

or-lt : (byte k : ℕ) → byte < 256 → k < 8 → bit_or byte (2 ^ k) < 256
or-lt byte k hb hk =
    ltb→lt (bit_or byte (2 ^ k)) 256
      (or_law_parts (bit_of (bit_or byte (2 ^ k)) 0) (nat_same k 0 || bit_of byte 0) _
        (or_law_at byte k 0 hb hk (omega arith))).1

-- The 32 bytes of a window.
pub record IsWindow (w : List ℕ) : Type 0 where
  pub bytes : length w ≡ 32
  pub small : All (λ byte. byte < 256) w

pub set_bit-IsWindow : (w : List ℕ) (p : ℕ) → IsWindow w → IsWindow (set_bit w p)
unfolding set_bit
set_bit-IsWindow w p v = elim (Bool-cases (leb (length w) (p / 8))) [
  | inl out ↦ rw out v
  | inr in_range ↦ rw in_range (record {
    bytes = length-set w (p / 8) _ ∙ v.bytes;
    small =
        set-All (λ byte. byte < 256) w (p / 8) _
          (or-lt (get_or w (p / 8) 0) (7 - p % 8)
            (get_or-All (λ byte. byte < 256) w (p / 8) 0 (omega arith) v.small) (omega arith))
          v.small;
  })
]

pub zeros-IsWindow : IsWindow (replicate 32 0)
zeros-IsWindow = record {
  bytes = refl;
  small = replicate-All (λ byte. byte < 256) 32 0 (omega arith);
}

get_bit_lem :
    (w : List ℕ) (q : ℕ)
    → length w ≡ 32
    → q < 256
    → get_bit w q ≡ bit_of (get_or w (q / 8) 0) (7 - q % 8)
unfolding get_bit
get_bit_lem w q v h = if_false (leb (length w) (q / 8)) _ _ (leb-false _ _ (omega arith))

bit_of-zero : (k : ℕ) → bit_of 0 k ≡ false
bit_of-zero k = rw (bit_and-bitwise 0 (2 ^ k)) refl

pub get_bit-zeros : (q : ℕ) → q < 256 → get_bit (replicate 32 0) q ≡ false
get_bit-zeros q h =
    get_bit_lem (replicate 32 0) q refl h
    ∙ ap (λ byte. bit_of byte (7 - q % 8)) (get_or-replicate 32 0 (q / 8))
    ∙ bit_of-zero (7 - q % 8)

set_bit_lem :
    (w : List ℕ) (p : ℕ)
    → length w ≡ 32
    → p < 256
    → set_bit w p ≡ set w (p / 8) (bit_or (get_or w (p / 8) 0) (2 ^ (7 - p % 8)))
unfolding set_bit
set_bit_lem w p v h = if_false (leb (length w) (p / 8)) _ _ (leb-false _ _ (omega arith))

same_place : (p q : ℕ) → p / 8 ≡ q / 8 → nat_same (7 - p % 8) (7 - q % 8) ≡ nat_same p q
same_place p q h = ground arith

other_place : (p q : ℕ) → p / 8 ≢ q / 8 → nat_same p q ≡ false
other_place p q h = ground arith

written_bit :
    (w : List ℕ) (p q : ℕ)
    → IsWindow w
    → p < 256
    → q < 256
    → bit_of
        (if nat_same (p / 8) (q / 8)
          then bit_or (get_or w (p / 8) 0) (2 ^ (7 - p % 8))
          else get_or w (q / 8) 0)
        (7 - q % 8)
      ≡ (nat_same p q || bit_of (get_or w (q / 8) 0) (7 - q % 8))
written_bit w p q v hp hq = elim (Bool-cases (nat_same (p / 8) (q / 8))) [
  | inl same ↦
      let e : p / 8 ≡ q / 8 = (nat_same_iff _ _).0 same in
      rw (same, e)
        (bit_of-or (get_or w (q / 8) 0) (7 - p % 8) (7 - q % 8)
            (get_or-All (λ byte. byte < 256) w (q / 8) 0 (omega arith) v.small) (omega arith)
            (omega arith)
          ∙ ap (λ b. b || bit_of (get_or w (q / 8) 0) (7 - q % 8)) (same_place p q e))
  | inr other ↦ rw (other, other_place p q (λ e. false≢true (sym other ∙ (nat_same_iff _ _).1 e)))
]

-- The bit that was written is set, and the others are as before.
pub get_bit-set_bit :
    (w : List ℕ) (p q : ℕ)
    → IsWindow w
    → p < 256
    → q < 256
    → get_bit (set_bit w p) q ≡ (nat_same p q || get_bit w q)
get_bit-set_bit w p q v hp hq =
    get_bit_lem (set_bit w p) q (set_bit-IsWindow w p v).bytes hq
    ∙ ap (λ u. bit_of (get_or u (q / 8) 0) (7 - q % 8)) (set_bit_lem w p v.bytes hp)
    ∙ ap (λ byte. bit_of byte (7 - q % 8))
        (get_or-set w (p / 8) (q / 8) (bit_or (get_or w (p / 8) 0) (2 ^ (7 - p % 8))) 0
          (omega (arith, v.bytes)))
    ∙ written_bit w p q v hp hq
    ∙ ap (λ b. nat_same p q || b) (sym (get_bit_lem w q v.bytes hq))
