-- ===== src/Token/RoundTrip.antt =====
-- A token that GenerateJobToken makes is what VerifyJobToken accepts.
use so_ho_link.Base.{
  ℕ, zero, suc, ◌+◌, ◌-◌, ◌*◌, ◌/◌, ◌%◌, ◌^◌, ◌≤◌, ◌<◌, ◌≡◌, refl, sym, ◌∙◌, ap, String, Bool, true,
  false, ◌||◌, none, some, [], ◌∷◌, ◌++◌, ◌==◌, text_equality, number_equality, if◌then◌else◌, ltb,
  pos, ltb_ℤ, All, arith, same_refl, eq_of_same, Bool-cases, inl, inr, ltb→lt,
}
use so_ho_link.Store.{Bytes}
use so_ho_link.Allowlist.Digest.{same_bytes_iff}
use so_ho_link.Token.{
  Crypto, codes, digits_before, decimal, unix, claims, generate_job_token, split_first, split_all,
  is_digit, parse_digits, parse_magnitude, in_range, parse_int, verified, expired, check_payload,
  verify_job_token,
}

-- The separator occurs nowhere.
abbrev pub Lacks : ℕ → Bytes → Type 0
Lacks c = All (λ x. (x == c) ≡ false)

split_first-append :
    (c : ℕ) (xs ys : Bytes) → Lacks c xs → split_first c (xs ++ (c ∷ ys)) ≡ some (xs, ys)
unfolding split_first
split_first-append c [] ys h = rw (same_refl c) refl
split_first-append c (x ∷ xs) ys (h, hs) = rw (h, split_first-append c xs ys hs) refl

split_all-append :
    (c : ℕ) (xs ys : Bytes)
    → Lacks c xs
    → split_all c (xs ++ (c ∷ ys)) ≡ (xs, (split_all c ys).0 ∷ (split_all c ys).1)
unfolding split_all
split_all-append c [] ys h = rw (same_refl c) refl
split_all-append c (x ∷ xs) ys (h, hs) = rw (h, split_all-append c xs ys hs) refl

split_all-whole : (c : ℕ) (xs : Bytes) → Lacks c xs → split_all c xs ≡ (xs, [])
unfolding split_all
split_all-whole c [] h = refl
split_all-whole c (x ∷ xs) (h, hs) = rw (h, split_all-whole c xs hs) refl

is_digit-lem : (d : ℕ) → d < 10 → is_digit (b'0' + d) ≡ true
is_digit-lem d h = ground arith

shift : (d : ℕ) → b'0' + d - b'0' ≡ d
shift d = omega arith

parse_digits-cons :
    (acc d : ℕ) (rest : Bytes)
    → d < 10
    → parse_digits acc ((b'0' + d) ∷ rest) ≡ parse_digits (acc * 10 + d) rest
unfolding parse_digits
parse_digits-cons acc d rest h = rw (is_digit-lem d h, shift d) refl

from_zero : (n : ℕ) → 0 * 10 + n ≡ n
from_zero n = omega arith

whole : (n : ℕ) → n / 10 * 10 + n % 10 ≡ n
whole n = omega arith

digit-other : (d : ℕ) → d < 10 → (b'0' + d == b'|') ≡ false
digit-other d h = ground arith

parse_digits-digits_before :
    (fuel n : ℕ) (rest : Bytes)
    → n < fuel
    → parse_digits 0 (digits_before fuel n rest) ≡ parse_digits n rest
unfolding digits_before
parse_digits-digits_before zero n rest h = ground arith
parse_digits-digits_before (suc fuel) n rest h = elim (Bool-cases (ltb n 10)) [
  | inl small ↦
      rw small (
        parse_digits-cons 0 n rest (ltb→lt n 10 small)
        ∙ ap (λ x. parse_digits x rest) (from_zero n))
  | inr large ↦ rw large (
      parse_digits-digits_before fuel (n / 10) ((b'0' + n % 10) ∷ rest) (ground arith)
      ∙ parse_digits-cons (n / 10) (n % 10) rest (omega arith)
      ∙ ap (λ x. parse_digits x rest) (whole n))
]

digits_before-Lacks :
    (fuel n : ℕ) (rest : Bytes) → Lacks b'|' rest → Lacks b'|' (digits_before fuel n rest)
unfolding digits_before
digits_before-Lacks zero n rest h = h
digits_before-Lacks (suc fuel) n rest h = elim (Bool-cases (ltb n 10)) [
  | inl small ↦ rw small (digit-other n (ltb→lt n 10 small), h)
  | inr large ↦ rw large (
      digits_before-Lacks fuel (n / 10) ((b'0' + n % 10) ∷ rest)
        (digit-other (n % 10) (omega arith), h))
]

abbrev is_empty : Bytes → Bool
is_empty [] = true
is_empty (x ∷ xs) = false

is_empty-digits_before :
    (fuel n x : ℕ) (rest : Bytes) → is_empty (digits_before fuel n (x ∷ rest)) ≡ false
unfolding digits_before
is_empty-digits_before zero n x rest = refl
is_empty-digits_before (suc fuel) n x rest = elim (Bool-cases (ltb n 10)) [
  | inl small ↦ rw small refl
  | inr large ↦ rw large (is_empty-digits_before fuel (n / 10) (b'0' + n % 10) (x ∷ rest))
]

is_empty-decimal : (n : ℕ) → is_empty (decimal n) ≡ false
unfolding decimal digits_before
is_empty-decimal n = elim (Bool-cases (ltb n 10)) [
  | inl small ↦ rw small refl
  | inr large ↦ rw large (is_empty-digits_before n (n / 10) (b'0' + n % 10) [])
]

parse_digits-decimal : (n : ℕ) → parse_digits 0 (decimal n) ≡ some n
unfolding decimal parse_digits
parse_digits-decimal n = parse_digits-digits_before (suc n) n [] (omega arith)

decimal-Lacks : (n : ℕ) → Lacks b'|' (decimal n)
unfolding decimal
decimal-Lacks n = digits_before-Lacks (suc n) n [] tt

-- A sign is no digit.
no_number : {n : ℕ} → none ≡ some n → ⊥
no_number h = cc

unsigned :
    (x sign : ℕ) (xs : Bytes) (n : ℕ)
    → is_digit sign ≡ false
    → x ≡ sign
    → parse_digits 0 (x ∷ xs) ≡ some n
    → ⊥
unfolding parse_digits
unsigned x sign xs n other same h = no_number (
    sym (
      ap (λ b. if b then parse_digits (0 * 10 + (x - b'0')) xs else none)
        (ap is_digit same ∙ other))
    ∙ h)

in_range-some : (n bound : ℕ) → n ≤ bound → in_range bound (some n) ≡ some n
in_range-some n bound h = ground arith

-- A numeral that starts with no sign.
parse_int-digits :
    (xs : Bytes) (n : ℕ)
    → is_empty xs ≡ false
    → parse_digits 0 xs ≡ some n
    → n < 2 ^ 63
    → parse_int xs ≡ some (pos n)
unfolding parse_int parse_magnitude
parse_int-digits [] n e h small = cc
parse_int-digits (x ∷ xs) n e h small = elim (Bool-cases (x == b'-')) [
  | inl minus ↦ absurd (unsigned x b'-' xs n refl (eq_of_same minus) h)
  | inr other ↦ elim (Bool-cases (x == b'+')) [
    | inl plus ↦ absurd (unsigned x b'+' xs n refl (eq_of_same plus) h)
    | inr neither ↦ rw (other, neither, h, in_range-some n (2 ^ 63 - 1) (omega arith)) refl
  ]
]

ltb_ℤ-pos : (a b : ℕ) → ltb_ℤ (pos a) (pos b) ≡ ltb a b
ltb_ℤ-pos a b = ground arith

-- The claims of a token come back out of its payload, while the token has not expired.
payload-claims :
    (job node : String) (expire now : ℕ)
    → Lacks b'|' (codes job)
    → Lacks b'|' (codes node)
    → expire < 2 ^ 63
    → check_payload now (some (claims job node expire))
      ≡ (if ltb expire (unix now) then expired else verified (codes job) (codes node))
unfolding claims
payload-claims job node expire now lj ln small =
    rw
      (
        split_all-append b'|' (codes job) (codes node ++ (b'|' ∷ decimal expire)) lj,
        split_all-append b'|' (codes node) (decimal expire) ln,
        split_all-whole b'|' (decimal expire) (decimal-Lacks expire),
        parse_int-digits (decimal expire) expire (is_empty-decimal expire)
            (parse_digits-decimal expire) small,
      )
      (ap (λ b. if b then expired else verified (codes job) (codes node))
        (ltb_ℤ-pos expire (unix now)))

none_bytes : {a : Bytes} → none ≡ some a → ⊥
none_bytes h = cc

some_bytes : {a b : Bytes} → some a ≡ some b → a ≡ b
some_bytes h = cc

-- The token of given claims, as GenerateJobToken puts it together.
abbrev pub signed : Crypto → Bytes → Bytes → Bytes
signed c secret raw =
    let payload = c.encode raw in payload ++ (b'.' ∷ c.encode (c.hmac secret payload))

signed-checked :
    (c : Crypto) (secret raw : Bytes) (now : ℕ)
    → ((b : Bytes) → c.decode (c.encode b) ≡ some b)
    → ((b : Bytes) → Lacks b'.' (c.encode b))
    → verify_job_token c secret now (signed c secret raw) ≡ check_payload now (some raw)
unfolding verify_job_token
signed-checked c secret raw now decodes lacks =
    rw
      (
        split_first-append b'.' (c.encode raw) (c.encode (c.hmac secret (c.encode raw)))
            (lacks raw),
        (same_bytes_iff (c.encode (c.hmac secret (c.encode raw))) _).1 refl,
        decodes raw,
      )
      refl

-- A token that GenerateJobToken makes for a job and a node verifies under the same secret as that
-- job and node until it expires, and as expired from then on, given that base64 decodes what it
-- encodes and uses no dot, that the ids have no bar, and that the expiry is an int64.
pub verify_job_token-generate_job_token :
    (c : Crypto) (secret : Bytes) (now ttl later : ℕ) (job node : String) (token : Bytes)
    → ((b : Bytes) → c.decode (c.encode b) ≡ some b)
    → ((b : Bytes) → Lacks b'.' (c.encode b))
    → Lacks b'|' (codes job)
    → Lacks b'|' (codes node)
    → unix (now + ttl) < 2 ^ 63
    → generate_job_token c secret now ttl job node ≡ some token
    → verify_job_token c secret later token
      ≡ (if ltb (unix (now + ttl)) (unix later) then expired else verified (codes job) (codes node))
unfolding generate_job_token
verify_job_token-generate_job_token c secret now ttl later job node token decodes lacks lj ln small
      h =
    elim (Bool-cases (job == "" || node == "")) [
      | inl bad ↦ absurd (none_bytes (rw bad at h))
      | inr good ↦
          ap (verify_job_token c secret later) (sym (some_bytes (rw good at h)))
          ∙ signed-checked c secret (claims job node (unix (now + ttl))) later decodes lacks
          ∙ payload-claims job node (unix (now + ttl)) later lj ln small
    ]
