-- ===== src/Token.antt =====
-- Job tokens: internal/orchestrator/token.go. Texts are their bytes; the base64 and HMAC of Go's
-- library are parameters.
pub mod RoundTrip
mod Tests
use Prim.Native.Char.{code}
use so_ho_link.Base.{
  ℕ, zero, suc, ◌+◌, ◌-◌, ◌*◌, ◌/◌, ◌%◌, ◌^◌, String, Bool, true, false, ◌&&◌, ◌||◌, Option, none,
  some, List, [], ◌∷◌, ◌++◌, ◌==◌, text_equality, number_equality, if◌then◌else◌, ltb, leb, ℤ, pos,
  sub_ℕ, ltb_ℤ,
}
use mathlib.Core.Option
use so_ho_link.Allowlist.{same_bytes}
use so_ho_link.Store.{Bytes}

pub record Crypto : Type 0 where
  pub encode : Bytes → Bytes  -- base64.RawURLEncoding.EncodeToString
  pub decode : Bytes → Option Bytes
  pub hmac : Bytes → Bytes → Bytes  -- hmac-sha256 under a secret

abbrev pub codes : String → Bytes
codes String.[] = []
codes (String.◌∷◌ c s) = code c ∷ codes s

-- The decimal digits of `%d`, in front of what follows; the fuel exceeds the number.
unfoldable pub digits_before : ℕ → ℕ → Bytes → Bytes
digits_before zero n rest = rest
digits_before (suc fuel) n rest =
    let more = digits_before fuel (n / 10) ((b'0' + n % 10) ∷ rest) in
    if ltb n 10 then (b'0' + n) ∷ rest else more

unfoldable pub decimal : ℕ → Bytes
unfolding digits_before
decimal n = digits_before (suc n) n []

-- `t.Unix()`, for a time after 1970 in nanoseconds since Go's zero time.
abbrev pub unix : ℕ → ℕ
unix t = t / 1_000_000_000 - 62_135_596_800

unfoldable pub claims : String → String → ℕ → Bytes
unfolding decimal
claims job_id node_id expire = codes job_id ++ (b'|' ∷ (codes node_id ++ (b'|' ∷ decimal expire)))

unfoldable pub generate_job_token : Crypto → Bytes → ℕ → ℕ → String → String → Option Bytes
unfolding claims
generate_job_token c secret now ttl job_id node_id =
    if job_id == "" || node_id == ""
    then none
    else (let payload = c.encode (claims job_id node_id (unix (now + ttl))) in
        some (payload ++ (b'.' ∷ c.encode (c.hmac secret payload))))

-- strings.SplitN(s, ".", 2): the two parts, if there is a separator.
unfoldable pub split_first : ℕ → Bytes → Option (Bytes × Bytes)
split_first c [] = none
split_first c (x ∷ xs) =
    let rest = split_first c xs in
    if x == c then some ([], xs) else elim rest [ none ↦ none | some (a, b) ↦ some (x ∷ a, b) ]

-- strings.Split: the first part, and the others.
unfoldable pub split_all : ℕ → Bytes → Bytes × List Bytes
split_all c [] = ([], [])
split_all c (x ∷ xs) =
    let (part, parts) = split_all c xs in if x == c then ([], part ∷ parts) else (x ∷ part, parts)

abbrev pub is_digit : ℕ → Bool
is_digit x = leb b'0' x && leb x b'9'

unfoldable pub parse_digits : ℕ → Bytes → Option ℕ
parse_digits acc [] = some acc
parse_digits acc (x ∷ xs) =
    let rest = parse_digits (acc * 10 + (x - b'0')) xs in if is_digit x then rest else none

unfoldable pub parse_magnitude : Bytes → Option ℕ
parse_magnitude [] = none
parse_magnitude (x ∷ xs) = parse_digits 0 (x ∷ xs)

abbrev pub in_range : ℕ → Option ℕ → Option ℕ
in_range bound none = none
in_range bound (some n) = if leb n bound then some n else none

-- strconv.ParseInt(s, 10, 64).
unfoldable pub parse_int : Bytes → Option ℤ
unfolding parse_magnitude
parse_int [] = none
parse_int (x ∷ xs) =
    if x == b'-'
    then Option.map (λ n. sub_ℕ 0 n) (in_range (2 ^ 63) (parse_magnitude xs))
    else if x == b'+'
    then Option.map (λ n. pos n) (in_range (2 ^ 63 - 1) (parse_magnitude xs))
    else Option.map (λ n. pos n) (in_range (2 ^ 63 - 1) (parse_magnitude (x ∷ xs)))

pub data Verified : Type 0 where
  invalid_format invalid_signature undecodable malformed_claims bad_expiry expired : Verified
  verified : Bytes → Bytes → Verified

abbrev pub check_expiry : ℕ → Bytes → Bytes → Option ℤ → Verified
check_expiry now job node none = bad_expiry
check_expiry now job node (some expire) =
    if ltb_ℤ expire (pos (unix now)) then expired else verified job node

abbrev pub check_claims : ℕ → Bytes × List Bytes → Verified
check_claims now (job, node ∷ expire ∷ []) = check_expiry now job node (parse_int expire)
check_claims now (job, _) = malformed_claims

abbrev pub check_payload : ℕ → Option Bytes → Verified
check_payload now none = undecodable
check_payload now (some raw) = check_claims now (split_all b'|' raw)

abbrev pub check_signed : Crypto → Bytes → ℕ → Option (Bytes × Bytes) → Verified
check_signed c secret now none = invalid_format
check_signed c secret now (some (payload, sig)) =
    if same_bytes sig (c.encode (c.hmac secret payload))
    then check_payload now (c.decode payload)
    else invalid_signature

unfoldable pub verify_job_token : Crypto → Bytes → ℕ → Bytes → Verified
unfolding split_first split_all parse_int
verify_job_token c secret now token = check_signed c secret now (split_first b'.' token)
