-- ===== src/Allowlist.antt =====
-- The image allowlist of internal/agent/allowlist.go: digests and lookup. Image references and
-- digests are byte strings.
pub mod Digest
use so_ho_link.Base.{
  ℕ, ◌==◌, String, Bool, true, false, ◌&&◌, Option, none, some, List, [], ◌∷◌, if◌then◌else◌,
  number_equality,
}
use so_ho_link.Store.{Bytes}

pub record AllowlistEntry : Type 0 where
  pub name : String
  pub digest : Bytes
  pub workload : String  -- the field Type
  pub egress : String
  pub allowed_destinations : List String
  pub device_access : List String

pub record Allowlist : Type 0 where
  pub version : ℕ
  pub issued_at : ℕ
  pub entries : List AllowlistEntry
  pub signature : Bytes

abbrev pub same_bytes : Bytes → Bytes → Bool
same_bytes [] [] = true
same_bytes [] (y ∷ ys) = false
same_bytes (x ∷ xs) [] = false
same_bytes (x ∷ xs) (y ∷ ys) = x == y && same_bytes xs ys

-- What follows the last `c`, as strings.LastIndex finds it.
unfoldable pub after_last : ℕ → Bytes → Option Bytes
after_last c [] = none
after_last c (x ∷ xs) = elim (after_last c xs) [
  | some rest ↦ some rest
  | none ↦ if x == c then some xs else none
]

unfoldable pub has_prefix : Bytes → Bytes → Bool
has_prefix [] d = true
has_prefix (p ∷ ps) [] = false
has_prefix (p ∷ ps) (x ∷ xs) = x == p && has_prefix ps xs

abbrev pub sha256_prefix : Bytes
sha256_prefix = b's' ∷ b'h' ∷ b'a' ∷ b'2' ∷ b'5' ∷ b'6' ∷ b':' ∷ []

unfoldable pub longer : Bytes → Bytes → Bool
longer [] ys = false
longer (x ∷ xs) [] = true
longer (x ∷ xs) (y ∷ ys) = longer xs ys

unfoldable pub extract_digest : Bytes → Option Bytes
extract_digest image = elim (after_last b'@' image) [
  | none ↦ none
  | some d ↦ if has_prefix sha256_prefix d && longer d sha256_prefix then some d else none
]

pub data Lookup : Type 0 where
  not_pinned not_allowed : Lookup
  found : AllowlistEntry → Lookup

unfoldable pub find_digest : Bytes → List AllowlistEntry → Lookup
find_digest d [] = not_allowed
find_digest d (e ∷ es) = if same_bytes e.digest d then found e else find_digest d es

unfoldable pub lookup_image : Allowlist → Bytes → Lookup
lookup_image a image = elim (extract_digest image) [
  | none ↦ not_pinned
  | some d ↦ find_digest d a.entries
]
