-- ===== src/Operator/Keyset.antt =====
-- The hash of a keyset (internal/operator/repository.go): of the keys in the order of their bytes.
pub mod Order
use so_ho_link.Base.{
  ℤ, pos, negsuc, zero, ℕ, Bool, true, false, List, [], ◌∷◌, ◌++◌, ltb, if◌then◌else◌,
}

-- stringsCompareBytes: -1, 0 or 1. The first byte that differs decides, then the length.
unfoldable pub compare_bytes : List ℕ → List ℕ → ℤ
compare_bytes [] [] = pos 0
compare_bytes [] (y ∷ ys) = negsuc 0
compare_bytes (x ∷ xs) [] = pos 1
compare_bytes (x ∷ xs) (y ∷ ys) =
    let rest = compare_bytes xs ys in if ltb x y then negsuc 0 else if ltb y x then pos 1 else rest

abbrev pub is_negative : ℤ → Bool
is_negative (pos n) = false
is_negative (negsuc n) = true

-- sort.Slice by that comparison: keys that compare equal are equal, so that any way to sort gives
-- this list.
unfoldable pub insert_key : List ℕ → List (List ℕ) → List (List ℕ)
insert_key k [] = k ∷ []
insert_key k (p ∷ ps) =
    let rest = insert_key k ps in if is_negative (compare_bytes p k) then p ∷ rest else k ∷ p ∷ ps

unfoldable pub sort_keys : List (List ℕ) → List (List ℕ)
sort_keys [] = []
sort_keys (p ∷ ps) = insert_key p (sort_keys ps)

abbrev pub concatenate : List (List ℕ) → List ℕ
concatenate [] = []
concatenate (p ∷ ps) = p ++ concatenate ps

-- `sha256` is the hash of the standard library.
unfoldable pub hash_sorted_pubkeys : (List ℕ → List ℕ) → List (List ℕ) → List ℕ
hash_sorted_pubkeys sha256 pubs = sha256 (concatenate (sort_keys pubs))
