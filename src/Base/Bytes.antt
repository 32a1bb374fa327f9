-- ===== src/Base/Bytes.antt =====
-- Byte strings: their equality, and the ASCII part of Go's strings package.
use Prim.Native.Nat.{ℕ, ◌+◌}
use mathlib.Core.Path.{◌≡◌, refl}
use mathlib.Core.Logic.{◌↔◌}
use mathlib.Core.Bool.{Bool, true, false, ◌&&◌, ◌||◌}
use mathlib.Core.List.{List, [], ◌∷◌}
use native.Mathlib.Omega.{arith}
use so_ho_link.Base.Tests.{Equality, nat_same, nat_same_iff, leb, if◌then◌else◌}

abbrev pub bytes_same : List ℕ → List ℕ → Bool
bytes_same [] [] = true
bytes_same [] (y ∷ ys) = false
bytes_same (x ∷ xs) [] = false
bytes_same (x ∷ xs) (y ∷ ys) = nat_same x y && bytes_same xs ys

pub bytes_same_iff : (xs ys : List ℕ) → (bytes_same xs ys ≡ true) ↔ (xs ≡ ys)
bytes_same_iff [] [] = ((λ h. refl), λ h. refl)
bytes_same_iff [] (y ∷ ys) = ((λ h. cc), λ h. cc)
bytes_same_iff (x ∷ xs) [] = ((λ h. cc), λ h. cc)
bytes_same_iff (x ∷ xs) (y ∷ ys) =
    let (to, from) = bytes_same_iff xs ys in
    ((λ h. ground (arith, nat_same_iff x y, to)), λ h. ground (arith, nat_same_iff x y, from))

instance abbrev pub bytes_equality : Equality (List ℕ)
bytes_equality = record { same_iff = bytes_same_iff; same = bytes_same }

-- Tab, line feed, vertical tab, form feed, carriage return and space.
abbrev pub is_space : ℕ → Bool
is_space c = leb 9 c && leb c 13 || nat_same c 32

unfoldable pub trim_left : List ℕ → List ℕ
trim_left [] = []
trim_left (c ∷ cs) = let rest = trim_left cs in if is_space c then rest else c ∷ cs

abbrev pub keep_unless_blank : ℕ → List ℕ → List ℕ
keep_unless_blank c [] = if is_space c then [] else c ∷ []
keep_unless_blank c (d ∷ ds) = c ∷ d ∷ ds

unfoldable pub trim_right : List ℕ → List ℕ
trim_right [] = []
trim_right (c ∷ cs) = keep_unless_blank c (trim_right cs)

-- strings.TrimSpace
unfoldable pub trim_space : List ℕ → List ℕ
unfolding trim_left trim_right
trim_space s = trim_right (trim_left s)

abbrev pub lower_byte : ℕ → ℕ
lower_byte c = if leb 65 c && leb c 90 then c + 32 else c

-- strings.ToLower
unfoldable pub to_lower : List ℕ → List ℕ
to_lower [] = []
to_lower (c ∷ cs) = lower_byte c ∷ to_lower cs
