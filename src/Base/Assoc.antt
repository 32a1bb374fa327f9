-- ===== src/Base/Assoc.antt =====
-- A Go map as an association list: the keys of `insert` stay unique, and the order stands for
-- the order of iteration, which Go leaves open.
use mathlib.Core.Path.{◌≡◌, refl, subst₂}
use mathlib.Core.Logic.{inl, inr}
use mathlib.Core.Option.{Option, none, some}
use mathlib.Core.List.{List, [], ◌∷◌}
use native.Mathlib.Omega.{arith}
use so_ho_link.Base.Tests.{Equality, ◌==◌, if◌then◌else◌, Bool-cases, eq_of_same}

module _ {K : Type 0} {V : Type 0} ⦃q : Equality K⦄ where
  abbrev pub lookup : K → List (K × V) → Option V
  lookup key [] = none
  lookup key ((at, value) ∷ others) = if at == key then some value else lookup key others

  -- Go's assignment `m[key] = value`.
  abbrev pub insert : K → V → List (K × V) → List (K × V)
  insert key value [] = (key, value) ∷ []
  insert key value ((at, old) ∷ others) =
      let kept = insert key value others in
      if at == key then (key, value) ∷ others else (at, old) ∷ kept

  -- Go's `delete`.
  abbrev pub remove : K → List (K × V) → List (K × V)
  remove key [] = []
  remove key ((at, old) ∷ others) =
      let kept = remove key others in if at == key then kept else (at, old) ∷ kept

  pub lookup-insert :
      (key j : K) (value : V) (m : List (K × V))
      → lookup j (insert key value m) ≡ (if key == j then some value else lookup j m)
  lookup-insert key j value [] = refl
  lookup-insert key j value ((at, old) ∷ others) = ground (
    arith,
    lookup-insert key j value others,
    q.same_iff at key,
    q.same_iff key j,
    q.same_iff at j,
  )

  pub lookup-remove :
      (key j : K) (m : List (K × V))
      → lookup j (remove key m) ≡ (if key == j then none else lookup j m)
  lookup-remove key j [] = ground arith
  lookup-remove key j ((at, old) ∷ others) =
      ground
        (arith, lookup-remove key j others, q.same_iff at key, q.same_iff key j, q.same_iff at j)

module _ {K : Type 0} {V : Type 0} ⦃e : Equality K⦄ where
  -- No key stands twice.
  abbrev pub Distinct : List (K × V) → Type 0
  Distinct [] = Unit
  Distinct ((k, _) ∷ m) = (lookup k m ≡ none) × Distinct m

  pub insert-Distinct : (k : K) (v : V) (m : List (K × V)) → Distinct m → Distinct (insert k v m)
  insert-Distinct k v [] d = (refl, tt)
  insert-Distinct k v ((j, w) ∷ m) d =
      ground
        (arith, e.same_iff j k, e.same_iff k j, lookup-insert k j v m, insert-Distinct k v m d.1)

  pub remove-Distinct : (k : K) (m : List (K × V)) → Distinct m → Distinct (remove k m)
  remove-Distinct k [] d = tt
  remove-Distinct k ((j, w) ∷ m) d = ground (arith, lookup-remove k j m, remove-Distinct k m d.1)

module _ {K : Type 0} {V : Type 0} (P : K → V → Type 0) ⦃e : Equality K⦄ where
  -- A property of every entry.
  abbrev pub Each : List (K × V) → Type 0
  Each [] = Unit
  Each ((k, v) ∷ m) = P k v × Each m

  pub insert-Each : (k : K) (v : V) (m : List (K × V)) → P k v → Each m → Each (insert k v m)
  insert-Each k v [] p q = (p, tt)
  insert-Each k v ((j, w) ∷ m) p q = elim (Bool-cases (j == k)) [
    | inl same ↦ rw same (p, q.1)
    | inr other ↦ rw other (q.0, insert-Each k v m p q.1)
  ]

  pub remove-Each : (k : K) (m : List (K × V)) → Each m → Each (remove k m)
  remove-Each k [] q = tt
  remove-Each k ((j, w) ∷ m) q = elim (Bool-cases (j == k)) [
    | inl same ↦ rw same (remove-Each k m q.1)
    | inr other ↦ rw other (q.0, remove-Each k m q.1)
  ]

  pub lookup-Each : (k : K) {v : V} (m : List (K × V)) → Each m → lookup k m ≡ some v → P k v
  lookup-Each k {v} [] q h = cc
  lookup-Each k {v} ((j, w) ∷ m) q h = elim (Bool-cases (j == k)) [
    | inl same ↦ subst₂ P (eq_of_same same) (ground arith) q.0
    | inr other ↦ lookup-Each k m q.1 (rw other at h)
  ]
