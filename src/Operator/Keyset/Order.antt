-- ===== src/Operator/Keyset/Order.antt =====
-- The comparison of keys is a linear order, so that a keyset has one sorted list.
use mathlib.Core.Logic.{∥∥₁_elim}
use mathlib.Core.List.{Perm, Permᴰ}
use mathlib.Core.List.Permᴰ.{nil, cons, swap, trans}
use so_ho_link.Base.{
  ℕ, ◌≡◌, ◌∙◌, refl, sym, ap, inl, inr, Bool, true, false, List, [], ◌∷◌, arith, Bool-cases,
}
use so_ho_link.Operator.Keyset.{
  compare_bytes, is_negative, insert_key, sort_keys, concatenate, hash_sorted_pubkeys,
}

abbrev before : List ℕ → List ℕ → Bool
before a b = is_negative (compare_bytes a b)

-- Two keys neither of which comes first are the same.
before_antisym : (a b : List ℕ) → before a b ≡ false → before b a ≡ false → a ≡ b
unfolding compare_bytes
before_antisym [] [] h k = refl
before_antisym [] (y ∷ ys) h k = cc
before_antisym (x ∷ xs) [] h k = cc
before_antisym (x ∷ xs) (y ∷ ys) h k = ground (arith, before_antisym xs ys)

before_asym : (a b : List ℕ) → before a b ≡ true → before b a ≡ false
unfolding compare_bytes
before_asym [] [] h = cc
before_asym [] (y ∷ ys) h = refl
before_asym (x ∷ xs) [] h = cc
before_asym (x ∷ xs) (y ∷ ys) h = ground (arith, before_asym xs ys)

before_trans : (a b c : List ℕ) → before a b ≡ true → before b c ≡ true → before a c ≡ true
unfolding compare_bytes
before_trans [] [] c h k = cc
before_trans [] (y ∷ ys) [] h k = cc
before_trans [] (y ∷ ys) (z ∷ zs) h k = refl
before_trans (x ∷ xs) [] c h k = cc
before_trans (x ∷ xs) (y ∷ ys) [] h k = cc
before_trans (x ∷ xs) (y ∷ ys) (z ∷ zs) h k = ground (arith, before_trans xs ys zs)

insert_lt :
    (a b : List ℕ) (s : List (List ℕ))
    → before a b ≡ true
    → insert_key a (insert_key b s) ≡ insert_key b (insert_key a s)
unfolding insert_key
insert_lt a b [] h = ground (arith, before_asym a b h)
insert_lt a b (p ∷ ps) h = ground (arith, before_asym a b h, before_trans p a b, insert_lt a b ps h)

insert_swap :
    (a b : List ℕ) (s : List (List ℕ))
    → insert_key a (insert_key b s) ≡ insert_key b (insert_key a s)
insert_swap a b s = elim (Bool-cases (before a b)) [
  | inl lt ↦ insert_lt a b s lt
  | inr ge ↦ elim (Bool-cases (before b a)) [
    | inl gt ↦ sym (insert_lt b a s gt)
    | inr le ↦
        ap (λ c. insert_key a (insert_key c s)) (sym (before_antisym a b ge le))
        ∙ ap (λ c. insert_key c (insert_key a s)) (before_antisym a b ge le)
  ]
]

sort_keys-Permᴰ : {ps qs : List (List ℕ)} → Permᴰ ps qs → sort_keys ps ≡ sort_keys qs
unfolding sort_keys
sort_keys-Permᴰ nil = refl
sort_keys-Permᴰ (cons {a} {b} {l₁} {l₂} e d) =
    ap (λ k. insert_key k (sort_keys l₁)) e ∙ ap (insert_key b) (sort_keys-Permᴰ d)
sort_keys-Permᴰ (swap {a} {b} {a'} {b'} {l} e f) =
    insert_swap a b (sort_keys l)
    ∙ ap (λ k. insert_key k (insert_key a (sort_keys l))) f
    ∙ ap (λ k. insert_key a' (insert_key k (sort_keys l))) e
sort_keys-Permᴰ (trans d f) = sort_keys-Permᴰ d ∙ sort_keys-Permᴰ f

-- The hash of a keyset does not depend on the order in which the rows come, whatever the hash is.
pub hash_sorted_pubkeys-Perm :
    (sha256 : List ℕ → List ℕ) (ps qs : List (List ℕ))
    → Perm ps qs
    → hash_sorted_pubkeys sha256 ps ≡ hash_sorted_pubkeys sha256 qs
unfolding hash_sorted_pubkeys
hash_sorted_pubkeys-Perm sha256 ps qs p =
    ∥∥₁_elim p (hlevel) (λ d. ap (λ s. sha256 (concatenate s)) (sort_keys-Permᴰ d))
