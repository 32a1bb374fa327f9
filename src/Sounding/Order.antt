-- ===== src/Sounding/Order.antt =====
-- The tiers in ascending order, and the lowest and the highest one that answers a test.
use so_ho_link.Base.{
  ◌≡◌, inl, inr, ℤ, Bool, true, false, List, [], ◌∷◌, text_equality, ltb_ℤ, arith, Bool-cases, In,
  All,
}
use so_ho_link.Sounding.{Tier, insert_tier, sort_tiers}

module _ (tiers : List Tier) where
  -- A tier among those that answer a test, below none of which it ranks lower than another.
  pub record IsLowest (test : Tier → Bool) (t : Tier) : Type 0 where
    pub among : In t tiers
    pub answers : test t ≡ true
    pub lowest : All (λ u. test u ≡ true → ltb_ℤ u.order t.order ≡ false) tiers

  pub record IsHighest (test : Tier → Bool) (t : Tier) : Type 0 where
    pub among : In t tiers
    pub answers : test t ≡ true
    pub highest : All (λ u. test u ≡ true → ltb_ℤ t.order u.order ≡ false) tiers

  abbrev pub Nowhere : (Tier → Bool) → Type 0
  Nowhere test = All (λ u. test u ≡ false) tiers

insert-In : (x t : Tier) (us : List Tier) → In x (insert_tier t us) → In x (t ∷ us)
unfolding insert_tier
insert-In x t [] h = h
insert-In x t (u ∷ us) h = elim (Bool-cases (ltb_ℤ u.order t.order)) [
  | inr first ↦ rw first at h
  | inl later ↦ elim (rw later at h) [
    | inl at_u ↦ inr (inl at_u)
    | inr below ↦ elim (insert-In x t us below) [ inl at_t ↦ inl at_t | inr rest ↦ inr (inr rest) ]
  ]
]

pub sort-In : (x : Tier) (ts : List Tier) → In x (sort_tiers ts) → In x ts
unfolding sort_tiers
sort-In x [] h = h
sort-In x (t ∷ ts) h = elim (insert-In x t (sort_tiers ts) h) [
  | inl here ↦ inl here
  | inr there ↦ inr (sort-In x ts there)
]

module _ (P : Tier → Type 0) where
  insert-All : (t : Tier) (us : List Tier) → All P (insert_tier t us) → P t × All P us
  unfolding insert_tier
  insert-All t [] h = h
  insert-All t (u ∷ us) h = elim (Bool-cases (ltb_ℤ u.order t.order)) [
    | inr first ↦ rw first at h
    | inl later ↦
        let parts = rw later at h in
        let (at_t, rest) = insert-All t us parts.1 in (at_t, (parts.0, rest))
  ]

  All-insert : (t : Tier) (us : List Tier) → P t → All P us → All P (insert_tier t us)
  unfolding insert_tier
  All-insert t [] p h = (p, tt)
  All-insert t (u ∷ us) p h = elim (Bool-cases (ltb_ℤ u.order t.order)) [
    | inr first ↦ rw first (p, h)
    | inl later ↦ rw later (h.0, All-insert t us p h.1)
  ]

  pub sort-All : (ts : List Tier) → All P (sort_tiers ts) → All P ts
  unfolding sort_tiers
  sort-All [] h = tt
  sort-All (t ∷ ts) h =
      let (at_t, rest) = insert-All t (sort_tiers ts) h in (at_t, sort-All ts rest)

  pub All-map :
      (Q : Tier → Type 0) (ts : List Tier) → ((t : Tier) → P t → Q t) → All P ts → All Q ts
  All-map Q [] k h = tt
  All-map Q (t ∷ ts) k h = (k t h.0, All-map Q ts k h.1)

abbrev pub NotBelow : ℤ → Tier → Type 0
NotBelow n u = ltb_ℤ u.order n ≡ false

abbrev pub Ascending : List Tier → Type 0
Ascending [] = Unit
Ascending (t ∷ ts) = All (NotBelow t.order) ts × Ascending ts

pub not_below_trans : (a b c : ℤ) → ltb_ℤ b a ≡ false → ltb_ℤ c b ≡ false → ltb_ℤ c a ≡ false
not_below_trans a b c h k = ground arith

pub below_not : (a b : ℤ) → ltb_ℤ a b ≡ true → ltb_ℤ b a ≡ false
below_not a b h = ground arith

pub not_below_self : (a : ℤ) → ltb_ℤ a a ≡ false
not_below_self a = ground arith

insert-Ascending : (t : Tier) (us : List Tier) → Ascending us → Ascending (insert_tier t us)
unfolding insert_tier
insert-Ascending t [] h = (tt, tt)
insert-Ascending t (u ∷ us) h = elim (Bool-cases (ltb_ℤ u.order t.order)) [
  | inl later ↦ rw later (
    All-insert (NotBelow u.order) t us (below_not u.order t.order later) h.0,
    insert-Ascending t us h.1,
  )
  | inr first ↦ rw first (
    (
      first,
      All-map (NotBelow u.order) (NotBelow t.order) us
          (λ x k. not_below_trans t.order u.order x.order first k) h.0,
    ),
    h,
  )
]

pub sort-Ascending : (ts : List Tier) → Ascending (sort_tiers ts)
unfolding sort_tiers
sort-Ascending [] = tt
sort-Ascending (t ∷ ts) = insert-Ascending t (sort_tiers ts) (sort-Ascending ts)
