-- ===== src/Sounding/Rungs.antt =====
-- What a rejection is classified as, against the tiers in any order.
use so_ho_link.Base.{
  ◌≡◌, refl, sym, subst, inl, inr, String, ℤ, Bool, Option, none, some, List, [], ◌∷◌, ◌==◌,
  text_equality, ltb_ℤ, Bool-cases, ◌≤ℤ◌, In, All, ◌∙◌, eq_of_same, false≢true, ◌&&◌, not, true,
  false, arith,
}
use so_ho_link.Sounding.{
  reason_no_capacity, Tier, state_coming_soon, insert_tier, sort_tiers, new_ladder, top_from,
  top_coming_soon, offers, first_fit, fit_rung, name_fit, classify_tiers, classify_rejection,
}
use so_ho_link.Sounding.Order.{IsLowest, IsHighest, Nowhere, All-map, sort-All, sort-Ascending}
use so_ho_link.Sounding.Loops.{
  sorted-IsLowest, sorted-IsHighest, FitOf, first_fit-FitOf, TopOf, top_from-TopOf, IsHighest-of,
}

-- A tier that is on offer, and has room for the job.
pub record Offers (cpu mem disk : ℤ) (t : Tier) : Type 0 where
  pub on_offer : t.state ≡ "available"
  pub cpu_room : cpu ≤ℤ t.cpu_ceiling
  pub mem_room : mem ≤ℤ t.mem_ceiling
  pub disk_room : disk ≤ℤ t.disk_ceiling

abbrev pub Coming : Tier → Type 0
Coming t = t.state ≡ "coming_soon"

module _ (tiers : List Tier) (Q : Tier → Type 0) where
  -- One of the tiers that is `Q`, and ranks below or above none of these.
  abbrev pub Lowest : Tier → Type 0
  Lowest t = In t tiers × Q t × All (λ u. Q u → t.order ≤ℤ u.order) tiers

  abbrev pub Highest : Tier → Type 0
  Highest t = In t tiers × Q t × All (λ u. Q u → u.order ≤ℤ t.order) tiers

  abbrev pub None : Type 0
  None = All (λ u. ¬ Q u) tiers

-- The reason and the wanted rung that the tiers give for a job.
pub data Classified (tiers : List Tier) (cpu mem disk : ℤ) : String × String → Type 0 where
  no_ladder : tiers ≡ [] → Classified tiers cpu mem disk ("no_capacity", "")
  backlog :
      (t : Tier)
      → Lowest tiers (Offers cpu mem disk) t
      → Classified tiers cpu mem disk ("no_capacity", t.name)
  towering :
      (t : Tier)
      → None tiers (Offers cpu mem disk)
      → Highest tiers Coming t
      → Classified tiers cpu mem disk ("too_big", t.name)
  unmatched :
      None tiers (Offers cpu mem disk)
      → None tiers Coming
      → Classified tiers cpu mem disk ("no_matching_tier", "")

at_least : (a b : ℤ) → ltb_ℤ b a ≡ false → a ≤ℤ b
at_least a b h = ground arith

within : (x c : ℤ) → not (ltb_ℤ c x) ≡ true → x ≤ℤ c
within x c h = ground arith

under : (x c : ℤ) → x ≤ℤ c → not (ltb_ℤ c x) ≡ true
under x c h = ground arith

both :
    (a b c d : Bool) → a && (b && c && d) ≡ true → (a ≡ true) × (b ≡ true) × (c ≡ true) × (d ≡ true)
both a b c d h = ground arith

module _ (cpu mem disk : ℤ) (t : Tier) where
  offers-Offers : offers cpu mem disk t ≡ true → Offers cpu mem disk t
  offers-Offers h =
      let (s, a, b, c) = both _ _ _ _ h in
      record {
        on_offer = eq_of_same s;
        cpu_room = within cpu t.cpu_ceiling a;
        mem_room = within mem t.mem_ceiling b;
        disk_room = within disk t.disk_ceiling c;
      }

  Offers-offers : Offers cpu mem disk t → offers cpu mem disk t ≡ true
  Offers-offers o =
      rw
        (
          o.on_offer,
          under cpu t.cpu_ceiling o.cpu_room,
          under mem t.mem_ceiling o.mem_room,
          under disk t.disk_ceiling o.disk_room,
        )
        refl

Coming-same : (t : Tier) → Coming t → (t.state == state_coming_soon) ≡ true
Coming-same t e = subst (λ x. (x == state_coming_soon) ≡ true) (sym e) refl

-- From the tests of the loops to what they mean.
module _ (test : Tier → Bool) (Q : Tier → Type 0) (ts : List Tier)
    (to : (t : Tier) → test t ≡ true → Q t) (from : (t : Tier) → Q t → test t ≡ true) where
  to_lowest : (t : Tier) → IsLowest ts test t → Lowest ts Q t
  to_lowest t k = (
    k.among,
    to t k.answers,
    All-map _ _ ts (λ u h q. at_least t.order u.order (h (from u q))) k.lowest,
  )

  to_highest : (t : Tier) → IsHighest ts test t → Highest ts Q t
  to_highest t k = (
    k.among,
    to t k.answers,
    All-map _ _ ts (λ u h q. at_least u.order t.order (h (from u q))) k.highest,
  )

  to_none : Nowhere ts test → None ts Q
  to_none k = All-map _ _ ts (λ u h q. false≢true (sym h ∙ from u q)) k

module _ (tiers : List Tier) (cpu mem disk : ℤ) where
  named :
      (fit : Option String) (top : Option Tier)
      → FitOf cpu mem disk (sort_tiers tiers) fit
      → TopOf state_coming_soon none (sort_tiers tiers) top
      → Classified tiers cpu mem disk (name_fit fit top)
  named (some rung) top (t, e, k) found =
      subst (λ x. Classified tiers cpu mem disk (reason_no_capacity, x)) e
        (backlog t (
          to_lowest (offers cpu mem disk) (Offers cpu mem disk) tiers (offers-Offers cpu mem disk)
            (Offers-offers cpu mem disk) t (sorted-IsLowest (offers cpu mem disk) tiers t k)))
  named none (some t) nowhere found =
      towering t
        (to_none (offers cpu mem disk) (Offers cpu mem disk) tiers (offers-Offers cpu mem disk)
          (Offers-offers cpu mem disk) (sort-All _ tiers nowhere))
        (to_highest (λ u. u.state == state_coming_soon) Coming tiers (λ u h. eq_of_same h)
          Coming-same t
          (sorted-IsHighest (λ u. u.state == state_coming_soon) tiers t
            (IsHighest-of state_coming_soon (sort_tiers tiers) t found)))
  named none none nowhere found =
      unmatched
        (to_none (offers cpu mem disk) (Offers cpu mem disk) tiers (offers-Offers cpu mem disk)
          (Offers-offers cpu mem disk) (sort-All _ tiers nowhere))
        (to_none (λ u. u.state == state_coming_soon) Coming tiers (λ u h. eq_of_same h) Coming-same
          (sort-All _ tiers found.1))

cons_insert :
    (fit : Option String) (top : Option Tier) (t : Tier) (us : List Tier)
    → classify_tiers fit top (insert_tier t us) ≡ name_fit fit top
unfolding insert_tier
cons_insert fit top t [] = refl
cons_insert fit top t (u ∷ us) = elim (Bool-cases (ltb_ℤ u.order t.order)) [
  | inl later ↦ rw later refl
  | inr first ↦ rw first refl
]

-- A rejection is for want of room where an available tier fits the job, and the lowest such tier is
-- wanted, or where there is no tier at all. Otherwise the job is too big and the highest coming tier is
-- wanted, or there is no coming tier, and none matches. The order of the tiers does not matter.
pub classify_rejection-Classified :
    (tiers : List Tier) (cpu mem disk : ℤ)
    → Classified tiers cpu mem disk (classify_rejection (new_ladder tiers) cpu mem disk)
unfolding classify_rejection fit_rung top_coming_soon new_ladder sort_tiers
classify_rejection-Classified [] cpu mem disk = no_ladder refl
classify_rejection-Classified (t ∷ ts) cpu mem disk =
    let ls = sort_tiers (t ∷ ts) in
    subst (Classified (t ∷ ts) cpu mem disk)
      (sym (
        cons_insert (first_fit cpu mem disk ls) (top_from state_coming_soon none ls) t
          (sort_tiers ts)))
      (named (t ∷ ts) cpu mem disk (first_fit cpu mem disk ls) (top_from state_coming_soon none ls)
        (first_fit-FitOf cpu mem disk ls (sort-Ascending (t ∷ ts)))
        (top_from-TopOf state_coming_soon ls none))
