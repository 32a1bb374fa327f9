-- ===== src/Sounding/Loops.antt =====
-- What the loops of FitRung and of topComingSoon find.
use so_ho_link.Base.{
  ◌≡◌, ◌∙◌, refl, sym, subst, ◌⊎◌, inl, inr, String, ℤ, Bool, true, false, Option, none, some, List,
  [], ◌∷◌, ◌==◌, text_equality, ltb_ℤ, Bool-cases, In, All, false≢true,
}
use so_ho_link.Sounding.{Tier, sort_tiers, higher, top_from, offers, first_fit}
use so_ho_link.Sounding.Order.{
  IsLowest, IsHighest, Nowhere, sort-In, sort-All, All-map, NotBelow, Ascending, not_below_trans,
  below_not, not_below_self,
}

module _ (test : Tier → Bool) where
  skip-IsLowest :
      (t r : Tier) (ts : List Tier) → test t ≡ false → IsLowest ts test r → IsLowest (t ∷ ts) test r
  skip-IsLowest t r ts miss k = record {
    among = inr k.among;
    answers = k.answers;
    lowest = (λ h. absurd (false≢true (sym miss ∙ h)), k.lowest);
  }

  -- The first tier of an ascending list that answers.
  head-IsLowest :
      (t : Tier) (ts : List Tier)
      → test t ≡ true
      → All (NotBelow t.order) ts
      → IsLowest (t ∷ ts) test t
  head-IsLowest t ts hit k = record {
    among = inl refl;
    answers = hit;
    lowest = (
      λ h. not_below_self t.order,
      All-map (NotBelow t.order) (λ u. test u ≡ true → ltb_ℤ u.order t.order ≡ false) ts
          (λ u below h. below) k,
    );
  }

  pub sorted-IsLowest :
      (ts : List Tier) (t : Tier) → IsLowest (sort_tiers ts) test t → IsLowest ts test t
  sorted-IsLowest ts t k = record {
    among = sort-In t ts k.among;
    answers = k.answers;
    lowest = sort-All _ ts k.lowest;
  }

  pub sorted-IsHighest :
      (ts : List Tier) (t : Tier) → IsHighest (sort_tiers ts) test t → IsHighest ts test t
  sorted-IsHighest ts t k = record {
    among = sort-In t ts k.among;
    answers = k.answers;
    highest = sort-All _ ts k.highest;
  }

module _ (cpu mem disk : ℤ) where
  abbrev pub FitOf : List Tier → Option String → Type 0
  FitOf ts none = Nowhere ts (offers cpu mem disk)
  FitOf ts (some rung) = (t : Tier) × (t.name ≡ rung) × IsLowest ts (offers cpu mem disk) t

  skipped :
      (t : Tier) (ts : List Tier) (o : Option String)
      → offers cpu mem disk t ≡ false
      → FitOf ts o
      → FitOf (t ∷ ts) o
  skipped t ts none miss k = (miss, k)
  skipped t ts (some rung) miss (r, e, k) =
      (r, e, skip-IsLowest (offers cpu mem disk) t r ts miss k)

  pub first_fit-FitOf : (ts : List Tier) → Ascending ts → FitOf ts (first_fit cpu mem disk ts)
  unfolding first_fit
  first_fit-FitOf [] up = tt
  first_fit-FitOf (t ∷ ts) up = elim (Bool-cases (offers cpu mem disk t)) [
    | inl hit ↦ rw hit (t, refl, head-IsLowest (offers cpu mem disk) t ts hit up.0)
    | inr miss ↦ rw miss (skipped t ts (first_fit cpu mem disk ts) miss (first_fit-FitOf ts up.1))
  ]

module _ (state : String) where
  abbrev in_state : Tier → Bool
  in_state t = t.state == state

  abbrev Beats : Tier → Option Tier → Type 0
  Beats r none = Unit
  Beats r (some p) = ltb_ℤ r.order p.order ≡ false

  -- The answer of the loop, which has found `top` before.
  abbrev pub TopOf : Option Tier → List Tier → Option Tier → Type 0
  TopOf top ts none = (top ≡ none) × Nowhere ts in_state
  TopOf top ts (some r) =
      ((top ≡ some r) ⊎ (In r ts × (in_state r ≡ true)))
      × Beats r top
      × All (λ u. in_state u ≡ true → ltb_ℤ r.order u.order ≡ false) ts

  some-none : {t : Tier} → some t ≡ none → ⊥
  some-none h = cc

  same_tier : {t u : Tier} → some t ≡ some u → t ≡ u
  same_tier h = cc

  -- What beats the higher of two tiers beats both.
  Beats-both :
      (t r : Tier) (top : Option Tier)
      → Beats r (some (higher t top))
      → Beats r top × (ltb_ℤ r.order t.order ≡ false)
  Beats-both t r none b = (tt, b)
  Beats-both t r (some p) b = elim (Bool-cases (ltb_ℤ p.order t.order)) [
    | inl over ↦
        let past_t : ltb_ℤ r.order t.order ≡ false = rw over at b in
        (not_below_trans p.order t.order r.order (below_not p.order t.order over) past_t, past_t)
    | inr under ↦
        let past_p : ltb_ℤ r.order p.order ≡ false = rw under at b in
        (past_p, not_below_trans t.order p.order r.order under past_p)
  ]

  found-In :
      (t r : Tier) (ts : List Tier) (top : Option Tier)
      → in_state t ≡ true
      → some (higher t top) ≡ some r
      → (top ≡ some r) ⊎ (In r (t ∷ ts) × (in_state r ≡ true))
  found-In t r ts none hit e =
      inr (inl (sym (same_tier e)), subst (λ x. in_state x ≡ true) (same_tier e) hit)
  found-In t r ts (some p) hit e = elim (Bool-cases (ltb_ℤ p.order t.order)) [
    | inl over ↦
        let same : t ≡ r = same_tier (rw over at e) in
        inr (inl (sym same), subst (λ x. in_state x ≡ true) same hit)
    | inr under ↦ inl (rw under at e)
  ]

  taken :
      (t : Tier) (ts : List Tier) (top o : Option Tier)
      → in_state t ≡ true
      → TopOf (some (higher t top)) ts o
      → TopOf top (t ∷ ts) o
  taken t ts top none hit k = absurd (some-none k.0)
  taken t ts top (some r) hit (from, beats, rest) =
      let (both, over_t) = Beats-both t r top beats in
      (
        elim from [ inl e ↦ found-In t r ts top hit e | inr there ↦ inr (inr there.0, there.1) ],
        both,
        (λ h. over_t, rest),
      )

  passed_over :
      (t : Tier) (ts : List Tier) (top o : Option Tier)
      → in_state t ≡ false
      → TopOf top ts o
      → TopOf top (t ∷ ts) o
  passed_over t ts top none miss k = (k.0, (miss, k.1))
  passed_over t ts top (some r) miss (from, beats, rest) = (
    elim from [ inl e ↦ inl e | inr there ↦ inr (inr there.0, there.1) ],
    beats,
    (λ h. absurd (false≢true (sym miss ∙ h)), rest),
  )

  pub top_from-TopOf : (ts : List Tier) (top : Option Tier) → TopOf top ts (top_from state top ts)
  unfolding top_from
  top_from-TopOf [] none = (refl, tt)
  top_from-TopOf [] (some p) = (inl refl, not_below_self p.order, tt)
  top_from-TopOf (t ∷ ts) top = elim (Bool-cases (in_state t)) [
    | inl hit ↦ rw hit (taken t ts top _ hit (top_from-TopOf ts (some (higher t top))))
    | inr miss ↦ rw miss (passed_over t ts top _ miss (top_from-TopOf ts top))
  ]

  pub IsHighest-of : (ts : List Tier) (r : Tier) → TopOf none ts (some r) → IsHighest ts in_state r
  IsHighest-of ts r (from, beats, rest) = elim from [
    | inl e ↦ absurd (some-none (sym e))
    | inr there ↦ record { among = there.0; answers = there.1; highest = rest }
  ]
