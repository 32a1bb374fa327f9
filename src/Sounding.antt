-- ===== src/Sounding.antt =====
-- The ladder of rungs of internal/sounding/classify.go, by which a job that found no node is
-- classified. The float of a processor ceiling is only compared, so it is an integer here.
pub mod Order
pub mod Loops
pub mod Rungs
pub mod Tests
use so_ho_link.Base.{
  ℕ, String, ℤ, Bool, true, false, not, ◌&&◌, Option, none, some, List, [], ◌∷◌, ◌==◌,
  text_equality, if◌then◌else◌, ltb_ℤ,
}

abbrev pub reason_too_big : String
reason_too_big = "too_big"

abbrev pub reason_no_matching_tier : String
reason_no_matching_tier = "no_matching_tier"

abbrev pub reason_no_capacity : String
reason_no_capacity = "no_capacity"

pub record Tier : Type 0 where
  pub name : String
  pub order : ℤ
  pub cpu_ceiling : ℤ
  pub mem_ceiling : ℤ
  pub disk_ceiling : ℤ
  pub state : String

abbrev pub state_available : String
state_available = "available"

abbrev pub state_coming_soon : String
state_coming_soon = "coming_soon"

-- The tiers, ascending by their order.
pub record Ladder : Type 0 where
  pub tiers : List Tier

unfoldable pub insert_tier : Tier → List Tier → List Tier
insert_tier t [] = t ∷ []
insert_tier t (u ∷ us) =
    let rest = insert_tier t us in if ltb_ℤ u.order t.order then u ∷ rest else t ∷ u ∷ us

-- sort.SliceStable: of two tiers of the same order the first stays first.
unfoldable pub sort_tiers : List Tier → List Tier
unfolding insert_tier
sort_tiers [] = []
sort_tiers (t ∷ ts) = insert_tier t (sort_tiers ts)

unfoldable pub new_ladder : List Tier → Ladder
unfolding sort_tiers
new_ladder tiers = record { tiers = sort_tiers tiers }

abbrev pub higher : Tier → Option Tier → Tier
higher t none = t
higher t (some top) = if ltb_ℤ top.order t.order then t else top

-- The loop of topAvailable and topComingSoon.
unfoldable pub top_from : String → Option Tier → List Tier → Option Tier
top_from state top [] = top
top_from state top (t ∷ ts) =
    let skipped = top_from state top ts in
    let taken = top_from state (some (higher t top)) ts in
    if t.state == state then taken else skipped

unfoldable pub top_coming_soon : Ladder → Option Tier
unfolding top_from
top_coming_soon l = top_from state_coming_soon none l.tiers

abbrev pub fits : ℤ → ℤ → ℤ → Tier → Bool
fits cpu mem disk t =
    not (ltb_ℤ t.cpu_ceiling cpu)
    && not (ltb_ℤ t.mem_ceiling mem)
    && not (ltb_ℤ t.disk_ceiling disk)

abbrev pub offers : ℤ → ℤ → ℤ → Tier → Bool
offers cpu mem disk t = t.state == state_available && fits cpu mem disk t

-- The loop of FitRung.
unfoldable pub first_fit : ℤ → ℤ → ℤ → List Tier → Option String
first_fit cpu mem disk [] = none
first_fit cpu mem disk (t ∷ ts) =
    let rest = first_fit cpu mem disk ts in if offers cpu mem disk t then some t.name else rest

unfoldable pub fit_rung : Ladder → ℤ → ℤ → ℤ → Option String
unfolding first_fit
fit_rung l cpu mem disk = first_fit cpu mem disk l.tiers

abbrev pub name_coming_soon : Option Tier → String × String
name_coming_soon (some t) = (reason_too_big, t.name)
name_coming_soon none = (reason_no_matching_tier, "")

abbrev pub name_fit : Option String → Option Tier → String × String
name_fit (some rung) top = (reason_no_capacity, rung)
name_fit none top = name_coming_soon top

-- The reason, and the rung that was wanted.
abbrev pub classify_tiers : Option String → Option Tier → List Tier → String × String
classify_tiers fit top [] = (reason_no_capacity, "")
classify_tiers fit top (t ∷ ts) = name_fit fit top

unfoldable pub classify_rejection : Ladder → ℤ → ℤ → ℤ → String × String
unfolding fit_rung top_coming_soon
classify_rejection l cpu mem disk =
    classify_tiers (fit_rung l cpu mem disk) (top_coming_soon l) l.tiers
