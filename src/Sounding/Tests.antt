-- ===== src/Sounding/Tests.antt =====
-- Rejections on a ladder of three tiers, given out of order.
use so_ho_link.Base.{◌≡◌, refl, String, ℤ, pos, List, [], ◌∷◌}
use so_ho_link.Sounding.{
  Tier, insert_tier, sort_tiers, new_ladder, top_from, top_coming_soon, first_fit, fit_rung,
  classify_rejection,
}
use so_ho_link.Sounding.Rungs.{Classified, classify_rejection-Classified}

abbrev tier : String → ℤ → ℤ → String → Tier
tier name order ceiling state = record {
  name = name;
  order = order;
  cpu_ceiling = ceiling;
  mem_ceiling = ceiling;
  disk_ceiling = ceiling;
  state = state;
}

abbrev tiers : List Tier
tiers =
    tier "storm" (pos 3) (pos 64) "coming_soon"
    ∷ tier "rain" (pos 2) (pos 16) "available"
    ∷ tier "drizzle" (pos 1) (pos 4) "available"
    ∷ []

-- A job that fits the smallest tier waits for room in it, and one above them all asks for the storm.
classify-small :
    classify_rejection (new_ladder tiers) (pos 2) (pos 2) (pos 2) ≡ ("no_capacity", "drizzle")
unfolding classify_rejection fit_rung first_fit top_coming_soon top_from new_ladder sort_tiers
    insert_tier
classify-small = refl

classify-big : classify_rejection (new_ladder tiers) (pos 32) (pos 2) (pos 2) ≡ ("too_big", "storm")
unfolding classify_rejection fit_rung first_fit top_coming_soon top_from new_ladder sort_tiers
    insert_tier
classify-big = refl

classify_rejection-Classified_example :
    Classified tiers
      (pos 32)
      (pos 2)
      (pos 2)
      (classify_rejection (new_ladder tiers) (pos 32) (pos 2) (pos 2))
classify_rejection-Classified_example = classify_rejection-Classified tiers (pos 32) (pos 2) (pos 2)
