-- ===== src/Workload.antt =====
-- Workload types: internal/types/workload.go, internal/orchestrator/workload.go, and the agent's
-- types of internal/agent/allowlist.go. Both kinds are Go strings.
use so_ho_link.Base.{
  ◌==◌, String, Bool, true, false, Option, none, some, List, [], ◌∷◌, text_equality, if◌then◌else◌,
}
use so_ho_link.Base.Assoc.{lookup}

abbrev pub marketplace_app_hosting : String
marketplace_app_hosting = "app_hosting"

abbrev pub marketplace_batch_compute : String
marketplace_batch_compute = "batch_compute"

abbrev pub marketplace_ai_inference : String
marketplace_ai_inference = "ai_inference"

abbrev pub marketplace_object_storage : String
marketplace_object_storage = "object_storage"

abbrev pub marketplace_cdn_edge : String
marketplace_cdn_edge = "cdn_edge"

abbrev pub marketplace_print_traditional : String
marketplace_print_traditional = "print_traditional"

abbrev pub marketplace_print_3d : String
marketplace_print_3d = "print_3d"

abbrev pub workload_compute : String
workload_compute = "compute"

abbrev pub workload_storage : String
workload_storage = "storage"

abbrev pub workload_print_traditional : String
workload_print_traditional = "print_traditional"

abbrev pub workload_print_3d : String
workload_print_3d = "print_3d"

abbrev pub all_marketplace_workload_types : List String
all_marketplace_workload_types =
    marketplace_app_hosting ∷ marketplace_batch_compute ∷ marketplace_ai_inference
    ∷ marketplace_object_storage ∷ marketplace_cdn_edge ∷ marketplace_print_traditional
    ∷ marketplace_print_3d ∷ []

pub equals_any : String → List String → Bool
equals_any w [] = false
equals_any w (v ∷ vs) = if w == v then true else equals_any w vs

unfoldable pub is_valid : String → Bool
unfolding equals_any
is_valid w = equals_any w all_marketplace_workload_types

unfoldable pub parse_marketplace_workload_type : String → Option String
unfolding is_valid
parse_marketplace_workload_type s = if is_valid s then some s else none

abbrev pub marketplace_to_agent_map : List (String × String)
marketplace_to_agent_map =
    (marketplace_app_hosting, workload_compute)
    ∷ (marketplace_batch_compute, workload_compute)
    ∷ (marketplace_ai_inference, workload_compute)
    ∷ (marketplace_object_storage, workload_storage)
    ∷ (marketplace_cdn_edge, workload_compute)
    ∷ (marketplace_print_traditional, workload_print_traditional)
    ∷ (marketplace_print_3d, workload_print_3d)
    ∷ []

unfoldable pub marketplace_to_agent : String → Option String
marketplace_to_agent w = lookup w marketplace_to_agent_map

-- `true` stands for the panic of MustValidateWorkloadMapping.
pub mapping_incomplete : List String → Bool
unfolding marketplace_to_agent
mapping_incomplete [] = false
mapping_incomplete (w ∷ ws) = elim (marketplace_to_agent w) [
  | none ↦ true
  | some _ ↦ mapping_incomplete ws
]
