-- ===== src/Registry.antt =====
-- The in-memory node registry of internal/orchestrator/registry.go.
-- A `time.Time` is the nanoseconds since Go's zero time. `CPUUtilPct`, a float64 that the
-- registry only stores, is a count of thousandths of a percent.
pub mod Match
pub mod Invariant
mod Tests
use so_ho_link.Base.{
  ℕ, ◌-◌, ◌==◌, String, ℤ, pos, ltb_ℤ, ltb, ◌+ℤ◌, wrap_int64, Bool, true, false, not, ◌&&◌, ◌||◌,
  Option, none, some, List, [], ◌∷◌, if◌then◌else◌, text_equality,
}
use so_ho_link.Base.Assoc.{lookup, insert, remove}
use so_ho_link.Workload.{
  marketplace_to_agent, workload_compute, workload_storage, workload_print_traditional,
  workload_print_3d,
}

pub record HardwareProfile : Type 0 where
  pub cpu_cores : ℤ
  pub ram_mb : ℤ
  pub gpu_present : Bool
  pub storage_gb : ℤ
  pub bandwidth_mbps : ℤ

pub record NodeEntry : Type 0 where
  pub node_id : String
  pub participant_id : String
  pub node_class : String
  pub country_code : String
  pub region : String
  pub hardware_profile : HardwareProfile
  pub last_heartbeat : ℕ
  pub status : String
  pub opt_out_compute : Bool
  pub opt_out_storage : Bool
  pub opt_out_printing : Bool
  pub has_enabled_printer : Bool
  pub owner_active : Bool
  pub cpu_util_pct : ℤ
  pub load_sampled_at : ℕ
  pub in_flight : ℤ

pub record NodeLoadState : Type 0 where
  pub owner_active : Bool
  pub cpu_util_pct : ℤ
  pub sampled_at : ℕ

pub record NodeOptOutState : Type 0 where
  pub opt_out_compute : Bool
  pub opt_out_storage : Bool
  pub opt_out_printing : Bool
  pub has_enabled_printer : Bool

pub record MatchRequest : Type 0 where
  pub workload_type : String
  pub country_constraint : String
  pub cpu_cores : ℤ
  pub ram_mb : ℤ
  pub gpu_required : Bool
  pub storage_gb : ℤ
  pub excluded_node_ids : List String
  pub exclude_consumer_participant_id : String

-- The map behind the lock; each operation holds the lock from start to end.
abbrev pub NodeRegistry : Type 0
NodeRegistry = List (String × NodeEntry)

unfoldable pub new_node_registry : NodeRegistry
new_node_registry = []

unfoldable pub register : NodeEntry → NodeRegistry → NodeRegistry
register entry r = insert entry.node_id entry r

-- The shape that the updating operations share: read the entry, change it, store it back.
-- `none` is the Go error that the node is not registered.
unfoldable pub modify : String → (NodeEntry → NodeEntry) → NodeRegistry → Option NodeRegistry
modify id change r = elim (lookup id r) [
  | none ↦ none
  | some entry ↦ some (insert id (change entry) r)
]

unfoldable pub heartbeat : String → ℕ → NodeRegistry → Option NodeRegistry
heartbeat id now r = modify id (λ entry. record entry { last_heartbeat = now }) r

abbrev pub with_opt_out : NodeOptOutState → NodeEntry → NodeEntry
with_opt_out state entry = record entry {
  opt_out_compute = state.opt_out_compute;
  opt_out_storage = state.opt_out_storage;
  opt_out_printing = state.opt_out_printing;
  has_enabled_printer = state.has_enabled_printer;
}

unfoldable pub update_opt_out : String → NodeOptOutState → NodeRegistry → Option NodeRegistry
update_opt_out id state r = modify id (with_opt_out state) r

abbrev pub with_load : NodeLoadState → NodeEntry → NodeEntry
with_load state entry = record entry {
  owner_active = state.owner_active;
  cpu_util_pct = state.cpu_util_pct;
  load_sampled_at = state.sampled_at;
}

unfoldable pub update_load : String → NodeLoadState → NodeRegistry → Option NodeRegistry
update_load id state r = modify id (with_load state) r

-- The clamp at zero, after `entry.InFlight += delta` on a Go `int`.
abbrev pub clamp_in_flight : ℤ → ℤ
clamp_in_flight n = if ltb_ℤ n (pos 0) then pos 0 else n

abbrev pub with_in_flight : ℤ → NodeEntry → NodeEntry
with_in_flight delta entry = record entry {
  in_flight = clamp_in_flight (wrap_int64 (entry.in_flight +ℤ delta));
}

-- A missing node is a silent no-op.
unfoldable pub add_in_flight : String → ℤ → NodeRegistry → NodeRegistry
add_in_flight id delta r = elim (modify id (with_in_flight delta) r) [ none ↦ r | some s ↦ s ]

unfoldable pub is_online : String → NodeRegistry → Bool
is_online id r = elim (lookup id r) [ none ↦ false | some entry ↦ entry.status == "online" ]

unfoldable pub get : String → NodeRegistry → Option NodeEntry
get id r = lookup id r

unfoldable pub evict : String → NodeRegistry → NodeRegistry
evict id r = remove id r

-- `excluded[node.NodeID]`, over the list that the map was filled from.
unfoldable pub is_excluded : String → List String → Bool
is_excluded id [] = false
is_excluded id (x ∷ xs) = if x == id then true else is_excluded id xs

-- The inner `switch` of FindMatch: is the node kept out by its opt-outs?
unfoldable pub opted_out : String → NodeEntry → Bool
opted_out cat node =
    if cat == workload_compute
    then node.opt_out_compute
    else if cat == workload_storage
    then node.opt_out_storage
    else if cat == workload_print_traditional || cat == workload_print_3d
    then node.opt_out_printing || not node.has_enabled_printer
    else false

unfoldable pub opt_out_skips : String → NodeEntry → Bool
opt_out_skips workload node =
    if workload == ""
    then false
    else elim (marketplace_to_agent workload) [ none ↦ false | some cat ↦ opted_out cat node ]

-- One pass of the candidate loop: is the node appended?
unfoldable pub satisfies : MatchRequest → NodeEntry → Bool
satisfies req node =
    if is_excluded node.node_id req.excluded_node_ids
    then false
    else if not (req.exclude_consumer_participant_id == "")
        && node.participant_id == req.exclude_consumer_participant_id
    then false
    else if not (node.status == "online")
    then false
    else if not (req.country_constraint == "") && not (node.country_code == req.country_constraint)
    then false
    else if req.gpu_required && not node.hardware_profile.gpu_present
    then false
    else if ltb_ℤ node.hardware_profile.cpu_cores req.cpu_cores
    then false
    else if ltb_ℤ node.hardware_profile.ram_mb req.ram_mb
    then false
    else if ltb_ℤ node.hardware_profile.storage_gb req.storage_gb
    then false
    else if opt_out_skips req.workload_type node
    then false
    else true

unfoldable pub candidates : MatchRequest → NodeRegistry → List NodeEntry
candidates req [] = []
candidates req ((_, node) ∷ r) =
    let rest = candidates req r in if satisfies req node then node ∷ rest else rest

-- `none` is the error "no available nodes match request".
unfoldable pub find_match : MatchRequest → NodeRegistry → Option (List NodeEntry)
unfolding candidates
find_match req r = elim (candidates req r) [ [] ↦ none | node ∷ rest ↦ some (node ∷ rest) ]

-- One tick of the eviction loop; the cutoff is `now - max_age`.
unfoldable pub evict_stale : ℕ → ℕ → NodeRegistry → NodeRegistry
evict_stale now max_age [] = []
evict_stale now max_age ((id, node) ∷ r) =
    let rest = evict_stale now max_age r in
    if ltb node.last_heartbeat (now - max_age) then rest else (id, node) ∷ rest
