-- ===== src/Registry/Tests.antt =====
-- Runs of the registry, and the registry theorems at concrete inputs.
use so_ho_link.Base.{◌≡◌, refl, true, false, none, some, [], ◌∷◌, arith, pos, negsuc, text_equality}
use so_ho_link.Base.Assoc.{lookup}
use so_ho_link.Registry.{
  NodeEntry, NodeRegistry, MatchRequest, new_node_registry, register, add_in_flight, evict_stale,
  find_match, candidates, satisfies, is_excluded, opt_out_skips, opted_out,
}
use so_ho_link.Registry.Match.{Answers, find_match-Answers}
use so_ho_link.Registry.Invariant.{
  Inv, Step, Reach, Reach-Inv, lookup-evict_stale, add_in_flight-counted, add_in_flight_undo,
}
use so_ho_link.Workload.{marketplace_to_agent}

abbrev garage : NodeEntry
garage = record {
  node_id = "n1";
  participant_id = "alice";
  node_class = "A";
  country_code = "US";
  region = "west";
  hardware_profile = record {
    cpu_cores = pos 8;
    ram_mb = pos 16000;
    gpu_present = false;
    storage_gb = pos 500;
    bandwidth_mbps = pos 100;
  };
  last_heartbeat = 900;
  status = "online";
  opt_out_compute = false;
  opt_out_storage = true;
  opt_out_printing = true;
  has_enabled_printer = false;
  owner_active = false;
  cpu_util_pct = pos 5000;
  load_sampled_at = 900;
  in_flight = pos 2;
}

abbrev two_nodes : NodeRegistry
two_nodes = ("n1", garage) ∷ ("n2", record garage { node_id = "n2"; last_heartbeat = 100 }) ∷ []

abbrev compute_request : MatchRequest
compute_request = record {
  workload_type = "batch_compute";
  country_constraint = "US";
  cpu_cores = pos 4;
  ram_mb = pos 8000;
  gpu_required = false;
  storage_gb = pos 0;
  excluded_node_ids = "n2" ∷ [];
  exclude_consumer_participant_id = "bob";
}

finds_garage : find_match compute_request two_nodes ≡ some (garage ∷ [])
unfolding find_match candidates satisfies is_excluded opt_out_skips opted_out marketplace_to_agent
finds_garage = refl

own_node_skipped :
    find_match (record compute_request { exclude_consumer_participant_id = "alice" }) two_nodes
    ≡ none
unfolding find_match candidates satisfies is_excluded opt_out_skips opted_out marketplace_to_agent
own_node_skipped = refl

find_match-Answers_example :
    Answers compute_request two_nodes (find_match compute_request two_nodes)
find_match-Answers_example = find_match-Answers compute_request two_nodes

two_nodes-Inv : Inv two_nodes
two_nodes-Inv = record {
  distinct = (refl, (refl, tt));
  entries = ((refl, omega arith), ((refl, omega arith), tt));
}

Reach-Inv_example : Inv (add_in_flight "n1" (negsuc 4) (register garage new_node_registry))
Reach-Inv_example = Reach-Inv (
    Reach.next (Reach.next Reach.here (Step.registers _ garage (omega arith)))
      (Step.adds_in_flight _ "n1" (negsuc 4)))

lookup-evict_stale_example : lookup "n2" (evict_stale 1000 500 two_nodes) ≡ none
lookup-evict_stale_example = lookup-evict_stale 1000 500 "n2" two_nodes two_nodes-Inv

add_in_flight-counted_example :
    lookup "n1" (add_in_flight "n1" (negsuc 4) two_nodes)
    ≡ some (record garage { in_flight = pos 0 })
add_in_flight-counted_example =
    add_in_flight-counted "n1" "n1" (negsuc 4) two_nodes {node = garage} refl (omega arith)
      (omega arith)

add_in_flight_undo_example :
    lookup "n1" (add_in_flight "n1" (negsuc 0) (add_in_flight "n1" (pos 1) two_nodes)) ≡ some garage
add_in_flight_undo_example =
    add_in_flight_undo "n1" "n1" two_nodes {node = garage} refl (omega arith) (omega arith)
