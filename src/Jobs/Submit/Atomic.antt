-- ===== src/Jobs/Submit/Atomic.antt =====
-- SubmitJob fails without a trace in the tables and the registry.
use so_ho_link.Base.{Bool, String, pos, refl, none, some, Option, List, text_equality}
use so_ho_link.Registry.{NodeEntry, MatchRequest}
use so_ho_link.Allowlist
use so_ho_link.Store.{Bytes, Sounding, Job}
use so_ho_link.Store.Sql.{◌>>=◌, ◌>>◌, pure, change_world, insert_job, update_jobs}
use so_ho_link.Store.Effects.{
  Moves, moves, Moves-change, Moves-insert, Moves-update, Same, Same-Course, SameRegistry,
  registry_course,
}
use so_ho_link.Store.Atomic.{Atomic, Succeeds, Atomic-transaction, Atomic-bind, Atomic-bind_last}
use so_ho_link.Jobs.Requests.{SubmitJobRequest, SubmitJobResponse, Orchestrator}
use so_ho_link.Jobs.Submit.{
  validate, requester_placement_context, check_image, nodes_or_rejection, find_nodes, choose_node,
  resolve_printer, clock, place, await_confirmation, schedule_directly, submit_job,
  adjust_in_flight, record_sounding,
}

pub validate-Same : (req : SubmitJobRequest) → Moves Same (validate req)
unfolding validate
validate-Same req = search (Same-Course, moves)

check_image-Same : (l : Allowlist.Lookup) → Moves Same (check_image l)
unfolding check_image
check_image-Same Allowlist.Lookup.not_pinned = search (Same-Course, moves)
check_image-Same Allowlist.Lookup.not_allowed = search (Same-Course, moves)
check_image-Same (Allowlist.Lookup.found e) = search (Same-Course, moves)

pub record_sounding-Same : (s : Sounding) → Moves Same (record_sounding s)
unfolding record_sounding
record_sounding-Same s = Moves-change Same-Course _ (λ w. record { db = refl; registry = refl })

nodes_or_rejection-Same : (o : Option (List NodeEntry)) → Moves Same (nodes_or_rejection o)
unfolding nodes_or_rejection
nodes_or_rejection-Same none = search (Same-Course, moves, record_sounding-Same)
nodes_or_rejection-Same (some nodes) = search (Same-Course, moves)

find_nodes-Same : (req : MatchRequest) → Moves Same (find_nodes req)
unfolding find_nodes
find_nodes-Same req = search (Same-Course, moves, nodes_or_rejection-Same)

pub requester_placement_context-Same : (id : String) → Moves Same (requester_placement_context id)
unfolding requester_placement_context
requester_placement_context-Same id = search (Same-Course, moves) depth 8

pub choose_node-Same : (o : Orchestrator) (req : SubmitJobRequest) → Moves Same (choose_node o req)
unfolding choose_node
choose_node-Same o req =
    search
      (
        Same-Course, moves, validate-Same, check_image-Same, find_nodes-Same,
        requester_placement_context-Same,
      )
      depth 20

ruleset registry_moves = (registry_course, moves)

insert_job-SameRegistry : (job : Job) → Moves SameRegistry (insert_job job)
insert_job-SameRegistry job =
    Moves-insert registry_course job (λ w fresh. record { registry = refl })

update_jobs-SameRegistry :
    (test : Job → Bool) (change : Job → Job) → Moves SameRegistry (update_jobs test change)
update_jobs-SameRegistry test change =
    Moves-update registry_course test change (λ w. record { registry = refl })

ruleset statement_moves = (registry_moves, insert_job-SameRegistry, update_jobs-SameRegistry)

module _ (o : Orchestrator) (id : String) (req : SubmitJobRequest) (node : NodeEntry) where
  resolve_printer-SameRegistry : (n : String) → Moves SameRegistry (resolve_printer n)
  unfolding resolve_printer
  resolve_printer-SameRegistry n = search registry_moves

  await_confirmation-SameRegistry :
      (token : Bytes) → Moves SameRegistry (await_confirmation o id req node token)
  unfolding await_confirmation clock
  await_confirmation-SameRegistry token =
      search (statement_moves, resolve_printer-SameRegistry) depth 12

  schedule_directly-SameRegistry :
      (token : Bytes) → Moves SameRegistry (schedule_directly o id token)
  unfolding schedule_directly
  schedule_directly-SameRegistry token = search statement_moves

  place-SameRegistry : Moves SameRegistry (place o id req node)
  unfolding place clock
  place-SameRegistry =
      search (statement_moves, await_confirmation-SameRegistry, schedule_directly-SameRegistry)
        depth 16

accounted-Succeeds :
    (node id : String) (placed : SubmitJobResponse)
    → Succeeds
        (do adjust_in_flight node (pos 1); record_sounding (Sounding.placement id); pure placed)
unfolding adjust_in_flight record_sounding change_world ◌>>=◌
accounted-Succeeds node id placed = record { at = λ w h. cc }

-- SubmitJob, wherever it fails and whichever statement, begin or commit it is that fails, leaves
-- the tables and the registry as they were.
pub submit_job-Atomic :
    (o : Orchestrator) (id : String) (req : SubmitJobRequest) → Atomic (submit_job o id req)
unfolding submit_job
submit_job-Atomic o id req = Atomic-bind _ _ (choose_node-Same o req) λ node.
    Atomic-bind_last _ _ (Atomic-transaction _ (place-SameRegistry o id req node))
      λ placed. accounted-Succeeds node.node_id id placed
