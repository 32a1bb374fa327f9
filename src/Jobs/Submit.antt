-- ===== src/Jobs/Submit.antt =====
-- SubmitJob and what it calls (internal/orchestrator/orchestrator.go). The clock stands still
-- within one operation.
pub mod Atomic
pub mod Row
pub mod Places
use text.Mathlib.Text.{is_lt}
use Prim.Native.String.{compare}
use so_ho_link.Base.{
  ℕ, ◌+◌, ◌*◌, String, ℤ, pos, Bool, true, false, not, ◌&&◌, ◌||◌, Option, none, some, List, [],
  ◌∷◌, ◌==◌, text_equality, if◌then◌else◌,
}
use so_ho_link.Workload.{
  is_valid, marketplace_to_agent, marketplace_print_traditional, marketplace_print_3d,
}
use so_ho_link.Registry.{NodeEntry, MatchRequest, find_match, add_in_flight}
use so_ho_link.Allowlist
use so_ho_link.Allowlist.{AllowlistEntry, Allowlist, lookup_image}
use so_ho_link.Token.{Crypto, generate_job_token}
use so_ho_link.Store.{
  Bytes, Job, Db, World, NodeRow, ParticipantRow, PrinterRow, Sounding, pending, scheduled,
  awaiting_confirmation,
}
use so_ho_link.Store.Sql.{
  Error, Result, ok, err, M, pure, fail, gets, recover, ◌>>=◌, ◌>>◌, require, guard, query,
  update_jobs, insert_job, change_world, transaction, consumer_id_required, workload_type_required,
  unknown_workload_type, allowlist_unreadable, image_not_allowed, no_mapping, type_mismatch,
  no_nodes, schedule_failed, no_scheduled_node, token_failed, no_enabled_printer, spec_hash_failed,
  no_rows,
}
use so_ho_link.Jobs.Requests.{
  PlacementContext, SubmitJobRequest, SubmitJobResponse, JobSpec, Orchestrator, sla_standard,
  job_token_ttl,
}

unfoldable pub validate : SubmitJobRequest → M (Unit {0})
validate req = do
  guard (not (req.consumer_id == "")) consumer_id_required
  guard (not (req.workload_type == "")) workload_type_required
  guard (is_valid req.workload_type) unknown_workload_type

unfoldable pub is_print : String → Bool
is_print workload = workload == marketplace_print_traditional || workload == marketplace_print_3d

abbrev pub coalesce {ℓ} : {A : Type ℓ} → Option A → A → A
coalesce none d = d
coalesce (some a) d = a

unfoldable pub find_participant : String → List ParticipantRow → Option ParticipantRow
find_participant id [] = none
find_participant id (p ∷ ps) = if p.id == id then some p else find_participant id ps

unfoldable pub find_node : String → List NodeRow → Option NodeRow
find_node id [] = none
find_node id (n ∷ ns) = if n.id == id then some n else find_node id ns

abbrev pub no_locality : String → PlacementContext
no_locality id = record {
  requester_participant_id = id;
  requester_region = "";
  requester_country = "";
}

abbrev pub locality : String → ParticipantRow → PlacementContext
locality id p = record {
  requester_participant_id = id;
  requester_region = coalesce p.region "";
  requester_country = coalesce p.country_code "";
}

-- A failed lookup degrades to the context without locality.
unfoldable pub requester_placement_context : String → M PlacementContext
requester_placement_context id =
    if id == ""
    then pure (no_locality id)
    else recover (no_locality id) (do
      found ← query (λ db. find_participant id db.participants)
      participant ← require found no_rows
      pure (locality id participant))

unfoldable pub head_of : List NodeEntry → Option NodeEntry
head_of [] = none
head_of (n ∷ ns) = some n

-- ORDER BY printer_id LIMIT 1 over the enabled printers of the node.
unfoldable pub first_printer : String → List PrinterRow → Option String
first_printer node [] = none
first_printer node (p ∷ ps) = elim (first_printer node ps) [
  | none ↦ if p.node_id == node && p.enabled then some p.printer_id else none
  | some q ↦
      if p.node_id == node && p.enabled && is_lt (compare p.printer_id q)
      then some p.printer_id
      else some q
]

unfoldable pub resolve_printer : String → M String
resolve_printer node = do
  printer ← query (λ db. first_printer node db.printers)
  require printer no_enabled_printer

unfoldable pub canonical_job_spec : SubmitJobRequest → JobSpec
canonical_job_spec req = record {
  workload_type = req.workload_type;
  container_image = req.container_image;
  cpu_cores = req.cpu_cores;
  ram_mb = req.ram_mb;
  storage_gb = req.storage_gb;
  gpu_required = req.gpu_required;
  country_constraint = req.country_constraint;
}

unfoldable pub match_request : SubmitJobRequest → MatchRequest
match_request req = record {
  workload_type = req.workload_type;
  country_constraint = req.country_constraint;
  cpu_cores = req.cpu_cores;
  ram_mb = req.ram_mb;
  gpu_required = req.gpu_required;
  storage_gb = req.storage_gb;
  excluded_node_ids = [];
  exclude_consumer_participant_id = req.consumer_id;
}

unfoldable pub record_sounding : Sounding → M (Unit {0})
record_sounding s = change_world (λ w. record w { soundings = s ∷ w.soundings })

unfoldable pub adjust_in_flight : String → ℤ → M (Unit {0})
adjust_in_flight node delta =
    change_world (λ w. record w { registry = add_in_flight node delta w.registry })

-- What SubmitJob does with FindMatch's answer: a failure is recorded as unmet demand.
unfoldable pub nodes_or_rejection : Option (List NodeEntry) → M (List NodeEntry)
nodes_or_rejection (some nodes) = pure nodes
nodes_or_rejection none = do record_sounding Sounding.rejection; fail no_nodes

unfoldable pub find_nodes : MatchRequest → M (List NodeEntry)
find_nodes req = do found ← gets (λ w. find_match req w.registry); nodes_or_rejection found

unfoldable pub check_image : Allowlist.Lookup → M AllowlistEntry
check_image Allowlist.Lookup.not_pinned = fail image_not_allowed
check_image Allowlist.Lookup.not_allowed = fail image_not_allowed
check_image (Allowlist.Lookup.found e) = pure e

abbrev pub non_empty : String → Option String
non_empty s = if s == "" then none else some s

unfoldable pub pending_row : String → SubmitJobRequest → NodeEntry → ℕ → Job
pending_row id req node now = record {
  id = id;
  participant_id = some req.consumer_id;
  node_id = some node.node_id;
  workload_type = req.workload_type;
  status = pending;
  country_constraint = non_empty req.country_constraint;
  cpu_cores = some req.cpu_cores;
  ram_mb = some req.ram_mb;
  storage_gb = some req.storage_gb;
  gpu_required = req.gpu_required;
  container_image = some req.container_image;
  job_token = none;
  printer_id = none;
  spec_hash = none;
  payment_intent_id = none;
  exit_code = none;
  failure_cause = none;
  confirmation_deadline = none;
  confirmed_at = none;
  declined_at = none;
  started_at = none;
  completed_at = none;
  awaiting_pickup_at = none;
  picked_up_at = none;
  delivered_at = none;
  updated_at = now;
}

unfoldable pub clock : M ℕ
clock = gets (λ w. w.now)

-- COALESCE(p.stripe_account_id, '') of the node's owner.
unfoldable pub stripe_account : String → Db → Option String
unfolding find_node find_participant
stripe_account node db = elim (find_node node db.nodes) [
  | none ↦ none
  | some n ↦ elim (find_participant n.participant_id db.participants) [
    | none ↦ none
    | some p ↦ some (coalesce p.stripe_account_id "")
  ]
]

module _ (o : Orchestrator) where
  unfoldable pub await_confirmation : String → SubmitJobRequest → NodeEntry → Bytes → M ℕ
  await_confirmation id req node token = do
    printer ← resolve_printer node.node_id
    hash ← require (o.digest_spec (canonical_job_spec req)) spec_hash_failed
    now ← clock
    update_jobs (λ j. j.id == id)
        (λ j. record j {
          job_token = some token;
          status = awaiting_confirmation;
          printer_id = some printer;
          spec_hash = some hash;
          confirmation_deadline = some (now + o.confirmation_window);
          updated_at = now;
        })

  unfoldable pub schedule_directly : String → Bytes → M ℕ
  schedule_directly id token =
      update_jobs (λ j. j.id == id) (λ j. record j { job_token = some token; status = scheduled })

  -- Between BEGIN and COMMIT.
  unfoldable pub place : String → SubmitJobRequest → NodeEntry → M SubmitJobResponse
  place id req node = do
    now ← clock
    insert_job (pending_row id req node now)
    token ←
        require (generate_job_token o.crypto o.token_secret now job_token_ttl id node.node_id)
          token_failed
    _ ←
        if is_print req.workload_type && o.print_confirm_enabled
        then await_confirmation id req node token
        else schedule_directly id token
    found ← query (stripe_account node.node_id)
    account ← require found no_rows
    pure (record {
      job_id = id;
      node_id = node.node_id;
      job_token = token;
      provider_stripe_account_id = account;
    })

  -- Defense 3, and the choice of a node.
  unfoldable pub choose_node : SubmitJobRequest → M NodeEntry
  choose_node req = do
    validate req
    allowlist ← require o.allowlist allowlist_unreadable
    entry ← check_image (lookup_image allowlist req.container_image)
    expected ← require (marketplace_to_agent req.workload_type) no_mapping
    guard (entry.workload == expected) type_mismatch
    nodes ← find_nodes (match_request req)
    pctx ← requester_placement_context req.consumer_id
    ranked ← require (o.schedule nodes sla_standard pctx) schedule_failed
    require (head_of ranked) no_scheduled_node

  -- `id` is the job id that uuid.New makes.
  unfoldable pub submit_job : String → SubmitJobRequest → M SubmitJobResponse
  submit_job id req = do
    node ← choose_node req
    placed ← transaction (place id req node)
    adjust_in_flight node.node_id (pos 1)
    record_sounding (Sounding.placement id)
    pure placed
