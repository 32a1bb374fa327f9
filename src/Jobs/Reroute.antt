-- ===== src/Jobs/Reroute.antt =====
-- How the orchestrator's loop gives a declined job, or one whose node is gone, another node
-- (internal/orchestrator/orchestrator.go).
pub mod Rebinds
use so_ho_link.Base.{
  ℕ, ◌+◌, String, pos, negsuc, Bool, false, not, ◌&&◌, ◌||◌, Option, none, some, List, [], ◌∷◌,
  ◌==◌, text_equality, number_equality, take, if◌then◌else◌,
}
use so_ho_link.Registry.{NodeEntry, MatchRequest, find_match, is_online}
use so_ho_link.Token.{generate_job_token}
use so_ho_link.Store.{
  Bytes, Job, DeclineRow, status_equality, awaiting_confirmation, declined, scheduled, failed,
}
use so_ho_link.Store.Sql.{
  M, pure, gets, ◌>>=◌, ◌>>◌, require, query, recover, update_jobs, find_job, no_rows,
  schedule_failed, no_scheduled_node, token_failed,
}
use so_ho_link.Jobs.Requests.{Orchestrator, sla_standard, job_token_ttl}
use so_ho_link.Jobs.Submit.{
  is_print, coalesce, requester_placement_context, head_of, resolve_printer, adjust_in_flight,
  clock,
}
use so_ho_link.Jobs.Expire.{each, expire_confirmations, expire_all_dispatched, expire_all_picked_up}

-- SELECT … FROM jobs WHERE id = …
unfoldable pub read_job : String → M Job
read_job id = do found ← query (λ db. find_job id db.jobs); require found no_rows

unfoldable pub declined_nodes : String → List DeclineRow → List String
declined_nodes job [] = []
declined_nodes job (d ∷ ds) =
    let rest = declined_nodes job ds in if d.job_id == job then d.node_id ∷ rest else rest

unfoldable pub rematch_request : Job → List String → MatchRequest
rematch_request j excluded = record {
  workload_type = j.workload_type;
  country_constraint = coalesce j.country_constraint "";
  cpu_cores = coalesce j.cpu_cores (pos 0);
  ram_mb = coalesce j.ram_mb (pos 0);
  gpu_required = j.gpu_required;
  storage_gb = coalesce j.storage_gb (pos 0);
  excluded_node_ids = excluded;
  exclude_consumer_participant_id = coalesce j.participant_id "";
}

-- `node_id = $n`, false where it is NULL.
abbrev pub is_node : String → Option String → Bool
is_node node none = false
is_node node (some n) = n == node

abbrev pub is_on : String → Job → Bool
is_on node j = is_node node j.node_id

abbrev pub is_declined : String → Job → Bool
is_declined id j = j.id == id && j.status == declined

-- A slot that a job gives back to its previous node, if it had one.
unfoldable pub release : String → M (Unit {0})
release node = if node == "" then pure tt else adjust_in_flight node (negsuc 0)

-- What follows the guarded UPDATE: the counters move only if it moved the row.
unfoldable pub account_move : ℕ → String → String → M (Unit {0})
account_move rows node previous =
    if rows == 1 then (do adjust_in_flight node (pos 1); release previous) else pure tt

unfoldable pub account_rebind : ℕ → String → String → M (Unit {0})
account_rebind rows node old =
    if rows == 1
    then (do adjust_in_flight node (pos 1); adjust_in_flight old (negsuc 0))
    else pure tt

unfoldable pub fail_declined : String → String → M (Unit {0})
fail_declined id previous = do
  now ← clock
  rows ← update_jobs (is_declined id) (λ j. record j { status = failed; updated_at = now })
  if rows == 1 then release previous else pure tt

module _ (o : Orchestrator) where
  -- Schedule's choice among the candidates; `scheduled[0]` of an empty answer panics.
  unfoldable pub choose_next : Job → List NodeEntry → M NodeEntry
  choose_next j candidates = do
    pctx ← requester_placement_context (coalesce j.participant_id "")
    ranked ← require (o.schedule candidates sla_standard pctx) schedule_failed
    require (head_of ranked) no_scheduled_node

  unfoldable pub next_token : String → String → M Bytes
  next_token id node = do
    now ← clock
    require (generate_job_token o.crypto o.token_secret now job_token_ttl id node) token_failed

  unfoldable pub rebind_print : String → String → Bytes → M ℕ
  rebind_print id node token = do
    printer ← resolve_printer node
    now ← clock
    update_jobs (is_declined id) (λ j. record j {
      node_id = some node;
      job_token = some token;
      printer_id = some printer;
      confirmation_deadline = some (now + o.confirmation_window);
      status = awaiting_confirmation;
      updated_at = now;
    })

  unfoldable pub rebind_direct : String → String → Bytes → M ℕ
  rebind_direct id node token = do
    now ← clock
    update_jobs (is_declined id) (λ j. record j {
      node_id = some node;
      job_token = some token;
      status = scheduled;
      updated_at = now;
    })

  unfoldable pub reroute_among : String → Job → Option (List NodeEntry) → M (Unit {0})
  reroute_among id j none = fail_declined id (coalesce j.node_id "")
  reroute_among id j (some candidates) = do
    node ← choose_next j candidates
    token ← next_token id node.node_id
    rows ←
        if is_print j.workload_type
        then rebind_print id node.node_id token
        else rebind_direct id node.node_id token
    account_move rows node.node_id (coalesce j.node_id "")

  unfoldable pub reroute_declined_job : String → M (Unit {0})
  reroute_declined_job id = do
    j ← read_job id
    excluded ← query (λ db. declined_nodes id db.declines)
    found ← gets (λ w. find_match (rematch_request j excluded) w.registry)
    reroute_among id j found

  abbrev pub is_stale : String → String → Job → Bool
  is_stale id old j = j.id == id && j.status == scheduled && is_on old j

  unfoldable pub rebind_stale : String → String → String → Bytes → M ℕ
  rebind_stale id old node token = do
    now ← clock
    update_jobs (is_stale id old)
        (λ j. record j { node_id = some node; job_token = some token; updated_at = now })

  unfoldable pub reschedule_among : String → String → Job → Option (List NodeEntry) → M (Unit {0})
  reschedule_among id old j none = pure tt
  reschedule_among id old j (some candidates) = do
    node ← choose_next j candidates
    token ← next_token id node.node_id
    rows ← rebind_stale id old node.node_id token
    account_rebind rows node.node_id old

  unfoldable pub reschedule_match : String → String → Job → M (Unit {0})
  reschedule_match id old j = do
    excluded ← query (λ db. declined_nodes id db.declines)
    found ← gets (λ w. find_match (rematch_request j (old ∷ excluded)) w.registry)
    reschedule_among id old j found

  unfoldable pub reschedule_stale_job : String → String → M (Unit {0})
  reschedule_stale_job id old = do
    j ← read_job id
    if is_print j.workload_type then pure tt else reschedule_match id old j

  abbrev pub bindings : List Job → List (String × String)
  bindings [] = []
  bindings (j ∷ js) =
      let rest = bindings js in
      if j.status == scheduled && not (is_print j.workload_type)
      then (j.id, coalesce j.node_id "") ∷ rest
      else rest

  unfoldable pub reschedule_unless_online : String × String → M (Unit {0})
  reschedule_unless_online (id, node) = do
    online ← gets (λ w. is_online node w.registry)
    if node == "" || online then pure tt else recover tt (reschedule_stale_job id node)

  unfoldable pub reschedule_each : List (String × String) → M (Unit {0})
  reschedule_each [] = pure tt
  reschedule_each (b ∷ bs) = do reschedule_unless_online b; reschedule_each bs

  unfoldable pub reschedule_stale : M (Unit {0})
  reschedule_stale =
      recover tt (do stale ← query (λ db. take 100 (bindings db.jobs)); reschedule_each stale)

  abbrev pub declined_ids : List Job → List String
  declined_ids [] = []
  declined_ids (j ∷ js) =
      let rest = declined_ids js in if j.status == declined then j.id ∷ rest else rest

  unfoldable pub reroute_declined : M (Unit {0})
  reroute_declined =
      recover tt
        (do ids ← query (λ db. take 100 (declined_ids db.jobs)); each tt reroute_declined_job ids)

  -- One tick of StartDeclineRerouteLoop.
  unfoldable pub tick : M (Unit {0})
  tick = do
    expire_confirmations
    expire_all_dispatched
    reschedule_stale
    expire_all_picked_up
    reroute_declined
