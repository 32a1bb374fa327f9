-- ===== src/Jobs/Dispatch.antt =====
-- A node takes its jobs, starts them and reports their outcome: internal/store/dispatch.go, and
-- handleGetJobs, handleStartedJob and handleCompleteJob of internal/api/nodes.go.
pub mod Poll
use so_ho_link.Base.{
  ℕ, String, ℤ, pos, negsuc, Bool, true, false, not, ◌&&◌, ◌||◌, Option, none, some, List, [], ◌∷◌,
  ◌++◌, ◌==◌, text_equality, number_equality, if◌then◌else◌,
}
use so_ho_link.Allowlist.{same_bytes}
use so_ho_link.Token.{codes}
use so_ho_link.Store.{
  Bytes, Job, Db, Status, status_equality, scheduled, dispatched, running, failed, awaiting_pickup,
  completed,
}
use so_ho_link.Store.Sql.{
  M, Result, ok, err, pure, gets, fail, ◌>>=◌, ◌>>◌, require, guard, query, or_else, rescue,
  update_jobs, change_world, no_rows, job_not_running, http,
}
use so_ho_link.Jobs.Submit.{is_print, coalesce, find_node, clock, adjust_in_flight}
use so_ho_link.Jobs.Reroute.{read_job, is_on}

pub record DispatchedJob : Type 0 where
  pub job_id : String
  pub job_token : Bytes
  pub image : Bytes
  pub printer_id : String
  pub workload_type : String

-- NOT (a print job AND participant_id = the node's owner): NULL, and so not true, for a print job
-- without a participant or a node without a row.
unfoldable pub not_self_print : String → Db → Job → Bool
not_self_print node db j =
    if is_print j.workload_type
    then elim j.participant_id [
      | none ↦ false
      | some p ↦ elim (find_node node db.nodes) [
        | none ↦ false
        | some n ↦ not (p == n.participant_id)
      ]
    ]
    else true

unfoldable pub is_due : String → Db → Job → Bool
unfolding not_self_print
is_due node db j = is_on node j && j.status == scheduled && not_self_print node db j

unfoldable pub dispatched_job : Job → DispatchedJob
dispatched_job j = record {
  job_id = j.id;
  job_token = coalesce j.job_token [];
  image = coalesce j.container_image [];
  printer_id = coalesce j.printer_id "";
  workload_type = j.workload_type;
}

unfoldable pub due_jobs : String → Db → List Job → List DispatchedJob
unfolding is_due dispatched_job
due_jobs node db [] = []
due_jobs node db (j ∷ js) =
    let rest = due_jobs node db js in if is_due node db j then dispatched_job j ∷ rest else rest

unfoldable pub is_any : List DispatchedJob → String → Bool
is_any [] id = false
is_any (d ∷ ds) id = d.job_id == id || is_any ds id

unfoldable pub is_claimed : String → List DispatchedJob → Db → Job → Bool
unfolding is_any not_self_print
is_claimed node due db j = is_any due j.id && j.status == scheduled && not_self_print node db j

-- The flip reads the nodes in its own statement.
unfoldable pub claim : String → List DispatchedJob → M ℕ
claim node due = do
  now ← clock
  db ← gets (λ w. w.db)
  update_jobs (is_claimed node due db) (λ j. record j { status = dispatched; updated_at = now })

unfoldable pub claim_if_any : String → List DispatchedJob → M (List DispatchedJob)
claim_if_any node [] = pure []
claim_if_any node (d ∷ ds) = do _ ← claim node (d ∷ ds); pure (d ∷ ds)

unfoldable pub poll_scheduled_jobs : String → M (List DispatchedJob)
poll_scheduled_jobs node = do due ← query (λ db. due_jobs node db db.jobs); claim_if_any node due

-- The path of a node's SPIFFE id, if the request's context has one.
unfoldable pub is_node_path : Option Bytes → String → M (Unit {0})
is_node_path none node = fail (http 401)
is_node_path (some path) node = guard (same_bytes path (codes "/node/" ++ codes node)) (http 403)

unfoldable pub handle_get_jobs : Option Bytes → String → M (List DispatchedJob)
handle_get_jobs peer node = do
  guard (not (node == "")) (http 400)
  is_node_path peer node
  or_else (poll_scheduled_jobs node) (http 500)

-- The body of /jobs/{id}/complete.
pub record CompleteJobRequest : Type 0 where
  pub exit_code : Option ℤ
  pub failure_cause : String
  pub tmpfs_exhausted : Bool

abbrev pub is_zero : Option ℤ → Bool
is_zero none = false
is_zero (some (pos n)) = n == 0
is_zero (some (negsuc n)) = false

unfoldable pub outcome : Option ℤ → String → Status
outcome code workload =
    if is_zero code then (if is_print workload then awaiting_pickup else completed) else failed

unfoldable pub cause_of : CompleteJobRequest → String
cause_of req =
    if req.failure_cause == "" && req.tmpfs_exhausted then "tmpfs_exhausted" else req.failure_cause

abbrev pub null_if_empty : String → Option String
null_if_empty s = if s == "" then none else some s

unfoldable pub with_outcome : Status → CompleteJobRequest → ℕ → Job → Job
unfolding cause_of
with_outcome status req now j = record j {
  status = status;
  completed_at = if status == completed || status == failed then some now else none;
  awaiting_pickup_at = if status == awaiting_pickup then some now else none;
  updated_at = now;
  exit_code = req.exit_code;
  failure_cause = null_if_empty (cause_of req);
}

-- The call of ComputeMetering, whose error is only logged.
unfoldable pub meter : String → M (Unit {0})
meter id = change_world (λ w. record w { metered = id ∷ w.metered })

unfoldable pub complete_job : String → CompleteJobRequest → M Status
complete_job id req = do
  j ← read_job id
  let status : Status = outcome req.exit_code j.workload_type
  now ← clock
  rows ← update_jobs (λ r. r.id == id && r.status == running) (with_outcome status req now)
  guard (not (rows == 0)) job_not_running
  if status == completed then meter id else pure tt
  pure status

-- The node of a job; a job without one cannot be scanned, and is not found either.
unfoldable pub node_of : String → M String
node_of id = or_else (do j ← read_job id; require j.node_id no_rows) (http 404)

unfoldable pub start_job : String → M (Unit {0})
start_job id = do
  now ← clock
  rows ←
      or_else
        (update_jobs (λ j. j.id == id && j.status == dispatched)
          (λ j. record j { started_at = some now; status = running; updated_at = now }))
        (http 500)
  guard (not (rows == 0)) (http 409)

unfoldable pub handle_started_job : Option Bytes → String → M (Unit {0})
handle_started_job peer id = do
  guard (not (id == "")) (http 400)
  node ← node_of id
  is_node_path peer node
  start_job id

abbrev pub completion_error : Result Status → Result Status
completion_error (ok s) = ok s
completion_error (err job_not_running) = err (http 409)
completion_error (err _) = err (http 500)

-- The body is `none` if it is not valid JSON; an empty one reads as the zero request.
unfoldable pub handle_complete_job : Option Bytes → String → Option CompleteJobRequest → M Status
handle_complete_job peer id body = do
  guard (not (id == "")) (http 400)
  node ← node_of id
  is_node_path peer node
  req ← require body (http 400)
  status ← rescue completion_error (complete_job id req)
  adjust_in_flight node (negsuc 0)
  pure status
