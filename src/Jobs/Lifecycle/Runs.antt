-- ===== src/Jobs/Lifecycle/Runs.antt =====
-- Any sequence of operations on the jobs, by any callers, whichever statements fail: what it may
-- make of a job.
use so_ho_link.Base.{◌≡◌, refl, sym, subst, String, Bool, true, false, Option, ◌==◌, text_equality}
use so_ho_link.Store.{Bytes, World, status_equality}
use so_ho_link.Store.Sql.{find_job}
use so_ho_link.Jobs.Requests.{SubmitJobRequest, Orchestrator}
use so_ho_link.Jobs.Submit.{submit_job}
use so_ho_link.Jobs.Reroute.{tick}
use so_ho_link.Jobs.Dispatch.{
  CompleteJobRequest, handle_get_jobs, handle_started_job, handle_complete_job,
}
use so_ho_link.Jobs.Portal.{
  handle_job_confirm_action, handle_consumer_picked_up, handle_consumer_delivered,
  handle_provider_no_show,
}
use so_ho_link.Jobs.Protocol.{Protocol, Decline, JobReport, decline, report_job}
use so_ho_link.Jobs.Lifecycle.{Mode, Kin, Evolves}
use so_ho_link.Jobs.Lifecycle.Rules.{evolves_course, Kin-refl}
use so_ho_link.Jobs.Lifecycle.Rebind.{tick-Evolves}
use so_ho_link.Jobs.Lifecycle.Nodes.{
  handle_get_jobs-Evolves, handle_started_job-Evolves, handle_complete_job-Evolves, decline-Evolves,
  report_job-Evolves,
}
use so_ho_link.Jobs.Lifecycle.Prints.{
  handle_job_confirm_action-Evolves, handle_consumer_picked_up-Evolves,
  handle_consumer_delivered-Evolves, handle_provider_no_show-Evolves,
}
use so_ho_link.Jobs.Lifecycle.Placing.{submit_job-Evolves}

-- The operations that reach the jobs, with what their callers send.
pub data Op : Type 0 where
  submits : String → SubmitJobRequest → Op
  ticks : Op
  polls : Option Bytes → String → Op
  starts : Option Bytes → String → Op
  completes : Option Bytes → String → Option CompleteJobRequest → Op
  answers : String → String → String → Op
  picks_up : String → String → Op
  takes_delivery : String → String → Op
  misses_consumer : String → String → Op
  declines : Option Bytes → Decline → Op
  reports : Option Bytes → JobReport → Op

-- Only the answer `confirm` can consent to a print.
abbrev pub consents : Op → Bool
consents (Op.answers user id action) = action == "confirm"
consents _ = false

module _ (o : Orchestrator) (p : Protocol) where
  unfoldable pub perform : Op → World → World
  perform (Op.submits id req) w = (submit_job o id req w).1
  perform Op.ticks w = (tick o w).1
  perform (Op.polls peer node) w = (handle_get_jobs peer node w).1
  perform (Op.starts peer id) w = (handle_started_job peer id w).1
  perform (Op.completes peer id body) w = (handle_complete_job peer id body w).1
  perform (Op.answers user id action) w = (handle_job_confirm_action user id action w).1
  perform (Op.picks_up user id) w = (handle_consumer_picked_up user id w).1
  perform (Op.takes_delivery user id) w = (handle_consumer_delivered user id w).1
  perform (Op.misses_consumer user id) w = (handle_provider_no_show user id w).1
  perform (Op.declines peer d) w = (decline p peer d w).1
  perform (Op.reports peer r) w = (report_job p peer r w).1

  -- Operations in any order, `consent` saying whether one of them may consent to a print; between
  -- them the clock, the registry, the other tables and the fate of statements are anything.
  pub data Runs (consent : Bool) : World → World → Type 0 where
    done : {w : World} → Runs consent w w
    drifts : {u v w : World} → v.db.jobs ≡ u.db.jobs → Runs consent v w → Runs consent u w
    performs :
        {u w : World} (op : Op)
        → (consents op ≡ true → consent ≡ true)
        → Runs consent (perform op u) w
        → Runs consent u w

  abbrev pub mode : Bool → Mode
  mode consent = record { asks_owner = o.print_confirm_enabled; consent = consent }

  perform-Evolves :
      (consent : Bool) (op : Op) (w : World)
      → (consents op ≡ true → consent ≡ true)
      → Evolves (mode consent) w (perform op w)
  unfolding perform
  perform-Evolves b (Op.submits id req) w h = (submit_job-Evolves (mode b) o refl id req).at w
  perform-Evolves b Op.ticks w h = (tick-Evolves (mode b) o).at w
  perform-Evolves b (Op.polls peer node) w h = (handle_get_jobs-Evolves (mode b) peer node).at w
  perform-Evolves b (Op.starts peer id) w h = (handle_started_job-Evolves (mode b) peer id).at w
  perform-Evolves b (Op.completes peer id body) w h =
      (handle_complete_job-Evolves (mode b) peer id body).at w
  perform-Evolves b (Op.answers user id action) w h =
      (handle_job_confirm_action-Evolves (mode b) user id action h).at w
  perform-Evolves b (Op.picks_up user id) w h =
      (handle_consumer_picked_up-Evolves (mode b) user id).at w
  perform-Evolves b (Op.takes_delivery user id) w h =
      (handle_consumer_delivered-Evolves (mode b) user id).at w
  perform-Evolves b (Op.misses_consumer user id) w h =
      (handle_provider_no_show-Evolves (mode b) user id).at w
  perform-Evolves b (Op.declines peer d) w h = (decline-Evolves (mode b) p peer d).at w
  perform-Evolves b (Op.reports peer r) w h = (report_job-Evolves (mode b) p peer r).at w

  -- Along any run of operations, whichever statements fail: no job is lost, a job keeps its id,
  -- workload type and participant, its status follows the diagram for its kind, and a new job
  -- comes out of `pending` along the diagram. Without an operation that consents, the move from
  -- `awaiting_confirmation` to `scheduled` is not in the diagram; where prints wait for their
  -- node's owner, neither is that of a print from `pending` to `scheduled`.
  pub Runs-Evolves : (consent : Bool) {v w : World} → Runs consent v w → Evolves (mode consent) v w
  Runs-Evolves b {v} Runs.done = (evolves_course (mode b)).stay v
  Runs-Evolves b {v} {w} (Runs.drifts {v = x} e rest) =
      (evolves_course (mode b)).join v x w
        (record {
          at = λ id.
              subst (λ js. Kin (mode b) (find_job id v.db.jobs) (find_job id js)) (sym e)
                (Kin-refl (mode b) (find_job id v.db.jobs));
        })
        (Runs-Evolves b rest)
  Runs-Evolves b {v} {w} (Runs.performs op h rest) =
      (evolves_course (mode b)).join v (perform op v) w (perform-Evolves b op v h)
        (Runs-Evolves b rest)
