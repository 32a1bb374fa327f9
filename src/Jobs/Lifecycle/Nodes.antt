-- ===== src/Jobs/Lifecycle/Nodes.antt =====
-- What nodes do to their jobs, over the bespoke API and the signed protocol, keeps to the diagram.
use so_ho_link.Base.{
  ◌≡◌, refl, sym, String, true, ◌||◌, Option, none, some, List, [], ◌∷◌, ◌==◌, text_equality, ℕ, ℤ,
  eq_of_same, subst, inl, inr, Bool-cases, number_equality,
}
use so_ho_link.Store.{Bytes, Job, status_equality, scheduled, dispatched, running, declined}
use so_ho_link.Store.Effects.{
  Moves, Course, moves, Moves-bind, Moves-gets, Moves-pure, Moves-guard, Moves-change, Moves-if,
  Moves-or_else, Moves-require, Moves-rescue,
}
use so_ho_link.Store.Knowing.{Under}
use so_ho_link.Jobs.Submit.{clock, is_print}
use so_ho_link.Jobs.Reroute.{read_job}
use so_ho_link.Jobs.Dispatch.{
  DispatchedJob, is_claimed, claim, claim_if_any, poll_scheduled_jobs, is_node_path,
  handle_get_jobs, CompleteJobRequest, is_zero, outcome, with_outcome, meter, complete_job, node_of,
  start_job, handle_started_job, handle_complete_job,
}
use so_ho_link.Jobs.Protocol.{
  Protocol, Decline, JobReport, node_key, bind, record_refusal, decline, mark_running, report_job,
}
use so_ho_link.Jobs.Lifecycle.{Mode, Edge, Life, Evolves}
use so_ho_link.Jobs.Lifecycle.Rules.{evolves_course, Life-move, Moves-Evolves-update}
use so_ho_link.Jobs.Lifecycle.Known.{
  Works, known_course, Moves-known, Moves-known_update, Moves-read_job, and_left, and_right,
  adjust_in_flight-Evolves, record_decline-Evolves, Evolves-same,
}

module _ (m : Mode) where
  abbrev c : Course (Evolves m)
  c = evolves_course m

  claim-Evolves : (node : String) (due : List DispatchedJob) → Moves (Evolves m) (claim node due)
  unfolding claim clock is_claimed
  claim-Evolves node due = Moves-bind c _ _ (Moves-gets c _) λ now.
      Moves-bind c _ _ (Moves-gets c _) λ db.
        Moves-Evolves-update m _ _ (λ j. refl)
          λ j t.
            Life-move m j _ scheduled refl refl refl (eq_of_same (and_right _ _ (and_left _ _ t)))
              Edge.claims

  claim_if_any-Evolves :
      (node : String) (due : List DispatchedJob) → Moves (Evolves m) (claim_if_any node due)
  unfolding claim_if_any
  claim_if_any-Evolves node [] = search (c, moves)
  claim_if_any-Evolves node (d ∷ ds) = search (c, moves, claim-Evolves)

  is_node_path-Evolves :
      (peer : Option Bytes) (node : String) → Moves (Evolves m) (is_node_path peer node)
  unfolding is_node_path
  is_node_path-Evolves none node = search (c, moves)
  is_node_path-Evolves (some path) node = search (c, moves)

  pub handle_get_jobs-Evolves :
      (peer : Option Bytes) (node : String) → Moves (Evolves m) (handle_get_jobs peer node)
  unfolding handle_get_jobs poll_scheduled_jobs
  handle_get_jobs-Evolves peer node =
      search (c, moves, is_node_path-Evolves, claim_if_any-Evolves) depth 10

  start_job-Evolves : (id : String) → Moves (Evolves m) (start_job id)
  unfolding start_job clock
  start_job-Evolves id = Moves-bind c _ _ (Moves-gets c _) λ now.
      Moves-bind c _ _
        (Moves-or_else c _ _ (
          Moves-Evolves-update m _ _ (λ j. refl)
            λ j t.
              Life-move m j _ dispatched refl refl refl (eq_of_same (and_right _ _ t)) Edge.starts))
        λ rows. Moves-guard c _ _

  node_of-Evolves : (id : String) → Moves (Evolves m) (node_of id)
  unfolding node_of read_job
  node_of-Evolves id = search (c, moves) depth 8

  pub handle_started_job-Evolves :
      (peer : Option Bytes) (id : String) → Moves (Evolves m) (handle_started_job peer id)
  unfolding handle_started_job
  handle_started_job-Evolves peer id =
      search (c, moves, is_node_path-Evolves, node_of-Evolves, start_job-Evolves) depth 10

  -- The outcome of a running job is a move of the diagram, for its kind of job.
  outcome-Edge :
      (code : Option ℤ) (workload : String)
      → Edge m (is_print workload) running (outcome code workload)
  unfolding outcome
  outcome-Edge code workload = elim (Bool-cases (is_zero code)) [
    | inr bad ↦ rw bad Edge.fails
    | inl good ↦ elim (Bool-cases (is_print workload)) [
      | inl print ↦ rw (good, print) (Edge.prints refl)
      | inr other ↦ rw (good, other) (Edge.completes refl)
    ]
  ]

  meter-Evolves : (id : String) → Moves (Evolves m) (meter id)
  unfolding meter
  meter-Evolves id = Moves-change c _ (λ w. Evolves-same m w _ refl)

  pub complete_job-Evolves :
      (id : String) (req : CompleteJobRequest) → Moves (Evolves m) (complete_job id req)
  unfolding complete_job clock with_outcome
  complete_job-Evolves id req = Moves-read_job m id _ λ j.
      let k : Course (Under (Works id j.workload_type) (Evolves m)) =
        known_course m id j.workload_type in
      Moves-bind k _ _ (Moves-gets k _) λ now.
        Moves-bind k _ _
          (Moves-known_update m id j.workload_type _ _ (λ r t. eq_of_same (and_left _ _ t))
            (λ r. refl)
            λ r w t. Life-move m r _ running refl refl refl (eq_of_same (and_right _ _ t)) (
              subst (λ x. Edge m (is_print x) running (outcome req.exit_code j.workload_type))
                (sym w) (outcome-Edge req.exit_code j.workload_type)))
          λ rows. Moves-bind k _ _ (Moves-guard k _ _) λ _.
            Moves-bind k _ _
              (Moves-if k _ _ _ (Moves-known m id j.workload_type (meter-Evolves id))
                (Moves-pure k tt))
              λ _. Moves-pure k _

  pub handle_complete_job-Evolves :
      (peer : Option Bytes) (id : String) (body : Option CompleteJobRequest)
      → Moves (Evolves m) (handle_complete_job peer id body)
  unfolding handle_complete_job
  handle_complete_job-Evolves peer id body = Moves-bind c _ _ (Moves-guard c _ _) λ _.
      Moves-bind c _ _ (node_of-Evolves id) λ node.
        Moves-bind c _ _ (is_node_path-Evolves peer node) λ _.
          Moves-bind c _ _ (Moves-require c body _) λ req.
            Moves-bind c _ _ (Moves-rescue c _ _ (complete_job-Evolves id req))
              λ status. search (c, moves, adjust_in_flight-Evolves m)

  node_key-Evolves : (node : String) → Moves (Evolves m) (node_key node)
  unfolding node_key
  node_key-Evolves node = search (c, moves) depth 8

  record_refusal-Evolves :
      (rows : ℕ) (id node : String) → Moves (Evolves m) (record_refusal rows id node)
  unfolding record_refusal
  record_refusal-Evolves rows id node =
      search (c, moves, record_decline-Evolves m, adjust_in_flight-Evolves m)

  mark_running-Evolves : (r : JobReport) → Moves (Evolves m) (mark_running r)
  unfolding mark_running clock
  mark_running-Evolves r = Moves-bind c _ _ (Moves-gets c _) λ now.
      Moves-Evolves-update m _ _ (λ j. refl)
        λ j t. Life-move m j _ dispatched refl refl refl (eq_of_same (and_right _ _ t)) Edge.starts

  -- A job that a node declines is scheduled for it or handed out to it.
  declined-Life :
      (j k : Job)
      → k.id ≡ j.id
      → k.workload_type ≡ j.workload_type
      → k.participant_id ≡ j.participant_id
      → k.status ≡ declined
      → (j.status == scheduled || j.status == dispatched) ≡ true
      → Life m j k
  declined-Life j k i w p s either = elim (Bool-cases (j.status == scheduled)) [
    | inl at ↦
        Life-move m j k scheduled i w p (eq_of_same at)
          (subst (Edge m _ scheduled) (sym s) Edge.turns_down)
    | inr other ↦
        Life-move m j k dispatched i w p (eq_of_same (rw other at either))
          (subst (Edge m _ dispatched) (sym s) Edge.hands_back)
  ]

  module _ (p : Protocol) where
    bind-Evolves : (peer : Option Bytes) (node : String) → Moves (Evolves m) (bind p peer node)
    unfolding bind
    bind-Evolves none node = search (c, moves)
    bind-Evolves (some path) node = search (c, moves)

    pub decline-Evolves : (peer : Option Bytes) (d : Decline) → Moves (Evolves m) (decline p peer d)
    unfolding decline clock
    decline-Evolves peer d = Moves-bind c _ _ (bind-Evolves peer d.node_id) λ _.
        Moves-bind c _ _ (node_key-Evolves d.node_id) λ key.
          Moves-bind c _ _ (Moves-guard c _ _) λ _. Moves-bind c _ _ (Moves-gets c _) λ now.
            Moves-bind c _ _
              (Moves-Evolves-update m _ _ (λ j. refl)
                λ j t. declined-Life j _ refl refl refl refl (and_right _ _ t))
              λ rows. record_refusal-Evolves rows d.job_id d.node_id

    pub report_job-Evolves :
        (peer : Option Bytes) (r : JobReport) → Moves (Evolves m) (report_job p peer r)
    unfolding report_job read_job
    report_job-Evolves peer r =
        search
          (
            c,
            moves,
            bind-Evolves,
            node_key-Evolves,
            mark_running-Evolves,
            complete_job-Evolves,
            adjust_in_flight-Evolves m,
          )
          depth 16
