-- ===== src/Jobs/Submit/Places.antt =====
-- What a submission has done when it returns: the choice of a node, the row, the counter.
use so_ho_link.Base.{
  ◌≡◌, refl, sym, ap, ◌∙◌, pos, String, true, ◌&&◌, Option, none, some, List, ◌==◌, text_equality,
  eq_of_same,
}
use so_ho_link.Workload.{marketplace_to_agent}
use so_ho_link.Registry.{NodeEntry, NodeRegistry, MatchRequest, find_match, add_in_flight}
use so_ho_link.Allowlist
use so_ho_link.Allowlist.{AllowlistEntry, lookup_image}
use so_ho_link.Store.{Job, Db, World}
use so_ho_link.Store.Sql.{ok, find_job}
use so_ho_link.Store.Returns.{
  Fact, Yields, Yields-bind, Yields-Same, Yields-pure, Yields-require, Yields-guard,
  Yields-transaction, Yields-change, Yields-fail, Yields-gets, Yields-imply, Yields-frame,
}
use so_ho_link.Jobs.Requests.{
  SubmitJobRequest, SubmitJobResponse, Orchestrator, PlacementContext, sla_standard,
}
use so_ho_link.Jobs.Submit.{
  is_print, check_image, nodes_or_rejection, find_nodes, match_request, head_of, choose_node,
  submit_job, adjust_in_flight,
}
use so_ho_link.Jobs.Submit.Atomic.{
  validate-Same, requester_placement_context-Same, record_sounding-Same,
}
use so_ho_link.Jobs.Submit.Row.{placed_at, RowOf, Registered, asks, place-Yields}

-- The image is on the allowlist for this kind of work, and the node is the first that the
-- scheduler ranks among those that FindMatch answers with.
pub record Chosen (o : Orchestrator) (r : NodeRegistry) (req : SubmitJobRequest) (n : NodeEntry)
    : Type 0 where
  pub entry : AllowlistEntry
  pub nodes : List NodeEntry
  pub ranked : List NodeEntry
  pub pctx : PlacementContext
  pub list : Allowlist.Allowlist
  pub listed : o.allowlist ≡ some list
  pub allowed : lookup_image list req.container_image ≡ Allowlist.Lookup.found entry
  pub kind : marketplace_to_agent req.workload_type ≡ some entry.workload
  pub matched : find_match (match_request req) r ≡ some nodes
  pub scheduled : o.schedule nodes sla_standard pctx ≡ some ranked
  pub first : head_of ranked ≡ some n

module _ (o : Orchestrator) (id : String) (req : SubmitJobRequest) (r₀ : NodeRegistry) where
  check_image-Yields :
      (P : Fact) (l : Allowlist.Lookup)
      → Yields P (check_image l) (λ e d r. P d r × (l ≡ Allowlist.Lookup.found e))
  unfolding check_image
  check_image-Yields P Allowlist.Lookup.not_pinned = Yields-fail P _ _
  check_image-Yields P Allowlist.Lookup.not_allowed = Yields-fail P _ _
  check_image-Yields P (Allowlist.Lookup.found e) = Yields-pure P _ e (λ d r p. (p, refl))

  nodes_or_rejection-Yields :
      (P : Fact) (found : Option (List NodeEntry))
      → Yields P (nodes_or_rejection found) (λ ns d r. P d r × (found ≡ some ns))
  unfolding nodes_or_rejection
  nodes_or_rejection-Yields P (some nodes) = Yields-pure P _ nodes (λ d r p. (p, refl))
  nodes_or_rejection-Yields P none =
      Yields-bind P _ _ (λ _. P) _ (Yields-Same P _ (record_sounding-Same _))
        (λ _. Yields-fail P _ _)

  -- From a fact that implies that the registry is the first one.
  find_nodes-Yields :
      (P : Fact) (mr : MatchRequest)
      → ((d : Db) (r : NodeRegistry) → P d r → r ≡ r₀)
      → Yields P (find_nodes mr) (λ ns d r. P d r × (find_match mr r₀ ≡ some ns))
  unfolding find_nodes
  find_nodes-Yields P mr reg =
      Yields-bind P _ _ (λ found d r. P d r × (find_match mr r₀ ≡ found)) _
        (Yields-gets P _ _ (λ w p. (p, ap (find_match mr) (sym (reg w.db w.registry p)))))
        λ found.
          let F : Fact = λ d r. P d r × (find_match mr r₀ ≡ found) in
          Yields-imply F (nodes_or_rejection found) _ _ (nodes_or_rejection-Yields F found)
            (λ ns d r q. (q.0.0, q.0.1 ∙ q.1))

  choose_node-Yields :
      Yields (Registered o id req r₀) (choose_node o req) (λ n d r. (r ≡ r₀) × Chosen o r₀ req n)
  unfolding choose_node
  choose_node-Yields =
      let K : Fact = Registered o id req r₀ in
      Yields-bind K _ _ (λ _. K) _ (Yields-Same K _ (validate-Same req))
        λ _. Yields-bind K _ _ _ _ (Yields-require K o.allowlist _) λ list.
          let K1 : Fact = λ d r. K d r × (o.allowlist ≡ some list) in
          Yields-bind K1 _ _ _ _ (check_image-Yields K1 (lookup_image list req.container_image))
            λ e.
              let K2 : Fact = λ d r.
                K1 d r × (lookup_image list req.container_image ≡ Allowlist.Lookup.found e) in
              Yields-bind K2 _ _ _ _ (Yields-require K2 (marketplace_to_agent req.workload_type) _)
                λ agent.
                  let K3 : Fact =
                    λ d r. K2 d r × (marketplace_to_agent req.workload_type ≡ some agent) in
                  Yields-bind K3 _ _ _ _ (Yields-guard K3 (e.workload == agent) _) λ _.
                    let K4 : Fact = λ d r. K3 d r × ((e.workload == agent) ≡ true) in
                    Yields-bind K4 _ _ _ _
                      (find_nodes-Yields K4 (match_request req) (λ d r k. k.0.0.0.0))
                      λ nodes.
                        let K5 : Fact =
                          λ d r. K4 d r × (find_match (match_request req) r₀ ≡ some nodes) in
                        Yields-bind K5 _ _ (λ _. K5) _
                          (Yields-Same K5 _ (requester_placement_context-Same req.consumer_id))
                          λ pctx.
                            Yields-bind K5 _ _ _ _
                              (Yields-require K5 (o.schedule nodes sla_standard pctx) _)
                              λ ranked.
                                let K6 : Fact = λ d r.
                                  K5 d r × (o.schedule nodes sla_standard pctx ≡ some ranked) in
                                Yields-imply K6 _ _ _ (Yields-require K6 (head_of ranked) _)
                                  λ n d r q. (
                                    q.0.0.0.0.0.0.0,
                                    record {
                                      entry = e;
                                      nodes = nodes;
                                      ranked = ranked;
                                      pctx = pctx;
                                      list = list;
                                      listed = q.0.0.0.0.0.0.1;
                                      allowed = q.0.0.0.0.0.1;
                                      kind =
                                          q.0.0.0.0.1
                                          ∙ ap (λ x. some x) (sym (eq_of_same q.0.0.0.1));
                                      matched = q.0.0.1;
                                      scheduled = q.0.1;
                                      first = q.1;
                                    },
                                  )

-- What a submission has done that returned `resp`: a node was chosen for it, its row stands under
-- its id, on that node, and the node's counter counts it.
pub record Submitted (o : Orchestrator) (id : String) (req : SubmitJobRequest) (v w : World)
    (resp : SubmitJobResponse) : Type 0 where
  pub node : NodeEntry
  pub chosen : Chosen o v.registry req node
  pub job_id : resp.job_id ≡ id
  pub node_id : resp.node_id ≡ node.node_id
  pub row : Job
  pub stored : find_job id w.db.jobs ≡ some row
  pub states :
      RowOf req node resp.job_token
        (placed_at (is_print req.workload_type && o.print_confirm_enabled))
        row
  pub counted : w.registry ≡ add_in_flight node.node_id (pos 1) v.registry

module _ (o : Orchestrator) (id : String) (req : SubmitJobRequest) where
  abbrev Counted : NodeRegistry → SubmitJobResponse → Fact
  Counted r₀ resp d r =
      (n : NodeEntry) × Chosen o r₀ req n
      × (resp.job_id ≡ id)
      × (resp.node_id ≡ n.node_id)
      × ((j : Job) × (find_job id d.jobs ≡ some j)
          × RowOf req n resp.job_token (placed_at (asks o id req r₀)) j)
      × (r ≡ add_in_flight n.node_id (pos 1) r₀)

  submit_job-Yields :
      (r₀ : NodeRegistry) → Yields (Registered o id req r₀) (submit_job o id req) (Counted r₀)
  unfolding submit_job adjust_in_flight
  submit_job-Yields r₀ =
      let K : Fact = Registered o id req r₀ in
      Yields-bind K _ _ _ _ (choose_node-Yields o id req r₀) λ n.
        let K1 : Fact = λ d r. K d r × Chosen o r₀ req n in
        Yields-bind K1 _ _ _ _
          (Yields-frame K (Chosen o r₀ req n) _ _
            (Yields-transaction K _ _ (place-Yields o id req r₀ n)))
          λ resp.
            Yields-bind _ _ _ (λ _. Counted r₀ resp) _
              (Yields-change _ _ (Counted r₀ resp) (λ w q.
                (n, q.1, q.0.1, q.0.2, q.0.0.0, ap (add_in_flight n.node_id (pos 1)) q.0.0.1)))
              λ _.
                Yields-bind (Counted r₀ resp) _ _ (λ _. Counted r₀ resp) _
                  (Yields-Same (Counted r₀ resp) _ (record_sounding-Same _))
                  λ _. Yields-pure (Counted r₀ resp) (Counted r₀) resp (λ d r q. q)

  -- SubmitJob, when it returns: the image is on the allowlist for the agent's kind of work; the
  -- node is the first that the scheduler ranks among those that FindMatch answers with; under the
  -- job's id stands a row of the request, on that node, with the returned token, awaiting
  -- confirmation if it is a print and prints wait, and scheduled otherwise; and the node's counter
  -- is one higher.
  pub submit_job-Submitted :
      (w : World) (resp : SubmitJobResponse)
      → (submit_job o id req w).0 ≡ ok resp
      → Submitted o id req w (submit_job o id req w).1 resp
  submit_job-Submitted w resp h =
      let (n, chosen, i, on, (j, stored, states), counted) =
        (submit_job-Yields w.registry).at w refl h in
      record {
        node = n;
        chosen = chosen;
        job_id = i;
        node_id = on;
        row = j;
        stored = stored;
        states = states;
        counted = counted;
      }
