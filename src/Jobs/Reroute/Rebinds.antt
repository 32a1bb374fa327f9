-- ===== src/Jobs/Reroute/Rebinds.antt =====
-- What rerouting has made of a declined job when it returns (RerouteDeclinedJob).
use so_ho_link.Base.{
  ◌≡◌, refl, sym, ◌∙◌, ap, subst, ℕ, String, Bool, true, false, Option, none, some, List, ◌==◌,
  text_equality, same_refl, if◌then◌else◌,
}
use so_ho_link.Registry.{NodeEntry, NodeRegistry, find_match}
use so_ho_link.Store.{
  Bytes, Job, Db, World, status_equality, declined, failed, scheduled, awaiting_confirmation,
}
use so_ho_link.Store.Sql.{ok, ◌>>=◌, query, gets, find_job, update_jobs, update_where}
use so_ho_link.Store.Effects.{Moves, moves, Same-Course, Moves-change, Moves-gets}
use so_ho_link.Store.Rows.{some_same, find_job-update_where}
use so_ho_link.Store.Returns.{
  Fact, Yields, Yields-bind, Yields-Same, Yields-require, Yields-query, Yields-gets, Yields-update,
  Yields-imply, Yields-frame, Yields-SameTables, Yields-given, SameTables, tables_course,
}
use so_ho_link.Jobs.Requests.{Orchestrator, PlacementContext, sla_standard}
use so_ho_link.Jobs.Submit.{is_print, clock, head_of, resolve_printer, adjust_in_flight}
use so_ho_link.Jobs.Submit.Atomic.{requester_placement_context-Same}
use so_ho_link.Jobs.Reroute.{
  read_job, declined_nodes, rematch_request, is_declined, release, account_move, fail_declined,
  choose_next, next_token, rebind_print, rebind_direct, reroute_among, reroute_declined_job,
}
use so_ho_link.Jobs.Lifecycle.Known.{find_job-id}

-- A row for the same job, on a node, at the status that such a job is placed with again.
pub record Rebound (j : Job) (n : NodeEntry) (k : Job) : Type 0 where
  pub id : k.id ≡ j.id
  pub node : k.node_id ≡ some n.node_id
  pub status : k.status ≡ (if is_print j.workload_type then awaiting_confirmation else scheduled)

-- The node that the scheduler ranks first among some.
pub record First (o : Orchestrator) (nodes : List NodeEntry) (n : NodeEntry) : Type 0 where
  pub pctx : PlacementContext
  pub ranked : List NodeEntry
  pub scheduled : o.schedule nodes sla_standard pctx ≡ some ranked
  pub first : head_of ranked ≡ some n

abbrev pub Failed : String → Db → Type 0
Failed id d = (k : Job) × (find_job id d.jobs ≡ some k) × (k.status ≡ failed)

abbrev pub Moved : String → Job → NodeEntry → Db → Type 0
Moved id j n d = (k : Job) × (find_job id d.jobs ≡ some k) × Rebound j n k

-- What becomes of a declined job by FindMatch's answer.
abbrev pub Rerouted : Orchestrator → String → Job → Option (List NodeEntry) → Db → Type 0
Rerouted o id j none d = Failed id d
Rerouted o id j (some nodes) d = (n : NodeEntry) × First o nodes n × Moved id j n d

adjust_in_flight-SameTables : (node : String) (d : _) → Moves SameTables (adjust_in_flight node d)
unfolding adjust_in_flight
adjust_in_flight-SameTables node d = Moves-change tables_course _ (λ w. record { db = refl })

release-SameTables : (node : String) → Moves SameTables (release node)
unfolding release
release-SameTables node = search (tables_course, moves, adjust_in_flight-SameTables)

account_move-SameTables :
    (rows : ℕ) (node previous : String) → Moves SameTables (account_move rows node previous)
unfolding account_move
account_move-SameTables rows node previous =
    search (tables_course, moves, adjust_in_flight-SameTables, release-SameTables)

module _ (o : Orchestrator) (id : String) (d₀ : Db) (r₀ : NodeRegistry) (j : Job)
    (found : find_job id d₀.jobs ≡ some j) (waits : (j.status == declined) ≡ true) where
  abbrev Start : Fact
  Start d r = (d ≡ d₀) × (r ≡ r₀)

  declined_here : is_declined id j ≡ true
  declined_here =
      rw (subst (λ x. (j.id == x) ≡ true) (find_job-id id d₀.jobs found) (same_refl j.id), waits)
        refl

  -- An update with the guard on the status changes the row.
  guarded_update :
      (change : Job → Job)
      → ((k : Job) → (change k).id ≡ k.id)
      → Yields Start
          (update_jobs (is_declined id) change)
          (λ n d r. find_job id d.jobs ≡ some (change j))
  guarded_update change keeps = Yields-update Start (is_declined id) change _ λ w (here, reg).
      subst
        (λ (d : Db). find_job id (update_where (is_declined id) change d.jobs) ≡ some (change j))
        (sym here)
        (find_job-update_where (is_declined id) change id d₀.jobs keeps found
          ∙ ap (λ b. some (if b then change j else j)) declined_here)

  fail_declined-Yields :
      (previous : String) → Yields Start (fail_declined id previous) (λ _ d r. Failed id d)
  unfolding fail_declined clock
  fail_declined-Yields previous =
      Yields-bind Start _ _ (λ _. Start) _ (Yields-Same Start _ (Moves-gets Same-Course _))
        λ now.
          Yields-bind Start _ _ (λ _ d r. Failed id d) _
            (Yields-imply Start _ _ _ (guarded_update _ (λ k. refl)) (λ n d r e. (_, e, refl)))
            λ rows.
              Yields-SameTables (Failed id) _ (search (tables_course, moves, release-SameTables))

  choose_next-Yields :
      (nodes : List NodeEntry)
      → Yields Start (choose_next o j nodes) (λ n d r. Start d r × First o nodes n)
  unfolding choose_next
  choose_next-Yields nodes =
      Yields-bind Start _ _ (λ _. Start) _
        (Yields-Same Start _ (requester_placement_context-Same _))
        λ pctx.
          Yields-bind Start _ _ _ _ (Yields-require Start (o.schedule nodes sla_standard pctx) _)
            λ ranked.
              let K : Fact =
                λ d r. Start d r × (o.schedule nodes sla_standard pctx ≡ some ranked) in
              Yields-imply K _ _ _ (Yields-require K (head_of ranked) _) λ n d r q.
                (q.0.0, record { pctx = pctx; ranked = ranked; scheduled = q.0.1; first = q.1 })

  rebind_print-Yields :
      (n : NodeEntry) (t : Bytes)
      → Yields Start (rebind_print o id n.node_id t) (λ _ d r.
        (k : Job) × (find_job id d.jobs ≡ some k)
        × (k.id ≡ j.id)
        × (k.node_id ≡ some n.node_id)
        × (k.status ≡ awaiting_confirmation))
  unfolding rebind_print clock resolve_printer
  rebind_print-Yields n t =
      Yields-bind Start _ _ (λ _. Start) _ (Yields-Same Start _ (search (Same-Course, moves)))
        λ printer.
          Yields-bind Start _ _ (λ _. Start) _ (Yields-Same Start _ (Moves-gets Same-Course _))
            λ now.
              Yields-imply Start _ _ _ (guarded_update _ (λ k. refl))
                (λ rows d r e. (_, e, refl, refl, refl))

  rebind_direct-Yields :
      (n : NodeEntry) (t : Bytes)
      → Yields Start (rebind_direct o id n.node_id t) (λ _ d r.
        (k : Job) × (find_job id d.jobs ≡ some k)
        × (k.id ≡ j.id)
        × (k.node_id ≡ some n.node_id)
        × (k.status ≡ scheduled))
  unfolding rebind_direct clock
  rebind_direct-Yields n t =
      Yields-bind Start _ _ (λ _. Start) _ (Yields-Same Start _ (Moves-gets Same-Course _))
        λ now.
          Yields-imply Start _ _ _ (guarded_update _ (λ k. refl))
            (λ rows d r e. (_, e, refl, refl, refl))

  rebind-Yields :
      (b : Bool) (n : NodeEntry) (t : Bytes)
      → is_print j.workload_type ≡ b
      → Yields Start
          (if b then rebind_print o id n.node_id t else rebind_direct o id n.node_id t)
          (λ _ d r. Moved id j n d)
  rebind-Yields true n t e =
      Yields-imply Start _ _ _ (rebind_print-Yields n t)
        λ rows d r (k, f, i, at, s). (k, f, record { id = i; node = at; status = rw e s })
  rebind-Yields false n t e =
      Yields-imply Start _ _ _ (rebind_direct-Yields n t)
        λ rows d r (k, f, i, at, s). (k, f, record { id = i; node = at; status = rw e s })

  reroute_among-Yields :
      (answer : Option (List NodeEntry))
      → Yields Start (reroute_among o id j answer) (λ _ d r. Rerouted o id j answer d)
  unfolding reroute_among next_token clock
  reroute_among-Yields none = fail_declined-Yields _
  reroute_among-Yields (some nodes) = Yields-bind Start _ _ _ _ (choose_next-Yields nodes) λ n.
      let E : Type 0 = First o nodes n in
      let K : Fact = λ d r. Start d r × E in
      Yields-bind K _ _ (λ _. K) _ (Yields-Same K _ (search (Same-Course, moves)))
        λ t.
          Yields-bind K _ _ (λ _ d r. Moved id j n d × E) _
            (Yields-frame Start E _ _ (rebind-Yields (is_print j.workload_type) n t refl))
            λ rows.
              Yields-imply _ _ _ _
                (Yields-SameTables (λ d. Moved id j n d × E) _
                  (account_move-SameTables rows n.node_id _))
                (λ u d r q. (n, q.1, q.0))

  read_job-Yields : Yields Start (read_job id) (λ i d r. Start d r × (j ≡ i))
  unfolding read_job
  read_job-Yields =
      Yields-bind Start _ _ _ _ (Yields-query Start (λ db. find_job id db.jobs)) λ answer.
        let K : Fact = λ d r. Start d r × (answer ≡ find_job id d.jobs) in
        Yields-imply K _ _ _ (Yields-require K answer _) λ i d r q. (
          q.0.0,
          some_same
              (sym found ∙ ap (λ (x : Db). find_job id x.jobs) (sym q.0.0.0) ∙ sym q.0.1 ∙ q.1),
        )

  abbrev answer : Option (List NodeEntry)
  answer = find_match (rematch_request j (declined_nodes id d₀.declines)) r₀

  reroute_declined_job-Yields :
      Yields Start (reroute_declined_job o id) (λ _ d r. Rerouted o id j answer d)
  unfolding reroute_declined_job
  reroute_declined_job-Yields = Yields-bind Start _ _ _ _ read_job-Yields λ i.
      Yields-given Start (j ≡ i) _ _ λ same.
        subst
          (λ x.
            Yields Start
              (query (λ db. declined_nodes id db.declines) >>= λ excluded.
                gets (λ w. find_match (rematch_request x excluded) w.registry) >>= λ found.
                reroute_among o id x found)
              (λ _ d r. Rerouted o id j answer d))
          same
          (Yields-bind Start _ _ _ _ (Yields-query Start (λ db. declined_nodes id db.declines))
            λ excluded.
              let K : Fact = λ d r. Start d r × (excluded ≡ declined_nodes id d.declines) in
              Yields-bind K _ _ (λ found d r. Start d r × (found ≡ answer)) _
                (Yields-gets K _ _ λ w (start, e). (
                  start,
                  ap (λ x. find_match (rematch_request j x) w.registry)
                        (e ∙ ap (λ (x : Db). declined_nodes id x.declines) start.0)
                      ∙ ap (find_match (rematch_request j (declined_nodes id d₀.declines))) start.1,
                ))
                λ found. Yields-given Start (found ≡ answer) _ _ λ e.
                  subst
                    (λ x. Yields Start (reroute_among o id j x) (λ _ d r. Rerouted o id j answer d))
                    (sym e) (reroute_among-Yields answer))

-- Rerouting a declined job, when it returns, has failed the job if FindMatch answers with no node,
-- the nodes left out that are recorded to have declined the job, and otherwise has put it on the
-- node that the scheduler ranks first among the nodes of that answer: a print awaits confirmation
-- there, another job is scheduled.
pub reroute_declined_job-Rerouted :
    (o : Orchestrator) (id : String) (w : World) (j : Job)
    → find_job id w.db.jobs ≡ some j
    → (j.status == declined) ≡ true
    → (reroute_declined_job o id w).0 ≡ ok tt
    → Rerouted o id j
        (find_match (rematch_request j (declined_nodes id w.db.declines)) w.registry)
        (reroute_declined_job o id w).1.db
reroute_declined_job-Rerouted o id w j found waits =
    (reroute_declined_job-Yields o id w.db w.registry j found waits).at w (refl, refl)
