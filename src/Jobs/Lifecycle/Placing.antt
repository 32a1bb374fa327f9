-- ===== src/Jobs/Lifecycle/Placing.antt =====
-- SubmitJob brings a job into the diagram, and takes it to the status it is placed with.
use so_ho_link.Base.{
  if_true, ◌≡◌, refl, sym, subst, ap, ◌∙◌, String, Bool, true, false, ◌&&◌, Option, none, some, ◌∷◌,
  ◌==◌, text_equality, eq_of_same, same_refl, if◌then◌else◌,
}
use so_ho_link.Registry.{NodeEntry}
use so_ho_link.Store.{Bytes, Job, Db, World, Status, pending, scheduled, awaiting_confirmation}
use so_ho_link.Store.Sql.{M, find_job, update_jobs, with_jobs}
use so_ho_link.Store.Effects.{
  Moves, Course, moves, Moves-bind, Moves-gets, Moves-require, Moves-update, Moves-transaction,
  Same,
}
use so_ho_link.Store.Knowing.{Under, under_course, Moves-inserted}
use so_ho_link.Jobs.Requests.{SubmitJobRequest, Orchestrator}
use so_ho_link.Jobs.Submit.{
  is_print, clock, resolve_printer, pending_row, await_confirmation, schedule_directly, place,
  submit_job,
}
use so_ho_link.Store.Rows.{some_same, find_job-update_where}
use so_ho_link.Jobs.Submit.Atomic.{choose_node-Same}
use so_ho_link.Jobs.Lifecycle.{Mode, Edge, Way, Life, Kin, Evolves}
use so_ho_link.Jobs.Lifecycle.Rules.{evolves_course, Kin-refl, Evolves-update}
use so_ho_link.Jobs.Lifecycle.Known.{
  and_left, find_job-id, Moves-Same-Evolves, Evolves-same, adjust_in_flight-Evolves,
  record_sounding-Evolves,
}

some-none : {j : Job} → some j ≡ none → ⊥
some-none h = cc

module _ (m : Mode) where
  abbrev c : Course (Evolves m)
  c = evolves_course m

  born_at :
      (b : Bool) (job : Job) (o : Option Job)
      → (b ≡ true → o ≡ none)
      → job.status ≡ pending
      → Kin m o (if b then some job else o)
  born_at true job none fresh at =
      subst (Way m (is_print job.workload_type) pending) (sym at) Way.here
  born_at true job (some j) fresh at = absurd (some-none (fresh refl))
  born_at false job o fresh at = Kin-refl m o

  -- A fresh row comes out of `pending`.
  Evolves-insert :
      (job : Job) (w : World)
      → find_job job.id w.db.jobs ≡ none
      → job.status ≡ pending
      → Evolves m w (with_jobs (job ∷ w.db.jobs) w)
  Evolves-insert job w fresh at = record {
    at = λ id.
        born_at (job.id == id) job (find_job id w.db.jobs)
          (λ hit. subst (λ x. find_job x w.db.jobs ≡ none) (eq_of_same hit) fresh) at;
  }

  -- The row that this placement has inserted, on its way to the status that it is placed with.
  abbrev Placing : String → String → Status → Db → Type 0
  Placing id workload target db =
      (j : Job) × (find_job id db.jobs ≡ some j)
      × (j.workload_type ≡ workload)
      × Way m (is_print workload) j.status target

  module _ (id workload : String) (target : Status) where
    abbrev k : Course (Under (Placing id workload target) (Evolves m))
    k = under_course c

    Moves-placing :
        {A : Type 0} {f : M A}
        → Moves Same f
        → Moves (Under (Placing id workload target) (Evolves m)) f
    Moves-placing same = record {
      at = λ w. record {
        at = λ p. (
          subst (Placing id workload target) (sym (same.at w).db) p,
          Evolves-same m w _ (same.at w).db,
        );
      };
    }

    Moves-placing_update :
        (change : Job → Job)
        → ((j : Job) → (change j).id ≡ j.id)
        → ((j : Job) → (change j).workload_type ≡ j.workload_type)
        → ((j : Job) → (change j).participant_id ≡ j.participant_id)
        → ((j : Job) → (change j).status ≡ target)
        → Moves
            (Under (Placing id workload target) (Evolves m))
            (update_jobs (λ j. j.id == id) change)
    Moves-placing_update change i wl pt st =
        Moves-update k (λ j. j.id == id) change
          λ w. record {
            at = λ (j, found, works, way).
                let hit : (j.id == id) ≡ true =
                  subst (λ x. (j.id == x) ≡ true) (find_job-id id w.db.jobs found)
                    (same_refl j.id) in
                let life : Life m j (change j) = record {
                  id = i j;
                  workload = wl j;
                  participant = pt j;
                  way =
                      subst (λ s. Way m (is_print j.workload_type) j.status s) (sym (st j))
                        (subst (λ x. Way m (is_print x) j.status target) (sym works) way);
                } in
                (
                  (
                    change j,
                    find_job-update_where (λ r. r.id == id) change id w.db.jobs i found
                        ∙ ap (λ b. some (if b then change j else j)) hit,
                    wl j ∙ works,
                    subst (λ s. Way m (is_print workload) s target) (sym (st j)) Way.here,
                  ),
                  Evolves-update m (λ r. r.id == id) change w i
                      λ x r at t.
                        subst (λ q. Life m q (change q))
                          (some_same (
                            sym found
                            ∙ subst (λ y. find_job y w.db.jobs ≡ some r)
                                (sym (find_job-id x w.db.jobs at) ∙ eq_of_same t) at))
                          life,
                );
          }

  module _ (o : Orchestrator) (asks : m.asks_owner ≡ o.print_confirm_enabled) where
    abbrev asks_first : SubmitJobRequest → Bool
    asks_first req = is_print req.workload_type && o.print_confirm_enabled

    abbrev placed_at : Bool → Status
    placed_at b = if b then awaiting_confirmation else scheduled

    placed_at-Way : (p q b : Bool) → m.asks_owner ≡ q → (p && q) ≡ b → Way m p pending (placed_at b)
    placed_at-Way p q true a e = Way.then (Edge.asks (and_left p q e)) Way.here
    placed_at-Way p q false a e = Way.then (Edge.schedules (ap (λ x. p && x) a ∙ e)) Way.here

    module _ (id : String) (req : SubmitJobRequest) (node : NodeEntry) where
      abbrev Known : Bool → {A : Type 0} → M A → Type 0
      Known b = Moves (Under (Placing id req.workload_type (placed_at b)) (Evolves m))

      await_confirmation-Known :
          (token : Bytes) → Known true (await_confirmation o id req node token)
      unfolding await_confirmation clock resolve_printer
      await_confirmation-Known token =
          let k : Course (Under (Placing id req.workload_type awaiting_confirmation) (Evolves m)) =
            under_course c in
          Moves-bind k _ _ (search (k, moves)) λ printer.
            Moves-bind k _ _ (Moves-require k _ _) λ hash. Moves-bind k _ _ (Moves-gets k _) λ now.
              Moves-placing_update id req.workload_type awaiting_confirmation _ (λ j. refl)
                (λ j. refl) (λ j. refl) (λ j. refl)

      schedule_directly-Known : (token : Bytes) → Known false (schedule_directly o id token)
      unfolding schedule_directly
      schedule_directly-Known token =
          Moves-placing_update id req.workload_type scheduled _ (λ j. refl) (λ j. refl) (λ j. refl)
            (λ j. refl)

      first_status-Known :
          (b : Bool) (token : Bytes)
          → Known b
              (if b then await_confirmation o id req node token else schedule_directly o id token)
      first_status-Known true token = await_confirmation-Known token
      first_status-Known false token = schedule_directly-Known token

      place-Evolves : Moves (Evolves m) (place o id req node)
      unfolding place clock pending_row
      place-Evolves =
          let b : Bool = asks_first req in
          let k : Course (Under (Placing id req.workload_type (placed_at b)) (Evolves m)) =
            under_course c in
          Moves-bind c _ _ (Moves-gets c _) λ now.
            Moves-inserted c (Placing id req.workload_type (placed_at b)) _ _
              (λ w fresh. (
                Evolves-insert _ w fresh refl,
                (
                  pending_row id req node now,
                  if_true (id == id) _ _ (same_refl id),
                  refl,
                  placed_at-Way (is_print req.workload_type) o.print_confirm_enabled b asks refl,
                ),
              ))
              λ _. Moves-bind k _ _ (Moves-require k _ _) λ token.
                Moves-bind k _ _ (first_status-Known b token) λ _. search (k, moves) depth 8

    pub submit_job-Evolves :
        (id : String) (req : SubmitJobRequest) → Moves (Evolves m) (submit_job o id req)
    unfolding submit_job
    submit_job-Evolves id req =
        Moves-bind c _ _ (Moves-Same-Evolves m (choose_node-Same o req)) λ node.
          Moves-bind c _ _ (Moves-transaction c _ (place-Evolves id req node))
            λ placed. search (c, moves, adjust_in_flight-Evolves m, record_sounding-Evolves m)
