-- ===== src/Jobs/Submit/Row.antt =====
-- What the transaction of a submission has done when it returns: the row.
use so_ho_link.Base.{
  if_true, ◌≡◌, refl, ap, ◌∙◌, ℕ, String, Bool, true, false, ◌&&◌, some, ◌==◌, text_equality,
  same_refl, if◌then◌else◌,
}
use so_ho_link.Registry.{NodeEntry, NodeRegistry}
use so_ho_link.Store.{Bytes, Job, Status, scheduled, awaiting_confirmation}
use so_ho_link.Store.Sql.{find_job, update_jobs}
use so_ho_link.Store.Effects.{moves, Same-Course, Moves-gets, Moves-query, Moves-require}
use so_ho_link.Store.Rows.{find_job-update_where}
use so_ho_link.Store.Returns.{
  Fact, Yields, Yields-bind, Yields-Same, Yields-pure, Yields-insert, Yields-update,
}
use so_ho_link.Jobs.Requests.{SubmitJobRequest, SubmitJobResponse, Orchestrator}
use so_ho_link.Jobs.Submit.{
  is_print, clock, resolve_printer, pending_row, await_confirmation, schedule_directly, place,
}

-- The status that a job is placed with.
abbrev pub placed_at : Bool → Status
placed_at asks = if asks then awaiting_confirmation else scheduled

-- A row of this submission, on this node, with this token and status.
pub record RowOf (req : SubmitJobRequest) (n : NodeEntry) (t : Bytes) (s : Status) (j : Job)
    : Type 0 where
  pub participant : j.participant_id ≡ some req.consumer_id
  pub workload : j.workload_type ≡ req.workload_type
  pub node : j.node_id ≡ some n.node_id
  pub token : j.job_token ≡ some t
  pub status : j.status ≡ s

module _ (o : Orchestrator) (id : String) (req : SubmitJobRequest) (r₀ : NodeRegistry) where
  abbrev pub Registered : Fact
  Registered d r = r ≡ r₀

  abbrev pub Inserted : NodeEntry → ℕ → Fact
  Inserted n now d r = (find_job id d.jobs ≡ some (pending_row id req n now)) × (r ≡ r₀)

  abbrev pub Placed : NodeEntry → Bytes → Status → Fact
  Placed n t s d r = ((j : Job) × (find_job id d.jobs ≡ some j) × RowOf req n t s j) × (r ≡ r₀)

  module _ (n : NodeEntry) (now : ℕ) where
    -- The update that follows the insertion, by the id, changes the row that was inserted.
    placing_update :
        (t : Bytes) (s : Status) (change : Job → Job)
        → ((k : Job) → (change k).id ≡ k.id)
        → RowOf req n t s (change (pending_row id req n now))
        → Yields (Inserted n now) (update_jobs (λ k. k.id == id) change) (λ _. Placed n t s)
    unfolding pending_row
    placing_update t s change keeps row =
        Yields-update (Inserted n now) (λ k. k.id == id) change (Placed n t s)
          λ w (found, reg). (
            (
              change (pending_row id req n now),
              find_job-update_where (λ k. k.id == id) change id w.db.jobs keeps found
                  ∙ ap
                      (λ b.
                        some (
                          if b
                          then change (pending_row id req n now)
                          else pending_row id req n now))
                      (same_refl id),
              row,
            ),
            reg,
          )

    direct-Yields :
        (t : Bytes) → Yields (Inserted n now) (schedule_directly o id t) (λ _. Placed n t scheduled)
    unfolding schedule_directly pending_row
    direct-Yields t =
        placing_update t scheduled _ (λ k. refl)
          (record { participant = refl; workload = refl; node = refl; token = refl; status = refl })

    asked-Yields :
        (t : Bytes)
        → Yields
            (Inserted n now)
            (await_confirmation o id req n t)
            (λ _. Placed n t awaiting_confirmation)
    unfolding await_confirmation pending_row clock resolve_printer
    asked-Yields t =
        Yields-bind (Inserted n now) _ _ (λ _. Inserted n now) _
          (Yields-Same (Inserted n now) _ (search (Same-Course, moves)))
          λ printer.
            Yields-bind (Inserted n now) _ _ (λ _. Inserted n now) _
              (Yields-Same (Inserted n now) _ (Moves-require Same-Course _ _))
              λ hash.
                Yields-bind (Inserted n now) _ _ (λ _. Inserted n now) _
                  (Yields-Same (Inserted n now) _ (Moves-gets Same-Course _))
                  λ at.
                    placing_update t awaiting_confirmation _ (λ k. refl)
                      (record {
                        participant = refl;
                        workload = refl;
                        node = refl;
                        token = refl;
                        status = refl;
                      })

    first_status-Yields :
        (b : Bool) (t : Bytes)
        → Yields
            (Inserted n now)
            (if b then await_confirmation o id req n t else schedule_directly o id t)
            (λ _. Placed n t (placed_at b))
    first_status-Yields true t = asked-Yields t
    first_status-Yields false t = direct-Yields t

  abbrev pub asks : Bool
  asks = is_print req.workload_type && o.print_confirm_enabled

  -- What the transaction's body has done.
  abbrev pub Answered : NodeEntry → SubmitJobResponse → Fact
  Answered n resp d r =
      Placed n resp.job_token (placed_at asks) d r × (resp.job_id ≡ id) × (resp.node_id ≡ n.node_id)

  pub place-Yields : (n : NodeEntry) → Yields Registered (place o id req n) (Answered n)
  unfolding place clock pending_row
  place-Yields n =
      Yields-bind Registered _ _ (λ _. Registered) _
        (Yields-Same Registered _ (Moves-gets Same-Course _))
        λ now.
          Yields-bind Registered _ _ (λ _. Inserted n now) _
            (Yields-insert Registered _ (Inserted n now)
              λ w reg. (if_true (id == id) _ _ (same_refl id), reg))
            λ _.
              Yields-bind (Inserted n now) _ _ (λ _. Inserted n now) _
                (Yields-Same (Inserted n now) _ (Moves-require Same-Course _ _))
                λ t.
                  Yields-bind (Inserted n now) _ _ (λ _. Placed n t (placed_at asks)) _
                    (first_status-Yields n now asks t)
                    λ _.
                      Yields-bind (Placed n t (placed_at asks)) _ _
                        (λ _. Placed n t (placed_at asks)) _
                        (Yields-Same (Placed n t (placed_at asks)) _ (Moves-query Same-Course _))
                        λ found.
                          Yields-bind (Placed n t (placed_at asks)) _ _
                            (λ _. Placed n t (placed_at asks)) _
                            (Yields-Same (Placed n t (placed_at asks)) _
                              (Moves-require Same-Course _ _))
                            λ account.
                              Yields-pure (Placed n t (placed_at asks)) (Answered n) _
                                (λ d r placed. (placed, refl, refl))
