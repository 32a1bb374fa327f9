-- ===== src/Jobs/Protocol/Window.antt =====
-- The start that a node reports is held within the time that the job was with it (ReportJob).
use so_ho_link.Base.{
  ℕ, ◌≤◌, ◌≡◌, refl, sym, subst, ◌∙◌, String, Bool, true, false, ◌&&◌, none, some, ◌==◌,
  text_equality, inl, inr, ◌⊎◌, Bool-cases, if◌then◌else◌, arith,
}
use so_ho_link.Store.{Job, World, status_equality, dispatched, running}
use so_ho_link.Store.Sql.{find_job, ◌>>=◌, gets, update_jobs, attempt, faulty}
use so_ho_link.Store.Rows.{some_same, find_job-update_where}
use so_ho_link.Jobs.Submit.{clock, coalesce}
use so_ho_link.Jobs.Reroute.{is_on}
use so_ho_link.Jobs.Protocol.{JobReport, clamp_started, mark_running}

clamp_started-bounds :
    (reported dispatch now : ℕ)
    → dispatch ≤ now
    → (dispatch ≤ clamp_started reported dispatch now) × (clamp_started reported dispatch now ≤ now)
unfolding clamp_started
clamp_started-bounds reported dispatch now h = ground arith

-- The row is as it was, or runs since a time between its last change and now.
abbrev pub StartsWithin : ℕ → Job → Job → Type 0
StartsWithin now j k =
    (k ≡ j)
    ⊎ ((t : ℕ) × (k.status ≡ running) × (k.started_at ≡ some t) × (j.updated_at ≤ t) × (t ≤ now))

marked : JobReport → ℕ → Job → Job
marked r now j = record j {
  status = running;
  started_at = some (coalesce j.started_at (clamp_started r.started_at j.updated_at now));
  updated_at = now;
}

marked-StartsWithin :
    (r : JobReport) (now : ℕ) (j : Job) (b : Bool)
    → j.started_at ≡ none
    → j.updated_at ≤ now
    → StartsWithin now j (if b then marked r now j else j)
unfolding marked
marked-StartsWithin r now j false fresh past = inl refl
marked-StartsWithin r now j true fresh past =
    let (low, high) = clamp_started-bounds r.started_at j.updated_at now past in
    inr (clamp_started r.started_at j.updated_at now, refl, rw fresh refl, low, high)

-- Whatever start a node reports, the job that ReportJob marks as running is recorded to have
-- started between its last change, the handing out, and now, if it had no start and that change
-- is past; a job that is not marked keeps its row.
pub mark_running-StartsWithin :
    (r : JobReport) (w : World) (id : String) {j k : Job}
    → find_job id w.db.jobs ≡ some j
    → j.started_at ≡ none
    → j.updated_at ≤ w.now
    → find_job id (mark_running r w).1.db.jobs ≡ some k
    → StartsWithin w.now j k
unfolding mark_running clock gets update_jobs attempt ◌>>=◌ marked
mark_running-StartsWithin r w id {j} {k} found fresh past after =
    elim (Bool-cases (faulty w.faults)) [
      | inl bad ↦ inl (some_same (sym (rw bad at after) ∙ found))
      | inr good ↦
          let test : Job → Bool =
            λ x. x.id == r.job_id && is_on r.node_id x && x.status == dispatched in
          subst (StartsWithin w.now j)
            (some_same (
              sym (find_job-update_where test (marked r w.now) id w.db.jobs (λ x. refl) found)
              ∙ rw good at after))
            (marked-StartsWithin r w.now j (test j) fresh past)
    ]
