-- ===== src/Jobs/Lifecycle/Outcomes.antt =====
-- What any run of operations leaves of a job: the outcome stays, an owner is asked, and each kind
-- of job keeps to its own statuses.
use so_ho_link.Base.{◌≡◌, refl, sym, subst, ap, ◌∙◌, String, Bool, true, false, Option, none, some}
use so_ho_link.Store.{Job, World, pending}
use so_ho_link.Store.Sql.{find_job}
use so_ho_link.Jobs.Requests.{Orchestrator}
use so_ho_link.Jobs.Submit.{is_print}
use so_ho_link.Jobs.Protocol.{Protocol}
use so_ho_link.Jobs.Lifecycle.{Mode, Way, Life, Kin}
use so_ho_link.Jobs.Lifecycle.Runs.{Runs, mode, Runs-Evolves}
use so_ho_link.Jobs.Lifecycle.Diagram.{
  is_final, is_unconfirmed, fits, Way-final, Way-unconfirmed, Way-fits, pending-fits,
}

some_same : {j k : Job} → some j ≡ some k → j ≡ k
some_same h = cc

module _ (m : Mode) where
  Kin-kept :
      (a b : Option Job) {j : Job} → Kin m a b → a ≡ some j → (k : Job) × (b ≡ some k) × Life m j k
  Kin-kept none b kin e = cc
  Kin-kept (some i) none kin e = absurd kin
  Kin-kept (some i) (some k) kin e = (k, refl, subst (λ x. Life m x k) (some_same e) kin)

  -- Where a row comes from: it was there, or it came out of `pending`.
  Kin-source :
      (a b : Option Job) {k : Job} (Q : Job → Type 0)
      → Kin m a b
      → b ≡ some k
      → (Way m (is_print k.workload_type) pending k.status → Q k)
      → ((j : Job) → a ≡ some j → Life m j k → Q k)
      → Q k
  Kin-source none none Q kin e new old = cc
  Kin-source none (some i) Q kin e new old =
      new (subst (λ x. Way m (is_print x.workload_type) pending x.status) (some_same e) kin)
  Kin-source (some j) none Q kin e new old = absurd kin
  Kin-source (some j) (some i) Q kin e new old =
      old j refl (subst (λ x. Life m j x) (some_same e) kin)

module _ (o : Orchestrator) (p : Protocol) where
  -- A job that is completed, delivered or failed stays so, with its id, workload type and
  -- participant, along any run of operations, whichever statements fail.
  pub final-status :
      (b : Bool) {v w : World} (id : String) {j : Job}
      → Runs o p b v w
      → find_job id v.db.jobs ≡ some j
      → is_final j.status ≡ true
      → (k : Job) × (find_job id w.db.jobs ≡ some k)
        × (k.status ≡ j.status)
        × (k.id ≡ j.id)
        × (k.workload_type ≡ j.workload_type)
        × (k.participant_id ≡ j.participant_id)
  final-status b {v} {w} id run found final =
      let (k, e, life) =
        Kin-kept (mode o p b) (find_job id v.db.jobs) (find_job id w.db.jobs)
          ((Runs-Evolves o p b run).at id) found in
      (k, e, Way-final life.way final, life.id, life.workload, life.participant)

  -- Where prints wait for their node's owner, none is scheduled, handed out or run without an
  -- answer `confirm`: along any run of operations in which nobody answers `confirm` to any job,
  -- whichever statements fail, a print that was new or unconfirmed at its start is pending,
  -- awaiting confirmation, declined or failed at its end.
  pub unconfirmed-print :
      {v w : World} (id : String) {k : Job}
      → o.print_confirm_enabled ≡ true
      → Runs o p false v w
      → ((j : Job) → find_job id v.db.jobs ≡ some j → is_unconfirmed j.status ≡ true)
      → find_job id w.db.jobs ≡ some k
      → is_print k.workload_type ≡ true
      → is_unconfirmed k.status ≡ true
  unconfirmed-print {v} {w} id {k} asks run before found print =
      Kin-source (mode o p false) (find_job id v.db.jobs) (find_job id w.db.jobs)
        (λ r. is_print r.workload_type ≡ true → is_unconfirmed r.status ≡ true)
        ((Runs-Evolves o p false run).at id) found (λ way pr. Way-unconfirmed way asks refl pr refl)
        (λ j e life pr.
          Way-unconfirmed life.way asks refl (ap is_print (sym life.workload) ∙ pr) (before j e))
        print

  -- Along any run of operations, whichever statements fail, a job that was new or at a status of
  -- its kind at the start is so at the end: only a print awaits confirmation or pickup, is picked
  -- up or delivered, only another job is completed, and no job is disputed.
  pub job-fits :
      (b : Bool) {v w : World} (id : String) {k : Job}
      → Runs o p b v w
      → ((j : Job)
          → find_job id v.db.jobs ≡ some j
          → fits (is_print j.workload_type) j.status ≡ true)
      → find_job id w.db.jobs ≡ some k
      → fits (is_print k.workload_type) k.status ≡ true
  job-fits b {v} {w} id {k} run before found =
      Kin-source (mode o p b) (find_job id v.db.jobs) (find_job id w.db.jobs)
        (λ r. fits (is_print r.workload_type) r.status ≡ true) ((Runs-Evolves o p b run).at id)
        found (λ way. Way-fits way (pending-fits (is_print k.workload_type)))
        (λ j e life.
          subst (λ x. fits (is_print x) k.status ≡ true) (sym life.workload)
            (Way-fits life.way (before j e)))
