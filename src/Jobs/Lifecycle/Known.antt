-- ===== src/Jobs/Lifecycle/Known.antt =====
-- A job's workload type, once read, is known to stay; what an operation does with that.
use so_ho_link.Base.{
  ◌≡◌, refl, sym, ◌∙◌, subst, ap, inl, inr, String, Bool, true, false, ◌&&◌, Option, none, some,
  List, [], ◌∷◌, ◌==◌, text_equality, eq_of_same, Bool-cases, ℤ,
}
use so_ho_link.Store.{Job, Db, World, status_equality, Sounding}
use so_ho_link.Store.Sql.{
  find_job, update_where, update_jobs, M, with_jobs, no_rows, ◌>>=◌, insert_decline, record_decline,
}
use so_ho_link.Store.Effects.{
  Moves, Course, Moves-update, Moves-change, Same, Moves-insert_decline, Moves-record_decline,
}
use so_ho_link.Store.Knowing.{Under, under_course, Moves-read}
use so_ho_link.Jobs.Submit.{adjust_in_flight, record_sounding}
use so_ho_link.Jobs.Reroute.{read_job}
use so_ho_link.Jobs.Lifecycle.{Mode, Life, Kin, Evolves}
use so_ho_link.Jobs.Lifecycle.Rules.{evolves_course, Kin-refl, Evolves-update}

-- The job with that id has that workload type.
abbrev pub Works : String → String → Db → Type 0
Works id workload db = (j : Job) × (find_job id db.jobs ≡ some j) × (j.workload_type ≡ workload)

pub and_left : (a b : Bool) → (a && b) ≡ true → a ≡ true
and_left true b h = refl
and_left false b h = h

pub and_right : (a b : Bool) → (a && b) ≡ true → b ≡ true
and_right true b h = h
and_right false b h = cc

some_same : {j k : Job} → some j ≡ some k → j ≡ k
some_same h = cc

pub find_job-id : (id : String) (js : List Job) {j : Job} → find_job id js ≡ some j → j.id ≡ id
find_job-id id [] h = cc
find_job-id id (k ∷ js) {j} h = elim (Bool-cases (k.id == id)) [
  | inl hit ↦ ap (λ r. r.id) (sym (some_same (rw hit at h))) ∙ eq_of_same hit
  | inr other ↦ find_job-id id js (rw other at h)
]

module _ (m : Mode) where
  Kin-workload :
      (o p : Option Job) (workload : String)
      → Kin m o p
      → (j : Job) × (o ≡ some j) × (j.workload_type ≡ workload)
      → (k : Job) × (p ≡ some k) × (k.workload_type ≡ workload)
  Kin-workload none p workload kin (j, e, w) = cc
  Kin-workload (some i) none workload kin works = absurd kin
  Kin-workload (some i) (some k) workload kin (j, e, w) =
      (k, refl, kin.workload ∙ ap (λ r. r.workload_type) (some_same e) ∙ w)

  pub Evolves-same : (v w : World) → w.db ≡ v.db → Evolves m v w
  Evolves-same v w e = record {
    at = λ id.
        subst (λ d. Kin m (find_job id v.db.jobs) (find_job id d.jobs)) (sym e)
          (Kin-refl m (find_job id v.db.jobs));
  }

  pub known_course : (id workload : String) → Course (Under (Works id workload) (Evolves m))
  known_course id workload = under_course (evolves_course m)

  module _ (id workload : String) where
    pub Moves-known :
        {A : Type 0} {f : M A}
        → Moves (Evolves m) f
        → Moves (Under (Works id workload) (Evolves m)) f
    Moves-known {f = f} k = record {
      at = λ w. record {
        at = λ p. (
          Kin-workload (find_job id w.db.jobs) (find_job id (f w).1.db.jobs) workload
              ((k.at w).at id) p,
          k.at w,
        );
      };
    }

    pub Moves-known_update :
        (test : Job → Bool) (change : Job → Job)
        → ((j : Job) → test j ≡ true → j.id ≡ id)
        → ((j : Job) → (change j).id ≡ j.id)
        → ((j : Job) → j.workload_type ≡ workload → test j ≡ true → Life m j (change j))
        → Moves (Under (Works id workload) (Evolves m)) (update_jobs test change)
    Moves-known_update test change picks keeps lives =
        Moves-update (known_course id workload) test change λ w. record {
          at = λ p.
              let step : Evolves m w (with_jobs (update_where test change w.db.jobs) w) =
                Evolves-update m test change w keeps λ i j found t.
                  lives j
                    (ap (λ r. r.workload_type)
                        (some_same (
                          sym (
                            subst (λ x. find_job x w.db.jobs ≡ some j)
                              (sym (find_job-id i w.db.jobs found) ∙ picks j t) found)
                          ∙ p.1))
                      ∙ p.2)
                    t in
              (Kin-workload (find_job id w.db.jobs) _ workload (step.at id) p, step);
        }

  pub Moves-read_job :
      {B : Type 0} (id : String) (k : Job → M B)
      → ((j : Job) → Moves (Under (Works id j.workload_type) (Evolves m)) (k j))
      → Moves (Evolves m) (read_job id >>= k)
  unfolding read_job
  Moves-read_job id k later =
      Moves-read (evolves_course m) (λ j. Works id j.workload_type) (λ db. find_job id db.jobs)
        no_rows k (λ db j found. (j, found, refl)) later

  pub adjust_in_flight-Evolves :
      (node : String) (delta : ℤ) → Moves (Evolves m) (adjust_in_flight node delta)
  unfolding adjust_in_flight
  adjust_in_flight-Evolves node delta =
      Moves-change (evolves_course m) _ (λ w. Evolves-same w _ refl)

  pub record_sounding-Evolves : (s : Sounding) → Moves (Evolves m) (record_sounding s)
  unfolding record_sounding
  record_sounding-Evolves s = Moves-change (evolves_course m) _ (λ w. Evolves-same w _ refl)

  -- A fact about equal tables, from an operation that keeps them.
  pub Moves-Same-Evolves : {A : Type 0} {f : M A} → Moves Same f → Moves (Evolves m) f
  Moves-Same-Evolves k = record { at = λ w. Evolves-same w _ (k.at w).db }

  pub insert_decline-Evolves : (job node : String) → Moves (Evolves m) (insert_decline job node)
  insert_decline-Evolves job node =
      Moves-insert_decline (evolves_course m) job node
        (λ w. record { at = λ id. Kin-refl m (find_job id w.db.jobs) })

  pub record_decline-Evolves : (job node : String) → Moves (Evolves m) (record_decline job node)
  record_decline-Evolves job node =
      Moves-record_decline (evolves_course m) job node
        (λ w. record { at = λ id. Kin-refl m (find_job id w.db.jobs) })
