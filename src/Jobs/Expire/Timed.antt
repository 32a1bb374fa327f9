-- ===== src/Jobs/Expire/Timed.antt =====
-- The passes that time jobs out touch no job before its time.
use so_ho_link.Base.{
  ◌≡◌, refl, sym, ◌∙◌, ap, ℕ, String, Bool, true, false, ◌&&◌, some, List, [], ◌∷◌, ◌==◌,
  text_equality, number_equality, false≢true, inl, inr, ◌⊎◌, Bool-cases, if◌then◌else◌,
}
use so_ho_link.Store.{Job, World, status_discrete, status_equality, declined, scheduled, delivered}
use so_ho_link.Store.Sql.{
  M, ◌>>=◌, gets, find_job, update_jobs, update_where, attempt, faulty, pure,
}
use so_ho_link.Store.Effects.{
  Moves, Course, Moves-bind, Moves-gets, Moves-query, Moves-recover, Moves-pure,
}
use so_ho_link.Store.Rows.{find_job-update_where}
use so_ho_link.Jobs.Submit.{clock}
use so_ho_link.Jobs.Expire.{
  each, sweep, confirmation_expired, expire_confirmation, expire_confirmations, dispatch_expired,
  expire_dispatched, expire_all_dispatched, pickup_expired, expire_picked_up, expire_all_picked_up,
}

-- Every job stays as it is, or its time has come and it changes.
pub record Timed (test : ℕ → Job → Bool) (change : ℕ → Job → Job) (v w : World) : Type 0 where
  pub now : w.now ≡ v.now
  pub at :
      (id : String) {j : Job}
      → find_job id v.db.jobs ≡ some j
      → (find_job id w.db.jobs ≡ some j)
        ⊎ ((test v.now j ≡ true) × (find_job id w.db.jobs ≡ some (change v.now j)))

right : (a b : Bool) → (a && b) ≡ true → b ≡ true
right true b h = h
right false b h = cc

module _ (test : ℕ → Job → Bool) (change : ℕ → Job → Job)
    (keeps : (now : ℕ) (j : Job) → (change now j).id ≡ j.id)
    (once : (now : ℕ) (j : Job) → test now (change now j) ≡ false) where
  Timed-join :
      (u v w : World) → Timed test change u v → Timed test change v w → Timed test change u w
  Timed-join u v w f g = record {
    now = g.now ∙ f.now;
    at = λ id {j} found. elim (f.at id found) [
      | inl same ↦ elim (g.at id same) [
        | inl again ↦ inl again
        | inr (due, changed) ↦
            inr (ap (λ n. test n j) (sym f.now) ∙ due, changed ∙ ap (λ n. some (change n j)) f.now)
      ]
      | inr (due, changed) ↦ elim (g.at id changed) [
        | inl again ↦ inr (due, again)
        | inr (twice, _) ↦ absurd (
            false≢true (sym (once u.now j) ∙ ap (λ n. test n (change u.now j)) (sym f.now) ∙ twice))
      ]
    ];
  }

  Timed-course : Course (Timed test change)
  Timed-course = record {
    stay = λ w. record { now = refl; at = λ id found. inl found };
    join = Timed-join;
    fault = λ w. record { now = refl; at = λ id found. inl found };
    restore = λ u v f. record { now = f.now; at = λ id found. inl found };
  }

  updated_at :
      (w : World) (only : String) (id : String) {j : Job}
      → find_job id w.db.jobs ≡ some j
      → (find_job id (update_where (λ k. k.id == only && test w.now k) (change w.now) w.db.jobs)
          ≡ some j)
        ⊎ ((test w.now j ≡ true)
            × (find_job id
                  (update_where (λ k. k.id == only && test w.now k) (change w.now) w.db.jobs)
                ≡ some (change w.now j)))
  updated_at w only id {j} found =
      let row =
        find_job-update_where (λ k. k.id == only && test w.now k) (change w.now) id w.db.jobs
          (keeps w.now) found in
      elim (Bool-cases (j.id == only && test w.now j)) [
        | inl hit ↦ inr (
          right (j.id == only) (test w.now j) hit,
          row ∙ ap (λ b. some (if b then change w.now j else j)) hit,
        )
        | inr other ↦ inl (row ∙ ap (λ b. some (if b then change w.now j else j)) other)
      ]

  -- The guarded UPDATE of one job, at the time of the clock.
  expiry-Timed :
      (only : String)
      → Moves (Timed test change) (
          clock >>= λ now.
          update_jobs (λ k. k.id == only && test now k) (change now) >>= λ rows. pure (rows == 1))
  unfolding clock gets update_jobs attempt pure ◌>>=◌
  expiry-Timed only = record {
    at = λ w. elim (Bool-cases (faulty w.faults)) [
      | inl bad ↦ rw bad (record { now = refl; at = λ id found. inl found })
      | inr good ↦ rw good (record { now = refl; at = λ id found. updated_at w only id found })
    ];
  }

  each-Timed :
      (f : String → M Bool) (ids : List String)
      → ((id : String) → Moves (Timed test change) (f id))
      → Moves (Timed test change) (each false f ids)
  unfolding each
  each-Timed f [] k = Moves-pure Timed-course tt
  each-Timed f (id ∷ ids) k =
      Moves-bind Timed-course _ _ (Moves-recover Timed-course false (f id) (k id))
        (λ _. each-Timed f ids k)

  sweep-Timed :
      (p : ℕ → Job → Bool) (f : String → M Bool)
      → ((id : String) → Moves (Timed test change) (f id))
      → Moves (Timed test change) (sweep p f)
  unfolding sweep clock
  sweep-Timed p f k = Moves-recover Timed-course tt _ (
      Moves-bind Timed-course _ _ (Moves-gets Timed-course _)
        λ now. Moves-bind Timed-course _ _ (Moves-query Timed-course _) λ ids. each-Timed f ids k)

abbrev pub declined_late : ℕ → Job → Job
declined_late now j = record j { status = declined; declined_at = some now; updated_at = now }

abbrev pub reverted : ℕ → Job → Job
reverted now j = record j { status = scheduled; updated_at = now }

abbrev pub delivered_late : ℕ → Job → Job
delivered_late now j = record j {
  status = delivered;
  delivered_at = some now;
  completed_at = some now;
  updated_at = now;
}

-- Whichever statements fail, a pass leaves each job as it is, or its time has come and the pass
-- changes it: a confirmation whose deadline has passed is declined, a job that was handed out more
-- than two minutes ago and not started is scheduled again, and a print that was picked up more
-- than seven days ago is delivered.
pub passes-Timed :
    Moves (Timed confirmation_expired declined_late) expire_confirmations
    × Moves (Timed dispatch_expired reverted) expire_all_dispatched
    × Moves (Timed pickup_expired delivered_late) expire_all_picked_up
unfolding expire_confirmations expire_all_dispatched expire_all_picked_up expire_confirmation
    expire_dispatched expire_picked_up confirmation_expired dispatch_expired pickup_expired
    status_discrete
passes-Timed = (
  sweep-Timed confirmation_expired declined_late (λ n j. refl) (λ n j. refl) _ _
      (expiry-Timed confirmation_expired declined_late (λ n j. refl) (λ n j. refl)),
  sweep-Timed dispatch_expired reverted (λ n j. refl) (λ n j. refl) _ _
      (expiry-Timed dispatch_expired reverted (λ n j. refl) (λ n j. refl)),
  sweep-Timed pickup_expired delivered_late (λ n j. refl) (λ n j. refl) _ _
      (expiry-Timed pickup_expired delivered_late (λ n j. refl) (λ n j. refl)),
)
