-- ===== src/Jobs/Dispatch/Poll.antt =====
-- What a poll hands out (PollScheduledJobs).
use so_ho_link.Base.{
  ◌≡◌, refl, sym, subst, String, true, not, some, List, [], ◌∷◌, ◌==◌, text_equality, eq_of_same,
  inl, inr, Bool-cases, Option-cases, false≢true, ℕ, All, In,
}
use so_ho_link.Store.{Job, Db, World, NodeRow, status_equality, scheduled}
use so_ho_link.Store.Sql.{
  Error, Result, ok, err, M, ◌>>=◌, query, attempt, pure, faulty, next_fault, after_result,
}
use so_ho_link.Jobs.Submit.{is_print, find_node}
use so_ho_link.Jobs.Reroute.{is_on}
use so_ho_link.Jobs.Dispatch.{
  DispatchedJob, not_self_print, is_due, dispatched_job, due_jobs, claim, claim_if_any,
  poll_scheduled_jobs,
}
use so_ho_link.Jobs.Lifecycle.Known.{and_left, and_right}

-- The print's consumer and the node's owner are known, and are not the same participant.
abbrev pub OthersPrint : String → Db → Job → Type 0
OthersPrint node db j =
    (p : String) × (n : NodeRow) × (j.participant_id ≡ some p)
    × (find_node node db.nodes ≡ some n)
    × ¬ (p ≡ n.participant_id)

-- A job of the table that is scheduled for the node and is not its owner's own print.
abbrev pub Due : String → Db → DispatchedJob → Type 0
Due node db d =
    (j : Job) × In j db.jobs
    × (d ≡ dispatched_job j)
    × (j.status ≡ scheduled)
    × (is_on node j ≡ true)
    × (is_print j.workload_type ≡ true → OthersPrint node db j)

differ : (p q : String) → not (p == q) ≡ true → ¬ (p ≡ q)
differ p q h e = false≢true (rw ((text_equality.same_iff p q).1 e) at h)

not_self_print-OthersPrint :
    (node : String) (db : Db) (j : Job)
    → not_self_print node db j ≡ true
    → is_print j.workload_type ≡ true
    → OthersPrint node db j
unfolding not_self_print
not_self_print-OthersPrint node db j h print = elim (Option-cases j.participant_id) [
  | inl unknown ↦ absurd (false≢true (rw (print, unknown) at h))
  | inr (p, known) ↦ elim (Option-cases (find_node node db.nodes)) [
    | inl missing ↦ absurd (false≢true (rw (print, known, missing) at h))
    | inr (n, there) ↦
        (p, n, known, there, differ p n.participant_id (rw (print, known, there) at h))
  ]
]

is_due-Due :
    (node : String) (db : Db) (j : Job)
    → In j db.jobs
    → is_due node db j ≡ true
    → Due node db (dispatched_job j)
unfolding is_due
is_due-Due node db j here due = (
  j,
  here,
  refl,
  eq_of_same (and_right (is_on node j) (j.status == scheduled) (and_left _ _ due)),
  and_left (is_on node j) (j.status == scheduled) (and_left _ _ due),
  not_self_print-OthersPrint node db j (and_right _ _ due),
)

due_jobs-Due :
    (node : String) (db : Db) (js : List Job)
    → ((j : Job) → In j js → In j db.jobs)
    → All (Due node db) (due_jobs node db js)
unfolding due_jobs
due_jobs-Due node db [] sub = tt
due_jobs-Due node db (j ∷ js) sub = elim (Bool-cases (is_due node db j)) [
  | inl due ↦
      rw due (
        is_due-Due node db j (sub j (inl refl)) due,
        due_jobs-Due node db js (λ k i. sub k (inr i)),
      )
  | inr other ↦ rw other (due_jobs-Due node db js (λ k i. sub k (inr i)))
]

err_ok : {e : Error} {ds : List DispatchedJob} → err e ≡ ok ds → ⊥
err_ok h = cc

ok_same : {ds es : List DispatchedJob} → ok ds ≡ ok es → ds ≡ es
ok_same h = cc

answered_at :
    (r : Result ℕ) (v : World) (due : List DispatchedJob) {ds : List DispatchedJob}
    → (after_result (λ _. pure due) r v).0 ≡ ok ds
    → ds ≡ due
unfolding pure
answered_at (ok n) v due h = ok_same (sym h)
answered_at (err e) v due h = absurd (err_ok h)

answered :
    (m : M ℕ) (due : List DispatchedJob) (w : World) {ds : List DispatchedJob}
    → ((m >>= λ _. pure due) w).0 ≡ ok ds
    → ds ≡ due
unfolding ◌>>=◌
answered m due w h = answered_at (m w).0 (m w).1 due h

claim_if_any-answer :
    (node : String) (due : List DispatchedJob) (w : World) {ds : List DispatchedJob}
    → (claim_if_any node due w).0 ≡ ok ds
    → ds ≡ due
unfolding claim_if_any pure
claim_if_any-answer node [] w h = ok_same (sym h)
claim_if_any-answer node (d ∷ due) w h = answered (claim node (d ∷ due)) (d ∷ due) w h

-- Whatever a poll hands out to a node is a job of the table that was scheduled for that node; if
-- it is a print, its consumer and the node's owner are known and different.
pub poll_scheduled_jobs-Due :
    (node : String) (w : World) (ds : List DispatchedJob)
    → (poll_scheduled_jobs node w).0 ≡ ok ds
    → All (Due node w.db) ds
unfolding poll_scheduled_jobs ◌>>=◌ query attempt
poll_scheduled_jobs-Due node w ds h = elim (Bool-cases (faulty w.faults)) [
  | inl bad ↦ absurd (err_ok (rw bad at h))
  | inr good ↦
      subst (All (Due node w.db))
        (sym
          (claim_if_any-answer node (due_jobs node w.db w.db.jobs) (next_fault w) (rw good at h)))
        (due_jobs-Due node w.db w.db.jobs (λ j i. i))
]
