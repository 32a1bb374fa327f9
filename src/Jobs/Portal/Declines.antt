-- ===== src/Jobs/Portal/Declines.antt =====
-- The owner's refusal of a print is recorded with the change of its status, or neither is done.
use so_ho_link.Base.{
  ◌≡◌, refl, ◌∙◌, ap, subst, String, Bool, true, some, List, [], ◌∷◌, ◌==◌, text_equality,
  same_refl, inl, inr, Bool-cases, if◌then◌else◌,
}
use so_ho_link.Store.{Job, World, status_equality, awaiting_confirmation, declined}
use so_ho_link.Store.Sql.{
  Error, Result, ok, err, pure, fail, gets, require, attempt, rescue, transaction, ◌>>=◌, faulty,
  later, update_returning, update_where, first_where, insert_decline, has_decline, find_job,
}
use so_ho_link.Store.Effects.{
  Moves, moves, SameRegistry, registry_course, Moves-returning, Moves-insert_decline,
}
use so_ho_link.Store.Atomic.{Atomic, Atomic-transaction}
use so_ho_link.Store.Rows.{some_same, find_job-update_where}
use so_ho_link.Jobs.Submit.{clock}
use so_ho_link.Jobs.Portal.{is_at, decline_rows, decline_answer, decline_print}
use so_ho_link.Jobs.Lifecycle.Known.{find_job-id}

update_returning-SameRegistry :
    (test : Job → Bool) (change : Job → Job) → Moves SameRegistry (update_returning test change)
update_returning-SameRegistry test change =
    Moves-returning registry_course test change (λ w. record { registry = refl })

insert_decline-SameRegistry : (job node : String) → Moves SameRegistry (insert_decline job node)
insert_decline-SameRegistry job node =
    Moves-insert_decline registry_course job node (λ w. record { registry = refl })

decline_rows-SameRegistry : (id : String) → Moves SameRegistry (decline_rows id)
unfolding decline_rows clock
decline_rows-SameRegistry id =
    search (registry_course, moves, update_returning-SameRegistry, insert_decline-SameRegistry)
      depth 12

failed_first :
    (r : Result (Unit {0})) {e : Error} → decline_answer r ≡ err e → (d : Error) × (r ≡ err d)
failed_first (ok u) h = cc
failed_first (err d) h = (d, refl)

-- A refusal that fails, whichever statement it is that fails, changes no table.
pub decline_print-Atomic : (id : String) → Atomic (decline_print id)
unfolding decline_print rescue
decline_print-Atomic id = record {
  at = λ w h.
      let (d, e) = failed_first (transaction (decline_rows id) w).0 h in
      (Atomic-transaction (decline_rows id) (decline_rows-SameRegistry id)).at w e;
}

err_ok : {e : Error} → ◌≡◌ {A = Result (Unit {0})} (err e) (ok tt) → ⊥
err_ok h = cc

first_where-found :
    (id : String) (js : List Job) {j : Job}
    → find_job id js ≡ some j
    → (j.status == awaiting_confirmation) ≡ true
    → first_where (is_at id awaiting_confirmation) js ≡ some j
first_where-found id [] h s = cc
first_where-found id (k ∷ js) {j} h s = elim (Bool-cases (k.id == id)) [
  | inl hit ↦
      let same : some k ≡ some j = rw hit at h in
      rw (hit, ap (λ r. r.status == awaiting_confirmation) (some_same same) ∙ s) same
  | inr other ↦ rw other (first_where-found id js (rw other at h) s)
]

hit : (id : String) (js : List Job) {j : Job} → find_job id js ≡ some j → (j.id == id) ≡ true
hit id js {j} found = subst (λ x. (j.id == x) ≡ true) (find_job-id id js found) (same_refl j.id)

waiting-is_at :
    (id : String) (js : List Job) {j : Job}
    → find_job id js ≡ some j
    → (j.status == awaiting_confirmation) ≡ true
    → is_at id awaiting_confirmation j ≡ true
waiting-is_at id js found waits = rw (hit id js found, waits) refl

declined_row :
    (id : String) (w : World) {j : Job}
    → find_job id w.db.jobs ≡ some j
    → (j.status == awaiting_confirmation) ≡ true
    → find_job id (
        update_where
          (is_at id awaiting_confirmation)
          (λ k. record k { status = declined; declined_at = some w.now })
          w.db.jobs)
      ≡ some (record j { status = declined; declined_at = some w.now })
declined_row id w {j} found waits =
    find_job-update_where (is_at id awaiting_confirmation)
      (λ k. record k { status = declined; declined_at = some w.now }) id w.db.jobs (λ k. refl) found
    ∙ ap (λ b. some (if b then record j { status = declined; declined_at = some w.now } else j))
        (waiting-is_at id w.db.jobs found waits)

-- A refusal that returns has both declined the print and recorded the node, so that rerouting
-- leaves it out, if the print was awaiting confirmation on that node.
pub decline_print-Records :
    (id node : String) (w : World) {j : Job}
    → find_job id w.db.jobs ≡ some j
    → (j.status == awaiting_confirmation) ≡ true
    → j.node_id ≡ some node
    → (decline_print id w).0 ≡ ok tt
    → ((k : Job) × (find_job id (decline_print id w).1.db.jobs ≡ some k) × (k.status ≡ declined))
      × (has_decline id node (decline_print id w).1.db.declines ≡ true)
unfolding decline_print decline_rows rescue transaction clock gets pure fail require attempt ◌>>=◌
    update_returning insert_decline
decline_print-Records id node w {j} found waits on h = elim (Bool-cases (faulty w.faults)) [
  | inl bad ↦ absurd (err_ok (rw bad at h))
  | inr good ↦ elim (Bool-cases (faulty (later w.faults))) [
    | inl bad ↦ absurd (err_ok (rw (good, bad) at h))
    | inr good2 ↦
        let fw : first_where (is_at id awaiting_confirmation) w.db.jobs ≡ some j =
          first_where-found id w.db.jobs found waits in
        elim (Bool-cases (faulty (later (later w.faults)))) [
          | inl bad ↦ absurd (err_ok (rw (good, good2, fw, on, bad) at h))
          | inr good3 ↦ elim (Bool-cases (has_decline id node w.db.declines)) [
            | inl there ↦ absurd (err_ok (rw (good, good2, fw, on, good3, there) at h))
            | inr absent ↦ elim (Bool-cases (faulty (later (later (later w.faults))))) [
              | inl bad ↦ absurd (err_ok (rw (good, good2, fw, on, good3, absent, bad) at h))
              | inr good4 ↦
                  rw (good, good2, fw, on, good3, absent, good4)
                    (
                      (
                        record j { status = declined; declined_at = some w.now },
                        declined_row id w found waits,
                        refl,
                      ),
                      rw (same_refl id, same_refl node) refl,
                    )
            ]
          ]
        ]
  ]
]
