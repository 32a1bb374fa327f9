-- ===== src/Jobs/Portal.antt =====
-- The print flow's handlers of internal/portal/server.go: the node's owner confirms or declines a
-- print, the consumer picks it up and takes delivery, the owner reports a no-show. A redirect is
-- a success here; `user` is the session's user id.
pub mod Declines
use so_ho_link.Base.{
  ℕ, ◌+◌, ◌*◌, String, Bool, true, false, not, ◌&&◌, Option, none, some, ◌==◌, text_equality,
  number_equality, if◌then◌else◌, ltb,
}
use so_ho_link.Store.{
  Job, Db, Status, status_equality, awaiting_confirmation, declined, scheduled, awaiting_pickup,
  picked_up, delivered, failed,
}
use so_ho_link.Store.Sql.{
  M, Result, ok, err, pure, fail, ◌>>=◌, ◌>>◌, require, guard, query, or_else, rescue, update_jobs,
  update_returning, insert_decline, transaction, find_job, no_rows, http,
}
use so_ho_link.Jobs.Submit.{find_node, clock}
use so_ho_link.Jobs.Expire.{day, before, later_by}

-- The job, if it stands on a node of the user's.
unfoldable pub provider_job : String → String → Db → Option Job
provider_job user id db = elim (find_job id db.jobs) [
  | none ↦ none
  | some j ↦ elim j.node_id [
    | none ↦ none
    | some node ↦ elim (find_node node db.nodes) [
      | none ↦ none
      | some n ↦ if n.participant_id == user then some j else none
    ]
  ]
]

abbrev pub is_owner : String → Option String → Bool
is_owner user none = false
is_owner user (some p) = p == user

-- The job, if it is the user's.
unfoldable pub consumer_job : String → String → Db → Option Job
consumer_job user id db = elim (find_job id db.jobs) [
  | none ↦ none
  | some j ↦ if is_owner user j.participant_id then some j else none
]

unfoldable pub found_or_404 : (Db → Option Job) → M Job
found_or_404 f = or_else (do found ← query f; require found no_rows) (http 404)

abbrev pub is_at : String → Status → Job → Bool
is_at id status j = j.id == id && j.status == status

-- No row means a lost race, which redirects as a success does.
unfoldable pub confirm_print : String → M (Unit {0})
confirm_print id = do
  now ← clock
  _ ←
      or_else
        (update_jobs (is_at id awaiting_confirmation)
          (λ j. record j { status = scheduled; confirmed_at = some now }))
        (http 500)
  pure tt

unfoldable pub decline_rows : String → M (Unit {0})
decline_rows id = do
  now ← clock
  row ←
      update_returning (is_at id awaiting_confirmation)
        (λ j. record j { status = declined; declined_at = some now })
  j ← require row no_rows
  node ← require j.node_id (http 500)
  insert_decline id node

abbrev pub decline_answer : Result (Unit {0}) → Result (Unit {0})
decline_answer (ok _) = ok tt
decline_answer (err no_rows) = ok tt
decline_answer (err _) = err (http 500)

unfoldable pub decline_print : String → M (Unit {0})
decline_print id = rescue decline_answer (transaction (decline_rows id))

unfoldable pub confirm_or_decline : String → String → M (Unit {0})
confirm_or_decline id action =
    if action == "confirm"
    then confirm_print id
    else if action == "decline"
    then decline_print id
    else fail (http 400)

unfoldable pub handle_job_confirm_action : String → String → String → M (Unit {0})
handle_job_confirm_action user id action = do
  j ← found_or_404 (provider_job user id)
  if j.status == awaiting_confirmation then confirm_or_decline id action else pure tt

-- The guarded UPDATE of a hand-over, whose lost race is a conflict.
unfoldable pub advance : (Job → Bool) → (Job → Job) → M (Unit {0})
advance test change = do
  rows ← or_else (update_jobs test change) (http 500)
  guard (not (rows == 0)) (http 409)

unfoldable pub handle_consumer_picked_up : String → String → M (Unit {0})
handle_consumer_picked_up user id = do
  j ← found_or_404 (consumer_job user id)
  guard (j.status == awaiting_pickup) (http 409)
  now ← clock
  advance (is_at id awaiting_pickup)
      (λ r. record r { status = picked_up; picked_up_at = some now; updated_at = now })

unfoldable pub handle_consumer_delivered : String → String → M (Unit {0})
handle_consumer_delivered user id = do
  j ← found_or_404 (consumer_job user id)
  guard (j.status == picked_up) (http 409)
  now ← clock
  advance (is_at id picked_up) (λ r. record r {
    status = delivered;
    delivered_at = some now;
    completed_at = some now;
    updated_at = now;
  })

-- time.Since(*awaitingPickupAt) < 7*24*time.Hour, true as well where the column is NULL.
abbrev pub too_soon : Option ℕ → ℕ → Bool
too_soon none now = true
too_soon (some t) now = ltb now (t + 7 * day)

unfoldable pub handle_provider_no_show : String → String → M (Unit {0})
handle_provider_no_show user id = do
  j ← found_or_404 (provider_job user id)
  guard (j.status == awaiting_pickup) (http 409)
  now ← clock
  guard (not (too_soon j.awaiting_pickup_at now)) (http 409)
  advance (λ r. is_at id awaiting_pickup r && before (later_by (7 * day) r.awaiting_pickup_at) now)
      (λ r. record r {
        status = failed;
        failure_cause = some "no_show_after_7d";
        completed_at = some now;
        updated_at = now;
      })
