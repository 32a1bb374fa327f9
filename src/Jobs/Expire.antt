-- ===== src/Jobs/Expire.antt =====
-- The passes of the orchestrator's loop that time jobs out (internal/orchestrator/orchestrator.go).
pub mod Timed
use so_ho_link.Base.{
  ℕ, ◌+◌, ◌*◌, String, Bool, false, ◌&&◌, Option, none, some, List, [], ◌∷◌, ◌==◌, text_equality,
  number_equality, ltb, take, if◌then◌else◌,
}
use so_ho_link.Store.{
  Job, status_equality, awaiting_confirmation, declined, dispatched, scheduled, picked_up,
  delivered,
}
use so_ho_link.Store.Sql.{M, pure, ◌>>=◌, ◌>>◌, query, recover, update_jobs}
use so_ho_link.Jobs.Submit.{clock}

abbrev pub minute : ℕ
minute = 60 * 1_000_000_000

abbrev pub day : ℕ
day = 24 * 60 * minute

-- `t < NOW()` on a nullable column, within WHERE: false where `t` is NULL.
abbrev pub before : Option ℕ → ℕ → Bool
before none now = false
before (some t) now = ltb t now

abbrev pub ids_where : (Job → Bool) → List Job → List String
ids_where test [] = []
ids_where test (j ∷ js) = let rest = ids_where test js in if test j then j.id ∷ rest else rest

-- The loop over the rows that a pass has read: an error is logged, and the next row is tried.
unfoldable pub each : {A : Type 0} → A → (String → M A) → List String → M (Unit {0})
each d f [] = pure tt
each d f (id ∷ ids) = do recover d (f id); each d f ids

-- A pass: at most a hundred rows that pass the test, each by its own statement.
unfoldable pub sweep : (ℕ → Job → Bool) → (String → M Bool) → M (Unit {0})
sweep test f =
    recover tt (do
      now ← clock
      ids ← query (λ db. take 100 (ids_where (test now) db.jobs))
      each false f ids)

unfoldable pub confirmation_expired : ℕ → Job → Bool
confirmation_expired now j = j.status == awaiting_confirmation && before j.confirmation_deadline now

unfoldable pub expire_confirmation : String → M Bool
expire_confirmation id = do
  now ← clock
  rows ←
      update_jobs (λ j. j.id == id && confirmation_expired now j)
        (λ j. record j { status = declined; declined_at = some now; updated_at = now })
  pure (rows == 1)

unfoldable pub expire_confirmations : M (Unit {0})
expire_confirmations = sweep confirmation_expired expire_confirmation

unfoldable pub dispatch_expired : ℕ → Job → Bool
dispatch_expired now j = j.status == dispatched && ltb (j.updated_at + 2 * minute) now

unfoldable pub expire_dispatched : String → M Bool
expire_dispatched id = do
  now ← clock
  rows ←
      update_jobs (λ j. j.id == id && dispatch_expired now j)
        (λ j. record j { status = scheduled; updated_at = now })
  pure (rows == 1)

unfoldable pub expire_all_dispatched : M (Unit {0})
expire_all_dispatched = sweep dispatch_expired expire_dispatched

abbrev pub later_by : ℕ → Option ℕ → Option ℕ
later_by d none = none
later_by d (some t) = some (t + d)

unfoldable pub pickup_expired : ℕ → Job → Bool
pickup_expired now j = j.status == picked_up && before (later_by (7 * day) j.picked_up_at) now

unfoldable pub expire_picked_up : String → M Bool
expire_picked_up id = do
  now ← clock
  rows ←
      update_jobs (λ j. j.id == id && pickup_expired now j)
        (λ j. record j {
          status = delivered;
          delivered_at = some now;
          completed_at = some now;
          updated_at = now;
        })
  pure (rows == 1)

unfoldable pub expire_all_picked_up : M (Unit {0})
expire_all_picked_up = sweep pickup_expired expire_picked_up
