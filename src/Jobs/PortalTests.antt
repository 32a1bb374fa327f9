-- ===== src/Jobs/PortalTests.antt =====
-- The theorems on refusals at the small deployment.
use so_ho_link.Base.{◌≡◌, refl, true, some, text_equality, ◌==◌}
use so_ho_link.Store.{Job, status_discrete, status_equality, declined, awaiting_confirmation}
use so_ho_link.Store.Sql.{
  ok, pure, fail, gets, require, attempt, rescue, transaction, ◌>>=◌, update_returning,
  insert_decline, find_job, has_decline,
}
use so_ho_link.Store.Atomic.{Atomic}
use so_ho_link.Jobs.Submit.{clock}
use so_ho_link.Jobs.Portal.{decline_rows, decline_print}
use so_ho_link.Jobs.Portal.Declines.{decline_print-Atomic, decline_print-Records}
use so_ho_link.Jobs.Tests.{world, old_print}

decline_print-Atomic_example : Atomic (decline_print "j1")
decline_print-Atomic_example = decline_print-Atomic "j1"

returned : (decline_print "j1" world).0 ≡ ok tt
unfolding decline_print decline_rows clock pure fail gets require attempt rescue transaction ◌>>=◌
    update_returning insert_decline status_discrete
returned = refl

waits : (old_print.status == awaiting_confirmation) ≡ true
unfolding status_discrete
waits = refl

decline_print-Records_example :
    ((k : Job) × (find_job "j1" (decline_print "j1" world).1.db.jobs ≡ some k)
      × (k.status ≡ declined))
    × (has_decline "j1" "n1" (decline_print "j1" world).1.db.declines ≡ true)
decline_print-Records_example =
    decline_print-Records "j1" "n1" world {j = old_print} refl waits refl returned
