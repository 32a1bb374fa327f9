-- ===== src/Jobs/Lifecycle.antt =====
-- The life of a job as a diagram of statuses, and what every operation may do to a row: the
-- contract that the operations of the other modules of Jobs keep. The code writes no diagram down;
-- this one has an edge for each guarded UPDATE of a status.
pub mod Rules
pub mod Known
pub mod Loop
pub mod Rebind
pub mod Nodes
pub mod Prints
pub mod Placing
pub mod Runs
pub mod Diagram
pub mod Outcomes
use so_ho_link.Base.{◌≡◌, String, Bool, true, false, not, ◌&&◌, Option, none, some}
use so_ho_link.Store.{
  Job, Db, World, Status, pending, scheduled, running, completed, failed, awaiting_confirmation,
  declined, dispatched, awaiting_pickup, picked_up, delivered,
}
use so_ho_link.Store.Sql.{find_job}
use so_ho_link.Jobs.Submit.{is_print}

-- Whether prints wait for their node's owner, and whether an owner may confirm one now.
pub record Mode : Type 0 where
  pub asks_owner : Bool
  pub consent : Bool

-- A move of a job that is a print, or is not, from one status to the next.
pub data Edge : Mode → Bool → Status → Status → Type 0 where
  schedules : {m : Mode} {p : Bool} → (p && m.asks_owner) ≡ false → Edge m p pending scheduled
  asks : {m : Mode} {p : Bool} → p ≡ true → Edge m p pending awaiting_confirmation
  confirms : {m : Mode} {p : Bool} → m.consent ≡ true → Edge m p awaiting_confirmation scheduled
  refuses : {m : Mode} {p : Bool} → Edge m p awaiting_confirmation declined
  claims : {m : Mode} {p : Bool} → Edge m p scheduled dispatched
  turns_down : {m : Mode} {p : Bool} → Edge m p scheduled declined
  hands_back : {m : Mode} {p : Bool} → Edge m p dispatched declined
  reverts : {m : Mode} {p : Bool} → Edge m p dispatched scheduled
  starts : {m : Mode} {p : Bool} → Edge m p dispatched running
  fails : {m : Mode} {p : Bool} → Edge m p running failed
  prints : {m : Mode} {p : Bool} → p ≡ true → Edge m p running awaiting_pickup
  completes : {m : Mode} {p : Bool} → p ≡ false → Edge m p running completed
  picks_up : {m : Mode} {p : Bool} → Edge m p awaiting_pickup picked_up
  abandons : {m : Mode} {p : Bool} → Edge m p awaiting_pickup failed
  delivers : {m : Mode} {p : Bool} → Edge m p picked_up delivered
  gives_up : {m : Mode} {p : Bool} → Edge m p declined failed
  asks_again : {m : Mode} {p : Bool} → p ≡ true → Edge m p declined awaiting_confirmation
  schedules_again : {m : Mode} {p : Bool} → p ≡ false → Edge m p declined scheduled

pub data Way : Mode → Bool → Status → Status → Type 0 where
  here : {m : Mode} {p : Bool} {s : Status} → Way m p s s
  then : {m : Mode} {p : Bool} {s t u : Status} → Edge m p s t → Way m p t u → Way m p s u

-- What may become of a row: its identity stays, and its status follows the diagram.
pub record Life (m : Mode) (j k : Job) : Type 0 where
  pub id : k.id ≡ j.id
  pub workload : k.workload_type ≡ j.workload_type
  pub participant : k.participant_id ≡ j.participant_id
  pub way : Way m (is_print j.workload_type) j.status k.status

-- What stands under an id before and after: no row is lost, and a new one comes out of `pending`.
abbrev pub Kin : Mode → Option Job → Option Job → Type 0
Kin m none none = Unit
Kin m none (some k) = Way m (is_print k.workload_type) pending k.status
Kin m (some j) none = ⊥
Kin m (some j) (some k) = Life m j k

pub record Evolves (m : Mode) (v w : World) : Type 0 where
  pub at : (id : String) → Kin m (find_job id v.db.jobs) (find_job id w.db.jobs)
