-- ===== src/Jobs/Lifecycle/Diagram.antt =====
-- What the diagram says of a job in the end.
use so_ho_link.Base.{◌≡◌, refl, Bool, true, false, ◌&&◌, arith}
use so_ho_link.Store.{
  Status, pending, completed, failed, disputed, awaiting_confirmation, declined, awaiting_pickup,
  picked_up, delivered,
}
use so_ho_link.Jobs.Lifecycle.{Mode, Edge, Way}

abbrev pub is_final : Status → Bool
is_final completed = true
is_final delivered = true
is_final failed = true
is_final _ = false

-- A print that its node's owner has not confirmed: it waits, was refused, or is given up.
abbrev pub is_unconfirmed : Status → Bool
is_unconfirmed pending = true
is_unconfirmed awaiting_confirmation = true
is_unconfirmed declined = true
is_unconfirmed failed = true
is_unconfirmed _ = false

-- The statuses that are only for prints, and the one that is only for the other jobs.
abbrev pub fits : Bool → Status → Bool
fits false awaiting_confirmation = false
fits false awaiting_pickup = false
fits false picked_up = false
fits false delivered = false
fits true completed = false
fits _ disputed = false
fits _ _ = true

Edge-final : {m : Mode} {p : Bool} {s t : Status} → Edge m p s t → is_final s ≡ true → ⊥
Edge-final (Edge.schedules a) h = cc
Edge-final _ h = cc

pub Way-final : {m : Mode} {p : Bool} {s t : Status} → Way m p s t → is_final s ≡ true → t ≡ s
Way-final Way.here h = refl
Way-final (Way.then e w) h = absurd (Edge-final e h)

asks_prints : (p q : Bool) → (p && q) ≡ false → q ≡ true → p ≡ true → ⊥
asks_prints true q h a b = cc
asks_prints false q h a b = cc

Edge-unconfirmed :
    {m : Mode} {p : Bool} {s t : Status}
    → Edge m p s t
    → m.asks_owner ≡ true
    → m.consent ≡ false
    → p ≡ true
    → is_unconfirmed s ≡ true
    → is_unconfirmed t ≡ true
Edge-unconfirmed (Edge.schedules free) a c print h = absurd (asks_prints _ _ free a print)
Edge-unconfirmed (Edge.confirms consent) a c print h = cc
Edge-unconfirmed (Edge.schedules_again direct) a c print h = cc
Edge-unconfirmed _ a c print h = ground arith

Edge-fits : {m : Mode} {p : Bool} {s t : Status} → Edge m p s t → fits p s ≡ true → fits p t ≡ true
Edge-fits {p = p} (Edge.asks print) h = rw print refl
Edge-fits {p = p} (Edge.prints print) h = rw print refl
Edge-fits {p = p} (Edge.completes direct) h = rw direct refl
Edge-fits {p = p} (Edge.asks_again print) h = rw print refl
Edge-fits {p = p} (Edge.schedules_again direct) h = rw direct refl
Edge-fits {p = true} _ h = ground arith
Edge-fits {p = false} _ h = ground arith

pub Way-unconfirmed :
    {m : Mode} {p : Bool} {s t : Status}
    → Way m p s t
    → m.asks_owner ≡ true
    → m.consent ≡ false
    → p ≡ true
    → is_unconfirmed s ≡ true
    → is_unconfirmed t ≡ true
Way-unconfirmed Way.here a c print h = h
Way-unconfirmed (Way.then e w) a c print h =
    Way-unconfirmed w a c print (Edge-unconfirmed e a c print h)

pub Way-fits :
    {m : Mode} {p : Bool} {s t : Status} → Way m p s t → fits p s ≡ true → fits p t ≡ true
Way-fits Way.here h = h
Way-fits (Way.then e w) h = Way-fits w (Edge-fits e h)

pub pending-fits : (p : Bool) → fits p pending ≡ true
pending-fits true = refl
pending-fits false = refl
