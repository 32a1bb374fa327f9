-- ===== src/Operator/Conformance/Scratch.antt =====
-- runSuiteCScratch of internal/operator/conformance.go: five mock keys in memory, driven to their
-- thresholds.
use so_ho_link.Base.{
  ℕ, zero, suc, ◌+◌, ◌≡◌, refl, Bool, true, false, not, List, [], ◌∷◌, nat_same, ltb, leb,
  if◌then◌else◌, get_or, set,
}
use so_ho_link.Operator.Tables.{Detail, no_detail, wrong_swap, wrong_expiry, off_floor}

abbrev pub suite_c_thresholds : List ℕ
suite_c_thresholds = 3 ∷ 6 ∷ 9 ∷ 12 ∷ 365 ∷ []

abbrev pub suite_c_floor : ℕ
suite_c_floor = 2

pub record MockKey : Type 0 where
  pub threshold : ℕ
  pub usage : ℕ
  pub active : Bool

abbrev pub no_key : MockKey
no_key = record { threshold = 0; usage = 0; active = false }

unfoldable pub mock_keys : List ℕ → List MockKey
mock_keys [] = []
mock_keys (th ∷ ths) = record { threshold = th; usage = 0; active = true } ∷ mock_keys ths

unfoldable pub active_mock_keys : List MockKey → ℕ
active_mock_keys [] = 0
active_mock_keys (k ∷ ks) = let rest = active_mock_keys ks in if k.active then suc rest else rest

-- A key that has reached its threshold asks for a swap, and expires above the floor.
abbrev pub cross : ℕ → MockKey → List MockKey → List MockKey × Bool
cross index k keys =
    if ltb suite_c_floor (active_mock_keys keys)
    then (set keys index (record k { active = false }), true)
    else (keys, true)

abbrev pub use_active : ℕ → MockKey → List MockKey × Bool → List MockKey × Bool
use_active index k state =
    let used = record k { usage = k.usage + 1 } in
    let keys = set state.0 index used in
    if leb used.threshold used.usage then cross index used keys else (keys, state.1)

-- One round of the loop over the two indices.
unfoldable pub use_mock_key : ℕ → List MockKey × Bool → List MockKey × Bool
unfolding active_mock_keys
use_mock_key index state =
    let k = get_or state.0 index no_key in if k.active then use_active index k state else state

unfoldable pub record_use : ℕ → ℕ → List MockKey → List MockKey × Bool
unfolding use_mock_key
record_use i₀ i₁ keys = use_mock_key i₁ (use_mock_key i₀ (keys, false))

-- The exercise goes on with its keys, or has found a fault.
pub data Exercise : Type 0 where
  going : List MockKey → Exercise
  stopped : Detail → Exercise

abbrev pub and_then : Exercise → (List MockKey → Exercise) → Exercise
and_then (going keys) f = f keys
and_then (stopped d) f = stopped d

abbrev pub bool_same : Bool → Bool → Bool
bool_same true b = b
bool_same false b = not b

-- The loop over the uses of a key: a swap is asked for at the threshold, and not before.
unfoldable pub drive_uses : ℕ → ℕ → ℕ → ℕ → List MockKey → Exercise
unfolding record_use
drive_uses zero use_number index threshold keys = going keys
drive_uses (suc left) use_number index threshold keys =
    let next = record_use index 4 keys in
    let rest = drive_uses left (use_number + 1) index threshold next.0 in
    if bool_same next.1 (nat_same use_number threshold)
    then rest
    else stopped (wrong_swap index use_number)

unfoldable pub drive_key : ℕ → List MockKey → Exercise
unfolding drive_uses
drive_key index keys =
    let threshold = (get_or keys index no_key).threshold in
    drive_uses threshold 1 index threshold keys

abbrev pub expect_active : Bool → ℕ → List MockKey → Exercise
expect_active wanted index keys =
    if bool_same (get_or keys index no_key).active wanted
    then going keys
    else stopped (wrong_expiry index)

abbrev pub expect_floor : List MockKey → Exercise
expect_floor keys =
    if nat_same (active_mock_keys keys) suite_c_floor
    then going keys
    else stopped (off_floor (active_mock_keys keys))

abbrev pub verdict : Exercise → Bool × Detail
verdict (going keys) = (true, no_detail)
verdict (stopped d) = (false, d)

abbrev pub drive_and_expect : Bool → ℕ → List MockKey → Exercise
drive_and_expect wanted index keys = and_then (drive_key index keys) (expect_active wanted index)

unfoldable pub run_suite_c_scratch : Bool × Detail
unfolding drive_key mock_keys active_mock_keys
run_suite_c_scratch = verdict (
    and_then
      (and_then
        (and_then
          (and_then
            (and_then (drive_and_expect false 0 (mock_keys suite_c_thresholds))
              (drive_and_expect false 1))
            (drive_and_expect false 2))
          expect_floor)
        (drive_and_expect true 3))
      expect_floor)

pub scratch_passes : run_suite_c_scratch ≡ (true, no_detail)
unfolding run_suite_c_scratch
scratch_passes = refl
