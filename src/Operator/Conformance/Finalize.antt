-- ===== src/Operator/Conformance/Finalize.antt =====
-- FinalizeRun of internal/operator/conformance.go: a run whose three suites have passed is bound to
-- the active keyset.
use so_ho_link.Base.{
  ℕ, String, Bool, true, false, ◌&&◌, Option, none, some, List, [], ◌∷◌, ◌==◌, text_equality,
  number_equality, if◌then◌else◌, select,
}
use so_ho_link.Store.Sql.{
  keyset_count_mismatch, not_ready, ok, M, pure, fail, gets, ◌>>=◌, ◌>>◌, guard, transaction,
  update_where,
}
use so_ho_link.Operator.{key_index_count}
use so_ho_link.Operator.Tables.{
  OperatorTables, RunRow, RunStatus, ChallengeRow, ChallengeResult, Suite, suite_a, suite_b,
  suite_c,
}
use so_ho_link.Operator.Sql.{statement, select_from, update_operator}
use so_ho_link.Operator.Activation.{active_keyset_hash}
use so_ho_link.Operator.Conformance.{is_run, require_run}

-- suitesPassed, and whether a challenge waits for its answer.
pub record Tally : Type 0 where
  pub a : Bool
  pub b : Bool
  pub c : Bool
  pub any_unconsumed : Bool

abbrev pub mark_suite : Suite → Tally → Tally
mark_suite suite_a s = record s { a = true }
mark_suite suite_b s = record s { b = true }
mark_suite suite_c s = record s { c = true }

abbrev pub count_result : Suite → Option ChallengeResult → Tally → Tally
count_result suite none s = record s { any_unconsumed = true }
count_result suite (some r) s = if r.passed then mark_suite suite s else s

-- The loop over the rows.
unfoldable pub tally_rows : Tally → List ChallengeRow → Tally
tally_rows s [] = s
tally_rows s (c ∷ cs) = tally_rows (count_result c.suite c.result s) cs

abbrev pub no_tally : Tally
no_tally = record { a = false; b = false; c = false; any_unconsumed = false }

abbrev pub all_passed : Tally → Bool
all_passed s = s.a && s.b && s.c

unfoldable pub update_run : String → (RunRow → RunRow) → M (Unit {0})
unfolding statement
update_run run change =
    statement (λ t. (ok tt, record t { runs = update_where (is_run run) change t.runs }))

-- A run that has not passed fails once each of its challenges has a verdict.
abbrev pub unpassed : Bool → ℕ → RunRow → RunRow
unpassed true now r = record r { status = RunStatus.running }
unpassed false now r = record r { status = RunStatus.failed; finished_at = some now }

unfoldable pub mark_unpassed : String → Tally → M Bool
mark_unpassed run s = do
  now ← gets (λ w. w.now)
  update_run run (unpassed s.any_unconsumed now)
  pure false

abbrev pub challenges_of : String → OperatorTables → List ChallengeRow
challenges_of run t = select (λ c. c.run_id == run) t.challenges

-- The error of a run that has not passed comes after the commit.
unfoldable pub report_run : Bool → M Bool
report_run true = pure true
report_run false = fail not_ready

module _ (sha256 : List ℕ → List ℕ) where
  unfoldable pub mark_passed : String → String → M Bool
  mark_passed id run = do
    keyset ← active_keyset_hash sha256 id
    guard (keyset.1 == key_index_count) keyset_count_mismatch
    now ← gets (λ w. w.now)
    update_run run (λ r. record r {
      status = RunStatus.passed;
      keyset_hash = some keyset.0;
      finished_at = some now;
    })
    _ ← update_operator id (λ o. record o {
      conformance_passed_at = some now;
      conformance_keyset_hash = some keyset.0;
    })
    pure true

  unfoldable pub settle_run : String → String → Tally → M Bool
  settle_run id run s = if all_passed s then mark_passed id run else mark_unpassed run s

  unfoldable pub finalize_run : String → String → M Bool
  finalize_run id run = do
    passed ← transaction (do
      require_run run id
      rows ← select_from (challenges_of run)
      settle_run id run (tally_rows no_tally rows))
    report_run passed
