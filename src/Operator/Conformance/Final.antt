-- ===== src/Operator/Conformance/Final.antt =====
-- FinalizeRun passes a run whose three suites have passed, and binds the pass to the keyset of now.
use so_ho_link.Base.{
  ℕ, ◌≤◌, ◌≡◌, ◌∙◌, refl, sym, ap, inl, inr, String, Bool, true, false, some, List, ◌==◌,
  text_equality, number_equality, length, arith, Bool-cases, eq_of_same,
}
use so_ho_link.Store.{World}
use so_ho_link.Store.Sql.{ok, fail, first_where, count_where, update_where}
use so_ho_link.Store.Returns.{
  Yields, Yields-bind, Yields-require, Yields-guard, Yields-given, Yields-imply, Yields-pure,
  Yields-gets, Yields-transaction, err_ok,
}
use so_ho_link.Store.Rows.{changed, changed_hit, first_where-update_where, first_where-test}
use so_ho_link.Operator.Tables.{
  OperatorTables, OperatorRow, RunRow, RunStatus, ChallengeRow, Suite, suite_equality,
}
use so_ho_link.Operator.Keyset.{hash_sorted_pubkeys}
use so_ho_link.Operator.Holds.{
  on, Yields-Kept, Yields-statement, Yields-select_from, Yields-update_operator, Keeps-statement,
}
use so_ho_link.Operator.Activation.{active_keys, public_keys, active_keyset_hash}
use so_ho_link.Operator.Conformance.{is_run, require_run}
use so_ho_link.Operator.Conformance.Finalize.{
  Tally, tally_rows, no_tally, all_passed, update_run, mark_unpassed, mark_passed, settle_run,
  challenges_of, report_run, finalize_run,
}
use so_ho_link.Operator.Conformance.Tallied.{
  passed_in, tallied, suites_at, nothing_at, changed_operator,
}

module _ (sha256 : List ℕ → List ℕ) (id run : String) where
  abbrev pub keyset_now : OperatorTables → List ℕ
  keyset_now t = hash_sorted_pubkeys sha256 (public_keys (active_keys id t))

  abbrev Owned : OperatorTables → Type 0
  Owned t = (r : RunRow) × (first_where (is_run run) t.runs ≡ some r) × (r.operator_id ≡ id)

  -- Each suite has a challenge in the run that passed.
  abbrev pub Suites : OperatorTables → Type 0
  Suites t = (suite : Suite) → 1 ≤ count_where (passed_in suite) (challenges_of run t)

  require-Owned : Yields (on (λ t. Unit)) (require_run run id) (λ u. on Owned)
  unfolding require_run
  require-Owned = Yields-bind _ _ _ _ _ (Yields-select_from (λ t. Unit) _) λ found.
      Yields-bind _ _ _ (λ r. on (λ t. first_where (is_run run) t.runs ≡ some r)) _
        (Yields-imply _ _ _ _ (Yields-require _ found _) (λ r d n p. sym p.0.1 ∙ p.1))
        λ r. Yields-imply _ _ _ _ (Yields-guard _ _ _) (λ u d n p. (r, p.0, eq_of_same p.1))

  -- The run has passed with the hash of the seven active keys, and the operator has that pass.
  pub record IsFinal (t : OperatorTables) : Type 0 where
    pub finished :
        (r : RunRow) × (first_where (is_run run) t.runs ≡ some r)
        × (r.operator_id ≡ id)
        × (r.status ≡ RunStatus.passed)
        × (r.keyset_hash ≡ some (keyset_now t))
    pub suites : Suites t
    pub seven : length (active_keys id t) ≡ 7
    pub bound :
        (o : OperatorRow)
        → first_where (λ r. r.id == id) t.operators ≡ some o
        → o.conformance_keyset_hash ≡ some (keyset_now t)

  abbrev Ready : OperatorTables → Type 0
  Ready t = Owned t × Suites t

  abbrev Hashed : List ℕ × ℕ → OperatorTables → Type 0
  Hashed h t = Ready t × (h.0 ≡ keyset_now t) × (h.1 ≡ length (active_keys id t))

  keyset-Hashed : Yields (on Ready) (active_keyset_hash sha256 id) (λ h. on (Hashed h))
  unfolding active_keyset_hash
  keyset-Hashed = Yields-bind _ _ _ _ _ (Yields-select_from Ready (active_keys id)) λ rows.
      Yields-pure _ (λ h. on (Hashed h)) _
        (λ d r p. (
          p.0,
          ap (λ ks. hash_sorted_pubkeys sha256 (public_keys ks)) p.1,
          ap (λ ks. length ks) p.1,
        ))

  abbrev Marked : OperatorTables → Type 0
  Marked t =
      ((r : RunRow) × (first_where (is_run run) t.runs ≡ some r)
        × (r.operator_id ≡ id)
        × (r.status ≡ RunStatus.passed)
        × (r.keyset_hash ≡ some (keyset_now t)))
      × Suites t
      × (length (active_keys id t) ≡ 7)

  abbrev pass_run : List ℕ → ℕ → RunRow → RunRow
  pass_run hash now r = record r {
    status = RunStatus.passed;
    keyset_hash = some hash;
    finished_at = some now;
  }

  abbrev MarkedBy : List ℕ × ℕ → OperatorTables → Type 0
  MarkedBy h t = Marked t × (h.0 ≡ keyset_now t)

  run-Marked :
      (h : List ℕ × ℕ) (now : ℕ)
      → h.1 ≡ 7
      → Yields (on (Hashed h)) (update_run run (pass_run h.0 now)) (λ u. on (MarkedBy h))
  unfolding update_run
  run-Marked h now seven =
      Yields-statement _ _ (λ u. MarkedBy h)
        (λ t u p e.
          let (r, found, owner) = p.0.0 in
          (
            (
              (
                pass_run h.0 now r,
                first_where-update_where (is_run run) (is_run run) (pass_run h.0 now) t.runs
                      (λ s. refl)
                    ∙ ap (changed (is_run run) (pass_run h.0 now)) found
                    ∙ changed_hit (is_run run) (pass_run h.0 now) r
                        (first_where-test (is_run run) t.runs found),
                owner,
                refl,
                ap (λ x. some x) p.1,
              ),
              p.0.1,
              sym p.2 ∙ seven,
            ),
            p.1,
          ))

  abbrev pass_operator : List ℕ → ℕ → OperatorRow → OperatorRow
  pass_operator hash now o = record o {
    conformance_passed_at = some now;
    conformance_keyset_hash = some hash;
  }

  operator-IsFinal :
      (h : List ℕ × ℕ) (now : ℕ) (t : OperatorTables)
      → MarkedBy h t
      → IsFinal (record t {
        operators = update_where (λ r. r.id == id) (pass_operator h.0 now) t.operators;
      })
  operator-IsFinal h now t p = record {
    finished = p.0.0;
    suites = p.0.1;
    seven = p.0.2;
    bound = λ o found.
        let (r, e) =
          changed_operator id (pass_operator h.0 now) (first_where (λ s. s.id == id) t.operators)
            (λ s f. first_where-test (λ s. s.id == id) t.operators f)
            (sym (
                first_where-update_where (λ s. s.id == id) (λ s. s.id == id) (pass_operator h.0 now)
                  t.operators (λ s. refl))
              ∙ found) in
        ap (λ x. x.conformance_keyset_hash) e ∙ ap (λ x. some x) p.1;
  }

  mark-IsFinal : Yields (on Ready) (mark_passed sha256 id run) (λ b. on IsFinal)
  unfolding mark_passed
  mark-IsFinal = Yields-bind _ _ _ _ _ keyset-Hashed λ h.
      Yields-bind _ _ _ _ _ (Yields-guard _ _ _) λ u. Yields-given _ _ _ _ (λ seven.
        Yields-bind _ _ _ (λ now. on (Hashed h)) _ (Yields-gets _ _ _ (λ w p. p))
          λ now.
            Yields-bind _ _ _ (λ u. on (MarkedBy h)) _ (run-Marked h now (eq_of_same seven))
              λ v.
                Yields-bind _ _ _ (λ n. on IsFinal) _
                  (Yields-update_operator (MarkedBy h) id _ IsFinal (operator-IsFinal h now))
                  λ n. Yields-pure _ (λ b. on IsFinal) _ (λ d r p. p))

  abbrev Settled : Bool → OperatorTables → Type 0
  Settled true t = IsFinal t
  Settled false t = Unit

  weaken : (b : Bool) (t : OperatorTables) → IsFinal t → Settled b t
  weaken true t p = p
  weaken false t p = tt

  unpassed-Settled :
      (s : Tally) → Yields (on (λ t. Unit)) (mark_unpassed run s) (λ b. on (Settled b))
  unfolding mark_unpassed update_run
  unpassed-Settled s =
      Yields-bind _ _ _ (λ n. on (λ t. Unit)) _ (Yields-gets _ _ _ (λ w p. tt))
        λ now.
          Yields-bind _ _ _ (λ u. on (λ t. Unit)) _
            (Yields-Kept (λ t. Unit) _ (Keeps-statement (λ t. Unit) _ (λ t p. tt)))
            λ u. Yields-pure _ (λ b. on (Settled b)) false (λ d r p. tt)

  to_suites :
      (rows : List ChallengeRow) (t : OperatorTables)
      → all_passed (tally_rows no_tally rows) ≡ true
      → rows ≡ challenges_of run t
      → Suites t
  to_suites rows t h e suite =
      elim (tallied suite no_tally rows (suites_at (tally_rows no_tally rows) suite h)) [
        | inl never ↦ absurd (ground (arith, nothing_at suite))
        | inr found ↦ rw (sym e) found
      ]

  settle-Settled :
      (rows : List ChallengeRow)
      → Yields
          (on (λ t. Owned t × (rows ≡ challenges_of run t)))
          (settle_run sha256 id run (tally_rows no_tally rows))
          (λ b. on (Settled b))
  unfolding settle_run
  settle-Settled rows = elim (Bool-cases (all_passed (tally_rows no_tally rows))) [
    | inl passing ↦ rw passing (record {
      at = λ w {a} p h.
          weaken a _ (mark-IsFinal.at w (p.0, to_suites rows w.db.registered passing p.1) h);
    })
    | inr failing ↦
        rw failing
          (record { at = λ w p h. (unpassed-Settled (tally_rows no_tally rows)).at w tt h })
  ]

  report-IsFinal : (b : Bool) → Yields (on (Settled b)) (report_run b) (λ c. on IsFinal)
  unfolding report_run fail
  report-IsFinal true = Yields-pure _ (λ c. on IsFinal) true (λ d r p. p)
  report-IsFinal false = record { at = λ w p h. absurd (err_ok h) }

  -- Where FinalizeRun returns, the run is the operator's, each suite has a challenge in it that has
  -- passed, and the operator has seven active keys; the run has passed with the hash of these keys, and
  -- the operator, if there is a row of it, has a conformance pass with the same hash.
  pub finalize_run-IsFinal :
      (w : World) {b : Bool}
      → (finalize_run sha256 id run w).0 ≡ ok b
      → IsFinal (finalize_run sha256 id run w).1.db.registered
  unfolding finalize_run
  finalize_run-IsFinal w h =
      (Yields-bind _ _ _ (λ b. on (Settled b)) _
          (Yields-transaction _ _ _ (
            Yields-bind _ _ _ _ _ require-Owned λ u.
              Yields-bind _ _ _ _ _ (Yields-select_from Owned (challenges_of run)) settle-Settled))
          report-IsFinal).at
        w tt h
