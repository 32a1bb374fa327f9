-- ===== src/Operator/Lifecycle/Conforming.antt =====
-- Conformance runs leave the keys alone, and but for the pass at their end the operators too.
use so_ho_link.Base.{
  ℕ, inl, inr, Bool-cases, String, Bool, true, false, Option, none, some, List, text_equality,
  bytes_equality,
}
use so_ho_link.Store.Effects.{
  Moves, moves, Moves-transaction, Moves-bind, Moves-pure, Moves-fail, Moves-gets,
}
use so_ho_link.Operator.Tables.{
  OperatorTables, OperatorRow, OperatorKeyRow, RunRow, ChallengeRow, ChallengeResult, Suite, Oracle,
  NonceRow,
}
use so_ho_link.Store.Returns.{Yields, Yields-bind}
use so_ho_link.Operator.Holds.{
  on, Yields-Kept, Keeps-transaction, Kept, Kept-course, Keeps-statement, Keeps-select_from,
  Moves-on_violation,
}
use so_ho_link.Operator.Rotation.{active_key_map_tx}
use so_ho_link.Operator.Replay.{put_nonce, insert_nonce}
use so_ho_link.Operator.Conformance.{
  Library, Draw, fresh_nonce, fresh_seq, put_run, insert_run, reserve, reserve_nonce, put_challenge,
  insert_challenge, persist_challenge, issue_challenge_a, issue_challenge_b, start_conformance_run,
  require_run,
}
use so_ho_link.Operator.Conformance.Grading.{
  Grader, consume_challenge, store_verdict, settle_challenge, grade_challenge, settle_suite_c,
  grade_suite_c,
}
use so_ho_link.Operator.Conformance.Finalize.{
  Tally, no_tally, tally_rows, all_passed, update_run, mark_unpassed, mark_passed, settle_run,
  report_run, finalize_run,
}

module _ (P : List OperatorRow → List OperatorKeyRow → List ChallengeRow → Type 0) where
  abbrev pub Registry : OperatorTables → Type 0
  Registry t = P t.operators t.keys t.challenges

  put_nonce_at :
      (b : Bool) (row : NonceRow) (t : OperatorTables) → Registry t → Registry (put_nonce b row t).1
  put_nonce_at true row t h = h
  put_nonce_at false row t h = h

  put_run_at :
      (b : Bool) (row : RunRow) (t : OperatorTables) → Registry t → Registry (put_run b row t).1
  put_run_at true row t h = h
  put_run_at false row t h = h

  reserve_at :
      (nonce : List ℕ) (expiry : ℕ) (run : Option RunRow) (t : OperatorTables)
      → Registry t
      → Registry (reserve nonce expiry run t).1
  reserve_at nonce expiry none t h = h
  reserve_at nonce expiry (some run) t h = put_nonce_at _ _ t h

  nonce-Kept : (drawn : Option (List ℕ)) → Moves (Kept Registry) (fresh_nonce drawn)
  unfolding fresh_nonce
  nonce-Kept drawn = search (Kept-course Registry, moves) depth 6

  seq-Kept : (drawn : Option (List ℕ)) → Moves (Kept Registry) (fresh_seq drawn)
  unfolding fresh_seq
  seq-Kept drawn = search (Kept-course Registry, moves) depth 8

  insert_run-Kept : (row : RunRow) → Moves (Kept Registry) (insert_run row)
  unfolding insert_run
  insert_run-Kept row = Keeps-statement Registry _ (λ t h. put_run_at _ row t h)

  reserve-Kept :
      (run : String) (nonce : List ℕ) (expiry : ℕ)
      → Moves (Kept Registry) (reserve_nonce run nonce expiry)
  unfolding reserve_nonce
  reserve-Kept run nonce expiry = Keeps-statement Registry _ (λ t h. reserve_at nonce expiry _ t h)

  insert_nonce-Kept : (row : NonceRow) → Moves (Kept Registry) (insert_nonce row)
  unfolding insert_nonce
  insert_nonce-Kept row = Keeps-statement Registry _ (λ t h. put_nonce_at _ row t h)

  module _ (insert : (row : ChallengeRow) → Moves (Kept Registry) (insert_challenge row)) where
    persist-Kept :
        (run : String) (suite : Suite) (idx : ℕ) (nonce : List ℕ) (expected : Oracle) (id : String)
        → Moves (Kept Registry) (persist_challenge run suite idx nonce expected id)
    unfolding persist_challenge
    persist-Kept run suite idx nonce expected id =
        search (Kept-course Registry, moves, Moves-on_violation, reserve-Kept, insert) depth 12

    module _ (lib : Library) where
      issue_a-Kept :
          (run id : String) (idx : ℕ) (algo : String) (draw : Draw)
          → Moves (Kept Registry) (issue_challenge_a lib run id idx algo draw)
      unfolding issue_challenge_a
      issue_a-Kept run id idx algo draw =
          search (Kept-course Registry, moves, nonce-Kept, seq-Kept, persist-Kept) depth 12

      issue_b-Kept :
          (run id : String) (idx : ℕ) (algo : String) (draw : Draw)
          → Moves (Kept Registry) (issue_challenge_b lib run id idx algo draw)
      unfolding issue_challenge_b
      issue_b-Kept run id idx algo draw =
          search (Kept-course Registry, moves, nonce-Kept, seq-Kept, persist-Kept) depth 12

      pub start-Kept :
          (run id : String) (a b : Draw)
          → Moves (Kept Registry) (start_conformance_run lib run id a b)
      unfolding start_conformance_run
      start-Kept run id a b = Moves-transaction (Kept-course Registry) _ (
          search
            (
              Kept-course Registry,
              moves,
              Keeps-select_from Registry,
              insert_run-Kept,
              issue_a-Kept,
              issue_b-Kept,
            )
            depth 14)

  require_run-Kept : (run id : String) → Moves (Kept Registry) (require_run run id)
  unfolding require_run
  require_run-Kept run id =
      search (Kept-course Registry, moves, Keeps-select_from Registry) depth 10

  key_map-Kept : (id : String) → Moves (Kept Registry) (active_key_map_tx id)
  unfolding active_key_map_tx
  key_map-Kept id = search (Kept-course Registry, moves, Keeps-select_from Registry) depth 8

  module _
      (consume : (ch : String) (r : ChallengeResult)
        → Moves (Kept Registry) (consume_challenge ch r)) where
    store_verdict-Kept : (r : ChallengeResult) → Moves (Kept Registry) (store_verdict r)
    unfolding store_verdict
    store_verdict-Kept r = search (Kept-course Registry, moves, consume) depth 8

    settle-Kept :
        (grader : Grader) (id : String) (suite : Suite) (c : ChallengeRow) (at : Option ℕ)
        → Moves (Kept Registry) (settle_challenge grader id suite c at)
    unfolding settle_challenge
    settle-Kept grader id suite c (some at) = Moves-pure (Kept-course Registry) _
    settle-Kept grader id suite c none =
        search (Kept-course Registry, moves, key_map-Kept, store_verdict-Kept) depth 8

    pub grade-Kept :
        (id run ch : String) (suite : Suite) (grader : Grader)
        → Moves (Kept Registry) (grade_challenge id run ch suite grader)
    unfolding grade_challenge
    grade-Kept id run ch suite grader = Moves-transaction (Kept-course Registry) _ (
        search
          (Kept-course Registry, moves, require_run-Kept, Keeps-select_from Registry, settle-Kept)
          depth 14)

  module _ (insert : (row : ChallengeRow) → Moves (Kept Registry) (insert_challenge row)) where
    settle_c-Kept :
        (id run : String) (draw : Draw) (c : Option ChallengeRow)
        → Moves (Kept Registry) (settle_suite_c id run draw c)
    unfolding settle_suite_c
    settle_c-Kept id run draw (some c) = Moves-pure (Kept-course Registry) _
    settle_c-Kept id run draw none =
        search
          (Kept-course Registry, moves, nonce-Kept, Moves-on_violation, insert_nonce-Kept, insert)
          depth 14

    pub grade_c-Kept :
        (id run : String) (draw : Draw) → Moves (Kept Registry) (grade_suite_c id run draw)
    unfolding grade_suite_c
    grade_c-Kept id run draw = Moves-transaction (Kept-course Registry) _ (
        search
          (Kept-course Registry, moves, require_run-Kept, Keeps-select_from Registry, settle_c-Kept)
          depth 14)

  pub update_run-Kept :
      (run : String) (change : RunRow → RunRow) → Moves (Kept Registry) (update_run run change)
  unfolding update_run
  update_run-Kept run change = Keeps-statement Registry _ (λ t h. h)

  unpassed-Kept : (run : String) (s : Tally) → Moves (Kept Registry) (mark_unpassed run s)
  unfolding mark_unpassed
  unpassed-Kept run s = search (Kept-course Registry, moves, update_run-Kept) depth 8

  report-Kept : (b : Bool) → Moves (Kept Registry) (report_run b)
  unfolding report_run
  report-Kept true = Moves-pure (Kept-course Registry) true
  report-Kept false = Moves-fail (Kept-course Registry) _

  -- Whatever the pass at the end keeps, where it returns.
  module _ (sha256 : List ℕ → List ℕ)
      (pass : (id run : String)
        → Yields (on Registry) (mark_passed sha256 id run) (λ b. on Registry)) where
    settle_run-Kept :
        (id run : String) (s : Tally)
        → Yields (on Registry) (settle_run sha256 id run s) (λ b. on Registry)
    unfolding settle_run
    settle_run-Kept id run s = elim (Bool-cases (all_passed s)) [
      | inl passing ↦ rw passing (pass id run)
      | inr failing ↦ rw failing (Yields-Kept Registry _ (unpassed-Kept run s))
    ]

    pub finalize-Kept : (id run : String) → Moves (Kept Registry) (finalize_run sha256 id run)
    unfolding finalize_run
    finalize-Kept id run =
        Moves-bind (Kept-course Registry) _ _
          (Keeps-transaction Registry _ (
            Yields-bind _ _ _ (λ u. on Registry) _
              (Yields-Kept Registry _ (require_run-Kept run id))
              λ u.
                Yields-bind _ _ _ (λ rows. on Registry) _
                  (Yields-Kept Registry _ (Keeps-select_from Registry _))
                  λ rows. settle_run-Kept id run (tally_rows no_tally rows)))
          report-Kept

-- What is not about the challenges.
module _ (P : List OperatorRow → List OperatorKeyRow → Type 0) where
  abbrev Plain : OperatorTables → Type 0
  Plain = Registry (λ os ks cs. P os ks)

  put_challenge_at :
      (b : Bool) (row : ChallengeRow) (t : OperatorTables)
      → Plain t
      → Plain (put_challenge b row t).1
  put_challenge_at true row t h = h
  put_challenge_at false row t h = h

  pub insert-Kept : (row : ChallengeRow) → Moves (Kept Plain) (insert_challenge row)
  unfolding insert_challenge
  insert-Kept row = Keeps-statement Plain _ (λ t h. put_challenge_at _ row t h)

  pub consume-Kept :
      (ch : String) (r : ChallengeResult) → Moves (Kept Plain) (consume_challenge ch r)
  unfolding consume_challenge
  consume-Kept ch r =
      Moves-bind (Kept-course Plain) _ _ (Moves-gets (Kept-course Plain) _)
        (λ now. Keeps-statement Plain _ (λ t h. h))
