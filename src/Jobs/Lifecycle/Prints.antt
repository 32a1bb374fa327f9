-- ===== src/Jobs/Lifecycle/Prints.antt =====
-- The portal's handlers keep to the diagram; only the owner's confirmation needs consent.
use so_ho_link.Base.{◌≡◌, refl, String, Bool, true, Option, ◌==◌, text_equality, eq_of_same}
use so_ho_link.Store.{Job, Db, status_equality, awaiting_confirmation, awaiting_pickup, picked_up}
use so_ho_link.Store.Effects.{
  Moves, Course, moves, Moves-bind, Moves-gets, Moves-pure, Moves-guard, Moves-or_else,
  Moves-rescue, Moves-transaction, Moves-returning, Moves-if, Moves-fail, Moves-branch,
}
use so_ho_link.Jobs.Submit.{clock}
use so_ho_link.Jobs.Portal.{
  found_or_404, confirm_print, decline_rows, decline_print, confirm_or_decline,
  handle_job_confirm_action, advance, handle_consumer_picked_up, handle_consumer_delivered,
  handle_provider_no_show,
}
use so_ho_link.Jobs.Lifecycle.{Mode, Edge, Life, Evolves}
use so_ho_link.Jobs.Lifecycle.Rules.{
  evolves_course, Life-move, Moves-Evolves-update, Evolves-update,
}
use so_ho_link.Jobs.Lifecycle.Known.{and_left, and_right, insert_decline-Evolves}

module _ (m : Mode) where
  abbrev c : Course (Evolves m)
  c = evolves_course m

  found_or_404-Evolves : (f : Db → Option Job) → Moves (Evolves m) (found_or_404 f)
  unfolding found_or_404
  found_or_404-Evolves f = search (c, moves) depth 8

  advance-Evolves :
      (test : Job → Bool) (change : Job → Job)
      → ((j : Job) → (change j).id ≡ j.id)
      → ((j : Job) → test j ≡ true → Life m j (change j))
      → Moves (Evolves m) (advance test change)
  unfolding advance
  advance-Evolves test change keeps lives =
      Moves-bind c _ _ (Moves-or_else c _ _ (Moves-Evolves-update m test change keeps lives))
        λ rows. Moves-guard c _ _

  confirm_print-Evolves : m.consent ≡ true → (id : String) → Moves (Evolves m) (confirm_print id)
  unfolding confirm_print clock
  confirm_print-Evolves consent id = Moves-bind c _ _ (Moves-gets c _) λ now.
      Moves-bind c _ _
        (Moves-or_else c _ _ (
          Moves-Evolves-update m _ _ (λ j. refl)
            λ j t.
              Life-move m j _ awaiting_confirmation refl refl refl (eq_of_same (and_right _ _ t))
                (Edge.confirms consent)))
        λ rows. Moves-pure c _

  decline_rows-Evolves : (id : String) → Moves (Evolves m) (decline_rows id)
  unfolding decline_rows clock
  decline_rows-Evolves id = Moves-bind c _ _ (Moves-gets c _) λ now.
      Moves-bind c _ _
        (Moves-returning c _ _ λ w.
          Evolves-update m _ _ w (λ j. refl)
            λ i j found t.
              Life-move m j _ awaiting_confirmation refl refl refl (eq_of_same (and_right _ _ t))
                Edge.refuses)
        λ row. search (c, moves, insert_decline-Evolves m)

  decline_print-Evolves : (id : String) → Moves (Evolves m) (decline_print id)
  unfolding decline_print
  decline_print-Evolves id = Moves-rescue c _ _ (Moves-transaction c _ (decline_rows-Evolves id))

  -- Whatever the action, with consent; any but `confirm`, without.
  pub handle_job_confirm_action-Evolves :
      (user id action : String)
      → ((action == "confirm") ≡ true → m.consent ≡ true)
      → Moves (Evolves m) (handle_job_confirm_action user id action)
  unfolding handle_job_confirm_action confirm_or_decline
  handle_job_confirm_action-Evolves user id action consent =
      Moves-bind c _ _ (found_or_404-Evolves _) λ j.
        Moves-if c _ _ _
          (Moves-branch c (action == "confirm") _ _ (λ t. confirm_print-Evolves (consent t) id)
            (λ _. Moves-if c _ _ _ (decline_print-Evolves id) (Moves-fail c _)))
          (Moves-pure c tt)

  pub handle_consumer_picked_up-Evolves :
      (user id : String) → Moves (Evolves m) (handle_consumer_picked_up user id)
  unfolding handle_consumer_picked_up clock
  handle_consumer_picked_up-Evolves user id = Moves-bind c _ _ (found_or_404-Evolves _) λ j.
      Moves-bind c _ _ (Moves-guard c _ _) λ _. Moves-bind c _ _ (Moves-gets c _) λ now.
        advance-Evolves _ _ (λ r. refl)
          λ r t.
            Life-move m r _ awaiting_pickup refl refl refl (eq_of_same (and_right _ _ t))
              Edge.picks_up

  pub handle_consumer_delivered-Evolves :
      (user id : String) → Moves (Evolves m) (handle_consumer_delivered user id)
  unfolding handle_consumer_delivered clock
  handle_consumer_delivered-Evolves user id = Moves-bind c _ _ (found_or_404-Evolves _) λ j.
      Moves-bind c _ _ (Moves-guard c _ _) λ _. Moves-bind c _ _ (Moves-gets c _) λ now.
        advance-Evolves _ _ (λ r. refl)
          λ r t.
            Life-move m r _ picked_up refl refl refl (eq_of_same (and_right _ _ t)) Edge.delivers

  pub handle_provider_no_show-Evolves :
      (user id : String) → Moves (Evolves m) (handle_provider_no_show user id)
  unfolding handle_provider_no_show clock
  handle_provider_no_show-Evolves user id = Moves-bind c _ _ (found_or_404-Evolves _) λ j.
      Moves-bind c _ _ (Moves-guard c _ _) λ _. Moves-bind c _ _ (Moves-gets c _) λ now.
        Moves-bind c _ _ (Moves-guard c _ _) λ _.
          advance-Evolves _ _ (λ r. refl)
            λ r t.
              Life-move m r _ awaiting_pickup refl refl refl
                (eq_of_same (and_right _ (r.status == awaiting_pickup) (and_left _ _ t)))
                Edge.abandons
