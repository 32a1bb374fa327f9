-- ===== src/Jobs/Lifecycle/Loop.antt =====
-- The passes of the orchestrator's loop keep to the diagram.
use so_ho_link.Base.{
  refl, String, Bool, false, List, [], ◌∷◌, text_equality, ℕ, eq_of_same, number_equality,
}
use so_ho_link.Registry.{NodeEntry}
use so_ho_link.Store.{Job, status_equality, awaiting_confirmation, declined, dispatched, picked_up}
use so_ho_link.Store.Sql.{M}
use so_ho_link.Store.Effects.{
  Moves, Course, moves, Moves-recover, Moves-bind, Moves-gets, Moves-pure,
}
use so_ho_link.Jobs.Requests.{Orchestrator}
use so_ho_link.Jobs.Submit.{clock, resolve_printer, requester_placement_context}
use so_ho_link.Jobs.Expire.{
  each, sweep, confirmation_expired, expire_confirmation, dispatch_expired, expire_dispatched,
  pickup_expired, expire_picked_up,
}
use so_ho_link.Jobs.Reroute.{
  release, account_move, account_rebind, fail_declined, choose_next, next_token,
}
use so_ho_link.Jobs.Lifecycle.{Mode, Edge, Evolves}
use so_ho_link.Jobs.Lifecycle.Rules.{evolves_course, Life-move, Moves-Evolves-update}
use so_ho_link.Jobs.Lifecycle.Known.{and_left, and_right, adjust_in_flight-Evolves}

module _ (m : Mode) where
  abbrev c : Course (Evolves m)
  c = evolves_course m

  pub each-Evolves :
      {A : Type 0} (d : A) (f : String → M A) (ids : List String)
      → ((id : String) → Moves (Evolves m) (f id))
      → Moves (Evolves m) (each d f ids)
  unfolding each
  each-Evolves d f [] k = search (c, moves)
  each-Evolves d f (id ∷ ids) k =
      Moves-bind c _ _ (Moves-recover c d (f id) (k id)) (λ _. each-Evolves d f ids k)

  pub sweep-Evolves :
      (test : ℕ → Job → Bool) (f : String → M Bool)
      → ((id : String) → Moves (Evolves m) (f id))
      → Moves (Evolves m) (sweep test f)
  unfolding sweep clock
  sweep-Evolves test f k = search (c, moves, k, each-Evolves false f) depth 12

  pub expire_confirmation-Evolves : (id : String) → Moves (Evolves m) (expire_confirmation id)
  unfolding expire_confirmation clock confirmation_expired
  expire_confirmation-Evolves id = Moves-bind c _ _ (Moves-gets c _) λ now.
      Moves-bind c _ _
        (Moves-Evolves-update m _ _ (λ j. refl)
          λ j t.
            Life-move m j _ awaiting_confirmation refl refl refl
              (eq_of_same (and_left _ _ (and_right _ _ t))) Edge.refuses)
        λ rows. Moves-pure c _

  pub expire_dispatched-Evolves : (id : String) → Moves (Evolves m) (expire_dispatched id)
  unfolding expire_dispatched clock dispatch_expired
  expire_dispatched-Evolves id = Moves-bind c _ _ (Moves-gets c _) λ now.
      Moves-bind c _ _
        (Moves-Evolves-update m _ _ (λ j. refl)
          λ j t.
            Life-move m j _ dispatched refl refl refl (eq_of_same (and_left _ _ (and_right _ _ t)))
              Edge.reverts)
        λ rows. Moves-pure c _

  pub expire_picked_up-Evolves : (id : String) → Moves (Evolves m) (expire_picked_up id)
  unfolding expire_picked_up clock pickup_expired
  expire_picked_up-Evolves id = Moves-bind c _ _ (Moves-gets c _) λ now.
      Moves-bind c _ _
        (Moves-Evolves-update m _ _ (λ j. refl)
          λ j t.
            Life-move m j _ picked_up refl refl refl (eq_of_same (and_left _ _ (and_right _ _ t)))
              Edge.delivers)
        λ rows. Moves-pure c _

  pub release-Evolves : (node : String) → Moves (Evolves m) (release node)
  unfolding release
  release-Evolves node = search (c, moves, adjust_in_flight-Evolves m)

  pub account_move-Evolves :
      (rows : ℕ) (node previous : String) → Moves (Evolves m) (account_move rows node previous)
  unfolding account_move
  account_move-Evolves rows node previous =
      search (c, moves, adjust_in_flight-Evolves m, release-Evolves)

  pub account_rebind-Evolves :
      (rows : ℕ) (node old : String) → Moves (Evolves m) (account_rebind rows node old)
  unfolding account_rebind
  account_rebind-Evolves rows node old = search (c, moves, adjust_in_flight-Evolves m)

  pub fail_declined-Evolves : (id previous : String) → Moves (Evolves m) (fail_declined id previous)
  unfolding fail_declined clock
  fail_declined-Evolves id previous = Moves-bind c _ _ (Moves-gets c _) λ now.
      Moves-bind c _ _
        (Moves-Evolves-update m _ _ (λ j. refl)
          λ j t.
            Life-move m j _ declined refl refl refl (eq_of_same (and_right _ _ t)) Edge.gives_up)
        λ rows. search (c, moves, release-Evolves)

  pub resolve_printer-Evolves : (node : String) → Moves (Evolves m) (resolve_printer node)
  unfolding resolve_printer
  resolve_printer-Evolves node = search (c, moves)

  module _ (o : Orchestrator) where
    pub choose_next-Evolves :
        (j : Job) (candidates : List NodeEntry) → Moves (Evolves m) (choose_next o j candidates)
    unfolding choose_next requester_placement_context
    choose_next-Evolves j candidates = search (c, moves) depth 16

    pub next_token-Evolves : (id node : String) → Moves (Evolves m) (next_token o id node)
    unfolding next_token clock
    next_token-Evolves id node = search (c, moves)
