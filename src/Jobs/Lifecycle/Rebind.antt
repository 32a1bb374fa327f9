-- ===== src/Jobs/Lifecycle/Rebind.antt =====
-- Rerouting and rescheduling keep to the diagram, the kind of job that they read in hand.
use so_ho_link.Base.{
  ◌≡◌, refl, String, true, false, Option, none, some, List, [], ◌∷◌, text_equality, eq_of_same, ◌∙◌,
  ap, number_equality,
}
use so_ho_link.Registry.{NodeEntry}
use so_ho_link.Store.{Bytes, Job, status_equality, declined}
use so_ho_link.Store.Sql.{M}
use so_ho_link.Store.Effects.{
  Moves, Course, moves, Moves-bind, Moves-gets, Moves-pure, Moves-branch, Moves-recover,
  Moves-query,
}
use so_ho_link.Store.Knowing.{Under}
use so_ho_link.Jobs.Requests.{Orchestrator}
use so_ho_link.Jobs.Submit.{clock, is_print}
use so_ho_link.Jobs.Reroute.{
  read_job, rebind_print, rebind_direct, reroute_among, reroute_declined_job, rebind_stale,
  reschedule_among, reschedule_match, reschedule_stale_job, reschedule_unless_online,
  reschedule_each, reschedule_stale, reroute_declined, tick,
}
use so_ho_link.Jobs.Expire.{expire_confirmations, expire_all_dispatched, expire_all_picked_up}
use so_ho_link.Jobs.Lifecycle.{Mode, Edge, Way, Evolves}
use so_ho_link.Jobs.Lifecycle.Rules.{evolves_course, Life-move, Moves-Evolves-update}
use so_ho_link.Jobs.Lifecycle.Known.{
  Works, known_course, Moves-known, Moves-known_update, Moves-read_job, and_left, and_right,
}
use so_ho_link.Jobs.Lifecycle.Loop.{
  each-Evolves, sweep-Evolves, expire_confirmation-Evolves, expire_dispatched-Evolves,
  expire_picked_up-Evolves, account_move-Evolves, account_rebind-Evolves, fail_declined-Evolves,
  resolve_printer-Evolves, choose_next-Evolves, next_token-Evolves,
}

module _ (m : Mode) (o : Orchestrator) where
  abbrev c : Course (Evolves m)
  c = evolves_course m

  module _ (id workload : String) where
    abbrev Known : {A : Type 0} → M A → Type 0
    Known = Moves (Under (Works id workload) (Evolves m))

    abbrev k : Course (Under (Works id workload) (Evolves m))
    k = known_course m id workload

    rebind_print-Known :
        (node : String) (token : Bytes)
        → is_print workload ≡ true
        → Known (rebind_print o id node token)
    unfolding rebind_print clock
    rebind_print-Known node token print =
        Moves-bind k _ _ (Moves-known m id workload (resolve_printer-Evolves m node)) λ printer.
          Moves-bind k _ _ (Moves-gets k _) λ now.
            Moves-known_update m id workload _ _ (λ j t. eq_of_same (and_left _ _ t)) (λ j. refl)
              λ j w t.
                Life-move m j _ declined refl refl refl (eq_of_same (and_right _ _ t))
                  (Edge.asks_again (ap is_print w ∙ print))

    rebind_direct-Known :
        (node : String) (token : Bytes)
        → is_print workload ≡ false
        → Known (rebind_direct o id node token)
    unfolding rebind_direct clock
    rebind_direct-Known node token direct = Moves-bind k _ _ (Moves-gets k _) λ now.
        Moves-known_update m id workload _ _ (λ j t. eq_of_same (and_left _ _ t)) (λ j. refl)
          λ j w t.
            Life-move m j _ declined refl refl refl (eq_of_same (and_right _ _ t))
              (Edge.schedules_again (ap is_print w ∙ direct))

  reroute_among-Known :
      (id : String) (j : Job) (found : Option (List NodeEntry))
      → Known id j.workload_type (reroute_among o id j found)
  unfolding reroute_among
  reroute_among-Known id j none = Moves-known m id j.workload_type (fail_declined-Evolves m id _)
  reroute_among-Known id j (some candidates) =
      Moves-bind (k id j.workload_type) _ _
        (Moves-known m id j.workload_type (choose_next-Evolves m o j candidates))
        λ node.
          Moves-bind (k id j.workload_type) _ _
            (Moves-known m id j.workload_type (next_token-Evolves m o id node.node_id))
            λ token.
              Moves-bind (k id j.workload_type) _ _
                (Moves-branch (k id j.workload_type) (is_print j.workload_type) _ _
                  (rebind_print-Known id j.workload_type node.node_id token)
                  (rebind_direct-Known id j.workload_type node.node_id token))
                λ rows.
                  Moves-known m id j.workload_type (account_move-Evolves m rows node.node_id _)

  reroute_declined_job-Evolves : (id : String) → Moves (Evolves m) (reroute_declined_job o id)
  unfolding reroute_declined_job
  reroute_declined_job-Evolves id =
      Moves-read_job m id _
        λ j. search (known_course m id j.workload_type, moves, reroute_among-Known id j)

  rebind_stale-Evolves :
      (id old node : String) (token : Bytes) → Moves (Evolves m) (rebind_stale o id old node token)
  unfolding rebind_stale clock
  rebind_stale-Evolves id old node token = Moves-bind c _ _ (Moves-gets c _) λ now.
      Moves-Evolves-update m _ _ (λ j. refl)
        λ j t. record { id = refl; workload = refl; participant = refl; way = Way.here }

  reschedule_among-Evolves :
      (id old : String) (j : Job) (found : Option (List NodeEntry))
      → Moves (Evolves m) (reschedule_among o id old j found)
  unfolding reschedule_among
  reschedule_among-Evolves id old j none = Moves-pure c tt
  reschedule_among-Evolves id old j (some candidates) =
      search
        (
          c,
          moves,
          choose_next-Evolves m o,
          next_token-Evolves m o,
          rebind_stale-Evolves,
          account_rebind-Evolves m,
        )
        depth 12

  reschedule_stale_job-Evolves :
      (id old : String) → Moves (Evolves m) (reschedule_stale_job o id old)
  unfolding reschedule_stale_job reschedule_match read_job
  reschedule_stale_job-Evolves id old = search (c, moves, reschedule_among-Evolves) depth 16

  reschedule_unless_online-Evolves :
      (b : String × String) → Moves (Evolves m) (reschedule_unless_online o b)
  unfolding reschedule_unless_online
  reschedule_unless_online-Evolves (id, node) =
      search (c, moves, reschedule_stale_job-Evolves) depth 8

  reschedule_each-Evolves : (bs : List (String × String)) → Moves (Evolves m) (reschedule_each o bs)
  unfolding reschedule_each
  reschedule_each-Evolves [] = Moves-pure c tt
  reschedule_each-Evolves (b ∷ bs) =
      Moves-bind c _ _ (reschedule_unless_online-Evolves b) (λ _. reschedule_each-Evolves bs)

  reschedule_stale-Evolves : Moves (Evolves m) (reschedule_stale o)
  unfolding reschedule_stale
  reschedule_stale-Evolves = search (c, moves, reschedule_each-Evolves) depth 8

  reroute_declined-Evolves : Moves (Evolves m) (reroute_declined o)
  unfolding reroute_declined
  reroute_declined-Evolves = Moves-recover c tt _ (
      Moves-bind c _ _ (Moves-query c _)
        (λ ids. each-Evolves m tt (reroute_declined_job o) ids reroute_declined_job-Evolves))

  pub tick-Evolves : Moves (Evolves m) (tick o)
  unfolding tick expire_confirmations expire_all_dispatched expire_all_picked_up
  tick-Evolves = Moves-bind c _ _ (sweep-Evolves m _ _ (expire_confirmation-Evolves m)) λ _.
      Moves-bind c _ _ (sweep-Evolves m _ _ (expire_dispatched-Evolves m)) λ _.
        Moves-bind c _ _ reschedule_stale-Evolves λ _.
          Moves-bind c _ _ (sweep-Evolves m _ _ (expire_picked_up-Evolves m))
            λ _. reroute_declined-Evolves
