-- ===== src/Jobs/RerouteTests.antt =====
-- A declined job that goes to another node.
use so_ho_link.Operator.Tables.{no_operators}
use so_ho_link.Base.{◌≡◌, refl, true, some, [], ◌∷◌, ◌==◌, text_equality, number_equality}
use so_ho_link.Registry.{find_match, candidates, satisfies, is_excluded, opt_out_skips, opted_out}
use so_ho_link.Workload.{marketplace_to_agent}
use so_ho_link.Token.{generate_job_token}
use so_ho_link.Store.{Job, World, status_discrete, status_equality, declined}
use so_ho_link.Store.Sql.{
  ok, pure, fail, gets, require, guard, attempt, query, recover, ◌>>=◌, change_world, update_jobs,
}
use so_ho_link.Jobs.Submit.{
  is_print, find_participant, requester_placement_context, head_of, adjust_in_flight, clock,
}
use so_ho_link.Jobs.Reroute.{
  read_job, declined_nodes, rematch_request, release, account_move, choose_next, next_token,
  rebind_direct, rebind_print, fail_declined, reroute_among, reroute_declined_job,
}
use so_ho_link.Jobs.Reroute.Rebinds.{Rerouted, reroute_declined_job-Rerouted}
use so_ho_link.Jobs.Tests.{orchestrator, old_batch}
use so_ho_link.Jobs.SubmitTests.{open_world}

abbrev declined_batch : Job
declined_batch = record old_batch { status = declined; node_id = some "n9" }

-- Node n9 has declined the job, and node n1 is free.
abbrev declined_world : World
declined_world = record open_world {
  db = record open_world.db {
    jobs = declined_batch ∷ [];
    registered = no_operators;
    declines = record { job_id = "j2"; node_id = "n9" } ∷ [];
  };
}

waits : (declined_batch.status == declined) ≡ true
unfolding status_discrete
waits = refl

rerouted : (reroute_declined_job orchestrator "j2" declined_world).0 ≡ ok tt
unfolding reroute_declined_job read_job declined_nodes rematch_request release account_move
    choose_next next_token rebind_direct rebind_print fail_declined reroute_among is_print
    find_participant requester_placement_context head_of adjust_in_flight clock find_match
    candidates satisfies is_excluded opt_out_skips opted_out marketplace_to_agent generate_job_token
    pure fail gets require guard attempt query recover ◌>>=◌ change_world update_jobs
    status_discrete
rerouted = refl

reroute_declined_job-Rerouted_example :
    Rerouted orchestrator "j2" declined_batch
      (find_match
        (rematch_request declined_batch (declined_nodes "j2" declined_world.db.declines))
        declined_world.registry)
      (reroute_declined_job orchestrator "j2" declined_world).1.db
reroute_declined_job-Rerouted_example =
    reroute_declined_job-Rerouted orchestrator "j2" declined_world declined_batch refl waits
      rerouted
