-- ===== src/Jobs/SubmitTests.antt =====
-- A submission that goes through.
use so_ho_link.Base.{
  ◌≡◌, ◌+◌, refl, pos, false, none, some, [], ◌∷◌, text_equality, number_equality,
}
use so_ho_link.Workload.{is_valid, marketplace_to_agent}
use so_ho_link.Registry.{
  NodeEntry, find_match, candidates, satisfies, is_excluded, opt_out_skips, opted_out,
}
use so_ho_link.Allowlist.{lookup_image, find_digest, extract_digest, after_last, has_prefix, longer}
use so_ho_link.Token.{claims, unix, generate_job_token}
use so_ho_link.Token.RoundTrip.{signed}
use so_ho_link.Store.{World}
use so_ho_link.Store.Sql.{
  ok, pure, fail, gets, require, guard, attempt, query, recover, transaction, ◌>>=◌, change_world,
  update_jobs, insert_job,
}
use so_ho_link.Jobs.Requests.{SubmitJobResponse, job_token_ttl}
use so_ho_link.Jobs.Submit.{
  validate, is_print, find_participant, find_node, requester_placement_context, head_of,
  match_request, record_sounding, adjust_in_flight, nodes_or_rejection, find_nodes, check_image,
  pending_row, clock, stripe_account, schedule_directly, await_confirmation, place, choose_node,
  submit_job,
}
use so_ho_link.Jobs.Submit.Places.{Submitted, submit_job-Submitted}
use so_ho_link.Jobs.Tests.{plain_crypto, orchestrator, request, world}

abbrev pub host : NodeEntry
host = record {
  node_id = "n1";
  participant_id = "alice";
  node_class = "A";
  country_code = "US";
  region = "west";
  hardware_profile = record {
    cpu_cores = pos 8;
    ram_mb = pos 16000;
    gpu_present = false;
    storage_gb = pos 500;
    bandwidth_mbps = pos 100;
  };
  last_heartbeat = 900;
  status = "online";
  opt_out_compute = false;
  opt_out_storage = false;
  opt_out_printing = false;
  has_enabled_printer = false;
  owner_active = false;
  cpu_util_pct = pos 0;
  load_sampled_at = 900;
  in_flight = pos 0;
}

abbrev pub open_world : World
open_world = record world {
  registry = ("n1", host) ∷ [];
  db = record world.db {
    participants =
        record { id = "alice"; country_code = none; region = none; stripe_account_id = some "acct" }
        ∷ [];
  };
}

abbrev response : SubmitJobResponse
response = record {
  job_id = "j3";
  node_id = "n1";
  job_token = signed plain_crypto (7 ∷ []) (claims "j3" "n1" (unix (1_000 + job_token_ttl)));
  provider_stripe_account_id = "acct";
}

returned : (submit_job orchestrator "j3" request open_world).0 ≡ ok response
unfolding submit_job choose_node place validate is_valid marketplace_to_agent lookup_image
    find_digest extract_digest after_last has_prefix longer check_image find_nodes
    nodes_or_rejection match_request find_match candidates satisfies is_excluded opt_out_skips
    opted_out requester_placement_context find_participant find_node head_of is_print pending_row
    clock stripe_account schedule_directly await_confirmation record_sounding adjust_in_flight
    generate_job_token pure fail gets require guard attempt query recover transaction ◌>>=◌
    change_world update_jobs insert_job
returned = refl

submit_job-Submitted_example :
    Submitted orchestrator "j3" request open_world
      (submit_job orchestrator "j3" request open_world).1
      response
submit_job-Submitted_example =
    submit_job-Submitted orchestrator "j3" request open_world response returned
