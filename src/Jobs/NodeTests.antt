-- ===== src/Jobs/NodeTests.antt =====
-- The theorems on what nodes send and receive, at the small deployment.
use so_ho_link.Base.{
  ◌≡◌, refl, true, false, some, List, [], ◌∷◌, pos, arith, All, text_equality, number_equality,
}
use so_ho_link.Store.{Job, World, KeyRow, status_discrete, scheduled, dispatched, running}
use so_ho_link.Store.Sql.{ok, find_job, pure, fail, gets, attempt, query, guard, ◌>>=◌, update_jobs}
use so_ho_link.Jobs.Submit.{find_node, is_print, clock}
use so_ho_link.Jobs.Dispatch.{
  DispatchedJob, not_self_print, is_due, dispatched_job, due_jobs, is_any, is_claimed, claim,
  claim_if_any, poll_scheduled_jobs,
}
use so_ho_link.Jobs.Dispatch.Poll.{Due, poll_scheduled_jobs-Due}
use so_ho_link.Jobs.Protocol.{JobReport, find_key, bump_seq, mark_running, clamp_started}
use so_ho_link.Jobs.Protocol.Replay.{Bump, after_bumps, bump_seq-no_replay, bump_seq-accepts}
use so_ho_link.Jobs.Protocol.Window.{StartsWithin, mark_running-StartsWithin}
use so_ho_link.Jobs.Tests.{old_print, old_batch, world}

-- Bob's print and batch job wait for Alice's node; her own print does too.
abbrev first_key : KeyRow
first_key = record { node_id = "n1"; public_key = []; last_listing_seq = 3; last_heartbeat_seq = 9 }

abbrev due_world : World
due_world = record world {
  db = record world.db {
    jobs =
        record old_print { status = scheduled }
        ∷ record old_print { id = "j5"; status = scheduled; participant_id = some "alice" }
        ∷ record old_batch { status = scheduled }
        ∷ [];
    keys = first_key ∷ [];
  };
}

abbrev handed_out : List DispatchedJob
handed_out =
    dispatched_job (record old_print { status = scheduled })
    ∷ dispatched_job (record old_batch { status = scheduled })
    ∷ []

polled : (poll_scheduled_jobs "n1" due_world).0 ≡ ok handed_out
unfolding poll_scheduled_jobs claim_if_any claim due_jobs is_due not_self_print dispatched_job
    find_node is_print is_any is_claimed clock pure gets query attempt ◌>>=◌ update_jobs
    status_discrete
polled = refl

poll_scheduled_jobs-Due_example : All (Due "n1" due_world.db) handed_out
poll_scheduled_jobs-Due_example = poll_scheduled_jobs-Due "n1" due_world handed_out polled

accepted : (bump_seq "n1" false 10 due_world).0 ≡ ok tt
unfolding bump_seq attempt guard pure fail ◌>>=◌
accepted = refl

-- A higher number, one on the other counter, and one of a node without a key.
abbrev between : List Bump
between =
    record { node = "n1"; listing = false; seq = 12 }
    ∷ record { node = "n1"; listing = true; seq = 4 }
    ∷ record { node = "n9"; listing = false; seq = 1 }
    ∷ []

bump_seq-no_replay_example : ¬ (
    (bump_seq "n1" false 10 (after_bumps between (bump_seq "n1" false 10 due_world).1)).0 ≡ ok tt)
bump_seq-no_replay_example =
    bump_seq-no_replay "n1" false 10 10 between due_world (omega arith) accepted

key_found : find_key "n1" due_world.db.keys ≡ some first_key
unfolding find_key
key_found = refl

bump_seq-accepts_example : (bump_seq "n1" true 4 due_world).0 ≡ ok tt
bump_seq-accepts_example =
    bump_seq-accepts "n1" true 4 due_world {k = first_key} key_found refl refl refl

-- A node that backdates its start to before the handing out.
abbrev backdated : JobReport
backdated = record {
  node_id = "n1";
  job_id = "j2";
  started_at = 5;
  exit_code = pos 0;
  failure_cause = "";
  tmpfs_exhausted = false;
  signature = [];
}

abbrev out_world : World
out_world = record world {
  db = record world.db { jobs = record old_batch { status = dispatched } ∷ [] };
}

abbrev now_running : Job
now_running = record old_batch { status = running; started_at = some 100; updated_at = 1_000 }

marked_row : find_job "j2" (mark_running backdated out_world).1.db.jobs ≡ some now_running
unfolding mark_running clamp_started clock gets attempt ◌>>=◌ update_jobs status_discrete
marked_row = refl

mark_running-StartsWithin_example :
    StartsWithin 1_000 (record old_batch { status = dispatched }) now_running
mark_running-StartsWithin_example =
    mark_running-StartsWithin backdated out_world "j2"
      {j = record old_batch { status = dispatched }} {k = now_running} refl refl (omega arith)
      marked_row
