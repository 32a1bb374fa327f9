-- ===== src/Jobs/Tests.antt =====
-- A small deployment, and the theorems on jobs at it.
use so_ho_link.Operator.Tables.{no_operators}
use so_ho_link.Base.{
  ◌≡◌, refl, subst, pos, Bool, true, false, none, some, [], ◌∷◌, ◌++◌, text_equality,
}
use so_ho_link.Allowlist.{Allowlist, lookup_image}
use so_ho_link.Allowlist.Digest.{Judges, lookup_image-Judges}
use so_ho_link.Token.{Crypto}
use so_ho_link.Store.{
  Bytes, Job, World, status_discrete, awaiting_confirmation, declined, completed,
}
use so_ho_link.Store.Sql.{
  find_job, pure, fail, gets, require, attempt, query, or_else, rescue, transaction, guard, ◌>>=◌,
  update_returning, insert_decline,
}
use so_ho_link.Store.Atomic.{Atomic}
use so_ho_link.Jobs.Requests.{SubmitJobRequest, Orchestrator}
use so_ho_link.Jobs.Submit.{is_print, submit_job, find_node, clock}
use so_ho_link.Jobs.Submit.Atomic.{submit_job-Atomic}
use so_ho_link.Jobs.Portal.{
  handle_job_confirm_action, found_or_404, provider_job, confirm_or_decline, decline_print,
  decline_rows,
}
use so_ho_link.Jobs.Protocol.{Protocol}
use so_ho_link.Jobs.Lifecycle.{Evolves}
use so_ho_link.Jobs.Lifecycle.Runs.{Op, Runs, mode, perform, Runs-Evolves}
use so_ho_link.Jobs.Lifecycle.Diagram.{is_unconfirmed, fits}
use so_ho_link.Jobs.Lifecycle.Outcomes.{final-status, unconfirmed-print, job-fits}

pub some_same : {j k : Job} → some j ≡ some k → j ≡ k
some_same h = cc

-- Parameters that are good enough to run: a text is its own encoding, a secret a prefix.
abbrev pub plain_crypto : Crypto
plain_crypto = record { encode = λ b. b; decode = λ b. some b; hmac = λ s b. s ++ b }

abbrev web_digest : Bytes
web_digest = b's' ∷ b'h' ∷ b'a' ∷ b'2' ∷ b'5' ∷ b'6' ∷ b':' ∷ b'7' ∷ []

abbrev web_image : Bytes
web_image = b'w' ∷ b'@' ∷ web_digest

abbrev allowlist : Allowlist
allowlist = record {
  version = 1;
  issued_at = 0;
  entries =
      record {
        name = "web";
        digest = web_digest;
        workload = "compute";
        egress = "none";
        allowed_destinations = [];
        device_access = [];
      }
      ∷ [];
  signature = [];
}

abbrev pub orchestrator : Orchestrator
orchestrator = record {
  allowlist = some allowlist;
  schedule = λ nodes sla pctx. some nodes;
  crypto = plain_crypto;
  token_secret = 7 ∷ [];
  digest_spec = λ spec. some spec.container_image;
  print_confirm_enabled = true;
  confirmation_window = 1000;
}

abbrev pub protocol : Protocol
protocol = record {
  binds_to = λ path node. true;
  verify_decline = λ d key. true;
  verify_report = λ r key. true;
}

abbrev pub old_print : Job
old_print = record {
  id = "j1";
  participant_id = some "bob";
  node_id = some "n1";
  workload_type = "print_3d";
  status = awaiting_confirmation;
  country_constraint = none;
  cpu_cores = some (pos 1);
  ram_mb = some (pos 512);
  storage_gb = some (pos 1);
  gpu_required = false;
  container_image = some web_image;
  job_token = some (1 ∷ []);
  printer_id = some "p1";
  spec_hash = some (2 ∷ []);
  payment_intent_id = none;
  exit_code = none;
  failure_cause = none;
  confirmation_deadline = some 500;
  confirmed_at = none;
  declined_at = none;
  started_at = none;
  completed_at = none;
  awaiting_pickup_at = none;
  picked_up_at = none;
  delivered_at = none;
  updated_at = 100;
}

abbrev pub old_batch : Job
old_batch = record old_print { id = "j2"; workload_type = "batch_compute"; status = completed }

abbrev pub world : World
world = record {
  db = record {
    jobs = old_print ∷ old_batch ∷ [];
    registered = no_operators;
    declines = [];
    nodes = record { id = "n1"; participant_id = "alice" } ∷ [];
    participants = [];
    printers = [];
    keys = [];
  };
  registry = [];
  soundings = [];
  metered = [];
  now = 1_000;
  faults = [];
}

abbrev pub request : SubmitJobRequest
request = record {
  consumer_id = "bob";
  workload_type = "batch_compute";
  container_image = web_image;
  country_constraint = "";
  cpu_cores = pos 1;
  ram_mb = pos 512;
  gpu_required = false;
  storage_gb = pos 1;
}

lookup_image-Judges_example : Judges allowlist web_image (lookup_image allowlist web_image)
lookup_image-Judges_example = lookup_image-Judges allowlist web_image

submit_job-Atomic_example : Atomic (submit_job orchestrator "j3" request)
submit_job-Atomic_example = submit_job-Atomic orchestrator "j3" request

-- A tick, the node's poll, and a confirmation by a user that is not the owner.
abbrev after_tick : World
after_tick = perform orchestrator protocol Op.ticks world

abbrev after_poll : World
after_poll = perform orchestrator protocol (Op.polls none "n1") after_tick

abbrev after_answer : World
after_answer = perform orchestrator protocol (Op.answers "mallory" "j1" "decline") after_poll

quiet_run : (b : Bool) → Runs orchestrator protocol b world after_answer
quiet_run b =
    Runs.performs Op.ticks (λ h. cc)
      (Runs.performs (Op.polls none "n1") (λ h. cc)
        (Runs.performs (Op.answers "mallory" "j1" "decline") (λ h. cc) Runs.done))

Runs-Evolves_example : Evolves (mode orchestrator protocol false) world after_answer
Runs-Evolves_example = Runs-Evolves orchestrator protocol false (quiet_run false)

final-status_example :
    (k : Job) × (find_job "j2" after_answer.db.jobs ≡ some k)
    × (k.status ≡ completed)
    × (k.id ≡ "j2")
    × (k.workload_type ≡ "batch_compute")
    × (k.participant_id ≡ some "bob")
final-status_example =
    final-status orchestrator protocol true "j2" {j = old_batch} (quiet_run true) refl refl

-- The owner's refusal.
abbrev after_refusal : World
after_refusal = perform orchestrator protocol (Op.answers "alice" "j1" "decline") world

abbrev refused : Job
refused = record old_print { status = declined; declined_at = some 1_000 }

refusal_found : find_job "j1" after_refusal.db.jobs ≡ some refused
unfolding perform handle_job_confirm_action found_or_404 provider_job find_node confirm_or_decline
    decline_print decline_rows clock pure fail gets require attempt query or_else rescue transaction
    guard ◌>>=◌ update_returning insert_decline status_discrete
refusal_found = refl

one_answer : Runs orchestrator protocol false world after_refusal
one_answer = Runs.performs (Op.answers "alice" "j1" "decline") (λ h. cc) Runs.done

were_unconfirmed : (j : Job) → find_job "j1" world.db.jobs ≡ some j → is_unconfirmed j.status ≡ true
were_unconfirmed j h = subst (λ x. is_unconfirmed x.status ≡ true) (some_same h) refl

did_fit :
    (j : Job)
    → find_job "j1" world.db.jobs ≡ some j
    → fits (is_print j.workload_type) j.status ≡ true
unfolding is_print
did_fit j h = subst (λ x. fits (is_print x.workload_type) x.status ≡ true) (some_same h) refl

refused_print : is_print refused.workload_type ≡ true
unfolding is_print
refused_print = refl

unconfirmed-print_example : is_unconfirmed refused.status ≡ true
unconfirmed-print_example =
    unconfirmed-print orchestrator protocol "j1" {k = refused} refl one_answer were_unconfirmed
      refusal_found refused_print

job-fits_example : fits (is_print refused.workload_type) refused.status ≡ true
job-fits_example =
    job-fits orchestrator protocol false "j1" {k = refused} one_answer did_fit refusal_found
