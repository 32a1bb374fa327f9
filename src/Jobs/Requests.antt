-- ===== src/Jobs/Requests.antt =====
-- What SubmitJob is given and returns, and what the orchestrator is built from
-- (internal/orchestrator/orchestrator.go).
use so_ho_link.Base.{ℕ, ◌*◌, String, ℤ, Bool, Option, List}
use so_ho_link.Registry.{NodeEntry}
use so_ho_link.Allowlist.{Allowlist}
use so_ho_link.Token.{Crypto}
use so_ho_link.Store.{Bytes}

pub record PlacementContext : Type 0 where
  pub requester_participant_id : String
  pub requester_region : String
  pub requester_country : String

pub record SubmitJobRequest : Type 0 where
  pub consumer_id : String
  pub workload_type : String
  pub container_image : Bytes
  pub country_constraint : String
  pub cpu_cores : ℤ
  pub ram_mb : ℤ
  pub gpu_required : Bool
  pub storage_gb : ℤ

pub record SubmitJobResponse : Type 0 where
  pub job_id : String
  pub node_id : String
  pub job_token : Bytes
  pub provider_stripe_account_id : String

-- The spec that canonicalJobSpecHash marshals, in its order of fields.
pub record JobSpec : Type 0 where
  pub workload_type : String
  pub container_image : Bytes
  pub cpu_cores : ℤ
  pub ram_mb : ℤ
  pub storage_gb : ℤ
  pub gpu_required : Bool
  pub country_constraint : String

-- What New is given. The injected ScheduleFunc, the file behind loadAllowlist (`none` if it cannot
-- be read or parsed) and the JSON and SHA-256 of a spec are values and functions here.
pub record Orchestrator : Type 0 where
  pub allowlist : Option Allowlist
  pub schedule : List NodeEntry → ℕ → PlacementContext → Option (List NodeEntry)
  pub crypto : Crypto
  pub token_secret : Bytes
  pub digest_spec : JobSpec → Option Bytes
  pub print_confirm_enabled : Bool
  pub confirmation_window : ℕ

abbrev pub sla_standard : ℕ
sla_standard = 1

abbrev pub job_token_ttl : ℕ
job_token_ttl = 24 * 3600 * 1_000_000_000
