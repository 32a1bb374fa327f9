-- ===== src/Store.antt =====
-- The tables that the job lifecycle reads and writes (internal/store/migrations), and the state
-- that an operation of the orchestrator runs on. Nullable columns are options, times are
-- nanoseconds, and the ids, UUIDs in the database, are texts.
pub mod Sql
pub mod Effects
pub mod Atomic
pub mod Knowing
pub mod Rows
pub mod Counts
pub mod Clocked
pub mod Returns
use so_ho_link.Base.{ℕ, String, ℤ, Bool, Option, List, equality_of_discrete, Equality}
use so_ho_link.Registry.{NodeRegistry}
use so_ho_link.Operator.Tables.{OperatorTables}

-- Byte strings: tokens, hashes and image references.
abbrev pub Bytes : Type 0
Bytes = List ℕ

-- The enum job_status, with the values that its migrations add.
pub data Status : Type 0 where
  pending scheduled running completed failed disputed : Status
  awaiting_confirmation declined : Status
  dispatched awaiting_pickup picked_up delivered : Status

unfoldable pub status_discrete : Discrete Status
status_discrete = hlevel

instance abbrev pub status_equality : Equality Status
status_equality = equality_of_discrete status_discrete

pub record Job : Type 0 where
  pub id : String
  pub participant_id : Option String
  pub node_id : Option String
  pub workload_type : String
  pub status : Status
  pub country_constraint : Option String
  pub cpu_cores : Option ℤ
  pub ram_mb : Option ℤ
  pub storage_gb : Option ℤ
  pub gpu_required : Bool
  pub container_image : Option Bytes
  pub job_token : Option Bytes
  pub printer_id : Option String
  pub spec_hash : Option Bytes
  pub payment_intent_id : Option String
  pub exit_code : Option ℤ
  pub failure_cause : Option String
  pub confirmation_deadline : Option ℕ
  pub confirmed_at : Option ℕ
  pub declined_at : Option ℕ
  pub started_at : Option ℕ
  pub completed_at : Option ℕ
  pub awaiting_pickup_at : Option ℕ
  pub picked_up_at : Option ℕ
  pub delivered_at : Option ℕ
  pub updated_at : ℕ

-- The columns of nodes and participants that placement reads.
pub record NodeRow : Type 0 where
  pub id : String
  pub participant_id : String

pub record ParticipantRow : Type 0 where
  pub id : String
  pub country_code : Option String
  pub region : Option String
  pub stripe_account_id : Option String

pub record PrinterRow : Type 0 where
  pub node_id : String
  pub printer_id : String
  pub enabled : Bool

pub record DeclineRow : Type 0 where
  pub job_id : String
  pub node_id : String

-- A row of node_protocol_keys.
pub record KeyRow : Type 0 where
  pub node_id : String
  pub public_key : Bytes
  pub last_listing_seq : ℕ
  pub last_heartbeat_seq : ℕ

pub record Db : Type 0 where
  pub jobs : List Job
  pub declines : List DeclineRow
  pub nodes : List NodeRow
  pub participants : List ParticipantRow
  pub printers : List PrinterRow
  pub keys : List KeyRow
  pub registered : OperatorTables

-- What a demand-sounding record reports of a request; the sink's projection is not modelled here.
pub data Sounding : Type 0 where
  placement : String → Sounding
  rejection : Sounding

-- The database, the registry, the clock, and the fate of the coming statements: `true` makes the
-- next statement, begin or commit fail with a database error, and past the list all succeed.
pub record World : Type 0 where
  pub db : Db
  pub registry : NodeRegistry
  pub soundings : List Sounding
  pub metered : List String  -- the jobs that ComputeMetering was called for, the last first
  pub now : ℕ
  pub faults : List Bool
