-- ===== src/Jobs/Protocol.antt =====
-- The signed path of internal/protocoladapter/adapter.go: a node declines or reports a job. The
-- binding and the signatures are the protocol library's, parameters here.
pub mod Replay
pub mod Window
use so_ho_link.Base.{
  ℕ, suc, String, ℤ, negsuc, Bool, true, false, not, ◌&&◌, ◌||◌, Option, none, some, List, [], ◌∷◌,
  ◌==◌, text_equality, number_equality, if◌then◌else◌, ltb, length,
}
use so_ho_link.Store.{Bytes, Job, KeyRow, status_equality, scheduled, dispatched, declined, running}
use so_ho_link.Store.Sql.{
  M, pure, fail, ◌>>=◌, ◌>>◌, require, guard, query, attempt, update_jobs, record_decline,
  no_identity, identity_mismatch, no_protocol_key, bad_key_length, bad_signature, not_assigned,
  seq_not_monotonic,
}
use so_ho_link.Jobs.Submit.{coalesce, clock, adjust_in_flight}
use so_ho_link.Jobs.Reroute.{read_job, is_on}
use so_ho_link.Jobs.Dispatch.{complete_job}

pub record Decline : Type 0 where
  pub node_id : String
  pub job_id : String
  pub signature : Bytes

pub record JobReport : Type 0 where
  pub node_id : String
  pub job_id : String
  pub started_at : ℕ
  pub exit_code : ℤ
  pub failure_cause : String
  pub tmpfs_exhausted : Bool
  pub signature : Bytes

-- What the protocol library does with a message: BindsTo, and Verify under a node's key.
pub record Protocol : Type 0 where
  pub binds_to : Bytes → String → Bool
  pub verify_decline : Decline → Bytes → Bool
  pub verify_report : JobReport → Bytes → Bool

abbrev pub public_key_size : ℕ
public_key_size = 32

unfoldable pub find_key : String → List KeyRow → Option KeyRow
find_key node [] = none
find_key node (k ∷ ks) = if k.node_id == node then some k else find_key node ks

unfoldable pub node_key : String → M Bytes
node_key node = do
  found ← query (λ db. find_key node db.keys)
  key ← require found no_protocol_key
  guard (length key.public_key == public_key_size) bad_key_length
  pure key.public_key

abbrev pub with_seq : Bool → ℕ → KeyRow → KeyRow
with_seq true seq k = record k { last_listing_seq = seq }
with_seq false seq k = record k { last_heartbeat_seq = seq }

abbrev pub seq_of : Bool → KeyRow → ℕ
seq_of true k = k.last_listing_seq
seq_of false k = k.last_heartbeat_seq

-- The rows that `col < seq` lets through get the new number; the count is the rows affected.
abbrev pub raise_seq : String → Bool → ℕ → List KeyRow → List KeyRow × ℕ
raise_seq node listing seq [] = ([], 0)
raise_seq node listing seq (k ∷ ks) =
    let (rest, n) = raise_seq node listing seq ks in
    if k.node_id == node && ltb (seq_of listing k) seq
    then (with_seq listing seq k ∷ rest, suc n)
    else (k ∷ rest, n)

abbrev pub max_int64 : ℕ
max_int64 = 9_223_372_036_854_775_807

unfoldable pub bump_seq : String → Bool → ℕ → M (Unit {0})
bump_seq node listing seq = do
  guard (not (ltb max_int64 seq)) seq_not_monotonic
  rows ← attempt (λ w.
      let (keys, n) = raise_seq node listing seq w.db.keys in
      (n, record w { db = record w.db { keys = keys } }))
  guard (not (rows == 0)) seq_not_monotonic

abbrev pub is_declinable : String → String → Job → Bool
is_declinable id node j =
    j.id == id && is_on node j && (j.status == scheduled || j.status == dispatched)

unfoldable pub record_refusal : ℕ → String → String → M (Unit {0})
record_refusal rows id node =
    if rows == 0 then pure tt else (do record_decline id node; adjust_in_flight node (negsuc 0))

-- LEAST(GREATEST(reported, dispatch), now)
unfoldable pub clamp_started : ℕ → ℕ → ℕ → ℕ
clamp_started reported dispatch now =
    let floor = if ltb reported dispatch then dispatch else reported in
    if ltb now floor then now else floor

unfoldable pub mark_running : JobReport → M ℕ
mark_running r = do
  now ← clock
  update_jobs (λ j. j.id == r.job_id && is_on r.node_id j && j.status == dispatched)
      (λ j. record j {
        status = running;
        started_at = some (coalesce j.started_at (clamp_started r.started_at j.updated_at now));
        updated_at = now;
      })

module _ (p : Protocol) where
  unfoldable pub bind : Option Bytes → String → M (Unit {0})
  bind none node = fail no_identity
  bind (some path) node = guard (p.binds_to path node) identity_mismatch

  unfoldable pub decline : Option Bytes → Decline → M (Unit {0})
  decline peer d = do
    bind peer d.node_id
    key ← node_key d.node_id
    guard (p.verify_decline d key) bad_signature
    now ← clock
    rows ←
        update_jobs (is_declinable d.job_id d.node_id)
          (λ j. record j { status = declined; declined_at = some now; updated_at = now })
    record_refusal rows d.job_id d.node_id

  unfoldable pub report_job : Option Bytes → JobReport → M (Unit {0})
  report_job peer r = do
    bind peer r.node_id
    key ← node_key r.node_id
    guard (p.verify_report r key) bad_signature
    j ← read_job r.job_id
    guard (coalesce j.node_id "" == r.node_id) not_assigned
    _ ← mark_running r
    _ ← complete_job r.job_id (record {
      exit_code = some r.exit_code;
      failure_cause = r.failure_cause;
      tmpfs_exhausted = r.tmpfs_exhausted;
    })
    adjust_in_flight r.node_id (negsuc 0)
