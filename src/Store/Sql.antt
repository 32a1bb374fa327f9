-- ===== src/Store/Sql.antt =====
-- Statements and transactions over the tables, as a monad of state and errors. What was written
-- before an error stays written, unless a transaction rolls it back.
use so_ho_link.Base.{
  ℕ, suc, ◌||◌, String, Bool, true, false, ◌&&◌, Option, none, some, List, [], ◌∷◌, ◌==◌,
  text_equality, if◌then◌else◌,
}
use so_ho_link.Store.{Job, Db, World, DeclineRow}

-- The errors of the modelled operations; `database` is any failure of a statement, and `http` a
-- handler's response with that status code.
pub data Error : Type 0 where
  database no_rows : Error
  consumer_id_required workload_type_required unknown_workload_type : Error
  allowlist_unreadable image_not_allowed no_mapping type_mismatch : Error
  no_nodes schedule_failed no_scheduled_node token_failed no_enabled_printer spec_hash_failed :
      Error
  job_not_running : Error
  no_identity identity_mismatch no_protocol_key bad_key_length bad_signature : Error
  not_assigned seq_not_monotonic : Error
  unique_violation : Error
  duplicate_operator operator_not_found keyset_count_mismatch activation_preconditions : Error
  keyset_hash_mismatch replayed operator_active bad_threshold rotation_refused : Error
  empty_session session_active rate_limited no_code code_expired session_mismatch : Error
  too_many_attempts code_mismatch : Error
  fee_unsigned fee_seq_not_monotonic fee_retroactive no_fee_declaration : Error
  run_not_found wrong_suite not_ready : Error
  http : ℕ → Error

pub data Result (A : Type 0) : Type 0 where
  ok : A → Result A
  err : Error → Result A

abbrev pub M : Type 0 → Type 0
M A = World → Result A × World

-- Does the next statement fail?
abbrev pub faulty : List Bool → Bool
faulty [] = false
faulty (f ∷ fs) = f

abbrev pub later : List Bool → List Bool
later [] = []
later (f ∷ fs) = fs

abbrev pub next_fault : World → World
next_fault w = record w { faults = later w.faults }

module _ {A : Type 0} where
  unfoldable pub pure : A → M A
  pure a w = (ok a, w)

  unfoldable pub fail : Error → M A
  fail e w = (err e, w)

  unfoldable pub gets : (World → A) → M A
  gets f w = (ok (f w), w)

  unfoldable pub require : Option A → Error → M A
  unfolding pure fail
  require none e = fail e
  require (some a) e = pure a

  -- A statement: it fails with a database error, or answers and changes the world.
  unfoldable pub attempt : (World → A × World) → M A
  attempt f w =
      if faulty w.faults
      then (err database, next_fault w)
      else (let (a, v) = f (next_fault w) in (ok a, v))

  unfoldable pub query : (Db → A) → M A
  unfolding attempt
  query f = attempt (λ w. (f w.db, w))

  abbrev pub replace_error : Error → Result A → Result A
  replace_error e (ok a) = ok a
  replace_error e (err _) = err e

  -- A caller that reports every failure of a step as `e`.
  unfoldable pub or_else : M A → Error → M A
  or_else m e w = let (r, v) = m w in (replace_error e r, v)

  abbrev pub default : A → Result A → Result A
  default d (ok a) = ok a
  default d (err e) = ok d

  -- A caller that goes on with `d` when a step fails.
  unfoldable pub recover : A → M A → M A
  recover d m w = let (r, v) = m w in (default d r, v)

  -- A caller that judges the outcome of a step by itself.
  unfoldable pub rescue : (Result A → Result A) → M A → M A
  rescue judge m w = let (r, v) = m w in (judge r, v)

  abbrev pub finish : Db → Result A → World → Result A × World
  finish before (ok a) w =
      if faulty w.faults
      then (err database, record w { db = before; faults = later w.faults })
      else (ok a, next_fault w)
  finish before (err e) w = (err e, record w { db = before })

  abbrev pub begun : M A → World → Result A × World
  begun body w = let (r, v) = body w in finish w.db r v

  -- BEGIN, the body, and COMMIT; whatever fails, the deferred rollback restores the tables.
  unfoldable pub transaction : M A → M A
  transaction body w =
      if faulty w.faults then (err database, next_fault w) else begun body (next_fault w)

unfoldable pub guard : Bool → Error → M (Unit {0})
unfolding pure fail
guard true e = pure tt
guard false e = fail e

module _ {A B : Type 0} where
  abbrev pub after_result : (A → M B) → Result A → World → Result B × World
  after_result f (ok a) w = f a w
  after_result f (err e) w = (err e, w)

  infixl 5 ◌>>=◌ ◌>>◌
  unfoldable pub ◌>>=◌ : M A → (A → M B) → M B
  unfolding pure fail gets require guard query or_else recover rescue transaction
  ◌>>=◌ m f w = let (r, v) = m w in after_result f r v

  abbrev pub ◌>>◌ : M A → M B → M B
  m >> k = m >>= λ _. k

-- A change outside the database cannot fail.
unfoldable pub change_world : (World → World) → M (Unit {0})
change_world f w = (ok tt, f w)

abbrev pub with_jobs : List Job → World → World
with_jobs js w = record w { db = record w.db { jobs = js } }

-- UPDATE … SET … WHERE …, the number of rows that it affects, and the first row of a query.
module _ {Row : Type 0} where
  abbrev pub update_where : (Row → Bool) → (Row → Row) → List Row → List Row
  update_where test change [] = []
  update_where test change (j ∷ js) =
      let rest = update_where test change js in (if test j then change j else j) ∷ rest

  abbrev pub count_where : (Row → Bool) → List Row → ℕ
  count_where test [] = 0
  count_where test (j ∷ js) = let rest = count_where test js in if test j then suc rest else rest

  abbrev pub first_where : (Row → Bool) → List Row → Option Row
  first_where test [] = none
  first_where test (j ∷ js) = if test j then some j else first_where test js

unfoldable pub update_jobs : (Job → Bool) → (Job → Job) → M ℕ
unfolding attempt
update_jobs test change =
    attempt (λ w. (count_where test w.db.jobs, with_jobs (update_where test change w.db.jobs) w))

abbrev pub find_job : String → List Job → Option Job
find_job id [] = none
find_job id (j ∷ js) = if j.id == id then some j else find_job id js

abbrev pub insert_row : Job → Option Job → World → Result (Unit {0}) × World
insert_row job none w = (ok tt, with_jobs (job ∷ w.db.jobs) w)
insert_row job (some _) w = (err database, w)

-- INSERT INTO jobs; the id is the primary key.
unfoldable pub insert_job : Job → M (Unit {0})
insert_job job w =
    if faulty w.faults
    then (err database, next_fault w)
    else insert_row job (find_job job.id w.db.jobs) (next_fault w)

-- UPDATE … RETURNING: a row that was updated, as it was before; `test` picks one row at most.
unfoldable pub update_returning : (Job → Bool) → (Job → Job) → M (Option Job)
unfolding attempt
update_returning test change =
    attempt (λ w. (first_where test w.db.jobs, with_jobs (update_where test change w.db.jobs) w))

-- A statement on a table that does not hold jobs.
abbrev pub has_decline : String → String → List DeclineRow → Bool
has_decline job node [] = false
has_decline job node (d ∷ ds) = d.job_id == job && d.node_id == node || has_decline job node ds

abbrev pub add_decline : String → String → World → World
add_decline job node w = record w {
  db = record w.db { declines = record { job_id = job; node_id = node } ∷ w.db.declines };
}

abbrev pub insert_decline_row : String → String → World → Result (Unit {0}) × World
insert_decline_row job node w =
    if has_decline job node w.db.declines
    then (err database, w)
    else (ok tt, add_decline job node w)

-- INSERT INTO job_node_declines, with the pair as its primary key.
unfoldable pub insert_decline : String → String → M (Unit {0})
insert_decline job node w =
    if faulty w.faults
    then (err database, next_fault w)
    else insert_decline_row job node (next_fault w)

-- The same with ON CONFLICT DO NOTHING.
unfoldable pub record_decline : String → String → M (Unit {0})
unfolding attempt
record_decline job node =
    attempt (λ w. (tt, if has_decline job node w.db.declines then w else add_decline job node w))
