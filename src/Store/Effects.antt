-- ===== src/Store/Effects.antt =====
-- What an operation may do to the world, by one rule for each way to build an operation.
use so_ho_link.Base.{
  ◌∷◌, String, ◌≡◌, refl, ◌∙◌, inl, inr, Bool, true, false, Option, none, some, Bool-cases,
  if◌then◌else◌,
}
use so_ho_link.Store.{Job, Db, World}
use so_ho_link.Store.Sql.{
  Error, Result, ok, err, M, pure, fail, gets, after_result, ◌>>=◌, require, guard, faulty,
  next_fault, attempt, query, finish, transaction, change_world, or_else, recover, rescue,
  update_returning, first_where, insert_decline, insert_decline_row, record_decline, add_decline,
  has_decline, update_jobs, insert_job, insert_row, find_job, with_jobs, update_where, count_where,
}

-- Every run of `m`, whether it returns or fails, moves the world along `R`.
pub record Moves {A : Type 0} (R : World → World → Type 0) (m : M A) : Type 0 where
  pub at : (w : World) → R w (m w).1

-- A relation along which whole operations compose, and that the fate of statements is no part of.
pub record Course (R : World → World → Type 0) : Type 0 where
  pub stay : (w : World) → R w w
  pub join : (u v w : World) → R u v → R v w → R u w
  pub fault : (w : World) → R w (next_fault w)
  pub restore : (u v : World) → R u v → R u (record v { db = u.db })

module _ {A : Type 0} {R : World → World → Type 0} (c : Course R) where
  pub Moves-pure : (a : A) → Moves R (pure a)
  unfolding pure
  Moves-pure a = record { at = c.stay }

  pub Moves-fail : (e : Error) → Moves R (fail {A = A} e)
  unfolding fail
  Moves-fail e = record { at = c.stay }

  pub Moves-gets : (f : World → A) → Moves R (gets f)
  unfolding gets
  Moves-gets f = record { at = c.stay }

  pub Moves-require : (o : Option A) (e : Error) → Moves R (require o e)
  unfolding require
  Moves-require none e = record { at = c.stay }
  Moves-require (some a) e = record { at = c.stay }

  pub Moves-query : (f : Db → A) → Moves R (query f)
  unfolding query
  Moves-query f = record {
    at = λ w. elim (Bool-cases (faulty w.faults)) [
      | inl bad ↦ rw bad (c.fault w)
      | inr good ↦ rw good (c.fault w)
    ];
  }

  pub Moves-or_else : (m : M A) (e : Error) → Moves R m → Moves R (or_else m e)
  unfolding or_else
  Moves-or_else m e k = record { at = λ w. k.at w }

  pub Moves-recover : (d : A) (m : M A) → Moves R m → Moves R (recover d m)
  unfolding recover
  Moves-recover d m k = record { at = λ w. k.at w }

  pub Moves-rescue : (judge : Result A → Result A) (m : M A) → Moves R m → Moves R (rescue judge m)
  unfolding rescue
  Moves-rescue judge m k = record { at = λ w. k.at w }

  pub Moves-if : (b : Bool) (m n : M A) → Moves R m → Moves R n → Moves R (if b then m else n)
  Moves-if true m n km kn = km
  Moves-if false m n km kn = kn

  -- A branch knows how the test came out.
  pub Moves-branch :
      (b : Bool) (m n : M A)
      → (b ≡ true → Moves R m)
      → (b ≡ false → Moves R n)
      → Moves R (if b then m else n)
  Moves-branch true m n km kn = km refl
  Moves-branch false m n km kn = kn refl

module _ {A B : Type 0} {R : World → World → Type 0} (c : Course R) where
  bind_at :
      (f : A → M B) (w : World) (r : Result A) (v : World)
      → ((a : A) → Moves R (f a))
      → R w v
      → R w (after_result f r v).1
  bind_at f w (ok a) v kf h = c.join w v _ h ((kf a).at v)
  bind_at f w (err e) v kf h = h

  pub Moves-bind :
      (m : M A) (f : A → M B) → Moves R m → ((a : A) → Moves R (f a)) → Moves R (m >>= f)
  unfolding ◌>>=◌
  Moves-bind m f km kf = record { at = λ w. bind_at f w (m w).0 (m w).1 kf (km.at w) }

pub Moves-guard :
    {R : World → World → Type 0} (c : Course R) (b : Bool) (e : Error) → Moves R (guard b e)
unfolding guard
Moves-guard c true e = record { at = c.stay }
Moves-guard c false e = record { at = c.stay }

module _ {A : Type 0} {R : World → World → Type 0} (c : Course R) where
  pub Moves-attempt : (f : World → A × World) → ((w : World) → R w (f w).1) → Moves R (attempt f)
  unfolding attempt
  Moves-attempt f k = record {
    at = λ w. elim (Bool-cases (faulty w.faults)) [
      | inl bad ↦ rw bad (c.fault w)
      | inr good ↦ rw good (c.join w (next_fault w) _ (c.fault w) (k (next_fault w)))
    ];
  }

  finish_at : (w : World) (r : Result A) (v : World) → R w v → R w (finish w.db r v).1
  finish_at w (err e) v h = c.restore w v h
  finish_at w (ok a) v h = elim (Bool-cases (faulty v.faults)) [
    | inl bad ↦ rw bad (c.restore w (next_fault v) (c.join w v (next_fault v) h (c.fault v)))
    | inr good ↦ rw good (c.join w v (next_fault v) h (c.fault v))
  ]

  pub Moves-transaction : (body : M A) → Moves R body → Moves R (transaction body)
  unfolding transaction
  Moves-transaction body k = record {
    at = λ w.
        let started : R w (body (next_fault w)).1 =
          c.join w (next_fault w) _ (c.fault w) (k.at (next_fault w)) in
        elim (Bool-cases (faulty w.faults)) [
          | inl bad ↦ rw bad (c.fault w)
          | inr good ↦ rw good (finish_at w (body (next_fault w)).0 (body (next_fault w)).1 started)
        ];
  }

module _ {R : World → World → Type 0} (c : Course R) where
  pub Moves-change : (f : World → World) → ((w : World) → R w (f w)) → Moves R (change_world f)
  unfolding change_world
  Moves-change f k = record { at = k }

  pub Moves-update :
      (test : Job → Bool) (change : Job → Job)
      → ((w : World) → R w (with_jobs (update_where test change w.db.jobs) w))
      → Moves R (update_jobs test change)
  unfolding update_jobs
  Moves-update test change k =
      Moves-attempt c
        (λ w. (count_where test w.db.jobs, with_jobs (update_where test change w.db.jobs) w)) k

  insert_at :
      (job : Job) (o : Option Job) (w : World)
      → (o ≡ none → R w (with_jobs (job ∷ w.db.jobs) w))
      → R w (insert_row job o w).1
  insert_at job none w k = k refl
  insert_at job (some j) w k = c.stay w

  pub Moves-insert :
      (job : Job)
      → ((w : World) → find_job job.id w.db.jobs ≡ none → R w (with_jobs (job ∷ w.db.jobs) w))
      → Moves R (insert_job job)
  unfolding insert_job
  Moves-insert job k = record {
    at = λ w. elim (Bool-cases (faulty w.faults)) [
      | inl bad ↦ rw bad (c.fault w)
      | inr good ↦ rw good (
          c.join w (next_fault w) _ (c.fault w)
            (insert_at job (find_job job.id w.db.jobs) (next_fault w) (k (next_fault w))))
    ];
  }

  pub Moves-returning :
      (test : Job → Bool) (change : Job → Job)
      → ((w : World) → R w (with_jobs (update_where test change w.db.jobs) w))
      → Moves R (update_returning test change)
  unfolding update_returning
  Moves-returning test change k =
      Moves-attempt c
        (λ w. (first_where test w.db.jobs, with_jobs (update_where test change w.db.jobs) w)) k

  decline_at :
      (job node : String) (w : World)
      → R w (add_decline job node w)
      → R w (insert_decline_row job node w).1
  decline_at job node w k = elim (Bool-cases (has_decline job node w.db.declines)) [
    | inl there ↦ rw there (c.stay w)
    | inr absent ↦ rw absent k
  ]

  pub Moves-insert_decline :
      (job node : String)
      → ((w : World) → R w (add_decline job node w))
      → Moves R (insert_decline job node)
  unfolding insert_decline
  Moves-insert_decline job node k = record {
    at = λ w. elim (Bool-cases (faulty w.faults)) [
      | inl bad ↦ rw bad (c.fault w)
      | inr good ↦ rw good (
          c.join w (next_fault w) _ (c.fault w)
            (decline_at job node (next_fault w) (k (next_fault w))))
    ];
  }

  recorded_at :
      (b : Bool) (job node : String) (w : World)
      → R w (add_decline job node w)
      → R w (if b then w else add_decline job node w)
  recorded_at true job node w k = c.stay w
  recorded_at false job node w k = k

  pub Moves-record_decline :
      (job node : String)
      → ((w : World) → R w (add_decline job node w))
      → Moves R (record_decline job node)
  unfolding record_decline
  Moves-record_decline job node k =
      Moves-attempt c _ (λ w. recorded_at (has_decline job node w.db.declines) job node w (k w))

pub ruleset moves = (
  Moves-pure, Moves-fail, Moves-gets, Moves-require, Moves-query, Moves-or_else, Moves-recover,
  Moves-if, Moves-bind, Moves-guard,
)

-- Tables and registry as they were.
pub record Same (v w : World) : Type 0 where
  pub db : w.db ≡ v.db
  pub registry : w.registry ≡ v.registry

pub Same-Course : Course Same
Same-Course = record {
  stay = λ w. record { db = refl; registry = refl };
  join = λ u v w p q. record { db = q.db ∙ p.db; registry = q.registry ∙ p.registry };
  fault = λ w. record { db = refl; registry = refl };
  restore = λ u v p. record { db = refl; registry = p.registry };
}

-- The registry as it was.
pub record SameRegistry (v w : World) : Type 0 where
  pub registry : w.registry ≡ v.registry

pub registry_course : Course SameRegistry
registry_course = record {
  stay = λ w. record { registry = refl };
  join = λ u v w p q. record { registry = q.registry ∙ p.registry };
  fault = λ w. record { registry = refl };
  restore = λ u v p. record { registry = p.registry };
}
