-- ===== src/Store/Returns.antt =====
-- What holds of the tables and the registry when an operation returns, by one rule for each way to
-- build an operation.
use so_ho_link.Base.{
  ◌≡◌, ◌∙◌, refl, sym, ap, subst, inl, inr, Bool, true, false, Option, none, some, ◌∷◌, Bool-cases,
}
use so_ho_link.Registry.{NodeRegistry}
use so_ho_link.Store.{Db, World, Job}
use so_ho_link.Store.Sql.{
  Error, Result, ok, err, M, pure, fail, gets, require, guard, after_result, ◌>>=◌, faulty,
  next_fault, transaction, finish, change_world, query, insert_job, insert_row, find_job, with_jobs,
  update_jobs, update_where, attempt,
}
use so_ho_link.Store.Effects.{Moves, Course, Same}

pub err_ok : {A : Type 0} {e : Error} {a : A} → ◌≡◌ {A = Result A} (err e) (ok a) → ⊥
err_ok h = cc

pub ok_same : {A : Type 0} {a b : A} → ok a ≡ ok b → a ≡ b
ok_same h = cc

-- A statement about tables and registry.
abbrev pub Fact : Type 1
Fact = Db → NodeRegistry → Type 0

-- Where `m` starts with `P` and returns, it ends with `Q` of its result.
pub record Yields {A : Type 0} (P : Fact) (m : M A) (Q : A → Fact) : Type 0 where
  pub at :
      (w : World) {a : A} → P w.db w.registry → (m w).0 ≡ ok a → Q a (m w).1.db (m w).1.registry

module _ {A B : Type 0} where
  after_Yields :
      (f : A → M B) (r : Result A) (v : World) (Q : A → Fact) (S : B → Fact) {b : B}
      → ((a : A) → r ≡ ok a → Q a v.db v.registry)
      → ((a : A) → Yields (Q a) (f a) S)
      → (after_result f r v).0 ≡ ok b
      → S b (after_result f r v).1.db (after_result f r v).1.registry
  after_Yields f (ok a) v Q S q next h = (next a).at v (q a refl) h
  after_Yields f (err e) v Q S q next h = absurd (err_ok h)

  pub Yields-bind :
      (P : Fact) (m : M A) (f : A → M B) (Q : A → Fact) (S : B → Fact)
      → Yields P m Q
      → ((a : A) → Yields (Q a) (f a) S)
      → Yields P (m >>= f) S
  unfolding ◌>>=◌
  Yields-bind P m f Q S first next = record {
    at = λ w p h. after_Yields f (m w).0 (m w).1 Q S (λ a e. first.at w p e) next h;
  }

module _ {A : Type 0} (P : Fact) where
  -- What keeps tables and registry keeps every fact about them.
  pub Yields-Same : (m : M A) → Moves Same m → Yields P m (λ a. P)
  Yields-Same m same = record {
    at = λ w {a} p h.
        subst (λ d. P d (m w).1.registry) (sym (same.at w).db)
          (subst (P w.db) (sym (same.at w).registry) p);
  }

  pub Yields-pure :
      (Q : A → Fact) (a : A) → ((d : Db) (r : NodeRegistry) → P d r → Q a d r) → Yields P (pure a) Q
  unfolding pure
  Yields-pure Q a k = record {
    at = λ w p h. subst (λ x. Q x w.db w.registry) (ok_same h) (k w.db w.registry p);
  }

  pub Yields-require :
      (o : Option A) (e : Error) → Yields P (require o e) (λ a d r. P d r × (o ≡ some a))
  unfolding require pure fail
  Yields-require none e = record { at = λ w p h. absurd (err_ok h) }
  Yields-require (some a) e = record { at = λ w p h. (p, ap (λ x. some x) (ok_same h)) }

  pub Yields-query : (f : Db → A) → Yields P (query f) (λ a d r. P d r × (a ≡ f d))
  unfolding query attempt
  Yields-query f = record {
    at = λ w p h. elim (Bool-cases (faulty w.faults)) [
      | inl bad ↦ absurd (err_ok (rw bad at h))
      | inr good ↦ rw good (p, sym (ok_same (rw good at h)))
    ];
  }

  pub Yields-fail : (e : Error) (Q : A → Fact) → Yields P (fail e) Q
  unfolding fail
  Yields-fail e Q = record { at = λ w p h. absurd (err_ok h) }

  pub Yields-gets :
      (f : World → A) (Q : A → Fact)
      → ((w : World) → P w.db w.registry → Q (f w) w.db w.registry)
      → Yields P (gets f) Q
  unfolding gets
  Yields-gets f Q k = record { at = λ w p h. subst (λ x. Q x w.db w.registry) (ok_same h) (k w p) }

  pub Yields-imply :
      (m : M A) (Q S : A → Fact)
      → Yields P m Q
      → ((a : A) (d : Db) (r : NodeRegistry) → Q a d r → S a d r)
      → Yields P m S
  Yields-imply m Q S k i = record { at = λ w {a} p h. i a (m w).1.db (m w).1.registry (k.at w p h) }

  -- A fact that is not about the world is known, and stays.
  pub Yields-given :
      (E : Type 0) (m : M A) (Q : A → Fact) → (E → Yields P m Q) → Yields (λ d r. P d r × E) m Q
  Yields-given E m Q k = record { at = λ w p h. (k p.1).at w p.0 h }

  pub Yields-frame :
      (E : Type 0) (m : M A) (Q : A → Fact)
      → Yields P m Q
      → Yields (λ d r. P d r × E) m (λ a d r. Q a d r × E)
  Yields-frame E m Q k = record { at = λ w p h. (k.at w p.0 h, p.1) }

  finish_Yields :
      (before : Db) (r : Result A) (v : World) (Q : A → Fact) {a : A}
      → (r ≡ ok a → Q a v.db v.registry)
      → (finish before r v).0 ≡ ok a
      → Q a (finish before r v).1.db (finish before r v).1.registry
  finish_Yields before (err e) v Q q h = absurd (err_ok h)
  finish_Yields before (ok a) v Q q h = elim (Bool-cases (faulty v.faults)) [
    | inl bad ↦ absurd (err_ok (rw bad at h))
    | inr good ↦ rw good (q (rw good at h))
  ]

  pub Yields-transaction :
      (body : M A) (Q : A → Fact) → Yields P body Q → Yields P (transaction body) Q
  unfolding transaction
  Yields-transaction body Q k = record {
    at = λ w p h. elim (Bool-cases (faulty w.faults)) [
      | inl bad ↦ absurd (err_ok (rw bad at h))
      | inr good ↦ rw good (
          finish_Yields w.db (body (next_fault w)).0 (body (next_fault w)).1 Q
            (k.at (next_fault w) p) (rw good at h))
    ];
  }

module _ (P : Fact) where
  pub Yields-guard : (b : Bool) (e : Error) → Yields P (guard b e) (λ u d r. P d r × (b ≡ true))
  unfolding guard pure fail
  Yields-guard true e = record { at = λ w p h. (p, refl) }
  Yields-guard false e = record { at = λ w p h. absurd (err_ok h) }

  pub Yields-change :
      (f : World → World) (Q : Fact)
      → ((w : World) → P w.db w.registry → Q (f w).db (f w).registry)
      → Yields P (change_world f) (λ u. Q)
  unfolding change_world
  Yields-change f Q k = record { at = λ w p h. k w p }

  inserted_at :
      (job : Job) (o : Option Job) (w : World) {u : Unit {0}} (Q : Fact)
      → Q (with_jobs (job ∷ w.db.jobs) w).db w.registry
      → (insert_row job o w).0 ≡ ok u
      → Q (insert_row job o w).1.db (insert_row job o w).1.registry
  inserted_at job none w Q q h = q
  inserted_at job (some j) w Q q h = absurd (err_ok h)

  pub Yields-insert :
      (job : Job) (Q : Fact)
      → ((w : World) → P w.db w.registry → Q (with_jobs (job ∷ w.db.jobs) w).db w.registry)
      → Yields P (insert_job job) (λ u. Q)
  unfolding insert_job
  Yields-insert job Q k = record {
    at = λ w p h. elim (Bool-cases (faulty w.faults)) [
      | inl bad ↦ absurd (err_ok (rw bad at h))
      | inr good ↦ rw good (
          inserted_at job (find_job job.id w.db.jobs) (next_fault w) Q (k (next_fault w) p)
            (rw good at h))
    ];
  }

  pub Yields-update :
      (test : Job → Bool) (change : Job → Job) (Q : Fact)
      → ((w : World)
          → P w.db w.registry
          → Q (with_jobs (update_where test change w.db.jobs) w).db w.registry)
      → Yields P (update_jobs test change) (λ n. Q)
  unfolding update_jobs attempt
  Yields-update test change Q k = record {
    at = λ w p h. elim (Bool-cases (faulty w.faults)) [
      | inl bad ↦ absurd (err_ok (rw bad at h))
      | inr good ↦ rw good (k (next_fault w) p)
    ];
  }

-- The tables as they were.
pub record SameTables (v w : World) : Type 0 where
  pub db : w.db ≡ v.db

pub tables_course : Course SameTables
tables_course = record {
  stay = λ w. record { db = refl };
  join = λ u v w p q. record { db = q.db ∙ p.db };
  fault = λ w. record { db = refl };
  restore = λ u v p. record { db = refl };
}

-- What keeps the tables keeps every fact about them alone.
pub Yields-SameTables :
    {A : Type 0} (F : Db → Type 0) (m : M A)
    → Moves SameTables m
    → Yields (λ d r. F d) m (λ a d r. F d)
Yields-SameTables F m same = record { at = λ w p h. subst F (sym (same.at w).db) p }
