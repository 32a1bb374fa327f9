-- ===== src/Store/Knowing.antt =====
-- What an operation may do while a fact about the tables holds, such as the answer of a statement
-- that it has run.
use so_ho_link.Base.{◌≡◌, refl, inl, inr, Option, none, some, ◌∷◌, Bool-cases}
use so_ho_link.Store.{Job, Db, World}
use so_ho_link.Store.Sql.{
  Error, M, after_result, ◌>>=◌, require, fail, pure, faulty, next_fault, query, insert_job,
  insert_row, find_job, with_jobs, attempt,
}
use so_ho_link.Store.Effects.{Moves, Course}

-- From tables where `P` holds, `R` holds, and `P` still does.
pub record Under (P : Db → Type 0) (R : World → World → Type 0) (v w : World) : Type 0 where
  pub at : P v.db → P w.db × R v w

pub under_course : {P : Db → Type 0} {R : World → World → Type 0} → Course R → Course (Under P R)
under_course c = record {
  stay = λ w. record { at = λ p. (p, c.stay w) };
  join = λ u v w f g. record {
    at = λ p. let (q, r) = f.at p in let (s, t) = g.at q in (s, c.join u v w r t);
  };
  fault = λ w. record { at = λ p. (p, c.fault w) };
  restore = λ u v f. record { at = λ p. (p, c.restore u v (f.at p).1) };
}

module _ {A B : Type 0} {R : World → World → Type 0} (c : Course R) where
  -- What a query for one row finds is known in what follows.
  read_at :
      (P : A → Db → Type 0) (o : Option A) (e : Error) (k : A → M B) (w : World)
      → ((a : A) → o ≡ some a → P a w.db)
      → ((a : A) → Moves (Under (P a) R) (k a))
      → R w (after_result k (require o e w).0 (require o e w).1).1
  unfolding require fail pure
  read_at P none e k w holds moves = c.stay w
  read_at P (some a) e k w holds moves = (((moves a).at w).at (holds a refl)).1

  pub Moves-read :
      (P : A → Db → Type 0) (f : Db → Option A) (e : Error) (k : A → M B)
      → ((db : Db) (a : A) → f db ≡ some a → P a db)
      → ((a : A) → Moves (Under (P a) R) (k a))
      → Moves R ((query f >>= λ found. require found e) >>= k)
  unfolding ◌>>=◌ query attempt
  Moves-read P f e k holds moves = record {
    at = λ w. elim (Bool-cases (faulty w.faults)) [
      | inl bad ↦ rw bad (c.fault w)
      | inr good ↦ rw good (
          c.join w (next_fault w) _ (c.fault w)
            (read_at P (f w.db) e k (next_fault w) (holds w.db) moves))
    ];
  }

module _ {B : Type 0} {R : World → World → Type 0} (c : Course R) (P : Db → Type 0) where
  inserted_at :
      (job : Job) (o : Option Job) (k : Unit {0} → M B) (w : World)
      → (o ≡ none → R w (with_jobs (job ∷ w.db.jobs) w) × P (with_jobs (job ∷ w.db.jobs) w).db)
      → ((u : Unit {0}) → Moves (Under P R) (k u))
      → R w (after_result k (insert_row job o w).0 (insert_row job o w).1).1
  inserted_at job (some j) k w fresh moves = c.stay w
  inserted_at job none k w fresh moves =
      let (r, p) = fresh refl in
      c.join w (with_jobs (job ∷ w.db.jobs) w) _ r
        ((((moves tt).at (with_jobs (job ∷ w.db.jobs) w)).at p).1)

  -- A row that was inserted is known to be there.
  pub Moves-inserted :
      (job : Job) (k : Unit {0} → M B)
      → ((w : World)
          → find_job job.id w.db.jobs ≡ none
          → R w (with_jobs (job ∷ w.db.jobs) w) × P (with_jobs (job ∷ w.db.jobs) w).db)
      → ((u : Unit {0}) → Moves (Under P R) (k u))
      → Moves R (insert_job job >>= k)
  unfolding ◌>>=◌ insert_job
  Moves-inserted job k fresh moves = record {
    at = λ w. elim (Bool-cases (faulty w.faults)) [
      | inl bad ↦ rw bad (c.fault w)
      | inr good ↦ rw good (
          c.join w (next_fault w) _ (c.fault w) (
            inserted_at job (find_job job.id w.db.jobs) k (next_fault w) (fresh (next_fault w))
              moves))
    ];
  }
