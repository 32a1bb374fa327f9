-- ===== src/Store/Clocked.antt =====
-- What holds when an operation returns, for operations that read the clock: it stands still in them.
use so_ho_link.Base.{ℕ, ◌≡◌, refl, ◌∙◌, subst, inl, inr, Bool-cases}
use so_ho_link.Store.{Db, World}
use so_ho_link.Store.Sql.{
  Result, ok, err, M, gets, after_result, ◌>>=◌, faulty, next_fault, finish, transaction,
}
use so_ho_link.Store.Effects.{Moves, Course}
use so_ho_link.Store.Returns.{Fact, Yields, err_ok, ok_same}

pub record SameClock (v w : World) : Type 0 where
  pub now : w.now ≡ v.now

pub clock_course : Course SameClock
clock_course = record {
  stay = λ w. record { now = refl };
  join = λ u v w p q. record { now = q.now ∙ p.now };
  fault = λ w. record { now = refl };
  restore = λ u v p. record { now = p.now };
}

-- Where `m` starts at the time `t` with `P` and returns, it ends at that time with `Q` of its result.
pub record Clocked {A : Type 0} (t : ℕ) (P : Fact) (m : M A) (Q : A → Fact) : Type 0 where
  pub at :
      (w : World) {a : A}
      → w.now ≡ t
      → P w.db w.registry
      → (m w).0 ≡ ok a
      → Q a (m w).1.db (m w).1.registry × ((m w).1.now ≡ t)

module _ {A : Type 0} (t : ℕ) where
  pub Clocked-Yields :
      (P : Fact) (m : M A) (Q : A → Fact) → Moves SameClock m → Yields P m Q → Clocked t P m Q
  Clocked-Yields P m Q still k = record { at = λ w n p h. (k.at w p h, (still.at w).now ∙ n) }

  pub Clocked-gets :
      (P : Fact) (f : World → A) (Q : A → Fact)
      → ((w : World) → w.now ≡ t → P w.db w.registry → Q (f w) w.db w.registry)
      → Clocked t P (gets f) Q
  unfolding gets
  Clocked-gets P f Q k = record {
    at = λ w n p h. (subst (λ x. Q x w.db w.registry) (ok_same h) (k w n p), n);
  }

  finish_Clocked :
      (before : Db) (r : Result A) (v : World) (Q : A → Fact) {a : A}
      → ((b : A) → r ≡ ok b → Q b v.db v.registry × (v.now ≡ t))
      → (finish before r v).0 ≡ ok a
      → Q a (finish before r v).1.db (finish before r v).1.registry
        × ((finish before r v).1.now ≡ t)
  finish_Clocked before (err e) v Q q h = absurd (err_ok h)
  finish_Clocked before (ok b) v Q q h = elim (Bool-cases (faulty v.faults)) [
    | inl bad ↦ absurd (err_ok (rw bad at h))
    | inr good ↦
        rw good
          (subst (λ x. Q x v.db v.registry) (ok_same (rw good at h)) (q b refl).0, (q b refl).1)
  ]

  pub Clocked-transaction :
      (P : Fact) (body : M A) (Q : A → Fact) → Clocked t P body Q → Clocked t P (transaction body) Q
  unfolding transaction
  Clocked-transaction P body Q k = record {
    at = λ w n p h. elim (Bool-cases (faulty w.faults)) [
      | inl bad ↦ absurd (err_ok (rw bad at h))
      | inr good ↦ rw good (
          finish_Clocked w.db (body (next_fault w)).0 (body (next_fault w)).1 Q
            (λ b e. k.at (next_fault w) n p e) (rw good at h))
    ];
  }

  -- A fact that is not about the world is known.
  pub Clocked-given :
      (P : Fact) (E : Type 0) (m : M A) (Q : A → Fact)
      → (E → Clocked t P m Q)
      → Clocked t (λ d r. P d r × E) m Q
  Clocked-given P E m Q k = record { at = λ w n p h. (k p.1).at w n p.0 h }

module _ {A B : Type 0} (t : ℕ) where
  after_Clocked :
      (f : A → M B) (r : Result A) (v : World) (Q : A → Fact) (S : B → Fact) {b : B}
      → ((a : A) → r ≡ ok a → Q a v.db v.registry × (v.now ≡ t))
      → ((a : A) → Clocked t (Q a) (f a) S)
      → (after_result f r v).0 ≡ ok b
      → S b (after_result f r v).1.db (after_result f r v).1.registry
        × ((after_result f r v).1.now ≡ t)
  after_Clocked f (ok a) v Q S q next h = (next a).at v (q a refl).1 (q a refl).0 h
  after_Clocked f (err e) v Q S q next h = absurd (err_ok h)

  pub Clocked-bind :
      (P : Fact) (m : M A) (f : A → M B) (Q : A → Fact) (S : B → Fact)
      → Clocked t P m Q
      → ((a : A) → Clocked t (Q a) (f a) S)
      → Clocked t P (m >>= f) S
  unfolding ◌>>=◌
  Clocked-bind P m f Q S first next = record {
    at = λ w n p h. after_Clocked f (m w).0 (m w).1 Q S (λ a e. first.at w n p e) next h;
  }
