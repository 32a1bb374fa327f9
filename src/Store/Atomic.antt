-- ===== src/Store/Atomic.antt =====
-- Operations that fail without a trace.
use so_ho_link.Base.{subst, ◌≡◌, refl, inl, inr, arith, Bool-cases, if◌then◌else◌}
use so_ho_link.Store.{World}
use so_ho_link.Store.Sql.{
  Error, Result, ok, err, M, after_result, ◌>>=◌, faulty, next_fault, finish, begun, transaction,
  database,
}
use so_ho_link.Store.Effects.{Moves, Same, Same-Course, SameRegistry}

-- An error leaves tables and registry as they were.
pub record Atomic {A : Type 0} (m : M A) : Type 0 where
  pub at : (w : World) {e : Error} → (m w).0 ≡ err e → Same w (m w).1

pub record Succeeds {A : Type 0} (m : M A) : Type 0 where
  pub at : (w : World) {e : Error} → (m w).0 ≡ err e → ⊥

module _ {A : Type 0} where
  finish-Same :
      (w : World) (r : Result A) (v : World) {e : Error}
      → v.registry ≡ w.registry
      → (finish w.db r v).0 ≡ err e
      → Same w (finish w.db r v).1
  finish-Same w (err _) v s h = record { db = refl; registry = s }
  finish-Same w (ok a) v s h = elim (Bool-cases (faulty v.faults)) [
    | inl bad ↦ rw bad (record { db = refl; registry = s })
    | inr good ↦ ground arith
  ]

  pub Atomic-transaction : (body : M A) → Moves SameRegistry body → Atomic (transaction body)
  unfolding transaction
  Atomic-transaction body k = record {
    at = λ w {e} h. elim (Bool-cases (faulty w.faults)) [
      | inl bad ↦ rw bad (record { db = refl; registry = refl })
      | inr good ↦ rw good (
          finish-Same w (body (next_fault w)).0 (body (next_fault w)).1
            (k.at (next_fault w)).registry
            (subst
              (λ b.
                (if b then (err database, next_fault w) else begun body (next_fault w)).0 ≡ err e)
              good h))
    ];
  }

module _ {A B : Type 0} where
  bind_rest_at :
      (f : A → M B) (w : World) (r : Result A) (v : World) {e : Error}
      → ((a : A) → Atomic (f a))
      → Same w v
      → (after_result f r v).0 ≡ err e
      → Same w (after_result f r v).1
  bind_rest_at f w (ok a) v kf s h = Same-Course.join w v _ s ((kf a).at v h)
  bind_rest_at f w (err _) v kf s h = s

  pub Atomic-bind :
      (m : M A) (f : A → M B) → Moves Same m → ((a : A) → Atomic (f a)) → Atomic (m >>= f)
  unfolding ◌>>=◌
  Atomic-bind m f km kf = record { at = λ w h. bind_rest_at f w (m w).0 (m w).1 kf (km.at w) h }

  bind_last_at :
      (f : A → M B) (w : World) (r : Result A) (v : World) {e : Error}
      → ((a : A) → Succeeds (f a))
      → ((d : Error) → r ≡ err d → Same w v)
      → (after_result f r v).0 ≡ err e
      → Same w (after_result f r v).1
  bind_last_at f w (ok a) v kf s h = absurd ((kf a).at v h)
  bind_last_at f w (err d) v kf s h = s d refl

  -- Once `m` is through, nothing fails.
  pub Atomic-bind_last :
      (m : M A) (f : A → M B) → Atomic m → ((a : A) → Succeeds (f a)) → Atomic (m >>= f)
  unfolding ◌>>=◌
  Atomic-bind_last m f km kf = record {
    at = λ w h. bind_last_at f w (m w).0 (m w).1 kf (λ d. km.at w {e = d}) h;
  }
