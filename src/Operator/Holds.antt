-- ===== src/Operator/Holds.antt =====
-- Facts about the registry's tables, by one rule for each kind of statement.
use so_ho_link.Base.{◌≡◌, refl, sym, inl, inr, String, Bool, Bool-cases, arith, ◌==◌, text_equality}
use so_ho_link.Store.{World}
use so_ho_link.Store.Sql.{
  Error, Result, ok, err, M, rescue, faulty, next_fault, finish, transaction, update_where,
  first_where,
}
use so_ho_link.Store.Effects.{Moves, Course, Moves-rescue}
use so_ho_link.Store.Returns.{SameTables, tables_course, Fact, Yields, err_ok, ok_same}
use so_ho_link.Operator.Tables.{OperatorTables, OperatorRow, OperatorKeyRow}
use so_ho_link.Operator.Sql.{
  with_registered, statement, replace_violation, on_violation, select_from, update_operator,
  select_operator, update_keys,
}

abbrev pub on : (OperatorTables → Type 0) → Fact
on P d r = P d.registered

-- What holds of the tables before holds of them after.
pub record Kept (P : OperatorTables → Type 0) (v w : World) : Type 0 where
  pub keep : P v.db.registered → P w.db.registered

pub Kept-course : (P : OperatorTables → Type 0) → Course (Kept P)
Kept-course P = record {
  stay = λ w. record { keep = λ p. p };
  join = λ u v w a b. record { keep = λ p. b.keep (a.keep p) };
  fault = λ w. record { keep = λ p. p };
  restore = λ u v a. record { keep = λ p. p };
}

module _ {A : Type 0} where
  pub Moves-statement :
      {R : World → World → Type 0} (c : Course R) (f : OperatorTables → Result A × OperatorTables)
      → ((w : World) → R w (with_registered (f w.db.registered).1 w))
      → Moves R (statement f)
  unfolding statement
  Moves-statement c f k = record {
    at = λ w. elim (Bool-cases (faulty w.faults)) [
      | inl bad ↦ rw bad (c.fault w)
      | inr good ↦ rw good (c.join w (next_fault w) _ (c.fault w) (k (next_fault w)))
    ];
  }

  pub Moves-on_violation :
      {R : World → World → Type 0} (c : Course R) (e : Error) (m : M A)
      → Moves R m
      → Moves R (on_violation e m)
  unfolding on_violation
  Moves-on_violation c e m k = Moves-rescue c (replace_violation e) m k

  pub select_from-SameTables : (f : OperatorTables → A) → Moves SameTables (select_from f)
  unfolding select_from
  select_from-SameTables f =
      Moves-statement tables_course (λ t. (ok (f t), t)) (λ w. record { db = refl })

module _ {A : Type 0} (P : OperatorTables → Type 0) where
  pub Keeps-statement :
      (f : OperatorTables → Result A × OperatorTables)
      → ((t : OperatorTables) → P t → P (f t).1)
      → Moves (Kept P) (statement f)
  Keeps-statement f k = Moves-statement (Kept-course P) f (λ w. record { keep = k w.db.registered })

  pub Keeps-select_from : (f : OperatorTables → A) → Moves (Kept P) (select_from f)
  unfolding select_from
  Keeps-select_from f = Keeps-statement (λ t. (ok (f t), t)) (λ t p. p)

  finish_Keeps :
      (w : World) (r : Result A) (v : World)
      → P w.db.registered
      → ((a : A) → r ≡ ok a → P v.db.registered)
      → P (finish w.db r v).1.db.registered
  finish_Keeps w (err e) v p k = p
  finish_Keeps w (ok a) v p k = elim (Bool-cases (faulty v.faults)) [
    | inl bad ↦ rw bad p
    | inr good ↦ rw good (k a refl)
  ]

  -- A transaction keeps what its body keeps where it returns.
  pub Keeps-transaction :
      (body : M A) → Yields (on P) body (λ a. on P) → Moves (Kept P) (transaction body)
  unfolding transaction
  Keeps-transaction body k = record {
    at = λ w. record {
      keep = λ p. elim (Bool-cases (faulty w.faults)) [
        | inl bad ↦ rw bad p
        | inr good ↦ rw good (
            finish_Keeps w (body (next_fault w)).0 (body (next_fault w)).1 p
              (λ a e. k.at (next_fault w) p e))
      ];
    };
  }

  pub Yields-Kept : (m : M A) → Moves (Kept P) m → Yields (on P) m (λ a. on P)
  Yields-Kept m k = record { at = λ w p h. (k.at w).keep p }

  pub Yields-statement :
      (f : OperatorTables → Result A × OperatorTables) (Q : A → OperatorTables → Type 0)
      → ((t : OperatorTables) (a : A) → P t → (f t).0 ≡ ok a → Q a (f t).1)
      → Yields (on P) (statement f) (λ a. on (Q a))
  unfolding statement
  Yields-statement f Q k = record {
    at = λ w {a} p h. elim (Bool-cases (faulty w.faults)) [
      | inl bad ↦ absurd (err_ok (rw bad at h))
      | inr good ↦ rw good (k w.db.registered a p (rw good at h))
    ];
  }

  pub Yields-select_from :
      (f : OperatorTables → A) → Yields (on P) (select_from f) (λ a. on (λ t. P t × (a ≡ f t)))
  unfolding select_from
  Yields-select_from f =
      Yields-statement (λ t. (ok (f t), t)) (λ a t. P t × (a ≡ f t))
        (λ t a p h. (p, sym (ok_same h)))

replaced_err : {A : Type 0} (e d : Error) {a : A} → replace_violation {A = A} e (err d) ≡ ok a → ⊥
replaced_err e d h = ground arith

replaced_ok :
    {A : Type 0} (e : Error) (r : Result A) {a : A} → replace_violation e r ≡ ok a → r ≡ ok a
replaced_ok e (ok a) h = h
replaced_ok e (err d) h = absurd (replaced_err e d h)

module _ {A : Type 0} (P : Fact) where
  pub Yields-on_violation :
      (e : Error) (m : M A) (Q : A → Fact) → Yields P m Q → Yields P (on_violation e m) Q
  unfolding on_violation rescue
  Yields-on_violation e m Q k = record { at = λ w p h. k.at w p (replaced_ok e (m w).0 h) }

module _ (P : OperatorTables → Type 0) where
  pub Yields-update_operator :
      (id : String) (change : OperatorRow → OperatorRow) (Q : OperatorTables → Type 0)
      → ((t : OperatorTables)
          → P t
          → Q (record t { operators = update_where (λ o. o.id == id) change t.operators }))
      → Yields (on P) (update_operator id change) (λ n. on Q)
  unfolding update_operator
  Yields-update_operator id change Q k = Yields-statement P _ (λ n. Q) (λ t n p h. k t p)

  pub Yields-select_operator :
      (id : String)
      → Yields
          (on P)
          (select_operator id)
          (λ o. on (λ t. P t × (o ≡ first_where (λ r. r.id == id) t.operators)))
  unfolding select_operator
  Yields-select_operator id = Yields-select_from P (λ t. first_where (λ r. r.id == id) t.operators)

  pub Yields-update_keys :
      (test : OperatorKeyRow → Bool) (change : OperatorKeyRow → OperatorKeyRow)
      (Q : OperatorTables → Type 0)
      → ((t : OperatorTables) → P t → Q (record t { keys = update_where test change t.keys }))
      → Yields (on P) (update_keys test change) (λ n. on Q)
  unfolding update_keys
  Yields-update_keys test change Q k = Yields-statement P _ (λ n. Q) (λ t n p h. k t p)

  pub Keeps-update_operator :
      (id : String) (change : OperatorRow → OperatorRow)
      → ((t : OperatorTables)
          → P t
          → P (record t { operators = update_where (λ o. o.id == id) change t.operators }))
      → Moves (Kept P) (update_operator id change)
  unfolding update_operator
  Keeps-update_operator id change k = Keeps-statement P _ k

  pub Keeps-update_keys :
      (test : OperatorKeyRow → Bool) (change : OperatorKeyRow → OperatorKeyRow)
      → ((t : OperatorTables) → P t → P (record t { keys = update_where test change t.keys }))
      → Moves (Kept P) (update_keys test change)
  unfolding update_keys
  Keeps-update_keys test change k = Keeps-statement P _ k
