-- ===== src/Operator/Fees/Later.antt =====
-- A fee declaration that is published becomes the current one, and it is later than the one before.
use so_ho_link.Base.{
  ◌<◌, ◌≡◌, ◌∙◌, refl, subst, Bool, true, false, Option, none, some, text_equality, number_equality,
  arith, same_refl,
}
use so_ho_link.Store.{World}
use so_ho_link.Store.Sql.{ok}
use so_ho_link.Store.Effects.{Moves-guard}
use so_ho_link.Store.Returns.{
  Yields, Yields-bind, Yields-guard, Yields-given, Yields-imply, Yields-pure, Yields-transaction,
  err_ok,
}
use so_ho_link.Operator.Tables.{OperatorTables, FeeRow}
use so_ho_link.Operator.Holds.{
  on, Kept-course, Yields-Kept, Yields-select_from, Yields-statement, Yields-on_violation,
}
use so_ho_link.Operator.Fees.{
  later_row, latest_fee, put_fee, insert_fee, judge_fee, publish_fee_declaration,
}

-- The declaration is later than the one before it, if there is one.
abbrev pub IsLater : FeeRow → Option FeeRow → Type 0
IsLater decl none = Unit
IsLater decl (some current) = (current.seq < decl.seq) × (current.effective_at < decl.effective_at)

module _ (decl : FeeRow) (start : Option FeeRow) where
  abbrev Current : OperatorTables → Type 0
  Current t = latest_fee decl.coordinator_id t.fees ≡ start

  judge-IsLater :
      (o : Option FeeRow)
      → Yields (on Current) (judge_fee decl o) (λ u. λ d r. on Current d r × IsLater decl o)
  unfolding judge_fee
  judge-IsLater none = Yields-pure _ (λ u d r. on Current d r × Unit) tt (λ d r p. (p, tt))
  judge-IsLater (some c) = Yields-bind _ _ _ _ _ (Yields-guard (on Current) _ _) λ u.
      Yields-imply _ _ _ _ (Yields-guard _ _ _)
        (λ v d r p. (p.0.0, (ground (arith, p.0.1), ground (arith, p.1))))

  later_current : (o : Option FeeRow) → IsLater decl o → later_row decl o ≡ decl
  later_current none h = refl
  later_current (some c) h = ground arith

  put-Current :
      (negative taken : Bool) (t : OperatorTables) {u : Unit {0}}
      → IsLater decl start
      → Current t
      → (put_fee negative taken decl t).0 ≡ ok u
      → latest_fee decl.coordinator_id (put_fee negative taken decl t).1.fees ≡ some decl
  unfolding latest_fee
  put-Current negative true t l c h = absurd (err_ok h)
  put-Current true false t l c h = absurd (err_ok h)
  put-Current false false t l c h =
      rw (same_refl decl.coordinator_id, c, later_current start l) refl

  insert-Current :
      IsLater decl start
      → Yields
          (on Current)
          (insert_fee decl)
          (λ u. on (λ t. latest_fee decl.coordinator_id t.fees ≡ some decl))
  unfolding insert_fee
  insert-Current l =
      Yields-statement _ _ (λ u t. latest_fee decl.coordinator_id t.fees ≡ some decl)
        (λ t u c h. put-Current _ _ t l c h)

  -- What publishing shows of the declaration before and the one after.
  abbrev Published : OperatorTables → Type 0
  Published t = (latest_fee decl.coordinator_id t.fees ≡ some decl) × IsLater decl start

  insert-later : IsLater decl start → Yields (on Current) (insert_fee decl) (λ u. on Published)
  insert-later l = Yields-imply _ _ _ _ (insert-Current l) (λ u d r p. (p, l))

  publish-Published : Yields (on Current) (publish_fee_declaration decl) (λ u. on Published)
  unfolding publish_fee_declaration
  publish-Published =
      Yields-bind _ _ _ (λ u. on Current) _
        (Yields-Kept Current _ (Moves-guard (Kept-course Current) _ _))
        λ u. Yields-transaction _ _ _ (
          Yields-bind _ _ _ (λ o. λ d r. on Current d r × (o ≡ start)) _
            (Yields-imply _ _ _ _
              (Yields-select_from Current (λ t. latest_fee decl.coordinator_id t.fees))
              (λ o d r p. (p.0, p.1 ∙ p.0)))
            λ o. Yields-given _ _ _ _ λ e. Yields-bind _ _ _ _ _ (judge-IsLater o) λ u.
              Yields-given _ _ _ _
                λ later. Yields-on_violation _ _ _ _ (insert-later (subst (IsLater decl) e later)))

-- Where PublishFeeDeclaration returns, the coordinator's current declaration is the one that was
-- published; the current one before it, if there was any, has a lower number and took effect earlier.
pub publish_fee_declaration-IsLater :
    (decl : FeeRow) (w : World) {u : Unit {0}}
    → (publish_fee_declaration decl w).0 ≡ ok u
    → (latest_fee decl.coordinator_id (publish_fee_declaration decl w).1.db.registered.fees
        ≡ some decl)
      × IsLater decl (latest_fee decl.coordinator_id w.db.registered.fees)
publish_fee_declaration-IsLater decl w h =
    (publish-Published decl (latest_fee decl.coordinator_id w.db.registered.fees)).at w refl h
