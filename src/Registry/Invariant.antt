-- ===== src/Registry/Invariant.antt =====
-- The registry over any sequence of its operations (internal/orchestrator/registry.go): each
-- operation holds the lock, so an execution is a sequence of whole operations.
use so_ho_link.Base.{
  ℕ, ◌-◌, ◌≡◌, refl, sym, subst, negsuc, ◌^◌, inl, inr, String, none, some, [], ◌∷◌, arith, ◌==◌,
  text_equality, ℤ, pos, ◌≤ℤ◌, ◌+ℤ◌, wrap_int64, pos_part, ltb, Bool-cases, Option-cases,
  if◌then◌else◌,
}
use so_ho_link.Base.Assoc.{
  lookup, insert, Distinct, insert-Distinct, remove-Distinct, Each, insert-Each, remove-Each,
  lookup-Each, lookup-insert,
}
use mathlib.Core.Option
use so_ho_link.Registry.{
  NodeEntry, NodeRegistry, NodeLoadState, NodeOptOutState, new_node_registry, register, heartbeat,
  update_opt_out, update_load, clamp_in_flight, with_opt_out, with_load, with_in_flight, modify,
  add_in_flight, evict, evict_stale,
}

-- An entry stands under its own id, with a counter that is not negative.
abbrev pub IsEntry : String → NodeEntry → Type 0
IsEntry id node = (node.node_id ≡ id) × (pos 0 ≤ℤ node.in_flight)

pub record Inv (r : NodeRegistry) : Type 0 where
  pub distinct : Distinct r
  pub entries : Each IsEntry r

-- One operation. The registry that a client hands in has a counter that is not negative.
pub data Step : NodeRegistry → NodeRegistry → Type 0 where
  registers :
      (r : NodeRegistry) (entry : NodeEntry) → pos 0 ≤ℤ entry.in_flight → Step r (register entry r)
  heartbeats : (r s : NodeRegistry) (id : String) (now : ℕ) → heartbeat id now r ≡ some s → Step r s
  updates_opt_out :
      (r s : NodeRegistry) (id : String) (state : NodeOptOutState)
      → update_opt_out id state r ≡ some s
      → Step r s
  updates_load :
      (r s : NodeRegistry) (id : String) (state : NodeLoadState)
      → update_load id state r ≡ some s
      → Step r s
  adds_in_flight : (r : NodeRegistry) (id : String) (delta : ℤ) → Step r (add_in_flight id delta r)
  evicts : (r : NodeRegistry) (id : String) → Step r (evict id r)
  evicts_stale : (r : NodeRegistry) (now max_age : ℕ) → Step r (evict_stale now max_age r)

pub data Reach (r : NodeRegistry) : NodeRegistry → Type 0 where
  here : Reach r r
  next : {s t : NodeRegistry} → Reach r s → Step s t → Reach r t

insert-Inv :
    (id : String) (node : NodeEntry) {r : NodeRegistry}
    → IsEntry id node
    → Inv r
    → Inv (insert id node r)
insert-Inv id node {r} p v = record {
  distinct = insert-Distinct id node r v.distinct;
  entries = insert-Each IsEntry id node r p v.entries;
}

clamp_in_flight_nonneg : (n : ℤ) → pos 0 ≤ℤ clamp_in_flight n
clamp_in_flight_nonneg n = ground arith

IsEntry-of :
    (id : String) {node : NodeEntry} {r : NodeRegistry}
    → Inv r
    → lookup id r ≡ some node
    → IsEntry id node
IsEntry-of id {node} {r} v e = lookup-Each IsEntry id r v.entries e

modify-eq :
    (id : String) (change : NodeEntry → NodeEntry) (r : NodeRegistry) {s : NodeRegistry}
    → modify id change r ≡ some s
    → (node : NodeEntry) × (lookup id r ≡ some node) × (s ≡ insert id (change node) r)
unfolding modify
modify-eq id change r e = elim (Option-cases (lookup id r)) [
  | inl missing ↦ ground arith
  | inr (node, found) ↦ (node, found, ground arith)
]

module _ (id : String) (change : NodeEntry → NodeEntry) where
  modify-Inv :
      (r : NodeRegistry) {s : NodeRegistry}
      → ((node : NodeEntry) → IsEntry id node → IsEntry id (change node))
      → modify id change r ≡ some s
      → Inv r
      → Inv s
  modify-Inv r keeps e v =
      let (node, found, new) = modify-eq id change r e in
      subst Inv (sym new) (insert-Inv id (change node) (keeps node (IsEntry-of id v found)) v)

add_in_flight-Inv :
    (id : String) (delta : ℤ) (r : NodeRegistry) → Inv r → Inv (add_in_flight id delta r)
unfolding add_in_flight
add_in_flight-Inv id delta r v = elim (Option-cases (modify id (with_in_flight delta) r)) [
  | inl missing ↦ rw (missing, add_in_flight) v
  | inr (s, found) ↦
      rw (found, add_in_flight)
        (modify-Inv id (with_in_flight delta) r
          (λ node p. (p.0, clamp_in_flight_nonneg (wrap_int64 (node.in_flight +ℤ delta)))) found v)
]

lookup-evict_stale-none :
    (id : String) (now max_age : ℕ) (r : NodeRegistry)
    → lookup id r ≡ none
    → lookup id (evict_stale now max_age r) ≡ none
unfolding evict_stale
lookup-evict_stale-none id now max_age [] h = refl
lookup-evict_stale-none id now max_age ((k, n) ∷ r) h =
    ground (arith, lookup-evict_stale-none id now max_age r)

evict_stale-Inv : (now max_age : ℕ) (r : NodeRegistry) → Inv r → Inv (evict_stale now max_age r)
unfolding evict_stale
evict_stale-Inv now max_age [] v = v
evict_stale-Inv now max_age ((k, n) ∷ r) v =
    let rest =
      evict_stale-Inv now max_age r (record { distinct = v.distinct.1; entries = v.entries.1 }) in
    elim (Bool-cases (ltb n.last_heartbeat (now - max_age))) [
      | inl stale ↦ rw stale rest
      | inr fresh ↦ rw fresh (record {
        distinct = (lookup-evict_stale-none k now max_age r v.distinct.0, rest.distinct);
        entries = (v.entries.0, rest.entries);
      })
    ]

Step-Inv : {r s : NodeRegistry} → Step r s → Inv r → Inv s
unfolding register heartbeat update_opt_out update_load evict
Step-Inv (registers r entry nonneg) v = insert-Inv entry.node_id entry (refl, nonneg) v
Step-Inv (heartbeats r s id now e) v =
    modify-Inv id (λ entry. record entry { last_heartbeat = now }) r (λ node p. p) e v
Step-Inv (updates_opt_out r s id state e) v = modify-Inv id (with_opt_out state) r (λ node p. p) e v
Step-Inv (updates_load r s id state e) v = modify-Inv id (with_load state) r (λ node p. p) e v
Step-Inv (adds_in_flight r id delta) v = add_in_flight-Inv id delta r v
Step-Inv (evicts r id) v = record {
  distinct = remove-Distinct id r v.distinct;
  entries = remove-Each IsEntry id r v.entries;
}
Step-Inv (evicts_stale r now max_age) v = evict_stale-Inv now max_age r v

-- Whatever operations run on a registry that starts empty, provided that only entries with a
-- counter of at least zero are registered: every entry stands under its own node id, no id
-- stands twice, and no in-flight counter is negative.
pub Reach-Inv : {r : NodeRegistry} → Reach new_node_registry r → Inv r
unfolding new_node_registry
Reach-Inv here = record { distinct = tt; entries = tt }
Reach-Inv (next run st) = Step-Inv st (Reach-Inv run)

-- Eviction, in a registry as above, drops exactly the entries whose last heartbeat is before the
-- cutoff, and leaves each of the others as it is.
pub lookup-evict_stale :
    (now max_age : ℕ) (id : String) (r : NodeRegistry)
    → Inv r
    → lookup id (evict_stale now max_age r) ≡ elim (lookup id r) [
      | none ↦ none
      | some node ↦ if ltb node.last_heartbeat (now - max_age) then none else some node
    ]
unfolding evict_stale
lookup-evict_stale now max_age id [] v = refl
lookup-evict_stale now max_age id ((k, n) ∷ r) v = ground (
  arith,
  text_equality.same_iff k id,
  lookup-evict_stale now max_age id r (record { distinct = v.distinct.1; entries = v.entries.1 }),
  lookup-evict_stale-none k now max_age r v.distinct.0,
)

-- Where an adjustment of one node's counter shows.
lookup-add_in_flight :
    (id j : String) (delta : ℤ) (r : NodeRegistry)
    → lookup j (add_in_flight id delta r)
      ≡ (if id == j then Option.map (with_in_flight delta) (lookup j r) else lookup j r)
unfolding add_in_flight modify
lookup-add_in_flight id j delta r = elim (Option-cases (lookup id r)) [
  | inl missing ↦ ground (arith, text_equality.same_iff id j)
  | inr (node, found) ↦
      ground (arith, text_equality.same_iff id j, lookup-insert id j (with_in_flight delta node) r)
]

clamped :
    (n : ℤ)
    → negsuc (2 ^ 63 - 1) ≤ℤ n
    → n ≤ℤ pos (2 ^ 63 - 1)
    → clamp_in_flight (wrap_int64 n) ≡ pos (pos_part n)
clamped (pos n) low top = ground arith
clamped (negsuc n) low top = ground arith

-- Where a node is registered and the sum of its counter and `delta` fits a Go `int`, AddInFlight
-- sets the node's counter to that sum, or to zero where it is negative, and changes nothing else:
-- neither another field of the entry nor the entry of another node.
pub add_in_flight-counted :
    (id j : String) (delta : ℤ) (r : NodeRegistry) {node : NodeEntry}
    → lookup id r ≡ some node
    → negsuc (2 ^ 63 - 1) ≤ℤ node.in_flight +ℤ delta
    → node.in_flight +ℤ delta ≤ℤ pos (2 ^ 63 - 1)
    → lookup j (add_in_flight id delta r) ≡ (
        if id == j
        then some (record node { in_flight = pos (pos_part (node.in_flight +ℤ delta)) })
        else lookup j r)
add_in_flight-counted id j delta r {node} found low top = ground (
  arith,
  text_equality.same_iff id j,
  lookup-add_in_flight id j delta r,
  clamped (node.in_flight +ℤ delta) low top,
)

-- Counting a placement and releasing it again restores an entry whose counter is neither negative
-- nor at the top of Go's `int`.
in_flight_undo :
    (n : ℤ)
    → pos 0 ≤ℤ n
    → n +ℤ pos 1 ≤ℤ pos (2 ^ 63 - 1)
    → clamp_in_flight (wrap_int64 (clamp_in_flight (wrap_int64 (n +ℤ pos 1)) +ℤ negsuc 0)) ≡ n
in_flight_undo (pos n) nonneg top = ground arith
in_flight_undo (negsuc n) nonneg top = absurd (omega arith)

-- Counting a placement and releasing it again leaves every answer of the registry as it was, if
-- the node's counter was neither negative nor at the top of Go's `int`.
pub add_in_flight_undo :
    (id j : String) (r : NodeRegistry) {node : NodeEntry}
    → lookup id r ≡ some node
    → pos 0 ≤ℤ node.in_flight
    → node.in_flight +ℤ pos 1 ≤ℤ pos (2 ^ 63 - 1)
    → lookup j (add_in_flight id (negsuc 0) (add_in_flight id (pos 1) r)) ≡ lookup j r
add_in_flight_undo id j r {node} found nonneg top = ground (
  arith,
  text_equality.same_iff id j,
  lookup-add_in_flight id j (pos 1) r,
  lookup-add_in_flight id j (negsuc 0) (add_in_flight id (pos 1) r),
  in_flight_undo node.in_flight nonneg top,
)
