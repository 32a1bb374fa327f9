-- ===== src/Registry/Match.antt =====
-- What FindMatch (internal/orchestrator/registry.go) returns, against a description of an
-- eligible node that does not follow the loop.
use so_ho_link.Base.{
  ◌≡◌, refl, ap, subst, sym, ◌≢◌, ◌↔◌, ◌⊎◌, inl, inr, String, true, false, not, ◌||◌, Option, none,
  some, List, [], ◌∷◌, arith, ◌==◌, text_equality, ◌≤ℤ◌, In, Bool-cases, Option-cases, eq_of_same,
  false≢true, ◌∙◌,
}
use so_ho_link.Workload.{
  marketplace_to_agent, workload_compute, workload_storage, workload_print_traditional,
  workload_print_3d,
}
use so_ho_link.Registry.{
  NodeEntry, NodeRegistry, MatchRequest, is_excluded, opted_out, opt_out_skips, satisfies,
  candidates, find_match,
}

-- The owner consents to a workload whose agent category is `cat`.
pub record Consents (cat : String) (node : NodeEntry) : Type 0 where
  pub compute : cat ≡ workload_compute → node.opt_out_compute ≡ false
  pub storage : cat ≡ workload_storage → node.opt_out_storage ≡ false
  pub print :
      (cat ≡ workload_print_traditional) ⊎ (cat ≡ workload_print_3d)
      → (node.opt_out_printing ≡ false) × (node.has_enabled_printer ≡ true)

pub record Eligible (req : MatchRequest) (node : NodeEntry) : Type 0 where
  pub not_declined : ¬ In node.node_id req.excluded_node_ids
  pub other_owner :
      (req.exclude_consumer_participant_id ≡ "")
      ⊎ (node.participant_id ≢ req.exclude_consumer_participant_id)
  pub online : node.status ≡ "online"
  pub country : (req.country_constraint ≡ "") ⊎ (node.country_code ≡ req.country_constraint)
  pub gpu : req.gpu_required ≡ true → node.hardware_profile.gpu_present ≡ true
  pub cpu : req.cpu_cores ≤ℤ node.hardware_profile.cpu_cores
  pub ram : req.ram_mb ≤ℤ node.hardware_profile.ram_mb
  pub storage : req.storage_gb ≤ℤ node.hardware_profile.storage_gb
  pub consent :
      (cat : String) → marketplace_to_agent req.workload_type ≡ some cat → Consents cat node

is_excluded_iff : (id : String) (xs : List String) → (is_excluded id xs ≡ true) ↔ In id xs
unfolding is_excluded
is_excluded_iff id [] = ground arith
is_excluded_iff id (x ∷ xs) = ground (arith, text_equality.same_iff x id, is_excluded_iff id xs)

Consents-of_opted_in :
    (cat : String) (node : NodeEntry) → opted_out cat node ≡ false → Consents cat node
unfolding opted_out
Consents-of_opted_in cat node h = record {
  compute = λ e. subst (λ c. opted_out c node ≡ false) e h;
  storage = λ e. subst (λ c. opted_out c node ≡ false) e h;
  print = λ e. printing e;
}
  where
    allowed :
        (node.opt_out_printing || not node.has_enabled_printer) ≡ false
        → (node.opt_out_printing ≡ false) × (node.has_enabled_printer ≡ true)
    allowed = ground arith

    printing :
        (cat ≡ workload_print_traditional) ⊎ (cat ≡ workload_print_3d)
        → (node.opt_out_printing ≡ false) × (node.has_enabled_printer ≡ true)
    printing (inl e) = allowed (subst (λ c. opted_out c node ≡ false) e h)
    printing (inr e) = allowed (subst (λ c. opted_out c node ≡ false) e h)

opted_in_of_Consents :
    (cat : String) (node : NodeEntry) → Consents cat node → opted_out cat node ≡ false
unfolding opted_out
opted_in_of_Consents cat node c = ground (
  arith,
  text_equality.same_iff cat workload_compute,
  text_equality.same_iff cat workload_storage,
  text_equality.same_iff cat workload_print_traditional,
  text_equality.same_iff cat workload_print_3d,
)

no_category : marketplace_to_agent "" ≡ none
unfolding marketplace_to_agent
no_category = refl

no_type_category :
    (workload cat : String) → workload ≡ "" → marketplace_to_agent workload ≡ some cat → ⊥
no_type_category workload cat blank e = cc (ap marketplace_to_agent blank, no_category)

opt_out_skips_iff :
    (workload : String) (node : NodeEntry)
    → (opt_out_skips workload node ≡ false)
      ↔ ((cat : String) → marketplace_to_agent workload ≡ some cat → Consents cat node)
unfolding opt_out_skips
opt_out_skips_iff workload node = elim (Bool-cases (workload == "")) [
  | inl blank ↦ (
    (λ h cat e.
        absurd (no_type_category workload cat (eq_of_same {a = workload} {b = ""} blank) e)),
    (λ c. rw blank),
  )
  | inr named ↦ elim (Option-cases (marketplace_to_agent workload)) [
    | inl unknown ↦ ((λ h cat e. cc), (λ c. rw (named, unknown)))
    | inr (cat, known) ↦ (
      (λ h cat' e. Consents-of_opted_in cat' node (ground arith)),
      (λ c. rw (named, known) (opted_in_of_Consents cat node (c cat known))),
    )
  ]
]

module _ (req : MatchRequest) (node : NodeEntry) where
  Eligible-of_satisfies : satisfies req node ≡ true → Eligible req node
  unfolding satisfies
  Eligible-of_satisfies h = record {
    not_declined = λ i. ground (arith, (is_excluded_iff node.node_id req.excluded_node_ids).1 i);
    other_owner = ground (
      arith,
      text_equality.same_iff req.exclude_consumer_participant_id "",
      text_equality.same_iff node.participant_id req.exclude_consumer_participant_id,
    );
    online = ground (arith, text_equality.same_iff node.status "online");
    country = ground (
      arith,
      text_equality.same_iff req.country_constraint "",
      text_equality.same_iff node.country_code req.country_constraint,
    );
    gpu = ground arith;
    cpu = ground arith;
    ram = ground arith;
    storage = ground arith;
    consent = (opt_out_skips_iff req.workload_type node).0 (ground arith);
  }

  satisfies_of_Eligible : Eligible req node → satisfies req node ≡ true
  unfolding satisfies
  satisfies_of_Eligible e = ground (
    arith,
    is_excluded_iff node.node_id req.excluded_node_ids,
    text_equality.same_iff req.exclude_consumer_participant_id "",
    text_equality.same_iff node.participant_id req.exclude_consumer_participant_id,
    text_equality.same_iff node.status "online",
    text_equality.same_iff req.country_constraint "",
    text_equality.same_iff node.country_code req.country_constraint,
    (opt_out_skips_iff req.workload_type node).1 e.consent,
  )

-- The node is the entry of the registry under some key.
abbrev pub Registered : NodeEntry → NodeRegistry → Type 0
Registered node [] = ⊥
Registered node ((_, n) ∷ r) = (node ≡ n) ⊎ Registered node r

In-candidates_iff :
    (req : MatchRequest) (node : NodeEntry) (r : NodeRegistry)
    → In node (candidates req r) ↔ (Registered node r × Eligible req node)
unfolding candidates
In-candidates_iff req node [] = (absurd, λ h. absurd h.0)
In-candidates_iff req node ((k, n) ∷ r) = elim (Bool-cases (satisfies req n)) [
  | inl fits ↦ rw fits (
    (λ h. elim h [
      | inl e ↦ (inl e, subst (Eligible req) (sym e) (Eligible-of_satisfies req n fits))
      | inr i ↦ let (j, el) = (In-candidates_iff req node r).0 i in (inr j, el)
    ]),
    (λ h. elim h.0 [ inl e ↦ inl e | inr j ↦ inr ((In-candidates_iff req node r).1 (j, h.1)) ]),
  )
  | inr fails ↦ rw fails (
    (λ i. let (j, el) = (In-candidates_iff req node r).0 i in (inr j, el)),
    (λ h. elim h.0 [
      | inl e ↦
          absurd (false≢true (sym fails ∙ satisfies_of_Eligible req n (subst (Eligible req) e h.1)))
      | inr j ↦ (In-candidates_iff req node r).1 (j, h.1)
    ]),
  )
]

-- What FindMatch promises for an answer: a list holds exactly the eligible nodes, and the error
-- says that there is none.
abbrev pub Answers : MatchRequest → NodeRegistry → Option (List NodeEntry) → Type 0
Answers req r none = (node : NodeEntry) → Registered node r → ¬ Eligible req node
Answers req r (some nodes) =
    (nodes ≢ []) × ((node : NodeEntry) → In node nodes ↔ (Registered node r × Eligible req node))

answer-Answers :
    (req : MatchRequest) (r : NodeRegistry) (found : List NodeEntry)
    → candidates req r ≡ found
    → Answers req r (elim found [ [] ↦ none | node ∷ rest ↦ some (node ∷ rest) ])
answer-Answers req r [] e =
    λ node i el. subst (In node) e ((In-candidates_iff req node r).1 (i, el))
answer-Answers req r (n ∷ rest) e = (
  (λ h. cc),
  (λ node.
      subst (λ found. In node found ↔ (Registered node r × Eligible req node)) e
        (In-candidates_iff req node r)),
)

-- FindMatch returns a non-empty list that holds exactly the registered nodes that are eligible
-- for the request; when it returns its error, no registered node is eligible.
pub find_match-Answers : (req : MatchRequest) (r : NodeRegistry) → Answers req r (find_match req r)
unfolding find_match
find_match-Answers req r = answer-Answers req r (candidates req r) refl
