-- ===== src/Directive/Vetted.antt =====
-- What `Validate` promises of a directive that it lets through.
use mathlib.Core.Path.{subst}
use gpufleet_agent.Prelude.{
  String, ◌≡◌, refl, sym, ◌∙◌, ap, true, false, Option, none, some, ◌≤◌, inl, inr, List, [], ◌∷◌,
  ◌==◌, eq_iff, arith, In, All, All-at, Bool-cases,
}
use gpufleet_agent.Prelude.Int.{pos, ◌≤ℤ◌, ◌<ℤ◌}
use gpufleet_agent.Wire.{Duration, ResourceBudget, CapabilityDescriptor, CollectDirective}
use gpufleet_agent.Semantics.{ok}
use gpufleet_agent.Capability.{
  builtin, find, find_from, dcgm_fields, prometheus_query, dmesg_xid_scrape, ebpf_nvlink_retrans,
}
use gpufleet_agent.Directive.{TierEnabled, is_enabled, clamp_duration, clamp_budget, vet, validate}

-- A duration that is given, positive and at most the cap.
abbrev pub IsBounded : Option Duration → Option Duration → Type 0
IsBounded (some d) (some cap) = (pos 0 <ℤ d) × (d ≤ℤ cap)
IsBounded _ _ = ⊥

pub record IsWithin (b cap : ResourceBudget) : Type 0 where
  pub duration : IsBounded b.max_duration cap.max_duration
  pub cpu : b.max_cpu_millicores ≤ cap.max_cpu_millicores
  pub map_entries : b.max_map_entries ≤ cap.max_map_entries
  pub samples : b.max_samples ≤ cap.max_samples

-- A descriptor that declares a positive ceiling on the duration.
abbrev pub IsCapped : CapabilityDescriptor → Type 0
IsCapped d =
    (cap : ResourceBudget) × (d.resource_budget ≡ some cap)
    × IsWithin cap cap
    × ((d.id == "") ≡ false)

capped :
    (d : CapabilityDescriptor) (cap : ResourceBudget)
    → d.resource_budget ≡ some cap
    → IsBounded cap.max_duration cap.max_duration
    → (d.id == "") ≡ false
    → IsCapped d
capped d cap e bounded named = (
  cap,
  e,
  record {
    duration = bounded;
    cpu = ground arith;
    map_entries = ground arith;
    samples = ground arith;
  },
  named,
)

builtin-IsCapped : All IsCapped builtin
builtin-IsCapped = (
  capped dcgm_fields _ refl (ground arith) refl,
  (
    capped prometheus_query _ refl (ground arith) refl,
    (
      capped dmesg_xid_scrape _ refl (ground arith) refl,
      (capped ebpf_nvlink_retrans _ refl (ground arith) refl, tt),
    ),
  ),
)

clamp_budget-IsWithin :
    (req : Option ResourceBudget) (cap : ResourceBudget)
    → IsWithin cap cap
    → IsWithin (clamp_budget req (some cap)) cap
unfolding clamp_budget
clamp_budget-IsWithin none cap h = h
clamp_budget-IsWithin (some req) cap h = record {
  duration = clamped req.max_duration cap.max_duration h.duration;
  cpu = ground arith;
  map_entries = ground arith;
  samples = ground arith;
}
  where
    clamped :
        (req cap : Option Duration) → IsBounded cap cap → IsBounded (clamp_duration req cap) cap
    clamped none (some c) h = h
    clamped (some r) (some c) h = ground arith
    clamped req none h = elim h [ ]

clamp_budget_idem :
    (req : Option ResourceBudget) (cap : Option ResourceBudget)
    → clamp_budget (some (clamp_budget req cap)) cap ≡ clamp_budget req cap
unfolding clamp_budget
clamp_budget_idem req none = refl
clamp_budget_idem none (some cap) = ground arith
clamp_budget_idem (some req) (some cap) = ground arith

find_from-In :
    (ds : List CapabilityDescriptor) (id : String) (d : CapabilityDescriptor)
    → find_from ds id ≡ some d
    → In d ds × (d.id ≡ id)
find_from-In [] id r e = ground arith
find_from-In (d ∷ ds) id r e = elim (Bool-cases (d.id == id)) [
  | inl same ↦ (inl (ground arith), ground (arith, eq_iff d.id id))
  | inr other ↦ let (m, i) = find_from-In ds id r (ground arith) in (inr m, i)
]

-- What a directive that passed, with the descriptor `desc`, satisfies on this host.
pub record IsVetted (enabled : TierEnabled) (desc : CapabilityDescriptor) (safe : CollectDirective)
    : Type 0 where
  pub listed : In desc builtin
  pub named : safe.capability_id ≡ desc.id
  pub consented : is_enabled enabled desc.tier ≡ true
  pub budgeted :
      (b : ResourceBudget) × (cap : ResourceBudget) × (safe.budget ≡ some b)
      × (desc.resource_budget ≡ some cap)
      × IsWithin b cap

Vets : TierEnabled → CollectDirective → Option CapabilityDescriptor → Type 0
Vets enabled d found =
    (desc : CapabilityDescriptor) (safe : CollectDirective)
    → vet enabled d found ≡ ok (desc, safe)
    → (found ≡ some desc)
      × (is_enabled enabled desc.tier ≡ true)
      × (safe ≡ record d { budget = some (clamp_budget d.budget desc.resource_budget) })

vet_cases :
    (enabled : TierEnabled) (d : CollectDirective) (found : Option CapabilityDescriptor)
    → Vets enabled d found
unfolding Vets vet
vet_cases enabled d none desc safe e = ground arith
vet_cases enabled d (some f) desc safe e = ground arith

validate_cases :
    (d : CollectDirective) (enabled : TierEnabled) (desc : CapabilityDescriptor)
    (safe : CollectDirective)
    → validate (some d) enabled ≡ ok (desc, safe)
    → ((d.capability_id == "") ≡ false) × (vet enabled d (find d.capability_id) ≡ ok (desc, safe))
unfolding validate
validate_cases d enabled desc safe e = ground arith

-- Blast radius: whatever the control plane sends, a directive that `Validate` lets through names
-- a capability of the fixed catalog whose consent tier this host has enabled (a nil policy enables
-- none), and carries a budget with a positive duration and with every number at most the ceiling
-- that the catalog declares for this capability.
pub validate-IsVetted :
    (d : Option CollectDirective) (enabled : TierEnabled) (desc : CapabilityDescriptor)
    (safe : CollectDirective)
    → validate d enabled ≡ ok (desc, safe)
    → IsVetted enabled desc safe
unfolding validate find Vets
validate-IsVetted none enabled desc safe e = ground arith
validate-IsVetted (some d) enabled desc safe e =
    let (found, consented, made) =
      vet_cases enabled d _ desc safe (validate_cases d enabled desc safe e).1 in
    let (listed, named) = find_from-In builtin d.capability_id desc found in
    let (cap, declares, ceiling, _) = All-at IsCapped builtin desc builtin-IsCapped listed in
    record {
      listed = listed;
      named = ap (λ (x : CollectDirective). x.capability_id) made ∙ sym named;
      consented = consented;
      budgeted = (
        clamp_budget d.budget (some cap),
        cap,
        ap (λ (x : CollectDirective). x.budget) made
            ∙ ap (λ c. some (clamp_budget d.budget c)) declares,
        declares,
        clamp_budget-IsWithin d.budget cap ceiling,
      );
    }

find-builtin : All (λ d. find d.id ≡ some d) builtin
unfolding find
find-builtin = (refl, (refl, (refl, (refl, tt))))

validate-found :
    (d : CollectDirective) (enabled : TierEnabled) (desc : CapabilityDescriptor)
    → (d.capability_id == "") ≡ false
    → find d.capability_id ≡ some desc
    → is_enabled enabled desc.tier ≡ true
    → validate (some d) enabled
      ≡ ok (desc, record d { budget = some (clamp_budget d.budget desc.resource_budget) })
unfolding validate vet
validate-found d enabled desc named found consented = rw named (rw found (ground arith))

-- Conversely, a directive that names a capability of the catalog whose tier is enabled passes, with
-- the budget clamped and nothing else changed: asking for too much is never a reason to refuse.
pub validate-passes :
    (d : CollectDirective) (enabled : TierEnabled) (desc : CapabilityDescriptor)
    → In desc builtin
    → d.capability_id ≡ desc.id
    → is_enabled enabled desc.tier ≡ true
    → validate (some d) enabled
      ≡ ok (desc, record d { budget = some (clamp_budget d.budget desc.resource_budget) })
validate-passes d enabled desc listed named consented =
    let (_, _, _, nonempty) = All-at IsCapped builtin desc builtin-IsCapped listed in
    validate-found d enabled desc (ap (λ s. s == "") named ∙ nonempty)
      (ap find named ∙ All-at (λ x. find x.id ≡ some x) builtin desc find-builtin listed) consented

-- A directive that passed passes again, unchanged.
pub validate_idem :
    (d : Option CollectDirective) (enabled : TierEnabled) (desc : CapabilityDescriptor)
    (safe : CollectDirective)
    → validate d enabled ≡ ok (desc, safe)
    → validate (some safe) enabled ≡ ok (desc, safe)
unfolding validate Vets
validate_idem none enabled desc safe e = ground arith
validate_idem (some d) enabled desc safe e =
    let (named, passed) = validate_cases d enabled desc safe e in
    let (found, consented, made) = vet_cases enabled d _ desc safe passed in
    subst (λ x. validate (some x) enabled ≡ ok (desc, x)) (sym made)
      (validate-found (record d { budget = some (clamp_budget d.budget desc.resource_budget) })
          enabled desc named found consented
        ∙ ap (λ b. ok (desc, record d { budget = some b }))
            (clamp_budget_idem d.budget desc.resource_budget))
