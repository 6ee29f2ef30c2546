-- ===== src/Directive.antt =====
-- internal/directive/validate.go: what a directive of the control plane must pass before it runs.
pub mod Vetted
use gpufleet_agent.Prelude.{
  ℕ, String, Bool, true, false, not, ◌||◌, Option, none, some, ◌==◌, ltb, nat_eq, if◌then◌else◌,
}
use gpufleet_agent.Prelude.Int.{pos, ltb_ℤ, leb_ℤ}
use gpufleet_agent.Prelude.Strings.{◌<>◌}
use gpufleet_agent.Wire.{
  Duration, ConsentTier, tier_unspecified, tier_unprivileged, tier_privileged, ResourceBudget,
  CapabilityDescriptor, CollectDirective,
}
use gpufleet_agent.Semantics.{Result, ok, err}
use gpufleet_agent.Capability.{find}

-- `TierEnabled`, a function that may be nil.
abbrev pub TierEnabled : Type 0
TierEnabled = Option (ConsentTier → Bool)

abbrev pub is_enabled : TierEnabled → ConsentTier → Bool
is_enabled none tier = false
is_enabled (some enabled) tier = enabled tier

-- `%s` of a tier.
abbrev tier_name : ConsentTier → String
tier_name tier_unspecified = "CONSENT_TIER_UNSPECIFIED"
tier_name tier_unprivileged = "CONSENT_TIER_UNPRIVILEGED"
tier_name tier_privileged = "CONSENT_TIER_PRIVILEGED"

unfoldable pub clamp_u32 : ℕ → ℕ → ℕ
clamp_u32 req cap = if nat_eq req 0 || ltb cap req then cap else req

unfoldable pub clamp_duration : Option Duration → Option Duration → Option Duration
clamp_duration req none = req
clamp_duration none (some cap) = some cap
clamp_duration (some req) (some cap) =
    if leb_ℤ req (pos 0) || ltb_ℤ cap req then some cap else some req

abbrev pub empty_budget : ResourceBudget
empty_budget = record {
  max_duration = none;
  max_cpu_millicores = 0;
  max_map_entries = 0;
  max_samples = 0;
}

unfoldable pub clamp_budget : Option ResourceBudget → Option ResourceBudget → ResourceBudget
unfolding clamp_duration clamp_u32
clamp_budget req none = empty_budget
clamp_budget none (some cap) = cap
clamp_budget (some req) (some cap) = record {
  max_duration = clamp_duration req.max_duration cap.max_duration;
  max_cpu_millicores = clamp_u32 req.max_cpu_millicores cap.max_cpu_millicores;
  max_map_entries = clamp_u32 req.max_map_entries cap.max_map_entries;
  max_samples = clamp_u32 req.max_samples cap.max_samples;
}

-- The part of `Validate` after the lookup in the catalog; `%q` is written for an id that needs no
-- escapes.
unfoldable pub vet :
    TierEnabled
    → CollectDirective
    → Option CapabilityDescriptor
    → Result (CapabilityDescriptor × CollectDirective)
unfolding clamp_budget
vet enabled d none =
    err ("directive: unknown capability_id \"" <> d.capability_id <> "\" (not in catalog)")
vet enabled d (some desc) =
    if not (is_enabled enabled desc.tier)
    then err (
        "directive: capability \""
        <> d.capability_id
        <> "\" requires tier "
        <> tier_name desc.tier
        <> ", not enabled on this host")
    else ok (desc, record d { budget = some (clamp_budget d.budget desc.resource_budget) })

unfoldable pub validate :
    Option CollectDirective → TierEnabled → Result (CapabilityDescriptor × CollectDirective)
unfolding vet
validate none enabled = err "directive: nil directive"
validate (some d) enabled =
    if d.capability_id == ""
    then err "directive: empty capability_id"
    else vet enabled d (find d.capability_id)
