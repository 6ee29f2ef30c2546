-- ===== src/Examples/Directives.antt =====
-- Witnesses: a directive that asks for too much, and investigations that log what they do.
use mathlib.Core.Path.{subst}
use gpufleet_agent.Prelude.{
  ℕ, suc, ◌+◌, ◌≤◌, ◌≡◌, refl, Bool, true, false, Option, none, some, List, [], ◌∷◌, ◌++◌, All,
  arith,
}
use gpufleet_agent.Prelude.Int.{pos}
use gpufleet_agent.Wire.{
  ConsentTier, tier_unprivileged, CollectDirective, CapabilityDescriptor, TimelineEntry,
  EvidencePack, Verdict, abstain, dcgm,
}
use gpufleet_agent.Semantics.{Result, ok}
use gpufleet_agent.Timeline.{entry}
use gpufleet_agent.Capability.{dcgm_fields, find}
use gpufleet_agent.Directive.{TierEnabled, validate, clamp_budget, vet}
use gpufleet_agent.Directive.Vetted.{IsVetted, validate-IsVetted}
use gpufleet_agent.Investigate.{
  Net, Client, HttpRequest, HttpResponse, post, investigate, noop_execute,
}
use gpufleet_agent.Investigate.Rounds.{grown, gained, investigate-keeps}
use gpufleet_agent.Investigate.Answers.{IsAnswer, investigate-IsAnswer}

abbrev tier0_only : TierEnabled
tier0_only = some tier0
  where
    tier0 : ConsentTier → Bool
    tier0 tier_unprivileged = true
    tier0 _ = false

-- More than the ceiling in one number, the default in another.
abbrev pub greedy : CollectDirective
greedy = record {
  capability_id = "dcgm.fields";
  budget = some (record {
    max_duration = some (pos 1);
    max_cpu_millicores = 100000;
    max_map_entries = 0;
    max_samples = 10;
  });
}

abbrev clamped : CollectDirective
clamped = record {
  capability_id = "dcgm.fields";
  budget = some (record {
    max_duration = some (pos 1);
    max_cpu_millicores = 200;
    max_map_entries = 0;
    max_samples = 10;
  });
}

validate_test : validate (some greedy) tier0_only ≡ ok (dcgm_fields, clamped)
unfolding validate vet find clamp_budget
validate_test = refl

validate-IsVetted_example : IsVetted tier0_only dcgm_fields clamped
validate-IsVetted_example =
    validate-IsVetted (some greedy) tier0_only dcgm_fields clamped validate_test

-- A world that counts the requests and lists the directives that ran. The control plane abstains
-- and asks for the same directive again and again.
pub record Log : Type 0 where
  pub requests : ℕ
  pub ran : List CollectDirective

abbrev undecided : Verdict ℕ
undecided = record {
  contract_version = "v1";
  fault_class = abstain;
  confidence = 1;
  signature = "";
}

abbrev answer : Log → HttpRequest → Result HttpResponse × Log
answer w req = (
  ok (record { status_code = 200; body = 1 ∷ []; read_error = none }),
  record w { requests = w.requests + 1 },
)

abbrev pub net : Net ℕ Log
net = record {
  marshal = λ pack. ok "{}";
  unmarshal = λ raw. ok (record { verdict = some undecided; directives = some greedy ∷ none ∷ [] });
  request_error = λ w req. none;
  default_client = λ timeout. answer;
}

abbrev execute : Log → CollectDirective → Result (List (Option TimelineEntry)) × Log
execute w d = (ok (some (entry none dcgm "x" "") ∷ none ∷ []), record w { ran = d ∷ w.ran })

abbrev client : Client Log
client = record {
  url = "http://localhost";
  token = "";
  node_id = "";
  consent = tier0_only;
  executor = some execute;
  hc = none;
}

abbrev pub no_pack : EvidencePack ℕ
no_pack = record {
  contract_version = "v1";
  agent_id = "agent";
  window_start = pos 0;
  window_end = pos 0;
  provenance = [];
  dcgm_series = [];
  xid_events = [];
  nccl_events = [];
  mappings = [];
  timeline = [];
}

-- Every directive that ran was vetted, and the requests are counted.
abbrev IsVettedLog : ℕ → List TimelineEntry → Log → Type 0
IsVettedLog n extra w =
    (w.requests ≡ n) × All (λ d. (desc : CapabilityDescriptor) × IsVetted tier0_only desc d) w.ran

posts :
    (n : ℕ) (extra : List TimelineEntry) (w : Log)
    → IsVettedLog n extra w
    → IsVettedLog (suc n) extra (post net client w (grown no_pack extra)).1
unfolding post
posts n extra w (e, h) = (omega (arith, e), h)

runs :
    (f : Log → CollectDirective → Result (List (Option TimelineEntry)) × Log)
    (desc : CapabilityDescriptor) (safe : CollectDirective) (n : ℕ) (extra : List TimelineEntry)
    (w : Log)
    → client.executor ≡ some f
    → IsVetted client.consent desc safe
    → IsVettedLog n extra w
    → IsVettedLog n (extra ++ gained (f w safe).0) (f w safe).1
runs f desc safe n extra w e v (counted, h) = subst Logged e (counted, ((desc, v), h))
  where
    Logged : Option (Log → CollectDirective → Result (List (Option TimelineEntry)) × Log) → Type 0
    Logged none = Unit
    Logged (some g) = IsVettedLog n (extra ++ gained (g w safe).0) (g w safe).1

investigate-keeps_example :
    (n : ℕ) × (extra : List TimelineEntry) × (n ≤ 3)
    × IsVettedLog n extra (investigate net client no_pack (record { requests = 0; ran = [] })).world
investigate-keeps_example =
    investigate-keeps net client no_pack IsVettedLog posts runs (record { requests = 0; ran = [] })
      (refl, tt)

-- The loop stops after three posts, although the server never decides.
investigate_test :
    (investigate net client no_pack (record { requests = 0; ran = [] })).world.requests ≡ 3
unfolding investigate validate vet find clamp_budget
investigate_test = refl

investigate-IsAnswer_example :
    IsAnswer net client (investigate net client no_pack (record { requests = 0; ran = [] }))
investigate-IsAnswer_example =
    investigate-IsAnswer net client no_pack (record { requests = 0; ran = [] })

abbrev shipped : Client Log
shipped = record client { executor = some noop_execute }
