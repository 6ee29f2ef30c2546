-- ===== src/Daemon.antt =====
-- daemon.go: the state of the daemon, its configuration and its clock arithmetic.
-- `W` is the state of everything outside: the sources, the wall clock and the context. The lock
-- of the Go code makes each method one step.
pub mod Refresh
pub mod Freshness
pub mod Cycles
pub mod History
pub mod Recovery
pub mod Provenance
use gpufleet_agent.Prelude.{
  ℕ, String, ◌+◌, ◌-◌, ◌*◌, ◌%◌, ◌^◌, Bool, true, false, Option, none, some, List, ◌==◌,
  if◌then◌else◌,
}
use gpufleet_agent.Prelude.Int.{ℤ, pos, negsuc, ◌-ℤ◌, ◌*ℤ◌, leb_ℤ, ltb_ℤ, i64}
use gpufleet_agent.Wire.{Time, Duration, EvidencePack, Verdict}
use gpufleet_agent.Observation.{Collected}
use gpufleet_agent.Semantics.{Pricing, Result}
use gpufleet_agent.Normalize.{SignalWindow}
use gpufleet_agent.Cost.{CostReport}

-- `time.Second`
abbrev pub second : ℕ
second = 1000000000

-- A counter of type `uint64`, one further.
abbrev pub inc64 : ℕ → ℕ
inc64 n = (n + 1) % 2 ^ 64

-- `t.Sub(u)`: a difference that an `int64` does not hold is replaced by the nearest that it holds.
unfoldable pub sub_time : Time → Time → Duration
sub_time t u =
    if ltb_ℤ (pos (2 ^ 63 - 1)) (t -ℤ u)
    then pos (2 ^ 63 - 1)
    else if ltb_ℤ (t -ℤ u) (negsuc (2 ^ 63 - 1))
    then negsuc (2 ^ 63 - 1)
    else t -ℤ u

module _ {F : Type 0} (pr : Pricing F) where
  pub record State : Type 0 where
    pub window : SignalWindow F
    pub cost : CostReport pr
    pub refresh_at : Time
    pub refreshes : ℕ
    pub verdict : Option (Verdict F)

-- `Collector`, with `SetKill` where it is `killWirable`.
pub record Collector (F W : Type 0) : Type 0 where
  pub collect : Time → Duration → W → Collected F × W
  pub set_kill : Option (W → W)

-- A clock; to read it is a step of the world.
abbrev pub Clock : Type 0 → Type 0
Clock W = W → Time × W

-- What the daemon calls outside of this repository.
pub record Host (F W : Type 0) : Type 0 where
  -- `time.Now`
  pub system_clock : Clock W
  -- `ctx.Err()`
  pub context_error : W → Option String
  -- `registry.NewDefaultEngine().Evaluate`, which returns a verdict that may be nil, or panics.
  pub evaluate : EvidencePack F → Result (Option (Verdict F))
  -- `Duration.String`
  pub duration_text : Duration → String

module _ {F : Type 0} (pr : Pricing F) (W : Type 0) where
  pub record DaemonConfig : Type 0 where
    pub agent_id : String
    pub window : Duration
    pub collectors : List (Collector F W)
    pub policy : pr.Policy
    pub staleness_after : Duration
    pub now : Option (Clock W)

  pub record Daemon : Type 0 where
    pub agent_id : String
    pub window : Duration
    pub staleness_after : Duration
    pub collectors : List (Collector F W)
    pub policy : pr.Policy
    pub now : Clock W
    pub started_at : Time
    pub state : Option (State pr)
    pub cost_state : Option (State pr)
    pub errs : ℕ
    pub consec_fails : ℕ
    pub last_reason : String

abbrev pub staleness_floor : Duration
staleness_floor = pos (5 * second)

unfoldable pub default_staleness_after : Duration → Duration
default_staleness_after d =
    let v = i64 (pos 3 *ℤ d) in if ltb_ℤ staleness_floor v then v else staleness_floor

abbrev pub positive_or : Duration → Duration → Duration
positive_or default d = if leb_ℤ d (pos 0) then default else d

abbrev clock_of : {W : Type 0} → Clock W → Option (Clock W) → Clock W
clock_of default none = default
clock_of default (some now) = now

module _ {F W : Type 0} {pr : Pricing F} where
  abbrev started : DaemonConfig pr W → Clock W → Duration → Time × W → Daemon pr W × W
  started cfg now window (t, w) = (
    record {
      agent_id = if cfg.agent_id == "" then "gpufleet-agent" else cfg.agent_id;
      window = window;
      staleness_after = positive_or (default_staleness_after window) cfg.staleness_after;
      collectors = cfg.collectors;
      policy = if pr.is_zero_policy cfg.policy then pr.default_policy else cfg.policy;
      now = now;
      started_at = t;
      state = none;
      cost_state = none;
      errs = 0;
      consec_fails = 0;
      last_reason = "";
    },
    w,
  )

  unfoldable pub new_daemon : Host F W → DaemonConfig pr W → W → Daemon pr W × W
  unfolding default_staleness_after
  new_daemon host cfg w =
      let now = clock_of host.system_clock cfg.now in
      started cfg now (positive_or (pos (60 * second)) cfg.window) (now w)
