-- ===== src/Command/Once.antt =====
-- cmd/agent/main.go: the run of a single cycle, without `-serve`.
use gpufleet_agent.Prelude.{String, Option, none, some, List}
use gpufleet_agent.Prelude.Strings.{◌<>◌}
use gpufleet_agent.Float.{Float64}
use gpufleet_agent.Wire.{EvidencePack}
use gpufleet_agent.Semantics.{Semantics, Pricing, Result, ok, err}
use gpufleet_agent.Devices.{DegradeMark}
use gpufleet_agent.Cost.{CostReport}
use gpufleet_agent.Daemon.{Host, State, Daemon}
use gpufleet_agent.Daemon.Refresh.{refresh}

-- What the command prints after its single cycle.
pub record Printout {F : Type 0} (pr : Pricing F) : Type 0 where
  pub signals_json : String
  pub cost : CostReport pr
  pub degraded : List DegradeMark

-- How that run ends: with output, with a message and the exit code 1, or with a nil dereference.
pub data Exit {F : Type 0} (pr : Pricing F) : Type 0 where
  printed : Printout pr → Exit pr
  exited : String → Exit pr
  panicked : Exit pr

module _ {F : Type 0} {pr : Pricing F} where
  abbrev pub printout : State pr → String → Printout pr
  printout st text = record { signals_json = text; cost = st.cost; degraded = st.window.degraded }

module _ {F W : Type 0} ⦃fl : Float64 F⦄ {pr : Pricing F} (sem : Semantics F) (host : Host F W)
    (marshal : EvidencePack F → Result String) (encode_error : Printout pr → Option String) where
  abbrev pub encoded : Printout pr → Exit pr
  encoded out = elim (encode_error out) [
    | none ↦ printed out
    | some e ↦ exited ("agent: encode failed: " <> e)
  ]

  -- `mustProtoJSON`
  abbrev pub marshalled : State pr → Result String → Exit pr
  marshalled st (err e) = exited ("agent: marshal pack: " <> e)
  marshalled st (ok text) = encoded (printout st text)

  abbrev pub shown : Option (State pr) → Exit pr
  shown none = panicked
  shown (some st) = marshalled st (marshal st.window.pack)

  abbrev pub after_refresh : Option String → Option (State pr) → Exit pr
  after_refresh (some e) st = exited ("agent: refresh failed: " <> e)
  after_refresh none st = shown st

  -- `main` without `-serve`, from the daemon on.
  unfoldable pub run_once : Daemon pr W → W → Exit pr
  unfolding refresh
  run_once d w = let done = refresh sem host d w in after_refresh done.0 done.1.state
