-- ===== src/Examples/Daemons.antt =====
-- Witnesses: a daemon whose clock ticks at every reading and whose collectors answer, or fail.
use gpufleet_agent.Prelude.{ℕ, ◌+◌, ◌*◌, ◌≡◌, false, none, [], ◌∷◌}
use gpufleet_agent.Prelude.Int.{pos}
use gpufleet_agent.Wire.{Time}
use gpufleet_agent.Observation.{observed, failed}
use gpufleet_agent.Semantics.{Pricing, ok, err}
use gpufleet_agent.Daemon.{Collector, Host, Daemon, DaemonConfig, new_daemon}
use gpufleet_agent.Daemon.Refresh.{tick, cancelled, refresh, run}
use gpufleet_agent.Daemon.Cycles.{Follows, Same, ending, refresh-Follows}
use gpufleet_agent.Daemon.History.{stored, count_all, nothing_yet, run_history, run-stored}
use gpufleet_agent.Daemon.Freshness.{IsFair, freshness, freshness-IsFair}
use gpufleet_agent.Examples.{toy, semantics, dcgm_report}

-- The world is the number of clock readings so far.
abbrev clock : ℕ → Time × ℕ
clock w = (pos (w * 1000000000), w + 1)

abbrev pub host : Host ℕ ℕ
host = record {
  system_clock = clock;
  context_error = λ w. none;
  evaluate = λ pack. err "a bug in the gate";
  duration_text = λ d. "long";
}

abbrev pub pricing : Pricing ℕ
pricing = record {
  Policy = ℕ;
  Wedge = ℕ;
  Efficiency = ℕ;
  Impact = ℕ;
  is_zero_policy = λ p. false;
  default_policy = 0;
  device_cost_wedge = λ sample spec policy. ok 0;
  efficiency = λ wedge. wedge;
  job_cost_wedge = λ job effs specs policy. 0;
}

abbrev reporting : Collector ℕ ℕ
reporting = record { collect = λ now window w. (observed dcgm_report, w); set_kill = none }

abbrev failing : Collector ℕ ℕ
failing = record {
  collect = λ now window w. (failed (record { text = "unreachable"; is_capped = false }), w);
  set_kill = none;
}

abbrev pub config : DaemonConfig pricing ℕ
config = record {
  agent_id = "";
  window = pos 0;
  collectors = failing ∷ reporting ∷ [];
  policy = 1;
  staleness_after = pos 0;
  now = none;
}

abbrev pub daemon : Daemon pricing ℕ
daemon = (new_daemon host config 0).0

refresh-Follows_example :
    Follows
      (daemon.now 7).0
      daemon
      (ending semantics host daemon 7)
      (refresh semantics host daemon 7).1
    × Same daemon (refresh semantics host daemon 7).1
refresh-Follows_example = refresh-Follows semantics host daemon 7

run-stored_example :
    stored
      (run semantics host
        (tick (λ w. w) ∷ cancelled (λ w. w) ∷ [])
        (new_daemon host config 0).0
        (new_daemon host config 0).1).0
    ≡ count_all nothing_yet (
        run_history semantics host
          (tick (λ w. w) ∷ cancelled (λ w. w) ∷ [])
          (new_daemon host config 0).0
          (new_daemon host config 0).1)
run-stored_example = run-stored semantics host config (tick (λ w. w) ∷ cancelled (λ w. w) ∷ []) 0

freshness-IsFair_example : IsFair daemon (daemon.now 9).0 (freshness host daemon 9).0
freshness-IsFair_example = freshness-IsFair host daemon 9
