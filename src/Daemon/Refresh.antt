-- ===== src/Daemon/Refresh.antt =====
-- daemon.go: `Refresh`, one cycle of collection, normalization, cost and gate; and the loop `Run`.
use gpufleet_agent.Prelude.{
  ℕ, String, ◌+◌, ◌-◌, Bool, true, false, ◌||◌, ◌&&◌, Option, none, some, is_some, List, [], ◌∷◌,
  ◌++◌, ◌==◌, length, nat_eq, ltb, insert, if◌then◌else◌,
}
use gpufleet_agent.Prelude.Strings.{◌<>◌, itoa}
use gpufleet_agent.Float.{Float64}
use gpufleet_agent.Wire.{Time, Duration, EvidencePack, Verdict}
use gpufleet_agent.Observation.{Observation, Collected, observed, failed}
use gpufleet_agent.Semantics.{Semantics, Pricing, Result, ok, err}
use gpufleet_agent.Normalize.{SignalWindow, normalize}
use gpufleet_agent.Cost.{CostReport, cost_wedge}
use gpufleet_agent.Daemon.{Collector, Host, State, Daemon, inc64}

-- `stalenessReason`; a nil error is `none`.
unfoldable pub staleness_reason : ℕ → Option String → String → String
staleness_reason consec_fails (some e) fallback =
    itoa consec_fails <> " consecutive metrics-collection failure(s)" <> ": " <> e
staleness_reason consec_fails none fallback =
    if fallback == ""
    then itoa consec_fails <> " consecutive metrics-collection failure(s)"
    else itoa consec_fails <> " consecutive metrics-collection failure(s)" <> ": " <> fallback

-- `evalVerdict`: a panic of the gate is a missing verdict.
unfoldable pub eval_verdict : {F W : Type 0} → Host F W → EvidencePack F → Option (Verdict F)
eval_verdict host pack = elim (host.evaluate pack) [ ok v ↦ v | err panic ↦ none ]

-- The variables of the loop over the collectors; `errors` is how often `d.errs` was bumped.
pub record Cycle (F : Type 0) : Type 0 where
  pub obs : List (Observation F)
  pub first_collect_err : Option String
  pub soft_errs : ℕ
  pub metrics_fresh : Bool
  pub errs : ℕ

abbrev first_error : Option String → String → Option String
first_error none e = some e
first_error (some e) _ = some e

module _ {F : Type 0} where
  unfoldable pub take_collected : Collected F → Cycle F → Cycle F
  take_collected (failed e) cycle = record cycle {
    errs = inc64 cycle.errs;
    soft_errs = if e.is_capped then cycle.soft_errs + 1 else cycle.soft_errs;
    first_collect_err = first_error cycle.first_collect_err e.text;
  }
  take_collected (observed o) cycle = record cycle {
    metrics_fresh = if ltb 0 (length o.device_windows) then true else cycle.metrics_fresh;
    obs = cycle.obs ++ o ∷ [];
  }

  -- The provenance of a partial collection.
  unfoldable pub mark_partial : ℕ → Cycle F → SignalWindow F → SignalWindow F
  mark_partial collectors cycle win =
      if is_some cycle.first_collect_err || ltb (length cycle.obs) collectors
      then record win {
        pack = record win.pack {
          provenance = insert "agent.soft_capped_sources" (itoa cycle.soft_errs) (
              insert "agent.failed_sources" (itoa (collectors - length cycle.obs))
                (insert "agent.partial_collection" "true" win.pack.provenance));
        };
      }
      else win

module _ {F W : Type 0} where
  -- The loop over the collectors, with the error of the context if it was cancelled.
  unfoldable pub collect_all :
      Host F W → Time → Duration → List (Collector F W) → Cycle F → W → Option String × Cycle F × W
  unfolding take_collected
  collect_all host now window [] cycle w = (none, cycle, w)
  collect_all host now window (c ∷ cs) cycle w = elim (host.context_error w) [
    | some e ↦ (some e, cycle, w)
    | none ↦
        collect_all host now window cs (take_collected (c.collect now window w).0 cycle)
          (c.collect now window w).1
  ]

  -- `wireKill`
  unfoldable pub wire_kill : List (Collector F W) → W → W
  wire_kill [] w = w
  wire_kill (c ∷ cs) w = wire_kill cs (elim c.set_kill [ none ↦ w | some set ↦ set w ])

-- The loop of `Run`: whether each wait ends with a tick or with the cancelled context. The
-- world may change while the loop waits.
pub data Wake (W : Type 0) : Type 0 where
  tick : (W → W) → Wake W
  cancelled : (W → W) → Wake W

abbrev pub previous_refreshes : {F : Type 0} {pr : Pricing F} → Option (State pr) → ℕ
previous_refreshes none = 0
previous_refreshes (some st) = st.refreshes

module _ {F W : Type 0} {pr : Pricing F} where
  -- `recordMetricsFailure`
  unfoldable pub record_metrics_failure : Option String → Daemon pr W → Daemon pr W
  unfolding staleness_reason
  record_metrics_failure e d = record d {
    errs = inc64 d.errs;
    consec_fails = inc64 d.consec_fails;
    last_reason = staleness_reason (inc64 d.consec_fails) e "";
  }

  -- The last part of `Refresh`, under the lock.
  unfoldable pub publish : Cycle F → State pr → Daemon pr W → Daemon pr W
  unfolding staleness_reason
  publish cycle new_state d =
      if cycle.metrics_fresh
      then record d {
        state = some new_state;
        cost_state = some new_state;
        consec_fails = 0;
        last_reason = "";
      }
      else record d {
        state = some new_state;
        consec_fails = inc64 d.consec_fails;
        last_reason =
            staleness_reason (inc64 d.consec_fails) cycle.first_collect_err
              "no metrics scraped this cycle";
      }

module _ {F W : Type 0} ⦃fl : Float64 F⦄ {pr : Pricing F} (sem : Semantics F)
    (host : Host F W) where
  abbrev pub priced :
      Time
      → Cycle F
      → SignalWindow F
      → Result (CostReport pr)
      → Daemon pr W
      → Option String × Daemon pr W
  priced now cycle win (err e) d = (some e, record_metrics_failure (some e) d)
  priced now cycle win (ok cost) d = (
    none,
    publish cycle
        (record {
          window = win;
          cost = cost;
          refresh_at = now;
          refreshes = inc64 (previous_refreshes d.state);
          verdict = eval_verdict host win.pack;
        })
        d,
  )

  abbrev pub normalized :
      Time → Cycle F → Result (SignalWindow F) → Daemon pr W → Option String × Daemon pr W
  normalized now cycle (err e) d = (some e, record_metrics_failure (some e) d)
  normalized now cycle (ok win) d =
      let marked = mark_partial (length d.collectors) cycle win in
      priced now cycle marked (cost_wedge pr marked d.policy) d

  -- `Refresh` after the loop over the collectors.
  unfoldable pub after_collect : Time → Cycle F → Daemon pr W → Option String × Daemon pr W
  unfolding publish record_metrics_failure mark_partial
  after_collect now cycle d =
      if nat_eq (length cycle.obs) 0 && ltb 0 (length d.collectors)
      then (cycle.first_collect_err, record_metrics_failure cycle.first_collect_err d)
      else normalized now cycle (normalize sem d.agent_id now d.window cycle.obs) d

  abbrev pub new_cycle : Daemon pr W → Cycle F
  new_cycle d = record {
    obs = [];
    first_collect_err = none;
    soft_errs = 0;
    metrics_fresh = false;
    errs = d.errs;
  }

  abbrev pub after_loop :
      Time → Option String × Cycle F × W → Daemon pr W → Option String × Daemon pr W × W
  after_loop now (some e, cycle, w) d = (some e, record d { errs = cycle.errs }, w)
  after_loop now (none, cycle, w) d =
      let done = after_collect now cycle (record d { errs = cycle.errs }) in (done.0, done.1, w)

  unfoldable pub refresh : Daemon pr W → W → Option String × Daemon pr W × W
  unfolding collect_all after_collect
  refresh d w =
      let at = d.now w in
      after_loop at.0 (collect_all host at.0 d.window d.collectors (new_cycle d) at.1) d

  unfoldable pub run_loop : List (Wake W) → Daemon pr W → W → Daemon pr W × W
  unfolding refresh
  run_loop [] d w = (d, w)
  run_loop (cancelled wait ∷ wakes) d w = (d, wait w)
  run_loop (tick wait ∷ wakes) d w = let done = refresh d (wait w) in run_loop wakes done.1 done.2

  unfoldable pub run : List (Wake W) → Daemon pr W → W → Daemon pr W × W
  unfolding run_loop wire_kill
  run wakes d w = let done = refresh d (wire_kill d.collectors w) in run_loop wakes done.1 done.2
