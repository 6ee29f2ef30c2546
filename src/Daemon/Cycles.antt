-- ===== src/Daemon/Cycles.antt =====
-- What one `Refresh` does to the published state: four endings.
use mathlib.Core.Path.{subst}
use gpufleet_agent.Prelude.{
  ℕ, suc, ◌+◌, String, ◌≡◌, refl, Bool, true, false, ◌||◌, ◌&&◌, Option, none, some, List, [], ◌∷◌,
  ◌++◌, length, length-append, nat_eq, ltb, arith, if◌then◌else◌,
}
use gpufleet_agent.Float.{Float64}
use gpufleet_agent.Wire.{Time, Duration}
use gpufleet_agent.Observation.{Observation, Collected, observed, failed}
use gpufleet_agent.Semantics.{Semantics, Pricing, Result, ok, err}
use gpufleet_agent.Normalize.{SignalWindow, normalize}
use gpufleet_agent.Cost.{CostReport}
use gpufleet_agent.Daemon.{Collector, Host, State, Daemon, inc64}
use gpufleet_agent.Daemon.Refresh.{
  Cycle, take_collected, collect_all, mark_partial, new_cycle, previous_refreshes, publish,
  eval_verdict, record_metrics_failure, priced, normalized, after_collect, after_loop, refresh,
}

-- A cycle is stopped when the context is cancelled before every collector ran, is lost when no
-- window could be made, or publishes one, with device metrics or without.
pub data Ending : Type 0 where
  stopped : Ending
  lost : Ending
  published : Bool → Ending

-- Some observation reports a device.
abbrev pub has_metrics : {F : Type 0} → List (Observation F) → Bool
has_metrics [] = false
has_metrics (o ∷ os) = ltb 0 (length o.device_windows) || has_metrics os

has_metrics-append :
    {F : Type 0} (os : List (Observation F)) (o : Observation F)
    → has_metrics (os ++ o ∷ []) ≡ (ltb 0 (length o.device_windows) || has_metrics os)
has_metrics-append [] o = ground arith
has_metrics-append (p ∷ os) o = ground (arith, has_metrics-append os o)

abbrev pub ending_with : {F : Type 0} → Cycle F → Option String → Ending
ending_with cycle (some e) = lost
ending_with cycle none = published (has_metrics cycle.obs)

abbrev pub ending_of : {F W : Type 0} → Option String × Cycle F × W → Option String → Ending
ending_of (some e, _, _) error = stopped
ending_of (none, cycle, _) error = ending_with cycle error

module _ {F W : Type 0} {pr : Pricing F} where
  abbrev pub Same : Daemon pr W → Daemon pr W → Type 0
  Same d d' =
      (d'.staleness_after ≡ d.staleness_after) × (d'.started_at ≡ d.started_at) × (d'.now ≡ d.now)

  abbrev Fresh : Time → Daemon pr W → Daemon pr W → State pr → Type 0
  Fresh now d d' st =
      (d'.state ≡ some st)
      × (st.refresh_at ≡ now)
      × (st.refreshes ≡ inc64 (previous_refreshes d.state))

  -- What the published state is after a cycle that began at `now`.
  abbrev pub Follows : Time → Daemon pr W → Ending → Daemon pr W → Type 0
  Follows now d stopped d' =
      (d'.state ≡ d.state) × (d'.cost_state ≡ d.cost_state) × (d'.consec_fails ≡ d.consec_fails)
  Follows now d lost d' =
      (d'.state ≡ d.state)
      × (d'.cost_state ≡ d.cost_state)
      × (d'.consec_fails ≡ inc64 d.consec_fails)
  Follows now d (published true) d' =
      (st : State pr) × Fresh now d d' st × (d'.cost_state ≡ some st) × (d'.consec_fails ≡ 0)
  Follows now d (published false) d' =
      (st : State pr) × Fresh now d d' st
      × (d'.cost_state ≡ d.cost_state)
      × (d'.consec_fails ≡ inc64 d.consec_fails)

-- What the loop over the collectors keeps.
abbrev pub IsCounted : {F : Type 0} → Cycle F → ℕ → Type 0
IsCounted cycle n =
    (cycle.metrics_fresh ≡ has_metrics cycle.obs)
    × (cycle.first_collect_err ≡ none → length cycle.obs ≡ n)

take_collected-IsCounted :
    {F : Type 0} (r : Collected F) (cycle : Cycle F) (n : ℕ)
    → IsCounted cycle n
    → IsCounted (take_collected r cycle) (suc n)
unfolding take_collected
take_collected-IsCounted (failed e) cycle n (m, k) = (m, ground arith)
take_collected-IsCounted (observed o) cycle n (m, k) = (
  ground (arith, has_metrics-append cycle.obs o, m),
  λ h. ground (arith, length-append cycle.obs (o ∷ []), k h),
)

abbrev pub Counted : {F W : Type 0} → ℕ → Option String × Cycle F × W → Type 0
Counted n r = r.0 ≡ none → IsCounted r.1 n

pub collect_all-Counted :
    {F W : Type 0} (host : Host F W) (now : Time) (window : Duration) (cs : List (Collector F W))
    (cycle : Cycle F) (w : W) (n : ℕ)
    → IsCounted cycle n
    → Counted (n + length cs) (collect_all host now window cs cycle w)
unfolding collect_all
collect_all-Counted host now window [] cycle w n (m, k) = λ e. (m, λ h. ground (arith, k h))
collect_all-Counted {F} {W} host now window (c ∷ cs) cycle w n h = go (host.context_error w) (λ e.
    let (m, k) =
      collect_all-Counted host now window cs (take_collected (c.collect now window w).0 cycle)
        (c.collect now window w).1 (suc n)
        (take_collected-IsCounted (c.collect now window w).0 cycle n h) e in
    (m, λ h. ground (arith, k h)))
  where
    go :
        (o : Option String)
        → Counted (n + suc (length cs)) (
            collect_all host now window cs
              (take_collected (c.collect now window w).0 cycle)
              (c.collect now window w).1)
        → Counted {F = F} {W = W}
            (n + suc (length cs))
            (elim o as (λ _. Option String × Cycle F × W) [
              | some e ↦ (some e, cycle, w)
              | none ↦
                  collect_all host now window cs
                    (take_collected (c.collect now window w).0 cycle)
                    (c.collect now window w).1
            ])
    go none later = later
    go (some e) later = λ h. ground arith

module _ {F W : Type 0} ⦃fl : Float64 F⦄ {pr : Pricing F} (sem : Semantics F)
    (host : Host F W) where
  abbrev Ends : Time → Cycle F → Daemon pr W → Option String × Daemon pr W → Type 0
  Ends now cycle d r = Follows now d (ending_with cycle r.0) r.1 × Same d r.1

  priced-Ends :
      (now : Time) (cycle : Cycle F) (win : SignalWindow F) (r : Result (CostReport pr))
      (d : Daemon pr W)
      → cycle.metrics_fresh ≡ has_metrics cycle.obs
      → Ends now cycle d (priced sem host now cycle win r d)
  unfolding publish record_metrics_failure
  priced-Ends now cycle win (err e) d m = ((refl, refl, refl), (refl, refl, refl))
  priced-Ends now cycle win (ok cost) d m =
      subst (λ b. Follows now d (published b) (publish cycle st d) × Same d (publish cycle st d)) m
        (by_fresh cycle.metrics_fresh)
    where
      st : State pr
      st = record {
        window = win;
        cost = cost;
        refresh_at = now;
        refreshes = inc64 (previous_refreshes d.state);
        verdict = eval_verdict host win.pack;
      }

      by_fresh :
          (b : Bool)
          → Follows now d (published b) (publish (record cycle { metrics_fresh = b }) st d)
            × Same d (publish (record cycle { metrics_fresh = b }) st d)
      by_fresh true = ((st, (refl, refl, refl), refl, refl), (refl, refl, refl))
      by_fresh false = ((st, (refl, refl, refl), refl, refl), (refl, refl, refl))

  normalized-Ends :
      (now : Time) (cycle : Cycle F) (r : Result (SignalWindow F)) (d : Daemon pr W)
      → cycle.metrics_fresh ≡ has_metrics cycle.obs
      → Ends now cycle d (normalized sem host now cycle r d)
  unfolding record_metrics_failure
  normalized-Ends now cycle (err e) d m = ((refl, refl, refl), (refl, refl, refl))
  normalized-Ends now cycle (ok win) d m =
      priced-Ends now cycle (mark_partial (length d.collectors) cycle win) _ d m

  after_collect-Ends :
      (now : Time) (cycle : Cycle F) (d : Daemon pr W)
      → IsCounted cycle (length d.collectors)
      → Ends now cycle d (after_collect sem host now cycle d)
  unfolding after_collect record_metrics_failure
  after_collect-Ends now cycle d (m, k) =
      decided (nat_eq (length cycle.obs) 0 && ltb 0 (length d.collectors)) refl
    where
      by_error :
          (o : Option String)
          → cycle.first_collect_err ≡ o
          → (nat_eq (length cycle.obs) 0 && ltb 0 (length d.collectors)) ≡ true
          → Follows now d (ending_with cycle o) (record_metrics_failure o d)
            × Same d (record_metrics_failure o d)
      by_error (some e) h test = ((refl, refl, refl), (refl, refl, refl))
      by_error none h test = ground (arith, k h)

      decided :
          (b : Bool)
          → (nat_eq (length cycle.obs) 0 && ltb 0 (length d.collectors)) ≡ b
          → Ends now cycle d (
              if b
              then (cycle.first_collect_err, record_metrics_failure cycle.first_collect_err d)
              else normalized sem host now cycle
                  (normalize sem d.agent_id now d.window cycle.obs)
                  d)
      decided true test = by_error cycle.first_collect_err refl test
      decided false test =
          normalized-Ends now cycle (normalize sem d.agent_id now d.window cycle.obs) d m

  -- How the cycle that starts in world `w` ends.
  unfoldable pub ending : Daemon pr W → W → Ending
  ending d w =
      ending_of
        (collect_all host (d.now w).0 d.window d.collectors (new_cycle sem host d) (d.now w).1)
        (refresh sem host d w).0

  -- `Refresh` degrades to stale but valid: a cycle that is stopped or lost leaves both published
  -- windows as they are; one that publishes replaces the newest window, which carries the time at
  -- which the cycle began and the next refresh number; the metrics-bearing window is replaced by it
  -- exactly if a collector reported a device, and is otherwise kept. The failure streak is reset by
  -- metrics, is kept by a stopped cycle and grows by one in every other.
  pub refresh-Follows :
      (d : Daemon pr W) (w : W)
      → Follows (d.now w).0 d (ending d w) (refresh sem host d w).1
        × Same d (refresh sem host d w).1
  unfolding refresh ending
  refresh-Follows d w =
      ends (collect_all host now d.window d.collectors (new_cycle sem host d) (d.now w).1) (λ e.
        let (m, k) =
          collect_all-Counted host now d.window d.collectors (new_cycle sem host d) (d.now w).1 0
            (refl, λ h. refl) e in
        (m, λ h. ground (arith, k h)))
    where
      now : Time
      now = (d.now w).0

      ends :
          (r : Option String × Cycle F × W)
          → Counted (length d.collectors) r
          → Follows now d
              (ending_of r (after_loop sem host now r d).0)
              (after_loop sem host now r d).1
            × Same d (after_loop sem host now r d).1
      ends (some e, cycle, w') counted = ((refl, refl, refl), (refl, refl, refl))
      ends (none, cycle, w') counted =
          after_collect-Ends now cycle (record d { errs = cycle.errs }) (counted refl)
