-- ===== src/Daemon/Provenance.antt =====
-- daemon.go, `Refresh`: the window that a cycle publishes is made of what its collectors reported.
use mathlib.Core.Path.{subst}
use gpufleet_agent.Prelude.{
  ℕ, ◌+◌, ◌<◌, inl, inr, String, ◌≡◌, refl, sym, ap, ◌∙◌, ◌&&◌, Option, none, some, List, [], ◌∷◌,
  ◌++◌, length, nat_eq, ltb, All, append-nil, append_assoc, arith, Bool-cases,
}
use gpufleet_agent.Float.{Float64}
use gpufleet_agent.Wire.{Time, Duration}
use gpufleet_agent.Observation.{Observation, Collected, observed, failed}
use gpufleet_agent.Semantics.{Semantics, Pricing, Result, ok, err}
use gpufleet_agent.Normalize.{SignalWindow, normalize}
use gpufleet_agent.Normalize.Trace.{IsTraced}
use gpufleet_agent.Normalize.Legs.{normalize-IsTraced}
use gpufleet_agent.Cost.{CostReport, cost_wedge}
use gpufleet_agent.Daemon.{Collector, Host, State, Daemon}
use gpufleet_agent.Daemon.Cycles.{IsCounted, Counted, collect_all-Counted}
use gpufleet_agent.Daemon.Refresh.{
  Cycle, take_collected, collect_all, mark_partial, record_metrics_failure, new_cycle, publish,
  eval_verdict, priced, normalized, after_collect, after_loop, refresh,
}

module _ {F : Type 0} where
  abbrev reported : Collected F → List (Observation F)
  reported (observed o) = o ∷ []
  reported (failed e) = []

  take_collected-reported :
      (r : Collected F) (cycle : Cycle F) → (take_collected r cycle).obs ≡ cycle.obs ++ reported r
  unfolding take_collected
  take_collected-reported (observed o) cycle = refl
  take_collected-reported (failed e) cycle = sym (append-nil cycle.obs)

  mark_partial-timeline :
      (n : ℕ) (cycle : Cycle F) (win : SignalWindow F)
      → (mark_partial n cycle win).pack.timeline ≡ win.pack.timeline
  unfolding mark_partial
  mark_partial-timeline n cycle win = ground arith

module _ {F W : Type 0} where
  -- What the collectors report, one after the other, in a cycle that is not cancelled.
  abbrev pub reports : List (Collector F W) → Time → Duration → W → List (Observation F)
  reports [] now window w = []
  reports (c ∷ cs) now window w =
      reported (c.collect now window w).0 ++ reports cs now window (c.collect now window w).1

  abbrev Gathers : List (Observation F) → Option String × Cycle F × W → Type 0
  Gathers obs (some e, cycle, w) = Unit
  Gathers obs (none, cycle, w) = cycle.obs ≡ obs

  collect_all-Gathers :
      (host : Host F W) (now : Time) (window : Duration) (cs : List (Collector F W))
      (cycle : Cycle F) (w : W)
      → Gathers (cycle.obs ++ reports cs now window w) (collect_all host now window cs cycle w)
  unfolding collect_all
  collect_all-Gathers host now window [] cycle w = sym (append-nil cycle.obs)
  collect_all-Gathers host now window (c ∷ cs) cycle w = step (host.context_error w) (
      subst (λ obs. Gathers obs (collect_all host now window cs (take_collected r.0 cycle) r.1))
        (ap (λ obs. obs ++ reports cs now window r.1) (take_collected-reported r.0 cycle)
          ∙ append_assoc cycle.obs (reported r.0) (reports cs now window r.1))
        (collect_all-Gathers host now window cs (take_collected r.0 cycle) r.1))
    where
      r : Collected F × W
      r = c.collect now window w

      step :
          (o : Option String)
          → Gathers
              (cycle.obs ++ (reported r.0 ++ reports cs now window r.1))
              (collect_all host now window cs (take_collected r.0 cycle) r.1)
          → Gathers
              (cycle.obs ++ (reported r.0 ++ reports cs now window r.1))
              (elim o as (λ _. Option String × Cycle F × W) [
                | some e ↦ (some e, cycle, w)
                | none ↦ collect_all host now window cs (take_collected r.0 cycle) r.1
              ])
      step none h = h
      step (some e) h = tt

module _ {F W : Type 0} ⦃fl : Float64 F⦄ {pr : Pricing F} (sem : Semantics F)
    (host : Host F W) where
  -- The published state: its pack has the timeline of the normalized reports, each entry of which one
  -- of the reports accounts for, and its verdict is that of the gate on this pack.
  pub record IsSourced (obs : List (Observation F)) (agent_id : String) (now : Time)
      (window : Duration) (st : State pr) : Type 0 where
    pub made :
        (win : SignalWindow F) × (normalize sem agent_id now window obs ≡ ok win)
        × (st.window.pack.timeline ≡ win.pack.timeline)
    pub traced : All (IsTraced obs) st.window.pack.timeline
    pub judged : st.verdict ≡ eval_verdict host st.window.pack

  abbrev Publishes :
      List (Observation F) → String → Time → Duration → Option String × Daemon pr W → Type 0
  Publishes obs agent_id now window (some e, d) = Unit
  Publishes obs agent_id now window (none, d) =
      (st : State pr) × (d.state ≡ some st) × IsSourced obs agent_id now window st

  publish-state :
      (cycle : Cycle F) (st : State pr) (d : Daemon pr W) → (publish cycle st d).state ≡ some st
  unfolding publish
  publish-state cycle st d = elim (Bool-cases cycle.metrics_fresh) [
    | inl fresh ↦ rw fresh refl
    | inr stale ↦ rw stale refl
  ]

  normalized-Publishes :
      (now : Time) (cycle : Cycle F) (d : Daemon pr W) (r : Result (SignalWindow F))
      → normalize sem d.agent_id now d.window cycle.obs ≡ r
      → Publishes cycle.obs d.agent_id now d.window (normalized sem host now cycle r d)
  normalized-Publishes now cycle d (err e) h = tt
  normalized-Publishes now cycle d (ok win) h = by_cost (cost_wedge pr marked d.policy)
    where
      marked : SignalWindow F
      marked = mark_partial (length d.collectors) cycle win

      by_cost :
          (r : Result (CostReport pr))
          → Publishes cycle.obs d.agent_id now d.window (priced sem host now cycle marked r d)
      by_cost (err e) = tt
      by_cost (ok cost) =
          let same = mark_partial-timeline (length d.collectors) cycle win in
          (
            _,
            publish-state cycle _ d,
            record {
              made = (win, h, same);
              traced =
                  subst (All (IsTraced cycle.obs)) (sym same)
                    (normalize-IsTraced cycle.obs sem d.agent_id now d.window h);
              judged = refl;
            },
          )

  collected-Publishes :
      (now : Time) (cycle : Cycle F) (d : Daemon pr W)
      → IsCounted cycle (length d.collectors)
      → Publishes cycle.obs d.agent_id now d.window (after_collect sem host now cycle d)
  unfolding after_collect
  collected-Publishes now cycle d (fresh, counted) =
      elim (Bool-cases (nat_eq (length cycle.obs) 0 && ltb 0 (length d.collectors))) [
        | inl empty ↦ rw empty (by_error cycle.first_collect_err refl (ground arith) (ground arith))
        | inr full ↦ rw full (normalized-Publishes now cycle d _ refl)
      ]
    where
      by_error :
          (o : Option String)
          → cycle.first_collect_err ≡ o
          → length cycle.obs ≡ 0
          → 0 < length d.collectors
          → Publishes cycle.obs d.agent_id now d.window (o, record_metrics_failure o d)
      by_error (some e) h empty some_collector = tt
      by_error none h empty some_collector = absurd (omega (arith, counted h))

  -- A cycle that returns no error publishes a window of what its collectors reported in that cycle: its
  -- timeline is the one that the normalization of these reports gives, one of them accounts for each
  -- entry, and the verdict that is published with it is the gate's on this very pack.
  pub refresh-IsSourced :
      (d : Daemon pr W) (w : W)
      → (refresh sem host d w).0 ≡ none
      → (st : State pr) × ((refresh sem host d w).1.state ≡ some st)
        × IsSourced
            (reports d.collectors (d.now w).0 d.window (d.now w).1)
            d.agent_id
            (d.now w).0
            d.window
            st
  unfolding refresh
  refresh-IsSourced d w e =
      by_loop
        (collect_all host (d.now w).0 d.window d.collectors (new_cycle sem host d) (d.now w).1)
        (collect_all-Gathers host (d.now w).0 d.window d.collectors (new_cycle sem host d)
          (d.now w).1)
        (collect_all-Counted host (d.now w).0 d.window d.collectors (new_cycle sem host d)
          (d.now w).1 0 (refl, λ h. refl))
        e
    where
      obs : List (Observation F)
      obs = reports d.collectors (d.now w).0 d.window (d.now w).1

      by_error :
          (o : Option String × Daemon pr W)
          → Publishes obs d.agent_id (d.now w).0 d.window o
          → o.0 ≡ none
          → (st : State pr) × (o.1.state ≡ some st)
            × IsSourced obs d.agent_id (d.now w).0 d.window st
      by_error (some x, d') p h = ground (arith, h)
      by_error (none, d') p h = p

      by_loop :
          (r : Option String × Cycle F × W)
          → Gathers obs r
          → Counted (0 + length d.collectors) r
          → (after_loop sem host (d.now w).0 r d).0 ≡ none
          → (st : State pr) × ((after_loop sem host (d.now w).0 r d).1.state ≡ some st)
            × IsSourced obs d.agent_id (d.now w).0 d.window st
      by_loop (some x, cycle, w') g c h = ground (arith, h)
      by_loop (none, cycle, w') g c h =
          let d' : Daemon pr W = record d { errs = cycle.errs } in
          by_error (after_collect sem host (d.now w).0 cycle d')
            (subst
              (λ os.
                Publishes os d.agent_id (d.now w).0 d.window
                  (after_collect sem host (d.now w).0 cycle d'))
              g
              (collected-Publishes (d.now w).0 cycle d'
                (subst (IsCounted cycle) (omega arith) (c refl))))
            h
