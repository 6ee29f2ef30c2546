-- ===== src/Daemon/History.antt =====
-- The loop of `Run` against its history: what `Freshness` reads is determined by how the cycles ended.
use gpufleet_agent.Prelude.{
  ℕ, ◌≡◌, refl, ap, ◌∙◌, true, false, Option, none, some, List, [], ◌∷◌, arith,
}
use gpufleet_agent.Float.{Float64}
use gpufleet_agent.Wire.{Time}
use gpufleet_agent.Semantics.{Semantics, Pricing}
use gpufleet_agent.Daemon.{Host, State, Daemon, DaemonConfig, new_daemon, inc64}
use gpufleet_agent.Daemon.Refresh.{
  Wake, tick, cancelled, previous_refreshes, refresh, run_loop, wire_kill, run,
}
use gpufleet_agent.Daemon.Cycles.{
  Ending, stopped, lost, published, Follows, ending, refresh-Follows,
}

-- What a history of cycles, each with the time at which it began, amounts to.
pub record Tally : Type 0 where
  -- When the last cycle with metrics began.
  pub last_metrics : Option Time
  -- The cycles without metrics since then, of those that were not stopped.
  pub streak : ℕ
  -- The published windows.
  pub windows : ℕ

abbrev pub count : Tally → Time × Ending → Tally
count t (now, stopped) = t
count t (now, lost) = record t { streak = inc64 t.streak }
count t (now, published true) = record {
  last_metrics = some now;
  streak = 0;
  windows = inc64 t.windows;
}
count t (now, published false) = record t { streak = inc64 t.streak; windows = inc64 t.windows }

abbrev pub count_all : Tally → List (Time × Ending) → Tally
count_all t [] = t
count_all t (c ∷ cs) = count_all (count t c) cs

abbrev pub nothing_yet : Tally
nothing_yet = record { last_metrics = none; streak = 0; windows = 0 }

module _ {F : Type 0} {pr : Pricing F} where
  abbrev pub time_of : Option (State pr) → Option Time
  time_of none = none
  time_of (some st) = some st.refresh_at

-- What the daemon stores of its history.
abbrev pub stored : {F W : Type 0} {pr : Pricing F} → Daemon pr W → Tally
stored d = record {
  last_metrics = time_of d.cost_state;
  streak = d.consec_fails;
  windows = previous_refreshes d.state;
}

Tally_eq :
    {a b : Option Time} {m n j k : ℕ}
    → a ≡ b
    → m ≡ n
    → j ≡ k
    → ◌≡◌ {A = Tally}
        (record { last_metrics = a; streak = m; windows = j })
        (record { last_metrics = b; streak = n; windows = k })
Tally_eq p q r = ground (arith, p, q, r)

module _ {F W : Type 0} {pr : Pricing F} where
  Follows-count :
      (now : Time) (d d' : Daemon pr W) (e : Ending)
      → Follows now d e d'
      → stored d' ≡ count (stored d) (now, e)
  Follows-count now d d' stopped h = Tally_eq (ap time_of h.1) h.2 (ap previous_refreshes h.0)
  Follows-count now d d' lost h = Tally_eq (ap time_of h.1) h.2 (ap previous_refreshes h.0)
  Follows-count now d d' (published true) (st, (shown, at, number), c, f) =
      Tally_eq (ap time_of c ∙ ap some at) f (ap previous_refreshes shown ∙ number)
  Follows-count now d d' (published false) (st, (shown, at, number), c, f) =
      Tally_eq (ap time_of c) f (ap previous_refreshes shown ∙ number)

module _ {F W : Type 0} ⦃fl : Float64 F⦄ {pr : Pricing F} (sem : Semantics F)
    (host : Host F W) where
  -- The cycles of `run_loop`, as they ended.
  unfoldable pub history : List (Wake W) → Daemon pr W → W → List (Time × Ending)
  history [] d w = []
  history (cancelled wait ∷ wakes) d w = []
  history (tick wait ∷ wakes) d w =
      ((d.now (wait w)).0, ending sem host d (wait w))
      ∷ history wakes (refresh sem host d (wait w)).1 (refresh sem host d (wait w)).2

  unfoldable pub run_history : List (Wake W) → Daemon pr W → W → List (Time × Ending)
  unfolding history
  run_history wakes d w = history (tick (wire_kill d.collectors) ∷ wakes) d w

  run_loop-stored :
      (wakes : List (Wake W)) (d : Daemon pr W) (w : W)
      → stored (run_loop sem host wakes d w).0 ≡ count_all (stored d) (history wakes d w)
  unfolding run_loop history
  run_loop-stored [] d w = refl
  run_loop-stored (cancelled wait ∷ wakes) d w = refl
  run_loop-stored (tick wait ∷ wakes) d w =
      run_loop-stored wakes (refresh sem host d (wait w)).1 (refresh sem host d (wait w)).2
      ∙ ap
          (λ t.
            count_all t
              (history wakes (refresh sem host d (wait w)).1 (refresh sem host d (wait w)).2))
          (Follows-count (d.now (wait w)).0 d _ (ending sem host d (wait w))
            (refresh-Follows sem host d (wait w)).0)

  run-stored_from :
      (wakes : List (Wake W)) (d : Daemon pr W) (w : W)
      → stored (run sem host wakes d w).0 ≡ count_all (stored d) (run_history wakes d w)
  unfolding run run_history run_loop
  run-stored_from wakes d w = run_loop-stored (tick (wire_kill d.collectors) ∷ wakes) d w

  -- Refinement: after `Run` on a new daemon, through any number of ticks and whatever the sources,
  -- the clock and the context do, the time of the metrics-bearing window is when the last cycle with
  -- metrics began (none if there was none), the failure streak counts the cycles without metrics
  -- since then, and the refresh number counts the published windows, both modulo 2 ^ 64.
  pub run-stored :
      (cfg : DaemonConfig pr W) (wakes : List (Wake W)) (w : W)
      → stored (run sem host wakes (new_daemon host cfg w).0 (new_daemon host cfg w).1).0
        ≡ count_all nothing_yet
            (run_history wakes (new_daemon host cfg w).0 (new_daemon host cfg w).1)
  unfolding new_daemon
  run-stored cfg wakes w = run-stored_from wakes (new_daemon host cfg w).0 (new_daemon host cfg w).1
