-- ===== src/Api/Judged.antt =====
-- api.go with daemon.go: the verdict that is served is the gate's on the window that is served.
use gpufleet_agent.Prelude.{
  String, ◌≡◌, refl, ◌⊎◌, inl, inr, Bool, true, false, Option, none, some, List, [], ◌∷◌, Each,
  length, nat_eq, ltb, ◌&&◌, arith, Bool-cases,
}
use gpufleet_agent.Float.{Float64}
use gpufleet_agent.Wire.{Time, Verdict, EvidencePack, abstain}
use gpufleet_agent.Semantics.{Semantics, Pricing, PricingFields, Result, ok, err}
use gpufleet_agent.Normalize.{SignalWindow}
use gpufleet_agent.Cost.{CostReport}
use gpufleet_agent.Daemon.{Host, State, Daemon, DaemonConfig, new_daemon}
use gpufleet_agent.Daemon.Refresh.{
  Cycle, Wake, tick, cancelled, publish, eval_verdict, record_metrics_failure, mark_partial, priced,
  normalized, after_collect, after_loop, collect_all, new_cycle, refresh, run_loop, run,
}
use gpufleet_agent.Api.{Response, Encoder, not_collected, encoded}
use gpufleet_agent.Api.Handlers.{marshal_verdict, verdict_or, answer_verdict, handle_verdict}

module _ {F W : Type 0} {pr : Pricing F} (host : Host F W) where
  -- The verdict of the published window is what the gate gave for its pack.
  abbrev pub IsJudged : Daemon pr W → Type 0
  IsJudged d = Each (λ st. st.verdict ≡ eval_verdict host st.window.pack) d.state

  publish-IsJudged :
      (cycle : Cycle F) (st : State pr) (d : Daemon pr W)
      → st.verdict ≡ eval_verdict host st.window.pack
      → IsJudged (publish cycle st d)
  unfolding publish
  publish-IsJudged cycle st d h = by_fresh cycle.metrics_fresh refl
    where
      by_fresh : (b : Bool) → cycle.metrics_fresh ≡ b → IsJudged (publish cycle st d)
      by_fresh true e = rw e h
      by_fresh false e = rw e h

module _ {F W : Type 0} ⦃fl : Float64 F⦄ {pr : Pricing F} (sem : Semantics F)
    (host : Host F W) where
  refresh-IsJudged :
      (d : Daemon pr W) (w : W) → IsJudged host d → IsJudged host (refresh sem host d w).1
  unfolding refresh
  refresh-IsJudged d w h =
      by_loop
        (collect_all host (d.now w).0 d.window d.collectors (new_cycle sem host d) (d.now w).1)
    where
      now : Time
      now = (d.now w).0

      by_report :
          (cycle : Cycle F) (win : SignalWindow F) (r : Result (CostReport pr)) (d' : Daemon pr W)
          → IsJudged host d'
          → IsJudged host (priced sem host now cycle win r d').1
      by_report cycle win (err e) d' g = unfold record_metrics_failure in g
      by_report cycle win (ok c) d' g = publish-IsJudged host cycle _ d' refl

      by_window :
          (cycle : Cycle F) (r : Result (SignalWindow F)) (d' : Daemon pr W)
          → IsJudged host d'
          → IsJudged host (normalized sem host now cycle r d').1
      by_window cycle (err e) d' g = unfold record_metrics_failure in g
      by_window cycle (ok win) d' g =
          by_report cycle (mark_partial (length d'.collectors) cycle win) _ d' g

      by_cycle :
          (cycle : Cycle F) (d' : Daemon pr W)
          → IsJudged host d'
          → IsJudged host (after_collect sem host now cycle d').1
      by_cycle cycle d' g =
          elim (Bool-cases (nat_eq (length cycle.obs) 0 && ltb 0 (length d'.collectors))) [
            | inl e ↦ rw e (unfold record_metrics_failure in g)
            | inr e ↦ rw e (by_window cycle _ d' g)
          ]

      by_loop : (r : Option String × Cycle F × W) → IsJudged host (after_loop sem host now r d).1
      by_loop (some e, cycle, v) = h
      by_loop (none, cycle, v) = by_cycle cycle _ h

  run_loop-IsJudged :
      (wakes : List (Wake W)) (d : Daemon pr W) (w : W)
      → IsJudged host d
      → IsJudged host (run_loop sem host wakes d w).0
  unfolding run_loop
  run_loop-IsJudged [] d w h = h
  run_loop-IsJudged (cancelled wait ∷ wakes) d w h = h
  run_loop-IsJudged (tick wait ∷ wakes) d w h =
      run_loop-IsJudged wakes _ _ (refresh-IsJudged d (wait w) h)

  run-IsJudged :
      (wakes : List (Wake W)) (d : Daemon pr W) (w : W)
      → IsJudged host d
      → IsJudged host (run sem host wakes d w).0
  unfolding run
  run-IsJudged wakes d w h = run_loop-IsJudged wakes _ _ (refresh-IsJudged d _ h)

abbrev verdict_in : {F : Type 0} → Result (Option (Verdict F)) → Option (Verdict F)
verdict_in (ok v) = v
verdict_in (err p) = none

module _ {F W : Type 0} (host : Host F W) where
  -- The gate gave this verdict for the pack, or it gave none and the verdict abstains.
  abbrev pub IsGiven : EvidencePack F → Verdict F → Type 0
  IsGiven pack v =
      (host.evaluate pack ≡ ok (some v))
      ⊎ ((¬ ((u : Verdict F) × (host.evaluate pack ≡ ok (some u)))) × (v.fault_class ≡ abstain))

module _ {F W : Type 0} ⦃fl : Float64 F⦄ {pr : Pricing F} (fields : PricingFields pr)
    (host : Host F W) (enc : Encoder F) where
  -- The answer before the first window, and the answer for the window that is published.
  abbrev pub Serves : Option (State pr) → Response F → Type 0
  Serves none resp = resp ≡ not_collected
  Serves (some st) resp =
      (v : Verdict F) × IsGiven host st.window.pack v
      × (resp ≡ encoded "marshal verdict: " (enc.marshal_verdict v))

  given :
      (st : State pr) (r : Result (Option (Verdict F))) (o : Option (Verdict F))
      → o ≡ verdict_in r
      → (r ≡ ok (some (verdict_or fields host enc st o)))
        ⊎ ((¬ ((u : Verdict F) × (r ≡ ok (some u))))
            × ((verdict_or fields host enc st o).fault_class ≡ abstain))
  given st (ok o) none e = ground arith
  given st (ok o) (some v) e = ground arith
  given st (err p) none e = ground arith
  given st (err p) (some v) e = ground arith

  answer_verdict-Serves :
      (o : Option (State pr))
      → Each (λ st. st.verdict ≡ eval_verdict host st.window.pack) o
      → Serves o (answer_verdict fields host enc o)
  unfolding marshal_verdict eval_verdict
  answer_verdict-Serves none h = refl
  answer_verdict-Serves (some st) h = (
    verdict_or fields host enc st st.verdict,
    given st (host.evaluate st.window.pack) st.verdict h,
    refl,
  )

  -- Whatever the loop of the daemon went through before, `/verdict` answers that nothing is
  -- collected exactly before the first window, and otherwise encodes the verdict that the gate gives
  -- for the pack of the published window; where the gate panics or gives none, it encodes one that
  -- abstains.
  pub run-Serves :
      (sem : Semantics F) (cfg : DaemonConfig pr W) (wakes : List (Wake W)) (later : Daemon pr W)
      (w v : W)
      → let started = new_daemon host cfg w in
        let d = (run sem host wakes started.0 started.1).0 in
        Serves d.state
          (handle_verdict fields host enc (record { first = d; second = later; third = later }) v).0
  unfolding handle_verdict new_daemon
  run-Serves sem cfg wakes later w v = answer_verdict-Serves _ (run-IsJudged sem host wakes _ _ tt)
