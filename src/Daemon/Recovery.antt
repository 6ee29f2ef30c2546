-- ===== src/Daemon/Recovery.antt =====
-- daemon.go: one cycle that collects metrics makes the data fresh again.
use mathlib.Core.Path.{subst}
use gpufleet_agent.Prelude.{◌≡◌, sym, ap, true, false, Option, none, some, arith}
use gpufleet_agent.Prelude.Int.{◌≤ℤ◌}
use gpufleet_agent.Float.{Float64}
use gpufleet_agent.Wire.{Time}
use gpufleet_agent.Semantics.{Semantics, Pricing}
use gpufleet_agent.Daemon.{Host, State, Daemon}
use gpufleet_agent.Daemon.Refresh.{refresh}
use gpufleet_agent.Daemon.Cycles.{published, Follows, ending, refresh-Follows}
use gpufleet_agent.Daemon.Freshness.{
  freshness, freshness_at, age_of, freshness-IsFair, collected_or,
}

module _ {F W : Type 0} ⦃fl : Float64 F⦄ {pr : Pricing F} (sem : Semantics F)
    (host : Host F W) where
  collected_at_known :
      (d : Daemon pr W) (now : Time) (st : State pr) (o : Option (State pr))
      → o ≡ some st
      → (freshness_at host d o now).collected_at ≡ some st.refresh_at
  unfolding freshness_at
  collected_at_known d now st none e = ground arith
  collected_at_known d now st (some st') e = ap (λ o. some (collected_or now o)) e

  -- After a cycle that publishes metrics, whatever failed before, `Freshness` is not stale, at every
  -- reading of the clock at which the age since the start of that cycle is within the threshold.
  pub refresh-freshness :
      (d : Daemon pr W) (w later : W)
      → ending sem host d w ≡ published true
      → age_of ((refresh sem host d w).1.now later).0 (d.now w).0 ≤ℤ d.staleness_after
      → (freshness host (refresh sem host d w).1 later).0.stale ≡ false
  unfolding freshness
  refresh-freshness d w later e young =
      let d' = (refresh sem host d w).1 in
      let now = (d'.now later).0 in
      let (follows, same) = refresh-Follows sem host d w in
      let (st, at, known, fails) = subst (λ x. Follows (d.now w).0 d x d') e follows in
      (freshness-IsFair host d' later).fresh.1 (
        st,
        known,
        collected_at_known d' now st d'.cost_state known,
        subst (λ t. age_of now t ≤ℤ d'.staleness_after) (sym at.1)
            (subst (λ s. age_of now (d.now w).0 ≤ℤ s) (sym same.0) young),
      )
