-- ===== src/Command/Queries.antt =====
-- cmd/agent/main.go, `overrideQueries`: the queries that the command gives to Prometheus.
use mathlib.Core.Path.{subst}
use gpufleet_agent.Prelude.{
  String, ◌≡◌, refl, inl, inr, Bool, true, false, ◌==◌, Option, none, some, All, All-weaken, arith,
  Bool-cases, if◌then◌else◌,
}
use gpufleet_agent.Prelude.Int.{pos}
use gpufleet_agent.Float.{Float64}
use gpufleet_agent.Wire.{Time, Duration}
use gpufleet_agent.Observation.{DeviceWindow, Collected, observed, failed}
use gpufleet_agent.Chain.{MetricsSource}
use gpufleet_agent.Prometheus.{PromQueries, PrometheusCollector}
use gpufleet_agent.Prometheus.Outcome.{IsQueried, prom_collect-IsQueried}
use gpufleet_agent.Runtime.{Parts, prom_primary, no_queries, default_prom_queries}
use gpufleet_agent.Spec.{DeviceSpec}
use gpufleet_agent.Command.{Flags, override_queries, flag_queries, runtime_config}

-- The flags never leave all queries empty, so the defaults, which have an ECC query, are not taken.
override_queries-some :
    {F : Type 0} (fs : Flags F) → no_queries (override_queries (flag_queries fs)) ≡ false
unfolding override_queries
override_queries-some fs = elim (Bool-cases (fs.query_tensor_active == "")) [
  | inl e ↦ rw e refl
  | inr e ↦ rw e (rw e refl)
]

module _ {F : Type 0} ⦃fl : Float64 F⦄ where
  -- What the collector of the command's Prometheus says of errors: nothing is known of them.
  abbrev pub NoErrors : Collected F → Type 0
  NoErrors (failed e) = Unit
  NoErrors (observed o) =
      All (λ dw. (dw.ecc_double_bit_known ≡ false) × (dw.link_errors_known ≡ false))
        o.device_windows

  IsQueried-NoErrors :
      (Told : String → String → F → Type 0) (ws : F) (q : PromQueries) (r : Collected F)
      → q.ecc_double_bit ≡ ""
      → IsQueried Told ws q r
      → NoErrors r
  IsQueried-NoErrors Told ws q (failed e) none_asked h = tt
  IsQueried-NoErrors Told ws q (observed o) none_asked (source, windows, mappings) =
      All-weaken _ (λ dw. (dw.ecc_double_bit_known ≡ false) × (dw.link_errors_known ≡ false))
        o.device_windows (λ dw h. (unasked dw (λ known. (h.1.ecc known).0 none_asked), h.1.link))
        windows
    where
      unasked :
          (dw : DeviceWindow F)
          → (dw.ecc_double_bit_known ≡ true → ⊥)
          → dw.ecc_double_bit_known ≡ false
      unasked dw h = elim (Bool-cases dw.ecc_double_bit_known) [
        | inl known ↦ absurd (h known)
        | inr unknown ↦ unknown
      ]

module _ {F W : Type 0} ⦃fl : Float64 F⦄ where
  configured :
      (b : Bool) (given source : MetricsSource F W) (now : Time) (window : Duration) (w : W)
      → (if b then none else some given) ≡ some source
      → NoErrors (given.collect now window w).0
      → NoErrors (source.collect now window w).0
  configured true given source now window w e h = absurd (omega (arith, no_source e))
    where
      no_source : ◌≡◌ {A = Option (MetricsSource F W)} none (some source) → ⊥
      no_source p = cc
  configured false given source now window w e h =
      let same : given ≡ source = cc in subst (λ s. NoErrors (s.collect now window w).0) same h

  -- With any flags, any file of devices and whatever Prometheus answers, the Prometheus collector that
  -- the command configures knows no count of ECC errors of any device, nor of link errors.
  pub command-NoErrors :
      (parts : Parts F W) (fs : Flags F) (spec : DeviceSpec F) (source : MetricsSource F W)
      → prom_primary parts (runtime_config fs spec) ≡ some source
      → (now : Time) (window : Duration) (w : W) → NoErrors (source.collect now window w).0
  unfolding runtime_config override_queries
  command-NoErrors parts fs spec source e now window w =
      let q = override_queries (flag_queries fs) in
      let c : PrometheusCollector W = record {
        base_url = fs.prometheus_url;
        node = fs.node;
        queries = if no_queries q then default_prom_queries else q;
        labels = (runtime_config fs spec).labels;
        http_client = none;
        timeout = pos 0;
      } in
      configured (fs.prometheus_url == "") _ source now window w e (
        IsQueried-NoErrors _ (fl.seconds window) c.queries _ (rw (override_queries-some fs) refl)
          (prom_collect-IsQueried F parts.prom c now window w))
