-- ===== src/Gpu/Unqueried.antt =====
-- sources_gpu.go, `DefaultCollectors`: what the metrics chain of the GPU build asks.
use mathlib.Core.Path.{subst}
use gpufleet_agent.Runtime.{exporter_source}
use gpufleet_agent.Prelude.Sort.{sort_strings}
use gpufleet_agent.Prelude.{
  sym, keys, String, ◌≡◌, refl, inl, inr, false, none, [], ◌==◌, Bool-cases,
}
use gpufleet_agent.Prelude.Strings.{or_default}
use gpufleet_agent.Float.{Float64}
use gpufleet_agent.Wire.{Time, Duration, dcgm}
use gpufleet_agent.Observation.{Collected, observed, failed}
use gpufleet_agent.Chain.{
  MetricsSource, MetricsChain, primary_answered, reason_for, mark_chain_provenance, fallen_back,
  chain_collect,
}
use gpufleet_agent.Dcgm.Exposition.Scrape.{DcgmExporter, dcgm_collect}
use gpufleet_agent.Prometheus.Collect.{prom_observation, prom_collect}
use gpufleet_agent.Gpu.{GpuHost, default_prom_url, default_primary, default_chain}

or_default-some : (a b : String) → (b == "") ≡ false → (or_default a b == "") ≡ false
or_default-some a b h = elim (Bool-cases (a == "")) [ inl e ↦ rw e h | inr e ↦ rw e e ]

module _ {W : Type 0} (host : GpuHost W) where
  default_prom_url-some : (default_prom_url host == "") ≡ false
  unfolding default_prom_url
  default_prom_url-some =
      or_default-some (host.getenv "GPUFLEET_PROMETHEUS_URL")
        (or_default (host.getenv "GPUFLEET_PROM_URL") "http://localhost:9090")
        (or_default-some (host.getenv "GPUFLEET_PROM_URL") "http://localhost:9090" refl)

module _ {F W : Type 0} ⦃fl : Float64 F⦄ where
  -- A call of the chain that is one of the exporter: it fails with the exporter's failure, or answers
  -- its observation, marked as the fallback's, and what it leaves is what the exporter leaves.
  abbrev pub IsExported :
      GpuHost W → Collected F × DcgmExporter W × W → Collected F × MetricsChain F W × W → Type 0
  IsExported host (failed e, c, w) (r, chain, w') = (r ≡ failed e) × (w' ≡ host.exporter.set c w)
  IsExported host (observed o, c, w) (r, chain, w') =
      (r ≡ observed (mark_chain_provenance "fallback" (reason_for none) dcgm o))
      × (w' ≡ host.exporter.set c w)

  -- The Prometheus collector without queries answers at once, without a request and without devices.
  prom_collect-unqueried :
      (host : GpuHost W) (node : String) (now : Time) (window : Duration) (w : W)
      → (default_primary {F = F} host node).collect now window w
        ≡ (observed (prom_observation (default_prom_url host) node []), w)
  unfolding prom_collect default_prom_url sort_strings keys
  prom_collect-unqueried host node now window w = rw (default_prom_url-some host) refl

  fallen_back-IsExported :
      (host : GpuHost W) (c : MetricsChain F W) (f : MetricsSource F W)
      (exported : Collected F × DcgmExporter W × W)
      → f.source ≡ dcgm
      → IsExported host exported
          (fallen_back none f c (exported.0, host.exporter.set exported.1 exported.2))
  fallen_back-IsExported host c f (failed e, x, w) h = (refl, refl)
  fallen_back-IsExported host c f (observed o, x, w) h = rw h (refl, refl)

module _ {W : Type 0} (F : Type 0) ⦃fl : Float64 F⦄ where
  -- The metrics of the GPU build's default collectors are those of the DCGM exporter alone, scraped in
  -- the world in which the chain was called: whatever the environment and whatever Prometheus would
  -- answer, the preferred Prometheus is asked nothing, since its collector has no query.
  pub default_chain-IsExported :
      (host : GpuHost W) (node : String) (now : Time) (window : Duration) (w : W)
      → IsExported host
          (dcgm_collect host.web (host.exporter.get w) now window w)
          (chain_collect (default_chain {F = F} host node) now window w)
  unfolding chain_collect
  default_chain-IsExported host node now window w =
      let c = default_chain {F = F} host node in
      let f = exporter_source host.web host.exporter in
      subst
        (λ answer.
          IsExported host (dcgm_collect host.web (host.exporter.get w) now window w)
            (primary_answered c (default_primary host node) now window answer))
        (sym (prom_collect-unqueried host node now window w))
        (fallen_back-IsExported host c f (dcgm_collect host.web (host.exporter.get w) now window w)
          refl)
