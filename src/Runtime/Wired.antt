-- ===== src/Runtime/Wired.antt =====
-- runtime_config.go: when the real collectors run, and what their metrics have been through.
use mathlib.Core.Path.{subst}
use gpufleet_agent.Prelude.{
  ◌≡◌, ◌≢◌, ◌↔◌, ◌⊎◌, inl, inr, ◌∙◌, refl, sym, ap, Bool, true, false, eq_iff, map, arith,
  Bool-cases,
}
use gpufleet_agent.Float.{Float64}
use gpufleet_agent.Wire.{Time, Duration}
use gpufleet_agent.Observation.{Observation, Collected, observed, failed}
use gpufleet_agent.Spec.{DeviceSpec, is_empty_spec, spec_fill}
use gpufleet_agent.Spec.Peaks.{table_fill}
use gpufleet_agent.Spec.Precedence.{complete_window, table_fill-spec_fill}
use gpufleet_agent.Runtime.{
  RuntimeConfig, mode_mock, mode_real, use_real, Parts, Part, map_collected, with_spec, with_table,
  metrics_chain, metrics_part, collectors,
}

module _ {F : Type 0} ⦃fl : Float64 F⦄ where
  -- What a wrapped collector answers, where the inner one answers `r`.
  abbrev pub Completes : DeviceSpec F → Bool → Collected F → Collected F → Type 0
  Completes spec enabled (failed e) r = r ≡ failed e
  Completes spec enabled (observed o) r =
      (o' : Observation F) × (r ≡ observed o')
      × (o'.device_windows ≡ map (complete_window spec enabled) o.device_windows)

  abbrev filled : DeviceSpec F → Bool → Collected F → Collected F
  filled spec enabled r = map_collected (table_fill enabled) (map_collected (spec_fill spec) r)

  filled-Completes :
      (spec : DeviceSpec F) (enabled : Bool) (r : Collected F)
      → Completes spec enabled r (filled spec enabled r)
  filled-Completes spec enabled (failed e) = refl
  filled-Completes spec enabled (observed o) =
      (table_fill enabled (spec_fill spec o), refl, table_fill-spec_fill spec enabled o)

  unwrapped :
      (spec : DeviceSpec F) (r : Collected F)
      → is_empty_spec spec ≡ true
      → map_collected (spec_fill spec) r ≡ r
  unfolding spec_fill
  unwrapped spec (failed e) h = refl
  unwrapped spec (observed o) h = ap observed (rw h refl)

module _ {F W : Type 0} ⦃fl : Float64 F⦄ where
  with_spec-fills :
      (spec : DeviceSpec F) (part : Part F W) (now : Time) (window : Duration) (w : W)
      → ((with_spec spec part).collect now window w).0
        ≡ map_collected (spec_fill spec) (part.collect now window w).0
  with_spec-fills spec part now window w = elim (Bool-cases (is_empty_spec spec)) [
    | inl e ↦ rw e (sym (unwrapped spec _ e))
    | inr e ↦ rw e refl
  ]

  with_table-fills :
      (enabled : Bool) (part : Part F W) (now : Time) (window : Duration) (w : W)
      → ((with_table enabled part).collect now window w).0
        ≡ map_collected (table_fill enabled) (part.collect now window w).0
  unfolding table_fill
  with_table-fills true part now window w = refl
  with_table-fills false part now window w = same (part.collect now window w).0
    where
      same : (r : Collected F) → r ≡ map_collected (table_fill false) r
      same (failed e) = refl
      same (observed o) = refl

  -- Whatever the configuration, the metrics collector fails with the chain's error where the chain
  -- fails, and otherwise completes each of its device windows: metrics before the spec before the
  -- table, the table only if it is enabled.
  pub metrics_part-Completes :
      (parts : Parts F W) (c : RuntimeConfig F) (now : Time) (window : Duration) (w : W)
      → Completes c.spec c.peak_table
          ((metrics_chain parts c).collect now window w).0
          ((metrics_part parts c).collect now window w).0
  unfolding metrics_part
  metrics_part-Completes parts c now window w =
      let inner = metrics_chain parts c in
      subst (Completes c.spec c.peak_table (inner.collect now window w).0)
        (sym (
          with_table-fills c.peak_table (with_spec c.spec inner) now window w
          ∙ ap (map_collected (table_fill c.peak_table))
              (with_spec-fills c.spec inner now window w)))
        (filled-Completes c.spec c.peak_table (inner.collect now window w).0)

  -- The real collectors run exactly if the mode asks for them, or if it is neither `mock` nor `real`
  -- and an endpoint is configured; the mode that is reported says which run.
  pub collectors-mode :
      (parts : Parts F W) (c : RuntimeConfig F) (w : W)
      → ((collectors parts c w).1 ≡ mode_real) ↔ (
          (c.mode ≡ mode_real)
          ⊎ ((c.mode ≢ mode_mock) × ((c.prometheus_url ≢ "") ⊎ (c.dcgm_exporter_url ≢ ""))))
  unfolding collectors use_real
  collectors-mode parts c w = ground (
    arith,
    eq_iff c.mode mode_mock,
    eq_iff c.mode mode_real,
    eq_iff c.prometheus_url "",
    eq_iff c.dcgm_exporter_url "",
    eq_iff mode_mock mode_real,
  )
