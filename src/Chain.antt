-- ===== src/Chain.antt =====
-- collectors_chain.go: the metrics source that falls back from Prometheus to a DCGM exporter.
-- `W` is the state of everything outside the chain.
pub mod Selection
pub mod Completion
use gpufleet_agent.Prelude.{
  ℕ, String, Bool, true, false, not, ◌||◌, ◌&&◌, Option, none, some, is_some, List, [], ◌∷◌, ◌++◌,
  ◌==◌, ltb, length, insert, if◌then◌else◌,
}
use gpufleet_agent.Prelude.Strings.{◌<>◌}
use gpufleet_agent.Float.{Float64}
use gpufleet_agent.Wire.{Time, Duration, SignalSource, prometheus}
use gpufleet_agent.Observation.{DeviceWindow, Observation, Failure, Collected, observed, failed}
use gpufleet_agent.Merge.{merge_device_window}
use gpufleet_agent.Timeline.{source_short}

-- A collector, with the one source that it reports.
pub record MetricsSource (F W : Type 0) : Type 0 where
  pub source : SignalSource
  pub collect : Time → Duration → W → Collected F × W

-- `selected` is `none` for a nil cell, and `some none` for a cell that is not set.
pub record MetricsChain (F W : Type 0) : Type 0 where
  pub primary : Option (MetricsSource F W)
  pub fallback : Option (MetricsSource F W)
  pub field_fallback : Bool
  pub selected : Option (Option SignalSource)

abbrev pub with_provenance : {F : Type 0} → String → String → Observation F → Observation F
with_provenance key value o = record o { provenance = insert key value o.provenance }

-- `reasonFor`; a nil error is `none`.
abbrev pub reason_for : Option Failure → String
reason_for none = "primary returned no device data"
reason_for (some e) = e.text

abbrev pub first_failure : Option Failure → Failure → Failure
first_failure none e = e
first_failure (some p) e = p

module _ {F : Type 0} where
  unfoldable pub mark_chain_provenance :
      String → String → SignalSource → Observation F → Observation F
  mark_chain_provenance selected reason src o =
      let marked =
        with_provenance "chain.source" (source_short src)
          (with_provenance "chain.selected" selected o) in
      if reason == "" then marked else with_provenance "chain.fallback_reason" reason marked

  unfoldable pub missing_peak : List (DeviceWindow F) → Bool
  missing_peak [] = false
  missing_peak (dw ∷ dws) = not dw.peak_flops_known || missing_peak dws

  abbrev pub empty_observation : SignalSource → Observation F
  empty_observation source = record {
    source = source;
    mappings = [];
    dcgm_series = [];
    xid_events = [];
    nccl_events = [];
    device_windows = [];
    timeline = [];
    provenance = [];
  }

module _ {F : Type 0} ⦃fl : Float64 F⦄ where
  -- `byUUID` holds the last primary window of each device; `none` if there is none.
  unfoldable pub merge_last :
      DeviceWindow F → List (DeviceWindow F) → Option (List (DeviceWindow F))
  merge_last fdw [] = none
  merge_last fdw (dw ∷ dws) = elim (merge_last fdw dws) [
    | some merged ↦ some (dw ∷ merged)
    | none ↦ if dw.uuid == fdw.uuid then some (merge_device_window dw fdw ∷ dws) else none
  ]

  -- The loop over the fallback's windows: the primary's, completed, and those appended.
  unfoldable pub complete :
      List (DeviceWindow F)
      → List (DeviceWindow F)
      → List (DeviceWindow F)
      → List (DeviceWindow F) × List (DeviceWindow F)
  unfolding merge_last
  complete [] windows extra = (windows, extra)
  complete (fdw ∷ fdws) windows extra = elim (merge_last fdw windows) [
    | some merged ↦ complete fdws merged extra
    | none ↦ complete fdws windows (extra ++ fdw ∷ [])
  ]

  abbrev pub merged_with : Observation F → Collected F → Observation F
  merged_with o (failed e) =
      with_provenance "chain.field_fallback" ("unavailable:" <> reason_for (some e)) o
  merged_with o (observed fobs) =
      let windows = complete fobs.device_windows o.device_windows [] in
      with_provenance "chain.field_fallback" "merged-dcgm" (record o {
        device_windows = windows.0 ++ windows.1;
        dcgm_series = o.dcgm_series ++ fobs.dcgm_series;
      })

  unfoldable pub merge_fallback :
      {W : Type 0} → MetricsSource F W → Observation F → Time → Duration → W → Observation F × W
  unfolding complete
  merge_fallback fallback o now window w =
      let answer = fallback.collect now window w in (merged_with o answer.0, answer.1)

module _ {F W : Type 0} where
  unfoldable pub declared_source : MetricsChain F W → SignalSource
  declared_source c = elim c.primary [
    | some p ↦ p.source
    | none ↦ elim c.fallback [ some f ↦ f.source | none ↦ prometheus ]
  ]

  -- `Source`
  unfoldable pub chain_source : MetricsChain F W → SignalSource
  unfolding declared_source
  chain_source c = elim c.selected [
    | some (some src) ↦ src
    | some none ↦ declared_source c
    | none ↦ declared_source c
  ]

  -- `recordSelected`: nothing is stored without a cell.
  unfoldable pub record_selected : SignalSource → MetricsChain F W → MetricsChain F W
  record_selected src c = record c {
    selected = elim c.selected [ none ↦ none | some cell ↦ some (some src) ];
  }

  abbrev pub new_metrics_chain :
      Option (MetricsSource F W) → Option (MetricsSource F W) → MetricsChain F W
  new_metrics_chain primary fallback = record {
    primary = primary;
    fallback = fallback;
    field_fallback = false;
    selected = some none;
  }

module _ {F W : Type 0} ⦃fl : Float64 F⦄ where
  abbrev pub answered :
      String
      → String
      → SignalSource
      → Observation F
      → MetricsChain F W
      → W
      → Collected F × MetricsChain F W × W
  answered selected reason src o c w =
      (observed (mark_chain_provenance selected reason src o), record_selected src c, w)

  -- The fallback has answered, or failed too.
  abbrev pub fallen_back :
      Option Failure
      → MetricsSource F W
      → MetricsChain F W
      → Collected F × W
      → Collected F × MetricsChain F W × W
  fallen_back primary_err f c (failed e, w) = (failed (first_failure primary_err e), c, w)
  fallen_back primary_err f c (observed o, w) =
      answered "fallback" (reason_for primary_err) f.source o c w

  -- `Collect` after the primary has failed (with an error) or has no device.
  unfoldable pub fall_back :
      MetricsChain F W → Option Failure → Time → Duration → W → Collected F × MetricsChain F W × W
  unfolding mark_chain_provenance record_selected declared_source
  fall_back c primary_err now window w = elim c.fallback [
    | some f ↦ fallen_back primary_err f c (f.collect now window w)
    | none ↦ elim primary_err [
      | some e ↦ (failed e, c, w)
      | none ↦
          answered "primary-empty" (reason_for none) (declared_source c)
            (empty_observation (declared_source c)) c w
    ]
  ]

  abbrev pub field_merged :
      MetricsChain F W → Observation F → Time → Duration → W → Observation F × W
  field_merged c o now window w = elim c.fallback [
    | none ↦ (o, w)
    | some f ↦
        if c.field_fallback && missing_peak o.device_windows
        then merge_fallback f o now window w
        else (o, w)
  ]

  abbrev pub primary_answered :
      MetricsChain F W
      → MetricsSource F W
      → Time
      → Duration
      → Collected F × W
      → Collected F × MetricsChain F W × W
  primary_answered c p now window (failed e, w) = fall_back c (some e) now window w
  primary_answered c p now window (observed o, w) =
      if ltb 0 (length o.device_windows)
      then answered "primary" "" p.source (field_merged c o now window w).0 c
          (field_merged c o now window w).1
      else fall_back c none now window w

  -- `Collect`
  unfoldable pub chain_collect :
      MetricsChain F W → Time → Duration → W → Collected F × MetricsChain F W × W
  unfolding fall_back merge_fallback missing_peak
  chain_collect c now window w = elim c.primary [
    | none ↦ fall_back c none now window w
    | some p ↦ primary_answered c p now window (p.collect now window w)
  ]
