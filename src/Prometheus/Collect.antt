-- ===== src/Prometheus/Collect.antt =====
-- collectors_prometheus.go, `Collect`: the queries in their order, and the observation.
use gpufleet_agent.Prelude.{
  String, ◌==◌, Option, none, some, List, [], ◌∷◌, length, nat_eq, insert, keys, if◌then◌else◌,
}
use gpufleet_agent.Prelude.Sort.{sort_strings}
use gpufleet_agent.Float.{Float64}
use gpufleet_agent.Wire.{Time, Duration, prometheus, DeviceJobMapping}
use gpufleet_agent.Observation.{DeviceWindow, Observation, Collected, observed, failed}
use gpufleet_agent.Semantics.{Result, ok, err}
use gpufleet_agent.Chain.{empty_observation}
use gpufleet_agent.Dcgm.Exposition.Devices.{in_order}
use gpufleet_agent.Dcgm.Exposition.Scrape.{hard}
use gpufleet_agent.Prometheus.{
  with_defaults, PrometheusCollector, PromVectorSample, PromHttp, query,
}
use gpufleet_agent.Prometheus.Samples.{
  PromDevAccum, Reading, noted, apply_samples, apply_owners, set_peak, set_cost, set_achieved,
  set_tensor, set_ecc, prom_mode,
}

module _ {F : Type 0} ⦃fl : Float64 F⦄ where
  abbrev pub windows_of : List (PromDevAccum F) → List (DeviceWindow F)
  windows_of [] = []
  windows_of (a ∷ accums) = a.dw ∷ windows_of accums

  -- `peakTflopsOrZero` and `costOrZero`
  abbrev pub mapping_of : PromDevAccum F → DeviceJobMapping F
  mapping_of a = record {
    device_uuid = a.dw.uuid;
    device_index = 0;
    node = a.dw.node;
    job_id = a.job;
    peak_tflops = if a.dw.peak_flops_known then fl.div a.dw.peak_flops fl.tera else fl.zero;
    cost_rate_usd_per_hour = if a.dw.cost_known then a.dw.cost_per_hour else fl.zero;
  }

  abbrev pub mappings_of : List (PromDevAccum F) → List (DeviceJobMapping F)
  mappings_of [] = []
  mappings_of (a ∷ accums) =
      if a.job_seen then mapping_of a ∷ mappings_of accums else mappings_of accums

  abbrev pub prom_observation : String → String → List (PromDevAccum F) → Observation F
  prom_observation base_url node accums = record (empty_observation prometheus) {
    provenance =
        insert "scrape_reused" "true"
          (insert "mode" (prom_mode node) (insert "endpoint" base_url []));
    device_windows = windows_of accums;
    mappings = mappings_of accums;
  }

  abbrev pub failed_or : Option String → Observation F → Collected F
  failed_or none o = observed o
  failed_or (some e) o = if nat_eq (length o.device_windows) 0 then failed (hard e) else observed o

  -- The end of `Collect`: an error without any device is the collector's error.
  unfoldable pub prom_finish : String → String → Reading F → Collected F
  unfolding in_order
  prom_finish base_url node r =
      failed_or r.first_err
        (prom_observation base_url node (in_order r.devs (sort_strings (keys r.devs))))

module _ {F W : Type 0} ⦃fl : Float64 F⦄ (net : PromHttp W) where
  abbrev pub taken :
      (List PromVectorSample → List (String × PromDevAccum F) → List (String × PromDevAccum F))
      → Result (List PromVectorSample) × W
      → Reading F
      → Reading F × W
  taken apply (err e, w) r = (noted e r, w)
  taken apply (ok samples, w) r = (record r { devs = apply samples r.devs }, w)

  -- `run`, and the block that reads the owners of jobs.
  unfoldable pub run_query :
      PrometheusCollector W
      → Time
      → String
      → (List PromVectorSample → List (String × PromDevAccum F) → List (String × PromDevAccum F))
      → Reading F × W
      → Reading F × W
  unfolding query
  run_query c now expr apply (r, w) =
      if expr == "" then (r, w) else taken apply (query net c expr now w) r

  -- The queries of `Collect`, in their order.
  unfoldable pub read_all : PrometheusCollector W → Time → F → W → Reading F × W
  unfolding run_query apply_samples apply_owners with_defaults
  read_all c now ws w =
      let labels = with_defaults c.labels in
      let q = c.queries in
      let start : Reading F = record { devs = []; first_err = none } in
      let r1 = run_query c now q.peak_flops (apply_samples ws labels c.node set_peak) (start, w) in
      let r2 = run_query c now q.cost_per_hour (apply_samples ws labels c.node set_cost) r1 in
      let r3 =
        run_query c now q.achieved_flops (apply_samples ws labels c.node (set_achieved ws)) r2 in
      let r4 =
        run_query c now q.tensor_active (apply_samples ws labels c.node (set_tensor ws)) r3 in
      let r5 = run_query c now q.ecc_double_bit (apply_samples ws labels c.node set_ecc) r4 in
      run_query c now q.job_owner (apply_owners ws labels c.node) r5

  -- `Collect`
  unfoldable pub prom_collect : PrometheusCollector W → Time → Duration → W → Collected F × W
  unfolding read_all prom_finish
  prom_collect c now window w =
      let done = read_all c now (fl.seconds window) w in
      if c.base_url == ""
      then (failed (hard "agent: PrometheusCollector requires BaseURL"), w)
      else (prom_finish c.base_url c.node done.0, done.1)
