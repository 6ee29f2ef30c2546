-- ===== src/Runtime.antt =====
-- runtime_config.go: the collectors that a configuration selects, and how they are wrapped.
pub mod Wired
use gpufleet_agent.Prelude.{
  ℕ, String, Bool, true, false, not, ◌&&◌, ◌||◌, ◌==◌, Option, none, some, List, [], ◌∷◌, map,
  if◌then◌else◌,
}
use gpufleet_agent.Prelude.Int.{pos}
use gpufleet_agent.Float.{Float64}
use gpufleet_agent.Wire.{
  Time, Duration, SignalSource, dmesg_xid, nccl, prometheus, dcgm, proc, source_eq,
}
use gpufleet_agent.Observation.{Observation, Collected, observed, failed}
use gpufleet_agent.Chain.{
  MetricsSource, MetricsChain, new_metrics_chain, chain_collect, chain_source,
}
use gpufleet_agent.Daemon.{Collector}
use gpufleet_agent.Dcgm.Exposition.Scrape.{Web, DcgmExporter, dcgm_collect}
use gpufleet_agent.Prometheus.{PromQueries, PromLabels, PromHttp}
use gpufleet_agent.Prometheus.Collect.{prom_collect}
use gpufleet_agent.Spec.{DeviceSpec, is_empty_spec, spec_fill}
use gpufleet_agent.Spec.Peaks.{table_fill}
use gpufleet_agent.Logs.Collect.{LogSource, LogEventCollector, Files, log_collect, nccl_collect}
use gpufleet_agent.Proc.{Sysfs, proc_collect}

pub record RuntimeConfig (F : Type 0) : Type 0 where
  pub node : String
  pub prometheus_url : String
  pub dcgm_exporter_url : String
  pub mode : String
  pub queries : PromQueries
  pub labels : PromLabels
  pub spec : DeviceSpec F
  pub peak_table : Bool
  pub nccl_log_path : String
  pub profiling_burst : Bool
  pub profiling_cap : Duration

-- `CollectorModeMock` and `CollectorModeReal`; every other mode is automatic.
abbrev pub mode_mock : String
mode_mock = "mock"

abbrev pub mode_real : String
mode_real = "real"

abbrev pub default_prom_queries : PromQueries
default_prom_queries = record {
  tensor_active = "DCGM_FI_PROF_PIPE_TENSOR_ACTIVE";
  achieved_flops = "DCGM_FI_PROF_PIPE_TENSOR_ACTIVE * DCGM_FI_DEV_TENSOR_PEAK_FLOPS";
  peak_flops = "DCGM_FI_DEV_TENSOR_PEAK_FLOPS";
  cost_per_hour = "gpufleet_device_cost_usd_per_hour";
  job_owner = "gpufleet_device_job";
  ecc_double_bit = "increase(DCGM_FI_DEV_ECC_DBE_VOL_TOTAL[5m])";
}

-- `queries == (PromQueries{})`
abbrev pub no_queries : PromQueries → Bool
no_queries q =
    (q.tensor_active == "")
    && (q.achieved_flops == "")
    && (q.peak_flops == "")
    && (q.cost_per_hour == "")
    && (q.job_owner == "")
    && (q.ecc_double_bit == "")

module _ {F : Type 0} where
  abbrev pub has_real_endpoint : RuntimeConfig F → Bool
  has_real_endpoint c = not (c.prometheus_url == "") || not (c.dcgm_exporter_url == "")

  unfoldable pub use_real : RuntimeConfig F → Bool
  use_real c =
      if c.mode == mode_mock
      then false
      else if c.mode == mode_real
      then true
      else has_real_endpoint c

-- `Collector` with its source, which that of the metrics chain takes from its cell, and `SetKill`
-- where it is `killWirable`.
pub record Part (F W : Type 0) : Type 0 where
  pub source : W → SignalSource
  pub collect : Time → Duration → W → Collected F × W
  pub set_kill : Option (W → W)

-- The collector as the daemon sees it.
abbrev pub as_collector : {F W : Type 0} → Part F W → Collector F W
as_collector part = record { collect = part.collect; set_kill = part.set_kill }

-- A variable in the store.
pub record Cell (A W : Type 0) : Type 0 where
  pub get : W → A
  pub set : A → W → W

-- What the collectors call outside of this file; the variables that `Collectors` allocates, the
-- selected source of the chain and the state of the DCGM collector; and the seams of the build:
-- `DefaultCollectors` and `realLogSource`.
pub record Parts (F W : Type 0) : Type 0 where
  pub web : Web W
  pub prom : PromHttp W
  pub files : Files W
  pub sysfs : W → Sysfs
  pub selected : Cell (Option SignalSource) W
  pub exporter : Cell (DcgmExporter W) W
  pub default_collectors : String → List (Part F W)
  pub real_log_source : String → Option (LogSource W)

abbrev pub map_collected :
    {F : Type 0} → (Observation F → Observation F) → Collected F → Collected F
map_collected f (observed o) = observed (f o)
map_collected f (failed e) = failed e

abbrev cell_value : Option (Option SignalSource) → Option SignalSource
cell_value none = none
cell_value (some cell) = cell

module _ {F W : Type 0} where
  -- A collector that wraps another; it does not pass on a kill switch.
  abbrev pub wrapped : (Observation F → Observation F) → Part F W → Part F W
  wrapped f part = record {
    source = part.source;
    collect = λ now window w. let r = part.collect now window w in (map_collected f r.0, r.1);
    set_kill = none;
  }

  abbrev with_cell : Cell (Option SignalSource) W → MetricsChain F W → W → MetricsChain F W
  with_cell cell chain w = record chain { selected = some (cell.get w) }

module _ {F W : Type 0} ⦃fl : Float64 F⦄ where
  abbrev pub chain_part : Cell (Option SignalSource) W → MetricsChain F W → Part F W
  chain_part cell chain = record {
    source = λ w. chain_source (with_cell cell chain w);
    collect = λ now window w.
        let r = chain_collect (with_cell cell chain w) now window w in
        (r.0, cell.set (cell_value r.1.selected) r.2);
    set_kill = none;
  }

  abbrev pub prom_primary : Parts F W → RuntimeConfig F → Option (MetricsSource F W)
  prom_primary parts c =
      if c.prometheus_url == ""
      then none
      else some (record {
        source = prometheus;
        collect = prom_collect parts.prom (record {
          base_url = c.prometheus_url;
          node = c.node;
          queries = if no_queries c.queries then default_prom_queries else c.queries;
          labels = c.labels;
          http_client = none;
          timeout = pos 0;
        });
      })

  -- The DCGM exporter's collector, with its state in the store.
  abbrev pub exporter_source : Web W → Cell (DcgmExporter W) W → MetricsSource F W
  exporter_source web exporter = record {
    source = dcgm;
    collect = λ now window w.
        let r = dcgm_collect web (exporter.get w) now window w in (r.0, exporter.set r.1 r.2);
  }

  abbrev dcgm_fallback : Parts F W → RuntimeConfig F → Option (MetricsSource F W)
  dcgm_fallback parts c =
      if c.dcgm_exporter_url == "" then none else some (exporter_source parts.web parts.exporter)

  -- `&DCGMExporterCollector{…}`
  abbrev new_exporter : RuntimeConfig F → DcgmExporter W
  new_exporter c = record {
    scrape_url = c.dcgm_exporter_url;
    node = c.node;
    http_client = none;
    timeout = pos 0;
    now = none;
    gate = record {
      profiling_burst = c.profiling_burst;
      burst_cap = c.profiling_cap;
      last_scrape_t = none;
      prev_dbe = [];
      prev_link_err = [];
    };
  }

  -- The metrics chain, and what it is wrapped in: the spec, and outside of it the table.
  abbrev pub metrics_chain : Parts F W → RuntimeConfig F → Part F W
  metrics_chain parts c =
      chain_part parts.selected (new_metrics_chain (prom_primary parts c) (dcgm_fallback parts c))

  abbrev pub with_spec : DeviceSpec F → Part F W → Part F W
  with_spec spec part = if is_empty_spec spec then part else wrapped (spec_fill spec) part

  abbrev pub with_table : Bool → Part F W → Part F W
  with_table enabled part = if enabled then wrapped (table_fill true) part else part

  unfoldable pub metrics_part : Parts F W → RuntimeConfig F → Part F W
  unfolding spec_fill table_fill
  metrics_part parts c = with_table c.peak_table (with_spec c.spec (metrics_chain parts c))

  -- The collectors of logs and of the link health, as parts.
  abbrev pub log_events : LogEventCollector W → Part F W
  log_events collector = record {
    source = λ w. dmesg_xid;
    collect = log_collect collector;
    set_kill = elim collector.src [ none ↦ none | some src ↦ src.set_kill ];
  }

  abbrev pub link_health : (W → Sysfs) → String → Part F W
  link_health sysfs node = record {
    source = λ w. proc;
    collect = λ now window w.
        (proc_collect F (record { sysfs_root = ""; node = node }) (sysfs w) now window, w);
    set_kill = none;
  }

  abbrev pub nccl_events : Files W → String → String → Part F W
  nccl_events files path node = record {
    source = λ w. nccl;
    collect = nccl_collect files (record { path = path; node = node; read = none });
    set_kill = none;
  }

  abbrev log_part : Parts F W → RuntimeConfig F → Part F W
  log_part parts c = log_events (record { src = parts.real_log_source ""; node = c.node })

  -- `applySpec`
  abbrev pub spec_for : DeviceSpec F → W → Part F W → Part F W
  spec_for spec w part =
      if source_eq (part.source w) prometheus || source_eq (part.source w) dcgm
      then wrapped (spec_fill spec) part
      else part

  unfoldable pub apply_spec : DeviceSpec F → W → List (Part F W) → List (Part F W)
  unfolding spec_fill
  apply_spec spec w parts = if is_empty_spec spec then parts else map (spec_for spec w) parts

  abbrev real_parts : Parts F W → RuntimeConfig F → List (Part F W)
  real_parts parts c =
      metrics_part parts c
      ∷ log_part parts c
      ∷ link_health parts.sysfs c.node
      ∷ nccl_events parts.files c.nccl_log_path c.node
      ∷ []

  -- `Collectors`, with the mode that it reports.
  unfoldable pub collectors : Parts F W → RuntimeConfig F → W → List (Part F W) × String × W
  unfolding use_real metrics_part apply_spec
  collectors parts c w =
      if use_real c
      then (
        real_parts parts c,
        mode_real,
        parts.exporter.set (new_exporter c) (parts.selected.set none w),
      )
      else (apply_spec c.spec w (parts.default_collectors c.node), mode_mock, w)
