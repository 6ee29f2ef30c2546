-- ===== src/Gpu.antt =====
-- sources_gpu.go: the collectors of the GPU build when no endpoint is configured. Its log source is in
-- Kmsg/Source.antt.
pub mod Unqueried
use gpufleet_agent.Prelude.{String, Bool, false, Option, none, some, List, [], ◌∷◌}
use gpufleet_agent.Prelude.Int.{pos}
use gpufleet_agent.Prelude.Strings.{or_default}
use gpufleet_agent.Float.{Float64}
use gpufleet_agent.Wire.{Time, Duration, SignalSource, prometheus}
use gpufleet_agent.Observation.{Collected, failed}
use gpufleet_agent.Chain.{MetricsSource, MetricsChain, new_metrics_chain}
use gpufleet_agent.Dcgm.Exposition.Scrape.{Web, DcgmExporter, hard}
use gpufleet_agent.Prometheus.{PromQueries, PromLabels, PrometheusCollector, PromHttp}
use gpufleet_agent.Prometheus.Collect.{prom_collect}
use gpufleet_agent.Logs.Collect.{Files}
use gpufleet_agent.Proc.{Sysfs}
use gpufleet_agent.Runtime.{
  Cell, Part, chain_part, exporter_source, log_events, link_health, nccl_events,
}
use gpufleet_agent.Kmsg.Source.{Device, KillCell, new_kmsg_log_source, kmsg_log_source}

-- What these collectors call, and the variables that they allocate; `getenv` is `os.Getenv`, and `done`
-- whether the daemon's shutdown channel is closed.
pub record GpuHost (W : Type 0) : Type 0 where
  pub getenv : String → String
  pub web : Web W
  pub prom : PromHttp W
  pub files : Files W
  pub sysfs : W → Sysfs
  pub device : Device W
  pub done : W → Bool
  pub selected : Cell (Option SignalSource) W
  pub exporter : Cell (DcgmExporter W) W
  pub kill : Cell (Option (W → Bool)) W

-- `nvmlDCGMCollector.Collect`: the error `errNVMLNotWired`.
unfoldable nvml_collect : {F W : Type 0} → Time → Duration → W → Collected F × W
nvml_collect now window w =
    (failed (hard "agent: NVML reader not wired in this build (lab-only)"), w)

module _ {W : Type 0} (host : GpuHost W) where
  -- `defaultPromURL`, `defaultDCGMURL` and `defaultNCCLLog`
  unfoldable pub default_prom_url : String
  default_prom_url =
      or_default (host.getenv "GPUFLEET_PROMETHEUS_URL")
        (or_default (host.getenv "GPUFLEET_PROM_URL") "http://localhost:9090")

  unfoldable pub default_dcgm_url : String
  default_dcgm_url =
      or_default (host.getenv "GPUFLEET_DCGM_EXPORTER_URL")
        (or_default (host.getenv "GPUFLEET_DCGM_URL") "http://localhost:9400/metrics")

  abbrev default_nccl_log : String
  default_nccl_log = host.getenv "GPUFLEET_NCCL_LOG"

  -- The two collectors of metrics, with the fields that the literals leave out at their zero values.
  abbrev pub default_prometheus : String → PrometheusCollector W
  unfolding default_prom_url
  default_prometheus node = record {
    base_url = default_prom_url;
    node = node;
    queries = record {
      tensor_active = "";
      achieved_flops = "";
      peak_flops = "";
      cost_per_hour = "";
      job_owner = "";
      ecc_double_bit = "";
    };
    labels = record { uuid = ""; node = ""; model = ""; job = "" };
    http_client = none;
    timeout = pos 0;
  }

  abbrev default_exporter : String → DcgmExporter W
  default_exporter node = record {
    scrape_url = default_dcgm_url;
    node = node;
    http_client = none;
    timeout = pos 0;
    now = none;
    gate = record {
      profiling_burst = false;
      burst_cap = pos 0;
      last_scrape_t = none;
      prev_dbe = [];
      prev_link_err = [];
    };
  }

module _ {F W : Type 0} ⦃fl : Float64 F⦄ (host : GpuHost W) where
  abbrev pub default_primary : String → MetricsSource F W
  unfolding default_prom_url
  default_primary node = record {
    source = prometheus;
    collect = prom_collect host.prom (default_prometheus host node);
  }

  abbrev pub default_chain : String → MetricsChain F W
  default_chain node =
      new_metrics_chain (some (default_primary node))
        (some (exporter_source host.web host.exporter))

  -- `DefaultCollectors`, which allocates the variables.
  unfoldable pub gpu_default_collectors : String → W → List (Part F W) × W
  unfolding default_prom_url default_dcgm_url
  gpu_default_collectors node w = (
    chain_part host.selected (default_chain node)
        ∷ log_events (record {
          src = some (
              kmsg_log_source host.device host.done (new_kmsg_log_source host.kill "/dev/kmsg" ""));
          node = node;
        })
        ∷ link_health host.sysfs node
        ∷ nccl_events host.files (default_nccl_log host) node
        ∷ [],
    host.kill.set none (host.exporter.set (default_exporter host node) (host.selected.set none w)),
  )
