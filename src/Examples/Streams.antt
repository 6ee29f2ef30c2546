-- ===== src/Examples/Streams.antt =====
-- Witnesses: a chain that falls back, and a cost report; and a clock that ticks.
use gpufleet_agent.Prelude.{
  ℕ, String, length, ◌+◌, ◌≡◌, refl, sym, ap, keys, lookup, insert, false, none, some, [], ◌∷◌,
  arith,
}
use gpufleet_agent.Prelude.Int.{pos}
use gpufleet_agent.Prelude.Sort.{sort_strings}
use gpufleet_agent.Wire.{SignalSource, dcgm, prometheus}
use gpufleet_agent.Observation.{Collected, observed, failed}
use gpufleet_agent.Semantics.{Device, Pricing, ok}
use gpufleet_agent.Normalize.{SignalWindow}
use gpufleet_agent.Cost.{cost_wedge, wedges_of, job_impacts, job_efficiencies, job_specs}
use gpufleet_agent.Cost.Report.{IsReport, cost_wedge-IsReport}
use gpufleet_agent.Chain.{
  MetricsSource, MetricsChain, new_metrics_chain, chain_collect, chain_source, complete,
  record_selected, fall_back,
}
use gpufleet_agent.Chain.Completion.{AreCompleted, unclaimed, complete-AreCompleted}
use gpufleet_agent.Chain.Selection.{Agrees, chain_collect-Agrees}
use gpufleet_agent.Daemon.{Clock}
use gpufleet_agent.Examples.{toy, dcgm_report, ecc_window, priced_window}

abbrev down : MetricsSource ℕ ℕ
down = record {
  source = prometheus;
  collect = λ now window w. (failed (record { text = "refused"; is_capped = false }), w);
}

abbrev exporter : MetricsSource ℕ ℕ
exporter = record { source = dcgm; collect = λ now window w. (observed dcgm_report, w) }

abbrev chain : MetricsChain ℕ ℕ
chain = new_metrics_chain (some down) (some exporter)

-- The preference was Prometheus; after the fallback the chain says DCGM.
fallback_test : chain_source (chain_collect chain (pos 9) (pos 60) 0).1 ≡ dcgm
unfolding chain_collect chain_source record_selected fall_back
fallback_test = refl

abbrev source_of : Collected ℕ → SignalSource
source_of (observed o) = o.source
source_of (failed e) = dcgm

chain_collect-Agrees_example : Agrees (chain_collect chain (pos 9) (pos 60) 0)
chain_collect-Agrees_example =
    chain_collect-Agrees chain (pos 9) (pos 60) 0 (none, refl)
      (λ now window w o e. ground (arith, e)) (λ now window w o e. ap source_of (sym e))

complete-AreCompleted_example :
    AreCompleted
      (ecc_window ∷ [])
      (priced_window ∷ [])
      (complete (ecc_window ∷ []) (priced_window ∷ []) []).0
    × ((complete (ecc_window ∷ []) (priced_window ∷ []) []).1
        ≡ unclaimed (priced_window ∷ []) (ecc_window ∷ []))
complete-AreCompleted_example = complete-AreCompleted (ecc_window ∷ []) (priced_window ∷ [])

abbrev pub ticking : Clock ℕ
ticking w = (pos w, w + 1)

abbrev pricing : Pricing ℕ
pricing = record {
  Policy = ℕ;
  Wedge = ℕ;
  Efficiency = ℕ;
  Impact = ℕ;
  is_zero_policy = λ p. false;
  default_policy = 0;
  device_cost_wedge = λ sample spec policy. ok (sample.achieved_flops + policy);
  efficiency = λ wedge. wedge;
  job_cost_wedge = λ job effs specs policy. length effs + length specs;
}

abbrev gpu : String → Device
gpu uuid = record { uuid = uuid; node = ""; model = "" }

-- The second job has no device with a sample.
abbrev sampled : SignalWindow ℕ
sampled = record {
  pack = record {
    contract_version = "v1";
    agent_id = "agent";
    window_start = pos 0;
    window_end = pos 0;
    provenance = [];
    dcgm_series = [];
    xid_events = [];
    nccl_events = [];
    mappings = [];
    timeline = [];
  };
  jobs =
      record { job_id = "job-1"; devices = gpu "GPU-1" ∷ [] }
      ∷ record { job_id = "job-2"; devices = gpu "GPU-2" ∷ [] }
      ∷ [];
  samples =
      (
        "GPU-1",
        record {
          device = gpu "GPU-1";
          window_seconds = 60;
          achieved_flops = 7;
          tensor_active_secs = 0;
        },
      )
      ∷ [];
  specs = [];
  devices = [];
  degraded = [];
  sources = [];
  window_start = pos 0;
  window_end = pos 0;
}

cost_test : cost_wedge pricing sampled 1 ≡ ok (record { devices = 8 ∷ []; jobs = 2 ∷ [] })
unfolding cost_wedge wedges_of job_impacts job_efficiencies job_specs sort_strings keys lookup
    insert
cost_test = refl

cost_wedge-IsReport_example :
    IsReport pricing sampled 1 (record { devices = 8 ∷ []; jobs = 2 ∷ [] })
cost_wedge-IsReport_example = cost_wedge-IsReport pricing sampled 1 cost_test
