-- ===== src/Mock.antt =====
-- sources_mock.go: the signal sources of the build without a GPU, and those that inject faults; and
-- inject_mock.go of the command.
pub mod Faults
use gpufleet_agent.Prelude.{
  ℕ, ◌*◌, String, Bool, false, true, ◌==◌, Option, none, some, is_some, List, [], ◌∷◌, lookup,
  if◌then◌else◌,
}
use gpufleet_agent.Prelude.Int.{◌-ℤ◌}
use gpufleet_agent.Float.{Float64}
use gpufleet_agent.Wire.{
  Time, Duration, SignalSource, dcgm, prometheus, dmesg_xid, TimelineEntry, XidEvent,
  DeviceJobMapping, DcgmFieldSeries,
}
use gpufleet_agent.Observation.{DeviceWindow, Observation, observed, blank_window}
use gpufleet_agent.Chain.{empty_observation}
use gpufleet_agent.Dcgm.Exposition.Devices.{tensor_symbol}
use gpufleet_agent.Runtime.{Part}

abbrev mock_node : String
mock_node = "mock-node"

-- `node` of the mock collectors.
abbrev pub node_or_mock : String → String
node_or_mock node = if node == "" then mock_node else node

-- `MockDCGMCollector`; a nil map is the empty one.
pub record MockDcgmCollector : Type 0 where
  pub node : String
  pub inject_ecc_dbe : List (String × ℕ)
  pub inject_timeline : List (Option TimelineEntry)

-- `MockDmesgCollector`
pub record MockDmesgCollector : Type 0 where
  pub node : String
  pub inject : List (Option XidEvent)

abbrev count_or_zero : Option ℕ → ℕ
count_or_zero none = 0
count_or_zero (some n) = n

module _ {F : Type 0} ⦃fl : Float64 F⦄ where
  -- `peakA10FLOPS`, 1.25e14, and its share by so many hundredths, a constant of the source.
  abbrev pub peak_a10_flops : F
  peak_a10_flops = fl.literal 125000000000000 0

  abbrev share_of_peak : ℕ → F
  share_of_peak percent = fl.literal (percent * 1250000000000) 0

  -- `series`: the ratio in hundredths.
  abbrev mock_series : Time → Duration → String → ℕ → DcgmFieldSeries F
  mock_series now window uuid percent = record {
    device_uuid = uuid;
    field_symbol = tensor_symbol;
    field_id = 1003;
    unit = "ratio";
    samples = (now -ℤ window, fl.literal percent 2) ∷ (now, fl.literal percent 2) ∷ [];
  }

  -- A device of the DCGM mock: its share of the peak, whether the peak is known, and the injected count.
  abbrev mock_window : MockDcgmCollector → Duration → String → ℕ → Bool → DeviceWindow F
  mock_window c window uuid percent has_peak =
      let injected = lookup uuid c.inject_ecc_dbe in
      let ws = fl.seconds window in
      record (blank_window uuid) {
        node = node_or_mock c.node;
        model = "A10";
        window_seconds = ws;
        achieved_flops = fl.mul (share_of_peak percent) ws;
        achieved_flops_known = true;
        tensor_active_secs = fl.mul (fl.literal percent 2) ws;
        tensor_active_known = true;
        peak_flops = if has_peak then peak_a10_flops else fl.zero;
        peak_flops_known = has_peak;
        ecc_double_bit_errs = count_or_zero injected;
        ecc_double_bit_known = is_some injected;
      }

  -- `MockDCGMCollector.Collect`
  unfoldable pub mock_dcgm : MockDcgmCollector → Time → Duration → Observation F
  unfolding lookup blank_window ◌-ℤ◌
  mock_dcgm c now window = record (empty_observation dcgm) {
    dcgm_series =
        mock_series now window "GPU-mock-0001" 70
        ∷ mock_series now window "GPU-mock-0002" 5
        ∷ mock_series now window "GPU-mock-0003" 40
        ∷ [];
    timeline = c.inject_timeline;
    device_windows =
        mock_window c window "GPU-mock-0001" 70 true
        ∷ mock_window c window "GPU-mock-0002" 5 true
        ∷ mock_window c window "GPU-mock-0003" 40 false
        ∷ [];
    provenance =
        ("source", "mock-dcgm")
        ∷ ("exporter", "dcgm-exporter-mock/3.3.0")
        ∷ ("scrape_seconds", "15")
        ∷ [];
  }

  abbrev mock_cost : F
  mock_cost = fl.literal 110 2

  -- `mapping` and `costWin`
  abbrev mock_mapping : String → String → String → ℕ → DeviceJobMapping F
  mock_mapping node uuid job idx = record {
    device_uuid = uuid;
    device_index = idx;
    node = node;
    job_id = job;
    peak_tflops = fl.literal 125 0;
    cost_rate_usd_per_hour = mock_cost;
  }

  abbrev cost_window : String → Duration → String → DeviceWindow F
  cost_window node window uuid = record (blank_window uuid) {
    node = node;
    model = "A10";
    window_seconds = fl.seconds window;
    peak_flops = peak_a10_flops;
    peak_flops_known = true;
    cost_per_hour = mock_cost;
    cost_known = true;
  }

  -- `MockPrometheusCollector.Collect`, of a collector with this node.
  unfoldable pub mock_prometheus : String → Duration → Observation F
  unfolding blank_window
  mock_prometheus name window =
      let node = node_or_mock name in
      record (empty_observation prometheus) {
        mappings =
            mock_mapping node "GPU-mock-0001" "job-train-a" 0
            ∷ mock_mapping node "GPU-mock-0002" "job-idle-b" 1
            ∷ mock_mapping node "GPU-mock-0003" "job-train-a" 2
            ∷ [];
        device_windows =
            cost_window node window "GPU-mock-0001"
            ∷ cost_window node window "GPU-mock-0002"
            ∷ cost_window node window "GPU-mock-0003"
            ∷ [];
        provenance =
            ("source", "mock-prometheus")
            ∷ ("promql", "DCGM_FI_PROF_PIPE_TENSOR_ACTIVE / on(uuid) job:gpu_owner")
            ∷ ("endpoint", "http://localhost:9090 (mock)")
            ∷ [];
      }

module _ {F : Type 0} where
  -- `MockDmesgCollector.Collect`
  unfoldable pub mock_dmesg : MockDmesgCollector → Observation F
  mock_dmesg c = record (empty_observation dmesg_xid) {
    xid_events = c.inject;
    provenance = ("source", "mock-dmesg") ∷ ("tail", "/dev/kmsg (mock)") ∷ [];
  }

module _ {F W : Type 0} ⦃fl : Float64 F⦄ where
  abbrev mock_part : SignalSource → (Time → Duration → Observation F) → Part F W
  mock_part source observe = record {
    source = λ w. source;
    collect = λ now window w. (observed (observe now window), w);
    set_kill = none;
  }

  -- The three sources, for what is injected.
  abbrev mock_parts : MockDcgmCollector → String → MockDmesgCollector → List (Part F W)
  mock_parts d node x =
      mock_part dcgm (mock_dcgm d)
      ∷ mock_part prometheus (λ now. mock_prometheus node)
      ∷ mock_part dmesg_xid (λ now window. mock_dmesg x)
      ∷ []

  -- `DefaultCollectors`
  unfoldable pub mock_default_collectors : String → List (Part F W)
  unfolding mock_dcgm mock_prometheus mock_dmesg
  mock_default_collectors node =
      mock_parts (record { node = node; inject_ecc_dbe = []; inject_timeline = [] }) node
        (record { node = node; inject = [] })

  -- `FaultInjectCollectors`, at the time `at`.
  unfoldable pub fault_inject_collectors : Time → String → List (Part F W)
  unfolding mock_dcgm mock_prometheus mock_dmesg
  fault_inject_collectors at name =
      let node = node_or_mock name in
      mock_parts
        (record {
          node = node;
          inject_ecc_dbe = ("GPU-mock-0002", 3) ∷ [];
          inject_timeline =
              some (record {
                ts = some at;
                source = dcgm;
                device_uuid = "GPU-mock-0001";
                signal_id = "device.lost.dcgm.GPU-mock-0001";
                label = "DCGM health: device unreachable on the bus (GPU-mock-0001)";
              })
              ∷ [];
        })
        node
        (record {
          node = node;
          inject =
              some (record {
                ts = some at;
                device_uuid = "GPU-mock-0001";
                xid = 79;
                raw_message = "NVRM: Xid (PCI:0000:65:00): 79, GPU has fallen off the bus";
                severity = "err";
              })
              ∷ some (record {
                ts = some at;
                device_uuid = "GPU-mock-0002";
                xid = 94;
                raw_message = "NVRM: Xid (PCI:0000:66:00): 94, Contained ECC error";
                severity = "err";
              })
              ∷ [];
        })
