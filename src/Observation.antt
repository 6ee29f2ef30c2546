-- ===== src/Observation.antt =====
-- collector.go: what one collector reports for one window.
use gpufleet_agent.Prelude.{ℕ, String, Bool, false, List, Option}
use gpufleet_agent.Wire.{
  SignalSource, TimelineEntry, XidEvent, NcclEvent, DeviceJobMapping, DcgmFieldSeries,
}
use gpufleet_agent.Float.{Float64}

-- A value counts only where its `_known` flag is set.
pub record DeviceWindow (F : Type 0) : Type 0 where
  pub uuid : String
  pub node : String
  pub model : String
  pub window_seconds : F
  pub achieved_flops : F
  pub achieved_flops_known : Bool
  pub tensor_active_secs : F
  pub tensor_active_known : Bool
  pub peak_flops : F
  pub peak_flops_known : Bool
  pub cost_per_hour : F
  pub cost_known : Bool
  pub ecc_double_bit_errs : ℕ
  pub ecc_double_bit_known : Bool
  pub link_errors : ℕ
  pub link_errors_known : Bool

-- `DeviceWindow{UUID: uuid}`: every other field has its zero value.
unfoldable pub blank_window : {F : Type 0} → ⦃fl : Float64 F⦄ → String → DeviceWindow F
blank_window ⦃fl⦄ uuid = record {
  uuid = uuid;
  node = "";
  model = "";
  window_seconds = fl.zero;
  achieved_flops = fl.zero;
  achieved_flops_known = false;
  tensor_active_secs = fl.zero;
  tensor_active_known = false;
  peak_flops = fl.zero;
  peak_flops_known = false;
  cost_per_hour = fl.zero;
  cost_known = false;
  ecc_double_bit_errs = 0;
  ecc_double_bit_known = false;
  link_errors = 0;
  link_errors_known = false;
}

pub record Observation (F : Type 0) : Type 0 where
  pub source : SignalSource
  pub mappings : List (DeviceJobMapping F)
  pub dcgm_series : List (DcgmFieldSeries F)
  pub xid_events : List (Option XidEvent)
  pub nccl_events : List (Option NcclEvent)
  pub device_windows : List (DeviceWindow F)
  pub timeline : List (Option TimelineEntry)
  pub provenance : List (String × String)

-- An error of a collector: its text, and whether it wraps `ErrProfilingCapped`.
pub record Failure : Type 0 where
  pub text : String
  pub is_capped : Bool

-- `(Observation, error)`
pub data Collected (F : Type 0) : Type 0 where
  observed : Observation F → Collected F
  failed : Failure → Collected F
