-- ===== src/Semantics.antt =====
-- What the agent takes from the modules gpufleet-semantics and gpufleet-proto: the types that cross
-- the boundary, with the fields that the agent uses, and the functions as an interface.
use gpufleet_agent.Prelude.{ℕ, String, Bool, List}
use gpufleet_agent.Wire.{SignalSource}

pub record Device : Type 0 where
  pub uuid : String
  pub node : String
  pub model : String

pub record DeviceJob : Type 0 where
  pub device : Device
  pub job_id : String

pub record JobDevices : Type 0 where
  pub job_id : String
  pub devices : List Device

pub record DeviceSample (F : Type 0) : Type 0 where
  pub device : Device
  pub window_seconds : F
  pub achieved_flops : F
  pub tensor_active_secs : F

pub record DeviceSpec (F : Type 0) : Type 0 where
  pub peak_flops : F
  pub cost_per_hour : F

pub data Result {ℓ} (A : Type ℓ) : Type ℓ where
  ok : A → Result A
  err : String → Result A

pub record Semantics (F : Type 0) : Type 0 where
  -- The wire number of an enum value, by which sources are sorted.
  pub number : SignalSource → ℕ
  -- `semantics.ResolveMapping`
  pub resolve_mapping : List DeviceJob → Result (List JobDevices)

-- The cost functions and their types: policies, wedges, efficiencies and the impacts on jobs.
pub record Pricing (F : Type 0) : Type 1 where
  pub Policy : Type 0
  pub Wedge : Type 0
  pub Efficiency : Type 0
  pub Impact : Type 0
  -- `policy == (CostPolicy{})`
  pub is_zero_policy : Policy → Bool
  -- `DefaultCostPolicy`
  pub default_policy : Policy
  -- `DeviceCostWedge`, and the field `Device` of its result.
  pub device_cost_wedge : DeviceSample F → DeviceSpec F → Policy → Result Wedge
  pub efficiency : Wedge → Efficiency
  -- `JobCostWedge`
  pub job_cost_wedge : String → List Efficiency → List (String × DeviceSpec F) → Policy → Impact

-- The fields of a wedge and of a job's impact that the API reads: `Device.Device`, `Device.MFU`,
-- `Device.TensorActive`, `Device.CostUSD`, `Impact`, `Job.ID` and `Wedges`.
pub record PricingFields {F : Type 0} (pr : Pricing F) : Type 1 where
  pub CostImpact : Type 0
  pub device : pr.Wedge → Device
  pub mfu : pr.Wedge → F
  pub tensor_active : pr.Wedge → F
  pub idle_fraction : pr.Wedge → F
  pub cost_usd : pr.Wedge → F
  pub wasted_usd : pr.Wedge → F
  pub wedge_impact : pr.Wedge → CostImpact
  pub low_utilization : pr.Wedge → Bool
  pub impact_job : pr.Impact → String
  pub job_impact : pr.Impact → CostImpact
  pub wedges : pr.Impact → List pr.Wedge
  pub usd_window : CostImpact → F
  pub usd_per_hour : CostImpact → F
  pub is_computed : CostImpact → Bool
