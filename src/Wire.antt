-- ===== src/Wire.antt =====
-- The messages of gpufleet.v1, with the fields that the agent reads or writes. The generated code
-- is not part of the repository; a getter reads a field, and a pointer that may be nil is an Option.
use gpufleet_agent.Prelude.{ℕ, String, ◌≡◌, ◌↔◌, Bool, true, false, List, Option, arith}
use gpufleet_agent.Prelude.Int.{ℤ}

-- Nanoseconds since the epoch.
abbrev pub Time : Type 0
Time = ℤ

-- `time.Duration`, in nanoseconds.
abbrev pub Duration : Type 0
Duration = ℤ

pub data SignalSource : Type 0 where
  unspecified dcgm dmesg_xid nccl prometheus scheduler proc : SignalSource

abbrev pub source_eq : SignalSource → SignalSource → Bool
source_eq unspecified unspecified = true
source_eq dcgm dcgm = true
source_eq dmesg_xid dmesg_xid = true
source_eq nccl nccl = true
source_eq prometheus prometheus = true
source_eq scheduler scheduler = true
source_eq proc proc = true
source_eq _ _ = false

pub source_eq_iff : (a b : SignalSource) → (source_eq a b ≡ true) ↔ (a ≡ b)
source_eq_iff a b = ground arith

pub record TimelineEntry : Type 0 where
  pub ts : Option Time
  pub source : SignalSource
  pub device_uuid : String
  pub signal_id : String
  pub label : String

pub record XidEvent : Type 0 where
  pub ts : Option Time
  pub device_uuid : String
  pub xid : ℕ
  pub raw_message : String
  pub severity : String

pub data NcclEventKind : Type 0 where
  kind_unspecified op_completed op_timeout : NcclEventKind

pub record NcclEvent : Type 0 where
  pub ts : Option Time
  pub kind : NcclEventKind
  pub op : String
  pub raw_message : String
  pub rank : ℕ
  pub communicator_id : String
  pub duration_us : ℕ

pub record DeviceJobMapping (F : Type 0) : Type 0 where
  pub device_uuid : String
  pub device_index : ℕ
  pub node : String
  pub job_id : String
  pub peak_tflops : F
  pub cost_rate_usd_per_hour : F

pub record DcgmFieldSeries (F : Type 0) : Type 0 where
  pub device_uuid : String
  pub field_symbol : String
  pub field_id : ℕ
  pub unit : String
  pub samples : List (Time × F)

pub record EvidencePack (F : Type 0) : Type 0 where
  pub contract_version : String
  pub agent_id : String
  pub window_start : Time
  pub window_end : Time
  pub provenance : List (String × String)
  pub dcgm_series : List (DcgmFieldSeries F)
  pub xid_events : List (Option XidEvent)
  pub nccl_events : List (Option NcclEvent)
  pub mappings : List (DeviceJobMapping F)
  pub timeline : List TimelineEntry

pub data FaultClass : Type 0 where
  abstain : FaultClass
  -- Every other class; the agent only tells them from `abstain`.
  fault : ℕ → FaultClass

pub record Verdict (F : Type 0) : Type 0 where
  pub contract_version : String
  pub fault_class : FaultClass
  pub confidence : F
  pub signature : String

pub data ConsentTier : Type 0 where
  tier_unspecified tier_unprivileged tier_privileged : ConsentTier

pub record ResourceBudget : Type 0 where
  pub max_duration : Option Duration
  pub max_cpu_millicores : ℕ
  pub max_map_entries : ℕ
  pub max_samples : ℕ

pub record CapabilityDescriptor : Type 0 where
  pub id : String
  pub tier : ConsentTier
  pub source : SignalSource
  pub description : String
  pub version : String
  pub resource_budget : Option ResourceBudget

pub record CollectDirective : Type 0 where
  pub capability_id : String
  pub budget : Option ResourceBudget

pub record DescribeResponse : Type 0 where
  pub name : String
  pub version : String
  pub contract_version : String
  pub catalog : List CapabilityDescriptor

pub record InvestigateResponse (F : Type 0) : Type 0 where
  pub verdict : Option (Verdict F)
  pub directives : List (Option CollectDirective)
