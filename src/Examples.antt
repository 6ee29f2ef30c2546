-- ===== src/Examples.antt =====
-- Test data for the witnesses: a toy arithmetic in place of float64, three collectors' reports and
-- a stand-in for gpufleet-semantics.
pub mod Windows
pub mod Directives
pub mod Daemons
pub mod Streams
pub mod Counters
pub mod Requests
pub mod Digests
pub mod Specs
pub mod Lines
pub mod Scrapes
pub mod Queries
pub mod Commands
pub mod Sources
pub mod Readers
use gpufleet_agent.Prelude.{
  ℕ, String, ◌+◌, ◌*◌, ◌/◌, Bool, true, false, Option, none, some, List, [], ◌∷◌, ltb, leb,
}
use gpufleet_agent.Prelude.Int.{ℤ, pos, negsuc}
use gpufleet_agent.Prelude.Strings.{itoa}
use gpufleet_agent.Prelude.Pattern.{parse_uint}
use gpufleet_agent.Float.{Float64}
use gpufleet_agent.Wire.{
  SignalSource, unspecified, dcgm, dmesg_xid, nccl, prometheus, scheduler, proc, XidEvent,
  NcclEvent, op_timeout,
}
use gpufleet_agent.Observation.{DeviceWindow, Observation}
use gpufleet_agent.Semantics.{Semantics, ok}

abbrev natural : ℤ → ℕ
natural (pos n) = n
natural (negsuc n) = 0

-- Natural numbers, with a duration in seconds.
instance unfoldable pub toy : Float64 ℕ
unfolding itoa parse_uint
toy = record {
  zero = 0;
  one = 1;
  tera = 1;
  literal = λ n k. n;
  le = leb;
  lt = ltb;
  mul = λ a b. a * b;
  div = λ a b. a / b;
  seconds = λ d. natural d / 1000000000;
  format = itoa;
  truncate = λ a. a;
  round = λ a. a;
  parse = λ s. parse_uint 64 s;
}

abbrev source_number : SignalSource → ℕ
source_number unspecified = 0
source_number dcgm = 1
source_number dmesg_xid = 2
source_number nccl = 3
source_number prometheus = 4
source_number scheduler = 5
source_number proc = 6

abbrev pub semantics : Semantics ℕ
semantics = record { number = source_number; resolve_mapping = λ edges. ok [] }

-- A device whose peak is not known, with an uncorrectable ECC error.
abbrev pub ecc_window : DeviceWindow ℕ
ecc_window = record {
  uuid = "GPU-1";
  node = "n1";
  model = "H100";
  window_seconds = 60;
  achieved_flops = 7;
  achieved_flops_known = true;
  tensor_active_secs = 3;
  tensor_active_known = true;
  peak_flops = 0;
  peak_flops_known = false;
  cost_per_hour = 0;
  cost_known = false;
  ecc_double_bit_errs = 2;
  ecc_double_bit_known = true;
  link_errors = 0;
  link_errors_known = false;
}

-- The same device, as Prometheus sees it: other FLOPs, and the peak.
abbrev pub priced_window : DeviceWindow ℕ
priced_window = record ecc_window {
  achieved_flops = 9;
  peak_flops = 100;
  peak_flops_known = true;
  ecc_double_bit_errs = 0;
}

abbrev pub blank_report : SignalSource → Observation ℕ
blank_report source = record {
  source = source;
  mappings = [];
  dcgm_series = [];
  xid_events = [];
  nccl_events = [];
  device_windows = [];
  timeline = [];
  provenance = [];
}

abbrev pub ecc_xid : XidEvent
ecc_xid = record {
  ts = some (pos 5);
  device_uuid = "0000:3b:00.0";
  xid = 48;
  raw_message = "NVRM: Xid 48";
  severity = "";
}

abbrev pub nccl_timeout : NcclEvent
nccl_timeout = record {
  ts = none;
  kind = op_timeout;
  op = "allreduce";
  raw_message = "";
  rank = 3;
  communicator_id = "";
  duration_us = 0;
}

abbrev pub dcgm_report : Observation ℕ
dcgm_report = record (blank_report dcgm) { device_windows = ecc_window ∷ [] }

abbrev pub prometheus_report : Observation ℕ
prometheus_report = record (blank_report prometheus) { device_windows = priced_window ∷ [] }

abbrev pub dmesg_report : Observation ℕ
dmesg_report = record (blank_report dmesg_xid) { xid_events = some ecc_xid ∷ none ∷ [] }

abbrev pub nccl_report : Observation ℕ
nccl_report = record (blank_report nccl) { nccl_events = some nccl_timeout ∷ [] }

abbrev pub reports : List (Observation ℕ)
reports = dcgm_report ∷ prometheus_report ∷ dmesg_report ∷ nccl_report ∷ []
