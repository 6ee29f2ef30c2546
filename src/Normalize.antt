-- ===== src/Normalize.antt =====
-- normalize.go, `Normalize`: the two loops (Gather, Devices), the job edges and the pack.
pub mod Grounded
pub mod Trace
pub mod Legs
pub mod Degrade
pub mod Honest
mod Kept
pub mod Heard
use gpufleet_agent.Prelude.{
  ℕ, String, Option, none, some, List, [], ◌∷◌, ◌++◌, map, ◌==◌, ltb, length, if◌then◌else◌, lookup,
  insert, keys,
}
use gpufleet_agent.Prelude.Sort.{sort_strings}
use gpufleet_agent.Prelude.Int.{◌-ℤ◌}
use gpufleet_agent.Prelude.Strings.{◌<>◌, itoa}
use gpufleet_agent.Float.{Float64}
use gpufleet_agent.Wire.{
  Time, Duration, SignalSource, TimelineEntry, DeviceJobMapping, EvidencePack,
}
use gpufleet_agent.Observation.{Observation}
use gpufleet_agent.Timeline.{entry, source_short, fault_timeline}
use gpufleet_agent.Semantics.{
  Device, DeviceJob, JobDevices, DeviceSample, DeviceSpec, Semantics, Result, ok, err,
}
use gpufleet_agent.Gather.{Gathered, nothing_gathered, gather_from}
use gpufleet_agent.Devices.{DegradeMark, Devices, device_of, merged_at, device_loop}

abbrev pub contract_version : String
contract_version = "v1"

pub record SignalWindow (F : Type 0) : Type 0 where
  pub pack : EvidencePack F
  pub jobs : List JobDevices
  pub samples : List (String × DeviceSample F)
  pub specs : List (String × DeviceSpec F)
  pub devices : List (String × Device)
  pub degraded : List DegradeMark
  pub sources : List SignalSource
  pub window_start : Time
  pub window_end : Time

-- `sort.Slice(sources, …)`, by the wire numbers.
insert_source : (SignalSource → ℕ) → SignalSource → List SignalSource → List SignalSource
insert_source number s [] = s ∷ []
insert_source number s (t ∷ ts) =
    if ltb (number t) (number s) then t ∷ insert_source number s ts else s ∷ t ∷ ts

unfoldable pub sort_sources : (SignalSource → ℕ) → List SignalSource → List SignalSource
unfolding insert_source
sort_sources number [] = []
sort_sources number (s ∷ ss) = insert_source number s (sort_sources number ss)

-- The marker of each source: it has no signal id.
unfoldable pub source_markers : Time → List SignalSource → List TimelineEntry
source_markers now [] = []
source_markers now (s ∷ ss) =
    entry (some now) s "" (source_short s <> " window") ∷ source_markers now ss

-- The three keys that are written at the end.
unfoldable pub final_provenance :
    String → List DegradeMark → List (String × String) → List (String × String)
final_provenance seconds degraded provenance =
    insert "agent.degraded_marks" (itoa (length degraded)) (
      insert "agent.window_seconds" seconds
        (insert "agent.contract_version" contract_version provenance))

abbrev pub finish_window {ℓ κ} : {A : Type ℓ} {B : Type κ} → (A → B) → Result A → Result B
finish_window f (ok a) = ok (f a)
finish_window f (err e) = err ("agent: resolve device->job mapping: " <> e)

module _ {F : Type 0} where
  abbrev pub edge_of : Device → Option (DeviceJobMapping F) → List DeviceJob
  edge_of device none = []
  edge_of device (some m) =
      if m.job_id == "" then [] else record { device = device; job_id = m.job_id } ∷ []

module _ {F : Type 0} ⦃fl : Float64 F⦄ where
  -- The device to job edges: only devices with a known job take part.
  unfoldable pub job_edges : Gathered F → List String → List DeviceJob
  job_edges g [] = []
  job_edges g (u ∷ us) =
      edge_of (device_of (merged_at g u)) (lookup u g.mapping_by_device) ++ job_edges g us

  unfoldable pub normalize_timeline :
      (SignalSource → ℕ) → Time → Gathered F → Devices F → List TimelineEntry
  unfolding source_markers
  normalize_timeline number now g d =
      source_markers now (sort_sources number g.sources)
      ++ (fault_timeline g.xid_dmesg g.nccl_real d.ecc_dbe_devices d.link_err_devices now
          ++ g.injected)

  -- The devices that were merged, in the order of their UUIDs.
  abbrev pub uuids_of : Gathered F → List String
  uuids_of g = sort_strings (keys g.merged)

  unfoldable pub window_of :
      Semantics F
      → String
      → Time
      → Duration
      → Gathered F
      → Devices F
      → List JobDevices
      → SignalWindow F
  unfolding normalize_timeline final_provenance
  window_of sem agent_id now window g d jobs = record {
    pack = record {
      contract_version = contract_version;
      agent_id = agent_id;
      window_start = now -ℤ window;
      window_end = now;
      provenance = final_provenance (fl.format (fl.seconds window)) d.degraded g.provenance;
      dcgm_series = g.dcgm_series;
      xid_events = g.xid_events;
      nccl_events = g.nccl_events;
      mappings = d.mappings;
      timeline = normalize_timeline sem.number now g d;
    };
    jobs = jobs;
    samples = d.samples;
    specs = d.specs;
    devices = d.devices;
    degraded = d.degraded;
    sources = sort_sources sem.number g.sources;
    window_start = now -ℤ window;
    window_end = now;
  }

  unfoldable pub normalize :
      Semantics F → String → Time → Duration → List (Observation F) → Result (SignalWindow F)
  unfolding window_of job_edges
  normalize sem agent_id now window obs =
      let g = gather_from nothing_gathered obs in
      let us = uuids_of g in
      finish_window (window_of sem agent_id now window g (device_loop g us))
        (sem.resolve_mapping (job_edges g us))
