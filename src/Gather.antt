-- ===== src/Gather.antt =====
-- normalize.go, the first loop of `Normalize`: one pass over the observations.
pub mod Merged
use gpufleet_agent.Prelude.{
  String, Bool, true, false, ◌&&◌, Option, none, some, List, [], ◌∷◌, ◌++◌, ◌==◌, ltb,
  if◌then◌else◌, lookup, insert,
}
use gpufleet_agent.Prelude.Strings.{◌<>◌}
use gpufleet_agent.Float.{Float64}
use gpufleet_agent.Wire.{
  SignalSource, unspecified, dcgm, dmesg_xid, nccl, prometheus, source_eq, TimelineEntry, XidEvent,
  NcclEvent, DeviceJobMapping, DcgmFieldSeries,
}
use gpufleet_agent.Observation.{DeviceWindow, blank_window, Observation}
use gpufleet_agent.Merge.{merge_device_window}
use gpufleet_agent.Timeline.{source_short}

-- The variables of the loop. `seenSource` holds the members of `sources`.
pub record Gathered (F : Type 0) : Type 0 where
  pub sources : List SignalSource
  pub provenance : List (String × String)
  pub dcgm_series : List (DcgmFieldSeries F)
  pub xid_events : List (Option XidEvent)
  pub nccl_events : List (Option NcclEvent)
  pub xid_dmesg : List (Option XidEvent)
  pub nccl_real : List (Option NcclEvent)
  pub injected : List TimelineEntry
  pub mapping_by_device : List (String × DeviceJobMapping F)
  pub ecc_dcgm_seen : List String
  pub ecc_prom_seen : List String
  pub link_err_dcgm_seen : List String
  pub merged : List (String × DeviceWindow F)

abbrev pub contains_source : SignalSource → List SignalSource → Bool
contains_source s [] = false
contains_source s (t ∷ ts) = if source_eq t s then true else contains_source s ts

abbrev pub contains : String → List String → Bool
contains s [] = false
contains s (t ∷ ts) = if t == s then true else contains s ts

-- `for k, v := range o.Provenance`: the keys are namespaced by the source.
unfoldable pub stamp :
    String → List (String × String) → List (String × String) → List (String × String)
stamp short [] provenance = provenance
stamp short ((k, v) ∷ kvs) provenance = stamp short kvs (insert (short <> "." <> k) v provenance)

-- The loop over `o.Timeline`: an entry with no source takes the observation's, and one that
-- claims another source is dropped.
abbrev pub claim : SignalSource → TimelineEntry → TimelineEntry
claim source te = if source_eq te.source unspecified then record te { source = source } else te

unfoldable pub admitted : SignalSource → List (Option TimelineEntry) → List TimelineEntry
admitted source [] = []
admitted source (none ∷ tes) = admitted source tes
admitted source (some te ∷ tes) =
    if source_eq (claim source te).source source
    then claim source te ∷ admitted source tes
    else admitted source tes

module _ {F : Type 0} where
  -- The first mapping of a device, unless its job is empty: then the next one replaces it.
  unfoldable pub admit_mapping :
      List (String × DeviceJobMapping F) → DeviceJobMapping F → List (String × DeviceJobMapping F)
  admit_mapping known m = elim (lookup m.device_uuid known) [
    | none ↦ insert m.device_uuid m known
    | some prev ↦ if prev.job_id == "" then insert m.device_uuid m known else known
  ]

  unfoldable pub admit_mappings :
      List (DeviceJobMapping F)
      → List (String × DeviceJobMapping F)
      → List (String × DeviceJobMapping F)
  admit_mappings [] known = known
  admit_mappings (m ∷ ms) known = admit_mappings ms (admit_mapping known m)

  -- The uncorrectable-ECC and link-error deltas that count for a leg.
  abbrev pub ecc_observed : DeviceWindow F → Bool
  ecc_observed dw = dw.ecc_double_bit_known && ltb 0 dw.ecc_double_bit_errs

  abbrev pub link_observed : DeviceWindow F → Bool
  link_observed dw = dw.link_errors_known && ltb 0 dw.link_errors

  -- The map writes `seen[dw.UUID] = true` under a test.
  unfoldable pub seen_by :
      (DeviceWindow F → Bool) → List (DeviceWindow F) → List String → List String
  seen_by test [] seen = seen
  seen_by test (dw ∷ dws) seen = seen_by test dws (if test dw then dw.uuid ∷ seen else seen)

module _ {F : Type 0} ⦃fl : Float64 F⦄ where
  abbrev pub known_or_blank : String → Option (DeviceWindow F) → DeviceWindow F
  known_or_blank uuid none = blank_window uuid
  known_or_blank uuid (some md) = md

  -- `merged[dw.UUID]`, made if it is missing, and completed by `dw`.
  unfoldable pub merge_into :
      List (DeviceWindow F) → List (String × DeviceWindow F) → List (String × DeviceWindow F)
  merge_into [] merged = merged
  merge_into (dw ∷ dws) merged = merge_into dws (
      insert dw.uuid (merge_device_window (known_or_blank dw.uuid (lookup dw.uuid merged)) dw)
        merged)

  -- One round of the loop.
  unfoldable pub gather_one : Gathered F → Observation F → Gathered F
  gather_one g o = record {
    sources = if contains_source o.source g.sources then g.sources else g.sources ++ o.source ∷ [];
    provenance = stamp (source_short o.source) o.provenance g.provenance;
    dcgm_series = g.dcgm_series ++ o.dcgm_series;
    xid_events = g.xid_events ++ o.xid_events;
    nccl_events = g.nccl_events ++ o.nccl_events;
    xid_dmesg = if source_eq o.source dmesg_xid then g.xid_dmesg ++ o.xid_events else g.xid_dmesg;
    nccl_real = if source_eq o.source nccl then g.nccl_real ++ o.nccl_events else g.nccl_real;
    injected = g.injected ++ admitted o.source o.timeline;
    mapping_by_device = admit_mappings o.mappings g.mapping_by_device;
    ecc_dcgm_seen =
        if source_eq o.source dcgm
        then seen_by ecc_observed o.device_windows g.ecc_dcgm_seen
        else g.ecc_dcgm_seen;
    ecc_prom_seen =
        if source_eq o.source prometheus
        then seen_by ecc_observed o.device_windows g.ecc_prom_seen
        else g.ecc_prom_seen;
    link_err_dcgm_seen =
        if source_eq o.source dcgm
        then seen_by link_observed o.device_windows g.link_err_dcgm_seen
        else g.link_err_dcgm_seen;
    merged = merge_into o.device_windows g.merged;
  }

  abbrev pub nothing_gathered : Gathered F
  nothing_gathered = record {
    sources = [];
    provenance = [];
    dcgm_series = [];
    xid_events = [];
    nccl_events = [];
    xid_dmesg = [];
    nccl_real = [];
    injected = [];
    mapping_by_device = [];
    ecc_dcgm_seen = [];
    ecc_prom_seen = [];
    link_err_dcgm_seen = [];
    merged = [];
  }

  unfoldable pub gather_from : Gathered F → List (Observation F) → Gathered F
  unfolding gather_one
  gather_from g [] = g
  gather_from g (o ∷ os) = gather_from (gather_one g o) os
