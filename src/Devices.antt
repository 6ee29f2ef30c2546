-- ===== src/Devices.antt =====
-- normalize.go, the second loop of `Normalize`: one round for each merged device, in the order of
-- their UUIDs.
use gpufleet_agent.Prelude.{
  String, Bool, true, false, not, ◌&&◌, Option, none, some, List, [], ◌∷◌, ◌++◌, if◌then◌else◌,
  lookup,
}
use gpufleet_agent.Float.{Float64}
use gpufleet_agent.Wire.{dcgm, prometheus, DeviceJobMapping}
use gpufleet_agent.Observation.{DeviceWindow}
use gpufleet_agent.Timeline.{EccDbeDevice}
use gpufleet_agent.Semantics.{Device, DeviceSample, DeviceSpec}
use gpufleet_agent.Gather.{Gathered, known_or_blank, contains, ecc_observed, link_observed}

pub record DegradeMark : Type 0 where
  pub device_uuid : String
  pub field : String
  pub reason : String

-- What the loop has produced.
pub record Devices (F : Type 0) : Type 0 where
  pub ecc_dbe_devices : List EccDbeDevice
  pub link_err_devices : List String
  pub devices : List (String × Device)
  pub degraded : List DegradeMark
  pub mappings : List (DeviceJobMapping F)
  pub samples : List (String × DeviceSample F)
  pub specs : List (String × DeviceSpec F)

abbrev pub when {ℓ} : {A : Type ℓ} → Bool → A → List A
when true a = a ∷ []
when false a = []

abbrev pub mark : String → String → String → DegradeMark
mark uuid field reason = record { device_uuid = uuid; field = field; reason = reason }

module _ {F : Type 0} where
  -- The `switch` that emits the ECC counter leg; DCGM is preferred.
  unfoldable pub ecc_leg : Gathered F → String → DeviceWindow F → List EccDbeDevice
  ecc_leg g u dw =
      if ecc_observed dw && contains u g.ecc_dcgm_seen
      then record { uuid = u; source = dcgm } ∷ []
      else when (ecc_observed dw && contains u g.ecc_prom_seen)
          (record { uuid = u; source = prometheus })

  unfoldable pub link_leg : Gathered F → String → DeviceWindow F → List String
  link_leg g u dw = when (link_observed dw && contains u g.link_err_dcgm_seen) u

  abbrev pub device_of : DeviceWindow F → Device
  device_of dw = record { uuid = dw.uuid; node = dw.node; model = dw.model }

module _ {F : Type 0} ⦃fl : Float64 F⦄ where
  abbrev pub blank_mapping :
      String → DeviceWindow F → Option (DeviceJobMapping F) → DeviceJobMapping F
  blank_mapping u dw none = record {
    device_uuid = u;
    device_index = 0;
    node = dw.node;
    job_id = "";
    peak_tflops = fl.zero;
    cost_rate_usd_per_hour = fl.zero;
  }
  blank_mapping u dw (some m) = m

  -- The mapping that the pack carries: the known peak and cost are reflected onto it.
  unfoldable pub pack_mapping :
      String → DeviceWindow F → Option (DeviceJobMapping F) → DeviceJobMapping F
  pack_mapping u dw known =
      let m = blank_mapping u dw known in
      record m {
        peak_tflops = if dw.peak_flops_known then fl.div dw.peak_flops fl.tera else m.peak_tflops;
        cost_rate_usd_per_hour =
            if dw.cost_known then dw.cost_per_hour else m.cost_rate_usd_per_hour;
      }

  abbrev pub job_mark : String → Option (DeviceJobMapping F) → List DegradeMark
  job_mark u none =
      mark u "job_id" "no scheduler/Prometheus source supplied a device->job mapping" ∷ []
  job_mark u (some _) = []

  -- The marks of one device, in the order of the body.
  unfoldable pub device_marks :
      String → DeviceWindow F → Option (DeviceJobMapping F) → List DegradeMark
  device_marks u dw known =
      job_mark u known
      ++ (when (fl.le dw.window_seconds fl.zero)
            (mark u "window_seconds" "no source supplied a positive measurement window")
          ++ (when (not dw.achieved_flops_known)
                (mark u "achieved_flops" "no source supplied achieved FLOPs")
              ++ (when (not dw.peak_flops_known) (
                    mark u "mfu"
                      "peak FLOPS unknown from every source (cannot compute MFU, not zero)")
                  ++ (when (not dw.tensor_active_known)
                        (mark u "tensor_active" "no source supplied tensor-active seconds")
                      ++ when (not dw.cost_known) (
                          mark u "cost"
                            "no source supplied a $/hour rate (wedge reports unpriced)")))))

  unfoldable pub can_mfu : DeviceWindow F → Bool
  can_mfu dw =
      not (fl.le dw.window_seconds fl.zero) && dw.achieved_flops_known && dw.peak_flops_known

  abbrev pub sample_of : DeviceWindow F → DeviceSample F
  sample_of dw = record {
    device = device_of dw;
    window_seconds = dw.window_seconds;
    achieved_flops = dw.achieved_flops;
    tensor_active_secs = dw.tensor_active_secs;
  }

  abbrev pub spec_of : DeviceWindow F → DeviceSpec F
  spec_of dw = record { peak_flops = dw.peak_flops; cost_per_hour = dw.cost_per_hour }

  -- `merged[u]`, for a key `u` of the map.
  abbrev pub merged_at : Gathered F → String → DeviceWindow F
  merged_at g u = known_or_blank u (lookup u g.merged)

  -- The body of the loop for one device, in front of what the later rounds produce.
  unfoldable pub device_round : Gathered F → String → Devices F → Devices F
  unfolding ecc_leg link_leg pack_mapping device_marks can_mfu
  device_round g u later =
      let dw = merged_at g u in
      let known = lookup u g.mapping_by_device in
      record {
        ecc_dbe_devices = ecc_leg g u dw ++ later.ecc_dbe_devices;
        link_err_devices = link_leg g u dw ++ later.link_err_devices;
        devices = (u, device_of dw) ∷ later.devices;
        degraded = device_marks u dw known ++ later.degraded;
        mappings = pack_mapping u dw known ∷ later.mappings;
        samples = when (can_mfu dw) (u, sample_of dw) ++ later.samples;
        specs = when (can_mfu dw) (u, spec_of dw) ++ later.specs;
      }

  unfoldable pub device_loop : Gathered F → List String → Devices F
  unfolding device_round
  device_loop g [] = record {
    ecc_dbe_devices = [];
    link_err_devices = [];
    devices = [];
    degraded = [];
    mappings = [];
    samples = [];
    specs = [];
  }
  device_loop g (u ∷ us) = device_round g u (device_loop g us)
