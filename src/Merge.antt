-- ===== src/Merge.antt =====
-- normalize.go, `mergeDeviceWindow`: completing one device's fields from several sources.
pub mod FirstKnown
use gpufleet_agent.Prelude.{
  String, Bool, true, false, not, ◌&&◌, List, [], ◌∷◌, ◌==◌, if◌then◌else◌,
}
use gpufleet_agent.Float.{Float64}
use gpufleet_agent.Observation.{DeviceWindow}

-- A pair of a value and its flag: filled if the source knows it and the target does not.
abbrev pub fill {ℓ} : {A : Type ℓ} → (known : Bool) → A → (src_known : Bool) → A → A
fill known old src_known new = if src_known && not known then new else old

abbrev pub fill_known : Bool → Bool → Bool
fill_known known src_known = if src_known && not known then true else known

abbrev pub overwrite : String → String → String
overwrite old new = if new == "" then old else new

module _ {F : Type 0} ⦃fl : Float64 F⦄ where
  unfoldable pub merge_device_window : DeviceWindow F → DeviceWindow F → DeviceWindow F
  merge_device_window dst src = record {
    uuid = dst.uuid;
    node = overwrite dst.node src.node;
    model = overwrite dst.model src.model;
    window_seconds =
        if fl.lt fl.zero src.window_seconds then src.window_seconds else dst.window_seconds;
    achieved_flops =
        fill dst.achieved_flops_known dst.achieved_flops src.achieved_flops_known
          src.achieved_flops;
    achieved_flops_known = fill_known dst.achieved_flops_known src.achieved_flops_known;
    tensor_active_secs =
        fill dst.tensor_active_known dst.tensor_active_secs src.tensor_active_known
          src.tensor_active_secs;
    tensor_active_known = fill_known dst.tensor_active_known src.tensor_active_known;
    peak_flops = fill dst.peak_flops_known dst.peak_flops src.peak_flops_known src.peak_flops;
    peak_flops_known = fill_known dst.peak_flops_known src.peak_flops_known;
    cost_per_hour = fill dst.cost_known dst.cost_per_hour src.cost_known src.cost_per_hour;
    cost_known = fill_known dst.cost_known src.cost_known;
    ecc_double_bit_errs =
        fill dst.ecc_double_bit_known dst.ecc_double_bit_errs src.ecc_double_bit_known
          src.ecc_double_bit_errs;
    ecc_double_bit_known = fill_known dst.ecc_double_bit_known src.ecc_double_bit_known;
    link_errors = fill dst.link_errors_known dst.link_errors src.link_errors_known src.link_errors;
    link_errors_known = fill_known dst.link_errors_known src.link_errors_known;
  }

  -- The windows of one device, merged one after the other.
  unfoldable pub merge_all : DeviceWindow F → List (DeviceWindow F) → DeviceWindow F
  unfolding merge_device_window
  merge_all dst [] = dst
  merge_all dst (w ∷ ws) = merge_all (merge_device_window dst w) ws
