-- ===== src/Spec.antt =====
-- device_spec.go: the operator's table of devices, and the collector that fills from it what the
-- metrics left unknown. The order of an association list stands for the order in which Go visits
-- a map.
pub mod File
pub mod Peaks
pub mod Precedence
use gpufleet_agent.Prelude.{
  ℕ, ◌+◌, String, Bool, true, false, not, ◌&&◌, ◌||◌, ◌==◌, Option, none, some, List, [], ◌∷◌, ◌++◌,
  length, nat_eq, ltb, lookup, insert, if◌then◌else◌,
}
use gpufleet_agent.Prelude.Sort.{sort_strings}
use gpufleet_agent.Prelude.Strings.{join}
use gpufleet_agent.Prelude.Text.{trim_space, trim_prefix, to_lower}
use gpufleet_agent.Float.{Float64}
use gpufleet_agent.Wire.{Time, Duration}
use gpufleet_agent.Observation.{DeviceWindow, Observation, Collected, observed, failed}

pub record DeviceSpecEntry (F : Type 0) : Type 0 where
  pub peak_tflops : F
  pub cost_per_hour : F

pub record DeviceSpec (F : Type 0) : Type 0 where
  pub by_uuid : List (String × DeviceSpecEntry F)
  pub by_model : List (String × DeviceSpecEntry F)

abbrev pub wildcard_model : String
wildcard_model = "*"

-- `normModel`
unfoldable pub norm_model : String → String
unfolding trim_space trim_prefix to_lower
norm_model m = trim_space (trim_prefix (to_lower (trim_space m)) "nvidia ")

abbrev pub first_of {ℓ} : {A : Type ℓ} → Option A → Option A → Option A
first_of (some a) o = some a
first_of none o = o

abbrev pub one_if : Bool → ℕ
one_if b = if b then 1 else 0

-- What a filling collector counts, and the devices it touched.
pub record Filled : Type 0 where
  pub peak : ℕ
  pub cost : ℕ
  pub achieved : ℕ
  pub uuids : List String

abbrev pub nothing_filled : Filled
nothing_filled = record { peak = 0; cost = 0; achieved = 0; uuids = [] }

module _ {F : Type 0} ⦃fl : Float64 F⦄ where
  abbrev pub has_peak : DeviceSpecEntry F → Bool
  has_peak e = fl.lt fl.zero e.peak_tflops

  abbrev pub has_cost : DeviceSpecEntry F → Bool
  has_cost e = fl.lt fl.zero e.cost_per_hour

  -- `empty`
  abbrev pub is_blank : DeviceSpecEntry F → Bool
  is_blank e = not (has_peak e) && not (has_cost e)

  -- An entry that was found counts if it is not empty.
  abbrev pub usable : Option (DeviceSpecEntry F) → Option (DeviceSpecEntry F)
  usable none = none
  usable (some e) = if is_blank e then none else some e

  -- The loop over the models, which compares normalized names and passes over the wildcard.
  unfoldable pub tolerant : String → List (String × DeviceSpecEntry F) → Option (DeviceSpecEntry F)
  unfolding norm_model
  tolerant want [] = none
  tolerant want ((k, e) ∷ rest) =
      let later = tolerant want rest in
      if not (k == wildcard_model) && (norm_model k == want) && not (is_blank e)
      then some e
      else later

  abbrev pub entry_by_model : DeviceSpec F → String → Option (DeviceSpecEntry F)
  entry_by_model s model =
      if model == ""
      then none
      else first_of (usable (lookup model s.by_model)) (tolerant (norm_model model) s.by_model)

  -- `DeviceSpec.lookup`
  unfoldable pub spec_lookup : DeviceSpec F → String → String → Option (DeviceSpecEntry F)
  unfolding tolerant
  spec_lookup s uuid model =
      first_of (usable (lookup uuid s.by_uuid))
        (first_of (entry_by_model s model) (usable (lookup wildcard_model s.by_model)))

  -- `Empty`
  abbrev pub is_empty_spec : DeviceSpec F → Bool
  is_empty_spec s = nat_eq (length s.by_uuid) 0 && nat_eq (length s.by_model) 0

  -- Whether a peak that is filled gives the achieved FLOPs of a window too.
  abbrev pub derives : DeviceWindow F → Bool
  derives dw = dw.tensor_active_known && not dw.achieved_flops_known

  -- A window with the peak, in FLOP/s, and the achieved FLOPs that follow from it.
  unfoldable pub fill_peak : F → DeviceWindow F → DeviceWindow F
  fill_peak peak dw = record dw {
    peak_flops = peak;
    peak_flops_known = true;
    achieved_flops = if derives dw then fl.mul dw.tensor_active_secs peak else dw.achieved_flops;
    achieved_flops_known = dw.achieved_flops_known || derives dw;
  }

  unfoldable pub fill_cost : F → DeviceWindow F → DeviceWindow F
  fill_cost cost dw = record dw { cost_per_hour = cost; cost_known = true }

  abbrev pub fills_peak : DeviceSpecEntry F → DeviceWindow F → Bool
  fills_peak e dw = has_peak e && not dw.peak_flops_known

  abbrev pub fills_cost : DeviceSpecEntry F → DeviceWindow F → Bool
  fills_cost e dw = has_cost e && not dw.cost_known

  unfoldable pub fill_entry : DeviceSpecEntry F → DeviceWindow F → DeviceWindow F
  unfolding fill_peak fill_cost
  fill_entry e dw =
      let peaked = if fills_peak e dw then fill_peak (fl.mul e.peak_tflops fl.tera) dw else dw in
      if fills_cost e peaked then fill_cost e.cost_per_hour peaked else peaked

  abbrev count_filled : DeviceSpecEntry F → DeviceWindow F → Filled → Filled
  count_filled e dw f = record {
    peak = f.peak + one_if (fills_peak e dw);
    cost = f.cost + one_if (fills_cost e dw);
    achieved = f.achieved + one_if (fills_peak e dw && derives dw);
    uuids = if fills_peak e dw || fills_cost e dw then f.uuids ++ dw.uuid ∷ [] else f.uuids;
  }

  -- One round of the loop, on the entry that was looked up.
  abbrev pub fill_found : Option (DeviceSpecEntry F) → DeviceWindow F → DeviceWindow F
  fill_found none dw = dw
  fill_found (some e) dw = fill_entry e dw

  abbrev pub count_found : Option (DeviceSpecEntry F) → DeviceWindow F → Filled → Filled
  count_found none dw f = f
  count_found (some e) dw f = count_filled e dw f

  unfoldable pub fill_windows :
      DeviceSpec F → List (DeviceWindow F) → Filled → List (DeviceWindow F) × Filled
  unfolding fill_entry spec_lookup
  fill_windows s [] f = ([], f)
  fill_windows s (dw ∷ dws) f =
      let found = spec_lookup s dw.uuid dw.model in
      let rest = fill_windows s dws (count_found found dw f) in
      (fill_found found dw ∷ rest.0, rest.1)

-- `obs.Provenance[key] = value`, where the condition holds.
abbrev pub stamp_if : Bool → String → String → List (String × String) → List (String × String)
stamp_if b key value p = if b then insert key value p else p

unfoldable pub stamp_filled : Filled → List (String × String) → List (String × String)
stamp_filled f p = insert "spec.filled_devices" (join "," (sort_strings f.uuids)) (
    stamp_if (ltb 0 f.achieved) "spec.achieved_flops.source"
      "derived:tensor-active*static-spec-peak"
      (stamp_if (ltb 0 f.cost) "spec.cost.source" "static-spec"
        (stamp_if (ltb 0 f.peak) "spec.peak.source" "static-spec" p)))

module _ {F : Type 0} ⦃fl : Float64 F⦄ where
  -- `SpecFillCollector.Collect`, on what the inner collector answered.
  unfoldable pub spec_fill : DeviceSpec F → Observation F → Observation F
  unfolding fill_windows stamp_filled
  spec_fill s o =
      let filled = fill_windows s o.device_windows nothing_filled in
      if is_empty_spec s then o else record o {
        device_windows = filled.0;
        provenance =
            if nat_eq filled.1.peak 0 && nat_eq filled.1.cost 0
            then o.provenance
            else stamp_filled filled.1 o.provenance;
      }
