-- ===== src/Cost.antt =====
-- cost.go: the cost report of a window.
pub mod Report
use gpufleet_agent.Prelude.{
  String, Option, none, some, List, [], ◌∷◌, lookup, insert, keys, length, nat_eq, if◌then◌else◌,
}
use gpufleet_agent.Prelude.Sort.{sort_strings}
use gpufleet_agent.Float.{Float64}
use gpufleet_agent.Semantics.{
  Device, JobDevices, DeviceSample, DeviceSpec, Pricing, Result, ok, err,
}
use gpufleet_agent.Normalize.{SignalWindow}

module _ {F : Type 0} (pr : Pricing F) where
  pub record CostReport : Type 0 where
    pub devices : List pr.Wedge
    pub jobs : List pr.Impact

module _ {F : Type 0} ⦃fl : Float64 F⦄ where
  -- `w.Samples[u]` and `w.Specs[u]`: a missing key gives the zero value.
  abbrev pub sample_or_zero : Option (DeviceSample F) → DeviceSample F
  sample_or_zero (some s) = s
  sample_or_zero none = record {
    device = record { uuid = ""; node = ""; model = "" };
    window_seconds = fl.zero;
    achieved_flops = fl.zero;
    tensor_active_secs = fl.zero;
  }

  abbrev pub spec_or_zero : Option (DeviceSpec F) → DeviceSpec F
  spec_or_zero (some s) = s
  spec_or_zero none = record { peak_flops = fl.zero; cost_per_hour = fl.zero }

module _ {F : Type 0} ⦃fl : Float64 F⦄ (pr : Pricing F) where
  -- The loop over the devices: the wedges by their UUIDs, or the first error.
  abbrev pub add_wedge :
      String
      → Result pr.Wedge
      → Result (List (String × pr.Wedge))
      → Result (List (String × pr.Wedge))
  add_wedge u (err e) rest = err e
  add_wedge u (ok wedge) (err e) = err e
  add_wedge u (ok wedge) (ok rest) = ok ((u, wedge) ∷ rest)

  unfoldable pub wedges_of :
      List (String × DeviceSample F)
      → List (String × DeviceSpec F)
      → pr.Policy
      → List String
      → Result (List (String × pr.Wedge))
  wedges_of samples specs policy [] = ok []
  wedges_of samples specs policy (u ∷ us) =
      add_wedge u
        (pr.device_cost_wedge (sample_or_zero (lookup u samples)) (spec_or_zero (lookup u specs))
          policy)
        (wedges_of samples specs policy us)

  -- The efficiencies of a job's devices, and their specs; a device without a wedge has no part.
  unfoldable pub job_efficiencies : List (String × pr.Wedge) → List Device → List pr.Efficiency
  job_efficiencies wedges [] = []
  job_efficiencies wedges (d ∷ ds) = elim (lookup d.uuid wedges) [
    | none ↦ job_efficiencies wedges ds
    | some wedge ↦ pr.efficiency wedge ∷ job_efficiencies wedges ds
  ]

  unfoldable pub job_specs :
      List (String × DeviceSpec F)
      → List (String × pr.Wedge)
      → List Device
      → List (String × DeviceSpec F)
      → List (String × DeviceSpec F)
  job_specs specs wedges [] acc = acc
  job_specs specs wedges (d ∷ ds) acc = elim (lookup d.uuid wedges) [
    | none ↦ job_specs specs wedges ds acc
    | some wedge ↦
        job_specs specs wedges ds (insert d.uuid (spec_or_zero (lookup d.uuid specs)) acc)
  ]

  -- The loop over the jobs: one without an efficiency is left out.
  unfoldable pub job_impacts :
      List (String × DeviceSpec F)
      → List (String × pr.Wedge)
      → pr.Policy
      → List JobDevices
      → List pr.Impact
  unfolding job_efficiencies job_specs
  job_impacts specs wedges policy [] = []
  job_impacts specs wedges policy (jd ∷ jds) =
      let effs = job_efficiencies wedges jd.devices in
      if nat_eq (length effs) 0
      then job_impacts specs wedges policy jds
      else pr.job_cost_wedge jd.job_id effs (job_specs specs wedges jd.devices []) policy
        ∷ job_impacts specs wedges policy jds

  abbrev pub values : List (String × pr.Wedge) → List pr.Wedge
  values [] = []
  values ((u, wedge) ∷ rest) = wedge ∷ values rest

  abbrev pub report :
      SignalWindow F → pr.Policy → Result (List (String × pr.Wedge)) → Result (CostReport pr)
  report w policy (err e) = err e
  report w policy (ok wedges) =
      ok (record { devices = values wedges; jobs = job_impacts w.specs wedges policy w.jobs })

  unfoldable pub cost_wedge : SignalWindow F → pr.Policy → Result (CostReport pr)
  unfolding wedges_of job_impacts
  cost_wedge w policy =
      report w policy (wedges_of w.samples w.specs policy (sort_strings (keys w.samples)))
