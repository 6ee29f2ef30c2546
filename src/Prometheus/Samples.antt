-- ===== src/Prometheus/Samples.antt =====
-- collectors_prometheus.go: the devices that the samples of a query are gathered into.
use gpufleet_agent.Prelude.{
  String, Bool, true, false, ◌==◌, Option, none, some, List, [], ◌∷◌, leb, lookup, insert,
  if◌then◌else◌,
}
use gpufleet_agent.Float.{Float64}
use gpufleet_agent.Observation.{DeviceWindow, blank_window}
use gpufleet_agent.Dcgm.Exposition.Devices.{label_of, either_text, placed}
use gpufleet_agent.Prometheus.{PromLabels, PromVectorSample}

-- `promDevAccum`
pub record PromDevAccum (F : Type 0) : Type 0 where
  pub dw : DeviceWindow F
  pub job : String
  pub job_seen : Bool

-- What the closures of `Collect` share.
pub record Reading (F : Type 0) : Type 0 where
  pub devs : List (String × PromDevAccum F)
  pub first_err : Option String

-- `ident`
unfoldable pub ident : PromLabels → String → List (String × String) → String × String × String
ident labels node m =
    (label_of labels.uuid m, either_text (label_of labels.node m) node, label_of labels.model m)

abbrev pub noted : {F : Type 0} → String → Reading F → Reading F
noted e r = record r { first_err = elim r.first_err [ none ↦ some e | some first ↦ some first ] }

module _ {F : Type 0} ⦃fl : Float64 F⦄ where
  -- `scalar`
  unfoldable pub scalar : List (Option String) → Option F
  scalar (ts ∷ some s ∷ []) = fl.parse s
  scalar _ = none

  abbrev pub accum_or : F → String → Option (PromDevAccum F) → PromDevAccum F
  accum_or ws uuid (some a) = a
  accum_or ws uuid none = record {
    dw = record (blank_window uuid) { window_seconds = ws };
    job = "";
    job_seen = false;
  }

  -- `get`
  unfoldable pub accum_for :
      F → String × String × String → List (String × PromDevAccum F) → PromDevAccum F
  unfolding blank_window
  accum_for ws (uuid, node, model) devs =
      let a = accum_or ws uuid (lookup uuid devs) in record a { dw = placed node model a.dw }

  abbrev pub applied :
      F
      → (F → DeviceWindow F → DeviceWindow F)
      → String × String × String
      → Option F
      → List (String × PromDevAccum F)
      → List (String × PromDevAccum F)
  applied ws apply id none devs = devs
  applied ws apply id (some v) devs =
      let a = accum_for ws id devs in
      if id.0 == "" then devs else insert id.0 (record a { dw = apply v a.dw }) devs

  -- The loop of `run` over the samples.
  unfoldable pub apply_samples :
      F
      → PromLabels
      → String
      → (F → DeviceWindow F → DeviceWindow F)
      → List PromVectorSample
      → List (String × PromDevAccum F)
      → List (String × PromDevAccum F)
  unfolding accum_for scalar ident
  apply_samples ws labels node apply [] devs = devs
  apply_samples ws labels node apply (s ∷ ss) devs =
      apply_samples ws labels node apply ss
        (applied ws apply (ident labels node s.metric) (scalar s.value) devs)

  abbrev pub owned :
      F
      → String × String × String
      → String
      → List (String × PromDevAccum F)
      → List (String × PromDevAccum F)
  owned ws id job devs =
      let a = accum_for ws id devs in
      if id.0 == ""
      then devs
      else insert id.0 (if job == "" then a else record a { job = job; job_seen = true }) devs

  -- The loop over the samples of the job owners.
  unfoldable pub apply_owners :
      F
      → PromLabels
      → String
      → List PromVectorSample
      → List (String × PromDevAccum F)
      → List (String × PromDevAccum F)
  unfolding accum_for ident
  apply_owners ws labels node [] devs = devs
  apply_owners ws labels node (s ∷ ss) devs =
      apply_owners ws labels node ss
        (owned ws (ident labels node s.metric) (label_of labels.job s.metric) devs)

  -- The closures that are given to `run`.
  abbrev pub set_peak : F → DeviceWindow F → DeviceWindow F
  set_peak v dw = record dw { peak_flops = v; peak_flops_known = true }

  abbrev pub set_cost : F → DeviceWindow F → DeviceWindow F
  set_cost v dw = record dw { cost_per_hour = v; cost_known = true }

  abbrev pub set_achieved : F → F → DeviceWindow F → DeviceWindow F
  set_achieved ws v dw = record dw { achieved_flops = fl.mul v ws; achieved_flops_known = true }

  abbrev pub set_tensor : F → F → DeviceWindow F → DeviceWindow F
  set_tensor ws v dw = record dw { tensor_active_secs = fl.mul v ws; tensor_active_known = true }

  abbrev pub set_ecc : F → DeviceWindow F → DeviceWindow F
  set_ecc v dw =
      if leb 1 (fl.round v)
      then record dw { ecc_double_bit_errs = fl.round v; ecc_double_bit_known = true }
      else dw

-- `promMode`
abbrev pub prom_mode : String → String
prom_mode node = if node == "" then "central-agentless" else "per-node-daemonset"
