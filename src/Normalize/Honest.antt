-- ===== src/Normalize/Honest.antt =====
-- Degrade, never fabricate: each number that `Normalize` publishes for a device was read by a
-- source, and each one that no source read is marked.
use mathlib.Core.Path.{subst}
use gpufleet_agent.Prelude.{
  Each, Each_of, String, ◌≡◌, refl, sym, ap, ◌∙◌, Bool, true, false, not, ◌&&◌, Option, none, some,
  is_some, List, [], ◌∷◌, arith, if◌then◌else◌, lookup,
}
use gpufleet_agent.Float.{Float64}
use gpufleet_agent.Wire.{Time, Duration}
use gpufleet_agent.Observation.{DeviceWindow, blank_window, Observation}
use gpufleet_agent.Merge.{merge_all, merge_device_window}
use gpufleet_agent.Merge.FirstKnown.{
  merge_all-FirstKnown, reading, first_known, achieved, tensor, peak, cost,
}
use gpufleet_agent.Semantics.{Semantics, DeviceSample, DeviceSpec, JobDevices, Result, ok, err}
use gpufleet_agent.Gather.{Gathered, known_or_blank, contains, nothing_gathered, gather_from}
use gpufleet_agent.Gather.Merged.{reports_of, merged_reports, lookup-gathered}
use gpufleet_agent.Devices.{can_mfu, sample_of, spec_of, merged_at, device_loop}
use gpufleet_agent.Normalize.{SignalWindow, uuids_of, window_of, finish_window, normalize}
use gpufleet_agent.Normalize.Degrade.{
  is_marked, contains-keys, contains-sort_strings, lookup-samples, lookup-specs, marks_achieved,
  marks_mfu, marks_tensor, marks_cost, is_marked-device_loop,
}

abbrev pub or_zero : {F : Type 0} → F → Option F → F
or_zero zero none = zero
or_zero zero (some a) = a

abbrev pub non_empty : {A : Type 0} → List A → Bool
non_empty [] = false
non_empty (_ ∷ _) = true

-- What the window says of device `u`, whose reports are `ws`, in order.
pub record IsHonest {F : Type 0} ⦃fl : Float64 F⦄ (u : String) (ws : List (DeviceWindow F))
    (w : SignalWindow F) : Type 0 where
  -- A sample has the first achieved FLOPs that a source read, and the first tensor seconds or zero.
  pub sampled :
      Each
        (λ (s : DeviceSample F).
          (first_known achieved ws ≡ some s.achieved_flops)
          × (s.tensor_active_secs ≡ or_zero fl.zero (first_known tensor ws))
          × (fl.le s.window_seconds fl.zero ≡ false))
        (lookup u w.samples)
  -- A spec has the first peak that a source read, and the first cost or zero.
  pub specified :
      Each
        (λ (sp : DeviceSpec F).
          (first_known peak ws ≡ some sp.peak_flops)
          × (sp.cost_per_hour ≡ or_zero fl.zero (first_known cost ws)))
        (lookup u w.specs)
  -- What no source read is marked, and nothing else.
  pub achieved_marked :
      is_marked u "achieved_flops" w.degraded
      ≡ (non_empty ws && not (is_some (first_known achieved ws)))
  pub peak_marked :
      is_marked u "mfu" w.degraded ≡ (non_empty ws && not (is_some (first_known peak ws)))
  pub tensor_marked :
      is_marked u "tensor_active" w.degraded
      ≡ (non_empty ws && not (is_some (first_known tensor ws)))
  pub cost_marked :
      is_marked u "cost" w.degraded ≡ (non_empty ws && not (is_some (first_known cost ws)))

mark_read :
    {A : Type 0} (known : Bool) (a : A) (o : Option A) (listed has : Bool)
    → reading known a ≡ o
    → listed ≡ has
    → (listed && not known) ≡ (has && not (is_some o))
mark_read known a o listed has r l = ground arith

module _ {F : Type 0} ⦃fl : Float64 F⦄ where
  abbrev CostOrZero : DeviceWindow F → Type 0
  CostOrZero dw = dw.cost_known ≡ false → dw.cost_per_hour ≡ fl.zero

  merge_all-CostOrZero :
      (dw : DeviceWindow F) (ws : List (DeviceWindow F))
      → CostOrZero dw
      → CostOrZero (merge_all dw ws)
  unfolding merge_all
  merge_all-CostOrZero dw [] h = h
  merge_all-CostOrZero dw (w ∷ ws) h =
      merge_all-CostOrZero (merge_device_window dw w) ws (one dw w h)
    where
      one : (dw w : DeviceWindow F) → CostOrZero dw → CostOrZero (merge_device_window dw w)
      one dw w h = ground arith

  abbrev TensorOrZero : DeviceWindow F → Type 0
  TensorOrZero dw = dw.tensor_active_known ≡ false → dw.tensor_active_secs ≡ fl.zero

  merge_all-TensorOrZero :
      (dw : DeviceWindow F) (ws : List (DeviceWindow F))
      → TensorOrZero dw
      → TensorOrZero (merge_all dw ws)
  unfolding merge_all
  merge_all-TensorOrZero dw [] h = h
  merge_all-TensorOrZero dw (w ∷ ws) h =
      merge_all-TensorOrZero (merge_device_window dw w) ws (one dw w h)
    where
      one : (dw w : DeviceWindow F) → TensorOrZero dw → TensorOrZero (merge_device_window dw w)
      one dw w h = ground arith

  -- The merged window of a device, by what its reports say.
  record IsRead (u : String) (ws : List (DeviceWindow F)) (dw : DeviceWindow F) : Type 0 where
    achieved_read : achieved dw ≡ first_known achieved ws
    peak_read : peak dw ≡ first_known peak ws
    tensor_read : tensor dw ≡ first_known tensor ws
    cost_read : cost dw ≡ first_known cost ws
    unpriced : CostOrZero dw
    untensored : TensorOrZero dw

  merge_all-IsRead :
      (u : String) (ws : List (DeviceWindow F)) → IsRead u ws (merge_all (blank_window u) ws)
  unfolding blank_window
  merge_all-IsRead u ws =
      let f = merge_all-FirstKnown (blank_window u) ws in
      record {
        achieved_read = f.achieved_first;
        peak_read = f.peak_first;
        tensor_read = f.tensor_first;
        cost_read = f.cost_first;
        unpriced = merge_all-CostOrZero (blank_window u) ws (λ _. refl);
        untensored = merge_all-TensorOrZero (blank_window u) ws (λ _. refl);
      }

  merged-IsRead :
      (obs : List (Observation F)) (u : String)
      → IsRead u (reports_of u obs) (merged_at (gather_from nothing_gathered obs) u)
  unfolding merge_all
  merged-IsRead obs u =
      subst (λ o. IsRead u (reports_of u obs) (known_or_blank u o)) (sym (lookup-gathered u obs))
        (read (reports_of u obs))
    where
      read : (ws : List (DeviceWindow F)) → IsRead u ws (known_or_blank u (merged_reports u ws))
      read [] = merge_all-IsRead u []
      read (w ∷ ws) = merge_all-IsRead u (w ∷ ws)

  contains-uuids_of :
      (obs : List (Observation F)) (u : String)
      → contains u (uuids_of (gather_from nothing_gathered obs)) ≡ non_empty (reports_of u obs)
  contains-uuids_of obs u =
      contains-sort_strings u _
      ∙ contains-keys u (gather_from nothing_gathered obs).merged
      ∙ ap is_some (lookup-gathered u obs)
      ∙ known (reports_of u obs)
    where
      known : (ws : List (DeviceWindow F)) → is_some (merged_reports u ws) ≡ non_empty ws
      known [] = refl
      known (w ∷ ws) = refl

  module _ (u : String) (ws : List (DeviceWindow F)) (dw : DeviceWindow F)
      (r : IsRead u ws dw) where
    sample_read :
        (listed : Bool) (s : DeviceSample F)
        → (if listed && can_mfu dw then some (sample_of dw) else none) ≡ some s
        → (first_known achieved ws ≡ some s.achieved_flops)
          × (s.tensor_active_secs ≡ or_zero fl.zero (first_known tensor ws))
          × (fl.le s.window_seconds fl.zero ≡ false)
    unfolding can_mfu
    sample_read listed s e = ground (arith, r.achieved_read, r.tensor_read, r.untensored)

    spec_read :
        (listed : Bool) (sp : DeviceSpec F)
        → (if listed && can_mfu dw then some (spec_of dw) else none) ≡ some sp
        → (first_known peak ws ≡ some sp.peak_flops)
          × (sp.cost_per_hour ≡ or_zero fl.zero (first_known cost ws))
    unfolding can_mfu
    spec_read listed sp e = ground (arith, r.peak_read, r.cost_read, r.unpriced)

module _ {F : Type 0} ⦃fl : Float64 F⦄ (obs : List (Observation F)) (u : String) where
  window_of-IsHonest :
      (sem : Semantics F) (agent_id : String) (now : Time) (window : Duration)
      (jobs : List JobDevices)
      → let g = gather_from nothing_gathered obs in
        IsHonest u
          (reports_of u obs)
          (window_of sem agent_id now window g (device_loop g (uuids_of g)) jobs)
  unfolding window_of
  window_of-IsHonest sem agent_id now window jobs =
      let g : Gathered F = gather_from nothing_gathered obs in
      let us : List String = uuids_of g in
      let dw : DeviceWindow F = merged_at g u in
      let ws : List (DeviceWindow F) = reports_of u obs in
      let r : IsRead u ws dw = merged-IsRead obs u in
      let listed = contains-uuids_of obs u in
      record {
        sampled =
            Each_of _ _
              (λ s e. sample_read u ws dw r (contains u us) s (sym (lookup-samples g u us) ∙ e));
        specified =
            Each_of _ _
              (λ sp e. spec_read u ws dw r (contains u us) sp (sym (lookup-specs g u us) ∙ e));
        achieved_marked =
            is_marked-device_loop _ _ g u us marks_achieved
            ∙ mark_read dw.achieved_flops_known dw.achieved_flops _ _ _ r.achieved_read listed;
        peak_marked =
            is_marked-device_loop _ _ g u us marks_mfu
            ∙ mark_read dw.peak_flops_known dw.peak_flops _ _ _ r.peak_read listed;
        tensor_marked =
            is_marked-device_loop _ _ g u us marks_tensor
            ∙ mark_read dw.tensor_active_known dw.tensor_active_secs _ _ _ r.tensor_read listed;
        cost_marked =
            is_marked-device_loop _ _ g u us marks_cost
            ∙ mark_read dw.cost_known dw.cost_per_hour _ _ _ r.cost_read listed;
      }

  abbrev HonestWindow : Result (SignalWindow F) → Type 0
  HonestWindow (ok w) = IsHonest u (reports_of u obs) w
  HonestWindow (err e) = Unit

  -- What a published window says of a device is what its reports say: a sample and a spec have
  -- the first known reading of each of its numbers in the order of the collectors (a sample achieved
  -- FLOPs and tensor seconds, a spec peak and cost; tensor seconds and cost are zero if no report
  -- knows them), a sample has a positive measurement window, and a device that some collector
  -- reported is marked for exactly those of achieved FLOPs, peak, tensor time and cost that no
  -- report knows.
  pub normalize-IsHonest :
      (sem : Semantics F) (agent_id : String) (now : Time) (window : Duration) {w : SignalWindow F}
      → normalize sem agent_id now window obs ≡ ok w
      → IsHonest u (reports_of u obs) w
  unfolding normalize
  normalize-IsHonest sem agent_id now window e =
      subst HonestWindow e (honest (sem.resolve_mapping _))
    where
      g : Gathered F
      g = gather_from nothing_gathered obs

      honest :
          (r : Result (List JobDevices))
          → HonestWindow
              (finish_window (window_of sem agent_id now window g (device_loop g (uuids_of g))) r)
      honest (ok jobs) = window_of-IsHonest sem agent_id now window jobs
      honest (err x) = tt
