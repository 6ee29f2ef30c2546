-- ===== src/Spec/Precedence.antt =====
-- device_spec.go and gpu_peak_table.go: a peak comes from the metrics, then from the operator's
-- spec, then from the built-in table.
use gpufleet_agent.Prelude.{
  String, ◌≡◌, refl, sym, ap, ◌∙◌, inl, inr, Bool, true, false, not, ◌&&◌, ◌||◌, ◌==◌, Option, none,
  some, is_some, List, [], ◌∷◌, map, length, nat_eq, lookup, arith, if◌then◌else◌, Bool-cases,
}
use gpufleet_agent.Float.{Float64}
use gpufleet_agent.Observation.{DeviceWindow, Observation}
use gpufleet_agent.Spec.{
  DeviceSpecEntry, DeviceSpec, Filled, first_of, has_peak, has_cost, spec_lookup, is_empty_spec,
  fill_entry, fill_found, count_found, fill_windows, nothing_filled, spec_fill,
}
use gpufleet_agent.Spec.Peaks.{
  GpuPeakEntry, match_model_peak, TableFilled, table_entry, fill_from, table_windows, table_fill,
}

abbrev given_if : {F : Type 0} → Bool → F → Option F
given_if b x = if b then some x else none

abbrev value_or : {F : Type 0} → F → Option F → F
value_or x none = x
value_or x (some y) = y

module _ {F : Type 0} ⦃fl : Float64 F⦄ where
  abbrev spec_peak : Option (DeviceSpecEntry F) → Option F
  spec_peak none = none
  spec_peak (some e) = given_if (has_peak e) (fl.mul e.peak_tflops fl.tera)

  abbrev spec_cost : Option (DeviceSpecEntry F) → Option F
  spec_cost none = none
  spec_cost (some e) = given_if (has_cost e) e.cost_per_hour

  abbrev table_peak : String → Option (GpuPeakEntry F) → Option F
  table_peak model none = none
  table_peak model (some e) = if model == "" then none else some (fl.mul e.peak_tflops fl.tera)

  -- The window with the peak of the first origin that has one, the metrics before the others; with
  -- the cost of the metrics or else of the spec; and with FLOPs that follow from a peak not metered.
  abbrev completed :
      DeviceWindow F → Option (DeviceSpecEntry F) → Option (GpuPeakEntry F) → DeviceWindow F
  completed dw entry matched =
      let other = first_of (spec_peak entry) (table_peak dw.model matched) in
      let peak = first_of (given_if dw.peak_flops_known dw.peak_flops) other in
      let cost = first_of (given_if dw.cost_known dw.cost_per_hour) (spec_cost entry) in
      let follows =
        not dw.peak_flops_known
        && is_some other
        && dw.tensor_active_known
        && not dw.achieved_flops_known in
      record dw {
        peak_flops = value_or dw.peak_flops peak;
        peak_flops_known = is_some peak;
        cost_per_hour = value_or dw.cost_per_hour cost;
        cost_known = is_some cost;
        achieved_flops =
            if follows
            then fl.mul dw.tensor_active_secs (value_or dw.peak_flops other)
            else dw.achieved_flops;
        achieved_flops_known = dw.achieved_flops_known || follows;
      }

  completes :
      (dw : DeviceWindow F) (entry : Option (DeviceSpecEntry F)) (matched : Option (GpuPeakEntry F))
      → fill_from (table_entry (fill_found entry dw) matched) (fill_found entry dw)
        ≡ completed dw entry matched
  unfolding fill_from fill_entry
  completes dw none none = ground arith
  completes dw none (some e) = ground arith
  completes dw (some e) none = ground arith
  completes dw (some e) (some e') = ground arith

  model-fill_found :
      (entry : Option (DeviceSpecEntry F)) (dw : DeviceWindow F)
      → (fill_found entry dw).model ≡ dw.model
  unfolding fill_entry
  model-fill_found none dw = refl
  model-fill_found (some e) dw = ground arith

  -- The window that both collectors make, where the table is enabled.
  abbrev pub complete_window : DeviceSpec F → Bool → DeviceWindow F → DeviceWindow F
  complete_window s enabled dw =
      completed dw (spec_lookup s dw.uuid dw.model)
        (if enabled then match_model_peak dw.model else none)

  one_window :
      (s : DeviceSpec F) (dw : DeviceWindow F)
      → let filled = fill_found (spec_lookup s dw.uuid dw.model) dw in
        fill_from (table_entry filled (match_model_peak filled.model)) filled
        ≡ complete_window s true dw
  one_window s dw =
      let filled = fill_found (spec_lookup s dw.uuid dw.model) dw in
      ap (λ m. fill_from (table_entry filled (match_model_peak m)) filled)
        (model-fill_found (spec_lookup s dw.uuid dw.model) dw)
      ∙ completes dw _ _

  windows_complete :
      (s : DeviceSpec F) (dws : List (DeviceWindow F)) (f : Filled) (g : TableFilled)
      → (table_windows (fill_windows s dws f).0 g).0 ≡ map (complete_window s true) dws
  unfolding table_windows fill_windows
  windows_complete s [] f g = refl
  windows_complete s (dw ∷ dws) f g = cc (one_window s dw, windows_complete s dws _ _)

  lookup_empty :
      (a b : List (String × DeviceSpecEntry F)) (uuid model : String)
      → (nat_eq (length a) 0 && nat_eq (length b) 0) ≡ true
      → spec_lookup (record { by_uuid = a; by_model = b }) uuid model ≡ none
  unfolding spec_lookup lookup
  lookup_empty [] [] uuid model h = ground arith
  lookup_empty [] (x ∷ b) uuid model h = ground arith
  lookup_empty (x ∷ a) b uuid model h = ground arith

  spec_window :
      (dw : DeviceWindow F) (entry : Option (DeviceSpecEntry F))
      → fill_found entry dw ≡ completed dw entry none
  unfolding fill_entry
  spec_window dw none = ground arith
  spec_window dw (some e) = ground arith

  windows_spec :
      (s : DeviceSpec F) (dws : List (DeviceWindow F)) (f : Filled)
      → (fill_windows s dws f).0 ≡ map (complete_window s false) dws
  unfolding fill_windows
  windows_spec s [] f = refl
  windows_spec s (dw ∷ dws) f =
      cc (spec_window dw (spec_lookup s dw.uuid dw.model), windows_spec s dws _)

  -- A spec without entries fills nothing.
  windows_empty :
      (s : DeviceSpec F) (dws : List (DeviceWindow F)) (f : Filled)
      → is_empty_spec s ≡ true
      → (fill_windows s dws f).0 ≡ dws
  unfolding fill_windows
  windows_empty s [] f h = refl
  windows_empty s (dw ∷ dws) f h = cc (
    ap (λ o. fill_found o dw) (lookup_empty s.by_uuid s.by_model dw.uuid dw.model h),
    windows_empty s dws (count_found (spec_lookup s dw.uuid dw.model) dw f) h,
  )

  spec_fill-windows :
      (s : DeviceSpec F) (o : Observation F)
      → (spec_fill s o).device_windows ≡ (fill_windows s o.device_windows nothing_filled).0
  unfolding spec_fill
  spec_fill-windows s o = elim (Bool-cases (is_empty_spec s)) [
    | inl e ↦ rw e (sym (windows_empty s o.device_windows nothing_filled e))
    | inr e ↦ rw e refl
  ]

  -- Behind both collectors, a window has the peak of the first origin that gives one: the metrics,
  -- the entry of the operator's spec, or the built-in table if it is enabled; if none does, its peak
  -- stays unknown. Its cost is that of the metrics or else of the spec, never of the table. Achieved
  -- FLOPs are derived from the tensor activity only where they and the peak were not metered. Nothing
  -- else of a window changes, and no window is added or lost.
  pub table_fill-spec_fill :
      (s : DeviceSpec F) (enabled : Bool) (o : Observation F)
      → (table_fill enabled (spec_fill s o)).device_windows
        ≡ map (complete_window s enabled) o.device_windows
  unfolding table_fill
  table_fill-spec_fill s true o =
      ap (λ dws. (table_windows dws (record { counts = nothing_filled; models = [] })).0)
        (spec_fill-windows s o)
      ∙ windows_complete s o.device_windows _ _
  table_fill-spec_fill s false o =
      spec_fill-windows s o ∙ windows_spec s o.device_windows nothing_filled
