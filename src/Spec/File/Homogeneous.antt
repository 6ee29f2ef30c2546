-- ===== src/Spec/File/Homogeneous.antt =====
-- cmd/agent/main.go, `buildDeviceSpec`: what the flags for a homogeneous box add to the file.
use gpufleet_agent.Prelude.{
  String, ◌≡◌, ◌≢◌, refl, sym, inl, inr, true, false, ◌||◌, ◌==◌, eq_iff, Option, none, some, List,
  [], ◌∷◌, lookup, insert, lookup-insert, arith, Bool-cases,
}
use gpufleet_agent.Float.{Float64}
use gpufleet_agent.Spec.{
  DeviceSpecEntry, DeviceSpec, wildcard_model, norm_model, first_of, is_blank, usable, tolerant,
  entry_by_model, spec_lookup,
}
use gpufleet_agent.Spec.File.{seed_wildcard}

first_of_assoc :
    {A : Type 0} (a b c : Option A) → first_of a (first_of b c) ≡ first_of (first_of a b) c
first_of_assoc none b c = refl
first_of_assoc (some a) b c = refl

module _ {F : Type 0} ⦃fl : Float64 F⦄ where
  -- The loop over the models passes over the wildcard.
  tolerant-insert :
      (want : String) (e : DeviceSpecEntry F) (m : List (String × DeviceSpecEntry F))
      → tolerant want (insert wildcard_model e m) ≡ tolerant want m
  unfolding tolerant insert
  tolerant-insert want e [] = refl
  tolerant-insert want e ((k, f) ∷ m) = elim (Bool-cases (k == wildcard_model)) [
    | inl star ↦ rw star refl
    | inr other ↦ rw (other, tolerant-insert want e m) (rw other refl)
  ]

  -- The entry that a spec has for a device by its UUID or its model.
  abbrev pub named : DeviceSpec F → String → String → Option (DeviceSpecEntry F)
  named spec uuid model = first_of (usable (lookup uuid spec.by_uuid)) (entry_by_model spec model)

  -- Where a flag gives a peak or a price, every device whose model is not `*` itself has an entry: that
  -- which the file gives to its UUID or its model if there is one, and else that of the flags. An entry of
  -- the file is taken whole: where it gives only a peak or only a price, the flags do not complete it.
  pub spec_lookup-seed_wildcard :
      (peak cost : F) (spec : DeviceSpec F) (uuid model : String)
      → (fl.lt fl.zero peak || fl.lt fl.zero cost) ≡ true
      → model ≢ wildcard_model
      → spec_lookup (seed_wildcard peak cost spec) uuid model
        ≡ first_of
            (named spec uuid model)
            (some (record { peak_tflops = peak; cost_per_hour = cost }))
  unfolding spec_lookup seed_wildcard
  spec_lookup-seed_wildcard peak cost spec uuid model given ne =
      let quick : DeviceSpecEntry F = record { peak_tflops = peak; cost_per_hour = cost } in
      let star : (wildcard_model == model) ≡ false = elim (Bool-cases (wildcard_model == model)) [
        | inl same ↦ absurd (ne (sym ((eq_iff wildcard_model model).0 same)))
        | inr other ↦ other
      ] in
      let full : is_blank quick ≡ false = ground arith in
      rw
        (
          given,
          lookup-insert wildcard_model model quick spec.by_model,
          lookup-insert wildcard_model wildcard_model quick spec.by_model,
          star,
          tolerant-insert (norm_model model) quick spec.by_model,
          full,
        )
        (first_of_assoc (usable (lookup uuid spec.by_uuid)) (entry_by_model spec model)
          (some quick))
