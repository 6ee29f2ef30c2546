-- ===== src/Cost/Report.antt =====
-- What the cost report of a window lists.
use mathlib.Core.Path.{subst}
use gpufleet_agent.Prelude.{
  ℕ, String, lookup-insert, ◌≡◌, ◌≢◌, refl, sym, ap, ◌⊎◌, inl, inr, Bool, true, false, ◌&&◌, ◌||◌,
  ◌==◌, eq_iff, Option, none, some, is_some, List, [], ◌∷◌, All, lookup, insert, keys, suc,
  Bool-cases, length, nat_eq, arith, if◌then◌else◌,
}
use gpufleet_agent.Prelude.Sort.{sort_strings}
use gpufleet_agent.Float.{Float64}
use gpufleet_agent.Semantics.{Device, DeviceSpec, JobDevices, Pricing, Result, ok, err}
use gpufleet_agent.Normalize.{SignalWindow}
use gpufleet_agent.Cost.{
  CostReport, sample_or_zero, spec_or_zero, add_wedge, values, wedges_of, job_efficiencies,
  job_specs, job_impacts, report, cost_wedge,
}

-- A device of the list has this UUID.
abbrev pub has_uuid : String → List Device → Bool
has_uuid u [] = false
has_uuid u (d ∷ ds) = (d.uuid == u) || has_uuid u ds

module _ {F : Type 0} ⦃fl : Float64 F⦄ (pr : Pricing F) (specs : List (String × DeviceSpec F))
    (wedges : List (String × pr.Wedge)) where
  -- The wedges of those devices that have one, in order.
  abbrev pub wedges_on : List Device → List pr.Wedge
  wedges_on [] = []
  wedges_on (d ∷ ds) = elim (lookup d.uuid wedges) [
    | none ↦ wedges_on ds
    | some wedge ↦ wedge ∷ wedges_on ds
  ]

  abbrev pub efficiencies : List pr.Wedge → List pr.Efficiency
  efficiencies [] = []
  efficiencies (wedge ∷ rest) = pr.efficiency wedge ∷ efficiencies rest

  -- The map has the spec of each of the devices that has a wedge, and nothing else.
  abbrev pub AreSpecs : List Device → List (String × DeviceSpec F) → Type 0
  AreSpecs ds found =
      (u : String)
      → lookup u found ≡ (
          if has_uuid u ds && is_some (lookup u wedges)
          then some (spec_or_zero (lookup u specs))
          else none)

  -- The impacts of the jobs, in order: a job none of whose devices has a wedge has none, and any other
  -- is priced by the efficiencies and the specs of its devices that have one.
  abbrev pub AreImpacts : pr.Policy → List JobDevices → List pr.Impact → Type 0
  AreImpacts policy [] impacts = impacts ≡ []
  AreImpacts policy (jd ∷ jds) impacts =
      ((wedges_on jd.devices ≡ []) × AreImpacts policy jds impacts)
      ⊎ ((wedges_on jd.devices ≢ [])
          × (found : List (String × DeviceSpec F)) × AreSpecs jd.devices found
          × (later : List pr.Impact) × (impacts
              ≡ pr.job_cost_wedge jd.job_id (efficiencies (wedges_on jd.devices)) found policy
                ∷ later)
          × AreImpacts policy jds later)

  job_efficiencies_lem :
      (ds : List Device) → job_efficiencies pr wedges ds ≡ efficiencies (wedges_on ds)
  unfolding job_efficiencies
  job_efficiencies_lem [] = refl
  job_efficiencies_lem (d ∷ ds) = found (lookup d.uuid wedges) (job_efficiencies_lem ds)
    where
      found :
          (o : Option pr.Wedge)
          → job_efficiencies pr wedges ds ≡ efficiencies (wedges_on ds)
          → (elim o as (λ _. List pr.Efficiency) [
            | none ↦ job_efficiencies pr wedges ds
            | some wedge ↦ pr.efficiency wedge ∷ job_efficiencies pr wedges ds
          ])
            ≡ efficiencies (elim o as (λ _. List pr.Wedge) [
              | none ↦ wedges_on ds
              | some wedge ↦ wedge ∷ wedges_on ds
            ])
      found none e = e
      found (some wedge) e = ap (λ rest. pr.efficiency wedge ∷ rest) e

  lookup-job_specs :
      (u : String) (ds : List Device) (acc : List (String × DeviceSpec F))
      → lookup u (job_specs pr specs wedges ds acc) ≡ (
          if has_uuid u ds && is_some (lookup u wedges)
          then some (spec_or_zero (lookup u specs))
          else lookup u acc)
  unfolding job_specs
  lookup-job_specs u [] acc = refl
  lookup-job_specs u (d ∷ ds) acc =
      found (lookup d.uuid wedges) refl (Bool-cases (d.uuid == u)) (lookup-job_specs u ds acc)
        (lookup-job_specs u ds (insert d.uuid (spec_or_zero (lookup d.uuid specs)) acc))
    where
      kept : List (String × DeviceSpec F)
      kept = insert d.uuid (spec_or_zero (lookup d.uuid specs)) acc

      Has : Bool → Option (DeviceSpec F) → Option (DeviceSpec F) → Type 0
      Has b old o =
          o ≡ (if b && is_some (lookup u wedges) then some (spec_or_zero (lookup u specs)) else old)

      found :
          (o : Option pr.Wedge)
          → lookup d.uuid wedges ≡ o
          → ((d.uuid == u) ≡ true) ⊎ ((d.uuid == u) ≡ false)
          → Has (has_uuid u ds) (lookup u acc) (lookup u (job_specs pr specs wedges ds acc))
          → Has (has_uuid u ds) (lookup u kept) (lookup u (job_specs pr specs wedges ds kept))
          → Has ((d.uuid == u) || has_uuid u ds) (lookup u acc) (
              lookup u (elim o as (λ _. List (String × DeviceSpec F)) [
                | none ↦ job_specs pr specs wedges ds acc
                | some wedge ↦ job_specs pr specs wedges ds kept
              ]))
      found none e (inl same) h k =
          let gone : lookup u wedges ≡ none =
            subst (λ t. lookup t wedges ≡ none) ((eq_iff _ _).0 same) e in
          rw (gone, same) (ground (arith, h, gone))
      found none e (inr other) h k = rw other h
      found (some wedge) e (inl same) h k =
          let here : lookup u wedges ≡ some wedge =
            subst (λ t. lookup t wedges ≡ some wedge) ((eq_iff _ _).0 same) e in
          let spec : spec_or_zero (lookup d.uuid specs) ≡ spec_or_zero (lookup u specs) =
            ap (λ t. spec_or_zero (lookup t specs)) ((eq_iff _ _).0 same) in
          ground (
            arith,
            k,
            here,
            same,
            spec,
            lookup-insert d.uuid u (spec_or_zero (lookup d.uuid specs)) acc,
          )
      found (some wedge) e (inr other) h k =
          ground (arith, k, other, lookup-insert d.uuid u (spec_or_zero (lookup d.uuid specs)) acc)

  nat_eq-suc : (n : ℕ) → nat_eq (suc n) 0 ≡ false
  nat_eq-suc n = ground arith

  job_impacts-AreImpacts :
      (policy : pr.Policy) (jds : List JobDevices)
      → AreImpacts policy jds (job_impacts pr specs wedges policy jds)
  unfolding job_impacts lookup
  job_impacts-AreImpacts policy [] = refl
  job_impacts-AreImpacts policy (jd ∷ jds) =
      subst (λ effs. Impacts effs) (sym (job_efficiencies_lem jd.devices))
        (by_wedges (wedges_on jd.devices) refl (job_impacts-AreImpacts policy jds))
    where
      Impacts : List pr.Efficiency → Type 0
      Impacts effs = AreImpacts policy (jd ∷ jds) (
          if nat_eq (length effs) 0
          then job_impacts pr specs wedges policy jds
          else pr.job_cost_wedge jd.job_id effs (job_specs pr specs wedges jd.devices []) policy
            ∷ job_impacts pr specs wedges policy jds)

      by_wedges :
          (ws : List pr.Wedge)
          → wedges_on jd.devices ≡ ws
          → AreImpacts policy jds (job_impacts pr specs wedges policy jds)
          → Impacts (efficiencies ws)
      by_wedges [] e h = inl (e, h)
      by_wedges (wedge ∷ ws) e h = rw (nat_eq-suc (length (efficiencies ws))) (
          inr (
            (λ z. ground (arith, e, z)),
            job_specs pr specs wedges jd.devices [],
            (λ u. lookup-job_specs u jd.devices []),
            _,
            ap
                (λ all.
                  pr.job_cost_wedge jd.job_id (efficiencies all)
                    (job_specs pr specs wedges jd.devices []) policy
                  ∷ job_impacts pr specs wedges policy jds)
                (sym e),
            h,
          ))

module _ {F : Type 0} ⦃fl : Float64 F⦄ (pr : Pricing F) (w : SignalWindow F)
    (policy : pr.Policy) where
  -- The wedge is the one of the device's own sample and spec.
  abbrev pub IsPriced : String × pr.Wedge → Type 0
  IsPriced entry =
      pr.device_cost_wedge (sample_or_zero (lookup entry.0 w.samples))
        (spec_or_zero (lookup entry.0 w.specs)) policy
      ≡ ok entry.1

  abbrev Priced : List String → Result (List (String × pr.Wedge)) → Type 0
  Priced us (err e) = Unit
  Priced us (ok wedges) = (keys wedges ≡ us) × All IsPriced wedges

  wedges_of-Priced : (us : List String) → Priced us (wedges_of pr w.samples w.specs policy us)
  unfolding wedges_of keys
  wedges_of-Priced [] = (refl, tt)
  wedges_of-Priced (u ∷ us) = add _ _ refl (wedges_of-Priced us)
    where
      add :
          (r : Result pr.Wedge) (rest : Result (List (String × pr.Wedge)))
          → pr.device_cost_wedge
              (sample_or_zero (lookup u w.samples))
              (spec_or_zero (lookup u w.specs))
              policy
            ≡ r
          → Priced us rest
          → Priced (u ∷ us) (add_wedge pr u r rest)
      add (err e) rest h k = tt
      add (ok wedge) (err e) h k = tt
      add (ok wedge) (ok rest) h (k, all) = (ap (λ t. u ∷ t) k, (h, all))

  -- What a report has: its wedges by device, and the impacts of the jobs on these devices.
  pub IsReport : CostReport pr → Type 0
  IsReport rep =
      (wedges : List (String × pr.Wedge)) × (keys wedges ≡ sort_strings (keys w.samples))
      × All IsPriced wedges
      × (rep.devices ≡ values pr wedges)
      × AreImpacts pr w.specs wedges policy w.jobs rep.jobs

  abbrev Reported : Result (CostReport pr) → Type 0
  Reported (err e) = Unit
  Reported (ok rep) = IsReport rep

  -- A cost report lists exactly one wedge for each device that has a sample, in the order of the
  -- UUIDs, each computed from this device's own sample and spec (a missing spec counts as zero). Its
  -- job impacts are, in the order of the jobs, one for each job that has a device with a wedge and
  -- none for any other job; an impact is priced by the efficiencies of the wedges of exactly those of
  -- the job's devices that have one, in order, and by the specs of exactly these devices.
  pub cost_wedge-IsReport : {rep : CostReport pr} → cost_wedge pr w policy ≡ ok rep → IsReport rep
  unfolding cost_wedge IsReport
  cost_wedge-IsReport e =
      subst Reported e (reported (wedges_of pr w.samples w.specs policy us) (wedges_of-Priced us))
    where
      us : List String
      us = sort_strings (keys w.samples)

      reported :
          (r : Result (List (String × pr.Wedge))) → Priced us r → Reported (report pr w policy r)
      reported (err x) h = tt
      reported (ok wedges) (k, all) =
          (wedges, k, all, refl, job_impacts-AreImpacts pr w.specs wedges policy w.jobs)
