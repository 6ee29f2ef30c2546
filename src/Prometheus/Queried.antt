-- ===== src/Prometheus/Queried.antt =====
-- collectors_prometheus.go, `Collect`: what is known of a device was asked for.
use gpufleet_agent.Prelude.{
  String, ◌≡◌, ◌≢◌, ◌≤◌, refl, inl, inr, true, false, ◌==◌, eq_iff, Option, none, some, List, [],
  ◌∷◌, All, Each, ◌⊎◌, if◌then◌else◌, lookup, arith, Bool-cases,
}
use gpufleet_agent.Float.{Float64}
use gpufleet_agent.Observation.{DeviceWindow, blank_window}
use gpufleet_agent.Dcgm.Exposition.Devices.{placed, label_of}
use gpufleet_agent.Dcgm.Exposition.Attributed.{All-insert, lookup-All}
use gpufleet_agent.Prometheus.{PromQueries, PromLabels, PromVectorSample}
use gpufleet_agent.Prometheus.Samples.{
  PromDevAccum, ident, scalar, accum_or, accum_for, applied, apply_samples, owned, apply_owners,
}

module _ {F : Type 0} ⦃fl : Float64 F⦄ (Told : String → String → F → Type 0) (ws : F)
    (q : PromQueries) where
  -- A device has a name and lasts the window. Each number that is known of it is what the answer to
  -- the configured query told of this device: the value itself, its product with the window's length,
  -- or its conversion to a count, which is then not zero. Link errors are not known.
  pub record IsRead (uuid : String) (dw : DeviceWindow F) : Type 0 where
    pub named : (uuid ≢ "") × (dw.uuid ≡ uuid) × (dw.window_seconds ≡ ws)
    pub peak :
        dw.peak_flops_known ≡ true → (q.peak_flops ≢ "") × Told q.peak_flops uuid dw.peak_flops
    pub cost :
        dw.cost_known ≡ true → (q.cost_per_hour ≢ "") × Told q.cost_per_hour uuid dw.cost_per_hour
    pub achieved :
        dw.achieved_flops_known ≡ true
        → (q.achieved_flops ≢ "")
          × (v : F) × Told q.achieved_flops uuid v
          × (dw.achieved_flops ≡ fl.mul v ws)
    pub tensor :
        dw.tensor_active_known ≡ true
        → (q.tensor_active ≢ "")
          × (v : F) × Told q.tensor_active uuid v
          × (dw.tensor_active_secs ≡ fl.mul v ws)
    pub ecc :
        dw.ecc_double_bit_known ≡ true
        → (q.ecc_double_bit ≢ "")
          × (v : F) × Told q.ecc_double_bit uuid v
          × (dw.ecc_double_bit_errs ≡ fl.round v)
          × (1 ≤ dw.ecc_double_bit_errs)
    pub link : dw.link_errors_known ≡ false

  -- So is an accumulator, and a job that it has seen is named by a query.
  pub record IsOwned (uuid : String) (a : PromDevAccum F) : Type 0 where
    pub read : IsRead uuid a.dw
    pub job : a.job_seen ≡ true → (q.job_owner ≢ "") × (a.job ≢ "")

  abbrev pub AreOwned : List (String × PromDevAccum F) → Type 0
  AreOwned devs = All (λ entry. IsOwned entry.0 entry.1) devs

  placed-IsRead :
      (uuid node model : String) (dw : DeviceWindow F)
      → IsRead uuid dw
      → IsRead uuid (placed node model dw)
  placed-IsRead uuid node model dw h = record {
    named = h.named;
    peak = h.peak;
    cost = h.cost;
    achieved = h.achieved;
    tensor = h.tensor;
    ecc = h.ecc;
    link = h.link;
  }

  accum_or-IsOwned :
      (uuid : String) (o : Option (PromDevAccum F))
      → uuid ≢ ""
      → Each (IsOwned uuid) o
      → IsOwned uuid (accum_or ws uuid o)
  unfolding blank_window
  accum_or-IsOwned uuid (some a) ne h = h
  accum_or-IsOwned uuid none ne h = record {
    read = record {
      named = (ne, refl, refl);
      peak = λ e. ground arith;
      cost = λ e. ground arith;
      achieved = λ e. ground arith;
      tensor = λ e. ground arith;
      ecc = λ e. ground arith;
      link = refl;
    };
    job = λ e. ground arith;
  }

  accum_for-IsOwned :
      (id : String × String × String) (devs : List (String × PromDevAccum F))
      → id.0 ≢ ""
      → AreOwned devs
      → IsOwned id.0 (accum_for ws id devs)
  unfolding accum_for
  accum_for-IsOwned (uuid, node, model) devs ne h =
      let a = accum_or-IsOwned uuid (lookup uuid devs) ne (lookup-All _ uuid devs h) in
      record { read = placed-IsRead uuid node model _ a.read; job = a.job }

  -- A setter that keeps device windows as they should be, for what a query told.
  abbrev pub Sets : String → (F → DeviceWindow F → DeviceWindow F) → Type 0
  Sets expr apply =
      (v : F) (uuid : String) (dw : DeviceWindow F)
      → Told expr uuid v
      → IsRead uuid dw
      → IsRead uuid (apply v dw)

  applied-AreOwned :
      (expr : String) (apply : F → DeviceWindow F → DeviceWindow F) (id : String × String × String)
      (o : Option F) (devs : List (String × PromDevAccum F))
      → Sets expr apply
      → Each (Told expr id.0) o
      → AreOwned devs
      → AreOwned (applied ws apply id o devs)
  applied-AreOwned expr apply id none devs sets told h = h
  applied-AreOwned expr apply id (some v) devs sets told h = elim (Bool-cases (id.0 == "")) [
    | inl e ↦ rw e h
    | inr e ↦
        let a = accum_for-IsOwned id devs (λ z. cc ((eq_iff id.0 "").1 z, e)) h in
        rw e (All-insert _ id.0 _ devs (record { read = sets v id.0 _ told a.read; job = a.job }) h)
  ]

  -- What the samples of an answer tell of their devices.
  abbrev pub AreTold : PromLabels → String → String → List PromVectorSample → Type 0
  AreTold labels node expr ss =
      All (λ s. Each (Told expr (ident labels node s.metric).0) (scalar s.value)) ss

  pub apply_samples-AreOwned :
      (labels : PromLabels) (node expr : String) (apply : F → DeviceWindow F → DeviceWindow F)
      → Sets expr apply
      → (ss : List PromVectorSample) (devs : List (String × PromDevAccum F))
      → AreTold labels node expr ss
      → AreOwned devs
      → AreOwned (apply_samples ws labels node apply ss devs)
  unfolding apply_samples
  apply_samples-AreOwned labels node expr apply sets [] devs told h = h
  apply_samples-AreOwned labels node expr apply sets (s ∷ ss) devs (t, told) h =
      apply_samples-AreOwned labels node expr apply sets ss _ told
        (applied-AreOwned expr apply (ident labels node s.metric) (scalar s.value) devs sets t h)

  owned-AreOwned :
      (id : String × String × String) (name : String) (devs : List (String × PromDevAccum F))
      → q.job_owner ≢ ""
      → AreOwned devs
      → AreOwned (owned ws id name devs)
  owned-AreOwned id name devs asked h = elim (Bool-cases (id.0 == "")) [
    | inl e ↦ rw e h
    | inr e ↦
        let a = accum_for-IsOwned id devs (λ z. cc ((eq_iff id.0 "").1 z, e)) h in
        rw e (All-insert _ id.0 _ devs (given _ a (Bool-cases (name == ""))) h)
  ]
    where
      given :
          (a : PromDevAccum F)
          → IsOwned id.0 a
          → ((name == "") ≡ true) ⊎ ((name == "") ≡ false)
          → IsOwned id.0 (if name == "" then a else record a { job = name; job_seen = true })
      given a k (inl e) = rw e k
      given a k (inr e) =
          rw e (record { read = k.read; job = λ seen. (asked, λ z. cc ((eq_iff name "").1 z, e)) })

  pub apply_owners-AreOwned :
      (labels : PromLabels) (node : String)
      → q.job_owner ≢ ""
      → (ss : List PromVectorSample) (devs : List (String × PromDevAccum F)) → AreOwned devs
      → AreOwned (apply_owners ws labels node ss devs)
  unfolding apply_owners
  apply_owners-AreOwned labels node asked [] devs h = h
  apply_owners-AreOwned labels node asked (s ∷ ss) devs h =
      apply_owners-AreOwned labels node asked ss _
        (owned-AreOwned (ident labels node s.metric) (label_of labels.job s.metric) devs asked h)
