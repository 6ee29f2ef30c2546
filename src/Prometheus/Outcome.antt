-- ===== src/Prometheus/Outcome.antt =====
-- collectors_prometheus.go, `Collect`: the readings of all its queries, and what it answers.
use gpufleet_agent.Prelude.{
  String, ◌≡◌, ◌≢◌, refl, sym, ◌∙◌, inl, inr, false, ◌==◌, eq_iff, Option, none, some, List, [],
  ◌∷◌, All, All-weaken, All-In, In, Each_of, keys, arith, Bool-cases, nat_eq, length, leb,
}
use gpufleet_agent.Prelude.Sort.{sort_strings}
use gpufleet_agent.Float.{Float64}
use gpufleet_agent.Wire.{Time, Duration, prometheus, DeviceJobMapping}
use gpufleet_agent.Observation.{DeviceWindow, Observation, Collected, observed, failed}
use gpufleet_agent.Semantics.{Result, ok, err}
use gpufleet_agent.Dcgm.Exposition.Devices.{in_order}
use gpufleet_agent.Dcgm.Exposition.Attributed.{in_order-All}
use gpufleet_agent.Prometheus.{
  PromQueries, PrometheusCollector, PromHttp, PromVectorSample, with_defaults, query,
}
use gpufleet_agent.Prometheus.Collect.{
  mappings_of, windows_of, failed_or, prom_finish, taken, run_query, read_all, prom_collect,
}
use gpufleet_agent.Prometheus.Samples.{
  PromDevAccum, Reading, apply_samples, set_peak, set_cost, set_achieved, set_tensor, set_ecc,
  ident, scalar,
}
use gpufleet_agent.Prometheus.Queried.{
  IsRead, IsOwned, AreOwned, Sets, AreTold, apply_samples-AreOwned, apply_owners-AreOwned,
}

-- An answer to the query `expr` gives the value `v` for the device `uuid`.
abbrev pub IsTold :
    {F W : Type 0} ⦃fl : Float64 F⦄
    → PromHttp W
    → PrometheusCollector W
    → Time
    → String
    → String
    → F
    → Type 0
IsTold {F} {W} net c now expr uuid v =
    (w : W) × (ss : List PromVectorSample) × ((query net c expr now w).0 ≡ ok ss)
    × (s : PromVectorSample) × In s ss
    × ((ident (with_defaults c.labels) c.node s.metric).0 ≡ uuid)
    × (scalar s.value ≡ some v)

module _ {F : Type 0} ⦃fl : Float64 F⦄ (Told : String → String → F → Type 0) (ws : F)
    (q : PromQueries) where
  set_peak-Sets : q.peak_flops ≢ "" → Sets Told ws q q.peak_flops set_peak
  set_peak-Sets asked v uuid dw told h = record {
    named = h.named;
    peak = λ e. (asked, told);
    cost = h.cost;
    achieved = h.achieved;
    tensor = h.tensor;
    ecc = h.ecc;
    link = h.link;
  }

  set_cost-Sets : q.cost_per_hour ≢ "" → Sets Told ws q q.cost_per_hour set_cost
  set_cost-Sets asked v uuid dw told h = record {
    named = h.named;
    peak = h.peak;
    cost = λ e. (asked, told);
    achieved = h.achieved;
    tensor = h.tensor;
    ecc = h.ecc;
    link = h.link;
  }

  set_achieved-Sets : q.achieved_flops ≢ "" → Sets Told ws q q.achieved_flops (set_achieved ws)
  set_achieved-Sets asked v uuid dw told h = record {
    named = h.named;
    peak = h.peak;
    cost = h.cost;
    achieved = λ e. (asked, v, told, refl);
    tensor = h.tensor;
    ecc = h.ecc;
    link = h.link;
  }

  set_tensor-Sets : q.tensor_active ≢ "" → Sets Told ws q q.tensor_active (set_tensor ws)
  set_tensor-Sets asked v uuid dw told h = record {
    named = h.named;
    peak = h.peak;
    cost = h.cost;
    achieved = h.achieved;
    tensor = λ e. (asked, v, told, refl);
    ecc = h.ecc;
    link = h.link;
  }

  set_ecc-Sets : q.ecc_double_bit ≢ "" → Sets Told ws q q.ecc_double_bit set_ecc
  set_ecc-Sets asked v uuid dw told h = elim (Bool-cases (leb 1 (fl.round v))) [
    | inl e ↦ rw e (record {
      named = h.named;
      peak = h.peak;
      cost = h.cost;
      achieved = h.achieved;
      tensor = h.tensor;
      ecc = λ known. (asked, v, told, refl, ground arith);
      link = h.link;
    })
    | inr e ↦ rw e h
  ]

module _ {F W : Type 0} ⦃fl : Float64 F⦄ (net : PromHttp W) (Told : String → String → F → Type 0)
    (ws : F) (q : PromQueries) where
  taken-AreOwned :
      (apply : List PromVectorSample
        → List (String × PromDevAccum F)
        → List (String × PromDevAccum F))
      (answer : Result (List PromVectorSample) × W) (r : Reading F)
      → ((ss : List PromVectorSample) (devs : List (String × PromDevAccum F))
          → answer.0 ≡ ok ss
          → AreOwned Told ws q devs
          → AreOwned Told ws q (apply ss devs))
      → AreOwned Told ws q r.devs
      → AreOwned Told ws q (taken net apply answer r).0.devs
  taken-AreOwned apply (err e, w) r keeps h = h
  taken-AreOwned apply (ok ss, w) r keeps h = keeps ss r.devs refl h

  run_query-AreOwned :
      (c : PrometheusCollector W) (now : Time) (expr : String)
      (apply : List PromVectorSample
        → List (String × PromDevAccum F)
        → List (String × PromDevAccum F))
      (r : Reading F × W)
      → (expr ≢ ""
          → (w : W) (ss : List PromVectorSample) (devs : List (String × PromDevAccum F))
          → (query net c expr now w).0 ≡ ok ss
          → AreOwned Told ws q devs
          → AreOwned Told ws q (apply ss devs))
      → AreOwned Told ws q r.0.devs
      → AreOwned Told ws q (run_query net c now expr apply r).0.devs
  unfolding run_query
  run_query-AreOwned c now expr apply (r, w) keeps h = elim (Bool-cases (expr == "")) [
    | inl e ↦ rw e h
    | inr e ↦ rw e (
        taken-AreOwned apply (query net c expr now w) r
          (keeps (λ z. cc ((eq_iff expr "").1 z, e)) w) h)
  ]

module _ {F W : Type 0} ⦃fl : Float64 F⦄ (net : PromHttp W) (c : PrometheusCollector W)
    (now : Time) where
  answer-AreTold :
      (ws : F) (expr : String) (w : W) (ss : List PromVectorSample)
      → (query net c expr now w).0 ≡ ok ss
      → AreTold (IsTold net c now) ws c.queries (with_defaults c.labels) c.node expr ss
  answer-AreTold ws expr w ss e =
      All-weaken _ _ ss
        (λ s at. Each_of _ (scalar s.value) (λ v known. (w, ss, e, s, at, refl, known))) (All-In ss)

  asked-AreOwned :
      (ws : F) (expr : String) (apply : F → DeviceWindow F → DeviceWindow F) (r : Reading F × W)
      → (expr ≢ "" → Sets (IsTold net c now) ws c.queries expr apply)
      → AreOwned (IsTold net c now) ws c.queries r.0.devs
      → AreOwned
          (IsTold net c now)
          ws
          c.queries
          (run_query net c now expr
            (apply_samples ws (with_defaults c.labels) c.node apply)
            r).0.devs
  asked-AreOwned ws expr apply r sets h =
      run_query-AreOwned net _ ws c.queries c now expr _ r
        (λ asked w ss devs e.
          apply_samples-AreOwned _ ws c.queries _ c.node expr apply (sets asked) ss devs
            (answer-AreTold ws expr w ss e))
        h

  read_all-AreOwned :
      (ws : F) (w : W) → AreOwned (IsTold net c now) ws c.queries (read_all net c now ws w).0.devs
  unfolding read_all
  read_all-AreOwned ws w =
      let q = c.queries in
      run_query-AreOwned net _ ws q c now _ _ _
        (λ asked w ss devs e. apply_owners-AreOwned _ ws q _ c.node asked ss devs)
        (asked-AreOwned ws _ _ _ (set_ecc-Sets _ ws q) (
          asked-AreOwned ws _ _ _ (set_tensor-Sets _ ws q) (
            asked-AreOwned ws _ _ _ (set_achieved-Sets _ ws q) (
              asked-AreOwned ws _ _ _ (set_cost-Sets _ ws q)
                (asked-AreOwned ws _ _ _ (set_peak-Sets _ ws q) tt)))))

module _ {F : Type 0} ⦃fl : Float64 F⦄ (Told : String → String → F → Type 0) (ws : F)
    (q : PromQueries) where
  abbrev Named : DeviceJobMapping F → Type 0
  Named m = (q.job_owner ≢ "") × (m.device_uuid ≢ "") × (m.job_id ≢ "")

  -- What a reading of Prometheus answers. An error is not one of the burst cap.
  abbrev pub IsQueried : Collected F → Type 0
  IsQueried (failed e) = e.is_capped ≡ false
  IsQueried (observed o) =
      (o.source ≡ prometheus)
      × All (λ dw. (uuid : String) × IsRead Told ws q uuid dw) o.device_windows
      × All Named o.mappings

  windows_of-All :
      (accums : List (PromDevAccum F))
      → All (λ a. (uuid : String) × IsOwned Told ws q uuid a) accums
      → All (λ dw. (uuid : String) × IsRead Told ws q uuid dw) (windows_of accums)
  windows_of-All [] h = tt
  windows_of-All (a ∷ accums) ((uuid, k), h) = ((uuid, k.read), windows_of-All accums h)

  mappings_of-All :
      (accums : List (PromDevAccum F))
      → All (λ a. (uuid : String) × IsOwned Told ws q uuid a) accums
      → All Named (mappings_of accums)
  mappings_of-All [] h = tt
  mappings_of-All (a ∷ accums) ((uuid, k), h) = elim (Bool-cases a.job_seen) [
    | inl e ↦
        let (asked, some_job) = k.job e in
        rw e (
          (asked, λ z. k.read.named.0 (sym k.read.named.1 ∙ z), some_job),
          mappings_of-All accums h,
        )
    | inr e ↦ rw e (mappings_of-All accums h)
  ]

  failed_or-IsQueried :
      (first : Option String) (o : Observation F)
      → IsQueried (observed o)
      → IsQueried (failed_or first o)
  failed_or-IsQueried none o h = h
  failed_or-IsQueried (some e) o h = elim (Bool-cases (nat_eq (length o.device_windows) 0)) [
    | inl z ↦ rw z refl
    | inr z ↦ rw z h
  ]

  prom_finish-IsQueried :
      (base_url node : String) (r : Reading F)
      → AreOwned Told ws q r.devs
      → IsQueried (prom_finish base_url node r)
  unfolding prom_finish
  prom_finish-IsQueried base_url node r h =
      let ks = sort_strings (keys r.devs) in
      let owned = in_order-All _ r.devs ks h in
      let accums = in_order r.devs ks in
      failed_or-IsQueried r.first_err _
        (refl, windows_of-All accums owned, mappings_of-All accums owned)

module _ (F : Type 0) {W : Type 0} ⦃fl : Float64 F⦄ where
  pub prom_collect-IsQueried :
      (net : PromHttp W) (c : PrometheusCollector W) (now : Time) (window : Duration) (w : W)
      → IsQueried
          (IsTold net c now)
          (fl.seconds window)
          c.queries
          (prom_collect {F = F} net c now window w).0
  unfolding prom_collect
  prom_collect-IsQueried net c now window w =
      let owned = read_all-AreOwned net c now (fl.seconds window) w in
      let ends =
        prom_finish-IsQueried (IsTold net c now) (fl.seconds window) c.queries c.base_url c.node _
          owned in
      elim (Bool-cases (c.base_url == "")) [ inl e ↦ rw e refl | inr e ↦ rw e ends ]
