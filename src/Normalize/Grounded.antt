-- ===== src/Normalize/Grounded.antt =====
-- Provenance of the timeline: each entry of the pack rests on a fact that a collector of the
-- entry's own source reported.
use gpufleet_agent.Prelude.{
  String, ◌≡◌, refl, sym, Bool, true, false, Bool-cases, Option, none, some, List, [], ◌∷◌, ◌++◌,
  inl, inr, if◌then◌else◌, All, All-append, All-weaken, All-In, In,
}
use gpufleet_agent.Wire.{
  SignalSource, dcgm, dmesg_xid, nccl, prometheus, source_eq, source_eq_iff, TimelineEntry,
  XidEvent, NcclEvent,
}
use gpufleet_agent.Float.{Float64}
use gpufleet_agent.Observation.{DeviceWindow, Observation}
use gpufleet_agent.Gather.{
  Gathered, contains_source, admitted, claim, seen_by, ecc_observed, link_observed, gather_one,
  gather_from,
}

module _ {F : Type 0} (obs : List (Observation F)) where
  -- An observation of the given source.
  abbrev pub Speaks : SignalSource → Observation F → Type 0
  Speaks s o = In o obs × (o.source ≡ s)

  abbrev pub HasSource : SignalSource → Type 0
  HasSource s = (o : Observation F) × Speaks s o

  abbrev pub XidFrom : Option XidEvent → Type 0
  XidFrom x = (o : Observation F) × Speaks dmesg_xid o × In x o.xid_events

  abbrev pub NcclFrom : Option NcclEvent → Type 0
  NcclFrom x = (o : Observation F) × Speaks nccl o × In x o.nccl_events

  -- A collector of source `s` reported a window of device `u` that passes `test`.
  abbrev pub CounterFrom : (DeviceWindow F → Bool) → SignalSource → String → Type 0
  CounterFrom test s u =
      (o : Observation F) × Speaks s o
      × (dw : DeviceWindow F) × In dw o.device_windows
      × (dw.uuid ≡ u)
      × (test dw ≡ true)

  abbrev pub InjectedFrom : TimelineEntry → Type 0
  InjectedFrom e =
      (o : Observation F) × Speaks e.source o
      × (te : TimelineEntry) × In (some te) o.timeline
      × (claim o.source te ≡ e)

  -- What the first loop keeps.
  pub record IsGrounded (g : Gathered F) : Type 0 where
    pub sources : All HasSource g.sources
    pub xids : All XidFrom g.xid_dmesg
    pub nccls : All NcclFrom g.nccl_real
    pub injected : All InjectedFrom g.injected
    pub ecc_dcgm : All (CounterFrom ecc_observed dcgm) g.ecc_dcgm_seen
    pub ecc_prom : All (CounterFrom ecc_observed prometheus) g.ecc_prom_seen
    pub link_dcgm : All (CounterFrom link_observed dcgm) g.link_err_dcgm_seen

  -- A list that grows under a test keeps a predicate.
  All-grow {κ} :
      {A : Type 0} (P : A → Type κ) (b : Bool) (xs ys : List A)
      → All P xs
      → (b ≡ true → All P ys)
      → All P (if b then xs ++ ys else xs)
  All-grow P true xs ys h k = All-append P xs ys h (k refl)
  All-grow P false xs ys h k = h

  admitted-InjectedFrom :
      (o : Observation F) (tes : List (Option TimelineEntry))
      → In o obs
      → All (λ te. In te o.timeline) tes
      → All InjectedFrom (admitted o.source tes)
  unfolding admitted
  admitted-InjectedFrom o [] m h = tt
  admitted-InjectedFrom o (none ∷ tes) m (_, h) = admitted-InjectedFrom o tes m h
  admitted-InjectedFrom o (some te ∷ tes) m (k, h) =
      let rest = admitted-InjectedFrom o tes m h in
      elim (Bool-cases (source_eq (claim o.source te).source o.source)) [
        | inl own ↦ rw own ((o, (m, sym ((source_eq_iff _ _).0 own)), te, k, refl), rest)
        | inr other ↦ rw other rest
      ]

  seen_by-CounterFrom :
      (test : DeviceWindow F → Bool) (s : SignalSource) (o : Observation F)
      (dws : List (DeviceWindow F)) (seen : List String)
      → Speaks s o
      → All (λ dw. In dw o.device_windows) dws
      → All (CounterFrom test s) seen
      → All (CounterFrom test s) (seen_by test dws seen)
  unfolding seen_by
  seen_by-CounterFrom test s o [] seen sp h k = k
  seen_by-CounterFrom test s o (dw ∷ dws) seen sp (m, h) k = elim (Bool-cases (test dw)) [
    | inl passed ↦
        rw passed
          (seen_by-CounterFrom test s o dws (dw.uuid ∷ seen) sp h ((o, sp, dw, m, refl, passed), k))
    | inr out ↦ rw out (seen_by-CounterFrom test s o dws seen sp h k)
  ]

  -- A set that is extended only for observations of one source.
  seen_if :
      (test : DeviceWindow F → Bool) (s : SignalSource) (o : Observation F) (seen : List String)
      → In o obs
      → All (CounterFrom test s) seen
      → All
          (CounterFrom test s)
          (if source_eq o.source s then seen_by test o.device_windows seen else seen)
  seen_if test s o seen m h = elim (Bool-cases (source_eq o.source s)) [
    | inl own ↦ rw own (
        seen_by-CounterFrom test s o o.device_windows seen (m, (source_eq_iff _ _).0 own)
          (All-In o.device_windows) h)
    | inr other ↦ rw other h
  ]

module _ {F : Type 0} ⦃fl : Float64 F⦄ (obs : List (Observation F)) where
  gather_one-IsGrounded :
      (g : Gathered F) (o : Observation F)
      → In o obs
      → IsGrounded obs g
      → IsGrounded obs (gather_one g o)
  unfolding gather_one
  gather_one-IsGrounded g o m h = record {
    sources = elim (Bool-cases (contains_source o.source g.sources)) [
      | inl old ↦ rw old h.sources
      | inr new ↦ rw new (All-append _ g.sources _ h.sources ((o, (m, refl)), tt))
    ];
    xids = All-grow obs (XidFrom obs) _ g.xid_dmesg o.xid_events h.xids (λ own.
        All-weaken _ _ _ (λ x k. (o, (m, (source_eq_iff _ _).0 own), k)) (All-In o.xid_events));
    nccls = All-grow obs (NcclFrom obs) _ g.nccl_real o.nccl_events h.nccls (λ own.
        All-weaken _ _ _ (λ x k. (o, (m, (source_eq_iff _ _).0 own), k)) (All-In o.nccl_events));
    injected =
        All-append _ g.injected _ h.injected
          (admitted-InjectedFrom obs o o.timeline m (All-In o.timeline));
    ecc_dcgm = seen_if obs ecc_observed dcgm o g.ecc_dcgm_seen m h.ecc_dcgm;
    ecc_prom = seen_if obs ecc_observed prometheus o g.ecc_prom_seen m h.ecc_prom;
    link_dcgm = seen_if obs link_observed dcgm o g.link_err_dcgm_seen m h.link_dcgm;
  }

  pub gather_from-IsGrounded :
      (g : Gathered F) (os : List (Observation F))
      → All (λ o. In o obs) os
      → IsGrounded obs g
      → IsGrounded obs (gather_from g os)
  unfolding gather_from
  gather_from-IsGrounded g [] m h = h
  gather_from-IsGrounded g (o ∷ os) (m, ms) h =
      gather_from-IsGrounded (gather_one g o) os ms (gather_one-IsGrounded g o m h)
