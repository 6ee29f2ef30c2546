-- ===== src/Normalize/Legs.antt =====
-- Each timeline entry that `Normalize` publishes, traced to what a collector reported.
use mathlib.Core.Path.{subst}
use gpufleet_agent.Prelude.{
  ℕ, String, ◌≡◌, refl, Bool, true, false, Bool-cases, List, [], ◌∷◌, inl, inr, ◌==◌, eq_iff, arith,
  ◌&&◌, All, All-append, All-weaken, All-In, ltb,
}
use gpufleet_agent.Wire.{Time, Duration, SignalSource, dcgm}
use gpufleet_agent.Float.{Float64}
use gpufleet_agent.Observation.{DeviceWindow, Observation}
use gpufleet_agent.Timeline.{xid_entries, nccl_entries, ecc_entries, fault_timeline}
use gpufleet_agent.Semantics.{Semantics, JobDevices, Result, ok, err}
use gpufleet_agent.Gather.{
  Gathered, contains, ecc_observed, link_observed, gather_from, nothing_gathered,
}
use gpufleet_agent.Devices.{when, ecc_leg, link_leg, merged_at, device_loop}
use gpufleet_agent.Normalize.{
  SignalWindow, insert_source, sort_sources, source_markers, normalize_timeline, window_of,
  uuids_of, finish_window, normalize,
}
use gpufleet_agent.Normalize.Trace.{
  IsTraced, marker, formed, EccFrom, xid_entries-IsTraced, nccl_entries-IsTraced,
  ecc_entries-IsTraced, link_entries-IsTraced,
}
use gpufleet_agent.Normalize.Grounded.{HasSource, CounterFrom, IsGrounded, gather_from-IsGrounded}

module _ {F : Type 0} (obs : List (Observation F)) where
  contains-All :
      (P : String → Type 0) (u : String) (us : List String) → All P us → contains u us ≡ true → P u
  contains-All P u [] h e = cc
  contains-All P u (t ∷ us) (p, h) e = elim (Bool-cases (t == u)) [
    | inl same ↦ subst P ((eq_iff t u).0 same) p
    | inr other ↦ contains-All P u us h (ground arith)
  ]

  All-when {κ} :
      {A : Type 0} (P : A → Type κ) (b : Bool) (a : A) → (b ≡ true → P a) → All P (when b a)
  All-when P true a f = (f refl, tt)
  All-when P false a f = tt

  ecc_leg-EccFrom :
      (g : Gathered F) (u : String) (dw : DeviceWindow F)
      → IsGrounded obs g
      → All (EccFrom obs) (ecc_leg g u dw)
  unfolding ecc_leg
  ecc_leg-EccFrom g u dw h = elim (Bool-cases (ecc_observed dw && contains u g.ecc_dcgm_seen)) [
    | inl seen ↦
        rw seen ((inl refl, contains-All _ u g.ecc_dcgm_seen h.ecc_dcgm (ground arith)), tt)
    | inr none_seen ↦ rw none_seen (
        All-when _ _ _
          (λ both. (inr refl, contains-All _ u g.ecc_prom_seen h.ecc_prom (ground arith))))
  ]

  link_leg-CounterFrom :
      (g : Gathered F) (u : String) (dw : DeviceWindow F)
      → IsGrounded obs g
      → All (CounterFrom obs link_observed dcgm) (link_leg g u dw)
  unfolding link_leg
  link_leg-CounterFrom g u dw h =
      All-when _ _ _ (λ both. contains-All _ u g.link_err_dcgm_seen h.link_dcgm (ground arith))

module _ {κ} (P : SignalSource → Type κ) (number : SignalSource → ℕ) where
  All-insert_source :
      (s : SignalSource) (ss : List SignalSource)
      → P s
      → All P ss
      → All P (insert_source number s ss)
  unfolding insert_source
  All-insert_source s [] p h = (p, tt)
  All-insert_source s (t ∷ ts) p (q, h) = elim (Bool-cases (ltb (number t) (number s))) [
    | inl above ↦ rw above (q, All-insert_source s ts p h)
    | inr below ↦ rw below (p, (q, h))
  ]

  All-sort_sources : (ss : List SignalSource) → All P ss → All P (sort_sources number ss)
  unfolding sort_sources
  All-sort_sources [] h = tt
  All-sort_sources (s ∷ ss) (p, h) = All-insert_source s _ p (All-sort_sources ss h)

module _ {F : Type 0} ⦃fl : Float64 F⦄ (obs : List (Observation F)) where
  device_loop-traced :
      (g : Gathered F) (us : List String)
      → IsGrounded obs g
      → All (EccFrom obs) (device_loop g us).ecc_dbe_devices
        × All (CounterFrom obs link_observed dcgm) (device_loop g us).link_err_devices
  unfolding device_loop
  device_loop-traced g [] h = (tt, tt)
  device_loop-traced g (u ∷ us) h =
      let (eccs, links) = device_loop-traced g us h in
      let dw : DeviceWindow F = merged_at g u in
      (
        All-append _ (ecc_leg g u dw) _ (ecc_leg-EccFrom obs g u dw h) eccs,
        All-append _ (link_leg g u dw) _ (link_leg-CounterFrom obs g u dw h) links,
      )

  source_markers-IsTraced :
      (now : Time) (ss : List SignalSource)
      → All (HasSource obs) ss
      → All (IsTraced obs) (source_markers now ss)
  unfolding source_markers
  source_markers-IsTraced now [] h = tt
  source_markers-IsTraced now (s ∷ ss) (p, h) = (marker p refl, source_markers-IsTraced now ss h)

  normalize_timeline-IsTraced :
      (number : SignalSource → ℕ) (now : Time) (g : Gathered F) (us : List String)
      → IsGrounded obs g
      → All (IsTraced obs) (normalize_timeline number now g (device_loop g us))
  unfolding normalize_timeline fault_timeline
  normalize_timeline-IsTraced number now g us h =
      let (eccs, links) = device_loop-traced g us h in
      All-append _ (source_markers now (sort_sources number g.sources)) _
        (source_markers-IsTraced now _ (All-sort_sources _ number g.sources h.sources))
        (All-append _ (fault_timeline g.xid_dmesg g.nccl_real _ _ now) _
          (All-append _ (xid_entries now g.xid_dmesg) _ (xid_entries-IsTraced obs now _ h.xids) (
            All-append _ (nccl_entries now g.nccl_real) _ (nccl_entries-IsTraced obs now _ h.nccls)
              (All-append _ (ecc_entries now _) _ (ecc_entries-IsTraced obs now _ eccs)
                (link_entries-IsTraced obs now _ links))))
          (All-weaken _ _ g.injected (λ e p. formed p) h.injected))

  abbrev TimelineTraced : Result (SignalWindow F) → Type 0
  TimelineTraced (ok w) = All (IsTraced obs) w.pack.timeline
  TimelineTraced (err e) = Unit

  -- Provenance integrity: each entry of a published timeline is a marker without an identity of a
  -- source that reported, or is formed by a collector of the entry's own source, or is one of the
  -- four derived legs; such a leg has the source and the identity of an XID event, an NCCL timeout
  -- or a positive counter delta that an observation of that same source carries.
  pub normalize-IsTraced :
      (sem : Semantics F) (agent_id : String) (now : Time) (window : Duration) {w : SignalWindow F}
      → normalize sem agent_id now window obs ≡ ok w
      → All (IsTraced obs) w.pack.timeline
  unfolding normalize
  normalize-IsTraced sem agent_id now window e =
      subst TimelineTraced e (traced (sem.resolve_mapping _))
    where
      g : Gathered F
      g = gather_from nothing_gathered obs

      grounded : IsGrounded obs g
      grounded = gather_from-IsGrounded obs nothing_gathered obs (All-In obs) (record {
        sources = tt;
        xids = tt;
        nccls = tt;
        injected = tt;
        ecc_dcgm = tt;
        ecc_prom = tt;
        link_dcgm = tt;
      })

      traced :
          (r : Result (List JobDevices))
          → TimelineTraced
              (finish_window (window_of sem agent_id now window g (device_loop g (uuids_of g))) r)
      traced (ok jobs) = normalize_timeline-IsTraced sem.number now g (uuids_of g) grounded
      traced (err x) = tt
