-- ===== src/Normalize/Trace.antt =====
-- What it means that a timeline entry is traced to a report, and the four parts of `faultTimeline`.
use gpufleet_agent.Prelude.{
  String, ◌≡◌, refl, Bool-cases, Option, none, some, List, [], ◌∷◌, ◌⊎◌, inl, inr, arith, All,
  All-append,
}
use gpufleet_agent.Prelude.Strings.{◌<>◌}
use gpufleet_agent.Wire.{
  Time, dcgm, dmesg_xid, nccl, prometheus, TimelineEntry, XidEvent, NcclEvent, op_timeout,
}
use gpufleet_agent.Observation.{Observation}
use gpufleet_agent.Timeline.{
  xid_leg, nccl_scope_token, is_timeout, EccDbeDevice, ts_or, entry_of_leg, xid_entries,
  nccl_entries, ecc_entries, link_entries,
}
use gpufleet_agent.Gather.{ecc_observed, link_observed}
use gpufleet_agent.Normalize.Grounded.{HasSource, XidFrom, NcclFrom, CounterFrom, InjectedFrom}

module _ {F : Type 0} where
  -- Where an entry of the timeline comes from: a marker without an identity, one of the four derived
  -- legs with the reported fact, or an entry that a collector formed itself.
  pub data IsTraced (obs : List (Observation F)) (e : TimelineEntry) : Type 0 where
    marker : HasSource obs e.source → e.signal_id ≡ "" → IsTraced obs e
    xid :
        (x : XidEvent)
        → e.source ≡ dmesg_xid
        → XidFrom obs (some x)
        → xid_leg x ≡ some (e.signal_id, e.label)
        → IsTraced obs e
    timeout :
        (x : NcclEvent)
        → e.source ≡ nccl
        → NcclFrom obs (some x)
        → x.kind ≡ op_timeout
        → e.signal_id ≡ "nccl.timeout." <> nccl_scope_token x
        → IsTraced obs e
    ecc_counter :
        (u : String)
        → (e.source ≡ dcgm) ⊎ (e.source ≡ prometheus)
        → CounterFrom obs ecc_observed e.source u
        → e.signal_id ≡ "ecc.dbe." <> u
        → IsTraced obs e
    link_counter :
        (u : String)
        → e.source ≡ dcgm
        → CounterFrom obs link_observed dcgm u
        → e.signal_id ≡ "link.error." <> u
        → IsTraced obs e
    formed : InjectedFrom obs e → IsTraced obs e

module _ {F : Type 0} (obs : List (Observation F)) where
  pub xid_entries-IsTraced :
      (now : Time) (xs : List (Option XidEvent))
      → All (XidFrom obs) xs
      → All (IsTraced obs) (xid_entries now xs)
  unfolding xid_entries
  xid_entries-IsTraced now [] h = tt
  xid_entries-IsTraced now (none ∷ xs) (_, h) = xid_entries-IsTraced now xs h
  xid_entries-IsTraced now (some x ∷ xs) (p, h) =
      All-append _ (entry_of_leg (ts_or x.ts now) dmesg_xid (xid_leg x)) _ (leg (xid_leg x) refl)
        (xid_entries-IsTraced now xs h)
    where
      leg :
          (l : Option (String × String))
          → xid_leg x ≡ l
          → All (IsTraced obs) (entry_of_leg (ts_or x.ts now) dmesg_xid l)
      leg none e = tt
      leg (some (id, label)) e = (xid x refl p e, tt)

  pub nccl_entries-IsTraced :
      (now : Time) (xs : List (Option NcclEvent))
      → All (NcclFrom obs) xs
      → All (IsTraced obs) (nccl_entries now xs)
  unfolding nccl_entries
  nccl_entries-IsTraced now [] h = tt
  nccl_entries-IsTraced now (none ∷ xs) (_, h) = nccl_entries-IsTraced now xs h
  nccl_entries-IsTraced now (some x ∷ xs) (p, h) =
      let rest = nccl_entries-IsTraced now xs h in
      elim (Bool-cases (is_timeout x.kind)) [
        | inl late ↦ rw late (timeout x refl p (ground arith) refl, rest)
        | inr other ↦ rw other rest
      ]

  -- A leg's device and source, with the report that it rests on.
  abbrev pub EccFrom : EccDbeDevice → Type 0
  EccFrom d =
      ((d.source ≡ dcgm) ⊎ (d.source ≡ prometheus)) × CounterFrom obs ecc_observed d.source d.uuid

  pub ecc_entries-IsTraced :
      (now : Time) (ds : List EccDbeDevice)
      → All EccFrom ds
      → All (IsTraced obs) (ecc_entries now ds)
  unfolding ecc_entries
  ecc_entries-IsTraced now [] h = tt
  ecc_entries-IsTraced now (d ∷ ds) ((s, p), h) =
      (ecc_counter d.uuid s p refl, ecc_entries-IsTraced now ds h)

  pub link_entries-IsTraced :
      (now : Time) (us : List String)
      → All (CounterFrom obs link_observed dcgm) us
      → All (IsTraced obs) (link_entries now us)
  unfolding link_entries
  link_entries-IsTraced now [] h = tt
  link_entries-IsTraced now (u ∷ us) (p, h) =
      (link_counter u refl p refl, link_entries-IsTraced now us h)
