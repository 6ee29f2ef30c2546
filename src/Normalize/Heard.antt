-- ===== src/Normalize/Heard.antt =====
-- No report is lost: what a collector reports of faults stands in the timeline that `Normalize`
-- publishes.
use gpufleet_agent.Prelude.{String, ◌≡◌, ◌⊎◌, some, List, [], ◌∷◌, In}
use gpufleet_agent.Prelude.Strings.{◌<>◌, itoa}
use gpufleet_agent.Wire.{
  Time, SignalSource, dmesg_xid, nccl, TimelineEntry, XidEvent, NcclEvent, op_timeout,
}
use gpufleet_agent.Float.{Float64}
use gpufleet_agent.Observation.{Observation}
use gpufleet_agent.Timeline.{entry, source_short, xid_dev_token, ts_or, nccl_scope_token}
use gpufleet_agent.Semantics.{Semantics, Result, ok, err}
use gpufleet_agent.Gather.{claim}
use gpufleet_agent.Devices.{Devices}
use gpufleet_agent.Normalize.{SignalWindow}

module _ (now : Time) where
  abbrev marker_of : SignalSource → TimelineEntry
  marker_of s = entry (some now) s "" (source_short s <> " window")

  abbrev timeout_of : NcclEvent → TimelineEntry
  timeout_of x =
      entry (ts_or x.ts now) nccl ("nccl.timeout." <> nccl_scope_token x)
        ("NCCL collective timeout (" <> nccl_scope_token x <> ")")

-- The identity of an XID event: XID 79 is a lost device, five others are uncorrectable ECC errors.
abbrev pub Identifies : XidEvent → String → Type 0
Identifies x id =
    ((x.xid ≡ 79) × (id ≡ "dmesg.xid79." <> xid_dev_token x))
    ⊎ (In x.xid (48 ∷ 63 ∷ 64 ∷ 94 ∷ 95 ∷ [])
        × (id ≡ "dmesg.xid.ecc." <> itoa x.xid <> "." <> xid_dev_token x))

-- What a report tells of faults stands in the timeline.
pub record IsHeard {F : Type 0} (now : Time) (o : Observation F) (timeline : List TimelineEntry)
    : Type 0 where
  pub marked : In (entry (some now) o.source "" (source_short o.source <> " window")) timeline
  pub xids :
      (x : XidEvent) (id : String)
      → o.source ≡ dmesg_xid
      → In (some x) o.xid_events
      → Identifies x id
      → (label : String) × In (entry (ts_or x.ts now) dmesg_xid id label) timeline
  pub timeouts :
      (x : NcclEvent)
      → o.source ≡ nccl
      → In (some x) o.nccl_events
      → x.kind ≡ op_timeout
      → In
          (entry
            (ts_or x.ts now)
            nccl
            ("nccl.timeout." <> nccl_scope_token x)
            ("NCCL collective timeout (" <> nccl_scope_token x <> ")"))
          timeline
  pub formed :
      (te : TimelineEntry)
      → In (some te) o.timeline
      → (claim o.source te).source ≡ o.source
      → In (claim o.source te) timeline

module _ {F : Type 0} ⦃fl : Float64 F⦄ (obs : List (Observation F)) (o : Observation F) where
  abbrev Heard : Time → Result (SignalWindow F) → Type 0
  Heard now (ok w) = IsHeard now o w.pack.timeline
  Heard now (err e) = Unit
