-- ===== src/Examples/Windows.antt =====
-- Witnesses: the windows that `Normalize` publishes for the test reports.
use gpufleet_agent.Prelude.{ℕ, ◌≡◌, refl, List, [], ◌∷◌, All, lookup, insert, keys, map}
use gpufleet_agent.Prelude.Int.{pos}
use gpufleet_agent.Wire.{TimelineEntry}
use gpufleet_agent.Observation.{blank_window}
use gpufleet_agent.Semantics.{Result, ok, err}
use gpufleet_agent.Merge.{merge_device_window}
use gpufleet_agent.Prelude.Sort.{sort_strings}
use gpufleet_agent.Devices.{device_loop}
use gpufleet_agent.Timeline.{fault_timeline, source_short, xid_dev_token, nccl_scope_token}
use gpufleet_agent.Gather.{nothing_gathered, gather_from, merge_into, seen_by, admitted}
use gpufleet_agent.Gather.Merged.{reports_of, merged_reports, lookup-gathered}
use gpufleet_agent.Normalize.{
  SignalWindow, normalize, window_of, normalize_timeline, sort_sources, source_markers,
}
use gpufleet_agent.Normalize.Trace.{IsTraced}
use gpufleet_agent.Normalize.Legs.{normalize-IsTraced}
use gpufleet_agent.Normalize.Honest.{IsHonest, normalize-IsHonest}
use gpufleet_agent.Examples.{toy, semantics, ecc_window, priced_window, reports}

abbrev or_blank : Result (SignalWindow ℕ) → List TimelineEntry
or_blank (ok w) = w.pack.timeline
or_blank (err e) = []

abbrev window : Result (SignalWindow ℕ)
window = normalize semantics "agent" (pos 100) (pos 60) reports

-- Two markers' sources stand behind four derived legs: an XID, an NCCL timeout and one counter.
timeline_test :
    map (λ (e : TimelineEntry). e.signal_id) (or_blank window)
    ≡ "" ∷ "" ∷ "" ∷ "" ∷ "dmesg.xid.ecc.48.0000:3b:00-0" ∷ "nccl.timeout.rank3" ∷ "ecc.dbe.GPU-1"
      ∷ []
unfolding normalize window_of normalize_timeline sort_sources source_markers fault_timeline
    gather_from device_loop lookup insert keys sort_strings toy source_short xid_dev_token
    nccl_scope_token merge_into merge_device_window blank_window seen_by admitted
timeline_test = refl

normalize-IsTraced_example : All (IsTraced reports) (or_blank window)
unfolding normalize
normalize-IsTraced_example = normalize-IsTraced reports semantics "agent" (pos 100) (pos 60) refl

normalize-IsHonest_example :
    (w : SignalWindow ℕ) × (window ≡ ok w) × IsHonest "GPU-1" (reports_of "GPU-1" reports) w
unfolding normalize
normalize-IsHonest_example =
    (_, refl, normalize-IsHonest reports "GPU-1" semantics "agent" (pos 100) (pos 60) refl)

lookup-gathered_example :
    lookup "GPU-1" (gather_from nothing_gathered reports).merged
    ≡ merged_reports "GPU-1" (ecc_window ∷ priced_window ∷ [])
lookup-gathered_example = lookup-gathered "GPU-1" reports
