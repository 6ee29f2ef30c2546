-- ===== src/Mock/Faults.antt =====
-- sources_mock.go with normalize.go: what the windows of the mock sources say of faults.
use gpufleet_agent.Prelude.{
  ap, Bool, true, false, none, some, String, ◌≡◌, refl, ◌∙◌, ◌==◌, List, [], map, ◌∷◌, ◌++◌,
  if◌then◌else◌, insert, keys,
}
use gpufleet_agent.Prelude.Sort.{sort_strings}
use gpufleet_agent.Prelude.Strings.{itoa}
use gpufleet_agent.Merge.{merge_device_window}
use gpufleet_agent.Float.{Float64}
use gpufleet_agent.Wire.{Time, Duration, SignalSource, dcgm, dmesg_xid, TimelineEntry}
use gpufleet_agent.Observation.{Observation}
use gpufleet_agent.Semantics.{Pricing, Semantics, Result, ok, err, JobDevices}
use gpufleet_agent.Gather.{gather_from, nothing_gathered, merge_into, seen_by, admitted}
use gpufleet_agent.Devices.{device_loop}
use gpufleet_agent.Timeline.{fault_timeline, xid_dev_token}
use gpufleet_agent.Normalize.{
  SignalWindow, source_markers, sort_sources, normalize_timeline, uuids_of, window_of,
  finish_window, normalize,
}
use gpufleet_agent.Runtime.{Part, as_collector}
use mathlib.Core.Path.{subst}
use gpufleet_agent.Daemon.{Host, State, Daemon}
use gpufleet_agent.Daemon.Refresh.{refresh}
use gpufleet_agent.Daemon.Provenance.{reports, refresh-IsSourced}
use gpufleet_agent.Mock.{mock_default_collectors, fault_inject_collectors}

-- The legs of a timeline: the entries that have an identity, with their source.
abbrev pub legs : List TimelineEntry → List (SignalSource × String)
legs [] = []
legs (te ∷ tes) = if te.signal_id == "" then legs tes else (te.source, te.signal_id) ∷ legs tes

-- The legs of the faults that are injected.
abbrev pub injected_legs : List (SignalSource × String)
injected_legs =
    (dmesg_xid, "dmesg.xid79.GPU-mock-0001")
    ∷ (dmesg_xid, "dmesg.xid.ecc.94.GPU-mock-0002")
    ∷ (dcgm, "ecc.dbe.GPU-mock-0002")
    ∷ (dcgm, "device.lost.dcgm.GPU-mock-0001")
    ∷ []

abbrev pub expected_legs : Bool → List (SignalSource × String)
expected_legs false = []
expected_legs true = injected_legs

legs-source_markers :
    (now : Time) (sources : List SignalSource) (rest : List TimelineEntry)
    → legs (source_markers now sources ++ rest) ≡ legs rest
unfolding source_markers
legs-source_markers now [] rest = refl
legs-source_markers now (s ∷ sources) rest = legs-source_markers now sources rest

module _ {F : Type 0} where
  -- The window, if there is one, has these legs.
  abbrev pub HasLegs : List (SignalSource × String) → Result (SignalWindow F) → Type 0
  HasLegs expected (ok w) = legs w.pack.timeline ≡ expected
  HasLegs expected (err e) = Unit

module _ {F : Type 0} ⦃fl : Float64 F⦄ where
  finished-HasLegs :
      (sem : Semantics F) (agent_id : String) (now : Time) (window : Duration)
      (obs : List (Observation F)) (expected : List (SignalSource × String))
      → (let g = gather_from nothing_gathered obs in
          let d = device_loop g (uuids_of g) in
          legs (
            fault_timeline g.xid_dmesg g.nccl_real d.ecc_dbe_devices d.link_err_devices now
            ++ g.injected))
        ≡ expected
      → HasLegs expected (normalize sem agent_id now window obs)
  unfolding normalize window_of normalize_timeline
  finished-HasLegs sem agent_id now window obs expected e = by_jobs (sem.resolve_mapping _)
    where
      by_jobs :
          (r : Result (List JobDevices))
          → HasLegs expected (
              finish_window
                (window_of sem agent_id now window (gather_from nothing_gathered obs) (
                  device_loop
                    (gather_from nothing_gathered obs)
                    (uuids_of (gather_from nothing_gathered obs))))
                r)
      by_jobs (err m) = tt
      by_jobs (ok jobs) =
          let g = gather_from nothing_gathered obs in
          legs-source_markers now (sort_sources sem.number g.sources) (
            fault_timeline g.xid_dmesg g.nccl_real (device_loop g (uuids_of g)).ecc_dbe_devices
              (device_loop g (uuids_of g)).link_err_devices now
            ++ g.injected)
          ∙ e

module _ {F W : Type 0} ⦃fl : Float64 F⦄ where
  -- The mock sources of a build: by default, or with the injected faults.
  abbrev pub mocks : Bool → Time → String → List (Part F W)
  mocks false at node = mock_default_collectors node
  mocks true at node = fault_inject_collectors at node

  mocks-HasLegs :
      (faulty : Bool) (sem : Semantics F) (agent_id node : String) (at now : Time)
      (window : Duration) (w : W)
      → HasLegs (expected_legs faulty) (
          normalize sem agent_id now window
            (reports (map as_collector (mocks faulty at node)) now window w))
  unfolding mock_default_collectors fault_inject_collectors gather_from device_loop fault_timeline
      sort_strings keys merge_into insert merge_device_window admitted xid_dev_token itoa seen_by
  mocks-HasLegs false sem agent_id node at now window w =
      finished-HasLegs sem agent_id now window
        (reports (map as_collector (mock_default_collectors node)) now window w) [] refl
  mocks-HasLegs true sem agent_id node at now window w =
      finished-HasLegs sem agent_id now window
        (reports (map as_collector (fault_inject_collectors at node)) now window w) injected_legs
        refl

  -- A daemon on the mock sources, whatever the host's name, the time, the window and the policy: what a
  -- cycle without an error publishes shows no fault by default; with the injected faults it shows
  -- exactly four legs, from two sources: the XID 79 and the lost device of the one GPU, the XID 94 and
  -- the ECC counter of the other.
  pub refresh-mocks :
      {pr : Pricing F} (sem : Semantics F) (host : Host F W) (faulty : Bool) (at : Time)
      (node : String) (d : Daemon pr W) (w : W)
      → d.collectors ≡ map as_collector (mocks faulty at node)
      → (refresh sem host d w).0 ≡ none
      → (st : State pr) × ((refresh sem host d w).1.state ≡ some st)
        × (legs st.window.pack.timeline ≡ expected_legs faulty)
  refresh-mocks sem host faulty at node d w same e =
      let (st, shown, sourced) = refresh-IsSourced sem host d w e in
      let (win, normal, timeline) = sourced.made in
      let own : HasLegs (expected_legs faulty) (
          normalize sem d.agent_id (d.now w).0 d.window
            (reports d.collectors (d.now w).0 d.window (d.now w).1)) =
        rw same (mocks-HasLegs faulty sem d.agent_id node at (d.now w).0 d.window (d.now w).1) in
      (st, shown, ap legs timeline ∙ subst (HasLegs (expected_legs faulty)) normal own)
