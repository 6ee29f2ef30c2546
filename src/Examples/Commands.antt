-- ===== src/Examples/Commands.antt =====
-- Witnesses: the command with its file of devices, its single cycle and its investigate loop.
use gpufleet_agent.Prelude.{
  ℕ, String, ◌<◌, ◌^◌, ◌≡◌, ◌≢◌, refl, inl, inr, false, ◌==◌, eq_iff, Option, none, some, [], ◌∷◌,
  In, arith, insert, lookup, keys, if◌then◌else◌,
}
use gpufleet_agent.Prelude.Int.{pos}
use gpufleet_agent.Prelude.Sort.{sort_strings}
use gpufleet_agent.Wire.{EvidencePack, prometheus}
use gpufleet_agent.Observation.{blank_window}
use gpufleet_agent.Merge.{merge_device_window}
use gpufleet_agent.Gather.{gather_from, merge_into}
use gpufleet_agent.Devices.{device_loop}
use gpufleet_agent.Normalize.{normalize}
use gpufleet_agent.Cost.{cost_wedge}
use gpufleet_agent.Chain.{MetricsSource}
use gpufleet_agent.Semantics.{Result, ok, err}
use gpufleet_agent.Daemon.{State, new_daemon}
use gpufleet_agent.Daemon.Refresh.{refresh}
use gpufleet_agent.Daemon.Provenance.{IsSourced, reports, refresh-IsSourced}
use gpufleet_agent.Prometheus.Collect.{prom_collect}
use gpufleet_agent.Runtime.{prom_primary}
use gpufleet_agent.Spec.{DeviceSpecEntry, DeviceSpec, spec_lookup, first_of}
use gpufleet_agent.Spec.File.{SpecHost, empty_spec, read_keys, parse_device_spec, seed_wildcard}
use gpufleet_agent.Spec.File.Given.{IsConsistent, Gives, parse_device_spec-Gives}
use gpufleet_agent.Spec.File.Homogeneous.{named, spec_lookup-seed_wildcard}
use gpufleet_agent.Command.{
  Environment, env_bool, Flags, default_flags, override_queries, flag_queries, runtime_config,
}
use gpufleet_agent.Command.Once.{Printout, run_once}
use gpufleet_agent.Command.OneShot.{refresh-published, Tells, run_once-Tells}
use gpufleet_agent.Command.Queries.{NoErrors, command-NoErrors}
use gpufleet_agent.Command.Investigating.{System, initial, on_tick, Reach, start, next, cycle, tick}
use gpufleet_agent.Command.Investigating.Single.{
  IsSingle, on_tick-cycles, Reach-IsSingle, on_tick-Sends,
}
use gpufleet_agent.Examples.{toy, semantics}
use gpufleet_agent.Examples.Directives.{Log, net, no_pack, greedy}
use gpufleet_agent.Directive.{validate}
use gpufleet_agent.Investigate.{Client, investigate}
use gpufleet_agent.Command.{investigate_client, egress}
use gpufleet_agent.Command.Egress.{SendsOnce, Unprivileged, egress-SendsOnce}
use gpufleet_agent.Examples.Daemons.{host, pricing, daemon}
use gpufleet_agent.Examples.Scrapes.{parts}
use gpufleet_agent.Examples.Specs.{spec}

abbrev entry_a : DeviceSpecEntry ℕ
entry_a = record { peak_tflops = 125; cost_per_hour = 1 }

abbrev entry_b : DeviceSpecEntry ℕ
entry_b = record { peak_tflops = 312; cost_per_hour = 0 }

-- The text `a` decodes to an entry, and every text to a map with another.
abbrev spec_host : SpecHost ℕ ℕ
spec_host = record {
  raw_object = λ text. ok (("by_uuid", "b") ∷ ("A10", "a") ∷ []);
  entries = λ text. ok (("A10", entry_b) ∷ []);
  entry = λ text. if text == "a" then ok entry_a else err "no entry";
  read_file = λ path w. (err "no file", w);
  quote = λ s. s;
}

IsConsistent-one : (k : String) (v : DeviceSpecEntry ℕ) → IsConsistent ((k, v) ∷ [])
IsConsistent-one k v j u u' (inl p) (inl q) = cc
IsConsistent-one k v j u u' (inl p) (inr q) = absurd q
IsConsistent-one k v j u u' (inr p) q = absurd p

parse_device_spec-Gives_example :
    Gives spec_host (("by_uuid", "b") ∷ ("A10", "a") ∷ []) (parse_device_spec spec_host "{}")
parse_device_spec-Gives_example =
    parse_device_spec-Gives spec_host "{}" (("by_uuid", "b") ∷ ("A10", "a") ∷ []) refl
      (IsConsistent-one "A10" entry_b) (IsConsistent-one "A10" entry_a)

-- A model that is given twice takes the entry of the key that is visited last.
abbrev peak_of : Result (DeviceSpec ℕ) → Option (DeviceSpecEntry ℕ)
peak_of (ok s) = lookup "A10" s.by_model
peak_of (err e) = none

flat_last :
    peak_of (read_keys spec_host (("by_model", "b") ∷ ("A10", "a") ∷ []) empty_spec) ≡ some entry_a
unfolding read_keys insert lookup
flat_last = refl

flat_first :
    peak_of (read_keys spec_host (("A10", "a") ∷ ("by_model", "b") ∷ []) empty_spec) ≡ some entry_b
unfolding read_keys insert lookup
flat_first = refl

spec_lookup-seed_wildcard_example :
    spec_lookup (seed_wildcard 125 2 spec) "GPU-9" "A10"
    ≡ first_of (named spec "GPU-9" "A10") (some (record { peak_tflops = 125; cost_per_hour = 2 }))
unfolding toy
spec_lookup-seed_wildcard_example =
    spec_lookup-seed_wildcard 125 2 spec "GPU-9" "A10" refl
      (λ e. ground (arith, (eq_iff "A10" "*").1 e))

abbrev environment : Environment
environment = record {
  get = λ key.
      if key == "GPUFLEET_PROMETHEUS_URL"
      then "http://p:9090"
      else if key == "GPUFLEET_INJECT_FAULTS"
      then "yes"
      else "";
  parse_duration = λ s. none;
}

-- The variable is set to `yes`, which is no Boolean of Go.
yes_test : env_bool environment "GPUFLEET_INJECT_FAULTS" false ≡ false
unfolding env_bool
yes_test = refl

abbrev flags : Flags ℕ
flags = default_flags environment

abbrev source : MetricsSource ℕ ℕ
source = record {
  source = prometheus;
  collect = prom_collect parts.prom (record {
    base_url = "http://p:9090";
    node = "";
    queries = override_queries (flag_queries flags);
    labels = record { uuid = ""; node = ""; model = ""; job = "" };
    http_client = none;
    timeout = pos 0;
  });
}

source_test : prom_primary parts (runtime_config flags spec) ≡ some source
unfolding default_flags runtime_config override_queries
source_test = refl

command-NoErrors_example : NoErrors (source.collect (pos 5) (pos 60) 0).0
command-NoErrors_example = command-NoErrors parts flags spec source source_test (pos 5) (pos 60) 0

abbrev marshal : EvidencePack ℕ → Result String
marshal pack = ok "{}"

abbrev encode_error : Printout pricing → Option String
encode_error out = none

run_once-Tells_example :
    Tells semantics host marshal encode_error daemon 1
      (run_once semantics host marshal encode_error daemon 1)
run_once-Tells_example = run_once-Tells semantics host marshal encode_error daemon 1

no_error : (refresh semantics host daemon 1).0 ≡ none
unfolding refresh toy new_daemon normalize cost_wedge sort_strings keys device_loop gather_from
    merge_into insert lookup merge_device_window blank_window
no_error = refl

refresh-IsSourced_example :
    (st : State pricing) × ((refresh semantics host daemon 1).1.state ≡ some st)
    × IsSourced semantics host
        (reports daemon.collectors (daemon.now 1).0 daemon.window (daemon.now 1).1)
        daemon.agent_id
        (daemon.now 1).0
        daemon.window
        st
refresh-IsSourced_example = refresh-IsSourced semantics host daemon 1 no_error

newest : (st : State pricing) × ((refresh semantics host daemon 1).1.state ≡ some st)
newest = let (st, s, at) = refresh-published semantics host daemon 1 no_error in (st, s)

-- The loop after one cycle of the daemon.
abbrev refreshed : System pricing ℕ
refreshed = record (initial daemon) { daemon = (refresh semantics host daemon 1).1; cycles = 1 }

fresh : daemon.state ≡ none
unfolding new_daemon
fresh = refl

one_cycle : Reach semantics host (initial daemon) refreshed
one_cycle = next start (cycle (initial daemon) 1)

few : (on_tick refreshed).cycles < 2 ^ 64
few = rw (on_tick-cycles refreshed) (omega arith)

Reach-IsSingle_example : IsSingle (on_tick refreshed)
Reach-IsSingle_example = Reach-IsSingle fresh (next one_cycle (tick refreshed)) few

on_tick-Sends_example : In newest.0.refreshes (on_tick refreshed).sent
on_tick-Sends_example = on_tick-Sends fresh one_cycle (omega arith) refl newest.1

-- The flags with a control plane.
abbrev asking : Flags ℕ
asking = record flags { investigate_url = "https://control" }

abbrev asked : Client Log
asked = investigate_client environment asking

asks : egress environment asking ≡ some asked
unfolding egress
asks = refl

egress-SendsOnce_example :
    (asking.investigate_url ≢ "")
    × (asked.url ≡ asking.investigate_url)
    × SendsOnce net asked no_pack
        (record { requests = 0; ran = [] })
        (investigate net asked no_pack (record { requests = 0; ran = [] })).world
    × Unprivileged (validate (some greedy) asked.consent)
egress-SendsOnce_example =
    egress-SendsOnce net environment asking asked asks no_pack (record { requests = 0; ran = [] })
      (some greedy)
