-- ===== src/Lib.antt =====
-- Verification of gpufleet-agent: the Go agent that reads a node's GPU signals, normalizes them to
-- a signal window, prices it, and lets a control plane ask for more.
--
-- How the parts interact. The command (cmd/agent/main.go) reads its flags and the device spec's
-- file and makes of them a RuntimeConfig and a daemon; it either prints one cycle, or runs the
-- daemon with its HTTP API and, beside it, the loop that gives each new window to Investigate.
-- RuntimeConfig (runtime_config.go) chooses and wraps the collectors, which report observations
-- (collector.go): a chain of Prometheus and DCGM for metrics, completed by the operator's spec and
-- by the built-in table of peaks, the kernel and NCCL logs, and the PCIe link attributes.
-- Daemon.Refresh (daemon.go) collects one cycle, calls Normalize (normalize.go) on what was
-- reported, prices the window (cost.go), runs the local gate and publishes the state that the
-- readers take. The HTTP API (api.go) reads that state, each locked read on its own. Investigate
-- (internal/investigate/client.go) posts a pack to the control plane, and runs the directives of
-- the answer that Validate (internal/directive/validate.go) lets through, by the catalog of
-- internal/capability/catalog.go. A verdict may be reflowed as a signed digest
-- (internal/reflow/reflow.go).
--
-- Which file models what.
-- Wire: the messages of gpufleet.v1, which are generated outside the repository, with the fields
--   that the agent uses; a pointer that may be nil is an Option, an enum is a data type.
-- Observation: Observation, DeviceWindow and the result of Collector.Collect in collector.go.
-- Float: float64 as an interface (Float64); no law of it is assumed anywhere.
-- Semantics: the types and functions of gpufleet-semantics, as an interface.
-- Merge: mergeDeviceWindow. Timeline: faultTimeline and its tokens. Gather: the first loop of
--   Normalize. Devices: its second loop. Normalize: the rest of it. All of normalize.go.
-- Cost: CostWedge in cost.go.
-- Chain: MetricsChain of collectors_chain.go, a collector that falls back from one metrics source
--   to another. Kmsg: boundedReadStream of collectors_kmsg.go; Kmsg.Source: the rest of that file,
--   and the log source of the GPU build (sources_gpu.go, log_source_real_gpu.go). Gpu: the default
--   collectors of the GPU build (sources_gpu.go). Mock: those of the build without a GPU, and
--   those that inject faults (sources_mock.go, cmd/agent/inject_mock.go).
-- Dcgm: the burst gate and the counter deltas of collectors_dcgm.go; Dcgm.Exposition: its parser
--   of the exposition text; Dcgm.Exposition.Devices: the devices that it makes of the samples;
--   Dcgm.Exposition.Scrape: Collect. Prometheus: one query of collectors_prometheus.go;
--   Prometheus.Samples: what the samples of a query add; Prometheus.Collect: Collect.
-- Logs: the parser of the kernel log in collectors_logs.go; Logs.Nccl: that of NCCL; Logs.Collect:
--   the collectors of that file and of collectors_nccl.go; Logs.Sources: the log sources of the
--   build without a GPU. Proc: the PCIe link collector of collectors_proc.go. Prelude.Pattern is a
--   matcher of the regular expressions that they use, leftmost first as Go's regexp package
--   documents.
-- Spec: the lookup and the filling of device_spec.go; Spec.File: the parsing of the file, and
--   buildDeviceSpec of the command. Spec.Peaks: gpu_peak_table.go.
-- Command: the flags of cmd/agent/main.go and what they configure; Command.Once: the run of a
--   single cycle. Command.Investigating: runInvestigateLoop, as steps that interleave with the
--   daemon's cycles and with the ends of the investigations.
-- Runtime: the modes and the wiring of collectors in runtime_config.go.
-- Api: the bodies and the read-only guard of api.go; Api.Handlers: its handlers. Reflow:
--   internal/reflow/reflow.go.
-- Daemon: the types, NewDaemon and defaultStalenessAfter of daemon.go; Daemon.Refresh: Refresh,
--   Run and what they call; Daemon.Freshness: Freshness and its reasons. Daemon.Cycles and
--   Daemon.History prove what a cycle and a run do, Daemon.Provenance where what it publishes
--   comes from, Daemon.Recovery what a reader sees after one.
-- Capability, Directive, Investigate: the files of the same names under internal/.
-- The other modules below these (Api.Judged, Spec.Precedence, Logs.Records and so on) prove what
--   their parent does.
-- Evidence: the older path of one reader in evidence.go, mock.go and nvml_gpu.go, which no other
--   part calls.
-- Prelude: Boolean tests, lists, association lists, sorting, integers and texts.
-- Examples: the test data, the tests and the witnesses.
--
-- How state is modelled. A map of Go with text keys is an association list, whose insertion
-- replaces in place; what depends on a map's iteration order sorts the keys, as the source does,
-- or else takes the order of the list. A message that the source clones before it changes it is a
-- value. The daemon is a record, and each of its methods, which hold its lock, is one step. What
-- lies outside (the sources, the wall clock, the context, the network) is a type W of worlds that
-- the calls thread. Time is an unbounded integer of nanoseconds, a duration an int64 whose
-- products wrap and whose differences saturate, and the uint64 counters wrap.
--
-- Loops. Every loop runs over a list, except that of Investigate, which runs over its MaxRounds,
-- Run, which runs over the list of its wake-ups, and the drain of the kernel log. This drain runs
-- on fuel; as many passes as its deadline has nanoseconds, and one more, are enough, since its
-- clock moves on with each pass, and boundedReadToReader gives it as many. The investigate loop
-- has no fuel: its runs are an inductive relation. The printing of a number has the number itself
-- as fuel.
--
-- Texts. A text is a list of code points, and letter case is that of ASCII. The limits of the line
-- scanners (1 MiB and 4 MiB) count code points. The repetitions of a pattern are bounded by the
-- length of the text. The tree of sysfs does not change during one Collect.
--
-- Not modelled: the decoding of JSON (the answers of Prometheus and the parts of the device spec's
-- file, which are parameters), flag.Parse, the signals, the HTTP server and what the command logs;
-- the text and the arithmetic of a float; what the system calls, net/http, regexp, protobuf,
-- Ed25519 and base64 do beyond what is used here.
pub mod Prelude
pub mod Evidence
pub mod Float
pub mod Wire
pub mod Observation
pub mod Merge
pub mod Timeline
pub mod Semantics
pub mod Gather
pub mod Gpu
pub mod Devices
pub mod Mock
pub mod Normalize
pub mod Capability
pub mod Command
pub mod Directive
pub mod Investigate
pub mod Cost
pub mod Daemon
pub mod Examples
pub mod Chain
pub mod Kmsg
pub mod Api
pub mod Reflow
pub mod Spec
pub mod Logs
pub mod Proc
pub mod Runtime
pub mod Dcgm
pub mod Prometheus
