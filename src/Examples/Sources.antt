-- ===== src/Examples/Sources.antt =====
-- Witnesses: the log source of the GPU build on a device without messages, its default collectors, and
-- the mock sources.
use gpufleet_agent.Prelude.{ℕ, refl, false, none, [], arith}
use gpufleet_agent.Prelude.Int.{pos}
use gpufleet_agent.Prelude.{◌≡◌, map, true, some, lookup, insert, keys}
use gpufleet_agent.Prelude.Sort.{sort_strings}
use gpufleet_agent.Merge.{merge_device_window}
use gpufleet_agent.Gather.{gather_from, merge_into}
use gpufleet_agent.Devices.{device_loop}
use gpufleet_agent.Cost.{cost_wedge}
use gpufleet_agent.Normalize.{normalize}
use gpufleet_agent.Daemon.{State, Daemon, DaemonConfig, new_daemon}
use gpufleet_agent.Daemon.Refresh.{refresh}
use gpufleet_agent.Runtime.{as_collector}
use gpufleet_agent.Examples.Daemons.{host, pricing, config}
use gpufleet_agent.Chain.{chain_collect}
use gpufleet_agent.Dcgm.Exposition.Scrape.{dcgm_collect}
use gpufleet_agent.Kmsg.{limits_of}
use gpufleet_agent.Kmsg.Source.{
  Device, eagain, KmsgLogSource, bounds_of, kmsg_read, new_kmsg_log_source,
}
use gpufleet_agent.Kmsg.Source.Ends.{IsPrompt, Ends, kmsg_read-Ends}
use gpufleet_agent.Gpu.{GpuHost, default_chain}
use gpufleet_agent.Gpu.Unqueried.{IsExported, default_chain-IsExported}
use gpufleet_agent.Mock.{fault_inject_collectors}
use gpufleet_agent.Mock.Faults.{mocks, legs, expected_legs, refresh-mocks}
use gpufleet_agent.Examples.{toy, semantics}
use gpufleet_agent.Examples.Scrapes.{web, prom, files, exporter}
use gpufleet_agent.Examples.Streams.{ticking}

-- No message is there; the world is the time.
abbrev device : Device ℕ
device = record {
  open_nonblock = λ path w. (some 3, w);
  read = λ fd n w. (([], some eagain), w);
  close = λ fd w. w;
  open_file = λ path w. (none, w);
  close_file = λ path w. w;
  clock = ticking;
  text = λ bytes. "";
}

abbrev time : ℕ → ℕ
time w = w

prompt : IsPrompt device time
prompt = record {
  bounded = λ fd n w. omega arith;
  shows = λ w. refl;
  moves = λ w. omega arith;
  keeps = λ fd n w. omega arith;
}

abbrev log_source : KmsgLogSource ℕ
log_source = new_kmsg_log_source (record { get = λ w. none; set = λ kill w. w }) "/dev/kmsg" ""

kmsg_read-Ends_example :
    Ends device time (limits_of (bounds_of log_source 0)).cap (kmsg_read device log_source 0).0
kmsg_read-Ends_example = kmsg_read-Ends device time prompt log_source 0 (omega arith)

abbrev gpu_host : GpuHost ℕ
gpu_host = record {
  getenv = λ key. "";
  web = web;
  prom = prom;
  files = files;
  sysfs = λ w. record { read_dir = λ dir. none; read_file = λ n path. none };
  device = device;
  done = λ w. false;
  selected = record { get = λ w. none; set = λ s w. w };
  exporter = record { get = λ w. exporter; set = λ c w. w };
  kill = record { get = λ w. none; set = λ kill w. w };
}

default_chain-IsExported_example :
    IsExported gpu_host
      (dcgm_collect {F = ℕ} web exporter (pos 5) (pos 60) 0)
      (chain_collect (default_chain gpu_host "n1") (pos 5) (pos 60) 0)
default_chain-IsExported_example = default_chain-IsExported ℕ gpu_host "n1" (pos 5) (pos 60) 0

-- A daemon on the mock sources with the injected faults.
abbrev faulty_config : DaemonConfig pricing ℕ
faulty_config = record config {
  window = pos 60000000000;
  collectors = map as_collector (mocks true (pos 4) "n1");
}

abbrev faulty : Daemon pricing ℕ
faulty = (new_daemon host faulty_config 0).0

faulty-collectors : faulty.collectors ≡ map as_collector (mocks true (pos 4) "n1")
unfolding new_daemon
faulty-collectors = refl

faulty-no_error : (refresh semantics host faulty 1).0 ≡ none
unfolding refresh toy new_daemon normalize cost_wedge sort_strings keys device_loop gather_from
    merge_into insert lookup merge_device_window fault_inject_collectors
faulty-no_error = refl

refresh-mocks_example :
    (st : State pricing) × ((refresh semantics host faulty 1).1.state ≡ some st)
    × (legs st.window.pack.timeline ≡ expected_legs true)
refresh-mocks_example =
    refresh-mocks semantics host true (pos 4) "n1" faulty 1 faulty-collectors faulty-no_error
