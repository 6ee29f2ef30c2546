-- ===== src/Examples/Scrapes.antt =====
-- Witnesses: a scrape of an exporter, and what a reader sees after a cycle; and what collectors call.
use gpufleet_agent.Prelude.{
  ℕ, String, ◌≡◌, refl, true, false, ◌+◌, none, some, [], ◌∷◌, arith, insert, lookup, keys,
}
use gpufleet_agent.Prelude.Int.{pos, ◌≤ℤ◌, i64, ◌-ℤ◌, ◌*ℤ◌}
use gpufleet_agent.Prelude.Sort.{sort_strings}
use gpufleet_agent.Observation.{blank_window}
use gpufleet_agent.Merge.{merge_device_window}
use gpufleet_agent.Gather.{gather_from, merge_into}
use gpufleet_agent.Devices.{device_loop}
use gpufleet_agent.Normalize.{normalize}
use gpufleet_agent.Cost.{cost_wedge}
use gpufleet_agent.Daemon.{new_daemon, sub_time, default_staleness_after}
use gpufleet_agent.Semantics.{ok, err}
use gpufleet_agent.Daemon.Refresh.{refresh}
use gpufleet_agent.Daemon.Freshness.{freshness, age_of}
use gpufleet_agent.Daemon.Cycles.{ending, published}
use gpufleet_agent.Daemon.Recovery.{refresh-freshness}
use gpufleet_agent.Dcgm.Exposition.{scan_exposition, parse_exposition_line}
use gpufleet_agent.Dcgm.Exposition.Devices.{parse_dcgm_exposition}
use gpufleet_agent.Dcgm.Exposition.Attributed.{Gives, parse_dcgm_exposition-Gives}
use gpufleet_agent.Dcgm.Exposition.Scrape.{
  Web, DcgmExporter, Keeps, dcgm_collect, dcgm_collect-Keeps,
}
use gpufleet_agent.Prometheus.{PromHttp}
use gpufleet_agent.Logs.Collect.{Files}
use gpufleet_agent.Logs.Sources.{real_log_source}
use gpufleet_agent.Runtime.{Parts}
use gpufleet_agent.Examples.{toy, semantics}
use gpufleet_agent.Examples.Daemons.{host, daemon}

abbrev exposition : String
exposition =
    "# HELP x\nDCGM_FI_PROF_PIPE_TENSOR_ACTIVE{UUID=\"GPU-1\",Hostname=\"n1\"} 2\nDCGM_FI_DEV_ECC_DBE_VOL_TOTAL{UUID=\"GPU-1\"} 5\n"

line_test :
    parse_exposition_line {F = ℕ} "up{UUID=\"GPU,1\", gpu=\"0\"} 7 12"
    ≡ some (record { symbol = "up"; labels = ("UUID", "GPU,1") ∷ ("gpu", "0") ∷ []; value = 7 })
unfolding parse_exposition_line toy insert
line_test = refl

parse_dcgm_exposition-Gives_example :
    Gives ℕ
      (toy.seconds (pos 60))
      (scan_exposition (ok exposition))
      (parse_dcgm_exposition (ok exposition) (pos 5) (pos 60) "n2")
parse_dcgm_exposition-Gives_example =
    parse_dcgm_exposition-Gives ℕ (ok exposition) (pos 5) (pos 60) "n2"

-- An exporter that answers with an error.
abbrev pub web : Web ℕ
web = record {
  request_error = λ url. none;
  client =
      λ timeout deadline url w. (ok (record { status_code = 503; body = ok "starting" }), w + 1);
  clock = λ w. (pos w, w);
}

abbrev pub exporter : DcgmExporter ℕ
exporter = record {
  scrape_url = "http://localhost:9400/metrics";
  node = "n1";
  http_client = none;
  timeout = pos 0;
  now = none;
  gate = record {
    profiling_burst = false;
    burst_cap = pos 0;
    last_scrape_t = none;
    prev_dbe = ("GPU-1", 3) ∷ [];
    prev_link_err = [];
  };
}

dcgm_collect-Keeps_example :
    Keeps exporter
      (dcgm_collect {F = ℕ} web exporter (pos 5) (pos 60) 0).0
      (dcgm_collect {F = ℕ} web exporter (pos 5) (pos 60) 0).1
dcgm_collect-Keeps_example = dcgm_collect-Keeps ℕ web exporter (pos 5) (pos 60) 0

abbrev pub prom : PromHttp ℕ
prom = record {
  query_url = λ base expr now. err "no host";
  request_error = λ url. none;
  client = λ timeout url w. (err "refused", w);
  decode = λ body. err "no JSON";
  body_text = λ body. "";
}

abbrev pub files : Files ℕ
files = record { open_file = λ path w. (none, w) }

abbrev pub parts : Parts ℕ ℕ
parts = record {
  web = web;
  prom = prom;
  files = files;
  sysfs = λ w. record { read_dir = λ dir. none; read_file = λ n path. none };
  selected = record { get = λ w. none; set = λ s w. w };
  exporter = record { get = λ w. exporter; set = λ c w. w };
  default_collectors = λ node. [];
  real_log_source = λ path. some (real_log_source files path);
}

refreshed : ending semantics host daemon 1 ≡ published true
unfolding ending refresh toy new_daemon normalize cost_wedge sort_strings keys device_loop
    gather_from merge_into insert lookup merge_device_window blank_window
refreshed = refl

young :
    age_of ((refresh semantics host daemon 1).1.now 4).0 (daemon.now 1).0 ≤ℤ daemon.staleness_after
unfolding refresh toy new_daemon normalize cost_wedge sort_strings keys device_loop gather_from
    merge_into insert lookup merge_device_window blank_window freshness sub_time age_of i64 ◌-ℤ◌
    ◌*ℤ◌ default_staleness_after
young = ground arith

refresh-freshness_example : (freshness host (refresh semantics host daemon 1).1 4).0.stale ≡ false
refresh-freshness_example = refresh-freshness semantics host daemon 1 4 refreshed young
