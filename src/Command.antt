-- ===== src/Command.antt =====
-- cmd/agent/main.go: the flags with their environment, and what they configure.
pub mod Once
pub mod Queries
pub mod OneShot
pub mod Investigating
pub mod Egress
use gpufleet_agent.Prelude.{
  ℕ, String, Bool, true, false, ◌||◌, ◌==◌, Option, none, some, List, [], ◌∷◌, ◌*◌, map,
  if◌then◌else◌,
}
use gpufleet_agent.Prelude.Int.{pos, ◌*ℤ◌, i64, ltb_ℤ, leb_ℤ}
use gpufleet_agent.Prelude.Strings.{◌<>◌, or_default}
use gpufleet_agent.Float.{Float64}
use gpufleet_agent.Wire.{
  Duration, ConsentTier, tier_unprivileged, tier_privileged, tier_unspecified, EvidencePack,
  CollectDirective,
}
use gpufleet_agent.Semantics.{Semantics, Pricing, Result, ok, err}
use gpufleet_agent.Devices.{DegradeMark}
use gpufleet_agent.Cost.{CostReport}
use gpufleet_agent.Daemon.{
  Collector, Host, State, Daemon, DaemonConfig, new_daemon, second, staleness_floor,
}
use gpufleet_agent.Daemon.Refresh.{refresh}
use gpufleet_agent.Dcgm.{default_profiling_burst_interval}
use gpufleet_agent.Investigate.{Client, noop_execute}
use gpufleet_agent.Prometheus.{PromQueries, PromLabels}
use gpufleet_agent.Runtime.{
  as_collector, RuntimeConfig, Part, Parts, collectors, default_prom_queries,
}
use gpufleet_agent.Spec.{DeviceSpec}
use gpufleet_agent.Spec.File.{SpecHost, build_device_spec}

-- What the command reads of its environment: `os.Getenv`, and `time.ParseDuration`.
pub record Environment : Type 0 where
  pub get : String → String
  pub parse_duration : String → Option Duration

-- `strconv.ParseBool`
abbrev pub parse_bool : String → Option Bool
parse_bool s =
    if (s == "1") || (s == "t") || (s == "T") || (s == "true") || (s == "TRUE") || (s == "True")
    then some true
    else if (s == "0")
        || (s == "f")
        || (s == "F")
        || (s == "false")
        || (s == "FALSE")
        || (s == "False")
    then some false
    else none

abbrev pub parsed_or {ℓ} : {A : Type ℓ} → A → Option A → A
parsed_or def none = def
parsed_or def (some a) = a

-- `envStr`, `envBool`, `envDur` and `envFloat`
unfoldable pub env_str : Environment → String → String → String
env_str env key def = if env.get key == "" then def else env.get key

unfoldable pub env_bool : Environment → String → Bool → Bool
env_bool env key def = if env.get key == "" then def else parsed_or def (parse_bool (env.get key))

unfoldable pub env_dur : Environment → String → Duration → Duration
env_dur env key def =
    if env.get key == "" then def else parsed_or def (env.parse_duration (env.get key))

unfoldable pub env_float : {F : Type 0} → ⦃fl : Float64 F⦄ → Environment → String → F → F
env_float ⦃fl⦄ env key def =
    if env.get key == "" then def else parsed_or def (fl.parse (env.get key))

pub record Flags (F : Type 0) : Type 0 where
  pub node : String
  pub serve : Bool
  pub addr : String
  pub window : Duration
  pub interval : Duration
  pub staleness_after : Duration
  pub prometheus_url : String
  pub dcgm_exporter_url : String
  pub collectors : String
  pub nccl_log : String
  pub inject_faults : Bool
  pub profiling_burst : Bool
  pub profiling_cap : Duration
  pub device_spec_file : String
  pub cost_usd_per_hour : F
  pub peak_tflops : F
  pub builtin_peak_table : Bool
  pub investigate_url : String
  pub query_tensor_active : String
  pub query_achieved_flops : String
  pub query_peak_flops : String
  pub query_cost_per_hour : String
  pub query_job_owner : String
  pub label_uuid : String
  pub label_node : String
  pub label_model : String
  pub label_job : String

module _ {F : Type 0} ⦃fl : Float64 F⦄ where
  -- The flags before the command line sets some of them.
  unfoldable pub default_flags : Environment → Flags F
  unfolding env_str env_bool env_dur env_float
  default_flags env = record {
    node = env_str env "GPUFLEET_NODE" "";
    serve = false;
    addr = "127.0.0.1:0";
    window = pos (60 * second);
    interval = pos (15 * second);
    staleness_after = env_dur env "GPUFLEET_STALENESS_AFTER" (pos 0);
    prometheus_url = env_str env "GPUFLEET_PROMETHEUS_URL" "";
    dcgm_exporter_url = env_str env "GPUFLEET_DCGM_EXPORTER_URL" "";
    collectors = env_str env "GPUFLEET_COLLECTORS" "auto";
    nccl_log = env_str env "GPUFLEET_NCCL_LOG" "";
    inject_faults = env_bool env "GPUFLEET_INJECT_FAULTS" false;
    profiling_burst = env_bool env "GPUFLEET_PROFILING_BURST" false;
    profiling_cap = env_dur env "GPUFLEET_PROFILING_CAP" default_profiling_burst_interval;
    device_spec_file = env_str env "GPUFLEET_DEVICE_SPEC_FILE" "";
    cost_usd_per_hour = env_float env "GPUFLEET_COST_USD_PER_HOUR" fl.zero;
    peak_tflops = env_float env "GPUFLEET_PEAK_TFLOPS" fl.zero;
    builtin_peak_table = env_bool env "GPUFLEET_BUILTIN_PEAK_TABLE" true;
    investigate_url = env_str env "GPUFLEET_INVESTIGATE_URL" "";
    query_tensor_active = env_str env "GPUFLEET_QUERY_TENSOR_ACTIVE" "";
    query_achieved_flops = env_str env "GPUFLEET_QUERY_ACHIEVED_FLOPS" "";
    query_peak_flops = env_str env "GPUFLEET_QUERY_PEAK_FLOPS" "";
    query_cost_per_hour = env_str env "GPUFLEET_QUERY_COST_PER_HOUR" "";
    query_job_owner = env_str env "GPUFLEET_QUERY_JOB_OWNER" "";
    label_uuid = env_str env "GPUFLEET_LABEL_UUID" "";
    label_node = env_str env "GPUFLEET_LABEL_NODE" "";
    label_model = env_str env "GPUFLEET_LABEL_MODEL" "";
    label_job = env_str env "GPUFLEET_LABEL_JOB" "";
  }

-- `overrideQueries`
unfoldable pub override_queries : PromQueries → PromQueries
override_queries q = record q {
  tensor_active = or_default q.tensor_active default_prom_queries.tensor_active;
  achieved_flops = or_default q.achieved_flops default_prom_queries.achieved_flops;
  peak_flops = or_default q.peak_flops default_prom_queries.peak_flops;
  cost_per_hour = or_default q.cost_per_hour default_prom_queries.cost_per_hour;
  job_owner = or_default q.job_owner default_prom_queries.job_owner;
}

module _ {F : Type 0} where
  -- The queries that the flags give; the command has no flag for the ECC query.
  abbrev pub flag_queries : Flags F → PromQueries
  flag_queries fs = record {
    tensor_active = fs.query_tensor_active;
    achieved_flops = fs.query_achieved_flops;
    peak_flops = fs.query_peak_flops;
    cost_per_hour = fs.query_cost_per_hour;
    job_owner = fs.query_job_owner;
    ecc_double_bit = "";
  }

  unfoldable pub runtime_config : Flags F → DeviceSpec F → RuntimeConfig F
  unfolding override_queries
  runtime_config fs spec = record {
    node = fs.node;
    prometheus_url = fs.prometheus_url;
    dcgm_exporter_url = fs.dcgm_exporter_url;
    mode = fs.collectors;
    queries = override_queries (flag_queries fs);
    labels = record {
      uuid = fs.label_uuid;
      node = fs.label_node;
      model = fs.label_model;
      job = fs.label_job;
    };
    spec = spec;
    peak_table = fs.builtin_peak_table;
    nccl_log_path = fs.nccl_log;
    profiling_burst = fs.profiling_burst;
    profiling_cap = fs.profiling_cap;
  }

  -- The age beyond which the command calls data stale.
  unfoldable pub stale_after : Flags F → Duration
  stale_after fs =
      let tripled = i64 (pos 3 *ℤ fs.interval) in
      if leb_ℤ fs.staleness_after (pos 0)
      then (if ltb_ℤ tripled staleness_floor then staleness_floor else tripled)
      else fs.staleness_after

-- `tier0Consent`
unfoldable pub tier0_consent : ConsentTier → Bool
tier0_consent tier_unprivileged = true
tier0_consent tier_privileged = false
tier0_consent tier_unspecified = false

-- The client of the investigate loop, with the token of the environment.
abbrev pub investigate_client : {F W : Type 0} → Environment → Flags F → Client W
investigate_client env fs = record {
  url = fs.investigate_url;
  token = env.get "GPUFLEET_INVESTIGATE_TOKEN";
  node_id = fs.node;
  consent = some tier0_consent;
  executor = some noop_execute;
  hc = none;
}

-- The client whose loop runs beside the daemon: none without a URL.
unfoldable pub egress : {F W : Type 0} → Environment → Flags F → Option (Client W)
egress env fs = if fs.investigate_url == "" then none else some (investigate_client env fs)

module _ {F W : Type 0} ⦃fl : Float64 F⦄ where
  -- The collectors of the daemon, with the mode that is logged; `faults` is `faultInjectCollectors`,
  -- which a build tag selects and which may be nil.
  unfoldable pub chosen_collectors :
      (String → Option (List (Part F W)))
      → Parts F W
      → Flags F
      → DeviceSpec F
      → W
      → List (Part F W) × String × W
  unfolding runtime_config
  chosen_collectors faults parts fs spec w =
      let chosen = collectors parts (runtime_config fs spec) w in
      if fs.inject_faults
      then elim (faults fs.node) [
        | none ↦ chosen
        | some cols ↦ (cols, "mock+inject-faults", chosen.2)
      ]
      else chosen

  abbrev pub daemon_config : (pr : Pricing F) → Flags F → List (Part F W) → DaemonConfig pr W
  daemon_config pr fs cols = record {
    agent_id = "gpufleet-agent";
    window = fs.window;
    collectors = map as_collector cols;
    policy = pr.default_policy;
    staleness_after = stale_after fs;
    now = none;
  }
