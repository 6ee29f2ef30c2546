-- ===== src/Prometheus.antt =====
-- collectors_prometheus.go: the collector of an existing Prometheus, and one of its instant queries.
pub mod Collect
pub mod Samples
pub mod Outcome
pub mod Queried
use gpufleet_agent.Prelude.{
  ℕ, ◌*◌, ◌^◌, String, Bool, true, false, not, ◌==◌, Option, none, some, List, [], ◌∷◌, length,
  nat_eq, leb, lookup, insert, keys, if◌then◌else◌,
}
use gpufleet_agent.Prelude.Int.{pos}
use gpufleet_agent.Prelude.Sort.{sort_strings}
use gpufleet_agent.Prelude.Strings.{◌<>◌, itoa}
use gpufleet_agent.Float.{Float64}
use gpufleet_agent.Wire.{Time, Duration, prometheus, DeviceJobMapping}
use gpufleet_agent.Observation.{
  DeviceWindow, Observation, Collected, observed, failed, blank_window,
}
use gpufleet_agent.Semantics.{Result, ok, err}
use gpufleet_agent.Daemon.{second, positive_or}
use gpufleet_agent.Investigate.{HttpResponse, read_limited}
use gpufleet_agent.Chain.{empty_observation}
use gpufleet_agent.Dcgm.Exposition.Devices.{label_of, either_text, placed, in_order}
use gpufleet_agent.Dcgm.Exposition.Scrape.{hard}

pub record PromQueries : Type 0 where
  pub tensor_active : String
  pub achieved_flops : String
  pub peak_flops : String
  pub cost_per_hour : String
  pub job_owner : String
  pub ecc_double_bit : String

pub record PromLabels : Type 0 where
  pub uuid : String
  pub node : String
  pub model : String
  pub job : String

-- `withDefaults`
unfoldable pub with_defaults : PromLabels → PromLabels
with_defaults l = record {
  uuid = either_text l.uuid "UUID";
  node = either_text l.node "Hostname";
  model = either_text l.model "modelName";
  job = either_text l.job "job";
}

-- A GET under the timeout of a client.
abbrev pub Fetch : Type 0 → Type 0
Fetch W = String → W → Result HttpResponse × W

pub record PrometheusCollector (W : Type 0) : Type 0 where
  pub base_url : String
  pub node : String
  pub queries : PromQueries
  pub labels : PromLabels
  pub http_client : Option (Fetch W)
  pub timeout : Duration

-- One value of a sample's pair is its text, or `none` where it is not a JSON string.
pub record PromVectorSample : Type 0 where
  pub metric : List (String × String)
  pub value : List (Option String)

pub record PromInstantResponse : Type 0 where
  pub status : String
  pub result : List PromVectorSample
  pub error_type : String
  pub error : String

-- net/url, net/http and encoding/json: the URL of an instant query, with the error of parsing the
-- base; the error of a request that cannot be made; the client of a given timeout; the decoding of a
-- body, and its text.
pub record PromHttp (W : Type 0) : Type 0 where
  pub query_url : String → String → Time → Result String
  pub request_error : String → Option String
  pub client : Duration → Fetch W
  pub decode : List ℕ → Result PromInstantResponse
  pub body_text : List ℕ → String

abbrev pub prom_body_limit : ℕ
prom_body_limit = 8 * 2 ^ 20

-- The error of a response that Prometheus itself refuses.
abbrev pub accepted : Result PromInstantResponse → Result (List PromVectorSample)
accepted (err e) = err ("agent: decode prometheus response: " <> e)
accepted (ok pr) =
    if not (pr.status == "success")
    then err ("agent: prometheus error " <> pr.error_type <> ": " <> pr.error)
    else ok pr.result

module _ {W : Type 0} (net : PromHttp W) where
  abbrev fetch_of : PrometheusCollector W → Fetch W
  fetch_of c = elim c.http_client [
    | none ↦ net.client (positive_or (pos (5 * second)) c.timeout)
    | some fetch ↦ fetch
  ]

  abbrev pub answered : ℕ → Result (List ℕ) → Result (List PromVectorSample)
  answered status (err e) = err e
  answered status (ok body) =
      if not (nat_eq status 200)
      then err ("agent: prometheus query status " <> itoa status <> ": " <> net.body_text body)
      else accepted (net.decode body)

  abbrev received : Result HttpResponse × W → Result (List PromVectorSample) × W
  received (err e, w) = (err ("agent: prometheus query: " <> e), w)
  received (ok resp, w) = (answered resp.status_code (read_limited prom_body_limit resp), w)

  abbrev requested : PrometheusCollector W → Result String → W → Result (List PromVectorSample) × W
  requested c (err e) w = (err ("agent: bad prometheus BaseURL: " <> e), w)
  requested c (ok url) w = elim (net.request_error url) [
    | some e ↦ (err e, w)
    | none ↦ received (fetch_of c url w)
  ]

  -- `query`
  unfoldable pub query :
      PrometheusCollector W → String → Time → W → Result (List PromVectorSample) × W
  unfolding read_limited
  query c expr now w = requested c (net.query_url c.base_url expr now) w
