-- ===== src/Examples/Queries.antt =====
-- Witnesses: a Prometheus that answers some queries and fails others.
use gpufleet_agent.Prelude.{
  ℕ, ◌≡◌, refl, true, ◌+◌, none, some, List, [], ◌∷◌, nat_eq, if◌then◌else◌, insert, lookup, keys,
}
use gpufleet_agent.Prelude.Int.{pos}
use gpufleet_agent.Prelude.Sort.{sort_strings}
use gpufleet_agent.Observation.{DeviceWindow, Collected, observed, failed, blank_window}
use gpufleet_agent.Semantics.{ok, err}
use gpufleet_agent.Investigate.{HttpResponse}
use gpufleet_agent.Prometheus.{PromHttp, PrometheusCollector, PromInstantResponse}
use gpufleet_agent.Prometheus.Collect.{prom_collect}
use gpufleet_agent.Examples.{toy}

-- A ratio of tensor activity for one device, and a sample without a device.
abbrev answer : PromInstantResponse
answer = record {
  status = "success";
  result =
      record {
        metric = ("UUID", "GPU-1") ∷ ("job", "job-1") ∷ [];
        value = some "1700000000" ∷ some "3" ∷ [];
      }
      ∷ record { metric = []; value = some "1700000000" ∷ some "4" ∷ [] }
      ∷ [];
  error_type = "";
  error = "";
}

abbrev reply : HttpResponse
reply = record { status_code = 200; body = 1 ∷ []; read_error = none }

-- The world counts the requests; the second one is refused.
abbrev net : PromHttp ℕ
net = record {
  query_url = λ base expr now. ok expr;
  request_error = λ url. none;
  client = λ timeout url w. (if nat_eq w 1 then err "refused" else ok reply, w + 1);
  decode = λ body. ok answer;
  body_text = λ body. "";
}

abbrev collector : PrometheusCollector ℕ
collector = record {
  base_url = "http://prometheus:9090";
  node = "n1";
  queries = record {
    tensor_active = "tensor";
    achieved_flops = "";
    peak_flops = "peak";
    cost_per_hour = "cost";
    job_owner = "owner";
    ecc_double_bit = "";
  };
  labels = record { uuid = ""; node = ""; model = ""; job = "" };
  http_client = none;
  timeout = pos 0;
}

-- The refused query leaves the cost unknown, and the others are kept.
abbrev windows : Collected ℕ → List (DeviceWindow ℕ)
windows (observed o) = o.device_windows
windows (failed e) = []

one_unknown :
    windows (prom_collect {F = ℕ} net collector (pos 5) (pos 60000000000) 0).0
    ≡ record (blank_window "GPU-1") {
      node = "n1";
      window_seconds = 60;
      peak_flops = 3;
      peak_flops_known = true;
      tensor_active_secs = 180;
      tensor_active_known = true;
    }
      ∷ []
unfolding prom_collect toy insert lookup keys sort_strings blank_window
one_unknown = refl
