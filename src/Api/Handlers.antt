-- ===== src/Api/Handlers.antt =====
-- api.go: the handlers of the endpoints, on the states that their locked reads see.
use gpufleet_agent.Prelude.{ℕ, String, true, Option, none, some, List, [], ◌∷◌, map}
use gpufleet_agent.Float.{Float64}
use gpufleet_agent.Wire.{Time, Verdict, abstain}
use gpufleet_agent.Timeline.{source_short}
use gpufleet_agent.Semantics.{Pricing, PricingFields, Result, ok, err}
use gpufleet_agent.Daemon.{Host, State, Daemon}
use gpufleet_agent.Daemon.Freshness.{Freshness, freshness}
use gpufleet_agent.Api.{
  HealthResponse, CostResponse, WindowResponse, Response, Encoder, Handler, write_json,
  not_collected, encoded, shown_time, shown_age, stamp_freshness, empty_response, device_cost,
  job_cost, health, cost, window,
}

-- The daemon at each of the locked reads of a request, in their order: a `Refresh` may run between.
pub record Reads {F : Type 0} (pr : Pricing F) (W : Type 0) : Type 0 where
  pub first : Daemon pr W
  pub second : Daemon pr W
  pub third : Daemon pr W

abbrev pub state_or : {F : Type 0} {pr : Pricing F} → State pr → Option (State pr) → State pr
state_or st none = st
state_or st (some cost_st) = cost_st

abbrev pub text_of : Result String → Option String
text_of (ok b) = some b
text_of (err e) = none

-- No `Refresh` runs during the request.
abbrev pub quiet : {F W : Type 0} {pr : Pricing F} → Daemon pr W → Reads pr W
quiet d = record { first = d; second = d; third = d }

module _ {F W : Type 0} ⦃fl : Float64 F⦄ {pr : Pricing F} (fields : PricingFields pr)
    (host : Host F W) (enc : Encoder F) where
  -- `costResponse`
  unfoldable pub cost_response : State pr → CostResponse F
  unfolding device_cost job_cost
  cost_response st = record empty_response {
    devices = map (device_cost pr fields) st.cost.devices;
    jobs = map (job_cost pr fields) st.cost.jobs;
  }

  -- `marshalVerdict`; a missing verdict becomes an explicit ABSTAIN.
  abbrev pub verdict_or : State pr → Option (Verdict F) → Verdict F
  verdict_or st (some v) = v
  verdict_or st none = record {
    contract_version = st.window.pack.contract_version;
    fault_class = abstain;
    confidence = fl.one;
    signature = "";
  }

  unfoldable pub marshal_verdict : State pr → Result String
  marshal_verdict st = enc.marshal_verdict (verdict_or st st.verdict)

  abbrev refreshes_of : Option (State pr) → ℕ
  refreshes_of none = 0
  refreshes_of (some st) = st.refreshes

  abbrev refresh_at_of : Option (State pr) → Option Time
  refresh_at_of none = none
  refresh_at_of (some st) = some st.refresh_at

  abbrev health_body : Option (State pr) → Freshness → ℕ → HealthResponse F
  health_body st fr errs = record {
    is_ok = true;
    refreshes = refreshes_of st;
    errors = errs;
    refresh_at = refresh_at_of st;
    last_success_at = shown_time fr;
    age_seconds = shown_age fr;
    stale = fr.stale;
    never_collected = fr.never_collected;
    stale_reason = fr.reason;
    consec_failures = fr.consec_fails;
  }

  unfoldable pub handle_health : Reads pr W → Handler F W
  handle_health r w =
      let fr = freshness host r.second w in
      (write_json 200 (health (health_body r.first.state fr.0 r.third.errs)), fr.1)

  abbrev pub answer_signals : Option (State pr) → Response F
  answer_signals none = not_collected
  answer_signals (some st) = encoded "marshal evidence pack: " (enc.marshal_pack st.window.pack)

  unfoldable pub handle_signals : Reads pr W → Handler F W
  handle_signals r w = (answer_signals r.first.state, w)

  abbrev pub answer_verdict : Option (State pr) → Response F
  answer_verdict none = not_collected
  answer_verdict (some st) = encoded "marshal verdict: " (marshal_verdict st)

  unfoldable pub handle_verdict : Reads pr W → Handler F W
  unfolding marshal_verdict
  handle_verdict r w = (answer_verdict r.first.state, w)

  abbrev pub known_cost : Option (State pr) → CostResponse F
  known_cost none = empty_response
  known_cost (some st) = cost_response st

  unfoldable pub handle_cost : Reads pr W → Handler F W
  unfolding stamp_freshness cost_response
  handle_cost r w =
      let fr = freshness host r.second w in
      (write_json 200 (cost (stamp_freshness (known_cost r.first.cost_state) fr.0)), fr.1)

  abbrev pub window_body : State pr → Option (State pr) → Freshness → WindowResponse F
  window_body st cost_st fr = record {
    contract_version = st.window.pack.contract_version;
    agent_id = st.window.pack.agent_id;
    window_start = st.window.window_start;
    window_end = st.window.window_end;
    sources = map source_short st.window.sources;
    degraded = st.window.degraded;
    cost = stamp_freshness (cost_response (state_or st cost_st)) fr;
    verdict = text_of (marshal_verdict st);
  }

  abbrev pub answer_window : Option (State pr) → Reads pr W → Handler F W
  answer_window none r w = (not_collected, w)
  answer_window (some st) r w =
      let fr = freshness host r.third w in
      (write_json 200 (window (window_body st r.second.cost_state fr.0)), fr.1)

  unfoldable pub handle_window : Reads pr W → Handler F W
  unfolding stamp_freshness cost_response marshal_verdict
  handle_window r w = answer_window r.first.state r w

  -- `Handler`: the handlers by their paths.
  unfoldable pub endpoints : List (String × (Reads pr W → Handler F W))
  unfolding handle_health handle_signals handle_cost handle_verdict handle_window
  endpoints =
      ("/healthz", handle_health)
      ∷ ("/signals", handle_signals)
      ∷ ("/cost", handle_cost)
      ∷ ("/verdict", handle_verdict)
      ∷ ("/window", handle_window)
      ∷ []
