-- ===== src/Api.antt =====
-- api.go: the local read-only HTTP surface. A body is kept as the value that is encoded; protojson
-- and net/http are outside of the repository.
pub mod Handlers
pub mod Views
pub mod Methods
pub mod Judged
use gpufleet_agent.Prelude.{
  ℕ, String, Bool, true, false, not, ◌&&◌, ◌==◌, Option, none, some, List, [], ◌∷◌, map, length,
  if◌then◌else◌,
}
use gpufleet_agent.Prelude.Strings.{◌<>◌}
use gpufleet_agent.Float.{Float64}
use gpufleet_agent.Wire.{Time, Duration, SignalSource, EvidencePack, Verdict, FaultClass, abstain}
use gpufleet_agent.Timeline.{source_short}
use gpufleet_agent.Devices.{DegradeMark}
use gpufleet_agent.Semantics.{Device, Pricing, PricingFields, Result, ok, err}
use gpufleet_agent.Daemon.{Host, State, Daemon}
use gpufleet_agent.Daemon.Freshness.{Freshness, freshness}

module _ (F : Type 0) where
  pub record HealthResponse : Type 0 where
    pub is_ok : Bool
    pub refreshes : ℕ
    pub errors : ℕ
    pub refresh_at : Option Time
    pub last_success_at : Option Time
    pub age_seconds : F
    pub stale : Bool
    pub never_collected : Bool
    pub stale_reason : String
    pub consec_failures : ℕ

  pub record DeviceCost : Type 0 where
    pub uuid : String
    pub node : String
    pub mfu : F
    pub tensor_active : F
    pub idle_fraction : F
    pub cost_usd : F
    pub wasted_usd : F
    pub usd_per_hour : F
    pub is_priced : Bool
    pub low_utilization : Bool

  pub record JobCost : Type 0 where
    pub job_id : String
    pub wasted_usd : F
    pub usd_per_hour : F
    pub is_priced : Bool
    pub devices : ℕ

  pub record CostResponse : Type 0 where
    pub devices : List DeviceCost
    pub jobs : List JobCost
    pub collected_at : Option Time
    pub age_seconds : F
    pub stale : Bool
    pub never_collected : Bool
    pub stale_reason : String

  -- `verdict` is `none` where its encoding failed.
  pub record WindowResponse : Type 0 where
    pub contract_version : String
    pub agent_id : String
    pub window_start : Time
    pub window_end : Time
    pub sources : List String
    pub degraded : List DegradeMark
    pub cost : CostResponse
    pub verdict : Option String

  -- A body: the text of `http.Error`, bytes of protojson, or a value for the JSON encoder.
  pub data Body : Type 0 where
    error_text : String → Body
    raw : String → Body
    health : HealthResponse → Body
    cost : CostResponse → Body
    window : WindowResponse → Body

  pub record Response : Type 0 where
    pub status : ℕ
    pub headers : List (String × String)
    pub body : Body

  -- `protojson.MarshalOptions.Marshal`, on a pack and on a verdict.
  pub record Encoder : Type 0 where
    pub marshal_pack : EvidencePack F → Result String
    pub marshal_verdict : Verdict F → Result String

pub record Request : Type 0 where
  pub method : String
  pub path : String

abbrev pub Handler : Type 0 → Type 0 → Type 0
Handler F W = W → Response F × W

abbrev json_header : List (String × String)
json_header = ("Content-Type", "application/json") ∷ []

module _ {F : Type 0} where
  -- `http.Error`
  abbrev pub http_error : List (String × String) → String → ℕ → Response F
  http_error headers text code = record { status = code; headers = headers; body = error_text text }

  -- `writeJSON`, and the end of the handlers that write protojson.
  abbrev pub write_json : ℕ → Body F → Response F
  write_json code body = record { status = code; headers = json_header; body = body }

  abbrev pub not_collected : Response F
  not_collected = http_error [] "no signal window collected yet" 503

  abbrev pub encoded : String → Result String → Response F
  encoded what (ok b) = write_json 200 (raw b)
  encoded what (err e) = http_error [] (what <> e) 500

  -- `readOnly`
  unfoldable pub read_only : {W : Type 0} → Handler F W → Request → Handler F W
  read_only h r w =
      if not (r.method == "GET") && not (r.method == "HEAD")
      then (
        http_error (("Allow", "GET, HEAD") ∷ []) "agent local API is read-only (GET only)" 405,
        w,
      )
      else h w

abbrev pub shown_time : Freshness → Option Time
shown_time fr = if fr.has_data then fr.collected_at else none

module _ {F : Type 0} ⦃fl : Float64 F⦄ where
  -- `fr.Age.Seconds()`, where the response has an age.
  abbrev pub shown_age : Freshness → F
  shown_age fr =
      if fr.has_data
      then fl.seconds fr.age
      else if fr.never_collected
      then fl.seconds fr.age
      else fl.zero

  unfoldable pub stamp_freshness : CostResponse F → Freshness → CostResponse F
  stamp_freshness resp fr = record resp {
    stale = fr.stale;
    never_collected = fr.never_collected;
    stale_reason = fr.reason;
    collected_at = if fr.has_data then fr.collected_at else resp.collected_at;
    age_seconds =
        if fr.has_data
        then fl.seconds fr.age
        else if fr.never_collected
        then fl.seconds fr.age
        else resp.age_seconds;
  }

  -- `CostResponse{}`
  abbrev pub empty_response : CostResponse F
  empty_response = record {
    devices = [];
    jobs = [];
    collected_at = none;
    age_seconds = fl.zero;
    stale = false;
    never_collected = false;
    stale_reason = "";
  }

module _ {F : Type 0} (pr : Pricing F) (fields : PricingFields pr) where
  unfoldable pub device_cost : pr.Wedge → DeviceCost F
  device_cost d = record {
    uuid = (fields.device d).uuid;
    node = (fields.device d).node;
    mfu = fields.mfu d;
    tensor_active = fields.tensor_active d;
    idle_fraction = fields.idle_fraction d;
    cost_usd = fields.cost_usd d;
    wasted_usd = fields.wasted_usd d;
    usd_per_hour = fields.usd_per_hour (fields.wedge_impact d);
    is_priced = fields.is_computed (fields.wedge_impact d);
    low_utilization = fields.low_utilization d;
  }

  unfoldable pub job_cost : pr.Impact → JobCost F
  job_cost j = record {
    job_id = fields.impact_job j;
    wasted_usd = fields.usd_window (fields.job_impact j);
    usd_per_hour = fields.usd_per_hour (fields.job_impact j);
    is_priced = fields.is_computed (fields.job_impact j);
    devices = length (fields.wedges j);
  }
