-- ===== src/Examples/Requests.antt =====
-- Witnesses: requests to a daemon after one refresh, and to one that has never collected.
use gpufleet_agent.Prelude.{ℕ, ◌≡◌, refl, false, some, [], ◌∷◌, keys, insert, lookup}
use gpufleet_agent.Prelude.Int.{pos, i64, ◌-ℤ◌, ◌*ℤ◌}
use gpufleet_agent.Prelude.Sort.{sort_strings}
use gpufleet_agent.Observation.{blank_window}
use gpufleet_agent.Merge.{merge_device_window}
use gpufleet_agent.Gather.{gather_from, merge_into}
use gpufleet_agent.Devices.{device_loop}
use gpufleet_agent.Normalize.{normalize}
use gpufleet_agent.Cost.{cost_wedge}
use gpufleet_agent.Daemon.Freshness.{freshness}
use gpufleet_agent.Semantics.{PricingFields, ok, err}
use gpufleet_agent.Daemon.{Daemon, new_daemon, sub_time}
use gpufleet_agent.Daemon.Refresh.{tick, refresh, run}
use gpufleet_agent.Api.{Encoder, Request, CostResponse, write_json, cost}
use gpufleet_agent.Api.Handlers.{quiet, handle_cost, handle_verdict, handle_window, handle_signals}
use gpufleet_agent.Api.Views.{IsCostView, handle_cost-IsCostView, Agree, handlers-Agree}
use gpufleet_agent.Api.Judged.{Serves, run-Serves}
use gpufleet_agent.Examples.{toy, semantics}
use gpufleet_agent.Examples.Daemons.{host, pricing, config, daemon}

abbrev fields : PricingFields pricing
fields = record {
  CostImpact = ℕ;
  device = λ d. record { uuid = "GPU-1"; node = "n1"; model = "A10" };
  mfu = λ d. d;
  tensor_active = λ d. d;
  idle_fraction = λ d. d;
  cost_usd = λ d. d;
  wasted_usd = λ d. d;
  wedge_impact = λ d. d;
  low_utilization = λ d. false;
  impact_job = λ j. "job-1";
  job_impact = λ j. j;
  wedges = λ j. [];
  usd_window = λ i. i;
  usd_per_hour = λ i. i;
  is_computed = λ i. false;
}

abbrev encoder : Encoder ℕ
encoder = record { marshal_pack = λ pack. err "too large"; marshal_verdict = λ v. ok "{}" }

-- The daemon after one cycle.
abbrev collected : Daemon pricing ℕ
collected = (refresh semantics host daemon 1).1

abbrev deletion : Request
deletion = record { method = "DELETE"; path = "/cost" }

handle_cost-IsCostView_example :
    (r : CostResponse ℕ) × ((handle_cost fields host encoder (quiet collected) 5).0
      ≡ write_json 200 (cost r))
    × IsCostView fields host encoder collected (collected.now 5).0 r
handle_cost-IsCostView_example = handle_cost-IsCostView fields host encoder collected 5

handlers-Agree_example :
    Agree fields host encoder collected.state collected.cost_state
      (handle_window fields host encoder (quiet collected) 5).0
      (handle_verdict fields host encoder (quiet collected) 5).0
      (handle_signals fields host encoder (quiet collected) 5).0
      (handle_cost fields host encoder (quiet collected) 5).0
handlers-Agree_example = handlers-Agree fields host encoder collected 5

run-Serves_example :
    Serves fields host encoder
      (run semantics host
        (tick (λ w. w) ∷ [])
        (new_daemon host config 0).0
        (new_daemon host config 0).1).0.state
      (handle_verdict fields host encoder
        (record {
          first =
              (run semantics host
                (tick (λ w. w) ∷ [])
                (new_daemon host config 0).0
                (new_daemon host config 0).1).0;
          second = daemon;
          third = daemon;
        })
        9).0
run-Serves_example = run-Serves fields host encoder semantics config (tick (λ w. w) ∷ []) daemon 0 9

-- A refresh between the two reads of `/cost`: the empty answer is marked as fresh.
abbrev raced : CostResponse ℕ
raced = record {
  devices = [];
  jobs = [];
  collected_at = some (pos 1000000000);
  age_seconds = 4;
  stale = false;
  never_collected = false;
  stale_reason = "";
}

refreshed_between :
    (handle_cost fields host encoder
      (record { first = daemon; second = collected; third = collected })
      5).0
    ≡ write_json 200 (cost raced)
unfolding handle_cost refresh toy new_daemon freshness normalize cost_wedge sort_strings keys
    device_loop gather_from merge_into insert lookup merge_device_window blank_window sub_time i64
    ◌-ℤ◌ ◌*ℤ◌
refreshed_between = refl
