-- ===== src/Api/Methods.antt =====
-- api.go, `readOnly` and `Handler`: which requests are refused.
use gpufleet_agent.Prelude.{String, ◌≡◌, ◌↔◌, ◌⊎◌, eq_iff, Option, none, some, All, arith}
use gpufleet_agent.Float.{Float64}
use gpufleet_agent.Semantics.{Pricing, PricingFields, Result, ok, err}
use gpufleet_agent.Daemon.{Host, State}
use gpufleet_agent.Api.{Encoder, Request, Handler, read_only, encoded}
use gpufleet_agent.Api.Handlers.{
  Reads, handle_health, handle_signals, handle_verdict, handle_cost, handle_window, endpoints,
  answer_signals, answer_verdict, answer_window,
}

-- The method reads only.
abbrev pub IsRead : Request → Type 0
IsRead r = (r.method ≡ "GET") ⊎ (r.method ≡ "HEAD")

module _ {F W : Type 0} where
  -- The wrapped handler refuses exactly the requests whose method writes, without a step of the
  -- world, and passes the others through.
  abbrev pub Guards : Handler F W → Request → W → Type 0
  Guards h r w =
      ((read_only h r w).0.status ≡ 405 ↔ ¬ IsRead r)
      × (¬ IsRead r → (read_only h r w).1 ≡ w)
      × (IsRead r → read_only h r w ≡ h w)

  guards : (h : Handler F W) (r : Request) (w : W) → ¬ ((h w).0.status ≡ 405) → Guards h r w
  unfolding read_only
  guards h r w other = ground (arith, eq_iff r.method "GET", eq_iff r.method "HEAD")

encoded-allowed :
    (F : Type 0) (what : String) (r : Result String) → ¬ ((encoded {F = F} what r).status ≡ 405)
encoded-allowed F what (ok b) = ground arith
encoded-allowed F what (err e) = ground arith

module _ {F W : Type 0} ⦃fl : Float64 F⦄ {pr : Pricing F} (fields : PricingFields pr)
    (host : Host F W) (enc : Encoder F) where
  answer_signals-allowed :
      (o : Option (State pr)) → ¬ ((answer_signals fields host enc o).status ≡ 405)
  answer_signals-allowed none = ground arith
  answer_signals-allowed (some st) = encoded-allowed F _ _

  answer_verdict-allowed :
      (o : Option (State pr)) → ¬ ((answer_verdict fields host enc o).status ≡ 405)
  answer_verdict-allowed none = ground arith
  answer_verdict-allowed (some st) = encoded-allowed F _ _

  answer_window-allowed :
      (o : Option (State pr)) (reads : Reads pr W) (w : W)
      → ¬ ((answer_window fields host enc o reads w).0.status ≡ 405)
  answer_window-allowed none reads w = ground arith
  answer_window-allowed (some st) reads w = ground arith

  -- On every endpoint, a request is refused with 405 exactly if its method is neither GET nor HEAD,
  -- and then the world takes no step, not even a reading of the clock; every other request is
  -- answered by the endpoint's handler.
  pub endpoints-Guards :
      (reads : Reads pr W) (r : Request) (w : W)
      → All (λ endpoint. Guards (endpoint.1 reads) r w) (endpoints fields host enc)
  unfolding endpoints
  endpoints-Guards reads r w = (
    guards _ r w (unfold handle_health in ground arith),
    (
      guards _ r w (unfold handle_signals in answer_signals-allowed reads.first.state),
      (
        guards _ r w (unfold handle_cost in ground arith),
        (
          guards _ r w (unfold handle_verdict in answer_verdict-allowed reads.first.state),
          (
            guards _ r w (unfold handle_window in answer_window-allowed reads.first.state reads w),
            tt,
          ),
        ),
      ),
    ),
  )
