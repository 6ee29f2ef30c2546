-- ===== src/Api/Views.antt =====
-- api.go: what `/cost`, `/verdict` and `/window` show of one state of the daemon.
use gpufleet_agent.Prelude.{
  String, ◌≡◌, ◌↔◌, ◌∙◌, ◌≢◌, refl, sym, ap, true, false, Option, none, some, [], map, arith,
}
use gpufleet_agent.Prelude.Int.{◌≤ℤ◌}
use gpufleet_agent.Prelude.Strings.{IsText}
use gpufleet_agent.Float.{Float64}
use gpufleet_agent.Wire.{Time}
use gpufleet_agent.Semantics.{Pricing, PricingFields, Result, ok, err}
use gpufleet_agent.Daemon.{Host, State, Daemon}
use gpufleet_agent.Daemon.Freshness.{freshness, freshness_at, age_of, IsFair, freshness-IsFair}
use gpufleet_agent.Api.{
  CostResponse, cost, window, raw, Response, Encoder, stamp_freshness, device_cost, job_cost,
  encoded, write_json, WindowResponse,
}
use gpufleet_agent.Api.Handlers.{
  quiet, cost_response, known_cost, marshal_verdict, text_of, answer_verdict, answer_window,
  window_body, state_or, handle_cost, handle_verdict, handle_signals, answer_signals, handle_window,
}

module _ {F W : Type 0} ⦃fl : Float64 F⦄ {pr : Pricing F} (fields : PricingFields pr)
    (host : Host F W) (enc : Encoder F) where
  -- What a cost view says of the daemon at a time.
  pub record IsCostView (d : Daemon pr W) (now : Time) (r : CostResponse F) : Type 0 where
    -- It is not marked stale exactly if there are metrics within the threshold.
    pub fresh : (r.stale ≡ false) ↔ (
        (st : State pr) × (d.cost_state ≡ some st)
        × (age_of now st.refresh_at ≤ℤ d.staleness_after))
    -- Metrics that were collected are held, however old, with the time and the age of them.
    pub held :
        (st : State pr)
        → d.cost_state ≡ some st
        → (r.devices ≡ map (device_cost pr fields) st.cost.devices)
          × (r.jobs ≡ map (job_cost pr fields) st.cost.jobs)
          × (r.collected_at ≡ some st.refresh_at)
          × (r.age_seconds ≡ fl.seconds (age_of now st.refresh_at))
          × (r.never_collected ≡ false)
    -- Without metrics there is nothing but the age since the start.
    pub never :
        d.cost_state ≡ none
        → (r.devices ≡ [])
          × (r.jobs ≡ [])
          × (r.collected_at ≡ none)
          × (r.age_seconds ≡ fl.seconds (age_of now d.started_at))
          × (r.never_collected ≡ true)
    pub explained : (r.stale ≡ true) ↔ IsText r.stale_reason

  stamped-IsCostView :
      (d : Daemon pr W) (now : Time) (o : Option (State pr))
      → d.cost_state ≡ o
      → IsFair d now (freshness_at host d o now)
      → IsCostView d now
          (stamp_freshness (known_cost fields host enc o) (freshness_at host d o now))
  unfolding stamp_freshness freshness_at cost_response
  stamped-IsCostView d now none e fair = record {
    fresh = (λ h. ground arith, λ p. ground arith);
    held = λ st h. ground arith;
    never = λ h. (refl, refl, refl, refl, refl);
    explained = fair.explained;
  }
  stamped-IsCostView d now (some st) e fair = record {
    fresh = (
      λ h. let p = fair.fresh.0 h in (p.0, p.1, p.3),
      λ p.
          fair.fresh.1
            (p.0, p.1, ap (λ s. some s.refresh_at) (ap (state_or st) (sym e ∙ p.1)), p.2),
    );
    held = λ st' h.
        let same = ap (state_or st) (sym e ∙ h) in
        (
          ap (λ s. map (device_cost pr fields) s.cost.devices) same,
          ap (λ s. map (job_cost pr fields) s.cost.jobs) same,
          ap (λ s. some s.refresh_at) same,
          ap (λ s. fl.seconds (age_of now s.refresh_at)) same,
          refl,
        );
    never = λ h. ground arith;
    explained = fair.explained;
  }

  -- `/cost` always answers 200. While metrics are known it holds their devices and jobs, however old
  -- they are, with their time and age; before that it is empty, never collected, with the age since
  -- the start. It is fresh exactly if metrics are known and their age is within the threshold, and
  -- has a reason exactly if it is stale. No refresh runs between its two reads of the daemon.
  pub handle_cost-IsCostView :
      (d : Daemon pr W) (w : W)
      → (r : CostResponse F) × ((handle_cost fields host enc (quiet d) w).0
          ≡ write_json 200 (cost r))
        × IsCostView d (d.now w).0 r
  unfolding handle_cost freshness
  handle_cost-IsCostView d w =
      (_, refl, stamped-IsCostView d _ d.cost_state refl (freshness-IsFair host d w))

  same_text :
      (r : Result String) (text : String)
      → (text_of r ≡ some text)
        ↔ (encoded {F = F} "marshal verdict: " r ≡ write_json 200 (raw text))
  same_text (ok b) text = ground arith
  same_text (err e) text = ground arith

  -- What the answers of the four endpoints have in common, for the daemon's two states.
  abbrev pub Agree :
      Option (State pr) → Option (State pr) → (windowed judged signals costs : Response F) → Type 0
  Agree none o windowed judged signals costs =
      (windowed.status ≡ 503) × (judged.status ≡ 503) × (signals.status ≡ 503)
  Agree (some st) o windowed judged signals costs =
      (b : WindowResponse F) × (windowed ≡ write_json 200 (window b))
      × ((text : String) → (b.verdict ≡ some text) ↔ (judged ≡ write_json 200 (raw text)))
      × (o ≢ none → costs ≡ write_json 200 (cost b.cost))
      × (o ≡ none → (b.cost.stale ≡ true) × (b.cost.never_collected ≡ true))

  held_cost :
      (st : State pr) (o : Option (State pr))
      → o ≢ none
      → known_cost fields host enc o ≡ cost_response fields host enc (state_or st o)
  held_cost st none h = absurd (h refl)
  held_cost st (some st') h = refl

  never_fresh :
      (d : Daemon pr W) (now : Time) (o : Option (State pr))
      → o ≡ none
      → ((freshness_at host d o now).stale ≡ true)
        × ((freshness_at host d o now).never_collected ≡ true)
  unfolding freshness_at
  never_fresh d now none e = (refl, refl)
  never_fresh d now (some st) e = ground arith

  answers-Agree :
      (d : Daemon pr W) (w : W) (o : Option (State pr))
      → Agree o d.cost_state
          (answer_window fields host enc o (quiet d) w).0
          (answer_verdict fields host enc o)
          (answer_signals fields host enc o)
          (handle_cost fields host enc (quiet d) w).0
  unfolding handle_cost freshness stamp_freshness
  answers-Agree d w none = (refl, refl, refl)
  answers-Agree d w (some st) = (
    window_body fields host enc st d.cost_state (freshness host d w).0,
    refl,
    λ text. same_text (marshal_verdict fields host enc st) text,
    λ known.
        ap (λ c. write_json 200 (cost (stamp_freshness c (freshness host d w).0)))
          (held_cost st d.cost_state known),
    λ unknown. never_fresh d (d.now w).0 d.cost_state unknown,
  )

  -- `/window`, `/verdict` and `/signals` answer 503 before the first window. From then on `/window`
  -- answers 200, its verdict is the text that `/verdict` serves with 200 (and there is none if
  -- `/verdict` fails), and its cost block is the body of `/cost` once metrics are known; before that
  -- the block is marked stale and never collected. No refresh runs between the reads.
  pub handlers-Agree :
      (d : Daemon pr W) (w : W)
      → Agree d.state d.cost_state
          (handle_window fields host enc (quiet d) w).0
          (handle_verdict fields host enc (quiet d) w).0
          (handle_signals fields host enc (quiet d) w).0
          (handle_cost fields host enc (quiet d) w).0
  unfolding handle_window handle_verdict handle_signals
  handlers-Agree d w = answers-Agree d w d.state
