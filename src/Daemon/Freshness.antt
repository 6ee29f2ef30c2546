-- ===== src/Daemon/Freshness.antt =====
-- daemon.go: `Freshness`, which reads the cost-bearing state against the wall clock.
use gpufleet_agent.Prelude.{
  ℕ, String, ◌≡◌, ◌↔◌, refl, sym, ap, inl, inr, Bool-cases, ◌-◌, ◌%◌, Bool, true, false, Option,
  none, some, ◌==◌, arith, if◌then◌else◌,
}
use gpufleet_agent.Prelude.Int.{pos, negsuc, ltb_ℤ, ◌≤ℤ◌, ◌<ℤ◌}
use gpufleet_agent.Prelude.Strings.{◌<>◌, IsText, IsText-append, nonempty-IsText}
use gpufleet_agent.Wire.{Time, Duration}
use gpufleet_agent.Semantics.{Pricing}
use gpufleet_agent.Daemon.{
  Host, State, Daemon, DaemonConfig, sub_time, default_staleness_after, staleness_floor, new_daemon,
}

-- `neverCollectedReason`
unfoldable pub never_collected_reason : String → String
never_collected_reason last_reason =
    if last_reason == ""
    then "never collected: no successful metrics scrape since startup"
    else "never collected: no successful metrics scrape since startup (" <> last_reason <> ")"

-- `CollectedAt` is the zero time where it is `none`.
pub record Freshness : Type 0 where
  pub has_data : Bool
  pub never_collected : Bool
  pub collected_at : Option Time
  pub age : Duration
  pub stale : Bool
  pub reason : String
  pub staleness_after : Duration
  pub consec_fails : ℕ

-- The clock-skew guard.
unfoldable pub age_of : Time → Time → Duration
age_of now since = if ltb_ℤ (sub_time now since) (pos 0) then pos 0 else sub_time now since

-- `age.Truncate(time.Millisecond)`, of an age that is not negative.
abbrev truncate_ms : Duration → Duration
truncate_ms (pos n) = pos (n - n % 1000000)
truncate_ms (negsuc n) = negsuc n

unfoldable pub old_reason : (Duration → String) → Duration → Duration → String → String
old_reason text age staleness_after reason =
    if reason == ""
    then "data age "
      <> text (truncate_ms age)
      <> " exceeds staleness threshold "
      <> text staleness_after
    else reason

IsText-old_reason :
    (text : Duration → String) (age after : Duration) (reason : String)
    → IsText (old_reason text age after reason)
unfolding old_reason
IsText-old_reason text age after reason = elim (Bool-cases (reason == "")) [
  | inl empty ↦ rw empty (IsText-append "data age " _ tt)
  | inr given ↦ rw given (nonempty-IsText reason given)
]

IsText-never_collected_reason : (reason : String) → IsText (never_collected_reason reason)
unfolding never_collected_reason
IsText-never_collected_reason reason = elim (Bool-cases (reason == "")) [
  | inl empty ↦ rw empty tt
  | inr given ↦
      rw given (IsText-append "never collected: no successful metrics scrape since startup (" _ tt)
]

age_of-aged : (now since : Time) → pos 0 ≤ℤ age_of now since
unfolding age_of
age_of-aged now since = ground arith

within :
    (now s t : Time) (after : Duration)
    → some s ≡ some t
    → age_of now t ≤ℤ after
    → ltb_ℤ after (age_of now s) ≡ false
within now s t after e h = ground arith

stale_reason :
    (stale : Bool) (reason : String)
    → IsText reason
    → (stale ≡ true) ↔ IsText (if stale then reason else "")
stale_reason true reason h = (λ _. h, λ _. refl)
stale_reason false reason h = (λ e. ground arith, λ t. elim t [ ])

abbrev pub collected_or : {F : Type 0} {pr : Pricing F} → Time → Option (State pr) → Time
collected_or started none = started
collected_or started (some st) = st.refresh_at

module _ {F W : Type 0} {pr : Pricing F} where
  unfoldable pub freshness_at : Host F W → Daemon pr W → Option (State pr) → Time → Freshness
  unfolding age_of never_collected_reason old_reason
  freshness_at host d none now = record {
    has_data = false;
    never_collected = true;
    collected_at = none;
    age = age_of now d.started_at;
    stale = true;
    reason = never_collected_reason d.last_reason;
    staleness_after = d.staleness_after;
    consec_fails = d.consec_fails;
  }
  freshness_at host d (some st) now =
      let age = age_of now st.refresh_at in
      let stale = ltb_ℤ d.staleness_after age in
      record {
        has_data = true;
        never_collected = false;
        collected_at = some st.refresh_at;
        age = age;
        stale = stale;
        reason =
            if stale then old_reason host.duration_text age d.staleness_after d.last_reason else "";
        staleness_after = d.staleness_after;
        consec_fails = d.consec_fails;
      }

  unfoldable pub freshness : Host F W → Daemon pr W → W → Freshness × W
  unfolding freshness_at
  freshness host d w = let at = d.now w in (freshness_at host d d.cost_state at.0, at.1)

  -- What a freshness verdict says of the daemon at a time.
  pub record IsFair (d : Daemon pr W) (now : Time) (f : Freshness) : Type 0 where
    -- Fresh exactly if metrics were collected, at the time it names, and the age since then is
    -- within the threshold.
    pub fresh : (f.stale ≡ false) ↔ (
        (st : State pr) × (d.cost_state ≡ some st)
        × (f.collected_at ≡ some st.refresh_at)
        × (age_of now st.refresh_at ≤ℤ d.staleness_after))
    -- The age is taken since the time of the metrics, or since the start if there are none.
    pub since : f.age ≡ age_of now (collected_or d.started_at d.cost_state)
    -- A verdict has a reason exactly if it is stale.
    pub explained : (f.stale ≡ true) ↔ IsText f.reason
    pub aged : pos 0 ≤ℤ f.age

  -- The verdict of `Freshness` is fair: it is fresh exactly if a metrics-bearing window was published
  -- and its age by the clock now, a negative age counting as zero, is within the threshold; for an
  -- agent that never collected, the age is taken since its start; a verdict has a reason exactly if
  -- it is stale; no age is negative.
  pub freshness-IsFair :
      (host : Host F W) (d : Daemon pr W) (w : W) → IsFair d (d.now w).0 (freshness host d w).0
  unfolding freshness
  freshness-IsFair host d w = by_cost d.cost_state refl
    where
      by_cost :
          (o : Option (State pr))
          → d.cost_state ≡ o
          → IsFair d (d.now w).0 (freshness_at host d o (d.now w).0)
      by_cost none e = record {
        fresh = ground arith;
        since = ap (λ o. age_of (d.now w).0 (collected_or d.started_at o)) (sym e);
        explained = (λ _. IsText-never_collected_reason d.last_reason, λ _. refl);
        aged = age_of-aged (d.now w).0 d.started_at;
      }
      by_cost (some st) e = record {
        fresh = (
          λ h. (st, e, refl, ground arith),
          λ p. within (d.now w).0 st.refresh_at p.0.refresh_at d.staleness_after p.2 p.3,
        );
        since = ap (λ o. age_of (d.now w).0 (collected_or d.started_at o)) (sym e);
        explained = stale_reason _ _ (
            IsText-old_reason host.duration_text (age_of (d.now w).0 st.refresh_at)
              d.staleness_after d.last_reason);
        aged = age_of-aged (d.now w).0 st.refresh_at;
      }

  -- Whatever the configuration, the threshold and the window of a new daemon are positive, and a
  -- threshold that is not configured is at least five seconds, even where three windows overflow.
  pub new_daemon-positive :
      (host : Host F W) (cfg : DaemonConfig pr W) (w : W)
      → (pos 0 <ℤ (new_daemon host cfg w).0.staleness_after)
        × (pos 0 <ℤ (new_daemon host cfg w).0.window)
        × (staleness_floor ≤ℤ default_staleness_after cfg.window)
  unfolding new_daemon default_staleness_after
  new_daemon-positive host cfg w = (ground arith, ground arith, ground arith)
