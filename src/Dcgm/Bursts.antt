-- ===== src/Dcgm/Bursts.antt =====
-- The rate cap on profiling bursts.
use mathlib.Core.Path.{subst}
use gpufleet_agent.Prelude.{
  ◌^◌, ◌≡◌, refl, sym, ap, ◌∙◌, ◌⊎◌, inl, inr, Bool, true, false, not, Option, none, some, List, [],
  ◌∷◌, if◌then◌else◌, nat_eq, arith,
}
use gpufleet_agent.Prelude.Int.{ℤ, pos, negsuc, ltb_ℤ, ◌+ℤ◌, ◌-ℤ◌, ◌≤ℤ◌, ◌<ℤ◌}
use gpufleet_agent.Wire.{Time, Duration}
use gpufleet_agent.Daemon.{sub_time}
use gpufleet_agent.Dcgm.{
  DcgmExporterCollector, burst_cap_of, too_soon, scrape_allowed, default_profiling_burst_interval,
}

-- The times, among those at which a scrape is tried, at which it is allowed.
unfoldable pub allowed_times : List Time → DcgmExporterCollector → List Time
allowed_times [] c = []
allowed_times (t ∷ ts) c =
    let later = allowed_times ts (scrape_allowed t c).1 in
    if (scrape_allowed t c).0 then t ∷ later else later

-- How far apart bursts must be: the configured time, or 10 ^ 9 ns where none is configured.
abbrev pub gap : Duration → Duration
gap (pos n) = if nat_eq n 0 then pos (10 ^ 9) else pos n
gap (negsuc n) = pos (10 ^ 9)

-- The time is the first, or at least the gap after the one before it.
abbrev pub IsFree : Duration → Option Time → Time → Type 0
IsFree apart none t = Unit
IsFree apart (some last) t = last +ℤ apart ≤ℤ t

-- The time from the one before it, as `Sub` gives it, is less than the gap.
abbrev pub IsEarly : Duration → Option Time → Time → Type 0
IsEarly apart none t = ⊥
IsEarly apart (some last) t = sub_time t last <ℤ apart

-- The chosen ones among the times: each that is free, counted from the one chosen before it.
abbrev pub AreSpaced : Duration → Option Time → List Time → List Time → Type 0
AreSpaced apart last [] chosen = chosen ≡ []
AreSpaced apart last (t ∷ ts) chosen =
    (IsFree apart last t
      × (later : List Time) × (chosen ≡ t ∷ later)
      × AreSpaced apart (some t) ts later)
    ⊎ (IsEarly apart last t × AreSpaced apart last ts chosen)

gap-burst_cap_of : (c : DcgmExporterCollector) → burst_cap_of c ≡ gap c.burst_cap
unfolding burst_cap_of
gap-burst_cap_of c = by_sign c.burst_cap
  where
    by_sign :
        (d : Duration) → (if ltb_ℤ (pos 0) d then d else default_profiling_burst_interval) ≡ gap d
    by_sign (pos n) = ground arith
    by_sign (negsuc n) = ground arith

gap_pos : (d : Duration) → pos 0 <ℤ gap d
gap_pos (pos n) = ground arith
gap_pos (negsuc n) = ground arith

-- `Sub` stops at the bounds of an int64, which does not bring a time within a positive gap.
far_enough :
    (last t apart : ℤ) → pos 0 <ℤ apart → ltb_ℤ (sub_time t last) apart ≡ false → last +ℤ apart ≤ℤ t
unfolding sub_time ◌+ℤ◌ ◌-ℤ◌
far_enough (pos l) (pos t) (pos d) h e = ground arith
far_enough (pos l) (negsuc t) (pos d) h e = ground arith
far_enough (negsuc l) (pos t) (pos d) h e = ground arith
far_enough (negsuc l) (negsuc t) (pos d) h e = ground arith
far_enough l t (negsuc d) h e = ground arith

too_soon-IsFree :
    (last : Option Time) (t : Time) (apart : Duration)
    → pos 0 <ℤ apart
    → too_soon last t apart ≡ false
    → IsFree apart last t
too_soon-IsFree none t apart h e = tt
too_soon-IsFree (some last) t apart h e = far_enough last t apart h e

too_soon-IsEarly :
    (last : Option Time) (t : Time) (apart : Duration)
    → too_soon last t apart ≡ true
    → IsEarly apart last t
too_soon-IsEarly none t apart e = ground arith
too_soon-IsEarly (some last) t apart e = ground arith

abbrev gate : Time → DcgmExporterCollector → Bool × DcgmExporterCollector
gate now c =
    if too_soon c.last_scrape_t now (burst_cap_of c)
    then (false, c)
    else (true, record c { last_scrape_t = some now })

scrape_allowed_bursting :
    (now : Time) (c : DcgmExporterCollector)
    → c.profiling_burst ≡ true
    → scrape_allowed now c ≡ gate now c
unfolding scrape_allowed
scrape_allowed_bursting now c on = ap (λ b. if not b then (true, c) else gate now c) on

-- Off the critical path: whatever the times at which bursts are tried, the allowed ones are, in
-- order, exactly those that are first or come no sooner than the configured time (one second if it is
-- not positive) after the allowed one before, the first one counted from the last scrape before.
-- A time that is not allowed is nearer than that to the allowed one before it, by `Sub`.
pub allowed_times-AreSpaced :
    (ts : List Time) (c : DcgmExporterCollector)
    → c.profiling_burst ≡ true
    → AreSpaced (gap c.burst_cap) c.last_scrape_t ts (allowed_times ts c)
unfolding allowed_times
allowed_times-AreSpaced [] c on = refl
allowed_times-AreSpaced (t ∷ ts) c on =
    subst Spaced (sym (scrape_allowed_bursting t c on ∙ ap by_cap (gap-burst_cap_of c))) (
      gated (too_soon c.last_scrape_t t (gap c.burst_cap)) refl (allowed_times-AreSpaced ts c on)
        (allowed_times-AreSpaced ts (record c { last_scrape_t = some t }) on))
  where
    Spaced : Bool × DcgmExporterCollector → Type 0
    Spaced r =
        AreSpaced (gap c.burst_cap) c.last_scrape_t (t ∷ ts)
          (if r.0 then t ∷ allowed_times ts r.1 else allowed_times ts r.1)

    by_cap : Duration → Bool × DcgmExporterCollector
    by_cap apart =
        if too_soon c.last_scrape_t t apart
        then (false, c)
        else (true, record c { last_scrape_t = some t })

    gated :
        (b : Bool)
        → too_soon c.last_scrape_t t (gap c.burst_cap) ≡ b
        → AreSpaced (gap c.burst_cap) c.last_scrape_t ts (allowed_times ts c)
        → AreSpaced
            (gap c.burst_cap)
            (some t)
            ts
            (allowed_times ts (record c { last_scrape_t = some t }))
        → Spaced (if b then (false, c) else (true, record c { last_scrape_t = some t }))
    gated true e same later = inr (too_soon-IsEarly _ t _ e, same)
    gated false e same later = inl (too_soon-IsFree _ t _ (gap_pos c.burst_cap) e, _, refl, later)
