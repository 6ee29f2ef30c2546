-- ===== src/Dcgm.antt =====
-- collectors_dcgm.go: the state that the DCGM exporter's collector keeps between two scrapes: the
-- time of the last burst, and the last reading of each cumulative counter.
pub mod Deltas
pub mod Bursts
pub mod Exposition
use gpufleet_agent.Prelude.{
  ℕ, String, ◌-◌, Bool, true, false, not, ◌&&◌, Option, none, some, List, [], ◌∷◌, ltb, lookup,
  insert, if◌then◌else◌,
}
use gpufleet_agent.Prelude.Int.{pos, leb_ℤ, ltb_ℤ}
use gpufleet_agent.Wire.{Time, Duration}
use gpufleet_agent.Observation.{DeviceWindow}
use gpufleet_agent.Daemon.{sub_time, second}

-- The fields that the methods below use; `last_scrape_t` is `none` for the zero time.
pub record DcgmExporterCollector : Type 0 where
  pub profiling_burst : Bool
  pub burst_cap : Duration
  pub last_scrape_t : Option Time
  pub prev_dbe : List (String × ℕ)
  pub prev_link_err : List (String × ℕ)

abbrev pub default_profiling_burst_interval : Duration
default_profiling_burst_interval = pos second

unfoldable pub burst_cap_of : DcgmExporterCollector → Duration
burst_cap_of c = if ltb_ℤ (pos 0) c.burst_cap then c.burst_cap else default_profiling_burst_interval

abbrev pub too_soon : Option Time → Time → Duration → Bool
too_soon none now cap = false
too_soon (some last) now cap = ltb_ℤ (sub_time now last) cap

-- `ScrapeAllowed`, when the clock shows `now`.
unfoldable pub scrape_allowed : Time → DcgmExporterCollector → Bool × DcgmExporterCollector
unfolding burst_cap_of
scrape_allowed now c =
    if not c.profiling_burst
    then (true, c)
    else if too_soon c.last_scrape_t now (burst_cap_of c)
    then (false, c)
    else (true, record c { last_scrape_t = some now })

-- A cumulative counter of a device window.
pub record Counter (F : Type 0) : Type 0 where
  pub known : DeviceWindow F → Bool
  pub value : DeviceWindow F → ℕ
  pub set : ℕ → DeviceWindow F → DeviceWindow F

-- The `switch` of both loops.
abbrev pub delta : Option ℕ → ℕ → ℕ
delta none cur = 0
delta (some prev) cur = if ltb cur prev then 0 else cur - prev

module _ {F : Type 0} where
  -- The loop over the windows, with the map of the last readings.
  unfoldable pub apply_delta :
      Counter F
      → List (DeviceWindow F)
      → List (String × ℕ)
      → List (DeviceWindow F) × List (String × ℕ)
  apply_delta k [] prev = ([], prev)
  apply_delta k (dw ∷ dws) prev =
      let kept = apply_delta k dws prev in
      let moved = apply_delta k dws (insert dw.uuid (k.value dw) prev) in
      if not (k.known dw)
      then (dw ∷ kept.0, kept.1)
      else (k.set (delta (lookup dw.uuid prev) (k.value dw)) dw ∷ moved.0, moved.1)

  abbrev pub ecc_total : Counter F
  ecc_total = record {
    known = λ dw. dw.ecc_double_bit_known;
    value = λ dw. dw.ecc_double_bit_errs;
    set = λ n dw. record dw { ecc_double_bit_errs = n };
  }

  abbrev pub link_total : Counter F
  link_total = record {
    known = λ dw. dw.link_errors_known;
    value = λ dw. dw.link_errors;
    set = λ n dw. record dw { link_errors = n };
  }

  -- `applyDBEDelta`
  unfoldable pub apply_dbe_delta :
      List (DeviceWindow F) → DcgmExporterCollector → List (DeviceWindow F) × DcgmExporterCollector
  unfolding apply_delta
  apply_dbe_delta dws c =
      let done = apply_delta ecc_total dws c.prev_dbe in (done.0, record c { prev_dbe = done.1 })

  -- `applyLinkErrDelta`
  unfoldable pub apply_link_err_delta :
      List (DeviceWindow F) → DcgmExporterCollector → List (DeviceWindow F) × DcgmExporterCollector
  unfolding apply_delta
  apply_link_err_delta dws c =
      let done = apply_delta link_total dws c.prev_link_err in
      (done.0, record c { prev_link_err = done.1 })
