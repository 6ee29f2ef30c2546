-- ===== src/Examples/Counters.antt =====
-- Witnesses: bursts that come too fast, and counters over several scrapes.
use gpufleet_agent.Prelude.{ℕ, ◌+◌, ◌≡◌, refl, true, none, List, [], ◌∷◌, lookup, insert, arith}
use gpufleet_agent.Prelude.Int.{pos}
use gpufleet_agent.Wire.{Time}
use gpufleet_agent.Observation.{DeviceWindow}
use gpufleet_agent.Dcgm.{DcgmExporterCollector, ecc_total, apply_delta, apply_dbe_delta}
use gpufleet_agent.Dcgm.Bursts.{allowed_times, AreSpaced, allowed_times-AreSpaced}
use gpufleet_agent.Dcgm.Deltas.{readings_of, dbe_scrapes, total, total-dbe_scrapes}
use gpufleet_agent.Examples.{ecc_window}

abbrev collector : DcgmExporterCollector
collector = record {
  profiling_burst = true;
  burst_cap = pos 10;
  last_scrape_t = none;
  prev_dbe = ("GPU-1", 3) ∷ [];
  prev_link_err = [];
}

abbrev times : List Time
times = pos 1 ∷ pos 5 ∷ pos 12 ∷ []

allowed_times-AreSpaced_example : AreSpaced (pos 10) none times (allowed_times times collector)
allowed_times-AreSpaced_example = allowed_times-AreSpaced times collector refl

abbrev reading : ℕ → DeviceWindow ℕ
reading n = record ecc_window { ecc_double_bit_errs = n; link_errors = n; link_errors_known = true }

abbrev scrapes : List (List (DeviceWindow ℕ))
scrapes = (reading 4 ∷ []) ∷ (reading 4 ∷ []) ∷ (reading 9 ∷ []) ∷ []

dbe_scrapes_test : readings_of ecc_total "GPU-1" (dbe_scrapes scrapes collector) ≡ 1 ∷ 0 ∷ 5 ∷ []
unfolding dbe_scrapes apply_dbe_delta apply_delta lookup insert
dbe_scrapes_test = refl

total-dbe_scrapes_example :
    3 + total (readings_of ecc_total "GPU-1" (dbe_scrapes scrapes collector)) ≡ 9
unfolding lookup
total-dbe_scrapes_example =
    total-dbe_scrapes scrapes collector "GPU-1" 3 refl
      (omega arith, (omega arith, (omega arith, tt)))
