-- ===== src/Dcgm/Exposition/Devices.antt =====
-- collectors_dcgm.go: the devices and the series that the samples are gathered into.
use gpufleet_agent.Prelude.{
  ℕ, ◌+◌, ◌%◌, ◌^◌, String, Bool, true, ◌&&◌, ◌||◌, ◌==◌, Option, none, some, List, [], ◌∷◌, ◌++◌,
  length, lookup, insert, keys, if◌then◌else◌,
}
use gpufleet_agent.Prelude.Sort.{sort_strings}
use gpufleet_agent.Prelude.Strings.{◌<>◌, itoa}
use gpufleet_agent.Float.{Float64}
use gpufleet_agent.Wire.{Time, Duration, dcgm, DcgmFieldSeries}
use gpufleet_agent.Observation.{DeviceWindow, Observation, blank_window}
use gpufleet_agent.Semantics.{Result, ok, err}
use gpufleet_agent.Chain.{empty_observation}
use gpufleet_agent.Dcgm.Exposition.{DcgmParsedSample, scan_exposition}

abbrev pub label_of : String → List (String × String) → String
label_of name labels = elim (lookup name labels) [ none ↦ "" | some v ↦ v ]

abbrev pub either_text : String → String → String
either_text s t = if s == "" then t else s

-- The UUID by which a sample is attributed.
abbrev pub uuid_of : List (String × String) → String
uuid_of labels = either_text (label_of "UUID" labels) (label_of "gpu_uuid" labels)

abbrev pub tensor_symbol : String
tensor_symbol = "DCGM_FI_PROF_PIPE_TENSOR_ACTIVE"

abbrev pub ecc_symbol : String
ecc_symbol = "DCGM_FI_DEV_ECC_DBE_VOL_TOTAL"

-- `dcgmFieldIDs`, of the symbols in `dcgmProfilingSymbols`.
abbrev profiling_id : String → Option ℕ
profiling_id s =
    if s == tensor_symbol
    then some 1003
    else if s == "DCGM_FI_PROF_SM_ACTIVE"
    then some 1002
    else if s == "DCGM_FI_PROF_DRAM_ACTIVE"
    then some 1005
    else none

-- `dcgmLinkErrSymbols`
abbrev pub is_link_error : String → Bool
is_link_error s =
    (s == "DCGM_FI_DEV_NVLINK_CRC_FLIT_ERROR_COUNT_TOTAL")
    || (s == "DCGM_FI_DEV_NVLINK_REPLAY_ERROR_COUNT_TOTAL")
    || (s == "DCGM_FI_DEV_PCIE_REPLAY_COUNTER")

-- The two maps of `parseDCGMExposition`.
pub record Parsed (F : Type 0) : Type 0 where
  pub devs : List (String × DeviceWindow F)
  pub series : List (String × DcgmFieldSeries F)

abbrev node_of : String → List (String × String) → String
node_of fallback labels = either_text (label_of "Hostname" labels) fallback

module _ {F : Type 0} ⦃fl : Float64 F⦄ where
  abbrev pub found_or : DeviceWindow F → Option (DeviceWindow F) → DeviceWindow F
  found_or dw none = dw
  found_or dw (some known) = known

  abbrev pub placed : String → String → DeviceWindow F → DeviceWindow F
  placed node model dw = record dw {
    node = either_text dw.node node;
    model = either_text dw.model model;
  }

  -- `get`, which keeps the first node and the first model that are not empty.
  unfoldable pub device_for :
      F → String → String → String → List (String × DeviceWindow F) → DeviceWindow F
  unfolding blank_window
  device_for ws uuid node model devs =
      placed node model
        (found_or (record (blank_window uuid) { window_seconds = ws }) (lookup uuid devs))

  -- The `switch` on the symbol.
  unfoldable pub read_symbol : F → String → F → DeviceWindow F → DeviceWindow F
  read_symbol ws symbol v dw =
      if symbol == tensor_symbol
      then record dw { tensor_active_secs = fl.mul v ws; tensor_active_known = true }
      else if symbol == ecc_symbol
      then (if fl.le fl.zero v
          then record dw { ecc_double_bit_errs = fl.truncate v; ecc_double_bit_known = true }
          else dw)
      else if is_link_error symbol && fl.le fl.zero v
      then record dw {
        link_errors = (dw.link_errors + fl.truncate v) % 2 ^ 64;
        link_errors_known = true;
      }
      else dw

  abbrev extended : Time → F → DcgmFieldSeries F → Option (DcgmFieldSeries F) → DcgmFieldSeries F
  extended now v new none = record new { samples = (now, v) ∷ [] }
  extended now v new (some fs) = record fs { samples = fs.samples ++ (now, v) ∷ [] }

  abbrev series_with :
      Time
      → String
      → DcgmParsedSample F
      → Option ℕ
      → List (String × DcgmFieldSeries F)
      → List (String × DcgmFieldSeries F)
  series_with now uuid s none series = series
  series_with now uuid s (some id) series =
      let key = uuid <> "|" <> s.symbol in
      let new : DcgmFieldSeries F = record {
        device_uuid = uuid;
        field_symbol = s.symbol;
        field_id = id;
        unit = "ratio";
        samples = [];
      } in
      insert key (extended now s.value new (lookup key series)) series

  -- One round of the loop over the samples.
  unfoldable pub take_sample : Time → F → String → DcgmParsedSample F → Parsed F → Parsed F
  unfolding device_for read_symbol
  take_sample now ws fallback s p =
      let uuid = uuid_of s.labels in
      let dw =
        device_for ws uuid (node_of fallback s.labels) (label_of "modelName" s.labels) p.devs in
      if uuid == "" then p else record {
        devs = insert uuid (read_symbol ws s.symbol s.value dw) p.devs;
        series = series_with now uuid s (profiling_id s.symbol) p.series;
      }

  unfoldable pub take_samples : Time → F → String → List (DcgmParsedSample F) → Parsed F → Parsed F
  unfolding take_sample
  take_samples now ws fallback [] p = p
  take_samples now ws fallback (s ∷ ss) p =
      take_samples now ws fallback ss (take_sample now ws fallback s p)

-- The values of a map in the order of its keys.
abbrev pub value_at {ℓ} : {V : Type ℓ} → Option V → List V
value_at none = []
value_at (some v) = v ∷ []

unfoldable pub in_order {ℓ} : {V : Type ℓ} → List (String × V) → List String → List V
in_order entries [] = []
in_order entries (k ∷ ks) = value_at (lookup k entries) ++ in_order entries ks

module _ {F : Type 0} ⦃fl : Float64 F⦄ where
  unfoldable pub exposition_observation : ℕ → Parsed F → Observation F
  unfolding in_order
  exposition_observation count p = record (empty_observation dcgm) {
    provenance =
        insert "exposition_fields" (itoa count) (insert "source" "dcgm-exporter-scrape" []);
    device_windows = in_order p.devs (sort_strings (keys p.devs));
    dcgm_series = in_order p.series (sort_strings (keys p.series));
  }

  abbrev pub exposition_parsed :
      Time → F → String → Result (List (DcgmParsedSample F)) → Result (Observation F)
  exposition_parsed now ws fallback (err e) = err e
  exposition_parsed now ws fallback (ok samples) = ok (
      exposition_observation (length samples)
        (take_samples now ws fallback samples (record { devs = []; series = [] })))

  -- `parseDCGMExposition`
  unfoldable pub parse_dcgm_exposition :
      Result String → Time → Duration → String → Result (Observation F)
  unfolding scan_exposition take_samples exposition_observation
  parse_dcgm_exposition body now window fallback =
      exposition_parsed now (fl.seconds window) fallback (scan_exposition body)
