-- ===== src/Spec/Peaks.antt =====
-- gpu_peak_table.go: the built-in peaks by model, and the collector that fills a peak from them.
pub mod Longest
use Prim.Native.Char.{code}
use Prim.Native.String
use gpufleet_agent.Prelude.{
  ℕ, ◌+◌, suc, ◌≡◌, refl, String, Bool, true, false, not, ◌&&◌, ◌||◌, ◌==◌, Option, none, some,
  List, [], ◌∷◌, ◌++◌, map, nat_eq, ltb, lookup, insert, keys, if◌then◌else◌,
}
use gpufleet_agent.Prelude.Sort.{sort_strings}
use gpufleet_agent.Prelude.Strings.{◌<>◌, join}
use gpufleet_agent.Prelude.Text.{
  trim_space, trim_prefix, has_prefix, contains, is_digit, text_length,
}
use gpufleet_agent.Prelude.Pattern.{
  followed, group, some_of, digit, many, blank, literally, find_match, group_1,
}
use gpufleet_agent.Float.{Float64}
use gpufleet_agent.Observation.{DeviceWindow, Observation}
use gpufleet_agent.Spec.{norm_model, Filled, one_if, nothing_filled, derives, fill_peak, stamp_if}

-- `gpuPeakEntry`
pub record GpuPeakEntry (F : Type 0) : Type 0 where
  pub canonical : String
  pub peak_tflops : F

module _ {F : Type 0} ⦃fl : Float64 F⦄ where
  abbrev peak : String → String → ℕ → ℕ → String × GpuPeakEntry F
  peak key name n digits = (key, record { canonical = name; peak_tflops = fl.literal n digits })

  unfoldable pub builtin_gpu_peaks : List (String × GpuPeakEntry F)
  builtin_gpu_peaks =
      peak "a10" "A10" 125 0
      ∷ peak "a100-40gb" "A100-40GB" 312 0
      ∷ peak "a100-80gb" "A100-80GB" 312 0
      ∷ peak "h100-sxm" "H100-SXM" 9894 1
      ∷ peak "h100-pcie" "H100-PCIe" 756 0
      ∷ peak "h100-nvl" "H100-NVL" 835 0
      ∷ peak "h200" "H200" 9894 1
      ∷ peak "gh200" "GH200" 9894 1
      ∷ peak "l4" "L4" 121 0
      ∷ peak "l40" "L40" 181 0
      ∷ peak "l40s" "L40S" 362 0
      ∷ peak "v100" "V100" 125 0
      ∷ peak "t4" "T4" 65 0
      ∷ peak "a6000" "A6000" 155 0
      ∷ peak "b200" "B200" 2250 0
      ∷ []

-- `builtinTablePeakSource`
unfoldable pub builtin_table_peak_source : String → String
builtin_table_peak_source canonical = "builtin-table:" <> canonical <> "@fp16-dense"

-- `sku100CapRe.FindStringSubmatch`: the group of the match.
unfoldable pub capacity_of : String → Option String
unfolding find_match
capacity_of n =
    group_1
      (find_match (followed (group (some_of digit)) (followed (many blank) (literally "gb"))) n)

-- Other vendor prefixes.
unfoldable pub strip_vendors : List String → String → String
unfolding trim_space trim_prefix
strip_vendors [] n = n
strip_vendors (p ∷ ps) n = strip_vendors ps (trim_space (trim_prefix n p))

abbrev pub model_of : String → String
model_of model = strip_vendors ("tesla " ∷ "rtx " ∷ "quadro " ∷ []) (norm_model model)

abbrev pub starts_token : String → String → Bool
starts_token n k = (n == k) || has_prefix n (k <> " ") || has_prefix n (k <> "-")

abbrev pub a100_key : Option String → String
a100_key none = "a100-40gb"
a100_key (some digits) = if digits == "80" then "a100-80gb" else "a100-40gb"

abbrev pub h100_key : String → String
h100_key n =
    if contains n "nvl"
    then "h100-nvl"
    else if contains n "pcie" || contains n "pci-e"
    then "h100-pcie"
    else "h100-sxm"

module _ {F : Type 0} where
  -- The key and the entry of the best candidate so far; the key is empty at the start.
  abbrev pub key_length : Option (String × GpuPeakEntry F) → ℕ
  key_length none = 0
  key_length (some (k, e)) = text_length k

  unfoldable pub longest :
      String
      → List (String × GpuPeakEntry F)
      → Option (String × GpuPeakEntry F)
      → Option (String × GpuPeakEntry F)
  unfolding has_prefix
  longest n [] best = best
  longest n ((k, e) ∷ rest) best =
      longest n rest
        (if starts_token n k && ltb (key_length best) (text_length k) then some (k, e) else best)

  abbrev pub entry_in : Option (String × GpuPeakEntry F) → Option (GpuPeakEntry F)
  entry_in none = none
  entry_in (some (k, e)) = some e

-- `filled` and `derivedAchieved`, `filledByModel` and `filledUUIDs`.
pub record TableFilled : Type 0 where
  pub counts : Filled
  pub models : List (String × Bool)

module _ {F : Type 0} ⦃fl : Float64 F⦄ where
  abbrev pub match_fuzzy : String → Option (GpuPeakEntry F)
  match_fuzzy n =
      if (n == "a100") || has_prefix n "a100-" || has_prefix n "a100 "
      then lookup (a100_key (capacity_of n)) builtin_gpu_peaks
      else if has_prefix n "h100"
      then lookup (h100_key n) builtin_gpu_peaks
      else entry_in (longest n builtin_gpu_peaks none)

  abbrev pub match_normalized : String → Option (GpuPeakEntry F) → Option (GpuPeakEntry F)
  match_normalized n (some e) = some e
  match_normalized n none = match_fuzzy n

  -- `matchModelPeak`
  unfoldable pub match_model_peak : String → Option (GpuPeakEntry F)
  unfolding builtin_gpu_peaks longest capacity_of strip_vendors norm_model contains
  match_model_peak model =
      let n = model_of model in
      if n == "" then none else match_normalized n (lookup n builtin_gpu_peaks)

  -- The entry by which a window is filled.
  abbrev pub table_entry : DeviceWindow F → Option (GpuPeakEntry F) → Option (GpuPeakEntry F)
  table_entry dw matched =
      if dw.peak_flops_known then none else if dw.model == "" then none else matched

  unfoldable pub fill_from : Option (GpuPeakEntry F) → DeviceWindow F → DeviceWindow F
  unfolding fill_peak
  fill_from none dw = dw
  fill_from (some e) dw = fill_peak (fl.mul e.peak_tflops fl.tera) dw

  abbrev pub count_from : Option (GpuPeakEntry F) → DeviceWindow F → TableFilled → TableFilled
  count_from none dw f = f
  count_from (some e) dw f = record {
    counts = record f.counts {
      peak = f.counts.peak + 1;
      achieved = f.counts.achieved + one_if (derives dw);
      uuids = f.counts.uuids ++ dw.uuid ∷ [];
    };
    models = insert e.canonical true f.models;
  }

  unfoldable pub table_windows :
      List (DeviceWindow F) → TableFilled → List (DeviceWindow F) × TableFilled
  unfolding fill_from match_model_peak
  table_windows [] f = ([], f)
  table_windows (dw ∷ dws) f =
      let found = table_entry dw (match_model_peak dw.model) in
      let rest = table_windows dws (count_from found dw f) in (fill_from found dw ∷ rest.0, rest.1)

unfoldable pub stamp_table : Filled → List String → List (String × String) → List (String × String)
unfolding builtin_table_peak_source
stamp_table f models p = insert "builtin.filled_devices" (join "," (sort_strings f.uuids)) (
    stamp_if (ltb 0 f.achieved) "spec.achieved_flops.source"
      "derived:tensor-active*builtin-table-peak"
      (insert "builtin.peak.source" (join "," (map builtin_table_peak_source (sort_strings models)))
        p))

module _ {F : Type 0} ⦃fl : Float64 F⦄ where
  -- `PeakTableCollector.Collect`, on what the inner collector answered.
  unfoldable pub table_fill : Bool → Observation F → Observation F
  unfolding table_windows stamp_table
  table_fill enabled o =
      let filled =
        table_windows o.device_windows (record { counts = nothing_filled; models = [] }) in
      if not enabled then o else record o {
        device_windows = filled.0;
        provenance =
            if nat_eq filled.1.counts.peak 0
            then o.provenance
            else stamp_table filled.1.counts (keys filled.1.models) o.provenance;
      }
