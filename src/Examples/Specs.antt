-- ===== src/Examples/Specs.antt =====
-- Witnesses: devices that a spec and the built-in table fill.
use gpufleet_agent.Prelude.{ℕ, ◌≡◌, refl, true, none, some, [], ◌∷◌, map, lookup}
use gpufleet_agent.Spec.{DeviceSpec, spec_fill}
use gpufleet_agent.Spec.Peaks.{model_of, match_model_peak, table_fill}
use gpufleet_agent.Spec.Peaks.Longest.{Answers, match_model_peak-Answers}
use gpufleet_agent.Spec.Precedence.{complete_window, table_fill-spec_fill}
use gpufleet_agent.Examples.{toy, dcgm_report}

-- The operator gives a price for every device, and a peak for one.
abbrev pub spec : DeviceSpec ℕ
spec = record {
  by_uuid = ("GPU-1", record { peak_tflops = 99; cost_per_hour = 0 }) ∷ [];
  by_model = ("*", record { peak_tflops = 0; cost_per_hour = 2 }) ∷ [];
}

table_fill-spec_fill_example :
    (table_fill true (spec_fill spec dcgm_report)).device_windows
    ≡ map (complete_window spec true) dcgm_report.device_windows
table_fill-spec_fill_example = table_fill-spec_fill spec true dcgm_report

match_model_peak-Answers_example :
    Answers ℕ (model_of "NVIDIA H100 NVL") (match_model_peak "NVIDIA H100 NVL")
match_model_peak-Answers_example = match_model_peak-Answers ℕ "NVIDIA H100 NVL"

a100_by_memory :
    match_model_peak {F = ℕ} "NVIDIA A100-SXM4-80GB"
    ≡ some (record { canonical = "A100-80GB"; peak_tflops = 312 })
unfolding match_model_peak toy lookup
a100_by_memory = refl

l40s_before_l40 :
    match_model_peak {F = ℕ} "NVIDIA L40S-48Q"
    ≡ some (record { canonical = "L40S"; peak_tflops = 362 })
unfolding match_model_peak toy lookup
l40s_before_l40 = refl

gb10_unknown : match_model_peak {F = ℕ} "NVIDIA GB10" ≡ none
unfolding match_model_peak toy lookup
gb10_unknown = refl

-- The test for the H100 family does not end at a token.
h100_prefix :
    match_model_peak {F = ℕ} "H1000 Next"
    ≡ some (record { canonical = "H100-SXM"; peak_tflops = 9894 })
unfolding match_model_peak toy lookup
h100_prefix = refl
