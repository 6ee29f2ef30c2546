-- ===== src/Examples/Readers.antt =====
-- Witnesses: two readers of the same devices.
use mathlib.Core.List.{Permᴰ}
use gpufleet_agent.Prelude.{
  ℕ, String, ◌≡◌, refl, sym, ap, ◌∙◌, inl, inr, eq_iff, List, [], ◌∷◌, arith,
}
use gpufleet_agent.Prelude.Order.{str_le}
use gpufleet_agent.Semantics.{ok}
use gpufleet_agent.Evidence.{DeviceMetrics, EvidenceReader, collect, mock_read, sort_devices}
use gpufleet_agent.Evidence.Ordered.{IsNamed, collect-perm}
use gpufleet_agent.Examples.{toy}

abbrev device : String → DeviceMetrics ℕ
device uuid = record {
  uuid = uuid;
  node = "n1";
  model = "A10";
  window_seconds = 60;
  achieved_flops = 6;
  tensor_active_secs = 42;
  ecc_double_bit_errs = 0;
  xids = [];
}

abbrev listing : List (DeviceMetrics ℕ) → EvidenceReader ℕ ℕ
listing devices w = (ok (record { source = "test"; devices = devices }), w)

abbrev forth : List (DeviceMetrics ℕ)
forth = device "GPU-1" ∷ device "GPU-2" ∷ []

abbrev back : List (DeviceMetrics ℕ)
back = device "GPU-2" ∷ device "GPU-1" ∷ []

differ : (device "GPU-1").uuid ≡ (device "GPU-2").uuid → ⊥
differ e = ground (arith, (eq_iff "GPU-1" "GPU-2").1 e)

abbrev uuid_of : DeviceMetrics ℕ → String
uuid_of d = d.uuid

forth-IsNamed : IsNamed forth
forth-IsNamed x y (inl p) (inl q) e = sym p ∙ q
forth-IsNamed x y (inl p) (inr (inl q)) e = absurd (differ (ap uuid_of p ∙ e ∙ sym (ap uuid_of q)))
forth-IsNamed x y (inr (inl p)) (inl q) e =
    absurd (differ (ap uuid_of q ∙ sym e ∙ sym (ap uuid_of p)))
forth-IsNamed x y (inr (inl p)) (inr (inl q)) e = sym p ∙ q
forth-IsNamed x y (inr (inr p)) q e = absurd p
forth-IsNamed x y (inl p) (inr (inr q)) e = absurd q
forth-IsNamed x y (inr (inl p)) (inr (inr q)) e = absurd q

collect-perm_example : (collect (listing forth) 7).0 ≡ (collect (listing back) 7).0
collect-perm_example =
    collect-perm (listing forth) (listing back) 7 "test" forth back refl refl (Permᴰ.swap refl refl)
      forth-IsNamed

-- The mock reader lists its devices in order.
mock_test : (collect (mock_read {F = ℕ} {W = ℕ} "") 7).0 ≡ (mock_read {F = ℕ} {W = ℕ} "" 7).0
unfolding collect mock_read sort_devices str_le
mock_test = refl
