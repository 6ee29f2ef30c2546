-- ===== src/Merge/FirstKnown.antt =====
-- What a merge of many windows gives: for each field the first value that a source knows.
use gpufleet_agent.Prelude.{ℕ, ◌≡◌, Bool, true, false, Option, none, some, List, [], ◌∷◌, arith}
use gpufleet_agent.Float.{Float64}
use gpufleet_agent.Observation.{DeviceWindow}
use gpufleet_agent.Merge.{merge_device_window, merge_all}

-- A value with its flag, as an option.
abbrev pub reading {ℓ} : {A : Type ℓ} → Bool → A → Option A
reading true a = some a
reading false a = none

-- The first reading of a list.
abbrev pub or_else {ℓ} : {A : Type ℓ} → Option A → Option A → Option A
or_else none o = o
or_else (some a) o = some a

module _ {F : Type 0} where
  abbrev pub achieved : DeviceWindow F → Option F
  achieved w = reading w.achieved_flops_known w.achieved_flops

  abbrev pub tensor : DeviceWindow F → Option F
  tensor w = reading w.tensor_active_known w.tensor_active_secs

  abbrev pub peak : DeviceWindow F → Option F
  peak w = reading w.peak_flops_known w.peak_flops

  abbrev pub cost : DeviceWindow F → Option F
  cost w = reading w.cost_known w.cost_per_hour

  abbrev pub ecc : DeviceWindow F → Option ℕ
  ecc w = reading w.ecc_double_bit_known w.ecc_double_bit_errs

  abbrev pub links : DeviceWindow F → Option ℕ
  links w = reading w.link_errors_known w.link_errors

  abbrev pub first_known {ℓ} :
      {A : Type ℓ} → (DeviceWindow F → Option A) → List (DeviceWindow F) → Option A
  first_known f [] = none
  first_known f (w ∷ ws) = or_else (f w) (first_known f ws)

-- The readings of a merge are the first readings of the windows merged, the target's before them.
pub record FirstKnown {F : Type 0} (r dst : DeviceWindow F) (ws : List (DeviceWindow F))
    : Type 0 where
  pub same_device : r.uuid ≡ dst.uuid
  pub achieved_first : achieved r ≡ or_else (achieved dst) (first_known achieved ws)
  pub tensor_first : tensor r ≡ or_else (tensor dst) (first_known tensor ws)
  pub peak_first : peak r ≡ or_else (peak dst) (first_known peak ws)
  pub cost_first : cost r ≡ or_else (cost dst) (first_known cost ws)
  pub ecc_first : ecc r ≡ or_else (ecc dst) (first_known ecc ws)
  pub links_first : links r ≡ or_else (links dst) (first_known links ws)

module _ {F : Type 0} ⦃fl : Float64 F⦄ where
  merge_device_window-FirstKnown :
      (dst w : DeviceWindow F) → FirstKnown (merge_device_window dst w) dst (w ∷ [])
  unfolding merge_device_window
  merge_device_window-FirstKnown dst w = ground arith

  FirstKnown-cons :
      (r mid dst w : DeviceWindow F) (ws : List (DeviceWindow F))
      → FirstKnown mid dst (w ∷ [])
      → FirstKnown r mid ws
      → FirstKnown r dst (w ∷ ws)
  FirstKnown-cons r mid dst w ws f g = ground arith

  -- Whatever the number of sources and their order, each of the six measured fields of the merged
  -- window is known exactly if some source knows it, and has the value of the first that does; a
  -- later source never replaces it.
  pub merge_all-FirstKnown :
      (dst : DeviceWindow F) (ws : List (DeviceWindow F)) → FirstKnown (merge_all dst ws) dst ws
  unfolding merge_all
  merge_all-FirstKnown dst [] = ground arith
  merge_all-FirstKnown dst (w ∷ ws) =
      FirstKnown-cons _ _ dst w ws (merge_device_window-FirstKnown dst w)
        (merge_all-FirstKnown (merge_device_window dst w) ws)
