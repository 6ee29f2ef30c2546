-- ===== src/Gather/Merged.antt =====
-- What the map `merged` holds after the first loop: for each device the merge of all the windows
-- that name it, in the order of the observations.
use gpufleet_agent.Prelude.{
  String, ◌≡◌, refl, sym, ap, ◌∙◌, Bool-cases, Option, none, some, List, [], ◌∷◌, ◌++◌, inl, inr,
  ◌==◌, eq_iff, if◌then◌else◌, lookup, lookup-insert,
}
use gpufleet_agent.Float.{Float64}
use gpufleet_agent.Observation.{DeviceWindow, blank_window, Observation}
use gpufleet_agent.Merge.{merge_device_window, merge_all}
use gpufleet_agent.Gather.{
  Gathered, known_or_blank, merge_into, gather_one, gather_from, nothing_gathered,
}

module _ {F : Type 0} where
  -- The windows of one device.
  abbrev pub windows_of : String → List (DeviceWindow F) → List (DeviceWindow F)
  windows_of u [] = []
  windows_of u (dw ∷ dws) = if dw.uuid == u then dw ∷ windows_of u dws else windows_of u dws

  abbrev pub reports_of : String → List (Observation F) → List (DeviceWindow F)
  reports_of u [] = []
  reports_of u (o ∷ os) = windows_of u o.device_windows ++ reports_of u os

module _ {F : Type 0} ⦃fl : Float64 F⦄ where
  extend : String → Option (DeviceWindow F) → List (DeviceWindow F) → Option (DeviceWindow F)
  extend u o [] = o
  extend u o (w ∷ ws) = extend u (some (merge_device_window (known_or_blank u o) w)) ws

  extend-append :
      (u : String) (o : Option (DeviceWindow F)) (vs ws : List (DeviceWindow F))
      → extend u o (vs ++ ws) ≡ extend u (extend u o vs) ws
  unfolding extend
  extend-append u o [] ws = refl
  extend-append u o (v ∷ vs) ws =
      extend-append u (some (merge_device_window (known_or_blank u o) v)) vs ws

  lookup-merge_into :
      (u : String) (dws : List (DeviceWindow F)) (merged : List (String × DeviceWindow F))
      → lookup u (merge_into dws merged) ≡ extend u (lookup u merged) (windows_of u dws)
  unfolding merge_into extend
  lookup-merge_into u [] merged = refl
  lookup-merge_into u (dw ∷ dws) merged = elim (Bool-cases (dw.uuid == u)) [
    | inl same ↦ rw (lookup-merge_into u dws, lookup-insert, same, (eq_iff _ _).0 same) refl
    | inr other ↦ rw (lookup-merge_into u dws, lookup-insert, other) refl
  ]

  lookup-gather_from :
      (u : String) (g : Gathered F) (os : List (Observation F))
      → lookup u (gather_from g os).merged ≡ extend u (lookup u g.merged) (reports_of u os)
  unfolding gather_from gather_one extend
  lookup-gather_from u g [] = refl
  lookup-gather_from u g (o ∷ os) =
      lookup-gather_from u (gather_one g o) os
      ∙ ap (λ m. extend u m (reports_of u os)) (lookup-merge_into u o.device_windows g.merged)
      ∙ sym (extend-append u (lookup u g.merged) (windows_of u o.device_windows) (reports_of u os))

  extend-some :
      (u : String) (dw : DeviceWindow F) (ws : List (DeviceWindow F))
      → extend u (some dw) ws ≡ some (merge_all dw ws)
  unfolding extend merge_all
  extend-some u dw [] = refl
  extend-some u dw (w ∷ ws) = extend-some u (merge_device_window dw w) ws

  -- The merge of the reports of a device, `none` where no observation names it.
  abbrev pub merged_reports : String → List (DeviceWindow F) → Option (DeviceWindow F)
  merged_reports u [] = none
  merged_reports u (w ∷ ws) = some (merge_all (blank_window u) (w ∷ ws))

  -- After the first loop the map holds, for each device, the merge of its windows over all
  -- observations in order, and nothing for a device that no observation names.
  pub lookup-gathered :
      (u : String) (obs : List (Observation F))
      → lookup u (gather_from nothing_gathered obs).merged ≡ merged_reports u (reports_of u obs)
  unfolding lookup extend merge_all
  lookup-gathered u obs = lookup-gather_from u nothing_gathered obs ∙ start (reports_of u obs)
    where
      start : (ws : List (DeviceWindow F)) → extend u none ws ≡ merged_reports u ws
      start [] = refl
      start (w ∷ ws) = extend-some u (merge_device_window (blank_window u) w) ws
