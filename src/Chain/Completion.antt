-- ===== src/Chain/Completion.antt =====
-- What `mergeFallback` does to the primary's windows.
use gpufleet_agent.Prelude.{
  String, ◌≡◌, refl, sym, ap, ◌∙◌, Bool, true, false, ◌||◌, Option, none, some, List, [], ◌∷◌, ◌++◌,
  ◌==◌, append-nil, append_assoc, eq_iff, inl, inr, Bool-cases, arith, if◌then◌else◌,
}
use gpufleet_agent.Float.{Float64}
use gpufleet_agent.Observation.{DeviceWindow}
use gpufleet_agent.Merge.{merge_device_window, merge_all}
use gpufleet_agent.Merge.FirstKnown.{FirstKnown, merge_all-FirstKnown}
use gpufleet_agent.Chain.{merge_last, complete}

module _ {F : Type 0} where
  -- Some window is of device `u`.
  abbrev pub has_device : String → List (DeviceWindow F) → Bool
  has_device u [] = false
  has_device u (w ∷ ws) = (w.uuid == u) || has_device u ws

  -- The windows of device `u`, in order.
  abbrev pub of_device : String → List (DeviceWindow F) → List (DeviceWindow F)
  of_device u [] = []
  of_device u (w ∷ ws) = let rest = of_device u ws in if w.uuid == u then w ∷ rest else rest

  -- The fallback's windows whose device the primary does not have, in order.
  abbrev pub unclaimed : List (DeviceWindow F) → List (DeviceWindow F) → List (DeviceWindow F)
  unclaimed dws [] = []
  unclaimed dws (w ∷ ws) =
      let rest = unclaimed dws ws in if has_device w.uuid dws then rest else w ∷ rest

module _ {F : Type 0} ⦃fl : Float64 F⦄ where
  -- Window by window, in the same order: a window whose device has a later one stays as it is; any
  -- other is merged with all of the fallback's windows of its device.
  abbrev pub AreCompleted :
      List (DeviceWindow F) → List (DeviceWindow F) → List (DeviceWindow F) → Type 0
  AreCompleted fdws [] [] = Unit
  AreCompleted fdws (dw ∷ dws) (dw' ∷ dws') =
      let ws = if has_device dw.uuid dws then [] else of_device dw.uuid fdws in
      ((dw' ≡ merge_all dw ws) × FirstKnown dw' dw ws) × AreCompleted fdws dws dws'
  AreCompleted fdws _ _ = ⊥

  abbrev completed : List (DeviceWindow F) → List (DeviceWindow F) → List (DeviceWindow F)
  completed fdws [] = []
  completed fdws (dw ∷ dws) =
      merge_all dw (if has_device dw.uuid dws then [] else of_device dw.uuid fdws)
      ∷ completed fdws dws

  completed-AreCompleted :
      (fdws dws : List (DeviceWindow F)) → AreCompleted fdws dws (completed fdws dws)
  completed-AreCompleted fdws [] = tt
  completed-AreCompleted fdws (dw ∷ dws) =
      ((refl, merge_all-FirstKnown dw _), completed-AreCompleted fdws dws)

  -- A window of a device that the primary does not have changes nothing.
  completed_other :
      (fdw : DeviceWindow F) (fdws dws : List (DeviceWindow F))
      → has_device fdw.uuid dws ≡ false
      → completed (fdw ∷ fdws) dws ≡ completed fdws dws
  completed_other fdw fdws [] e = refl
  completed_other fdw fdws (dw ∷ dws) e =
      let other : (fdw.uuid == dw.uuid) ≡ false =
        ground (arith, eq_iff dw.uuid fdw.uuid, eq_iff fdw.uuid dw.uuid) in
      rw (other, completed_other fdw fdws dws (ground arith)) refl

  completed_nothing : (dws : List (DeviceWindow F)) → completed [] dws ≡ dws
  unfolding merge_all
  completed_nothing [] = refl
  completed_nothing (dw ∷ dws) = elim (Bool-cases (has_device dw.uuid dws)) [
    | inl e ↦ rw (e, completed_nothing dws) refl
    | inr e ↦ rw (e, completed_nothing dws) refl
  ]

  unclaimed_same :
      (old new : List (DeviceWindow F))
      → ((u : String) → has_device u old ≡ has_device u new)
      → (ws : List (DeviceWindow F)) → unclaimed old ws ≡ unclaimed new ws
  unclaimed_same old new same [] = refl
  unclaimed_same old new same (w ∷ ws) = rw (same w.uuid, unclaimed_same old new same ws) refl

  -- The windows in which `fdw` found its device.
  Merged : DeviceWindow F → List (DeviceWindow F) → Option (List (DeviceWindow F)) → Type 0
  Merged fdw dws none = has_device fdw.uuid dws ≡ false
  Merged fdw dws (some merged) =
      (has_device fdw.uuid dws ≡ true)
      × ((u : String) → has_device u merged ≡ has_device u dws)
      × ((fdws : List (DeviceWindow F)) → completed fdws merged ≡ completed (fdw ∷ fdws) dws)

  merge_last-Merged :
      (fdw : DeviceWindow F) (dws : List (DeviceWindow F)) → Merged fdw dws (merge_last fdw dws)
  unfolding merge_last Merged merge_all
  merge_last-Merged fdw [] = refl
  merge_last-Merged fdw (dw ∷ dws) = later (merge_last fdw dws) (merge_last-Merged fdw dws)
    where
      here :
          (b : Bool)
          → (dw.uuid == fdw.uuid) ≡ b
          → has_device fdw.uuid dws ≡ false
          → Merged fdw (dw ∷ dws) (if b then some (merge_device_window dw fdw ∷ dws) else none)
      here true same out =
          let eq : dw.uuid ≡ fdw.uuid = (eq_iff _ _).0 same in
          let own : (fdw.uuid == dw.uuid) ≡ true = (eq_iff _ _).1 (sym eq) in
          let absent : has_device dw.uuid dws ≡ false = ap (λ u. has_device u dws) eq ∙ out in
          (
            rw same refl,
            (λ u. refl),
            (λ fdws. rw (absent, own, completed_other fdw fdws dws out) refl),
          )
      here false other out = rw (other, out) refl

      later :
          (o : Option (List (DeviceWindow F)))
          → Merged fdw dws o
          → Merged fdw (dw ∷ dws) (elim o [
            | some merged ↦ some (dw ∷ merged)
            | none ↦ if dw.uuid == fdw.uuid then some (merge_device_window dw fdw ∷ dws) else none
          ])
      later none h = here (dw.uuid == fdw.uuid) refl h
      later (some merged) (found, same, rest) = (
        ground (arith, found),
        (λ u. rw (same u) refl),
        (λ fdws. elim (Bool-cases (has_device dw.uuid dws)) [
          | inl e ↦ rw (same dw.uuid, e, rest fdws) refl
          | inr e ↦
              let other : (fdw.uuid == dw.uuid) ≡ false = ground (
                arith,
                found,
                e,
                eq_iff fdw.uuid dw.uuid,
                ap (λ (u : String). has_device u dws) {x = fdw.uuid} {y = dw.uuid},
              ) in
              rw (same dw.uuid, e, other, rest fdws) refl
        ]),
      )

  complete-loop :
      (fdws dws extra : List (DeviceWindow F))
      → complete fdws dws extra ≡ (completed fdws dws, extra ++ unclaimed dws fdws)
  unfolding complete merge_all Merged
  complete-loop [] dws extra = rw (completed_nothing dws, append-nil extra) refl
  complete-loop (fdw ∷ fdws) dws extra =
      step (merge_last fdw dws) (merge_last-Merged fdw dws)
        (λ merged. complete-loop fdws merged extra) (complete-loop fdws dws (extra ++ fdw ∷ []))
    where
      step :
          (o : Option (List (DeviceWindow F)))
          → Merged fdw dws o
          → ((merged : List (DeviceWindow F))
              → complete fdws merged extra
                ≡ (completed fdws merged, extra ++ unclaimed merged fdws))
          → complete fdws dws (extra ++ fdw ∷ [])
            ≡ (completed fdws dws, (extra ++ fdw ∷ []) ++ unclaimed dws fdws)
          → (elim o as (λ _. List (DeviceWindow F) × List (DeviceWindow F)) [
            | some merged ↦ complete fdws merged extra
            | none ↦ complete fdws dws (extra ++ fdw ∷ [])
          ])
            ≡ (completed (fdw ∷ fdws) dws, extra ++ unclaimed dws (fdw ∷ fdws))
      step none out f q =
          q
          ∙ rw
              (
                completed_other fdw fdws dws out,
                out,
                append_assoc extra (fdw ∷ []) (unclaimed dws fdws),
              )
              refl
      step (some merged) (found, same, rest) f q =
          f merged ∙ rw (rest fdws, found, unclaimed_same merged dws same fdws) refl

  -- Field fallback completes and never overwrites a measured field. The primary's windows come out in
  -- their places. A window that is the last of its device is merged with all of the fallback's windows
  -- of that device, in order, and keeps those of its six measured fields that it knows: only the
  -- others are filled, with the first value that a window of the fallback knows (node, model and
  -- length are as `merge_device_window` merges them). An earlier window of a device that the primary
  -- has twice is left as it is. The windows that are added are exactly the fallback's of the devices
  -- that the primary does not have, in order.
  pub complete-AreCompleted :
      (fdws dws : List (DeviceWindow F))
      → AreCompleted fdws dws (complete fdws dws []).0
        × ((complete fdws dws []).1 ≡ unclaimed dws fdws)
  complete-AreCompleted fdws dws =
      rw (complete-loop fdws dws []) (completed-AreCompleted fdws dws, refl)
