-- ===== src/Proc/Legs.antt =====
-- collectors_proc.go: a leg is shown exactly for a device whose link sysfs reports at fault.
use gpufleet_agent.Prelude.{
  ℕ, ◌<◌, String, ◌≡◌, ◌⊎◌, inl, inr, refl, Bool, true, false, ◌&&◌, Option, none, some, List, [],
  ◌∷◌, ◌++◌, ◌==◌, ltb, nat_eq, arith, Bool-cases, if◌then◌else◌,
}
use gpufleet_agent.Prelude.Strings.{◌<>◌}
use gpufleet_agent.Float.{Float64}
use gpufleet_agent.Wire.{Time, Duration, proc, TimelineEntry}
use gpufleet_agent.Observation.{Observation, observed}
use gpufleet_agent.Prelude.Sort.{sort_strings}
use gpufleet_agent.Logs.{pointers}
use gpufleet_agent.Chain.{with_provenance}
use gpufleet_agent.Timeline.{sanitize_token}
use gpufleet_agent.Proc.{
  ProcLinkCollector, proc_collect, root_of, scanned, noted, Sysfs, path_join, is_nvidia_device,
  read_link_width, read_link_speed, lost_leg, narrow_leg, slow_leg, link_lost, link_narrow,
  link_slow, or_next, device_leg, entry_of, device_entries,
}

-- A link that is below what the device can: both numbers are known, and it is up.
abbrev IsBelow : Option ℕ → Option ℕ → Type 0
IsBelow cur max = (c m : ℕ) × (cur ≡ some c) × (max ≡ some m) × (0 < c) × (c < m)

-- A link without a lane, of a device that can have some.
abbrev IsDown : Option ℕ → Option ℕ → Type 0
IsDown cur max = (m : ℕ) × (cur ≡ some 0) × (max ≡ some m) × (0 < m)

-- A leg with this id is there exactly if the condition holds.
abbrev Decides : Type 0 → String → Option (String × String) → Type 0
Decides P id leg = (P × ((label : String) × (leg ≡ some (id, label)))) ⊎ ((¬ P) × (leg ≡ none))

lost-Decides :
    (addr : String) (cur max : Option ℕ)
    → Decides (IsDown cur max) ("device.lost." <> sanitize_token addr) (lost_leg addr cur max)
lost-Decides addr none max = inr ((λ p. ground arith), refl)
lost-Decides addr (some c) none = inr ((λ p. ground arith), refl)
lost-Decides addr (some c) (some m) = elim (Bool-cases (ltb 0 m && nat_eq c 0)) [
  | inl e ↦ inl ((m, ground arith, refl, ground arith), ((link_lost addr m).1, rw e refl))
  | inr e ↦ inr ((λ p. ground arith), rw e refl)
]

narrow-Decides :
    (addr : String) (cur max : Option ℕ)
    → Decides
        (IsBelow cur max)
        ("link.degraded.width." <> sanitize_token addr)
        (narrow_leg addr cur max)
narrow-Decides addr none max = inr ((λ p. ground arith), refl)
narrow-Decides addr (some c) none = inr ((λ p. ground arith), refl)
narrow-Decides addr (some c) (some m) = elim (Bool-cases (ltb 0 m && ltb 0 c && ltb c m)) [
  | inl e ↦
      inl ((c, m, refl, refl, ground arith, ground arith), ((link_narrow addr c m).1, rw e refl))
  | inr e ↦ inr ((λ p. ground arith), rw e refl)
]

slow-Decides :
    (addr : String) (cur max : Option ℕ)
    → Decides
        (IsBelow cur max)
        ("link.degraded.speed." <> sanitize_token addr)
        (slow_leg addr cur max)
slow-Decides addr none max = inr ((λ p. ground arith), refl)
slow-Decides addr (some c) none = inr ((λ p. ground arith), refl)
slow-Decides addr (some c) (some m) = elim (Bool-cases (ltb 0 m && ltb 0 c && ltb c m)) [
  | inl e ↦ inl ((c, m, refl, refl, ground arith, ground arith), ((link_slow addr).1, rw e refl))
  | inr e ↦ inr ((λ p. ground arith), rw e refl)
]

vendor-Decides :
    (nvidia : Bool) (P : Type 0) (id : String) (leg : Option (String × String))
    → Decides P id leg
    → Decides ((nvidia ≡ true) × P) id (if nvidia then leg else none)
vendor-Decides true P id leg (inl (p, found)) = inl ((refl, p), found)
vendor-Decides true P id leg (inr (p, e)) = inr ((λ q. p q.1), e)
vendor-Decides false P id leg d = inr ((λ q. ground arith), refl)

-- The first of three conditions that holds, by the id of its leg.
abbrev First : (P N S : Type 0) → (lost narrow slow : String) → String → Type 0
First P N S lost narrow slow id =
    (P × (id ≡ lost)) ⊎ ((¬ P) × N × (id ≡ narrow)) ⊎ ((¬ P) × (¬ N) × S × (id ≡ slow))

abbrev pub FoundBy : (String → Type 0) → (P N S : Type 0) → Option (String × String) → Type 0
FoundBy IsFault P N S leg =
    ((id label : String) × IsFault id × (leg ≡ some (id, label)))
    ⊎ ((leg ≡ none) × (¬ P) × (¬ N) × (¬ S))

first_of :
    (P N S : Type 0) (lost narrow slow : String) (a b c : Option (String × String))
    → Decides P lost a
    → Decides N narrow b
    → Decides S slow c
    → FoundBy (First P N S lost narrow slow) P N S (or_next a (or_next b c))
first_of P N S lost narrow slow a b c (inl (p, (l, e))) y z =
    inl (lost, l, inl (p, refl), rw e refl)
first_of P N S lost narrow slow a b c (inr (p, e)) (inl (n, (l, f))) z =
    inl (narrow, l, inr (inl (p, n, refl)), rw (e, f) refl)
first_of P N S lost narrow slow a b c (inr (p, e)) (inr (n, f)) (inl (s, (l, g))) =
    inl (slow, l, inr (inr (p, n, s, refl)), rw (e, f, g) refl)
first_of P N S lost narrow slow a b c (inr (p, e)) (inr (n, f)) (inr (s, g)) =
    inr (rw (e, f, g) refl, p, n, s)

module _ (F : Type 0) ⦃fl : Float64 F⦄ (fs : Sysfs) (root : String) where
  abbrev width : String → String → Option ℕ
  width addr name = read_link_width fs (path_join (path_join root addr) name)

  abbrev speed : String → String → Option ℕ
  speed addr name = read_link_speed F fs (path_join (path_join root addr) name)

  abbrev pub IsLost : String → Type 0
  IsLost addr =
      (is_nvidia_device fs (path_join root addr) ≡ true)
      × IsDown (width addr "current_link_width") (width addr "max_link_width")

  abbrev pub IsNarrow : String → Type 0
  IsNarrow addr = IsBelow (width addr "current_link_width") (width addr "max_link_width")

  abbrev pub IsSlow : String → Type 0
  IsSlow addr = IsBelow (speed addr "current_link_speed") (speed addr "max_link_speed")

  -- The fault of a device that is shown, by its id: a lost NVIDIA device, else a narrow link, else a
  -- slow one.
  abbrev pub Fault : String → String → Type 0
  Fault addr =
      First (IsLost addr) (IsNarrow addr) (IsSlow addr) ("device.lost." <> sanitize_token addr)
        ("link.degraded.width." <> sanitize_token addr)
        ("link.degraded.speed." <> sanitize_token addr)

  device_leg-FoundBy :
      (addr : String)
      → FoundBy (Fault addr) (IsLost addr) (IsNarrow addr) (IsSlow addr) (device_leg F fs root addr)
  unfolding device_leg
  device_leg-FoundBy addr =
      first_of _ _ _ _ _ _ _ _ _
        (vendor-Decides (is_nvidia_device fs (path_join root addr)) _ _ _ (lost-Decides addr _ _))
        (narrow-Decides addr _ _) (slow-Decides addr _ _)

  -- The entry shows the fault of this device.
  abbrev pub Shows : Time → String → TimelineEntry → Type 0
  Shows now addr e = Fault addr e.signal_id × (e.source ≡ proc) × (e.ts ≡ some now)

  abbrev pub IsHealthy : String → Type 0
  IsHealthy addr = (¬ IsLost addr) × (¬ IsNarrow addr) × (¬ IsSlow addr)

  -- The entries, device by device: exactly one for a device with a fault, which shows it, and none for
  -- any other.
  abbrev pub AreShown : Time → List String → List TimelineEntry → Type 0
  AreShown now [] entries = entries ≡ []
  AreShown now (addr ∷ addrs) entries =
      (IsHealthy addr × AreShown now addrs entries)
      ⊎ ((e : TimelineEntry) × (later : List TimelineEntry) × (entries ≡ e ∷ later)
          × Shows now addr e
          × AreShown now addrs later)

  entry_of-AreShown :
      (now : Time) (addr : String) (addrs : List String) (later : List TimelineEntry)
      (leg : Option (String × String))
      → FoundBy (Fault addr) (IsLost addr) (IsNarrow addr) (IsSlow addr) leg
      → AreShown now addrs later
      → AreShown now (addr ∷ addrs) (entry_of now leg ++ later)
  entry_of-AreShown now addr addrs later leg (inl (id, label, fault, e)) h =
      rw e (inr (_, later, refl, (fault, refl, refl), h))
  entry_of-AreShown now addr addrs later leg (inr (e, p, n, s)) h = rw e (inl ((p, n, s), h))

  device_entries-AreShown :
      (now : Time) (addrs : List String) → AreShown now addrs (device_entries F fs root now addrs)
  unfolding device_entries
  device_entries-AreShown now [] = refl
  device_entries-AreShown now (addr ∷ addrs) =
      entry_of-AreShown now addr addrs _ _ (device_leg-FoundBy addr)
        (device_entries-AreShown now addrs)

module _ (F : Type 0) ⦃fl : Float64 F⦄ (fs : Sysfs) where
  -- What the timeline shows of a tree of sysfs that was listed.
  abbrev pub Reports : String → Time → Option (List String) → List (Option TimelineEntry) → Type 0
  Reports root now none timeline = timeline ≡ []
  Reports root now (some names) timeline =
      (entries : List TimelineEntry) × (timeline ≡ pointers entries)
      × AreShown F fs root now (sort_strings names) entries

  noted_same :
      (c : ProcLinkCollector) (o : Observation F)
      → o.source ≡ proc
      → o.timeline ≡ []
      → ((noted F c o).source ≡ proc) × ((noted F c o).timeline ≡ [])
  noted_same c o h g = by_node (c.node == "")
    where
      by_node :
          (b : Bool)
          → ((if b then o else with_provenance "node" c.node o).source ≡ proc)
            × ((if b then o else with_provenance "node" c.node o).timeline ≡ [])
      by_node true = (h, g)
      by_node false = (h, g)

  scanned-Reports :
      (root : String) (now : Time) (listing : Option (List String)) (o : Observation F)
      → o.source ≡ proc
      → o.timeline ≡ []
      → ((scanned F fs root now listing o).source ≡ proc)
        × Reports root now listing (scanned F fs root now listing o).timeline
  scanned-Reports root now none o h g = (h, g)
  scanned-Reports root now (some names) o h g =
      (h, (_, refl, device_entries-AreShown F fs root now (sort_strings names)))

  -- The collector never fails. Where the root cannot be listed it reports nothing. Otherwise its
  -- entries are, device by device in the order of the names, exactly one for a device with a fault and
  -- none for a device without one. The entry has the source PROC, the time of the collection and the
  -- identity of that device's own fault: an NVIDIA device without a lane, else a link with fewer lanes
  -- than the device can, else one with less speed.
  pub proc_collect-Reports :
      (c : ProcLinkCollector) (now : Time) (window : Duration)
      → (o : Observation F) × (proc_collect F c fs now window ≡ observed o)
        × (o.source ≡ proc)
        × Reports (root_of c) now (fs.read_dir (root_of c)) o.timeline
  unfolding proc_collect
  proc_collect-Reports c now window =
      let noted = noted_same c _ refl refl in
      let r = scanned-Reports (root_of c) now (fs.read_dir (root_of c)) _ noted.0 noted.1 in
      (_, refl, r.0, r.1)
