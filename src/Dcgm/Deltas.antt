-- ===== src/Dcgm/Deltas.antt =====
-- What the deltas of a cumulative counter are, device by device.
use gpufleet_agent.Prelude.{
  ℕ, String, ◌≡◌, refl, sym, ap, ◌∙◌, ◌+◌, ◌≤◌, ◌&&◌, Bool-cases, Option, some, List, [], ◌∷◌, ◌++◌,
  ◌==◌, eq_iff, inl, inr, arith, if◌then◌else◌, lookup, insert, lookup-insert,
}
use gpufleet_agent.Observation.{DeviceWindow}
use gpufleet_agent.Dcgm.{
  DcgmExporterCollector, Counter, delta, apply_delta, ecc_total, link_total, apply_dbe_delta,
  apply_link_err_delta,
}

-- What a device's counter shows, in the order of the windows.
abbrev pub readings_of : {F : Type 0} → Counter F → String → List (DeviceWindow F) → List ℕ
readings_of k u [] = []
readings_of k u (dw ∷ dws) =
    if k.known dw && dw.uuid == u then k.value dw ∷ readings_of k u dws else readings_of k u dws

-- The deltas of one counter from the reading before.
abbrev pub deltas : Option ℕ → List ℕ → List ℕ
deltas last [] = []
deltas last (n ∷ ns) = delta last n ∷ deltas (some n) ns

-- Setting a counter changes its value only.
pub record IsCounter {F : Type 0} (k : Counter F) : Type 0 where
  pub get_set : (n : ℕ) (dw : DeviceWindow F) → k.value (k.set n dw) ≡ n
  pub known_set : (n : ℕ) (dw : DeviceWindow F) → k.known (k.set n dw) ≡ k.known dw
  pub uuid_set : (n : ℕ) (dw : DeviceWindow F) → (k.set n dw).uuid ≡ dw.uuid

module _ {F : Type 0} (k : Counter F) (law : IsCounter k) (u : String) where
  apply_delta-deltas :
      (dws : List (DeviceWindow F)) (prev : List (String × ℕ))
      → readings_of k u (apply_delta k dws prev).0 ≡ deltas (lookup u prev) (readings_of k u dws)
  unfolding apply_delta
  apply_delta-deltas [] prev = refl
  apply_delta-deltas (dw ∷ dws) prev = elim (Bool-cases (k.known dw)) [
    | inl known ↦ elim (Bool-cases (dw.uuid == u)) [
      | inl same ↦
          rw
            (
              known,
              law.get_set,
              law.known_set,
              law.uuid_set,
              known,
              same,
              apply_delta-deltas dws (insert dw.uuid (k.value dw) prev),
              lookup-insert,
              same,
              (eq_iff _ _).0 same,
            )
            refl
      | inr other ↦
          rw
            (
              known,
              law.known_set,
              law.uuid_set,
              known,
              other,
              apply_delta-deltas dws (insert dw.uuid (k.value dw) prev),
              lookup-insert,
              other,
            )
            refl
    ]
    | inr unknown ↦ rw (unknown, unknown) (apply_delta-deltas dws prev)
  ]

ecc_total-IsCounter : {F : Type 0} → IsCounter (ecc_total {F = F})
ecc_total-IsCounter = record {
  get_set = λ n dw. refl;
  known_set = λ n dw. refl;
  uuid_set = λ n dw. refl;
}

link_total-IsCounter : {F : Type 0} → IsCounter (link_total {F = F})
link_total-IsCounter = record {
  get_set = λ n dw. refl;
  known_set = λ n dw. refl;
  uuid_set = λ n dw. refl;
}

-- The windows that come out of several scrapes, one after the other.
module _ {F : Type 0} where
  unfoldable pub dbe_scrapes :
      List (List (DeviceWindow F)) → DcgmExporterCollector → List (DeviceWindow F)
  dbe_scrapes [] c = []
  dbe_scrapes (dws ∷ later) c =
      (apply_dbe_delta dws c).0 ++ dbe_scrapes later (apply_dbe_delta dws c).1

  abbrev pub joined : List (List (DeviceWindow F)) → List (DeviceWindow F)
  joined [] = []
  joined (dws ∷ later) = dws ++ joined later

  apply_delta-append :
      (k : Counter F) (xs ys : List (DeviceWindow F)) (prev : List (String × ℕ))
      → (apply_delta k (xs ++ ys) prev).0
        ≡ (apply_delta k xs prev).0 ++ (apply_delta k ys (apply_delta k xs prev).1).0
  unfolding apply_delta
  apply_delta-append k [] ys prev = refl
  apply_delta-append k (x ∷ xs) ys prev = elim (Bool-cases (k.known x)) [
    | inl known ↦ rw (known, apply_delta-append k xs ys (insert x.uuid (k.value x) prev)) refl
    | inr unknown ↦ rw (unknown, apply_delta-append k xs ys prev) refl
  ]

  dbe_scrapes-joined :
      (scrapes : List (List (DeviceWindow F))) (c : DcgmExporterCollector)
      → dbe_scrapes scrapes c ≡ (apply_delta ecc_total (joined scrapes) c.prev_dbe).0
  unfolding dbe_scrapes apply_dbe_delta apply_delta
  dbe_scrapes-joined [] c = refl
  dbe_scrapes-joined (dws ∷ later) c =
      ap (λ t. (apply_dbe_delta dws c).0 ++ t) (dbe_scrapes-joined later (apply_dbe_delta dws c).1)
      ∙ sym (apply_delta-append ecc_total dws (joined later) c.prev_dbe)

  -- Over any number of scrapes, the ECC counts that are reported for a device are the differences of
  -- its successive known readings: the first reading of a device without a baseline and a reading
  -- below the one before it report zero, and other devices play no part.
  pub dbe_scrapes-deltas :
      (scrapes : List (List (DeviceWindow F))) (c : DcgmExporterCollector) (u : String)
      → readings_of ecc_total u (dbe_scrapes scrapes c)
        ≡ deltas (lookup u c.prev_dbe) (readings_of ecc_total u (joined scrapes))
  dbe_scrapes-deltas scrapes c u =
      ap (readings_of ecc_total u) (dbe_scrapes-joined scrapes c)
      ∙ apply_delta-deltas ecc_total ecc_total-IsCounter u (joined scrapes) c.prev_dbe

  -- The link-error counts of one scrape, likewise.
  pub apply_link_err_delta-deltas :
      (dws : List (DeviceWindow F)) (c : DcgmExporterCollector) (u : String)
      → readings_of link_total u (apply_link_err_delta dws c).0
        ≡ deltas (lookup u c.prev_link_err) (readings_of link_total u dws)
  unfolding apply_link_err_delta
  apply_link_err_delta-deltas dws c u =
      apply_delta-deltas link_total link_total-IsCounter u dws c.prev_link_err

abbrev pub total : List ℕ → ℕ
total [] = 0
total (n ∷ ns) = n + total ns

abbrev pub last_of : ℕ → List ℕ → ℕ
last_of n [] = n
last_of n (m ∷ ms) = last_of m ms

abbrev pub Grows : ℕ → List ℕ → Type 0
Grows n [] = Unit
Grows n (m ∷ ms) = (n ≤ m) × Grows m ms

total-deltas : (n : ℕ) (ns : List ℕ) → Grows n ns → n + total (deltas (some n) ns) ≡ last_of n ns
total-deltas n [] h = omega arith
total-deltas n (m ∷ ms) (le, h) = ground (arith, total-deltas m ms h)

-- Nothing is lost or counted twice: for a device that has a baseline and whose ECC counter never
-- falls, the counts that are reported over any number of scrapes add up to the last reading less the
-- baseline.
pub total-dbe_scrapes :
    {F : Type 0} (scrapes : List (List (DeviceWindow F))) (c : DcgmExporterCollector) (u : String)
    (baseline : ℕ)
    → lookup u c.prev_dbe ≡ some baseline
    → Grows baseline (readings_of ecc_total u (joined scrapes))
    → baseline + total (readings_of ecc_total u (dbe_scrapes scrapes c))
      ≡ last_of baseline (readings_of ecc_total u (joined scrapes))
total-dbe_scrapes scrapes c u baseline seen grows =
    ap (λ ns. baseline + total ns)
      (dbe_scrapes-deltas scrapes c u
        ∙ ap (λ o. deltas o (readings_of ecc_total u (joined scrapes))) seen)
    ∙ total-deltas baseline (readings_of ecc_total u (joined scrapes)) grows
