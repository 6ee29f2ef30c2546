-- ===== src/Dcgm/Exposition/Attributed.antt =====
-- collectors_dcgm.go, `parseDCGMExposition`: every reading of a device window comes from a line.
use mathlib.Core.Path.{subst}
use gpufleet_agent.Prelude.{
  String, ◌≡◌, ◌≢◌, refl, inl, inr, true, false, ◌==◌, ◌&&◌, eq_iff, Option, none, some, List, [],
  ◌∷◌, All, All-append, All-In, In, Each, lookup, insert, keys, arith, Bool-cases,
}
use gpufleet_agent.Prelude.Sort.{sort_strings}
use gpufleet_agent.Float.{Float64}
use gpufleet_agent.Wire.{Time, Duration}
use gpufleet_agent.Observation.{DeviceWindow, Observation, blank_window}
use gpufleet_agent.Semantics.{Result, ok, err}
use gpufleet_agent.Dcgm.Exposition.{DcgmParsedSample, scan_exposition}
use gpufleet_agent.Dcgm.Exposition.Devices.{
  uuid_of, tensor_symbol, ecc_symbol, is_link_error, found_or, placed, device_for, read_symbol,
  Parsed, take_sample, take_samples, in_order, value_at, exposition_observation, exposition_parsed,
  parse_dcgm_exposition,
}

module _ {V : Type 0} (P : String × V → Type 0) where
  pub All-insert :
      (k : String) (v : V) (entries : List (String × V))
      → P (k, v)
      → All P entries
      → All P (insert k v entries)
  unfolding insert
  All-insert k v [] p h = (p, tt)
  All-insert k v (entry ∷ rest) p (q, h) = elim (Bool-cases (entry.0 == k)) [
    | inl e ↦ rw e (p, h)
    | inr e ↦ rw e (q, All-insert k v rest p h)
  ]

  pub lookup-All :
      (k : String) (entries : List (String × V))
      → All P entries
      → Each (λ v. P (k, v)) (lookup k entries)
  unfolding lookup
  lookup-All k [] h = tt
  lookup-All k (entry ∷ rest) (q, h) = elim (Bool-cases (entry.0 == k)) [
    | inl e ↦ rw e (subst (λ name. P (name, entry.1)) ((eq_iff entry.0 k).0 e) q)
    | inr e ↦ rw e (lookup-All k rest h)
  ]

  pub in_order-All :
      (entries : List (String × V)) (ks : List String)
      → All P entries
      → All (λ v. (k : String) × P (k, v)) (in_order entries ks)
  unfolding in_order
  in_order-All entries [] h = tt
  in_order-All entries (k ∷ ks) h =
      All-append _ (value_at (lookup k entries)) _
        (values (lookup k entries) (lookup-All k entries h)) (in_order-All entries ks h)
    where
      values :
          (o : Option V) → Each (λ v. P (k, v)) o → All (λ v. (k : String) × P (k, v)) (value_at o)
      values none p = tt
      values (some v) p = ((k, p), tt)

module _ {F : Type 0} ⦃fl : Float64 F⦄ (ws : F) (all : List (DcgmParsedSample F)) where
  -- Some sample of this device satisfies a condition.
  abbrev Seen : String → (DcgmParsedSample F → Type 0) → Type 0
  Seen uuid P = (s : DcgmParsedSample F) × In s all × (uuid_of s.labels ≡ uuid) × P s

  -- A device window has a name that some sample has, no peak, cost or achieved FLOPs, and no reading
  -- but what a sample of the device gave.
  pub record IsAttributed (uuid : String) (dw : DeviceWindow F) : Type 0 where
    pub named : (uuid ≢ "") × (dw.uuid ≡ uuid) × Seen uuid (λ s. Unit)
    pub blank :
        (dw.peak_flops_known ≡ false) × (dw.cost_known ≡ false) × (dw.achieved_flops_known ≡ false)
    pub tensor :
        dw.tensor_active_known ≡ true
        → Seen uuid (λ s. (s.symbol ≡ tensor_symbol) × (dw.tensor_active_secs ≡ fl.mul s.value ws))
    pub ecc :
        dw.ecc_double_bit_known ≡ true
        → Seen uuid (λ s.
          (s.symbol ≡ ecc_symbol)
          × (fl.le fl.zero s.value ≡ true)
          × (dw.ecc_double_bit_errs ≡ fl.truncate s.value))
    pub link :
        dw.link_errors_known ≡ true
        → Seen uuid (λ s. (is_link_error s.symbol ≡ true) × (fl.le fl.zero s.value ≡ true))

  placed-IsAttributed :
      (uuid node model : String) (dw : DeviceWindow F)
      → IsAttributed uuid dw
      → IsAttributed uuid (placed node model dw)
  placed-IsAttributed uuid node model dw h = record {
    named = h.named;
    blank = h.blank;
    tensor = h.tensor;
    ecc = h.ecc;
    link = h.link;
  }

  -- A device window before the symbol of a sample is read.
  device_for-IsAttributed :
      (s : DcgmParsedSample F) (node model : String) (devs : List (String × DeviceWindow F))
      → In s all
      → uuid_of s.labels ≢ ""
      → All (λ entry. IsAttributed entry.0 entry.1) devs
      → IsAttributed (uuid_of s.labels) (device_for ws (uuid_of s.labels) node model devs)
  unfolding device_for blank_window
  device_for-IsAttributed s node model devs at ne h =
      placed-IsAttributed _ node model _
        (by_entry (lookup (uuid_of s.labels) devs) (lookup-All _ (uuid_of s.labels) devs h))
    where
      by_entry :
          (o : Option (DeviceWindow F))
          → Each (IsAttributed (uuid_of s.labels)) o
          → IsAttributed
              (uuid_of s.labels)
              (found_or (record (blank_window (uuid_of s.labels)) { window_seconds = ws }) o)
      by_entry none known = record {
        named = (ne, refl, (s, at, refl, tt));
        blank = (refl, refl, refl);
        tensor = λ k. ground arith;
        ecc = λ k. ground arith;
        link = λ k. ground arith;
      }
      by_entry (some dw) known = known

  read_symbol-IsAttributed :
      (s : DcgmParsedSample F) (dw : DeviceWindow F)
      → In s all
      → IsAttributed (uuid_of s.labels) dw
      → IsAttributed (uuid_of s.labels) (read_symbol ws s.symbol s.value dw)
  unfolding read_symbol
  read_symbol-IsAttributed s dw at h = elim (Bool-cases (s.symbol == tensor_symbol)) [
    | inl e ↦ rw e (record {
      named = h.named;
      blank = h.blank;
      tensor = λ k. (s, at, refl, ((eq_iff s.symbol tensor_symbol).0 e, refl));
      ecc = h.ecc;
      link = h.link;
    })
    | inr e ↦ rw e (elim (Bool-cases (s.symbol == ecc_symbol)) [
      | inl e' ↦ rw e' (elim (Bool-cases (fl.le fl.zero s.value)) [
        | inl le ↦ rw le (record {
          named = h.named;
          blank = h.blank;
          tensor = h.tensor;
          ecc = λ k. (s, at, refl, ((eq_iff s.symbol ecc_symbol).0 e', le, refl));
          link = h.link;
        })
        | inr gt ↦ rw gt h
      ])
      | inr e' ↦ rw e' (elim (Bool-cases (is_link_error s.symbol && fl.le fl.zero s.value)) [
        | inl both ↦ rw both (record {
          named = h.named;
          blank = h.blank;
          tensor = h.tensor;
          ecc = h.ecc;
          link = λ k. (s, at, refl, (ground arith, ground arith));
        })
        | inr other ↦ rw other h
      ])
    ])
  ]

  take_samples-AreAttributed :
      (now : Time) (fallback : String) (ss : List (DcgmParsedSample F)) (p : Parsed F)
      → All (λ s. In s all) ss
      → All (λ entry. IsAttributed entry.0 entry.1) p.devs
      → All (λ entry. IsAttributed entry.0 entry.1) (take_samples now ws fallback ss p).devs
  unfolding take_samples
  take_samples-AreAttributed now fallback [] p at h = h
  take_samples-AreAttributed now fallback (s ∷ ss) p (here, at) h =
      take_samples-AreAttributed now fallback ss (take_sample now ws fallback s p) at (
        unfold take_sample in
        elim (Bool-cases (uuid_of s.labels == "")) [
          | inl e ↦ rw e h
          | inr e ↦ rw e (
              All-insert _ (uuid_of s.labels) _ p.devs
                (read_symbol-IsAttributed s _ here (
                  device_for-IsAttributed s _ _ p.devs here
                    (λ q. cc ((eq_iff (uuid_of s.labels) "").1 q, e)) h))
                h)
        ])

module _ (F : Type 0) ⦃fl : Float64 F⦄ where
  -- What a parsed body gives: an error exactly if its lines cannot be scanned.
  abbrev pub Gives : F → Result (List (DcgmParsedSample F)) → Result (Observation F) → Type 0
  Gives ws (err e) r = r ≡ err e
  Gives ws (ok samples) r =
      (o : Observation F) × (r ≡ ok o)
      × All (λ dw. (uuid : String) × IsAttributed ws samples uuid dw) o.device_windows

  -- Where the lines of an exposition can be scanned, an observation is made of them, and each of its
  -- device windows is attributed: its UUID is that of a sample; its peak, cost and achieved FLOPs are
  -- unknown; its tensor activity and its ECC count, where known, are those of a sample of the device
  -- with that symbol, the count not of a negative value; and it has link errors only if a sample
  -- counts some. If the scan fails, that error is returned.
  pub parse_dcgm_exposition-Gives :
      (body : Result String) (now : Time) (window : Duration) (fallback : String)
      → Gives
          (fl.seconds window)
          (scan_exposition {F = F} body)
          (parse_dcgm_exposition body now window fallback)
  unfolding parse_dcgm_exposition exposition_observation
  parse_dcgm_exposition-Gives body now window fallback = by_scan (scan_exposition {F = F} body)
    where
      by_scan :
          (r : Result (List (DcgmParsedSample F)))
          → Gives (fl.seconds window) r (exposition_parsed now (fl.seconds window) fallback r)
      by_scan (err e) = refl
      by_scan (ok samples) = (
        _,
        refl,
        in_order-All _ _ (sort_strings (keys _)) (
            take_samples-AreAttributed (fl.seconds window) samples now fallback samples
              (record { devs = []; series = [] }) (All-In samples) tt),
      )
