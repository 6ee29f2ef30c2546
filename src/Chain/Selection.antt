-- ===== src/Chain/Selection.antt =====
-- Which source the chain says it has selected, and when it fails.
use gpufleet_agent.Prelude.{
  String, ◌≡◌, refl, sym, ◌∙◌, Bool, true, false, Bool-cases, Option, none, some, inl, inr, ltb,
  length, if◌then◌else◌, ◌==◌, ◌&&◌,
}
use gpufleet_agent.Float.{Float64}
use gpufleet_agent.Wire.{Time, Duration, SignalSource}
use gpufleet_agent.Observation.{Observation, Failure, Collected, observed, failed}
use gpufleet_agent.Chain.{
  MetricsSource, MetricsChain, mark_chain_provenance, chain_source, record_selected,
  declared_source, answered, fallen_back, fall_back, field_merged, primary_answered, chain_collect,
  merge_fallback, missing_peak, empty_observation, merged_with, reason_for,
}

marked_source :
    {F : Type 0} (selected reason : String) (src : SignalSource) (o : Observation F)
    → (mark_chain_provenance selected reason src o).source ≡ o.source
unfolding mark_chain_provenance
marked_source selected reason src o = elim (Bool-cases (reason == "")) [
  | inl e ↦ rw e refl
  | inr e ↦ rw e refl
]

module _ {F W : Type 0} ⦃fl : Float64 F⦄ where
  -- A collector tags its observations with its own source.
  abbrev pub IsTagged : Option (MetricsSource F W) → Type 0
  IsTagged none = Unit
  IsTagged (some s) =
      (now : Time) (window : Duration) (w : W) (o : Observation F)
      → (s.collect now window w).0 ≡ observed o
      → o.source ≡ s.source

  -- A successful answer of a chain with a cell: the observation's source is what `Source` now says.
  abbrev pub Agrees : Collected F × MetricsChain F W × W → Type 0
  Agrees (failed e, c, w) = Unit
  Agrees (observed o, c, w) = chain_source c ≡ o.source

  abbrev pub HasCell : MetricsChain F W → Type 0
  HasCell c = (cell : Option SignalSource) × (c.selected ≡ some cell)

  recorded_source :
      (src : SignalSource) (c : MetricsChain F W)
      → HasCell c
      → chain_source (record_selected src c) ≡ src
  unfolding chain_source record_selected
  recorded_source src c (cell, e) = rw e refl

  answered-Agrees :
      (selected reason : String) (src : SignalSource) (o : Observation F) (c : MetricsChain F W)
      (w : W)
      → HasCell c
      → o.source ≡ src
      → Agrees (answered selected reason src o c w)
  answered-Agrees selected reason src o c w cell e =
      recorded_source src c cell ∙ sym e ∙ sym (marked_source selected reason src o)

  fall_back-Agrees :
      (c : MetricsChain F W) (primary_err : Option Failure) (now : Time) (window : Duration) (w : W)
      → HasCell c
      → IsTagged c.fallback
      → Agrees (fall_back c primary_err now window w)
  unfolding fall_back
  fall_back-Agrees c primary_err now window w cell tagged = by_fallback c.fallback tagged
    where
      ended :
          (f : MetricsSource F W) (r : Collected F × W)
          → ((o : Observation F) → r.0 ≡ observed o → o.source ≡ f.source)
          → Agrees (fallen_back primary_err f c r)
      ended f (failed e, w') t = tt
      ended f (observed o, w') t =
          answered-Agrees "fallback" (reason_for primary_err) f.source o c w' cell (t o refl)

      no_fallback :
          (e : Option Failure)
          → Agrees (elim e as (λ _. Collected F × MetricsChain F W × W) [
            | some x ↦ (failed x, c, w)
            | none ↦
                answered "primary-empty"
                  (reason_for none)
                  (declared_source c)
                  (empty_observation (declared_source c))
                  c
                  w
          ])
      no_fallback none =
          answered-Agrees "primary-empty" (reason_for none) (declared_source c)
            (empty_observation (declared_source c)) c w cell refl
      no_fallback (some x) = tt

      by_fallback :
          (o : Option (MetricsSource F W))
          → IsTagged o
          → Agrees (elim o as (λ _. Collected F × MetricsChain F W × W) [
            | some f ↦ fallen_back primary_err f c (f.collect now window w)
            | none ↦ elim primary_err as (λ _. Collected F × MetricsChain F W × W) [
              | some x ↦ (failed x, c, w)
              | none ↦
                  answered "primary-empty"
                    (reason_for none)
                    (declared_source c)
                    (empty_observation (declared_source c))
                    c
                    w
            ]
          ])
      by_fallback none t = no_fallback primary_err
      by_fallback (some f) t = ended f (f.collect now window w) (t now window w)

  field_merged_source :
      (c : MetricsChain F W) (o : Observation F) (now : Time) (window : Duration) (w : W)
      → (field_merged c o now window w).0.source ≡ o.source
  unfolding merge_fallback
  field_merged_source c o now window w = by_fallback c.fallback
    where
      merged : (r : Collected F) → (merged_with o r).source ≡ o.source
      merged (failed e) = refl
      merged (observed p) = refl

      tested :
          (f : MetricsSource F W) (b : Bool)
          → (if b then merge_fallback f o now window w else (o, w)).0.source ≡ o.source
      tested f true = merged (f.collect now window w).0
      tested f false = refl

      by_fallback :
          (x : Option (MetricsSource F W))
          → (elim x as (λ _. Observation F × W) [
            | none ↦ (o, w)
            | some f ↦
                if c.field_fallback && missing_peak o.device_windows
                then merge_fallback f o now window w
                else (o, w)
          ]).0.source
            ≡ o.source
      by_fallback none = refl
      by_fallback (some f) = tested f (c.field_fallback && missing_peak o.device_windows)

  -- Independence is judged on the real provenance: when a chain with a selection cell answers and its
  -- sources tag their observations with their own source, what `Source` says afterwards is the source
  -- of the observation that was returned, whether the primary answered, the fallback did, or neither
  -- had a device.
  pub chain_collect-Agrees :
      (c : MetricsChain F W) (now : Time) (window : Duration) (w : W)
      → HasCell c
      → IsTagged c.primary
      → IsTagged c.fallback
      → Agrees (chain_collect c now window w)
  unfolding chain_collect
  chain_collect-Agrees c now window w cell tagged_primary tagged_fallback =
      by_primary c.primary tagged_primary
    where
      fell : (e : Option Failure) (w' : W) → Agrees (fall_back c e now window w')
      fell e w' = fall_back-Agrees c e now window w' cell tagged_fallback

      has_device :
          (p : MetricsSource F W) (o : Observation F) (w' : W) (b : Bool)
          → o.source ≡ p.source
          → Agrees (
              if b
              then answered "primary" "" p.source
                  (field_merged c o now window w').0
                  c
                  (field_merged c o now window w').1
              else fall_back c none now window w')
      has_device p o w' true e =
          answered-Agrees "primary" "" p.source (field_merged c o now window w').0 c
            (field_merged c o now window w').1 cell (field_merged_source c o now window w' ∙ e)
      has_device p o w' false e = fell none w'

      ended :
          (p : MetricsSource F W) (r : Collected F × W)
          → ((o : Observation F) → r.0 ≡ observed o → o.source ≡ p.source)
          → Agrees (primary_answered c p now window r)
      ended p (failed e, w') t = fell (some e) w'
      ended p (observed o, w') t = has_device p o w' (ltb 0 (length o.device_windows)) (t o refl)

      by_primary :
          (o : Option (MetricsSource F W))
          → IsTagged o
          → Agrees (elim o as (λ _. Collected F × MetricsChain F W × W) [
            | none ↦ fall_back c none now window w
            | some p ↦ primary_answered c p now window (p.collect now window w)
          ])
      by_primary none t = fell none w
      by_primary (some p) t = ended p (p.collect now window w) (t now window w)
