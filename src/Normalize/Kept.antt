-- ===== src/Normalize/Kept.antt =====
-- The first loop of `Normalize` keeps what it has gathered, and so does the sort of the sources.
use mathlib.Core.Path.{subst}
use gpufleet_agent.Prelude.{
  ℕ, ◌≡◌, refl, sym, Bool, true, false, Bool-cases, Option, none, some, List, [], ◌∷◌, ◌++◌, inl,
  inr, arith, In, Any-append_left, Any-append_right, ltb, if◌then◌else◌,
}
use gpufleet_agent.Wire.{
  SignalSource, dmesg_xid, nccl, source_eq, source_eq_iff, TimelineEntry, XidEvent, NcclEvent,
}
use gpufleet_agent.Float.{Float64}
use gpufleet_agent.Observation.{Observation}
use gpufleet_agent.Gather.{
  Gathered, contains_source, admitted, claim, gather_one, gather_from, nothing_gathered,
}
use gpufleet_agent.Normalize.{insert_source, sort_sources}

module _ {A : Type 0} where
  -- A list that grows under a test keeps what it has.
  In-grow : (b : Bool) (a : A) (xs ys : List A) → In a xs → In a (if b then xs ++ ys else xs)
  In-grow true a xs ys m = Any-append_left _ xs ys m
  In-grow false a xs ys m = m

  In-grown :
      (b : Bool) (a : A) (xs ys : List A) → b ≡ true → In a ys → In a (if b then xs ++ ys else xs)
  In-grown true a xs ys e m = Any-append_right _ xs ys m
  In-grown false a xs ys e m = absurd (ground (arith, e))

module _ {F : Type 0} ⦃fl : Float64 F⦄ (P : Gathered F → Type 0)
    (keeps : (g : Gathered F) (o : Observation F) → P g → P (gather_one g o)) where
  gather_from-keeps : (os : List (Observation F)) (g : Gathered F) → P g → P (gather_from g os)
  unfolding gather_from
  gather_from-keeps [] g h = h
  gather_from-keeps (o ∷ os) g h = gather_from-keeps os (gather_one g o) (keeps g o h)

  -- What one report brings about and every report keeps, all of them bring about.
  gather_from-reaches :
      (o : Observation F) (os : List (Observation F)) (g : Gathered F)
      → ((g : Gathered F) → P (gather_one g o))
      → In o os
      → P (gather_from g os)
  unfolding gather_from
  gather_from-reaches o (p ∷ os) g brings (inl same) =
      gather_from-keeps os (gather_one g p) (subst (λ q. P (gather_one g q)) (sym same) (brings g))
  gather_from-reaches o (p ∷ os) g brings (inr m) =
      gather_from-reaches o os (gather_one g p) brings m
  gather_from-reaches o [] g brings m = elim m [ ]

module _ {F : Type 0} ⦃fl : Float64 F⦄ (o : Observation F) (os : List (Observation F))
    (at : In o os) where
  pub gathered_xid :
      (x : Option XidEvent)
      → o.source ≡ dmesg_xid
      → In x o.xid_events
      → In x (gather_from nothing_gathered os).xid_dmesg
  unfolding gather_one
  gathered_xid x own m =
      gather_from-reaches (λ g. In x g.xid_dmesg) (λ g p. In-grow _ x g.xid_dmesg p.xid_events) o os
        _
        (λ g.
          In-grown (source_eq o.source dmesg_xid) x g.xid_dmesg o.xid_events
            ((source_eq_iff _ _).1 own) m)
        at

  pub gathered_nccl :
      (x : Option NcclEvent)
      → o.source ≡ nccl
      → In x o.nccl_events
      → In x (gather_from nothing_gathered os).nccl_real
  unfolding gather_one
  gathered_nccl x own m =
      gather_from-reaches (λ g. In x g.nccl_real) (λ g p. In-grow _ x g.nccl_real p.nccl_events) o
        os _
        (λ g.
          In-grown (source_eq o.source nccl) x g.nccl_real o.nccl_events ((source_eq_iff _ _).1 own)
            m)
        at

  admitted_own :
      (te : TimelineEntry) (tes : List (Option TimelineEntry))
      → (claim o.source te).source ≡ o.source
      → In (some te) tes
      → In (claim o.source te) (admitted o.source tes)
  unfolding admitted
  admitted_own te (some t ∷ tes) own (inl same) =
      let eq : t ≡ te = cc in
      subst
        (λ t. In (claim o.source te) (
          if source_eq (claim o.source t).source o.source
          then claim o.source t ∷ admitted o.source tes
          else admitted o.source tes))
        (sym eq) (rw ((source_eq_iff (claim o.source te).source o.source).1 own) (inl refl))
  admitted_own te (some t ∷ tes) own (inr m) =
      let rest = admitted_own te tes own m in
      elim (Bool-cases (source_eq (claim o.source t).source o.source)) [
        | inl e ↦ rw e (inr rest)
        | inr e ↦ rw e rest
      ]
  admitted_own te (none ∷ tes) own (inl same) = absurd (ground (arith, same))
  admitted_own te (none ∷ tes) own (inr m) = admitted_own te tes own m
  admitted_own te [] own m = elim m [ ]

  pub gathered_injected :
      (te : TimelineEntry)
      → (claim o.source te).source ≡ o.source
      → In (some te) o.timeline
      → In (claim o.source te) (gather_from nothing_gathered os).injected
  unfolding gather_one
  gathered_injected te own m =
      gather_from-reaches (λ g. In (claim o.source te) g.injected)
        (λ g p h. Any-append_left _ g.injected _ h) o os _
        (λ g. Any-append_right _ g.injected _ (admitted_own te o.timeline own m)) at

  contains_source-In :
      (s : SignalSource) (ss : List SignalSource) → contains_source s ss ≡ true → In s ss
  contains_source-In s (t ∷ ts) e = elim (Bool-cases (source_eq t s)) [
    | inl same ↦ inl ((source_eq_iff t s).0 same)
    | inr other ↦ inr (contains_source-In s ts (ground arith))
  ]
  contains_source-In s [] e = absurd (ground (arith, e))

  pub gathered_source : In o.source (gather_from nothing_gathered os).sources
  unfolding gather_one
  gathered_source =
      gather_from-reaches (λ g. In o.source g.sources) kept o os _
        (λ g. brought g (contains_source o.source g.sources) refl) at
    where
      kept :
          (g : Gathered F) (p : Observation F)
          → In o.source g.sources
          → In o.source
              (if contains_source p.source g.sources then g.sources else g.sources ++ p.source ∷ [])
      kept g p m = elim (Bool-cases (contains_source p.source g.sources)) [
        | inl old ↦ rw old m
        | inr new ↦ rw new (Any-append_left _ g.sources _ m)
      ]

      brought :
          (g : Gathered F) (b : Bool)
          → contains_source o.source g.sources ≡ b
          → In o.source (if b then g.sources else g.sources ++ o.source ∷ [])
      brought g true e = contains_source-In o.source g.sources e
      brought g false e = Any-append_right _ g.sources _ (inl refl)

module _ (number : SignalSource → ℕ) (s : SignalSource) where
  In-insert_source :
      (t : SignalSource) (ss : List SignalSource) → In s ss → In s (insert_source number t ss)
  unfolding insert_source
  In-insert_source t (u ∷ ss) (inl e) = elim (Bool-cases (ltb (number u) (number t))) [
    | inl above ↦ rw above (inl e)
    | inr below ↦ rw below (inr (inl e))
  ]
  In-insert_source t (u ∷ ss) (inr m) = elim (Bool-cases (ltb (number u) (number t))) [
    | inl above ↦ rw above (inr (In-insert_source t ss m))
    | inr below ↦ rw below (inr (inr m))
  ]
  In-insert_source t [] m = elim m [ ]

  insert_source-In : (ss : List SignalSource) → In s (insert_source number s ss)
  unfolding insert_source
  insert_source-In [] = inl refl
  insert_source-In (u ∷ ss) = elim (Bool-cases (ltb (number u) (number s))) [
    | inl above ↦ rw above (inr (insert_source-In ss))
    | inr below ↦ rw below (inl refl)
  ]

  pub In-sort_sources : (ss : List SignalSource) → In s ss → In s (sort_sources number ss)
  unfolding sort_sources
  In-sort_sources (t ∷ ss) (inl e) =
      subst (λ t. In s (insert_source number t (sort_sources number ss))) (sym e)
        (insert_source-In (sort_sources number ss))
  In-sort_sources (t ∷ ss) (inr m) =
      In-insert_source t (sort_sources number ss) (In-sort_sources ss m)
  In-sort_sources [] m = elim m [ ]
