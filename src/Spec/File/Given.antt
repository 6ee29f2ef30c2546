-- ===== src/Spec/File/Given.antt =====
-- device_spec.go, `ParseDeviceSpec`: the entries of the parsed spec are those that the file gives, in
-- whatever order its keys are visited.
use mathlib.Core.Path.{subst}
use gpufleet_agent.Prelude.{
  String, ◌≡◌, ◌↔◌, ◌⊎◌, inl, inr, refl, sym, ap, ◌∙◌, Bool, true, false, ◌==◌, eq_iff, some, ◌&&◌,
  List, [], ◌∷◌, ◌++◌, In, lookup, insert, lookup-insert, arith, Bool-cases, if◌then◌else◌,
}
use gpufleet_agent.Semantics.{Result, ok, err}
use gpufleet_agent.Spec.{DeviceSpecEntry, DeviceSpec}
use gpufleet_agent.Spec.File.{
  SpecHost, empty_spec, insert_all, wrapped, written_uuids, written_models, written_model, read_key,
  read_keys, parse_device_spec,
}

module _ {V : Type 0} where
  -- No key is given two values.
  abbrev pub IsConsistent : List (String × V) → Type 0
  IsConsistent writes = (k : String) (v v' : V) → In (k, v) writes → In (k, v') writes → v ≡ v'

  -- After the writes a key has a value that was written, or else its old one.
  lookup-insert_all :
      (writes m : List (String × V)) (k : String)
      → ((v : V) × In (k, v) writes × (lookup k (insert_all writes m) ≡ some v))
        ⊎ (((v : V) → In (k, v) writes → ⊥) × (lookup k (insert_all writes m) ≡ lookup k m))
  unfolding insert_all
  lookup-insert_all [] m k = inr (λ v h. h, refl)
  lookup-insert_all ((j, u) ∷ writes) m k = elim (lookup-insert_all writes (insert j u m) k) [
    | inl (v, h, e) ↦ inl (v, inr h, e)
    | inr (no_later, e) ↦ elim (Bool-cases (j == k)) [
      | inl same ↦
          inl (
            u,
            inl (ground (arith, (eq_iff j k).0 same)),
            e ∙ lookup-insert j k u m ∙ (rw same refl),
          )
      | inr other ↦ inr (
        λ v h. elim h [
          | inl p ↦ cc ((eq_iff j k).1 (ap (λ x. x.0) p), other)
          | inr q ↦ no_later v q
        ],
        e ∙ lookup-insert j k u m ∙ (rw other refl),
      )
    ]
  ]

  insert_all-append :
      (writes more m : List (String × V))
      → insert_all (writes ++ more) m ≡ insert_all more (insert_all writes m)
  unfolding insert_all
  insert_all-append [] more m = refl
  insert_all-append ((k, v) ∷ writes) more m = insert_all-append writes more (insert k v m)

  -- A map of consistent writes has the value of a key exactly if that value was written.
  lookup-In :
      (writes : List (String × V)) (k : String) (v : V)
      → IsConsistent writes
      → (lookup k (insert_all writes []) ≡ some v) ↔ In (k, v) writes
  unfolding lookup
  lookup-In writes k v consistent = elim (lookup-insert_all writes [] k) [
    | inl (u, h, e) ↦ (
      λ f. subst (λ x. In (k, x) writes) (some_inj (sym e ∙ f)) h,
      λ m. e ∙ ap some (consistent k u v h m),
    )
    | inr (no_write, e) ↦ (λ f. ground (arith, e, f), λ m. absurd (no_write v m))
  ]
    where
      some_inj : {u : V} → some u ≡ some v → u ≡ v
      some_inj p = cc

abbrev written {ℓ} : {A : Type ℓ} → Result (List A) → List A
written (ok xs) = xs
written (err e) = []

abbrev single {ℓ} : {A : Type ℓ} → String → Result A → List (String × A)
single k (ok a) = (k, a) ∷ []
single k (err e) = []

abbrev is_ok {ℓ} : {A : Type ℓ} → Result A → Bool
is_ok (ok a) = true
is_ok (err e) = false

module _ {F W : Type 0} (host : SpecHost F W) where
  -- What a key of the file gives to devices by UUID, and by model; and whether its value decodes.
  abbrev uuids_in : String → String → List (String × DeviceSpecEntry F)
  uuids_in k v = if k == "by_uuid" then written (host.entries v) else []

  abbrev models_in : String → String → List (String × DeviceSpecEntry F)
  models_in k v =
      if k == "by_uuid"
      then []
      else if k == "by_model"
      then written (host.entries v)
      else single k (host.entry v)

  abbrev decodes : String → String → Bool
  decodes k v =
      if k == "by_uuid"
      then is_ok (host.entries v)
      else if k == "by_model"
      then is_ok (host.entries v)
      else is_ok (host.entry v)

  abbrev pub given_uuids : List (String × String) → List (String × DeviceSpecEntry F)
  given_uuids [] = []
  given_uuids ((k, v) ∷ raw) = uuids_in k v ++ given_uuids raw

  abbrev pub given_models : List (String × String) → List (String × DeviceSpecEntry F)
  given_models [] = []
  given_models ((k, v) ∷ raw) = models_in k v ++ given_models raw

  -- What a step does to a spec: it writes what is given, or fails if the value does not decode.
  abbrev Writes :
      Bool
      → List (String × DeviceSpecEntry F)
      → List (String × DeviceSpecEntry F)
      → DeviceSpec F
      → Result (DeviceSpec F)
      → Type 0
  Writes decoded uuids models spec (ok next) =
      (decoded ≡ true)
      × (next.by_uuid ≡ insert_all uuids spec.by_uuid)
      × (next.by_model ≡ insert_all models spec.by_model)
  Writes decoded uuids models spec (err e) = decoded ≡ false

  read_key-Writes :
      (k v : String) (spec : DeviceSpec F)
      → Writes (decodes k v) (uuids_in k v) (models_in k v) spec (read_key host k v spec)
  unfolding read_key insert_all
  read_key-Writes k v spec = elim (Bool-cases (k == "by_uuid")) [
    | inl u ↦ rw u (uuids _ (host.entries v))
    | inr u ↦ elim (Bool-cases (k == "by_model")) [
      | inl m ↦ rw (u, m) (models _ (host.entries v))
      | inr m ↦ rw (u, m) (model _ (host.entry v))
    ]
  ]
    where
      uuids :
          (message : String) (r : Result (List (String × DeviceSpecEntry F)))
          → Writes (is_ok r) (written r) [] spec (written_uuids host spec (wrapped message r))
      uuids message (ok m) = (refl, refl, refl)
      uuids message (err e) = refl

      models :
          (message : String) (r : Result (List (String × DeviceSpecEntry F)))
          → Writes (is_ok r) [] (written r) spec (written_models host spec (wrapped message r))
      models message (ok m) = (refl, refl, refl)
      models message (err e) = refl

      model :
          (message : String) (r : Result (DeviceSpecEntry F))
          → Writes (is_ok r) [] (single k r) spec (written_model host spec k (wrapped message r))
      model message (ok e) = (refl, refl, refl)
      model message (err e) = refl

  abbrev all_decode : List (String × String) → Bool
  all_decode [] = true
  all_decode ((k, v) ∷ raw) = decodes k v && all_decode raw

  read_keys-Writes :
      (raw : List (String × String)) (spec : DeviceSpec F)
      → Writes (all_decode raw) (given_uuids raw) (given_models raw) spec (read_keys host raw spec)
  unfolding read_keys insert_all
  read_keys-Writes [] spec = (refl, refl, refl)
  read_keys-Writes ((k, v) ∷ raw) spec =
      step (read_keys-Writes raw) (read_key host k v spec) (read_key-Writes k v spec)
    where
      later :
          (next : DeviceSpec F) (r : Result (DeviceSpec F))
          → Writes (decodes k v) (uuids_in k v) (models_in k v) spec (ok next)
          → Writes (all_decode raw) (given_uuids raw) (given_models raw) next r
          → Writes
              (all_decode ((k, v) ∷ raw))
              (given_uuids ((k, v) ∷ raw))
              (given_models ((k, v) ∷ raw))
              spec
              r
      later next (ok last) (d, us, ms) (ds, us', ms') = (
        rw (d, ds) refl,
        us'
            ∙ ap (insert_all (given_uuids raw)) us
            ∙ sym (insert_all-append (uuids_in k v) (given_uuids raw) spec.by_uuid),
        ms'
            ∙ ap (insert_all (given_models raw)) ms
            ∙ sym (insert_all-append (models_in k v) (given_models raw) spec.by_model),
      )
      later next (err e) (d, us, ms) ds = rw (d, ds) refl

      step :
          ((next : DeviceSpec F)
            → Writes
                (all_decode raw)
                (given_uuids raw)
                (given_models raw)
                next
                (read_keys host raw next))
          → (r : Result (DeviceSpec F)) → Writes (decodes k v) (uuids_in k v) (models_in k v) spec r
          → Writes
              (all_decode ((k, v) ∷ raw))
              (given_uuids ((k, v) ∷ raw))
              (given_models ((k, v) ∷ raw))
              spec
              (elim r [ ok next ↦ read_keys host raw next | err e ↦ err e ])
      step ih (ok next) h = later next (read_keys host raw next) h (ih next)
      step ih (err e) h = rw h refl

  -- What the parser answers on a file with these keys.
  abbrev pub Gives : List (String × String) → Result (DeviceSpec F) → Type 0
  Gives raw (ok spec) =
      (all_decode raw ≡ true)
      × ((uuid : String) (e : DeviceSpecEntry F)
          → (lookup uuid spec.by_uuid ≡ some e) ↔ In (uuid, e) (given_uuids raw))
      × ((model : String) (e : DeviceSpecEntry F)
          → (lookup model spec.by_model ≡ some e) ↔ In (model, e) (given_models raw))
  Gives raw (err e) = all_decode raw ≡ false

  -- Where no UUID and no model is given two entries, whatever the order in which the keys of the file
  -- are visited: parsing fails exactly if the value of some key does not decode; and otherwise a UUID,
  -- or a model, has an entry in the spec exactly if the file gives it that entry, a model either by a
  -- key of its own or under `by_model`.
  pub parse_device_spec-Gives :
      (text : String) (raw : List (String × String))
      → host.raw_object text ≡ ok raw
      → IsConsistent (given_uuids raw)
      → IsConsistent (given_models raw)
      → Gives raw (parse_device_spec host text)
  unfolding parse_device_spec
  parse_device_spec-Gives text raw e us ms =
      rw e (by_result (read_keys host raw empty_spec) (read_keys-Writes raw empty_spec))
    where
      by_result :
          (r : Result (DeviceSpec F))
          → Writes (all_decode raw) (given_uuids raw) (given_models raw) empty_spec r
          → Gives raw r
      by_result (err e) h = h
      by_result (ok spec) (d, u, m) = (
        d,
        λ uuid e. rw u (lookup-In (given_uuids raw) uuid e us),
        λ model e. rw m (lookup-In (given_models raw) model e ms),
      )
