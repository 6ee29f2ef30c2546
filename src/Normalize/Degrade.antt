-- ===== src/Normalize/Degrade.antt =====
-- What the device loop leaves for one device: its sample, its spec and its marks.
use gpufleet_agent.Prelude.{
  String, ◌≡◌, refl, ◌∙◌, Bool, true, false, not, ◌&&◌, ◌||◌, Bool-cases, Option, none, some,
  is_some, List, [], ◌∷◌, ◌++◌, inl, inr, ◌==◌, eq_iff, eq_refl, arith, if◌then◌else◌, lookup, keys,
}
use gpufleet_agent.Prelude.Sort.{sort_strings, insert_sorted}
use gpufleet_agent.Float.{Float64}
use gpufleet_agent.Wire.{DeviceJobMapping}
use gpufleet_agent.Observation.{DeviceWindow}
use gpufleet_agent.Gather.{Gathered, contains}
use gpufleet_agent.Devices.{
  DegradeMark, when, device_marks, can_mfu, sample_of, spec_of, merged_at, device_loop,
}

-- Some mark names the device and the field.
abbrev pub is_marked : String → String → List DegradeMark → Bool
is_marked u f [] = false
is_marked u f (m ∷ ms) = (m.device_uuid == u && m.field == f) || is_marked u f ms

is_marked-append :
    (u f : String) (xs ys : List DegradeMark)
    → is_marked u f (xs ++ ys) ≡ (is_marked u f xs || is_marked u f ys)
is_marked-append u f [] ys = refl
is_marked-append u f (x ∷ xs) ys = ground (arith, is_marked-append u f xs ys)

pub contains-keys :
    {V : Type 0} (u : String) (m : List (String × V)) → contains u (keys m) ≡ is_some (lookup u m)
unfolding keys lookup
contains-keys u [] = refl
contains-keys u ((k, v) ∷ m) = ground (arith, contains-keys u m)

contains-insert_sorted :
    (u x : String) (l : List String)
    → contains u (insert_sorted x l) ≡ (if x == u then true else contains u l)
unfolding sort_strings
contains-insert_sorted u x [] = refl
contains-insert_sorted u x (y ∷ l) = ground (arith, contains-insert_sorted u x l)

pub contains-sort_strings :
    (u : String) (l : List String) → contains u (sort_strings l) ≡ contains u l
unfolding sort_strings
contains-sort_strings u [] = refl
contains-sort_strings u (x ∷ l) =
    ground (arith, contains-insert_sorted u x (sort_strings l), contains-sort_strings u l)

-- One round of a loop that adds an entry for `v` under a test.
lookup-when :
    {V : Type 0} (p : String → Bool) (f : String → V) (u v : String) (us : List String)
    (rest : List (String × V))
    → lookup u rest ≡ (if contains u us && p u then some (f u) else none)
    → lookup u (when (p v) (v, f v) ++ rest)
      ≡ (if contains u (v ∷ us) && p u then some (f u) else none)
unfolding lookup
lookup-when p f u v us rest h = elim (Bool-cases (v == u)) [
  | inl same ↦ rw ((eq_iff v u).0 same) (ground (arith, eq_refl u))
  | inr other ↦ ground arith
]

module _ {F : Type 0} ⦃fl : Float64 F⦄ (g : Gathered F) where
  pub lookup-samples :
      (u : String) (us : List String)
      → lookup u (device_loop g us).samples ≡ (
          if contains u us && can_mfu (merged_at g u)
          then some (sample_of (merged_at g u))
          else none)
  unfolding device_loop lookup
  lookup-samples u [] = refl
  lookup-samples u (v ∷ us) =
      lookup-when (λ x. can_mfu (merged_at g x)) (λ x. sample_of (merged_at g x)) u v us _
        (lookup-samples u us)

  pub lookup-specs :
      (u : String) (us : List String)
      → lookup u (device_loop g us).specs ≡ (
          if contains u us && can_mfu (merged_at g u) then some (spec_of (merged_at g u)) else none)
  unfolding device_loop lookup
  lookup-specs u [] = refl
  lookup-specs u (v ∷ us) =
      lookup-when (λ x. can_mfu (merged_at g x)) (λ x. spec_of (merged_at g x)) u v us _
        (lookup-specs u us)

-- One round of a loop that marks `v` under a test.
mark_round :
    (p : String → Bool) (u v : String) (us : List String) (later : Bool)
    → later ≡ (contains u us && p u)
    → ((v == u && p v) || later) ≡ (contains u (v ∷ us) && p u)
mark_round p u v us later h = elim (Bool-cases (v == u)) [
  | inl same ↦ rw ((eq_iff v u).0 same) (ground (arith, eq_refl u))
  | inr other ↦ ground arith
]

-- The input that a field's mark says is missing.
module _ {F : Type 0} ⦃fl : Float64 F⦄ where
  abbrev pub Reads : String → (DeviceWindow F → Bool) → Type 0
  Reads f known =
      (u v : String) (dw : DeviceWindow F) (m : Option (DeviceJobMapping F))
      → is_marked u f (device_marks v dw m) ≡ (v == u && not (known dw))

  pub marks_achieved : Reads "achieved_flops" (λ dw. dw.achieved_flops_known)
  unfolding device_marks
  marks_achieved u v dw m = ground arith

  pub marks_mfu : Reads "mfu" (λ dw. dw.peak_flops_known)
  unfolding device_marks
  marks_mfu u v dw m = ground arith

  pub marks_tensor : Reads "tensor_active" (λ dw. dw.tensor_active_known)
  unfolding device_marks
  marks_tensor u v dw m = ground arith

  pub marks_cost : Reads "cost" (λ dw. dw.cost_known)
  unfolding device_marks
  marks_cost u v dw m = ground arith

  pub is_marked-device_loop :
      (f : String) (known : DeviceWindow F → Bool) (g : Gathered F) (u : String) (us : List String)
      → Reads f known
      → is_marked u f (device_loop g us).degraded ≡ (contains u us && not (known (merged_at g u)))
  unfolding device_loop
  is_marked-device_loop f known g u [] reads = refl
  is_marked-device_loop f known g u (v ∷ us) reads =
      is_marked-append u f (device_marks v (merged_at g v) (lookup v g.mapping_by_device)) _
      ∙ rw (reads u v) (
          mark_round (λ x. not (known (merged_at g x))) u v us _
            (is_marked-device_loop f known g u us reads))
