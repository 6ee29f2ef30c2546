-- ===== src/Prelude/Dict.antt =====
-- Go maps with text keys, as association lists; a write replaces the entry in place.
use Prim.Native.String.{String}
use mathlib.Core.Path.{◌≡◌, refl}
use mathlib.Core.Option.{Option, none, some}
use mathlib.Core.List.{List, [], ◌∷◌}
use native.Mathlib.Omega.{arith}
use text.Mathlib.Text.{◌==◌}
use text.Mathlib.TextEquality.{eq_iff}
use gpufleet_agent.Prelude.Tests.{if◌then◌else◌}

module _ {ℓ} {V : Type ℓ} where
  -- `m[name]`, where the entry may be missing.
  unfoldable pub lookup : String → List (String × V) → Option V
  lookup name [] = none
  lookup name (entry ∷ rest) = if entry.0 == name then some entry.1 else lookup name rest

  -- `m[name] = value`
  unfoldable pub insert : String → V → List (String × V) → List (String × V)
  insert name value [] = (name, value) ∷ []
  insert name value (entry ∷ rest) =
      if entry.0 == name then (name, value) ∷ rest else entry ∷ insert name value rest

  unfoldable pub keys : List (String × V) → List String
  keys [] = []
  keys (entry ∷ rest) = entry.0 ∷ keys rest

  -- What a map has after a write.
  pub lookup-insert :
      (name other : String) (value : V) (entries : List (String × V))
      → lookup other (insert name value entries)
        ≡ (if name == other then some value else lookup other entries)
  unfolding lookup insert
  lookup-insert name other value [] = refl
  lookup-insert name other value (entry ∷ rest) =
      let later = lookup-insert name other value rest in
      ground (arith, later, eq_iff name other, eq_iff entry.0 name, eq_iff entry.0 other)
