-- ===== src/Prelude/Order.antt =====
-- The byte order of texts (`<` on Go strings).
use Prim.Native.Char.{code}
use Prim.Native.String.{String, [], ◌∷◌}
use mathlib.Core.Path.{◌≡◌, refl}
use mathlib.Core.Bool.{Bool, true, false}
use native.Mathlib.Omega.{arith}
use text.Mathlib.TextEquality.{Char-path}
use gpufleet_agent.Prelude.Tests.{ltb, nat_eq, if◌then◌else◌}

-- UTF-8 keeps the order of the code points, so the order of the bytes is this one.
unfoldable pub str_le : String → String → Bool
str_le [] t = true
str_le (c ∷ s) [] = false
str_le (c ∷ s) (d ∷ t) =
    if ltb (code c) (code d) then true else if nat_eq (code c) (code d) then str_le s t else false

pub str_le_trans : (s t u : String) → str_le s t ≡ true → str_le t u ≡ true → str_le s u ≡ true
unfolding str_le
str_le_trans [] t u h k = refl
str_le_trans (c ∷ s) [] u h k = ground arith
str_le_trans (c ∷ s) (d ∷ t) [] h k = ground arith
str_le_trans (c ∷ s) (d ∷ t) (e ∷ u) h k = ground (arith, str_le_trans s t u)

pub str_le_total : (s t : String) → str_le s t ≡ false → str_le t s ≡ true
unfolding str_le
str_le_total [] t h = ground arith
str_le_total (c ∷ s) [] h = refl
str_le_total (c ∷ s) (d ∷ t) h = ground (arith, str_le_total s t)

pub str_le_antisymm : (s t : String) → str_le s t ≡ true → str_le t s ≡ true → s ≡ t
unfolding str_le
str_le_antisymm [] [] h k = refl
str_le_antisymm [] (d ∷ t) h k = ground arith
str_le_antisymm (c ∷ s) [] h k = ground arith
str_le_antisymm (c ∷ s) (d ∷ t) h k = ground (arith, str_le_antisymm s t, Char-path c d)
