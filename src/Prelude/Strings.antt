-- ===== src/Prelude/Strings.antt =====
-- Functions of the packages `strings` and `strconv` that the source calls, over code points.
use Prim.Native.Char.{code}
use Prim.Native.String
use text.Mathlib.TextLemmas.{nil-append, cons-append}
use gpufleet_agent.Prelude.{
  ℕ, zero, suc, String, ◌==◌, eq_refl, false, ◌/◌, ◌%◌, ◌≡◌, ◌≢◌, ◌<◌, refl, List, [], ◌∷◌, arith,
  ltb, ◌+◌, Bool, true, All, if◌then◌else◌,
}

infixr 65 ◌<>◌
-- `+` on texts
abbrev pub ◌<>◌ : String → String → String
s <> t = String.◌++◌ s t

-- A code point does not occur in the text.
abbrev pub Lacks : ℕ → String → Type 0
Lacks k String.[] = Unit
Lacks k (String.◌∷◌ c s) = (code c ≢ k) × Lacks k s

pub Lacks-append : (k : ℕ) (s t : String) → Lacks k s → Lacks k t → Lacks k (s <> t)
Lacks-append k String.[] t h g = rw nil-append g
Lacks-append k (String.◌∷◌ c s) t (p, h) g = rw cons-append (p, Lacks-append k s t h g)

-- The text has a first character.
abbrev pub IsText : String → Type 0
IsText String.[] = ⊥
IsText (String.◌∷◌ c s) = Unit

pub IsText-append : (s t : String) → IsText s → IsText (s <> t)
IsText-append String.[] t h = elim h [ ]
IsText-append (String.◌∷◌ c s) t h = rw cons-append tt

pub nonempty-IsText : (s : String) → (s == "") ≡ false → IsText s
nonempty-IsText String.[] h = ground (arith, eq_refl "")
nonempty-IsText (String.◌∷◌ c s) h = tt

-- The digits by their values.
abbrev digits : List String
digits = "0" ∷ "1" ∷ "2" ∷ "3" ∷ "4" ∷ "5" ∷ "6" ∷ "7" ∷ "8" ∷ "9" ∷ []

abbrev pub text_at : List String → ℕ → String
text_at [] n = ""
text_at (d ∷ ds) zero = d
text_at (d ∷ ds) (suc n) = text_at ds n

-- The number is written in front of what is written already.
write_before : ℕ → ℕ → String → String
write_before zero n done = done
write_before (suc fuel) n done =
    let longer = text_at digits (n % 10) <> done in
    let rest = write_before fuel (n / 10) longer in if ltb n 10 then longer else rest

-- `strconv.Itoa` and `strconv.FormatUint(n, 10)`; a number has fewer digits than its value plus 1.
unfoldable pub itoa : ℕ → String
unfolding write_before
itoa n = write_before (n + 1) n ""

text_at-Lacks : (k : ℕ) (ds : List String) (n : ℕ) → All (Lacks k) ds → Lacks k (text_at ds n)
text_at-Lacks k [] n h = tt
text_at-Lacks k (d ∷ ds) zero (p, h) = p
text_at-Lacks k (d ∷ ds) (suc n) (p, h) = text_at-Lacks k ds n h

digits-Lacks : (k : ℕ) → k < b'0' → All (Lacks k) digits
digits-Lacks k h = ground arith

write_before-Lacks :
    (k fuel n : ℕ) (done : String) → k < b'0' → Lacks k done → Lacks k (write_before fuel n done)
unfolding write_before
write_before-Lacks k zero n done h g = g
write_before-Lacks k (suc fuel) n done h g =
    branch _ _ (ltb n 10) longer (write_before-Lacks k fuel (n / 10) _ h longer)
  where
    longer : Lacks k (text_at digits (n % 10) <> done)
    longer = Lacks-append k _ done (text_at-Lacks k digits (n % 10) (digits-Lacks k h)) g

    branch : (s t : String) (b : Bool) → Lacks k s → Lacks k t → Lacks k (if b then s else t)
    branch s t true p q = p
    branch s t false p q = q

-- A printed number has digits only.
pub itoa-Lacks : (k n : ℕ) → k < b'0' → Lacks k (itoa n)
unfolding itoa
itoa-Lacks k n h = write_before-Lacks k (n + 1) n "" h tt

itoa_test : itoa 4096 ≡ "4096"
unfolding itoa
itoa_test = refl

-- `strings.Join`
unfoldable pub join : String → List String → String
join sep [] = ""
join sep (x ∷ []) = x
join sep (x ∷ y ∷ r) = x <> sep <> join sep (y ∷ r)

-- A text, unless it is empty.
abbrev pub or_default : String → String → String
or_default s def = if s == "" then def else s
