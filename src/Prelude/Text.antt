-- ===== src/Prelude/Text.antt =====
-- Functions of the package `strings` that look into a text, over code points. Letter case is that of
-- ASCII; white space is Unicode's.
use Prim.Native.Char.{Char, code}
use gpufleet_agent.Prelude.{
  ℕ, ◌-◌, suc, String, ◌==◌, Bool, true, false, ◌&&◌, ◌||◌, List, [], ◌∷◌, Option, none, some, ◌≡◌,
  refl, leb, nat_eq, if◌then◌else◌,
}
use gpufleet_agent.Prelude.Strings.{◌<>◌, text_at}

-- `unicode.IsSpace`
unfoldable pub is_space : ℕ → Bool
is_space c =
    (leb 9 c && leb c 13)
    || nat_eq c 0x20
    || nat_eq c 0x85
    || nat_eq c 0xa0
    || nat_eq c 0x1680
    || (leb 0x2000 c && leb c 0x200a)
    || nat_eq c 0x2028
    || nat_eq c 0x2029
    || nat_eq c 0x202f
    || nat_eq c 0x205f
    || nat_eq c 0x3000

abbrev pub is_digit : ℕ → Bool
is_digit c = leb b'0' c && leb c b'9'

unfoldable pub trim_left : String → String
unfolding is_space
trim_left String.[] = ""
trim_left (String.◌∷◌ c s) = if is_space (code c) then trim_left s else String.◌∷◌ c s

unfoldable pub trim_right : String → String
unfolding is_space
trim_right String.[] = ""
trim_right (String.◌∷◌ c s) =
    let rest = trim_right s in if (rest == "") && is_space (code c) then "" else String.◌∷◌ c rest

-- `strings.TrimSpace`
unfoldable pub trim_space : String → String
unfolding trim_left trim_right
trim_space s = trim_right (trim_left s)

-- The rest of a text behind a prefix.
unfoldable pub behind : String → String → Option String
behind String.[] s = some s
behind (String.◌∷◌ p ps) String.[] = none
behind (String.◌∷◌ p ps) (String.◌∷◌ c s) =
    let rest = behind ps s in if nat_eq (code p) (code c) then rest else none

abbrev has : Option String → Bool
has none = false
has (some s) = true

-- `strings.HasPrefix`
unfoldable pub has_prefix : String → String → Bool
unfolding behind
has_prefix s prefix = has (behind prefix s)

abbrev or_whole : String → Option String → String
or_whole s none = s
or_whole s (some rest) = rest

-- `strings.TrimPrefix`
unfoldable pub trim_prefix : String → String → String
unfolding behind
trim_prefix s prefix = or_whole s (behind prefix s)

-- `strings.Contains`
unfoldable pub contains : String → String → Bool
unfolding has_prefix
contains String.[] part = has_prefix "" part
contains (String.◌∷◌ c s) part = has_prefix (String.◌∷◌ c s) part || contains s part

-- The text in front of the first such character, and the text behind it: `strings.IndexByte`.
unfoldable pub cut_at : ℕ → String → Option (String × String)
cut_at k String.[] = none
cut_at k (String.◌∷◌ c s) =
    let later = with_front c (cut_at k s) in if nat_eq (code c) k then some ("", s) else later
  where
    with_front : Char → Option (String × String) → Option (String × String)
    with_front c none = none
    with_front c (some (a, b)) = some (String.◌∷◌ c a, b)

-- `strings.TrimSuffix` of a text of one character.
unfoldable pub trim_last : ℕ → String → String
trim_last k String.[] = ""
trim_last k (String.◌∷◌ c s) =
    if (s == "") && nat_eq (code c) k then "" else String.◌∷◌ c (trim_last k s)

abbrev field_if : String → List String → List String
field_if field rest = if field == "" then rest else field ∷ rest

-- The fields of a text behind the characters of one that has begun.
fields_from : String → String → List String
fields_from field String.[] = field_if field []
fields_from field (String.◌∷◌ c s) =
    let next = fields_from "" s in
    let longer = fields_from (field <> String.◌∷◌ c "") s in
    if is_space (code c) then field_if field next else longer

-- `strings.Fields`
unfoldable pub fields : String → List String
unfolding fields_from is_space
fields s = fields_from "" s

abbrev letters : List String
letters =
    "a" ∷ "b" ∷ "c" ∷ "d" ∷ "e" ∷ "f" ∷ "g" ∷ "h" ∷ "i" ∷ "j" ∷ "k" ∷ "l" ∷ "m" ∷ "n" ∷ "o" ∷ "p"
    ∷ "q" ∷ "r" ∷ "s" ∷ "t" ∷ "u" ∷ "v" ∷ "w" ∷ "x" ∷ "y" ∷ "z" ∷ []

-- `strings.ToLower`
unfoldable pub to_lower : String → String
to_lower String.[] = ""
to_lower (String.◌∷◌ c s) =
    (if leb b'A' (code c) && leb (code c) b'Z'
      then text_at letters (code c - b'A')
      else String.◌∷◌ c "")
    <> to_lower s

-- `len` of a text of ASCII.
abbrev pub text_length : String → ℕ
text_length String.[] = 0
text_length (String.◌∷◌ c s) = suc (text_length s)

trim_space_test : trim_space " \t NVIDIA A10\n" ≡ "NVIDIA A10"
unfolding trim_space
trim_space_test = refl

to_lower_test : to_lower "NVIDIA A10" ≡ "nvidia a10"
unfolding to_lower
to_lower_test = refl

contains_test : contains "h100-nvl" "nvl" ≡ true
unfolding contains
contains_test = refl

fields_test : fields " up  1.5\t7 " ≡ "up" ∷ "1.5" ∷ "7" ∷ []
unfolding fields
fields_test = refl
