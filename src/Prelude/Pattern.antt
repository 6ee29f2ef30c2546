-- ===== src/Prelude/Pattern.antt =====
-- What the source uses of the package `regexp`: the leftmost match that a backtracking search finds
-- first, with its groups. Letters under `(?i)` match in both cases of ASCII.
use Prim.Native.Char.{code}
use gpufleet_agent.Prelude.{
  ℕ, zero, suc, ◌+◌, ◌-◌, ◌*◌, ◌^◌, String, ◌≡◌, refl, ◌==◌, Bool, true, false, ◌&&◌, ◌||◌, List,
  [], ◌∷◌, ◌++◌, Option, none, some, ltb, leb, nat_eq, if◌then◌else◌,
}
use gpufleet_agent.Prelude.Text.{text_length, is_digit}

pub data Pattern : Type 0 where
  nothing : Pattern
  -- One character of a class.
  char_of : (ℕ → Bool) → Pattern
  followed : Pattern → Pattern → Pattern
  either : Pattern → Pattern → Pattern
  -- As often as possible.
  many : Pattern → Pattern
  group : Pattern → Pattern

-- What follows a part of a match: the rest of the text, and the groups so far.
abbrev Next {ℓ} : Type ℓ → Type ℓ
Next A = String → List String → Option A

abbrev first_of {ℓ} : {A : Type ℓ} → Option A → Option A → Option A
first_of (some a) o = some a
first_of none o = o

-- The part of a text in front of its rest.
abbrev front : ℕ → String → String
front zero s = ""
front (suc n) String.[] = ""
front (suc n) (String.◌∷◌ c s) = String.◌∷◌ c (front n s)

abbrev before : String → String → String
before s rest = front (text_length s - text_length rest) s

abbrev step_char : {A : Type 0} → (ℕ → Bool) → String → List String → Next A → Option A
step_char class String.[] groups k = none
step_char class (String.◌∷◌ c s) groups k = if class (code c) then k s groups else none

repeat :
    {A : Type 0}
    → (String → List String → Next A → Option A)
    → ℕ
    → String
    → List String
    → Next A
    → Option A
repeat step zero s groups k = k s groups
repeat step (suc n) s groups k =
    first_of (step s groups (λ s' groups'. repeat step n s' groups' k)) (k s groups)

-- Every repeated part takes a character, so the length of the text bounds the repetitions.
unfoldable pub match_here : {A : Type 0} → Pattern → String → List String → Next A → Option A
unfolding repeat
match_here nothing s groups k = k s groups
match_here (char_of class) s groups k = step_char class s groups k
match_here (followed p q) s groups k =
    match_here p s groups (λ s' groups'. match_here q s' groups' k)
match_here (either p q) s groups k = first_of (match_here p s groups k) (match_here q s groups k)
match_here (many p) s groups k =
    repeat (λ s' groups' k'. match_here p s' groups' k') (text_length s) s groups k
match_here (group p) s groups k =
    match_here p s groups (λ s' groups'. k s' (groups' ++ before s s' ∷ []))

abbrev matched_at : Pattern → String → Option (String × List String)
matched_at p s = match_here p s [] (λ rest groups. some (before s rest, groups))

-- `FindStringSubmatch`: the match and its groups.
unfoldable pub find_match : Pattern → String → Option (String × List String)
unfolding match_here
find_match p String.[] = matched_at p ""
find_match p (String.◌∷◌ c s) = first_of (matched_at p (String.◌∷◌ c s)) (find_match p s)

-- `MatchString`
abbrev pub is_match : Option (String × List String) → Bool
is_match none = false
is_match (some m) = true

-- The groups that the source reads: the first, the second, and the whole match.
abbrev nth : ℕ → List String → String
nth n [] = ""
nth zero (g ∷ gs) = g
nth (suc n) (g ∷ gs) = nth n gs

abbrev pub group_1 : Option (String × List String) → Option String
group_1 none = none
group_1 (some (whole, groups)) = some (nth 0 groups)

abbrev pub group_2 : Option (String × List String) → Option String
group_2 none = none
group_2 (some (whole, groups)) = some (nth 1 groups)

-- `FindString`
abbrev pub whole_match : Option (String × List String) → String
whole_match none = ""
whole_match (some (whole, groups)) = whole

abbrev pub literally : String → Pattern
literally String.[] = nothing
literally (String.◌∷◌ c s) = followed (char_of (nat_eq (code c))) (literally s)

-- A letter in both cases.
abbrev pub lower_code : ℕ → ℕ
lower_code c = if leb b'A' c && leb c b'Z' then c + 32 else c

abbrev pub in_any_case : String → Pattern
in_any_case String.[] = nothing
in_any_case (String.◌∷◌ c s) =
    followed (char_of (λ d. nat_eq (lower_code (code c)) (lower_code d))) (in_any_case s)

-- `\s`
abbrev pub blank : Pattern
blank = char_of (λ c. nat_eq c 9 || nat_eq c 10 || nat_eq c 12 || nat_eq c 13 || nat_eq c 32)

-- `\d`
abbrev pub digit : Pattern
digit = char_of is_digit

abbrev pub some_of : Pattern → Pattern
some_of p = followed p (many p)

abbrev pub maybe : Pattern → Pattern
maybe p = either p nothing

abbrev pub one_of : List Pattern → Pattern
one_of [] = nothing
one_of (p ∷ []) = p
one_of (p ∷ q ∷ r) = either p (one_of (q ∷ r))

value_from : ℕ → String → Option ℕ
value_from n String.[] = some n
value_from n (String.◌∷◌ c s) =
    let rest = value_from (n * 10 + (code c - b'0')) s in if is_digit (code c) then rest else none

abbrev below : ℕ → Option ℕ → Option ℕ
below limit none = none
below limit (some n) = if ltb n limit then some n else none

-- `strconv.ParseUint(s, 10, bits)`
unfoldable pub parse_uint : ℕ → String → Option ℕ
unfolding value_from
parse_uint bits s = if s == "" then none else below (2 ^ bits) (value_from 0 s)

find_match_test :
    find_match (followed (literally "(") (group (some_of digit))) "a(b (17)"
    ≡ some ("(17", "17" ∷ [])
unfolding find_match
find_match_test = refl

parse_uint_test : parse_uint 32 "4294967296" ≡ none
unfolding parse_uint
parse_uint_test = refl
