-- ===== src/Dcgm/Exposition.antt =====
-- collectors_dcgm.go: the samples in the text that a DCGM exporter serves.
pub mod Devices
pub mod Attributed
pub mod Scrape
use Prim.Native.Char.{code}
use Prim.Native.String
use gpufleet_agent.Prelude.{
  ℕ, ◌+◌, ◌*◌, ◌%◌, ◌^◌, String, Bool, true, false, not, ◌&&◌, ◌||◌, ◌==◌, Option, none, some, List,
  [], ◌∷◌, ◌++◌, length, nat_eq, leb, lookup, insert, keys, if◌then◌else◌,
}
use gpufleet_agent.Prelude.Int.{◌-ℤ◌}
use gpufleet_agent.Prelude.Sort.{sort_strings}
use gpufleet_agent.Prelude.Strings.{◌<>◌, itoa}
use gpufleet_agent.Prelude.Text.{trim_space, trim_prefix, has_prefix, cut_at, trim_last, fields}
use gpufleet_agent.Float.{Float64}
use gpufleet_agent.Wire.{Time, Duration, dcgm, DcgmFieldSeries}
use gpufleet_agent.Observation.{DeviceWindow, Observation, blank_window}
use gpufleet_agent.Semantics.{Result, ok, err}
use gpufleet_agent.Chain.{empty_observation}

-- `dcgmParsedSample`
pub record DcgmParsedSample (F : Type 0) : Type 0 where
  pub symbol : String
  pub labels : List (String × String)
  pub value : F

-- `splitLabels`; `part` is the part so far.
split_from : String → Bool → String → List String
split_from part quoted String.[] = if part == "" then [] else part ∷ []
split_from part quoted (String.◌∷◌ c s) =
    let toggled = split_from (part <> String.◌∷◌ c "") (not quoted) s in
    let longer = split_from (part <> String.◌∷◌ c "") quoted s in
    let next = split_from "" quoted s in
    if nat_eq (code c) b'"'
    then toggled
    else if nat_eq (code c) b',' && not quoted
    then part ∷ next
    else longer

unfoldable pub split_labels : String → List String
unfolding split_from
split_labels s = split_from "" false s

abbrev add_label : Option (String × String) → List (String × String) → List (String × String)
add_label none out = out
add_label (some (k, v)) out =
    insert (trim_space k) (trim_last b'"' (trim_prefix (trim_space v) "\"")) out

labels_from : List String → List (String × String) → List (String × String)
unfolding trim_space trim_prefix trim_last cut_at
labels_from [] out = out
labels_from (kv ∷ kvs) out = labels_from kvs (add_label (cut_at b'=' kv) out)

-- `parseLabels`
unfoldable pub parse_labels : String → List (String × String)
unfolding labels_from split_labels
parse_labels s = labels_from (split_labels s) []

module _ {F : Type 0} ⦃fl : Float64 F⦄ where
  abbrev with_value : String → List (String × String) → Option F → Option (DcgmParsedSample F)
  with_value name labels none = none
  with_value name labels (some v) =
      some (record { symbol = trim_space name; labels = labels; value = v })

  abbrev valued : String → List (String × String) → List String → Option (DcgmParsedSample F)
  valued name labels [] = none
  valued name labels (field ∷ more) = with_value name labels (fl.parse field)

  abbrev labelled : String → Option (String × String) → Option (DcgmParsedSample F)
  labelled name none = none
  labelled name (some (inside, rest)) = valued name (parse_labels inside) (fields (trim_space rest))

  abbrev unlabelled : List String → Option (DcgmParsedSample F)
  unlabelled (name ∷ value ∷ more) = valued name [] (fields value)
  unlabelled (name ∷ []) = none
  unlabelled [] = none

  abbrev line_parts : String → Option (String × String) → Option (DcgmParsedSample F)
  line_parts line none = unlabelled (fields line)
  line_parts line (some (name, rest)) = labelled name (cut_at b'}' rest)

  -- `parseExpositionLine`
  unfoldable pub parse_exposition_line : String → Option (DcgmParsedSample F)
  unfolding parse_labels fields trim_space cut_at
  parse_exposition_line line = line_parts line (cut_at b'{' line)

  abbrev add_sample :
      Option (DcgmParsedSample F) → List (DcgmParsedSample F) → List (DcgmParsedSample F)
  add_sample none rest = rest
  add_sample (some s) rest = s ∷ rest

  -- The loop of `scanExposition` over the lines.
  unfoldable pub samples_of : List String → List (DcgmParsedSample F)
  unfolding parse_exposition_line has_prefix trim_space
  samples_of [] = []
  samples_of (text ∷ lines) =
      let rest = samples_of lines in
      let line = trim_space text in
      if (line == "") || has_prefix line "#"
      then rest
      else add_sample (parse_exposition_line line) rest

-- `bufio.Scanner` with a buffer of at most 4 MiB: a longer line is an error.
abbrev pub max_token : ℕ
max_token = 4 * 1024 * 1024

abbrev then_line : String → Option (List String) → Option (List String)
then_line line none = none
then_line line (some lines) = some (line ∷ lines)

tokens_from : ℕ → String → String → Option (List String)
tokens_from n line String.[] = some (if line == "" then [] else line ∷ [])
tokens_from n line (String.◌∷◌ c s) =
    let next = tokens_from 0 "" s in
    let longer = tokens_from (n + 1) (line <> String.◌∷◌ c "") s in
    if nat_eq (code c) b'\n'
    then then_line line next
    else if leb max_token (n + 1)
    then none
    else longer

-- The lines of a text; a carriage return at the end of a line is left to `TrimSpace`.
unfoldable pub tokens : String → Option (List String)
unfolding tokens_from
tokens s = tokens_from 0 "" s

module _ {F : Type 0} ⦃fl : Float64 F⦄ where
  abbrev scanned : Option (List String) → Result (List (DcgmParsedSample F))
  scanned none = err "agent: scan dcgm exposition: bufio.Scanner: token too long"
  scanned (some lines) = ok (samples_of lines)

  -- `scanExposition`, of a body whose reading may fail.
  unfoldable pub scan_exposition : Result String → Result (List (DcgmParsedSample F))
  unfolding samples_of tokens
  scan_exposition (err e) = err ("agent: scan dcgm exposition: " <> e)
  scan_exposition (ok text) = scanned (tokens text)
