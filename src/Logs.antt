-- ===== src/Logs.antt =====
-- collectors_logs.go: the scanner of lines and the parser of the kernel log. The readers of the source
-- hold their text in memory, so a reader is its text.
pub mod Collect
pub mod Nccl
pub mod Records
pub mod Lines
pub mod Sources
use Prim.Native.Char.{code}
use Prim.Native.String
use gpufleet_agent.Prelude.{
  ℕ, suc, ◌+◌, ◌-◌, ◌*◌, ltb, ◌%◌, ◌^◌, String, Bool, true, false, not, ◌&&◌, ◌||◌, ◌==◌, Option,
  none, some, List, [], ◌∷◌, ◌++◌, length, nat_eq, leb, insert, if◌then◌else◌,
}
use gpufleet_agent.Prelude.Strings.{◌<>◌, itoa}
use gpufleet_agent.Prelude.Text.{trim_space, to_lower, contains, is_digit}
use gpufleet_agent.Prelude.Pattern.{
  Pattern, nothing, char_of, followed, many, group, find_match, is_match, group_1, group_2,
  whole_match, literally, in_any_case, blank, digit, some_of, maybe, one_of, lower_code, parse_uint,
}
use gpufleet_agent.Wire.{
  Time, Duration, SignalSource, dmesg_xid, nccl, XidEvent, NcclEvent, op_completed, op_timeout,
}
use gpufleet_agent.Observation.{Observation, Collected, observed}
use gpufleet_agent.Semantics.{Result, ok, err}
use gpufleet_agent.Chain.{empty_observation, with_provenance}

-- `bufio.Scanner` with a buffer of at most 1 MiB: a longer line ends the scan.
abbrev pub max_line : ℕ
max_line = 1024 * 1024

abbrev pub drop_cr : String → String
drop_cr String.[] = ""
drop_cr (String.◌∷◌ c s) =
    if s == ""
    then (if nat_eq (code c) b'\r' then "" else String.◌∷◌ c "")
    else String.◌∷◌ c (drop_cr s)

abbrev pub last_line : String → List String
last_line line = if line == "" then [] else drop_cr line ∷ []

-- `n` is the length of the line so far.
unfoldable pub scan_from : ℕ → String → String → List String
scan_from n line String.[] = last_line line
scan_from n line (String.◌∷◌ c s) =
    let next = scan_from 0 "" s in
    let longer = scan_from (n + 1) (line <> String.◌∷◌ c "") s in
    if nat_eq (code c) b'\n'
    then drop_cr line ∷ next
    else if leb max_line (n + 1)
    then []
    else longer

unfoldable pub scan_lines : String → List String
unfolding scan_from
scan_lines s = scan_from 0 "" s

-- `(io.Reader, error)`, where a nil reader is `none`.
abbrev pub Reader : Type 0
Reader = Result (Option String)

abbrev hex_or : (ℕ → Bool) → ℕ → Bool
hex_or other c = is_digit c || (leb b'a' (lower_code c) && leb (lower_code c) b'f') || other c

unfoldable pub xid_line : Pattern
xid_line = followed (literally "Xid") (
    followed (many blank) (
      followed (literally "(") (
        followed (group (many (char_of (λ c. not (nat_eq c b')'))))) (
          followed (literally ")") (
            followed (many blank) (
              followed (maybe (literally ":")) (followed (many blank) (group (some_of digit)))))))))

abbrev uuid_char : Pattern
uuid_char = char_of (hex_or (nat_eq b'-'))

unfoldable pub gpu_uuid : Pattern
gpu_uuid = followed (literally "GPU-") (
    followed uuid_char (
      followed uuid_char (
        followed uuid_char (
          followed uuid_char
            (followed uuid_char (followed uuid_char (followed uuid_char (some_of uuid_char))))))))

-- `isKmsgContinuation`
unfoldable pub is_kmsg_continuation : String → Bool
is_kmsg_continuation String.[] = false
is_kmsg_continuation (String.◌∷◌ c s) = nat_eq (code c) b' ' || nat_eq (code c) b'\t'

unfoldable pub kmsg_severity : String → String
unfolding to_lower contains
kmsg_severity raw =
    let low = to_lower raw in
    if contains low "fatal" || contains low "fallen off the bus"
    then "err"
    else if contains low "warn"
    then "warn"
    else "err"

abbrev pub then_parse : ℕ → Option String → Option ℕ
then_parse bits none = none
then_parse bits (some s) = parse_uint bits s

abbrev pub xid_event : Time → String → Option ℕ → List XidEvent
xid_event now raw none = []
xid_event now raw (some xid) =
    record {
      ts = some now;
      device_uuid = whole_match (find_match gpu_uuid raw);
      xid = xid;
      raw_message = trim_space raw;
      severity = kmsg_severity raw;
    }
    ∷ []

-- `emit`, on one record: the events that it adds.
unfoldable pub emit : Time → String → List XidEvent
unfolding xid_line gpu_uuid find_match parse_uint kmsg_severity trim_space
emit now raw =
    if raw == "" then [] else xid_event now raw (then_parse 32 (group_2 (find_match xid_line raw)))

abbrev pub flush : Time → Option String → List XidEvent
flush now none = []
flush now (some raw) = emit now raw

abbrev pub folded : Option String → String → Option String
folded none line = none
folded (some raw) line = some (raw <> " " <> trim_space line)

-- The loop over the lines; the record is `none` before the first header.
unfoldable pub kmsg_loop : Time → Option String → List String → List XidEvent
unfolding emit is_kmsg_continuation
kmsg_loop now rec [] = flush now rec
kmsg_loop now rec (line ∷ lines) =
    let continued = kmsg_loop now (folded rec line) lines in
    let started = kmsg_loop now (some line) lines in
    if is_kmsg_continuation line then continued else flush now rec ++ started

unfoldable pub parse_kmsg_xid : String → Time → List XidEvent
unfolding kmsg_loop scan_lines
parse_kmsg_xid text now = kmsg_loop now none (scan_lines text)

abbrev pub pointers {ℓ} : {A : Type ℓ} → List A → List (Option A)
pointers [] = []
pointers (x ∷ xs) = some x ∷ pointers xs
