-- ===== src/Logs/Nccl.antt =====
-- collectors_logs.go: the parser of the logs of NCCL.
use gpufleet_agent.Prelude.{
  ℕ, ◌*◌, ◌%◌, ◌^◌, String, not, ◌&&◌, ◌||◌, ◌==◌, Option, none, some, List, [], ◌∷◌, ◌++◌, nat_eq,
  if◌then◌else◌,
}
use gpufleet_agent.Prelude.Text.{trim_space}
use gpufleet_agent.Prelude.Pattern.{
  Pattern, char_of, followed, many, group, find_match, is_match, group_1, group_2, literally,
  in_any_case, blank, digit, some_of, maybe, one_of, lower_code, parse_uint,
}
use gpufleet_agent.Wire.{Time, NcclEvent, op_completed, op_timeout}
use gpufleet_agent.Logs.{scan_lines, hex_or, then_parse}

unfoldable pub nccl_watchdog : Pattern
nccl_watchdog = followed (in_any_case "nccl") (
    followed (many (char_of (λ c. not (nat_eq c b'\n')))) (
      group
        (one_of (in_any_case "timeout" ∷ in_any_case "timed out" ∷ in_any_case "watchdog" ∷ []))))

unfoldable pub nccl_rank : Pattern
nccl_rank = followed (in_any_case "rank") (followed (some_of blank) (group (some_of digit)))

unfoldable pub nccl_op : Pattern
nccl_op = group (
    one_of (
      in_any_case "AllReduce"
      ∷ in_any_case "Broadcast"
      ∷ in_any_case "AllGather"
      ∷ in_any_case "ReduceScatter"
      ∷ in_any_case "Reduce"
      ∷ in_any_case "SendRecv"
      ∷ []))

unfoldable pub nccl_comm : Pattern
nccl_comm = followed (in_any_case "comm") (
    followed (maybe (in_any_case "unicator")) (
      followed (many blank) (
        followed (maybe (char_of (λ c. nat_eq c b':' || nat_eq c b'='))) (
          followed (many blank)
            (group (some_of (char_of (hex_or (λ c. nat_eq (lower_code c) b'x')))))))))

unfoldable pub nccl_duration : Pattern
nccl_duration =
    followed (group (some_of digit))
      (followed (many blank) (group (one_of (literally "us" ∷ literally "ms" ∷ []))))

abbrev text_or : String → Option String → String
text_or s none = s
text_or s (some t) = t

abbrev number_or : Option ℕ → ℕ
number_or none = 0
number_or (some n) = n

-- The unit of a duration: `n *= 1000` wraps.
abbrev in_microseconds : Option String → Option ℕ → ℕ
in_microseconds unit none = 0
in_microseconds unit (some n) = if text_or "" unit == "ms" then n * 1000 % 2 ^ 64 else n

-- One line of `parseNCCL`.
unfoldable pub nccl_line : Time → String → List NcclEvent
unfolding nccl_watchdog nccl_rank nccl_op nccl_comm nccl_duration find_match parse_uint trim_space
nccl_line now raw =
    let is_watchdog = is_match (find_match nccl_watchdog raw) in
    let op = text_or "" (group_1 (find_match nccl_op raw)) in
    let duration = find_match nccl_duration raw in
    if not is_watchdog && (op == "")
    then []
    else record {
      ts = some now;
      kind = if is_watchdog then op_timeout else op_completed;
      op = op;
      raw_message = trim_space raw;
      rank = number_or (then_parse 32 (group_1 (find_match nccl_rank raw)));
      communicator_id = text_or "" (group_1 (find_match nccl_comm raw));
      duration_us = in_microseconds (group_2 duration) (then_parse 64 (group_1 duration));
    }
      ∷ []

unfoldable pub nccl_lines : Time → List String → List NcclEvent
unfolding nccl_line
nccl_lines now [] = []
nccl_lines now (raw ∷ lines) = nccl_line now raw ++ nccl_lines now lines

unfoldable pub parse_nccl : String → Time → List NcclEvent
unfolding nccl_lines scan_lines
parse_nccl text now = nccl_lines now (scan_lines text)
