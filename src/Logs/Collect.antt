-- ===== src/Logs/Collect.antt =====
-- collectors_logs.go and collectors_nccl.go: the collectors of both logs, with their sources.
use gpufleet_agent.Prelude.{
  ℕ, ◌-◌, ◌*◌, ltb, ◌^◌, String, Bool, not, ◌&&◌, ◌==◌, Option, none, some, length, if◌then◌else◌,
}
use gpufleet_agent.Prelude.Strings.{itoa}
use gpufleet_agent.Wire.{Time, Duration, dmesg_xid, nccl}
use gpufleet_agent.Observation.{Observation, Collected, observed}
use gpufleet_agent.Semantics.{ok, err}
use gpufleet_agent.Chain.{empty_observation, with_provenance}
use gpufleet_agent.Logs.{Reader, parse_kmsg_xid, pointers}
use gpufleet_agent.Logs.Nccl.{parse_nccl}

-- `LogSource`, with `SetKill` where it is `killWirable`.
pub record LogSource (W : Type 0) : Type 0 where
  pub kmsg : W → Reader × W
  pub nccl_log : W → Reader × W
  pub set_kill : Option (W → W)

-- `LogEventCollector`
pub record LogEventCollector (W : Type 0) : Type 0 where
  pub src : Option (LogSource W)
  pub node : String

module _ {F : Type 0} where
  abbrev pub xids_read : Time → Reader → Observation F → Observation F
  xids_read now (ok (some text)) o =
      let events = parse_kmsg_xid text now in
      with_provenance "xid_events" (itoa (length events))
        (with_provenance "kmsg" "read" (record o { xid_events = pointers events }))
  xids_read now (ok none) o = with_provenance "kmsg" "unavailable" o
  xids_read now (err e) o = with_provenance "kmsg" "unavailable" o

  abbrev pub nccl_read : Time → Reader → Observation F → Observation F
  nccl_read now (ok (some text)) o =
      let events = parse_nccl text now in
      with_provenance "nccl_events" (itoa (length events))
        (with_provenance "nccl" "read" (record o { nccl_events = pointers events }))
  nccl_read now (ok none) o = with_provenance "nccl" "unavailable" o
  nccl_read now (err e) o = with_provenance "nccl" "unavailable" o

module _ {F W : Type 0} where
  abbrev pub logs_read : Time → Observation F → Option (LogSource W) → W → Collected F × W
  logs_read now o none w =
      (observed (with_provenance "nccl" "unavailable" (with_provenance "kmsg" "unavailable" o)), w)
  logs_read now o (some src) w =
      let kmsg = src.kmsg w in
      let nccl = src.nccl_log kmsg.1 in
      (observed (nccl_read now nccl.0 (xids_read now kmsg.0 o)), nccl.1)

  -- `LogEventCollector.Collect`
  unfoldable pub log_collect : LogEventCollector W → Time → Duration → W → Collected F × W
  unfolding parse_kmsg_xid parse_nccl
  log_collect c now window w =
      logs_read now
        (with_provenance "node" c.node
          (with_provenance "source" "log-events" (empty_observation dmesg_xid)))
        c.src w

-- `NCCLLogCollector`; `read` is the seam of the tests.
pub record NcclLogCollector (W : Type 0) : Type 0 where
  pub path : String
  pub node : String
  pub read : Option (W → Reader × W)

abbrev pub nccl_max_bytes : ℕ
nccl_max_bytes = 4 * 2 ^ 20

-- What `reader` calls of the package os: `Open`, and of the open file `Stat`, `Seek` to a place and
-- a limited read from there, each of which may fail.
pub record File : Type 0 where
  pub size : Option ℕ
  pub seek : ℕ → Bool
  pub read_at : ℕ → ℕ → Option String

pub record Files (W : Type 0) : Type 0 where
  pub open_file : String → W → Option File × W

abbrev pub nonempty : Option String → Reader
nonempty none = ok none
nonempty (some text) = if text == "" then ok none else ok (some text)

-- Where the last bytes begin, if the file is larger than what is read.
abbrev pub tail_offset : Option ℕ → ℕ
tail_offset none = 0
tail_offset (some size) = size - nccl_max_bytes

unfoldable pub read_tail : Option File → Reader
read_tail none = ok none
read_tail (some f) =
    let offset = tail_offset f.size in
    if ltb 0 offset && not (f.seek offset)
    then ok none
    else nonempty (f.read_at offset nccl_max_bytes)

abbrev pub tail_read : {F : Type 0} → Time → Reader → Observation F → Observation F
tail_read now (ok (some text)) o =
    with_provenance "nccl" "read" (record o { nccl_events = pointers (parse_nccl text now) })
tail_read now (ok none) o = with_provenance "nccl" "unavailable" o
tail_read now (err e) o = with_provenance "nccl" "unavailable" o

module _ {W : Type 0} where
  abbrev open_path : Files W → String → W → Reader × W
  open_path files path w =
      if path == ""
      then (ok none, w)
      else (let answer = files.open_file path w in (read_tail answer.0, answer.1))

  unfoldable pub nccl_reader : Files W → NcclLogCollector W → W → Reader × W
  unfolding read_tail
  nccl_reader files c w = elim c.read [ some seam ↦ seam w | none ↦ open_path files c.path w ]

  -- `NCCLLogCollector.Collect`
  unfoldable pub nccl_collect :
      {F : Type 0} → Files W → NcclLogCollector W → Time → Duration → W → Collected F × W
  unfolding nccl_reader parse_nccl
  nccl_collect files c now window w =
      let reader = nccl_reader files c w in
      (
        observed (
            tail_read now reader.0 (
              with_provenance "path" c.path (
                with_provenance "node" c.node
                  (with_provenance "source" "nccl-log" (empty_observation nccl))))),
        reader.1,
      )
