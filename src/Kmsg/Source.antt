-- ===== src/Kmsg/Source.antt =====
-- collectors_kmsg.go, the reader of a raw descriptor, `boundedReadToReader` and `killCell`; and the log
-- source of the GPU build in sources_gpu.go and log_source_real_gpu.go.
pub mod Ends
use gpufleet_agent.Prelude.{
  ℕ, suc, String, Bool, true, false, ◌==◌, Option, none, some, List, if◌then◌else◌,
}
use gpufleet_agent.Prelude.Int.{ℤ, pos, pos_part}
use gpufleet_agent.Wire.{Duration}
use gpufleet_agent.Semantics.{ok}
use gpufleet_agent.Daemon.{Clock}
use gpufleet_agent.Kmsg.{Reader, BoundedReadConfig, Drained, limits_of, bounded_read_stream}
use gpufleet_agent.Logs.Collect.{LogSource}
use gpufleet_agent.Runtime.{Cell}

-- The errors of `syscall.Read` that the source tells apart.
pub data Errno : Type 0 where
  eagain eintr other : Errno

-- The system calls: opening a path without blocking, reading a descriptor, which returns no byte
-- where it returns -1, and closing it; `os.OpenFile` of a path, whose reads go through the runtime;
-- `time.Now`; and the text of some bytes.
pub record Device (W : Type 0) : Type 0 where
  pub open_nonblock : String → W → Option ℕ × W
  pub read : ℕ → ℕ → W → (List ℕ × Option Errno) × W
  pub close : ℕ → W → W
  pub open_file : String → W → Option (Reader W) × W
  pub close_file : String → W → W
  pub clock : Clock W
  pub text : List ℕ → String

abbrev is_failure : Option Errno → Bool
is_failure none = false
is_failure (some eagain) = false
is_failure (some eintr) = false
is_failure (some other) = true

-- `killCell`: the channel that is installed, in the store; a nil cell is `none`.
abbrev pub KillCell : Type 0 → Type 0
KillCell W = Option (Cell (Option (W → Bool)) W)

module _ {W : Type 0} where
  -- `rawNonblockReader.Read`
  unfoldable pub raw_read : Device W → ℕ → Reader W
  raw_read dev fd n w = let r = dev.read fd n w in ((r.0.0, is_failure r.0.1), r.1)

  unfoldable pub kill_set : KillCell W → Option (W → Bool) → W → W
  kill_set none kill w = w
  kill_set (some cell) kill w = cell.set kill w

  unfoldable pub kill_get : KillCell W → W → Option (W → Bool)
  kill_get none w = none
  kill_get (some cell) w = cell.get w

pub record KmsgLogSource (W : Type 0) : Type 0 where
  pub kmsg_path : String
  pub nccl_path : String
  pub max_bytes : ℤ
  pub deadline : Duration
  pub kill : KillCell W

module _ {W : Type 0} where
  abbrev pub drained_reader : Option (Drained W) → W → Option (Option (List ℕ)) × W
  drained_reader none w = (none, w)
  drained_reader (some d) w = (some (some d.data_read), d.world)

  -- `boundedReadToReader`: the bytes, also of a drain that the kill switch ended. The outer option is
  -- that of the fuel, which is one pass for each nanosecond of the deadline, and one more.
  unfoldable pub bounded_read_to_reader :
      Clock W → Option (Reader W) → BoundedReadConfig W → W → Option (Option (List ℕ)) × W
  unfolding bounded_read_stream
  bounded_read_to_reader system none cfg w = (some none, w)
  bounded_read_to_reader system (some read) cfg w =
      drained_reader
        (bounded_read_stream (suc (pos_part (limits_of cfg).deadline)) system (some read) cfg w) w

  -- The bounds of a drain, with the kill switch that is installed when it begins.
  abbrev pub bounds_of : KmsgLogSource W → W → BoundedReadConfig W
  bounds_of s w = record {
    max_bytes = s.max_bytes;
    deadline = s.deadline;
    kill = kill_get s.kill w;
    chunk = pos 0;
    now = none;
  }

  abbrev pub after_close : (W → W) → Option (Option (List ℕ)) × W → Option (Option (List ℕ)) × W
  after_close close (o, w) = (o, close w)

  abbrev pub opened_kmsg : Device W → KmsgLogSource W → Option ℕ × W → Option (Option (List ℕ)) × W
  opened_kmsg dev s (none, w) = (some none, w)
  opened_kmsg dev s (some fd, w) =
      after_close (dev.close fd)
        (bounded_read_to_reader dev.clock (some (raw_read dev fd)) (bounds_of s w) w)

  -- `kmsgLogSource.Kmsg`
  unfoldable pub kmsg_read : Device W → KmsgLogSource W → W → Option (Option (List ℕ)) × W
  unfolding bounded_read_to_reader raw_read kill_get
  kmsg_read dev s w =
      opened_kmsg dev s
        (dev.open_nonblock (if s.kmsg_path == "" then "/dev/kmsg" else s.kmsg_path) w)

  abbrev pub opened_file :
      Device W → KmsgLogSource W → String → Option (Reader W) × W → Option (Option (List ℕ)) × W
  opened_file dev s path (none, w) = (some none, w)
  opened_file dev s path (some read, w) =
      after_close (dev.close_file path)
        (bounded_read_to_reader dev.clock (some read) (bounds_of s w) w)

  -- `kmsgLogSource.readFile`
  unfoldable pub read_path : Device W → KmsgLogSource W → String → W → Option (Option (List ℕ)) × W
  unfolding bounded_read_to_reader kill_get
  read_path dev s path w =
      if path == "" then (some none, w) else opened_file dev s path (dev.open_file path w)

  abbrev text_of_bytes : Device W → Option (Option (List ℕ)) → Option String
  text_of_bytes dev (some (some bytes)) = some (dev.text bytes)
  text_of_bytes dev (some none) = none
  text_of_bytes dev none = none

  -- The source as the collector and the daemon see it; `done` is whether the daemon's shutdown channel
  -- is closed, which `SetKill` installs.
  unfoldable pub kmsg_log_source : Device W → (W → Bool) → KmsgLogSource W → LogSource W
  unfolding kmsg_read read_path kill_set
  kmsg_log_source dev done s = record {
    kmsg = λ w. let r = kmsg_read dev s w in (ok (text_of_bytes dev r.0), r.1);
    nccl_log = λ w. let r = read_path dev s s.nccl_path w in (ok (text_of_bytes dev r.0), r.1);
    set_kill = some (kill_set s.kill (some done));
  }

  -- `newKmsgLogSource`; the cell is one that it allocates.
  abbrev pub new_kmsg_log_source : Cell (Option (W → Bool)) W → String → String → KmsgLogSource W
  new_kmsg_log_source cell kmsg_path nccl_path = record {
    kmsg_path = kmsg_path;
    nccl_path = nccl_path;
    max_bytes = pos 0;
    deadline = pos 0;
    kill = some cell;
  }

  -- `realLogSource` of the GPU build; `nccl_log` is the value of GPUFLEET_NCCL_LOG.
  unfoldable pub gpu_log_source :
      Device W → (W → Bool) → Cell (Option (W → Bool)) W → String → String → LogSource W
  unfolding kmsg_log_source
  gpu_log_source dev done cell nccl_log path =
      kmsg_log_source dev done
        (new_kmsg_log_source cell "/dev/kmsg" (if path == "" then nccl_log else path))
