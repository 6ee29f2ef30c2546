-- ===== src/Kmsg.antt =====
-- collectors_kmsg.go: the bounded drain of a stream that never ends.
-- `W` is the state of the stream, the wall clock and the kill switch. The loop of the source has no
-- bound of its own, so it runs on fuel, and is `none` if the fuel runs out.
pub mod Bounds
pub mod Source
use gpufleet_agent.Prelude.{
  ℕ, zero, suc, ◌+◌, ◌-◌, ◌*◌, ◌^◌, Bool, true, false, not, ◌||◌, ◌&&◌, Option, none, some, List,
  [], ◌∷◌, ◌++◌, length, leb, ltb, if◌then◌else◌,
}
use gpufleet_agent.Prelude.Int.{ℤ, pos, negsuc, pos_part, leb_ℤ}
use gpufleet_agent.Wire.{Time, Duration}
use gpufleet_agent.Daemon.{Clock, sub_time, positive_or, second}

-- `io.Reader`: at most so many bytes, and whether an error (or EOF) came with them.
abbrev pub Reader : Type 0 → Type 0
Reader W = ℕ → W → (List ℕ × Bool) × W

-- `kill` is whether a receive on the channel would succeed.
pub record BoundedReadConfig (W : Type 0) : Type 0 where
  pub max_bytes : ℤ
  pub deadline : Duration
  pub kill : Option (W → Bool)
  pub chunk : ℤ
  pub now : Option (Clock W)

pub record BoundedReadResult : Type 0 where
  pub hit_deadline : Bool
  pub hit_cap : Bool
  pub killed : Bool
  pub bytes : ℕ
  pub elapsed : Duration

-- `kmsgDefaultMaxBytes`, `kmsgDefaultDeadline` and the default chunk.
abbrev pub kmsg_default_max_bytes : ℕ
kmsg_default_max_bytes = 4 * 2 ^ 20

abbrev pub kmsg_default_deadline : Duration
kmsg_default_deadline = pos 200000000

abbrev pub default_chunk : ℕ
default_chunk = 64 * 2 ^ 10

-- The limits after the defaults.
pub record Limits : Type 0 where
  pub cap : ℕ
  pub deadline : Duration
  pub chunk : ℕ

abbrev pub limits_of : {W : Type 0} → BoundedReadConfig W → Limits
limits_of cfg = record {
  cap = pos_part (positive_or (pos kmsg_default_max_bytes) cfg.max_bytes);
  deadline = positive_or kmsg_default_deadline cfg.deadline;
  chunk = pos_part (positive_or (pos default_chunk) cfg.chunk);
}

-- How the loop ended: by the kill switch, the deadline, the cap, or the reader.
pub data Stop : Type 0 where
  by_kill by_deadline by_cap by_reader : Stop

-- The bytes, the result and whether `errKmsgKilled` came with them.
pub record Drained (W : Type 0) : Type 0 where
  pub data_read : List ℕ
  pub result : BoundedReadResult
  pub kill_error : Bool
  pub world : W

abbrev is_kill : Stop → Bool
is_kill by_kill = true
is_kill _ = false

abbrev is_deadline : Stop → Bool
is_deadline by_deadline = true
is_deadline _ = false

abbrev is_cap : Stop → Bool
is_cap by_cap = true
is_cap _ = false

abbrev pub read_size : ℕ → ℕ → ℕ
read_size chunk remaining = if ltb remaining chunk then remaining else chunk

module _ {W : Type 0} where
  -- The clock is read once more at the end.
  unfoldable pub finish : Clock W → Time → Stop → List ℕ → W → Drained W
  finish clock start stop buf w =
      let at = clock w in
      record {
        data_read = buf;
        result = record {
          hit_deadline = is_deadline stop;
          hit_cap = is_cap stop;
          killed = is_kill stop;
          bytes = length buf;
          elapsed = sub_time at.0 start;
        };
        kill_error = is_kill stop;
        world = at.1;
      }

  abbrev pub kill_fired : Option (W → Bool) → W → Bool
  kill_fired none w = false
  kill_fired (some fired) w = fired w

  unfoldable pub drain :
      ℕ → Reader W → Option (W → Bool) → Clock W → Limits → Time → List ℕ → W → Option (Drained W)
  unfolding finish
  drain zero read kill clock limits start buf w = none
  drain (suc fuel) read kill clock limits start buf w =
      let at = clock w in
      let got = read (read_size limits.chunk (limits.cap - length buf)) at.1 in
      let longer = buf ++ got.0.0 in
      let rest = drain fuel read kill clock limits start longer got.1 in
      if kill_fired kill w
      then some (finish clock start by_kill buf w)
      else if leb_ℤ limits.deadline (sub_time at.0 start)
      then some (finish clock start by_deadline buf at.1)
      else if leb limits.cap (length buf)
      then some (finish clock start by_cap buf at.1)
      else if leb limits.cap (length longer)
      then some (finish clock start by_cap longer got.1)
      else if got.0.1
      then some (finish clock start by_reader longer got.1)
      else rest

  abbrev pub clock_or : Clock W → Option (Clock W) → Clock W
  clock_or system none = system
  clock_or system (some now) = now

  abbrev pub nothing_drained : W → Drained W
  nothing_drained w = record {
    data_read = [];
    result = record {
      hit_deadline = false;
      hit_cap = false;
      killed = false;
      bytes = 0;
      elapsed = pos 0;
    };
    kill_error = false;
    world = w;
  }

  -- `boundedReadStream`; a nil reader is `none`.
  unfoldable pub bounded_read_stream :
      ℕ → Clock W → Option (Reader W) → BoundedReadConfig W → W → Option (Drained W)
  unfolding drain
  bounded_read_stream fuel system none cfg w = some (nothing_drained w)
  bounded_read_stream fuel system (some read) cfg w =
      let clock = clock_or system cfg.now in
      drain fuel read cfg.kill clock (limits_of cfg) (clock w).0 [] (clock w).1
