-- ===== src/Kmsg/Source/Ends.antt =====
-- The read of /dev/kmsg by the GPU build's source ends, whatever the kernel logs.
use gpufleet_agent.Prelude.{
  ℕ, ◌^◌, ◌≤◌, ◌<◌, ◌≡◌, refl, ◌==◌, Option, none, some, List, length, Each, arith, if◌then◌else◌,
}
use gpufleet_agent.Prelude.Int.{pos, pos_part}
use gpufleet_agent.Kmsg.{Reader, BoundedReadConfig, limits_of}
use gpufleet_agent.Kmsg.Bounds.{IsTimely, bounded_read_stream-EndsWithin}
use gpufleet_agent.Kmsg.Source.{
  Device, raw_read, KmsgLogSource, bounded_read_to_reader, bounds_of, opened_kmsg, kmsg_read,
}

module _ {W : Type 0} (dev : Device W) (time : W → ℕ) where
  -- The contract of the system: a read of a descriptor, which does not block, returns no more bytes
  -- than it was asked for, and the clock moves on with each reading and never goes back.
  pub record IsPrompt : Type 0 where
    pub bounded : (fd n : ℕ) (w : W) → length (dev.read fd n w).0.0 ≤ n
    pub shows : (w : W) → (dev.clock w).0 ≡ pos (time w)
    pub moves : (w : W) → time w < time (dev.clock w).1
    pub keeps : (fd n : ℕ) (w : W) → time w ≤ time (dev.read fd n w).1

  raw_read-IsTimely : IsPrompt → (fd : ℕ) → IsTimely (raw_read dev fd) dev.clock time
  unfolding raw_read
  raw_read-IsTimely prompt fd = record {
    bounded = prompt.bounded fd;
    shows = prompt.shows;
    moves = prompt.moves;
    keeps = prompt.keeps fd;
  }

  -- The read returns, and what it returns, if anything, is within the cap.
  abbrev pub Ends : ℕ → Option (Option (List ℕ)) → Type 0
  Ends cap o = (bytes : Option (List ℕ)) × (o ≡ some bytes) × Each (λ b. length b ≤ cap) bytes

  drained-Ends :
      (read : Reader W) (cfg : BoundedReadConfig W) (w : W)
      → IsTimely read dev.clock time
      → cfg.now ≡ none
      → pos_part (limits_of cfg).deadline < 2 ^ 63
      → Ends (limits_of cfg).cap (bounded_read_to_reader dev.clock (some read) cfg w).0
  unfolding bounded_read_to_reader
  drained-Ends read cfg w timely system fits =
      let (d, e, within, count) =
        bounded_read_stream-EndsWithin read dev.clock time timely dev.clock cfg w
          (pos_part (limits_of cfg).deadline) (rw system refl) fits (omega arith) in
      rw e (some d.data_read, refl, within)

  -- Whatever the kernel logs meanwhile, whether its buffer is empty or interrupted, whether the device
  -- can be opened, and whatever kill switch is installed: with a deadline that an int64 holds, a clock
  -- that moves on with each reading of it and never goes back, and reads of at most the bytes asked
  -- for, the read of the kernel log returns, with at most as many bytes as the byte cap.
  pub kmsg_read-Ends :
      IsPrompt
      → (s : KmsgLogSource W) (w : W) → pos_part (limits_of (bounds_of s w)).deadline < 2 ^ 63
      → Ends (limits_of (bounds_of s w)).cap (kmsg_read dev s w).0
  unfolding kmsg_read
  kmsg_read-Ends prompt s w fits =
      by_open (dev.open_nonblock (if s.kmsg_path == "" then "/dev/kmsg" else s.kmsg_path) w)
    where
      by_open :
          (opened : Option ℕ × W)
          → Ends (limits_of (bounds_of s w)).cap (opened_kmsg dev s opened).0
      by_open (none, w') = (none, refl, tt)
      by_open (some fd, w') =
          drained-Ends (raw_read dev fd) (bounds_of s w') w' (raw_read-IsTimely prompt fd) refl fits
