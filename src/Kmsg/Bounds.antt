-- ===== src/Kmsg/Bounds.antt =====
-- The drain always ends, and within its bounds.
use mathlib.Core.Path.{subst}
use gpufleet_agent.Prelude.{
  ℕ, zero, suc, ◌+◌, ◌-◌, ◌^◌, ◌≤◌, ◌<◌, ◌≡◌, refl, ap, ◌∙◌, sym, Bool, true, false, Option, some,
  List, [], ◌++◌, length, length-append, leb, arith, if◌then◌else◌,
}
use gpufleet_agent.Prelude.Int.{pos, negsuc, pos_part, leb_ℤ, ◌-ℤ◌}
use gpufleet_agent.Wire.{Duration}
use gpufleet_agent.Daemon.{Clock, sub_time}
use gpufleet_agent.Kmsg.{
  Reader, BoundedReadConfig, Limits, limits_of, Stop, by_kill, by_deadline, by_cap, by_reader,
  Drained, finish, kill_fired, read_size, drain, clock_or, bounded_read_stream,
}

-- Once the time is over, the deadline test is met, although the difference saturates.
late :
    (deadline : Duration) (start t : ℕ)
    → pos_part deadline < 2 ^ 63
    → start + pos_part deadline ≤ t
    → leb_ℤ deadline (sub_time (pos t) (pos start)) ≡ true
unfolding sub_time ◌-ℤ◌
late (pos d) start t h k = ground arith
late (negsuc d) start t h k = ground arith

read_size_lem : (chunk remaining : ℕ) → read_size chunk remaining ≤ remaining
read_size_lem chunk remaining = ground arith

module _ {W : Type 0} (read : Reader W) (clock : Clock W) (time : W → ℕ) where
  -- The contract of the surroundings: a reader returns no more bytes than it was asked for, and the
  -- clock shows a time that moves on with each reading and never goes back.
  pub record IsTimely : Type 0 where
    pub bounded : (n : ℕ) (w : W) → length (read n w).0.0 ≤ n
    pub shows : (w : W) → (clock w).0 ≡ pos (time w)
    pub moves : (w : W) → time w < time (clock w).1
    pub keeps : (n : ℕ) (w : W) → time w ≤ time (read n w).1

  -- A drain that ended, within the cap.
  abbrev pub EndsWithin : ℕ → Option (Drained W) → Type 0
  EndsWithin cap o =
      (d : Drained W) × (o ≡ some d)
      × (length d.data_read ≤ cap)
      × (d.result.bytes ≡ length d.data_read)

  choose :
      (cap : ℕ) (b : Bool) (x y : Option (Drained W))
      → EndsWithin cap x
      → (b ≡ false → EndsWithin cap y)
      → EndsWithin cap (if b then x else y)
  choose cap true x y h g = h
  choose cap false x y h g = g refl

  ended :
      (cap start : ℕ) (stop : Stop) (buf : List ℕ) (w : W)
      → length buf ≤ cap
      → EndsWithin cap (some (finish clock (pos start) stop buf w))
  unfolding finish
  ended cap start stop buf w h = (_, refl, h, refl)

  abbrev got : Limits → List ℕ → W → (List ℕ × Bool) × W
  got limits buf w = read (read_size limits.chunk (limits.cap - length buf)) (clock w).1

  longer_within :
      IsTimely
      → (limits : Limits) (buf : List ℕ) (w : W) → length buf ≤ limits.cap
      → length (buf ++ (got limits buf w).0.0) ≤ limits.cap
  longer_within timely limits buf w within = omega (
    arith,
    length-append buf (got limits buf w).0.0,
    within,
    timely.bounded (read_size limits.chunk (limits.cap - length buf)) (clock w).1,
    read_size_lem limits.chunk (limits.cap - length buf),
  )

  -- One pass: the drain ends, or the deadline is not reached and the rest ends.
  drain_round :
      IsTimely
      → (kill : Option (W → Bool)) (limits : Limits) (start k : ℕ) (buf : List ℕ) (w : W)
      → length buf ≤ limits.cap
      → (leb_ℤ limits.deadline (sub_time (clock w).0 (pos start)) ≡ false
          → EndsWithin limits.cap (
              drain k read kill clock limits
                (pos start)
                (buf ++ (got limits buf w).0.0)
                (got limits buf w).1))
      → EndsWithin limits.cap (drain (suc k) read kill clock limits (pos start) buf w)
  unfolding drain
  drain_round timely kill limits start k buf w within rest =
      let cap = limits.cap in
      let longer = buf ++ (got limits buf w).0.0 in
      let w' = (got limits buf w).1 in
      let more = longer_within timely limits buf w within in
      choose cap (kill_fired kill w) _ _ (ended cap start by_kill buf w within) (λ _.
        choose cap (leb_ℤ limits.deadline (sub_time (clock w).0 (pos start))) _ _
          (ended cap start by_deadline buf (clock w).1 within)
          (λ early.
            choose cap (leb cap (length buf)) _ _ (ended cap start by_cap buf (clock w).1 within)
              (λ _.
                choose cap (leb cap (length longer)) _ _ (ended cap start by_cap longer w' more)
                  (λ _.
                    choose cap (got limits buf w).0.1 _ _ (ended cap start by_reader longer w' more)
                      (λ _. rest early)))))

  drain-EndsWithin :
      IsTimely
      → (kill : Option (W → Bool)) (limits : Limits) (start k : ℕ) (buf : List ℕ) (w : W)
      → pos_part limits.deadline < 2 ^ 63
      → length buf ≤ limits.cap
      → start + pos_part limits.deadline ≤ time w + k
      → EndsWithin limits.cap (drain (suc k) read kill clock limits (pos start) buf w)
  drain-EndsWithin timely kill limits start zero buf w fits within soon =
      drain_round timely kill limits start zero buf w within (λ early. contradict (
        sym early
        ∙ ap (λ t. leb_ℤ limits.deadline (sub_time t (pos start))) (timely.shows w)
        ∙ late limits.deadline start (time w) fits (omega (arith, soon))))
    where
      contradict :
          false ≡ true
          → EndsWithin limits.cap (
              drain zero read kill clock limits
                (pos start)
                (buf ++ (got limits buf w).0.0)
                (got limits buf w).1)
      contradict e = ground (arith, e)
  drain-EndsWithin timely kill limits start (suc k) buf w fits within soon =
      drain_round timely kill limits start (suc k) buf w within (λ early.
        drain-EndsWithin timely kill limits start k _ (got limits buf w).1 fits
          (longer_within timely limits buf w within)
          (omega (
            arith,
            soon,
            timely.moves w,
            timely.keeps (read_size limits.chunk (limits.cap - length buf)) (clock w).1,
          )))

  -- No stall: whatever the stream and the kill switch do, and although the loop has no bound of its
  -- own, the drain of a timely stream ends after at most as many passes as the deadline has
  -- nanoseconds and one more; what it returns is at most the byte cap, and the count is right. The
  -- deadline is one that an int64 holds.
  pub bounded_read_stream-EndsWithin :
      IsTimely
      → (system : Clock W) (cfg : BoundedReadConfig W) (w : W) (fuel : ℕ)
      → clock_or system cfg.now ≡ clock
      → pos_part (limits_of cfg).deadline < 2 ^ 63
      → pos_part (limits_of cfg).deadline ≤ fuel
      → EndsWithin (limits_of cfg).cap (bounded_read_stream (suc fuel) system (some read) cfg w)
  unfolding bounded_read_stream
  bounded_read_stream-EndsWithin timely system cfg w fuel used fits enough =
      let limits = limits_of cfg in
      subst
        (λ (c : Clock W).
          EndsWithin limits.cap (drain (suc fuel) read cfg.kill c limits (c w).0 [] (c w).1))
        (sym used)
        (subst
          (λ t.
            EndsWithin limits.cap (drain (suc fuel) read cfg.kill clock limits t [] (clock w).1))
          (sym (timely.shows w))
          (drain-EndsWithin timely cfg.kill limits (time w) fuel [] (clock w).1 fits (omega arith)
            (omega (arith, enough, timely.moves w))))
