-- ===== src/Logs/Sources.antt =====
-- collectors_logs.go, `FixtureLogSource`; runtime_config.go, `fileNCCLSource`; and `realLogSource` of
-- the build without a GPU, in log_source_real_nogpu.go.
use gpufleet_agent.Prelude.{
  ℕ, String, ◌≡◌, ◌≤◌, ◌-◌, refl, ◌==◌, ltb, ◌&&◌, not, Option, none, some, arith, inl, inr,
  Bool-cases, if◌then◌else◌,
}
use gpufleet_agent.Semantics.{ok}
use gpufleet_agent.Logs.{Reader}
use gpufleet_agent.Logs.Collect.{
  LogSource, File, Files, nccl_max_bytes, nonempty, read_tail, nccl_reader,
}

record FixtureLogSource : Type 0 where
  kmsg_text : String
  nccl_text : String

-- A text in memory, which is missing if it is empty.
abbrev fixture_reader : String → Reader
fixture_reader text = if text == "" then ok none else ok (some text)

module _ {W : Type 0} where
  unfoldable fixture_log_source : FixtureLogSource → LogSource W
  fixture_log_source f = record {
    kmsg = λ w. (fixture_reader f.kmsg_text, w);
    nccl_log = λ w. (fixture_reader f.nccl_text, w);
    set_kill = none;
  }

-- The first bytes of an open file.
unfoldable read_head : Option File → Reader
read_head none = ok none
read_head (some f) = nonempty (f.read_at 0 nccl_max_bytes)

module _ {W : Type 0} where
  -- `fileNCCLSource.NCCL`
  unfoldable read_file : Files W → String → W → Reader × W
  unfolding read_head
  read_file files path w =
      if path == ""
      then (ok none, w)
      else (let answer = files.open_file path w in (read_head answer.0, answer.1))

  unfoldable file_nccl_source : Files W → String → LogSource W
  unfolding read_file
  file_nccl_source files path = record {
    kmsg = λ w. (ok none, w);
    nccl_log = read_file files path;
    set_kill = none;
  }

  -- `realLogSource`
  unfoldable pub real_log_source : Files W → String → LogSource W
  unfolding file_nccl_source fixture_log_source
  real_log_source files path =
      if path == ""
      then fixture_log_source (record { kmsg_text = ""; nccl_text = "" })
      else file_nccl_source files path

-- The head and the tail of a file are the same text if its size is known and within the limit.
head_tail :
    (f : File) (n : ℕ)
    → f.size ≡ some n
    → n ≤ nccl_max_bytes
    → read_head (some f) ≡ read_tail (some f)
unfolding read_head read_tail
head_tail f n e small = rw e (at_offset (n - nccl_max_bytes) (omega arith))
  where
    at_offset :
        (offset : ℕ)
        → offset ≡ 0
        → nonempty (f.read_at 0 nccl_max_bytes) ≡ (
            if ltb 0 offset && not (f.seek offset)
            then ok none
            else nonempty (f.read_at offset nccl_max_bytes))
    at_offset offset z = rw z refl

module _ {W : Type 0} where
  -- The source of the log collector and the reader of the NCCL collector give the same text of a file
  -- whose size is known and within the limit.
  read_file-nccl_reader :
      (files : Files W) (path node : String) (w : W) (f : File) (n : ℕ)
      → (files.open_file path w).0 ≡ some f
      → f.size ≡ some n
      → n ≤ nccl_max_bytes
      → read_file files path w
        ≡ nccl_reader files (record { path = path; node = node; read = none }) w
  unfolding read_file nccl_reader
  read_file-nccl_reader files path node w f n opened e small = elim (Bool-cases (path == "")) [
    | inl empty ↦ rw empty refl
    | inr given ↦ rw (given, opened, head_tail f n e small) refl
  ]
