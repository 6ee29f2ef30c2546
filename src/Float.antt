-- ===== src/Float.antt =====
-- The `float64` operations that the agent calls, as an interface: the language here has no floats.
-- The functions of the agent take an instance; only the tests choose one.
use gpufleet_agent.Prelude.{ℕ, String, Bool, Option}
use gpufleet_agent.Prelude.Int.{ℤ}

pub record Float64 (F : Type 0) : Type 0 where
  pub zero : F
  -- The literal `1.0`.
  pub one : F
  -- The literal `1e12`.
  pub tera : F
  -- The literal of the value `n / 10 ^ k`.
  pub literal : ℕ → ℕ → F
  -- `a <= b` and `a < b`; both are false at NaN.
  pub le : F → F → Bool
  pub lt : F → F → Bool
  pub mul : F → F → F
  pub div : F → F → F
  -- `time.Duration.Seconds`
  pub seconds : ℤ → F
  -- `fmt.Sprintf("%.0f", x)`
  pub format : F → String
  -- `uint64(x)` and `uint64(x + 0.5)`
  pub truncate : F → ℕ
  pub round : F → ℕ
  -- `strconv.ParseFloat(s, 64)`
  pub parse : String → Option F
