-- ===== src/Evidence.antt =====
-- evidence.go, mock.go and nvml_gpu.go: the older path of a single reader of device metrics.
pub mod Ordered
use gpufleet_agent.Prelude.{ℕ, String, ◌==◌, List, [], ◌∷◌, if◌then◌else◌}
use gpufleet_agent.Prelude.Int.{ℤ}
use gpufleet_agent.Prelude.Order.{str_le}
use gpufleet_agent.Float.{Float64}
use gpufleet_agent.Semantics.{Result, ok, err}

pub record DeviceMetrics (F : Type 0) : Type 0 where
  pub uuid : String
  pub node : String
  pub model : String
  pub window_seconds : F
  pub achieved_flops : F
  pub tensor_active_secs : F
  pub ecc_double_bit_errs : ℕ
  pub xids : List ℤ

pub record Evidence (F : Type 0) : Type 0 where
  pub source : String
  pub devices : List (DeviceMetrics F)

-- `Reader`
abbrev pub EvidenceReader : Type 0 → Type 0 → Type 0
EvidenceReader F W = W → Result (Evidence F) × W

module _ {F : Type 0} where
  unfoldable pub insert_device : DeviceMetrics F → List (DeviceMetrics F) → List (DeviceMetrics F)
  insert_device x [] = x ∷ []
  insert_device x (y ∷ ys) = if str_le x.uuid y.uuid then x ∷ y ∷ ys else y ∷ insert_device x ys

  -- `sort.Slice` by the UUID, which is not stable: where devices of one UUID differ, their order is
  -- not that of the source.
  unfoldable pub sort_devices : List (DeviceMetrics F) → List (DeviceMetrics F)
  unfolding insert_device str_le
  sort_devices [] = []
  sort_devices (x ∷ xs) = insert_device x (sort_devices xs)

  abbrev pub ordered : Result (Evidence F) → Result (Evidence F)
  ordered (ok ev) = ok (record ev { devices = sort_devices ev.devices })
  ordered (err e) = err e

module _ {F W : Type 0} where
  -- `Collect`
  unfoldable pub collect : EvidenceReader F W → W → Result (Evidence F) × W
  unfolding sort_devices
  collect read w = let answer = read w in (ordered answer.0, answer.1)

  -- `nvmlReader.Read`
  unfoldable pub nvml_read : EvidenceReader F W
  nvml_read w = (err "agent: NVML reader not wired in this build (lab-only)", w)

module _ {F : Type 0} ⦃fl : Float64 F⦄ where
  abbrev mock_device : String → String → F → F → DeviceMetrics F
  mock_device node uuid achieved active = record {
    uuid = uuid;
    node = node;
    model = "A10";
    window_seconds = fl.literal 60 0;
    achieved_flops = achieved;
    tensor_active_secs = active;
    ecc_double_bit_errs = 0;
    xids = [];
  }

  -- `MockReader.Read`
  unfoldable pub mock_read : {W : Type 0} → String → EvidenceReader F W
  mock_read node_name w =
      let node = if node_name == "" then "mock-node" else node_name in
      (
        ok (record {
          source = "mock";
          devices =
              mock_device node "GPU-mock-0001" (fl.literal 600000000000000 0) (fl.literal 42 0)
              ∷ mock_device node "GPU-mock-0002" (fl.literal 300000000000000 0) (fl.literal 20 0)
              ∷ [];
        }),
        w,
      )
