-- ===== src/Spec/File.antt =====
-- device_spec.go, `LoadDeviceSpec` and `ParseDeviceSpec`: the operator's file of devices. The order of
-- `raw` stands for the order in which Go visits the map of the file's keys.
pub mod Given
pub mod Homogeneous
use gpufleet_agent.Prelude.{String, ◌==◌, ◌||◌, List, [], ◌∷◌, insert, if◌then◌else◌}
use gpufleet_agent.Prelude.Strings.{◌<>◌}
use gpufleet_agent.Prelude.Text.{trim_space}
use gpufleet_agent.Float.{Float64}
use gpufleet_agent.Semantics.{Result, ok, err}
use gpufleet_agent.Spec.{DeviceSpecEntry, DeviceSpec, wildcard_model}

-- What the file calls outside of the repository: `json.Unmarshal` at its three types, with a part of
-- the file as a text; `os.ReadFile`; and the quoting of a text in a message.
pub record SpecHost (F W : Type 0) : Type 0 where
  pub raw_object : String → Result (List (String × String))
  pub entries : String → Result (List (String × DeviceSpecEntry F))
  pub entry : String → Result (DeviceSpecEntry F)
  pub read_file : String → W → Result String × W
  pub quote : String → String

abbrev pub empty_spec : {F : Type 0} → DeviceSpec F
empty_spec = record { by_uuid = []; by_model = [] }

module _ {V : Type 0} where
  -- The writes of a list of entries into a map, in their order.
  unfoldable pub insert_all : List (String × V) → List (String × V) → List (String × V)
  insert_all [] m = m
  insert_all ((k, v) ∷ writes) m = insert_all writes (insert k v m)

abbrev pub wrapped {ℓ} : {A : Type ℓ} → String → Result A → Result A
wrapped message (ok a) = ok a
wrapped message (err e) = err (message <> e)

module _ {F W : Type 0} (host : SpecHost F W) where
  abbrev pub written_uuids :
      DeviceSpec F → Result (List (String × DeviceSpecEntry F)) → Result (DeviceSpec F)
  written_uuids spec (ok m) = ok (record spec { by_uuid = insert_all m spec.by_uuid })
  written_uuids spec (err e) = err e

  abbrev pub written_models :
      DeviceSpec F → Result (List (String × DeviceSpecEntry F)) → Result (DeviceSpec F)
  written_models spec (ok m) = ok (record spec { by_model = insert_all m spec.by_model })
  written_models spec (err e) = err e

  abbrev pub written_model :
      DeviceSpec F → String → Result (DeviceSpecEntry F) → Result (DeviceSpec F)
  written_model spec k (ok e) = ok (record spec { by_model = insert k e spec.by_model })
  written_model spec k (err e) = err e

  -- The `switch` on a key of the file.
  unfoldable pub read_key : String → String → DeviceSpec F → Result (DeviceSpec F)
  unfolding insert_all
  read_key k v spec =
      if k == "by_uuid"
      then written_uuids spec (wrapped "agent: parse device-spec by_uuid: " (host.entries v))
      else if k == "by_model"
      then written_models spec (wrapped "agent: parse device-spec by_model: " (host.entries v))
      else written_model spec k
          (wrapped ("agent: parse device-spec model " <> host.quote k <> ": ") (host.entry v))

  unfoldable pub read_keys : List (String × String) → DeviceSpec F → Result (DeviceSpec F)
  unfolding read_key
  read_keys [] spec = ok spec
  read_keys ((k, v) ∷ raw) spec = elim (read_key k v spec) [
    | ok next ↦ read_keys raw next
    | err e ↦ err e
  ]

  abbrev pub parsed_object : Result (List (String × String)) → Result (DeviceSpec F)
  parsed_object (ok raw) = read_keys raw empty_spec
  parsed_object (err e) = err e

  -- `ParseDeviceSpec`
  unfoldable pub parse_device_spec : String → Result (DeviceSpec F)
  unfolding read_keys
  parse_device_spec text =
      parsed_object (wrapped "agent: parse device-spec json: " (host.raw_object text))

  abbrev pub parsed_file : String → Result String → Result (DeviceSpec F)
  parsed_file path (ok text) = parse_device_spec text
  parsed_file path (err e) = err ("agent: read device-spec file " <> host.quote path <> ": " <> e)

  -- `LoadDeviceSpec`
  unfoldable pub load_device_spec : String → W → Result (DeviceSpec F) × W
  unfolding parse_device_spec trim_space
  load_device_spec path w =
      let answer = host.read_file path w in
      if trim_space path == "" then (ok empty_spec, w) else (parsed_file path answer.0, answer.1)

module _ {F : Type 0} ⦃fl : Float64 F⦄ where
  -- The entry of the flags `peak-tflops` and `cost-usd-per-hour`, for every device that the file does
  -- not name.
  unfoldable pub seed_wildcard : F → F → DeviceSpec F → DeviceSpec F
  seed_wildcard peak cost spec =
      if fl.lt fl.zero peak || fl.lt fl.zero cost
      then record spec {
        by_model =
            insert wildcard_model (record { peak_tflops = peak; cost_per_hour = cost })
              spec.by_model;
      }
      else spec

module _ {F W : Type 0} ⦃fl : Float64 F⦄ (host : SpecHost F W) where
  abbrev seeded : F → F → Result (DeviceSpec F) × W → Result (DeviceSpec F) × W
  seeded peak cost (ok spec, w) = (ok (seed_wildcard peak cost spec), w)
  seeded peak cost (err e, w) = (err e, w)

  -- `buildDeviceSpec` in cmd/agent/main.go.
  unfoldable pub build_device_spec : String → F → F → W → Result (DeviceSpec F) × W
  unfolding load_device_spec seed_wildcard
  build_device_spec file peak cost w = seeded peak cost (load_device_spec host file w)
