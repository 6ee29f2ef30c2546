-- ===== src/Proc.antt =====
-- collectors_proc.go: the collector of PCIe link faults from sysfs. The tree of sysfs is a value
-- that does not change while it is read.
pub mod Legs
use Prim.Native.Char.{code}
use Prim.Native.String
use gpufleet_agent.Prelude.{
  ℕ, ◌+◌, ◌*◌, ◌^◌, String, Bool, true, false, not, ◌&&◌, ◌||◌, ◌==◌, Option, none, some, List, [],
  ◌∷◌, ◌++◌, ltb, leb, nat_eq, ◌≡◌, refl, if◌then◌else◌,
}
use gpufleet_agent.Prelude.Sort.{sort_strings}
use gpufleet_agent.Prelude.Strings.{◌<>◌, itoa}
use gpufleet_agent.Prelude.Text.{trim_space, to_lower, is_space}
use gpufleet_agent.Prelude.Pattern.{parse_uint}
use gpufleet_agent.Float.{Float64}
use gpufleet_agent.Wire.{Time, Duration, proc, TimelineEntry}
use gpufleet_agent.Timeline.{sanitize_token, entry}
use gpufleet_agent.Observation.{Observation, Collected, observed}
use gpufleet_agent.Chain.{empty_observation, with_provenance}
use gpufleet_agent.Logs.{pointers}

-- `os.ReadDir`, by names, and the first read of a file, of at most `n` bytes.
pub record Sysfs : Type 0 where
  pub read_dir : String → Option (List String)
  pub read_file : ℕ → String → Option String

pub record ProcLinkCollector : Type 0 where
  pub sysfs_root : String
  pub node : String

abbrev pub default_sysfs_pci_root : String
default_sysfs_pci_root = "/sys/bus/pci/devices"

abbrev proc_read_cap : ℕ
proc_read_cap = 4 * 1024

-- `root`
unfoldable pub root_of : ProcLinkCollector → String
root_of c = if c.sysfs_root == "" then default_sysfs_pci_root else c.sysfs_root

-- `filepath.Join`: the same file as the cleaned path.
abbrev pub path_join : String → String → String
path_join dir name = dir <> "/" <> name

abbrev nonempty : Option String → Option String
nonempty none = none
nonempty (some s) = if s == "" then none else some s

-- `readSysfsAttr`
unfoldable pub read_sysfs_attr : Sysfs → String → Option String
read_sysfs_attr fs path = nonempty (fs.read_file proc_read_cap path)

-- A decimal number with an optional sign that an `int` holds: `strconv.Atoi`, where a negative
-- number is `none`, as its only caller refuses it.
unfoldable pub natural_atoi : String → Option ℕ
unfolding parse_uint
natural_atoi String.[] = none
natural_atoi (String.◌∷◌ c s) =
    if nat_eq (code c) b'+'
    then parse_uint 63 s
    else if nat_eq (code c) b'-'
    then negated (parse_uint 63 s)
    else parse_uint 63 (String.◌∷◌ c s)
  where
    negated : Option ℕ → Option ℕ
    negated none = none
    negated (some n) = if nat_eq n 0 then some 0 else none

abbrev is_vendor : Option String → Bool
is_vendor none = false
is_vendor (some v) = to_lower (trim_space v) == "0x10de"

-- `isNVIDIADevice`
unfoldable pub is_nvidia_device : Sysfs → String → Bool
unfolding read_sysfs_attr to_lower trim_space
is_nvidia_device fs dir = is_vendor (read_sysfs_attr fs (path_join dir "vendor"))

abbrev width_in : Option String → Option ℕ
width_in none = none
width_in (some s) = natural_atoi (trim_space s)

-- `readLinkWidth`
unfoldable pub read_link_width : Sysfs → String → Option ℕ
unfolding read_sysfs_attr natural_atoi trim_space
read_link_width fs path = width_in (read_sysfs_attr fs path)

-- The first of `strings.Fields`, of a trimmed text.
unfoldable pub first_field : String → String
unfolding is_space
first_field String.[] = ""
first_field (String.◌∷◌ c s) = if is_space (code c) then "" else String.◌∷◌ c (first_field s)

module _ (F : Type 0) ⦃fl : Float64 F⦄ where
  abbrev tenths : Option F → Option ℕ
  tenths none = none
  tenths (some f) = if fl.le f fl.zero then none else some (fl.round (fl.mul f (fl.literal 10 0)))

  abbrev speed_in : Option String → Option ℕ
  speed_in none = none
  speed_in (some s) =
      let field = first_field (trim_space s) in
      if field == "" then none else tenths (fl.parse field)

  -- `readLinkSpeed`
  unfoldable pub read_link_speed : Sysfs → String → Option ℕ
  unfolding read_sysfs_attr first_field trim_space
  read_link_speed fs path = speed_in (read_sysfs_attr fs path)

abbrev pub link_lost : String → ℕ → String × String
link_lost addr max = (
  "device.lost." <> sanitize_token addr,
  "NVIDIA GPU fallen off the PCIe bus (link down, x0 of x" <> itoa max <> ") at " <> addr,
)

abbrev pub link_narrow : String → ℕ → ℕ → String × String
link_narrow addr cur max = (
  "link.degraded.width." <> sanitize_token addr,
  "PCIe link width downgraded (x" <> itoa cur <> " < x" <> itoa max <> ") on " <> addr,
)

abbrev pub link_slow : String → String × String
link_slow addr =
    ("link.degraded.speed." <> sanitize_token addr, "PCIe link speed downgraded on " <> addr)

-- The guards of the three legs, on what was read.
abbrev pub lost_leg : String → Option ℕ → Option ℕ → Option (String × String)
lost_leg addr (some cur) (some max) =
    if ltb 0 max && nat_eq cur 0 then some (link_lost addr max) else none
lost_leg addr cur max = none

abbrev pub narrow_leg : String → Option ℕ → Option ℕ → Option (String × String)
narrow_leg addr (some cur) (some max) =
    if ltb 0 max && ltb 0 cur && ltb cur max then some (link_narrow addr cur max) else none
narrow_leg addr cur max = none

abbrev pub slow_leg : String → Option ℕ → Option ℕ → Option (String × String)
slow_leg addr (some cur) (some max) =
    if ltb 0 max && ltb 0 cur && ltb cur max then some (link_slow addr) else none
slow_leg addr cur max = none

abbrev pub or_next : Option (String × String) → Option (String × String) → Option (String × String)
or_next (some leg) next = some leg
or_next none next = next

module _ (F : Type 0) ⦃fl : Float64 F⦄ where
  abbrev pub speed_leg : Sysfs → String → String → Option (String × String)
  speed_leg fs dir addr =
      slow_leg addr (read_link_speed F fs (path_join dir "current_link_speed"))
        (read_link_speed F fs (path_join dir "max_link_speed"))

abbrev pub entry_of : Time → Option (String × String) → List TimelineEntry
entry_of now none = []
entry_of now (some (id, label)) = entry (some now) proc id label ∷ []

-- One round of the loop over the devices: at most one leg.
module _ (F : Type 0) ⦃fl : Float64 F⦄ where
  unfoldable pub device_leg : Sysfs → String → String → Option (String × String)
  unfolding is_nvidia_device read_link_width read_link_speed sanitize_token
  device_leg fs root addr =
      let dir = path_join root addr in
      let cur = read_link_width fs (path_join dir "current_link_width") in
      let max = read_link_width fs (path_join dir "max_link_width") in
      or_next (if is_nvidia_device fs dir then lost_leg addr cur max else none)
        (or_next (narrow_leg addr cur max) (speed_leg F fs dir addr))

  unfoldable pub device_entries : Sysfs → String → Time → List String → List TimelineEntry
  unfolding device_leg
  device_entries fs root now [] = []
  device_entries fs root now (addr ∷ addrs) =
      entry_of now (device_leg fs root addr) ++ device_entries fs root now addrs

  abbrev pub noted : ProcLinkCollector → Observation F → Observation F
  noted c o = if c.node == "" then o else with_provenance "node" c.node o

  abbrev pub scanned : Sysfs → String → Time → Option (List String) → Observation F → Observation F
  scanned fs root now none o = with_provenance "degraded" "sysfs root unreadable" o
  scanned fs root now (some names) o = record o {
    timeline = pointers (device_entries fs root now (sort_strings names));
  }

  -- `ProcLinkCollector.Collect`
  unfoldable pub proc_collect : ProcLinkCollector → Sysfs → Time → Duration → Collected F
  unfolding device_entries root_of
  proc_collect c fs now window = observed (
      scanned fs (root_of c) now (fs.read_dir (root_of c)) (
        noted c (
          with_provenance "sysfs_root" (root_of c)
            (with_provenance "source" "proc-sysfs-pcie-link" (empty_observation proc)))))
