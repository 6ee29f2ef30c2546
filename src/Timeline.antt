-- ===== src/Timeline.antt =====
-- normalize.go, `faultTimeline` and its helpers: the legs that the fault gate matches on.
pub mod Tokens
use Prim.Native.Char.{code}
use Prim.Native.String
use gpufleet_agent.Prelude.{
  ℕ, String, Bool, true, false, ◌||◌, Option, none, some, List, [], ◌∷◌, ◌++◌, ◌==◌, nat_eq,
  if◌then◌else◌,
}
use gpufleet_agent.Prelude.Strings.{◌<>◌, itoa}
use gpufleet_agent.Wire.{
  Time, SignalSource, unspecified, dcgm, dmesg_xid, nccl, prometheus, scheduler, proc,
  TimelineEntry, XidEvent, NcclEvent, NcclEventKind, op_timeout,
}

unfoldable pub source_short : SignalSource → String
source_short dcgm = "dcgm"
source_short dmesg_xid = "dmesg"
source_short nccl = "nccl"
source_short prometheus = "prometheus"
source_short scheduler = "scheduler"
source_short proc = "proc"
source_short unspecified = "unspecified"

-- `strings.ReplaceAll(s, ".", "-")`
unfoldable pub sanitize_token : String → String
sanitize_token String.[] = ""
sanitize_token (String.◌∷◌ c s) =
    (if nat_eq (code c) b'.' then "-" else String.◌∷◌ c "") <> sanitize_token s

unfoldable pub xid_dev_token : XidEvent → String
unfolding sanitize_token
xid_dev_token e = if e.device_uuid == "" then "node" else sanitize_token e.device_uuid

unfoldable pub nccl_scope_token : NcclEvent → String
unfolding sanitize_token itoa
nccl_scope_token e =
    if e.communicator_id == ""
    then (if nat_eq e.rank 0 then "unknown" else "rank" <> itoa e.rank)
    else sanitize_token e.communicator_id

-- The map `eccXids`.
unfoldable pub is_ecc_xid : ℕ → Bool
is_ecc_xid n = nat_eq n 48 || nat_eq n 63 || nat_eq n 64 || nat_eq n 94 || nat_eq n 95

abbrev pub ts_or : Option Time → Time → Option Time
ts_or none now = some now
ts_or (some t) now = some t

-- The identity and the label of an XID leg, `none` for a class that the gate does not adjudicate.
unfoldable pub xid_leg : XidEvent → Option (String × String)
unfolding is_ecc_xid
xid_leg e =
    if nat_eq e.xid 79
    then some (
      "dmesg.xid79." <> xid_dev_token e,
      "NVRM Xid 79 (GPU fallen off the bus) on " <> xid_dev_token e,
    )
    else if is_ecc_xid e.xid
    then some (
      "dmesg.xid.ecc." <> itoa e.xid <> "." <> xid_dev_token e,
      "NVRM Xid " <> itoa e.xid <> " (uncorrectable ECC) on " <> xid_dev_token e,
    )
    else none

abbrev pub entry : Option Time → SignalSource → String → String → TimelineEntry
entry ts source id label = record {
  ts = ts;
  source = source;
  device_uuid = "";
  signal_id = id;
  label = label;
}

abbrev pub entry_of_leg : Option Time → SignalSource → Option (String × String) → List TimelineEntry
entry_of_leg ts source none = []
entry_of_leg ts source (some (id, label)) = entry ts source id label ∷ []

-- Part (1): the XID events of dmesg.
unfoldable pub xid_entries : Time → List (Option XidEvent) → List TimelineEntry
unfolding xid_leg
xid_entries now [] = []
xid_entries now (none ∷ xs) = xid_entries now xs
xid_entries now (some e ∷ xs) =
    entry_of_leg (ts_or e.ts now) dmesg_xid (xid_leg e) ++ xid_entries now xs

abbrev pub is_timeout : NcclEventKind → Bool
is_timeout op_timeout = true
is_timeout _ = false

-- Part (2): the NCCL timeouts.
unfoldable pub nccl_entries : Time → List (Option NcclEvent) → List TimelineEntry
nccl_entries now [] = []
nccl_entries now (none ∷ es) = nccl_entries now es
nccl_entries now (some e ∷ es) =
    (if is_timeout e.kind
      then entry (ts_or e.ts now) nccl ("nccl.timeout." <> nccl_scope_token e)
          ("NCCL collective timeout (" <> nccl_scope_token e <> ")")
        ∷ []
      else [])
    ++ nccl_entries now es

-- `eccDBEDevice`
pub record EccDbeDevice : Type 0 where
  pub uuid : String
  pub source : SignalSource

-- Part (3): the ECC counter legs.
unfoldable pub ecc_entries : Time → List EccDbeDevice → List TimelineEntry
ecc_entries now [] = []
ecc_entries now (d ∷ ds) =
    entry (some now) d.source ("ecc.dbe." <> d.uuid) (
      "uncorrectable (double-bit) ECC counter delta on "
      <> d.uuid
      <> " ("
      <> source_short d.source
      <> ")")
    ∷ ecc_entries now ds

-- Part (4): the link-error legs.
unfoldable pub link_entries : Time → List String → List TimelineEntry
link_entries now [] = []
link_entries now (u ∷ us) =
    entry (some now) dcgm ("link.error." <> u)
      ("DCGM NVLink/PCIe link-error counter delta on " <> u)
    ∷ link_entries now us

unfoldable pub fault_timeline :
    List (Option XidEvent)
    → List (Option NcclEvent)
    → List EccDbeDevice
    → List String
    → Time
    → List TimelineEntry
unfolding xid_entries nccl_entries ecc_entries link_entries
fault_timeline xids nccls ecc_dbe_devices link_err_devices now =
    xid_entries now xids
    ++ (nccl_entries now nccls
        ++ (ecc_entries now ecc_dbe_devices ++ link_entries now link_err_devices))
