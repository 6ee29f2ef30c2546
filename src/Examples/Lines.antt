-- ===== src/Examples/Lines.antt =====
-- Witnesses: a kernel log, a log of NCCL with a line of 1 MiB, and a tree of sysfs.
use gpufleet_agent.Prelude.{
  ℕ, zero, suc, ◌≡◌, refl, ap, String, ◌==◌, none, some, List, [], ◌∷◌, arith, if◌then◌else◌,
}
use gpufleet_agent.Prelude.Int.{pos}
use gpufleet_agent.Prelude.Strings.{◌<>◌, Lacks}
use gpufleet_agent.Prelude.Text.{text_length}
use gpufleet_agent.Wire.{proc}
use gpufleet_agent.Observation.{Observation, observed}
use gpufleet_agent.Logs.{max_line, scan_lines, parse_kmsg_xid}
use gpufleet_agent.Logs.Nccl.{parse_nccl, nccl_lines}
use gpufleet_agent.Logs.Lines.{unlines, scan_lines-cut}
use gpufleet_agent.Logs.Records.{records, events_of, parse_kmsg_xid-records}
use gpufleet_agent.Proc.{ProcLinkCollector, Sysfs, root_of, proc_collect}
use gpufleet_agent.Proc.Legs.{Reports, proc_collect-Reports}
use gpufleet_agent.Examples.{toy}

-- The number of the XID stands on a continuation line.
abbrev kernel_log : String
kernel_log =
    " lost\n6,1,2,-;NVRM: Xid (PCI:0000:65:00):\n 79, pid=7, GPU has fallen off the bus\n6,2,3,-;ok\n"

xid_79 :
    parse_kmsg_xid kernel_log (pos 5)
    ≡ record {
      ts = some (pos 5);
      device_uuid = "";
      xid = 79;
      raw_message = "6,1,2,-;NVRM: Xid (PCI:0000:65:00): 79, pid=7, GPU has fallen off the bus";
      severity = "err";
    }
      ∷ []
unfolding parse_kmsg_xid
xid_79 = refl

parse_kmsg_xid-records_example :
    parse_kmsg_xid kernel_log (pos 5) ≡ events_of (pos 5) (records (scan_lines kernel_log))
parse_kmsg_xid-records_example = parse_kmsg_xid-records kernel_log (pos 5)

abbrev two_lines : List String
two_lines = "NCCL INFO AllReduce rank 3 took 12 ms" ∷ "" ∷ []

nccl_test : parse_nccl (unlines two_lines) (pos 5) ≡ nccl_lines (pos 5) two_lines
unfolding parse_nccl scan_lines nccl_lines
nccl_test = refl

-- A text of a given length.
filler : ℕ → String
filler zero = ""
filler (suc n) = String.◌∷◌ "x" (filler n)

Lacks-filler : (n : ℕ) → Lacks b'\n' (filler n)
unfolding filler
Lacks-filler zero = tt
Lacks-filler (suc n) = ((λ e. omega (arith, e)), Lacks-filler n)

text_length-filler : (n : ℕ) → text_length (filler n) ≡ n
unfolding filler
text_length-filler zero = refl
text_length-filler (suc n) = ap suc (text_length-filler n)

scan_lines-cut_example :
    scan_lines (unlines two_lines <> filler max_line <> "\nNCCL WARN watchdog timeout\n")
    ≡ two_lines
scan_lines-cut_example =
    scan_lines-cut two_lines (filler max_line) "\nNCCL WARN watchdog timeout\n" (ground arith)
      (Lacks-filler max_line) (omega (arith, text_length-filler max_line))

-- Two devices: an NVIDIA device off the bus, and another with a slow link.
abbrev tree : Sysfs
tree = record {
  read_dir = λ dir. some ("0000:65:00.0" ∷ "0000:17:00.0" ∷ []);
  read_file = λ n path.
      if path == "/sys/bus/pci/devices/0000:65:00.0/vendor"
      then some "0x10DE\n"
      else if path == "/sys/bus/pci/devices/0000:65:00.0/current_link_width"
      then some "0\n"
      else if path == "/sys/bus/pci/devices/0000:65:00.0/max_link_width"
      then some "16\n"
      else none;
}

abbrev link_collector : ProcLinkCollector
link_collector = record { sysfs_root = ""; node = "n1" }

proc_collect-Reports_example :
    (o : Observation ℕ) × (proc_collect ℕ link_collector tree (pos 5) (pos 60) ≡ observed o)
    × (o.source ≡ proc)
    × Reports ℕ tree
        (root_of link_collector)
        (pos 5)
        (tree.read_dir (root_of link_collector))
        o.timeline
proc_collect-Reports_example = proc_collect-Reports ℕ tree link_collector (pos 5) (pos 60)
