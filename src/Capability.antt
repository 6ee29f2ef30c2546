-- ===== src/Capability.antt =====
-- internal/capability/catalog.go: the fixed catalog of capabilities.
use gpufleet_agent.Prelude.{ℕ, String, ◌*◌, Option, none, some, List, [], ◌∷◌, ◌==◌, if◌then◌else◌}
use gpufleet_agent.Prelude.Int.{pos}
use gpufleet_agent.Wire.{
  dcgm, dmesg_xid, prometheus, tier_unprivileged, tier_privileged, CapabilityDescriptor,
  DescribeResponse,
}

abbrev pub catalog_version : String
catalog_version = "v0.2.0"

-- `time.Minute`, in nanoseconds.
abbrev minute : ℕ
minute = 60 * 1000000000

abbrev pub dcgm_fields : CapabilityDescriptor
dcgm_fields = record {
  id = "dcgm.fields";
  tier = tier_unprivileged;
  source = dcgm;
  description = "DCGM field-group sampling (utilization, ECC, NVLink/PCIe counters).";
  version = "1.0.0";
  resource_budget = some (record {
    max_duration = some (pos (10 * minute));
    max_cpu_millicores = 200;
    max_map_entries = 0;
    max_samples = 6000;
  });
}

abbrev pub prometheus_query : CapabilityDescriptor
prometheus_query = record {
  id = "prometheus.query";
  tier = tier_unprivileged;
  source = prometheus;
  description = "Range/instant queries against a configured Prometheus exporter.";
  version = "1.0.0";
  resource_budget = some (record {
    max_duration = some (pos (5 * minute));
    max_cpu_millicores = 100;
    max_map_entries = 0;
    max_samples = 4000;
  });
}

abbrev pub dmesg_xid_scrape : CapabilityDescriptor
dmesg_xid_scrape = record {
  id = "dmesg.xid";
  tier = tier_unprivileged;
  source = dmesg_xid;
  description = "Kernel ring-buffer XID/NVRM event scrape (read-only).";
  version = "1.0.0";
  resource_budget = some (record {
    max_duration = some (pos (10 * minute));
    max_cpu_millicores = 50;
    max_map_entries = 0;
    max_samples = 2000;
  });
}

abbrev pub ebpf_nvlink_retrans : CapabilityDescriptor
ebpf_nvlink_retrans = record {
  id = "ebpf.nvlink.retrans";
  tier = tier_privileged;
  source = dcgm;
  description = "Read-only eBPF observer for NVLink retransmit events (CAP_BPF/CAP_PERFMON).";
  version = "0.1.0";
  resource_budget = some (record {
    max_duration = some (pos (2 * minute));
    max_cpu_millicores = 150;
    max_map_entries = 4096;
    max_samples = 2000;
  });
}

abbrev pub builtin : List CapabilityDescriptor
builtin = dcgm_fields ∷ prometheus_query ∷ dmesg_xid_scrape ∷ ebpf_nvlink_retrans ∷ []

-- `Catalog`: a copy; values are never shared here.
abbrev pub catalog : List CapabilityDescriptor
catalog = builtin

abbrev pub find_from : List CapabilityDescriptor → String → Option CapabilityDescriptor
find_from [] id = none
find_from (d ∷ ds) id = if d.id == id then some d else find_from ds id

unfoldable pub find : String → Option CapabilityDescriptor
find id = find_from builtin id

abbrev pub describe : DescribeResponse
describe = record {
  name = "gpufleet-agent";
  version = catalog_version;
  contract_version = "v0.2.0";
  catalog = catalog;
}
