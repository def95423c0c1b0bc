-- ===== src/Runtime/Tests.antt =====
-- Runs and instances of the theorems on internal/runtime/runtime_linux.go.
use aldea.Prelude.{◌≡◌, refl, String, some, []}
use aldea.Prelude.Int.{ℤ, pos}
use aldea.Prelude.Dict.{lookup, insert}
use aldea.Scheduler.{WorkloadManifest}
use aldea.Runtime.{Engine, ContainerStatus, new_engine, start_workload}
use aldea.Runtime.Table.{start_again_shares_address}

abbrev workload : String → WorkloadManifest ℤ
workload id = record {
  workload_id = id;
  name = "web";
  image = "nginx";
  workload_type = "stateless";
  cpu_cores = pos 2;
  memory_mb = pos 512;
  port_mappings = [];
  env = [];
  snapshot_interval_sec = pos 0;
}

abbrev started : ContainerStatus × Engine
started = start_workload (pos 3) (workload "w1") new_engine

found : lookup "w1" started.1 ≡ some started.0
unfolding start_workload lookup insert
found = refl

start_again_shares_address_example :
    ((start_workload
        (pos 5)
        (workload "w2")
        (start_workload (pos 4) (workload "w1") started.1).1).0.pid
      ≡ (start_workload (pos 4) (workload "w1") started.1).0.pid)
    × ((start_workload
          (pos 5)
          (workload "w2")
          (start_workload (pos 4) (workload "w1") started.1).1).0.ip_address
        ≡ (start_workload (pos 4) (workload "w1") started.1).0.ip_address)
start_again_shares_address_example =
    start_again_shares_address (pos 4) (pos 5) (workload "w1") (workload "w2") started.1 started.0
      found
