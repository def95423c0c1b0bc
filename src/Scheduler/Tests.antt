-- ===== src/Scheduler/Tests.antt =====
-- Runs and instances of the theorems on internal/scheduler, with integers in place of floats.
use mathlib.Core.List.{Memᴰ}
use aldea.Prelude.{◌≡◌, ◌≢◌, ◌⊎◌, refl, true, String, List, [], ◌∷◌, ok, err}
use aldea.Prelude.Int.{ℤ, pos, negsuc, sub64, wrap64, ◌+ℤ◌, ◌-ℤ◌}
use aldea.Prelude.Text.{bytes_eq}
use aldea.Samples.{integers}
use aldea.Scheduler.{
  WorkloadManifest, NodeComputeCapability, workload_stateless, workload_stateful,
  no_eligible_compute_node, stateful_workload_pinned, lowers_to, available_cpu, available_memory_mb,
  can_run, score, select_loop, select_node, without_node, reschedule_on_node_failure, validate,
}
use aldea.Scheduler.Choice.{IsTop, reschedule_on_node_failure_best}

abbrev manifest : WorkloadManifest ℤ
manifest = record {
  workload_id = "w1";
  name = "web";
  image = "nginx";
  workload_type = "Stateless";
  cpu_cores = pos 2;
  memory_mb = pos 512;
  port_mappings = [];
  env = [];
  snapshot_interval_sec = pos 0;
}

abbrev candidate : String → ℤ → NodeComputeCapability ℤ
candidate id busy = record {
  node_id = id;
  os = "Linux";
  compute_enabled = true;
  is_healthy = true;
  total_cpu_cores = pos 8;
  allocated_cpu_cores = busy;
  total_memory_mb = pos 4096;
  allocated_memory_mb = pos 1024;
}

abbrev candidates : List (NodeComputeCapability ℤ)
candidates = candidate "n1" (pos 4) ∷ candidate "n2" (pos 1) ∷ candidate "n3" (pos 7) ∷ []

select_node_run : select_node integers manifest candidates ≡ ok (candidate "n2" (pos 1))
unfolding select_node select_loop can_run lowers_to bytes_eq available_cpu ◌-ℤ◌ available_memory_mb
    sub64 wrap64 score ◌+ℤ◌
select_node_run = refl

reschedule_on_node_failure_best_example :
    ((manifest.workload_type ≡ workload_stateful)
      × (reschedule_on_node_failure integers manifest "n2" candidates
          ≡ err stateful_workload_pinned))
    ⊎ ((manifest.workload_type ≢ workload_stateful)
        × (((c : NodeComputeCapability ℤ) × (reschedule_on_node_failure integers manifest "n2"
                  candidates
                ≡ ok c)
              × Memᴰ c candidates
              × (c.node_id ≢ "n2")
              × (can_run integers manifest c ≡ true)
              × IsTop integers manifest (score integers c) (without_node integers "n2" candidates))
            ⊎ ((reschedule_on_node_failure integers manifest "n2" candidates
                  ≡ err no_eligible_compute_node)
                × IsTop integers manifest (negsuc 0) (without_node integers "n2" candidates))))
reschedule_on_node_failure_best_example =
    reschedule_on_node_failure_best integers manifest "n2" candidates

validated : validate integers manifest ≡ ok (record manifest { workload_type = workload_stateless })
unfolding validate lowers_to bytes_eq
validated = refl
