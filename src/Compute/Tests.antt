-- ===== src/Compute/Tests.antt =====
-- Runs and instances of the theorems on cmd/aldea/compute.go, with integers in place of floats.
use aldea.Prelude.{◌≡◌, ◌⊎◌, refl, true, false, String, Option, some, none, [], ok, if◌then◌else◌}
use aldea.Prelude.Int.{ℤ, pos, ◌-ℤ◌, ◌+ℤ◌, sub64, wrap64}
use aldea.Prelude.Text.{str_eq, utf8, bytes_eq}
use aldea.Samples.{integers}
use aldea.Scheduler.{
  WorkloadManifest, validate, parse_manifest_yaml, lowers_to, select_node, select_loop, can_run,
  available_cpu, available_memory_mb, score,
}
use aldea.Runtime.{Engine, new_engine, start_workload, get_workload_status, state_stopped}
use aldea.Compute.{deployed, confirms, deploy, stop}
use aldea.Compute.Deployed.{IsDeployed, IsUnchanged, deploy_cases}

abbrev manifest : WorkloadManifest ℤ
manifest = record {
  workload_id = "w1";
  name = "web";
  image = "nginx";
  workload_type = "Stateless";
  cpu_cores = pos 2;
  memory_mb = pos 512;
  port_mappings = [];
  env = [];
  snapshot_interval_sec = pos 0;
}

abbrev known : String → Option (WorkloadManifest ℤ)
known path = if str_eq path "w1.yaml" then some manifest else none

agrees :
    (confirms " YES\r\n" ≡ true)
    × (confirms "y\n" ≡ true)
    × (confirms "\n" ≡ false)
    × (confirms "yes, go\n" ≡ false)
unfolding confirms bytes_eq utf8
agrees = (refl, refl, refl, refl)

deploy_run :
    (deploy integers known false (some "w1.yaml") "Yes\n" (pos 7) new_engine).0
    ≡ ok (
        deployed
          (start_workload (pos 7) (record manifest { workload_type = "stateless" }) new_engine).0)
unfolding deploy parse_manifest_yaml validate confirms utf8 bytes_eq lowers_to select_node
    select_loop can_run available_cpu ◌-ℤ◌ available_memory_mb sub64 wrap64 score ◌+ℤ◌
deploy_run = refl

deploy_cases_example :
    ((m : WorkloadManifest ℤ) × IsDeployed integers known false "Yes\n"
        (pos 7)
        new_engine
        (some "w1.yaml")
        m
      × (get_workload_status "w1"
            (deploy integers known false (some "w1.yaml") "Yes\n" (pos 7) new_engine).1
          ≡ (if str_eq "w1" m.workload_id
              then ok (start_workload (pos 7) m new_engine).0
              else get_workload_status "w1" new_engine))
      × ((e' : Engine) × (stop m.workload_id
              (deploy integers known false (some "w1.yaml") "Yes\n" (pos 7) new_engine).1
            ≡ ok e')
          × (get_workload_status "w1" e' ≡ (
              if str_eq "w1" m.workload_id
              then ok (record (start_workload (pos 7) m new_engine).0 { state = state_stopped })
              else get_workload_status "w1" new_engine))))
    ⊎ IsUnchanged integers known false "Yes\n" (pos 7) new_engine (some "w1.yaml")
deploy_cases_example =
    deploy_cases integers known false "Yes\n" (pos 7) new_engine (some "w1.yaml") "w1"
