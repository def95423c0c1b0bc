-- ===== src/Compute.antt =====
-- cmd/aldea/compute.go: the deploy, list and stop commands over the compute engine of the process. Its file, the line
-- that is typed at the question and the clock are arguments, and what is printed is left out.

pub mod Deployed
mod Tests
use aldea.Prelude.{
  ℕ, Bool, true, false, String, Option, none, some, List, [], ◌∷◌, Result, ok, err, leb, ◌==◌, ◌&&◌,
  ◌||◌, not, if◌then◌else◌,
}
use aldea.Prelude.Int.{ℤ, pos}
use aldea.Prelude.Text.{utf8, bytes_eq}
use aldea.Scheduler.{
  Float, WorkloadManifest, NodeComputeCapability, ManifestError, SchedulerError, lower_codes,
  parse_manifest_yaml, select_node,
}
use aldea.Runtime.{
  Engine, ContainerStatus, RuntimeError, start_workload, stop_workload, list_workloads,
}

pub data ComputeError : Type 0 where
  reading_manifest_file : ComputeError
  invalid_workload_manifest : ManifestError → ComputeError
  scheduling_workload : SchedulerError → ComputeError
  stopping_workload : RuntimeError → ComputeError

-- How a deployment without an error ends.
pub data Deployment : Type 0 where
  aborted : Deployment
  deployed : ContainerStatus → Deployment

-- `unicode.IsSpace`
abbrev is_space : ℕ → Bool
is_space c =
    (leb 0x9 c && leb c 0xd)
    || (c == 0x20 || c == 0x85 || c == 0xa0 || c == 0x1680)
    || (leb 0x2000 c && leb c 0x200a)
    || (c == 0x2028 || c == 0x2029 || c == 0x202f || c == 0x205f || c == 0x3000)

abbrev trim_left : List ℕ → List ℕ
trim_left [] = []
trim_left (c ∷ s) = let rest = trim_left s in if is_space c then rest else c ∷ s

abbrev is_empty : List ℕ → Bool
is_empty [] = true
is_empty (_ ∷ _) = false

abbrev trim_right : List ℕ → List ℕ
trim_right [] = []
trim_right (c ∷ s) = let rest = trim_right s in if is_space c && is_empty rest then [] else c ∷ rest

-- `strings.TrimSpace`, on the characters' codes
abbrev trim_space : List ℕ → List ℕ
trim_space s = trim_right (trim_left s)

-- The answer to the warning is a yes.
unfoldable pub confirms : String → Bool
confirms answer =
    let input = trim_space (lower_codes answer) in
    bytes_eq input (utf8 "y") || bytes_eq input (utf8 "yes")

module _ {F : Type 0} (fl : Float F) where
  open fl use {of_int}

  -- The one candidate
  abbrev pub local_node : NodeComputeCapability F
  local_node = record {
    node_id = "local-node";
    os = "linux";
    compute_enabled = true;
    is_healthy = true;
    total_cpu_cores = of_int (pos 4);
    allocated_cpu_cores = of_int (pos 0);
    total_memory_mb = pos 4096;
    allocated_memory_mb = pos 0;
  }

  -- The deploy command from the content of the file, if it can be read.
  unfoldable pub deploy :
      {D : Type 0}
      → (D → Option (WorkloadManifest F))
      → Bool
      → Option D
      → String
      → ℤ
      → Engine
      → Result ComputeError Deployment × Engine
  deploy unmarshal auto_confirm none answer now e = (err reading_manifest_file, e)
  deploy unmarshal auto_confirm (some content) answer now e =
      elim (parse_manifest_yaml fl unmarshal content) [
        | err x ↦ (err (invalid_workload_manifest x), e)
        | ok m ↦
            if not auto_confirm && not (confirms answer)
            then (ok aborted, e)
            else elim (select_node fl m (local_node ∷ [])) [
              | err x ↦ (err (scheduling_workload x), e)
              | ok _ ↦ let (status, e') = start_workload now m e in (ok (deployed status), e')
            ]
      ]

-- What the list command prints, in the order of the map's entries.
unfoldable pub list : Engine → List ContainerStatus
list e = list_workloads e

unfoldable pub stop : String → Engine → Result ComputeError Engine
stop id e = elim (stop_workload id e) [ err x ↦ err (stopping_workload x) | ok e' ↦ ok e' ]
