-- ===== src/Runtime.antt =====
-- internal/runtime/runtime.go and runtime_linux.go: the table of workloads of a node's compute
-- engine. The engine is the map of workloads; the clock is an argument. `int` is 64 bits wide.
pub mod Table
mod Tests
use aldea.Prelude.{
  ℕ, ◌+◌, ◌++◌, String, Option, none, some, List, [], ◌∷◌, length, Result, ok, err, ◌≡◌, Bool,
}
use aldea.Prelude.Int.{ℤ, pos, add64}
use aldea.Prelude.Dict.{Dict, lookup, insert}
use aldea.Prelude.Text.{utf8, decimal}
use aldea.Scheduler.{WorkloadManifest}

-- The states of a container; the engine never sets the last one.
pub data ContainerState : Type 0 where
  state_running : ContainerState
  state_stopped : ContainerState
  state_error : ContainerState

pub data RuntimeError : Type 0 where
  compute_not_supported_on_platform : RuntimeError
  workload_not_found : RuntimeError

pub record ContainerStatus : Type 0 where
  pub workload_id : String
  pub name : String
  pub image : String
  pub state : ContainerState
  pub pid : ℤ
  pub started_at : ℤ
  pub ip_address : List ℕ

abbrev pub Engine : Type 0
Engine = Dict ContainerStatus

abbrev pub new_engine : Engine
new_engine = []

-- `len(e.workloads)`
abbrev pub size : Engine → ℤ
size e = pos (length e)

unfoldable pub start_workload :
    {F : Type 0} → ℤ → WorkloadManifest F → Engine → ContainerStatus × Engine
start_workload now m e =
    let status : ContainerStatus = record {
      workload_id = m.workload_id;
      name = m.name;
      image = m.image;
      state = state_running;
      pid = add64 (pos 1000) (size e);
      started_at = now;
      ip_address = utf8 "10.244.0." ++ decimal (add64 (pos 10) (size e));
    } in
    (status, insert m.workload_id status e)

unfoldable pub stop_workload : String → Engine → Result RuntimeError Engine
stop_workload id e = elim (lookup id e) [
  | none ↦ err workload_not_found
  | some status ↦ ok (insert id (record status { state = state_stopped }) e)
]

unfoldable pub get_workload_status : String → Engine → Result RuntimeError ContainerStatus
get_workload_status id e = elim (lookup id e) [
  | none ↦ err workload_not_found
  | some status ↦ ok status
]

-- In the order of the map's entries, which Go leaves open.
unfoldable pub list_workloads : Engine → List ContainerStatus
list_workloads [] = []
list_workloads ((_, status) ∷ e) = status ∷ list_workloads e
