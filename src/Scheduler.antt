-- ===== src/Scheduler.antt =====
-- internal/scheduler/manifest.go and scheduler.go: workload manifests and the choice of the compute
-- node. The floating-point numbers are a parameter, of which the proofs use that `<` is
-- irreflexive and transitive, and so is the YAML decoder. The message of an error is left out.
pub mod Choice
pub mod Manifests
mod Tests
use Prim.Native.Char.{code}
use aldea.Prelude.{
  ℕ, ◌+◌, Bool, true, false, String, Option, none, some, List, [], ◌∷◌, Result, ok, err, ltb, leb,
  ◌==◌, ◌&&◌, ◌||◌, not, if◌then◌else◌, ◌≡◌, keep,
}
use aldea.Prelude.Int.{ℤ, pos, negsuc, sub64, ltb_ℤ, leb_ℤ}
use aldea.Prelude.Dict.{Dict}
use aldea.Prelude.Text.{str_eq, bytes_eq}

-- `float64`.
pub record Float (F : Type 0) : Type 0 where
  pub of_int : ℤ → F
  pub add : F → F → F
  pub sub : F → F → F
  pub mul : F → F → F
  pub div : F → F → F
  pub less : F → F → Bool
  pub less_eq : F → F → Bool
  pub less_irrefl : (x : F) → less x x ≡ false
  pub less_trans : (x y z : F) → less x y ≡ true → less y z ≡ true → less x z ≡ true

pub data ManifestError : Type 0 where
  invalid_manifest : ManifestError
  invalid_workload_type : ManifestError
  invalid_yaml : ManifestError

pub data SchedulerError : Type 0 where
  no_eligible_compute_node : SchedulerError
  stateful_workload_pinned : SchedulerError

pub record PortMapping : Type 0 where
  pub host_port : ℤ
  pub container_port : ℤ
  pub protocol : String

pub record WorkloadManifest (F : Type 0) : Type 0 where
  pub workload_id : String
  pub name : String
  pub image : String
  pub workload_type : String
  pub cpu_cores : F
  pub memory_mb : ℤ
  pub port_mappings : List PortMapping
  pub env : Dict String
  pub snapshot_interval_sec : ℤ

pub record NodeComputeCapability (F : Type 0) : Type 0 where
  pub node_id : String
  pub os : String
  pub compute_enabled : Bool
  pub is_healthy : Bool
  pub total_cpu_cores : F
  pub allocated_cpu_cores : F
  pub total_memory_mb : ℤ
  pub allocated_memory_mb : ℤ

abbrev pub workload_stateless : String
workload_stateless = "stateless"

abbrev pub workload_stateful : String
workload_stateful = "stateful"

-- `unicode.ToLower`, on the characters that it takes to an ASCII one: the capitals, the dotted
-- capital I and the Kelvin sign.
abbrev lower_code : ℕ → ℕ
lower_code c =
    if leb 0x41 c && leb c 0x5a
    then c + 0x20
    else if c == 0x130
    then 0x69
    else if c == 0x212a
    then 0x6b
    else c

abbrev pub lower_codes : String → List ℕ
lower_codes String.[] = []
lower_codes (String.◌∷◌ c s) = lower_code (code c) ∷ lower_codes s

-- `strings.ToLower(s) == t`, for a `t` of small ASCII letters.
unfoldable pub lowers_to : String → String → Bool
lowers_to s t = bytes_eq (lower_codes s) (lower_codes t)

module _ {F : Type 0} (fl : Float F) where
  open fl use {of_int, add, sub, div, less, less_eq}

  unfoldable pub available_cpu : NodeComputeCapability F → F
  available_cpu n =
      let free = sub n.total_cpu_cores n.allocated_cpu_cores in
      if less free (of_int (pos 0)) then of_int (pos 0) else free

  unfoldable pub available_memory_mb : NodeComputeCapability F → ℤ
  available_memory_mb n =
      let free = sub64 n.total_memory_mb n.allocated_memory_mb in
      if ltb_ℤ free (pos 0) then pos 0 else free

  -- The tests that the loop of `SelectNode` passes a candidate by.
  unfoldable pub can_run : WorkloadManifest F → NodeComputeCapability F → Bool
  can_run m c =
      lowers_to c.os "linux"
      && (c.compute_enabled && c.is_healthy)
      && not (less (available_cpu c) m.cpu_cores || ltb_ℤ (available_memory_mb c) m.memory_mb)

  unfoldable pub score : NodeComputeCapability F → F
  score c =
      div
        (add (div (available_cpu c) c.total_cpu_cores)
          (div (of_int (available_memory_mb c)) (of_int c.total_memory_mb)))
        (of_int (pos 2))

  -- The loop, with `bestNode` and `maxScore`.
  unfoldable pub select_loop :
      WorkloadManifest F
      → List (NodeComputeCapability F)
      → Option (NodeComputeCapability F)
      → F
      → Option (NodeComputeCapability F)
  select_loop m [] best top = best
  select_loop m (c ∷ rest) best top = elim (can_run m c && less top (score c)) [
    | true ↦ select_loop m rest (some c) (score c)
    | false ↦ select_loop m rest best top
  ]

  unfoldable pub select_node :
      WorkloadManifest F
      → List (NodeComputeCapability F)
      → Result SchedulerError (NodeComputeCapability F)
  select_node m candidates = elim (select_loop m candidates none (of_int (negsuc 0))) [
    | none ↦ err no_eligible_compute_node
    | some best ↦ ok best
  ]

  -- The candidates whose identifier is not the failed node's.
  unfoldable pub without_node :
      String → List (NodeComputeCapability F) → List (NodeComputeCapability F)
  without_node dead candidates = keep (λ c. not (str_eq c.node_id dead)) candidates

  unfoldable pub reschedule_on_node_failure :
      WorkloadManifest F
      → String
      → List (NodeComputeCapability F)
      → Result SchedulerError (NodeComputeCapability F)
  reschedule_on_node_failure m dead candidates =
      if str_eq m.workload_type workload_stateful
      then err stateful_workload_pinned
      else select_node m (without_node dead candidates)

  -- `Validate`, with the manifest as it leaves it.
  unfoldable pub validate : WorkloadManifest F → Result ManifestError (WorkloadManifest F)
  validate m =
      if str_eq m.workload_id "" || str_eq m.name "" || str_eq m.image ""
      then err invalid_manifest
      else if less_eq m.cpu_cores (of_int (pos 0)) || leb_ℤ m.memory_mb (pos 0)
      then err invalid_manifest
      else if lowers_to m.workload_type workload_stateless
      then ok (record m { workload_type = workload_stateless })
      else if lowers_to m.workload_type workload_stateful
      then ok (record m { workload_type = workload_stateful })
      else err invalid_workload_type

  unfoldable pub parse_manifest_yaml :
      {D : Type 0}
      → (D → Option (WorkloadManifest F))
      → D
      → Result ManifestError (WorkloadManifest F)
  parse_manifest_yaml unmarshal data_ = elim (unmarshal data_) [
    | none ↦ err invalid_yaml
    | some m ↦ validate m
  ]
