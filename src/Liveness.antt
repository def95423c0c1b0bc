-- ===== src/Liveness.antt =====
-- internal/tracker/liveness.go: the classification of nodes by their silence. Durations are
-- `int64` nanoseconds and times `int64` Unix seconds, with Go's wrap-around; the wall clock is an
-- argument.
pub mod Zones
pub mod Apply
mod Tests
use aldea.Prelude.{
  ℕ, ◌+◌, ◌*◌, ◌≡◌, Bool, true, false, not, Option, none, some, List, [], ◌∷◌, if◌then◌else◌,
  Result, ok, err,
}
use aldea.Prelude.Int.{ℤ, pos, sub64, mul64, ltb_ℤ}
use aldea.Tracker.{Backend, Store, StoreError, NodeMetadata, list_nodes, register_node}

pub data NodeStatus : Type 0 where
  healthy transient dead : NodeStatus

pub record LivenessConfig : Type 0 where
  pub transient_after : ℤ
  pub dead_after : ℤ

-- `time.Second`, in nanoseconds.
abbrev pub second : ℕ
second = 1_000_000_000

abbrev pub default_liveness_config : LivenessConfig
default_liveness_config = record {
  transient_after = pos (60 * second);
  dead_after = pos (600 * second);
}

unfoldable pub evaluate : LivenessConfig → NodeMetadata → ℤ → NodeStatus
evaluate cfg node now_unix =
    if not node.is_healthy
    then dead
    else let silent = mul64 (sub64 now_unix node.last_seen) (pos second) in
      if ltb_ℤ silent cfg.transient_after
      then healthy
      else if ltb_ℤ silent cfg.dead_after
      then transient
      else dead

-- `status == StatusHealthy`.
abbrev pub is_healthy_status : NodeStatus → Bool
is_healthy_status healthy = true
is_healthy_status transient = false
is_healthy_status dead = false

-- `a != b` on flags.
abbrev pub differ : Bool → Bool → Bool
differ true b = not b
differ false b = b

module _ {B R : Type 0} (be : Backend B R) where
  -- The loop of `ApplyLiveness` over the nodes still to visit: the store, the count of changes so
  -- far, and the error that ended the loop, if one did.
  unfoldable pub apply_loop :
      LivenessConfig → ℤ → List NodeMetadata → Store B → ℕ → Store B × ℕ × Option StoreError
  apply_loop cfg now [] s changed = (s, changed, none)
  apply_loop cfg now (n ∷ ns) s changed =
      let should_be_healthy = is_healthy_status (evaluate cfg n now) in
      let unchanged = apply_loop cfg now ns s changed in
      let changing : Store B × ℕ × Option StoreError =
        elim (register_node be s (record n { is_healthy = should_be_healthy })) [
          | ok s' ↦ apply_loop cfg now ns s' (changed + 1)
          | err e ↦ (s, changed, some e)
        ] in
      if differ n.is_healthy should_be_healthy then changing else unchanged

  unfoldable pub apply_liveness : LivenessConfig → ℤ → Store B → Store B × ℕ × Option StoreError
  unfolding apply_loop
  apply_liveness cfg now s = elim (list_nodes be s) [
    | ok nodes ↦ apply_loop cfg now nodes s 0
    | err e ↦ (s, 0, some e)
  ]
