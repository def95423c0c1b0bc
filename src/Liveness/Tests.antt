-- ===== src/Liveness/Tests.antt =====
-- Runs and instances of the theorems on internal/tracker/liveness.go.
use aldea.Prelude.{
  ◌+◌, ◌≡◌, refl, false, String, none, some, List, [], ok, arith, if◌then◌else◌, ltb,
}
use aldea.Prelude.Int.{ℤ, pos, sub64, mul64, wrap64, ◌-ℤ◌, ◌*ℤ◌}
use aldea.Prelude.Dict.{lookup, insert}
use aldea.Samples.{Table, put_in}
use aldea.Tracker.{Store, NodeMetadata, register_node, list_nodes, decode_all}
use aldea.Tracker.Nodes.{IsNodeStore, node_of, register_node-IsNodeStore}
use aldea.Tracker.Samples.{Value, backend, empty, empty-IsNodeStore, node, node_value}
use aldea.Liveness.{
  LivenessConfig, default_liveness_config, healthy, transient, dead, evaluate, apply_loop,
  apply_liveness,
}
use aldea.Liveness.Zones.{evaluate_zones, evaluate_overflow}
use aldea.Liveness.Apply.{
  count_changed, swept_option, apply_liveness-node_of, apply_liveness_transient,
}

abbrev n1 : NodeMetadata
n1 = node "n1" (pos 100) (pos 1000)

abbrev one : Store (Table Value)
one = record empty { nodes = put_in ([], tt) "n1" (node_value n1) }

abbrev marked : Store (Table Value)
marked = record empty {
  nodes = put_in one.nodes "n1" (node_value (record n1 { is_healthy = false }));
}

registered : register_node backend empty n1 ≡ ok one
unfolding register_node insert lookup
registered = refl

one-IsNodeStore : IsNodeStore backend one
one-IsNodeStore = register_node-IsNodeStore backend empty one n1 empty-IsNodeStore registered

evaluate_zones_example : evaluate default_liveness_config n1 (pos (1000 + 90)) ≡ (
    if n1.is_healthy
    then if ltb 90 60 then healthy else if ltb 90 600 then transient else dead
    else dead)
evaluate_zones_example = evaluate_zones n1 1000 90 refl (omega arith) (omega arith)

evaluate_overflow_example : evaluate default_liveness_config n1 (pos 10_000_001_000) ≡ healthy
unfolding sub64 wrap64 ◌-ℤ◌
evaluate_overflow_example =
    evaluate_overflow n1 (pos 10_000_001_000) 10_000_000_000 refl refl (omega arith) (omega arith)

swept_run : apply_liveness backend default_liveness_config (pos 1090) one ≡ (marked, 1, none)
unfolding apply_liveness apply_loop list_nodes decode_all register_node insert evaluate mul64 wrap64
    ◌*ℤ◌ sub64 ◌-ℤ◌
swept_run = refl

apply_liveness-node_of_example :
    ((id : String)
      → node_of backend marked id
        ≡ swept_option default_liveness_config (pos 1090) (node_of backend one id))
    × ((nodes : List NodeMetadata)
        → list_nodes backend one ≡ ok nodes
        → 1 ≡ count_changed default_liveness_config (pos 1090) nodes)
apply_liveness-node_of_example =
    apply_liveness-node_of backend default_liveness_config (pos 1090) one marked 1 one-IsNodeStore
      swept_run

known : node_of backend one "n1" ≡ some n1
unfolding node_of lookup insert
known = refl

only_transient : evaluate default_liveness_config n1 (pos 1090) ≡ transient
unfolding evaluate mul64 wrap64 ◌*ℤ◌ sub64 ◌-ℤ◌
only_transient = refl

apply_liveness_transient_example :
    (n' : NodeMetadata) × (node_of backend marked "n1" ≡ some n')
    × ((later_cfg : LivenessConfig) (later : ℤ) → evaluate later_cfg n' later ≡ dead)
apply_liveness_transient_example =
    apply_liveness_transient backend default_liveness_config (pos 1090) one marked 1 "n1" n1
      one-IsNodeStore known only_transient swept_run
