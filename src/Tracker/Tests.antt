-- ===== src/Tracker/Tests.antt =====
-- Runs and instances of the theorems on internal/tracker/tracker.go.
use aldea.Prelude.{◌≡◌, ◌≤◌, ◌<◌, refl, String, List, [], ◌∷◌, ok, err, length, keep}
use aldea.Prelude.Int.{pos, negsuc, sub64, wrap64, ◌-ℤ◌}
use aldea.Prelude.Dict.{lookup, insert}
use aldea.Samples.{Table, put_in}
use aldea.Tracker.{
  Store, NodeMetadata, insufficient_nodes, slice_panic, is_eligible, free_space, register_node,
  list_nodes, decode_all, select_placement_nodes, save_file_placement,
}
use aldea.Tracker.Nodes.{
  IsDistinct, find_node, node_of, register_node-IsNodeStore, list_nodes-node_of,
}
use aldea.Tracker.Placement.{Selection, select_placement_nodes-Selection}
use aldea.Tracker.Samples.{
  Value, backend, empty, empty-IsNodeStore, node, file, placements, node_value, file_value,
  placements_value,
}

abbrev n1 : NodeMetadata
n1 = node "n1" (pos 100) (pos 5)

abbrev one : Store (Table Value)
one = record empty { nodes = put_in ([], tt) "n1" (node_value n1) }

registered : register_node backend empty n1 ≡ ok one
unfolding register_node insert lookup
registered = refl

list_nodes-node_of_example :
    (ns : List NodeMetadata) × (list_nodes backend one ≡ ok ns)
    × IsDistinct ns
    × ((id : String) → find_node id ns ≡ node_of backend one id)
list_nodes-node_of_example =
    list_nodes-node_of backend one
      (register_node-IsNodeStore backend empty one n1 empty-IsNodeStore registered)

listed : list_nodes backend one ≡ ok (n1 ∷ [])
unfolding list_nodes decode_all insert
listed = refl

select_placement_nodes-Selection_example :
    (1 ≤ length (keep (is_eligible (pos 50)) (n1 ∷ []))
      → (r : List NodeMetadata) × (select_placement_nodes backend one (pos 1) (pos 50) ≡ ok r)
        × Selection (n1 ∷ []) 1 (pos 50) r)
    × (length (keep (is_eligible (pos 50)) (n1 ∷ [])) < 1
        → select_placement_nodes backend one (pos 1) (pos 50) ≡ err insufficient_nodes)
    × (select_placement_nodes backend one (negsuc 1) (pos 50) ≡ err slice_panic)
select_placement_nodes-Selection_example =
    select_placement_nodes-Selection backend one (n1 ∷ []) 1 (pos 50) listed

eligible_run : length (keep (is_eligible (pos 50)) (n1 ∷ [])) ≡ 1
unfolding is_eligible free_space sub64 wrap64 ◌-ℤ◌
eligible_run = refl

abbrev saved : Store (Table Value)
saved = record one {
  files = put_in ([], tt) "f1" (file_value file);
  placements = put_in ([], tt) "f1" (placements_value placements);
}

saved_run : save_file_placement backend one file placements ≡ ok saved
unfolding save_file_placement insert lookup
saved_run = refl
