-- ===== src/Dht/Tests.antt =====
-- Runs and instances of the theorems on internal/dht/dht.go.
use aldea.Prelude.{◌≡◌, refl, true, none, some, List, ◌∷◌, replicate, arith, if◌then◌else◌}
use aldea.Prelude.Int.{pos, negsuc}
use aldea.Dht.{
  NodeId, IsNodeId, Contact, RoutingTable, bucket_size, bucket_at, bucket_idx, new_routing_table,
  add, remove, prefix_len, id_eq, find_closest, scan_bits, scan_bytes, xor, id_bytes,
}
use aldea.Dht.Prefix.{prefix_len-eq-common_prefix, common_prefix, id_bits}
use aldea.Dht.Invariant.{IsTable, new_routing_table-IsTable, add-IsTable, remove-IsTable}
use aldea.Dht.Contents.{contact_of, contact_of-add, contact_of-remove}
use aldea.Dht.Closest.{Nearest, find_closest-Nearest}

abbrev local : NodeId
local = replicate 20 0

abbrev peer : NodeId
peer = 3 ∷ replicate 19 0

abbrev stranger : NodeId
stranger = 200 ∷ replicate 19 7

local-IsNodeId : IsNodeId local
local-IsNodeId = ground arith

peer-IsNodeId : IsNodeId peer
peer-IsNodeId = ground arith

abbrev contact : Contact
contact = record { id = peer; address = "10.0.0.1:9000"; last_seen = 5 }

abbrev table : RoutingTable
table = (add (new_routing_table local) contact).0

empty-IsTable : IsTable (new_routing_table local)
empty-IsTable = new_routing_table-IsTable local local-IsNodeId

table-IsTable : IsTable table
table-IsTable = add-IsTable (new_routing_table local) contact empty-IsTable peer-IsNodeId

added : (add (new_routing_table local) contact).1 ≡ true
unfolding new_routing_table add id_eq aldea.Dht.add_to_bucket aldea.Dht.replace_contact bucket_idx
    prefix_len
added = refl

prefix_len_run : prefix_len local peer ≡ 6
unfolding prefix_len scan_bits
prefix_len_run = refl

prefix_len-eq-common_prefix_example :
    prefix_len local peer ≡ common_prefix (id_bits local) (id_bits peer)
prefix_len-eq-common_prefix_example =
    prefix_len-eq-common_prefix local peer local-IsNodeId peer-IsNodeId

add-IsTable_example : IsTable (add table contact).0
add-IsTable_example = add-IsTable table contact table-IsTable peer-IsNodeId

remove-IsTable_example : IsTable (remove table peer)
remove-IsTable_example = remove-IsTable table peer table-IsTable

contact_of-add_example :
    contact_of table stranger
    ≡ (if id_eq peer stranger then some contact else contact_of (new_routing_table local) stranger)
contact_of-add_example =
    contact_of-add (new_routing_table local) contact stranger empty-IsTable added

contact_of-remove_example :
    contact_of (remove table peer) peer ≡ (if id_eq peer peer then none else contact_of table peer)
contact_of-remove_example = contact_of-remove table peer peer table-IsTable

find_closest-Nearest_example :
    ((r : List Contact) × (find_closest table stranger (pos 3) ≡ some r)
      × Nearest table stranger 3 r)
    × (find_closest table stranger (negsuc 3) ≡ none)
find_closest-Nearest_example = find_closest-Nearest table stranger 3
