-- ===== src/Dht.antt =====
-- internal/dht/dht.go: node identifiers, the XOR metric and the routing table.
-- A byte is a number below 256 and a `NodeID` a list of 20 of them (`IsNodeId`); a bucket array is
-- a list of 160 buckets. The table's lock makes each operation one step. `none` in
-- `find_closest` is the run-time panic of a slice bound below zero.
pub mod Bits
pub mod Prefix
pub mod Buckets
pub mod Invariant
pub mod Contents
pub mod Closest
mod Tests
use Prim.Native.Nat.{bit_and, bit_xor}
use aldea.Prelude.{
  ℕ, zero, suc, ◌+◌, ◌-◌, ◌*◌, ◌^◌, ◌≤◌, ◌<◌, ◌≡◌, Bool, true, false, ◌&&◌, String, Option, none,
  some, List, [], ◌∷◌, ◌++◌, ltb, leb, ◌==◌, if◌then◌else◌, length, get_elem?, set, take, replicate,
  All,
}
use aldea.Prelude.Int.{ℤ, pos, negsuc}
use aldea.Prelude.Sort.{sort_slice}

abbrev pub id_bytes : ℕ
id_bytes = 20

abbrev pub bucket_size : ℕ
bucket_size = 20

abbrev pub NodeId : Type 0
NodeId = List ℕ

-- What the array type `[IDBytes]byte` guarantees.
abbrev pub IsNodeId : NodeId → Type 0
IsNodeId id = (length id ≡ id_bytes) × All (λ b. b < 256) id

-- `sha256` hashes the bytes of a text.
unfoldable pub new_node_id : (String → List ℕ) → String → NodeId
new_node_id sha256 input = take id_bytes (sha256 input)

-- `XOR`, byte by byte.
pub xor : NodeId → NodeId → NodeId
xor [] _ = []
xor (a ∷ xs) [] = []
xor (a ∷ xs) (b ∷ ys) = bit_xor a b ∷ xor xs ys

-- The inner loop of `PrefixLen`, from bit `k - 1` down to bit 0.
pub scan_bits : ℕ → ℕ → Option ℕ
scan_bits zero b = none
scan_bits (suc bit) b = if bit_and b (2 ^ bit) == 0 then scan_bits bit b else some (7 - bit)

-- The outer loop, from byte `i` on.
pub scan_bytes : ℕ → List ℕ → ℕ
unfolding scan_bits
scan_bytes i [] = id_bytes * 8
scan_bytes i (b ∷ ys) =
    let rest = scan_bytes (i + 1) ys in
    if b == 0 then rest else elim (scan_bits 8 b) [ none ↦ rest | some n ↦ i * 8 + n ]

unfoldable pub prefix_len : NodeId → NodeId → ℕ
unfolding scan_bytes xor
prefix_len id target = scan_bytes 0 (xor id target)

-- `==` on identifiers.
pub id_eq : NodeId → NodeId → Bool
id_eq [] [] = true
id_eq [] (b ∷ ys) = false
id_eq (a ∷ xs) [] = false
id_eq (a ∷ xs) (b ∷ ys) = a == b && id_eq xs ys

-- `bytes.Compare(a, b) < 0`.
pub lex_less : List ℕ → List ℕ → Bool
lex_less [] [] = false
lex_less [] (b ∷ ys) = true
lex_less (a ∷ xs) [] = false
lex_less (a ∷ xs) (b ∷ ys) = if ltb a b then true else if ltb b a then false else lex_less xs ys

pub record Contact : Type 0 where
  pub id : NodeId
  pub address : String
  pub last_seen : ℕ

abbrev pub Bucket : Type 0
Bucket = List Contact

pub record RoutingTable : Type 0 where
  pub local_id : NodeId
  pub buckets : List Bucket

unfoldable pub new_routing_table : NodeId → RoutingTable
new_routing_table id = record { local_id = id; buckets = replicate (id_bytes * 8) [] }

abbrev pub bucket_or_nil : Option Bucket → Bucket
bucket_or_nil none = []
bucket_or_nil (some b) = b

abbrev pub bucket_at : RoutingTable → ℕ → Bucket
bucket_at rt i = bucket_or_nil (get_elem? rt.buckets i)

-- The bucket of an identifier; the last one also takes the local identifier's own distance.
pub bucket_idx : RoutingTable → NodeId → ℕ
bucket_idx rt id =
    let i = prefix_len rt.local_id id in
    if leb (length rt.buckets) i then length rt.buckets - 1 else i

-- The loop of `Add`: the first contact with the identifier is overwritten.
pub replace_contact : Contact → Bucket → Option Bucket
replace_contact c [] = none
replace_contact c (e ∷ b) =
    let rest = replace_contact c b in
    if id_eq e.id c.id then some (c ∷ b) else elim rest [ none ↦ none | some b' ↦ some (e ∷ b') ]

-- The new bucket, and whether the contact is in it.
pub add_to_bucket : Contact → Bucket → Bucket × Bool
add_to_bucket c b = elim (replace_contact c b) [
  | some b' ↦ (b', true)
  | none ↦ if ltb (length b) bucket_size then (b ++ c ∷ [], true) else (b, false)
]

pub add : RoutingTable → Contact → RoutingTable × Bool
add rt c =
    if id_eq c.id rt.local_id
    then (rt, false)
    else let i = bucket_idx rt c.id in
      let r = add_to_bucket c (bucket_at rt i) in
      (record rt { buckets = set rt.buckets i r.0 }, r.1)

-- The loop of `Remove`: the first contact with the identifier is cut out.
pub remove_contact : NodeId → Bucket → Bucket
remove_contact id [] = []
remove_contact id (e ∷ b) = if id_eq e.id id then b else e ∷ remove_contact id b

pub remove : RoutingTable → NodeId → RoutingTable
remove rt id =
    let i = bucket_idx rt id in
    record rt { buckets = set rt.buckets i (remove_contact id (bucket_at rt i)) }

pub all_contacts : List Bucket → List Contact
all_contacts [] = []
all_contacts (b ∷ ys) = b ++ all_contacts ys

-- `i` before `j`: the smaller XOR distance to the target.
pub closer : NodeId → Contact → Contact → Bool
closer target c d = lex_less (xor c.id target) (xor d.id target)

pub find_closest : RoutingTable → NodeId → ℤ → Option (List Contact)
find_closest rt target (negsuc n) = none
find_closest rt target (pos count) =
    let all = sort_slice (closer target) (all_contacts rt.buckets) in
    some (if ltb count (length all) then take count all else all)
