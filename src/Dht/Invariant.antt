-- ===== src/Dht/Invariant.antt =====
-- The routing table (internal/dht/dht.go): what `Add` and `Remove` keep.
use aldea.Prelude.{
  ℕ, zero, suc, ◌*◌, ◌≤◌, ◌<◌, ◌≡◌, refl, sym, ◌∙◌, inl, inr, ◌≢◌, [], arith, if◌then◌else◌, length,
  All, set, get_elem?, length-set, length-replicate, get_elem?-set_self, get_elem?-set_ne,
  Bool-cases, ◌==◌, ==_iff, replicate,
}
use aldea.Dht.{
  NodeId, IsNodeId, Bucket, Contact, RoutingTable, new_routing_table, bucket_size, bucket_at,
  bucket_or_nil, bucket_idx, prefix_len, id_bytes, add, remove, add_to_bucket, remove_contact,
}
use aldea.Dht.Prefix.{id_eq_iff, prefix_len-lt}
use aldea.Dht.Buckets.{
  IsDistinct, length-add_to_bucket, add_to_bucket-IsDistinct, add_to_bucket-All, remove_contact-All,
  remove_contact-IsDistinct, length-remove_contact,
}

-- A contact in bucket `i`: a valid identifier, not the local one, that shares `i` digits with it.
pub record Belongs (local_id : NodeId) (i : ℕ) (c : Contact) : Type 0 where
  pub valid : IsNodeId c.id
  pub other : c.id ≢ local_id
  pub shares : prefix_len local_id c.id ≡ i

pub record IsBucket (local_id : NodeId) (i : ℕ) (b : Bucket) : Type 0 where
  pub bounded : length b ≤ bucket_size
  pub distinct : IsDistinct b
  pub placed : All (Belongs local_id i) b

pub record IsTable (rt : RoutingTable) : Type 0 where
  pub local_valid : IsNodeId rt.local_id
  pub width : length rt.buckets ≡ id_bytes * 8
  pub sound : (i : ℕ) → IsBucket rt.local_id i (bucket_at rt i)

pub bucket_idx-lt :
    (rt : RoutingTable) (id : NodeId) → 0 < length rt.buckets → bucket_idx rt id < length rt.buckets
unfolding bucket_idx
bucket_idx-lt rt id h = ground arith

pub bucket_at-set :
    (rt : RoutingTable) (i j : ℕ) (b : Bucket)
    → i < length rt.buckets
    → bucket_at (record rt { buckets = set rt.buckets i b }) j
      ≡ (if i == j then b else bucket_at rt j)
bucket_at-set rt i j b h = elim (Bool-cases (i == j)) [
  | inl e ↦ let p = (==_iff i j).0 e in rw (e, ← p, get_elem?-set_self rt.buckets i b h)
  | inr e ↦ let p : i ≢ j = ground arith in rw (e, get_elem?-set_ne rt.buckets i j b p)
]

-- The identifiers' distances never reach the clamp to the last bucket.
bucket_idx_other :
    (rt : RoutingTable) (id : NodeId)
    → IsTable rt
    → IsNodeId id
    → id ≢ rt.local_id
    → bucket_idx rt id ≡ prefix_len rt.local_id id
unfolding bucket_idx
bucket_idx_other rt id t h ne =
    ground (arith, prefix_len-lt rt.local_id id t.local_valid h (λ e. ne (sym e)))

with_bucket-IsTable :
    (rt : RoutingTable) (i : ℕ) (b : Bucket)
    → IsTable rt
    → i < length rt.buckets
    → IsBucket rt.local_id i b
    → IsTable (record rt { buckets = set rt.buckets i b })
with_bucket-IsTable rt i b t h k = record {
  local_valid = t.local_valid;
  width = length-set rt.buckets i b ∙ t.width;
  sound = λ j. elim (Bool-cases (i == j)) [
    | inl e ↦ let p = (==_iff i j).0 e in rw (bucket_at-set rt i j b h, e, ← p) k
    | inr e ↦ rw (bucket_at-set rt i j b h, e) (t.sound j)
  ];
}

replicate_nil : (n i : ℕ) → bucket_or_nil (get_elem? (replicate n []) i) ≡ []
replicate_nil zero i = refl
replicate_nil (suc n) zero = refl
replicate_nil (suc n) (suc i) = replicate_nil n i

-- A new table is well formed.
pub new_routing_table-IsTable : (id : NodeId) → IsNodeId id → IsTable (new_routing_table id)
unfolding new_routing_table
new_routing_table-IsTable id h = record {
  local_valid = h;
  width = length-replicate {A = Bucket} (id_bytes * 8) [];
  sound = λ i.
      rw (replicate_nil (id_bytes * 8) i)
        (record { bounded = omega arith; distinct = tt; placed = tt });
}

-- `Add` of a contact with a valid identifier keeps a well-formed table well formed, whatever it
-- answers.
pub add-IsTable :
    (rt : RoutingTable) (c : Contact) → IsTable rt → IsNodeId c.id → IsTable (add rt c).0
unfolding add
add-IsTable rt c t h = elim (id_eq_iff c.id rt.local_id) [
  | inl (e, _) ↦ rw e t
  | inr (e, ne) ↦
      let i = bucket_idx rt c.id in
      let b = bucket_at rt i in
      let s = t.sound i in
      rw e (
        with_bucket-IsTable rt i (add_to_bucket c b).0 t
          (bucket_idx-lt rt c.id (omega (arith, t.width)))
          (record {
            bounded = length-add_to_bucket c b s.bounded;
            distinct = add_to_bucket-IsDistinct c b s.distinct;
            placed =
                add_to_bucket-All (Belongs rt.local_id i) c b
                  (record { valid = h; other = ne; shares = sym (bucket_idx_other rt c.id t h ne) })
                  s.placed;
          }))
]

-- `Remove` keeps a well-formed table well formed.
pub remove-IsTable : (rt : RoutingTable) (id : NodeId) → IsTable rt → IsTable (remove rt id)
unfolding remove
remove-IsTable rt id t =
    let i = bucket_idx rt id in
    let b = bucket_at rt i in
    let s = t.sound i in
    with_bucket-IsTable rt i (remove_contact id b) t (bucket_idx-lt rt id (omega (arith, t.width)))
      (record {
        bounded = omega (arith, length-remove_contact id b, s.bounded);
        distinct = remove_contact-IsDistinct id b s.distinct;
        placed = remove_contact-All (Belongs rt.local_id i) id b s.placed;
      })
