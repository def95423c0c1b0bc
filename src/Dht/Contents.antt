-- ===== src/Dht/Contents.antt =====
-- The routing table (internal/dht/dht.go): what `Add` and `Remove` change.
use aldea.Prelude.{
  ltb, ℕ, zero, suc, ◌<◌, ◌≡◌, refl, ap, inl, inr, true, false, Option, none, some, List, [], ◌∷◌,
  arith, if◌then◌else◌, length, set, get_elem?, length-set, Bool-cases, ◌==◌, ==_iff,
}
use aldea.Dht.{
  NodeId, Bucket, Contact, RoutingTable, bucket_size, bucket_at, bucket_idx, id_eq, add, remove,
  add_to_bucket, remove_contact,
}
use aldea.Dht.Prefix.{id_eq_iff}
use aldea.Dht.Buckets.{
  find_contact, add_to_bucket_accepts, add_to_bucket_refuses, add_to_bucket_result,
  find-remove_contact,
}
use aldea.Dht.Invariant.{IsTable, bucket_idx-lt, bucket_at-set}

-- What the table knows of an identifier.
pub contact_of : RoutingTable → NodeId → Option Contact
contact_of rt id = find_contact id (bucket_at rt (bucket_idx rt id))

bucket_idx_width :
    (rt : RoutingTable) (bs : List Bucket) (id : NodeId)
    → length bs ≡ length rt.buckets
    → bucket_idx (record rt { buckets = bs }) id ≡ bucket_idx rt id
unfolding bucket_idx
bucket_idx_width rt bs id e = rw e

contact_of-with_bucket :
    (rt : RoutingTable) (i : ℕ) (b : Bucket) (j : NodeId)
    → i < length rt.buckets
    → contact_of (record rt { buckets = set rt.buckets i b }) j
      ≡ (if i == bucket_idx rt j then find_contact j b else contact_of rt j)
unfolding contact_of
contact_of-with_bucket rt i b j h =
    rw
      (
        bucket_idx_width rt (set rt.buckets i b) j (length-set rt.buckets i b),
        bucket_at-set rt i (bucket_idx rt j) b h,
      )
      (ground arith)

add_other :
    (rt : RoutingTable) (c : Contact)
    → id_eq c.id rt.local_id ≡ false
    → add rt c ≡ (
      record rt {
        buckets =
            set rt.buckets
              (bucket_idx rt c.id)
              (add_to_bucket c (bucket_at rt (bucket_idx rt c.id))).0;
      },
      (add_to_bucket c (bucket_at rt (bucket_idx rt c.id))).1,
    )
unfolding add
add_other rt c e = rw e

add_local :
    (rt : RoutingTable) (c : Contact) → id_eq c.id rt.local_id ≡ true → add rt c ≡ (rt, false)
unfolding add
add_local rt c e = rw e

-- A change of one identifier in its bucket, read through the table.
contact_of-change :
    (rt : RoutingTable) (id j : NodeId) (b : Bucket) (x : Option Contact)
    → find_contact j b
      ≡ (if id_eq id j then x else find_contact j (bucket_at rt (bucket_idx rt id)))
    → (if bucket_idx rt id == bucket_idx rt j then find_contact j b else contact_of rt j)
      ≡ (if id_eq id j then x else contact_of rt j)
unfolding contact_of
contact_of-change rt id j b x f = elim (id_eq_iff id j) [
  | inl (t, e) ↦ ground (arith, ap (bucket_idx rt) e)
  | inr (t, e) ↦ elim (Bool-cases (bucket_idx rt id == bucket_idx rt j)) [
    | inl q ↦ let p = (==_iff (bucket_idx rt id) (bucket_idx rt j)).0 q in rw (q, f, t, p)
    | inr q ↦ rw (q, t)
  ]
]

-- After an accepted `Add` a well-formed table knows the new contact, and of any other identifier what it
-- knew before.
pub contact_of-add :
    (rt : RoutingTable) (c : Contact) (j : NodeId)
    → IsTable rt
    → (add rt c).1 ≡ true
    → contact_of (add rt c).0 j ≡ (if id_eq c.id j then some c else contact_of rt j)
contact_of-add rt c j t a = elim (Bool-cases (id_eq c.id rt.local_id)) [
  | inl e ↦ cc (add_local rt c e)
  | inr e ↦
      let i = bucket_idx rt c.id in
      let b = bucket_at rt i in
      let lt = bucket_idx-lt rt c.id (omega (arith, t.width)) in
      let a' : (add_to_bucket c b).1 ≡ true = rw (add_other rt c e) at a in
      rw (add_other rt c e, contact_of-with_bucket rt i (add_to_bucket c b).0 j lt)
        (contact_of-change rt c.id j (add_to_bucket c b).0 (some c)
          (add_to_bucket_accepts c b j a'))
]

get_elem?-some {ℓ} :
    {A : Type ℓ} (xs : List A) (i : ℕ)
    → i < length xs
    → (v : A) × (get_elem? xs i ≡ some v) × (set xs i v ≡ xs)
get_elem?-some [] i h = elim h [ ]
get_elem?-some (x ∷ xs) zero h = (x, refl, refl)
get_elem?-some (x ∷ xs) (suc i) h =
    let (v, e, f) = get_elem?-some xs i (omega arith) in (v, e, ap (◌∷◌ x) f)

set-bucket_at :
    (rt : RoutingTable) (i : ℕ)
    → i < length rt.buckets
    → set rt.buckets i (bucket_at rt i) ≡ rt.buckets
set-bucket_at rt i h = let (v, e, f) = get_elem?-some rt.buckets i h in rw (e, f)

-- On a well-formed table `Add` refuses exactly the local identifier and a new contact whose bucket is full, and then
-- leaves the table as it was.
add_refuses :
    (rt : RoutingTable) (c : Contact)
    → IsTable rt
    → ((add rt c).1 ≡ (
        if id_eq c.id rt.local_id then false else elim (contact_of rt c.id) [
          | none ↦ ltb (length (bucket_at rt (bucket_idx rt c.id))) bucket_size
          | some _ ↦ true
        ]))
      × ((add rt c).1 ≡ false → (add rt c).0 ≡ rt)
unfolding contact_of
add_refuses rt c t = elim (Bool-cases (id_eq c.id rt.local_id)) [
  | inl e ↦ rw (add_local rt c e, e) (refl, λ _. refl)
  | inr e ↦
      let i = bucket_idx rt c.id in
      let b = bucket_at rt i in
      let lt = bucket_idx-lt rt c.id (omega (arith, t.width)) in
      rw (add_other rt c e, e)
        (add_to_bucket_result c b, λ r. rw ((add_to_bucket_refuses c b r).0, set-bucket_at rt i lt))
]

-- After `Remove` a well-formed table knows nothing of the identifier, and of any other what it knew before.
pub contact_of-remove :
    (rt : RoutingTable) (id j : NodeId)
    → IsTable rt
    → contact_of (remove rt id) j ≡ (if id_eq id j then none else contact_of rt j)
unfolding remove
contact_of-remove rt id j t =
    let i = bucket_idx rt id in
    let b = bucket_at rt i in
    let lt = bucket_idx-lt rt id (omega (arith, t.width)) in
    rw (contact_of-with_bucket rt i (remove_contact id b) j lt) (
      contact_of-change rt id j (remove_contact id b) none
        (find-remove_contact id j b (t.sound i).distinct))
