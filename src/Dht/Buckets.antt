-- ===== src/Dht/Buckets.antt =====
-- One bucket of the routing table (internal/dht/dht.go) as a finite map from identifiers.
use aldea.Prelude.{
  ◌≤◌, ◌≡◌, refl, inl, inr, true, false, ◌≢◌, Option, none, some, [], ◌∷◌, ◌++◌, arith,
  if◌then◌else◌, length, All, ltb, length-append, All-append, Option-cases,
}
use aldea.Dht.{
  NodeId, Bucket, Contact, bucket_size, id_eq, replace_contact, add_to_bucket, remove_contact,
}
use aldea.Dht.Prefix.{id_eq_iff}

-- The contact that a bucket has for an identifier.
pub find_contact : NodeId → Bucket → Option Contact
find_contact id [] = none
find_contact id (e ∷ b) = if id_eq e.id id then some e else find_contact id b

-- No identifier stands twice.
abbrev pub IsDistinct : Bucket → Type 0
IsDistinct [] = Unit
IsDistinct (e ∷ b) = (find_contact e.id b ≡ none) × IsDistinct b

replace_contact-none :
    (c : Contact) (b : Bucket) → replace_contact c b ≡ none → find_contact c.id b ≡ none
unfolding replace_contact find_contact
replace_contact-none c [] h = refl
replace_contact-none c (e ∷ b) h = ground (arith, replace_contact-none c b)

find-replace_contact :
    (c : Contact) (b b' : Bucket) (j : NodeId)
    → replace_contact c b ≡ some b'
    → find_contact j b' ≡ (if id_eq c.id j then some c else find_contact j b)
unfolding replace_contact find_contact
find-replace_contact c [] b' j h = cc
find-replace_contact c (e ∷ b) b' j h = elim (Option-cases (replace_contact c b)) [
  | inl o ↦ ground (arith, id_eq_iff e.id c.id, id_eq_iff c.id j, id_eq_iff e.id j)
  | inr (r, o) ↦ ground (
    arith,
    find-replace_contact c b r j o,
    id_eq_iff e.id c.id,
    id_eq_iff c.id j,
    id_eq_iff e.id j,
  )
]

length-replace_contact :
    (c : Contact) (b b' : Bucket) → replace_contact c b ≡ some b' → length b' ≡ length b
unfolding replace_contact
length-replace_contact c [] b' h = cc
length-replace_contact c (e ∷ b) b' h = elim (Option-cases (replace_contact c b)) [
  | inl o ↦ ground arith
  | inr (r, o) ↦ ground (arith, length-replace_contact c b r o)
]

find-append :
    (j : NodeId) (b : Bucket) (c : Contact)
    → find_contact c.id b ≡ none
    → find_contact j (b ++ c ∷ []) ≡ (if id_eq c.id j then some c else find_contact j b)
unfolding find_contact
find-append j [] c h = refl
find-append j (e ∷ b) c h =
    ground (arith, find-append j b c, id_eq_iff c.id j, id_eq_iff e.id j, id_eq_iff e.id c.id)

pub add_to_bucket_accepts :
    (c : Contact) (b : Bucket) (j : NodeId)
    → (add_to_bucket c b).1 ≡ true
    → find_contact j (add_to_bucket c b).0 ≡ (if id_eq c.id j then some c else find_contact j b)
unfolding add_to_bucket
add_to_bucket_accepts c b j h = elim (Option-cases (replace_contact c b)) [
  | inl o ↦ ground (arith, find-append j b c (replace_contact-none c b o))
  | inr (b', o) ↦ ground (arith, find-replace_contact c b b' j o)
]

-- A contact is refused exactly when its bucket is full of others; the bucket is left alone.
pub add_to_bucket_refuses :
    (c : Contact) (b : Bucket)
    → (add_to_bucket c b).1 ≡ false
    → ((add_to_bucket c b).0 ≡ b) × (bucket_size ≤ length b) × (find_contact c.id b ≡ none)
unfolding add_to_bucket
add_to_bucket_refuses c b h = elim (Option-cases (replace_contact c b)) [
  | inl o ↦ ground (arith, replace_contact-none c b o)
  | inr (b', o) ↦ ground arith
]

pub length-add_to_bucket :
    (c : Contact) (b : Bucket) → length b ≤ bucket_size → length (add_to_bucket c b).0 ≤ bucket_size
unfolding add_to_bucket
length-add_to_bucket c b h = elim (Option-cases (replace_contact c b)) [
  | inl o ↦ ground (arith, length-append b (c ∷ []))
  | inr (b', o) ↦ ground (arith, length-replace_contact c b b' o)
]

replace_contact-IsDistinct :
    (c : Contact) (b b' : Bucket) → replace_contact c b ≡ some b' → IsDistinct b → IsDistinct b'
unfolding replace_contact find_contact
replace_contact-IsDistinct c [] b' h d = cc
replace_contact-IsDistinct c (e ∷ b) b' h d = elim (Option-cases (replace_contact c b)) [
  | inl o ↦ ground (arith, id_eq_iff e.id c.id)
  | inr (r, o) ↦ ground (
    arith,
    id_eq_iff e.id c.id,
    id_eq_iff c.id e.id,
    find-replace_contact c b r e.id o,
    replace_contact-IsDistinct c b r o d.1,
  )
]

append-IsDistinct :
    (b : Bucket) (c : Contact)
    → find_contact c.id b ≡ none
    → IsDistinct b
    → IsDistinct (b ++ c ∷ [])
unfolding find_contact
append-IsDistinct [] c h d = (refl, tt)
append-IsDistinct (e ∷ b) c h d =
    ground
      (arith, find-append e.id b c, id_eq_iff e.id c.id, id_eq_iff c.id e.id, append-IsDistinct b c)

pub add_to_bucket-IsDistinct :
    (c : Contact) (b : Bucket) → IsDistinct b → IsDistinct (add_to_bucket c b).0
unfolding add_to_bucket
add_to_bucket-IsDistinct c b d = elim (Option-cases (replace_contact c b)) [
  | inl o ↦ ground (arith, append-IsDistinct b c (replace_contact-none c b o) d)
  | inr (b', o) ↦ ground (arith, replace_contact-IsDistinct c b b' o d)
]

module _ (P : Contact → Type 0) where
  replace_contact-All :
      (c : Contact) (b b' : Bucket) → replace_contact c b ≡ some b' → P c → All P b → All P b'
  unfolding replace_contact
  replace_contact-All c [] b' h k d = cc
  replace_contact-All c (e ∷ b) b' h k d = elim (Option-cases (replace_contact c b)) [
    | inl o ↦ ground arith
    | inr (r, o) ↦ ground (arith, replace_contact-All c b r o k d.1)
  ]

  pub add_to_bucket-All : (c : Contact) (b : Bucket) → P c → All P b → All P (add_to_bucket c b).0
  unfolding add_to_bucket
  add_to_bucket-All c b k d = elim (Option-cases (replace_contact c b)) [
    | inl o ↦ ground (arith, All-append P b (c ∷ []) d (k, tt))
    | inr (b', o) ↦ ground (arith, replace_contact-All c b b' o k d)
  ]

  pub remove_contact-All : (id : NodeId) (b : Bucket) → All P b → All P (remove_contact id b)
  unfolding remove_contact
  remove_contact-All id [] d = tt
  remove_contact-All id (e ∷ b) d = ground (arith, remove_contact-All id b d.1)

pub find-remove_contact :
    (id j : NodeId) (b : Bucket)
    → IsDistinct b
    → find_contact j (remove_contact id b) ≡ (if id_eq id j then none else find_contact j b)
unfolding remove_contact find_contact
find-remove_contact id j [] d = ground arith
find-remove_contact id j (e ∷ b) d =
    ground
      (arith, find-remove_contact id j b d.1, id_eq_iff e.id id, id_eq_iff id j, id_eq_iff e.id j)

pub remove_contact-IsDistinct :
    (id : NodeId) (b : Bucket) → IsDistinct b → IsDistinct (remove_contact id b)
unfolding remove_contact
remove_contact-IsDistinct id [] d = tt
remove_contact-IsDistinct id (e ∷ b) d = ground (
  arith,
  find-remove_contact id e.id b d.1,
  id_eq_iff e.id id,
  id_eq_iff id e.id,
  remove_contact-IsDistinct id b d.1,
)

pub length-remove_contact : (id : NodeId) (b : Bucket) → length (remove_contact id b) ≤ length b
unfolding remove_contact
length-remove_contact id [] = omega arith
length-remove_contact id (e ∷ b) = ground (arith, length-remove_contact id b)

replace_contact_found :
    (c : Contact) (b b' : Bucket) → replace_contact c b ≡ some b' → find_contact c.id b ≢ none
unfolding replace_contact find_contact
replace_contact_found c [] b' h = cc
replace_contact_found c (e ∷ b) b' h = elim (Option-cases (replace_contact c b)) [
  | inl o ↦ ground arith
  | inr (r, o) ↦ ground (arith, replace_contact_found c b r o)
]

-- Whether a contact is taken: it is there already, or there is room.
pub add_to_bucket_result :
    (c : Contact) (b : Bucket)
    → (add_to_bucket c b).1
      ≡ elim (find_contact c.id b) [ none ↦ ltb (length b) bucket_size | some _ ↦ true ]
unfolding add_to_bucket
add_to_bucket_result c b = elim (Option-cases (replace_contact c b)) [
  | inl o ↦ ground (arith, replace_contact-none c b o)
  | inr (b', o) ↦ ground (arith, o, replace_contact_found c b b' o)
]
