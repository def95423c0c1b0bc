-- ===== src/Tracker/Nodes.antt =====
-- The node table of internal/tracker/tracker.go as a map from identifiers to nodes.
use aldea.Prelude.{
  ◌≡◌, refl, ap, sym, ◌∙◌, inl, inr, String, Option, none, some, List, [], ◌∷◌, arith,
  if◌then◌else◌, ok, All, Option-cases,
}
use aldea.Prelude.Dict.{IsDict, Dict, lookup, All_of_lookup}
use aldea.Prelude.Text.{str_eq, str_eq_iff}
use aldea.Backend.{Codec}
use aldea.Tracker.{Backend, Store, NodeMetadata, decode_all, register_node, list_nodes}

-- The first node of a list with an identifier.
unfoldable pub find_node : String → List NodeMetadata → Option NodeMetadata
find_node id [] = none
find_node id (n ∷ ns) = if str_eq id n.node_id then some n else find_node id ns

abbrev decoded : {A R : Type 0} → Codec A R → Option R → Option A
decoded c none = none
decoded c (some r) = c.unmarshal r

-- No identifier stands twice.
abbrev pub IsDistinct : List NodeMetadata → Type 0
IsDistinct [] = Unit
IsDistinct (n ∷ ns) = (find_node n.node_id ns ≡ none) × IsDistinct ns

module _ {B R : Type 0} (be : Backend B R) where
  open be use {bucket, node_codec}

  -- What the store knows of an identifier.
  unfoldable pub node_of : Store B → String → Option NodeMetadata
  node_of s id = decoded node_codec (bucket.get s.nodes id)

  -- Every value decodes to a node that is filed under its own identifier.
  pub record IsNodeStore (s : Store B) : Type 0 where
    pub filed :
        (k : String) (r : R)
        → bucket.get s.nodes k ≡ some r
        → (n : NodeMetadata) × (node_codec.unmarshal r ≡ some n) × (n.node_id ≡ k)

  -- After `RegisterNode` the store knows the node as it was given, and every other as before.
  pub node_of-register_node :
      (s s' : Store B) (n : NodeMetadata) (id : String)
      → register_node be s n ≡ ok s'
      → node_of s' id ≡ (if str_eq id n.node_id then some n else node_of s id)
  unfolding register_node node_of
  node_of-register_node s s' n id e = elim (Option-cases (node_codec.marshal n)) [
    | inl m ↦ ground (arith, m)
    | inr (r, m) ↦ elim (Option-cases (bucket.put s.nodes n.node_id r)) [
      | inl p ↦ ground (arith, m, p)
      | inr (b, p) ↦ ground (
        arith,
        m,
        p,
        bucket.get-put s.nodes b n.node_id id r p,
        node_codec.unmarshal-marshal n r m,
      )
    ]
  ]

  -- In a store whose values all decode to nodes filed under their own identifiers, a successful
  -- `RegisterNode` keeps that so.
  pub register_node-IsNodeStore :
      (s s' : Store B) (n : NodeMetadata)
      → IsNodeStore s
      → register_node be s n ≡ ok s'
      → IsNodeStore s'
  unfolding register_node
  register_node-IsNodeStore s s' n w e = elim (Option-cases (node_codec.marshal n)) [
    | inl m ↦ ground (arith, m)
    | inr (r, m) ↦ elim (Option-cases (bucket.put s.nodes n.node_id r)) [
      | inl p ↦ ground (arith, m, p)
      | inr (b, p) ↦ record {
        filed = λ k raw g. filed_after r b k raw m p (ground (arith, m, p)) g;
      }
    ]
  ]
    where
      filed_after :
          (r : R) (b : B) (k : String) (raw : R)
          → node_codec.marshal n ≡ some r
          → bucket.put s.nodes n.node_id r ≡ some b
          → s'.nodes ≡ b
          → bucket.get s'.nodes k ≡ some raw
          → (x : NodeMetadata) × (node_codec.unmarshal raw ≡ some x) × (x.node_id ≡ k)
      filed_after r b k raw m p q g =
          let law : bucket.get s'.nodes k
              ≡ (if str_eq k n.node_id then some r else bucket.get s.nodes k) =
            rw q (bucket.get-put s.nodes b n.node_id k r p) in
          elim (str_eq_iff k n.node_id) [
            | inl (t, same) ↦
                (n, ground (arith, law, t, node_codec.unmarshal-marshal n r m), sym same)
            | inr (t, other) ↦ w.filed k raw (ground (arith, law, t))
          ]

  decode_all-find :
      (m : Dict R)
      → IsDict m
      → All (λ e. (n : NodeMetadata) × (node_codec.unmarshal e.1 ≡ some n) × (n.node_id ≡ e.0)) m
      → (ns : List NodeMetadata) × (decode_all node_codec m ≡ ok ns)
        × IsDistinct ns
        × ((id : String) → find_node id ns ≡ decoded node_codec (lookup id m))
  unfolding decode_all find_node lookup
  decode_all-find [] d h = ([], refl, tt, λ id. refl)
  decode_all-find ((k, r) ∷ m) d ((n, u, f), h) =
      let (ns, e, distinct, look) = decode_all-find m d.1 h in
      (
        n ∷ ns,
        rw (u, e),
        (rw f (look k ∙ ap (decoded node_codec) d.0), distinct),
        λ id. ground (arith, look id, ap (str_eq id) f, u),
      )

  -- On a well-formed store `ListNodes` succeeds, and its list says of every identifier what the
  -- store knows of it, once.
  pub list_nodes-node_of :
      (s : Store B)
      → IsNodeStore s
      → (ns : List NodeMetadata) × (list_nodes be s ≡ ok ns)
        × IsDistinct ns
        × ((id : String) → find_node id ns ≡ node_of s id)
  unfolding list_nodes node_of
  list_nodes-node_of s w =
      let distinct = bucket.entries-IsDict s.nodes in
      let (ns, e, d, look) = decode_all-find (bucket.entries s.nodes) distinct (
        All_of_lookup _ (bucket.entries s.nodes) distinct
          (λ k r e. w.filed k r (sym (bucket.lookup-entries s.nodes k) ∙ e))) in
      (ns, e, d, λ id. look id ∙ ap (decoded node_codec) (bucket.lookup-entries s.nodes id))
