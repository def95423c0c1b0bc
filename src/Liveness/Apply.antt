-- ===== src/Liveness/Apply.antt =====
-- `ApplyLiveness` (internal/tracker/liveness.go): what one sweep leaves in the store.
use aldea.Prelude.{
  ℕ, ◌+◌, ◌≡◌, ap, sym, ◌∙◌, inl, inr, false, String, Option, none, some, List, [], ◌∷◌, arith,
  if◌then◌else◌, ok, Bool-cases, Result-cases,
}
use aldea.Prelude.Int.{ℤ}
use aldea.Prelude.Text.{str_eq_iff}
use aldea.Tracker.{Backend, Store, NodeMetadata, register_node, list_nodes}
use aldea.Tracker.Nodes.{
  find_node, IsDistinct, node_of, IsNodeStore, node_of-register_node, list_nodes-node_of,
}
use aldea.Liveness.{
  LivenessConfig, transient, dead, evaluate, is_healthy_status, differ, apply_loop, apply_liveness,
}

-- The node as the sweep leaves it.
abbrev pub swept : LivenessConfig → ℤ → NodeMetadata → NodeMetadata
swept cfg now n = record n { is_healthy = is_healthy_status (evaluate cfg n now) }

abbrev pub swept_option : LivenessConfig → ℤ → Option NodeMetadata → Option NodeMetadata
swept_option cfg now none = none
swept_option cfg now (some n) = some (swept cfg now n)

-- How many nodes of a list a sweep changes.
pub count_changed : LivenessConfig → ℤ → List NodeMetadata → ℕ
count_changed cfg now [] = 0
count_changed cfg now (n ∷ ns) =
    (if differ n.is_healthy (is_healthy_status (evaluate cfg n now)) then 1 else 0)
    + count_changed cfg now ns

swept_same :
    (cfg : LivenessConfig) (now : ℤ) (n : NodeMetadata)
    → differ n.is_healthy (is_healthy_status (evaluate cfg n now)) ≡ false
    → swept cfg now n ≡ n
swept_same cfg now n h = ground arith

module _ {B R : Type 0} (be : Backend B R) (cfg : LivenessConfig) (now : ℤ) where
  -- A sweep that ends with no error has updated each node of the list, no other, and has counted
  -- the changes.
  apply_loop-node_of :
      (ns : List NodeMetadata) (s s' : Store B) (c c' : ℕ)
      → IsDistinct ns
      → ((id : String) (n : NodeMetadata) → find_node id ns ≡ some n → node_of be s id ≡ some n)
      → apply_loop be cfg now ns s c ≡ (s', c', none)
      → ((id : String)
          → node_of be s' id
            ≡ elim (find_node id ns) [ none ↦ node_of be s id | some n ↦ some (swept cfg now n) ])
        × (c' ≡ c + count_changed cfg now ns)
  unfolding apply_loop find_node count_changed
  apply_loop-node_of [] s s' c c' d look e =
      (λ id. ap (λ t. node_of be t id) (sym (ap (λ t. t.0) e)), ground arith)
  apply_loop-node_of (n ∷ ns) s s' c c' d look e =
      elim (Bool-cases (differ n.is_healthy (is_healthy_status (evaluate cfg n now)))) [
        | inl change ↦ elim (Result-cases (register_node be s (swept cfg now n))) [
          | inl (s₁, r) ↦
              let law = node_of-register_node be s s₁ (swept cfg now n) in
              let (f, g) =
                apply_loop-node_of ns s₁ s' (c + 1) c' d.1
                  (λ id m q. ground (
                    arith,
                    law id r,
                    look id m,
                    str_eq_iff id n.node_id,
                    d.0,
                    ap (λ k. find_node k ns) {x = id} {y = n.node_id},
                  ))
                  (ground (arith, change, r)) in
              (
                λ id. ground (arith, f id, law id r, change, str_eq_iff id n.node_id),
                ground (arith, g, change),
              )
          | inr (x, r) ↦ absurd (ground (arith, r, change))
        ]
        | inr same ↦
            let (f, g) =
              apply_loop-node_of ns s s' c c' d.1 (λ id m q. look id m (rest id m q))
                (ground (arith, same)) in
            (
              λ id. elim (str_eq_iff id n.node_id) [
                | inl (t, p) ↦
                    rw (f id, t, ap (λ k. find_node k ns) p ∙ d.0)
                      (look id n (rw t) ∙ ap some (sym (swept_same cfg now n same)))
                | inr (t, p) ↦ rw (f id, t)
              ],
              ground (arith, g, same),
            )
      ]
    where
      rest :
          (id : String) (m : NodeMetadata)
          → find_node id ns ≡ some m
          → find_node id (n ∷ ns) ≡ some m
      rest id m q =
          ground
            (arith, str_eq_iff id n.node_id, d.0, ap (λ k. find_node k ns) {x = id} {y = n.node_id})

  -- A sweep of a well-formed store that ends with no error gives every node the flag of its
  -- classification, and counts the nodes whose flag changed.
  pub apply_liveness-node_of :
      (s s' : Store B) (changed : ℕ)
      → IsNodeStore be s
      → apply_liveness be cfg now s ≡ (s', changed, none)
      → ((id : String) → node_of be s' id ≡ swept_option cfg now (node_of be s id))
        × ((nodes : List NodeMetadata)
            → list_nodes be s ≡ ok nodes
            → changed ≡ count_changed cfg now nodes)
  unfolding apply_liveness
  apply_liveness-node_of s s' changed w e =
      let (ns, q, d, look) = list_nodes-node_of be s w in
      let (f, g) =
        apply_loop-node_of ns s s' 0 changed d (λ id n r. sym (look id) ∙ r) (ground (arith, q)) in
      (λ id. ground (arith, f id, look id), λ nodes r. ground (arith, g, q, r))

  -- A node that was only transient is marked unhealthy by such a sweep, so that every later
  -- classification, whatever the thresholds and the time, calls it dead.
  pub apply_liveness_transient :
      (s s' : Store B) (changed : ℕ) (id : String) (n : NodeMetadata)
      → IsNodeStore be s
      → node_of be s id ≡ some n
      → evaluate cfg n now ≡ transient
      → apply_liveness be cfg now s ≡ (s', changed, none)
      → (n' : NodeMetadata) × (node_of be s' id ≡ some n')
        × ((later_cfg : LivenessConfig) (later : ℤ) → evaluate later_cfg n' later ≡ dead)
  apply_liveness_transient s s' changed id n w look z e = (
    swept cfg now n,
    (apply_liveness-node_of s s' changed w e).0 id ∙ ap (swept_option cfg now) look,
    λ later_cfg later. unfold evaluate in ground (arith, z),
  )
