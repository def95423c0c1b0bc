-- ===== src/Repair/Marking.antt =====
-- Which nodes internal/repair/repair.go takes for failed.
use aldea.Prelude.{
  ◌≡◌, refl, ap, false, not, List, [], ◌∷◌, map, ok, Bool-cases, inl, inr, All, keep,
}
use aldea.Prelude.Int.{ℤ}
use aldea.Tracker.{Backend, Store, NodeMetadata, register_node, list_nodes}
use aldea.Client.{Bytes, Platform}
use aldea.Repair.{Links, has_failed, mark_failed, registered, inspect_and_repair}

module _ {B R : Type 0} (be : Backend B R) where
  -- The failed nodes are those that are marked unhealthy or silent for too long, and the others are kept.
  mark_failed_lem :
      (now timeout : ℤ) (nodes : List NodeMetadata) (s : Store B)
      → ((mark_failed be now timeout nodes s).1
          ≡ map (λ n. n.node_id) (keep (has_failed now timeout) nodes))
        × ((mark_failed be now timeout nodes s).2
            ≡ keep (λ n. not (has_failed now timeout n)) nodes)
  unfolding mark_failed
  mark_failed_lem now timeout [] s = (refl, refl)
  mark_failed_lem now timeout (n ∷ ns) s = elim (Bool-cases (has_failed now timeout n)) [
    | inl t ↦
        let (a, b) =
          mark_failed_lem now timeout ns
            (registered be s (register_node be s (record n { is_healthy = false }))) in
        (rw (mark_failed, t, a) refl, rw (mark_failed, t, b) refl)
    | inr t ↦
        let (a, b) = mark_failed_lem now timeout ns s in
        (rw (mark_failed, t, a) refl, rw (mark_failed, t, b) refl)
  ]

  none_failed :
      (now timeout : ℤ) (nodes : List NodeMetadata) (s : Store B)
      → All (λ n. has_failed now timeout n ≡ false) nodes
      → mark_failed be now timeout nodes s ≡ (s, [], nodes)
  unfolding mark_failed
  none_failed now timeout [] s h = refl
  none_failed now timeout (n ∷ ns) s (h, hs) =
      let ih = none_failed now timeout ns s hs in
      rw (mark_failed, h, ap (λ r. r.0) ih, ap (λ r. r.1) ih, ap (λ r. r.2) ih) refl

  -- As long as no node is marked unhealthy or has been silent for longer than the timeout, a round of the repair does
  -- nothing: it changes neither the store nor the network, and reports no repair and no error.
  inspect_and_repair_idle :
      {W : Type 0} (p : Platform) (links : Links W) (key : Bytes) (order : List ℤ → List ℤ)
      (now timeout : ℤ) (s : Store B) (w : W) (nodes : List NodeMetadata)
      → list_nodes be s ≡ ok nodes
      → All (λ n. has_failed now timeout n ≡ false) nodes
      → inspect_and_repair be p links key order now timeout s w
        ≡ (record { store = s; world = w; repaired = 0 }, ok tt)
  unfolding inspect_and_repair
  inspect_and_repair_idle p links key order now timeout s w nodes e h =
      let marked = none_failed now timeout nodes s h in
      rw (inspect_and_repair, e, ap (λ r. r.1) marked, ap (λ r. r.0) marked) refl
