-- ===== src/Tracker/Placement.antt =====
-- `SelectPlacementNodes` (internal/tracker/tracker.go) against what it promises.
use mathlib.Core.List.{Perm}
use aldea.Prelude.{
  ℕ, ◌≤◌, ◌<◌, ◌≡◌, true, false, List, ◌++◌, arith, ok, err, All, All-map_pred, keep, keep-All,
  length, take, drop, take-append-drop, length-take, All-take,
}
use aldea.Prelude.Int.{ℤ, pos, negsuc, ◌≤ℤ◌}
use aldea.Prelude.Sort.{
  IsSorted, IsOrder, sort_slice, sort_slice-IsSorted, sort_slice-perm, sort_slice-All,
  length-sort_slice, IsSorted-split,
}
use aldea.Tracker.{
  Backend, Store, NodeMetadata, insufficient_nodes, slice_panic, free_space, is_eligible, more_free,
  select_from, list_nodes, select_placement_nodes,
}

more_free-IsOrder : IsOrder more_free
unfolding more_free
more_free-IsOrder = record { asym = λ a b h. ground arith; trans = λ a b c h k. ground arith }

-- `n` healthy nodes with the space asked for, the freest first, such that no eligible node that is
-- left out has more free space.
pub record Selection (nodes : List NodeMetadata) (n : ℕ) (required : ℤ) (r : List NodeMetadata)
    : Type 0 where
  pub counted : length r ≡ n
  pub fit : All (λ x. (x.is_healthy ≡ true) × (required ≤ℤ free_space x)) r
  pub sorted : IsSorted more_free r
  pub left_out : List NodeMetadata
  pub complete : Perm (r ++ left_out) (keep (is_eligible required) nodes)
  pub best : All (λ x. All (λ y. more_free y x ≡ false) left_out) r

is_eligible_fit :
    (required : ℤ) (x : NodeMetadata)
    → is_eligible required x ≡ true
    → (x.is_healthy ≡ true) × (required ≤ℤ free_space x)
unfolding is_eligible
is_eligible_fit required x h = ground arith

select_from-Selection :
    (nodes : List NodeMetadata) (n : ℕ) (required : ℤ)
    → n ≤ length (keep (is_eligible required) nodes)
    → (r : List NodeMetadata) × (select_from nodes (pos n) required ≡ ok r)
      × Selection nodes n required r
unfolding select_from
select_from-Selection nodes n required h = (
  take n sorted,
  ground arith,
  record {
    counted = omega (arith, length-take n sorted, length-sort_slice more_free eligible);
    fit = All-take _ n sorted (
        sort_slice-All more_free _ eligible
          (All-map_pred _ (is_eligible_fit required) eligible (keep-All _ nodes)));
    sorted = split.0;
    left_out = drop n sorted;
    complete = rw (take-append-drop n sorted) (sort_slice-perm more_free eligible);
    best = split.1;
  },
)
  where
    eligible : List NodeMetadata
    eligible = keep (is_eligible required) nodes

    sorted : List NodeMetadata
    sorted = sort_slice more_free eligible

    split :
        IsSorted more_free (take n sorted)
        × All (λ x. All (λ y. more_free y x ≡ false) (drop n sorted)) (take n sorted)
    split =
        IsSorted-split more_free (take n sorted) (drop n sorted) (
          rw (take-append-drop n sorted) (sort_slice-IsSorted more_free more_free-IsOrder eligible))

module _ {B R : Type 0} (be : Backend B R) where
  -- Where the nodes can be listed, a request for `n` nodes gives the `n` best eligible ones, or is
  -- refused if fewer are eligible; a negative count passes the guard and panics.
  pub select_placement_nodes-Selection :
      (s : Store B) (nodes : List NodeMetadata) (n : ℕ) (required : ℤ)
      → list_nodes be s ≡ ok nodes
      → (n ≤ length (keep (is_eligible required) nodes)
          → (r : List NodeMetadata) × (select_placement_nodes be s (pos n) required ≡ ok r)
            × Selection nodes n required r)
        × (length (keep (is_eligible required) nodes) < n
            → select_placement_nodes be s (pos n) required ≡ err insufficient_nodes)
        × (select_placement_nodes be s (negsuc n) required ≡ err slice_panic)
  unfolding select_placement_nodes
  select_placement_nodes-Selection s nodes n required e = (
    λ h. let (r, q, sel) = select_from-Selection nodes n required h in (r, rw (e, q), sel),
    λ h. rw e (unfold select_from in ground arith),
    rw e (unfold select_from in ground arith),
  )
