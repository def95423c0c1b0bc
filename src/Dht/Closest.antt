-- ===== src/Dht/Closest.antt =====
-- `FindClosest` (internal/dht/dht.go): the contacts nearest to a target, nearest first.
use mathlib.Core.List.{Perm}
use aldea.Prelude.{
  ℕ, ◌≡◌, refl, ap, ◌∙◌, Bool, true, false, none, some, List, [], ◌∷◌, ◌++◌, arith, if◌then◌else◌,
  length, All, take, drop, take_all, take-append-drop, length-take, min, ltb,
}
use aldea.Prelude.Int.{pos, negsuc}
use aldea.Prelude.Sort.{
  sort_slice, IsSorted, IsOrder, sort_slice-IsSorted, sort_slice-perm, length-sort_slice,
  IsSorted-split,
}
use aldea.Dht.{NodeId, Contact, RoutingTable, lex_less, closer, xor, all_contacts, find_closest}

lex_less_asym : (a b : List ℕ) → lex_less a b ≡ true → lex_less b a ≡ false
unfolding lex_less
lex_less_asym [] [] h = refl
lex_less_asym [] (y ∷ b) h = refl
lex_less_asym (x ∷ a) [] h = cc
lex_less_asym (x ∷ a) (y ∷ b) h = ground (arith, lex_less_asym a b)

lex_less_trans :
    (a b c : List ℕ) → lex_less b a ≡ false → lex_less c b ≡ false → lex_less c a ≡ false
unfolding lex_less
lex_less_trans [] [] [] h k = refl
lex_less_trans [] [] (z ∷ c) h k = refl
lex_less_trans [] (y ∷ b) [] h k = cc
lex_less_trans [] (y ∷ b) (z ∷ c) h k = refl
lex_less_trans (x ∷ a) [] c h k = cc
lex_less_trans (x ∷ a) (y ∷ b) [] h k = cc
lex_less_trans (x ∷ a) (y ∷ b) (z ∷ c) h k = ground (arith, lex_less_trans a b c)

closer-IsOrder : (target : NodeId) → IsOrder (closer target)
unfolding closer
closer-IsOrder target = record {
  asym = λ c d. lex_less_asym (xor c.id target) (xor d.id target);
  trans = λ c d e. lex_less_trans (xor c.id target) (xor d.id target) (xor e.id target);
}

-- The answer to a query: sorted by distance, and cut from all contacts so that none that is left
-- out is nearer than one that is given.
pub record Nearest (rt : RoutingTable) (target : NodeId) (n : ℕ) (r : List Contact) : Type 0 where
  pub sorted : IsSorted (closer target) r
  pub counted : length r ≡ min n (length (all_contacts rt.buckets))
  pub left_out : List Contact
  pub complete : Perm (r ++ left_out) (all_contacts rt.buckets)
  pub nearest : All (λ c. All (λ d. closer target d c ≡ false) left_out) r

-- A query for `n` contacts gives the nearest `n`, or all if there are fewer; only a count below
-- zero panics.
pub find_closest-Nearest :
    (rt : RoutingTable) (target : NodeId) (n : ℕ)
    → ((r : List Contact) × (find_closest rt target (pos n) ≡ some r) × Nearest rt target n r)
      × (find_closest rt target (negsuc n) ≡ none)
unfolding find_closest
find_closest-Nearest rt target n = (
  (
    take n sorted,
    ap some cut,
    record {
      sorted = split.0;
      counted = length-take n sorted ∙ ap (min n) (length-sort_slice less all);
      left_out = drop n sorted;
      complete = rw (take-append-drop n sorted) (sort_slice-perm less all);
      nearest = split.1;
    },
  ),
  refl,
)
  where
    all : List Contact
    all = all_contacts rt.buckets

    less : Contact → Contact → Bool
    less = closer target

    sorted : List Contact
    sorted = sort_slice less all

    cut : (if ltb n (length sorted) then take n sorted else sorted) ≡ take n sorted
    cut = ground (arith, take_all n sorted)

    split :
        IsSorted less (take n sorted)
        × All (λ c. All (λ d. less d c ≡ false) (drop n sorted)) (take n sorted)
    split =
        IsSorted-split less (take n sorted) (drop n sorted)
          (rw (take-append-drop n sorted) (sort_slice-IsSorted less (closer-IsOrder target) all))
