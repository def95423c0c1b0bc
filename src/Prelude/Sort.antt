-- ===== src/Prelude/Sort.antt =====
-- `sort.Slice` by a test `less`. Go's sort is not stable; the laws below, which are all that the
-- other files use, hold of every sort that puts its input in order.
use mathlib.Core.List.{Perm}
use mathlib.Core.List.Perm
use aldea.Prelude.{
  ◌++◌, All-split, ◌≡◌, refl, Bool, true, false, List, [], ◌∷◌, arith, if◌then◌else◌, All,
  All-map_pred, length, ◌+◌, Bool-cases, inl, inr,
}

module _ {ℓ} {A : Type ℓ} (less : A → A → Bool) where
  unfoldable pub insert_by : A → List A → List A
  insert_by x [] = x ∷ []
  insert_by x (y ∷ ys) = if less x y then x ∷ y ∷ ys else y ∷ insert_by x ys

  unfoldable pub sort_slice : List A → List A
  unfolding insert_by
  sort_slice [] = []
  sort_slice (x ∷ xs) = insert_by x (sort_slice xs)

  -- No later element is less than an earlier one.
  abbrev pub IsSorted : List A → Type ℓ
  IsSorted [] = Unit
  IsSorted (x ∷ xs) = All (λ y. less y x ≡ false) xs × IsSorted xs

  insert_by-perm : (x : A) (ys : List A) → Perm (insert_by x ys) (x ∷ ys)
  unfolding insert_by
  insert_by-perm x [] = Perm.rfl
  insert_by-perm x (y ∷ ys) = elim (Bool-cases (less x y)) [
    | inl e ↦ rw e Perm.rfl
    | inr e ↦ rw e (Perm.trans (Perm.cons y (insert_by-perm x ys)) (Perm.swap x y ys))
  ]

  pub sort_slice-perm : (xs : List A) → Perm (sort_slice xs) xs
  unfolding sort_slice
  sort_slice-perm [] = Perm.rfl
  sort_slice-perm (x ∷ xs) =
      Perm.trans (insert_by-perm x (sort_slice xs)) (Perm.cons x (sort_slice-perm xs))

  length-insert_by : (x : A) (ys : List A) → length (insert_by x ys) ≡ length ys + 1
  unfolding insert_by
  length-insert_by x [] = omega arith
  length-insert_by x (y ∷ ys) = ground (arith, length-insert_by x ys)

  pub length-sort_slice : (xs : List A) → length (sort_slice xs) ≡ length xs
  unfolding sort_slice
  length-sort_slice [] = refl
  length-sort_slice (x ∷ xs) =
      omega (arith, length-insert_by x (sort_slice xs), length-sort_slice xs)

  module _ {κ} (P : A → Type κ) where
    insert_by-All : (x : A) (ys : List A) → P x → All P ys → All P (insert_by x ys)
    unfolding insert_by
    insert_by-All x [] h k = (h, tt)
    insert_by-All x (y ∷ ys) h k = ground (arith, insert_by-All x ys h k.1)

    pub sort_slice-All : (xs : List A) → All P xs → All P (sort_slice xs)
    unfolding sort_slice
    sort_slice-All [] h = tt
    sort_slice-All (x ∷ xs) h = insert_by-All x (sort_slice xs) h.0 (sort_slice-All xs h.1)

  -- What `sort.Slice` asks of `less`: a strict weak order.
  pub record IsOrder : Type ℓ where
    pub asym : (a b : A) → less a b ≡ true → less b a ≡ false
    pub trans : (a b c : A) → less b a ≡ false → less c b ≡ false → less c a ≡ false

  module _ (o : IsOrder) where
    insert_by-IsSorted : (x : A) (ys : List A) → IsSorted ys → IsSorted (insert_by x ys)
    unfolding insert_by
    insert_by-IsSorted x [] h = (tt, tt)
    insert_by-IsSorted x (y ∷ ys) h = elim (Bool-cases (less x y)) [
      | inl e ↦
          rw e ((o.asym x y e, All-map_pred _ (λ z k. o.trans x y z (o.asym x y e) k) ys h.0), h)
      | inr e ↦ rw e (insert_by-All _ x ys e h.0, insert_by-IsSorted x ys h.1)
    ]

    pub sort_slice-IsSorted : (xs : List A) → IsSorted (sort_slice xs)
    unfolding sort_slice
    sort_slice-IsSorted [] = tt
    sort_slice-IsSorted (x ∷ xs) = insert_by-IsSorted x (sort_slice xs) (sort_slice-IsSorted xs)

  -- In a sorted list, nothing behind a cut is less than what stands before it.
  pub IsSorted-split :
      (xs ys : List A)
      → IsSorted (xs ++ ys)
      → IsSorted xs × All (λ x. All (λ y. less y x ≡ false) ys) xs
  IsSorted-split [] ys s = (tt, tt)
  IsSorted-split (x ∷ xs) ys s =
      let (k, m) = IsSorted-split xs ys s.1 in
      let (h, t) = All-split _ xs ys s.0 in ((h, k), (t, m))
