-- ===== src/Prelude/Dict.antt =====
-- A Go map with string keys, as an association list. Go leaves the order of a map open: the
-- theorems read a map by `lookup`, or for every order of its entries.
use aldea.Prelude.{
  ◌≡◌, refl, ◌≢◌, String, Option, none, some, List, [], ◌∷◌, arith, if◌then◌else◌, length, ◌+◌, All,
}
use aldea.Prelude.Text.{str_eq, str_eq_iff, str_eq_refl}

abbrev pub Dict {ℓ} : Type ℓ → Type ℓ
Dict V = List (String × V)

module _ {ℓ} {V : Type ℓ} where
  unfoldable pub lookup : String → Dict V → Option V
  lookup k [] = none
  lookup k ((j, v) ∷ m) = if str_eq k j then some v else lookup k m

  -- `m[k] = v`
  unfoldable pub insert : String → V → Dict V → Dict V
  insert k v [] = (k, v) ∷ []
  insert k v ((j, w) ∷ m) = if str_eq k j then (k, v) ∷ m else (j, w) ∷ insert k v m

  -- `delete(m, k)`
  unfoldable pub erase : String → Dict V → Dict V
  erase k [] = []
  erase k ((j, w) ∷ m) = if str_eq k j then m else (j, w) ∷ erase k m

  -- No key stands twice.
  abbrev pub IsDict : Dict V → Type ℓ
  IsDict [] = Unit
  IsDict ((k, v) ∷ m) = (lookup k m ≡ none) × IsDict m

  pub lookup-insert :
      (j k : String) (v : V) (m : Dict V)
      → lookup j (insert k v m) ≡ (if str_eq j k then some v else lookup j m)
  unfolding lookup insert
  lookup-insert j k v [] = refl
  lookup-insert j k v ((i, w) ∷ m) =
      ground (arith, str_eq_iff k i, str_eq_iff j k, str_eq_iff j i, lookup-insert j k v m)

  pub lookup-erase_ne : (j k : String) (m : Dict V) → j ≢ k → lookup j (erase k m) ≡ lookup j m
  unfolding lookup erase
  lookup-erase_ne j k [] h = refl
  lookup-erase_ne j k ((i, w) ∷ m) h =
      ground (arith, str_eq_iff k i, str_eq_iff j i, lookup-erase_ne j k m h)

  pub lookup-erase_self : (k : String) (m : Dict V) → IsDict m → lookup k (erase k m) ≡ none
  unfolding lookup erase
  lookup-erase_self k [] h = refl
  lookup-erase_self k ((i, w) ∷ m) h = ground (arith, str_eq_iff k i, lookup-erase_self k m h.1)

  pub insert-IsDict : (k : String) (v : V) (m : Dict V) → IsDict m → IsDict (insert k v m)
  unfolding lookup insert
  insert-IsDict k v [] h = (refl, tt)
  insert-IsDict k v ((i, w) ∷ m) h =
      ground (arith, str_eq_iff k i, str_eq_iff i k, lookup-insert i k v m, insert-IsDict k v m h.1)

  pub erase-IsDict : (k : String) (m : Dict V) → IsDict m → IsDict (erase k m)
  unfolding erase
  erase-IsDict k [] h = tt
  erase-IsDict k ((i, w) ∷ m) h =
      ground (arith, str_eq_iff k i, str_eq_iff i k, lookup-erase_ne i k m, erase-IsDict k m h.1)

  pub length-insert_old :
      (k : String) (v w : V) (m : Dict V) → lookup k m ≡ some w → length (insert k v m) ≡ length m
  unfolding lookup insert
  length-insert_old k v w [] e = cc
  length-insert_old k v w ((i, u) ∷ m) e = ground (arith, str_eq_iff k i, length-insert_old k v w m)

  pub length-insert_new :
      (k : String) (v : V) (m : Dict V) → lookup k m ≡ none → length (insert k v m) ≡ length m + 1
  unfolding lookup insert
  length-insert_new k v [] e = omega arith
  length-insert_new k v ((i, u) ∷ m) e = ground (arith, str_eq_iff k i, length-insert_new k v m)

module _ {ℓ κ} {V : Type ℓ} (P : String → V → Type κ) where
  -- What holds of every pair that a lookup finds holds of every entry.
  pub All_of_lookup :
      (m : Dict V)
      → IsDict m
      → ((k : String) (v : V) → lookup k m ≡ some v → P k v)
      → All (λ e. P e.0 e.1) m
  unfolding lookup
  All_of_lookup [] d h = tt
  All_of_lookup ((i, w) ∷ m) d h = (h i w (rw (str_eq_refl i)), All_of_lookup m d.1 rest)
    where
      rest : (k : String) (v : V) → lookup k m ≡ some v → P k v
      rest k v e = h k v (ground (arith, str_eq_iff k i, d.0))
