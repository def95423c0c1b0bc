-- ===== src/Client/Grouping.antt =====
-- How the download (cmd/aldea/get.go) groups the placements of a file by chunk.
use aldea.Prelude.{
  ℕ, suc, zero, ◌+◌, ◌≡◌, ◌<◌, ◌≢◌, refl, subst, ap, ◌∙◌, true, false, List, [], ◌∷◌, ◌++◌, length,
  All, All-append, All-map_pred, arith, Bool, keep, Bool-cases, inl, inr,
}
use mathlib.Core.List.{append_assoc, append-nil}
use aldea.Prelude.Int.{ℤ, pos, eqb_ℤ}
use aldea.Tracker.{ShardPlacement}
use aldea.Client.Download.{group, insert_key, chunk_indices}
use aldea.Client.Uploaded.{concat}

abbrev pub InChunk : ℕ → List ShardPlacement → Type 0
InChunk k pls = All (λ pl. pl.chunk_index ≡ pos k) pls

-- The groups belong to the chunks from `k` on, and none is empty.
abbrev pub IsGrouped : ℕ → List (List ShardPlacement) → Type 0
IsGrouped k [] = Unit
IsGrouped k (g ∷ gs) = InChunk k g × (0 < length g) × IsGrouped (k + 1) gs

abbrev Elsewhere : ℕ → List ShardPlacement → Type 0
Elsewhere k pls = All (λ pl. (j : ℕ) × (pl.chunk_index ≡ pos j) × (j ≢ k)) pls

keep-append :
    {A : Type 0} (p : A → Bool) (xs ys : List A) → keep p (xs ++ ys) ≡ keep p xs ++ keep p ys
keep-append p [] ys = refl
keep-append p (x ∷ xs) ys = elim (Bool-cases (p x)) [
  | inl t ↦ rw (t, keep-append p xs ys) refl
  | inr t ↦ rw (t, keep-append p xs ys) refl
]

group-append :
    (ci : ℤ) (xs ys : List ShardPlacement) → group ci (xs ++ ys) ≡ group ci xs ++ group ci ys
unfolding group
group-append ci xs ys = keep-append (λ p. eqb_ℤ p.chunk_index ci) xs ys

group_all : (k : ℕ) (g : List ShardPlacement) → InChunk k g → group (pos k) g ≡ g
unfolding group
group_all k [] h = refl
group_all k (pl ∷ g) (e, h) =
    let t : eqb_ℤ pl.chunk_index (pos k) ≡ true = ap (λ c. eqb_ℤ c (pos k)) e ∙ ground arith in
    rw (t, group_all k g h) refl

group_none : (k : ℕ) (g : List ShardPlacement) → Elsewhere k g → group (pos k) g ≡ []
unfolding group
group_none k [] h = refl
group_none k (pl ∷ g) ((j, e, n), h) =
    let t : eqb_ℤ pl.chunk_index (pos k) ≡ false =
      ap (λ c. eqb_ℤ c (pos k)) e ∙ ground (arith, n) in
    rw t (group_none k g h)

InChunk-Elsewhere : (k l : ℕ) (g : List ShardPlacement) → l ≢ k → InChunk l g → Elsewhere k g
InChunk-Elsewhere k l g n h = All-map_pred (λ pl. pl.chunk_index ≡ pos l) (λ pl e. (l, e, n)) g h

IsGrouped-Elsewhere :
    (k l : ℕ) (gs : List (List ShardPlacement)) → k < l → IsGrouped l gs → Elsewhere k (concat gs)
IsGrouped-Elsewhere k l [] o h = tt
IsGrouped-Elsewhere k l (g ∷ gs) o (here, filled, h) =
    All-append (λ pl. (j : ℕ) × (pl.chunk_index ≡ pos j) × (j ≢ k)) g (concat gs)
      (InChunk-Elsewhere k l g (λ e. ground arith) here)
      (IsGrouped-Elsewhere k (l + 1) gs (omega arith) h)

-- Each group is what the grouping of a list gives for its chunk.
abbrev pub AllFound : List ShardPlacement → ℕ → List (List ShardPlacement) → Type 0
AllFound pls k [] = Unit
AllFound pls k (g ∷ gs) = (group (pos k) pls ≡ g) × AllFound pls (k + 1) gs

AllFound-before :
    (before : List ShardPlacement) (k : ℕ) (gs : List (List ShardPlacement))
    → All (λ pl. (j : ℕ) × (pl.chunk_index ≡ pos j) × (j < k)) before
    → IsGrouped k gs
    → AllFound (before ++ concat gs) k gs
AllFound-before before k [] b h = tt
AllFound-before before k (g ∷ gs) b (here, filled, h) =
    let elsewhere =
      All-map_pred (λ pl. (j : ℕ) × (pl.chunk_index ≡ pos j) × (j < k))
        {Q = λ pl. (j : ℕ) × (pl.chunk_index ≡ pos j) × (j ≢ k)}
        (λ pl x. (x.0, x.1, λ e. ground (arith, x.2))) before b in
    let nothing : group (pos k) before ≡ [] = group_none k before elsewhere in
    let later : group (pos k) (concat gs) ≡ [] =
      group_none k (concat gs) (IsGrouped-Elsewhere k (k + 1) gs (omega arith) h) in
    let found : group (pos k) (before ++ (g ++ concat gs)) ≡ g =
      group-append (pos k) before (g ++ concat gs)
      ∙ ap (◌++ group (pos k) (g ++ concat gs)) nothing
      ∙ group-append (pos k) g (concat gs)
      ∙ ap (group (pos k) g ++◌) later
      ∙ append-nil (group (pos k) g)
      ∙ group_all k g here in
    let b' =
      All-append (λ pl. (j : ℕ) × (pl.chunk_index ≡ pos j) × (j < k + 1)) before g
        (All-map_pred (λ pl. (j : ℕ) × (pl.chunk_index ≡ pos j) × (j < k))
          {Q = λ pl. (j : ℕ) × (pl.chunk_index ≡ pos j) × (j < k + 1)}
          (λ pl x. (x.0, x.1, omega (arith, x.2))) before b)
        (All-map_pred (λ pl. pl.chunk_index ≡ pos k) (λ pl e. (k, e, omega arith)) g here) in
    (
      found,
      subst (λ pls. AllFound pls (k + 1) gs) (append_assoc before g (concat gs))
          (AllFound-before (before ++ g) (k + 1) gs b' h),
    )

pub concat-AllFound :
    (k : ℕ) (gs : List (List ShardPlacement)) → IsGrouped k gs → AllFound (concat gs) k gs
concat-AllFound k gs h = AllFound-before [] k gs tt h

abbrev pub numbers : ℕ → ℕ → List ℤ
numbers k zero = []
numbers k (suc n) = pos k ∷ numbers (k + 1) n

insert_key_again : (k : ℕ) (ks : List ℤ) → insert_key (pos k) (pos k ∷ ks) ≡ pos k ∷ ks
unfolding insert_key
insert_key_again k ks = ground arith

insert_key_first : (k n : ℕ) → insert_key (pos k) (numbers (k + 1) n) ≡ pos k ∷ numbers (k + 1) n
unfolding insert_key
insert_key_first k zero = refl
insert_key_first k (suc n) = ground arith

chunk_indices-InChunk :
    (k n : ℕ) (g rest : List ShardPlacement)
    → InChunk k g
    → 0 < length g
    → chunk_indices rest ≡ numbers (k + 1) n
    → chunk_indices (g ++ rest) ≡ numbers k (suc n)
unfolding chunk_indices
chunk_indices-InChunk k n [] rest h l e = absurd (omega arith)
chunk_indices-InChunk k n (pl ∷ []) rest (c, h) l e = rw (c, e) (insert_key_first k n)
chunk_indices-InChunk k n (pl ∷ pl' ∷ g) rest (c, h) l e =
    let ih = chunk_indices-InChunk k n (pl' ∷ g) rest h (omega arith) e in
    ap (insert_key pl.chunk_index) ih
    ∙ ap (λ ci. insert_key ci (numbers k (suc n))) c
    ∙ insert_key_again k (numbers (k + 1) n)

-- The chunks are visited in order, each once.
pub chunk_indices-concat :
    (k : ℕ) (gs : List (List ShardPlacement))
    → IsGrouped k gs
    → chunk_indices (concat gs) ≡ numbers k (length gs)
unfolding chunk_indices
chunk_indices-concat k [] h = refl
chunk_indices-concat k (g ∷ gs) (here, filled, h) =
    chunk_indices-InChunk k (length gs) g (concat gs) here filled
      (chunk_indices-concat (k + 1) gs h)
