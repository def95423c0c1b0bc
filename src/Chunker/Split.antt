-- ===== src/Chunker/Split.antt =====
-- `Split` (internal/chunker/chunker.go): it ends, and what its chunks are.
use aldea.Prelude.{
  ℕ, zero, suc, ◌+◌, ◌≤◌, ◌<◌, ◌≡◌, refl, inl, inr, true, false, some, List, [], ◌∷◌, arith,
  if◌then◌else◌, ok, err, length, take, drop, length-take, length-drop, Bool-cases, leb, ltb,
}
use aldea.Prelude.Int.{ℤ, pos, negsuc}
use aldea.Chunker.{Bytes, Chunk, Reader, read_failed, effective_size, split_loop, split}

pub effective_size_pos : (n : ℤ) → 0 < effective_size n
unfolding effective_size
effective_size_pos (pos n) = ground arith
effective_size_pos (negsuc n) = omega arith

module _ (sha256 : Bytes → Bytes) (size : ℕ) where
  -- The chunks of a text from an index on: each holds the next `size` bytes, or at the end what is
  -- left, under its index and its checksum; none is empty.
  abbrev pub IsChunking : ℕ → Bytes → List Chunk → Type 0
  IsChunking i text [] = text ≡ []
  IsChunking i text (c ∷ cs) =
      (c.index ≡ pos i)
      × (c.content ≡ take size text)
      × (c.hash ≡ sha256 c.content)
      × (0 < length text)
      × IsChunking (i + 1) (drop size text) cs

  last_chunk :
      (i : ℕ) (text : Bytes)
      → length text < size
      → IsChunking i text (
          if ltb 0 (length (take size text))
          then record { index = pos i; content = take size text; hash = sha256 (take size text) }
            ∷ []
          else [])
  last_chunk i [] h = ground (arith, length-take {A = ℕ} size [])
  last_chunk i (b ∷ text) h = ground (arith, length-take size (b ∷ text), drop_all size (b ∷ text))
    where
      drop_all : (n : ℕ) (xs : Bytes) → length xs ≤ n → drop n xs ≡ []
      drop_all zero [] h = refl
      drop_all zero (x ∷ xs) h = absurd (omega arith)
      drop_all (suc n) [] h = refl
      drop_all (suc n) (x ∷ xs) h = drop_all n xs (omega arith)

  split_loop-IsChunking :
      (fuel i : ℕ) (text : Bytes)
      → 0 < size
      → length text < fuel
      → (cs : List Chunk) × (split_loop sha256 fuel size i
            (record { remaining = text; fails = false })
          ≡ some (ok cs))
        × IsChunking i text cs
  unfolding split_loop
  split_loop-IsChunking zero i text s h = absurd (omega arith)
  split_loop-IsChunking (suc fuel) i text s h = elim (Bool-cases (leb size (length text))) [
    | inl more ↦
        let (cs, e, k) =
          split_loop-IsChunking fuel (i + 1) (drop size text) s
            (ground (arith, length-drop size text)) in
        (
          record { index = pos i; content = take size text; hash = sha256 (take size text) } ∷ cs,
          ground (arith, more, length-take size text, e),
          (refl, refl, refl, ground arith, k),
        )
    | inr done ↦ (_, ground (arith, done), last_chunk i text (ground arith))
  ]

  split_loop_failing :
      (fuel i : ℕ) (text : Bytes)
      → 0 < size
      → length text < fuel
      → split_loop sha256 fuel size i (record { remaining = text; fails = true })
        ≡ some (err read_failed)
  unfolding split_loop
  split_loop_failing zero i text s h = absurd (omega arith)
  split_loop_failing (suc fuel) i text s h = ground (
    arith,
    length-drop size text,
    length-take size text,
    split_loop_failing fuel (i + 1) (drop size text) s,
  )

-- `Split` always ends. A stream that ends properly gives its chunking; one that breaks off gives
-- no chunks and an error.
pub split-IsChunking :
    (sha256 : Bytes → Bytes) (r : Reader) (chunk_size : ℤ)
    → (r.fails ≡ false
        → (cs : List Chunk) × (split sha256 r chunk_size ≡ some (ok cs))
          × IsChunking sha256 (effective_size chunk_size) 0 r.remaining cs)
      × (r.fails ≡ true → split sha256 r chunk_size ≡ some (err read_failed))
unfolding split
split-IsChunking sha256 r chunk_size = (
  λ e. rw e (
      split_loop-IsChunking sha256 size (length r.remaining + 1) 0 r.remaining pos_size
        (omega arith)),
  λ e. rw e (
      split_loop_failing sha256 size (length r.remaining + 1) 0 r.remaining pos_size (omega arith)),
)
  where
    size : ℕ
    size = effective_size chunk_size

    pos_size : 0 < size
    pos_size = effective_size_pos chunk_size
