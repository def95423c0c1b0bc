-- ===== src/Chunker/Reassemble.antt =====
-- `Reassemble` (internal/chunker/chunker.go): what it accepts, and the round trip with `Split`.
use mathlib.Core.List.{append-nil, append_assoc}
use aldea.Prelude.{
  ℕ, ◌+◌, ◌≡◌, ap, sym, ◌∙◌, Bool, true, false, not, Option, none, some, List, [], ◌∷◌, ◌++◌, arith,
  if◌then◌else◌, ok, length, drop, take-append-drop,
}
use aldea.Prelude.Int.{ℤ, eqb_ℤ, pos}
use aldea.Prelude.Text.{bytes_eq, bytes_eq_refl, bytes_eq_iff}
use aldea.Chunker.{
  Bytes, Chunk, Reader, ReassembleError, invalid_chunk_sequence, corrupted_chunk, effective_size,
  split, reassemble_from, reassemble,
}
use aldea.Chunker.Split.{IsChunking, split-IsChunking}

-- Writing into memory, which does not fail.
abbrev pub append_to : Bytes → Bytes → Bytes × Bool
append_to w b = (w ++ b, true)

module _ (sha256 : Bytes → Bytes) where
  -- The chunks are numbered from `i` on and each carries the checksum of its content.
  abbrev pub IsIntact : ℕ → List Chunk → Type 0
  IsIntact i [] = Unit
  IsIntact i (c ∷ cs) = (c.index ≡ pos i) × (c.hash ≡ sha256 c.content) × IsIntact (i + 1) cs

  abbrev pub contents : List Chunk → Bytes
  contents [] = []
  contents (c ∷ cs) = c.content ++ contents cs

  -- What is wrong with a chunk at a position, if anything.
  abbrev pub fault : ℕ → Chunk → Option ReassembleError
  fault i c =
      if not (eqb_ℤ c.index (pos i))
      then some invalid_chunk_sequence
      else if bytes_eq (sha256 c.content) c.hash
      then none
      else some corrupted_chunk

  reassemble_from_sound :
      {W : Type 0} (write : W → Bytes → W × Bool) (i : ℕ) (cs : List Chunk) (w : W)
      → (reassemble_from sha256 write i cs w).1 ≡ none
      → IsIntact i cs
  unfolding reassemble_from
  reassemble_from_sound write i [] w h = tt
  reassemble_from_sound write i (c ∷ cs) w h = ground (
    arith,
    bytes_eq_iff (sha256 c.content) c.hash,
    reassemble_from_sound write (i + 1) cs (write w c.content).0,
  )

  reassemble_from_intact :
      (i : ℕ) (good bad : List Chunk) (w : Bytes)
      → IsIntact i good
      → reassemble_from sha256 append_to i (good ++ bad) w
        ≡ reassemble_from sha256 append_to (i + length good) bad (w ++ contents good)
  unfolding reassemble_from
  reassemble_from_intact i [] bad w h =
      rw (append-nil w) (let e : i ≡ i + 0 = omega arith in rw (← e))
  reassemble_from_intact i (c ∷ cs) bad w h = ground (
    arith,
    bytes_eq_refl (sha256 c.content),
    reassemble_from_intact (i + 1) cs bad (w ++ c.content) h.2,
    append_assoc w c.content (contents cs),
  )

  -- Writing into memory, `Reassemble` stops at the first chunk that is out of order or damaged, names the fault, and
  -- has written exactly the chunks before it; with no such chunk it writes them all.
  pub reassemble_first_fault :
      (good later : List Chunk) (c : Chunk) (w : Bytes)
      → IsIntact 0 good
      → ((e : ReassembleError)
          → fault (length good) c ≡ some e
          → reassemble sha256 append_to (good ++ c ∷ later) w ≡ (w ++ contents good, some e))
        × (reassemble sha256 append_to good w ≡ (w ++ contents good, none))
  unfolding reassemble
  reassemble_first_fault good later c w h =
      (λ e f. reassemble_from_intact 0 good (c ∷ later) w h ∙ stop e f, whole)
    where
      stop :
          (e : ReassembleError)
          → fault (length good) c ≡ some e
          → reassemble_from sha256 append_to (0 + length good) (c ∷ later) (w ++ contents good)
            ≡ (w ++ contents good, some e)
      stop e f = let z : 0 + length good ≡ length good = omega arith in rw z (ground arith)

      whole : reassemble_from sha256 append_to 0 good w ≡ (w ++ contents good, none)
      whole =
          ap (λ x. reassemble_from sha256 append_to 0 x w) (sym (append-nil good))
          ∙ reassemble_from_intact 0 good [] w h

  -- Whatever the writer does, an error-free run means that the chunks were intact.
  reassemble_sound :
      {W : Type 0} (write : W → Bytes → W × Bool) (cs : List Chunk) (w : W)
      → (reassemble sha256 write cs w).1 ≡ none
      → IsIntact 0 cs
  unfolding reassemble
  reassemble_sound write cs w h = reassemble_from_sound write 0 cs w h

  IsChunking-contents :
      (size i : ℕ) (text : Bytes) (cs : List Chunk)
      → IsChunking sha256 size i text cs
      → IsIntact i cs × (contents cs ≡ text)
  IsChunking-contents size i text [] h = (tt, sym h)
  IsChunking-contents size i text (c ∷ cs) (n, d, k, _, h) =
      let (intact, e) = IsChunking-contents size (i + 1) (drop size text) cs h in
      ((n, k, intact), rw (d, e) (take-append-drop size text))

  -- A stream that does not break off, split at any chunk size and put together again in memory, is
  -- the stream.
  pub reassemble-split :
      (r : Reader) (chunk_size : ℤ)
      → r.fails ≡ false
      → (cs : List Chunk) × (split sha256 r chunk_size ≡ some (ok cs))
        × (reassemble sha256 append_to cs [] ≡ (r.remaining, none))
  reassemble-split r chunk_size h =
      let (cs, e, k) = (split-IsChunking sha256 r chunk_size).0 h in
      let (intact, whole) = IsChunking-contents (effective_size chunk_size) 0 r.remaining cs k in
      let c : Chunk = record { index = pos 0; content = []; hash = [] } in
      (cs, e, (reassemble_first_fault cs [] c [] intact).1 ∙ ap (λ t. (t, none)) whole)
