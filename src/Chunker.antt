-- ===== src/Chunker.antt =====
-- internal/chunker/chunker.go: a stream cut into indexed chunks with checksums, and put together
-- again. A byte is a number; `sha256` is a parameter. A reader is what it has left to give and
-- whether it then fails with an I/O error; a writer is a parameter of `reassemble`. The loop of
-- `Split` runs on fuel, `none` when that is spent; one round for each byte and one more suffice.
pub mod Split
pub mod Reassemble
mod Tests
use aldea.Prelude.{
  ℕ, zero, suc, ◌+◌, ◌*◌, ◌≡◌, Bool, true, false, not, ◌&&◌, Option, none, some, List, [], ◌∷◌,
  ◌++◌, if◌then◌else◌, ltb, leb, ◌==◌, length, take, drop, Result, ok, err,
}
use aldea.Prelude.Text.{bytes_eq}
use aldea.Prelude.Int.{ℤ, pos, ltb_ℤ, leb_ℤ, eqb_ℤ}

abbrev pub Bytes : Type 0
Bytes = List ℕ

abbrev pub default_chunk_size : ℕ
default_chunk_size = 1024 * 1024

pub record Chunk : Type 0 where
  pub index : ℤ
  pub content : Bytes
  pub hash : Bytes

pub data SplitError : Type 0 where
  read_failed : SplitError

pub data ReassembleError : Type 0 where
  invalid_chunk_sequence corrupted_chunk write_failed : ReassembleError

pub record Reader : Type 0 where
  pub remaining : Bytes
  pub fails : Bool

-- How a read ended: with the buffer full, at the end of the stream (`io.EOF` or
-- `io.ErrUnexpectedEOF`), or with another error.
pub data ReadEnd : Type 0 where
  full eof failed : ReadEnd

-- `io.ReadFull(r, buf)` for a buffer of `size` bytes: the bytes read, the reader, and the end.
unfoldable pub read_full : ℕ → Reader → Bytes × Reader × ReadEnd
read_full size r = (
  take size r.remaining,
  record r { remaining = drop size r.remaining },
  if leb size (length r.remaining) then full else if r.fails then failed else eof,
)

-- `chunkSize <= 0` asks for the default.
unfoldable pub effective_size : ℤ → ℕ
effective_size (pos n) = if n == 0 then default_chunk_size else n
effective_size _ = default_chunk_size

module _ (sha256 : Bytes → Bytes) where
  -- The chunks of the rounds to come, from index `index` on.
  unfoldable pub split_loop : ℕ → ℕ → ℕ → Reader → Option (Result SplitError (List Chunk))
  unfolding read_full
  split_loop zero size index r = none
  split_loop (suc fuel) size index r =
      let (read, r', end) = read_full size r in
      let here : List Chunk =
        if ltb 0 (length read)
        then record { index = pos index; content = read; hash = sha256 read } ∷ []
        else [] in
      let next_index : ℕ = if ltb 0 (length read) then index + 1 else index in
      elim end [
        | eof ↦ some (ok here)
        | failed ↦ some (err read_failed)
        | full ↦ elim (split_loop fuel size next_index r') [
          | none ↦ none
          | some (err e) ↦ some (err e)
          | some (ok later) ↦ some (ok (here ++ later))
        ]
      ]

  unfoldable pub split : Reader → ℤ → Option (Result SplitError (List Chunk))
  unfolding split_loop effective_size
  split r chunk_size = split_loop (length r.remaining + 1) (effective_size chunk_size) 0 r

  -- A write gives the writer after it, and whether it succeeded.
  module _ {W : Type 0} (write : W → Bytes → W × Bool) where
    -- The loop of `Reassemble` from position `i` on.
    unfoldable pub reassemble_from : ℕ → List Chunk → W → W × Option ReassembleError
    reassemble_from i [] w = (w, none)
    reassemble_from i (c ∷ cs) w =
        let (w', written) = write w c.content in
        let rest = reassemble_from (i + 1) cs w' in
        if not (eqb_ℤ c.index (pos i))
        then (w, some invalid_chunk_sequence)
        else if not (bytes_eq (sha256 c.content) c.hash)
        then (w, some corrupted_chunk)
        else if written
        then rest
        else (w', some write_failed)

    unfoldable pub reassemble : List Chunk → W → W × Option ReassembleError
    unfolding reassemble_from
    reassemble chunks w = reassemble_from 0 chunks w
