-- ===== src/Chunker/Tests.antt =====
-- Runs and instances of the theorems on internal/chunker/chunker.go, with the content as checksum.
use aldea.Prelude.{◌≡◌, refl, true, false, none, some, List, [], ◌∷◌, ◌++◌, ok, err}
use aldea.Prelude.Int.{pos}
use aldea.Prelude.Text.{bytes_eq}
use aldea.Chunker.{
  Bytes, Chunk, Reader, ReassembleError, read_failed, corrupted_chunk, effective_size, split,
  split_loop, read_full, reassemble, reassemble_from,
}
use aldea.Chunker.Split.{IsChunking, split-IsChunking}
use aldea.Chunker.Reassemble.{append_to, fault, reassemble_first_fault, reassemble-split}

abbrev checksum : Bytes → Bytes
checksum b = b

abbrev reader : Reader
reader = record { remaining = 1 ∷ 2 ∷ 3 ∷ 4 ∷ 5 ∷ []; fails = false }

abbrev good : Chunk
good = record { index = pos 0; content = 1 ∷ 2 ∷ []; hash = 1 ∷ 2 ∷ [] }

abbrev damaged : Chunk
damaged = record { index = pos 1; content = 3 ∷ 9 ∷ []; hash = 3 ∷ 4 ∷ [] }

split_run :
    split checksum reader (pos 2)
    ≡ some (
        ok (
          good
          ∷ record { index = pos 1; content = 3 ∷ 4 ∷ []; hash = 3 ∷ 4 ∷ [] }
          ∷ record { index = pos 2; content = 5 ∷ []; hash = 5 ∷ [] }
          ∷ []))
unfolding split split_loop read_full effective_size
split_run = refl

split-IsChunking_example :
    (reader.fails ≡ false
      → (cs : List Chunk) × (split checksum reader (pos 2) ≡ some (ok cs))
        × IsChunking checksum (effective_size (pos 2)) 0 reader.remaining cs)
    × (reader.fails ≡ true → split checksum reader (pos 2) ≡ some (err read_failed))
split-IsChunking_example = split-IsChunking checksum reader (pos 2)

reassemble-split_example :
    (cs : List Chunk) × (split checksum reader (pos 2) ≡ some (ok cs))
    × (reassemble checksum append_to cs [] ≡ (reader.remaining, none))
reassemble-split_example = reassemble-split checksum reader (pos 2) refl

reassemble_first_fault_example :
    ((e : ReassembleError)
      → fault checksum 1 damaged ≡ some e
      → reassemble checksum append_to ((good ∷ []) ++ damaged ∷ []) [] ≡ (1 ∷ 2 ∷ [], some e))
    × (reassemble checksum append_to (good ∷ []) [] ≡ (1 ∷ 2 ∷ [], none))
reassemble_first_fault_example =
    reassemble_first_fault checksum (good ∷ []) [] damaged [] (refl, refl, tt)

damaged_run :
    reassemble checksum append_to (good ∷ damaged ∷ []) [] ≡ (1 ∷ 2 ∷ [], some corrupted_chunk)
unfolding reassemble reassemble_from bytes_eq
damaged_run = refl

accepted : (reassemble checksum append_to (good ∷ []) []).1 ≡ none
unfolding reassemble reassemble_from bytes_eq
accepted = refl
