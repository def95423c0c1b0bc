-- ===== src/Erasure/TooFew.antt =====
-- What `Reconstruct` (internal/erasure/erasure.go) refuses.
use aldea.Prelude.{
  ℕ, ◌+◌, ◌<◌, ◌≡◌, refl, Bool, true, false, List, [], ◌∷◌, arith, if◌then◌else◌, length, replicate,
  set, err, keep, ◌⊎◌, ◌∙◌, inl, inr,
}
use aldea.Prelude.Int.{ℤ, pos_part}
use aldea.Erasure.{
  Bytes, Shard, Encoder, total_shards, too_few_shards, is_valid, is_zero, place, reconstruct,
}

place-count :
    (total : ℕ) (shards : List Shard) (raw : List Bytes) (c : ℕ)
    → (place total shards raw c).1 ≡ c + length (keep (is_valid total) shards)
unfolding place
place-count total [] raw c = omega arith
place-count total (s ∷ shards) raw c =
    place-count total shards (if test then set raw (pos_part s.index) s.content else raw)
      (if test then c + 1 else c)
    ∙ counted test
  where
    test : Bool
    test = is_valid total s

    counted :
        (t : Bool)
        → (if t then c + 1 else c) + length (keep (is_valid total) shards)
          ≡ c
            + length (if t then s ∷ keep (is_valid total) shards else keep (is_valid total) shards)
    counted true = omega arith
    counted false = refl

-- `Reconstruct` of a chunk that is not empty refuses a shorter list than all shards, and a list
-- with fewer than `data_shards` shards that are in range and not empty.
pub reconstruct_too_few :
    (e : Encoder) (shards : List Shard) (size : ℤ)
    → is_zero size ≡ false
    → (length shards < total_shards e)
      ⊎ (length (keep (is_valid (total_shards e)) shards) < e.data_shards)
    → reconstruct e shards size ≡ err too_few_shards
unfolding reconstruct
reconstruct_too_few e shards size z (inl h) = ground arith
reconstruct_too_few e shards size z (inr h) =
    ground (arith, place-count (total_shards e) shards (replicate (total_shards e) []) 0)
