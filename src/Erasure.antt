-- ===== src/Erasure.antt =====
-- internal/erasure/erasure.go: Reed-Solomon shards of a chunk. The coding library
-- (klauspost/reedsolomon) is the parameter `RsEncoder`; a shard that is missing is empty, as that
-- library has it.
pub mod RoundTrip
pub mod TooFew
mod Tests
use aldea.Prelude.{
  ℕ, ◌+◌, ◌≡◌, Bool, true, false, ◌&&◌, ◌||◌, Option, none, some, List, [], ◌∷◌, if◌then◌else◌, ltb,
  length, set, replicate, Result, ok, err, ◌>>=◌, or_fail,
}
use aldea.Prelude.Int.{ℤ, pos, negsuc, pos_part, ltb_ℤ, leb_ℤ}

abbrev pub Bytes : Type 0
Bytes = List ℕ

abbrev pub default_data_shards : ℕ
default_data_shards = 4

abbrev pub default_parity_shards : ℕ
default_parity_shards = 4

pub record Shard : Type 0 where
  pub index : ℤ
  pub content : Bytes

pub data ErasureError : Type 0 where
  invalid_shard_count too_few_shards reconstruction_failed : ErasureError
  rs_new_failed split_failed encode_failed join_failed : ErasureError

-- `reedsolomon.Encoder`; `none` where a call returns an error.
pub record RsEncoder : Type 0 where
  pub split : Bytes → Option (List Bytes)
  pub encode : List Bytes → Option (List Bytes)
  pub reconstruct : List Bytes → Option (List Bytes)
  pub join : List Bytes → ℤ → Option Bytes

pub record Encoder : Type 0 where
  pub data_shards : ℕ
  pub parity_shards : ℕ
  pub rs : RsEncoder

-- `reedsolomon.New` is the first argument.
unfoldable pub new_encoder : (ℕ → ℕ → Option RsEncoder) → ℤ → ℤ → Result ErasureError Encoder
new_encoder rs_new data_shards parity_shards =
    if leb_ℤ data_shards (pos 0) || leb_ℤ parity_shards (pos 0) then err invalid_shard_count else do
      let k = pos_part data_shards
      let m = pos_part parity_shards
      rs ← or_fail (rs_new k m) rs_new_failed
      ok (record { data_shards = k; parity_shards = m; rs = rs })

abbrev pub total_shards : Encoder → ℕ
total_shards e = e.data_shards + e.parity_shards

-- `shards[i] = Shard{Index: i, Data: s}`, from `i` on.
unfoldable pub index_shards : ℕ → List Bytes → List Shard
index_shards i [] = []
index_shards i (s ∷ rest) = record { index = pos i; content = s } ∷ index_shards (i + 1) rest

unfoldable pub encode : Encoder → Bytes → Result ErasureError (List Shard)
unfolding index_shards
encode e [] = ok (index_shards 0 (replicate (total_shards e) []))
encode e (b ∷ rest) = do
  raw ← or_fail (e.rs.split (b ∷ rest)) split_failed
  shards ← or_fail (e.rs.encode raw) encode_failed
  ok (index_shards 0 shards)

-- The test `s.Index >= 0 && s.Index < totalShards && len(s.Data) > 0`.
abbrev pub is_valid : ℕ → Shard → Bool
is_valid total s = leb_ℤ (pos 0) s.index && ltb_ℤ s.index (pos total) && ltb 0 (length s.content)

-- The loop that files the valid shards under their index and counts them.
unfoldable pub place : ℕ → List Shard → List Bytes → ℕ → List Bytes × ℕ
place total [] raw valid_count = (raw, valid_count)
place total (s ∷ rest) raw valid_count =
    let test = is_valid total s in
    place total rest (if test then set raw (pos_part s.index) s.content else raw)
      (if test then valid_count + 1 else valid_count)

-- What follows the guards of `Reconstruct`.
unfoldable pub rebuild : Encoder → List Bytes × ℕ → ℤ → Result ErasureError Bytes
rebuild e (raw, valid_count) original_size =
    if ltb valid_count e.data_shards then err too_few_shards else do
      shards ← or_fail (e.rs.reconstruct raw) reconstruction_failed
      or_fail (e.rs.join shards original_size) join_failed

abbrev pub is_zero : ℤ → Bool
is_zero z = leb_ℤ z (pos 0) && leb_ℤ (pos 0) z

unfoldable pub reconstruct : Encoder → List Shard → ℤ → Result ErasureError Bytes
unfolding place rebuild
reconstruct e shards original_size =
    let total = total_shards e in
    if is_zero original_size
    then ok []
    else if ltb (length shards) total
    then err too_few_shards
    else rebuild e (place total shards (replicate total []) 0) original_size
