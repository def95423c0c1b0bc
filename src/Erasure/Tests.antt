-- ===== src/Erasure/Tests.antt =====
-- Runs and instances of the theorems on internal/erasure/erasure.go: a code that keeps three copies.
use aldea.Prelude.{
  ◌≤◌, ◌<◌, ◌≡◌, refl, ◌⊎◌, keep, ap, inr, Bool, true, false, Option, none, some, List, [], ◌∷◌,
  arith, length, ok, err,
}
use aldea.Prelude.Int.{pos}
use aldea.Erasure.{
  Bytes, Shard, RsEncoder, Encoder, encode, reconstruct, place, rebuild, index_shards,
  too_few_shards, is_valid, new_encoder, total_shards,
}
use aldea.Erasure.RoundTrip.{IsReedSolomon, reconstruct-encode, survivors, survivors_of, count_true}
use aldea.Erasure.TooFew.{reconstruct_too_few}

abbrev thrice : Bytes → List Bytes
thrice b = b ∷ b ∷ b ∷ []

abbrev first_filled : List Bytes → Bytes
first_filled [] = []
first_filled ([] ∷ rest) = first_filled rest
first_filled ((x ∷ b) ∷ rest) = x ∷ b

abbrev first : List Bytes → Option Bytes
first [] = none
first (b ∷ rest) = some b

abbrev copies : RsEncoder
copies = record {
  split = λ b. some (b ∷ []);
  encode = λ raw. some (thrice (first_filled raw));
  reconstruct = λ shards. some (thrice (first_filled shards));
  join = λ shards size. first shards;
}

first_filled-survivors :
    (flags : List Bool) (text : Bytes)
    → length flags ≡ 3
    → 1 ≤ count_true flags
    → first_filled (survivors flags (thrice text)) ≡ text
first_filled-survivors (true ∷ true ∷ true ∷ []) [] n k = refl
first_filled-survivors (true ∷ true ∷ true ∷ []) (x ∷ text) n k = refl
first_filled-survivors (true ∷ true ∷ false ∷ []) [] n k = refl
first_filled-survivors (true ∷ true ∷ false ∷ []) (x ∷ text) n k = refl
first_filled-survivors (true ∷ false ∷ true ∷ []) [] n k = refl
first_filled-survivors (true ∷ false ∷ true ∷ []) (x ∷ text) n k = refl
first_filled-survivors (true ∷ false ∷ false ∷ []) [] n k = refl
first_filled-survivors (true ∷ false ∷ false ∷ []) (x ∷ text) n k = refl
first_filled-survivors (false ∷ true ∷ true ∷ []) [] n k = refl
first_filled-survivors (false ∷ true ∷ true ∷ []) (x ∷ text) n k = refl
first_filled-survivors (false ∷ true ∷ false ∷ []) [] n k = refl
first_filled-survivors (false ∷ true ∷ false ∷ []) (x ∷ text) n k = refl
first_filled-survivors (false ∷ false ∷ true ∷ []) [] n k = refl
first_filled-survivors (false ∷ false ∷ true ∷ []) (x ∷ text) n k = refl
first_filled-survivors (false ∷ false ∷ false ∷ []) text n k = absurd (omega arith)
first_filled-survivors [] text n k = absurd (omega arith)
first_filled-survivors (a ∷ []) text n k = absurd (omega arith)
first_filled-survivors (a ∷ b ∷ []) text n k = absurd (omega arith)
first_filled-survivors (a ∷ b ∷ c ∷ d ∷ flags) text n k = absurd (omega arith)

first_filled_one : (text : Bytes) → first_filled (text ∷ []) ≡ text
first_filled_one [] = refl
first_filled_one (x ∷ text) = refl

copies-IsReedSolomon : IsReedSolomon 1 2 copies
copies-IsReedSolomon = record {
  raw = λ text. text ∷ [];
  shards = thrice;
  splits = λ b text. refl;
  encodes = λ b text. ap (λ t. some (thrice t)) (first_filled_one (b ∷ text));
  counted = λ b text. refl;
  filled = λ b text. ground arith;
  restores =
      λ flags b text n k. ap (λ t. some (thrice t)) (first_filled-survivors flags (b ∷ text) n k);
  joins = λ b text. refl;
}

abbrev encoder : Encoder
encoder = record { data_shards = 1; parity_shards = 2; rs = copies }

new_encoder_run : new_encoder (λ k m. some copies) (pos 1) (pos 2) ≡ ok encoder
unfolding new_encoder
new_encoder_run = refl

abbrev text : Bytes
text = 7 ∷ 8 ∷ 9 ∷ []

reconstruct-encode_example :
    (shards : List Shard) × (encode encoder text ≡ ok shards)
    × ((flags : List Bool)
        → length flags ≡ total_shards encoder
        → encoder.data_shards ≤ count_true flags
        → reconstruct encoder (survivors_of flags shards) (pos (length text)) ≡ ok text)
reconstruct-encode_example = reconstruct-encode encoder copies-IsReedSolomon text

reconstruct_run :
    reconstruct encoder
      (survivors_of (false ∷ true ∷ false ∷ []) (index_shards 0 (thrice text)))
      (pos 3)
    ≡ ok text
unfolding reconstruct index_shards place rebuild
reconstruct_run = refl

no_valid :
    (length (index_shards 0 ([] ∷ [] ∷ [] ∷ [])) < total_shards encoder)
    ⊎ (length (keep (is_valid (total_shards encoder)) (index_shards 0 ([] ∷ [] ∷ [] ∷ [])))
        < encoder.data_shards)
unfolding index_shards
no_valid = inr (omega arith)

reconstruct_too_few_example :
    reconstruct encoder (index_shards 0 ([] ∷ [] ∷ [] ∷ [])) (pos 3) ≡ err too_few_shards
reconstruct_too_few_example =
    reconstruct_too_few encoder (index_shards 0 ([] ∷ [] ∷ [] ∷ [])) (pos 3) refl no_valid
