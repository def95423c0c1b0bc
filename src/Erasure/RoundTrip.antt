-- ===== src/Erasure/RoundTrip.antt =====
-- Encoding and reconstruction in internal/erasure/erasure.go: any `data_shards` of the shards
-- give the chunk back.
use mathlib.Core.List.{append_assoc}
use aldea.Prelude.{
  ℕ, suc, ◌+◌, ◌≤◌, ◌<◌, ◌≡◌, refl, ap, subst, ok_unique, Bool, true, false, some, List, [], ◌∷◌,
  ◌++◌, arith, if◌then◌else◌, ltb, length, length-append, set, replicate, ok, All,
}
use aldea.Prelude.Int.{pos}
use aldea.Erasure.{
  Bytes, Shard, RsEncoder, Encoder, total_shards, is_zero, index_shards, encode, place, rebuild,
  reconstruct,
}

-- The shards that survive, by a flag for each; one that is lost is empty.
abbrev pub survivors : List Bool → List Bytes → List Bytes
survivors [] shards = shards
survivors (f ∷ flags) [] = []
survivors (f ∷ flags) (s ∷ shards) = (if f then s else []) ∷ survivors flags shards

-- The same, for shards with their indices.
abbrev pub survivors_of : List Bool → List Shard → List Shard
survivors_of [] shards = shards
survivors_of (f ∷ flags) [] = []
survivors_of (f ∷ flags) (s ∷ shards) =
    (if f then s else record s { content = [] }) ∷ survivors_of flags shards

abbrev pub count_true : List Bool → ℕ
count_true [] = 0
count_true (true ∷ flags) = suc (count_true flags)
count_true (false ∷ flags) = count_true flags

-- What the documentation of `reedsolomon` says of an encoder for `k` data and `m` parity shards:
-- a text that is not empty is split and encoded into `k + m` shards, none of them empty; any `k` of
-- these restore them all, and joined at the text's length they are the text.
pub record IsReedSolomon (k m : ℕ) (rs : RsEncoder) : Type 0 where
  pub raw : Bytes → List Bytes
  pub shards : Bytes → List Bytes
  pub splits : (b : ℕ) (text : Bytes) → rs.split (b ∷ text) ≡ some (raw (b ∷ text))
  pub encodes : (b : ℕ) (text : Bytes) → rs.encode (raw (b ∷ text)) ≡ some (shards (b ∷ text))
  pub counted : (b : ℕ) (text : Bytes) → length (shards (b ∷ text)) ≡ k + m
  pub filled : (b : ℕ) (text : Bytes) → All (λ s. 0 < length s) (shards (b ∷ text))
  pub restores :
      (flags : List Bool) (b : ℕ) (text : Bytes)
      → length flags ≡ k + m
      → k ≤ count_true flags
      → rs.reconstruct (survivors flags (shards (b ∷ text))) ≡ some (shards (b ∷ text))
  pub joins :
      (b : ℕ) (text : Bytes)
      → rs.join (shards (b ∷ text)) (pos (length (b ∷ text))) ≡ some (b ∷ text)

set-middle :
    (done rest : List Bytes) (x v : Bytes)
    → set (done ++ x ∷ rest) (length done) v ≡ done ++ v ∷ rest
set-middle [] rest x v = refl
set-middle (d ∷ done) rest x v = ap (◌∷◌ d) (set-middle done rest x v)

place-survivors :
    (total : ℕ) (flags : List Bool) (shards done : List Bytes) (i c : ℕ)
    → length done ≡ i
    → i + length shards ≡ total
    → length flags ≡ length shards
    → All (λ s. 0 < length s) shards
    → place total
        (survivors_of flags (index_shards i shards))
        (done ++ replicate (length shards) [])
        c
      ≡ (done ++ survivors flags shards, c + count_true flags)
unfolding place index_shards
place-survivors total [] [] done i c p q r f = let e : c ≡ c + 0 = omega arith in rw (← e)
place-survivors total [] (s ∷ shards) done i c p q r f = absurd (omega arith)
place-survivors total (x ∷ flags) [] done i c p q r f = absurd (omega arith)
place-survivors total (true ∷ flags) (s ∷ shards) done i c p q r f =
    let ih =
      place-survivors total flags shards (done ++ s ∷ []) (i + 1) (c + 1)
        (omega (arith, length-append done (s ∷ []))) (omega arith) (omega arith) f.1 in
    let gap = replicate {A = Bytes} (length shards) [] in
    ground (
      arith,
      ih,
      set-middle done gap [] s,
      append_assoc done (s ∷ []) gap,
      append_assoc done (s ∷ []) (survivors flags shards),
    )
place-survivors total (false ∷ flags) (s ∷ shards) done i c p q r f =
    let ih =
      place-survivors total flags shards (done ++ [] ∷ []) (i + 1) c
        (omega (arith, length-append done ([] ∷ []))) (omega arith) (omega arith) f.1 in
    ground (
      arith,
      ih,
      append_assoc done ([] ∷ []) (replicate {A = Bytes} (length shards) []),
      append_assoc done ([] ∷ []) (survivors flags shards),
    )

length-survivors_of :
    (flags : List Bool) (shards : List Bytes) (i : ℕ)
    → length flags ≡ length shards
    → length (survivors_of flags (index_shards i shards)) ≡ length shards
unfolding index_shards
length-survivors_of [] [] i e = refl
length-survivors_of [] (s ∷ shards) i e = absurd (omega arith)
length-survivors_of (f ∷ flags) [] i e = refl
length-survivors_of (f ∷ flags) (s ∷ shards) i e =
    omega (arith, length-survivors_of flags shards (i + 1) (omega arith))

module _ (e : Encoder) (law : IsReedSolomon e.data_shards e.parity_shards e.rs) where
  -- With a coding library that does what it documents, `Encode` succeeds on every chunk, and from any survivors that are at least `data_shards` in
  -- number `Reconstruct` gives the chunk back.
  pub reconstruct-encode :
      (text : Bytes)
      → (shards : List Shard) × (encode e text ≡ ok shards)
        × ((flags : List Bool)
            → length flags ≡ total_shards e
            → e.data_shards ≤ count_true flags
            → reconstruct e (survivors_of flags shards) (pos (length text)) ≡ ok text)
  unfolding encode reconstruct
  reconstruct-encode [] = (_, refl, λ flags p q. refl)
  reconstruct-encode (b ∷ rest) =
      (index_shards 0 shards, rw (law.splits b rest, law.encodes b rest), back)
    where
      text : Bytes
      text = b ∷ rest

      shards : List Bytes
      shards = law.shards text

      back :
          (flags : List Bool)
          → length flags ≡ total_shards e
          → e.data_shards ≤ count_true flags
          → reconstruct e (survivors_of flags (index_shards 0 shards)) (pos (length text)) ≡ ok text
      back flags p q =
          let n = law.counted b rest in
          let total = total_shards e in
          let got = survivors_of flags (index_shards 0 shards) in
          let placed =
            place-survivors total flags shards [] 0 0 refl (omega (arith, n)) (omega (arith, n))
              (law.filled b rest) in
          let filed : place total got (replicate {A = Bytes} total []) 0
              ≡ (survivors flags shards, 0 + count_true flags) =
            subst
              (λ k.
                place total got (replicate {A = Bytes} k []) 0
                ≡ (survivors flags shards, 0 + count_true flags))
              n placed in
          let enough : ltb (length got) total ≡ false =
            ground (arith, length-survivors_of flags shards 0, n) in
          let rebuilt : rebuild e (survivors flags shards, 0 + count_true flags) (pos (length text))
              ≡ ok text =
            unfold rebuild in ground (arith, law.restores flags b rest p q, law.joins b rest) in
          let nonzero : is_zero (pos (length text)) ≡ false = ground arith in
          rw (nonzero, enough, filed) rebuilt

  -- The same, with the shards that the coding library gives.
  pub encode_filled :
      (b : ℕ) (rest : Bytes) → encode e (b ∷ rest) ≡ ok (index_shards 0 (law.shards (b ∷ rest)))
  unfolding encode
  encode_filled b rest = rw (law.splits b rest, law.encodes b rest) refl

  pub reconstruct_filled :
      (flags : List Bool) (b : ℕ) (rest : Bytes)
      → length flags ≡ total_shards e
      → e.data_shards ≤ count_true flags
      → reconstruct e
          (survivors_of flags (index_shards 0 (law.shards (b ∷ rest))))
          (pos (length (b ∷ rest)))
        ≡ ok (b ∷ rest)
  reconstruct_filled flags b rest n enough =
      let (shards, encoded, back) = reconstruct-encode (b ∷ rest) in
      let same : shards ≡ index_shards 0 (law.shards (b ∷ rest)) =
        ok_unique (encode e (b ∷ rest)) shards (index_shards 0 (law.shards (b ∷ rest))) encoded
          (encode_filled b rest) in
      subst (λ x. reconstruct e (survivors_of flags x) (pos (length (b ∷ rest))) ≡ ok (b ∷ rest))
        same (back flags n enough)
