-- ===== src/Backend.antt =====
-- What the tracker and the storage node rely on in third-party code: a bbolt bucket and the JSON
-- codec. Both are parameters; the laws are their documented behaviour.
use aldea.Prelude.{ℕ, List, ◌∷◌, ◌++◌, ◌≡◌, Bool, String, Option, some, if◌then◌else◌}
use aldea.Prelude.Dict.{Dict, IsDict, lookup}
use aldea.Prelude.Text.{str_eq}

-- A bucket `B` of raw values `R`. `put` gives `none` where bbolt refuses the pair (an empty or
-- too long key, a full disk); the transaction is then rolled back.
pub record Bucket (B R : Type 0) : Type 0 where
  pub get : B → String → Option R
  pub put : B → String → R → Option B
  -- The pairs in the order of `ForEach`.
  pub entries : B → Dict R
  pub get-put :
      (b b' : B) (k j : String) (r : R)
      → put b k r ≡ some b'
      → get b' j ≡ (if str_eq j k then some r else get b j)
  pub lookup-entries : (b : B) (k : String) → lookup k (entries b) ≡ get b k
  pub entries-IsDict : (b : B) → IsDict (entries b)

-- `json.Marshal` and `json.Unmarshal` at one type.
pub record Codec (A R : Type 0) : Type 0 where
  pub marshal : A → Option R
  pub unmarshal : R → Option A
  pub unmarshal-marshal : (a : A) (r : R) → marshal a ≡ some r → unmarshal r ≡ some a

-- `json.Encoder.Encode` and `json.Decoder.Decode` at one type. `Encode` writes the value and a new line; `Decode` reads
-- the first value of a stream, which is its bytes and whether the reading fails after them.
pub record JsonStream (A : Type 0) : Type 0 where
  pub marshal : A → Option (List ℕ)
  pub decode : List ℕ → Bool → Option A
  pub decode-marshal :
      (a : A) (raw rest : List ℕ) (fails : Bool)
      → marshal a ≡ some raw
      → decode (raw ++ (10 ∷ rest)) fails ≡ some a

-- `base64.URLEncoding`.
pub record Base64 : Type 0 where
  pub encode : List ℕ → List ℕ
  pub decode : List ℕ → Option (List ℕ)
  pub decode-encode : (b : List ℕ) → decode (encode b) ≡ some b
