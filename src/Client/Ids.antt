-- ===== src/Client/Ids.antt =====
-- The identifiers of shards that cmd/aldea/put.go makes: none is made twice in a file.
use mathlib.Core.List.{append_assoc}
use Prim.Native.String.{◌++◌ as str_append}
use aldea.Prelude.{
  ℕ, zero, suc, ◌+◌, ◌-◌, ◌*◌, ◌/◌, ◌%◌, ◌<◌, ◌≡◌, refl, ap, sym, ◌∙◌, inl, inr, String, List, [],
  ◌∷◌, ◌++◌, ◌==◌, ltb, arith, if◌then◌else◌, Bool-cases,
}
use aldea.Prelude.Int.{pos}
use aldea.Prelude.Text.{utf8, utf8-append, digit, digits_text, digits_fuel, decimal_text, joined}
use aldea.Client.{shard_id_of}

-- The number before a dash, and what follows the dash.
abbrev read_number : ℕ → List ℕ → ℕ × List ℕ
read_number acc [] = (acc, [])
read_number acc (x ∷ xs) = if x == 0x2d then (acc, xs) else read_number (acc * 10 + (x - 0x30)) xs

utf8-digit : (n : ℕ) (rest : List ℕ) → n < 10 → utf8 (digit n) ++ rest ≡ (0x30 + n) ∷ rest
unfolding utf8
utf8-digit zero rest h = refl
utf8-digit (suc zero) rest h = refl
utf8-digit (suc (suc zero)) rest h = refl
utf8-digit (suc (suc (suc zero))) rest h = refl
utf8-digit (suc (suc (suc (suc zero)))) rest h = refl
utf8-digit (suc (suc (suc (suc (suc zero))))) rest h = refl
utf8-digit (suc (suc (suc (suc (suc (suc zero)))))) rest h = refl
utf8-digit (suc (suc (suc (suc (suc (suc (suc zero))))))) rest h = refl
utf8-digit (suc (suc (suc (suc (suc (suc (suc (suc zero)))))))) rest h = refl
utf8-digit (suc (suc (suc (suc (suc (suc (suc (suc (suc zero))))))))) rest h = refl
utf8-digit (suc (suc (suc (suc (suc (suc (suc (suc (suc (suc n)))))))))) rest h =
    absurd (omega arith)

utf8-digits_text :
    (fuel n : ℕ) (rest : String) → utf8 (digits_text fuel n rest) ≡ digits_fuel fuel n (utf8 rest)
utf8-digits_text zero n rest = refl
utf8-digits_text (suc fuel) n rest = elim (Bool-cases (ltb n 10)) [
  | inl t ↦ ground (arith, t, utf8-append (digit n) rest, utf8-digit n (utf8 rest))
  | inr t ↦ ground (
    arith,
    t,
    utf8-digits_text fuel (n / 10) (str_append (digit (n % 10)) rest),
    utf8-append (digit (n % 10)) rest,
    utf8-digit (n % 10) (utf8 rest),
  )
]

digits_fuel-append :
    (fuel n : ℕ) (xs ys : List ℕ) → digits_fuel fuel n xs ++ ys ≡ digits_fuel fuel n (xs ++ ys)
digits_fuel-append zero n xs ys = refl
digits_fuel-append (suc fuel) n xs ys = elim (Bool-cases (ltb n 10)) [
  | inl t ↦ ground (arith, t)
  | inr t ↦ ground (arith, t, digits_fuel-append fuel (n / 10) ((0x30 + n % 10) ∷ xs) ys)
]

read_number-digits_fuel :
    (fuel n : ℕ) (rest : List ℕ)
    → n < fuel
    → read_number 0 (digits_fuel fuel n rest) ≡ read_number n rest
read_number-digits_fuel zero n rest h = absurd (omega arith)
read_number-digits_fuel (suc fuel) n rest h = elim (Bool-cases (ltb n 10)) [
  | inl t ↦ ground (arith, t)
  | inr t ↦
      ground
        (arith, t, read_number-digits_fuel fuel (n / 10) ((0x30 + n % 10) ∷ rest) (ground arith))
]

-- A decimal text is read back, up to a dash that follows it.
read_number-decimal_text :
    (n : ℕ) (rest : List ℕ)
    → read_number 0 (utf8 (decimal_text (pos n)) ++ rest) ≡ read_number n rest
unfolding decimal_text utf8
read_number-decimal_text n rest =
    ap (λ xs. read_number 0 (xs ++ rest)) (utf8-digits_text (suc n) n "")
    ∙ ap (read_number 0) (digits_fuel-append (suc n) n [] rest)
    ∙ read_number-digits_fuel (suc n) n rest (omega arith)

-- All but the first.
abbrev rest_of : List ℕ → List ℕ
rest_of [] = []
rest_of (x ∷ xs) = xs

-- Texts of numbers, each with a dash and more after it, that agree, agree part by part.
decimal_text-split :
    (n m : ℕ) (xs ys : List ℕ)
    → utf8 (decimal_text (pos n)) ++ 0x2d ∷ xs ≡ utf8 (decimal_text (pos m)) ++ 0x2d ∷ ys
    → (n ≡ m) × (xs ≡ ys)
decimal_text-split n m xs ys e =
    let both : read_number 0 (utf8 (decimal_text (pos n)) ++ 0x2d ∷ xs)
        ≡ read_number 0 (utf8 (decimal_text (pos m)) ++ 0x2d ∷ ys) =
      ap (read_number 0) e in
    let read : (n, xs) ≡ (m, ys) =
      sym (read_number-decimal_text n (0x2d ∷ xs))
      ∙ both
      ∙ read_number-decimal_text m (0x2d ∷ ys) in
    (ap (λ r. r.0) read, ap (λ r. r.1) read)

append_cancel : (xs ys zs : List ℕ) → xs ++ ys ≡ xs ++ zs → ys ≡ zs
append_cancel [] ys zs e = e
append_cancel (x ∷ xs) ys zs e = append_cancel xs ys zs (ground (arith, e))

-- The bytes of an identifier after the file's, with a dash after them.
abbrev numbers_of : ℕ → ℕ → List ℕ
numbers_of c i =
    0x2d
    ∷ 0x63
    ∷ (utf8 (decimal_text (pos c)) ++ 0x2d ∷ 0x73 ∷ (utf8 (decimal_text (pos i)) ++ 0x2d ∷ []))

utf8-shard_id_of :
    (file_id : String) (c i : ℕ)
    → utf8 (shard_id_of file_id (pos c) i) ++ 0x2d ∷ [] ≡ utf8 file_id ++ numbers_of c i
unfolding shard_id_of utf8
utf8-shard_id_of file_id c i =
    let c_text = decimal_text (pos c) in
    let i_text = decimal_text (pos i) in
    let after_i : List ℕ = utf8 i_text ++ [] in
    let after_c : List ℕ = utf8 c_text ++ 0x2d ∷ 0x73 ∷ after_i in
    rw
      (
        utf8-append file_id (joined ("-c" ∷ c_text ∷ "-s" ∷ i_text ∷ [])),
        utf8-append "-c" (joined (c_text ∷ "-s" ∷ i_text ∷ [])),
        utf8-append c_text (joined ("-s" ∷ i_text ∷ [])),
        utf8-append "-s" (joined (i_text ∷ [])),
        utf8-append i_text "",
      )
      (append_assoc (utf8 file_id) (0x2d ∷ 0x63 ∷ after_c) (0x2d ∷ [])
        ∙ ap (λ t. utf8 file_id ++ 0x2d ∷ 0x63 ∷ t)
            (append_assoc (utf8 c_text) (0x2d ∷ 0x73 ∷ after_i) (0x2d ∷ []))
        ∙ ap (λ t. utf8 file_id ++ 0x2d ∷ 0x63 ∷ (utf8 c_text ++ 0x2d ∷ 0x73 ∷ t))
            (append_assoc (utf8 i_text) [] (0x2d ∷ [])))

-- Shards of one file that have the same identifier are the same shard of the same chunk.
pub shard_id_of_injective :
    (file_id : String) (c d i j : ℕ)
    → shard_id_of file_id (pos c) i ≡ shard_id_of file_id (pos d) j
    → (c ≡ d) × (i ≡ j)
shard_id_of_injective file_id c d i j e =
    let bytes =
      sym (utf8-shard_id_of file_id c i)
      ∙ ap (λ t. utf8 t ++ 0x2d ∷ []) e
      ∙ utf8-shard_id_of file_id d j in
    let tails : numbers_of c i ≡ numbers_of d j =
      append_cancel (utf8 file_id) (numbers_of c i) (numbers_of d j) bytes in
    let (same_chunk, rest) =
      decimal_text-split c d (0x73 ∷ (utf8 (decimal_text (pos i)) ++ 0x2d ∷ []))
        (0x73 ∷ (utf8 (decimal_text (pos j)) ++ 0x2d ∷ [])) (ap rest_of (ap rest_of tails)) in
    (same_chunk, (decimal_text-split i j [] [] (ap rest_of rest)).0)
