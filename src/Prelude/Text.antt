-- ===== src/Prelude/Text.antt =====
-- Texts: node, shard, file and token identifiers are only ever compared whole.
use text.Mathlib.Text.{◌==◌}
use text.Mathlib.TextEquality.{eq_iff}
use text.Mathlib.TextLemmas.{nil-append, cons-append}
use Prim.Native.Char.{code}
use Prim.Native.String.{◌++◌ as str_append}
use mathlib.Core.List.{append_assoc}
use aldea.Prelude.Int.{ℤ, pos, negsuc}
use aldea.Prelude.{
  ℕ, zero, suc, ◌+◌, ◌/◌, ◌%◌, ◌&&◌, List, [], ◌∷◌, ◌++◌, ltb, ◌==◌ as nat_eq, if◌then◌else◌, ap,
  sym, ◌∙◌, String, ◌≡◌, refl, ◌≢◌, ◌⊎◌, inl, inr, Bool, true, false, arith, Bool-cases,
}

abbrev pub str_eq : String → String → Bool
str_eq s t = s == t

pub str_eq_iff : (s t : String) → (str_eq s t ≡ true) × (s ≡ t) ⊎ (str_eq s t ≡ false) × (s ≢ t)
str_eq_iff s t = elim (Bool-cases (str_eq s t)) [
  | inl e ↦ inl (e, (eq_iff s t).0 e)
  | inr e ↦ inr (e, λ p. cc ((eq_iff s t).1 p))
]

pub str_eq_refl : (s : String) → str_eq s s ≡ true
str_eq_refl s = (eq_iff s s).1 refl

pub str_eq_comm : (s t : String) → str_eq s t ≡ str_eq t s
str_eq_comm s t = ground (arith, eq_iff s t, eq_iff t s)

-- The UTF-8 bytes of a text, which is what `%s` and `[]byte(s)` give.
abbrev utf8_code : ℕ → List ℕ
utf8_code c =
    if ltb c 0x80
    then c ∷ []
    else if ltb c 0x800
    then (0xc0 + c / 64) ∷ (0x80 + c % 64) ∷ []
    else if ltb c 0x10000
    then (0xe0 + c / 4096) ∷ (0x80 + c / 64 % 64) ∷ (0x80 + c % 64) ∷ []
    else (0xf0 + c / 262144) ∷ (0x80 + c / 4096 % 64) ∷ (0x80 + c / 64 % 64) ∷ (0x80 + c % 64) ∷ []

unfoldable pub utf8 : String → List ℕ
utf8 String.[] = []
utf8 (String.◌∷◌ c s) = utf8_code (code c) ++ utf8 s

pub utf8-append : (s t : String) → utf8 (str_append s t) ≡ utf8 s ++ utf8 t
unfolding utf8
utf8-append String.[] t = rw (nil-append t)
utf8-append (String.◌∷◌ c s) t = rw (cons-append c s t) (
    ap (◌++◌ (utf8_code (code c))) (utf8-append s t)
    ∙ sym (append_assoc (utf8_code (code c)) (utf8 s) (utf8 t)))

-- The decimal digits of a number, by division on fuel; `n` rounds are enough for `n`.
abbrev pub digits_fuel : ℕ → ℕ → List ℕ → List ℕ
digits_fuel zero n rest = rest
digits_fuel (suc fuel) n rest = elim (ltb n 10) [
  | true ↦ (0x30 + n) ∷ rest
  | false ↦ digits_fuel fuel (n / 10) ((0x30 + n % 10) ∷ rest)
]

-- `%d` of an integer.
unfoldable pub decimal : ℤ → List ℕ
decimal (pos n) = digits_fuel (suc n) n []
decimal (negsuc n) = 0x2d ∷ digits_fuel (suc (suc n)) (suc n) []

-- The same, as a text.
abbrev pub digit : ℕ → String
digit n =
    if nat_eq n 0
    then "0"
    else if nat_eq n 1
    then "1"
    else if nat_eq n 2
    then "2"
    else if nat_eq n 3
    then "3"
    else if nat_eq n 4
    then "4"
    else if nat_eq n 5
    then "5"
    else if nat_eq n 6
    then "6"
    else if nat_eq n 7
    then "7"
    else if nat_eq n 8
    then "8"
    else "9"

abbrev pub digits_text : ℕ → ℕ → String → String
digits_text zero n rest = rest
digits_text (suc fuel) n rest = elim (ltb n 10) [
  | true ↦ str_append (digit n) rest
  | false ↦ digits_text fuel (n / 10) (str_append (digit (n % 10)) rest)
]

unfoldable pub decimal_text : ℤ → String
decimal_text (pos n) = digits_text (suc n) n ""
decimal_text (negsuc n) = str_append "-" (digits_text (suc (suc n)) (suc n) "")

-- `+` on texts, from the left.
abbrev pub joined : List String → String
joined [] = ""
joined (s ∷ rest) = str_append s (joined rest)

-- `hex.EncodeToString`.
abbrev pub hex_digit : ℕ → String
hex_digit n =
    if ltb n 10
    then digit n
    else if nat_eq n 10
    then "a"
    else if nat_eq n 11
    then "b"
    else if nat_eq n 12
    then "c"
    else if nat_eq n 13
    then "d"
    else if nat_eq n 14
    then "e"
    else "f"

unfoldable pub hex_text : List ℕ → String
hex_text [] = ""
hex_text (b ∷ rest) =
    str_append (hex_digit (b / 16)) (str_append (hex_digit (b % 16)) (hex_text rest))

-- `==` on byte slices and arrays, and `hmac.Equal`.
unfoldable pub bytes_eq : List ℕ → List ℕ → Bool
bytes_eq [] [] = true
bytes_eq [] (b ∷ ys) = false
bytes_eq (a ∷ xs) [] = false
bytes_eq (a ∷ xs) (b ∷ ys) = nat_eq a b && bytes_eq xs ys

pub bytes_eq_iff :
    (a b : List ℕ) → (bytes_eq a b ≡ true) × (a ≡ b) ⊎ (bytes_eq a b ≡ false) × (a ≢ b)
unfolding bytes_eq
bytes_eq_iff [] [] = inl (refl, refl)
bytes_eq_iff [] (y ∷ b) = inr (refl, λ e. cc)
bytes_eq_iff (x ∷ a) [] = inr (refl, λ e. cc)
bytes_eq_iff (x ∷ a) (y ∷ b) = elim (bytes_eq_iff a b) [
  | inl (t, e) ↦ ground arith
  | inr (t, e) ↦ inr (ground arith, λ p. e (ground arith))
]

pub bytes_eq_refl : (a : List ℕ) → bytes_eq a a ≡ true
bytes_eq_refl a = ground (arith, bytes_eq_iff a a)
