-- ===== src/Dht/Prefix.antt =====
-- `PrefixLen` (internal/dht/dht.go) against a reference: the identifiers written out in binary.
use Prim.Native.Nat.{bit_and, bit_xor}
use aldea.Prelude.{
  ==_iff, ap, sym, ◌∙◌, ℕ, zero, suc, ◌+◌, ◌-◌, ◌*◌, ◌^◌, ◌≤◌, ◌<◌, ◌≡◌, refl, ◌⊎◌, inl, inr, true,
  false, ◌≢◌, Option, none, some, List, [], ◌∷◌, ◌++◌, arith, ◌==◌, ==_iff, if◌then◌else◌, length,
  All, Bool-cases, Option-cases,
}
use aldea.Dht.{NodeId, IsNodeId, id_bytes, xor, scan_bits, scan_bytes, prefix_len, id_eq}
use aldea.Dht.Bits.{
  bit, all_below, all_below_sound, bit_xor_comm, eq_of_bit_xor, bit_xor-lt, bit-bit_xor,
  bit_and_mask,
}

-- The digits of a byte from digit `k - 1` down, and of an identifier, highest first.
abbrev pub byte_bits : ℕ → ℕ → List ℕ
byte_bits zero x = []
byte_bits (suc k) x = bit x k ∷ byte_bits k x

abbrev pub id_bits : NodeId → List ℕ
id_bits [] = []
id_bits (x ∷ xs) = byte_bits 8 x ++ id_bits xs

-- How many digits two texts of digits share at the front.
abbrev pub common_prefix : List ℕ → List ℕ → ℕ
common_prefix [] ys = 0
common_prefix (x ∷ xs) [] = 0
common_prefix (x ∷ xs) (y ∷ ys) = if x == y then suc (common_prefix xs ys) else 0

abbrev from_scan : ℕ → Option ℕ → ℕ → ℕ
from_scan k none rest = k + rest
from_scan k (some n) rest = n + k - 8

scan_bits_bound : (k b n : ℕ) → k ≤ 8 → scan_bits k b ≡ some n → (8 ≤ n + k) × (n < 8)
unfolding scan_bits
scan_bits_bound zero b n h e = cc
scan_bits_bound (suc k) b n h e = ground (arith, scan_bits_bound k b n)

scan_bits-prefix :
    (k a b : ℕ) (as' bs' : List ℕ)
    → k ≤ 8
    → a < 256
    → b < 256
    → common_prefix (byte_bits k a ++ as') (byte_bits k b ++ bs')
      ≡ from_scan k (scan_bits k (bit_xor a b)) (common_prefix as' bs')
unfolding scan_bits
scan_bits-prefix zero a b as' bs' h ha hb = omega arith
scan_bits-prefix (suc k) a b as' bs' h ha hb =
    let mask = bit_and_mask k (bit_xor a b) h (bit_xor-lt a b ha hb) in
    let digit = bit-bit_xor k a b in
    let ih = scan_bits-prefix k a b as' bs' (omega arith) ha hb in
    elim (Bool-cases (bit_and (bit_xor a b) (2 ^ k) == 0)) [
      | inl same ↦
          let e : bit a k ≡ bit b k = ground (arith, mask, digit) in
          elim (Option-cases (scan_bits k (bit_xor a b))) [
            | inl o ↦ ground (arith, ih, e)
            | inr (n, o) ↦ ground (arith, ih, e, scan_bits_bound k (bit_xor a b) n)
          ]
      | inr other ↦ let e : bit a k ≢ bit b k = ground (arith, mask, digit) in ground (arith, e)
    ]

-- One round of the outer loop, with the byte's scan as a value.
scan_round :
    (i d rest r : ℕ) (o : Option ℕ)
    → (d ≡ 0 → o ≡ none)
    → rest ≡ (i + 1) * 8 + r
    → (if d == 0 then rest else elim o [ none ↦ rest | some n ↦ i * 8 + n ])
      ≡ i * 8 + from_scan 8 o r
scan_round i d rest r none z e = ground arith
scan_round i d rest r (some n) z e = elim (Bool-cases (d == 0)) [
  | inl h ↦ cc (z ((==_iff d 0).0 h))
  | inr h ↦ rw h (omega arith)
]

scan_bytes-prefix :
    (i : ℕ) (a b : NodeId)
    → length a ≡ length b
    → i + length a ≡ id_bytes
    → All (λ x. x < 256) a
    → All (λ x. x < 256) b
    → scan_bytes i (xor a b) ≡ i * 8 + common_prefix (id_bits a) (id_bits b)
unfolding scan_bytes xor
scan_bytes-prefix i [] [] e f ha hb = omega arith
scan_bytes-prefix i [] (y ∷ b) e f ha hb = absurd (omega arith)
scan_bytes-prefix i (x ∷ a) [] e f ha hb = absurd (omega arith)
scan_bytes-prefix i (x ∷ a) (y ∷ b) e f ha hb =
    scan_round i (bit_xor x y) (scan_bytes (i + 1) (xor a b))
      (common_prefix (id_bits a) (id_bits b)) (scan_bits 8 (bit_xor x y)) (λ z. ap (scan_bits 8) z)
      (scan_bytes-prefix (i + 1) a b (omega arith) (omega arith) ha.1 hb.1)
    ∙ ap (◌+◌ (i * 8))
        (sym (scan_bits-prefix 8 x y (id_bits a) (id_bits b) (omega arith) ha.0 hb.0))

-- `PrefixLen` is the number of leading binary digits that two valid identifiers share.
pub prefix_len-eq-common_prefix :
    (a b : NodeId)
    → IsNodeId a
    → IsNodeId b
    → prefix_len a b ≡ common_prefix (id_bits a) (id_bits b)
unfolding prefix_len
prefix_len-eq-common_prefix a b ha hb =
    omega (arith, scan_bytes-prefix 0 a b (omega arith) (omega arith) ha.1 hb.1)

pub xor_comm : (a b : NodeId) → xor a b ≡ xor b a
unfolding xor
xor_comm [] [] = refl
xor_comm [] (y ∷ b) = refl
xor_comm (x ∷ a) [] = refl
xor_comm (x ∷ a) (y ∷ b) = cc (bit_xor_comm x y, xor_comm a b)

pub prefix_len_comm : (a b : NodeId) → prefix_len a b ≡ prefix_len b a
unfolding prefix_len
prefix_len_comm a b = rw (xor_comm a b)

pub id_eq_iff : (a b : NodeId) → (id_eq a b ≡ true) × (a ≡ b) ⊎ (id_eq a b ≡ false) × (a ≢ b)
unfolding id_eq
id_eq_iff [] [] = inl (refl, refl)
id_eq_iff [] (y ∷ b) = inr (refl, λ e. cc)
id_eq_iff (x ∷ a) [] = inr (refl, λ e. cc)
id_eq_iff (x ∷ a) (y ∷ b) = elim (id_eq_iff a b) [
  | inl (t, e) ↦ ground arith
  | inr (t, e) ↦ inr (ground arith, λ p. e (ground arith))
]

scan_table : all_below 256 (λ b. elim (scan_bits 8 b) [ none ↦ b == 0 | some _ ↦ true ]) ≡ true
unfolding scan_bits
scan_table = refl

-- Only a zero byte has no digit set.
scan_bits_zero : (b : ℕ) → b < 256 → scan_bits 8 b ≡ none → b ≡ 0
scan_bits_zero b h e = ground (
  arith,
  all_below_sound 256 (λ b. elim (scan_bits 8 b) [ none ↦ b == 0 | some _ ↦ true ]) b scan_table h,
)

scan_bytes_lt :
    (i : ℕ) (a b : NodeId)
    → length a ≡ length b
    → i + length a ≡ id_bytes
    → All (λ x. x < 256) a
    → All (λ x. x < 256) b
    → (scan_bytes i (xor a b) < id_bytes * 8) ⊎ (a ≡ b)
unfolding scan_bytes xor
scan_bytes_lt i [] [] e f ha hb = inr refl
scan_bytes_lt i [] (y ∷ b) e f ha hb = absurd (omega arith)
scan_bytes_lt i (x ∷ a) [] e f ha hb = absurd (omega arith)
scan_bytes_lt i (x ∷ a) (y ∷ b) e f ha hb =
    let ih = scan_bytes_lt (i + 1) a b (omega arith) (omega arith) ha.1 hb.1 in
    let same = scan_bits_zero (bit_xor x y) (bit_xor-lt x y ha.0 hb.0) in
    elim (Option-cases (scan_bits 8 (bit_xor x y))) [
      | inl o ↦ ground (arith, ih, same o, eq_of_bit_xor x y (same o))
      | inr (n, o) ↦ ground (arith, ih, eq_of_bit_xor x y, scan_bits_bound 8 (bit_xor x y) n)
    ]

-- Two different identifiers share fewer than all 160 digits.
pub prefix_len-lt : (a b : NodeId) → IsNodeId a → IsNodeId b → a ≢ b → prefix_len a b < id_bytes * 8
unfolding prefix_len
prefix_len-lt a b ha hb ne = elim (scan_bytes_lt 0 a b (omega arith) (omega arith) ha.1 hb.1) [
  | inl h ↦ h
  | inr e ↦ absurd (ne e)
]
