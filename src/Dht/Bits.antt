-- ===== src/Dht/Bits.antt =====
-- Binary digits of the bytes that `xor` (internal/dht/dht.go) combines.
use Prim.Native.Nat.{bit_and, bit_xor, digits, differ, bit_xor-bitwise}
use native.Mathlib.Nat.{pow-zero, pow-succ', div-div-eq-div-mul}
use aldea.Prelude.{
  if◌then◌else◌, ℕ, zero, suc, ◌+◌, ◌*◌, ◌/◌, ◌%◌, ◌^◌, ◌≤◌, ◌<◌, ◌≡◌, refl, Bool, true, ◌&&◌,
  arith, ◌==◌,
}

-- Over a small range, check every value by evaluation.
abbrev pub all_below : ℕ → (ℕ → Bool) → Bool
all_below zero p = true
all_below (suc n) p = p n && all_below n p

pub all_below_sound : (n : ℕ) (p : ℕ → Bool) (x : ℕ) → all_below n p ≡ true → x < n → p x ≡ true
all_below_sound zero p x h lt = absurd (omega arith)
all_below_sound (suc n) p x h lt = ground (arith, all_below_sound n p x)

differ_lem : (x y : ℕ) → x < 2 → y < 2 → differ x y ≡ (x + y) % 2
differ_lem zero zero h k = refl
differ_lem zero (suc y) h k = omega arith
differ_lem (suc zero) zero h k = refl
differ_lem (suc zero) (suc zero) h k = refl
differ_lem (suc zero) (suc (suc y)) h k = absurd (omega arith)
differ_lem (suc (suc x)) y h k = absurd (omega arith)

abbrev xor_digits : ℕ → ℕ → ℕ → ℕ
xor_digits n a b = digits (λ b. b) differ n a b

xor_digits_fuel : (n m a b : ℕ) → a ≤ n → a ≤ m → xor_digits n a b ≡ xor_digits m a b
xor_digits_fuel zero zero a b p q = refl
xor_digits_fuel zero (suc m) zero b p q = refl
xor_digits_fuel zero (suc m) (suc a) b p q = absurd (omega arith)
xor_digits_fuel (suc n) zero zero b p q = refl
xor_digits_fuel (suc n) zero (suc a) b p q = absurd (omega arith)
xor_digits_fuel (suc n) (suc m) zero b p q = refl
xor_digits_fuel (suc n) (suc m) (suc a) b p q =
    omega (arith, xor_digits_fuel n m (suc a / 2) (b / 2) (omega arith) (omega arith))

zero-bit_xor : (b : ℕ) → bit_xor 0 b ≡ b
zero-bit_xor b = bit_xor-bitwise 0 b

-- The law for the lowest digit.
bit_xor_step : (a b : ℕ) → bit_xor a b ≡ bit_xor (a / 2) (b / 2) * 2 + (a + b) % 2
bit_xor_step zero b = omega (arith, zero-bit_xor b, zero-bit_xor (b / 2))
bit_xor_step (suc a) b = omega (
  arith,
  bit_xor-bitwise (suc a) b,
  bit_xor-bitwise (suc a / 2) (b / 2),
  differ_lem (suc a % 2) (b % 2) (omega arith) (omega arith),
  xor_digits_fuel a (suc a / 2) (suc a / 2) (b / 2) (omega arith) (omega arith),
)

bit_xor_comm_fuel : (n a b : ℕ) → a ≤ n → b ≤ n → bit_xor a b ≡ bit_xor b a
bit_xor_comm_fuel zero zero zero p q = refl
bit_xor_comm_fuel zero zero (suc b) p q = absurd (omega arith)
bit_xor_comm_fuel zero (suc a) b p q = absurd (omega arith)
bit_xor_comm_fuel (suc n) a b p q = omega (
  arith,
  bit_xor_step a b,
  bit_xor_step b a,
  bit_xor_comm_fuel n (a / 2) (b / 2) (omega arith) (omega arith),
)

pub bit_xor_comm : (a b : ℕ) → bit_xor a b ≡ bit_xor b a
bit_xor_comm a b = bit_xor_comm_fuel (a + b) a b (omega arith) (omega arith)

bit_xor_self_fuel : (n a : ℕ) → a ≤ n → bit_xor a a ≡ 0
bit_xor_self_fuel zero zero p = refl
bit_xor_self_fuel zero (suc a) p = absurd (omega arith)
bit_xor_self_fuel (suc n) a p =
    omega (arith, bit_xor_step a a, bit_xor_self_fuel n (a / 2) (omega arith))

pub bit_xor_self : (a : ℕ) → bit_xor a a ≡ 0
bit_xor_self a = bit_xor_self_fuel a a (omega arith)

bit_xor_zero_fuel : (n a b : ℕ) → a ≤ n → bit_xor a b ≡ 0 → a ≡ b
bit_xor_zero_fuel zero zero b p e = omega (arith, zero-bit_xor b)
bit_xor_zero_fuel zero (suc a) b p e = absurd (omega arith)
bit_xor_zero_fuel (suc n) a b p e =
    let e' : bit_xor (a / 2) (b / 2) ≡ 0 = omega (arith, bit_xor_step a b) in
    omega (arith, bit_xor_step a b, bit_xor_zero_fuel n (a / 2) (b / 2) (omega arith) e')

-- Only equal bytes are at distance 0.
pub eq_of_bit_xor : (a b : ℕ) → bit_xor a b ≡ 0 → a ≡ b
eq_of_bit_xor a b = bit_xor_zero_fuel a a b (omega arith)

bit_xor_half : (a b : ℕ) → bit_xor a b / 2 ≡ bit_xor (a / 2) (b / 2)
bit_xor_half a b = omega (arith, bit_xor_step a b)

-- Digit `k` of a byte.
abbrev pub bit : ℕ → ℕ → ℕ
bit x k = x / 2 ^ k % 2

pub bit_xor-lt : (a b : ℕ) → a < 256 → b < 256 → bit_xor a b < 256
bit_xor-lt a b h k = omega (
  arith,
  bit_xor_half a b,
  bit_xor_half (a / 2) (b / 2),
  bit_xor_half (a / 2 / 2) (b / 2 / 2),
  bit_xor_half (a / 2 / 2 / 2) (b / 2 / 2 / 2),
  bit_xor_half (a / 2 / 2 / 2 / 2) (b / 2 / 2 / 2 / 2),
  bit_xor_half (a / 2 / 2 / 2 / 2 / 2) (b / 2 / 2 / 2 / 2 / 2),
  bit_xor_half (a / 2 / 2 / 2 / 2 / 2 / 2) (b / 2 / 2 / 2 / 2 / 2 / 2),
  bit_xor_half (a / 2 / 2 / 2 / 2 / 2 / 2 / 2) (b / 2 / 2 / 2 / 2 / 2 / 2 / 2),
  eq_zero,
)
  where
    eq_zero : bit_xor (a / 2 / 2 / 2 / 2 / 2 / 2 / 2 / 2) (b / 2 / 2 / 2 / 2 / 2 / 2 / 2 / 2) ≡ 0
    eq_zero =
        let e : a / 2 / 2 / 2 / 2 / 2 / 2 / 2 / 2 ≡ 0 = omega arith in
        let f : b / 2 / 2 / 2 / 2 / 2 / 2 / 2 / 2 ≡ 0 = omega arith in rw (e, f)

bit-suc : (x k : ℕ) → bit x (suc k) ≡ bit (x / 2) k
bit-suc x k = rw (pow-succ' 2 k, ← div-div-eq-div-mul x 2 (2 ^ k))

-- Digit `k` of a distance tells whether the two bytes differ there.
pub bit-bit_xor : (k a b : ℕ) → bit (bit_xor a b) k ≡ (bit a k + bit b k) % 2
bit-bit_xor zero a b = omega (arith, bit_xor_step a b, div_one a, div_one b, div_one (bit_xor a b))
  where
    div_one : (x : ℕ) → x / 2 ^ zero ≡ x
    div_one x = rw (pow-zero 2) (omega arith)
bit-bit_xor (suc k) a b =
    rw (bit-suc a k, bit-suc b k, bit-suc (bit_xor a b) k, bit_xor_half a b)
      (bit-bit_xor k (a / 2) (b / 2))

and_table :
    all_below 8
      (λ k. all_below 256 (λ b. if bit_and b (2 ^ k) == 0 then bit b k == 0 else bit b k == 1))
    ≡ true
and_table = refl

-- The mask `1 << k` selects digit `k` of a byte.
pub bit_and_mask :
    (k b : ℕ)
    → k < 8
    → b < 256
    → (if bit_and b (2 ^ k) == 0 then bit b k == 0 else bit b k == 1) ≡ true
bit_and_mask k b hk hb =
    all_below_sound 256 (λ x. if bit_and x (2 ^ k) == 0 then bit x k == 0 else bit x k == 1) b
      (all_below_sound 8
        (λ k. all_below 256 (λ b. if bit_and b (2 ^ k) == 0 then bit b k == 0 else bit b k == 1)) k
        and_table hk)
      hb
