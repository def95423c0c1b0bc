-- ===== src/Bandwidth/Portions.antt =====
-- How internal/bandwidth/bandwidth.go splits a wait, and what its bucket holds.
use aldea.Prelude.{
  ℕ, zero, suc, ◌+◌, ◌-◌, ◌≤◌, ◌<◌, ◌≡◌, refl, false, List, [], ◌∷◌, ltb, leb, All, arith,
  Bool-cases, inl, inr,
}
use aldea.Prelude.Int.{ℤ, pos, negsuc, sub64}
use aldea.Scheduler.{Float}
use aldea.Bandwidth.{Limiter, refill, portions, wait_n}

abbrev total : List ℕ → ℕ
total [] = 0
total (x ∷ xs) = x + total xs

abbrev IsPortion : ℕ → ℕ → Type 0
IsPortion limit x = (0 < x) × (x ≤ limit)

portions_lem :
    (fuel limit n : ℕ)
    → 0 < limit
    → n ≤ fuel
    → (total (portions fuel limit n) ≡ n) × All (IsPortion limit) (portions fuel limit n)
unfolding portions
portions_lem zero limit n z h = (omega arith, tt)
portions_lem (suc fuel) limit n z h = elim (Bool-cases (ltb 0 n)) [
  | inr f ↦ ground (arith, f)
  | inl t ↦ elim (Bool-cases (ltb limit n)) [
    | inl u ↦
        let (sum, each) = portions_lem fuel limit (n - limit) z (ground (arith, t, u)) in
        rw (portions, t, u) (ground (arith, sum, u), ((ground arith, ground arith), each))
    | inr u ↦
        let (sum, each) = portions_lem fuel limit (n - n) z (ground (arith, t)) in
        rw (portions, t, u) (ground (arith, sum), ((ground (arith, t), ground (arith, u)), each))
  ]
]

-- A wait for `n` bytes under a limit above zero is for portions that are together exactly `n`, each of them above zero
-- and at most the limit, so that the bucket can hold it. Without a limit, or for no bytes,
-- there is no wait.
wait_n-portions :
    (limit n : ℕ)
    → 0 < limit
    → (total (wait_n (pos limit) (pos n)) ≡ n)
      × All (IsPortion limit) (wait_n (pos limit) (pos n))
      × (wait_n (pos 0) (pos n) ≡ [])
      × (wait_n (negsuc limit) (pos n) ≡ [])
unfolding wait_n
wait_n-portions limit n z = elim (Bool-cases (leb n 0)) [
  | inl t ↦ ground (arith, t, z)
  | inr t ↦
      let (sum, each) = portions_lem n limit n z (omega arith) in
      let waits : wait_n (pos limit) (pos n) ≡ portions n limit n = ground (arith, t, z) in
      (rw waits sum, rw waits each, refl, ground arith)
]

module _ {F : Type 0} (fl : Float F) (seconds : ℤ → F) where
  -- After any time the bucket holds at most its capacity.
  refill-capacity :
      (now : ℤ) (l : Limiter F)
      → fl.less (fl.of_int l.bytes_per_sec) (refill fl seconds now l).tokens ≡ false
  unfolding refill
  refill-capacity now l =
      let filled =
        fl.add l.tokens (fl.mul (seconds (sub64 now l.last_check)) (fl.of_int l.bytes_per_sec)) in
      elim (Bool-cases (fl.less (fl.of_int l.bytes_per_sec) filled)) [
        | inl t ↦ rw (refill, t) (fl.less_irrefl (fl.of_int l.bytes_per_sec))
        | inr t ↦ rw (refill, t) t
      ]
