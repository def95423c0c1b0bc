-- ===== src/Bandwidth.antt =====
-- internal/bandwidth/bandwidth.go: the token bucket that limits a stream. Floating-point numbers, the
-- clock and sleeping are parameters: a wait is one round of the loop for each time that the clock
-- shows, in nanoseconds, and the rounds to come are a list of such times.
pub mod Portions
mod Tests
use aldea.Prelude.{
  ℕ, zero, suc, ◌+◌, ◌-◌, ◌≡◌, Bool, true, false, Option, none, some, List, [], ◌∷◌, if◌then◌else◌,
  ltb, leb, length, Result,
}
use aldea.Prelude.Int.{ℤ, pos, negsuc, pos_part, leb_ℤ, ltb_ℤ, sub64}
use aldea.Scheduler.{Float}

pub record Limiter (F : Type 0) : Type 0 where
  pub bytes_per_sec : ℤ
  pub last_check : ℤ
  pub tokens : F

module _ {F : Type 0} (fl : Float F) where
  open fl use {of_int, add, sub, mul, div, less, less_eq}

  unfoldable pub new_limiter : ℤ → ℤ → Limiter F
  new_limiter now bytes_per_sec = record {
    bytes_per_sec = bytes_per_sec;
    last_check = now;
    tokens = of_int bytes_per_sec;
  }

  -- `Duration.Seconds`, as a parameter of the time between two readings of the clock.
  module _ (seconds : ℤ → F) where
    -- The tokens after the time that has passed, at most the bucket's capacity.
    unfoldable pub refill : ℤ → Limiter F → Limiter F
    refill now l =
        let filled =
          add l.tokens (mul (seconds (sub64 now l.last_check)) (of_int l.bytes_per_sec)) in
        record l {
          last_check = now;
          tokens = if less (of_int l.bytes_per_sec) filled then of_int l.bytes_per_sec else filled;
        }

    -- The rounds of `waitChunk` for `n` bytes: `none` while it still sleeps.
    unfoldable pub wait_chunk : ℤ → List ℤ → Limiter F → Limiter F × Option (List ℤ)
    wait_chunk n [] l = (l, none)
    wait_chunk n (now ∷ times) l =
        let l' = refill now l in
        let later = wait_chunk n times l' in
        if less_eq (of_int n) l'.tokens
        then (record l' { tokens = sub l'.tokens (of_int n) }, some times)
        else later

-- The portions into which `WaitN` splits `n` bytes: none is above `limit`.
unfoldable pub portions : ℕ → ℕ → ℕ → List ℕ
portions zero limit n = []
portions (suc fuel) limit n =
    let chunk = if ltb limit n then limit else n in
    let rest = portions fuel limit (n - chunk) in if ltb 0 n then chunk ∷ rest else []

-- Without a limit, or with nothing to wait for, there is no wait. As many rounds as bytes suffice.
unfoldable pub wait_n : ℤ → ℤ → List ℕ
wait_n bytes_per_sec n =
    if leb_ℤ bytes_per_sec (pos 0)
    then []
    else if leb_ℤ n (pos 0)
    then []
    else portions (pos_part n) (pos_part bytes_per_sec) (pos_part n)
