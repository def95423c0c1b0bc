-- ===== src/Liveness/Zones.antt =====
-- The three zones of internal/tracker/liveness.go, and where `int64` arithmetic leaves them.
use aldea.Prelude.{ℕ, ◌+◌, ◌-◌, ◌*◌, ◌^◌, ◌≤◌, ◌<◌, ◌≡◌, true, arith, if◌then◌else◌, ltb}
use aldea.Prelude.Int.{ℤ, pos, negsuc, sub64, mul64, wrap64, ◌-ℤ◌, ◌*ℤ◌}
use aldea.Tracker.{NodeMetadata}
use aldea.Liveness.{healthy, transient, dead, default_liveness_config, second, evaluate}

elapsed : (t d : ℕ) → t + d < 2 ^ 63 → sub64 (pos (t + d)) (pos t) ≡ pos d
unfolding sub64 wrap64 ◌-ℤ◌
elapsed t d h = ground arith

nanoseconds : (d : ℕ) → d * second < 2 ^ 63 → mul64 (pos d) (pos second) ≡ pos (d * second)
unfolding mul64 wrap64 ◌*ℤ◌
nanoseconds d h = ground arith

-- A node that reports itself healthy is healthy if it is silent for less than 60 s, transient from 60 s on and dead from
-- 600 s on, as long as it was last seen at no negative time and both the time and the silence in nanoseconds are an
-- `int64`; a node marked unhealthy is dead.
pub evaluate_zones :
    (n : NodeMetadata) (t d : ℕ)
    → n.last_seen ≡ pos t
    → t + d < 2 ^ 63
    → d * second < 2 ^ 63
    → evaluate default_liveness_config n (pos (t + d)) ≡ (
        if n.is_healthy
        then if ltb d 60 then healthy else if ltb d 600 then transient else dead
        else dead)
unfolding evaluate
evaluate_zones n t d e h k = rw (e, elapsed t d h, nanoseconds d k) (ground arith)

overflown :
    (d : ℕ)
    → 2 ^ 63 ≤ d * second
    → d * second < 2 ^ 64
    → mul64 (pos d) (pos second) ≡ negsuc (2 ^ 64 - 1 - d * second)
unfolding mul64 wrap64 ◌*ℤ◌
overflown d h k = ground arith

-- A node that reports itself healthy and is silent for so many seconds that the nanoseconds pass
-- into the sign bit (292 to 584 years) is classified as healthy, not as dead.
pub evaluate_overflow :
    (n : NodeMetadata) (now : ℤ) (d : ℕ)
    → n.is_healthy ≡ true
    → sub64 now n.last_seen ≡ pos d
    → 2 ^ 63 ≤ d * second
    → d * second < 2 ^ 64
    → evaluate default_liveness_config n now ≡ healthy
unfolding evaluate
evaluate_overflow n now d a e h k = rw (a, e, overflown d h k) (ground arith)
