-- ===== src/Metrics/Totals.antt =====
-- What the totals of internal/metrics/metrics.go add up to.
use aldea.Prelude.{ℕ, ◌+◌, ◌^◌, ◌<◌, ◌≡◌, refl, ap, ◌∙◌, List, [], ◌∷◌, arith}
use aldea.Prelude.Int.{pos, add64, add64_small}
use aldea.Scheduler.{Float}
use aldea.Metrics.{Collector, new_collector, record_transfer, get_snapshot}

abbrev pub record_all : List (ℕ × ℕ) → Collector → Collector
record_all [] c = c
record_all ((sent, received) ∷ rest) c =
    record_all rest (record_transfer (pos sent) (pos received) c)

abbrev pub sum_sent : List (ℕ × ℕ) → ℕ
sum_sent [] = 0
sum_sent ((sent, received) ∷ rest) = sent + sum_sent rest

record_all-sent :
    (transfers : List (ℕ × ℕ)) (c : Collector) (a : ℕ)
    → c.bytes_sent ≡ pos a
    → a + sum_sent transfers < 2 ^ 63
    → (record_all transfers c).bytes_sent ≡ pos (a + sum_sent transfers)
unfolding record_transfer
record_all-sent [] c a e h = e ∙ ap pos (omega arith)
record_all-sent ((sent, received) ∷ rest) c a e h =
    record_all-sent rest (record_transfer (pos sent) (pos received) c) (a + sent)
      (ap (λ z. add64 z (pos sent)) e ∙ add64_small a sent (omega arith)) (omega arith)
    ∙ ap pos (omega arith)

-- After any transfers whose sum is an `int64`, a new collector's snapshot shows that sum as sent.
pub get_snapshot-sent :
    {F : Type 0} (fl : Float F) (transfers : List (ℕ × ℕ))
    → sum_sent transfers < 2 ^ 63
    → (get_snapshot fl (record_all transfers new_collector)).bytes_sent_total
      ≡ pos (sum_sent transfers)
unfolding get_snapshot
get_snapshot-sent fl transfers h =
    record_all-sent transfers new_collector 0 refl (omega arith) ∙ ap pos (omega arith)
