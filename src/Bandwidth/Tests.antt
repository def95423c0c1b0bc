-- ===== src/Bandwidth/Tests.antt =====
-- Instances of the theorems on internal/bandwidth/bandwidth.go.
use aldea.Prelude.{◌≡◌, refl, [], ◌∷◌}
use aldea.Prelude.Int.{pos}
use aldea.Bandwidth.{portions, wait_n}

wait_n_run : wait_n (pos 4) (pos 10) ≡ 4 ∷ 4 ∷ 2 ∷ []
unfolding wait_n portions
wait_n_run = refl
