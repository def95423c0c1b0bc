-- ===== src/Ingress/Tests.antt =====
-- Runs and instances of the theorems on internal/ingress/ingress.go.
use aldea.Prelude.{◌≡◌, ◌≢◌, refl}
use aldea.Prelude.Int.{pos}
use aldea.Prelude.Text.{decimal_text}
use aldea.Ingress.{tunnel_id_of}

tunnel_id_run : tunnel_id_of "web" (pos 1700) ≡ "tun-web-1700"
unfolding tunnel_id_of decimal_text
tunnel_id_run = refl

other_id : "x" ≢ tunnel_id_of "web" (pos 1700)
unfolding tunnel_id_of decimal_text
other_id = λ e. cc
