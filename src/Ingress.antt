-- ===== src/Ingress.antt =====
-- internal/ingress/ingress.go: the table of tunnels to workloads. A tunnel's identifier holds the
-- second of its creation; both readings of the clock are arguments. The lock makes each operation
-- one step.
pub mod Tunnels
mod Tests
use aldea.Prelude.{
  ◌≡◌, Bool, true, false, ◌||◌, String, Option, none, some, List, [], ◌∷◌, Result, ok, err,
  if◌then◌else◌, map,
}
use aldea.Prelude.Int.{ℤ, pos, leb_ℤ, ltb_ℤ}
use aldea.Prelude.Dict.{Dict, lookup, insert, erase}
use aldea.Prelude.Text.{decimal_text, joined}

pub data IngressError : Type 0 where
  tunnel_not_found : IngressError
  invalid_port : IngressError

pub record IngressTunnel : Type 0 where
  pub tunnel_id : String
  pub workload_id : String
  pub public_addr : String
  pub target_port : ℤ
  pub relay_addr : String
  pub is_active : Bool
  pub created_at : ℤ

abbrev pub Manager : Type 0
Manager = Dict IngressTunnel

abbrev pub new_manager : Manager
new_manager = []

-- `"tun-%s-%d"` and `"https://%s.tunnel.aldea.net"`.
unfoldable pub tunnel_id_of : String → ℤ → String
tunnel_id_of workload_id now_unix = joined ("tun-" ∷ workload_id ∷ "-" ∷ decimal_text now_unix ∷ [])

unfoldable pub public_addr_of : String → String
public_addr_of workload_id = joined ("https://" ∷ workload_id ∷ ".tunnel.aldea.net" ∷ [])

abbrev pub is_invalid_port : ℤ → Bool
is_invalid_port port = leb_ℤ port (pos 0) || ltb_ℤ (pos 65535) port

unfoldable pub create_tunnel :
    ℤ → ℤ → String → ℤ → String → Manager → Manager × Result IngressError IngressTunnel
create_tunnel now_unix created_at workload_id target_port relay_addr m =
    if is_invalid_port target_port
    then (m, err invalid_port)
    else let tunnel : IngressTunnel = record {
      tunnel_id = tunnel_id_of workload_id now_unix;
      workload_id = workload_id;
      public_addr = public_addr_of workload_id;
      target_port = target_port;
      relay_addr = relay_addr;
      is_active = true;
      created_at = created_at;
    } in
      (insert (tunnel_id_of workload_id now_unix) tunnel m, ok tunnel)

-- The closed tunnel leaves the table, so that its cleared flag shows only to who holds it.
unfoldable pub close_tunnel : String → Manager → Result IngressError Manager
close_tunnel id m = elim (lookup id m) [
  | none ↦ err tunnel_not_found
  | some tunnel ↦ ok (erase id m)
]

abbrev values : Manager → List IngressTunnel
values [] = []
values ((_, t) ∷ m) = t ∷ values m

unfoldable pub list_tunnels : Manager → List IngressTunnel
list_tunnels m = values m
