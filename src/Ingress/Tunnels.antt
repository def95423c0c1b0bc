-- ===== src/Ingress/Tunnels.antt =====
-- Opening and closing tunnels (internal/ingress/ingress.go).
use aldea.Prelude.{◌≡◌, refl, ◌≢◌, true, false, String, some, ok, err, arith, length, ◌∙◌}
use aldea.Prelude.Int.{ℤ}
use aldea.Prelude.Dict.{
  IsDict, lookup, insert, erase, lookup-insert, lookup-erase_ne, lookup-erase_self, insert-IsDict,
  length-insert_old,
}
use aldea.Prelude.Text.{str_eq_iff, str_eq_refl}
use aldea.Ingress.{
  Manager, IngressTunnel, tunnel_not_found, invalid_port, is_invalid_port, tunnel_id_of,
  create_tunnel, close_tunnel, list_tunnels,
}

-- A port out of range is refused and changes nothing. With one in range the tunnel that is returned
-- is in the table under its identifier, until it is closed; then it is gone and cannot be closed
-- again. No other tunnel is touched.
close-create :
    (now at : ℤ) (workload_id : String) (port : ℤ) (relay : String) (m : Manager) (other : String)
    → IsDict m
    → other ≢ tunnel_id_of workload_id now
    → let r = create_tunnel now at workload_id port relay m in
      let id = tunnel_id_of workload_id now in
      (is_invalid_port port ≡ true → r ≡ (m, err invalid_port))
      × (is_invalid_port port ≡ false
          → (t : IngressTunnel) × (r.1 ≡ ok t)
            × (t.tunnel_id ≡ id)
            × (lookup id r.0 ≡ some t)
            × (lookup other r.0 ≡ lookup other m)
            × ((m' : Manager) × (close_tunnel id r.0 ≡ ok m')
                × (close_tunnel id m' ≡ err tunnel_not_found)
                × (lookup other m' ≡ lookup other m)))
unfolding create_tunnel close_tunnel
close-create now at workload_id port relay m other d ne =
    let id = tunnel_id_of workload_id now in
    (
      λ bad. rw bad refl,
      λ good.
          let same = str_eq_refl id in
          let known = str_eq_iff other id in
          let t : IngressTunnel = record {
            tunnel_id = id;
            workload_id = workload_id;
            public_addr = aldea.Ingress.public_addr_of workload_id;
            target_port = port;
            relay_addr = relay;
            is_active = true;
            created_at = at;
          } in
          let m₁ = insert id t m in
          let kept = lookup-insert other id t m in
          let own = lookup-insert id id t m in
          let gone = lookup-erase_self id m₁ (insert-IsDict id t m d) in
          let rest = lookup-erase_ne other id m₁ ne in
          (
            t,
            rw good refl,
            refl,
            ground (arith, good, own, same),
            ground (arith, good, kept, known, ne),
            (
              erase id m₁,
              ground (arith, good, own, same),
              ground (arith, gone),
              ground (arith, rest, kept, known, ne),
            ),
          ),
    )

-- A second tunnel to a workload within one second takes the identifier of the first: the table has
-- no more tunnels than before, and the first is no longer in it.
pub create_same_second :
    (now at at' : ℤ) (workload_id : String) (port port' : ℤ) (relay relay' : String) (m : Manager)
    → is_invalid_port port ≡ false
    → is_invalid_port port' ≡ false
    → let first = create_tunnel now at workload_id port relay m in
      let second = create_tunnel now at' workload_id port' relay' first.0 in
      (length second.0 ≡ length first.0)
      × ((t : IngressTunnel) × (second.1 ≡ ok t)
          × (t.target_port ≡ port')
          × (lookup (tunnel_id_of workload_id now) second.0 ≡ some t))
unfolding create_tunnel
create_same_second now at at' workload_id port port' relay relay' m good good' =
    let id = tunnel_id_of workload_id now in
    let same = str_eq_refl id in
    let tunnel : ℤ → ℤ → String → IngressTunnel = λ a p r. record {
      tunnel_id = id;
      workload_id = workload_id;
      public_addr = aldea.Ingress.public_addr_of workload_id;
      target_port = p;
      relay_addr = r;
      is_active = true;
      created_at = a;
    } in
    let t = tunnel at port relay in
    let t' = tunnel at' port' relay' in
    let own : lookup id (insert id t m) ≡ some t = lookup-insert id id t m ∙ rw same refl in
    let own' : lookup id (insert id t' (insert id t m)) ≡ some t' =
      lookup-insert id id t' (insert id t m) ∙ rw same refl in
    (
      rw (good, good') (length-insert_old id t' t (insert id t m) own),
      (t', rw good' refl, refl, rw (good, good') own'),
    )
