-- ===== src/Gui/Tests.antt =====
-- Runs and instances of the theorems on gui/app.go.
use aldea.Prelude.{◌≡◌, refl, ap, true, some, [], ◌∷◌, Result, ok, err, if◌then◌else◌, replicate}
use aldea.Prelude.Int.{pos, ltb_ℤ, ◌+ℤ◌}
use aldea.Samples.{plain_mac, plain_base64}
use aldea.Invite.{unix, create_token, token_expired}
use aldea.Invite.Samples.{tokens}
use aldea.Client.{Bytes}
use aldea.Client.Samples.{platform}
use aldea.Gui.{
  App, GuiError, System, new_app, create_network, join_network, pause_node, set_storage_allocation,
  invite_ttl, token_failed,
}
use aldea.Gui.Joining.{join_times, join_network_unlimited, join_network-create_network}
use aldea.Gui.Reachable.{Reaches, here, after, creates, pauses, allocates, IsSane, reached-IsSane}

abbrev fresh : App
fresh = new_app (107 ∷ []) (9 ∷ [])

abbrev created : App × Result GuiError Bytes
created =
    create_network plain_mac plain_base64 (tokens "t1" "host:9000") (some (5 ∷ [])) (some "t1")
      (pos 0) "host:9000" fresh

abbrev text_of : Result GuiError Bytes → Bytes
text_of (ok t) = t
text_of (err e) = []

abbrev token : Bytes
token = text_of created.1

created_run : created.1 ≡ ok token
unfolding create_network create_token unix ◌+ℤ◌ new_app
created_run = refl

join_network_unlimited_example :
    (join_network plain_mac plain_base64
      (tokens "t1" "host:9000")
      (pos 9)
      token
      (join_times plain_mac plain_base64 (tokens "t1" "host:9000") 20 (pos 9) token fresh)).1
    ≡ (join_network plain_mac plain_base64 (tokens "t1" "host:9000") (pos 9) token fresh).1
join_network_unlimited_example =
    join_network_unlimited plain_mac plain_base64 (tokens "t1" "host:9000") 20 (pos 9) token fresh

join_network-create_network_example :
    join_network plain_mac plain_base64 (tokens "t1" "host:9000") (pos 9) token fresh ≡ (
      if ltb_ℤ (unix (pos 0 +ℤ invite_ttl)) (unix (pos 9))
      then (fresh, err (token_failed token_expired))
      else (
        record fresh {
          tracker_addr = "host:9000";
          network_key = 5 ∷ [];
          node_id = "node-gui-member";
          configured = true;
        },
        ok tt,
      ))
join_network-create_network_example =
    join_network-create_network plain_mac plain_base64 (tokens "t1" "host:9000") fresh fresh
      created.0 (5 ∷ []) "t1" "host:9000" (pos 0) (pos 9) token
      (ap (λ r. (created.0, r)) created_run) refl

-- The clock stands, random bytes are there, and every write succeeds.
abbrev system : System (Unit {0})
system = record {
  clock = λ w. (w, pos 0);
  random = λ n w. (w, some (replicate n 7));
  write_shard = λ name b w. (w, true);
}

abbrev later : App
later = (set_storage_allocation (pos 4096) (pause_node true created.0)).0

later_run : Reaches plain_mac plain_base64 (tokens "t1" "host:9000") platform system fresh later
later_run =
    after
      (after (after here (creates (some (5 ∷ [])) (some "t1") (pos 0) "host:9000")) (pauses true))
      (allocates (pos 4096))

reached-IsSane_example :
    IsSane plain_mac plain_base64 (tokens "t1" "host:9000") platform system later
reached-IsSane_example =
    reached-IsSane plain_mac plain_base64 (tokens "t1" "host:9000") platform system (107 ∷ [])
      (9 ∷ []) later later_run
