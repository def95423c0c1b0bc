-- ===== src/Client/Calls.antt =====
-- cmd/aldea/put.go and get.go: the requests to the tracker and to the storage nodes.
-- A reply's JSON is the first value of its body, which `Decode` reads.
use aldea.Prelude.{ℕ, Bool, ◌==◌, String, Option, none, some, List, [], ◌∷◌, if◌then◌else◌}
use aldea.Prelude.Int.{ℤ, pos}
use aldea.Prelude.Text.{joined, utf8}
use aldea.Prelude.Eff.{Eff, ◌>>=◌, ◌>>◌, pure, fail}
use aldea.Config.{ClientConfig}
use aldea.Http.{status_ok}
use aldea.Tracker.{NodeMetadata, FileMetadata, ShardPlacement}
use aldea.Client.Messages.{
  HttpRequest, Reply, Transport, request, expect_ok, send_shard, ask_shard, read_answer,
}
use aldea.Client.{Bytes, ClientError, Services, malformed_reply}

module _ {W : Type 0} (t : Transport W) (cfg : ClientConfig) where
  abbrev key_bytes : Bytes
  key_bytes = utf8 cfg.network_key

  abbrev pub decode_reply : {A : Type 0} → (Bytes → Bool → Option A) → Reply → Eff W ClientError A
  decode_reply read r = elim (read r.body.content r.body.fails) [
    | none ↦ fail malformed_reply
    | some a ↦ pure a
  ]

  -- A request to the tracker, with the network's key in its header.
  abbrev pub to_tracker : String → String → Bytes → HttpRequest
  to_tracker method path body = record {
    method = method;
    url = joined (cfg.tracker_addr ∷ path ∷ []);
    key = cfg.network_key;
    body = body;
  }

  unfoldable pub select_nodes : ℕ → Eff W ClientError (List NodeMetadata)
  select_nodes count = do
    r ← request t (
        to_tracker "POST" "/placement"
          (t.select_json (record { count = pos count; required_space = pos 0 })))
    expect_ok t r
    decode_reply t.read_nodes r

  unfoldable pub save_file_placement :
      FileMetadata → List ShardPlacement → Eff W ClientError (Unit {0})
  save_file_placement file placements = do
    r ← request t (
        to_tracker "POST" "/files"
          (t.placement_json (record { file = file; placements = placements })))
    expect_ok t r

  unfoldable pub get_file_placement :
      String → Eff W ClientError (FileMetadata × List ShardPlacement)
  get_file_placement file_id = do
    r ← request t (to_tracker "GET" (joined ("/files/" ∷ file_id ∷ [])) [])
    expect_ok t r
    found ← decode_reply t.read_placement r
    pure (found.file, found.placements)

  -- The status is not looked at.
  unfoldable pub list_nodes : Eff W ClientError (List NodeMetadata)
  list_nodes = do r ← request t (to_tracker "GET" "/nodes" []); decode_reply t.read_nodes r

  unfoldable pub put_shard : NodeMetadata → String → Bytes → Eff W ClientError (Unit {0})
  put_shard node shard_id content = send_shard t "aldea-cli" key_bytes node shard_id content

  -- The shard in a node's answer: nil where it has none.
  shard_of : Reply → Eff W ClientError Bytes
  shard_of r = do
    answer ← read_answer t "aldea-cli" key_bytes r
    pure (if answer.found then answer.content else [])

  unfoldable pub get_shard : NodeMetadata → String → Eff W ClientError Bytes
  unfolding shard_of
  get_shard node shard_id = do
    r ← ask_shard t "aldea-cli" key_bytes node shard_id
    if r.status == status_ok then shard_of r else pure []

-- The calls, as the commands use them.
abbrev pub services :
    {W : Type 0}
    → Transport W
    → (ℕ → W → W × Option Bytes)
    → (W → W × ℤ)
    → ClientConfig
    → Services W
services t random clock cfg = record {
  select_nodes = select_nodes t cfg;
  put_shard = put_shard t cfg;
  save_file_placement = save_file_placement t cfg;
  get_file_placement = get_file_placement t cfg;
  list_nodes = list_nodes t cfg;
  get_shard = get_shard t cfg;
  random = random;
  clock = clock;
}
