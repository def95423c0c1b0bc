-- ===== src/TrackerServer.antt =====
-- cmd/trackerd/server.go: the coordinator's HTTP handlers over the tracker's store. A request is
-- its key header and its body; the JSON codecs are parameters. A handler gives the store after it and the response.
pub mod Guarded
mod Tests
use aldea.Prelude.{
  ℕ, ◌≡◌, Bool, true, false, String, Option, none, some, List, [], ◌∷◌, ◌++◌, if◌then◌else◌, Result,
  ok, err, not,
}
use aldea.Prelude.Int.{ℤ}
use aldea.Prelude.Text.{str_eq}
use aldea.Backend.{Codec, JsonStream}
use aldea.Config.{TrackerConfig}
use aldea.Http.{
  Body, Response, read_all, http_error, written, status_ok, status_bad_request, status_unauthorized,
  status_conflict, status_not_found, status_internal_server_error,
}
use aldea.Tracker.{
  Backend, Store, StoreError, NodeMetadata, FileMetadata, ShardPlacement, register_node, list_nodes,
  select_placement_nodes, save_file_placement, get_file_placement,
}

abbrev pub Bytes : Type 0
Bytes = List ℕ

pub record Request : Type 0 where
  pub key : String
  pub body : Body

pub record SelectRequest : Type 0 where
  pub count : ℤ
  pub required_space : ℤ

pub record PlacementRecord : Type 0 where
  pub file : FileMetadata
  pub placements : List ShardPlacement

-- The server's third-party parts; `error_text` is `err.Error()`.
pub record Platform (B R : Type 0) : Type 0 where
  pub backend : Backend B R
  pub node_json : Codec NodeMetadata Bytes
  pub nodes_json : JsonStream (List NodeMetadata)
  pub select_json : JsonStream SelectRequest
  pub placement_json : JsonStream PlacementRecord
  pub error_text : StoreError → String

-- `json.NewDecoder(r.Body).Decode`
abbrev pub body_of : {A : Type 0} → JsonStream A → Request → Option A
body_of c r = c.decode r.body.content r.body.fails

-- `writeJSON`: what does not encode leaves the body empty.
abbrev pub write_json : {A : Type 0} → JsonStream A → A → Response
write_json c a = elim (c.marshal a) [ none ↦ written [] | some raw ↦ written (raw ++ 10 ∷ []) ]

abbrev pub unauthorized : Response
unauthorized = http_error "unauthorized" status_unauthorized

module _ {B R : Type 0} (p : Platform B R) (cfg : TrackerConfig) where
  open p use {backend, node_json, nodes_json, select_json, placement_json}

  unfoldable pub authenticated : Request → Bool
  authenticated r = str_eq r.key cfg.network_key

  -- What `handleRegisterNode` does with a body that it could read.
  unfoldable pub register_body : Store B → Bytes → Store B × Response
  register_body s raw = elim (node_json.unmarshal raw) [
    | none ↦ (s, http_error "malformed node metadata" status_bad_request)
    | some node ↦ elim (register_node backend s node) [
      | err _ ↦ (s, http_error "failed to register node" status_internal_server_error)
      | ok s' ↦ (s', written [])
    ]
  ]

  unfoldable pub handle_register_node : Store B → Request → Store B × Response
  unfolding authenticated register_body
  handle_register_node s r =
      if not (authenticated r) then (s, unauthorized) else elim (read_all r.body) [
        | none ↦ (s, http_error "failed to read body" status_bad_request)
        | some raw ↦ register_body s raw
      ]

  unfoldable pub handle_list_nodes : Store B → Request → Store B × Response
  unfolding authenticated
  handle_list_nodes s r =
      if not (authenticated r) then (s, unauthorized) else elim (list_nodes backend s) [
        | err _ ↦ (s, http_error "failed to list nodes" status_internal_server_error)
        | ok nodes ↦ (s, write_json nodes_json nodes)
      ]

  unfoldable pub handle_select_placement : Store B → Request → Store B × Response
  unfolding authenticated
  handle_select_placement s r =
      if not (authenticated r) then (s, unauthorized) else elim (body_of select_json r) [
        | none ↦ (s, http_error "malformed request" status_bad_request)
        | some req ↦ elim (select_placement_nodes backend s req.count req.required_space) [
          | err e ↦ (s, http_error (p.error_text e) status_conflict)
          | ok nodes ↦ (s, write_json nodes_json nodes)
        ]
      ]

  unfoldable pub handle_save_file_placement : Store B → Request → Store B × Response
  unfolding authenticated
  handle_save_file_placement s r =
      if not (authenticated r) then (s, unauthorized) else elim (body_of placement_json r) [
        | none ↦ (s, http_error "malformed request" status_bad_request)
        | some req ↦ elim (save_file_placement backend s req.file req.placements) [
          | err _ ↦ (s, http_error "failed to save placement" status_internal_server_error)
          | ok s' ↦ (s', written [])
        ]
      ]

  -- `id` is the path's last part.
  unfoldable pub handle_get_file_placement : Store B → Request → String → Store B × Response
  unfolding authenticated
  handle_get_file_placement s r id =
      if not (authenticated r) then (s, unauthorized) else elim (get_file_placement backend s id) [
        | err e ↦ (s, http_error (p.error_text e) status_not_found)
        | ok (file, placements) ↦
            (s, write_json placement_json (record { file = file; placements = placements }))
      ]
