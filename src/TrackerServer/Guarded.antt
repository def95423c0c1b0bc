-- ===== src/TrackerServer/Guarded.antt =====
-- What the requests of cmd/trackerd/server.go may do to the store.
use aldea.Prelude.{
  ◌≡◌, refl, ◌⊎◌, inl, inr, true, false, String, some, [], ◌∷◌, ◌++◌, ap, ◌∙◌, arith, ok,
  Bool-cases, Option-cases, Result-cases,
}
use aldea.Prelude.Text.{str_eq, str_eq_refl}
use aldea.Config.{TrackerConfig}
use aldea.Http.{Response, read_all}
use aldea.Tracker.{Store, NodeMetadata, register_node, save_file_placement}
use aldea.Tracker.Files.{get-save_file_placement}
use aldea.TrackerServer.{
  Bytes, Request, PlacementRecord, Platform, body_of, unauthorized, authenticated, register_body,
  handle_register_node, handle_list_nodes, handle_select_placement, handle_save_file_placement,
  handle_get_file_placement,
}

-- The tracker's endpoints.
pub data Endpoint : Type 0 where
  register : Endpoint
  list : Endpoint
  select : Endpoint
  save : Endpoint
  fetch : String → Endpoint

module _ {B R : Type 0} (p : Platform B R) (cfg : TrackerConfig) where
  open p use {backend, node_json, placement_json}

  unfoldable pub serve : Endpoint → Store B → Request → Store B × Response
  serve register s r = handle_register_node p cfg s r
  serve list s r = handle_list_nodes p cfg s r
  serve select s r = handle_select_placement p cfg s r
  serve save s r = handle_save_file_placement p cfg s r
  serve (fetch id) s r = handle_get_file_placement p cfg s r id

  register_changes :
      (s : Store B) (r : Request)
      → str_eq r.key cfg.network_key ≡ true
      → ((handle_register_node p cfg s r).0 ≡ s)
        ⊎ ((raw : Bytes) × (node : NodeMetadata) × (read_all r.body ≡ some raw)
            × (node_json.unmarshal raw ≡ some node)
            × (register_node backend s node ≡ ok (handle_register_node p cfg s r).0))
  unfolding authenticated register_body handle_register_node
  register_changes s r k = elim (Option-cases (read_all r.body)) [
    | inl n ↦ inl (ground (arith, k, n))
    | inr (raw, n) ↦ elim (Option-cases (node_json.unmarshal raw)) [
      | inl m ↦ inl (ground (arith, k, n, m))
      | inr (node, m) ↦ elim (Result-cases (register_node backend s node)) [
        | inr (e, w) ↦ inl (ground (arith, k, n, m, w))
        | inl (s', w) ↦ inr (raw, node, n, m, ground (arith, k, n, m, w))
      ]
    ]
  ]

  save_changes :
      (s : Store B) (r : Request)
      → str_eq r.key cfg.network_key ≡ true
      → ((handle_save_file_placement p cfg s r).0 ≡ s)
        ⊎ ((req : PlacementRecord) × (body_of placement_json r ≡ some req)
            × (save_file_placement backend s req.file req.placements
                ≡ ok (handle_save_file_placement p cfg s r).0))
  unfolding authenticated handle_save_file_placement
  save_changes s r k = elim (Option-cases (body_of placement_json r)) [
    | inl n ↦ inl (ground (arith, k, n))
    | inr (req, n) ↦ elim (Result-cases (save_file_placement backend s req.file req.placements)) [
      | inr (e, w) ↦ inl (ground (arith, k, n, w))
      | inl (s', w) ↦ inr (req, n, ground (arith, k, n, w))
    ]
  ]

  -- Whatever the endpoint, a request that does not carry the network's key is answered with 401
  -- and leaves the store as it was.
  pub serve-unauthorized :
      (e : Endpoint) (s : Store B) (r : Request)
      → str_eq r.key cfg.network_key ≡ false
      → serve e s r ≡ (s, unauthorized)
  unfolding serve authenticated handle_register_node handle_list_nodes handle_select_placement
      handle_save_file_placement handle_get_file_placement
  serve-unauthorized register s r k = rw k refl
  serve-unauthorized list s r k = rw k refl
  serve-unauthorized select s r k = rw k refl
  serve-unauthorized save s r k = rw k refl
  serve-unauthorized (fetch id) s r k = rw k refl

  -- A request to any endpoint leaves the store as it was, or it carries the network's key and it is
  -- either a registration, whose body decodes to a node that the store then registers, or a save,
  -- whose body decodes to a file with placements that the store then saves.
  pub serve_changes :
      (e : Endpoint) (s : Store B) (r : Request)
      → ((serve e s r).0 ≡ s)
        ⊎ ((str_eq r.key cfg.network_key ≡ true)
            × (((raw : Bytes) × (node : NodeMetadata) × (e ≡ register)
                  × (read_all r.body ≡ some raw)
                  × (node_json.unmarshal raw ≡ some node)
                  × (register_node backend s node ≡ ok (serve e s r).0))
                ⊎ ((req : PlacementRecord) × (e ≡ save)
                    × (body_of placement_json r ≡ some req)
                    × (save_file_placement backend s req.file req.placements
                        ≡ ok (serve e s r).0))))
  unfolding serve authenticated handle_list_nodes handle_select_placement handle_get_file_placement
  serve_changes list s r = inl (ground arith)
  serve_changes select s r = inl (ground arith)
  serve_changes (fetch id) s r = inl (ground arith)
  serve_changes register s r = elim (Bool-cases (str_eq r.key cfg.network_key)) [
    | inr wrong ↦ inl (ap (λ q. q.0) (serve-unauthorized register s r wrong))
    | inl k ↦ elim (register_changes s r k) [
      | inl same ↦ inl same
      | inr (raw, node, b, u, w) ↦ inr (k, inl (raw, node, refl, b, u, w))
    ]
  ]
  serve_changes save s r = elim (Bool-cases (str_eq r.key cfg.network_key)) [
    | inr wrong ↦ inl (ap (λ q. q.0) (serve-unauthorized save s r wrong))
    | inl k ↦ elim (save_changes s r k) [
      | inl same ↦ inl same
      | inr (req, b, w) ↦ inr (k, inr (req, refl, b, w))
    ]
  ]

  -- After a save that a member's request made, which is answered with 200, a member's request for the same file is
  -- answered with 200 and the file with its placements, if they can be encoded: the body is their JSON, and what `Decode`
  -- reads from it is the file and the placements as they were saved.
  pub fetch-save :
      (s s' : Store B) (r r' : Request) (req : PlacementRecord) (raw : Bytes)
      → str_eq r.key cfg.network_key ≡ true
      → str_eq r'.key cfg.network_key ≡ true
      → body_of placement_json r ≡ some req
      → save_file_placement backend s req.file req.placements ≡ ok s'
      → placement_json.marshal req ≡ some raw
      → ((serve save s r).0 ≡ s')
        × ((serve save s r).1.status ≡ 200)
        × ((serve (fetch req.file.file_id) s' r').0 ≡ s')
        × ((serve (fetch req.file.file_id) s' r').1.status ≡ 200)
        × ((serve (fetch req.file.file_id) s' r').1.body ≡ raw ++ 10 ∷ [])
        × (placement_json.decode (serve (fetch req.file.file_id) s' r').1.body false ≡ some req)
  unfolding serve authenticated handle_save_file_placement handle_get_file_placement
  fetch-save s s' r r' req raw k k' b w m =
      let (found, _) =
        get-save_file_placement backend s s' req.file req.placements req.file.file_id w in
      let same = str_eq_refl req.file.file_id in
      let saved : serve save s r ≡ (s', record { status = 200; body = [] }) =
        ground (arith, k, b, w) in
      let answered : serve (fetch req.file.file_id) s' r'
          ≡ (s', record { status = 200; body = raw ++ 10 ∷ [] }) =
        ground (arith, k', found, same, m) in
      let sent = ap (λ q. q.1.body) answered in
      (
        ap (λ q. q.0) saved,
        ap (λ q. q.1.status) saved,
        ap (λ q. q.0) answered,
        ap (λ q. q.1.status) answered,
        sent,
        ap (λ x. placement_json.decode x false) sent
            ∙ placement_json.decode-marshal req raw [] false m,
      )
