-- ===== src/Repair/Repaired.antt =====
-- What internal/repair/repair.go has saved when the repair of a file succeeds.
use aldea.Prelude.{
  ◌≡◌, refl, sym, ap, ◌∙◌, ◌||◌, Bool, true, false, String, List, [], ◌∷◌, map, ok, err, arith,
  if◌then◌else◌, Bool-cases, ◌⊎◌, inl, inr, All, All-map_pred, Result-cases,
}
use aldea.Prelude.Int.{ℤ, eqb_ℤ}
use aldea.Prelude.Eff.{inversion, pure}
use aldea.Erasure.{Encoder}
use aldea.Tracker.{
  Backend, NodeMetadata, ShardPlacement, FileMetadata, save_file_placement, get_file_placement,
}
use aldea.Tracker.Files.{get-save_file_placement}
use aldea.Prelude.Text.{str_eq_refl}
use aldea.Client.{Bytes, Platform}
use aldea.Client.Download.{group, chunk_indices, insert_key}
use aldea.Repair.{
  Field, Links, contains, any_lost, repair_chunks, repair_file, saving, store_failed,
}
use aldea.Repair.Relocated.{
  is_in, relocated, passed, passed-lost, passed_sound, repair_chunks-passed, Selects,
}

is_in-insert_key : (x k : ℤ) (ks : List ℤ) → is_in x (insert_key k ks) ≡ (eqb_ℤ x k || is_in x ks)
unfolding insert_key
is_in-insert_key x k [] = refl
is_in-insert_key x k (j ∷ js) = ground (arith, is_in-insert_key x k js)

-- A chunk of a placement is one of the chunks that are walked.
is_in-chunk_indices :
    (pls : List ShardPlacement) → All (λ pl. is_in pl.chunk_index (chunk_indices pls) ≡ true) pls
unfolding chunk_indices
is_in-chunk_indices [] = tt
is_in-chunk_indices (pl ∷ pls) = (
  is_in-insert_key pl.chunk_index pl.chunk_index (chunk_indices pls) ∙ ground arith,
  All-map_pred (λ x. is_in x.chunk_index (chunk_indices pls) ≡ true)
      (λ x h. is_in-insert_key x.chunk_index pl.chunk_index (chunk_indices pls) ∙ ground (arith, h))
      pls (is_in-chunk_indices pls),
)

module _ (unhealthy : List String) where
  any_lost-group :
      (pls : List ShardPlacement)
      → All
          (λ pl.
            contains unhealthy pl.node_id ≡ true
            → any_lost unhealthy (group pl.chunk_index pls) ≡ true)
          pls
  unfolding group any_lost
  any_lost-group [] = tt
  any_lost-group (pl ∷ pls) = (first, All-map_pred _ later pls (any_lost-group pls))
    where
      first :
          contains unhealthy pl.node_id ≡ true
          → any_lost unhealthy (group pl.chunk_index (pl ∷ pls)) ≡ true
      first h =
          let here : eqb_ℤ pl.chunk_index pl.chunk_index ≡ true = ground arith in rw (here, h) refl

      later :
          (x : ShardPlacement)
          → (contains unhealthy x.node_id ≡ true
              → any_lost unhealthy (group x.chunk_index pls) ≡ true)
          → contains unhealthy x.node_id ≡ true
          → any_lost unhealthy (group x.chunk_index (pl ∷ pls)) ≡ true
      later x h lost = elim (Bool-cases (eqb_ℤ pl.chunk_index x.chunk_index)) [
        | inl t ↦ rw (t, h lost) (ground arith)
        | inr t ↦ rw t (h lost)
      ]

module _ {B R W : Type 0} (be : Backend B R) (p : Platform) (links : Links W) (key : Bytes)
    (unhealthy : List String) (node : NodeMetadata) where
  passed-relocated :
      (cis : List ℤ) (placements pls : List ShardPlacement)
      → All (λ pl. is_in pl.chunk_index cis ≡ true) pls
      → All
          (λ pl.
            contains unhealthy pl.node_id ≡ true
            → any_lost unhealthy (group pl.chunk_index placements) ≡ true)
          pls
      → map (passed be p links key unhealthy node placements cis) pls
        ≡ map (relocated unhealthy node) pls
  passed-relocated cis placements [] h k = refl
  passed-relocated cis placements (pl ∷ pls) (h, hs) (k, ks) =
      let rest = passed-relocated cis placements pls hs ks in
      elim (Bool-cases (contains unhealthy pl.node_id)) [
        | inl t ↦
            rw (t, rest, passed-lost be p links key unhealthy node placements cis pl t h (k t)) refl
        | inr t ↦ rw (t, rest, passed_sound be p links key unhealthy node placements cis pl t) refl
      ]

  saving-ok :
      (file : FileMetadata) (pls : List ShardPlacement) (f f' : Field B W)
      → saving be p links key unhealthy file pls f ≡ (f', ok tt)
      → save_file_placement be f.store file pls ≡ ok f'.store
  saving-ok file pls f f' e = elim (Result-cases (save_file_placement be f.store file pls)) [
    | inl (s, t) ↦
        let step : saving be p links key unhealthy file pls f ≡ (record f { store = s }, ok tt) =
          rw (saving, t) refl in
        t ∙ ap (λ x. ok x.0.store) (sym step ∙ e)
    | inr (x, t) ↦
        let step : saving be p links key unhealthy file pls f ≡ (f, err (store_failed x)) =
          rw (saving, t) refl in
        absurd (ground (arith, e, step))
  ]

  -- In whatever order the chunks of a file are walked, as long as none is left out: when the repair of the file succeeds, and
  -- the store's selection of one node gives `node`, then either no shard was lost and the store is
  -- as it was, or the store now gives the file with every lost shard at `node` and all else as it
  -- was. All lost shards of a file go to one node.
  pub repair_file-relocated :
      (order : List ℤ → List ℤ) (enc : Encoder) (healthy : List NodeMetadata) (file : FileMetadata)
      (placements : List ShardPlacement) (f f' : Field B W)
      → ((cs : List ℤ) (c : ℤ) → is_in c cs ≡ true → is_in c (order cs) ≡ true)
      → Selects be p links key unhealthy node f
      → repair_file be p links key unhealthy order enc healthy file placements f ≡ (f', ok tt)
      → (f'.store ≡ f.store) × (map (relocated unhealthy node) placements ≡ placements)
        ⊎ (get_file_placement be f'.store file.file_id
            ≡ ok (file, map (relocated unhealthy node) placements))
  unfolding repair_file
  repair_file-relocated order enc healthy file placements f f' complete sel e =
      let cis = order (chunk_indices placements) in
      let walk =
        repair_chunks be p links key unhealthy enc healthy placements cis placements false in
      let finish = λ (r : List ShardPlacement × Bool).
        if r.1 then saving be p links key unhealthy file r.0 else pure tt in
      let (f₁, r, e₁, r₁) = inversion walk finish f f' tt e in
      let (store, placed, clean) =
        repair_chunks-passed be p links key unhealthy node enc healthy placements cis placements r.0
          false r.1 f f₁ sel e₁ in
      let walked =
        All-map_pred (λ pl. is_in pl.chunk_index (chunk_indices placements) ≡ true)
          {Q = λ pl. is_in pl.chunk_index cis ≡ true}
          (λ pl h. complete (chunk_indices placements) pl.chunk_index h) placements
          (is_in-chunk_indices placements) in
      let all : r.0 ≡ map (relocated unhealthy node) placements =
        placed
        ∙ passed-relocated cis placements placements walked (any_lost-group unhealthy placements) in
      elim (Bool-cases r.1) [
        | inr t ↦
            let quiet : finish r f₁ ≡ (f₁, ok tt) = rw t refl in
            inl (ap (λ x. x.0.store) (sym r₁ ∙ quiet) ∙ store, sym all ∙ (clean t).0)
        | inl t ↦
            let wrote : finish r f₁ ≡ saving be p links key unhealthy file r.0 f₁ = rw t refl in
            let saved = saving-ok file r.0 f₁ f' (sym wrote ∙ r₁) in
            let kept =
              (get-save_file_placement be f₁.store f'.store file r.0 file.file_id saved).0 in
            inr (kept ∙ rw (str_eq_refl file.file_id) (ap (λ pls. ok (file, pls)) all))
      ]
