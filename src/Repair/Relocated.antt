-- ===== src/Repair/Relocated.antt =====
-- The placements of a file after its repair (internal/repair/repair.go).
use aldea.Prelude.{
  ◌≡◌, refl, sym, ap, subst, ◌∙◌, ◌||◌, ◌&&◌, Bool, true, false, String, List, [], ◌∷◌, map, ok,
  arith, if◌then◌else◌, Bool-cases, inl, inr,
}
use aldea.Prelude.Int.{ℤ, pos, eqb_ℤ}
use aldea.Prelude.Eff.{inversion, pure-ok, pure, ◌>>=◌}
use aldea.Erasure.{Shard, Encoder}
use aldea.Tracker.{Backend, NodeMetadata, ShardPlacement, select_placement_nodes}
use aldea.Client.{Bytes, Platform}
use aldea.Client.Download.{group}
use aldea.Repair.{
  Field, Links, RepairError, contains, any_lost, replace_one, replace_lost, rebuild_chunk,
  repair_chunks,
}
use aldea.Repair.Moves.{replace_one-ok, rebuild_chunk-Same}

-- Whether a list of chunk indices has an index.
abbrev pub is_in : ℤ → List ℤ → Bool
is_in x [] = false
is_in x (c ∷ cs) = eqb_ℤ x c || is_in x cs

-- A placement whose node has failed names the new node.
abbrev pub relocated : List String → NodeMetadata → ShardPlacement → ShardPlacement
relocated unhealthy node pl =
    if contains unhealthy pl.node_id then record pl { node_id = node.node_id } else pl

-- The same, for the placements of one chunk.
abbrev moved : List String → NodeMetadata → ℤ → ShardPlacement → ShardPlacement
moved unhealthy node ci pl =
    if eqb_ℤ pl.chunk_index ci && contains unhealthy pl.node_id
    then record pl { node_id = node.node_id }
    else pl

module _ {B R W : Type 0} (be : Backend B R) (p : Platform) (links : Links W) (key : Bytes)
    (unhealthy : List String) (node : NodeMetadata) where
  abbrev pub Selects : Field B W → Type 0
  Selects f = select_placement_nodes be f.store (pos 1) (pos 0) ≡ ok (node ∷ [])

  replace_lost-moved :
      (fresh : List Shard) (ci : ℤ) (pls pls' : List ShardPlacement) (d : Bool) (f f' : Field B W)
      → Selects f
      → replace_lost be p links key unhealthy fresh ci pls f ≡ (f', ok (pls', d))
      → (f'.store ≡ f.store) × (pls' ≡ map (moved unhealthy node ci) pls) × (d ≡ false → pls' ≡ pls)
  unfolding replace_lost
  replace_lost-moved fresh ci [] pls' d f f' sel e =
      let (same, value) = pure-ok {E = RepairError} ([], false) (pls', d) f f' e in
      (ap (λ x. x.store) same, ap (λ r. r.0) value, λ _. ap (λ r. r.0) value)
  replace_lost-moved fresh ci (pl ∷ pls) pls' d f f' sel e =
      let more = replace_lost be p links key unhealthy fresh ci pls in
      elim (Bool-cases (eqb_ℤ pl.chunk_index ci && contains unhealthy pl.node_id)) [
        | inr t ↦
            let step : replace_lost be p links key unhealthy fresh ci (pl ∷ pls) f
                ≡ (more >>= λ rest. pure (pl ∷ rest.0, rest.1)) f =
              rw (replace_lost, t) refl in
            let (f₁, rest, e₁, r₁) =
              inversion more (λ rest. pure (pl ∷ rest.0, rest.1)) f f' (pls', d) (sym step ∙ e) in
            let (last, value) =
              pure-ok {E = RepairError} (pl ∷ rest.0, rest.1) (pls', d) f₁ f' r₁ in
            let (store, ih, clean) = replace_lost-moved fresh ci pls rest.0 rest.1 f f₁ sel e₁ in
            (
              ap (λ x. x.store) last ∙ store,
              ap (λ r. r.0) value ∙ rw (t, ih) refl,
              λ z. ap (λ r. r.0) value ∙ ap (◌∷◌ pl) (clean (ap (λ r. r.1) (sym value) ∙ z)),
            )
        | inl t ↦
            let next = λ (placed : ShardPlacement). more >>= λ rest. pure (placed ∷ rest.0, true) in
            let step : replace_lost be p links key unhealthy fresh ci (pl ∷ pls) f
                ≡ (replace_one be p links key unhealthy fresh pl >>= next) f =
              rw (replace_lost, t) refl in
            let (f₁, placed, e₁, r₁) =
              inversion (replace_one be p links key unhealthy fresh pl) next f f' (pls', d)
                (sym step ∙ e) in
            let (f₂, rest, e₂, r₂) =
              inversion more (λ rest. pure (placed ∷ rest.0, true)) f₁ f' (pls', d) r₁ in
            let (last, value) =
              pure-ok {E = RepairError} (placed ∷ rest.0, true) (pls', d) f₂ f' r₂ in
            let (store₁, _, one) =
              replace_one-ok be p links key unhealthy fresh pl placed f f₁ node sel e₁ in
            let sel₁ : Selects f₁ =
              subst (λ s. select_placement_nodes be s (pos 1) (pos 0) ≡ ok (node ∷ [])) (sym store₁)
                sel in
            let (store₂, ih, _) = replace_lost-moved fresh ci pls rest.0 rest.1 f₁ f₂ sel₁ e₂ in
            (
              ap (λ x. x.store) last ∙ store₂ ∙ store₁,
              ap (λ r. r.0) value ∙ rw (t, ih, one) refl,
              λ z. absurd (ground (arith, z, ap (λ r. r.1) value)),
            )
      ]

  -- What the loop over the chunks `cis` does to a placement.
  abbrev pub passed : List ShardPlacement → List ℤ → ShardPlacement → ShardPlacement
  passed placements [] pl = pl
  passed placements (ci ∷ cis) pl =
      passed placements cis
        (if any_lost unhealthy (group ci placements) then moved unhealthy node ci pl else pl)

  map-map :
      (f g : ShardPlacement → ShardPlacement) (xs : List ShardPlacement)
      → map f (map g xs) ≡ map (λ x. f (g x)) xs
  map-map f g [] = refl
  map-map f g (x ∷ xs) = ap (f (g x) ∷◌) (map-map f g xs)

  map_id : (xs : List ShardPlacement) → map (λ x. x) xs ≡ xs
  map_id [] = refl
  map_id (x ∷ xs) = ap (x ∷◌) (map_id xs)

  map_cong :
      (f g : ShardPlacement → ShardPlacement) (xs : List ShardPlacement)
      → ((x : ShardPlacement) → f x ≡ g x)
      → map f xs ≡ map g xs
  map_cong f g [] h = refl
  map_cong f g (x ∷ xs) h = rw (h x, map_cong f g xs h) refl

  passed_on :
      (placements : List ShardPlacement) (ci : ℤ) (cis : List ℤ) (b : Bool)
      (xs : List ShardPlacement)
      → any_lost unhealthy (group ci placements) ≡ b
      → map (passed placements (ci ∷ cis)) xs
        ≡ map (λ x. passed placements cis (if b then moved unhealthy node ci x else x)) xs
  passed_on placements ci cis b xs t =
      map_cong (passed placements (ci ∷ cis))
        (λ x. passed placements cis (if b then moved unhealthy node ci x else x)) xs
        (λ x. ap (λ c. passed placements cis (if c then moved unhealthy node ci x else x)) t)

  pub repair_chunks-passed :
      (enc : Encoder) (healthy : List NodeMetadata) (placements : List ShardPlacement)
      (cis : List ℤ) (updated pls' : List ShardPlacement) (dirty d : Bool) (f f' : Field B W)
      → Selects f
      → repair_chunks be p links key unhealthy enc healthy placements cis updated dirty f
        ≡ (f', ok (pls', d))
      → (f'.store ≡ f.store)
        × (pls' ≡ map (passed placements cis) updated)
        × (d ≡ false → (pls' ≡ updated) × (dirty ≡ false))
  unfolding repair_chunks
  repair_chunks-passed enc healthy placements [] updated pls' dirty d f f' sel e =
      let (same, value) = pure-ok {E = RepairError} (updated, dirty) (pls', d) f f' e in
      (
        ap (λ x. x.store) same,
        ap (λ r. r.0) value ∙ sym (map_id updated),
        λ z. (ap (λ r. r.0) value, ap (λ r. r.1) (sym value) ∙ z),
      )
  repair_chunks-passed enc healthy placements (ci ∷ cis) updated pls' dirty d f f' sel e =
      elim (Bool-cases (any_lost unhealthy (group ci placements))) [
        | inr t ↦
            let step : repair_chunks be p links key unhealthy enc healthy placements (ci ∷ cis)
                  updated dirty f
                ≡ repair_chunks be p links key unhealthy enc healthy placements cis updated dirty
                    f =
              rw (repair_chunks, t) refl in
            let (store, ih, clean) =
              repair_chunks-passed enc healthy placements cis updated pls' dirty d f f' sel
                (sym step ∙ e) in
            (store, ih ∙ sym (passed_on placements ci cis false updated t), clean)
        | inl t ↦
            let go = λ (r : List ShardPlacement × Bool).
              repair_chunks be p links key unhealthy enc healthy placements cis r.0
                (r.1 || dirty) in
            let put = λ (fresh : List Shard).
              replace_lost be p links key unhealthy fresh ci updated >>= go in
            let build = rebuild_chunk be p links key unhealthy enc healthy (group ci placements) in
            let step : repair_chunks be p links key unhealthy enc healthy placements (ci ∷ cis)
                  updated dirty f
                ≡ (build >>= put) f =
              rw (repair_chunks, t) refl in
            let (f₁, fresh, e₁, r₁) = inversion build put f f' (pls', d) (sym step ∙ e) in
            let (f₂, r, e₂, r₂) =
              inversion (replace_lost be p links key unhealthy fresh ci updated) go f₁ f' (pls', d)
                r₁ in
            let (store₁, _) =
              rebuild_chunk-Same be p links key unhealthy enc healthy (group ci placements) f f₁
                fresh e₁ in
            let sel₁ : Selects f₁ =
              subst (λ s. select_placement_nodes be s (pos 1) (pos 0) ≡ ok (node ∷ [])) (sym store₁)
                sel in
            let (store₂, placed, clean₁) =
              replace_lost-moved fresh ci updated r.0 r.1 f₁ f₂ sel₁ e₂ in
            let sel₂ : Selects f₂ =
              subst (λ s. select_placement_nodes be s (pos 1) (pos 0) ≡ ok (node ∷ [])) (sym store₂)
                sel₁ in
            let (store₃, ih, clean₂) =
              repair_chunks-passed enc healthy placements cis r.0 pls' (r.1 || dirty) d f₂ f' sel₂
                r₂ in
            (
              store₃ ∙ store₂ ∙ store₁,
              ih
                  ∙ ap (map (passed placements cis)) placed
                  ∙ map-map (passed placements cis) (moved unhealthy node ci) updated
                  ∙ sym (passed_on placements ci cis true updated t),
              λ z.
                  let (kept, both) = clean₂ z in
                  (kept ∙ clean₁ (ground (arith, both)), ground (arith, both)),
            )
      ]

  -- A placement that is not lost stays, and one that has moved moves no more.
  pub passed_sound :
      (placements : List ShardPlacement) (cis : List ℤ) (pl : ShardPlacement)
      → contains unhealthy pl.node_id ≡ false
      → passed placements cis pl ≡ pl
  passed_sound placements [] pl h = refl
  passed_sound placements (ci ∷ cis) pl h =
      let same : moved unhealthy node ci pl ≡ pl = ground (arith, h) in
      elim (Bool-cases (any_lost unhealthy (group ci placements))) [
        | inl t ↦
            rw (passed, t) (ap (passed placements cis) same ∙ passed_sound placements cis pl h)
        | inr t ↦ rw (passed, t) (passed_sound placements cis pl h)
      ]

  moved_again :
      (ci : ℤ) (pl : ShardPlacement)
      → moved unhealthy node ci (record pl { node_id = node.node_id })
        ≡ record pl { node_id = node.node_id }
  moved_again ci pl =
      elim (Bool-cases (eqb_ℤ pl.chunk_index ci && contains unhealthy node.node_id)) [
        | inl t ↦ rw t refl
        | inr t ↦ rw t refl
      ]

  passed-moved :
      (placements : List ShardPlacement) (cis : List ℤ) (pl : ShardPlacement)
      → passed placements cis (record pl { node_id = node.node_id })
        ≡ record pl { node_id = node.node_id }
  passed-moved placements [] pl = refl
  passed-moved placements (ci ∷ cis) pl =
      elim (Bool-cases (any_lost unhealthy (group ci placements))) [
        | inl t ↦
            rw (passed, t)
              (ap (passed placements cis) (moved_again ci pl) ∙ passed-moved placements cis pl)
        | inr t ↦ rw (passed, t) (passed-moved placements cis pl)
      ]

  pub passed-lost :
      (placements : List ShardPlacement) (cis : List ℤ) (pl : ShardPlacement)
      → contains unhealthy pl.node_id ≡ true
      → is_in pl.chunk_index cis ≡ true
      → any_lost unhealthy (group pl.chunk_index placements) ≡ true
      → passed placements cis pl ≡ record pl { node_id = node.node_id }
  passed-lost placements [] pl lost here any = absurd (ground (arith, here))
  passed-lost placements (ci ∷ cis) pl lost here any = elim (Bool-cases (eqb_ℤ pl.chunk_index ci)) [
    | inl t ↦
        let at : pl.chunk_index ≡ ci = ground (arith, t) in
        let any' : any_lost unhealthy (group ci placements) ≡ true =
          subst (λ c. any_lost unhealthy (group c placements) ≡ true) at any in
        let goes : moved unhealthy node ci pl ≡ record pl { node_id = node.node_id } =
          rw (t, lost) refl in
        rw (passed, any') (ap (passed placements cis) goes ∙ passed-moved placements cis pl)
    | inr t ↦
        let later : is_in pl.chunk_index cis ≡ true = ground (arith, here, t) in
        let stays : moved unhealthy node ci pl ≡ pl = rw t refl in
        let rest = passed-lost placements cis pl lost later any in
        elim (Bool-cases (any_lost unhealthy (group ci placements))) [
          | inl u ↦ rw (passed, u) (ap (passed placements cis) stays ∙ rest)
          | inr u ↦ rw (passed, u) rest
        ]
  ]
