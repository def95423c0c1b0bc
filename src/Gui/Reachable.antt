-- ===== src/Gui/Reachable.antt =====
-- The states that the desktop application (gui/app.go) reaches, as a step relation.
use aldea.Prelude.{
  ◌≡◌, refl, sym, subst, ◌⊎◌, inl, inr, Bool, true, false, String, Option, none, some, Result-cases,
  Bool-cases, All, All-append, ok, arith,
}
use aldea.Prelude.Int.{ℤ, pos, ltb_ℤ, leb_ℤ}
use aldea.Prelude.Eff.{inversion, pure-ok, pure, ◌>>=◌}
use aldea.Backend.{Codec, Base64}
use aldea.Invite.{InviteToken, new_token_manager, validate_and_use}
use aldea.Client.{Bytes, Platform}
use aldea.Gui.{
  App, GuiError, System, new_app, create_network, join_network, pause_node, set_storage_allocation,
  upload_size, upload_file, store_file, with_file, reading_clock,
}

upload_size_pos : (size : ℤ) → ltb_ℤ (pos 0) (upload_size size) ≡ true
unfolding upload_size
upload_size_pos size = ground arith

module _ (hmac : Bytes → Bytes → Bytes) (base64 : Base64) (tokens : Codec InviteToken Bytes)
    {W : Type 0} (p : Platform) (sys : System W) where
  -- What the window can have happen. An upload that fails leaves the application as it is.
  pub data Step : App → App → Type 0 where
    creates :
        {a : App} (net_key : Option Bytes) (random_id : Option String) (now : ℤ) (addr : String)
        → Step a (create_network hmac base64 tokens net_key random_id now addr a).0
    joins :
        {a : App} (now : ℤ) (token : Bytes) → Step a (join_network hmac base64 tokens now token a).0
    pauses : {a : App} (paused : Bool) → Step a (pause_node paused a)
    allocates : {a : App} (allocated : ℤ) → Step a (set_storage_allocation allocated a).0
    uploads :
        {a a' : App} (name : String) (size : ℤ) (w w' : W)
        → upload_file p sys name size a w ≡ (w', ok a')
        → Step a a'

  pub data Reaches : App → App → Type 0 where
    here : {a : App} → Reaches a a
    after : {a b c : App} → Reaches a b → Step b c → Reaches a c

  -- The allocation and the sizes of the files are above zero, and an application has a node's name
  -- exactly when it is configured.
  pub record IsSane (a : App) : Type 0 where
    pub allocation : ltb_ℤ (pos 0) a.storage_alloc ≡ true
    pub sizes : All (λ f. ltb_ℤ (pos 0) f.size ≡ true) a.files
    pub named :
        (a.configured ≡ false) × (a.node_id ≡ "")
        ⊎ (a.configured ≡ true) × ((a.node_id ≡ "node-gui-owner") ⊎ (a.node_id ≡ "node-gui-member"))

  named_configured :
      (a b : App)
      → IsSane a
      → b.storage_alloc ≡ a.storage_alloc
      → b.files ≡ a.files
      → b.configured ≡ true
      → (b.node_id ≡ "node-gui-owner") ⊎ (b.node_id ≡ "node-gui-member")
      → IsSane b
  named_configured a b h s f c n = record {
    allocation = rw s h.allocation;
    sizes = rw f h.sizes;
    named = inr (c, n);
  }

  create_network-IsSane :
      (net_key : Option Bytes) (random_id : Option String) (now : ℤ) (addr : String) (a : App)
      → IsSane a
      → IsSane (create_network hmac base64 tokens net_key random_id now addr a).0
  unfolding create_network
  create_network-IsSane none random_id now addr a h = h
  create_network-IsSane (some k) random_id now addr a h =
      named_configured a _ h refl refl refl (inl refl)

  join_network-IsSane :
      (now : ℤ) (token : Bytes) (a : App)
      → IsSane a
      → IsSane (join_network hmac base64 tokens now token a).0
  unfolding join_network
  join_network-IsSane now token a h =
      elim (Result-cases
        (validate_and_use hmac base64 tokens (new_token_manager a.signing_key) now token).1) [
          | inl (tok, e) ↦ rw (join_network, e) (named_configured a _ h refl refl refl (inr refl))
          | inr (x, e) ↦ rw (join_network, e) h
        ]

  set_storage_allocation-IsSane :
      (n : ℤ) (a : App) → IsSane a → IsSane (set_storage_allocation n a).0
  unfolding set_storage_allocation
  set_storage_allocation-IsSane n a h = elim (Bool-cases (leb_ℤ n (pos 0))) [
    | inl t ↦ rw (set_storage_allocation, t) h
    | inr t ↦
        rw (set_storage_allocation, t)
          (record { allocation = ground (arith, t); sizes = h.sizes; named = h.named })
  ]

  upload_file-IsSane :
      (name : String) (size : ℤ) (a b : App) (w w' : W)
      → upload_file p sys name size a w ≡ (w', ok b)
      → IsSane a
      → IsSane b
  unfolding upload_file
  upload_file-IsSane name size a b w w' e h =
      let add = λ (id : String) (now : ℤ).
        pure {W = W} {E = GuiError} (with_file p sys a id name (upload_size size) now) in
      let timed = λ (id : String). reading_clock p sys >>= add id in
      let (w₁, id, _, r₁) =
        inversion (store_file p sys (upload_size size) a.network_key) timed w w' b e in
      let (w₂, now, _, r₂) = inversion (reading_clock p sys) (add id) w₁ w' b r₁ in
      let (_, added) =
        pure-ok {E = GuiError} (with_file p sys a id name (upload_size size) now) b w₂ w' r₂ in
      subst IsSane (sym added) (record {
        allocation = h.allocation;
        sizes =
            All-append (λ f. ltb_ℤ (pos 0) f.size ≡ true) a.files _ h.sizes
              (upload_size_pos size, tt);
        named = h.named;
      })

  Step-IsSane : (a b : App) → Step a b → IsSane a → IsSane b
  unfolding pause_node
  Step-IsSane a b (creates k i now addr) h = create_network-IsSane k i now addr a h
  Step-IsSane a b (joins now token) h = join_network-IsSane now token a h
  Step-IsSane a b (pauses x) h = record {
    allocation = h.allocation;
    sizes = h.sizes;
    named = h.named;
  }
  Step-IsSane a b (allocates n) h = set_storage_allocation-IsSane n a h
  Step-IsSane a b (uploads name size w w' e) h = upload_file-IsSane name size a b w w' e h

  Reaches-IsSane : (a b : App) → Reaches a b → IsSane a → IsSane b
  Reaches-IsSane a b here h = h
  Reaches-IsSane a b (after {b = m} r s) h = Step-IsSane m b s (Reaches-IsSane a m r h)

  -- Whatever the window has had happen since the start, in any order and with any outcome: the allocation and the
  -- sizes of the files are above zero, and the application has a node's name exactly when it is
  -- configured.
  pub reached-IsSane :
      (signing_key net_key : Bytes) (a : App) → Reaches (new_app signing_key net_key) a → IsSane a
  unfolding new_app
  reached-IsSane signing_key net_key a r =
      Reaches-IsSane (new_app signing_key net_key) a r
        (record { allocation = refl; sizes = tt; named = inl (refl, refl) })
