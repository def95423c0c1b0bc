-- ===== src/Wizard/Written.antt =====
-- What internal/config/init.go has written when it succeeds.
use Prim.Native.String.{◌++◌ as str_append}
use aldea.Prelude.{
  ℕ, ◌*◌, ◌/◌, ◌%◌, ◌≡◌, ◌<◌, refl, sym, ap, subst, ◌∙◌, Bool, true, false, String, Option, none,
  some, [], ◌∷◌, ok, arith, if◌then◌else◌, Bool-cases, inl, inr, length, length-append,
  length-replicate, ltb, ◌==◌ as nat_eq,
}
use aldea.Prelude.Int.{ℤ, pos, leb_ℤ}
use aldea.Prelude.Text.{str_eq, str_eq_iff, utf8, utf8-append, hex_text, hex_digit, digit, joined}
use aldea.Prelude.Eff.{Eff, fail, inversion, pure-ok, pure, ◌>>=◌, ◌>>◌}
use aldea.Client.{Bytes}
use aldea.Client.Upload.{bytes_or_zero}
use aldea.Config.{NodeConfig, validate_node, load_node_config}
use aldea.Wizard.{
  Machine, WizardError, or_default, or_generated, succeed, mkdir_failed, marshal_failed,
  write_failed, generate_random_key, save_yaml, init_node_config,
}

abbrev IsFilled : String → Type 0
IsFilled s = 0 < length (utf8 s)

filled_not_empty : (s : String) → IsFilled s → str_eq s "" ≡ false
unfolding utf8
filled_not_empty s h = elim (str_eq_iff s "") [
  | inl (t, e) ↦ absurd (ground (arith, ap (λ x. length (utf8 x)) e))
  | inr (t, e) ↦ t
]

IsFilled-append : (s t : String) → IsFilled s → IsFilled (str_append s t)
IsFilled-append s t h = omega (arith, ap length (utf8-append s t), length-append (utf8 s) (utf8 t))

IsFilled-if : (b : Bool) (s t : String) → IsFilled s → IsFilled t → IsFilled (if b then s else t)
IsFilled-if true s t h k = h
IsFilled-if false s t h k = k

digit-IsFilled : (n : ℕ) → IsFilled (digit n)
unfolding utf8
digit-IsFilled n =
    IsFilled-if (nat_eq n 0) "0"
      (if nat_eq n 1
        then "1"
        else (if nat_eq n 2
            then "2"
            else (if nat_eq n 3
                then "3"
                else (if nat_eq n 4
                    then "4"
                    else (if nat_eq n 5
                        then "5"
                        else (if nat_eq n 6
                            then "6"
                            else (if nat_eq n 7
                                then "7"
                                else (if nat_eq n 8 then "8" else "9"))))))))
      (omega arith)
      (IsFilled-if (nat_eq n 1) "1"
        (if nat_eq n 2
          then "2"
          else (if nat_eq n 3
              then "3"
              else (if nat_eq n 4
                  then "4"
                  else (if nat_eq n 5
                      then "5"
                      else (if nat_eq n 6
                          then "6"
                          else (if nat_eq n 7 then "7" else (if nat_eq n 8 then "8" else "9")))))))
        (omega arith)
        (IsFilled-if (nat_eq n 2) "2"
          (if nat_eq n 3
            then "3"
            else (if nat_eq n 4
                then "4"
                else (if nat_eq n 5
                    then "5"
                    else (if nat_eq n 6
                        then "6"
                        else (if nat_eq n 7 then "7" else (if nat_eq n 8 then "8" else "9"))))))
          (omega arith)
          (IsFilled-if (nat_eq n 3) "3"
            (if nat_eq n 4
              then "4"
              else (if nat_eq n 5
                  then "5"
                  else (if nat_eq n 6
                      then "6"
                      else (if nat_eq n 7 then "7" else (if nat_eq n 8 then "8" else "9")))))
            (omega arith)
            (IsFilled-if (nat_eq n 4) "4"
              (if nat_eq n 5
                then "5"
                else (if nat_eq n 6
                    then "6"
                    else (if nat_eq n 7 then "7" else (if nat_eq n 8 then "8" else "9"))))
              (omega arith)
              (IsFilled-if (nat_eq n 5) "5"
                (if nat_eq n 6
                  then "6"
                  else (if nat_eq n 7 then "7" else (if nat_eq n 8 then "8" else "9")))
                (omega arith)
                (IsFilled-if (nat_eq n 6) "6"
                  (if nat_eq n 7 then "7" else (if nat_eq n 8 then "8" else "9")) (omega arith)
                  (IsFilled-if (nat_eq n 7) "7" (if nat_eq n 8 then "8" else "9") (omega arith)
                    (IsFilled-if (nat_eq n 8) "8" "9" (omega arith) (omega arith)))))))))

hex_digit-IsFilled : (n : ℕ) → IsFilled (hex_digit n)
unfolding utf8
hex_digit-IsFilled n =
    IsFilled-if (ltb n 10) (digit n)
      (if nat_eq n 10
        then "a"
        else (if nat_eq n 11
            then "b"
            else (if nat_eq n 12
                then "c"
                else (if nat_eq n 13 then "d" else (if nat_eq n 14 then "e" else "f")))))
      (digit-IsFilled n)
      (IsFilled-if (nat_eq n 10) "a"
        (if nat_eq n 11
          then "b"
          else (if nat_eq n 12
              then "c"
              else (if nat_eq n 13 then "d" else (if nat_eq n 14 then "e" else "f"))))
        (omega arith)
        (IsFilled-if (nat_eq n 11) "b"
          (if nat_eq n 12
            then "c"
            else (if nat_eq n 13 then "d" else (if nat_eq n 14 then "e" else "f")))
          (omega arith)
          (IsFilled-if (nat_eq n 12) "c"
            (if nat_eq n 13 then "d" else (if nat_eq n 14 then "e" else "f")) (omega arith)
            (IsFilled-if (nat_eq n 13) "d" (if nat_eq n 14 then "e" else "f") (omega arith)
              (IsFilled-if (nat_eq n 14) "e" "f" (omega arith) (omega arith))))))

hex_text-IsFilled : (b : Bytes) → 0 < length b → IsFilled (hex_text b)
unfolding hex_text
hex_text-IsFilled [] h = absurd (omega arith)
hex_text-IsFilled (b ∷ rest) h =
    IsFilled-append (hex_digit (b / 16)) (str_append (hex_digit (b % 16)) (hex_text rest))
      (hex_digit-IsFilled (b / 16))

node-IsFilled : IsFilled "node-"
unfolding utf8
node-IsFilled = omega arith

or_default_filled :
    (given default : String)
    → str_eq default "" ≡ false
    → str_eq (or_default given default) "" ≡ false
or_default_filled given default h = elim (Bool-cases (str_eq given "")) [
  | inl t ↦ rw t h
  | inr t ↦ rw t t
]

module _ {W D : Type 0} (m : Machine W D)
    (reads : (n : ℕ) (w : W) (b : Bytes) → (m.random n w).1 ≡ some b → length b ≡ n) where
  length-bytes_or_zero :
      (n : ℕ) (o : Option Bytes)
      → ((b : Bytes) → o ≡ some b → length b ≡ n)
      → length (bytes_or_zero n o) ≡ n
  length-bytes_or_zero n none h = length-replicate n 0
  length-bytes_or_zero n (some b) h = h b refl

  generate_random_key-IsFilled :
      (n : ℕ) (w w' : W) (k : String) → 0 < n → generate_random_key m n w ≡ (w', ok k) → IsFilled k
  unfolding generate_random_key
  generate_random_key-IsFilled n w w' k z e =
      let b = bytes_or_zero n (m.random n w).1 in
      let (_, made) = pure-ok {E = WizardError} (hex_text b) k (m.random n w).0 w' e in
      let full : 0 < length b = rw (length-bytes_or_zero n (m.random n w).1 (reads n w)) z in
      subst IsFilled (sym made) (hex_text-IsFilled b full)

  -- A value that is given or generated is not empty.
  or_generated_filled :
      (given : String) (make : Eff W WizardError String) (w w' : W) (k : String)
      → ((v : W) (s : String) → make w ≡ (v, ok s) → IsFilled s)
      → or_generated m given make w ≡ (w', ok k)
      → str_eq k "" ≡ false
  or_generated_filled given make w w' k h e = elim (Bool-cases (str_eq given "")) [
    | inl t ↦
        let made : make w ≡ (w', ok k) =
          subst (λ b. (if b then make else pure given) w ≡ (w', ok k)) t e in
        filled_not_empty k (h w' k made)
    | inr t ↦
        let kept : pure {E = WizardError} given w ≡ (w', ok k) =
          subst (λ b. (if b then make else pure given) w ≡ (w', ok k)) t e in
        let (_, same) = pure-ok {E = WizardError} given k w w' kept in rw same t
  ]

  succeed-ok :
      (x : WizardError) (r : W × Bool) (w' : W) → succeed m x r ≡ (w', ok tt) → r ≡ (w', true)
  succeed-ok x (w, true) w' e = ap (λ v. (v.0, true)) e
  succeed-ok x (w, false) w' e = absurd (ground (arith, e))

  save_yaml-ok :
      (path : String) (made : Option D) (w w' : W)
      → save_yaml m path made w ≡ (w', ok tt)
      → (doc : D) × (v : W) × (made ≡ some doc) × (m.write_file path doc v ≡ (w', true))
  unfolding save_yaml
  save_yaml-ok path none w w' e =
      let mkdir = λ (v : W). succeed m mkdir_failed (m.mkdir_for path v) in
      let (_, _, _, f) = inversion mkdir (λ _. fail {A = Unit {0}} marshal_failed) w w' tt e in
      absurd (ground (arith, f))
  save_yaml-ok path (some doc) w w' e =
      let mkdir = λ (v : W). succeed m mkdir_failed (m.mkdir_for path v) in
      let write = λ (v : W). succeed m write_failed (m.write_file path doc v) in
      let (v, _, _, f) = inversion mkdir (λ _. write) w w' tt e in
      (doc, v, refl, succeed-ok write_failed (m.write_file path doc v) w' f)

  -- When `InitNodeConfig` succeeds, with whatever arguments, it has written a document, and the document, loaded, passes the
  -- validation and is the configuration that it returns.
  pub load-init_node_config :
      (unmarshal : D → Option NodeConfig)
      (path node_id listen_addr data_dir tracker_addr network_key : String) (alloc_bytes : ℤ)
      (w w' : W) (cfg : NodeConfig)
      → ((c : NodeConfig) (d : D) → m.node_yaml c ≡ some d → unmarshal d ≡ some c)
      → init_node_config m path node_id listen_addr data_dir tracker_addr alloc_bytes network_key w
        ≡ (w', ok cfg)
      → (doc : D) × (v : W) × (m.write_file path doc v ≡ (w', true))
        × (load_node_config unmarshal (some doc) ≡ ok cfg)
  unfolding init_node_config load_node_config validate_node
  load-init_node_config unmarshal path node_id listen_addr data_dir tracker_addr network_key
        alloc_bytes w w' cfg back e =
      let named = λ (k : String). pure {W = W} {E = WizardError} (joined ("node-" ∷ k ∷ [])) in
      let make_id = generate_random_key m 4 >>= named in
      let config = λ (key id : String).
        node_of id (or_default listen_addr "0.0.0.0:9001") (or_default data_dir "./data") key in
      let save = λ (key id : String).
        save_yaml m path (m.node_yaml (config key id)) >> pure (config key id) in
      let with_key = λ (key : String). or_generated m node_id make_id >>= save key in
      let (w₁, key, e₁, r₁) =
        inversion (or_generated m network_key (generate_random_key m 16)) with_key w w' cfg e in
      let (w₂, id, e₂, r₂) = inversion (or_generated m node_id make_id) (save key) w₁ w' cfg r₁ in
      let (w₃, _, e₃, r₃) =
        inversion (save_yaml m path (m.node_yaml (config key id))) (λ _. pure (config key id)) w₂ w'
          cfg r₂ in
      let (same, made) = pure-ok {E = WizardError} (config key id) cfg w₃ w' r₃ in
      let (doc, v, marshalled, wrote) = save_yaml-ok path (m.node_yaml (config key id)) w₂ w₃ e₃ in
      let key_full =
        or_generated_filled network_key (generate_random_key m 16) w w₁ key
          (λ v s g. generate_random_key-IsFilled 16 w v s (omega arith) g) e₁ in
      let id_full = or_generated_filled node_id make_id w₁ w₂ id (λ v s g. id_filled w₁ v s g) e₂ in
      let listen_full = or_default_filled listen_addr "0.0.0.0:9001" refl in
      let dir_full = or_default_filled data_dir "./data" refl in
      (
        doc,
        v,
        wrote ∙ ap (λ x. (x, true)) (sym same),
        rw (back (config key id) doc marshalled, made, id_full, listen_full, dir_full, key_full)
            refl,
      )
    where
      node_of : String → String → String → String → NodeConfig
      node_of id listen dir key = record {
        node_id = id;
        listen_addr = listen;
        data_dir = dir;
        storage_allocated =
            if leb_ℤ alloc_bytes (pos 0) then pos (10 * 1024 * 1024 * 1024) else alloc_bytes;
        network_key = key;
        tracker_addr = tracker_addr;
      }

      id_filled :
          (x v : W) (s : String)
          → (generate_random_key m 4 >>= λ k. pure (joined ("node-" ∷ k ∷ []))) x ≡ (v, ok s)
          → IsFilled s
      id_filled x v s g =
          let (y, k, _, h) =
            inversion (generate_random_key m 4) (λ k. pure (joined ("node-" ∷ k ∷ []))) x v s g in
          let (_, made) = pure-ok {E = WizardError} (joined ("node-" ∷ k ∷ [])) s y v h in
          subst IsFilled (sym made) (IsFilled-append "node-" (joined (k ∷ [])) node-IsFilled)
