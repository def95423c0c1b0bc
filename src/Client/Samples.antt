-- ===== src/Client/Samples.antt =====
-- A network in memory for the tests of cmd/aldea: eight nodes, of which any can be down, and a code
-- that keeps eight copies.
use aldea.Prelude.{
  ◌++◌, drop, drop-append, ℕ, zero, suc, sym, subst, ◌∙◌, ◌≤◌, ◌<◌, ◌≡◌, refl, ap, Bool, true,
  false, String, Option, none, some, List, [], ◌∷◌, length, replicate, length-replicate, ok, err,
  All, arith, if◌then◌else◌, ◌==◌, Bool-cases, inl, inr,
}
use aldea.Prelude.Int.{pos}
use aldea.Prelude.Eff.{Eff, pure, fail, pure-ok}
use aldea.Prelude.Text.{str_eq, str_eq_refl}
use aldea.Erasure.{RsEncoder}
use aldea.Crypto.{Aead}
use aldea.Erasure.RoundTrip.{IsReedSolomon, survivors, count_true}
use aldea.Tracker.{NodeMetadata, FileMetadata, ShardPlacement}
use aldea.Client.{Bytes, ClientError, Services, Platform, request_failed, bad_status}
use aldea.Client.Download.{node_by_id}
use aldea.Client.Serving.{IsServing}
use aldea.Client.Network.{View, IsNetwork, with_shard, answer_of}

abbrev first_filled : List Bytes → Bytes
first_filled [] = []
first_filled ([] ∷ rest) = first_filled rest
first_filled ((x ∷ b) ∷ rest) = x ∷ b

abbrev first_of : List Bytes → Option Bytes
first_of [] = none
first_of (b ∷ rest) = some b

-- Every shard is the text.
abbrev pub copies : RsEncoder
copies = record {
  split = λ b. some (b ∷ []);
  encode = λ raw. some (replicate 8 (first_filled raw));
  reconstruct = λ shards. some (replicate 8 (first_filled shards));
  join = λ shards size. first_of shards;
}

first_filled-survivors :
    (flags : List Bool) (n b : ℕ) (text : Bytes)
    → length flags ≡ n
    → 1 ≤ count_true flags
    → first_filled (survivors flags (replicate n (b ∷ text))) ≡ b ∷ text
first_filled-survivors [] n b text l k = absurd (omega arith)
first_filled-survivors (f ∷ flags) zero b text l k = absurd (omega arith)
first_filled-survivors (true ∷ flags) (suc n) b text l k = refl
first_filled-survivors (false ∷ flags) (suc n) b text l k =
    first_filled-survivors flags n b text (omega arith) k

replicate-All : (n b : ℕ) (text : Bytes) → All (λ s. 0 < length s) (replicate n (b ∷ text))
replicate-All zero b text = tt
replicate-All (suc n) b text = (omega arith, replicate-All n b text)

pub copies-IsReedSolomon : IsReedSolomon 4 4 copies
copies-IsReedSolomon = record {
  raw = λ text. text ∷ [];
  shards = λ text. replicate 8 text;
  splits = λ b text. refl;
  encodes = λ b text. refl;
  counted = λ b text. refl;
  filled = λ b text. replicate-All 8 b text;
  restores = λ flags b text n k.
      ap (λ t. some (replicate 8 t)) (first_filled-survivors flags 8 b text n (omega (arith, k)));
  joins = λ b text. refl;
}

abbrev node : String → NodeMetadata
node id = record {
  node_id = id;
  address = id;
  storage_allocated = pos 1000;
  storage_used = pos 0;
  last_seen = pos 0;
  is_healthy = true;
}

abbrev eight : List NodeMetadata
eight = node "a" ∷ node "b" ∷ node "c" ∷ node "d" ∷ node "e" ∷ node "f" ∷ node "g" ∷ node "h" ∷ []

-- The state is the view.
abbrev pub with_nodes : View → View
with_nodes v = record v { nodes = eight }

abbrev pub found_or_not :
    Option (FileMetadata × List ShardPlacement)
    → Eff View ClientError (FileMetadata × List ShardPlacement)
found_or_not none = fail bad_status
found_or_not (some f) = pure f

abbrev pub memory : Services View
memory = record {
  select_nodes = λ n. if n == 8 then pure eight else fail bad_status;
  put_shard = λ n id content v. (with_shard v n.address id content, ok tt);
  save_file_placement = λ f pls v.
      (record v { files = λ id. if str_eq id f.file_id then some (f, pls) else v.files id }, ok tt);
  get_file_placement = λ id v. found_or_not (v.files id) v;
  list_nodes = λ v. (v, ok eight);
  get_shard = λ n id v.
      if v.up n.address then (v, ok (answer_of (v.held n.address id))) else (v, err request_failed);
  random = λ n v. (v, some (replicate n 7));
  clock = λ v. (v, pos 100);
}

eight_known : All (λ x. node_by_id eight x.node_id ≡ some x) eight
unfolding node_by_id
eight_known = (refl, (refl, (refl, (refl, (refl, (refl, (refl, (refl, tt))))))))

selects :
    (n : ℕ) (w w' : View) (nodes : List NodeMetadata)
    → memory.select_nodes n w ≡ (w', ok nodes)
    → (with_nodes w' ≡ with_nodes w)
      × (length nodes ≡ n)
      × All (λ x. node_by_id (with_nodes w).nodes x.node_id ≡ some x) nodes
selects n w w' nodes e = elim (Bool-cases (n == 8)) [
  | inl t ↦
      let chosen : memory.select_nodes n w ≡ (w, ok eight) = rw t refl in
      let (same, all) = pure-ok {E = ClientError} eight nodes w w' (sym chosen ∙ e) in
      let count : n ≡ 8 = ground (arith, t) in
      (
        ap with_nodes same,
        ap length all ∙ sym count,
        subst (λ ns. All (λ x. node_by_id eight x.node_id ≡ some x) ns) (sym all) eight_known,
      )
  | inr f ↦
      let refused : memory.select_nodes n w ≡ (w, err bad_status) = rw f refl in
      absurd (ground (arith, e, refused))
]

gets :
    (n : NodeMetadata) (id : String) (w : View)
    → (w' : View) × (with_nodes w' ≡ with_nodes w)
      × (w.up n.address ≡ true
          → memory.get_shard n id w ≡ (w', ok (answer_of (w.held n.address id))))
      × (w.up n.address ≡ false → (e : ClientError) × (memory.get_shard n id w ≡ (w', err e)))
gets n id w = (w, refl, λ t. rw t refl, λ f. (request_failed, rw f refl))

saves :
    (f : FileMetadata) (pls : List ShardPlacement) (w w' : View)
    → memory.save_file_placement f pls w ≡ (w', ok tt)
    → (w'.held ≡ w.held) × (w'.files f.file_id ≡ some (f, pls))
saves f pls w w' e =
    let same = ap (λ r. r.0) (sym e) in
    (ap (λ v. v.held) same, ap (λ v. v.files f.file_id) same ∙ rw (str_eq_refl f.file_id) refl)

finds :
    (id : String) (w : View) (found : FileMetadata × List ShardPlacement)
    → w.files id ≡ some found
    → memory.get_file_placement id w ≡ (w, ok found)
finds id w found e = ap (λ r. found_or_not r w) e

pub memory-IsNetwork : IsNetwork memory with_nodes
memory-IsNetwork = record {
  selects = selects;
  puts = λ n id content w w' e. ap (λ r. with_nodes r.0) (sym e);
  saves = λ f pls w w' e. let (held, files) = saves f pls w w' e in (refl, held, files);
  gets = gets;
  finds = λ id w found e. (w, refl, finds id w found e);
  lists = λ w. (w, refl, refl);
  randomness = λ n w. (
    refl,
    λ b e.
        let same : b ≡ replicate n 7 = ground (arith, e) in ap length same ∙ length-replicate n 7,
  );
  clocks = λ w. refl;
}

pub unseal-seal_prefix :
    (key drawn plaintext : List ℕ)
    → true ≡ true
    → length drawn ≡ 2
    → some (drop (length key) (key ++ plaintext)) ≡ some plaintext
unseal-seal_prefix key drawn plaintext h n = ap some (drop-append key plaintext)

abbrev pub cipher : Aead
cipher = record {
  accepts_key = λ key. true;
  nonce_size = 2;
  seal = λ key drawn plaintext. key ++ plaintext;
  unseal = λ key drawn sealed. some (drop (length key) sealed);
  unseal-seal = unseal-seal_prefix;
}

abbrev pub platform : Platform
platform = record {
  sha256 = λ b. b;
  argon2 = λ passphrase salt t m n size. passphrase;
  aead = cipher;
  rs_new = λ k m. some copies;
  decode_base64 =
      λ text. some (1 ∷ 2 ∷ 3 ∷ 4 ∷ 5 ∷ 6 ∷ 7 ∷ 8 ∷ 9 ∷ 10 ∷ 11 ∷ 12 ∷ 13 ∷ 14 ∷ 15 ∷ 16 ∷ []);
}

serves :
    (w : View)
    → (w' : View) × (nodes : List NodeMetadata) × (memory.select_nodes 8 w ≡ (w', ok nodes))
      × (length nodes ≡ 8)
serves w = (w, eight, refl, refl)

pub memory-IsServing : IsServing memory 8
memory-IsServing = record {
  selects = serves;
  puts = λ n id content w. (with_shard w n.address id content, refl);
  saves = λ f pls w.
      (record w { files = λ id. if str_eq id f.file_id then some (f, pls) else w.files id }, refl);
  randomness = λ k w. (replicate k 7, refl);
}
