-- ===== src/ShardServer/Quota.antt =====
-- The storage quota of cmd/noded/server.go: the sizes of the stored shards, and that no request
-- takes their sum beyond the allocation.
use aldea.Prelude.{
  ℕ, ◌+◌, ◌^◌, ◌≤◌, ◌<◌, ◌≡◌, refl, ap, sym, ◌∙◌, inl, inr, String, Option, none, some, [], ◌∷◌,
  arith, length, ok, Result-cases, Option-cases,
}
use aldea.Prelude.Int.{ℤ, pos, add64_small}
use aldea.Prelude.Dict.{
  Dict, IsDict, lookup, insert, erase, lookup-insert, lookup-erase_ne, lookup-erase_self,
  insert-IsDict, erase-IsDict,
}
use aldea.Prelude.Text.{str_eq_iff, str_eq_refl}
use aldea.Config.{NodeConfig}
use aldea.Protocol.{MessageEnvelope, PutShardRequest, decode, unmarshal_body}
use aldea.ShardServer.{Bytes, Platform, sum_sizes, storage_used, key, accept_put, handle_put}

-- The bytes of all shards.
unfoldable pub total : Dict Bytes → ℕ
total [] = 0
total ((_, v) ∷ m) = length v + total m

total-erase :
    (k : String) (v : Bytes) (m : Dict Bytes)
    → lookup k m ≡ some v
    → total m ≡ length v + total (erase k m)
unfolding total lookup erase
total-erase k v [] e = cc
total-erase k v ((j, w) ∷ m) e = ground (arith, total-erase k v m, str_eq_iff k j)

total-ext :
    (m m' : Dict Bytes)
    → IsDict m
    → IsDict m'
    → ((j : String) → lookup j m ≡ lookup j m')
    → total m ≡ total m'
unfolding total lookup
total-ext [] [] d d' h = refl
total-ext [] ((k, v) ∷ m') d d' h = ground (arith, h k, str_eq_refl k)
total-ext ((k, v) ∷ m) m' d d' h =
    let here : lookup k m' ≡ some v = ground (arith, h k, str_eq_refl k) in
    omega (arith, total-erase k v m' here, total-ext m (erase k m') d.1 (erase-IsDict k m' d') rest)
  where
    rest : (j : String) → lookup j m ≡ lookup j (erase k m')
    rest j = elim (str_eq_iff j k) [
      | inl (t, e) ↦
          ap (λ x. lookup x m) e
          ∙ d.0
          ∙ sym (ap (λ x. lookup x (erase k m')) e ∙ lookup-erase_self k m' d')
      | inr (t, e) ↦ ground (arith, h j, lookup-erase_ne j k m' e)
    ]

total-insert : (k : String) (v : Bytes) (m : Dict Bytes) → total (insert k v m) ≤ total m + length v
unfolding total insert
total-insert k v [] = omega arith
total-insert k v ((j, w) ∷ m) = ground (arith, total-insert k v m)

sum_sizes-total :
    (a : ℕ) (m : Dict Bytes) → a + total m < 2 ^ 63 → sum_sizes (pos a) m ≡ pos (a + total m)
unfolding total sum_sizes
sum_sizes-total a [] h = ap pos (omega arith)
sum_sizes-total a ((k, v) ∷ m) h =
    rw (add64_small a (length v) (omega arith))
      (sum_sizes-total (a + length v) m (omega arith) ∙ ap pos (omega arith))

module _ {B : Type 0} (p : Platform B) (cfg : NodeConfig) where
  open p use {bucket, put_requests}

  -- The bytes that the node stores.
  unfoldable pub stored : B → ℕ
  stored db = total (bucket.entries db)

  -- `storageUsed` is that number, as long as it is an `int64`.
  pub storage_used-stored : (db : B) → stored db < 2 ^ 63 → storage_used p cfg db ≡ pos (stored db)
  unfolding storage_used stored
  storage_used-stored db h =
      sum_sizes-total 0 (bucket.entries db) (omega arith) ∙ ap pos (omega arith)

  stored-put :
      (db db' : B) (k : String) (v : Bytes)
      → bucket.put db k v ≡ some db'
      → stored db' ≤ stored db + length v
  unfolding stored
  stored-put db db' k v e =
      let m = bucket.entries db in
      omega (
        arith,
        total-insert k v m,
        total-ext (bucket.entries db') (insert k v m) (bucket.entries-IsDict db')
            (insert-IsDict k v m (bucket.entries-IsDict db))
            (λ j. ground (
              arith,
              bucket.lookup-entries db' j,
              bucket.get-put db db' k j v e,
              lookup-insert j k v m,
              bucket.lookup-entries db j,
            )),
      )

  accept_put-quota :
      (a : ℕ) (now : ℤ) (env : MessageEnvelope) (db : B)
      → cfg.storage_allocated ≡ pos a
      → a < 2 ^ 62
      → ((req : PutShardRequest)
          → unmarshal_body put_requests env ≡ ok req
          → length req.content < 2 ^ 62)
      → stored db ≤ a
      → stored (accept_put p cfg now env db).0 ≤ a
  unfolding accept_put
  accept_put-quota a now env db alloc small short h =
      elim (Result-cases (unmarshal_body put_requests env)) [
        | inr (x, u) ↦ ground (arith, u)
        | inl (req, u) ↦ elim (Option-cases (bucket.put db req.shard_id req.content)) [
          | inl n ↦ ground (arith, u, n)
          | inr (db', n) ↦
              let fits = short req u in
              let used = storage_used-stored db (omega arith) in
              let sum = add64_small (stored db) (length req.content) (omega (arith, fits)) in
              ground (arith, u, n, used, sum, stored-put db db' req.shard_id req.content n)
        ]
      ]

  -- No request to store a shard, authentic or not, takes the stored bytes from within the allocation
  -- beyond it, given that the allocation and the content in the request are below 2^62 bytes.
  pub handle_put-quota :
      (a : ℕ) (now : ℤ) (body : Option Bytes) (db : B)
      → cfg.storage_allocated ≡ pos a
      → a < 2 ^ 62
      → ((raw : Bytes) (env : MessageEnvelope) (req : PutShardRequest)
          → body ≡ some raw
          → decode p.hmac p.envelopes raw (key p cfg) ≡ ok env
          → unmarshal_body put_requests env ≡ ok req
          → length req.content < 2 ^ 62)
      → stored db ≤ a
      → stored (handle_put p cfg now body db).0 ≤ a
  unfolding handle_put
  handle_put-quota a now none db alloc small short h = h
  handle_put-quota a now (some body) db alloc small short h =
      elim (Result-cases (decode p.hmac p.envelopes body (key p cfg))) [
        | inr (x, d) ↦ ground (arith, d)
        | inl (env, d) ↦ ground (
          arith,
          d,
          accept_put-quota a now env db alloc small (λ req u. short body env req refl d u) h,
        )
      ]
