-- ===== src/Client/Network.antt =====
-- What the client relies on of the tracker and the storage nodes: an abstract view of the network,
-- and what the calls do to it. Used by the theorems on cmd/aldea/put.go and get.go.
use aldea.Prelude.{
  ℕ, ◌≡◌, ap, ◌∙◌, Bool, true, false, String, Option, none, some, List, [], length, ok, err, ◌≤◌,
  ◌<◌, ◌≢◌, ◌⊎◌, if◌then◌else◌, All, ◌&&◌, arith,
}
use aldea.Prelude.Int.{pos}
use aldea.Prelude.Text.{str_eq}
use aldea.Tracker.{NodeMetadata, FileMetadata, ShardPlacement}
use aldea.Client.{Bytes, ClientError, Services, shard_id_of}
use aldea.Client.Download.{node_by_id}
use aldea.Client.Ids.{shard_id_of_injective}

-- The nodes and files that the tracker knows, the shards that a node holds, by the node's address
-- and the shard's identifier, and the addresses that answer.
pub record View : Type 0 where
  pub nodes : List NodeMetadata
  pub files : String → Option (FileMetadata × List ShardPlacement)
  pub held : String → String → Option Bytes
  pub up : String → Bool

-- A shard that is not held is answered with nothing.
abbrev pub answer_of : Option Bytes → Bytes
answer_of none = []
answer_of (some b) = b

-- A node accepts a shard.
abbrev pub with_shard : View → String → String → Bytes → View
with_shard v address id content = record v {
  held = λ a i. if str_eq a address && str_eq i id then some content else v.held a i;
}

-- A call that succeeds has done to the view what it is for. The tracker selects, of the nodes it
-- knows, as many as are asked for; a node that is up gives what it holds, and one that is down an
-- error; the tracker answers what it has; the random source gives as many bytes as are read.
pub record IsNetwork {W : Type 0} (s : Services W) (view : W → View) : Type 0 where
  pub selects :
      (n : ℕ) (w w' : W) (nodes : List NodeMetadata)
      → s.select_nodes n w ≡ (w', ok nodes)
      → (view w' ≡ view w)
        × (length nodes ≡ n)
        × All (λ x. node_by_id (view w).nodes x.node_id ≡ some x) nodes
  pub puts :
      (node : NodeMetadata) (id : String) (content : Bytes) (w w' : W)
      → s.put_shard node id content w ≡ (w', ok tt)
      → view w' ≡ with_shard (view w) node.address id content
  pub saves :
      (file : FileMetadata) (placements : List ShardPlacement) (w w' : W)
      → s.save_file_placement file placements w ≡ (w', ok tt)
      → ((view w').nodes ≡ (view w).nodes)
        × ((view w').held ≡ (view w).held)
        × ((view w').files file.file_id ≡ some (file, placements))
  pub gets :
      (node : NodeMetadata) (id : String) (w : W)
      → (w' : W) × (view w' ≡ view w)
        × ((view w).up node.address ≡ true
            → s.get_shard node id w ≡ (w', ok (answer_of ((view w).held node.address id))))
        × ((view w).up node.address ≡ false
            → (e : ClientError) × (s.get_shard node id w ≡ (w', err e)))
  pub finds :
      (file_id : String) (w : W) (found : FileMetadata × List ShardPlacement)
      → (view w).files file_id ≡ some found
      → (w' : W) × (view w' ≡ view w) × (s.get_file_placement file_id w ≡ (w', ok found))
  pub lists : (w : W) → (w' : W) × (view w' ≡ view w) × (s.list_nodes w ≡ (w', ok (view w).nodes))
  pub randomness :
      (n : ℕ) (w : W)
      → (view (s.random n w).0 ≡ view w) × ((b : Bytes) → (s.random n w).1 ≡ some b → length b ≡ n)
  pub clocks : (w : W) → view (s.clock w).0 ≡ view w

module _ (file_id : String) where
  -- An identifier of no shard of the file from shard `i` of chunk `k` on.
  abbrev pub IsBefore : ℕ → ℕ → String → Type 0
  IsBefore k i id = (c j : ℕ) → (k < c) ⊎ (k ≡ c) × (i ≤ j) → id ≢ shard_id_of file_id (pos c) j

  -- The nodes and the shards before shard `i` of chunk `k` are as they were.
  abbrev pub Keeps : ℕ → ℕ → View → View → Type 0
  Keeps k i v v' =
      (v'.nodes ≡ v.nodes) × ((a id : String) → IsBefore k i id → v'.held a id ≡ v.held a id)

  pub Keeps-refl : (k i : ℕ) (v v' : View) → v' ≡ v → Keeps k i v v'
  Keeps-refl k i v v' e = (ap (λ x. x.nodes) e, λ a id h. ap (λ x. x.held a id) e)

  pub Keeps-trans : (k i : ℕ) (u v w : View) → Keeps k i u v → Keeps k i v w → Keeps k i u w
  Keeps-trans k i u v w (n, h) (m, g) = (m ∙ n, λ a id b. g a id b ∙ h a id b)

  -- A later bound keeps more.
  pub Keeps-weaken :
      (k i l j : ℕ) (v v' : View) → (k < l) ⊎ (k ≡ l) × (i ≤ j) → Keeps l j v v' → Keeps k i v v'
  Keeps-weaken k i l j v v' o (n, h) = (n, λ a id b. h a id (λ c m p. b c m (ground arith)))

  -- A shard comes before those after it.
  pub shard_id_of-IsBefore :
      (k i l j : ℕ) → (k < l) ⊎ (k ≡ l) × (i < j) → IsBefore l j (shard_id_of file_id (pos k) i)
  shard_id_of-IsBefore k i l j o c m p e =
      let (x, y) = shard_id_of_injective file_id k c i m e in ground arith
