-- ===== src/Keyspace/Regions.antt =====
-- provider/internal/keyspace/trie.go: the regions of the keyspace.
--
-- The hash of a peer or a multihash to its key, and `Add` of the trie library, are arguments.
pub mod Partition
use go_libp2p_hybrid_kad_dht.Prelude.{
  ℕ, zero, suc, Bool, true, false, ◌&&◌, Option, none, some, List, [], ◌∷◌, ◌++◌, map, length, take,
  leb, min, if◌then◌else◌,
}
use go_libp2p_hybrid_kad_dht.Keyspace.Key.{Key, key_len, common_prefix_length, is_prefix}
use go_libp2p_hybrid_kad_dht.Keyspace.Trie.{
  Trie, Order, empty_leaf, leaf, branches, is_empty_leaf, size,
}
use go_libp2p_hybrid_kad_dht.Keyspace.Trie.Api.{TrieApi}

-- `Region`, with its two tries.
pub record Region (Peer : Type 0) (Mh : Type 0) : Type 0 where
  pub prefix : Key
  pub peers : Trie Peer
  pub keys : Trie Mh

module _ {Peer : Type 0} where
  -- The walk of `RegionsFromPeers` to the subtrie of the common prefix.
  unfoldable pub descend : Key → Trie Peer → Option (Trie Peer)
  descend [] t = some t
  descend (b ∷ bits) empty_leaf = some empty_leaf
  descend (b ∷ bits) (leaf k d) = some (leaf k d)
  descend (b ∷ bits) (branches l r) =
      let t = if b then r else l in if is_empty_leaf t then none else descend bits t

  module _ (api : TrieApi Peer) (peer_to_key : Peer → Key) where
    -- The loop of `RegionsFromPeers`: the trie of the peers, and the shortest common prefix.
    unfoldable pub add_peers : Key → List Peer → Trie Peer → ℕ → Trie Peer × ℕ
    add_peers first [] t min_cpl = (t, min_cpl)
    add_peers first (p ∷ ps) t min_cpl =
        add_peers first ps (api.add (peer_to_key p) p t)
          (min min_cpl (common_prefix_length first (peer_to_key p)))

module _ {Peer : Type 0} {Mh : Type 0} where
  -- A region before its keys are assigned.
  abbrev pub region : Key → Trie Peer → Region Peer Mh
  region path t = record { prefix = path; peers = t; keys = empty_leaf }

  -- `extractMinimalRegions`.
  unfoldable pub extract_minimal_regions : Trie Peer → Key → ℕ → Order → List (Region Peer Mh)
  extract_minimal_regions empty_leaf path n order = []
  extract_minimal_regions (leaf k d) path n order = region path (leaf k d) ∷ []
  extract_minimal_regions (branches l r) path n order =
      let left = extract_minimal_regions l (path ++ false ∷ []) n order in
      let right = extract_minimal_regions r (path ++ true ∷ []) n order in
      if leb n (size l) && leb n (size r)
      then (if order (length path) then right ++ left else left ++ right)
      else region path (branches l r) ∷ []

  module _ (api : TrieApi Peer) (peer_to_key : Peer → Key) where
    -- `RegionsFromPeers`.
    unfoldable pub regions_from_peers : List Peer → ℕ → Order → List (Region Peer Mh) × Key
    unfolding add_peers descend extract_minimal_regions
    regions_from_peers [] region_size order = ([], [])
    regions_from_peers (p ∷ ps) region_size order =
        let first = peer_to_key p in
        let (t, min_cpl) = add_peers api peer_to_key first (p ∷ ps) empty_leaf key_len in
        let common_prefix = take min_cpl first in
        elim (descend common_prefix t) [
          | none ↦ ([], common_prefix)
          | some subtrie ↦
              (extract_minimal_regions subtrie common_prefix region_size order, common_prefix)
        ]
