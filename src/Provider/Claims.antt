-- ===== src/Provider/Claims.antt =====
-- provider/provider.go: `claimRegionReprovide` and `releaseRegionReprovide`, which see to it that
-- no region is reprovided twice at a time. The lock makes each call atomic.
pub mod Exclusive
use go_libp2p_hybrid_kad_dht.Prelude.{Bool, List, [], ◌∷◌, if◌then◌else◌}
use go_libp2p_hybrid_kad_dht.Keyspace.Key.{Key}
use go_libp2p_hybrid_kad_dht.Keyspace.Trie.{Trie, is_empty_leaf, find_prefix_of_key, prune_subtrie}
use go_libp2p_hybrid_kad_dht.Keyspace.Trie.Api.{TrieApi}
use go_libp2p_hybrid_kad_dht.Keyspace.Regions.{Region}

-- `releaseRegionReprovide`.
unfoldable pub release_region_reprovide : Key → Trie (Unit {0}) → Trie (Unit {0})
release_region_reprovide prefix active = prune_subtrie active prefix

module _ {Peer : Type 0} {Mh : Type 0} (api : TrieApi (Unit {0})) where
  -- `claimRegionReprovide`: the regions claimed, and the trie of the active ones.
  unfoldable pub claim_region_reprovide :
      List (Region Peer Mh) → Trie (Unit {0}) → List (Region Peer Mh) × Trie (Unit {0})
  claim_region_reprovide [] active = ([], active)
  claim_region_reprovide (r ∷ regions) active =
      let skip = claim_region_reprovide regions active in
      let (out, active') =
        claim_region_reprovide regions (api.add r.prefix tt (prune_subtrie active r.prefix)) in
      if is_empty_leaf r.peers
      then skip
      else if (find_prefix_of_key active r.prefix).1
      then skip
      else (r ∷ out, active')
