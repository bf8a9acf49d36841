-- ===== src/Keyspace/Subtract.antt =====
-- provider/internal/keyspace/trie.go: `SubtractTrie`.
--
-- `Add` of the trie library is an argument, and `AddMany` adds its entries one after the other.
pub mod Covers
pub mod Uncovered
use go_libp2p_hybrid_kad_dht.Prelude.{
  ℕ, suc, Bool, true, false, List, [], ◌∷◌, length, leb, if◌then◌else◌,
}
use go_libp2p_hybrid_kad_dht.Keyspace.Key.{Key, bit, is_bitstr_prefix}
use go_libp2p_hybrid_kad_dht.Keyspace.Trie.{Trie, empty_leaf, leaf, branches, zero_key, all_entries}
use go_libp2p_hybrid_kad_dht.Keyspace.Trie.Api.{TrieApi}

module _ {ℓ} {D : Type ℓ} (api : TrieApi D) where
  -- `AddMany`.
  abbrev pub add_many : Trie D → List (Key × D) → Trie D
  add_many res [] = res
  add_many res (e ∷ es) = add_many (api.add e.0 e.1 res) es

  -- The end of `subtractTrieAtDepth` for two leaves.
  abbrev pub leaf_by_leaf : Key → D → Key → Trie D → Trie D
  leaf_by_leaf k0 d0 k1 res = if is_bitstr_prefix k1 k0 then res else api.add k0 d0 res

  -- `subtractTrieAtDepth` where t1 is the leaf of `k1`.
  unfoldable pub subtract_leaf : Trie D → Key → ℕ → Trie D → Trie D
  subtract_leaf empty_leaf k1 depth res = res
  subtract_leaf (leaf k0 d0) k1 depth res = leaf_by_leaf k0 d0 k1 res
  subtract_leaf (branches l r) k1 depth res =
      let left = subtract_leaf l k1 (suc depth) (add_many res (all_entries r zero_key)) in
      let right = subtract_leaf r k1 (suc depth) (add_many res (all_entries l zero_key)) in
      if leb (length k1) depth then res else if bit k1 depth then right else left

module _ {ℓ κ} {D : Type ℓ} {E : Type κ} (api : TrieApi D) where
  -- `subtractTrieAtDepth` where t0 is the leaf of `k0`.
  unfoldable pub subtract_from_leaf : Key → D → Trie E → ℕ → Trie D → Trie D
  subtract_from_leaf k0 d0 empty_leaf depth res =
      add_many api res (all_entries (leaf k0 d0) zero_key)
  subtract_from_leaf k0 d0 (leaf k1 d1) depth res = leaf_by_leaf api k0 d0 k1 res
  subtract_from_leaf k0 d0 (branches l r) depth res =
      let left = subtract_from_leaf k0 d0 l (suc depth) res in
      let right = subtract_from_leaf k0 d0 r (suc depth) res in
      if leb (length k0) depth then api.add k0 d0 res else if bit k0 depth then right else left

  -- `subtractTrieAtDepth`.
  unfoldable pub subtract_trie_at_depth : Trie D → Trie E → ℕ → Trie D → Trie D
  unfolding subtract_from_leaf subtract_leaf
  subtract_trie_at_depth empty_leaf t1 depth res = res
  subtract_trie_at_depth (leaf k0 d0) t1 depth res = subtract_from_leaf k0 d0 t1 depth res
  subtract_trie_at_depth (branches l r) empty_leaf depth res =
      add_many api res (all_entries (branches l r) zero_key)
  subtract_trie_at_depth (branches l r) (leaf k1 d1) depth res =
      subtract_leaf api (branches l r) k1 depth res
  subtract_trie_at_depth (branches l r) (branches l1 r1) depth res =
      subtract_trie_at_depth r r1 (suc depth) (subtract_trie_at_depth l l1 (suc depth) res)

  -- `SubtractTrie`.
  unfoldable pub subtract_trie : Trie D → Trie E → Trie D
  unfolding subtract_trie_at_depth
  subtract_trie t0 t1 = subtract_trie_at_depth t0 t1 0 empty_leaf
