-- ===== src/Keyspace/Trie/Next.antt =====
-- provider/internal/keyspace/trie.go: `NextNonEmptyLeaf`.
--
-- `none` is the panic of a bit past the end of a key; `some none` is the nil result.
use go_libp2p_hybrid_kad_dht.Prelude.{
  ℕ, suc, Bool, ◌&&◌, ◌||◌, Option, none, some, length, get_elem?, ltb, ◌==◌, if◌then◌else◌, ◌>>=◌,
}
use go_libp2p_hybrid_kad_dht.Keyspace.Key.{Key, bit, bit_eq, common_prefix_length}
use go_libp2p_hybrid_kad_dht.Keyspace.Trie.{Trie, empty_leaf, leaf, branches}

module _ {ℓ} {D : Type ℓ} where
  -- The result of `first`, or else that of `second`.
  abbrev pub or_else :
      Option (Option (Key × D)) → Option (Option (Key × D)) → Option (Option (Key × D))
  or_else none second = none
  or_else (some none) second = second
  or_else (some (some e)) second = some (some e)

  -- `nextNonEmptyLeafAtDepth` with `hitBottom`.
  unfoldable pub first_leaf_at_depth : Trie D → Key → ℕ → Option (Option (Key × D))
  first_leaf_at_depth empty_leaf order depth = some none
  first_leaf_at_depth (leaf k' d) order depth = some (some (k', d))
  first_leaf_at_depth (branches l r) order depth =
      let left = first_leaf_at_depth l order (suc depth) in
      let right = first_leaf_at_depth r order (suc depth) in
      do
        order_bit ← get_elem? order depth
        or_else (if order_bit then right else left) (if order_bit then left else right)

  -- Its end: the neighbour branch is up next, and at the root the first branch comes again.
  abbrev pub next_branch :
      ℕ → Bool → Option (Option (Key × D)) → Option (Option (Key × D)) → Option (Option (Key × D))
  next_branch depth same neighbour again =
      if same || depth == 0
      then or_else neighbour (if depth == 0 then again else some none)
      else some none

  -- `nextNonEmptyLeafAtDepth` without `hitBottom`. At the root the search starts again.
  unfoldable pub next_non_empty_leaf_at_depth : Trie D → Key → Key → ℕ → Option (Option (Key × D))
  unfolding first_leaf_at_depth
  next_non_empty_leaf_at_depth empty_leaf k order depth = some none
  next_non_empty_leaf_at_depth (leaf k' d) k order depth =
      let cpl = common_prefix_length k k' in
      if depth == 0
      then some (some (k', d))
      else if ltb cpl (length k) && ltb cpl (length order) && bit_eq (bit order cpl) (bit k cpl)
      then some (some (k', d))
      else some none
  next_non_empty_leaf_at_depth (branches l r) k order depth =
      let left = next_non_empty_leaf_at_depth l k order (suc depth) in
      let right = next_non_empty_leaf_at_depth r k order (suc depth) in
      do
        k_bit ← get_elem? k depth
        or_else (if k_bit then right else left) (do
          order_bit ← get_elem? order depth
          next_branch depth (bit_eq k_bit order_bit)
              (first_leaf_at_depth (if k_bit then l else r) order (suc depth))
              (first_leaf_at_depth (if k_bit then r else l) order (suc depth)))

  -- `NextNonEmptyLeaf`.
  unfoldable pub next_non_empty_leaf : Trie D → Key → Key → Option (Option (Key × D))
  unfolding next_non_empty_leaf_at_depth
  next_non_empty_leaf t k order = next_non_empty_leaf_at_depth t k order 0
