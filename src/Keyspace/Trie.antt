-- ===== src/Keyspace/Trie.antt =====
-- provider/internal/keyspace/trie.go: traversal, search and pruning of binary tries.
--
-- A trie is what its accessors tell: `IsEmptyLeaf`; `IsNonEmptyLeaf` with `Key` and `Data`; or an
-- inner node with `Branch(0)` and `Branch(1)`. `trie.Trie{}` is the empty leaf, and an assignment
-- `*t = trie.Trie{}` returns it in place of `t`. An order is read through `Bit` alone.
pub mod Shape
pub mod Iter
pub mod Find
pub mod Prune
pub mod Next
pub mod After
pub mod Following
pub mod Present
pub mod Api
pub mod Reference
use go_libp2p_hybrid_kad_dht.Prelude.{
  ℕ, zero, suc, ◌+◌, Bool, true, false, ◌&&◌, ◌||◌, not, Option, none, some, List, [], ◌∷◌, ◌++◌,
  length, leb, ltb, ◌==◌, if◌then◌else◌,
}
use go_libp2p_hybrid_kad_dht.Keyspace.Key.{Key, bit, bit_eq, common_prefix_length, is_prefix}

pub data Trie {ℓ} (D : Type ℓ) : Type ℓ where
  empty_leaf : Trie D
  leaf : Key → D → Trie D
  branches : Trie D → Trie D → Trie D

-- `Bit` of a key that is long enough for the trie.
abbrev pub Order : Type 0
Order = ℕ → Bool

-- `zeroKey`.
abbrev pub zero_key : Order
zero_key i = false

-- The loop body `result = append(result, x)`.
abbrev pub collect {ℓ} : {T : Type ℓ} → T → List T → List T × Bool
collect x result = (result ++ x ∷ [], true)

module _ {ℓ} {D : Type ℓ} where
  abbrev pub is_leaf : Trie D → Bool
  is_leaf (branches l r) = false
  is_leaf _ = true

  abbrev pub is_empty_leaf : Trie D → Bool
  is_empty_leaf empty_leaf = true
  is_empty_leaf _ = false

  -- The number of keys.
  abbrev pub size : Trie D → ℕ
  size empty_leaf = 0
  size (leaf k d) = 1
  size (branches l r) = size l + size r

  module _ {κ ι} {T : Type κ} {S : Type ι} (extract : Key → D → T) (yield : T → S → S × Bool) where
    -- The second run is made unless the first one was stopped.
    abbrev and_then : (S → S × Bool) → (S → S × Bool) → S → S × Bool
    and_then f g s = let (s', more) = f s in if more then g s' else (s', false)

    -- `trieIterAtDepth`; `S` is the state of the loop body, `yield`, which says whether to go on.
    unfoldable pub trie_iter_at_depth : Trie D → Order → ℕ → S → S × Bool
    trie_iter_at_depth empty_leaf order depth s = (s, true)
    trie_iter_at_depth (leaf k d) order depth s = yield (extract k d) s
    trie_iter_at_depth (branches l r) order depth s =
        let b = order depth in
        let left = trie_iter_at_depth l order (suc depth) in
        let right = trie_iter_at_depth r order (suc depth) in
        and_then (if b then right else left) (if b then left else right) s

    -- `trieIter`.
    unfoldable pub trie_iter : Trie D → Order → S → S × Bool
    unfolding trie_iter_at_depth
    trie_iter t order s = trie_iter_at_depth t order 0 s

  module _ {ι} {S : Type ι} where
    -- `EntriesIter`, `ValuesIter` and `KeysIter`.
    unfoldable pub entries_iter : Trie D → Order → (Key × D → S → S × Bool) → S → S × Bool
    unfolding trie_iter
    entries_iter t order yield s = trie_iter (λ k d. (k, d)) yield t order s

    unfoldable pub values_iter : Trie D → Order → (D → S → S × Bool) → S → S × Bool
    unfolding trie_iter
    values_iter t order yield s = trie_iter (λ k d. d) yield t order s

    unfoldable pub keys_iter : Trie D → Order → (Key → S → S × Bool) → S → S × Bool
    unfolding trie_iter
    keys_iter t order yield s = trie_iter (λ k d. k) yield t order s

  -- `AllEntries`, `AllValues` and `AllKeys`.
  unfoldable pub all_entries : Trie D → Order → List (Key × D)
  unfolding entries_iter
  all_entries t order = if is_empty_leaf t then [] else (entries_iter t order collect []).0

  unfoldable pub all_values : Trie D → Order → List D
  unfolding values_iter
  all_values t order = if is_empty_leaf t then [] else (values_iter t order collect []).0

  unfoldable pub all_keys : Trie D → Order → List Key
  unfolding keys_iter
  all_keys t order = if is_empty_leaf t then [] else (keys_iter t order collect []).0

  -- `findPrefixOfKeyAtDepth`; the zero key is the empty one.
  unfoldable pub find_prefix_of_key_at_depth : Trie D → Key → ℕ → Key × Bool
  find_prefix_of_key_at_depth empty_leaf k depth = ([], false)
  find_prefix_of_key_at_depth (leaf k' d) k depth = (k', common_prefix_length k' k == length k')
  find_prefix_of_key_at_depth (branches l r) k depth =
      let left = find_prefix_of_key_at_depth l k (suc depth) in
      let right = find_prefix_of_key_at_depth r k (suc depth) in
      if depth == length k then ([], false) else if bit k depth then right else left

  -- `FindPrefixOfKey`.
  unfoldable pub find_prefix_of_key : Trie D → Key → Key × Bool
  unfolding find_prefix_of_key_at_depth
  find_prefix_of_key t k = find_prefix_of_key_at_depth t k 0

  -- The loop of `FindSubtrie` over the bits of `k` that are left, at the node `branch`.
  unfoldable pub find_subtrie_loop : Trie D → Key → Key → Trie D → Trie D × Bool
  find_subtrie_loop t k [] branch = (branch, not (is_empty_leaf branch))
  find_subtrie_loop t k (b ∷ bits) empty_leaf = (t, false)
  find_subtrie_loop t k (b ∷ bits) (leaf k' d) = (leaf k' d, common_prefix_length k' k == length k)
  find_subtrie_loop t k (b ∷ bits) (branches l r) = find_subtrie_loop t k bits (if b then r else l)

  -- `FindSubtrie`.
  unfoldable pub find_subtrie : Trie D → Key → Trie D × Bool
  unfolding find_subtrie_loop
  find_subtrie t k = if is_empty_leaf t then (t, false) else find_subtrie_loop t k k t

  -- The end of `pruneSubtrieAtDepth`: the branch `pruned` was visited, `other` is its sibling.
  abbrev after_prune : Trie D → Bool → Trie D → Trie D × Bool
  after_prune node pruned other =
      if pruned && is_empty_leaf other then (empty_leaf, true) else (node, false)

  -- `pruneSubtrieAtDepth`: the trie that is left at `t`, and the result.
  unfoldable pub prune_subtrie_at_depth : Trie D → Key → ℕ → Trie D × Bool
  prune_subtrie_at_depth empty_leaf k depth = (empty_leaf, false)
  prune_subtrie_at_depth (leaf k' d) k depth =
      if is_prefix k k' then (empty_leaf, true) else (leaf k' d, false)
  prune_subtrie_at_depth (branches l r) k depth =
      let left = prune_subtrie_at_depth l k (suc depth) in
      let right = prune_subtrie_at_depth r k (suc depth) in
      if depth == length k
      then (empty_leaf, true)
      else if bit k depth
      then after_prune (branches l right.0) right.1 l
      else after_prune (branches left.0 r) left.1 r

  -- `PruneSubtrie`.
  unfoldable pub prune_subtrie : Trie D → Key → Trie D
  unfolding prune_subtrie_at_depth
  prune_subtrie t k = (prune_subtrie_at_depth t k 0).0
