-- ===== src/Keyspace/Coverage.antt =====
-- provider/internal/keyspace/trie.go: `KeyspaceCovered`. `none` is a panic.
use go_libp2p_hybrid_kad_dht.Prelude.{
  ◌-◌, Bool, true, false, ◌&&◌, Option, none, some, List, [], ◌∷◌, length, take, ltb, ◌==◌,
  if◌then◌else◌, ◌>>=◌,
}
use go_libp2p_hybrid_kad_dht.Keyspace.Key.{Key, key_eq, flip_last_bit}
use go_libp2p_hybrid_kad_dht.Keyspace.Trie.{Trie, empty_leaf, leaf, branches, zero_key, all_keys}

-- The inner loop and the push after it, on the stack with its top first: the key is shortened as
-- long as it is as long as the top.
unfoldable pub match_stack : List Key → Key → Option (List Key)
match_stack [] p = none
match_stack (top ∷ stack) p =
    let rest = match_stack stack (take (length top - 1) p) in
    if length p == length top
    then (if length top == 1 && key_eq top p then some stack else rest)
    else some (flip_last_bit p ∷ top ∷ stack)

-- The outer loop.
unfoldable pub cover_stack : List Key → List Key → Option Bool
unfolding match_stack
cover_stack [] stack = some (length stack == 0)
cover_stack (p ∷ ps) [] = none
cover_stack (p ∷ ps) (top ∷ stack) =
    if ltb (length p) (length top)
    then some false
    else do stack' ← match_stack (top ∷ stack) p; cover_stack ps stack'

-- `KeyspaceCovered`.
unfoldable pub keyspace_covered {ℓ} : {D : Type ℓ} → Trie D → Option Bool
unfolding cover_stack
keyspace_covered empty_leaf = some false
keyspace_covered (leaf k d) = some (length k == 0)
keyspace_covered (branches l r) =
    cover_stack (all_keys (branches l r) zero_key) ((false ∷ []) ∷ (true ∷ []) ∷ [])
