-- ===== src/Queue/Provide.antt =====
-- provider/internal/queue/provide.go: the queue of the keys to be provided.
--
-- The hash of a multihash to its key and the trie library are arguments; `AddMany` adds its
-- entries one after the other. `none` is a panic.
pub mod Under
pub mod Batches
use go_libp2p_hybrid_kad_dht.Prelude.{
  ℕ, Bool, true, false, not, Option, none, some, List, [], ◌∷◌, ◌++◌, if◌then◌else◌, any, ◌>>=◌,
}
use go_libp2p_hybrid_kad_dht.Keyspace.Key.{Key, key_eq}
use go_libp2p_hybrid_kad_dht.Keyspace.Trie.{
  Trie, empty_leaf, is_empty_leaf, size, zero_key, all_values, find_subtrie, find_prefix_of_key,
  prune_subtrie,
}
use go_libp2p_hybrid_kad_dht.Keyspace.Trie.Api.{TrieApi}
use go_libp2p_hybrid_kad_dht.Queue.Prefix.{
  PrefixQueue, new_queue, push, pop, remove, remove_prefixes_from_queue, queue_size, clear,
}

-- `ProvideQueue`.
pub record ProvideQueue (Mh : Type 0) : Type 0 where
  pub queue : PrefixQueue
  pub keys : Trie Mh

module _ {Mh : Type 0} where
  -- `NewProvideQueue`.
  abbrev pub new_provide_queue : ProvideQueue Mh
  new_provide_queue = record { queue = new_queue; keys = empty_leaf }

  -- `IsEmpty`, `Size` and `NumRegions`.
  unfoldable pub is_empty : ProvideQueue Mh → Bool
  is_empty q = is_empty_leaf q.keys

  unfoldable pub size_of : ProvideQueue Mh → ℕ
  size_of q = size q.keys

  unfoldable pub num_regions : ProvideQueue Mh → ℕ
  num_regions q = queue_size q.queue

  -- `Clear`.
  unfoldable pub clear_all : ProvideQueue Mh → ProvideQueue Mh × ℕ
  clear_all q = (record { queue = (clear q.queue).0; keys = empty_leaf }, size q.keys)

  module _ (prefix_api : TrieApi (Unit {0})) where
    -- `Dequeue`.
    unfoldable pub dequeue : ProvideQueue Mh → ProvideQueue Mh × Key × List Mh × Bool
    dequeue q =
        let (queue', prefix, ok) = pop prefix_api q.queue in
        let (subtrie, found) = find_subtrie q.keys prefix in
        if not ok then (record q { queue = queue' }, prefix, [], false) else (
          record { queue = queue'; keys = prune_subtrie q.keys prefix },
          prefix,
          all_values subtrie zero_key,
          true,
        )

    -- The last part of `DequeueMatching`: a shorter prefix without keys is removed as well.
    unfoldable pub remove_shorter : PrefixQueue → Trie Mh → Key → Option PrefixQueue
    remove_shorter queue keys prefix =
        let (shorter_prefix, ok) = find_prefix_of_key queue.prefixes prefix in
        let (subtrie, found) = find_subtrie keys shorter_prefix in
        if not ok
        then some queue
        else if found
        then some queue
        else (do (queue', removed) ← remove prefix_api queue shorter_prefix; some queue')

    -- `DequeueMatching`.
    unfoldable pub dequeue_matching : ProvideQueue Mh → Key → Option (ProvideQueue Mh × List Mh)
    unfolding remove_shorter
    dequeue_matching q prefix =
        let (subtrie, ok) = find_subtrie q.keys prefix in
        if not ok then some (q, []) else (do
          let keys' = prune_subtrie q.keys prefix
          (queue', removed) ← remove prefix_api q.queue prefix
          queue'' ← if removed then some queue' else remove_shorter queue' keys' prefix
          some (record { queue = queue''; keys = keys' }, all_values subtrie zero_key))

  module _ (key_api : TrieApi Mh) (mh_to_key : Mh → Key) where
    -- `q.keys.AddMany`, of the entries of the multihashes.
    unfoldable pub add_keys : Trie Mh → List Mh → Trie Mh
    add_keys t [] = t
    add_keys t (h ∷ hs) = add_keys (key_api.add (mh_to_key h) h t) hs

    -- The first loop of `Remove`: the keys that are left, and the set of matching prefixes.
    unfoldable pub remove_keys : PrefixQueue → List Mh → Trie Mh → List Key → Trie Mh × List Key
    remove_keys queue [] keys matching = (keys, matching)
    remove_keys queue (h ∷ hs) keys matching =
        let k = mh_to_key h in
        let (prefix, ok) = find_prefix_of_key queue.prefixes k in
        let known = any (key_eq prefix) matching in
        let matching' =
          if ok then (if known then matching else matching ++ prefix ∷ []) else matching in
        remove_keys queue hs (key_api.remove k keys) matching'

  -- The second loop of `Remove`, over the set in some order.
  unfoldable pub prefixes_to_remove : Trie Mh → List Key → List Key
  prefixes_to_remove keys [] = []
  prefixes_to_remove keys (prefix ∷ prefixes) =
      let rest = prefixes_to_remove keys prefixes in
      if (find_subtrie keys prefix).1 then rest else prefix ∷ rest

  module _ (prefix_api : TrieApi (Unit {0})) (key_api : TrieApi Mh) (mh_to_key : Mh → Key) where
    -- `enqueueNoLock`.
    unfoldable pub enqueue_no_lock : ProvideQueue Mh → Key → List Mh → Option (ProvideQueue Mh)
    unfolding add_keys
    enqueue_no_lock q prefix hs = do
      queue' ← push prefix_api q.queue (prefix ∷ [])
      some (record { queue = queue'; keys = add_keys key_api mh_to_key q.keys hs })

    -- `Enqueue`.
    unfoldable pub enqueue : ProvideQueue Mh → Key → List Mh → Option (ProvideQueue Mh)
    unfolding enqueue_no_lock
    enqueue q prefix [] = some q
    enqueue q prefix (h ∷ hs) = enqueue_no_lock q prefix (h ∷ hs)

    -- `Remove`.
    unfoldable pub remove_all : ProvideQueue Mh → List Mh → Option (ProvideQueue Mh)
    unfolding remove_keys prefixes_to_remove
    remove_all q hs =
        let (keys', matching) = remove_keys key_api mh_to_key q.queue hs q.keys [] in
        elim (prefixes_to_remove keys' matching) [
          | [] ↦ some (record q { keys = keys' })
          | p ∷ ps ↦ do
            (queue', first) ← remove_prefixes_from_queue prefix_api q.queue (p ∷ ps)
            some (record { queue = queue'; keys = keys' })
        ]
