-- ===== src/Queue/Prefix.antt =====
-- provider/internal/queue/prefix.go and reprovide.go: the queue of non-overlapping prefixes.
--
-- `queue.Deque` is the list of its elements, front first. A Go panic is the result `none`, and
-- the index -1 is an absent index.
pub mod Indexes
pub mod Invariant
pub mod Positions
pub mod Superstrings
pub mod Push
pub mod Refines
use go_libp2p_hybrid_kad_dht.Prelude.{
  ℕ, zero, suc, ◌+◌, ◌≡◌, Bool, true, false, ◌&&◌, ◌||◌, not, Option, none, some, List, [], ◌∷◌,
  ◌++◌, length, leb, ◌==◌, if◌then◌else◌, ◌>>=◌,
}
use mathlib.Core.List.{reverse}
use go_libp2p_hybrid_kad_dht.Keyspace.Key.{Key, key_eq}
use go_libp2p_hybrid_kad_dht.Keyspace.Trie.{
  Trie, empty_leaf, zero_key, all_keys, find_subtrie, find_prefix_of_key,
}
use go_libp2p_hybrid_kad_dht.Keyspace.Trie.Api.{TrieApi}

-- `prefixQueue`.
pub record PrefixQueue : Type 0 where
  pub queue : List Key
  pub prefixes : Trie (Unit {0})

-- `deque.Index`: the first position whose element passes the test.
unfoldable pub index_of : (Key → Bool) → List Key → Option ℕ
index_of p [] = none
index_of p (x ∷ q) =
    let rest : Option ℕ = elim (index_of p q) [ none ↦ none | some i ↦ some (suc i) ] in
    if p x then some 0 else rest

-- `deque.Remove`, at an index in range.
unfoldable pub remove_at : ℕ → List Key → List Key
remove_at i [] = []
remove_at zero (x ∷ q) = q
remove_at (suc i) (x ∷ q) = x ∷ remove_at i q

-- `deque.Insert`.
unfoldable pub insert_at : ℕ → Key → List Key → List Key
insert_at zero k q = k ∷ q
insert_at (suc i) k [] = k ∷ []
insert_at (suc i) k (x ∷ q) = x ∷ insert_at i k q

-- `slices.Sort` on indexes.
unfoldable pub insert_sorted : ℕ → List ℕ → List ℕ
insert_sorted n [] = n ∷ []
insert_sorted n (m ∷ ms) = if leb n m then n ∷ m ∷ ms else m ∷ insert_sorted n ms

unfoldable pub sort : List ℕ → List ℕ
unfolding insert_sorted
sort [] = []
sort (n ∷ ns) = insert_sorted n (sort ns)

-- The removals at the given positions, one after the other.
unfoldable pub remove_indexes : List ℕ → List Key → List Key
remove_indexes [] q = q
remove_indexes (i ∷ is) q = remove_indexes is (remove_at i q)

-- `indexes[len(indexes)-1]`.
unfoldable pub last_index : List ℕ → Option ℕ
last_index [] = none
last_index (i ∷ []) = some i
last_index (i ∷ j ∷ is) = last_index (j ∷ is)

module _ (api : TrieApi (Unit {0})) where
  -- The first loop of `removePrefixesFromQueue`: the trie that is left, and the positions found.
  unfoldable pub collect_indexes :
      List Key → List Key → Trie (Unit {0}) → List ℕ → Trie (Unit {0}) × List ℕ
  collect_indexes queue [] prefixes indexes = (prefixes, indexes)
  collect_indexes queue (prefix ∷ rest) prefixes indexes =
      collect_indexes queue rest (api.remove prefix prefixes)
        (elim (index_of (λ element. key_eq element prefix) queue) [
          | some i ↦ indexes ++ i ∷ []
          | none ↦ indexes
        ])

  -- `removePrefixesFromQueue`.
  unfoldable pub remove_prefixes_from_queue : PrefixQueue → List Key → Option (PrefixQueue × ℕ)
  unfolding collect_indexes sort remove_indexes last_index
  remove_prefixes_from_queue q prefixes =
      let (left, found) = collect_indexes q.queue prefixes q.prefixes [] in
      let indexes = reverse (sort found) in
      do
        first ← last_index indexes
        some (record { queue = remove_indexes indexes q.queue; prefixes = left }, first)

  -- `removeSuperstrings`.
  unfoldable pub remove_superstrings : PrefixQueue → Key → Option (PrefixQueue × Option ℕ)
  unfolding remove_prefixes_from_queue
  remove_superstrings q prefix =
      let (subtrie, ok) = find_subtrie q.prefixes prefix in
      if not ok then some (q, none) else do
        (q', first) ← remove_prefixes_from_queue q (all_keys subtrie zero_key)
        some (q', some first)

  -- One round of `Push`.
  unfoldable pub push_one : PrefixQueue → Key → Option PrefixQueue
  unfolding remove_superstrings
  push_one q prefix = do
    (q', removed) ← remove_superstrings q prefix
    elim removed [
      | some i ↦
          some (record {
            queue = insert_at i prefix q'.queue;
            prefixes = api.add prefix tt q'.prefixes;
          })
      | none ↦
          if (find_prefix_of_key q'.prefixes prefix).1
          then some q'
          else some
              (record { queue = q'.queue ++ prefix ∷ []; prefixes = api.add prefix tt q'.prefixes })
    ]

  -- `Push`, and `ReprovideQueue.Enqueue`.
  unfoldable pub push : PrefixQueue → List Key → Option PrefixQueue
  push q [] = some q
  push q (prefix ∷ prefixes) = do q' ← push_one q prefix; push q' prefixes

  -- The two cases of `Pop`, on the front of the queue.
  unfoldable pub pop_front : PrefixQueue → List Key → PrefixQueue × Key × Bool
  pop_front q [] = (q, [], false)
  pop_front q (prefix ∷ rest) =
      (record { queue = rest; prefixes = api.remove prefix q.prefixes }, prefix, true)

  -- `Pop`, and `ReprovideQueue.Dequeue`.
  unfoldable pub pop : PrefixQueue → PrefixQueue × Key × Bool
  unfolding pop_front
  pop q = pop_front q q.queue

  -- `Remove`, of both queues.
  unfoldable pub remove : PrefixQueue → Key → Option (PrefixQueue × Bool)
  unfolding remove_superstrings
  remove q prefix = do
    (q', removed) ← remove_superstrings q prefix
    some (q', elim removed [ some i ↦ true | none ↦ false ])

-- `Size`, of both queues.
unfoldable pub queue_size : PrefixQueue → ℕ
queue_size q = length q.queue

-- `ReprovideQueue.IsEmpty`.
unfoldable pub is_empty : PrefixQueue → Bool
unfolding queue_size
is_empty q = queue_size q == 0

-- `NewReprovideQueue`, and the prefix queue of `NewProvideQueue`.
abbrev pub new_queue : PrefixQueue
new_queue = record { queue = []; prefixes = empty_leaf }

-- `Clear`, of both queues: the emptied queue and the number of prefixes that were in it.
unfoldable pub clear : PrefixQueue → PrefixQueue × ℕ
unfolding queue_size
clear q = (new_queue, queue_size q)
