-- ===== src/Queue/Provide/Batches.antt =====
-- Which keys a dequeue takes, and which it leaves.
use go_libp2p_hybrid_kad_dht.Prelude.{
  ◌+◌, ◌≡◌, ◌⊎◌, refl, ap, ◌∙◌, true, false, ◌&&◌, not, some, List, [], ◌∷◌, map, length, any,
  if◌then◌else◌, arith, Bool-cases, inl, inr, length-map, all, Ordered, subst,
}
use go_libp2p_hybrid_kad_dht.Keyspace.Key.{Key}
use go_libp2p_hybrid_kad_dht.Keyspace.Key.Prefixes.{starts}
use go_libp2p_hybrid_kad_dht.Keyspace.Trie.{
  Trie, size, zero_key, all_values, find_subtrie, find_prefix_of_key, prune_subtrie,
}
use go_libp2p_hybrid_kad_dht.Keyspace.Trie.Api.{TrieApi, TrieLaws}
use go_libp2p_hybrid_kad_dht.Keyspace.Trie.Shape.{entries, WellFormed, size-entries}
use go_libp2p_hybrid_kad_dht.Keyspace.Trie.Iter.{all_values-entries_by, entries_by-zero_key}
use go_libp2p_hybrid_kad_dht.Keyspace.Trie.Find.{under, some_under, find_subtrie-under}
use go_libp2p_hybrid_kad_dht.Keyspace.Trie.Prune.{outside, prune_subtrie-outside}
use go_libp2p_hybrid_kad_dht.Queue.Prefix.{PrefixQueue, pop, remove}
use go_libp2p_hybrid_kad_dht.Queue.Prefix.Invariant.{Inv, apart}
use go_libp2p_hybrid_kad_dht.Queue.Prefix.Refines.{pop_refines, remove_refines}
use go_libp2p_hybrid_kad_dht.Queue.Prefix.Push.{without}
use go_libp2p_hybrid_kad_dht.Queue.Prefix.Superstrings.{remove_superstrings_absent}
use go_libp2p_hybrid_kad_dht.Queue.Provide.{ProvideQueue, dequeue, dequeue_matching, remove_shorter}
use go_libp2p_hybrid_kad_dht.Queue.Provide.Under.{length-under-outside, unders-outside}

-- No prefix behind the first one of a queue is comparable to it.
first-apart :
    (k : Key) (xs ys : List Key) → ys ≡ k ∷ xs → Ordered apart ys → all (apart k) xs ≡ true
first-apart k xs ys e h = (subst (Ordered apart) e h).0

remove-absent :
    (prefix_api : TrieApi (Unit {0})) (laws : TrieLaws prefix_api) (q : PrefixQueue) (k : Key)
    → Inv q
    → any (starts k) q.queue ≡ false
    → remove prefix_api q k ≡ some (q, false)
unfolding remove
remove-absent prefix_api laws q k v h =
    rw (remove, remove_superstrings_absent prefix_api laws q k v h) refl

module _ {Mh : Type 0} where
  -- The values of the entries under a prefix.
  abbrev pub batch : Key → Trie Mh → List Mh
  batch k t = map (λ e. e.1) (under k (entries t))

  found_batch :
      (t : Trie Mh) (k : Key)
      → WellFormed [] t
      → some_under k (entries t) ≡ true
      → all_values (find_subtrie t k).0 zero_key ≡ batch k t
  found_batch t k w h =
      let f = find_subtrie-under t k w in
      all_values-entries_by (find_subtrie t k).0 zero_key
      ∙ ap (map (λ e. e.1)) (entries_by-zero_key 0 (find_subtrie t k).0 ∙ f.1 (f.0 ∙ h))

  -- What is left of a queue when its prefix of `k` has no key any more.
  abbrev pub less_shorter : PrefixQueue → Key → List (Key × Mh) → List Key
  less_shorter queue k es =
      let (shorter, ok) = find_prefix_of_key queue.prefixes k in
      if ok && not (some_under shorter es) then without shorter queue.queue else queue.queue

  -- Pruning the keys of the first prefix leaves those of the prefixes behind it.
  rest-keep :
      (q : ProvideQueue Mh)
      → Inv q.queue
      → WellFormed [] q.keys
      → (k : Key) (xs : List Key) → q.queue.queue ≡ k ∷ xs
      → map (λ x. under x (entries (prune_subtrie q.keys k))) xs
        ≡ map (λ x. under x (entries q.keys)) xs
  rest-keep q v w k xs e =
      ap (λ es. map (λ x. under x es) xs) (prune_subtrie-outside q.keys k w).0
      ∙ unders-outside k xs (entries q.keys) (first-apart k xs q.queue.queue e v.disjoint)

  module _ (prefix_api : TrieApi (Unit {0})) (laws : TrieLaws prefix_api) where
    -- Let the queue of prefixes have its invariant and the trie of keys be well-formed; both hold
    -- afterwards. `Dequeue` fails on a queue without prefixes only, and then changes nothing.
    -- Otherwise it takes the first prefix, and leaves exactly the other prefixes, in order, and
    -- exactly the keys that do not begin with it, so that each of the other prefixes has the same
    -- keys as before. If some key begins with the prefix taken, it returns the multihashes of
    -- exactly the keys that do, and the multihashes returned and left are together as many as
    -- before; of a prefix without keys this is not stated.
    pub dequeue_takes :
        (q : ProvideQueue Mh)
        → Inv q.queue
        → WellFormed [] q.keys
        → let (q', prefix, hs, ok) = dequeue prefix_api q in
          Inv q'.queue
          × WellFormed [] q'.keys
          × (((q.queue.queue ≡ []) × (ok ≡ false) × (hs ≡ []) × (q' ≡ q))
              ⊎ ((q.queue.queue ≡ prefix ∷ q'.queue.queue)
                  × (ok ≡ true)
                  × (entries q'.keys ≡ outside prefix (entries q.keys))
                  × (map (λ x. under x (entries q'.keys)) q'.queue.queue
                      ≡ map (λ x. under x (entries q.keys)) q'.queue.queue)
                  × (some_under prefix (entries q.keys) ≡ true
                      → (hs ≡ batch prefix q.keys) × (length hs + size q'.keys ≡ size q.keys))))
    unfolding dequeue
    dequeue_takes q v w =
        let r = pop_refines prefix_api laws q.queue v in
        elim r.1 [
          | inl empty ↦
              rw (empty.1, dequeue)
                (r.0, w, inl (empty.0, refl, refl, ap (λ z. record q { queue = z }) empty.2))
          | inr front ↦
              let pruned = prune_subtrie-outside q.keys (pop prefix_api q.queue).1 w in
              rw (front.1, dequeue)
                (
                  r.0,
                  pruned.1,
                  inr (
                    front.0,
                    refl,
                    pruned.0,
                    rest-keep q v w (pop prefix_api q.queue).1 (pop prefix_api q.queue).0.queue
                        front.0,
                    λ h. (
                      found_batch q.keys (pop prefix_api q.queue).1 w h,
                      omega (
                        arith,
                        ap length (found_batch q.keys (pop prefix_api q.queue).1 w h),
                        length-map (λ e. e.1) (under (pop prefix_api q.queue).1 (entries q.keys)),
                        size-entries (prune_subtrie q.keys (pop prefix_api q.queue).1),
                        size-entries q.keys,
                        ap length pruned.0,
                        length-under-outside (pop prefix_api q.queue).1 (entries q.keys),
                      ),
                    ),
                  ),
                )
        ]

    remove_shorter-keeps :
        (queue : PrefixQueue) (keys : Trie Mh) (k : Key)
        → Inv queue
        → WellFormed [] keys
        → (queue' : PrefixQueue) × (remove_shorter prefix_api queue keys k ≡ some queue')
          × Inv queue'
          × (queue'.queue ≡ less_shorter queue k (entries keys))
    unfolding remove_shorter
    remove_shorter-keeps queue keys k v w =
        let found = find_prefix_of_key queue.prefixes k in
        let under_it = (find_subtrie-under keys found.0 w).0 in
        elim (Bool-cases found.1) [
          | inr no_prefix ↦ (queue, rw (no_prefix, remove_shorter) refl, v, rw no_prefix refl)
          | inl a_prefix ↦ elim (Bool-cases (some_under found.0 (entries keys))) [
            | inl keys_left ↦ (
              queue,
              rw (a_prefix, remove_shorter, under_it, keys_left) refl,
              v,
              rw (a_prefix, keys_left) refl,
            )
            | inr no_keys ↦
                let removed = remove_refines prefix_api laws queue found.0 v in
                (
                  removed.0,
                  rw (a_prefix, remove_shorter, under_it, no_keys, removed.1) refl,
                  removed.3,
                  rw (a_prefix, no_keys) removed.2,
                )
          ]
        ]

    -- Let the queue of prefixes have its invariant and the trie of keys be well-formed.
    -- `DequeueMatching` does not panic. If no key begins with the prefix it changes nothing.
    -- Otherwise it returns the multihashes of exactly the keys that do, and leaves exactly the
    -- other keys. If prefixes of the queue begin with the given one, these are removed; otherwise,
    -- a prefix of the queue that begins the given one is removed if no key is left under it, and
    -- no other prefix is. The invariant and the shape of the trie hold afterwards.
    pub dequeue_matching_takes :
        (q : ProvideQueue Mh) (k : Key)
        → Inv q.queue
        → WellFormed [] q.keys
        → ((some_under k (entries q.keys) ≡ false)
            × (dequeue_matching prefix_api q k ≡ some (q, [])))
          ⊎ ((q' : ProvideQueue Mh) × (dequeue_matching prefix_api q k ≡ some (q', batch k q.keys))
              × Inv q'.queue
              × WellFormed [] q'.keys
              × (entries q'.keys ≡ outside k (entries q.keys))
              × (q'.queue.queue ≡ (
                  if any (starts k) q.queue.queue
                  then without k q.queue.queue
                  else less_shorter q.queue k (entries q'.keys))))
    unfolding dequeue_matching
    dequeue_matching_takes q k v w =
        let told = (find_subtrie-under q.keys k w).0 in
        let pruned = prune_subtrie-outside q.keys k w in
        elim (Bool-cases (some_under k (entries q.keys))) [
          | inr no_key ↦ inl (no_key, rw (told, no_key, dequeue_matching) refl)
          | inl some_key ↦ elim (Bool-cases (any (starts k) q.queue.queue)) [
            | inl longer ↦
                let removed = remove_refines prefix_api laws q.queue k v in
                inr (
                  record { queue = removed.0; keys = prune_subtrie q.keys k },
                  rw
                      (
                        told,
                        some_key,
                        dequeue_matching,
                        removed.1,
                        longer,
                        found_batch q.keys k w some_key,
                      )
                      refl,
                  removed.3,
                  pruned.1,
                  pruned.0,
                  rw longer removed.2,
                )
            | inr no_longer ↦
                let shorter = remove_shorter-keeps q.queue (prune_subtrie q.keys k) k v pruned.1 in
                inr (
                  record { queue = shorter.0; keys = prune_subtrie q.keys k },
                  rw
                      (
                        told,
                        some_key,
                        dequeue_matching,
                        remove-absent prefix_api laws q.queue k v no_longer,
                        shorter.1,
                        found_batch q.keys k w some_key,
                      )
                      refl,
                  shorter.2,
                  pruned.1,
                  pruned.0,
                  rw no_longer shorter.3,
                )
          ]
        ]
