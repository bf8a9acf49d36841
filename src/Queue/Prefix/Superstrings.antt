-- ===== src/Queue/Prefix/Superstrings.antt =====
-- `removeSuperstrings` of prefix.go: the queue without the prefixes that begin with the given one.
use mathlib.Core.List.{reverse}
use go_libp2p_hybrid_kad_dht.Prelude.{
  ℕ, ◌≡◌, refl, ap, sym, ◌∙◌, Bool, true, false, ◌&&◌, ◌||◌, not, none, some, List, [], ◌∷◌, ◌++◌,
  map, any, all, select, arith, any-map, Ordered-select, select-map, and-left, and-right,
  append_assoc, append-nil, all-select,
}
use go_libp2p_hybrid_kad_dht.Keyspace.Key.{Key, key_eq}
use go_libp2p_hybrid_kad_dht.Keyspace.Key.Prefixes.{starts}
use go_libp2p_hybrid_kad_dht.Keyspace.Trie.{Trie, find_subtrie, all_keys, zero_key}
use go_libp2p_hybrid_kad_dht.Keyspace.Trie.Shape.{
  entries, keys, has, WellFormed, differ, Ordered-keys,
}
use go_libp2p_hybrid_kad_dht.Keyspace.Trie.Iter.{all_keys-entries_by, entries_by-zero_key}
use go_libp2p_hybrid_kad_dht.Keyspace.Trie.Find.{find_subtrie-under}
use go_libp2p_hybrid_kad_dht.Keyspace.Trie.Api.{TrieApi, TrieLaws}
use go_libp2p_hybrid_kad_dht.Queue.Prefix.{
  PrefixQueue, sort, remove_indexes, last_index, collect_indexes, remove_superstrings,
}
use go_libp2p_hybrid_kad_dht.Queue.Prefix.Indexes.{
  positions, remove_indexes-positions, last_index-reverse,
}
use go_libp2p_hybrid_kad_dht.Queue.Prefix.Invariant.{Inv, any_of_same, mem-select}
use go_libp2p_hybrid_kad_dht.Queue.Prefix.Positions.{
  pos, index_of-pos, all_members, sort-positions, apart-differ,
}

module _ (api : TrieApi (Unit {0})) (laws : TrieLaws api) where
  collect_indexes-pos :
      (q ks : List Key) (t : Trie (Unit {0})) (found : List ℕ)
      → all (λ k. any (key_eq k) q) ks ≡ true
      → (collect_indexes api q ks t found).1 ≡ found ++ map (pos q) ks
  unfolding collect_indexes
  collect_indexes-pos q [] t found h = sym (append-nil found)
  collect_indexes-pos q (k ∷ ks) t found h =
      rw (index_of-pos q k (and-left _ _ h), collect_indexes)
        (collect_indexes-pos q ks (api.remove k t) (found ++ pos q k ∷ []) (and-right _ _ h)
          ∙ append_assoc found (pos q k ∷ []) (map (pos q) ks))

  pub collect_indexes-trie :
      (q ks : List Key) (t : Trie (Unit {0})) (found : List ℕ)
      → WellFormed [] t
      → WellFormed [] (collect_indexes api q ks t found).0
        × ((x : Key)
            → has x (collect_indexes api q ks t found).0 ≡ not (any (key_eq x) ks) && has x t)
  unfolding collect_indexes
  collect_indexes-trie q [] t found w = (w, λ x. refl)
  collect_indexes-trie q (k ∷ ks) t found w =
      let rest = collect_indexes-trie q ks (api.remove k t) _ (laws.remove-WellFormed k t w) in
      (
        rest.0,
        λ x.
            rest.1 x
            ∙ ap (λ v. not (any (key_eq x) ks) && v) (laws.has-remove x k t w)
            ∙ regroup (any (key_eq x) ks) (key_eq x k) (has x t),
      )
    where
      regroup : (a b c : Bool) → not a && (not b && c) ≡ not (b || a) && c
      regroup a b c = ground arith

  -- What the removal leaves.
  pub record Cut (q : PrefixQueue) (k : Key) (q' : PrefixQueue) : Type 0 where
    pub shape : WellFormed [] q'.prefixes
    pub queue : q'.queue ≡ select (λ x. not (starts k x)) q.queue
    pub tracked : (x : Key) → has x q'.prefixes ≡ not (starts k x) && has x q.prefixes

  -- The keys that `removeSuperstrings` hands over are those under the prefix.
  superstrings :
      (q : PrefixQueue) (k : Key)
      → Inv q
      → any (starts k) q.queue ≡ true
      → ((find_subtrie q.prefixes k).1 ≡ true)
        × (all_keys (find_subtrie q.prefixes k).0 zero_key ≡ select (starts k) (keys q.prefixes))
  superstrings q k v h = (found, listed)
    where
      some_key : any (λ e. starts k e.0) (entries q.prefixes) ≡ true
      some_key =
          sym (any-map (λ e. e.0) (starts k) (entries q.prefixes))
          ∙ any_of_same (starts k) (keys q.prefixes) q.queue v.tracked
          ∙ h

      found : (find_subtrie q.prefixes k).1 ≡ true
      found = (find_subtrie-under q.prefixes k v.shape).0 ∙ some_key

      listed : all_keys (find_subtrie q.prefixes k).0 zero_key ≡ select (starts k) (keys q.prefixes)
      listed =
          all_keys-entries_by (find_subtrie q.prefixes k).0 zero_key
          ∙ ap (map (λ e. e.0)) (
              entries_by-zero_key 0 (find_subtrie q.prefixes k).0
              ∙ (find_subtrie-under q.prefixes k v.shape).1 found)
          ∙ sym (select-map (λ e. e.0) (starts k) (entries q.prefixes))

  none_found :
      (q : PrefixQueue) (k : Key)
      → Inv q
      → any (starts k) q.queue ≡ false
      → (find_subtrie q.prefixes k).1 ≡ false
  none_found q k v h =
      (find_subtrie-under q.prefixes k v.shape).0
      ∙ sym (any-map (λ e. e.0) (starts k) (entries q.prefixes))
      ∙ any_of_same (starts k) (keys q.prefixes) q.queue v.tracked
      ∙ h

  -- Without a superstring in the queue, nothing happens.
  pub remove_superstrings_absent :
      (q : PrefixQueue) (k : Key)
      → Inv q
      → any (starts k) q.queue ≡ false
      → remove_superstrings api q k ≡ some (q, none)
  unfolding remove_superstrings
  remove_superstrings_absent q k v h = rw (none_found q k v h)

  -- Otherwise all superstrings leave the queue, and the position of the first one is returned.
  pub remove_superstrings_present :
      (q : PrefixQueue) (k : Key) (i : ℕ) (is : List ℕ)
      → Inv q
      → positions (starts k) q.queue ≡ i ∷ is
      → any (starts k) q.queue ≡ true
      → (q' : PrefixQueue) × (remove_superstrings api q k ≡ some (q', some i)) × Cut q k q'
  unfolding remove_superstrings
  remove_superstrings_present q k i is v first h = (
    record {
      queue = remove_indexes (reverse (positions (starts k) q.queue)) q.queue;
      prefixes = (collect_indexes api q.queue ks q.prefixes []).0;
    },
    run,
    record {
      shape = (collect_indexes-trie q.queue ks q.prefixes [] v.shape).0;
      queue = remove_indexes-positions (starts k) q.queue;
      tracked = λ x.
          (collect_indexes-trie q.queue ks q.prefixes [] v.shape).1 x
          ∙ ap (λ b. not b && has x q.prefixes) (mem-select (starts k) x (keys q.prefixes))
          ∙ absorb (starts k x) (has x q.prefixes);
    },
  )
    where
      ks : List Key
      ks = select (starts k) (keys q.prefixes)

      absorb : (a b : Bool) → not (a && b) && b ≡ not a && b
      absorb a b = ground arith

      inside : all (λ y. any (key_eq y) q.queue) ks ≡ true
      inside =
          all-select (starts k) (λ y. any (key_eq y) q.queue) (keys q.prefixes)
            (all_members (keys q.prefixes) q.queue (λ x m. sym (v.tracked x) ∙ m))

      indexes : (collect_indexes api q.queue ks q.prefixes []).1 ≡ map (pos q.queue) ks
      indexes = collect_indexes-pos q.queue ks q.prefixes [] inside

      sorted : sort (collect_indexes api q.queue ks q.prefixes []).1 ≡ positions (starts k) q.queue
      sorted =
          ap sort indexes
          ∙ sort-positions q.queue (apart-differ q.queue v.disjoint) (starts k) ks
              (Ordered-select differ (starts k) (keys q.prefixes)
                (Ordered-keys [] q.prefixes v.shape))
              (λ x.
                mem-select (starts k) x (keys q.prefixes) ∙ ap (λ b. starts k x && b) (v.tracked x))
              inside

      run :
          remove_superstrings api q k
          ≡ some (
            record {
              queue = remove_indexes (reverse (positions (starts k) q.queue)) q.queue;
              prefixes = (collect_indexes api q.queue ks q.prefixes []).0;
            },
            some i,
          )
      run = rw (
        (superstrings q k v h).0,
        (superstrings q k v h).1,
        sorted,
        ap (λ v. last_index (reverse v)) first ∙ last_index-reverse i is,
      )
