-- ===== src/Tests/Provide.antt =====
-- provider/internal/queue/provide.go at concrete inputs: a multihash is a number.
use go_libp2p_hybrid_kad_dht.Prelude.{
  ℕ, ◌+◌, ◌≡◌, ◌⊎◌, refl, Bool, true, false, some, [], ◌∷◌, length, map,
}
use go_libp2p_hybrid_kad_dht.Keyspace.Trie.{leaf, branches, size}
use go_libp2p_hybrid_kad_dht.Keyspace.Trie.Shape.{entries, WellFormed}
use go_libp2p_hybrid_kad_dht.Keyspace.Trie.Find.{some_under, under}
use go_libp2p_hybrid_kad_dht.Keyspace.Trie.Prune.{outside}
use go_libp2p_hybrid_kad_dht.Keyspace.Trie.Reference.{reference, reference-TrieLaws}
use go_libp2p_hybrid_kad_dht.Queue.Prefix.Invariant.{Inv}
use go_libp2p_hybrid_kad_dht.Queue.Provide.{ProvideQueue, dequeue, dequeue_matching}
use go_libp2p_hybrid_kad_dht.Queue.Provide.Batches.{
  batch, less_shorter, dequeue_takes, dequeue_matching_takes,
}

abbrev o : Bool
o = false

abbrev i : Bool
i = true

-- The prefixes 0 and 10, with the keys 001, 010 and 101.
abbrev filled : ProvideQueue ℕ
filled = record {
  queue = record {
    queue = (o ∷ []) ∷ (i ∷ o ∷ []) ∷ [];
    prefixes = branches (leaf (o ∷ []) tt) (leaf (i ∷ o ∷ []) tt);
  };
  keys =
      branches (branches (leaf (o ∷ o ∷ i ∷ []) 1) (leaf (o ∷ i ∷ o ∷ []) 2))
        (leaf (i ∷ o ∷ i ∷ []) 5);
}

filled-Inv : Inv filled.queue
filled-Inv = record {
  shape = (refl, refl, refl);
  tracked = λ x. refl;
  disjoint = (refl, (refl, tt));
}

filled-WellFormed : WellFormed [] filled.keys
filled-WellFormed = ((refl, refl, refl), refl, refl)

dequeue_takes_example :
    let (q', prefix, hs, ok) = dequeue reference filled in
    Inv q'.queue
    × WellFormed [] q'.keys
    × (((filled.queue.queue ≡ []) × (ok ≡ false) × (hs ≡ []) × (q' ≡ filled))
        ⊎ ((filled.queue.queue ≡ prefix ∷ q'.queue.queue)
            × (ok ≡ true)
            × (entries q'.keys ≡ outside prefix (entries filled.keys))
            × (map (λ x. under x (entries q'.keys)) q'.queue.queue
                ≡ map (λ x. under x (entries filled.keys)) q'.queue.queue)
            × (some_under prefix (entries filled.keys) ≡ true
                → (hs ≡ batch prefix filled.keys) × (length hs + size q'.keys ≡ 3))))
dequeue_takes_example =
    dequeue_takes reference reference-TrieLaws filled filled-Inv filled-WellFormed

dequeue_matching_takes_example :
    ((some_under (o ∷ o ∷ []) (entries filled.keys) ≡ false)
      × (dequeue_matching reference filled (o ∷ o ∷ []) ≡ some (filled, [])))
    ⊎ ((q' : ProvideQueue ℕ) × (dequeue_matching reference filled (o ∷ o ∷ []) ≡ some (q', 1 ∷ []))
        × Inv q'.queue
        × WellFormed [] q'.keys
        × (entries q'.keys ≡ outside (o ∷ o ∷ []) (entries filled.keys))
        × (q'.queue.queue ≡ less_shorter filled.queue (o ∷ o ∷ []) (entries q'.keys)))
dequeue_matching_takes_example =
    dequeue_matching_takes reference reference-TrieLaws filled (o ∷ o ∷ []) filled-Inv
      filled-WellFormed
