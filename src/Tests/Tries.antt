-- ===== src/Tests/Tries.antt =====
-- Subtraction and regions of tries, at concrete inputs.
use mathlib.Core.List.{Perm}
use go_libp2p_hybrid_kad_dht.Prelude.{ℕ, ◌≡◌, refl, arith, Bool, true, false, List, [], ◌∷◌, map}
use go_libp2p_hybrid_kad_dht.Keyspace.Key.{Key}
use go_libp2p_hybrid_kad_dht.Keyspace.Trie.{Trie, empty_leaf, leaf, branches, zero_key}
use go_libp2p_hybrid_kad_dht.Keyspace.Trie.Shape.{entries, WellFormed}
use go_libp2p_hybrid_kad_dht.Keyspace.Trie.Reference.{reference}
use go_libp2p_hybrid_kad_dht.Keyspace.Subtract.{add_many, subtract_trie}
use go_libp2p_hybrid_kad_dht.Keyspace.Subtract.Uncovered.{subtract_trie_adds}
use go_libp2p_hybrid_kad_dht.Keyspace.Regions.{extract_minimal_regions}
use go_libp2p_hybrid_kad_dht.Keyspace.Regions.Partition.{
  all_peers, Large, extract_minimal_regions_split,
}

abbrev o : Bool
o = false

abbrev i : Bool
i = true

-- The keys 0000, 0010 and 0100 of the comment on `SubtractTrie`.
abbrev three : Trie ℕ
three =
    branches
      (branches (branches (leaf (o ∷ o ∷ o ∷ o ∷ []) 1) (leaf (o ∷ o ∷ i ∷ o ∷ []) 2))
        (leaf (o ∷ i ∷ o ∷ o ∷ []) 3))
      empty_leaf

three-WellFormed : WellFormed [] three
three-WellFormed = (((refl, refl, refl), refl, refl), tt, refl)

-- The key 00.
abbrev one : Trie ℕ
one = leaf (o ∷ o ∷ []) 9

subtract_trie_adds_example :
    (fs : List (Key × ℕ)) × Perm fs ((o ∷ i ∷ o ∷ o ∷ [], 3) ∷ [])
    × (subtract_trie reference three one ≡ add_many reference empty_leaf fs)
subtract_trie_adds_example = subtract_trie_adds reference three one three-WellFormed refl

abbrev two : Trie ℕ
two = branches (leaf (o ∷ o ∷ []) 1) (branches (leaf (i ∷ o ∷ []) 2) (leaf (i ∷ i ∷ []) 3))

prefixes_run :
    map (λ g. g.prefix) (extract_minimal_regions {Mh = ℕ} two [] 1 zero_key)
    ≡ (o ∷ []) ∷ (i ∷ o ∷ []) ∷ (i ∷ i ∷ []) ∷ []
unfolding extract_minimal_regions
prefixes_run = refl

extract_minimal_regions_split_example :
    Perm (all_peers (extract_minimal_regions {Mh = ℕ} two [] 1 zero_key)) (entries two)
    × Large 1 (extract_minimal_regions {Mh = ℕ} two [] 1 zero_key)
extract_minimal_regions_split_example =
    extract_minimal_regions_split ℕ two [] 1 zero_key (refl, (refl, refl, refl), refl)
      (ground arith)
