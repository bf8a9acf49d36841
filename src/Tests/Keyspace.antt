-- ===== src/Tests/Keyspace.antt =====
-- provider/internal/keyspace at concrete inputs.
use mathlib.Core.List.{Perm}
use go_libp2p_hybrid_kad_dht.Prelude.{
  ℕ, suc, ◌<◌, ◌≡◌, refl, Bool, true, false, some, List, [], ◌∷◌, map, length, take, any, all,
  select, leb, arith, Ordered, replicate,
}
use go_libp2p_hybrid_kad_dht.Keyspace.Key.{
  Key, key_eq, key_len, first_full_key_with_prefix, key_to_bytes, extend_binary_prefix,
  sibling_prefixes, shortest_covered_prefix, common_prefix_length,
}
use go_libp2p_hybrid_kad_dht.Keyspace.Key.Prefixes.{
  starts, closer, first_full_key_with_prefix_nearest,
}
use go_libp2p_hybrid_kad_dht.Keyspace.Key.Siblings.{hits, sibling_prefixes_partition}
use go_libp2p_hybrid_kad_dht.Keyspace.Key.Bytes.{bytes_bits, bytes_bits-key_to_bytes}
use go_libp2p_hybrid_kad_dht.Keyspace.Key.Covered.{shortest_covered_prefix_covers}
use go_libp2p_hybrid_kad_dht.Keyspace.Trie.{
  Trie, leaf, branches, zero_key, all_entries, all_keys, all_values, find_subtrie,
  find_prefix_of_key, prune_subtrie,
}
use go_libp2p_hybrid_kad_dht.Keyspace.Trie.Shape.{entries, WellFormed}
use go_libp2p_hybrid_kad_dht.Keyspace.Trie.Iter.{all_entries_sorted, nearer_entry}
use go_libp2p_hybrid_kad_dht.Keyspace.Trie.Find.{
  find_subtrie-under, find_prefix_of_key_finds, under, some_under,
}
use go_libp2p_hybrid_kad_dht.Keyspace.Trie.Prune.{prune_subtrie-outside, outside}

abbrev o : Bool
o = false

abbrev i : Bool
i = true

-- The example of `SiblingPrefixes`.
sibling_prefixes_1100 :
    sibling_prefixes (i ∷ i ∷ o ∷ o ∷ [])
    ≡ (o ∷ []) ∷ (i ∷ o ∷ []) ∷ (i ∷ i ∷ i ∷ []) ∷ (i ∷ i ∷ o ∷ i ∷ []) ∷ []
unfolding sibling_prefixes
sibling_prefixes_1100 = refl

-- The example of `ExtendBinaryPrefix`.
extend_binary_prefix_1101 :
    extend_binary_prefix (i ∷ i ∷ o ∷ i ∷ []) 6
    ≡ (i ∷ i ∷ o ∷ i ∷ o ∷ o ∷ [])
      ∷ (i ∷ i ∷ o ∷ i ∷ o ∷ i ∷ [])
      ∷ (i ∷ i ∷ o ∷ i ∷ i ∷ o ∷ [])
      ∷ (i ∷ i ∷ o ∷ i ∷ i ∷ i ∷ [])
      ∷ []
unfolding extend_binary_prefix
extend_binary_prefix_1101 = refl

key_to_bytes_nine : key_to_bytes (i ∷ o ∷ o ∷ o ∷ o ∷ o ∷ o ∷ i ∷ i ∷ []) ≡ 129 ∷ 128 ∷ []
unfolding key_to_bytes
key_to_bytes_nine = refl

abbrev ones : Key
ones = replicate 256 true

first_full_key_with_prefix_nearest_example :
    (f : Key) × (first_full_key_with_prefix (i ∷ o ∷ []) ones ≡ some f)
    × (length f ≡ key_len)
    × (starts (i ∷ o ∷ []) f ≡ true)
    × ((x : Key) → starts (i ∷ o ∷ []) x ≡ true → closer ones f x ≡ true)
first_full_key_with_prefix_nearest_example =
    first_full_key_with_prefix_nearest (i ∷ o ∷ []) ones refl (omega arith)

sibling_prefixes_partition_example :
    hits (i ∷ o ∷ i ∷ []) ((i ∷ i ∷ []) ∷ sibling_prefixes (i ∷ i ∷ [])) ≡ 1
sibling_prefixes_partition_example =
    sibling_prefixes_partition (i ∷ i ∷ []) (i ∷ o ∷ i ∷ []) (omega arith)

bytes_bits-key_to_bytes_example :
    bytes_bits (key_to_bytes (i ∷ o ∷ i ∷ [])) ≡ i ∷ o ∷ i ∷ o ∷ o ∷ o ∷ o ∷ o ∷ []
bytes_bits-key_to_bytes_example = bytes_bits-key_to_bytes (i ∷ o ∷ i ∷ [])

-- Peers are their own keys, and already stand in order.
abbrev peers : List Key
peers = (i ∷ i ∷ o ∷ []) ∷ (i ∷ o ∷ i ∷ []) ∷ (o ∷ i ∷ i ∷ []) ∷ []

shortest_covered_prefix_run :
    shortest_covered_prefix (λ p. p) (λ ps bytes. ps) (i ∷ i ∷ i ∷ []) peers
    ≡ (i ∷ [], (i ∷ i ∷ o ∷ []) ∷ (i ∷ o ∷ i ∷ []) ∷ [])
unfolding shortest_covered_prefix common_prefix_length
shortest_covered_prefix_run = refl

shortest_covered_prefix_covers_example :
    ((shortest_covered_prefix (λ p. p) (λ ps bytes. ps) (i ∷ i ∷ i ∷ []) peers).1
      ≡ select
          (λ q.
            starts (shortest_covered_prefix (λ p. p) (λ ps bytes. ps) (i ∷ i ∷ i ∷ []) peers).0 q)
          peers)
    × (n : ℕ) × ((shortest_covered_prefix (λ p. p) (λ ps bytes. ps) (i ∷ i ∷ i ∷ []) peers).0
        ≡ take (suc n) (i ∷ i ∷ i ∷ []))
    × (n < 3)
    × (all (λ q. leb n (common_prefix_length (i ∷ i ∷ i ∷ []) q)) peers ≡ true)
unfolding common_prefix_length
shortest_covered_prefix_covers_example =
    shortest_covered_prefix_covers (λ p. p) (i ∷ i ∷ i ∷ []) (λ ps bytes. ps) (i ∷ i ∷ o ∷ [])
      ((i ∷ o ∷ i ∷ []) ∷ (o ∷ i ∷ i ∷ []) ∷ []) (refl, (refl, (refl, tt))) refl refl

-- The keys 00, 01 and 1, with numbers for data.
abbrev three : Trie ℕ
three = branches (branches (leaf (o ∷ o ∷ []) 0) (leaf (o ∷ i ∷ []) 1)) (leaf (i ∷ []) 2)

three_keys_run : all_keys three (λ n. true) ≡ (i ∷ []) ∷ (o ∷ i ∷ []) ∷ (o ∷ o ∷ []) ∷ []
unfolding all_keys
three_keys_run = refl

all_entries_sorted_example :
    Perm (all_entries three zero_key) (entries three)
    × Ordered (nearer_entry zero_key) (all_entries three zero_key)
    × (all_keys three zero_key ≡ map (λ e. e.0) (all_entries three zero_key))
    × (all_values three zero_key ≡ map (λ e. e.1) (all_entries three zero_key))
all_entries_sorted_example = all_entries_sorted three zero_key ((refl, refl, refl), refl, refl)

find_subtrie-under_example :
    ((find_subtrie three (o ∷ [])).1 ≡ some_under (o ∷ []) (entries three))
    × ((find_subtrie three (o ∷ [])).1 ≡ true
        → entries (find_subtrie three (o ∷ [])).0 ≡ under (o ∷ []) (entries three))
find_subtrie-under_example = find_subtrie-under three (o ∷ []) ((refl, refl, refl), refl, refl)

find_prefix_of_key_finds_example :
    ((find_prefix_of_key three (i ∷ o ∷ [])).1 ≡ any (λ e. starts e.0 (i ∷ o ∷ [])) (entries three))
    × ((find_prefix_of_key three (i ∷ o ∷ [])).1 ≡ true
        → (starts (find_prefix_of_key three (i ∷ o ∷ [])).0 (i ∷ o ∷ []) ≡ true)
          × (any (λ e. key_eq (find_prefix_of_key three (i ∷ o ∷ [])).0 e.0) (entries three)
              ≡ true))
find_prefix_of_key_finds_example =
    find_prefix_of_key_finds three (i ∷ o ∷ []) ((refl, refl, refl), refl, refl)

prune_subtrie-outside_example :
    (entries (prune_subtrie three (o ∷ [])) ≡ outside (o ∷ []) (entries three))
    × WellFormed [] (prune_subtrie three (o ∷ []))
prune_subtrie-outside_example =
    prune_subtrie-outside three (o ∷ []) ((refl, refl, refl), refl, refl)
