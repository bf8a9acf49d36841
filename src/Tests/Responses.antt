-- ===== src/Tests/Responses.antt =====
-- Responses of peers and the coverage of the keyspace, at concrete inputs.
use go_libp2p_hybrid_kad_dht.Prelude.{
  ℕ, ◌≡◌, refl, true, false, ◌&&◌, not, Option, none, some, List, [], ◌∷◌, any, select, length, ltb,
  ◌==◌, if◌then◌else◌, nat_eq, mem,
}
use go_libp2p_hybrid_kad_dht.Keyspace.Key.{flip_last_bit}
use go_libp2p_hybrid_kad_dht.Keyspace.Trie.{Trie, leaf, branches, all_keys}
use go_libp2p_hybrid_kad_dht.Keyspace.Coverage.{keyspace_covered}
use go_libp2p_hybrid_kad_dht.RtDiversityFilter.Responses.{
  AddrInfo, ip_group_peers, filter_peers_by_ip_diversity,
}
use go_libp2p_hybrid_kad_dht.RtDiversityFilter.Sets.{peers_of, Sets}
use go_libp2p_hybrid_kad_dht.RtDiversityFilter.Groups.{in_group, filter_peers_by_ip_diversity_keeps}

-- The group of an address is the number of its tens; the address 0 has none.
abbrev ip_group : ℕ → Option ℕ
ip_group n = if n == 0 then none else some (if ltb n 10 then 0 else if ltb n 20 then 1 else 2)

-- Three peers of the group 1, and two of the group 2, one of them with two addresses.
abbrev response : List (AddrInfo ℕ ℕ)
response =
    record { id = 1; addrs = 11 ∷ 0 ∷ [] }
    ∷ record { id = 2; addrs = 12 ∷ 25 ∷ [] }
    ∷ record { id = 3; addrs = 21 ∷ 22 ∷ [] }
    ∷ record { id = 4; addrs = 13 ∷ [] }
    ∷ []

kept_run :
    filter_peers_by_ip_diversity ip_group response 2 ≡ record { id = 3; addrs = 21 ∷ 22 ∷ [] } ∷ []
unfolding filter_peers_by_ip_diversity
kept_run = refl

filter_peers_by_ip_diversity_keeps_example :
    let groups = ip_group_peers ip_group response [] in
    (filter_peers_by_ip_diversity ip_group response 2
      ≡ select (λ p. not (any (λ g. ltb 2 (length g.1) && mem p.id g.1) groups)) response)
    × Sets groups
    × ((x : ℕ) (g : ℕ)
        → mem x (peers_of groups g)
          ≡ any (λ p. nat_eq.beq x p.id && any (in_group ip_group g) p.addrs) response)
filter_peers_by_ip_diversity_keeps_example =
    filter_peers_by_ip_diversity_keeps ip_group response 2 refl

-- The prefixes 0, 10 and 11 cover the keyspace, and 0 with 11 do not.
abbrev covered_trie : Trie ℕ
covered_trie =
    branches (leaf (false ∷ []) 1)
      (branches (leaf (true ∷ false ∷ []) 2) (leaf (true ∷ true ∷ []) 3))

abbrev gap_trie : Trie ℕ
gap_trie = branches (leaf (false ∷ []) 1) (leaf (true ∷ true ∷ []) 2)

covered_run : keyspace_covered covered_trie ≡ some true
unfolding keyspace_covered all_keys flip_last_bit
covered_run = refl

gap_run : keyspace_covered gap_trie ≡ some false
unfolding keyspace_covered all_keys
gap_run = refl
