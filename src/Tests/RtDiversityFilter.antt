-- ===== src/Tests/RtDiversityFilter.antt =====
-- rt_diversity_filter.go at concrete inputs: groups are numbers.
use go_libp2p_hybrid_kad_dht.Prelude.{ℕ, ◌≡◌, refl, true, some, [], ◌∷◌, nat_eq, pos}
use go_libp2p_hybrid_kad_dht.RtDiversityFilter.{
  PeerGroupInfo, RtPeerIpGroupFilter, new_rt_peer_diversity_filter, allow, increment, decrement,
}
use go_libp2p_hybrid_kad_dht.RtDiversityFilter.Counts.{increment-Counts}
use go_libp2p_hybrid_kad_dht.RtDiversityFilter.Counts.{Counts}
use go_libp2p_hybrid_kad_dht.RtDiversityFilter.Limits.{Within, decrement-Counts, allow-Within}

abbrev one : PeerGroupInfo ℕ
one = record { cpl = 4; ip_group_key = 8 }

-- One peer, with a limit of 3 for the table and 2 for each length.
abbrev filter : RtPeerIpGroupFilter ℕ
filter = record {
  max_per_cpl = pos 2;
  max_for_table = pos 3;
  cpl_ip_group_count = (4, (8, pos 1) ∷ []) ∷ [];
  table_ip_group_count = (8, pos 1) ∷ [];
}

filter_run : filter ≡ increment (new_rt_peer_diversity_filter (pos 2) (pos 3)) one
unfolding increment
filter_run = refl

filter-Counts : Counts filter (one ∷ [])
unfolding increment
filter-Counts = increment-Counts (new_rt_peer_diversity_filter (pos 2) (pos 3)) one [] empty-Counts
  where
    empty-Counts : Counts {Group = ℕ} (new_rt_peer_diversity_filter (pos 2) (pos 3)) []
    empty-Counts = record { table = λ key. refl; at_cpl = λ cpl key. refl }

decrement-Counts_example :
    (r' : RtPeerIpGroupFilter ℕ) × (decrement filter one ≡ some r') × Counts r' []
decrement-Counts_example = decrement-Counts filter one [] [] filter-Counts

allow-Within_example :
    (allow filter one ≡ true)
    × (Within 3 2 (one ∷ [])
        → allow filter one ≡ true
        → Within 3 2 (one ∷ one ∷ []) × Counts (increment filter one) (one ∷ one ∷ []))
allow-Within_example = allow-Within filter one (one ∷ []) 3 1 filter-Counts refl refl
