-- ===== src/Tests/Query.antt =====
-- query.go at concrete inputs: peers are numbers, and a peer is its own distance.
use mathlib.Core.List.{Perm}
use go_libp2p_hybrid_kad_dht.Prelude.{
  ℕ, ◌≡◌, refl, true, false, Option, none, some, List, [], ◌∷◌, nat_eq, inl, inr, Ordered, arith,
}
use go_libp2p_hybrid_kad_dht.QueryPeerset.{
  PeerState, heard, waiting, QueryPeerState, QueryPeerset, sort, get_state, try_add, set_state,
  num_heard, num_waiting, get_referrer,
}
use go_libp2p_hybrid_kad_dht.QueryPeerset.Closest.{nearer, IsSortedFlag}
use go_libp2p_hybrid_kad_dht.Query.{
  Settings, Query, QueryUpdate, update, is_ready_to_terminate, run_round, new_query, first_update,
  construct_lookup_result,
}
use go_libp2p_hybrid_kad_dht.Query.Termination.{decide, is_ready_to_terminate-decide}
use go_libp2p_hybrid_kad_dht.Query.Sound.{Sound}
use go_libp2p_hybrid_kad_dht.Query.Result.{construct_lookup_result_reports}
use go_libp2p_hybrid_kad_dht.Query.Rounds.{run_round-Sound}

abbrev peer : ℕ → PeerState → QueryPeerState ℕ
peer n s = record { id = n; distance = n; state = s; referred_by = 0 }

-- A node with α = 2 and β = 1; the own peer is 100.
abbrev settings : Settings ℕ
settings = record {
  self = 100;
  alpha = 2;
  beta = 1;
  bucket_size = 3;
  seed_peers = 4 ∷ 6 ∷ 5 ∷ [];
  distance_to_key = λ p. p;
}

abbrev known : QueryPeerset ℕ
known = record { all_peers = peer 6 heard ∷ peer 4 waiting ∷ peer 5 waiting ∷ []; sorted = false }

abbrev going : Query ℕ
going = record { query_peers = known; peer_times = []; terminated = false }

-- The peer 4 has answered, and named the peers 3 and 100.
abbrev answer : QueryUpdate ℕ
answer = record {
  cause = 4;
  queried_peers = 4 ∷ [];
  heard_peers = 3 ∷ 100 ∷ [];
  unreachable_peers = [];
  query_duration = 7;
}

abbrev opt_peers : Option (Query ℕ × List ℕ) → List ℕ
opt_peers none = []
opt_peers (some r) = r.1

first_round_run :
    opt_peers (run_round settings new_query (update (first_update settings)) false) ≡ 4 ∷ 5 ∷ []
unfolding run_round get_state try_add set_state num_heard num_waiting get_referrer
first_round_run = refl

second_round_run : opt_peers (run_round settings going (update answer) false) ≡ 3 ∷ []
unfolding run_round get_state try_add set_state num_heard num_waiting get_referrer
second_round_run = refl

unsorted : IsSortedFlag known
unsorted h = absurd (contrary h)
  where
    contrary : false ≡ true → ⊥
    contrary k = cc

is_ready_to_terminate-decide_example :
    Ordered nearer (sort known).all_peers
    × Perm (sort known).all_peers known.all_peers
    × (is_ready_to_terminate settings known false (some 1)
        ≡ some (
          sort known,
          (decide 1 1 (sort known).all_peers).0,
          (decide 1 1 (sort known).all_peers).1,
        ))
is_ready_to_terminate-decide_example =
    is_ready_to_terminate-decide settings known false 1 (refl, (refl, (refl, tt))) unsorted

known-Sound : Sound 100 2 known
known-Sound = record {
  distinct = (refl, (refl, (refl, tt)));
  no_self = refl;
  few_waiting = ground arith;
}

run_round-Sound_example :
    (q' : Query ℕ) × (ps : List ℕ) × (run_round settings going (update answer) false
      ≡ some (q', ps))
    × Sound 100 2 q'.query_peers
unfolding get_state
run_round-Sound_example =
    run_round-Sound settings going (update answer) false refl known-Sound
      (inr (4, refl, inl (refl, refl)))

construct_lookup_result_reports_example :
    Ordered nearer (sort known).all_peers
    × (construct_lookup_result settings going
        ≡ some (record {
          peers = 4 ∷ 5 ∷ 6 ∷ [];
          states = waiting ∷ waiting ∷ heard ∷ [];
          closest = 4 ∷ 5 ∷ 6 ∷ [];
          completed = false;
        }))
unfolding sort
construct_lookup_result_reports_example =
    construct_lookup_result_reports settings going (refl, (refl, (refl, tt))) unsorted
