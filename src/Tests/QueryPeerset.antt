-- ===== src/Tests/QueryPeerset.antt =====
-- qpeerset at concrete inputs: peers are numbers, and a peer is its own distance.
use mathlib.Core.List.{Perm}
use go_libp2p_hybrid_kad_dht.Prelude.{
  Distinct, ℕ, ◌≡◌, ◌⊎◌, refl, true, false, none, some, List, [], ◌∷◌, map, take, select, nat_eq,
  mem,
}
use go_libp2p_hybrid_kad_dht.QueryPeerset.{
  PeerState, heard, waiting, queried, unreachable, QueryPeerState, QueryPeerset, try_add, set_state,
  get_state, get_referrer, get_closest_n_in_states,
}
use go_libp2p_hybrid_kad_dht.QueryPeerset.Closest.{
  nearer, IsSortedFlag, in_states, get_closest_n_in_states_nearest,
}
use go_libp2p_hybrid_kad_dht.QueryPeerset.Laws.{ids, try_add_adds_once, set_state-sets}
use go_libp2p_hybrid_kad_dht.Prelude.{Ordered}

abbrev peer : ℕ → PeerState → QueryPeerState ℕ
peer n s = record { id = n; distance = n; state = s; referred_by = 0 }

abbrev three : QueryPeerset ℕ
three = record {
  all_peers = peer 5 heard ∷ peer 2 unreachable ∷ peer 3 queried ∷ [];
  sorted = false;
}

unsorted : IsSortedFlag three
unsorted h = absurd (contrary h)
  where
    contrary : false ≡ true → ⊥
    contrary c = cc

closest_run : (get_closest_n_in_states three 1 (heard ∷ queried ∷ [])).1 ≡ 3 ∷ []
unfolding get_closest_n_in_states
closest_run = refl

get_closest_n_in_states_nearest_example :
    (peers : List (QueryPeerState ℕ)) × Ordered nearer peers
    × Perm peers three.all_peers
    × ((get_closest_n_in_states three 1 (heard ∷ queried ∷ [])).0.all_peers ≡ peers)
    × IsSortedFlag (get_closest_n_in_states three 1 (heard ∷ queried ∷ [])).0
    × ((get_closest_n_in_states three 1 (heard ∷ queried ∷ [])).1
        ≡ take 1 (map (λ p. p.id) (select (in_states (heard ∷ queried ∷ [])) peers)))
get_closest_n_in_states_nearest_example =
    get_closest_n_in_states_nearest three 1 (heard ∷ queried ∷ []) unsorted

three-Distinct : Distinct (ids three.all_peers)
three-Distinct = (refl, (refl, (refl, tt)))

try_add_adds_once_example :
    ((try_add (λ p. p) three 7 5).1 ≡ true)
    × Distinct (ids (try_add (λ p. p) three 7 5).0.all_peers)
    × ((try_add (λ p. p) three 7 5).1 ≡ false → (try_add (λ p. p) three 7 5).0 ≡ three)
    × ((try_add (λ p. p) three 7 5).1 ≡ true
        → ((try_add (λ p. p) three 7 5).0.all_peers
            ≡ peer 5 heard
              ∷ peer 2 unreachable
              ∷ peer 3 queried
              ∷ record { id = 7; distance = 7; state = heard; referred_by = 5 }
              ∷ [])
          × (get_state (try_add (λ p. p) three 7 5).0 7 ≡ some heard)
          × (get_referrer (try_add (λ p. p) three 7 5).0 7 ≡ some 5))
    × (IsSortedFlag three → IsSortedFlag (try_add (λ p. p) three 7 5).0)
try_add_adds_once_example = try_add_adds_once (λ p. p) three 7 5 three-Distinct

set_state-sets_example :
    (mem 5 (ids three.all_peers) ≡ false) × (set_state three 5 waiting ≡ none)
    ⊎ (mem 5 (ids three.all_peers) ≡ true)
      × (qp' : QueryPeerset ℕ) × (set_state three 5 waiting ≡ some qp')
      × (ids qp'.all_peers ≡ ids three.all_peers)
      × (qp'.sorted ≡ three.sorted)
      × (get_state qp' 5 ≡ some waiting)
      × ((x : ℕ)
          → nat_eq.beq 5 x ≡ false
          → (get_state qp' x ≡ get_state three x) × (get_referrer qp' x ≡ get_referrer three x))
      × (IsSortedFlag three → IsSortedFlag qp')
set_state-sets_example = set_state-sets three 5 waiting
