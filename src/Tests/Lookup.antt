-- ===== src/Tests/Lookup.antt =====
-- The loop of query.go's `run` at a concrete node: the peers 3 to 6, of which 6 cannot be dialled.
use go_libp2p_hybrid_kad_dht.Prelude.{
  ℕ, ◌≡◌, refl, Bool, true, false, not, Option, none, some, List, [], ◌∷◌, ◌==◌, nat_eq, map, arith,
}
use go_libp2p_hybrid_kad_dht.QueryPeerset.{
  PeerState, waiting, queried, QueryPeerset, get_state, try_add, set_state, num_heard, num_waiting,
  get_referrer,
}
use go_libp2p_hybrid_kad_dht.QueryPeerset.Laws.{ids}
use go_libp2p_hybrid_kad_dht.Query.{
  Settings, Query, Event, update, done, new_query, query_peer, run,
}
use go_libp2p_hybrid_kad_dht.Query.Inside.{Inside}
use go_libp2p_hybrid_kad_dht.Query.Ends.{Answers, Ends, run-Ends}

abbrev node : Settings ℕ
node = record {
  self = 100;
  alpha = 2;
  beta = 3;
  bucket_size = 3;
  seed_peers = 4 ∷ 6 ∷ 5 ∷ [];
  distance_to_key = λ p. p;
}

abbrev others : List ℕ
others = 3 ∷ 4 ∷ 5 ∷ 6 ∷ []

abbrev if_waiting : (o : Option PeerState) → Option (o ≡ some waiting)
if_waiting (some waiting) = some refl
if_waiting _ = none

abbrev first_waiting :
    (qp : QueryPeerset ℕ) → List ℕ → Option ((p : ℕ) × (get_state qp p ≡ some waiting))
first_waiting qp [] = none
first_waiting qp (x ∷ xs) =
    let rest = first_waiting qp xs in
    elim (if_waiting (get_state qp x)) [ some h ↦ some (x, h) | none ↦ rest ]

abbrev unfiltered : ℕ → List ℕ → List ℕ
unfiltered n ps = ps

abbrev always : ℕ → Bool
always p = true

-- The first waiting peer answers with the peers 3 and 100.
abbrev reply : (qp : QueryPeerset ℕ) → Option ((p : ℕ) × (get_state qp p ≡ some waiting)) → Event ℕ
reply qp none = done
reply qp (some w) =
    update (query_peer node unfiltered 0 always w.0 (not (w.0 == 6)) (some (3 ∷ 100 ∷ [])) 7)

abbrev world : ℕ → Query ℕ → Event ℕ × Bool
world n q = (reply q.query_peers (first_waiting q.query_peers (ids q.query_peers.all_peers)), false)

reply-Answers :
    (q : Query ℕ) (o : Option ((p : ℕ) × (get_state q.query_peers p ≡ some waiting)))
    → Answers node others unfiltered 0 always q (reply q.query_peers o)
unfolding query_peer
reply-Answers q none = tt
reply-Answers q (some w) =
    (w.0, w.1, not (w.0 == 6), some (3 ∷ 100 ∷ []), 7, refl, named (not (w.0 == 6)))
  where
    named :
        (b : Bool)
        → Inside others
            (query_peer node unfiltered 0 always w.0 b (some (3 ∷ 100 ∷ [])) 7).heard_peers
    named true = refl
    named false = refl

run-Ends_example : Ends node others unfiltered 0 always (run node world false 4 new_query)
run-Ends_example =
    run-Ends node others unfiltered 0 always world
      (λ n q runs waits.
        reply-Answers q (first_waiting q.query_peers (ids q.query_peers.all_peers)))
      false 4 (ground arith) refl (ground arith)

abbrev final_states : Option (Query ℕ) → List PeerState
final_states none = []
final_states (some q) = map (λ x. x.state) q.query_peers.all_peers

small_network_run :
    final_states (run node world false 4 new_query) ≡ queried ∷ queried ∷ queried ∷ waiting ∷ []
unfolding run query_peer get_state try_add set_state num_heard num_waiting get_referrer
small_network_run = refl
