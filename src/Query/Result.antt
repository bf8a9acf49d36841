-- ===== src/Query/Result.antt =====
-- What `constructLookupResult` of query.go reports of a lookup that has ended.
use go_libp2p_hybrid_kad_dht.Prelude.{
  ◌≡◌, refl, ap, ◌∙◌, Bool, true, false, ◌||◌, not, some, List, [], ◌∷◌, map, take, any, all,
  select, if◌then◌else◌, Eq, Ordered, Distinct,
}
use go_libp2p_hybrid_kad_dht.QueryPeerset.{
  heard, waiting, queried, unreachable, QueryPeerState, QueryPeerset, sort,
}
use go_libp2p_hybrid_kad_dht.QueryPeerset.Closest.{in_states, IsSortedFlag, nearer, sort-sorted}
use go_libp2p_hybrid_kad_dht.QueryPeerset.Laws.{ids, opt_field, get_state-lookup}
use go_libp2p_hybrid_kad_dht.Query.{
  Settings, Query, states_of, is_lookup_termination, construct_lookup_result,
}
use go_libp2p_hybrid_kad_dht.Query.Found.{
  Found, Found-take, Found-select, Distinct-Found, Distinct-sort,
}
use go_libp2p_hybrid_kad_dht.Query.Termination.{
  is_queried, closest-sort, queried_front, starvation-sort, sort-sort,
}

module _ {Peer : Type 0} ⦃e : Eq Peer⦄ where
  states_of-Found :
      (c : Settings Peer) (qp : QueryPeerset Peer) (xs : List (QueryPeerState Peer))
      → Found qp.all_peers xs
      → states_of c qp (ids xs) ≡ some (map (λ x. x.state) xs)
  unfolding states_of
  states_of-Found c qp [] f = refl
  states_of-Found c qp (x ∷ xs) f =
      rw
        (
          states_of,
          get_state-lookup qp x.id ∙ ap (opt_field (λ q. q.state)) f.0,
          states_of-Found c qp xs f.1,
        )
        refl

  lookup_termination-sort :
      (c : Settings Peer) (qp : QueryPeerset Peer)
      → Distinct (ids qp.all_peers)
      → is_lookup_termination c qp
        ≡ some (
          sort qp,
          all is_queried (
              take c.beta
                (select (in_states (heard ∷ waiting ∷ queried ∷ [])) (sort qp).all_peers)),
        )
  unfolding is_lookup_termination
  lookup_termination-sort c qp d =
      rw
        (
          is_lookup_termination,
          closest-sort qp c.beta (heard ∷ waiting ∷ queried ∷ []),
          queried_front c qp d,
        )
        refl

  same_set : (b : Bool) (qp : QueryPeerset Peer) → (if b then qp else qp) ≡ qp
  same_set true qp = refl
  same_set false qp = refl

  -- Let no peer be in the set twice and the flag `sorted` tell the truth. Then
  -- `constructLookupResult` does not panic. Take the peers by ascending distance: it returns the
  -- nearest that are not unreachable, up to the size of a bucket, each with its state, and the
  -- nearest of all in the same number; and the lookup is completed exactly if the beta nearest
  -- that are not unreachable have all been queried, or no peer is heard of or waiting.
  pub construct_lookup_result_reports :
      (c : Settings Peer) (q : Query Peer)
      → Distinct (ids q.query_peers.all_peers)
      → IsSortedFlag q.query_peers
      → let peers = (sort q.query_peers).all_peers in
        let alive = select (in_states (heard ∷ waiting ∷ queried ∷ [])) peers in
        Ordered nearer peers
        × (construct_lookup_result c q
            ≡ some (record {
              peers = ids (take c.bucket_size alive);
              states = map (λ x. x.state) (take c.bucket_size alive);
              closest = ids (
                  take c.bucket_size
                    (select (in_states (heard ∷ waiting ∷ queried ∷ unreachable ∷ [])) peers));
              completed =
                  all is_queried (take c.beta alive)
                  || not (any (in_states (heard ∷ waiting ∷ [])) peers);
            }))
  unfolding construct_lookup_result
  construct_lookup_result_reports c q d f =
      let qp = sort q.query_peers in
      let alive = select (in_states (heard ∷ waiting ∷ queried ∷ [])) qp.all_peers in
      let found = Found-take qp.all_peers c.bucket_size alive (
        Found-select qp.all_peers (in_states (heard ∷ waiting ∷ queried ∷ [])) qp.all_peers
          (Distinct-Found qp.all_peers (Distinct-sort q.query_peers d))) in
      (
        (sort-sorted q.query_peers f).0,
        rw
            (
              construct_lookup_result,
              lookup_termination-sort c q.query_peers d,
              starvation-sort c qp,
              sort-sort q.query_peers,
              same_set (all is_queried (take c.beta alive)) qp,
              closest-sort qp c.bucket_size (heard ∷ waiting ∷ queried ∷ []),
              sort-sort q.query_peers,
              closest-sort qp c.bucket_size (heard ∷ waiting ∷ queried ∷ unreachable ∷ []),
              sort-sort q.query_peers,
              states_of-Found c qp (take c.bucket_size alive) found,
            )
            refl,
      )
