-- ===== src/Query/Termination.antt =====
-- When a lookup ends, and which peers it queries next.
use mathlib.Core.List.{Perm}
use go_libp2p_hybrid_kad_dht.Prelude.{
  Distinct, ℕ, suc, ◌≡◌, refl, ap, ◌∙◌, Bool, true, ◌||◌, not, Option, none, some, List, [], ◌∷◌,
  take, length, length-select-le, any, all, select, ◌==◌, if◌then◌else◌, arith, Ordered, Bool-cases,
  inl, inr, Eq,
}
use go_libp2p_hybrid_kad_dht.QueryPeerset.{
  PeerState, heard, waiting, queried, state_eq, QueryPeerState, QueryPeerset, insert_by_distance,
  sort_by_distance, sort, get_closest_n_in_states, get_closest_in_states, num_heard, num_waiting,
}
use go_libp2p_hybrid_kad_dht.QueryPeerset.Closest.{
  nearer, IsSortedFlag, in_states, sort-sorted, take_all, take_guard,
}
use go_libp2p_hybrid_kad_dht.QueryPeerset.Laws.{ids, opt_field, get_state-lookup}
use go_libp2p_hybrid_kad_dht.Query.{
  Settings, LookupTerminationReason, lookup_stopped, lookup_starvation, lookup_completed,
  all_queried, is_starvation_termination, is_ready_to_terminate,
}
use go_libp2p_hybrid_kad_dht.Query.Found.{
  le→leb, neither, branches, Found, Distinct-Found, Found-select, Found-take, map-take,
  Distinct-sort,
}

module _ {Peer : Type 0} ⦃e : Eq Peer⦄ where
  abbrev pub is_queried : QueryPeerState Peer → Bool
  is_queried x = state_eq x.state queried

  all_queried-all :
      (c : Settings Peer) (qp : QueryPeerset Peer) (xs : List (QueryPeerState Peer))
      → Found qp.all_peers xs
      → all_queried c qp (ids xs) ≡ some (all is_queried xs)
  unfolding all_queried
  all_queried-all c qp [] f = refl
  all_queried-all c qp (x ∷ xs) f =
      rw (get_state-lookup qp x.id ∙ ap (opt_field (λ q. q.state)) f.0, all_queried)
        (elim (Bool-cases (is_queried x)) [
          | inl is_done ↦ rw is_done (all_queried-all c qp xs f.1)
          | inr not_done ↦ rw not_done refl
        ])

  sort_sorted : (qp : QueryPeerset Peer) → qp.sorted ≡ true → sort qp ≡ qp
  unfolding sort
  sort_sorted qp h =
      ap
        (λ b. if b then qp else record { all_peers = sort_by_distance qp.all_peers; sorted = true })
        h

  sorted-sort : (qp : QueryPeerset Peer) → (sort qp).sorted ≡ true
  unfolding sort
  sorted-sort qp = elim (Bool-cases qp.sorted) [
    | inl is_sorted ↦ ap (λ x. x.sorted) (sort_sorted qp is_sorted) ∙ is_sorted
    | inr not_sorted ↦
        ap
          (λ b.
            (if b
              then qp
              else record { all_peers = sort_by_distance qp.all_peers; sorted = true }).sorted)
          not_sorted
  ]

  pub sort-sort : (qp : QueryPeerset Peer) → sort (sort qp) ≡ sort qp
  sort-sort qp = sort_sorted (sort qp) (sorted-sort qp)

  pub closest-sort :
      (qp : QueryPeerset Peer) (n : ℕ) (states : List PeerState)
      → get_closest_n_in_states qp n states
        ≡ (sort qp, ids (take n (select (in_states states) (sort qp).all_peers)))
  unfolding get_closest_n_in_states
  closest-sort qp n states = ap (λ l. (sort qp, l)) (take_guard n _ ∙ map-take n _)

  length-insert :
      (q : QueryPeerState Peer) (qs : List (QueryPeerState Peer))
      → length (insert_by_distance q qs) ≡ suc (length qs)
  unfolding insert_by_distance
  length-insert q [] = refl
  length-insert q (x ∷ qs) = ground (arith, length-insert q qs)

  length-sort_by_distance :
      (qs : List (QueryPeerState Peer)) → length (sort_by_distance qs) ≡ length qs
  unfolding sort_by_distance
  length-sort_by_distance [] = refl
  length-sort_by_distance (q ∷ qs) =
      length-insert q (sort_by_distance qs) ∙ ap suc (length-sort_by_distance qs)

  length-sort : (qp : QueryPeerset Peer) → length (sort qp).all_peers ≡ length qp.all_peers
  unfolding sort
  length-sort qp = elim (Bool-cases qp.sorted) [
    | inl is_sorted ↦ rw is_sorted refl
    | inr not_sorted ↦ rw not_sorted (length-sort_by_distance qp.all_peers)
  ]

  in_states-sort :
      (qp : QueryPeerset Peer) (states : List PeerState)
      → get_closest_in_states qp states
        ≡ (sort qp, ids (select (in_states states) (sort qp).all_peers))
  unfolding get_closest_in_states
  in_states-sort qp states =
      closest-sort qp (length qp.all_peers) states
      ∙ ap (λ l. (sort qp, ids l))
          (take_all (length qp.all_peers) (select (in_states states) (sort qp).all_peers) (
            rw (← length-sort qp)
              (le→leb _ _ (length-select-le (in_states states) (sort qp).all_peers))))

  num_heard-sort :
      (qp : QueryPeerset Peer)
      → num_heard qp ≡ (sort qp, length (ids (select (in_states (heard ∷ [])) (sort qp).all_peers)))
  unfolding num_heard
  num_heard-sort qp = ap (λ x. (x.0, length x.1)) (in_states-sort qp (heard ∷ []))

  pub num_waiting-sort :
      (qp : QueryPeerset Peer)
      → num_waiting qp
        ≡ (sort qp, length (ids (select (in_states (waiting ∷ [])) (sort qp).all_peers)))
  unfolding num_waiting
  num_waiting-sort qp = ap (λ x. (x.0, length x.1)) (in_states-sort qp (waiting ∷ []))

  count_none :
      (p : QueryPeerState Peer → Bool) (xs : List (QueryPeerState Peer))
      → (length (ids (select p xs)) == 0) ≡ not (any p xs)
  count_none p [] = refl
  count_none p (x ∷ xs) = ground (arith, count_none p xs)

  any-or :
      (xs : List (QueryPeerState Peer))
      → any (in_states (heard ∷ waiting ∷ [])) xs
        ≡ any (in_states (heard ∷ [])) xs || any (in_states (waiting ∷ [])) xs
  any-or [] = refl
  any-or (x ∷ xs) = ground (arith, any-or xs)

  pub starvation-sort :
      (c : Settings Peer) (qp : QueryPeerset Peer)
      → is_starvation_termination c qp
        ≡ (sort qp, not (any (in_states (heard ∷ waiting ∷ [])) (sort qp).all_peers))
  unfolding is_starvation_termination
  starvation-sort c qp =
      rw
        (
          is_starvation_termination,
          num_heard-sort qp,
          num_waiting-sort (sort qp),
          sort-sort qp,
          count_none (in_states (heard ∷ [])) (sort qp).all_peers,
          count_none (in_states (waiting ∷ [])) (sort qp).all_peers,
          any-or (sort qp).all_peers,
        )
        (neither (sort qp) (any (in_states (heard ∷ [])) (sort qp).all_peers) _)

  -- The answer for the peers in order: the reason to stop, and else the peers to query.
  abbrev pub decide :
      ℕ → ℕ → List (QueryPeerState Peer) → Option LookupTerminationReason × List Peer
  decide beta n peers =
      if not (any (in_states (heard ∷ waiting ∷ [])) peers)
      then (some lookup_starvation, [])
      else if all is_queried (take beta (select (in_states (heard ∷ waiting ∷ queried ∷ [])) peers))
      then (some lookup_completed, [])
      else (none, ids (take n (select (in_states (heard ∷ [])) peers)))

  pub queried_front :
      (c : Settings Peer) (qp : QueryPeerset Peer)
      → Distinct (ids qp.all_peers)
      → let alive = select (in_states (heard ∷ waiting ∷ queried ∷ [])) (sort qp).all_peers in
        all_queried c (sort qp) (ids (take c.beta alive))
        ≡ some (all is_queried (take c.beta alive))
  queried_front c qp d =
      let alive = select (in_states (heard ∷ waiting ∷ queried ∷ [])) (sort qp).all_peers in
      all_queried-all c (sort qp) (take c.beta alive) (
        Found-take (sort qp).all_peers c.beta alive (
          Found-select (sort qp).all_peers (in_states (heard ∷ waiting ∷ queried ∷ []))
            (sort qp).all_peers (Distinct-Found (sort qp).all_peers (Distinct-sort qp d))))

  pub ready-sort :
      (c : Settings Peer) (qp : QueryPeerset Peer) (stopped : Bool) (n : ℕ)
      → Distinct (ids qp.all_peers)
      → is_ready_to_terminate c qp stopped (some n)
        ≡ some (
            if stopped then (qp, some lookup_stopped, []) else (
              sort qp,
              (decide c.beta n (sort qp).all_peers).0,
              (decide c.beta n (sort qp).all_peers).1,
            ))
  unfolding is_ready_to_terminate
  ready-sort c qp stopped n d =
      rw
        (
          is_ready_to_terminate,
          starvation-sort c qp,
          closest-sort (sort qp) c.beta (heard ∷ waiting ∷ queried ∷ []),
          sort-sort qp,
          queried_front c qp d,
          closest-sort (sort qp) n (heard ∷ []),
          sort-sort qp,
        )
        (branches (sort qp) qp stopped
          (not (any (in_states (heard ∷ waiting ∷ [])) (sort qp).all_peers)) _ _)

  -- The same on a set that is in order.
  pub ready-sorted :
      (c : Settings Peer) (qp : QueryPeerset Peer) (stopped : Bool) (n : ℕ)
      → Distinct (ids (sort qp).all_peers)
      → is_ready_to_terminate c (sort qp) stopped (some n)
        ≡ some (
            if stopped then (sort qp, some lookup_stopped, []) else (
              sort qp,
              (decide c.beta n (sort qp).all_peers).0,
              (decide c.beta n (sort qp).all_peers).1,
            ))
  ready-sorted c qp stopped n d =
      ready-sort c (sort qp) stopped n d
      ∙ ap
          (λ z. some (
            if◌then◌else◌ {A = QueryPeerset Peer × Option LookupTerminationReason × List Peer}
              stopped (sort qp, some lookup_stopped, [])
              (z, (decide c.beta n z.all_peers).0, (decide c.beta n z.all_peers).1)))
          (sort-sort qp)

  -- Let no peer be in the set twice and the flag `sorted` tell the truth. `isReadyToTerminate`,
  -- for up to n peers, does not panic. If `stopFn` answers true the reason is `LookupStopped`.
  -- Otherwise take the peers by ascending distance: if none is heard of or waiting, the reason is
  -- starvation; else, if the beta nearest that are not unreachable have all been queried, the
  -- lookup is completed; else it goes on with the n nearest peers that are only heard of.
  pub is_ready_to_terminate-decide :
      (c : Settings Peer) (qp : QueryPeerset Peer) (stopped : Bool) (n : ℕ)
      → Distinct (ids qp.all_peers)
      → IsSortedFlag qp
      → Ordered nearer (sort qp).all_peers
        × Perm (sort qp).all_peers qp.all_peers
        × (is_ready_to_terminate c qp stopped (some n)
            ≡ some (
                if stopped then (qp, some lookup_stopped, []) else (
                  sort qp,
                  (decide c.beta n (sort qp).all_peers).0,
                  (decide c.beta n (sort qp).all_peers).1,
                )))
  is_ready_to_terminate-decide c qp stopped n d f =
      let s = sort-sorted qp f in (s.0, s.1, ready-sort c qp stopped n d)
