-- ===== src/Query/Rounds.antt =====
-- The rounds of a lookup: no panic, and no more than alpha peers waiting.
use go_libp2p_hybrid_kad_dht.Prelude.{
  ℕ, zero, suc, ◌+◌, ◌-◌, ◌≡◌, ◌≤◌, refl, ap, ◌∙◌, Bool, true, false, not, Option, none, some, List,
  [], ◌∷◌, take, length, any, all, select, if◌then◌else◌, arith, Bool-cases, inl, inr, Eq, mem,
  beq_refl, and_intro, or-left, length-take, length-map, ◌>>=◌,
}
use go_libp2p_hybrid_kad_dht.QueryPeerset.{
  heard, waiting, queried, QueryPeerState, QueryPeerset, sort,
}
use go_libp2p_hybrid_kad_dht.QueryPeerset.Closest.{in_states}
use go_libp2p_hybrid_kad_dht.QueryPeerset.Laws.{ids}
use go_libp2p_hybrid_kad_dht.Query.{
  Settings, Query, Event, update, done, LookupTerminationReason, terminate, lookup_stopped,
  spawn_queries, after_select, run_round,
}
use go_libp2p_hybrid_kad_dht.Query.Found.{le→leb}
use go_libp2p_hybrid_kad_dht.Query.Termination.{is_queried, decide, num_waiting-sort, ready-sorted}
use go_libp2p_hybrid_kad_dht.Query.Sound.{
  Sound, n_waiting, sort-Sound, weaken-Sound, listed-n_waiting,
}
use go_libp2p_hybrid_kad_dht.Query.Updates.{Awaited, update_state-Sound, spawn_queries-Sound}

module _ {Peer : Type 0} ⦃e : Eq Peer⦄ where
  abbrev pub NextWithin : ℕ → QueryPeerset Peer → List Peer → Type 0
  NextWithin n qp ps = (all (λ p. mem p (ids qp.all_peers)) ps ≡ true) × (length ps ≤ n)

  -- Peers taken from a set are in it.
  members-more :
      (x : Peer) (xs ps : List Peer)
      → all (λ p. mem p xs) ps ≡ true
      → all (λ p. mem p (x ∷ xs)) ps ≡ true
  members-more x xs [] h = refl
  members-more x xs (p ∷ ps) h = ground (arith, members-more x xs ps)

  members-select :
      (t : QueryPeerState Peer → Bool) (xs : List (QueryPeerState Peer))
      → all (λ p. mem p (ids xs)) (ids (select t xs)) ≡ true
  members-select t [] = refl
  members-select t (x ∷ xs) = elim (Bool-cases (t x)) [
    | inl kept ↦ rw kept (
        and_intro (mem x.id (ids (x ∷ xs))) _ (or-left (e.beq x.id x.id) _ (beq_refl x.id))
          (members-more x.id (ids xs) (ids (select t xs)) (members-select t xs)))
    | inr out ↦ rw out (members-more x.id (ids xs) (ids (select t xs)) (members-select t xs))
  ]

  pub all-take :
      (p : Peer → Bool) (n : ℕ) (xs : List (QueryPeerState Peer))
      → all p (ids xs) ≡ true
      → all p (ids (take n xs)) ≡ true
  all-take p zero xs h = refl
  all-take p (suc n) [] h = refl
  all-take p (suc n) (x ∷ xs) h = ground (arith, all-take p n xs)

  pub decide-next :
      (beta n : ℕ) (qp : QueryPeerset Peer) → NextWithin n qp (decide beta n qp.all_peers).1
  decide-next beta n qp =
      let starved = not (any (in_states (heard ∷ waiting ∷ [])) qp.all_peers) in
      let alive = select (in_states (heard ∷ waiting ∷ queried ∷ [])) qp.all_peers in
      elim (Bool-cases starved) [
        | inl is_starved ↦ rw is_starved (refl, omega arith)
        | inr not_starved ↦ elim (Bool-cases (all is_queried (take beta alive))) [
          | inl complete ↦ rw (not_starved, complete) (refl, omega arith)
          | inr incomplete ↦
              let next = select (in_states (heard ∷ [])) qp.all_peers in
              rw (not_starved, incomplete)
                (
                  all-take (λ p. mem p (ids qp.all_peers)) n next
                      (members-select (in_states (heard ∷ [])) qp.all_peers),
                  omega (arith, length-map (λ q. q.id) (take n next), length-take n next),
                )
        ]
      ]

  -- The end of a round, from the verdict on the set.
  abbrev pub close_round :
      Settings Peer
      → Query Peer
      → QueryPeerset Peer
      → Option LookupTerminationReason
      → List Peer
      → Option (Query Peer × List Peer)
  close_round c q qp reason peers =
      let q' = record q { query_peers = qp } in
      let q'' : Query Peer = elim reason [ none ↦ q' | some r ↦ terminate q' ] in
      if q''.terminated
      then some (q'', [])
      else (do q3 ← spawn_queries c q'' peers; some (q3, peers))

  close_round-Sound :
      (c : Settings Peer) (q : Query Peer) (qp : QueryPeerset Peer)
      (reason : Option LookupTerminationReason) (peers : List Peer) (n : ℕ)
      → Sound c.self n qp
      → n ≤ c.alpha
      → NextWithin (c.alpha - n) qp peers
      → (q' : Query Peer) × (ps : List Peer) × (close_round c q qp reason peers ≡ some (q', ps))
        × Sound c.self c.alpha q'.query_peers
  close_round-Sound c q qp (some r) peers n s l w =
      (terminate (record q { query_peers = qp }), [], refl, weaken-Sound c.self n c.alpha qp l s)
  close_round-Sound c q qp none peers n s l w = elim (Bool-cases q.terminated) [
    | inl stopped ↦
        (record q { query_peers = qp }, [], rw stopped refl, weaken-Sound c.self n c.alpha qp l s)
    | inr goes_on ↦
        let spawned = spawn_queries-Sound c peers n (record q { query_peers = qp }) s w.0 in
        let q0 : Query Peer = record q { query_peers = qp } in
        (
          spawned.0,
          peers,
          ap
                (λ b.
                  if◌then◌else◌ {A = Option (Query Peer × List Peer)} b (some (q0, []))
                    (spawn_queries c q0 peers >>= λ q3. some (q3, peers)))
                goes_on
              ∙ ap
                  (λ o.
                    ◌>>=◌ {A = Query Peer} {B = Query Peer × List Peer} o (λ q3. some (q3, peers)))
                  spawned.1,
          weaken-Sound c.self (length peers + n) c.alpha spawned.0.query_peers
              (omega (arith, w.1, l)) spawned.2,
        )
  ]

  pub after_select-close :
      (c : Settings Peer) (q : Query Peer) (stopped : Bool)
      → Sound c.self c.alpha q.query_peers
      → let qp = sort q.query_peers in
        let verdict = decide c.beta (c.alpha - n_waiting qp.all_peers) qp.all_peers in
        after_select c q stopped
        ≡ close_round c q qp
            (if stopped then some lookup_stopped else verdict.0)
            (if stopped then [] else verdict.1)
  unfolding after_select
  after_select-close c q true s = rw (after_select, num_waiting-sort q.query_peers) refl
  after_select-close c q false s =
      let qp = sort q.query_peers in
      let sorted_sound = sort-Sound c.self c.alpha q.query_peers s in
      let n = n_waiting qp.all_peers in
      rw
        (
          after_select,
          num_waiting-sort q.query_peers,
          listed-n_waiting qp.all_peers,
          le→leb n c.alpha sorted_sound.few_waiting,
          ready-sorted c q.query_peers false (c.alpha - n) sorted_sound.distinct,
        )
        refl

  after_select-Sound :
      (c : Settings Peer) (q : Query Peer) (stopped : Bool)
      → Sound c.self c.alpha q.query_peers
      → (q' : Query Peer) × (ps : List Peer) × (after_select c q stopped ≡ some (q', ps))
        × Sound c.self c.alpha q'.query_peers
  after_select-Sound c q stopped s =
      let qp = sort q.query_peers in
      let sound = sort-Sound c.self c.alpha q.query_peers s in
      let n = n_waiting qp.all_peers in
      let verdict = decide c.beta (c.alpha - n) qp.all_peers in
      let closed =
        close_round-Sound c q qp (if stopped then some lookup_stopped else verdict.0)
          (if stopped then [] else verdict.1) n
          (record { distinct = sound.distinct; no_self = sound.no_self; few_waiting = omega arith })
          sound.few_waiting (next stopped) in
      (closed.0, closed.1, after_select-close c q stopped s ∙ closed.2, closed.3)
    where
      next :
          (b : Bool)
          → NextWithin (c.alpha - n_waiting (sort q.query_peers).all_peers) (sort q.query_peers) (
              if b
              then []
              else (decide c.beta
                  (c.alpha - n_waiting (sort q.query_peers).all_peers)
                  (sort q.query_peers).all_peers).1)
      next true = (refl, omega arith)
      next false =
          decide-next c.beta (c.alpha - n_waiting (sort q.query_peers).all_peers)
            (sort q.query_peers)

  -- An event that can come up: the end of the context, or an awaited update.
  abbrev pub Possible : Query Peer → Event Peer → Type 0
  Possible q (update up) = Awaited q up
  Possible q done = Unit {0}

  -- Let a query go on whose set has no peer twice, not the own peer, and at most alpha waiting
  -- peers, and let the event be the end of the context, or an update that either reports nothing
  -- of a peer queried or reports one waiting peer, as queried or as unreachable. Then the round of
  -- `run`, whatever `stopFn` answers, does not panic, and the set that is left has no peer twice,
  -- not the own peer, and at most alpha waiting peers.
  pub run_round-Sound :
      (c : Settings Peer) (q : Query Peer) (event : Event Peer) (stopped : Bool)
      → q.terminated ≡ false
      → Sound c.self c.alpha q.query_peers
      → Possible q event
      → (q' : Query Peer) × (ps : List Peer) × (run_round c q event stopped ≡ some (q', ps))
        × Sound c.self c.alpha q'.query_peers
  unfolding run_round
  run_round-Sound c q (update up) stopped r s w =
      let updated = update_state-Sound c c.alpha q up r s w in
      let closed = after_select-Sound c updated.0 stopped updated.2 in
      (closed.0, closed.1, rw (updated.1, run_round) closed.2, closed.3)
  run_round-Sound c q done stopped r s w =
      let closed = after_select-Sound c (terminate q) stopped s in
      (closed.0, closed.1, closed.2, closed.3)
