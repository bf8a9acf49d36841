-- ===== src/Query/Ends.antt =====
-- The loop of `run` comes to its end: every answer leaves one more peer done.
use go_libp2p_hybrid_kad_dht.Prelude.{
  ℕ, zero, suc, ◌+◌, ◌≡◌, ◌≤◌, ◌⊎◌, refl, sym, ap, subst, ◌∙◌, Bool, true, false, Option, none,
  some, List, length, arith, Bool-cases, inl, inr, Eq, ◌>>=◌,
}
use go_libp2p_hybrid_kad_dht.QueryPeerset.{waiting, get_state}
use go_libp2p_hybrid_kad_dht.QueryPeerset.Laws.{false-true}
use go_libp2p_hybrid_kad_dht.Query.{
  Settings, Query, Event, update, done, new_query, first_update, query_peer, mark_queried,
  mark_unreachable, terminate, after_select, run_round, run_rounds, run,
}
use go_libp2p_hybrid_kad_dht.Query.Sound.{Sound}
use go_libp2p_hybrid_kad_dht.Query.Updates.{with_heard, update_state-running}
use go_libp2p_hybrid_kad_dht.Query.Inside.{Inside}
use go_libp2p_hybrid_kad_dht.Query.Waits.{Waits}
use go_libp2p_hybrid_kad_dht.Query.Going.{
  Going, add_heard-Going, Reports, update_state-Going, after_select-Leaves, few_done,
}

module _ {Peer : Type 0} ⦃e : Eq Peer⦄ (c : Settings Peer) (us : List Peer) where
  -- What can come up while a lookup waits: the end of the context, or what `queryPeer` sends for
  -- a waiting peer, which names peers of `us` only.
  abbrev pub Answers :
      (ℕ → List Peer → List Peer) → ℕ → (Peer → Bool) → Query Peer → Event Peer → Type 0
  Answers diversity bound follows q done = Unit {0}
  Answers diversity bound follows q (update up) =
      (p : Peer) × (get_state q.query_peers p ≡ some waiting)
      × (dialled : Bool) × (response : Option (List Peer)) × (duration : ℕ) × (up
          ≡ query_peer c diversity bound follows p dialled response duration)
      × Inside us up.heard_peers

  module _ (diversity : ℕ → List Peer → List Peer) (bound : ℕ) (follows : Peer → Bool) where
    query_peer-Reports :
        (q : Query Peer) (p : Peer) (dialled : Bool) (response : Option (List Peer)) (duration : ℕ)
        → get_state q.query_peers p ≡ some waiting
        → Reports c us q (query_peer c diversity bound follows p dialled response duration)
    unfolding query_peer
    query_peer-Reports q p true (some ps) duration w = (p, w, inl (refl, refl))
    query_peer-Reports q p true none duration w = (p, w, inr (refl, refl))
    query_peer-Reports q p false response duration w = (p, w, inr (refl, refl))

    -- A round ends the lookup, or leaves one more peer done and some peer waiting.
    abbrev Rounds : ℕ → Option (Query Peer × List Peer) → Type 0
    Rounds k o =
        (q' : Query Peer) × (ps : List Peer) × (o ≡ some (q', ps))
        × ((q'.terminated ≡ true) × Sound c.self c.alpha q'.query_peers
            ⊎ Going c us (suc k) c.alpha q'.query_peers × Waits q'.query_peers)

    run_round-Rounds :
        (k : ℕ) (q : Query Peer) (event : Event Peer) (stopped : Bool)
        → 1 ≤ c.alpha
        → q.terminated ≡ false
        → Going c us k c.alpha q.query_peers
        → Answers diversity bound follows q event
        → Rounds k (run_round c q event stopped)
    unfolding run_round
    run_round-Rounds k q done stopped a r g w =
        let closed = after_select-Leaves c us k (terminate q) stopped a g in
        (
          closed.0,
          closed.1,
          closed.2,
          elim closed.4 [
            | inl ended ↦ inl (ended, closed.3.sound)
            | inr waits ↦ absurd (false-true (sym waits.0))
          ],
        )
    run_round-Rounds k q (update up) stopped a r g w =
        let reports = subst (Reports c us q) (sym w.5) (query_peer-Reports q w.0 w.2 w.3 w.4 w.1) in
        let updated = update_state-Going c us k q up r g w.6 reports in
        let closed = after_select-Leaves c us (suc k) updated.0 stopped a updated.2 in
        (
          closed.0,
          closed.1,
          rw (updated.1, run_round) closed.2,
          elim closed.4 [
            | inl ended ↦ inl (ended, closed.3.sound)
            | inr waits ↦ inr (closed.3, waits.1)
          ],
        )

    abbrev pub Ends : Option (Query Peer) → Type 0
    Ends o =
        (q' : Query Peer) × (o ≡ some q')
        × (q'.terminated ≡ true)
        × Sound c.self c.alpha q'.query_peers

    run_rounds-ended :
        (world : ℕ → Query Peer → Event Peer × Bool) (n : ℕ) (q : Query Peer)
        → q.terminated ≡ true
        → run_rounds c world n q ≡ some q
    unfolding run_rounds
    run_rounds-ended world zero q t = refl
    run_rounds-ended world (suc n) q t =
        ap
          (λ b. elim b [
            | true ↦ some q
            | false ↦
                ◌>>=◌ {A = Query Peer × List Peer} {B = Query Peer}
                  (run_round c q (world n q).0 (world n q).1) (λ r. run_rounds c world n r.0)
          ])
          t

    module _ (world : ℕ → Query Peer → Event Peer × Bool)
        (answers : (n : ℕ) (q : Query Peer)
          → q.terminated ≡ false
          → Waits q.query_peers
          → Answers diversity bound follows q (world n q).0) where
      run_rounds-Ends :
          (n k : ℕ) (q : Query Peer)
          → 1 ≤ c.alpha
          → Going c us k c.alpha q.query_peers
          → Waits q.query_peers
          → length us ≤ k + n
          → Ends (run_rounds c world n q)
      unfolding run_rounds
      run_rounds-Ends zero k q a g w l =
          absurd (omega (arith, few_done c us k q.query_peers g w, l))
      run_rounds-Ends (suc n) k q a g w l = elim (Bool-cases q.terminated) [
        | inl ended ↦ (q, run_rounds-ended world (suc n) q ended, ended, g.sound)
        | inr runs ↦
            let round =
              run_round-Rounds k q (world n q).0 (world n q).1 a runs g (answers n q runs w) in
            let rest : Ends (run_rounds c world n round.0) = elim round.3 [
              | inl over ↦ (round.0, run_rounds-ended world n round.0 over.0, over.0, over.1)
              | inr on ↦ run_rounds-Ends n (suc k) round.0 a on.0 on.1 (omega (arith, l))
            ] in
            (rest.0, rw (runs, run_rounds, round.2) rest.1, rest.2, rest.3)
      ]

      -- Let alpha be at least 1, let the seed peers and all peers that answers name be among
      -- the peers `us`, and let what comes up while the lookup runs and some peer is waiting be
      -- the end of the context or what `queryPeer` sends for a waiting peer, after a dial and a
      -- request that succeed or fail. Then `run`, started on a new query, whatever `stopFn`
      -- answers, does not panic and has ended the lookup after the first round and at most as
      -- many more as `us` has peers; the set that is left has no peer twice, not the own peer,
      -- and at most alpha waiting peers.
      pub run-Ends :
          (stopped : Bool) (n : ℕ)
          → 1 ≤ c.alpha
          → Inside us c.seed_peers
          → length us ≤ n
          → Ends (run c world stopped n new_query)
      unfolding run run_round mark_queried mark_unreachable
      run-Ends stopped n a seeds l =
          let q0 = with_heard c new_query (first_update c) in
          let g0 : Going c us 0 c.alpha q0.query_peers =
            add_heard-Going c us 0 c.alpha c.self c.seed_peers _ seeds (record {
              sound = record { distinct = tt; no_self = refl; few_waiting = omega arith };
              inside = refl;
              many_done = omega arith;
            }) in
          let closed = after_select-Leaves c us 0 q0 stopped a g0 in
          let first : run_round c new_query (update (first_update c)) stopped
              ≡ some (closed.0, closed.1) =
            ap
              (λ o.
                ◌>>=◌ {A = Query Peer} {B = Query Peer × List Peer} o
                  (λ q. after_select c q stopped))
              (update_state-running c new_query (first_update c) refl)
            ∙ closed.2 in
          let rest : Ends (run_rounds c world n closed.0) = elim closed.4 [
            | inl over ↦ (closed.0, run_rounds-ended world n closed.0 over, over, closed.3.sound)
            | inr on ↦ run_rounds-Ends n 0 closed.0 a closed.3 on.1 (omega (arith, l))
          ] in
          (rest.0, rw (run, first) rest.1, rest.2, rest.3)
