-- ===== src/Query/Going.antt =====
-- A lookup among given peers: what a round leaves of it.
use go_libp2p_hybrid_kad_dht.Prelude.{
  ℕ, suc, ◌+◌, ◌-◌, ◌≡◌, ◌≤◌, ◌<◌, ◌⊎◌, refl, sym, ap, ◌∙◌, Bool, true, false, Option, none, some,
  List, [], ◌∷◌, length, if◌then◌else◌, arith, Bool-cases, inl, inr, Eq, mem, beq→eq, length-map,
  ◌>>=◌, put,
}
use go_libp2p_hybrid_kad_dht.QueryPeerset.{
  waiting, queried, unreachable, QueryPeerset, sort, get_state,
}
use go_libp2p_hybrid_kad_dht.QueryPeerset.Laws.{ids, false-true}
use go_libp2p_hybrid_kad_dht.Query.{
  Settings, Query, QueryUpdate, LookupTerminationReason, queried_one, unreachable_one, add_heard,
  update_state, terminate, lookup_stopped, spawn_queries, after_select,
}
use go_libp2p_hybrid_kad_dht.Query.Termination.{decide}
use go_libp2p_hybrid_kad_dht.Query.Sound.{
  Sound, n_waiting, sort-Sound, add_heard-Sound, add_heard-keeps, get_state-mem, weaken-Sound,
  none-some,
}
use go_libp2p_hybrid_kad_dht.Query.Updates.{with_heard, update_state-running}
use go_libp2p_hybrid_kad_dht.Query.Rounds.{NextWithin, decide-next, close_round, after_select-close}
use go_libp2p_hybrid_kad_dht.Query.Done.{n_done, n_done-sort, n_done-add_heard, set_state-Counts}
use go_libp2p_hybrid_kad_dht.Query.Inside.{Inside, Inside-sort, Inside-add_heard, length-Inside}
use go_libp2p_hybrid_kad_dht.Query.Waits.{
  Waits, n_done-Waits, Live, Starts, spawn_queries-Waits, decide-Live,
}

module _ {Peer : Type 0} ⦃e : Eq Peer⦄ (c : Settings Peer) (us : List Peer) where
  -- A lookup among the peers `us` of which at least k are done.
  pub record Going (k n : ℕ) (qp : QueryPeerset Peer) : Type 0 where
    pub sound : Sound c.self n qp
    pub inside : Inside us (ids qp.all_peers)
    pub many_done : k ≤ n_done qp.all_peers

  pub add_heard-Going :
      (k n : ℕ) (cause : Peer) (ps : List Peer) (qp : QueryPeerset Peer)
      → Inside us ps
      → Going k n qp
      → Going k n (add_heard c cause qp ps)
  add_heard-Going k n cause ps qp i g = record {
    sound = add_heard-Sound c n cause ps qp g.sound;
    inside = Inside-add_heard c us cause ps qp i g.inside;
    many_done = rw (n_done-add_heard c cause ps qp) g.many_done;
  }

  sort-Going : (k n : ℕ) (qp : QueryPeerset Peer) → Going k n qp → Going k n (sort qp)
  sort-Going k n qp g = record {
    sound = sort-Sound c.self n qp g.sound;
    inside = Inside-sort us qp g.inside;
    many_done = rw (n_done-sort qp) g.many_done;
  }

  other_peer :
      (n : ℕ) (qp : QueryPeerset Peer) (p : Peer)
      → Sound c.self n qp
      → get_state qp p ≡ some waiting
      → e.beq p c.self ≡ false
  other_peer n qp p s w = elim (Bool-cases (e.beq p c.self)) [
    | inl own ↦ absurd (
        false-true (
          sym s.no_self
          ∙ ap (λ x. mem x (ids qp.all_peers)) (sym (beq→eq p c.self own))
          ∙ get_state-mem qp p waiting w))
    | inr other ↦ other
  ]

  -- An update on a waiting peer, with one peer more done afterwards.
  abbrev pub Reports : Query Peer → QueryUpdate Peer → Type 0
  Reports q up =
      (p : Peer) × (get_state q.query_peers p ≡ some waiting)
      × (((up.queried_peers ≡ p ∷ []) × (up.unreachable_peers ≡ []))
          ⊎ ((up.queried_peers ≡ []) × (up.unreachable_peers ≡ p ∷ [])))

  pub update_state-Going :
      (k : ℕ) (q : Query Peer) (up : QueryUpdate Peer)
      → q.terminated ≡ false
      → Going k c.alpha q.query_peers
      → Inside us up.heard_peers
      → Reports q up
      → (q' : Query Peer) × (update_state c q up ≡ some q')
        × Going (suc k) c.alpha q'.query_peers
        × (q'.terminated ≡ false)
  unfolding queried_one unreachable_one update_state
  update_state-Going k q up r g i w =
      let q0 = with_heard c q up in
      let g0 = add_heard-Going k c.alpha up.cause up.heard_peers q.query_peers i g in
      let h = add_heard-keeps c up.cause w.0 waiting up.heard_peers q.query_peers w.1 in
      let other = other_peer c.alpha q0.query_peers w.0 g0.sound h in
      elim w.2 [
        | inl answered ↦
            let set =
              set_state-Counts c.self c.alpha q0.query_peers w.0 waiting queried g0.sound h in
            (
              record q0 {
                query_peers = set.0;
                peer_times = put q0.peer_times w.0 up.query_duration;
              },
              rw
                  (
                    update_state-running c q up r,
                    answered.0,
                    answered.1,
                    queried_one,
                    other,
                    h,
                    set.1,
                  )
                  refl,
              record {
                sound = set.2;
                inside = rw set.3 g0.inside;
                many_done = omega (arith, set.4, g0.many_done);
              },
              r,
            )
        | inr failed ↦
            let set =
              set_state-Counts c.self c.alpha q0.query_peers w.0 waiting unreachable g0.sound h in
            (
              record q0 { query_peers = set.0 },
              rw
                  (
                    update_state-running c q up r,
                    failed.0,
                    failed.1,
                    unreachable_one,
                    other,
                    h,
                    set.1,
                  )
                  refl,
              record {
                sound = set.2;
                inside = rw set.3 g0.inside;
                many_done = omega (arith, set.4, g0.many_done);
              },
              r,
            )
      ]

  -- What a round leaves: a lookup that has ended, or waits for an answer.
  abbrev pub Leaves : ℕ → Query Peer → Option (Query Peer × List Peer) → Type 0
  Leaves k q o =
      (q' : Query Peer) × (ps : List Peer) × (o ≡ some (q', ps))
      × Going k c.alpha q'.query_peers
      × ((q'.terminated ≡ true) ⊎ (q.terminated ≡ false) × Waits q'.query_peers)

  close_round-Leaves :
      (k n : ℕ) (q : Query Peer) (qp : QueryPeerset Peer) (reason : Option LookupTerminationReason)
      (peers : List Peer)
      → Going k n qp
      → n ≤ c.alpha
      → NextWithin (c.alpha - n) qp peers
      → (reason ≡ none → Live qp peers × (Waits qp ⊎ Starts peers))
      → Leaves k q (close_round c q qp reason peers)
  close_round-Leaves k n q qp (some r) peers g l w next = (
    terminate (record q { query_peers = qp }),
    [],
    refl,
    record {
      sound = weaken-Sound c.self n c.alpha qp l g.sound;
      inside = g.inside;
      many_done = g.many_done;
    },
    inl refl,
  )
  close_round-Leaves k n q qp none peers g l w next = elim (Bool-cases q.terminated) [
    | inl stopped ↦ (
      record q { query_peers = qp },
      [],
      rw stopped refl,
      record {
        sound = weaken-Sound c.self n c.alpha qp l g.sound;
        inside = g.inside;
        many_done = g.many_done;
      },
      inl stopped,
    )
    | inr goes_on ↦
        let q0 : Query Peer = record q { query_peers = qp } in
        let live = next refl in
        let spawned = spawn_queries-Waits c peers n q0 g.sound live.0 in
        (
          spawned.0,
          peers,
          ap
                (λ b.
                  if◌then◌else◌ {A = Option (Query Peer × List Peer)} b (some (q0, []))
                    (spawn_queries c q0 peers >>= λ q3. some (q3, peers)))
                goes_on
              ∙ ap
                  (λ o.
                    ◌>>=◌ {A = Query Peer} {B = Query Peer × List Peer} o (λ q3. some (q3, peers)))
                  spawned.1,
          record {
            sound =
                weaken-Sound c.self (length peers + n) c.alpha spawned.0.query_peers
                  (omega (arith, w.1, l)) spawned.2;
            inside = rw spawned.3 g.inside;
            many_done = rw spawned.4 g.many_done;
          },
          inr (goes_on, spawned.5 live.1),
        )
  ]

  pub after_select-Leaves :
      (k : ℕ) (q : Query Peer) (stopped : Bool)
      → 1 ≤ c.alpha
      → Going k c.alpha q.query_peers
      → Leaves k q (after_select c q stopped)
  after_select-Leaves k q stopped a g =
      let qp = sort q.query_peers in
      let g0 = sort-Going k c.alpha q.query_peers g in
      let n = n_waiting qp.all_peers in
      let verdict = decide c.beta (c.alpha - n) qp.all_peers in
      let closed =
        close_round-Leaves k n q qp (if stopped then some lookup_stopped else verdict.0)
          (if stopped then [] else verdict.1)
          (record {
            sound = record {
              distinct = g0.sound.distinct;
              no_self = g0.sound.no_self;
              few_waiting = omega arith;
            };
            inside = g0.inside;
            many_done = g0.many_done;
          })
          g0.sound.few_waiting (within stopped) (next stopped) in
      (closed.0, closed.1, after_select-close c q stopped g.sound ∙ closed.2, closed.3, closed.4)
    where
      qp : QueryPeerset Peer
      qp = sort q.query_peers

      slots : ℕ
      slots = c.alpha - n_waiting qp.all_peers

      within :
          (b : Bool) → NextWithin slots qp (if b then [] else (decide c.beta slots qp.all_peers).1)
      within true = (refl, omega arith)
      within false = decide-next c.beta slots qp

      next :
          (b : Bool)
          → (if b then some lookup_stopped else (decide c.beta slots qp.all_peers).0) ≡ none
          → let peers = if b then [] else (decide c.beta slots qp.all_peers).1 in
            Live qp peers × (Waits qp ⊎ Starts peers)
      next true h = absurd (none-some lookup_stopped (sym h))
      next false h =
          decide-Live c.beta slots qp (sort-Going k c.alpha q.query_peers g).sound.distinct
            (λ idle. omega (arith, a, idle)) h

  -- Not all peers are done while one waits.
  pub few_done : (k : ℕ) (qp : QueryPeerset Peer) → Going k c.alpha qp → Waits qp → k < length us
  few_done k qp g w = omega (
    arith,
    g.many_done,
    n_done-Waits qp w,
    length-map (λ q. q.id) qp.all_peers,
    length-Inside us (ids qp.all_peers) g.sound.distinct g.inside,
  )
