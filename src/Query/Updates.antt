-- ===== src/Query/Updates.antt =====
-- `updateState` and `spawnQuery` on sound peer sets.
use go_libp2p_hybrid_kad_dht.Prelude.{
  ℕ, suc, ◌+◌, ◌≡◌, ◌⊎◌, refl, ap, ◌∙◌, true, false, Option, none, some, List, [], ◌∷◌, length, all,
  if◌then◌else◌, arith, Bool-cases, inl, inr, Eq, mem, and-left, and-right, put, ◌>>=◌,
}
use go_libp2p_hybrid_kad_dht.QueryPeerset.{waiting, queried, unreachable, get_state}
use go_libp2p_hybrid_kad_dht.QueryPeerset.Laws.{ids}
use go_libp2p_hybrid_kad_dht.Query.{
  Settings, Query, QueryUpdate, queried_one, mark_queried, unreachable_one, mark_unreachable,
  add_heard, update_state, spawn_queries,
}
use go_libp2p_hybrid_kad_dht.Query.Sound.{
  Sound, add_heard-Sound, add_heard-keeps, set_state-Sound, get_state-mem, get_referrer-mem,
  weaken-Sound,
}

module _ {Peer : Type 0} ⦃e : Eq Peer⦄ where
  -- An update as `queryPeer` sends it for a waiting peer, or `run` to itself.
  abbrev pub Awaited : Query Peer → QueryUpdate Peer → Type 0
  Awaited q up =
      ((up.queried_peers ≡ []) × (up.unreachable_peers ≡ []))
      ⊎ ((p : Peer) × (get_state q.query_peers p ≡ some waiting)
          × (((up.queried_peers ≡ p ∷ []) × (up.unreachable_peers ≡ []))
              ⊎ ((up.queried_peers ≡ []) × (up.unreachable_peers ≡ p ∷ []))))

  queried_one-Sound :
      (c : Settings Peer) (duration k : ℕ) (q : Query Peer) (p : Peer)
      → Sound c.self k q.query_peers
      → get_state q.query_peers p ≡ some waiting
      → (q' : Query Peer) × (queried_one c duration q p ≡ some q')
        × Sound c.self k q'.query_peers
        × (q'.terminated ≡ q.terminated)
  unfolding queried_one
  queried_one-Sound c duration k q p s h = elim (Bool-cases (e.beq p c.self)) [
    | inl own ↦ (q, rw (own, queried_one) refl, s, refl)
    | inr other ↦
        let set =
          set_state-Sound c.self k q.query_peers p queried s
            (get_state-mem q.query_peers p waiting h) in
        (
          record q { query_peers = set.0; peer_times = put q.peer_times p duration },
          rw (other, queried_one, h, set.1) refl,
          set.2,
          refl,
        )
  ]

  unreachable_one-Sound :
      (c : Settings Peer) (k : ℕ) (q : Query Peer) (p : Peer)
      → Sound c.self k q.query_peers
      → get_state q.query_peers p ≡ some waiting
      → (q' : Query Peer) × (unreachable_one c q p ≡ some q')
        × Sound c.self k q'.query_peers
        × (q'.terminated ≡ q.terminated)
  unfolding unreachable_one
  unreachable_one-Sound c k q p s h = elim (Bool-cases (e.beq p c.self)) [
    | inl own ↦ (q, rw (own, unreachable_one) refl, s, refl)
    | inr other ↦
        let set =
          set_state-Sound c.self k q.query_peers p unreachable s
            (get_state-mem q.query_peers p waiting h) in
        (record q { query_peers = set.0 }, rw (other, unreachable_one, h, set.1) refl, set.2, refl)
  ]

  abbrev pub with_heard : Settings Peer → Query Peer → QueryUpdate Peer → Query Peer
  with_heard c q up = record q { query_peers = add_heard c up.cause q.query_peers up.heard_peers }

  pub update_state-running :
      (c : Settings Peer) (q : Query Peer) (up : QueryUpdate Peer)
      → q.terminated ≡ false
      → update_state c q up ≡ (
          mark_queried c up.query_duration (with_heard c q up) up.queried_peers >>= λ z.
          mark_unreachable c z up.unreachable_peers)
  unfolding update_state
  update_state-running c q up r =
      ap
        (λ b. if◌then◌else◌ {A = Option (Query Peer)} b none (
          mark_queried c up.query_duration (with_heard c q up) up.queried_peers >>= λ z.
          mark_unreachable c z up.unreachable_peers))
        r

  pub update_state-Sound :
      (c : Settings Peer) (k : ℕ) (q : Query Peer) (up : QueryUpdate Peer)
      → q.terminated ≡ false
      → Sound c.self k q.query_peers
      → Awaited q up
      → (q' : Query Peer) × (update_state c q up ≡ some q')
        × Sound c.self k q'.query_peers
        × (q'.terminated ≡ false)
  unfolding update_state
  update_state-Sound c k q up r s (inl both) = (
    with_heard c q up,
    rw (update_state-running c q up r, both.0, both.1) refl,
    add_heard-Sound c k up.cause up.heard_peers q.query_peers s,
    r,
  )
  update_state-Sound c k q up r s (inr w) =
      let q0 = with_heard c q up in
      let s0 = add_heard-Sound c k up.cause up.heard_peers q.query_peers s in
      let h = add_heard-keeps c up.cause w.0 waiting up.heard_peers q.query_peers w.1 in
      elim w.2 [
        | inl answered ↦
            let one = queried_one-Sound c up.query_duration k q0 w.0 s0 h in
            (
              one.0,
              rw (update_state-running c q up r, answered.0, answered.1, one.1) refl,
              one.2,
              one.3 ∙ r,
            )
        | inr failed ↦
            let one = unreachable_one-Sound c k q0 w.0 s0 h in
            (
              one.0,
              rw (update_state-running c q up r, failed.0, failed.1, one.1) refl,
              one.2,
              one.3 ∙ r,
            )
      ]

  pub spawn_queries-Sound :
      (c : Settings Peer) (ps : List Peer) (k : ℕ) (q : Query Peer)
      → Sound c.self k q.query_peers
      → all (λ p. mem p (ids q.query_peers.all_peers)) ps ≡ true
      → (q' : Query Peer) × (spawn_queries c q ps ≡ some q')
        × Sound c.self (length ps + k) q'.query_peers
        × (q'.terminated ≡ q.terminated)
  unfolding spawn_queries
  spawn_queries-Sound c [] k q s m =
      (q, refl, weaken-Sound c.self k (0 + k) q.query_peers (omega arith) s, refl)
  spawn_queries-Sound c (p ∷ ps) k q s m =
      let here = and-left (mem p (ids q.query_peers.all_peers)) _ m in
      let set = set_state-Sound c.self k q.query_peers p waiting s here in
      let q1 : Query Peer = record q { query_peers = set.0 } in
      let rest = spawn_queries-Sound c ps (suc k) q1 set.2 (
        ap (λ l. all (λ p. mem p l) ps) set.3
        ∙ and-right (mem p (ids q.query_peers.all_peers)) _ m) in
      let referred = get_referrer-mem q.query_peers p here in
      (
        rest.0,
        rw (spawn_queries, referred.1, set.1, rest.1) refl,
        weaken-Sound c.self (length ps + suc k) (suc (length ps) + k) rest.0.query_peers
            (omega arith) rest.2,
        rest.3,
      )
