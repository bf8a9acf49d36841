-- ===== src/Query/Waits.antt =====
-- Peers that a lookup waits for or may query, and what starting the queries does.
use go_libp2p_hybrid_kad_dht.Prelude.{
  Distinct, ℕ, zero, suc, ◌+◌, ◌≡◌, ◌≤◌, ◌<◌, ◌⊎◌, refl, sym, ap, ◌∙◌, Bool, true, false, not,
  Option, none, some, List, [], ◌∷◌, length, take, any, all, select, arith, Bool-cases, inl, inr,
  Eq, beq→eq, and-left, and-right, and_intro, or-left,
}
use go_libp2p_hybrid_kad_dht.QueryPeerset.{
  PeerState, heard, waiting, queried, unreachable, state_eq, QueryPeerState, QueryPeerset,
  get_state,
}
use go_libp2p_hybrid_kad_dht.QueryPeerset.Closest.{in_states}
use go_libp2p_hybrid_kad_dht.QueryPeerset.Laws.{
  ids, opt_field, lookup, get_state-lookup, false-true,
}
use go_libp2p_hybrid_kad_dht.Query.{
  Settings, Query, spawn_queries, lookup_starvation, lookup_completed,
}
use go_libp2p_hybrid_kad_dht.Query.Found.{Found, Distinct-Found}
use go_libp2p_hybrid_kad_dht.Query.Termination.{is_queried, decide}
use go_libp2p_hybrid_kad_dht.Query.Sound.{
  Sound, n_waiting, none-some, weaken-Sound, get_state-mem, get_referrer-mem,
}
use go_libp2p_hybrid_kad_dht.Query.Done.{n_done, done_as, n_done-le, set_state-Counts}
use go_libp2p_hybrid_kad_dht.Query.Rounds.{all-take}

-- A peer that waits or may be queried.
abbrev is_live : Option PeerState → Bool
is_live none = false
is_live (some st) = any (state_eq st) (heard ∷ waiting ∷ [])

live_state :
    (o : Option PeerState) → is_live o ≡ true → (st : PeerState) × (o ≡ some st) × (done_as st ≡ 0)
live_state none h = absurd (false-true h)
live_state (some heard) h = (heard, refl, refl)
live_state (some waiting) h = (waiting, refl, refl)
live_state (some queried) h = absurd (false-true h)
live_state (some unreachable) h = absurd (false-true h)

module _ {Peer : Type 0} ⦃e : Eq Peer⦄ where
  -- Some peer is waiting.
  abbrev pub Waits : QueryPeerset Peer → Type 0
  Waits qp = (p : Peer) × (get_state qp p ≡ some waiting)

  waits-few :
      (xs : List (QueryPeerState Peer)) (p : Peer)
      → opt_field (λ q. q.state) (lookup xs p) ≡ some waiting
      → n_done xs < length xs
  waits-few [] p h = absurd (none-some waiting h)
  waits-few (x ∷ xs) p h = elim (Bool-cases (e.beq x.id p)) [
    | inl hit ↦ rw (some-state x.state waiting (rw hit at h)) (omega (arith, n_done-le xs))
    | inr miss ↦ omega (arith, n_done-le (x ∷ []), waits-few xs p (rw miss at h))
  ]
    where
      some-state : (a b : PeerState) → ◌≡◌ {A = Option PeerState} (some a) (some b) → a ≡ b
      some-state a b k = cc

  pub n_done-Waits : (qp : QueryPeerset Peer) → Waits qp → n_done qp.all_peers < length qp.all_peers
  n_done-Waits qp w = waits-few qp.all_peers w.0 (sym (get_state-lookup qp w.0) ∙ w.1)

  abbrev pub Live : QueryPeerset Peer → List Peer → Type 0
  Live qp ps = all (λ p. is_live (get_state qp p)) ps ≡ true

  -- One peer is set to wait and nothing else changes.
  abbrev OneWaits : QueryPeerset Peer → QueryPeerset Peer → Peer → Type 0
  OneWaits qp qp' p =
      (get_state qp' p ≡ some waiting)
      × ((x : Peer) → e.beq p x ≡ false → get_state qp' x ≡ get_state qp x)

  waiting-OneWaits :
      (qp qp' : QueryPeerset Peer) (p x : Peer)
      → OneWaits qp qp' p
      → get_state qp x ≡ some waiting
      → get_state qp' x ≡ some waiting
  waiting-OneWaits qp qp' p x o h = elim (Bool-cases (e.beq p x)) [
    | inl hit ↦ ap (get_state qp') (sym (beq→eq p x hit)) ∙ o.0
    | inr miss ↦ o.1 x miss ∙ h
  ]

  Live-OneWaits :
      (qp qp' : QueryPeerset Peer) (p : Peer) (ps : List Peer)
      → OneWaits qp qp' p
      → Live qp ps
      → Live qp' ps
  Live-OneWaits qp qp' p [] o h = refl
  Live-OneWaits qp qp' p (x ∷ ps) o h =
      and_intro (is_live (get_state qp' x)) _
        (elim (Bool-cases (e.beq p x)) [
          | inl hit ↦ ap is_live (ap (get_state qp') (sym (beq→eq p x hit)) ∙ o.0)
          | inr miss ↦ ap is_live (o.1 x miss) ∙ and-left (is_live (get_state qp x)) _ h
        ])
        (Live-OneWaits qp qp' p ps o (and-right (is_live (get_state qp x)) _ h))

  abbrev pub Starts : List Peer → Type 0
  Starts [] = ⊥
  Starts (p ∷ ps) = Unit {0}

  -- The peers to query are set to wait.
  pub spawn_queries-Waits :
      (c : Settings Peer) (ps : List Peer) (k : ℕ) (q : Query Peer)
      → Sound c.self k q.query_peers
      → Live q.query_peers ps
      → (q' : Query Peer) × (spawn_queries c q ps ≡ some q')
        × Sound c.self (length ps + k) q'.query_peers
        × (ids q'.query_peers.all_peers ≡ ids q.query_peers.all_peers)
        × (n_done q'.query_peers.all_peers ≡ n_done q.query_peers.all_peers)
        × (Waits q.query_peers ⊎ Starts ps → Waits q'.query_peers)
  unfolding spawn_queries
  spawn_queries-Waits c [] k q s l = (
    q,
    refl,
    weaken-Sound c.self k (0 + k) q.query_peers (omega arith) s,
    refl,
    refl,
    (λ w. elim w [ inl was ↦ was | inr none_starts ↦ absurd none_starts ]),
  )
  spawn_queries-Waits c (p ∷ ps) k q s l =
      let st =
        live_state (get_state q.query_peers p)
          (and-left (is_live (get_state q.query_peers p)) _ l) in
      let set = set_state-Counts c.self k q.query_peers p st.0 waiting s st.1 in
      let o : OneWaits q.query_peers set.0 p = (set.5, set.6) in
      let rest =
        spawn_queries-Waits c ps (suc k) (record q { query_peers = set.0 }) set.2
          (Live-OneWaits q.query_peers set.0 p ps o
            (and-right (is_live (get_state q.query_peers p)) _ l)) in
      let referred = get_referrer-mem q.query_peers p (get_state-mem q.query_peers p st.0 st.1) in
      (
        rest.0,
        rw (spawn_queries, referred.1, set.1, rest.1) refl,
        weaken-Sound c.self (length ps + suc k) (suc (length ps) + k) rest.0.query_peers
            (omega arith) rest.2,
        rest.3 ∙ set.3,
        omega (arith, rest.4, set.4, st.2),
        (λ w. rest.5 (
            inl (elim w [
              | inl was ↦ (was.0, waiting-OneWaits q.query_peers set.0 p was.0 o was.1)
              | inr starts ↦ (p, set.5)
            ]))),
      )

  waiting_or_none :
      (qp : QueryPeerset Peer) (xs : List (QueryPeerState Peer))
      → Found qp.all_peers xs
      → Waits qp ⊎ (n_waiting xs ≡ 0)
  waiting_or_none qp [] f = inr refl
  waiting_or_none qp (x ∷ xs) f = elim (Bool-cases (state_eq x.state waiting)) [
    | inl w ↦ inl (
      x.id,
      get_state-lookup qp x.id ∙ ap (opt_field (λ q. q.state)) f.0 ∙ ap some (is_waiting x.state w),
    )
    | inr other ↦ elim (waiting_or_none qp xs f.1) [ inl w ↦ inl w | inr n ↦ inr (rw other n) ]
  ]
    where
      is_waiting : (st : PeerState) → state_eq st waiting ≡ true → st ≡ waiting
      is_waiting heard h = absurd (false-true h)
      is_waiting waiting h = refl
      is_waiting queried h = absurd (false-true h)
      is_waiting unreachable h = absurd (false-true h)

  heard_some :
      (xs : List (QueryPeerState Peer))
      → n_waiting xs ≡ 0
      → any (in_states (heard ∷ waiting ∷ [])) xs ≡ true
      → any (in_states (heard ∷ [])) xs ≡ true
  heard_some [] n h = h
  heard_some (x ∷ xs) n h = ground (arith, heard_some xs)

  Starts-take :
      (t : QueryPeerState Peer → Bool) (n : ℕ) (xs : List (QueryPeerState Peer))
      → any t xs ≡ true
      → 1 ≤ n
      → Starts (ids (take n (select t xs)))
  Starts-take t n [] h l = absurd (false-true h)
  Starts-take t zero (x ∷ xs) h l = omega (arith, l)
  Starts-take t (suc n) (x ∷ xs) h l = elim (Bool-cases (t x)) [
    | inl kept ↦ rw kept tt
    | inr out ↦ rw out (Starts-take t (suc n) xs (rw out at h) l)
  ]

  Live-heard :
      (qp : QueryPeerset Peer) (xs : List (QueryPeerState Peer))
      → Found qp.all_peers xs
      → Live qp (ids (select (in_states (heard ∷ [])) xs))
  Live-heard qp [] f = refl
  Live-heard qp (x ∷ xs) f = elim (Bool-cases (in_states (heard ∷ []) x)) [
    | inl kept ↦ rw kept (
        and_intro (is_live (get_state qp x.id)) _
          (ap is_live (get_state-lookup qp x.id ∙ ap (opt_field (λ q. q.state)) f.0)
            ∙ or-left (state_eq x.state heard) _ (ground arith))
          (Live-heard qp xs f.1))
    | inr out ↦ rw out (Live-heard qp xs f.1)
  ]

  -- A verdict to go on names live peers, and one waits or is named.
  pub decide-Live :
      (beta n : ℕ) (qp : QueryPeerset Peer)
      → Distinct (ids qp.all_peers)
      → (n_waiting qp.all_peers ≡ 0 → 1 ≤ n)
      → (decide beta n qp.all_peers).0 ≡ none
      → Live qp (decide beta n qp.all_peers).1 × (Waits qp ⊎ Starts (decide beta n qp.all_peers).1)
  decide-Live beta n qp d slots h =
      let xs = qp.all_peers in
      let found = Distinct-Found xs d in
      elim (Bool-cases (not (any (in_states (heard ∷ waiting ∷ [])) xs))) [
        | inl starved ↦ absurd (none-some lookup_starvation (sym (rw starved at h)))
        | inr fed ↦
            elim (Bool-cases (
              all is_queried
                (take beta (select (in_states (heard ∷ waiting ∷ queried ∷ [])) xs)))) [
                  | inl complete ↦
                      absurd (none-some lookup_completed (sym (rw (fed, complete) at h)))
                  | inr incomplete ↦
                      rw (fed, incomplete)
                        (
                          all-take (λ p. is_live (get_state qp p)) n
                              (select (in_states (heard ∷ [])) xs) (Live-heard qp xs found),
                          elim (waiting_or_none qp xs found) [
                            | inl w ↦ inl w
                            | inr idle ↦ inr (
                                Starts-take (in_states (heard ∷ [])) n xs
                                  (heard_some xs idle (not-false _ fed)) (slots idle))
                          ],
                        )
                ]
      ]
    where
      not-false : (b : Bool) → not b ≡ false → b ≡ true
      not-false b k = ground arith
