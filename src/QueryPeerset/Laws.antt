-- ===== src/QueryPeerset/Laws.antt =====
-- `TryAdd`, `SetState` and the getters: what each changes and what it leaves.
use go_libp2p_hybrid_kad_dht.Prelude.{
  Distinct, ℕ, zero, suc, ◌≡◌, ◌⊎◌, refl, sym, ap, ◌∙◌, Bool, true, false, ◌&&◌, ◌||◌, not, Option,
  none, some, List, [], ◌∷◌, ◌++◌, map, all, if◌then◌else◌, arith, Bool-cases, inl, inr, Eq,
  Ordered, mem, or_false, or-left, or-right, beq_sym, beq_refl, beq→eq, mem-append,
}
use go_libp2p_hybrid_kad_dht.QueryPeerset.Closest.{IsSortedFlag, nearer}
use go_libp2p_hybrid_kad_dht.QueryPeerset.{
  PeerState, heard, QueryPeerState, QueryPeerset, find_from, try_add, set_at, set_state, field_of,
  get_state, get_referrer,
}

pub false-true : false ≡ true → ⊥
false-true h = cc

pub or_resolve : (a b : Bool) → a ≡ false → a || b ≡ true → b ≡ true
or_resolve a b h k = ground arith

module _ {Peer : Type 0} ⦃e : Eq Peer⦄ where
  abbrev pub ids : List (QueryPeerState Peer) → List Peer
  ids = map (λ q. q.id)

  -- The state that a list gives a peer.
  abbrev pub state_of : List (QueryPeerState Peer) → Peer → Option PeerState
  state_of [] p = none
  state_of (q ∷ qs) p = if e.beq q.id p then some q.state else state_of qs p

  find_from-mem :
      (qs : List (QueryPeerState Peer)) (p : Peer)
      → (find_from qs p ≡ none) × (mem p (ids qs) ≡ false)
        ⊎ ((i : ℕ) × (find_from qs p ≡ some i)) × (mem p (ids qs) ≡ true)
  unfolding find_from
  find_from-mem [] p = inl (refl, refl)
  find_from-mem (q ∷ qs) p = elim (Bool-cases (e.beq q.id p)) [
    | inl hit ↦ inr ((0, rw hit refl), or-left (e.beq p q.id) _ (beq_sym p q.id ∙ hit))
    | inr miss ↦ elim (find_from-mem qs p) [
      | inl absent ↦ inl (rw (miss, absent.0) refl, rw (beq_sym p q.id ∙ miss) absent.1)
      | inr found ↦
          inr ((suc found.0.0, rw (miss, found.0.1) refl), or-right (e.beq p q.id) _ found.1)
    ]
  ]

  pub Distinct-append :
      (ps : List Peer) (p : Peer) → Distinct ps → mem p ps ≡ false → Distinct (ps ++ p ∷ [])
  Distinct-append [] p d h = (refl, tt)
  Distinct-append (q ∷ ps) p d h = (
    ground (arith, mem-append q ps (p ∷ []), beq_sym q p),
    Distinct-append ps p d.1 (ground arith),
  )

  -- What the index that `find` returns leads to.
  abbrev pub lookup : List (QueryPeerState Peer) → Peer → Option (QueryPeerState Peer)
  lookup [] p = none
  lookup (q ∷ qs) p = if e.beq q.id p then some q else lookup qs p

  abbrev pub opt_field {ℓ} :
      {A : Type ℓ} → (QueryPeerState Peer → A) → Option (QueryPeerState Peer) → Option A
  opt_field f none = none
  opt_field f (some q) = some (f q)

  field-lookup {ℓ} :
      {A : Type ℓ} (f : QueryPeerState Peer → A) (qs : List (QueryPeerState Peer)) (p : Peer)
      → field_of f qs (find_from qs p) ≡ opt_field f (lookup qs p)
  unfolding find_from
  field-lookup f [] p = refl
  field-lookup f (q ∷ qs) p = elim (Bool-cases (e.beq q.id p)) [
    | inl hit ↦ rw hit refl
    | inr miss ↦ rw miss (shifted (find_from qs p) (field-lookup f qs p))
  ]
    where
      shifted :
          (o : Option ℕ)
          → field_of f qs o ≡ opt_field f (lookup qs p)
          → field_of f (q ∷ qs) (elim o [ none ↦ none | some i ↦ some (suc i) ])
            ≡ opt_field f (lookup qs p)
      shifted none h = h
      shifted (some i) h = h

  lookup-append :
      (qs : List (QueryPeerState Peer)) (q : QueryPeerState Peer)
      → mem q.id (ids qs) ≡ false
      → lookup (qs ++ q ∷ []) q.id ≡ some q
  lookup-append [] q h = rw (beq_refl q.id) refl
  lookup-append (r ∷ qs) q h =
      rw (beq_sym r.id q.id, (or_false (e.beq q.id r.id) _ h).0)
        (lookup-append qs q (or_false (e.beq q.id r.id) _ h).1)

  pub get_state-lookup :
      (qp : QueryPeerset Peer) (p : Peer)
      → get_state qp p ≡ opt_field (λ q. q.state) (lookup qp.all_peers p)
  unfolding get_state
  get_state-lookup qp p = field-lookup (λ q. q.state) qp.all_peers p

  pub get_referrer-lookup :
      (qp : QueryPeerset Peer) (p : Peer)
      → get_referrer qp p ≡ opt_field (λ q. q.referred_by) (lookup qp.all_peers p)
  unfolding get_referrer
  get_referrer-lookup qp p = field-lookup (λ q. q.referred_by) qp.all_peers p

  abbrev pub heard_of : (Peer → ℕ) → Peer → Peer → QueryPeerState Peer
  heard_of d p r = record { id = p; distance = d p; state = heard; referred_by = r }

  pub try_add-cases :
      (d : Peer → ℕ) (qp : QueryPeerset Peer) (p r : Peer)
      → (mem p (ids qp.all_peers) ≡ true) × (try_add d qp p r ≡ (qp, false))
        ⊎ (mem p (ids qp.all_peers) ≡ false)
          × (try_add d qp p r
              ≡ (record { all_peers = qp.all_peers ++ heard_of d p r ∷ []; sorted = false }, true))
  unfolding try_add
  try_add-cases d qp p r = elim (find_from-mem qp.all_peers p) [
    | inl absent ↦ inr (absent.1, rw (absent.0, try_add) refl)
    | inr found ↦ inl (found.1, rw (found.0.1, try_add) refl)
  ]

  pub ids-append :
      (qs : List (QueryPeerState Peer)) (q : QueryPeerState Peer)
      → ids (qs ++ q ∷ []) ≡ ids qs ++ q.id ∷ []
  ids-append [] q = refl
  ids-append (x ∷ qs) q = ap (◌∷◌ x.id) (ids-append qs q)

  -- Let no peer be in the set twice. `TryAdd` answers true exactly for a peer that is not in the
  -- set. If it answers false, the set is as it was; if true, the peers with their distances, states
  -- and referrers are as they were, with one more at the end: the peer, its distance to the key,
  -- the state `heard`, and the referrer that the call names, which the getters then answer for
  -- it. No peer is in the resulting set twice, and if the flag `sorted` told the truth before, it
  -- does afterwards.
  pub try_add_adds_once :
      (d : Peer → ℕ) (qp : QueryPeerset Peer) (p r : Peer)
      → Distinct (ids qp.all_peers)
      → ((try_add d qp p r).1 ≡ not (mem p (ids qp.all_peers)))
        × Distinct (ids (try_add d qp p r).0.all_peers)
        × ((try_add d qp p r).1 ≡ false → (try_add d qp p r).0 ≡ qp)
        × ((try_add d qp p r).1 ≡ true
            → ((try_add d qp p r).0.all_peers
                ≡ qp.all_peers
                  ++ record { id = p; distance = d p; state = heard; referred_by = r } ∷ [])
              × (get_state (try_add d qp p r).0 p ≡ some heard)
              × (get_referrer (try_add d qp p r).0 p ≡ some r))
        × (IsSortedFlag qp → IsSortedFlag (try_add d qp p r).0)
  try_add_adds_once d qp p r uniq = elim (try_add-cases d qp p r) [
    | inl present ↦
        rw (present.0, present.1) (refl, uniq, (λ h. refl), (λ h. absurd (false-true h)), (λ f. f))
    | inr absent ↦
        rw (absent.1, absent.0)
          (
            refl,
            rw (ids-append qp.all_peers (heard_of d p r))
                (Distinct-append (ids qp.all_peers) p uniq absent.0),
            (λ h. absurd (false-true (sym h))),
            (λ h. (
              refl,
              get_state-lookup _ p
                  ∙ ap (opt_field (λ q. q.state))
                      (lookup-append qp.all_peers (heard_of d p r) absent.0),
              get_referrer-lookup _ p
                  ∙ ap (opt_field (λ q. q.referred_by))
                      (lookup-append qp.all_peers (heard_of d p r) absent.0),
            )),
            (λ f h. absurd (false-true h)),
          )
  ]

  -- What is set in a list that has the peer.
  abbrev pub IsSetAt : List (QueryPeerState Peer) → Peer → PeerState → ℕ → Type 0
  IsSetAt qs p s i =
      (ids (set_at qs i s) ≡ ids qs)
      × (opt_field (λ q. q.state) (lookup (set_at qs i s) p) ≡ some s)
      × ((x : Peer) → e.beq p x ≡ false → lookup (set_at qs i s) x ≡ lookup qs x)

  set_found :
      (qs : List (QueryPeerState Peer)) (p : Peer) (s : PeerState)
      → mem p (ids qs) ≡ true
      → (i : ℕ) × (find_from qs p ≡ some i) × IsSetAt qs p s i
  unfolding find_from
  set_found [] p s h = absurd (false-true h)
  set_found (q ∷ qs) p s h = elim (Bool-cases (e.beq q.id p)) [
    | inl hit ↦ (
      0,
      rw hit refl,
      (refl, rw hit refl, (λ x n. rw (ap (λ y. e.beq y x) (beq→eq q.id p hit) ∙ n) refl)),
    )
    | inr miss ↦
        let rec = set_found qs p s (or_resolve (e.beq p q.id) _ (beq_sym p q.id ∙ miss) h) in
        (
          suc rec.0,
          rw (miss, rec.1) refl,
          (
            ap (◌∷◌ q.id) rec.2.0,
            rw miss rec.2.1,
            (λ x n. ap (λ l. if e.beq q.id x then some q else l) (rec.2.2 x n)),
          ),
        )
  ]

  pub set_state-cases :
      (qp : QueryPeerset Peer) (p : Peer) (s : PeerState)
      → (mem p (ids qp.all_peers) ≡ false) × (set_state qp p s ≡ none)
        ⊎ (mem p (ids qp.all_peers) ≡ true)
          × (i : ℕ) × (set_state qp p s ≡ some (record qp { all_peers = set_at qp.all_peers i s }))
          × IsSetAt qp.all_peers p s i
  unfolding set_state
  set_state-cases qp p s = elim (find_from-mem qp.all_peers p) [
    | inl absent ↦ inl (absent.1, rw (absent.0, set_state) refl)
    | inr found ↦
        let k = set_found qp.all_peers p s found.1 in
        inr (found.1, k.0, rw (k.1, set_state) refl, k.2)
  ]

  all-set_at :
      (x : QueryPeerState Peer) (xs : List (QueryPeerState Peer)) (i : ℕ) (s : PeerState)
      → all (nearer x) (set_at xs i s) ≡ all (nearer x) xs
  all-set_at x [] i s = refl
  all-set_at x (y ∷ xs) zero s = refl
  all-set_at x (y ∷ xs) (suc i) s = ap (λ b. nearer x y && b) (all-set_at x xs i s)

  Ordered-set_at :
      (xs : List (QueryPeerState Peer)) (i : ℕ) (s : PeerState)
      → Ordered nearer xs
      → Ordered nearer (set_at xs i s)
  Ordered-set_at [] i s o = tt
  Ordered-set_at (y ∷ xs) zero s o = (o.0, o.1)
  Ordered-set_at (y ∷ xs) (suc i) s o = (all-set_at y xs i s ∙ o.0, Ordered-set_at xs i s o.1)

  -- `SetState` panics exactly for a peer that is not in the set. For a peer in the set it leaves
  -- the peers and the flag `sorted` as they are, with the flag still true if it was, gives the
  -- peer the state, and changes no other peer's state or referrer.
  pub set_state-sets :
      (qp : QueryPeerset Peer) (p : Peer) (s : PeerState)
      → (mem p (ids qp.all_peers) ≡ false) × (set_state qp p s ≡ none)
        ⊎ (mem p (ids qp.all_peers) ≡ true)
          × (qp' : QueryPeerset Peer) × (set_state qp p s ≡ some qp')
          × (ids qp'.all_peers ≡ ids qp.all_peers)
          × (qp'.sorted ≡ qp.sorted)
          × (get_state qp' p ≡ some s)
          × ((x : Peer)
              → e.beq p x ≡ false
              → (get_state qp' x ≡ get_state qp x) × (get_referrer qp' x ≡ get_referrer qp x))
          × (IsSortedFlag qp → IsSortedFlag qp')
  set_state-sets qp p s = elim (set_state-cases qp p s) [
    | inl absent ↦ inl absent
    | inr found ↦
        let qp' : QueryPeerset Peer = record qp { all_peers = set_at qp.all_peers found.1 s } in
        let is_set = found.3 in
        inr (
          found.0,
          qp',
          found.2,
          is_set.0,
          refl,
          get_state-lookup qp' p ∙ is_set.1,
          (λ x n. (
            get_state-lookup qp' x
                ∙ ap (opt_field (λ q. q.state)) (is_set.2 x n)
                ∙ sym (get_state-lookup qp x),
            get_referrer-lookup qp' x
                ∙ ap (opt_field (λ q. q.referred_by)) (is_set.2 x n)
                ∙ sym (get_referrer-lookup qp x),
          )),
          (λ f h. Ordered-set_at qp.all_peers found.1 s (f h)),
        )
  ]
