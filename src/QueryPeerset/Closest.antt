-- ===== src/QueryPeerset/Closest.antt =====
-- `GetClosestNInStates`: the peers in the given states, nearest first.
use mathlib.Core.List.{Perm}
use mathlib.Core.List.Perm
use go_libp2p_hybrid_kad_dht.Prelude.{
  ℕ, zero, suc, ◌≡◌, refl, sym, ap, Bool, true, List, [], ◌∷◌, map, length, take, any, all, select,
  leb, ltb, if◌then◌else◌, arith, Ordered, Bool-cases, inl, inr, and_intro,
}
use go_libp2p_hybrid_kad_dht.QueryPeerset.{
  PeerState, state_eq, QueryPeerState, QueryPeerset, insert_by_distance, sort_by_distance, sort,
  get_closest_n_in_states,
}

pub take_all {ℓ} : {A : Type ℓ} (n : ℕ) (xs : List A) → leb (length xs) n ≡ true → take n xs ≡ xs
take_all zero [] h = refl
take_all zero (x ∷ xs) h = ground arith
take_all (suc n) [] h = refl
take_all (suc n) (x ∷ xs) h = ap (◌∷◌ x) (take_all n xs (ground arith))

pub take_guard {ℓ} :
    {A : Type ℓ} (n : ℕ) (xs : List A) → (if leb n (length xs) then take n xs else xs) ≡ take n xs
take_guard n xs = elim (Bool-cases (leb n (length xs))) [
  | inl h ↦ rw h refl
  | inr h ↦ rw h (sym (take_all n xs (ground arith)))
]

module _ {Peer : Type 0} where
  abbrev pub nearer : QueryPeerState Peer → QueryPeerState Peer → Bool
  nearer p q = leb p.distance q.distance

  -- The flag tells the truth.
  abbrev pub IsSortedFlag : QueryPeerset Peer → Type 0
  IsSortedFlag qp = qp.sorted ≡ true → Ordered nearer qp.all_peers

  all-nearer :
      (d : ℕ) (p : QueryPeerState Peer) (qs : List (QueryPeerState Peer))
      → leb d p.distance ≡ true
      → all (nearer p) qs ≡ true
      → all (λ q. leb d q.distance) qs ≡ true
  all-nearer d p [] h k = refl
  all-nearer d p (q ∷ qs) h k = ground (arith, all-nearer d p qs)

  all-insert :
      (d : ℕ) (p : QueryPeerState Peer) (qs : List (QueryPeerState Peer))
      → leb d p.distance ≡ true
      → all (λ q. leb d q.distance) qs ≡ true
      → all (λ q. leb d q.distance) (insert_by_distance p qs) ≡ true
  unfolding insert_by_distance
  all-insert d p [] h k = ground arith
  all-insert d p (q ∷ qs) h k = ground (arith, all-insert d p qs)

  Ordered-insert :
      (p : QueryPeerState Peer) (qs : List (QueryPeerState Peer))
      → Ordered nearer qs
      → Ordered nearer (insert_by_distance p qs)
  unfolding insert_by_distance
  Ordered-insert p [] o = (refl, tt)
  Ordered-insert p (q ∷ qs) o = elim (Bool-cases (ltb q.distance p.distance)) [
    | inl low ↦ rw low (all-insert q.distance p qs (ground arith) o.0, Ordered-insert p qs o.1)
    | inr high ↦ rw high (
      and_intro (leb p.distance q.distance) _ (ground arith)
          (all-nearer p.distance q qs (ground arith) o.0),
      o,
    )
  ]

  Ordered-sort_by_distance :
      (ps : List (QueryPeerState Peer)) → Ordered nearer (sort_by_distance ps)
  unfolding sort_by_distance
  Ordered-sort_by_distance [] = tt
  Ordered-sort_by_distance (p ∷ ps) = Ordered-insert p _ (Ordered-sort_by_distance ps)

  insert-perm :
      (p : QueryPeerState Peer) (qs : List (QueryPeerState Peer))
      → Perm (insert_by_distance p qs) (p ∷ qs)
  unfolding insert_by_distance
  insert-perm p [] = Perm.refl (p ∷ [])
  insert-perm p (q ∷ qs) = elim (Bool-cases (ltb q.distance p.distance)) [
    | inl low ↦ rw low (Perm.trans (Perm.cons q (insert-perm p qs)) (Perm.swap p q qs))
    | inr high ↦ rw high (Perm.refl (p ∷ q ∷ qs))
  ]

  sort_by_distance-perm : (ps : List (QueryPeerState Peer)) → Perm (sort_by_distance ps) ps
  unfolding sort_by_distance
  sort_by_distance-perm [] = Perm.refl []
  sort_by_distance-perm (p ∷ ps) =
      Perm.trans (insert-perm p (sort_by_distance ps)) (Perm.cons p (sort_by_distance-perm ps))

  -- `sort` keeps the peers and puts them in order.
  pub sort-sorted :
      (qp : QueryPeerset Peer)
      → IsSortedFlag qp
      → Ordered nearer (sort qp).all_peers × Perm (sort qp).all_peers qp.all_peers
  unfolding sort
  sort-sorted qp f = elim (Bool-cases qp.sorted) [
    | inl is_sorted ↦ rw is_sorted (f is_sorted, Perm.refl qp.all_peers)
    | inr not_sorted ↦
        rw not_sorted (Ordered-sort_by_distance qp.all_peers, sort_by_distance-perm qp.all_peers)
  ]

  abbrev pub in_states : List PeerState → QueryPeerState Peer → Bool
  in_states states p = any (state_eq p.state) states

  -- Let the flag `sorted` tell the truth. The peers of `GetClosestNInStates` are the first n of a
  -- rearrangement of the whole set by ascending distance, less those in other states; and the
  -- set left behind is that rearrangement, with a flag that tells the truth.
  pub get_closest_n_in_states_nearest :
      (qp : QueryPeerset Peer) (n : ℕ) (states : List PeerState)
      → IsSortedFlag qp
      → (peers : List (QueryPeerState Peer)) × Ordered nearer peers
        × Perm peers qp.all_peers
        × ((get_closest_n_in_states qp n states).0.all_peers ≡ peers)
        × IsSortedFlag (get_closest_n_in_states qp n states).0
        × ((get_closest_n_in_states qp n states).1
            ≡ take n (map (λ p. p.id) (select (in_states states) peers)))
  unfolding get_closest_n_in_states
  get_closest_n_in_states_nearest qp n states f =
      let s = sort-sorted qp f in ((sort qp).all_peers, s.0, s.1, refl, (λ h. s.0), take_guard n _)
