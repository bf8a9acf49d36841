-- ===== src/Query/Done.antt =====
-- The peers of a lookup that are done, queried or unreachable: how the operations count them.
use go_libp2p_hybrid_kad_dht.Prelude.{
  ℕ, zero, suc, ◌+◌, ◌≡◌, ◌≤◌, refl, sym, ap, ◌∙◌, Bool, true, false, some, List, [], ◌∷◌, ◌++◌,
  length, if◌then◌else◌, arith, Bool-cases, Option-cases, inl, inr, Eq,
}
use go_libp2p_hybrid_kad_dht.QueryPeerset.{
  PeerState, heard, waiting, queried, unreachable, state_eq, QueryPeerState, QueryPeerset,
  insert_by_distance, sort_by_distance, sort, get_state, set_state, set_at, try_add, find_from,
  field_of,
}
use go_libp2p_hybrid_kad_dht.QueryPeerset.Laws.{
  ids, try_add-cases, heard_of, set_state-sets, false-true,
}
use go_libp2p_hybrid_kad_dht.Query.{Settings, add_heard}
use go_libp2p_hybrid_kad_dht.Query.Sound.{Sound, set_state-Sound, get_state-mem, none-some}

-- One for a state that a peer ends in, else none.
abbrev pub done_as : PeerState → ℕ
done_as heard = 0
done_as waiting = 0
done_as queried = 1
done_as unreachable = 1

some_inj {ℓ} : {A : Type ℓ} (a b : A) → some a ≡ some b → a ≡ b
some_inj a b h = cc

module _ {Peer : Type 0} ⦃e : Eq Peer⦄ where
  abbrev pub n_done : List (QueryPeerState Peer) → ℕ
  n_done [] = 0
  n_done (x ∷ xs) = done_as x.state + n_done xs

  n_done-insert :
      (x : QueryPeerState Peer) (xs : List (QueryPeerState Peer))
      → n_done (insert_by_distance x xs) ≡ done_as x.state + n_done xs
  unfolding insert_by_distance
  n_done-insert x [] = refl
  n_done-insert x (y ∷ xs) = ground (arith, n_done-insert x xs)

  n_done-sort_by_distance :
      (xs : List (QueryPeerState Peer)) → n_done (sort_by_distance xs) ≡ n_done xs
  unfolding sort_by_distance
  n_done-sort_by_distance [] = refl
  n_done-sort_by_distance (x ∷ xs) =
      n_done-insert x (sort_by_distance xs)
      ∙ ap (λ n. done_as x.state + n) (n_done-sort_by_distance xs)

  pub n_done-sort : (qp : QueryPeerset Peer) → n_done (sort qp).all_peers ≡ n_done qp.all_peers
  unfolding sort
  n_done-sort qp = elim (Bool-cases qp.sorted) [
    | inl h ↦ rw h refl
    | inr h ↦ rw h (n_done-sort_by_distance qp.all_peers)
  ]

  n_done-heard :
      (xs : List (QueryPeerState Peer)) (d : Peer → ℕ) (p r : Peer)
      → n_done (xs ++ heard_of d p r ∷ []) ≡ n_done xs
  n_done-heard [] d p r = refl
  n_done-heard (x ∷ xs) d p r = ap (λ n. done_as x.state + n) (n_done-heard xs d p r)

  n_done-try_add :
      (d : Peer → ℕ) (qp : QueryPeerset Peer) (p r : Peer)
      → n_done (try_add d qp p r).0.all_peers ≡ n_done qp.all_peers
  n_done-try_add d qp p r = elim (try_add-cases d qp p r) [
    | inl present ↦ rw present.1 refl
    | inr absent ↦ rw absent.1 (n_done-heard qp.all_peers d p r)
  ]

  pub n_done-add_heard :
      (c : Settings Peer) (cause : Peer) (ps : List Peer) (qp : QueryPeerset Peer)
      → n_done (add_heard c cause qp ps).all_peers ≡ n_done qp.all_peers
  unfolding add_heard
  n_done-add_heard c cause [] qp = refl
  n_done-add_heard c cause (p ∷ ps) qp =
      n_done-add_heard c cause ps (if e.beq p c.self then qp else added) ∙ one (e.beq p c.self)
    where
      added : QueryPeerset Peer
      added = (try_add c.distance_to_key qp p cause).0

      one : (b : Bool) → n_done (if b then qp else added).all_peers ≡ n_done qp.all_peers
      one true = refl
      one false = n_done-try_add c.distance_to_key qp p cause

  n_done-set_at :
      (xs : List (QueryPeerState Peer)) (i : ℕ) (old new_state : PeerState)
      → field_of (λ q. q.state) xs (some i) ≡ some old
      → n_done (set_at xs i new_state) + done_as old ≡ n_done xs + done_as new_state
  n_done-set_at [] i old new_state h = absurd (none-some old h)
  n_done-set_at (x ∷ xs) zero old new_state h = rw (← some_inj x.state old h) (omega arith)
  n_done-set_at (x ∷ xs) (suc i) old new_state h = omega (arith, n_done-set_at xs i old new_state h)

  n_done-set_state :
      (qp qp' : QueryPeerset Peer) (p : Peer) (old new_state : PeerState)
      → get_state qp p ≡ some old
      → set_state qp p new_state ≡ some qp'
      → n_done qp'.all_peers + done_as old ≡ n_done qp.all_peers + done_as new_state
  unfolding get_state set_state
  n_done-set_state qp qp' p old new_state g s = elim (Option-cases (find_from qp.all_peers p)) [
    | inl absent ↦ absurd (none-some old (rw absent at g))
    | inr found ↦
        let i = found.0 in
        rw
          (← some_inj (record qp { all_peers = set_at qp.all_peers i new_state }) qp'
            (rw (found.1, set_state) at s))
          (n_done-set_at qp.all_peers i old new_state (rw found.1 at g))
  ]

  -- `SetState` of a peer whose state is known: all that changes.
  pub set_state-Counts :
      (self : Peer) (k : ℕ) (qp : QueryPeerset Peer) (p : Peer) (old new_state : PeerState)
      → Sound self k qp
      → get_state qp p ≡ some old
      → (qp' : QueryPeerset Peer) × (set_state qp p new_state ≡ some qp')
        × Sound self (if state_eq new_state waiting then suc k else k) qp'
        × (ids qp'.all_peers ≡ ids qp.all_peers)
        × (n_done qp'.all_peers + done_as old ≡ n_done qp.all_peers + done_as new_state)
        × (get_state qp' p ≡ some new_state)
        × ((x : Peer) → e.beq p x ≡ false → get_state qp' x ≡ get_state qp x)
  set_state-Counts self k qp p old new_state s h =
      let m = get_state-mem qp p old h in
      let set = set_state-Sound self k qp p new_state s m in
      elim (set_state-sets qp p new_state) [
        | inl absent ↦ absurd (false-true (sym absent.0 ∙ m))
        | inr sets ↦
            let same = some_inj sets.1 set.0 (sym sets.2 ∙ set.1) in
            (
              set.0,
              set.1,
              set.2,
              set.3,
              n_done-set_state qp set.0 p old new_state h set.1,
              rw (← same) sets.5,
              (λ x n. rw (← same) ((sets.6 x n).0)),
            )
      ]

  -- Fewer peers are done than there are, if one waits.
  pub n_done-le : (xs : List (QueryPeerState Peer)) → n_done xs ≤ length xs
  n_done-le [] = omega arith
  n_done-le (x ∷ xs) = omega (arith, n_done-le xs, done_as-le x.state)
    where
      done_as-le : (s : PeerState) → done_as s ≤ 1
      done_as-le heard = omega arith
      done_as-le waiting = omega arith
      done_as-le queried = omega arith
      done_as-le unreachable = omega arith
