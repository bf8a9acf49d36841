-- ===== src/Query/Inside.antt =====
-- The peers that a lookup can come to know: how many, and that additions stay among them.
use go_libp2p_hybrid_kad_dht.Prelude.{
  Distinct, ℕ, ◌≡◌, ◌≤◌, ◌<◌, refl, sym, ap, ◌∙◌, Bool, true, false, ◌&&◌, ◌||◌, not, List, [], ◌∷◌,
  length, all, select, if◌then◌else◌, arith, Bool-cases, inl, inr, Eq, mem, beq_sym, beq→eq,
  and-left, and-right, and_intro, length-select-le, all-append,
}
use go_libp2p_hybrid_kad_dht.QueryPeerset.{
  QueryPeerState, QueryPeerset, insert_by_distance, sort_by_distance, sort, try_add,
}
use go_libp2p_hybrid_kad_dht.QueryPeerset.Laws.{
  ids, try_add-cases, ids-append, heard_of, false-true,
}
use go_libp2p_hybrid_kad_dht.Query.{Settings, add_heard}

module _ {Peer : Type 0} ⦃e : Eq Peer⦄ where
  -- All peers of a list are among the given ones.
  abbrev pub Inside : List Peer → List Peer → Type 0
  Inside us ps = all (λ p. mem p us) ps ≡ true

  abbrev without : Peer → List Peer → List Peer
  without p us = select (λ u. not (e.beq p u)) us

  length-without : (p : Peer) (us : List Peer) → mem p us ≡ true → length (without p us) < length us
  length-without p [] h = absurd (false-true h)
  length-without p (u ∷ us) h = elim (Bool-cases (e.beq p u)) [
    | inl hit ↦ rw hit (omega (arith, length-select-le (λ x. not (e.beq p x)) us))
    | inr miss ↦ rw miss (omega (arith, length-without p us (ground arith)))
  ]

  mem-without : (p x : Peer) (us : List Peer) → e.beq p x ≡ false → mem x (without p us) ≡ mem x us
  mem-without p x [] n = refl
  mem-without p x (u ∷ us) n = elim (Bool-cases (e.beq p u)) [
    | inl hit ↦
        rw (hit, beq_sym x u, ap (λ y. e.beq y x) (sym (beq→eq p u hit)) ∙ n) (mem-without p x us n)
    | inr miss ↦ rw miss (ap (λ b. e.beq x u || b) (mem-without p x us n))
  ]

  Inside-without :
      (p : Peer) (us ps : List Peer) → mem p ps ≡ false → Inside us ps → Inside (without p us) ps
  Inside-without p us [] n h = refl
  Inside-without p us (q ∷ ps) n h = ground (arith, mem-without p q us, Inside-without p us ps)

  -- A list with no peer twice is no longer than one that has all its peers.
  pub length-Inside : (us ps : List Peer) → Distinct ps → Inside us ps → length ps ≤ length us
  length-Inside us [] d h = omega arith
  length-Inside us (p ∷ ps) d h = omega (
    arith,
    length-without p us (and-left (mem p us) _ h),
    length-Inside (without p us) ps d.1 (Inside-without p us ps d.0 (and-right (mem p us) _ h)),
  )

  Inside-insert :
      (us : List Peer) (x : QueryPeerState Peer) (xs : List (QueryPeerState Peer))
      → all (λ p. mem p us) (ids (insert_by_distance x xs)) ≡ all (λ p. mem p us) (ids (x ∷ xs))
  unfolding insert_by_distance
  Inside-insert us x [] = refl
  Inside-insert us x (y ∷ xs) = ground (arith, Inside-insert us x xs)

  Inside-sort_by_distance :
      (us : List Peer) (xs : List (QueryPeerState Peer))
      → all (λ p. mem p us) (ids (sort_by_distance xs)) ≡ all (λ p. mem p us) (ids xs)
  unfolding sort_by_distance
  Inside-sort_by_distance us [] = refl
  Inside-sort_by_distance us (x ∷ xs) =
      Inside-insert us x (sort_by_distance xs)
      ∙ ap (λ b. mem x.id us && b) (Inside-sort_by_distance us xs)

  pub Inside-sort :
      (us : List Peer) (qp : QueryPeerset Peer)
      → Inside us (ids qp.all_peers)
      → Inside us (ids (sort qp).all_peers)
  unfolding sort
  Inside-sort us qp h = elim (Bool-cases qp.sorted) [
    | inl is_sorted ↦ rw is_sorted h
    | inr not_sorted ↦ rw not_sorted (Inside-sort_by_distance us qp.all_peers ∙ h)
  ]

  Inside-try_add :
      (us : List Peer) (d : Peer → ℕ) (qp : QueryPeerset Peer) (p r : Peer)
      → mem p us ≡ true
      → Inside us (ids qp.all_peers)
      → Inside us (ids (try_add d qp p r).0.all_peers)
  Inside-try_add us d qp p r m h = elim (try_add-cases d qp p r) [
    | inl present ↦ rw present.1 h
    | inr absent ↦
        rw (absent.1, ids-append qp.all_peers (heard_of d p r))
          (all-append (λ x. mem x us) (ids qp.all_peers) (p ∷ [])
            ∙ and_intro _ _ h (and_intro _ _ m refl))
  ]

  pub Inside-add_heard :
      (c : Settings Peer) (us : List Peer) (cause : Peer) (ps : List Peer) (qp : QueryPeerset Peer)
      → Inside us ps
      → Inside us (ids qp.all_peers)
      → Inside us (ids (add_heard c cause qp ps).all_peers)
  unfolding add_heard
  Inside-add_heard c us cause [] qp i h = h
  Inside-add_heard c us cause (p ∷ ps) qp i h =
      Inside-add_heard c us cause ps (if e.beq p c.self then qp else added)
        (and-right (mem p us) _ i) (one (e.beq p c.self))
    where
      added : QueryPeerset Peer
      added = (try_add c.distance_to_key qp p cause).0

      one : (b : Bool) → Inside us (ids (if b then qp else added).all_peers)
      one true = h
      one false = Inside-try_add us c.distance_to_key qp p cause (and-left (mem p us) _ i) h
