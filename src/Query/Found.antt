-- ===== src/Query/Found.antt =====
-- Sorting the peers of a lookup, and looking up its entries.
use go_libp2p_hybrid_kad_dht.Prelude.{
  Distinct, ℕ, zero, suc, ◌≡◌, ◌≤◌, refl, ap, ◌∙◌, Bool, true, false, ◌||◌, not, Option, none, some,
  List, [], ◌∷◌, take, select, ltb, leb, if◌then◌else◌, arith, Bool-cases, inl, inr, Eq, mem,
  beq_sym, beq_refl,
}
use go_libp2p_hybrid_kad_dht.QueryPeerset.{
  QueryPeerState, QueryPeerset, insert_by_distance, sort_by_distance, sort,
}
use go_libp2p_hybrid_kad_dht.QueryPeerset.Laws.{ids, lookup}
use go_libp2p_hybrid_kad_dht.Query.{
  LookupTerminationReason, lookup_stopped, lookup_starvation, lookup_completed,
}

or-left_false : (a b : Bool) → a || b ≡ false → a ≡ false
or-left_false a b h = ground arith

or-right_false : (a b : Bool) → a || b ≡ false → b ≡ false
or-right_false a b h = ground arith

pub le→leb : (a b : ℕ) → a ≤ b → leb a b ≡ true
le→leb a b h = ground arith

or_both : (a b : Bool) → a ≡ false → b ≡ false → a || b ≡ false
or_both a b h k = ground arith

pub neither {ℓ} :
    {A : Type ℓ} (x : A) (a b : Bool)
    → (if◌then◌else◌ {A = A × Bool} (not a) (x, not b) (x, false)) ≡ (x, not (a || b))
neither x true b = refl
neither x false b = refl

-- The tests of `isReadyToTerminate`, one by one or at once.
pub branches :
    {Peer : Type 0} (sorted_set given : QueryPeerset Peer) (stopped starved completed : Bool)
    (next : List Peer)
    → (if◌then◌else◌ {A = Option (QueryPeerset Peer × Option LookupTerminationReason × List Peer)}
        stopped
        (some (given, some lookup_stopped, []))
        (if starved
          then some (sorted_set, some lookup_starvation, [])
          else if completed
          then some (sorted_set, some lookup_completed, [])
          else some (sorted_set, none, next)))
      ≡ some (
          if stopped
          then (given, some lookup_stopped, [])
          else (let verdict : Option LookupTerminationReason × List Peer =
                if starved
                then (some lookup_starvation, [])
                else if completed
                then (some lookup_completed, [])
                else (none, next) in
              (sorted_set, verdict.0, verdict.1)))
branches s g true b c next = refl
branches s g false true c next = refl
branches s g false false true next = refl
branches s g false false false next = refl

module _ {Peer : Type 0} ⦃e : Eq Peer⦄ where
  -- Looking up the peer of each entry leads to the entry.
  abbrev pub Found : List (QueryPeerState Peer) → List (QueryPeerState Peer) → Type 0
  Found qs [] = Unit {0}
  Found qs (x ∷ xs) = (lookup qs x.id ≡ some x) × Found qs xs

  Found-cons :
      (q : QueryPeerState Peer) (qs xs : List (QueryPeerState Peer))
      → mem q.id (ids xs) ≡ false
      → Found qs xs
      → Found (q ∷ qs) xs
  Found-cons q qs [] n f = tt
  Found-cons q qs (x ∷ xs) n f = (
    rw (or-left_false (e.beq q.id x.id) _ n) f.0,
    Found-cons q qs xs (or-right_false (e.beq q.id x.id) _ n) f.1,
  )

  pub Distinct-Found : (qs : List (QueryPeerState Peer)) → Distinct (ids qs) → Found qs qs
  Distinct-Found [] d = tt
  Distinct-Found (q ∷ qs) d =
      (rw (beq_refl q.id) refl, Found-cons q qs qs d.0 (Distinct-Found qs d.1))

  pub Found-select :
      (qs : List (QueryPeerState Peer)) (p : QueryPeerState Peer → Bool)
      (xs : List (QueryPeerState Peer))
      → Found qs xs
      → Found qs (select p xs)
  Found-select qs p [] f = tt
  Found-select qs p (x ∷ xs) f = elim (Bool-cases (p x)) [
    | inl kept ↦ rw kept (f.0, Found-select qs p xs f.1)
    | inr out ↦ rw out (Found-select qs p xs f.1)
  ]

  pub Found-take :
      (qs : List (QueryPeerState Peer)) (n : ℕ) (xs : List (QueryPeerState Peer))
      → Found qs xs
      → Found qs (take n xs)
  Found-take qs zero xs f = tt
  Found-take qs (suc n) [] f = tt
  Found-take qs (suc n) (x ∷ xs) f = (f.0, Found-take qs n xs f.1)

  pub map-take : (n : ℕ) (xs : List (QueryPeerState Peer)) → take n (ids xs) ≡ ids (take n xs)
  map-take zero xs = refl
  map-take (suc n) [] = refl
  map-take (suc n) (x ∷ xs) = ap (◌∷◌ x.id) (map-take n xs)

  mem-insert :
      (p : Peer) (q : QueryPeerState Peer) (qs : List (QueryPeerState Peer))
      → mem p (ids (insert_by_distance q qs)) ≡ e.beq p q.id || mem p (ids qs)
  unfolding insert_by_distance
  mem-insert p q [] = refl
  mem-insert p q (x ∷ qs) = ground (arith, mem-insert p q qs)

  Distinct-insert :
      (q : QueryPeerState Peer) (qs : List (QueryPeerState Peer))
      → mem q.id (ids qs) ≡ false
      → Distinct (ids qs)
      → Distinct (ids (insert_by_distance q qs))
  unfolding insert_by_distance
  Distinct-insert q [] n d = (refl, tt)
  Distinct-insert q (x ∷ qs) n d = elim (Bool-cases (ltb x.distance q.distance)) [
    | inl low ↦ rw low (
      mem-insert x.id q qs
          ∙ or_both (e.beq x.id q.id) _ (beq_sym x.id q.id ∙ or-left_false (e.beq q.id x.id) _ n)
              d.0,
      Distinct-insert q qs (or-right_false (e.beq q.id x.id) _ n) d.1,
    )
    | inr high ↦ rw high (n, d)
  ]

  pub mem-sort :
      (p : Peer) (qs : List (QueryPeerState Peer))
      → mem p (ids (sort_by_distance qs)) ≡ mem p (ids qs)
  unfolding sort_by_distance
  mem-sort p [] = refl
  mem-sort p (q ∷ qs) =
      mem-insert p q (sort_by_distance qs) ∙ ap (λ b. e.beq p q.id || b) (mem-sort p qs)

  Distinct-sort_by_distance :
      (qs : List (QueryPeerState Peer)) → Distinct (ids qs) → Distinct (ids (sort_by_distance qs))
  unfolding sort_by_distance
  Distinct-sort_by_distance [] d = tt
  Distinct-sort_by_distance (q ∷ qs) d =
      Distinct-insert q (sort_by_distance qs) (mem-sort q.id qs ∙ d.0)
        (Distinct-sort_by_distance qs d.1)

  pub Distinct-sort :
      (qp : QueryPeerset Peer) → Distinct (ids qp.all_peers) → Distinct (ids (sort qp).all_peers)
  unfolding sort
  Distinct-sort qp d = elim (Bool-cases qp.sorted) [
    | inl is_sorted ↦ rw is_sorted d
    | inr not_sorted ↦ rw not_sorted (Distinct-sort_by_distance qp.all_peers d)
  ]
