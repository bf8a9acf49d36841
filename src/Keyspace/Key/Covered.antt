-- ===== src/Keyspace/Key/Covered.antt =====
-- `ShortestCoveredPrefix` of key.go: the peers that it returns are those under the prefix.
use go_libp2p_hybrid_kad_dht.Prelude.{
  ℕ, suc, ◌≤◌, ◌<◌, ◌≡◌, refl, ap, ◌∙◌, true, List, [], ◌∷◌, length, take, select, any, all, ltb,
  leb, arith,
}
use go_libp2p_hybrid_kad_dht.Keyspace.Key.{
  Key, common_prefix_length, Cover, cover_loop, shortest_covered_prefix, key_to_bytes,
}
use go_libp2p_hybrid_kad_dht.Keyspace.Key.Prefixes.{starts, closer}
use go_libp2p_hybrid_kad_dht.Keyspace.Key.CoverLoop.{
  cpl-le, starts-take, cpl_of_closer, Touched, Falling, under, first, loop_first,
}

module _ {ℓ} {Peer : Type ℓ} (peer_key : Peer → Key) (target : Key) where
  abbrev common : Peer → ℕ
  common p = common_prefix_length target (peer_key p)

  -- What `SortClosestPeers` documents: the nearest peers first.
  abbrev pub NearestFirst : List Peer → Type 0
  NearestFirst [] = Unit {0}
  NearestFirst (p ∷ ps) =
      (all (λ q. closer target (peer_key p) (peer_key q)) ps ≡ true) × NearestFirst ps

  NearestFirst-Falling :
      (ps : List Peer)
      → all (λ q. leb (length target) (length (peer_key q))) ps ≡ true
      → NearestFirst ps
      → (n : ℕ) → all (λ q. leb (common q) n) ps ≡ true
      → Falling peer_key target n ps
  NearestFirst-Falling [] l s n h = tt
  NearestFirst-Falling (p ∷ ps) l s n h =
      (ground arith, NearestFirst-Falling ps (ground arith) s.1 (common p) (tail ps s.0))
    where
      tail :
          (qs : List Peer)
          → all (λ q. closer target (peer_key p) (peer_key q)) qs ≡ true
          → all (λ q. leb (common q) (common p)) qs ≡ true
      tail [] h = refl
      tail (q ∷ qs) h = ground (arith, cpl_of_closer target (peer_key p) (peer_key q), tail qs)

  within_target : (ps : List Peer) → all (λ q. leb (common q) (length target)) ps ≡ true
  within_target [] = refl
  within_target (p ∷ ps) = ground (arith, cpl-le target (peer_key p), within_target ps)

  under-starts :
      (n : ℕ) (ps : List Peer)
      → n ≤ length target
      → under peer_key target n ps ≡ select (λ p. starts (take n target) (peer_key p)) ps
  under-starts n [] l = refl
  under-starts n (p ∷ ps) l =
      ground (arith, starts-take n target (peer_key p) l, under-starts n ps l)

  module _ (sort_closest : List Peer → List ℕ → List Peer) (p : Peer) (ps : List Peer) where
    abbrev sorted : List Peer
    sorted = sort_closest (p ∷ ps) (key_to_bytes target)

    -- Let the peers be sorted nearest first, with keys no shorter than the target, and let one of
    -- them differ from the target. Then `ShortestCoveredPrefix` returns exactly the peers, in
    -- order, whose keys begin with the returned prefix; the prefix begins the target and is not
    -- empty; and every peer shares all but the last bit of it, so no shorter prefix would do.
    pub shortest_covered_prefix_covers :
        NearestFirst sorted
        → all (λ q. leb (length target) (length (peer_key q))) sorted ≡ true
        → any (λ q. ltb (common q) (length target)) sorted ≡ true
        → ((shortest_covered_prefix peer_key sort_closest target (p ∷ ps)).1
            ≡ select
                (λ q.
                  starts
                    (shortest_covered_prefix peer_key sort_closest target (p ∷ ps)).0
                    (peer_key q))
                sorted)
          × (n : ℕ) × ((shortest_covered_prefix peer_key sort_closest target (p ∷ ps)).0
              ≡ take (suc n) target)
          × (n < length target)
          × (all (λ q. leb n (common q)) sorted ≡ true)
    unfolding shortest_covered_prefix
    shortest_covered_prefix_covers near long some_far = (
      t.split ∙ under-starts c.covered_cpl sorted t.within,
      c.min_cpl,
      ap (λ n. take n target) t.covered,
      omega (arith, t.covered, t.within),
      t.lowest,
    )
      where
        t :
            Touched peer_key target sorted
              (cover_loop peer_key target sorted 0 (first peer_key target))
        t =
            loop_first peer_key target [] sorted refl
              (NearestFirst-Falling sorted long near (length target) (within_target sorted))
              some_far

        c : Cover
        c = cover_loop peer_key target sorted 0 (first peer_key target)
