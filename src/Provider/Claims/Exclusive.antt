-- ===== src/Provider/Claims/Exclusive.antt =====
-- `claimRegionReprovide`: no region is claimed twice.
use go_libp2p_hybrid_kad_dht.Prelude.{
  ◌≡◌, refl, sym, ◌∙◌, ap, Bool, true, false, ◌&&◌, ◌||◌, not, List, [], ◌∷◌, any, all, length, leb,
  arith, any-map, Bool-cases, inl, inr, and-left, and-right, all_of_all, if◌then◌else◌, Ordered,
  fun_ext,
}
use go_libp2p_hybrid_kad_dht.Keyspace.Key.{Key}
use go_libp2p_hybrid_kad_dht.Keyspace.Key.Prefixes.{starts, starts_trans}
use go_libp2p_hybrid_kad_dht.Keyspace.Trie.{Trie, is_empty_leaf, find_prefix_of_key, prune_subtrie}
use go_libp2p_hybrid_kad_dht.Keyspace.Trie.Shape.{entries, keys}
use go_libp2p_hybrid_kad_dht.Keyspace.Trie.Find.{find_prefix_of_key_finds}
use go_libp2p_hybrid_kad_dht.Keyspace.Trie.Prune.{outside, prune_subtrie-outside}
use go_libp2p_hybrid_kad_dht.Keyspace.Trie.Api.{TrieApi, TrieLaws}
use go_libp2p_hybrid_kad_dht.Keyspace.Regions.{Region}
use go_libp2p_hybrid_kad_dht.Queue.Prefix.Invariant.{any_of_same}
use go_libp2p_hybrid_kad_dht.Provider.Schedule.Invariant.{
  Disjoint, prune_subtrie-Disjoint, prune_subtrie-IsFree, add-Disjoint,
}
use go_libp2p_hybrid_kad_dht.Provider.Claims.{claim_region_reprovide}

-- A region with peers.
abbrev pub populated : {Peer : Type 0} {Mh : Type 0} → Region Peer Mh → Bool
populated r = not (is_empty_leaf r.peers)

-- The key is in a region that is active.
abbrev pub is_active : Key → Trie (Unit {0}) → Bool
is_active x active = any (λ k. starts k x) (keys active)

module _ {Peer : Type 0} {Mh : Type 0} where
  -- The regions to claim where the test tells the keys that are taken: each region with peers
  -- whose prefix is not taken by then, which takes the keys under its prefix from the later ones.
  abbrev pub claims : (Key → Bool) → List (Region Peer Mh) → List (Region Peer Mh)
  claims taken [] = []
  claims taken (r ∷ regions) =
      let skip = claims taken regions in
      let out = r ∷ claims (λ x. starts r.prefix x || taken x) regions in
      if populated r && not (taken r.prefix) then out else skip

  -- The prefix of the second region does not begin with that of the first.
  abbrev pub not_within : Region Peer Mh → Region Peer Mh → Bool
  not_within a b = not (starts a.prefix b.prefix)

-- What pruning takes away is covered by the prefix.
outside_covered :
    (k x : Key) (es : List (Key × Unit {0}))
    → starts k x || any (λ e. starts e.0 x) (outside k es)
      ≡ starts k x || any (λ e. starts e.0 x) es
outside_covered k x [] = refl
outside_covered k x (e ∷ es) = ground (arith, outside_covered k x es, starts_trans k e.0 x)

-- What is under a key of an active region is in it too.
active_under :
    (k x : Key) (ks : List Key)
    → any (λ j. starts j k) ks ≡ true
    → starts k x ≡ true
    → any (λ j. starts j x) ks ≡ true
active_under k x [] h s = cc
active_under k x (j ∷ ks) h s = ground (arith, active_under k x ks, starts_trans j k x)

module _ (api : TrieApi (Unit {0})) (laws : TrieLaws api) (order : Key) where
  found_active :
      (k : Key) (active : Trie (Unit {0}))
      → Disjoint order active
      → (find_prefix_of_key active k).1 ≡ is_active k active
  found_active k active d =
      (find_prefix_of_key_finds active k d.shape).0
      ∙ sym (any-map (λ e. e.0) (λ j. starts j k) (entries active))

  -- The trie after a region is claimed.
  record Claimed (k : Key) (active active' : Trie (Unit {0})) : Type 0 where
    apart : Disjoint order active'
    covered : (x : Key) → is_active x active' ≡ starts k x || is_active x active

  claim_one :
      (k : Key) (active : Trie (Unit {0}))
      → leb (length k) (length order) ≡ true
      → Disjoint order active
      → is_active k active ≡ false
      → Claimed k active (api.add k tt (prune_subtrie active k))
  claim_one k active l d h = record {
    apart = add-Disjoint api laws order k tt (prune_subtrie active k) l free pruned;
    covered = λ x.
        any_of_same (λ j. starts j x) (keys (api.add k tt (prune_subtrie active k)))
          (k ∷ keys (prune_subtrie active k))
          (λ y. laws.has-add y k tt (prune_subtrie active k) pruned.shape free)
        ∙ ap (λ b. starts k x || b)
            (any-map (λ e. e.0) (λ j. starts j x) (entries (prune_subtrie active k))
              ∙ ap (any (λ e. starts e.0 x)) (prune_subtrie-outside active k d.shape).0)
        ∙ outside_covered k x (entries active)
        ∙ ap (λ b. starts k x || b) (sym (any-map (λ e. e.0) (λ j. starts j x) (entries active)));
  }
    where
      pruned : Disjoint order (prune_subtrie active k)
      pruned = prune_subtrie-Disjoint order active k d

      free : any (λ j. starts k j || starts j k) (keys (prune_subtrie active k)) ≡ false
      free =
          prune_subtrie-IsFree k active d.shape
            (sym (any-map (λ e. e.0) (λ j. starts j k) (entries active)) ∙ h)

  module _ {Peer : Type 0} {Mh : Type 0} where
    -- Let no active region begin another, and let no prefix be longer than the order. Then no
    -- active region begins another after `claimRegionReprovide`. It claims exactly, in order, the
    -- regions with peers whose prefix is neither in an active region nor in one claimed before in
    -- the same call; no claimed region was in an active one, and none is in one claimed before it;
    -- and exactly the keys of the regions with peers become active beside those that were. So a
    -- region with peers is not claimed a second time before its release.
    pub claim_region_reprovide_excludes :
        (regions : List (Region Peer Mh)) (active : Trie (Unit {0}))
        → all (λ r. leb (length r.prefix) (length order)) regions ≡ true
        → Disjoint order active
        → let (out, active') = claim_region_reprovide api regions active in
          Disjoint order active'
          × (out ≡ claims (λ x. is_active x active) regions)
          × Ordered not_within out
          × (all (λ r. populated r && not (is_active r.prefix active)) out ≡ true)
          × ((x : Key)
              → is_active x active'
                ≡ any (λ r. populated r && starts r.prefix x) regions || is_active x active)
    unfolding claim_region_reprovide
    claim_region_reprovide_excludes [] active l d = (d, refl, tt, refl, λ x. refl)
    claim_region_reprovide_excludes (r ∷ regions) active l d =
        elim (Bool-cases (is_empty_leaf r.peers)) [
          | inl hollow ↦
              let (d', exact, order', fresh, covered) =
                claim_region_reprovide_excludes regions active (and-right _ _ l) d in
              rw hollow (d', exact, order', fresh, covered)
          | inr peers ↦ elim (Bool-cases (is_active r.prefix active)) [
            | inl busy ↦
                let (d', exact, order', fresh, covered) =
                  claim_region_reprovide_excludes regions active (and-right _ _ l) d in
                rw (peers, found_active r.prefix active d ∙ busy)
                  (
                    d',
                    rw busy exact,
                    order',
                    fresh,
                    λ x.
                        covered x
                        ∙ old (starts r.prefix x)
                            (any (λ q. populated q && starts q.prefix x) regions)
                            (is_active x active) (active_under r.prefix x (keys active) busy),
                  )
            | inr idle ↦
                let one = claim_one r.prefix active (and-left _ _ l) d idle in
                let (d', exact, order', fresh, covered) =
                  claim_region_reprovide_excludes regions
                    (api.add r.prefix tt (prune_subtrie active r.prefix)) (and-right _ _ l)
                    one.apart in
                rw (peers, found_active r.prefix active d ∙ idle)
                  (
                    d',
                    rw idle (
                        ap (◌∷◌ r)
                          (exact ∙ ap (λ f. claims f regions) (fun_ext (λ x. one.covered x)))),
                    (
                      all_of_all
                          (λ q.
                            populated q
                            && not (
                                is_active q.prefix
                                  (api.add r.prefix tt (prune_subtrie active r.prefix))))
                          (not_within r)
                          (λ q h.
                            not_under (populated q) _ (starts r.prefix q.prefix)
                              (is_active q.prefix active) (one.covered q.prefix) h)
                          (claim_region_reprovide api regions
                            (api.add r.prefix tt (prune_subtrie active r.prefix))).0
                          fresh,
                      order',
                    ),
                    rw (peers, idle)
                        (all_of_all
                          (λ q.
                            populated q
                            && not (
                                is_active q.prefix
                                  (api.add r.prefix tt (prune_subtrie active r.prefix))))
                          (λ q. populated q && not (is_active q.prefix active))
                          (λ q h.
                            weaken (populated q) _ (starts r.prefix q.prefix)
                              (is_active q.prefix active) (one.covered q.prefix) h)
                          (claim_region_reprovide api regions
                            (api.add r.prefix tt (prune_subtrie active r.prefix))).0
                          fresh),
                    λ x.
                        covered x
                        ∙ ap (λ b. any (λ q. populated q && starts q.prefix x) regions || b)
                            (one.covered x)
                        ∙ regroup (any (λ q. populated q && starts q.prefix x) regions)
                            (starts r.prefix x) (is_active x active),
                  )
          ]
        ]
      where
        old : (a b c : Bool) → (a ≡ true → c ≡ true) → b || c ≡ (a || b) || c
        old a b c h = ground arith

        weaken : (p n a o : Bool) → n ≡ a || o → p && not n ≡ true → p && not o ≡ true
        weaken p n a o e h = ground arith

        not_under : (p n a o : Bool) → n ≡ a || o → p && not n ≡ true → not a ≡ true
        not_under p n a o e h = ground arith

        regroup : (a b c : Bool) → a || (b || c) ≡ (b || a) || c
        regroup a b c = ground arith
