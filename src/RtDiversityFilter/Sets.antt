-- ===== src/RtDiversityFilter/Sets.antt =====
-- The maps of filterPeersByIPDiversity hold sets.
use go_libp2p_hybrid_kad_dht.Prelude.{
  ◌≡◌, ap, ◌∙◌, Bool, false, ◌&&◌, not, Option, List, [], ◌∷◌, Eq, Map, lookup, put, mem, arith,
  Bool-cases, Option-cases, inl, inr, beq→eq, beq_refl, map, delete, Distinct,
}
use go_libp2p_hybrid_kad_dht.RtDiversityFilter.Responses.{
  AddrInfo, insert, or_empty_set, count_addrs, ip_group_peers,
}

module _ {Peer : Type 0} ⦃e : Eq Peer⦄ where
  insert-Distinct : (p : Peer) (ps : List Peer) → Distinct ps → Distinct (insert p ps)
  insert-Distinct p ps d = elim (Bool-cases (mem p ps)) [
    | inl known ↦ rw known d
    | inr new ↦ rw new (new, d)
  ]

  module _ {Group : Type 0} ⦃eg : Eq Group⦄ where
    -- The peers that the maps have for a group.
    abbrev pub peers_of : Map Group (List Peer) → Group → List Peer
    peers_of groups g = or_empty_set (lookup groups g)

    -- A map from groups to sets: no group is there twice, and no peer is twice in a set.
    abbrev pub Sets : Map Group (List Peer) → Type 0
    Sets [] = Unit {0}
    Sets (g ∷ gs) = (mem g.0 (map (λ h. h.0) gs) ≡ false) × Distinct g.1 × Sets gs

    peers_of-Distinct :
        (groups : Map Group (List Peer)) (g : Group) → Sets groups → Distinct (peers_of groups g)
    peers_of-Distinct [] g d = tt
    peers_of-Distinct (h ∷ groups) g d = elim (Bool-cases (eg.beq h.0 g)) [
      | inl hit ↦ rw hit d.1
      | inr miss ↦ rw miss (peers_of-Distinct groups g d.2)
    ]

    mem-delete :
        (j g : Group) (groups : Map Group (List Peer))
        → mem j (map (λ h. h.0) (delete groups g))
          ≡ not (eg.beq j g) && mem j (map (λ h. h.0) groups)
    mem-delete j g [] = ground arith
    mem-delete j g (h ∷ groups) = elim (Bool-cases (eg.beq j h.0)) [
      | inl same ↦ rw (beq→eq j h.0 same) (ground (arith, beq_refl h.0, mem-delete h.0 g groups))
      | inr other ↦ ground (arith, mem-delete j g groups)
    ]

    delete-Sets :
        (groups : Map Group (List Peer)) (g : Group) → Sets groups → Sets (delete groups g)
    delete-Sets [] g d = tt
    delete-Sets (h ∷ groups) g d = elim (Bool-cases (eg.beq h.0 g)) [
      | inl hit ↦ rw hit (delete-Sets groups g d.2)
      | inr miss ↦ rw miss (
        mem-delete h.0 g groups ∙ ap (λ b. not (eg.beq h.0 g) && b) d.0 ∙ and_false _,
        d.1,
        delete-Sets groups g d.2,
      )
    ]
      where
        and_false : (a : Bool) → a && false ≡ false
        and_false a = ground arith

    put-Sets :
        (groups : Map Group (List Peer)) (g : Group) (ps : List Peer)
        → Sets groups
        → Distinct ps
        → Sets (put groups g ps)
    put-Sets groups g ps d n = (
      mem-delete g g groups ∙ ap (λ b. not b && mem g (map (λ h. h.0) groups)) (beq_refl g),
      n,
      delete-Sets groups g d,
    )

  module _ {Addr : Type 0} {Group : Type 0} ⦃eg : Eq Group⦄ (ip_group : Addr → Option Group) where
    count_addrs-Sets :
        (p : Peer) (addrs : List Addr) (groups : Map Group (List Peer))
        → Sets groups
        → Sets (count_addrs ip_group p addrs groups)
    unfolding count_addrs
    count_addrs-Sets p [] groups d = d
    count_addrs-Sets p (a ∷ addrs) groups d = elim (Option-cases (ip_group a)) [
      | inl no_group ↦ rw (no_group, count_addrs) (count_addrs-Sets p addrs groups d)
      | inr grouped ↦
          rw (grouped.1, count_addrs)
            (count_addrs-Sets p addrs (put groups grouped.0 (insert p (peers_of groups grouped.0)))
              (put-Sets groups grouped.0 (insert p (peers_of groups grouped.0)) d (
                insert-Distinct p (peers_of groups grouped.0)
                  (peers_of-Distinct groups grouped.0 d))))
    ]

    pub ip_group_peers-Sets :
        (ps : List (AddrInfo Peer Addr)) (groups : Map Group (List Peer))
        → Sets groups
        → Sets (ip_group_peers ip_group ps groups)
    unfolding ip_group_peers
    ip_group_peers-Sets [] groups d = d
    ip_group_peers-Sets (p ∷ ps) groups d =
        ip_group_peers-Sets ps (count_addrs ip_group p.id p.addrs groups)
          (count_addrs-Sets p.id p.addrs groups d)
