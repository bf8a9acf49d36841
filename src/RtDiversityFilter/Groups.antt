-- ===== src/RtDiversityFilter/Groups.antt =====
-- Which peers a response loses.
use go_libp2p_hybrid_kad_dht.Prelude.{
  ℕ, ◌≡◌, refl, sym, ap, ◌∙◌, Bool, true, false, ◌&&◌, ◌||◌, not, Option, none, some, List, [], ◌∷◌,
  any, select, length, ltb, ◌==◌, if◌then◌else◌, Eq, Map, put, mem, mem-append, arith, Bool-cases,
  Option-cases, inl, inr, beq→eq, lookup-put_same, lookup-put_other, fun_ext,
}
use go_libp2p_hybrid_kad_dht.RtDiversityFilter.Responses.{
  AddrInfo, insert, or_empty_set, peers_to_remove, count_addrs, ip_group_peers,
  filter_peers_by_ip_diversity,
}
use go_libp2p_hybrid_kad_dht.RtDiversityFilter.Sets.{peers_of, Sets, ip_group_peers-Sets}

insert_case : (q m r : Bool) → (q ≡ true → m ≡ true) → m ≡ q || m
insert_case q m r h = ground arith

or_nothing : (a : Bool) → a || false ≡ a
or_nothing a = ground arith

module _ {Addr : Type 0} {Group : Type 0} ⦃eg : Eq Group⦄ (ip_group : Addr → Option Group) where
  abbrev pub in_group : Group → Addr → Bool
  in_group g a = elim (ip_group a) [ none ↦ false | some h ↦ eg.beq g h ]

module _ {Peer : Type 0} ⦃e : Eq Peer⦄ where
  mem-insert : (x p : Peer) (ps : List Peer) → mem x (insert p ps) ≡ e.beq x p || mem x ps
  mem-insert x p ps = elim (Bool-cases (mem p ps)) [
    | inl known ↦
        rw known
          (insert_case (e.beq x p) (mem x ps) true (λ t. ap (λ y. mem y ps) (beq→eq x p t) ∙ known))
    | inr new ↦ rw new refl
  ]

  mem-peers_to_remove {ℓ} :
      {Group : Type ℓ} (x : Peer) (limit : ℕ) (gs : Map Group (List Peer))
      → mem x (peers_to_remove limit gs) ≡ any (λ g. ltb limit (length g.1) && mem x g.1) gs
  unfolding peers_to_remove
  mem-peers_to_remove x limit [] = refl
  mem-peers_to_remove x limit (g ∷ gs) =
      ground (arith, mem-append x g.1 (peers_to_remove limit gs), mem-peers_to_remove x limit gs)

  module _ {Addr : Type 0} {Group : Type 0} ⦃eg : Eq Group⦄ (ip_group : Addr → Option Group) where
    put_case :
        (x p : Peer) (g h : Group) (groups : Map Group (List Peer))
        → mem x (peers_of (put groups h (insert p (peers_of groups h))) g)
          ≡ (eg.beq g h && e.beq x p) || mem x (peers_of groups g)
    put_case x p g h groups = elim (Bool-cases (eg.beq g h)) [
      | inl same ↦ rw same (
          ap (λ y. mem x (peers_of (put groups h (insert p (peers_of groups h))) y))
            (beq→eq g h same)
          ∙ ap (λ o. mem x (or_empty_set o))
              (lookup-put_same groups h (insert p (peers_of groups h)))
          ∙ mem-insert x p (peers_of groups h)
          ∙ ap (λ y. e.beq x p || mem x (peers_of groups y)) (sym (beq→eq g h same)))
      | inr other ↦ rw other (
          ap (λ o. mem x (or_empty_set o))
            (lookup-put_other groups g h (insert p (peers_of groups h)) other))
    ]

    count_addrs-mem :
        (x p : Peer) (g : Group) (addrs : List Addr) (groups : Map Group (List Peer))
        → mem x (peers_of (count_addrs ip_group p addrs groups) g)
          ≡ (e.beq x p && any (in_group ip_group g) addrs) || mem x (peers_of groups g)
    unfolding count_addrs
    count_addrs-mem x p g [] groups = ground arith
    count_addrs-mem x p g (a ∷ addrs) groups = elim (Option-cases (ip_group a)) [
      | inl no_group ↦ rw (no_group, count_addrs, in_group) (count_addrs-mem x p g addrs groups)
      | inr grouped ↦
          rw (grouped.1, count_addrs, in_group)
            (count_addrs-mem x p g addrs
                (put groups grouped.0 (insert p (peers_of groups grouped.0)))
              ∙ ap (λ b. (e.beq x p && any (in_group ip_group g) addrs) || b)
                  (put_case x p g grouped.0 groups)
              ∙ regroup (e.beq x p) (any (in_group ip_group g) addrs) (eg.beq g grouped.0) _)
    ]
      where
        regroup : (q r s m : Bool) → (q && r) || ((s && q) || m) ≡ (q && (s || r)) || m
        regroup q r s m = ground arith

    ip_group_peers-mem :
        (x : Peer) (g : Group) (ps : List (AddrInfo Peer Addr)) (groups : Map Group (List Peer))
        → mem x (peers_of (ip_group_peers ip_group ps groups) g)
          ≡ any (λ p. e.beq x p.id && any (in_group ip_group g) p.addrs) ps
            || mem x (peers_of groups g)
    unfolding ip_group_peers
    ip_group_peers-mem x g [] groups = refl
    ip_group_peers-mem x g (p ∷ ps) groups =
        ip_group_peers-mem x g ps (count_addrs ip_group p.id p.addrs groups)
        ∙ ap (λ b. any (λ p. e.beq x p.id && any (in_group ip_group g) p.addrs) ps || b)
            (count_addrs-mem x p.id g p.addrs groups)
        ∙ swap_or (any (λ p. e.beq x p.id && any (in_group ip_group g) p.addrs) ps) _ _
      where
        swap_or : (a b m : Bool) → a || (b || m) ≡ (b || a) || m
        swap_or a b m = ground arith

    none_removed :
        (removed : List Peer) (ps : List (AddrInfo Peer Addr))
        → (length removed == 0) ≡ true
        → ps ≡ select (λ p. not (mem p.id removed)) ps
    none_removed [] [] h = refl
    none_removed [] (p ∷ ps) h = ap (◌∷◌ p) (none_removed [] ps h)
    none_removed (r ∷ removed) ps h = absurd (contrary (sym h))
      where
        contrary : true ≡ (length (r ∷ removed) == 0) → ⊥
        contrary c = ground arith

    -- Let the limit be positive. `filterPeersByIPDiversity` keeps, in order, exactly the peers that
    -- are not among the peers of a group with more of them than the limit, for the sets that the
    -- maps hold; no group is there twice, no peer is twice in a set, so that the limit counts
    -- peers, not addresses; and the set of a group has exactly the peers of the response that have
    -- an address in the group.
    pub filter_peers_by_ip_diversity_keeps :
        (ps : List (AddrInfo Peer Addr)) (limit : ℕ)
        → (limit == 0) ≡ false
        → let groups = ip_group_peers ip_group ps [] in
          (filter_peers_by_ip_diversity ip_group ps limit
            ≡ select (λ p. not (any (λ g. ltb limit (length g.1) && mem p.id g.1) groups)) ps)
          × Sets groups
          × ((x : Peer) (g : Group)
              → mem x (peers_of groups g)
                ≡ any (λ p. e.beq x p.id && any (in_group ip_group g) p.addrs) ps)
    unfolding filter_peers_by_ip_diversity
    filter_peers_by_ip_diversity_keeps ps limit h =
        let groups = ip_group_peers ip_group ps [] in
        let removed = peers_to_remove limit groups in
        let kept = select (λ p. not (mem p.id removed)) ps in
        (
          ap (λ b. if b then ps else if length removed == 0 then ps else kept) h
              ∙ (elim (Bool-cases (length removed == 0)) [
                | inl nothing ↦
                    ap (λ b. if b then ps else kept) nothing ∙ none_removed removed ps nothing
                | inr something ↦ ap (λ b. if b then ps else kept) something
              ])
              ∙ ap (λ f. select f ps)
                  (fun_ext (λ p. ap not (mem-peers_to_remove p.id limit groups))),
          ip_group_peers-Sets ip_group ps [] tt,
          λ x g. ip_group_peers-mem x g ps [] ∙ or_nothing _,
        )
