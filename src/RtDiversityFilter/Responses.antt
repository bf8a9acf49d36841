-- ===== src/RtDiversityFilter/Responses.antt =====
-- rt_diversity_filter.go: `filterPeersByIPDiversity`.
--
-- The IP group of an address, of the libraries for multiaddresses and diversity, is an argument;
-- it is missing for an address without an IP and for an empty group. The limit is not negative.
use go_libp2p_hybrid_kad_dht.Prelude.{
  ℕ, not, Option, none, some, List, [], ◌∷◌, ◌++◌, select, length, ltb, ◌==◌, if◌then◌else◌, Eq,
  Map, lookup, put, mem,
}

-- `peer.AddrInfo`.
pub record AddrInfo (Peer : Type 0) (Addr : Type 0) : Type 0 where
  pub id : Peer
  pub addrs : List Addr

module _ {Peer : Type 0} ⦃e : Eq Peer⦄ where
  -- A set of peers as a list without repetition.
  abbrev pub insert : Peer → List Peer → List Peer
  insert p ps = if mem p ps then ps else p ∷ ps

  abbrev pub or_empty_set : Option (List Peer) → List Peer
  or_empty_set none = []
  or_empty_set (some ps) = ps

  -- The loop over the groups: the peers of those with more than `limit` peers.
  unfoldable pub peers_to_remove {ℓ} : {Group : Type ℓ} → ℕ → Map Group (List Peer) → List Peer
  peers_to_remove limit [] = []
  peers_to_remove limit (g ∷ gs) =
      let rest = peers_to_remove limit gs in if ltb limit (length g.1) then g.1 ++ rest else rest

  module _ {Addr : Type 0} {Group : Type 0} ⦃eg : Eq Group⦄ (ip_group : Addr → Option Group) where
    -- The loops over the peers and their addresses.
    unfoldable pub count_addrs : Peer → List Addr → Map Group (List Peer) → Map Group (List Peer)
    count_addrs p [] groups = groups
    count_addrs p (a ∷ addrs) groups = elim (ip_group a) [
      | none ↦ count_addrs p addrs groups
      | some g ↦ count_addrs p addrs (put groups g (insert p (or_empty_set (lookup groups g))))
    ]

    unfoldable pub ip_group_peers :
        List (AddrInfo Peer Addr) → Map Group (List Peer) → Map Group (List Peer)
    unfolding count_addrs
    ip_group_peers [] groups = groups
    ip_group_peers (p ∷ ps) groups = ip_group_peers ps (count_addrs p.id p.addrs groups)

    -- `filterPeersByIPDiversity`.
    unfoldable pub filter_peers_by_ip_diversity :
        List (AddrInfo Peer Addr) → ℕ → List (AddrInfo Peer Addr)
    unfolding peers_to_remove ip_group_peers
    filter_peers_by_ip_diversity new_peers limit =
        let removed = peers_to_remove limit (ip_group_peers new_peers []) in
        if limit == 0
        then new_peers
        else if length removed == 0
        then new_peers
        else select (λ p. not (mem p.id removed)) new_peers
