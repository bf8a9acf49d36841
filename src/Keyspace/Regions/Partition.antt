-- ===== src/Keyspace/Regions/Partition.antt =====
-- The regions split the trie.
use mathlib.Core.List.{Perm, perm_append_comm}
use mathlib.Core.List.Perm
use go_libp2p_hybrid_kad_dht.Prelude.{
  ℕ, ◌≡◌, ◌≤◌, refl, sym, ap, ◌∙◌, true, false, ◌&&◌, List, [], ◌∷◌, ◌++◌, length, leb, leb→le,
  Bool-cases, inl, inr, append-nil, append_assoc, and-left, and-right,
}
use go_libp2p_hybrid_kad_dht.Keyspace.Key.{Key}
use go_libp2p_hybrid_kad_dht.Keyspace.Trie.{Trie, Order, empty_leaf, leaf, branches, size}
use go_libp2p_hybrid_kad_dht.Keyspace.Trie.Shape.{entries, WellFormed}
use go_libp2p_hybrid_kad_dht.Keyspace.Regions.{Region, extract_minimal_regions}

module _ {Peer : Type 0} {Mh : Type 0} where
  -- The entries of all regions, one after the other.
  abbrev pub all_peers : List (Region Peer Mh) → List (Key × Peer)
  all_peers [] = []
  all_peers (g ∷ gs) = entries g.peers ++ all_peers gs

  -- Each region holds only keys under its prefix, and at least n of them.
  abbrev pub Large : ℕ → List (Region Peer Mh) → Type 0
  Large n [] = Unit {0}
  Large n (g ∷ gs) = WellFormed g.prefix g.peers × (n ≤ size g.peers) × Large n gs

  all_peers-append :
      (gs hs : List (Region Peer Mh)) → all_peers (gs ++ hs) ≡ all_peers gs ++ all_peers hs
  all_peers-append [] hs = refl
  all_peers-append (g ∷ gs) hs =
      ap (λ l. entries g.peers ++ l) (all_peers-append gs hs)
      ∙ sym (append_assoc (entries g.peers) (all_peers gs) (all_peers hs))

  Large-append :
      (n : ℕ) (gs hs : List (Region Peer Mh)) → Large n gs → Large n hs → Large n (gs ++ hs)
  Large-append n [] hs a b = b
  Large-append n (g ∷ gs) hs a b = (a.0, a.1, Large-append n gs hs a.2 b)

-- Let a trie be well-formed at its path, with at least n keys. The regions of
-- `extractMinimalRegions` hold together exactly the entries of the trie, each once; every
-- region holds only keys that begin with its prefix, and at least n of them.
pub extract_minimal_regions_split :
    {Peer : Type 0} (Mh : Type 0) (t : Trie Peer) (path : Key) (n : ℕ) (order : Order)
    → WellFormed path t
    → n ≤ size t
    → Perm (all_peers (extract_minimal_regions {Mh = Mh} t path n order)) (entries t)
      × Large n (extract_minimal_regions {Mh = Mh} t path n order)
unfolding extract_minimal_regions
extract_minimal_regions_split Mh empty_leaf path n order w h = (Perm.refl [], tt)
extract_minimal_regions_split Mh (leaf k d) path n order w h = (Perm.refl ((k, d) ∷ []), (w, h, tt))
extract_minimal_regions_split Mh (branches l r) path n order w h =
    elim (Bool-cases (leb n (size l) && leb n (size r))) [
      | inr small ↦ rw small (
        rw (append-nil (entries l ++ entries r)) (Perm.refl (entries l ++ entries r)),
        (w, h, tt),
      )
      | inl both ↦
          let left =
            extract_minimal_regions_split Mh l (path ++ false ∷ []) n order w.0
              (leb→le n (size l) (and-left _ (leb n (size r)) both)) in
          let right =
            extract_minimal_regions_split Mh r (path ++ true ∷ []) n order w.1
              (leb→le n (size r) (and-right (leb n (size l)) _ both)) in
          elim (Bool-cases (order (length path))) [
            | inl right_first ↦
                rw (both, right_first)
                  (
                    rw
                        (all_peers-append
                          (extract_minimal_regions {Mh = Mh} r (path ++ true ∷ []) n order)
                          (extract_minimal_regions {Mh = Mh} l (path ++ false ∷ []) n order))
                        (Perm.trans
                          (perm_append_comm
                            (all_peers
                              (extract_minimal_regions {Mh = Mh} r (path ++ true ∷ []) n order))
                            (all_peers
                              (extract_minimal_regions {Mh = Mh} l (path ++ false ∷ []) n order)))
                          (Perm.append left.0 right.0)),
                    Large-append n _ _ right.1 left.1,
                  )
            | inr left_first ↦
                rw (both, left_first)
                  (
                    rw
                        (all_peers-append
                          (extract_minimal_regions {Mh = Mh} l (path ++ false ∷ []) n order)
                          (extract_minimal_regions {Mh = Mh} r (path ++ true ∷ []) n order))
                        (Perm.append left.0 right.0),
                    Large-append n _ _ left.1 right.1,
                  )
          ]
    ]
