-- ===== src/Queue/Provide/Under.antt =====
-- The entries under a prefix, and those outside another.
use go_libp2p_hybrid_kad_dht.Prelude.{
  ◌+◌, ◌≡◌, refl, true, List, [], ◌∷◌, map, length, arith, all, ap₂, and-left, and-right,
}
use go_libp2p_hybrid_kad_dht.Keyspace.Key.{Key}
use go_libp2p_hybrid_kad_dht.Keyspace.Key.Prefixes.{starts_linear}
use go_libp2p_hybrid_kad_dht.Keyspace.Trie.Find.{under}
use go_libp2p_hybrid_kad_dht.Keyspace.Trie.Prune.{outside}
use go_libp2p_hybrid_kad_dht.Queue.Prefix.Invariant.{apart}

pub length-under-outside :
    {D : Type 0} (k : Key) (es : List (Key × D))
    → length (under k es) + length (outside k es) ≡ length es
length-under-outside k [] = omega arith
length-under-outside k (e ∷ es) = ground (arith, length-under-outside k es)

-- Taking the keys of a prefix away leaves those of a prefix that is apart from it.
under-outside :
    {D : Type 0} (k x : Key) (es : List (Key × D))
    → apart k x ≡ true
    → under x (outside k es) ≡ under x es
under-outside k x [] h = refl
under-outside k x (e ∷ es) h = ground (arith, under-outside k x es, starts_linear k x e.0)

pub unders-outside :
    {D : Type 0} (k : Key) (xs : List Key) (es : List (Key × D))
    → all (apart k) xs ≡ true
    → map (λ x. under x (outside k es)) xs ≡ map (λ x. under x es) xs
unders-outside k [] es h = refl
unders-outside k (x ∷ xs) es h =
    ap₂ (λ y ys. y ∷ ys) (under-outside k x es (and-left _ _ h))
      (unders-outside k xs es (and-right _ _ h))
