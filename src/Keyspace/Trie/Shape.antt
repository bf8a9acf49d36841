-- ===== src/Keyspace/Trie/Shape.antt =====
-- What a trie holds, and when its keys stand where their bits lead.
use go_libp2p_hybrid_kad_dht.Prelude.{
  ◌≡◌, refl, ap, ◌∙◌, sym, Bool, true, false, ◌&&◌, ◌||◌, not, List, [], ◌∷◌, ◌++◌, map, length,
  any, all, arith, all-append, any-append, map-append, length-append, ap₂, Bool-cases, inl, inr,
  or-left, or-right, and-left, and-right, and_intro, all_of_all, not-true→false, Ordered,
  Ordered-append, subst, all-map,
}
use go_libp2p_hybrid_kad_dht.Keyspace.Key.{Key, key_eq}
use go_libp2p_hybrid_kad_dht.Keyspace.Key.Prefixes.{
  starts, starts_trans, starts-append, starts_diverge, key_eq→eq,
}
use go_libp2p_hybrid_kad_dht.Keyspace.Trie.{Trie, empty_leaf, leaf, branches, is_empty_leaf, size}

module _ {ℓ} {D : Type ℓ} where
  -- The entries from left to right.
  abbrev pub entries : Trie D → List (Key × D)
  entries empty_leaf = []
  entries (leaf k d) = (k, d) ∷ []
  entries (branches l r) = entries l ++ entries r

  abbrev pub keys : Trie D → List Key
  keys t = map (λ e. e.0) (entries t)

  -- The key is among the keys of the trie.
  abbrev pub has : Key → Trie D → Bool
  has x t = any (key_eq x) (keys t)

  -- Each key stands under the path that its first bits spell, and an inner node holds a key.
  abbrev pub WellFormed : Key → Trie D → Type 0
  WellFormed p empty_leaf = Unit {0}
  WellFormed p (leaf k d) = starts p k ≡ true
  WellFormed p (branches l r) =
      WellFormed (p ++ false ∷ []) l
      × WellFormed (p ++ true ∷ []) r
      × (is_empty_leaf l && is_empty_leaf r ≡ false)

  abbrev pub all_under : Key → Trie D → Bool
  all_under p t = all (λ e. starts p e.0) (entries t)

  under_weaken :
      (p q : Key) (es : List (Key × D))
      → starts p q ≡ true
      → all (λ e. starts q e.0) es ≡ true
      → all (λ e. starts p e.0) es ≡ true
  under_weaken p q [] h a = refl
  under_weaken p q (e ∷ es) h a = ground (arith, under_weaken p q es, starts_trans p q e.0)

  pub WellFormed-under : (p : Key) (t : Trie D) → WellFormed p t → all_under p t ≡ true
  WellFormed-under p empty_leaf w = refl
  WellFormed-under p (leaf k d) w = ground arith
  WellFormed-under p (branches l r) w =
      all-append (λ e. starts p e.0) (entries l) (entries r)
      ∙ ap₂ ◌&&◌
          (under_weaken p (p ++ false ∷ []) (entries l) (starts-append p _)
            (WellFormed-under (p ++ false ∷ []) l w.0))
          (under_weaken p (p ++ true ∷ []) (entries r) (starts-append p _)
            (WellFormed-under (p ++ true ∷ []) r w.1))

  pub nonempty-any :
      (p : Key) (t : Trie D) (q : Key × D → Bool)
      → WellFormed p t
      → is_empty_leaf t ≡ false
      → all q (entries t) ≡ true
      → any q (entries t) ≡ true
  nonempty-any p empty_leaf q w h a = cc
  nonempty-any p (leaf k d) q w h a = ground arith
  nonempty-any p (branches l r) q w h a =
      any-append q (entries l) (entries r) ∙ (elim (Bool-cases (is_empty_leaf l)) [
        | inl hollow ↦
            or-right _ _
              (nonempty-any (p ++ true ∷ []) r q w.1 (ground (arith, w.2)) (and-right _ _ both))
        | inr full ↦ or-left _ _ (nonempty-any (p ++ false ∷ []) l q w.0 full (and-left _ _ both))
      ])
    where
      both : all q (entries l) && all q (entries r) ≡ true
      both = sym (all-append q (entries l) (entries r)) ∙ a

  pub size-entries : (t : Trie D) → size t ≡ length (entries t)
  size-entries empty_leaf = refl
  size-entries (leaf k d) = refl
  size-entries (branches l r) =
      omega (arith, size-entries l, size-entries r, length-append {ℓ} (entries l) (entries r))

  pub has-branches : (x : Key) (l r : Trie D) → has x (branches l r) ≡ has x l || has x r
  has-branches x l r =
      ap (any (key_eq x)) (map-append (λ e. e.0) (entries l) (entries r))
      ∙ any-append (key_eq x) (keys l) (keys r)

-- No key twice.
abbrev pub differ : Key → Key → Bool
differ j k = not (key_eq j k)

all-differ :
    (p : Key) (xs ys : List Key)
    → all (starts (p ++ false ∷ [])) xs ≡ true
    → all (starts (p ++ true ∷ [])) ys ≡ true
    → all (λ x. all (differ x) ys) xs ≡ true
all-differ p [] ys h k = refl
all-differ p (x ∷ xs) ys h k =
    and_intro _ _
      (all_of_all (starts (p ++ true ∷ [])) (differ x)
        (λ y s. ap not (different x y (and-left _ _ h) s)) ys k)
      (all-differ p xs ys (and-right _ _ h) k)
  where
    different :
        (x y : Key)
        → starts (p ++ false ∷ []) x ≡ true
        → starts (p ++ true ∷ []) y ≡ true
        → key_eq x y ≡ false
    different x y a b = not-true→false _ (λ e.
        absurd (contrary (sym (starts_diverge p [] x true a) ∙ (rw (← key_eq→eq x y e) at b))))
      where
        contrary : false ≡ true → ⊥
        contrary c = cc

module _ {ℓ} {D : Type ℓ} where
  pub Ordered-keys : (p : Key) (t : Trie D) → WellFormed p t → Ordered differ (keys t)
  Ordered-keys p empty_leaf w = tt
  Ordered-keys p (leaf k d) w = (refl, tt)
  Ordered-keys p (branches l r) w =
      subst (Ordered differ) (sym (map-append (λ e. e.0) (entries l) (entries r))) (
        Ordered-append differ (keys l) (keys r) (Ordered-keys (p ++ false ∷ []) l w.0)
          (Ordered-keys (p ++ true ∷ []) r w.1)
          (all-differ p (keys l) (keys r)
            (all-map (λ e. e.0) (starts (p ++ false ∷ [])) (entries l)
              ∙ WellFormed-under (p ++ false ∷ []) l w.0)
            (all-map (λ e. e.0) (starts (p ++ true ∷ [])) (entries r)
              ∙ WellFormed-under (p ++ true ∷ []) r w.1)))
