-- ===== src/Keyspace/Trie/Present.antt =====
-- `NextNonEmptyLeaf` of trie.go, also of a key that the trie does not hold.
use go_libp2p_hybrid_kad_dht.Prelude.{
  false-ne-true, ℕ, suc, ◌≡◌, refl, ◌∙◌, sym, Bool, true, false, ◌||◌, Option, none, some, List, [],
  ◌∷◌, ◌++◌, length, ◌==◌, if◌then◌else◌, arith, any, append_assoc, append-nil, any-append, or-left,
  or-right, ap₂, Bool-cases, inl, inr, subst, or_false,
}
use go_libp2p_hybrid_kad_dht.Keyspace.Key.{Key, bit, key_eq}
use go_libp2p_hybrid_kad_dht.Keyspace.Key.Prefixes.{starts, depth_suc, key_eq_refl}
use go_libp2p_hybrid_kad_dht.Keyspace.Trie.{Trie, empty_leaf, leaf, branches, is_empty_leaf}
use go_libp2p_hybrid_kad_dht.Keyspace.Trie.Shape.{
  entries, WellFormed, nonempty-any, WellFormed-under,
}
use go_libp2p_hybrid_kad_dht.Keyspace.Trie.Iter.{entries_by}
use go_libp2p_hybrid_kad_dht.Keyspace.Trie.Next.{
  or_else, next_branch, first_leaf_at_depth, next_non_empty_leaf_at_depth, next_non_empty_leaf,
}
use go_libp2p_hybrid_kad_dht.Keyspace.Trie.After.{
  head?, found, Fits, Fits-both, inner_bit, next_bit, first_leaf-head?, or_else-head?, or_comm,
  suc-eq-zero, any-entries_by,
}

module _ {ℓ} {D : Type ℓ} where
  -- No panic, and what is found is an entry of the trie.
  abbrev Within : Trie D → Option (Option (Key × D)) → Type 0
  Within t none = ⊥
  Within t (some none) = Unit {0}
  Within t (some (some e)) = found e.0 (entries t) ≡ true

  -- An entry of the trie is found.
  abbrev pub Finds : Trie D → Option (Option (Key × D)) → Type 0
  Finds t none = ⊥
  Finds t (some none) = ⊥
  Finds t (some (some e)) = found e.0 (entries t) ≡ true

  Within-or_else :
      (t : Trie D) (a b : Option (Option (Key × D)))
      → Within t a
      → Within t b
      → Within t (or_else a b)
  Within-or_else t none b h g = h
  Within-or_else t (some none) b h g = g
  Within-or_else t (some (some e)) b h g = h

  Finds-or_else :
      (t : Trie D) (a b : Option (Option (Key × D)))
      → Within t a
      → Finds t b
      → Finds t (or_else a b)
  Finds-or_else t none b h g = absurd h
  Finds-or_else t (some none) b h g = g
  Finds-or_else t (some (some e)) b h g = h

  Within-left :
      (l r : Trie D) (x : Option (Option (Key × D))) → Within l x → Within (branches l r) x
  Within-left l r none h = h
  Within-left l r (some none) h = h
  Within-left l r (some (some e)) h = any-append _ (entries l) (entries r) ∙ or-left _ _ h

  Within-right :
      (l r : Trie D) (x : Option (Option (Key × D))) → Within r x → Within (branches l r) x
  Within-right l r none h = h
  Within-right l r (some none) h = h
  Within-right l r (some (some e)) h = any-append _ (entries l) (entries r) ∙ or-right _ _ h

  -- The first entry of a list is found in it.
  Within-head? :
      (t : Trie D) (es : List (Key × D))
      → ((q : Key × D → Bool) → any q es ≡ any q (entries t))
      → Within t (some (head? es))
  Within-head? t [] h = tt
  Within-head? t (e ∷ es) h = sym (h (λ x. key_eq e.0 x.0)) ∙ or-left _ _ (key_eq_refl e.0)

  Within-first_leaf :
      (p : Key) (t : Trie D) (order : Key) (n : ℕ)
      → n ≡ length p
      → WellFormed p t
      → Fits order t
      → Within t (first_leaf_at_depth t order n)
  Within-first_leaf p t order n e w f =
      subst (Within t) (sym (first_leaf-head? p t order n e w f))
        (Within-head? t (entries_by (bit order) n t) (λ q. any-entries_by q (bit order) n t))

  Within-leaf :
      (k' : Key) (d : D) (a b : Bool)
      → Within
          (leaf k' d)
          (if a then some (some (k', d)) else if b then some (some (k', d)) else some none)
  Within-leaf k' d true b = or-left _ _ (key_eq_refl k')
  Within-leaf k' d false true = or-left _ _ (key_eq_refl k')
  Within-leaf k' d false false = tt

  Within-next_branch :
      (t : Trie D) (n : ℕ) (same : Bool) (neighbour again : Option (Option (Key × D)))
      → Within t neighbour
      → Within t (next_branch (suc n) same neighbour again)
  Within-next_branch t n true neighbour again h =
      rw (suc-eq-zero n) (Within-or_else t neighbour (some none) h tt)
  Within-next_branch t n false neighbour again h = rw (suc-eq-zero n) tt

  -- At the root of a trie that is not empty some branch has a first leaf.
  Finds-next_branch :
      (t : Trie D) (same : Bool) (xs ys : List (Key × D))
      → ((q : Key × D → Bool) → any q (xs ++ ys) ≡ any q (entries t))
      → any (λ e. true) (entries t) ≡ true
      → Finds t (next_branch 0 same (some (head? xs)) (some (head? ys)))
  Finds-next_branch t same xs ys h g =
      rw at_root
        (subst (Finds t) (sym (or_else-head? xs ys)) (first (xs ++ ys) h (h (λ e. true) ∙ g)))
    where
      at_root : same || (0 == 0) ≡ true
      at_root = ground arith

      first :
          (es : List (Key × D))
          → ((q : Key × D → Bool) → any q es ≡ any q (entries t))
          → any (λ e. true) es ≡ true
          → Finds t (some (head? es))
      first [] h g = absurd (false-ne-true g)
      first (e ∷ es) h g = sym (h (λ x. key_eq e.0 x.0)) ∙ or-left _ _ (key_eq_refl e.0)

  -- An inner node is above some key, which begins with the path.
  some_below :
      (p : Key) (l r : Trie D)
      → WellFormed p (branches l r)
      → any (λ e. starts p e.0) (entries (branches l r)) ≡ true
  some_below p l r w =
      nonempty-any p (branches l r) (λ e. starts p e.0) w refl (WellFormed-under p (branches l r) w)

  none_above :
      (p k : Key) (l r : Trie D)
      → WellFormed p (branches l r)
      → k ≡ p
      → any (λ e. starts k e.0) (entries l ++ entries r) ≡ true
  none_above p k l r w e = rw e (some_below p l r w)

  apart :
      (k : Key) (l r : Trie D)
      → any (λ e. starts k e.0) (entries l ++ entries r) ≡ false
      → (any (λ e. starts k e.0) (entries l) ≡ false)
        × (any (λ e. starts k e.0) (entries r) ≡ false)
  apart k l r h = or_false _ _ (sym (any-append (λ e. starts k e.0) (entries l) (entries r)) ∙ h)

  next-Within :
      (t : Trie D) (k p bits order : Key) (n : ℕ)
      → k ≡ p ++ bits
      → suc n ≡ length p
      → WellFormed p t
      → Fits order t
      → any (λ e. starts k e.0) (entries t) ≡ false
      → Within t (next_non_empty_leaf_at_depth t k order (suc n))
  unfolding next_non_empty_leaf_at_depth
  next-Within empty_leaf k p bits order n e m w f h = tt
  next-Within (leaf k' d) k p bits order n e m w f h = Within-leaf k' d _ _
  next-Within (branches l r) k p [] order n e m w f h =
      absurd (false-ne-true (sym h ∙ none_above p k l r w (e ∙ append-nil p)))
  next-Within (branches l r) k p (true ∷ bits) order n e m w f h =
      let parts = apart k l r h in
      let fits = Fits-both order l r f in
      rw (next_bit k p bits order true (suc n) e m, inner_bit p l r order (suc n) m w f)
        (Within-or_else (branches l r) _ _
          (Within-right l r _ (
            next-Within r k (p ++ true ∷ []) bits order (suc n)
              (e ∙ sym (append_assoc p (true ∷ []) bits)) (depth_suc p true (suc n) m) w.1 fits.1
              parts.1))
          (Within-next_branch (branches l r) n _ _ _ (
            Within-left l r _ (
              Within-first_leaf (p ++ false ∷ []) l order (suc (suc n))
                (depth_suc p false (suc n) m) w.0 fits.0))))
  next-Within (branches l r) k p (false ∷ bits) order n e m w f h =
      let parts = apart k l r h in
      let fits = Fits-both order l r f in
      rw (next_bit k p bits order false (suc n) e m, inner_bit p l r order (suc n) m w f)
        (Within-or_else (branches l r) _ _
          (Within-left l r _ (
            next-Within l k (p ++ false ∷ []) bits order (suc n)
              (e ∙ sym (append_assoc p (false ∷ []) bits)) (depth_suc p false (suc n) m) w.0 fits.0
              parts.0))
          (Within-next_branch (branches l r) n _ _ _ (
            Within-right l r _ (
              Within-first_leaf (p ++ true ∷ []) r order (suc (suc n)) (depth_suc p true (suc n) m)
                w.1 fits.1))))

  first_leaves :
      (l r : Trie D) (order : Key) (b same : Bool)
      → WellFormed [] (branches l r)
      → Fits order (branches l r)
      → Finds (branches l r) (
          next_branch 0 same
            (first_leaf_at_depth (if b then l else r) order 1)
            (first_leaf_at_depth (if b then r else l) order 1))
  first_leaves l r order b same w f =
      let fits = Fits-both order l r f in
      let left = first_leaf-head? (false ∷ []) l order 1 refl w.0 fits.0 in
      let right = first_leaf-head? (true ∷ []) r order 1 refl w.1 fits.1 in
      elim (Bool-cases b) [
        | inl one ↦
            rw (one, left, right)
              (Finds-next_branch (branches l r) same (entries_by (bit order) 1 l)
                (entries_by (bit order) 1 r) (joined l r) (some_below [] l r w))
        | inr nil ↦
            rw (nil, left, right)
              (Finds-next_branch (branches l r) same (entries_by (bit order) 1 r)
                (entries_by (bit order) 1 l) (λ q. joined r l q ∙ swapped q) (some_below [] l r w))
      ]
    where
      joined :
          (x y : Trie D) (q : Key × D → Bool)
          → any q (entries_by (bit order) 1 x ++ entries_by (bit order) 1 y)
            ≡ any q (entries x ++ entries y)
      joined x y q =
          any-append q (entries_by (bit order) 1 x) _
          ∙ ap₂ ◌||◌ (any-entries_by q (bit order) 1 x) (any-entries_by q (bit order) 1 y)
          ∙ sym (any-append q (entries x) (entries y))

      swapped :
          (q : Key × D → Bool) → any q (entries r ++ entries l) ≡ any q (entries l ++ entries r)
      swapped q =
          any-append q (entries r) (entries l)
          ∙ or_comm (any q (entries r)) (any q (entries l))
          ∙ sym (any-append q (entries l) (entries r))

  -- Where the trie holds keys, of which none begins with `k`, the search finds one of them.
  pub next_non_empty_leaf-Finds :
      (t : Trie D) (k order : Key)
      → WellFormed [] t
      → Fits order t
      → is_empty_leaf t ≡ false
      → any (λ e. starts k e.0) (entries t) ≡ false
      → Finds t (next_non_empty_leaf t k order)
  unfolding next_non_empty_leaf
  next_non_empty_leaf-Finds empty_leaf k order w f g h = cc
  next_non_empty_leaf-Finds (leaf k' d) k order w f g h = or-left _ _ (key_eq_refl k')
  next_non_empty_leaf-Finds (branches l r) [] order w f g h =
      absurd (false-ne-true (sym h ∙ some_below [] l r w))
  next_non_empty_leaf-Finds (branches l r) (true ∷ bits) order w f g h =
      let parts = apart (true ∷ bits) l r h in
      rw (inner_bit [] l r order 0 refl w f) (
        Finds-or_else (branches l r) _ _
          (Within-right l r _ (
            next-Within r (true ∷ bits) (true ∷ []) bits order 0 refl refl w.1
              (Fits-both order l r f).1 parts.1))
          (first_leaves l r order true _ w f))
  next_non_empty_leaf-Finds (branches l r) (false ∷ bits) order w f g h =
      let parts = apart (false ∷ bits) l r h in
      rw (inner_bit [] l r order 0 refl w f) (
        Finds-or_else (branches l r) _ _
          (Within-left l r _ (
            next-Within l (false ∷ bits) (false ∷ []) bits order 0 refl refl w.0
              (Fits-both order l r f).0 parts.0))
          (first_leaves l r order false _ w f))
