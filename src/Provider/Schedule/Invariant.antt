-- ===== src/Provider/Schedule/Invariant.antt =====
-- The invariant of the schedule: no prefix begins another, and the cursor is at one of them.
use go_libp2p_hybrid_kad_dht.Prelude.{
  false-ne-true, ◌≡◌, refl, sym, ◌∙◌, ap, Bool, true, false, ◌&&◌, ◌||◌, not, List, [], ◌∷◌, any,
  all, length, ◌==◌, leb, arith, or-left, or-right, any-map, and-right, or_false, subst, Bool-cases,
  inl, inr,
}
use go_libp2p_hybrid_kad_dht.Keyspace.Key.{Key, key_eq}
use go_libp2p_hybrid_kad_dht.Keyspace.Key.Prefixes.{starts_refl, starts, key_eq→eq, key_eq_refl}
use go_libp2p_hybrid_kad_dht.Keyspace.Trie.{
  Order, all_entries, Trie, empty_leaf, leaf, branches, is_empty_leaf, prune_subtrie,
  prune_subtrie_at_depth,
}
use go_libp2p_hybrid_kad_dht.Keyspace.Trie.Api.{TrieApi, TrieLaws, IsFree, comparable}
use go_libp2p_hybrid_kad_dht.Keyspace.Trie.Shape.{entries, keys, has, WellFormed}
use go_libp2p_hybrid_kad_dht.Keyspace.Trie.Prune.{outside, prune_subtrie-outside}
use go_libp2p_hybrid_kad_dht.Keyspace.Trie.After.{Fits, any-entries_by}
use go_libp2p_hybrid_kad_dht.Keyspace.Trie.Iter.{all-entries_by, all_entries-entries_by}

module _ {ℓ} {D : Type ℓ} where
  -- No key of the trie begins another, and none is longer than the order.
  pub record Disjoint (order : Key) (t : Trie D) : Type ℓ where
    pub shape : WellFormed [] t
    pub alone :
        (x y : Key) → has x t ≡ true → has y t ≡ true → starts x y ≡ true → key_eq x y ≡ true
    pub short : (x : Key) → has x t ≡ true → leb (length x) (length order) ≡ true

  all_of_members :
      (q : Key → Bool) (es : List (Key × D))
      → ((x : Key) → any (λ e. key_eq x e.0) es ≡ true → q x ≡ true)
      → all (λ e. q e.0) es ≡ true
  all_of_members q [] h = refl
  all_of_members q (e ∷ es) h = ground (
    arith,
    h e.0 (or-left _ _ (key_eq_refl e.0)),
    all_of_members q es (λ x m. h x (or-right (key_eq x e.0) _ m)),
  )

  pub has-entries : (x : Key) (t : Trie D) → has x t ≡ any (λ e. key_eq x e.0) (entries t)
  has-entries x t = any-map (λ e. e.0) (key_eq x) (entries t)

  pub Disjoint-Fits : (order : Key) (t : Trie D) → Disjoint order t → Fits order t
  Disjoint-Fits order t d =
      all_of_members (λ x. leb (length x) (length order)) (entries t)
        (λ x m. d.short x (has-entries x t ∙ m))

  member_outside :
      (k x : Key) (es : List (Key × D))
      → any (λ e. key_eq x e.0) (outside k es) ≡ not (starts k x) && any (λ e. key_eq x e.0) es
  member_outside k x [] = ground arith
  member_outside k x (e ∷ es) = elim (Bool-cases (key_eq x e.0)) [
    | inl same ↦ rw (← key_eq→eq x e.0 same) (ground (arith, member_outside k x es, key_eq_refl x))
    | inr other ↦ ground (arith, member_outside k x es)
  ]

  pub has-prune_subtrie :
      (t : Trie D) (k x : Key)
      → WellFormed [] t
      → has x (prune_subtrie t k) ≡ not (starts k x) && has x t
  has-prune_subtrie t k x w =
      has-entries x (prune_subtrie t k)
      ∙ ap (any (λ e. key_eq x e.0)) (prune_subtrie-outside t k w).0
      ∙ member_outside k x (entries t)
      ∙ ap (λ b. not (starts k x) && b) (sym (has-entries x t))

  pub is_empty-prune_subtrie :
      (t : Trie D) (k : Key) → is_empty_leaf (prune_subtrie t k) ≡ false → is_empty_leaf t ≡ false
  unfolding prune_subtrie prune_subtrie_at_depth
  is_empty-prune_subtrie empty_leaf k h = h
  is_empty-prune_subtrie (leaf k' d) k h = refl
  is_empty-prune_subtrie (branches l r) k h = refl

  -- Pruning keeps the prefixes apart.
  pub prune_subtrie-Disjoint :
      (order : Key) (t : Trie D) (k : Key) → Disjoint order t → Disjoint order (prune_subtrie t k)
  prune_subtrie-Disjoint order t k d = record {
    shape = (prune_subtrie-outside t k d.shape).1;
    alone = λ x y h g. d.alone x y (kept x h) (kept y g);
    short = λ x h. d.short x (kept x h);
  }
    where
      kept : (x : Key) → has x (prune_subtrie t k) ≡ true → has x t ≡ true
      kept x h = and-right (not (starts k x)) (has x t) (sym (has-prune_subtrie t k x d.shape) ∙ h)

  free_list :
      (k : Key) (es : List (Key × D))
      → any (λ e. starts e.0 k) es ≡ false
      → any (λ e. comparable k e.0) (outside k es) ≡ false
  free_list k [] h = refl
  free_list k (e ∷ es) h = ground (arith, free_list k es)

  -- Where no key begins `k`, none is comparable to it once those under it are gone.
  pub prune_subtrie-IsFree :
      (k : Key) (t : Trie D)
      → WellFormed [] t
      → any (λ e. starts e.0 k) (entries t) ≡ false
      → IsFree k (prune_subtrie t k)
  prune_subtrie-IsFree k t w h =
      any-map (λ e. e.0) (comparable k) (entries (prune_subtrie t k))
      ∙ ap (any (λ e. comparable k e.0)) (prune_subtrie-outside t k w).0
      ∙ free_list k (entries t) h

  -- A key of the trie is not comparable to one that is free.
  pub IsFree-has : (k x : Key) (t : Trie D) → IsFree k t → has x t ≡ true → comparable k x ≡ false
  IsFree-has k x t f h = member (keys t) f h
    where
      member :
          (xs : List Key)
          → any (comparable k) xs ≡ false
          → any (key_eq x) xs ≡ true
          → comparable k x ≡ false
      member [] f h = cc
      member (y ∷ xs) f h = elim (Bool-cases (key_eq x y)) [
        | inl same ↦ rw (key_eq→eq x y same) (or_false _ _ f).0
        | inr other ↦ member xs (or_false _ _ f).1 (rw other at h)
      ]

  -- `Add` of a free key keeps the prefixes apart.
  pub add-Disjoint :
      (api : TrieApi D) (laws : TrieLaws api) (order k : Key) (d : D) (t : Trie D)
      → leb (length k) (length order) ≡ true
      → IsFree k t
      → Disjoint order t
      → Disjoint order (api.add k d t)
  add-Disjoint api laws order k d t l f i = record {
    shape = laws.add-WellFormed k d t i.shape f;
    alone = λ x y h g. apart x y (split x h) (split y g);
    short = λ x h. short x (split x h);
  }
    where
      split : (x : Key) → has x (api.add k d t) ≡ true → key_eq x k || has x t ≡ true
      split x h = sym (laws.has-add x k d t i.shape f) ∙ h

      short : (x : Key) → key_eq x k || has x t ≡ true → leb (length x) (length order) ≡ true
      short x h = elim (Bool-cases (key_eq x k)) [
        | inl same ↦ rw (key_eq→eq x k same) l
        | inr other ↦ i.short x (rw other at h)
      ]

      apart :
          (x y : Key)
          → key_eq x k || has x t ≡ true
          → key_eq y k || has y t ≡ true
          → starts x y ≡ true
          → key_eq x y ≡ true
      apart x y h g s = elim (Bool-cases (key_eq x k)) [
        | inl same ↦ elim (Bool-cases (key_eq y k)) [
          | inl both ↦ rw (key_eq→eq x k same, key_eq→eq y k both) (key_eq_refl k)
          | inr other ↦ absurd (
              false-ne-true (
                sym (or_false (starts k y) (starts y k) (IsFree-has k y t f (rw other at g))).0
                ∙ subst (λ z. starts z y ≡ true) (key_eq→eq x k same) s))
        ]
        | inr other ↦ elim (Bool-cases (key_eq y k)) [
          | inl both ↦ absurd (
              false-ne-true (
                sym (or_false (starts k x) (starts x k) (IsFree-has k x t f (rw other at h))).1
                ∙ subst (λ z. starts x z ≡ true) (key_eq→eq y k both) s))
          | inr neither ↦ i.alone x y (rw other at h) (rw neither at g) s
        ]
      ]

  -- The traversal meets the prefixes of the trie, and only those.
  pub all_entries-has :
      (t : Trie D) (order : Order) → all (λ e. has e.0 t) (all_entries t order) ≡ true
  all_entries-has t order =
      ap (all (λ e. has e.0 t)) (all_entries-entries_by t order)
      ∙ all-entries_by (λ e. has e.0 t) order 0 t
          (all_of_members (λ x. has x t) (entries t) (λ x m. has-entries x t ∙ m))

  pub any-all_entries :
      (q : Key × D → Bool) (t : Trie D) (order : Order)
      → any q (all_entries t order) ≡ any q (entries t)
  any-all_entries q t order =
      ap (any q) (all_entries-entries_by t order) ∙ any-entries_by q order 0 t

  starts_of_found :
      (k : Key) (es : List (Key × D))
      → any (λ e. key_eq k e.0) es ≡ true
      → any (λ e. starts e.0 k) es ≡ true
  starts_of_found k [] h = cc
  starts_of_found k (e ∷ es) h = elim (Bool-cases (key_eq k e.0)) [
    | inl same ↦ or-left _ _ (subst (λ x. starts x k ≡ true) (key_eq→eq k e.0 same) (starts_refl k))
    | inr other ↦ or-right (starts e.0 k) _ (starts_of_found k es (rw other at h))
  ]

  -- A prefix of the trie is covered by the entries of the traversal, which are not none.
  pub all_entries-covers :
      (k : Key) (t : Trie D) (order : Order)
      → has k t ≡ true
      → (any (λ e. starts e.0 k) (all_entries t order) ≡ true)
        × ((length (all_entries t order) == 0) ≡ false)
  all_entries-covers k t order h =
      let listed = any-all_entries (λ e. key_eq k e.0) t order ∙ sym (has-entries k t) ∙ h in
      (starts_of_found k (all_entries t order) listed, not_empty (all_entries t order) listed)
    where
      not_empty :
          (es : List (Key × D)) → any (λ e. key_eq k e.0) es ≡ true → (length es == 0) ≡ false
      not_empty [] h = cc
      not_empty (e ∷ es) h = ground arith

  pub empty-Disjoint : (order : Key) → Disjoint order empty_leaf
  empty-Disjoint order = record { shape = tt; alone = λ x y h g s. cc; short = λ x h. cc }

  pub leaf-Disjoint :
      (order k : Key) (d : D) → leb (length k) (length order) ≡ true → Disjoint order (leaf k d)
  leaf-Disjoint order k d l = record {
    shape = refl;
    alone = λ x y h g s. subst (λ z. key_eq x z ≡ true) (sym (only y g)) (single x h);
    short = λ x h. subst (λ z. leb (length z) (length order) ≡ true) (sym (only x h)) l;
  }
    where
      single : (x : Key) → key_eq x k || false ≡ true → key_eq x k ≡ true
      single x h = ground arith

      only : (x : Key) → key_eq x k || false ≡ true → x ≡ k
      only x h = key_eq→eq x k (single x h)
