-- ===== src/Keyspace/Trie/Following.antt =====
-- `NextNonEmptyLeaf` of trie.go: the entry that follows a key in the order of a traversal.
use go_libp2p_hybrid_kad_dht.Prelude.{
  false-ne-true, ℕ, zero, suc, ◌≡◌, refl, ap, ◌∙◌, sym, Bool, true, false, ◌||◌, not, Option, some,
  List, [], ◌∷◌, ◌++◌, append-nil, length, ◌==◌, if◌then◌else◌, arith, append_assoc, Bool-cases,
  inl, inr, ap₂, or-left, or-right, any-append, any-map, any_of_all, or-left, or-right,
  any-append_left, any-append_right, subst, not-true→false,
}
use go_libp2p_hybrid_kad_dht.Keyspace.Key.{Key, bit, key_eq}
use go_libp2p_hybrid_kad_dht.Keyspace.Key.Prefixes.{
  starts_longer, starts, cpl-starts, starts_refl, depth_suc, starts_diverge, key_eq→eq, key_eq_refl,
}
use go_libp2p_hybrid_kad_dht.Keyspace.Trie.{Trie, Order, all_entries, empty_leaf, leaf, branches}
use go_libp2p_hybrid_kad_dht.Keyspace.Trie.Shape.{has, entries, WellFormed, WellFormed-under}
use go_libp2p_hybrid_kad_dht.Keyspace.Trie.Iter.{entries_by, all_entries-entries_by}
use go_libp2p_hybrid_kad_dht.Keyspace.Trie.Next.{
  or_else, next_branch, next_non_empty_leaf_at_depth, next_non_empty_leaf,
}
use go_libp2p_hybrid_kad_dht.Keyspace.Trie.After.{
  suc-eq-zero, if_not, next_bit, head?, after, Fits, or_else-head?, inner_bit, Fits-both,
  first_leaf-head?, found, any-entries_by, after-append_left, after-append_right, head?-append,
  head?-append_cong,
}

module _ {ℓ} {D : Type ℓ} where
  -- What follows `k`, also from the start again where the node is the root.
  abbrev following : ℕ → Key → List (Key × D) → List (Key × D)
  following n k es = if n == 0 then after k es ++ es else after k es

  -- `k` is in the branch `xs`, which comes first or last.
  branch-following :
      (n : ℕ) (k : Key) (first : Bool) (xs ys : List (Key × D))
      → found k xs ≡ true
      → found k ys ≡ false
      → or_else
          (some (head? (after k xs)))
          (next_branch n first (some (head? ys)) (some (head? xs)))
        ≡ some (head? (following n k (if first then xs ++ ys else ys ++ xs)))
  branch-following zero k true xs ys h g =
      ap (or_else (some (head? (after k xs)))) (or_else-head? ys xs)
      ∙ or_else-head? (after k xs) (ys ++ xs)
      ∙ ap some (
          head?-append_cong (after k xs) (ys ++ xs) (ys ++ (xs ++ ys))
            (head?-append_cong ys xs (xs ++ ys) (sym (head?-append k xs ys h)))
          ∙ ap head? (
              sym (append_assoc (after k xs) ys (xs ++ ys))
              ∙ ap (λ l. l ++ (xs ++ ys)) (sym (after-append_left k xs ys h))))
  branch-following zero k false xs ys h g =
      ap (or_else (some (head? (after k xs)))) (or_else-head? ys xs)
      ∙ or_else-head? (after k xs) (ys ++ xs)
      ∙ ap (λ l. some (head? (l ++ (ys ++ xs)))) (sym (after-append_right k ys xs g))
  branch-following (suc n) k true xs ys h g = rw (suc-eq-zero n) (
      ap (or_else (some (head? (after k xs))))
        (or_else-head? ys [] ∙ ap (λ l. some (head? l)) (append-nil ys))
      ∙ or_else-head? (after k xs) ys
      ∙ ap (λ l. some (head? l)) (sym (after-append_left k xs ys h)))
  branch-following (suc n) k false xs ys h g = rw (suc-eq-zero n) (
      or_else-head? (after k xs) []
      ∙ ap (λ l. some (head? l)) (append-nil (after k xs) ∙ sym (after-append_right k ys xs g)))

  -- `k` is not in a branch off its path.
  not_found :
      (order : Order) (n : ℕ) (p bits : Key) (b : Bool) (t : Trie D)
      → WellFormed (p ++ not b ∷ []) t
      → found (p ++ b ∷ bits) (entries_by order n t) ≡ false
  not_found order n p bits b t w =
      any-entries_by (λ e. key_eq (p ++ b ∷ bits) e.0) order n t
      ∙ any_of_all (λ e. starts (p ++ not b ∷ []) e.0) (λ e. key_eq (p ++ b ∷ bits) e.0)
          (λ e. off p bits b e.0) (entries t) (WellFormed-under (p ++ not b ∷ []) t w)
    where
      off :
          (p bits : Key) (b : Bool) (x : Key)
          → starts (p ++ not b ∷ []) x ≡ true
          → key_eq (p ++ b ∷ bits) x ≡ false
      off p bits b x s = not-true→false _ (λ same. absurd (
          false-ne-true (
            sym (starts_diverge p bits x b s)
            ∙ subst (λ y. starts (p ++ b ∷ bits) y ≡ true) (key_eq→eq (p ++ b ∷ bits) x same)
                (starts_refl (p ++ b ∷ bits)))))

  -- No key of an inner node ends at the node.
  not_found_here :
      (order : Order) (n : ℕ) (p : Key) (l r : Trie D)
      → WellFormed p (branches l r)
      → found p (entries_by order n (branches l r)) ≡ false
  not_found_here order n p l r w =
      any-entries_by _ order n (branches l r)
      ∙ any-append _ (entries l) (entries r)
      ∙ ap₂ ◌||◌ (below false l w.0) (below true r w.1)
    where
      ends : (b : Bool) (x : Key) → starts (p ++ b ∷ []) x ≡ true → key_eq p x ≡ false
      ends b x s = not-true→false _ (λ same. absurd (
          false-ne-true (
            sym (starts_longer p x b s)
            ∙ subst (λ y. starts y p ≡ true) (key_eq→eq p x same) (starts_refl p))))

      below : (b : Bool) (t : Trie D) → WellFormed (p ++ b ∷ []) t → found p (entries t) ≡ false
      below b t v =
          any_of_all (λ e. starts (p ++ b ∷ []) e.0) (λ e. key_eq p e.0) (λ e. ends b e.0)
            (entries t) (WellFormed-under (p ++ b ∷ []) t v)

  -- A key below an inner node is in the branch of its next bit.
  found_branch :
      (order : Order) (n : ℕ) (p bits : Key) (b : Bool) (l r : Trie D)
      → WellFormed p (branches l r)
      → found (p ++ b ∷ bits) (entries_by order n (branches l r)) ≡ true
      → (found (p ++ b ∷ bits) (entries_by order (suc n) (if b then r else l)) ≡ true)
        × (found (p ++ b ∷ bits) (entries_by order (suc n) (if b then l else r)) ≡ false)
  found_branch order n p bits true l r w h =
      let off = not_found order (suc n) p bits true l w.0 in
      let off' = sym (any-entries_by _ order (suc n) l) ∙ off in
      (
        any-entries_by _ order (suc n) r
            ∙ sym (any-append_left _ (entries l) (entries r) off')
            ∙ sym (any-entries_by _ order n (branches l r))
            ∙ h,
        off,
      )
  found_branch order n p bits false l r w h =
      let off = not_found order (suc n) p bits false r w.1 in
      let off' = sym (any-entries_by _ order (suc n) r) ∙ off in
      (
        any-entries_by _ order (suc n) l
            ∙ sym (any-append_right _ (entries l) (entries r) off')
            ∙ sym (any-entries_by _ order n (branches l r))
            ∙ h,
        off,
      )

  abbrev NextIsFollowing : Trie D → Key → Key → ℕ → Type ℓ
  NextIsFollowing t k order n =
      next_non_empty_leaf_at_depth t k order n
      ≡ some (head? (following n k (entries_by (bit order) n t)))

  not_root :
      (k : Key) (n : ℕ) (es : List (Key × D)) (found : Option (Option (Key × D)))
      → found ≡ some (head? (following (suc n) k es))
      → found ≡ some (head? (after k es))
  not_root k n es found h =
      h ∙ ap (λ b. some (head? (if b then after k es ++ es else after k es))) (suc-eq-zero n)

  -- The search at an inner node, from the search in the branch of the next bit.
  branches-Following :
      (b : Bool) (l r : Trie D) (k p bits order : Key) (n : ℕ)
      → k ≡ p ++ b ∷ bits
      → n ≡ length p
      → WellFormed p (branches l r)
      → Fits order (branches l r)
      → found k (entries_by (bit order) n (branches l r)) ≡ true
      → NextIsFollowing (if b then r else l) k order (suc n)
      → NextIsFollowing (branches l r) k order n
  unfolding next_non_empty_leaf_at_depth
  branches-Following true l r k p bits order n e m w f h rec =
      let there = found_branch (bit order) n p bits true l r w (rw e at h) in
      let fits = Fits-both order l r f in
      rw
        (
          next_bit k p bits order true n e m,
          inner_bit p l r order n m w f,
          not_root k n (entries_by (bit order) (suc n) r)
              (next_non_empty_leaf_at_depth r k order (suc n)) rec,
          first_leaf-head? (p ++ false ∷ []) l order (suc n) (depth_suc p false n m) w.0 fits.0,
          first_leaf-head? (p ++ true ∷ []) r order (suc n) (depth_suc p true n m) w.1 fits.1,
        )
        (branch-following n k (bit order n) (entries_by (bit order) (suc n) r)
          (entries_by (bit order) (suc n) l) (rw e there.0) (rw e there.1))
  branches-Following false l r k p bits order n e m w f h rec =
      let there = found_branch (bit order) n p bits false l r w (rw e at h) in
      let fits = Fits-both order l r f in
      rw
        (
          next_bit k p bits order false n e m,
          inner_bit p l r order n m w f,
          not_root k n (entries_by (bit order) (suc n) l)
              (next_non_empty_leaf_at_depth l k order (suc n)) rec,
          first_leaf-head? (p ++ false ∷ []) l order (suc n) (depth_suc p false n m) w.0 fits.0,
          first_leaf-head? (p ++ true ∷ []) r order (suc n) (depth_suc p true n m) w.1 fits.1,
        )
        (branch-following n k (not (bit order n)) (entries_by (bit order) (suc n) l)
            (entries_by (bit order) (suc n) r) (rw e there.0) (rw e there.1)
          ∙ ap (λ es. some (head? (following n k es)))
              (if_not (bit order n)
                (entries_by (bit order) (suc n) l ++ entries_by (bit order) (suc n) r)
                (entries_by (bit order) (suc n) r ++ entries_by (bit order) (suc n) l)))

  next-Following :
      (t : Trie D) (k p bits order : Key) (n : ℕ)
      → k ≡ p ++ bits
      → n ≡ length p
      → WellFormed p t
      → Fits order t
      → found k (entries_by (bit order) n t) ≡ true
      → NextIsFollowing t k order n
  unfolding next_non_empty_leaf_at_depth
  next-Following empty_leaf k p bits order n e m w f h = cc
  next-Following (leaf k' d) k p bits order n e m w f h =
      ground (arith, cpl-starts k k', key_eq→eq k k', starts_refl k)
  next-Following (branches l r) k p [] order n e m w f h = absurd (
      false-ne-true (
        sym (not_found_here (bit order) n p l r w)
        ∙ subst (λ q. found q (entries_by (bit order) n (branches l r)) ≡ true) (e ∙ append-nil p)
            h))
  next-Following (branches l r) k p (true ∷ bits) order n e m w f h =
      branches-Following true l r k p bits order n e m w f h (
        next-Following r k (p ++ true ∷ []) bits order (suc n)
          (e ∙ sym (append_assoc p (true ∷ []) bits)) (depth_suc p true n m) w.1
          (Fits-both order l r f).1
          (rw e (found_branch (bit order) n p bits true l r w (rw e at h)).0))
  next-Following (branches l r) k p (false ∷ bits) order n e m w f h =
      branches-Following false l r k p bits order n e m w f h (
        next-Following l k (p ++ false ∷ []) bits order (suc n)
          (e ∙ sym (append_assoc p (false ∷ []) bits)) (depth_suc p false n m) w.0
          (Fits-both order l r f).0
          (rw e (found_branch (bit order) n p bits false l r w (rw e at h)).0))

  -- On a well-formed trie, `NextNonEmptyLeaf` of a key of the trie does not panic, and returns the
  -- entry after that of the key in the traversal by the order, or the first entry of the traversal
  -- where the key is the last; the keys are at most as long as the order.
  pub next_non_empty_leaf_follows :
      (t : Trie D) (k order : Key)
      → WellFormed [] t
      → Fits order t
      → has k t ≡ true
      → next_non_empty_leaf t k order
        ≡ some (head? (after k (all_entries t (bit order)) ++ all_entries t (bit order)))
  unfolding next_non_empty_leaf
  next_non_empty_leaf_follows t k order w f h = rw (all_entries-entries_by t (bit order)) (
      next-Following t k [] k order 0 refl refl w f (
        any-entries_by (λ e. key_eq k e.0) (bit order) 0 t
        ∙ sym (any-map (λ e. e.0) (key_eq k) (entries t))
        ∙ h))

  head?-of_found :
      (k : Key) (xs es : List (Key × D))
      → found k es ≡ true
      → (e : Key × D) × (head? (xs ++ es) ≡ some e) × (found e.0 (xs ++ es) ≡ true)
  head?-of_found k [] [] h = cc
  head?-of_found k [] (e ∷ es) h = (e, refl, or-left _ _ (key_eq_refl e.0))
  head?-of_found k (x ∷ xs) es h = (x, refl, or-left _ _ (key_eq_refl x.0))

  -- What comes after a key is in the list.
  found-after :
      (k x : Key) (es : List (Key × D)) → found x (after k es ++ es) ≡ true → found x es ≡ true
  found-after k x es h = elim (Bool-cases (found x (after k es))) [
    | inl late ↦ later es late
    | inr early ↦ sym (any-append_left (λ e. key_eq x e.0) (after k es) es early) ∙ h
  ]
    where
      later : (es : List (Key × D)) → found x (after k es) ≡ true → found x es ≡ true
      later [] h = h
      later (e ∷ es) h = elim (Bool-cases (key_eq k e.0)) [
        | inl here ↦ or-right (key_eq x e.0) _ (rw here at h)
        | inr there ↦ or-right (key_eq x e.0) _ (later es (rw there at h))
      ]

  -- There is an entry that follows, and it is an entry of the trie.
  pub next_non_empty_leaf-some :
      (t : Trie D) (k order : Key)
      → WellFormed [] t
      → Fits order t
      → has k t ≡ true
      → (e : Key × D) × (next_non_empty_leaf t k order ≡ some (some e)) × (has e.0 t ≡ true)
  next_non_empty_leaf-some t k order w f h =
      let (e, first, there) =
        head?-of_found k (after k (all_entries t (bit order))) (all_entries t (bit order))
          (listed k ∙ h) in
      (
        e,
        next_non_empty_leaf_follows t k order w f h ∙ ap some first,
        sym (listed e.0) ∙ found-after k e.0 (all_entries t (bit order)) there,
      )
    where
      listed : (x : Key) → found x (all_entries t (bit order)) ≡ has x t
      listed x =
          ap (found x) (all_entries-entries_by t (bit order))
          ∙ any-entries_by (λ e. key_eq x e.0) (bit order) 0 t
          ∙ sym (any-map (λ e. e.0) (key_eq x) (entries t))
