-- ===== src/Keyspace/Trie/Find.antt =====
-- `FindPrefixOfKey` and `FindSubtrie` of trie.go, against the entries of the trie.
use go_libp2p_hybrid_kad_dht.Prelude.{
  ℕ, suc, ◌≡◌, refl, ap, ◌∙◌, sym, Bool, true, false, not, List, [], ◌∷◌, ◌++◌, length, any, all,
  select, if◌then◌else◌, arith, any-append, Bool-cases, inl, inr, append_assoc, append-nil,
  any_of_all, any-append_left, any-append_right, select-append_left, select-append_right,
  select-all, subst, or-left, or-right,
}
use go_libp2p_hybrid_kad_dht.Keyspace.Key.{Key, key_eq}
use go_libp2p_hybrid_kad_dht.Keyspace.Key.Prefixes.{
  starts, starts_diverge, starts_diverge', starts_longer, cpl-starts, cpl-starts', key_eq_refl,
  depth_end, depth_inner, depth_bit, depth_suc,
}
use go_libp2p_hybrid_kad_dht.Keyspace.Trie.{
  Trie, empty_leaf, leaf, branches, is_empty_leaf, find_prefix_of_key_at_depth, find_prefix_of_key,
  find_subtrie_loop, find_subtrie,
}
use go_libp2p_hybrid_kad_dht.Keyspace.Trie.Shape.{
  entries, WellFormed, WellFormed-under, nonempty-any,
}

module _ {ℓ} {D : Type ℓ} where
  -- The entries that begin with `k`, and whether there is one.
  abbrev pub under : Key → List (Key × D) → List (Key × D)
  under k = select λ e. starts k e.0

  abbrev pub some_under : Key → List (Key × D) → Bool
  some_under k = any λ e. starts k e.0

  abbrev pub Finds : Key → Trie D → Trie D × Bool → Type ℓ
  Finds k t r = (r.1 ≡ some_under k (entries t)) × (r.1 ≡ true → entries r.0 ≡ under k (entries t))

  none_under :
      (p bits : Key) (b : Bool) (t : Trie D)
      → WellFormed (p ++ not b ∷ []) t
      → some_under (p ++ b ∷ bits) (entries t) ≡ false
  none_under p bits b t w =
      any_of_all (λ e. starts (p ++ not b ∷ []) e.0) (λ e. starts (p ++ b ∷ bits) e.0)
        (λ e. starts_diverge p bits e.0 b) (entries t) (WellFormed-under (p ++ not b ∷ []) t w)

  -- At an inner node only the branch of the next bit counts.
  pub branch_under :
      (p bits : Key) (b : Bool) (l r : Trie D)
      → WellFormed p (branches l r)
      → (some_under (p ++ b ∷ bits) (entries (if b then r else l))
          ≡ some_under (p ++ b ∷ bits) (entries l ++ entries r))
        × (under (p ++ b ∷ bits) (entries (if b then r else l))
            ≡ under (p ++ b ∷ bits) (entries l ++ entries r))
  branch_under p bits true l r w = (
    sym (any-append_left _ (entries l) (entries r) (none_under p bits true l w.0)),
    sym (select-append_left _ (entries l) (entries r) (none_under p bits true l w.0)),
  )
  branch_under p bits false l r w = (
    sym (any-append_right _ (entries l) (entries r) (none_under p bits false r w.1)),
    sym (select-append_right _ (entries l) (entries r) (none_under p bits false r w.1)),
  )

  pub WellFormed-branch :
      (p : Key) (b : Bool) (l r : Trie D)
      → WellFormed p (branches l r)
      → WellFormed (p ++ b ∷ []) (if b then r else l)
  WellFormed-branch p true l r w = w.1
  WellFormed-branch p false l r w = w.0

  Finds-here : (p : Key) (t : Trie D) → WellFormed p t → Finds p t (t, not (is_empty_leaf t))
  Finds-here p t w = elim (Bool-cases (is_empty_leaf t)) [
    | inl hollow ↦ (ap not hollow ∙ sym (no_entries t hollow), λ h. same)
    | inr full ↦
        (ap not full ∙ sym (nonempty-any p t (λ e. starts p e.0) w full all_here), λ h. same)
  ]
    where
      all_here : all (λ e. starts p e.0) (entries t) ≡ true
      all_here = WellFormed-under p t w

      same : entries t ≡ under p (entries t)
      same = sym (select-all (λ e. starts p e.0) (entries t) all_here)

      no_entries : (t : Trie D) → is_empty_leaf t ≡ true → some_under p (entries t) ≡ false
      no_entries empty_leaf h = refl
      no_entries (leaf k d) h = cc
      no_entries (branches l r) h = cc

  find_subtrie_loop-Finds :
      (t : Trie D) (k p bits : Key) (branch : Trie D)
      → k ≡ p ++ bits
      → WellFormed p branch
      → Finds k branch (find_subtrie_loop t k bits branch)
  unfolding find_subtrie_loop
  find_subtrie_loop-Finds t k p [] branch e w =
      subst (λ q. Finds q branch (branch, not (is_empty_leaf branch))) (sym (e ∙ append-nil p))
        (Finds-here p branch w)
  find_subtrie_loop-Finds t k p (b ∷ bits) empty_leaf e w = (refl, λ h. cc)
  find_subtrie_loop-Finds t k p (b ∷ bits) (leaf k' d) e w =
      (ground (arith, cpl-starts' k' k), λ h. ground (arith, cpl-starts' k' k))
  find_subtrie_loop-Finds t k p (b ∷ bits) (branches l r) e w =
      let both = branch_under p bits b l r w in
      let rest =
        find_subtrie_loop-Finds t k (p ++ b ∷ []) bits (if b then r else l)
          (e ∙ sym (append_assoc p (b ∷ []) bits)) (WellFormed-branch p b l r w) in
      (
        rest.0
            ∙ subst
                (λ q.
                  some_under q (entries (if b then r else l))
                  ≡ some_under q (entries l ++ entries r))
                (sym e) both.0,
        λ h.
            rest.1 h
            ∙ subst (λ q. under q (entries (if b then r else l)) ≡ under q (entries l ++ entries r))
                (sym e) both.1,
      )

  -- On a well-formed trie `FindSubtrie` tells whether some key begins with `k`, and where one does
  -- the subtrie that it returns holds exactly the entries whose keys begin with `k`, in order.
  pub find_subtrie-under :
      (t : Trie D) (k : Key)
      → WellFormed [] t
      → ((find_subtrie t k).1 ≡ some_under k (entries t))
        × ((find_subtrie t k).1 ≡ true → entries (find_subtrie t k).0 ≡ under k (entries t))
  unfolding find_subtrie
  find_subtrie-under empty_leaf k w = (refl, λ h. cc)
  find_subtrie-under (leaf k' d) k w = find_subtrie_loop-Finds (leaf k' d) k [] k (leaf k' d) refl w
  find_subtrie-under (branches l r) k w =
      find_subtrie_loop-Finds (branches l r) k [] k (branches l r) refl w

  abbrev FindsPrefix : Key → Trie D → Key × Bool → Type 0
  FindsPrefix k t r =
      (r.1 ≡ any (λ e. starts e.0 k) (entries t))
      × (r.1 ≡ true → (starts r.0 k ≡ true) × (any (λ e. key_eq r.0 e.0) (entries t) ≡ true))

  no_prefix :
      (p bits : Key) (b : Bool) (t : Trie D)
      → WellFormed (p ++ not b ∷ []) t
      → any (λ e. starts e.0 (p ++ b ∷ bits)) (entries t) ≡ false
  no_prefix p bits b t w =
      any_of_all (λ e. starts (p ++ not b ∷ []) e.0) (λ e. starts e.0 (p ++ b ∷ bits))
        (λ e. starts_diverge' p bits e.0 b) (entries t) (WellFormed-under (p ++ not b ∷ []) t w)

  no_prefix_here :
      (p : Key) (b : Bool) (t : Trie D)
      → WellFormed (p ++ b ∷ []) t
      → any (λ e. starts e.0 p) (entries t) ≡ false
  no_prefix_here p b t w =
      any_of_all (λ e. starts (p ++ b ∷ []) e.0) (λ e. starts e.0 p) (λ e. starts_longer p e.0 b)
        (entries t) (WellFormed-under (p ++ b ∷ []) t w)

  find_prefix-FindsPrefix :
      (t : Trie D) (k p bits : Key) (n : ℕ)
      → k ≡ p ++ bits
      → n ≡ length p
      → WellFormed p t
      → FindsPrefix k t (find_prefix_of_key_at_depth t k n)
  unfolding find_prefix_of_key_at_depth
  find_prefix-FindsPrefix empty_leaf k p bits n e l w = (refl, λ h. cc)
  find_prefix-FindsPrefix (leaf k' d) k p bits n e l w = (
    ground (arith, cpl-starts k' k),
    λ h. (ground (arith, cpl-starts k' k), ground (arith, key_eq_refl k')),
  )
  find_prefix-FindsPrefix (branches lt rt) k p [] n e l w =
      rw (depth_end k p n (e ∙ append-nil p) l) (sym none, λ h. cc)
    where
      none : any (λ e. starts e.0 k) (entries lt ++ entries rt) ≡ false
      none = rw (e ∙ append-nil p) (
          any-append_left _ (entries lt) (entries rt) (no_prefix_here p false lt w.0)
          ∙ no_prefix_here p true rt w.1)
  find_prefix-FindsPrefix (branches lt rt) k p (true ∷ bits) n e l w =
      let rest =
        find_prefix-FindsPrefix rt k (p ++ true ∷ []) bits (suc n)
          (e ∙ sym (append_assoc p (true ∷ []) bits)) (depth_suc p true n l) w.1 in
      rw (depth_inner k p bits true n e l, depth_bit k p bits true n e l)
        (
          rest.0 ∙ sym (any-append_left _ (entries lt) (entries rt) none),
          λ h. ((rest.1 h).0, any-append _ (entries lt) (entries rt) ∙ or-right _ _ (rest.1 h).1),
        )
    where
      none : any (λ e. starts e.0 k) (entries lt) ≡ false
      none = rw e (no_prefix p bits true lt w.0)
  find_prefix-FindsPrefix (branches lt rt) k p (false ∷ bits) n e l w =
      let rest =
        find_prefix-FindsPrefix lt k (p ++ false ∷ []) bits (suc n)
          (e ∙ sym (append_assoc p (false ∷ []) bits)) (depth_suc p false n l) w.0 in
      rw (depth_inner k p bits false n e l, depth_bit k p bits false n e l)
        (
          rest.0 ∙ sym (any-append_right _ (entries lt) (entries rt) none),
          λ h. ((rest.1 h).0, any-append _ (entries lt) (entries rt) ∙ or-left _ _ (rest.1 h).1),
        )
    where
      none : any (λ e. starts e.0 k) (entries rt) ≡ false
      none = rw e (no_prefix p bits false rt w.1)

  -- On a well-formed trie `FindPrefixOfKey` tells whether some key of the trie is a prefix of `k`,
  -- and where one is it returns such a key.
  pub find_prefix_of_key_finds :
      (t : Trie D) (k : Key)
      → WellFormed [] t
      → ((find_prefix_of_key t k).1 ≡ any (λ e. starts e.0 k) (entries t))
        × ((find_prefix_of_key t k).1 ≡ true
            → (starts (find_prefix_of_key t k).0 k ≡ true)
              × (any (λ e. key_eq (find_prefix_of_key t k).0 e.0) (entries t) ≡ true))
  unfolding find_prefix_of_key
  find_prefix_of_key_finds t k w = find_prefix-FindsPrefix t k [] k 0 refl refl w
