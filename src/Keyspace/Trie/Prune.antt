-- ===== src/Keyspace/Trie/Prune.antt =====
-- `PruneSubtrie` of trie.go: exactly the keys under the prefix are gone.
use go_libp2p_hybrid_kad_dht.Prelude.{
  ℕ, suc, ◌≡◌, refl, ap, ◌∙◌, sym, Bool, true, false, ◌&&◌, not, List, [], ◌∷◌, ◌++◌, length,
  select, arith, select-append, ap₂, Bool-cases, inl, inr, append_assoc, append-nil, all_of_all,
  select_none, select-all, any-not, and-right,
}
use go_libp2p_hybrid_kad_dht.Keyspace.Key.{Key}
use go_libp2p_hybrid_kad_dht.Keyspace.Key.Prefixes.{
  starts, starts_diverge, depth_end, depth_inner, depth_bit, depth_suc, is_prefix-starts,
}
use go_libp2p_hybrid_kad_dht.Keyspace.Trie.{
  Trie, empty_leaf, leaf, branches, is_empty_leaf, after_prune, prune_subtrie_at_depth,
  prune_subtrie,
}
use go_libp2p_hybrid_kad_dht.Keyspace.Trie.Shape.{entries, WellFormed, WellFormed-under}

-- A node whose branch did not become empty still holds a key.
still_full_right :
    (a b c f : Bool) → f ≡ not b && c → a && b ≡ false → f && a ≡ false → a && c ≡ false
still_full_right a b c f h = ground arith

still_full_left :
    (a b c f : Bool) → f ≡ not a && c → a && b ≡ false → f && b ≡ false → c && b ≡ false
still_full_left a b c f h = ground arith

module _ {ℓ} {D : Type ℓ} where
  -- The entries that do not begin with `k`.
  abbrev pub outside : Key → List (Key × D) → List (Key × D)
  outside k = select λ e. not (starts k e.0)

  -- What a call leaves at a node: the entries, the shape, and whether the node became empty.
  record Pruned (k p : Key) (t : Trie D) (r : Trie D × Bool) : Type ℓ where
    kept : entries r.0 ≡ outside k (entries t)
    shape : WellFormed p r.0
    told : r.1 ≡ not (is_empty_leaf t) && is_empty_leaf r.0

  all_outside :
      (p bits : Key) (b : Bool) (t : Trie D)
      → WellFormed (p ++ not b ∷ []) t
      → outside (p ++ b ∷ bits) (entries t) ≡ entries t
  all_outside p bits b t w = select-all _ (entries t) (
      all_of_all (λ e. starts (p ++ not b ∷ []) e.0) (λ e. not (starts (p ++ b ∷ bits) e.0))
        (λ e h. ap not (starts_diverge p bits e.0 b h)) (entries t)
        (WellFormed-under (p ++ not b ∷ []) t w))

  none_outside : (p : Key) (t : Trie D) → WellFormed p t → outside p (entries t) ≡ []
  none_outside p t w =
      select_none _ (entries t)
        (any-not (λ e. starts p e.0) (entries t) ∙ ap not (WellFormed-under p t w))

  empty_entries : (t : Trie D) → is_empty_leaf t ≡ true → entries t ≡ []
  empty_entries empty_leaf h = refl
  empty_entries (leaf k d) h = cc
  empty_entries (branches l r) h = cc

  kept_right :
      (k p bits : Key) (lt rt rest : Trie D)
      → k ≡ p ++ true ∷ bits
      → WellFormed p (branches lt rt)
      → entries rest ≡ outside k (entries rt)
      → entries lt ++ entries rest ≡ outside k (entries lt ++ entries rt)
  kept_right k p bits lt rt rest e w h = sym (
      select-append _ (entries lt) (entries rt)
      ∙ ap₂ ◌++◌ (rw e (all_outside p bits true lt w.0)) (sym h))

  kept_left :
      (k p bits : Key) (lt rt rest : Trie D)
      → k ≡ p ++ false ∷ bits
      → WellFormed p (branches lt rt)
      → entries rest ≡ outside k (entries lt)
      → entries rest ++ entries rt ≡ outside k (entries lt ++ entries rt)
  kept_left k p bits lt rt rest e w h = sym (
      select-append _ (entries lt) (entries rt)
      ∙ ap₂ ◌++◌ (sym h) (rw e (all_outside p bits false rt w.1)))

  after_prune_right :
      (k p bits : Key) (lt rt : Trie D) (r : Trie D × Bool)
      → k ≡ p ++ true ∷ bits
      → WellFormed p (branches lt rt)
      → Pruned k (p ++ true ∷ []) rt r
      → Pruned k p (branches lt rt) (after_prune (branches lt r.0) r.1 lt)
  after_prune_right k p bits lt rt r e w h = elim (Bool-cases (r.1 && is_empty_leaf lt)) [
    | inl gone ↦ rw gone (record {
      kept =
          sym (
            ap₂ ◌++◌ (empty_entries lt (and-right _ _ gone))
              (empty_entries r.0 (ground (arith, h.told))))
          ∙ kept_right k p bits lt rt r.0 e w h.kept;
      shape = tt;
      told = refl;
    })
    | inr stays ↦ rw stays (record {
      kept = kept_right k p bits lt rt r.0 e w h.kept;
      shape = (
        w.0,
        h.shape,
        still_full_right (is_empty_leaf lt) (is_empty_leaf rt) (is_empty_leaf r.0) r.1 h.told w.2
            stays,
      );
      told = refl;
    })
  ]

  after_prune_left :
      (k p bits : Key) (lt rt : Trie D) (r : Trie D × Bool)
      → k ≡ p ++ false ∷ bits
      → WellFormed p (branches lt rt)
      → Pruned k (p ++ false ∷ []) lt r
      → Pruned k p (branches lt rt) (after_prune (branches r.0 rt) r.1 rt)
  after_prune_left k p bits lt rt r e w h = elim (Bool-cases (r.1 && is_empty_leaf rt)) [
    | inl gone ↦ rw gone (record {
      kept =
          sym (
            ap₂ ◌++◌ (empty_entries r.0 (ground (arith, h.told)))
              (empty_entries rt (and-right _ _ gone)))
          ∙ kept_left k p bits lt rt r.0 e w h.kept;
      shape = tt;
      told = refl;
    })
    | inr stays ↦ rw stays (record {
      kept = kept_left k p bits lt rt r.0 e w h.kept;
      shape = (
        h.shape,
        w.1,
        still_full_left (is_empty_leaf lt) (is_empty_leaf rt) (is_empty_leaf r.0) r.1 h.told w.2
            stays,
      );
      told = refl;
    })
  ]

  prune-Pruned :
      (t : Trie D) (k p bits : Key) (n : ℕ)
      → k ≡ p ++ bits
      → n ≡ length p
      → WellFormed p t
      → Pruned k p t (prune_subtrie_at_depth t k n)
  unfolding prune_subtrie_at_depth
  prune-Pruned empty_leaf k p bits n e l w = record { kept = refl; shape = tt; told = refl }
  prune-Pruned (leaf k' d) k p bits n e l w = record {
    kept = ground (arith, is_prefix-starts k k');
    shape = ground arith;
    told = ground arith;
  }
  prune-Pruned (branches lt rt) k p [] n e l w = rw (depth_end k p n (e ∙ append-nil p) l) (record {
    kept = rw (e ∙ append-nil p) (sym (none_outside p (branches lt rt) w));
    shape = tt;
    told = refl;
  })
  prune-Pruned (branches lt rt) k p (true ∷ bits) n e l w =
      rw (depth_inner k p bits true n e l, depth_bit k p bits true n e l)
        (after_prune_right k p bits lt rt (prune_subtrie_at_depth rt k (suc n)) e w (
          prune-Pruned rt k (p ++ true ∷ []) bits (suc n)
            (e ∙ sym (append_assoc p (true ∷ []) bits)) (depth_suc p true n l) w.1))
  prune-Pruned (branches lt rt) k p (false ∷ bits) n e l w =
      rw (depth_inner k p bits false n e l, depth_bit k p bits false n e l)
        (after_prune_left k p bits lt rt (prune_subtrie_at_depth lt k (suc n)) e w (
          prune-Pruned lt k (p ++ false ∷ []) bits (suc n)
            (e ∙ sym (append_assoc p (false ∷ []) bits)) (depth_suc p false n l) w.0))

  -- `PruneSubtrie` removes from a well-formed trie exactly the entries whose keys begin with `k`,
  -- keeps the others in order, and leaves a well-formed trie.
  pub prune_subtrie-outside :
      (t : Trie D) (k : Key)
      → WellFormed [] t
      → (entries (prune_subtrie t k) ≡ outside k (entries t)) × WellFormed [] (prune_subtrie t k)
  unfolding prune_subtrie
  prune_subtrie-outside t k w = let r = prune-Pruned t k [] k 0 refl refl w in (r.kept, r.shape)
