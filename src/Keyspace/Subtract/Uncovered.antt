-- ===== src/Keyspace/Subtract/Uncovered.antt =====
-- `SubtractTrie` adds exactly the entries that no key of the second trie begins.
use mathlib.Core.List.{Perm, perm_append_comm}
use mathlib.Core.List.Perm
use go_libp2p_hybrid_kad_dht.Prelude.{
  ℕ, suc, ◌≡◌, refl, sym, ap, ap₂, ◌∙◌, true, false, ◌||◌, not, List, [], ◌∷◌, ◌++◌, length,
  Bool-cases, inl, inr, append-nil, append_assoc, and_intro, subst, select-append, any-append,
}
use go_libp2p_hybrid_kad_dht.Keyspace.Key.{Key}
use go_libp2p_hybrid_kad_dht.Keyspace.Key.Prefixes.{
  starts, is_bitstr_prefix-starts, starts→append, depth_bit, depth_suc,
}
use go_libp2p_hybrid_kad_dht.Keyspace.Trie.{Trie, empty_leaf, leaf, branches}
use go_libp2p_hybrid_kad_dht.Keyspace.Trie.Api.{TrieApi}
use go_libp2p_hybrid_kad_dht.Keyspace.Trie.Shape.{entries, keys, WellFormed, WellFormed-under}
use go_libp2p_hybrid_kad_dht.Keyspace.Subtract.{
  add_many, leaf_by_leaf, subtract_from_leaf, subtract_leaf, subtract_trie_at_depth, subtract_trie,
}
use go_libp2p_hybrid_kad_dht.Keyspace.Subtract.Covers.{
  covers, or_false_right, leb_self, leb_inner, covers-other, under_branch, uncovered,
  all_entries-zero, add_many-append, Adds, uncovered-other, uncovered-left, uncovered-right,
  uncovered_none, under_keys, keys-branches, covers-longer, uncovered_one, same_covers,
  uncovered-nil,
}

module _ {ℓ} {D : Type ℓ} where
  leaf_by_leaf-Adds :
      (api : TrieApi D) (k : Key) (d : D) (k1 : Key) (res : Trie D)
      → Adds api res (leaf_by_leaf api k d k1 res) (uncovered (k1 ∷ []) ((k, d) ∷ []))
  leaf_by_leaf-Adds api k d k1 res = elim (Bool-cases (starts k1 k)) [
    | inl covered ↦ ([], rw covered (Perm.refl []), rw (is_bitstr_prefix-starts k1 k, covered) refl)
    | inr free ↦ (
      (k, d) ∷ [],
      rw free (Perm.refl ((k, d) ∷ [])),
      rw (is_bitstr_prefix-starts k1 k, free) refl,
    )
  ]

  subtract_leaf-Adds :
      (api : TrieApi D) (k1 : Key) (t : Trie D) (p bits : Key) (n : ℕ) (res : Trie D)
      → k1 ≡ p ++ bits
      → n ≡ length p
      → WellFormed p t
      → Adds api res (subtract_leaf api t k1 n res) (uncovered (k1 ∷ []) (entries t))
  unfolding subtract_leaf
  subtract_leaf-Adds api k1 empty_leaf p bits n res e l w = ([], Perm.refl [], refl)
  subtract_leaf-Adds api k1 (leaf k d) p bits n res e l w = leaf_by_leaf-Adds api k d k1 res
  subtract_leaf-Adds api k1 (branches lt rt) p [] n res e l w =
      let is_p = e ∙ append-nil p in
      (
        [],
        rw
            (
              is_p,
              uncovered_none p (entries lt ++ entries rt) (WellFormed-under p (branches lt rt) w),
            )
            (Perm.refl []),
        rw (is_p, l, leb_self (length p)) refl,
      )
  subtract_leaf-Adds api k1 (branches lt rt) p (true ∷ bits) n res e l w =
      let rest =
        subtract_leaf-Adds api k1 rt (p ++ true ∷ []) bits (suc n) (add_many api res (entries lt))
          (e ∙ sym (append_assoc p (true ∷ []) bits)) (depth_suc p true n l) w.1 in
      (
        entries lt ++ rest.0,
        subst (Perm (entries lt ++ rest.0))
            (sym (
              select-append (λ x. not (covers (k1 ∷ []) x.0)) (entries lt) (entries rt)
              ∙ ap (λ z. z ++ uncovered (k1 ∷ []) (entries rt))
                  (uncovered-other p false (k1 ∷ []) (entries lt)
                    (and_intro _ _ (under_branch k1 p bits true e) refl)
                    (WellFormed-under (p ++ false ∷ []) lt w.0))))
            (Perm.append (Perm.refl (entries lt)) rest.1),
        rw (leb_inner k1 p bits true n e l, depth_bit k1 p bits true n e l, all_entries-zero lt)
            (rest.2 ∙ add_many-append api res (entries lt) rest.0),
      )
  subtract_leaf-Adds api k1 (branches lt rt) p (false ∷ bits) n res e l w =
      let rest =
        subtract_leaf-Adds api k1 lt (p ++ false ∷ []) bits (suc n) (add_many api res (entries rt))
          (e ∙ sym (append_assoc p (false ∷ []) bits)) (depth_suc p false n l) w.0 in
      (
        entries rt ++ rest.0,
        subst (Perm (entries rt ++ rest.0))
            (sym (
              select-append (λ x. not (covers (k1 ∷ []) x.0)) (entries lt) (entries rt)
              ∙ ap (λ z. uncovered (k1 ∷ []) (entries lt) ++ z)
                  (uncovered-other p true (k1 ∷ []) (entries rt)
                    (and_intro _ _ (under_branch k1 p bits false e) refl)
                    (WellFormed-under (p ++ true ∷ []) rt w.1))))
            (Perm.trans (perm_append_comm (entries rt) rest.0)
              (Perm.append rest.1 (Perm.refl (entries rt)))),
        rw (leb_inner k1 p bits false n e l, depth_bit k1 p bits false n e l, all_entries-zero rt)
            (rest.2 ∙ add_many-append api res (entries rt) rest.0),
      )

module _ {ℓ κ} {D : Type ℓ} {E : Type κ} where
  subtract_from_leaf-Adds :
      (api : TrieApi D) (k0 : Key) (d0 : D) (t : Trie E) (p bits : Key) (n : ℕ) (res : Trie D)
      → k0 ≡ p ++ bits
      → n ≡ length p
      → WellFormed p t
      → Adds api res (subtract_from_leaf api k0 d0 t n res) (uncovered (keys t) ((k0, d0) ∷ []))
  unfolding subtract_from_leaf
  subtract_from_leaf-Adds api k0 d0 empty_leaf p bits n res e l w =
      ((k0, d0) ∷ [], Perm.refl ((k0, d0) ∷ []), rw (all_entries-zero (leaf k0 d0)) refl)
  subtract_from_leaf-Adds api k0 d0 (leaf k1 d1) p bits n res e l w =
      leaf_by_leaf-Adds api k0 d0 k1 res
  subtract_from_leaf-Adds api k0 d0 (branches lt rt) p [] n res e l w =
      let is_p = e ∙ append-nil p in
      (
        (k0, d0) ∷ [],
        subst (Perm ((k0, d0) ∷ []))
            (sym (
              uncovered_one (keys (branches lt rt)) k0 d0 (
                ap (λ ks. covers ks k0) (keys-branches lt rt)
                ∙ any-append (λ k. starts k k0) (keys lt) (keys rt)
                ∙ rw is_p (
                    ap₂ ◌||◌ (covers-longer p false (keys lt) (under_keys (p ++ false ∷ []) lt w.0))
                      (covers-longer p true (keys rt) (under_keys (p ++ true ∷ []) rt w.1))))))
            (Perm.refl ((k0, d0) ∷ [])),
        rw (is_p, l, leb_self (length p)) refl,
      )
  subtract_from_leaf-Adds api k0 d0 (branches lt rt) p (true ∷ bits) n res e l w =
      let rest =
        subtract_from_leaf-Adds api k0 d0 rt (p ++ true ∷ []) bits (suc n) res
          (e ∙ sym (append_assoc p (true ∷ []) bits)) (depth_suc p true n l) w.1 in
      (
        rest.0,
        subst (Perm rest.0)
            (sym (
              same_covers (keys (branches lt rt)) (keys rt) k0 d0 (
                ap (λ ks. covers ks k0) (keys-branches lt rt)
                ∙ any-append (λ k. starts k k0) (keys lt) (keys rt)
                ∙ ap (λ b. b || covers (keys rt) k0)
                    (covers-other p true (keys lt) k0 (under_keys (p ++ false ∷ []) lt w.0)
                      (under_branch k0 p bits true e)))))
            rest.1,
        rw (leb_inner k0 p bits true n e l, depth_bit k0 p bits true n e l) rest.2,
      )
  subtract_from_leaf-Adds api k0 d0 (branches lt rt) p (false ∷ bits) n res e l w =
      let rest =
        subtract_from_leaf-Adds api k0 d0 lt (p ++ false ∷ []) bits (suc n) res
          (e ∙ sym (append_assoc p (false ∷ []) bits)) (depth_suc p false n l) w.0 in
      (
        rest.0,
        subst (Perm rest.0)
            (sym (
              same_covers (keys (branches lt rt)) (keys lt) k0 d0 (
                ap (λ ks. covers ks k0) (keys-branches lt rt)
                ∙ any-append (λ k. starts k k0) (keys lt) (keys rt)
                ∙ ap (λ b. covers (keys lt) k0 || b)
                    (covers-other p false (keys rt) k0 (under_keys (p ++ true ∷ []) rt w.1)
                      (under_branch k0 p bits false e))
                ∙ or_false_right (covers (keys lt) k0))))
            rest.1,
        rw (leb_inner k0 p bits false n e l, depth_bit k0 p bits false n e l) rest.2,
      )

  subtract_trie_at_depth-Adds :
      (api : TrieApi D) (t0 : Trie D) (t1 : Trie E) (p : Key) (n : ℕ) (res : Trie D)
      → n ≡ length p
      → WellFormed p t0
      → WellFormed p t1
      → Adds api res (subtract_trie_at_depth api t0 t1 n res) (uncovered (keys t1) (entries t0))
  unfolding subtract_trie_at_depth
  subtract_trie_at_depth-Adds api empty_leaf t1 p n res l w w1 = ([], Perm.refl [], refl)
  subtract_trie_at_depth-Adds api (leaf k d) t1 p n res l w w1 =
      let below = starts→append p k w in
      subtract_from_leaf-Adds api k d t1 p below.0 n res below.1 l w1
  subtract_trie_at_depth-Adds api (branches lt rt) empty_leaf p n res l w w1 = (
    entries (branches lt rt),
    subst (Perm (entries (branches lt rt))) (sym (uncovered-nil (entries (branches lt rt))))
        (Perm.refl (entries (branches lt rt))),
    ap (add_many api res) (all_entries-zero (branches lt rt)),
  )
  subtract_trie_at_depth-Adds api (branches lt rt) (leaf k d) p n res l w w1 =
      let below = starts→append p k w1 in
      subtract_leaf-Adds api k (branches lt rt) p below.0 n res below.1 l w
  subtract_trie_at_depth-Adds api (branches lt rt) (branches lt1 rt1) p n res l w w1 =
      let left =
        subtract_trie_at_depth-Adds api lt lt1 (p ++ false ∷ []) (suc n) res (depth_suc p false n l)
          w.0 w1.0 in
      let right =
        subtract_trie_at_depth-Adds api rt rt1 (p ++ true ∷ []) (suc n)
          (subtract_trie_at_depth api lt lt1 (suc n) res) (depth_suc p true n l) w.1 w1.1 in
      (
        left.0 ++ right.0,
        subst (Perm (left.0 ++ right.0))
            (sym (
              ap (λ ks. uncovered ks (entries lt ++ entries rt)) (keys-branches lt1 rt1)
              ∙ select-append (λ x. not (covers (keys lt1 ++ keys rt1) x.0)) (entries lt)
                  (entries rt)
              ∙ ap₂ ◌++◌
                  (uncovered-left p (keys lt1) (keys rt1) (entries lt)
                    (under_keys (p ++ true ∷ []) rt1 w1.1)
                    (WellFormed-under (p ++ false ∷ []) lt w.0))
                  (uncovered-right p (keys lt1) (keys rt1) (entries rt)
                    (under_keys (p ++ false ∷ []) lt1 w1.0)
                    (WellFormed-under (p ++ true ∷ []) rt w.1))))
            (Perm.append left.1 right.1),
        right.2 ∙ ap (λ z. add_many api z right.0) left.2 ∙ add_many-append api res left.0 right.0,
      )

  -- On well-formed tries `SubtractTrie` adds to an empty trie, each once and in some order,
  -- exactly the entries of the first trie whose keys are not begun by a key of the second.
  pub subtract_trie_adds :
      (api : TrieApi D) (t0 : Trie D) (t1 : Trie E)
      → WellFormed [] t0
      → WellFormed [] t1
      → (fs : List (Key × D)) × Perm fs (uncovered (keys t1) (entries t0))
        × (subtract_trie api t0 t1 ≡ add_many api empty_leaf fs)
  unfolding subtract_trie
  subtract_trie_adds api t0 t1 w w1 =
      subtract_trie_at_depth-Adds api t0 t1 [] 0 empty_leaf refl w w1
