-- ===== src/Keyspace/Trie/Reference.antt =====
-- A plain trie insertion and removal, which shows that the laws assumed of the trie library can be
-- met. The code's own trie library is not modelled.
use go_libp2p_hybrid_kad_dht.Prelude.{
  ℕ, suc, ◌≡◌, refl, ap, ◌∙◌, sym, Bool, true, false, ◌&&◌, ◌||◌, not, List, [], ◌∷◌, ◌++◌, map,
  length, any, drop, if◌then◌else◌, arith, any-append, map-append, Bool-cases, inl, inr,
  append_assoc, append-nil, subst, drop-length_append, or_false,
}
use go_libp2p_hybrid_kad_dht.Keyspace.Key.{Key, bit, bit_eq, key_eq}
use go_libp2p_hybrid_kad_dht.Keyspace.Key.Prefixes.{
  starts, key_eq→eq, depth_bit, depth_suc, starts-append, starts→append, starts-append_cancel,
}
use go_libp2p_hybrid_kad_dht.Keyspace.Trie.{Trie, empty_leaf, leaf, branches, is_empty_leaf}
use go_libp2p_hybrid_kad_dht.Keyspace.Trie.Shape.{
  entries, keys, has, WellFormed, has-branches, WellFormed-under, nonempty-any,
}
use go_libp2p_hybrid_kad_dht.Keyspace.Trie.Api.{comparable, IsFree, TrieApi, TrieLaws}

or_right_new : (a b c d : Bool) → c ≡ d || b → a || c ≡ d || (a || b)
or_right_new a b c d h = ground arith

or_left_new : (a b c d : Bool) → c ≡ d || a → c || b ≡ d || (a || b)
or_left_new a b c d h = ground arith

path_snoc : (k p ks : Key) (b : Bool) → k ≡ p ++ b ∷ ks → starts (p ++ b ∷ []) k ≡ true
path_snoc k p ks b h = rw (h ∙ sym (append_assoc p (b ∷ []) ks)) (starts-append (p ++ b ∷ []) ks)

starts-drop :
    (p ks k j : Key) (n : ℕ)
    → k ≡ p ++ ks
    → n ≡ length p
    → starts p j ≡ true
    → (j ≡ p ++ drop n j) × (drop n k ≡ ks)
starts-drop p ks k j n e l h =
    let (r, f) = starts→append p j h in
    (rw (f, l, drop-length_append p r), rw (e, l) (drop-length_append p ks))

module _ {ℓ} {D : Type ℓ} where
  -- Two leaves under one path, whose remaining bits are given.
  split : Key → D → Key → D → Key → Key → Trie D
  split k d j e (b ∷ ks) (c ∷ js) =
      let deeper = split k d j e ks js in
      if bit_eq b c
      then (if b then branches empty_leaf deeper else branches deeper empty_leaf)
      else if b
      then branches (leaf j e) (leaf k d)
      else branches (leaf k d) (leaf j e)
  split k d j e _ _ = leaf j e

  insert_at : Key → D → ℕ → Trie D → Trie D
  unfolding split
  insert_at k d n empty_leaf = leaf k d
  insert_at k d n (leaf j e) = split k d j e (drop n k) (drop n j)
  insert_at k d n (branches l r) =
      if bit k n then branches l (insert_at k d (suc n) r) else branches (insert_at k d (suc n) l) r

  collapse : Trie D → Trie D → Trie D
  collapse l r = if is_empty_leaf l && is_empty_leaf r then empty_leaf else branches l r

  remove_key : Key → Trie D → Trie D
  unfolding collapse
  remove_key k empty_leaf = empty_leaf
  remove_key k (leaf j e) = if key_eq j k then empty_leaf else leaf j e
  remove_key k (branches l r) = collapse (remove_key k l) (remove_key k r)

  -- A non-empty trie under `p` that holds the two keys.
  record Holds (p k j : Key) (t : Trie D) : Type 0 where
    shape : WellFormed p t
    full : is_empty_leaf t ≡ false
    both : (x : Key) → has x t ≡ key_eq x k || key_eq x j

  split-Holds :
      (k j p ks js : Key) (d e : D)
      → k ≡ p ++ ks
      → j ≡ p ++ js
      → starts ks js ≡ false
      → starts js ks ≡ false
      → Holds p k j (split k d j e ks js)
  unfolding split
  split-Holds k j p [] js d e hk hj a b = cc
  split-Holds k j p (b ∷ ks) [] d e hk hj a c = cc
  split-Holds k j p (true ∷ ks) (true ∷ js) d e hk hj a c =
      let h =
        split-Holds k j (p ++ true ∷ []) ks js d e (hk ∙ sym (append_assoc p (true ∷ []) ks))
          (hj ∙ sym (append_assoc p (true ∷ []) js)) a c in
      record { shape = (tt, h.shape, h.full); full = refl; both = h.both }
  split-Holds k j p (false ∷ ks) (false ∷ js) d e hk hj a c =
      let h =
        split-Holds k j (p ++ false ∷ []) ks js d e (hk ∙ sym (append_assoc p (false ∷ []) ks))
          (hj ∙ sym (append_assoc p (false ∷ []) js)) a c in
      record {
        shape = (h.shape, tt, ap (λ v. v && true) h.full);
        full = refl;
        both = λ x.
            ap (any (key_eq x)) (ap (map (λ e. e.0)) (append-nil (entries (split k d j e ks js))))
            ∙ h.both x;
      }
  split-Holds k j p (true ∷ ks) (false ∷ js) d e hk hj a c = record {
    shape = (path_snoc j p js false hj, path_snoc k p ks true hk, refl);
    full = refl;
    both = λ x. ground arith;
  }
  split-Holds k j p (false ∷ ks) (true ∷ js) d e hk hj a c = record {
    shape = (path_snoc k p ks false hk, path_snoc j p js true hj, refl);
    full = refl;
    both = λ x. ground arith;
  }

  record Inserted (p k : Key) (t r : Trie D) : Type 0 where
    shape : WellFormed p r
    full : is_empty_leaf r ≡ false
    both : (x : Key) → has x r ≡ key_eq x k || has x t

  IsFree-branches : (k : Key) (l r : Trie D) → IsFree k (branches l r) → IsFree k l × IsFree k r
  IsFree-branches k l r f = or_false (any (comparable k) (keys l)) (any (comparable k) (keys r)) (
      sym (any-append (comparable k) (keys l) (keys r))
      ∙ sym (ap (any (comparable k)) (map-append (λ e. e.0) (entries l) (entries r)))
      ∙ f)

  -- A key at an inner node is a prefix of what stands below.
  inner_not_free :
      (k : Key) (l r : Trie D) → WellFormed k (branches l r) → IsFree k (branches l r) → ⊥
  inner_not_free k l r w f = clash (sym f ∙ hit)
    where
      clash : false ≡ true → ⊥
      clash h = cc

      up :
          (es : List (Key × D))
          → any (λ e. starts k e.0) es ≡ true
          → any (comparable k) (map (λ e. e.0) es) ≡ true
      up [] h = cc
      up (e ∷ es) h = ground (arith, up es)

      hit : any (comparable k) (keys (branches l r)) ≡ true
      hit = up (entries (branches l r)) (
          nonempty-any k (branches l r) (λ e. starts k e.0) w refl
            (WellFormed-under k (branches l r) w))

  insert-Inserted :
      (t : Trie D) (k p bits : Key) (d : D) (n : ℕ)
      → k ≡ p ++ bits
      → n ≡ length p
      → WellFormed p t
      → IsFree k t
      → Inserted p k t (insert_at k d n t)
  unfolding insert_at
  insert-Inserted empty_leaf k p bits d n e l w f = record {
    shape = rw e (starts-append p bits);
    full = refl;
    both = λ x. refl;
  }
  insert-Inserted (leaf j c) k p bits d n e l w f =
      let (below, rest) = starts-drop p bits k j n e l w in
      let apart =
        or_false (starts k j) (starts j k) (or_false (starts k j || starts j k) false f).0 in
      let h =
        split-Holds k j p (drop n k) (drop n j) d c (e ∙ sym (ap (◌++◌ p) rest)) below
          (cut k j (drop n k) (drop n j) (e ∙ sym (ap (◌++◌ p) rest)) below apart.0)
          (cut j k (drop n j) (drop n k) below (e ∙ sym (ap (◌++◌ p) rest)) apart.1) in
      record { shape = h.shape; full = h.full; both = λ x. h.both x ∙ ground arith }
    where
      cut :
          (a b as' bs : Key)
          → a ≡ p ++ as'
          → b ≡ p ++ bs
          → starts a b ≡ false
          → starts as' bs ≡ false
      cut a b as' bs ha hb h = sym (starts-append_cancel p as' bs) ∙ (rw (ha, hb) at h)
  insert-Inserted (branches lt rt) k p [] d n e l w f = absurd (
      inner_not_free k lt rt (subst (λ q. WellFormed q (branches lt rt)) (sym (e ∙ append-nil p)) w)
        f)
  insert-Inserted (branches lt rt) k p (true ∷ bits) d n e l w f =
      let h =
        insert-Inserted rt k (p ++ true ∷ []) bits d (suc n)
          (e ∙ sym (append_assoc p (true ∷ []) bits)) (depth_suc p true n l) w.1
          (IsFree-branches k lt rt f).1 in
      rw (depth_bit k p bits true n e l) (record {
        shape = (w.0, h.shape, ground (arith, h.full));
        full = refl;
        both = λ x.
            has-branches x lt (insert_at k d (suc n) rt)
            ∙ or_right_new (has x lt) (has x rt) _ (key_eq x k) (h.both x)
            ∙ sym (ap (λ v. key_eq x k || v) (has-branches x lt rt));
      })
  insert-Inserted (branches lt rt) k p (false ∷ bits) d n e l w f =
      let h =
        insert-Inserted lt k (p ++ false ∷ []) bits d (suc n)
          (e ∙ sym (append_assoc p (false ∷ []) bits)) (depth_suc p false n l) w.0
          (IsFree-branches k lt rt f).0 in
      rw (depth_bit k p bits false n e l) (record {
        shape = (h.shape, w.1, ground (arith, h.full));
        full = refl;
        both = λ x.
            has-branches x (insert_at k d (suc n) lt) rt
            ∙ or_left_new (has x lt) (has x rt) _ (key_eq x k) (h.both x)
            ∙ sym (ap (λ v. key_eq x k || v) (has-branches x lt rt));
      })

  record Removed (p k : Key) (t r : Trie D) : Type 0 where
    shape : WellFormed p r
    both : (x : Key) → has x r ≡ not (key_eq x k) && has x t

  collapse-WellFormed :
      (p : Key) (l r : Trie D)
      → WellFormed (p ++ false ∷ []) l
      → WellFormed (p ++ true ∷ []) r
      → WellFormed p (collapse l r)
  unfolding collapse
  collapse-WellFormed p l r wl wr = elim (Bool-cases (is_empty_leaf l && is_empty_leaf r)) [
    | inl hollow ↦ rw hollow tt
    | inr full ↦ rw full (wl, wr, full)
  ]

  has-collapse : (x : Key) (l r : Trie D) → has x (collapse l r) ≡ has x l || has x r
  unfolding collapse
  has-collapse x empty_leaf empty_leaf = refl
  has-collapse x empty_leaf (leaf k d) = has-branches x empty_leaf (leaf k d)
  has-collapse x empty_leaf (branches a b) = has-branches x empty_leaf (branches a b)
  has-collapse x (leaf k d) r = has-branches x (leaf k d) r
  has-collapse x (branches a b) r = has-branches x (branches a b) r

  remove-Removed : (t : Trie D) (k p : Key) → WellFormed p t → Removed p k t (remove_key k t)
  unfolding remove_key
  remove-Removed empty_leaf k p w = record { shape = tt; both = λ x. ground arith }
  remove-Removed (leaf j c) k p w = elim (Bool-cases (key_eq j k)) [
    | inl same ↦ rw same (record { shape = tt; both = λ x. gone x same })
    | inr other ↦ rw other (record { shape = w; both = λ x. stays x other })
  ]
    where
      gone : (x : Key) → key_eq j k ≡ true → false ≡ not (key_eq x k) && (key_eq x j || false)
      gone x h = rw (key_eq→eq j k h) (ground arith)

      stays :
          (x : Key)
          → key_eq j k ≡ false
          → key_eq x j || false ≡ not (key_eq x k) && (key_eq x j || false)
      stays x h = elim (Bool-cases (key_eq x j)) [
        | inl same ↦ rw (same, ap (λ v. key_eq v k) (key_eq→eq x j same), h)
        | inr other ↦ rw other (ground arith)
      ]
  remove-Removed (branches l r) k p w =
      let hl = remove-Removed l k (p ++ false ∷ []) w.0 in
      let hr = remove-Removed r k (p ++ true ∷ []) w.1 in
      record {
        shape = collapse-WellFormed p _ _ hl.shape hr.shape;
        both = λ x.
            has-collapse x (remove_key k l) (remove_key k r)
            ∙ ground (arith, hl.both x, hr.both x, has-branches x l r);
      }

  unfoldable pub reference : TrieApi D
  unfolding insert_at remove_key
  reference = record { add = λ k d t. insert_at k d 0 t; remove = remove_key }

  pub reference-TrieLaws : TrieLaws reference
  unfolding reference
  reference-TrieLaws = record {
    add-WellFormed = λ k d t w f. (insert-Inserted t k [] k d 0 refl refl w f).shape;
    has-add = λ x k d t w f. (insert-Inserted t k [] k d 0 refl refl w f).both x;
    remove-WellFormed = λ k t w. (remove-Removed t k [] w).shape;
    has-remove = λ x k t w. (remove-Removed t k [] w).both x;
  }

  pub reference-add_empty : (k : Key) (d : D) → reference.add k d empty_leaf ≡ leaf k d
  unfolding reference
  reference-add_empty k d = refl
