-- ===== src/Keyspace/Trie/After.antt =====
-- The entries after that of a key in a traversal.
use go_libp2p_hybrid_kad_dht.Prelude.{
  ℕ, zero, suc, ◌≡◌, refl, ◌∙◌, sym, Bool, true, false, ◌&&◌, ◌||◌, not, Option, none, some, List,
  [], ◌∷◌, ◌++◌, length, get_elem?, leb, ltb, ◌==◌, if◌then◌else◌, arith, all, any, all-append,
  and-left, and-right, Bool-cases, inl, inr, ap₂, and_intro, length-append, ◌≤◌, any-append,
}
use go_libp2p_hybrid_kad_dht.Keyspace.Key.{Key, bit, key_eq}
use go_libp2p_hybrid_kad_dht.Keyspace.Key.Prefixes.{starts, starts→length-le, depth_suc}
use go_libp2p_hybrid_kad_dht.Keyspace.Trie.{Trie, Order, empty_leaf, leaf, branches}
use go_libp2p_hybrid_kad_dht.Keyspace.Trie.Shape.{
  entries, WellFormed, nonempty-any, WellFormed-under,
}
use go_libp2p_hybrid_kad_dht.Keyspace.Trie.Iter.{entries_by}
use go_libp2p_hybrid_kad_dht.Keyspace.Trie.Next.{or_else, first_leaf_at_depth}

-- A bit that is there is the bit that the traversal reads.
get_elem?-bit : (k : Key) (n : ℕ) → ltb n (length k) ≡ true → get_elem? k n ≡ some (bit k n)
get_elem?-bit [] n h = absurd (contrary h)
  where
    contrary : ltb n 0 ≡ true → ⊥
    contrary h = ground arith
get_elem?-bit (b ∷ k) zero h = refl
get_elem?-bit (b ∷ k) (suc n) h = get_elem?-bit k n (ground arith)

-- What holds of all of a list that has a member holds.
all_constant {ℓ} : {A : Type ℓ} (c : Bool) (xs : List A) → any (λ x. c) xs ≡ true → c ≡ true
all_constant c [] h = cc
all_constant c (x ∷ xs) h = ground (arith, all_constant c xs)

room : (n m o : ℕ) → suc n ≤ m → leb m o ≡ true → ltb n o ≡ true
room n m o h k = ground arith

pub suc-eq-zero : (n : ℕ) → (suc n == 0) ≡ false
suc-eq-zero n = ground arith

pub if_not {ℓ} : {A : Type ℓ} (b : Bool) (x y : A) → (if not b then x else y) ≡ (if b then y else x)
if_not true x y = refl
if_not false x y = refl

-- The bit after a prefix of a key.
pub next_bit :
    (k p bits order : Key) (b : Bool) (n : ℕ)
    → k ≡ p ++ b ∷ bits
    → n ≡ length p
    → get_elem? k n ≡ some b
next_bit k p bits order b n e m = rw (e, m) (at_length p)
  where
    at_length : (p : Key) → get_elem? (p ++ b ∷ bits) (length p) ≡ some b
    at_length [] = refl
    at_length (c ∷ p) = at_length p

pub or_comm : (a b : Bool) → a || b ≡ b || a
or_comm a b = ground arith

module _ {ℓ} {D : Type ℓ} where
  abbrev pub head? : List (Key × D) → Option (Key × D)
  head? [] = none
  head? (e ∷ es) = some e

  -- The entries after that of `k`.
  abbrev pub after : Key → List (Key × D) → List (Key × D)
  after k [] = []
  after k (e ∷ es) = if key_eq k e.0 then es else after k es

  -- No key is longer than the order.
  abbrev pub Fits : Key → Trie D → Type 0
  Fits order t = all (λ e. leb (length e.0) (length order)) (entries t) ≡ true

  pub or_else-head? :
      (xs ys : List (Key × D))
      → or_else (some (head? xs)) (some (head? ys)) ≡ some (head? (xs ++ ys))
  or_else-head? [] ys = refl
  or_else-head? (x ∷ xs) ys = refl

  -- An inner node stands above the last bit of each of its keys.
  pub inner_bit :
      (p : Key) (l r : Trie D) (order : Key) (n : ℕ)
      → n ≡ length p
      → WellFormed p (branches l r)
      → Fits order (branches l r)
      → get_elem? order n ≡ some (bit order n)
  inner_bit p l r order n e w f = get_elem?-bit order n (
      all_constant _ (entries l ++ entries r) (
        nonempty-any p (branches l r) (λ x. ltb n (length order)) w refl
          (all-append _ (entries l) (entries r)
            ∙ ap₂ ◌&&◌ (roomy false l w.0 (and-left _ _ both))
                (roomy true r w.1 (and-right _ _ both)))))
    where
      both :
          all (λ x. leb (length x.0) (length order)) (entries l)
            && all (λ x. leb (length x.0) (length order)) (entries r)
          ≡ true
      both = sym (all-append _ (entries l) (entries r)) ∙ f

      longer : (b : Bool) (x : Key) → starts (p ++ b ∷ []) x ≡ true → suc n ≤ length x
      longer b x s = omega (arith, starts→length-le (p ++ b ∷ []) x s, length-append {0} p (b ∷ []))

      roomy_list :
          (b : Bool) (es : List (Key × D))
          → all (λ x. starts (p ++ b ∷ []) x.0) es ≡ true
          → all (λ x. leb (length x.0) (length order)) es ≡ true
          → all (λ x. ltb n (length order)) es ≡ true
      roomy_list b [] s g = refl
      roomy_list b (x ∷ es) s g =
          and_intro _ _
            (room n (length x.0) (length order) (longer b x.0 (and-left _ _ s)) (and-left _ _ g))
            (roomy_list b es (and-right _ _ s) (and-right _ _ g))

      roomy :
          (b : Bool) (t : Trie D)
          → WellFormed (p ++ b ∷ []) t
          → Fits order t
          → all (λ x. ltb n (length order)) (entries t) ≡ true
      roomy b t w g = roomy_list b (entries t) (WellFormed-under (p ++ b ∷ []) t w) g

  pub Fits-both :
      (order : Key) (l r : Trie D) → Fits order (branches l r) → Fits order l × Fits order r
  Fits-both order l r f =
      let both = sym (all-append _ (entries l) (entries r)) ∙ f in
      (and-left _ _ both, and-right _ _ both)

  pub first_leaf-head? :
      (p : Key) (t : Trie D) (order : Key) (n : ℕ)
      → n ≡ length p
      → WellFormed p t
      → Fits order t
      → first_leaf_at_depth t order n ≡ some (head? (entries_by (bit order) n t))
  unfolding first_leaf_at_depth
  first_leaf-head? p empty_leaf order n e w f = refl
  first_leaf-head? p (leaf k d) order n e w f = refl
  first_leaf-head? p (branches l r) order n e w f =
      let fits = Fits-both order l r f in
      let left =
        first_leaf-head? (p ++ false ∷ []) l order (suc n) (depth_suc p false n e) w.0 fits.0 in
      let right =
        first_leaf-head? (p ++ true ∷ []) r order (suc n) (depth_suc p true n e) w.1 fits.1 in
      rw (inner_bit p l r order n e w f) (elim (Bool-cases (bit order n)) [
        | inl one ↦ rw (one, left, right) (or_else-head? (entries_by (bit order) (suc n) r) _)
        | inr nil ↦ rw (nil, left, right) (or_else-head? (entries_by (bit order) (suc n) l) _)
      ])

  -- The entry of `k` is among those.
  abbrev pub found : Key → List (Key × D) → Bool
  found k = any (λ e. key_eq k e.0)

  pub any-entries_by :
      (q : Key × D → Bool) (order : Order) (n : ℕ) (t : Trie D)
      → any q (entries_by order n t) ≡ any q (entries t)
  any-entries_by q order n empty_leaf = refl
  any-entries_by q order n (leaf k d) = refl
  any-entries_by q order n (branches l r) =
      let left = any-entries_by q order (suc n) l in
      let right = any-entries_by q order (suc n) r in
      let whole = any-append q (entries l) (entries r) in
      elim (Bool-cases (order n)) [
        | inl one ↦ rw one (
            any-append q (entries_by order (suc n) r) _
            ∙ ap₂ ◌||◌ right left
            ∙ or_comm (any q (entries r)) (any q (entries l))
            ∙ sym whole)
        | inr nil ↦
            rw nil (any-append q (entries_by order (suc n) l) _ ∙ ap₂ ◌||◌ left right ∙ sym whole)
      ]

  pub after-append_left :
      (k : Key) (xs ys : List (Key × D)) → found k xs ≡ true → after k (xs ++ ys) ≡ after k xs ++ ys
  after-append_left k [] ys h = cc
  after-append_left k (x ∷ xs) ys h = ground (arith, after-append_left k xs ys)

  pub after-append_right :
      (k : Key) (xs ys : List (Key × D)) → found k xs ≡ false → after k (xs ++ ys) ≡ after k ys
  after-append_right k [] ys h = refl
  after-append_right k (x ∷ xs) ys h = ground (arith, after-append_right k xs ys)

  pub head?-append :
      (k : Key) (xs ys : List (Key × D)) → found k xs ≡ true → head? (xs ++ ys) ≡ head? xs
  head?-append k [] ys h = cc
  head?-append k (x ∷ xs) ys h = refl

  pub head?-append_cong :
      (xs ys zs : List (Key × D)) → head? ys ≡ head? zs → head? (xs ++ ys) ≡ head? (xs ++ zs)
  head?-append_cong [] ys zs h = h
  head?-append_cong (x ∷ xs) ys zs h = refl
