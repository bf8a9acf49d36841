-- ===== src/Queue/Prefix/Positions.antt =====
-- The positions of the keys of the queue under a prefix.
use go_libp2p_hybrid_kad_dht.Prelude.{
  ℕ, zero, suc, ◌≡◌, refl, ap, ap₂, sym, ◌∙◌, Bool, true, false, ◌&&◌, ◌||◌, some, List, [], ◌∷◌,
  map, any, all, ltb, ◌==◌, if◌then◌else◌, arith, Bool-cases, inl, inr, Ordered, any-map, or-left,
  or-right, and-left, and-right, and_intro, subst, all_of_all,
}
use go_libp2p_hybrid_kad_dht.Keyspace.Key.{Key, key_eq}
use go_libp2p_hybrid_kad_dht.Keyspace.Key.Prefixes.{
  starts, key_eq→eq, key_eq_refl, key_eq_sym, starts_refl,
}
use go_libp2p_hybrid_kad_dht.Keyspace.Trie.Shape.{differ}
use go_libp2p_hybrid_kad_dht.Keyspace.Trie.Api.{comparable}
use go_libp2p_hybrid_kad_dht.Queue.Prefix.{index_of, sort}
use go_libp2p_hybrid_kad_dht.Queue.Prefix.Indexes.{
  positions, holds_at, mem-positions, Ordered-positions, rising_unique, mem-sort,
  Ordered-insert_sorted,
}
use go_libp2p_hybrid_kad_dht.Queue.Prefix.Invariant.{apart}

-- The position of a key in the queue.
pub pos : List Key → Key → ℕ
pos [] k = 0
pos (x ∷ q) k = if key_eq x k then 0 else suc (pos q k)

pub index_of-pos :
    (q : List Key) (k : Key)
    → any (key_eq k) q ≡ true
    → index_of (λ e. key_eq e k) q ≡ some (pos q k)
unfolding index_of pos
index_of-pos [] k h = cc
index_of-pos (x ∷ q) k h = elim (Bool-cases (key_eq x k)) [
  | inl same ↦ rw same
  | inr other ↦ rw (other, index_of-pos q k (rw (key_eq_sym k x ∙ other) at h))
]

zero_suc : (n : ℕ) → (0 == suc n) ≡ false
zero_suc n = ground arith

-- The key stands at its position, and at no other one.
pos_iff :
    (q : List Key) (k : Key) (n : ℕ)
    → Ordered differ q
    → any (key_eq k) q ≡ true
    → (pos q k == n) ≡ holds_at (λ e. key_eq e k) q n
unfolding pos
pos_iff [] k n o h = cc
pos_iff (x ∷ q) k zero o h = elim (Bool-cases (key_eq x k)) [
  | inl same ↦ rw same
  | inr other ↦ rw other (ground arith)
]
pos_iff (x ∷ q) k (suc n) o h = elim (Bool-cases (key_eq x k)) [
  | inl same ↦ rw same (
      zero_suc n
      ∙ sym (nowhere q n (subst (λ y. all (differ y) q ≡ true) (key_eq→eq x k same) o.0)))
  | inr other ↦ rw other (ground (arith, pos_iff q k n o.1 (rw (key_eq_sym k x ∙ other) at h)))
]
  where
    nowhere :
        (q : List Key) (n : ℕ) → all (differ k) q ≡ true → holds_at (λ e. key_eq e k) q n ≡ false
    nowhere [] n h = refl
    nowhere (y ∷ q) zero h = key_eq_sym y k ∙ ground arith
    nowhere (y ∷ q) (suc n) h = nowhere q n (and-right _ _ h)

holds_at-any :
    (ks q : List Key) (n : ℕ)
    → any (λ y. holds_at (λ e. key_eq e y) q n) ks ≡ holds_at (λ e. any (key_eq e) ks) q n
holds_at-any ks [] n = never ks
  where
    never : (ks : List Key) → any (λ y. false) ks ≡ false
    never [] = refl
    never (k ∷ ks) = never ks
holds_at-any ks (x ∷ q) zero = refl
holds_at-any ks (x ∷ q) (suc n) = holds_at-any ks q n

holds_at_congr :
    (f g : Key → Bool) (q : List Key) (n : ℕ)
    → ((x : Key) → any (key_eq x) q ≡ true → f x ≡ g x)
    → holds_at f q n ≡ holds_at g q n
holds_at_congr f g [] n h = refl
holds_at_congr f g (x ∷ q) zero h = h x (or-left _ _ (key_eq_refl x))
holds_at_congr f g (x ∷ q) (suc n) h =
    holds_at_congr f g q n (λ y m. h y (or-right (key_eq y x) _ m))

-- What stands at a position decides what holds there.
holds_at_key :
    (f : Key → Bool) (q : List Key) (k : Key) (n : ℕ)
    → holds_at (λ e. key_eq e k) q n ≡ true
    → holds_at f q n ≡ f k
holds_at_key f [] k n h = cc
holds_at_key f (x ∷ q) k zero h = ap f (key_eq→eq x k h)
holds_at_key f (x ∷ q) k (suc n) h = holds_at_key f q k n h

pub all_members :
    (xs ys : List Key)
    → ((x : Key) → any (key_eq x) xs ≡ true → any (key_eq x) ys ≡ true)
    → all (λ y. any (key_eq y) ys) xs ≡ true
all_members [] ys h = refl
all_members (x ∷ xs) ys h =
    and_intro _ _ (h x (or-left _ _ (key_eq_refl x)))
      (all_members xs ys (λ z m. h z (or-right (key_eq z x) _ m)))

module _ (q : List Key) (distinct : Ordered differ q) where
  any-pos :
      (n : ℕ) (ks : List Key)
      → all (λ k. any (key_eq k) q) ks ≡ true
      → any (λ i. i == n) (map (pos q) ks) ≡ holds_at (λ e. any (key_eq e) ks) q n
  any-pos n ks h = any-map (pos q) (λ i. i == n) ks ∙ each ks h ∙ holds_at-any ks q n
    where
      each :
          (ks : List Key)
          → all (λ k. any (key_eq k) q) ks ≡ true
          → any (λ k. pos q k == n) ks ≡ any (λ y. holds_at (λ e. key_eq e y) q n) ks
      each [] h = refl
      each (k ∷ ks) h =
          ap₂ ◌||◌ (pos_iff q k n distinct (and-left _ _ h)) (each ks (and-right _ _ h))

  Ordered-sort-pos :
      (ks : List Key)
      → Ordered differ ks
      → all (λ k. any (key_eq k) q) ks ≡ true
      → Ordered ltb (sort (map (pos q) ks))
  unfolding sort
  Ordered-sort-pos [] d h = tt
  Ordered-sort-pos (k ∷ ks) d h =
      Ordered-insert_sorted (pos q k) (sort (map (pos q) ks))
        (mem-sort (pos q k) (map (pos q) ks)
          ∙ any-pos (pos q k) ks (and-right _ _ h)
          ∙ holds_at_key (λ e. any (key_eq e) ks) q k (pos q k)
              (sym (pos_iff q k (pos q k) distinct (and-left _ _ h)) ∙ same (pos q k))
          ∙ fresh ks d.0)
        (Ordered-sort-pos ks d.1 (and-right _ _ h))
    where
      same : (n : ℕ) → (n == n) ≡ true
      same n = ground arith

      fresh : (ks : List Key) → all (differ k) ks ≡ true → any (key_eq k) ks ≡ false
      fresh [] h = refl
      fresh (j ∷ ks) h = ground (arith, fresh ks)

  -- The sorted positions of the keys under a prefix are those that pass the test.
  pub sort-positions :
      (m : Key → Bool) (ks : List Key)
      → Ordered differ ks
      → ((x : Key) → any (key_eq x) ks ≡ m x && any (key_eq x) q)
      → all (λ k. any (key_eq k) q) ks ≡ true
      → sort (map (pos q) ks) ≡ positions m q
  sort-positions m ks d e h =
      rising_unique _ _ (Ordered-sort-pos ks d h) (Ordered-positions m q) (λ n.
        mem-sort n (map (pos q) ks)
        ∙ any-pos n ks h
        ∙ holds_at_congr _ m q n (λ x i. e x ∙ only (m x) i)
        ∙ sym (mem-positions m q n))
    where
      only : (a : Bool) {b : Bool} → b ≡ true → a && b ≡ a
      only a h = ground arith

pub apart-differ : (q : List Key) → Ordered apart q → Ordered differ q
apart-differ [] h = tt
apart-differ (x ∷ q) h = (
  all_of_all (apart x) (differ x) (λ y a. ground (arith, key_eq→eq x y, comparable_same x y)) q h.0,
  apart-differ q h.1,
)
  where
    comparable_same : (x y : Key) → key_eq x y ≡ true → comparable x y ≡ true
    comparable_same x y e =
        or-left (starts x y) (starts y x) (rw (← key_eq→eq x y e) (starts_refl x))
