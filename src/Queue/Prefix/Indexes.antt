-- ===== src/Queue/Prefix/Indexes.antt =====
-- Positions in a list: those that pass a test, sorting them, and removing at them.
use mathlib.Core.List.{reverse, reverse-cons}
use go_libp2p_hybrid_kad_dht.Prelude.{
  ℕ, zero, suc, ◌≤◌, ◌<◌, ◌≡◌, refl, ap, ap₂, sym, ◌∙◌, Bool, true, false, ◌||◌, not, some, List,
  [], ◌∷◌, ◌++◌, map, map-append, any, all, select, leb, ltb, ◌==◌, if◌then◌else◌, arith,
  Bool-cases, inl, inr, Ordered, and_intro,
}
use go_libp2p_hybrid_kad_dht.Keyspace.Key.{Key}
use go_libp2p_hybrid_kad_dht.Queue.Prefix.{
  remove_at, insert_sorted, sort, remove_indexes, last_index,
}

-- The positions of the elements that pass a test, lowest first.
abbrev pub positions : (Key → Bool) → List Key → List ℕ
positions m [] = []
positions m (x ∷ q) = if m x then 0 ∷ map suc (positions m q) else map suc (positions m q)

abbrev pub holds_at : (Key → Bool) → List Key → ℕ → Bool
holds_at m [] n = false
holds_at m (x ∷ q) zero = m x
holds_at m (x ∷ q) (suc n) = holds_at m q n

any-map-zero : (ns : List ℕ) → any (λ n. n == 0) (map suc ns) ≡ false
any-map-zero [] = refl
any-map-zero (n ∷ ns) = ground (arith, any-map-zero ns)

any-map-suc : (n : ℕ) (ns : List ℕ) → any (λ m. m == suc n) (map suc ns) ≡ any (λ m. m == n) ns
any-map-suc n [] = refl
any-map-suc n (m ∷ ns) = ground (arith, any-map-suc n ns)

pub mem-positions :
    (m : Key → Bool) (q : List Key) (n : ℕ) → any (λ i. i == n) (positions m q) ≡ holds_at m q n
mem-positions m [] n = refl
mem-positions m (x ∷ q) zero = ground (arith, any-map-zero (positions m q))
mem-positions m (x ∷ q) (suc n) = ground (arith, any-map-suc n (positions m q), mem-positions m q n)

all-map-suc :
    (n : ℕ) (ns : List ℕ)
    → all (λ m. ltb n m) ns ≡ true
    → all (λ m. ltb (suc n) m) (map suc ns) ≡ true
all-map-suc n [] h = refl
all-map-suc n (m ∷ ns) h = ground (arith, all-map-suc n ns)

all-map-zero : (ns : List ℕ) → all (λ m. ltb 0 m) (map suc ns) ≡ true
all-map-zero [] = refl
all-map-zero (m ∷ ns) = ground (arith, all-map-zero ns)

Ordered-map-suc : (ns : List ℕ) → Ordered ltb ns → Ordered ltb (map suc ns)
Ordered-map-suc [] h = tt
Ordered-map-suc (n ∷ ns) h = (all-map-suc n ns h.0, Ordered-map-suc ns h.1)

pub Ordered-positions : (m : Key → Bool) (q : List Key) → Ordered ltb (positions m q)
Ordered-positions m [] = tt
Ordered-positions m (x ∷ q) = elim (Bool-cases (m x)) [
  | inl hit ↦
      rw hit (all-map-zero (positions m q), Ordered-map-suc (positions m q) (Ordered-positions m q))
  | inr miss ↦ rw miss (Ordered-map-suc (positions m q) (Ordered-positions m q))
]

absent :
    (a n : ℕ) (ns : List ℕ) → a ≤ n → all (λ m. ltb n m) ns ≡ true → any (λ i. i == a) ns ≡ false
absent a n [] l h = refl
absent a n (m ∷ ns) l h = ground (arith, absent a n ns)

first_not_above :
    (x y : ℕ) (xs ys : List ℕ)
    → all (λ m. ltb y m) ys ≡ true
    → any (λ i. i == x) (x ∷ xs) ≡ any (λ i. i == x) (y ∷ ys)
    → y ≤ x
first_not_above x y xs ys h e = ground (arith, absent x y ys)

-- Rising lists with the same elements are equal.
pub rising_unique :
    (xs ys : List ℕ)
    → Ordered ltb xs
    → Ordered ltb ys
    → ((n : ℕ) → any (λ i. i == n) xs ≡ any (λ i. i == n) ys)
    → xs ≡ ys
rising_unique [] [] h k e = refl
rising_unique [] (y ∷ ys) h k e = absurd (ground (arith, e y))
rising_unique (x ∷ xs) [] h k e = absurd (ground (arith, e x))
rising_unique (x ∷ xs) (y ∷ ys) h k e = ap₂ ◌∷◌ heads (rising_unique xs ys h.1 k.1 tails)
  where
    heads : x ≡ y
    heads =
        omega
          (arith, first_not_above x y xs ys k.0 (e x), first_not_above y x ys xs h.0 (sym (e y)))

    tails : (n : ℕ) → any (λ i. i == n) xs ≡ any (λ i. i == n) ys
    tails n = ground (arith, heads, e n, absent n x xs, absent n y ys)

mem-insert_sorted :
    (n i : ℕ) (ns : List ℕ)
    → any (λ m. m == n) (insert_sorted i ns) ≡ (i == n) || any (λ m. m == n) ns
unfolding insert_sorted
mem-insert_sorted n i [] = refl
mem-insert_sorted n i (m ∷ ns) = ground (arith, mem-insert_sorted n i ns)

pub mem-sort : (n : ℕ) (ns : List ℕ) → any (λ m. m == n) (sort ns) ≡ any (λ m. m == n) ns
unfolding sort
mem-sort n [] = refl
mem-sort n (i ∷ ns) = mem-insert_sorted n i (sort ns) ∙ ap (λ v. (i == n) || v) (mem-sort n ns)

all-insert_sorted :
    (a i : ℕ) (ns : List ℕ)
    → ltb a i ≡ true
    → all (λ m. ltb a m) ns ≡ true
    → all (λ m. ltb a m) (insert_sorted i ns) ≡ true
unfolding insert_sorted
all-insert_sorted a i [] h k = ground arith
all-insert_sorted a i (m ∷ ns) h k = ground (arith, all-insert_sorted a i ns)

all_below :
    (i m : ℕ) (ns : List ℕ) → i < m → all (λ n. ltb m n) ns ≡ true → all (λ n. ltb i n) ns ≡ true
all_below i m [] h k = refl
all_below i m (n ∷ ns) h k = ground (arith, all_below i m ns)

pub Ordered-insert_sorted :
    (i : ℕ) (ns : List ℕ)
    → any (λ m. m == i) ns ≡ false
    → Ordered ltb ns
    → Ordered ltb (insert_sorted i ns)
unfolding insert_sorted
Ordered-insert_sorted i [] f h = (refl, tt)
Ordered-insert_sorted i (m ∷ ns) f h = elim (Bool-cases (leb i m)) [
  | inl low ↦
      rw low (
        and_intro (ltb i m) (all (ltb i) ns) (ground arith) (all_below i m ns (ground arith) h.0),
        h,
      )
  | inr high ↦
      rw high
        (all-insert_sorted m i ns (ground arith) h.0, Ordered-insert_sorted i ns (ground arith) h.1)
]

remove_indexes-append :
    (is js : List ℕ) (q : List Key)
    → remove_indexes (is ++ js) q ≡ remove_indexes js (remove_indexes is q)
unfolding remove_indexes
remove_indexes-append [] js q = refl
remove_indexes-append (i ∷ is) js q = remove_indexes-append is js (remove_at i q)

remove_indexes-map-suc :
    (is : List ℕ) (x : Key) (q : List Key)
    → remove_indexes (map suc is) (x ∷ q) ≡ x ∷ remove_indexes is q
unfolding remove_indexes remove_at
remove_indexes-map-suc [] x q = refl
remove_indexes-map-suc (i ∷ is) x q = remove_indexes-map-suc is x (remove_at i q)

reverse-map-suc : (ns : List ℕ) → reverse (map suc ns) ≡ map suc (reverse ns)
reverse-map-suc [] = refl
reverse-map-suc (n ∷ ns) =
    reverse-cons (suc n) (map suc ns)
    ∙ ap (λ v. v ++ suc n ∷ []) (reverse-map-suc ns)
    ∙ sym (ap (map suc) (reverse-cons n ns) ∙ map-append suc (reverse ns) (n ∷ []))

-- Removing at the positions of the hits, the highest first, keeps the others in order.
pub remove_indexes-positions :
    (m : Key → Bool) (q : List Key)
    → remove_indexes (reverse (positions m q)) q ≡ select (λ x. not (m x)) q
unfolding remove_indexes remove_at
remove_indexes-positions m [] = refl
remove_indexes-positions m (x ∷ q) = elim (Bool-cases (m x)) [
  | inl hit ↦ rw hit (
      ap (λ v. remove_indexes v (x ∷ q)) (reverse-cons 0 (map suc (positions m q)))
      ∙ remove_indexes-append (reverse (map suc (positions m q))) (0 ∷ []) (x ∷ q)
      ∙ ap (λ v. remove_at 0 v) tails
      ∙ remove_indexes-positions m q)
  | inr miss ↦ rw miss (tails ∙ ap (◌∷◌ x) (remove_indexes-positions m q))
]
  where
    tails :
        remove_indexes (reverse (map suc (positions m q))) (x ∷ q)
        ≡ x ∷ remove_indexes (reverse (positions m q)) q
    tails =
        ap (λ v. remove_indexes v (x ∷ q)) (reverse-map-suc (positions m q))
        ∙ remove_indexes-map-suc (reverse (positions m q)) x q

last_index-snoc : (is : List ℕ) (i : ℕ) → last_index (is ++ i ∷ []) ≡ some i
unfolding last_index
last_index-snoc [] i = refl
last_index-snoc (j ∷ []) i = refl
last_index-snoc (j ∷ k ∷ is) i = last_index-snoc (k ∷ is) i

pub last_index-reverse : (i : ℕ) (is : List ℕ) → last_index (reverse (i ∷ is)) ≡ some i
last_index-reverse i is = rw (reverse-cons i is) (last_index-snoc (reverse is) i)
