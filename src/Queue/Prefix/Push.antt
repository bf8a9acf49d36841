-- ===== src/Queue/Prefix/Push.antt =====
-- The specification of the prefix queue, on the list of prefixes alone, and its laws.
use go_libp2p_hybrid_kad_dht.Prelude.{
  ℕ, suc, ◌≡◌, refl, ap, sym, ◌∙◌, Bool, true, false, ◌&&◌, ◌||◌, not, List, [], ◌∷◌, ◌++◌, map,
  any, all, select, if◌then◌else◌, arith, Bool-cases, ◌⊎◌, inl, inr, Ordered, Ordered-select,
  or-left, or-right, and-right, subst, all-select, not-true→false,
}
use go_libp2p_hybrid_kad_dht.Keyspace.Key.{Key, key_eq}
use go_libp2p_hybrid_kad_dht.Keyspace.Key.Prefixes.{starts, starts_trans, key_eq→eq, key_eq_refl}
use go_libp2p_hybrid_kad_dht.Queue.Prefix.{insert_at}
use go_libp2p_hybrid_kad_dht.Queue.Prefix.Indexes.{positions}
use go_libp2p_hybrid_kad_dht.Queue.Prefix.Invariant.{apart, mem-select}

-- The queue without the prefixes that begin with `k`.
abbrev pub without : Key → List Key → List Key
without k = select λ x. not (starts k x)

-- `k` in the place of the first prefix that begins with it, and the others that do gone.
abbrev pub consolidate : Key → List Key → List Key
consolidate k [] = []
consolidate k (x ∷ q) = if starts k x then k ∷ without k q else x ∷ consolidate k q

-- What `Push` promises of one prefix.
abbrev pub pushed : Key → List Key → List Key
pushed k q =
    if any (starts k) q then consolidate k q else if any (λ x. starts x k) q then q else q ++ k ∷ []

pub positions-any :
    (m : Key → Bool) (q : List Key)
    → any m q ≡ true
    → (i : ℕ) × (is : List ℕ) × (positions m q ≡ i ∷ is)
positions-any m [] h = cc
positions-any m (x ∷ q) h = elim (Bool-cases (m x)) [
  | inl hit ↦ (0, map suc (positions m q), rw hit)
  | inr miss ↦
      let (i, is, e) = positions-any m q (rw miss at h) in (suc i, map suc is, rw (miss, e))
]

pub insert_at-consolidate :
    (k : Key) (q : List Key) (i : ℕ) (is : List ℕ)
    → positions (starts k) q ≡ i ∷ is
    → insert_at i k (without k q) ≡ consolidate k q
unfolding insert_at
insert_at-consolidate k [] i is e = cc
insert_at-consolidate k (x ∷ q) i is e = elim (Bool-cases (starts k x)) [
  | inl hit ↦ rw (hit, heads (rw hit at e))
  | inr miss ↦
      rw miss (later (insert_at-consolidate k q) (positions (starts k) q) refl (rw miss at e))
]
  where
    heads : {a b : ℕ} {as' bs : List ℕ} → a ∷ as' ≡ b ∷ bs → b ≡ a
    heads h = cc

    later :
        ((j : ℕ) (js : List ℕ)
          → positions (starts k) q ≡ j ∷ js
          → insert_at j k (without k q) ≡ consolidate k q)
        → (ps : List ℕ) → positions (starts k) q ≡ ps
        → map suc ps ≡ i ∷ is
        → insert_at i k (x ∷ without k q) ≡ x ∷ consolidate k q
    later ih [] f g = cc
    later ih (p ∷ ps) f g =
        subst (λ n. insert_at n k (x ∷ without k q) ≡ x ∷ consolidate k q) (sym (heads g))
          (ap (◌∷◌ x) (ih p ps f))

pub mem-consolidate :
    (k x : Key) (q : List Key)
    → any (starts k) q ≡ true
    → any (key_eq x) (consolidate k q) ≡ key_eq x k || (not (starts k x) && any (key_eq x) q)
mem-consolidate k x [] h = cc
mem-consolidate k x (y ∷ q) h = elim (Bool-cases (starts k y)) [
  | inl hit ↦ rw (hit, mem-select (λ z. not (starts k z)) x q) (skip hit)
  | inr miss ↦ rw (miss, mem-consolidate k x q (rw miss at h)) (keep miss)
]
  where
    skip :
        starts k y ≡ true
        → key_eq x k || (not (starts k x) && any (key_eq x) q)
          ≡ key_eq x k || (not (starts k x) && (key_eq x y || any (key_eq x) q))
    skip hit = elim (Bool-cases (key_eq x y)) [
      | inl same ↦ rw (key_eq→eq x y same, hit)
      | inr other ↦ rw other
    ]

    keep :
        starts k y ≡ false
        → key_eq x y || (key_eq x k || (not (starts k x) && any (key_eq x) q))
          ≡ key_eq x k || (not (starts k x) && (key_eq x y || any (key_eq x) q))
    keep miss = elim (Bool-cases (key_eq x y)) [
      | inl same ↦ rw (key_eq→eq x y same, miss, key_eq_refl y) (ground arith)
      | inr other ↦ rw other
    ]

all-consolidate :
    (p : Key → Bool) (k : Key) (q : List Key)
    → p k ≡ true
    → all p q ≡ true
    → all p (consolidate k q) ≡ true
all-consolidate p k [] h a = refl
all-consolidate p k (x ∷ q) h a =
    ground (arith, all-select (λ z. not (starts k z)) p q, all-consolidate p k q)

-- Two prefixes of the queue of which one begins the other are one.
pub apart_eq :
    (q : List Key) (x y : Key)
    → Ordered apart q
    → any (key_eq x) q ≡ true
    → any (key_eq y) q ≡ true
    → starts x y ≡ true
    → x ≡ y
apart_eq [] x y o h k s = cc
apart_eq (z ∷ q) x y o h k s =
    split (Bool-cases (key_eq x z)) (Bool-cases (key_eq y z)) (apart_eq q x y o.1)
  where
    clash : (j : Key) → any (key_eq j) q ≡ true → starts z j ≡ true ⊎ starts j z ≡ true → ⊥
    clash j m c = absurd (contrary (row q o.0 j m c))
      where
        contrary : false ≡ true → ⊥
        contrary e = cc

        row :
            (q : List Key)
            → all (apart z) q ≡ true
            → (j : Key) → any (key_eq j) q ≡ true
            → starts z j ≡ true ⊎ starts j z ≡ true
            → false ≡ true
        row [] a j m c = m
        row (w ∷ q) a j m c = elim (Bool-cases (key_eq j w)) [
          | inl same ↦ ground (arith, key_eq→eq j w same)
          | inr other ↦ row q (and-right _ _ a) j (rw other at m) c
        ]

    split :
        (key_eq x z ≡ true) ⊎ (key_eq x z ≡ false)
        → (key_eq y z ≡ true) ⊎ (key_eq y z ≡ false)
        → (any (key_eq x) q ≡ true → any (key_eq y) q ≡ true → starts x y ≡ true → x ≡ y)
        → x ≡ y
    split (inl a) (inl b) ih = key_eq→eq x z a ∙ sym (key_eq→eq y z b)
    split (inl a) (inr b) ih =
        absurd (clash y (rw b at k) (inl (subst (λ w. starts w y ≡ true) (key_eq→eq x z a) s)))
    split (inr a) (inl b) ih =
        absurd (clash x (rw a at h) (inr (subst (λ w. starts x w ≡ true) (key_eq→eq y z b) s)))
    split (inr a) (inr b) ih = ih (rw a at h) (rw b at k) s

-- The member at which a test holds.
pub member_of :
    (p : Key → Bool) (q : List Key)
    → any p q ≡ true
    → (y : Key) × (p y ≡ true) × (any (key_eq y) q ≡ true)
member_of p [] h = cc
member_of p (x ∷ q) h = elim (Bool-cases (p x)) [
  | inl hit ↦ (x, hit, or-left _ _ (key_eq_refl x))
  | inr miss ↦
      let (y, holds, there) = member_of p q (rw miss at h) in
      (y, holds, or-right (key_eq y x) _ there)
]

-- A superstring of `k` in the queue leaves no proper prefix of `k` in it.
pub no_prefix_beside :
    (k : Key) (q : List Key)
    → Ordered apart q
    → any (starts k) q ≡ true
    → (x : Key) → any (key_eq x) q ≡ true
    → starts k x ≡ false
    → starts x k ≡ false
no_prefix_beside k q o h x m s =
    let (y, under, there) = member_of (starts k) q h in
    not-true→false (starts x k) (λ e.
      absurd (
        contrary (sym s ∙ (rw (← apart_eq q x y o m there (starts_trans x k y e under)) at under))))
  where
    contrary : false ≡ true → ⊥
    contrary e = cc

pub apart-without :
    (k : Key) (q : List Key)
    → ((x : Key) → any (key_eq x) q ≡ true → starts k x ≡ false → starts x k ≡ false)
    → all (apart k) (without k q) ≡ true
apart-without k [] h = refl
apart-without k (x ∷ q) h = ground (
  arith,
  h x (or-left _ _ (key_eq_refl x)),
  apart-without k q (λ y m. h y (or-right (key_eq y x) _ m)),
)

pub Ordered-consolidate :
    (k : Key) (q : List Key)
    → Ordered apart q
    → ((x : Key) → any (key_eq x) q ≡ true → starts k x ≡ false → starts x k ≡ false)
    → Ordered apart (consolidate k q)
Ordered-consolidate k [] o h = tt
Ordered-consolidate k (x ∷ q) o h = elim (Bool-cases (starts k x)) [
  | inl hit ↦ rw hit (
    apart-without k q (λ y m. h y (or-right (key_eq y x) _ m)),
    Ordered-select apart (λ z. not (starts k z)) q o.1,
  )
  | inr miss ↦ rw miss (
    all-consolidate (apart x) k q (ground (arith, h x (or-left _ _ (key_eq_refl x)))) o.0,
    Ordered-consolidate k q o.1 (λ y m. h y (or-right (key_eq y x) _ m)),
  )
]
