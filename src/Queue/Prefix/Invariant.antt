-- ===== src/Queue/Prefix/Invariant.antt =====
-- The invariant of the prefix queue: the trie holds the prefixes of the queue, and no prefix of
-- the queue begins another.
use go_libp2p_hybrid_kad_dht.Prelude.{
  ◌≡◌, refl, sym, ◌∙◌, Bool, true, ◌&&◌, not, List, [], ◌∷◌, any, select, arith, Bool-cases, inl,
  inr, Ordered, bool_ext, or-left, or-right,
}
use go_libp2p_hybrid_kad_dht.Keyspace.Key.{Key, key_eq}
use go_libp2p_hybrid_kad_dht.Keyspace.Key.Prefixes.{key_eq→eq, key_eq_refl}
use go_libp2p_hybrid_kad_dht.Keyspace.Trie.Shape.{has, WellFormed}
use go_libp2p_hybrid_kad_dht.Keyspace.Trie.Api.{comparable}
use go_libp2p_hybrid_kad_dht.Queue.Prefix.{PrefixQueue, new_queue}

-- Neither key begins the other.
abbrev pub apart : Key → Key → Bool
apart j k = not (comparable j k)

pub record Inv (q : PrefixQueue) : Type 0 where
  pub shape : WellFormed [] q.prefixes
  pub tracked : (x : Key) → has x q.prefixes ≡ any (key_eq x) q.queue
  pub disjoint : Ordered apart q.queue

pub new_queue-Inv : Inv new_queue
new_queue-Inv = record { shape = tt; tracked = λ x. refl; disjoint = tt }

-- A test that respects equality holds of some member where two lists have the same members.
pub any_of_same :
    (p : Key → Bool) (xs ys : List Key)
    → ((x : Key) → any (key_eq x) xs ≡ any (key_eq x) ys)
    → any p xs ≡ any p ys
any_of_same p xs ys h =
    bool_ext _ _ (λ a. transfer p xs ys (λ x e. sym (h x) ∙ e) a)
      (λ a. transfer p ys xs (λ x e. h x ∙ e) a)
  where
    hit :
        (p : Key → Bool) (x : Key) (ys : List Key)
        → p x ≡ true
        → any (key_eq x) ys ≡ true
        → any p ys ≡ true
    hit p x [] a m = cc
    hit p x (y ∷ ys) a m = elim (Bool-cases (key_eq x y)) [
      | inl same ↦ or-left (p y) _ (rw (← key_eq→eq x y same) a)
      | inr other ↦ or-right (p y) _ (hit p x ys a (rw other at m))
    ]

    transfer :
        (p : Key → Bool) (xs ys : List Key)
        → ((x : Key) → any (key_eq x) xs ≡ true → any (key_eq x) ys ≡ true)
        → any p xs ≡ true
        → any p ys ≡ true
    transfer p [] ys h a = cc
    transfer p (x ∷ xs) ys h a = elim (Bool-cases (p x)) [
      | inl here ↦ hit p x ys here (h x (or-left _ _ (key_eq_refl x)))
      | inr there ↦ transfer p xs ys (λ z m. h z (or-right (key_eq z x) _ m)) (rw there at a)
    ]

-- The members of a selection by a test that respects equality.
pub mem-select :
    (p : Key → Bool) (x : Key) (xs : List Key)
    → any (key_eq x) (select p xs) ≡ p x && any (key_eq x) xs
mem-select p x [] = ground arith
mem-select p x (y ∷ ys) = elim (Bool-cases (key_eq x y)) [
  | inl same ↦ rw (key_eq→eq x y same) (ground (arith, key_eq_refl y, mem-select p y ys))
  | inr other ↦ ground (arith, mem-select p x ys)
]
