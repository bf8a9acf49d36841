-- ===== src/Queue/Prefix/Refines.antt =====
-- `Push`, `Pop` and `Remove` of the prefix queue against their specification.
use mathlib.Core.List.{foldl}
use go_libp2p_hybrid_kad_dht.Prelude.{
  ◌≡◌, refl, ap, sym, ◌∙◌, Bool, true, false, ◌&&◌, ◌||◌, not, Option, some, List, [], ◌∷◌, ◌++◌,
  any, all, if◌then◌else◌, arith, Bool-cases, ◌⊎◌, inl, inr, Ordered, any-append, any-map,
  Ordered-select, Ordered-append, subst, any_of_all, not-true→false, select-all,
}
use go_libp2p_hybrid_kad_dht.Keyspace.Key.{Key, key_eq}
use go_libp2p_hybrid_kad_dht.Keyspace.Key.Prefixes.{starts, starts_trans, key_eq→eq, starts_refl}
use go_libp2p_hybrid_kad_dht.Keyspace.Trie.{find_prefix_of_key}
use go_libp2p_hybrid_kad_dht.Keyspace.Trie.Shape.{entries, keys, has, WellFormed}
use go_libp2p_hybrid_kad_dht.Keyspace.Trie.Find.{find_prefix_of_key_finds}
use go_libp2p_hybrid_kad_dht.Keyspace.Trie.Api.{TrieApi, TrieLaws, comparable, IsFree}
use go_libp2p_hybrid_kad_dht.Queue.Prefix.{
  PrefixQueue, insert_at, push_one, push, pop_front, pop, remove,
}
use go_libp2p_hybrid_kad_dht.Queue.Prefix.Invariant.{Inv, apart, any_of_same, mem-select}
use go_libp2p_hybrid_kad_dht.Queue.Prefix.Superstrings.{
  Cut, remove_superstrings_absent, remove_superstrings_present,
}
use go_libp2p_hybrid_kad_dht.Queue.Prefix.Push.{
  without, consolidate, pushed, positions-any, insert_at-consolidate, mem-consolidate,
  no_prefix_beside, Ordered-consolidate, apart-without,
}

unnot : (b : Bool) → not b ≡ true → b ≡ false
unnot b h = ground arith

none_comparable :
    (k : Key) (q : List Key)
    → any (starts k) q ≡ false
    → any (λ x. starts x k) q ≡ false
    → any (comparable k) q ≡ false
none_comparable k [] h o = refl
none_comparable k (x ∷ q) h o = ground (arith, none_comparable k q)

apart_last :
    (k : Key) (q : List Key)
    → any (starts k) q ≡ false
    → any (λ x. starts x k) q ≡ false
    → all (λ x. all (apart x) (k ∷ [])) q ≡ true
apart_last k [] h o = refl
apart_last k (x ∷ q) h o = ground (arith, apart_last k q)

mem_snoc :
    (x k : Key) (q : List Key) → key_eq x k || any (key_eq x) q ≡ any (key_eq x) (q ++ k ∷ [])
mem_snoc x k [] = refl
mem_snoc x k (y ∷ q) = ground (arith, mem_snoc x k q)

drop_front :
    (x k : Key) (l : List Key)
    → all (apart k) l ≡ true
    → not (key_eq x k) && (key_eq x k || any (key_eq x) l) ≡ any (key_eq x) l
drop_front x k l a = elim (Bool-cases (key_eq x k)) [
  | inl same ↦ rw same (
      sym (
        ap (λ y. any (key_eq y) l) (key_eq→eq x k same)
        ∙ any_of_all (apart k) (key_eq k) absent l a))
  | inr other ↦ rw other
]
  where
    absent : (y : Key) → apart k y ≡ true → key_eq k y ≡ false
    absent y h = not-true→false (key_eq k y) (λ e. ground (arith, key_eq→eq k y e, starts_refl k))

module _ (api : TrieApi (Unit {0})) (laws : TrieLaws api) where
  -- A free key may be added to both the queue and the trie.
  add-Inv :
      (q : PrefixQueue) (k : Key) (l : List Key)
      → WellFormed [] q.prefixes
      → IsFree k q.prefixes
      → ((x : Key) → key_eq x k || has x q.prefixes ≡ any (key_eq x) l)
      → Ordered apart l
      → Inv (record { queue = l; prefixes = api.add k tt q.prefixes })
  add-Inv q k l w f t o = record {
    shape = laws.add-WellFormed k tt q.prefixes w f;
    tracked = λ x. laws.has-add x k tt q.prefixes w f ∙ t x;
    disjoint = o;
  }

  abbrev Refines : PrefixQueue → List Key → Option PrefixQueue → Type 0
  Refines q spec r = (q' : PrefixQueue) × (r ≡ some q') × (q'.queue ≡ spec) × Inv q'

  push_superstrings :
      (q : PrefixQueue) (k : Key)
      → Inv q
      → any (starts k) q.queue ≡ true
      → Refines q (consolidate k q.queue) (push_one api q k)
  unfolding push_one
  push_superstrings q k v h =
      let (i, is, first) = positions-any (starts k) q.queue h in
      let (q', run, cut) = remove_superstrings_present api laws q k i is v first h in
      (
        record { queue = insert_at i k q'.queue; prefixes = api.add k tt q'.prefixes },
        rw run,
        ap (insert_at i k) cut.queue ∙ insert_at-consolidate k q.queue i is first,
        subst (λ l. Inv (record { queue = l; prefixes = api.add k tt q'.prefixes }))
            (sym (ap (insert_at i k) cut.queue ∙ insert_at-consolidate k q.queue i is first))
            (add-Inv q' k (consolidate k q.queue) cut.shape (free q' cut)
              (λ x.
                ap (λ b. key_eq x k || b)
                  (cut.tracked x ∙ ap (λ b. not (starts k x) && b) (v.tracked x))
                ∙ sym (mem-consolidate k x q.queue h))
              (Ordered-consolidate k q.queue v.disjoint (no_prefix_beside k q.queue v.disjoint h))),
      )
    where
      free : (q' : PrefixQueue) → Cut api laws q k q' → IsFree k q'.prefixes
      free q' cut =
          any_of_same (comparable k) (keys q'.prefixes) (without k q.queue) (λ x.
            cut.tracked x
            ∙ ap (λ b. not (starts k x) && b) (v.tracked x)
            ∙ sym (mem-select (λ z. not (starts k z)) x q.queue))
          ∙ any_of_all (apart k) (comparable k) (λ x a. unnot (comparable k x) a)
              (without k q.queue)
              (apart-without k q.queue (no_prefix_beside k q.queue v.disjoint h))

  push_absent :
      (q : PrefixQueue) (k : Key)
      → Inv q
      → any (starts k) q.queue ≡ false
      → Refines q
          (if any (λ x. starts x k) q.queue then q.queue else q.queue ++ k ∷ [])
          (push_one api q k)
  unfolding push_one
  push_absent q k v h = elim (Bool-cases (any (λ x. starts x k) q.queue)) [
    | inl covered ↦
        (q, rw (remove_superstrings_absent api laws q k v h, found ∙ covered), rw covered, v)
    | inr open' ↦ (
      record { queue = q.queue ++ k ∷ []; prefixes = api.add k tt q.prefixes },
      rw (remove_superstrings_absent api laws q k v h, found ∙ open'),
      rw open',
      add-Inv q k (q.queue ++ k ∷ []) v.shape
          (any_of_same (comparable k) (keys q.prefixes) q.queue v.tracked
            ∙ none_comparable k q.queue h open')
          (λ x. ap (λ b. key_eq x k || b) (v.tracked x) ∙ mem_snoc x k q.queue)
          (Ordered-append apart q.queue (k ∷ []) v.disjoint (refl, tt)
            (apart_last k q.queue h open')),
    )
  ]
    where
      found : (find_prefix_of_key q.prefixes k).1 ≡ any (λ x. starts x k) q.queue
      found =
          (find_prefix_of_key_finds q.prefixes k v.shape).0
          ∙ sym (any-map (λ e. e.0) (λ x. starts x k) (entries q.prefixes))
          ∙ any_of_same (λ x. starts x k) (keys q.prefixes) q.queue v.tracked

  -- `Push` of one prefix does to the list of prefixes what its documentation promises, and keeps
  -- the invariant: the prefix takes the place of the first queued prefix that begins with it, and
  -- all others that do go; else it is dropped if a queued prefix begins it, and put last if none
  -- does. It never panics.
  pub push_one_refines :
      (q : PrefixQueue) (k : Key)
      → Inv q
      → (q' : PrefixQueue) × (push_one api q k ≡ some q') × (q'.queue ≡ pushed k q.queue) × Inv q'
  push_one_refines q k v = elim (Bool-cases (any (starts k) q.queue)) [
    | inl some_longer ↦ rw some_longer (push_superstrings q k v some_longer)
    | inr no_longer ↦ rw no_longer (push_absent q k v no_longer)
  ]

  -- `Push` of several prefixes, one after the other.
  pub push_refines :
      (q : PrefixQueue) (ks : List Key)
      → Inv q
      → (q' : PrefixQueue) × (push api q ks ≡ some q')
        × (q'.queue ≡ foldl (λ l k. pushed k l) q.queue ks)
        × Inv q'
  unfolding push
  push_refines q [] v = (q, refl, refl, v)
  push_refines q (k ∷ ks) v =
      let (q', run, done, v') = push_one_refines q k v in
      let (r, run', done', w) = push_refines q' ks v' in
      (r, rw (run, run'), done' ∙ ap (λ l. foldl (λ l k. pushed k l) l ks) done, w)

  -- `Pop` takes the front of the queue, and fails on the empty queue only; the rest keeps its order
  -- and the invariant.
  pub pop_refines :
      (q : PrefixQueue)
      → Inv q
      → let (q', prefix, ok) = pop api q in
        Inv q'
        × (((q.queue ≡ []) × (ok ≡ false) × (q' ≡ q))
            ⊎ ((q.queue ≡ prefix ∷ q'.queue) × (ok ≡ true)))
  unfolding pop
  pop_refines q v = front q.queue refl
    where
      front :
          (l : List Key)
          → q.queue ≡ l
          → let (q', prefix, ok) = pop_front api q l in
            Inv q'
            × (((q.queue ≡ []) × (ok ≡ false) × (q' ≡ q))
                ⊎ ((q.queue ≡ prefix ∷ q'.queue) × (ok ≡ true)))
      front [] e = (v, inl (e, refl, refl))
      front (k ∷ l) e = (
        record {
          shape = laws.remove-WellFormed k q.prefixes v.shape;
          tracked = λ x.
              laws.has-remove x k q.prefixes v.shape
              ∙ ap (λ b. not (key_eq x k) && b) (v.tracked x ∙ ap (any (key_eq x)) e)
              ∙ drop_front x k l (subst (Ordered apart) e v.disjoint).0;
          disjoint = (subst (Ordered apart) e v.disjoint).1;
        },
        inr (e, refl),
      )

  -- `Remove` takes every prefix that begins with the given one out of the queue, keeps the others
  -- in order with the invariant, and says whether there was one. It never panics.
  pub remove_refines :
      (q : PrefixQueue) (k : Key)
      → Inv q
      → (q' : PrefixQueue) × (remove api q k ≡ some (q', any (starts k) q.queue))
        × (q'.queue ≡ without k q.queue)
        × Inv q'
  unfolding remove
  remove_refines q k v = elim (Bool-cases (any (starts k) q.queue)) [
    | inl some_longer ↦
        let (i, is, first) = positions-any (starts k) q.queue some_longer in
        let (q', run, cut) = remove_superstrings_present api laws q k i is v first some_longer in
        (
          q',
          rw (run, some_longer),
          cut.queue,
          record {
            shape = cut.shape;
            tracked = λ x.
                cut.tracked x
                ∙ ap (λ b. not (starts k x) && b) (v.tracked x)
                ∙ sym (mem-select (λ z. not (starts k z)) x q.queue)
                ∙ ap (any (key_eq x)) (sym cut.queue);
            disjoint =
                subst (Ordered apart) (sym cut.queue)
                  (Ordered-select apart (λ z. not (starts k z)) q.queue v.disjoint);
          },
        )
    | inr no_longer ↦ (
      q,
      rw (remove_superstrings_absent api laws q k v no_longer, no_longer),
      sym (select-all (λ z. not (starts k z)) q.queue (all_not (starts k) q.queue no_longer)),
      v,
    )
  ]
    where
      all_not : (p : Key → Bool) (l : List Key) → any p l ≡ false → all (λ z. not (p z)) l ≡ true
      all_not p [] h = refl
      all_not p (x ∷ l) h = ground (arith, all_not p l)

covers_without :
    (x k : Key) (q : List Key)
    → starts k x || any (λ p. starts p x) (without k q) ≡ starts k x || any (λ p. starts p x) q
covers_without x k [] = refl
covers_without x k (z ∷ q) = ground (arith, covers_without x k q, starts_trans k z x)

covers_consolidate :
    (x k : Key) (q : List Key)
    → any (starts k) q ≡ true
    → any (λ p. starts p x) (consolidate k q) ≡ starts k x || any (λ p. starts p x) q
covers_consolidate x k [] h = cc
covers_consolidate x k (y ∷ q) h =
    ground (arith, covers_without x k q, starts_trans k y x, covers_consolidate x k q)

covers_extension :
    (x k : Key) (q : List Key)
    → any (λ p. starts p k) q ≡ true
    → starts k x ≡ true
    → any (λ p. starts p x) q ≡ true
covers_extension x k [] h s = cc
covers_extension x k (y ∷ q) h s = ground (arith, starts_trans y k x, covers_extension x k q)

-- Pushing a prefix adds to the keyspace that the queue covers exactly the keys under it: a key is
-- covered afterwards if and only if it begins with the new prefix or was covered before.
pub pushed_covers :
    (x k : Key) (q : List Key)
    → any (λ p. starts p x) (pushed k q) ≡ starts k x || any (λ p. starts p x) q
pushed_covers x k q = ground (
  arith,
  covers_consolidate x k q,
  covers_extension x k q,
  any-append (λ p. starts p x) q (k ∷ []),
)
