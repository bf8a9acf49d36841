-- ===== src/Provider/Schedule/Scheduling.antt =====
-- What `schedulePrefixNoLock` keeps and adds.
use go_libp2p_hybrid_kad_dht.Prelude.{
  ℕ, ◌≡◌, ◌⊎◌, refl, sym, ◌∙◌, ap, Bool, true, false, ◌&&◌, ◌||◌, not, Option, some, any, length,
  leb, or-left, or-right, any-map, Bool-cases, inl, inr, ℤ, subst, ltb_ℤ, rem,
}
use go_libp2p_hybrid_kad_dht.Keyspace.Key.{Key, key_eq}
use go_libp2p_hybrid_kad_dht.Keyspace.Key.Prefixes.{starts, key_eq_refl}
use go_libp2p_hybrid_kad_dht.Keyspace.Trie.{Trie, empty_leaf, leaf, branches, is_empty_leaf}
use go_libp2p_hybrid_kad_dht.Keyspace.Trie.Shape.{entries, keys, has}
use go_libp2p_hybrid_kad_dht.Keyspace.Trie.Find.{find_prefix_of_key_finds}
use go_libp2p_hybrid_kad_dht.Keyspace.Trie.Following.{next_non_empty_leaf-some}
use go_libp2p_hybrid_kad_dht.Keyspace.Trie.Api.{TrieApi, TrieLaws, IsFree}
use go_libp2p_hybrid_kad_dht.Provider.Times.{Settings, time_until}
use go_libp2p_hybrid_kad_dht.Provider.Schedule.{
  Schedule, is_non_empty_leaf, schedule_next_reprovide, move_cursor, add_to_schedule,
  next_reprovide_time, schedule_prefix,
}
use go_libp2p_hybrid_kad_dht.Provider.Schedule.Unscheduling.{
  Inv, OnlyRestarted, OnlyRestarted-trans, unschedule-Unscheduled,
}
use go_libp2p_hybrid_kad_dht.Provider.Schedule.Invariant.{
  Disjoint, Disjoint-Fits, has-prune_subtrie, prune_subtrie-Disjoint, prune_subtrie-IsFree,
  add-Disjoint,
}

module _ (api : TrieApi ℤ) (laws : TrieLaws api) (find : Trie ℤ → Key → Bool × ℤ) (s : Settings)
    (now : ℕ) (add-empty : (k : Key) (d : ℤ) → api.add k d empty_leaf ≡ leaf k d) where
  -- The schedule after the insertion of a prefix that is free.
  record Added (prefix : Key) (p : Schedule) (r : Option Schedule) : Type 0 where
    left : Schedule
    returned : r ≡ some left
    inv : Inv s left
    added : (x : Key) → has x left.schedule ≡ key_eq x prefix || has x p.schedule
    restarted : OnlyRestarted now p left

  -- The move keeps the trie, and goes to the prefix if anywhere.
  move_cursor_lem :
      (prefix : Key) (d : ℤ) (k : Key) (p : Schedule) (t : Trie ℤ)
      → p.schedule ≡ t
      → has prefix t ≡ true
      → has p.cursor t ≡ true
      → ((move_cursor api find s now prefix d k p).schedule ≡ t)
        × (has (move_cursor api find s now prefix d k p).cursor t ≡ true)
        × OnlyRestarted now p (move_cursor api find s now prefix d k p)
  unfolding move_cursor
  move_cursor_lem prefix d k p t e h g = elim (Bool-cases (key_eq k p.cursor)) [
    | inl same ↦
        rw same
          (elim (Bool-cases (
            ltb_ℤ (time_until s now d)
              (rem (time_until s now (find p.schedule p.cursor).1) s.reprovide_interval))) [
                | inl earlier ↦ rw earlier (e, h, inr refl)
                | inr later ↦ rw later (e, g, inl (refl, refl, refl))
              ])
    | inr other ↦ rw other (e, g, inl (refl, refl, refl))
  ]

  -- A trie that did not become a single leaf was not empty.
  held :
      (k : Key) (d : ℤ) (t : Trie ℤ)
      → is_non_empty_leaf (api.add k d t) ≡ false
      → is_empty_leaf t ≡ false
  held k d empty_leaf h = cc (ap is_non_empty_leaf (add-empty k d))
  held k d (leaf k' d') h = refl
  held k d (branches l r) h = refl

  add-Added :
      (prefix : Key) (d : ℤ) (p : Schedule)
      → leb (length prefix) (length s.order) ≡ true
      → Disjoint s.order p.schedule
      → (is_empty_leaf p.schedule ≡ false → has p.cursor p.schedule ≡ true)
      → IsFree prefix p.schedule
      → Added prefix p (add_to_schedule api find s now prefix d p)
  unfolding add_to_schedule
  add-Added prefix d p l i a f = elim (Bool-cases (is_non_empty_leaf added)) [
    | inl single ↦ rw single (record {
      left =
          schedule_next_reprovide now prefix (time_until s now d) (record p { schedule = added });
      returned = refl;
      inv = record { apart = kept; armed = λ h. present };
      added = λ x. laws.has-add x prefix d p.schedule i.shape f;
      restarted = inr refl;
    })
    | inr several ↦
        let (e, found, there) =
          next_non_empty_leaf-some added prefix s.order kept.shape
            (Disjoint-Fits s.order added kept) present in
        let moved =
          move_cursor_lem prefix d e.0 (record p { schedule = added }) added refl present
            (still several) in
        rw (several, found)
          (record {
            left = move_cursor api find s now prefix d e.0 (record p { schedule = added });
            returned = refl;
            inv = record {
              apart = subst (Disjoint s.order) (sym moved.0) kept;
              armed = λ h.
                  ap
                    (has
                      (move_cursor api find s now prefix d e.0
                        (record p { schedule = added })).cursor)
                    moved.0
                  ∙ moved.1;
            };
            added = λ x. ap (has x) moved.0 ∙ laws.has-add x prefix d p.schedule i.shape f;
            restarted = moved.2;
          })
  ]
    where
      added : Trie ℤ
      added = api.add prefix d p.schedule

      kept : Disjoint s.order added
      kept = add-Disjoint api laws s.order prefix d p.schedule l f i

      present : has prefix added ≡ true
      present = laws.has-add prefix prefix d p.schedule i.shape f ∙ or-left _ _ (key_eq_refl prefix)

      -- A trie that is not a single leaf held a prefix before, and so the cursor.
      still : is_non_empty_leaf added ≡ false → has p.cursor added ≡ true
      still h =
          laws.has-add p.cursor prefix d p.schedule i.shape f
          ∙ or-right _ _ (a (held prefix d p.schedule h))

  -- The trie library's `Add` on an empty trie makes a leaf. Let no prefix of the schedule begin
  -- another or be longer than the order, let the cursor be at a prefix if there is one, and let the
  -- new prefix be no longer than the order. Then `schedulePrefixNoLock` does not panic, and all
  -- this holds afterwards, also that the cursor is at a prefix. A prefix that the schedule covers
  -- leaves the schedule, the cursor and the timer as they were; any other is added, and replaces
  -- exactly the prefixes that it begins, and the cursor and the timer are as they were unless the
  -- timer was restarted now.
  pub schedule_prefix-Inv :
      (prefix : Key) (just_reprovided : Bool) (p : Schedule)
      → leb (length prefix) (length s.order) ≡ true
      → Inv s p
      → (p' : Schedule) × (schedule_prefix api find s now prefix just_reprovided p ≡ some p')
        × Inv s p'
        × (((any (λ k. starts k prefix) (keys p.schedule) ≡ true) × (p' ≡ p))
            ⊎ ((any (λ k. starts k prefix) (keys p.schedule) ≡ false)
                × ((x : Key)
                    → has x p'.schedule
                      ≡ key_eq x prefix || (not (starts prefix x) && has x p.schedule))
                × OnlyRestarted now p p'))
  unfolding schedule_prefix
  schedule_prefix-Inv prefix just p l i =
      let covered =
        (find_prefix_of_key_finds p.schedule prefix i.apart.shape).0
        ∙ sym (any-map (λ e. e.0) (λ k. starts k prefix) (entries p.schedule)) in
      elim (Bool-cases (any (λ k. starts k prefix) (keys p.schedule))) [
        | inl old ↦ (p, rw (covered ∙ old) refl, i, inl (old, refl))
        | inr new ↦
            let un = unschedule-Unscheduled s now prefix p i in
            let add =
              add-Added prefix (next_reprovide_time api find s now prefix just) un.left l
                (subst (Disjoint s.order) (sym un.pruned)
                  (prune_subtrie-Disjoint s.order p.schedule prefix i.apart))
                (subst (λ t. is_empty_leaf t ≡ false → has un.left.cursor t ≡ true) (sym un.pruned)
                  un.armed)
                (subst (IsFree prefix) (sym un.pruned) (
                  prune_subtrie-IsFree prefix p.schedule i.apart.shape (
                    sym (any-map (λ e. e.0) (λ k. starts k prefix) (entries p.schedule)) ∙ new))) in
            (
              add.left,
              rw (covered ∙ new, un.returned) add.returned,
              add.inv,
              inr (
                new,
                (λ x.
                    add.added x
                    ∙ ap (λ t. key_eq x prefix || has x t) un.pruned
                    ∙ ap (◌||◌ (key_eq x prefix))
                        (has-prune_subtrie p.schedule prefix x i.apart.shape)),
                OnlyRestarted-trans now p un.left add.left un.restarted add.restarted,
              ),
            )
      ]
