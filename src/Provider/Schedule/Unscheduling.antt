-- ===== src/Provider/Schedule/Unscheduling.antt =====
-- What `unscheduleSubsumedPrefixesNoLock` leaves of the schedule, the cursor and the timer.
use go_libp2p_hybrid_kad_dht.Prelude.{
  ℕ, ◌≡◌, ◌⊎◌, refl, sym, ◌∙◌, ap, true, false, ◌&&◌, not, Option, none, some, List, [], ◌∷◌, any,
  arith, Bool-cases, inl, inr, ℤ, pos, ◌>>=◌,
}
use go_libp2p_hybrid_kad_dht.Keyspace.Key.{Key, is_bitstr_prefix}
use go_libp2p_hybrid_kad_dht.Keyspace.Key.Prefixes.{starts, starts_trans, is_bitstr_prefix-starts}
use go_libp2p_hybrid_kad_dht.Keyspace.Trie.{
  Trie, empty_leaf, leaf, branches, is_empty_leaf, prune_subtrie,
}
use go_libp2p_hybrid_kad_dht.Keyspace.Trie.Shape.{entries, has}
use go_libp2p_hybrid_kad_dht.Keyspace.Trie.Prune.{outside, prune_subtrie-outside}
use go_libp2p_hybrid_kad_dht.Keyspace.Trie.Next.{next_non_empty_leaf}
use go_libp2p_hybrid_kad_dht.Keyspace.Trie.Present.{Finds, next_non_empty_leaf-Finds}
use go_libp2p_hybrid_kad_dht.Provider.Times.{Settings, time_until}
use go_libp2p_hybrid_kad_dht.Provider.Schedule.{
  Schedule, schedule_next_reprovide, select_next, unschedule_subsumed_prefixes,
}
use go_libp2p_hybrid_kad_dht.Provider.Schedule.Invariant.{
  Disjoint, Disjoint-Fits, has-entries, has-prune_subtrie, is_empty-prune_subtrie,
  prune_subtrie-Disjoint,
}

-- The prefixes are apart, and the cursor is at one of them.
pub record Inv (s : Settings) (p : Schedule) : Type 0 where
  pub apart : Disjoint s.order p.schedule
  pub armed : is_empty_leaf p.schedule ≡ false → has p.cursor p.schedule ≡ true

-- The cursor and the timer are as they were, or the timer was restarted now.
abbrev pub OnlyRestarted : ℕ → Schedule → Schedule → Type 0
OnlyRestarted now p p' =
    ((p'.cursor ≡ p.cursor) × (p'.timer ≡ p.timer) × (p'.timer_started_at ≡ p.timer_started_at))
    ⊎ (p'.timer_started_at ≡ now)

pub OnlyRestarted-trans :
    (now : ℕ) (p q r : Schedule)
    → OnlyRestarted now p q
    → OnlyRestarted now q r
    → OnlyRestarted now p r
OnlyRestarted-trans now p q r h (inr restarted) = inr restarted
OnlyRestarted-trans now p q r (inl same) (inl k) = inl (k.0 ∙ same.0, k.1 ∙ same.1, k.2 ∙ same.2)
OnlyRestarted-trans now p q r (inr restarted) (inl k) = inr (k.2 ∙ restarted)

module _ (s : Settings) (now : ℕ) (prefix : Key) where
  -- What `unscheduleSubsumedPrefixesNoLock` leaves: the trie, and the cursor at a prefix of it.
  pub record Unscheduled (p : Schedule) (t : Trie ℤ) (r : Option Schedule) : Type 0 where
    pub left : Schedule
    pub returned : r ≡ some left
    pub pruned : left.schedule ≡ t
    pub armed : is_empty_leaf t ≡ false → has left.cursor t ≡ true
    pub restarted : OnlyRestarted now p left

  -- No key that is left begins with a cursor that was pruned.
  gone_under :
      (cursor : Key) (es : List (Key × ℤ))
      → starts prefix cursor ≡ true
      → any (λ e. starts cursor e.0) (outside prefix es) ≡ false
  gone_under cursor [] h = refl
  gone_under cursor (e ∷ es) h =
      ground (arith, gone_under cursor es, starts_trans prefix cursor e.0)

  select_next-Unscheduled :
      (t : Trie ℤ) (p : Schedule) (found : Option (Option (Key × ℤ)))
      → p.schedule ≡ t
      → Finds t found
      → Unscheduled p t (found >>= λ next. some (select_next s now prefix next p))
  unfolding select_next
  select_next-Unscheduled t p none e f = absurd f
  select_next-Unscheduled t p (some none) e f = absurd f
  select_next-Unscheduled t p (some (some x)) e f = record {
    left = schedule_next_reprovide now x.0 (time_until s now x.1) p;
    returned = refl;
    pruned = e;
    armed = λ h. has-entries x.0 t ∙ f;
    restarted = inr refl;
  }

  -- The search from a cursor that was pruned.
  search-Unscheduled :
      (t : Trie ℤ) (p : Schedule)
      → p.schedule ≡ t
      → Disjoint s.order t
      → any (λ e. starts p.cursor e.0) (entries t) ≡ false
      → Unscheduled p t (
          next_non_empty_leaf t p.cursor s.order >>= λ next. some (select_next s now prefix next p))
  unfolding select_next next_non_empty_leaf
  search-Unscheduled empty_leaf p e d h = record {
    left = schedule_next_reprovide now prefix (pos s.reprovide_interval) p;
    returned = refl;
    pruned = e;
    armed = λ f. cc;
    restarted = inr refl;
  }
  search-Unscheduled (leaf k a) p e d h =
      select_next-Unscheduled (leaf k a) p (next_non_empty_leaf (leaf k a) p.cursor s.order) e (
        next_non_empty_leaf-Finds (leaf k a) p.cursor s.order d.shape
          (Disjoint-Fits s.order (leaf k a) d) refl h)
  search-Unscheduled (branches l r) p e d h =
      select_next-Unscheduled (branches l r) p (next_non_empty_leaf (branches l r) p.cursor s.order)
        e
        (next_non_empty_leaf-Finds (branches l r) p.cursor s.order d.shape
          (Disjoint-Fits s.order (branches l r) d) refl h)

  pub unschedule-Unscheduled :
      (p : Schedule)
      → Inv s p
      → Unscheduled p
          (prune_subtrie p.schedule prefix)
          (unschedule_subsumed_prefixes s now prefix p)
  unfolding unschedule_subsumed_prefixes
  unschedule-Unscheduled p i = elim (Bool-cases (is_bitstr_prefix prefix p.cursor)) [
    | inl under ↦
        let u =
          search-Unscheduled (prune_subtrie p.schedule prefix)
            (record p { schedule = prune_subtrie p.schedule prefix }) refl
            (prune_subtrie-Disjoint s.order p.schedule prefix i.apart)
            (ap (any (λ e. starts p.cursor e.0))
                (prune_subtrie-outside p.schedule prefix i.apart.shape).0
              ∙ gone_under p.cursor (entries p.schedule)
                  (sym (is_bitstr_prefix-starts prefix p.cursor) ∙ under)) in
        rw under (record {
          left = u.left;
          returned = u.returned;
          pruned = u.pruned;
          armed = u.armed;
          restarted = u.restarted;
        })
    | inr other ↦ rw other (record {
      left = record p { schedule = prune_subtrie p.schedule prefix };
      returned = refl;
      pruned = refl;
      armed = λ h.
          has-prune_subtrie p.schedule prefix p.cursor i.apart.shape
          ∙ ap (λ b. not b && has p.cursor p.schedule)
              (sym (is_bitstr_prefix-starts prefix p.cursor) ∙ other)
          ∙ i.armed (is_empty-prune_subtrie p.schedule prefix h);
      restarted = inl (refl, refl, refl);
    })
  ]
