-- ===== src/Tests/Provider.antt =====
-- The schedule of the sweeping provider, at concrete inputs.
use go_libp2p_hybrid_kad_dht.Prelude.{
  ℕ, ◌≤◌, ◌<◌, ◌≡◌, refl, ◌⊎◌, Bool, true, false, ◌&&◌, ◌||◌, not, Option, some, List, [], ◌∷◌,
  ◌++◌, any, all, replicate, Ordered, arith, ℤ, pos, negsuc,
}
use go_libp2p_hybrid_kad_dht.Keyspace.Key.{Key, bit, key_eq}
use go_libp2p_hybrid_kad_dht.Keyspace.Key.Prefixes.{starts}
use go_libp2p_hybrid_kad_dht.Keyspace.Trie.{Trie, empty_leaf, leaf, branches, all_entries}
use go_libp2p_hybrid_kad_dht.Keyspace.Trie.Shape.{has}
use go_libp2p_hybrid_kad_dht.Keyspace.Trie.Next.{next_non_empty_leaf}
use go_libp2p_hybrid_kad_dht.Keyspace.Trie.After.{head?, after}
use go_libp2p_hybrid_kad_dht.Keyspace.Trie.Following.{next_non_empty_leaf_follows}
use go_libp2p_hybrid_kad_dht.Keyspace.Trie.Reference.{
  reference, reference-TrieLaws, reference-add_empty,
}
use go_libp2p_hybrid_kad_dht.Keyspace.Regions.{Region}
use go_libp2p_hybrid_kad_dht.Queue.Prefix.{new_queue}
use go_libp2p_hybrid_kad_dht.Queue.Prefix.Invariant as queue
use go_libp2p_hybrid_kad_dht.Provider.Times.{Settings, reprovide_time_for_prefix}
use go_libp2p_hybrid_kad_dht.Provider.Times.Bounds.{
  reprovide_time_for_prefix-Ordered, reprovide_time_for_prefix_wraps,
}
use go_libp2p_hybrid_kad_dht.Provider.Schedule.{Schedule, schedule_prefix}
use go_libp2p_hybrid_kad_dht.Provider.Schedule.Invariant.{Disjoint, empty-Disjoint, leaf-Disjoint}
use go_libp2p_hybrid_kad_dht.Provider.Schedule.Unscheduling.{Inv, OnlyRestarted}
use go_libp2p_hybrid_kad_dht.Provider.Schedule.Scheduling.{schedule_prefix-Inv}
use go_libp2p_hybrid_kad_dht.Provider.Schedule.Delay.{schedule_prefix_unbounded}
use go_libp2p_hybrid_kad_dht.Provider.Reprovide.{Sweeper, handle_reprovide}
use go_libp2p_hybrid_kad_dht.Provider.Reprovide.Due.{covers, handle_reprovide-Accounted}
use go_libp2p_hybrid_kad_dht.Provider.Claims.{claim_region_reprovide}
use go_libp2p_hybrid_kad_dht.Provider.Claims.Exclusive.{
  is_active, populated, claims, not_within, claim_region_reprovide_excludes,
}

abbrev o : Bool
o = false

abbrev i : Bool
i = true

abbrev order : Key
order = replicate 24 false

abbrev settings : Settings
settings = record {
  order = order;
  reprovide_interval = 1000;
  max_reprovide_delay = 10;
  cycle_start = 5;
}

abbrev trie : Trie ℤ
trie =
    branches (leaf (o ∷ []) (pos 0))
      (branches (leaf (i ∷ o ∷ []) (pos 500)) (leaf (i ∷ i ∷ []) (pos 750)))

-- After the last region comes the first one.
next_non_empty_leaf_follows_example :
    next_non_empty_leaf trie (i ∷ i ∷ []) order
    ≡ some
        (head? (after (i ∷ i ∷ []) (all_entries trie (bit order)) ++ all_entries trie (bit order)))
next_non_empty_leaf_follows_example =
    next_non_empty_leaf_follows trie (i ∷ i ∷ []) order (refl, (refl, refl, refl), refl) refl refl

reprovide_time_for_prefix-Ordered_example :
    (t : ℕ) × (u : ℕ) × (reprovide_time_for_prefix settings (o ∷ i ∷ []) ≡ pos t)
    × (reprovide_time_for_prefix settings (i ∷ []) ≡ pos u)
    × (t ≤ u)
    × (u < 1000)
reprovide_time_for_prefix-Ordered_example =
    reprovide_time_for_prefix-Ordered settings (o ∷ i ∷ []) (i ∷ []) (omega arith)
      (omega arith, omega arith) (omega arith) (omega arith) (omega arith) refl refl

time_run : reprovide_time_for_prefix settings (i ∷ o ∷ i ∷ []) ≡ pos 625
unfolding reprovide_time_for_prefix
time_run = refl

-- An interval of 22 hours, and a prefix of 17 bits far from the order.
abbrev default_settings : Settings
default_settings = record {
  order = order;
  reprovide_interval = 79_200_000_000_000;
  max_reprovide_delay = 3_600_000_000_000;
  cycle_start = 0;
}

reprovide_time_for_prefix_wraps_example :
    (m : ℕ) × (reprovide_time_for_prefix default_settings (replicate 17 true) ≡ negsuc m)
reprovide_time_for_prefix_wraps_example =
    reprovide_time_for_prefix_wraps default_settings (replicate 17 true) (omega arith) (omega arith)
      (omega arith) (omega arith)

abbrev find : Trie ℤ → Key → Bool × ℤ
find t k = (false, pos 0)

abbrev single : Schedule
single = record {
  schedule = leaf (o ∷ []) (pos 0);
  cursor = o ∷ [];
  timer = pos 10;
  timer_started_at = 7;
}

single-Inv : Inv settings single
single-Inv = record { apart = leaf-Disjoint order (o ∷ []) (pos 0) refl; armed = λ e. refl }

schedule_prefix-Inv_example :
    (p' : Schedule) × (schedule_prefix reference find settings 20 (i ∷ []) false single ≡ some p')
    × Inv settings p'
    × (((false ≡ true) × (p' ≡ single))
        ⊎ ((false ≡ false)
            × ((x : Key)
                → has x p'.schedule
                  ≡ key_eq x (i ∷ []) || (not (starts (i ∷ []) x) && has x single.schedule))
            × OnlyRestarted 20 single p'))
schedule_prefix-Inv_example =
    schedule_prefix-Inv reference reference-TrieLaws find settings 20 reference-add_empty (i ∷ [])
      false single refl single-Inv

schedule_prefix_unbounded_example :
    schedule_prefix reference find settings 20 (i ∷ []) true single
    ≡ schedule_prefix reference find settings 20 (i ∷ []) false single
schedule_prefix_unbounded_example =
    schedule_prefix_unbounded reference find settings 20 (i ∷ []) single (omega arith) (omega arith)
      (omega arith) (omega arith) (omega arith)

handle_reprovide-Accounted_example :
    (r : Sweeper × Option Key) × (handle_reprovide reference settings 20 false false
        (record { plan = single; late = new_queue })
      ≡ some r)
    × Inv settings r.0.plan
    × (r.0.plan.schedule ≡ single.schedule)
    × queue.Inv r.0.late
    × ((r.1 ≡ some (o ∷ [])) ⊎ (false ≡ true) ⊎ (covers (o ∷ []) r.0.late ≡ true))
handle_reprovide-Accounted_example =
    handle_reprovide-Accounted reference reference-TrieLaws settings 20 single single-Inv false
      false new_queue refl queue.new_queue-Inv

abbrev regions : List (Region ℕ ℕ)
regions =
    record { prefix = o ∷ []; peers = leaf (o ∷ i ∷ []) 1; keys = empty_leaf }
    ∷ record { prefix = i ∷ []; peers = empty_leaf; keys = empty_leaf }
    ∷ record { prefix = o ∷ []; peers = leaf (o ∷ i ∷ []) 1; keys = empty_leaf }
    ∷ []

-- The region 0 is claimed once, though it is there twice.
claims_run :
    claims (λ x. false) regions
    ≡ record { prefix = o ∷ []; peers = leaf (o ∷ i ∷ []) 1; keys = empty_leaf } ∷ []
claims_run = refl

claim_region_reprovide_excludes_example :
    let (out, active') = claim_region_reprovide reference regions empty_leaf in
    Disjoint order active'
    × (out ≡ claims (λ x. is_active x empty_leaf) regions)
    × Ordered not_within out
    × (all (λ r. populated r && not (is_active r.prefix empty_leaf)) out ≡ true)
    × ((x : Key)
        → is_active x active'
          ≡ any (λ r. populated r && starts r.prefix x) regions || is_active x empty_leaf)
claim_region_reprovide_excludes_example =
    claim_region_reprovide_excludes reference reference-TrieLaws order regions empty_leaf refl
      (empty-Disjoint order)
