-- ===== src/Provider/Reprovide/Due.antt =====
-- `handleReprovide`: what becomes of the region that is due.
use go_libp2p_hybrid_kad_dht.Prelude.{
  ℕ, zero, suc, ◌≡◌, refl, ◌∙◌, ap, ◌⊎◌, inl, inr, Bool, true, false, ◌&&◌, ◌||◌, not, Option, none,
  some, List, [], ◌∷◌, any, all, length, ◌==◌, arith, or-left, and-left, and-right, Bool-cases, ℤ,
  pos, ltb_ℤ, if◌then◌else◌, ltb, ◌+◌,
}
use go_libp2p_hybrid_kad_dht.Keyspace.Key.{Key, bit, key_eq}
use go_libp2p_hybrid_kad_dht.Keyspace.Key.Prefixes.{starts, starts_refl}
use go_libp2p_hybrid_kad_dht.Keyspace.Trie.{size, is_empty_leaf, all_entries}
use go_libp2p_hybrid_kad_dht.Keyspace.Trie.Shape.{has}
use go_libp2p_hybrid_kad_dht.Keyspace.Trie.Following.{next_non_empty_leaf-some}
use go_libp2p_hybrid_kad_dht.Keyspace.Trie.Api.{TrieApi, TrieLaws}
use go_libp2p_hybrid_kad_dht.Queue.Prefix.{PrefixQueue, push_one}
use go_libp2p_hybrid_kad_dht.Queue.Prefix.Refines.{push_one_refines, pushed_covers, remove_refines}
use go_libp2p_hybrid_kad_dht.Queue.Prefix.Invariant as queue
use go_libp2p_hybrid_kad_dht.Provider.Times.{
  Settings, time_offset, time_between, time_until, reprovide_time_for_prefix,
}
use go_libp2p_hybrid_kad_dht.Provider.Schedule.{Schedule, schedule_next_reprovide}
use go_libp2p_hybrid_kad_dht.Provider.Schedule.Invariant.{
  Disjoint-Fits, all_entries-has, all_entries-covers,
}
use go_libp2p_hybrid_kad_dht.Provider.Schedule.Unscheduling.{Inv}
use go_libp2p_hybrid_kad_dht.Provider.Reprovide.{
  Sweeper, Catchup, enqueue_entry, enqueue_entries, skip_past, start_region, reprovide_several,
  handle_reprovide,
}

-- A key is under a prefix of the queue.
abbrev pub covers : Key → PrefixQueue → Bool
covers x q = any (λ k. starts k x) q.queue

module _ (api : TrieApi (Unit {0})) (laws : TrieLaws api) (s : Settings) (now : ℕ) where
  push_one-covers :
      (q : PrefixQueue) (k : Key)
      → queue.Inv q
      → (q' : PrefixQueue) × (push_one api q k ≡ some q')
        × queue.Inv q'
        × ((x : Key) → covers x q' ≡ starts k x || covers x q)
  push_one-covers q k v =
      let (q', run, listed, v') = push_one_refines api laws q k v in
      (q', run, v', λ x. ap (any (λ p. starts p x)) listed ∙ pushed_covers x k q.queue)

  module _ (p : Key × ℤ → Bool) where
    -- The entry chosen so far passes the test.
    abbrev chosen : Catchup → Bool
    chosen c = c.first || p c.next_entry

    enqueue_entry_lem :
        (e : Key × ℤ) (c : Catchup)
        → queue.Inv c.queue
        → p e ≡ true
        → chosen c ≡ true
        → (c' : Catchup) × (enqueue_entry api s now e c ≡ some c')
          × queue.Inv c'.queue
          × ((x : Key) → covers x c'.queue ≡ starts e.0 x || covers x c.queue)
          × (chosen c' ≡ true)
          × (c'.first ≡ false)
    unfolding enqueue_entry
    enqueue_entry_lem e c v h g =
        let (q', run, v', covered) = push_one-covers c.queue e.0 v in
        (
          record {
            queue = q';
            next_entry =
                if not c.found && ltb_ℤ (time_offset s now) e.1
                then e
                else if c.first
                then e
                else c.next_entry;
            first = false;
            found = if not c.found && ltb_ℤ (time_offset s now) e.1 then true else c.found;
          },
          rw run refl,
          v',
          covered,
          chooses (not c.found && ltb_ℤ (time_offset s now) e.1) c.first h g,
          refl,
        )
      where
        chooses :
            (a b : Bool)
            → p e ≡ true
            → b || p c.next_entry ≡ true
            → p (if a then e else if b then e else c.next_entry) ≡ true
        chooses true b h g = h
        chooses false true h g = h
        chooses false false h g = g

    enqueue_entries_lem :
        (es : List (Key × ℤ)) (c : Catchup)
        → queue.Inv c.queue
        → all p es ≡ true
        → chosen c ≡ true
        → (c' : Catchup) × (enqueue_entries api s now es c ≡ some c')
          × queue.Inv c'.queue
          × ((x : Key) → covers x c'.queue ≡ any (λ e. starts e.0 x) es || covers x c.queue)
          × (chosen c' ≡ true)
          × (c'.first ≡ (length es == 0) && c.first)
    unfolding enqueue_entries
    enqueue_entries_lem [] c v h g = (c, refl, v, λ x. refl, g, refl)
    enqueue_entries_lem (e ∷ es) c v h g =
        let (c', run, v', covered, g', f') =
          enqueue_entry_lem e c v (and-left (p e) (all p es) h) g in
        let (c'', run', v'', covered', g'', f'') =
          enqueue_entries_lem es c' v' (and-right (p e) (all p es) h) g' in
        (
          c'',
          rw (run, run') refl,
          v'',
          λ x.
              covered' x
              ∙ ap (◌||◌ (any (λ e. starts e.0 x) es)) (covered x)
              ∙ regroup (any (λ e. starts e.0 x) es) (starts e.0 x) (covers x c.queue),
          g'',
          f'' ∙ ap (◌&&◌ (length es == 0)) f' ∙ first_gone (length es) c.first,
        )
      where
        regroup : (a b c : Bool) → a || (b || c) ≡ (b || a) || c
        regroup a b c = ground arith

        first_gone : (n : ℕ) (f : Bool) → (n == 0) && false ≡ (suc n == 0) && f
        first_gone n f = ground arith

  module _ (p : Schedule) (inv : Inv s p) where
    -- The entries passed over join the queue, and the entry that is left is one of the schedule.
    skip_past_lem :
        (n : ℕ) (next : Key × ℤ) (q : PrefixQueue)
        → has next.0 p.schedule ≡ true
        → queue.Inv q
        → (next' : Key × ℤ) × (q' : PrefixQueue) × (skip_past api s now p n next q
            ≡ some (next', q'))
          × (has next'.0 p.schedule ≡ true)
          × queue.Inv q'
    unfolding skip_past
    skip_past_lem zero next q h v = (next, q, refl, h, v)
    skip_past_lem (suc n) next q h v =
        elim (Bool-cases (
          ltb_ℤ (time_between s (time_offset s p.timer_started_at) next.1)
            (time_between s (time_offset s p.timer_started_at) (time_offset s now)))) [
              | inl past ↦
                  let (q', run, v', covered) = push_one-covers q next.0 v in
                  let (e, found, there) =
                    next_non_empty_leaf-some p.schedule next.0 s.order inv.apart.shape
                      (Disjoint-Fits s.order p.schedule inv.apart) h in
                  let (next', q'', run', h', v'') = skip_past_lem n e q' there v' in
                  (next', q'', rw (past, run, found) run', h', v'')
              | inr future ↦ (next, q, rw future refl, h, v)
            ]

    -- What becomes of a region: its reprovide is started, the provider is closed, or the region is
    -- queued.
    abbrev pub Accounted : Bool → Key → Sweeper × Option Key → Type 0
    Accounted closed current r =
        (r.1 ≡ some current) ⊎ (closed ≡ true) ⊎ (covers current r.0.late ≡ true)

    -- What the call returns, for a region that was at the cursor.
    abbrev Handled : Bool → Option (Sweeper × Option Key) → Type 0
    Handled closed result =
        (r : Sweeper × Option Key) × (result ≡ some r)
        × Inv s r.0.plan
        × (r.0.plan.schedule ≡ p.schedule)
        × queue.Inv r.0.late
        × Accounted closed p.cursor r

    moved_to :
        (k : Key) (d : ℤ) → has k p.schedule ≡ true → Inv s (schedule_next_reprovide now k d p)
    unfolding schedule_next_reprovide
    moved_to k d h = record { apart = inv.apart; armed = λ e. h }

    start_region_lem :
        (online closed : Bool) (k : Key) (d : ℤ) (q : PrefixQueue)
        → has k p.schedule ≡ true
        → queue.Inv q
        → Handled closed (start_region api s now online closed p.cursor k d q p)
    unfolding start_region
    start_region_lem false closed k d q h v =
        let (q', run, v', covered) = push_one-covers q p.cursor v in
        (
          (record { plan = schedule_next_reprovide now k d p; late = q' }, none),
          rw run refl,
          moved_to k d h,
          refl,
          v',
          inr (inr (covered p.cursor ∙ or-left _ _ (starts_refl p.cursor))),
        )
    start_region_lem true true k d q h v =
        let (q', run, listed, v') = remove_refines api laws q p.cursor v in
        (
          (record { plan = schedule_next_reprovide now k d p; late = q' }, none),
          rw run refl,
          moved_to k d h,
          refl,
          v',
          inr (inl refl),
        )
    start_region_lem true false k d q h v =
        let (q', run, listed, v') = remove_refines api laws q p.cursor v in
        (
          (record { plan = schedule_next_reprovide now k d p; late = q' }, some p.cursor),
          rw run refl,
          moved_to k d h,
          refl,
          v',
          inl refl,
        )

    several_lem :
        (online closed : Bool) (next : Key × ℤ) (q : PrefixQueue)
        → has p.cursor p.schedule ≡ true
        → has next.0 p.schedule ≡ true
        → queue.Inv q
        → Handled closed
            (reprovide_several api s now online closed next (record { plan = p; late = q }))
    unfolding reprovide_several
    several_lem online closed next q c h v =
        elim (Bool-cases (ltb (p.timer_started_at + s.reprovide_interval) now)) [
          | inl stale ↦
              let es = all_entries p.schedule (bit s.order) in
              let (c', run, v', covered, member, first) =
                enqueue_entries_lem (λ e. has e.0 p.schedule) es
                  (record { queue = q; next_entry = ([], pos 0); first = true; found = false }) v
                  (all_entries-has p.schedule (bit s.order)) refl in
              let listed = all_entries-covers p.cursor p.schedule (bit s.order) c in
              let some_entry = first ∙ ap (λ b. b && true) listed.1 in
              (
                (
                  record {
                    plan =
                        schedule_next_reprovide now c'.next_entry.0
                          (time_until s now c'.next_entry.1) p;
                    late = c'.queue;
                  },
                  none,
                ),
                rw (stale, run) refl,
                moved_to c'.next_entry.0 (time_until s now c'.next_entry.1)
                    (entry_of (c'.first) (has c'.next_entry.0 p.schedule) some_entry member),
                refl,
                v',
                inr (inr (covered p.cursor ∙ or-left _ _ listed.0)),
              )
          | inr timely ↦
              let (next', q', run, h', v') = skip_past_lem (size p.schedule) next q h v in
              let (r, run', i', same, w', due) =
                start_region_lem online closed next'.0 (time_until s now next'.1) q' h' v' in
              (r, rw (timely, run) run', i', same, w', due)
        ]
      where
        entry_of : (f h : Bool) → f ≡ false → f || h ≡ true → h ≡ true
        entry_of f h e g = ground arith

    -- The trie library keeps the documented laws. Let no prefix of the schedule begin another or be
    -- longer than the order, let the cursor be at a prefix of the schedule, which is not empty, and
    -- let the queue of late regions be valid. Then `handleReprovide` does not panic, keeps all of
    -- this and the schedule, and the region at the cursor is not lost: its reprovide is started, the
    -- provider is closed, or the queue of late regions covers it.
    pub handle_reprovide-Accounted :
        (online closed : Bool) (late : PrefixQueue)
        → is_empty_leaf p.schedule ≡ false
        → queue.Inv late
        → (r : Sweeper × Option Key) × (handle_reprovide api s now online closed
              (record { plan = p; late = late })
            ≡ some r)
          × Inv s r.0.plan
          × (r.0.plan.schedule ≡ p.schedule)
          × queue.Inv r.0.late
          × Accounted closed p.cursor r
    unfolding handle_reprovide
    handle_reprovide-Accounted online closed late full v =
        let c = inv.armed full in
        let (e, found, there) =
          next_non_empty_leaf-some p.schedule p.cursor s.order inv.apart.shape
            (Disjoint-Fits s.order p.schedule inv.apart) c in
        rw found (elim (Bool-cases (key_eq e.0 p.cursor)) [
          | inl alone ↦ rw alone (
              start_region_lem online closed p.cursor
                (time_until s now (reprovide_time_for_prefix s p.cursor)) late c v)
          | inr others ↦ rw others (several_lem online closed e late c there v)
        ])
