-- ===== src/Provider/Reprovide.antt =====
-- provider/provider.go: `handleReprovide`, which runs when the timer of the schedule fires.
--
-- The clock is read once, at the time `now`. `none` is a panic.
pub mod Due
use go_libp2p_hybrid_kad_dht.Prelude.{
  ℕ, zero, suc, ◌+◌, Bool, true, false, ◌&&◌, not, Option, none, some, List, [], ◌∷◌, ltb,
  if◌then◌else◌, ◌>>=◌, ℤ, ltb_ℤ, pos,
}
use go_libp2p_hybrid_kad_dht.Keyspace.Key.{Key, bit, key_eq}
use go_libp2p_hybrid_kad_dht.Keyspace.Trie.{Trie, size, all_entries}
use go_libp2p_hybrid_kad_dht.Keyspace.Trie.Next.{next_non_empty_leaf}
use go_libp2p_hybrid_kad_dht.Keyspace.Trie.Api.{TrieApi}
use go_libp2p_hybrid_kad_dht.Queue.Prefix.{PrefixQueue, push_one, remove}
use go_libp2p_hybrid_kad_dht.Provider.Times.{
  Settings, time_offset, time_between, time_until, reprovide_time_for_prefix,
}
use go_libp2p_hybrid_kad_dht.Provider.Schedule.{Schedule, schedule_next_reprovide}

-- The schedule and the queue of late regions.
pub record Sweeper : Type 0 where
  pub plan : Schedule
  pub late : PrefixQueue

-- The loop over the entries of a schedule that is a whole interval late: the queue, and the next
-- entry, which is the first one (`first`) until one after the current offset is found (`found`).
pub record Catchup : Type 0 where
  pub queue : PrefixQueue
  pub next_entry : Key × ℤ
  pub first : Bool
  pub found : Bool

module _ (api : TrieApi (Unit {0})) (s : Settings) (now : ℕ) where
  unfoldable pub enqueue_entry : Key × ℤ → Catchup → Option Catchup
  enqueue_entry entry c =
      let next_entry = if c.first then entry else c.next_entry in
      let after_offset = not c.found && ltb_ℤ (time_offset s now) entry.1 in
      push_one api c.queue entry.0 >>= λ queue. some (record {
        queue = queue;
        next_entry = if after_offset then entry else next_entry;
        first = false;
        found = if after_offset then true else c.found;
      })

  unfoldable pub enqueue_entries : List (Key × ℤ) → Catchup → Option Catchup
  unfolding enqueue_entry
  enqueue_entries [] c = some c
  enqueue_entries (entry ∷ entries) c = enqueue_entry entry c >>= enqueue_entries entries

  -- The loop over the entries in the past; `n` rounds are left until `count` is the size.
  unfoldable pub skip_past : Schedule → ℕ → Key × ℤ → PrefixQueue → Option ((Key × ℤ) × PrefixQueue)
  skip_past p zero next queue = some (next, queue)
  skip_past p (suc n) next queue =
      let started = time_offset s p.timer_started_at in
      let running = time_between s started (time_offset s now) in
      let skip : Option ((Key × ℤ) × PrefixQueue) = push_one api queue next.0 >>= λ queue'.
      next_non_empty_leaf p.schedule next.0 s.order >>= (λ following. following) >>= λ next'.
      skip_past p n next' queue' in
      if ltb_ℤ (time_between s started next.1) running then skip else some (next, queue)

  -- The end of `handleReprovide`: the next alarm is set, and the region at the old cursor starts.
  unfoldable pub start_region :
      Bool → Bool → Key → Key → ℤ → PrefixQueue → Schedule → Option (Sweeper × Option Key)
  unfolding schedule_next_reprovide
  start_region online closed current next_prefix time_until_next queue p =
      let plan = schedule_next_reprovide now next_prefix time_until_next p in
      if not online
      then push_one api queue current
        >>= (λ queue'. some (record { plan = plan; late = queue' }, none))
      else remove api queue current >>= (λ (queue', was_queued).
        some (record { plan = plan; late = queue' }, if closed then none else some current))

  -- The branch of a schedule with several regions, or with a late one.
  unfoldable pub reprovide_several : Bool → Bool → Key × ℤ → Sweeper → Option (Sweeper × Option Key)
  unfolding enqueue_entries skip_past start_region schedule_next_reprovide
  reprovide_several online closed next w =
      let started = w.plan.timer_started_at in
      let catchup =
        enqueue_entries (all_entries w.plan.schedule (bit s.order))
          (record { queue = w.late; next_entry = ([], pos 0); first = true; found = false }) in
      let restart : Option (Sweeper × Option Key) = catchup >>= λ c. some (
        record {
          plan =
              schedule_next_reprovide now c.next_entry.0 (time_until s now c.next_entry.1) w.plan;
          late = c.queue;
        },
        none,
      ) in
      let go : Option (Sweeper × Option Key) =
        skip_past w.plan (size w.plan.schedule) next w.late >>= λ (next', queue).
        start_region online closed w.plan.cursor next'.0 (time_until s now next'.1) queue w.plan in
      if ltb (started + s.reprovide_interval) now then restart else go

  -- `handleReprovide`: the state, and the region whose reprovide is started.
  unfoldable pub handle_reprovide : Bool → Bool → Sweeper → Option (Sweeper × Option Key)
  unfolding reprovide_several start_region
  handle_reprovide online closed w =
      next_non_empty_leaf w.plan.schedule w.plan.cursor s.order >>= λ found. elim found [
        | none ↦ some (w, none)
        | some next ↦
            if key_eq next.0 w.plan.cursor
            then start_region online closed w.plan.cursor w.plan.cursor
                (time_until s now (reprovide_time_for_prefix s w.plan.cursor)) w.late w.plan
            else reprovide_several online closed next w
      ]
