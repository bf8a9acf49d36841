-- ===== src/Provider/Schedule.antt =====
-- provider/provider.go: the schedule, its cursor and its timer.
--
-- The clock is read once for each call, at the time `now`. `none` is a panic. `find` stands for
-- `trie.Find` of the trie library.
pub mod Invariant
pub mod Unscheduling
pub mod Scheduling
pub mod Delay
use go_libp2p_hybrid_kad_dht.Prelude.{
  ℕ, Bool, true, false, Option, none, some, if◌then◌else◌, ◌>>=◌, ℤ, pos, ◌+ℤ◌, ltb_ℤ, min_ℤ, rem,
}
use go_libp2p_hybrid_kad_dht.Keyspace.Key.{Key, key_eq, is_bitstr_prefix}
use go_libp2p_hybrid_kad_dht.Keyspace.Trie.{
  Trie, empty_leaf, leaf, branches, find_prefix_of_key, prune_subtrie,
}
use go_libp2p_hybrid_kad_dht.Keyspace.Trie.Next.{next_non_empty_leaf}
use go_libp2p_hybrid_kad_dht.Keyspace.Trie.Api.{TrieApi}
use go_libp2p_hybrid_kad_dht.Provider.Times.{
  Settings, time_offset, time_until, reprovide_time_for_prefix,
}

-- The part of `SweepingProvider` under `scheduleLk`; `timer` is the duration of the last `Reset`.
pub record Schedule : Type 0 where
  pub schedule : Trie ℤ
  pub cursor : Key
  pub timer : ℤ
  pub timer_started_at : ℕ

abbrev pub is_non_empty_leaf {ℓ} : {D : Type ℓ} → Trie D → Bool
is_non_empty_leaf (leaf k d) = true
is_non_empty_leaf _ = false

-- `scheduleNextReprovideNoLock`.
unfoldable pub schedule_next_reprovide : ℕ → Key → ℤ → Schedule → Schedule
schedule_next_reprovide now prefix time_until_reprovide p = record p {
  cursor = prefix;
  timer = time_until_reprovide;
  timer_started_at = now;
}

-- The end of `unscheduleSubsumedPrefixesNoLock`, on the leaf found.
unfoldable pub select_next : Settings → ℕ → Key → Option (Key × ℤ) → Schedule → Schedule
unfolding schedule_next_reprovide
select_next s now prefix none p = schedule_next_reprovide now prefix (pos s.reprovide_interval) p
select_next s now prefix (some e) p = schedule_next_reprovide now e.0 (time_until s now e.1) p

-- `unscheduleSubsumedPrefixesNoLock`.
unfoldable pub unschedule_subsumed_prefixes : Settings → ℕ → Key → Schedule → Option Schedule
unfolding select_next
unschedule_subsumed_prefixes s now prefix p =
    let pruned = prune_subtrie p.schedule prefix in
    let p' : Schedule = record p { schedule = pruned } in
    let found : Option Schedule = next_non_empty_leaf pruned p.cursor s.order >>= λ next.
    some (select_next s now prefix next p') in
    if is_bitstr_prefix prefix p.cursor then found else some p'

module _ (api : TrieApi ℤ) (find : Trie ℤ → Key → Bool × ℤ) (s : Settings) (now : ℕ) where
  -- The end of `schedulePrefixNoLock`, on the key that follows the prefix.
  unfoldable pub move_cursor : Key → ℤ → Key → Schedule → Schedule
  unfolding schedule_next_reprovide
  move_cursor prefix next_reprovide_time following_key p =
      let time_until_prefix = time_until s now next_reprovide_time in
      let alarm = time_until s now (find p.schedule p.cursor).1 in
      let earlier = schedule_next_reprovide now prefix time_until_prefix p in
      if key_eq following_key p.cursor
      then (if ltb_ℤ time_until_prefix (rem alarm s.reprovide_interval) then earlier else p)
      else p

  -- `schedulePrefixNoLock` from the insertion on.
  unfoldable pub add_to_schedule : Key → ℤ → Schedule → Option Schedule
  unfolding move_cursor schedule_next_reprovide
  add_to_schedule prefix next_reprovide_time p =
      let added = api.add prefix next_reprovide_time p.schedule in
      let p' : Schedule = record p { schedule = added } in
      let move : Option Schedule =
        next_non_empty_leaf added prefix s.order >>= (λ following. following) >>= λ e.
        some (move_cursor prefix next_reprovide_time e.0 p') in
      if is_non_empty_leaf added
      then some (schedule_next_reprovide now prefix (time_until s now next_reprovide_time) p')
      else move

  -- The offset at which `schedulePrefixNoLock` puts a prefix.
  unfoldable pub next_reprovide_time : Key → Bool → ℤ
  next_reprovide_time prefix just_reprovided =
      if just_reprovided
      then min_ℤ (reprovide_time_for_prefix s prefix)
          (time_offset s now +ℤ pos s.reprovide_interval +ℤ pos s.max_reprovide_delay)
      else reprovide_time_for_prefix s prefix

  -- `schedulePrefixNoLock`.
  unfoldable pub schedule_prefix : Key → Bool → Schedule → Option Schedule
  unfolding next_reprovide_time unschedule_subsumed_prefixes add_to_schedule
  schedule_prefix prefix just_reprovided p =
      let add : Option Schedule =
        unschedule_subsumed_prefixes s now prefix p
        >>= add_to_schedule prefix (next_reprovide_time prefix just_reprovided) in
      if (find_prefix_of_key p.schedule prefix).1 then some p else add
