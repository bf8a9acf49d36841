-- ===== src/Provider/Schedule/Delay.antt =====
-- The bound that `schedulePrefixNoLock` puts on the offset of a prefix that was just reprovided.
use go_libp2p_hybrid_kad_dht.Prelude.{
  ℕ, ◌+◌, ◌-◌, ◌*◌, ◌%◌, ◌^◌, ◌≤◌, ◌<◌, ◌≡◌, refl, Bool, true, false, arith, length, ℤ, pos, ◌+ℤ◌,
  min_ℤ, pos-add-pos, sub_ℕ-of_le,
}
use go_libp2p_hybrid_kad_dht.Keyspace.Key.{Key}
use go_libp2p_hybrid_kad_dht.Keyspace.Trie.{Trie}
use go_libp2p_hybrid_kad_dht.Keyspace.Trie.Api.{TrieApi}
use go_libp2p_hybrid_kad_dht.Provider.Times.{Settings, max_prefix_size, time_offset}
use go_libp2p_hybrid_kad_dht.Provider.Times.Bounds.{exact_time, short_time, exact_time-lt}
use go_libp2p_hybrid_kad_dht.Provider.Schedule.{Schedule, schedule_prefix}

min_small : (t a : ℕ) → t ≤ a → min_ℤ (pos t) (pos a) ≡ pos t
min_small t a h = ground arith

module _ (api : TrieApi ℤ) (find : Trie ℤ → Key → Bool × ℤ) (s : Settings) (now : ℕ) where
  no_bound :
      (t : ℕ)
      → s.cycle_start ≤ now
      → t < s.reprovide_interval
      → min_ℤ (pos t) (time_offset s now +ℤ pos s.reprovide_interval +ℤ pos s.max_reprovide_delay)
        ≡ pos t
  unfolding time_offset
  no_bound t c h =
      rw (sub_ℕ-of_le now s.cycle_start c, pos-add-pos, pos-add-pos)
        (min_small t
          ((now - s.cycle_start) % s.reprovide_interval
            + s.reprovide_interval
            + s.max_reprovide_delay)
          (omega arith))

  -- Let the cycle not start in the future, and let the offset of the prefix be computed without an
  -- overflow. A prefix that was just reprovided is scheduled exactly as any other: the bound by
  -- `maxReprovideDelay` never applies, since an offset is below the interval.
  pub schedule_prefix_unbounded :
      (prefix : Key) (p : Schedule)
      → 0 < s.reprovide_interval
      → s.cycle_start ≤ now
      → length prefix ≤ max_prefix_size
      → length prefix ≤ length s.order
      → s.reprovide_interval * 2 ^ length prefix ≤ 2 ^ 63
      → schedule_prefix api find s now prefix true p ≡ schedule_prefix api find s now prefix false p
  unfolding schedule_prefix
  schedule_prefix_unbounded prefix p z c h k small =
      let exact = short_time s prefix z h k small in
      rw (exact, no_bound (exact_time s prefix) c (exact_time-lt s prefix z k)) refl
