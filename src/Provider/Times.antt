-- ===== src/Provider/Times.antt =====
-- provider/provider.go: the arithmetic of the offsets in the reprovide cycle.
--
-- A time is a number of nanoseconds, and a duration is a signed one, as in the source; only the
-- product of `reprovideTimeForPrefix` can leave the int64 range, and it wraps.
pub mod Fractions
pub mod Bounds
use go_libp2p_hybrid_kad_dht.Prelude.{
  ℕ, zero, suc, ◌+◌, ◌*◌, ◌^◌, Bool, true, false, not, [], ◌∷◌, length, take, ltb, ◌==◌,
  if◌then◌else◌, ℤ, pos, ◌+ℤ◌, ◌-ℤ◌, sub_ℕ, quot, rem, wrap64,
}
use go_libp2p_hybrid_kad_dht.Keyspace.Key.{Key, bit_eq}

abbrev pub max_prefix_size : ℕ
max_prefix_size = 24

-- The fields of `SweepingProvider` that the schedule reads.
pub record Settings : Type 0 where
  pub order : Key
  pub reprovide_interval : ℕ
  pub max_reprovide_delay : ℕ
  pub cycle_start : ℕ

-- `timeOffset`, and `currentTimeOffset` at the time `t`.
unfoldable pub time_offset : Settings → ℕ → ℤ
time_offset s t = rem (sub_ℕ t s.cycle_start) s.reprovide_interval

-- `timeBetween`.
unfoldable pub time_between : Settings → ℤ → ℤ → ℤ
time_between s from to =
    rem (to -ℤ from +ℤ pos s.reprovide_interval -ℤ pos 1) s.reprovide_interval +ℤ pos 1

-- `timeUntil`, at the time `now`.
unfoldable pub time_until : Settings → ℕ → ℤ → ℤ
unfolding time_between time_offset
time_until s now d = time_between s (time_offset s now) d

-- `Xor` of keys of the same length.
unfoldable pub xor : Key → Key → Key
xor [] k = []
xor (b ∷ j) [] = []
xor (b ∷ j) (c ∷ k) = not (bit_eq b c) ∷ xor j k

-- `strconv.ParseInt` in base 2, after the digits whose value is `acc`.
unfoldable pub parse_bits : ℕ → Key → ℕ
parse_bits acc [] = acc
parse_bits acc (b ∷ k) = parse_bits (acc * 2 + (if b then 1 else 0)) k

-- `reprovideTimeForPrefix`, for an order of 256 bits.
unfoldable pub reprovide_time_for_prefix : Settings → Key → ℤ
unfolding xor parse_bits
reprovide_time_for_prefix s prefix =
    if length prefix == 0
    then pos 0
    else (let k =
          if ltb max_prefix_size (length prefix) then take max_prefix_size prefix else prefix in
        let max_int = 2 ^ length k in
        let val = parse_bits 0 (xor k (take (length k) s.order)) in
        quot (wrap64 (s.reprovide_interval * val)) max_int)
