-- ===== src/Provider/Times/Bounds.antt =====
-- The bounds of the offsets in the reprovide cycle, and their order.
use go_libp2p_hybrid_kad_dht.Prelude.{
  ℕ, suc, ◌+◌, ◌-◌, ◌*◌, ◌/◌, ◌%◌, ◌^◌, ◌≤◌, ◌<◌, ◌≡◌, refl, ◌∙◌, ap, true, false, ◌||◌, [], ◌∷◌,
  length, take, if◌then◌else◌, ltb, ◌==◌, arith, Bool-cases, inl, inr, pos, negsuc, quot, wrap64,
  pos-sub-pos, sub_ℕ-add-pos, sub_ℕ-sub-pos, sub_ℕ-of_le, pos-add-pos, ltb→lt, neg,
}
use native.Mathlib.Nat.{
  le-div_iff_mul-le, div-mul-le_self, div-lt_iff_lt-mul, le_of_mul-le-mul_right, mul-zero,
  mul-le-mul_right, mul-le-mul_left, add-mod_right, mod-eq_of_lt, mod-lt,
}
use go_libp2p_hybrid_kad_dht.Keyspace.Key.{Key}
use go_libp2p_hybrid_kad_dht.Keyspace.Key.Prefixes.{starts, closer}
use go_libp2p_hybrid_kad_dht.Provider.Times.{
  Settings, max_prefix_size, time_between, reprovide_time_for_prefix, parse_bits, xor,
}
use go_libp2p_hybrid_kad_dht.Provider.Times.Fractions.{
  rank, rank_lt, rank_ordered, parse_bits-rank, pow_pos,
}

cycle_end : (i n : ℕ) → 0 < i → n % i + 1 ≤ i
cycle_end i n h = omega (arith, mod-lt n h)

wraps_later :
    (i from to : ℕ)
    → from < i
    → to < i
    → ltb from to ≡ true
    → (from + ((to + i - (from + 1)) % i + 1)) % i ≡ to
wraps_later i from to h k l =
    let before : to + i - (from + 1) ≡ (to - (from + 1)) + i = omega (arith, ltb→lt from to l) in
    rw (before, add-mod_right)
      (rw (mod-eq_of_lt {n = to - (from + 1)} {m = i} (omega arith)) (rw (back) (mod-eq_of_lt k)))
  where
    back : from + (to - (from + 1) + 1) ≡ to
    back = omega (arith, ltb→lt from to l)

wraps : (i from to : ℕ) → from < i → to < i → (from + ((to + i - (from + 1)) % i + 1)) % i ≡ to
wraps i from to h k = elim (Bool-cases (ltb from to)) [
  | inl later ↦ wraps_later i from to h k later
  | inr earlier ↦ grind arith
]

-- For two offsets in the cycle, `timeBetween` is positive and at most the interval, and it leads
-- from the one to the other round the cycle.
pub time_between_lem :
    (s : Settings) (from to : ℕ)
    → from < s.reprovide_interval
    → to < s.reprovide_interval
    → (d : ℕ) × (time_between s (pos from) (pos to) ≡ pos d)
      × (1 ≤ d)
      × (d ≤ s.reprovide_interval)
      × ((from + d) % s.reprovide_interval ≡ to)
unfolding time_between
time_between_lem s from to h k = (
  (to + s.reprovide_interval - (from + 1)) % s.reprovide_interval + 1,
  rw
      (
        pos-sub-pos,
        sub_ℕ-add-pos,
        sub_ℕ-sub-pos,
        sub_ℕ-of_le (to + s.reprovide_interval) (from + 1) (omega arith),
      )
      (pos-add-pos ((to + s.reprovide_interval - (from + 1)) % s.reprovide_interval) 1),
  omega arith,
  cycle_end s.reprovide_interval (to + s.reprovide_interval - (from + 1)) (omega arith),
  wraps s.reprovide_interval from to h k,
)

suc-eq-zero : (n : ℕ) → (suc n == 0) ≡ false
suc-eq-zero n = ground arith

wrap64_small : (n : ℕ) → n < 2 ^ 63 → wrap64 n ≡ pos n
wrap64_small n h = ground arith

quot_wrapped :
    (n d : ℕ) → 2 ^ 63 ≤ n → n < 2 ^ 64 → quot (wrap64 n) d ≡ quot (negsuc (2 ^ 64 - 1 - n)) d
quot_wrapped n d h k = ground arith

mul-lt : (i r q m : ℕ) → 0 < i → r < q → i * q ≤ m → i * r < m
mul-lt i r q m p h k = grind arith

scaled : (f i u v p q : ℕ) → f * p ≤ i * u → u * q ≤ v * p → f * q * p ≤ i * v * p
scaled f i u v p q h k = omega (arith, mul-le-mul_right q h, mul-le-mul_left i k)

floor_mono : (i u v p q : ℕ) → 0 < p → 0 < q → u * q ≤ v * p → i * u / p ≤ i * v / q
floor_mono i u v p q hp hq h =
    (le-div_iff_mul-le hq).1
      (le_of_mul-le-mul_right (scaled (i * u / p) i u v p q (div-mul-le_self (i * u) p) h) hp)

floor-lt : (i r q : ℕ) → 0 < i → 0 < q → r < q → i * r / q < i
floor-lt i r q h k l = (div-lt_iff_lt-mul k).1 (grind arith)

module _ (s : Settings) where
  -- The offset without a limit of its width.
  abbrev pub exact_time : Key → ℕ
  exact_time k = s.reprovide_interval * rank s.order k / 2 ^ length k

  not_cut :
      (prefix : Key)
      → length prefix ≤ max_prefix_size
      → length prefix ≤ length s.order
      → reprovide_time_for_prefix s prefix ≡ (
          if length prefix == 0
          then pos 0
          else quot (wrap64 (s.reprovide_interval * rank s.order prefix)) (2 ^ length prefix))
  unfolding reprovide_time_for_prefix
  not_cut prefix h k = elim (Bool-cases (ltb max_prefix_size (length prefix))) [
    | inl long ↦ absurd (omega (arith, ltb→lt _ _ long))
    | inr fits ↦ rw (fits, value) refl
  ]
    where
      value : parse_bits 0 (xor prefix (take (length prefix) s.order)) ≡ rank s.order prefix
      value = parse_bits-rank s.order prefix 0 k ∙ omega arith

  pub exact_time-lt :
      (prefix : Key)
      → 0 < s.reprovide_interval
      → length prefix ≤ length s.order
      → exact_time prefix < s.reprovide_interval
  exact_time-lt prefix z k =
      floor-lt s.reprovide_interval (rank s.order prefix) (2 ^ length prefix) z
        (pow_pos (length prefix)) (rank_lt s.order prefix k)

  pub short_time :
      (prefix : Key)
      → 0 < s.reprovide_interval
      → length prefix ≤ max_prefix_size
      → length prefix ≤ length s.order
      → s.reprovide_interval * 2 ^ length prefix ≤ 2 ^ 63
      → reprovide_time_for_prefix s prefix ≡ pos (exact_time prefix)
  short_time prefix z h k small = not_cut prefix h k ∙ (elim (Bool-cases (length prefix == 0)) [
    | inl root ↦ rw root (at_root prefix root)
    | inr inner ↦
        rw
          (
            inner,
            wrap64_small (s.reprovide_interval * rank s.order prefix) (
                mul-lt s.reprovide_interval (rank s.order prefix) (2 ^ length prefix) (2 ^ 63) z
                  (rank_lt s.order prefix k) small),
          )
          refl
  ])
    where
      at_root : (prefix : Key) → (length prefix == 0) ≡ true → pos 0 ≡ pos (exact_time prefix)
      at_root [] e = ap pos (omega arith)
      at_root (b ∷ prefix) e = cc (suc-eq-zero (length prefix))

  -- Let the product of the interval and of the number of prefixes of the lengths of `a` and `b`, 24
  -- bits at most, be in the range of int64. The offsets of `a` and `b` lie in the cycle; and where
  -- neither begins the other, that of the one nearer to the order in the XOR metric is not later.
  pub reprovide_time_for_prefix-Ordered :
      (a b : Key)
      → 0 < s.reprovide_interval
      → (length a ≤ max_prefix_size) × (length b ≤ max_prefix_size)
      → max_prefix_size ≤ length s.order
      → s.reprovide_interval * 2 ^ length a ≤ 2 ^ 63
      → s.reprovide_interval * 2 ^ length b ≤ 2 ^ 63
      → starts a b || starts b a ≡ false
      → closer s.order a b ≡ true
      → (t : ℕ) × (u : ℕ) × (reprovide_time_for_prefix s a ≡ pos t)
        × (reprovide_time_for_prefix s b ≡ pos u)
        × (t ≤ u)
        × (u < s.reprovide_interval)
  reprovide_time_for_prefix-Ordered a b z (ha, hb) k sa sb n c = (
    exact_time a,
    exact_time b,
    short_time a z ha (omega arith) sa,
    short_time b z hb (omega arith) sb,
    floor_mono s.reprovide_interval (rank s.order a) (rank s.order b) (2 ^ length a) (2 ^ length b)
        (pow_pos (length a)) (pow_pos (length b))
        (rank_ordered s.order a b (omega arith) (omega arith) n c),
    exact_time-lt b z (omega arith),
  )

  -- Let the product of the interval and of the rank of a prefix of 24 bits at most leave the range
  -- of int64 by less than 2 ^ 63, and end up below zero by a whole offset. The offset of the prefix
  -- is negative, outside of the cycle.
  pub reprovide_time_for_prefix_wraps :
      (prefix : Key)
      → length prefix ≤ max_prefix_size
      → length prefix ≤ length s.order
      → 2 ^ 63 ≤ s.reprovide_interval * rank s.order prefix
      → s.reprovide_interval * rank s.order prefix + 2 ^ length prefix ≤ 2 ^ 64
      → (m : ℕ) × (reprovide_time_for_prefix s prefix ≡ negsuc m)
  reprovide_time_for_prefix_wraps [] h k lo hi = absurd (too_small s.reprovide_interval lo)
    where
      too_small : (i : ℕ) → 2 ^ 63 ≤ i * 0 → ⊥
      too_small i h = omega (arith, mul-zero i)
  reprovide_time_for_prefix_wraps (b ∷ prefix) h k lo hi =
      let n = s.reprovide_interval * rank s.order (b ∷ prefix) in
      let d = 2 ^ length (b ∷ prefix) in
      (
        (2 ^ 64 - n) / d - 1,
        not_cut (b ∷ prefix) h k
            ∙ rw (suc-eq-zero (length prefix)) (
                quot_wrapped n d lo (below n d (pow_pos (length (b ∷ prefix))) hi)
                ∙ negative n d (pow_pos (length (b ∷ prefix))) hi),
      )
    where
      below : (n d : ℕ) → 0 < d → n + d ≤ 2 ^ 64 → n < 2 ^ 64
      below n d p h = omega arith

      one_offset : (n d : ℕ) → 0 < d → n + d ≤ 2 ^ 64 → 1 ≤ (2 ^ 64 - n) / d
      one_offset n d p h = (le-div_iff_mul-le p).1 (omega arith)

      below_zero : (q : ℕ) → 1 ≤ q → neg q ≡ negsuc (q - 1)
      below_zero q h = ground arith

      negative :
          (n d : ℕ)
          → 0 < d
          → n + d ≤ 2 ^ 64
          → quot (negsuc (2 ^ 64 - 1 - n)) d ≡ negsuc ((2 ^ 64 - n) / d - 1)
      negative n d p h =
          let whole : suc (2 ^ 64 - 1 - n) ≡ 2 ^ 64 - n = omega arith in
          rw whole (below_zero ((2 ^ 64 - n) / d) (one_offset n d p h))
