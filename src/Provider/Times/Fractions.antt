-- ===== src/Provider/Times/Fractions.antt =====
-- The fraction of the cycle that belongs to a prefix.
use go_libp2p_hybrid_kad_dht.Prelude.{
  ℕ, zero, suc, ◌+◌, ◌*◌, ◌^◌, ◌≤◌, ◌<◌, ◌≡◌, ◌∙◌, Bool, true, false, not, ◌||◌, [], ◌∷◌, length,
  take, if◌then◌else◌, arith, Bool-cases, inl, inr,
}
use go_libp2p_hybrid_kad_dht.Keyspace.Key.{Key, bit_eq}
use go_libp2p_hybrid_kad_dht.Keyspace.Key.Prefixes.{starts, closer, bit_eq→eq}
use go_libp2p_hybrid_kad_dht.Provider.Times.{xor, parse_bits}

-- The number that the bits of `k` spell after XOR with the order.
abbrev pub rank : Key → Key → ℕ
rank order [] = 0
rank [] (b ∷ k) = 0
rank (o ∷ order) (b ∷ k) = (if bit_eq b o then 0 else 2 ^ length k) + rank order k

pub pow_pos : (n : ℕ) → 0 < 2 ^ n
pow_pos zero = omega arith
pow_pos (suc n) = omega (arith, pow_pos n)

pow_suc : (n : ℕ) → 2 ^ suc n ≡ 2 * 2 ^ n
pow_suc n = omega arith

pub rank_lt : (order k : Key) → length k ≤ length order → rank order k < 2 ^ length k
rank_lt order [] h = omega arith
rank_lt [] (b ∷ k) h = absurd (omega arith)
rank_lt (o ∷ order) (b ∷ k) h = ground (arith, rank_lt order k)

pub parse_bits-rank :
    (order k : Key) (acc : ℕ)
    → length k ≤ length order
    → parse_bits acc (xor k (take (length k) order)) ≡ acc * 2 ^ length k + rank order k
unfolding parse_bits xor
parse_bits-rank order [] acc h = omega arith
parse_bits-rank [] (b ∷ k) acc h = absurd (omega arith)
parse_bits-rank (o ∷ order) (b ∷ k) acc h =
    parse_bits-rank order k (acc * 2 + (if not (bit_eq b o) then 1 else 0)) (omega arith)
    ∙ rw pow_suc (shifted (bit_eq b o) acc (2 ^ length k) (rank order k))
  where
    shifted :
        (e : Bool) (acc q r : ℕ)
        → (acc * 2 + (if not e then 1 else 0)) * q + r ≡ acc * (2 * q) + ((if e then 0 else q) + r)
    shifted true acc q r = grind arith
    shifted false acc q r = grind arith

-- The same first bit, nearer or not, doubles both sides.
same_bit :
    (e : Bool) (p q u v : ℕ)
    → u * q ≤ v * p
    → ((if e then 0 else p) + u) * (2 * q) ≤ ((if e then 0 else q) + v) * (2 * p)
same_bit true p q u v h = grind arith
same_bit false p q u v h = grind arith

first_bit : (p q u v : ℕ) → u < p → (0 + u) * (2 * q) ≤ (q + v) * (2 * p)
first_bit p q u v h = grind arith

-- Of two prefixes that are not comparable, the nearer one has the smaller fraction.
pub rank_ordered :
    (order a b : Key)
    → length a ≤ length order
    → length b ≤ length order
    → starts a b || starts b a ≡ false
    → closer order a b ≡ true
    → rank order a * 2 ^ length b ≤ rank order b * 2 ^ length a
rank_ordered order [] b h k n c = cc
rank_ordered order (x ∷ a) [] h k n c = cc
rank_ordered [] (x ∷ a) (y ∷ b) h k n c = absurd (omega arith)
rank_ordered (o ∷ order) (x ∷ a) (y ∷ b) h k n c =
    rw (pow_suc, pow_suc)
      (elim (Bool-cases (bit_eq x y)) [
        | inl same ↦ rw (bit_eq→eq x y same) (
            same_bit (bit_eq y o) (2 ^ length a) (2 ^ length b) (rank order a) (rank order b)
              (rank_ordered order a b (omega arith) (omega arith) (ground arith) (ground arith)))
        | inr other ↦
            rw (near x y o other (ground arith), far x y o other (ground arith))
              (first_bit (2 ^ length a) (2 ^ length b) (rank order a) (rank order b)
                (rank_lt order a (omega arith)))
      ])
  where
    near : (x y o : Bool) → bit_eq x y ≡ false → bit_eq x o ≡ true → bit_eq x o ≡ true
    near x y o d e = e

    far : (x y o : Bool) → bit_eq x y ≡ false → bit_eq x o ≡ true → bit_eq y o ≡ false
    far x y o d e = ground arith
