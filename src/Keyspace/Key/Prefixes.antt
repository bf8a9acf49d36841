-- ===== src/Keyspace/Key/Prefixes.antt =====
-- The prefix tests of key.go against a reference, and the orders that they form.
use go_libp2p_hybrid_kad_dht.Prelude.{
  ℕ, zero, suc, ◌≤◌, ◌≡◌, refl, sym, ◌∙◌, Bool, true, false, ◌&&◌, not, some, [], ◌∷◌, ◌++◌, length,
  drop, ◌==◌, if◌then◌else◌, arith, length-append, ◌↔◌, length-drop, ◌⊎◌, inl, inr, Bool-cases,
}
use go_libp2p_hybrid_kad_dht.Keyspace.Key.{
  Key, bit, bit_eq, key_eq, common_prefix_length, first_full_key_with_prefix, is_bitstr_prefix,
  is_prefix_loop, is_prefix, key_len,
}

-- The reference: `p` starts `k`.
abbrev pub starts : Key → Key → Bool
starts [] k = true
starts (b ∷ p) [] = false
starts (b ∷ p) (c ∷ k) = bit_eq b c && starts p k

pub bit_eq_refl : (b : Bool) → bit_eq b b ≡ true
bit_eq_refl true = refl
bit_eq_refl false = refl

pub bit_eq→eq : (b c : Bool) → bit_eq b c ≡ true → b ≡ c
bit_eq→eq b c h = ground arith

pub key_eq_refl : (k : Key) → key_eq k k ≡ true
key_eq_refl [] = refl
key_eq_refl (b ∷ k) = ground (arith, bit_eq_refl b, key_eq_refl k)

pub key_eq→eq : (j k : Key) → key_eq j k ≡ true → j ≡ k
key_eq→eq [] [] h = refl
key_eq→eq [] (c ∷ k) h = cc
key_eq→eq (b ∷ j) [] h = cc
key_eq→eq (b ∷ j) (c ∷ k) h = ground (arith, key_eq→eq j k)

pub key_eq_sym : (j k : Key) → key_eq j k ≡ key_eq k j
key_eq_sym [] [] = refl
key_eq_sym [] (c ∷ k) = refl
key_eq_sym (b ∷ j) [] = refl
key_eq_sym (b ∷ j) (c ∷ k) = ground (arith, key_eq_sym j k)

pub starts_refl : (k : Key) → starts k k ≡ true
starts_refl [] = refl
starts_refl (b ∷ k) = ground (arith, starts_refl k)

pub starts_trans : (a b c : Key) → starts a b ≡ true → starts b c ≡ true → starts a c ≡ true
starts_trans [] b c h k = refl
starts_trans (x ∷ a) [] c h k = cc
starts_trans (x ∷ a) (y ∷ b) [] h k = cc
starts_trans (x ∷ a) (y ∷ b) (z ∷ c) h k = ground (arith, starts_trans a b c)

-- Two prefixes of one key are comparable.
pub starts_linear :
    (a b c : Key)
    → starts a c ≡ true
    → starts b c ≡ true
    → (starts a b ≡ true) ⊎ (starts b a ≡ true)
starts_linear [] b c h k = inl refl
starts_linear (x ∷ a) [] c h k = inr refl
starts_linear (x ∷ a) (y ∷ b) [] h k = cc
starts_linear (x ∷ a) (y ∷ b) (z ∷ c) h k = ground (arith, starts_linear a b c)

pub starts_antisym : (a b : Key) → starts a b ≡ true → starts b a ≡ true → a ≡ b
starts_antisym [] [] h k = refl
starts_antisym [] (y ∷ b) h k = cc
starts_antisym (x ∷ a) [] h k = cc
starts_antisym (x ∷ a) (y ∷ b) h k = ground (arith, starts_antisym a b)

pub starts-append : (p r : Key) → starts p (p ++ r) ≡ true
starts-append [] r = refl
starts-append (b ∷ p) r = ground (arith, starts-append p r)

pub starts-append_cancel : (p a b : Key) → starts (p ++ a) (p ++ b) ≡ starts a b
starts-append_cancel [] a b = refl
starts-append_cancel (x ∷ p) a b = ground (arith, starts-append_cancel p a b, bit_eq_refl x)

pub starts→append : (p k : Key) → starts p k ≡ true → (r : Key) × (k ≡ p ++ r)
starts→append [] k h = (k, refl)
starts→append (b ∷ p) [] h = cc
starts→append (b ∷ p) (c ∷ k) h = let (r, e) = starts→append p k (ground arith) in (r, ground arith)

pub starts→length-le : (p k : Key) → starts p k ≡ true → length p ≤ length k
starts→length-le [] k h = omega arith
starts→length-le (b ∷ p) [] h = cc
starts→length-le (b ∷ p) (c ∷ k) h = ground (arith, starts→length-le p k)

pub starts_of_length : (p k : Key) → starts p k ≡ true → length k ≤ length p → p ≡ k
starts_of_length [] [] h l = refl
starts_of_length [] (c ∷ k) h l = absurd (omega arith)
starts_of_length (b ∷ p) [] h l = cc
starts_of_length (b ∷ p) (c ∷ k) h l = ground (arith, starts_of_length p k)

-- A prefix that goes on: which bit follows decides.
pub starts-snoc : (p r : Key) (b c : Bool) → starts (p ++ b ∷ []) (p ++ c ∷ r) ≡ bit_eq b c
starts-snoc [] r b c = ground arith
starts-snoc (x ∷ p) r b c = ground (arith, starts-snoc p r b c, bit_eq_refl x)

pub bit-append : (p r : Key) (b : Bool) → bit (p ++ b ∷ r) (length p) ≡ b
bit-append [] r b = refl
bit-append (x ∷ p) r b = bit-append p r b

pub is_bitstr_prefix-starts : (p k : Key) → is_bitstr_prefix p k ≡ starts p k
unfolding is_bitstr_prefix
is_bitstr_prefix-starts [] k = ground arith
is_bitstr_prefix-starts (b ∷ p) [] = ground arith
is_bitstr_prefix-starts (b ∷ p) (c ∷ k) = ground (arith, is_bitstr_prefix-starts p k)

is_prefix_loop-suc :
    (b c : Bool) (p k : Key) (n i : ℕ)
    → is_prefix_loop (b ∷ p) (c ∷ k) n (suc i) ≡ is_prefix_loop p k n i
unfolding is_prefix_loop
is_prefix_loop-suc b c p k zero i = refl
is_prefix_loop-suc b c p k (suc n) i = ground (arith, is_prefix_loop-suc b c p k n (suc i))

is_prefix_loop-starts :
    (p k : Key) → length p ≤ length k → is_prefix_loop p k (length p) 0 ≡ starts p k
unfolding is_prefix_loop
is_prefix_loop-starts [] k h = refl
is_prefix_loop-starts (b ∷ p) [] h = absurd (omega arith)
is_prefix_loop-starts (b ∷ p) (c ∷ k) h =
    ground (arith, is_prefix_loop-suc b c p k (length p) 0, is_prefix_loop-starts p k)

pub is_prefix-starts : (p k : Key) → is_prefix p k ≡ starts p k
unfolding is_prefix
is_prefix-starts p k =
    ground (arith, is_prefix_loop-starts p k, starts→length-le p k, Bool-cases (starts p k))

append→starts : (p k : Key) → ((r : Key) × (k ≡ p ++ r)) → starts p k ≡ true
append→starts p k (r, e) = rw e (starts-append p r)

-- `IsPrefix` and `IsBitstrPrefix` agree on all keys, and both hold exactly where the second key
-- is the first one followed by some bits.
pub is_prefix-is_bitstr_prefix :
    (p k : Key)
    → (is_prefix p k ≡ is_bitstr_prefix p k) × ((is_prefix p k ≡ true) ↔ ((r : Key) × (k ≡ p ++ r)))
is_prefix-is_bitstr_prefix p k = (
  is_prefix-starts p k ∙ sym (is_bitstr_prefix-starts p k),
  (
    λ h. starts→append p k (sym (is_prefix-starts p k) ∙ h),
    λ h. is_prefix-starts p k ∙ append→starts p k h,
  ),
)

-- The order of the XOR metric: `a` is at least as near to `o` as `b`. Where the two differ first,
-- the nearer one has the bit of `o`.
abbrev pub closer : Key → Key → Key → Bool
closer [] a b = true
closer (o ∷ os) [] b = true
closer (o ∷ os) (x ∷ a) [] = true
closer (o ∷ os) (x ∷ a) (y ∷ b) = if bit_eq x y then closer os a b else bit_eq x o

closer_self : (o b : Key) → closer o o b ≡ true
closer_self [] b = refl
closer_self (x ∷ o) [] = refl
closer_self (x ∷ o) (y ∷ b) = ground (arith, closer_self o b, bit_eq_refl x)

closer_fill : (k o x : Key) → starts k x ≡ true → closer o (k ++ drop (length k) o) x ≡ true
closer_fill [] o x h = closer_self o x
closer_fill (b ∷ k) [] x h = refl
closer_fill (b ∷ k) (c ∷ o) [] h = refl
closer_fill (b ∷ k) (c ∷ o) (y ∷ x) h = ground (arith, closer_fill k o x)

-- For an `order` of 256 bits and a `k` of at most 256, `FirstFullKeyWithPrefix` returns a key of
-- 256 bits that begins with `k`, and no key that begins with `k` is nearer to `order`.
pub first_full_key_with_prefix_nearest :
    (k order : Key)
    → length order ≡ key_len
    → length k ≤ key_len
    → (f : Key) × (first_full_key_with_prefix k order ≡ some f)
      × (length f ≡ key_len)
      × (starts k f ≡ true)
      × ((x : Key) → starts k x ≡ true → closer order f x ≡ true)
unfolding first_full_key_with_prefix
first_full_key_with_prefix_nearest k order h l = (
  k ++ drop (length k) order,
  ground arith,
  omega (arith, length-append {0} k (drop (length k) order), length-drop {0} (length k) order),
  starts-append k _,
  closer_fill k order,
)

-- What follows other bits than `k` neither starts `k` nor is started by it.
pub starts_diverge :
    (p r x : Key) (b : Bool) → starts (p ++ not b ∷ []) x ≡ true → starts (p ++ b ∷ r) x ≡ false
starts_diverge [] r [] b h = cc
starts_diverge [] r (c ∷ x) b h = ground arith
starts_diverge (a ∷ p) r [] b h = cc
starts_diverge (a ∷ p) r (c ∷ x) b h = ground (arith, starts_diverge p r x b)

pub starts_diverge' :
    (p r x : Key) (b : Bool) → starts (p ++ not b ∷ []) x ≡ true → starts x (p ++ b ∷ r) ≡ false
starts_diverge' [] r [] b h = cc
starts_diverge' [] r (c ∷ x) b h = ground arith
starts_diverge' (a ∷ p) r [] b h = cc
starts_diverge' (a ∷ p) r (c ∷ x) b h = ground (arith, starts_diverge' p r x b)

pub starts_longer : (p x : Key) (b : Bool) → starts (p ++ b ∷ []) x ≡ true → starts x p ≡ false
starts_longer [] [] b h = cc
starts_longer [] (c ∷ x) b h = refl
starts_longer (a ∷ p) [] b h = cc
starts_longer (a ∷ p) (c ∷ x) b h = ground (arith, starts_longer p x b)

pub cpl-starts : (a b : Key) → (common_prefix_length a b == length a) ≡ starts a b
unfolding common_prefix_length
cpl-starts [] b = refl
cpl-starts (x ∷ a) [] = ground arith
cpl-starts (x ∷ a) (y ∷ b) = ground (arith, cpl-starts a b)

pub cpl-starts' : (a b : Key) → (common_prefix_length a b == length b) ≡ starts b a
unfolding common_prefix_length
cpl-starts' [] [] = refl
cpl-starts' [] (y ∷ b) = ground arith
cpl-starts' (x ∷ a) [] = refl
cpl-starts' (x ∷ a) (y ∷ b) = ground (arith, cpl-starts' a b)

-- The tests of a descent at depth `n`, below the path `p`.
pub depth_end : (k p : Key) (n : ℕ) → k ≡ p → n ≡ length p → (n == length k) ≡ true
depth_end k p n e l = rw (e, l) (ground arith)

pub depth_inner :
    (k p bits : Key) (b : Bool) (n : ℕ) → k ≡ p ++ b ∷ bits → n ≡ length p → (n == length k) ≡ false
depth_inner k p bits b n e l = rw (e, l, length-append {0} p (b ∷ bits)) (ground arith)

pub depth_bit : (k p bits : Key) (b : Bool) (n : ℕ) → k ≡ p ++ b ∷ bits → n ≡ length p → bit k n ≡ b
depth_bit k p bits b n e l = rw (e, l) (bit-append p bits b)

pub depth_suc : (p : Key) (b : Bool) (n : ℕ) → n ≡ length p → suc n ≡ length (p ++ b ∷ [])
depth_suc p b n l = omega (arith, length-append {0} p (b ∷ []))
