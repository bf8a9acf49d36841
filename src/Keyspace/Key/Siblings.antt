-- ===== src/Keyspace/Key/Siblings.antt =====
-- `SiblingPrefixes` and `ExtendBinaryPrefix` of key.go: which keys they cover.
use Prim.Native.Nat.{◌^◌}
use native.Mathlib.Nat.{pow-suc}
use go_libp2p_hybrid_kad_dht.Prelude.{
  ℕ, zero, suc, ◌+◌, ◌-◌, ◌*◌, ◌≤◌, ◌≡◌, refl, sym, ap, ◌∙◌, Bool, true, false, ◌&&◌, ◌||◌, not,
  List, [], ◌∷◌, ◌++◌, map, length, take, select, any, ltb, ◌==◌, if◌then◌else◌, arith, fun_ext,
  subst,
}
use go_libp2p_hybrid_kad_dht.Keyspace.Key.{
  Key, bit_eq, key_eq, flip_last_bit, extend_once, extend_rounds, extend_binary_prefix,
  sibling_prefixes_loop, sibling_prefixes,
}
use go_libp2p_hybrid_kad_dht.Keyspace.Key.Prefixes.{starts}

-- The siblings along a path, by recursion on the path.
abbrev pub siblings : Key → List Key
siblings [] = []
siblings (b ∷ k) = (not b ∷ []) ∷ map (λ s. b ∷ s) (siblings k)

sibling_prefixes_loop-cons :
    (b : Bool) (k : Key) (n i : ℕ)
    → i + n ≤ length k
    → sibling_prefixes_loop (b ∷ k) n (suc i) ≡ map (λ s. b ∷ s) (sibling_prefixes_loop k n i)
unfolding sibling_prefixes_loop flip_last_bit
sibling_prefixes_loop-cons b k zero i h = refl
sibling_prefixes_loop-cons b [] (suc n) i h = absurd (omega arith)
sibling_prefixes_loop-cons b (c ∷ k) (suc n) i h =
    ap (◌∷◌ (b ∷ flip_last_bit (c ∷ take i k)))
      (sibling_prefixes_loop-cons b (c ∷ k) n (suc i) (omega arith))

pub sibling_prefixes-siblings : (k : Key) → sibling_prefixes k ≡ siblings k
unfolding sibling_prefixes
sibling_prefixes-siblings [] = refl
sibling_prefixes-siblings (b ∷ k) = ap (◌∷◌ (not b ∷ [])) (
    sibling_prefixes_loop-cons b k (length k) 0 (omega arith)
    ∙ ap (map (λ s. b ∷ s)) (sibling_prefixes-siblings k))

-- How many prefixes of a list start `x`.
abbrev pub hits : Key → List Key → ℕ
hits x ps = length (select (λ p. starts p x) ps)

hits-map :
    (b c : Bool) (x : Key) (ps : List Key)
    → hits (c ∷ x) (map (λ s. b ∷ s) ps) ≡ (if bit_eq b c then hits x ps else 0)
hits-map b c x [] = ground arith
hits-map b c x (p ∷ ps) = ground (arith, hits-map b c x ps)

siblings_partition : (k x : Key) → length k ≤ length x → hits x (k ∷ siblings k) ≡ 1
siblings_partition [] x h = refl
siblings_partition (b ∷ k) [] h = absurd (omega arith)
siblings_partition (b ∷ k) (c ∷ x) h =
    ground (arith, siblings_partition k x (omega arith), hits-map b c x (siblings k))

-- The prefixes of `SiblingPrefixes(k)` and `k` itself partition the keyspace: every key that is no
-- shorter than `k` begins with exactly one of them.
pub sibling_prefixes_partition :
    (k x : Key) → length k ≤ length x → hits x (k ∷ sibling_prefixes k) ≡ 1
sibling_prefixes_partition k x h =
    subst (λ ps. hits x (k ∷ ps) ≡ 1) (sym (sibling_prefixes-siblings k)) (siblings_partition k x h)

starts_or :
    (s x : Key) (m : ℕ)
    → ((length x == length (s ++ false ∷ []) + m) && starts (s ++ false ∷ []) x)
        || ((length x == length (s ++ true ∷ []) + m) && starts (s ++ true ∷ []) x)
      ≡ ((length x == length s + suc m) && starts s x)
starts_or [] [] m = ground arith
starts_or [] (c ∷ x) m = ground arith
starts_or (b ∷ s) [] m = ground arith
starts_or (b ∷ s) (c ∷ x) m = ground (arith, starts_or s x m)

any-extend_once :
    (x : Key) (m : ℕ) (wr : List Key)
    → any (λ s. (length x == length s + m) && starts s x) (extend_once wr)
      ≡ any (λ s. (length x == length s + suc m) && starts s x) wr
unfolding extend_once
any-extend_once x m [] = refl
any-extend_once x m (s ∷ wr) = ground (arith, starts_or s x m, any-extend_once x m wr)

key_eq-starts : (x s : Key) → key_eq x s ≡ ((length x == length s + 0) && starts s x)
key_eq-starts [] [] = refl
key_eq-starts [] (c ∷ s) = ground arith
key_eq-starts (b ∷ x) [] = ground arith
key_eq-starts (b ∷ x) (c ∷ s) = ground (arith, key_eq-starts x s)

any-extend_rounds :
    (x : Key) (m : ℕ) (wr : List Key)
    → any (key_eq x) (extend_rounds m wr) ≡ any (λ s. (length x == length s + m) && starts s x) wr
unfolding extend_rounds
any-extend_rounds x zero wr = rw (fun_ext (key_eq-starts x))
any-extend_rounds x (suc m) wr = any-extend_rounds x m (extend_once wr) ∙ any-extend_once x m wr

length-extend_once : (wr : List Key) → length (extend_once wr) ≡ 2 * length wr
unfolding extend_once
length-extend_once [] = refl
length-extend_once (s ∷ wr) = omega (arith, length-extend_once wr)

length-extend_rounds : (m : ℕ) (wr : List Key) → length (extend_rounds m wr) ≡ 2 ^ m * length wr
unfolding extend_rounds
length-extend_rounds zero wr = omega arith
length-extend_rounds (suc m) wr =
    length-extend_rounds m (extend_once wr) ∙ rw (length-extend_once wr, pow-suc) (omega arith)

-- For a length `n` that is not below the prefix's, `ExtendBinaryPrefix` returns exactly the keys
-- of `n` bits that begin with the prefix, and as many as there are: `2 ^ (n - len(prefix))`.
pub extend_binary_prefix_lem :
    (prefix : Key) (n : ℕ)
    → length prefix ≤ n
    → ((x : Key)
        → any (key_eq x) (extend_binary_prefix prefix n) ≡ ((length x == n) && starts prefix x))
      × (length (extend_binary_prefix prefix n) ≡ 2 ^ (n - length prefix))
unfolding extend_binary_prefix
extend_binary_prefix_lem prefix n h = rw not_below (
  (λ x. any-extend_rounds x (n - length prefix) (prefix ∷ []) ∙ one_prefix x),
  omega (arith, length-extend_rounds (n - length prefix) (prefix ∷ [])),
)
  where
    not_below : ltb n (length prefix) ≡ false
    not_below = ground arith

    one_prefix :
        (x : Key)
        → any (λ s. (length x == length s + (n - length prefix)) && starts s x) (prefix ∷ [])
          ≡ ((length x == n) && starts prefix x)
    one_prefix x = ground arith
