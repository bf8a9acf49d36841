-- ===== src/Keyspace/Key.antt =====
-- provider/internal/keyspace/key.go, over keys as lists of bits.
--
-- A key (`bitstr.Key`, `bit256.Key`, `kad.Key`) is the list of its bits, `true` for 1. Its methods
-- are read off the list: `BitLen` is `length`, `Bit` is `bit`, `CommonPrefixLength` is the length
-- of the longest common prefix. `k[:n]` and `k[n:]` are `take` and `drop`.
pub mod Prefixes
pub mod Siblings
pub mod Bytes
pub mod Chunks
pub mod CoverLoop
pub mod Covered
use go_libp2p_hybrid_kad_dht.Prelude.{
  ℕ, zero, suc, ◌+◌, ◌-◌, ◌*◌, ◌/◌, Bool, true, false, ◌&&◌, ◌||◌, not, Option, none, some, List,
  [], ◌∷◌, ◌++◌, map, length, take, drop, select, ltb, leb, ◌==◌, if◌then◌else◌,
}
use Prim.Native.Nat.{bit_or}

abbrev pub Key : Type 0
Key = List Bool

-- `Bit(i)`. Each caller below keeps `i` under the length; past the end Go panics.
abbrev pub bit : Key → ℕ → Bool
bit [] i = false
bit (b ∷ k) zero = b
bit (b ∷ k) (suc i) = bit k i

abbrev pub bit_eq : Bool → Bool → Bool
bit_eq true b = b
bit_eq false b = not b

-- `==` on keys.
abbrev pub key_eq : Key → Key → Bool
key_eq [] [] = true
key_eq [] (c ∷ k) = false
key_eq (b ∷ j) [] = false
key_eq (b ∷ j) (c ∷ k) = bit_eq b c && key_eq j k

-- `CommonPrefixLength`.
unfoldable pub common_prefix_length : Key → Key → ℕ
common_prefix_length [] k = 0
common_prefix_length (b ∷ j) [] = 0
common_prefix_length (b ∷ j) (c ∷ k) = if bit_eq b c then suc (common_prefix_length j k) else 0

abbrev pub key_len : ℕ
key_len = 256

-- `FlipLastBit`: the bits before the last, and the last one flipped.
unfoldable pub flip_last_bit : Key → Key
flip_last_bit [] = []
flip_last_bit (b ∷ []) = not b ∷ []
flip_last_bit (b ∷ c ∷ k) = b ∷ flip_last_bit (c ∷ k)

-- `FirstFullKeyWithPrefix`; `none` is the panic of a slice past the end of `order`.
unfoldable pub first_full_key_with_prefix : Key → Key → Option Key
first_full_key_with_prefix k order =
    if ltb key_len (length k)
    then some (take key_len k)
    else if ltb (length order) (length k)
    then none
    else some (k ++ drop (length k) order)

-- `IsBitstrPrefix`.
unfoldable pub is_bitstr_prefix : Key → Key → Bool
is_bitstr_prefix k0 k1 = leb (length k0) (length k1) && key_eq k0 (take (length k0) k1)

-- The loop of `IsPrefix`: `n` rounds are left, and the next index is `i`.
unfoldable pub is_prefix_loop : Key → Key → ℕ → ℕ → Bool
is_prefix_loop k0 k1 zero i = true
is_prefix_loop k0 k1 (suc n) i =
    let rest = is_prefix_loop k0 k1 n (suc i) in
    if not (bit_eq (bit k0 i) (bit k1 i)) then false else rest

-- `IsPrefix`.
unfoldable pub is_prefix : Key → Key → Bool
unfolding is_prefix_loop
is_prefix k0 k1 = if ltb (length k1) (length k0) then false else is_prefix_loop k0 k1 (length k0) 0

-- The loop of `KeyToBytes` over the remaining bits: `mask` is the next bit's value, `by` the byte
-- in the making. The bytes come out in the order in which `b[byteIndex]` is written.
unfoldable pub key_to_bytes_loop : Key → ℕ → ℕ → List ℕ
key_to_bytes_loop [] mask by = if mask == 128 then [] else by ∷ []
key_to_bytes_loop (b ∷ k) mask by =
    let by' : ℕ = if b then bit_or by mask else by in
    let flush = by' ∷ key_to_bytes_loop k 128 0 in
    let go = key_to_bytes_loop k (mask / 2) by' in if mask / 2 == 0 then flush else go

-- `KeyToBytes`.
unfoldable pub key_to_bytes : Key → List ℕ
unfolding key_to_bytes_loop
key_to_bytes k = key_to_bytes_loop k 128 0

-- One round of `ExtendBinaryPrefix`: each string is followed by 0 and by 1.
unfoldable pub extend_once : List Key → List Key
extend_once [] = []
extend_once (s ∷ rd) = (s ++ false ∷ []) ∷ (s ++ true ∷ []) ∷ extend_once rd

unfoldable pub extend_rounds : ℕ → List Key → List Key
extend_rounds zero wr = wr
extend_rounds (suc n) wr = extend_rounds n (extend_once wr)

-- `ExtendBinaryPrefix`, for a length `n` that is not negative.
unfoldable pub extend_binary_prefix : Key → ℕ → List Key
unfolding extend_once extend_rounds
extend_binary_prefix prefix n =
    if ltb n (length prefix) then [] else extend_rounds (n - length prefix) (prefix ∷ [])

-- The loop of `SiblingPrefixes`: `n` rounds are left, and the next index is `i`.
unfoldable pub sibling_prefixes_loop : Key → ℕ → ℕ → List Key
sibling_prefixes_loop key zero i = []
sibling_prefixes_loop key (suc n) i =
    flip_last_bit (take (suc i) key) ∷ sibling_prefixes_loop key n (suc i)

-- `SiblingPrefixes`.
unfoldable pub sibling_prefixes : Key → List Key
unfolding sibling_prefixes_loop flip_last_bit
sibling_prefixes key = sibling_prefixes_loop key (length key) 0

-- The variables of the loop of `ShortestCoveredPrefix`.
pub record Cover : Type 0 where
  pub min_cpl : ℕ
  pub covered_cpl : ℕ
  pub last_index : ℕ

module _ {ℓ} {Peer : Type ℓ} (peer_key : Peer → Key) where
  -- The loop of `ShortestCoveredPrefix` over the peers from index `i` on; `peer_key` stands for
  -- `PeerIDToBit256`.
  unfoldable pub cover_loop : Key → List Peer → ℕ → Cover → Cover
  cover_loop target [] i c = c
  cover_loop target (p ∷ peers) i c =
      let cpl = common_prefix_length target (peer_key p) in
      cover_loop target peers (suc i) (
        if ltb cpl c.min_cpl
        then record { min_cpl = cpl; covered_cpl = suc cpl; last_index = i }
        else c)

  -- `ShortestCoveredPrefix`; `sort_closest` stands for `SortClosestPeers` with the target's bytes.
  unfoldable pub shortest_covered_prefix :
      (List Peer → List ℕ → List Peer) → Key → List Peer → Key × List Peer
  unfolding cover_loop
  shortest_covered_prefix sort_closest target [] = (target, [])
  shortest_covered_prefix sort_closest target (p ∷ ps) =
      let peers = sort_closest (p ∷ ps) (key_to_bytes target) in
      let c =
        cover_loop target peers 0
          (record { min_cpl = length target; covered_cpl = 0; last_index = 0 }) in
      (take c.covered_cpl target, take c.last_index peers)
