-- ===== src/Keyspace/Key/Bytes.antt =====
-- `KeyToBytes` of key.go: the bytes hold the bits of the key, padded with zeros.
use go_libp2p_hybrid_kad_dht.Prelude.{
  ℕ, zero, suc, ◌/◌, ◌%◌, ◌≡◌, refl, ap, Bool, true, false, ◌&&◌, List, [], ◌∷◌, ◌++◌, length, ◌==◌,
  arith, ◌∙◌,
}
use go_libp2p_hybrid_kad_dht.Keyspace.Key.{Key, key_eq, key_to_bytes}
use go_libp2p_hybrid_kad_dht.Keyspace.Key.Prefixes.{key_eq→eq}

-- The eight bits of a byte, the highest first.
abbrev byte_bits : ℕ → Key
byte_bits n =
    (n / 128 % 2 == 1)
    ∷ (n / 64 % 2 == 1)
    ∷ (n / 32 % 2 == 1)
    ∷ (n / 16 % 2 == 1)
    ∷ (n / 8 % 2 == 1)
    ∷ (n / 4 % 2 == 1)
    ∷ (n / 2 % 2 == 1)
    ∷ (n % 2 == 1)
    ∷ []

-- The bits of a sequence of bytes.
abbrev pub bytes_bits : List ℕ → Key
bytes_bits [] = []
bytes_bits (n ∷ ns) = byte_bits n ++ bytes_bits ns

-- Zeros up to the next multiple of eight.
abbrev pub pad : Key → Key
pad [] = []
pad (a ∷ []) = a ∷ false ∷ false ∷ false ∷ false ∷ false ∷ false ∷ false ∷ []
pad (a ∷ b ∷ []) = a ∷ b ∷ false ∷ false ∷ false ∷ false ∷ false ∷ false ∷ []
pad (a ∷ b ∷ c ∷ []) = a ∷ b ∷ c ∷ false ∷ false ∷ false ∷ false ∷ false ∷ []
pad (a ∷ b ∷ c ∷ d ∷ []) = a ∷ b ∷ c ∷ d ∷ false ∷ false ∷ false ∷ false ∷ []
pad (a ∷ b ∷ c ∷ d ∷ e ∷ []) = a ∷ b ∷ c ∷ d ∷ e ∷ false ∷ false ∷ false ∷ []
pad (a ∷ b ∷ c ∷ d ∷ e ∷ f ∷ []) = a ∷ b ∷ c ∷ d ∷ e ∷ f ∷ false ∷ false ∷ []
pad (a ∷ b ∷ c ∷ d ∷ e ∷ f ∷ g ∷ []) = a ∷ b ∷ c ∷ d ∷ e ∷ f ∷ g ∷ false ∷ []
pad (a ∷ b ∷ c ∷ d ∷ e ∷ f ∷ g ∷ h ∷ k) = a ∷ b ∷ c ∷ d ∷ e ∷ f ∷ g ∷ h ∷ pad k

-- A test of all keys of one length.
unfoldable pub all_keys_of : ℕ → (Key → Bool) → Bool
all_keys_of zero p = p []
all_keys_of (suc n) p = all_keys_of n (λ k. p (true ∷ k)) && all_keys_of n (λ k. p (false ∷ k))

pub all_keys_of_sound : (k : Key) (p : Key → Bool) → all_keys_of (length k) p ≡ true → p k ≡ true
unfolding all_keys_of
all_keys_of_sound [] p h = h
all_keys_of_sound (true ∷ k) p h = all_keys_of_sound k (λ j. p (true ∷ j)) (ground arith)
all_keys_of_sound (false ∷ k) p h = all_keys_of_sound k (λ j. p (false ∷ j)) (ground arith)

abbrev padded : Key → Bool
padded k = key_eq (bytes_bits (key_to_bytes k)) (pad k)

short_padded :
    (k : Key) → all_keys_of (length k) padded ≡ true → bytes_bits (key_to_bytes k) ≡ pad k
short_padded k h = key_eq→eq _ _ (all_keys_of_sound k padded h)

eight_padded :
    (a b c d e f g h : Bool)
    → bytes_bits (key_to_bytes (a ∷ b ∷ c ∷ d ∷ e ∷ f ∷ g ∷ h ∷ []))
      ≡ a ∷ b ∷ c ∷ d ∷ e ∷ f ∷ g ∷ h ∷ []
unfolding all_keys_of key_to_bytes
eight_padded a b c d e f g h = short_padded (a ∷ b ∷ c ∷ d ∷ e ∷ f ∷ g ∷ h ∷ []) refl

-- The first eight bits go into one byte of their own.
pub key_to_bytes-chunk :
    (a b c d e f g h : Bool) (k : Key)
    → key_to_bytes (a ∷ b ∷ c ∷ d ∷ e ∷ f ∷ g ∷ h ∷ k)
      ≡ key_to_bytes (a ∷ b ∷ c ∷ d ∷ e ∷ f ∷ g ∷ h ∷ []) ++ key_to_bytes k
unfolding key_to_bytes
key_to_bytes-chunk a b c d e f g h k = refl

bytes_bits-append : (ms ns : List ℕ) → bytes_bits (ms ++ ns) ≡ bytes_bits ms ++ bytes_bits ns
bytes_bits-append [] ns = refl
bytes_bits-append (m ∷ ms) ns = ap (λ r. byte_bits m ++ r) (bytes_bits-append ms ns)

long_padded :
    (a b c d e f g h : Bool) (k : Key)
    → bytes_bits (key_to_bytes k) ≡ pad k
    → bytes_bits (key_to_bytes (a ∷ b ∷ c ∷ d ∷ e ∷ f ∷ g ∷ h ∷ k))
      ≡ pad (a ∷ b ∷ c ∷ d ∷ e ∷ f ∷ g ∷ h ∷ k)
long_padded a b c d e f g h k ih =
    ap bytes_bits (key_to_bytes-chunk a b c d e f g h k)
    ∙ bytes_bits-append _ _
    ∙ ap (λ r. r ++ bytes_bits (key_to_bytes k)) (eight_padded a b c d e f g h)
    ∙ ap (λ r. a ∷ b ∷ c ∷ d ∷ e ∷ f ∷ g ∷ h ∷ r) ih

-- Read back bit by bit, the bytes of `KeyToBytes(k)` are the bits of `k` followed by zeros up to
-- the next multiple of eight.
pub bytes_bits-key_to_bytes : (k : Key) → bytes_bits (key_to_bytes k) ≡ pad k
unfolding all_keys_of key_to_bytes
bytes_bits-key_to_bytes [] = refl
bytes_bits-key_to_bytes (a ∷ []) = short_padded (a ∷ []) refl
bytes_bits-key_to_bytes (a ∷ b ∷ []) = short_padded (a ∷ b ∷ []) refl
bytes_bits-key_to_bytes (a ∷ b ∷ c ∷ []) = short_padded (a ∷ b ∷ c ∷ []) refl
bytes_bits-key_to_bytes (a ∷ b ∷ c ∷ d ∷ []) = short_padded (a ∷ b ∷ c ∷ d ∷ []) refl
bytes_bits-key_to_bytes (a ∷ b ∷ c ∷ d ∷ e ∷ []) = short_padded (a ∷ b ∷ c ∷ d ∷ e ∷ []) refl
bytes_bits-key_to_bytes (a ∷ b ∷ c ∷ d ∷ e ∷ f ∷ []) =
    short_padded (a ∷ b ∷ c ∷ d ∷ e ∷ f ∷ []) refl
bytes_bits-key_to_bytes (a ∷ b ∷ c ∷ d ∷ e ∷ f ∷ g ∷ []) =
    short_padded (a ∷ b ∷ c ∷ d ∷ e ∷ f ∷ g ∷ []) refl
bytes_bits-key_to_bytes (a ∷ b ∷ c ∷ d ∷ e ∷ f ∷ g ∷ h ∷ k) =
    long_padded a b c d e f g h k (bytes_bits-key_to_bytes k)
