-- ===== src/Keyspace/Key/Chunks.antt =====
-- `KeyToBytes` of key.go on whole bytes: how many there are, and what dropping some leaves.
use go_libp2p_hybrid_kad_dht.Prelude.{
  ℕ, zero, suc, ◌+◌, ◌*◌, ◌≡◌, ◌≤◌, refl, sym, ap, ◌∙◌, Bool, true, false, List, [], ◌∷◌, ◌++◌,
  length, drop, all, ltb, arith, and_intro, false-ne-true,
}
use go_libp2p_hybrid_kad_dht.Keyspace.Key.{Key, key_to_bytes}
use go_libp2p_hybrid_kad_dht.Keyspace.Key.Bytes.{
  pad, all_keys_of, all_keys_of_sound, key_to_bytes-chunk,
}

abbrev pub is_byte : ℕ → Bool
is_byte b = ltb b 256

abbrev one_byte : List ℕ → Bool
one_byte (b ∷ []) = is_byte b
one_byte _ = false

single : (bs : List ℕ) → one_byte bs ≡ true → (b : ℕ) × (bs ≡ b ∷ []) × (is_byte b ≡ true)
single [] h = absurd (false-ne-true h)
single (b ∷ []) h = (b, refl, h)
single (b ∷ c ∷ bs) h = absurd (false-ne-true h)

one_byte-eight :
    (a b c d e f g h : Bool) → one_byte (key_to_bytes (a ∷ b ∷ c ∷ d ∷ e ∷ f ∷ g ∷ h ∷ [])) ≡ true
unfolding all_keys_of key_to_bytes
one_byte-eight a b c d e f g h =
    all_keys_of_sound (a ∷ b ∷ c ∷ d ∷ e ∷ f ∷ g ∷ h ∷ []) (λ k. one_byte (key_to_bytes k)) refl

-- A key of eight bits or more: its first byte, and the rest.
abbrev Chunk : Key → Type 0
Chunk k =
    (b : ℕ) × (rest : Key) × (key_to_bytes k ≡ b ∷ key_to_bytes rest)
    × (is_byte b ≡ true)
    × ((n : ℕ) → drop (8 + n) k ≡ drop n rest)
    × (length k ≡ 8 + length rest)
    × (pad rest ≡ rest → pad k ≡ k)

chunk : (k : Key) → 8 ≤ length k → Chunk k
chunk (a ∷ b ∷ c ∷ d ∷ e ∷ f ∷ g ∷ h ∷ k) l =
    let one =
      single (key_to_bytes (a ∷ b ∷ c ∷ d ∷ e ∷ f ∷ g ∷ h ∷ [])) (one_byte-eight a b c d e f g h) in
    (
      one.0,
      k,
      key_to_bytes-chunk a b c d e f g h k ∙ ap (λ r. r ++ key_to_bytes k) one.1,
      one.2,
      (λ n. ap (λ m. drop m (a ∷ b ∷ c ∷ d ∷ e ∷ f ∷ g ∷ h ∷ k)) (eight n)),
      omega arith,
      (λ p. ap (λ r. a ∷ b ∷ c ∷ d ∷ e ∷ f ∷ g ∷ h ∷ r) p),
    )
  where
    eight : (n : ℕ) → 8 + n ≡ suc (suc (suc (suc (suc (suc (suc (suc n)))))))
    eight n = omega arith
chunk [] l = absurd (omega (arith, l))
chunk (a ∷ []) l = absurd (omega (arith, l))
chunk (a ∷ b ∷ []) l = absurd (omega (arith, l))
chunk (a ∷ b ∷ c ∷ []) l = absurd (omega (arith, l))
chunk (a ∷ b ∷ c ∷ d ∷ []) l = absurd (omega (arith, l))
chunk (a ∷ b ∷ c ∷ d ∷ e ∷ []) l = absurd (omega (arith, l))
chunk (a ∷ b ∷ c ∷ d ∷ e ∷ f ∷ []) l = absurd (omega (arith, l))
chunk (a ∷ b ∷ c ∷ d ∷ e ∷ f ∷ g ∷ []) l = absurd (omega (arith, l))

-- Dropping bytes drops eight bits each.
pub drop-key_to_bytes :
    (m : ℕ) (k : Key) → 8 * m ≤ length k → drop m (key_to_bytes k) ≡ key_to_bytes (drop (8 * m) k)
drop-key_to_bytes zero k l = refl
drop-key_to_bytes (suc m) k l =
    let c = chunk k (omega (arith, l)) in
    ap (drop (suc m)) c.2
    ∙ drop-key_to_bytes m c.1 (omega (arith, l, c.5))
    ∙ ap key_to_bytes (sym (c.4 (8 * m)) ∙ ap (λ n. drop n k) (eight_more m))
  where
    eight_more : (m : ℕ) → 8 + 8 * m ≡ 8 * suc m
    eight_more m = omega arith

-- A key of whole bytes: the bytes, their number, and no padding.
pub key_to_bytes_whole :
    (m : ℕ) (k : Key)
    → length k ≡ 8 * m
    → (all is_byte (key_to_bytes k) ≡ true) × (length (key_to_bytes k) ≡ m) × (pad k ≡ k)
unfolding key_to_bytes
key_to_bytes_whole zero [] l = (refl, refl, refl)
key_to_bytes_whole zero (a ∷ k) l = absurd (omega (arith, l))
key_to_bytes_whole (suc m) k l =
    let c = chunk k (omega (arith, l)) in
    let rest = key_to_bytes_whole m c.1 (omega (arith, l, c.5)) in
    (
      ap (all is_byte) c.2 ∙ and_intro (is_byte c.0) _ c.3 rest.0,
      ap length c.2 ∙ ap suc rest.1,
      c.6 rest.2,
    )
