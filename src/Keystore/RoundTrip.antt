-- ===== src/Keystore/RoundTrip.antt =====
-- `decodeKey` of provider/keystore/keystore.go undoes `dsKey`.
use go_libp2p_hybrid_kad_dht.Prelude.{
  ℕ, suc, ◌+◌, ◌-◌, ◌*◌, ◌/◌, ◌≡◌, ◌≤◌, ◌<◌, refl, sym, ap, ◌∙◌, Bool, true, false, none, some,
  List, [], ◌∷◌, ◌++◌, length, get_elem?, take, drop, leb, ◌==◌, min, arith, length-drop,
  length-take, take-append-drop, length-append,
}
use go_libp2p_hybrid_kad_dht.Keyspace.Key.{Key, key_len, key_to_bytes}
use go_libp2p_hybrid_kad_dht.Keyspace.Key.Bytes.{bytes_bits-key_to_bytes}
use go_libp2p_hybrid_kad_dht.Keyspace.Key.Chunks.{drop-key_to_bytes, key_to_bytes_whole}
use go_libp2p_hybrid_kad_dht.Keystore.Keys.{
  Text, slash, digit, Library, Laws, bit_text, ds_key, decode_bits, decode_key,
}

pub length-bit_text : (k : Key) → length (bit_text k) ≡ 2 * length k
unfolding bit_text
length-bit_text [] = refl
length-bit_text (b ∷ k) = omega (arith, length-bit_text k)

digit-bit : (b : Bool) → (digit b == 49) ≡ b
digit-bit true = refl
digit-bit false = refl

drop_front : (k : Key) (t : Text) (n : ℕ) → n ≡ 2 * length k → drop n (bit_text k ++ t) ≡ t
unfolding bit_text
drop_front [] t n h = ap (λ m. drop m t) h
drop_front (b ∷ k) t n h =
    ap (λ m. drop m (bit_text (b ∷ k) ++ t)) two ∙ drop_front k t (2 * length k) refl
  where
    two : n ≡ suc (suc (2 * length k))
    two = omega (arith, h)

-- The bits are read at the odd places.
decode_bits-bit_text :
    (l : Library) (text : Text) (k : Key) (i : ℕ) (t : Text)
    → ((n : ℕ) → get_elem? text (2 * i + 1 + n) ≡ get_elem? (bit_text k ++ t) n)
    → decode_bits l text i (length k) ≡ some k
unfolding decode_bits bit_text
decode_bits-bit_text l text [] i t h = refl
decode_bits-bit_text l text (b ∷ k) i t h =
    rw
      (
        decode_bits,
        ap (get_elem? text) (at i) ∙ h 0,
        decode_bits-bit_text l text k (suc i) t
            (λ n. ap (get_elem? text) (behind i n) ∙ h (suc (suc n))),
        digit-bit b,
      )
      refl
  where
    at : (i : ℕ) → 2 * i + 1 ≡ 2 * i + 1 + 0
    at i = omega arith

    behind : (i n : ℕ) → 2 * suc i + 1 + n ≡ 2 * i + 1 + suc (suc n)
    behind i n = omega arith

cons_of_length : (bs : List ℕ) → 1 ≤ length bs → (b : ℕ) × (rest : List ℕ) × (bs ≡ b ∷ rest)
cons_of_length [] h = absurd (omega (arith, h))
cons_of_length (b ∷ bs) h = (b, bs, refl)

-- The text that is stored, for m whole bytes of bits as components.
abbrev pub stored : Library → ℕ → Key → Text
stored l m k = slash ∷ bit_text (take (8 * m) k) ++ l.encode (key_to_bytes (drop (8 * m) k))

pub ds_key-stored :
    (l : Library) (laws : Laws l) (m : ℕ) (k : Key)
    → length k ≡ key_len
    → m < 32
    → ds_key l (8 * m) k ≡ stored l m k
unfolding ds_key
ds_key-stored l laws m k len small =
    let bytes = key_to_bytes (drop (8 * m) k) in
    let whole =
      key_to_bytes_whole (32 - m) (drop (8 * m) k) (omega (arith, length-drop (8 * m) k, len)) in
    let c = cons_of_length bytes (omega (arith, whole.1, small)) in
    rw
      (
        ds_key,
        fits,
        eighth,
        ap (λ n. n == key_len) len,
        drop-key_to_bytes m k (omega (arith, len, small)),
      )
      (ap (λ bs. l.new_key (bit_text (take (8 * m) k) ++ l.encode bs)) c.2
        ∙ laws.new_key-encode (take (8 * m) k) c.0 c.1
        ∙ ap (λ bs. slash ∷ bit_text (take (8 * m) k) ++ l.encode bs) (sym c.2))
  where
    fits : min (8 * m) (length k) ≡ 8 * m
    fits = omega (arith, len, small)

    eighth : 8 * m / 8 ≡ m
    eighth = omega arith

-- Let Base64 decode what it encodes and `NewKey` put a slash in front of components that end in
-- the encoding of some bytes, let the bits in the path be whole bytes, fewer than 256, and the key
-- be 256 bits long. Then `decodeKey` does not panic and returns, without an error, the key that
-- `dsKey` was given.
pub decode_key-ds_key :
    (l : Library) (laws : Laws l) (m : ℕ) (k : Key)
    → length k ≡ key_len
    → m < 32
    → decode_key l (8 * m) (ds_key l (8 * m) k) ≡ some (none, k)
unfolding decode_key
decode_key-ds_key l laws m k len small =
    let front = take (8 * m) k in
    let rest = drop (8 * m) k in
    let whole = key_to_bytes_whole (32 - m) rest (omega (arith, length-drop (8 * m) k, len)) in
    let suffix = l.encode (key_to_bytes rest) in
    ap (decode_key l (8 * m)) (ds_key-stored l laws m k len small)
    ∙ rw
        (
          decode_key,
          ap (decode_bits l (stored l m k) 0) (sym front_length)
              ∙ decode_bits-bit_text l (stored l m k) front 0 suffix
                  (λ n. ap (get_elem? (stored l m k)) (after n)),
          long,
          drop_stored,
          laws.decode-encode (key_to_bytes rest) whole.0,
          whole.1,
          eighth,
          same,
          bytes_bits-key_to_bytes rest,
          whole.2,
          take-append-drop (8 * m) k,
        )
        refl
  where
    front_length : length (take (8 * m) k) ≡ 8 * m
    front_length = omega (arith, length-take (8 * m) k, len, small)

    after : (n : ℕ) → 2 * 0 + 1 + n ≡ suc n
    after n = omega arith

    eighth : 8 * m / 8 ≡ m
    eighth = omega arith

    same : ((32 - m) == (32 - m)) ≡ true
    same = ground arith

    drop_stored : drop (2 * (8 * m) + 1) (stored l m k) ≡ l.encode (key_to_bytes (drop (8 * m) k))
    drop_stored =
        ap (λ n. drop n (stored l m k)) one_more
        ∙ drop_front (take (8 * m) k) (l.encode (key_to_bytes (drop (8 * m) k))) (2 * (8 * m))
            (omega (arith, front_length))
      where
        one_more : 2 * (8 * m) + 1 ≡ suc (2 * (8 * m))
        one_more = omega arith

    long : leb (2 * (8 * m) + 1) (length (stored l m k)) ≡ true
    long = ground (
      arith,
      length-append (bit_text (take (8 * m) k)) (l.encode (key_to_bytes (drop (8 * m) k))),
      length-bit_text (take (8 * m) k),
      front_length,
    )
