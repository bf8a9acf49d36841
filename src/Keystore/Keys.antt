-- ===== src/Keystore/Keys.antt =====
-- The keys under which provider/keystore/keystore.go stores a multihash, as texts.
--
-- A text is the list of its bytes. The Base64 of the standard library and `NewKey` of the
-- datastore are parameters.
use go_libp2p_hybrid_kad_dht.Prelude.{
  ℕ, zero, suc, ◌+◌, ◌-◌, ◌*◌, ◌/◌, ◌≡◌, Bool, true, Option, none, some, List, [], ◌∷◌, ◌++◌,
  length, get_elem?, take, drop, all, leb, ◌==◌, if◌then◌else◌, min, ◌>>=◌,
}
use go_libp2p_hybrid_kad_dht.Keyspace.Key.{Key, key_len, key_to_bytes}
use go_libp2p_hybrid_kad_dht.Keyspace.Key.Bytes.{bytes_bits}
use go_libp2p_hybrid_kad_dht.Keyspace.Key.Chunks.{is_byte}

abbrev pub Text : Type 0
Text = List ℕ

abbrev pub slash : ℕ
slash = 47

abbrev pub digit : Bool → ℕ
digit b = if b then 49 else 48

-- What the package calls: `URLEncoding.EncodeToString` and `DecodeString`, and `NewKey` with
-- `String`.
pub record Library : Type 0 where
  pub encode : List ℕ → Text
  pub decode : Text → Option (List ℕ)
  pub new_key : Text → Text

-- The bits of a key as the components of a path.
unfoldable pub bit_text : Key → Text
bit_text [] = []
bit_text (b ∷ k) = digit b ∷ slash ∷ bit_text k

-- What the code relies on: decoding undoes encoding; `NewKey` puts a slash in front, which is all
-- it does to components that end in the encoding of some bytes, and takes a slash off the end.
pub record Laws (l : Library) : Type 0 where
  pub decode-encode : (bs : List ℕ) → all is_byte bs ≡ true → l.decode (l.encode bs) ≡ some bs
  pub new_key-encode :
      (k : Key) (b : ℕ) (bs : List ℕ)
      → l.new_key (bit_text k ++ l.encode (b ∷ bs)) ≡ slash ∷ bit_text k ++ l.encode (b ∷ bs)
  pub new_key-bits :
      (b : Bool) (k : Key) → l.new_key (bit_text (b ∷ k)) ++ slash ∷ [] ≡ slash ∷ bit_text (b ∷ k)
  pub new_key_root : l.new_key [] ≡ slash ∷ []

-- The errors of `decodeKey`.
pub data DecodeError : Type 0 where
  illegal_base64 invalid_decoded_length : DecodeError

-- A slice `text[n:]`, which panics if it starts behind the end.
abbrev pub slice_from : Text → ℕ → Option Text
slice_from text n = if leb n (length text) then some (drop n text) else none

module _ (l : Library) where
  -- `dsKey`.
  unfoldable pub ds_key : ℕ → Key → Text
  unfolding bit_text
  ds_key prefix_bits k = l.new_key (
      bit_text (take (min prefix_bits (length k)) k)
      ++ (if length k == key_len then l.encode (drop (prefix_bits / 8) (key_to_bytes k)) else []))

  -- The loop of `decodeKey` over n bits from the i-th, which are those of the array `bs`.
  unfoldable pub decode_bits : Text → ℕ → ℕ → Option Key
  decode_bits text i zero = some []
  decode_bits text i (suc n) = do
    c ← get_elem? text (2 * i + 1)
    rest ← decode_bits text (suc i) n
    some ((c == 49) ∷ rest)

  -- `decodeKey`, for a number of bits that `WithPrefixBits` admits: whole bytes, and at most the
  -- length of a key. `none` is a panic.
  unfoldable pub decode_key : ℕ → Text → Option (Option DecodeError × Key)
  unfolding decode_bits
  decode_key prefix_bits text = do
    bits ← decode_bits text 0 prefix_bits
    suffix ← slice_from text (2 * prefix_bits + 1)
    elim (l.decode suffix) [
      | none ↦ some (some illegal_base64, [])
      | some decoded ↦
          if length decoded == 32 - prefix_bits / 8
          then some (none, bits ++ bytes_bits decoded)
          else some (some invalid_decoded_length, [])
    ]
