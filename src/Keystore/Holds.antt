-- ===== src/Keystore/Holds.antt =====
-- Which keys of multihashes the entries of a keystore hold.
use go_libp2p_hybrid_kad_dht.Prelude.{
  [], ◌∷◌, ℕ, ◌*◌, ◌≡◌, ◌<◌, refl, ap, ◌∙◌, Bool, true, false, ◌&&◌, ◌||◌, not, List, map, length,
  arith, mem, beq→eq, Map, bool_eq, list_eq, nat_eq,
}
use go_libp2p_hybrid_kad_dht.Keyspace.Key.{Key, key_len}
use go_libp2p_hybrid_kad_dht.Keystore.Keys.{Text, Library, Laws, ds_key}
use go_libp2p_hybrid_kad_dht.Keystore.Contents.{text_eq, same_key, texts, beq-ds_key}

abbrev pub mem_key : Key → List Key → Bool
mem_key k ks = mem ⦃e = list_eq⦄ k ks

-- Every multihash stands under its own key.
abbrev pub Keyed : {Mh : Type 0} → Library → ℕ → (Mh → Key) → Map Text Mh → Type 0
Keyed l m mh_to_bit256 [] = Unit {0}
Keyed l m mh_to_bit256 (x ∷ es) =
    (x.0 ≡ ds_key l (8 * m) (mh_to_bit256 x.1)) × Keyed l m mh_to_bit256 es

-- Whether the entries have a multihash with the key, for m bytes of bits as components.
abbrev pub holds : {Mh : Type 0} → Library → ℕ → Map Text Mh → Key → Bool
holds l m es k = mem (ds_key l (8 * m) k) (texts es)

pub skip_bool :
    (b c s o : Bool) → (b ≡ true → s ≡ true) → c && (not s && not o) ≡ (b || c) && (not s && not o)
skip_bool true c s o h = ground (arith, h refl)
skip_bool false c s o h = refl

module _ {Mh : Type 0} (l : Library) (laws : Laws l) (m : ℕ) (small : m < 32)
    (mh_to_bit256 : Mh → Key) (hashed : (h : Mh) → length (mh_to_bit256 h) ≡ key_len) where
  abbrev text_of : Key → Text
  text_of k = ds_key l (8 * m) k

  abbrev hashes : List Mh → List Key
  hashes hs = map mh_to_bit256 hs

  pub text-same :
      (h : Mh) (k : Key)
      → length k ≡ key_len
      → text_eq.beq (text_of k) (text_of (mh_to_bit256 h)) ≡ same_key k (mh_to_bit256 h)
  text-same h k len = beq-ds_key l laws m k (mh_to_bit256 h) small len (hashed h)

  -- A key that is the same is treated the same.
  pub at_same {ℓ} :
      {A : Type ℓ} (f : Key → A) (h : Mh) (k : Key) (a : A)
      → f (mh_to_bit256 h) ≡ a
      → same_key k (mh_to_bit256 h) ≡ true
      → f k ≡ a
  at_same f h k a e s = ap f (beq→eq ⦃e = list_eq⦄ k (mh_to_bit256 h) s) ∙ e
