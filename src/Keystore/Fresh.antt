-- ===== src/Keystore/Fresh.antt =====
-- The entries that come of putting multihashes which are not held.
use go_libp2p_hybrid_kad_dht.Prelude.{
  ℕ, ◌+◌, ◌*◌, ◌≡◌, ◌<◌, refl, sym, subst, ◌∙◌, Bool, false, ◌||◌, List, [], ◌∷◌, map, length,
  arith, beq_sym, or_false, Map, bool_eq, list_eq, nat_eq,
}
use go_libp2p_hybrid_kad_dht.Keyspace.Key.{Key, key_len}
use go_libp2p_hybrid_kad_dht.Keystore.Keys.{Text, Library, Laws, ds_key}
use go_libp2p_hybrid_kad_dht.Keystore.Operations.{Change, put_change}
use go_libp2p_hybrid_kad_dht.Keystore.Contents.{same_key, apply, put_absent}
use go_libp2p_hybrid_kad_dht.Keystore.Holds.{Keyed, mem_key, holds, text-same}

module _ {Mh : Type 0} (l : Library) (laws : Laws l) (m : ℕ) (small : m < 32)
    (mh_to_bit256 : Mh → Key) (hashed : (h : Mh) → length (mh_to_bit256 h) ≡ key_len) where
  abbrev pub text_of : Key → Text
  text_of k = ds_key l (8 * m) k

  abbrev pub hashes : List Mh → List Key
  hashes hs = map mh_to_bit256 hs

  abbrev pub puts : List Mh → List (Change Mh)
  puts hs = map (λ h. put_change (text_of (mh_to_bit256 h)) h) hs

  -- No multihash of the list is held, and no key is in it twice.
  abbrev pub Fresh : Map Text Mh → List Mh → Type 0
  Fresh es [] = Unit {0}
  Fresh es (h ∷ hs) =
      (holds l m es (mh_to_bit256 h) ≡ false)
      × (mem_key (mh_to_bit256 h) (hashes hs) ≡ false)
      × Fresh es hs

  Fresh-cons :
      (es : Map Text Mh) (h : Mh) (hs : List Mh)
      → mem_key (mh_to_bit256 h) (hashes hs) ≡ false
      → Fresh es hs
      → Fresh ((text_of (mh_to_bit256 h), h) ∷ es) hs
  Fresh-cons es h [] n f = tt
  Fresh-cons es h (j ∷ hs) n f =
      let apart = or_false (same_key (mh_to_bit256 h) (mh_to_bit256 j)) _ n in
      (
        either _ _
            (text-same l laws m small mh_to_bit256 hashed h (mh_to_bit256 j) (hashed j)
              ∙ beq_sym ⦃e = list_eq⦄ (mh_to_bit256 j) (mh_to_bit256 h)
              ∙ apart.0)
            f.0,
        f.1,
        Fresh-cons es h hs apart.1 f.2,
      )
    where
      either : (a b : Bool) → a ≡ false → b ≡ false → a || b ≡ false
      either a b p q = ground arith

  -- The entries that come of a list of fresh multihashes.
  abbrev Applied : List Mh → Map Text Mh → Map Text Mh → Type 0
  Applied hs es es' =
      (length es' ≡ length es + length hs)
      × ((k : Key) → length k ≡ key_len → holds l m es' k ≡ holds l m es k || mem_key k (hashes hs))
      × (Keyed l m mh_to_bit256 es → Keyed l m mh_to_bit256 es')

  pub apply-puts :
      (hs : List Mh) (es : Map Text Mh) → Fresh es hs → Applied hs es (apply (puts hs) es)
  apply-puts [] es f = (omega arith, (λ k len. ground arith), (λ keyed. keyed))
  apply-puts (h ∷ hs) es f =
      let t = text_of (mh_to_bit256 h) in
      let rest = apply-puts hs ((t, h) ∷ es) (Fresh-cons es h hs f.1 f.2) in
      subst (λ x. Applied (h ∷ hs) es (apply (puts hs) x)) (sym (put_absent es t h f.0))
        (
          omega (arith, rest.0),
          (λ k len.
              rest.1 k len
              ∙ moved _ _ (holds l m es k) (mem_key k (hashes hs))
                  (text-same l laws m small mh_to_bit256 hashed h k len)),
          (λ keyed. rest.2 (refl, keyed)),
        )
    where
      moved : (a b c d : Bool) → a ≡ b → (a || c) || d ≡ c || (b || d)
      moved a b c d p = ground arith
