-- ===== src/Keystore/Present.antt =====
-- The entries that are left without multihashes which are held.
use go_libp2p_hybrid_kad_dht.Prelude.{
  delete, false-ne-true, ℕ, suc, ◌+◌, ◌*◌, ◌≡◌, ◌<◌, sym, ap, ◌∙◌, Bool, true, false, ◌&&◌, ◌||◌,
  not, List, [], ◌∷◌, map, length, arith, Bool-cases, inl, inr, mem, beq_sym, beq→eq, or_false,
  Distinct, Map, bool_eq, list_eq, nat_eq,
}
use go_libp2p_hybrid_kad_dht.Keyspace.Key.{Key, key_len}
use go_libp2p_hybrid_kad_dht.Keystore.Keys.{Text, Library, Laws, ds_key}
use go_libp2p_hybrid_kad_dht.Keystore.Operations.{Change, delete_change}
use go_libp2p_hybrid_kad_dht.Keystore.Contents.{
  text_eq, same_key, apply, texts, delete_absent, mem-delete,
}
use go_libp2p_hybrid_kad_dht.Keystore.Holds.{Keyed, mem_key, holds, text-same}

module _ {Mh : Type 0} where
  length-delete :
      (es : Map Text Mh) (t : Text)
      → Distinct (texts es)
      → mem t (texts es) ≡ true
      → suc (length (delete es t)) ≡ length es
  length-delete [] t d h = absurd (false-ne-true h)
  length-delete (x ∷ es) t d h = elim (Bool-cases (text_eq.beq x.0 t)) [
    | inl hit ↦ rw hit (
        ap (λ m. suc (length m))
          (delete_absent es t (ap (λ u. mem u (texts es)) (sym (beq→eq x.0 t hit)) ∙ d.0)))
    | inr miss ↦ rw miss (ap suc (length-delete es t d.1 (elsewhere _ _ (beq_sym t x.0 ∙ miss) h)))
  ]
    where
      elsewhere : (a b : Bool) → a ≡ false → a || b ≡ true → b ≡ true
      elsewhere a b h k = ground arith

  pub Distinct-delete :
      (es : Map Text Mh) (t : Text) → Distinct (texts es) → Distinct (texts (delete es t))
  Distinct-delete [] t d = tt
  Distinct-delete (x ∷ es) t d = elim (Bool-cases (text_eq.beq x.0 t)) [
    | inl hit ↦ rw hit (Distinct-delete es t d.1)
    | inr miss ↦ rw miss (
      mem-delete es t x.0 ∙ ap (λ b. not (text_eq.beq x.0 t) && b) d.0 ∙ never _,
      Distinct-delete es t d.1,
    )
  ]
    where
      never : (a : Bool) → a && false ≡ false
      never a = ground arith

module _ {Mh : Type 0} (l : Library) (laws : Laws l) (m : ℕ) (small : m < 32)
    (mh_to_bit256 : Mh → Key) (hashed : (h : Mh) → length (mh_to_bit256 h) ≡ key_len) where
  abbrev pub text_of : Key → Text
  text_of k = ds_key l (8 * m) k

  abbrev pub hashes : List Mh → List Key
  hashes hs = map mh_to_bit256 hs

  abbrev pub deletes : List Mh → List (Change Mh)
  deletes hs = map (λ h. delete_change (text_of (mh_to_bit256 h))) hs

  -- All multihashes of the list are held, and no key is in it twice.
  abbrev pub Present : Map Text Mh → List Mh → Type 0
  Present es [] = Unit {0}
  Present es (h ∷ hs) =
      (holds l m es (mh_to_bit256 h) ≡ true)
      × (mem_key (mh_to_bit256 h) (hashes hs) ≡ false)
      × Present es hs

  holds-delete :
      (es : Map Text Mh) (h : Mh) (k : Key)
      → length k ≡ key_len
      → holds l m (delete es (text_of (mh_to_bit256 h))) k
        ≡ not (same_key k (mh_to_bit256 h)) && holds l m es k
  holds-delete es h k len =
      mem-delete es (text_of (mh_to_bit256 h)) (text_of k)
      ∙ ap (λ b. not b && holds l m es k) (text-same l laws m small mh_to_bit256 hashed h k len)

  Present-delete :
      (es : Map Text Mh) (h : Mh) (hs : List Mh)
      → mem_key (mh_to_bit256 h) (hashes hs) ≡ false
      → Present es hs
      → Present (delete es (text_of (mh_to_bit256 h))) hs
  Present-delete es h [] n f = tt
  Present-delete es h (j ∷ hs) n f =
      let apart = or_false (same_key (mh_to_bit256 h) (mh_to_bit256 j)) _ n in
      (
        holds-delete es h (mh_to_bit256 j) (hashed j)
            ∙ still _ _ (beq_sym ⦃e = list_eq⦄ (mh_to_bit256 j) (mh_to_bit256 h) ∙ apart.0) f.0,
        f.1,
        Present-delete es h hs apart.1 f.2,
      )
    where
      still : (a b : Bool) → a ≡ false → b ≡ true → not a && b ≡ true
      still a b p q = ground arith

  -- The entries that are left without a list of multihashes.
  abbrev Applied : List Mh → Map Text Mh → Map Text Mh → Type 0
  Applied hs es es' =
      (length es' + length hs ≡ length es)
      × ((k : Key)
          → length k ≡ key_len
          → holds l m es' k ≡ holds l m es k && not (mem_key k (hashes hs)))
      × (Keyed l m mh_to_bit256 es → Keyed l m mh_to_bit256 es')

  Keyed-delete :
      (es : Map Text Mh) (t : Text)
      → Keyed l m mh_to_bit256 es
      → Keyed l m mh_to_bit256 (delete es t)
  Keyed-delete [] t keyed = tt
  Keyed-delete (x ∷ es) t keyed = elim (Bool-cases (text_eq.beq x.0 t)) [
    | inl hit ↦ rw hit (Keyed-delete es t keyed.1)
    | inr miss ↦ rw miss (keyed.0, Keyed-delete es t keyed.1)
  ]

  pub apply-deletes :
      (hs : List Mh) (es : Map Text Mh)
      → Present es hs
      → Distinct (texts es)
      → Applied hs es (apply (deletes hs) es)
  apply-deletes [] es f d = (omega arith, (λ k len. ground arith), (λ keyed. keyed))
  apply-deletes (h ∷ hs) es f d =
      let t = text_of (mh_to_bit256 h) in
      let rest =
        apply-deletes hs (delete es t) (Present-delete es h hs f.1 f.2) (Distinct-delete es t d) in
      (
        omega (arith, rest.0, length-delete es t d f.0),
        (λ k len.
            rest.1 k len
            ∙ moved (same_key k (mh_to_bit256 h)) (holds l m es k) _ (mem_key k (hashes hs))
                (holds-delete es h k len)),
        (λ keyed. rest.2 (Keyed-delete es t keyed)),
      )
    where
      moved : (a b c d : Bool) → c ≡ not a && b → c && not d ≡ b && not (a || d)
      moved a b c d p = ground arith
