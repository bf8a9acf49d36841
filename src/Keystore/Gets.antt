-- ===== src/Keystore/Gets.antt =====
-- `get` and `containsPrefix` of provider/keystore/keystore.go: what they find.
use go_libp2p_hybrid_kad_dht.Prelude.{
  ℕ, zero, suc, ◌+◌, ◌*◌, ◌≡◌, ◌<◌, ◌≤◌, ◌⊎◌, refl, sym, ap, ◌∙◌, Bool, true, false, some, [], ◌∷◌,
  ◌++◌, map, length, any, select, take, min, ltb, leb, ◌==◌, arith, Bool-cases, inl, inr, Map,
  length-append, length-take, false-ne-true, append-nil,
}
use go_libp2p_hybrid_kad_dht.Keyspace.Key.{Key, key_len, is_prefix}
use go_libp2p_hybrid_kad_dht.Keyspace.Key.Prefixes.{starts, is_prefix-starts}
use go_libp2p_hybrid_kad_dht.Keystore.Keys.{
  Text, slash, bit_text, Library, Laws, ds_key, decode_key,
}
use go_libp2p_hybrid_kad_dht.Keystore.RoundTrip.{decode_key-ds_key, ds_key-stored, length-bit_text}
use go_libp2p_hybrid_kad_dht.Keystore.Operations.{
  Datastore, tested, decoded_passes, get_loop, get_keys, contains_loop, contains_prefix,
}
use go_libp2p_hybrid_kad_dht.Keystore.Holds.{Keyed}
use go_libp2p_hybrid_kad_dht.Keystore.Contents.{begins, under, is_error, Faithful}

begins-bit_text :
    (p k : Key) (t : Text)
    → length p ≤ length k
    → begins (bit_text p) (bit_text k ++ t) ≡ starts p k
unfolding bit_text
begins-bit_text [] k t h = refl
begins-bit_text (b ∷ p) [] t h = absurd (omega (arith, h))
begins-bit_text (true ∷ p) (true ∷ k) t h = begins-bit_text p k t (omega (arith, h))
begins-bit_text (true ∷ p) (false ∷ k) t h = refl
begins-bit_text (false ∷ p) (true ∷ k) t h = refl
begins-bit_text (false ∷ p) (false ∷ k) t h = begins-bit_text p k t (omega (arith, h))

-- A prefix that is cut off with its key.
starts-take : (n : ℕ) (p k : Key) → starts p k ≡ true → starts (take n p) (take n k) ≡ true
starts-take zero p k h = refl
starts-take (suc n) [] k h = refl
starts-take (suc n) (b ∷ p) [] h = absurd (false-ne-true h)
starts-take (suc n) (b ∷ p) (c ∷ k) h = ground (arith, starts-take n p k)

starts_short : (n : ℕ) (p k : Key) → length p ≤ n → starts (take n p) (take n k) ≡ starts p k
starts_short n [] k h = at_nil n
  where
    at_nil : (n : ℕ) → starts (take n []) (take n k) ≡ true
    at_nil zero = refl
    at_nil (suc n) = refl
starts_short zero (b ∷ p) k h = absurd (omega (arith, h))
starts_short (suc n) (b ∷ p) [] h = refl
starts_short (suc n) (b ∷ p) (c ∷ k) h = ground (arith, starts_short n p k)

take-min : (n : ℕ) (p : Key) → take (min n (length p)) p ≡ take n p
take-min n p = elim (Bool-cases (leb n (length p))) [
  | inl within ↦ ap (λ i. take i p) (fits n (length p) within)
  | inr beyond ↦ ap (λ i. take i p) (cut n (length p) beyond) ∙ all_of p ∙ sym (more n p beyond)
]
  where
    fits : (a b : ℕ) → leb a b ≡ true → min a b ≡ a
    fits a b h = ground arith

    cut : (a b : ℕ) → leb a b ≡ false → min a b ≡ b
    cut a b h = ground arith

    all_of : (p : Key) → take (length p) p ≡ p
    all_of [] = refl
    all_of (b ∷ p) = ap (◌∷◌ b) (all_of p)

    more : (n : ℕ) (p : Key) → leb n (length p) ≡ false → take n p ≡ p
    more zero p h = absurd (ground arith)
    more (suc n) [] h = refl
    more (suc n) (b ∷ p) h = ap (◌∷◌ b) (more n p (ground arith))

module _ {Mh : Type 0} (l : Library) (laws : Laws l) (m : ℕ) (small : m < 32)
    (mh_to_bit256 : Mh → Key) (hashed : (h : Mh) → length (mh_to_bit256 h) ≡ key_len) where
  ds_key_prefix :
      (p : Key) → length p < key_len → ds_key l (8 * m) p ≡ l.new_key (bit_text (take (8 * m) p))
  unfolding ds_key
  ds_key_prefix p short =
      rw (ds_key, not_full (length p) short, take-min (8 * m) p)
        (ap l.new_key (append-nil (bit_text (take (8 * m) p))))
    where
      not_full : (n : ℕ) → n < key_len → (n == key_len) ≡ false
      not_full n h = ground arith

  under-cut :
      (q k : Key) (t : Text)
      → length q ≤ length k
      → under (l.new_key (bit_text q)) (slash ∷ bit_text k ++ t) ≡ starts q k
  unfolding bit_text
  under-cut [] k t h = rw (laws.new_key_root) refl
  under-cut (b ∷ q) k t h = rw (laws.new_key-bits b q, deep) (begins-bit_text (b ∷ q) k t h)
    where
      longer : (a c : ℕ) → a + 1 ≡ suc (2 * suc c) → leb a 1 ≡ false
      longer a c e = ground arith

      deep : leb (length (l.new_key (bit_text (b ∷ q)))) 1 ≡ false
      deep = longer (length (l.new_key (bit_text (b ∷ q)))) (length q) (
          sym (length-append (l.new_key (bit_text (b ∷ q))) (slash ∷ []))
          ∙ ap length (laws.new_key-bits b q)
          ∙ ap suc (length-bit_text (b ∷ q)))

  -- The query of a prefix finds the keys that agree with it as far as the path goes.
  under-ds_key :
      (p k : Key)
      → length p < key_len
      → length k ≡ key_len
      → under (ds_key l (8 * m) p) (ds_key l (8 * m) k) ≡ starts (take (8 * m) p) (take (8 * m) k)
  under-ds_key p k short len =
      rw (ds_key_prefix p short, ds_key-stored l laws m k len small)
        (under-cut (take (8 * m) p) (take (8 * m) k) _
          (omega (arith, length-take (8 * m) p, length-take (8 * m) k, short, len)))

  module _ {Store : Type 0} (api : Datastore Store Mh) (faithful : Faithful api) where
    abbrev passes : Key → (Text × Mh) → Bool
    passes p x = is_prefix p (mh_to_bit256 x.1)

    decoded_passes-stored :
        (p : Key) (x : Text × Mh)
        → x.0 ≡ ds_key l (8 * m) (mh_to_bit256 x.1)
        → decoded_passes l api (8 * m) p x.0 ≡ inr (passes p x)
    decoded_passes-stored p x e = ap (tested p) (
        ap (decode_key l (8 * m)) e
        ∙ decode_key-ds_key l laws m (mh_to_bit256 x.1) (hashed x.1) small)

    -- What an entry is worth to a query: it is not found, or found and tested.
    found_or_not :
        (p : Key) (x : Text × Mh)
        → length p < key_len
        → x.0 ≡ ds_key l (8 * m) (mh_to_bit256 x.1)
        → (under (ds_key l (8 * m) p) x.0 ≡ false) × (passes p x ≡ false)
          ⊎ (under (ds_key l (8 * m) p) x.0 ≡ true)
            × ((ltb (8 * m) (length p) ≡ true)
                ⊎ (ltb (8 * m) (length p) ≡ false) × (passes p x ≡ true))
    found_or_not p x short e =
        let k = mh_to_bit256 x.1 in
        let at : under (ds_key l (8 * m) p) x.0 ≡ starts (take (8 * m) p) (take (8 * m) k) =
          ap (under (ds_key l (8 * m) p)) e ∙ under-ds_key p k short (hashed x.1) in
        elim (Bool-cases (starts (take (8 * m) p) (take (8 * m) k))) [
          | inl agrees ↦ inr (
            at ∙ agrees,
            elim (Bool-cases (ltb (8 * m) (length p))) [
              | inl long ↦ inl long
              | inr within ↦ inr (
                within,
                is_prefix-starts p k
                    ∙ sym (starts_short (8 * m) p k (not_long (8 * m) (length p) within))
                    ∙ agrees,
              )
            ],
          )
          | inr differs ↦
              inl (at ∙ differs, is_prefix-starts p k ∙ never _ _ (starts-take (8 * m) p k) differs)
        ]
      where
        not_long : (a b : ℕ) → ltb a b ≡ false → b ≤ a
        not_long a b h = ground arith

        never : (a b : Bool) → (a ≡ true → b ≡ true) → b ≡ false → a ≡ false
        never true b f h = absurd (false-ne-true (sym h ∙ f refl))
        never false b f h = refl

    get_loop-select :
        (p : Key) (es : Map Text Mh)
        → length p < key_len
        → Keyed l m mh_to_bit256 es
        → get_loop l api (8 * m) p (map some (select (λ x. under (ds_key l (8 * m) p) x.0) es))
          ≡ inr (map (λ x. x.1) (select (passes p) es))
    unfolding get_loop
    get_loop-select p [] short keyed = refl
    get_loop-select p (x ∷ es) short keyed =
        let rest = get_loop-select p es short keyed.1 in
        elim (found_or_not p x short keyed.0) [
          | inl out ↦ rw (out.0, out.1) rest
          | inr found ↦ elim found.1 [
            | inr within ↦ rw (found.0, within.1, get_loop, within.0, rest) refl
            | inl long ↦ elim (Bool-cases (passes p x)) [
              | inl good ↦
                  rw (found.0, good, get_loop, long, decoded_passes-stored p x keyed.0, good, rest)
                    refl
              | inr bad ↦
                  rw (found.0, bad, get_loop, long, decoded_passes-stored p x keyed.0, bad, rest)
                    refl
            ]
          ]
        ]

    contains_loop-any :
        (p : Key) (es : Map Text Mh)
        → length p < key_len
        → Keyed l m mh_to_bit256 es
        → contains_loop l api (8 * m) p (map some (select (λ x. under (ds_key l (8 * m) p) x.0) es))
          ≡ inr (any (passes p) es)
    unfolding contains_loop
    contains_loop-any p [] short keyed = refl
    contains_loop-any p (x ∷ es) short keyed =
        let rest = contains_loop-any p es short keyed.1 in
        elim (found_or_not p x short keyed.0) [
          | inl out ↦ rw (out.0, out.1) rest
          | inr found ↦ elim found.1 [
            | inr within ↦ rw (found.0, within.1, contains_loop, within.0) refl
            | inl long ↦ elim (Bool-cases (passes p x)) [
              | inl good ↦
                  rw (found.0, good, contains_loop, long, decoded_passes-stored p x keyed.0, good)
                    refl
              | inr bad ↦
                  rw
                    (
                      found.0,
                      bad,
                      contains_loop,
                      long,
                      decoded_passes-stored p x keyed.0,
                      bad,
                      rest,
                    )
                    refl
            ]
          ]
        ]

    -- Let Base64, `NewKey` and the datastore do what the package relies on, the bits in the path be
    -- whole bytes, fewer than 256, every multihash stand under its own key, the prefix be shorter
    -- than a key, and the query report no error. Then `get` finds exactly the multihashes whose
    -- keys begin with the prefix, and `containsPrefix` tells whether there is one, both without an
    -- error or a panic, whether the prefix is longer than the path or not.
    pub get_keys_finds :
        (s : Store) (prefix : Key)
        → length prefix < key_len
        → Keyed l m mh_to_bit256 (faithful.entries s)
        → any is_error (api.query s (ds_key l (8 * m) prefix)) ≡ false
        → (get_keys l api (8 * m) s prefix
            ≡ inr (
                map
                  (λ x. x.1)
                  (select (λ x. is_prefix prefix (mh_to_bit256 x.1)) (faithful.entries s))))
          × (contains_prefix l api (8 * m) s prefix
              ≡ inr (any (λ x. is_prefix prefix (mh_to_bit256 x.1)) (faithful.entries s)))
    unfolding get_keys contains_prefix
    get_keys_finds s prefix short keyed fine =
        let found = faithful.query-entries s (ds_key l (8 * m) prefix) fine in
        (
          ap (get_loop l api (8 * m) prefix) found
              ∙ get_loop-select prefix (faithful.entries s) short keyed,
          ap (contains_loop l api (8 * m) prefix) found
              ∙ contains_loop-any prefix (faithful.entries s) short keyed,
        )
