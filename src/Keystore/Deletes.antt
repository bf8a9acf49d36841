-- ===== src/Keystore/Deletes.antt =====
-- `delete` of provider/keystore/keystore.go: what is stored afterwards.
use go_libp2p_hybrid_kad_dht.Prelude.{
  subst, ◌-◌, ◌-ℤ◌, pos-sub-pos, sub_ℕ-of_le, length-map, ℕ, ◌+◌, ◌*◌, ◌≡◌, ◌<◌, ◌⊎◌, refl, sym, ap,
  ◌∙◌, Bool, true, false, ◌&&◌, ◌||◌, not, Option, none, some, List, [], ◌∷◌, map, length, arith,
  inl, inr, beq_refl, Map, pos, bool_eq, list_eq, nat_eq, if◌then◌else◌,
}
use go_libp2p_hybrid_kad_dht.Keyspace.Key.{Key, key_len}
use go_libp2p_hybrid_kad_dht.Keystore.Keys.{Text, Library, Laws, ds_key}
use go_libp2p_hybrid_kad_dht.Keystore.Operations.{
  Change, delete_change, Datastore, Keystore, Error, batch_failed, has_failed, stage_failed,
  commit_failed, delete_loop, delete_keys,
}
use go_libp2p_hybrid_kad_dht.Keystore.Contents.{same_key, apply, Faithful}
use go_libp2p_hybrid_kad_dht.Keystore.Holds.{Keyed, mem_key, holds, at_same}
use go_libp2p_hybrid_kad_dht.Keystore.Present.{deletes, Present, apply-deletes}

module _ {Mh : Type 0} (l : Library) (laws : Laws l) (m : ℕ) (small : m < 32)
    (mh_to_bit256 : Mh → Key) (hashed : (h : Mh) → length (mh_to_bit256 h) ≡ key_len) where
  abbrev text_of : Key → Text
  text_of k = ds_key l (8 * m) k

  abbrev hashes : List Mh → List Key
  hashes hs = map mh_to_bit256 hs

  -- The keys among those that are still to be looked at of which there is an entry.
  abbrev OldKeys : Map Text Mh → List Key → List Mh → List Mh → Type 0
  OldKeys es seen hs old_keys =
      (k : Key)
      → mem_key k (hashes old_keys)
        ≡ mem_key k (hashes hs) && (not (mem_key k seen) && holds l m es k)

  abbrev Listed : Map Text Mh → List Key → List Mh → Error ⊎ List (Change Mh) → Type 0
  Listed es seen hs (inl e) = Unit {0}
  Listed es seen hs (inr cs) =
      (old_keys : List Mh) × (cs ≡ deletes l laws m small mh_to_bit256 hashed old_keys)
      × Present l laws m small mh_to_bit256 hashed es old_keys
      × OldKeys es seen hs old_keys

  seen_bool :
      (b c s o : Bool) → (b ≡ true → s ≡ true) → c && (not s && o) ≡ (b || c) && (not s && o)
  seen_bool true c s o h = ground (arith, h refl)
  seen_bool false c s o h = refl

  gone_bool :
      (b c s o : Bool)
      → (b ≡ true → o ≡ false)
      → c && (not (b || s) && o) ≡ (b || c) && (not s && o)
  gone_bool true c s o h = ground (arith, h refl)
  gone_bool false c s o h = refl

  old_bool :
      (b c s o : Bool)
      → (b ≡ true → (s ≡ false) × (o ≡ true))
      → b || (c && (not (b || s) && o)) ≡ (b || c) && (not s && o)
  old_bool true c s o h = ground (arith, (h refl).0, (h refl).1)
  old_bool false c s o h = refl

  Listed-skip :
      (es : Map Text Mh) (seen : List Key) (h : Mh) (hs : List Mh) (x : Error ⊎ List (Change Mh))
      → mem_key (mh_to_bit256 h) seen ≡ true
      → Listed es seen hs x
      → Listed es seen (h ∷ hs) x
  Listed-skip es seen h hs (inl e) s f = tt
  Listed-skip es seen h hs (inr r) s f = (
    f.0,
    f.1,
    f.2,
    (λ k.
        f.3 k
        ∙ seen_bool (same_key k (mh_to_bit256 h)) (mem_key k (hashes hs)) (mem_key k seen)
            (holds l m es k)
            (at_same l laws m small mh_to_bit256 hashed (λ j. mem_key j seen) h k true s)),
  )

  Listed-gone :
      (es : Map Text Mh) (seen : List Key) (h : Mh) (hs : List Mh) (x : Error ⊎ List (Change Mh))
      → holds l m es (mh_to_bit256 h) ≡ false
      → Listed es (mh_to_bit256 h ∷ seen) hs x
      → Listed es seen (h ∷ hs) x
  Listed-gone es seen h hs (inl e) s f = tt
  Listed-gone es seen h hs (inr r) s f = (
    f.0,
    f.1,
    f.2,
    (λ k.
        f.3 k
        ∙ gone_bool (same_key k (mh_to_bit256 h)) (mem_key k (hashes hs)) (mem_key k seen)
            (holds l m es k)
            (at_same l laws m small mh_to_bit256 hashed (λ j. holds l m es j) h k false s)),
  )

  Listed-old :
      (es : Map Text Mh) (seen : List Key) (h : Mh) (hs : List Mh) (x : Error ⊎ List (Change Mh))
      → mem_key (mh_to_bit256 h) seen ≡ false
      → holds l m es (mh_to_bit256 h) ≡ true
      → Listed es (mh_to_bit256 h ∷ seen) hs x
      → Listed es seen
          (h ∷ hs)
          (elim x [ inl e ↦ inl e | inr r ↦ inr (delete_change (text_of (mh_to_bit256 h)) ∷ r) ])
  Listed-old es seen h hs (inl e) s o f = tt
  Listed-old es seen h hs (inr r) s o f = (
    h ∷ f.0,
    ap (◌∷◌ (delete_change (text_of (mh_to_bit256 h)))) f.1,
    (
      o,
      f.3 (mh_to_bit256 h)
          ∙ itself _ _ (mem_key (mh_to_bit256 h) seen) _ (beq_refl ⦃e = list_eq⦄ (mh_to_bit256 h)),
      f.2,
    ),
    (λ k.
        ap (λ b. same_key k (mh_to_bit256 h) || b) (f.3 k)
        ∙ old_bool (same_key k (mh_to_bit256 h)) (mem_key k (hashes hs)) (mem_key k seen)
            (holds l m es k)
            (λ same. (
              at_same l laws m small mh_to_bit256 hashed (λ j. mem_key j seen) h k false s same,
              at_same l laws m small mh_to_bit256 hashed (λ j. holds l m es j) h k true o same,
            ))),
  )
    where
      itself : (a b c d : Bool) → b ≡ true → a && (not (b || c) && d) ≡ false
      itself a b c d h = ground arith

  module _ {Store : Type 0} (api : Datastore Store Mh) (faithful : Faithful api) where
    delete_loop-Listed :
        (s : Store) (seen : List Key) (hs : List Mh)
        → Listed (faithful.entries s) seen hs (delete_loop l api (8 * m) mh_to_bit256 s seen hs)
    unfolding delete_loop
    delete_loop-Listed s seen [] = ([], refl, tt, (λ k. refl))
    delete_loop-Listed s seen (h ∷ hs) =
        cases (mem_key k seen) (api.has s (text_of k)) (api.stage s change) refl refl
          (delete_loop-Listed s seen hs) (delete_loop-Listed s (k ∷ seen) hs)
      where
        k : Key
        k = mh_to_bit256 h

        change : Change Mh
        change = delete_change (text_of k)

        es : Map Text Mh
        es = faithful.entries s

        skipped : Error ⊎ List (Change Mh)
        skipped = delete_loop l api (8 * m) mh_to_bit256 s seen hs

        rest : Error ⊎ List (Change Mh)
        rest = delete_loop l api (8 * m) mh_to_bit256 s (k ∷ seen) hs

        body : Bool → Option Bool → Bool → Error ⊎ List (Change Mh)
        body b o staged = if b then skipped else elim o [
          | none ↦ inl has_failed
          | some held ↦
              if held
              then (if staged
                  then elim rest [ inl e ↦ inl e | inr r ↦ inr (change ∷ r) ]
                  else inl stage_failed)
              else rest
        ]

        cases :
            (b : Bool) (o : Option Bool) (staged : Bool)
            → mem_key k seen ≡ b
            → api.has s (text_of k) ≡ o
            → Listed es seen hs skipped
            → Listed es (k ∷ seen) hs rest
            → Listed es seen (h ∷ hs) (body b o staged)
        cases true o staged p q f g = Listed-skip es seen h hs skipped p f
        cases false none staged p q f g = tt
        cases false (some false) staged p q f g =
            Listed-gone es seen h hs rest (sym (faithful.has-entries s (text_of k) false q)) g
        cases false (some true) true p q f g =
            Listed-old es seen h hs rest p (sym (faithful.has-entries s (text_of k) true q)) g
        cases false (some true) false p q f g = tt

    -- The size that the keystore keeps is the number of the entries.
    abbrev Counted : Keystore Store → Type 0
    Counted ks = ks.size ≡ pos (length (faithful.entries ks.ds))

    -- What a `delete` may answer and leave.
    abbrev pub Deleted : Keystore Store → List Mh → Option Error × Keystore Store → Type 0
    Deleted ks hs (some e, ks') = (ks' ≡ ks) ⊎ ((e ≡ commit_failed) × (ks'.size ≡ ks.size))
    Deleted ks hs (none, ks') =
        Counted ks'
        × ((k : Key)
            → length k ≡ key_len
            → holds l m (faithful.entries ks'.ds) k
              ≡ holds l m (faithful.entries ks.ds) k && not (mem_key k (map mh_to_bit256 hs)))
        × (Keyed l m mh_to_bit256 (faithful.entries ks.ds)
            → Keyed l m mh_to_bit256 (faithful.entries ks'.ds))

    committed-Deleted :
        (ks : Keystore Store) (hs : List Mh) (cs : List (Change Mh)) (ds' : Store)
        → Counted ks
        → Listed (faithful.entries ks.ds) [] hs (inr cs)
        → api.commit ks.ds cs ≡ (ds', true)
        → Deleted ks hs (none, record { ds = ds'; size = ks.size -ℤ pos (length cs) })
    committed-Deleted ks hs cs ds' c f ok =
        let es = faithful.entries ks.ds in
        let at = faithful.commit-entries ks.ds ds' cs ok ∙ ap (λ x. apply x es) f.1 in
        let applied =
          apply-deletes l laws m small mh_to_bit256 hashed f.0 es f.2 (faithful.one_value ks.ds) in
        let number : length cs ≡ length f.0 =
          ap length f.1 ∙ length-map (λ h. delete_change (text_of (mh_to_bit256 h))) f.0 in
        (
          ap (λ z. z -ℤ pos (length cs)) c
              ∙ ap (λ n. pos (length es) -ℤ pos n) number
              ∙ pos-sub-pos (length es) (length f.0)
              ∙ sub_ℕ-of_le (length es) (length f.0) (omega (arith, applied.0))
              ∙ ap pos (left _ _ _ applied.0 ∙ ap length (sym at)),
          (λ k len.
              ap (λ x. holds l m x k) at
              ∙ applied.1 k len
              ∙ one_by_one (holds l m es k) _ (mem_key k (hashes hs)) (f.3 k)),
          (λ keyed. subst (Keyed l m mh_to_bit256) (sym at) (applied.2 keyed)),
        )
      where
        one_by_one : (o a b : Bool) → a ≡ b && (true && o) → o && not a ≡ o && not b
        one_by_one o a b h = ground arith

        left : (a b c : ℕ) → a + b ≡ c → c - b ≡ a
        left a b c h = omega (arith, h)

    pub delete_keys-Deleted :
        (ks : Keystore Store) (hs : List Mh)
        → Counted ks
        → Deleted ks hs (delete_keys l api (8 * m) mh_to_bit256 ks hs)
    unfolding delete_keys
    delete_keys-Deleted ks hs c =
        staged (api.batch ks.ds) (delete_loop l api (8 * m) mh_to_bit256 ks.ds [] hs)
          (delete_loop-Listed ks.ds [] hs)
      where
        ended : List (Change Mh) → Store × Bool → Option Error × Keystore Store
        ended cs done =
            if done.1
            then (none, record { ds = done.0; size = ks.size -ℤ pos (length cs) })
            else (some commit_failed, record ks { ds = done.0 })

        committed :
            (cs : List (Change Mh)) (done : Store × Bool)
            → Listed (faithful.entries ks.ds) [] hs (inr cs)
            → api.commit ks.ds cs ≡ done
            → Deleted ks hs (ended cs done)
        committed cs (ds', true) f ok = committed-Deleted ks hs cs ds' c f ok
        committed cs (ds', false) f ok = inr (refl, refl)

        staged :
            (b : Bool) (x : Error ⊎ List (Change Mh))
            → Listed (faithful.entries ks.ds) [] hs x
            → Deleted ks hs (
                if b
                then elim x [ inl e ↦ (some e, ks) | inr cs ↦ ended cs (api.commit ks.ds cs) ]
                else (some batch_failed, ks))
        staged false x f = inl refl
        staged true (inl e) f = inl refl
        staged true (inr cs) f = committed cs (api.commit ks.ds cs) f refl
