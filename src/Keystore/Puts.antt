-- ===== src/Keystore/Puts.antt =====
-- `put` of provider/keystore/keystore.go: what it answers, and what is stored afterwards.
use go_libp2p_hybrid_kad_dht.Prelude.{
  ℕ, ◌*◌, ◌≡◌, ◌<◌, ◌⊎◌, refl, sym, ap, subst, ◌∙◌, Bool, true, false, ◌&&◌, ◌||◌, not, Option,
  none, some, List, [], ◌∷◌, map, length, arith, inl, inr, beq_refl, Distinct, Map, pos, ◌+ℤ◌,
  bool_eq, list_eq, nat_eq, pos-add-pos, if◌then◌else◌,
}
use go_libp2p_hybrid_kad_dht.Keyspace.Key.{Key, key_len}
use go_libp2p_hybrid_kad_dht.Keystore.Keys.{Text, Library, Laws, ds_key}
use go_libp2p_hybrid_kad_dht.Keystore.Operations.{
  Change, put_change, Datastore, Keystore, Error, batch_failed, has_failed, stage_failed,
  commit_failed, put_loop, put_keys,
}
use go_libp2p_hybrid_kad_dht.Keystore.Contents.{same_key, apply, Faithful}
use go_libp2p_hybrid_kad_dht.Keystore.Holds.{Keyed, mem_key, holds, skip_bool, at_same}
use go_libp2p_hybrid_kad_dht.Keystore.Fresh.{puts, Fresh, apply-puts}

module _ {Mh : Type 0} (l : Library) (laws : Laws l) (m : ℕ) (small : m < 32)
    (mh_to_bit256 : Mh → Key) (hashed : (h : Mh) → length (mh_to_bit256 h) ≡ key_len) where
  abbrev text_of : Key → Text
  text_of k = ds_key l (8 * m) k

  abbrev hashes : List Mh → List Key
  hashes hs = map mh_to_bit256 hs

  -- The new keys among those that are still to be looked at.
  abbrev NewKeys : Map Text Mh → List Key → List Mh → List Mh → Type 0
  NewKeys es seen hs new_keys =
      (k : Key)
      → mem_key k (hashes new_keys)
        ≡ mem_key k (hashes hs) && (not (mem_key k seen) && not (holds l m es k))

  abbrev Listed : Map Text Mh → List Key → List Mh → Error ⊎ (List (Change Mh) × List Mh) → Type 0
  Listed es seen hs (inl e) = Unit {0}
  Listed es seen hs (inr r) =
      (r.0 ≡ puts l laws m small mh_to_bit256 hashed r.1)
      × Fresh l laws m small mh_to_bit256 hashed es r.1
      × NewKeys es seen hs r.1

  held_bool :
      (b c s o : Bool)
      → (b ≡ true → o ≡ true)
      → c && (not (b || s) && not o) ≡ (b || c) && (not s && not o)
  held_bool true c s o h = ground (arith, h refl)
  held_bool false c s o h = refl

  new_bool :
      (b c s o : Bool)
      → (b ≡ true → (s ≡ false) × (o ≡ false))
      → b || (c && (not (b || s) && not o)) ≡ (b || c) && (not s && not o)
  new_bool true c s o h = ground (arith, (h refl).0, (h refl).1)
  new_bool false c s o h = refl

  Listed-skip :
      (es : Map Text Mh) (seen : List Key) (h : Mh) (hs : List Mh)
      (x : Error ⊎ (List (Change Mh) × List Mh))
      → mem_key (mh_to_bit256 h) seen ≡ true
      → Listed es seen hs x
      → Listed es seen (h ∷ hs) x
  Listed-skip es seen h hs (inl e) s f = tt
  Listed-skip es seen h hs (inr r) s f = (
    f.0,
    f.1,
    (λ k.
        f.2 k
        ∙ skip_bool (same_key k (mh_to_bit256 h)) (mem_key k (hashes hs)) (mem_key k seen)
            (holds l m es k)
            (at_same l laws m small mh_to_bit256 hashed (λ j. mem_key j seen) h k true s)),
  )

  Listed-held :
      (es : Map Text Mh) (seen : List Key) (h : Mh) (hs : List Mh)
      (x : Error ⊎ (List (Change Mh) × List Mh))
      → holds l m es (mh_to_bit256 h) ≡ true
      → Listed es (mh_to_bit256 h ∷ seen) hs x
      → Listed es seen (h ∷ hs) x
  Listed-held es seen h hs (inl e) s f = tt
  Listed-held es seen h hs (inr r) s f = (
    f.0,
    f.1,
    (λ k.
        f.2 k
        ∙ held_bool (same_key k (mh_to_bit256 h)) (mem_key k (hashes hs)) (mem_key k seen)
            (holds l m es k)
            (at_same l laws m small mh_to_bit256 hashed (λ j. holds l m es j) h k true s)),
  )

  Listed-new :
      (es : Map Text Mh) (seen : List Key) (h : Mh) (hs : List Mh)
      (x : Error ⊎ (List (Change Mh) × List Mh))
      → mem_key (mh_to_bit256 h) seen ≡ false
      → holds l m es (mh_to_bit256 h) ≡ false
      → Listed es (mh_to_bit256 h ∷ seen) hs x
      → Listed es seen (h ∷ hs) (elim x [
        | inl e ↦ inl e
        | inr r ↦ inr (put_change (text_of (mh_to_bit256 h)) h ∷ r.0, h ∷ r.1)
      ])
  Listed-new es seen h hs (inl e) s o f = tt
  Listed-new es seen h hs (inr r) s o f = (
    ap (◌∷◌ (put_change (text_of (mh_to_bit256 h)) h)) f.0,
    (
      o,
      f.2 (mh_to_bit256 h)
          ∙ itself _ _ (mem_key (mh_to_bit256 h) seen) _ (beq_refl ⦃e = list_eq⦄ (mh_to_bit256 h)),
      f.1,
    ),
    (λ k.
        ap (λ b. same_key k (mh_to_bit256 h) || b) (f.2 k)
        ∙ new_bool (same_key k (mh_to_bit256 h)) (mem_key k (hashes hs)) (mem_key k seen)
            (holds l m es k)
            (λ same. (
              at_same l laws m small mh_to_bit256 hashed (λ j. mem_key j seen) h k false s same,
              at_same l laws m small mh_to_bit256 hashed (λ j. holds l m es j) h k false o same,
            ))),
  )
    where
      itself : (a b c d : Bool) → b ≡ true → a && (not (b || c) && not d) ≡ false
      itself a b c d h = ground arith

  module _ {Store : Type 0} (api : Datastore Store Mh) (faithful : Faithful api) where
    put_loop-Listed :
        (s : Store) (seen : List Key) (hs : List Mh)
        → Listed (faithful.entries s) seen hs (put_loop l api (8 * m) mh_to_bit256 s seen hs)
    unfolding put_loop
    put_loop-Listed s seen [] = (refl, tt, (λ k. refl))
    put_loop-Listed s seen (h ∷ hs) =
        cases (mem_key k seen) (api.has s (text_of k)) (api.stage s change) refl refl
          (put_loop-Listed s seen hs) (put_loop-Listed s (k ∷ seen) hs)
      where
        k : Key
        k = mh_to_bit256 h

        change : Change Mh
        change = put_change (text_of k) h

        es : Map Text Mh
        es = faithful.entries s

        skipped : Error ⊎ (List (Change Mh) × List Mh)
        skipped = put_loop l api (8 * m) mh_to_bit256 s seen hs

        rest : Error ⊎ (List (Change Mh) × List Mh)
        rest = put_loop l api (8 * m) mh_to_bit256 s (k ∷ seen) hs

        body : Bool → Option Bool → Bool → Error ⊎ (List (Change Mh) × List Mh)
        body b o staged = if b then skipped else elim o [
          | none ↦ inl has_failed
          | some held ↦
              if held
              then rest
              else if staged
              then elim rest [ inl e ↦ inl e | inr r ↦ inr (change ∷ r.0, h ∷ r.1) ]
              else inl stage_failed
        ]

        cases :
            (b : Bool) (o : Option Bool) (staged : Bool)
            → mem_key k seen ≡ b
            → api.has s (text_of k) ≡ o
            → Listed es seen hs skipped
            → Listed es (k ∷ seen) hs rest
            → Listed es seen (h ∷ hs) (body b o staged)
        cases true o staged p q f g = Listed-skip es seen h hs skipped p f
        cases false none staged p q f g = tt
        cases false (some true) staged p q f g =
            Listed-held es seen h hs rest (sym (faithful.has-entries s (text_of k) true q)) g
        cases false (some false) true p q f g =
            Listed-new es seen h hs rest p (sym (faithful.has-entries s (text_of k) false q)) g
        cases false (some false) false p q f g = tt

    -- The size that the keystore keeps is the number of the entries.
    abbrev pub Counted : Keystore Store → Type 0
    Counted ks = ks.size ≡ pos (length (faithful.entries ks.ds))

    -- What a `put` may answer and leave.
    abbrev pub Put : Keystore Store → List Mh → (Error ⊎ List Mh) × Keystore Store → Type 0
    Put ks hs (inl e, ks') = (ks' ≡ ks) ⊎ ((e ≡ commit_failed) × (ks'.size ≡ ks.size))
    Put ks hs (inr new_keys, ks') =
        Counted ks'
        × ((k : Key)
            → length k ≡ key_len
            → holds l m (faithful.entries ks'.ds) k
              ≡ holds l m (faithful.entries ks.ds) k || mem_key k (map mh_to_bit256 hs))
        × ((k : Key)
            → mem_key k (map mh_to_bit256 new_keys)
              ≡ mem_key k (map mh_to_bit256 hs) && not (holds l m (faithful.entries ks.ds) k))
        × Distinct ⦃e = list_eq⦄ (map mh_to_bit256 new_keys)
        × (Keyed l m mh_to_bit256 (faithful.entries ks.ds)
            → Keyed l m mh_to_bit256 (faithful.entries ks'.ds))

    Fresh-Distinct :
        (es : Map Text Mh) (hs : List Mh)
        → Fresh l laws m small mh_to_bit256 hashed es hs
        → Distinct ⦃e = list_eq⦄ (hashes hs)
    Fresh-Distinct es [] f = tt
    Fresh-Distinct es (h ∷ hs) f = (f.1, Fresh-Distinct es hs f.2)

    committed-Put :
        (ks : Keystore Store) (hs : List Mh) (r : List (Change Mh) × List Mh) (ds' : Store)
        → Counted ks
        → Listed (faithful.entries ks.ds) [] hs (inr r)
        → api.commit ks.ds r.0 ≡ (ds', true)
        → Put ks hs (inr r.1, record { ds = ds'; size = ks.size +ℤ pos (length r.1) })
    committed-Put ks hs r ds' c f ok =
        let es = faithful.entries ks.ds in
        let at = faithful.commit-entries ks.ds ds' r.0 ok ∙ ap (λ cs. apply cs es) f.0 in
        let applied = apply-puts l laws m small mh_to_bit256 hashed r.1 es f.1 in
        (
          ap (λ z. z +ℤ pos (length r.1)) c
              ∙ pos-add-pos (length es) (length r.1)
              ∙ ap pos (sym applied.0 ∙ ap length (sym at)),
          (λ k len.
              ap (λ x. holds l m x k) at
              ∙ applied.1 k len
              ∙ one_by_one (holds l m es k) _ (mem_key k (hashes hs)) (f.2 k)),
          (λ k. f.2 k),
          Fresh-Distinct es r.1 f.1,
          (λ keyed. subst (Keyed l m mh_to_bit256) (sym at) (applied.2 keyed)),
        )
      where
        one_by_one : (o a b : Bool) → a ≡ b && (true && not o) → o || a ≡ o || b
        one_by_one o a b h = ground arith

    pub put_keys-Put :
        (ks : Keystore Store) (hs : List Mh)
        → Counted ks
        → Put ks hs (put_keys l api (8 * m) mh_to_bit256 ks hs)
    unfolding put_keys
    put_keys-Put ks hs c =
        staged (api.batch ks.ds) (put_loop l api (8 * m) mh_to_bit256 ks.ds [] hs)
          (put_loop-Listed ks.ds [] hs)
      where
        ended : (r : List (Change Mh) × List Mh) → Store × Bool → (Error ⊎ List Mh) × Keystore Store
        ended r done =
            if done.1
            then (inr r.1, record { ds = done.0; size = ks.size +ℤ pos (length r.1) })
            else (inl commit_failed, record ks { ds = done.0 })

        committed :
            (r : List (Change Mh) × List Mh) (done : Store × Bool)
            → Listed (faithful.entries ks.ds) [] hs (inr r)
            → api.commit ks.ds r.0 ≡ done
            → Put ks hs (ended r done)
        committed r (ds', true) f ok = committed-Put ks hs r ds' c f ok
        committed r (ds', false) f ok = inr (refl, refl)

        staged :
            (b : Bool) (x : Error ⊎ (List (Change Mh) × List Mh))
            → Listed (faithful.entries ks.ds) [] hs x
            → Put ks hs (
                if b
                then elim x [ inl e ↦ (inl e, ks) | inr r ↦ ended r (api.commit ks.ds r.0) ]
                else (inl batch_failed, ks))
        staged false x f = inl refl
        staged true (inl e) f = inl refl
        staged true (inr r) f = committed r (api.commit ks.ds r.0) f refl
