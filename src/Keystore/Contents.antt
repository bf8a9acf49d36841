-- ===== src/Keystore/Contents.antt =====
-- What the datastore of a keystore holds, and the changes of a batch.
use go_libp2p_hybrid_kad_dht.Prelude.{
  leb, ◌==◌, select, ◌++◌, ◌||◌, ℕ, ◌*◌, ◌≡◌, ◌<◌, refl, sym, ap, ◌∙◌, Bool, true, false, ◌&&◌,
  ◌||◌, not, Option, none, some, List, [], ◌∷◌, map, length, any, arith, Bool-cases, inl, inr, Eq,
  mem, beq_sym, beq→eq, bool_ext, or_false, Distinct, Map, put, delete, bool_eq, list_eq, nat_eq,
}
use go_libp2p_hybrid_kad_dht.Keyspace.Key.{Key, key_len}
use go_libp2p_hybrid_kad_dht.Keystore.Keys.{
  slash, Text, Library, Laws, DecodeError, ds_key, decode_key,
}
use go_libp2p_hybrid_kad_dht.Keystore.RoundTrip.{decode_key-ds_key}
use go_libp2p_hybrid_kad_dht.Keystore.Operations.{Change, put_change, delete_change, Datastore}

abbrev pub text_eq : Eq Text
text_eq = list_eq

abbrev pub same_key : Key → Key → Bool
same_key j k = (list_eq ⦃e = bool_eq⦄).beq j k

module _ {Mh : Type 0} where
  -- What the changes of a batch do, in order.
  abbrev pub apply : List (Change Mh) → Map Text Mh → Map Text Mh
  apply [] m = m
  apply (put_change t h ∷ cs) m = apply cs (put m t h)
  apply (delete_change t ∷ cs) m = apply cs (delete m t)

  abbrev pub texts : Map Text Mh → List Text
  texts m = map (λ x. x.0) m

  pub delete_absent : (m : Map Text Mh) (t : Text) → mem t (texts m) ≡ false → delete m t ≡ m
  delete_absent [] t h = refl
  delete_absent (x ∷ m) t h =
      let apart = or_false (text_eq.beq t x.0) _ h in
      rw (beq_sym x.0 t, apart.0) (ap (◌∷◌ x) (delete_absent m t apart.1))

  pub put_absent :
      (m : Map Text Mh) (t : Text) (h : Mh) → mem t (texts m) ≡ false → put m t h ≡ (t, h) ∷ m
  put_absent m t h n = ap (◌∷◌ (t, h)) (delete_absent m t n)

  pub mem-delete :
      (m : Map Text Mh) (t u : Text)
      → mem u (texts (delete m t)) ≡ not (text_eq.beq u t) && mem u (texts m)
  mem-delete [] t u = ground arith
  mem-delete (x ∷ m) t u = elim (Bool-cases (text_eq.beq x.0 t)) [
    | inl hit ↦
        rw hit
          (mem-delete m t u ∙ dropped _ _ (mem u (texts m)) (ap (text_eq.beq u) (beq→eq x.0 t hit)))
    | inr miss ↦ rw miss (
        ap (λ b. text_eq.beq u x.0 || b) (mem-delete m t u)
        ∙ kept _ _ (mem u (texts m)) (λ at. ap (λ y. text_eq.beq y t) (beq→eq u x.0 at) ∙ miss))
  ]
    where
      dropped : (a b c : Bool) → b ≡ a → not a && c ≡ not a && (b || c)
      dropped a b c h = ground arith

      kept : (a b c : Bool) → (b ≡ true → a ≡ false) → b || (not a && c) ≡ not a && (b || c)
      kept a true c h = ground (arith, h refl)
      kept a false c h = refl

-- A result of a query that is an error.
abbrev pub is_error {ℓ} : {A : Type ℓ} → Option A → Bool
is_error none = true
is_error (some a) = false

abbrev pub begins : Text → Text → Bool
begins [] t = true
begins (c ∷ p) [] = false
begins (c ∷ p) (d ∷ t) = (c == d) && begins p t

-- Whether a query by a prefix finds a key: all keys if the prefix is empty or the root, and else
-- those below it.
abbrev pub under : Text → Text → Bool
under prefix t = leb (length prefix) 1 || begins (prefix ++ slash ∷ []) t

-- What the code relies on of the datastore: it holds one value for a key, `Has` is right when it
-- succeeds, a `Commit` that succeeds makes the changes of its batch, and a query without an error
-- finds the entries under its prefix. The order of the entries is not seen.
pub record Faithful {Store Mh : Type 0} (api : Datastore Store Mh) : Type 0 where
  pub entries : Store → Map Text Mh
  pub one_value : (s : Store) → Distinct (texts (entries s))
  pub has-entries :
      (s : Store) (t : Text) (b : Bool) → api.has s t ≡ some b → b ≡ mem t (texts (entries s))
  pub commit-entries :
      (s s' : Store) (cs : List (Change Mh))
      → api.commit s cs ≡ (s', true)
      → entries s' ≡ apply cs (entries s)
  pub query-entries :
      (s : Store) (prefix : Text)
      → any is_error (api.query s prefix) ≡ false
      → api.query s prefix ≡ map some (select (λ x. under prefix x.0) (entries s))

-- Different keys are stored under different texts.
pub beq-ds_key :
    (l : Library) (laws : Laws l) (m : ℕ) (j k : Key)
    → m < 32
    → length j ≡ key_len
    → length k ≡ key_len
    → text_eq.beq (ds_key l (8 * m) j) (ds_key l (8 * m) k) ≡ same_key j k
beq-ds_key l laws m j k small lj lk =
    bool_ext _ _
      (λ h. (list_eq.beq_iff j k).1 (
        decoded (
          sym (decode_key-ds_key l laws m j lj small)
          ∙ ap (decode_key l (8 * m)) (beq→eq (ds_key l (8 * m) j) (ds_key l (8 * m) k) h)
          ∙ decode_key-ds_key l laws m k lk small)))
      (λ h.
        (text_eq.beq_iff (ds_key l (8 * m) j) (ds_key l (8 * m) k)).1
          (ap (ds_key l (8 * m)) (beq→eq j k h)))
  where
    decoded : ◌≡◌ {A = Option (Option DecodeError × Key)} (some (none, j)) (some (none, k)) → j ≡ k
    decoded h = cc
