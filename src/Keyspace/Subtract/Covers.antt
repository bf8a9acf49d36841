-- ===== src/Keyspace/Subtract/Covers.antt =====
-- Which keys of one trie begin keys of another.
use mathlib.Core.List.{Perm}
use go_libp2p_hybrid_kad_dht.Prelude.{
  ℕ, ◌≡◌, refl, sym, ap, ◌∙◌, Bool, true, false, ◌||◌, not, List, [], ◌∷◌, ◌++◌, length, any, all,
  select, leb, arith, Bool-cases, inl, inr, append_assoc, and-left, and-right, all-map, any-append,
  map-append, any_of_all, length-append,
}
use go_libp2p_hybrid_kad_dht.Keyspace.Key.{Key}
use go_libp2p_hybrid_kad_dht.Keyspace.Key.Prefixes.{
  starts, starts_diverge, starts_trans, starts-append, starts_longer,
}
use go_libp2p_hybrid_kad_dht.Keyspace.Trie.{Trie, branches, zero_key, all_entries}
use go_libp2p_hybrid_kad_dht.Keyspace.Trie.Api.{TrieApi}
use go_libp2p_hybrid_kad_dht.Keyspace.Trie.Shape.{entries, keys, WellFormed, WellFormed-under}
use go_libp2p_hybrid_kad_dht.Keyspace.Trie.Iter.{all_entries-entries_by, entries_by-zero_key}
use go_libp2p_hybrid_kad_dht.Keyspace.Subtract.{add_many}

-- Some key of the list begins `x`.
abbrev pub covers : List Key → Key → Bool
covers ks x = any (λ k. starts k x) ks

pub key_apart :
    (p : Key) (b : Bool) (k x : Key)
    → starts (p ++ not b ∷ []) k ≡ true
    → starts (p ++ b ∷ []) x ≡ true
    → starts k x ≡ false
key_apart p b k x hk hx = elim (Bool-cases (starts k x)) [
  | inr apart ↦ apart
  | inl under ↦
      absurd
        (contrary (sym hx ∙ starts_diverge p [] x b (starts_trans (p ++ not b ∷ []) k x hk under)))
]
  where
    contrary : true ≡ false → ⊥
    contrary h = cc

pub or_false_right : (a : Bool) → a || false ≡ a
or_false_right a = ground arith

pub leb_self : (n : ℕ) → leb n n ≡ true
leb_self n = ground arith

pub leb_inner :
    (k p bits : Key) (b : Bool) (n : ℕ)
    → k ≡ p ++ b ∷ bits
    → n ≡ length p
    → leb (length k) n ≡ false
leb_inner k p bits b n e l = rw (e, l, length-append {0} p (b ∷ bits)) (ground arith)

pub covers-other :
    (p : Key) (b : Bool) (ks : List Key) (x : Key)
    → all (starts (p ++ not b ∷ [])) ks ≡ true
    → starts (p ++ b ∷ []) x ≡ true
    → covers ks x ≡ false
covers-other p b ks x hk hx =
    any_of_all (starts (p ++ not b ∷ [])) (λ k. starts k x) (λ k h. key_apart p b k x h hx) ks hk

-- The next bit of a key below the path `p`.
pub under_branch : (k p bits : Key) (b : Bool) → k ≡ p ++ b ∷ bits → starts (p ++ b ∷ []) k ≡ true
under_branch k p bits b e =
    ap (starts (p ++ b ∷ [])) (e ∙ sym (append_assoc p (b ∷ []) bits))
    ∙ starts-append (p ++ b ∷ []) bits

module _ {ℓ} {D : Type ℓ} where
  -- The entries whose keys are not covered, in order.
  abbrev pub uncovered : List Key → List (Key × D) → List (Key × D)
  uncovered ks = select (λ e. not (covers ks e.0))

  pub all_entries-zero : (t : Trie D) → all_entries t zero_key ≡ entries t
  all_entries-zero t = all_entries-entries_by t zero_key ∙ entries_by-zero_key 0 t

  pub add_many-append :
      (api : TrieApi D) (res : Trie D) (es fs : List (Key × D))
      → add_many api (add_many api res es) fs ≡ add_many api res (es ++ fs)
  add_many-append api res [] fs = refl
  add_many-append api res (e ∷ es) fs = add_many-append api (api.add e.0 e.1 res) es fs

  -- What a call adds, up to the order.
  abbrev pub Adds : TrieApi D → Trie D → Trie D → List (Key × D) → Type ℓ
  Adds api res res' es = (fs : List (Key × D)) × Perm fs es × (res' ≡ add_many api res fs)

  pub uncovered-other :
      (p : Key) (b : Bool) (ks : List Key) (es : List (Key × D))
      → all (starts (p ++ not b ∷ [])) ks ≡ true
      → all (λ e. starts (p ++ b ∷ []) e.0) es ≡ true
      → uncovered ks es ≡ es
  uncovered-other p b ks [] hk he = refl
  uncovered-other p b ks (e ∷ es) hk he =
      rw (covers-other p b ks e.0 hk (and-left _ _ he))
        (ap (◌∷◌ e) (uncovered-other p b ks es hk (and-right (starts (p ++ b ∷ []) e.0) _ he)))

  -- Keys of the other branch do not count.
  pub uncovered-left :
      (p : Key) (ks js : List Key) (es : List (Key × D))
      → all (starts (p ++ true ∷ [])) js ≡ true
      → all (λ e. starts (p ++ false ∷ []) e.0) es ≡ true
      → uncovered (ks ++ js) es ≡ uncovered ks es
  uncovered-left p ks js [] hj he = refl
  uncovered-left p ks js (e ∷ es) hj he = ground (
    arith,
    any-append (λ k. starts k e.0) ks js,
    covers-other p false js e.0 hj,
    uncovered-left p ks js es hj,
  )

  pub uncovered-right :
      (p : Key) (ks js : List Key) (es : List (Key × D))
      → all (starts (p ++ false ∷ [])) ks ≡ true
      → all (λ e. starts (p ++ true ∷ []) e.0) es ≡ true
      → uncovered (ks ++ js) es ≡ uncovered js es
  uncovered-right p ks js [] hk he = refl
  uncovered-right p ks js (e ∷ es) hk he = ground (
    arith,
    any-append (λ k. starts k e.0) ks js,
    covers-other p true ks e.0 hk,
    uncovered-right p ks js es hk,
  )

  pub uncovered_none :
      (p : Key) (es : List (Key × D))
      → all (λ e. starts p e.0) es ≡ true
      → uncovered (p ∷ []) es ≡ []
  uncovered_none p [] h = refl
  uncovered_none p (e ∷ es) h = ground (arith, uncovered_none p es)

pub under_keys {ℓ} :
    {D : Type ℓ} (p : Key) (t : Trie D) → WellFormed p t → all (starts p) (keys t) ≡ true
under_keys p t w = all-map (λ e. e.0) (starts p) (entries t) ∙ WellFormed-under p t w

pub keys-branches {ℓ} : {D : Type ℓ} (l r : Trie D) → keys (branches l r) ≡ keys l ++ keys r
keys-branches l r = map-append (λ e. e.0) (entries l) (entries r)

pub covers-longer :
    (p : Key) (b : Bool) (ks : List Key)
    → all (starts (p ++ b ∷ [])) ks ≡ true
    → covers ks p ≡ false
covers-longer p b ks h =
    any_of_all (starts (p ++ b ∷ [])) (λ k. starts k p) (λ k s. starts_longer p k b s) ks h

module _ {ℓ} {D : Type ℓ} where
  pub uncovered_one :
      (ks : List Key) (k : Key) (d : D)
      → covers ks k ≡ false
      → uncovered ks ((k, d) ∷ []) ≡ (k, d) ∷ []
  uncovered_one ks k d h = rw h refl

  pub same_covers :
      (ks js : List Key) (k : Key) (d : D)
      → covers ks k ≡ covers js k
      → uncovered ks ((k, d) ∷ []) ≡ uncovered js ((k, d) ∷ [])
  same_covers ks js k d h = rw h refl

  pub uncovered-nil : (es : List (Key × D)) → uncovered [] es ≡ es
  uncovered-nil [] = refl
  uncovered-nil (e ∷ es) = ap (◌∷◌ e) (uncovered-nil es)
