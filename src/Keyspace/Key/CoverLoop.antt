-- ===== src/Keyspace/Key/CoverLoop.antt =====
-- The loop of `ShortestCoveredPrefix` of key.go, over peers whose common prefixes do not grow.
use go_libp2p_hybrid_kad_dht.Prelude.{
  ℕ, zero, suc, ◌≤◌, ◌<◌, ◌≡◌, refl, sym, ap, ◌∙◌, true, false, ◌&&◌, List, [], ◌∷◌, ◌++◌, length,
  take, select, any, all, ltb, leb, if◌then◌else◌, arith, select_none, select-all, length-append,
  subst, ap₂, Bool-cases, append_assoc, select-append, all-append, append-nil, inl, inr,
}
use go_libp2p_hybrid_kad_dht.Keyspace.Key.{Key, common_prefix_length, Cover, cover_loop}
use go_libp2p_hybrid_kad_dht.Keyspace.Key.Prefixes.{starts, closer}

pub cpl-le : (a b : Key) → common_prefix_length a b ≤ length a
unfolding common_prefix_length
cpl-le [] b = omega arith
cpl-le (x ∷ a) [] = omega arith
cpl-le (x ∷ a) (y ∷ b) = ground (arith, cpl-le a b)

-- A key begins with the first `n` bits of the target exactly where it shares at least `n` bits.
pub starts-take :
    (n : ℕ) (t k : Key) → n ≤ length t → starts (take n t) k ≡ leb n (common_prefix_length t k)
unfolding common_prefix_length
starts-take zero t k h = ground arith
starts-take (suc n) [] k h = absurd (omega arith)
starts-take (suc n) (x ∷ t) [] h = ground arith
starts-take (suc n) (x ∷ t) (y ∷ k) h = ground (arith, starts-take n t k (omega arith))

pub cpl_of_closer :
    (o a b : Key)
    → length o ≤ length a
    → closer o a b ≡ true
    → common_prefix_length o b ≤ common_prefix_length o a
unfolding common_prefix_length
cpl_of_closer [] a b l h = omega arith
cpl_of_closer (o ∷ os) [] b l h = absurd (omega arith)
cpl_of_closer (o ∷ os) (x ∷ a) [] l h = ground arith
cpl_of_closer (o ∷ os) (x ∷ a) (y ∷ b) l h = ground (arith, cpl_of_closer os a b)

take_append {ℓ} :
    {A : Type ℓ} (n : ℕ) (xs ys : List A) → n ≤ length xs → take n (xs ++ ys) ≡ take n xs
take_append zero xs ys h = refl
take_append (suc n) [] ys h = absurd (omega arith)
take_append (suc n) (x ∷ xs) ys h = ap (◌∷◌ x) (take_append n xs ys (omega arith))

module _ {ℓ} {Peer : Type ℓ} (peer_key : Peer → Key) (target : Key) where
  abbrev pub cpl : Peer → ℕ
  cpl p = common_prefix_length target (peer_key p)

  -- Common prefixes do not grow along the list.
  abbrev pub Falling : ℕ → List Peer → Type 0
  Falling n [] = Unit {0}
  Falling n (p ∷ ps) = (cpl p ≤ n) × Falling (cpl p) ps

  -- The peers that share at least `n` bits with the target.
  abbrev pub under : ℕ → List Peer → List Peer
  under n = select λ p. leb n (cpl p)

  under_weaken :
      (m n : ℕ) (ps : List Peer)
      → n ≤ m
      → all (λ p. leb m (cpl p)) ps ≡ true
      → all (λ p. leb n (cpl p)) ps ≡ true
  under_weaken m n [] l h = refl
  under_weaken m n (p ∷ ps) l h = ground (arith, under_weaken m n ps)

  pub record Touched (pre : List Peer) (c : Cover) : Type ℓ where
    pub covered : c.covered_cpl ≡ suc c.min_cpl
    pub within : c.covered_cpl ≤ length target
    pub index : c.last_index ≤ length pre
    pub split : take c.last_index pre ≡ under c.covered_cpl pre
    pub lowest : all (λ p. leb c.min_cpl (cpl p)) pre ≡ true

  abbrev step : Peer → ℕ → Cover → Cover
  step p i c =
      if ltb (cpl p) c.min_cpl
      then record { min_cpl = cpl p; covered_cpl = suc (cpl p); last_index = i }
      else c

  -- A peer below the minimum: all that came before lie under the new prefix.
  Touched-drop :
      (pre : List Peer) (p : Peer) (m : ℕ)
      → cpl p < m
      → m ≤ length target
      → all (λ q. leb m (cpl q)) pre ≡ true
      → Touched
          (pre ++ p ∷ [])
          (record { min_cpl = cpl p; covered_cpl = suc (cpl p); last_index = length pre })
  Touched-drop pre p m l t h = record {
    covered = refl;
    within = omega arith;
    index = omega (arith, length-append {ℓ} pre (p ∷ []));
    split =
        take_append (length pre) pre (p ∷ []) (omega arith)
        ∙ take_all pre
        ∙ sym (
            select-append (λ q. leb (suc (cpl p)) (cpl q)) pre (p ∷ [])
            ∙ ap₂ ◌++◌
                (select-all (λ q. leb (suc (cpl p)) (cpl q)) pre
                  (under_weaken m (suc (cpl p)) pre (omega arith) h))
                (select_none (λ q. leb (suc (cpl p)) (cpl q)) (p ∷ []) (ground arith))
            ∙ append-nil pre);
    lowest =
        all-append (λ q. leb (cpl p) (cpl q)) pre (p ∷ [])
        ∙ ap₂ ◌&&◌ (under_weaken m (cpl p) pre (omega arith) h) (ground arith);
  }
    where
      take_all : (xs : List Peer) → take (length xs) xs ≡ xs
      take_all [] = refl
      take_all (x ∷ xs) = ap (◌∷◌ x) (take_all xs)

  Touched-keep :
      (pre : List Peer) (p : Peer) (c : Cover)
      → Touched pre c
      → cpl p ≡ c.min_cpl
      → Touched (pre ++ p ∷ []) c
  Touched-keep pre p c t e = record {
    covered = t.covered;
    within = t.within;
    index = omega (arith, length-append {ℓ} pre (p ∷ []));
    split =
        take_append c.last_index pre (p ∷ []) t.index
        ∙ t.split
        ∙ sym (
            select-append (λ q. leb c.covered_cpl (cpl q)) pre (p ∷ [])
            ∙ ap₂ ◌++◌ refl
                (select_none (λ q. leb c.covered_cpl (cpl q)) (p ∷ []) (ground (arith, t.covered)))
            ∙ append-nil _);
    lowest =
        all-append (λ q. leb c.min_cpl (cpl q)) pre (p ∷ []) ∙ ap₂ ◌&&◌ t.lowest (ground arith);
  }

  step-Touched :
      (pre : List Peer) (p : Peer) (c : Cover)
      → Touched pre c
      → cpl p ≤ c.min_cpl
      → Touched (pre ++ p ∷ []) (step p (length pre) c)
  step-Touched pre p c t l = elim (Bool-cases (ltb (cpl p) c.min_cpl)) [
    | inl less ↦
        rw less (
          Touched-drop pre p c.min_cpl (ground arith) (omega (arith, t.covered, t.within)) t.lowest)
    | inr same ↦ rw same (Touched-keep pre p c t (ground arith))
  ]

  -- Regroups the list at the next peer.
  regroup :
      (pre : List Peer) (p : Peer) (ps : List Peer) (c : Cover)
      → Touched ((pre ++ p ∷ []) ++ ps) (cover_loop peer_key target ps (length (pre ++ p ∷ [])) c)
      → Touched (pre ++ p ∷ ps) (cover_loop peer_key target ps (suc (length pre)) c)
  regroup pre p ps c t =
      subst (λ l. Touched l (cover_loop peer_key target ps (suc (length pre)) c))
        (append_assoc pre (p ∷ []) ps)
        (subst (λ n. Touched ((pre ++ p ∷ []) ++ ps) (cover_loop peer_key target ps n c))
          (omega (arith, length-append {ℓ} pre (p ∷ []))) t)

  step-Falling :
      (p : Peer) (n : ℕ) (ps : List Peer) (c : Cover)
      → Falling c.min_cpl (p ∷ ps)
      → Falling (step p n c).min_cpl ps
  step-Falling p n ps c f = elim (Bool-cases (ltb (cpl p) c.min_cpl)) [
    | inl less ↦ rw less f.1
    | inr same ↦ rw same (subst (λ m. Falling m ps) (equal c.min_cpl f.0 same) f.1)
  ]
    where
      equal : (m : ℕ) → cpl p ≤ m → ltb (cpl p) m ≡ false → cpl p ≡ m
      equal m l h = ground arith

  loop-Touched :
      (pre ps : List Peer) (c : Cover)
      → Touched pre c
      → Falling c.min_cpl ps
      → Touched (pre ++ ps) (cover_loop peer_key target ps (length pre) c)
  unfolding cover_loop
  loop-Touched pre [] c t f = rw (append-nil pre) t
  loop-Touched pre (p ∷ ps) c t f = regroup pre p ps (step p (length pre) c) (
      loop-Touched (pre ++ p ∷ []) ps (step p (length pre) c) (step-Touched pre p c t f.0)
        (step-Falling p (length pre) ps c f))

  -- Before a peer differs from the target, the variables keep their first values.
  abbrev pub first : Cover
  first = record { min_cpl = length target; covered_cpl = 0; last_index = 0 }

  pub loop_first :
      (pre ps : List Peer)
      → all (λ q. leb (length target) (cpl q)) pre ≡ true
      → Falling (length target) ps
      → any (λ q. ltb (cpl q) (length target)) ps ≡ true
      → Touched (pre ++ ps) (cover_loop peer_key target ps (length pre) first)
  unfolding cover_loop
  loop_first pre [] h f a = cc
  loop_first pre (p ∷ ps) h f a = elim (Bool-cases (ltb (cpl p) (length target))) [
    | inl less ↦ regroup pre p ps (step p (length pre) first) (
        loop-Touched (pre ++ p ∷ []) ps (step p (length pre) first)
          (rw less (Touched-drop pre p (length target) (ground arith) (omega arith) h))
          (step-Falling p (length pre) ps first f))
    | inr same ↦ rw same (
        regroup pre p ps first (
          loop_first (pre ++ p ∷ []) ps
            (all-append (λ q. leb (length target) (cpl q)) pre (p ∷ []) ∙ ap₂ ◌&&◌ h (ground arith))
            (subst (λ m. Falling m ps) (equal f.0 same) f.1) (rw same at a)))
  ]
    where
      equal : cpl p ≤ length target → ltb (cpl p) (length target) ≡ false → cpl p ≡ length target
      equal l h = ground arith
