-- ===== src/Keyspace/Trie/Iter.antt =====
-- The iterators of trie.go: which entries they visit, in which order, and how they stop.
use mathlib.Core.List.{Perm, perm_append_comm}
use mathlib.Core.List.Perm
use go_libp2p_hybrid_kad_dht.Prelude.{
  ℕ, suc, ◌+◌, ◌≡◌, refl, ap, ◌∙◌, sym, Bool, true, false, ◌&&◌, not, List, [], ◌∷◌, ◌++◌, map,
  length, all, if◌then◌else◌, arith, all-append, map-append, length-append, ap₂, and-left,
  and-right, and_intro, subst, Bool-cases, inl, inr, Ordered, Ordered-append, append_assoc,
  append-nil,
}
use go_libp2p_hybrid_kad_dht.Keyspace.Key.{Key, bit_eq}
use go_libp2p_hybrid_kad_dht.Keyspace.Key.Prefixes.{starts}
use go_libp2p_hybrid_kad_dht.Keyspace.Trie.{
  Trie, empty_leaf, leaf, branches, Order, zero_key, is_empty_leaf, collect, trie_iter_at_depth,
  trie_iter, all_entries, all_keys, all_values,
}
use go_libp2p_hybrid_kad_dht.Keyspace.Trie.Shape.{entries, WellFormed, WellFormed-under}

-- A loop over a list that a body may stop.
abbrev pub loop {κ ι} : {T : Type κ} {S : Type ι} → (T → S → S × Bool) → List T → S → S × Bool
loop yield [] s = (s, true)
loop yield (x ∷ xs) s = let (s', more) = yield x s in if more then loop yield xs s' else (s', false)

loop-append {κ ι} :
    {T : Type κ} {S : Type ι} (yield : T → S → S × Bool) (xs ys : List T) (s : S)
    → loop yield (xs ++ ys) s ≡ (
        if (loop yield xs s).1
        then loop yield ys (loop yield xs s).0
        else ((loop yield xs s).0, false))
loop-append yield [] ys s = refl
loop-append yield (x ∷ xs) ys s = elim (Bool-cases (yield x s).1) [
  | inl go ↦ rw go (loop-append yield xs ys (yield x s).0)
  | inr stop ↦ rw stop
]

result_eta {ι} : {S : Type ι} (r : S × Bool) → r ≡ (if r.1 then (r.0, true) else (r.0, false))
result_eta (s, true) = refl
result_eta (s, false) = refl

loop-collect {κ} : {T : Type κ} (xs acc : List T) → loop collect xs acc ≡ (acc ++ xs, true)
loop-collect [] acc = rw append-nil
loop-collect (x ∷ xs) acc = loop-collect xs (acc ++ x ∷ []) ∙ rw append_assoc

-- Where two keys first differ, `a` has the bit of the order: `a` is nearer in the XOR metric.
abbrev pub nearer : Order → ℕ → Key → Key → Bool
nearer order i [] b = true
nearer order i (x ∷ a) [] = true
nearer order i (x ∷ a) (y ∷ b) = if bit_eq x y then nearer order (suc i) a b else bit_eq x (order i)

nearer_branch :
    (order : Order) (i : ℕ) (p a b : Key) (c : Bool)
    → starts (p ++ c ∷ []) a ≡ true
    → starts (p ++ not c ∷ []) b ≡ true
    → order (i + length p) ≡ c
    → nearer order i a b ≡ true
nearer_branch order i [] [] b c h k o = refl
nearer_branch order i [] (x ∷ a) [] c h k o = refl
nearer_branch order i [] (x ∷ a) (y ∷ b) c h k o =
    let e : order i ≡ c = ap order (omega arith) ∙ o in ground arith
nearer_branch order i (z ∷ p) [] b c h k o = refl
nearer_branch order i (z ∷ p) (x ∷ a) [] c h k o = refl
nearer_branch order i (z ∷ p) (x ∷ a) (y ∷ b) c h k o =
    ground (arith, nearer_branch order (suc i) p a b c, shifted)
  where
    shifted : order (suc i + length p) ≡ c
    shifted = ap order (omega arith) ∙ o

module _ {ℓ} {D : Type ℓ} where
  -- The entries in the order of the traversal.
  abbrev pub entries_by : Order → ℕ → Trie D → List (Key × D)
  entries_by order depth empty_leaf = []
  entries_by order depth (leaf k d) = (k, d) ∷ []
  entries_by order depth (branches l r) =
      if order depth
      then entries_by order (suc depth) r ++ entries_by order (suc depth) l
      else entries_by order (suc depth) l ++ entries_by order (suc depth) r

  pub entries_by-perm :
      (order : Order) (depth : ℕ) (t : Trie D) → Perm (entries_by order depth t) (entries t)
  entries_by-perm order depth empty_leaf = Perm.refl []
  entries_by-perm order depth (leaf k d) = Perm.refl ((k, d) ∷ [])
  entries_by-perm order depth (branches l r) = elim (Bool-cases (order depth)) [
    | inl one ↦ rw one (
        Perm.trans
          (perm_append_comm (entries_by order (suc depth) r) (entries_by order (suc depth) l))
          (Perm.append (entries_by-perm order (suc depth) l) (entries_by-perm order (suc depth) r)))
    | inr nil ↦
        rw nil
          (Perm.append (entries_by-perm order (suc depth) l) (entries_by-perm order (suc depth) r))
  ]

  pub all-entries_by :
      (q : Key × D → Bool) (order : Order) (depth : ℕ) (t : Trie D)
      → all q (entries t) ≡ true
      → all q (entries_by order depth t) ≡ true
  all-entries_by q order depth empty_leaf h = refl
  all-entries_by q order depth (leaf k d) h = h
  all-entries_by q order depth (branches l r) h =
      join (all-entries_by q order (suc depth) l (and-left _ _ both))
        (all-entries_by q order (suc depth) r (and-right _ _ both))
    where
      both : all q (entries l) && all q (entries r) ≡ true
      both = sym (all-append q (entries l) (entries r)) ∙ h

      join :
          all q (entries_by order (suc depth) l) ≡ true
          → all q (entries_by order (suc depth) r) ≡ true
          → all q (entries_by order depth (branches l r)) ≡ true
      join left right = elim (Bool-cases (order depth)) [
        | inl one ↦
            rw one (all-append q _ (entries_by order (suc depth) l) ∙ and_intro _ _ right left)
        | inr nil ↦
            rw nil (all-append q _ (entries_by order (suc depth) r) ∙ and_intro _ _ left right)
      ]

  abbrev pub nearer_entry : Order → Key × D → Key × D → Bool
  nearer_entry order e f = nearer order 0 e.0 f.0

  all-nearer :
      (order : Order) (p : Key) (c : Bool) (xs ys : List (Key × D))
      → order (length p) ≡ c
      → all (λ e. starts (p ++ c ∷ []) e.0) xs ≡ true
      → all (λ e. starts (p ++ not c ∷ []) e.0) ys ≡ true
      → all (λ x. all (nearer_entry order x) ys) xs ≡ true
  all-nearer order p c [] ys o h k = refl
  all-nearer order p c (x ∷ xs) ys o h k =
      and_intro _ _ (row ys k) (all-nearer order p c xs ys o (and-right _ _ h) k)
    where
      row :
          (ys : List (Key × D))
          → all (λ e. starts (p ++ not c ∷ []) e.0) ys ≡ true
          → all (nearer_entry order x) ys ≡ true
      row [] k = refl
      row (y ∷ ys) k =
          and_intro _ _
            (nearer_branch order 0 p x.0 y.0 c (and-left _ _ h) (and-left _ _ k)
              (ap order (omega arith) ∙ o))
            (row ys (and-right _ _ k))

  Ordered-entries_by :
      (order : Order) (p : Key) (t : Trie D)
      → WellFormed p t
      → Ordered (nearer_entry order) (entries_by order (length p) t)
  Ordered-entries_by order p empty_leaf w = tt
  Ordered-entries_by order p (leaf k d) w = (refl, tt)
  Ordered-entries_by order p (branches l r) w =
      join (at_branch false l (Ordered-entries_by order (p ++ false ∷ []) l w.0))
        (at_branch true r (Ordered-entries_by order (p ++ true ∷ []) r w.1))
    where
      at_branch :
          (b : Bool) (t : Trie D)
          → Ordered (nearer_entry order) (entries_by order (length (p ++ b ∷ [])) t)
          → Ordered (nearer_entry order) (entries_by order (suc (length p)) t)
      at_branch b t =
          subst (λ n. Ordered (nearer_entry order) (entries_by order n t))
            (omega (arith, length-append {0} p (b ∷ [])))

      under :
          (b : Bool) (t : Trie D)
          → WellFormed (p ++ b ∷ []) t
          → all (λ e. starts (p ++ b ∷ []) e.0) (entries_by order (suc (length p)) t) ≡ true
      under b t v =
          all-entries_by (λ e. starts (p ++ b ∷ []) e.0) order (suc (length p)) t
            (WellFormed-under (p ++ b ∷ []) t v)

      join :
          Ordered (nearer_entry order) (entries_by order (suc (length p)) l)
          → Ordered (nearer_entry order) (entries_by order (suc (length p)) r)
          → Ordered (nearer_entry order) (entries_by order (length p) (branches l r))
      join left right = elim (Bool-cases (order (length p))) [
        | inl one ↦ rw one (
            Ordered-append (nearer_entry order) _ _ right left
              (all-nearer order p true _ _ one (under true r w.1) (under false l w.0)))
        | inr nil ↦ rw nil (
            Ordered-append (nearer_entry order) _ _ left right
              (all-nearer order p false _ _ nil (under false l w.0) (under true r w.1)))
      ]

  module _ {κ ι} {T : Type κ} {S : Type ι} (extract : Key → D → T) (yield : T → S → S × Bool) where
    abbrev visited : Order → ℕ → Trie D → List T
    visited order depth t = map (λ e. extract e.0 e.1) (entries_by order depth t)

    -- Two runs, one after the other.
    in_turn :
        (f g : S → S × Bool) (xs ys : List (Key × D))
        → ((u : S) → f u ≡ loop yield (map (λ e. extract e.0 e.1) xs) u)
        → ((u : S) → g u ≡ loop yield (map (λ e. extract e.0 e.1) ys) u)
        → (s : S)
        → (let (s', more) = f s in if more then g s' else (s', false))
          ≡ loop yield (map (λ e. extract e.0 e.1) (xs ++ ys)) s
    in_turn f g xs ys hf hg s = rw (
      hf s,
      hg (loop yield (map (λ e. extract e.0 e.1) xs) s).0,
      map-append (λ e. extract e.0 e.1) xs ys,
      loop-append yield (map (λ e. extract e.0 e.1) xs) (map (λ e. extract e.0 e.1) ys) s,
    )

    trie_iter_at_depth-loop :
        (t : Trie D) (order : Order) (depth : ℕ) (s : S)
        → trie_iter_at_depth extract yield t order depth s ≡ loop yield (visited order depth t) s
    unfolding trie_iter_at_depth
    trie_iter_at_depth-loop empty_leaf order depth s = refl
    trie_iter_at_depth-loop (leaf k d) order depth s = result_eta (yield (extract k d) s)
    trie_iter_at_depth-loop (branches l r) order depth s = elim (Bool-cases (order depth)) [
      | inl one ↦ rw one (
          in_turn _ _ (entries_by order (suc depth) r) (entries_by order (suc depth) l)
            (λ u. trie_iter_at_depth-loop r order (suc depth) u)
            (λ u. trie_iter_at_depth-loop l order (suc depth) u) s)
      | inr nil ↦ rw nil (
          in_turn _ _ (entries_by order (suc depth) l) (entries_by order (suc depth) r)
            (λ u. trie_iter_at_depth-loop l order (suc depth) u)
            (λ u. trie_iter_at_depth-loop r order (suc depth) u) s)
    ]

    -- Going through a trie with a loop body is the loop over its entries in traversal order: each
    -- is visited once, and nothing is visited after the body has said to stop.
    pub trie_iter-loop :
        (t : Trie D) (order : Order) (s : S)
        → trie_iter extract yield t order s ≡ loop yield (visited order 0 t) s
    unfolding trie_iter
    trie_iter-loop t order s = trie_iter_at_depth-loop t order 0 s

  empty_entries_by :
      (t : Trie D) (order : Order) → is_empty_leaf t ≡ true → entries_by order 0 t ≡ []
  empty_entries_by empty_leaf order h = refl
  empty_entries_by (leaf k d) order h = cc
  empty_entries_by (branches l r) order h = cc

  module _ {κ} {T : Type κ} (extract : Key → D → T) where
    collected :
        (t : Trie D) (order : Order)
        → (if is_empty_leaf t then [] else (trie_iter extract collect t order []).0)
          ≡ map (λ e. extract e.0 e.1) (entries_by order 0 t)
    collected t order = elim (Bool-cases (is_empty_leaf t)) [
      | inl hollow ↦ rw (hollow, empty_entries_by t order hollow)
      | inr full ↦ rw full (
          ap (λ r. r.0)
            (trie_iter-loop extract collect t order []
              ∙ loop-collect (visited extract collect order 0 t) []))
    ]

  pub all_entries-entries_by :
      (t : Trie D) (order : Order) → all_entries t order ≡ entries_by order 0 t
  unfolding all_entries
  all_entries-entries_by t order = collected (λ k d. (k, d)) t order ∙ map_id _
    where
      map_id : (es : List (Key × D)) → map (λ e. (e.0, e.1)) es ≡ es
      map_id [] = refl
      map_id (e ∷ es) = ap (◌∷◌ e) (map_id es)

  pub all_keys-entries_by :
      (t : Trie D) (order : Order) → all_keys t order ≡ map (λ e. e.0) (entries_by order 0 t)
  unfolding all_keys
  all_keys-entries_by t order = collected (λ k d. k) t order

  pub all_values-entries_by :
      (t : Trie D) (order : Order) → all_values t order ≡ map (λ e. e.1) (entries_by order 0 t)
  unfolding all_values
  all_values-entries_by t order = collected (λ k d. d) t order

  -- `AllEntries` returns every entry of a well-formed trie once, sorted by the distance of its key
  -- to the order; `AllKeys` and `AllValues` return the keys and the values of that list.
  pub all_entries_sorted :
      (t : Trie D) (order : Order)
      → WellFormed [] t
      → Perm (all_entries t order) (entries t)
        × Ordered (nearer_entry order) (all_entries t order)
        × (all_keys t order ≡ map (λ e. e.0) (all_entries t order))
        × (all_values t order ≡ map (λ e. e.1) (all_entries t order))
  all_entries_sorted t order w =
      rw
        (all_entries-entries_by t order, all_keys-entries_by t order, all_values-entries_by t order)
        (entries_by-perm order 0 t, Ordered-entries_by order [] t w, refl, refl)

  -- The zero key visits the entries from left to right.
  pub entries_by-zero_key : (depth : ℕ) (t : Trie D) → entries_by zero_key depth t ≡ entries t
  entries_by-zero_key depth empty_leaf = refl
  entries_by-zero_key depth (leaf k d) = refl
  entries_by-zero_key depth (branches l r) =
      ap₂ ◌++◌ (entries_by-zero_key (suc depth) l) (entries_by-zero_key (suc depth) r)
