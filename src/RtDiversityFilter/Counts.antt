-- ===== src/RtDiversityFilter/Counts.antt =====
-- The counts are those of the peers in the table, and `Increment` counts one more.
use go_libp2p_hybrid_kad_dht.Prelude.{
  ℕ, zero, suc, ◌≡◌, refl, sym, ap, ◌∙◌, Bool, true, false, ◌&&◌, not, Option, none, some, List, [],
  ◌∷◌, ◌++◌, leb, ltb, if◌then◌else◌, arith, Bool-cases, inl, inr, ◌≤◌, Eq, nat_eq, beq→eq, ℤ, pos,
  succ, ◌==◌, Map, lookup, put, delete, lookup-put_same, lookup-put_other, lookup-delete_same,
  lookup-delete_other,
}
use go_libp2p_hybrid_kad_dht.RtDiversityFilter.{
  PeerGroupInfo, RtPeerIpGroupFilter, increment, count_of, or_zero, or_empty, count_up, count_down,
  put_unless_empty,
}

-- What a map without zero counts stores.
abbrev pub stored : ℕ → Option ℤ
stored zero = none
stored (suc n) = some (pos (suc n))

pub or_zero-stored : (n : ℕ) → or_zero (stored n) ≡ pos n
or_zero-stored zero = refl
or_zero-stored (suc n) = refl

pub stored-none : (n : ℕ) → stored n ≡ none → n ≡ 0
stored-none zero h = refl
stored-none (suc n) h = cc

pub guard_none : (m o n q : ℕ) → q ≡ 0 → (if leb m o then false else true) ≡ ltb o m && leb q n
guard_none m o n q h = ground arith

pub guard_some :
    (m o n q : ℕ) → (if leb m o then false else not (leb (suc n) q)) ≡ ltb o m && leb q n
guard_some m o n q = ground arith

pub table_within :
    (m o : ℕ) (b : Bool) → o ≤ m → (b ≡ true → ltb o m ≡ true) → (if b then suc o else o) ≤ m
table_within m o b h k = ground arith

pub cpl_within :
    (n q : ℕ) (b c : Bool)
    → q ≤ suc n
    → (b ≡ true → c ≡ true → leb q n ≡ true)
    → (if b then (if c then suc q else q) else q) ≤ suc n
cpl_within n q b c h k = ground arith

module _ {Group : Type 0} ⦃e : Eq Group⦄ where
  -- The number of the peers of a group, and of those at a common prefix length.
  abbrev pub occurrences : Group → List (PeerGroupInfo Group) → ℕ
  occurrences key [] = 0
  occurrences key (x ∷ ms) =
      let rest = occurrences key ms in if e.beq key x.ip_group_key then suc rest else rest

  abbrev pub occurrences_at : ℕ → Group → List (PeerGroupInfo Group) → ℕ
  occurrences_at cpl key [] = 0
  occurrences_at cpl key (x ∷ ms) =
      let rest = occurrences_at cpl key ms in
      if cpl == x.cpl then (if e.beq key x.ip_group_key then suc rest else rest) else rest

  -- The maps count the peers, and hold no count of zero.
  pub record Counts (r : RtPeerIpGroupFilter Group) (ms : List (PeerGroupInfo Group)) : Type 0 where
    pub table : (key : Group) → lookup r.table_ip_group_count key ≡ stored (occurrences key ms)
    pub at_cpl :
        (cpl : ℕ) (key : Group)
        → lookup (or_empty (lookup r.cpl_ip_group_count cpl)) key
          ≡ stored (occurrences_at cpl key ms)

  lookup-count_up :
      (m : Map Group ℤ) (j k : Group) (n : ℕ)
      → lookup m j ≡ stored n
      → lookup (count_up m k) j ≡ stored (if e.beq j k then suc n else n)
  lookup-count_up m j k n h = elim (Bool-cases (e.beq j k)) [
    | inl same ↦ rw same (
        ap (lookup (count_up m k)) (beq→eq j k same)
        ∙ lookup-put_same m k (succ (count_of m k))
        ∙ ap (λ v. some (succ (or_zero v))) (ap (lookup m) (sym (beq→eq j k same)) ∙ h)
        ∙ ap (λ v. some (succ v)) (or_zero-stored n))
    | inr other ↦ rw other (lookup-put_other m j k (succ (count_of m k)) other ∙ h)
  ]

  pub lookup-count_down :
      (m : Map Group ℤ) (j k : Group) (n l : ℕ)
      → lookup m j ≡ stored n
      → lookup m k ≡ stored (suc l)
      → lookup (count_down m k) j ≡ stored (if e.beq j k then l else n)
  lookup-count_down m j k n zero h hk = rw hk (elim (Bool-cases (e.beq j k)) [
    | inl same ↦ rw same (
        ap (lookup (delete (put m k (pos 0)) k)) (beq→eq j k same)
        ∙ lookup-delete_same (put m k (pos 0)) k)
    | inr other ↦
        rw other (
          lookup-delete_other (put m k (pos 0)) j k other
          ∙ lookup-put_other m j k (pos 0) other
          ∙ h)
  ])
  lookup-count_down m j k n (suc l) h hk = rw hk (elim (Bool-cases (e.beq j k)) [
    | inl same ↦
        rw same (
          ap (lookup (put m k (pos (suc l)))) (beq→eq j k same) ∙ lookup-put_same m k (pos (suc l)))
    | inr other ↦ rw other (lookup-put_other m j k (pos (suc l)) other ∙ h)
  ])

  pub lookup-put_unless_empty :
      (m : Map ℕ (Map Group ℤ)) (i cpl : ℕ) (c : Map Group ℤ)
      → or_empty (lookup (put_unless_empty m cpl c) i)
        ≡ (if i == cpl then c else or_empty (lookup m i))
  lookup-put_unless_empty m i cpl c = elim (Bool-cases (i == cpl)) [
    | inl same ↦
        rw same
          (ap (λ x. or_empty (lookup (put_unless_empty m cpl c) x)) (beq→eq i cpl same) ∙ at_same c)
    | inr other ↦ rw other (ap or_empty (at_other c other))
  ]
    where
      at_same : (c : Map Group ℤ) → or_empty (lookup (put_unless_empty m cpl c) cpl) ≡ c
      at_same [] = ap or_empty (lookup-delete_same (put m cpl []) cpl)
      at_same (x ∷ c) = ap or_empty (lookup-put_same m cpl (x ∷ c))

      at_other :
          (c : Map Group ℤ) → (i == cpl) ≡ false → lookup (put_unless_empty m cpl c) i ≡ lookup m i
      at_other [] other =
          lookup-delete_other (put m cpl []) i cpl other ∙ lookup-put_other m i cpl [] other
      at_other (x ∷ c) other = lookup-put_other m i cpl (x ∷ c) other

  -- `Increment` counts one peer more.
  pub increment-Counts :
      (r : RtPeerIpGroupFilter Group) (g : PeerGroupInfo Group) (ms : List (PeerGroupInfo Group))
      → Counts r ms
      → Counts (increment r g) (g ∷ ms)
  unfolding increment
  increment-Counts r g ms c = record {
    table = λ key. lookup-count_up r.table_ip_group_count key g.ip_group_key _ (c.table key);
    at_cpl = λ i key. elim (Bool-cases (i == g.cpl)) [
      | inl same ↦ rw same (
          ap (λ x. lookup (or_empty (lookup (increment r g).cpl_ip_group_count x)) key)
            (beq→eq i g.cpl same)
          ∙ ap (λ x. lookup (or_empty x) key) (lookup-put_same r.cpl_ip_group_count g.cpl _)
          ∙ lookup-count_up (or_empty (lookup r.cpl_ip_group_count g.cpl)) key g.ip_group_key
              (occurrences_at i key ms)
              (ap (λ x. lookup (or_empty (lookup r.cpl_ip_group_count x)) key)
                  (sym (beq→eq i g.cpl same))
                ∙ c.at_cpl i key))
      | inr other ↦ rw other (
          ap (λ x. lookup (or_empty x) key) (lookup-put_other r.cpl_ip_group_count i g.cpl _ other)
          ∙ c.at_cpl i key)
    ];
  }

  occurrences-move :
      (key : Group) (ms ns : List (PeerGroupInfo Group)) (g : PeerGroupInfo Group)
      → occurrences key (ms ++ g ∷ ns) ≡ occurrences key (g ∷ ms ++ ns)
  occurrences-move key [] ns g = refl
  occurrences-move key (x ∷ ms) ns g = ground (arith, occurrences-move key ms ns g)

  occurrences_at-move :
      (cpl : ℕ) (key : Group) (ms ns : List (PeerGroupInfo Group)) (g : PeerGroupInfo Group)
      → occurrences_at cpl key (ms ++ g ∷ ns) ≡ occurrences_at cpl key (g ∷ ms ++ ns)
  occurrences_at-move cpl key [] ns g = refl
  occurrences_at-move cpl key (x ∷ ms) ns g = ground (arith, occurrences_at-move cpl key ms ns g)

  pub Counts-move :
      (r : RtPeerIpGroupFilter Group) (ms ns : List (PeerGroupInfo Group)) (g : PeerGroupInfo Group)
      → Counts r (ms ++ g ∷ ns)
      → Counts r (g ∷ ms ++ ns)
  Counts-move r ms ns g c = record {
    table = λ key. c.table key ∙ ap stored (occurrences-move key ms ns g);
    at_cpl = λ i key. c.at_cpl i key ∙ ap stored (occurrences_at-move i key ms ns g);
  }
