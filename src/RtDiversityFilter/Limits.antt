-- ===== src/RtDiversityFilter/Limits.antt =====
-- `Decrement` counts one peer less, and the limits hold.
use go_libp2p_hybrid_kad_dht.Prelude.{
  ℕ, suc, ◌≡◌, refl, sym, ap, ◌∙◌, true, false, ◌&&◌, none, some, List, ◌∷◌, ◌++◌, leb, ltb,
  if◌then◌else◌, Bool-cases, Option-cases, inl, inr, and-left, and-right, ◌≤◌, Eq, nat_eq, beq_refl,
  beq→eq, ℤ, pos, ◌==◌, Map, lookup,
}
use go_libp2p_hybrid_kad_dht.RtDiversityFilter.{
  PeerGroupInfo, RtPeerIpGroupFilter, allow, increment, decrement, count_of, or_zero, or_empty,
  count_down, put_unless_empty,
}
use go_libp2p_hybrid_kad_dht.RtDiversityFilter.Counts.{
  Counts, stored, or_zero-stored, stored-none, guard_none, guard_some, table_within, cpl_within,
  occurrences, occurrences_at, lookup-count_down, lookup-put_unless_empty, increment-Counts,
  Counts-move,
}

module _ {Group : Type 0} ⦃e : Eq Group⦄ where
  -- What the maps hold for the peer to be removed.
  counted_table :
      (g : PeerGroupInfo Group) (ms : List (PeerGroupInfo Group))
      → stored (occurrences g.ip_group_key (g ∷ ms)) ≡ stored (suc (occurrences g.ip_group_key ms))
  counted_table g ms = rw (beq_refl g.ip_group_key) refl

  counted_at :
      (g : PeerGroupInfo Group) (ms : List (PeerGroupInfo Group))
      → stored (occurrences_at g.cpl g.ip_group_key (g ∷ ms))
        ≡ stored (suc (occurrences_at g.cpl g.ip_group_key ms))
  counted_at g ms = rw (beq_refl g.ip_group_key, beq_refl g.cpl) refl

  count_down_step :
      (m : Map Group ℤ) (j k : Group) (f : Group → ℕ)
      → lookup m j ≡ stored (if e.beq j k then suc (f j) else f j)
      → lookup m k ≡ stored (suc (f k))
      → lookup (count_down m k) j ≡ stored (f j)
  count_down_step m j k f h hk =
      lookup-count_down m j k (if e.beq j k then suc (f j) else f j) (f k) h hk
      ∙ (elim (Bool-cases (e.beq j k)) [
        | inl same ↦ rw same (ap (λ x. stored (f x)) (sym (beq→eq j k same)))
        | inr other ↦ rw other refl
      ])

  decrement_first :
      (r : RtPeerIpGroupFilter Group) (g : PeerGroupInfo Group) (ms : List (PeerGroupInfo Group))
      → Counts r (g ∷ ms)
      → (r' : RtPeerIpGroupFilter Group) × (decrement r g ≡ some r') × Counts r' ms
  unfolding decrement
  decrement_first r g ms c = elim (Option-cases (lookup r.cpl_ip_group_count g.cpl)) [
    | inl missing ↦ absurd (
        none_some (
          sym (ap (λ x. lookup (or_empty x) g.ip_group_key) missing)
          ∙ c.at_cpl g.cpl g.ip_group_key
          ∙ counted_at g ms))
    | inr present ↦
        let inner = present.0 in
        let at_inner : (key : Group)
            → lookup inner key ≡ stored (occurrences_at g.cpl key (g ∷ ms)) =
          λ key. sym (ap (λ x. lookup (or_empty x) key) present.1) ∙ c.at_cpl g.cpl key in
        let left = put_unless_empty r.cpl_ip_group_count g.cpl (count_down inner g.ip_group_key) in
        (
          record r {
            table_ip_group_count = count_down r.table_ip_group_count g.ip_group_key;
            cpl_ip_group_count = left;
          },
          rw (present.1, decrement) refl,
          record {
            table = λ key.
                count_down_step r.table_ip_group_count key g.ip_group_key (λ x. occurrences x ms)
                  (c.table key) (c.table g.ip_group_key ∙ counted_table g ms);
            at_cpl = λ i key.
                ap (λ x. lookup x key)
                  (lookup-put_unless_empty r.cpl_ip_group_count i g.cpl
                    (count_down inner g.ip_group_key))
                ∙ (elim (Bool-cases (i == g.cpl)) [
                  | inl same ↦
                      rw (same, beq→eq i g.cpl same)
                        (count_down_step inner key g.ip_group_key (λ x. occurrences_at g.cpl x ms)
                          (at_inner key ∙ own_cpl g ms key)
                          (at_inner g.ip_group_key ∙ counted_at g ms))
                  | inr other ↦ rw other (c.at_cpl i key ∙ other_cpl i g ms key other)
                ]);
          },
        )
  ]
    where
      none_some : {n : ℕ} → none ≡ stored (suc n) → ⊥
      none_some h = cc

      own_cpl :
          (g : PeerGroupInfo Group) (ms : List (PeerGroupInfo Group)) (key : Group)
          → stored (occurrences_at g.cpl key (g ∷ ms))
            ≡ stored (
                if e.beq key g.ip_group_key
                then suc (occurrences_at g.cpl key ms)
                else occurrences_at g.cpl key ms)
      own_cpl g ms key = rw (beq_refl g.cpl) refl

      other_cpl :
          (i : ℕ) (g : PeerGroupInfo Group) (ms : List (PeerGroupInfo Group)) (key : Group)
          → (i == g.cpl) ≡ false
          → stored (occurrences_at i key (g ∷ ms)) ≡ stored (occurrences_at i key ms)
      other_cpl i g ms key h = rw h refl

  -- Let the maps count the peers of the table. For a peer of the table `Decrement` does not write
  -- to a nil map, and the maps then count the other peers, with no entry left for a count of zero.
  pub decrement-Counts :
      (r : RtPeerIpGroupFilter Group) (g : PeerGroupInfo Group) (ms ns : List (PeerGroupInfo Group))
      → Counts r (ms ++ g ∷ ns)
      → (r' : RtPeerIpGroupFilter Group) × (decrement r g ≡ some r') × Counts r' (ms ++ ns)
  decrement-Counts r g ms ns c = decrement_first r g (ms ++ ns) (Counts-move r ms ns g c)

  allow-Counts :
      (r : RtPeerIpGroupFilter Group) (g : PeerGroupInfo Group) (ms : List (PeerGroupInfo Group))
      (m n : ℕ)
      → Counts r ms
      → r.max_for_table ≡ pos m
      → r.max_per_cpl ≡ pos (suc n)
      → allow r g
        ≡ ltb (occurrences g.ip_group_key ms) m && leb (occurrences_at g.cpl g.ip_group_key ms) n
  unfolding allow
  allow-Counts r g ms m n c hm hn = elim (Option-cases (lookup r.cpl_ip_group_count g.cpl)) [
    | inl missing ↦
        rw (table_count, hm, missing, allow)
          (guard_none m (occurrences g.ip_group_key ms) n _ (
            stored-none _ (
              sym (c.at_cpl g.cpl g.ip_group_key)
              ∙ ap (λ x. lookup (or_empty x) g.ip_group_key) missing)))
    | inr present ↦
        rw
          (
            table_count,
            hm,
            present.1,
            allow,
            ap or_zero (
                  sym (ap (λ x. lookup (or_empty x) g.ip_group_key) present.1)
                  ∙ c.at_cpl g.cpl g.ip_group_key)
                ∙ or_zero-stored _,
            hn,
          )
          (guard_some m (occurrences g.ip_group_key ms) n _)
  ]
    where
      table_count :
          count_of r.table_ip_group_count g.ip_group_key ≡ pos (occurrences g.ip_group_key ms)
      table_count = ap or_zero (c.table g.ip_group_key) ∙ or_zero-stored _

  -- The limits m for the table and n for each common prefix length.
  abbrev pub Within : ℕ → ℕ → List (PeerGroupInfo Group) → Type 0
  Within m n ms =
      (key : Group) → (occurrences key ms ≤ m) × ((cpl : ℕ) → occurrences_at cpl key ms ≤ n)

  -- Let the maps count the peers of the table, and let the limits be m and 1 + n. `Allow` admits
  -- a peer exactly if fewer than m peers of its group are in the table and at most n of them are
  -- at its common prefix length, be the table within the limits or not. If the table is within
  -- the limits and `Allow` admits the peer,
  -- the table with the peer is within the limits, and `Increment` counts it.
  pub allow-Within :
      (r : RtPeerIpGroupFilter Group) (g : PeerGroupInfo Group) (ms : List (PeerGroupInfo Group))
      (m n : ℕ)
      → Counts r ms
      → r.max_for_table ≡ pos m
      → r.max_per_cpl ≡ pos (suc n)
      → (allow r g
          ≡ ltb (occurrences g.ip_group_key ms) m && leb (occurrences_at g.cpl g.ip_group_key ms) n)
        × (Within m (suc n) ms
            → allow r g ≡ true
            → Within m (suc n) (g ∷ ms) × Counts (increment r g) (g ∷ ms))
  allow-Within r g ms m n c hm hn =
      let test = allow-Counts r g ms m n c hm hn in
      (
        test,
        λ w a. (
          (λ key. (
            table_within m (occurrences key ms) (e.beq key g.ip_group_key) (w key).0 (λ same.
                ap (λ x. ltb (occurrences x ms) m) (beq→eq key g.ip_group_key same)
                ∙ and-left _ (leb (occurrences_at g.cpl g.ip_group_key ms) n) (sym test ∙ a)),
            λ cpl.
                cpl_within n (occurrences_at cpl key ms) (cpl == g.cpl) (e.beq key g.ip_group_key)
                  ((w key).1 cpl)
                  (λ i k.
                    ap (λ x. leb (occurrences_at x key ms) n) (beq→eq cpl g.cpl i)
                    ∙ ap (λ x. leb (occurrences_at g.cpl x ms) n) (beq→eq key g.ip_group_key k)
                    ∙ and-right (ltb (occurrences g.ip_group_key ms) m) _ (sym test ∙ a)),
          )),
          increment-Counts r g ms c,
        ),
      )
