-- ===== src/Timeseries/Window.antt =====
-- The series holds the entries of its window.
use go_libp2p_hybrid_kad_dht.Prelude.{
  ℕ, ℤ, pos, ◌≡◌, refl, sym, ap, ◌∙◌, ◌≤◌, Bool, true, false, not, List, [], ◌∷◌, ◌++◌, length, leb,
  leb→le, if◌then◌else◌, arith, all, select, select-all, select-append, Ordered, all_of_all,
  all-append, all-select, and-left, append-nil, subst, Bool-cases, inl, inr, map, append_assoc,
}
use go_libp2p_hybrid_kad_dht.Timeseries.Series.{
  TimeEntry, TimeSeries, expired, gc_loop, gc, add_weighted, count,
}

-- A call of `AddWeighted`.
pub record Call {ℓ} (T : Type ℓ) : Type ℓ where
  pub time : ℕ
  pub value : T
  pub weight : ℤ

module _ {ℓ} {A : Type ℓ} (rel : A → A → Bool) where
  Ordered-front : (xs ys : List A) → Ordered rel (xs ++ ys) → Ordered rel xs
  Ordered-front [] ys o = tt
  Ordered-front (x ∷ xs) ys o = (
    and-left (all (rel x) xs) (all (rel x) ys) (sym (all-append (rel x) xs ys) ∙ o.0),
    Ordered-front xs ys o.1,
  )

  Ordered-select_front :
      (p : A → Bool) (xs ys : List A) → Ordered rel (xs ++ ys) → Ordered rel (select p xs ++ ys)
  Ordered-select_front p [] ys o = o
  Ordered-select_front p (x ∷ xs) ys o = elim (Bool-cases (p x)) [
    | inl kept ↦ rw kept (
      ground (
        arith,
        all-append (rel x) xs ys,
        all-append (rel x) (select p xs) ys,
        all-select p (rel x) xs,
        o.0,
      ),
      Ordered-select_front p xs ys o.1,
    )
    | inr dropped ↦ rw dropped (Ordered-select_front p xs ys o.1)
  ]

module _ {ℓ} {T : Type ℓ} where
  abbrev pub earlier : TimeEntry T → TimeEntry T → Bool
  earlier a b = leb a.timestamp b.timestamp

  -- The entries that are not older than the retention.
  abbrev pub in_window : ℕ → ℕ → List (TimeEntry T) → List (TimeEntry T)
  in_window retention now = select (λ e. not (expired retention now e))

  fresh_of_earlier :
      (retention now : ℕ) (a b : TimeEntry T)
      → expired retention now a ≡ false
      → earlier a b ≡ true
      → not (expired retention now b) ≡ true
  fresh_of_earlier retention now a b h k = ground arith

  gc_loop-window :
      (retention now : ℕ) (es : List (TimeEntry T))
      → Ordered earlier es
      → gc_loop retention now es ≡ in_window retention now es
  unfolding gc_loop
  gc_loop-window retention now [] o = refl
  gc_loop-window retention now (e ∷ es) o = elim (Bool-cases (expired retention now e)) [
    | inl old ↦ rw old (gc_loop-window retention now es o.1)
    | inr fresh ↦ rw fresh (
        ap (◌∷◌ e) (
          sym (
            select-all _ es (
              all_of_all (earlier e) (λ x. not (expired retention now x))
                (λ x. fresh_of_earlier retention now e x fresh) es o.0))))
  ]

  expired_later :
      (retention now later : ℕ) (e : TimeEntry T)
      → now ≤ later
      → expired retention now e ≡ true
      → expired retention later e ≡ true
  expired_later retention now later e h k = ground arith

  window-window :
      (retention now later : ℕ) (es : List (TimeEntry T))
      → now ≤ later
      → in_window retention later (in_window retention now es) ≡ in_window retention later es
  window-window retention now later [] h = refl
  window-window retention now later (e ∷ es) h =
      ground (arith, window-window retention now later es h, expired_later retention now later e h)

  window_rest :
      (retention now later : ℕ) (es fs : List (TimeEntry T))
      → now ≤ later
      → in_window retention later (in_window retention now es ++ fs)
        ≡ in_window retention later (es ++ fs)
  window_rest retention now later es fs h =
      select-append (λ e. not (expired retention later e)) (in_window retention now es) fs
      ∙ ap (λ x. x ++ in_window retention later fs) (window-window retention now later es h)
      ∙ sym (select-append (λ e. not (expired retention later e)) es fs)

  -- The entry that a call makes, and the series after some calls.
  abbrev pub entry_of : Bool → Call T → TimeEntry T
  entry_of weighted c = record {
    timestamp = c.time;
    value = c.value;
    weight = if weighted then c.weight else pos 1;
  }

  abbrev pub after : TimeSeries T → List (Call T) → TimeSeries T
  after t [] = t
  after t (c ∷ cs) = after (add_weighted t c.time c.value c.weight) cs

  cleared :
      (t : TimeSeries T) (cs : List (Call T)) (now : ℕ)
      → Ordered earlier (t.entries ++ map (entry_of t.weighted) cs)
      → all (λ c. leb c.time now) cs ≡ true
      → (gc (after t cs) now).entries
        ≡ in_window t.retention now (t.entries ++ map (entry_of t.weighted) cs)
  unfolding add_weighted
  cleared t [] now o h =
      gc_loop-window t.retention now t.entries (Ordered-front earlier t.entries [] o)
      ∙ ap (in_window t.retention now) (sym (append-nil t.entries))
  cleared t (c ∷ cs) now o h =
      let e = entry_of t.weighted c in
      let added = t.entries ++ e ∷ [] in
      let rest = map (entry_of t.weighted) cs in
      let o' = subst (Ordered earlier) (sym (append_assoc t.entries (e ∷ []) rest)) o in
      let kept = gc_loop-window t.retention c.time added (Ordered-front earlier added rest o') in
      cleared (add_weighted t c.time c.value c.weight) cs now
        (rw kept
          (Ordered-select_front earlier (λ x. not (expired t.retention c.time x)) added rest o'))
        (ground arith)
      ∙ rw kept (window_rest t.retention c.time now added rest (leb→le c.time now (ground arith)))
      ∙ ap (in_window t.retention now) (append_assoc t.entries (e ∷ []) rest)

  -- Let the entries of a series and those of the following calls be in the order of their times,
  -- and let no call be later than the time of a reading. Then the reading finds, in order,
  -- exactly the entries, old and new, that are not older than the retention at its time, although
  -- every call has cleared the series; and `Count` is their number.
  pub count_window :
      (t : TimeSeries T) (cs : List (Call T)) (now : ℕ)
      → Ordered earlier (t.entries ++ map (entry_of t.weighted) cs)
      → all (λ c. leb c.time now) cs ≡ true
      → ((count (after t cs) now).0.entries
          ≡ in_window t.retention now (t.entries ++ map (entry_of t.weighted) cs))
        × ((count (after t cs) now).1
            ≡ length (in_window t.retention now (t.entries ++ map (entry_of t.weighted) cs)))
  unfolding count
  count_window t cs now o h = let found = cleared t cs now o h in (found, ap length found)
