-- ===== src/Keystore/Worker.antt =====
-- The worker of provider/keystore/keystore.go: the size that it keeps after a put or a delete.
use go_libp2p_hybrid_kad_dht.Prelude.{
  select, length-map, ℕ, suc, ◌*◌, ◌≡◌, ◌<◌, ◌⊎◌, refl, sym, ap, ◌∙◌, Bool, true, false, Option,
  none, some, List, [], ◌∷◌, length, any, inl, inr, pos, if◌then◌else◌, false-ne-true,
}
use go_libp2p_hybrid_kad_dht.Keyspace.Key.{Key, key_len}
use go_libp2p_hybrid_kad_dht.Keystore.Keys.{Text, Library, Laws}
use go_libp2p_hybrid_kad_dht.Keystore.Operations.{
  Datastore, Keystore, Error, put_keys, delete_keys, count_results, refresh_size, refreshed,
  worker_put, worker_delete,
}
use go_libp2p_hybrid_kad_dht.Keystore.Contents.{Faithful, is_error}
use go_libp2p_hybrid_kad_dht.Keystore.Puts.{Put, put_keys-Put}
use go_libp2p_hybrid_kad_dht.Keystore.Deletes.{Deleted, delete_keys-Deleted}

count_results_lem :
    {Mh : Type 0} (rs : List (Option (Text × Mh)))
    → ((count_results rs).1 ≡ any is_error rs)
      × (any is_error rs ≡ false → (count_results rs).0 ≡ length rs)
unfolding count_results
count_results_lem [] = (refl, (λ h. refl))
count_results_lem (none ∷ rs) = (refl, (λ h. absurd (false-ne-true (sym h))))
count_results_lem (some r ∷ rs) =
    let rest = count_results_lem rs in (rest.0, (λ h. ap suc (rest.1 h)))

select-everything : {A : Type 0} (xs : List A) → select (λ x. true) xs ≡ xs
select-everything [] = refl
select-everything (x ∷ xs) = ap (◌∷◌ x) (select-everything xs)

module _ {Store Mh : Type 0} (l : Library) (laws : Laws l) (m : ℕ) (small : m < 32)
    (mh_to_bit256 : Mh → Key) (hashed : (h : Mh) → length (mh_to_bit256 h) ≡ key_len)
    (api : Datastore Store Mh) (faithful : Faithful api) where
  abbrev Right : Keystore Store → Type 0
  Right ks = ks.size ≡ pos (length (faithful.entries ks.ds))

  -- The size is right, or the datastore cannot be counted.
  abbrev pub RightIfCountable : Keystore Store → Type 0
  RightIfCountable ks = Right ks ⊎ (any is_error (api.query ks.ds []) ≡ true)

  refreshed-Right : (ks : Keystore Store) → RightIfCountable (refreshed api ks)
  unfolding refreshed refresh_size
  refreshed-Right ks = counted (count_results results).1 refl
    where
      results : List (Option (Text × Mh))
      results = api.query ks.ds []

      counted :
          (b : Bool)
          → (count_results results).1 ≡ b
          → RightIfCountable (if b then ks else record ks { size = pos (count_results results).0 })
      counted true e = inr (sym (count_results_lem results).0 ∙ e)
      counted false e =
          let fine = sym (count_results_lem results).0 ∙ e in
          inl (
            ap pos (
              (count_results_lem results).1 fine
              ∙ ap length (faithful.query-entries ks.ds [] fine)
              ∙ length-map some _
              ∙ ap length (select-everything (faithful.entries ks.ds))))

  -- What the worker may answer to a put, and leave.
  abbrev pub WorkerPut : Keystore Store → List Mh → (Error ⊎ List Mh) × Keystore Store → Type 0
  WorkerPut ks hs (inl e, ks') = RightIfCountable ks'
  WorkerPut ks hs (inr new_keys, ks') =
      Put l laws m small mh_to_bit256 hashed api faithful ks hs (inr new_keys, ks')

  -- Let Base64, `NewKey` and the datastore do what the package relies on, the bits in the path be
  -- whole bytes, fewer than 256, and the size of the keystore be the number of entries. If the
  -- worker answers a put without an error, the size is the number of entries again, the keys held
  -- are those held before and those of the call, the keys of the answer are those of the call
  -- that were not held, none of them twice, and if every multihash stood under its own key, every
  -- one does. If it answers with an error, the size is the number of entries, or the datastore
  -- reports an error when it is counted.
  pub worker_put_counts :
      (ks : Keystore Store) (hs : List Mh)
      → ks.size ≡ pos (length (faithful.entries ks.ds))
      → WorkerPut ks hs (worker_put l api (8 * m) mh_to_bit256 ks hs)
  unfolding worker_put
  worker_put_counts ks hs c =
      answered (put_keys l api (8 * m) mh_to_bit256 ks hs)
        (put_keys-Put l laws m small mh_to_bit256 hashed api faithful ks hs c)
    where
      answered :
          (r : (Error ⊎ List Mh) × Keystore Store)
          → Put l laws m small mh_to_bit256 hashed api faithful ks hs r
          → WorkerPut ks hs
              (elim r.0 [ inl e ↦ (inl e, refreshed api r.1) | inr new_keys ↦ (inr new_keys, r.1) ])
      answered (inl e, ks') p = refreshed-Right ks'
      answered (inr new_keys, ks') p = p

  -- What the worker may answer to a delete, and leave.
  abbrev pub WorkerDelete : Keystore Store → List Mh → Option Error × Keystore Store → Type 0
  WorkerDelete ks hs (some e, ks') = RightIfCountable ks'
  WorkerDelete ks hs (none, ks') =
      Deleted l laws m small mh_to_bit256 hashed api faithful ks hs (none, ks')

  -- Let Base64, `NewKey` and the datastore do what the package relies on, the bits in the path be
  -- whole bytes, fewer than 256, and the size of the keystore be the number of entries. If the
  -- worker answers a delete without an error, the size is the number of entries again, the keys
  -- held are those held before without those of the call, and if every multihash stood under its
  -- own key, every one does. If it answers with an error, the size is the number of entries, or
  -- the datastore reports an error when it is counted.
  pub worker_delete_counts :
      (ks : Keystore Store) (hs : List Mh)
      → ks.size ≡ pos (length (faithful.entries ks.ds))
      → WorkerDelete ks hs (worker_delete l api (8 * m) mh_to_bit256 ks hs)
  unfolding worker_delete
  worker_delete_counts ks hs c =
      answered (delete_keys l api (8 * m) mh_to_bit256 ks hs)
        (delete_keys-Deleted l laws m small mh_to_bit256 hashed api faithful ks hs c)
    where
      answered :
          (r : Option Error × Keystore Store)
          → Deleted l laws m small mh_to_bit256 hashed api faithful ks hs r
          → WorkerDelete ks hs
              (elim r.0 [ some e ↦ (some e, refreshed api r.1) | none ↦ (none, r.1) ])
      answered (some e, ks') p = refreshed-Right ks'
      answered (none, ks') p = p
