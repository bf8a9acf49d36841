-- ===== src/Keystore/Operations.antt =====
-- The operations of provider/keystore/keystore.go, as the worker runs them one by one.
--
-- The datastore is a parameter, as is the SHA-256 of `MhToBit256`; which of their calls fail is
-- theirs to say. A failed `Sync` is only logged and is left out.
use go_libp2p_hybrid_kad_dht.Prelude.{
  ℕ, suc, ◌⊎◌, inl, inr, Bool, true, false, Option, none, some, List, [], ◌∷◌, length, ltb,
  if◌then◌else◌, mem, ℤ, pos, ◌+ℤ◌, ◌-ℤ◌, bool_eq, list_eq, nat_eq,
}
use go_libp2p_hybrid_kad_dht.Keyspace.Key.{Key, is_prefix}
use go_libp2p_hybrid_kad_dht.Keystore.Keys.{Text, Library, DecodeError, ds_key, decode_key}

-- What a batch stages.
pub data Change (Mh : Type 0) : Type 0 where
  put_change : Text → Mh → Change Mh
  delete_change : Text → Change Mh

-- The datastore: `Batch`, `Has`, `Put` and `Delete` of a batch, `Commit`, and the results of a
-- query by a prefix, with `none` for a result that is an error.
pub record Datastore (Store Mh : Type 0) : Type 0 where
  pub batch : Store → Bool
  pub has : Store → Text → Option Bool
  pub stage : Store → Change Mh → Bool
  pub commit : Store → List (Change Mh) → Store × Bool
  pub query : Store → Text → List (Option (Text × Mh))

-- `keystore`, the fields that change.
pub record Keystore (Store : Type 0) : Type 0 where
  pub ds : Store
  pub size : ℤ

-- The calls that fail. A panic is one of `decodeKey`.
pub data Error : Type 0 where
  batch_failed has_failed stage_failed commit_failed query_failed panicked : Error
  not_decoded : DecodeError → Error

-- `refreshSize`: the number of results before the first error, and whether there is one.
unfoldable pub count_results : {Mh : Type 0} → List (Option (Text × Mh)) → ℕ × Bool
count_results [] = (0, false)
count_results (none ∷ rs) = (0, true)
count_results (some r ∷ rs) = let (n, failed) = count_results rs in (suc n, failed)

module _ {Store Mh : Type 0} (api : Datastore Store Mh) where
  unfoldable pub refresh_size : Store → ℕ × Bool
  unfolding count_results
  refresh_size s = count_results (api.query s [])

  -- What the worker does after an operation that failed.
  unfoldable pub refreshed : Keystore Store → Keystore Store
  unfolding refresh_size
  refreshed ks =
      let (n, failed) = refresh_size ks.ds in if failed then ks else record ks { size = pos n }

-- The test of a key that `decodeKey` returned.
abbrev pub tested : Key → Option (Option DecodeError × Key) → Error ⊎ Bool
tested prefix none = inl panicked
tested prefix (some r) = elim r.0 [
  | some e ↦ inl (not_decoded e)
  | none ↦ inr (is_prefix prefix r.1)
]

module _ {Store Mh : Type 0} (l : Library) (api : Datastore Store Mh) (prefix_bits : ℕ) where
  -- Whether an entry passes the test of a prefix longer than the path.
  abbrev pub decoded_passes : Key → Text → Error ⊎ Bool
  decoded_passes prefix text = tested prefix (decode_key l prefix_bits text)

  -- The loop of `get`.
  unfoldable pub get_loop : Key → List (Option (Text × Mh)) → Error ⊎ List Mh
  get_loop prefix [] = inr []
  get_loop prefix (none ∷ rs) = inl query_failed
  get_loop prefix (some r ∷ rs) =
      let rest = get_loop prefix rs in
      let kept : Error ⊎ List Mh = elim rest [ inl e ↦ inl e | inr out ↦ inr (r.1 ∷ out) ] in
      if ltb prefix_bits (length prefix)
      then elim (decoded_passes prefix r.0) [
        | inl e ↦ inl e
        | inr passes ↦ if passes then kept else rest
      ]
      else kept

  -- `get`.
  unfoldable pub get_keys : Store → Key → Error ⊎ List Mh
  unfolding get_loop
  get_keys s prefix = get_loop prefix (api.query s (ds_key l prefix_bits prefix))

  -- The loop of `containsPrefix`, of which a query with a limit of 1 reads no second result.
  unfoldable pub contains_loop : Key → List (Option (Text × Mh)) → Error ⊎ Bool
  contains_loop prefix [] = inr false
  contains_loop prefix (none ∷ rs) = inl query_failed
  contains_loop prefix (some r ∷ rs) =
      let rest = contains_loop prefix rs in
      if ltb prefix_bits (length prefix)
      then elim (decoded_passes prefix r.0) [
        | inl e ↦ inl e
        | inr passes ↦ if passes then inr true else rest
      ]
      else inr true

  -- `containsPrefix`.
  unfoldable pub contains_prefix : Store → Key → Error ⊎ Bool
  unfolding contains_loop
  contains_prefix s prefix = contains_loop prefix (api.query s (ds_key l prefix_bits prefix))

module _ {Store Mh : Type 0} (l : Library) (api : Datastore Store Mh) (prefix_bits : ℕ)
    (mh_to_bit256 : Mh → Key) where
  -- The loop of `put`: the changes that are staged and the new keys.
  unfoldable pub put_loop : Store → List Key → List Mh → Error ⊎ (List (Change Mh) × List Mh)
  put_loop s seen [] = inr ([], [])
  put_loop s seen (h ∷ hs) =
      let k = mh_to_bit256 h in
      let skipped = put_loop s seen hs in
      let rest = put_loop s (k ∷ seen) hs in
      let change = put_change (ds_key l prefix_bits k) h in
      if mem k seen then skipped else elim (api.has s (ds_key l prefix_bits k)) [
        | none ↦ inl has_failed
        | some held ↦
            if held
            then rest
            else if api.stage s change
            then elim rest [ inl e ↦ inl e | inr r ↦ inr (change ∷ r.0, h ∷ r.1) ]
            else inl stage_failed
      ]

  -- `put`.
  unfoldable pub put_keys : Keystore Store → List Mh → (Error ⊎ List Mh) × Keystore Store
  unfolding put_loop
  put_keys ks hs =
      if api.batch ks.ds
      then elim (put_loop ks.ds [] hs) [
        | inl e ↦ (inl e, ks)
        | inr r ↦
            let (ds', ok) = api.commit ks.ds r.0 in
            if ok
            then (inr r.1, record { ds = ds'; size = ks.size +ℤ pos (length r.1) })
            else (inl commit_failed, record ks { ds = ds' })
      ]
      else (inl batch_failed, ks)

  -- The loop of `delete`: the changes that are staged, of which each counts.
  unfoldable pub delete_loop : Store → List Key → List Mh → Error ⊎ List (Change Mh)
  delete_loop s seen [] = inr []
  delete_loop s seen (h ∷ hs) =
      let k = mh_to_bit256 h in
      let skipped = delete_loop s seen hs in
      let rest = delete_loop s (k ∷ seen) hs in
      let change : Change Mh = delete_change (ds_key l prefix_bits k) in
      if mem k seen then skipped else elim (api.has s (ds_key l prefix_bits k)) [
        | none ↦ inl has_failed
        | some held ↦
            if held
            then (if api.stage s change
                then elim rest [ inl e ↦ inl e | inr r ↦ inr (change ∷ r) ]
                else inl stage_failed)
            else rest
      ]

  -- `delete`.
  unfoldable pub delete_keys : Keystore Store → List Mh → Option Error × Keystore Store
  unfolding delete_loop
  delete_keys ks hs =
      if api.batch ks.ds
      then elim (delete_loop ks.ds [] hs) [
        | inl e ↦ (some e, ks)
        | inr changes ↦
            let (ds', ok) = api.commit ks.ds changes in
            if ok
            then (none, record { ds = ds'; size = ks.size -ℤ pos (length changes) })
            else (some commit_failed, record ks { ds = ds' })
      ]
      else (some batch_failed, ks)

  -- The cases of the worker that change the keystore, `opPut` and `opDelete`.
  unfoldable pub worker_put : Keystore Store → List Mh → (Error ⊎ List Mh) × Keystore Store
  unfolding put_keys refreshed
  worker_put ks hs =
      let (response, ks') = put_keys ks hs in
      elim response [ inl e ↦ (inl e, refreshed api ks') | inr new_keys ↦ (inr new_keys, ks') ]

  unfoldable pub worker_delete : Keystore Store → List Mh → Option Error × Keystore Store
  unfolding delete_keys refreshed
  worker_delete ks hs =
      let (response, ks') = delete_keys ks hs in
      elim response [ some e ↦ (some e, refreshed api ks') | none ↦ (none, ks') ]
