-- ===== src/Tests/Buffered.antt =====
-- provider/buffered at concrete inputs: a multihash is a number of one byte.
use go_libp2p_hybrid_kad_dht.Prelude.{
  ℕ, ◌≡◌, refl, Bool, true, false, ◌&&◌, ◌||◌, not, Option, none, some, List, [], ◌∷◌, nat_eq, mem,
}
use go_libp2p_hybrid_kad_dht.Buffered.{
  success, Provider, from_bytes, run_batch, get_operations, start_providing,
}
use go_libp2p_hybrid_kad_dht.Buffered.Batch.{ProviderLaws, steps, AllParse, run_batch-steps}

abbrev cast : List ℕ → Option ℕ
cast (n ∷ []) = some n
cast _ = none

-- A provider whose state is what it provides.
abbrev plain : Provider ℕ (ℕ → Bool)
plain = record {
  start_providing = λ force ks s h. mem h ks || s h;
  provide_once = λ ks s. s;
  stop_providing = λ ks s h. not (mem h ks) && s h;
}

plain-ProviderLaws : ProviderLaws plain
plain-ProviderLaws = record {
  providing = λ s h. s h;
  providing-start = λ force ks s h. refl;
  providing-once = λ ks s h. refl;
  providing-stop = λ ks s h. refl;
}

-- Stop 7, start 7, start 8, stop 8.
abbrev items : List (List ℕ)
items = (3 ∷ 7 ∷ []) ∷ (1 ∷ 7 ∷ []) ∷ (2 ∷ 8 ∷ []) ∷ (3 ∷ 8 ∷ []) ∷ []

abbrev operations : List (ℕ × ℕ)
operations = (3, 7) ∷ (1, 7) ∷ (2, 8) ∷ (3, 8) ∷ []

queue_run : start_providing (λ h. h ∷ []) [] true (8 ∷ 9 ∷ []) ≡ (2 ∷ 8 ∷ []) ∷ (2 ∷ 9 ∷ []) ∷ []
unfolding start_providing
queue_run = refl

operations_run :
    get_operations cast items
    ≡ success (record { once = []; start = 7 ∷ []; force = 8 ∷ []; stop = 8 ∷ [] })
unfolding get_operations
operations_run = refl

items-AllParse : AllParse cast items operations
unfolding from_bytes
items-AllParse = (refl, (refl, (refl, (refl, tt))))

run_batch-steps_example :
    (s' : ℕ → Bool) × (run_batch cast plain items (λ h. false) ≡ success s')
    × ((h : ℕ)
        → plain-ProviderLaws.providing s' h
          ≡ steps operations h (plain-ProviderLaws.providing (λ x. false) h))
run_batch-steps_example =
    run_batch-steps plain plain-ProviderLaws cast items operations (λ h. false) items-AllParse
