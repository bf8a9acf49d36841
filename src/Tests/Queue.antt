-- ===== src/Tests/Queue.antt =====
-- provider/internal/queue at concrete inputs.
use go_libp2p_hybrid_kad_dht.Prelude.{◌≡◌, refl, Bool, true, false, some, [], ◌∷◌, ◌⊎◌}
use go_libp2p_hybrid_kad_dht.Keyspace.Trie.{leaf, branches}
use go_libp2p_hybrid_kad_dht.Keyspace.Trie.Reference.{reference, reference-TrieLaws}
use go_libp2p_hybrid_kad_dht.Queue.Prefix.{PrefixQueue, push_one, push, pop, remove}
use go_libp2p_hybrid_kad_dht.Queue.Prefix.Invariant.{Inv}
use go_libp2p_hybrid_kad_dht.Queue.Prefix.Refines.{
  push_one_refines, push_refines, pop_refines, remove_refines,
}

abbrev o : Bool
o = false

abbrev i : Bool
i = true

-- The prefixes 00, 01 and 1.
abbrev three : PrefixQueue
three = record {
  queue = (o ∷ o ∷ []) ∷ (o ∷ i ∷ []) ∷ (i ∷ []) ∷ [];
  prefixes = branches (branches (leaf (o ∷ o ∷ []) tt) (leaf (o ∷ i ∷ []) tt)) (leaf (i ∷ []) tt);
}

three-Inv : Inv three
three-Inv = record {
  shape = ((refl, refl, refl), refl, refl);
  tracked = λ x. refl;
  disjoint = (refl, (refl, (refl, tt)));
}

push_one_refines_example :
    (q' : PrefixQueue) × (push_one reference three (o ∷ []) ≡ some q')
    × (q'.queue ≡ (o ∷ []) ∷ (i ∷ []) ∷ [])
    × Inv q'
push_one_refines_example = push_one_refines reference reference-TrieLaws three (o ∷ []) three-Inv

push_refines_example :
    (q' : PrefixQueue) × (push reference three ((o ∷ []) ∷ (o ∷ o ∷ []) ∷ []) ≡ some q')
    × (q'.queue ≡ (o ∷ []) ∷ (i ∷ []) ∷ [])
    × Inv q'
push_refines_example =
    push_refines reference reference-TrieLaws three ((o ∷ []) ∷ (o ∷ o ∷ []) ∷ []) three-Inv

pop_refines_example :
    let (q', prefix, ok) = pop reference three in
    Inv q'
    × (((three.queue ≡ []) × (ok ≡ false) × (q' ≡ three))
        ⊎ ((three.queue ≡ prefix ∷ q'.queue) × (ok ≡ true)))
pop_refines_example = pop_refines reference reference-TrieLaws three three-Inv

remove_refines_example :
    (q' : PrefixQueue) × (remove reference three (o ∷ []) ≡ some (q', true))
    × (q'.queue ≡ (i ∷ []) ∷ [])
    × Inv q'
remove_refines_example = remove_refines reference reference-TrieLaws three (o ∷ []) three-Inv
