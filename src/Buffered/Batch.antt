-- ===== src/Buffered/Batch.antt =====
-- A batch has the effect of its operations one after the other.
use go_libp2p_hybrid_kad_dht.Prelude.{
  ℕ, ◌≡◌, refl, ap, ◌∙◌, Bool, true, false, ◌&&◌, ◌||◌, not, Option, List, [], ◌∷◌, select, ◌==◌,
  if◌then◌else◌, Eq, mem, mem-append, beq→eq, arith, Bool-cases, inl, inr,
}
use go_libp2p_hybrid_kad_dht.Buffered.{
  success, Operations, no_operations, Provider, from_bytes, execute_operation, execute_operations,
  add_operation, get_operations_loop, run_batch, start_providing_op, force_start_providing_op,
  stop_providing_op,
}

differs : (op a b : ℕ) → (a == b) ≡ false → (op == a) ≡ true → (op == b) ≡ false
differs op a b h k = ground arith

if_same : (q a : Bool) → a ≡ (if q then a else a)
if_same true a = refl
if_same false a = refl

hit_case : (x k xs r : Bool) → x ≡ k → r ≡ not k && xs → r ≡ not k && (x || xs)
hit_case x k xs r h i = ground arith

miss_case :
    (x k xs r : Bool) → (x ≡ true → k ≡ false) → r ≡ not k && xs → x || r ≡ not k && (x || xs)
miss_case x k xs r h i = ground arith

start_case :
    (q st sa fb : Bool)
    → not (not q && st) && ((sa || (q || false)) || fb) ≡ (if q then true else not st && (sa || fb))
start_case q st sa fb = ground arith

force_case :
    (q st sa fo b : Bool)
    → not (not q && st) && (sa || ((fo || (q || false)) || b))
      ≡ (if q then true else not st && (sa || (fo || b)))
force_case q st sa fo b = ground arith

known_case :
    (q st r : Bool) → (q ≡ true → st ≡ true) → not st && r ≡ (if q then false else not st && r)
known_case q st r h = ground arith

stop_case : (q st r : Bool) → not (st || (q || false)) && r ≡ (if q then false else not st && r)
stop_case q st r = ground arith

module _ {Mh : Type 0} ⦃e : Eq Mh⦄ where
  -- What is relied on of a provider: which multihashes it is providing after a call.
  pub record ProviderLaws {S : Type 0} (p : Provider Mh S) : Type 0 where
    pub providing : S → Mh → Bool
    pub providing-start :
        (force : Bool) (ks : List Mh) (s : S) (h : Mh)
        → providing (p.start_providing force ks s) h ≡ mem h ks || providing s h
    pub providing-once :
        (ks : List Mh) (s : S) (h : Mh) → providing (p.provide_once ks s) h ≡ providing s h
    pub providing-stop :
        (ks : List Mh) (s : S) (h : Mh)
        → providing (p.stop_providing ks s) h ≡ not (mem h ks) && providing s h

  -- Whether `h` is provided after an operation, and after a list of them.
  abbrev pub step : ℕ → Mh → Mh → Bool → Bool
  step op k h b =
      if e.beq h k
      then (if op == start_providing_op
          then true
          else if op == force_start_providing_op
          then true
          else if op == stop_providing_op
          then false
          else b)
      else b

  abbrev pub steps : List (ℕ × Mh) → Mh → Bool → Bool
  steps [] h b = b
  steps (i ∷ is) h b = steps is h (step i.0 i.1 h b)

  -- Whether `h` is provided after the execution of some operations.
  abbrev after_operations : Operations Mh → Mh → Bool → Bool
  after_operations ops h b = not (mem h ops.stop) && (mem h ops.start || (mem h ops.force || b))

  mem-remove :
      (h k : Mh) (xs : List Mh)
      → mem h (select (λ x. not (e.beq x k)) xs) ≡ not (e.beq h k) && mem h xs
  mem-remove h k [] = ground arith
  mem-remove h k (x ∷ xs) = elim (Bool-cases (e.beq x k)) [
    | inl hit ↦ rw hit (
        hit_case (e.beq h x) (e.beq h k) (mem h xs) _ (ap (e.beq h) (beq→eq x k hit))
          (mem-remove h k xs))
    | inr miss ↦ rw miss (
        miss_case (e.beq h x) (e.beq h k) (mem h xs) _
          (λ t. ap (λ y. e.beq y k) (beq→eq h x t) ∙ miss) (mem-remove h k xs))
  ]

  step-add :
      (op : ℕ) (k h : Mh) (ops : Operations Mh) (b : Bool)
      → after_operations (add_operation op k ops) h b ≡ step op k h (after_operations ops h b)
  unfolding add_operation
  step-add op k h ops b = elim (Bool-cases (op == 0)) [
    | inl is0 ↦
        rw (is0, differs op 0 1 refl is0, differs op 0 2 refl is0, differs op 0 3 refl is0)
          (if_same (e.beq h k) (after_operations ops h b))
    | inr not0 ↦ elim (Bool-cases (op == 1)) [
      | inl is1 ↦
          rw (not0, is1, mem-remove h k ops.stop, mem-append h ops.start (k ∷ []))
            (start_case (e.beq h k) (mem h ops.stop) (mem h ops.start) (mem h ops.force || b))
      | inr not1 ↦ elim (Bool-cases (op == 2)) [
        | inl is2 ↦
            rw (not0, not1, is2, mem-remove h k ops.stop, mem-append h ops.force (k ∷ []))
              (force_case (e.beq h k) (mem h ops.stop) (mem h ops.start) (mem h ops.force) b)
        | inr not2 ↦ elim (Bool-cases (op == 3)) [
          | inr not3 ↦ rw (not0, not1, not2, not3) (if_same (e.beq h k) (after_operations ops h b))
          | inl is3 ↦ elim (Bool-cases (mem k ops.stop)) [
            | inl known ↦
                rw (not0, not1, not2, is3, known)
                  (known_case (e.beq h k) (mem h ops.stop)
                    (mem h ops.start || (mem h ops.force || b))
                    (λ t. ap (λ y. mem y ops.stop) (beq→eq h k t) ∙ known))
            | inr new ↦
                rw (not0, not1, not2, is3, new, mem-append h ops.stop (k ∷ []))
                  (stop_case (e.beq h k) (mem h ops.stop)
                    (mem h ops.start || (mem h ops.force || b)))
          ]
        ]
      ]
    ]
  ]

  -- What a queue of bytes says.
  abbrev pub AllParse : (List ℕ → Option Mh) → List (List ℕ) → List (ℕ × Mh) → Type 0
  AllParse cast [] [] = Unit {0}
  AllParse cast (bs ∷ bss) (i ∷ is) = (from_bytes cast bs ≡ success i) × AllParse cast bss is
  AllParse cast _ _ = ⊥

  get_operations_loop-steps :
      (cast : List ℕ → Option Mh) (bss : List (List ℕ)) (is : List (ℕ × Mh)) (ops : Operations Mh)
      → AllParse cast bss is
      → (ops' : Operations Mh) × (get_operations_loop cast bss ops ≡ success ops')
        × ((h : Mh) (b : Bool) → after_operations ops' h b ≡ steps is h (after_operations ops h b))
  unfolding get_operations_loop
  get_operations_loop-steps cast [] [] ops a = (ops, refl, λ h b. refl)
  get_operations_loop-steps cast [] (i ∷ is) ops a = absurd a
  get_operations_loop-steps cast (bs ∷ bss) [] ops a = absurd a
  get_operations_loop-steps cast (bs ∷ bss) (i ∷ is) ops a =
      let rest = get_operations_loop-steps cast bss is (add_operation i.0 i.1 ops) a.1 in
      (
        rest.0,
        rw (a.0, get_operations_loop) rest.1,
        λ h b. rest.2 h b ∙ ap (steps is h) (step-add i.0 i.1 h ops b),
      )

  module _ {S : Type 0} (p : Provider Mh S) (laws : ProviderLaws p) where
    execute-start :
        (force : Bool) (ks : List Mh) (s : S) (h : Mh)
        → laws.providing (execute_operation (p.start_providing force) ks s) h
          ≡ mem h ks || laws.providing s h
    execute-start force [] s h = refl
    execute-start force (k ∷ ks) s h = laws.providing-start force (k ∷ ks) s h

    execute-once :
        (ks : List Mh) (s : S) (h : Mh)
        → laws.providing (execute_operation p.provide_once ks s) h ≡ laws.providing s h
    execute-once [] s h = refl
    execute-once (k ∷ ks) s h = laws.providing-once (k ∷ ks) s h

    execute-stop :
        (ks : List Mh) (s : S) (h : Mh)
        → laws.providing (execute_operation p.stop_providing ks s) h
          ≡ not (mem h ks) && laws.providing s h
    execute-stop [] s h = refl
    execute-stop (k ∷ ks) s h = laws.providing-stop (k ∷ ks) s h

    execute_operations-after :
        (ops : Operations Mh) (s : S) (h : Mh)
        → laws.providing (execute_operations p ops s) h
          ≡ after_operations ops h (laws.providing s h)
    unfolding execute_operations
    execute_operations-after ops s h =
        execute-stop ops.stop _ h
        ∙ ap (λ b. not (mem h ops.stop) && b)
            (execute-once ops.once _ h
              ∙ execute-start false ops.start _ h
              ∙ ap (λ b. mem h ops.start || b) (execute-start true ops.force s h))

    -- Let every entry of a batch parse, and let the wrapped provider start and stop providing what
    -- it is told. The batch neither panics nor is dropped, and after it the provider is providing
    -- a multihash exactly if it would be after the operations of the batch one after the other,
    -- although the worker runs all starts first and all stops last.
    pub run_batch-steps :
        (cast : List ℕ → Option Mh) (bss : List (List ℕ)) (is : List (ℕ × Mh)) (s : S)
        → AllParse cast bss is
        → (s' : S) × (run_batch cast p bss s ≡ success s')
          × ((h : Mh) → laws.providing s' h ≡ steps is h (laws.providing s h))
    unfolding run_batch
    run_batch-steps cast bss is s a =
        let parsed = get_operations_loop-steps cast bss is no_operations a in
        (
          execute_operations p parsed.0 s,
          rw (parsed.1, run_batch) refl,
          λ h. execute_operations-after parsed.0 s h ∙ parsed.2 h (laws.providing s h),
        )
