-- ===== src/Buffered.antt =====
-- provider/buffered/provider.go: operations queued as bytes and executed in batches.
--
-- `mh.Cast` is an argument, which returns `none` for an error; a byte is a number. The wrapped
-- provider is an interface: its operations on its state are an argument.
pub mod Batch
use go_libp2p_hybrid_kad_dht.Prelude.{
  ℕ, Bool, true, false, ◌||◌, not, Option, none, some, List, [], ◌∷◌, ◌++◌, select, length, ◌==◌,
  ltb, if◌then◌else◌, Eq, mem,
}

-- `provideOnceOp`, `startProvidingOp`, `forceStartProvidingOp` and `stopProvidingOp`.
abbrev pub provide_once_op : ℕ
provide_once_op = 0

abbrev pub start_providing_op : ℕ
start_providing_op = 1

abbrev pub force_start_providing_op : ℕ
force_start_providing_op = 2

abbrev pub stop_providing_op : ℕ
stop_providing_op = 3

-- A result, an error that is returned, or a panic.
pub data Outcome {ℓ} (A : Type ℓ) : Type ℓ where
  success : A → Outcome A
  failure : Outcome A
  panic : Outcome A

-- The arrays of `getOperations`; the set of multihashes to stop is a list in some order.
pub record Operations (Mh : Type 0) : Type 0 where
  pub once : List Mh
  pub start : List Mh
  pub force : List Mh
  pub stop : List Mh

abbrev pub no_operations : {Mh : Type 0} → Operations Mh
no_operations = record { once = []; start = []; force = []; stop = [] }

-- `internal.Provider`, the operations that the worker calls.
pub record Provider (Mh : Type 0) (S : Type 0) : Type 0 where
  pub start_providing : Bool → List Mh → S → S
  pub provide_once : List Mh → S → S
  pub stop_providing : List Mh → S → S

module _ {Mh : Type 0} where
  -- `toBytes` and `fromBytes`.
  unfoldable pub to_bytes : (Mh → List ℕ) → ℕ → Mh → List ℕ
  to_bytes bytes op key = op ∷ bytes key

  unfoldable pub from_bytes : (List ℕ → Option Mh) → List ℕ → Outcome (ℕ × Mh)
  from_bytes cast [] = panic
  from_bytes cast (op ∷ rest) = elim (cast rest) [ none ↦ failure | some h ↦ success (op, h) ]

  -- `enqueue`: what it puts into the queue.
  unfoldable pub enqueue : (Mh → List ℕ) → List (List ℕ) → ℕ → List Mh → List (List ℕ)
  unfolding to_bytes
  enqueue bytes queue op [] = queue
  enqueue bytes queue op (h ∷ hs) = enqueue bytes (queue ++ to_bytes bytes op h ∷ []) op hs

  -- `StartProviding`, of the buffer.
  unfoldable pub start_providing : (Mh → List ℕ) → List (List ℕ) → Bool → List Mh → List (List ℕ)
  unfolding enqueue
  start_providing bytes queue force hs =
      enqueue bytes queue (if force then force_start_providing_op else start_providing_op) hs

  -- `executeOperation`.
  abbrev pub execute_operation {ℓ} : {S : Type ℓ} → (List Mh → S → S) → List Mh → S → S
  execute_operation f [] s = s
  execute_operation f (h ∷ hs) s = f (h ∷ hs) s

  -- The four executions of `worker`.
  unfoldable pub execute_operations : {S : Type 0} → Provider Mh S → Operations Mh → S → S
  execute_operations p ops s = execute_operation p.stop_providing ops.stop (
      execute_operation p.provide_once ops.once (
        execute_operation (p.start_providing false) ops.start
          (execute_operation (p.start_providing true) ops.force s)))

module _ {Mh : Type 0} ⦃e : Eq Mh⦄ where
  -- The switch of `getOperations`.
  unfoldable pub add_operation : ℕ → Mh → Operations Mh → Operations Mh
  add_operation op h ops =
      if op == provide_once_op
      then record ops { once = ops.once ++ h ∷ [] }
      else if op == start_providing_op
      then record ops { stop = select (λ x. not (e.beq x h)) ops.stop; start = ops.start ++ h ∷ [] }
      else if op == force_start_providing_op
      then record ops { stop = select (λ x. not (e.beq x h)) ops.stop; force = ops.force ++ h ∷ [] }
      else if op == stop_providing_op
      then (if mem h ops.stop then ops else record ops { stop = ops.stop ++ h ∷ [] })
      else ops

  -- `getOperations`, from the arrays so far.
  unfoldable pub get_operations_loop :
      (List ℕ → Option Mh) → List (List ℕ) → Operations Mh → Outcome (Operations Mh)
  unfolding from_bytes add_operation
  get_operations_loop cast [] ops = success ops
  get_operations_loop cast (bs ∷ dequeued) ops = elim (from_bytes cast bs) [
    | panic ↦ panic
    | failure ↦ failure
    | success item ↦ get_operations_loop cast dequeued (add_operation item.0 item.1 ops)
  ]

  unfoldable pub get_operations : (List ℕ → Option Mh) → List (List ℕ) → Outcome (Operations Mh)
  unfolding get_operations_loop
  get_operations cast dequeued = get_operations_loop cast dequeued no_operations

  -- A batch of `worker`; a batch that does not parse is dropped.
  unfoldable pub run_batch :
      {S : Type 0} → (List ℕ → Option Mh) → Provider Mh S → List (List ℕ) → S → Outcome S
  unfolding get_operations execute_operations
  run_batch cast p dequeued s = elim (get_operations cast dequeued) [
    | panic ↦ panic
    | failure ↦ success s
    | success ops ↦ success (execute_operations p ops s)
  ]
