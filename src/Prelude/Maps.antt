-- ===== src/Prelude/Maps.antt =====
-- Maps as association lists, and signed numbers for the counters.
use Prim.Native.Nat.{ℕ, zero, suc}
use mathlib.Core.Path.{◌≡◌, refl, ◌∙◌, ap}
use mathlib.Core.Bool.{Bool, true, false, not}
use mathlib.Core.Option.{Option, none, some}
use mathlib.Core.Logic.{inl, inr}
use mathlib.Core.List.{List, [], ◌∷◌}
use go_libp2p_hybrid_kad_dht.Prelude.Tests.{leb, if◌then◌else◌, Bool-cases}
use go_libp2p_hybrid_kad_dht.Prelude.Lists.{select}
use go_libp2p_hybrid_kad_dht.Prelude.Equality.{Eq, beq→eq, beq_refl, beq_sym}

-- Go's `int`, where a count may fall below zero.
pub data ℤ : Type 0 where
  pos : ℕ → ℤ
  negsuc : ℕ → ℤ

abbrev pub succ : ℤ → ℤ
succ (pos n) = pos (suc n)
succ (negsuc zero) = pos 0
succ (negsuc (suc n)) = negsuc n

abbrev pub pred : ℤ → ℤ
pred (pos zero) = negsuc 0
pred (pos (suc n)) = pos n
pred (negsuc n) = negsuc (suc n)

abbrev pub leq : ℤ → ℤ → Bool
leq (pos m) (pos n) = leb m n
leq (pos m) (negsuc n) = false
leq (negsuc m) (pos n) = true
leq (negsuc m) (negsuc n) = leb n m

abbrev pub is_zero : ℤ → Bool
is_zero (pos zero) = true
is_zero _ = false

-- The order of the entries of a map is not seen.
abbrev pub Map {ℓ κ} : Type ℓ → Type κ → Type (ℓ ⊔ κ)
Map K V = List (K × V)

module _ {ℓ κ} {K : Type ℓ} {V : Type κ} ⦃e : Eq K⦄ where
  abbrev pub lookup : Map K V → K → Option V
  lookup [] k = none
  lookup (x ∷ m) k = if e.beq x.0 k then some x.1 else lookup m k

  abbrev pub delete : Map K V → K → Map K V
  delete m k = select (λ x. not (e.beq x.0 k)) m

  abbrev pub put : Map K V → K → V → Map K V
  put m k v = (k, v) ∷ delete m k

  pub lookup-delete_same : (m : Map K V) (k : K) → lookup (delete m k) k ≡ none
  lookup-delete_same [] k = refl
  lookup-delete_same (x ∷ m) k = elim (Bool-cases (e.beq x.0 k)) [
    | inl hit ↦ rw hit (lookup-delete_same m k)
    | inr miss ↦ rw (miss, miss) (lookup-delete_same m k)
  ]

  pub lookup-delete_other :
      (m : Map K V) (j k : K) → e.beq j k ≡ false → lookup (delete m k) j ≡ lookup m j
  lookup-delete_other [] j k n = refl
  lookup-delete_other (x ∷ m) j k n = elim (Bool-cases (e.beq x.0 k)) [
    | inl hit ↦
        rw (hit, ap (λ y. e.beq y j) (beq→eq x.0 k hit) ∙ beq_sym k j ∙ n)
          (lookup-delete_other m j k n)
    | inr miss ↦
        rw miss (ap (λ l. if e.beq x.0 j then some x.1 else l) (lookup-delete_other m j k n))
  ]

  pub lookup-put_same : (m : Map K V) (k : K) (v : V) → lookup (put m k v) k ≡ some v
  lookup-put_same m k v = rw (beq_refl k) refl

  pub lookup-put_other :
      (m : Map K V) (j k : K) (v : V) → e.beq j k ≡ false → lookup (put m k v) j ≡ lookup m j
  lookup-put_other m j k v n = rw (beq_sym k j ∙ n) (lookup-delete_other m j k n)
