-- ===== src/Prelude/Equality.antt =====
-- Equality tests as an interface, and membership by them.
use Prim.Native.Nat.{ℕ}
use mathlib.Core.Path.{◌≡◌, refl, ap₂, subst}
use mathlib.Core.Bool.{Bool, true, false, ◌&&◌, ◌||◌}
use mathlib.Core.Logic.{◌↔◌}
use mathlib.Core.List.{List, [], ◌∷◌, ◌++◌}
use native.Mathlib.Omega.{arith}
use go_libp2p_hybrid_kad_dht.Prelude.Tests.{◌==◌, ==_iff, false-ne-true, and-left, and-right}
use go_libp2p_hybrid_kad_dht.Prelude.Lists.{any, any-append}

pub record Eq {ℓ} (A : Type ℓ) : Type ℓ where
  pub beq : A → A → Bool
  pub beq_iff : (a b : A) → (beq a b ≡ true) ↔ (a ≡ b)

instance abbrev pub nat_eq : Eq ℕ
nat_eq = record { beq = λ a b. a == b; beq_iff = ==_iff }

module _ {ℓ} {A : Type ℓ} ⦃e : Eq A⦄ where
  abbrev pub mem : A → List A → Bool
  mem a = any (e.beq a)

  pub beq_refl : (a : A) → e.beq a a ≡ true
  beq_refl a = (e.beq_iff a a).1 refl

  pub beq→eq : (a b : A) → e.beq a b ≡ true → a ≡ b
  beq→eq a b = (e.beq_iff a b).0

  pub mem-append : (a : A) (xs ys : List A) → mem a (xs ++ ys) ≡ mem a xs || mem a ys
  mem-append a = any-append (e.beq a)

  pub beq_sym : (a b : A) → e.beq a b ≡ e.beq b a
  beq_sym a b = ground (arith, e.beq_iff a b, e.beq_iff b a)

  -- No element is in the list twice.
  abbrev pub Distinct : List A → Type 0
  Distinct [] = Unit {0}
  Distinct (a ∷ xs) = (mem a xs ≡ false) × Distinct xs

abbrev bool_beq : Bool → Bool → Bool
bool_beq true b = b
bool_beq false true = false
bool_beq false false = true

pub bool_beq_iff : (a b : Bool) → (bool_beq a b ≡ true) ↔ (a ≡ b)
bool_beq_iff a b = ground arith

instance abbrev pub bool_eq : Eq Bool
bool_eq = record { beq = bool_beq; beq_iff = bool_beq_iff }

module _ {ℓ} {A : Type ℓ} ⦃e : Eq A⦄ where
  abbrev list_beq : List A → List A → Bool
  list_beq [] [] = true
  list_beq [] (b ∷ ys) = false
  list_beq (a ∷ xs) [] = false
  list_beq (a ∷ xs) (b ∷ ys) = e.beq a b && list_beq xs ys

  pub list_beq_refl : (xs : List A) → list_beq xs xs ≡ true
  list_beq_refl [] = refl
  list_beq_refl (a ∷ xs) = ground (arith, beq_refl a, list_beq_refl xs)

  pub list_beq→eq : (xs ys : List A) → list_beq xs ys ≡ true → xs ≡ ys
  list_beq→eq [] [] h = refl
  list_beq→eq [] (b ∷ ys) h = absurd (false-ne-true h)
  list_beq→eq (a ∷ xs) [] h = absurd (false-ne-true h)
  list_beq→eq (a ∷ xs) (b ∷ ys) h =
      ap₂ ◌∷◌ (beq→eq a b (and-left (e.beq a b) _ h))
        (list_beq→eq xs ys (and-right (e.beq a b) _ h))

  instance abbrev pub list_eq : Eq (List A)
  list_eq = record {
    beq = list_beq;
    beq_iff =
        λ xs ys. (list_beq→eq xs ys, λ h. subst (λ zs. list_beq xs zs ≡ true) h (list_beq_refl xs));
  }
