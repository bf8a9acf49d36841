-- ===== src/Prelude/Lists.antt =====
-- Lists measured and indexed by native numbers, under the library's names, and Boolean folds.
use Prim.Native.Nat.{ℕ, zero, suc, ◌+◌, ◌-◌, ◌≤◌, min}
use mathlib.Core.Path.{◌≡◌, refl, ap}
use mathlib.Core.Bool.{Bool, true, false, ◌&&◌, ◌||◌, not}
use mathlib.Core.List.{List, [], ◌∷◌, ◌++◌, map}
use mathlib.Core.Option.{Option, none, some}
use native.Mathlib.Omega.{arith}
use go_libp2p_hybrid_kad_dht.Prelude.Tests.{if◌then◌else◌}

module _ {ℓ} {A : Type ℓ} where
  abbrev pub length : List A → ℕ
  length [] = 0
  length (x ∷ xs) = suc (length xs)

  abbrev pub get_elem? : List A → ℕ → Option A
  get_elem? [] i = none
  get_elem? (x ∷ xs) zero = some x
  get_elem? (x ∷ xs) (suc i) = get_elem? xs i

  abbrev pub take : ℕ → List A → List A
  take zero xs = []
  take (suc n) [] = []
  take (suc n) (x ∷ xs) = x ∷ take n xs

  abbrev pub drop : ℕ → List A → List A
  drop zero xs = xs
  drop (suc n) [] = []
  drop (suc n) (x ∷ xs) = drop n xs

  abbrev pub replicate : ℕ → A → List A
  replicate zero a = []
  replicate (suc n) a = a ∷ replicate n a

  abbrev pub any : (A → Bool) → List A → Bool
  any p [] = false
  any p (x ∷ xs) = p x || any p xs

  abbrev pub all : (A → Bool) → List A → Bool
  all p [] = true
  all p (x ∷ xs) = p x && all p xs

  -- The elements that pass a Boolean test, in order.
  abbrev pub select : (A → Bool) → List A → List A
  select p [] = []
  select p (x ∷ xs) = if p x then x ∷ select p xs else select p xs

  pub length-append : (xs ys : List A) → length (xs ++ ys) ≡ length xs + length ys
  length-append [] ys = omega arith
  length-append (x ∷ xs) ys = omega (arith, length-append xs ys)

  pub length-take : (n : ℕ) (xs : List A) → length (take n xs) ≡ min n (length xs)
  length-take zero xs = omega arith
  length-take (suc n) [] = omega arith
  length-take (suc n) (x ∷ xs) = omega (arith, length-take n xs)

  pub length-drop : (n : ℕ) (xs : List A) → length (drop n xs) ≡ length xs - n
  length-drop zero xs = omega arith
  length-drop (suc n) [] = omega arith
  length-drop (suc n) (x ∷ xs) = omega (arith, length-drop n xs)

  pub take-append-drop : (n : ℕ) (xs : List A) → take n xs ++ drop n xs ≡ xs
  take-append-drop zero xs = refl
  take-append-drop (suc n) [] = refl
  take-append-drop (suc n) (x ∷ xs) = ap (◌∷◌ x) (take-append-drop n xs)

  pub take-length_append : (xs ys : List A) → take (length xs) (xs ++ ys) ≡ xs
  take-length_append [] ys = refl
  take-length_append (x ∷ xs) ys = ap (◌∷◌ x) (take-length_append xs ys)

  pub drop-length_append : (xs ys : List A) → drop (length xs) (xs ++ ys) ≡ ys
  drop-length_append [] ys = refl
  drop-length_append (x ∷ xs) ys = drop-length_append xs ys

  pub select-append :
      (p : A → Bool) (xs ys : List A) → select p (xs ++ ys) ≡ select p xs ++ select p ys
  select-append p [] ys = refl
  select-append p (x ∷ xs) ys = ground (arith, select-append p xs ys)

  -- Nothing is dropped where all pass, and all is dropped where none does.
  pub select-all : (p : A → Bool) (xs : List A) → all p xs ≡ true → select p xs ≡ xs
  select-all p [] h = refl
  select-all p (x ∷ xs) h = ground (arith, select-all p xs)

  pub select_none : (p : A → Bool) (xs : List A) → any p xs ≡ false → select p xs ≡ []
  select_none p [] h = refl
  select_none p (x ∷ xs) h = ground (arith, select_none p xs)

  pub any-append : (p : A → Bool) (xs ys : List A) → any p (xs ++ ys) ≡ any p xs || any p ys
  any-append p [] ys = refl
  any-append p (x ∷ xs) ys = ground (arith, any-append p xs ys)

  pub all-append : (p : A → Bool) (xs ys : List A) → all p (xs ++ ys) ≡ all p xs && all p ys
  all-append p [] ys = refl
  all-append p (x ∷ xs) ys = ground (arith, all-append p xs ys)

  pub select-nil_iff : (p : A → Bool) (xs : List A) → select p xs ≡ [] → any p xs ≡ false
  select-nil_iff p [] h = refl
  select-nil_iff p (x ∷ xs) h = ground (arith, select-nil_iff p xs)

  pub length-select-le : (p : A → Bool) (xs : List A) → length (select p xs) ≤ length xs
  length-select-le p [] = omega arith
  length-select-le p (x ∷ xs) = ground (arith, length-select-le p xs)

  pub all-select : (p q : A → Bool) (xs : List A) → all q xs ≡ true → all q (select p xs) ≡ true
  all-select p q [] h = refl
  all-select p q (x ∷ xs) h = ground (arith, all-select p q xs)

  pub select_pass : (p : A → Bool) (xs : List A) → all p (select p xs) ≡ true
  select_pass p [] = refl
  select_pass p (x ∷ xs) = ground (arith, select_pass p xs)

  pub any-not : (p : A → Bool) (xs : List A) → any (λ x. not (p x)) xs ≡ not (all p xs)
  any-not p [] = refl
  any-not p (x ∷ xs) = ground (arith, any-not p xs)

-- Where one part of a list has no hit, the other part decides.
module _ {ℓ} {A : Type ℓ} (p : A → Bool) where
  pub any-append_left : (xs ys : List A) → any p xs ≡ false → any p (xs ++ ys) ≡ any p ys
  any-append_left [] ys h = refl
  any-append_left (x ∷ xs) ys h = ground (arith, any-append_left xs ys)

  pub any-append_right : (xs ys : List A) → any p ys ≡ false → any p (xs ++ ys) ≡ any p xs
  any-append_right [] ys h = h
  any-append_right (x ∷ xs) ys h = ground (arith, any-append_right xs ys)

  pub select-append_left : (xs ys : List A) → any p xs ≡ false → select p (xs ++ ys) ≡ select p ys
  select-append_left [] ys h = refl
  select-append_left (x ∷ xs) ys h = ground (arith, select-append_left xs ys)

  pub select-append_right : (xs ys : List A) → any p ys ≡ false → select p (xs ++ ys) ≡ select p xs
  select-append_right [] ys h = select_none p ys h
  select-append_right (x ∷ xs) ys h = ground (arith, select-append_right xs ys)

module _ {ℓ} {A : Type ℓ} (q r : A → Bool) where
  pub any_of_all :
      ((x : A) → q x ≡ true → r x ≡ false) → (xs : List A) → all q xs ≡ true → any r xs ≡ false
  any_of_all f [] h = refl
  any_of_all f (x ∷ xs) h = ground (arith, f x, any_of_all f xs)

  pub all_of_all :
      ((x : A) → q x ≡ true → r x ≡ true) → (xs : List A) → all q xs ≡ true → all r xs ≡ true
  all_of_all f [] h = refl
  all_of_all f (x ∷ xs) h = ground (arith, f x, all_of_all f xs)

module _ {ℓ} {A : Type ℓ} (rel : A → A → Bool) where
  -- Each element is related to all that follow it.
  abbrev pub Ordered : List A → Type 0
  Ordered [] = Unit {0}
  Ordered (x ∷ xs) = (all (rel x) xs ≡ true) × Ordered xs

  pub Ordered-append :
      (xs ys : List A)
      → Ordered xs
      → Ordered ys
      → all (λ x. all (rel x) ys) xs ≡ true
      → Ordered (xs ++ ys)
  Ordered-append [] ys h k a = k
  Ordered-append (x ∷ xs) ys h k a =
      (ground (arith, all-append (rel x) xs ys), Ordered-append xs ys h.1 k (ground arith))

  pub Ordered-select : (p : A → Bool) (xs : List A) → Ordered xs → Ordered (select p xs)
  Ordered-select p [] h = tt
  Ordered-select p (x ∷ xs) h = ground (arith, all-select p (rel x) xs, Ordered-select p xs)

module _ {ℓ κ} {A : Type ℓ} {B : Type κ} (f : A → B) where
  pub length-map : (xs : List A) → length (map f xs) ≡ length xs
  length-map [] = refl
  length-map (x ∷ xs) = ap suc (length-map xs)

  pub any-map : (p : B → Bool) (xs : List A) → any p (map f xs) ≡ any (λ x. p (f x)) xs
  any-map p [] = refl
  any-map p (x ∷ xs) = ground (arith, any-map p xs)

  pub all-map : (p : B → Bool) (xs : List A) → all p (map f xs) ≡ all (λ x. p (f x)) xs
  all-map p [] = refl
  all-map p (x ∷ xs) = ground (arith, all-map p xs)

  pub select-map :
      (p : B → Bool) (xs : List A) → select p (map f xs) ≡ map f (select (λ x. p (f x)) xs)
  select-map p [] = refl
  select-map p (x ∷ xs) = ground (arith, select-map p xs)
