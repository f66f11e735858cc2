-- ===== src/Base/Lists.antt =====
-- Lists measured and indexed by native numbers, under the library's names.
use Prim.Native.Nat.{ℕ, zero, suc, ◌+◌, ◌-◌, ◌<◌}
use mathlib.Core.Path.{◌≡◌, refl, ap}
use mathlib.Core.Logic.{◌≢◌}
use mathlib.Core.List.{List, [], ◌∷◌, ◌++◌}
use mathlib.Core.Option.{Option, none, some}
use native.Mathlib.Omega.{arith}

module _ {ℓ} {A : Type ℓ} where
  abbrev pub length : List A → ℕ
  length [] = 0
  length (x ∷ xs) = suc (length xs)

  abbrev pub get_elem? : List A → ℕ → Option A
  get_elem? [] i = none
  get_elem? (x ∷ xs) zero = some x
  get_elem? (x ∷ xs) (suc i) = get_elem? xs i

  -- A write out of bounds changes nothing.
  abbrev pub set : List A → ℕ → A → List A
  set [] i v = []
  set (x ∷ xs) zero v = v ∷ xs
  set (x ∷ xs) (suc i) v = x ∷ set xs i v

  abbrev pub take : ℕ → List A → List A
  take zero xs = []
  take (suc n) [] = []
  take (suc n) (x ∷ xs) = x ∷ take n xs

  abbrev pub drop : ℕ → List A → List A
  drop zero xs = xs
  drop (suc n) [] = []
  drop (suc n) (x ∷ xs) = drop n xs

  -- A predicate of every element.
  abbrev pub All {κ} : (A → Type κ) → List A → Type κ
  All P [] = Unit
  All P (x ∷ xs) = P x × All P xs

  pub length-append : (xs ys : List A) → length (xs ++ ys) ≡ length xs + length ys
  length-append [] ys = omega arith
  length-append (x ∷ xs) ys = omega (arith, length-append xs ys)

  pub length-set : (xs : List A) (i : ℕ) (v : A) → length (set xs i v) ≡ length xs
  length-set [] i v = refl
  length-set (x ∷ xs) zero v = refl
  length-set (x ∷ xs) (suc i) v = ap suc (length-set xs i v)

  pub All-append {κ} : (P : A → Type κ) (xs ys : List A) → All P xs → All P ys → All P (xs ++ ys)
  All-append P [] ys hx hy = hy
  All-append P (x ∷ xs) ys hx hy = (hx.0, All-append P xs ys hx.1 hy)

  pub length-drop : (n : ℕ) (xs : List A) → length (drop n xs) ≡ length xs - n
  length-drop zero xs = omega arith
  length-drop (suc n) [] = omega arith
  length-drop (suc n) (x ∷ xs) = omega (arith, length-drop n xs)

  pub get_elem?-set_self :
      (q : List A) (i : ℕ) (x : A) → i < length q → get_elem? (set q i x) i ≡ some x
  get_elem?-set_self [] i x h = absurd (omega arith)
  get_elem?-set_self (y ∷ q) zero x h = refl
  get_elem?-set_self (y ∷ q) (suc i) x h = get_elem?-set_self q i x (omega arith)

  pub get_elem?-set_ne :
      (q : List A) (i j : ℕ) (x : A) → i ≢ j → get_elem? (set q i x) j ≡ get_elem? q j
  get_elem?-set_ne [] i j x h = refl
  get_elem?-set_ne (y ∷ q) zero zero x h = absurd (h refl)
  get_elem?-set_ne (y ∷ q) zero (suc j) x h = refl
  get_elem?-set_ne (y ∷ q) (suc i) zero x h = refl
  get_elem?-set_ne (y ∷ q) (suc i) (suc j) x h = get_elem?-set_ne q i j x (λ e. h (ap suc e))

  pub get_elem?_in : (q : List A) (i : ℕ) → i < length q → (x : A) × (get_elem? q i ≡ some x)
  get_elem?_in [] i h = absurd (omega arith)
  get_elem?_in (y ∷ q) zero h = (y, refl)
  get_elem?_in (y ∷ q) (suc i) h = get_elem?_in q i (omega arith)

  pub take-set_self :
      (q : List A) (i : ℕ) (x : A) → i < length q → take (suc i) (set q i x) ≡ take i q ++ (x ∷ [])
  take-set_self [] i x h = absurd (omega arith)
  take-set_self (y ∷ q) zero x h = refl
  take-set_self (y ∷ q) (suc i) x h = ap (◌∷◌ y) (take-set_self q i x (omega arith))
