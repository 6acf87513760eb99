-- ===== src/Base/Positions.antt =====
-- What stands at a position of a list.
use Prim.Native.Nat.{ℕ, zero, suc, ◌<◌}
use mathlib.Core.Path.{◌≡◌, refl}
use mathlib.Core.List.{List, [], ◌∷◌, ◌++◌}
use mathlib.Core.Option.{some}
use native.Mathlib.Omega.{arith}
use local_web.Base.Tests.{◌==◌, if◌then◌else◌}
use local_web.Base.Lists.{length, get_elem?, set}

module _ {ℓ} {A : Type ℓ} where
  pub get_elem?_below : (i : ℕ) (xs : List A) → i < length xs → (x : A) × (get_elem? xs i ≡ some x)
  get_elem?_below i [] h = absurd (omega arith)
  get_elem?_below zero (x ∷ xs) h = (x, refl)
  get_elem?_below (suc i) (x ∷ xs) h = get_elem?_below i xs (omega arith)

  pub lt-get_elem? : (i : ℕ) (xs : List A) {x : A} → get_elem? xs i ≡ some x → i < length xs
  lt-get_elem? i [] h = absurd (cc h)
  lt-get_elem? zero (x ∷ xs) h = omega arith
  lt-get_elem? (suc i) (x ∷ xs) h = omega (arith, lt-get_elem? i xs h)

  pub get_elem?-set :
      (i j : ℕ) (v : A) (xs : List A)
      → i < length xs
      → get_elem? (set xs i v) j ≡ (if i == j then some v else get_elem? xs j)
  get_elem?-set i j v [] h = absurd (omega arith)
  get_elem?-set zero zero v (x ∷ xs) h = ground arith
  get_elem?-set zero (suc j) v (x ∷ xs) h = ground arith
  get_elem?-set (suc i) zero v (x ∷ xs) h = ground arith
  get_elem?-set (suc i) (suc j) v (x ∷ xs) h = ground (arith, get_elem?-set i j v xs (omega arith))

  pub get_elem?_last : (xs : List A) (x : A) → get_elem? (xs ++ (x ∷ [])) (length xs) ≡ some x
  get_elem?_last [] x = refl
  get_elem?_last (y ∷ xs) x = get_elem?_last xs x

  -- What stands in a list after one more element has been put behind it.
  pub get_elem?-snoc :
      (i : ℕ) (xs : List A) (x : A)
      → get_elem? (xs ++ (x ∷ [])) i ≡ (if i == length xs then some x else get_elem? xs i)
  get_elem?-snoc zero [] x = ground arith
  get_elem?-snoc (suc i) [] x = ground arith
  get_elem?-snoc zero (y ∷ xs) x = ground arith
  get_elem?-snoc (suc i) (y ∷ xs) x = ground (arith, get_elem?-snoc i xs x)
