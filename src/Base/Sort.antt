-- ===== src/Base/Sort.antt =====
-- `sort.SliceStable` and `sort.Strings`: a stable sort by a strict order given as a test.
use Prim.Native.Nat.{ℕ, zero, suc}
use mathlib.Core.Path.{◌≡◌, refl}
use mathlib.Core.Logic.{inl, inr}
use mathlib.Core.List.Permᴰ
use mathlib.Core.Bool.{Bool, true, false}
use mathlib.Core.List.{List, [], ◌∷◌, Permᴰ}
use native.Mathlib.Omega.{arith}
use local_web.Base.Tests.{if◌then◌else◌, Bool-cases}
use local_web.Base.Strings.{Bytes, before, before_total, before_trans, before_asymm}
use local_web.Base.Lists.{All, All-perm, take, drop, All-drop, All-and, All-of}

-- What the sort asks of the test: no element is less than one that is not above it.
pub record IsStrictOrder {ℓ} {A : Type ℓ} (less : A → A → Bool) : Type ℓ where
  pub asymm : (a b : A) → less a b ≡ true → less b a ≡ false
  pub neg_trans : (a b c : A) → less b a ≡ false → less c b ≡ false → less c a ≡ false

module _ {ℓ} {A : Type ℓ} (less : A → A → Bool) where
  abbrev pub insert_sorted : A → List A → List A
  insert_sorted x [] = x ∷ []
  insert_sorted x (y ∷ ys) =
      let rest = insert_sorted x ys in if less y x then y ∷ rest else x ∷ y ∷ ys

  unfoldable pub sort : List A → List A
  sort [] = []
  sort (x ∷ xs) = insert_sorted x (sort xs)

  -- Nothing that stands later is less.
  abbrev pub IsSorted : List A → Type 0
  IsSorted [] = Unit
  IsSorted (x ∷ xs) = All (λ y. less y x ≡ false) xs × IsSorted xs

  insert_sorted-perm : (x : A) (ys : List A) → Permᴰ (insert_sorted x ys) (x ∷ ys)
  insert_sorted-perm x [] = Permᴰ.refl (x ∷ [])
  insert_sorted-perm x (y ∷ ys) = elim (Bool-cases (less y x)) [
    | inl e ↦ rw e (Permᴰ.trans (Permᴰ.cons refl (insert_sorted-perm x ys)) (Permᴰ.swap refl refl))
    | inr e ↦ rw e (Permᴰ.refl (x ∷ y ∷ ys))
  ]

  pub sort-perm : (xs : List A) → Permᴰ (sort xs) xs
  unfolding sort
  sort-perm [] = Permᴰ.nil
  sort-perm (x ∷ xs) = Permᴰ.trans (insert_sorted-perm x (sort xs)) (Permᴰ.cons refl (sort-perm xs))

  module _ (o : IsStrictOrder less) where
    All-above :
        (x y : A) (ys : List A)
        → less y x ≡ false
        → All (λ z. less z y ≡ false) ys
        → All (λ z. less z x ≡ false) ys
    All-above x y [] h k = tt
    All-above x y (z ∷ ys) h k = (o.neg_trans x y z h k.0, All-above x y ys h k.1)

    insert_sorted-IsSorted : (x : A) (ys : List A) → IsSorted ys → IsSorted (insert_sorted x ys)
    insert_sorted-IsSorted x [] h = (tt, tt)
    insert_sorted-IsSorted x (y ∷ ys) h = elim (Bool-cases (less y x)) [
      | inl e ↦ rw e (
        All-perm (λ z. less z y ≡ false) (Permᴰ.symm (insert_sorted-perm x ys))
            (o.asymm y x e, h.0),
        insert_sorted-IsSorted x ys h.1,
      )
      | inr e ↦ rw e ((e, All-above x y ys e h.0), h)
    ]

    pub sort-IsSorted : (xs : List A) → IsSorted (sort xs)
    unfolding sort
    sort-IsSorted [] = tt
    sort-IsSorted (x ∷ xs) = insert_sorted-IsSorted x (sort xs) (sort-IsSorted xs)

  -- Whoever is cut off from a sorted list is not less than anyone who stays.
  pub cut-IsSorted :
      (n : ℕ) (xs : List A)
      → IsSorted xs
      → All (λ d. All (λ r. less d r ≡ false) (take n xs)) (drop n xs)
  cut-IsSorted zero xs h = All-of _ (λ d. tt) xs
  cut-IsSorted (suc n) [] h = tt
  cut-IsSorted (suc n) (x ∷ xs) h =
      All-and (λ d. less d x ≡ false) (λ d. All (λ r. less d r ≡ false) (take n xs)) (drop n xs)
        (All-drop (λ y. less y x ≡ false) n xs h.0) (cut-IsSorted n xs h.1)

-- The order of strings, and so the order of byte arrays by any key that is one.
before_neg_trans : (a b c : Bytes) → before b a ≡ false → before c b ≡ false → before c a ≡ false
before_neg_trans a b c p q =
    ground (arith, before_total b a, before_total c b, before_trans a b c, before_asymm a c)

pub before_order : IsStrictOrder before
before_order = record { asymm = before_asymm; neg_trans = before_neg_trans }

pub before_by_order {ℓ} :
    {A : Type ℓ} (key : A → Bytes) → IsStrictOrder (λ a b. before (key a) (key b))
before_by_order key = record {
  asymm = λ a b. before_asymm (key a) (key b);
  neg_trans = λ a b c. before_neg_trans (key a) (key b) (key c);
}
