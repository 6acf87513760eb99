-- ===== src/Base/Maps.antt =====
-- Go's maps with string keys as association lists. `put` keeps one entry for a key.
use mathlib.Core.Path.{◌≡◌, refl}
use mathlib.Core.List.{List, [], ◌∷◌}
use mathlib.Core.Option.{Option, none, some}
use native.Mathlib.Omega.{arith}
use mathlib.Core.Logic.{inl, inr}
use local_web.Base.Tests.{if◌then◌else◌, Bool-cases}
use local_web.Base.Strings.{Bytes, same, same→eq, same_iff}

abbrev pub Dict {ℓ} : Type ℓ → Type ℓ
Dict V = List (Bytes × V)

module _ {ℓ} {V : Type ℓ} where
  abbrev pub lookup : Bytes → Dict V → Option V
  lookup k [] = none
  lookup k ((j, v) ∷ m) = if same j k then some v else lookup k m

  -- m[k] = v
  abbrev pub put : Bytes → V → Dict V → Dict V
  put k v [] = (k, v) ∷ []
  put k v ((j, w) ∷ m) = if same j k then (k, v) ∷ m else (j, w) ∷ put k v m

  -- delete(m, k)
  abbrev pub delete : Bytes → Dict V → Dict V
  delete k [] = []
  delete k ((j, w) ∷ m) = let rest = delete k m in if same j k then rest else (j, w) ∷ rest

  pub lookup-put :
      (k j : Bytes) (v : V) (m : Dict V)
      → lookup j (put k v m) ≡ (if same k j then some v else lookup j m)
  lookup-put k j v [] = refl
  lookup-put k j v ((i, w) ∷ m) =
      ground (arith, same_iff k j, same_iff i k, same_iff i j, lookup-put k j v m)

  pub lookup-delete :
      (k j : Bytes) (m : Dict V) → lookup j (delete k m) ≡ (if same k j then none else lookup j m)
  lookup-delete k j [] = ground arith
  lookup-delete k j ((i, w) ∷ m) =
      ground (arith, same_iff k j, same_iff i k, same_iff i j, lookup-delete k j m)

  -- Every key has one entry.
  abbrev pub IsDict : Dict V → Type ℓ
  IsDict [] = Unit
  IsDict ((k, v) ∷ m) = (lookup k m ≡ none) × IsDict m

  pub put-IsDict : (k : Bytes) (v : V) (m : Dict V) → IsDict m → IsDict (put k v m)
  put-IsDict k v [] h = (refl, tt)
  put-IsDict k v ((i, w) ∷ m) h = elim (Bool-cases (same i k)) [
    | inl e ↦ rw e (rw (same→eq i k e) at h.0, h.1)
    | inr e ↦
        rw e (
          ground (arith, lookup-put k i v m, same_iff i k, same_iff k i, h.0),
          put-IsDict k v m h.1,
        )
  ]
