-- ===== src/Base/Strings.antt =====
-- Go's strings and byte slices as lists of bytes: equality, the order of `bytes.Compare`, text.
use Prim.Native.Nat.{ℕ, ◌<◌}
use Prim.Native.Char.{code}
use Prim.Native.String.{String}
use mathlib.Core.Path.{◌≡◌, refl}
use mathlib.Core.Logic.{◌↔◌, ◌⊎◌, inl, inr}
use mathlib.Core.Bool.{Bool, true, false, ◌&&◌, ◌||◌}
use mathlib.Core.List.{List, [], ◌∷◌}
use native.Mathlib.Omega.{arith}
use local_web.Base.Tests.{ltb, ◌==◌, if◌then◌else◌, Bool-cases}
use local_web.Base.Lists.{All, any, keep}

abbrev pub Bytes : Type 0
Bytes = List ℕ

-- Every element is a byte.
abbrev pub IsBytes : Bytes → Type 0
IsBytes = All (λ b. b < 256)

-- The bytes of a text of ASCII characters.
abbrev pub codes : String → Bytes
codes String.[] = []
codes (String.◌∷◌ c s) = code c ∷ codes s

-- Go's `a == b` on strings and on byte arrays.
abbrev pub same : Bytes → Bytes → Bool
same [] [] = true
same [] (b ∷ bs) = false
same (a ∷ as') [] = false
same (a ∷ as') (b ∷ bs) = a == b && same as' bs

pub same→eq : (a b : Bytes) → same a b ≡ true → a ≡ b
same→eq [] [] h = refl
same→eq [] (b ∷ bs) h = cc
same→eq (a ∷ as') [] h = cc
same→eq (a ∷ as') (b ∷ bs) h = ground (arith, same→eq as' bs)

pub same_refl : (a : Bytes) → same a a ≡ true
same_refl [] = refl
same_refl (a ∷ as') = ground (arith, same_refl as')

pub eq→same : (a b : Bytes) → a ≡ b → same a b ≡ true
eq→same a b h = rw h (same_refl b)

pub same_iff : (a b : Bytes) → (same a b ≡ true) ↔ (a ≡ b)
same_iff a b = (same→eq a b, eq→same a b)

-- Go's `a < b` on strings, and `bytes.Compare(a, b) < 0`.
abbrev pub before : Bytes → Bytes → Bool
before [] [] = false
before [] (b ∷ bs) = true
before (a ∷ as') [] = false
before (a ∷ as') (b ∷ bs) = ltb a b || (a == b && before as' bs)

pub before_irrefl : (a : Bytes) → before a a ≡ false
before_irrefl [] = refl
before_irrefl (a ∷ as') = ground (arith, before_irrefl as')

pub before_trans : (a b c : Bytes) → before a b ≡ true → before b c ≡ true → before a c ≡ true
before_trans [] [] c p q = cc
before_trans [] (b ∷ bs) [] p q = cc
before_trans [] (b ∷ bs) (c ∷ cs) p q = refl
before_trans (a ∷ as') [] c p q = cc
before_trans (a ∷ as') (b ∷ bs) [] p q = cc
before_trans (a ∷ as') (b ∷ bs) (c ∷ cs) p q = ground (arith, before_trans as' bs cs)

-- Of two strings, exactly one of three holds.
pub before_total : (a b : Bytes) → (before a b ≡ true) ⊎ ((a ≡ b) ⊎ (before b a ≡ true))
before_total [] [] = inr (inl refl)
before_total [] (b ∷ bs) = inl refl
before_total (a ∷ as') [] = inr (inr refl)
before_total (a ∷ as') (b ∷ bs) = ground (arith, before_total as' bs)

pub before_asymm : (a b : Bytes) → before a b ≡ true → before b a ≡ false
before_asymm [] [] h = refl
before_asymm [] (b ∷ bs) h = refl
before_asymm (a ∷ as') [] h = cc
before_asymm (a ∷ as') (b ∷ bs) h = ground (arith, before_asymm as' bs)

-- A Go set of strings, `map[string]bool` with only `true` stored.
abbrev pub member : Bytes → List Bytes → Bool
member x s = any (same x) s

abbrev pub include : Bytes → List Bytes → List Bytes
include x s = if member x s then s else x ∷ s

abbrev pub include_all : List Bytes → List Bytes → List Bytes
include_all [] s = s
include_all (t ∷ ts) s = include_all ts (include t s)

pub member-include :
    (x t : Bytes) (s : List Bytes) → member x (include t s) ≡ (same x t || member x s)
member-include x t s = ground (arith, same_iff x t)

pub member-include_all :
    (x : Bytes) (ts s : List Bytes) → member x (include_all ts s) ≡ (member x ts || member x s)
member-include_all x [] s = refl
member-include_all x (t ∷ ts) s =
    rw (member-include_all x ts (include t s), member-include x t s) (ground arith)

-- A search succeeds exactly when a member passes the test.
any_found :
    (p : Bytes → Bool) (l : List Bytes)
    → any p l ≡ true
    → (t : Bytes) × (member t l ≡ true) × (p t ≡ true)
any_found p [] h = cc
any_found p (x ∷ l) h = elim (Bool-cases (p x)) [
  | inl e ↦ (x, rw (same_refl x) refl, e)
  | inr e ↦ let (t, m, q) = any_found p l (rw e at h) in (t, ground (arith, m), q)
]

any_holds :
    (p : Bytes → Bool) (l : List Bytes) (t : Bytes)
    → member t l ≡ true
    → p t ≡ true
    → any p l ≡ true
any_holds p [] t m h = cc
any_holds p (x ∷ l) t m h = ground (arith, same_iff t x, any_holds p l t)

pub any_iff :
    (p : Bytes → Bool) (s : List Bytes)
    → (any p s ≡ true) ↔ ((t : Bytes) × (member t s ≡ true) × (p t ≡ true))
any_iff p s = (any_found p s, λ w. any_holds p s w.0 w.1 w.2)

pub member-keep :
    (x : Bytes) (p : Bytes → Bool) (s : List Bytes) → member x (keep p s) ≡ (member x s && p x)
member-keep x p [] = refl
member-keep x p (y ∷ s) = ground (arith, member-keep x p s, same_iff x y)
