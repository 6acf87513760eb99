-- ===== src/Email/Text.antt =====
-- The functions of Go's `strings` that pkg/services/email calls. What they do beyond ASCII is a parameter.
use local_web.Base.{
  ℕ, ◌+◌, ◌-◌, Bool, true, false, not, ◌&&◌, ◌||◌, [], ◌∷◌, map, Option, none, some, leb, ◌==◌,
  if◌then◌else◌, Bytes, any,
}

pub record Unicode : Type 0 where
  pub upper : Bytes → Bytes
  pub lower : Bytes → Bytes
  pub trim : Bytes → Bytes

abbrev pub is_ascii : Bytes → Bool
is_ascii s = not (any (λ b. leb 128 b) s)

abbrev upper_byte : ℕ → ℕ
upper_byte b = if leb 97 b && leb b 122 then b - 32 else b

abbrev lower_byte : ℕ → ℕ
lower_byte b = if leb 65 b && leb b 90 then b + 32 else b

abbrev pub to_upper : Unicode → Bytes → Bytes
to_upper u s = if is_ascii s then map upper_byte s else u.upper s

abbrev pub to_lower : Unicode → Bytes → Bytes
to_lower u s = if is_ascii s then map lower_byte s else u.lower s

-- A string less the bytes of a set at its start, and less those at its end.
abbrev pub trim_left : (ℕ → Bool) → Bytes → Bytes
trim_left p [] = []
trim_left p (b ∷ s) = elim (p b) [ true ↦ trim_left p s | false ↦ b ∷ s ]

abbrev pub trim_right : (ℕ → Bool) → Bytes → Bytes
trim_right p [] = []
trim_right p (b ∷ s) =
    let rest = trim_right p s in elim rest [ [] ↦ if p b then [] else b ∷ [] | c ∷ cs ↦ b ∷ c ∷ cs ]

abbrev is_space : ℕ → Bool
is_space b = b == 32 || (leb 9 b && leb b 13)

abbrev pub trim_space : Unicode → Bytes → Bytes
trim_space u s = if is_ascii s then trim_right is_space (trim_left is_space s) else u.trim s

abbrev is_angle : ℕ → Bool
is_angle b = b == 60 || b == 62

abbrev pub trim_angles : Bytes → Bytes
trim_angles s = trim_right is_angle (trim_left is_angle s)

abbrev pub is_eol : ℕ → Bool
is_eol b = b == 13 || b == 10

abbrev pub trim_eol : Bytes → Bytes
trim_eol s = trim_right is_eol s

-- `SplitN(s, sep, 2)`: what stands before the first separator, and what stands behind it if there is one.
abbrev pub split2 : ℕ → Bytes → Bytes × Option Bytes
split2 sep [] = ([], none)
split2 sep (b ∷ s) =
    let (head, tail) = split2 sep s in if b == sep then ([], some s) else (b ∷ head, tail)

abbrev pub has_prefix : Bytes → Bytes → Bool
has_prefix [] s = true
has_prefix (a ∷ p) [] = false
has_prefix (a ∷ p) (b ∷ s) = a == b && has_prefix p s

abbrev pub contains_text : Bytes → Bytes → Bool
contains_text p [] = has_prefix p []
contains_text p (b ∷ s) = has_prefix p (b ∷ s) || contains_text p s
