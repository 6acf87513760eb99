-- ===== src/Email/Smtp/Dots.antt =====
-- pkg/services/email/smtp.go, `cmdDATA`: the dots at the start of lines.
use local_web.Base.{
  ◌≡◌, refl, ap, ◌∙◌, inl, inr, false, List, [], ◌∷◌, ◌++◌, map, some, arith, ◌==◌, if◌then◌else◌,
  Bool-cases, Bytes, codes, same, All,
}
use local_web.Email.Text.{trim_eol, has_prefix}
use local_web.Email.Smtp.Data.{read_data, unstuff}

-- What a client does to a line that starts with a dot.
abbrev pub stuff : Bytes → Bytes
stuff line = if has_prefix (codes ".") line then 46 ∷ line else line

-- The text of a message: its lines, each with a newline.
abbrev pub text_of : List Bytes → Bytes
text_of [] = []
text_of (l ∷ lines) = l ++ (13 ∷ 10 ∷ text_of lines)

unstuff-stuff : (line : Bytes) → unstuff (stuff line) ≡ line
unfolding unstuff
unstuff-stuff [] = refl
unstuff-stuff (b ∷ []) = ground arith
unstuff-stuff (b ∷ c ∷ line) = ground arith

-- A stuffed line is never the single dot.
stuff_dot : (line : Bytes) → same (stuff line) (codes ".") ≡ false
stuff_dot [] = refl
stuff_dot (b ∷ []) = ground arith
stuff_dot (b ∷ c ∷ line) = ground arith

stuff-trim : (line : Bytes) → trim_eol line ≡ line → trim_eol (stuff line) ≡ stuff line
stuff-trim [] h = refl
stuff-trim (b ∷ line) h = elim (Bool-cases (46 == b)) [ inl e ↦ rw (e, h) refl | inr e ↦ rw e h ]

-- What a client sends after DATA, line by line with its dots doubled and a single dot behind, is read back
-- as its lines with a newline each, and the lines behind the dot stay for the next command. The lines are
-- any that do not end in a carriage return or a newline.
pub read_data-stuff :
    (lines rest : List Bytes)
    → All (λ l. trim_eol l ≡ l) lines
    → read_data (map stuff lines ++ (codes "." ∷ rest)) ≡ some (text_of lines, rest)
unfolding read_data
read_data-stuff [] rest h = refl
read_data-stuff (l ∷ lines) rest h =
    rw (stuff-trim l h.0, stuff_dot l, read_data-stuff lines rest h.1)
      (ap (λ x. some (x ++ (13 ∷ 10 ∷ text_of lines), rest))
        (ap unstuff (stuff-trim l h.0) ∙ unstuff-stuff l))
