-- ===== src/Docs/Runes.antt =====
-- The characters of a Go string, as `for _, ch := range s` and `string(ch)` give them: each UTF-8 sequence
-- on its own, and U+FFFD for each byte that starts none.
use local_web.Base.{
  ℕ, zero, suc, ◌<◌, ◌≡◌, refl, Bool, true, false, ◌&&◌, List, [], ◌∷◌, ◌++◌, Option, none, some,
  arith, leb, ◌==◌, if◌then◌else◌, Bytes, length, take, All, all,
}

abbrev between : ℕ → ℕ → ℕ → Bool
between a b x = leb a x && leb x b

abbrev is_tail : ℕ → Bool
is_tail = between 128 191

-- The range of the second byte, which rules out overlong forms, surrogates and what is past U+10FFFF.
unfoldable pub second_of : ℕ → ℕ → Bool
second_of b =
    if b == 224
    then between 160 191
    else if b == 237
    then between 128 159
    else if b == 240
    then between 144 191
    else if b == 244
    then between 128 143
    else is_tail

-- The bytes that follow a first byte; `none` where it starts no sequence.
unfoldable pub tail_length : ℕ → Option ℕ
tail_length b =
    if leb b 127
    then some 0
    else if between 194 223 b
    then some 1
    else if between 224 239 b
    then some 2
    else if between 240 244 b
    then some 3
    else none

-- The bytes of the sequence past the first one, 0 where it is not whole.
unfoldable pub rune_tail : Bytes → ℕ → ℕ → Bool
unfolding second_of
rune_tail s b zero = true
rune_tail s b (suc n) = elim s [
  | [] ↦ false
  | c ∷ cs ↦ second_of b c && (length (take n cs) == n && all is_tail (take n cs))
]

abbrev pub rune_error : Bytes
rune_error = 239 ∷ 191 ∷ 189 ∷ []

-- The first `skip` bytes belong to a sequence that has been taken.
unfoldable pub runes_from : ℕ → Bytes → List Bytes
unfolding tail_length rune_tail
runes_from skip [] = []
runes_from (suc skip) (b ∷ s) = runes_from skip s
runes_from zero (b ∷ s) = elim (tail_length b) [
  | none ↦ rune_error ∷ runes_from 0 s
  | some n ↦ elim (rune_tail s b n) [
    | true ↦ (b ∷ take n s) ∷ runes_from n s
    | false ↦ rune_error ∷ runes_from 0 s
  ]
]

unfoldable pub runes : Bytes → List Bytes
unfolding runes_from
runes s = runes_from 0 s

abbrev pub concat : List Bytes → Bytes
concat [] = []
concat (c ∷ cs) = c ++ concat cs

concat-runes_from : (s : Bytes) → All (λ b. b < 128) s → concat (runes_from 0 s) ≡ s
unfolding runes_from tail_length rune_tail
concat-runes_from [] h = refl
concat-runes_from (b ∷ s) h = ground (arith, concat-runes_from s h.1)

-- The characters of an ASCII text make up the text.
pub concat-runes : (s : Bytes) → All (λ b. b < 128) s → concat (runes s) ≡ s
unfolding runes
concat-runes = concat-runes_from
