-- ===== src/Base/Wire.antt =====
-- `encoding/binary` in big-endian order and the reads of `bytes.Buffer`, as the codecs use them.
use Prim.Native.Nat.{ℕ, zero, suc, ◌+◌, ◌-◌, ◌*◌, ◌/◌, ◌%◌, ◌^◌, ◌<◌, ◌≤◌}
use mathlib.Core.Path.{◌≡◌, refl, ap₂, ◌∙◌}
use mathlib.Core.List.{[], ◌∷◌, ◌++◌, append-nil, append_assoc, List}
use mathlib.Core.Option.{Option, none, some}
use native.Mathlib.Nat.{pow-suc}
use native.Mathlib.Omega.{arith}
use local_web.Base.Tests.{ltb, ◌==◌, if◌then◌else◌}
use local_web.Base.Lists.{
  All, length, take, drop, length-append, take-length_append, drop-length_append, take_all,
  drop_all,
}
use local_web.Base.Strings.{Bytes}

-- PutUint16, PutUint32, PutUint64: the low `w` bytes of `n`, the highest first.
unfoldable pub put_uint : ℕ → ℕ → Bytes
put_uint zero n = []
put_uint (suc w) n = put_uint w (n / 256) ++ (n % 256) ∷ []

-- Uint16, Uint32, Uint64.
unfoldable pub uint : ℕ → Bytes → ℕ
uint acc [] = acc
uint acc (b ∷ bs) = uint (acc * 256 + b) bs

pub length-put_uint : (w n : ℕ) → length (put_uint w n) ≡ w
unfolding put_uint
length-put_uint zero n = refl
length-put_uint (suc w) n =
    omega
      (arith, length-append (put_uint w (n / 256)) ((n % 256) ∷ []), length-put_uint w (n / 256))

uint-append : (acc : ℕ) (xs : Bytes) (b : ℕ) → uint acc (xs ++ b ∷ []) ≡ uint acc xs * 256 + b
unfolding uint
uint-append acc [] b = refl
uint-append acc (x ∷ xs) b = uint-append (acc * 256 + x) xs b

pub uint-put_uint : (w n : ℕ) → n < 256 ^ w → uint 0 (put_uint w n) ≡ n
unfolding put_uint
uint-put_uint zero n h = unfold uint in omega arith
uint-put_uint (suc w) n h =
    rw (uint-append 0 (put_uint w (n / 256)) (n % 256), uint-put_uint w (n / 256) (fits))
      (omega arith)
  where
    fits : n / 256 < 256 ^ w
    fits = omega (arith, pow-suc 256 w)

-- A reader consumes bytes from the front of a buffer, or fails.
abbrev pub Reader {ℓ} : Type ℓ → Type ℓ
Reader A = Bytes → Option (A × Bytes)

infixl 5 ◌>>=◌
abbrev pub ◌>>=◌ {ℓ κ} : {A : Type ℓ} {B : Type κ} → Reader A → (A → Reader B) → Reader B
◌>>=◌ m f buf = elim (m buf) [ none ↦ none | some (a, rest) ↦ f a rest ]

-- A read that succeeds hands its value and the rest of the buffer on.
pub bind_of_some {ℓ κ} :
    {A : Type ℓ} {B : Type κ} (m : Reader A) (f : A → Reader B) {buf rest : Bytes} {a : A}
    → m buf ≡ some (a, rest)
    → (m >>= f) buf ≡ f a rest
bind_of_some m f h = rw (h, ◌>>=◌)

abbrev pub done {ℓ} : {A : Type ℓ} → A → Reader A
done a buf = some (a, buf)

-- `io.ReadFull` of `n` bytes, which `binary.Read` uses: fewer bytes are an error.
unfoldable pub read_full : ℕ → Reader Bytes
read_full n buf = if ltb (length buf) n then none else some (take n buf, drop n buf)

-- `binary.Read` into an unsigned integer of `w` bytes.
unfoldable pub read_uint : ℕ → Reader ℕ
unfolding uint
read_uint w = do bs ← read_full w; done (uint 0 bs)

abbrev pub zeros : ℕ → Bytes
zeros zero = []
zeros (suc n) = 0 ∷ zeros n

-- `buf.Read(p)` with `len(p) == n`: only an empty buffer is an error, and only if `n` is not 0. A
-- shorter buffer is copied, and the rest of `p` keeps the zeros that `make` put there.
unfoldable pub read : ℕ → Reader Bytes
read n [] = if n == 0 then some ([], []) else none
read n (b ∷ bs) = some (take n (b ∷ bs) ++ zeros (n - length (b ∷ bs)), drop n (b ∷ bs))

pub read_full-append : (bs rest : Bytes) → read_full (length bs) (bs ++ rest) ≡ some (bs, rest)
unfolding read_full
read_full-append bs rest =
    ground (arith, length-append bs rest, take-length_append bs rest, drop-length_append bs rest)

read_full_of_length :
    (w : ℕ) (bs rest : Bytes) → length bs ≡ w → read_full w (bs ++ rest) ≡ some (bs, rest)
read_full_of_length w bs rest h = rw (← h) (read_full-append bs rest)

pub read_uint-append :
    (w n : ℕ) (rest : Bytes) → n < 256 ^ w → read_uint w (put_uint w n ++ rest) ≡ some (n, rest)
unfolding read_uint
read_uint-append w n rest h =
    bind_of_some (read_full w) _ (read_full_of_length w (put_uint w n) rest (length-put_uint w n))
    ∙ rw (uint-put_uint w n h)

-- The zero-filled tail of a short read: a truncated payload is not refused.
pub read_short :
    (n b : ℕ) (bs : Bytes)
    → length (b ∷ bs) ≤ n
    → read n (b ∷ bs) ≡ some ((b ∷ bs) ++ zeros (n - length (b ∷ bs)), [])
unfolding read
read_short n b bs h = rw (take_all n (b ∷ bs) h, drop_all n (b ∷ bs) h)

zeros_none : (m : ℕ) → m ≡ 0 → zeros m ≡ []
zeros_none m h = rw h

pub read-append : (bs rest : Bytes) → read (length bs) (bs ++ rest) ≡ some (bs, rest)
unfolding read
read-append [] [] = refl
read-append [] (r ∷ rest) = rw (zeros_none (0 - length (r ∷ rest)) (omega arith))
read-append (b ∷ bs) rest =
    ap₂ (λ x y. some (x, y))
      (ap₂ ◌++◌ (take-length_append (b ∷ bs) rest) (
          zeros_none (length (b ∷ bs) - length ((b ∷ bs) ++ rest))
            (omega (arith, length-append (b ∷ bs) rest)))
        ∙ append-nil (b ∷ bs))
      (drop-length_append (b ∷ bs) rest)

-- A length-prefixed string, with a prefix of two bytes, as the encoders write it.
unfoldable pub put_string : Bytes → Bytes
put_string s = put_uint 2 (length s) ++ s

-- The prefix, and then `buf.Read` into a slice of that length.
unfoldable pub read_string : Reader Bytes
read_string = do n ← read_uint 2; read n

pub read_string-append :
    (s rest : Bytes) → length s < 256 ^ 2 → read_string (put_string s ++ rest) ≡ some (s, rest)
unfolding read_string put_string
read_string-append s rest h = rw (append_assoc (put_uint 2 (length s)) s rest) (
    bind_of_some (read_uint 2) read (read_uint-append 2 (length s) (s ++ rest) h)
    ∙ read-append s rest)

-- A loop that writes every element, and the loop that reads `n` of them.
module _ {ℓ} {A : Type ℓ} where
  unfoldable pub put_all : (A → Bytes) → List A → Bytes
  put_all write [] = []
  put_all write (x ∷ xs) = write x ++ put_all write xs

  unfoldable pub read_many : Reader A → ℕ → Reader (List A)
  read_many one zero = done []
  read_many one (suc n) = do x ← one; xs ← read_many one n; done (x ∷ xs)

  pub read_many-put_all :
      (one : Reader A) (write : A → Bytes) (xs : List A) (rest : Bytes)
      → All (λ x. (after : Bytes) → one (write x ++ after) ≡ some (x, after)) xs
      → read_many one (length xs) (put_all write xs ++ rest) ≡ some (xs, rest)
  unfolding put_all read_many
  read_many-put_all one write [] rest h = refl
  read_many-put_all one write (x ∷ xs) rest h =
      rw (append_assoc (write x) (put_all write xs) rest) (
        bind_of_some one _ (h.0 (put_all write xs ++ rest))
        ∙ bind_of_some (read_many one (length xs)) _ (read_many-put_all one write xs rest h.1))

-- A count of `w` bytes, and that many elements.
module _ {ℓ} {A : Type ℓ} where
  unfoldable pub put_list : ℕ → (A → Bytes) → List A → Bytes
  put_list w write xs = put_uint w (length xs) ++ put_all write xs

  unfoldable pub read_list : ℕ → Reader A → Reader (List A)
  read_list w one = do n ← read_uint w; read_many one n

  pub read_list-append :
      (w : ℕ) (one : Reader A) (write : A → Bytes) (xs : List A) (rest : Bytes)
      → length xs < 256 ^ w
      → All (λ x. (after : Bytes) → one (write x ++ after) ≡ some (x, after)) xs
      → read_list w one (put_list w write xs ++ rest) ≡ some (xs, rest)
  unfolding put_list read_list
  read_list-append w one write xs rest h each =
      rw (append_assoc (put_uint w (length xs)) (put_all write xs) rest) (
        bind_of_some (read_uint w) _ (read_uint-append w (length xs) (put_all write xs ++ rest) h)
        ∙ read_many-put_all one write xs rest each)
