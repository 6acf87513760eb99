-- ===== src/Email/Antispam.antt =====
-- pkg/services/email/antispam.go: the proof of work of a message, the spam headers and the rate limit.
-- SHA3-256, the scan of a decimal number and Unicode are parameters; a time is a number of nanoseconds.
pub mod Rate
pub mod Work
use local_web.Base.{
  ℕ, zero, suc, ◌+◌, ◌-◌, ◌*◌, ◌/◌, ◌%◌, ◌^◌, ◌≤◌, ◌<◌, ◌≡◌, ◌≢◌, refl, sym, ap, ◌∙◌, ◌↔◌, ◌⊎◌, inl,
  inr, Bool, true, false, not, ◌&&◌, ◌||◌, List, [], ◌∷◌, ◌++◌, map, Option, none, some, some_inj,
  arith, ltb, leb, ◌==◌, ==_iff, if◌then◌else◌, Bool-cases, Bool-ext, Option-cases, Bytes, codes,
  same, same_iff, same_refl, member, length, length-append, take, drop, All, any, keep,
  length-keep-le, Dict, lookup, put, delete, lookup-put, lookup-delete, check_range, test_in_range,
}
use local_web.Base.Format.{decimal, encode_hex}
use local_web.Security.Pow.{leading_zero_bits}
use local_web.Email.Text.{Unicode, to_lower, contains_text}

pub record PowChecker : Type 0 where
  pub difficulty : ℕ
  pub nonces : Dict ℕ

abbrev pub new_pow_checker : ℕ → PowChecker
new_pow_checker difficulty = record { difficulty = difficulty; nonces = [] }

abbrev pub nonce_window : ℕ
nonce_window = 300000000000

-- The nonce has been used in the last five minutes.
abbrev pub is_used : ℕ → Bytes → PowChecker → Bool
is_used now nonce p = elim (lookup nonce p.nonces) [
  | none ↦ false
  | some t ↦ ltb (now - t) nonce_window
]

unfoldable pub verify_pow : (Bytes → Bytes) → ℕ → Bytes → Bytes → PowChecker → PowChecker × Bool
verify_pow sha3 now email nonce p =
    if is_used now nonce p
    then (p, false)
    else if leb p.difficulty (leading_zero_bits (sha3 (email ++ nonce)))
    then (record p { nonces = put nonce now (delete nonce p.nonces) }, true)
    else (record p { nonces = delete nonce p.nonces }, false)

-- The candidate of a counter: the random bytes in hexadecimal, a dash, the number.
abbrev pub candidate : Bytes → ℕ → Bytes
candidate nonce i = encode_hex nonce ++ (45 ∷ decimal i)

-- The loop has no bound of its own but the counter's: `none` is out of fuel.
unfoldable pub generate_from : (Bytes → Bytes) → ℕ → ℕ → Bytes → Bytes → PowChecker → Option Bytes
generate_from sha3 zero i nonce email p = none
generate_from sha3 (suc fuel) i nonce email p =
    elim (leb p.difficulty (leading_zero_bits (sha3 (email ++ candidate nonce i)))) [
      | true ↦ some (candidate nonce i)
      | false ↦ generate_from sha3 fuel (i + 1) nonce email p
    ]

-- `GeneratePoW`, with `none` also for a random source that fails.
unfoldable pub generate_pow : (Bytes → Bytes) → Option Bytes → Bytes → PowChecker → Option Bytes
unfolding generate_from
generate_pow sha3 random email p = elim random [
  | none ↦ none
  | some nonce ↦ generate_from sha3 (2 ^ 64) 0 nonce email p
]

abbrev pub cleanup : ℕ → PowChecker → PowChecker
cleanup now p = record p {
  nonces = keep (λ (e : Bytes × ℕ). not (ltb nonce_window (now - e.1))) p.nonces;
}

abbrev pub set_difficulty : ℕ → PowChecker → PowChecker
set_difficulty d p = record p { difficulty = d }

abbrev says_yes : Unicode → Bytes → Dict Bytes → Bool
says_yes u name headers = elim (lookup name headers) [
  | none ↦ false
  | some v ↦ contains_text (codes "yes") (to_lower u v)
]

-- `IsSpam`, with `above_five` for a score that scans as a number above 5.
unfoldable pub is_spam : Unicode → (Bytes → Bool) → Dict Bytes → Bool
is_spam u above_five headers =
    if says_yes u (codes "X-Spam-Flag") headers || says_yes u (codes "X-Spam-Status") headers
    then true
    else elim (lookup (codes "X-Spam-Score") headers) [
      | none ↦ false
      | some score ↦ above_five score
    ]

pub record RateLimiter : Type 0 where
  pub emails : Dict (List ℕ)
  pub limit : ℕ
  pub window : ℕ

abbrev pub new_rate_limiter : ℕ → ℕ → RateLimiter
new_rate_limiter limit window = record { emails = []; limit = limit; window = window }

abbrev pub sent_by : Bytes → RateLimiter → List ℕ
sent_by sender r = elim (lookup sender r.emails) [ none ↦ [] | some ts ↦ ts ]

unfoldable pub allow : ℕ → Bytes → RateLimiter → RateLimiter × Bool
allow now sender r =
    let recent = keep (λ t. leb now (t + r.window)) (sent_by sender r) in
    if leb r.limit (length recent)
    then (r, false)
    else (record r { emails = put sender (recent ++ (now ∷ [])) r.emails }, true)

abbrev pub reset : Bytes → RateLimiter → RateLimiter
reset sender r = record r { emails = delete sender r.emails }
