-- ===== src/Qos/Bucket.antt =====
-- pkg/qos/qos.go, `TokenBucket`. Amounts are bit patterns of int64s, a time is counted in nanoseconds, and
-- the clock is an argument. The float64 product of the elapsed seconds and the rate, converted to an
-- int64, is the parameter `earned`.
pub mod Laws
use local_web.Base.{
  ℕ, zero, suc, ◌+◌, ◌-◌, ◌*◌, ◌/◌, ◌%◌, ◌^◌, ◌≤◌, ◌<◌, ◌≡◌, ◌≢◌, refl, sym, ap, ◌∙◌, ◌↔◌, ◌⊎◌, inl,
  inr, Bool, true, false, not, ◌&&◌, ◌||◌, List, [], ◌∷◌, ◌++◌, map, Option, none, some, some_inj,
  arith, ltb, leb, ◌==◌, ==_iff, if◌then◌else◌, Bool-cases, Bool-ext, Option-cases, Bytes, codes,
  same, same_iff, same_refl, member, length, length-append, take, drop, All, any, keep,
  length-keep-le, Dict, lookup, put, delete, lookup-put, lookup-delete, check_range, test_in_range,
}
use local_web.Base.Int64.{lt_int64}

pub record TokenBucket : Type 0 where
  pub capacity : ℕ
  pub tokens : ℕ
  pub refill_rate : ℕ
  pub last_refill : ℕ

abbrev pub new_token_bucket : ℕ → ℕ → ℕ → TokenBucket
new_token_bucket now capacity refill_rate = record {
  capacity = capacity;
  tokens = capacity;
  refill_rate = refill_rate;
  last_refill = now;
}

abbrev pub add_int64 : ℕ → ℕ → ℕ
add_int64 a b = (a + b) % 2 ^ 64

abbrev pub sub_int64 : ℕ → ℕ → ℕ
sub_int64 a b = (a + 2 ^ 64 - b) % 2 ^ 64

abbrev pub min_int64 : ℕ → ℕ → ℕ
min_int64 a b = if lt_int64 a b then a else b

module _ (earned : ℕ → ℕ → ℕ) where
  unfoldable pub refill : ℕ → TokenBucket → TokenBucket
  refill now tb = record tb {
    tokens =
        min_int64 tb.capacity (add_int64 tb.tokens (earned (now - tb.last_refill) tb.refill_rate));
    last_refill = now;
  }

  unfoldable pub take_tokens : ℕ → ℕ → TokenBucket → TokenBucket × Bool
  take_tokens now n tb =
      let r = refill now tb in
      if not (lt_int64 r.tokens n)
      then (record r { tokens = sub_int64 r.tokens n }, true)
      else (r, false)

  unfoldable pub available : ℕ → TokenBucket → TokenBucket × ℕ
  available now tb = let r = refill now tb in (r, r.tokens)

  -- `Wait`, by the times at which it tries; the context is done after the last of them. True is the nil
  -- error.
  unfoldable pub wait : List ℕ → ℕ → TokenBucket → TokenBucket × Bool
  wait [] n tb = (tb, false)
  wait (now ∷ times) n tb =
      let (r, taken) = take_tokens now n tb in
      let rest = wait times n r in if taken then (r, true) else rest
