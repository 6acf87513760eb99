-- ===== src/Qos/Bucket/Laws.antt =====
-- pkg/qos/qos.go, `TokenBucket`: how much a bucket lets through, and when it never does.
use local_web.Base.{
  ℕ, ◌+◌, ◌-◌, ◌^◌, ◌≤◌, ◌<◌, ◌≡◌, refl, false, List, [], ◌∷◌, arith, if◌then◌else◌, All,
}
use local_web.Base.Int64.{lt_int64}
use local_web.Qos.Bucket.{TokenBucket, refill, take_tokens, wait}

-- The amounts are not negative, and the tokens are within the capacity.
pub record IsBucket (tb : TokenBucket) : Type 0 where
  pub small : tb.capacity < 2 ^ 63
  pub within : tb.tokens ≤ tb.capacity

module _ (earned : ℕ → ℕ → ℕ) where
  -- What the bucket earns in any time can be added to its capacity without an overflow.
  abbrev pub EarnsWithin : TokenBucket → Type 0
  EarnsWithin tb = (e : ℕ) → tb.capacity + earned e tb.refill_rate < 2 ^ 63

  refill_lem :
      (now : ℕ) (tb : TokenBucket)
      → IsBucket tb
      → EarnsWithin tb
      → IsBucket (refill earned now tb)
        × ((refill earned now tb).tokens ≤ tb.tokens + earned (now - tb.last_refill) tb.refill_rate)
        × (((refill earned now tb).capacity ≡ tb.capacity)
            × ((refill earned now tb).refill_rate ≡ tb.refill_rate)
            × ((refill earned now tb).last_refill ≡ now))
  unfolding refill lt_int64
  refill_lem now tb k w = ground (arith, w (now - tb.last_refill))

  -- `Take` keeps the bucket within its capacity, and takes what it grants out of what was there and what
  -- has been earned since.
  pub take_lem :
      (now n : ℕ) (tb : TokenBucket)
      → n < 2 ^ 63
      → IsBucket tb
      → EarnsWithin tb
      → IsBucket (take_tokens earned now n tb).0
        × ((take_tokens earned now n tb).0.tokens
              + (if (take_tokens earned now n tb).1 then n else 0)
            ≤ tb.tokens + earned (now - tb.last_refill) tb.refill_rate)
        × (((take_tokens earned now n tb).0.capacity ≡ tb.capacity)
            × ((take_tokens earned now n tb).0.refill_rate ≡ tb.refill_rate)
            × ((take_tokens earned now n tb).0.last_refill ≡ now))
  unfolding take_tokens lt_int64
  take_lem now n tb small k w = ground (arith, refill_lem now tb k w)

  -- A run of takes, each at its time, with the total that is granted.
  pub run : List (ℕ × ℕ) → TokenBucket → TokenBucket × ℕ
  run [] tb = (tb, 0)
  run ((now, n) ∷ calls) tb =
      let (r, taken) = take_tokens earned now n tb in
      let (out, granted) = run calls r in (out, (if taken then n else 0) + granted)

  -- What the bucket earns between the times of the calls.
  abbrev pub earned_over : ℕ → ℕ → List (ℕ × ℕ) → ℕ
  earned_over rate last [] = 0
  earned_over rate last ((now, n) ∷ calls) = earned (now - last) rate + earned_over rate now calls

  -- A rate limit: all the calls on a bucket together are granted no more than the tokens that it holds
  -- at first and those that it earns between the calls, and it stays within its capacity, if it was. The
  -- amounts asked for are not negative, and what is earned does not overflow.
  pub granted_bound :
      (calls : List (ℕ × ℕ)) (tb : TokenBucket)
      → All (λ (c : ℕ × ℕ). c.1 < 2 ^ 63) calls
      → IsBucket tb
      → EarnsWithin tb
      → ((run calls tb).0.tokens + (run calls tb).1
          ≤ tb.tokens + earned_over tb.refill_rate tb.last_refill calls)
        × IsBucket (run calls tb).0
  unfolding run
  granted_bound [] tb small k w = (omega arith, k)
  granted_bound ((now, n) ∷ calls) tb small k w =
      let (k', b, (same_cap, same_rate, at)) = take_lem now n tb small.0 k w in
      let w' : EarnsWithin (take_tokens earned now n tb).0 = λ e. rw (same_cap, same_rate) (w e) in
      let (g, k'') = granted_bound calls (take_tokens earned now n tb).0 small.1 k' w' in
      (omega (arith, b, rw (same_rate, at) at g), k'')

  -- No time between two polls, from `last` on, earns a whole token.
  abbrev pub EarnsNothing : ℕ → ℕ → List ℕ → Type 0
  EarnsNothing rate last [] = Unit
  EarnsNothing rate last (now ∷ times) =
      (earned (now - last) rate ≡ 0) × EarnsNothing rate now times

  idle_lem :
      (now n : ℕ) (tb : TokenBucket)
      → n < 2 ^ 63
      → IsBucket tb
      → earned (now - tb.last_refill) tb.refill_rate ≡ 0
      → tb.tokens < n
      → take_tokens earned now n tb ≡ (record tb { last_refill = now }, false)
  unfolding take_tokens refill lt_int64
  idle_lem now n tb small k idle short = ground arith

  -- On a bucket within its capacity, a wait for more tokens than it holds ends only with its context and
  -- leaves the tokens as they are, however often it polls, if each of the times between two polls is too
  -- short to earn a whole token.
  pub wait_starves :
      (times : List ℕ) (n : ℕ) (tb : TokenBucket)
      → n < 2 ^ 63
      → IsBucket tb
      → EarnsNothing tb.refill_rate tb.last_refill times
      → tb.tokens < n
      → ((wait earned times n tb).1 ≡ false) × ((wait earned times n tb).0.tokens ≡ tb.tokens)
  unfolding wait
  wait_starves [] n tb small k idle short = (refl, refl)
  wait_starves (now ∷ times) n tb small k idle short = rw (idle_lem now n tb small k idle.0 short) (
      wait_starves times n (record tb { last_refill = now }) small
        (record { small = k.small; within = k.within }) idle.1 short)

  oversize_lem :
      (now n : ℕ) (tb : TokenBucket)
      → n < 2 ^ 63
      → IsBucket tb
      → EarnsWithin tb
      → tb.capacity < n
      → (take_tokens earned now n tb).1 ≡ false
  unfolding take_tokens lt_int64
  oversize_lem now n tb small k w big = ground (arith, refill_lem now tb k w)

  -- A wait for more tokens than the capacity ends only with its context.
  pub wait_oversize :
      (times : List ℕ) (n : ℕ) (tb : TokenBucket)
      → n < 2 ^ 63
      → IsBucket tb
      → EarnsWithin tb
      → tb.capacity < n
      → (wait earned times n tb).1 ≡ false
  unfolding wait
  wait_oversize [] n tb small k w big = refl
  wait_oversize (now ∷ times) n tb small k w big =
      let (k', b, (same_cap, same_rate, at)) = take_lem now n tb small k w in
      rw (oversize_lem now n tb small k w big) (
        wait_oversize times n (take_tokens earned now n tb).0 small k'
          (λ e. rw (same_cap, same_rate) (w e)) (rw same_cap big))
