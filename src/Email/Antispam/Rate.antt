-- ===== src/Email/Antispam/Rate.antt =====
-- pkg/services/email/antispam.go, `RateLimiter`: a sliding window.
use local_web.Base.{
  ℕ, ◌+◌, ◌≤◌, ◌<◌, ◌≡◌, refl, ap, ◌∙◌, inl, inr, Bool, ◌&&◌, List, [], ◌∷◌, ◌++◌, arith, leb,
  if◌then◌else◌, Bool-cases, Bytes, length, length-append, keep, put, lookup-put, same, false, true,
  same_iff, lookup-delete, keep-append,
}
use local_web.Email.Antispam.{RateLimiter, new_rate_limiter, allow, sent_by, reset}

-- One send at the limiter, or a sender whose window is opened anew.
pub data Event : Type 0 where
  send : ℕ → Bytes → Event
  forget : Bytes → Event

-- The events of a run at one limiter, of all senders, and the times at which `sender` is let through. What
-- was let through before its window was opened anew is not counted.
abbrev pub send_all : Bytes → List Event → RateLimiter → List ℕ → RateLimiter × List ℕ
send_all sender [] r accepted = (r, accepted)
send_all sender (Event.send t who ∷ es) r accepted =
    let (after, allowed) = allow t who r in
    send_all sender es after
      (if same who sender then (if allowed then accepted ++ (t ∷ []) else accepted) else accepted)
send_all sender (Event.forget who ∷ es) r accepted =
    send_all sender es (reset who r) (if same who sender then [] else accepted)

-- The clock does not go back.
abbrev pub IsRising : ℕ → List Event → Type 0
IsRising low [] = Unit
IsRising low (Event.send t who ∷ es) = (low ≤ t) × IsRising t es
IsRising low (Event.forget who ∷ es) = IsRising low es

-- A time that a window which ends at `end` reaches, and one that it holds.
abbrev reaches : ℕ → ℕ → ℕ → Bool
reaches window end t = leb end (t + window)

abbrev pub in_window : ℕ → ℕ → ℕ → Bool
in_window window end t = leb t end && leb end (t + window)

-- A later window reaches less.
keep_later :
    (window now later : ℕ) (ts : List ℕ)
    → now ≤ later
    → keep (reaches window later) (keep (reaches window now) ts) ≡ keep (reaches window later) ts
keep_later window now later [] h = refl
keep_later window now later (t ∷ ts) h = ground (arith, keep_later window now later ts h)

length-keep_later :
    (window now later : ℕ) (ts : List ℕ)
    → now ≤ later
    → length (keep (reaches window later) ts) ≤ length (keep (reaches window now) ts)
length-keep_later window now later [] h = omega arith
length-keep_later window now later (t ∷ ts) h =
    ground (arith, length-keep_later window now later ts h)

length-keep_in :
    (window end : ℕ) (ts : List ℕ)
    → length (keep (in_window window end) ts) ≤ length (keep (reaches window end) ts)
length-keep_in window end [] = omega arith
length-keep_in window end (t ∷ ts) = ground (arith, length-keep_in window end ts)

-- What the limiter keeps of a sender is what matters of those let through, and no window holds too many.
record IsLimited (window limit last : ℕ) (kept accepted : List ℕ) : Type 0 where
  enough :
      (end : ℕ) → last ≤ end → keep (reaches window end) accepted ≡ keep (reaches window end) kept
  bounded : (end : ℕ) → length (keep (in_window window end) accepted) ≤ limit

wait-IsLimited :
    (window limit last now : ℕ) (kept accepted : List ℕ)
    → last ≤ now
    → IsLimited window limit last kept accepted
    → IsLimited window limit now kept accepted
wait-IsLimited window limit last now kept accepted h k = record {
  enough = λ end later. k.enough end (omega (arith, h, later));
  bounded = k.bounded;
}

length-keep_snoc :
    (p : ℕ → Bool) (ts : List ℕ) (now : ℕ)
    → length (keep p (ts ++ (now ∷ []))) ≡ length (keep p ts) + (if p now then 1 else 0)
length-keep_snoc p ts now =
    ap length (keep-append p ts (now ∷ []))
    ∙ length-append (keep p ts) (keep p (now ∷ []))
    ∙ elim (Bool-cases (p now)) [ inl e ↦ rw (e, keep) refl | inr e ↦ rw (e, keep) refl ]

accept-IsLimited :
    (window limit last now : ℕ) (kept accepted : List ℕ)
    → last ≤ now
    → length (keep (reaches window now) kept) < limit
    → IsLimited window limit last kept accepted
    → IsLimited window limit now
        (keep (reaches window now) kept ++ (now ∷ []))
        (accepted ++ (now ∷ []))
accept-IsLimited window limit last now kept accepted h few k = record {
  enough = λ end later.
      keep-append (reaches window end) accepted (now ∷ [])
      ∙ rw
          (
            k.enough end (omega (arith, h, later)),
            keep-append (reaches window end) (keep (reaches window now) kept) (now ∷ []),
            keep_later window now end kept later,
          )
          refl;
  bounded = λ end. ground (
    arith,
    length-keep_snoc (in_window window end) accepted now,
    length-keep_in window end accepted,
    length-keep_later window now end kept,
    ap length (k.enough end _),
    k.bounded end,
    few,
    h,
  );
}

sent_by-put :
    (sender other : Bytes) (ts : List ℕ) (r : RateLimiter)
    → sent_by sender (record r { emails = put other ts r.emails })
      ≡ (if same other sender then ts else sent_by sender r)
sent_by-put sender other ts r =
    ground (arith, lookup-put other sender ts r.emails, same_iff other sender)

sent_by-reset :
    (sender other : Bytes) (r : RateLimiter)
    → sent_by sender (reset other r) ≡ (if same other sender then [] else sent_by sender r)
sent_by-reset sender other r =
    ground (arith, lookup-delete other sender r.emails, same_iff other sender)

module _ (sender : Bytes) (window limit : ℕ) where
  -- The limiter is the one of the run, and the sender has been kept within the limit so far.
  record IsKept (last : ℕ) (r : RateLimiter) (accepted : List ℕ) : Type 0 where
    same_window : r.window ≡ window
    same_limit : r.limit ≡ limit
    limited : IsLimited window limit last (sent_by sender r) accepted

  -- The outcomes of one send: of the sender or of another, let through or not.
  allow-IsKept :
      (last now : ℕ) (who : Bytes) (r : RateLimiter) (accepted : List ℕ)
      → last ≤ now
      → IsKept last r accepted
      → IsKept now (allow now who r).0 (
          if same who sender
          then (if (allow now who r).1 then accepted ++ (now ∷ []) else accepted)
          else accepted)
  unfolding allow
  allow-IsKept last now who r accepted h k =
      let waits : IsLimited window limit now (sent_by sender r) accepted =
        wait-IsLimited window limit last now _ accepted h k.limited in
      elim (Bool-cases (leb r.limit (length (keep (reaches r.window now) (sent_by who r))))) [
        | inl e ↦ rw e (record {
          same_window = k.same_window;
          same_limit = k.same_limit;
          limited = elim (Bool-cases (same who sender)) [ inl f ↦ rw f waits | inr f ↦ rw f waits ];
        })
        | inr e ↦ rw e (record {
          same_window = k.same_window;
          same_limit = k.same_limit;
          limited = elim (Bool-cases (same who sender)) [
            | inl f ↦
                rw
                  (
                    sent_by-put sender who
                        (keep (reaches r.window now) (sent_by who r) ++ (now ∷ [])) r,
                    f,
                  )
                  (own e f)
            | inr f ↦
                rw
                  (
                    sent_by-put sender who
                        (keep (reaches r.window now) (sent_by who r) ++ (now ∷ [])) r,
                    f,
                  )
                  waits
          ];
        })
      ]
    where
      own :
          leb r.limit (length (keep (reaches r.window now) (sent_by who r))) ≡ false
          → same who sender ≡ true
          → IsLimited window limit now
              (keep (reaches r.window now) (sent_by who r) ++ (now ∷ []))
              (accepted ++ (now ∷ []))
      own e f =
          let it_is : who ≡ sender = (same_iff who sender).0 f in
          rw (it_is, k.same_window)
            (accept-IsLimited window limit last now (sent_by sender r) accepted h
              (ground (arith, e, it_is, k.same_window, k.same_limit)) k.limited)

  reset-IsKept :
      (last : ℕ) (who : Bytes) (r : RateLimiter) (accepted : List ℕ)
      → IsKept last r accepted
      → IsKept last (reset who r) (if same who sender then [] else accepted)
  reset-IsKept last who r accepted k = record {
    same_window = k.same_window;
    same_limit = k.same_limit;
    limited = elim (Bool-cases (same who sender)) [
      | inl f ↦
          rw (sent_by-reset sender who r, f)
            (record { enough = λ e h. refl; bounded = λ e. omega arith })
      | inr f ↦ rw (sent_by-reset sender who r, f) k.limited
    ];
  }

  send_all-IsKept :
      (last : ℕ) (es : List Event) (r : RateLimiter) (accepted : List ℕ) (end : ℕ)
      → IsRising last es
      → IsKept last r accepted
      → length (keep (in_window window end) (send_all sender es r accepted).1) ≤ limit
  send_all-IsKept last [] r accepted end rising k = k.limited.bounded end
  send_all-IsKept last (Event.send t who ∷ es) r accepted end rising k =
      send_all-IsKept t es (allow t who r).0 _ end rising.1
        (allow-IsKept last t who r accepted rising.0 k)
  send_all-IsKept last (Event.forget who ∷ es) r accepted end rising k =
      send_all-IsKept last es (reset who r) _ end rising (reset-IsKept last who r accepted k)

-- Whatever sends of any senders and resets a new limiter sees in whatever order, at times that do not go
-- back, no window of the limiter's length holds more sends of a sender that are let through than the
-- limit, wherever it ends. What was let through before a reset of the sender itself is not counted.
pub send_all_bound :
    (sender : Bytes) (limit window last : ℕ) (es : List Event) (end : ℕ)
    → IsRising last es
    → length (keep (in_window window end) (send_all sender es (new_rate_limiter limit window) []).1)
      ≤ limit
send_all_bound sender limit window last es end rising =
    send_all-IsKept sender window limit last es (new_rate_limiter limit window) [] end rising
      (record {
        same_window = refl;
        same_limit = refl;
        limited = record { enough = λ e h. refl; bounded = λ e. omega arith };
      })
