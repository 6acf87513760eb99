-- ===== src/Security/Audit/Chain.antt =====
-- pkg/security/audit.go, `AuditLog`: the chain of hashes.
use mathlib.Core.List.{map-append}
use mathlib.Core.Path.{subst}
use local_web.Base.{
  some_inj, ℕ, ◌+◌, ◌≡◌, refl, inl, inr, List, [], ◌∷◌, ◌++◌, Option, none, some, arith, Bytes,
  same_refl, Option-cases,
}
use local_web.Base.Wire.{zeros}
use local_web.Security.Audit.{
  AuditEvent, Entry, AuditLog, new_audit_log, fill_in, events, log_event, verify_from,
  verify_integrity,
}

-- The hash of the last entry, or the one ahead of them all.
abbrev pub end_hash : Bytes → List Entry → Bytes
end_hash prev [] = prev
end_hash prev (e ∷ es) = end_hash e.hash es

module _ (marshal_json : AuditEvent → Option Bytes) (sha3_hash : Bytes → Bytes) where
  -- The log verifies, and ends with the hash that the next entry will name.
  pub record IsLog (l : AuditLog) : Type 0 where
    pub verified : verify_integrity marshal_json sha3_hash l ≡ none
    pub ends : end_hash (zeros 32) l.entries ≡ l.last_hash

  pub IsLog-new : IsLog new_audit_log
  IsLog-new = record { verified = unfold verify_integrity verify_from in refl; ends = refl }

  verify_from-snoc :
      (i : ℕ) (prev : Bytes) (es : List Entry) (evt : AuditEvent) (b : Bytes)
      → marshal_json evt ≡ some b
      → verify_from marshal_json sha3_hash i prev es ≡ none
      → verify_from marshal_json sha3_hash i prev (
          es
          ++ (record {
            event = evt;
            prev_hash = end_hash prev es;
            hash = sha3_hash (end_hash prev es ++ b);
          }
              ∷ []))
        ≡ none
  unfolding verify_from
  verify_from-snoc i prev [] evt b e h =
      rw e (rw (same_refl prev, same_refl (sha3_hash (prev ++ b))) refl)
  verify_from-snoc i prev (x ∷ es) evt b e h =
      ground (arith, verify_from-snoc (i + 1) x.hash es evt b e)

  end_hash-snoc :
      (prev : Bytes) (es : List Entry) (x : Entry) → end_hash prev (es ++ (x ∷ [])) ≡ x.hash
  end_hash-snoc prev [] x = refl
  end_hash-snoc prev (y ∷ es) x = end_hash-snoc y.hash es x

  abbrev appended : AuditEvent → Bytes → AuditLog → AuditLog
  appended evt b l = record {
    entries =
        l.entries
        ++ (record { event = evt; prev_hash = l.last_hash; hash = sha3_hash (l.last_hash ++ b) }
            ∷ []);
    last_hash = sha3_hash (l.last_hash ++ b);
  }

  IsLog-appended :
      (evt : AuditEvent) (b : Bytes) (l : AuditLog)
      → marshal_json evt ≡ some b
      → IsLog l
      → IsLog (appended evt b l)
  unfolding verify_integrity
  IsLog-appended evt b l e k = record {
    verified = rw (← k.ends) (verify_from-snoc 0 (zeros 32) l.entries evt b e k.verified);
    ends = end_hash-snoc (zeros 32) l.entries _;
  }

  -- A log that verifies, and ends with its last hash, still does after `Log`, which appends exactly the
  -- event that it is given, with its time and details filled in.
  pub log_event-IsLog :
      (now : ℕ) (evt : AuditEvent) (l after : AuditLog)
      → IsLog l
      → log_event marshal_json sha3_hash now evt l ≡ some after
      → IsLog after × (events after ≡ events l ++ (fill_in now evt ∷ []))
  unfolding log_event
  log_event-IsLog now evt l after k h = elim (Option-cases (marshal_json (fill_in now evt))) [
    | inl e ↦ absurd (cc (rw (e, log_event) at h))
    | inr (b, e) ↦
        subst (λ a. IsLog a × (events a ≡ events l ++ (fill_in now evt ∷ [])))
          (some_inj (rw (e, log_event) at h))
          (
            IsLog-appended (fill_in now evt) b l e k,
            map-append (λ (x : Entry). x.event) l.entries _,
          )
  ]
