-- ===== src/Security/Audit.antt =====
-- pkg/security/audit.go, `AuditLog`. A time is counted in nanoseconds from the zero time; the JSON
-- encoder and the hash, SHA3-256, are parameters. `Export` and the message to the console are left out.
pub mod Chain
use local_web.Base.{
  ℕ, ◌+◌, ◌/◌, ◌%◌, ltb, ◌≡◌, Bool, true, false, not, List, [], ◌∷◌, ◌++◌, Option, none, some, ◌==◌,
  Bytes, codes, same, length, map, keep, take, Dict, if◌then◌else◌,
}
use local_web.Base.Wire.{zeros}

-- A nil map of details is `none`.
pub record AuditEvent : Type 0 where
  pub event_type : Bytes
  pub timestamp : ℕ
  pub peer_id : Bytes
  pub source : Bytes
  pub details : Option (Dict Bytes)

pub record Entry : Type 0 where
  pub event : AuditEvent
  pub prev_hash : Bytes
  pub hash : Bytes

pub record AuditLog : Type 0 where
  pub entries : List Entry
  pub last_hash : Bytes

abbrev pub new_audit_log : AuditLog
new_audit_log = record { entries = []; last_hash = zeros 32 }

pub data IntegrityError : Type 0 where
  marshal_failed : ℕ → IntegrityError
  prev_hash_mismatch : ℕ → IntegrityError
  hash_mismatch : ℕ → IntegrityError

-- `Log` fills in a zero time and nil details.
abbrev pub fill_in : ℕ → AuditEvent → AuditEvent
fill_in now evt = record evt {
  timestamp = if evt.timestamp == 0 then now else evt.timestamp;
  details = elim evt.details [ none ↦ some [] | some m ↦ some m ];
}

unfoldable pub len : AuditLog → ℕ
len l = length l.entries

-- `Entries`.
abbrev pub events : AuditLog → List AuditEvent
events l = map (λ e. e.event) l.entries

unfoldable pub peer_events : Bytes → AuditLog → List AuditEvent
peer_events peer_id l = map (λ e. e.event) (keep (λ e. same e.event.peer_id peer_id) l.entries)

unfoldable pub join_strings : List Bytes → Bytes
join_strings [] = []
join_strings (s ∷ []) = s
join_strings (s ∷ t ∷ ss) = s ++ (b',' ∷ join_strings (t ∷ ss))

-- The event that an entry is made of, before `Log` gives it its time.
abbrev new_event : Bytes → Bytes → Bytes → Dict Bytes → AuditEvent
new_event event_type peer_id source details = record {
  event_type = event_type;
  timestamp = 0;
  peer_id = peer_id;
  source = source;
  details = some details;
}

abbrev pub auth_success : Bytes → Bytes → AuditEvent
auth_success peer_id src =
    new_event (codes "auth_success") peer_id src ((codes "result", codes "success") ∷ [])

abbrev pub auth_failure : Bytes → Bytes → Bytes → AuditEvent
auth_failure peer_id src reason =
    new_event (codes "auth_failure") peer_id src
      ((codes "result", codes "failure") ∷ (codes "reason", reason) ∷ [])

abbrev pub connection : Bytes → Bytes → AuditEvent
connection peer_id addr = new_event (codes "connection") peer_id addr ((codes "addr", addr) ∷ [])

abbrev pub disconnection : Bytes → Bytes → AuditEvent
disconnection peer_id addr =
    new_event (codes "disconnection") peer_id addr ((codes "addr", addr) ∷ [])

-- `hex.EncodeToString`.
abbrev pub hex_digit : ℕ → ℕ
hex_digit d = if ltb d 10 then 48 + d else 87 + d

abbrev pub hex_encode : Bytes → Bytes
hex_encode [] = []
hex_encode (b ∷ bs) = hex_digit (b / 16) ∷ hex_digit (b % 16) ∷ hex_encode bs

abbrev pub format_peer_id : Bytes → Bytes
format_peer_id id = hex_encode (take 8 id)

abbrev pub capability_grant : Bytes → Bytes → List Bytes → AuditEvent
capability_grant issuer peer_id services =
    new_event (codes "capability_grant") peer_id (format_peer_id issuer)
      ((codes "issuer", format_peer_id issuer) ∷ (codes "services", join_strings services) ∷ [])

abbrev pub relay_use : Bytes → Bytes → AuditEvent
relay_use peer_id relay_id =
    new_event (codes "relay_use") peer_id (format_peer_id relay_id)
      ((codes "relay_id", format_peer_id relay_id) ∷ [])

module _ (marshal_json : AuditEvent → Option Bytes) (sha3_hash : Bytes → Bytes) where
  -- `Log`; `none` is the error, which leaves the log as it was.
  unfoldable pub log_event : ℕ → AuditEvent → AuditLog → Option AuditLog
  log_event now evt l =
      let filled = fill_in now evt in
      elim (marshal_json filled) [
        | none ↦ none
        | some b ↦
            let h = sha3_hash (l.last_hash ++ b) in
            some (record {
              entries =
                  l.entries ++ (record { event = filled; prev_hash = l.last_hash; hash = h } ∷ []);
              last_hash = h;
            })
      ]

  -- The loop of `VerifyIntegrity` from entry `i` on; `none` is the nil error.
  unfoldable pub verify_from : ℕ → Bytes → List Entry → Option IntegrityError
  verify_from i prev [] = none
  verify_from i prev (e ∷ es) =
      let rest = verify_from (i + 1) e.hash es in
      elim (marshal_json e.event) [
        | none ↦ some (marshal_failed i)
        | some b ↦
            if not (same e.prev_hash prev)
            then some (prev_hash_mismatch i)
            else if not (same e.hash (sha3_hash (prev ++ b)))
            then some (hash_mismatch i)
            else rest
      ]

  unfoldable pub verify_integrity : AuditLog → Option IntegrityError
  unfolding verify_from
  verify_integrity l = verify_from 0 (zeros 32) l.entries
