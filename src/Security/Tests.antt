-- ===== src/Security/Tests.antt =====
-- pkg/security: the theorems on a manager with one service and on a log, under a hash that gives 32 zero
-- bytes, signatures of 64 zero bytes and encoders that give the id.
use local_web.Base.{◌≡◌, refl, Bool, true, false, [], ◌∷◌, ◌++◌, Option, some, Bytes, codes}
use local_web.Base.Wire.{zeros}
use local_web.Base.Int64.{lt_int64}
use local_web.Security.Capability.{
  CapabilityToken, CapabilityManager, Raw, grant_capability, revoke_capability, check_access, sign,
  new_token,
}
use local_web.Security.Capability.Laws.{grants, run_all, revoked_for_good}
use local_web.Security.Audit.{
  AuditEvent, AuditLog, new_audit_log, fill_in, events, log_event, auth_success, relay_use,
}
use local_web.Security.Audit.Chain.{IsLog, IsLog-new, log_event-IsLog}

abbrev to_json : Raw → Option Bytes
to_json r = some r.peer_id

abbrev sign_with : Bytes → Bytes → Option Bytes
sign_with priv msg = some (zeros 64)

abbrev accepts_all : Bytes → Bytes → Bytes → Bool
accepts_all public msg sig = true

abbrev manager : CapabilityManager
manager = record {
  priv_key = zeros 32;
  pub_key = zeros 32;
  tokens = [];
  revoked = [];
  services = codes "chat" ∷ [];
}

abbrev token : CapabilityToken
token = record (new_token (codes "peer") (codes "chat" ∷ []) 0 100 (zeros 16)) {
  expires_at = 0;
  signature = zeros 64;
}

abbrev granted : CapabilityManager
granted = record manager { tokens = (codes "peer", token ∷ []) ∷ [] }

grant-chat :
    grant_capability to_json sign_with
      (codes "peer")
      (codes "chat" ∷ [])
      0
      100
      (some (zeros 16))
      manager
    ≡ some (token, granted)
unfolding grant_capability sign lt_int64
grant-chat = refl

revoked_for_good_example :
    check_access 900 (codes "peer") (codes "chat") (
      run_all to_json sign_with
        (grants (codes "peer") (codes "chat" ∷ []) 0 100 (some (zeros 16)) ∷ [])
        (revoke_capability (codes "peer") granted))
    ≡ false
revoked_for_good_example =
    revoked_for_good to_json sign_with (codes "peer") (codes "chat") 900
      (grants (codes "peer") (codes "chat" ∷ []) 0 100 (some (zeros 16)) ∷ []) granted

abbrev event_json : AuditEvent → Option Bytes
event_json evt = some evt.peer_id

abbrev zero_hash : Bytes → Bytes
zero_hash payload = zeros 32

abbrev event : AuditEvent
event = auth_success (codes "peer") (codes "lan")

source-relay : (relay_use (codes "peer") (0 ∷ 31 ∷ 255 ∷ [])).source ≡ codes "001fff"
source-relay = refl

abbrev logged : AuditLog
logged = record {
  entries = record { event = fill_in 7 event; prev_hash = zeros 32; hash = zeros 32 } ∷ [];
  last_hash = zeros 32;
}

log_event-event : log_event event_json zero_hash 7 event new_audit_log ≡ some logged
unfolding log_event
log_event-event = refl

log_event-IsLog_example :
    IsLog event_json zero_hash logged
    × (events logged ≡ events new_audit_log ++ (fill_in 7 event ∷ []))
log_event-IsLog_example =
    log_event-IsLog event_json zero_hash 7 event new_audit_log logged
      (IsLog-new event_json zero_hash) log_event-event
