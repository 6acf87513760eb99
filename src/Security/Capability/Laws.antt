-- ===== src/Security/Capability/Laws.antt =====
-- pkg/security/capability.go: what a grant gives, and what a revocation takes for good.
use local_web.Base.{
  ℕ, ◌≡◌, ◌≢◌, refl, Bool, true, false, not, ◌&&◌, List, [], ◌∷◌, ◌++◌, Option, none, some, arith,
  Bytes, same_iff, same_refl, length, member, member-include, any-append, put, lookup-put,
  Option-cases, inl, inr,
}
use local_web.Base.Wire.{zeros}
use local_web.Security.Capability.{
  CapabilityToken, CapabilityManager, Raw, is_expired, check_access, grant_capability,
  revoke_capability, register_service, verify, sign, tokens_of, new_token, raw,
}

-- A change of the manager.
pub data Command : Type 0 where
  registers : Bytes → Command
  revokes : Bytes → Command
  grants : Bytes → List Bytes → ℕ → ℕ → Option Bytes → Command

module _ (marshal_json : Raw → Option Bytes) (sign_bytes : Bytes → Bytes → Option Bytes) where
  grant_inv :
      (peer_id : Bytes) (services : List Bytes) (ttl now : ℕ) (random : Option Bytes)
      (m after : CapabilityManager) (tok : CapabilityToken)
      → grant_capability marshal_json sign_bytes peer_id services ttl now random m
        ≡ some (tok, after)
      → (bytes canonical sig : Bytes) × (marshal_json
            (raw (new_token peer_id services ttl now bytes))
          ≡ some canonical)
        × (sign_bytes m.priv_key canonical ≡ some sig)
        × (tok ≡ record (new_token peer_id services ttl now bytes) { signature = sig })
        × (after ≡ record m { tokens = put peer_id (tokens_of peer_id m ++ (tok ∷ [])) m.tokens })
  unfolding grant_capability sign
  grant_inv peer_id services ttl now random m after tok h = elim (Option-cases random) [
    | inl e ↦ absurd (ground arith)
    | inr (bytes, e) ↦
        elim (Option-cases (marshal_json (raw (new_token peer_id services ttl now bytes)))) [
          | inl f ↦ absurd (ground arith)
          | inr (canonical, f) ↦ elim (Option-cases (sign_bytes m.priv_key canonical)) [
            | inl g ↦ absurd (ground arith)
            | inr (sig, g) ↦ (bytes, canonical, sig, f, g, ground arith, ground arith)
          ]
        ]
  ]

  -- A token that was granted lets its peer use each of its services until it expires, unless the peer
  -- has been revoked.
  pub check-grant :
      (peer_id svc : Bytes) (services : List Bytes) (ttl now later : ℕ) (random : Option Bytes)
      (m after : CapabilityManager) (tok : CapabilityToken)
      → grant_capability marshal_json sign_bytes peer_id services ttl now random m
        ≡ some (tok, after)
      → member svc services ≡ true
      → is_expired later tok ≡ false
      → check_access later peer_id svc after ≡ not (member peer_id m.revoked)
  unfolding check_access
  check-grant peer_id svc services ttl now later random m after tok h has live =
      let (bytes, canonical, sig, e1, e2, is_tok, is_after) =
        grant_inv peer_id services ttl now random m after tok h in
      ground (
        arith,
        is_after,
        lookup-put peer_id peer_id (tokens_of peer_id m ++ (tok ∷ [])) m.tokens,
        same_refl peer_id,
        any-append (λ (t : CapabilityToken). not (is_expired later t) && member svc t.services)
            (tokens_of peer_id m) (tok ∷ []),
      )

  -- Where signing makes 64 bytes that verify, a granted token of a peer other than the zero id passes
  -- `Verify` under the key of the manager until it expires.
  pub verify-grant :
      (verify_bytes : Bytes → Bytes → Bytes → Bool) (peer_id : Bytes) (services : List Bytes)
      (ttl now later : ℕ) (random : Option Bytes) (m after : CapabilityManager)
      (tok : CapabilityToken)
      → ((msg sig : Bytes)
          → sign_bytes m.priv_key msg ≡ some sig
          → (length sig ≡ 64) × (verify_bytes m.pub_key msg sig ≡ true))
      → peer_id ≢ zeros 32
      → grant_capability marshal_json sign_bytes peer_id services ttl now random m
        ≡ some (tok, after)
      → is_expired later tok ≡ false
      → verify marshal_json verify_bytes m.pub_key later tok ≡ none
  unfolding verify
  verify-grant verify_bytes peer_id services ttl now later random m after tok sound nonzero h live =
      let (bytes, canonical, sig, e1, e2, is_tok, is_after) =
        grant_inv peer_id services ttl now random m after tok h in
      ground (arith, is_tok, e1, sound canonical sig e2, same_iff peer_id (zeros 32))

  pub run : Command → CapabilityManager → CapabilityManager
  run (registers svc) m = register_service svc m
  run (revokes peer_id) m = revoke_capability peer_id m
  run (grants peer_id services ttl now random) m =
      elim (grant_capability marshal_json sign_bytes peer_id services ttl now random m) [
        | none ↦ m
        | some (tok, after) ↦ after
      ]

  pub run_all : List Command → CapabilityManager → CapabilityManager
  run_all [] m = m
  run_all (c ∷ cs) m = run_all cs (run c m)

  revoked-run :
      (peer_id : Bytes) (c : Command) (m : CapabilityManager)
      → member peer_id m.revoked ≡ true
      → member peer_id (run c m).revoked ≡ true
  unfolding run register_service revoke_capability grant_capability
  revoked-run peer_id (registers svc) m h = h
  revoked-run peer_id (revokes id) m h = ground (arith, member-include peer_id id m.revoked)
  revoked-run peer_id (grants id services ttl now random) m h = ground arith

  revoked-run_all :
      (peer_id : Bytes) (cs : List Command) (m : CapabilityManager)
      → member peer_id m.revoked ≡ true
      → member peer_id (run_all cs m).revoked ≡ true
  unfolding run_all
  revoked-run_all peer_id [] m h = h
  revoked-run_all peer_id (c ∷ cs) m h =
      revoked-run_all peer_id cs (run c m) (revoked-run peer_id c m h)

  -- A revoked peer never has access again, whatever is registered, granted and revoked afterwards.
  pub revoked_for_good :
      (peer_id svc : Bytes) (now : ℕ) (cs : List Command) (m : CapabilityManager)
      → check_access now peer_id svc (run_all cs (revoke_capability peer_id m)) ≡ false
  unfolding check_access revoke_capability
  revoked_for_good peer_id svc now cs m =
      rw (revoked-run_all peer_id cs (revoke_capability peer_id m) revoked) refl
    where
      revoked : member peer_id (revoke_capability peer_id m).revoked ≡ true
      revoked = ground (arith, member-include peer_id peer_id m.revoked, same_refl peer_id)
