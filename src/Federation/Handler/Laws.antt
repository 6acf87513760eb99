-- ===== src/Federation/Handler/Laws.antt =====
-- pkg/federation/federation.go, `HTTPHandler`: what the store holds, and how often a node can register.
use mathlib.Core.Path.{subst}
use local_web.Base.{
  ℕ, ◌+◌, ◌≤◌, ◌<◌, ◌≡◌, ◌≢◌, refl, sym, ap, ◌∙◌, ◌⊎◌, inl, inr, Bool, true, false, List, [], ◌∷◌,
  Option, some, some_inj, arith, ltb, Bool-cases, Option-cases, Bytes, same, same_refl, length, All,
  keep, Dict, lookup, put, lookup-put, same_iff,
}
use local_web.Dht.Pow.{verify_pow}
use local_web.Federation.Store.{PeerInfo, StoreEntry, MemoryStore, put_peer}
use local_web.Federation.Limits.{IsPeer, validate_peer-IsPeer, max_register_body}
use local_web.Federation.Handler.{
  Registration, HttpHandler, Method, is_post, is_early, is_valid, stamp, entry_ttl,
  min_register_interval, handle_register,
}

All-put {ℓ κ} :
    {V : Type ℓ} (P : Bytes × V → Type κ) (k : Bytes) (v : V) (m : Dict V)
    → P (k, v)
    → All P m
    → All P (put k v m)
All-put P k v [] p h = (p, tt)
All-put P k v ((j, w) ∷ m) p h = elim (Bool-cases (same j k)) [
  | inl e ↦ rw (e, All) (p, h.1)
  | inr e ↦ rw (e, All) (h.0, All-put P k v m p h.1)
]

All-keep {ℓ κ} :
    {A : Type ℓ} (P : A → Type κ) (p : A → Bool) (xs : List A) → All P xs → All P (keep p xs)
All-keep P p [] h = tt
All-keep P p (x ∷ xs) h = elim (Bool-cases (p x)) [
  | inl e ↦ rw (e, keep, All) (h.0, All-keep P p xs h.1)
  | inr e ↦ rw (e, keep) (All-keep P p xs h.1)
]

-- An entry is a peer within the limits, under its own id.
pub record IsEntry (splits : Bytes → Bool) (e : Bytes × StoreEntry) : Type 0 where
  pub own_id : e.1.peer.id ≡ e.0
  pub peer : IsPeer splits e.1.peer.addrs e.1.peer.name (length e.1.peer.services)

abbrev pub IsStore : (Bytes → Bool) → MemoryStore → Type 0
IsStore splits s = All (IsEntry splits) s

-- A request that comes in: its time, its method and its body.
pub record Request : Type 0 where
  pub at : ℕ
  pub method : Method
  pub body : Bytes

-- Every request of a list comes in before a time.
abbrev pub AllBefore : ℕ → List Request → Type 0
AllBefore end qs = All (λ q. q.at < end) qs

module _ (sha3 : Bytes → Bytes) (decode_json : Bytes → Option Registration)
    (encode_json : PeerInfo → Option Bytes) (splits : Bytes → Bool) where
  -- What a request that changes the state has passed.
  pub record IsAccepted (now : ℕ) (method : Method) (body : Bytes) (h : HttpHandler) : Type 0 where
    pub env : Registration
    pub signed : Bytes
    pub decoded : decode_json body ≡ some env
    pub small : length body ≤ max_register_body
    pub encoded : encode_json env.peer ≡ some signed
    pub worked : verify_pow sha3 signed env.nonce h.difficulty ≡ true
    pub valid : is_valid splits env.peer ≡ true
    pub in_time : is_early now env.peer.id h ≡ false
    pub after :
        (handle_register sha3 decode_json encode_json splits now method body h).0 ≡ record h {
          last_register = put env.peer.id now h.last_register;
          store = put_peer now (stamp now env.peer) entry_ttl h.store;
        }

  register_cases :
      (now : ℕ) (method : Method) (body : Bytes) (h : HttpHandler)
      → ((handle_register sha3 decode_json encode_json splits now method body h).0 ≡ h)
        ⊎ IsAccepted now method body h
  unfolding handle_register
  register_cases now method body h = elim (Bool-cases (is_post method)) [
    | inr a ↦ inl (rw (handle_register, a) refl)
    | inl a ↦ elim (Bool-cases (ltb max_register_body (length body))) [
      | inl b ↦ inl (rw (handle_register, a, b) refl)
      | inr b ↦ elim (Option-cases (decode_json body)) [
        | inl c ↦ inl (rw (handle_register, a, b, c) refl)
        | inr (env, c) ↦ elim (Option-cases (encode_json env.peer)) [
          | inl d ↦ inl (rw (handle_register, a, b, c, d) refl)
          | inr (signed, d) ↦ gated env signed a b c d
        ]
      ]
    ]
  ]
    where
      gated :
          (env : Registration) (signed : Bytes)
          → is_post method ≡ true
          → ltb max_register_body (length body) ≡ false
          → decode_json body ≡ some env
          → encode_json env.peer ≡ some signed
          → ((handle_register sha3 decode_json encode_json splits now method body h).0 ≡ h)
            ⊎ IsAccepted now method body h
      gated env signed a b c d = elim (Bool-cases (verify_pow sha3 signed env.nonce h.difficulty)) [
        | inr e ↦ inl (rw (handle_register, a, b, c, d, e) refl)
        | inl e ↦ elim (Bool-cases (is_valid splits env.peer)) [
          | inr f ↦ inl (rw (handle_register, a, b, c, d, e, f) refl)
          | inl f ↦ elim (Bool-cases (is_early now env.peer.id h)) [
            | inl g ↦ inl (rw (handle_register, a, b, c, d, e, f, g) refl)
            | inr g ↦ inr (record {
              env = env;
              signed = signed;
              decoded = c;
              small = ground (arith, b);
              encoded = d;
              worked = e;
              valid = f;
              in_time = g;
              after = rw (handle_register, a, b, c, d, e, f, g) refl;
            })
          ]
        ]
      ]

  -- Whatever request to register comes in, the store stays within the limits, if it was: each peer in it
  -- has a name of 1 to 64 bytes, 1 to 16 addresses of 1 to 256 bytes that split into a host and a port,
  -- and at most 32 services, and stands under its own id.
  pub handle_register-IsStore :
      (now : ℕ) (method : Method) (body : Bytes) (h : HttpHandler)
      → IsStore splits h.store
      → IsStore splits
          (handle_register sha3 decode_json encode_json splits now method body h).0.store
  handle_register-IsStore now method body h k = elim (register_cases now method body h) [
    | inl e ↦ subst (λ x. IsStore splits x.store) (sym e) k
    | inr r ↦
        subst (λ x. IsStore splits x.store) (sym r.after)
          (All-put (IsEntry splits) r.env.peer.id _ h.store
            (record {
              own_id = refl;
              peer =
                  validate_peer-IsPeer splits r.env.peer.addrs r.env.peer.name
                    (length r.env.peer.services) (ground (arith, r.valid));
            })
            k)
  ]

  abbrev pub handled : Request → HttpHandler → HttpHandler
  handled q h = (handle_register sha3 decode_json encode_json splits q.at q.method q.body h).0

  abbrev pub run : List Request → HttpHandler → HttpHandler
  run [] h = h
  run (q ∷ qs) h = run qs (handled q h)

  -- A node that has registered is refused until its ten seconds are over, and others leave its time alone.
  last-handled :
      (id : Bytes) (now : ℕ) (q : Request) (h : HttpHandler)
      → lookup id h.last_register ≡ some now
      → q.at < now + min_register_interval
      → (handled q h ≡ h)
        ⊎ ((two : Registration) × (decode_json q.body ≡ some two)
            × (two.peer.id ≢ id)
            × (lookup id (handled q h).last_register ≡ some now))
  last-handled id now q h last soon = elim (register_cases q.at q.method q.body h) [
    | inl e ↦ inl e
    | inr r ↦
        let other : r.env.peer.id ≢ id =
          λ e. ground (arith, r.in_time, ap (λ j. lookup j h.last_register) e ∙ last, soon) in
        inr (
          r.env,
          r.decoded,
          other,
          ap (λ x. lookup id x.last_register) r.after
              ∙ (lookup-put r.env.peer.id id q.at h.last_register
                  ∙ ground (arith, same_iff r.env.peer.id id, other, last)),
        )
  ]

  last-run :
      (id : Bytes) (now : ℕ) (qs : List Request) (h : HttpHandler)
      → lookup id h.last_register ≡ some now
      → AllBefore (now + min_register_interval) qs
      → lookup id (run qs h).last_register ≡ some now
  last-run id now [] h last soon = last
  last-run id now (q ∷ qs) h last soon =
      last-run id now qs (handled q h)
        (elim (last-handled id now q h last soon.0) [
          | inl e ↦ ap (λ x. lookup id x.last_register) e ∙ last
          | inr (_, _, _, kept) ↦ kept
        ])
        soon.1

  -- A node registers at most once in ten seconds: after a request has changed the handler, and any
  -- requests of any nodes after it, a request whose body decodes to the same node id changes nothing, if it
  -- and those in between come in less than ten seconds after the first.
  pub register_once :
      (first second : Request) (between : List Request) (h : HttpHandler) (one two : Registration)
      → decode_json first.body ≡ some one
      → decode_json second.body ≡ some two
      → two.peer.id ≡ one.peer.id
      → handled first h ≢ h
      → AllBefore (first.at + min_register_interval) between
      → second.at < first.at + min_register_interval
      → handled second (run between (handled first h)) ≡ run between (handled first h)
  register_once first second between h one two d1 d2 same_id changed all_soon soon =
      elim (register_cases first.at first.method first.body h) [
        | inl e ↦ absurd (changed e)
        | inr r ↦
            let same_one : r.env ≡ one = some_inj (sym r.decoded ∙ d1) in
            let stamped : lookup one.peer.id (handled first h).last_register ≡ some first.at =
              ap (λ x. lookup one.peer.id x.last_register) r.after
              ∙ (lookup-put r.env.peer.id one.peer.id first.at h.last_register
                  ∙ ground (arith, same_one, same_refl one.peer.id)) in
            let last = last-run one.peer.id first.at between (handled first h) stamped all_soon in
            elim (last-handled one.peer.id first.at second (run between (handled first h)) last
              soon) [
                | inl e ↦ e
                | inr (three, d3, other, _) ↦
                    absurd (other (ap (λ e. e.peer.id) (some_inj (sym d3 ∙ d2)) ∙ same_id))
              ]
      ]
