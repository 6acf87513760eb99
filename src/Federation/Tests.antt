-- ===== src/Federation/Tests.antt =====
-- pkg/federation: a peer registers at a new server, under codecs for one registration and a hash of zeros.
use local_web.Base.{
  ℕ, ◌≡◌, ◌≢◌, refl, Bool, true, [], ◌∷◌, Option, some, arith, codes, Bytes, IsBytes, sym, ◌∙◌, ap,
  lookup, if◌then◌else◌, same,
}
use local_web.Base.Wire.{zeros, uint}
use local_web.Dht.Pow.{verify_pow, meets}
use local_web.Federation.Store.{PeerInfo}
use local_web.Federation.Limits.{validate_peer}
use local_web.Federation.Handler.{
  Registration, HttpHandler, new_http_handler, handle_register, post_method,
}
use local_web.Federation.Handler.Laws.{
  Request, handled, IsStore, handle_register-IsStore, register_once,
}

abbrev peer : PeerInfo
peer = record {
  id = zeros 32;
  public_key = zeros 32;
  name = codes "alice";
  addrs = codes "10.0.0.1:4000" ∷ [];
  services = [];
  source = [];
  rssi = 0;
  latency = 0;
  score = 0;
  last_seen = 0;
  first_seen = 0;
  version = [];
}

abbrev registration : Registration
registration = record { peer = peer; nonce = zeros 8 }

-- Every body is the registration of the peer, but one is that of another.
abbrev decode : Bytes → Option Registration
decode body =
    if same body (codes "b")
    then some (record { peer = record peer { id = codes "b" }; nonce = zeros 8 })
    else some registration

abbrev encode : PeerInfo → Option Bytes
encode p = some p.name

abbrev splits : Bytes → Bool
splits a = true

abbrev sha3 : Bytes → Bytes
sha3 s = zeros 32

abbrev server : HttpHandler
server = new_http_handler 8

abbrev after : HttpHandler
after = (handle_register sha3 decode encode splits 100 post_method (codes "x") server).0

handle_register-IsStore_example : IsStore splits after.store
handle_register-IsStore_example =
    handle_register-IsStore sha3 decode encode splits 100 post_method (codes "x") server tt

abbrev count : HttpHandler → ℕ
count h = elim h.store [ [] ↦ 0 | e ∷ es ↦ 1 ]

one_stored : count after ≡ 1
unfolding handle_register verify_pow meets validate_peer uint
one_stored = refl

registered : after ≢ server
registered e = let counted : 1 ≡ 0 = sym one_stored ∙ ap count e in absurd (omega (arith, counted))

abbrev posted : ℕ → Bytes → Request
posted at body = record { at = at; method = post_method; body = body }

-- The peer, another, the peer again.
abbrev between : HttpHandler
between = handled sha3 decode encode splits (posted 300 (codes "b")) after

two_stored : lookup (codes "b") between.last_register ≡ some 300
unfolding handle_register verify_pow meets validate_peer uint
two_stored = refl

register_once_example : handled sha3 decode encode splits (posted 500 (codes "y")) between ≡ between
register_once_example =
    register_once sha3 decode encode splits (posted 100 (codes "x")) (posted 500 (codes "y"))
      (posted 300 (codes "b") ∷ []) server registration registration refl refl refl registered
      (omega arith, tt) (omega arith)

abbrev id_bytes : Bytes
id_bytes = zeros 32

id_bytes-IsBytes : IsBytes id_bytes
id_bytes-IsBytes = ground arith
