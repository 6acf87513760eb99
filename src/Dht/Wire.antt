-- ===== src/Dht/Wire.antt =====
-- pkg/dht/dht.go: the payloads of store and registration messages.
pub mod Laws
use local_web.Base.{
  ℕ, zero, suc, ◌+◌, ◌*◌, ◌%◌, ◌≡◌, Bool, true, false, ◌||◌, List, [], ◌∷◌, ◌++◌, Option, none,
  some, Bytes, ◌==◌, ltb, length, take, drop, if◌then◌else◌,
}
use local_web.Base.Wire.{put_uint, uint, zeros}

unfoldable pub encode_store : Bytes → Bytes → Bytes
encode_store key value = put_uint 2 (length key) ++ (key ++ value)

-- A payload that is too short reads as the empty key.
unfoldable pub decode_store : Bytes → Bytes × Bytes
decode_store payload =
    if ltb (length payload) 2
    then ([], [])
    else let k_len = uint 0 (take 2 payload) in
      if ltb (length payload) (2 + k_len)
      then ([], [])
      else (take k_len (drop 2 payload), drop (2 + k_len) payload)

unfoldable pub challenge_addrs : List Bytes → Bytes
challenge_addrs [] = []
challenge_addrs (a ∷ addrs) = (length a % 256) ∷ (a ++ challenge_addrs addrs)

unfoldable pub registration_challenge : Bytes → Bytes → List Bytes → Bytes
unfolding challenge_addrs
registration_challenge pub_key name addrs = pub_key ++ (name ++ challenge_addrs addrs)

-- The block of addresses: the loop breaks at the second one.
unfoldable pub addr_block : List Bytes → Bytes
addr_block [] = []
addr_block (a ∷ addrs) = if ltb 65535 (length a) then [] else put_uint 2 (length a) ++ a

unfoldable pub encode_register : Bytes → Bytes → List Bytes → Bytes → ℕ → Bytes
unfolding addr_block
encode_register public_key full_name addrs nonce difficulty =
    let name = take 65535 full_name in
    let block = addr_block addrs in
    take 32 public_key
    ++ (take 8 (nonce ++ zeros 8)
        ++ ((difficulty % 256)
            ∷ (put_uint 2 (length name) ++ (name ++ (put_uint 2 (length block) ++ block)))))

pub record Registration : Type 0 where
  pub pub_key : Bytes
  pub nonce : Bytes
  pub difficulty : ℕ
  pub name : Bytes
  pub addrs : List Bytes

-- The loop over the address block, which it leaves with an error where `none` stands.
unfoldable pub decode_addrs : ℕ → Bytes → Option (List Bytes)
decode_addrs fuel [] = some []
decode_addrs fuel (h ∷ []) = none
decode_addrs zero (h ∷ l ∷ rest) = none
decode_addrs (suc fuel) (h ∷ l ∷ rest) =
    let n = h * 256 + l in
    let others = decode_addrs fuel (drop n rest) in
    if n == 0 || ltb (length rest) n
    then none
    else elim others [ none ↦ none | some addrs ↦ some (take n rest ∷ addrs) ]

-- `none` is the result with `ok` false.
unfoldable pub decode_register : Bytes → Option Registration
unfolding decode_addrs
decode_register payload =
    if ltb (length payload) 43
    then none
    else let name_len = uint 0 (take 2 (drop 41 payload)) in
      if ltb (length payload) (43 + name_len + 2)
      then none
      else let addr_base = 43 + name_len in
        let addr_len = uint 0 (take 2 (drop addr_base payload)) in
        let block = take addr_len (drop (addr_base + 2) payload) in
        if ltb (length payload) (addr_base + 2 + addr_len)
        then none
        else elim (decode_addrs (length block) block) [
          | none ↦ none
          | some addrs ↦ some (record {
            pub_key = take 32 payload;
            nonce = take 8 (drop 32 payload);
            difficulty = uint 0 (take 1 (drop 40 payload));
            name = take name_len (drop 43 payload);
            addrs = addrs;
          })
        ]
