-- ===== src/Dht/Wire/Laws.antt =====
-- pkg/dht/dht.go: the payloads of store and registration messages, read back.
use mathlib.Core.List.{append_assoc}
use local_web.Base.{
  ℕ, zero, suc, ◌+◌, ◌*◌, ◌%◌, ◌^◌, ◌<◌, ◌≤◌, ◌≡◌, refl, ap, ◌∙◌, false, List, [], ◌∷◌, ◌++◌,
  Option, none, some, arith, Bytes, ltb, length, take, drop, length-append, take-length_append,
  drop-length_append, take_all, length-drop, All, drop_all,
}
use local_web.Base.Wire.{put_uint, uint, zeros, length-put_uint, uint-put_uint}
use local_web.Dht.Wire.{
  encode_store, decode_store, registration_challenge, challenge_addrs, addr_block, encode_register,
  decode_register, decode_addrs, Registration,
}

-- What follows a part of known length.
take_part : (n : ℕ) (xs ys : Bytes) → length xs ≡ n → take n (xs ++ ys) ≡ xs
take_part n xs ys h = rw (← h) (take-length_append xs ys)

drop_part : (n : ℕ) (xs ys : Bytes) → length xs ≡ n → drop n (xs ++ ys) ≡ ys
drop_part n xs ys h = rw (← h) (drop-length_append xs ys)

store_parts :
    (a key value : Bytes)
    → length a ≡ 2
    → uint 0 a ≡ length key
    → decode_store (a ++ (key ++ value)) ≡ (key, value)
unfolding decode_store
store_parts a key value l u = ground (
  arith,
  length-append a (key ++ value),
  length-append key value,
  take_part 2 a (key ++ value) l,
  drop_part 2 a (key ++ value) l,
  take-length_append key value,
  append_assoc a key value,
  drop_part (2 + length key) (a ++ key) value (omega (arith, length-append a key)),
)

-- A store payload is read back, if the key fits its length prefix.
pub decode-encode_store :
    (key value : Bytes) → length key < 2 ^ 16 → decode_store (encode_store key value) ≡ (key, value)
unfolding encode_store
decode-encode_store key value h =
    store_parts (put_uint 2 (length key)) key value (length-put_uint 2 (length key))
      (uint-put_uint 2 (length key) h)

-- The challenge does not say where the name ends: an address can be moved into the name, with its
-- length byte, and the challenge, and so the proof of work for it, stays the same.
pub challenge_ambiguous :
    (pub_key name a : Bytes) (addrs : List Bytes)
    → registration_challenge pub_key (name ++ ((length a % 256) ∷ a)) addrs
      ≡ registration_challenge pub_key name (a ∷ addrs)
unfolding registration_challenge challenge_addrs
challenge_ambiguous pub_key name a addrs =
    ap (◌++◌ pub_key) (append_assoc name ((length a % 256) ∷ a) (challenge_addrs addrs))

decode_addrs_two :
    (f g : ℕ) (block : Bytes)
    → length block ≤ f
    → length block ≤ g
    → decode_addrs f block ≡ decode_addrs g block
unfolding decode_addrs
decode_addrs_two zero zero block h k = refl
decode_addrs_two zero (suc g) [] h k = refl
decode_addrs_two zero (suc g) (a ∷ b) h k = absurd (omega arith)
decode_addrs_two (suc f) zero [] h k = refl
decode_addrs_two (suc f) zero (a ∷ b) h k = absurd (omega arith)
decode_addrs_two (suc f) (suc g) [] h k = refl
decode_addrs_two (suc f) (suc g) (a ∷ []) h k = refl
decode_addrs_two (suc f) (suc g) (a ∷ b ∷ rest) h k = rw (
    decode_addrs_two f g (drop (a * 256 + b) rest) (omega (arith, length-drop (a * 256 + b) rest))
      (omega (arith, length-drop (a * 256 + b) rest)))

-- The loop over the addresses has enough fuel with the length of its block.
pub decode_addrs_fuel :
    (fuel : ℕ) (block : Bytes)
    → length block ≤ fuel
    → decode_addrs fuel block ≡ decode_addrs (length block) block
decode_addrs_fuel fuel block h = decode_addrs_two fuel (length block) block h (omega arith)

decode_pair :
    (fuel n hi lo : ℕ) (a : Bytes)
    → hi * 256 + lo ≡ n
    → n ≡ length a
    → 0 < n
    → decode_addrs (suc fuel) (hi ∷ lo ∷ a) ≡ some (a ∷ [])
unfolding decode_addrs
decode_pair zero n hi lo a e l pos =
    rw e (ground (arith, take_all n a (omega arith), drop_all n a (omega arith)))
decode_pair (suc fuel) n hi lo a e l pos =
    rw e (ground (arith, take_all n a (omega arith), drop_all n a (omega arith)))

decode_one_addr :
    (a : Bytes)
    → 0 < length a
    → length a < 2 ^ 16
    → decode_addrs (length (put_uint 2 (length a) ++ a)) (put_uint 2 (length a) ++ a)
      ≡ some (a ∷ [])
unfolding put_uint
decode_one_addr a pos h = decode_pair _ (length a) _ _ a (omega arith) refl pos

-- The address list that a registration carries: its first address.
abbrev pub first_addr : List Bytes → List Bytes
first_addr [] = []
first_addr (a ∷ addrs) = a ∷ []

decode_block :
    (addrs : List Bytes)
    → All (λ a. (0 < length a) × (length a + 2 < 2 ^ 16)) addrs
    → (decode_addrs (length (addr_block addrs)) (addr_block addrs) ≡ some (first_addr addrs))
      × (length (addr_block addrs) < 2 ^ 16)
unfolding addr_block
decode_block [] h = (unfold decode_addrs in refl, omega arith)
decode_block (a ∷ addrs) h = rw (not_long) (
  decode_one_addr a h.0.0 (omega (arith, h.0.1)),
  omega (arith, length-append (put_uint 2 (length a)) a, length-put_uint 2 (length a), h.0.1),
)
  where
    not_long : ltb 65535 (length a) ≡ false
    not_long = ground (arith, h.0.1)

abbrev with_addrs : Bytes → Bytes → ℕ → Bytes → Option (List Bytes) → Option Registration
with_addrs k n d name none = none
with_addrs k n d name (some addrs) =
    some (record { pub_key = k; nonce = n; difficulty = d; name = name; addrs = addrs })

register_by :
    (p k n name block : Bytes) (d : ℕ)
    → length p ≡ 45 + length name + length block
    → take 32 p ≡ k
    → take 8 (drop 32 p) ≡ n
    → uint 0 (take 1 (drop 40 p)) ≡ d
    → uint 0 (take 2 (drop 41 p)) ≡ length name
    → take (length name) (drop 43 p) ≡ name
    → uint 0 (take 2 (drop (43 + length name) p)) ≡ length block
    → take (length block) (drop (43 + length name + 2) p) ≡ block
    → decode_register p ≡ with_addrs k n d name (decode_addrs (length block) block)
unfolding decode_register
register_by p k n name block d lp e1 e2 e3 e4 e5 e6 e7 = ground arith

drop_at : (m : ℕ) (p front back : Bytes) → p ≡ front ++ back → length front ≡ m → drop m p ≡ back
drop_at m p front back e h = rw e (drop_part m front back h)

-- The parts of the layout, one behind the other.
module _ (k n nl name bl block : Bytes) (d : ℕ) (lk : length k ≡ 32) (ln : length n ≡ 8)
    (lnl : length nl ≡ 2) (lbl : length bl ≡ 2) where
  abbrev layout : Bytes
  layout = k ++ (n ++ (d ∷ (nl ++ (name ++ (bl ++ block)))))

  register_parts :
      uint 0 nl ≡ length name
      → uint 0 bl ≡ length block
      → decode_register layout ≡ with_addrs k n d name (decode_addrs (length block) block)
  register_parts un ub =
      register_by layout k n name block d size (take_part 32 k _ lk)
        (ap (take 8) (drop_part 32 k _ lk) ∙ take_part 8 n _ ln)
        (ap (λ (x : Bytes). uint 0 (take 1 x)) at_difficulty ∙ unfold uint in omega arith)
        (ap (λ (x : Bytes). uint 0 (take 2 x)) at_name_len
          ∙ ap (uint 0) (take_part 2 nl _ lnl)
          ∙ un)
        (ap (take (length name)) at_name ∙ take-length_append name _)
        (ap (λ (x : Bytes). uint 0 (take 2 x)) at_block_len
          ∙ ap (uint 0) (take_part 2 bl _ lbl)
          ∙ ub)
        (ap (take (length block)) at_block ∙ take_all (length block) block (omega arith))
    where
      size : length layout ≡ 45 + length name + length block
      size = omega (
        arith,
        length-append k (n ++ (d ∷ (nl ++ (name ++ (bl ++ block))))),
        length-append n (d ∷ (nl ++ (name ++ (bl ++ block)))),
        length-append nl (name ++ (bl ++ block)),
        length-append name (bl ++ block),
        length-append bl block,
      )

      at_difficulty : drop 40 layout ≡ d ∷ (nl ++ (name ++ (bl ++ block)))
      at_difficulty =
          drop_at 40 layout (k ++ n) _ (simp append_assoc) (omega (arith, length-append k n))

      at_name_len : drop 41 layout ≡ nl ++ (name ++ (bl ++ block))
      at_name_len =
          drop_at 41 layout (k ++ (n ++ (d ∷ []))) _ (simp append_assoc)
            (omega (arith, length-append k (n ++ (d ∷ [])), length-append n (d ∷ [])))

      at_name : drop 43 layout ≡ name ++ (bl ++ block)
      at_name =
          drop_at 43 layout (k ++ (n ++ (d ∷ nl))) _ (simp append_assoc)
            (omega (arith, length-append k (n ++ (d ∷ nl)), length-append n (d ∷ nl)))

      at_block_len : drop (43 + length name) layout ≡ bl ++ block
      at_block_len = drop_at _ layout (k ++ (n ++ (d ∷ (nl ++ name)))) _ (simp append_assoc) (
          omega (
            arith,
            length-append k (n ++ (d ∷ (nl ++ name))),
            length-append n (d ∷ (nl ++ name)),
            length-append nl name,
          ))

      at_block : drop (43 + length name + 2) layout ≡ block
      at_block = drop_at _ layout (k ++ (n ++ (d ∷ (nl ++ (name ++ bl))))) _ (simp append_assoc) (
          omega (
            arith,
            length-append k (n ++ (d ∷ (nl ++ (name ++ bl)))),
            length-append n (d ∷ (nl ++ (name ++ bl))),
            length-append nl (name ++ bl),
            length-append name bl,
          ))

-- A registration whose parts fit the format is read back with its first address only.
pub decode-encode_register :
    (public_key name nonce : Bytes) (addrs : List Bytes) (difficulty : ℕ)
    → length public_key ≡ 32
    → length nonce ≡ 8
    → length name < 2 ^ 16
    → difficulty < 256
    → All (λ a. (0 < length a) × (length a + 2 < 2 ^ 16)) addrs
    → decode_register (encode_register public_key name addrs nonce difficulty)
      ≡ some (record {
        pub_key = public_key;
        nonce = nonce;
        difficulty = difficulty;
        name = name;
        addrs = first_addr addrs;
      })
unfolding encode_register
decode-encode_register public_key name nonce addrs difficulty lk ln lm ld each =
    rw
      (
        take_all 65535 name (omega arith),
        take_all 32 public_key (omega arith),
        take_part 8 nonce (zeros 8) ln,
        small,
      )
      (register_parts public_key nonce (put_uint 2 (length name)) name
          (put_uint 2 (length (addr_block addrs))) (addr_block addrs) difficulty lk ln
          (length-put_uint 2 (length name)) (length-put_uint 2 (length (addr_block addrs)))
          (uint-put_uint 2 (length name) lm)
          (uint-put_uint 2 (length (addr_block addrs)) (decode_block addrs each).1)
        ∙ rw (decode_block addrs each).0)
  where
    small : difficulty % 256 ≡ difficulty
    small = omega arith
