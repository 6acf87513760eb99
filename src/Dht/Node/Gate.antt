-- ===== src/Dht/Node/Gate.antt =====
-- pkg/dht/server.go, `Node.handleMessage`, case `MsgRegisterNode`: who is admitted.
use local_web.Base.{
  ℕ, ◌%◌, ◌≡◌, refl, true, List, ◌∷◌, ◌++◌, some, arith, Bytes, same_iff, if◌then◌else◌, ◌⊎◌, inl,
  inr, Option-cases, Bool-cases, length, ==_iff, same, [], sym,
}
use local_web.Dht.Wire.{Registration, decode_register, registration_challenge}
use local_web.Dht.Wire.Laws.{challenge_ambiguous}
use local_web.Dht.Pow.{verify_pow}
use local_web.Dht.Node.Held.{held, held-admit}
use local_web.Dht.Node.{
  msg_register_node, Node, Message, SimplePeer, handle_message, store_value, register_node, admit,
  registered, accepts, decode_store,
}

module _ (sha3_hash : Bytes → Bytes) (marshal_gob : List SimplePeer → Bytes) where
  -- The payload is a registration whose proof of work holds, by the peer that it announces.
  pub record Announces (msg : Message) (id : Bytes) : Type 0 where
    pub registration : Registration
    pub decoded : decode_register msg.payload ≡ some registration
    pub worked :
        verify_pow sha3_hash
          (registration_challenge registration.pub_key registration.name registration.addrs)
          registration.nonce
          registration.difficulty
        ≡ true
    pub from_sender : msg.src ≡ sha3_hash registration.pub_key
    pub is_sender : id ≡ msg.src

  registered_or_same :
      (now : ℕ) (msg : Message) (n : Node) (j : Bytes)
      → (held j (register_node sha3_hash marshal_gob now msg n) ≡ held j n) ⊎ Announces msg j
  unfolding register_node accepts registered
  registered_or_same now msg n j = elim (Option-cases (decode_register msg.payload)) [
    | inl e ↦ rw (e, register_node) (inl refl)
    | inr (r, e) ↦ rw (e, register_node) (decided r e)
  ]
    where
      announced :
          (r : Registration)
          → decode_register msg.payload ≡ some r
          → accepts sha3_hash marshal_gob msg r ≡ true
          → j ≡ msg.src
          → Announces msg j
      announced r e a s = record {
        registration = r;
        decoded = e;
        worked = ground arith;
        from_sender = ground (arith, same_iff msg.src (sha3_hash r.pub_key));
        is_sender = s;
      }

      decided :
          (r : Registration)
          → decode_register msg.payload ≡ some r
          → (held j (
                if accepts sha3_hash marshal_gob msg r
                then admit now (registered now msg.src r) n
                else n)
              ≡ held j n)
            ⊎ Announces msg j
      decided r e = elim (Bool-cases (accepts sha3_hash marshal_gob msg r)) [
        | inr no_work ↦ rw no_work (inl refl)
        | inl fine ↦ elim (Bool-cases (same msg.src j)) [
          | inl sender ↦ inr (announced r e fine (sym ((same_iff msg.src j).0 sender)))
          | inr other ↦ rw fine (inl (held-admit now (registered now msg.src r) n j other))
        ]
      ]

  held-store_value :
      (msg : Message) (n : Node) (j : Bytes)
      → held j (store_value sha3_hash marshal_gob msg n) ≡ held j n
  unfolding store_value
  held-store_value msg n j = elim (Bool-cases (same (decode_store msg.payload).0 [])) [
    | inl e ↦ rw e refl
    | inr e ↦ rw e refl
  ]

  -- Whatever the message, what a node holds of an id, in its map of the peers and in its routing table,
  -- stays as it is, or the message is a registration that the peer of that id sent itself and for which it
  -- did the work.
  pub gate :
      (now : ℕ) (msg : Message) (n : Node) (j : Bytes)
      → (held j (handle_message sha3_hash marshal_gob now msg n).1 ≡ held j n)
        ⊎ ((msg.msg_type ≡ msg_register_node) × Announces msg j)
  unfolding handle_message
  gate now msg n j = ground (
    arith,
    ==_iff msg.msg_type msg_register_node,
    registered_or_same now msg n j,
    held-store_value msg n j,
  )

  -- The gate does not tell a registration from one in which the first address has been moved into the
  -- name.
  pub accepts_moved :
      (msg : Message) (r : Registration) (a : Bytes) (addrs : List Bytes)
      → accepts sha3_hash marshal_gob msg (record r { addrs = a ∷ addrs })
        ≡ accepts sha3_hash marshal_gob msg
            (record r { name = r.name ++ ((length a % 256) ∷ a); addrs = addrs })
  unfolding accepts
  accepts_moved msg r a addrs = rw (challenge_ambiguous r.pub_key r.name a addrs)
