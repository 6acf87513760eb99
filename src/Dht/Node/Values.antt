-- ===== src/Dht/Node/Values.antt =====
-- pkg/dht/server.go, `Node.handleMessage`: the values that a node stores and hands out.
use local_web.Base.{
  ℕ, ◌≡◌, ◌≢◌, List, [], some, arith, Bytes, same, same_iff, same_refl, lookup, lookup-put,
  if◌then◌else◌, inl, inr,
}
use local_web.Base.{Option-cases}
use local_web.Dht.Bucket.{PeerInfo}
use local_web.Dht.Wire.{decode_register, encode_store, decode_store}
use local_web.Dht.Node.{
  Node, Message, SimplePeer, handle_message, store_value, find_value, register_node, admit,
  registered, msg_store, msg_find_value, msg_found_value,
}

store-admit : (now : ℕ) (pi : PeerInfo) (n : Node) → (admit now pi n).store ≡ n.store
unfolding admit
store-admit now pi n = ground arith

module _ (sha3_hash : Bytes → Bytes) (marshal_gob : List SimplePeer → Bytes) where
  lookup-store_value :
      (msg : Message) (n : Node) (k : Bytes)
      → lookup k (store_value sha3_hash marshal_gob msg n).store ≡ (
          if same (decode_store msg.payload).0 []
          then lookup k n.store
          else if same (decode_store msg.payload).0 k
          then some (decode_store msg.payload).1
          else lookup k n.store)
  unfolding store_value
  lookup-store_value msg n k =
      ground (arith, lookup-put (decode_store msg.payload).0 k (decode_store msg.payload).1 n.store)

  id-store_value : (msg : Message) (n : Node) → (store_value sha3_hash marshal_gob msg n).id ≡ n.id
  unfolding store_value
  id-store_value msg n = ground arith

  store-register_node :
      (now : ℕ) (msg : Message) (n : Node)
      → (register_node sha3_hash marshal_gob now msg n).store ≡ n.store
  unfolding register_node
  store-register_node now msg n = elim (Option-cases (decode_register msg.payload)) [
    | inl e ↦ rw (e, register_node)
    | inr (r, e) ↦
        rw (e, register_node) (ground (arith, store-admit now (registered now msg.src r) n))
  ]

  -- A find-value request for a key that is not empty, handled right after a store request for it, is
  -- answered with the value of that request.
  pub find-store :
      (now later : ℕ) (put_msg get_msg : Message) (n : Node)
      → put_msg.msg_type ≡ msg_store
      → get_msg.msg_type ≡ msg_find_value
      → (decode_store put_msg.payload).0 ≢ []
      → (decode_store get_msg.payload).0 ≡ (decode_store put_msg.payload).0
      → (handle_message sha3_hash marshal_gob later get_msg
          (handle_message sha3_hash marshal_gob now put_msg n).1).0
        ≡ record {
          msg_type = msg_found_value;
          src = n.id;
          dst = get_msg.src;
          payload = encode_store (decode_store put_msg.payload).0 (decode_store put_msg.payload).1;
        }
  find-store now later put_msg get_msg n is_put is_get nonempty same_key =
      unfold handle_message find_value in
      ground (
        arith,
        same_key,
        same_iff (decode_store put_msg.payload).0 [],
        same_refl (decode_store put_msg.payload).0,
        lookup-store_value put_msg n (decode_store put_msg.payload).0,
        id-store_value put_msg n,
      )

  -- A request of another type than store leaves the values alone.
  pub store_kept :
      (now : ℕ) (msg : Message) (n : Node)
      → msg.msg_type ≢ msg_store
      → (handle_message sha3_hash marshal_gob now msg n).1.store ≡ n.store
  unfolding handle_message
  store_kept now msg n other = ground (arith, store-register_node now msg n)
