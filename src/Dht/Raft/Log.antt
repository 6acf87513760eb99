-- ===== src/Dht/Raft/Log.antt =====
-- pkg/dht/raft.go: the log of a node through any sequence of its operations.
use mathlib.Core.Path.{subst}
use local_web.Base.{
  put, length-append, ℕ, suc, ◌+◌, ◌%◌, ◌^◌, ◌≤◌, ◌<◌, ◌≡◌, refl, sym, ◌∙◌, inl, inr, true, false,
  ◌&&◌, List, [], ◌∷◌, ◌++◌, Option, none, some, some_inj, arith, Bytes, length, if◌then◌else◌,
  Bool-cases, Option-cases,
}
use local_web.Dht.Raft.{
  RaftNode, RaftLogEntry, RpcClient, new_raft, add_peer, become_candidate, propose, is_leader,
}
use local_web.Dht.Raft.Election.{won, has_client, has_peers, become_candidate_lem}

pub data Op : Type 0 where
  add_peer_op : Bytes → Bytes → Op
  election_op : Op
  propose_op : Bytes → Op

abbrev pub step : Op → RaftNode → Option RaftNode
step (add_peer_op id addr) n = add_peer id addr n
step election_op n = become_candidate n
step (propose_op entry) n = elim (propose entry n) [ none ↦ none | some (m, accepted) ↦ some m ]

-- The node after a sequence of operations, each of which returns.
abbrev pub run : List Op → RaftNode → Option RaftNode
run [] n = some n
run (op ∷ ops) n = elim (step op n) [ none ↦ none | some m ↦ run ops m ]

-- The entries from an index on: their indices follow one another, and the terms rise from one bound to another.
abbrev pub IsLog : ℕ → ℕ → ℕ → List RaftLogEntry → Type 0
IsLog i low high [] = low ≤ high
IsLog i low high (e ∷ es) = (e.index ≡ i) × (low ≤ e.term) × IsLog (i + 1) e.term high es

IsLog-raise :
    (i low high higher : ℕ) (es : List RaftLogEntry)
    → high ≤ higher
    → IsLog i low high es
    → IsLog i low higher es
IsLog-raise i low high higher [] h k = omega arith
IsLog-raise i low high higher (e ∷ es) h k =
    (k.0, k.1, IsLog-raise (i + 1) e.term high higher es h k.2)

IsLog-snoc :
    (i low high : ℕ) (es : List RaftLogEntry) (e : RaftLogEntry)
    → e.index ≡ i + length es
    → e.term ≡ high
    → IsLog i low high es
    → IsLog i low high (es ++ (e ∷ []))
IsLog-snoc i low high [] e h t k = (omega (arith, h), omega (arith, t, k), omega (arith, t))
IsLog-snoc i low high (x ∷ es) e h t k =
    (k.0, k.1, IsLog-snoc (i + 1) x.term high es e (omega (arith, h)) t k.2)

-- Free, with the log in order, and with room for `left` more operations.
record IsRaft (left : ℕ) (n : RaftNode) : Type 0 where
  free : n.locked ≡ false
  in_order : IsLog 1 0 n.term n.log
  term_room : n.term + left < 2 ^ 64
  log_room : length n.log + left < 2 ^ 64

abbrev proposed : Bytes → RaftNode → RaftNode
proposed entry n = record n {
  log =
      n.log
      ++ (record { term = n.term; index = (length n.log + 1) % 2 ^ 64; data_bytes = entry } ∷ []);
}

add_peer_lem :
    (id addr : Bytes) (n : RaftNode)
    → n.locked ≡ false
    → add_peer id addr n
      ≡ some (record n { peers = put id (record { id = id; addr = addr }) n.peers })
unfolding add_peer
add_peer_lem id addr n k = rw (add_peer, k) refl

propose_lem :
    (entry : Bytes) (n : RaftNode)
    → n.locked ≡ false
    → propose entry n
      ≡ (if is_leader n.state then some (proposed entry n, true) else some (n, false))
unfolding propose
propose_lem entry n k = elim (Bool-cases (is_leader n.state)) [
  | inl f ↦ rw (propose, k, f) refl
  | inr f ↦ rw (propose, k, f) refl
]

proposed-IsRaft :
    (left : ℕ) (entry : Bytes) (n : RaftNode) → IsRaft (suc left) n → IsRaft left (proposed entry n)
proposed-IsRaft left entry n k = record {
  free = k.free;
  in_order = IsLog-snoc 1 0 n.term n.log _ (omega (arith, k.log_room)) refl k.in_order;
  term_room = omega (arith, k.term_room);
  log_room = omega (arith, k.log_room, length-append n.log _);
}

stay-IsRaft : (left : ℕ) (n : RaftNode) → IsRaft (suc left) n → IsRaft left n
stay-IsRaft left n k = record {
  free = k.free;
  in_order = k.in_order;
  term_room = omega (arith, k.term_room);
  log_room = omega (arith, k.log_room);
}

won-IsRaft : (left : ℕ) (n : RaftNode) → IsRaft (suc left) n → IsRaft left (won n)
won-IsRaft left n k =
    let next : (n.term + 1) % 2 ^ 64 ≡ n.term + 1 = omega (arith, k.term_room) in
    record {
      free = k.free;
      in_order = IsLog-raise 1 0 n.term _ n.log (omega (arith, next)) k.in_order;
      term_room = omega (arith, next, k.term_room);
      log_room = omega (arith, k.log_room);
    }

step-IsRaft :
    (left : ℕ) (op : Op) (n m : RaftNode) → IsRaft (suc left) n → step op n ≡ some m → IsRaft left m
step-IsRaft left (add_peer_op id addr) n m k e =
    let same : _ ≡ m = some_inj (sym (add_peer_lem id addr n k.free) ∙ e) in
    subst (IsRaft left) same (record {
      free = k.free;
      in_order = k.in_order;
      term_room = omega (arith, k.term_room);
      log_room = omega (arith, k.log_room);
    })
step-IsRaft left election_op n m k e = elim (Bool-cases (is_leader n.state)) [
  | inl f ↦
      subst (IsRaft left) (ground (arith, become_candidate_lem n k.free, e, f))
        (stay-IsRaft left n k)
  | inr f ↦ elim (Bool-cases (has_client n && has_peers n.peers)) [
    | inl g ↦ absurd (ground (arith, become_candidate_lem n k.free, e, f, g))
    | inr g ↦
        subst (IsRaft left) (ground (arith, become_candidate_lem n k.free, e, f, g))
          (won-IsRaft left n k)
  ]
]
step-IsRaft left (propose_op entry) n m k e = elim (Bool-cases (is_leader n.state)) [
  | inl f ↦
      subst (IsRaft left) (ground (arith, propose_lem entry n k.free, e, f))
        (proposed-IsRaft left entry n k)
  | inr f ↦
      subst (IsRaft left) (ground (arith, propose_lem entry n k.free, e, f)) (stay-IsRaft left n k)
]

run-IsRaft :
    (left : ℕ) (ops : List Op) (n m : RaftNode)
    → IsRaft (length ops + left) n
    → run ops n ≡ some m
    → IsRaft left m
run-IsRaft left [] n m k e =
    let here : IsRaft left n = subst (λ j. IsRaft j n) (omega arith) k in
    subst (IsRaft left) (some_inj e) here
run-IsRaft left (op ∷ ops) n m k e = elim (Option-cases (step op n)) [
  | inl f ↦ absurd (ground (arith, e, f))
  | inr (n', f) ↦
      let before : IsRaft (suc (length ops + left)) n = subst (λ j. IsRaft j n) (omega arith) k in
      run-IsRaft left ops n' m (step-IsRaft (length ops + left) op n n' before f)
        (ground (arith, e, f))
]

-- After fewer than 2^64 operations on a new node, as long as each returns, the indices in its log run from
-- 1, the terms do not fall from an entry to the next, no entry is of a later term than the node's own, and
-- the mutex is free.
pub run-IsLog :
    (id : Bytes) (rpc : Option RpcClient) (ops : List Op) (m : RaftNode)
    → length ops < 2 ^ 64
    → run ops (new_raft id rpc) ≡ some m
    → IsLog 1 0 m.term m.log × (m.locked ≡ false)
run-IsLog id rpc ops m h e =
    let k =
      run-IsRaft 0 ops (new_raft id rpc) m
        (record {
          free = refl;
          in_order = omega arith;
          term_room = omega (arith, h);
          log_room = omega (arith, h);
        })
        e in
    (k.in_order, k.free)
