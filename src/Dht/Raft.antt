-- ===== src/Dht/Raft.antt =====
-- pkg/dht/raft.go: the election, the log and the messages of `RaftNode`.
--
-- The mutex is a part of the state. `none` is a call that waits for it for ever: no other goroutine
-- holds it, and the one that does is the one that waits. The RPC client is a parameter, `none` for nil. A
-- map of peers is an association list in the order in which `range` visits it. The goroutine of `Start`,
-- its timers and the context are left out: what they call is `become_candidate`.
pub mod Election
pub mod Log
mod Tests
use local_web.Base.{
  ℕ, ◌+◌, ◌/◌, ◌%◌, ◌^◌, Bool, true, false, List, [], ◌∷◌, ◌++◌, Option, none, some, Bytes, ltb,
  length, take, drop, Dict, put, if◌then◌else◌, get_elem?, ◌==◌,
}
use local_web.Base.Wire.{put_uint, uint}
use local_web.Dht.Node.{Message}

pub data RaftState : Type 0 where
  follower : RaftState
  candidate : RaftState
  leader : RaftState

abbrev pub is_leader : RaftState → Bool
is_leader follower = false
is_leader candidate = false
is_leader leader = true

abbrev pub is_candidate : RaftState → Bool
is_candidate follower = false
is_candidate candidate = true
is_candidate leader = false

pub record RaftLogEntry : Type 0 where
  pub term : ℕ
  pub index : ℕ
  pub data_bytes : Bytes

pub record RaftVoteResponse : Type 0 where
  pub term : ℕ
  pub vote_granted : Bool

pub record RaftPeer : Type 0 where
  pub id : Bytes
  pub addr : Bytes

-- `RPCClient.Call`, with `none` for an error.
abbrev pub RpcClient : Type 0
RpcClient = Bytes → Message → Option Message

-- `commitIndex` and `lastApplied`, which nothing changes, are left out with the timers.
pub record RaftNode : Type 0 where
  pub locked : Bool
  pub id : Bytes
  pub term : ℕ
  pub voted_for : Option Bytes
  pub state : RaftState
  pub log : List RaftLogEntry
  pub peers : Dict RaftPeer
  pub rpc_client : Option RpcClient
  pub leader_id : Bytes

abbrev pub zero_id : Bytes
zero_id =
    0 ∷ 0 ∷ 0 ∷ 0 ∷ 0 ∷ 0 ∷ 0 ∷ 0 ∷ 0 ∷ 0 ∷ 0 ∷ 0 ∷ 0 ∷ 0 ∷ 0 ∷ 0 ∷ 0 ∷ 0 ∷ 0 ∷ 0 ∷ 0 ∷ 0 ∷ 0 ∷ 0
    ∷ 0 ∷ 0 ∷ 0 ∷ 0 ∷ 0 ∷ 0 ∷ 0 ∷ 0 ∷ []

abbrev pub new_raft : Bytes → Option RpcClient → RaftNode
new_raft id rpc = record {
  locked = false;
  id = id;
  term = 0;
  voted_for = none;
  state = follower;
  log = [];
  peers = [];
  rpc_client = rpc;
  leader_id = zero_id;
}

abbrev pub lock : RaftNode → Option RaftNode
lock n = if n.locked then none else some (record n { locked = true })

abbrev pub unlock : RaftNode → RaftNode
unlock n = record n { locked = false }

unfoldable pub add_peer : Bytes → Bytes → RaftNode → Option RaftNode
add_peer id addr n0 = elim (lock n0) [
  | none ↦ none
  | some n ↦ some (unlock (record n { peers = put id (record { id = id; addr = addr }) n.peers }))
]

abbrev pub msg_raft_request_vote : ℕ
msg_raft_request_vote = 9

abbrev pub msg_raft_heartbeat : ℕ
msg_raft_heartbeat = 11

abbrev pub vote_request : RaftPeer → RaftNode → Message
vote_request peer n = record {
  msg_type = msg_raft_request_vote;
  src = n.id;
  dst = peer.id;
  payload = put_uint 8 n.term ++ (put_uint 8 0 ++ take 32 n.id);
}

-- The granting byte and the term of a response.
abbrev pub read_vote : Bytes → Option RaftVoteResponse
read_vote payload =
    if ltb (length payload) 9
    then none
    else some (record {
      term = uint 0 (take 8 payload);
      vote_granted = elim (get_elem? payload 8) [ none ↦ false | some g ↦ g == 1 ];
    })

-- `requestVote`: it takes the mutex and gives it back before it calls the peer. The inner `none` is an error.
unfoldable pub request_vote : RaftPeer → RaftNode → Option (RaftNode × Option RaftVoteResponse)
request_vote peer n0 = elim (lock n0) [
  | none ↦ none
  | some n ↦ elim n.rpc_client [
    | none ↦ some (unlock n, none)
    | some call ↦ elim (call peer.addr (vote_request peer n)) [
      | none ↦ some (unlock n, none)
      | some resp ↦ some (unlock n, read_vote resp.payload)
    ]
  ]
]

-- The loop over the peers. The inner `none` is an early return.
unfoldable pub collect_votes : Dict RaftPeer → ℕ → RaftNode → Option (RaftNode × Option ℕ)
unfolding request_vote
collect_votes [] votes n = some (n, some votes)
collect_votes ((k, peer) ∷ peers) votes n = elim (is_candidate n.state) [
  | false ↦ some (n, none)
  | true ↦ elim n.rpc_client [
    | none ↦ collect_votes peers (votes + 1) n
    | some call ↦ elim (request_vote peer n) [
      | none ↦ none
      | some (m, none) ↦ collect_votes peers votes m
      | some (m, some resp) ↦ elim (ltb m.term resp.term) [
        | true ↦ some (record m { term = resp.term; state = follower }, none)
        | false ↦ collect_votes peers (if resp.vote_granted then votes + 1 else votes) m
      ]
    ]
  ]
]

-- What the count of the votes does.
abbrev pub count_votes : ℕ → RaftNode → RaftNode
count_votes votes n =
    if ltb ((length n.peers + 1) / 2) votes
    then record n { state = leader; leader_id = n.id }
    else n

abbrev pub stand : RaftNode → RaftNode
stand n = record n { term = (n.term + 1) % 2 ^ 64; state = candidate; voted_for = some n.id }

unfoldable pub become_candidate : RaftNode → Option RaftNode
unfolding collect_votes
become_candidate n0 = elim (lock n0) [
  | none ↦ none
  | some n ↦ elim (is_leader n.state) [
    | true ↦ some (unlock n)
    | false ↦ elim (collect_votes n.peers 1 (stand n)) [
      | none ↦ none
      | some (m, none) ↦ some (unlock m)
      | some (m, some votes) ↦ some (unlock (count_votes votes m))
    ]
  ]
]

-- `Propose`, with `false` for its error.
unfoldable pub propose : Bytes → RaftNode → Option (RaftNode × Bool)
propose entry n0 = elim (lock n0) [
  | none ↦ none
  | some n ↦
      if is_leader n.state
      then some (
        unlock (record n {
          log =
              n.log
              ++ (record { term = n.term; index = (length n.log + 1) % 2 ^ 64; data_bytes = entry }
                  ∷ []);
        }),
        true,
      )
      else some (unlock n, false)
]

unfoldable pub leader_of : RaftNode → Option Bytes
leader_of n0 = elim (lock n0) [
  | none ↦ none
  | some n ↦ some (if is_leader n.state then n.id else n.leader_id)
]

-- `sendHeartbeat`: the message, for which the payload has 24 bytes left for the id.
abbrev pub heartbeat : RaftPeer → RaftNode → Message
heartbeat peer n = record {
  msg_type = msg_raft_heartbeat;
  src = n.id;
  dst = peer.id;
  payload = put_uint 8 n.term ++ take 24 n.id;
}

-- A server's answer is dropped; `false` is an error.
unfoldable pub send_heartbeat : RaftPeer → RaftNode → Option (RaftNode × Bool)
send_heartbeat peer n0 = elim (lock n0) [
  | none ↦ none
  | some n ↦ elim n.rpc_client [
    | none ↦ some (unlock n, false)
    | some call ↦ elim (call peer.addr (heartbeat peer n)) [
      | none ↦ some (unlock n, false)
      | some resp ↦ some (unlock n, true)
    ]
  ]
]
