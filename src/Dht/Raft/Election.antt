-- ===== src/Dht/Raft/Election.antt =====
-- pkg/dht/raft.go, `becomeCandidate`: what an election comes to.
use local_web.Base.{
  ℕ, ◌+◌, ◌/◌, ◌%◌, ◌^◌, ◌≡◌, inl, inr, refl, ◌∙◌, Bool, true, false, ◌&&◌, [], ◌∷◌, none, some,
  arith, ltb, length, Dict, if◌then◌else◌, Bool-cases, Option-cases,
}
use local_web.Dht.Raft.{
  candidate, leader, is_leader, RaftPeer, RaftNode, RpcClient, collect_votes, stand,
  become_candidate, request_vote,
}

-- The node that has stood and won.
abbrev pub won : RaftNode → RaftNode
won n = record n {
  term = (n.term + 1) % 2 ^ 64;
  state = leader;
  voted_for = some n.id;
  leader_id = n.id;
}

abbrev pub has_client : RaftNode → Bool
has_client n = elim n.rpc_client [ none ↦ false | some c ↦ true ]

abbrev pub has_peers : Dict RaftPeer → Bool
has_peers [] = false
has_peers (p ∷ ps) = true

-- Without a client every peer counts as a vote.
collect_without :
    (peers : Dict RaftPeer) (votes : ℕ) (n : RaftNode)
    → n.state ≡ candidate
    → n.rpc_client ≡ none
    → collect_votes peers votes n ≡ some (n, some (votes + length peers))
unfolding collect_votes
collect_without [] votes n h e = ground arith
collect_without ((k, p) ∷ peers) votes n h e =
    rw (collect_votes, h, e) (collect_without peers (votes + 1) n h e ∙ ground arith)

-- With a client and a peer the loop stops at its first vote request, for the mutex.
collect_with :
    (peers : Dict RaftPeer) (votes : ℕ) (n : RaftNode) (call : RpcClient)
    → n.locked ≡ true
    → n.state ≡ candidate
    → n.rpc_client ≡ some call
    → has_peers peers ≡ true
    → collect_votes peers votes n ≡ none
unfolding collect_votes request_vote
collect_with [] votes n call k h e f = absurd (cc f)
collect_with ((i, p) ∷ peers) votes n call k h e f = rw (collect_votes, h, e, request_vote, k) refl

collect_nobody :
    (peers : Dict RaftPeer) (votes : ℕ) (n : RaftNode)
    → has_peers peers ≡ false
    → collect_votes peers votes n ≡ some (n, some (votes + length peers))
unfolding collect_votes
collect_nobody [] votes n f = ground arith
collect_nobody (p ∷ peers) votes n f = absurd (cc f)

-- All the votes are more than half of them.
majority : (k : ℕ) → ltb ((k + 1) / 2) (1 + k) ≡ true
majority k = ground arith

-- An election of a node whose mutex is free: a leader stays as it is; a node with an RPC client and a
-- peer waits for its own mutex for ever; any other becomes the leader of the next term, as a uint64.
pub become_candidate_lem :
    (n : RaftNode)
    → n.locked ≡ false
    → become_candidate n ≡ (
        if is_leader n.state
        then some n
        else if has_client n && has_peers n.peers
        then none
        else some (won n))
unfolding become_candidate
become_candidate_lem n k = elim (Bool-cases (is_leader n.state)) [
  | inl f ↦ rw (become_candidate, k, f) refl
  | inr f ↦ elim (Option-cases n.rpc_client) [
    | inl e ↦
        rw
          (
            become_candidate,
            k,
            f,
            collect_without n.peers 1 (stand (record n { locked = true })) refl e,
            e,
            majority (length n.peers),
          )
          refl
    | inr (call, e) ↦ elim (Bool-cases (has_peers n.peers)) [
      | inl g ↦
          rw
            (
              become_candidate,
              k,
              f,
              collect_with n.peers 1 (stand (record n { locked = true })) call refl refl e g,
              e,
              g,
            )
            refl
      | inr g ↦
          rw
            (
              become_candidate,
              k,
              f,
              collect_nobody n.peers 1 (stand (record n { locked = true })) g,
              majority (length n.peers),
              e,
              g,
            )
            refl
    ]
  ]
]
