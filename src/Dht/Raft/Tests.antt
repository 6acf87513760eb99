-- ===== src/Dht/Raft/Tests.antt =====
-- pkg/dht/raft.go: a node with one peer, and a node alone.
use local_web.Base.{◌≡◌, refl, false, [], ◌∷◌, none, some, arith, codes, List}
use local_web.Dht.Raft.{
  RaftNode, RpcClient, new_raft, leader, become_candidate, collect_votes, propose, add_peer,
}
use local_web.Dht.Raft.Election.{become_candidate_lem}
use local_web.Dht.Raft.Log.{Op, add_peer_op, election_op, propose_op, run, IsLog, run-IsLog}

abbrev silent : RpcClient
silent addr msg = none

abbrev with_peer : RaftNode
with_peer = record (new_raft (codes "a") (some silent)) {
  peers = (codes "b", record { id = codes "b"; addr = codes "b:1" }) ∷ [];
}

-- The election of a node with an RPC client and a peer does not return.
become_candidate_lem_example : become_candidate with_peer ≡ none
become_candidate_lem_example = become_candidate_lem with_peer refl

abbrev led : RaftNode
led = record (new_raft (codes "a") none) {
  term = 1;
  voted_for = some (codes "a");
  state = leader;
  leader_id = codes "a";
  peers = (codes "b", record { id = codes "b"; addr = codes "b:1" }) ∷ [];
  log =
      record { term = 1; index = 1; data_bytes = codes "x" }
      ∷ record { term = 1; index = 2; data_bytes = codes "y" }
      ∷ [];
}

abbrev steps : List Op
steps =
    propose_op (codes "early")
    ∷ add_peer_op (codes "b") (codes "b:1")
    ∷ election_op
    ∷ propose_op (codes "x")
    ∷ propose_op (codes "y")
    ∷ election_op
    ∷ []

ends : run steps (new_raft (codes "a") none) ≡ some led
unfolding become_candidate collect_votes propose add_peer
ends = refl

run-IsLog_example : IsLog 1 0 1 led.log × (led.locked ≡ false)
run-IsLog_example = run-IsLog (codes "a") none steps led (omega arith) ends
