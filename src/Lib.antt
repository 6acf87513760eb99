-- ===== src/Lib.antt =====
-- Local-WEB: a mesh of nodes that share services without a central server. This library models the
-- replicated data types (pkg/crdt/crdt.go) with which nodes edit shared state, the parts of the
-- distributed hash table (pkg/dht) with which they find one another and elect a leader, the
-- capabilities, the audit log and the proof of work (pkg/security) with which a node says who may
-- use what, records what happened and keeps floods away, the traffic shaping (pkg/qos), the
-- rendezvous server (pkg/federation), the mail service's SMTP session with its defences
-- (pkg/services/email), the collaborative documents (pkg/services/docs) and the manager that
-- spreads the traffic to a peer over several links (pkg/link).
--
-- How the parts interact. A service keeps its shared state in a replicated type: an edit changes
-- the local replica, `Marshal` puts it on the wire, and `Merge` folds a replica of another node
-- in. A node of the table answers the messages of other nodes: it hands out the closest peers it
-- knows, stores values, and admits a peer whose registration carries a proof of work over its key,
-- name and addresses. A capability manager grants signed tokens to peers and checks them; the
-- audit log chains its entries by hashes. Traffic goes through a class of the quality of service,
-- whose token bucket holds it back. A node that knows no other asks a rendezvous server, which
-- stores what nodes register under a proof of work of the table's kind. A mail session collects an
-- envelope command by command and hands copies to the mailboxes, unless the proof of work or the
-- spam test refuses the message. A collaborative document keeps its lines beside an RGA of their
-- characters: an operation changes the lines, an insert writes into the RGA too, and a merge
-- rebuilds the lines from it. The multi-path manager learns from discovery which links reach a
-- peer, dials them, and picks one of them for each write.
--
-- Files.
--   Base           what the modules share: tests on numbers, lists, byte strings, Go's maps as
--                  association lists, int64 as bit patterns, sort.Slice as a stable insertion sort,
--                  encoding/binary and bytes.Buffer (Base/Wire), fmt's %d and encoding/hex (Base/Format)
--   Crdt/OrSet     pkg/crdt/crdt.go, ORSet: Add, Remove, Contains, Items, Merge. View: what a replica
--                  knows, as facts; Laws: Contains after each operation; Joins: convergence, and the
--                  semilattice of replicas up to what they know; Items; Codec: Marshal, Unmarshal
--   Crdt/Rga       the same file, RGA: Insert, Delete, Get, String, IDs. Order: beforeNode and
--                  insertOrdered; Edits: local edits; Merge: Merge with indexIDs, isDeleted and
--                  applyDeleteLocked, and below it Sweeps (its end), Keeps, Tombstones and Diverges;
--                  Codec
--   Crdt/LwwRegister  the same file, LWWRegister: Set, Merge (Laws), Marshal and Unmarshal (Codec)
--   Crdt/Merkle    the same file, MerkleTree: NewMerkleTree, computeRoot, hashPair, DiffMerkle
--   Dht/NodeId     pkg/dht/dht.go, NodeID: Xor, PrefixLen, and BucketIndex
--   Dht/Bucket     the same file, KBucket: Add, Remove, GetClosest
--   Dht/Table      the same file, RoutingTable: Add, Remove, FindClosest, AllPeers, Len, with
--                  PruneStale of pkg/dht/server.go, and dedupeAndPrune. Laws, Closest, Stale
--   Dht/Wire       the same file: encodeStore, decodeStore, registrationChallenge, encodeRegister,
--                  decodeRegister
--   Dht/Pow        the same file: SolvePoW, VerifyPoW
--   Dht/Node       pkg/dht/server.go, Node.handleMessage on the state of the node. Held: what
--                  it has of a peer; Gate: who is
--                  admitted; Values: what is stored
--   Dht/Raft       pkg/dht/raft.go, RaftNode with its mutex: AddPeer, becomeCandidate, requestVote,
--                  Propose, Leader, sendHeartbeat. Election: what an election comes to; Log
--   Security/Capability  pkg/security/capability.go, CapabilityToken and CapabilityManager: Sign, Verify,
--                  GrantCapability, RevokeCapability, CheckAccess, PeerTokens (Laws), ServiceIDsEqual
--                  (Services)
--   Security/Audit pkg/security/audit.go, AuditLog: Log, VerifyIntegrity, Entries, PeerEvents (Chain)
--   Security/Pow   pkg/security/pow.go: challenges, SolvePoWContext, VerifyPoW, VerifyPoWWithTime (Work).
--                  Difficulty: DifficultyAdjuster; Replay: PoWValidator, with Cache (its size) and Once
--   Qos/Bucket     pkg/qos/qos.go, TokenBucket: Take, Wait, Available (Laws)
--   Qos/Class      the same file, QoSClass: Send, GetStats
--   Qos/Manager    the same file, QoSManager. Laws: its pointers and SetBandwidth; Limits: a limit on a
--                  peer; Accounts: the counters
--   Qos/Hierarchy  the same file, HTBHierarchy: AddClass, GetNode, Borrow (Tree, with the
--                  lists of children in Children)
--   Federation/Store  pkg/federation/federation.go, MemoryStore, and PeerInfo of pkg/discovery/types.go
--   Federation/Limits  pkg/federation/rendezvous_limits.go: validatePeerPeer. NodeIds: parseNodeID,
--                  hexVal; Numbers: itoa
--   Federation/Handler  pkg/federation/federation.go, HTTPHandler: handleRegister, handleLookup,
--                  handleListPeers (Laws)
--   Email/Text     the functions of Go's strings that the mail service calls
--   Email/Antispam pkg/services/email/antispam.go: PoWChecker (Work), IsSpam, RateLimiter (Rate)
--   Email/Smtp     pkg/services/email/smtp.go: the session, EHLO, MAIL, RCPT, RSET. Auth: cmdAUTH;
--                  Data: cmdDATA; Commands: handleCommand and the loop of handleConn; Laws: what the
--                  commands keep and deliver; Dots: the doubled dots of DATA
--   Docs/Op        pkg/services/docs/types.go: BlockType, OpType, Op and its constructors. Codec:
--                  marshalOp, unmarshalOp, DocMessage; RoundTrip
--   Docs/Lines     pkg/services/docs/document.go: insertSlice, splitLines, joinLines. Runes: the
--                  characters of a string, as `range` gives them; Lengths
--   Docs/Document  the same file, Document: ApplyOp and the local edits. History: Undo, Redo, Merge,
--                  rebuildFromRGA; Codec: Marshal, Unmarshal; Invariant and Sessions: what every
--                  session keeps; Page and Refinement: the abstract document; Undo, with Times and
--                  Deletes; Merge; RoundTrip
--   Docs/Presence  pkg/services/docs/presence.go, PresenceService
--   Docs/Service   pkg/services/docs/server.go, Service: the documents and handleMessage. Codec: states
--                  and presence updates; Laws: what becomes of a broadcast
--   Link/MultiPath pkg/link/multipath.go: the types, updatePrimary, updateStats. Events: handleEvent;
--                  Select: selectLinks; Send: SendToPeer, ConnectToPeer and the queries; Primary, Once, Orders,
--                  RoundRobin and Invariant: what they do
--   The modules called Tests run the definitions and apply the theorems at concrete values.
--
-- State is passed explicitly: an operation takes its arguments first and the receiver last, and
-- returns the receiver after it, with its result where it has one. A lock makes each operation one
-- step, so the steps follow one another; in Dht/Raft, which locks twice, the mutex is a part of
-- the state. A pointer that is shared is an index into a pool (Qos). Errors are `none`, or a flag
-- beside the state where an error leaves the state changed. Bytes are numbers; that they are below
-- 256 is a hypothesis where it matters. An int64 is its bit pattern. A float64 is only copied, but in Qos, Link and Security/Pow/Difficulty.
-- Go's range over a map visits the entries in the order of the list, and no theorem depends on
-- that order but through the list.
--
-- Fuel. `Rga.Merge.sweeps` has one unit for each missing node and one more, `Merkle.compute_root`
-- one for each leaf and one more, `Wire.decode_addrs` the length of its block, `Pow.solve_from`
-- the 2 ^ 32 nonces that the code tries itself, as `Security.Pow.solve_from` has.
-- `Replay.drop_oldest` has one unit for each entry of the cache, `Numbers.itoa` one for each digit of an int. All of these but the searches'
-- are proved to be enough. The search of `Email.Antispam.generate_from` has 2 ^ 64 units for a
-- loop that the code does not bound.
--
-- Parameters. SHA3-256, Argon2id, HMAC-MD5, base64, the gob encoder of a peer list, the JSON
-- encoder, the signatures of pkg/crypto, Unicode beyond ASCII, the clock, the random strings and
-- the random tag of an addition are arguments of the definitions that use them, and so are the
-- product of a time and a rate as a float64 (Qos), the answers of an RPC client (Dht/Raft),
-- `ParseMessage` (Email/Smtp), the JSON codecs and `net.SplitHostPort` (Federation), the
-- links, their connections and the float64 rates (Link).
-- Security/Pow/Difficulty takes float64 arithmetic as a record of operations with the laws that
-- the adjuster relies on. What else is assumed of them: `verify-grant`, that what is signed
-- verifies; the bound on the replay cache, that no digest is empty, and the theorem on
-- replays, that the cache does not overflow; the bounds on a bucket, that a
-- capacity and what is earned do not overflow an int64.
--
-- Not modelled: connections, framing and the client side of the table (pkg/dht), the goroutines
-- and timers of raft, the other services, the mailboxes and the exports, streams and
-- broadcasts of documents (pkg/services), the drivers of links and the single-link manager (pkg/link),
-- transports, discovery, NAT, plugins, the client side of federation and the user interface; of the audit log
-- its export and binary format; of quality of service the context keys. Most of it is network
-- code. Messages to the console are left out, and the locks but raft's.
pub mod Base
pub mod Crdt
pub mod Dht
pub mod Docs
pub mod Email
pub mod Federation
pub mod Link
pub mod Qos
pub mod Security
