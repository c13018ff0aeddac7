-- ===== src/Lib.antt =====
-- Whisper2Peer: the gossip module of a peer-to-peer node (gossip/).
--
-- A node takes messages from modules on its own host over the vertical API, spreads them to other
-- nodes over the horizontal API, and tells its modules of the messages that it receives. The
-- strategy between the two decides which peers may take part, by a proof of work over a cookie
-- that the node itself has sealed, and which messages go where, by three ring buffers: messages to
-- be validated by a module, messages to be relayed, messages relayed.
--
-- The files, with the code each is about, paths from the repository's root:
-- - Base, Base/: Boolean tests, lists, byte slices and results of Go code, as all files use them.
-- - Ringbuffer: gossip/internal/ringbuffer/ringbuffer.go, over a ring of container/ring as a list
--   seen from the pointer. Ringbuffer/Valid has the invariant, Queue the bounded queue that the
--   buffer implements, Search the operations that only read, Every the predicates on its values,
--   Capacity the capacities 0 and 1.
-- - Connections: gossip/strats/connection_manager.go. A `*gossipConnection` is an object on a
--   store. Connections/Maps are Go maps, Swap the removal from a slice, Inv and Steps the invariant
--   of the manager, Run its histories, Classes the three classes in which a peer may be.
-- - Messages: gossip/common/types.go.
-- - Vertical: gossip/verticalAPI/types/, one file for each packet.
-- - VerticalApi: gossip/verticalAPI/verticalApi.go, the reader and the writer of one connection, with
--   messages as they are when they are sent. Stopping is about errors of reads, and Buffers about
--   the buffer of the reader, of which the payload of an announcement is a slice: Views is about
--   what a message shows when it is sent, and Reused about what it shows behind the next packet.
-- - Cookie: gossip/strats/cookie.go, and the proof of work of gossip/strats/main.go and
--   gossip/pow/pow.go; Cookie/Search is about one worker of the search for one, Workers is the search
--   as actions of goroutines, Handover what its result stands for and Lost a search without one.
-- - Goroutines: the frame that the parallel searches of gossip/pow/pow.go and p2p_reg/main.go share,
--   with the channel for the result; Rightful is about invariants of a search and Solo about steps.
-- - HorizontalApi: gossip/horizontalAPI/horizontalAPI.go, with Receive the reader and Transmit the
--   writer of one connection. Capnp is what the code uses of the capnp library, operations with
--   laws, and Wire the generated accessors of gossip/horizontalAPI/types/ over them; Members and
--   RoundTrip compare writer and reader, Reader is about what a peer may send, and Objects is one
--   capnp library that can be evaluated.
-- - ConnTable: the table of connections that both APIs keep (gossip/horizontalAPI/horizontalAPI.go
--   and gossip/verticalAPI/verticalApi.go), as events of the listener, the dialler, the readers,
--   `Close` and the receiver of the API's channel. Closing is about what `Close` reaches, Draining
--   about readers that end in any order while the channel is received from, Waiting, Room and
--   Ending about those that cannot end because it is not.
-- - Strategy, Strategy/Handlers: gossip/strats/dummy.go, one definition for each case of the
--   `select` in `Listen`, named `on_...` after the message or the ticker. Strategy/Authorisation
--   is about who becomes a valid peer, Strategy/Flow about the way of a message and
--   Strategy/Tick about its rounds. Strategy/Relay is about one hop of a message, from the wire to
--   the buffer of the messages to be relayed, and Strategy/Dropped about a peer that is refused.
--   Strategy/Run is the loop as a sequence of events, and Strategy/Steps the invariant of its
--   state. Strategy/Policy is an interface for what the messages in the buffers and the messages
--   sent have in common, Policed and Course show that the handlers and the loop keep it, Vetted
--   takes the messages that were announced or accepted for it, and Wired the messages that fit the
--   wire.
-- - Main: gossip/main/data.go and the handlers of gossip/main/main.go. Main/Registrations compares
--   them with the registrations in force.
-- - Node: the loops of gossip/main/main.go and gossip/strats/dummy.go together, as a step relation
--   on the two goroutines with the channels between them; Progress is about states without a step,
--   and Stuck about how one is reached.
-- - Network: two nodes one after the other, each part run on all that the part before it gives, from
--   what a module of one writes to what a module of the other reads; Leaving is about the first node,
--   Arriving about the second, and Delivery about the whole way. Handshake is about the messages by
--   which a node that dials and the one that is dialled take each other in.
-- - Args: gossip/internal/args/args.go, and `Merge` and `NewMain` in gossip/main/main.go.
-- - Startup: the start of a node, `Run` in gossip/main/main.go, `New` in gossip/strats/main.go and
--   `AddNeighbors`; Reports is about what it announces.
-- - TestBench: gossip/internal/testutils/, with Packets (`ProcessSentPackets`; Totals compares its
--   rows with the events), Distances (`CalcDistances`; Ends is about its loop, Walks about what the
--   distances are), Book (`processingSetupForDistance`, with Kept about what it keeps), Reached
--   (`ProcessReachedDistCnt` and `ProcessGraphDistCnt`; Counted and Order compare its rows
--   with the events and the distances; Sorting is what they use of a sort),
--   Peer (`markAllValid`, with Answers between the writer and the reader of the vertical API),
--   Topology (the loop of `Startup` over the nodes of a graph, each started by what Startup models;
--   Dialled is about which node dials which, Read about the nodes as they are read from a file),
--   Register (`RegisterAllPeersForType`) and Tester (the life of a tester; Times goes from its start
--   to its end).
-- - PacketCounter: gossip/internal/packetcounter/packetcounter.go.
-- - Registration: p2p_reg/main.go, a program of its own that registers a team at a server, with its
--   packets. Layout gives their bytes, Search and Found are about what a search hashes, Parallel is
--   the search that the client uses, as actions of goroutines that share the nonce, with Race for
--   any schedule and Solo for one on which it ends; Client is `main` behind the connection, Session
--   what it sends at all and Conversation a registration that succeeds.
--
-- The reader of the vertical API runs on fuel, one for each round of its loop. A round reads four
-- bytes or more, so one more than the length of the stream is enough. The loop of a worker that
-- searches for a proof of work runs on fuel too, one for each nonce: the code itself stops only at
-- a nonce that passes, and one more than the number of nonces that fail is enough. So does the
-- search of one thread in p2p_reg. The parallel searches run on schedules, which may be too short.
--
-- The work list of `CalcDistances` runs on fuel as well, for which enough is shown to exist, and so
-- does the loop of `markAllValid`, one more than the number of notifications being enough.
--
-- A machine integer is a natural number with the wrap-around written where the code can wrap; the
-- ranges that the types of the code give stand as hypotheses. A panic is a result of its own. The
-- cipher (chacha20poly1305) and the hash (SHA-256) are parameters; of the cipher it is used that it
-- opens what it has sealed. Times, random bytes and permutations are arguments.
--
-- Not modelled: the network itself (of `Listen` and `Close` the tables of connections are modelled,
-- and at the start whether an address can be used), the timeout in the `Close` of the horizontal
-- API, the entry points, the search of p2p_reg that it does not use (`parallelProofOfWork`), and of
-- the test bench the pipes of its logs, `WaitUntilSilent`, what `Teardown` closes, the file of a
-- style sheet, and `ProcessReachedWhen`, whose times are in floating point. Logging has no effect
-- on the state and is left out. Outside VerticalApi/Buffers a payload is a value, also where the
-- code goes on to hold a slice of the reader's buffer; no part of the node looks into one.
pub mod Base
pub mod Goroutines
pub mod Ringbuffer
pub mod Connections
pub mod Messages
pub mod Vertical
pub mod VerticalApi
pub mod Cookie
pub mod ConnTable
pub mod HorizontalApi
pub mod Strategy
pub mod Main
pub mod PacketCounter
pub mod Registration
pub mod Node
pub mod Network
pub mod Args
pub mod Startup
pub mod TestBench
