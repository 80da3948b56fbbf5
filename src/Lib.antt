-- ===== src/Lib.antt =====
-- kmtproto: the KMT wire protocol, a Go library for a reliable session between a client and a
-- server over replaceable transport connections.
--
-- The program. A client and a server exchange envelopes (types.go, payload.go). validate.go decides
-- which envelopes are well formed, with the bounds of limits.go and the strict JSON reading of
-- json_codec.go. capability.go negotiates the optional features of a Session at HELLO and WELCOME.
-- state.go holds the versioned State objects and their monotonic merge. client.go is the client's
-- state machine: connection generations, the sequenced EVENT stream with its replay after a
-- reconnection, the outbox of unacknowledged SENDs, heartbeats, and the cache of State objects. Its
-- methods return actions for the application to carry out. store.go
-- holds the reference stores of the server: claims of received messages, and the log of EVENTs from which
-- a reconnecting client is served. server.go is the other end: it processes the frames of a client one by one,
-- claims each SEND before the application gets it, answers a RESUME with the missing EVENTs in one batch, and
-- admits frames only of the current connection generation. Its frames go out through the queue of outbound.go.
--
-- The files.
--   Prelude       Boolean tests on native numbers, Go's signed integers, lists, maps, bytes, UTF-8
--   Wire          types.go, payload.go, error.go, limits.go; json_codec.go in Wire/Encoding
--   Capability    capability.go
--   State         state.go; Snapshot: the accumulator of State snapshots, its proof in Accounting
--   Validate      validate.go; the cases of its switch are in Sessions and States
--   Store         store.go: the session repository (Sessions), the deduplication store (Dedup) and the replay
--                 log (Log); proofs in Openings, Claims, Replays and Pruning; Messages, Statuses and
--                 Refinement: deduplication as one machine for each message
--   Client        client.go and action.go. Types: the struct and the actions; Recovery: the shared
--                 resets; Connect: the constructor and the connection; Requests: SEND, PING, queries,
--                 heartbeat; Caching: State frames; Handlers: WELCOME, PONG, ACK, EVENT and ERROR;
--                 Incoming: HandleIncoming; Steps: all methods as one step function, and runs
--   Capability/{Highest,Sorting,Selection}
--                 proofs: version lists and the selected version
--   State/Monotone
--                 proofs: the merge of State objects
--   Client/Cases  rules for the ways through HandleIncoming, on which these proofs stand:
--     Ordering    the EVENT stream; Completion: a replay that arrives in full; Redelivery: EVENTs that
--                 arrive twice
--     Fencing, Failures
--                 connection generations; what an error leaves behind
--     Outbox      unacknowledged SENDs
--     CacheBounds, CacheSteps, CacheVersions
--                 the cache of State objects
--     Silence     heartbeats
--   Codec         json_codec.go: Encode and Decode; RoundTrip: decoding what was encoded
--   Outbound      outbound.go; Fifo: its frames leave in their order
--   Identifiers   id.go; Digits, Numbers and Ulids: identifiers read back, and their order
--   Server        server.go, the processor. Frames: what it enqueues; Callbacks: flights, lanes and calls of
--                 collaborators; Stored, Sends: SEND; Contents, Snapshots, Resumes: RESUME; Queries and
--                 Publishing: State and EVENTs; Processing: HELLO, PING and the dispatch; Starting: the
--                 constructor. Truncation: cut messages; Effects: rules for proofs; Ranges, StateFrames, Served, Batches, Resumption, Readiness: what a
--                 resume leaves in the queue; Worlds, Deliveries: what a SEND does to the collaborators; Keeping: rules
--                 for what a method keeps true of the queue; Growth and its children: every handler
--                 enqueues valid frames only; Serving: the queue of a connection over time;
--                 Lanes: the callers of one Session's lane, with Turns and Draining about their order;
--                 Flights, Contests and its children, Leading: the calls that lead flights and wait for them
--   Admission     server.go, ServerAdmission; Moves: interleaved critical sections
--   Reconnection  server.go and client.go together: a resume from the request to READY; Acceptance and
--                 Resuming are the client's and the server's half
--   Tests         concrete inputs, with an instance of the JSON parameter
--
-- Correspondence. A method is a function from the client and its arguments to the client that it
-- leaves and either its actions or its error: the mutex serialises the methods, so a history of
-- concurrent callers is a list of calls, and the clock, read once per method, is an argument. A Go map
-- is an association list, a string or a byte slice a list of bytes, a named string type a data type
-- with a constructor for all other strings. uint64 counters wrap at 2 ^ 64 where the source adds to
-- them; int sizes are unbounded integers, since they measure data in memory. Instants are nanoseconds
-- since Go's zero time. The grammar and the struct codecs of encoding/json are the record Wire.Json, a
-- parameter of every definition that uses them; nothing is assumed of it.
--
-- Bounds and fuel. Every loop is a structural recursion, so no fuel is used. Sequence numbers that
-- come off the wire are below 2 ^ 64 by their Go type; the theorems that need it have it as a
-- hypothesis.
--
-- The server. A method of the processor is a function from its state to the state that it leaves and a
-- value, an error or a panic (Server/Monad); the state holds the queue that the frame came with, the result,
-- the flights and the lanes. The collaborators (clock, identifiers, SHA-256, stores, application, failure
-- injector) are one record of calls on a state of their own; nothing is assumed of them but what a theorem
-- says. A call runs without another one in between: the wait of a SEND on an earlier one of the same id is a
-- call of a collaborator. The gate of ServerAdmission is modelled by its two critical sections, and the
-- theorems on it are about all their interleavings. Queues and collaborators that are nil are left out, but
-- for those that are optional.
--
-- The queue of requests inside a lane is a model of its own (Server/Lanes), with every critical section a step
-- and operations that are only counted; elsewhere an operation runs in one piece, as that model's theorems let
-- it. In Server/Contests the critical
-- sections on the table of flights, the two of invokeSendCallback among them, come in any order, from any number
-- of SENDs, and the collaborators change their state at any time. A flight has a number in the place of its
-- address, and a call keeps the key and the number as its pointer; the numbers of the flights whose `done` is
-- closed are kept. A flight that has left the table is read by its waiters alone, whose wait is the call of a
-- collaborator; the ACK that they then read comes with that call.
--
-- Not modelled: contexts and their cancellation, and the example. Copies that only guard against aliasing
-- (copyEnvelope, cloneStateObject and the like) are the identity on values.
pub mod Prelude
pub mod Wire
pub mod Capability
pub mod State
pub mod Validate
pub mod Codec
pub mod Store
pub mod Outbound
pub mod Identifiers
pub mod Server
pub mod Admission
pub mod Client
pub mod Reconnection
pub mod Tests
