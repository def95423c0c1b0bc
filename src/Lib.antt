-- ===== src/Lib.antt =====
-- Verification of Aldea, a peer-to-peer network for storage and compute.
--
-- A client cuts a file into chunks (internal/chunker), each chunk into Reed-Solomon shards
-- (internal/erasure), encrypts the shards (internal/crypto) and asks the tracker for nodes to hold
-- them. The tracker keeps nodes, files and shard placements in three bbolt buckets
-- (internal/tracker, served by cmd/trackerd); it marks silent nodes as unhealthy. A storage node
-- (cmd/noded) keeps shards in one bucket under a quota and takes only messages that carry the MAC
-- of the network's key (internal/protocol). New members join by signed invite tokens
-- (internal/invite). Peers find one another by a routing table (internal/dht). Workloads are
-- placed by internal/scheduler and run by internal/runtime. The client's put and get (cmd/aldea) put
-- these parts together, internal/repair restores the shards of failed nodes, and gui/app.go is the
-- state of the desktop application.
--
-- Files, each with child modules for its theorems:
--   Prelude        helpers: results, lists, Go's integers (Int), maps (Dict), sorting (Sort), bytes
--                  and digits of texts (Text), calls that act on the outside world (Eff)
--   Backend        a bbolt bucket, JSON codecs and base64, as parameters with their documented laws
--   Http           statuses and responses of net/http as the two servers use them
--   Config         internal/config/config.go: the records, Validate and loading
--   Dht            internal/dht/dht.go: NodeID, XOR, PrefixLen, RoutingTable with Add, Remove and
--                  FindClosest; Bits, Prefix (against binary digits), Buckets, Invariant,
--                  Contents, Closest
--   Chunker        internal/chunker/chunker.go: Split and Reassemble
--   Erasure        internal/erasure/erasure.go: NewEncoder, Encode and Reconstruct; the coding library
--                  is the parameter RsEncoder
--   Crypto         internal/crypto/crypto.go: DeriveKey, Encrypt and Decrypt
--   Protocol       internal/protocol/protocol.go: Encode, Decode and the bytes under the MAC
--   Invite         internal/invite/invite.go: CreateToken, ValidateAndUse and the use counts
--   Tracker        internal/tracker/tracker.go: the methods of Store, each one transaction
--   Liveness       internal/tracker/liveness.go: Evaluate and ApplyLiveness
--   ShardServer    cmd/noded/server.go: handlePut, handleGet, handleHealth over a bucket; Quota, Access
--   TrackerServer  cmd/trackerd/server.go: the handlers over a Store; Guarded puts them together
--   Scheduler      internal/scheduler: Validate, SelectNode and RescheduleOnNodeFailure
--   Runtime        internal/runtime/runtime_linux.go: the table of workloads
--   Compute        cmd/aldea/compute.go: the deploy, list and stop commands over that table; Deployed
--   Ingress        internal/ingress/ingress.go: the table of tunnels
--   Snapshot       internal/snapshot/snapshot.go: the table of snapshots, and what restoring writes
--   Metrics        internal/metrics/metrics.go: the collector's counters and peers
--   Client         cmd/aldea/put.go and get.go: Upload (runPut), Download (runGet), Calls (the requests)
--                  and Messages (to the nodes); Network is what the theorems rely on of the tracker and
--                  the nodes; Ids, Stored, Uploaded, Grouping, Recovered, Downloaded, RoundTrip and
--                  Serving
--   Repair         internal/repair/repair.go: InspectAndRepair and what it calls; Marking, Moves,
--                  Relocated, Repaired
--   Gui            gui/app.go: the methods of App; Joining, and Reachable as a step relation
--   Wizard         internal/config/init.go and cmd/aldea/init.go: new configurations; Written
--   Bandwidth      internal/bandwidth/bandwidth.go: the token bucket and the split of a wait; Portions
--   Samples        concrete buckets, codecs and ciphers for the tests
-- A function keeps the name of the Go function in small letters with underscores; a method takes the
-- receiver's state and gives the new one. An error is the `err` of a result type with the source's
-- errors; the texts that wrap an error are left out where no response shows them.
--
-- Numbers: `int` and `int64` are 64 bits wide; their sums, differences and products wrap around
-- (add64, sub64, mul64). A byte is a number below 256. The use count of a token is unbounded.
-- Times are seconds or nanoseconds, as in the source, and the clock is an argument. The loop of Split
-- runs on fuel: one round for each byte of the stream and one more, which is enough, since a round
-- reads at least one byte or ends. All other loops are recursion on a list. `decimal` divides on fuel, as many rounds as the number itself.
--
-- Parameters: SHA-256, HMAC-SHA256, Argon2, the AEAD, Reed-Solomon coding, JSON, base64, bbolt,
-- random bytes, the clock and floating-point numbers. A MAC is any function: nothing is assumed of its
-- strength, and the theorems speak of what carries the right MAC.
--
-- The state that a Go function changes outside the program is a parameter `W`, and the function gives it
-- back with its result. IsNetwork (Client.Network) states what the client's theorems rely on: a
-- call of the tracker or of a node that succeeds has done what it is for, a node that is up gives
-- what it holds, and one that is down an error. The order in which Go walks a map is a parameter
-- where it matters (Repair); a panic on an index is an error of the result.
--
-- Not modelled: the network code of internal/relay and internal/nat; the throttled reader and
-- writer of internal/bandwidth; flags, routing by path and listening of the commands, and the commands
-- of cmd/aldea that only print; the platforms on which internal/runtime refuses every call; starting
-- the window under gui. Each handler is one step: the servers run handlers concurrently,
-- and the interleavings of a check with another handler's write are not modelled.
pub mod Prelude
pub mod Dht
pub mod Backend
pub mod Tracker
pub mod Liveness
pub mod Chunker
pub mod Erasure
pub mod Protocol
pub mod Invite
pub mod Compute
pub mod Config
pub mod Http
pub mod ShardServer
pub mod TrackerServer
pub mod Scheduler
pub mod Runtime
pub mod Crypto
pub mod Ingress
pub mod Snapshot
pub mod Metrics
pub mod Client
pub mod Repair
pub mod Gui
pub mod Wizard
pub mod Bandwidth
pub mod Samples
