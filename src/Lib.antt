-- ===== src/Lib.antt =====
-- The Ripple daemon (go-daemon): an offline mesh of peers that send each other messages.
--
-- A message (pkg/message) travels as JSON or in a binary format (pkg/codec). A node (pkg/mesh) takes it
-- from a stream or the publish topic, drops it if it was seen, notes the meeting with its bearer,
-- relays it, hands it to the application and acknowledges it. An addressed message at a node with a
-- budget goes over direct streams to the peers that the forwarder (pkg/routing) picks; all others are
-- published. The store (pkg/store) remembers messages and peers, the manager of keys (pkg/crypto)
-- encrypts payloads, files go in chunks over streams of their own (pkg/filetransfer), and the SOS
-- manager (pkg/sos) tracks the emergency alerts that it sends and receives through the node. The bridge
-- (pkg/wsbridge) gives the app's clients all of this over WebSockets: it hears what the node, the alerts and
-- the transfers bring and tells every client, and it does what a client's frame asks. A node's keys come
-- from its identity (pkg/identity), its options from the configuration (pkg/config), and the simulator
-- (pkg/routing/sim) runs the forwarders on a field of nodes that meet.
--
-- The files, and what they model:
--   Message, Message/Kinds, Make, Hops: pkg/message/message.go, the envelope, the constants, the
--     constructors (`NewChat` is `new_chat`, and so on) and the hop counters.
--   Codec/Varint, Strings, Marshal, Unmarshal: pkg/codec/codec.go, `putUvarint`, `zigzag`, `putString`,
--     `getString`, `Marshal`, `Unmarshal`. Zigzag, Uvarint, Lengths, Flags, RoundTrip and
--     EmptyPayload hold the proofs. Codec/Frames: `MTUFriendlySplit`, `IsBinaryFormat`, `ShortTypeName`.
--   Routing: pkg/routing/routing.go, the predictabilities and `Decide`. Predict and Policy hold the proofs.
--   Mesh/Node, Route, Handle: pkg/mesh/mesh.go, the node and its peers, `routeToPeers`, and
--     `SendMessage`, `forwardMessage`, `deliverMessage` and the two readers. Quiet, Dedup, Budget,
--     Targets and Chain hold the proofs.
--   Store, Store/Backup: pkg/store/store.go, the queries and updates, and the backup over a disk.
--     Reads and Files hold the proofs.
--   Crypto, Crypto/Keys, Manager: pkg/crypto/box.go, encryption, the key files and the manager. Coherent,
--     Cache and RoundTrip hold the proofs.
--   Sos: pkg/sos/sos.go, the manager of alerts. Expiry and Once hold the proofs.
--   FileTransfer, FileTransfer/Send, Receive: pkg/filetransfer/transfer.go, the transfers, `SendFile` and
--     `sendFileStream`, and `handleStream`. Chunks, RoundTrip, Pieces and Whole hold the proofs.
--   Sim, Sim/Exchange, Run, Motion: pkg/routing/sim/sim.go, the nodes and their buffers, `exchange`, `Run`,
--     and the movement of the nodes, which decides who meets whom.
--     Mirror, Copies, Budget, Nodes, Bound, Whole and Pairs hold the proofs.
--   Identity, Identity/Words, Mnemonic, Files: pkg/identity, the keypair, the phrase and the file. Laws
--     holds the proofs.
--   Config, Config/Paths, Csv: pkg/config/config.go, `Parse`, `filepath.Join` and `splitCSV` with its proofs.
--   Bridge, Bridge/Clients, Feed, Calls, Requests, Steps: pkg/wsbridge/bridge.go, the clients' channels, what
--     is told to them, the calls of the node, the frames of a client, and the bridge as a machine. Keeps,
--     Served, Safe, Author, Spoken, NoSpoof, Secret, Private and Alerts hold the proofs.
--   Daemon, Daemon/Fields, Commands, Startup: cmd/rippled/main.go, the messages that come in, the commands,
--     and the start. Shown and Startup hold the proofs.
--   Prelude: names of the libraries, 64-bit integers, strings as bytes, maps, sets, hex digits.
--   Samples and the files Tests: concrete values, and the theorems at concrete inputs.
--
-- The state of a component is a record, and an operation a function from the state to the new one; the
-- locks make each operation one step. What an operation does to the world outside (callbacks, the
-- topic, a stream) is a list of effects, newest first. Failing code returns `Option`, a result type of
-- the component, or the state with a Boolean.
--
-- Integers: an `int` is an integer (`ℤ` of Prelude/Int) whose increments and differences wrap at 64
-- bits. The bytes of the wire are natural numbers; 16-bit lengths keep their remainder. Loops recurse on
-- their list or count. `uvarint_loop` recurses on the bytes, and `put_groups` on ten groups of 7
-- bits, which hold every 64-bit number, and `frames_loop` on the length of the data.
--
-- What is not under go-daemon enters as a parameter: `Floats` is float64 arithmetic, `Json` and
-- `BackupJson` are encoding/json, and `NaCl` is golang.org/x/crypto/nacl. `Env` holds these for a node,
-- with the clock, the random ID, the parser of peer IDs and which peers and topic take a message;
-- `Surroundings` holds the stream, the disk and the division of a file transfer. The laws assumed of
-- them are `UnitLaws` and `SealLaws`; the tests give an instance of each. `KeyLibrary` holds libp2p's keys,
-- PEM and BIP39, with the laws `KeyLaws` and `PhraseLaws`, `Outside` what a handler of the bridge draws from
-- outside, `Host` the names of the computer, and `Geometry` the float64 and the random source that move the
-- simulator's nodes. `Run` is on any `Schedule`, who is near whom in which tick and between whom a message
-- goes; `schedule_of` makes it from a `Geometry`. `SaveToJSON` runs on a `Drive`, of which a crash may garble
-- whatever is not synced.
--
-- Concurrency: an operation is one step of a sequence. Where the source takes a lock more than once, as in
-- `HandleIncomingSOS` and in the fallback of `DecryptMessage`, the theorems are of calls that do not overlap.
-- In the bridge the registration of a client and its greeting are two steps, with others in between; the
-- handling of a frame is one, although its answers are sent without `clientsMu`, and the runs of Bridge/Steps
-- have `Stop` only where nothing of that kind is on its way.
--
-- Not modelled: libp2p and its connections, goroutines and tickers, HTTP and the pumps' deadlines and
-- pings, logs and terminal output, the time stamps of relay events, errors of `json.Marshal`, the parsing of
-- the command line, the averages of the simulator, and cmd/routingbench, which prints what the simulator
-- returns. Of cmd/rippled the wiring is left out, whose callbacks the bridge has built in. A goroutine that
-- publishes a relayed message or streams a file is taken to run at once, also where the source does not wait
-- for it.
pub mod Prelude
pub mod Message
pub mod Bridge
pub mod Codec
pub mod Routing
pub mod Mesh
pub mod Store
pub mod Config
pub mod Crypto
pub mod Sos
pub mod Daemon
pub mod FileTransfer
pub mod Identity
pub mod Sim
pub mod Samples
