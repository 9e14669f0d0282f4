-- ===== src/Mesh.antt =====
-- go-daemon/pkg/mesh/mesh.go: a node of the mesh. Its handlers are functions on a world, which is
-- the node and the trace of what it has done, the latest first.
-- A peer ID is its string. libp2p enters through `Env`: how `peer.Decode` reads a string, whether a
-- direct stream to a peer can be opened and written, and whether the topic takes a message; so do the
-- clock, the IDs drawn for acknowledgements, and the JSON of their payload.
pub mod Node
pub mod Route
pub mod Handle
pub mod Quiet
pub mod Dedup
pub mod Budget
pub mod Targets
pub mod Chain
mod Tests
