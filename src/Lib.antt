-- ===== src/Lib.antt =====
-- The EasyTier relay for Cloudflare Workers (cloudflare/src, cloudflare/wasm/src): clients of
-- several networks connect by WebSocket, authenticate in three messages, and exchange frames
-- through the relay, which forwards them within a network and takes part in route synchronisation.
--
-- Parts and files.
-- - Packet: the frame header (cloudflare/wasm/src/packet.rs: PacketHeader, parse_packet,
--   inspect_packet, build_packet, prepare_forward, prepare_pong) and the TypeScript around it
--   (cloudflare/src/core/packet.ts, constants.ts). Packet/Codec and Packet/Frames prove the codec,
--   Packet/Hops the hop limit.
-- - Window: ReplayWindow256 of cloudflare/wasm/src/secure.rs. Window/Shift treats the bitmap's
--   shift, Window/History the window against the history of accepted numbers, Window/Replay the
--   consequences.
-- - RouteSync: the class EasyTierRpc of cloudflare/src/core/rpc.ts. The map of RouteSyncState is the
--   component's state; the WASM core and the peer's encrypt and send are the interface RpcHost, whose
--   operations thread the state of the rest of the program. RouteSync/Requests has handleRequest,
--   handleResponse and maintainPeer. RouteSync/Flush and its child Outcomes are about one update,
--   RouteSync/Expiry about the timeout, RouteSync/Effects about the rest of the program,
--   RouteSync/Requests/Completion about the answer.
-- - Rpc: the messages of WasmRpcCore (cloudflare/wasm/src/rpc.rs). Rpc/Fragments has merge_packet with
--   its limits; Rpc/Fragments/Pieces and Accounts are about a transaction's pieces and the counters,
--   Rpc/Fragments/Merge about a packet's effect. Rpc/Core has the state of WasmRpcCore with add_peer,
--   remove_peer and the checks, Rpc/Requests handle_request, Rpc/Responses build_route_update and
--   handle_response. Rpc/Responses/Once is about a response's effect, Rpc/Isolation and its children
--   about the other networks.
-- - Routes: the route state of a network (cloudflare/wasm/src/route_state.rs: RouteGroupData and the
--   methods of RouteState). Routes/Conn builds the connection information, Routes/Updates has the
--   peers, sessions and outgoing updates, Routes/Sync the incoming ones, Routes/State the networks.
--   Routes/Conn/Star is about the bitmap, Routes/Conn/Caches about the caches,
--   Routes/Sync/Ownership about who may publish what.
-- - PeerCenter: cloudflare/wasm/src/peer_center.rs; PeerCenter/Reports and View treat it as a map from
--   pairs of peers to latencies, PeerCenter/Invariant is about the calls that lead to a state,
--   PeerCenter/Answers about the answers and the digest.
-- - Rooms: the class RoomRegistry of cloudflare/src/runtime/rooms.ts.
-- - Connection: cloudflare/src/runtime/connection.ts; Connection/Window proves the send budget.
-- - Json, Messages: cloudflare/src/runtime/messages.ts over JSON values.
-- - Config: readServerConfig of cloudflare/src/core/config.ts.
-- - Server: the class EasyTierServer of cloudflare/src/server.ts. Its state is the record Relay with
--   the map of RouteSync; the WASM module and the sockets are the interface Platform, which
--   fills RpcHost. Server/Closing has close, removeConnection and broadcastRouteUpdate, with proofs
--   in Server/Closing/Phases, Monotone and Fuel; Server/Handlers has the events, and
--   Server/Handlers/Delivery what a message can bring about.
-- - Secure: SecurePeer and the session store of cloudflare/wasm/src/secure.rs. Secure/Slots has the
--   receive slots, Secure/Crypto the libraries' interface with keys and nonces, Secure/Payload one
--   encrypted payload, Secure/Sessions the store, Secure/Peer a peer's state, Secure/Handshake the
--   three messages, Secure/Channel the packets afterwards. Secure/Slots/History and Commit are about
--   the slots and what they have accepted, Secure/Runs has runs of a session's packets, Secure/Guard
--   and Replay are about replays, Secure/Crypto/Nonces, Sealing and
--   Sealing/Numbering about nonces, Secure/RoundTrip about
--   what is sealed and opened again, Secure/Sessions/Calls, Bounds and Attached about runs of the
--   store's operations, Secure/Authentication and its children about the runs of a peer's calls.
-- - Worker: the entry of the worker, cloudflare/src/index.ts.
-- - Common: results, actions (state and exception), association lists, lists and bits.
--
-- Conventions. Bytes are natural numbers; where the source computes in a fixed width the wrap is
-- written out (the WASM target has a 32-bit usize). JavaScript maps are association lists in
-- insertion order. A method that may throw is an action: the state survives the exception. A
-- WebSocket connection is known by its number. Rust maps are association lists too, sets of peers are
-- sorted lists, and one call of the WASM module reads the clock once. Loops are structural recursion. Only
-- Server/Closing takes fuel: a closing tells the others, whose sockets may fail and be closed in turn,
-- each once, so that fuel for the number of connections that are not closed is enough
-- (Server/Closing/Fuel).
--
-- Parameters: JSON.parse, atob and Number (Json.Runtime), the WASM core, the secure peer and the
-- sockets (Server.Platform; RouteSync.RpcHost as route synchronisation sees them), and, as
-- arguments, the clock and the random words; the hash of Rust's standard library (PeerCenter)
-- and the protobuf library (Rpc.Core.Codec); the cryptographic, Noise and encoding libraries of the
-- secure sessions (Secure.Crypto.Crypto). Server.Platform keeps the secure peers with their store
-- inside its own state. Relay counts the calls of sockets, and whether a call throws depends on
-- its number and its connection, so that a socket may fail at any time.
--
-- Not modelled: the protobuf encoding, of a third-party crate; log output, error texts, build and
-- deployment files.
pub mod Common
pub mod Packet
pub mod Window
pub mod RouteSync
pub mod Rooms
pub mod Connection
pub mod Json
pub mod Messages
pub mod Config
pub mod Server
pub mod Worker
pub mod Routes
pub mod PeerCenter
pub mod Rpc
pub mod Secure
