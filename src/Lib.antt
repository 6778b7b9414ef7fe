-- ===== src/Lib.antt =====
-- Medium: verification of the core of the overlay network.
--
-- Medium connects clients to services on home nodes. A node registers its endpoints and services
-- with the control plane (HomeNode, ControlPlane). The control plane hands a client a grant: a
-- signed session token and candidates, ways to reach the node. The client picks a candidate
-- (Candidates), over UDP with the help of the relay's rendezvous, which tells client and node each
-- other's address if the token is good (Relay, SessionToken), and runs a session over single UDP
-- packets (UdpSession). Where UDP does not work, the relay joins the client with a connection of the
-- node that waits there (Relay), over TCP or a WebSocket (WssStream). The node checks the token and
-- connects the session to the service (HomeNode). On a phone the published services appear under
-- addresses and names of a virtual network (Netstack), and each of its streams has a backend, a
-- connection to the service (AndroidStack).
--
-- Files, and the code that they model:
--   Common: numbers, lists, byte strings and results that the other modules share.
--   UdpSession: crates/overlay-transport/src/udp_session.rs.
--     Packet has `encode_packet` and `decode_packet`; Session the state behind the mutex
--     (`SessionState`: the sequence numbers, the bytes to be read, the packets that came early);
--     Stream the operations `read`, `write`, `wait_for_ack`, `handle_data_packet`; Handshake
--     `is_duplicate_handshake` and the loop of `connect`. The folders of these files hold the proofs.
--   SessionToken: `issue_session_token` and `verify_session_token` of crates/overlay-crypto/src/lib.rs.
--   Relay: services/relay/src/lib.rs. Rendezvous has `handle_udp_rendezvous_message` and its loop,
--     Waiting the nodes that wait and `wait_for_node_stream_with_ttl`, Connections `handle_connection`
--     and its WebSocket counterpart.
--   Netstack: crates/medium-netstack/src/lib.rs. Network has `VirtualNetwork` and `service_hostname`,
--     Dns `answer_query` and `pump_dns`, Device `PacketDevice`, Slots and Pump the TCP side of
--     `MediumStack` and the module `tcp`.
--   Candidates: `connect_session` and the order of the candidates, crates/medium-session/src/lib.rs.
--   ControlPlane: services/control-plane/src. Registry has the tables and the queries of registry.rs,
--     Devices the catalogue, Grants `issue_session_grant` of routes/sessions.rs; Requests is the
--     abstract view that the tables are compared with.
--   HomeNode: services/home-node/src. Registration has `build_registration` of control.rs; Proxy the
--     services and the checks of proxy.rs, Hello the greeting on a WebSocket, Http the request that is
--     read before the target is connected and the error responses.
--   WssStream: `WssByteStream`, crates/medium-session/src/lib.rs.
--   AndroidStack: crates/medium-android-netstack/src/lib.rs. Backends has `StreamBackends` and its pool,
--     Events `handle_event` and the pumps, Paths `connect_backend`, the pin and the catalogue.
--   Transport: Framing has the lines of crates/overlay-transport/src/session.rs, Peers `resolve_peer` and
--     the listener's side of udp_rendezvous.rs, Diagnostics the lines of p2p_diag.rs.
--   Each part has a file Examples with its theorems at concrete inputs and tests.
--
-- How the code is translated. An operation on shared state takes the state and gives the new one with
-- its result; what it sends is a list that grows, what it receives is a list of events. Errors are
-- values of a data type of each part. Maps are association lists, byte strings and texts are lists of
-- native numbers, and the integers of a fixed width wrap around where the code lets them. Third-party
-- code is a parameter: the cipher, hmac, base64, JSON, the parsers of addresses, Unicode's lower case,
-- and sockets with what becomes of each call; the theorems name what they assume of it.
--
-- Bounds. The loops of `read` and `write` are given as many rounds as there are packets left to
-- receive, and one more; the loop over the labels of a DNS query as many as the packet has bytes, and
-- one more; the loop that delivers packets that came early as many as there are such packets, and one
-- more. That this is enough is among the theorems or in the lemmas of Session/Reassembly. The wait for
-- a node has the fifty rounds of the code, a write its five attempts. The number of the streams of a
-- `MediumStack` has its 64 bits.
--
-- The tables of the registry are lists of rows in the order of their insertion, and a query is written
-- as what SQLite does for it; a transaction that fails leaves the tables as they were.
--
-- Not modelled: the pairing and the certificates of the control plane, the connectors of the home
-- node that dial the relay, the command line, the calls of JNI, the set-up of the interface of
-- `MediumStack`; the copying of bytes between two TCP streams; log output; locks that are poisoned;
-- tasks that run at the same time, except as sequences of events.
mod Common
pub mod UdpSession
pub mod Netstack
pub mod SessionToken
pub mod Relay
pub mod Candidates
pub mod WssStream
pub mod ControlPlane
pub mod HomeNode
pub mod AndroidStack
pub mod Transport
