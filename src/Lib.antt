-- ===== src/Lib.antt =====
-- A model of the WebRTC custom transport for iroh (crates/iroh-webrtc-transport) and what is proved of
-- it.
--
-- The transport carries the datagrams of an iroh endpoint over WebRTC data channels. A destination is a
-- custom address that names a remote endpoint and, once a dial has agreed on one, a session. A dial
-- allocates the session's id, the two sides exchange signals about it over a bootstrap stream, ICE
-- candidates are gathered into a queue, and the session state machine decides when the data channel may
-- carry traffic. A datagram batch then travels as one binary frame.
--
-- The parts, with the files that model them (paths below crates/iroh-webrtc-transport/src):
--   error.rs                   Errors: the error enum and its conversion to `io::Error`.
--   core/frame.rs              Frame: `encode`, `decode_header`, `decode`, `session_id`. Children:
--                              Frame.RoundTrip, Frame.Checks, Frame.Canonical.
--   core/addr.rs               Addr: `to_custom_addr`, `from_custom_addr`. Child: Addr.RoundTrip.
--   core/hub.rs (ICE queue)    Ice: `LocalIceQueue`. Children: Ice.Wakeups, Ice.Order.
--   core/hub.rs (hub)          Hub: `SessionHub`, over Mpsc, what it relies on of tokio's channels.
--                              Children: Hub.Calls, Hub.Receive, Hub.Delivery, Hub.Outbound.
--   core/hub.rs (counters)     Stats and Stats.Record, and Stats.Snapshot. Children: Stats.Histogram,
--                              Stats.Delta, Stats.Reported.
--   core/sender.rs             Sender: `WebRtcSender`. Child: Sender.Delivery.
--   core/endpoint.rs           Endpoint: `WebRtcEndpoint::poll_recv`. Children: Endpoint.Conservation,
--                              Endpoint.Stream, Endpoint.Fuel, Endpoint.Buffers,
--                              Endpoint.Traffic.
--   core/signaling.rs          Signal: the signals and their accessors; Signal.Dial: `DialIdGenerator`.
--                              Children: Signal.Dial.Sequence, Signal.Dial.Preimage.
--   core/coordinator.rs        Coordinator: the signals of one dial. Child: Coordinator.Routing.
--   core/bootstrap.rs          Bootstrap: length-prefixed signals. Child: Bootstrap.Stream.
--   browser_runtime/error.rs, types/keys.rs, protocol/keys.rs (the ALPN check)
--                              Runtime: error codes and session keys. Child: Runtime.Keys.
--   browser_runtime/node/session_state.rs, types/session.rs, node.rs (two functions)
--                              Session: `BrowserSessionState`. Children: Session.Invariant,
--                              Session.Resolution.
--   browser_runtime/node/accept_state.rs, node/connection.rs (accepting)
--                              Accept: accepted connections and the tasks that wait for them. Children:
--                              Accept.Order, Accept.Claims.
--   config.rs, transport.rs    Config: configurations, their validation and the transport made of one.
--                              Children: Config.Schemes, Config.Bounds.
--   browser_runtime/node.rs    Node: the state behind the node's lock, the addresses that it advertises and
--                              `update_session`. Children that model: Node.Paths (the selected path),
--                              Node.Sessions (node/session.rs), Node.Signals (node/rtc.rs),
--                              Node.Connections, Node.Handles (node/connection.rs), Node.Matching and
--                              Node.Closing (node/core.rs), Node.Streams (node/stream.rs), Node.Spawn
--                              (node/core.rs and types/node.rs), Node.Calls (any of these as a step).
--                              Children that prove: Node.Handshake, Node.Identity, Node.Refines with
--                              Node.Refines.Signals, Node.Refines.Connections, Node.Refines.Ends and
--                              Node.Refines.Runs, Node.Closed, Node.Admission, Node.Admitted,
--                              Node.Advertised, Node.Spawned.
-- The example application, in examples/rust-browser-chat-room/src:
--   state.rs, util.rs (peers)  Chat: the rooms and the reducer of actions. Children: Chat.Rooms,
--                              Chat.Valid.
--   protocol.rs, crypto.rs (signers), util.rs (texts)
--                              Chat.Wire: signed messages and the task that receives them. Chat.Commands:
--                              joining, sending and leaving. Children of Chat: Chat.Replay, Chat.Refused,
--                              Chat.Signed, Chat.Joined.
-- Iroh is what the code relies on of the iroh crate: endpoint ids of 32 bytes and custom addresses.
-- Samples holds the concrete peers and channels that tests and witnesses use. Common passes on the
-- library's names and holds byte strings, results and association lists.
--
-- How code becomes a definition. A byte is a number below 256, a byte string a list of them, and a
-- machine integer a number whose bound stands where the code relies on it. A method that changes its
-- object is a function to the new object; a waker that it wakes, or a signal that it sends, is part of
-- its result. The state behind a mutex is one value, and a run is a sequence of method calls, which is
-- what the lock allows. A `Result` is Result, a `Poll` is Poll. Strings that the code only stores or
-- formats are texts. The hash function of dial ids is a parameter, and no property relies on more than
-- that it is a function.
--
-- A send goes Sender, Frame, Hub: the sender encodes a frame and pushes it on the route of its session,
-- whose channel the data channel's pump drains. A received frame goes into the hub's queue, and the
-- endpoint copies it into the buffers that iroh polls it with.
-- A node goes through its tables: a dial or a dial request allocates a session, signals and lifecycle
-- results change it, an admission of a connection resolves it, and the close of the node ends them all. A
-- Call of Node.Calls is any one of these, and a run is any sequence of them, which covers the
-- interleavings of such steps; the arm for a dial request, which takes the lock twice, is one of them.
-- Platform collects what the node takes of iroh, tokio and BLAKE3:
-- endpoints, routers, connections, tasks and the hash. Wire collects what the chat room takes of keys,
-- AES-GCM and JSON, and Network what its commands take of iroh-gossip and HKDF.
--
-- No definition needs fuel but the loop of `poll_recv`: each
-- iteration uses a buffer or a packet, so as much fuel as there are of both, and two more, is enough.
--
-- Not modelled: the calls of browsers, webrtc-rs and QUIC, logging, the JSON text of signals and
-- timeouts; the binding of endpoints and routers and the awaits of a dial around the node's tables; the
-- hook that prepares a protocol's connections, the benchmarks and the facades; of the chat room, what is
-- reported of a broadcast that fails, invites, encryption, storage and the components of its page.
pub mod Accept
pub mod Addr
pub mod Bootstrap
pub mod Chat
pub mod Common
pub mod Config
pub mod Coordinator
pub mod Endpoint
pub mod Errors
pub mod Frame
pub mod Hub
pub mod Ice
pub mod Iroh
pub mod Mpsc
pub mod Node
pub mod Runtime
pub mod Samples
pub mod Sender
pub mod Session
pub mod Signal
pub mod Stats
