-- ===== src/Samples/Nodes.antt =====
-- A browser node that has just been spawned, for the tests, and the session of its first dial.
use iroh_webrtc_messenger.Common.{ℕ, false, List, [], ◌∷◌, none, some, Bytes, codes, replicate}
use iroh_webrtc_messenger.Samples.{Peer, alice, bob, sample_iroh}
use iroh_webrtc_messenger.Samples.Channels.{bounded}
use iroh_webrtc_messenger.Hub.{with_capacities}
use iroh_webrtc_messenger.Signal.{web_rtc_preferred}
use iroh_webrtc_messenger.Signal.Dial.{with_epoch}
use iroh_webrtc_messenger.Accept.{BrowserAcceptedConnection}
use iroh_webrtc_messenger.Accept
use iroh_webrtc_messenger.Session.{
  BrowserSessionState, dialer, BrowserSessionLifecycle, DataChannelAttachmentState,
}
use iroh_webrtc_messenger.Node.{Platform, PathInfo, Node}
use iroh_webrtc_messenger.Addr.{session, webrtc_transport_id, addr_bytes}

abbrev pub platform : Platform
platform = record {
  iroh = sample_iroh;
  Waker = ℕ;
  mpsc = bounded _;
  Waiter = ℕ;
  blake3 = λ bytes. replicate 16 5;
  Connection = Peer × Bytes × List (PathInfo (ℕ × Bytes));
  remote_id = λ c. c.0;
  connection_alpn = λ c. c.1;
  paths = λ c. c.2;
  Endpoint = ℕ;
  Router = ℕ;
  AbortHandle = ℕ;
}

abbrev pub chat : Bytes
chat = codes "chat"

-- A node that has just been spawned, with one ALPN registered.
abbrev pub spawned : Peer → Node platform
spawned who = record {
  endpoint_id = who;
  hub = with_capacities (bounded _) 8 8;
  local_addrs = [];
  relay_endpoint = none;
  relay_router = none;
  webrtc_endpoint = some 1;
  webrtc_router = none;
  benchmark_echo_tasks = [];
  browser_protocols = [];
  benchmark_echo_alpns = [];
  dial_ids = with_epoch who (7 ∷ []);
  sessions = [];
  connections = [];
  streams = [];
  accepting = record { accepts = (chat, Accept.new 1 chat 1) ∷ []; closed = false };
  next_connection_key = 1;
  next_stream_key = 1;
}

-- The hash function of the tests is constant.
abbrev pub dial_id : Bytes
dial_id = replicate 16 5

abbrev pub dial_key : Bytes
dial_key = codes "05050505050505050505050505050505"

abbrev pub dialled : BrowserSessionState Peer
dialled = record {
  session_key = dial_key;
  dial_id = dial_id;
  generation = 0;
  local = alice;
  remote = bob;
  alpn = chat;
  role = dialer;
  transport_intent = web_rtc_preferred;
  resolved_transport = none;
  channel_attachment = DataChannelAttachmentState.awaiting_transfer;
  lifecycle = BrowserSessionLifecycle.web_rtc_negotiating;
  terminal_sent = none;
  terminal_received = none;
}

-- The address of a session of the dial.
abbrev pub session_of : Peer → ℕ × Bytes
session_of who = (webrtc_transport_id, addr_bytes sample_iroh who (session dial_id))
