-- ===== src/Node.antt =====
-- crates/iroh-webrtc-transport/src/browser_runtime/node.rs: the state of a browser node behind its
-- mutex, and what its methods share. A method that takes the lock once is one step, a function from
-- the node to its result and the node after it. What the node takes from crates outside the
-- repository is the parameter `Platform`.
pub mod Paths
pub mod Sessions
pub mod Signals
pub mod Connections
pub mod Matching
pub mod Handles
pub mod Closing
pub mod Streams
pub mod Calls
pub mod Refines
pub mod Identity
pub mod Closed
pub mod Spawn
pub mod Spawned
pub mod Handshake
pub mod Admission
pub mod Admitted
pub mod Advertised
mod Tests
use iroh_webrtc_messenger.Common.{
  ℕ, Bool, true, false, not, ◌&&◌, ◌||◌, ◌==◌, List, [], ◌∷◌, map, Option, none, some, Result, ok,
  err, ◌>>=◌, ◌>>◌, fail_if, if◌then◌else◌, Bytes, Bytes-discrete, same, ltb,
}
use iroh_webrtc_messenger.Common.Maps.{get, insert, values}
use iroh_webrtc_messenger.Iroh.{Iroh}
use iroh_webrtc_messenger.Mpsc.{Mpsc}
use iroh_webrtc_messenger.Addr.{
  WebRtcAddr, WebRtcAddrKind, session, capability, capability_addr, session_addr, to_custom_addr,
  from_custom_addr,
}
use iroh_webrtc_messenger.Hub.{OutboundPacket, SessionHub}
use iroh_webrtc_messenger.Signal.{DialId, uses_webrtc}
use iroh_webrtc_messenger.Signal.Dial.{DialIdGenerator}
use iroh_webrtc_messenger.Session.{
  BrowserResolvedTransport, DataChannelAttachmentState, BrowserSessionLifecycle,
  BrowserSessionState,
}
use iroh_webrtc_messenger.Accept.{Accepts}
use iroh_webrtc_messenger.Runtime.{
  web_rtc_failed, runtime_error, closed_error, BrowserRuntimeError, Runtime,
}

-- `TransportAddr`: only whether it is custom matters here.
pub data TransportAddr (CustomAddr : Type 0) : Type 0 where
  custom : CustomAddr → TransportAddr CustomAddr
  other : TransportAddr CustomAddr

pub record PathInfo (CustomAddr : Type 0) : Type 0 where
  pub is_selected : Bool
  pub remote_addr : TransportAddr CustomAddr

-- The types and functions of iroh, tokio and BLAKE3 that the node calls. The ALPN of a connection is
-- what `from_utf8_lossy` makes of it.
pub record Platform : Type 1 where
  pub iroh : Iroh
  pub Waker : Type 0
  pub mpsc : Mpsc Waker (OutboundPacket iroh.CustomAddr)
  pub Waiter : Type 0
  pub blake3 : Bytes → Bytes
  pub Connection : Type 0
  pub remote_id : Connection → iroh.EndpointId
  pub connection_alpn : Connection → Bytes
  pub paths : Connection → List (PathInfo iroh.CustomAddr)
  pub Endpoint : Type 0
  pub Router : Type 0
  pub AbortHandle : Type 0

-- The order of byte strings, `left.data().cmp(right.data())` being less.
abbrev pub bytes_less : Bytes → Bytes → Bool
bytes_less [] [] = false
bytes_less [] (b ∷ bs) = true
bytes_less (a ∷ xs) [] = false
bytes_less (a ∷ xs) (b ∷ bs) = ltb a b || (a == b && bytes_less xs bs)

-- `!uses_webrtc() || matches!(..)`, the sessions that are not advertised, negated.
abbrev pub is_dead_channel : DataChannelAttachmentState → Bool
is_dead_channel DataChannelAttachmentState.closed = true
is_dead_channel DataChannelAttachmentState.failed = true
is_dead_channel _ = false

abbrev pub is_over : BrowserSessionLifecycle → Bool
is_over BrowserSessionLifecycle.closed = true
is_over BrowserSessionLifecycle.failed = true
is_over _ = false

abbrev pub is_advertised : {EndpointId : Type 0} → BrowserSessionState EndpointId → Bool
is_advertised s =
    uses_webrtc s.transport_intent
    && (not (is_dead_channel s.channel_attachment) && not (is_over s.lifecycle))

abbrev pub unknown_session : BrowserRuntimeError
unknown_session = runtime_error web_rtc_failed "unknown browser session key"

module _ (p : Platform) where
  abbrev pub EndpointId : Type 0
  EndpointId = p.iroh.EndpointId

  abbrev pub CustomAddr : Type 0
  CustomAddr = p.iroh.CustomAddr

  pub record BrowserConnectionState : Type 0 where
    pub iroh_connection : Option p.Connection
    pub session_key : Option Bytes
    pub transport : BrowserResolvedTransport
    pub closed : Bool

  -- The flags of a stream; its halves stay with iroh.
  pub record BrowserStreamState : Type 0 where
    pub closed_send : Bool
    pub closed_recv : Bool

  -- `BrowserRuntimeNodeInner`. `closed` and `accepts` are fields of `accepting`. The hub and the
  -- advertised addresses are the parts of `transport` that change.
  pub record Node : Type 0 where
    pub endpoint_id : EndpointId
    pub hub : SessionHub p.mpsc
    pub local_addrs : List CustomAddr
    pub relay_endpoint : Option p.Endpoint
    pub relay_router : Option p.Router
    pub webrtc_endpoint : Option p.Endpoint
    pub webrtc_router : Option p.Router
    pub benchmark_echo_tasks : List (Bytes × p.AbortHandle)
    pub browser_protocols : List Bytes
    pub benchmark_echo_alpns : List Bytes
    pub dial_ids : DialIdGenerator EndpointId
    pub sessions : List (Bytes × BrowserSessionState EndpointId)
    pub connections : List (ℕ × BrowserConnectionState)
    pub streams : List (ℕ × BrowserStreamState)
    pub accepting : Accepts EndpointId p.Waiter
    pub next_connection_key : ℕ
    pub next_stream_key : ℕ

  -- `sort_by` on the data of the addresses: stable, hence by insertion.
  abbrev pub insert_addr : CustomAddr → List CustomAddr → List CustomAddr
  insert_addr a [] = a ∷ []
  insert_addr a (b ∷ bs) =
      if bytes_less (p.iroh.addr_data b) (p.iroh.addr_data a)
      then b ∷ insert_addr a bs
      else a ∷ b ∷ bs

  abbrev pub sort_addrs : List CustomAddr → List CustomAddr
  sort_addrs [] = []
  sort_addrs (a ∷ rest) = insert_addr a (sort_addrs rest)

  -- `==` of two addresses.
  abbrev pub same_addr : CustomAddr → CustomAddr → Bool
  same_addr a b =
      p.iroh.addr_id a == p.iroh.addr_id b
      && same Bytes-discrete (p.iroh.addr_data a) (p.iroh.addr_data b)

  -- `dedup`, which keeps the first of each run of equal addresses.
  abbrev pub dedup_after : CustomAddr → List CustomAddr → List CustomAddr
  dedup_after a [] = []
  dedup_after a (b ∷ bs) = if same_addr a b then dedup_after a bs else b ∷ dedup_after b bs

  abbrev pub dedup : List CustomAddr → List CustomAddr
  dedup [] = []
  dedup (a ∷ rest) = a ∷ dedup_after a rest

  -- The `filter_map` over the sessions.
  abbrev pub session_addrs : List (BrowserSessionState EndpointId) → List CustomAddr
  session_addrs [] = []
  session_addrs (s ∷ ss) =
      if is_advertised s
      then to_custom_addr p.iroh (session_addr s.local s.dial_id) ∷ session_addrs ss
      else session_addrs ss

  unfoldable pub refresh_webrtc_transport_addrs : Node → Node
  refresh_webrtc_transport_addrs n = record n {
    local_addrs = dedup (
        sort_addrs (
          to_custom_addr p.iroh (capability_addr n.endpoint_id)
          ∷ session_addrs (values n.sessions)));
  }

  -- `sessions.get(key).ok_or_else(..)`
  abbrev pub find_session : Node → Bytes → Runtime (BrowserSessionState EndpointId)
  find_session n key = elim (get Bytes-discrete key n.sessions) [
    | none ↦ err unknown_session
    | some s ↦ ok s
  ]

  -- `*sessions.get_mut(key) = session`
  abbrev pub put_session : Node → Bytes → BrowserSessionState EndpointId → Node
  put_session n key s = record n { sessions = insert Bytes-discrete key s n.sessions }

  -- `update_session`: where it fails, the node is as it was.
  unfoldable pub update_session :
      Node
      → Bytes
      → (BrowserSessionState EndpointId → Runtime (BrowserSessionState EndpointId))
      → Runtime (BrowserSessionState EndpointId × Node)
  update_session n key update = do
    fail_if n.accepting.closed closed_error
    s ← find_session n key
    t ← update s
    ok (t, refresh_webrtc_transport_addrs (put_session n key t))
