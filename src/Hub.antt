-- ===== src/Hub.antt =====
-- crates/iroh-webrtc-transport/src/core/hub.rs: `SessionHub`, the receive queue that all sessions
-- share and the outbound route of each session. A method returns its result, the new hub and the
-- wakers that it wakes, the first first. The clock's readings are arguments.
pub mod Calls
pub mod Receive
pub mod Delivery
pub mod Outbound
mod Tests
use iroh_webrtc_messenger.Common.{
  ℕ, Bool, true, false, not, List, [], ◌∷◌, ◌++◌, map, Option, none, some, Result, ok, err, Poll,
  ready, pending, leb, ltb, if◌then◌else◌, Bytes, Bytes-discrete, length, ◌+◌,
}
use iroh_webrtc_messenger.Common.Maps.{get, insert, remove, values}
use iroh_webrtc_messenger.Errors.{Error, session_closed, send_queue_full, Fallible, Io, io_error}
use iroh_webrtc_messenger.Frame.{WebRtcPacketFrame, frame_session_id}
use iroh_webrtc_messenger.Iroh.{Iroh}
use iroh_webrtc_messenger.Mpsc.{Mpsc}
use iroh_webrtc_messenger.Addr.{WebRtcAddr, WebRtcAddrKind, session, capability, from_custom_addr}
use iroh_webrtc_messenger.Stats.{
  fetch_add, update_max, record_gap_ms, HubStats, WebRtcTransportStats, no_stats,
}

-- `DEFAULT_SESSION_QUEUE_CAPACITY`
abbrev pub default_session_queue_capacity : ℕ
default_session_queue_capacity = 1024

pub record QueuedPacket (CustomAddr : Type 0) : Type 0 where
  pub source : CustomAddr
  pub frame : WebRtcPacketFrame

pub record OutboundPacket (CustomAddr : Type 0) : Type 0 where
  pub destination : CustomAddr
  pub bytes : Bytes

-- `if let Some(waker) = slot.take() { waker.wake() }`: the wakers woken.
abbrev pub woken {ℓ} : {A : Type ℓ} → Option A → List A
woken none = []
woken (some w) = w ∷ []

-- `session_id_from_destination`
unfoldable pub session_id_from_destination : (iroh : Iroh) → iroh.CustomAddr → Option Bytes
session_id_from_destination iroh destination = elim (from_custom_addr iroh destination) [
  | err e ↦ none
  | ok a ↦ elim a.kind [ session session_id ↦ some session_id | capability ↦ none ]
]

module _ {CustomAddr Waker : Type 0} (mpsc : Mpsc Waker (OutboundPacket CustomAddr)) where
  open mpsc use {will_wake, Channel, channel, poll_reserve, send_item, depth}

  pub record OutboundRoute : Type 0 where
    pub sender : Channel
    pub pending_waker : Option Waker

  pub record SessionState : Type 0 where
    pub recv : List (QueuedPacket CustomAddr)
    pub outbound : List (Bytes × OutboundRoute)
    pub recv_waker : Option Waker
    pub recv_capacity : ℕ
    pub outbound_capacity : ℕ
    pub closed : Bool

  pub record SessionHub : Type 0 where
    pub state : SessionState
    pub stats : WebRtcTransportStats

  -- `SessionHub::with_capacities`; the default takes `default_session_queue_capacity` twice.
  unfoldable pub with_capacities : ℕ → ℕ → SessionHub
  with_capacities recv_capacity outbound_capacity = record {
    state = record {
      recv = [];
      outbound = [];
      recv_waker = none;
      recv_capacity = recv_capacity;
      outbound_capacity = outbound_capacity;
      closed = false;
    };
    stats = no_stats;
  }

  -- The counters of a push into the receive queue: the wake is counted and timed where there is one.
  unfoldable pub count_recv_push : ℕ → ℕ → Option Waker → HubStats → HubStats
  count_recv_push now later waker s = elim waker [
    | none ↦ record s {
      recv_pushes = fetch_add s.recv_pushes 1;
      recv_push_gap = record_gap_ms now s.recv_push_gap;
    }
    | some w ↦ record s {
      recv_pushes = fetch_add s.recv_pushes 1;
      recv_push_gap = record_gap_ms now s.recv_push_gap;
      recv_wakes = fetch_add s.recv_wakes 1;
      recv_wake_to_poll_gap = record s.recv_wake_to_poll_gap { last_ms = later };
    }
  ]

  unfoldable pub push_received :
      ℕ → ℕ → SessionHub → QueuedPacket CustomAddr → Fallible (Unit {0}) × SessionHub × List Waker
  push_received now later h packet =
      if h.state.closed
      then (err session_closed, h, [])
      else if leb h.state.recv_capacity (length h.state.recv)
      then (err send_queue_full, h, [])
      else (
        ok tt,
        record {
          state = record h.state { recv = h.state.recv ++ packet ∷ []; recv_waker = none };
          stats = record h.stats { hub = count_recv_push now later h.state.recv_waker h.stats.hub };
        },
        woken h.state.recv_waker,
      )

  -- `pop_received`, with the waker of the task that polls; it wakes nobody.
  unfoldable pub pop_received :
      Waker → SessionHub → Poll (Io (QueuedPacket CustomAddr)) × SessionHub
  pop_received cx h = elim h.state.recv [
    | packet ∷ rest ↦ (ready (ok packet), record h { state = record h.state { recv = rest } })
    | [] ↦ if h.state.closed then (ready (err (io_error session_closed)), h) else (
      pending,
      record {
        state = record h.state { recv_waker = some cx };
        stats = record h.stats {
          hub = record h.stats.hub { recv_waker_sets = fetch_add h.stats.hub.recv_waker_sets 1 };
        };
      },
    )
  ]

  -- The channel whose receiving half is returned, and the hub.
  unfoldable pub register_outbound_session : Bytes → SessionHub → Channel × SessionHub
  register_outbound_session session_id h =
      let sender = channel h.state.outbound_capacity in
      if h.state.closed then (sender, h) else (
        sender,
        record h {
          state = record h.state {
            outbound =
                insert Bytes-discrete session_id (record { sender = sender; pending_waker = none })
                  h.state.outbound;
          };
        },
      )

  -- The hub with the route of a session replaced, which is a write through `get_mut`.
  abbrev pub set_route : Bytes → OutboundRoute → SessionHub → SessionHub
  set_route session_id route h = record h {
    state = record h.state { outbound = insert Bytes-discrete session_id route h.state.outbound };
  }

  -- `is_none_or(|waker| !waker.will_wake(cx.waker()))`
  abbrev pub should_store : Waker → Option Waker → Bool
  should_store cx none = true
  should_store cx (some waker) = not (will_wake waker cx)

  abbrev pub count_full : Bool → HubStats → HubStats
  count_full stores s = record s {
    outbound_full = fetch_add s.outbound_full 1;
    outbound_waker_sets =
        if stores then fetch_add s.outbound_waker_sets 1 else s.outbound_waker_sets;
  }

  -- `get_ref().map(..).unwrap_or(0)`
  abbrev pub depth_or_zero : Channel → ℕ
  depth_or_zero c = elim (depth c) [ none ↦ 0 | some n ↦ n ]

  abbrev pub count_outbound_push : ℕ → ℕ → ℕ → HubStats → HubStats
  count_outbound_push now packet_bytes outbound_depth s = record s {
    outbound_pushes = fetch_add s.outbound_pushes 1;
    outbound_bytes = fetch_add s.outbound_bytes packet_bytes;
    outbound_depth_max = update_max s.outbound_depth_max (outbound_depth + 1);
    outbound_push_gap = record_gap_ms now s.outbound_push_gap;
  }

  -- A packet sent over a route whose channel has room.
  unfoldable pub send_reserved :
      ℕ
      → SessionHub
      → Bytes
      → Channel
      → OutboundPacket CustomAddr
      → Fallible (Unit {0}) × SessionHub
  send_reserved now h session_id sender packet =
      let (result, after) = send_item packet sender in
      let sent = set_route session_id (record { sender = after; pending_waker = none }) h in
      elim result [
        | err e ↦ (err session_closed, sent)
        | ok u ↦ (
          ok tt,
          record sent {
            stats = record sent.stats {
              hub =
                  count_outbound_push now (length packet.bytes) (depth_or_zero sender)
                    sent.stats.hub;
            };
          },
        )
      ]

  -- The part of `poll_push_outbound` that has found the route.
  unfoldable pub push_on_route :
      ℕ
      → Waker
      → SessionHub
      → Bytes
      → OutboundRoute
      → OutboundPacket CustomAddr
      → Poll (Fallible (Unit {0})) × SessionHub
  push_on_route now cx h session_id route packet =
      let (reserved, sender) = poll_reserve cx route.sender in
      elim reserved [
        | pending ↦
            let stores = should_store cx route.pending_waker in
            let kept = if stores then some cx else route.pending_waker in
            let waiting =
              set_route session_id (record { sender = sender; pending_waker = kept }) h in
            (
              pending,
              record waiting {
                stats = record waiting.stats { hub = count_full stores waiting.stats.hub };
              },
            )
        | ready r ↦ elim r [
          | err e ↦ (
            ready (err session_closed),
            set_route session_id (record { sender = sender; pending_waker = none }) h,
          )
          | ok u ↦ let sent = send_reserved now h session_id sender packet in (ready sent.0, sent.1)
        ]
      ]

  -- `poll_push_outbound`, with the waker of the task that polls; it wakes nobody.
  unfoldable pub poll_push_outbound :
      ℕ → Waker → SessionHub → OutboundPacket CustomAddr → Poll (Fallible (Unit {0})) × SessionHub
  poll_push_outbound now cx h packet = elim (frame_session_id packet.bytes) [
    | err e ↦ (ready (err e), h)
    | ok session_id ↦
        if h.state.closed
        then (ready (err session_closed), h)
        else elim (get Bytes-discrete session_id h.state.outbound) [
          | none ↦ (ready (err session_closed), h)
          | some route ↦ push_on_route now cx h session_id route packet
        ]
  ]

  -- `hub_outbound_wakes` is counted for each waker woken.
  abbrev pub count_wakes : ℕ → HubStats → HubStats
  count_wakes n s = record s { outbound_wakes = fetch_add s.outbound_wakes n }

  unfoldable pub unregister_outbound_session : Bytes → SessionHub → Bool × SessionHub × List Waker
  unregister_outbound_session session_id h = elim (get Bytes-discrete session_id h.state.outbound) [
    | none ↦ (false, h, [])
    | some route ↦ (
      true,
      record {
        state = record h.state { outbound = remove Bytes-discrete session_id h.state.outbound };
        stats = record h.stats {
          hub = count_wakes (length (woken route.pending_waker)) h.stats.hub;
        };
      },
      woken route.pending_waker,
    )
  ]

  -- The pending wakers of some routes, which `close` wakes in the order it drains them.
  unfoldable pub pending_wakers : List OutboundRoute → List Waker
  pending_wakers [] = []
  pending_wakers (route ∷ routes) = woken route.pending_waker ++ pending_wakers routes

  unfoldable pub close : SessionHub → SessionHub × List Waker
  unfolding pending_wakers
  close h =
      let waiting = pending_wakers (values h.state.outbound) in
      (
        record {
          state = record h.state { closed = true; recv_waker = none; outbound = [] };
          stats = record h.stats { hub = count_wakes (length waiting) h.stats.hub };
        },
        woken h.state.recv_waker ++ waiting,
      )

  unfoldable pub sum_depths : List OutboundRoute → ℕ
  sum_depths [] = 0
  sum_depths (route ∷ routes) = depth_or_zero route.sender + sum_depths routes

  unfoldable pub queue_depths : SessionHub → ℕ × ℕ
  queue_depths h = (length h.state.recv, sum_depths (values h.state.outbound))

module _ (iroh : Iroh) {Waker : Type 0} (mpsc : Mpsc Waker (OutboundPacket (iroh.CustomAddr))) where
  unfoldable pub unregister_outbound_for :
      iroh.CustomAddr → SessionHub mpsc → Bool × SessionHub mpsc × List Waker
  unregister_outbound_for destination h = elim (session_id_from_destination iroh destination) [
    | none ↦ (false, h, [])
    | some session_id ↦ unregister_outbound_session mpsc session_id h
  ]
