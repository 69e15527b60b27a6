-- ===== src/Node/Closing.antt =====
-- crates/iroh-webrtc-transport/src/browser_runtime/node/core.rs: a node is closed once. What is closed,
-- aborted or told outside of it is listed in a `Shutdown`.
use iroh_webrtc_messenger.Common.{
  ℕ, Bool, true, false, List, [], ◌∷◌, ◌++◌, Option, none, if◌then◌else◌, Bytes, map,
}
use iroh_webrtc_messenger.Common.Maps.{values}
use iroh_webrtc_messenger.Signal.{WebRtcSignal}
use iroh_webrtc_messenger.Hub
use iroh_webrtc_messenger.Session.{BrowserSessionState, close_for_node}
use iroh_webrtc_messenger.Accept.{AcceptRegistrationState}
use iroh_webrtc_messenger.Node.{Platform, EndpointId, Node, BrowserConnectionState}
use iroh_webrtc_messenger.Node.Signals.{option_list}

module _ (p : Platform) where
  pub record Shutdown : Type 0 where
    pub closed_now : Bool
    pub outbound_signals : List (WebRtcSignal (EndpointId p))
    pub wakers : List p.Waker
    pub done_waiters : List p.Waiter
    pub closed_connections : List p.Connection
    pub reset_streams : List ℕ
    pub aborted : List p.AbortHandle
    pub closed_endpoints : List p.Endpoint
    pub stopped_routers : List p.Router

  abbrev pub close_sessions :
      Option Bytes
      → List (Bytes × BrowserSessionState (EndpointId p))
      → List (Bytes × BrowserSessionState (EndpointId p))
  close_sessions reason [] = []
  close_sessions reason ((key, s) ∷ rest) =
      (key, (close_for_node s reason).0) ∷ close_sessions reason rest

  abbrev pub closing_signals :
      Option Bytes → List (BrowserSessionState (EndpointId p)) → List (WebRtcSignal (EndpointId p))
  closing_signals reason [] = []
  closing_signals reason (s ∷ rest) =
      option_list (close_for_node s reason).1 ++ closing_signals reason rest

  abbrev pub close_connections :
      List (ℕ × BrowserConnectionState p) → List (ℕ × BrowserConnectionState p)
  close_connections [] = []
  close_connections ((key, c) ∷ rest) = (key, record c { closed = true }) ∷ close_connections rest

  abbrev pub iroh_connections : List (BrowserConnectionState p) → List p.Connection
  iroh_connections [] = []
  iroh_connections (c ∷ rest) = option_list c.iroh_connection ++ iroh_connections rest

  -- `complete_waiters_done` of every registration that is drained.
  abbrev pub waiters_of : List (AcceptRegistrationState (EndpointId p) p.Waiter) → List p.Waiter
  waiters_of [] = []
  waiters_of (r ∷ rest) = r.waiters ++ waiters_of rest

  unfoldable pub close_inner : Node p → Option Bytes → Shutdown × Node p
  close_inner n reason =
      if n.accepting.closed
      then (
        record {
          closed_now = false;
          outbound_signals = [];
          wakers = [];
          done_waiters = [];
          closed_connections = [];
          reset_streams = [];
          aborted = [];
          closed_endpoints = [];
          stopped_routers = [];
        },
        n,
      )
      else (
        record {
          closed_now = true;
          outbound_signals = closing_signals reason (values n.sessions);
          wakers = (Hub.close p.mpsc n.hub).1;
          done_waiters = waiters_of (values n.accepting.accepts);
          closed_connections = iroh_connections (values n.connections);
          reset_streams = map (λ entry. entry.0) n.streams;
          aborted = values n.benchmark_echo_tasks;
          closed_endpoints = option_list n.relay_endpoint ++ option_list n.webrtc_endpoint;
          stopped_routers = option_list n.relay_router ++ option_list n.webrtc_router;
        },
        record n {
          hub = (Hub.close p.mpsc n.hub).0;
          relay_endpoint = none;
          relay_router = none;
          webrtc_endpoint = none;
          webrtc_router = none;
          benchmark_echo_tasks = [];
          sessions = close_sessions reason n.sessions;
          connections = close_connections n.connections;
          streams = [];
          accepting = record { accepts = []; closed = true };
        },
      )

  -- `node_close_result`: the outcome's `closed` is always true.
  abbrev pub node_close_result : Node p → Option Bytes → List (WebRtcSignal (EndpointId p)) × Node p
  node_close_result n reason = ((close_inner n reason).0.outbound_signals, (close_inner n reason).1)
