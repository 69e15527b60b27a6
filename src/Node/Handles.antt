-- ===== src/Node/Handles.antt =====
-- crates/iroh-webrtc-transport/src/browser_runtime/node/connection.rs: closing a connection by its key,
-- and the handle of one that is open.
use iroh_webrtc_messenger.Common.{
  ℕ, true, Option, none, some, ok, err, ◌>>◌, fail_if, if◌then◌else◌, Bytes, Bytes-discrete,
  ℕ_discrete,
}
use iroh_webrtc_messenger.Common.Maps.{get, insert}
use iroh_webrtc_messenger.Runtime.{web_rtc_failed, runtime_error, closed_error, Runtime}
use iroh_webrtc_messenger.Session.{
  BrowserResolvedTransport, web_rtc, iroh_relay, BrowserSessionRole, is_dialer, is_open,
  BrowserSessionLifecycle, web_rtc_negotiating, application_ready, BrowserSessionState,
  validate_resolution, resolve_transport,
}
use iroh_webrtc_messenger.Session
use iroh_webrtc_messenger.Node.{
  Platform, Node, BrowserConnectionState, refresh_webrtc_transport_addrs, put_session,
}
use iroh_webrtc_messenger.Node.Connections.{is_web_rtc}

module _ (p : Platform) where
  -- `connection_close`, with the connection of iroh that it closes.
  abbrev pub close_session_at : Node p → Option Bytes → Node p
  close_session_at n none = n
  close_session_at n (some key) = elim (get Bytes-discrete key n.sessions) [
    | none ↦ n
    | some s ↦ put_session p n key (Session.close s)
  ]

  abbrev pub after_close : Node p → ℕ → BrowserConnectionState p → Node p
  after_close n key c =
      let marked : Node p = record n {
        connections = insert ℕ_discrete key (record c { closed = true }) n.connections;
      } in
      if is_web_rtc c.transport
      then refresh_webrtc_transport_addrs p (close_session_at marked c.session_key)
      else marked

  unfoldable pub connection_close : Node p → ℕ → Runtime (Option p.Connection × Node p)
  connection_close n key = do
    fail_if n.accepting.closed closed_error
    elim (get ℕ_discrete key n.connections) [
      | none ↦ err (runtime_error web_rtc_failed "unknown browser connection key")
      | some c ↦ ok (c.iroh_connection, after_close n key c)
    ]

  unfoldable pub iroh_connection : Node p → ℕ → Runtime p.Connection
  iroh_connection n key = do
    fail_if n.accepting.closed closed_error
    elim (get ℕ_discrete key n.connections) [
      | none ↦ err (runtime_error web_rtc_failed "unknown browser connection key")
      | some c ↦ if c.closed then err closed_error else elim c.iroh_connection [
        | none ↦ err (
            runtime_error web_rtc_failed
              "browser connection is not backed by an Iroh application connection")
        | some handle ↦ ok handle
      ]
    ]
