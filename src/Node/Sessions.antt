-- ===== src/Node/Sessions.antt =====
-- crates/iroh-webrtc-transport/src/browser_runtime/node/session.rs: the sessions of a node are
-- allocated by dials of its own and by dial requests of others, and change by their keys.
use iroh_webrtc_messenger.Common.{
  ℕ, Option, none, some, ok, err, ◌>>=◌, ◌>>◌, fail_if, if◌then◌else◌, Bytes, Bytes-discrete,
}
use iroh_webrtc_messenger.Common.Maps.{get}
use iroh_webrtc_messenger.Signal.{
  BootstrapTransportIntent, uses_webrtc, DialId, DialSessionId, WebRtcSignal, dial_request,
}
use iroh_webrtc_messenger.Signal.Dial.{next}
use iroh_webrtc_messenger.Runtime.{
  web_rtc_failed, runtime_error, closed_error, Runtime, session_key_of, validate_alpn,
}
use iroh_webrtc_messenger.Session.{
  BrowserResolvedTransport, BrowserSessionRole, dialer, acceptor, BrowserSessionState, new,
}
use iroh_webrtc_messenger.Session
use iroh_webrtc_messenger.Node.{
  Platform, EndpointId, Node, refresh_webrtc_transport_addrs, find_session, put_session,
  update_session,
}

pub record BrowserDialAllocation (EndpointId : Type 0) : Type 0 where
  pub session_key : Bytes
  pub dial_id : DialId
  pub generation : ℕ
  pub local : EndpointId
  pub remote : EndpointId
  pub alpn : Bytes
  pub transport_intent : BootstrapTransportIntent

-- The remote endpoint is written as a string, which is left to the caller here.
pub record BrowserDialStart (EndpointId : Type 0) : Type 0 where
  pub session_key : Bytes
  pub dial_id : Bytes
  pub generation : ℕ
  pub remote_endpoint : EndpointId
  pub alpn : Bytes
  pub transport_intent : BootstrapTransportIntent
  pub bootstrap_signal : WebRtcSignal EndpointId

module _ (p : Platform) where
  -- The session that a dial allocates, and the insertion with its refresh.
  abbrev pub insert_session : Node p → BrowserSessionState (EndpointId p) → Node p
  insert_session n s =
      if uses_webrtc s.transport_intent
      then refresh_webrtc_transport_addrs p (put_session p n s.session_key s)
      else put_session p n s.session_key s

  abbrev pub dialer_session :
      Node p
      → EndpointId p
      → Bytes
      → BootstrapTransportIntent
      → DialSessionId
      → BrowserSessionState (EndpointId p)
  dialer_session n remote alpn intent d =
      new (session_key_of d.dial_id) d.dial_id d.generation n.endpoint_id remote alpn dialer intent

  abbrev pub allocation_of :
      BrowserSessionState (EndpointId p) → BrowserDialAllocation (EndpointId p)
  allocation_of s = record {
    session_key = s.session_key;
    dial_id = s.dial_id;
    generation = s.generation;
    local = s.local;
    remote = s.remote;
    alpn = s.alpn;
    transport_intent = s.transport_intent;
  }

  -- `allocate_dial`; the generator panics where its counter would overflow, which is `none`.
  unfoldable pub allocate_dial :
      Node p
      → EndpointId p
      → Bytes
      → BootstrapTransportIntent
      → Runtime (Option (BrowserDialAllocation (EndpointId p) × Node p))
  allocate_dial n remote name intent = do
    alpn ← validate_alpn name
    fail_if n.accepting.closed closed_error
    ok (elim (next p.iroh p.blake3 n.dial_ids remote) [
      | none ↦ none
      | some (d, g) ↦
          let s : BrowserSessionState (EndpointId p) = dialer_session n remote alpn intent d in
          some (allocation_of s, insert_session (record n { dial_ids = g }) s)
    ])

  abbrev pub start_of : BrowserDialAllocation (EndpointId p) → BrowserDialStart (EndpointId p)
  start_of a = record {
    session_key = a.session_key;
    dial_id = session_key_of a.dial_id;
    generation = a.generation;
    remote_endpoint = a.remote;
    alpn = a.alpn;
    transport_intent = a.transport_intent;
    bootstrap_signal =
        dial_request a.dial_id a.local a.remote a.generation a.alpn a.transport_intent;
  }

  unfoldable pub allocate_dial_start :
      Node p
      → EndpointId p
      → Bytes
      → BootstrapTransportIntent
      → Runtime (Option (BrowserDialStart (EndpointId p) × Node p))
  allocate_dial_start n remote alpn intent = do
    allocated ← allocate_dial n remote alpn intent
    ok (elim allocated [ none ↦ none | some (a, n') ↦ some (start_of a, n') ])

  abbrev pub acceptor_session :
      Node p
      → EndpointId p
      → Bytes
      → DialSessionId
      → BootstrapTransportIntent
      → BrowserSessionState (EndpointId p)
  acceptor_session n remote alpn d intent =
      new (session_key_of d.dial_id) d.dial_id d.generation n.endpoint_id remote alpn acceptor
        intent

  -- `contains_key`
  abbrev pub fail_if_allocated : Node p → Bytes → Runtime (Unit {0})
  fail_if_allocated n key = elim (get Bytes-discrete key n.sessions) [
    | none ↦ ok tt
    | some s ↦ err (runtime_error web_rtc_failed "browser session key is already allocated")
  ]

  unfoldable pub allocate_accept_session :
      Node p
      → EndpointId p
      → Bytes
      → DialSessionId
      → BootstrapTransportIntent
      → Runtime (BrowserSessionState (EndpointId p) × Node p)
  allocate_accept_session n remote name d intent = do
    alpn ← validate_alpn name
    fail_if n.accepting.closed closed_error
    fail_if_allocated n (session_key_of d.dial_id)
    ok (
      acceptor_session n remote alpn d intent,
      insert_session n (acceptor_session n remote alpn d intent),
    )

  abbrev pub attach_transferred_channel :
      Node p → Bytes → Runtime (BrowserSessionState (EndpointId p) × Node p)
  attach_transferred_channel n key = update_session p n key Session.attach_transferred_channel

  abbrev pub mark_transferred_channel_open :
      Node p → Bytes → Runtime (BrowserSessionState (EndpointId p) × Node p)
  mark_transferred_channel_open n key = update_session p n key Session.mark_transferred_channel_open

  abbrev pub complete_dial :
      Node p
      → Bytes
      → BrowserResolvedTransport
      → Runtime (BrowserSessionState (EndpointId p) × Node p)
  complete_dial n key transport = update_session p n key (λ s. Session.complete_dial s transport)

  -- `session_snapshot`, which also answers for a closed node.
  abbrev pub session_snapshot : Node p → Bytes → Runtime (BrowserSessionState (EndpointId p))
  session_snapshot n key = find_session p n key
