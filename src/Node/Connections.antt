-- ===== src/Node/Connections.antt =====
-- crates/iroh-webrtc-transport/src/browser_runtime/node/connection.rs (admission):
-- how a connection of iroh becomes one of the application.
use iroh_webrtc_messenger.Common.{
  ℕ, ◌+◌, ◌^◌, Bool, true, false, not, ◌&&◌, List, [], ◌∷◌, Option, none, some, ok, err, ◌>>◌,
  if◌then◌else◌, ltb, Bytes, Bytes-discrete, ℕ_discrete,
}
use iroh_webrtc_messenger.Common.Maps.{get, insert}
use iroh_webrtc_messenger.Runtime.{
  web_rtc_failed, unsupported_alpn, runtime_error, closed_error, about, BrowserRuntimeError,
  Runtime,
}
use iroh_webrtc_messenger.Session.{
  BrowserResolvedTransport, web_rtc, iroh_relay, BrowserSessionState, validate_resolution,
  resolve_transport,
}
use iroh_webrtc_messenger.Accept.{BrowserAcceptedConnection, AcceptRegistrationState, push_or_wake}
use iroh_webrtc_messenger.Node.{Platform, EndpointId, Node, put_session}
use iroh_webrtc_messenger.Node.Signals.{contains_accept}
use iroh_webrtc_messenger.Node.Paths.{require_webrtc_selected_path}

abbrev pub is_web_rtc : BrowserResolvedTransport → Bool
is_web_rtc web_rtc = true
is_web_rtc iroh_relay = false

module _ (p : Platform) where
  -- What an admission does: its result, the node, the waiter that is sent the connection, and the
  -- connections of iroh that it closes.
  pub record Admission : Type 0 where
    pub result : Runtime (BrowserAcceptedConnection (EndpointId p))
    pub node : Node p
    pub sent_to : Option p.Waiter
    pub closed_connections : List p.Connection

  -- `allocate_connection_key`, which panics where the counter would overflow.
  unfoldable pub allocate_connection_key : Node p → Option (ℕ × Node p)
  allocate_connection_key n =
      if ltb (n.next_connection_key + 1) (2 ^ 64)
      then some
          (n.next_connection_key, record n { next_connection_key = n.next_connection_key + 1 })
      else none

  -- `if let Some(session) = sessions.get(key) { validate_transport_resolution(session, ..)? }`
  abbrev pub validate_known :
      Option (BrowserSessionState (EndpointId p)) → BrowserResolvedTransport → Runtime (Unit {0})
  validate_known none transport = ok tt
  validate_known (some s) transport =
      validate_resolution transport s.transport_intent s.channel_attachment

  abbrev pub session_at : Node p → Option Bytes → Option (BrowserSessionState (EndpointId p))
  session_at n none = none
  session_at n (some key) = get Bytes-discrete key n.sessions

  -- What only a connection over WebRTC must pass.
  abbrev pub check_webrtc : Node p → p.Connection → Option Bytes → Runtime (Unit {0})
  check_webrtc n c none =
      err (runtime_error web_rtc_failed "WebRTC connection admission requires a session key")
  check_webrtc n c (some key) = elim (get Bytes-discrete key n.sessions) [
    | none ↦
        err (runtime_error web_rtc_failed "WebRTC connection admission has no matching session")
    | some s ↦ require_webrtc_selected_path p c s.remote s.dial_id
  ]

  -- The checks of an admission, after that of the ALPN.
  unfoldable pub check_admission :
      Node p → p.Connection → BrowserResolvedTransport → Option Bytes → Runtime (Unit {0})
  check_admission n c transport session_key = do
    validate_known (session_at n session_key) transport
    if is_web_rtc transport then check_webrtc n c session_key else ok tt

  -- `session.resolve_transport(transport)?` on the session with that key, if there is one.
  abbrev pub resolve_at :
      Node p → Option Bytes → BrowserResolvedTransport → Runtime (Unit {0}) × Node p
  resolve_at n none transport = (ok tt, n)
  resolve_at n (some key) transport = elim (get Bytes-discrete key n.sessions) [
    | none ↦ (ok tt, n)
    | some s ↦ elim (resolve_transport s transport) [
      | err e ↦ (err e, n)
      | ok t ↦ (ok tt, put_session p n key t)
    ]
  ]

  abbrev pub insert_connection :
      Node p → ℕ → Option p.Connection → Option Bytes → BrowserResolvedTransport → Node p
  insert_connection n key c session_key transport = record n {
    connections =
        insert ℕ_discrete key
          (record {
            iroh_connection = c;
            session_key = session_key;
            transport = transport;
            closed = false;
          })
          n.connections;
  }

  -- The registration's part, and the node with it.
  abbrev pub put_registration :
      Node p → Bytes → AcceptRegistrationState (EndpointId p) p.Waiter → Node p
  put_registration n alpn r = record n {
    accepting = record n.accepting { accepts = insert Bytes-discrete alpn r n.accepting.accepts };
  }

  -- An admission after its queue has taken the connection.
  abbrev pub finish_admission :
      Node p → p.Connection → BrowserAcceptedConnection (EndpointId p) → Option p.Waiter → Admission
  finish_admission n c connection waiter =
      let resolved : Runtime (Unit {0}) × Node p =
        resolve_at
          (insert_connection n connection.key (some c) connection.session_key connection.transport)
          connection.session_key connection.transport in
      record {
        result = resolved.0 >> ok connection;
        node = resolved.1;
        sent_to = waiter;
        closed_connections = [];
      }

  -- `push_or_wake(..)?`: where the queue is full, the key is spent and nothing is inserted.
  abbrev pub queue_admission :
      (p.Waiter → Bool)
      → Node p
      → p.Connection
      → BrowserAcceptedConnection (EndpointId p)
      → AcceptRegistrationState (EndpointId p) p.Waiter
      → Admission
  queue_admission alive n c connection r =
      let pushed : Runtime (Unit {0})
          × AcceptRegistrationState (EndpointId p) p.Waiter
          × Option p.Waiter =
        push_or_wake alive r connection in
      elim pushed.0 [
        | ok u ↦
            finish_admission (put_registration n connection.alpn pushed.1) c connection pushed.2
        | err e ↦ record {
          result = err e;
          node = put_registration n connection.alpn pushed.1;
          sent_to = none;
          closed_connections = [];
        }
      ]

  abbrev pub refused : BrowserRuntimeError → Node p → List p.Connection → Admission
  refused e n closes = record {
    result = err e;
    node = n;
    sent_to = none;
    closed_connections = closes;
  }

  -- The part of an admission that has passed the checks. `expect` on the registration panics where
  -- there is none, which the check of the ALPN excludes.
  abbrev pub admit_checked :
      (p.Waiter → Bool)
      → Node p
      → p.Connection
      → BrowserResolvedTransport
      → Option Bytes
      → Bool
      → Option Admission
  admit_checked alive n c transport session_key queue_accept = elim (allocate_connection_key n) [
    | none ↦ none
    | some (key, n') ↦
        let connection : BrowserAcceptedConnection (EndpointId p) = record {
          key = key;
          session_key = session_key;
          remote = p.remote_id c;
          alpn = p.connection_alpn c;
          transport = transport;
        } in
        if queue_accept
        then elim (get Bytes-discrete (p.connection_alpn c) n'.accepting.accepts) [
          | none ↦ none
          | some r ↦ some (queue_admission alive n' c connection r)
        ]
        else some (finish_admission n' c connection none)
  ]

  -- `admit_iroh_application_connection_with_key`
  unfoldable pub admit_iroh_application_connection :
      (p.Waiter → Bool)
      → Node p
      → p.Connection
      → BrowserResolvedTransport
      → Option Bytes
      → Bool
      → Option Admission
  admit_iroh_application_connection alive n c transport session_key queue_accept =
      if n.accepting.closed
      then some (refused closed_error n [])
      else if queue_accept && not (contains_accept p n (p.connection_alpn c))
      then some (
          refused
            (record {
              code = unsupported_alpn;
              message = about "no active accept registration for ALPN" (p.connection_alpn c);
            })
            n (c ∷ []))
      else elim (check_admission n c transport session_key) [
        | err e ↦ some (refused e n [])
        | ok u ↦ admit_checked alive n c transport session_key queue_accept
      ]
