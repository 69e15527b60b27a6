-- ===== src/Node/Refines/Connections.antt =====
-- The calls of node/connection.rs, node/stream.rs and closing at one entry of the table of sessions.
use iroh_webrtc_messenger.Common.{
  Bool, ◌≡◌, refl, Option, none, some, ok, Bytes, Bytes-discrete, arith, inl, inr, Option-cases,
  Bool-cases, Result-cases, ◌&&◌, not,
}
use iroh_webrtc_messenger.Common.Maps.{get, values}
use iroh_webrtc_messenger.Session.{
  BrowserSessionState, BrowserResolvedTransport, web_rtc, resolve_transport, validate_resolution,
}
use iroh_webrtc_messenger.Accept.{BrowserAcceptedConnection, AcceptRegistrationState, push_or_wake}
use iroh_webrtc_messenger.Session.Invariant.{resolves, step}
use iroh_webrtc_messenger.Node.{Platform, EndpointId, Node, refresh_webrtc_transport_addrs}
use iroh_webrtc_messenger.Node.Signals.{contains_accept}
use iroh_webrtc_messenger.Node.Connections.{
  allocate_connection_key, check_admission, resolve_at, finish_admission, queue_admission,
  admit_checked, admit_iroh_application_connection,
}
use iroh_webrtc_messenger.Node.Calls.{after_maybe, after_admission}
use iroh_webrtc_messenger.Node.Paths.{require_webrtc_selected_path}
use iroh_webrtc_messenger.Node.Matching.{find_match, resolve_matched, accept_webrtc_connection}
use iroh_webrtc_messenger.Node.Refines.{EvolvesAt, put-Evolves, same-Evolves, moved-Evolves}

module _ (p : Platform) where
  resolve_transport-step :
      (s t : BrowserSessionState (EndpointId p)) (transport : BrowserResolvedTransport)
      → resolve_transport s transport ≡ ok t
      → t ≡ step s (resolves transport)
  unfolding step
  resolve_transport-step s t transport e = ground (arith, e)

  resolve_at-Evolves :
      (n : Node p) (j : Bytes) (session_key : Option Bytes) (transport : BrowserResolvedTransport)
      → EvolvesAt p n.endpoint_id n.sessions (resolve_at p n session_key transport).1.sessions j
  resolve_at-Evolves n j none transport = same-Evolves p n.endpoint_id n.sessions _ j refl
  resolve_at-Evolves n j (some key) transport =
      elim (Option-cases (get Bytes-discrete key n.sessions)) [
        | inl missing ↦ same-Evolves p n.endpoint_id n.sessions _ j (ground (arith, missing))
        | inr (s, found) ↦ elim (Result-cases (resolve_transport s transport)) [
          | inr (e, bad) ↦ same-Evolves p n.endpoint_id n.sessions _ j (ground (arith, found, bad))
          | inl (t, good) ↦
              put-Evolves p n.endpoint_id n.sessions _ key j s t (resolves transport) found
                (resolve_transport-step s t transport good) (ground (arith, found, good))
        ]
      ]

  queue_admission-Evolves :
      (alive : p.Waiter → Bool) (n : Node p) (j : Bytes) (c : p.Connection)
      (connection : BrowserAcceptedConnection (EndpointId p))
      (r : AcceptRegistrationState (EndpointId p) p.Waiter)
      → EvolvesAt p n.endpoint_id n.sessions
          (queue_admission p alive n c connection r).node.sessions
          j
  queue_admission-Evolves alive n j c connection r =
      elim (Result-cases (push_or_wake alive r connection).0) [
        | inr (e, full) ↦ same-Evolves p n.endpoint_id n.sessions _ j (ground (arith, full))
        | inl (u, room) ↦
            moved-Evolves p n.endpoint_id n.sessions _ _ j (ground (arith, room))
              (resolve_at-Evolves n j connection.session_key connection.transport)
      ]

  finish_admission-Evolves :
      (n : Node p) (j : Bytes) (c : p.Connection)
      (connection : BrowserAcceptedConnection (EndpointId p)) (waiter : Option p.Waiter)
      → EvolvesAt p n.endpoint_id n.sessions
          (finish_admission p n c connection waiter).node.sessions
          j
  finish_admission-Evolves n j c connection waiter =
      moved-Evolves p n.endpoint_id n.sessions _ _ j (ground arith)
        (resolve_at-Evolves n j connection.session_key connection.transport)

  admit_checked-Evolves :
      (alive : p.Waiter → Bool) (n : Node p) (j : Bytes) (c : p.Connection)
      (transport : BrowserResolvedTransport) (session_key : Option Bytes) (queue_accept : Bool)
      → EvolvesAt p n.endpoint_id n.sessions
          (after_admission p n
            (admit_checked p alive n c transport session_key queue_accept)).sessions
          j
  unfolding allocate_connection_key
  admit_checked-Evolves alive n j c transport session_key queue_accept =
      elim (Option-cases (allocate_connection_key p n)) [
        | inl panics ↦ same-Evolves p n.endpoint_id n.sessions _ j (ground (arith, panics))
        | inr ((key, n'), fresh) ↦
            let connection : BrowserAcceptedConnection (EndpointId p) = record {
              key = key;
              session_key = session_key;
              remote = p.remote_id c;
              alpn = p.connection_alpn c;
              transport = transport;
            } in
            elim (Bool-cases queue_accept) [
              | inr off ↦
                  moved-Evolves p n.endpoint_id n.sessions _ _ j (ground (arith, fresh, off))
                    (finish_admission-Evolves n j c connection none)
              | inl on ↦
                  elim (Option-cases
                    (get Bytes-discrete (p.connection_alpn c) n'.accepting.accepts)) [
                      | inl missing ↦
                          same-Evolves p n.endpoint_id n.sessions _ j
                            (ground (arith, fresh, on, missing))
                      | inr (r, found) ↦
                          moved-Evolves p n.endpoint_id n.sessions _ _ j
                            (ground (arith, fresh, on, found))
                            (queue_admission-Evolves alive n j c connection r)
                    ]
            ]
      ]

  pub admits-Evolves :
      (alive : p.Waiter → Bool) (n : Node p) (j : Bytes) (c : p.Connection)
      (transport : BrowserResolvedTransport) (session_key : Option Bytes) (queue_accept : Bool)
      → EvolvesAt p n.endpoint_id n.sessions
          (after_admission p n (
            admit_iroh_application_connection p alive n c transport session_key
              queue_accept)).sessions
          j
  unfolding admit_iroh_application_connection
  admits-Evolves alive n j c transport session_key queue_accept =
      elim (Bool-cases n.accepting.closed) [
        | inl down ↦ same-Evolves p n.endpoint_id n.sessions _ j (ground (arith, down))
        | inr up ↦
            elim (Bool-cases (queue_accept && not (contains_accept p n (p.connection_alpn c)))) [
              | inl foreign ↦
                  same-Evolves p n.endpoint_id n.sessions _ j (ground (arith, up, foreign))
              | inr known ↦ elim (Result-cases (check_admission p n c transport session_key)) [
                | inr (e, bad) ↦
                    same-Evolves p n.endpoint_id n.sessions _ j (ground (arith, up, known, bad))
                | inl (u, good) ↦
                    moved-Evolves p n.endpoint_id n.sessions _ _ j (ground (arith, up, known, good))
                      (admit_checked-Evolves alive n j c transport session_key queue_accept)
              ]
            ]
      ]

  resolve_matched-Evolves :
      (n : Node p) (j key : Bytes)
      → EvolvesAt p n.endpoint_id n.sessions (after_maybe p n (resolve_matched p n key)).sessions j
  unfolding refresh_webrtc_transport_addrs
  resolve_matched-Evolves n j key = elim (Option-cases (get Bytes-discrete key n.sessions)) [
    | inl missing ↦ same-Evolves p n.endpoint_id n.sessions _ j (ground (arith, missing))
    | inr (s, found) ↦
        elim (Result-cases (validate_resolution web_rtc s.transport_intent s.channel_attachment)) [
          | inr (e, bad) ↦ same-Evolves p n.endpoint_id n.sessions _ j (ground (arith, found, bad))
          | inl (u, fine) ↦ elim (Result-cases (resolve_transport s web_rtc)) [
            | inr (e, bad) ↦
                same-Evolves p n.endpoint_id n.sessions _ j (ground (arith, found, fine, bad))
            | inl (t, good) ↦
                put-Evolves p n.endpoint_id n.sessions _ key j s t (resolves web_rtc) found
                  (resolve_transport-step s t web_rtc good) (ground (arith, found, fine, good))
          ]
        ]
  ]

  pub matches-Evolves :
      (n : Node p) (j : Bytes) (c : p.Connection)
      → EvolvesAt p n.endpoint_id n.sessions
          (after_maybe p n (accept_webrtc_connection p n c)).sessions
          j
  unfolding accept_webrtc_connection
  matches-Evolves n j c = elim (Bool-cases n.accepting.closed) [
    | inl down ↦ same-Evolves p n.endpoint_id n.sessions _ j (ground (arith, down))
    | inr up ↦
        elim (Option-cases
          (find_match p (p.remote_id c) (p.connection_alpn c) (values n.sessions))) [
            | inl unmatched ↦
                same-Evolves p n.endpoint_id n.sessions _ j (ground (arith, up, unmatched))
            | inr (s, found) ↦
                elim (Result-cases (require_webrtc_selected_path p c s.remote s.dial_id)) [
                  | inr (e, bad) ↦
                      same-Evolves p n.endpoint_id n.sessions _ j (ground (arith, up, found, bad))
                  | inl (u, good) ↦
                      moved-Evolves p n.endpoint_id n.sessions _ _ j
                        (ground (arith, up, found, good))
                        (resolve_matched-Evolves n j s.session_key)
                ]
          ]
  ]
