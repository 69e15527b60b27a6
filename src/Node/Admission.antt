-- ===== src/Node/Admission.antt =====
-- What the admission of a connection needs, and the connections that it makes known.
use iroh_webrtc_messenger.Common.{
  ◌+◌, ◌≡◌, refl, true, false, not, ◌&&◌, Bool, arith, Option, none, some, ok, err, Bytes,
  Bytes-discrete, ℕ_discrete, inl, inr, Option-cases, Bool-cases, Result-cases,
}
use iroh_webrtc_messenger.Common.Maps.{get, get-insert}
use iroh_webrtc_messenger.Signal.{uses_webrtc}
use iroh_webrtc_messenger.Session.{
  BrowserSessionState, BrowserResolvedTransport, web_rtc, open_, validate_resolution,
  resolve_transport,
}
use iroh_webrtc_messenger.Accept.{BrowserAcceptedConnection, AcceptRegistrationState, push_or_wake}
use iroh_webrtc_messenger.Node.{Platform, EndpointId, Node, BrowserConnectionState}
use iroh_webrtc_messenger.Node.Signals.{contains_accept}
use iroh_webrtc_messenger.Node.Connections.{
  Admission, allocate_connection_key, check_admission, admit_iroh_application_connection,
  insert_connection, finish_admission, queue_admission, put_registration, admit_checked, resolve_at,
}
use iroh_webrtc_messenger.Node.Paths.{require_webrtc_selected_path}
use iroh_webrtc_messenger.Node.Handles.{iroh_connection}

module _ (p : Platform) where
  -- The session with that key allows WebRTC, its channel is open, and the connection's selected path is
  -- that of the session.
  abbrev pub IsOverItsChannel : Node p → p.Connection → Option Bytes → Type 0
  IsOverItsChannel n c session_key =
      (key : Bytes) × (s : BrowserSessionState (EndpointId p)) × (session_key ≡ some key)
      × (get Bytes-discrete key n.sessions ≡ some s)
      × (uses_webrtc s.transport_intent ≡ true)
      × (s.channel_attachment ≡ open_)
      × (require_webrtc_selected_path p c s.remote s.dial_id ≡ ok tt)

  -- What the checks of an admission over WebRTC establish.
  pub check_admission-web_rtc :
      (n : Node p) (c : p.Connection) (session_key : Option Bytes)
      → check_admission p n c web_rtc session_key ≡ ok tt
      → IsOverItsChannel n c session_key
  unfolding check_admission validate_resolution
  check_admission-web_rtc n c none h = absurd (ground (arith, h))
  check_admission-web_rtc n c (some key) h =
      elim (Option-cases (get Bytes-discrete key n.sessions)) [
        | inl missing ↦ absurd (ground (arith, h, missing))
        | inr (s, found) ↦
            elim (Result-cases
              (validate_resolution web_rtc s.transport_intent s.channel_attachment)) [
                | inr (e, bad) ↦ absurd (ground (arith, h, found, bad))
                | inl (u, good) ↦ (
                  key,
                  s,
                  refl,
                  found,
                  ground (arith, good),
                  ground (arith, good),
                  ground (arith, h, found, good),
                )
              ]
      ]

  -- A session that passes the check can be resolved.
  resolve_at-ok :
      (n m : Node p) (c : p.Connection) (transport : BrowserResolvedTransport)
      (session_key : Option Bytes)
      → check_admission p n c transport session_key ≡ ok tt
      → m.sessions ≡ n.sessions
      → (resolve_at p m session_key transport).0 ≡ ok tt
  unfolding check_admission resolve_transport
  resolve_at-ok n m c transport none h e = refl
  resolve_at-ok n m c transport (some key) h e =
      elim (Option-cases (get Bytes-discrete key n.sessions)) [
        | inl missing ↦ ground (arith, e, missing)
        | inr (s, found) ↦
            elim (Result-cases
              (validate_resolution transport s.transport_intent s.channel_attachment)) [
                | inr (e', bad) ↦ absurd (ground (arith, h, found, bad))
                | inl (u, good) ↦ ground (arith, e, found, good)
              ]
      ]

  -- What an admission must keep, given its result: a refusal the tables, a success the new connection.
  abbrev pub IsSound : Node p → p.Connection → Admission p → Type 0
  IsSound n c a = elim a.result [
    | err e ↦ (a.node.connections ≡ n.connections) × (a.node.sessions ≡ n.sessions)
    | ok connection ↦
        (connection.key ≡ n.next_connection_key)
        × (connection.remote ≡ p.remote_id c)
        × (connection.alpn ≡ p.connection_alpn c)
        × (a.node.next_connection_key ≡ n.next_connection_key + 1)
        × (iroh_connection p a.node connection.key ≡ ok c)
  ]

  resolve_at-keeps :
      (n : Node p) (session_key : Option Bytes) (transport : BrowserResolvedTransport)
      → let m = (resolve_at p n session_key transport).1 in
        (m.connections ≡ n.connections)
        × (m.next_connection_key ≡ n.next_connection_key)
        × (m.accepting ≡ n.accepting)
  unfolding resolve_transport
  resolve_at-keeps n none transport = (refl, refl, refl)
  resolve_at-keeps n (some key) transport =
      elim (Option-cases (get Bytes-discrete key n.sessions)) [
        | inl missing ↦ ground (arith, missing)
        | inr (s, found) ↦ elim (Result-cases (resolve_transport s transport)) [
          | inr (e, bad) ↦ ground (arith, found, bad)
          | inl (t, good) ↦ ground (arith, found, good)
        ]
      ]

  finish_admission-IsSound :
      (n m : Node p) (c : p.Connection) (connection : BrowserAcceptedConnection (EndpointId p))
      (waiter : Option p.Waiter)
      → check_admission p n c connection.transport connection.session_key ≡ ok tt
      → m.sessions ≡ n.sessions
      → m.next_connection_key ≡ n.next_connection_key + 1
      → m.accepting.closed ≡ false
      → connection.key ≡ n.next_connection_key
      → connection.remote ≡ p.remote_id c
      → connection.alpn ≡ p.connection_alpn c
      → IsSound n c (finish_admission p m c connection waiter)
  unfolding iroh_connection
  finish_admission-IsSound n m c connection waiter h same next up key remote alpn =
      let k : Node p =
        insert_connection p m connection.key (some c) connection.session_key connection.transport in
      let fine : (resolve_at p k connection.session_key connection.transport).0 ≡ ok tt =
        resolve_at-ok n k c connection.transport connection.session_key h same in
      let keeps = resolve_at-keeps k connection.session_key connection.transport in
      let stored : BrowserConnectionState p = record {
        iroh_connection = some c;
        session_key = connection.session_key;
        transport = connection.transport;
        closed = false;
      } in
      ground (
        arith,
        fine,
        keeps,
        key,
        remote,
        alpn,
        next,
        up,
        get-insert ℕ_discrete connection.key connection.key stored m.connections,
      )

  queue_admission-IsSound :
      (alive : p.Waiter → Bool) (n m : Node p) (c : p.Connection)
      (connection : BrowserAcceptedConnection (EndpointId p))
      (r : AcceptRegistrationState (EndpointId p) p.Waiter)
      → check_admission p n c connection.transport connection.session_key ≡ ok tt
      → m.sessions ≡ n.sessions
      → m.connections ≡ n.connections
      → m.next_connection_key ≡ n.next_connection_key + 1
      → m.accepting.closed ≡ false
      → connection.key ≡ n.next_connection_key
      → connection.remote ≡ p.remote_id c
      → connection.alpn ≡ p.connection_alpn c
      → IsSound n c (queue_admission p alive m c connection r)
  queue_admission-IsSound alive n m c connection r h same same' next up key remote alpn =
      let pushed = push_or_wake alive r connection in
      elim (Result-cases pushed.0) [
        | inr (e, full) ↦ ground (arith, full, same, same')
        | inl (u, room) ↦
            let finished =
              finish_admission-IsSound n (put_registration p m connection.alpn pushed.1) c
                connection pushed.2 h same next up key remote alpn in
            ground (arith, room, finished)
      ]

  admit_checked-IsSound :
      (alive : p.Waiter → Bool) (n : Node p) (c : p.Connection)
      (transport : BrowserResolvedTransport) (session_key : Option Bytes) (queue_accept : Bool)
      (a : Admission p)
      → check_admission p n c transport session_key ≡ ok tt
      → n.accepting.closed ≡ false
      → admit_checked p alive n c transport session_key queue_accept ≡ some a
      → IsSound n c a
  unfolding allocate_connection_key
  admit_checked-IsSound alive n c transport session_key queue_accept a h up e =
      elim (Option-cases (allocate_connection_key p n)) [
        | inl panics ↦ absurd (ground (arith, e, panics))
        | inr ((key, m), fresh) ↦
            let connection : BrowserAcceptedConnection (EndpointId p) = record {
              key = key;
              session_key = session_key;
              remote = p.remote_id c;
              alpn = p.connection_alpn c;
              transport = transport;
            } in
            elim (Bool-cases queue_accept) [
              | inr off ↦ ground (
                arith,
                e,
                fresh,
                off,
                (finish_admission-IsSound n m c connection none h (ground (arith, fresh))
                    (ground (arith, fresh)) (ground (arith, fresh, up)) (ground (arith, fresh)) refl
                    refl),
              )
              | inl on ↦
                  elim (Option-cases
                    (get Bytes-discrete (p.connection_alpn c) m.accepting.accepts)) [
                      | inl missing ↦ absurd (ground (arith, e, fresh, on, missing))
                      | inr (r, found) ↦ ground (
                        arith,
                        e,
                        fresh,
                        on,
                        found,
                        (queue_admission-IsSound alive n m c connection r h (ground (arith, fresh))
                            (ground (arith, fresh)) (ground (arith, fresh))
                            (ground (arith, fresh, up)) (ground (arith, fresh)) refl refl),
                      )
                    ]
            ]
      ]

  -- An admission that is refused, also by a full queue, leaves the sessions and the connections as they
  -- were; one that succeeds hands out the next key, and the node then finds the connection under it.
  pub admit_iroh_application_connection-IsSound :
      (alive : p.Waiter → Bool) (n : Node p) (c : p.Connection)
      (transport : BrowserResolvedTransport) (session_key : Option Bytes) (queue_accept : Bool)
      (a : Admission p)
      → admit_iroh_application_connection p alive n c transport session_key queue_accept ≡ some a
      → IsSound n c a
  unfolding admit_iroh_application_connection
  admit_iroh_application_connection-IsSound alive n c transport session_key queue_accept a e =
      elim (Bool-cases n.accepting.closed) [
        | inl down ↦ ground (arith, e, down)
        | inr up ↦
            elim (Bool-cases (queue_accept && not (contains_accept p n (p.connection_alpn c)))) [
              | inl foreign ↦ ground (arith, e, up, foreign)
              | inr known ↦ elim (Result-cases (check_admission p n c transport session_key)) [
                | inr (e', bad) ↦ ground (arith, e, up, known, bad)
                | inl (u, good) ↦
                    admit_checked-IsSound alive n c transport session_key queue_accept a
                      (ground (arith, good)) up (ground (arith, e, up, known, good))
              ]
            ]
      ]
