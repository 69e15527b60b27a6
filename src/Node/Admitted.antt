-- ===== src/Node/Admitted.antt =====
-- crates/iroh-webrtc-transport/src/browser_runtime/node/connection.rs and node.rs: what a connection
-- that is admitted as one over WebRTC must be.
use iroh_webrtc_messenger.Common.{
  ◌≡◌, ◌≢◌, ◌⊎◌, refl, subst, ap, true, false, not, ◌&&◌, Bool, List, [], ◌∷◌, arith, Option, none,
  some, ok, Bytes, Bytes-discrete, inl, inr, Option-cases, Bool-cases, Result-cases,
}
use iroh_webrtc_messenger.Common.Maps.{get, get-insert}
use iroh_webrtc_messenger.Addr.{
  WebRtcAddr, WebRtcAddrKind, session, capability, session_addr, from_custom_addr,
}
use iroh_webrtc_messenger.Signal.{BootstrapTransportIntent, DialId}
use iroh_webrtc_messenger.Session.{
  BrowserSessionState, BrowserResolvedTransport, BrowserSessionLifecycle, web_rtc, open_,
  validate_resolution, resolve_transport,
}
use iroh_webrtc_messenger.Accept.{BrowserAcceptedConnection, AcceptRegistrationState, push_or_wake}
use iroh_webrtc_messenger.Node.{
  Platform, EndpointId, CustomAddr, Node, TransportAddr, custom, other, PathInfo,
}
use iroh_webrtc_messenger.Node.Signals.{contains_accept}
use iroh_webrtc_messenger.Node.Connections.{
  Admission, allocate_connection_key, check_admission, admit_iroh_application_connection,
  finish_admission, queue_admission, put_registration, admit_checked,
}
use iroh_webrtc_messenger.Node.Paths.{same_kind, same_webrtc_addr, check_selected, check_paths}
use iroh_webrtc_messenger.Node.Admission.{check_admission-web_rtc}

-- The first of some paths that is selected leads there.
abbrev pub IsSelected : {A : Type 0} → TransportAddr A → List (PathInfo A) → Type 0
IsSelected to [] = ⊥
IsSelected to (path ∷ rest) =
    ((path.is_selected ≡ true) × (path.remote_addr ≡ to))
    ⊎ ((path.is_selected ≡ false) × IsSelected to rest)

same_kind_eq : (k l : WebRtcAddrKind) → same_kind k l ≡ true → k ≡ l
same_kind_eq capability capability h = refl
same_kind_eq capability (session j) h = absurd (ground (arith, h))
same_kind_eq (session i) capability h = absurd (ground (arith, h))
same_kind_eq (session i) (session j) h = ap session (ground (arith, h))

module _ (p : Platform) where
  same_webrtc_addr_eq : (a b : WebRtcAddr (EndpointId p)) → same_webrtc_addr p a b ≡ true → a ≡ b
  same_webrtc_addr_eq a b h = ground (arith, h, same_kind_eq a.kind b.kind (ground (arith, h)))

  -- The selected path of the connection leads to the address of the session with that remote endpoint
  -- and dial id.
  abbrev pub IsOnPath : p.Connection → EndpointId p → DialId → Type 0
  IsOnPath c remote dial_id =
      (a : CustomAddr p) × IsSelected (custom a) (p.paths c)
      × (from_custom_addr p.iroh a ≡ ok (session_addr remote dial_id))

  check_selected-ok :
      (remote : EndpointId p) (dial_id : DialId) (to : TransportAddr (CustomAddr p))
      → check_selected p remote dial_id to ≡ ok tt
      → (a : CustomAddr p) × (to ≡ custom a)
        × (from_custom_addr p.iroh a ≡ ok (session_addr remote dial_id))
  check_selected-ok remote dial_id other h = absurd (ground (arith, h))
  check_selected-ok remote dial_id (custom a) h = elim (Result-cases (from_custom_addr p.iroh a)) [
    | inr (e, bad) ↦ absurd (ground (arith, h, bad))
    | inl (actual, read) ↦
        elim (Bool-cases (same_webrtc_addr p actual (session_addr remote dial_id))) [
          | inr off ↦ absurd (ground (arith, h, read, off))
          | inl on ↦ (
            a,
            refl,
            subst (λ r. from_custom_addr p.iroh a ≡ ok r)
                (same_webrtc_addr_eq actual (session_addr remote dial_id) on) read,
          )
        ]
  ]

  check_paths-IsSelected :
      (remote : EndpointId p) (dial_id : DialId) (paths : List (PathInfo (CustomAddr p)))
      → check_paths p remote dial_id paths ≡ ok tt
      → (a : CustomAddr p) × IsSelected (custom a) paths
        × (from_custom_addr p.iroh a ≡ ok (session_addr remote dial_id))
  check_paths-IsSelected remote dial_id [] h = absurd (ground (arith, h))
  check_paths-IsSelected remote dial_id (path ∷ rest) h = elim (Bool-cases path.is_selected) [
    | inr off ↦
        let (a, chosen, read) =
          check_paths-IsSelected remote dial_id rest (ground (arith, h, off)) in
        (a, inr (off, chosen), read)
    | inl on ↦
        let (a, at, read) =
          check_selected-ok remote dial_id path.remote_addr (ground (arith, h, on)) in
        (a, inl (on, at), read)
  ]

  -- The admission leaves the session with that key resolved and ready.
  abbrev pub IsResolved : Admission p → Bytes → BrowserResolvedTransport → Type 0
  IsResolved a key transport =
      (t : BrowserSessionState (EndpointId p)) × (get Bytes-discrete key a.node.sessions ≡ some t)
      × (t.resolved_transport ≡ some transport)
      × (t.lifecycle ≡ BrowserSessionLifecycle.application_ready)

  finish_admission-IsResolved :
      (m : Node p) (c : p.Connection) (key : Bytes) (s : BrowserSessionState (EndpointId p))
      (connection x : BrowserAcceptedConnection (EndpointId p)) (waiter : Option p.Waiter)
      → connection.session_key ≡ some key
      → get Bytes-discrete key m.sessions ≡ some s
      → (finish_admission p m c connection waiter).result ≡ ok x
      → IsResolved (finish_admission p m c connection waiter) key connection.transport
  unfolding resolve_transport
  finish_admission-IsResolved m c key s connection x waiter named found h =
      let t : BrowserSessionState (EndpointId p) = record s {
        resolved_transport = some connection.transport;
        lifecycle = BrowserSessionLifecycle.application_ready;
      } in
      elim (Result-cases
        (validate_resolution connection.transport s.transport_intent s.channel_attachment)) [
          | inr (e, bad) ↦ absurd (ground (arith, h, named, found, bad))
          | inl (u, good) ↦ (
            t,
            ground (arith, named, found, good, get-insert Bytes-discrete key key t m.sessions),
            refl,
            refl,
          )
        ]

  queue_admission-IsResolved :
      (alive : p.Waiter → Bool) (m : Node p) (c : p.Connection) (key : Bytes)
      (s : BrowserSessionState (EndpointId p))
      (connection x : BrowserAcceptedConnection (EndpointId p))
      (r : AcceptRegistrationState (EndpointId p) p.Waiter)
      → connection.session_key ≡ some key
      → get Bytes-discrete key m.sessions ≡ some s
      → (queue_admission p alive m c connection r).result ≡ ok x
      → IsResolved (queue_admission p alive m c connection r) key connection.transport
  queue_admission-IsResolved alive m c key s connection x r named found h =
      let pushed = push_or_wake alive r connection in
      elim (Result-cases pushed.0) [
        | inr (e, full) ↦ absurd (ground (arith, h, full))
        | inl (u, room) ↦
            let (t, at, how, ready) =
              finish_admission-IsResolved (put_registration p m connection.alpn pushed.1) c key s
                connection x pushed.2 named found (ground (arith, h, room)) in
            (t, ground (arith, room, at), how, ready)
      ]

  admit_checked-IsResolved :
      (alive : p.Waiter → Bool) (n : Node p) (c : p.Connection)
      (transport : BrowserResolvedTransport) (key : Bytes) (queue_accept : Bool)
      (s : BrowserSessionState (EndpointId p)) (a : Admission p)
      (x : BrowserAcceptedConnection (EndpointId p))
      → get Bytes-discrete key n.sessions ≡ some s
      → admit_checked p alive n c transport (some key) queue_accept ≡ some a
      → a.result ≡ ok x
      → IsResolved a key transport
  unfolding allocate_connection_key
  admit_checked-IsResolved alive n c transport key queue_accept s a x found e h =
      elim (Option-cases (allocate_connection_key p n)) [
        | inl panics ↦ absurd (ground (arith, e, panics))
        | inr ((fresh_key, m), fresh) ↦
            let connection : BrowserAcceptedConnection (EndpointId p) = record {
              key = fresh_key;
              session_key = some key;
              remote = p.remote_id c;
              alpn = p.connection_alpn c;
              transport = transport;
            } in
            let kept : get Bytes-discrete key m.sessions ≡ some s = ground (arith, found, fresh) in
            elim (Bool-cases queue_accept) [
              | inr off ↦
                  let is : finish_admission p m c connection none ≡ a =
                    ground (arith, e, fresh, off) in
                  let (t, at, how, ready) =
                    finish_admission-IsResolved m c key s connection x none refl kept
                      (ground (arith, is, h)) in
                  (t, ground (arith, is, at), how, ready)
              | inl on ↦
                  elim (Option-cases
                    (get Bytes-discrete (p.connection_alpn c) m.accepting.accepts)) [
                      | inl missing ↦ absurd (ground (arith, e, fresh, on, missing))
                      | inr (r, registered) ↦
                          let is : queue_admission p alive m c connection r ≡ a =
                            ground (arith, e, fresh, on, registered) in
                          let (t, at, how, ready) =
                            queue_admission-IsResolved alive m c key s connection x r refl kept
                              (ground (arith, is, h)) in
                          (t, ground (arith, is, at), how, ready)
                    ]
            ]
      ]

  -- What an admission over WebRTC rests on, and what it makes of the session.
  abbrev pub IsAdmittedOverWebRtc : Node p → p.Connection → Option Bytes → Admission p → Type 0
  IsAdmittedOverWebRtc n c session_key a =
      (key : Bytes) × (s : BrowserSessionState (EndpointId p)) × (session_key ≡ some key)
      × (get Bytes-discrete key n.sessions ≡ some s)
      × (s.transport_intent ≢ BootstrapTransportIntent.iroh_relay)
      × (s.channel_attachment ≡ open_)
      × IsOnPath c s.remote s.dial_id
      × IsResolved a key web_rtc

  -- An admission of a connection as one over WebRTC succeeds only with the key of a session in the
  -- node's table whose dial allows WebRTC and whose data channel is open, and where the first selected
  -- path of the connection leads to the session's address; the session is then resolved as WebRTC and
  -- ready for the application.
  pub admit_iroh_application_connection-web_rtc :
      (alive : p.Waiter → Bool) (n : Node p) (c : p.Connection) (session_key : Option Bytes)
      (queue_accept : Bool) (a : Admission p) (x : BrowserAcceptedConnection (EndpointId p))
      → admit_iroh_application_connection p alive n c web_rtc session_key queue_accept ≡ some a
      → a.result ≡ ok x
      → IsAdmittedOverWebRtc n c session_key a
  unfolding admit_iroh_application_connection
  admit_iroh_application_connection-web_rtc alive n c session_key queue_accept a x e h =
      elim (Bool-cases n.accepting.closed) [
        | inl down ↦ absurd (ground (arith, e, h, down))
        | inr up ↦
            elim (Bool-cases (queue_accept && not (contains_accept p n (p.connection_alpn c)))) [
              | inl foreign ↦ absurd (ground (arith, e, h, up, foreign))
              | inr known ↦ elim (Result-cases (check_admission p n c web_rtc session_key)) [
                | inr (e', bad) ↦ absurd (ground (arith, e, h, up, known, bad))
                | inl (u, good) ↦
                    let (key, s, named, found, uses, opened, path) =
                      check_admission-web_rtc p n c session_key (ground (arith, good)) in
                    let checked : admit_checked p alive n c web_rtc session_key queue_accept
                        ≡ some a =
                      ground (arith, e, up, known, good) in
                    (
                      key,
                      s,
                      named,
                      found,
                      λ relay. ground (arith, uses, relay),
                      opened,
                      check_paths-IsSelected s.remote s.dial_id (p.paths c) path,
                      admit_checked-IsResolved alive n c web_rtc key queue_accept s a x found
                          (subst (λ k. admit_checked p alive n c web_rtc k queue_accept ≡ some a)
                            named checked)
                          h,
                    )
              ]
            ]
      ]
