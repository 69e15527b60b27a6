-- ===== src/Node/Handshake.antt =====
-- Two nodes: a dial of one, taken by the other, and a decision of one, heard by the other.
use iroh_webrtc_messenger.Common.{
  ◌≡◌, ◌⊎◌, refl, sym, subst, true, false, [], ◌∷◌, arith, Option, none, some, ok, Bytes,
  Bytes-discrete, inl, inr, Option-cases, Bool-cases,
}
use iroh_webrtc_messenger.Common.Maps.{get, insert, get-insert}
use iroh_webrtc_messenger.Signal.{
  BootstrapTransportIntent, uses_webrtc, allows_iroh_relay_fallback, WebRtcTerminalReason,
  WebRtcSignal, dial_request,
}
use iroh_webrtc_messenger.Signal.Dial.{next}
use iroh_webrtc_messenger.Runtime.{session_key_of, validate_alpn}
use iroh_webrtc_messenger.Session.{
  BrowserSessionState, BrowserResolvedTransport, new, dialer, acceptor, record_terminal_sent,
  record_terminal_received, iroh_relay, apply_terminal_reason, fail, close, session_terminal_signal,
}
use iroh_webrtc_messenger.Node.{
  Platform, EndpointId, Node, refresh_webrtc_transport_addrs, put_session,
}
use iroh_webrtc_messenger.Node.Sessions.{
  BrowserDialStart, allocate_dial, allocate_dial_start, allocate_accept_session, insert_session,
}
use iroh_webrtc_messenger.Node.Signals.{
  signal_result, BrowserBootstrapSignalResult, BrowserTerminalDecision, accept_dial_request,
  apply_remote_terminal_signal, handle_bootstrap_signal, is_application_alpn_registered,
  emit_terminal_decision, decision_reason,
}

module _ (p : Platform) where
  -- Two sessions of one dial, seen from its two sides.
  pub record AreMirrored (s t : BrowserSessionState (EndpointId p)) : Type 0 where
    pub same_key : t.session_key ≡ s.session_key
    pub same_dial_id : t.dial_id ≡ s.dial_id
    pub same_generation : t.generation ≡ s.generation
    pub same_intent : t.transport_intent ≡ s.transport_intent
    pub same_alpn : t.alpn ≡ s.alpn
    pub to_local : t.local ≡ s.remote
    pub to_remote : t.remote ≡ s.local

  -- The node dialled takes the request, and each side then has its session of the dial.
  abbrev pub Taken : Node p → Node p → Node p → BrowserDialStart (EndpointId p) → Type 0
  Taken a a' b start =
      (r : BrowserBootstrapSignalResult (EndpointId p)) × (b' : Node p) × (s : BrowserSessionState
        (EndpointId p))
      × (t : BrowserSessionState (EndpointId p)) × (handle_bootstrap_signal p b none
            start.bootstrap_signal
          ≡ ok (r, b'))
      × (get Bytes-discrete start.session_key a'.sessions ≡ some s)
      × (get Bytes-discrete start.session_key b'.sessions ≡ some t)
      × (s.role ≡ dialer)
      × (t.role ≡ acceptor)
      × AreMirrored s t
      × (s.local ≡ a.endpoint_id)

  -- Where a node has started a dial, the node dialled takes the dial request, provided that it is open,
  -- has registered the ALPN, and has no session under that key; each then has a session of the dial, one
  -- as its dialer and one as its acceptor, that mirror each other.
  pub dial_handshake :
      (a a' b : Node p) (alpn : Bytes) (intent : BootstrapTransportIntent)
      (start : BrowserDialStart (EndpointId p))
      → allocate_dial_start p a b.endpoint_id alpn intent ≡ ok (some (start, a'))
      → b.accepting.closed ≡ false
      → is_application_alpn_registered p b alpn ≡ true
      → get Bytes-discrete start.session_key b.sessions ≡ none
      → Taken a a' b start
  unfolding allocate_dial_start allocate_dial allocate_accept_session accept_dial_request
      handle_bootstrap_signal refresh_webrtc_transport_addrs new validate_alpn
  dial_handshake a a' b [] intent start h up known absent = absurd (ground (arith, h))
  dial_handshake a a' b (c ∷ cs) intent start h up known absent =
      elim (Bool-cases a.accepting.closed) [
        | inl down ↦ absurd (ground (arith, h, down))
        | inr live ↦ elim (Option-cases (next p.iroh p.blake3 a.dial_ids b.endpoint_id)) [
          | inl panics ↦ absurd (ground (arith, h, live, panics))
          | inr ((d, g), found) ↦
              let key = session_key_of d.dial_id in
              let s : BrowserSessionState (EndpointId p) =
                new key d.dial_id d.generation a.endpoint_id b.endpoint_id (c ∷ cs) dialer intent in
              let t : BrowserSessionState (EndpointId p) =
                new key d.dial_id d.generation b.endpoint_id a.endpoint_id (c ∷ cs) acceptor
                  intent in
              let told : start.bootstrap_signal
                  ≡ dial_request d.dial_id a.endpoint_id b.endpoint_id d.generation (c ∷ cs)
                      intent =
                ground (arith, h, live, found) in
              let named : start.session_key ≡ key = ground (arith, h, live, found) in
              let kept : a'.sessions ≡ insert Bytes-discrete key s a.sessions =
                ground (arith, h, live, found) in
              let b' : Node p = insert_session p b t in
              (
                signal_result p t key,
                b',
                s,
                t,
                ground (arith, told, named, up, known, absent),
                ground (arith, named, kept, get-insert Bytes-discrete key key s a.sessions),
                ground (arith, named, get-insert Bytes-discrete key key t b.sessions),
                refl,
                refl,
                ground arith,
                refl,
              )
        ]
      ]

  -- Either both sessions have selected the relay, or nothing is selected and each keeps what it had
  -- resolved; a decision never selects WebRTC.
  abbrev pub SelectedAlike :
      Option BrowserResolvedTransport
      → BrowserSessionState (EndpointId p)
      → BrowserSessionState (EndpointId p)
      → BrowserSessionState (EndpointId p)
      → BrowserSessionState (EndpointId p)
      → Type 0
  SelectedAlike selected s t s' t' =
      ((selected ≡ some iroh_relay)
        × (s'.resolved_transport ≡ some iroh_relay)
        × (t'.resolved_transport ≡ some iroh_relay))
      ⊎ ((selected ≡ none)
          × (s'.resolved_transport ≡ s.resolved_transport)
          × (t'.resolved_transport ≡ t.resolved_transport))

  -- The two sides of one reason.
  ended_alike :
      (s t : BrowserSessionState (EndpointId p)) (why : WebRtcTerminalReason)
      → t.transport_intent ≡ s.transport_intent
      → let (s', selected) = record_terminal_sent s why in
        let t' = record_terminal_received t why in
        (s'.terminal_sent ≡ some why)
        × (t'.terminal_received ≡ some why)
        × (t'.lifecycle ≡ s'.lifecycle)
        × SelectedAlike selected s t s' t'
  unfolding record_terminal_sent record_terminal_received apply_terminal_reason fail close
  ended_alike s t WebRtcTerminalReason.web_rtc_failed e = (refl, refl, refl, inr (refl, refl, refl))
  ended_alike s t WebRtcTerminalReason.fallback_selected e =
      elim (Bool-cases (allows_iroh_relay_fallback s.transport_intent)) [
        | inl may ↦ (
          ground (arith, e, may),
          ground (arith, e, may),
          ground (arith, e, may),
          inl (ground (arith, e, may), ground (arith, e, may), ground (arith, e, may)),
        )
        | inr never ↦ (
          ground (arith, e, never),
          ground (arith, e, never),
          ground (arith, e, never),
          inr (ground (arith, e, never), ground (arith, e, never), ground (arith, e, never)),
        )
      ]
  ended_alike s t WebRtcTerminalReason.cancelled e = (refl, refl, refl, inr (refl, refl, refl))
  ended_alike s t WebRtcTerminalReason.closed e = (refl, refl, refl, inr (refl, refl, refl))

  -- The decision of `a`, heard by `b`, leaves both sessions alike.
  abbrev pub Agreed :
      Node p
      → Node p
      → Bytes
      → BrowserSessionState (EndpointId p)
      → BrowserSessionState (EndpointId p)
      → BrowserTerminalDecision (EndpointId p)
      → Type 0
  Agreed a' b key s t decision =
      (signal : WebRtcSignal (EndpointId p)) × (r : BrowserBootstrapSignalResult (EndpointId p))
      × (b' : Node p) × (s' : BrowserSessionState (EndpointId p)) × (t' : BrowserSessionState
          (EndpointId p))
      × (decision.signal ≡ some signal)
      × (handle_bootstrap_signal p b none signal ≡ ok (r, b'))
      × (get Bytes-discrete key a'.sessions ≡ some s')
      × (get Bytes-discrete key b'.sessions ≡ some t')
      × (s'.terminal_sent ≡ some decision.reason)
      × (t'.terminal_received ≡ some decision.reason)
      × (t'.lifecycle ≡ s'.lifecycle)
      × SelectedAlike decision.selected_transport s t s' t'

  -- A node that decides to end a session whose dial used WebRTC sends a signal; the node on the other
  -- side, where it is open, takes it, and both sessions are then in the same phase, each with the
  -- reason recorded, and either both have selected the relay, or neither has
  -- selected any transport and each keeps what it had resolved.
  pub decision_agrees :
      (a a' b : Node p) (key message : Bytes) (reason : Option WebRtcTerminalReason)
      (s t : BrowserSessionState (EndpointId p)) (decision : BrowserTerminalDecision (EndpointId p))
      → emit_terminal_decision p a key reason message ≡ ok (decision, a')
      → get Bytes-discrete key a.sessions ≡ some s
      → get Bytes-discrete key b.sessions ≡ some t
      → AreMirrored s t
      → b.accepting.closed ≡ false
      → t.local ≡ b.endpoint_id
      → session_key_of t.dial_id ≡ key
      → uses_webrtc s.transport_intent ≡ true
      → Agreed a' b key s t decision
  unfolding emit_terminal_decision handle_bootstrap_signal apply_remote_terminal_signal
      session_terminal_signal
  decision_agrees a a' b key message reason s t decision h here there mirror up mine keyed uses =
      let why : WebRtcTerminalReason = decision_reason reason s.transport_intent in
      let signal : WebRtcSignal (EndpointId p) = session_terminal_signal s why (some message) in
      let s' : BrowserSessionState (EndpointId p) = (record_terminal_sent s why).0 in
      let t' : BrowserSessionState (EndpointId p) = record_terminal_received t why in
      let alike = ended_alike s t why mirror.same_intent in
      elim (Bool-cases a.accepting.closed) [
        | inl down ↦ absurd (ground (arith, h, down))
        | inr live ↦
            let because : decision.reason ≡ why = ground (arith, h, live, here) in
            let chosen : decision.selected_transport ≡ (record_terminal_sent s why).1 =
              ground (arith, h, live, here) in
            (
              signal,
              signal_result p t' key,
              put_session p b key t',
              s',
              t',
              ground (arith, h, live, here, uses),
              ground (arith, there, mirror, up, mine, keyed),
              ground (arith, h, live, here, get-insert Bytes-discrete key key s' a.sessions),
              ground (arith, get-insert Bytes-discrete key key t' b.sessions),
              ground (arith, because, alike.0),
              ground (arith, because, alike.1),
              alike.2,
              subst (λ o. SelectedAlike o s t s' t') (sym chosen) alike.3,
            )
      ]
