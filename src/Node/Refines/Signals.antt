-- ===== src/Node/Refines/Signals.antt =====
-- The calls of node/rtc.rs at one entry of the table of sessions.
use iroh_webrtc_messenger.Common.{
  ℕ, ◌≡◌, refl, Option, none, some, Bytes, Bytes-discrete, arith, inl, inr, Option-cases,
  Bool-cases, Result-cases,
}
use iroh_webrtc_messenger.Common.Maps.{get, get-insert}
use iroh_webrtc_messenger.Signal.{
  BootstrapTransportIntent, DialId, DialSessionId, WebRtcTerminalReason, WebRtcSignal, dial_request,
  offer, answer, ice_candidate, end_of_candidates, terminal, signal_to, signal_dial_id,
}
use iroh_webrtc_messenger.Runtime.{session_key_of}
use iroh_webrtc_messenger.Session.{
  BrowserSessionRole, BrowserSessionState, new, BrowserResolvedTransport, web_rtc,
  resolve_transport, validate_resolution, close_for_node, record_terminal_sent,
}
use iroh_webrtc_messenger.Session
use iroh_webrtc_messenger.Session.Invariant.{receives, sends, step}
use iroh_webrtc_messenger.Node.{
  Platform, EndpointId, Node, refresh_webrtc_transport_addrs, update_session,
}
use iroh_webrtc_messenger.Node.Sessions.{allocate_accept_session, mark_transferred_channel_open}
use iroh_webrtc_messenger.Node.Signals.{
  ensure_signal_targets_local, requested_alpn, is_application_alpn_registered, is_off_route,
  apply_remote_terminal_signal, check_routed_signal, accept_dial_request, handle_bootstrap_signal,
  emit_terminal_decision, RtcLifecycleInput, RtcLifecycleEvent, data_channel_open, web_rtc_failed,
  web_rtc_closed, after_decision, handle_event, handle_rtc_lifecycle_result, decision_reason,
}
use iroh_webrtc_messenger.Node.Calls.{after}
use iroh_webrtc_messenger.Node.Refines.{
  EvolvesAt, put-Evolves, same-Evolves, moved-Evolves, accepts-Evolves, opens-Evolves,
}

module _ (p : Platform) where
  pub emits-Evolves :
      (n : Node p) (key j : Bytes) (reason : Option WebRtcTerminalReason) (message : Bytes)
      → EvolvesAt p n.endpoint_id n.sessions
          (after p n (emit_terminal_decision p n key reason message)).sessions
          j
  unfolding emit_terminal_decision step
  emits-Evolves n key j reason message = elim (Bool-cases n.accepting.closed) [
    | inl down ↦ same-Evolves p n.endpoint_id n.sessions _ j (ground (arith, down))
    | inr up ↦ elim (Option-cases (get Bytes-discrete key n.sessions)) [
      | inl missing ↦ same-Evolves p n.endpoint_id n.sessions _ j (ground (arith, up, missing))
      | inr (s, found) ↦
          put-Evolves p n.endpoint_id n.sessions _ key j s _
            (sends (decision_reason reason s.transport_intent)) found refl
            (ground (arith, up, found))
    ]
  ]

  hears_terminal-Evolves :
      (n : Node p) (j : Bytes) (signal : WebRtcSignal (EndpointId p))
      (reason : WebRtcTerminalReason)
      → EvolvesAt p n.endpoint_id n.sessions
          (after p n (apply_remote_terminal_signal p n signal reason)).sessions
          j
  unfolding apply_remote_terminal_signal step
  hears_terminal-Evolves n j signal reason =
      let key = session_key_of (signal_dial_id signal) in
      elim (Result-cases (ensure_signal_targets_local p n (signal_to signal))) [
        | inr (e, astray) ↦ same-Evolves p n.endpoint_id n.sessions _ j (ground (arith, astray))
        | inl (u, here) ↦ elim (Bool-cases n.accepting.closed) [
          | inl down ↦ same-Evolves p n.endpoint_id n.sessions _ j (ground (arith, here, down))
          | inr up ↦ elim (Option-cases (get Bytes-discrete key n.sessions)) [
            | inl missing ↦
                same-Evolves p n.endpoint_id n.sessions _ j (ground (arith, here, up, missing))
            | inr (s, found) ↦ elim (Bool-cases (is_off_route p s signal)) [
              | inl off ↦
                  same-Evolves p n.endpoint_id n.sessions _ j (ground (arith, here, up, found, off))
              | inr on ↦
                  put-Evolves p n.endpoint_id n.sessions _ key j s _ (receives reason) found refl
                    (ground (arith, here, up, found, on))
            ]
          ]
        ]
      ]

  hears_routed-Evolves :
      (n : Node p) (j : Bytes) (signal : WebRtcSignal (EndpointId p))
      → EvolvesAt p n.endpoint_id n.sessions (after p n (check_routed_signal p n signal)).sessions j
  unfolding check_routed_signal
  hears_routed-Evolves n j signal =
      let key = session_key_of (signal_dial_id signal) in
      elim (Result-cases (check_routed_signal p n signal)) [
        | inr (e, bad) ↦ same-Evolves p n.endpoint_id n.sessions _ j (ground (arith, bad))
        | inl ((r, n'), good) ↦ same-Evolves p n.endpoint_id n.sessions _ j (ground (arith, good))
      ]

  hears_dial-Evolves :
      (n : Node p) (j : Bytes) (input : Option Bytes) (dial_id : DialId) (from to : EndpointId p)
      (generation : ℕ) (alpn : Bytes) (intent : BootstrapTransportIntent)
      → EvolvesAt p n.endpoint_id n.sessions
          (after p n
            (accept_dial_request p n input dial_id from to generation alpn intent)).sessions
          j
  unfolding accept_dial_request
  hears_dial-Evolves n j input dial_id from to generation written intent =
      elim (Result-cases (ensure_signal_targets_local p n to)) [
        | inr (e, astray) ↦ same-Evolves p n.endpoint_id n.sessions _ j (ground (arith, astray))
        | inl (u, here) ↦ elim (Result-cases (requested_alpn input written)) [
          | inr (e, missing) ↦
              same-Evolves p n.endpoint_id n.sessions _ j (ground (arith, here, missing))
          | inl (alpn, given) ↦ elim (Bool-cases (is_application_alpn_registered p n alpn)) [
            | inr off ↦
                same-Evolves p n.endpoint_id n.sessions _ j (ground (arith, here, given, off))
            | inl on ↦
                let d : DialSessionId = record { dial_id = dial_id; generation = generation } in
                elim (Result-cases (allocate_accept_session p n from alpn d intent)) [
                  | inr (e, refused) ↦
                      same-Evolves p n.endpoint_id n.sessions _ j
                        (ground (arith, here, given, on, refused))
                  | inl (r, taken) ↦
                      moved-Evolves p n.endpoint_id n.sessions _ _ j
                        (ground (arith, here, given, on, taken))
                        (accepts-Evolves p n j from alpn d intent)
                ]
          ]
        ]
      ]

  pub hears-Evolves :
      (n : Node p) (j : Bytes) (input : Option Bytes) (signal : WebRtcSignal (EndpointId p))
      → EvolvesAt p n.endpoint_id n.sessions
          (after p n (handle_bootstrap_signal p n input signal)).sessions
          j
  unfolding handle_bootstrap_signal
  hears-Evolves n j input (dial_request dial_id from to generation alpn intent) =
      hears_dial-Evolves n j input dial_id from to generation alpn intent
  hears-Evolves n j input (terminal d f t g reason m) =
      hears_terminal-Evolves n j (terminal d f t g reason m) reason
  hears-Evolves n j input (offer d f t g sdp) = hears_routed-Evolves n j (offer d f t g sdp)
  hears-Evolves n j input (answer d f t g sdp) = hears_routed-Evolves n j (answer d f t g sdp)
  hears-Evolves n j input (ice_candidate d f t g c m l) =
      hears_routed-Evolves n j (ice_candidate d f t g c m l)
  hears-Evolves n j input (end_of_candidates d f t g) =
      hears_routed-Evolves n j (end_of_candidates d f t g)

  -- The result of a lifecycle event reads the session that its decision has put back.
  decided-sessions :
      (n : Node p) (key : Bytes) (reason : Option WebRtcTerminalReason) (message : Bytes)
      → (after p n (after_decision p key (emit_terminal_decision p n key reason message))).sessions
        ≡ (after p n (emit_terminal_decision p n key reason message)).sessions
  unfolding emit_terminal_decision
  decided-sessions n key reason message = elim (Bool-cases n.accepting.closed) [
    | inl down ↦ ground (arith, down)
    | inr up ↦ elim (Option-cases (get Bytes-discrete key n.sessions)) [
      | inl missing ↦ ground (arith, up, missing)
      | inr (s, found) ↦
          let t = (record_terminal_sent s (decision_reason reason s.transport_intent)).0 in
          ground (arith, up, found, get-insert Bytes-discrete key key t n.sessions)
    ]
  ]

  learns_decision-Evolves :
      (n : Node p) (key j : Bytes) (reason : Option WebRtcTerminalReason) (message : Bytes)
      → EvolvesAt p n.endpoint_id n.sessions
          (after p n
            (after_decision p key (emit_terminal_decision p n key reason message))).sessions
          j
  learns_decision-Evolves n key j reason message =
      moved-Evolves p n.endpoint_id n.sessions _ _ j (decided-sessions n key reason message)
        (emits-Evolves n key j reason message)

  opened-sessions :
      (n : Node p) (key : Bytes)
      → (after p n (handle_event p n key data_channel_open)).sessions
        ≡ (after p n (mark_transferred_channel_open p n key)).sessions
  unfolding update_session refresh_webrtc_transport_addrs
  opened-sessions n key = elim (Bool-cases n.accepting.closed) [
    | inl down ↦ ground (arith, down)
    | inr up ↦ elim (Option-cases (get Bytes-discrete key n.sessions)) [
      | inl missing ↦ ground (arith, up, missing)
      | inr (s, found) ↦ elim (Result-cases (Session.mark_transferred_channel_open s)) [
        | inr (e, bad) ↦ ground (arith, up, found, bad)
        | inl (t, good) ↦
            ground (arith, up, found, good, get-insert Bytes-discrete key key t n.sessions)
      ]
    ]
  ]

  event-Evolves :
      (n : Node p) (key j : Bytes) (event : RtcLifecycleEvent)
      → EvolvesAt p n.endpoint_id n.sessions (after p n (handle_event p n key event)).sessions j
  event-Evolves n key j data_channel_open =
      moved-Evolves p n.endpoint_id n.sessions _ _ j (opened-sessions n key)
        (opens-Evolves p n key j)
  event-Evolves n key j (web_rtc_failed message) = learns_decision-Evolves n key j none message
  event-Evolves n key j (web_rtc_closed message) =
      learns_decision-Evolves n key j (some WebRtcTerminalReason.closed) message

  pub learns-Evolves :
      (n : Node p) (j : Bytes) (input : RtcLifecycleInput)
      → EvolvesAt p n.endpoint_id n.sessions
          (after p n (handle_rtc_lifecycle_result p n input)).sessions
          j
  unfolding handle_rtc_lifecycle_result
  learns-Evolves n j input = elim (Option-cases input.error_message) [
    | inl quiet ↦
        moved-Evolves p n.endpoint_id n.sessions _ _ j (ground (arith, quiet))
          (event-Evolves n input.session_key j input.event)
    | inr (message, failed) ↦
        moved-Evolves p n.endpoint_id n.sessions _ _ j (ground (arith, failed))
          (learns_decision-Evolves n input.session_key j none message)
  ]
