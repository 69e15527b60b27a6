-- ===== src/Node/Closed.antt =====
-- A closed node stays as it is, whatever is called on it.
use iroh_webrtc_messenger.Common.{
  ◌≡◌, ◌∙◌, ap, refl, true, false, List, [], ◌∷◌, arith, Option, some, Bytes, Bytes-discrete, ℕ,
  ℕ_discrete,
}
use iroh_webrtc_messenger.Common.Maps.{get}
use iroh_webrtc_messenger.Signal.{dial_request}
use iroh_webrtc_messenger.Runtime.{validate_alpn}
use iroh_webrtc_messenger.Session.{
  BrowserSessionState, close_for_node, BrowserSessionLifecycle, close,
}
use iroh_webrtc_messenger.Accept.{accept_open, accept_next, accept_close, find_registration}
use iroh_webrtc_messenger.Node.{Platform, EndpointId, Node, BrowserConnectionState, update_session}
use iroh_webrtc_messenger.Node.Sessions.{
  allocate_dial, allocate_dial_start, allocate_accept_session,
}
use iroh_webrtc_messenger.Node.Signals.{
  apply_remote_terminal_signal, check_routed_signal, accept_dial_request, handle_bootstrap_signal,
  emit_terminal_decision, handle_rtc_lifecycle_result,
}
use iroh_webrtc_messenger.Node.Connections.{admit_iroh_application_connection}
use iroh_webrtc_messenger.Node.Streams.{
  insert_stream, stream_handle, send_stream_chunk, close_stream_send,
}
use iroh_webrtc_messenger.Node.Closing.{close_sessions, close_connections, close_inner}
use iroh_webrtc_messenger.Node.Matching.{accept_webrtc_connection}
use iroh_webrtc_messenger.Node.Handles.{connection_close}
use iroh_webrtc_messenger.Node.Calls.{
  Call, dials, accepts_dial, attaches, opens, completes, hears, decides, learns, admits, matches,
  closes_connection, inserts_stream, sends, closes_send, opens_accept, asks, closes_accept, closes,
  after_call, run,
}

module _ (p : Platform) where
  after_call-closed :
      (n : Node p) (c : Call p)
      → n.accepting.accepts ≡ []
      → n.accepting.closed ≡ true
      → after_call p n c ≡ n
  unfolding after_call update_session allocate_dial allocate_dial_start allocate_accept_session
      apply_remote_terminal_signal check_routed_signal accept_dial_request handle_bootstrap_signal
      emit_terminal_decision handle_rtc_lifecycle_result admit_iroh_application_connection
      accept_webrtc_connection connection_close insert_stream stream_handle send_stream_chunk
      close_stream_send close_inner accept_open accept_next accept_close find_registration
      validate_alpn
  after_call-closed n (dials remote [] intent) h e = refl
  after_call-closed n (dials remote (a ∷ alpn) intent) h e = ground (arith, e)
  after_call-closed n (accepts_dial remote [] d intent) h e = refl
  after_call-closed n (accepts_dial remote (a ∷ alpn) d intent) h e = ground (arith, e)
  after_call-closed n (attaches key) h e = ground (arith, e)
  after_call-closed n (opens key) h e = ground (arith, e)
  after_call-closed n (completes key transport) h e = ground (arith, e)
  after_call-closed n (hears input (dial_request d f t g a i)) h e = ground (arith, e)
  after_call-closed n (hears input signal) h e = ground (arith, e)
  after_call-closed n (decides key reason message) h e = ground (arith, e)
  after_call-closed n (learns input) h e = ground (arith, e)
  after_call-closed n (admits alive c transport session_key queue_accept) h e = ground (arith, e)
  after_call-closed n (matches c) h e = ground (arith, e)
  after_call-closed n (closes_connection key) h e = ground (arith, e)
  after_call-closed n inserts_stream h e = ground (arith, e)
  after_call-closed n (sends key chunk end_stream outcome finishes) h e = ground (arith, e)
  after_call-closed n (closes_send key finishes) h e = ground (arith, e)
  after_call-closed n (opens_accept []) h e = refl
  after_call-closed n (opens_accept (a ∷ alpn)) h e = ground (arith, e)
  after_call-closed n (asks waiter id) h e = ground (arith, e)
  after_call-closed n (closes_accept id) h e = ground (arith, h)
  after_call-closed n (closes reason) h e = ground (arith, e)

  run-closed :
      (n : Node p) (cs : List (Call p))
      → n.accepting.accepts ≡ []
      → n.accepting.closed ≡ true
      → run p n cs ≡ n
  unfolding run
  run-closed n [] h e = refl
  run-closed n (c ∷ cs) h e = ap (λ m. run p m cs) (after_call-closed n c h e) ∙ run-closed n cs h e

  get-close_sessions :
      (reason : Option Bytes) (key : Bytes) (s : BrowserSessionState (EndpointId p))
      (m : List (Bytes × BrowserSessionState (EndpointId p)))
      → get Bytes-discrete key (close_sessions p reason m) ≡ some s
      → s.lifecycle ≡ BrowserSessionLifecycle.closed
  unfolding close_for_node close
  get-close_sessions reason key s [] h = absurd (ground arith)
  get-close_sessions reason key s ((j, t) ∷ m) h = elim (Bytes-discrete j key) [
    | yes e ↦ ground (arith, h, e)
    | no other ↦ get-close_sessions reason key s m (ground (arith, h, other))
  ]

  get-close_connections :
      (key : ℕ) (c : BrowserConnectionState p) (m : List (ℕ × BrowserConnectionState p))
      → get ℕ_discrete key (close_connections p m) ≡ some c
      → c.closed ≡ true
  get-close_connections key c [] h = absurd (ground arith)
  get-close_connections key c ((j, d) ∷ m) h = elim (ℕ_discrete j key) [
    | yes e ↦ ground (arith, h, e)
    | no other ↦ get-close_connections key c m (ground (arith, h, other))
  ]

  -- Closing an open node is final: any calls after it leave the node as closing left it, with every
  -- session and every connection closed and no streams, and closing again tells no one anything.
  pub run-close_inner :
      (n : Node p) (reason again : Option Bytes) (cs : List (Call p))
      → n.accepting.closed ≡ false
      → let m = (close_inner p n reason).1 in
        (run p m cs ≡ m)
        × ((close_inner p (run p m cs) again).0.closed_now ≡ false)
        × ((close_inner p (run p m cs) again).0.outbound_signals ≡ [])
        × (m.streams ≡ [])
        × ((key : Bytes) (s : BrowserSessionState (EndpointId p))
            → get Bytes-discrete key m.sessions ≡ some s
            → s.lifecycle ≡ BrowserSessionLifecycle.closed)
        × ((key : ℕ) (c : BrowserConnectionState p)
            → get ℕ_discrete key m.connections ≡ some c
            → c.closed ≡ true)
  unfolding close_inner
  run-close_inner n reason again cs up =
      let m : Node p = (close_inner p n reason).1 in
      let still : run p m cs ≡ m = run-closed m cs (ground (arith, up)) (ground (arith, up)) in
      (
        still,
        ground (arith, still, up),
        ground (arith, still, up),
        ground (arith, up),
        λ key s h. get-close_sessions reason key s n.sessions (ground (arith, h, up)),
        λ key c h. get-close_connections key c n.connections (ground (arith, h, up)),
      )
