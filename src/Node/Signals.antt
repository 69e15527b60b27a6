-- ===== src/Node/Signals.antt =====
-- crates/iroh-webrtc-transport/src/browser_runtime/node/rtc.rs and rtc_lifecycle.rs: what a node does
-- with the bootstrap signals of other nodes and with the results of its main thread, and how it ends
-- a session.
use iroh_webrtc_messenger.Common.{
  ℕ, Bool, true, false, not, ◌||◌, ◌==◌, List, [], ◌∷◌, Option, none, some, ok, err, ◌>>=◌, ◌>>◌,
  fail_if, if◌then◌else◌, Bytes, Bytes-discrete, same,
}
use iroh_webrtc_messenger.Common.Maps.{get}
use iroh_webrtc_messenger.Signal.{
  BootstrapTransportIntent, uses_webrtc, allows_iroh_relay_fallback, WebRtcTerminalReason,
  WebRtcSignal, dial_request, offer, answer, ice_candidate, end_of_candidates, terminal,
  signal_dial_id, signal_from, signal_to, signal_generation,
}
use iroh_webrtc_messenger.Runtime.{
  bootstrap_failed, unsupported_alpn, runtime_error, closed_error, about, Runtime, session_key_of,
}
use iroh_webrtc_messenger.Session.{
  BrowserResolvedTransport, BrowserSessionState, record_terminal_received, record_terminal_sent,
  session_terminal_signal,
}
use iroh_webrtc_messenger.Node.{Platform, EndpointId, Node, find_session, put_session}
use iroh_webrtc_messenger.Node.Sessions.{
  allocate_accept_session, attach_transferred_channel, mark_transferred_channel_open,
  session_snapshot,
}

-- The session of a `BrowserBootstrapSignalResult`; its other fields are its key, `accepted = true`,
-- no connection and no outbound signals.
pub record BrowserBootstrapSignalResult (EndpointId : Type 0) : Type 0 where
  pub accepted : Bool
  pub session_key : Bytes
  pub session : BrowserSessionState EndpointId
  pub outbound_signals : List (WebRtcSignal EndpointId)

pub record BrowserTerminalDecision (EndpointId : Type 0) : Type 0 where
  pub session_key : Bytes
  pub reason : WebRtcTerminalReason
  pub signal : Option (WebRtcSignal EndpointId)
  pub selected_transport : Option BrowserResolvedTransport

pub data RtcLifecycleEvent : Type 0 where
  data_channel_open : RtcLifecycleEvent
  web_rtc_failed web_rtc_closed : Bytes → RtcLifecycleEvent

pub record RtcLifecycleInput : Type 0 where
  pub session_key : Bytes
  pub event : RtcLifecycleEvent
  pub error_message : Option Bytes

pub record RtcLifecycleResult (EndpointId : Type 0) : Type 0 where
  pub accepted : Bool
  pub session_key : Bytes
  pub session : BrowserSessionState EndpointId
  pub outbound_signals : List (WebRtcSignal EndpointId)

-- `into_iter().collect()` of an option.
abbrev pub option_list : {A : Type 0} → Option A → List A
option_list none = []
option_list (some a) = a ∷ []

-- The reason that a decision sends.
abbrev pub decision_reason :
    Option WebRtcTerminalReason → BootstrapTransportIntent → WebRtcTerminalReason
decision_reason (some reason) intent = reason
decision_reason none intent =
    if allows_iroh_relay_fallback intent
    then WebRtcTerminalReason.fallback_selected
    else WebRtcTerminalReason.web_rtc_failed

-- `iter().any(|registered| registered == alpn)`
abbrev pub has_alpn : Bytes → List Bytes → Bool
has_alpn alpn [] = false
has_alpn alpn (a ∷ rest) = same Bytes-discrete a alpn || has_alpn alpn rest

-- The ALPN of the input, or the signal's where that is not empty.
abbrev pub requested_alpn : Option Bytes → Bytes → Runtime Bytes
requested_alpn (some alpn) written = ok alpn
requested_alpn none [] =
    err (runtime_error bootstrap_failed "bootstrap dial request is missing application ALPN")
requested_alpn none (c ∷ cs) = ok (c ∷ cs)

module _ (p : Platform) where
  abbrev pub contains_accept : Node p → Bytes → Bool
  contains_accept n alpn = elim (get Bytes-discrete alpn n.accepting.accepts) [
    | none ↦ false
    | some r ↦ true
  ]

  unfoldable pub is_application_alpn_registered : Node p → Bytes → Bool
  is_application_alpn_registered n alpn =
      contains_accept n alpn
      || (has_alpn alpn n.benchmark_echo_alpns || has_alpn alpn n.browser_protocols)

  abbrev pub ensure_signal_targets_local : Node p → EndpointId p → Runtime (Unit {0})
  ensure_signal_targets_local n to =
      fail_if (not (same p.iroh.EndpointId-discrete to n.endpoint_id))
        (runtime_error bootstrap_failed "bootstrap signal is not addressed to this browser node")

  -- `session.remote != signal.from() || session.generation != signal.generation()`
  abbrev pub is_off_route : BrowserSessionState (EndpointId p) → WebRtcSignal (EndpointId p) → Bool
  is_off_route s signal =
      not (same p.iroh.EndpointId-discrete s.remote (signal_from signal))
      || not (s.generation == signal_generation signal)

  abbrev pub signal_result :
      BrowserSessionState (EndpointId p) → Bytes → BrowserBootstrapSignalResult (EndpointId p)
  signal_result s key = record {
    accepted = true;
    session_key = key;
    session = s;
    outbound_signals = [];
  }

  -- `apply_remote_terminal_signal`, of a signal with that reason.
  unfoldable pub apply_remote_terminal_signal :
      Node p
      → WebRtcSignal (EndpointId p)
      → WebRtcTerminalReason
      → Runtime (BrowserBootstrapSignalResult (EndpointId p) × Node p)
  apply_remote_terminal_signal n signal reason = do
    ensure_signal_targets_local n (signal_to signal)
    fail_if n.accepting.closed closed_error
    s ← find_session p n (session_key_of (signal_dial_id signal))
    fail_if (is_off_route s signal) (
        runtime_error bootstrap_failed
          "terminal bootstrap signal does not match the browser session route")
    ok (
      signal_result (record_terminal_received s reason) (session_key_of (signal_dial_id signal)),
      put_session p n (session_key_of (signal_dial_id signal)) (record_terminal_received s reason),
    )

  -- The last arm of `handle_bootstrap_signal`.
  unfoldable pub check_routed_signal :
      Node p
      → WebRtcSignal (EndpointId p)
      → Runtime (BrowserBootstrapSignalResult (EndpointId p) × Node p)
  check_routed_signal n signal = do
    ensure_signal_targets_local n (signal_to signal)
    s ← session_snapshot p n (session_key_of (signal_dial_id signal))
    fail_if (is_off_route s signal)
        (runtime_error bootstrap_failed "bootstrap signal does not match the browser session route")
    ok (signal_result s (session_key_of (signal_dial_id signal)), n)

  -- The arm for a dial request. The source takes the lock for the test of the ALPN and again for the
  -- allocation; here it is one step.
  unfoldable pub accept_dial_request :
      Node p
      → Option Bytes
      → Bytes
      → EndpointId p
      → EndpointId p
      → ℕ
      → Bytes
      → BootstrapTransportIntent
      → Runtime (BrowserBootstrapSignalResult (EndpointId p) × Node p)
  accept_dial_request n input dial_id from to generation written intent = do
    ensure_signal_targets_local n to
    alpn ← requested_alpn input written
    fail_if (not (is_application_alpn_registered n alpn)) (record {
      code = unsupported_alpn;
      message = about "no registered application handler for ALPN" alpn;
    })
    accepted ←
        allocate_accept_session p n from alpn
          (record { dial_id = dial_id; generation = generation }) intent
    ok (signal_result accepted.0 accepted.0.session_key, accepted.1)

  unfoldable pub handle_bootstrap_signal :
      Node p
      → Option Bytes
      → WebRtcSignal (EndpointId p)
      → Runtime (BrowserBootstrapSignalResult (EndpointId p) × Node p)
  handle_bootstrap_signal n input (dial_request dial_id from to generation alpn intent) =
      accept_dial_request n input dial_id from to generation alpn intent
  handle_bootstrap_signal n input (terminal d f t g reason m) =
      apply_remote_terminal_signal n (terminal d f t g reason m) reason
  handle_bootstrap_signal n input (offer d f t g sdp) = check_routed_signal n (offer d f t g sdp)
  handle_bootstrap_signal n input (answer d f t g sdp) = check_routed_signal n (answer d f t g sdp)
  handle_bootstrap_signal n input (ice_candidate d f t g c m l) =
      check_routed_signal n (ice_candidate d f t g c m l)
  handle_bootstrap_signal n input (end_of_candidates d f t g) =
      check_routed_signal n (end_of_candidates d f t g)

  -- The part of `emit_terminal_decision` that has found the session.
  abbrev pub decision_for :
      Bytes
      → BrowserSessionState (EndpointId p)
      → WebRtcTerminalReason
      → Bytes
      → BrowserTerminalDecision (EndpointId p)
  decision_for key s reason message = record {
    session_key = key;
    reason = reason;
    signal =
        if uses_webrtc s.transport_intent
        then some (session_terminal_signal s reason (some message))
        else none;
    selected_transport = (record_terminal_sent s reason).1;
  }

  unfoldable pub emit_terminal_decision :
      Node p
      → Bytes
      → Option WebRtcTerminalReason
      → Bytes
      → Runtime (BrowserTerminalDecision (EndpointId p) × Node p)
  emit_terminal_decision n key reason_override message = do
    fail_if n.accepting.closed closed_error
    s ← find_session p n key
    ok (
      decision_for key s (decision_reason reason_override s.transport_intent) message,
      put_session p n key
          (record_terminal_sent s (decision_reason reason_override s.transport_intent)).0,
    )

  abbrev pub decide_webrtc_failure :
      Node p → Bytes → Bytes → Runtime (BrowserTerminalDecision (EndpointId p) × Node p)
  decide_webrtc_failure n key message = emit_terminal_decision n key none message

  abbrev pub cancel_session :
      Node p → Bytes → Bytes → Runtime (BrowserTerminalDecision (EndpointId p) × Node p)
  cancel_session n key message =
      emit_terminal_decision n key (some WebRtcTerminalReason.cancelled) message

  abbrev pub close_session :
      Node p → Bytes → Bytes → Runtime (BrowserTerminalDecision (EndpointId p) × Node p)
  close_session n key message =
      emit_terminal_decision n key (some WebRtcTerminalReason.closed) message

  -- `attach_data_channel`: the source of the channel is not used.
  abbrev pub attach_data_channel : Node p → Bytes → Runtime (Bytes × Node p)
  attach_data_channel n key = do attached ← attach_transferred_channel p n key; ok (key, attached.1)

  abbrev pub lifecycle_result :
      Bytes
      → List (WebRtcSignal (EndpointId p))
      → Node p
      → Runtime (RtcLifecycleResult (EndpointId p) × Node p)
  lifecycle_result key signals n = do
    s ← session_snapshot p n key
    ok (record { accepted = true; session_key = key; session = s; outbound_signals = signals }, n)

  abbrev pub after_decision :
      Bytes
      → Runtime (BrowserTerminalDecision (EndpointId p) × Node p)
      → Runtime (RtcLifecycleResult (EndpointId p) × Node p)
  after_decision key decided = do
    decision ← decided
    lifecycle_result key (option_list decision.0.signal) decision.1

  abbrev pub handle_event :
      Node p → Bytes → RtcLifecycleEvent → Runtime (RtcLifecycleResult (EndpointId p) × Node p)
  handle_event n key data_channel_open = do
    opened ← mark_transferred_channel_open p n key
    lifecycle_result key [] opened.1
  handle_event n key (web_rtc_failed message) =
      after_decision key (decide_webrtc_failure n key message)
  handle_event n key (web_rtc_closed message) = after_decision key (close_session n key message)

  unfoldable pub handle_rtc_lifecycle_result :
      Node p → RtcLifecycleInput → Runtime (RtcLifecycleResult (EndpointId p) × Node p)
  handle_rtc_lifecycle_result n input = elim input.error_message [
    | some message ↦
        after_decision input.session_key (decide_webrtc_failure n input.session_key message)
    | none ↦ handle_event n input.session_key input.event
  ]
