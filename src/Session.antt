-- ===== src/Session.antt =====
-- crates/iroh-webrtc-transport/src/browser_runtime/node/session_state.rs, types/session.rs, and the two
-- functions of node.rs that it calls: the life of one session. A method that changes the session
-- returns the new session; where it fails, the session is as it was.
pub mod Invariant
pub mod Resolution
mod Tests
use iroh_webrtc_messenger.Common.{
  ℕ, Bool, true, false, ◌&&◌, not, Option, none, some, Bytes, Result, ok, err, ◌>>=◌, ◌>>◌, fail_if,
  if◌then◌else◌,
}
use iroh_webrtc_messenger.Signal.{
  BootstrapTransportIntent, web_rtc_only, uses_webrtc, allows_iroh_relay_fallback,
  WebRtcTerminalReason, DialId, WebRtcSignal,
}
use iroh_webrtc_messenger.Signal
use iroh_webrtc_messenger.Coordinator
use iroh_webrtc_messenger.Runtime.{
  BrowserRuntimeErrorCode, data_channel_failed, BrowserRuntimeError, runtime_error, Runtime,
}

pub data BrowserResolvedTransport : Type 0 where
  web_rtc iroh_relay : BrowserResolvedTransport

pub data BrowserSessionRole : Type 0 where
  dialer acceptor : BrowserSessionRole

pub data DataChannelAttachmentState : Type 0 where
  not_required awaiting_transfer transferred open_ failed closed : DataChannelAttachmentState

pub data BrowserSessionLifecycle : Type 0 where
  allocated web_rtc_negotiating relay_selected application_ready failed closed :
      BrowserSessionLifecycle

-- The state and its snapshot have the same fields.
pub record BrowserSessionState (EndpointId : Type 0) : Type 0 where
  pub session_key : Bytes
  pub dial_id : DialId
  pub generation : ℕ
  pub local : EndpointId
  pub remote : EndpointId
  pub alpn : Bytes
  pub role : BrowserSessionRole
  pub transport_intent : BootstrapTransportIntent
  pub resolved_transport : Option BrowserResolvedTransport
  pub channel_attachment : DataChannelAttachmentState
  pub lifecycle : BrowserSessionLifecycle
  pub terminal_sent : Option WebRtcTerminalReason
  pub terminal_received : Option WebRtcTerminalReason

abbrev pub is_open : DataChannelAttachmentState → Bool
is_open open_ = true
is_open _ = false

abbrev pub is_awaiting : DataChannelAttachmentState → Bool
is_awaiting awaiting_transfer = true
is_awaiting _ = false

abbrev pub is_transferred : DataChannelAttachmentState → Bool
is_transferred transferred = true
is_transferred _ = false

abbrev pub is_dialer : BrowserSessionRole → Bool
is_dialer dialer = true
is_dialer acceptor = false

abbrev pub nothing_sent : Option WebRtcTerminalReason → Bool
nothing_sent none = true
nothing_sent (some r) = false

-- The attachment that `fail` and `close` leave, given theirs.
abbrev pub end_attachment :
    DataChannelAttachmentState → DataChannelAttachmentState → DataChannelAttachmentState
end_attachment end not_required = not_required
end_attachment end _ = end

-- `validate_transport_resolution`
unfoldable pub validate_resolution :
    BrowserResolvedTransport
    → BootstrapTransportIntent
    → DataChannelAttachmentState
    → Runtime (Unit {0})
validate_resolution web_rtc BootstrapTransportIntent.iroh_relay attachment = err (
    runtime_error BrowserRuntimeErrorCode.web_rtc_failed
      "relay-only session cannot resolve as WebRTC")
validate_resolution BrowserResolvedTransport.iroh_relay web_rtc_only attachment = err (
    runtime_error BrowserRuntimeErrorCode.web_rtc_failed
      "WebRTC-only session cannot resolve through Iroh relay")
validate_resolution web_rtc _ attachment = fail_if (not (is_open attachment)) (
    runtime_error data_channel_failed
      "WebRTC session cannot be promoted before transferred DataChannel opens")
validate_resolution BrowserResolvedTransport.iroh_relay _ attachment = ok tt

module _ {EndpointId : Type 0} where
  unfoldable pub new :
      Bytes
      → DialId
      → ℕ
      → EndpointId
      → EndpointId
      → Bytes
      → BrowserSessionRole
      → BootstrapTransportIntent
      → BrowserSessionState EndpointId
  new session_key dial_id generation local remote alpn role intent = record {
    session_key = session_key;
    dial_id = dial_id;
    generation = generation;
    local = local;
    remote = remote;
    alpn = alpn;
    role = role;
    transport_intent = intent;
    resolved_transport = none;
    channel_attachment = if uses_webrtc intent then awaiting_transfer else not_required;
    lifecycle = if uses_webrtc intent then web_rtc_negotiating else relay_selected;
    terminal_sent = none;
    terminal_received = none;
  }

  unfoldable pub attach_transferred_channel :
      BrowserSessionState EndpointId → Runtime (BrowserSessionState EndpointId)
  attach_transferred_channel s = do
    fail_if (not (is_awaiting s.channel_attachment))
        (runtime_error data_channel_failed "session is not waiting for transferred DataChannel")
    ok (record s { channel_attachment = transferred })

  unfoldable pub mark_transferred_channel_open :
      BrowserSessionState EndpointId → Runtime (BrowserSessionState EndpointId)
  mark_transferred_channel_open s = do
    fail_if (not (is_transferred s.channel_attachment))
        (runtime_error data_channel_failed "transferred DataChannel has not been attached")
    ok (record s { channel_attachment = open_ })

  unfoldable pub fail : BrowserSessionState EndpointId → BrowserSessionState EndpointId
  fail s = record s {
    channel_attachment = end_attachment DataChannelAttachmentState.failed s.channel_attachment;
    lifecycle = BrowserSessionLifecycle.failed;
  }

  unfoldable pub close : BrowserSessionState EndpointId → BrowserSessionState EndpointId
  close s = record s {
    channel_attachment = end_attachment DataChannelAttachmentState.closed s.channel_attachment;
    lifecycle = BrowserSessionLifecycle.closed;
  }

  unfoldable pub resolve_transport :
      BrowserSessionState EndpointId
      → BrowserResolvedTransport
      → Runtime (BrowserSessionState EndpointId)
  resolve_transport s transport = do
    validate_resolution transport s.transport_intent s.channel_attachment
    ok (record s { resolved_transport = some transport; lifecycle = application_ready })

  unfoldable pub complete_dial :
      BrowserSessionState EndpointId
      → BrowserResolvedTransport
      → Runtime (BrowserSessionState EndpointId)
  complete_dial s transport = do
    fail_if (not (is_dialer s.role))
        (runtime_error BrowserRuntimeErrorCode.web_rtc_failed "session is not a dialer session")
    resolve_transport s transport

  -- `apply_terminal_reason`, with the transport that it selects.
  unfoldable pub apply_terminal_reason :
      BrowserSessionState EndpointId
      → WebRtcTerminalReason
      → BrowserSessionState EndpointId × Option BrowserResolvedTransport
  unfolding fail close
  apply_terminal_reason s WebRtcTerminalReason.fallback_selected =
      if allows_iroh_relay_fallback s.transport_intent
      then (
        record s {
          resolved_transport = some BrowserResolvedTransport.iroh_relay;
          lifecycle = relay_selected;
          channel_attachment = DataChannelAttachmentState.failed;
        },
        some BrowserResolvedTransport.iroh_relay,
      )
      else (fail s, none)
  apply_terminal_reason s WebRtcTerminalReason.web_rtc_failed = (fail s, none)
  apply_terminal_reason s WebRtcTerminalReason.cancelled = (close s, none)
  apply_terminal_reason s WebRtcTerminalReason.closed = (close s, none)

  unfoldable pub record_terminal_received :
      BrowserSessionState EndpointId → WebRtcTerminalReason → BrowserSessionState EndpointId
  record_terminal_received s reason =
      (apply_terminal_reason (record s { terminal_received = some reason }) reason).0

  unfoldable pub record_terminal_sent :
      BrowserSessionState EndpointId
      → WebRtcTerminalReason
      → BrowserSessionState EndpointId × Option BrowserResolvedTransport
  record_terminal_sent s reason =
      apply_terminal_reason (record s { terminal_sent = some reason }) reason

  -- `session_terminal_signal` of node.rs
  unfoldable pub session_terminal_signal :
      BrowserSessionState EndpointId → WebRtcTerminalReason → Option Bytes → WebRtcSignal EndpointId
  session_terminal_signal s reason message =
      let c = Coordinator.from_parts s.local s.remote s.generation s.dial_id s.transport_intent in
      elim message [
        | some m ↦ Coordinator.terminal_with_message c reason m
        | none ↦ Coordinator.terminal c reason
      ]

  -- `close_for_node`, with the signal that tells the other side.
  unfoldable pub close_for_node :
      BrowserSessionState EndpointId
      → Option Bytes
      → BrowserSessionState EndpointId × Option (WebRtcSignal EndpointId)
  close_for_node s message =
      if nothing_sent s.terminal_sent && uses_webrtc s.transport_intent
      then (
        close (record s { terminal_sent = some WebRtcTerminalReason.closed }),
        some (session_terminal_signal s WebRtcTerminalReason.closed message),
      )
      else (close s, none)
