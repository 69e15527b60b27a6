-- ===== src/Session/Resolution.antt =====
-- When a session resolves its transport, and what it tells the other side when it ends.
use iroh_webrtc_messenger.Common.{
  true, false, ◌≡◌, ◌≢◌, ◌⊎◌, ◌↔◌, Option, none, some, Bytes, ok, arith,
}
use iroh_webrtc_messenger.Signal.{
  BootstrapTransportIntent, web_rtc_preferred, web_rtc_only, uses_webrtc, WebRtcTerminalReason,
  WebRtcSignal, terminal_reason,
}
use iroh_webrtc_messenger.Coordinator.{respond, accepts}
use iroh_webrtc_messenger.Session.{
  BrowserResolvedTransport, web_rtc, iroh_relay, dialer, DataChannelAttachmentState, open_,
  BrowserSessionLifecycle, application_ready, BrowserSessionState, validate_resolution, close,
  resolve_transport, complete_dial, session_terminal_signal, close_for_node,
}

-- The transports that an intent allows, given the channel.
abbrev pub Allowed :
    BrowserResolvedTransport → BootstrapTransportIntent → DataChannelAttachmentState → Type 0
Allowed web_rtc intent attachment = (uses_webrtc intent ≡ true) × (attachment ≡ open_)
Allowed iroh_relay intent attachment = intent ≢ web_rtc_only

validate_resolution_iff :
    (t : BrowserResolvedTransport) (intent : BootstrapTransportIntent)
    (attachment : DataChannelAttachmentState)
    → (validate_resolution t intent attachment ≡ ok tt) ↔ Allowed t intent attachment
unfolding validate_resolution
validate_resolution_iff web_rtc BootstrapTransportIntent.iroh_relay a =
    (λ e. ground arith, λ h. ground arith)
validate_resolution_iff web_rtc web_rtc_preferred a = (λ e. ground arith, λ h. ground arith)
validate_resolution_iff web_rtc web_rtc_only a = (λ e. ground arith, λ h. ground arith)
validate_resolution_iff iroh_relay BootstrapTransportIntent.iroh_relay a =
    (λ e. ground arith, λ h. ground arith)
validate_resolution_iff iroh_relay web_rtc_preferred a = (λ e. ground arith, λ h. ground arith)
validate_resolution_iff iroh_relay web_rtc_only a = (λ e. ground arith, λ h. ground arith)

module _ {EndpointId : Type 0} where
  -- A dial is completed exactly for a dialer whose intent allows the transport, WebRTC only over an
  -- open channel; the session is then ready on that transport, and its channel is untouched.
  pub complete_dial_iff :
      (s t : BrowserSessionState EndpointId) (transport : BrowserResolvedTransport)
      → (complete_dial s transport ≡ ok t) ↔ (
          (s.role ≡ dialer)
          × Allowed transport s.transport_intent s.channel_attachment
          × (t ≡ record s { resolved_transport = some transport; lifecycle = application_ready }))
  unfolding complete_dial resolve_transport
  complete_dial_iff s t transport = (
    λ e.
        let v = (validate_resolution_iff transport s.transport_intent s.channel_attachment).0 in
        (ground arith, v (ground arith), ground arith),
    λ h.
        let v = (validate_resolution_iff transport s.transport_intent s.channel_attachment).1 h.1 in
        ground (arith, v),
  )

  -- Closing the node tells the other side of every session that could use WebRTC and had not yet sent a
  -- terminal message, and of no other; that message is one that the other side's coordinator accepts.
  -- A second close says nothing.
  pub close_for_node_signals :
      (eq : Discrete EndpointId) (s : BrowserSessionState EndpointId) (message : Option Bytes)
      → let peer = respond s.remote s.local s.generation s.dial_id s.transport_intent in
        let (t, signal) = close_for_node s message in
        (t.lifecycle ≡ BrowserSessionLifecycle.closed)
        × ((signal ≡ none) ↔ ((s.terminal_sent ≢ none) ⊎ (uses_webrtc s.transport_intent ≡ false)))
        × ((sig : WebRtcSignal EndpointId)
            → signal ≡ some sig
            → (accepts eq peer sig ≡ true)
              × (terminal_reason sig ≡ some WebRtcTerminalReason.closed)
              × (t.terminal_sent ≡ some WebRtcTerminalReason.closed))
        × ((close_for_node t message).1 ≡ none)
  unfolding close_for_node close session_terminal_signal accepts
  close_for_node_signals eq s message = ground arith
