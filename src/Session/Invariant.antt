-- ===== src/Session/Invariant.antt =====
-- What holds of a session after any sequence of its methods.
use iroh_webrtc_messenger.Common.{
  ℕ, Bool, true, false, ◌≡◌, ◌≢◌, ◌⊎◌, List, [], ◌∷◌, Option, none, some, Bytes, ok, err, arith,
}
use iroh_webrtc_messenger.Signal.{
  BootstrapTransportIntent, web_rtc_only, uses_webrtc, WebRtcTerminalReason, DialId,
}
use iroh_webrtc_messenger.Runtime.{Runtime}
use iroh_webrtc_messenger.Session.{
  BrowserResolvedTransport, web_rtc, BrowserSessionRole, DataChannelAttachmentState, not_required,
  open_, BrowserSessionLifecycle, allocated, web_rtc_negotiating, relay_selected, application_ready,
  BrowserSessionState, validate_resolution, new, attach_transferred_channel,
  mark_transferred_channel_open, fail, close, resolve_transport, complete_dial,
  apply_terminal_reason, record_terminal_received, record_terminal_sent, close_for_node,
}

-- The methods that change a session.
pub data Op : Type 0 where
  attach opens fails closes : Op
  resolves completes : BrowserResolvedTransport → Op
  receives sends : WebRtcTerminalReason → Op
  closes_for_node : Option Bytes → Op

-- A channel that has failed or closed.
abbrev pub is_dead : DataChannelAttachmentState → Bool
is_dead DataChannelAttachmentState.failed = true
is_dead DataChannelAttachmentState.closed = true
is_dead _ = false

module _ {EndpointId : Type 0} where
  -- A method that fails leaves the session alone.
  abbrev pub after :
      BrowserSessionState EndpointId
      → Runtime (BrowserSessionState EndpointId)
      → BrowserSessionState EndpointId
  after s (ok t) = t
  after s (err e) = s

  unfoldable pub step : BrowserSessionState EndpointId → Op → BrowserSessionState EndpointId
  unfolding attach_transferred_channel mark_transferred_channel_open fail close resolve_transport
      validate_resolution complete_dial apply_terminal_reason record_terminal_received
      record_terminal_sent close_for_node
  step s attach = after s (attach_transferred_channel s)
  step s opens = after s (mark_transferred_channel_open s)
  step s fails = fail s
  step s closes = close s
  step s (resolves t) = after s (resolve_transport s t)
  step s (completes t) = after s (complete_dial s t)
  step s (receives r) = record_terminal_received s r
  step s (sends r) = (record_terminal_sent s r).0
  step s (closes_for_node m) = (close_for_node s m).0

  unfoldable pub run : BrowserSessionState EndpointId → List Op → BrowserSessionState EndpointId
  run s [] = s
  run s (op ∷ ops) = run (step s op) ops

  -- The transport, the channel and the phase of a session agree.
  pub record IsValid (s : BrowserSessionState EndpointId) : Type 0 where
    pub channel_needed :
        (s.channel_attachment ≡ not_required → uses_webrtc s.transport_intent ≡ false)
        × (uses_webrtc s.transport_intent ≡ false → s.channel_attachment ≡ not_required)
    pub webrtc_allowed : s.resolved_transport ≡ some web_rtc → uses_webrtc s.transport_intent ≡ true
    pub relay_allowed :
        s.resolved_transport ≡ some BrowserResolvedTransport.iroh_relay
        → s.transport_intent ≢ web_rtc_only
    pub ready_resolved : s.lifecycle ≡ application_ready → s.resolved_transport ≢ none
    pub ready_open :
        s.lifecycle ≡ application_ready
        → s.resolved_transport ≡ some web_rtc
        → s.channel_attachment ≡ open_
    pub relay_selected_allowed : s.lifecycle ≡ relay_selected → s.transport_intent ≢ web_rtc_only
    pub negotiating_fresh :
        s.lifecycle ≡ web_rtc_negotiating
        → (s.resolved_transport ≡ none) × (is_dead s.channel_attachment ≡ false)
    pub failed_dead :
        s.lifecycle ≡ BrowserSessionLifecycle.failed
        → (s.channel_attachment ≡ not_required)
          ⊎ (s.channel_attachment ≡ DataChannelAttachmentState.failed)
    pub closed_dead :
        s.lifecycle ≡ BrowserSessionLifecycle.closed
        → (s.channel_attachment ≡ not_required)
          ⊎ (s.channel_attachment ≡ DataChannelAttachmentState.closed)
    pub used : s.lifecycle ≢ allocated

  -- A session is valid when it is allocated.
  pub new-IsValid :
      (session_key : Bytes) (dial_id : DialId) (generation : ℕ) (local remote : EndpointId)
      (alpn : Bytes) (role : BrowserSessionRole) (intent : BootstrapTransportIntent)
      → IsValid (new session_key dial_id generation local remote alpn role intent)
  unfolding new
  new-IsValid session_key dial_id generation local remote alpn role intent = ground arith

  step-IsValid : (s : BrowserSessionState EndpointId) (op : Op) → IsValid s → IsValid (step s op)
  unfolding step
  step-IsValid s attach v = ground arith
  step-IsValid s _ v = ground arith

  run-IsValid :
      (s : BrowserSessionState EndpointId) (ops : List Op) → IsValid s → IsValid (run s ops)
  unfolding run
  run-IsValid s [] v = v
  run-IsValid s (op ∷ ops) v = run-IsValid (step s op) ops (step-IsValid s op v)

  -- A session is valid after any sequence of its methods, failed calls and terminal messages of both
  -- sides included.
  pub run-new-IsValid :
      (session_key : Bytes) (dial_id : DialId) (generation : ℕ) (local remote : EndpointId)
      (alpn : Bytes) (role : BrowserSessionRole) (intent : BootstrapTransportIntent) (ops : List Op)
      → IsValid (run (new session_key dial_id generation local remote alpn role intent) ops)
  run-new-IsValid session_key dial_id generation local remote alpn role intent ops =
      run-IsValid _ ops (new-IsValid session_key dial_id generation local remote alpn role intent)

  -- What a session is about.
  pub record SameRoute (s t : BrowserSessionState EndpointId) : Type 0 where
    pub session_key : t.session_key ≡ s.session_key
    pub dial_id : t.dial_id ≡ s.dial_id
    pub generation : t.generation ≡ s.generation
    pub local : t.local ≡ s.local
    pub remote : t.remote ≡ s.remote
    pub alpn : t.alpn ≡ s.alpn
    pub role : t.role ≡ s.role
    pub transport_intent : t.transport_intent ≡ s.transport_intent

  step-SameRoute : (s : BrowserSessionState EndpointId) (op : Op) → SameRoute s (step s op)
  unfolding step
  step-SameRoute s attach = ground arith
  step-SameRoute s _ = ground arith

  -- No sequence of methods changes the route, the role, the ALPN or the intent of a session.
  pub run-SameRoute : (s : BrowserSessionState EndpointId) (ops : List Op) → SameRoute s (run s ops)
  unfolding run
  run-SameRoute s [] = ground arith
  run-SameRoute s (op ∷ ops) = ground (arith, step-SameRoute s op, run-SameRoute (step s op) ops)

  step-is_dead :
      (s : BrowserSessionState EndpointId) (op : Op)
      → is_dead s.channel_attachment ≡ true
      → is_dead (step s op).channel_attachment ≡ true
  unfolding step
  step-is_dead s attach h = ground arith
  step-is_dead s _ h = ground arith

  run-is_dead :
      (s : BrowserSessionState EndpointId) (ops : List Op)
      → is_dead s.channel_attachment ≡ true
      → is_dead (run s ops).channel_attachment ≡ true
  unfolding run
  run-is_dead s [] h = h
  run-is_dead s (op ∷ ops) h = run-is_dead (step s op) ops (step-is_dead s op h)

  -- After a channel has failed or closed, no sequence of methods brings it back: it cannot be attached
  -- or opened, and the session cannot be resolved as WebRTC.
  pub dead_channel_refuses :
      (s : BrowserSessionState EndpointId) (ops : List Op)
      → is_dead s.channel_attachment ≡ true
      → let t = run s ops in
        ((u : BrowserSessionState EndpointId) → attach_transferred_channel t ≢ ok u)
        × ((u : BrowserSessionState EndpointId) → mark_transferred_channel_open t ≢ ok u)
        × ((u : BrowserSessionState EndpointId) → resolve_transport t web_rtc ≢ ok u)
  unfolding attach_transferred_channel mark_transferred_channel_open resolve_transport
      validate_resolution
  dead_channel_refuses s ops h = (
    λ u e. ground (arith, run-is_dead s ops h),
    λ u e. ground (arith, run-is_dead s ops h),
    λ u e. ground (arith, run-is_dead s ops h),
  )
