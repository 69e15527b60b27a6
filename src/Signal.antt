-- ===== src/Signal.antt =====
-- crates/iroh-webrtc-transport/src/core/signaling.rs: the messages that set a session up, and the
-- ids of dials. A `String` is its bytes. The type of endpoint ids is a parameter.
pub mod Dial
use iroh_webrtc_messenger.Common.{ℕ, ◌≡◌, Bool, true, false, ◌&&◌, Option, none, some, Bytes, same}

pub data BootstrapTransportIntent : Type 0 where
  iroh_relay web_rtc_preferred web_rtc_only : BootstrapTransportIntent

abbrev pub uses_webrtc : BootstrapTransportIntent → Bool
uses_webrtc iroh_relay = false
uses_webrtc web_rtc_preferred = true
uses_webrtc web_rtc_only = true

abbrev pub allows_iroh_relay_fallback : BootstrapTransportIntent → Bool
allows_iroh_relay_fallback web_rtc_preferred = true
allows_iroh_relay_fallback iroh_relay = false
allows_iroh_relay_fallback web_rtc_only = false

abbrev pub requires_webrtc : BootstrapTransportIntent → Bool
requires_webrtc web_rtc_only = true
requires_webrtc iroh_relay = false
requires_webrtc web_rtc_preferred = false

pub data WebRtcTerminalReason : Type 0 where
  web_rtc_failed fallback_selected cancelled closed : WebRtcTerminalReason

-- `DialId`, sixteen bytes.
abbrev pub DialId : Type 0
DialId = Bytes

pub record DialSessionId : Type 0 where
  pub dial_id : DialId
  pub generation : ℕ

-- The fields of each message: dial id, from, to, generation, and what the variant adds.
pub data WebRtcSignal (EndpointId : Type 0) : Type 0 where
  dial_request :
      DialId
      → EndpointId
      → EndpointId
      → ℕ
      → Bytes
      → BootstrapTransportIntent
      → WebRtcSignal EndpointId
  offer : DialId → EndpointId → EndpointId → ℕ → Bytes → WebRtcSignal EndpointId
  answer : DialId → EndpointId → EndpointId → ℕ → Bytes → WebRtcSignal EndpointId
  ice_candidate :
      DialId
      → EndpointId
      → EndpointId
      → ℕ
      → Bytes
      → Option Bytes
      → Option ℕ
      → WebRtcSignal EndpointId
  end_of_candidates : DialId → EndpointId → EndpointId → ℕ → WebRtcSignal EndpointId
  terminal :
      DialId
      → EndpointId
      → EndpointId
      → ℕ
      → WebRtcTerminalReason
      → Option Bytes
      → WebRtcSignal EndpointId

module _ {EndpointId : Type 0} where
  abbrev pub signal_dial_id : WebRtcSignal EndpointId → DialId
  signal_dial_id (dial_request d f t g a i) = d
  signal_dial_id (offer d f t g s) = d
  signal_dial_id (answer d f t g s) = d
  signal_dial_id (ice_candidate d f t g c m l) = d
  signal_dial_id (end_of_candidates d f t g) = d
  signal_dial_id (terminal d f t g r m) = d

  abbrev pub signal_from : WebRtcSignal EndpointId → EndpointId
  signal_from (dial_request d f t g a i) = f
  signal_from (offer d f t g s) = f
  signal_from (answer d f t g s) = f
  signal_from (ice_candidate d f t g c m l) = f
  signal_from (end_of_candidates d f t g) = f
  signal_from (terminal d f t g r m) = f

  abbrev pub signal_to : WebRtcSignal EndpointId → EndpointId
  signal_to (dial_request d f t g a i) = t
  signal_to (offer d f t g s) = t
  signal_to (answer d f t g s) = t
  signal_to (ice_candidate d f t g c m l) = t
  signal_to (end_of_candidates d f t g) = t
  signal_to (terminal d f t g r m) = t

  abbrev pub signal_generation : WebRtcSignal EndpointId → ℕ
  signal_generation (dial_request d f t g a i) = g
  signal_generation (offer d f t g s) = g
  signal_generation (answer d f t g s) = g
  signal_generation (ice_candidate d f t g c m l) = g
  signal_generation (end_of_candidates d f t g) = g
  signal_generation (terminal d f t g r m) = g

  abbrev pub terminal_reason : WebRtcSignal EndpointId → Option WebRtcTerminalReason
  terminal_reason (terminal d f t g r m) = some r
  terminal_reason (dial_request d f t g a i) = none
  terminal_reason (offer d f t g s) = none
  terminal_reason (answer d f t g s) = none
  terminal_reason (ice_candidate d f t g c m l) = none
  terminal_reason (end_of_candidates d f t g) = none

  -- `terminal_reason().is_some()`
  abbrev pub is_terminal : WebRtcSignal EndpointId → Bool
  is_terminal s = elim (terminal_reason s) [ some _ ↦ true | none ↦ false ]

  abbrev pub is_for : Discrete EndpointId → WebRtcSignal EndpointId → EndpointId → EndpointId → Bool
  is_for eq s local remote = same eq (signal_to s) local && same eq (signal_from s) remote
