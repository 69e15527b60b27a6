-- ===== src/Coordinator.antt =====
-- crates/iroh-webrtc-transport/src/core/coordinator.rs: one side of a dial, which writes the routed
-- messages of its session and accepts those of the other side.
pub mod Routing
mod Tests
use iroh_webrtc_messenger.Common.{
  ℕ, ◌&&◌, ◌==◌, Bool, Option, none, some, Bytes, Bytes-discrete, same,
}
use iroh_webrtc_messenger.Iroh.{Iroh}
use iroh_webrtc_messenger.Ice.{WebRtcIceCandidate}
use iroh_webrtc_messenger.Signal.{
  BootstrapTransportIntent, WebRtcTerminalReason, DialId, DialSessionId, WebRtcSignal,
  signal_dial_id, signal_generation, is_for,
}
use iroh_webrtc_messenger.Signal
use iroh_webrtc_messenger.Signal.Dial.{DialIdGenerator, next}

pub record DialCoordinator (EndpointId : Type 0) : Type 0 where
  pub local : EndpointId
  pub remote : EndpointId
  pub dial_id : DialId
  pub generation : ℕ

module _ {EndpointId : Type 0} where
  -- `from_parts_with_transport_intent`, which drops the intent.
  abbrev pub from_parts :
      EndpointId → EndpointId → ℕ → DialId → BootstrapTransportIntent → DialCoordinator EndpointId
  from_parts local remote generation dial_id intent = record {
    local = local;
    remote = remote;
    dial_id = dial_id;
    generation = generation;
  }

  -- `respond_with_transport_intent`
  abbrev pub respond :
      EndpointId → EndpointId → ℕ → DialId → BootstrapTransportIntent → DialCoordinator EndpointId
  respond local remote generation dial_id intent = from_parts local remote generation dial_id intent

  abbrev pub offer : DialCoordinator EndpointId → Bytes → WebRtcSignal EndpointId
  offer c sdp = Signal.offer c.dial_id c.local c.remote c.generation sdp

  abbrev pub answer : DialCoordinator EndpointId → Bytes → WebRtcSignal EndpointId
  answer c sdp = Signal.answer c.dial_id c.local c.remote c.generation sdp

  abbrev pub ice_candidate :
      DialCoordinator EndpointId → WebRtcIceCandidate → WebRtcSignal EndpointId
  ice_candidate c i =
      Signal.ice_candidate c.dial_id c.local c.remote c.generation i.candidate i.sdp_mid
        i.sdp_mline_index

  abbrev pub end_of_candidates : DialCoordinator EndpointId → WebRtcSignal EndpointId
  end_of_candidates c = Signal.end_of_candidates c.dial_id c.local c.remote c.generation

  abbrev pub terminal : DialCoordinator EndpointId → WebRtcTerminalReason → WebRtcSignal EndpointId
  terminal c reason = Signal.terminal c.dial_id c.local c.remote c.generation reason none

  abbrev pub terminal_with_message :
      DialCoordinator EndpointId → WebRtcTerminalReason → Bytes → WebRtcSignal EndpointId
  terminal_with_message c reason message =
      Signal.terminal c.dial_id c.local c.remote c.generation reason (some message)

  unfoldable pub accepts :
      Discrete EndpointId → DialCoordinator EndpointId → WebRtcSignal EndpointId → Bool
  accepts eq c s =
      same Bytes-discrete (signal_dial_id s) c.dial_id
      && (signal_generation s == c.generation && is_for eq s c.local c.remote)

-- `initiate_with_transport_intent`, with the generator after it.
unfoldable pub initiate :
    (iroh : Iroh)
    → (Bytes → Bytes)
    → DialIdGenerator iroh.EndpointId
    → iroh.EndpointId
    → BootstrapTransportIntent
    → Option (DialCoordinator iroh.EndpointId × DialIdGenerator iroh.EndpointId)
initiate iroh blake3 g remote intent = elim (next iroh blake3 g remote) [
  | none ↦ none
  | some (session, g') ↦
      some (from_parts g.local remote session.generation session.dial_id intent, g')
]
