-- ===== src/Coordinator/Routing.antt =====
-- Which messages a coordinator accepts.
use iroh_webrtc_messenger.Common.{◌≡◌, ◌≢◌, ◌↔◌, true, false, Bytes, arith}
use iroh_webrtc_messenger.Ice.{WebRtcIceCandidate}
use iroh_webrtc_messenger.Signal.{
  BootstrapTransportIntent, WebRtcTerminalReason, WebRtcSignal, signal_dial_id, signal_generation,
  signal_from, signal_to,
}
use iroh_webrtc_messenger.Coordinator
use iroh_webrtc_messenger.Coordinator.{DialCoordinator, respond, accepts}

-- What a coordinator can be asked to write.
pub data Message : Type 0 where
  offers answers : Bytes → Message
  gathers : WebRtcIceCandidate → Message
  ends : Message
  terminates : WebRtcTerminalReason → Message
  terminates_with : WebRtcTerminalReason → Bytes → Message

module _ {EndpointId : Type 0} (eq : Discrete EndpointId) where
  abbrev pub write : DialCoordinator EndpointId → Message → WebRtcSignal EndpointId
  write c (offers sdp) = Coordinator.offer c sdp
  write c (answers sdp) = Coordinator.answer c sdp
  write c (gathers i) = Coordinator.ice_candidate c i
  write c ends = Coordinator.end_of_candidates c
  write c (terminates reason) = Coordinator.terminal c reason
  write c (terminates_with reason message) = Coordinator.terminal_with_message c reason message

  -- The other end of the same dial and generation.
  abbrev pub IsPeer : DialCoordinator EndpointId → DialCoordinator EndpointId → Type 0
  IsPeer c d =
      (c.dial_id ≡ d.dial_id)
      × (c.generation ≡ d.generation)
      × (c.remote ≡ d.local)
      × (c.local ≡ d.remote)

  accepts_iff :
      (c : DialCoordinator EndpointId) (s : WebRtcSignal EndpointId)
      → (accepts eq c s ≡ true) ↔ (
          (signal_dial_id s ≡ c.dial_id)
          × (signal_generation s ≡ c.generation)
          × (signal_to s ≡ c.local)
          × (signal_from s ≡ c.remote))
  unfolding accepts
  accepts_iff c s =
      (λ h. (ground arith, ground arith, ground arith, ground arith), λ h. ground arith)

  -- Whatever one coordinator writes, another accepts exactly if it is the other end of the same dial
  -- and generation: a message of any kind reaches its peer, and no coordinator of another dial, of an
  -- earlier or later generation, or of other endpoints takes it.
  pub accepts-write_iff :
      (c d : DialCoordinator EndpointId) (m : Message)
      → (accepts eq d (write c m) ≡ true) ↔ IsPeer c d
  accepts-write_iff c d (offers sdp) = accepts_iff d (write c (offers sdp))
  accepts-write_iff c d (answers sdp) = accepts_iff d (write c (answers sdp))
  accepts-write_iff c d (gathers i) = accepts_iff d (write c (gathers i))
  accepts-write_iff c d ends = accepts_iff d (write c ends)
  accepts-write_iff c d (terminates reason) = accepts_iff d (write c (terminates reason))
  accepts-write_iff c d (terminates_with reason message) =
      accepts_iff d (write c (terminates_with reason message))

  -- Whatever the responder of a session writes, its initiator accepts, and the other way round; and
  -- between two different endpoints neither accepts what it wrote itself.
  pub accepts-write :
      (c : DialCoordinator EndpointId) (intent : BootstrapTransportIntent) (m : Message)
      → c.local ≢ c.remote
      → let peer = respond c.remote c.local c.generation c.dial_id intent in
        (accepts eq c (write peer m) ≡ true)
        × (accepts eq peer (write c m) ≡ true)
        × (accepts eq c (write c m) ≡ false)
        × (accepts eq peer (write peer m) ≡ false)
  unfolding accepts
  accepts-write c intent (offers sdp) h = ground arith
  accepts-write c intent _ h = ground arith
