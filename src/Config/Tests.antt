-- ===== src/Config/Tests.antt =====
-- A configuration for a local network, and the theorems at it.
use iroh_webrtc_messenger.Common.{
  ◌≤◌, ◌≡◌, ◌↔◌, refl, [], ◌∷◌, none, ok, err, Bytes, codes, replicate, arith,
}
use iroh_webrtc_messenger.Errors.{invalid_ice_config}
use iroh_webrtc_messenger.Samples.{sample_iroh}
use iroh_webrtc_messenger.Samples.Channels.{bounded}
use iroh_webrtc_messenger.Hub.{with_capacities}
use iroh_webrtc_messenger.Frame.{WebRtcPacketFrame}
use iroh_webrtc_messenger.Config.{
  WebRtcSessionConfig, WebRtcTransport, validate_session, validate_stun_url, direct_stun,
  direct_only, validate_all, default_session, default_transport, try_new, validate_queues,
  validate_frame,
}
use iroh_webrtc_messenger.Config.Bounds.{
  IsValid, validate_session_iff, direct_stun-IsValid, try_new_carries,
}

validate_session_iff_example : (validate_session default_session ≡ ok tt) ↔ IsValid default_session
validate_session_iff_example = validate_session_iff default_session

abbrev stuns : Bytes
stuns = codes "STUNS:example.test"

abbrev configured : WebRtcSessionConfig
configured = record default_session { ice = record { stun_urls = stuns ∷ [] } }

stuns_accepted : direct_stun (stuns ∷ []) ≡ ok configured
unfolding direct_stun direct_only validate_all validate_stun_url
stuns_accepted = refl

turn_refused :
    validate_stun_url (codes "turn:example.test")
    ≡ err (
        invalid_ice_config
          "direct-only WebRTC sessions only accept stun: or stuns: ICE server URLs")
unfolding validate_stun_url
turn_refused = refl

direct_stun-IsValid_example : validate_session configured ≡ ok tt
direct_stun-IsValid_example = (direct_stun-IsValid (stuns ∷ []) configured stuns_accepted).1

abbrev transport : WebRtcTransport sample_iroh (bounded _)
transport = record {
  config = default_transport sample_iroh (bounded _);
  hub = with_capacities (bounded _) 1024 1024;
  local_addrs = [];
}

transport_made :
    try_new sample_iroh (bounded _) (default_transport sample_iroh (bounded _)) ≡ ok transport
unfolding try_new validate_queues validate_frame
transport_made = refl

abbrev frame : WebRtcPacketFrame
frame = record {
  flags = 0;
  session_id = replicate 16 5;
  segment_size = none;
  payload = 1 ∷ 2 ∷ 3 ∷ [];
}

try_new_carries_example : 1 ≤ (default_transport sample_iroh (bounded _)).queues.send_capacity
try_new_carries_example =
    (try_new_carries sample_iroh (bounded _) (default_transport sample_iroh (bounded _)) transport
      frame transport_made (omega arith) (omega arith) (omega arith) (ground arith)).1
