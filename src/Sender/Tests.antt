-- ===== src/Sender/Tests.antt =====
-- Sends to a registered session of alice, and to an address that has none.
use iroh_webrtc_messenger.Common.{
  ℕ, ◌≡◌, refl, [], ◌∷◌, ◌++◌, none, some, ok, err, ready, Bytes, Bytes-discrete, ℕ_discrete,
  replicate,
}
use iroh_webrtc_messenger.Errors.{IoError}
use iroh_webrtc_messenger.Frame.{
  decode, encode, frame_session_id, decode_header, read_segment_size, normalized_segment_size,
}
use iroh_webrtc_messenger.Frame.RoundTrip.{carried_segment_size}
use iroh_webrtc_messenger.Samples.{sample_iroh, alice}
use iroh_webrtc_messenger.Samples.Channels.{bounded}
use iroh_webrtc_messenger.Addr.{
  session_addr, capability_addr, to_custom_addr, from_custom_addr, read_kind, read_endpoint_id,
}
use iroh_webrtc_messenger.Hub.{
  OutboundPacket, SessionHub, with_capacities, register_outbound_session, poll_push_outbound,
  push_on_route, send_reserved, session_id_from_destination,
}
use iroh_webrtc_messenger.Hub.Outbound.{in_flight}
use iroh_webrtc_messenger.Sender.{
  WebRtcSender, frame_of, is_valid_send_addr, poll_send, send_frame, count_push,
}
use iroh_webrtc_messenger.Sender.Delivery.{packet_to, poll_send-sends, poll_send-is_valid_send_addr}

abbrev Packet : Type 0
Packet = OutboundPacket (ℕ × Bytes)

abbrev id9 : Bytes
id9 = replicate 16 9

abbrev sender : WebRtcSender sample_iroh (bounded Packet)
sender = record { validation_checks = 0; max_payload_len = 100 }

abbrev routed : SessionHub (bounded Packet)
unfolding with_capacities register_outbound_session
routed = (register_outbound_session (bounded _) id9 (with_capacities (bounded _) 2 2)).1

abbrev to_alice : ℕ × Bytes
unfolding to_custom_addr
to_alice = to_custom_addr sample_iroh (session_addr alice id9)

abbrev three : Bytes
three = 1 ∷ 2 ∷ 3 ∷ []

poll_send-sends_example :
    (id : Bytes) × (bytes : Bytes) × (session_id_from_destination sample_iroh to_alice ≡ some id)
    × (decode bytes 100 ≡ ok (frame_of id three (carried_segment_size (some 2) 3)))
    × (in_flight
          (bounded _)
          id
          (poll_send sample_iroh (bounded _) 5 6 7 1 sender routed to_alice three (some 2)).1
        ≡ in_flight (bounded _) id routed ++ packet_to sample_iroh (bounded _) to_alice bytes ∷ [])
unfolding with_capacities register_outbound_session poll_push_outbound push_on_route send_reserved
    frame_session_id decode_header read_segment_size Bytes-discrete ℕ_discrete poll_send send_frame
    count_push encode normalized_segment_size from_custom_addr read_kind read_endpoint_id
    to_custom_addr
poll_send-sends_example =
    poll_send-sends sample_iroh (bounded _) 5 6 7 1 sender routed to_alice three (some 2) refl

abbrev advertised : ℕ × Bytes
unfolding to_custom_addr
advertised = to_custom_addr sample_iroh (capability_addr alice)

poll_send-is_valid_send_addr_example :
    (x : IoError) × ((poll_send sample_iroh
        (bounded _)
        5
        6
        7
        1
        sender
        routed
        advertised
        three
        none).0
      ≡ ready (err x))
    × ((poll_send sample_iroh (bounded _) 5 6 7 1 sender routed advertised three none).1.state
        ≡ routed.state)
unfolding to_custom_addr is_valid_send_addr from_custom_addr read_kind read_endpoint_id
    Bytes-discrete ℕ_discrete
poll_send-is_valid_send_addr_example =
    poll_send-is_valid_send_addr sample_iroh (bounded _) 5 6 7 1 sender routed advertised three none
      refl
