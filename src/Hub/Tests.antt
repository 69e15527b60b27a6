-- ===== src/Hub/Tests.antt =====
-- A hub with room for two received packets and one packet on each route.
use iroh_webrtc_messenger.Common.{
  ℕ, ◌≡◌, ◌≢◌, refl, ◌⊎◌, true, false, List, [], ◌∷◌, ◌++◌, none, ok, err, ready, Bytes,
  Bytes-discrete, ℕ_discrete, replicate, arith, ite,
}
use mathlib.Core.List.{Mem}
use iroh_webrtc_messenger.Common.Maps.{get}
use iroh_webrtc_messenger.Errors.{io_error, session_closed}
use iroh_webrtc_messenger.Frame.{
  WebRtcPacketFrame, layout, frame_session_id, decode_header, read_segment_size,
}
use iroh_webrtc_messenger.Samples.Channels.{bounded}
use iroh_webrtc_messenger.Hub.{
  QueuedPacket, OutboundPacket, SessionHub, with_capacities, push_received, pop_received,
  register_outbound_session, poll_push_outbound, push_on_route, send_reserved,
  unregister_outbound_session, close,
}
use iroh_webrtc_messenger.Hub.Calls.{
  Call, pushes, pops, registers, sends, unregisters, closes, start, run,
}
use iroh_webrtc_messenger.Hub.Receive.{IsValid, run-start-IsValid}
use iroh_webrtc_messenger.Hub.Delivery.{held, run-start-held, pop_received-wakes}
use iroh_webrtc_messenger.Hub.Outbound.{
  in_flight, poll_push_outbound-in_flight, poll_push_outbound-wakes,
}

abbrev id5 : Bytes
id5 = replicate 16 5

abbrev hello : WebRtcPacketFrame
hello = record { flags = 0; session_id = id5; segment_size = none; payload = 104 ∷ 105 ∷ [] }

abbrev from_7 : QueuedPacket ℕ
from_7 = record { source = 7; frame = hello }

abbrev to_7 : OutboundPacket ℕ
to_7 = record { destination = 7; bytes = layout hello 0 }

abbrev calls : List (Call ℕ ℕ)
calls =
    pops 1
    ∷ pushes 10 10 from_7
    ∷ pushes 15 15 from_7
    ∷ pushes 16 16 from_7
    ∷ pops 1
    ∷ registers id5
    ∷ sends 20 2 to_7
    ∷ sends 21 2 to_7
    ∷ unregisters id5
    ∷ closes
    ∷ []

run-start-IsValid_example :
    IsValid (bounded (OutboundPacket ℕ)) (run (bounded _) (start (bounded _) 2 1) calls).hub.state
run-start-IsValid_example = run-start-IsValid (bounded _) 2 1 calls

run-start-held_example :
    held (bounded (OutboundPacket ℕ)) (run (bounded _) (start (bounded _) 2 1) calls)
    ≡ (run (bounded _) (start (bounded _) 2 1) calls).accepted
run-start-held_example = run-start-held (bounded _) 2 1 calls

abbrev fresh : SessionHub (bounded (OutboundPacket ℕ))
unfolding with_capacities
fresh = with_capacities (bounded _) 2 1

pop_received-wakes_example :
    let waiting = (pop_received (bounded _) 1 fresh).1 in
    let pushed = push_received (bounded _) 10 11 waiting from_7 in
    (pushed.0 ≡ ok tt)
    × (pushed.2 ≡ 1 ∷ [])
    × ((pop_received (bounded _) 1 pushed.1).0 ≡ ready (ok from_7))
    × Mem 1 (close (bounded _) waiting).1
    × ((pop_received (bounded _) 1 (close (bounded _) waiting).0).0
        ≡ ready (err (io_error session_closed)))
unfolding with_capacities pop_received
pop_received-wakes_example = pop_received-wakes (bounded _) fresh 1 10 11 from_7 (omega arith) refl

abbrev routed : SessionHub (bounded (OutboundPacket ℕ))
unfolding with_capacities register_outbound_session
routed = (register_outbound_session (bounded _) id5 fresh).1

poll_push_outbound-in_flight_example :
    (id : Bytes) × (frame_session_id to_7.bytes ≡ ok id)
    × (routed.state.closed ≡ false)
    × (get Bytes-discrete id routed.state.outbound ≢ none)
    × (in_flight (bounded _) id5 (poll_push_outbound (bounded _) 20 2 routed to_7).1
        ≡ ite
            (Bytes-discrete id id5)
            (in_flight (bounded _) id routed ++ to_7 ∷ [])
            (in_flight (bounded _) id5 routed))
unfolding with_capacities register_outbound_session poll_push_outbound push_on_route send_reserved
    frame_session_id decode_header read_segment_size Bytes-discrete ℕ_discrete
poll_push_outbound-in_flight_example =
    poll_push_outbound-in_flight (bounded _) 20 2 routed to_7 id5 refl

abbrev full : SessionHub (bounded (OutboundPacket ℕ))
unfolding with_capacities register_outbound_session poll_push_outbound push_on_route send_reserved
    frame_session_id decode_header read_segment_size Bytes-discrete ℕ_discrete
full = (poll_push_outbound (bounded _) 20 2 routed to_7).1

poll_push_outbound-wakes_example :
    let waiting = (poll_push_outbound (bounded _) 21 3 full to_7).1 in
    (id : Bytes) × (w : ℕ) × (frame_session_id to_7.bytes ≡ ok id)
    × ((w ≡ 3) ⊎ ((bounded (OutboundPacket ℕ)).will_wake w 3 ≡ true))
    × ((unregister_outbound_session (bounded _) id waiting).2 ≡ w ∷ [])
    × Mem w (close (bounded _) waiting).1
unfolding with_capacities register_outbound_session poll_push_outbound push_on_route send_reserved
    frame_session_id decode_header read_segment_size Bytes-discrete ℕ_discrete
poll_push_outbound-wakes_example = poll_push_outbound-wakes (bounded _) 21 3 full to_7 refl

-- `receive_queue_enforces_capacity` of hub.rs, with a queue of two places.
refuses_third :
    (run (bounded (OutboundPacket ℕ)) (start (bounded _) 2 1) calls).accepted ≡ from_7 ∷ from_7 ∷ []
unfolding run push_received pop_received with_capacities
refuses_third = refl
