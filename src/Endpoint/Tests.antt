-- ===== src/Endpoint/Tests.antt =====
-- Polls of an endpoint that holds a segmented frame and a short one.
use iroh_webrtc_messenger.Common.{
  ℕ, ◌≡◌, refl, List, [], ◌∷◌, ◌++◌, Option, none, some, Bytes, replicate,
}
use iroh_webrtc_messenger.Samples.Channels.{bounded}
use iroh_webrtc_messenger.Hub.{
  QueuedPacket, OutboundPacket, SessionHub, with_capacities, pop_received,
}
use iroh_webrtc_messenger.Endpoint.{
  WebRtcEndpoint, Delivery, Polled, poll_recv, recv_loop, next_packet, deliver, deliver_segment,
}
use iroh_webrtc_messenger.Endpoint.Conservation.{unread, delivered_bytes, packets_bytes}
use iroh_webrtc_messenger.Endpoint.Buffers.{Fits, poll_recv-Fits}
use iroh_webrtc_messenger.Common.{length, ready, ok}
use iroh_webrtc_messenger.Endpoint.Traffic.{Event, arrives, polls, run, start, run-start-bytes}
use iroh_webrtc_messenger.Endpoint.Fuel.{poll_recv-stream}

abbrev packet_of : ℕ → Option ℕ → Bytes → QueuedPacket ℕ
packet_of source segment_size payload = record {
  source = source;
  frame = record {
    flags = 0;
    session_id = replicate 16 5;
    segment_size = segment_size;
    payload = payload;
  };
}

abbrev holding : WebRtcEndpoint (bounded (OutboundPacket ℕ))
unfolding with_capacities
holding =
    let h : SessionHub (bounded (OutboundPacket ℕ)) = with_capacities (bounded _) 8 8 in
    record {
      hub = record h {
        state = record h.state {
          recv = packet_of 7 (some 2) (1 ∷ 2 ∷ 3 ∷ 4 ∷ 5 ∷ []) ∷ packet_of 8 none (6 ∷ 7 ∷ []) ∷ [];
        };
      };
      pending = none;
    }

poll_recv-stream_example :
    (r : Polled (bounded (OutboundPacket ℕ))) × (poll_recv (bounded _) 3 4 1 (4 ∷ 4 ∷ []) holding
      ≡ some r)
    × (delivered_bytes (bounded (OutboundPacket ℕ)) r.1 ++ unread (bounded _) r.2
        ≡ unread (bounded _) holding)
poll_recv-stream_example = poll_recv-stream (bounded _) 3 4 1 (4 ∷ 4 ∷ []) holding

-- Two buffers of four bytes take two segments of the first frame; its last byte stays pending.
abbrev first_two : List (Delivery ℕ)
first_two =
    record { len = 2; stride = 2; source = 7; contents = 1 ∷ 2 ∷ [] }
    ∷ record { len = 2; stride = 2; source = 7; contents = 3 ∷ 4 ∷ [] }
    ∷ []

abbrev deliveries : Option (Polled (bounded (OutboundPacket ℕ))) → List (Delivery ℕ)
deliveries none = []
deliveries (some r) = r.1

splits_segments : deliveries (poll_recv (bounded _) 3 4 1 (4 ∷ 4 ∷ []) holding) ≡ first_two
unfolding with_capacities poll_recv recv_loop next_packet deliver deliver_segment pop_received
splits_segments = refl

abbrev after_poll : Polled (bounded (OutboundPacket ℕ))
after_poll = (poll_recv-stream (bounded (OutboundPacket ℕ)) 3 4 1 (4 ∷ 4 ∷ []) holding).0

poll_recv-Fits_example :
    Fits (4 ∷ 4 ∷ []) after_poll.1
    × ((n : ℕ) → after_poll.0 ≡ ready (ok n) → n ≡ length after_poll.1)
poll_recv-Fits_example =
    poll_recv-Fits (bounded _) 3 4 1 (4 ∷ 4 ∷ []) holding after_poll
      (poll_recv-stream (bounded _) 3 4 1 (4 ∷ 4 ∷ []) holding).1

-- A frame that is too long for the buffer at first, and one behind it.
abbrev traffic : List (Event ℕ ℕ)
traffic =
    arrives 3 3 (packet_of 7 none (1 ∷ 2 ∷ 3 ∷ []))
    ∷ polls 4 4 1 (2 ∷ [])
    ∷ arrives 5 5 (packet_of 8 none (6 ∷ 7 ∷ []))
    ∷ polls 6 6 1 (8 ∷ 8 ∷ 8 ∷ [])
    ∷ []

run-start-bytes_example :
    let t = run (bounded (OutboundPacket ℕ)) (start (bounded _) 8 8) traffic in
    delivered_bytes (bounded (OutboundPacket ℕ)) t.deliveries ++ unread (bounded _) t.endpoint
    ≡ packets_bytes (bounded (OutboundPacket ℕ)) t.accepted
run-start-bytes_example = run-start-bytes (bounded _) 8 8 traffic
