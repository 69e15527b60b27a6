-- ===== src/Endpoint.antt =====
-- crates/iroh-webrtc-transport/src/core/endpoint.rs: `WebRtcEndpoint::poll_recv`, which copies queued
-- packets into the caller's buffers. A buffer is its length; what is written to the buffers, the
-- metadata and the source addresses is the list of deliveries, one for each buffer used.
pub mod Conservation
pub mod Stream
pub mod Fuel
pub mod Traffic
pub mod Buffers
mod Tests
use iroh_webrtc_messenger.Common.{
  ℕ, zero, suc, Bool, true, false, ◌&&◌, ◌==◌, List, [], ◌∷◌, ◌++◌, Option, none, some, Result, ok,
  err, Poll, ready, pending, Bytes, length, take, drop, ◌+◌, ◌-◌, min, ltb, leb, if◌then◌else◌,
}
use iroh_webrtc_messenger.Errors.{IoError, plain, invalid_data, Io}
use iroh_webrtc_messenger.Mpsc.{Mpsc}
use iroh_webrtc_messenger.Stats.{EndpointStats, WebRtcTransportStats}
use iroh_webrtc_messenger.Stats.Record.{
  record_endpoint_poll_recv_call, record_endpoint_poll_recv_pending,
  record_endpoint_poll_recv_ready, record_endpoint_poll_recv_partial_pending,
  record_endpoint_poll_recv_pending_frame_continuation, record_endpoint_delivery,
}
use iroh_webrtc_messenger.Hub.{QueuedPacket, OutboundPacket, SessionHub, pop_received}
use iroh_webrtc_messenger.Sender.{div_ceil}

pub record PendingPacket (CustomAddr : Type 0) : Type 0 where
  pub packet : QueuedPacket CustomAddr
  pub offset : ℕ

-- One used buffer: `RecvMeta` and the source address with the bytes copied into the buffer.
pub record Delivery (CustomAddr : Type 0) : Type 0 where
  pub len : ℕ
  pub stride : ℕ
  pub source : CustomAddr
  pub contents : Bytes

abbrev pub is_some {ℓ} : {A : Type ℓ} → Option A → Bool
is_some none = false
is_some (some x) = true

-- `segment_size.unwrap_or(payload_len)`
abbrev pub stride_of : Option ℕ → ℕ → ℕ
stride_of none payload_len = payload_len
stride_of (some size) payload_len = size

module _ {CustomAddr Waker : Type 0} (mpsc : Mpsc Waker (OutboundPacket CustomAddr)) where
  -- The fields that `poll_recv` uses; the addresses, the sender and the limit on segments are fixed.
  pub record WebRtcEndpoint : Type 0 where
    pub hub : SessionHub mpsc
    pub pending : Option (PendingPacket CustomAddr)

  abbrev pub on_endpoint_stats : (EndpointStats → EndpointStats) → WebRtcEndpoint → WebRtcEndpoint
  on_endpoint_stats f e = record e {
    hub = record e.hub { stats = record e.hub.stats { endpoint = f e.hub.stats.endpoint } };
  }

  -- The next packet of the loop: the pending one, which is taken, or a popped one.
  unfoldable pub next_packet :
      Waker → WebRtcEndpoint → Poll (Io (PendingPacket CustomAddr)) × WebRtcEndpoint
  next_packet cx e = elim e.pending [
    | some p ↦ (
      ready (ok p),
      on_endpoint_stats record_endpoint_poll_recv_pending_frame_continuation
          (record e { pending = none }),
    )
    | none ↦
        let (popped, hub) = pop_received mpsc cx e.hub in
        let e' = record e { hub = hub } in
        elim popped [
          | pending ↦ (pending, e')
          | ready r ↦ elim r [
            | err x ↦ (ready (err x), e')
            | ok packet ↦ (ready (ok (record { packet = packet; offset = 0 })), e')
          ]
        ]
  ]

  -- What one iteration does with a packet: drop it, deliver a part or all of it, or put it back
  -- because the buffer is too small.
  pub data Outcome : Type 0 where
    skipped : Outcome
    delivered : Delivery CustomAddr → ℕ → Option (PendingPacket CustomAddr) → Outcome
    too_small : Outcome

  -- A delivery, with the number of datagrams that is counted for it and the packet kept pending.
  unfoldable pub deliver_segment : ℕ → PendingPacket CustomAddr → Outcome
  deliver_segment capacity p =
      let payload = p.packet.frame.payload in
      let stride = stride_of p.packet.frame.segment_size (length payload) in
      let segment_len = min stride (length payload - p.offset) in
      let end = p.offset + segment_len in
      if ltb capacity segment_len
      then too_small
      else delivered
          (record {
            len = segment_len;
            stride = segment_len;
            source = p.packet.source;
            contents = take segment_len (drop p.offset payload);
          })
          1 (if ltb end (length payload) then some (record p { offset = end }) else none)

  unfoldable pub deliver : ℕ → PendingPacket CustomAddr → Outcome
  deliver capacity p =
      let payload = p.packet.frame.payload in
      let stride = stride_of p.packet.frame.segment_size (length payload) in
      if length payload == 0
      then skipped
      else if leb (length payload) p.offset
      then skipped
      else if (p.offset == 0 && is_some p.packet.frame.segment_size)
          && leb (length payload) capacity
      then delivered
          (record {
            len = length payload;
            stride = stride;
            source = p.packet.source;
            contents = payload;
          })
          (div_ceil (length payload) stride) none
      else deliver_segment capacity p

  -- The answer of a poll, the deliveries and the endpoint.
  abbrev pub Polled : Type 0
  Polled = Poll (Io ℕ) × List (Delivery CustomAddr) × WebRtcEndpoint

  -- The answer where no packet is to be had: the deliveries so far, if there are any.
  unfoldable pub stop_pending : List (Delivery CustomAddr) → WebRtcEndpoint → Polled
  stop_pending [] e = (pending, [], on_endpoint_stats record_endpoint_poll_recv_pending e)
  stop_pending (d ∷ ds) e = (
    ready (ok (length (d ∷ ds))),
    d ∷ ds,
    on_endpoint_stats (record_endpoint_poll_recv_ready (length (d ∷ ds)) false)
        (on_endpoint_stats record_endpoint_poll_recv_partial_pending e),
  )

  -- The answer where an error stops the loop, which is reported where nothing was delivered.
  unfoldable pub stop_error : IoError → List (Delivery CustomAddr) → WebRtcEndpoint → Polled
  stop_error x [] e = (ready (err x), [], e)
  stop_error x (d ∷ ds) e = (
    ready (ok (length (d ∷ ds))),
    d ∷ ds,
    on_endpoint_stats (record_endpoint_poll_recv_ready (length (d ∷ ds)) false) e,
  )

  -- The loop of `poll_recv` on fuel, with the unused buffers and the deliveries so far.
  unfoldable pub recv_loop :
      ℕ → Waker → List ℕ → List (Delivery CustomAddr) → WebRtcEndpoint → Option Polled
  recv_loop zero cx bufs out e = none
  recv_loop (suc fuel) cx [] out e = some (
    ready (ok (length out)),
    out,
    on_endpoint_stats (record_endpoint_poll_recv_ready (length out) true) e,
  )
  recv_loop (suc fuel) cx (capacity ∷ bufs) out e =
      let (next, taken) = next_packet cx e in
      elim next [
        | pending ↦ some (stop_pending out taken)
        | ready r ↦ elim r [
          | err x ↦ some (stop_error x out taken)
          | ok p ↦ elim (deliver capacity p) [
            | skipped ↦ recv_loop fuel cx (capacity ∷ bufs) out taken
            | delivered d datagrams kept ↦ recv_loop fuel cx bufs (out ++ d ∷ []) (
                on_endpoint_stats (record_endpoint_delivery d.len datagrams d.stride)
                  (record taken { pending = kept }))
            | too_small ↦ some (
                stop_error (plain invalid_data "receive buffer too small for WebRTC frame payload")
                  out (record taken { pending = some p }))
          ]
        ]
      ]

  -- An iteration uses a buffer or a queued packet, so these and one more are enough.
  abbrev pub enough_fuel : List ℕ → WebRtcEndpoint → ℕ
  enough_fuel bufs e = length bufs + length e.hub.state.recv + 2

  -- `poll_recv`, with two readings of the clock.
  unfoldable pub poll_recv : ℕ → ℕ → Waker → List ℕ → WebRtcEndpoint → Option Polled
  poll_recv now later cx [] e = some (ready (ok 0), [], e)
  poll_recv now later cx (capacity ∷ bufs) e =
      let called = record e {
        hub = record e.hub { stats = record_endpoint_poll_recv_call now later e.hub.stats };
      } in
      recv_loop (enough_fuel (capacity ∷ bufs) called) cx (capacity ∷ bufs) [] called
