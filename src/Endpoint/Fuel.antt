-- ===== src/Endpoint/Fuel.antt =====
-- `poll_recv` always returns: the fuel of its loop is enough.
use iroh_webrtc_messenger.Common.{
  ℕ, zero, suc, ◌≡◌, refl, ◌<◌, ◌+◌, List, [], ◌∷◌, ◌++◌, Option, none, some, ok, ready, Poll-cases,
  Result-cases, inl, inr, arith, length,
}
use iroh_webrtc_messenger.Errors.{plain, invalid_data}
use iroh_webrtc_messenger.Mpsc.{Mpsc}
use iroh_webrtc_messenger.Hub.{OutboundPacket, pop_received}
use iroh_webrtc_messenger.Stats.Record.{record_endpoint_delivery, record_endpoint_poll_recv_call}
use iroh_webrtc_messenger.Endpoint.{
  PendingPacket, Delivery, WebRtcEndpoint, next_packet, on_endpoint_stats, deliver, Polled,
  stop_pending, stop_error, recv_loop, poll_recv, enough_fuel,
}
use iroh_webrtc_messenger.Endpoint.Conservation.{unread, delivered_bytes}
use iroh_webrtc_messenger.Endpoint.Stream.{Outcome-cases, recv_loop-stream}

module _ {CustomAddr Waker : Type 0} (mpsc : Mpsc Waker (OutboundPacket CustomAddr)) where
  unfoldable one_if_pending : Option (PendingPacket CustomAddr) → ℕ
  one_if_pending none = 0
  one_if_pending (some p) = 1

  -- The packets that the endpoint holds.
  abbrev weight : WebRtcEndpoint mpsc → ℕ
  weight e = length e.hub.state.recv + one_if_pending e.pending

  next_packet-weight :
      (cx : Waker) (e : WebRtcEndpoint mpsc) (p : PendingPacket CustomAddr)
      → (next_packet mpsc cx e).0 ≡ ready (ok p)
      → weight e ≡ length (next_packet mpsc cx e).1.hub.state.recv + 1
  unfolding next_packet pop_received one_if_pending
  next_packet-weight cx e p h = ground (arith, h)

  next_packet-idle :
      (cx : Waker) (e : WebRtcEndpoint mpsc) → (next_packet mpsc cx e).1.pending ≡ none
  unfolding next_packet
  next_packet-idle cx e = ground arith

  recv_loop_total :
      (fuel : ℕ) (cx : Waker) (bufs : List ℕ) (out : List (Delivery CustomAddr))
      (e : WebRtcEndpoint mpsc)
      → length bufs + weight e < fuel
      → (r : Polled mpsc) × (recv_loop mpsc fuel cx bufs out e ≡ some r)
  unfolding recv_loop one_if_pending
  recv_loop_total zero cx bufs out e h = absurd (ground (arith, h))
  recv_loop_total (suc fuel) cx [] out e h = (_, refl)
  recv_loop_total (suc fuel) cx (capacity ∷ bufs) out e h =
      let taken : WebRtcEndpoint mpsc = (next_packet mpsc cx e).1 in
      elim (Poll-cases (next_packet mpsc cx e).0) [
        | inl p ↦ (stop_pending mpsc out taken, ground (arith, p))
        | inr (res, p) ↦ elim (Result-cases res) [
          | inr (x, q) ↦ (stop_error mpsc x out taken, ground (arith, p, q))
          | inl (packet, q) ↦
              let used : weight e ≡ length taken.hub.state.recv + 1 =
                next_packet-weight cx e packet (ground (arith, p, q)) in
              elim (Outcome-cases mpsc (deliver mpsc capacity packet)) [
                | inl o ↦
                    let (r, run) =
                      recv_loop_total fuel cx (capacity ∷ bufs) out taken
                        (ground (arith, h, used, next_packet-idle cx e)) in
                    (r, ground (arith, p, q, o, run))
                | inr o' ↦ elim o' [
                  | inl (d, n, kept, o) ↦
                      let after : WebRtcEndpoint mpsc = record taken { pending = kept } in
                      let (r, run) =
                        recv_loop_total fuel cx bufs (out ++ d ∷ [])
                          (on_endpoint_stats mpsc (record_endpoint_delivery d.len n d.stride) after)
                          (ground (arith, h, used)) in
                      (r, ground (arith, p, q, o, run))
                  | inr o ↦ (
                    stop_error mpsc
                        (plain invalid_data "receive buffer too small for WebRTC frame payload") out
                        (record taken { pending = some packet }),
                    ground (arith, p, q, o),
                  )
                ]
              ]
        ]
      ]

  -- A poll with any buffers returns. The bytes that it delivers, each with the address of its packet,
  -- and then those that stay with the endpoint are exactly the bytes that the endpoint held, in their
  -- order.
  pub poll_recv-stream :
      (now later : ℕ) (cx : Waker) (bufs : List ℕ) (e : WebRtcEndpoint mpsc)
      → (r : Polled mpsc) × (poll_recv mpsc now later cx bufs e ≡ some r)
        × (delivered_bytes mpsc r.1 ++ unread mpsc r.2 ≡ unread mpsc e)
  unfolding poll_recv one_if_pending
  poll_recv-stream now later cx [] e = (_, refl, refl)
  poll_recv-stream now later cx (capacity ∷ bufs) e =
      let called : WebRtcEndpoint mpsc = record e {
        hub = record e.hub { stats = record_endpoint_poll_recv_call now later e.hub.stats };
      } in
      let fuel = enough_fuel mpsc (capacity ∷ bufs) called in
      let (r, run) = recv_loop_total fuel cx (capacity ∷ bufs) [] called (ground arith) in
      (r, run, recv_loop-stream mpsc fuel cx (capacity ∷ bufs) [] called r run)
