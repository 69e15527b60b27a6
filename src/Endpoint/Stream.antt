-- ===== src/Endpoint/Stream.antt =====
-- The loop of `poll_recv` delivers the stream of received bytes, in order and without a gap.
use iroh_webrtc_messenger.Common.{
  ℕ, zero, suc, ◌≡◌, refl, sym, ◌∙◌, List, [], ◌∷◌, ◌++◌, append-nil, append_assoc, Option, none,
  some, Poll-cases, Result-cases, inl, inr, ◌⊎◌, arith,
}
use iroh_webrtc_messenger.Errors.{IoError, plain, invalid_data}
use iroh_webrtc_messenger.Mpsc.{Mpsc}
use iroh_webrtc_messenger.Hub.{OutboundPacket}
use iroh_webrtc_messenger.Stats.Record.{record_endpoint_delivery}
use iroh_webrtc_messenger.Endpoint.{
  PendingPacket, Delivery, WebRtcEndpoint, next_packet, Outcome, skipped, delivered, too_small,
  on_endpoint_stats, deliver, Polled, stop_pending, stop_error, recv_loop,
}
use iroh_webrtc_messenger.Endpoint.Conservation.{
  Sourced, sourced, rest_of, pending_bytes, unread, delivered_bytes, delivered_bytes-append,
  next_packet-unread, deliver-bytes,
}

module _ {CustomAddr Waker : Type 0} (mpsc : Mpsc Waker (OutboundPacket CustomAddr)) where
  -- All the bytes of a poll: those delivered and those still to be delivered.
  abbrev pub stream : List (Delivery CustomAddr) → WebRtcEndpoint mpsc → List (Sourced mpsc)
  stream out e = delivered_bytes mpsc out ++ unread mpsc e

  pub Outcome-cases :
      (o : Outcome mpsc)
      → (o ≡ skipped)
        ⊎ ((d : Delivery CustomAddr) × (n : ℕ) × (kept : Option (PendingPacket CustomAddr)) × (o
              ≡ delivered d n kept))
        ⊎ (o ≡ too_small)
  Outcome-cases skipped = inl refl
  Outcome-cases (delivered d n kept) = inr (inl (d, n, kept, refl))
  Outcome-cases too_small = inr (inr refl)

  stop_pending-stream :
      (out : List (Delivery CustomAddr)) (e : WebRtcEndpoint mpsc)
      → stream (stop_pending mpsc out e).1 (stop_pending mpsc out e).2 ≡ stream out e
  unfolding stop_pending
  stop_pending-stream [] e = refl
  stop_pending-stream (d ∷ ds) e = refl

  stop_error-stream :
      (x : IoError) (out : List (Delivery CustomAddr)) (e : WebRtcEndpoint mpsc)
      → stream (stop_error mpsc x out e).1 (stop_error mpsc x out e).2 ≡ stream out e
  unfolding stop_error
  stop_error-stream x [] e = refl
  stop_error-stream x (d ∷ ds) e = refl

  -- An endpoint that has nothing pending, with a packet put there.
  unread-pending :
      (taken : WebRtcEndpoint mpsc) (kept : Option (PendingPacket CustomAddr))
      → taken.pending ≡ none
      → unread mpsc (record taken { pending = kept }) ≡ pending_bytes mpsc kept ++ unread mpsc taken
  unread-pending taken kept e = ground arith

  -- A delivery moves bytes from the endpoint to the deliveries.
  delivered-stream :
      (out : List (Delivery CustomAddr)) (d : Delivery CustomAddr) (taken : WebRtcEndpoint mpsc)
      (kept : Option (PendingPacket CustomAddr)) (p : PendingPacket CustomAddr)
      → taken.pending ≡ none
      → sourced mpsc d.source d.contents ++ pending_bytes mpsc kept ≡ rest_of mpsc p
      → stream (out ++ d ∷ []) (record taken { pending = kept })
        ≡ delivered_bytes mpsc out ++ (rest_of mpsc p ++ unread mpsc taken)
  delivered-stream out d taken kept p idle moved = ground (
    arith,
    delivered_bytes-append mpsc out (d ∷ []),
    unread-pending taken kept idle,
    append-nil (sourced mpsc d.source d.contents),
    append_assoc (delivered_bytes mpsc out) (sourced mpsc d.source d.contents)
        (pending_bytes mpsc kept ++ unread mpsc taken),
    append_assoc (sourced mpsc d.source d.contents) (pending_bytes mpsc kept) (unread mpsc taken),
  )

  pub recv_loop-stream :
      (fuel : ℕ) (cx : Waker) (bufs : List ℕ) (out : List (Delivery CustomAddr))
      (e : WebRtcEndpoint mpsc) (r : Polled mpsc)
      → recv_loop mpsc fuel cx bufs out e ≡ some r
      → stream r.1 r.2 ≡ stream out e
  unfolding recv_loop
  recv_loop-stream zero cx bufs out e r h = absurd (ground (arith, h))
  recv_loop-stream (suc fuel) cx [] out e r h = ground (arith, h)
  recv_loop-stream (suc fuel) cx (capacity ∷ bufs) out e r h =
      let taken : WebRtcEndpoint mpsc = (next_packet mpsc cx e).1 in
      let (bytes, idle) = next_packet-unread mpsc cx e in
      elim (Poll-cases (next_packet mpsc cx e).0) [
        | inl p ↦ ground (arith, h, p, bytes, stop_pending-stream out taken)
        | inr (res, p) ↦ elim (Result-cases res) [
          | inr (x, q) ↦ ground (arith, h, p, q, bytes, stop_error-stream x out taken)
          | inl (packet, q) ↦
              let moved : stream out e
                  ≡ delivered_bytes mpsc out ++ (rest_of mpsc packet ++ unread mpsc taken) =
                ground (arith, p, q, bytes) in
              elim (Outcome-cases (deliver mpsc capacity packet)) [
                | inl o ↦
                    let next : recv_loop mpsc fuel cx (capacity ∷ bufs) out taken ≡ some r =
                      ground (arith, h, p, q, o) in
                    ground (
                      arith,
                      o,
                      moved,
                      recv_loop-stream fuel cx (capacity ∷ bufs) out taken r next,
                      deliver-bytes mpsc capacity packet,
                    )
                | inr o' ↦ elim o' [
                  | inl (d, n, kept, o) ↦
                      let after : WebRtcEndpoint mpsc = record taken { pending = kept } in
                      let counted : WebRtcEndpoint mpsc =
                        on_endpoint_stats mpsc (record_endpoint_delivery d.len n d.stride) after in
                      let next : recv_loop mpsc fuel cx bufs (out ++ d ∷ []) counted ≡ some r =
                        ground (arith, h, p, q, o) in
                      let part : sourced mpsc d.source d.contents ++ pending_bytes mpsc kept
                          ≡ rest_of mpsc packet =
                        ground (arith, o, deliver-bytes mpsc capacity packet) in
                      recv_loop-stream fuel cx bufs (out ++ d ∷ []) counted r next
                      ∙ delivered-stream out d taken kept packet idle part
                      ∙ sym moved
                  | inr o ↦
                      let back : WebRtcEndpoint mpsc = record taken { pending = some packet } in
                      ground (
                        arith,
                        h,
                        p,
                        q,
                        o,
                        moved,
                        stop_error-stream
                            (plain invalid_data "receive buffer too small for WebRTC frame payload")
                            out back,
                        unread-pending taken (some packet) idle,
                      )
                ]
              ]
        ]
      ]
