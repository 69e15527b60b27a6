-- ===== src/Sender/Delivery.antt =====
-- What a send puts on its way.
use iroh_webrtc_messenger.Common.{
  ℕ, false, ◌≡◌, refl, subst, ◌⊎◌, [], ◌∷◌, ◌++◌, Option, some, ok, err, Poll, ready, Bytes, length,
  arith, Result-cases, inl, inr,
}
use iroh_webrtc_messenger.Errors.{IoError, Fallible, io_error, invalid_addr}
use iroh_webrtc_messenger.Frame.{encode, decode}
use iroh_webrtc_messenger.Frame.RoundTrip.{
  carried_segment_size, decode-encode, frame_session_id-encode, IsFrame,
}
use iroh_webrtc_messenger.Iroh.{Iroh}
use iroh_webrtc_messenger.Mpsc.{Mpsc}
use iroh_webrtc_messenger.Addr.{WebRtcAddrKind, session, capability, from_custom_addr}
use iroh_webrtc_messenger.Addr.RoundTrip.{IsKind, to_custom_addr-from_custom_addr}
use iroh_webrtc_messenger.Hub.{
  OutboundPacket, SessionHub, poll_push_outbound, session_id_from_destination,
}
use iroh_webrtc_messenger.Hub.Outbound.{in_flight, poll_push_outbound-in_flight}
use iroh_webrtc_messenger.Stats.Record.{record_sender_poll_send_call}
use iroh_webrtc_messenger.Sender.{
  WebRtcSender, is_valid_send_addr, frame_of, on_sender_stats, count_push, send_frame, poll_send,
  datagram_count,
}

WebRtcAddrKind-cases : (k : WebRtcAddrKind) → (k ≡ capability) ⊎ ((id : Bytes) × (k ≡ session id))
WebRtcAddrKind-cases capability = inl refl
WebRtcAddrKind-cases (session id) = inr (id, refl)

module _ (iroh : Iroh) {Waker : Type 0} (mpsc : Mpsc Waker (OutboundPacket iroh.CustomAddr)) where
  -- The packet that carries a frame to its destination.
  abbrev pub packet_to : iroh.CustomAddr → Bytes → OutboundPacket iroh.CustomAddr
  packet_to dst bytes = record { destination = dst; bytes = bytes }

  count_push-ok :
      (now n m k : ℕ) (pushed : Poll (Fallible (Unit {0})) × SessionHub mpsc)
      → (count_push iroh mpsc now n m k pushed).0 ≡ ready (ok tt)
      → (pushed.0 ≡ ready (ok tt))
        × ((count_push iroh mpsc now n m k pushed).1.state ≡ pushed.1.state)
  unfolding count_push
  count_push-ok now n m k pushed h = ground (arith, h)

  send_frame-sends :
      (t1 t2 : ℕ) (cx : Waker) (s : WebRtcSender iroh mpsc) (h : SessionHub mpsc)
      (dst : iroh.CustomAddr) (id contents : Bytes) (segment_size : Option ℕ)
      → length id ≡ 16
      → (send_frame iroh mpsc t1 t2 cx s h dst id contents segment_size).0 ≡ ready (ok tt)
      → (bytes : Bytes) × (decode bytes s.max_payload_len
          ≡ ok (frame_of id contents (carried_segment_size segment_size (length contents))))
        × (in_flight mpsc id (send_frame iroh mpsc t1 t2 cx s h dst id contents segment_size).1
            ≡ in_flight mpsc id h ++ packet_to dst bytes ∷ [])
  unfolding send_frame
  send_frame-sends t1 t2 cx s h dst id contents segment_size sixteen sent =
      elim (Result-cases (encode (frame_of id contents segment_size) s.max_payload_len)) [
        | inr (x, e) ↦ absurd (ground (arith, sent, e))
        | inl (bytes, e) ↦
            let frame : IsFrame (frame_of id contents segment_size) = record {
              flags = omega arith;
              session_id = sixteen;
            } in
            let pushed : Poll (Fallible (Unit {0})) × SessionHub mpsc =
              poll_push_outbound mpsc t1 cx h (packet_to dst bytes) in
            let (done, kept) =
              count_push-ok t2 (length contents) (length bytes)
                (datagram_count segment_size (length contents)) pushed (ground (arith, sent, e)) in
            let (j, parsed, o, found, flight) =
              poll_push_outbound-in_flight mpsc t1 cx h (packet_to dst bytes) id done in
            let route =
              frame_session_id-encode (frame_of id contents segment_size) s.max_payload_len bytes
                frame e in
            (
              bytes,
              decode-encode (frame_of id contents segment_size) s.max_payload_len bytes frame e,
              ground (arith, e, kept, parsed, route, flight),
            )
      ]

  -- A send that succeeds was to a session address. It has put exactly one packet behind what that
  -- session has in flight; the packet's bytes decode, under the sender's limit, to a frame of that
  -- session with the contents that were sent, whose segment size is kept if it is smaller than them.
  pub poll_send-sends :
      (t0 t1 t2 : ℕ) (cx : Waker) (s : WebRtcSender iroh mpsc) (h : SessionHub mpsc)
      (dst : iroh.CustomAddr) (contents : Bytes) (segment_size : Option ℕ)
      → (poll_send iroh mpsc t0 t1 t2 cx s h dst contents segment_size).0 ≡ ready (ok tt)
      → (id : Bytes) × (bytes : Bytes) × (session_id_from_destination iroh dst ≡ some id)
        × (decode bytes s.max_payload_len
            ≡ ok (frame_of id contents (carried_segment_size segment_size (length contents))))
        × (in_flight mpsc id (poll_send iroh mpsc t0 t1 t2 cx s h dst contents segment_size).1
            ≡ in_flight mpsc id h ++ packet_to dst bytes ∷ [])
  unfolding poll_send session_id_from_destination
  poll_send-sends t0 t1 t2 cx s h dst contents segment_size sent =
      let called : SessionHub mpsc =
        on_sender_stats iroh mpsc (record_sender_poll_send_call t0) h in
      elim (Result-cases (from_custom_addr iroh dst)) [
        | inr (x, read) ↦ absurd (ground (arith, sent, read))
        | inl (a, read) ↦ elim (WebRtcAddrKind-cases a.kind) [
          | inl k ↦ absurd (ground (arith, sent, read, k))
          | inr (id, k) ↦
              let sixteen : length id ≡ 16 =
                subst IsKind k (to_custom_addr-from_custom_addr iroh dst a read).1 in
              let (bytes, decodes, flight) =
                send_frame-sends t1 t2 cx s called dst id contents segment_size sixteen
                  (ground (arith, sent, read, k)) in
              (id, bytes, ground (arith, read, k), decodes, ground (arith, read, k, flight))
        ]
      ]

  -- An address that the sender does not call valid is refused with an error, and nothing changes in
  -- the hub but its counters.
  pub poll_send-is_valid_send_addr :
      (t0 t1 t2 : ℕ) (cx : Waker) (s : WebRtcSender iroh mpsc) (h : SessionHub mpsc)
      (dst : iroh.CustomAddr) (contents : Bytes) (segment_size : Option ℕ)
      → (is_valid_send_addr iroh mpsc s dst).0 ≡ false
      → (x : IoError) × ((poll_send iroh mpsc t0 t1 t2 cx s h dst contents segment_size).0
          ≡ ready (err x))
        × ((poll_send iroh mpsc t0 t1 t2 cx s h dst contents segment_size).1.state ≡ h.state)
  unfolding poll_send is_valid_send_addr
  poll_send-is_valid_send_addr t0 t1 t2 cx s h dst contents segment_size refused =
      elim (Result-cases (from_custom_addr iroh dst)) [
        | inr (x, read) ↦ (io_error x, ground (arith, read), ground (arith, read))
        | inl (a, read) ↦ elim (WebRtcAddrKind-cases a.kind) [
          | inr (id, k) ↦ absurd (ground (arith, refused, read, k))
          | inl k ↦ (
            io_error (invalid_addr "cannot send to capability address"),
            ground (arith, read, k),
            ground (arith, read, k),
          )
        ]
      ]
