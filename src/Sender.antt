-- ===== src/Sender.antt =====
-- crates/iroh-webrtc-transport/src/core/sender.rs: `WebRtcSender`. The hub that the sender shares is
-- passed and returned; of an iroh `Transmit` the code reads the contents and the segment size.
pub mod Delivery
mod Tests
use iroh_webrtc_messenger.Common.{
  ℕ, Bool, true, false, List, [], ◌∷◌, Option, none, some, Result, ok, err, Poll, ready, pending,
  Bytes, length, ◌+◌, ◌-◌, ◌/◌, ltb, if◌then◌else◌,
}
use iroh_webrtc_messenger.Errors.{Error, invalid_addr, Fallible, Io, io_error}
use iroh_webrtc_messenger.Frame.{WebRtcPacketFrame, encode}
use iroh_webrtc_messenger.Iroh.{Iroh}
use iroh_webrtc_messenger.Mpsc.{Mpsc}
use iroh_webrtc_messenger.Addr.{WebRtcAddr, WebRtcAddrKind, session, capability, from_custom_addr}
use iroh_webrtc_messenger.Stats.{fetch_add, SenderStats, WebRtcTransportStats}
use iroh_webrtc_messenger.Stats.Record.{
  record_sender_poll_send_call, record_sender_transmit, record_sender_encode_failure,
  record_sender_queue_failure,
}
use iroh_webrtc_messenger.Hub.{OutboundPacket, SessionHub, poll_push_outbound}

-- `usize::div_ceil`, which panics on a divisor of 0. No frame that `decode` yields has a segment size of
-- 0, which would be one.
abbrev pub div_ceil : ℕ → ℕ → ℕ
div_ceil n d = (n + d - 1) / d

-- `segment_size.filter(|size| size > 0).map(|size| len.div_ceil(size)).unwrap_or(1)`
unfoldable pub datagram_count : Option ℕ → ℕ → ℕ
datagram_count none len = 1
datagram_count (some size) len = if ltb 0 size then div_ceil len size else 1

abbrev pub is_session : Fallible WebRtcAddrKind → Bool
is_session (ok (session session_id)) = true
is_session (ok capability) = false
is_session (err e) = false

-- The frame that `poll_send` builds from a transmit.
abbrev pub frame_of : Bytes → Bytes → Option ℕ → WebRtcPacketFrame
frame_of session_id contents segment_size = record {
  flags = 0;
  session_id = session_id;
  segment_size = segment_size;
  payload = contents;
}

module _ (iroh : Iroh) {Waker : Type 0} (mpsc : Mpsc Waker (OutboundPacket iroh.CustomAddr)) where
  -- `WebRtcSender` beside its hub.
  pub record WebRtcSender : Type 0 where
    pub validation_checks : ℕ
    pub max_payload_len : ℕ

  -- `is_valid_send_addr`, with the count of checks, a `u64`.
  unfoldable pub is_valid_send_addr : WebRtcSender → iroh.CustomAddr → Bool × WebRtcSender
  is_valid_send_addr s addr =
      let counted = record s { validation_checks = fetch_add s.validation_checks 1 } in
      elim (from_custom_addr iroh addr) [
        | err e ↦ (false, counted)
        | ok a ↦ (is_session (ok a.kind), counted)
      ]

  abbrev pub on_sender_stats : (SenderStats → SenderStats) → SessionHub mpsc → SessionHub mpsc
  on_sender_stats f h = record h { stats = record h.stats { sender = f h.stats.sender } }

  -- The part of `poll_send` after the push of an encoded frame.
  unfoldable pub count_push :
      ℕ
      → ℕ
      → ℕ
      → ℕ
      → Poll (Fallible (Unit {0})) × SessionHub mpsc
      → Poll (Io (Unit {0})) × SessionHub mpsc
  count_push now contents_len frame_bytes datagrams (result, h) = elim result [
    | pending ↦ (pending, h)
    | ready r ↦ elim r [
      | ok u ↦ (
        ready (ok tt),
        on_sender_stats (record_sender_transmit now contents_len frame_bytes datagrams) h,
      )
      | err e ↦ (ready (err (io_error e)), on_sender_stats record_sender_queue_failure h)
    ]
  ]

  -- The part of `poll_send` that has read a session address. The clock is read by the push and by
  -- the count of the transmit.
  unfoldable pub send_frame :
      ℕ
      → ℕ
      → Waker
      → WebRtcSender
      → SessionHub mpsc
      → iroh.CustomAddr
      → Bytes
      → Bytes
      → Option ℕ
      → Poll (Io (Unit {0})) × SessionHub mpsc
  send_frame t1 t2 cx s h dst session_id contents segment_size =
      elim (encode (frame_of session_id contents segment_size) s.max_payload_len) [
        | err e ↦ (ready (err (io_error e)), on_sender_stats record_sender_encode_failure h)
        | ok bytes ↦
            count_push t2 (length contents) (length bytes)
              (datagram_count segment_size (length contents))
              (poll_push_outbound mpsc t1 cx h (record { destination = dst; bytes = bytes }))
      ]

  -- `poll_send`, with three readings of the clock.
  unfoldable pub poll_send :
      ℕ
      → ℕ
      → ℕ
      → Waker
      → WebRtcSender
      → SessionHub mpsc
      → iroh.CustomAddr
      → Bytes
      → Option ℕ
      → Poll (Io (Unit {0})) × SessionHub mpsc
  poll_send t0 t1 t2 cx s h dst contents segment_size =
      let called = on_sender_stats (record_sender_poll_send_call t0) h in
      elim (from_custom_addr iroh dst) [
        | err e ↦ (ready (err (io_error e)), called)
        | ok a ↦ elim a.kind [
          | capability ↦
              (ready (err (io_error (invalid_addr "cannot send to capability address"))), called)
          | session session_id ↦ send_frame t1 t2 cx s called dst session_id contents segment_size
        ]
      ]
