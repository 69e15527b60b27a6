-- ===== src/Stats/Reported.antt =====
-- What the difference of two snapshots of core/hub.rs reports of the transmits between them.
use iroh_webrtc_messenger.Common.{ℕ, ◌+◌, ◌^◌, ◌<◌, ◌≡◌, List, [], ◌∷◌, arith, length}
use iroh_webrtc_messenger.Stats.{SenderStats, WebRtcTransportStats}
use iroh_webrtc_messenger.Stats.Record.{record_sender_transmit, count_batch, count_transmit}
use iroh_webrtc_messenger.Stats.Snapshot.{snapshot, delta_since}

-- The arguments of a call of `record_sender_transmit`.
pub record Transmit : Type 0 where
  pub now : ℕ
  pub payload : ℕ
  pub frame : ℕ
  pub datagrams : ℕ

unfoldable pub transmit_all : List Transmit → SenderStats → SenderStats
unfolding record_sender_transmit
transmit_all [] s = s
transmit_all (t ∷ ts) s =
    transmit_all ts (record_sender_transmit t.now t.payload t.frame t.datagrams s)

abbrev pub total : (Transmit → ℕ) → List Transmit → ℕ
total f [] = 0
total f (t ∷ ts) = f t + total f ts

-- No counter of the transmits passes 2 ^ 64.
pub record HasRoom (ts : List Transmit) (s : SenderStats) : Type 0 where
  pub transmits : s.transmits + length ts < 2 ^ 64
  pub payload : s.payload_bytes + total (λ t. t.payload) ts < 2 ^ 64
  pub frame : s.frame_bytes + total (λ t. t.frame) ts < 2 ^ 64
  pub datagrams : s.transmit_datagrams + total (λ t. t.datagrams) ts < 2 ^ 64

pub record IsCounted (ts : List Transmit) (s s' : SenderStats) : Type 0 where
  pub transmits : s'.transmits ≡ s.transmits + length ts
  pub payload : s'.payload_bytes ≡ s.payload_bytes + total (λ t. t.payload) ts
  pub frame : s'.frame_bytes ≡ s.frame_bytes + total (λ t. t.frame) ts
  pub datagrams : s'.transmit_datagrams ≡ s.transmit_datagrams + total (λ t. t.datagrams) ts
  pub queue_failures : s'.queue_failures ≡ s.queue_failures
  pub encode_failures : s'.encode_failures ≡ s.encode_failures

one-IsCounted :
    (t : Transmit) (ts : List Transmit) (s : SenderStats)
    → HasRoom (t ∷ ts) s
    → IsCounted (t ∷ []) s (record_sender_transmit t.now t.payload t.frame t.datagrams s)
unfolding record_sender_transmit count_batch count_transmit
one-IsCounted t ts s room = ground (arith, room)

transmit_all-IsCounted :
    (ts : List Transmit) (s : SenderStats) → HasRoom ts s → IsCounted ts s (transmit_all ts s)
unfolding transmit_all
transmit_all-IsCounted [] s room = ground arith
transmit_all-IsCounted (t ∷ ts) s room =
    let one = one-IsCounted t ts s room in
    let s' = record_sender_transmit t.now t.payload t.frame t.datagrams s in
    let rest = transmit_all-IsCounted ts s' (record {
      transmits = omega (arith, one.transmits, room.transmits);
      payload = omega (arith, one.payload, room.payload);
      frame = omega (arith, one.frame, room.frame);
      datagrams = omega (arith, one.datagrams, room.datagrams);
    }) in
    ground (arith, one, rest)

-- Where no counter passes 2 ^ 64, the difference of the snapshots before and after any transmits reports
-- how many there were and the sums of their payload bytes, frame bytes and datagrams, and no failures.
pub delta_since-transmit_all :
    (ts : List Transmit) (s : WebRtcTransportStats)
    → HasRoom ts s.sender
    → let reported =
        (delta_since
          (snapshot (record s { sender = transmit_all ts s.sender }))
          (snapshot s)).sender in
      (reported.transmits ≡ length ts)
      × (reported.payload_bytes ≡ total (λ t. t.payload) ts)
      × (reported.frame_bytes ≡ total (λ t. t.frame) ts)
      × (reported.transmit_datagrams ≡ total (λ t. t.datagrams) ts)
      × (reported.queue_failures ≡ 0)
      × (reported.encode_failures ≡ 0)
unfolding delta_since snapshot
delta_since-transmit_all ts s room =
    let counted = transmit_all-IsCounted ts s.sender room in
    (
      omega (arith, counted.transmits),
      omega (arith, counted.payload),
      omega (arith, counted.frame),
      omega (arith, counted.datagrams),
      omega (arith, counted.queue_failures),
      omega (arith, counted.encode_failures),
    )
