-- ===== src/Endpoint/Buffers.antt =====
-- A poll writes no further than its buffers reach, and reports how many it has used.
use iroh_webrtc_messenger.Common.{
  ℕ, zero, suc, ◌≡◌, refl, sym, ◌∙◌, subst, ◌≤◌, ◌-◌, min, List, [], ◌∷◌, ◌++◌, append-nil,
  append_assoc, some, ok, ready, Poll-cases, Result-cases, Bool-cases, inl, inr, arith, length,
  length-take, length-drop, drop, ltb,
}
use iroh_webrtc_messenger.Errors.{IoError, plain, invalid_data}
use iroh_webrtc_messenger.Mpsc.{Mpsc}
use iroh_webrtc_messenger.Hub.{OutboundPacket}
use iroh_webrtc_messenger.Stats.Record.{record_endpoint_delivery}
use iroh_webrtc_messenger.Endpoint.{
  PendingPacket, Delivery, WebRtcEndpoint, next_packet, Outcome, skipped, delivered, too_small,
  on_endpoint_stats, deliver, deliver_segment, Polled, stop_pending, stop_error, recv_loop,
  poll_recv, stride_of,
}
use iroh_webrtc_messenger.Endpoint.Stream.{Outcome-cases}

-- A delivery whose contents are as long as it says, within a buffer's capacity.
pub record FitsIn {CustomAddr : Type 0} (capacity : ℕ) (d : Delivery CustomAddr) : Type 0 where
  pub within : d.len ≤ capacity
  pub exact : length d.contents ≡ d.len

-- Each delivery fits in the buffer at its place.
pub data Fits {CustomAddr : Type 0} : List ℕ → List (Delivery CustomAddr) → Type 0 where
  unused : {bufs : List ℕ} → Fits bufs []
  used :
      {capacity : ℕ} {bufs : List ℕ} {d : Delivery CustomAddr} {ds : List (Delivery CustomAddr)}
      → FitsIn capacity d
      → Fits bufs ds
      → Fits (capacity ∷ bufs) (d ∷ ds)

module _ {CustomAddr Waker : Type 0} (mpsc : Mpsc Waker (OutboundPacket CustomAddr)) where
  -- A loop that has delivered `out` adds deliveries that fit in the buffers left, and counts them all.
  pub record Filled (bufs : List ℕ) (out : List (Delivery CustomAddr)) (r : Polled mpsc)
      : Type 0 where
    pub added : List (Delivery CustomAddr)
    pub all : r.1 ≡ out ++ added
    pub fits : Fits bufs added
    pub counted : (n : ℕ) → r.0 ≡ ready (ok n) → n ≡ length r.1

  unfoldable OutcomeFits : ℕ → Outcome mpsc → Type 0
  OutcomeFits capacity skipped = Unit {0}
  OutcomeFits capacity (delivered d n kept) = FitsIn capacity d
  OutcomeFits capacity too_small = Unit {0}

  deliver_segment-OutcomeFits :
      (capacity : ℕ) (p : PendingPacket CustomAddr)
      → OutcomeFits capacity (deliver_segment mpsc capacity p)
  unfolding deliver_segment OutcomeFits
  deliver_segment-OutcomeFits capacity p =
      let n =
        min (stride_of p.packet.frame.segment_size (length p.packet.frame.payload))
          (length p.packet.frame.payload - p.offset) in
      elim (Bool-cases (ltb capacity n)) [
        | inl small ↦ rw small tt
        | inr room ↦ rw room (record {
          within = ground (arith, room);
          exact = ground (
            arith,
            length-take n (drop p.offset p.packet.frame.payload),
            length-drop p.offset p.packet.frame.payload,
          );
        })
      ]

  deliver-OutcomeFits :
      (capacity : ℕ) (p : PendingPacket CustomAddr) → OutcomeFits capacity (deliver mpsc capacity p)
  unfolding deliver OutcomeFits
  deliver-OutcomeFits capacity p = ground (arith, deliver_segment-OutcomeFits capacity p)

  stop_pending-Filled :
      (bufs : List ℕ) (out : List (Delivery CustomAddr)) (e : WebRtcEndpoint mpsc)
      → Filled bufs out (stop_pending mpsc out e)
  unfolding stop_pending
  stop_pending-Filled bufs [] e = record {
    added = [];
    all = refl;
    fits = unused;
    counted = λ n h. ground (arith, h);
  }
  stop_pending-Filled bufs (d ∷ ds) e = record {
    added = [];
    all = sym (append-nil (d ∷ ds));
    fits = unused;
    counted = λ n h. ground (arith, h);
  }

  stop_error-Filled :
      (x : IoError) (bufs : List ℕ) (out : List (Delivery CustomAddr)) (e : WebRtcEndpoint mpsc)
      → Filled bufs out (stop_error mpsc x out e)
  unfolding stop_error
  stop_error-Filled x bufs [] e = record {
    added = [];
    all = refl;
    fits = unused;
    counted = λ n h. ground (arith, h);
  }
  stop_error-Filled x bufs (d ∷ ds) e = record {
    added = [];
    all = sym (append-nil (d ∷ ds));
    fits = unused;
    counted = λ n h. ground (arith, h);
  }

  -- A delivery before the rest.
  Filled-delivered :
      (capacity : ℕ) (bufs : List ℕ) (out : List (Delivery CustomAddr)) (d : Delivery CustomAddr)
      (r : Polled mpsc)
      → FitsIn capacity d
      → Filled bufs (out ++ d ∷ []) r
      → Filled (capacity ∷ bufs) out r
  Filled-delivered capacity bufs out d r fits f = record {
    added = d ∷ f.added;
    all = f.all ∙ append_assoc out (d ∷ []) f.added;
    fits = used fits f.fits;
    counted = f.counted;
  }

  recv_loop-Filled :
      (fuel : ℕ) (cx : Waker) (bufs : List ℕ) (out : List (Delivery CustomAddr))
      (e : WebRtcEndpoint mpsc) (r : Polled mpsc)
      → recv_loop mpsc fuel cx bufs out e ≡ some r
      → Filled bufs out r
  unfolding recv_loop OutcomeFits
  recv_loop-Filled zero cx bufs out e r h = absurd (ground (arith, h))
  recv_loop-Filled (suc fuel) cx [] out e r h = record {
    added = [];
    all = ground (arith, h, append-nil out);
    fits = unused;
    counted = λ n answer. ground (arith, h, answer);
  }
  recv_loop-Filled (suc fuel) cx (capacity ∷ bufs) out e r h =
      let taken : WebRtcEndpoint mpsc = (next_packet mpsc cx e).1 in
      elim (Poll-cases (next_packet mpsc cx e).0) [
        | inl p ↦
            subst (Filled (capacity ∷ bufs) out) (ground (arith, h, p))
              (stop_pending-Filled (capacity ∷ bufs) out taken)
        | inr (res, p) ↦ elim (Result-cases res) [
          | inr (x, q) ↦
              subst (Filled (capacity ∷ bufs) out) (ground (arith, h, p, q))
                (stop_error-Filled x (capacity ∷ bufs) out taken)
          | inl (packet, q) ↦ elim (Outcome-cases mpsc (deliver mpsc capacity packet)) [
            | inl o ↦
                recv_loop-Filled fuel cx (capacity ∷ bufs) out taken r (ground (arith, h, p, q, o))
            | inr o' ↦ elim o' [
              | inl (d, n, kept, o) ↦
                  let after : WebRtcEndpoint mpsc = record taken { pending = kept } in
                  let rest : recv_loop mpsc fuel cx bufs (out ++ d ∷ [])
                        (on_endpoint_stats mpsc (record_endpoint_delivery d.len n d.stride) after)
                      ≡ some r =
                    ground (arith, h, p, q, o) in
                  Filled-delivered capacity bufs out d r
                    (subst (OutcomeFits capacity) o (deliver-OutcomeFits capacity packet))
                    (recv_loop-Filled fuel cx bufs (out ++ d ∷ []) _ r rest)
              | inr o ↦ subst (Filled (capacity ∷ bufs) out) (ground (arith, h, p, q, o)) (
                  stop_error-Filled
                    (plain invalid_data "receive buffer too small for WebRTC frame payload")
                    (capacity ∷ bufs) out (record taken { pending = some packet }))
            ]
          ]
        ]
      ]

  -- Whatever a poll returns, its deliveries fit one by one in the buffers that it was given, from the
  -- first on, each with as many bytes as it says; an answer of n says that n buffers were used.
  pub poll_recv-Fits :
      (now later : ℕ) (cx : Waker) (bufs : List ℕ) (e : WebRtcEndpoint mpsc) (r : Polled mpsc)
      → poll_recv mpsc now later cx bufs e ≡ some r
      → Fits bufs r.1 × ((n : ℕ) → r.0 ≡ ready (ok n) → n ≡ length r.1)
  unfolding poll_recv
  poll_recv-Fits now later cx [] e r h =
      (subst (Fits []) (ground (arith, h)) unused, λ n answer. ground (arith, h, answer))
  poll_recv-Fits now later cx (capacity ∷ bufs) e r h =
      let f : Filled (capacity ∷ bufs) [] r = recv_loop-Filled _ cx (capacity ∷ bufs) [] _ r h in
      (subst (Fits (capacity ∷ bufs)) (sym f.all) f.fits, f.counted)
