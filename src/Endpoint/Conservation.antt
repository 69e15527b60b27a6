-- ===== src/Endpoint/Conservation.antt =====
-- No byte is lost, repeated or reordered on the way from the hub's queue to the buffers.
use mathlib.Core.List.{map-append}
use iroh_webrtc_messenger.Common.{
  ℕ, zero, suc, ◌≡◌, refl, sym, ◌∙◌, ap, ◌≤◌, ◌+◌, ◌-◌, min, List, [], ◌∷◌, ◌++◌, map, append-nil,
  append_assoc, Option, none, some, ok, err, Poll, ready, pending, Bytes, length, take, drop,
  drop-drop, take-append-drop, arith, Bool-cases, inl, inr, ltb, if◌then◌else◌,
}
use iroh_webrtc_messenger.Errors.{Io}
use iroh_webrtc_messenger.Mpsc.{Mpsc}
use iroh_webrtc_messenger.Hub.{QueuedPacket, OutboundPacket, pop_received}
use iroh_webrtc_messenger.Endpoint.{
  PendingPacket, Delivery, WebRtcEndpoint, next_packet, Outcome, skipped, delivered, too_small,
  deliver_segment, deliver, stride_of,
}

drop_beyond {ℓ} : {A : Type ℓ} (n : ℕ) (xs : List A) → length xs ≤ n → drop n xs ≡ []
drop_beyond zero [] h = refl
drop_beyond (suc n) [] h = refl
drop_beyond zero (x ∷ xs) h = absurd (ground arith)
drop_beyond (suc n) (x ∷ xs) h = drop_beyond n xs (ground arith)

module _ {CustomAddr Waker : Type 0} (mpsc : Mpsc Waker (OutboundPacket CustomAddr)) where
  -- A byte with the address it came from.
  abbrev pub Sourced : Type 0
  Sourced = CustomAddr × ℕ

  abbrev pub sourced : CustomAddr → Bytes → List Sourced
  sourced source = map (λ b. (source, b))

  abbrev pub packets_bytes : List (QueuedPacket CustomAddr) → List Sourced
  packets_bytes [] = []
  packets_bytes (q ∷ qs) = sourced q.source q.frame.payload ++ packets_bytes qs

  -- What a pending packet still has to deliver.
  abbrev pub rest_of : PendingPacket CustomAddr → List Sourced
  rest_of p = sourced p.packet.source (drop p.offset p.packet.frame.payload)

  abbrev pub pending_bytes : Option (PendingPacket CustomAddr) → List Sourced
  pending_bytes none = []
  pending_bytes (some p) = rest_of p

  -- The bytes that the endpoint has received and not yet delivered, in order.
  abbrev pub unread : WebRtcEndpoint mpsc → List Sourced
  unread e = pending_bytes e.pending ++ packets_bytes e.hub.state.recv

  abbrev pub delivered_bytes : List (Delivery CustomAddr) → List Sourced
  delivered_bytes [] = []
  delivered_bytes (d ∷ ds) = sourced d.source d.contents ++ delivered_bytes ds

  pub delivered_bytes-append :
      (ds es : List (Delivery CustomAddr))
      → delivered_bytes (ds ++ es) ≡ delivered_bytes ds ++ delivered_bytes es
  delivered_bytes-append [] es = refl
  delivered_bytes-append (d ∷ ds) es =
      ap (λ xs. sourced d.source d.contents ++ xs) (delivered_bytes-append ds es)
      ∙ sym (append_assoc (sourced d.source d.contents) (delivered_bytes ds) (delivered_bytes es))

  -- The bytes of the answer of `next_packet`.
  abbrev pub next_bytes : Poll (Io (PendingPacket CustomAddr)) → List Sourced
  next_bytes pending = []
  next_bytes (ready r) = elim r [ ok p ↦ rest_of p | err x ↦ [] ]

  -- Taking the next packet moves its bytes out of the endpoint, and leaves nothing pending.
  pub next_packet-unread :
      (cx : Waker) (e : WebRtcEndpoint mpsc)
      → (next_bytes (next_packet mpsc cx e).0 ++ unread (next_packet mpsc cx e).1 ≡ unread e)
        × ((next_packet mpsc cx e).1.pending ≡ none)
  unfolding next_packet pop_received
  next_packet-unread cx e = ground arith

  -- The bytes of a packet that one iteration delivers, and those that it keeps.
  abbrev pub outcome_bytes : Outcome mpsc → PendingPacket CustomAddr → List Sourced
  outcome_bytes skipped p = []
  outcome_bytes (delivered d n kept) p = sourced d.source d.contents ++ pending_bytes kept
  outcome_bytes too_small p = rest_of p

  -- A slice and what follows it.
  sourced-slice :
      (source : CustomAddr) (offset n : ℕ) (payload : Bytes)
      → sourced source (take n (drop offset payload)) ++ sourced source (drop (offset + n) payload)
        ≡ sourced source (drop offset payload)
  sourced-slice source offset n payload =
      sym (map-append (λ b. (source, b)) (take n (drop offset payload)) _)
      ∙ ap (λ xs. sourced source (take n (drop offset payload) ++ xs))
          (sym (drop-drop offset n payload))
      ∙ ap (sourced source) (take-append-drop n (drop offset payload))

  -- The packet that is kept has the rest of the payload.
  pending_bytes-kept :
      (p : PendingPacket CustomAddr) (end : ℕ)
      → pending_bytes (
          if ltb end (length p.packet.frame.payload)
          then some (record p { offset = end })
          else none)
        ≡ sourced p.packet.source (drop end p.packet.frame.payload)
  pending_bytes-kept p end = elim (Bool-cases (ltb end (length p.packet.frame.payload))) [
    | inl more ↦ rw more
    | inr whole ↦ rw (whole, drop_beyond end p.packet.frame.payload (ground (arith, whole)))
  ]

  deliver_segment-bytes :
      (capacity : ℕ) (p : PendingPacket CustomAddr)
      → outcome_bytes (deliver_segment mpsc capacity p) p ≡ rest_of p
  unfolding deliver_segment
  deliver_segment-bytes capacity p =
      let n =
        min (stride_of p.packet.frame.segment_size (length p.packet.frame.payload))
          (length p.packet.frame.payload - p.offset) in
      elim (Bool-cases (ltb capacity n)) [
        | inl small ↦ rw small
        | inr fits ↦ rw fits (
            ap (λ xs. sourced p.packet.source (take n (drop p.offset p.packet.frame.payload)) ++ xs)
              (pending_bytes-kept p (p.offset + n))
            ∙ sourced-slice p.packet.source p.offset n p.packet.frame.payload)
      ]

  rest_of-start :
      (p : PendingPacket CustomAddr)
      → p.offset ≡ 0
      → rest_of p ≡ sourced p.packet.source p.packet.frame.payload
  rest_of-start p e = rw e

  rest_of-end :
      (p : PendingPacket CustomAddr) → length p.packet.frame.payload ≤ p.offset → rest_of p ≡ []
  rest_of-end p e = rw (drop_beyond p.offset p.packet.frame.payload e)

  pub deliver-bytes :
      (capacity : ℕ) (p : PendingPacket CustomAddr)
      → outcome_bytes (deliver mpsc capacity p) p ≡ rest_of p
  unfolding deliver
  deliver-bytes capacity p = ground (
    arith,
    deliver_segment-bytes capacity p,
    rest_of-start p,
    rest_of-end p,
    append-nil (sourced p.packet.source p.packet.frame.payload),
  )
