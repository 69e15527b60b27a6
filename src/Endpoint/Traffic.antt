-- ===== src/Endpoint/Traffic.antt =====
-- From the hub's queue to the buffers: received packets and polls in any order.
use iroh_webrtc_messenger.Common.{
  ℕ, ◌≡◌, refl, sym, ◌∙◌, ap, List, [], ◌∷◌, ◌++◌, append-nil, append_assoc, Option, none, some,
  arith,
}
use iroh_webrtc_messenger.Mpsc.{Mpsc}
use iroh_webrtc_messenger.Hub.{QueuedPacket, OutboundPacket, with_capacities, push_received, close}
use iroh_webrtc_messenger.Hub.Calls.{taken_in}
use iroh_webrtc_messenger.Endpoint.{Delivery, WebRtcEndpoint, Polled, poll_recv}
use iroh_webrtc_messenger.Endpoint.Conservation.{
  sourced, packets_bytes, pending_bytes, unread, delivered_bytes, delivered_bytes-append,
}
use iroh_webrtc_messenger.Endpoint.Fuel.{poll_recv-stream}

-- A packet that arrives, a poll with the lengths of its buffers, or the close of the hub.
pub data Event (CustomAddr Waker : Type 0) : Type 0 where
  arrives : ℕ → ℕ → QueuedPacket CustomAddr → Event CustomAddr Waker
  polls : ℕ → ℕ → Waker → List ℕ → Event CustomAddr Waker
  closes : Event CustomAddr Waker

module _ {CustomAddr Waker : Type 0} (mpsc : Mpsc Waker (OutboundPacket CustomAddr)) where
  -- An endpoint with the packets that its hub accepted and all deliveries of its polls.
  pub record Traffic : Type 0 where
    pub endpoint : WebRtcEndpoint mpsc
    pub accepted : List (QueuedPacket CustomAddr)
    pub deliveries : List (Delivery CustomAddr)

  abbrev pub after_poll : Traffic → Option (Polled mpsc) → Traffic
  after_poll t none = t
  after_poll t (some r) = record t { endpoint = r.2; deliveries = t.deliveries ++ r.1 }

  unfoldable pub after_event : Traffic → Event CustomAddr Waker → Traffic
  after_event t (arrives now later packet) =
      let (result, hub, wakers) = push_received mpsc now later t.endpoint.hub packet in
      record t {
        endpoint = record t.endpoint { hub = hub };
        accepted = t.accepted ++ taken_in mpsc result packet;
      }
  after_event t (polls now later cx bufs) =
      after_poll t (poll_recv mpsc now later cx bufs t.endpoint)
  after_event t closes = record t {
    endpoint = record t.endpoint { hub = (close mpsc t.endpoint.hub).0 };
  }

  unfoldable pub run : Traffic → List (Event CustomAddr Waker) → Traffic
  run t [] = t
  run t (x ∷ xs) = run (after_event t x) xs

  -- Every byte is accounted for.
  abbrev Settled : Traffic → Type 0
  Settled t =
      delivered_bytes mpsc t.deliveries ++ unread mpsc t.endpoint ≡ packets_bytes mpsc t.accepted

  packets_bytes-append :
      (ps qs : List (QueuedPacket CustomAddr))
      → packets_bytes mpsc (ps ++ qs) ≡ packets_bytes mpsc ps ++ packets_bytes mpsc qs
  packets_bytes-append [] qs = refl
  packets_bytes-append (p ∷ ps) qs =
      ap (λ xs. sourced mpsc p.source p.frame.payload ++ xs) (packets_bytes-append ps qs)
      ∙ sym (append_assoc (sourced mpsc p.source p.frame.payload) _ _)

  after_event-Settled :
      (t : Traffic) (x : Event CustomAddr Waker) → Settled t → Settled (after_event t x)
  unfolding after_event push_received close
  after_event-Settled t (arrives now later packet) v = ground (
    arith,
    v,
    append-nil t.accepted,
    packets_bytes-append t.endpoint.hub.state.recv (packet ∷ []),
    packets_bytes-append t.accepted (packet ∷ []),
    append_assoc (delivered_bytes mpsc t.deliveries)
        (pending_bytes mpsc t.endpoint.pending ++ packets_bytes mpsc t.endpoint.hub.state.recv)
        (packets_bytes mpsc (packet ∷ [])),
    append_assoc (pending_bytes mpsc t.endpoint.pending)
        (packets_bytes mpsc t.endpoint.hub.state.recv) (packets_bytes mpsc (packet ∷ [])),
  )
  after_event-Settled t (polls now later cx bufs) v =
      let (r, polled, kept) = poll_recv-stream mpsc now later cx bufs t.endpoint in
      ground (
        arith,
        v,
        polled,
        kept,
        delivered_bytes-append mpsc t.deliveries r.1,
        append_assoc (delivered_bytes mpsc t.deliveries) (delivered_bytes mpsc r.1)
            (unread mpsc r.2),
      )
  after_event-Settled t closes v = ground (arith, v)

  run-Settled : (t : Traffic) (xs : List (Event CustomAddr Waker)) → Settled t → Settled (run t xs)
  unfolding run
  run-Settled t [] v = v
  run-Settled t (x ∷ xs) v = run-Settled (after_event t x) xs (after_event-Settled t x v)

  abbrev pub start : ℕ → ℕ → Traffic
  start recv_capacity outbound_capacity = record {
    endpoint = record {
      hub = with_capacities mpsc recv_capacity outbound_capacity;
      pending = none;
    };
    accepted = [];
    deliveries = [];
  }

  -- Over any sequence of arriving packets, polls with any buffers and closes of a new hub, the bytes
  -- that the polls have delivered, each with its source address, followed by those that the endpoint
  -- still holds, are exactly the payloads of the accepted packets, in the order of their arrival.
  pub run-start-bytes :
      (recv_capacity outbound_capacity : ℕ) (xs : List (Event CustomAddr Waker))
      → let t = run (start recv_capacity outbound_capacity) xs in
        delivered_bytes mpsc t.deliveries ++ unread mpsc t.endpoint ≡ packets_bytes mpsc t.accepted
  unfolding with_capacities
  run-start-bytes recv_capacity outbound_capacity xs = run-Settled _ xs refl
