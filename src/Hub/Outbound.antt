-- ===== src/Hub/Outbound.antt =====
-- The outbound routes of the hub: what a push sends, and that no task that waits for room is left
-- asleep when its route goes.
use mathlib.Core.List.{Mem, mem-append_right, mem-cons_self}
use iroh_webrtc_messenger.Common.{
  ℕ, true, false, ◌≡◌, ◌≢◌, refl, sym, subst, if◌then◌else◌, ◌∙◌, ap, ◌⊎◌, inl, inr, ite, List, [],
  ◌∷◌, ◌++◌, Option, none, some, ok, ready, pending, Bytes, Bytes-discrete, arith, Result-cases,
  Option-cases, Bool-cases,
}
use iroh_webrtc_messenger.Common.Maps.{get, values, get-insert}
use iroh_webrtc_messenger.Frame.{frame_session_id}
use iroh_webrtc_messenger.Mpsc.{Mpsc}
use iroh_webrtc_messenger.Hub.{
  OutboundPacket, OutboundRoute, SessionHub, send_reserved, push_on_route, poll_push_outbound,
  unregister_outbound_session, close, woken, pending_wakers, should_store,
}

module _ {CustomAddr Waker : Type 0} (mpsc : Mpsc Waker (OutboundPacket CustomAddr)) where
  open mpsc use {
    Channel, queued, poll_reserve, send_item, queued-poll_reserve, queued-send_item, will_wake,
  }

  -- The packets sent and not yet received over a session's route, none without a route.
  abbrev pub in_flight : Bytes → SessionHub mpsc → List (OutboundPacket CustomAddr)
  in_flight id h = elim (get Bytes-discrete id h.state.outbound) [
    | none ↦ []
    | some route ↦ queued route.sender
  ]

  send_reserved-in_flight :
      (now : ℕ) (h : SessionHub mpsc) (id j : Bytes) (sender : Channel)
      (packet : OutboundPacket CustomAddr)
      → (send_reserved mpsc now h id sender packet).0 ≡ ok tt
      → in_flight j (send_reserved mpsc now h id sender packet).1
        ≡ ite (Bytes-discrete id j) (queued sender ++ packet ∷ []) (in_flight j h)
  unfolding send_reserved
  send_reserved-in_flight now h id j sender packet sent = ground (
    arith,
    sent,
    queued-send_item packet sender,
    get-insert Bytes-discrete id j
        (record { sender = (send_item packet sender).1; pending_waker = none }) h.state.outbound,
  )

  push_on_route-in_flight :
      (now : ℕ) (cx : Waker) (h : SessionHub mpsc) (id j : Bytes) (route : OutboundRoute mpsc)
      (packet : OutboundPacket CustomAddr)
      → (push_on_route mpsc now cx h id route packet).0 ≡ ready (ok tt)
      → in_flight j (push_on_route mpsc now cx h id route packet).1
        ≡ ite (Bytes-discrete id j) (queued route.sender ++ packet ∷ []) (in_flight j h)
  unfolding push_on_route
  push_on_route-in_flight now cx h id j route packet sent = ground (
    arith,
    sent,
    send_reserved-in_flight now h id j (poll_reserve cx route.sender).1 packet,
    queued-poll_reserve cx route.sender,
  )

  -- A push that succeeds appends its packet to the channel of the session that the packet's frame
  -- names, which is registered on an open hub, and leaves what every other session has in flight.
  pub poll_push_outbound-in_flight :
      (now : ℕ) (cx : Waker) (h : SessionHub mpsc) (packet : OutboundPacket CustomAddr) (j : Bytes)
      → (poll_push_outbound mpsc now cx h packet).0 ≡ ready (ok tt)
      → (id : Bytes) × (frame_session_id packet.bytes ≡ ok id)
        × (h.state.closed ≡ false)
        × (get Bytes-discrete id h.state.outbound ≢ none)
        × (in_flight j (poll_push_outbound mpsc now cx h packet).1
            ≡ ite (Bytes-discrete id j) (in_flight id h ++ packet ∷ []) (in_flight j h))
  unfolding poll_push_outbound
  poll_push_outbound-in_flight now cx h packet j sent =
      elim (Result-cases (frame_session_id packet.bytes)) [
        | inr (e, parsed) ↦ absurd (ground (arith, sent, parsed))
        | inl (id, parsed) ↦ elim (Bool-cases h.state.closed) [
          | inl c ↦ absurd (ground (arith, sent, parsed, c))
          | inr o ↦ elim (Option-cases (get Bytes-discrete id h.state.outbound)) [
            | inl missing ↦ absurd (ground (arith, sent, parsed, o, missing))
            | inr (route, found) ↦ (
              id,
              parsed,
              o,
              ground (arith, found),
              ground (
                arith,
                sent,
                parsed,
                o,
                found,
                push_on_route-in_flight now cx h id j route packet,
              ),
            )
          ]
        ]
      ]

  close_wakes_routes :
      (routes : List (Bytes × OutboundRoute mpsc)) (id : Bytes) (route : OutboundRoute mpsc)
      (w : Waker)
      → get Bytes-discrete id routes ≡ some route
      → route.pending_waker ≡ some w
      → Mem w (pending_wakers mpsc (values routes))
  unfolding pending_wakers
  close_wakes_routes [] id route w found waits = absurd (ground arith)
  close_wakes_routes ((j, r) ∷ routes) id route w found waits = elim (Bytes-discrete j id) [
    | yes e ↦
        let same : r.pending_waker ≡ some w = ground (arith, found, waits, e) in
        subst (λ o. Mem w (woken o ++ pending_wakers mpsc (values routes))) (sym same) mem-cons_self
    | no ne ↦
        mem-append_right (woken r.pending_waker)
          (close_wakes_routes routes id route w (ground (arith, found, ne)) waits)
  ]

  -- The waker that a full route keeps wakes the task that polled.
  kept_waker :
      (cx : Waker) (stored : Option Waker)
      → (w : Waker) × ((w ≡ cx) ⊎ (will_wake w cx ≡ true))
        × ((if should_store mpsc cx stored then some cx else stored) ≡ some w)
  kept_waker cx none = (cx, inl refl, refl)
  kept_waker cx (some w) = elim (Bool-cases (will_wake w cx)) [
    | inl wakes ↦ (w, inr wakes, ground (arith, wakes))
    | inr other ↦ (cx, inl refl, ground (arith, other))
  ]

  -- The waker stands in the route of the session.
  abbrev pub Waits : Bytes → Waker → SessionHub mpsc → Type 0
  Waits id w h =
      (r : OutboundRoute mpsc) × (r.pending_waker ≡ some w)
      × (get Bytes-discrete id h.state.outbound ≡ some r)

  Waits-wakes :
      (h : SessionHub mpsc) (id : Bytes) (w : Waker)
      → Waits id w h
      → ((unregister_outbound_session mpsc id h).2 ≡ w ∷ []) × Mem w (close mpsc h).1
  unfolding unregister_outbound_session close
  Waits-wakes h id w (r, waits, found) = (
    ground (arith, waits, found),
    mem-append_right (woken h.state.recv_waker)
        (close_wakes_routes h.state.outbound id r w found waits),
  )

  -- What a pending push leaves: a waker that wakes the task that polled.
  push_on_route-Waits :
      (now : ℕ) (cx : Waker) (h : SessionHub mpsc) (id : Bytes) (route : OutboundRoute mpsc)
      (packet : OutboundPacket CustomAddr)
      → (push_on_route mpsc now cx h id route packet).0 ≡ pending
      → (w : Waker) × ((w ≡ cx) ⊎ (will_wake w cx ≡ true))
        × Waits id w (push_on_route mpsc now cx h id route packet).1
  unfolding push_on_route
  push_on_route-Waits now cx h id route packet p =
      let (w, wakes, kept) = kept_waker cx route.pending_waker in
      let r : OutboundRoute mpsc = record {
        sender = (poll_reserve cx route.sender).1;
        pending_waker = some w;
      } in
      (
        w,
        wakes,
        (r, refl, ground (arith, p, kept, get-insert Bytes-discrete id id r h.state.outbound)),
      )

  -- A push that is pending has found the route of its session.
  poll_push_outbound-pending :
      (now : ℕ) (cx : Waker) (h : SessionHub mpsc) (packet : OutboundPacket CustomAddr)
      → (poll_push_outbound mpsc now cx h packet).0 ≡ pending
      → (id : Bytes) × (route : OutboundRoute mpsc) × (frame_session_id packet.bytes ≡ ok id)
        × (poll_push_outbound mpsc now cx h packet ≡ push_on_route mpsc now cx h id route packet)
  unfolding poll_push_outbound
  poll_push_outbound-pending now cx h packet p =
      elim (Result-cases (frame_session_id packet.bytes)) [
        | inr (e, parsed) ↦ absurd (ground (arith, p, parsed))
        | inl (id, parsed) ↦ elim (Bool-cases h.state.closed) [
          | inl c ↦ absurd (ground (arith, p, parsed, c))
          | inr o ↦ elim (Option-cases (get Bytes-discrete id h.state.outbound)) [
            | inl missing ↦ absurd (ground (arith, p, parsed, o, missing))
            | inr (route, found) ↦ (id, route, parsed, ground (arith, parsed, o, found))
          ]
        ]
      ]

  -- A task whose push was pending on a full route has left its waker there, or one that would wake it
  -- too, and that waker is woken when the session is unregistered and when the hub is closed.
  pub poll_push_outbound-wakes :
      (now : ℕ) (cx : Waker) (h : SessionHub mpsc) (packet : OutboundPacket CustomAddr)
      → (poll_push_outbound mpsc now cx h packet).0 ≡ pending
      → let waiting = (poll_push_outbound mpsc now cx h packet).1 in
        (id : Bytes) × (w : Waker) × (frame_session_id packet.bytes ≡ ok id)
        × ((w ≡ cx) ⊎ (will_wake w cx ≡ true))
        × ((unregister_outbound_session mpsc id waiting).2 ≡ w ∷ [])
        × Mem w (close mpsc waiting).1
  poll_push_outbound-wakes now cx h packet p =
      let (id, route, parsed, same) = poll_push_outbound-pending now cx h packet p in
      let (w, wakes, waits) =
        push_on_route-Waits now cx h id route packet (ap (λ r. r.0) (sym same) ∙ p) in
      let (unregistered, closed) =
        Waits-wakes _ id w (subst (λ r. Waits id w r.1) (sym same) waits) in
      (id, w, parsed, wakes, unregistered, closed)
