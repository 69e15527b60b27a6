-- ===== src/Hub/Receive.antt =====
-- The receive side of the hub: what every sequence of its methods keeps.
use iroh_webrtc_messenger.Common.{
  ℕ, true, false, ◌≡◌, ◌≢◌, ◌≤◌, List, [], ◌∷◌, none, Bytes, Bytes-discrete, length, Result-cases,
  Option-cases, Bool-cases, inl, inr, length-append, arith,
}
use iroh_webrtc_messenger.Common.Maps.{get}
use iroh_webrtc_messenger.Frame.{frame_session_id}
use iroh_webrtc_messenger.Mpsc.{Mpsc}
use iroh_webrtc_messenger.Hub.{
  QueuedPacket, OutboundPacket, OutboundRoute, SessionState, SessionHub, with_capacities,
  push_received, pop_received, register_outbound_session, send_reserved, push_on_route,
  poll_push_outbound, unregister_outbound_session, close,
}
use iroh_webrtc_messenger.Hub.Calls.{
  Call, pushes, pops, registers, sends, unregisters, closes, History, after_call, run, start,
}

module _ {CustomAddr Waker : Type 0} (mpsc : Mpsc Waker (OutboundPacket CustomAddr)) where
  -- The receive queue is within its capacity, a task is asleep on it only while it is empty and
  -- open, and a closed hub has no routes.
  pub record IsValid (s : SessionState mpsc) : Type 0 where
    pub bounded : length s.recv ≤ s.recv_capacity
    pub idle : s.recv_waker ≢ none → s.recv ≡ []
    pub open_ : s.recv_waker ≢ none → s.closed ≡ false
    pub unrouted : s.closed ≡ true → s.outbound ≡ []

  -- Two states that differ in the routes of an open hub at most.
  pub record SameReceive (s t : SessionState mpsc) : Type 0 where
    pub recv : s.recv ≡ t.recv
    pub recv_waker : s.recv_waker ≡ t.recv_waker
    pub recv_capacity : s.recv_capacity ≡ t.recv_capacity
    pub closed : s.closed ≡ t.closed
    pub routes : s.closed ≡ true → s.outbound ≡ t.outbound

  SameReceive-IsValid : (s t : SessionState mpsc) → SameReceive s t → IsValid s → IsValid t
  SameReceive-IsValid s t e v = ground arith

  send_reserved-SameReceive :
      (now : ℕ) (h : SessionHub mpsc) (id : Bytes) (sender : mpsc.Channel)
      (packet : OutboundPacket CustomAddr)
      → h.state.closed ≡ false
      → SameReceive h.state (send_reserved mpsc now h id sender packet).1.state
  unfolding send_reserved
  send_reserved-SameReceive now h id sender packet o = ground arith

  push_on_route-SameReceive :
      (now : ℕ) (cx : Waker) (h : SessionHub mpsc) (id : Bytes) (route : OutboundRoute mpsc)
      (packet : OutboundPacket CustomAddr)
      → h.state.closed ≡ false
      → SameReceive h.state (push_on_route mpsc now cx h id route packet).1.state
  unfolding push_on_route
  push_on_route-SameReceive now cx h id route packet o =
      ground (
        arith,
        o,
        send_reserved-SameReceive now h id (mpsc.poll_reserve cx route.sender).1 packet o,
      )

  pub poll_push_outbound-SameReceive :
      (now : ℕ) (cx : Waker) (h : SessionHub mpsc) (packet : OutboundPacket CustomAddr)
      → SameReceive h.state (poll_push_outbound mpsc now cx h packet).1.state
  unfolding poll_push_outbound
  poll_push_outbound-SameReceive now cx h packet =
      elim (Result-cases (frame_session_id packet.bytes)) [
        | inr (e, parsed) ↦ ground (arith, parsed)
        | inl (id, parsed) ↦ elim (Option-cases (get Bytes-discrete id h.state.outbound)) [
          | inl missing ↦ ground (arith, parsed, missing)
          | inr (route, found) ↦ elim (Bool-cases h.state.closed) [
            | inl c ↦ ground (arith, parsed, found, c)
            | inr o ↦
                ground
                  (arith, parsed, found, o, push_on_route-SameReceive now cx h id route packet o)
          ]
        ]
      ]

  push_received-IsValid :
      (now later : ℕ) (h : SessionHub mpsc) (packet : QueuedPacket CustomAddr)
      → IsValid h.state
      → IsValid (push_received mpsc now later h packet).1.state
  unfolding push_received
  push_received-IsValid now later h packet v =
      ground (arith, v, length-append h.state.recv (packet ∷ []))

  pop_received-IsValid :
      (cx : Waker) (h : SessionHub mpsc)
      → IsValid h.state
      → IsValid (pop_received mpsc cx h).1.state
  unfolding pop_received
  pop_received-IsValid cx h v = ground arith

  pub register_outbound_session-SameReceive :
      (id : Bytes) (h : SessionHub mpsc)
      → SameReceive h.state (register_outbound_session mpsc id h).1.state
  unfolding register_outbound_session
  register_outbound_session-SameReceive id h = ground arith

  unregister_outbound_session-SameReceive :
      (id : Bytes) (h : SessionHub mpsc)
      → IsValid h.state
      → SameReceive h.state (unregister_outbound_session mpsc id h).1.state
  unfolding unregister_outbound_session
  unregister_outbound_session-SameReceive id h v = ground arith

  close-IsValid : (h : SessionHub mpsc) → IsValid h.state → IsValid (close mpsc h).0.state
  unfolding close
  close-IsValid h v = ground arith

  after_call-IsValid :
      (t : History mpsc) (c : Call CustomAddr Waker)
      → IsValid t.hub.state
      → IsValid (after_call mpsc t c).hub.state
  unfolding after_call
  after_call-IsValid t (pushes now later packet) v = push_received-IsValid now later t.hub packet v
  after_call-IsValid t (pops cx) v = pop_received-IsValid cx t.hub v
  after_call-IsValid t (registers id) v =
      SameReceive-IsValid _ _ (register_outbound_session-SameReceive id t.hub) v
  after_call-IsValid t (sends now cx packet) v =
      SameReceive-IsValid _ _ (poll_push_outbound-SameReceive now cx t.hub packet) v
  after_call-IsValid t (unregisters id) v =
      SameReceive-IsValid _ _ (unregister_outbound_session-SameReceive id t.hub v) v
  after_call-IsValid t closes v = close-IsValid t.hub v

  run-IsValid :
      (t : History mpsc) (cs : List (Call CustomAddr Waker))
      → IsValid t.hub.state
      → IsValid (run mpsc t cs).hub.state
  unfolding run
  run-IsValid t [] v = v
  run-IsValid t (c ∷ cs) v = run-IsValid (after_call mpsc t c) cs (after_call-IsValid t c v)

  -- After any sequence of calls of a new hub, the receive queue is within its capacity, a task is
  -- asleep on it only while it is empty and open, and a closed hub has no routes.
  pub run-start-IsValid :
      (recv_capacity outbound_capacity : ℕ) (cs : List (Call CustomAddr Waker))
      → IsValid (run mpsc (start mpsc recv_capacity outbound_capacity) cs).hub.state
  unfolding with_capacities
  run-start-IsValid recv_capacity outbound_capacity cs = run-IsValid _ cs (ground arith)
