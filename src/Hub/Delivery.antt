-- ===== src/Hub/Delivery.antt =====
-- What the receive queue of the hub delivers, and whom it wakes.
use iroh_webrtc_messenger.Common.{
  ℕ, ◌≡◌, refl, sym, subst, some, ◌∙◌, ap, ◌<◌, List, [], ◌∷◌, ◌++◌, append-nil, append_assoc, ok,
  err, ready, pending, arith,
}
use mathlib.Core.List.{Mem, mem-cons_self}
use iroh_webrtc_messenger.Common.Maps.{values}
use iroh_webrtc_messenger.Errors.{io_error, session_closed}
use iroh_webrtc_messenger.Mpsc.{Mpsc}
use iroh_webrtc_messenger.Hub.{
  QueuedPacket, OutboundPacket, SessionHub, with_capacities, push_received, pop_received,
  unregister_outbound_session, close, pending_wakers, woken,
}
use iroh_webrtc_messenger.Hub.Receive.{
  poll_push_outbound-SameReceive, register_outbound_session-SameReceive,
}
use iroh_webrtc_messenger.Hub.Calls.{
  Call, pushes, pops, registers, sends, unregisters, closes, History, given_out, after_call, run,
  start,
}

module _ {CustomAddr Waker : Type 0} (mpsc : Mpsc Waker (OutboundPacket CustomAddr)) where
  -- The packets that were delivered and those still queued, the oldest first.
  abbrev pub held : History mpsc → List (QueuedPacket CustomAddr)
  held t = t.delivered ++ t.hub.state.recv

  -- A pop takes what it returns off the front.
  pop_received-held :
      (cx : Waker) (h : SessionHub mpsc)
      → given_out mpsc (pop_received mpsc cx h).0 ++ (pop_received mpsc cx h).1.state.recv
        ≡ h.state.recv
  unfolding pop_received
  pop_received-held cx h = ground arith

  after_call-held :
      (t : History mpsc) (c : Call CustomAddr Waker)
      → held t ≡ t.accepted
      → held (after_call mpsc t c) ≡ (after_call mpsc t c).accepted
  unfolding after_call push_received pop_received unregister_outbound_session close
  after_call-held t (pushes now later packet) e =
      ground (arith, append_assoc t.delivered t.hub.state.recv (packet ∷ []), append-nil t.accepted)
  after_call-held t (pops cx) e =
      append_assoc t.delivered _ _ ∙ ap (λ xs. t.delivered ++ xs) (pop_received-held cx t.hub) ∙ e
  after_call-held t (registers id) e =
      ground (arith, e, register_outbound_session-SameReceive mpsc id t.hub)
  after_call-held t (sends now cx packet) e =
      ground (arith, e, poll_push_outbound-SameReceive mpsc now cx t.hub packet)
  after_call-held t (unregisters id) e = ground arith
  after_call-held t closes e = ground arith

  run-held :
      (t : History mpsc) (cs : List (Call CustomAddr Waker))
      → held t ≡ t.accepted
      → held (run mpsc t cs) ≡ (run mpsc t cs).accepted
  unfolding run
  run-held t [] e = e
  run-held t (c ∷ cs) e = run-held (after_call mpsc t c) cs (after_call-held t c e)

  -- Over any sequence of calls of a new hub, the packets delivered and then those still queued are
  -- exactly the packets whose push succeeded, in the order of their pushes.
  pub run-start-held :
      (recv_capacity outbound_capacity : ℕ) (cs : List (Call CustomAddr Waker))
      → let t = run mpsc (start mpsc recv_capacity outbound_capacity) cs in held t ≡ t.accepted
  unfolding with_capacities
  run-start-held recv_capacity outbound_capacity cs = run-held _ cs refl

  -- A close wakes the task whose waker the queue keeps.
  close_wakes_receiver :
      (h : SessionHub mpsc) (cx : Waker) → h.state.recv_waker ≡ some cx → Mem cx (close mpsc h).1
  unfolding close
  close_wakes_receiver h cx kept =
      subst (λ o. Mem cx (woken o ++ pending_wakers mpsc (values h.state.outbound))) (sym kept)
        mem-cons_self

  -- A task whose pop was pending is woken by the next push, which succeeds where the queue has any
  -- capacity and whose packet is what the task then pops, and is among those that a close wakes, after
  -- which its pop fails.
  pub pop_received-wakes :
      (h : SessionHub mpsc) (cx : Waker) (now later : ℕ) (packet : QueuedPacket CustomAddr)
      → 0 < h.state.recv_capacity
      → (pop_received mpsc cx h).0 ≡ pending
      → let waiting = (pop_received mpsc cx h).1 in
        let pushed = push_received mpsc now later waiting packet in
        (pushed.0 ≡ ok tt)
        × (pushed.2 ≡ cx ∷ [])
        × ((pop_received mpsc cx pushed.1).0 ≡ ready (ok packet))
        × Mem cx (close mpsc waiting).1
        × ((pop_received mpsc cx (close mpsc waiting).0).0 ≡ ready (err (io_error session_closed)))
  unfolding pop_received push_received close
  pop_received-wakes h cx now later packet room p = (
    ground arith,
    ground arith,
    ground arith,
    close_wakes_receiver (pop_received mpsc cx h).1 cx (ground arith),
    ground arith,
  )
