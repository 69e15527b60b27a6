-- ===== src/Hub/Calls.antt =====
-- Runs of the hub of core/hub.rs: any sequence of its methods, by any tasks, as the lock orders them.
use iroh_webrtc_messenger.Common.{ℕ, List, [], ◌∷◌, ◌++◌, ok, err, Poll, ready, pending, Bytes}
use iroh_webrtc_messenger.Errors.{Fallible, Io}
use iroh_webrtc_messenger.Mpsc.{Mpsc}
use iroh_webrtc_messenger.Hub.{
  QueuedPacket, OutboundPacket, SessionHub, with_capacities, push_received, pop_received,
  register_outbound_session, poll_push_outbound, unregister_outbound_session, close,
}

-- A call of a method with its arguments, the clock's readings included.
pub data Call (CustomAddr Waker : Type 0) : Type 0 where
  pushes : ℕ → ℕ → QueuedPacket CustomAddr → Call CustomAddr Waker
  pops : Waker → Call CustomAddr Waker
  registers : Bytes → Call CustomAddr Waker
  sends : ℕ → Waker → OutboundPacket CustomAddr → Call CustomAddr Waker
  unregisters : Bytes → Call CustomAddr Waker
  closes : Call CustomAddr Waker

module _ {CustomAddr Waker : Type 0} (mpsc : Mpsc Waker (OutboundPacket CustomAddr)) where
  -- A hub with the packets that its pushes accepted and those that its pops delivered, oldest first.
  pub record History : Type 0 where
    pub hub : SessionHub mpsc
    pub accepted : List (QueuedPacket CustomAddr)
    pub delivered : List (QueuedPacket CustomAddr)

  -- The packet of a push that succeeds, and none of one that fails.
  abbrev pub taken_in :
      Fallible (Unit {0}) → QueuedPacket CustomAddr → List (QueuedPacket CustomAddr)
  taken_in (ok u) packet = packet ∷ []
  taken_in (err e) packet = []

  -- The packet that a pop returns.
  abbrev pub given_out : Poll (Io (QueuedPacket CustomAddr)) → List (QueuedPacket CustomAddr)
  given_out pending = []
  given_out (ready r) = elim r [ ok packet ↦ packet ∷ [] | err e ↦ [] ]

  unfoldable pub after_call : History → Call CustomAddr Waker → History
  after_call t (pushes now later packet) =
      let (result, hub, wakers) = push_received mpsc now later t.hub packet in
      record t { hub = hub; accepted = t.accepted ++ taken_in result packet }
  after_call t (pops cx) =
      let (result, hub) = pop_received mpsc cx t.hub in
      record t { hub = hub; delivered = t.delivered ++ given_out result }
  after_call t (registers id) = record t { hub = (register_outbound_session mpsc id t.hub).1 }
  after_call t (sends now cx packet) = record t {
    hub = (poll_push_outbound mpsc now cx t.hub packet).1;
  }
  after_call t (unregisters id) = record t { hub = (unregister_outbound_session mpsc id t.hub).1 }
  after_call t closes = record t { hub = (close mpsc t.hub).0 }

  unfoldable pub run : History → List (Call CustomAddr Waker) → History
  unfolding after_call
  run t [] = t
  run t (c ∷ cs) = run (after_call t c) cs

  abbrev pub start : ℕ → ℕ → History
  start recv_capacity outbound_capacity = record {
    hub = with_capacities mpsc recv_capacity outbound_capacity;
    accepted = [];
    delivered = [];
  }
