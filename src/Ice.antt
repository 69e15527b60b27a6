-- ===== src/Ice.antt =====
-- crates/iroh-webrtc-transport/src/core/hub.rs: the bounded queue of locally gathered ICE events.
-- A method that locks the state returns its result, the new state and the waker that it wakes.
-- A task's `Waker` is opaque.
pub mod Wakeups
pub mod Order
mod Tests
use iroh_webrtc_messenger.Common.{
  ℕ, Bool, true, false, ◌&&◌, ◌||◌, List, [], ◌∷◌, ◌++◌, Option, none, some, Result, ok, err, Poll,
  ready, pending, leb, ltb, if◌then◌else◌, Bytes, length,
}
use iroh_webrtc_messenger.Errors.{Error, session_closed, send_queue_full, Fallible}

abbrev pub default_local_ice_queue_capacity : ℕ
default_local_ice_queue_capacity = 128

pub record WebRtcIceCandidate : Type 0 where
  pub candidate : Bytes
  pub sdp_mid : Option Bytes
  pub sdp_mline_index : Option ℕ

pub data LocalIceEvent : Type 0 where
  candidate : WebRtcIceCandidate → LocalIceEvent
  end_of_candidates : LocalIceEvent

-- `event == LocalIceEvent::EndOfCandidates`
abbrev pub is_end : LocalIceEvent → Bool
is_end end_of_candidates = true
is_end (candidate c) = false

-- `queue.iter().any(|queued| queued == &LocalIceEvent::EndOfCandidates)`
unfoldable pub has_end : List LocalIceEvent → Bool
has_end [] = false
has_end (e ∷ es) = is_end e || has_end es

-- The queue after `pop_front`.
abbrev pub drop_front {ℓ} : {A : Type ℓ} → List A → List A
drop_front [] = []
drop_front (x ∷ xs) = xs

pub record LocalIceState (Waker : Type 0) : Type 0 where
  pub queue : List LocalIceEvent
  pub capacity : ℕ
  pub waker : Option Waker
  pub closed : Bool

-- `LocalIceQueue::with_capacity`; the default takes `default_local_ice_queue_capacity`.
unfoldable pub with_capacity : (Waker : Type 0) → ℕ → LocalIceState Waker
with_capacity Waker capacity = record {
  queue = [];
  capacity = capacity;
  waker = none;
  closed = false;
}

module _ {Waker : Type 0} where
  -- `queue.push_back(event)`, then the stored waker is taken and woken.
  abbrev pub enqueue :
      LocalIceState Waker → LocalIceEvent → Fallible (Unit {0}) × LocalIceState Waker × Option Waker
  enqueue s event = (ok tt, record s { queue = s.queue ++ event ∷ []; waker = none }, s.waker)

  unfoldable pub push :
      LocalIceState Waker → LocalIceEvent → Fallible (Unit {0}) × LocalIceState Waker × Option Waker
  unfolding has_end
  push s event =
      if s.closed
      then (err session_closed, s, none)
      else if leb s.capacity (length s.queue)
      then if is_end event && ltb 0 s.capacity
        then if has_end s.queue
          then (ok tt, s, none)
          else enqueue (record s { queue = drop_front s.queue }) event
        else (err send_queue_full, s, none)
      else enqueue s event

  -- `poll_next`, with the waker of the task that polls; it wakes nobody.
  unfoldable pub poll_next :
      LocalIceState Waker → Waker → Poll (Fallible LocalIceEvent) × LocalIceState Waker
  poll_next s cx = elim s.queue [
    | event ∷ rest ↦ (ready (ok event), record s { queue = rest })
    | [] ↦
        if s.closed
        then (ready (err session_closed), s)
        else (pending, record s { waker = some cx })
  ]

  unfoldable pub close : LocalIceState Waker → LocalIceState Waker × Option Waker
  close s = (record s { closed = true; waker = none }, s.waker)
