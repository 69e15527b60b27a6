-- ===== src/Ice/Wakeups.antt =====
-- No poller is left asleep, and the queue stays within its capacity.
use iroh_webrtc_messenger.Common.{
  ℕ, ◌-◌, ◌≤◌, ◌<◌, ◌≡◌, ◌≢◌, false, List, [], ◌∷◌, none, some, ok, pending, length, length-append,
  arith,
}
use iroh_webrtc_messenger.Ice.{
  LocalIceEvent, drop_front, LocalIceState, with_capacity, push, poll_next, close,
}

length-drop_front : (xs : List LocalIceEvent) → length (drop_front xs) ≡ length xs - 1
length-drop_front [] = omega arith
length-drop_front (x ∷ xs) = omega arith

module _ {Waker : Type 0} where
  -- A waker is stored only while there is nothing to deliver.
  pub record IsValid (s : LocalIceState Waker) : Type 0 where
    pub bounded : length s.queue ≤ s.capacity
    pub idle : s.waker ≢ none → s.queue ≡ []
    pub open_ : s.waker ≢ none → s.closed ≡ false

  -- A new queue is valid.
  pub with_capacity-IsValid : (capacity : ℕ) → IsValid (with_capacity Waker capacity)
  unfolding with_capacity
  with_capacity-IsValid capacity = ground arith

  -- Every push, accepted or not, keeps the queue within its capacity and leaves no waker beside an
  -- event or a closed queue.
  pub push-IsValid :
      (s : LocalIceState Waker) (event : LocalIceEvent) → IsValid s → IsValid (push s event).1
  unfolding push
  push-IsValid s event v = ground (
    arith,
    v,
    length-drop_front s.queue,
    length-append s.queue (event ∷ []),
    length-append (drop_front s.queue) (event ∷ []),
  )

  -- Polling keeps the queue valid: a waker is stored only when the poll is pending.
  pub poll_next-IsValid :
      (s : LocalIceState Waker) (cx : Waker) → IsValid s → IsValid (poll_next s cx).1
  unfolding poll_next
  poll_next-IsValid s cx v = ground arith

  pub close-IsValid : (s : LocalIceState Waker) → IsValid s → IsValid (close s).0
  unfolding close
  close-IsValid s v = ground arith

  -- A task whose poll was pending is woken by the next event, which is accepted, and by a close.
  pub poll_next-wakes :
      (s : LocalIceState Waker) (cx : Waker) (event : LocalIceEvent)
      → 0 < s.capacity
      → (poll_next s cx).0 ≡ pending
      → let waiting = (poll_next s cx).1 in
        ((push waiting event).0 ≡ ok tt)
        × ((push waiting event).2 ≡ some cx)
        × ((close waiting).1 ≡ some cx)
  unfolding poll_next push close
  poll_next-wakes s cx event room h = ground arith
