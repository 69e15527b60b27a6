-- ===== src/Ice/Order.antt =====
-- What pollers receive over a history of calls, against what was pushed.
use mathlib.Core.List.{Sublist, sublist-append_left}
use mathlib.Core.List.Sublist
use iroh_webrtc_messenger.Common.{
  ℕ, ◌≡◌, refl, ap, inl, inr, true, false, ◌||◌, List, [], ◌∷◌, ◌++◌, ok, err, ready, pending,
  length, append_assoc, arith, Bool-cases, leb, ltb,
}
use iroh_webrtc_messenger.Ice.{
  LocalIceEvent, end_of_candidates, candidate, has_end, drop_front, LocalIceState, with_capacity,
  push, poll_next, close,
}

pub data Call (Waker : Type 0) : Type 0 where
  pushes : LocalIceEvent → Call Waker
  polls : Waker → Call Waker
  closes : Call Waker

-- A queue with the events whose push returned `Ok` and those that a poll returned, oldest first.
pub record History (Waker : Type 0) : Type 0 where
  pub state : LocalIceState Waker
  pub accepted : List LocalIceEvent
  pub delivered : List LocalIceEvent

module _ {Waker : Type 0} where
  after_push : History Waker → LocalIceEvent → History Waker
  after_push h event =
      let (r, s, woken) = push h.state event in
      elim r [
        | ok _ ↦ record h { state = s; accepted = h.accepted ++ event ∷ [] }
        | err _ ↦ record h { state = s }
      ]

  after_poll : History Waker → Waker → History Waker
  after_poll h cx =
      let (r, s) = poll_next h.state cx in
      elim r [
        | ready (ok event) ↦ record h { state = s; delivered = h.delivered ++ event ∷ [] }
        | ready (err _) ↦ record h { state = s }
        | pending ↦ record h { state = s }
      ]

  pub after_call : History Waker → Call Waker → History Waker
  unfolding after_push after_poll
  after_call h (pushes event) = after_push h event
  after_call h (polls cx) = after_poll h cx
  after_call h closes = record h { state = (close h.state).0 }

  pub run : History Waker → List (Call Waker) → History Waker
  unfolding after_call
  run h [] = h
  run h (c ∷ cs) = run (after_call h c) cs

  abbrev pub held : History Waker → List LocalIceEvent
  held h = h.delivered ++ h.state.queue

  pub start : ℕ → History Waker
  start capacity = record { state = with_capacity Waker capacity; accepted = []; delivered = [] }

-- `kept`, what a queue has delivered and still holds, against the events that it has accepted: they
-- stand in the order of their pushes, none twice; an end of candidates is kept, and as long as none
-- was accepted nothing is lost.
pub record InOrder (kept accepted : List LocalIceEvent) : Type 0 where
  pub ordered : Sublist kept accepted
  pub end_kept : has_end kept ≡ has_end accepted
  pub lossless : has_end accepted ≡ false → kept ≡ accepted

has_end-append : (xs ys : List LocalIceEvent) → has_end (xs ++ ys) ≡ (has_end xs || has_end ys)
unfolding has_end
has_end-append [] ys = refl
has_end-append (x ∷ xs) ys = ground (arith, has_end-append xs ys)

has_end-drop_front :
    (xs : List LocalIceEvent) → has_end xs ≡ false → has_end (drop_front xs) ≡ false
unfolding has_end
has_end-drop_front [] h = h
has_end-drop_front (x ∷ xs) h = ground arith

drop_front-sublist : (xs : List LocalIceEvent) → Sublist (drop_front xs) xs
drop_front-sublist [] = Sublist.refl []
drop_front-sublist (x ∷ xs) = Sublist.cons x (Sublist.refl xs)

-- One more event on both sides.
InOrder-append :
    {kept accepted : List LocalIceEvent} (event : LocalIceEvent)
    → InOrder kept accepted
    → InOrder (kept ++ event ∷ []) (accepted ++ event ∷ [])
unfolding has_end
InOrder-append {kept} {accepted} event v = record {
  ordered = Sublist.append v.ordered (Sublist.refl (event ∷ []));
  end_kept =
      rw (has_end-append kept (event ∷ []), has_end-append accepted (event ∷ []), v.end_kept);
  lossless = λ none_ended.
      ap (λ xs. xs ++ event ∷ [])
        (v.lossless (ground (arith, none_ended, has_end-append accepted (event ∷ []))));
}

-- An end that is pushed again while one is held.
InOrder-repeat :
    {kept accepted : List LocalIceEvent}
    → has_end kept ≡ true
    → InOrder kept accepted
    → InOrder kept (accepted ++ end_of_candidates ∷ [])
unfolding has_end
InOrder-repeat {kept} {accepted} h v = record {
  ordered = Sublist.trans v.ordered (sublist-append_left accepted (end_of_candidates ∷ []));
  end_kept = ground (arith, v.end_kept, has_end-append accepted (end_of_candidates ∷ []));
  lossless = λ none_ended.
      absurd (ground (arith, none_ended, has_end-append accepted (end_of_candidates ∷ [])));
}

-- An end that takes the place of the oldest event.
InOrder-evict :
    {accepted : List LocalIceEvent} (sent queue : List LocalIceEvent)
    → has_end queue ≡ false
    → InOrder (sent ++ queue) accepted
    → InOrder
        (sent ++ (drop_front queue ++ end_of_candidates ∷ []))
        (accepted ++ end_of_candidates ∷ [])
unfolding has_end
InOrder-evict {accepted} sent queue h v = record {
  ordered = rw (← append_assoc sent (drop_front queue) (end_of_candidates ∷ [])) (
      Sublist.append
        (Sublist.trans (Sublist.append (Sublist.refl sent) (drop_front-sublist queue)) v.ordered)
        (Sublist.refl (end_of_candidates ∷ [])));
  end_kept = ground (
    arith,
    v.end_kept,
    has_end-append accepted (end_of_candidates ∷ []),
    has_end-append sent (drop_front queue ++ end_of_candidates ∷ []),
    has_end-append (drop_front queue) (end_of_candidates ∷ []),
  );
  lossless = λ none_ended.
      absurd (ground (arith, none_ended, has_end-append accepted (end_of_candidates ∷ [])));
}

module _ {Waker : Type 0} where
  after_poll-held_of :
      (h : History Waker) (cx : Waker) (queue : List LocalIceEvent)
      → h.state.queue ≡ queue
      → (held (after_poll h cx) ≡ held h) × ((after_poll h cx).accepted ≡ h.accepted)
  unfolding after_poll poll_next
  after_poll-held_of h cx [] e = ground arith
  after_poll-held_of h cx (event ∷ rest) e =
      ground (arith, append_assoc h.delivered (event ∷ []) rest)

  -- A poll moves an event from the queue to those delivered.
  after_poll-held :
      (h : History Waker) (cx : Waker)
      → (held (after_poll h cx) ≡ held h) × ((after_poll h cx).accepted ≡ h.accepted)
  after_poll-held h cx = after_poll-held_of h cx h.state.queue refl

  -- The ways in which a push changes what is held and what was accepted.
  data Pushed (h h' : History Waker) (event : LocalIceEvent) : Type 0 where
    refused : held h' ≡ held h → h'.accepted ≡ h.accepted → Pushed h h' event
    appended :
        held h' ≡ held h ++ event ∷ [] → h'.accepted ≡ h.accepted ++ event ∷ [] → Pushed h h' event
    repeated :
        event ≡ end_of_candidates
        → has_end (held h) ≡ true
        → held h' ≡ held h
        → h'.accepted ≡ h.accepted ++ event ∷ []
        → Pushed h h' event
    evicted :
        event ≡ end_of_candidates
        → has_end h.state.queue ≡ false
        → held h' ≡ h.delivered ++ (drop_front h.state.queue ++ event ∷ [])
        → h'.accepted ≡ h.accepted ++ event ∷ []
        → Pushed h h' event

  after_push-Pushed :
      (h : History Waker) (event : LocalIceEvent) → Pushed h (after_push h event) event
  unfolding after_push push
  after_push-Pushed h (candidate c) = elim (Bool-cases h.state.closed) [
    | inl shut ↦ refused (ground arith) (ground arith)
    | inr open_ ↦ elim (Bool-cases (leb h.state.capacity (length h.state.queue))) [
      | inl full ↦ refused (ground arith) (ground arith)
      | inr room ↦
          appended (ground (arith, append_assoc h.delivered h.state.queue (candidate c ∷ [])))
            (ground arith)
    ]
  ]
  after_push-Pushed h end_of_candidates = elim (Bool-cases h.state.closed) [
    | inl shut ↦ refused (ground arith) (ground arith)
    | inr open_ ↦ elim (Bool-cases (leb h.state.capacity (length h.state.queue))) [
      | inr room ↦
          appended (ground (arith, append_assoc h.delivered h.state.queue (end_of_candidates ∷ [])))
            (ground arith)
      | inl full ↦ elim (Bool-cases (ltb 0 h.state.capacity)) [
        | inr none_fits ↦ refused (ground arith) (ground arith)
        | inl fits ↦ elim (Bool-cases (has_end h.state.queue)) [
          | inl again ↦
              repeated refl (ground (arith, has_end-append h.delivered h.state.queue))
                (ground arith) (ground arith)
          | inr first ↦ evicted refl first (ground arith) (ground arith)
        ]
      ]
    ]
  ]

  after_call-InOrder :
      (h : History Waker) (c : Call Waker)
      → InOrder (held h) h.accepted
      → InOrder (held (after_call h c)) (after_call h c).accepted
  unfolding after_call close
  after_call-InOrder h (pushes event) v = elim (after_push-Pushed h event) [
    | refused k a ↦ rw (k, a) v
    | appended k a ↦ rw (k, a) (InOrder-append event v)
    | repeated e again k a ↦ rw (k, a, e) (InOrder-repeat again v)
    | evicted e first k a ↦ rw (k, a, e) (InOrder-evict h.delivered h.state.queue first v)
  ]
  after_call-InOrder h (polls cx) v = rw ((after_poll-held h cx).0, (after_poll-held h cx).1) v
  after_call-InOrder h closes v = v

  run-InOrder :
      (h : History Waker) (cs : List (Call Waker))
      → InOrder (held h) h.accepted
      → InOrder (held (run h cs)) (run h cs).accepted
  unfolding run
  run-InOrder h [] v = v
  run-InOrder h (c ∷ cs) v = run-InOrder (after_call h c) cs (after_call-InOrder h c v)

  -- Over any history of pushes, polls and closes of a new queue, the events delivered and those still
  -- queued are accepted events in the order of their pushes, none twice; if an end of candidates was
  -- accepted it is among them, and if none was, nothing that was accepted is missing.
  pub run-start-InOrder :
      (capacity : ℕ) (cs : List (Call Waker))
      → InOrder (held (run (start capacity) cs)) (run (start capacity) cs).accepted
  unfolding start with_capacity
  run-start-InOrder capacity cs =
      run-InOrder (start capacity) cs
        (record { ordered = Sublist.refl []; end_kept = refl; lossless = λ e. refl })
