-- ===== src/Accept/Order.antt =====
-- Accepted connections reach the accepting side in order, and none waits while one is queued.
use iroh_webrtc_messenger.Common.{
  ℕ, Bool, ◌≡◌, ◌≢◌, refl, ◌∙◌, ap, ◌≤◌, List, [], ◌∷◌, ◌++◌, append_assoc, append-nil, Option,
  none, some, ok, err, Bytes, length, length-append, arith,
}
use iroh_webrtc_messenger.Runtime.{Runtime}
use iroh_webrtc_messenger.Accept.{
  BrowserAcceptedConnection, ready, done, AcceptRegistrationState, Next, answers, waits,
  first_alive, new, push_or_wake, close_acceptor, take_or_wait,
}

-- A call: a push, with the waiters that still live, a request for the next connection, or a close.
pub data Call (EndpointId Waiter : Type 0) : Type 0 where
  pushes : (Waiter → Bool) → BrowserAcceptedConnection EndpointId → Call EndpointId Waiter
  asks : Waiter → Call EndpointId Waiter
  closes : Call EndpointId Waiter

-- A registration with the connections that were pushed since it was last closed and those that were
-- handed out since then.
pub record History (EndpointId Waiter : Type 0) : Type 0 where
  pub registration : AcceptRegistrationState EndpointId Waiter
  pub accepted : List (BrowserAcceptedConnection EndpointId)
  pub handed_out : List (BrowserAcceptedConnection EndpointId)

-- The connection of a push that succeeds.
abbrev pub pushed :
    {EndpointId : Type 0}
    → Runtime (Unit {0})
    → BrowserAcceptedConnection EndpointId
    → List (BrowserAcceptedConnection EndpointId)
pushed (ok u) c = c ∷ []
pushed (err e) c = []

-- The connection that an answer hands out.
abbrev pub answered :
    {EndpointId : Type 0} → Next EndpointId → List (BrowserAcceptedConnection EndpointId)
answered waits = []
answered (answers a) = elim a [ ready c ↦ c ∷ [] | done ↦ [] ]

first_alive-[] :
    {Waiter : Type 0} (alive : Waiter → Bool) (ws : List Waiter)
    → ws ≡ []
    → first_alive alive ws ≡ none
unfolding first_alive
first_alive-[] alive [] e = refl
first_alive-[] alive (w ∷ ws) e = absurd (ground (arith, e))

module _ {EndpointId Waiter : Type 0} where
  -- The queue is within its capacity, and nobody waits while a connection is queued.
  pub record IsValid (r : AcceptRegistrationState EndpointId Waiter) : Type 0 where
    pub bounded : length r.queue ≤ r.capacity
    pub idle : r.queue ≢ [] → r.waiters ≡ []

  -- A connection that a waiter was sent.
  abbrev pub sent :
      Option Waiter
      → BrowserAcceptedConnection EndpointId
      → List (BrowserAcceptedConnection EndpointId)
  sent none c = []
  sent (some w) c = c ∷ []

  unfoldable pub after_call :
      History EndpointId Waiter → Call EndpointId Waiter → History EndpointId Waiter
  after_call t (pushes alive c) =
      let (result, r, woken) = push_or_wake alive t.registration c in
      record {
        registration = r;
        accepted = t.accepted ++ pushed result c;
        handed_out = t.handed_out ++ sent woken c;
      }
  after_call t (asks w) =
      let (next, r) = take_or_wait w t.registration in
      record t { registration = r; handed_out = t.handed_out ++ answered next }
  after_call t closes = record {
    registration = (close_acceptor t.registration).0;
    accepted = [];
    handed_out = [];
  }

  unfoldable pub run :
      History EndpointId Waiter → List (Call EndpointId Waiter) → History EndpointId Waiter
  run t [] = t
  run t (c ∷ cs) = run (after_call t c) cs

  -- What holds after every call: a valid registration, and the order of connections.
  pub record InOrder (t : History EndpointId Waiter) : Type 0 where
    pub valid : IsValid t.registration
    pub in_order : t.handed_out ++ t.registration.queue ≡ t.accepted

  -- A request takes what it is answered off the front.
  take_or_wait-queue :
      (w : Waiter) (r : AcceptRegistrationState EndpointId Waiter)
      → answered (take_or_wait w r).0 ++ (take_or_wait w r).1.queue ≡ r.queue
  unfolding take_or_wait
  take_or_wait-queue w r = ground arith

  after_call-InOrder :
      (t : History EndpointId Waiter) (c : Call EndpointId Waiter)
      → InOrder t
      → InOrder (after_call t c)
  unfolding after_call push_or_wake take_or_wait close_acceptor
  after_call-InOrder t (pushes alive c) v = record {
    valid = ground (
      arith,
      v,
      length-append t.registration.queue (c ∷ []),
      first_alive-[] alive t.registration.waiters,
    );
    in_order = ground (
      arith,
      v,
      append_assoc t.handed_out t.registration.queue (c ∷ []),
      append-nil t.handed_out,
      append-nil t.accepted,
      append-nil (t.handed_out ++ c ∷ []),
      first_alive-[] alive t.registration.waiters,
    );
  }
  after_call-InOrder t (asks w) v = record {
    valid = ground (arith, v);
    in_order =
        append_assoc t.handed_out _ _
        ∙ ap (λ xs. t.handed_out ++ xs) (take_or_wait-queue w t.registration)
        ∙ v.in_order;
  }
  after_call-InOrder t closes v = ground (arith, v)

  run-InOrder :
      (t : History EndpointId Waiter) (cs : List (Call EndpointId Waiter))
      → InOrder t
      → InOrder (run t cs)
  unfolding run
  run-InOrder t [] v = v
  run-InOrder t (c ∷ cs) v = run-InOrder (after_call t c) cs (after_call-InOrder t c v)

  abbrev pub start : ℕ → Bytes → ℕ → History EndpointId Waiter
  start id alpn capacity = record {
    registration = new id alpn capacity;
    accepted = [];
    handed_out = [];
  }

  -- Over any calls of a new registration, whichever waiters are dropped meanwhile, the connections
  -- handed out since the last close and then those queued are exactly the ones accepted since then, in
  -- their order; the queue is within its capacity, and nobody waits while a connection is queued.
  pub registration-InOrder :
      (id : ℕ) (alpn : Bytes) (capacity : ℕ) (cs : List (Call EndpointId Waiter))
      → InOrder (run (start id alpn capacity) cs)
  unfolding new
  registration-InOrder id alpn capacity cs = run-InOrder _ cs (ground arith)
