-- ===== src/Accept.antt =====
-- crates/iroh-webrtc-transport/src/browser_runtime/node/accept_state.rs and the accept methods of
-- node/connection.rs: the queue of accepted connections of one ALPN and the tasks that wait for one.
-- A waiter is a `oneshot::Sender`; whether its receiver still lives is known only when something is
-- sent, so it is an argument. A method returns the waiters that it sends to.
pub mod Order
pub mod Claims
mod Tests
use iroh_webrtc_messenger.Common.{
  ℕ, Bool, true, false, not, ◌==◌, leb, List, [], ◌∷◌, ◌++◌, map, Option, none, some, Result, ok,
  err, Bytes, Bytes-discrete, length, if◌then◌else◌, ◌>>=◌, ◌>>◌, fail_if,
}
use iroh_webrtc_messenger.Common.Maps.{get, insert, values}
use iroh_webrtc_messenger.Runtime.{
  BrowserRuntimeError, Message, about, web_rtc_failed, unsupported_alpn, runtime_error,
  closed_error, Runtime, validate_alpn,
}
use iroh_webrtc_messenger.Session.{BrowserResolvedTransport}

pub record BrowserAcceptedConnection (EndpointId : Type 0) : Type 0 where
  pub key : ℕ
  pub session_key : Option Bytes
  pub remote : EndpointId
  pub alpn : Bytes
  pub transport : BrowserResolvedTransport

pub data BrowserAcceptNext (EndpointId : Type 0) : Type 0 where
  ready : BrowserAcceptedConnection EndpointId → BrowserAcceptNext EndpointId
  done : BrowserAcceptNext EndpointId

pub record AcceptRegistrationState (EndpointId Waiter : Type 0) : Type 0 where
  pub id : ℕ
  pub alpn : Bytes
  pub claimed : Bool
  pub queue : List (BrowserAcceptedConnection EndpointId)
  pub waiters : List Waiter
  pub capacity : ℕ

-- The fields of the node that accepting uses.
pub record Accepts (EndpointId Waiter : Type 0) : Type 0 where
  pub accepts : List (Bytes × AcceptRegistrationState EndpointId Waiter)
  pub closed : Bool

-- `accept_next` up to the await: an answer, or a place among the waiters.
pub data Next (EndpointId : Type 0) : Type 0 where
  answers : BrowserAcceptNext EndpointId → Next EndpointId
  waits : Next EndpointId

-- `while let Some(waiter) = waiters.pop_front()`: the waiter that takes the connection and those
-- behind it, where one lives.
unfoldable pub first_alive :
    {Waiter : Type 0} → (Waiter → Bool) → List Waiter → Option (Waiter × List Waiter)
first_alive alive [] = none
first_alive alive (w ∷ ws) =
    let rest = first_alive alive ws in if alive w then some (w, ws) else rest

module _ {EndpointId Waiter : Type 0} where
  unfoldable pub new : ℕ → Bytes → ℕ → AcceptRegistrationState EndpointId Waiter
  new id alpn capacity = record {
    id = id;
    alpn = alpn;
    claimed = false;
    queue = [];
    waiters = [];
    capacity = capacity;
  }

  -- `push_or_wake`, with the waiter that is sent the connection.
  unfoldable pub push_or_wake :
      (Waiter → Bool)
      → AcceptRegistrationState EndpointId Waiter
      → BrowserAcceptedConnection EndpointId
      → Runtime (Unit {0}) × AcceptRegistrationState EndpointId Waiter × Option Waiter
  push_or_wake alive r connection = elim (first_alive alive r.waiters) [
    | some found ↦ (ok tt, record r { waiters = found.1 }, some found.0)
    | none ↦
        if leb r.capacity (length r.queue)
        then (
          err (record {
            code = web_rtc_failed;
            message = about "accept queue is full for ALPN" r.alpn;
          }),
          record r { waiters = [] },
          none,
        )
        else (ok tt, record r { queue = r.queue ++ connection ∷ []; waiters = [] }, none)
  ]

  -- `close_acceptor`, with the waiters that are sent `Done`.
  unfoldable pub close_acceptor :
      AcceptRegistrationState EndpointId Waiter
      → AcceptRegistrationState EndpointId Waiter × List Waiter
  close_acceptor r = (record r { claimed = false; queue = []; waiters = [] }, r.waiters)

  -- The part of `accept_next` that has found the registration.
  unfoldable pub take_or_wait :
      Waiter
      → AcceptRegistrationState EndpointId Waiter
      → Next EndpointId × AcceptRegistrationState EndpointId Waiter
  take_or_wait waiter r = elim r.queue [
    | connection ∷ rest ↦ (answers (ready connection), record r { queue = rest })
    | [] ↦ (waits, record r { waiters = r.waiters ++ waiter ∷ [] })
  ]

  -- `accept_registration_mut`: the ALPN and the registration with an id.
  unfoldable pub find_registration :
      ℕ
      → List (Bytes × AcceptRegistrationState EndpointId Waiter)
      → Option (Bytes × AcceptRegistrationState EndpointId Waiter)
  find_registration id [] = none
  find_registration id ((alpn, r) ∷ rs) =
      let rest = find_registration id rs in if r.id == id then some (alpn, r) else rest

  -- The part of `accept_open` that has found the registration.
  unfoldable pub claim :
      Accepts EndpointId Waiter
      → Bytes
      → AcceptRegistrationState EndpointId Waiter
      → Runtime (ℕ × Accepts EndpointId Waiter)
  claim n alpn r =
      if r.claimed
      then err (record {
        code = unsupported_alpn;
        message = about "an accept iterator is already active for ALPN" alpn;
      })
      else ok (
        r.id,
        record n { accepts = insert Bytes-discrete alpn (record r { claimed = true }) n.accepts },
      )

  -- `accept_open`: the id of the registration, claimed.
  unfoldable pub accept_open :
      Bytes → Accepts EndpointId Waiter → Runtime (ℕ × Accepts EndpointId Waiter)
  accept_open name n = do
    alpn ← validate_alpn name
    fail_if n.closed closed_error
    elim (get Bytes-discrete alpn n.accepts) [
      | none ↦ err (record {
        code = unsupported_alpn;
        message = about "ALPN was not registered as a facade accept protocol" alpn;
      })
      | some r ↦ claim n alpn r
    ]

  -- `accept_next` up to the await.
  unfoldable pub accept_next :
      Waiter → ℕ → Accepts EndpointId Waiter → Runtime (Next EndpointId × Accepts EndpointId Waiter)
  accept_next waiter id n =
      if n.closed then ok (answers done, n) else elim (find_registration id n.accepts) [
        | none ↦ err (runtime_error unsupported_alpn "unknown accept registration")
        | some found ↦
            let taken = take_or_wait waiter found.1 in
            ok (taken.0, record n { accepts = insert Bytes-discrete found.0 taken.1 n.accepts })
      ]

  -- `accept_close`, with the waiters that are sent `Done`.
  unfoldable pub accept_close :
      ℕ → Accepts EndpointId Waiter → Bool × Accepts EndpointId Waiter × List Waiter
  accept_close id n = elim (find_registration id n.accepts) [
    | none ↦ (false, n, [])
    | some found ↦ elim (get Bytes-discrete found.1.alpn n.accepts) [
      | none ↦ (true, n, [])
      | some r ↦
          let ended = close_acceptor r in
          (
            true,
            record n { accepts = insert Bytes-discrete found.1.alpn ended.0 n.accepts },
            ended.1,
          )
    ]
  ]
