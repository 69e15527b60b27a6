-- ===== src/Mpsc.antt =====
-- What the hub takes from tokio: a bounded channel whose sending half is wrapped in a `PollSender`.
-- The crates are not part of the repository, so the channel is a parameter with the documented
-- behaviour that the code relies on. A `Channel` is the state that both halves share.
use iroh_webrtc_messenger.Common.{ℕ, Bool, ◌≡◌, List, [], ◌∷◌, ◌++◌, Option, Result, ok, Poll}

pub record Mpsc (Waker Item : Type 0) : Type 1 where
  -- `Waker::will_wake`
  pub will_wake : Waker → Waker → Bool
  pub Channel : Type 0
  -- `mpsc::channel(capacity)` with `PollSender::new`. tokio panics at a capacity of 0, which the
  -- validation of the queues refuses.
  pub channel : ℕ → Channel
  -- `PollSender::poll_reserve`: an error when the receiver has closed the channel.
  pub poll_reserve : Waker → Channel → Poll (Result (Unit {0}) (Unit {0})) × Channel
  -- `PollSender::send_item`
  pub send_item : Item → Channel → Result (Unit {0}) (Unit {0}) × Channel
  -- `get_ref().map(|sender| sender.max_capacity().saturating_sub(sender.capacity()))`
  pub depth : Channel → Option ℕ
  -- The items sent and not yet received, the oldest first.
  pub queued : Channel → List Item
  pub queued-channel : (capacity : ℕ) → queued (channel capacity) ≡ []
  pub queued-poll_reserve : (w : Waker) (c : Channel) → queued (poll_reserve w c).1 ≡ queued c
  pub queued-send_item :
      (x : Item) (c : Channel)
      → (send_item x c).0 ≡ ok tt
      → queued (send_item x c).1 ≡ queued c ++ x ∷ []
