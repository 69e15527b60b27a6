-- ===== src/Samples/Channels.antt =====
-- A bounded channel for the tests, whose tasks are numbers. It shows that the laws of `Mpsc` can be met.
use iroh_webrtc_messenger.Common.{
  ℕ, ◌==◌, ltb, List, [], ◌∷◌, ◌++◌, some, ok, ready, pending, if◌then◌else◌, refl, length,
}
use iroh_webrtc_messenger.Mpsc.{Mpsc}

pub record BoundedChannel (Item : Type 0) : Type 0 where
  pub capacity : ℕ
  pub items : List Item

abbrev pub bounded : (Item : Type 0) → Mpsc ℕ Item
bounded Item = record {
  will_wake = λ v w. v == w;
  Channel = BoundedChannel Item;
  channel = λ capacity. record { capacity = capacity; items = [] };
  poll_reserve = λ w c. (if ltb (length c.items) c.capacity then ready (ok tt) else pending, c);
  send_item = λ x c. (ok tt, record c { items = c.items ++ x ∷ [] });
  depth = λ c. some (length c.items);
  queued = λ c. c.items;
  queued-channel = λ capacity. refl;
  queued-poll_reserve = λ w c. refl;
  queued-send_item = λ x c sent. refl;
}
