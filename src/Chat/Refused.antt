-- ===== src/Chat/Refused.antt =====
-- What the receiving task of examples/rust-browser-chat-room/src/protocol.rs lets through: signed
-- messages only, and each one once.
use iroh_webrtc_messenger.Common.{
  ℕ, ◌+◌, ◌<◌, ◌≡◌, ◌≢◌, refl, sym, subst, List, [], ◌∷◌, true, false, Bytes, Bytes-discrete,
  if◌then◌else◌, arith, Bool-cases, Option-cases, ◌⊎◌, inl, inr,
}
use iroh_webrtc_messenger.Common.Maps.{insert, get-insert}
use iroh_webrtc_messenger.Chat.{Text, text_eq, contains}
use iroh_webrtc_messenger.Chat.Wire.{
  ReplayLru, seen_of, remember, check_and_insert, replay_cap_per_signer, ChatWireMessage, about_me,
  chat, leave, sync, unknown, Wire, Topic, Receiver, ChatGossipEvent, admit, on_message, verify_msg,
  signer_pk_bytes,
}
use iroh_webrtc_messenger.Chat.Replay.{
  Recent, Recent-contains, Recent-mono, remember-Recent, remember-last, IsWindow, remember-IsWindow,
}

seen_of-insert :
    (s t : Text) (ns : List Bytes) (lru : ReplayLru)
    → seen_of s (insert Bytes-discrete t ns lru) ≡ (if text_eq t s then ns else seen_of s lru)
seen_of-insert s t ns lru = ground (arith, get-insert Bytes-discrete t s ns lru)

-- What `check_and_insert` leaves of a signer's window.
seen_of-check :
    (s t : Text) (m : Bytes) (lru : ReplayLru)
    → (seen_of s (check_and_insert t m lru).1 ≡ seen_of s lru)
      ⊎ ((t ≡ s)
          × (contains m (seen_of s lru) ≡ false)
          × (seen_of s (check_and_insert t m lru).1 ≡ remember m (seen_of s lru)))
unfolding check_and_insert
seen_of-check s t m lru = elim (Bool-cases (contains m (seen_of t lru))) [
  | inl dup ↦ inl (ground (arith, dup, seen_of-insert s t (seen_of t lru) lru))
  | inr fresh ↦ elim (Bytes-discrete t s) [
    | yes e ↦ inr (
      e,
      ground (arith, fresh, e),
      ground (arith, fresh, e, seen_of-insert s t (remember m (seen_of t lru)) lru),
    )
    | no ne ↦ inl (ground (arith, fresh, ne, seen_of-insert s t (remember m (seen_of t lru)) lru))
  ]
]

check_and_insert-fresh :
    (t : Text) (m : Bytes) (lru : ReplayLru)
    → (check_and_insert t m lru).0 ≡ true
    → seen_of t (check_and_insert t m lru).1 ≡ remember m (seen_of t lru)
unfolding check_and_insert
check_and_insert-fresh t m lru h =
    ground (arith, h, seen_of-insert t t (remember m (seen_of t lru)) lru)

check_and_insert-refuses :
    (t : Text) (m : Bytes) (lru : ReplayLru)
    → contains m (seen_of t lru) ≡ true
    → (check_and_insert t m lru).0 ≡ false
unfolding check_and_insert
check_and_insert-refuses t m lru h = ground (arith, h)

-- The messages of a signer count.
abbrev pub from_signer : Text → ChatWireMessage → ℕ
from_signer s (about_me signer name nonce sig) = if text_eq signer s then 1 else 0
from_signer s (chat signer from_name text nonce sig) = if text_eq signer s then 1 else 0
from_signer s (leave signer nonce sig) = if text_eq signer s then 1 else 0
from_signer s sync = 0
from_signer s unknown = 0

-- What one message does to a window: nothing, or it is of the window's signer and its nonce is new.
abbrev Step : ℕ → List Bytes → List Bytes → Type 0
Step k old ns =
    (ns ≡ old) ⊎ ((m : Bytes) × (k ≡ 1) × (contains m old ≡ false) × (ns ≡ remember m old))

module _ (w : Wire) where
  admit-Step :
      (s : Text) (payload : Bytes → Bytes) (t : Text) (m sig : Bytes) (e : ChatGossipEvent)
      (v : Receiver)
      → Step
          (if text_eq t s then 1 else 0)
          (seen_of s v.replay)
          (seen_of s (admit w payload t m sig e v).1.replay)
  admit-Step s payload t m sig e v = elim (Option-cases (signer_pk_bytes w t)) [
    | inl none_found ↦ inl (ground (arith, none_found))
    | inr (pk, key) ↦ elim (Bool-cases (verify_msg w t (payload pk) sig)) [
      | inl good ↦ elim (seen_of-check s t m v.replay) [
        | inl same_window ↦ inl (ground (arith, key, good, same_window))
        | inr found ↦ inr (m, ground (arith, found.0), found.1, ground (arith, key, good, found.2))
      ]
      | inr bad ↦ inl (ground (arith, key, bad))
    ]
  ]

  on_message-Step :
      (s : Text) (t : Topic) (message : ChatWireMessage) (v : Receiver)
      → Step
          (from_signer s message)
          (seen_of s v.replay)
          (seen_of s (on_message w t message v).1.replay)
  unfolding on_message
  on_message-Step s t (about_me signer name nonce sig) v = admit-Step s _ signer nonce sig _ v
  on_message-Step s t (chat signer from_name text nonce sig) v = admit-Step s _ signer nonce sig _ v
  on_message-Step s t (leave signer nonce sig) v = admit-Step s _ signer nonce sig _ v
  on_message-Step s t sync v = inl (ground arith)
  on_message-Step s t unknown v = inl refl

abbrev pub nonce_of : ChatWireMessage → Bytes
nonce_of (about_me signer name nonce sig) = nonce
nonce_of (chat signer from_name text nonce sig) = nonce
nonce_of (leave signer nonce sig) = nonce
nonce_of sync = []
nonce_of unknown = []

-- How many of some messages are of a signer.
abbrev pub count_from : Text → List ChatWireMessage → ℕ
count_from s [] = 0
count_from s (m ∷ ms) = from_signer s m + count_from s ms

module _ (w : Wire) (t : Topic) where
  -- The task's state after some messages.
  abbrev pub receive_all : List ChatWireMessage → Receiver → Receiver
  receive_all [] v = v
  receive_all (m ∷ ms) v = receive_all ms (on_message w t m v).1

  on_message-Recent :
      (s : Text) (nonce : Bytes) (k : ℕ) (m : ChatWireMessage) (v : Receiver)
      → k + from_signer s m < replay_cap_per_signer
      → Recent nonce k (seen_of s v.replay)
      → Recent nonce (k + from_signer s m) (seen_of s (on_message w t m v).1.replay)
  on_message-Recent s nonce k m v lt h = elim (on_message-Step w s t m v) [
    | inl kept ↦
        subst (Recent nonce (k + from_signer s m)) (sym kept)
          (Recent-mono nonce k (k + from_signer s m) (seen_of s v.replay) (omega arith) h)
    | inr step ↦ subst (Recent nonce (k + from_signer s m)) (sym step.3) (
        subst (λ j. Recent nonce j (remember step.0 (seen_of s v.replay))) (omega (arith, step.1))
          (remember-Recent nonce step.0 k (seen_of s v.replay) (omega (arith, lt, step.1)) h))
  ]

  receive_all-Recent :
      (s : Text) (nonce : Bytes) (k : ℕ) (ms : List ChatWireMessage) (v : Receiver)
      → k + count_from s ms < replay_cap_per_signer
      → Recent nonce k (seen_of s v.replay)
      → Recent nonce (k + count_from s ms) (seen_of s (receive_all ms v).replay)
  receive_all-Recent s nonce k [] v lt h =
      Recent-mono nonce k (k + 0) (seen_of s v.replay) (omega arith) h
  receive_all-Recent s nonce k (m ∷ ms) v lt h =
      subst (λ j. Recent nonce j (seen_of s (receive_all ms (on_message w t m v).1).replay))
        (omega arith)
        (receive_all-Recent s nonce (k + from_signer s m) ms (on_message w t m v).1
          (omega (arith, lt)) (on_message-Recent s nonce k m v (omega (arith, lt)) h))

  receive_all-windows :
      (ms : List ChatWireMessage) (v : Receiver)
      → ((s : Text) → IsWindow (seen_of s v.replay))
      → (s : Text) → IsWindow (seen_of s (receive_all ms v).replay)
  receive_all-windows [] v h = h
  receive_all-windows (m ∷ ms) v h = receive_all-windows ms (on_message w t m v).1 (λ s.
      elim (on_message-Step w s t m v) [
        | inl kept ↦ subst IsWindow (sym kept) (h s)
        | inr step ↦
            subst IsWindow (sym step.3) (remember-IsWindow step.0 (seen_of s v.replay) step.2 (h s))
      ])

  -- Whatever messages the task of a room receives, it remembers at most 256 nonces of each signer, and
  -- none of them twice.
  pub receive_all-IsWindow :
      (ms : List ChatWireMessage) (s : Text)
      → IsWindow
          (seen_of s (receive_all ms (record { replay = []; pending_announce = false })).replay)
  receive_all-IsWindow ms = receive_all-windows ms _ (λ s. (omega arith, tt))

  admit-accepted :
      (payload : Bytes → Bytes) (u : Text) (m sig : Bytes) (e : ChatGossipEvent) (v : Receiver)
      → (admit w payload u m sig e v).0 ≢ []
      → Recent m 0 (seen_of u (admit w payload u m sig e v).1.replay)
  admit-accepted payload u m sig e v h = elim (Option-cases (signer_pk_bytes w u)) [
    | inl none_found ↦ absurd (h (ground (arith, none_found)))
    | inr (pk, key) ↦ elim (Bool-cases (verify_msg w u (payload pk) sig)) [
      | inl good ↦ elim (Bool-cases (check_and_insert u m v.replay).0) [
        | inl fresh ↦
            subst (Recent m 0)
              (ground (arith, key, good, check_and_insert-fresh u m v.replay fresh))
              (remember-last m (seen_of u v.replay))
        | inr dup ↦ absurd (h (ground (arith, key, good, dup)))
      ]
      | inr bad ↦ absurd (h (ground (arith, key, bad)))
    ]
  ]

  admit-refuses :
      (payload : Bytes → Bytes) (u : Text) (m sig : Bytes) (e : ChatGossipEvent) (v : Receiver)
      → contains m (seen_of u v.replay) ≡ true
      → (admit w payload u m sig e v).0 ≡ []
  admit-refuses payload u m sig e v h = elim (Option-cases (signer_pk_bytes w u)) [
    | inl none_found ↦ ground (arith, none_found)
    | inr (pk, key) ↦ ground (arith, key, check_and_insert-refuses u m v.replay h)
  ]

  on_message-accepted :
      (s : Text) (m : ChatWireMessage) (v : Receiver)
      → from_signer s m ≡ 1
      → (on_message w t m v).0 ≢ []
      → Recent (nonce_of m) 0 (seen_of s (on_message w t m v).1.replay)
  unfolding on_message
  on_message-accepted s (about_me signer name nonce sig) v h a = elim (Bytes-discrete signer s) [
    | yes e ↦
        subst
          (λ u.
            Recent nonce 0 (seen_of u (on_message w t (about_me signer name nonce sig) v).1.replay))
          e (admit-accepted _ signer nonce sig _ v a)
    | no ne ↦ absurd (ground (arith, h, ne))
  ]
  on_message-accepted s (chat signer from_name text nonce sig) v h a =
      elim (Bytes-discrete signer s) [
        | yes e ↦
            subst
              (λ u.
                Recent nonce 0
                  (seen_of u (on_message w t (chat signer from_name text nonce sig) v).1.replay))
              e (admit-accepted _ signer nonce sig _ v a)
        | no ne ↦ absurd (ground (arith, h, ne))
      ]
  on_message-accepted s (leave signer nonce sig) v h a = elim (Bytes-discrete signer s) [
    | yes e ↦
        subst (λ u. Recent nonce 0 (seen_of u (on_message w t (leave signer nonce sig) v).1.replay))
          e (admit-accepted _ signer nonce sig _ v a)
    | no ne ↦ absurd (ground (arith, h, ne))
  ]
  on_message-accepted s sync v h a = absurd (omega (arith, h))
  on_message-accepted s unknown v h a = absurd (omega (arith, h))

  on_message-refuses :
      (s : Text) (m : ChatWireMessage) (v : Receiver)
      → from_signer s m ≡ 1
      → contains (nonce_of m) (seen_of s v.replay) ≡ true
      → (on_message w t m v).0 ≡ []
  unfolding on_message
  on_message-refuses s (about_me signer name nonce sig) v h c =
      admit-refuses _ signer nonce sig _ v (ground (arith, h, c))
  on_message-refuses s (chat signer from_name text nonce sig) v h c =
      admit-refuses _ signer nonce sig _ v (ground (arith, h, c))
  on_message-refuses s (leave signer nonce sig) v h c =
      admit-refuses _ signer nonce sig _ v (ground (arith, h, c))
  on_message-refuses s sync v h c = absurd (omega (arith, h))
  on_message-refuses s unknown v h c = absurd (omega (arith, h))

  -- A signed message on which the task of a room has acted has no effect when it is received again, as
  -- long as at most 255 messages of its signer, and any number of others, have come in between.
  pub on_message-once :
      (s : Text) (m : ChatWireMessage) (between : List ChatWireMessage) (v : Receiver)
      → from_signer s m ≡ 1
      → (on_message w t m v).0 ≢ []
      → count_from s between < replay_cap_per_signer
      → (on_message w t m (receive_all between (on_message w t m v).1)).0 ≡ []
  on_message-once s m between v h a lt =
      on_message-refuses s m (receive_all between (on_message w t m v).1) h (
        Recent-contains (nonce_of m) (0 + count_from s between)
          (seen_of s (receive_all between (on_message w t m v).1).replay)
          (receive_all-Recent s (nonce_of m) 0 between (on_message w t m v).1 (omega (arith, lt))
            (on_message-accepted s m v h a)))
