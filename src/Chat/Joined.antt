-- ===== src/Chat/Joined.antt =====
-- Joining a topic in examples/rust-browser-chat-room/src/protocol.rs, with other commands in between.
use iroh_webrtc_messenger.Common.{
  true, false, if◌then◌else◌, Bool, ap, ◌∙◌, refl, ◌≡◌, none, some, List, [], ◌∷◌, false, ok, Bytes,
  Bytes-discrete, arith, All, Bool-cases, Option-cases, Result-cases, inl, inr,
}
use iroh_webrtc_messenger.Common.Maps.{get, insert, remove, get-insert, get-remove}
use iroh_webrtc_messenger.Chat.{Text, text_eq}
use iroh_webrtc_messenger.Chat.Commands.{
  Network, ChatGossipProtocol, broadcast, said, Subscription, derive_room_keys, parse_peers, join,
  subscribed, send, leave, Step, joins, subscribes, sends, leaves, step, steps,
}

-- The steps that do not leave a topic.
abbrev pub Stays : {g : Network} → Text → Step g → Type 0
Stays topic (leaves left) = text_eq left topic ≡ false
Stays topic _ = Unit

-- The sender that a topic was last subscribed with, and the secret that it was last joined with, where
-- the steps do not leave it.
abbrev pub latest_sender : {g : Network} → Text → g.GossipSender → List (Step g) → g.GossipSender
latest_sender t sender [] = sender
latest_sender t sender (subscribes s (some (new, task)) ∷ rest) =
    latest_sender t (if text_eq s.topic t then new else sender) rest
latest_sender t sender (subscribes s none ∷ rest) = latest_sender t sender rest
latest_sender t sender (joins u secret peers ∷ rest) = latest_sender t sender rest
latest_sender t sender (sends u from_name text ∷ rest) = latest_sender t sender rest
latest_sender t sender (leaves u ∷ rest) = latest_sender t sender rest

abbrev pub latest_secret : {g : Network} → Text → Bytes → List (Step g) → Bytes
latest_secret t secret [] = secret
latest_secret t secret (joins u new peers ∷ rest) =
    latest_secret t (if text_eq u t then new else secret) rest
latest_secret t secret (subscribes s o ∷ rest) = latest_secret t secret rest
latest_secret t secret (sends u from_name text ∷ rest) = latest_secret t secret rest
latest_secret t secret (leaves u ∷ rest) = latest_secret t secret rest

module _ {V : Type 0} where
  get-insert_if :
      (t u : Text) (new v : V) (m : List (Text × V))
      → get Bytes-discrete t m ≡ some v
      → get Bytes-discrete t (insert Bytes-discrete u new m) ≡ some (if text_eq u t then new else v)
  get-insert_if t u new v m h = ground (arith, h, get-insert Bytes-discrete u t new m)

  get-remove_other :
      (t u : Text) (v : V) (m : List (Text × V))
      → text_eq u t ≡ false
      → get Bytes-discrete t m ≡ some v
      → get Bytes-discrete t (remove Bytes-discrete u m) ≡ some v
  get-remove_other t u v m ne h = ground (arith, ne, h, get-remove Bytes-discrete u t m)

module _ (g : Network) where
  join-keys :
      (c : ChatGossipProtocol g) (t : Text) (secret : Bytes) (peers : List Text)
      → ((join g c t secret peers).2.keys
          ≡ insert Bytes-discrete t (derive_room_keys g secret) c.keys)
        × ((join g c t secret peers).2.topics ≡ c.topics)
        × ((join g c t secret peers).2.tasks ≡ c.tasks)
  unfolding join
  join-keys c t secret peers = elim (Option-cases (get Bytes-discrete t c.topics)) [
    | inl new ↦ (ground (arith, new), ground (arith, new), ground (arith, new))
    | inr (sender, known) ↦ (ground (arith, known), ground (arith, known), ground (arith, known))
  ]

  key_of_if :
      (b : Bool) (x y : Bytes)
      → (if b then derive_room_keys g x else derive_room_keys g y)
        ≡ derive_room_keys g (if b then x else y)
  key_of_if true x y = refl
  key_of_if false x y = refl

  steps-keys :
      (ss : List (Step g)) (c : ChatGossipProtocol g) (t : Text) (secret : Bytes)
      → All (Stays t) ss
      → get Bytes-discrete t c.keys ≡ some (derive_room_keys g secret)
      → get Bytes-discrete t (steps g c ss).keys
        ≡ some (derive_room_keys g (latest_secret t secret ss))
  unfolding step subscribed leave
  steps-keys [] c t secret st h = h
  steps-keys (joins u new peers ∷ ss) c t secret st h =
      steps-keys ss (step g c (joins u new peers)) t (if text_eq u t then new else secret) st.1 (
        ap (get Bytes-discrete t) (join-keys c u new peers).0
        ∙ get-insert_if t u (derive_room_keys g new) (derive_room_keys g secret) c.keys h
        ∙ ap some (key_of_if (text_eq u t) new secret))
  steps-keys (subscribes s none ∷ ss) c t secret st h = steps-keys ss c t secret st.1 h
  steps-keys (subscribes s (some (sender, task)) ∷ ss) c t secret st h =
      steps-keys ss (step g c (subscribes s (some (sender, task)))) t secret st.1 h
  steps-keys (sends u from_name text ∷ ss) c t secret st h = steps-keys ss c t secret st.1 h
  steps-keys (leaves u ∷ ss) c t secret st h =
      steps-keys ss (step g c (leaves u)) t secret st.1
        (get-remove_other t u (derive_room_keys g secret) c.keys st.0 h)

  steps-topics :
      (ss : List (Step g)) (c : ChatGossipProtocol g) (t : Text) (sender : g.GossipSender)
      → All (Stays t) ss
      → get Bytes-discrete t c.topics ≡ some sender
      → get Bytes-discrete t (steps g c ss).topics ≡ some (latest_sender t sender ss)
  unfolding step subscribed leave
  steps-topics [] c t sender st h = h
  steps-topics (joins u secret peers ∷ ss) c t sender st h =
      steps-topics ss (step g c (joins u secret peers)) t sender st.1
        (ap (get Bytes-discrete t) (join-keys c u secret peers).1 ∙ h)
  steps-topics (subscribes s none ∷ ss) c t sender st h = steps-topics ss c t sender st.1 h
  steps-topics (subscribes s (some (new, task)) ∷ ss) c t sender st h =
      steps-topics ss (step g c (subscribes s (some (new, task)))) t
        (if text_eq s.topic t then new else sender) st.1
        (get-insert_if t s.topic new sender c.topics h)
  steps-topics (sends u from_name text ∷ ss) c t sender st h = steps-topics ss c t sender st.1 h
  steps-topics (leaves u ∷ ss) c t sender st h =
      steps-topics ss (step g c (leaves u)) t sender st.1
        (get-remove_other t u sender c.topics st.0 h)

  join-topic :
      (c : ChatGossipProtocol g) (t : Text) (secret : Bytes) (peers : List Text)
      (s : Subscription g)
      → (join g c t secret peers).0 ≡ ok (some s)
      → (get Bytes-discrete t c.topics ≡ none) × (s.topic ≡ t)
  unfolding join
  join-topic c t secret peers s h = elim (Option-cases (get Bytes-discrete t c.topics)) [
    | inr (sender, known) ↦ absurd (ground (arith, h, known))
    | inl new ↦ elim (Result-cases (parse_peers g peers)) [
      | inr (e, bad) ↦ absurd (ground (arith, h, new, bad))
      | inl (ids, good) ↦ elim (Bool-cases c.registered) [
        | inr off ↦ absurd (ground (arith, h, new, good, off))
        | inl on ↦ (new, ground (arith, h, new, good, on))
      ]
    ]
  ]

  -- A join that waits for its subscription, and then gets it, lets texts be sent to its topic until
  -- the topic is left, whatever other joins, subscriptions, messages and departures are handled while
  -- it waits and afterwards: sending broadcasts exactly the text with the name given, by the sender of
  -- the latest subscription of the topic and under the key of its latest join.
  pub join-send :
      (c : ChatGossipProtocol g) (t : Text) (secret : Bytes) (peers : List Text)
      (s : Subscription g) (between later : List (Step g)) (sender : g.GossipSender)
      (task : g.TaskHandle) (from_name text : Text)
      → (join g c t secret peers).0 ≡ ok (some s)
      → All (Stays t) between
      → All (Stays t) later
      → send g
          (steps g
            (step g
              (steps g (join g c t secret peers).2 between)
              (subscribes s (some (sender, task))))
            later)
          t
          from_name
          text
        ≡ ok (
            broadcast
              (latest_sender t sender later)
              (derive_room_keys g (latest_secret t (latest_secret t secret between) later)).aes_key
              (said from_name text)
            ∷ [])
  unfolding send step subscribed
  join-send c t secret peers s between later sender task from_name text h b l =
      let c1 = steps g (join g c t secret peers).2 between in
      let c2 = step g c1 (subscribes s (some (sender, task))) in
      let joined_secret = latest_secret t secret between in
      let fresh : get Bytes-discrete t (insert Bytes-discrete s.topic sender c1.topics)
          ≡ some sender =
        ground (
          arith,
          (join-topic c t secret peers s h).1,
          get-insert Bytes-discrete s.topic t sender c1.topics,
        ) in
      let keyed : get Bytes-discrete t (join g c t secret peers).2.keys
          ≡ some (derive_room_keys g secret) =
        ap (get Bytes-discrete t) (join-keys c t secret peers).0
        ∙ ground (arith, get-insert Bytes-discrete t t (derive_room_keys g secret) c.keys) in
      let sending = steps-topics later c2 t sender l fresh in
      let key =
        steps-keys later c2 t joined_secret l
          (steps-keys between (join g c t secret peers).2 t secret b keyed) in
      ground (arith, sending, key)

  -- While a join of a topic waits for its subscription, a second join of the topic, with peers that
  -- parse too, goes on to subscribe to it as well.
  pub join-join :
      (c : ChatGossipProtocol g) (t : Text) (secret again : Bytes) (peers others : List Text)
      (s : Subscription g) (ids : List g.EndpointId)
      → (join g c t secret peers).0 ≡ ok (some s)
      → parse_peers g others ≡ ok ids
      → (join g (join g c t secret peers).2 t again others).0
        ≡ ok (some (record { topic = t; room_keys = derive_room_keys g again; peers = ids }))
  unfolding join
  join-join c t secret again peers others s ids h parsed =
      elim (Option-cases (get Bytes-discrete t c.topics)) [
        | inr (sender, known) ↦ absurd (ground (arith, h, known))
        | inl new ↦ elim (Result-cases (parse_peers g peers)) [
          | inr (e, bad) ↦ absurd (ground (arith, h, new, bad))
          | inl (ids0, good) ↦ elim (Bool-cases c.registered) [
            | inr off ↦ absurd (ground (arith, h, new, good, off))
            | inl on ↦ ground (arith, new, on, parsed)
          ]
        ]
      ]
