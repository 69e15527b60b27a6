-- ===== src/Chat/Commands.antt =====
-- examples/rust-browser-chat-room/src/protocol.rs (`handle_command`) and `derive_room_keys` of
-- crypto.rs: joining a topic, sending to it and leaving it. Other commands may run while a join waits
-- for its subscription, so a join is two steps.
use iroh_webrtc_messenger.Common.{
  Option, none, some, List, [], ◌∷◌, Bool, not, ok, err, Result, ◌>>=◌, ◌>>◌, fail_if, Bytes,
  Bytes-discrete, codes, ◌++◌,
}
use iroh_webrtc_messenger.Common.Maps.{get, insert, remove}
use iroh_webrtc_messenger.Chat.{Text}
use iroh_webrtc_messenger.Chat.Wire.{ChatGossipEvent, joined}

pub record RoomKeys : Type 0 where
  pub topic_id : Bytes
  pub aes_key : Bytes

-- What the commands take of iroh-gossip and of HKDF-SHA256: senders, tasks, the parser of endpoint
-- ids and the expansion of a secret for a purpose.
pub record Network : Type 1 where
  pub GossipSender : Type 0
  pub TaskHandle : Type 0
  pub EndpointId : Type 0
  pub from_str : Text → Option EndpointId
  pub expand : Bytes → Bytes → Bytes

-- A failure, `Error::WebRtc` with its text, or without the text where it is another error's.
pub data Failure : Type 0 where
  web_rtc : Text → Failure
  from_display : Failure

-- What a command broadcasts; the signing of it is `sign_msg` of the payload that Chat.Wire writes.
pub data Announcement : Type 0 where
  announce_and_sync : Announcement
  said : Text → Text → Announcement
  departed : Announcement

module _ (g : Network) where
  pub record ChatGossipProtocol : Type 0 where
    pub registered : Bool
    pub topics : List (Text × g.GossipSender)
    pub keys : List (Text × RoomKeys)
    pub tasks : List (Text × g.TaskHandle)

  pub data Output : Type 0 where
    sent : ChatGossipEvent → Output
    broadcast : g.GossipSender → Bytes → Announcement → Output

  -- A join that waits for its subscription.
  pub record Subscription : Type 0 where
    pub topic : Text
    pub room_keys : RoomKeys
    pub peers : List g.EndpointId

  unfoldable pub derive_room_keys : Bytes → RoomKeys
  derive_room_keys secret = record {
    topic_id = g.expand secret (codes "iroh-messenger/topic-id/v1");
    aes_key = g.expand secret (codes "iroh-messenger/aes-key/v1");
  }

  abbrev pub parse_peers : List Text → Result Failure (List g.EndpointId)
  parse_peers [] = ok []
  parse_peers (p ∷ ps) = elim (g.from_str p) [
    | none ↦ err from_display
    | some e ↦ do rest ← parse_peers ps; ok (e ∷ rest)
  ]

  -- A join up to its subscription. One of a topic that is subscribed announces itself and is done.
  unfoldable pub join :
      ChatGossipProtocol
      → Text
      → Bytes
      → List Text
      → Result Failure (Option Subscription) × List Output × ChatGossipProtocol
  join c topic secret peers =
      let k : RoomKeys = derive_room_keys secret in
      let keyed : ChatGossipProtocol = record c { keys = insert Bytes-discrete topic k c.keys } in
      elim (get Bytes-discrete topic c.topics) [
        | some sender ↦ (
          ok none,
          sent (joined topic) ∷ broadcast sender k.aes_key announce_and_sync ∷ [],
          keyed,
        )
        | none ↦ (
          do
            ids ← parse_peers peers
            fail_if (not c.registered) (web_rtc (codes "gossip not yet registered"))
            ok (some (record { topic = topic; room_keys = k; peers = ids })),
          [],
          keyed,
        )
      ]

  -- The rest of a join, with what the subscription gave.
  unfoldable pub subscribed :
      ChatGossipProtocol
      → Subscription
      → Option (g.GossipSender × g.TaskHandle)
      → Result Failure (Unit {0}) × List Output × ChatGossipProtocol
  subscribed c s none = (err from_display, [], c)
  subscribed c s (some (sender, task)) = (
    ok tt,
    sent (joined s.topic) ∷ broadcast sender s.room_keys.aes_key announce_and_sync ∷ [],
    record c {
      topics = insert Bytes-discrete s.topic sender c.topics;
      tasks = insert Bytes-discrete s.topic task c.tasks;
    },
  )

  unfoldable pub send : ChatGossipProtocol → Text → Text → Text → Result Failure (List Output)
  send c topic from_name text = elim (get Bytes-discrete topic c.topics) [
    | none ↦ err (web_rtc (codes "not joined to " ++ topic))
    | some sender ↦ elim (get Bytes-discrete topic c.keys) [
      | none ↦ err (web_rtc (codes "no key for " ++ topic))
      | some k ↦ ok (broadcast sender k.aes_key (said from_name text) ∷ [])
    ]
  ]

  unfoldable pub leave : ChatGossipProtocol → Text → List Output × ChatGossipProtocol
  leave c topic = (
    elim (get Bytes-discrete topic c.topics) [
      | none ↦ []
      | some sender ↦ elim (get Bytes-discrete topic c.keys) [
        | none ↦ []
        | some k ↦ broadcast sender k.aes_key departed ∷ []
      ]
    ],
    record c {
      topics = remove Bytes-discrete topic c.topics;
      keys = remove Bytes-discrete topic c.keys;
      tasks = remove Bytes-discrete topic c.tasks;
    },
  )

  -- A step of the commands in flight, and the protocol after some of them.
  pub data Step : Type 0 where
    joins : Text → Bytes → List Text → Step
    subscribes : Subscription → Option (g.GossipSender × g.TaskHandle) → Step
    sends : Text → Text → Text → Step
    leaves : Text → Step

  unfoldable pub step : ChatGossipProtocol → Step → ChatGossipProtocol
  step c (joins topic secret peers) = (join c topic secret peers).2
  step c (subscribes s o) = (subscribed c s o).2
  step c (sends topic from_name text) = c
  step c (leaves topic) = (leave c topic).1

  abbrev pub steps : ChatGossipProtocol → List Step → ChatGossipProtocol
  steps c [] = c
  steps c (s ∷ rest) = steps (step c s) rest
