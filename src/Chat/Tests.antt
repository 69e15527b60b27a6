-- ===== src/Chat/Tests.antt =====
-- A room of two peers whose keys verify every signature, and the theorems at it.
use iroh_webrtc_messenger.Common.{
  ◌++◌, ok, ◌<◌, Bytes-discrete, ℕ_discrete, ℕ, ◌≡◌, ◌≢◌, refl, List, [], ◌∷◌, true, false, Bytes,
  All, some, none, codes, replicate, arith, if◌then◌else◌, ◌==◌, length,
}
use mathlib.Core.List.{Memᴰ}
use iroh_webrtc_messenger.Chat.{
  text_eq, Text, RoomState, hosting, AppState, Action, add_room, neighbor_up, neighbor_down,
  recv_chat, identify, peer_left, remove_room, reduce_all, reduce, on_identify, add_known_peer,
}
use iroh_webrtc_messenger.Chat.Wire.{
  ChatWireMessage, chat, leave, Wire, Topic, Receiver, received, up, Turn, item, gossip_loop,
  on_message, seen_of, check_and_insert, verify_msg, signer_pk_bytes, chatted, sent,
}
use iroh_webrtc_messenger.Chat.Commands.{
  broadcast, said, Network, ChatGossipProtocol, Subscription, derive_room_keys, join, send, step,
  steps, joins, subscribes, leaves,
}
use iroh_webrtc_messenger.Chat.Joined.{join-send, join-join}
use iroh_webrtc_messenger.Chat.Replay.{IsWindow}
use iroh_webrtc_messenger.Chat.Refused.{
  count_from, from_signer, receive_all, receive_all-IsWindow, on_message-once,
}
use iroh_webrtc_messenger.Chat.Signed.{IsSound, gossip_loop-IsSound}
use iroh_webrtc_messenger.Chat.Rooms.{name_of, reduce_all-name_of}
use iroh_webrtc_messenger.Chat.Valid.{IsValid, reduce_all-IsValid}

abbrev nonce : ℕ → Bytes
nonce n = replicate 16 n

abbrev signature : Bytes
signature = replicate 64 7

abbrev hello : ChatWireMessage
hello = chat (codes "bob") (codes "Bob") (codes "hello") (nonce 1) signature

abbrev parting : ChatWireMessage
parting = leave (codes "bob") (nonce 2) signature

-- Messages travel unencrypted here, and the only text that parses is the greeting.
abbrev wire : Wire
wire = record {
  PublicKey = Text;
  parse = λ signer. some signer;
  as_bytes = λ key. key;
  verify = λ key message sig. true;
  decrypt_data = λ content key. some content;
  from_slice = λ plaintext. if length plaintext == 1 then some hello else none;
}

abbrev room_topic : Topic
room_topic = record {
  topic = codes "room";
  endpoint = codes "alice";
  topic_id = replicate 32 9;
  aes_key = replicate 32 3;
}

abbrev idle : Receiver
idle = record { replay = []; pending_announce = false }

greeting_test :
    (on_message wire room_topic hello idle).0
    ≡ sent (chatted (codes "room") (codes "bob") (codes "Bob") (codes "hello")) ∷ []
unfolding on_message verify_msg signer_pk_bytes check_and_insert
greeting_test = refl

receive_all-IsWindow_example :
    IsWindow (
      seen_of
        (codes "bob")
        (receive_all wire room_topic (hello ∷ parting ∷ hello ∷ []) idle).replay)
receive_all-IsWindow_example =
    receive_all-IsWindow wire room_topic (hello ∷ parting ∷ hello ∷ []) (codes "bob")

hello_acts : (on_message wire room_topic hello idle).0 ≢ []
unfolding on_message verify_msg signer_pk_bytes check_and_insert
hello_acts e = ground (arith, e)

bob_said : from_signer (codes "bob") hello ≡ 1
unfolding Bytes-discrete ℕ_discrete
bob_said = refl

bob_parted : count_from (codes "bob") (parting ∷ []) < 256
unfolding Bytes-discrete ℕ_discrete
bob_parted = omega arith

on_message-once_example :
    (on_message wire room_topic hello
      (receive_all wire room_topic (parting ∷ []) (on_message wire room_topic hello idle).1)).0
    ≡ []
on_message-once_example =
    on_message-once wire room_topic (codes "bob") hello (parting ∷ []) idle bob_said hello_acts
      bob_parted

abbrev turns : List Turn
turns = item (up (codes "bob") none) ∷ item (received (1 ∷ [])) ∷ []

gossip_loop-IsSound_example :
    All (IsSound wire room_topic (λ u. Memᴰ u turns)) (gossip_loop wire room_topic turns idle)
gossip_loop-IsSound_example = gossip_loop-IsSound wire room_topic turns idle

abbrev hosted : RoomState
hosted = record {
  topic_id = codes "room";
  room_secret = replicate 32 5;
  name = codes "Room";
  mode = hosting;
  messages = [];
  participants = [];
  names = [];
  joined = false;
  bootstrap_peers = [];
  left_signers = [];
}

abbrev start : AppState
start = record { rooms = []; active_topic = none; name = codes "Alice"; join_error = none }

abbrev chatting : AppState
chatting =
    reduce_all start (add_room hosted ∷ identify (codes "room") (codes "bob") (codes "Bob") ∷ [])

abbrev later : List Action
later =
    recv_chat (codes "room") (codes "bob") (codes "Mallory") (codes "hi")
    ∷ neighbor_up (codes "room") (codes "bob")
    ∷ peer_left (codes "room") (codes "bob")
    ∷ neighbor_down (codes "room") (codes "bob")
    ∷ remove_room (codes "other")
    ∷ []

chatting_name : name_of (codes "room") (codes "bob") chatting.rooms ≡ some (codes "Bob")
unfolding reduce on_identify add_known_peer Bytes-discrete ℕ_discrete
chatting_name = refl

other_room : text_eq (codes "other") (codes "room") ≡ false
unfolding Bytes-discrete ℕ_discrete
other_room = refl

reduce_all-name_of_example :
    name_of (codes "room") (codes "bob") (reduce_all chatting later).rooms ≡ some (codes "Bob")
reduce_all-name_of_example =
    reduce_all-name_of (codes "room") (codes "bob") (codes "Bob") later chatting
      (tt, (tt, (tt, (tt, (other_room, tt))))) chatting_name

reduce_all-IsValid_example : IsValid (reduce_all start (add_room hosted ∷ later)).rooms
reduce_all-IsValid_example =
    reduce_all-IsValid (add_room hosted ∷ later) start
      (
        record { peers = tt; few = omega arith; present = tt; left = tt },
        (tt, (tt, (tt, (tt, (tt, tt))))),
      )
      tt

-- Every text names an endpoint here, and a sender or a task is a number.
abbrev network : Network
network = record {
  GossipSender = ℕ;
  TaskHandle = ℕ;
  EndpointId = Text;
  from_str = λ peer. some peer;
  expand = λ secret info. info ++ secret;
}

abbrev protocol : ChatGossipProtocol network
protocol = record { registered = true; topics = []; keys = []; tasks = [] }

abbrev secret : Bytes
secret = replicate 32 5

abbrev waiting : Subscription network
waiting = record {
  topic = codes "room";
  room_keys = derive_room_keys network secret;
  peers = codes "bob" ∷ [];
}

join_waits : (join network protocol (codes "room") secret (codes "bob" ∷ [])).0 ≡ ok (some waiting)
unfolding join derive_room_keys
join_waits = refl

join-send_example :
    send network
      (steps network
        (step network
          (steps network
            (join network protocol (codes "room") secret (codes "bob" ∷ [])).2
            (leaves (codes "other") ∷ []))
          (subscribes waiting (some (1, 2))))
        (joins (codes "other") secret [] ∷ []))
      (codes "room")
      (codes "Alice")
      (codes "hi")
    ≡ ok (
        broadcast 1 (derive_room_keys network secret).aes_key (said (codes "Alice") (codes "hi"))
        ∷ [])
unfolding Bytes-discrete ℕ_discrete
join-send_example =
    join-send network protocol (codes "room") secret (codes "bob" ∷ []) waiting
      (leaves (codes "other") ∷ []) (joins (codes "other") secret [] ∷ []) 1 2 (codes "Alice")
      (codes "hi") join_waits (other_room, tt) (tt, tt)

join-join_example :
    (join network
      (join network protocol (codes "room") secret (codes "bob" ∷ [])).2
      (codes "room")
      secret
      []).0
    ≡ ok (
        some (record {
          topic = codes "room";
          room_keys = derive_room_keys network secret;
          peers = [];
        }))
join-join_example =
    join-join network protocol (codes "room") secret secret (codes "bob" ∷ []) [] waiting []
      join_waits refl
