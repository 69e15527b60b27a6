-- ===== src/Chat.antt =====
-- examples/rust-browser-chat-room/src/state.rs and the peer list of util.rs: the rooms that the chat
-- application shows, and the reducer of its actions. A string is the list of its characters' codes.
pub mod Wire
pub mod Replay
pub mod Refused
pub mod Signed
pub mod Commands
pub mod Joined
pub mod Rooms
pub mod Valid
mod Tests
use iroh_webrtc_messenger.Common.{
  ℕ, ◌||◌, Option, none, some, List, [], ◌∷◌, ◌++◌, Bool, true, false, not, if◌then◌else◌, leb,
  Bytes, Bytes-discrete, codes, same, length, take, drop,
}
use iroh_webrtc_messenger.Common.Maps.{get, insert}

abbrev pub Text : Type 0
Text = Bytes

abbrev pub text_eq : Text → Text → Bool
text_eq = same Bytes-discrete

abbrev pub max_bootstrap_peers : ℕ
max_bootstrap_peers = 20

-- `contains`, and `retain` of the texts that differ from one.
abbrev pub contains : Text → List Text → Bool
contains t [] = false
contains t (u ∷ us) = text_eq u t || contains t us

abbrev pub retain_ne : Text → List Text → List Text
retain_ne t [] = []
retain_ne t (u ∷ us) = if text_eq u t then retain_ne t us else u ∷ retain_ne t us

unfoldable pub add_known_peer : List Text → Text → List Text
add_known_peer peers ep =
    if contains ep peers
    then peers
    else if leb max_bootstrap_peers (length peers)
    then drop 1 peers ++ ep ∷ []
    else peers ++ ep ∷ []

pub record ChatMsg : Type 0 where
  pub from_endpoint : Text
  pub from_name : Text
  pub text : Text
  pub is_system : Bool

abbrev pub sys_msg : Text → ChatMsg
sys_msg text = record { from_endpoint = []; from_name = []; text = text; is_system = true }

pub data RoomMode : Type 0 where
  hosting : RoomMode
  joined_room : RoomMode

pub record RoomState : Type 0 where
  pub topic_id : Text
  pub room_secret : Bytes
  pub name : Text
  pub mode : RoomMode
  pub messages : List ChatMsg
  pub participants : List Text
  pub names : List (Text × Text)
  pub joined : Bool
  pub bootstrap_peers : List Text
  pub left_signers : List Text

pub record AppState : Type 0 where
  pub rooms : List RoomState
  pub active_topic : Option Text
  pub name : Text
  pub join_error : Option Text

pub data Action : Type 0 where
  set_initial : AppState → Action
  add_room : RoomState → Action
  remove_room : Text → Action
  set_active : Text → Action
  local_send : Text → ChatMsg → Action
  did_join : Text → Action
  neighbor_up : Text → Text → Action
  neighbor_down : Text → Text → Action
  recv_chat : Text → Text → Text → Text → Action
  system : Text → Text → Action
  identify : Text → Text → Text → Action
  peer_left : Text → Text → Action
  set_join_error : Option Text → Action

-- The change of the first room of a topic.
abbrev pub update_room : Text → (RoomState → RoomState) → List RoomState → List RoomState
update_room topic f [] = []
update_room topic f (r ∷ rs) =
    if text_eq r.topic_id topic then f r ∷ rs else r ∷ update_room topic f rs

abbrev pub has_topic : Text → List RoomState → Bool
has_topic topic [] = false
has_topic topic (r ∷ rs) = text_eq r.topic_id topic || has_topic topic rs

abbrev pub without_room : Text → List RoomState → List RoomState
without_room topic [] = []
without_room topic (r ∷ rs) =
    if text_eq r.topic_id topic then without_room topic rs else r ∷ without_room topic rs

abbrev pub first_topic : List RoomState → Option Text
first_topic [] = none
first_topic (r ∷ rs) = some r.topic_id

-- What a peer is shown as: its name, or the start of its endpoint and an ellipsis.
abbrev pub display_of : RoomState → Text → Text
display_of r endpoint = elim (get Bytes-discrete endpoint r.names) [
  | some name ↦ name
  | none ↦ take 12 endpoint ++ 8230 ∷ []
]

abbrev pub say : Text → RoomState → RoomState
say text r = record r { messages = r.messages ++ sys_msg text ∷ [] }

-- The changes of a room, one for each action on a topic.
unfoldable pub on_neighbor_up : Text → RoomState → RoomState
on_neighbor_up endpoint r = record r {
  participants =
      if contains endpoint r.participants then r.participants else r.participants ++ endpoint ∷ [];
  bootstrap_peers = add_known_peer r.bootstrap_peers endpoint;
  left_signers = retain_ne endpoint r.left_signers;
}

unfoldable pub on_neighbor_down : Text → RoomState → RoomState
on_neighbor_down endpoint r =
    let gone : RoomState = record r { participants = retain_ne endpoint r.participants } in
    if contains endpoint r.left_signers
    then gone
    else say (codes "*** " ++ display_of r endpoint ++ codes " disconnected") gone

unfoldable pub on_peer_left : Text → RoomState → RoomState
on_peer_left endpoint r =
    let gone : RoomState = record r {
      participants = retain_ne endpoint r.participants;
      left_signers =
          if contains endpoint r.left_signers then r.left_signers else endpoint ∷ r.left_signers;
    } in
    say (codes "*** " ++ display_of r endpoint ++ codes " left the room") gone

-- `entry(endpoint).or_insert(name)`
abbrev pub or_insert : Text → Text → List (Text × Text) → List (Text × Text)
or_insert endpoint name names = elim (get Bytes-discrete endpoint names) [
  | some known ↦ names
  | none ↦ insert Bytes-discrete endpoint name names
]

unfoldable pub on_recv_chat : Text → Text → Text → RoomState → RoomState
on_recv_chat endpoint name text r =
    let message : ChatMsg = record {
      from_endpoint = endpoint;
      from_name = name;
      text = text;
      is_system = false;
    } in
    record r { names = or_insert endpoint name r.names; messages = r.messages ++ message ∷ [] }

unfoldable pub on_identify : Text → Text → RoomState → RoomState
on_identify endpoint name r =
    let known : RoomState = record r {
      bootstrap_peers = add_known_peer r.bootstrap_peers endpoint;
    } in
    elim (get Bytes-discrete endpoint r.names) [
      | some earlier ↦ known
      | none ↦
          say (codes "*** " ++ name ++ codes " joined")
            (record known { names = insert Bytes-discrete endpoint name r.names })
    ]

abbrev pub in_room : Text → (RoomState → RoomState) → AppState → AppState
in_room topic f s = record s { rooms = update_room topic f s.rooms }

unfoldable pub reduce : AppState → Action → AppState
reduce s (set_initial t) = t
reduce s (add_room r) = record s {
  join_error = none;
  active_topic = some r.topic_id;
  rooms = if has_topic r.topic_id s.rooms then s.rooms else s.rooms ++ r ∷ [];
}
reduce s (remove_room topic) =
    let rest = without_room topic s.rooms in
    record s {
      rooms = rest;
      active_topic = elim s.active_topic [
        | some active ↦ if text_eq active topic then first_topic rest else some active
        | none ↦ none
      ];
    }
reduce s (set_active topic) = record s { active_topic = some topic }
reduce s (local_send topic msg) =
    in_room topic (λ r. record r { messages = r.messages ++ msg ∷ [] }) s
reduce s (did_join topic) = in_room topic (λ r. record r { joined = true }) s
reduce s (neighbor_up topic endpoint) = in_room topic (on_neighbor_up endpoint) s
reduce s (neighbor_down topic endpoint) = in_room topic (on_neighbor_down endpoint) s
reduce s (recv_chat topic endpoint name text) = in_room topic (on_recv_chat endpoint name text) s
reduce s (system topic text) = in_room topic (say text) s
reduce s (identify topic endpoint name) = in_room topic (on_identify endpoint name) s
reduce s (peer_left topic endpoint) = in_room topic (on_peer_left endpoint) s
reduce s (set_join_error error) = record s { join_error = error }

abbrev pub reduce_all : AppState → List Action → AppState
reduce_all s [] = s
reduce_all s (a ∷ actions) = reduce_all (reduce s a) actions
