-- ===== src/Chat/Rooms.antt =====
-- What the reducer of examples/rust-browser-chat-room/src/state.rs keeps: the rooms have different
-- topics, the lists of a room hold no endpoint twice, and a peer's name stays what it was first.
use iroh_webrtc_messenger.Common.{
  ◌≡◌, refl, ap, ◌∙◌, List, [], ◌∷◌, ◌++◌, false, Option, Bytes-discrete, All, if◌then◌else◌, some,
  none, arith, Bool-cases, Option-cases, inl, inr,
}
use iroh_webrtc_messenger.Common.Maps.{get, get-insert}
use iroh_webrtc_messenger.Chat.{
  Text, text_eq, contains, RoomState, AppState, Action, set_initial, add_room, remove_room,
  set_active, local_send, did_join, neighbor_up, neighbor_down, recv_chat, system, identify,
  peer_left, set_join_error, update_room, has_topic, without_room, on_neighbor_up, on_neighbor_down,
  on_peer_left, on_recv_chat, on_identify, reduce, reduce_all,
}

-- The name that a room shows for an endpoint.
abbrev pub name_of : Text → Text → List RoomState → Option Text
name_of topic endpoint [] = none
name_of topic endpoint (r ∷ rs) =
    if text_eq r.topic_id topic
    then get Bytes-discrete endpoint r.names
    else name_of topic endpoint rs

-- The actions that leave a topic's room there.
abbrev pub Keeps : Text → Action → Type 0
Keeps topic (set_initial s) = ⊥
Keeps topic (remove_room removed) = text_eq removed topic ≡ false
Keeps topic _ = Unit

name_of-append :
    (topic endpoint name : Text) (rs : List RoomState) (r : RoomState)
    → name_of topic endpoint rs ≡ some name
    → name_of topic endpoint (rs ++ r ∷ []) ≡ some name
name_of-append topic endpoint name [] r h = absurd (ground (arith, h))
name_of-append topic endpoint name (q ∷ rs) r h = elim (Bool-cases (text_eq q.topic_id topic)) [
  | inl here ↦ ground (arith, here, h)
  | inr there ↦
      ground (arith, there, h, name_of-append topic endpoint name rs r (ground (arith, there, h)))
]

name_of-without_room :
    (topic endpoint removed : Text) (rs : List RoomState)
    → text_eq removed topic ≡ false
    → name_of topic endpoint (without_room removed rs) ≡ name_of topic endpoint rs
name_of-without_room topic endpoint removed [] h = refl
name_of-without_room topic endpoint removed (q ∷ rs) h =
    ground (arith, h, name_of-without_room topic endpoint removed rs h)

-- A change of a room that keeps its topic and what it knows of names keeps them for all rooms.
name_of-update_room :
    (f : RoomState → RoomState) (topic endpoint name changed : Text) (rs : List RoomState)
    → ((r : RoomState) → (f r).topic_id ≡ r.topic_id)
    → ((r : RoomState)
        → get Bytes-discrete endpoint r.names ≡ some name
        → get Bytes-discrete endpoint (f r).names ≡ some name)
    → name_of topic endpoint rs ≡ some name
    → name_of topic endpoint (update_room changed f rs) ≡ some name
name_of-update_room f topic endpoint name changed [] k g h = absurd (ground (arith, h))
name_of-update_room f topic endpoint name changed (q ∷ rs) k g h =
    elim (Bool-cases (text_eq q.topic_id changed)) [
      | inl here ↦ elim (Bool-cases (text_eq q.topic_id topic)) [
        | inl it ↦ ground (arith, here, it, k q, g q (ground (arith, h, it)))
        | inr other ↦ ground (arith, here, other, h, k q)
      ]
      | inr there ↦ elim (Bool-cases (text_eq q.topic_id topic)) [
        | inl it ↦ ground (arith, there, it, h)
        | inr other ↦ ground (
          arith,
          there,
          other,
          h,
          name_of-update_room f topic endpoint name changed rs k g (ground (arith, h, other)),
        )
      ]
    ]

on_recv_chat-names :
    (endpoint name e n text : Text) (r : RoomState)
    → get Bytes-discrete endpoint r.names ≡ some name
    → get Bytes-discrete endpoint (on_recv_chat e n text r).names ≡ some name
unfolding on_recv_chat
on_recv_chat-names endpoint name e n text r h =
    ground (arith, h, get-insert Bytes-discrete e endpoint n r.names)

on_identify-names :
    (endpoint name e n : Text) (r : RoomState)
    → get Bytes-discrete endpoint r.names ≡ some name
    → get Bytes-discrete endpoint (on_identify e n r).names ≡ some name
unfolding on_identify
on_identify-names endpoint name e n r h = elim (Option-cases (get Bytes-discrete e r.names)) [
  | inl new ↦ ground (arith, h, new, get-insert Bytes-discrete e endpoint n r.names)
  | inr (known, old) ↦ ground (arith, h, old)
]

pub on_neighbor_down-keeps :
    (e : Text) (r : RoomState)
    → ((on_neighbor_down e r).topic_id ≡ r.topic_id) × ((on_neighbor_down e r).names ≡ r.names)
unfolding on_neighbor_down
on_neighbor_down-keeps e r = elim (Bool-cases (contains e r.left_signers)) [
  | inl left ↦ ground (arith, left)
  | inr there ↦ ground (arith, there)
]

pub on_identify-topic_id : (e n : Text) (r : RoomState) → (on_identify e n r).topic_id ≡ r.topic_id
unfolding on_identify
on_identify-topic_id e n r = ground arith

reduce-name_of :
    (topic endpoint name : Text) (s : AppState) (a : Action)
    → Keeps topic a
    → name_of topic endpoint s.rooms ≡ some name
    → name_of topic endpoint (reduce s a).rooms ≡ some name
unfolding reduce on_neighbor_up on_peer_left on_recv_chat
reduce-name_of topic endpoint name s (set_initial t) k h = absurd k
reduce-name_of topic endpoint name s (add_room r) k h =
    elim (Bool-cases (has_topic r.topic_id s.rooms)) [
      | inl known ↦ ground (arith, known, h)
      | inr fresh ↦ ground (arith, fresh, name_of-append topic endpoint name s.rooms r h)
    ]
reduce-name_of topic endpoint name s (remove_room removed) k h =
    name_of-without_room topic endpoint removed s.rooms k ∙ h
reduce-name_of topic endpoint name s (set_active t) k h = h
reduce-name_of topic endpoint name s (local_send t msg) k h =
    name_of-update_room _ topic endpoint name t s.rooms (λ r. refl) (λ r g. g) h
reduce-name_of topic endpoint name s (did_join t) k h =
    name_of-update_room _ topic endpoint name t s.rooms (λ r. refl) (λ r g. g) h
reduce-name_of topic endpoint name s (neighbor_up t e) k h =
    name_of-update_room _ topic endpoint name t s.rooms (λ r. refl) (λ r g. g) h
reduce-name_of topic endpoint name s (neighbor_down t e) k h =
    name_of-update_room _ topic endpoint name t s.rooms (λ r. (on_neighbor_down-keeps e r).0)
      (λ r g. ap (get Bytes-discrete endpoint) (on_neighbor_down-keeps e r).1 ∙ g) h
reduce-name_of topic endpoint name s (recv_chat t e n text) k h =
    name_of-update_room _ topic endpoint name t s.rooms (λ r. refl)
      (on_recv_chat-names endpoint name e n text) h
reduce-name_of topic endpoint name s (system t text) k h =
    name_of-update_room _ topic endpoint name t s.rooms (λ r. refl) (λ r g. g) h
reduce-name_of topic endpoint name s (identify t e n) k h =
    name_of-update_room _ topic endpoint name t s.rooms (on_identify-topic_id e n)
      (on_identify-names endpoint name e n) h
reduce-name_of topic endpoint name s (peer_left t e) k h =
    name_of-update_room _ topic endpoint name t s.rooms (λ r. refl) (λ r g. g) h
reduce-name_of topic endpoint name s (set_join_error error) k h = h

-- Once a room shows a name for an endpoint, it shows the same name after any actions that neither
-- replace the whole state nor remove the room.
pub reduce_all-name_of :
    (topic endpoint name : Text) (actions : List Action) (s : AppState)
    → All (Keeps topic) actions
    → name_of topic endpoint s.rooms ≡ some name
    → name_of topic endpoint (reduce_all s actions).rooms ≡ some name
reduce_all-name_of topic endpoint name [] s k h = h
reduce_all-name_of topic endpoint name (a ∷ actions) s k h =
    reduce_all-name_of topic endpoint name actions (reduce s a) k.1
      (reduce-name_of topic endpoint name s a k.0 h)
