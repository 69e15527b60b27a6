-- ===== src/Chat/Valid.antt =====
-- That examples/rust-browser-chat-room/src/state.rs keeps its lists apart: rooms by their topics, and
-- the endpoints of each list of a room, of which it remembers twenty to join by.
use iroh_webrtc_messenger.Common.{
  ◌≤◌, ◌≡◌, refl, subst, ap, ◌∙◌, List, [], ◌∷◌, ◌++◌, false, ◌||◌, All, length, length-append,
  drop, leb, if◌then◌else◌, arith, Bool-cases, inl, inr,
}
use iroh_webrtc_messenger.Chat.{
  Text, text_eq, contains, retain_ne, add_known_peer, max_bootstrap_peers, RoomState, AppState,
  Action, set_initial, add_room, remove_room, set_active, local_send, did_join, neighbor_up,
  neighbor_down, recv_chat, system, identify, peer_left, set_join_error, update_room, has_topic,
  without_room, on_neighbor_up, on_neighbor_down, on_peer_left, on_recv_chat, on_identify, reduce,
  reduce_all,
}
use iroh_webrtc_messenger.Chat.Replay.{Distinct, Distinct-append, Distinct-drop, contains-drop}
use iroh_webrtc_messenger.Chat.Rooms.{on_neighbor_down-keeps, on_identify-topic_id}

pub record RoomIsValid (r : RoomState) : Type 0 where
  pub peers : Distinct r.bootstrap_peers
  pub few : length r.bootstrap_peers ≤ max_bootstrap_peers
  pub present : Distinct r.participants
  pub left : Distinct r.left_signers

-- The rooms have different topics and are valid.
abbrev pub IsValid : List RoomState → Type 0
IsValid [] = Unit
IsValid (r ∷ rs) = (has_topic r.topic_id rs ≡ false) × RoomIsValid r × IsValid rs

-- What an action may bring from outside: a stored state, or a room.
abbrev pub Brings : Action → Type 0
Brings (set_initial s) = IsValid s.rooms
Brings (add_room r) = RoomIsValid r
Brings _ = Unit

contains-retain_ne :
    (n e : Text) (ns : List Text) → contains n ns ≡ false → contains n (retain_ne e ns) ≡ false
contains-retain_ne n e [] h = refl
contains-retain_ne n e (m ∷ ns) h = elim (Bool-cases (text_eq m e)) [
  | inl gone ↦ ground (arith, gone, h, contains-retain_ne n e ns (ground (arith, h)))
  | inr kept ↦ ground (arith, kept, h, contains-retain_ne n e ns (ground (arith, h)))
]

Distinct-retain_ne : (e : Text) (ns : List Text) → Distinct ns → Distinct (retain_ne e ns)
Distinct-retain_ne e [] d = tt
Distinct-retain_ne e (m ∷ ns) d = elim (Bool-cases (text_eq m e)) [
  | inl gone ↦
      subst Distinct {x = retain_ne e ns} (ground (arith, gone)) (Distinct-retain_ne e ns d.1)
  | inr kept ↦
      subst Distinct {x = m ∷ retain_ne e ns} (ground (arith, kept))
        (contains-retain_ne m e ns d.0, Distinct-retain_ne e ns d.1)
]

-- A list that takes an element unless it is there holds it once.
Distinct-add :
    (e : Text) (ns : List Text)
    → Distinct ns
    → Distinct (if contains e ns then ns else ns ++ e ∷ [])
Distinct-add e ns d = elim (Bool-cases (contains e ns)) [
  | inl there ↦ subst Distinct {x = ns} (ground (arith, there)) d
  | inr new ↦ subst Distinct {x = ns ++ e ∷ []} (ground (arith, new)) (Distinct-append e ns new d)
]

Distinct-cons :
    (e : Text) (ns : List Text) → Distinct ns → Distinct (if contains e ns then ns else e ∷ ns)
Distinct-cons e ns d = elim (Bool-cases (contains e ns)) [
  | inl there ↦ subst Distinct {x = ns} (ground (arith, there)) d
  | inr new ↦ subst Distinct {x = e ∷ ns} (ground (arith, new)) (new, d)
]

Distinct-add_known_peer : (ns : List Text) (e : Text) → Distinct ns → Distinct (add_known_peer ns e)
unfolding add_known_peer
Distinct-add_known_peer ns e d = elim (Bool-cases (contains e ns)) [
  | inl there ↦ subst Distinct {x = ns} (ground (arith, there)) d
  | inr new ↦ elim (Bool-cases (leb max_bootstrap_peers (length ns))) [
    | inl full ↦
        subst Distinct {x = drop 1 ns ++ e ∷ []} (ground (arith, new, full))
          (Distinct-append e (drop 1 ns) (contains-drop e ns new) (Distinct-drop ns d))
    | inr room ↦
        subst Distinct {x = ns ++ e ∷ []} (ground (arith, new, room)) (Distinct-append e ns new d)
  ]
]

length-add_known_peer :
    (ns : List Text) (e : Text)
    → length ns ≤ max_bootstrap_peers
    → length (add_known_peer ns e) ≤ max_bootstrap_peers
unfolding add_known_peer
length-add_known_peer [] e h = omega arith
length-add_known_peer (n ∷ ns) e h = ground (arith, h, length-append ns (e ∷ []))

on_neighbor_up-IsValid :
    (e : Text) (r : RoomState) → RoomIsValid r → RoomIsValid (on_neighbor_up e r)
unfolding on_neighbor_up
on_neighbor_up-IsValid e r v = record {
  peers = Distinct-add_known_peer r.bootstrap_peers e v.peers;
  few = length-add_known_peer r.bootstrap_peers e v.few;
  present = Distinct-add e r.participants v.present;
  left = Distinct-retain_ne e r.left_signers v.left;
}

on_neighbor_down-IsValid :
    (e : Text) (r : RoomState) → RoomIsValid r → RoomIsValid (on_neighbor_down e r)
unfolding on_neighbor_down
on_neighbor_down-IsValid e r v = elim (Bool-cases (contains e r.left_signers)) [
  | inl left ↦ record {
    peers = subst Distinct {x = r.bootstrap_peers} (ground (arith, left)) v.peers;
    few = ground (arith, left, v.few);
    present =
        subst Distinct {x = retain_ne e r.participants} (ground (arith, left))
          (Distinct-retain_ne e r.participants v.present);
    left = subst Distinct {x = r.left_signers} (ground (arith, left)) v.left;
  }
  | inr there ↦ record {
    peers = subst Distinct {x = r.bootstrap_peers} (ground (arith, there)) v.peers;
    few = ground (arith, there, v.few);
    present =
        subst Distinct {x = retain_ne e r.participants} (ground (arith, there))
          (Distinct-retain_ne e r.participants v.present);
    left = subst Distinct {x = r.left_signers} (ground (arith, there)) v.left;
  }
]

on_peer_left-IsValid : (e : Text) (r : RoomState) → RoomIsValid r → RoomIsValid (on_peer_left e r)
unfolding on_peer_left
on_peer_left-IsValid e r v = record {
  peers = v.peers;
  few = v.few;
  present = Distinct-retain_ne e r.participants v.present;
  left = Distinct-cons e r.left_signers v.left;
}

-- A change that keeps the lists of endpoints keeps a room valid.
same_lists :
    (r q : RoomState)
    → RoomIsValid r
    → (r.bootstrap_peers ≡ q.bootstrap_peers)
    → (r.participants ≡ q.participants)
    → (r.left_signers ≡ q.left_signers)
    → RoomIsValid q
same_lists r q v a b c = record {
  peers = subst Distinct a v.peers;
  few = ground (arith, v.few, ap length a);
  present = subst Distinct b v.present;
  left = subst Distinct c v.left;
}

on_identify-IsValid : (e n : Text) (r : RoomState) → RoomIsValid r → RoomIsValid (on_identify e n r)
unfolding on_identify
on_identify-IsValid e n r v =
    let known : RoomState = record r { bootstrap_peers = add_known_peer r.bootstrap_peers e } in
    same_lists known (on_identify e n r)
      (record {
        peers = Distinct-add_known_peer r.bootstrap_peers e v.peers;
        few = length-add_known_peer r.bootstrap_peers e v.few;
        present = v.present;
        left = v.left;
      })
      (ground arith) (ground arith) (ground arith)

has_topic-update_room :
    (f : RoomState → RoomState) (t u : Text) (rs : List RoomState)
    → ((r : RoomState) → (f r).topic_id ≡ r.topic_id)
    → has_topic u (update_room t f rs) ≡ has_topic u rs
has_topic-update_room f t u [] k = refl
has_topic-update_room f t u (r ∷ rs) k = ground (arith, k r, has_topic-update_room f t u rs k)

-- A change of one room that keeps its topic and keeps it valid keeps all rooms valid.
update_room-IsValid :
    (f : RoomState → RoomState) (t : Text) (rs : List RoomState)
    → ((r : RoomState) → (f r).topic_id ≡ r.topic_id)
    → ((r : RoomState) → RoomIsValid r → RoomIsValid (f r))
    → IsValid rs
    → IsValid (update_room t f rs)
update_room-IsValid f t [] k g v = tt
update_room-IsValid f t (r ∷ rs) k g v = elim (Bool-cases (text_eq r.topic_id t)) [
  | inl here ↦
      subst IsValid {x = f r ∷ rs} (ground (arith, here))
        (ap (λ u. has_topic u rs) (k r) ∙ v.0, g r v.1, v.2)
  | inr there ↦
      subst IsValid {x = r ∷ update_room t f rs} (ground (arith, there))
        (has_topic-update_room f t r.topic_id rs k ∙ v.0, v.1, update_room-IsValid f t rs k g v.2)
]

has_topic-append :
    (u : Text) (rs : List RoomState) (r : RoomState)
    → has_topic u (rs ++ r ∷ []) ≡ (has_topic u rs || text_eq r.topic_id u)
has_topic-append u [] r = ground arith
has_topic-append u (q ∷ rs) r = ground (arith, has_topic-append u rs r)

append-IsValid :
    (rs : List RoomState) (r : RoomState)
    → has_topic r.topic_id rs ≡ false
    → RoomIsValid r
    → IsValid rs
    → IsValid (rs ++ r ∷ [])
append-IsValid [] r h v w = (refl, v, tt)
append-IsValid (q ∷ rs) r h v w = (
  ground (arith, has_topic-append q.topic_id rs r, w.0, h),
  w.1,
  append-IsValid rs r (ground (arith, h)) v w.2,
)

has_topic-without_room :
    (u t : Text) (rs : List RoomState)
    → has_topic u rs ≡ false
    → has_topic u (without_room t rs) ≡ false
has_topic-without_room u t [] h = refl
has_topic-without_room u t (r ∷ rs) h = elim (Bool-cases (text_eq r.topic_id t)) [
  | inl gone ↦ ground (arith, gone, h, has_topic-without_room u t rs (ground (arith, h)))
  | inr kept ↦ ground (arith, kept, h, has_topic-without_room u t rs (ground (arith, h)))
]

without_room-IsValid : (t : Text) (rs : List RoomState) → IsValid rs → IsValid (without_room t rs)
without_room-IsValid t [] v = tt
without_room-IsValid t (r ∷ rs) v = elim (Bool-cases (text_eq r.topic_id t)) [
  | inl gone ↦
      subst IsValid {x = without_room t rs} (ground (arith, gone)) (without_room-IsValid t rs v.2)
  | inr kept ↦
      subst IsValid {x = r ∷ without_room t rs} (ground (arith, kept))
        (has_topic-without_room r.topic_id t rs v.0, v.1, without_room-IsValid t rs v.2)
]

reduce-IsValid :
    (s : AppState) (a : Action) → Brings a → IsValid s.rooms → IsValid (reduce s a).rooms
unfolding reduce on_neighbor_up on_peer_left on_recv_chat
reduce-IsValid s (set_initial t) b v = b
reduce-IsValid s (add_room r) b v = elim (Bool-cases (has_topic r.topic_id s.rooms)) [
  | inl known ↦ subst IsValid {x = s.rooms} (ground (arith, known)) v
  | inr fresh ↦
      subst IsValid {x = s.rooms ++ r ∷ []} (ground (arith, fresh))
        (append-IsValid s.rooms r fresh b v)
]
reduce-IsValid s (remove_room removed) b v = without_room-IsValid removed s.rooms v
reduce-IsValid s (set_active t) b v = v
reduce-IsValid s (local_send t msg) b v =
    update_room-IsValid _ t s.rooms (λ r. refl) (λ r w. same_lists r _ w refl refl refl) v
reduce-IsValid s (did_join t) b v =
    update_room-IsValid _ t s.rooms (λ r. refl) (λ r w. same_lists r _ w refl refl refl) v
reduce-IsValid s (neighbor_up t e) b v =
    update_room-IsValid _ t s.rooms (λ r. refl) (on_neighbor_up-IsValid e) v
reduce-IsValid s (neighbor_down t e) b v =
    update_room-IsValid _ t s.rooms (λ r. (on_neighbor_down-keeps e r).0)
      (on_neighbor_down-IsValid e) v
reduce-IsValid s (recv_chat t e n text) b v =
    update_room-IsValid _ t s.rooms (λ r. refl) (λ r w. same_lists r _ w refl refl refl) v
reduce-IsValid s (system t text) b v =
    update_room-IsValid _ t s.rooms (λ r. refl) (λ r w. same_lists r _ w refl refl refl) v
reduce-IsValid s (identify t e n) b v =
    update_room-IsValid _ t s.rooms (on_identify-topic_id e n) (on_identify-IsValid e n) v
reduce-IsValid s (peer_left t e) b v =
    update_room-IsValid _ t s.rooms (λ r. refl) (on_peer_left-IsValid e) v
reduce-IsValid s (set_join_error error) b v = v

-- A run of actions from valid rooms, whose stored states and added rooms are valid, ends in valid
-- rooms: no two have the same topic, a room has at most twenty peers to join by, and its peers, its
-- participants and the endpoints that have left it are each listed once.
pub reduce_all-IsValid :
    (actions : List Action) (s : AppState)
    → All Brings actions
    → IsValid s.rooms
    → IsValid (reduce_all s actions).rooms
reduce_all-IsValid [] s b v = v
reduce_all-IsValid (a ∷ actions) s b v =
    reduce_all-IsValid actions (reduce s a) b.1 (reduce-IsValid s a b.0 v)
