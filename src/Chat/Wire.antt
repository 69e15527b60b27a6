-- ===== src/Chat/Wire.antt =====
-- examples/rust-browser-chat-room/src/protocol.rs: the messages of a room, what is signed of them,
-- the window of nonces seen, and the task that receives a topic's gossip. Of crypto.rs it takes
-- `signer_pk_bytes` and `verify_msg`, and of util.rs `truncate_chars`.
use iroh_webrtc_messenger.Common.{
  ℕ, ◌+◌, ◌*◌, ◌/◌, ◌%◌, ◌^◌, Option, none, some, List, [], ◌∷◌, ◌++◌, Bool, true, false,
  if◌then◌else◌, leb, ltb, ◌==◌, Bytes, Bytes-discrete, codes, length, take, drop,
}
use iroh_webrtc_messenger.Common.Maps.{get, insert}
use iroh_webrtc_messenger.Chat.{Text, contains}

-- What the task takes of other code: public keys of the `iroh` crate, AES-GCM of the browser, and
-- the JSON form of a message.
pub data ChatWireMessage : Type 0 where
  about_me : Text → Text → Bytes → Bytes → ChatWireMessage
  chat : Text → Text → Text → Bytes → Bytes → ChatWireMessage
  leave : Text → Bytes → Bytes → ChatWireMessage
  sync : ChatWireMessage
  unknown : ChatWireMessage

pub record Wire : Type 1 where
  pub PublicKey : Type 0
  pub parse : Text → Option PublicKey
  pub as_bytes : PublicKey → Bytes
  pub verify : PublicKey → Bytes → Bytes → Bool
  pub decrypt_data : Bytes → Bytes → Option Bytes
  pub from_slice : Bytes → Option ChatWireMessage

pub data ChatGossipEvent : Type 0 where
  joined : Text → ChatGossipEvent
  neighbor_up : Text → Text → ChatGossipEvent
  neighbor_down : Text → Text → ChatGossipEvent
  chatted : Text → Text → Text → Text → ChatGossipEvent
  system : Text → Text → ChatGossipEvent
  identify : Text → Text → Text → ChatGossipEvent
  peer_left : Text → Text → ChatGossipEvent

abbrev pub max_wire_bytes : ℕ
max_wire_bytes = 8192

abbrev pub max_name_chars : ℕ
max_name_chars = 32

abbrev pub max_text_chars : ℕ
max_text_chars = 4000

abbrev pub replay_cap_per_signer : ℕ
replay_cap_per_signer = 256

-- `as_bytes` of a string, its UTF-8 form.
abbrev pub utf8_char : ℕ → Bytes
utf8_char c =
    if ltb c 128
    then c ∷ []
    else if ltb c 2048
    then (192 + c / 64) ∷ (128 + c % 64) ∷ []
    else if ltb c 65536
    then (224 + c / 4096) ∷ (128 + c / 64 % 64) ∷ (128 + c % 64) ∷ []
    else (240 + c / 262144) ∷ (128 + c / 4096 % 64) ∷ (128 + c / 64 % 64) ∷ (128 + c % 64) ∷ []

abbrev pub utf8 : Text → Bytes
utf8 [] = []
utf8 (c ∷ cs) = utf8_char c ++ utf8 cs

-- The tags end in a NUL.
abbrev pub sig_domain_about_me : Bytes
sig_domain_about_me = codes "iroh-msgr/about-me/v1" ++ 0 ∷ []

abbrev pub sig_domain_chat : Bytes
sig_domain_chat = codes "iroh-msgr/chat/v1" ++ 0 ∷ []

abbrev pub sig_domain_leave : Bytes
sig_domain_leave = codes "iroh-msgr/leave/v1" ++ 0 ∷ []

unfoldable pub about_me_payload : Bytes → Bytes → Bytes → Text → Bytes
about_me_payload topic_id signer_pk nonce name =
    sig_domain_about_me ++ topic_id ++ signer_pk ++ nonce ++ utf8 name

unfoldable pub chat_payload : Bytes → Bytes → Bytes → Text → Bytes
chat_payload topic_id signer_pk nonce text =
    sig_domain_chat ++ topic_id ++ signer_pk ++ nonce ++ utf8 text

unfoldable pub leave_payload : Bytes → Bytes → Bytes → Bytes
leave_payload topic_id signer_pk nonce = sig_domain_leave ++ topic_id ++ signer_pk ++ nonce

-- `truncate_chars`
abbrev pub truncate_chars : Text → ℕ → Text
truncate_chars s max = if ltb max (length s) then take max s else s

-- The nonces seen of each signer, the oldest first.
abbrev pub ReplayLru : Type 0
ReplayLru = List (Text × List Bytes)

abbrev pub seen_of : Text → ReplayLru → List Bytes
seen_of signer lru = elim (get Bytes-discrete signer lru) [ some nonces ↦ nonces | none ↦ [] ]

abbrev pub remember : Bytes → List Bytes → List Bytes
remember nonce nonces =
    if leb replay_cap_per_signer (length nonces)
    then drop 1 nonces ++ nonce ∷ []
    else nonces ++ nonce ∷ []

unfoldable pub check_and_insert : Text → Bytes → ReplayLru → Bool × ReplayLru
check_and_insert signer nonce lru =
    let entry = seen_of signer lru in
    if contains nonce entry
    then (false, insert Bytes-discrete signer entry lru)
    else (true, insert Bytes-discrete signer (remember nonce entry) lru)

-- `jitter_for`, in milliseconds, and the sum over bytes below it, which wraps at 32 bits.
abbrev pub jitter_hash : ℕ → Bytes → ℕ
jitter_hash h [] = h
jitter_hash h (b ∷ bs) = jitter_hash ((h * 31 % 2 ^ 32 + b) % 2 ^ 32) bs

unfoldable pub jitter_for : Text → ℕ
jitter_for endpoint = jitter_hash 0 (utf8 endpoint) % 3000

-- What the task of a topic keeps, and what it knows from the start.
pub record Receiver : Type 0 where
  pub replay : ReplayLru
  pub pending_announce : Bool

pub record Topic : Type 0 where
  pub topic : Text
  pub endpoint : Text
  pub topic_id : Bytes
  pub aes_key : Bytes

-- What the task does: it sends an event to the application, announces its own name to the topic, or
-- starts a task that announces it after a delay.
pub data Effect : Type 0 where
  sent : ChatGossipEvent → Effect
  announced : Effect
  announce_after : ℕ → Effect

-- The items of a gossip receiver, the error with its text. That of a new neighbor comes with the error
-- that announcing to it ends with, if it does.
pub data GossipEvent : Type 0 where
  up : Text → Option Text → GossipEvent
  down : Text → GossipEvent
  received : Bytes → GossipEvent
  lagged : GossipEvent
  failed : Text → GossipEvent

pub data Turn : Type 0 where
  item : GossipEvent → Turn
  announce_done : Turn

module _ (w : Wire) where
  unfoldable pub signer_pk_bytes : Text → Option Bytes
  signer_pk_bytes signer = elim (w.parse signer) [ some key ↦ some (w.as_bytes key) | none ↦ none ]

  unfoldable pub verify_msg : Text → Bytes → Bytes → Bool
  verify_msg signer message sig = elim (w.parse signer) [
    | none ↦ false
    | some key ↦ if length sig == 64 then w.verify key message sig else false
  ]

  -- The three tests of a signed message: its signer's key, its signature and its nonce. A message
  -- that passes is sent on as an event.
  abbrev pub admit :
      (Bytes → Bytes) → Text → Bytes → Bytes → ChatGossipEvent → Receiver → List Effect × Receiver
  admit payload signer nonce sig event v = elim (signer_pk_bytes signer) [
    | none ↦ ([], v)
    | some signer_pk ↦
        let checked = check_and_insert signer nonce v.replay in
        if verify_msg signer (payload signer_pk) sig
        then (if checked.0 then sent event ∷ [] else [], record v { replay = checked.1 })
        else ([], v)
  ]

  unfoldable pub on_message : Topic → ChatWireMessage → Receiver → List Effect × Receiver
  on_message t (about_me signer name nonce sig) v =
      admit (λ pk. about_me_payload t.topic_id pk nonce name) signer nonce sig
        (identify t.topic signer (truncate_chars name max_name_chars)) v
  on_message t (chat signer from_name text nonce sig) v =
      admit (λ pk. chat_payload t.topic_id pk nonce text) signer nonce sig
        (chatted t.topic signer (truncate_chars from_name max_name_chars)
          (truncate_chars text max_text_chars))
        v
  on_message t (leave signer nonce sig) v =
      admit (λ pk. leave_payload t.topic_id pk nonce) signer nonce sig (peer_left t.topic signer) v
  on_message t sync v =
      if v.pending_announce
      then ([], v)
      else (announce_after (jitter_for t.endpoint) ∷ [], record v { pending_announce = true })
  on_message t unknown v = ([], v)

  unfoldable pub on_received : Topic → Bytes → Receiver → List Effect × Receiver
  on_received t content v =
      if ltb max_wire_bytes (length content)
      then ([], v)
      else elim (w.decrypt_data content t.aes_key) [
        | none ↦ ([], v)
        | some plaintext ↦ elim (w.from_slice plaintext) [
          | none ↦ ([], v)
          | some message ↦ on_message t message v
        ]
      ]

  -- An item of the receiver; none as the state where the task ends.
  unfoldable pub on_gossip : Topic → GossipEvent → Receiver → List Effect × Option Receiver
  on_gossip t (up endpoint none) v = (sent (neighbor_up t.topic endpoint) ∷ announced ∷ [], some v)
  on_gossip t (up endpoint (some e)) v = (
    sent (neighbor_up t.topic endpoint)
        ∷ announced
        ∷ sent (system t.topic (codes "failed to announce: " ++ e))
        ∷ [],
    some v,
  )
  on_gossip t (down endpoint) v = (sent (neighbor_down t.topic endpoint) ∷ [], some v)
  on_gossip t (received content) v = let r = on_received t content v in (r.0, some r.1)
  on_gossip t lagged v = (sent (system t.topic (codes "missed gossip messages")) ∷ [], some v)
  on_gossip t (failed e) v = (sent (system t.topic (codes "gossip error: " ++ e)) ∷ [], none)

  -- What happens to the task in turn: an item, or the end of the task that announces later. An
  -- announcement that is still to come when this task ends is not followed.
  unfoldable pub gossip_loop : Topic → List Turn → Receiver → List Effect
  gossip_loop t [] v = []
  gossip_loop t (item g ∷ turns) v =
      let r = on_gossip t g v in
      r.0 ++ elim r.1 [ some next ↦ gossip_loop t turns next | none ↦ [] ]
  gossip_loop t (announce_done ∷ turns) v =
      announced ∷ gossip_loop t turns (record v { pending_announce = false })
