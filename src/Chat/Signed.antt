-- ===== src/Chat/Signed.antt =====
-- What the events of a room vouch for: `on_message` and the loop around it, of
-- examples/rust-browser-chat-room/src/protocol.rs.
use iroh_webrtc_messenger.Common.{
  Option, ℕ, ◌≤◌, ◌≡◌, refl, sym, subst, List, [], ◌∷◌, ◌++◌, true, false, Bytes, All, length,
  length-take, ltb, some, none, arith, Bool-cases, Option-cases, inl, inr,
}
use mathlib.Core.List.{Memᴰ}
use iroh_webrtc_messenger.Chat.{Text}
use iroh_webrtc_messenger.Chat.Wire.{
  jitter_for, max_name_chars, max_text_chars, max_wire_bytes, truncate_chars, check_and_insert,
  ChatWireMessage, about_me, chat, leave, sync, unknown, Wire, Topic, Receiver, Effect, sent,
  announced, announce_after, ChatGossipEvent, joined, neighbor_up, neighbor_down, chatted, system,
  identify, peer_left, admit, on_message, on_received, on_gossip, gossip_loop, GossipEvent, up,
  down, received, lagged, failed, Turn, item, announce_done, verify_msg, signer_pk_bytes,
  about_me_payload, chat_payload, leave_payload,
}

All-append : (P : Effect → Type 0) (xs ys : List Effect) → All P xs → All P ys → All P (xs ++ ys)
All-append P [] ys h k = k
All-append P (x ∷ xs) ys h k = (h.0, All-append P xs ys h.1 k)

length-truncate_chars : (s : Text) (max : ℕ) → length (truncate_chars s max) ≤ max
length-truncate_chars s max = ground (arith, length-take max s)

All-weaken :
    {A : Type 0} (P Q : A → Type 0) (xs : List A) → ((x : A) → P x → Q x) → All P xs → All Q xs
All-weaken P Q [] f h = tt
All-weaken P Q (x ∷ xs) f h = (f x h.0, All-weaken P Q xs f h.1)

All-Mem : {A : Type 0} (xs : List A) → All (λ x. Memᴰ x xs) xs
All-Mem [] = tt
All-Mem (x ∷ xs) = (
  Memᴰ.head refl,
  All-weaken (λ y. Memᴰ y xs) (λ y. Memᴰ y (x ∷ xs)) xs (λ y m. Memᴰ.tail m) (All-Mem xs),
)

module _ (w : Wire) (t : Topic) (Happened : Turn → Type 0) where
  -- A message that has been received, decrypted and read.
  abbrev pub Carried : ChatWireMessage → Type 0
  Carried m =
      (content : Bytes) × (plaintext : Bytes) × Happened (item (received content))
      × (length content ≤ max_wire_bytes)
      × (w.decrypt_data content t.aes_key ≡ some plaintext)
      × (w.from_slice plaintext ≡ some m)

  -- The bytes are a signature of a text by an endpoint's key.
  abbrev pub Signed : Text → (Bytes → Bytes) → Bytes → Type 0
  Signed endpoint payload sig =
      (pk : Bytes) × (signer_pk_bytes w endpoint ≡ some pk)
      × (verify_msg w endpoint (payload pk) sig ≡ true)

  -- What an event must rest on: the message that carried it, and what is signed of that. The name that
  -- comes with a chat text is carried, and not signed.
  abbrev pub IsVouched : ChatGossipEvent → Type 0
  IsVouched (identify topic endpoint name) =
      (topic ≡ t.topic)
      × (length name ≤ max_name_chars)
      × (full : Text) × (nonce : Bytes) × (sig : Bytes) × (name
          ≡ truncate_chars full max_name_chars)
      × Carried (about_me endpoint full nonce sig)
      × Signed endpoint (λ pk. about_me_payload t.topic_id pk nonce full) sig
  IsVouched (chatted topic endpoint from_name text) =
      (topic ≡ t.topic)
      × (length from_name ≤ max_name_chars)
      × (length text ≤ max_text_chars)
      × (claimed : Text) × (full : Text) × (nonce : Bytes) × (sig : Bytes) × (from_name
          ≡ truncate_chars claimed max_name_chars)
      × (text ≡ truncate_chars full max_text_chars)
      × Carried (chat endpoint claimed full nonce sig)
      × Signed endpoint (λ pk. chat_payload t.topic_id pk nonce full) sig
  IsVouched (peer_left topic endpoint) =
      (topic ≡ t.topic)
      × (nonce : Bytes) × (sig : Bytes) × Carried (leave endpoint nonce sig)
      × Signed endpoint (λ pk. leave_payload t.topic_id pk nonce) sig
  IsVouched (neighbor_up topic endpoint) =
      (topic ≡ t.topic) × (failure : Option Text) × Happened (item (up endpoint failure))
  IsVouched (neighbor_down topic endpoint) = (topic ≡ t.topic) × Happened (item (down endpoint))
  IsVouched (system topic text) = topic ≡ t.topic
  IsVouched (joined topic) = ⊥

  abbrev pub IsSound : Effect → Type 0
  IsSound (sent e) = IsVouched e
  IsSound announced = Unit
  IsSound (announce_after delay) = Unit

  -- A message that is let through was signed.
  admit-IsSound :
      (payload : Bytes → Bytes) (signer nonce sig : Bytes) (e : ChatGossipEvent) (v : Receiver)
      → (Signed signer payload sig → IsVouched e)
      → All IsSound (admit w payload signer nonce sig e v).0
  admit-IsSound payload signer nonce sig e v f = elim (Option-cases (signer_pk_bytes w signer)) [
    | inl none_found ↦ subst (All IsSound) {x = []} (ground (arith, none_found)) tt
    | inr (pk, key) ↦ elim (Bool-cases (verify_msg w signer (payload pk) sig)) [
      | inl good ↦ elim (Bool-cases (check_and_insert signer nonce v.replay).0) [
        | inl fresh ↦
            subst (All IsSound) {x = sent e ∷ []} (ground (arith, key, good, fresh))
              (f (pk, key, good), tt)
        | inr dup ↦ subst (All IsSound) {x = []} (ground (arith, key, good, dup)) tt
      ]
      | inr bad ↦ subst (All IsSound) {x = []} (ground (arith, key, bad)) tt
    ]
  ]

  on_message-IsSound :
      (m : ChatWireMessage) (v : Receiver) → Carried m → All IsSound (on_message w t m v).0
  unfolding on_message
  on_message-IsSound (about_me signer name nonce sig) v c =
      admit-IsSound _ signer nonce sig _ v
        (λ s. (refl, length-truncate_chars name max_name_chars, name, nonce, sig, refl, c, s))
  on_message-IsSound (chat signer from_name text nonce sig) v c =
      admit-IsSound _ signer nonce sig _ v (λ s. (
        refl,
        length-truncate_chars from_name max_name_chars,
        length-truncate_chars text max_text_chars,
        from_name,
        text,
        nonce,
        sig,
        refl,
        refl,
        c,
        s,
      ))
  on_message-IsSound (leave signer nonce sig) v c =
      admit-IsSound _ signer nonce sig _ v (λ s. (refl, nonce, sig, c, s))
  on_message-IsSound sync v c = elim (Bool-cases v.pending_announce) [
    | inl waiting ↦ subst (All IsSound) {x = []} (ground (arith, waiting)) tt
    | inr idle ↦
        subst (All IsSound) {x = announce_after (jitter_for t.endpoint) ∷ []} (ground (arith, idle))
          (tt, tt)
  ]
  on_message-IsSound unknown v c = tt

  on_received-IsSound :
      (content : Bytes) (v : Receiver)
      → Happened (item (received content))
      → All IsSound (on_received w t content v).0
  unfolding on_received
  on_received-IsSound content v h = elim (Bool-cases (ltb max_wire_bytes (length content))) [
    | inl long ↦ subst (All IsSound) {x = []} (ground (arith, long)) tt
    | inr fits ↦ elim (Option-cases (w.decrypt_data content t.aes_key)) [
      | inl none_found ↦ subst (All IsSound) {x = []} (ground (arith, fits, none_found)) tt
      | inr (plaintext, opened) ↦ elim (Option-cases (w.from_slice plaintext)) [
        | inl none_found ↦
            subst (All IsSound) {x = []} (ground (arith, fits, opened, none_found)) tt
        | inr (m, parsed) ↦
            subst (All IsSound) {x = (on_message w t m v).0} (ground (arith, fits, opened, parsed))
              (on_message-IsSound m v (content, plaintext, h, ground (arith, fits), opened, parsed))
      ]
    ]
  ]

  on_gossip-IsSound :
      (g : GossipEvent) (v : Receiver) → Happened (item g) → All IsSound (on_gossip w t g v).0
  unfolding on_gossip
  on_gossip-IsSound (up endpoint none) v h = ((refl, none, h), (tt, tt))
  on_gossip-IsSound (up endpoint (some e)) v h = ((refl, some e, h), (tt, (refl, tt)))
  on_gossip-IsSound (down endpoint) v h = ((refl, h), tt)
  on_gossip-IsSound (received content) v h = on_received-IsSound content v h
  on_gossip-IsSound lagged v h = (refl, tt)
  on_gossip-IsSound (failed e) v h = (refl, tt)

  gossip_loop-All :
      (turns : List Turn) (v : Receiver)
      → All Happened turns
      → All IsSound (gossip_loop w t turns v)
  unfolding gossip_loop
  gossip_loop-All [] v h = tt
  gossip_loop-All (item g ∷ turns) v h = elim (Option-cases (on_gossip w t g v).1) [
    | inl over ↦
        subst
          (λ o. All IsSound (
            (on_gossip w t g v).0 ++ elim o [ some next ↦ gossip_loop w t turns next | none ↦ [] ]))
          (sym over) (All-append IsSound (on_gossip w t g v).0 [] (on_gossip-IsSound g v h.0) tt)
    | inr (next, on) ↦
        subst
          (λ o. All IsSound (
            (on_gossip w t g v).0 ++ elim o [ some next ↦ gossip_loop w t turns next | none ↦ [] ]))
          (sym on)
          (All-append IsSound (on_gossip w t g v).0 (gossip_loop w t turns next)
            (on_gossip-IsSound g v h.0) (gossip_loop-All turns next h.1))
  ]
  gossip_loop-All (announce_done ∷ turns) v h =
      (tt, gossip_loop-All turns (record v { pending_announce = false }) h.1)

module _ (w : Wire) (t : Topic) where
  -- Whatever gossip reaches the task of a room, each event that it sends is about that room, and each
  -- neighbor that it reports was received as one that came or went. Each name with which it identifies
  -- an endpoint, each chat text and each departure is that of a received message of the endpoint, cut to
  -- its limit, and rests on a signature of that message that verified under the endpoint's key, over
  -- the room's topic id and the full name or text. The name that is shown with a chat text is the one
  -- that the message claims, cut to its limit; the signature is not over it.
  pub gossip_loop-IsSound :
      (turns : List Turn) (v : Receiver)
      → All (IsSound w t (λ u. Memᴰ u turns)) (gossip_loop w t turns v)
  gossip_loop-IsSound turns v = gossip_loop-All w t (λ u. Memᴰ u turns) turns v (All-Mem turns)

  -- A chat message that the task reports is reported just as well with any other name in it, under the
  -- same signature: the name is not signed.
  pub on_message-renamed :
      (signer claimed other text nonce sig : Bytes) (v : Receiver) (topic from_name shown : Text)
      → (on_message w t (chat signer claimed text nonce sig) v).0
        ≡ sent (chatted topic signer from_name shown) ∷ []
      → (on_message w t (chat signer other text nonce sig) v).0
        ≡ sent (chatted topic signer (truncate_chars other max_name_chars) shown) ∷ []
  unfolding on_message
  on_message-renamed signer claimed other text nonce sig v topic from_name shown h =
      elim (Option-cases (signer_pk_bytes w signer)) [
        | inl none_found ↦ absurd (ground (arith, h, none_found))
        | inr (pk, key) ↦
            elim (Bool-cases (verify_msg w signer (chat_payload t.topic_id pk nonce text) sig)) [
              | inr bad ↦ absurd (ground (arith, h, key, bad))
              | inl good ↦ elim (Bool-cases (check_and_insert signer nonce v.replay).0) [
                | inr dup ↦ absurd (ground (arith, h, key, good, dup))
                | inl fresh ↦ ground (arith, h, key, good, fresh)
              ]
            ]
      ]
