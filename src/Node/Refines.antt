-- ===== src/Node/Refines.antt =====
-- The table of sessions refines the state machine of one session: whatever is called on the node,
-- each entry is allocated once and then goes through methods of `BrowserSessionState` only.
pub mod Signals
pub mod Connections
pub mod Ends
pub mod Runs
use iroh_webrtc_messenger.Common.{
  ℕ, ◌≡◌, true, false, refl, sym, subst, ap, ◌∙◌, List, [], ◌∷◌, ◌++◌, Option, none, some, ok, err,
  Bytes, Bytes-discrete, arith, ◌⊎◌, inl, inr, Option-cases, Bool-cases, Result-cases,
}
use iroh_webrtc_messenger.Common.Maps.{get, insert, get-insert}
use iroh_webrtc_messenger.Signal.{
  BootstrapTransportIntent, DialId, DialSessionId, WebRtcTerminalReason,
}
use iroh_webrtc_messenger.Signal.Dial.{next}
use iroh_webrtc_messenger.Runtime.{Runtime, session_key_of, validate_alpn}
use iroh_webrtc_messenger.Session.{
  BrowserSessionRole, dialer, acceptor, BrowserSessionState, new, BrowserResolvedTransport, web_rtc,
}
use iroh_webrtc_messenger.Session
use iroh_webrtc_messenger.Session.Invariant.{
  Op, attach, opens, completes, resolves, closes, receives, sends, closes_for_node, step,
}
use iroh_webrtc_messenger.Session.Invariant
use iroh_webrtc_messenger.Node.{
  Platform, EndpointId, Node, put_session, update_session, refresh_webrtc_transport_addrs,
}
use iroh_webrtc_messenger.Node.Sessions.{
  allocate_dial, allocate_dial_start, allocate_accept_session, attach_transferred_channel,
  mark_transferred_channel_open, complete_dial,
}
use iroh_webrtc_messenger.Node.Calls.{after, after_some}

module _ (p : Platform) where
  -- What one call can make of the entry of a key.
  pub data Evolves (local : EndpointId p) (key : Bytes)
      (before now : Option (BrowserSessionState (EndpointId p))) : Type 0 where
    stays : now ≡ before → Evolves local key before now
    changes :
        (s : BrowserSessionState (EndpointId p)) (op : Op)
        → before ≡ some s
        → now ≡ some (step s op)
        → Evolves local key before now
    allocates :
        (dial_id : DialId) (generation : ℕ) (remote : EndpointId p) (alpn : Bytes)
        (role : BrowserSessionRole) (intent : BootstrapTransportIntent)
        → key ≡ session_key_of dial_id
        → now ≡ some (new key dial_id generation local remote alpn role intent)
        → (role ≡ acceptor → before ≡ none)
        → Evolves local key before now

  abbrev pub Table : Type 0
  Table = List (Bytes × BrowserSessionState (EndpointId p))

  -- Two tables at one key.
  abbrev pub EvolvesAt : EndpointId p → Table → Table → Bytes → Type 0
  EvolvesAt local before now j =
      Evolves local j (get Bytes-discrete j before) (get Bytes-discrete j now)

  -- An entry that is replaced by what a method makes of it.
  pub put-Evolves :
      (local : EndpointId p) (before now : Table) (key j : Bytes)
      (s t : BrowserSessionState (EndpointId p)) (op : Op)
      → get Bytes-discrete key before ≡ some s
      → t ≡ step s op
      → now ≡ insert Bytes-discrete key t before
      → EvolvesAt local before now j
  put-Evolves local before now key j s t op found e put = elim (Bytes-discrete key j) [
    | yes same ↦
        changes s op (ground (arith, found, same))
          (ground (arith, e, same, put, get-insert Bytes-discrete key j t before))
    | no other ↦ stays (ground (arith, other, put, get-insert Bytes-discrete key j t before))
  ]

  -- A table that is left alone.
  pub same-Evolves :
      (local : EndpointId p) (before now : Table) (j : Bytes)
      → now ≡ before
      → EvolvesAt local before now j
  same-Evolves local before now j e = stays (ap (get Bytes-discrete j) e)

  -- A table that is equal to one that a lemma speaks of.
  pub moved-Evolves :
      (local : EndpointId p) (before now now' : Table) (j : Bytes)
      → now' ≡ now
      → EvolvesAt local before now j
      → EvolvesAt local before now' j
  moved-Evolves local before now now' j e h = subst (λ m. EvolvesAt local before m j) (sym e) h

  update-Evolves :
      (n : Node p) (key j : Bytes)
      (update : BrowserSessionState (EndpointId p) → Runtime (BrowserSessionState (EndpointId p)))
      (op : Op)
      → ((s t : BrowserSessionState (EndpointId p)) → update s ≡ ok t → t ≡ step s op)
      → EvolvesAt n.endpoint_id n.sessions (after p n (update_session p n key update)).sessions j
  unfolding update_session refresh_webrtc_transport_addrs
  update-Evolves n key j update op h = elim (Bool-cases n.accepting.closed) [
    | inl down ↦ same-Evolves n.endpoint_id n.sessions _ j (ground (arith, down))
    | inr up ↦ elim (Option-cases (get Bytes-discrete key n.sessions)) [
      | inl missing ↦ same-Evolves n.endpoint_id n.sessions _ j (ground (arith, up, missing))
      | inr (s, found) ↦ elim (Result-cases (update s)) [
        | inr (e, bad) ↦ same-Evolves n.endpoint_id n.sessions _ j (ground (arith, up, found, bad))
        | inl (t, good) ↦
            put-Evolves n.endpoint_id n.sessions _ key j s t op found (h s t good)
              (ground (arith, up, found, good))
      ]
    ]
  ]

  pub attach-Evolves :
      (n : Node p) (key j : Bytes)
      → EvolvesAt n.endpoint_id n.sessions
          (after p n (attach_transferred_channel p n key)).sessions
          j
  unfolding step
  attach-Evolves n key j =
      update-Evolves n key j Session.attach_transferred_channel attach (λ s t e. ground (arith, e))

  pub opens-Evolves :
      (n : Node p) (key j : Bytes)
      → EvolvesAt n.endpoint_id n.sessions
          (after p n (mark_transferred_channel_open p n key)).sessions
          j
  unfolding step
  opens-Evolves n key j =
      update-Evolves n key j Session.mark_transferred_channel_open opens
        (λ s t e. ground (arith, e))

  pub completes-Evolves :
      (n : Node p) (key j : Bytes) (transport : BrowserResolvedTransport)
      → EvolvesAt n.endpoint_id n.sessions (after p n (complete_dial p n key transport)).sessions j
  unfolding step
  completes-Evolves n key j transport =
      update-Evolves n key j (λ s. Session.complete_dial s transport) (completes transport)
        (λ s t e. ground (arith, e))

  -- A new entry.
  insert-Evolves :
      (local : EndpointId p) (before now : Table) (j : Bytes) (d : DialSessionId)
      (remote : EndpointId p) (alpn : Bytes) (role : BrowserSessionRole)
      (intent : BootstrapTransportIntent)
      → let key = session_key_of d.dial_id in
        (role ≡ acceptor → get Bytes-discrete key before ≡ none)
        → now
          ≡ insert Bytes-discrete key
              (new key d.dial_id d.generation local remote alpn role intent)
              before
        → EvolvesAt local before now j
  insert-Evolves local before now j d remote alpn role intent absent put =
      let key = session_key_of d.dial_id in
      let s = new key d.dial_id d.generation local remote alpn role intent in
      elim (Bytes-discrete key j) [
        | yes same ↦
            allocates d.dial_id d.generation remote alpn role intent (sym same)
              (ground (arith, same, put, get-insert Bytes-discrete key j s before))
              (λ a. ground (arith, absent a, same))
        | no other ↦ stays (ground (arith, other, put, get-insert Bytes-discrete key j s before))
      ]

  pub dials-Evolves :
      (n : Node p) (j : Bytes) (remote : EndpointId p) (alpn : Bytes)
      (intent : BootstrapTransportIntent)
      → EvolvesAt n.endpoint_id n.sessions
          (after_some p n (allocate_dial_start p n remote alpn intent)).sessions
          j
  unfolding new allocate_dial_start allocate_dial refresh_webrtc_transport_addrs validate_alpn
  dials-Evolves n j remote [] intent = same-Evolves n.endpoint_id n.sessions _ j refl
  dials-Evolves n j remote (c ∷ cs) intent = elim (Bool-cases n.accepting.closed) [
    | inl down ↦ same-Evolves n.endpoint_id n.sessions _ j (ground (arith, down))
    | inr up ↦ elim (Option-cases (next p.iroh p.blake3 n.dial_ids remote)) [
      | inl panics ↦ same-Evolves n.endpoint_id n.sessions _ j (ground (arith, up, panics))
      | inr ((d, g), found) ↦
          insert-Evolves n.endpoint_id n.sessions _ j d remote (c ∷ cs) dialer intent
            (λ a. absurd (ground (arith, a))) (ground (arith, up, found))
    ]
  ]

  pub accepts-Evolves :
      (n : Node p) (j : Bytes) (remote : EndpointId p) (alpn : Bytes) (d : DialSessionId)
      (intent : BootstrapTransportIntent)
      → EvolvesAt n.endpoint_id n.sessions
          (after p n (allocate_accept_session p n remote alpn d intent)).sessions
          j
  unfolding new allocate_accept_session refresh_webrtc_transport_addrs validate_alpn
  accepts-Evolves n j remote [] d intent = same-Evolves n.endpoint_id n.sessions _ j refl
  accepts-Evolves n j remote (c ∷ cs) d intent = elim (Bool-cases n.accepting.closed) [
    | inl down ↦ same-Evolves n.endpoint_id n.sessions _ j (ground (arith, down))
    | inr up ↦ elim (Option-cases (get Bytes-discrete (session_key_of d.dial_id) n.sessions)) [
      | inr (s, found) ↦ same-Evolves n.endpoint_id n.sessions _ j (ground (arith, up, found))
      | inl absent ↦
          insert-Evolves n.endpoint_id n.sessions _ j d remote (c ∷ cs) acceptor intent
            (λ a. absent) (ground (arith, up, absent))
    ]
  ]
