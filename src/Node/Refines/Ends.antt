-- ===== src/Node/Refines/Ends.antt =====
-- Closing of a connection and of the node, and the calls of node/stream.rs, at one entry of the table
-- of sessions.
use iroh_webrtc_messenger.Common.{
  ℕ, Bool, ◌≡◌, refl, [], ◌∷◌, Option, none, some, Bytes, Bytes-discrete, ℕ_discrete, arith, inl,
  inr, Option-cases, Bool-cases, Result-cases,
}
use iroh_webrtc_messenger.Common.Maps.{get}
use iroh_webrtc_messenger.Session.{BrowserSessionState, close_for_node}
use iroh_webrtc_messenger.Session
use iroh_webrtc_messenger.Session.Invariant.{closes, closes_for_node, step}
use iroh_webrtc_messenger.Node.{
  Platform, EndpointId, Node, BrowserConnectionState, BrowserStreamState,
  refresh_webrtc_transport_addrs,
}
use iroh_webrtc_messenger.Node.Connections.{is_web_rtc}
use iroh_webrtc_messenger.Node.Streams.{
  WriteResult, timed_out, written, insert_stream, stream_handle, send_stream_chunk,
  close_stream_send, finish_send, write_chunk,
}
use iroh_webrtc_messenger.Node.Closing.{close_sessions, close_inner}
use iroh_webrtc_messenger.Node.Calls.{after, after_some}
use iroh_webrtc_messenger.Node.Handles.{close_session_at, after_close, connection_close}
use iroh_webrtc_messenger.Node.Refines.{
  EvolvesAt, Table, stays, changes, allocates, put-Evolves, same-Evolves, moved-Evolves,
}

module _ (p : Platform) where
  close_session_at-Evolves :
      (n : Node p) (j : Bytes) (session_key : Option Bytes)
      → EvolvesAt p n.endpoint_id n.sessions (close_session_at p n session_key).sessions j
  unfolding step
  close_session_at-Evolves n j none = same-Evolves p n.endpoint_id n.sessions _ j refl
  close_session_at-Evolves n j (some key) =
      elim (Option-cases (get Bytes-discrete key n.sessions)) [
        | inl missing ↦ same-Evolves p n.endpoint_id n.sessions _ j (ground (arith, missing))
        | inr (s, found) ↦
            put-Evolves p n.endpoint_id n.sessions _ key j s (Session.close s) closes found refl
              (ground (arith, found))
      ]

  after_close-Evolves :
      (n : Node p) (key : ℕ) (j : Bytes) (c : BrowserConnectionState p)
      → EvolvesAt p n.endpoint_id n.sessions (after_close p n key c).sessions j
  unfolding refresh_webrtc_transport_addrs
  after_close-Evolves n key j c = elim (Bool-cases (is_web_rtc c.transport)) [
    | inr relayed ↦ same-Evolves p n.endpoint_id n.sessions _ j (ground (arith, relayed))
    | inl direct ↦
        moved-Evolves p n.endpoint_id n.sessions _ _ j (ground (arith, direct))
          (close_session_at-Evolves n j c.session_key)
  ]

  pub closes_connection-Evolves :
      (n : Node p) (key : ℕ) (j : Bytes)
      → EvolvesAt p n.endpoint_id n.sessions (after p n (connection_close p n key)).sessions j
  unfolding connection_close
  closes_connection-Evolves n key j = elim (Bool-cases n.accepting.closed) [
    | inl down ↦ same-Evolves p n.endpoint_id n.sessions _ j (ground (arith, down))
    | inr up ↦ elim (Option-cases (get ℕ_discrete key n.connections)) [
      | inl missing ↦ same-Evolves p n.endpoint_id n.sessions _ j (ground (arith, up, missing))
      | inr (c, found) ↦
          moved-Evolves p n.endpoint_id n.sessions _ _ j (ground (arith, up, found))
            (after_close-Evolves n key j c)
    ]
  ]

  -- Streams leave the sessions alone.
  pub inserts_stream-sessions :
      (n : Node p) → (after_some p n (insert_stream p n)).sessions ≡ n.sessions
  unfolding insert_stream
  inserts_stream-sessions n = ground arith

  finish_send-sessions :
      (n : Node p) (key : ℕ) (s : BrowserStreamState p) (finishes : Bool)
      → (finish_send p n key s finishes).1.sessions ≡ n.sessions
  finish_send-sessions n key s finishes = ground arith

  write_chunk-sessions :
      (n : Node p) (key : ℕ) (s : BrowserStreamState p) (chunk : Bytes) (end_stream : Bool)
      (outcome : WriteResult) (finishes : Bool)
      → (write_chunk p n key s chunk end_stream outcome finishes).1.sessions ≡ n.sessions
  write_chunk-sessions n key s chunk end_stream WriteResult.cancelled finishes = refl
  write_chunk-sessions n key s chunk end_stream timed_out finishes = refl
  write_chunk-sessions n key s chunk end_stream WriteResult.failed finishes = refl
  write_chunk-sessions n key s chunk end_stream written finishes =
      ground (arith, finish_send-sessions n key s finishes)

  pub sends-sessions :
      (n : Node p) (key : ℕ) (chunk : Bytes) (end_stream : Bool) (outcome : WriteResult)
      (finishes : Bool)
      → (send_stream_chunk p n key chunk end_stream outcome finishes).1.sessions ≡ n.sessions
  unfolding send_stream_chunk
  sends-sessions n key chunk end_stream outcome finishes =
      elim (Result-cases (stream_handle p n key)) [
        | inr (e, bad) ↦ ground (arith, bad)
        | inl (s, good) ↦
            ground (arith, good, write_chunk-sessions n key s chunk end_stream outcome finishes)
      ]

  pub closes_send-sessions :
      (n : Node p) (key : ℕ) (finishes : Bool)
      → (close_stream_send p n key finishes).1.sessions ≡ n.sessions
  unfolding close_stream_send
  closes_send-sessions n key finishes = elim (Result-cases (stream_handle p n key)) [
    | inr (e, bad) ↦ ground (arith, bad)
    | inl (s, good) ↦ ground (arith, good, finish_send-sessions n key s finishes)
  ]

  close_sessions-Evolves :
      (local : EndpointId p) (reason : Option Bytes) (j : Bytes) (m : Table p)
      → EvolvesAt p local m (close_sessions p reason m) j
  unfolding step
  close_sessions-Evolves local reason j [] = same-Evolves p local [] _ j refl
  close_sessions-Evolves local reason j ((key, s) ∷ m) = elim (Bytes-discrete key j) [
    | yes e ↦ changes s (closes_for_node reason) (ground (arith, e)) (ground (arith, e))
    | no other ↦ elim (close_sessions-Evolves local reason j m) [
      | stays h ↦ stays (ground (arith, h, other))
      | changes t op b a ↦ changes t op (ground (arith, b, other)) (ground (arith, a, other))
      | allocates d g remote alpn role intent k a b ↦
          allocates d g remote alpn role intent k (ground (arith, a, other))
            (λ r. ground (arith, b r, other))
    ]
  ]

  pub closes-Evolves :
      (n : Node p) (reason : Option Bytes) (j : Bytes)
      → EvolvesAt p n.endpoint_id n.sessions (close_inner p n reason).1.sessions j
  unfolding close_inner
  closes-Evolves n reason j = elim (Bool-cases n.accepting.closed) [
    | inl down ↦ same-Evolves p n.endpoint_id n.sessions _ j (ground (arith, down))
    | inr up ↦
        moved-Evolves p n.endpoint_id n.sessions _ _ j (ground (arith, up))
          (close_sessions-Evolves n.endpoint_id reason j n.sessions)
  ]
