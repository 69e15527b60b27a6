-- ===== src/Node/Refines/Runs.antt =====
-- Every call and every run of a browser node, at one entry of its table of sessions.
use iroh_webrtc_messenger.Common.{
  ℕ, ◌≡◌, refl, sym, subst, List, [], ◌∷◌, ◌++◌, Option, some, Bytes, Bytes-discrete, arith,
}
use iroh_webrtc_messenger.Common.Maps.{get}
use iroh_webrtc_messenger.Signal.{BootstrapTransportIntent, DialId}
use iroh_webrtc_messenger.Runtime.{session_key_of}
use iroh_webrtc_messenger.Session.{BrowserSessionRole, BrowserSessionState, new}
use iroh_webrtc_messenger.Session.Invariant.{
  Op, step, IsValid, run-new-IsValid, SameRoute, run-SameRoute,
}
use iroh_webrtc_messenger.Session.Invariant
use iroh_webrtc_messenger.Node.{Platform, EndpointId, Node}
use iroh_webrtc_messenger.Node.Calls.{
  Call, dials, accepts_dial, attaches, opens, completes, hears, decides, learns, admits, matches,
  closes_connection, inserts_stream, sends, closes_send, opens_accept, asks, closes_accept, closes,
  after_call, run,
}
use iroh_webrtc_messenger.Node.Identity.{after_call-endpoint_id, run-endpoint_id}
use iroh_webrtc_messenger.Node.Refines.{
  Evolves, EvolvesAt, stays, changes, allocates, same-Evolves, attach-Evolves, opens-Evolves,
  completes-Evolves, dials-Evolves, accepts-Evolves,
}
use iroh_webrtc_messenger.Node.Refines.Signals.{emits-Evolves, hears-Evolves, learns-Evolves}
use iroh_webrtc_messenger.Node.Refines.Connections.{admits-Evolves, matches-Evolves}
use iroh_webrtc_messenger.Node.Refines.Ends.{
  closes_connection-Evolves, inserts_stream-sessions, sends-sessions, closes_send-sessions,
  closes-Evolves,
}

module _ (p : Platform) where
  -- One call does one of three things to the entry of a key: it leaves it alone, it is one method of the
  -- session there, or it allocates a session of this node under the key of its dial id, for a remote
  -- dial only where there was none.
  pub after_call-Evolves :
      (n : Node p) (c : Call p) (j : Bytes)
      → EvolvesAt p n.endpoint_id n.sessions (after_call p n c).sessions j
  unfolding after_call
  after_call-Evolves n (dials remote alpn intent) j = dials-Evolves p n j remote alpn intent
  after_call-Evolves n (accepts_dial remote alpn d intent) j =
      accepts-Evolves p n j remote alpn d intent
  after_call-Evolves n (attaches key) j = attach-Evolves p n key j
  after_call-Evolves n (opens key) j = opens-Evolves p n key j
  after_call-Evolves n (completes key transport) j = completes-Evolves p n key j transport
  after_call-Evolves n (hears input signal) j = hears-Evolves p n j input signal
  after_call-Evolves n (decides key reason message) j = emits-Evolves p n key j reason message
  after_call-Evolves n (learns input) j = learns-Evolves p n j input
  after_call-Evolves n (admits alive c transport session_key queue_accept) j =
      admits-Evolves p alive n j c transport session_key queue_accept
  after_call-Evolves n (matches c) j = matches-Evolves p n j c
  after_call-Evolves n (closes_connection key) j = closes_connection-Evolves p n key j
  after_call-Evolves n inserts_stream j =
      same-Evolves p n.endpoint_id n.sessions _ j (inserts_stream-sessions p n)
  after_call-Evolves n (sends key chunk end_stream outcome finishes) j =
      same-Evolves p n.endpoint_id n.sessions _ j
        (sends-sessions p n key chunk end_stream outcome finishes)
  after_call-Evolves n (closes_send key finishes) j =
      same-Evolves p n.endpoint_id n.sessions _ j (closes_send-sessions p n key finishes)
  after_call-Evolves n (opens_accept alpn) j =
      same-Evolves p n.endpoint_id n.sessions _ j (ground arith)
  after_call-Evolves n (asks waiter id) j =
      same-Evolves p n.endpoint_id n.sessions _ j (ground arith)
  after_call-Evolves n (closes_accept id) j = same-Evolves p n.endpoint_id n.sessions _ j refl
  after_call-Evolves n (closes reason) j = closes-Evolves p n reason j

  -- A session of this node that was allocated under its key and has gone through methods since.
  pub record Reached (local : EndpointId p) (key : Bytes) (s : BrowserSessionState (EndpointId p))
      : Type 0 where
    pub dial_id : DialId
    pub generation : ℕ
    pub remote : EndpointId p
    pub alpn : Bytes
    pub role : BrowserSessionRole
    pub transport_intent : BootstrapTransportIntent
    pub ops : List Op
    pub under_its_key : key ≡ session_key_of dial_id
    pub history :
        s ≡ Invariant.run (new key dial_id generation local remote alpn role transport_intent) ops

  -- All entries of a table are sessions that were reached.
  abbrev pub AllReached : EndpointId p → List (Bytes × BrowserSessionState (EndpointId p)) → Type 0
  AllReached local m =
      (key : Bytes) (s : BrowserSessionState (EndpointId p))
      → get Bytes-discrete key m ≡ some s
      → Reached local key s

  run-append :
      (s : BrowserSessionState (EndpointId p)) (ops : List Op) (op : Op)
      → step (Invariant.run s ops) op ≡ Invariant.run s (ops ++ op ∷ [])
  unfolding Invariant.run
  run-append s [] op = refl
  run-append s (o ∷ ops) op = run-append (step s o) ops op

  Evolves-Reached :
      (local : EndpointId p) (key : Bytes)
      (before now : Option (BrowserSessionState (EndpointId p)))
      → ((s : BrowserSessionState (EndpointId p)) → before ≡ some s → Reached local key s)
      → Evolves p local key before now
      → (t : BrowserSessionState (EndpointId p)) → now ≡ some t
      → Reached local key t
  unfolding Invariant.run
  Evolves-Reached local key before now h (stays e) t found = h t (ground (arith, e, found))
  Evolves-Reached local key before now h (changes s op b a) t found =
      let r = h s b in
      record {
        dial_id = r.dial_id;
        generation = r.generation;
        remote = r.remote;
        alpn = r.alpn;
        role = r.role;
        transport_intent = r.transport_intent;
        ops = r.ops ++ op ∷ [];
        under_its_key = r.under_its_key;
        history =
            let s0 =
              new key r.dial_id r.generation local r.remote r.alpn r.role r.transport_intent in
            ground (arith, a, found, r.history, run-append s0 r.ops op);
      }
  Evolves-Reached local key before now h (allocates d g remote alpn role intent k a b) t found =
      record {
        dial_id = d;
        generation = g;
        remote = remote;
        alpn = alpn;
        role = role;
        transport_intent = intent;
        ops = [];
        under_its_key = k;
        history = ground (arith, a, found);
      }

  after_call-AllReached :
      (n : Node p) (c : Call p)
      → AllReached n.endpoint_id n.sessions
      → AllReached (after_call p n c).endpoint_id (after_call p n c).sessions
  after_call-AllReached n c h =
      subst (λ e. AllReached e (after_call p n c).sessions) (sym (after_call-endpoint_id p n c))
        (λ key t found.
          Evolves-Reached n.endpoint_id key _ _ (h key) (after_call-Evolves n c key) t found)

  run-AllReached :
      (n : Node p) (cs : List (Call p))
      → AllReached n.endpoint_id n.sessions
      → AllReached (run p n cs).endpoint_id (run p n cs).sessions
  unfolding run
  run-AllReached n [] h = h
  run-AllReached n (c ∷ cs) h = run-AllReached (after_call p n c) cs (after_call-AllReached n c h)

  -- Refinement: whatever is called on a node whose table was empty, each session in its table is what
  -- the state machine of one session makes of a new session of this node, kept under the key of its
  -- dial id.
  pub run-Reached :
      (n : Node p) (cs : List (Call p)) (key : Bytes) (s : BrowserSessionState (EndpointId p))
      → n.sessions ≡ []
      → get Bytes-discrete key (run p n cs).sessions ≡ some s
      → Reached n.endpoint_id key s
  run-Reached n cs key s empty found =
      let r = run-AllReached n cs (λ j t e. absurd (ground (arith, e, empty))) key s found in
      subst (λ e. Reached e key s) (run-endpoint_id p n cs) r

  Reached-route :
      (local : EndpointId p) (key : Bytes) (s : BrowserSessionState (EndpointId p))
      → Reached local key s
      → IsValid s × (s.local ≡ local) × (s.session_key ≡ key) × (session_key_of s.dial_id ≡ key)
  unfolding new
  Reached-route local key s r =
      let s0 = new key r.dial_id r.generation local r.remote r.alpn r.role r.transport_intent in
      let route = run-SameRoute s0 r.ops in
      (
        subst IsValid (sym r.history) (
            run-new-IsValid key r.dial_id r.generation local r.remote r.alpn r.role
              r.transport_intent r.ops),
        ground (arith, r.history, route),
        ground (arith, r.history, route),
        ground (arith, r.history, route, r.under_its_key),
      )

  -- In any run of a node whose table was empty, each session is valid, is one of this node, and is found
  -- under its own key, which is that of its dial id.
  pub run-sessions-IsValid :
      (n : Node p) (cs : List (Call p)) (key : Bytes) (s : BrowserSessionState (EndpointId p))
      → n.sessions ≡ []
      → get Bytes-discrete key (run p n cs).sessions ≡ some s
      → IsValid s
        × (s.local ≡ n.endpoint_id)
        × (s.session_key ≡ key)
        × (session_key_of s.dial_id ≡ key)
  run-sessions-IsValid n cs key s empty found =
      Reached-route n.endpoint_id key s (run-Reached n cs key s empty found)
