-- ===== src/Node/Spawn.antt =====
-- crates/iroh-webrtc-transport/src/browser_runtime/node/core.rs and types/node.rs: how a node comes to be
-- of its configuration. The key pair is made by iroh, so the endpoint id and the random epoch of the
-- dial ids are arguments.
use iroh_webrtc_messenger.Common.{
  ℕ, ◌+◌, ◌==◌, false, ◌||◌, List, [], ◌∷◌, Option, none, some, ok, err, ◌>>=◌, ◌>>◌, fail_if,
  if◌then◌else◌, Bytes, Bytes-discrete,
}
use iroh_webrtc_messenger.Common.Maps.{insert}
use iroh_webrtc_messenger.Errors.{Fallible}
use iroh_webrtc_messenger.Addr.{capability_addr, to_custom_addr}
use iroh_webrtc_messenger.Signal.Dial.{with_epoch}
use iroh_webrtc_messenger.Runtime.{
  spawn_failed, unsupported_alpn, runtime_error, about, shown, Runtime, validate_alpn,
}
use iroh_webrtc_messenger.Config.{
  WebRtcSessionConfig, WebRtcTransportConfig, WebRtcTransport, validate_session, validate_queues,
  validate_frame, try_new,
}
use iroh_webrtc_messenger.Accept.{AcceptRegistrationState}
use iroh_webrtc_messenger.Accept
use iroh_webrtc_messenger.Node.{Platform, EndpointId, CustomAddr, Node}
use iroh_webrtc_messenger.Node.Signals.{has_alpn}

-- `map_err(|err| BrowserRuntimeError::new(SpawnFailed, err.to_string()))`
abbrev pub as_spawn_failed : {A : Type 0} → Fallible A → Runtime A
as_spawn_failed (ok a) = ok a
as_spawn_failed (err e) = err (record { code = spawn_failed; message = shown e })

-- `map(validate_alpn).collect::<BrowserRuntimeResult<Vec<_>>>()`
abbrev pub validate_alpns : List Bytes → Runtime (List Bytes)
validate_alpns [] = ok []
validate_alpns (alpn ∷ alpns) = do
  valid ← validate_alpn alpn
  rest ← validate_alpns alpns
  ok (valid ∷ rest)

abbrev pub duplicate_alpn : Bytes → Runtime (List Bytes)
duplicate_alpn alpn =
    err (record {
      code = unsupported_alpn;
      message = about "duplicate browser ALPN registration" alpn;
    })

-- One of the two loops over ALPNs: each must be new to `seen_alpns` and to the lists given; the result
-- is `seen_alpns` after it.
unfoldable pub see_alpns : List Bytes → List Bytes → List Bytes → List Bytes → Runtime (List Bytes)
see_alpns protocols benchmarks seen [] = ok seen
see_alpns protocols benchmarks seen (alpn ∷ alpns) =
    let rest = see_alpns protocols benchmarks (alpn ∷ seen) alpns in
    if has_alpn alpn seen || (has_alpn alpn protocols || has_alpn alpn benchmarks)
    then duplicate_alpn alpn
    else rest

-- `initial_accept_registrations`, from an id on.
unfoldable pub register_from :
    {EndpointId Waiter : Type 0}
    → ℕ
    → ℕ
    → List (Bytes × AcceptRegistrationState EndpointId Waiter)
    → List Bytes
    → List (Bytes × AcceptRegistrationState EndpointId Waiter)
register_from id capacity accepts [] = accepts
register_from id capacity accepts (alpn ∷ alpns) =
    register_from (id + 1) capacity
      (insert Bytes-discrete alpn (Accept.new id alpn capacity) accepts) alpns

module _ (p : Platform) where
  pub record BrowserRuntimeNodeConfig : Type 0 where
    pub accept_queue_capacity : ℕ
    pub session_config : WebRtcSessionConfig
    pub transport_config : WebRtcTransportConfig p.iroh p.mpsc
    pub facade_alpns : List Bytes
    pub benchmark_echo_alpns : List Bytes

  -- `validate`
  unfoldable pub validate_config : BrowserRuntimeNodeConfig → Runtime (Unit {0})
  validate_config c = do
    fail_if (c.accept_queue_capacity == 0)
        (runtime_error spawn_failed "accept queue capacity must be greater than zero")
    as_spawn_failed (validate_session c.session_config)
    as_spawn_failed (validate_queues c.transport_config.queues)
    as_spawn_failed (validate_frame c.transport_config.frame)

  -- `local_addr.unwrap_or_else(..)`
  abbrev pub local_addr_or : EndpointId p → Option (CustomAddr p) → CustomAddr p
  local_addr_or e none = to_custom_addr p.iroh (capability_addr e)
  local_addr_or e (some a) = a

  -- The node of a transport and the ALPNs that passed.
  abbrev pub node_of :
      EndpointId p
      → Bytes
      → ℕ
      → List Bytes
      → List Bytes
      → List Bytes
      → WebRtcTransport p.iroh p.mpsc
      → Node p
  node_of endpoint_id epoch capacity facades benchmarks protocols t = record {
    endpoint_id = endpoint_id;
    hub = t.hub;
    local_addrs = t.local_addrs;
    relay_endpoint = none;
    relay_router = none;
    webrtc_endpoint = none;
    webrtc_router = none;
    benchmark_echo_tasks = [];
    browser_protocols = protocols;
    benchmark_echo_alpns = benchmarks;
    dial_ids = with_epoch endpoint_id epoch;
    sessions = [];
    connections = [];
    streams = [];
    accepting = record { accepts = register_from 1 capacity [] facades; closed = false };
    next_connection_key = 1;
    next_stream_key = 1;
  }

  -- `spawn_with_secret_key`, with the ALPNs of the browser protocols.
  unfoldable pub spawn_with_secret_key :
      BrowserRuntimeNodeConfig → EndpointId p → Bytes → List Bytes → Runtime (Node p)
  spawn_with_secret_key c endpoint_id epoch protocols = do
    validate_config c
    facades ← validate_alpns c.facade_alpns
    benchmarks ← validate_alpns c.benchmark_echo_alpns
    seen ← see_alpns protocols benchmarks [] facades
    all ← see_alpns protocols [] seen benchmarks
    t ← as_spawn_failed (
        try_new p.iroh p.mpsc (record c.transport_config {
          local_addr = some (local_addr_or endpoint_id c.transport_config.local_addr);
        }))
    ok (node_of endpoint_id epoch c.accept_queue_capacity facades benchmarks protocols t)
