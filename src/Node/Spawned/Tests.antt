-- ===== src/Node/Spawned/Tests.antt =====
-- A node that alice spawns with one ALPN of each kind.
use iroh_webrtc_messenger.Common.{
  ◌≡◌, refl, [], ◌∷◌, some, ok, err, Bytes, codes, Bytes-discrete, ℕ_discrete,
}
use iroh_webrtc_messenger.Hub.{with_capacities}
use iroh_webrtc_messenger.Samples.{alice}
use iroh_webrtc_messenger.Samples.Nodes.{platform, chat}
use iroh_webrtc_messenger.Samples.Channels.{bounded}
use iroh_webrtc_messenger.Addr.{capability_addr, to_custom_addr}
use iroh_webrtc_messenger.Runtime.{about, unsupported_alpn, validate_alpn}
use iroh_webrtc_messenger.Config.{
  WebRtcTransport, default_session, default_transport, validate_session, validate_direct_only,
  validate_stun_url, validate_frame, validate_data_channel, validate_queues, try_new,
}
use iroh_webrtc_messenger.Node.{Node}
use iroh_webrtc_messenger.Node.Spawn.{
  BrowserRuntimeNodeConfig, validate_config, see_alpns, node_of, spawn_with_secret_key,
}
use iroh_webrtc_messenger.Node.Spawned.{spawn_with_secret_key-registered}

abbrev echo : Bytes
echo = codes "echo"

abbrev gossip : Bytes
gossip = codes "gossip"

abbrev config : BrowserRuntimeNodeConfig platform
config = record {
  accept_queue_capacity = 32;
  session_config = default_session;
  transport_config = default_transport _ (bounded _);
  facade_alpns = chat ∷ [];
  benchmark_echo_alpns = echo ∷ [];
}

abbrev transport : WebRtcTransport platform.iroh platform.mpsc
transport = record {
  config = record (default_transport _ (bounded _)) {
    local_addr = some (to_custom_addr platform.iroh (capability_addr alice));
  };
  hub = with_capacities (bounded _) 1024 1024;
  local_addrs = to_custom_addr platform.iroh (capability_addr alice) ∷ [];
}

abbrev spawned : Node platform
spawned = node_of platform alice (7 ∷ []) 32 (chat ∷ []) (echo ∷ []) (gossip ∷ []) transport

spawns : spawn_with_secret_key platform config alice (7 ∷ []) (gossip ∷ []) ≡ ok spawned
unfolding spawn_with_secret_key validate_config validate_session validate_direct_only
    validate_stun_url validate_frame validate_data_channel validate_queues try_new validate_alpn
    see_alpns Bytes-discrete ℕ_discrete
spawns = refl

-- An ALPN that is a browser protocol's too is refused.
duplicate_refused :
    spawn_with_secret_key platform config alice (7 ∷ []) (chat ∷ [])
    ≡ err (record {
      code = unsupported_alpn;
      message = about "duplicate browser ALPN registration" chat;
    })
unfolding spawn_with_secret_key validate_config validate_session validate_direct_only
    validate_stun_url validate_frame validate_data_channel validate_queues try_new validate_alpn
    see_alpns Bytes-discrete ℕ_discrete
duplicate_refused = refl

spawn_with_secret_key-registered_example : spawned.sessions ≡ []
spawn_with_secret_key-registered_example =
    (spawn_with_secret_key-registered platform config alice (7 ∷ []) (gossip ∷ []) spawned chat
      spawns).5
