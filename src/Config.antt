-- ===== src/Config.antt =====
-- crates/iroh-webrtc-transport/src/config.rs and transport.rs: the configurations of the transport,
-- what their validations accept, and the transport that is made of one.
pub mod Bounds
pub mod Schemes
mod Tests
use iroh_webrtc_messenger.Common.{
  ℕ, ◌+◌, ◌*◌, ◌==◌, Bool, true, false, not, ◌&&◌, ◌||◌, List, [], ◌∷◌, map, Option, none, some,
  Result, ok, err, ◌>>=◌, ◌>>◌, fail_if, if◌then◌else◌, ltb, leb, ◌++◌, same, Bytes, Bytes-discrete,
  codes,
}
use iroh_webrtc_messenger.Errors.{Error, invalid_config, invalid_ice_config, Fallible}
use iroh_webrtc_messenger.Frame.{default_max_payload_len}
use iroh_webrtc_messenger.Ice.{default_local_ice_queue_capacity}
use iroh_webrtc_messenger.Iroh.{Iroh}
use iroh_webrtc_messenger.Mpsc.{Mpsc}
use iroh_webrtc_messenger.Hub.{
  OutboundPacket, SessionHub, with_capacities, default_session_queue_capacity,
}

abbrev pub default_data_channel_buffered_amount_low_threshold : ℕ
default_data_channel_buffered_amount_low_threshold = 4 * 1024 * 1024

abbrev pub default_data_channel_buffered_amount_high_threshold : ℕ
default_data_channel_buffered_amount_high_threshold = 16 * 1024 * 1024

pub record WebRtcIceConfig : Type 0 where
  pub stun_urls : List Bytes

pub record WebRtcFrameConfig : Type 0 where
  pub max_payload_len : ℕ

pub record WebRtcDataChannelConfig : Type 0 where
  pub buffered_amount_low_threshold : ℕ
  pub buffered_amount_high_threshold : ℕ

pub record WebRtcSessionConfig : Type 0 where
  pub ice : WebRtcIceConfig
  pub frame : WebRtcFrameConfig
  pub data_channel : WebRtcDataChannelConfig
  pub local_ice_queue_capacity : ℕ

pub record WebRtcQueueConfig : Type 0 where
  pub recv_capacity : ℕ
  pub send_capacity : ℕ

-- `u8::to_ascii_lowercase`
abbrev pub ascii_lowercase : ℕ → ℕ
ascii_lowercase c = if leb b'A' c && leb c b'Z' then c + 32 else c

-- `str::starts_with`
abbrev pub starts_with : Bytes → Bytes → Bool
starts_with [] s = true
starts_with (p ∷ ps) [] = false
starts_with (p ∷ ps) (c ∷ cs) = p == c && starts_with ps cs

abbrev pub has_scheme : Bytes → Bytes → Bool
has_scheme scheme url = starts_with scheme (map ascii_lowercase url)

unfoldable pub validate_stun_url : Bytes → Fallible Bytes
validate_stun_url url = do
  fail_if (not (has_scheme (codes "stun:") url) && not (has_scheme (codes "stuns:") url))
      (invalid_ice_config "direct-only WebRTC sessions only accept stun: or stuns: ICE server URLs")
  fail_if (has_scheme (codes "turn:") url || has_scheme (codes "turns:") url)
      (invalid_ice_config "TURN relays are disabled for direct-only WebRTC sessions")
  ok url

-- `map(validate_stun_url).collect::<Result<Vec<_>>>()`
unfoldable pub validate_all : List Bytes → Fallible (List Bytes)
validate_all [] = ok []
validate_all (url ∷ urls) = do
  valid ← validate_stun_url url
  rest ← validate_all urls
  ok (valid ∷ rest)

unfoldable pub direct_only : List Bytes → Fallible WebRtcIceConfig
direct_only urls = do stun_urls ← validate_all urls; ok (record { stun_urls = stun_urls })

abbrev pub no_ice_servers : WebRtcIceConfig
no_ice_servers = record { stun_urls = [] }

abbrev pub default_direct_stun : WebRtcIceConfig
default_direct_stun = record { stun_urls = codes "stun:stun.l.google.com:19302" ∷ [] }

abbrev pub check_urls : List Bytes → Fallible (Unit {0})
check_urls [] = ok tt
check_urls (url ∷ urls) = do valid ← validate_stun_url url; check_urls urls

unfoldable pub validate_direct_only : WebRtcIceConfig → Fallible (Unit {0})
validate_direct_only c = check_urls c.stun_urls

unfoldable pub validate_frame : WebRtcFrameConfig → Fallible (Unit {0})
validate_frame c =
    fail_if (c.max_payload_len == 0 || ltb 65535 c.max_payload_len)
      (invalid_config "max payload length must be between 1 and u16::MAX")

unfoldable pub validate_data_channel : WebRtcDataChannelConfig → Fallible (Unit {0})
validate_data_channel c = do
  fail_if
      (ltb 4294967295 c.buffered_amount_low_threshold
        || ltb 4294967295 c.buffered_amount_high_threshold)
      (invalid_config "buffered amount thresholds must fit in u32")
  fail_if (leb c.buffered_amount_high_threshold c.buffered_amount_low_threshold)
      (invalid_config "buffered amount low threshold must be lower than high threshold")

unfoldable pub validate_session : WebRtcSessionConfig → Fallible (Unit {0})
validate_session c = do
  validate_direct_only c.ice
  validate_frame c.frame
  validate_data_channel c.data_channel
  fail_if (c.local_ice_queue_capacity == 0)
      (invalid_config "local ICE queue capacity must be greater than zero")

unfoldable pub validate_queues : WebRtcQueueConfig → Fallible (Unit {0})
validate_queues c =
    fail_if (c.recv_capacity == 0 || c.send_capacity == 0)
      (invalid_config "WebRTC transport queue capacities must be greater than zero")

-- The defaults.
abbrev pub default_frame : WebRtcFrameConfig
default_frame = record { max_payload_len = default_max_payload_len }

abbrev pub default_data_channel : WebRtcDataChannelConfig
default_data_channel = record {
  buffered_amount_low_threshold = default_data_channel_buffered_amount_low_threshold;
  buffered_amount_high_threshold = default_data_channel_buffered_amount_high_threshold;
}

abbrev pub default_session : WebRtcSessionConfig
default_session = record {
  ice = default_direct_stun;
  frame = default_frame;
  data_channel = default_data_channel;
  local_ice_queue_capacity = default_local_ice_queue_capacity;
}

abbrev pub default_queues : WebRtcQueueConfig
default_queues = record {
  recv_capacity = default_session_queue_capacity;
  send_capacity = default_session_queue_capacity;
}

-- `direct_stun`: the default with the URLs.
unfoldable pub direct_stun : List Bytes → Fallible WebRtcSessionConfig
direct_stun urls = do ice ← direct_only urls; ok (record default_session { ice = ice })

-- `WebRtcSessionConfig::no_ice_servers`
abbrev pub session_no_ice_servers : WebRtcSessionConfig
session_no_ice_servers = record default_session { ice = no_ice_servers }

module _ {Waker : Type 0} (iroh : Iroh) (mpsc : Mpsc Waker (OutboundPacket (iroh.CustomAddr))) where
  pub record WebRtcTransportConfig : Type 0 where
    pub local_addr : Option iroh.CustomAddr
    pub queues : WebRtcQueueConfig
    pub frame : WebRtcFrameConfig
    pub max_transmit_segments : ℕ

  pub record WebRtcTransport : Type 0 where
    pub config : WebRtcTransportConfig
    pub hub : SessionHub mpsc
    pub local_addrs : List iroh.CustomAddr

  abbrev pub default_transport : WebRtcTransportConfig
  default_transport = record {
    local_addr = none;
    queues = default_queues;
    frame = default_frame;
    max_transmit_segments = 10;
  }

  -- `local_addr.into_iter().collect()`
  abbrev pub initial_addrs : Option iroh.CustomAddr → List iroh.CustomAddr
  initial_addrs none = []
  initial_addrs (some a) = a ∷ []

  unfoldable pub try_new : WebRtcTransportConfig → Fallible WebRtcTransport
  try_new config = do
    validate_queues config.queues
    validate_frame config.frame
    ok (record {
      config = config;
      hub = with_capacities mpsc config.queues.recv_capacity config.queues.send_capacity;
      local_addrs = initial_addrs config.local_addr;
    })

  -- `==` of two addresses.
  abbrev pub equal_addr : iroh.CustomAddr → iroh.CustomAddr → Bool
  equal_addr a b =
      iroh.addr_id a == iroh.addr_id b && same Bytes-discrete (iroh.addr_data a) (iroh.addr_data b)

  abbrev pub is_among : iroh.CustomAddr → List iroh.CustomAddr → Bool
  is_among a [] = false
  is_among a (b ∷ bs) = equal_addr b a || is_among a bs

  unfoldable pub advertise_local_addr : WebRtcTransport → iroh.CustomAddr → WebRtcTransport
  advertise_local_addr t a =
      if is_among a t.local_addrs then t else record t { local_addrs = t.local_addrs ++ a ∷ [] }

  unfoldable pub set_local_addrs : WebRtcTransport → List iroh.CustomAddr → WebRtcTransport
  set_local_addrs t addrs = record t { local_addrs = addrs }
