-- ===== src/Addr.antt =====
-- crates/iroh-webrtc-transport/src/core/addr.rs: the virtual addresses that route packets to
-- sessions, and their form as custom addresses of iroh.
pub mod RoundTrip
mod Tests
use iroh_webrtc_messenger.Common.{
  ℕ, ◌+◌, ◌≡◌, not, ◌∷◌, ◌++◌, Option, none, some, ok, err, ◌>>=◌, ◌>>◌, fail_if, ltb, ◌==◌,
  if◌then◌else◌, Bytes, length, take, drop, get_or,
}
use iroh_webrtc_messenger.Errors.{Error, invalid_addr, Fallible}
use iroh_webrtc_messenger.Iroh.{Iroh}

abbrev pub webrtc_transport_id : ℕ
webrtc_transport_id = 0x6977_7274_6300_0001

abbrev pub version : ℕ
version = 1

abbrev pub kind_capability : ℕ
kind_capability = 1

abbrev pub kind_session : ℕ
kind_session = 2

abbrev pub endpoint_id_len : ℕ
endpoint_id_len = 32

abbrev pub session_id_len : ℕ
session_id_len = 16

-- A capability is advertised; a session routes packets.
pub data WebRtcAddrKind : Type 0 where
  capability : WebRtcAddrKind
  session : Bytes → WebRtcAddrKind

pub record WebRtcAddr (EndpointId : Type 0) : Type 0 where
  pub endpoint_id : EndpointId
  pub kind : WebRtcAddrKind

-- `WebRtcAddr::capability` and `WebRtcAddr::session`.
abbrev pub capability_addr : {EndpointId : Type 0} → EndpointId → WebRtcAddr EndpointId
capability_addr e = record { endpoint_id = e; kind = capability }

abbrev pub session_addr : {EndpointId : Type 0} → EndpointId → Bytes → WebRtcAddr EndpointId
session_addr e session_id = record { endpoint_id = e; kind = session session_id }

-- The kind byte with the session id, from a custom address's data.
unfoldable pub read_kind : Bytes → Fallible WebRtcAddrKind
read_kind bytes =
    if get_or bytes 1 0 == kind_capability
    then (do
      fail_if (not (length bytes == 2 + endpoint_id_len))
          (invalid_addr "capability address has trailing data")
      ok capability)
    else if get_or bytes 1 0 == kind_session
    then (do
      fail_if (not (length bytes == 2 + endpoint_id_len + session_id_len))
          (invalid_addr "session address has invalid length")
      ok (session (drop (2 + endpoint_id_len) bytes)))
    else err (invalid_addr "unknown address kind")

module _ (iroh : Iroh) where
  open iroh use {EndpointId, as_bytes, from_bytes, CustomAddr, from_parts, addr_id, addr_data}

  -- The data that `to_custom_addr` writes.
  abbrev pub addr_bytes : EndpointId → WebRtcAddrKind → Bytes
  addr_bytes e capability = version ∷ kind_capability ∷ as_bytes e
  addr_bytes e (session session_id) = version ∷ kind_session ∷ (as_bytes e ++ session_id)

  unfoldable pub to_custom_addr : WebRtcAddr EndpointId → CustomAddr
  to_custom_addr a = from_parts webrtc_transport_id (addr_bytes a.endpoint_id a.kind)

  -- `EndpointId::from_bytes(..).map_err(..)`
  unfoldable pub read_endpoint_id : Bytes → Fallible EndpointId
  read_endpoint_id bytes = elim (from_bytes (take endpoint_id_len (drop 2 bytes))) [
    | none ↦ err (invalid_addr "invalid endpoint id bytes")
    | some e ↦ ok e
  ]

  unfoldable pub from_custom_addr : CustomAddr → Fallible (WebRtcAddr EndpointId)
  from_custom_addr a = do
    fail_if (not (addr_id a == webrtc_transport_id)) (invalid_addr "unexpected custom transport id")
    fail_if (ltb (length (addr_data a)) (2 + endpoint_id_len))
        (invalid_addr "address data too short")
    fail_if (not (get_or (addr_data a) 0 0 == version)) (invalid_addr "unsupported address version")
    endpoint_id ← read_endpoint_id (addr_data a)
    kind ← read_kind (addr_data a)
    ok (record { endpoint_id = endpoint_id; kind = kind })
