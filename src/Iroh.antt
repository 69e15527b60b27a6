-- ===== src/Iroh.antt =====
-- What the transport takes from the `iroh` crates: endpoint identities and custom addresses. The
-- crates are not part of the repository, so their types and functions are a parameter, with the
-- documented behaviour that the code relies on as its laws.
use iroh_webrtc_messenger.Common.{ℕ, ◌≡◌, Option, some, Bytes, length}

pub record Iroh : Type 1 where
  -- `EndpointId`, a public key of 32 bytes; not every 32 bytes are a key.
  pub EndpointId : Type 0
  pub EndpointId-discrete : Discrete EndpointId
  pub as_bytes : EndpointId → Bytes
  pub from_bytes : Bytes → Option EndpointId
  pub length-as_bytes : (e : EndpointId) → length (as_bytes e) ≡ 32
  pub from_bytes-as_bytes : (e : EndpointId) → from_bytes (as_bytes e) ≡ some e
  pub as_bytes-from_bytes :
      (bytes : Bytes) (e : EndpointId) → from_bytes bytes ≡ some e → as_bytes e ≡ bytes
  -- `CustomAddr`, a transport's identifier and its data.
  pub CustomAddr : Type 0
  pub from_parts : ℕ → Bytes → CustomAddr
  pub addr_id : CustomAddr → ℕ
  pub addr_data : CustomAddr → Bytes
  pub addr_id-from_parts : (id : ℕ) (bytes : Bytes) → addr_id (from_parts id bytes) ≡ id
  pub addr_data-from_parts : (id : ℕ) (bytes : Bytes) → addr_data (from_parts id bytes) ≡ bytes
  pub from_parts-eta : (a : CustomAddr) → from_parts (addr_id a) (addr_data a) ≡ a
