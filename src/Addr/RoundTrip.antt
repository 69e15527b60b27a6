-- ===== src/Addr/RoundTrip.antt =====
-- Virtual addresses through iroh's custom addresses and back.
use iroh_webrtc_messenger.Common.{
  ◌≡◌, ◌≤◌, length-drop, [], refl, sym, ap, ◌∙◌, ◌∷◌, Option, none, some, ok, err, Bytes, length,
  take, drop, get_or, take_of_length, take_all, drop_past, length-append, arith, take-append-drop,
}
use iroh_webrtc_messenger.Errors.{Fallible}
use iroh_webrtc_messenger.Iroh.{Iroh}
use iroh_webrtc_messenger.Addr.{
  WebRtcAddrKind, capability, session, WebRtcAddr, read_kind, addr_bytes, to_custom_addr,
  read_endpoint_id, from_custom_addr, webrtc_transport_id,
}

-- A session's route has sixteen bytes.
abbrev pub IsKind : WebRtcAddrKind → Type 0
IsKind capability = Unit {0}
IsKind (session session_id) = length session_id ≡ 16

module _ (iroh : Iroh) where
  open iroh use {
    EndpointId, as_bytes, from_bytes, CustomAddr, from_parts, addr_id, addr_data, length-as_bytes,
    from_bytes-as_bytes, as_bytes-from_bytes, addr_id-from_parts, addr_data-from_parts,
    from_parts-eta,
  }

  read_endpoint_id-addr_bytes :
      (e : EndpointId) (kind : WebRtcAddrKind)
      → read_endpoint_id iroh (addr_bytes iroh e kind) ≡ ok e
  unfolding read_endpoint_id
  read_endpoint_id-addr_bytes e capability =
      rw (take_all 32 (as_bytes e) (length-as_bytes e), from_bytes-as_bytes e, read_endpoint_id)
  read_endpoint_id-addr_bytes e (session s) = rw (
    take_of_length 32 (as_bytes e) s (length-as_bytes e),
    from_bytes-as_bytes e,
    read_endpoint_id,
  )

  read_kind-addr_bytes :
      (e : EndpointId) (kind : WebRtcAddrKind)
      → IsKind kind
      → read_kind (addr_bytes iroh e kind) ≡ ok kind
  unfolding read_kind
  read_kind-addr_bytes e capability v = ground (arith, length-as_bytes e)
  read_kind-addr_bytes e (session s) v =
      ground (arith, length-as_bytes e, length-append (as_bytes e) s, drop_past 32 0 (as_bytes e) s)

  length-addr_bytes :
      (e : EndpointId) (kind : WebRtcAddrKind) → 34 ≤ length (addr_bytes iroh e kind)
  length-addr_bytes e capability = omega (arith, length-as_bytes e)
  length-addr_bytes e (session s) =
      omega (arith, length-as_bytes e, length-append {0} (as_bytes e) s)

  version-addr_bytes :
      (e : EndpointId) (kind : WebRtcAddrKind) → get_or (addr_bytes iroh e kind) 0 0 ≡ 1
  version-addr_bytes e capability = refl
  version-addr_bytes e (session s) = refl

  -- An address, its session id of sixteen bytes, survives the way to a custom address and back.
  pub from_custom_addr-to_custom_addr :
      (a : WebRtcAddr EndpointId)
      → IsKind a.kind
      → from_custom_addr iroh (to_custom_addr iroh a) ≡ ok a
  unfolding from_custom_addr to_custom_addr
  from_custom_addr-to_custom_addr a v =
      let bytes = addr_bytes iroh a.endpoint_id a.kind in
      rw
        (
          addr_id-from_parts webrtc_transport_id bytes,
          addr_data-from_parts webrtc_transport_id bytes,
          version-addr_bytes a.endpoint_id a.kind,
          read_endpoint_id-addr_bytes a.endpoint_id a.kind,
          read_kind-addr_bytes a.endpoint_id a.kind v,
        )
        (ground (arith, length-addr_bytes a.endpoint_id a.kind))

  -- What the checks of `from_custom_addr` have established when it returns an address.
  record ReadFrom (a : CustomAddr) (w : WebRtcAddr EndpointId) : Type 0 where
    transport : addr_id a ≡ webrtc_transport_id
    long : 34 ≤ length (addr_data a)
    version_byte : get_or (addr_data a) 0 0 ≡ 1
    endpoint : from_bytes (take 32 (drop 2 (addr_data a))) ≡ some w.endpoint_id
    kind : read_kind (addr_data a) ≡ ok w.kind

  read_of_parts :
      (a : CustomAddr) (w : WebRtcAddr EndpointId) (e : Option EndpointId)
      (k : Fallible WebRtcAddrKind)
      → from_bytes (take 32 (drop 2 (addr_data a))) ≡ e
      → read_kind (addr_data a) ≡ k
      → from_custom_addr iroh a ≡ ok w
      → ReadFrom a w
  unfolding from_custom_addr read_endpoint_id
  read_of_parts a w none k pe pk h = absurd (ground arith)
  read_of_parts a w (some e) (err x) pe pk h = absurd (ground arith)
  read_of_parts a w (some e) (ok k) pe pk h = record {
    transport = ground arith;
    long = ground arith;
    version_byte = ground arith;
    endpoint = ground arith;
    kind = ground arith;
  }

  from_custom_addr-ReadFrom :
      (a : CustomAddr) (w : WebRtcAddr EndpointId) → from_custom_addr iroh a ≡ ok w → ReadFrom a w
  from_custom_addr-ReadFrom a w h = read_of_parts a w _ _ refl refl h

  -- The data of a custom address, from its parts.
  addr_bytes_of_read :
      (bytes : Bytes) (e : EndpointId) (kind : WebRtcAddrKind)
      → 34 ≤ length bytes
      → get_or bytes 0 0 ≡ 1
      → as_bytes e ≡ take 32 (drop 2 bytes)
      → read_kind bytes ≡ ok kind
      → (addr_bytes iroh e kind ≡ bytes) × IsKind kind
  unfolding read_kind
  addr_bytes_of_read [] e kind long v key k = absurd (omega arith)
  addr_bytes_of_read (a ∷ []) e kind long v key k = absurd (omega arith)
  addr_bytes_of_read (a ∷ b ∷ rest) e capability long v key k =
      (ground (arith, take_all 32 rest), tt)
  addr_bytes_of_read (a ∷ b ∷ rest) e (session s) long v key k =
      (ground (arith, take-append-drop 32 rest), ground (arith, length-drop 32 rest))

  -- An address that is read from a custom address is written to that custom address again, and the
  -- route of a session address has sixteen bytes: no two custom addresses stand for one address.
  pub to_custom_addr-from_custom_addr :
      (a : CustomAddr) (w : WebRtcAddr EndpointId)
      → from_custom_addr iroh a ≡ ok w
      → (to_custom_addr iroh w ≡ a) × IsKind w.kind
  unfolding to_custom_addr
  to_custom_addr-from_custom_addr a w h =
      let r = from_custom_addr-ReadFrom a w h in
      let bytes =
        addr_bytes_of_read (addr_data a) w.endpoint_id w.kind r.long r.version_byte
          (as_bytes-from_bytes _ w.endpoint_id r.endpoint) r.kind in
      (
        ap (from_parts webrtc_transport_id) bytes.0
            ∙ ap (λ t. from_parts t (addr_data a)) (sym r.transport)
            ∙ from_parts-eta a,
        bytes.1,
      )
