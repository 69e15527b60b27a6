-- ===== src/Addr/Tests.antt =====
-- A session address and a capability address of the sample world.
use iroh_webrtc_messenger.Common.{
  ℕ, ◌≡◌, refl, ◌∷◌, ok, err, Bytes, Bytes-discrete, ℕ_discrete, replicate,
}
use iroh_webrtc_messenger.Errors.{invalid_addr}
use iroh_webrtc_messenger.Samples.{sample_iroh, Peer, alice, key_of}
use iroh_webrtc_messenger.Addr.{
  WebRtcAddr, session_addr, capability_addr, webrtc_transport_id, to_custom_addr, from_custom_addr,
  read_kind, read_endpoint_id,
}
use iroh_webrtc_messenger.Addr.RoundTrip.{
  IsKind, from_custom_addr-to_custom_addr, to_custom_addr-from_custom_addr,
}

abbrev to_alice : WebRtcAddr Peer
to_alice = session_addr alice (replicate 16 9)

-- The test `rejects_capability_with_trailing_data` of addr.rs.
rejects_trailing_data :
    from_custom_addr sample_iroh (webrtc_transport_id, 1 ∷ 1 ∷ replicate 33 1)
    ≡ err (invalid_addr "capability address has trailing data")
unfolding from_custom_addr read_kind read_endpoint_id Bytes-discrete ℕ_discrete
rejects_trailing_data = refl

from_custom_addr-to_custom_addr_example :
    from_custom_addr sample_iroh (to_custom_addr sample_iroh to_alice) ≡ ok to_alice
from_custom_addr-to_custom_addr_example = from_custom_addr-to_custom_addr sample_iroh to_alice refl

abbrev advertised : ℕ × Bytes
advertised = (webrtc_transport_id, 1 ∷ 1 ∷ key_of alice)

to_custom_addr-from_custom_addr_example :
    (to_custom_addr sample_iroh (capability_addr alice) ≡ advertised)
    × IsKind (capability_addr alice).kind
unfolding from_custom_addr read_kind read_endpoint_id Bytes-discrete ℕ_discrete
to_custom_addr-from_custom_addr_example =
    to_custom_addr-from_custom_addr sample_iroh advertised (capability_addr alice) refl
