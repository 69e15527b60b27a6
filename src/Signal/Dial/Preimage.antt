-- ===== src/Signal/Dial/Preimage.antt =====
-- Two dials that differ in an endpoint, the epoch or the generation hash different bytes.
use iroh_webrtc_messenger.Common.{
  ℕ, ◌/◌, ◌^◌, ◌<◌, ◌≡◌, refl, sym, ap, ◌∙◌, some, Bytes, be64, from_be, from_be-be32, length, take,
  drop, arith, append-injective,
}
use iroh_webrtc_messenger.Iroh.{Iroh}
use iroh_webrtc_messenger.Signal.Dial.{dial_id_derivation_domain, preimage}

be64-injective : (m n : ℕ) → m < 2 ^ 64 → n < 2 ^ 64 → be64 m ≡ be64 n → m ≡ n
be64-injective m n hm hn e = omega (
  arith,
  from_be-be32 (m / 2 ^ 32) (omega arith),
  from_be-be32 (n / 2 ^ 32) (omega arith),
  ap (λ bytes. from_be 0 (take 4 bytes)) e,
  ap (λ bytes. from_be 0 (drop 4 bytes)) e,
)

module _ (iroh : Iroh) where
  open iroh use {
    EndpointId, EndpointId-discrete, as_bytes, from_bytes, length-as_bytes, from_bytes-as_bytes,
  }

  as_bytes-injective : (a b : EndpointId) → as_bytes a ≡ as_bytes b → a ≡ b
  as_bytes-injective a b e =
      let found : some a ≡ some b =
        sym (from_bytes-as_bytes a) ∙ ap from_bytes e ∙ from_bytes-as_bytes b in
      cc

  -- The bytes that a dial id is derived from determine the initiator, the responder, the epoch and
  -- the generation, for epochs of sixteen bytes and generations of 64 bits.
  pub preimage-injective :
      (a a' r r' : EndpointId) (epoch epoch' : Bytes) (g g' : ℕ)
      → length epoch ≡ 16
      → length epoch' ≡ 16
      → g < 2 ^ 64
      → g' < 2 ^ 64
      → preimage iroh a r epoch g ≡ preimage iroh a' r' epoch' g'
      → (a ≡ a') × (r ≡ r') × (epoch ≡ epoch') × (g ≡ g')
  preimage-injective a a' r r' epoch epoch' g g' he he' hg hg' e =
      let domain =
        append-injective dial_id_derivation_domain dial_id_derivation_domain _ _ refl e in
      let initiators =
        append-injective (as_bytes a) (as_bytes a') _ _
          (length-as_bytes a ∙ sym (length-as_bytes a')) domain.1 in
      let responders =
        append-injective (as_bytes r) (as_bytes r') _ _
          (length-as_bytes r ∙ sym (length-as_bytes r')) initiators.1 in
      let epochs = append-injective epoch epoch' _ _ (he ∙ sym he') responders.1 in
      (
        as_bytes-injective a a' initiators.0,
        as_bytes-injective r r' responders.0,
        epochs.0,
        be64-injective g g' hg hg' epochs.1,
      )
