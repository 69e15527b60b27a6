-- ===== src/Signal/Dial.antt =====
-- crates/iroh-webrtc-transport/src/core/signaling.rs: `DialId::from_initiator_sequence` and
-- `DialIdGenerator`. BLAKE3 is a parameter from byte strings to byte strings: hashing in pieces is
-- hashing their concatenation. A generator that would overflow panics, which is `none`.
pub mod Sequence
pub mod Preimage
mod Tests
use iroh_webrtc_messenger.Common.{
  ℕ, ◌+◌, ◌^◌, List, [], ◌∷◌, ◌++◌, Option, none, some, ltb, if◌then◌else◌, Bytes, be64, codes,
  take,
}
use iroh_webrtc_messenger.Common.Maps.{get, insert}
use iroh_webrtc_messenger.Iroh.{Iroh}
use iroh_webrtc_messenger.Signal.{DialId, DialSessionId}

abbrev pub dial_id_derivation_domain : Bytes
dial_id_derivation_domain = codes "iroh-webrtc-dial-id-v1"

pub record DialIdGenerator (EndpointId : Type 0) : Type 0 where
  pub local : EndpointId
  pub epoch : Bytes
  pub next_by_remote : List (EndpointId × ℕ)

-- The epoch is random in `new`, which calls this with it.
unfoldable pub with_epoch : {EndpointId : Type 0} → EndpointId → Bytes → DialIdGenerator EndpointId
with_epoch local epoch = record { local = local; epoch = epoch; next_by_remote = [] }

module _ (iroh : Iroh) where
  open iroh use {EndpointId, EndpointId-discrete, as_bytes}

  -- What the hasher is fed.
  abbrev pub preimage : EndpointId → EndpointId → Bytes → ℕ → Bytes
  preimage initiator responder epoch generation =
      dial_id_derivation_domain
      ++ (as_bytes initiator ++ (as_bytes responder ++ (epoch ++ be64 generation)))

  -- The counter of a remote endpoint, which is 0 where it has no entry.
  abbrev pub current_generation : DialIdGenerator EndpointId → EndpointId → ℕ
  current_generation g remote = elim (get EndpointId-discrete remote g.next_by_remote) [
    | none ↦ 0
    | some n ↦ n
  ]

  unfoldable pub next_generation :
      DialIdGenerator EndpointId → EndpointId → Option (ℕ × DialIdGenerator EndpointId)
  next_generation g remote =
      let current = current_generation g remote in
      if ltb (current + 1) (2 ^ 64)
      then some (
        current,
        record g {
          next_by_remote = insert EndpointId-discrete remote (current + 1) g.next_by_remote;
        },
      )
      else none

  module _ (blake3 : Bytes → Bytes) where
    unfoldable pub from_initiator_sequence : EndpointId → EndpointId → Bytes → ℕ → DialId
    from_initiator_sequence initiator responder epoch generation =
        take 16 (blake3 (preimage initiator responder epoch generation))

    unfoldable pub next :
        DialIdGenerator EndpointId
        → EndpointId
        → Option (DialSessionId × DialIdGenerator EndpointId)
    next g remote = elim (next_generation g remote) [
      | none ↦ none
      | some (generation, g') ↦ some (
        record {
          dial_id = from_initiator_sequence g.local remote g.epoch generation;
          generation = generation;
        },
        g',
      )
    ]
