-- ===== src/Signal/Dial/Tests.antt =====
-- Dials of the sample world, with a toy hash.
use iroh_webrtc_messenger.Common.{ℕ, ◌≡◌, refl, List, [], ◌∷◌, some, Bytes, replicate, arith}
use iroh_webrtc_messenger.Samples.{sample_iroh, Peer, alice, bob, carol, Peer-discrete}
use iroh_webrtc_messenger.Signal.Dial.{DialIdGenerator, with_epoch}
use iroh_webrtc_messenger.Signal.Dial.Preimage.{preimage-injective}
use iroh_webrtc_messenger.Signal.Dial.Sequence.{
  allocate_all, sequence, dials_to, allocate_all-sequence,
}

abbrev epoch7 : Bytes
epoch7 = replicate 16 7

-- A toy hash, which forgets nothing.
abbrev toy_hash : Bytes → Bytes
toy_hash bytes = bytes

preimage-injective_example : (alice ≡ alice) × (bob ≡ bob) × (epoch7 ≡ epoch7) × (◌≡◌ {A = ℕ} 3 3)
preimage-injective_example =
    preimage-injective sample_iroh alice alice bob bob epoch7 epoch7 3 3 refl refl (omega arith)
      (omega arith) refl

abbrev remotes : List Peer
remotes = bob ∷ carol ∷ bob ∷ []

third_generation : dials_to sample_iroh bob (carol ∷ bob ∷ []) ≡ 1
unfolding dials_to Peer-discrete
third_generation = refl

allocate_all-sequence_example :
    (g' : DialIdGenerator Peer) × (allocate_all sample_iroh toy_hash
        (with_epoch alice epoch7)
        remotes
      ≡ some (sequence sample_iroh toy_hash alice epoch7 [] remotes, g'))
allocate_all-sequence_example =
    allocate_all-sequence sample_iroh toy_hash alice epoch7 remotes (omega arith)
