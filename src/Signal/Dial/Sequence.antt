-- ===== src/Signal/Dial/Sequence.antt =====
-- The generations that a `DialIdGenerator` hands out over a sequence of dials.
use iroh_webrtc_messenger.Common.{
  ℕ, suc, ◌+◌, ◌^◌, ◌<◌, ◌≤◌, ◌≡◌, refl, ◌∙◌, List, [], ◌∷◌, Option, none, some, Bytes, length,
  arith, ite,
}
use iroh_webrtc_messenger.Common.Maps.{insert, get-insert}
use iroh_webrtc_messenger.Iroh.{Iroh}
use iroh_webrtc_messenger.Signal.{DialSessionId}
use iroh_webrtc_messenger.Signal.Dial.{
  DialIdGenerator, with_epoch, current_generation, next_generation, from_initiator_sequence, next,
}

module _ (iroh : Iroh) where
  open iroh use {EndpointId, EndpointId-discrete}

  -- How often an endpoint was dialled.
  unfoldable pub dials_to : EndpointId → List EndpointId → ℕ
  dials_to r [] = 0
  dials_to r (x ∷ xs) = let rest = dials_to r xs in ite (EndpointId-discrete x r) (suc rest) rest

  dials_to-le : (r : EndpointId) (xs : List EndpointId) → dials_to r xs ≤ length xs
  unfolding dials_to
  dials_to-le r [] = omega arith
  dials_to-le r (x ∷ xs) = ground (arith, dials_to-le r xs)

  -- A generator that has served the dials `done`.
  record HasServed (g : DialIdGenerator EndpointId) (done : List EndpointId) : Type 0 where
    counts : (r : EndpointId) → current_generation iroh g r ≡ dials_to r done

  next_generation-eq :
      (g : DialIdGenerator EndpointId) (done : List EndpointId) (remote : EndpointId)
      → HasServed g done
      → length done + 1 < 2 ^ 64
      → (g' : DialIdGenerator EndpointId) × (next_generation iroh g remote
          ≡ some (dials_to remote done, g'))
        × HasServed g' (remote ∷ done)
        × (g'.local ≡ g.local)
        × (g'.epoch ≡ g.epoch)
  unfolding next_generation dials_to
  next_generation-eq g done remote v room = (
    record g {
      next_by_remote =
          insert EndpointId-discrete remote (dials_to remote done + 1) g.next_by_remote;
    },
    ground (arith, v.counts remote, dials_to-le remote done),
    record {
      counts = λ r. ground (
        arith,
        v.counts r,
        get-insert EndpointId-discrete remote r (dials_to remote done + 1) g.next_by_remote,
      );
    },
    refl,
    refl,
  )

  module _ (blake3 : Bytes → Bytes) where
    -- The dials of one process, one after the other.
    pub allocate_all :
        DialIdGenerator EndpointId
        → List EndpointId
        → Option (List DialSessionId × DialIdGenerator EndpointId)
    allocate_all g [] = some ([], g)
    allocate_all g (r ∷ rs) = elim (next iroh blake3 g r) [
      | none ↦ none
      | some (s, g') ↦ elim (allocate_all g' rs) [
        | none ↦ none
        | some (ss, g'') ↦ some (s ∷ ss, g'')
      ]
    ]

    -- The sessions as the sequence numbers promise them, after the dials `done`.
    pub sequence : EndpointId → Bytes → List EndpointId → List EndpointId → List DialSessionId
    sequence local epoch done [] = []
    sequence local epoch done (r ∷ rs) =
        record {
          dial_id = from_initiator_sequence iroh blake3 local r epoch (dials_to r done);
          generation = dials_to r done;
        }
        ∷ sequence local epoch (r ∷ done) rs

    allocate_all-cons :
        (g g' g'' : DialIdGenerator EndpointId) (r : EndpointId) (rs : List EndpointId)
        (generation : ℕ) (ss : List DialSessionId)
        → next_generation iroh g r ≡ some (generation, g')
        → allocate_all g' rs ≡ some (ss, g'')
        → allocate_all g (r ∷ rs)
          ≡ some (
            record {
              dial_id = from_initiator_sequence iroh blake3 g.local r g.epoch generation;
              generation = generation;
            }
                ∷ ss,
            g'',
          )
    unfolding allocate_all next
    allocate_all-cons g g' g'' r rs generation ss step rest = ground arith

    allocate_all-sequence_after :
        (g : DialIdGenerator EndpointId) (done rs : List EndpointId)
        → HasServed g done
        → length done + length rs < 2 ^ 64
        → (g' : DialIdGenerator EndpointId) × (allocate_all g rs
            ≡ some (sequence g.local g.epoch done rs, g'))
    unfolding allocate_all sequence
    allocate_all-sequence_after g done [] v room = (g, refl)
    allocate_all-sequence_after g done (r ∷ rs) v room =
        let (g', step, served, same_local, same_epoch) =
          next_generation-eq g done r v (omega arith) in
        let (g'', rest) = allocate_all-sequence_after g' (r ∷ done) rs served (omega arith) in
        (
          g'',
          allocate_all-cons g g' g'' r rs _ _ step
              (rest ∙ (λ i. some (sequence (same_local i) (same_epoch i) (r ∷ done) rs, g''))),
        )

    -- Fewer than 2^64 dials of a new generator all succeed, and each gets as its generation the number
    -- of earlier dials to the same endpoint, whatever was dialled in between.
    pub allocate_all-sequence :
        (local : EndpointId) (epoch : Bytes) (remotes : List EndpointId)
        → length remotes < 2 ^ 64
        → (g' : DialIdGenerator EndpointId) × (allocate_all (with_epoch local epoch) remotes
            ≡ some (sequence local epoch [] remotes, g'))
    unfolding with_epoch dials_to
    allocate_all-sequence local epoch remotes room =
        allocate_all-sequence_after (with_epoch local epoch) [] remotes
          (record { counts = λ r. refl }) (omega arith)
