-- ===== src/Bootstrap/Tests.antt =====
-- A stream of two signals, with a reader and writer of just such signals in the place of serde_json.
use iroh_webrtc_messenger.Common.{
  ℕ, ◌≡◌, refl, ◌≤◌, ◌+◌, [], ◌∷◌, ◌++◌, Option, none, some, ok, err, Bytes, length, arith,
}
use iroh_webrtc_messenger.Samples.{Peer, alice, bob}
use iroh_webrtc_messenger.Signal.{WebRtcSignal, end_of_candidates}
use iroh_webrtc_messenger.Bootstrap.{
  Json, length_exceeds_maximum, encode_signal, frame_body, read_signal, decode_signal_body,
}
use iroh_webrtc_messenger.Bootstrap.Stream.{
  encode_all, read_all, read_signal-encode_signal, read_all-encode_all, read_signal-bound,
}

-- The generation of an end of candidates from alice to bob.
abbrev to_text : WebRtcSignal Peer → Option Bytes
to_text (end_of_candidates [] alice bob g) = some (g ∷ [])
to_text _ = none

abbrev of_text : Bytes → Option (WebRtcSignal Peer)
of_text (g ∷ []) = some (end_of_candidates [] alice bob g)
of_text _ = none

of_text-to_text :
    (s : WebRtcSignal Peer) (body : Bytes) → to_text s ≡ some body → of_text body ≡ some s
of_text-to_text (end_of_candidates [] alice bob g) body h = ground (arith, h)
of_text-to_text _ body h = absurd (ground (arith, h))

abbrev sample_json : Json Peer
sample_json = record { to_vec = to_text; from_slice = of_text; from_slice-to_vec = of_text-to_text }

abbrev ends : ℕ → WebRtcSignal Peer
ends g = end_of_candidates [] alice bob g

abbrev stream : Bytes
stream = 0 ∷ 0 ∷ 0 ∷ 1 ∷ 7 ∷ 0 ∷ 0 ∷ 0 ∷ 1 ∷ 8 ∷ []

read_all-encode_all_example :
    read_all sample_json 2 100 (stream ++ 9 ∷ []) ≡ ok (ends 7 ∷ ends 8 ∷ [], 9 ∷ [])
unfolding encode_all encode_signal frame_body
read_all-encode_all_example =
    read_all-encode_all sample_json (ends 7 ∷ ends 8 ∷ []) 100 stream (9 ∷ []) refl

read_signal-encode_signal_example :
    read_signal sample_json 1 ((0 ∷ 0 ∷ 0 ∷ 1 ∷ 7 ∷ []) ++ 9 ∷ []) ≡ ok (ends 7, 9 ∷ [])
unfolding encode_signal frame_body
read_signal-encode_signal_example =
    read_signal-encode_signal sample_json (ends 7) 1 (0 ∷ 0 ∷ 0 ∷ 1 ∷ 7 ∷ []) (9 ∷ []) refl

read_signal-bound_example : length stream ≤ 4 + 1 + 5
unfolding read_signal decode_signal_body
read_signal-bound_example =
    read_signal-bound sample_json 1 stream (0 ∷ 0 ∷ 0 ∷ 1 ∷ 8 ∷ []) (ends 7) refl

-- `oversized_signal_frame_is_rejected` of bootstrap.rs.
refuses_oversized : encode_signal sample_json (ends 7) 0 ≡ err (length_exceeds_maximum 1 0)
unfolding encode_signal frame_body
refuses_oversized = refl
