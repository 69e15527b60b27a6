-- ===== src/Frame/Tests.antt =====
-- The frames of the tests in frame.rs, and the theorems at them.
use iroh_webrtc_messenger.Common.{
  ◌≡◌, refl, [], ◌∷◌, ◌++◌, some, ok, err, Bytes, Bytes-discrete, ℕ_discrete, codes, replicate,
  arith,
}
use iroh_webrtc_messenger.Errors.{invalid_frame}
use iroh_webrtc_messenger.Frame.{
  WebRtcPacketFrame, default_max_payload_len, layout, encode, decode, frame_session_id,
  decode_header, decode_body, normalized_segment_size, read_segment_size,
}
use iroh_webrtc_messenger.Frame.RoundTrip.{
  IsFrame, carried_segment_size, decode-encode, frame_session_id-encode,
}
use iroh_webrtc_messenger.Frame.Checks.{
  IsDecoded, encode_total, wire_segment_size, encode_refuses, decode-IsDecoded,
}
use iroh_webrtc_messenger.Frame.Canonical.{encode-decode}

abbrev id5 : Bytes
id5 = replicate 16 5

abbrev segmented : WebRtcPacketFrame
segmented = record {
  flags = 0;
  session_id = id5;
  segment_size = some 4;
  payload = codes "aaaabbbbcc";
}

abbrev segmented_bytes : Bytes
segmented_bytes =
    codes "IWRT" ++ (4 ∷ 0 ∷ (id5 ++ (0 ∷ 0 ∷ 0 ∷ 4 ∷ 0 ∷ 0 ∷ 0 ∷ 10 ∷ codes "aaaabbbbcc")))

encoded : encode segmented default_max_payload_len ≡ ok segmented_bytes
unfolding encode normalized_segment_size
encoded = refl

decoded : decode segmented_bytes default_max_payload_len ≡ ok segmented
unfolding decode decode_header decode_body read_segment_size Bytes-discrete ℕ_discrete
decoded = refl

bad_magic : decode (0 ∷ segmented_bytes) default_max_payload_len ≡ err (invalid_frame "bad magic")
unfolding decode decode_header decode_body read_segment_size Bytes-discrete ℕ_discrete
bad_magic = refl

segmented-IsFrame : IsFrame segmented
segmented-IsFrame = omega arith

decode-encode_example : decode segmented_bytes default_max_payload_len ≡ ok segmented
unfolding encode normalized_segment_size carried_segment_size
decode-encode_example =
    decode-encode segmented default_max_payload_len segmented_bytes segmented-IsFrame refl

frame_session_id-encode_example : frame_session_id segmented_bytes ≡ ok id5
unfolding encode normalized_segment_size
frame_session_id-encode_example =
    frame_session_id-encode segmented default_max_payload_len segmented_bytes segmented-IsFrame refl

encode_total_example : encode segmented 100 ≡ ok (layout segmented 4)
unfolding wire_segment_size
encode_total_example =
    encode_total segmented 100 (omega arith) (omega arith) (omega arith) (λ e. cc)

abbrev empty : WebRtcPacketFrame
empty = record segmented { payload = [] }

encode_refuses_example : encode empty 100 ≡ err (invalid_frame "payload is empty")
encode_refuses_example = (encode_refuses empty 100 (omega arith)).0 refl

decode-IsDecoded_example : IsDecoded segmented default_max_payload_len
decode-IsDecoded_example =
    decode-IsDecoded segmented_bytes default_max_payload_len segmented decoded

encode-decode_example : encode segmented default_max_payload_len ≡ ok segmented_bytes
encode-decode_example =
    encode-decode segmented_bytes default_max_payload_len segmented (omega arith) decoded
