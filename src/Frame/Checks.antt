-- ===== src/Frame/Checks.antt =====
-- What `encode` refuses, and what a decoded frame is known to satisfy.
use iroh_webrtc_messenger.Common.{
  ℕ, ◌+◌, ◌^◌, ◌≤◌, ◌<◌, ◌≡◌, ◌≢◌, refl, ap, [], Option, none, some, ok, err, ltb, if◌then◌else◌,
  Bytes, from_be, length, take, drop, get_or, arith, length-take, length-drop,
}
use iroh_webrtc_messenger.Frame.{
  WebRtcPacketFrame, FrameHeader, frame_magic, header_len, normalized_segment_size, layout, encode,
  read_segment_size, decode_header, decode_body, decode,
}
use iroh_webrtc_messenger.Errors.{invalid_frame, payload_too_large, Fallible}

-- The segment size field of a frame: 0 where the payload is not segmented.
unfoldable pub wire_segment_size : Option ℕ → ℕ → ℕ
wire_segment_size none payload_len = 0
wire_segment_size (some size) payload_len = if ltb size payload_len then size else 0

normalized-wire :
    (size : Option ℕ) (n : ℕ)
    → n < 2 ^ 32
    → size ≢ some 0
    → normalized_segment_size size n ≡ ok (wire_segment_size size n)
unfolding normalized_segment_size wire_segment_size
normalized-wire none n h nonzero = refl
normalized-wire (some size) n h nonzero = ground arith

-- A payload of 1 to `max` bytes, `max` below 2^32, with a segment size that is not zero is encoded;
-- a segment size as long as the payload or longer is written as 0.
pub encode_total :
    (f : WebRtcPacketFrame) (max : ℕ)
    → 0 < length f.payload
    → length f.payload ≤ max
    → max < 2 ^ 32
    → f.segment_size ≢ some 0
    → encode f max ≡ ok (layout f (wire_segment_size f.segment_size (length f.payload)))
unfolding encode
encode_total f max nonempty within narrow nonzero =
    rw (normalized-wire f.segment_size (length f.payload) (omega arith) nonzero, encode)
      (ground arith)

-- The refusals of `encode`, in the order of its checks.
pub encode_refuses :
    (f : WebRtcPacketFrame) (max : ℕ)
    → max < 2 ^ 32
    → (f.payload ≡ [] → encode f max ≡ err (invalid_frame "payload is empty"))
      × (max < length f.payload → encode f max ≡ err (payload_too_large (length f.payload) max))
      × (0 < length f.payload
          → length f.payload ≤ max
          → f.segment_size ≡ some 0
          → encode f max ≡ err (invalid_frame "segment size is zero"))
unfolding encode normalized_segment_size
encode_refuses f max narrow =
    (λ e. ground arith, λ h. ground arith, λ nonempty within e. ground arith)

-- What the checks of `decode_header` have established when it returns a header.
pub record HeaderOf (bytes : Bytes) (h : FrameHeader) : Type 0 where
  pub long : header_len ≤ length bytes
  pub magic : take 4 bytes ≡ frame_magic
  pub version : get_or bytes 4 0 ≡ 4
  pub flags : h.flags ≡ get_or bytes 5 0
  pub session_id : h.session_id ≡ take 16 (drop 6 bytes)
  pub payload_len : h.payload_len ≡ from_be 0 (take 4 (drop 26 bytes))
  pub segment :
      read_segment_size (from_be 0 (take 4 (drop 22 bytes))) (from_be 0 (take 4 (drop 26 bytes)))
      ≡ ok h.segment_size

-- `decode_header` seen with its two computed parts as variables.
HeaderOf-parts :
    (bytes : Bytes) (h : FrameHeader) (r : Fallible (Option ℕ))
    → read_segment_size (from_be 0 (take 4 (drop 22 bytes))) (from_be 0 (take 4 (drop 26 bytes)))
      ≡ r
    → decode_header bytes ≡ ok h
    → HeaderOf bytes h
unfolding decode_header
HeaderOf-parts bytes h (ok size) e d = record {
  long = ground arith;
  magic = ground arith;
  version = ground arith;
  flags = ground arith;
  session_id = ground arith;
  payload_len = ground arith;
  segment = ground arith;
}
HeaderOf-parts bytes h (err x) e d = absurd (ground arith)

pub decode_header-HeaderOf :
    (bytes : Bytes) (h : FrameHeader) → decode_header bytes ≡ ok h → HeaderOf bytes h
decode_header-HeaderOf bytes h d = HeaderOf-parts bytes h _ refl d

-- What the checks of `decode` have established when it returns a frame.
pub record Decoded (bytes : Bytes) (max : ℕ) (f : WebRtcPacketFrame) : Type 0 where
  pub header : FrameHeader
  pub header_of : HeaderOf bytes header
  pub exact : length bytes ≡ header_len + header.payload_len
  pub nonempty : 0 < header.payload_len
  pub within : header.payload_len ≤ max
  pub flags : f.flags ≡ header.flags
  pub session_id : f.session_id ≡ header.session_id
  pub segment_size : f.segment_size ≡ header.segment_size
  pub payload : f.payload ≡ drop header_len bytes

decode_of_header :
    (bytes : Bytes) (max : ℕ) (f : WebRtcPacketFrame) (r : Fallible FrameHeader)
    → decode_header bytes ≡ r
    → decode bytes max ≡ ok f
    → Decoded bytes max f
unfolding decode decode_body
decode_of_header bytes max f (ok h) e d = record {
  header = h;
  header_of = decode_header-HeaderOf bytes h e;
  exact = ground arith;
  nonempty = ground arith;
  within = ground arith;
  flags = ground arith;
  session_id = ground arith;
  segment_size = ground arith;
  payload = ground arith;
}
decode_of_header bytes max f (err x) e d = absurd (ground arith)

pub decode-Decoded :
    (bytes : Bytes) (max : ℕ) (f : WebRtcPacketFrame)
    → decode bytes max ≡ ok f
    → Decoded bytes max f
decode-Decoded bytes max f d = decode_of_header bytes max f _ refl d

-- A frame as `decode` promises it.
pub record IsDecoded (f : WebRtcPacketFrame) (max : ℕ) : Type 0 where
  pub session_id : length f.session_id ≡ 16
  pub nonempty : 0 < length f.payload
  pub within : length f.payload ≤ max
  pub segmented : (size : ℕ) → f.segment_size ≡ some size → (0 < size) × (size < length f.payload)

read_segment_size_bounds :
    (n m : ℕ) {size : ℕ}
    → read_segment_size n m ≡ ok (some size)
    → (0 < size) × (size < m) × (size ≡ n)
unfolding read_segment_size
read_segment_size_bounds n m h = ground arith

-- Whatever bytes arrive, a frame that is decoded has a payload within the limit, a route of sixteen
-- bytes, and a segment size, if any, that cuts the payload into more than one datagram.
pub decode-IsDecoded :
    (bytes : Bytes) (max : ℕ) (f : WebRtcPacketFrame) → decode bytes max ≡ ok f → IsDecoded f max
decode-IsDecoded bytes max f h =
    let d = decode-Decoded bytes max f h in
    let sizes : length f.payload ≡ d.header.payload_len =
      omega (arith, ap length d.payload, length-drop {0} header_len bytes, d.exact) in
    record {
      session_id = omega (
        arith,
        ap length d.session_id,
        ap length d.header_of.session_id,
        length-take {0} 16 (drop 6 bytes),
        length-drop {0} 6 bytes,
        d.header_of.long,
      );
      nonempty = omega (arith, d.nonempty);
      within = omega (arith, d.within);
      segmented = λ size e. ground (
        arith,
        read_segment_size_bounds (from_be 0 (take 4 (drop 22 bytes))) d.header.payload_len
            {size = size},
        d.header_of.segment,
        d.header_of.payload_len,
        d.segment_size,
      );
    }
