-- ===== src/Frame.antt =====
-- crates/iroh-webrtc-transport/src/core/frame.rs: the binary frame of a DataChannel message.
-- A byte string is a list of numbers; `usize` values are numbers, and the conversions to `u32`
-- keep their range checks.
pub mod RoundTrip
pub mod Checks
pub mod Canonical
mod Tests
use iroh_webrtc_messenger.Common.{
  ℕ, zero, suc, ◌+◌, ◌*◌, ◌^◌, ◌≡◌, Bool, not, List, [], ◌∷◌, ◌++◌, Option, none, some, Result, ok,
  err, ◌>>=◌, ◌>>◌, fail_if, leb, ltb, ◌==◌, if◌then◌else◌, Bytes, Bytes-discrete, same, be32,
  from_be, codes, length, take, drop, get_or,
}
use iroh_webrtc_messenger.Errors.{Error, invalid_frame, payload_too_large, Fallible}

abbrev pub frame_magic : Bytes
frame_magic = codes "IWRT"

abbrev pub frame_version : ℕ
frame_version = 4

abbrev pub default_max_payload_len : ℕ
default_max_payload_len = 65535

abbrev pub header_len : ℕ
header_len = 4 + 1 + 1 + 16 + 4 + 4

pub record WebRtcPacketFrame : Type 0 where
  pub flags : ℕ
  pub session_id : Bytes
  pub segment_size : Option ℕ
  pub payload : Bytes

pub record FrameHeader : Type 0 where
  pub flags : ℕ
  pub session_id : Bytes
  pub segment_size : Option ℕ
  pub payload_len : ℕ

-- 0 on the wire stands for no segmentation.
unfoldable pub normalized_segment_size : Option ℕ → ℕ → Fallible ℕ
normalized_segment_size none payload_len = ok 0
normalized_segment_size (some size) payload_len =
    if size == 0
    then err (invalid_frame "segment size is zero")
    else if leb payload_len size
    then ok 0
    else if leb (2 ^ 32) size
    then err (invalid_frame "segment size exceeds u32")
    else ok size

-- The bytes that `encode` lays out, once its checks have passed.
abbrev pub layout : WebRtcPacketFrame → ℕ → Bytes
layout f segment =
    frame_magic
    ++ frame_version
      ∷ f.flags
      ∷ (f.session_id ++ (be32 segment ++ (be32 (length f.payload) ++ f.payload)))

unfoldable pub encode : WebRtcPacketFrame → ℕ → Fallible Bytes
encode f max_payload_len = do
  fail_if (length f.payload == 0) (invalid_frame "payload is empty")
  fail_if (ltb max_payload_len (length f.payload))
      (payload_too_large (length f.payload) max_payload_len)
  fail_if (leb (2 ^ 32) (length f.payload)) (invalid_frame "payload length exceeds u32")
  segment ← normalized_segment_size f.segment_size (length f.payload)
  ok (layout f segment)

-- The segment size that a header's field stands for.
unfoldable pub read_segment_size : ℕ → ℕ → Fallible (Option ℕ)
read_segment_size size payload_len =
    if size == 0
    then ok none
    else if leb payload_len size
    then err (invalid_frame "segment size is not smaller than payload")
    else ok (some size)

unfoldable pub decode_header : Bytes → Fallible FrameHeader
decode_header bytes = do
  fail_if (ltb (length bytes) header_len) (invalid_frame "frame too short")
  fail_if (not (same Bytes-discrete (take 4 bytes) frame_magic)) (invalid_frame "bad magic")
  fail_if (not (get_or bytes 4 0 == frame_version)) (invalid_frame "unsupported version")
  let payload_len = from_be 0 (take 4 (drop 26 bytes))
  segment_size ← read_segment_size (from_be 0 (take 4 (drop 22 bytes))) payload_len
  ok (record {
    flags = get_or bytes 5 0;
    session_id = take 16 (drop 6 bytes);
    segment_size = segment_size;
    payload_len = payload_len;
  })

-- What `decode` makes of a header that it has read.
unfoldable pub decode_body : Bytes → ℕ → FrameHeader → Fallible WebRtcPacketFrame
decode_body bytes max_payload_len header = do
  fail_if (not (length bytes == header_len + header.payload_len))
      (invalid_frame "payload length mismatch")
  fail_if (header.payload_len == 0) (invalid_frame "payload is empty")
  fail_if (ltb max_payload_len header.payload_len)
      (payload_too_large header.payload_len max_payload_len)
  ok (record {
    flags = header.flags;
    session_id = header.session_id;
    segment_size = header.segment_size;
    payload = drop header_len bytes;
  })

unfoldable pub decode : Bytes → ℕ → Fallible WebRtcPacketFrame
decode bytes max_payload_len = do
  header ← decode_header bytes
  decode_body bytes max_payload_len header

-- `WebRtcPacketFrame::session_id`: the route of a frame, with no check of its payload.
unfoldable pub frame_session_id : Bytes → Fallible Bytes
frame_session_id bytes = do header ← decode_header bytes; ok header.session_id
