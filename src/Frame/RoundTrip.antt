-- ===== src/Frame/RoundTrip.antt =====
-- Frames written by `encode` and read back.
use iroh_webrtc_messenger.Common.{
  ℕ, ◌+◌, ◌^◌, ◌≤◌, ◌<◌, ◌≡◌, inl, inr, ◌++◌, Option, none, some, ok, Result-cases, ◌>>=◌, leb,
  if◌then◌else◌, Bytes, Bytes-discrete, ℕ_discrete, be32, from_be-be32, length, drop,
  take_of_length, drop_past, length-append, arith,
}
use iroh_webrtc_messenger.Frame.{
  WebRtcPacketFrame, header_len, normalized_segment_size, layout, encode, read_segment_size,
  decode_header, decode_body, decode, frame_session_id,
}

-- A frame whose fields have the widths of their Rust types.
pub record IsFrame (f : WebRtcPacketFrame) : Type 0 where
  pub flags : f.flags < 256
  pub session_id : length f.session_id ≡ 16

-- Every frame that `layout` writes has room for a header.
pub length-layout :
    (f : WebRtcPacketFrame) (segment : ℕ)
    → IsFrame f
    → length (layout f segment) ≡ header_len + length f.payload
length-layout f segment v = omega (
  arith,
  v.session_id,
  length-append {0} f.session_id (be32 segment ++ (be32 (length f.payload) ++ f.payload)),
)

-- A header that `layout` wrote is read back field by field.
decode_header-layout :
    (f : WebRtcPacketFrame) (segment : ℕ)
    → IsFrame f
    → segment < 2 ^ 32
    → length f.payload < 2 ^ 32
    → decode_header (layout f segment) ≡ (
        read_segment_size segment (length f.payload) >>= λ size. ok (record {
          flags = f.flags;
          session_id = f.session_id;
          segment_size = size;
          payload_len = length f.payload;
        }))
unfolding decode_header Bytes-discrete ℕ_discrete
decode_header-layout f segment v hs hp =
    let rest = be32 segment ++ (be32 (length f.payload) ++ f.payload) in
    rw
      (
        take_of_length 16 f.session_id rest v.session_id,
        drop_past 16 0 f.session_id rest (omega (arith, v.session_id)),
        drop_past 20 4 f.session_id rest (omega (arith, v.session_id)),
        from_be-be32 segment hs,
        from_be-be32 (length f.payload) hp,
        length-layout f segment v,
      )
      (ground arith)

-- The segment size that reaches the receiver: one as long as the payload means no segmentation.
unfoldable pub carried_segment_size : Option ℕ → ℕ → Option ℕ
carried_segment_size none payload_len = none
carried_segment_size (some size) payload_len = if leb payload_len size then none else some size

read-normalized :
    (size : Option ℕ) (n segment : ℕ)
    → normalized_segment_size size n ≡ ok segment
    → read_segment_size segment n ≡ ok (carried_segment_size size n)
unfolding normalized_segment_size read_segment_size carried_segment_size
read-normalized none n segment h = ground arith
read-normalized (some size) n segment h = ground arith

normalized-lt :
    (size : Option ℕ) (n segment : ℕ)
    → normalized_segment_size size n ≡ ok segment
    → segment < 2 ^ 32
unfolding normalized_segment_size
normalized-lt none n segment h = ground arith
normalized-lt (some size) n segment h = ground arith

-- What the checks of `encode` have established when it returns bytes.
record Encoded (f : WebRtcPacketFrame) (max : ℕ) (bytes : Bytes) : Type 0 where
  segment : ℕ
  nonempty : 0 < length f.payload
  within : length f.payload ≤ max
  narrow : length f.payload < 2 ^ 32
  normalized : normalized_segment_size f.segment_size (length f.payload) ≡ ok segment
  written : bytes ≡ layout f segment

encode-Encoded :
    (f : WebRtcPacketFrame) (max : ℕ) (bytes : Bytes)
    → encode f max ≡ ok bytes
    → Encoded f max bytes
unfolding encode
encode-Encoded f max bytes h =
    elim (Result-cases (normalized_segment_size f.segment_size (length f.payload))) [
      | inl (segment, e) ↦ record {
        segment = segment;
        nonempty = ground arith;
        within = ground arith;
        narrow = ground arith;
        normalized = e;
        written = ground arith;
      }
      | inr (x, e) ↦ absurd (ground arith)
    ]

header-encode :
    (f : WebRtcPacketFrame) (max : ℕ) (bytes : Bytes)
    → IsFrame f
    → Encoded f max bytes
    → decode_header bytes
      ≡ ok (record {
        flags = f.flags;
        session_id = f.session_id;
        segment_size = carried_segment_size f.segment_size (length f.payload);
        payload_len = length f.payload;
      })
header-encode f max bytes v e = rw (
  e.written,
  decode_header-layout f e.segment v
      (normalized-lt f.segment_size (length f.payload) e.segment e.normalized) e.narrow,
  read-normalized f.segment_size (length f.payload) e.segment e.normalized,
)

payload-layout :
    (f : WebRtcPacketFrame) (segment : ℕ)
    → IsFrame f
    → drop header_len (layout f segment) ≡ f.payload
payload-layout f segment v =
    drop_past 24 8 f.session_id (be32 segment ++ (be32 (length f.payload) ++ f.payload))
      (omega (arith, v.session_id))

-- A frame that `encode` accepts is decoded, under the same limit, to the frame itself; only a
-- segment size that is no smaller than the payload is not carried.
pub decode-encode :
    (f : WebRtcPacketFrame) (max : ℕ) (bytes : Bytes)
    → IsFrame f
    → encode f max ≡ ok bytes
    → decode bytes max
      ≡ ok (record f { segment_size = carried_segment_size f.segment_size (length f.payload) })
unfolding decode decode_body
decode-encode f max bytes v h =
    let e = encode-Encoded f max bytes h in
    rw (header-encode f max bytes v e)
      (rw e.written (ground (arith, e, length-layout f e.segment v, payload-layout f e.segment v)))

-- The route of an encoded frame is read off its header alone.
pub frame_session_id-encode :
    (f : WebRtcPacketFrame) (max : ℕ) (bytes : Bytes)
    → IsFrame f
    → encode f max ≡ ok bytes
    → frame_session_id bytes ≡ ok f.session_id
unfolding frame_session_id
frame_session_id-encode f max bytes v h =
    rw (header-encode f max bytes v (encode-Encoded f max bytes h))
