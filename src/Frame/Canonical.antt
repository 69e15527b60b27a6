-- ===== src/Frame/Canonical.antt =====
-- One frame has one encoding: what `decode` accepts is what `encode` writes.
use iroh_webrtc_messenger.Common.{
  ℕ, ◌+◌, ◌^◌, ◌≤◌, ◌<◌, ◌≡◌, refl, ap, ◌∷◌, ◌++◌, Option, none, some, ok, Bytes, be32, from_be,
  length, take, drop, get_or, arith, length-drop, AreBytes, be32-from_be-take, take-append-drop,
  drop-drop, drop-get_or, drop-All, sym, ◌∙◌,
}
use iroh_webrtc_messenger.Frame.{
  WebRtcPacketFrame, header_len, normalized_segment_size, layout, encode, read_segment_size, decode,
}
use iroh_webrtc_messenger.Frame.Checks.{Decoded, decode-Decoded, decode-IsDecoded}

normalized-read :
    (n m : ℕ) (size : Option ℕ)
    → n < 2 ^ 32
    → read_segment_size n m ≡ ok size
    → normalized_segment_size size m ≡ ok n
unfolding normalized_segment_size read_segment_size
normalized-read n m none narrow h = ground arith
normalized-read n m (some size) narrow h = ground arith

-- A long enough byte string is its six fields in a row.
fields :
    (bytes : Bytes)
    → header_len ≤ length bytes
    → bytes
      ≡ take 4 bytes
        ++ get_or bytes 4 0
          ∷ get_or bytes 5 0
          ∷ (take 16 (drop 6 bytes)
              ++ (take 4 (drop 22 bytes) ++ (take 4 (drop 26 bytes) ++ drop 30 bytes)))
fields bytes long = sym (
    rw
      (
        ← drop-drop 26 4 bytes,
        take-append-drop 4 (drop 26 bytes),
        ← drop-drop 22 4 bytes,
        take-append-drop 4 (drop 22 bytes),
        ← drop-drop 6 16 bytes,
        take-append-drop 16 (drop 6 bytes),
        ← drop-get_or 5 bytes 0 (omega arith),
        ← drop-get_or 4 bytes 0 (omega arith),
        take-append-drop 4 bytes,
      )
      refl)

-- The two length fields of a decoded byte string, as numbers and as bytes.
record WireSizes (bytes : Bytes) (f : WebRtcPacketFrame) : Type 0 where
  segment : be32 (from_be 0 (take 4 (drop 22 bytes))) ≡ take 4 (drop 22 bytes)
  segment-lt : from_be 0 (take 4 (drop 22 bytes)) < 2 ^ 32
  payload_len : be32 (length f.payload) ≡ take 4 (drop 26 bytes)
  payload_len-lt : length f.payload < 2 ^ 32
  read :
      read_segment_size (from_be 0 (take 4 (drop 22 bytes))) (length f.payload) ≡ ok f.segment_size

four_at :
    (n : ℕ) (bytes : Bytes)
    → AreBytes bytes
    → n + 4 ≤ length bytes
    → (be32 (from_be 0 (take 4 (drop n bytes))) ≡ take 4 (drop n bytes))
      × (from_be 0 (take 4 (drop n bytes)) < 2 ^ 32)
four_at n bytes v h =
    be32-from_be-take (drop n bytes) (drop-All (λ b. b < 256) n bytes v)
      (omega (arith, length-drop {0} n bytes))

Decoded-WireSizes :
    (bytes : Bytes) (max : ℕ) (f : WebRtcPacketFrame)
    → AreBytes bytes
    → Decoded bytes max f
    → WireSizes bytes f
Decoded-WireSizes bytes max f v d =
    let h = d.header_of in
    let at22 = four_at 22 bytes v (omega (arith, h.long)) in
    let at26 = four_at 26 bytes v (omega (arith, h.long)) in
    let len : length f.payload ≡ from_be 0 (take 4 (drop 26 bytes)) =
      omega
        (arith, ap length d.payload, length-drop {0} header_len bytes, d.exact, h.payload_len) in
    record {
      segment = at22.0;
      segment-lt = at22.1;
      payload_len = ap be32 len ∙ at26.0;
      payload_len-lt = omega (arith, at26.1);
      read =
          ap (read_segment_size (from_be 0 (take 4 (drop 22 bytes)))) len
          ∙ h.segment
          ∙ ap ok (sym d.segment_size);
    }

layout-Decoded :
    (bytes : Bytes) (max : ℕ) (f : WebRtcPacketFrame)
    → Decoded bytes max f
    → WireSizes bytes f
    → layout f (from_be 0 (take 4 (drop 22 bytes))) ≡ bytes
layout-Decoded bytes max f d w =
    let h = d.header_of in
    let flags = d.flags ∙ h.flags in
    let session_id = d.session_id ∙ h.session_id in
    (λ i.
      sym h.magic i
      ++ sym h.version i
        ∷ flags i
        ∷ (session_id i ++ (w.segment i ++ (w.payload_len i ++ d.payload i))))
    ∙ sym (fields bytes h.long)

-- Bytes that are decoded to a frame are what the frame is encoded to, under the same limit: no two
-- messages stand for one frame.
pub encode-decode :
    (bytes : Bytes) (max : ℕ) (f : WebRtcPacketFrame)
    → AreBytes bytes
    → decode bytes max ≡ ok f
    → encode f max ≡ ok bytes
unfolding encode
encode-decode bytes max f v h =
    let d = decode-Decoded bytes max f h in
    let w = Decoded-WireSizes bytes max f v d in
    let good = decode-IsDecoded bytes max f h in
    rw (normalized-read _ (length f.payload) f.segment_size w.segment-lt w.read, encode)
      (rw (layout-Decoded bytes max f d w)
        (ground (arith, w.payload_len-lt, good.nonempty, good.within)))
