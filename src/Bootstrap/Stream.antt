-- ===== src/Bootstrap/Stream.antt =====
-- Signals written one after another are read one after another.
use iroh_webrtc_messenger.Common.{
  ℕ, zero, suc, ◌≡◌, ◌∙◌, ap, ◌<◌, ◌≤◌, ◌+◌, ◌^◌, List, [], ◌∷◌, ◌++◌, append_assoc, some, ok,
  ◌>>=◌, Bytes, length, take, drop, be32, from_be, from_be-be32, length-append, length-drop,
  take-append, drop-append, arith, Result-cases, Option-cases, inl, inr,
}
use iroh_webrtc_messenger.Signal.{WebRtcSignal}
use iroh_webrtc_messenger.Bootstrap.{
  Fallible, Json, frame_body, encode_signal, decode_signal_body, read_signal,
}

module _ {EndpointId : Type 0} (json : Json EndpointId) where
  -- What the checks of `encode_signal` have established when it returns bytes.
  record Encoded (signal : WebRtcSignal EndpointId) (max : ℕ) (bytes : Bytes) : Type 0 where
    body : Bytes
    within : length body ≤ max
    narrow : length body < 2 ^ 32
    read_back : json.from_slice body ≡ some signal
    written : bytes ≡ be32 (length body) ++ body

  encode_signal-Encoded :
      (signal : WebRtcSignal EndpointId) (max : ℕ) (bytes : Bytes)
      → encode_signal json signal max ≡ ok bytes
      → Encoded signal max bytes
  unfolding encode_signal frame_body
  encode_signal-Encoded signal max bytes h = elim (Option-cases (json.to_vec signal)) [
    | inl e ↦ absurd (ground (arith, h, e))
    | inr (body, e) ↦ record {
      body = body;
      within = ground (arith, h, e);
      narrow = ground (arith, h, e);
      read_back = json.from_slice-to_vec signal body e;
      written = ground (arith, h, e);
    }
  ]

  read_signal-layout :
      (signal : WebRtcSignal EndpointId) (max : ℕ) (body rest : Bytes)
      → length body ≤ max
      → length body < 2 ^ 32
      → json.from_slice body ≡ some signal
      → read_signal json max ((be32 (length body) ++ body) ++ rest) ≡ ok (signal, rest)
  unfolding read_signal decode_signal_body
  read_signal-layout signal max body rest within narrow read_back = ground (
    arith,
    within,
    narrow,
    read_back,
    from_be-be32 (length body) narrow,
    length-append body rest,
    take-append body rest,
    drop-append body rest,
  )

  -- A signal that `encode_signal` accepts is read, under the same limit, from the front of any stream
  -- that starts with its bytes, and what follows them is left to be read.
  pub read_signal-encode_signal :
      (signal : WebRtcSignal EndpointId) (max : ℕ) (bytes rest : Bytes)
      → encode_signal json signal max ≡ ok bytes
      → read_signal json max (bytes ++ rest) ≡ ok (signal, rest)
  read_signal-encode_signal signal max bytes rest h =
      let e = encode_signal-Encoded signal max bytes h in
      ap (λ b. read_signal json max (b ++ rest)) e.written
      ∙ read_signal-layout signal max e.body rest e.within e.narrow e.read_back

  -- `encode_signal` of each signal, one frame after another.
  unfoldable pub encode_all : List (WebRtcSignal EndpointId) → ℕ → Fallible Bytes
  encode_all [] max = ok []
  encode_all (signal ∷ signals) max = do
    bytes ← encode_signal json signal max
    stream ← encode_all signals max
    ok (bytes ++ stream)

  -- `read_signal` as many times as there are signals to read.
  unfoldable pub read_all : ℕ → ℕ → Bytes → Fallible (List (WebRtcSignal EndpointId) × Bytes)
  read_all zero max stream = ok ([], stream)
  read_all (suc count) max stream = do
    first ← read_signal json max stream
    others ← read_all count max first.1
    ok (first.0 ∷ others.0, others.1)

  -- The signals that one side has written to a stream are the signals that the other side, with the
  -- same limit, reads from it, in their order, each to its end.
  pub read_all-encode_all :
      (signals : List (WebRtcSignal EndpointId)) (max : ℕ) (stream rest : Bytes)
      → encode_all signals max ≡ ok stream
      → read_all (length signals) max (stream ++ rest) ≡ ok (signals, rest)
  unfolding encode_all read_all
  read_all-encode_all [] max stream rest h = ground (arith, h)
  read_all-encode_all (signal ∷ signals) max stream rest h =
      elim (Result-cases (encode_signal json signal max)) [
        | inr (x, e) ↦ absurd (ground (arith, h, e))
        | inl (bytes, e) ↦ elim (Result-cases (encode_all signals max)) [
          | inr (x, later) ↦ absurd (ground (arith, h, e, later))
          | inl (tail, later) ↦
              let joined : stream ≡ bytes ++ tail = ground (arith, h, e, later) in
              ground (
                arith,
                joined,
                append_assoc bytes tail rest,
                read_signal-encode_signal signal max bytes (tail ++ rest) e,
                read_all-encode_all signals max tail rest later,
              )
        ]
      ]

  -- A signal that is read took at most four bytes and as many as the limit allows.
  pub read_signal-bound :
      (max : ℕ) (stream rest : Bytes) (signal : WebRtcSignal EndpointId)
      → read_signal json max stream ≡ ok (signal, rest)
      → length stream ≤ 4 + max + length rest
  unfolding read_signal
  read_signal-bound max stream rest signal h =
      ground
        (arith, h, length-drop 4 stream, length-drop (from_be 0 (take 4 stream)) (drop 4 stream))
