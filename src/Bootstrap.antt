-- ===== src/Bootstrap.antt =====
-- crates/iroh-webrtc-transport/src/core/bootstrap.rs: signals as length-prefixed frames of a stream.
-- The bytes that a stream still brings are a list; a read that outlasts them fails. The JSON text of
-- a signal is serde_json's, a parameter, and timeouts are left out.
pub mod Stream
mod Tests
use iroh_webrtc_messenger.Common.{
  ℕ, ◌≡◌, Bool, not, ◌==◌, ltb, leb, Option, none, some, Result, ok, err, ◌>>=◌, ◌>>◌, fail_if, ◌^◌,
  ◌+◌, ◌-◌, Bytes, length, take, drop, be32, from_be, ◌++◌,
}
use iroh_webrtc_messenger.Signal.{WebRtcSignal}

abbrev pub default_max_bootstrap_message_len : ℕ
default_max_bootstrap_message_len = 65536

-- The failures that the `bail!` and `context` calls report.
pub data BootstrapError : Type 0 where
  encode_failed : BootstrapError
  length_exceeds_maximum : ℕ → ℕ → BootstrapError
  signal_too_large : BootstrapError
  frame_truncated : BootstrapError
  frame_length_mismatch : BootstrapError
  decode_failed : BootstrapError
  read_length_failed : BootstrapError
  read_body_failed : BootstrapError

abbrev pub Fallible {ℓ} : Type ℓ → Type ℓ
Fallible A = Result BootstrapError A

-- What the code relies on of `serde_json`: a text that it writes for a signal is read as that signal.
pub record Json (EndpointId : Type 0) : Type 0 where
  pub to_vec : WebRtcSignal EndpointId → Option Bytes
  pub from_slice : Bytes → Option (WebRtcSignal EndpointId)
  pub from_slice-to_vec :
      (s : WebRtcSignal EndpointId) (body : Bytes) → to_vec s ≡ some body → from_slice body ≡ some s

-- `recv.read_exact` of `n` bytes: the bytes and the rest of the stream.
abbrev pub read_exact : ℕ → BootstrapError → Bytes → Fallible (Bytes × Bytes)
read_exact n e stream = do fail_if (ltb (length stream) n) e; ok (take n stream, drop n stream)

module _ {EndpointId : Type 0} (json : Json EndpointId) where
  open json use {to_vec, from_slice}

  -- The checks and the layout of a signal's body.
  unfoldable pub frame_body : Bytes → ℕ → Fallible Bytes
  frame_body body max_message_len = do
    fail_if (ltb max_message_len (length body))
        (length_exceeds_maximum (length body) max_message_len)
    fail_if (ltb (2 ^ 32 - 1) (length body)) signal_too_large
    ok (be32 (length body) ++ body)

  unfoldable pub encode_signal : WebRtcSignal EndpointId → ℕ → Fallible Bytes
  encode_signal signal max_message_len = elim (to_vec signal) [
    | none ↦ err encode_failed
    | some body ↦ frame_body body max_message_len
  ]

  unfoldable pub decode_signal_body : Bytes → Fallible (WebRtcSignal EndpointId)
  decode_signal_body bytes = elim (from_slice bytes) [
    | none ↦ err decode_failed
    | some signal ↦ ok signal
  ]

  unfoldable pub decode_signal_frame : Bytes → ℕ → Fallible (WebRtcSignal EndpointId)
  decode_signal_frame bytes max_message_len = do
    fail_if (ltb (length bytes) 4) frame_truncated
    let len = from_be 0 (take 4 bytes)
    fail_if (ltb max_message_len len) (length_exceeds_maximum len max_message_len)
    fail_if (not (length bytes == 4 + len)) frame_length_mismatch
    decode_signal_body (drop 4 bytes)

  -- `read_signal_with_timeout`: the signal and the rest of the stream.
  unfoldable pub read_signal : ℕ → Bytes → Fallible (WebRtcSignal EndpointId × Bytes)
  read_signal max_message_len stream = do
    prefix ← read_exact 4 read_length_failed stream
    fail_if (ltb max_message_len (from_be 0 prefix.0))
        (length_exceeds_maximum (from_be 0 prefix.0) max_message_len)
    body ← read_exact (from_be 0 prefix.0) read_body_failed prefix.1
    signal ← decode_signal_body body.0
    ok (signal, body.1)
