-- ===== src/Runtime.antt =====
-- crates/iroh-webrtc-transport/src/browser_runtime/error.rs, types/keys.rs and protocol/keys.rs: the
-- errors of the browser runtime, the keys of its sessions and the check of an ALPN.
pub mod Keys
mod Tests
use iroh_webrtc_messenger.Common.{
  ℕ, ◌+◌, ◌*◌, ◌/◌, ◌%◌, List, [], ◌∷◌, Bytes, Result, ok, err, String, ltb, if◌then◌else◌,
}
use iroh_webrtc_messenger.Errors.{Error}

pub data BrowserRuntimeErrorCode : Type 0 where
  spawn_failed unsupported_browser invalid_stun_url invalid_remote unsupported_alpn web_rtc_failed
        data_channel_failed bootstrap_failed closed :
      BrowserRuntimeErrorCode

-- `as_str`
unfoldable pub as_str : BrowserRuntimeErrorCode → String
as_str spawn_failed = "spawnFailed"
as_str unsupported_browser = "unsupportedBrowser"
as_str invalid_stun_url = "invalidStunUrl"
as_str invalid_remote = "invalidRemote"
as_str unsupported_alpn = "unsupportedAlpn"
as_str web_rtc_failed = "webrtcFailed"
as_str data_channel_failed = "dataChannelFailed"
as_str bootstrap_failed = "bootstrapFailed"
as_str closed = "closed"

-- The text of an error: a literal, a format with the ALPN that it shows, or `to_string` of an error of
-- the transport.
pub data Message : Type 0 where
  text : String → Message
  about : String → Bytes → Message
  shown : Error → Message

pub record BrowserRuntimeError : Type 0 where
  pub code : BrowserRuntimeErrorCode
  pub message : Message

abbrev pub runtime_error : BrowserRuntimeErrorCode → String → BrowserRuntimeError
runtime_error code message = record { code = code; message = text message }

-- `BrowserRuntimeError::closed`
abbrev pub closed_error : BrowserRuntimeError
closed_error = runtime_error closed "browser runtime node is closed"

abbrev pub Runtime {ℓ} : Type ℓ → Type ℓ
Runtime A = Result BrowserRuntimeError A

-- `{byte:x}` of a digit.
abbrev pub hex_digit : ℕ → ℕ
hex_digit d = if ltb d 10 then b'0' + d else 87 + d

-- `BrowserSessionKey::from(DialId)`: two lower-case hexadecimal digits for a byte.
unfoldable pub session_key_of : Bytes → Bytes
session_key_of [] = []
session_key_of (b ∷ bs) = hex_digit (b / 16) ∷ hex_digit (b % 16) ∷ session_key_of bs

-- `BrowserSessionKey::new`
unfoldable pub new_session_key : Bytes → Runtime Bytes
new_session_key [] = err (runtime_error web_rtc_failed "session key must not be empty")
new_session_key (c ∷ cs) = ok (c ∷ cs)

-- `validate_alpn`
unfoldable pub validate_alpn : Bytes → Runtime Bytes
validate_alpn [] = err (runtime_error unsupported_alpn "ALPN must not be empty")
validate_alpn (c ∷ cs) = ok (c ∷ cs)
