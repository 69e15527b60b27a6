-- ===== src/Errors.antt =====
-- crates/iroh-webrtc-transport/src/error.rs: the transport's errors and what they become as `io::Error`.
use iroh_webrtc_messenger.Common.{ℕ, String, Result}

-- `Error`. A `&'static str` is its text.
pub data Error : Type 0 where
  invalid_addr : String → Error
  invalid_frame : String → Error
  payload_too_large : ℕ → ℕ → Error
  unknown_session : Error
  session_closed : Error
  send_queue_full : Error
  browser_web_rtc_unavailable : Error
  web_rtc : String → Error
  invalid_ice_config : String → Error
  invalid_config : String → Error

abbrev pub Fallible {ℓ} : Type ℓ → Type ℓ
Fallible A = Result Error A

-- The `io::ErrorKind`s that the conversion chooses from.
pub data ErrorKind : Type 0 where
  invalid_input not_connected would_block unsupported other invalid_data : ErrorKind

-- `io::Error`: its kind, and the transport's error where it wraps one.
pub data IoError : Type 0 where
  wraps : ErrorKind → Error → IoError
  plain : ErrorKind → String → IoError

-- `impl From<Error> for io::Error`
unfoldable pub io_error : Error → IoError
io_error (invalid_addr m) = wraps invalid_input (invalid_addr m)
io_error (invalid_frame m) = wraps invalid_input (invalid_frame m)
io_error (payload_too_large actual max) = wraps invalid_input (payload_too_large actual max)
io_error unknown_session = wraps not_connected unknown_session
io_error session_closed = wraps not_connected session_closed
io_error send_queue_full = wraps would_block send_queue_full
io_error browser_web_rtc_unavailable = wraps unsupported browser_web_rtc_unavailable
io_error (web_rtc m) = wraps other (web_rtc m)
io_error (invalid_ice_config m) = wraps other (invalid_ice_config m)
io_error (invalid_config m) = wraps other (invalid_config m)

abbrev pub Io {ℓ} : Type ℓ → Type ℓ
Io A = Result IoError A
