-- ===== src/Node/Streams.antt =====
-- crates/iroh-webrtc-transport/src/browser_runtime/node/stream.rs: the table of streams and the flags
-- that close their halves. Reads and outcome are iroh's; what they return is an argument.
use iroh_webrtc_messenger.Common.{
  ℕ, ◌+◌, ◌^◌, Bool, true, false, not, ◌==◌, Option, none, some, ok, err, ◌>>=◌, ◌>>◌, fail_if,
  if◌then◌else◌, ltb, Bytes, ℕ_discrete, length,
}
use iroh_webrtc_messenger.Common.Maps.{get, insert}
use iroh_webrtc_messenger.Runtime.{web_rtc_failed, runtime_error, closed_error, Runtime}
use iroh_webrtc_messenger.Node.{Platform, Node, BrowserStreamState}

-- `DEFAULT_STREAM_RECEIVE_CHUNK_BYTES`
abbrev pub default_stream_receive_chunk_bytes : ℕ
default_stream_receive_chunk_bytes = 65536

pub record BrowserStreamReceiveOutcome : Type 0 where
  pub done : Bool
  pub chunk : Option Bytes

abbrev pub received_done : BrowserStreamReceiveOutcome
received_done = record { done = true; chunk = none }

-- What writing a chunk comes to: the task is cancelled, the time runs out, iroh fails, or it writes.
pub data WriteResult : Type 0 where
  cancelled timed_out failed written : WriteResult

-- What reading comes to: the task is cancelled, iroh fails, the stream has ended, or the bytes that
-- the buffer holds.
pub data ReadResult : Type 0 where
  cancelled failed end_of_stream : ReadResult
  read : Bytes → ReadResult

-- `max_bytes.filter(|value| *value > 0).unwrap_or(..)`
unfoldable pub receive_limit : Option ℕ → ℕ
receive_limit none = default_stream_receive_chunk_bytes
receive_limit (some n) = if n == 0 then default_stream_receive_chunk_bytes else n

module _ (p : Platform) where
  -- `insert_stream`; the counter panics where it would overflow, which is `none`.
  unfoldable pub insert_stream : Node p → Runtime (Option (ℕ × Node p))
  insert_stream n = do
    fail_if n.accepting.closed closed_error
    ok (
        if ltb (n.next_stream_key + 1) (2 ^ 64)
        then some (
          n.next_stream_key,
          record n {
            next_stream_key = n.next_stream_key + 1;
            streams =
                insert ℕ_discrete n.next_stream_key
                  (record { closed_send = false; closed_recv = false }) n.streams;
          },
        )
        else none)

  abbrev pub ensure_node_open_for_stream : Node p → Runtime (Unit {0})
  ensure_node_open_for_stream n = fail_if n.accepting.closed closed_error

  unfoldable pub stream_handle : Node p → ℕ → Runtime (BrowserStreamState p)
  stream_handle n key = do
    fail_if n.accepting.closed closed_error
    elim (get ℕ_discrete key n.streams) [
      | none ↦ err (runtime_error web_rtc_failed "unknown browser stream key")
      | some s ↦ ok s
    ]

  abbrev pub put_stream : Node p → ℕ → BrowserStreamState p → Node p
  put_stream n key s = record n { streams = insert ℕ_discrete key s n.streams }

  -- `if !closed_send.swap(true) { send.finish()? }`, given whether finishing succeeds: the flag stays
  -- set where it does not.
  abbrev pub finish_send : Node p → ℕ → BrowserStreamState p → Bool → Runtime (Unit {0}) × Node p
  finish_send n key s finishes = if s.closed_send then (ok tt, n) else (
    fail_if (not finishes) (runtime_error web_rtc_failed "failed to finish stream send side"),
    put_stream n key (record s { closed_send = true }),
  )

  -- The part of `send_stream_chunk` that has written.
  abbrev pub after_write :
      Node p → ℕ → BrowserStreamState p → Bytes → Bool → Bool → Runtime ℕ × Node p
  after_write n key s chunk end_stream finishes =
      let finished : Runtime (Unit {0}) × Node p =
        if end_stream then finish_send n key s finishes else (ok tt, n) in
      (finished.0 >> ok (length chunk), finished.1)

  abbrev pub write_chunk :
      Node p → ℕ → BrowserStreamState p → Bytes → Bool → WriteResult → Bool → Runtime ℕ × Node p
  write_chunk n key s chunk end_stream WriteResult.cancelled finishes = (err closed_error, n)
  write_chunk n key s chunk end_stream timed_out finishes =
      (err (runtime_error web_rtc_failed "timed out writing stream chunk"), n)
  write_chunk n key s chunk end_stream WriteResult.failed finishes =
      (err (runtime_error web_rtc_failed "failed to write stream chunk"), n)
  write_chunk n key s chunk end_stream written finishes =
      after_write n key s chunk end_stream finishes

  -- `send_stream_chunk` with nothing in between its awaits: the number of bytes accepted.
  unfoldable pub send_stream_chunk :
      Node p → ℕ → Bytes → Bool → WriteResult → Bool → Runtime ℕ × Node p
  send_stream_chunk n key chunk end_stream outcome finishes = elim (stream_handle n key) [
    | err e ↦ (err e, n)
    | ok s ↦
        if s.closed_send
        then (err closed_error, n)
        else write_chunk n key s chunk end_stream outcome finishes
  ]

  abbrev pub read_outcome : ReadResult → Runtime BrowserStreamReceiveOutcome
  read_outcome ReadResult.cancelled = ok received_done
  read_outcome ReadResult.failed = err (runtime_error web_rtc_failed "failed to read stream chunk")
  read_outcome end_of_stream = ok received_done
  read_outcome (read bytes) =
      if length bytes == 0
      then ok received_done
      else ok (record { done = false; chunk = some bytes })

  -- `receive_stream_chunk`: what iroh reads is given the size of the buffer.
  unfoldable pub receive_stream_chunk :
      Node p → ℕ → Option ℕ → (ℕ → ReadResult) → Runtime BrowserStreamReceiveOutcome
  receive_stream_chunk n key max_bytes reads = do
    ensure_node_open_for_stream n
    s ← stream_handle n key
    if s.closed_recv then ok received_done else read_outcome (reads (receive_limit max_bytes))

  unfoldable pub close_stream_send : Node p → ℕ → Bool → Runtime (Unit {0}) × Node p
  close_stream_send n key finishes = elim (stream_handle n key) [
    | err e ↦ (err e, n)
    | ok s ↦ finish_send n key s finishes
  ]
