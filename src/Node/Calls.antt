-- ===== src/Node/Calls.antt =====
-- Runs of a browser node: any sequence of the methods of node/session.rs, node/rtc.rs,
-- node/connection.rs, node/stream.rs and of closing, by any tasks, as the lock of the node orders
-- them. A call that fails or panics leaves what its method leaves.
use iroh_webrtc_messenger.Common.{ℕ, Bool, List, [], ◌∷◌, Option, none, some, ok, err, Bytes}
use iroh_webrtc_messenger.Signal.{
  BootstrapTransportIntent, WebRtcTerminalReason, DialSessionId, WebRtcSignal,
}
use iroh_webrtc_messenger.Runtime.{Runtime}
use iroh_webrtc_messenger.Session.{BrowserResolvedTransport}
use iroh_webrtc_messenger.Accept.{accept_open, accept_next, accept_close}
use iroh_webrtc_messenger.Node.{Platform, EndpointId, Node}
use iroh_webrtc_messenger.Node.Sessions.{
  allocate_dial_start, allocate_accept_session, attach_transferred_channel,
  mark_transferred_channel_open, complete_dial,
}
use iroh_webrtc_messenger.Node.Signals.{
  handle_bootstrap_signal, emit_terminal_decision, RtcLifecycleInput, handle_rtc_lifecycle_result,
}
use iroh_webrtc_messenger.Node.Connections.{Admission, admit_iroh_application_connection}
use iroh_webrtc_messenger.Node.Streams.{
  WriteResult, insert_stream, send_stream_chunk, close_stream_send,
}
use iroh_webrtc_messenger.Node.Closing.{close_inner}
use iroh_webrtc_messenger.Node.Matching.{accept_webrtc_connection}
use iroh_webrtc_messenger.Node.Handles.{connection_close}

module _ (p : Platform) where
  pub data Call : Type 0 where
    dials : EndpointId p → Bytes → BootstrapTransportIntent → Call
    accepts_dial : EndpointId p → Bytes → DialSessionId → BootstrapTransportIntent → Call
    attaches opens : Bytes → Call
    completes : Bytes → BrowserResolvedTransport → Call
    hears : Option Bytes → WebRtcSignal (EndpointId p) → Call
    decides : Bytes → Option WebRtcTerminalReason → Bytes → Call
    learns : RtcLifecycleInput → Call
    admits :
        (p.Waiter → Bool) → p.Connection → BrowserResolvedTransport → Option Bytes → Bool → Call
    matches : p.Connection → Call
    closes_connection : ℕ → Call
    inserts_stream : Call
    sends : ℕ → Bytes → Bool → WriteResult → Bool → Call
    closes_send : ℕ → Bool → Call
    opens_accept : Bytes → Call
    asks : p.Waiter → ℕ → Call
    closes_accept : ℕ → Call
    closes : Option Bytes → Call

  -- The node after a method that leaves it alone where it fails.
  abbrev pub after : {A : Type 0} → Node p → Runtime (A × Node p) → Node p
  after n (ok (a, n')) = n'
  after n (err e) = n

  -- The same of a method that may panic, which leaves the node alone too.
  abbrev pub after_some : {A : Type 0} → Node p → Runtime (Option (A × Node p)) → Node p
  after_some n (ok (some (a, n'))) = n'
  after_some n (ok none) = n
  after_some n (err e) = n

  abbrev pub after_maybe : {A : Type 0} → Node p → Option (Runtime (A × Node p)) → Node p
  after_maybe n (some r) = after n r
  after_maybe n none = n

  abbrev pub after_admission : Node p → Option (Admission p) → Node p
  after_admission n (some a) = a.node
  after_admission n none = n

  unfoldable pub after_call : Node p → Call → Node p
  after_call n (dials remote alpn intent) =
      after_some n (allocate_dial_start p n remote alpn intent)
  after_call n (accepts_dial remote alpn d intent) =
      after n (allocate_accept_session p n remote alpn d intent)
  after_call n (attaches key) = after n (attach_transferred_channel p n key)
  after_call n (opens key) = after n (mark_transferred_channel_open p n key)
  after_call n (completes key transport) = after n (complete_dial p n key transport)
  after_call n (hears input signal) = after n (handle_bootstrap_signal p n input signal)
  after_call n (decides key reason message) =
      after n (emit_terminal_decision p n key reason message)
  after_call n (learns input) = after n (handle_rtc_lifecycle_result p n input)
  after_call n (admits alive c transport session_key queue_accept) =
      after_admission n
        (admit_iroh_application_connection p alive n c transport session_key queue_accept)
  after_call n (matches c) = after_maybe n (accept_webrtc_connection p n c)
  after_call n (closes_connection key) = after n (connection_close p n key)
  after_call n inserts_stream = after_some n (insert_stream p n)
  after_call n (sends key chunk end_stream outcome finishes) =
      (send_stream_chunk p n key chunk end_stream outcome finishes).1
  after_call n (closes_send key finishes) = (close_stream_send p n key finishes).1
  after_call n (opens_accept alpn) = elim (accept_open alpn n.accepting) [
    | ok r ↦ record n { accepting = r.1 }
    | err e ↦ n
  ]
  after_call n (asks waiter id) = elim (accept_next waiter id n.accepting) [
    | ok r ↦ record n { accepting = r.1 }
    | err e ↦ n
  ]
  after_call n (closes_accept id) = record n { accepting = (accept_close id n.accepting).1 }
  after_call n (closes reason) = (close_inner p n reason).1

  unfoldable pub run : Node p → List Call → Node p
  run n [] = n
  run n (c ∷ cs) = run (after_call n c) cs
