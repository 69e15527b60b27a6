-- ===== src/Node/Identity.antt =====
-- No call changes which endpoint a node is.
use iroh_webrtc_messenger.Common.{◌≡◌, ◌∙◌, refl, List, [], ◌∷◌, arith}
use iroh_webrtc_messenger.Signal.{dial_request}
use iroh_webrtc_messenger.Node.{Platform, Node, update_session, refresh_webrtc_transport_addrs}
use iroh_webrtc_messenger.Node.Sessions.{
  allocate_dial, allocate_dial_start, allocate_accept_session,
}
use iroh_webrtc_messenger.Node.Signals.{
  apply_remote_terminal_signal, check_routed_signal, accept_dial_request, handle_bootstrap_signal,
  emit_terminal_decision, handle_rtc_lifecycle_result,
}
use iroh_webrtc_messenger.Node.Connections.{
  allocate_connection_key, admit_iroh_application_connection,
}
use iroh_webrtc_messenger.Node.Streams.{insert_stream, send_stream_chunk, close_stream_send}
use iroh_webrtc_messenger.Node.Closing.{close_inner}
use iroh_webrtc_messenger.Node.Matching.{accept_webrtc_connection}
use iroh_webrtc_messenger.Node.Handles.{connection_close}
use iroh_webrtc_messenger.Node.Calls.{
  Call, dials, accepts_dial, attaches, opens, completes, hears, decides, learns, admits, matches,
  closes_connection, inserts_stream, sends, closes_send, opens_accept, asks, closes_accept, closes,
  after_call, run,
}

module _ (p : Platform) where
  pub after_call-endpoint_id :
      (n : Node p) (c : Call p) → (after_call p n c).endpoint_id ≡ n.endpoint_id
  unfolding after_call update_session refresh_webrtc_transport_addrs allocate_dial
      allocate_dial_start allocate_accept_session apply_remote_terminal_signal check_routed_signal
      accept_dial_request handle_bootstrap_signal emit_terminal_decision handle_rtc_lifecycle_result
      allocate_connection_key admit_iroh_application_connection accept_webrtc_connection
      connection_close insert_stream send_stream_chunk close_stream_send close_inner
  after_call-endpoint_id n (dials remote alpn intent) = ground arith
  after_call-endpoint_id n (accepts_dial remote alpn d intent) = ground arith
  after_call-endpoint_id n (attaches key) = ground arith
  after_call-endpoint_id n (opens key) = ground arith
  after_call-endpoint_id n (completes key transport) = ground arith
  after_call-endpoint_id n (hears input (dial_request d f t g a i)) = ground arith
  after_call-endpoint_id n (hears input signal) = ground arith
  after_call-endpoint_id n (decides key reason message) = ground arith
  after_call-endpoint_id n (learns input) = ground arith
  after_call-endpoint_id n (admits alive c transport session_key queue_accept) = ground arith
  after_call-endpoint_id n (matches c) = ground arith
  after_call-endpoint_id n (closes_connection key) = ground arith
  after_call-endpoint_id n inserts_stream = ground arith
  after_call-endpoint_id n (sends key chunk end_stream outcome finishes) = ground arith
  after_call-endpoint_id n (closes_send key finishes) = ground arith
  after_call-endpoint_id n (opens_accept alpn) = ground arith
  after_call-endpoint_id n (asks waiter id) = ground arith
  after_call-endpoint_id n (closes_accept id) = ground arith
  after_call-endpoint_id n (closes reason) = ground arith

  pub run-endpoint_id : (n : Node p) (cs : List (Call p)) → (run p n cs).endpoint_id ≡ n.endpoint_id
  unfolding run
  run-endpoint_id n [] = refl
  run-endpoint_id n (c ∷ cs) = run-endpoint_id (after_call p n c) cs ∙ after_call-endpoint_id n c
