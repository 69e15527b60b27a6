-- ===== src/Node/Tests.antt =====
-- Two nodes, alice's and bob's, and the theorems at them.
use iroh_webrtc_messenger.Common.{
  ◌↔◌, ◌⊎◌, true, false, ◌≡◌, refl, List, [], ◌∷◌, none, some, ok, codes, Bytes-discrete,
  ℕ_discrete,
}
use mathlib.Core.List.{Memᴰ}
use iroh_webrtc_messenger.Common.Maps.{get}
use iroh_webrtc_messenger.Samples.{Peer, alice, bob, Peer-discrete, sample_iroh}
use iroh_webrtc_messenger.Samples.Nodes.{
  platform, chat, spawned, dial_id, dial_key, dialled, session_of,
}
use iroh_webrtc_messenger.Signal.{web_rtc_preferred, WebRtcTerminalReason, WebRtcSignal}
use iroh_webrtc_messenger.Signal.Dial.{with_epoch, from_initiator_sequence, next, next_generation}
use iroh_webrtc_messenger.Runtime.{session_key_of, validate_alpn}
use iroh_webrtc_messenger.Accept.{BrowserAcceptedConnection}
use iroh_webrtc_messenger.Accept
use iroh_webrtc_messenger.Session.{
  BrowserSessionState, BrowserResolvedTransport, web_rtc, acceptor, new, open_,
  record_terminal_sent, apply_terminal_reason, session_terminal_signal, validate_resolution,
  resolve_transport, BrowserSessionLifecycle, DataChannelAttachmentState,
}
use iroh_webrtc_messenger.Node.{custom, Node, refresh_webrtc_transport_addrs}
use iroh_webrtc_messenger.Node.Sessions.{BrowserDialStart, allocate_dial, allocate_dial_start}
use iroh_webrtc_messenger.Node.Calls.{Call, dials, after_call, run}
use iroh_webrtc_messenger.Node.Refines.Runs.{Reached, run-Reached, run-sessions-IsValid}
use iroh_webrtc_messenger.Node.Closed.{run-close_inner}
use iroh_webrtc_messenger.Node.Closing.{close_inner}
use iroh_webrtc_messenger.Node.Handshake.{Taken, dial_handshake, Agreed, decision_agrees}
use iroh_webrtc_messenger.Node.Advertised.{IsSessionAddr, refresh_iff, emit_terminal_decision-stale}
use iroh_webrtc_messenger.Node.Admission.{IsSound, admit_iroh_application_connection-IsSound}
use iroh_webrtc_messenger.Node.Admitted.{
  IsAdmittedOverWebRtc, admit_iroh_application_connection-web_rtc,
}
use iroh_webrtc_messenger.Node.Connections.{
  Admission, allocate_connection_key, check_admission, admit_iroh_application_connection,
}
use iroh_webrtc_messenger.Node.Signals.{
  BrowserTerminalDecision, is_application_alpn_registered, emit_terminal_decision,
}
use iroh_webrtc_messenger.Addr.{
  capability_addr, to_custom_addr, from_custom_addr, read_kind, read_endpoint_id,
}

abbrev dial_once : List (Call platform)
dial_once = dials bob chat web_rtc_preferred ∷ []

dials_one : (run platform (spawned alice) dial_once).sessions ≡ (dial_key, dialled) ∷ []
unfolding run after_call allocate_dial_start allocate_dial validate_alpn next next_generation
    from_initiator_sequence with_epoch new session_key_of refresh_webrtc_transport_addrs
    Bytes-discrete ℕ_discrete Peer-discrete
dials_one = refl

dial_found :
    get Bytes-discrete dial_key (run platform (spawned alice) dial_once).sessions ≡ some dialled
unfolding run after_call allocate_dial_start allocate_dial validate_alpn next next_generation
    from_initiator_sequence with_epoch new session_key_of refresh_webrtc_transport_addrs
    Bytes-discrete ℕ_discrete Peer-discrete
dial_found = refl

run-Reached_example : Reached platform alice dial_key dialled
run-Reached_example =
    run-Reached platform (spawned alice) dial_once dial_key dialled refl dial_found

run-sessions-IsValid_example : session_key_of dial_id ≡ dial_key
run-sessions-IsValid_example =
    (run-sessions-IsValid platform (spawned alice) dial_once dial_key dialled refl dial_found).3

abbrev dialling : Node platform
unfolding run after_call
dialling = run platform (spawned alice) dial_once

dialling_open : dialling.accepting.closed ≡ false
unfolding run after_call allocate_dial_start allocate_dial validate_alpn next next_generation
    with_epoch refresh_webrtc_transport_addrs Peer-discrete new
dialling_open = refl

run-close_inner_example :
    (run platform (close_inner platform dialling none).1 dial_once)
    ≡ (close_inner platform dialling none).1
run-close_inner_example = (run-close_inner platform dialling none none dial_once dialling_open).0

abbrev start : BrowserDialStart Peer
start = record {
  session_key = dial_key;
  dial_id = dial_key;
  generation = 0;
  remote_endpoint = bob;
  alpn = chat;
  transport_intent = web_rtc_preferred;
  bootstrap_signal = WebRtcSignal.dial_request dial_id alice bob 0 chat web_rtc_preferred;
}

dial_started :
    allocate_dial_start platform (spawned alice) bob chat web_rtc_preferred
    ≡ ok (some (start, dialling))
unfolding run after_call allocate_dial_start allocate_dial validate_alpn next next_generation
    from_initiator_sequence with_epoch new session_key_of refresh_webrtc_transport_addrs
    Bytes-discrete ℕ_discrete Peer-discrete
dial_started = refl

chat_registered : is_application_alpn_registered platform (spawned bob) chat ≡ true
unfolding is_application_alpn_registered Bytes-discrete ℕ_discrete
chat_registered = refl

dial_handshake_example : Taken platform (spawned alice) dialling (spawned bob) start
dial_handshake_example =
    dial_handshake platform (spawned alice) dialling (spawned bob) chat web_rtc_preferred start
      dial_started refl chat_registered refl

-- Bob's side of the dial.
abbrev accepted : BrowserSessionState Peer
accepted = record dialled { local = bob; remote = alice; role = acceptor }

abbrev accepting_node : Node platform
accepting_node = record (spawned bob) { sessions = (dial_key, accepted) ∷ [] }

abbrev dialling_node : Node platform
dialling_node = record (spawned alice) { sessions = (dial_key, dialled) ∷ [] }

abbrev fallback : BrowserTerminalDecision Peer
fallback = record {
  session_key = dial_key;
  reason = WebRtcTerminalReason.fallback_selected;
  signal = some (
      WebRtcSignal.terminal dial_id alice bob 0 WebRtcTerminalReason.fallback_selected
        (some (codes "ice")));
  selected_transport = some BrowserResolvedTransport.iroh_relay;
}

abbrev fallen_back : Node platform
fallen_back = record (spawned alice) {
  sessions =
      (
        dial_key,
        record dialled {
          resolved_transport = some BrowserResolvedTransport.iroh_relay;
          lifecycle = BrowserSessionLifecycle.relay_selected;
          channel_attachment = DataChannelAttachmentState.failed;
          terminal_sent = some WebRtcTerminalReason.fallback_selected;
        },
      )
      ∷ [];
}

decided :
    emit_terminal_decision platform dialling_node dial_key none (codes "ice")
    ≡ ok (fallback, fallen_back)
unfolding emit_terminal_decision record_terminal_sent apply_terminal_reason session_terminal_signal
    Bytes-discrete ℕ_discrete
decided = refl

found_dialled : get Bytes-discrete dial_key dialling_node.sessions ≡ some dialled
unfolding Bytes-discrete ℕ_discrete
found_dialled = refl

found_accepted : get Bytes-discrete dial_key accepting_node.sessions ≡ some accepted
unfolding Bytes-discrete ℕ_discrete
found_accepted = refl

key_of_dial : session_key_of dial_id ≡ dial_key
unfolding session_key_of
key_of_dial = refl

decision_agrees_example :
    Agreed platform fallen_back accepting_node dial_key dialled accepted fallback
decision_agrees_example =
    decision_agrees platform dialling_node fallen_back accepting_node dial_key (codes "ice") none
      dialled accepted fallback decided found_dialled found_accepted
      (record {
        same_key = refl;
        same_dial_id = refl;
        same_generation = refl;
        same_intent = refl;
        same_alpn = refl;
        to_local = refl;
        to_remote = refl;
      })
      refl refl key_of_dial refl

refresh_iff_example :
    Memᴰ (session_of alice) (refresh_webrtc_transport_addrs platform dialling_node).local_addrs ↔ (
      (session_of alice ≡ to_custom_addr sample_iroh (capability_addr alice))
      ⊎ IsSessionAddr platform (session_of alice) (dialled ∷ []))
refresh_iff_example = refresh_iff platform dialling_node (session_of alice)

emit_terminal_decision-stale_example : fallen_back.local_addrs ≡ dialling_node.local_addrs
emit_terminal_decision-stale_example =
    (emit_terminal_decision-stale platform dialling_node fallen_back dial_key (codes "ice") none
      dialled fallback decided found_dialled).3

-- A connection over WebRTC for bob's session, whose channel is open.
abbrev connection : platform.Connection
connection =
    (alice, chat, record { is_selected = true; remote_addr = custom (session_of alice) } ∷ [])

abbrev opened_node : Node platform
opened_node = record (spawned bob) {
  sessions = (dial_key, record accepted { channel_attachment = open_ }) ∷ [];
}

-- Bob's node admits the connection, and the queue of its ALPN takes it.
abbrev handed_out : BrowserAcceptedConnection Peer
handed_out = record {
  key = 1;
  session_key = some dial_key;
  remote = alice;
  alpn = chat;
  transport = web_rtc;
}

abbrev admitted : Admission platform
admitted = record {
  result = ok handed_out;
  node = record opened_node {
    sessions =
        (
          dial_key,
          record accepted {
            channel_attachment = open_;
            resolved_transport = some web_rtc;
            lifecycle = BrowserSessionLifecycle.application_ready;
          },
        )
        ∷ [];
    connections =
        (
          1,
          record {
            iroh_connection = some connection;
            session_key = some dial_key;
            transport = web_rtc;
            closed = false;
          },
        )
        ∷ [];
    accepting = record {
      accepts = (chat, record (Accept.new 1 chat 1) { queue = handed_out ∷ [] }) ∷ [];
      closed = false;
    };
    next_connection_key = 2;
  };
  sent_to = none;
  closed_connections = [];
}

admission_runs :
    admit_iroh_application_connection platform
      (λ w. true)
      opened_node
      connection
      web_rtc
      (some dial_key)
      true
    ≡ some admitted
unfolding admit_iroh_application_connection check_admission validate_resolution Bytes-discrete
    ℕ_discrete Peer-discrete to_custom_addr from_custom_addr read_kind read_endpoint_id
    allocate_connection_key Accept.push_or_wake Accept.first_alive Accept.new resolve_transport
admission_runs = refl

admit_iroh_application_connection-IsSound_example : IsSound platform opened_node connection admitted
admit_iroh_application_connection-IsSound_example =
    admit_iroh_application_connection-IsSound platform (λ w. true) opened_node connection web_rtc
      (some dial_key) true admitted admission_runs

admit_iroh_application_connection-web_rtc_example :
    IsAdmittedOverWebRtc platform opened_node connection (some dial_key) admitted
admit_iroh_application_connection-web_rtc_example =
    admit_iroh_application_connection-web_rtc platform (λ w. true) opened_node connection
      (some dial_key) true admitted handed_out admission_runs refl
