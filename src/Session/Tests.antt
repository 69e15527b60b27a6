-- ===== src/Session/Tests.antt =====
-- A session that alice dials to bob, and the theorems at it.
use iroh_webrtc_messenger.Common.{◌≡◌, ◌≢◌, ◌↔◌, refl, List, [], ◌∷◌, none, some, ok, Bytes, codes}
use iroh_webrtc_messenger.Samples.{Peer, alice, bob, Peer-discrete}
use iroh_webrtc_messenger.Signal.{web_rtc_preferred, WebRtcTerminalReason}
use iroh_webrtc_messenger.Session.{
  BrowserSessionState, web_rtc, dialer, new, open_, application_ready, relay_selected,
  BrowserSessionLifecycle, DataChannelAttachmentState, complete_dial, resolve_transport,
  close_for_node,
}
use iroh_webrtc_messenger.Session.Invariant.{
  Op, attach, opens, completes, receives, IsValid, SameRoute, run, step, run-new-IsValid,
  run-SameRoute, dead_channel_refuses,
}
use iroh_webrtc_messenger.Session.Resolution.{Allowed, complete_dial_iff, close_for_node_signals}

abbrev key : Bytes
key = codes "0505"

abbrev dialled : BrowserSessionState Peer
dialled = record {
  session_key = key;
  dial_id = 5 ∷ 5 ∷ [];
  generation = 0;
  local = alice;
  remote = bob;
  alpn = codes "chat";
  role = dialer;
  transport_intent = web_rtc_preferred;
  resolved_transport = none;
  channel_attachment = DataChannelAttachmentState.awaiting_transfer;
  lifecycle = BrowserSessionLifecycle.web_rtc_negotiating;
  terminal_sent = none;
  terminal_received = none;
}

abbrev ops : List Op
ops = attach ∷ opens ∷ completes web_rtc ∷ receives WebRtcTerminalReason.fallback_selected ∷ []

-- A dial over WebRTC that is up, and falls back to the relay.
promoted : (run dialled (attach ∷ opens ∷ completes web_rtc ∷ [])).lifecycle ≡ application_ready
unfolding run step
promoted = refl

fallen_back : (run dialled ops).lifecycle ≡ relay_selected
unfolding run step
fallen_back = refl

run-new-IsValid_example :
    IsValid (run (new key (5 ∷ 5 ∷ []) 0 alice bob (codes "chat") dialer web_rtc_preferred) ops)
run-new-IsValid_example =
    run-new-IsValid key (5 ∷ 5 ∷ []) 0 alice bob (codes "chat") dialer web_rtc_preferred ops

run-SameRoute_example : SameRoute dialled (run dialled ops)
run-SameRoute_example = run-SameRoute dialled ops

abbrev broken : BrowserSessionState Peer
broken = record dialled {
  channel_attachment = DataChannelAttachmentState.failed;
  lifecycle = BrowserSessionLifecycle.failed;
}

dead_channel_refuses_example :
    resolve_transport (run broken (attach ∷ opens ∷ [])) web_rtc ≢ ok broken
dead_channel_refuses_example = (dead_channel_refuses broken (attach ∷ opens ∷ []) refl).2 broken

abbrev opened : BrowserSessionState Peer
opened = record dialled { channel_attachment = open_ }

abbrev completed : BrowserSessionState Peer
completed = record opened { resolved_transport = some web_rtc; lifecycle = application_ready }

complete_dial_iff_example : (complete_dial opened web_rtc ≡ ok completed) ↔ (
    (opened.role ≡ dialer)
    × Allowed web_rtc opened.transport_intent opened.channel_attachment
    × (completed
        ≡ record opened { resolved_transport = some web_rtc; lifecycle = application_ready }))
complete_dial_iff_example = complete_dial_iff opened completed web_rtc

close_for_node_signals_example :
    (close_for_node opened none).0.lifecycle ≡ BrowserSessionLifecycle.closed
close_for_node_signals_example = (close_for_node_signals Peer-discrete opened none).0
