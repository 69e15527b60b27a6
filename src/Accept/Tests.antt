-- ===== src/Accept/Tests.antt =====
-- A registration of one place for the ALPN "chat".
use iroh_webrtc_messenger.Common.{
  ℕ, true, false, ◌≡◌, refl, ◌==◌, not, List, [], ◌∷◌, none, err, Bytes, codes, Bytes-discrete,
  ℕ_discrete,
}
use iroh_webrtc_messenger.Samples.{Peer, bob}
use iroh_webrtc_messenger.Session.{BrowserResolvedTransport}
use iroh_webrtc_messenger.Runtime.{about, unsupported_alpn, validate_alpn}
use iroh_webrtc_messenger.Accept.{
  BrowserAcceptedConnection, Accepts, new, push_or_wake, first_alive, claim, accept_open,
  take_or_wait,
}
use iroh_webrtc_messenger.Accept.Order.{
  Call, pushes, asks, InOrder, start, run, after_call, registration-InOrder,
}
use iroh_webrtc_messenger.Accept.Claims.{accept_open_once}

abbrev chat : Bytes
chat = codes "chat"

abbrev from_bob : ℕ → BrowserAcceptedConnection Peer
from_bob key = record {
  key = key;
  session_key = none;
  remote = bob;
  alpn = chat;
  transport = BrowserResolvedTransport.iroh_relay;
}

-- Two tasks wait, the first is dropped, and three connections come.
abbrev calls : List (Call Peer ℕ)
calls =
    asks 1
    ∷ asks 2
    ∷ pushes (λ w. not (w == 1)) (from_bob 10)
    ∷ pushes (λ w. true) (from_bob 11)
    ∷ pushes (λ w. true) (from_bob 12)
    ∷ []

registration-InOrder_example : InOrder (run (start 0 chat 1) calls)
registration-InOrder_example = registration-InOrder 0 chat 1 calls

skips_dropped_waiter : (run (start 0 chat 1) calls).handed_out ≡ from_bob 10 ∷ []
unfolding run after_call push_or_wake first_alive take_or_wait new
skips_dropped_waiter = refl

abbrev listening : Accepts Peer ℕ
unfolding new
listening = record { accepts = (chat, new 4 chat 1) ∷ []; closed = false }

abbrev claimed : Accepts Peer ℕ
unfolding new
claimed = record { accepts = (chat, record (new 4 chat 1) { claimed = true }) ∷ []; closed = false }

accept_open_once_example :
    accept_open chat claimed
    ≡ err (record {
      code = unsupported_alpn;
      message = about "an accept iterator is already active for ALPN" chat;
    })
unfolding new accept_open validate_alpn claim Bytes-discrete ℕ_discrete
accept_open_once_example = accept_open_once chat listening claimed 4 refl
