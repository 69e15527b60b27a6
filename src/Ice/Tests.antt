-- ===== src/Ice/Tests.antt =====
-- A queue of one place, at which the theorems are taken.
use iroh_webrtc_messenger.Common.{
  ℕ, ◌≡◌, refl, false, List, [], ◌∷◌, none, some, ok, err, codes, arith,
}
use iroh_webrtc_messenger.Errors.{send_queue_full}
use iroh_webrtc_messenger.Ice.{
  LocalIceEvent, candidate, end_of_candidates, LocalIceState, push, poll_next, close,
}
use iroh_webrtc_messenger.Ice.Wakeups.{IsValid, push-IsValid, poll_next-wakes}
use iroh_webrtc_messenger.Ice.Order.{
  Call, pushes, polls, closes, InOrder, held, run, start, run-start-InOrder,
}

abbrev gathered : LocalIceEvent
gathered = candidate (record { candidate = codes "c1"; sdp_mid = none; sdp_mline_index = some 0 })

abbrev full : LocalIceState ℕ
full = record { queue = gathered ∷ []; capacity = 1; waker = none; closed = false }

-- `local_ice_queue_preserves_end_of_candidates_when_full` of hub.rs: the end takes the place of a
-- candidate.
full_keeps_end : (push full end_of_candidates).1.queue ≡ end_of_candidates ∷ []
unfolding push
full_keeps_end = refl

full_refuses : (push full gathered).0 ≡ err send_queue_full
unfolding push
full_refuses = refl

full-IsValid : IsValid full
full-IsValid = ground arith

push-IsValid_example : IsValid (push full end_of_candidates).1
push-IsValid_example = push-IsValid full end_of_candidates full-IsValid

abbrev fresh : LocalIceState ℕ
fresh = record { queue = []; capacity = 1; waker = none; closed = false }

poll_next-wakes_example :
    let waiting = (poll_next fresh 7).1 in
    ((push waiting gathered).0 ≡ ok tt)
    × ((push waiting gathered).2 ≡ some 7)
    × ((close waiting).1 ≡ some 7)
unfolding poll_next
poll_next-wakes_example = poll_next-wakes fresh 7 gathered (omega arith) refl

abbrev calls : List (Call ℕ)
calls = pushes gathered ∷ pushes end_of_candidates ∷ polls 1 ∷ polls 1 ∷ closes ∷ []

run-start-InOrder_example : InOrder (held (run (start 1) calls)) (run (start 1) calls).accepted
run-start-InOrder_example = run-start-InOrder 1 calls
