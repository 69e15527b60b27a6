-- ===== src/Coordinator/Tests.antt =====
-- A dial from alice to bob, as the tests of coordinator.rs have it.
use iroh_webrtc_messenger.Common.{
  ◌≡◌, ◌↔◌, true, false, refl, Bytes-discrete, ℕ_discrete, replicate, codes,
}
use iroh_webrtc_messenger.Samples.{Peer, alice, bob, Peer-discrete}
use iroh_webrtc_messenger.Signal.{web_rtc_only}
use iroh_webrtc_messenger.Coordinator.{DialCoordinator, accepts, respond}
use iroh_webrtc_messenger.Coordinator.Routing.{
  write, answers, offers, IsPeer, accepts-write_iff, accepts-write,
}

abbrev alice_to_bob : DialCoordinator Peer
alice_to_bob = record { local = alice; remote = bob; dial_id = replicate 16 5; generation = 5 }

-- `coordinator_rejects_matching_route_from_wrong_generation`
wrong_generation :
    accepts Peer-discrete alice_to_bob (
      write Peer-discrete
        (respond bob alice 6 (replicate 16 5) web_rtc_only)
        (answers (codes "v=0")))
    ≡ false
unfolding accepts Peer-discrete Bytes-discrete ℕ_discrete
wrong_generation = refl

abbrev bob_side : DialCoordinator Peer
bob_side = respond bob alice 5 (replicate 16 5) web_rtc_only

accepts-write_iff_example :
    (accepts Peer-discrete bob_side (write Peer-discrete alice_to_bob (offers (codes "v=0")))
      ≡ true)
    ↔ IsPeer Peer-discrete alice_to_bob bob_side
accepts-write_iff_example =
    accepts-write_iff Peer-discrete alice_to_bob bob_side (offers (codes "v=0"))

accepts-write_example :
    accepts Peer-discrete alice_to_bob (write Peer-discrete alice_to_bob (offers (codes "v=0")))
    ≡ false
accepts-write_example =
    (accepts-write Peer-discrete alice_to_bob web_rtc_only (offers (codes "v=0")) (λ e. cc)).2
