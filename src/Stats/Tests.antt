-- ===== src/Stats/Tests.antt =====
-- The counters at a few readings and one transmit.
use iroh_webrtc_messenger.Common.{ℕ, ◌≡◌, refl, List, [], ◌∷◌, arith}
use iroh_webrtc_messenger.Stats.{no_stats, no_gap}
use iroh_webrtc_messenger.Stats.Record.{record_sender_transmit}
use iroh_webrtc_messenger.Stats.Snapshot.{snapshot, delta_since, WebRtcTransportStatsSnapshot}
use iroh_webrtc_messenger.Stats.Delta.{plus, IsBefore, delta_since-plus}
use iroh_webrtc_messenger.Stats.Reported.{Transmit, transmit_all, delta_since-transmit_all}
use iroh_webrtc_messenger.Stats.Histogram.{
  gaps_after, IsOrdered, gaps_after-IsOrdered, IsPartitioned, record_sender_transmit-IsPartitioned,
}

gaps_after-IsOrdered_example :
    ((gaps_after (100 ∷ 103 ∷ 120 ∷ []) no_gap).samples ≡ 2)
    × IsOrdered (gaps_after (100 ∷ 103 ∷ 120 ∷ []) no_gap)
gaps_after-IsOrdered_example =
    gaps_after-IsOrdered 100 (103 ∷ 120 ∷ []) (omega arith) (omega arith, (omega arith, tt))
      (omega arith)

record_sender_transmit-IsPartitioned_example :
    IsPartitioned (record_sender_transmit 5 300 330 3 no_stats.sender)
record_sender_transmit-IsPartitioned_example =
    record_sender_transmit-IsPartitioned 5 300 330 3 no_stats.sender
      (record { transmits = refl; segmented = refl })

abbrev two_transmits : List Transmit
two_transmits =
    record { now = 5; payload = 300; frame = 330; datagrams = 3 }
    ∷ record { now = 9; payload = 20; frame = 50; datagrams = 1 }
    ∷ []

delta_since-transmit_all_example :
    (delta_since
      (snapshot (record no_stats { sender = transmit_all two_transmits no_stats.sender }))
      (snapshot no_stats)).sender.payload_bytes
    ≡ 320
delta_since-transmit_all_example =
    (delta_since-transmit_all two_transmits no_stats (record {
      transmits = omega arith;
      payload = omega arith;
      frame = omega arith;
      datagrams = omega arith;
    })).1

-- A reading with a number of transmits.
abbrev reading : ℕ → WebRtcTransportStatsSnapshot
reading n = snapshot (record no_stats { sender = record no_stats.sender { transmits = n } })

first_IsBefore : IsBefore (reading 0) (reading 2)
unfolding snapshot
first_IsBefore = ground arith

second_IsBefore : IsBefore (reading 2) (reading 7)
unfolding snapshot
second_IsBefore = ground arith

delta_since-plus_example :
    plus (delta_since (reading 2) (reading 0)) (delta_since (reading 7) (reading 2))
    ≡ delta_since (reading 7) (reading 0)
delta_since-plus_example =
    delta_since-plus (reading 0) (reading 2) (reading 7) first_IsBefore second_IsBefore
