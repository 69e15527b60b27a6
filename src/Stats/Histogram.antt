-- ===== src/Stats/Histogram.antt =====
-- The histograms of the counters agree with what was recorded.
use iroh_webrtc_messenger.Common.{
  ℕ, ◌≡◌, ◌<◌, ◌≤◌, ◌+◌, ◌-◌, ◌%◌, ◌^◌, List, [], ◌∷◌, length, arith, All,
}
use iroh_webrtc_messenger.Stats.{Gap, no_gap, record_observed_gap_ms, record_gap_ms, SenderStats}
use iroh_webrtc_messenger.Stats.Record.{count_batch, count_transmit, record_sender_transmit}

-- `record_gap_ms` at each reading of the clock in turn.
unfoldable pub gaps_after : List ℕ → Gap → Gap
gaps_after [] g = g
gaps_after (now ∷ later) g = gaps_after later (record_gap_ms now g)

-- The counters of gaps over a limit, a higher limit counting no more than a lower one.
pub record IsOrdered (g : Gap) : Type 0 where
  pub over_4ms : g.over_16ms ≤ g.over_4ms
  pub over_1ms : g.over_4ms ≤ g.over_1ms
  pub samples : g.over_1ms ≤ g.samples

observed-IsOrdered :
    (gap : ℕ) (g : Gap)
    → g.samples + 1 < 2 ^ 64
    → IsOrdered g
    → IsOrdered (record_observed_gap_ms gap g)
unfolding record_observed_gap_ms
observed-IsOrdered gap g room v = ground (arith, room, v)

-- A reading after the first counts one sample.
gaps_after-from :
    (readings : List ℕ) (g : Gap)
    → 0 < g.last_ms
    → All (λ now. 0 < now) readings
    → g.samples + length readings < 2 ^ 64
    → IsOrdered g
    → ((gaps_after readings g).samples ≡ g.samples + length readings)
      × IsOrdered (gaps_after readings g)
unfolding gaps_after record_gap_ms record_observed_gap_ms
gaps_after-from [] g started positive room v = (omega arith, v)
gaps_after-from (now ∷ later) g started positive room v =
    let next : Gap = record_observed_gap_ms (now - g.last_ms) (record g { last_ms = now }) in
    let step : record_gap_ms now g ≡ next = ground (arith, started) in
    let rest = gaps_after-from later next positive.0 positive.1 (ground (arith, room)) (
      observed-IsOrdered (now - g.last_ms) (record g { last_ms = now }) (ground (arith, room))
        (ground (arith, v))) in
    ground (arith, step, rest, room)

-- Recording at n + 1 readings of a running clock, fewer than 2 ^ 64, counts n gaps, and counts among
-- the gaps over 16 ms only such as are over 4 ms, and among those only such as are over 1 ms.
pub gaps_after-IsOrdered :
    (first : ℕ) (readings : List ℕ)
    → 0 < first
    → All (λ now. 0 < now) readings
    → length readings < 2 ^ 64
    → ((gaps_after (first ∷ readings) no_gap).samples ≡ length readings)
      × IsOrdered (gaps_after (first ∷ readings) no_gap)
unfolding gaps_after record_gap_ms
gaps_after-IsOrdered first readings started positive room =
    let counted =
      gaps_after-from readings (record no_gap { last_ms = first }) started positive
        (omega (arith, room))
        (record { over_4ms = omega arith; over_1ms = omega arith; samples = omega arith }) in
    (omega (arith, counted.0), counted.1)

-- Every transmit is counted as one of a single datagram or as segmented, and every segmented one in
-- one of its three sizes; the counters wrap.
pub record IsPartitioned (s : SenderStats) : Type 0 where
  pub transmits :
      s.transmits % 2 ^ 64 ≡ (s.transmits_single_datagram + s.transmits_segmented) % 2 ^ 64
  pub segmented :
      s.transmits_segmented % 2 ^ 64
      ≡ (s.transmits_datagrams_2_to_4 + s.transmits_datagrams_5_to_9 + s.transmits_full_batch)
        % 2 ^ 64

-- Counting a transmit, of any size, keeps the count of transmits equal to those of a single datagram
-- and those segmented, and the latter equal to the sum of its three sizes, all modulo 2 ^ 64.
pub record_sender_transmit-IsPartitioned :
    (now payload_bytes frame_bytes datagrams : ℕ) (s : SenderStats)
    → IsPartitioned s
    → IsPartitioned (record_sender_transmit now payload_bytes frame_bytes datagrams s)
unfolding record_sender_transmit count_batch count_transmit
record_sender_transmit-IsPartitioned now payload_bytes frame_bytes datagrams s v = ground (arith, v)
