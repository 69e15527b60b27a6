-- ===== src/Stats.antt =====
-- crates/iroh-webrtc-transport/src/core/hub.rs: the counters of `WebRtcTransportStats` and the
-- functions that record into them. An atomic `u64` is a number and `fetch_add` wraps at 2 ^ 64. A
-- function that reads the clock takes its reading `now`, and `later` where it reads it again. The
-- counters are grouped by their prefix, the seven of each `record_gap_ms` call in a `Gap`.
pub mod Record
pub mod Histogram
pub mod Snapshot
pub mod Delta
pub mod Reported
mod Tests
use iroh_webrtc_messenger.Common.{ℕ, Bool, ◌==◌, ltb, leb, if◌then◌else◌, ◌+◌, ◌-◌, ◌%◌, ◌^◌, ◌*◌}

-- `AtomicU64::fetch_add`
abbrev pub fetch_add : ℕ → ℕ → ℕ
fetch_add value n = (value + n) % 2 ^ 64

-- `update_max`
abbrev pub update_max : ℕ → ℕ → ℕ
update_max current candidate = if ltb current candidate then candidate else current

pub record Gap : Type 0 where
  pub last_ms : ℕ
  pub samples : ℕ
  pub ms_total : ℕ
  pub ms_max : ℕ
  pub over_1ms : ℕ
  pub over_4ms : ℕ
  pub over_16ms : ℕ

-- A gap's counters without the reading of the clock that the next one is measured from.
pub record GapSnapshot : Type 0 where
  pub samples : ℕ
  pub ms_total : ℕ
  pub ms_max : ℕ
  pub over_1ms : ℕ
  pub over_4ms : ℕ
  pub over_16ms : ℕ

-- `if gap > limit { counter.fetch_add(1) }`
abbrev pub count_over : ℕ → ℕ → ℕ → ℕ
count_over limit gap counter = if ltb limit gap then fetch_add counter 1 else counter

unfoldable pub record_observed_gap_ms : ℕ → Gap → Gap
record_observed_gap_ms gap g = record g {
  samples = fetch_add g.samples 1;
  ms_total = fetch_add g.ms_total gap;
  ms_max = update_max g.ms_max gap;
  over_1ms = count_over 1 gap g.over_1ms;
  over_4ms = count_over 4 gap g.over_4ms;
  over_16ms = count_over 16 gap g.over_16ms;
}

unfoldable pub record_gap_ms : ℕ → Gap → Gap
record_gap_ms now g =
    if g.last_ms == 0
    then record g { last_ms = now }
    else record_observed_gap_ms (now - g.last_ms) (record g { last_ms = now })

-- The amounts over 256 KiB, 512 KiB and 1 MiB.
pub record Thresholds : Type 0 where
  pub over_256k : ℕ
  pub over_512k : ℕ
  pub over_1m : ℕ

unfoldable pub record_buffered_amount_thresholds : ℕ → Thresholds → Thresholds
record_buffered_amount_thresholds amount t = record {
  over_256k = count_over (256 * 1024) amount t.over_256k;
  over_512k = count_over (512 * 1024) amount t.over_512k;
  over_1m = count_over (1024 * 1024) amount t.over_1m;
}

-- The `sender_*` counters.
pub record SenderStats : Type 0 where
  pub poll_send_calls : ℕ
  pub poll_send_gap : Gap
  pub transmits : ℕ
  pub payload_bytes : ℕ
  pub frame_bytes : ℕ
  pub transmit_datagrams : ℕ
  pub transmit_datagrams_max : ℕ
  pub transmits_single_datagram : ℕ
  pub transmits_segmented : ℕ
  pub transmits_datagrams_2_to_4 : ℕ
  pub transmits_datagrams_5_to_9 : ℕ
  pub transmits_full_batch : ℕ
  pub transmit_payload_max : ℕ
  pub inter_transmit_gap : Gap
  pub encode_failures : ℕ
  pub queue_failures : ℕ

-- The `hub_*` counters; no code writes those from `outbound_queue_delay` on.
pub record HubStats : Type 0 where
  pub recv_push_gap : Gap
  pub recv_wake_to_poll_gap : Gap
  pub recv_pushes : ℕ
  pub recv_waker_sets : ℕ
  pub recv_wakes : ℕ
  pub outbound_push_gap : Gap
  pub outbound_pushes : ℕ
  pub outbound_bytes : ℕ
  pub outbound_depth_max : ℕ
  pub outbound_full : ℕ
  pub outbound_waker_sets : ℕ
  pub outbound_wakes : ℕ
  pub outbound_queue_delay : GapSnapshot
  pub pop_matching_calls : ℕ
  pub pop_matching_hits : ℕ
  pub pop_matching_pending : ℕ
  pub pop_matching_scan_total : ℕ
  pub pop_matching_scan_max : ℕ

-- The `data_channel_*` counters.
pub record DataChannelStats : Type 0 where
  pub rx_message_gap : Gap
  pub rx_messages : ℕ
  pub rx_frame_bytes : ℕ
  pub rx_payload_bytes : ℕ
  pub rx_invalid_frames : ℕ
  pub rx_wrong_session : ℕ
  pub rx_enqueue_failures : ℕ
  pub pump_pop_gap : Gap
  pub pump_pops : ℕ
  pub send_gap : Gap
  pub sent_messages : ℕ
  pub sent_bytes : ℕ
  pub buffered_amount_samples : ℕ
  pub buffered_amount_before_total : ℕ
  pub buffered_amount_after_total : ℕ
  pub buffered_amount_before_max : ℕ
  pub buffered_amount_max : ℕ
  pub buffered_amount_before : Thresholds
  pub buffered_amount_after : Thresholds
  pub send_failures : ℕ

-- The `endpoint_*` counters.
pub record EndpointStats : Type 0 where
  pub poll_recv_call_gap : Gap
  pub poll_recv_calls : ℕ
  pub poll_recv_pending : ℕ
  pub poll_recv_ready : ℕ
  pub poll_recv_ready_packets : ℕ
  pub poll_recv_ready_packets_max : ℕ
  pub poll_recv_partial_pending : ℕ
  pub poll_recv_full : ℕ
  pub poll_recv_pending_frame_continuations : ℕ
  pub delivered_packets : ℕ
  pub delivered_payload_bytes : ℕ
  pub delivered_payload_max : ℕ

pub record WebRtcTransportStats : Type 0 where
  pub sender : SenderStats
  pub hub : HubStats
  pub data_channel : DataChannelStats
  pub endpoint : EndpointStats

abbrev pub no_gap : Gap
no_gap = record {
  last_ms = 0;
  samples = 0;
  ms_total = 0;
  ms_max = 0;
  over_1ms = 0;
  over_4ms = 0;
  over_16ms = 0;
}

abbrev pub no_gap_snapshot : GapSnapshot
no_gap_snapshot = record {
  samples = 0;
  ms_total = 0;
  ms_max = 0;
  over_1ms = 0;
  over_4ms = 0;
  over_16ms = 0;
}

abbrev pub no_thresholds : Thresholds
no_thresholds = record { over_256k = 0; over_512k = 0; over_1m = 0 }

-- `WebRtcTransportStats::default`
abbrev pub no_stats : WebRtcTransportStats
no_stats = record {
  sender = record {
    poll_send_calls = 0;
    poll_send_gap = no_gap;
    transmits = 0;
    payload_bytes = 0;
    frame_bytes = 0;
    transmit_datagrams = 0;
    transmit_datagrams_max = 0;
    transmits_single_datagram = 0;
    transmits_segmented = 0;
    transmits_datagrams_2_to_4 = 0;
    transmits_datagrams_5_to_9 = 0;
    transmits_full_batch = 0;
    transmit_payload_max = 0;
    inter_transmit_gap = no_gap;
    encode_failures = 0;
    queue_failures = 0;
  };
  hub = record {
    recv_push_gap = no_gap;
    recv_wake_to_poll_gap = no_gap;
    recv_pushes = 0;
    recv_waker_sets = 0;
    recv_wakes = 0;
    outbound_push_gap = no_gap;
    outbound_pushes = 0;
    outbound_bytes = 0;
    outbound_depth_max = 0;
    outbound_full = 0;
    outbound_waker_sets = 0;
    outbound_wakes = 0;
    outbound_queue_delay = no_gap_snapshot;
    pop_matching_calls = 0;
    pop_matching_hits = 0;
    pop_matching_pending = 0;
    pop_matching_scan_total = 0;
    pop_matching_scan_max = 0;
  };
  data_channel = record {
    rx_message_gap = no_gap;
    rx_messages = 0;
    rx_frame_bytes = 0;
    rx_payload_bytes = 0;
    rx_invalid_frames = 0;
    rx_wrong_session = 0;
    rx_enqueue_failures = 0;
    pump_pop_gap = no_gap;
    pump_pops = 0;
    send_gap = no_gap;
    sent_messages = 0;
    sent_bytes = 0;
    buffered_amount_samples = 0;
    buffered_amount_before_total = 0;
    buffered_amount_after_total = 0;
    buffered_amount_before_max = 0;
    buffered_amount_max = 0;
    buffered_amount_before = no_thresholds;
    buffered_amount_after = no_thresholds;
    send_failures = 0;
  };
  endpoint = record {
    poll_recv_call_gap = no_gap;
    poll_recv_calls = 0;
    poll_recv_pending = 0;
    poll_recv_ready = 0;
    poll_recv_ready_packets = 0;
    poll_recv_ready_packets_max = 0;
    poll_recv_partial_pending = 0;
    poll_recv_full = 0;
    poll_recv_pending_frame_continuations = 0;
    delivered_packets = 0;
    delivered_payload_bytes = 0;
    delivered_payload_max = 0;
  };
}
