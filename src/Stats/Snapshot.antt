-- ===== src/Stats/Snapshot.antt =====
-- crates/iroh-webrtc-transport/src/core/hub.rs: `WebRtcTransportStatsSnapshot`, the copy of the
-- counters that is reported, and `delta_since`, what was counted between two of them. The fields are
-- grouped as those of `WebRtcTransportStats`. `saturating_sub` is the subtraction of numbers.
use iroh_webrtc_messenger.Common.{ℕ, ◌-◌}
use iroh_webrtc_messenger.Stats.{
  Gap, GapSnapshot, Thresholds, SenderStats, HubStats, DataChannelStats, EndpointStats,
  WebRtcTransportStats,
}

pub record SenderSnapshot : Type 0 where
  pub poll_send_calls : ℕ
  pub poll_send_gap : GapSnapshot
  pub transmits : ℕ
  pub payload_bytes : ℕ
  pub frame_bytes : ℕ
  pub transmit_datagrams : ℕ
  pub transmit_datagrams_max : ℕ
  pub transmits_single_datagram : ℕ
  pub transmits_segmented : ℕ
  pub transmits_datagrams_2_to_4 : ℕ
  pub transmits_datagrams_5_to_9 : ℕ
  pub transmits_full_batch : ℕ
  pub transmit_payload_max : ℕ
  pub inter_transmit_gap : GapSnapshot
  pub encode_failures : ℕ
  pub queue_failures : ℕ

pub record HubSnapshot : Type 0 where
  pub recv_push_gap : GapSnapshot
  pub recv_wake_to_poll_gap : GapSnapshot
  pub recv_pushes : ℕ
  pub recv_waker_sets : ℕ
  pub recv_wakes : ℕ
  pub outbound_push_gap : GapSnapshot
  pub outbound_pushes : ℕ
  pub outbound_bytes : ℕ
  pub outbound_depth_max : ℕ
  pub outbound_full : ℕ
  pub outbound_waker_sets : ℕ
  pub outbound_wakes : ℕ
  pub outbound_queue_delay : GapSnapshot
  pub pop_matching_calls : ℕ
  pub pop_matching_hits : ℕ
  pub pop_matching_pending : ℕ
  pub pop_matching_scan_total : ℕ
  pub pop_matching_scan_max : ℕ

pub record DataChannelSnapshot : Type 0 where
  pub rx_message_gap : GapSnapshot
  pub rx_messages : ℕ
  pub rx_frame_bytes : ℕ
  pub rx_payload_bytes : ℕ
  pub rx_invalid_frames : ℕ
  pub rx_wrong_session : ℕ
  pub rx_enqueue_failures : ℕ
  pub pump_pop_gap : GapSnapshot
  pub pump_pops : ℕ
  pub send_gap : GapSnapshot
  pub sent_messages : ℕ
  pub sent_bytes : ℕ
  pub buffered_amount_samples : ℕ
  pub buffered_amount_before_total : ℕ
  pub buffered_amount_after_total : ℕ
  pub buffered_amount_before_max : ℕ
  pub buffered_amount_max : ℕ
  pub buffered_amount_before : Thresholds
  pub buffered_amount_after : Thresholds
  pub send_failures : ℕ

pub record EndpointSnapshot : Type 0 where
  pub poll_recv_call_gap : GapSnapshot
  pub poll_recv_calls : ℕ
  pub poll_recv_pending : ℕ
  pub poll_recv_ready : ℕ
  pub poll_recv_ready_packets : ℕ
  pub poll_recv_ready_packets_max : ℕ
  pub poll_recv_partial_pending : ℕ
  pub poll_recv_full : ℕ
  pub poll_recv_pending_frame_continuations : ℕ
  pub delivered_packets : ℕ
  pub delivered_payload_bytes : ℕ
  pub delivered_payload_max : ℕ

pub record WebRtcTransportStatsSnapshot : Type 0 where
  pub sender : SenderSnapshot
  pub hub : HubSnapshot
  pub data_channel : DataChannelSnapshot
  pub endpoint : EndpointSnapshot

-- The loads of one gap's counters.
abbrev pub gap_snapshot : Gap → GapSnapshot
gap_snapshot g = record {
  samples = g.samples;
  ms_total = g.ms_total;
  ms_max = g.ms_max;
  over_1ms = g.over_1ms;
  over_4ms = g.over_4ms;
  over_16ms = g.over_16ms;
}

abbrev pub sender_snapshot : SenderStats → SenderSnapshot
sender_snapshot s = record {
  poll_send_calls = s.poll_send_calls;
  poll_send_gap = gap_snapshot s.poll_send_gap;
  transmits = s.transmits;
  payload_bytes = s.payload_bytes;
  frame_bytes = s.frame_bytes;
  transmit_datagrams = s.transmit_datagrams;
  transmit_datagrams_max = s.transmit_datagrams_max;
  transmits_single_datagram = s.transmits_single_datagram;
  transmits_segmented = s.transmits_segmented;
  transmits_datagrams_2_to_4 = s.transmits_datagrams_2_to_4;
  transmits_datagrams_5_to_9 = s.transmits_datagrams_5_to_9;
  transmits_full_batch = s.transmits_full_batch;
  transmit_payload_max = s.transmit_payload_max;
  inter_transmit_gap = gap_snapshot s.inter_transmit_gap;
  encode_failures = s.encode_failures;
  queue_failures = s.queue_failures;
}

abbrev pub hub_snapshot : HubStats → HubSnapshot
hub_snapshot s = record {
  recv_push_gap = gap_snapshot s.recv_push_gap;
  recv_wake_to_poll_gap = gap_snapshot s.recv_wake_to_poll_gap;
  recv_pushes = s.recv_pushes;
  recv_waker_sets = s.recv_waker_sets;
  recv_wakes = s.recv_wakes;
  outbound_push_gap = gap_snapshot s.outbound_push_gap;
  outbound_pushes = s.outbound_pushes;
  outbound_bytes = s.outbound_bytes;
  outbound_depth_max = s.outbound_depth_max;
  outbound_full = s.outbound_full;
  outbound_waker_sets = s.outbound_waker_sets;
  outbound_wakes = s.outbound_wakes;
  outbound_queue_delay = s.outbound_queue_delay;
  pop_matching_calls = s.pop_matching_calls;
  pop_matching_hits = s.pop_matching_hits;
  pop_matching_pending = s.pop_matching_pending;
  pop_matching_scan_total = s.pop_matching_scan_total;
  pop_matching_scan_max = s.pop_matching_scan_max;
}

abbrev pub data_channel_snapshot : DataChannelStats → DataChannelSnapshot
data_channel_snapshot s = record {
  rx_message_gap = gap_snapshot s.rx_message_gap;
  rx_messages = s.rx_messages;
  rx_frame_bytes = s.rx_frame_bytes;
  rx_payload_bytes = s.rx_payload_bytes;
  rx_invalid_frames = s.rx_invalid_frames;
  rx_wrong_session = s.rx_wrong_session;
  rx_enqueue_failures = s.rx_enqueue_failures;
  pump_pop_gap = gap_snapshot s.pump_pop_gap;
  pump_pops = s.pump_pops;
  send_gap = gap_snapshot s.send_gap;
  sent_messages = s.sent_messages;
  sent_bytes = s.sent_bytes;
  buffered_amount_samples = s.buffered_amount_samples;
  buffered_amount_before_total = s.buffered_amount_before_total;
  buffered_amount_after_total = s.buffered_amount_after_total;
  buffered_amount_before_max = s.buffered_amount_before_max;
  buffered_amount_max = s.buffered_amount_max;
  buffered_amount_before = s.buffered_amount_before;
  buffered_amount_after = s.buffered_amount_after;
  send_failures = s.send_failures;
}

abbrev pub endpoint_snapshot : EndpointStats → EndpointSnapshot
endpoint_snapshot s = record {
  poll_recv_call_gap = gap_snapshot s.poll_recv_call_gap;
  poll_recv_calls = s.poll_recv_calls;
  poll_recv_pending = s.poll_recv_pending;
  poll_recv_ready = s.poll_recv_ready;
  poll_recv_ready_packets = s.poll_recv_ready_packets;
  poll_recv_ready_packets_max = s.poll_recv_ready_packets_max;
  poll_recv_partial_pending = s.poll_recv_partial_pending;
  poll_recv_full = s.poll_recv_full;
  poll_recv_pending_frame_continuations = s.poll_recv_pending_frame_continuations;
  delivered_packets = s.delivered_packets;
  delivered_payload_bytes = s.delivered_payload_bytes;
  delivered_payload_max = s.delivered_payload_max;
}

-- `snapshot`
unfoldable pub snapshot : WebRtcTransportStats → WebRtcTransportStatsSnapshot
snapshot s = record {
  sender = sender_snapshot s.sender;
  hub = hub_snapshot s.hub;
  data_channel = data_channel_snapshot s.data_channel;
  endpoint = endpoint_snapshot s.endpoint;
}

-- The difference of one gap's counters: the maximum is the later one's.
abbrev pub gap_delta : GapSnapshot → GapSnapshot → GapSnapshot
gap_delta later before = record {
  samples = later.samples - before.samples;
  ms_total = later.ms_total - before.ms_total;
  ms_max = later.ms_max;
  over_1ms = later.over_1ms - before.over_1ms;
  over_4ms = later.over_4ms - before.over_4ms;
  over_16ms = later.over_16ms - before.over_16ms;
}

abbrev pub thresholds_delta : Thresholds → Thresholds → Thresholds
thresholds_delta later before = record {
  over_256k = later.over_256k - before.over_256k;
  over_512k = later.over_512k - before.over_512k;
  over_1m = later.over_1m - before.over_1m;
}

abbrev pub sender_delta : SenderSnapshot → SenderSnapshot → SenderSnapshot
sender_delta later before = record {
  poll_send_calls = later.poll_send_calls - before.poll_send_calls;
  poll_send_gap = gap_delta later.poll_send_gap before.poll_send_gap;
  transmits = later.transmits - before.transmits;
  payload_bytes = later.payload_bytes - before.payload_bytes;
  frame_bytes = later.frame_bytes - before.frame_bytes;
  transmit_datagrams = later.transmit_datagrams - before.transmit_datagrams;
  transmit_datagrams_max = later.transmit_datagrams_max;
  transmits_single_datagram = later.transmits_single_datagram - before.transmits_single_datagram;
  transmits_segmented = later.transmits_segmented - before.transmits_segmented;
  transmits_datagrams_2_to_4 = later.transmits_datagrams_2_to_4 - before.transmits_datagrams_2_to_4;
  transmits_datagrams_5_to_9 = later.transmits_datagrams_5_to_9 - before.transmits_datagrams_5_to_9;
  transmits_full_batch = later.transmits_full_batch - before.transmits_full_batch;
  transmit_payload_max = later.transmit_payload_max;
  inter_transmit_gap = gap_delta later.inter_transmit_gap before.inter_transmit_gap;
  encode_failures = later.encode_failures - before.encode_failures;
  queue_failures = later.queue_failures - before.queue_failures;
}

abbrev pub hub_delta : HubSnapshot → HubSnapshot → HubSnapshot
hub_delta later before = record {
  recv_push_gap = gap_delta later.recv_push_gap before.recv_push_gap;
  recv_wake_to_poll_gap = gap_delta later.recv_wake_to_poll_gap before.recv_wake_to_poll_gap;
  recv_pushes = later.recv_pushes - before.recv_pushes;
  recv_waker_sets = later.recv_waker_sets - before.recv_waker_sets;
  recv_wakes = later.recv_wakes - before.recv_wakes;
  outbound_push_gap = gap_delta later.outbound_push_gap before.outbound_push_gap;
  outbound_pushes = later.outbound_pushes - before.outbound_pushes;
  outbound_bytes = later.outbound_bytes - before.outbound_bytes;
  outbound_depth_max = later.outbound_depth_max;
  outbound_full = later.outbound_full - before.outbound_full;
  outbound_waker_sets = later.outbound_waker_sets - before.outbound_waker_sets;
  outbound_wakes = later.outbound_wakes - before.outbound_wakes;
  outbound_queue_delay = gap_delta later.outbound_queue_delay before.outbound_queue_delay;
  pop_matching_calls = later.pop_matching_calls - before.pop_matching_calls;
  pop_matching_hits = later.pop_matching_hits - before.pop_matching_hits;
  pop_matching_pending = later.pop_matching_pending - before.pop_matching_pending;
  pop_matching_scan_total = later.pop_matching_scan_total - before.pop_matching_scan_total;
  pop_matching_scan_max = later.pop_matching_scan_max;
}

abbrev pub data_channel_delta : DataChannelSnapshot → DataChannelSnapshot → DataChannelSnapshot
data_channel_delta later before = record {
  rx_message_gap = gap_delta later.rx_message_gap before.rx_message_gap;
  rx_messages = later.rx_messages - before.rx_messages;
  rx_frame_bytes = later.rx_frame_bytes - before.rx_frame_bytes;
  rx_payload_bytes = later.rx_payload_bytes - before.rx_payload_bytes;
  rx_invalid_frames = later.rx_invalid_frames - before.rx_invalid_frames;
  rx_wrong_session = later.rx_wrong_session - before.rx_wrong_session;
  rx_enqueue_failures = later.rx_enqueue_failures - before.rx_enqueue_failures;
  pump_pop_gap = gap_delta later.pump_pop_gap before.pump_pop_gap;
  pump_pops = later.pump_pops - before.pump_pops;
  send_gap = gap_delta later.send_gap before.send_gap;
  sent_messages = later.sent_messages - before.sent_messages;
  sent_bytes = later.sent_bytes - before.sent_bytes;
  buffered_amount_samples = later.buffered_amount_samples - before.buffered_amount_samples;
  buffered_amount_before_total =
      later.buffered_amount_before_total - before.buffered_amount_before_total;
  buffered_amount_after_total =
      later.buffered_amount_after_total - before.buffered_amount_after_total;
  buffered_amount_before_max = later.buffered_amount_before_max;
  buffered_amount_max = later.buffered_amount_max;
  buffered_amount_before =
      thresholds_delta later.buffered_amount_before before.buffered_amount_before;
  buffered_amount_after = thresholds_delta later.buffered_amount_after before.buffered_amount_after;
  send_failures = later.send_failures - before.send_failures;
}

abbrev pub endpoint_delta : EndpointSnapshot → EndpointSnapshot → EndpointSnapshot
endpoint_delta later before = record {
  poll_recv_call_gap = gap_delta later.poll_recv_call_gap before.poll_recv_call_gap;
  poll_recv_calls = later.poll_recv_calls - before.poll_recv_calls;
  poll_recv_pending = later.poll_recv_pending - before.poll_recv_pending;
  poll_recv_ready = later.poll_recv_ready - before.poll_recv_ready;
  poll_recv_ready_packets = later.poll_recv_ready_packets - before.poll_recv_ready_packets;
  poll_recv_ready_packets_max = later.poll_recv_ready_packets_max;
  poll_recv_partial_pending = later.poll_recv_partial_pending - before.poll_recv_partial_pending;
  poll_recv_full = later.poll_recv_full - before.poll_recv_full;
  poll_recv_pending_frame_continuations =
      later.poll_recv_pending_frame_continuations - before.poll_recv_pending_frame_continuations;
  delivered_packets = later.delivered_packets - before.delivered_packets;
  delivered_payload_bytes = later.delivered_payload_bytes - before.delivered_payload_bytes;
  delivered_payload_max = later.delivered_payload_max;
}

-- `delta_since`
unfoldable pub delta_since :
    WebRtcTransportStatsSnapshot → WebRtcTransportStatsSnapshot → WebRtcTransportStatsSnapshot
delta_since later before = record {
  sender = sender_delta later.sender before.sender;
  hub = hub_delta later.hub before.hub;
  data_channel = data_channel_delta later.data_channel before.data_channel;
  endpoint = endpoint_delta later.endpoint before.endpoint;
}
