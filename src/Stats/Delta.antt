-- ===== src/Stats/Delta.antt =====
-- Differences of snapshots add up: the counts of two spans, one after the other, are those of both.
use iroh_webrtc_messenger.Common.{◌+◌, ◌≤◌, ◌≡◌, arith}
use iroh_webrtc_messenger.Stats.{GapSnapshot, Thresholds}
use iroh_webrtc_messenger.Stats.Snapshot.{
  SenderSnapshot, HubSnapshot, DataChannelSnapshot, EndpointSnapshot, WebRtcTransportStatsSnapshot,
  gap_delta, thresholds_delta, sender_delta, hub_delta, data_channel_delta, endpoint_delta,
  delta_since,
}

-- The counts of two spans together; a maximum is that of the second.
abbrev pub gap_plus : GapSnapshot → GapSnapshot → GapSnapshot
gap_plus a b = record {
  samples = a.samples + b.samples;
  ms_total = a.ms_total + b.ms_total;
  ms_max = b.ms_max;
  over_1ms = a.over_1ms + b.over_1ms;
  over_4ms = a.over_4ms + b.over_4ms;
  over_16ms = a.over_16ms + b.over_16ms;
}

abbrev pub thresholds_plus : Thresholds → Thresholds → Thresholds
thresholds_plus a b = record {
  over_256k = a.over_256k + b.over_256k;
  over_512k = a.over_512k + b.over_512k;
  over_1m = a.over_1m + b.over_1m;
}

abbrev pub sender_plus : SenderSnapshot → SenderSnapshot → SenderSnapshot
sender_plus a b = record {
  poll_send_calls = a.poll_send_calls + b.poll_send_calls;
  poll_send_gap = gap_plus a.poll_send_gap b.poll_send_gap;
  transmits = a.transmits + b.transmits;
  payload_bytes = a.payload_bytes + b.payload_bytes;
  frame_bytes = a.frame_bytes + b.frame_bytes;
  transmit_datagrams = a.transmit_datagrams + b.transmit_datagrams;
  transmit_datagrams_max = b.transmit_datagrams_max;
  transmits_single_datagram = a.transmits_single_datagram + b.transmits_single_datagram;
  transmits_segmented = a.transmits_segmented + b.transmits_segmented;
  transmits_datagrams_2_to_4 = a.transmits_datagrams_2_to_4 + b.transmits_datagrams_2_to_4;
  transmits_datagrams_5_to_9 = a.transmits_datagrams_5_to_9 + b.transmits_datagrams_5_to_9;
  transmits_full_batch = a.transmits_full_batch + b.transmits_full_batch;
  transmit_payload_max = b.transmit_payload_max;
  inter_transmit_gap = gap_plus a.inter_transmit_gap b.inter_transmit_gap;
  encode_failures = a.encode_failures + b.encode_failures;
  queue_failures = a.queue_failures + b.queue_failures;
}

abbrev pub hub_plus : HubSnapshot → HubSnapshot → HubSnapshot
hub_plus a b = record {
  recv_push_gap = gap_plus a.recv_push_gap b.recv_push_gap;
  recv_wake_to_poll_gap = gap_plus a.recv_wake_to_poll_gap b.recv_wake_to_poll_gap;
  recv_pushes = a.recv_pushes + b.recv_pushes;
  recv_waker_sets = a.recv_waker_sets + b.recv_waker_sets;
  recv_wakes = a.recv_wakes + b.recv_wakes;
  outbound_push_gap = gap_plus a.outbound_push_gap b.outbound_push_gap;
  outbound_pushes = a.outbound_pushes + b.outbound_pushes;
  outbound_bytes = a.outbound_bytes + b.outbound_bytes;
  outbound_depth_max = b.outbound_depth_max;
  outbound_full = a.outbound_full + b.outbound_full;
  outbound_waker_sets = a.outbound_waker_sets + b.outbound_waker_sets;
  outbound_wakes = a.outbound_wakes + b.outbound_wakes;
  outbound_queue_delay = gap_plus a.outbound_queue_delay b.outbound_queue_delay;
  pop_matching_calls = a.pop_matching_calls + b.pop_matching_calls;
  pop_matching_hits = a.pop_matching_hits + b.pop_matching_hits;
  pop_matching_pending = a.pop_matching_pending + b.pop_matching_pending;
  pop_matching_scan_total = a.pop_matching_scan_total + b.pop_matching_scan_total;
  pop_matching_scan_max = b.pop_matching_scan_max;
}

abbrev pub data_channel_plus : DataChannelSnapshot → DataChannelSnapshot → DataChannelSnapshot
data_channel_plus a b = record {
  rx_message_gap = gap_plus a.rx_message_gap b.rx_message_gap;
  rx_messages = a.rx_messages + b.rx_messages;
  rx_frame_bytes = a.rx_frame_bytes + b.rx_frame_bytes;
  rx_payload_bytes = a.rx_payload_bytes + b.rx_payload_bytes;
  rx_invalid_frames = a.rx_invalid_frames + b.rx_invalid_frames;
  rx_wrong_session = a.rx_wrong_session + b.rx_wrong_session;
  rx_enqueue_failures = a.rx_enqueue_failures + b.rx_enqueue_failures;
  pump_pop_gap = gap_plus a.pump_pop_gap b.pump_pop_gap;
  pump_pops = a.pump_pops + b.pump_pops;
  send_gap = gap_plus a.send_gap b.send_gap;
  sent_messages = a.sent_messages + b.sent_messages;
  sent_bytes = a.sent_bytes + b.sent_bytes;
  buffered_amount_samples = a.buffered_amount_samples + b.buffered_amount_samples;
  buffered_amount_before_total = a.buffered_amount_before_total + b.buffered_amount_before_total;
  buffered_amount_after_total = a.buffered_amount_after_total + b.buffered_amount_after_total;
  buffered_amount_before_max = b.buffered_amount_before_max;
  buffered_amount_max = b.buffered_amount_max;
  buffered_amount_before = thresholds_plus a.buffered_amount_before b.buffered_amount_before;
  buffered_amount_after = thresholds_plus a.buffered_amount_after b.buffered_amount_after;
  send_failures = a.send_failures + b.send_failures;
}

abbrev pub endpoint_plus : EndpointSnapshot → EndpointSnapshot → EndpointSnapshot
endpoint_plus a b = record {
  poll_recv_call_gap = gap_plus a.poll_recv_call_gap b.poll_recv_call_gap;
  poll_recv_calls = a.poll_recv_calls + b.poll_recv_calls;
  poll_recv_pending = a.poll_recv_pending + b.poll_recv_pending;
  poll_recv_ready = a.poll_recv_ready + b.poll_recv_ready;
  poll_recv_ready_packets = a.poll_recv_ready_packets + b.poll_recv_ready_packets;
  poll_recv_ready_packets_max = b.poll_recv_ready_packets_max;
  poll_recv_partial_pending = a.poll_recv_partial_pending + b.poll_recv_partial_pending;
  poll_recv_full = a.poll_recv_full + b.poll_recv_full;
  poll_recv_pending_frame_continuations =
      a.poll_recv_pending_frame_continuations + b.poll_recv_pending_frame_continuations;
  delivered_packets = a.delivered_packets + b.delivered_packets;
  delivered_payload_bytes = a.delivered_payload_bytes + b.delivered_payload_bytes;
  delivered_payload_max = b.delivered_payload_max;
}

abbrev pub plus :
    WebRtcTransportStatsSnapshot → WebRtcTransportStatsSnapshot → WebRtcTransportStatsSnapshot
plus a b = record {
  sender = sender_plus a.sender b.sender;
  hub = hub_plus a.hub b.hub;
  data_channel = data_channel_plus a.data_channel b.data_channel;
  endpoint = endpoint_plus a.endpoint b.endpoint;
}

-- No counter of the first is above that of the second; nothing is asked of the maxima.
pub record GapIsBefore (a b : GapSnapshot) : Type 0 where
  pub samples : a.samples ≤ b.samples
  pub ms_total : a.ms_total ≤ b.ms_total
  pub over_1ms : a.over_1ms ≤ b.over_1ms
  pub over_4ms : a.over_4ms ≤ b.over_4ms
  pub over_16ms : a.over_16ms ≤ b.over_16ms

pub record ThresholdsIsBefore (a b : Thresholds) : Type 0 where
  pub over_256k : a.over_256k ≤ b.over_256k
  pub over_512k : a.over_512k ≤ b.over_512k
  pub over_1m : a.over_1m ≤ b.over_1m

pub record SenderIsBefore (a b : SenderSnapshot) : Type 0 where
  pub poll_send_calls : a.poll_send_calls ≤ b.poll_send_calls
  pub poll_send_gap : GapIsBefore a.poll_send_gap b.poll_send_gap
  pub transmits : a.transmits ≤ b.transmits
  pub payload_bytes : a.payload_bytes ≤ b.payload_bytes
  pub frame_bytes : a.frame_bytes ≤ b.frame_bytes
  pub transmit_datagrams : a.transmit_datagrams ≤ b.transmit_datagrams
  pub transmits_single_datagram : a.transmits_single_datagram ≤ b.transmits_single_datagram
  pub transmits_segmented : a.transmits_segmented ≤ b.transmits_segmented
  pub transmits_datagrams_2_to_4 : a.transmits_datagrams_2_to_4 ≤ b.transmits_datagrams_2_to_4
  pub transmits_datagrams_5_to_9 : a.transmits_datagrams_5_to_9 ≤ b.transmits_datagrams_5_to_9
  pub transmits_full_batch : a.transmits_full_batch ≤ b.transmits_full_batch
  pub inter_transmit_gap : GapIsBefore a.inter_transmit_gap b.inter_transmit_gap
  pub encode_failures : a.encode_failures ≤ b.encode_failures
  pub queue_failures : a.queue_failures ≤ b.queue_failures

pub record HubIsBefore (a b : HubSnapshot) : Type 0 where
  pub recv_push_gap : GapIsBefore a.recv_push_gap b.recv_push_gap
  pub recv_wake_to_poll_gap : GapIsBefore a.recv_wake_to_poll_gap b.recv_wake_to_poll_gap
  pub recv_pushes : a.recv_pushes ≤ b.recv_pushes
  pub recv_waker_sets : a.recv_waker_sets ≤ b.recv_waker_sets
  pub recv_wakes : a.recv_wakes ≤ b.recv_wakes
  pub outbound_push_gap : GapIsBefore a.outbound_push_gap b.outbound_push_gap
  pub outbound_pushes : a.outbound_pushes ≤ b.outbound_pushes
  pub outbound_bytes : a.outbound_bytes ≤ b.outbound_bytes
  pub outbound_full : a.outbound_full ≤ b.outbound_full
  pub outbound_waker_sets : a.outbound_waker_sets ≤ b.outbound_waker_sets
  pub outbound_wakes : a.outbound_wakes ≤ b.outbound_wakes
  pub outbound_queue_delay : GapIsBefore a.outbound_queue_delay b.outbound_queue_delay
  pub pop_matching_calls : a.pop_matching_calls ≤ b.pop_matching_calls
  pub pop_matching_hits : a.pop_matching_hits ≤ b.pop_matching_hits
  pub pop_matching_pending : a.pop_matching_pending ≤ b.pop_matching_pending
  pub pop_matching_scan_total : a.pop_matching_scan_total ≤ b.pop_matching_scan_total

pub record DataChannelIsBefore (a b : DataChannelSnapshot) : Type 0 where
  pub rx_message_gap : GapIsBefore a.rx_message_gap b.rx_message_gap
  pub rx_messages : a.rx_messages ≤ b.rx_messages
  pub rx_frame_bytes : a.rx_frame_bytes ≤ b.rx_frame_bytes
  pub rx_payload_bytes : a.rx_payload_bytes ≤ b.rx_payload_bytes
  pub rx_invalid_frames : a.rx_invalid_frames ≤ b.rx_invalid_frames
  pub rx_wrong_session : a.rx_wrong_session ≤ b.rx_wrong_session
  pub rx_enqueue_failures : a.rx_enqueue_failures ≤ b.rx_enqueue_failures
  pub pump_pop_gap : GapIsBefore a.pump_pop_gap b.pump_pop_gap
  pub pump_pops : a.pump_pops ≤ b.pump_pops
  pub send_gap : GapIsBefore a.send_gap b.send_gap
  pub sent_messages : a.sent_messages ≤ b.sent_messages
  pub sent_bytes : a.sent_bytes ≤ b.sent_bytes
  pub buffered_amount_samples : a.buffered_amount_samples ≤ b.buffered_amount_samples
  pub buffered_amount_before_total : a.buffered_amount_before_total ≤ b.buffered_amount_before_total
  pub buffered_amount_after_total : a.buffered_amount_after_total ≤ b.buffered_amount_after_total
  pub buffered_amount_before : ThresholdsIsBefore a.buffered_amount_before b.buffered_amount_before
  pub buffered_amount_after : ThresholdsIsBefore a.buffered_amount_after b.buffered_amount_after
  pub send_failures : a.send_failures ≤ b.send_failures

pub record EndpointIsBefore (a b : EndpointSnapshot) : Type 0 where
  pub poll_recv_call_gap : GapIsBefore a.poll_recv_call_gap b.poll_recv_call_gap
  pub poll_recv_calls : a.poll_recv_calls ≤ b.poll_recv_calls
  pub poll_recv_pending : a.poll_recv_pending ≤ b.poll_recv_pending
  pub poll_recv_ready : a.poll_recv_ready ≤ b.poll_recv_ready
  pub poll_recv_ready_packets : a.poll_recv_ready_packets ≤ b.poll_recv_ready_packets
  pub poll_recv_partial_pending : a.poll_recv_partial_pending ≤ b.poll_recv_partial_pending
  pub poll_recv_full : a.poll_recv_full ≤ b.poll_recv_full
  pub poll_recv_pending_frame_continuations :
      a.poll_recv_pending_frame_continuations ≤ b.poll_recv_pending_frame_continuations
  pub delivered_packets : a.delivered_packets ≤ b.delivered_packets
  pub delivered_payload_bytes : a.delivered_payload_bytes ≤ b.delivered_payload_bytes

pub record IsBefore (a b : WebRtcTransportStatsSnapshot) : Type 0 where
  pub sender : SenderIsBefore a.sender b.sender
  pub hub : HubIsBefore a.hub b.hub
  pub data_channel : DataChannelIsBefore a.data_channel b.data_channel
  pub endpoint : EndpointIsBefore a.endpoint b.endpoint

gap_delta-plus :
    (a b c : GapSnapshot)
    → GapIsBefore a b
    → GapIsBefore b c
    → gap_plus (gap_delta b a) (gap_delta c b) ≡ gap_delta c a
gap_delta-plus a b c h k = ground arith

thresholds_delta-plus :
    (a b c : Thresholds)
    → ThresholdsIsBefore a b
    → ThresholdsIsBefore b c
    → thresholds_plus (thresholds_delta b a) (thresholds_delta c b) ≡ thresholds_delta c a
thresholds_delta-plus a b c h k = ground arith

sender_delta-plus :
    (a b c : SenderSnapshot)
    → SenderIsBefore a b
    → SenderIsBefore b c
    → sender_plus (sender_delta b a) (sender_delta c b) ≡ sender_delta c a
sender_delta-plus a b c h k = ground (
  arith,
  gap_delta-plus a.poll_send_gap b.poll_send_gap c.poll_send_gap h.poll_send_gap k.poll_send_gap,
  gap_delta-plus a.inter_transmit_gap b.inter_transmit_gap c.inter_transmit_gap h.inter_transmit_gap
      k.inter_transmit_gap,
)

hub_delta-plus :
    (a b c : HubSnapshot)
    → HubIsBefore a b
    → HubIsBefore b c
    → hub_plus (hub_delta b a) (hub_delta c b) ≡ hub_delta c a
hub_delta-plus a b c h k = ground (
  arith,
  gap_delta-plus a.recv_push_gap b.recv_push_gap c.recv_push_gap h.recv_push_gap k.recv_push_gap,
  gap_delta-plus a.recv_wake_to_poll_gap b.recv_wake_to_poll_gap c.recv_wake_to_poll_gap
      h.recv_wake_to_poll_gap k.recv_wake_to_poll_gap,
  gap_delta-plus a.outbound_push_gap b.outbound_push_gap c.outbound_push_gap h.outbound_push_gap
      k.outbound_push_gap,
  gap_delta-plus a.outbound_queue_delay b.outbound_queue_delay c.outbound_queue_delay
      h.outbound_queue_delay k.outbound_queue_delay,
)

data_channel_delta-plus :
    (a b c : DataChannelSnapshot)
    → DataChannelIsBefore a b
    → DataChannelIsBefore b c
    → data_channel_plus (data_channel_delta b a) (data_channel_delta c b) ≡ data_channel_delta c a
data_channel_delta-plus a b c h k = ground (
  arith,
  gap_delta-plus a.rx_message_gap b.rx_message_gap c.rx_message_gap h.rx_message_gap
      k.rx_message_gap,
  gap_delta-plus a.pump_pop_gap b.pump_pop_gap c.pump_pop_gap h.pump_pop_gap k.pump_pop_gap,
  gap_delta-plus a.send_gap b.send_gap c.send_gap h.send_gap k.send_gap,
  thresholds_delta-plus a.buffered_amount_before b.buffered_amount_before c.buffered_amount_before
      h.buffered_amount_before k.buffered_amount_before,
  thresholds_delta-plus a.buffered_amount_after b.buffered_amount_after c.buffered_amount_after
      h.buffered_amount_after k.buffered_amount_after,
)

endpoint_delta-plus :
    (a b c : EndpointSnapshot)
    → EndpointIsBefore a b
    → EndpointIsBefore b c
    → endpoint_plus (endpoint_delta b a) (endpoint_delta c b) ≡ endpoint_delta c a
endpoint_delta-plus a b c h k = ground (
  arith,
  gap_delta-plus a.poll_recv_call_gap b.poll_recv_call_gap c.poll_recv_call_gap h.poll_recv_call_gap
      k.poll_recv_call_gap,
)

-- Where no counter goes down from one snapshot to the next, what is counted between the first and the
-- second and between the second and the third makes up what is counted between the first and the third.
pub delta_since-plus :
    (a b c : WebRtcTransportStatsSnapshot)
    → IsBefore a b
    → IsBefore b c
    → plus (delta_since b a) (delta_since c b) ≡ delta_since c a
unfolding delta_since
delta_since-plus a b c h k = ground (
  arith,
  sender_delta-plus a.sender b.sender c.sender h.sender k.sender,
  hub_delta-plus a.hub b.hub c.hub h.hub k.hub,
  data_channel_delta-plus a.data_channel b.data_channel c.data_channel h.data_channel
      k.data_channel,
  endpoint_delta-plus a.endpoint b.endpoint c.endpoint h.endpoint k.endpoint,
)
