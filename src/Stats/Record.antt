-- ===== src/Stats/Record.antt =====
-- crates/iroh-webrtc-transport/src/core/hub.rs: the `record_*` methods of `SessionHub`, as functions
-- on the group of counters that each writes.
use iroh_webrtc_messenger.Common.{ℕ, Bool, ◌==◌, leb, if◌then◌else◌, ◌-◌}
use iroh_webrtc_messenger.Stats.{
  fetch_add, update_max, Gap, record_gap_ms, record_observed_gap_ms,
  record_buffered_amount_thresholds, SenderStats, DataChannelStats, EndpointStats,
  WebRtcTransportStats,
}

unfoldable pub record_sender_poll_send_call : ℕ → SenderStats → SenderStats
record_sender_poll_send_call now s = record s {
  poll_send_calls = fetch_add s.poll_send_calls 1;
  poll_send_gap = record_gap_ms now s.poll_send_gap;
}

-- The `match datagrams` of `record_sender_transmit`.
unfoldable pub count_batch : ℕ → SenderStats → SenderStats
count_batch datagrams s =
    if leb datagrams 1
    then record s { transmits_single_datagram = fetch_add s.transmits_single_datagram 1 }
    else if leb datagrams 4
    then record s {
      transmits_segmented = fetch_add s.transmits_segmented 1;
      transmits_datagrams_2_to_4 = fetch_add s.transmits_datagrams_2_to_4 1;
    }
    else if leb datagrams 9
    then record s {
      transmits_segmented = fetch_add s.transmits_segmented 1;
      transmits_datagrams_5_to_9 = fetch_add s.transmits_datagrams_5_to_9 1;
    }
    else record s {
      transmits_segmented = fetch_add s.transmits_segmented 1;
      transmits_full_batch = fetch_add s.transmits_full_batch 1;
    }

-- The counters before the `match datagrams` of `record_sender_transmit`.
unfoldable pub count_transmit : ℕ → ℕ → ℕ → SenderStats → SenderStats
count_transmit payload_bytes frame_bytes datagrams s = record s {
  transmits = fetch_add s.transmits 1;
  payload_bytes = fetch_add s.payload_bytes payload_bytes;
  frame_bytes = fetch_add s.frame_bytes frame_bytes;
  transmit_datagrams = fetch_add s.transmit_datagrams datagrams;
  transmit_datagrams_max = update_max s.transmit_datagrams_max datagrams;
  transmit_payload_max = update_max s.transmit_payload_max payload_bytes;
}

unfoldable pub record_sender_transmit : ℕ → ℕ → ℕ → ℕ → SenderStats → SenderStats
record_sender_transmit now payload_bytes frame_bytes datagrams s =
    let counted = count_batch datagrams (count_transmit payload_bytes frame_bytes datagrams s) in
    record counted { inter_transmit_gap = record_gap_ms now counted.inter_transmit_gap }

abbrev pub record_sender_encode_failure : SenderStats → SenderStats
record_sender_encode_failure s = record s { encode_failures = fetch_add s.encode_failures 1 }

abbrev pub record_sender_queue_failure : SenderStats → SenderStats
record_sender_queue_failure s = record s { queue_failures = fetch_add s.queue_failures 1 }

abbrev pub record_data_channel_rx_message : ℕ → ℕ → ℕ → DataChannelStats → DataChannelStats
record_data_channel_rx_message now frame_bytes payload_bytes s = record s {
  rx_messages = fetch_add s.rx_messages 1;
  rx_frame_bytes = fetch_add s.rx_frame_bytes frame_bytes;
  rx_payload_bytes = fetch_add s.rx_payload_bytes payload_bytes;
  rx_message_gap = record_gap_ms now s.rx_message_gap;
}

abbrev pub record_data_channel_rx_invalid_frame : DataChannelStats → DataChannelStats
record_data_channel_rx_invalid_frame s = record s {
  rx_invalid_frames = fetch_add s.rx_invalid_frames 1;
}

abbrev pub record_data_channel_rx_wrong_session : DataChannelStats → DataChannelStats
record_data_channel_rx_wrong_session s = record s {
  rx_wrong_session = fetch_add s.rx_wrong_session 1;
}

abbrev pub record_data_channel_rx_enqueue_failure : DataChannelStats → DataChannelStats
record_data_channel_rx_enqueue_failure s = record s {
  rx_enqueue_failures = fetch_add s.rx_enqueue_failures 1;
}

abbrev pub record_data_channel_pump_pop : ℕ → DataChannelStats → DataChannelStats
record_data_channel_pump_pop now s = record s {
  pump_pops = fetch_add s.pump_pops 1;
  pump_pop_gap = record_gap_ms now s.pump_pop_gap;
}

abbrev pub record_data_channel_send : ℕ → ℕ → ℕ → ℕ → DataChannelStats → DataChannelStats
record_data_channel_send now bytes before after s = record s {
  sent_messages = fetch_add s.sent_messages 1;
  sent_bytes = fetch_add s.sent_bytes bytes;
  buffered_amount_samples = fetch_add s.buffered_amount_samples 1;
  buffered_amount_before_total = fetch_add s.buffered_amount_before_total before;
  buffered_amount_after_total = fetch_add s.buffered_amount_after_total after;
  buffered_amount_before_max = update_max s.buffered_amount_before_max before;
  buffered_amount_max = update_max s.buffered_amount_max after;
  buffered_amount_before = record_buffered_amount_thresholds before s.buffered_amount_before;
  buffered_amount_after = record_buffered_amount_thresholds after s.buffered_amount_after;
  send_gap = record_gap_ms now s.send_gap;
}

abbrev pub record_data_channel_send_failure : DataChannelStats → DataChannelStats
record_data_channel_send_failure s = record s { send_failures = fetch_add s.send_failures 1 }

-- The wake-to-poll part of `record_endpoint_poll_recv_call`: the time of the last wake is taken.
unfoldable pub take_wake : ℕ → Gap → Gap
take_wake now g =
    if g.last_ms == 0
    then record g { last_ms = 0 }
    else record_observed_gap_ms (now - g.last_ms) (record g { last_ms = 0 })

unfoldable pub record_endpoint_poll_recv_call : ℕ → ℕ → WebRtcTransportStats → WebRtcTransportStats
record_endpoint_poll_recv_call now later s = record s {
  endpoint = record s.endpoint {
    poll_recv_calls = fetch_add s.endpoint.poll_recv_calls 1;
    poll_recv_call_gap = record_gap_ms now s.endpoint.poll_recv_call_gap;
  };
  hub = record s.hub { recv_wake_to_poll_gap = take_wake later s.hub.recv_wake_to_poll_gap };
}

abbrev pub record_endpoint_poll_recv_pending : EndpointStats → EndpointStats
record_endpoint_poll_recv_pending s = record s {
  poll_recv_pending = fetch_add s.poll_recv_pending 1;
}

abbrev pub record_endpoint_poll_recv_ready : ℕ → Bool → EndpointStats → EndpointStats
record_endpoint_poll_recv_ready packets full s = record s {
  poll_recv_ready = fetch_add s.poll_recv_ready 1;
  poll_recv_ready_packets = fetch_add s.poll_recv_ready_packets packets;
  poll_recv_ready_packets_max = update_max s.poll_recv_ready_packets_max packets;
  poll_recv_full = if full then fetch_add s.poll_recv_full 1 else s.poll_recv_full;
}

abbrev pub record_endpoint_poll_recv_partial_pending : EndpointStats → EndpointStats
record_endpoint_poll_recv_partial_pending s = record s {
  poll_recv_partial_pending = fetch_add s.poll_recv_partial_pending 1;
}

abbrev pub record_endpoint_poll_recv_pending_frame_continuation : EndpointStats → EndpointStats
record_endpoint_poll_recv_pending_frame_continuation s = record s {
  poll_recv_pending_frame_continuations = fetch_add s.poll_recv_pending_frame_continuations 1;
}

abbrev pub record_endpoint_delivery : ℕ → ℕ → ℕ → EndpointStats → EndpointStats
record_endpoint_delivery payload_bytes datagrams max_datagram_bytes s = record s {
  delivered_packets = fetch_add s.delivered_packets datagrams;
  delivered_payload_bytes = fetch_add s.delivered_payload_bytes payload_bytes;
  delivered_payload_max = update_max s.delivered_payload_max max_datagram_bytes;
}
