-- ===== src/Config/Bounds.antt =====
-- Which configurations of config.rs and transport.rs pass their validation, and what a transport that
-- is made of one can carry.
use iroh_webrtc_messenger.Common.{
  ◌^◌, ◌≤◌, ◌<◌, ◌≡◌, ◌≢◌, ◌⊎◌, ◌↔◌, inl, inr, refl, sym, subst, true, false, List, [], ◌∷◌, some,
  ok, Bytes, codes, All, map, ◌||◌, length, arith, Result-cases,
}
use iroh_webrtc_messenger.Iroh.{Iroh}
use iroh_webrtc_messenger.Mpsc.{Mpsc}
use iroh_webrtc_messenger.Hub.{OutboundPacket}
use iroh_webrtc_messenger.Frame.{WebRtcPacketFrame, encode, decode, layout}
use iroh_webrtc_messenger.Frame.Checks.{encode_total, wire_segment_size}
use iroh_webrtc_messenger.Frame.RoundTrip.{IsFrame, carried_segment_size, decode-encode}
use iroh_webrtc_messenger.Config.Schemes.{Spells, has_scheme-stun, has_scheme-stuns}
use iroh_webrtc_messenger.Config.{
  WebRtcSessionConfig, WebRtcTransportConfig, WebRtcTransport, has_scheme, starts_with,
  ascii_lowercase, validate_stun_url, validate_all, check_urls, direct_only, validate_direct_only,
  validate_frame, validate_data_channel, validate_session, validate_queues, direct_stun, try_new,
}

-- A URL whose scheme is STUN, in any case of its letters.
abbrev pub IsStun : Bytes → Type 0
IsStun url = Spells (codes "stun:") url ⊎ Spells (codes "stuns:") url

-- What a session may be configured with.
pub record IsValid (c : WebRtcSessionConfig) : Type 0 where
  pub stun : All IsStun c.ice.stun_urls
  pub payload : (1 ≤ c.frame.max_payload_len) × (c.frame.max_payload_len < 2 ^ 16)
  pub thresholds :
      c.data_channel.buffered_amount_low_threshold < c.data_channel.buffered_amount_high_threshold
  pub narrow : c.data_channel.buffered_amount_high_threshold < 2 ^ 32
  pub ice_queue : 1 ≤ c.local_ice_queue_capacity

-- A STUN scheme is no TURN scheme.
turn_excluded :
    (l : Bytes)
    → (starts_with (codes "stun:") l ≡ true) ⊎ (starts_with (codes "stuns:") l ≡ true)
    → (starts_with (codes "turn:") l || starts_with (codes "turns:") l) ≡ false
turn_excluded [] h = refl
turn_excluded (c ∷ cs) h = ground arith

-- The test of the code, in its own terms.
scheme_test_iff :
    (url : Bytes)
    → ((has_scheme (codes "stun:") url ≡ true) ⊎ (has_scheme (codes "stuns:") url ≡ true))
      ↔ IsStun url
scheme_test_iff url = (
  λ h. elim h [
    | inl plain ↦ inl ((has_scheme-stun url).0 plain)
    | inr secure ↦ inr ((has_scheme-stuns url).0 secure)
  ],
  λ h. elim h [
    | inl plain ↦ inl ((has_scheme-stun url).1 plain)
    | inr secure ↦ inr ((has_scheme-stuns url).1 secure)
  ],
)

validate_stun_url_tests :
    (url : Bytes)
    → (validate_stun_url url ≡ ok url)
      ↔ ((has_scheme (codes "stun:") url ≡ true) ⊎ (has_scheme (codes "stuns:") url ≡ true))
unfolding validate_stun_url
validate_stun_url_tests url =
    (λ e. ground (arith, e), λ h. ground (arith, turn_excluded (map ascii_lowercase url) h))

validate_stun_url_iff : (url : Bytes) → (validate_stun_url url ≡ ok url) ↔ IsStun url
validate_stun_url_iff url = (
  λ e. (scheme_test_iff url).0 ((validate_stun_url_tests url).0 e),
  λ h. (validate_stun_url_tests url).1 ((scheme_test_iff url).1 h),
)

validate_stun_url_keeps :
    (url v : Bytes) → validate_stun_url url ≡ ok v → validate_stun_url url ≡ ok url
unfolding validate_stun_url
validate_stun_url_keeps url v e = ground (arith, e)

check_urls_iff : (urls : List Bytes) → (check_urls urls ≡ ok tt) ↔ All IsStun urls
check_urls_iff [] = (λ e. tt, λ h. refl)
check_urls_iff (url ∷ urls) = (
  λ e. elim (Result-cases (validate_stun_url url)) [
    | inl (v, good) ↦ (
      (validate_stun_url_iff url).0 (validate_stun_url_keeps url v good),
      (check_urls_iff urls).0 (ground (arith, e, good)),
    )
    | inr (x, bad) ↦ absurd (ground (arith, e, bad))
  ],
  λ h. ground (arith, (validate_stun_url_iff url).1 h.0, (check_urls_iff urls).1 h.1),
)

-- A session's configuration passes exactly where every ICE server is a STUN server, in any case of its
-- scheme's letters, a payload fits in 16 bits and is not empty, the low threshold is below the high
-- one and both fit in 32 bits, and the ICE queue has room.
pub validate_session_iff : (c : WebRtcSessionConfig) → (validate_session c ≡ ok tt) ↔ IsValid c
unfolding validate_session validate_direct_only validate_frame validate_data_channel
validate_session_iff c = (
  λ e. elim (Result-cases (check_urls c.ice.stun_urls)) [
    | inr (x, bad) ↦ absurd (ground (arith, e, bad))
    | inl (u, good) ↦ record {
      stun = (check_urls_iff c.ice.stun_urls).0 (ground (arith, good));
      payload = (ground (arith, e, good), ground (arith, e, good));
      thresholds = ground (arith, e, good);
      narrow = ground (arith, e, good);
      ice_queue = ground (arith, e, good);
    }
  ],
  λ v. ground (arith, v, (check_urls_iff c.ice.stun_urls).1 v.stun),
)

validate_all-keeps :
    (urls vs : List Bytes) → validate_all urls ≡ ok vs → (vs ≡ urls) × All IsStun urls
unfolding validate_all validate_stun_url
validate_all-keeps [] vs e = (ground (arith, e), tt)
validate_all-keeps (url ∷ urls) vs e = elim (Result-cases (validate_stun_url url)) [
  | inr (x, bad) ↦ absurd (ground (arith, e, bad))
  | inl (v, good) ↦ elim (Result-cases (validate_all urls)) [
    | inr (x, bad) ↦ absurd (ground (arith, e, good, bad))
    | inl (ws, fine) ↦
        let rest = validate_all-keeps urls ws fine in
        let one : v ≡ url = ground (arith, good) in
        (
          ground (arith, e, good, fine, rest.0, one),
          ((validate_stun_url_iff url).0 (validate_stun_url_keeps url v good), rest.1),
        )
  ]
]

-- The URLs of a configuration that `direct_only` returns are those that it was given, and the session
-- configuration made of it with the defaults passes.
pub direct_stun-IsValid :
    (urls : List Bytes) (c : WebRtcSessionConfig)
    → direct_stun urls ≡ ok c
    → (c.ice.stun_urls ≡ urls) × (validate_session c ≡ ok tt)
unfolding direct_stun direct_only
direct_stun-IsValid urls c e = elim (Result-cases (validate_all urls)) [
  | inr (x, bad) ↦ absurd (ground (arith, e, bad))
  | inl (vs, good) ↦
      let kept = validate_all-keeps urls vs good in
      let same : c.ice.stun_urls ≡ urls = ground (arith, e, good, kept.0) in
      (
        same,
        (validate_session_iff c).1 (record {
          stun = subst (All IsStun) (sym same) kept.1;
          payload = (ground (arith, e, good), ground (arith, e, good));
          thresholds = ground (arith, e, good);
          narrow = ground (arith, e, good);
          ice_queue = ground (arith, e, good);
        }),
      )
]

module _ {Waker : Type 0} (iroh : Iroh) (mpsc : Mpsc Waker (OutboundPacket (iroh.CustomAddr))) where
  -- A transport is made only of a configuration whose queues have room; every frame with a payload within
  -- its limit and a segment size that is not zero can then be sent, and is decoded under the same limit to
  -- a frame with the same payload and session.
  pub try_new_carries :
      (config : WebRtcTransportConfig iroh mpsc) (t : WebRtcTransport iroh mpsc)
      (f : WebRtcPacketFrame)
      → try_new iroh mpsc config ≡ ok t
      → IsFrame f
      → 0 < length f.payload
      → length f.payload ≤ config.frame.max_payload_len
      → f.segment_size ≢ some 0
      → (1 ≤ config.queues.recv_capacity)
        × (1 ≤ config.queues.send_capacity)
        × (bytes : Bytes) × (g : WebRtcPacketFrame) × (encode f t.config.frame.max_payload_len
            ≡ ok bytes)
        × (decode bytes t.config.frame.max_payload_len ≡ ok g)
        × (g.payload ≡ f.payload)
        × (g.session_id ≡ f.session_id)
  unfolding try_new validate_queues validate_frame
  try_new_carries config t f e v nonempty within nonzero =
      let max = config.frame.max_payload_len in
      let same : t.config.frame.max_payload_len ≡ max = ground (arith, e) in
      let narrow : max < 2 ^ 32 = ground (arith, e) in
      let written = encode_total f max nonempty within narrow nonzero in
      (
        ground (arith, e),
        ground (arith, e),
        layout f (wire_segment_size f.segment_size (length f.payload)),
        record f { segment_size = carried_segment_size f.segment_size (length f.payload) },
        ground (arith, same, written),
        ground (arith, same, decode-encode f max _ v written),
        refl,
        refl,
      )
