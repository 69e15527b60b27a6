-- ===== src/Node/Advertised.antt =====
-- Which local addresses a node advertises.
use iroh_webrtc_messenger.Common.{
  ◌≡◌, ◌≢◌, ◌↔◌, ◌⊎◌, ◌∙◌, refl, ap, sym, subst, true, false, ◌&&◌, ◌||◌, Bool, List, [], ◌∷◌,
  arith, Option, some, ok, Bytes, Bytes-discrete, inl, inr, Bool-cases,
}
use mathlib.Core.List.{Memᴰ}
use mathlib.Core.List.Memᴰ
use iroh_webrtc_messenger.Common.Maps.{get, get-insert, values}
use iroh_webrtc_messenger.Addr.{capability_addr, session_addr, to_custom_addr}
use iroh_webrtc_messenger.Signal.{BootstrapTransportIntent, uses_webrtc, WebRtcTerminalReason}
use iroh_webrtc_messenger.Session.{
  BrowserSessionState, DataChannelAttachmentState, BrowserSessionLifecycle, record_terminal_sent,
  apply_terminal_reason, fail, close,
}
use iroh_webrtc_messenger.Node.{
  Platform, EndpointId, CustomAddr, Node, is_advertised, is_dead_channel, is_over, insert_addr,
  sort_addrs, same_addr, dedup_after, dedup, session_addrs, refresh_webrtc_transport_addrs,
}
use iroh_webrtc_messenger.Node.Signals.{
  BrowserTerminalDecision, decision_reason, emit_terminal_decision,
}

uses_webrtc_iff :
    (i : BootstrapTransportIntent)
    → (uses_webrtc i ≡ true) ↔ (i ≢ BootstrapTransportIntent.iroh_relay)
uses_webrtc_iff i = ground arith

is_dead_channel_iff :
    (c : DataChannelAttachmentState)
    → (is_dead_channel c ≡ false)
      ↔ ((c ≢ DataChannelAttachmentState.failed) × (c ≢ DataChannelAttachmentState.closed))
is_dead_channel_iff c = ground arith

is_over_iff :
    (l : BrowserSessionLifecycle)
    → (is_over l ≡ false)
      ↔ ((l ≢ BrowserSessionLifecycle.failed) × (l ≢ BrowserSessionLifecycle.closed))
is_over_iff l = ground arith

module _ (p : Platform) where
  -- Whether an address is in a list.
  abbrev pub has_addr : CustomAddr p → List (CustomAddr p) → Bool
  has_addr a [] = false
  has_addr a (b ∷ bs) = same_addr p a b || has_addr a bs

  -- Whether a session that is to be advertised has the address.
  abbrev pub is_address_of_some : CustomAddr p → List (BrowserSessionState (EndpointId p)) → Bool
  is_address_of_some a [] = false
  is_address_of_some a (s ∷ ss) =
      (is_advertised s && same_addr p a (to_custom_addr p.iroh (session_addr s.local s.dial_id)))
      || is_address_of_some a ss

  has_addr-insert_addr :
      (a b : CustomAddr p) (bs : List (CustomAddr p))
      → has_addr a (insert_addr p b bs) ≡ (same_addr p a b || has_addr a bs)
  has_addr-insert_addr a b [] = refl
  has_addr-insert_addr a b (c ∷ bs) = ground (arith, has_addr-insert_addr a b bs)

  has_addr-sort_addrs :
      (a : CustomAddr p) (bs : List (CustomAddr p)) → has_addr a (sort_addrs p bs) ≡ has_addr a bs
  has_addr-sort_addrs a [] = refl
  has_addr-sort_addrs a (b ∷ bs) =
      has_addr-insert_addr a b (sort_addrs p bs)
      ∙ ap (λ r. same_addr p a b || r) (has_addr-sort_addrs a bs)

  same_addr-same :
      (a b c : CustomAddr p) → same_addr p b c ≡ true → same_addr p a b ≡ same_addr p a c
  same_addr-same a b c h = ground (arith, h)

  has_addr-dedup_after :
      (a b : CustomAddr p) (bs : List (CustomAddr p))
      → (same_addr p a b || has_addr a (dedup_after p b bs)) ≡ (same_addr p a b || has_addr a bs)
  has_addr-dedup_after a b [] = refl
  has_addr-dedup_after a b (c ∷ bs) = elim (Bool-cases (same_addr p b c)) [
    | inl equal ↦ ground (arith, equal, same_addr-same a b c equal, has_addr-dedup_after a b bs)
    | inr other ↦ ground (arith, other, has_addr-dedup_after a c bs)
  ]

  has_addr-dedup :
      (a : CustomAddr p) (bs : List (CustomAddr p)) → has_addr a (dedup p bs) ≡ has_addr a bs
  has_addr-dedup a [] = refl
  has_addr-dedup a (b ∷ bs) = has_addr-dedup_after a b bs

  has_addr-session_addrs :
      (a : CustomAddr p) (ss : List (BrowserSessionState (EndpointId p)))
      → has_addr a (session_addrs p ss) ≡ is_address_of_some a ss
  has_addr-session_addrs a [] = refl
  has_addr-session_addrs a (s ∷ ss) = elim (Bool-cases (is_advertised s)) [
    | inl on ↦ ground (arith, on, has_addr-session_addrs a ss)
    | inr off ↦ ground (arith, off, has_addr-session_addrs a ss)
  ]

  refresh-has_addr :
      (n : Node p) (a : CustomAddr p)
      → has_addr a (refresh_webrtc_transport_addrs p n).local_addrs ≡ (
          same_addr p a (to_custom_addr p.iroh (capability_addr n.endpoint_id))
          || is_address_of_some a (values n.sessions))
  unfolding refresh_webrtc_transport_addrs
  refresh-has_addr n a =
      let own = to_custom_addr p.iroh (capability_addr n.endpoint_id) in
      let all = own ∷ session_addrs p (values n.sessions) in
      has_addr-dedup a (sort_addrs p all)
      ∙ has_addr-sort_addrs a all
      ∙ ap (λ r. same_addr p a own || r) (has_addr-session_addrs a (values n.sessions))

  -- A session whose dial allows WebRTC and whose channel and lifecycle have neither failed nor closed.
  abbrev pub IsLive : BrowserSessionState (EndpointId p) → Type 0
  IsLive s =
      (s.transport_intent ≢ BootstrapTransportIntent.iroh_relay)
      × (s.channel_attachment ≢ DataChannelAttachmentState.failed)
      × (s.channel_attachment ≢ DataChannelAttachmentState.closed)
      × (s.lifecycle ≢ BrowserSessionLifecycle.failed)
      × (s.lifecycle ≢ BrowserSessionLifecycle.closed)

  is_advertised_iff : (s : BrowserSessionState (EndpointId p)) → (is_advertised s ≡ true) ↔ IsLive s
  is_advertised_iff s =
      let u = uses_webrtc_iff s.transport_intent in
      let c = is_dead_channel_iff s.channel_attachment in
      let l = is_over_iff s.lifecycle in
      (
        λ h. (
          u.0 (ground (arith, h)),
          (c.0 (ground (arith, h))).0,
          (c.0 (ground (arith, h))).1,
          (l.0 (ground (arith, h))).0,
          (l.0 (ground (arith, h))).1,
        ),
        λ h. ground (arith, u.1 h.0, c.1 (h.1, h.2), l.1 (h.3, h.4)),
      )

  same_addr_iff : (a b : CustomAddr p) → (same_addr p a b ≡ true) ↔ (a ≡ b)
  same_addr_iff a b = (
    λ h.
        sym (p.iroh.from_parts-eta a)
        ∙ ap (λ id. p.iroh.from_parts id (p.iroh.addr_data a)) (ground (arith, h))
        ∙ ap (p.iroh.from_parts (p.iroh.addr_id b)) (ground (arith, h))
        ∙ p.iroh.from_parts-eta b,
    λ e. ground (arith, e),
  )

  has_addr_iff : (a : CustomAddr p) (bs : List (CustomAddr p)) → (has_addr a bs ≡ true) ↔ Memᴰ a bs
  has_addr_iff a [] = (λ h. absurd (ground (arith, h)), λ m. absurd (Memᴰ.not-nil m))
  has_addr_iff a (b ∷ bs) = (
    λ h. elim (Bool-cases (same_addr p a b)) [
      | inl here ↦ Memᴰ.head ((same_addr_iff a b).0 here)
      | inr there ↦ Memᴰ.tail ((has_addr_iff a bs).0 (ground (arith, h, there)))
    ],
    λ m. elim (Memᴰ.cases_cons m) [
      | inl here ↦ ground (arith, (same_addr_iff a b).1 here)
      | inr there ↦ ground (arith, (has_addr_iff a bs).1 there)
    ],
  )

  -- The address of a live session among some.
  abbrev pub IsSessionAddr : CustomAddr p → List (BrowserSessionState (EndpointId p)) → Type 0
  IsSessionAddr a ss =
      (s : BrowserSessionState (EndpointId p)) × Memᴰ s ss
      × IsLive s
      × (a ≡ to_custom_addr p.iroh (session_addr s.local s.dial_id))

  is_address_of_some_iff :
      (a : CustomAddr p) (ss : List (BrowserSessionState (EndpointId p)))
      → (is_address_of_some a ss ≡ true) ↔ IsSessionAddr a ss
  is_address_of_some_iff a [] =
      (λ h. absurd (ground (arith, h)), λ (s, m, live, e). absurd (Memᴰ.not-nil m))
  is_address_of_some_iff a (t ∷ ss) =
      let addr = to_custom_addr p.iroh (session_addr t.local t.dial_id) in
      (
        λ h. elim (Bool-cases (is_advertised t && same_addr p a addr)) [
          | inl here ↦ (
            t,
            Memᴰ.head refl,
            (is_advertised_iff t).0 (ground (arith, here)),
            (same_addr_iff a addr).0 (ground (arith, here)),
          )
          | inr there ↦
              let (s, m, live, e) = (is_address_of_some_iff a ss).0 (ground (arith, h, there)) in
              (s, Memᴰ.tail m, live, e)
        ],
        λ (s, m, live, e). elim (Memᴰ.cases_cons m) [
          | inl here ↦
              let on : is_advertised t ≡ true =
                subst (λ r. is_advertised r ≡ true) here ((is_advertised_iff s).1 live) in
              let at : same_addr p a addr ≡ true =
                subst
                  (λ r.
                    same_addr p a (to_custom_addr p.iroh (session_addr r.local r.dial_id)) ≡ true)
                  here
                  ((same_addr_iff a (to_custom_addr p.iroh (session_addr s.local s.dial_id))).1
                    e) in
              ground (arith, on, at)
          | inr there ↦ ground (arith, (is_address_of_some_iff a ss).1 (s, there, live, e))
        ],
      )

  -- After a refresh, the addresses advertised are exactly the node's capability address and those of the
  -- sessions in its table whose dial allows WebRTC and whose channel and lifecycle have neither failed
  -- nor closed.
  pub refresh_iff :
      (n : Node p) (a : CustomAddr p)
      → Memᴰ a (refresh_webrtc_transport_addrs p n).local_addrs ↔ (
          (a ≡ to_custom_addr p.iroh (capability_addr n.endpoint_id))
          ⊎ IsSessionAddr a (values n.sessions))
  refresh_iff n a =
      let own = to_custom_addr p.iroh (capability_addr n.endpoint_id) in
      let listed = has_addr_iff a (refresh_webrtc_transport_addrs p n).local_addrs in
      let addressed = is_address_of_some_iff a (values n.sessions) in
      let both = refresh-has_addr n a in
      (
        λ m. elim (Bool-cases (same_addr p a own)) [
          | inl mine ↦ inl ((same_addr_iff a own).0 mine)
          | inr others ↦ inr (addressed.0 (ground (arith, listed.1 m, both, others)))
        ],
        λ s. elim s [
          | inl mine ↦ listed.0 (ground (arith, both, (same_addr_iff a own).1 mine))
          | inr theirs ↦ listed.0 (ground (arith, both, addressed.1 theirs))
        ],
      )

  sent-is_advertised :
      (s : BrowserSessionState (EndpointId p)) (why : WebRtcTerminalReason)
      → is_advertised (record_terminal_sent s why).0 ≡ false
  unfolding record_terminal_sent apply_terminal_reason fail close
  sent-is_advertised s WebRtcTerminalReason.web_rtc_failed = ground arith
  sent-is_advertised s WebRtcTerminalReason.fallback_selected = ground arith
  sent-is_advertised s WebRtcTerminalReason.cancelled = ground arith
  sent-is_advertised s WebRtcTerminalReason.closed = ground arith

  -- After a terminal decision the session that it is about is no longer one to advertise, and yet the
  -- advertised addresses are as they were, where a refresh would take the session's address out unless
  -- another has it.
  pub emit_terminal_decision-stale :
      (n n' : Node p) (key message : Bytes) (reason : Option WebRtcTerminalReason)
      (s : BrowserSessionState (EndpointId p)) (decision : BrowserTerminalDecision (EndpointId p))
      → emit_terminal_decision p n key reason message ≡ ok (decision, n')
      → get Bytes-discrete key n.sessions ≡ some s
      → (t : BrowserSessionState (EndpointId p)) × (get Bytes-discrete key n'.sessions ≡ some t)
        × (is_advertised t ≡ false)
        × (n'.local_addrs ≡ n.local_addrs)
        × ((a : CustomAddr p)
            → has_addr a (refresh_webrtc_transport_addrs p n').local_addrs ≡ (
                same_addr p a (to_custom_addr p.iroh (capability_addr n'.endpoint_id))
                || is_address_of_some a (values n'.sessions)))
  unfolding emit_terminal_decision
  emit_terminal_decision-stale n n' key message reason s decision h found =
      let t = (record_terminal_sent s (decision_reason reason s.transport_intent)).0 in
      elim (Bool-cases n.accepting.closed) [
        | inl down ↦ absurd (ground (arith, h, down))
        | inr up ↦ (
          t,
          ground (arith, h, up, found, get-insert Bytes-discrete key key t n.sessions),
          sent-is_advertised s (decision_reason reason s.transport_intent),
          ground (arith, h, up, found),
          λ a. refresh-has_addr n' a,
        )
      ]
