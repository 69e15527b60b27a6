-- ===== src/Node/Matching.antt =====
-- crates/iroh-webrtc-transport/src/browser_runtime/node/core.rs: `accept_webrtc_connection`, which
-- finds the session that an incoming connection over WebRTC belongs to.
use iroh_webrtc_messenger.Common.{
  Bool, true, false, not, ◌&&◌, List, [], ◌∷◌, Option, none, some, ok, err, ◌>>=◌, ◌>>◌,
  if◌then◌else◌, Bytes, Bytes-discrete, same,
}
use iroh_webrtc_messenger.Common.Maps.{get, values}
use iroh_webrtc_messenger.Signal.{uses_webrtc}
use iroh_webrtc_messenger.Runtime.{web_rtc_failed, runtime_error, closed_error, Runtime}
use iroh_webrtc_messenger.Session.{
  BrowserResolvedTransport, web_rtc, is_dialer, is_open, BrowserSessionLifecycle,
  web_rtc_negotiating, application_ready, BrowserSessionState, validate_resolution,
  resolve_transport,
}
use iroh_webrtc_messenger.Node.{
  Platform, EndpointId, Node, refresh_webrtc_transport_addrs, put_session,
}
use iroh_webrtc_messenger.Node.Paths.{require_webrtc_selected_path}

-- `matches!(lifecycle, WebRtcNegotiating | ApplicationReady)`
abbrev pub may_connect : BrowserSessionLifecycle → Bool
may_connect web_rtc_negotiating = true
may_connect application_ready = true
may_connect _ = false

abbrev pub is_unresolved : Option BrowserResolvedTransport → Bool
is_unresolved none = true
is_unresolved (some t) = false

module _ (p : Platform) where
  -- The test of `find_map` in `accept_webrtc_connection`.
  abbrev pub matches_connection : EndpointId p → Bytes → BrowserSessionState (EndpointId p) → Bool
  matches_connection remote alpn s =
      not (is_dialer s.role)
      && (same p.iroh.EndpointId-discrete s.remote remote
          && (same Bytes-discrete s.alpn alpn
              && (uses_webrtc s.transport_intent
                  && (is_unresolved s.resolved_transport
                      && (is_open s.channel_attachment && may_connect s.lifecycle)))))

  abbrev pub find_match :
      EndpointId p
      → Bytes
      → List (BrowserSessionState (EndpointId p))
      → Option (BrowserSessionState (EndpointId p))
  find_match remote alpn [] = none
  find_match remote alpn (s ∷ ss) =
      if matches_connection remote alpn s then some s else find_match remote alpn ss

  -- `get_mut(..).expect(..)`, with the resolution of the session found.
  abbrev pub resolve_matched : Node p → Bytes → Option (Runtime (Bytes × Node p))
  resolve_matched n key = elim (get Bytes-discrete key n.sessions) [
    | none ↦ none
    | some s ↦ some (do
      validate_resolution web_rtc s.transport_intent s.channel_attachment
      t ← resolve_transport s web_rtc
      ok (key, refresh_webrtc_transport_addrs p (put_session p n key t)))
  ]

  -- `accept_webrtc_connection`: the key of the session that the connection belongs to. `none` is the
  -- panic of an `expect`.
  unfoldable pub accept_webrtc_connection :
      Node p → p.Connection → Option (Runtime (Bytes × Node p))
  accept_webrtc_connection n c =
      if n.accepting.closed
      then some (err closed_error)
      else elim (find_match (p.remote_id c) (p.connection_alpn c) (values n.sessions)) [
        | none ↦ some (
            err (runtime_error web_rtc_failed "custom app connection did not match WebRTC session"))
        | some s ↦ elim (require_webrtc_selected_path p c s.remote s.dial_id) [
          | err e ↦ some (err e)
          | ok u ↦ resolve_matched n s.session_key
        ]
      ]
