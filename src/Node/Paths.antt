-- ===== src/Node/Paths.antt =====
-- crates/iroh-webrtc-transport/src/browser_runtime/node.rs: `require_webrtc_selected_path`, which
-- compares the path that iroh has selected for a connection with the address of a session.
use iroh_webrtc_messenger.Common.{
  Bool, true, false, ◌&&◌, List, [], ◌∷◌, ok, err, if◌then◌else◌, Bytes-discrete, same,
}
use iroh_webrtc_messenger.Addr.{
  WebRtcAddr, WebRtcAddrKind, session, capability, session_addr, from_custom_addr,
}
use iroh_webrtc_messenger.Signal.{DialId}
use iroh_webrtc_messenger.Runtime.{web_rtc_failed, runtime_error, Runtime}
use iroh_webrtc_messenger.Node.{
  Platform, EndpointId, CustomAddr, TransportAddr, other, custom, PathInfo,
}

abbrev pub same_kind : WebRtcAddrKind → WebRtcAddrKind → Bool
same_kind capability capability = true
same_kind capability (session j) = false
same_kind (session i) capability = false
same_kind (session i) (session j) = same Bytes-discrete i j

module _ (p : Platform) where
  -- `==` of two WebRTC addresses.
  abbrev pub same_webrtc_addr : WebRtcAddr (EndpointId p) → WebRtcAddr (EndpointId p) → Bool
  same_webrtc_addr a b =
      same p.iroh.EndpointId-discrete a.endpoint_id b.endpoint_id && same_kind a.kind b.kind

  -- The test of one selected path, after `if !path.is_selected() { continue }`.
  abbrev pub check_selected :
      EndpointId p → DialId → TransportAddr (CustomAddr p) → Runtime (Unit {0})
  check_selected remote dial_id other =
      err
        (runtime_error web_rtc_failed "WebRTC application connection selected non-custom Iroh path")
  check_selected remote dial_id (custom a) = elim (from_custom_addr p.iroh a) [
    | err e ↦
        err (runtime_error web_rtc_failed "selected custom path is not a WebRTC session address")
    | ok actual ↦
        if same_webrtc_addr actual (session_addr remote dial_id)
        then ok tt
        else err (runtime_error web_rtc_failed "selected WebRTC custom path does not match session")
  ]

  abbrev pub check_paths :
      EndpointId p → DialId → List (PathInfo (CustomAddr p)) → Runtime (Unit {0})
  check_paths remote dial_id [] =
      err (runtime_error web_rtc_failed "WebRTC application connection has no selected Iroh path")
  check_paths remote dial_id (path ∷ rest) =
      if path.is_selected
      then check_selected remote dial_id path.remote_addr
      else check_paths remote dial_id rest

  abbrev pub require_webrtc_selected_path :
      p.Connection → EndpointId p → DialId → Runtime (Unit {0})
  require_webrtc_selected_path c remote dial_id = check_paths remote dial_id (p.paths c)
