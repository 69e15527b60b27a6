-- ===== src/Node/Spawned.antt =====
-- What a node is when it has been spawned: which ALPNs it has a handler for, each only one.
mod Tests
use iroh_webrtc_messenger.Common.{
  ℕ, ◌+◌, ◌≡◌, ◌∙◌, refl, sym, ap, subst, true, false, not, ◌&&◌, ◌||◌, Bool, List, [], ◌∷◌, Option,
  none, some, ok, err, Bytes, Bytes-discrete, same, arith, inl, inr, Result-cases, Bool-cases,
  Option-cases,
}
use iroh_webrtc_messenger.Common.Maps.{get, insert, get-insert}
use iroh_webrtc_messenger.Runtime.{validate_alpn}
use iroh_webrtc_messenger.Accept.{AcceptRegistrationState}
use iroh_webrtc_messenger.Accept
use iroh_webrtc_messenger.Config.{WebRtcTransportConfig, WebRtcTransport, try_new}
use iroh_webrtc_messenger.Node.{Platform, EndpointId, Node}
use iroh_webrtc_messenger.Node.Signals.{has_alpn, contains_accept, is_application_alpn_registered}
use iroh_webrtc_messenger.Node.Spawn.{
  validate_alpns, see_alpns, register_from, BrowserRuntimeNodeConfig, validate_config,
  local_addr_or, node_of, spawn_with_secret_key, as_spawn_failed,
}

validate_alpns-keeps : (xs ys : List Bytes) → validate_alpns xs ≡ ok ys → ys ≡ xs
unfolding validate_alpn
validate_alpns-keeps [] ys e = ground (arith, e)
validate_alpns-keeps ([] ∷ xs) ys e = absurd (ground (arith, e))
validate_alpns-keeps ((c ∷ cs) ∷ xs) ys e = elim (Result-cases (validate_alpns xs)) [
  | inr (x, bad) ↦ absurd (ground (arith, e, bad))
  | inl (zs, good) ↦ ground (arith, e, good, validate_alpns-keeps xs zs good)
]

-- What the loop has seen is not in the lists that it is given.
see_alpns-apart :
    (protocols benchmarks seen xs all : List Bytes) (a : Bytes)
    → see_alpns protocols benchmarks seen xs ≡ ok all
    → ((has_alpn a xs && (has_alpn a protocols || has_alpn a benchmarks)) ≡ false)
      × ((has_alpn a xs && has_alpn a seen) ≡ false)
      × (has_alpn a all ≡ (has_alpn a xs || has_alpn a seen))
unfolding see_alpns
see_alpns-apart protocols benchmarks seen [] all a e = (refl, refl, ground (arith, e))
see_alpns-apart protocols benchmarks seen (x ∷ xs) all a e =
    elim (Bool-cases (has_alpn x seen || (has_alpn x protocols || has_alpn x benchmarks))) [
      | inl clash ↦ absurd (ground (arith, e, clash))
      | inr fresh ↦
          let rest =
            see_alpns-apart protocols benchmarks (x ∷ seen) xs all a (ground (arith, e, fresh)) in
          elim (Bytes-discrete x a) [
            | yes equal ↦ (
              ground (arith, rest, fresh, equal),
              ground (arith, rest, fresh, equal),
              ground (arith, rest, equal),
            )
            | no other ↦ (
              ground (arith, rest, other),
              ground (arith, rest, other),
              ground (arith, rest, other),
            )
          ]
    ]

-- `contains_key` of the registrations.
abbrev contains :
    {EndpointId Waiter : Type 0}
    → Bytes
    → List (Bytes × AcceptRegistrationState EndpointId Waiter)
    → Bool
contains alpn m = elim (get Bytes-discrete alpn m) [ none ↦ false | some r ↦ true ]

module _ {EndpointId Waiter : Type 0} where
  contains-register_from :
      (id capacity : ℕ) (accepts : List (Bytes × AcceptRegistrationState EndpointId Waiter))
      (xs : List Bytes) (a : Bytes)
      → contains a (register_from id capacity accepts xs) ≡ (has_alpn a xs || contains a accepts)
  unfolding register_from
  contains-register_from id capacity accepts [] a = refl
  contains-register_from id capacity accepts (x ∷ xs) a =
      let r : AcceptRegistrationState EndpointId Waiter = Accept.new id x capacity in
      let rest =
        contains-register_from (id + 1) capacity (insert Bytes-discrete x r accepts) xs a in
      ground (arith, rest, get-insert Bytes-discrete x a r accepts)

module _ (p : Platform) where
  -- The parts of a spawn that succeeds.
  spawned_parts :
      (c : BrowserRuntimeNodeConfig p) (endpoint_id : EndpointId p) (epoch : Bytes)
      (protocols : List Bytes) (n : Node p)
      → spawn_with_secret_key p c endpoint_id epoch protocols ≡ ok n
      → (seen : List Bytes) × (all : List Bytes) × (t : WebRtcTransport p.iroh p.mpsc) × (see_alpns
            protocols c.benchmark_echo_alpns [] c.facade_alpns
          ≡ ok seen)
        × (see_alpns protocols [] seen c.benchmark_echo_alpns ≡ ok all)
        × (n
            ≡ node_of p endpoint_id epoch c.accept_queue_capacity c.facade_alpns
                c.benchmark_echo_alpns protocols t)
  unfolding spawn_with_secret_key
  spawned_parts c endpoint_id epoch protocols n e = elim (Result-cases (validate_config p c)) [
    | inr (x, bad) ↦ absurd (ground (arith, e, bad))
    | inl (u, valid) ↦ elim (Result-cases (validate_alpns c.facade_alpns)) [
      | inr (x, bad) ↦ absurd (ground (arith, e, valid, bad))
      | inl (fs, facades) ↦ elim (Result-cases (validate_alpns c.benchmark_echo_alpns)) [
        | inr (x, bad) ↦ absurd (ground (arith, e, valid, facades, bad))
        | inl (bs, benchmarks) ↦ elim (Result-cases (see_alpns protocols bs [] fs)) [
          | inr (x, bad) ↦ absurd (ground (arith, e, valid, facades, benchmarks, bad))
          | inl (seen, first) ↦ elim (Result-cases (see_alpns protocols [] seen bs)) [
            | inr (x, bad) ↦ absurd (ground (arith, e, valid, facades, benchmarks, first, bad))
            | inl (all, second) ↦
                let config : WebRtcTransportConfig p.iroh p.mpsc = record c.transport_config {
                  local_addr = some (local_addr_or p endpoint_id c.transport_config.local_addr);
                } in
                let same_facades = validate_alpns-keeps c.facade_alpns fs facades in
                let same_benchmarks = validate_alpns-keeps c.benchmark_echo_alpns bs benchmarks in
                elim (Result-cases (try_new p.iroh p.mpsc config)) [
                  | inr (x, bad) ↦
                      absurd (ground (arith, e, valid, facades, benchmarks, first, second, bad))
                  | inl (t, made) ↦ (
                    seen,
                    all,
                    t,
                    ground (arith, first, same_facades, same_benchmarks),
                    ground (arith, second, same_benchmarks),
                    ground (
                      arith, e, valid, facades, benchmarks, first, second, made, same_facades,
                      same_benchmarks,
                    ),
                  )
                ]
          ]
        ]
      ]
    ]
  ]

  -- A node that spawns has no sessions, connections or streams and is open; it has a handler for exactly
  -- the ALPNs that its configuration or its browser protocols name, and none of them is named by two of
  -- the three.
  pub spawn_with_secret_key-registered :
      (c : BrowserRuntimeNodeConfig p) (endpoint_id : EndpointId p) (epoch : Bytes)
      (protocols : List Bytes) (n : Node p) (a : Bytes)
      → spawn_with_secret_key p c endpoint_id epoch protocols ≡ ok n
      → (is_application_alpn_registered p n a ≡ (
          has_alpn a c.facade_alpns || (has_alpn a c.benchmark_echo_alpns || has_alpn a protocols)))
        × ((has_alpn a c.facade_alpns && has_alpn a c.benchmark_echo_alpns) ≡ false)
        × ((has_alpn a c.facade_alpns && has_alpn a protocols) ≡ false)
        × ((has_alpn a c.benchmark_echo_alpns && has_alpn a protocols) ≡ false)
        × (n.accepting.closed ≡ false)
        × (n.sessions ≡ [])
        × (n.connections ≡ [])
        × (n.streams ≡ [])
  unfolding is_application_alpn_registered
  spawn_with_secret_key-registered c endpoint_id epoch protocols n a e =
      let parts = spawned_parts c endpoint_id epoch protocols n e in
      let facades =
        see_alpns-apart protocols c.benchmark_echo_alpns [] c.facade_alpns parts.0 a parts.3 in
      let benchmarks =
        see_alpns-apart protocols [] parts.0 c.benchmark_echo_alpns parts.1 a parts.4 in
      let accepts =
        contains-register_from {EndpointId = EndpointId p} {Waiter = p.Waiter} 1
          c.accept_queue_capacity [] c.facade_alpns a in
      (
        ground (arith, parts.5, accepts),
        ground (arith, facades),
        ground (arith, facades),
        ground (arith, benchmarks),
        ground (arith, parts.5),
        ground (arith, parts.5),
        ground (arith, parts.5),
        ground (arith, parts.5),
      )
