-- ===== src/Accept/Claims.antt =====
-- An ALPN has at most one accept iterator.
use iroh_webrtc_messenger.Common.{
  ℕ, true, ◌≡◌, [], ◌∷◌, some, ok, err, Bytes, Bytes-discrete, arith, Option-cases, Bool-cases, inl,
  inr,
}
use iroh_webrtc_messenger.Common.Maps.{get, get-insert}
use iroh_webrtc_messenger.Runtime.{about, unsupported_alpn, validate_alpn}
use iroh_webrtc_messenger.Accept.{AcceptRegistrationState, Accepts, claim, accept_open}

module _ {EndpointId Waiter : Type 0} where
  claim-claimed :
      (n n' : Accepts EndpointId Waiter) (alpn : Bytes) (id : ℕ)
      (r : AcceptRegistrationState EndpointId Waiter)
      → claim n alpn r ≡ ok (id, n')
      → (n'.closed ≡ n.closed)
        × (get Bytes-discrete alpn n'.accepts ≡ some (record r { claimed = true }))
  unfolding claim
  claim-claimed n n' alpn id r h =
      ground (arith, h, get-insert Bytes-discrete alpn alpn (record r { claimed = true }) n.accepts)

  -- After an ALPN has been opened for accepting, opening it again fails, until something else changes
  -- its registration.
  pub accept_open_once :
      (name : Bytes) (n n' : Accepts EndpointId Waiter) (id : ℕ)
      → accept_open name n ≡ ok (id, n')
      → accept_open name n'
        ≡ err (record {
          code = unsupported_alpn;
          message = about "an accept iterator is already active for ALPN" name;
        })
  unfolding accept_open validate_alpn claim
  accept_open_once [] n n' id h = absurd (ground (arith, h))
  accept_open_once (c ∷ name) n n' id h = elim (Bool-cases n.closed) [
    | inl down ↦ absurd (ground (arith, h, down))
    | inr up ↦ elim (Option-cases (get Bytes-discrete (c ∷ name) n.accepts)) [
      | inl missing ↦ absurd (ground (arith, h, up, missing))
      | inr (r, found) ↦
          let claimed : claim n (c ∷ name) r ≡ ok (id, n') = ground (arith, h, up, found) in
          ground (arith, up, claim-claimed n n' (c ∷ name) id r claimed)
    ]
  ]
