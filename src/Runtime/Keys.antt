-- ===== src/Runtime/Keys.antt =====
-- Session keys name sessions: no two dial ids have one key.
use iroh_webrtc_messenger.Common.{
  ℕ, ◌*◌, ◌/◌, ◌%◌, ◌<◌, ◌≡◌, refl, [], ◌∷◌, Bytes, AreBytes, ok, arith, length,
}
use iroh_webrtc_messenger.Runtime.{hex_digit, session_key_of, new_session_key}

hex_digit-injective : (d e : ℕ) → d < 16 → e < 16 → hex_digit d ≡ hex_digit e → d ≡ e
hex_digit-injective d e hd he h = ground arith

-- A dial id can be read off its session key: ids that differ have keys that differ.
pub session_key_of-injective :
    (xs ys : Bytes) → AreBytes xs → AreBytes ys → session_key_of xs ≡ session_key_of ys → xs ≡ ys
unfolding session_key_of
session_key_of-injective [] [] hx hy e = refl
session_key_of-injective [] (y ∷ ys) hx hy e = cc
session_key_of-injective (x ∷ xs) [] hx hy e = cc
session_key_of-injective (x ∷ xs) (y ∷ ys) hx hy e = ground (
  arith,
  hex_digit-injective (x / 16) (y / 16),
  hex_digit-injective (x % 16) (y % 16),
  session_key_of-injective xs ys hx.1 hy.1,
)

-- A key has two digits for each byte of its dial id, so that the key of a dial id is a valid key.
pub new_session_key-session_key_of :
    (id : Bytes)
    → 0 < length id
    → (length (session_key_of id) ≡ 2 * length id)
      × (new_session_key (session_key_of id) ≡ ok (session_key_of id))
unfolding session_key_of new_session_key
new_session_key-session_key_of [] h = absurd (omega arith)
new_session_key-session_key_of (b ∷ bs) h = (omega (arith, length-key bs), refl)
  where
    length-key : (xs : Bytes) → length (session_key_of xs) ≡ 2 * length xs
    length-key [] = refl
    length-key (x ∷ xs) = omega (arith, length-key xs)
