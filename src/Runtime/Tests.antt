-- ===== src/Runtime/Tests.antt =====
-- Session keys of small ids.
use iroh_webrtc_messenger.Common.{◌≡◌, refl, [], ◌∷◌, Bytes, ok, codes, length, arith}
use iroh_webrtc_messenger.Runtime.{session_key_of, new_session_key}
use iroh_webrtc_messenger.Runtime.Keys.{session_key_of-injective, new_session_key-session_key_of}

abbrev id : Bytes
id = 0 ∷ 171 ∷ 255 ∷ []

key_text : session_key_of id ≡ codes "00abff"
unfolding session_key_of
key_text = refl

session_key_of-injective_example : id ≡ id
session_key_of-injective_example = session_key_of-injective id id (omega arith) (omega arith) refl

new_session_key-session_key_of_example :
    (length (session_key_of id) ≡ 6)
    × (new_session_key (session_key_of id) ≡ ok (session_key_of id))
new_session_key-session_key_of_example = new_session_key-session_key_of id (omega arith)
