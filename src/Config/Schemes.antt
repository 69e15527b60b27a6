-- ===== src/Config/Schemes.antt =====
-- How the validation of config.rs reads the scheme of a URL: in any case of its letters.
use iroh_webrtc_messenger.Common.{
  ℕ, ◌+◌, ◌≤◌, ◌<◌, ◌≡◌, ◌⊎◌, ◌↔◌, true, [], ◌∷◌, Bytes, All, map, codes, ◌==◌, arith, refl,
}
use iroh_webrtc_messenger.Config.{has_scheme, starts_with, ascii_lowercase}

-- The same character, or the capital of a small letter.
abbrev pub IsCaseOf : ℕ → ℕ → Type 0
IsCaseOf l c = (c ≡ l) ⊎ ((97 ≤ l) × (l ≤ 122) × (c + 32 ≡ l))

-- The start of a text spells a word, in any case of its letters.
abbrev pub Spells : Bytes → Bytes → Type 0
Spells [] text = Unit
Spells (l ∷ ls) [] = ⊥
Spells (l ∷ ls) (c ∷ cs) = IsCaseOf l c × Spells ls cs

-- No capital.
abbrev pub IsSmall : ℕ → Type 0
IsSmall l = (l < 65) ⊎ (90 < l)

ascii_lowercase_iff : (l c : ℕ) → IsSmall l → ((l == ascii_lowercase c) ≡ true) ↔ IsCaseOf l c
ascii_lowercase_iff l c small = ground (arith, small)

starts_with_iff :
    (ls text : Bytes)
    → All IsSmall ls
    → (starts_with ls (map ascii_lowercase text) ≡ true) ↔ Spells ls text
starts_with_iff [] text small = (λ h. tt, λ h. refl)
starts_with_iff (l ∷ ls) [] small = (λ h. ground (arith, h), λ h. absurd h)
starts_with_iff (l ∷ ls) (c ∷ cs) small =
    let first = ascii_lowercase_iff l c small.0 in
    let rest = starts_with_iff ls cs small.1 in
    (
      λ h. (first.0 (ground (arith, h)), rest.0 (ground (arith, h))),
      λ h. ground (arith, first.1 h.0, rest.1 h.1),
    )

pub has_scheme-stun :
    (url : Bytes) → (has_scheme (codes "stun:") url ≡ true) ↔ Spells (codes "stun:") url
has_scheme-stun url = starts_with_iff (codes "stun:") url (ground arith)

pub has_scheme-stuns :
    (url : Bytes) → (has_scheme (codes "stuns:") url ≡ true) ↔ Spells (codes "stuns:") url
has_scheme-stuns url = starts_with_iff (codes "stuns:") url (ground arith)
