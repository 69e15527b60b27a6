-- ===== src/Chat/Replay.antt =====
-- The window of nonces of examples/rust-browser-chat-room/src/protocol.rs (`ReplayLru`): how much it
-- holds, and how long it keeps a nonce that it has taken.
use iroh_webrtc_messenger.Common.{
  ℕ, suc, ◌≤◌, ◌<◌, ◌≡◌, refl, sym, subst, List, [], ◌∷◌, ◌++◌, true, false, Bytes, length,
  length-append, drop, leb, if◌then◌else◌, ◌||◌, arith, Bool-cases, ◌⊎◌, inl, inr,
}
use iroh_webrtc_messenger.Chat.{text_eq, contains}
use iroh_webrtc_messenger.Chat.Wire.{remember, replay_cap_per_signer}

-- A nonce is in a window with at most so many after it.
abbrev pub Recent : Bytes → ℕ → List Bytes → Type 0
Recent nonce k [] = ⊥
Recent nonce k (n ∷ ns) = ((n ≡ nonce) × (length ns ≤ k)) ⊎ Recent nonce k ns

-- No nonce is in a window twice.
abbrev pub Distinct : List Bytes → Type 0
Distinct [] = Unit
Distinct (n ∷ ns) = (contains n ns ≡ false) × Distinct ns

abbrev pub IsWindow : List Bytes → Type 0
IsWindow nonces = (length nonces ≤ replay_cap_per_signer) × Distinct nonces

pub Recent-contains :
    (nonce : Bytes) (k : ℕ) (ns : List Bytes) → Recent nonce k ns → contains nonce ns ≡ true
Recent-contains nonce k [] h = absurd h
Recent-contains nonce k (n ∷ ns) (inl h) = ground (arith, h.0)
Recent-contains nonce k (n ∷ ns) (inr h) = ground (arith, Recent-contains nonce k ns h)

Recent-append :
    (nonce m : Bytes) (k : ℕ) (ns : List Bytes)
    → Recent nonce k ns
    → Recent nonce (suc k) (ns ++ m ∷ [])
Recent-append nonce m k [] h = absurd h
Recent-append nonce m k (n ∷ ns) (inl h) = inl (h.0, omega (arith, h.1, length-append ns (m ∷ [])))
Recent-append nonce m k (n ∷ ns) (inr h) = inr (Recent-append nonce m k ns h)

pub Recent-mono :
    (nonce : Bytes) (j k : ℕ) (ns : List Bytes) → j ≤ k → Recent nonce j ns → Recent nonce k ns
Recent-mono nonce j k [] le h = absurd h
Recent-mono nonce j k (n ∷ ns) le (inl h) = inl (h.0, omega (arith, h.1, le))
Recent-mono nonce j k (n ∷ ns) le (inr h) = inr (Recent-mono nonce j k ns le h)

Recent-last : (nonce : Bytes) (ns : List Bytes) → Recent nonce 0 (ns ++ nonce ∷ [])
Recent-last nonce [] = inl (refl, omega arith)
Recent-last nonce (n ∷ ns) = inr (Recent-last nonce ns)

Recent-drop :
    (nonce : Bytes) (k : ℕ) (ns : List Bytes)
    → suc k < length ns
    → Recent nonce k ns
    → Recent nonce k (drop 1 ns)
Recent-drop nonce k [] lt h = absurd h
Recent-drop nonce k (n ∷ ns) lt (inl h) = absurd (omega (arith, lt, h.1))
Recent-drop nonce k (n ∷ ns) lt (inr h) = h

-- A full window forgets its oldest nonce, which is not a recent one.
pub remember-Recent :
    (nonce m : Bytes) (k : ℕ) (ns : List Bytes)
    → suc k < replay_cap_per_signer
    → Recent nonce k ns
    → Recent nonce (suc k) (remember m ns)
remember-Recent nonce m k ns lt h = elim (Bool-cases (leb replay_cap_per_signer (length ns))) [
  | inl full ↦
      subst (λ b. Recent nonce (suc k) (if b then drop 1 ns ++ m ∷ [] else ns ++ m ∷ [])) (sym full)
        (Recent-append nonce m k (drop 1 ns) (Recent-drop nonce k ns (ground (arith, full, lt)) h))
  | inr room ↦
      subst (λ b. Recent nonce (suc k) (if b then drop 1 ns ++ m ∷ [] else ns ++ m ∷ [])) (sym room)
        (Recent-append nonce m k ns h)
]

pub remember-last : (m : Bytes) (ns : List Bytes) → Recent m 0 (remember m ns)
remember-last m ns = elim (Bool-cases (leb replay_cap_per_signer (length ns))) [
  | inl full ↦
      subst (λ b. Recent m 0 (if b then drop 1 ns ++ m ∷ [] else ns ++ m ∷ [])) (sym full)
        (Recent-last m (drop 1 ns))
  | inr room ↦
      subst (λ b. Recent m 0 (if b then drop 1 ns ++ m ∷ [] else ns ++ m ∷ [])) (sym room)
        (Recent-last m ns)
]

contains-append :
    (n m : Bytes) (ns : List Bytes) → contains n (ns ++ m ∷ []) ≡ (contains n ns || text_eq m n)
contains-append n m [] = ground arith
contains-append n m (x ∷ ns) = ground (arith, contains-append n m ns)

text_eq_sym : (a b : Bytes) → text_eq a b ≡ text_eq b a
text_eq_sym a b = ground arith

pub Distinct-append :
    (m : Bytes) (ns : List Bytes) → contains m ns ≡ false → Distinct ns → Distinct (ns ++ m ∷ [])
Distinct-append m [] h d = (refl, tt)
Distinct-append m (n ∷ ns) h d = (
  ground (arith, contains-append n m ns, h, d.0, text_eq_sym n m),
  Distinct-append m ns (ground (arith, h)) d.1,
)

pub Distinct-drop : (ns : List Bytes) → Distinct ns → Distinct (drop 1 ns)
Distinct-drop [] d = tt
Distinct-drop (n ∷ ns) d = d.1

pub contains-drop :
    (m : Bytes) (ns : List Bytes) → contains m ns ≡ false → contains m (drop 1 ns) ≡ false
contains-drop m [] h = refl
contains-drop m (n ∷ ns) h = ground (arith, h)

length-remember :
    (m : Bytes) (ns : List Bytes)
    → length ns ≤ replay_cap_per_signer
    → length (remember m ns) ≤ replay_cap_per_signer
length-remember m [] le = omega arith
length-remember m (n ∷ ns) le = ground (arith, le, length-append ns (m ∷ []))

pub remember-IsWindow :
    (m : Bytes) (ns : List Bytes) → contains m ns ≡ false → IsWindow ns → IsWindow (remember m ns)
remember-IsWindow m ns h v = (
  length-remember m ns v.0,
  elim (Bool-cases (leb replay_cap_per_signer (length ns))) [
    | inl full ↦
        subst (λ b. Distinct (if b then drop 1 ns ++ m ∷ [] else ns ++ m ∷ [])) (sym full)
          (Distinct-append m (drop 1 ns) (contains-drop m ns h) (Distinct-drop ns v.1))
    | inr room ↦
        subst (λ b. Distinct (if b then drop 1 ns ++ m ∷ [] else ns ++ m ∷ [])) (sym room)
          (Distinct-append m ns h v.1)
  ],
)
