-- ===== src/Common/ByteStrings.antt =====
-- Byte strings: equality, slices, and integers of 32 and 64 bits in big-endian order.
use Prim.Native.Nat.{ℕ, zero, suc, ◌+◌, ◌*◌, ◌/◌, ◌%◌, ◌^◌, ◌<◌, ◌≤◌}
use Prim.Native.Char.{code}
use Prim.Native.String.{String}
use mathlib.Core.Path.{◌≡◌, refl, sym, ap, subst, ◌∙◌}
use mathlib.Core.Bool.{Bool, true, false}
use mathlib.Core.List.{List, [], ◌∷◌, ◌++◌, append-nil}
use native.Mathlib.Omega.{arith}
use native.Mathlib.Decide.{ℕ_discrete}
use iroh_webrtc_messenger.Common.Lists.{length, take, drop, get_or}

abbrev pub Bytes : Type 0
Bytes = List ℕ

-- The bytes of an ASCII text.
abbrev pub codes : String → Bytes
codes String.[] = []
codes (String.◌∷◌ c s) = code c ∷ codes s

unfoldable pub Bytes-discrete : Discrete Bytes
Bytes-discrete = hlevel ℕ_discrete

-- `==` of a type whose equality is decided.
abbrev pub same {ℓ} : {A : Type ℓ} → Discrete A → A → A → Bool
same d a b = elim (d a b) [ yes _ ↦ true | no _ ↦ false ]

abbrev pub All {ℓ κ} : {A : Type ℓ} → (A → Type κ) → List A → Type κ
All P [] = Unit
All P (x ∷ xs) = P x × All P xs

abbrev pub AreBytes : Bytes → Type 0
AreBytes = All (λ b. b < 256)

-- `u32::to_be_bytes`
abbrev pub be32 : ℕ → Bytes
be32 n = n / 2 ^ 24 % 256 ∷ n / 2 ^ 16 % 256 ∷ n / 2 ^ 8 % 256 ∷ n % 256 ∷ []

-- `u64::to_be_bytes`
abbrev pub be64 : ℕ → Bytes
be64 n = be32 (n / 2 ^ 32) ++ be32 n

-- `u32::from_be_bytes`: the number of a byte string, the first byte the highest.
abbrev pub from_be : ℕ → Bytes → ℕ
from_be acc [] = acc
from_be acc (b ∷ bs) = from_be (acc * 256 + b) bs

pub from_be-be32 : (n : ℕ) → n < 2 ^ 32 → from_be 0 (be32 n) ≡ n
from_be-be32 n h = omega arith

pub be32-from_be :
    (a b c d : ℕ)
    → AreBytes (a ∷ b ∷ c ∷ d ∷ [])
    → be32 (from_be 0 (a ∷ b ∷ c ∷ d ∷ [])) ≡ a ∷ b ∷ c ∷ d ∷ []
be32-from_be a b c d h = ground arith

add-eq : (n k : ℕ) → suc (n + k) ≡ suc n + k
add-eq n k = omega arith

zero-add' : (k : ℕ) → k ≡ 0 + k
zero-add' k = omega arith

module _ {ℓ} {A : Type ℓ} where
  -- A slice that starts a text ends where the rest begins.
  pub take-append : (xs ys : List A) → take (length xs) (xs ++ ys) ≡ xs
  take-append [] ys = refl
  take-append (x ∷ xs) ys = ap (◌∷◌ x) (take-append xs ys)

  pub take_of_length : (n : ℕ) (xs ys : List A) → length xs ≡ n → take n (xs ++ ys) ≡ xs
  take_of_length n xs ys h = subst (λ k. take k (xs ++ ys) ≡ xs) h (take-append xs ys)

  pub take_all : (n : ℕ) (xs : List A) → length xs ≡ n → take n xs ≡ xs
  take_all n xs h = ap (take n) (sym (append-nil xs)) ∙ take_of_length n xs [] h

  pub drop-append : (xs ys : List A) → drop (length xs) (xs ++ ys) ≡ ys
  drop-append [] ys = refl
  drop-append (x ∷ xs) ys = drop-append xs ys

  -- A slice that starts past the first part is a slice of the second.
  pub drop_past : (n k : ℕ) (xs ys : List A) → length xs + k ≡ n → drop n (xs ++ ys) ≡ drop k ys
  drop_past n k [] ys h = subst (λ m. drop m ys ≡ drop k ys) (omega arith) refl
  drop_past zero k (x ∷ xs) ys h = absurd (omega arith)
  drop_past (suc n) k (x ∷ xs) ys h = drop_past n k xs ys (omega arith)

  -- Texts that agree agree part by part, where their first parts are equally long.
  pub append-injective :
      (xs xs' ys ys' : List A)
      → length xs ≡ length xs'
      → xs ++ ys ≡ xs' ++ ys'
      → (xs ≡ xs') × (ys ≡ ys')
  append-injective xs xs' ys ys' h e = (
    sym (take-append xs ys) ∙ ap (take (length xs)) e ∙ take_of_length (length xs) xs' ys' (sym h),
    sym (drop-append xs ys)
        ∙ ap (drop (length xs)) e
        ∙ ap (λ n. drop n (xs' ++ ys')) h
        ∙ drop-append xs' ys',
  )

  -- Two slices in a row are one, and the second half of a text follows its first element.
  pub drop-drop : (n k : ℕ) (xs : List A) → drop k (drop n xs) ≡ drop (n + k) xs
  drop-drop zero k xs = ap (λ m. drop m xs) (zero-add' k)
  drop-drop (suc n) zero [] = ap (λ m. drop {A = A} m []) (add-eq n zero)
  drop-drop (suc n) (suc k) [] = ap (λ m. drop {A = A} m []) (add-eq n (suc k))
  drop-drop (suc n) k (x ∷ xs) = drop-drop n k xs ∙ ap (λ m. drop m (x ∷ xs)) (add-eq n k)

  pub drop-get_or :
      (n : ℕ) (xs : List A) (d : A) → n < length xs → drop n xs ≡ get_or xs n d ∷ drop (suc n) xs
  drop-get_or n [] d h = absurd (omega arith)
  drop-get_or zero (x ∷ xs) d h = refl
  drop-get_or (suc n) (x ∷ xs) d h = drop-get_or n xs d (omega arith)

  pub drop-All {κ} : (P : A → Type κ) (n : ℕ) (xs : List A) → All P xs → All P (drop n xs)
  drop-All P zero xs h = h
  drop-All P (suc n) [] h = tt
  drop-All P (suc n) (x ∷ xs) h = drop-All P n xs h.1

-- Four bytes are the big-endian form of their number, which is below 2^32.
pub be32-from_be-take :
    (xs : Bytes)
    → AreBytes xs
    → 4 ≤ length xs
    → (be32 (from_be 0 (take 4 xs)) ≡ take 4 xs) × (from_be 0 (take 4 xs) < 2 ^ 32)
be32-from_be-take [] v h = absurd (omega arith)
be32-from_be-take (a ∷ []) v h = absurd (omega arith)
be32-from_be-take (a ∷ b ∷ []) v h = absurd (omega arith)
be32-from_be-take (a ∷ b ∷ c ∷ []) v h = absurd (omega arith)
be32-from_be-take (a ∷ b ∷ c ∷ d ∷ xs) v h =
    (be32-from_be a b c d (v.0, (v.1.0, (v.1.1.0, (v.1.1.1.0, tt)))), omega arith)
