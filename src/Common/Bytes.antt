-- ===== src/Common/Bytes.antt =====
-- Byte strings that stand for words, and strings of known lengths put together.
use Prim.Native.Nat.{ℕ, zero, suc, ◌+◌, ◌*◌, ◌/◌, ◌%◌, ◌^◌, ◌<◌}
use mathlib.Core.Path.{◌≡◌, refl, sym, ap, ◌∙◌}
use mathlib.Core.List.{List, [], ◌∷◌, ◌++◌}
use native.Mathlib.Omega.{arith}
use ace_chain.Common.Lists.{length, length-append, take}
use ace_chain.Common.Words.{le_bytes, of_le_bytes, be_bytes}

abbrev head_or : List ℕ → ℕ
head_or [] = 0
head_or (x ∷ xs) = x

abbrev tail_of : List ℕ → List ℕ
tail_of [] = []
tail_of (x ∷ xs) = xs

cons-injective : (x y : ℕ) (xs ys : List ℕ) → x ∷ xs ≡ y ∷ ys → (x ≡ y) × (xs ≡ ys)
cons-injective x y xs ys e = (ap head_or e, ap tail_of e)

pub append-injective :
    (xs ys us vs : List ℕ) → length xs ≡ length ys → xs ++ us ≡ ys ++ vs → (xs ≡ ys) × (us ≡ vs)
append-injective [] [] us vs n e = (refl, e)
append-injective [] (y ∷ ys) us vs n e = absurd (omega arith)
append-injective (x ∷ xs) [] us vs n e = absurd (omega arith)
append-injective (x ∷ xs) (y ∷ ys) us vs n e =
    let (first, later) = cons-injective x y (xs ++ us) (ys ++ vs) e in
    let (rest, last) = append-injective xs ys us vs (omega arith) later in (cc, last)

pub of_le_bytes-le_bytes : (k n : ℕ) → n < 256 ^ k → of_le_bytes (le_bytes k n) ≡ n
of_le_bytes-le_bytes zero n h = omega arith
of_le_bytes-le_bytes (suc k) n h =
    let rest : of_le_bytes (le_bytes k (n / 256)) ≡ n / 256 =
      of_le_bytes-le_bytes k (n / 256) (omega arith) in
    omega (arith, rest)

pub length-le_bytes : (k n : ℕ) → length (le_bytes k n) ≡ k
length-le_bytes zero n = refl
length-le_bytes (suc k) n = ap suc (length-le_bytes k (n / 256))

pub length-be_bytes : (k n : ℕ) → length (be_bytes k n) ≡ k
length-be_bytes zero n = refl
length-be_bytes (suc k) n =
    omega (arith, length-append (be_bytes k (n / 256)) (n % 256 ∷ []), length-be_bytes k (n / 256))

pub le_bytes-step :
    (k a b : ℕ) (us vs : List ℕ)
    → a < 256 ^ k
    → b < 256 ^ k
    → le_bytes k a ++ us ≡ le_bytes k b ++ vs
    → (a ≡ b) × (us ≡ vs)
le_bytes-step k a b us vs p q e =
    let (word, rest) =
      append-injective (le_bytes k a) (le_bytes k b) us vs
        (length-le_bytes k a ∙ sym (length-le_bytes k b)) e in
    (sym (of_le_bytes-le_bytes k a p) ∙ ap of_le_bytes word ∙ of_le_bytes-le_bytes k b q, rest)

pub be_bytes-injective :
    (k a b : ℕ) → a < 256 ^ k → b < 256 ^ k → be_bytes k a ≡ be_bytes k b → a ≡ b
be_bytes-injective zero a b p q e = omega arith
be_bytes-injective (suc k) a b p q e =
    let (high, low) =
      append-injective (be_bytes k (a / 256)) (be_bytes k (b / 256)) (a % 256 ∷ []) (b % 256 ∷ [])
        (length-be_bytes k (a / 256) ∙ sym (length-be_bytes k (b / 256))) e in
    let same : a / 256 ≡ b / 256 =
      be_bytes-injective k (a / 256) (b / 256) (omega arith) (omega arith) high in
    let digit : a % 256 ≡ b % 256 = ap head_or low in omega (arith, same, digit)

pub be_bytes-step :
    (k a b : ℕ) (us vs : List ℕ)
    → a < 256 ^ k
    → b < 256 ^ k
    → be_bytes k a ++ us ≡ be_bytes k b ++ vs
    → (a ≡ b) × (us ≡ vs)
be_bytes-step k a b us vs p q e =
    let (word, rest) =
      append-injective (be_bytes k a) (be_bytes k b) us vs
        (length-be_bytes k a ∙ sym (length-be_bytes k b)) e in
    (be_bytes-injective k a b p q word, rest)

-- `bytes[start..start + count]`.
abbrev pub slice : ℕ → ℕ → List ℕ → List ℕ
slice zero count xs = take count xs
slice (suc start) count [] = []
slice (suc start) count (x ∷ xs) = slice start count xs

-- The number that bytes spell, most significant first, after others that spell a number already.
abbrev spelled : ℕ → List ℕ → ℕ
spelled n [] = n
spelled n (b ∷ bs) = spelled (256 * n + b) bs

abbrev pub of_be_bytes : List ℕ → ℕ
of_be_bytes bs = spelled 0 bs

spelled-append : (n b : ℕ) (xs : List ℕ) → spelled n (xs ++ b ∷ []) ≡ 256 * spelled n xs + b
spelled-append n b [] = refl
spelled-append n b (x ∷ xs) = spelled-append (256 * n + x) b xs

pub of_be_bytes-be_bytes : (k n : ℕ) → n < 256 ^ k → of_be_bytes (be_bytes k n) ≡ n
of_be_bytes-be_bytes zero n h = omega arith
of_be_bytes-be_bytes (suc k) n h =
    let rest = of_be_bytes-be_bytes k (n / 256) (omega arith) in
    omega (arith, rest, spelled-append 0 (n % 256) (be_bytes k (n / 256)))
