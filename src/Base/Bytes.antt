-- ===== src/Base/Bytes.antt =====
-- Bytes: big-endian words, `^`, memcmp and memcpy.
use Prim.Native.Nat.{ℕ, zero, suc, ◌+◌, ◌*◌, ◌/◌, ◌%◌, ◌^◌, ◌<◌}
use mathlib.Core.Path.{◌≡◌, refl, sym, ap, ◌∙◌}
use mathlib.Core.Bool.{Bool, true, false, ◌&&◌}
use mathlib.Core.List.{List, [], ◌∷◌}
use native.Mathlib.Omega.{arith}
use meshx.Base.Bools.{◌==◌}

abbrev pub be16 : ℕ → List ℕ
be16 n = n / 2 ^ 8 % 2 ^ 8 ∷ n % 2 ^ 8 ∷ []

abbrev pub of_be16 : ℕ → ℕ → ℕ
of_be16 a b = a * 2 ^ 8 + b

abbrev pub be32 : ℕ → List ℕ
be32 n = n / 2 ^ 24 % 2 ^ 8 ∷ n / 2 ^ 16 % 2 ^ 8 ∷ n / 2 ^ 8 % 2 ^ 8 ∷ n % 2 ^ 8 ∷ []

abbrev pub of_be32 : ℕ → ℕ → ℕ → ℕ → ℕ
of_be32 a b c d = a * 2 ^ 24 + b * 2 ^ 16 + c * 2 ^ 8 + d

-- `a ^ b` on the `w` lowest bits, and on bytes.
pub xor_bits : ℕ → ℕ → ℕ → ℕ
xor_bits zero a b = 0
xor_bits (suc w) a b = xor_bits w (a / 2) (b / 2) * 2 + (a % 2 + b % 2) % 2

unfoldable pub xor : ℕ → ℕ → ℕ
unfolding xor_bits
xor a b = xor_bits 8 a b

-- `a < 2 ^ w`
abbrev pub Fits : ℕ → ℕ → Type 0
Fits zero a = a ≡ 0
Fits (suc w) a = Fits w (a / 2)

xor_bits_twice : (w a b : ℕ) → Fits w a → xor_bits w (xor_bits w a b) b ≡ a
unfolding xor_bits
xor_bits_twice zero a b h = sym h
xor_bits_twice (suc w) a b h =
    let x = xor_bits w (a / 2) (b / 2) in
    let half : (x * 2 + (a % 2 + b % 2) % 2) / 2 ≡ x = omega arith in
    let high : xor_bits w ((x * 2 + (a % 2 + b % 2) % 2) / 2) (b / 2) ≡ a / 2 =
      ap (λ y. xor_bits w y (b / 2)) half ∙ xor_bits_twice w (a / 2) (b / 2) h in
    omega (arith, high)

byte-Fits : (a : ℕ) → a < 256 → Fits 8 a
byte-Fits a h = omega (arith, h)

-- A byte to which `^` with the same byte is applied twice is unchanged.
pub xor_twice : (a b : ℕ) → a < 256 → xor (xor a b) b ≡ a
unfolding xor
xor_twice a b h = xor_bits_twice 8 a b (byte-Fits a h)

-- `0 == memcmp`
abbrev pub bytes_eq : List ℕ → List ℕ → Bool
bytes_eq [] [] = true
bytes_eq [] (y ∷ ys) = false
bytes_eq (x ∷ xs) [] = false
bytes_eq (x ∷ xs) (y ∷ ys) = (x == y) && bytes_eq xs ys

pub bytes_eq_refl : (xs : List ℕ) → bytes_eq xs xs ≡ true
bytes_eq_refl [] = refl
bytes_eq_refl (x ∷ xs) = ground (arith, bytes_eq_refl xs)
