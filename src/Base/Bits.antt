-- ===== src/Base/Bits.antt =====
-- The bits of an unsigned word, from the lowest: `(m >> i) & 1`, `m | (1 << i)`, `m & ~(1 << i)`.
use Prim.Native.Nat.{ℕ, zero, suc, ◌+◌, ◌*◌, ◌/◌, ◌%◌, ◌≤◌, ◌<◌}
use mathlib.Core.Path.{◌≡◌, refl, ap, ◌∙◌}
use mathlib.Core.Logic.{◌≢◌}
use mathlib.Core.Logic.{inl, inr}
use mathlib.Core.Bool.{false}
use native.Mathlib.Omega.{arith}
use meshx.Base.Bools.{◌==◌, Bool-cases}

unfoldable pub bit : ℕ → ℕ → ℕ
bit m zero = m % 2
bit m (suc i) = bit (m / 2) i

unfoldable pub set_bit : ℕ → ℕ → ℕ
set_bit m zero = m / 2 * 2 + 1
set_bit m (suc i) = set_bit (m / 2) i * 2 + m % 2

unfoldable pub clear_bit : ℕ → ℕ → ℕ
clear_bit m zero = m / 2 * 2
clear_bit m (suc i) = clear_bit (m / 2) i * 2 + m % 2

-- `2 ^ n - 1`
unfoldable pub ones : ℕ → ℕ
ones zero = 0
ones (suc n) = ones n * 2 + 1

half_of : (k m i : ℕ) → bit ((k * 2 + m % 2) / 2) i ≡ bit k i
half_of k m i = ap (λ (x : ℕ). bit x i) (omega arith)

pub bit-lt : (m i : ℕ) → bit m i < 2
unfolding bit
bit-lt m zero = omega arith
bit-lt m (suc i) = bit-lt (m / 2) i

pub bit-set_self : (m i : ℕ) → bit (set_bit m i) i ≡ 1
unfolding bit set_bit
bit-set_self m zero = omega arith
bit-set_self m (suc i) = half_of (set_bit (m / 2) i) m i ∙ bit-set_self (m / 2) i

pub bit-set_ne : (m i j : ℕ) → i ≢ j → bit (set_bit m i) j ≡ bit m j
unfolding bit set_bit
bit-set_ne m zero zero ne = absurd (ne refl)
bit-set_ne m zero (suc j) ne = ap (λ (x : ℕ). bit x j) (omega arith)
bit-set_ne m (suc i) zero ne = omega arith
bit-set_ne m (suc i) (suc j) ne =
    half_of (set_bit (m / 2) i) m j ∙ bit-set_ne (m / 2) i j (λ e. ne (ap suc e))

pub bit-clear_self : (m i : ℕ) → bit (clear_bit m i) i ≡ 0
unfolding bit clear_bit
bit-clear_self m zero = omega arith
bit-clear_self m (suc i) = half_of (clear_bit (m / 2) i) m i ∙ bit-clear_self (m / 2) i

pub bit-clear_ne : (m i j : ℕ) → i ≢ j → bit (clear_bit m i) j ≡ bit m j
unfolding bit clear_bit
bit-clear_ne m zero zero ne = absurd (ne refl)
bit-clear_ne m zero (suc j) ne = ap (λ (x : ℕ). bit x j) (omega arith)
bit-clear_ne m (suc i) zero ne = omega arith
bit-clear_ne m (suc i) (suc j) ne =
    half_of (clear_bit (m / 2) i) m j ∙ bit-clear_ne (m / 2) i j (λ e. ne (ap suc e))

pub bit-zero : (i : ℕ) → bit 0 i ≡ 0
unfolding bit
bit-zero zero = refl
bit-zero (suc i) = bit-zero i

pub bit-ones_lt : (n i : ℕ) → i < n → bit (ones n) i ≡ 1
unfolding bit ones
bit-ones_lt zero i h = absurd (omega arith)
bit-ones_lt (suc n) zero h = omega arith
bit-ones_lt (suc n) (suc i) h =
    ap (λ (x : ℕ). bit x i) (omega arith) ∙ bit-ones_lt n i (omega arith)

pub bit-ones_le : (n i : ℕ) → n ≤ i → bit (ones n) i ≡ 0
unfolding bit ones
bit-ones_le zero i h = bit-zero i
bit-ones_le (suc n) zero h = absurd (omega arith)
bit-ones_le (suc n) (suc i) h =
    ap (λ (x : ℕ). bit x i) (omega arith) ∙ bit-ones_le n i (omega arith)

-- A word all of whose bits are 0 is 0.
pub zero_of_bits : (k m : ℕ) → m < k → ((i : ℕ) → bit m i ≡ 0) → m ≡ 0
unfolding bit
zero_of_bits zero m h f = absurd (omega arith)
zero_of_bits (suc k) zero h f = refl
zero_of_bits (suc k) (suc m) h f =
    let high : suc m / 2 ≡ 0 = zero_of_bits k (suc m / 2) (omega arith) (λ i. f (suc i)) in
    omega (arith, f 0)

-- A word with a bit is not 0.
pub bit-ne_zero : (m j : ℕ) → bit m j ≡ 1 → (m == 0) ≡ false
bit-ne_zero m j h = elim (Bool-cases (m == 0)) [
  | inr e ↦ e
  | inl e ↦
      let same : m ≡ 0 = ground arith in
      absurd (omega (arith, h, ap (λ x. bit x j) same, bit-zero j))
]

pub bit-clear_first : (m i : ℕ) → bit m 0 ≡ 0 → bit (clear_bit m i) 0 ≡ 0
bit-clear_first m zero h = bit-clear_self m 0
bit-clear_first m (suc i) h = bit-clear_ne m (suc i) 0 (λ e. absurd (omega (arith, e))) ∙ h
