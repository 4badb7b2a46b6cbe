-- ===== src/Base/Bits.antt =====
-- Bit masks: `m & (1 << i)`, `m | (1 << i)` and `m & ~(1 << i)` on an unsigned word, by recursion
-- on the position. Callers keep `i` below the width, where the shift is defined.
use Prim.Native.Nat.{ℕ, zero, suc, ◌+◌, ◌-◌, ◌*◌, ◌/◌, ◌%◌, ◌^◌, ◌≤◌, ◌<◌}
use mathlib.Core.Path.{◌≡◌, refl, ap}
use mathlib.Core.Bool.{Bool, true, false}
use native.Mathlib.Omega.{arith}
use native.Mathlib.Nat.{pow-suc}
use carrels.Base.Compare.{◌==◌, ltb, if◌then◌else◌}

unfoldable pub test_bit : ℕ → ℕ → Bool
test_bit m zero = m % 2 == 1
test_bit m (suc i) = test_bit (m / 2) i

unfoldable pub set_bit : ℕ → ℕ → ℕ
set_bit m zero = m + 1 - m % 2
set_bit m (suc i) = m % 2 + 2 * set_bit (m / 2) i

unfoldable pub clear_bit : ℕ → ℕ → ℕ
clear_bit m zero = m - m % 2
clear_bit m (suc i) = m % 2 + 2 * clear_bit (m / 2) i

half-set_bit : (m i : ℕ) → set_bit m (suc i) / 2 ≡ set_bit (m / 2) i
unfolding set_bit
half-set_bit m i = omega arith

half-clear_bit : (m i : ℕ) → clear_bit m (suc i) / 2 ≡ clear_bit (m / 2) i
unfolding clear_bit
half-clear_bit m i = omega arith

half_low : (m : ℕ) → (m + 1 - m % 2) / 2 ≡ m / 2
half_low m = omega arith

half_cleared : (m : ℕ) → (m - m % 2) / 2 ≡ m / 2
half_cleared m = omega arith

pow_pos : (n : ℕ) → 0 < 2 ^ n
pow_pos zero = omega arith
pow_pos (suc n) = omega (arith, pow-suc 2 n, pow_pos n)

half_ones : (n : ℕ) → (2 ^ suc n - 1) / 2 ≡ 2 ^ n - 1
half_ones n = omega (arith, pow-suc 2 n, pow_pos n)

pub test_bit-set_bit :
    (m i j : ℕ) → test_bit (set_bit m i) j ≡ (if i == j then true else test_bit m j)
unfolding test_bit
test_bit-set_bit m zero zero = unfold set_bit in ground arith
test_bit-set_bit m zero (suc j) =
    unfold set_bit in ground (arith, ap (λ (h : ℕ). test_bit h j) (half_low m))
test_bit-set_bit m (suc i) zero = unfold set_bit in ground arith
test_bit-set_bit m (suc i) (suc j) = rw half-set_bit (ground (arith, test_bit-set_bit (m / 2) i j))

pub test_bit-clear_bit :
    (m i j : ℕ) → test_bit (clear_bit m i) j ≡ (if i == j then false else test_bit m j)
unfolding test_bit
test_bit-clear_bit m zero zero = unfold clear_bit in ground arith
test_bit-clear_bit m zero (suc j) =
    unfold clear_bit in ground (arith, ap (λ (h : ℕ). test_bit h j) (half_cleared m))
test_bit-clear_bit m (suc i) zero = unfold clear_bit in ground arith
test_bit-clear_bit m (suc i) (suc j) =
    rw half-clear_bit (ground (arith, test_bit-clear_bit (m / 2) i j))

pub test_bit-zero : (i : ℕ) → test_bit 0 i ≡ false
unfolding test_bit
test_bit-zero zero = refl
test_bit-zero (suc i) = test_bit-zero i

pub test_bit-above : (n m i : ℕ) → m < 2 ^ n → n ≤ i → test_bit m i ≡ false
unfolding test_bit
test_bit-above zero m i h k = let e : m ≡ 0 = omega arith in rw e (test_bit-zero i)
test_bit-above (suc n) m zero h k = absurd (omega arith)
test_bit-above (suc n) m (suc i) h k =
    test_bit-above n (m / 2) i (omega (arith, pow-suc 2 n)) (omega arith)

-- The mask of the `n` lowest positions.
pub test_bit-ones : (n i : ℕ) → test_bit (2 ^ n - 1) i ≡ ltb i n
unfolding test_bit
test_bit-ones zero i = rw (test_bit-zero i) (ground arith)
test_bit-ones (suc n) zero = ground (arith, pow-suc 2 n, pow_pos n)
test_bit-ones (suc n) (suc i) = rw (half_ones n) (ground (arith, test_bit-ones n i))

pub set_bit-lt : (n m i : ℕ) → m < 2 ^ n → i < n → set_bit m i < 2 ^ n
unfolding set_bit
set_bit-lt zero m i h k = absurd (omega arith)
set_bit-lt (suc n) m zero h k = omega (arith, pow-suc 2 n)
set_bit-lt (suc n) m (suc i) h k =
    omega (arith, pow-suc 2 n, set_bit-lt n (m / 2) i (omega (arith, pow-suc 2 n)) (omega arith))

pub clear_bit-le : (m i : ℕ) → clear_bit m i ≤ m
unfolding clear_bit
clear_bit-le m zero = omega arith
clear_bit-le m (suc i) = omega (arith, clear_bit-le (m / 2) i)
