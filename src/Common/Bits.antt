-- ===== src/Common/Bits.antt =====
-- Facts about `&` and `|`: some checked value by value, and masks and disjoint bits at variables.
use Prim.Native.Nat.{ℕ, zero, suc, ◌+◌, ◌*◌, ◌/◌, ◌%◌, ◌≤◌, ◌<◌, min, max, bit_and, bit_or, digits}
use Prim.Native.Nat.{bit_and-bitwise, bit_or-bitwise}
use mathlib.Core.Path.{◌≡◌, refl, sym, ◌∙◌, ap}
use mathlib.Core.Bool.{Bool, true, ◌&&◌}
use native.Mathlib.Omega.{arith}

-- Does the test pass for 0, 1, ..., n - 1?
unfoldable pub table : ℕ → (ℕ → Bool) → Bool
table zero test = true
table (suc n) test = table n test && test n

pub table_lem : (n : ℕ) (test : ℕ → Bool) → table n test ≡ true → (k : ℕ) → k < n → test k ≡ true
unfolding table
table_lem (suc n) test passed k below = ground (arith, table_lem n test (ground arith) k)
table_lem zero test passed k below = absurd (omega arith)

-- The recursion of `&` and `|` over binary digits.
module _ (z : ℕ → ℕ) (f : ℕ → ℕ → ℕ) (last : (b : ℕ) → z b ≡ z (b / 2) * 2 + f 0 (b % 2)) where
  digits_enough : (a n m b : ℕ) → a ≤ n → a ≤ m → digits z f n a b ≡ digits z f m a b
  digits_enough a zero zero b h k = refl
  digits_enough zero zero (suc m) b h k = refl
  digits_enough (suc a) zero (suc m) b h k = absurd (omega arith)
  digits_enough zero (suc n) zero b h k = refl
  digits_enough (suc a) (suc n) zero b h k = absurd (omega arith)
  digits_enough zero (suc n) (suc m) b h k = refl
  digits_enough (suc a) (suc n) (suc m) b h k =
      ap (λ r. r * 2 + f (suc a % 2) (b % 2))
        (digits_enough (suc a / 2) n m (b / 2) (omega arith) (omega arith))

  digits_step :
      (a b : ℕ) → digits z f a a b ≡ digits z f (a / 2) (a / 2) (b / 2) * 2 + f (a % 2) (b % 2)
  digits_step zero b = last b
  digits_step (suc a) b =
      ap (λ r. r * 2 + f (suc a % 2) (b % 2))
        (digits_enough (suc a / 2) a (suc a / 2) (b / 2) (omega arith) (omega arith))

and_step : (a b : ℕ) → bit_and a b ≡ bit_and (a / 2) (b / 2) * 2 + min (a % 2) (b % 2)
and_step a b =
    bit_and-bitwise a b
    ∙ (digits_step (λ b. zero) min (λ b. omega arith) a b
        ∙ ap (λ r. r * 2 + min (a % 2) (b % 2)) (sym (bit_and-bitwise (a / 2) (b / 2))))

or_step : (a b : ℕ) → bit_or a b ≡ bit_or (a / 2) (b / 2) * 2 + max (a % 2) (b % 2)
or_step a b =
    bit_or-bitwise a b
    ∙ (digits_step (λ b. b) max (λ b. omega arith) a b
        ∙ ap (λ r. r * 2 + max (a % 2) (b % 2)) (sym (bit_or-bitwise (a / 2) (b / 2))))

-- The mask of `k` ones.
abbrev pub ones : ℕ → ℕ
ones zero = 0
ones (suc k) = ones k * 2 + 1

-- The lowest `k` binary digits.
abbrev pub low : ℕ → ℕ → ℕ
low zero a = 0
low (suc k) a = low k (a / 2) * 2 + a % 2

-- `c << k`
abbrev pub shift : ℕ → ℕ → ℕ
shift zero c = c
shift (suc k) c = shift k c * 2

and-zero : (n a : ℕ) → a ≤ n → bit_and a 0 ≡ 0
and-zero n zero h = bit_and-bitwise 0 0
and-zero zero (suc a) h = absurd (omega arith)
and-zero (suc n) (suc a) h = omega (arith, and_step (suc a) 0, and-zero n (suc a / 2) (omega arith))

pub bit_and-ones : (k a : ℕ) → bit_and a (ones k) ≡ low k a
bit_and-ones zero a = and-zero a a (omega arith)
bit_and-ones (suc k) a =
    and_step a (ones (suc k)) ∙ rw (half_ones, bit_and-ones k (a / 2)) (omega arith)
  where
    half_ones : ones (suc k) / 2 ≡ ones k
    half_ones = omega arith

pub low-le-ones : (k a : ℕ) → low k a ≤ ones k
low-le-ones zero a = omega arith
low-le-ones (suc k) a = omega (arith, low-le-ones k (a / 2))

pub bit_or-shift : (k a c : ℕ) → bit_or (low k a) (shift k c) ≡ low k a + shift k c
bit_or-shift zero a c = bit_or-bitwise 0 c ∙ omega arith
bit_or-shift (suc k) a c =
    or_step (low (suc k) a) (shift (suc k) c)
    ∙ rw (half_low, half_shift, bit_or-shift k (a / 2) c) (omega arith)
  where
    half_low : low (suc k) a / 2 ≡ low k (a / 2)
    half_low = omega arith

    half_shift : shift (suc k) c / 2 ≡ shift k c
    half_shift = omega arith

or-zero : (n a : ℕ) → a ≤ n → bit_or a 0 ≡ a
or-zero n zero h = bit_or-bitwise 0 0
or-zero zero (suc a) h = absurd (omega arith)
or-zero (suc n) (suc a) h = omega (arith, or_step (suc a) 0, or-zero n (suc a / 2) (omega arith))

pub shift-bit_or : (k a c : ℕ) → bit_or (shift k c) (low k a) ≡ shift k c + low k a
shift-bit_or zero a c = or-zero c c (omega arith) ∙ omega arith
shift-bit_or (suc k) a c =
    or_step (shift (suc k) c) (low (suc k) a)
    ∙ rw (half_low, half_shift, shift-bit_or k (a / 2) c) (omega arith)
  where
    half_low : low (suc k) a / 2 ≡ low k (a / 2)
    half_low = omega arith

    half_shift : shift (suc k) c / 2 ≡ shift k c
    half_shift = omega arith
