-- ===== src/Base/Bits.antt =====
-- Bit masks and shifts as arithmetic.
use Prim.Native.Nat.{
  ℕ, zero, suc, ◌+◌, ◌-◌, ◌*◌, ◌/◌, ◌%◌, ◌^◌, ◌≤◌, ◌<◌, min, max, bit_and, bit_or, digits,
  bit_and-bitwise, bit_or-bitwise,
}
use native.Mathlib.Nat.{
  pow-suc, pow-zero, div-div-eq-div-mul, div-add-mod', mul-add-mod_self_right, mod-eq_of_lt, mod-lt,
  one-le-pow,
}
use native.Mathlib.Omega.{arith}
use mathlib.Core.Path.{◌≡◌, refl, ◌∙◌, sym, ap}

-- The digits of `a` and `b` combined by `f`, on more fuel than `a` needs.
digits_fuel :
    (z : ℕ → ℕ) (f : ℕ → ℕ → ℕ) (n m a b : ℕ) → a ≤ n → a ≤ m → digits z f n a b ≡ digits z f m a b
digits_fuel z f zero zero a b p q = refl
digits_fuel z f zero (suc m) zero b p q = refl
digits_fuel z f zero (suc m) (suc a) b p q = absurd (omega arith)
digits_fuel z f (suc n) zero zero b p q = refl
digits_fuel z f (suc n) zero (suc a) b p q = absurd (omega arith)
digits_fuel z f (suc n) (suc m) zero b p q = refl
digits_fuel z f (suc n) (suc m) (suc a) b p q =
    omega (arith, digits_fuel z f n m (suc a / 2) (b / 2) (omega arith) (omega arith))

pub zero-bit_or : (b : ℕ) → bit_or 0 b ≡ b
zero-bit_or b = bit_or-bitwise 0 b

pub zero-bit_and : (b : ℕ) → bit_and 0 b ≡ 0
zero-bit_and b = bit_and-bitwise 0 b

pub bit_or-step : (a b : ℕ) → bit_or a b ≡ bit_or (a / 2) (b / 2) * 2 + max (a % 2) (b % 2)
bit_or-step zero b = omega (arith, zero-bit_or b, zero-bit_or (b / 2))
bit_or-step (suc a) b = omega (
  arith,
  bit_or-bitwise (suc a) b,
  bit_or-bitwise (suc a / 2) (b / 2),
  digits_fuel (λ b. b) max a (suc a / 2) (suc a / 2) (b / 2) (omega arith) (omega arith),
)

pub bit_and-step : (a b : ℕ) → bit_and a b ≡ bit_and (a / 2) (b / 2) * 2 + min (a % 2) (b % 2)
bit_and-step zero b = omega (arith, zero-bit_and b, zero-bit_and (b / 2))
bit_and-step (suc a) b = omega (
  arith,
  bit_and-bitwise (suc a) b,
  bit_and-bitwise (suc a / 2) (b / 2),
  digits_fuel (λ b. zero) min a (suc a / 2) (suc a / 2) (b / 2) (omega arith) (omega arith),
)

bit_or-zero_bound : (n a : ℕ) → a ≤ n → bit_or a 0 ≡ a
bit_or-zero_bound n zero h = zero-bit_or 0
bit_or-zero_bound zero (suc a) h = absurd (omega arith)
bit_or-zero_bound (suc n) (suc a) h =
    omega (arith, bit_or-step (suc a) 0, bit_or-zero_bound n (suc a / 2) (omega arith))

double : (k a : ℕ) → a * 2 ^ suc k ≡ a * 2 ^ k * 2
double k a = grind (arith, pow-suc)

-- Fields that do not overlap are added.
pub bit_or-add : (k a b : ℕ) → b < 2 ^ k → bit_or (a * 2 ^ k) b ≡ a * 2 ^ k + b
bit_or-add zero a b h =
    let none_left : b ≡ 0 = grind (arith, pow-zero) in
    let same : a * 2 ^ 0 ≡ a = grind (arith, pow-zero) in
    rw (none_left, same) (bit_or-zero_bound a a (omega arith) ∙ omega arith)
bit_or-add (suc k) a b h =
    let less : b / 2 < 2 ^ k = omega (arith, h, pow-suc 2 k) in
    let half : a * 2 ^ suc k / 2 ≡ a * 2 ^ k = omega (arith, double k a) in
    omega (
      arith,
      bit_or-step (a * 2 ^ suc k) b,
      double k a,
      bit_or-add k a (b / 2) less,
      ap (λ x. bit_or x (b / 2)) half,
    )

bit_and-zero_bound : (n a : ℕ) → a ≤ n → bit_and a 0 ≡ 0
bit_and-zero_bound n zero h = zero-bit_and 0
bit_and-zero_bound zero (suc a) h = absurd (omega arith)
bit_and-zero_bound (suc n) (suc a) h =
    omega (arith, bit_and-step (suc a) 0, bit_and-zero_bound n (suc a / 2) (omega arith))

-- A mask that starts at bit `k`.
pub bit_and-shift : (k a c : ℕ) → bit_and a (c * 2 ^ k) ≡ bit_and (a / 2 ^ k) c * 2 ^ k
bit_and-shift zero a c =
    let same : c * 2 ^ 0 ≡ c = grind (arith, pow-zero) in
    let all : a / 2 ^ 0 ≡ a = rw pow-zero (omega arith) in
    let one : bit_and a c * 2 ^ 0 ≡ bit_and a c = grind (arith, pow-zero) in
    rw (same, all) (sym one)
bit_and-shift (suc k) a c =
    let half : c * 2 ^ suc k / 2 ≡ c * 2 ^ k = omega (arith, double k c) in
    let quotient : a / 2 / 2 ^ k ≡ a / 2 ^ suc k =
      div-div-eq-div-mul a 2 (2 ^ k) ∙ ap (λ d. a / d) (omega (arith, pow-suc 2 k)) in
    omega (
      arith,
      bit_and-step a (c * 2 ^ suc k),
      double k c,
      double k (bit_and (a / 2 ^ suc k) c),
      ap (bit_and (a / 2)) half,
      bit_and-shift k (a / 2) c,
      ap (λ x. bit_and x c * 2 ^ k) quotient,
    )

-- A mask of the `k` lowest bits.
pub bit_and-ones : (k a : ℕ) → bit_and a (2 ^ k - 1) ≡ a % 2 ^ k
bit_and-ones zero a = bit_and-zero_bound a a (omega arith) ∙ omega (arith, pow-zero 2)
bit_and-ones (suc k) a =
    let some_bit : 1 ≤ 2 ^ k = one-le-pow k 2 (omega arith) in
    let half : (2 ^ suc k - 1) / 2 ≡ 2 ^ k - 1 = omega (arith, pow-suc 2 k) in
    let power : 2 ^ k * 2 ≡ 2 ^ suc k = omega (arith, pow-suc 2 k) in
    let low : (2 ^ suc k - 1) % 2 ≡ 1 = omega (arith, pow-suc 2 k) in
    omega (
      arith,
      bit_and-step a (2 ^ suc k - 1),
      low,
      ap (bit_and (a / 2)) half,
      bit_and-ones k (a / 2),
      mod-double a (2 ^ k) some_bit,
      ap (λ d. a % d) power,
    )
  where
    mod-double : (a m : ℕ) → 1 ≤ m → a % (m * 2) ≡ a / 2 % m * 2 + a % 2
    mod-double a m h =
        let q = a / 2 in
        let split : a ≡ q / m * (m * 2) + (q % m * 2 + a % 2) =
          grind (arith, div-add-mod' (a / 2) m, div-add-mod' a 2) in
        ap (λ x. x % (m * 2)) split
        ∙ mul-add-mod_self_right (q / m) (m * 2) (q % m * 2 + a % 2)
        ∙ mod-eq_of_lt (omega (arith, mod-lt q h))

bit_or_comm_bound : (n a b : ℕ) → a ≤ n → b ≤ n → bit_or a b ≡ bit_or b a
bit_or_comm_bound zero a b h w =
    let a_zero : a ≡ 0 = omega arith in let b_zero : b ≡ 0 = omega arith in rw (a_zero, b_zero) refl
bit_or_comm_bound (suc n) a b h w = omega (
  arith,
  bit_or-step a b,
  bit_or-step b a,
  bit_or_comm_bound n (a / 2) (b / 2) (omega arith) (omega arith),
)

pub bit_or_comm : (a b : ℕ) → bit_or a b ≡ bit_or b a
bit_or_comm a b = bit_or_comm_bound (a + b) a b (omega arith) (omega arith)

-- The flags 1, 2 and 4 of a multiple of 4096.
pub bit_or-flags : (a : ℕ) → bit_or (bit_or (bit_or (a * 4096) 1) 2) 4 ≡ a * 4096 + 7
bit_or-flags a =
    let one : bit_or (a * 4096) 1 ≡ a * 4096 + 1 = bit_or-add 12 a 1 (omega arith) in
    let two : bit_or (a * 4096 + 1) 2 ≡ a * 4096 + 3 = omega (
      arith,
      bit_or-step (a * 4096 + 1) 2,
      bit_or-add 11 a 1 (omega arith),
      ap (λ x. bit_or x 1) (half a),
    ) in
    let four : bit_or (a * 4096 + 3) 4 ≡ a * 4096 + 7 = omega (
      arith,
      bit_or-step (a * 4096 + 3) 4,
      bit_or-step (a * 2048 + 1) 2,
      bit_or-add 10 a 1 (omega arith),
      ap (λ x. bit_or x 2) (half_three a),
      ap (λ x. bit_or x 1) (quarter a),
    ) in
    rw (one, two) four
  where
    half : (a : ℕ) → (a * 4096 + 1) / 2 ≡ a * 2048
    half a = omega arith

    half_three : (a : ℕ) → (a * 4096 + 3) / 2 ≡ a * 2048 + 1
    half_three a = omega arith

    quarter : (a : ℕ) → (a * 2048 + 1) / 2 ≡ a * 1024
    quarter a = omega arith
