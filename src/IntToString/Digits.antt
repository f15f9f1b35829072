-- ===== src/IntToString/Digits.antt =====
-- What intToString stores.

use dvnetos.Base.{
  ℕ, zero, suc, ◌+◌, ◌-◌, ◌*◌, ◌/◌, ◌%◌, ◌^◌, ◌≤◌, ◌<◌, ◌≡◌, ◌⊎◌, refl, ◌∙◌, ap, inl, inr, arith,
  true, false, ◌&&◌, some, leb, ◌==◌, if◌then◌else◌, Bool-cases, ℤ, pos, negsuc, pos_part, neg_part,
}
use dvnetos.CString.{Mem, write}
use dvnetos.IntToString.{reverse_loop, finish, int_to_string}
use dvnetos.IntToString.Convert.{char, convert_loop-Converted}

-- The reversal of the bytes from `a` to `b`.
reverse_loop-reversed :
    (fuel : ℕ) (m : Mem) (a b x : ℕ)
    → b < a + 2 * fuel + 1
    → reverse_loop fuel m a b x ≡ (if leb a x && leb x b then m (a + b - x) else m x)
unfolding reverse_loop
reverse_loop-reversed zero m a b x h = elim (Bool-cases (leb a x && leb x b)) [
  | inl inside ↦ let here : a + b - x ≡ x = ground (arith, inside) in rw (inside, here) refl
  | inr outside ↦ rw outside refl
]
reverse_loop-reversed (suc fuel) m a b x h =
    ground (arith, reverse_loop-reversed fuel (write (write m b (m a)) a (m b)) (a + 1) (b - 1) x)

-- The string from `str` to `end` is reversed, and ends there.
finish-inside :
    (fuel : ℕ) (m : Mem) (str end i : ℕ)
    → end ≤ str + 2 * fuel
    → str + i < end
    → finish fuel str (m, end) (str + i) ≡ m (end - 1 - i)
unfolding finish
finish-inside fuel m str end i h less =
    reverse_loop-reversed fuel (write m end 0) str (end - 1) (str + i) (omega arith)
    ∙ (let inside : (leb str (str + i) && leb (str + i) (end - 1)) ≡ true = ground arith in
        let other : (str + (end - 1) - (str + i) == end) ≡ false = ground arith in
        let place : str + (end - 1) - (str + i) ≡ end - 1 - i = omega arith in
        rw (inside, other, place) refl)

finish-end :
    (fuel : ℕ) (m : Mem) (str end : ℕ)
    → end ≤ str + 2 * fuel
    → str < end
    → finish fuel str (m, end) end ≡ 0
unfolding finish
finish-end fuel m str end h less =
    reverse_loop-reversed fuel (write m end 0) str (end - 1) end (omega arith)
    ∙ (let outside : (leb str end && leb end (end - 1)) ≡ false = ground arith in
        let at : (end == end) ≡ true = ground arith in rw (outside, at) refl)

-- The values that intToString prints: negative ones only in base 10, and not the least `int`.
abbrev pub IsPrintable : ℤ → ℕ → Type 0
IsPrintable (pos k) base = Unit
IsPrintable (negsuc k) base = (base ≡ 10) × (k + 1 < 2 ^ 31)

abbrev pub magnitude : ℤ → ℕ
magnitude value = pos_part value + neg_part value

-- What stands behind the digits, from `a` on.
abbrev pub IsTail : ℤ → Mem → ℕ → Type 0
IsTail (pos k) m a = m a ≡ 0
IsTail (negsuc k) m a = (m a ≡ b'-') × (m (a + 1) ≡ 0)

-- For every base from 2 to 16, intToString stores the digits of the magnitude, the highest first and
-- without a leading zero, and behind them a terminator; for a negative value, the sign stands between
-- the digits and the terminator.
pub int_to_string-digits :
    (fuel : ℕ) (m : Mem) (value : ℤ) (str base : ℕ)
    → 2 ≤ base
    → base ≤ 16
    → magnitude value < fuel
    → IsPrintable value base
    → (n : ℕ) × (m' : Mem) × (int_to_string fuel m value str base ≡ some m')
      × (magnitude value < base ^ n)
      × ((n ≡ 1) ⊎ (base ^ (n - 1) ≤ magnitude value))
      × ((i : ℕ) → i < n → m' (str + i) ≡ char (magnitude value / base ^ (n - 1 - i) % base))
      × IsTail value m' (str + n)
unfolding int_to_string
int_to_string-digits fuel m (pos k) str base two sixteen h printable =
    let whole : k + 0 ≡ k = omega arith in
    let (n, m1, runs, few, done) =
      convert_loop-Converted fuel m str k base two sixteen (omega arith) in
    (
      n,
      finish fuel str (m1, str + n),
      rw runs refl,
      rw whole done.bound,
      rw whole done.shortest,
      λ i less.
          let place : str + n - 1 - i ≡ str + (n - 1 - i) = omega arith in
          finish-inside fuel m1 str (str + n) i (omega arith) (omega arith)
          ∙ ap m1 place
          ∙ rw whole (done.digits (n - 1 - i) (omega arith)),
      finish-end fuel m1 str (str + n) (omega arith) (omega (arith, done.some_digit)),
    )
int_to_string-digits fuel m (negsuc k) str base two sixteen h (ten, less) =
    let whole : 0 + suc k ≡ k + 1 = omega arith in
    let decimal : (base == 10) ≡ true = ground (arith, ten) in
    let not_least : (k + 1 == 2 ^ 31) ≡ false = ground arith in
    let (n, m1, runs, few, done) =
      convert_loop-Converted fuel (write m str b'-') (str + 1) (k + 1) base two sixteen
        (omega arith) in
    let end : ℕ = str + 1 + n in
    let sign_place : end - 1 - n ≡ str = omega arith in
    let last : str + n + 1 ≡ end = omega arith in
    let at : (str == str) ≡ true = ground arith in
    (
      n,
      finish fuel str (m1, end),
      rw (decimal, not_least, runs) refl,
      rw whole done.bound,
      rw whole done.shortest,
      λ i less.
          let place : end - 1 - i ≡ str + 1 + (n - 1 - i) = omega arith in
          finish-inside fuel m1 str end i (omega (arith, few, done.some_digit)) (omega arith)
          ∙ ap m1 place
          ∙ rw whole (done.digits (n - 1 - i) (omega arith)),
      (
        finish-inside fuel m1 str end n (omega (arith, few, done.some_digit)) (omega arith)
            ∙ ap m1 sign_place
            ∙ done.before str (omega arith)
            ∙ rw at refl,
        rw last (finish-end fuel m1 str end (omega (arith, few, done.some_digit)) (omega arith)),
      ),
    )
