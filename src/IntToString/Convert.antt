-- ===== src/IntToString/Convert.antt =====
-- The digits that the loop of intToString writes, the lowest first.

use native.Mathlib.Nat.{
  div-add-mod', div-div-eq-div-mul, pow-succ', div-lt_self, div-lt_iff_lt-mul, le-div_iff_mul-le,
  mod-lt, pow-zero, pow-suc,
}
use dvnetos.Base.{
  ℕ, zero, suc, ◌+◌, ◌-◌, ◌*◌, ◌/◌, ◌%◌, ◌^◌, ◌≤◌, ◌<◌, ◌≡◌, ◌⊎◌, refl, ◌∙◌, sym, ap, inl, inr,
  arith, true, false, some, ltb, ◌==◌, if◌then◌else◌, Bool-cases,
}
use dvnetos.CString.{Mem, write}
use dvnetos.IntToString.{digit_char, convert_loop}

-- The character of a digit.
abbrev pub char : ℕ → ℕ
char d = if ltb d 10 then b'0' + d else b'a' + (d - 10)

digit_char-char : (d : ℕ) → d < 16 → digit_char d ≡ some (char d)
unfolding digit_char
digit_char-char d h = ground arith

remainder : (v base : ℕ) → v - v / base * base ≡ v % base
remainder v base = omega (arith, div-add-mod' v base)

-- From `ptr` on stand the `n` digits of `v`, the lowest first, and nothing else has changed.
pub record Converted (m m' : Mem) (ptr v base n : ℕ) : Type 0 where
  pub some_digit : 0 < n
  pub bound : v < base ^ n
  pub shortest : (n ≡ 1) ⊎ (base ^ (n - 1) ≤ v)
  pub digits : (i : ℕ) → i < n → m' (ptr + i) ≡ char (v / base ^ i % base)
  pub before : (x : ℕ) → x < ptr → m' x ≡ m x

power_one : (base : ℕ) → base ^ 1 ≡ base
power_one base = pow-suc base 0 ∙ ap (λ d. d * base) (pow-zero base) ∙ omega arith

last-Converted :
    (m : Mem) (ptr v base : ℕ)
    → 2 ≤ base
    → v < base
    → Converted m (write m ptr (char (v % base))) ptr v base 1
last-Converted m ptr v base two less = record {
  some_digit = omega arith;
  bound = rw (power_one base) less;
  shortest = inl refl;
  digits = only;
  before = λ x h. ground arith;
}
  where
    only : (i : ℕ) → i < 1 → write m ptr (char (v % base)) (ptr + i) ≡ char (v / base ^ i % base)
    only zero h =
        let here : ptr + 0 ≡ ptr = omega arith in
        let at : (ptr == ptr) ≡ true = ground arith in
        let whole : v / base ^ 0 ≡ v = ap (λ d. v / d) (pow-zero base) ∙ omega arith in
        rw (here, at, whole) refl
    only (suc i) h = absurd (omega arith)

more-Converted :
    (m m' : Mem) (ptr v base n : ℕ)
    → 2 ≤ base
    → base ≤ v
    → Converted (write m ptr (char (v % base))) m' (ptr + 1) (v / base) base n
    → Converted m m' ptr v base (suc n)
more-Converted m m' ptr v base n two more rest = record {
  some_digit = omega arith;
  bound = rw (pow-succ' base n) (omega (arith, above));
  shortest = inr (shorter rest.shortest);
  digits = first_or_later;
  before = λ x h. rest.before x (omega arith) ∙ ground arith;
}
  where
    above : v < base * base ^ n
    above =
        omega
          (arith, (div-lt_iff_lt-mul {k = base} {x = v} {y = base ^ n} (omega arith)).0 rest.bound)

    shorter : (n ≡ 1) ⊎ (base ^ (n - 1) ≤ v / base) → base ^ (suc n - 1) ≤ v
    shorter (inl one) =
        let exponent : suc n - 1 ≡ 1 = omega arith in rw (exponent, power_one base) more
    shorter (inr h) =
        let exponent : suc n - 1 ≡ suc (n - 1) = omega (arith, rest.some_digit) in
        rw (exponent, pow-suc base (n - 1))
          ((le-div_iff_mul-le {k = base} {x = base ^ (n - 1)} {y = v} (omega arith)).0 h)

    first_or_later : (i : ℕ) → i < suc n → m' (ptr + i) ≡ char (v / base ^ i % base)
    first_or_later zero h =
        let here : ptr + 0 ≡ ptr = omega arith in
        let at : (ptr == ptr) ≡ true = ground arith in
        let whole : v / base ^ 0 ≡ v = ap (λ d. v / d) (pow-zero base) ∙ omega arith in
        rw (here, whole) (rest.before ptr (omega arith) ∙ rw at refl)
    first_or_later (suc i) h =
        let place : ptr + suc i ≡ ptr + 1 + i = omega arith in
        rw place (
          rest.digits i (omega arith)
          ∙ ap (λ d. char (d % base))
              (div-div-eq-div-mul v base (base ^ i) ∙ ap (λ d. v / d) (sym (pow-succ' base i))))

pub convert_loop-Converted :
    (fuel : ℕ) (m : Mem) (ptr v base : ℕ)
    → 2 ≤ base
    → base ≤ 16
    → v < fuel
    → (n : ℕ) × (m' : Mem) × (convert_loop fuel m ptr v base ≡ some (m', ptr + n))
      × (n ≤ fuel)
      × Converted m m' ptr v base n
unfolding convert_loop
convert_loop-Converted zero m ptr v base two sixteen h = absurd (omega arith)
convert_loop-Converted (suc fuel) m ptr v base two sixteen h =
    let nonzero : (base == 0) ≡ false = ground arith in
    let digit : digit_char (v % base) ≡ some (char (v % base)) =
      digit_char-char (v % base) (omega (arith, mod-lt v {m = base} (omega arith))) in
    elim (Bool-cases (v / base == 0)) [
      | inl last ↦
          let zero_left : v / base ≡ 0 = ground (arith, last) in
          let nothing : v / base * base ≡ 0 = ap (λ q. q * base) zero_left ∙ omega arith in
          let less : v < base =
            omega (arith, remainder v base, mod-lt v {m = base} (omega arith), nothing) in
          (
            1,
            write m ptr (char (v % base)),
            rw (nonzero, remainder v base, digit, last) refl,
            omega arith,
            last-Converted m ptr v base two less,
          )
      | inr more ↦
          let some_left : 0 < v / base = ground (arith, more) in
          let large : base ≤ v =
            omega (
              arith,
              (le-div_iff_mul-le {k = base} {x = 1} {y = v} (omega arith)).0 (omega arith),
            ) in
          let (n, m', runs, few, rest) =
            convert_loop-Converted fuel (write m ptr (char (v % base))) (ptr + 1) (v / base) base
              two sixteen
              (omega (arith, div-lt_self {n = v} {k = base} (omega arith) (omega arith))) in
          let next : ptr + 1 + n ≡ ptr + suc n = omega arith in
          (
            suc n,
            m',
            rw (nonzero, remainder v base, digit, more, sym next) runs,
            omega arith,
            more-Converted m m' ptr v base n two large rest,
          )
    ]
