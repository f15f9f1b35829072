-- ===== src/Stdio/Numbers.antt =====
-- The numerals that the formatters print.
use dvnetos.Base.{
  ℕ, ◌+◌, ◌-◌, ◌≤◌, ◌<◌, ◌^◌, ◌≡◌, refl, Bool, List, [], arith, ltb, ◌==◌, if◌then◌else◌, All,
}
use dvnetos.CString.{Mem}
use dvnetos.Stdio.{
  ok, undefined, Spec, emit, decimal_digit, hex_digit, minus, format_decimal, format_hex,
  format_oct,
}
use dvnetos.Stdio.Digits.{
  value, digits_loop-value, digits_loop-All, digits_loop-ok, digits_loop-undefined,
}

abbrev pub decimal_value : ℕ → ℕ
decimal_value c = c - b'0'

-- One of the characters '0' to '9'.
abbrev pub IsDecimal : ℕ → Type 0
IsDecimal c = (b'0' ≤ c) × (c ≤ b'9')

abbrev pub hex_value : ℕ → ℕ → ℕ
hex_value a c = if ltb c b'A' then c - b'0' else c + 10 - a

decimal_value-digit : (d : ℕ) → decimal_value (decimal_digit d) ≡ d
decimal_value-digit d = omega arith

hex_value-digit : (a d : ℕ) → b'A' ≤ a → d < 16 → hex_value a (hex_digit a d) ≡ d
hex_value-digit a d h w = ground arith

-- For every 64-bit magnitude format_decimal returns, and what it prints behind a minus sign, if the
-- number is negative, is a decimal numeral of the magnitude: all its characters are from '0' to
-- '9', and as digits of base 10 they make up the magnitude.
pub format_decimal-value :
    (m : Mem) (buf n : ℕ) (negative : Bool) (v : ℕ)
    → v < 2 ^ 64
    → (ds : List ℕ) × (format_decimal m buf n negative v ≡ ok (emit m buf n 0 (minus negative ds)))
      × All IsDecimal ds
      × (value 10 decimal_value 0 ds ≡ v)
unfolding format_decimal
format_decimal-value m buf n negative v h =
    let (ds, run) = digits_loop-ok 10 decimal_digit (omega arith) 19 v [] (omega arith) in
    (
      ds,
      rw run refl,
      digits_loop-All IsDecimal 10 decimal_digit (omega arith) (λ d w. (omega arith, omega arith))
          20 v [] ds run tt,
      digits_loop-value 10 decimal_digit decimal_value (omega arith) (λ d w. decimal_value-digit d)
          20 v [] ds run,
    )

abbrev pub ten : Spec → ℕ
ten spec = if spec.type == b'X' then b'A' else b'a'

-- For every 64-bit value format_hex returns, and what it prints is a hexadecimal numeral of the
-- value, with capital letters for %X and small ones otherwise.
pub format_hex-value :
    (m : Mem) (buf n : ℕ) (spec : Spec) (v : ℕ)
    → v < 2 ^ 64
    → (ds : List ℕ) × (format_hex m buf n spec v ≡ ok (emit m buf n 0 ds))
      × (value 16 (hex_value (ten spec)) 0 ds ≡ v)
unfolding format_hex
format_hex-value m buf n spec v h =
    let show = hex_digit (ten spec) in
    let (ds, run) = digits_loop-ok 16 show (omega arith) 19 v [] (omega arith) in
    (
      ds,
      rw run refl,
      digits_loop-value 16 show (hex_value (ten spec)) (omega arith)
          (λ d w. hex_value-digit (ten spec) d (ground arith) w) 20 v [] ds run,
    )

-- format_oct stores behind its array `temp` for every value from 2^60 on; below, it returns and
-- prints an octal numeral of the value.
pub format_oct-bound :
    (m : Mem) (buf n v : ℕ)
    → (2 ^ 60 ≤ v → format_oct m buf n v ≡ undefined)
      × (v < 2 ^ 60
          → (ds : List ℕ) × (format_oct m buf n v ≡ ok (emit m buf n 0 ds))
            × (value 8 decimal_value 0 ds ≡ v))
unfolding format_oct
format_oct-bound m buf n v = (
  λ h. rw (digits_loop-undefined 8 decimal_digit (omega arith) 20 v [] (omega arith)) refl,
  λ h.
      let (ds, run) = digits_loop-ok 8 decimal_digit (omega arith) 19 v [] (omega arith) in
      (
        ds,
        rw run refl,
        digits_loop-value 8 decimal_digit decimal_value (omega arith) (λ d w. decimal_value-digit d)
            20 v [] ds run,
      ),
)
