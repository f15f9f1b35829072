-- ===== src/Stdio/Digits.antt =====
-- The digit loop: what it prints, and when it overruns `temp`.
use mathlib.Core.List.{foldl}
use mathlib.Core.Path.{subst}
use native.Mathlib.Nat.{
  mod-lt, div-add-mod', div-eq_of_lt, pow-suc, pow-zero, div-lt_iff_lt-mul, le-div_iff_mul-le,
  one-le-pow,
}
use dvnetos.Base.{
  ℕ, zero, suc, ◌+◌, ◌*◌, ◌/◌, ◌%◌, ◌≤◌, ◌<◌, ◌^◌, ◌≡◌, refl, ◌∙◌, sym, ap, List, ◌∷◌, arith, ◌==◌,
  Bool-cases, inl, inr, true, false, All, length,
}
use dvnetos.Stdio.{ok, undefined, digits_loop}

-- The number that digits of a base spell behind `v`.
abbrev pub value : (base : ℕ) → (ℕ → ℕ) → ℕ → List ℕ → ℕ
value base digit = foldl (λ v c. v * base + digit c)

-- `digit` reads back what `show` writes.
module _ (base : ℕ) (show digit : ℕ → ℕ) (pos : 1 < base)
    (reads : (d : ℕ) → d < base → digit (show d) ≡ d) where
  step-value : (v : ℕ) → v / base * base + digit (show (v % base)) ≡ v
  step-value v = rw (reads (v % base) (mod-lt v (omega arith))) (div-add-mod' v base)

  -- What the loop prints is a numeral for `v`, in front of what `temp` holds.
  pub digits_loop-value :
      (room v : ℕ) (temp cs : List ℕ)
      → digits_loop room base show v temp ≡ ok cs
      → value base digit 0 cs ≡ value base digit v temp
  unfolding digits_loop
  digits_loop-value zero v temp cs h = cc
  digits_loop-value (suc room) v temp cs h = elim (Bool-cases (v / base == 0)) [
    | inl e ↦
        let h' = rw e at h in
        let last : cs ≡ show (v % base) ∷ temp = ground arith in
        rw last (
          ap (λ k. foldl (λ v c. v * base + digit c) k temp)
            (ap (λ q. q * base + digit (show (v % base))) (sym (zero_quotient e)) ∙ step-value v))
    | inr e ↦
        digits_loop-value room (v / base) (show (v % base) ∷ temp) cs (rw e at h)
        ∙ ap (λ k. foldl (λ v c. v * base + digit c) k temp) (step-value v)
  ]
    where
      zero_quotient : (v / base == 0) ≡ true → v / base ≡ 0
      zero_quotient e = ground arith

-- What the loop prints are characters of digits, in front of what `temp` holds.
pub digits_loop-All {κ} :
    (P : ℕ → Type κ) (base : ℕ) (show : ℕ → ℕ)
    → 1 < base
    → ((d : ℕ) → d < base → P (show d))
    → (room v : ℕ) (temp cs : List ℕ) → digits_loop room base show v temp ≡ ok cs
    → All P temp
    → All P cs
unfolding digits_loop
digits_loop-All P base show pos shown zero v temp cs h a = cc
digits_loop-All P base show pos shown (suc room) v temp cs h a =
    let here : P (show (v % base)) = shown (v % base) (mod-lt v (omega arith)) in
    elim (Bool-cases (v / base == 0)) [
      | inl e ↦
          let h' = rw e at h in
          let last : show (v % base) ∷ temp ≡ cs = ground arith in subst (All P) last (here, a)
      | inr e ↦
          digits_loop-All P base show pos shown room (v / base) (show (v % base) ∷ temp) cs
            (rw e at h) (here, a)
    ]

-- The loop prints no more characters than `temp` has room for.
pub length-digits_loop :
    (room base : ℕ) (show : ℕ → ℕ) (v : ℕ) (temp cs : List ℕ)
    → digits_loop room base show v temp ≡ ok cs
    → length cs ≤ room + length temp
unfolding digits_loop
length-digits_loop zero base show v temp cs h = cc
length-digits_loop (suc room) base show v temp cs h = elim (Bool-cases (v / base == 0)) [
  | inl e ↦
      let h' = rw e at h in
      let last : cs ≡ show (v % base) ∷ temp = ground arith in rw last (omega arith)
  | inr e ↦
      omega (
        arith,
        length-digits_loop room base show (v / base) (show (v % base) ∷ temp) cs (rw e at h),
      )
]

module _ (base : ℕ) (show : ℕ → ℕ) (pos : 1 < base) where
  -- Enough room in `temp`.
  pub digits_loop-ok :
      (room v : ℕ) (temp : List ℕ)
      → v < base ^ suc room
      → (cs : List ℕ) × (digits_loop (suc room) base show v temp ≡ ok cs)
  unfolding digits_loop
  digits_loop-ok zero v temp h =
      let small : v / base ≡ 0 = div-eq_of_lt (grind (arith, pow-suc, pow-zero)) in
      (show (v % base) ∷ temp, rw small)
  digits_loop-ok (suc room) v temp h = elim (Bool-cases (v / base == 0)) [
    | inl e ↦ (show (v % base) ∷ temp, rw e)
    | inr e ↦
        let less = (div-lt_iff_lt-mul (omega arith)).1 (rw pow-suc at h) in
        let (cs, run) = digits_loop-ok room (v / base) (show (v % base) ∷ temp) less in
        (cs, rw e run)
  ]

  -- Too little room: the loop stores behind `temp`.
  pub digits_loop-undefined :
      (room v : ℕ) (temp : List ℕ) → base ^ room ≤ v → digits_loop room base show v temp ≡ undefined
  unfolding digits_loop
  digits_loop-undefined zero v temp h = refl
  digits_loop-undefined (suc room) v temp h =
      let more = (le-div_iff_mul-le (omega arith)).1 (rw pow-suc at h) in
      let some_left : (v / base == 0) ≡ false =
        ground (arith, one-le-pow room base (omega arith), more) in
      rw some_left (digits_loop-undefined room (v / base) (show (v % base) ∷ temp) more)
