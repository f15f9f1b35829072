-- ===== src/Base/Grid.antt =====
-- Cells of a grid whose rows of `l` cells stand one behind the other.
use Prim.Native.Nat.{ℕ, ◌+◌, ◌*◌, ◌≤◌, ◌<◌}
use mathlib.Core.Path.{◌≡◌}
use mathlib.Core.Bool.{◌&&◌}
use mathlib.Core.Logic.{inl, inr, ◌⊎◌}
use native.Mathlib.Nat.{mul-le-mul_right}
use native.Mathlib.Omega.{arith}
use dvnetos.Base.Tests.{ltb, ◌==◌, Bool-cases}

-- Two numbers are the same, or one is less.
pub order-cases : (a b : ℕ) → (a ≡ b) ⊎ ((a + 1 ≤ b) ⊎ (b + 1 ≤ a))
order-cases a b = elim (Bool-cases (a == b)) [
  | inl here ↦ inl (ground (arith, here))
  | inr elsewhere ↦ elim (Bool-cases (ltb a b)) [
    | inl before ↦ inr (inl (ground (arith, before)))
    | inr behind ↦ inr (inr (ground (arith, elsewhere, behind)))
  ]
]

-- A row that is before another ends before it.
pub row_before : (l y py : ℕ) → y + 1 ≤ py → y * l + l ≤ py * l
row_before l y py before =
    let less : (y + 1) * l ≤ py * l = mul-le-mul_right l before in
    let one_more : (y + 1) * l ≡ y * l + l = omega arith in omega (arith, less, one_more)

pub same_cell :
    (l r c r' c' : ℕ) → c < l → c' < l → (r * l + c == r' * l + c') ≡ (r == r' && c == c')
same_cell l r c r' c' h h' = elim (order-cases r r') [
  | inl here ↦ rw here (ground arith)
  | inr (inl before) ↦ ground (arith, row_before l r r' before)
  | inr (inr behind) ↦ ground (arith, row_before l r' r behind)
]
